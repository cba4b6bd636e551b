-- ===== src/Client/Metadata.antt =====
-- The metadata of a file, `FileMeta` of rust-client/glopfile/src/api_client.rs: how `provision_file` sends
-- it and how `fetch_meta` reads it. JSON, UTF-8 and Base64 are those of libraries.
pub mod RoundTrip
use Prim.Native.String.{String}
use glopfile.Base.{ℕ, Bytes, List, Option, none, some, Bool, Result, ok, err, ◌>>=◌, ok_or, ◌≡◌}
use glopfile.Text.{Text}
use glopfile.Ids.{Base64}
use glopfile.Client.Errors.{Error}
use glopfile.Client.Cipher.{Cipher, Usage, from_plaintext, encrypt, decrypt}
use glopfile.Client.Upload.{HttpResponse}
use glopfile.Client.Requests.{Attempt, Awaited, retry, successful}

pub record FileMeta : Type 0 where
  pub file_name : Text
  pub file_size : ℕ

-- `EncodedDownloadMeta`.
pub record EncodedDownloadMeta : Type 0 where
  pub encrypted_content_url : Text
  pub encoded : Text

pub record DownloadMeta : Type 0 where
  pub encrypted_content_url : Text
  pub file_meta : FileMeta

pub record ProvisionFileResponse : Type 0 where
  pub upload_url : Text
  pub download_id : Text

-- `serde_json` on the types above: a file's metadata may be unserializable, and is read back.
pub record Json : Type 0 where
  pub write_meta : FileMeta → Option Text
  pub read_meta : Text → Option FileMeta
  pub read_download : Bytes → Option EncodedDownloadMeta
  pub read_provision : Bytes → Option ProvisionFileResponse
  pub read-write_meta : (m : FileMeta) (s : Text) → write_meta m ≡ some s → read_meta s ≡ some m

-- `String::as_bytes` and `String::from_utf8`.
pub record Utf8 : Type 0 where
  pub encode : Text → Bytes
  pub decode : Bytes → Option Text
  pub decode-encode : (s : Text) → decode (encode s) ≡ some s

module _ (json : Json) (utf8 : Utf8) where
  -- `FileMeta::try_from_encoded`.
  unfoldable pub try_from_encoded : Bytes → Result Error FileMeta
  try_from_encoded bytes = do
    string ←
        ok_or (utf8.decode bytes) (Error.invalid_input "invalid unicode in FileMeta serialization")
    ok_or (json.read_meta string) (Error.invalid_input "Invalid json in FileMeta serialization")

  -- `response.json()`.
  abbrev pub json_body : {A : Type 0} → (Bytes → Option A) → HttpResponse → Result Error A
  json_body read r = do
    bytes ← r.body
    ok_or (read bytes) (Error.http_client "error decoding response body")

  abbrev pub and_read :
      {A : Type 0} → (HttpResponse → Result Error A) → Awaited HttpResponse → Awaited A
  and_read read Awaited.waiting = Awaited.waiting
  and_read read (Awaited.ended (err e)) = Awaited.ended (err e)
  and_read read (Awaited.ended (ok r)) = Awaited.ended (read r)

  module _ (base64 : Base64) (cipher : Cipher) where
    -- The `encrypted_metadata` of the form that `provision_file` posts; the nonces are arguments.
    unfoldable pub encoded_metadata : (filler nonce : Bytes) → FileMeta → Result Error Text
    encoded_metadata filler nonce meta = do
      metadata_json ← ok_or (json.write_meta meta) (Error.invalid_input "unserializable upload")
      ok (
          base64.encode (
            encrypt cipher nonce Usage.metadata
              (from_plaintext filler (utf8.encode metadata_json))))

    -- What `fetch_meta` makes of the metadata of a response.
    unfoldable pub decoded_metadata : EncodedDownloadMeta → Result Error DownloadMeta
    unfolding try_from_encoded
    decoded_metadata response = do
      decoded ←
          ok_or (base64.decode response.encoded)
            (Error.invalid_input "invalid base64 encoding of metadata")
      decrypted ← decrypt cipher Usage.metadata decoded
      file_meta ← try_from_encoded decrypted
      ok (record { encrypted_content_url = response.encrypted_content_url; file_meta = file_meta })

    module _ (is_success : ℕ → Bool) (is_server_error : ℕ → Option Bool) where
      -- `provision_file`, as the form that it posts and what comes of the replies to it.
      unfoldable pub provision_file :
          (filler nonce : Bytes)
          → FileMeta
          → List Attempt
          → Result Error (Text × Awaited ProvisionFileResponse)
      unfolding encoded_metadata
      provision_file filler nonce meta xs = do
        form ← encoded_metadata filler nonce meta
        ok (
          form,
          and_read (json_body json.read_provision)
              (retry is_server_error (successful is_success "failed to provision file") xs),
        )

      -- `fetch_meta`, from the replies to its request.
      unfoldable pub fetch_meta : List Attempt → Awaited DownloadMeta
      unfolding decoded_metadata
      fetch_meta xs =
          and_read (λ r. json_body json.read_download r >>= decoded_metadata)
            (retry is_server_error (successful is_success "failed to fetch download details") xs)
