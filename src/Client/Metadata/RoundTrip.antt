-- ===== src/Client/Metadata/RoundTrip.antt =====
-- The metadata that `provision_file` of rust-client/glopfile/src/api_client.rs posts, as `fetch_meta`
-- reads it.
use glopfile.Base.{
  ℕ, ◌≡◌, refl, ap, Bytes, List, Option, some, Option-cases, inl, inr, Bool, ok, length, arith,
}
use glopfile.Text.{Text}
use glopfile.Ids.{Base64}
use glopfile.Client.Cipher.{Cipher, Usage, nonce_size, from_plaintext, encrypt}
use glopfile.Client.Cipher.Buffers.{decrypt-encrypt}
use glopfile.Client.Upload.{HttpResponse}
use glopfile.Client.Requests.{Attempt, Awaited, retry, successful}
use glopfile.Client.Metadata.{
  FileMeta, ProvisionFileResponse, Json, Utf8, try_from_encoded, encoded_metadata, decoded_metadata,
  provision_file, fetch_meta,
}

module _ (json : Json) (utf8 : Utf8) (base64 : Base64) (cipher : Cipher) where
  written_lem :
      (filler nonce : Bytes) (meta : FileMeta) (form : Text)
      → encoded_metadata json utf8 base64 cipher filler nonce meta ≡ ok form
      → (s : Text) × (json.write_meta meta ≡ some s)
  unfolding encoded_metadata
  written_lem filler nonce meta form e = elim (Option-cases (json.write_meta meta)) [
    | inl n ↦ absurd (ground (arith, e, n))
    | inr (s, n) ↦ (s, n)
  ]

  -- The form, for metadata that are written so.
  abbrev form_of : Bytes → Bytes → Text → Text
  form_of filler nonce s =
      base64.encode (encrypt cipher nonce Usage.metadata (from_plaintext filler (utf8.encode s)))

  form_lem :
      (filler nonce : Bytes) (meta : FileMeta) (form s : Text)
      → encoded_metadata json utf8 base64 cipher filler nonce meta ≡ ok form
      → json.write_meta meta ≡ some s
      → form ≡ form_of filler nonce s
  unfolding encoded_metadata
  form_lem filler nonce meta form s e w = ground (arith, e, w)

  decoded_lem :
      (filler nonce : Bytes) (meta : FileMeta) (url s : Text)
      → length filler ≡ nonce_size
      → length nonce ≡ nonce_size
      → json.write_meta meta ≡ some s
      → decoded_metadata json utf8 base64 cipher
          (record { encrypted_content_url = url; encoded = form_of filler nonce s })
        ≡ ok (record { encrypted_content_url = url; file_meta = meta })
  unfolding decoded_metadata try_from_encoded
  decoded_lem filler nonce meta url s f n w =
      rw
        (
          base64.decode-encode _,
          (decrypt-encrypt cipher nonce filler (utf8.encode s) Usage.metadata n f).0,
          utf8.decode-encode s,
          json.read-write_meta meta s w,
        )
        refl

  decoded-encoded :
      (filler nonce : Bytes) (meta : FileMeta) (form url : Text)
      → length filler ≡ nonce_size
      → length nonce ≡ nonce_size
      → encoded_metadata json utf8 base64 cipher filler nonce meta ≡ ok form
      → decoded_metadata json utf8 base64 cipher
          (record { encrypted_content_url = url; encoded = form })
        ≡ ok (record { encrypted_content_url = url; file_meta = meta })
  decoded-encoded filler nonce meta form url f n e =
      let (s, w) = written_lem filler nonce meta form e in
      rw (form_lem filler nonce meta form s e w) (decoded_lem filler nonce meta url s f n w)

  module _ (is_success : ℕ → Bool) (is_server_error : ℕ → Option Bool) where
    provision_form :
        (filler nonce : Bytes) (meta : FileMeta) (ps : List Attempt) (form : Text)
        (answer : Awaited ProvisionFileResponse)
        → provision_file json utf8 base64 cipher is_success is_server_error filler nonce meta ps
          ≡ ok (form, answer)
        → encoded_metadata json utf8 base64 cipher filler nonce meta ≡ ok form
    unfolding provision_file
    provision_form filler nonce meta ps form answer e = ground (arith, e)

    -- A downloader reads back the metadata that an uploader provisioned a file with: if the posted form
    -- carries them, if the nonces have 12 bytes, and if the request for them is answered, after any failed
    -- attempts, with a body that carries just that form, `fetch_meta` ends with them and the content URL
    -- of the body.
    pub fetch_meta-provision_file :
        (filler nonce : Bytes) (meta : FileMeta) (ps xs : List Attempt) (form : Text)
        (answer : Awaited ProvisionFileResponse) (r : HttpResponse) (body : Bytes) (url : Text)
        → length filler ≡ nonce_size
        → length nonce ≡ nonce_size
        → provision_file json utf8 base64 cipher is_success is_server_error filler nonce meta ps
          ≡ ok (form, answer)
        → retry is_server_error (successful is_success "failed to fetch download details") xs
          ≡ Awaited.ended (ok r)
        → r.body ≡ ok body
        → json.read_download body ≡ some (record { encrypted_content_url = url; encoded = form })
        → fetch_meta json utf8 base64 cipher is_success is_server_error xs
          ≡ Awaited.ended (ok (record { encrypted_content_url = url; file_meta = meta }))
    unfolding fetch_meta
    fetch_meta-provision_file filler nonce meta ps xs form answer r body url f n p q b d =
        rw (q, b, d)
          (ap Awaited.ended (
            decoded-encoded filler nonce meta form url f n
              (provision_form filler nonce meta ps form answer p)))
