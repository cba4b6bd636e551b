-- ===== src/Client/Links.antt =====
-- Download links: `download_url_without_cipher_key` and `formatted_download_url_and_key` of
-- rust-client/glopfile/src/uploader_client.rs, `parse_download_url` of
-- rust-client/glopfile/src/downloader_client.rs and `DownloadId` of rust-client/glopfile/src/api_client.rs.
-- URLs are those of the url library. A panic is `none`.
pub mod RoundTrip
use glopfile.Base.{
  ℕ, ◌≡◌, Bool, true, ◌&&◌, ◌||◌, Bytes, ◌∷◌, ◌++◌, Option, none, some, Result, ok, err, ◌>>=◌,
  ok_or, All, leb, ◌==◌, if◌then◌else◌,
}
use glopfile.Text.{Text, codes, strip_prefix, contains, is_digit}
use glopfile.Ids.{Base64, key_from_string, serialized}
use glopfile.Client.Errors.{Error}

-- The letters, the digits, and what the URL-safe spelling and links have besides them: characters that
-- stand for themselves in the path and in the fragment of a URL.
abbrev pub is_plain : ℕ → Bool
is_plain c =
    is_digit c
    || (leb b'a' c && leb c b'z')
    || (leb b'A' c && leb c b'Z')
    || c == b'-'
    || c == b'_'
    || c == b'~'
    || c == b'/'
    || c == b'='

-- What stands behind the first `#` of a URL that a fragment is put behind once more.
abbrev pub behind : Option Text → Text → Text
behind none f = f
behind (some old) f = old ++ b'#' ∷ f

-- `url::Url`: the path of a URL that can be a base can be set, which keeps its fragment, and a URL is read
-- back from what it is displayed as, with a fragment behind it.
pub record UrlLibrary : Type 1 where
  pub Url : Type 0
  pub parse : Text → Option Url
  pub path : Url → Text
  pub fragment : Url → Option Text
  pub can_be_base : Url → Bool
  pub set_path : Text → Url → Url
  pub display : Url → Text
  pub parse-display :
      (u : Url) (p f : Text)
      → can_be_base u ≡ true
      → All (λ c. is_plain c ≡ true) p
      → All (λ c. is_plain c ≡ true) f
      → (v : Url) × (parse (display (set_path (b'/' ∷ p) u) ++ b'#' ∷ f) ≡ some v)
        × (path v ≡ b'/' ∷ p)
        × (fragment v ≡ some (behind (fragment u) f))

-- `DownloadId::new`.
abbrev pub new_download_id : Text → Option Text
new_download_id id = if contains b'/' id then none else some id

module _ (urls : UrlLibrary) (base64 : Base64) where
  -- `download_url_without_cipher_key` at an endpoint.
  unfoldable pub download_url_without_cipher_key : urls.Url → Text → urls.Url
  download_url_without_cipher_key endpoint id = urls.set_path (codes "/download/" ++ id) endpoint

  -- `formatted_download_url_and_key`.
  unfoldable pub formatted_download_url_and_key : urls.Url → Bytes → Text
  formatted_download_url_and_key url key =
      urls.display url ++ (codes "#cipher_key=" ++ serialized base64 key)

  abbrev pub link_to : urls.Url → Bytes → Option Text → Option Text
  link_to endpoint key none = none
  link_to endpoint key (some id) =
      some (formatted_download_url_and_key (download_url_without_cipher_key endpoint id) key)

  -- What `provision_file_async` makes of the id in the relay's answer, and the link to it.
  unfoldable pub provisioned_link : urls.Url → Bytes → Text → Option Text
  provisioned_link endpoint key id = link_to endpoint key (new_download_id id)

  -- The key in a fragment.
  unfoldable pub link_key : Option Text → Result Error Bytes
  link_key fragment = do
    f ← ok_or fragment (Error.invalid_input "download url was missing fragment")
    s ←
        ok_or (strip_prefix (codes "cipher_key=") f)
          (Error.invalid_input "download url cipher_key was invalid or missing")
    key_from_string base64 s

  -- The id in a path, or a panic.
  abbrev pub id_result : Option Text → Option (Result Error Text)
  id_result none = none
  id_result (some id) = some (ok id)

  abbrev pub id_of : Option Text → Option (Result Error Text)
  id_of none = some (err (Error.invalid_input "Invalid download url"))
  id_of (some id) =
      if contains b'/' id
      then some (err (Error.invalid_input "Invalid download url"))
      else id_result (new_download_id id)

  unfoldable pub link_id : Text → Option (Result Error Text)
  link_id path = id_of (strip_prefix (codes "/download/") path)

  abbrev pub with_key : Bytes → Option (Result Error Text) → Option (Result Error (Text × Bytes))
  with_key key none = none
  with_key key (some (err e)) = some (err e)
  with_key key (some (ok id)) = some (ok (id, key))

  abbrev pub and_id : Result Error Bytes → Text → Option (Result Error (Text × Bytes))
  and_id (err e) path = some (err e)
  and_id (ok key) path = with_key key (link_id path)

  abbrev pub link_parts : Option urls.Url → Option (Result Error (Text × Bytes))
  link_parts none = some (err (Error.invalid_input "unparseable download url"))
  link_parts (some u) = and_id (link_key (urls.fragment u)) (urls.path u)

  -- `parse_download_url`.
  unfoldable pub parse_download_url : Text → Option (Result Error (Text × Bytes))
  parse_download_url text = link_parts (urls.parse text)
