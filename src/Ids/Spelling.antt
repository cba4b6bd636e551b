-- ===== src/Ids/Spelling.antt =====
-- The URL-safe spelling of ids and keys, glopfile-relay/src/id.rs and
-- rust-client/glopfile/src/url_safe_base64.rs.
use glopfile.Base.{
  ℕ, ◌≡◌, ◌≢◌, refl, ap, ◌∙◌, false, Bytes, [], ◌∷◌, ok, err, arith, map, length, ◌==◌,
  if◌then◌else◌, All,
}
use glopfile.Text.{Text}
use glopfile.Client.Errors.{Error}
use glopfile.Ids.{
  Base64, to_url_char, from_url_char, is_url_char, SessionId, encode_id, decode_id, key_size,
  key_from_string, serialized, invalid_session_id,
}

from-to_url_char : (c : ℕ) → is_url_char c ≡ false → from_url_char (to_url_char c) ≡ c
unfolding to_url_char from_url_char
from-to_url_char c h = ground arith

map_from-to :
    (s : Text) → All (λ c. is_url_char c ≡ false) s → map from_url_char (map to_url_char s) ≡ s
map_from-to [] h = refl
map_from-to (c ∷ s) h = cc (from-to_url_char c h.0, map_from-to s h.1)

-- A character of URLs' own: not one of the three that standard Base64 has and URLs give a meaning.
abbrev pub IsUrlSafe : ℕ → Type 0
IsUrlSafe c = (c ≢ b'+') × (c ≢ b'/') × (c ≢ b'=')

to_url_char-IsUrlSafe : (c : ℕ) → IsUrlSafe (to_url_char c)
unfolding to_url_char
to_url_char-IsUrlSafe c = ground arith

map-IsUrlSafe : (s : Text) → All IsUrlSafe (map to_url_char s)
map-IsUrlSafe [] = tt
map-IsUrlSafe (c ∷ s) = (to_url_char-IsUrlSafe c, map-IsUrlSafe s)

module _ (base64 : Base64) where
  -- The spelling of a session id is read back as that id, unless it is empty, and then it is refused;
  -- and it has no `+`, `/` or `=`.
  pub decode_id-encode_id :
      (b : ℕ) (id : SessionId)
      → (decode_id base64 (encode_id base64 (b ∷ id)) ≡ ok (b ∷ id))
        × (decode_id base64 (encode_id base64 []) ≡ err invalid_session_id)
        × All IsUrlSafe (encode_id base64 (b ∷ id))
  unfolding decode_id encode_id
  decode_id-encode_id b id = (
    rw
        (
          map_from-to (base64.encode (b ∷ id)) (base64.standard (b ∷ id)),
          base64.decode-encode (b ∷ id),
        )
        refl,
    rw (map_from-to (base64.encode []) (base64.standard []), base64.decode-encode []) refl,
    map-IsUrlSafe (base64.encode (b ∷ id)),
  )

  -- A cipher key that a download link carries is read back from it, and a serialized byte string of
  -- another length is refused as a key; and the link has no `+`, `/` or `=` in that place.
  pub key_from_string-serialized :
      (key : Bytes)
      → (key_from_string base64 (serialized base64 key)
          ≡ (if length key == key_size then ok key else err Error.invalid_cipher_key))
        × All IsUrlSafe (serialized base64 key)
  unfolding key_from_string serialized
  key_from_string-serialized key =
      let read =
        ap base64.decode (map_from-to (base64.encode key) (base64.standard key))
        ∙ base64.decode-encode key in
      (rw read refl, map-IsUrlSafe (base64.encode key))
