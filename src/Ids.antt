-- ===== src/Ids.antt =====
-- Session ids and their spelling in URLs, glopfile-relay/src/id.rs, and the same spelling of byte
-- strings in the client, rust-client/glopfile/src/url_safe_base64.rs, with the cipher keys of
-- rust-client/glopfile/src/cipher.rs. Standard Base64 is the base64 library's.
pub mod Spelling
use Prim.Native.Nat.{◌^◌}
use glopfile.Base.{
  ℕ, ◌≡◌, Bool, true, false, ◌&&◌, not, Bytes, List, [], ◌∷◌, Option, none, some, Result, ok, err,
  map, length, ◌==◌, if◌then◌else◌, ok_or, ◌>>=◌, All,
}
use glopfile.Text.{Text}
use glopfile.Client.Errors.{Error}

-- `to_url_char`.
unfoldable pub to_url_char : ℕ → ℕ
to_url_char c =
    if c == b'+' then b'-' else if c == b'/' then b'_' else if c == b'=' then b'~' else c

-- `from_url_char`.
unfoldable pub from_url_char : ℕ → ℕ
from_url_char c =
    if c == b'-' then b'+' else if c == b'_' then b'/' else if c == b'~' then b'=' else c

-- A character that standard Base64 does not use, and that stands in URLs for one that it does.
abbrev pub is_url_char : ℕ → Bool
is_url_char c = if c == b'-' then true else if c == b'_' then true else c == b'~'

-- `base64::engine::general_purpose::STANDARD`: its alphabet is the letters, the digits, `+` and `/`,
-- padded by `=`, and decoding undoes encoding.
pub record Base64 : Type 0 where
  pub encode : Bytes → Text
  pub decode : Text → Option Bytes
  pub decode-encode : (bytes : Bytes) → decode (encode bytes) ≡ some bytes
  pub standard : (bytes : Bytes) → All (λ c. is_url_char c ≡ false) (encode bytes)

pub data InvalidSessionId : Type 0 where
  invalid_session_id : InvalidSessionId

abbrev pub SessionId : Type 0
SessionId = Bytes

abbrev pub key_size : ℕ
key_size = 32

module _ (base64 : Base64) where
  -- `SessionId::encode`.
  unfoldable pub encode_id : SessionId → Text
  encode_id id = map to_url_char (base64.encode id)

  -- `SessionId::decode`.
  unfoldable pub decode_id : Text → Result InvalidSessionId SessionId
  decode_id encoded = do
    bytes ← ok_or (base64.decode (map from_url_char encoded)) invalid_session_id
    elim bytes [ [] ↦ err invalid_session_id | b ∷ bs ↦ ok (b ∷ bs) ]

  -- `url_safe_base64::encode` and `url_safe_base64::decode` of the client.
  unfoldable pub encode : Bytes → Text
  encode bytes = map to_url_char (base64.encode bytes)

  unfoldable pub decode : Text → Option Bytes
  decode text = base64.decode (map from_url_char text)

  -- `CipherKey::from_string`: the key has `KEY_SIZE` bytes.
  unfoldable pub key_from_string : Text → Result Error Bytes
  unfolding decode
  key_from_string text = do
    bytes ← ok_or (decode text) Error.invalid_cipher_key
    if length bytes == key_size then ok bytes else err Error.invalid_cipher_key

  -- `CipherKey::serialized`.
  unfoldable pub serialized : Bytes → Text
  unfolding encode
  serialized key = encode key
