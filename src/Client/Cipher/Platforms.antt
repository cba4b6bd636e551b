-- ===== src/Client/Cipher/Platforms.antt =====
-- The ciphers of native platforms and of browsers, rust-client/glopfile/src/cipher/native.rs and web.rs,
-- and `ContentCipher` of rust-client/glopfile/src/cipher.rs over them. The libraries are records of
-- operations; a panic is `none`. A buffer has at least the 28 bytes of its nonce and its tag.
pub mod Parts
pub mod Agreement
use Prim.Native.String.{String}
use glopfile.Base.{
  ◌-◌, Bytes, [], ◌++◌, Option, none, some, Result, ok, err, length, take, drop, ◌==◌,
  if◌then◌else◌,
}
use glopfile.Client.Errors.{Error}
use glopfile.Client.Cipher.{
  nonce_size, tag_size, Usage, info, Buffer, from_nonce_and_ciphertext, into_plaintext, nonce_of,
  payload_and_tag, tag_of,
}

-- What goes on unless there was a panic.
abbrev pub unless_panic {ℓ κ} : {A : Type ℓ} {B : Type κ} → Option A → (A → Option B) → Option B
unless_panic none f = none
unless_panic (some a) f = f a

-- The trait `CipherImpl`.
pub record CipherImpl : Type 1 where
  pub Key : Type 0
  pub derive_new : (base_key : Bytes) → (hkdf_info : String) → Option Key
  pub encrypt : Key → Buffer → (aad : Bytes) → Option Bytes
  pub decrypt : Key → Buffer → (aad : Bytes) → Option (Result Error Bytes)

-- Another nonce, or another payload and tag, in the place of those of a buffer.
abbrev pub with_nonce : Bytes → Buffer → Buffer
with_nonce nonce b = record { bytes = nonce ++ drop nonce_size b.bytes }

abbrev pub with_rest : Bytes → Buffer → Buffer
with_rest rest b = record { bytes = take nonce_size b.bytes ++ rest }

module _ (cipher : CipherImpl) (base_key : Bytes) where
  -- `ContentCipher::encrypt`, by the bytes of its random nonce.
  unfoldable pub content_encrypt : (nonce : Bytes) → Usage → Buffer → Option Bytes
  content_encrypt nonce usage plaintext =
      unless_panic (cipher.derive_new base_key (info usage))
        (λ key. cipher.encrypt key (with_nonce nonce plaintext) [])

  abbrev content_decrypt_buffer : Usage → Result Error Buffer → Option (Result Error Bytes)
  content_decrypt_buffer usage (err e) = some (err e)
  content_decrypt_buffer usage (ok b) =
      unless_panic (cipher.derive_new base_key (info usage)) (λ key. cipher.decrypt key b [])

  -- `ContentCipher::decrypt`.
  unfoldable pub content_decrypt : Usage → Bytes → Option (Result Error Bytes)
  content_decrypt usage bytes = content_decrypt_buffer usage (from_nonce_and_ciphertext bytes)

-- The libraries of native platforms: HKDF over SHA-256 with no salt, for a key of 32 bytes, and AES-GCM
-- with the tag apart.
pub record NativeLibrary : Type 1 where
  pub Aes : Type 0
  pub expand : (base_key : Bytes) → (info : String) → Option Bytes
  pub new : (aes_key : Bytes) → Aes
  pub encrypt_detached : Aes → (nonce aad payload : Bytes) → Option (Bytes × Bytes)
  pub decrypt_detached : Aes → (nonce aad payload tag : Bytes) → Option Bytes

module _ (library : NativeLibrary) where
  unfoldable pub native_derive_new : Bytes → String → Option library.Aes
  native_derive_new base_key hkdf_info =
      unless_panic (library.expand base_key hkdf_info) (λ key. some (library.new key))

  unfoldable pub native_encrypt : library.Aes → Buffer → Bytes → Option Bytes
  native_encrypt aes b aad =
      unless_panic (library.encrypt_detached aes (nonce_of b) aad (into_plaintext b))
        (λ sealed. some (with_rest (sealed.0 ++ sealed.1) b).bytes)

  abbrev opened : Buffer → Option Bytes → Result Error Bytes
  opened b none = err Error.decrypt
  opened b (some payload) = ok (into_plaintext (with_rest (payload ++ tag_of b) b))

  unfoldable pub native_decrypt : library.Aes → Buffer → Bytes → Option (Result Error Bytes)
  native_decrypt aes b aad =
      some (opened b (library.decrypt_detached aes (nonce_of b) aad (into_plaintext b) (tag_of b)))

  -- `NativeCipher`.
  abbrev pub native_cipher : CipherImpl
  native_cipher = record {
    Key = library.Aes;
    derive_new = native_derive_new;
    encrypt = native_encrypt;
    decrypt = native_decrypt;
  }

-- `SubtleCrypto`: the import and the derivation of a key, with an empty salt, and AES-GCM with the tag
-- behind the ciphertext. `none` is a call that throws, or a promise that is rejected; from `decrypt`, it is a
-- call that throws, and `some none` a promise that is rejected.
pub record SubtleCrypto : Type 1 where
  pub BaseKey : Type 0
  pub CryptoKey : Type 0
  pub import_key : Bytes → Option BaseKey
  pub derive_key : (info : String) → BaseKey → Option CryptoKey
  pub encrypt : CryptoKey → (nonce aad payload : Bytes) → Option Bytes
  pub decrypt : CryptoKey → (nonce aad ciphertext : Bytes) → Option (Option Bytes)

module _ (subtle : SubtleCrypto) where
  unfoldable pub web_derive_new : Bytes → String → Option subtle.CryptoKey
  web_derive_new base_key hkdf_info =
      unless_panic (subtle.import_key base_key) (subtle.derive_key hkdf_info)

  -- `Uint8Array::copy_to` panics unless the lengths are the same.
  abbrev copied {ℓ} : {A : Type ℓ} → (output target : Bytes) → A → Option A
  copied output target a = if length output == length target then some a else none

  unfoldable pub web_encrypt : subtle.CryptoKey → Buffer → Bytes → Option Bytes
  web_encrypt key b aad =
      unless_panic (subtle.encrypt key (nonce_of b) aad (into_plaintext b))
        (λ output. copied output (payload_and_tag b) (with_rest output b).bytes)

  abbrev web_opened : Buffer → Option Bytes → Option (Result Error Bytes)
  web_opened b none = some (err Error.decrypt)
  web_opened b (some output) =
      copied output (into_plaintext b) (ok (into_plaintext (with_rest (output ++ tag_of b) b)))

  unfoldable pub web_decrypt : subtle.CryptoKey → Buffer → Bytes → Option (Result Error Bytes)
  web_decrypt key b aad =
      unless_panic (subtle.decrypt key (nonce_of b) aad (payload_and_tag b)) (web_opened b)

  -- `WebCipher`.
  abbrev pub web_cipher : CipherImpl
  web_cipher = record {
    Key = subtle.CryptoKey;
    derive_new = web_derive_new;
    encrypt = web_encrypt;
    decrypt = web_decrypt;
  }
