-- ===== src/Examples/Ciphers.antt =====
-- A cipher for the examples, and the theorem on the ciphers of platforms at a concrete input.
use Prim.Native.String.{String}
use glopfile.Base.{
  ℕ, ◌-◌, ◌≡◌, refl, ap, Bytes, [], ◌∷◌, ◌++◌, length, length-append, replicate, take,
  take-append_length, some, arith,
}
use glopfile.Client.Cipher
use glopfile.Client.Cipher.{Cipher, Usage, Buffer}
use glopfile.Client.Cipher.Platforms.{
  content_encrypt, content_decrypt, NativeLibrary, native_cipher, SubtleCrypto, web_cipher,
}
use glopfile.Client.Cipher.Platforms.Parts.{NativeDocumented, WebDocumented}
use glopfile.Client.Cipher.Platforms.Agreement.{platforms_agree}

-- A cipher that leaves the bytes as they are.
pub plain_lengths :
    (purpose : String) (nonce plaintext : Bytes)
    → (length plaintext ≡ length plaintext) × (length (replicate {A = ℕ} 16 0) ≡ 16)
plain_lengths purpose nonce plaintext = (refl, refl)

abbrev pub plain : Cipher
plain = record {
  seal = λ purpose nonce plaintext. (plaintext, replicate 16 0);
  unseal = λ purpose nonce ciphertext tag. some ciphertext;
  seal_lengths = plain_lengths;
  unseal-seal = λ purpose nonce plaintext. refl;
}

-- The libraries for that cipher.
abbrev library : NativeLibrary
library = record {
  Aes = Bytes;
  expand = λ base_key purpose. some base_key;
  new = λ aes_key. aes_key;
  encrypt_detached = λ aes nonce aad payload. some (payload, replicate 16 0);
  decrypt_detached = λ aes nonce aad payload tag. some payload;
}

abbrev subtle : SubtleCrypto
subtle = record {
  BaseKey = Bytes;
  CryptoKey = Bytes;
  import_key = λ base_key. some base_key;
  derive_key = λ purpose base_key. some base_key;
  encrypt = λ key nonce aad payload. some (payload ++ replicate 16 0);
  decrypt = λ key nonce aad ciphertext. some (some (take (length ciphertext - 16) ciphertext));
}

abbrev base_key : Bytes
base_key = replicate 32 7

library-NativeDocumented : NativeDocumented library base_key plain
library-NativeDocumented = record {
  aes_key = λ purpose. base_key;
  expands = λ purpose. refl;
  seals = λ purpose nonce payload n. refl;
  opens = λ purpose nonce payload tag n t. refl;
}

without_tag :
    (payload tag : Bytes)
    → length tag ≡ 16
    → take (length (payload ++ tag) - 16) (payload ++ tag) ≡ payload
without_tag payload tag t =
    let size : length (payload ++ tag) - 16 ≡ length payload =
      omega (arith, length-append payload tag, t) in
    rw size (take-append_length payload tag (length payload) refl)

subtle-WebDocumented : WebDocumented subtle base_key plain
subtle-WebDocumented = record {
  imported = base_key;
  key = λ purpose. base_key;
  imports = refl;
  derives = λ purpose. refl;
  seals = λ purpose nonce payload n. refl;
  opens = λ purpose nonce payload tag n t. ap (λ p. some (some p)) (without_tag payload tag t);
}

abbrev nonce : Bytes
nonce = replicate 12 1

-- A buffer with a plaintext of two bytes, and what has a ciphertext of three.
abbrev buffer : Buffer
buffer = record { bytes = replicate 12 0 ++ (4 ∷ 5 ∷ []) ++ replicate 16 0 }

abbrev encrypted : Bytes
encrypted = nonce ++ (6 ∷ 7 ∷ 8 ∷ []) ++ replicate 16 0

platforms_agree_example :
    (content_encrypt (native_cipher library) base_key nonce Usage.content buffer
      ≡ some (Cipher.encrypt plain nonce Usage.content buffer))
    × (content_encrypt (web_cipher subtle) base_key nonce Usage.content buffer
        ≡ some (Cipher.encrypt plain nonce Usage.content buffer))
    × (content_decrypt (native_cipher library) base_key Usage.content encrypted
        ≡ some (Cipher.decrypt plain Usage.content encrypted))
    × (content_decrypt (web_cipher subtle) base_key Usage.content encrypted
        ≡ some (Cipher.decrypt plain Usage.content encrypted))
platforms_agree_example =
    platforms_agree plain base_key Usage.content library subtle nonce buffer encrypted
      library-NativeDocumented subtle-WebDocumented
      (λ purpose n payload tag plaintext e. ground (e, arith)) refl (omega arith)
