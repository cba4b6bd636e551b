-- ===== src/Client/Cipher/Platforms/Parts.antt =====
-- What rust-client/glopfile/src/cipher/native.rs and web.rs make of the parts of a buffer.
use Prim.Native.String.{String}
use glopfile.Base.{
  ◌-◌, ◌≤◌, ◌≡◌, refl, sym, ap, ◌∙◌, Bytes, [], ◌++◌, Option, none, some, Result, ok, err, length,
  length-append, take, drop, take-append-drop, length-take, length-drop, arith, true, ==_iff, ◌==◌,
  drop-append_length, take-append_length, Option-cases, inl, inr,
}
use glopfile.Client.Errors.{Error}
use glopfile.Client.Cipher.{nonce_size, tag_size, Usage, info, Buffer, payload_and_tag, Cipher}
use glopfile.Client.Cipher.Buffers.{parts}
use glopfile.Client.Cipher.Platforms
use glopfile.Client.Cipher.Platforms.{
  unless_panic, content_encrypt, content_decrypt, NativeLibrary, native_cipher, SubtleCrypto,
  web_cipher, CipherImpl,
}

-- What the libraries document: keys are derived, and AES-GCM under them is the cipher's; and what opens
-- is as long as what it was opened from.
pub record NativeDocumented (library : NativeLibrary) (base_key : Bytes) (cipher : Cipher)
    : Type 0 where
  pub aes_key : String → Bytes
  pub expands : (purpose : String) → library.expand base_key purpose ≡ some (aes_key purpose)
  pub seals :
      (purpose : String) (nonce payload : Bytes)
      → length nonce ≡ nonce_size
      → library.encrypt_detached (library.new (aes_key purpose)) nonce [] payload
        ≡ some (cipher.seal purpose nonce payload)
  pub opens :
      (purpose : String) (nonce payload tag : Bytes)
      → length nonce ≡ nonce_size
      → length tag ≡ tag_size
      → library.decrypt_detached (library.new (aes_key purpose)) nonce [] payload tag
        ≡ cipher.unseal purpose nonce payload tag

pub record WebDocumented (subtle : SubtleCrypto) (base_key : Bytes) (cipher : Cipher) : Type 0 where
  pub imported : subtle.BaseKey
  pub key : String → subtle.CryptoKey
  pub imports : subtle.import_key base_key ≡ some imported
  pub derives : (purpose : String) → subtle.derive_key purpose imported ≡ some (key purpose)
  pub seals :
      (purpose : String) (nonce payload : Bytes)
      → length nonce ≡ nonce_size
      → subtle.encrypt (key purpose) nonce [] payload
        ≡ some ((cipher.seal purpose nonce payload).0 ++ (cipher.seal purpose nonce payload).1)
  pub opens :
      (purpose : String) (nonce payload tag : Bytes)
      → length nonce ≡ nonce_size
      → length tag ≡ tag_size
      → subtle.decrypt (key purpose) nonce [] (payload ++ tag)
        ≡ some (cipher.unseal purpose nonce payload tag)

-- AES-GCM opens to as many bytes as it was given.
abbrev pub KeepsLength : Cipher → Type 0
KeepsLength cipher =
    (purpose : String) (nonce payload tag plaintext : Bytes)
    → cipher.unseal purpose nonce payload tag ≡ some plaintext
    → length plaintext ≡ length payload

abbrev pub buffer : (nonce payload tag : Bytes) → Buffer
buffer nonce payload tag = record { bytes = nonce ++ (payload ++ tag) }

-- A byte string of at least 28 bytes, taken apart.
pub record Layout (bytes : Bytes) : Type 0 where
  pub nonce : Bytes
  pub payload : Bytes
  pub tag : Bytes
  pub whole : bytes ≡ nonce ++ (payload ++ tag)
  pub nonce_len : length nonce ≡ nonce_size
  pub tag_len : length tag ≡ tag_size

pub layout : (bytes : Bytes) → 28 ≤ length bytes → Layout bytes
layout bytes h =
    let rest = drop 12 bytes in
    let n = length rest - 16 in
    record {
      nonce = take 12 bytes;
      payload = take n rest;
      tag = drop n rest;
      whole = sym (ap (◌++◌ (take 12 bytes)) (take-append-drop n rest) ∙ take-append-drop 12 bytes);
      nonce_len = omega (arith, length-take 12 bytes);
      tag_len = omega (arith, length-drop n rest, length-drop 12 bytes);
    }

abbrev pub opening : Option Bytes → Result Error Bytes
opening none = err Error.decrypt
opening (some plaintext) = ok plaintext

module _ (cipher : Cipher) (base_key : Bytes) (usage : Usage) (nonce payload tag : Bytes)
    (n : length nonce ≡ nonce_size) (t : length tag ≡ tag_size) where
  -- What the cipher makes of the parts.
  abbrev Seals : Option Bytes → Type 0
  Seals r =
      r
      ≡ some (
          nonce
          ++ ((cipher.seal (info usage) nonce payload).0
              ++ (cipher.seal (info usage) nonce payload).1))

  abbrev rest_lem : drop 12 (nonce ++ (payload ++ tag)) ≡ payload ++ tag
  rest_lem = drop-append_length nonce (payload ++ tag) 12 n

  abbrev first_lem : take 12 (nonce ++ (payload ++ tag)) ≡ nonce
  first_lem = take-append_length nonce (payload ++ tag) 12 n

  pub native-Seals :
      (library : NativeLibrary)
      → NativeDocumented library base_key cipher
      → Seals
          (content_encrypt (native_cipher library) base_key nonce usage (buffer nonce payload tag))
  unfolding content_encrypt Platforms.native_encrypt Platforms.native_derive_new
  native-Seals library d =
      let p = parts nonce payload tag n t in
      rw
        (
          d.expands (info usage),
          rest_lem,
          p.0,
          p.1,
          d.seals (info usage) nonce payload n,
          first_lem,
        )
        refl

  same_length : (xs ys : Bytes) → length xs ≡ length ys → (length xs == length ys) ≡ true
  same_length xs ys e = (==_iff (length xs) (length ys)).1 e

  pub web-Seals :
      (subtle : SubtleCrypto)
      → WebDocumented subtle base_key cipher
      → Seals (content_encrypt (web_cipher subtle) base_key nonce usage (buffer nonce payload tag))
  unfolding content_encrypt Platforms.web_encrypt Platforms.web_derive_new payload_and_tag
  web-Seals subtle d =
      let p = parts nonce payload tag n t in
      let sealed = cipher.seal (info usage) nonce payload in
      let lengths = cipher.seal_lengths (info usage) nonce payload in
      let fits = same_length (sealed.0 ++ sealed.1) (payload ++ tag) (
        omega (
          arith,
          length-append (sealed.0) (sealed.1),
          length-append payload tag,
          lengths.0,
          lengths.1,
          t,
        )) in
      rw
        (
          d.imports,
          d.derives (info usage),
          rest_lem,
          p.0,
          p.1,
          d.seals (info usage) nonce payload n,
          rest_lem,
          fits,
          first_lem,
        )
        refl

  pub native_opens :
      (library : NativeLibrary)
      → NativeDocumented library base_key cipher
      → unless_panic
          ((native_cipher library).derive_new base_key (info usage))
          (λ key. (native_cipher library).decrypt key (buffer nonce payload tag) [])
        ≡ some (opening (cipher.unseal (info usage) nonce payload tag))
  unfolding Platforms.native_decrypt Platforms.native_derive_new
  native_opens library d =
      let p = parts nonce payload tag n t in
      rw (d.expands (info usage), p.0, p.1, p.2, d.opens (info usage) nonce payload tag n t)
        (elim (Option-cases (cipher.unseal (info usage) nonce payload tag)) [
          | inl e ↦ rw e refl
          | inr (plaintext, e) ↦ rw (e, first_lem, p.2, (parts nonce plaintext tag n t).1) refl
        ])

  pub web_opens :
      (subtle : SubtleCrypto)
      → WebDocumented subtle base_key cipher
      → KeepsLength cipher
      → unless_panic
          ((web_cipher subtle).derive_new base_key (info usage))
          (λ key. (web_cipher subtle).decrypt key (buffer nonce payload tag) [])
        ≡ some (opening (cipher.unseal (info usage) nonce payload tag))
  unfolding Platforms.web_decrypt Platforms.web_derive_new payload_and_tag
  web_opens subtle d keeps =
      let p = parts nonce payload tag n t in
      rw
        (
          d.imports,
          d.derives (info usage),
          p.0,
          rest_lem,
          d.opens (info usage) nonce payload tag n t,
        )
        (elim (Option-cases (cipher.unseal (info usage) nonce payload tag)) [
          | inl e ↦ rw e refl
          | inr (plaintext, e) ↦
              rw
                (
                  e,
                  p.1,
                  p.2,
                  same_length plaintext payload (keeps (info usage) nonce payload tag plaintext e),
                  first_lem,
                  (parts nonce plaintext tag n t).1,
                )
                refl
        ])
