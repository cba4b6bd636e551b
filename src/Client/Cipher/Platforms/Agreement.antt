-- ===== src/Client/Cipher/Platforms/Agreement.antt =====
-- The ciphers of rust-client/glopfile/src/cipher/native.rs and web.rs against the cipher that the rest of
-- the client is modelled over.
use glopfile.Base.{
  ◌≤◌, ◌≡◌, refl, ap, Bytes, [], ◌++◌, Option, none, some, ok, err, length, ltb, arith, Bool-cases,
  drop-append_length, inl, inr,
}
use glopfile.Client.Errors.{Error}
use glopfile.Client.Cipher
use glopfile.Client.Cipher.{
  nonce_size, tag_size, Usage, info, Buffer, from_nonce_and_ciphertext, into_plaintext, nonce_of,
  payload_and_tag, tag_of, Cipher,
}
use glopfile.Client.Cipher.Buffers.{parts}
use glopfile.Client.Cipher.Platforms.{
  unless_panic, content_encrypt, content_decrypt, NativeLibrary, native_cipher, SubtleCrypto,
  web_cipher, CipherImpl,
}
use glopfile.Client.Cipher.Platforms.Parts.{
  NativeDocumented, WebDocumented, KeepsLength, buffer, layout, opening, native-Seals, web-Seals,
  native_opens, web_opens,
}

-- The nonce that was in a buffer does not matter.
content_encrypt-nonce :
    (impl : CipherImpl) (base_key : Bytes) (usage : Usage) (nonce old payload tag : Bytes)
    → length nonce ≡ nonce_size
    → length old ≡ nonce_size
    → content_encrypt impl base_key nonce usage (buffer old payload tag)
      ≡ content_encrypt impl base_key nonce usage (buffer nonce payload tag)
unfolding content_encrypt
content_encrypt-nonce impl base_key usage nonce old payload tag n o =
    rw
      (drop-append_length old (payload ++ tag) 12 o, drop-append_length nonce (payload ++ tag) 12 n)
      refl

opening_lem :
    (o : Option Bytes)
    → opening o ≡ elim o [ none ↦ err Error.decrypt | some plaintext ↦ ok plaintext ]
opening_lem none = refl
opening_lem (some plaintext) = refl

module _ (cipher : Cipher) (impl : CipherImpl) (base_key : Bytes) (usage : Usage) where
  encrypts_lem :
      (nonce bytes : Bytes)
      → length nonce ≡ nonce_size
      → 28 ≤ length bytes
      → ((payload tag : Bytes)
          → length tag ≡ tag_size
          → content_encrypt impl base_key nonce usage (buffer nonce payload tag)
            ≡ some (
                nonce
                ++ ((cipher.seal (info usage) nonce payload).0
                    ++ (cipher.seal (info usage) nonce payload).1)))
      → content_encrypt impl base_key nonce usage (record { bytes = bytes })
        ≡ some (Cipher.encrypt cipher nonce usage (record { bytes = bytes }))
  unfolding Cipher.encrypt
  encrypts_lem nonce bytes n h seals =
      let l = layout bytes h in
      rw
        (
          l.whole,
          (parts l.nonce l.payload l.tag l.nonce_len l.tag_len).1,
          content_encrypt-nonce impl base_key usage nonce l.nonce l.payload l.tag n l.nonce_len,
          seals l.payload l.tag l.tag_len,
        )
        refl

  decrypts_lem :
      (bytes : Bytes)
      → ((nonce payload tag : Bytes)
          → length nonce ≡ nonce_size
          → length tag ≡ tag_size
          → unless_panic
              (impl.derive_new base_key (info usage))
              (λ key. impl.decrypt key (buffer nonce payload tag) [])
            ≡ some (opening (cipher.unseal (info usage) nonce payload tag)))
      → content_decrypt impl base_key usage bytes ≡ some (Cipher.decrypt cipher usage bytes)
  unfolding content_decrypt Cipher.decrypt from_nonce_and_ciphertext
  decrypts_lem bytes opens = elim (Bool-cases (ltb (length bytes) 28)) [
    | inl e ↦ rw e refl
    | inr e ↦
        let l = layout bytes (ground (e, arith)) in
        let p = parts l.nonce l.payload l.tag l.nonce_len l.tag_len in
        rw e (
          rw (l.whole, opens l.nonce l.payload l.tag l.nonce_len l.tag_len, p.0, p.1, p.2)
            (ap (λ r. some r) (opening_lem (cipher.unseal (info usage) l.nonce l.payload l.tag))))
  ]

-- The ciphers of native platforms and of browsers do the same in every case, without a panic: they
-- encrypt a buffer, which has at least 28 bytes, under a nonce of 12 bytes as the cipher that the client
-- is modelled over, and any bytes they decrypt or refuse as that does; if both libraries keep to their
-- documentation, of one key and one AES-GCM, which opens to as many bytes as it was given.
pub platforms_agree :
    (cipher : Cipher) (base_key : Bytes) (usage : Usage) (library : NativeLibrary)
    (subtle : SubtleCrypto) (nonce : Bytes) (b : Buffer) (bytes : Bytes)
    → NativeDocumented library base_key cipher
    → WebDocumented subtle base_key cipher
    → KeepsLength cipher
    → length nonce ≡ nonce_size
    → 28 ≤ length b.bytes
    → (content_encrypt (native_cipher library) base_key nonce usage b
        ≡ some (Cipher.encrypt cipher nonce usage b))
      × (content_encrypt (web_cipher subtle) base_key nonce usage b
          ≡ some (Cipher.encrypt cipher nonce usage b))
      × (content_decrypt (native_cipher library) base_key usage bytes
          ≡ some (Cipher.decrypt cipher usage bytes))
      × (content_decrypt (web_cipher subtle) base_key usage bytes
          ≡ some (Cipher.decrypt cipher usage bytes))
platforms_agree cipher base_key usage library subtle nonce b bytes d e keeps n h = (
  encrypts_lem cipher (native_cipher library) base_key usage nonce b.bytes n h
      (λ payload tag t. native-Seals cipher base_key usage nonce payload tag n t library d),
  encrypts_lem cipher (web_cipher subtle) base_key usage nonce b.bytes n h
      (λ payload tag t. web-Seals cipher base_key usage nonce payload tag n t subtle e),
  decrypts_lem cipher (native_cipher library) base_key usage bytes (λ nonce' payload tag m t.
      native_opens cipher base_key usage nonce' payload tag m t library d),
  decrypts_lem cipher (web_cipher subtle) base_key usage bytes (λ nonce' payload tag m t.
      web_opens cipher base_key usage nonce' payload tag m t subtle e keeps),
)
