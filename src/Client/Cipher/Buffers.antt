-- ===== src/Client/Cipher/Buffers.antt =====
-- The buffers of rust-client/glopfile/src/cipher.rs, filled and taken apart.
use glopfile.Base.{
  ℕ, ◌+◌, ◌-◌, ◌%◌, ◌/◌, ◌*◌, ◌≤◌, ◌<◌, ◌≡◌, refl, Bytes, List, [], ◌++◌, ok, err, arith, length,
  replicate, length-append, length-replicate, take-append_length, drop-append_length, flatten, ltb,
  false,
}
use native.Mathlib.Nat.{mod-lt, div-add-mod, add-mul-mod_self_left, mod_self}
use glopfile.Client.Errors.{Error}
use glopfile.Client.Cipher.{
  nonce_size, tag_size, Usage, info, Buffer, read_plaintext_to_end, from_plaintext, padded_len,
  from_message_padded, from_nonce_and_ciphertext, into_plaintext, nonce_of, payload_and_tag, tag_of,
  Cipher, encrypt, decrypt,
}

-- A buffer of a nonce, a payload and a tag of the right sizes.
pub parts :
    (nonce payload tag : Bytes)
    → length nonce ≡ nonce_size
    → length tag ≡ tag_size
    → let b : Buffer = record { bytes = nonce ++ (payload ++ tag) } in
      (nonce_of b ≡ nonce) × (into_plaintext b ≡ payload) × (tag_of b ≡ tag)
unfolding nonce_of into_plaintext tag_of payload_and_tag
parts nonce payload tag n t =
    let rest = drop-append_length nonce (payload ++ tag) nonce_size n in
    let size : length (payload ++ tag) - tag_size ≡ length payload =
      omega (arith, length-append payload tag) in
    (
      take-append_length nonce (payload ++ tag) nonce_size n,
      rw (rest, size) (take-append_length payload tag (length payload) refl),
      rw (rest, size) (drop-append_length payload tag (length payload) refl),
    )

-- What a buffer was made of comes out again, whether it was read in pieces or given at once.
pub into_plaintext-from_plaintext :
    (nonce plaintext : Bytes) (pieces : List Bytes)
    → length nonce ≡ nonce_size
    → (into_plaintext (from_plaintext nonce plaintext) ≡ plaintext)
      × (into_plaintext (read_plaintext_to_end nonce pieces) ≡ flatten pieces)
      × (nonce_of (from_plaintext nonce plaintext) ≡ nonce)
unfolding from_plaintext read_plaintext_to_end
into_plaintext-from_plaintext nonce plaintext pieces n =
    let zeroes = length-replicate {A = ℕ} tag_size 0 in
    (
      (parts nonce plaintext (replicate tag_size 0) n zeroes).1,
      (parts nonce (flatten pieces) (replicate tag_size 0) n zeroes).1,
      (parts nonce plaintext (replicate tag_size 0) n zeroes).0,
    )

-- What is missing to the next multiple of the block length completes it.
completes : (n block : ℕ) → 0 < block → (n + (block - n % block)) % block ≡ 0
completes n block h =
    let bound : n % block < block = mod-lt n h in
    let whole : block * (n / block) + n % block ≡ n = div-add-mod n block in
    let sum : n + (block - n % block) ≡ block + block * (n / block) = omega (arith, bound, whole) in
    rw (sum, add-mul-mod_self_left block block (n / block)) (mod_self block)

-- The padding of a message to blocks of a positive length, behind a nonce of 12 bytes: the padded
-- length is a whole number of blocks, at least that of the message and less than one block more,
-- and the plaintext is the message and then nothing but zeroes.
pub padding :
    (nonce message : Bytes) (block : ℕ)
    → length nonce ≡ nonce_size
    → 0 < block
    → (padded_len (length message) block % block ≡ 0)
      × (length message ≤ padded_len (length message) block)
      × (padded_len (length message) block < length message + block)
      × (into_plaintext (from_message_padded nonce message block)
          ≡ message ++ replicate (padded_len (length message) block - length message) 0)
unfolding padded_len from_message_padded
padding nonce message block n h =
    let m = length message in
    let bound : m % block < block = mod-lt m h in
    let fill = length-replicate {A = ℕ} tag_size 0 in
    let size : (padded_len m block % block ≡ 0)
        × (m ≤ padded_len m block)
        × (padded_len m block < m + block) =
      ground (arith, bound, completes m block h) in
    (
      size.0,
      size.1,
      size.2,
      (parts nonce (message ++ replicate (padded_len m block - m) 0) (replicate tag_size 0) n
          fill).1,
    )

module _ (cipher : Cipher) where
  -- The bytes that encryption makes of a plaintext.
  encrypt-from_plaintext :
      (nonce old plaintext : Bytes) (usage : Usage)
      → length old ≡ nonce_size
      → encrypt cipher nonce usage (from_plaintext old plaintext)
        ≡ nonce
          ++ ((cipher.seal (info usage) nonce plaintext).0
              ++ (cipher.seal (info usage) nonce plaintext).1)
  unfolding encrypt
  encrypt-from_plaintext nonce old plaintext usage o =
      rw ((into_plaintext-from_plaintext old plaintext [] o).0) refl

  -- What was encrypted for a purpose from a buffer made of a plaintext, under nonces of 12 bytes,
  -- is decrypted for the same purpose to the plaintext, and is 28 bytes longer than that.
  pub decrypt-encrypt :
      (nonce old plaintext : Bytes) (usage : Usage)
      → length nonce ≡ nonce_size
      → length old ≡ nonce_size
      → (decrypt cipher usage (encrypt cipher nonce usage (from_plaintext old plaintext))
          ≡ ok plaintext)
        × (length (encrypt cipher nonce usage (from_plaintext old plaintext))
            ≡ length plaintext + 28)
  unfolding decrypt from_nonce_and_ciphertext
  decrypt-encrypt nonce old plaintext usage n o =
      let sealed = cipher.seal (info usage) nonce plaintext in
      let lengths = cipher.seal_lengths (info usage) nonce plaintext in
      let (nonce_back, payload_back, tag_back) = parts nonce (sealed.0) (sealed.1) n (lengths.1) in
      let size : length (nonce ++ (sealed.0 ++ sealed.1)) ≡ length plaintext + 28 = omega (
        arith,
        length-append nonce (sealed.0 ++ sealed.1),
        length-append (sealed.0) (sealed.1),
        lengths.0,
        lengths.1,
        n,
      ) in
      let long : ltb (length (nonce ++ (sealed.0 ++ sealed.1))) 28 ≡ false = ground (arith, size) in
      rw (encrypt-from_plaintext nonce old plaintext usage o) (
        rw
            (
              long,
              nonce_back,
              payload_back,
              tag_back,
              cipher.unseal-seal (info usage) nonce plaintext,
            )
            refl,
        size,
      )

  -- What is too short to hold a nonce and a tag is refused, and nothing else makes a panic possible.
  decrypt_short :
      (usage : Usage) (bytes : Bytes)
      → length bytes < 28
      → decrypt cipher usage bytes ≡ err Error.decrypt
  unfolding decrypt
  decrypt_short usage bytes h = ground arith
