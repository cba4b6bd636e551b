-- ===== src/Client/Signaling/Ciphers.antt =====
-- The two ends of the encrypted signaling of rust-client/glopfile/src/p2p.rs.
use glopfile.Base.{
  ℕ, ◌+◌, ◌-◌, ◌%◌, ◌≡◌, refl, Bytes, ◌++◌, replicate, some, ok, length, length-append,
  length-replicate, arith,
}
use glopfile.Client.Cipher.{Cipher, nonce_size, from_plaintext, from_message_padded, padded_len}
use glopfile.Client.Cipher.Buffers.{decrypt-encrypt, padding}
use glopfile.Client.Signaling.{
  SignalingMessage, Codec, SignalingCipherUsage, peer, content_usage, block_len, seal,
  decrypt_message, unseal,
}

-- The encoding of a message, filled up to whole blocks.
abbrev padded : Bytes → Bytes
padded encoded = encoded ++ replicate (padded_len (length encoded) block_len - length encoded) 0

padded-blocks : (encoded : Bytes) → length (padded encoded) ≡ padded_len (length encoded) block_len
padded-blocks encoded =
    let fill = padded_len (length encoded) block_len - length encoded in
    let size = padding (replicate 12 0) encoded block_len refl (omega arith) in
    omega (arith, length-append encoded (replicate fill 0), length-replicate {A = ℕ} fill 0, size.1)

from_message_padded_lem :
    (filler encoded : Bytes)
    → from_message_padded filler encoded block_len ≡ from_plaintext filler (padded encoded)
unfolding from_message_padded from_plaintext padded_len
from_message_padded_lem filler encoded = refl

around : (n : ℕ) → n + 28 - 28 ≡ n
around n = omega arith

peer_lem : (usage : SignalingCipherUsage) → peer (peer usage) ≡ usage
peer_lem SignalingCipherUsage.uploader = refl
peer_lem SignalingCipherUsage.downloader = refl

module _ (cipher : Cipher) (codec : Codec) where
  -- What one peer encrypts, under nonces of 12 bytes, the other reads back, and the ciphertext is a
  -- whole number of blocks of 64 bytes, with 28 bytes around them.
  pub unseal-seal :
      (filler nonce : Bytes) (usage : SignalingCipherUsage) (m : SignalingMessage)
      → length filler ≡ nonce_size
      → length nonce ≡ nonce_size
      → (unseal cipher codec (peer usage) (seal cipher codec filler nonce usage m) ≡ ok (some m))
        × ((length (seal cipher codec filler nonce usage m) - 28) % block_len ≡ 0)
  unfolding seal unseal decrypt_message
  unseal-seal filler nonce usage m f n =
      let text = padded (codec.encode m) in
      let size = padding filler (codec.encode m) block_len f (omega arith) in
      let (back, long) = decrypt-encrypt cipher nonce filler text (content_usage usage) n f in
      rw (from_message_padded_lem filler (codec.encode m), peer_lem usage)
        (
          rw
              (
                back,
                codec.decode-encode m
                    (padded_len (length (codec.encode m)) block_len - length (codec.encode m)),
              )
              refl,
          rw
              (
                long,
                padded-blocks (codec.encode m),
                around (padded_len (length (codec.encode m)) block_len),
              )
              (size.0),
        )
