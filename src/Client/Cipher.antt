-- ===== src/Client/Cipher.antt =====
-- The buffers of rust-client/glopfile/src/cipher.rs, that hold a nonce, then the plaintext or the
-- ciphertext, then the tag, and what the cipher makes of them. The bytes of a fresh random nonce are
-- an argument. AES-GCM under a derived key is not the program's: it is a `Cipher`.
pub mod Buffers
pub mod Platforms
use Prim.Native.String.{String}
use glopfile.Base.{
  ℕ, ◌+◌, ◌-◌, ◌%◌, ◌<◌, ◌≡◌, Bytes, List, [], ◌∷◌, ◌++◌, Option, none, some, Result, ok, err,
  ◌>>=◌, length, take, drop, replicate, ltb, ◌==◌, if◌then◌else◌, flatten,
}
use glopfile.Client.Errors.{Error}

abbrev pub nonce_size : ℕ
nonce_size = 12

abbrev pub tag_size : ℕ
tag_size = 16

-- `ContentCipherUsage`, and the purpose that its key is derived for.
pub data Usage : Type 0 where
  content metadata uploader_rtc_signaling downloader_rtc_signaling : Usage

abbrev pub info : Usage → String
info Usage.content = "content"
info Usage.metadata = "metadata"
info Usage.uploader_rtc_signaling = "uploader_rtc_signaling"
info Usage.downloader_rtc_signaling = "downloader_rtc_signaling"

-- `ContentCipherBuffer`.
pub record Buffer : Type 0 where
  pub bytes : Bytes

-- `read_plaintext_to_end`, from the reads up to the one that returns nothing.
unfoldable pub read_plaintext_to_end : Bytes → List Bytes → Buffer
read_plaintext_to_end nonce pieces = record {
  bytes = nonce ++ (flatten pieces ++ replicate tag_size 0);
}

-- `from_plaintext`.
unfoldable pub from_plaintext : Bytes → Bytes → Buffer
from_plaintext nonce plaintext = record { bytes = nonce ++ (plaintext ++ replicate tag_size 0) }

-- The length that a message is padded to: the next multiple of the block length.
unfoldable pub padded_len : ℕ → ℕ → ℕ
padded_len unpadded block =
    if unpadded % block == 0 then unpadded else unpadded + (block - unpadded % block)

-- `from_message_padded`, from the length-delimited encoding of the message.
unfoldable pub from_message_padded : Bytes → Bytes → ℕ → Buffer
unfolding padded_len
from_message_padded nonce message block = record {
  bytes =
      nonce
      ++ ((message ++ replicate (padded_len (length message) block - length message) 0)
          ++ replicate tag_size 0);
}

-- `from_nonce_and_ciphertext`.
unfoldable pub from_nonce_and_ciphertext : Bytes → Result Error Buffer
from_nonce_and_ciphertext bytes =
    if ltb (length bytes) (nonce_size + tag_size)
    then err Error.decrypt
    else ok (record { bytes = bytes })

-- `into_plaintext`: behind the nonce, up to the tag.
unfoldable pub into_plaintext : Buffer → Bytes
into_plaintext b =
    let plaintext_and_tag = drop nonce_size b.bytes in
    take (length plaintext_and_tag - tag_size) plaintext_and_tag

-- `parts_mut`, and the payload and the tag of `ciphertext_parts_mut`.
unfoldable pub nonce_of : Buffer → Bytes
nonce_of b = take nonce_size b.bytes

unfoldable pub payload_and_tag : Buffer → Bytes
payload_and_tag b = drop nonce_size b.bytes

unfoldable pub tag_of : Buffer → Bytes
unfolding payload_and_tag
tag_of b = drop (length (payload_and_tag b) - tag_size) (payload_and_tag b)

-- AES-GCM: sealing under a nonce keeps the length and yields a tag of 16 bytes; opening what was
-- sealed under the same purpose yields the plaintext, and what does not open is refused.
pub record Cipher : Type 0 where
  pub seal : String → Bytes → Bytes → Bytes × Bytes
  pub unseal : String → Bytes → Bytes → Bytes → Option Bytes
  pub seal_lengths :
      (purpose : String) (nonce plaintext : Bytes)
      → (length (seal purpose nonce plaintext).0 ≡ length plaintext)
        × (length (seal purpose nonce plaintext).1 ≡ 16)
  pub unseal-seal :
      (purpose : String) (nonce plaintext : Bytes)
      → unseal purpose nonce (seal purpose nonce plaintext).0 (seal purpose nonce plaintext).1
        ≡ some plaintext

module _ (cipher : Cipher) where
  -- `ContentCipher::encrypt`: a fresh nonce takes the place of the one in the buffer, and the payload
  -- and the tag are written over in place.
  unfoldable pub encrypt : Bytes → Usage → Buffer → Bytes
  unfolding into_plaintext
  encrypt nonce usage b =
      let (payload, tag) = cipher.seal (info usage) nonce (into_plaintext b) in
      nonce ++ (payload ++ tag)

  -- `ContentCipher::decrypt`.
  unfoldable pub decrypt : Usage → Bytes → Result Error Bytes
  unfolding into_plaintext nonce_of tag_of from_nonce_and_ciphertext
  decrypt usage bytes = do
    b ← from_nonce_and_ciphertext bytes
    elim (cipher.unseal (info usage) (nonce_of b) (into_plaintext b) (tag_of b)) [
      | none ↦ err Error.decrypt
      | some plaintext ↦ ok plaintext
    ]
