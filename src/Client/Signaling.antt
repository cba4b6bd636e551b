-- ===== src/Client/Signaling.antt =====
-- The signaling messages of rust-client/glopfile/src/p2p.rs and rust-client/glopfile/src/websocket.proto,
-- and their encryption. The encoding of messages is that of the prost library: `Codec`.
pub mod Ciphers
pub mod Socket
pub mod Connecting
pub mod Transfer
pub mod Native
pub mod Browser
use glopfile.Base.{
  ℕ, ◌≡◌, Bytes, ◌++◌, replicate, Option, none, some, Result, ok, err, ◌>>=◌, ok_or,
}
use glopfile.Text.{Text}
use glopfile.Client.Errors.{Error}
use glopfile.Client.Cipher.{Cipher, Usage, Buffer, from_message_padded, encrypt, decrypt}

pub data SdpType : Type 0 where
  offer pranswer answer rollback : SdpType

pub record SessionDescription : Type 0 where
  pub sdp_type : SdpType
  pub sdp : Text

-- `rtc_signaling_message::Inner`; of a candidate only its text matters here.
pub data SignalingMessage : Type 0 where
  session_description : SessionDescription → SignalingMessage
  ice_candidate : (candidate : Text) → SignalingMessage

-- The length-delimited encoding of a message. Decoding reads the message that the bytes begin with,
-- which is `none` inside if its kind is not known.
pub record Codec : Type 0 where
  pub encode : SignalingMessage → Bytes
  pub decode : Bytes → Option (Option SignalingMessage)
  pub decode-encode :
      (m : SignalingMessage) (n : ℕ) → decode (encode m ++ replicate n 0) ≡ some (some m)

pub data SignalingCipherUsage : Type 0 where
  uploader downloader : SignalingCipherUsage

-- `SignalingCipherUsage::peer`.
abbrev pub peer : SignalingCipherUsage → SignalingCipherUsage
peer SignalingCipherUsage.downloader = SignalingCipherUsage.uploader
peer SignalingCipherUsage.uploader = SignalingCipherUsage.downloader

-- `From<SignalingCipherUsage> for ContentCipherUsage`.
abbrev pub content_usage : SignalingCipherUsage → Usage
content_usage SignalingCipherUsage.downloader = Usage.downloader_rtc_signaling
content_usage SignalingCipherUsage.uploader = Usage.uploader_rtc_signaling

-- The block length of `SIGNALING_CIPHER_PADDING_TYPE`.
abbrev pub block_len : ℕ
block_len = 64

module _ (cipher : Cipher) (codec : Codec) where
  -- The ciphertext that `SignalingWebSocket::send` makes of a message: `filler` stands in the buffer
  -- until `nonce`, the fresh one of the encryption, takes its place.
  unfoldable pub seal : (filler nonce : Bytes) → SignalingCipherUsage → SignalingMessage → Bytes
  seal filler nonce usage m =
      encrypt cipher nonce (content_usage usage)
        (from_message_padded filler (codec.encode m) block_len)

  -- `ContentCipher::decrypt_message`.
  unfoldable pub decrypt_message : Usage → Bytes → Result Error (Option SignalingMessage)
  decrypt_message usage bytes = do
    data_ ← decrypt cipher usage bytes
    ok_or (codec.decode data_) (Error.invalid_peer_message "failed to decode Protobuf message")

  -- `SignalingWebSocket::decrypt`: what the peer encrypted for its own usage.
  unfoldable pub unseal : SignalingCipherUsage → Bytes → Result Error (Option SignalingMessage)
  unseal usage bytes = decrypt_message (content_usage (peer usage)) bytes
