-- ===== src/Examples/Signaling.antt =====
-- The theorems on the signaling of the client at concrete inputs.
use glopfile.Base.{
  ℕ, ◌-◌, ◌%◌, ◌≡◌, refl, Bytes, [], ◌∷◌, ◌++◌, take, length, replicate, take-append_length, Option,
  none, some, true, false, ok, err, ◌==◌, if◌then◌else◌,
}
use glopfile.Text.{Text}
use glopfile.Client.WebSocketClient.{Attempt, new, attempts, connected, connect, thread_died}
use glopfile.Client.WebSocketClient.Reconnects.{connect_after_attempts}
use glopfile.Client.Signaling.{
  SdpType, SignalingMessage, Codec, SignalingCipherUsage, peer, seal, unseal,
}
use glopfile.Client.Signaling.Ciphers.{unseal-seal}
use glopfile.Client.Signaling.Socket.{Socket, Network, send}
use glopfile.Client.Signaling.Socket.Flushes.{Conserves, send-Conserves}
use glopfile.Examples.Ciphers.{plain}

-- Messages with their kind and the length of their text in front of it.
abbrev kind : SdpType → ℕ
kind SdpType.offer = 0
kind SdpType.pranswer = 1
kind SdpType.answer = 2
kind SdpType.rollback = 3

abbrev encode : SignalingMessage → Bytes
encode (SignalingMessage.session_description d) = kind d.sdp_type ∷ (length d.sdp ∷ d.sdp)
encode (SignalingMessage.ice_candidate t) = 4 ∷ (length t ∷ t)

abbrev described : SdpType → Text → SignalingMessage
described k t = SignalingMessage.session_description (record { sdp_type = k; sdp = t })

abbrev message_of : ℕ → Text → Option SignalingMessage
message_of k t =
    if k == 0
    then some (described SdpType.offer t)
    else if k == 1
    then some (described SdpType.pranswer t)
    else if k == 2
    then some (described SdpType.answer t)
    else if k == 3
    then some (described SdpType.rollback t)
    else if k == 4
    then some (SignalingMessage.ice_candidate t)
    else none

abbrev decode : Bytes → Option (Option SignalingMessage)
decode [] = none
decode (k ∷ []) = none
decode (k ∷ n ∷ bytes) = some (message_of k (take n bytes))

decode-encode : (m : SignalingMessage) (n : ℕ) → decode (encode m ++ replicate n 0) ≡ some (some m)
decode-encode (SignalingMessage.ice_candidate t) n =
    rw (take-append_length t (replicate n 0) (length t) refl) refl
decode-encode (SignalingMessage.session_description d) n = described-encode d.sdp_type d.sdp n
  where
    described-encode :
        (k : SdpType) (t : Text) (n : ℕ)
        → decode (encode (described k t) ++ replicate n 0) ≡ some (some (described k t))
    described-encode SdpType.offer t n =
        rw (take-append_length t (replicate n 0) (length t) refl) refl
    described-encode SdpType.pranswer t n =
        rw (take-append_length t (replicate n 0) (length t) refl) refl
    described-encode SdpType.answer t n =
        rw (take-append_length t (replicate n 0) (length t) refl) refl
    described-encode SdpType.rollback t n =
        rw (take-append_length t (replicate n 0) (length t) refl) refl

abbrev codec : Codec
codec = record { encode = encode; decode = decode; decode-encode = decode-encode }

abbrev candidate : SignalingMessage
candidate = SignalingMessage.ice_candidate (7 ∷ [])

unseal-seal_example :
    (unseal plain codec
        (peer SignalingCipherUsage.uploader)
        (seal plain codec (replicate 12 0) (replicate 12 1) SignalingCipherUsage.uploader candidate)
      ≡ ok (some candidate))
    × ((length (
              seal plain codec
                (replicate 12 0)
                (replicate 12 1)
                SignalingCipherUsage.uploader
                candidate)
            - 28)
          % 64
        ≡ 0)
unseal-seal_example =
    unseal-seal plain codec (replicate 12 0) (replicate 12 1) SignalingCipherUsage.uploader
      candidate refl refl

-- A connection whose sending fails.
abbrev failing : ℕ → Network
failing i = record { connecting = ok tt; sends = false }

abbrev idle : Socket
idle = record { client = true; websocket = false; pending = (1 ∷ []) ∷ [] }

send-Conserves_example : Conserves ((1 ∷ []) ∷ (2 ∷ []) ∷ []) (send failing (2 ∷ []) idle)
send-Conserves_example = send-Conserves failing (2 ∷ []) idle

-- A connection that served, an attempt that failed, and a connection that stands.
connect_after_attempts_example :
    (connect (connected 9 (attempts (Attempt.served 8 ∷ Attempt.failed ∷ []) new))
      ≡ some (err thread_died))
    × (connect (attempts (Attempt.served 8 ∷ Attempt.failed ∷ []) new) ≡ some (err thread_died))
connect_after_attempts_example = connect_after_attempts (Attempt.served 8 ∷ Attempt.failed ∷ []) 9
