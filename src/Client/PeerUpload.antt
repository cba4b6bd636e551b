-- ===== src/Client/PeerUpload.antt =====
-- The uploader of a transfer: `UploadState`, `UploadWebSocketHandler` and
-- `RelayRequestTimeoutHandle` of rust-client/glopfile/src/uploader_client.rs, and the encrypted file
-- of rust-client/glopfile/src/api_client.rs that it reads. `send` is the data channel, and what the
-- signaling does with its messages is an argument.
pub mod Serving
use glopfile.Base.{
  ℕ, ◌-◌, ◌+◌, min, Bytes, List, [], ◌∷◌, Option, none, some, Bool, false, Result, ok, err,
  ControlFlow, proceed, break, length, take, drop, ltb, if◌then◌else◌, u64_mod, add_u64,
}
use glopfile.Client.Errors.{Error}
use glopfile.Client.PeerMessages.{DownloaderMessage, UploaderMessage}
use glopfile.Client.PeerDownload.{Outcome}

-- `usize::saturating_add`, where `usize` has 64 bits.
abbrev pub saturating_add : ℕ → ℕ → ℕ
saturating_add a b = min (a + b) (u64_mod - 1)

-- `EncryptedFile::read_at_exact`; `none` is the panic of a slice out of range.
unfoldable pub read_at_exact : Bytes → ℕ → ℕ → Option Bytes
read_at_exact file offset len =
    if ltb (length file) (saturating_add offset len)
    then none
    else if ltb (saturating_add offset len) offset
    then none
    else some (take (saturating_add offset len - offset) (drop offset file))

-- What a message leaves behind: what was sent, the progress that was reported, and how it ended.
pub record Served : Type 0 where
  pub sent : List UploaderMessage
  pub progress : List (ℕ × ℕ)
  pub outcome : Outcome

abbrev pub served : Outcome → Served
served o = record { sent = []; progress = []; outcome = o }

-- What comes of a message that was handed to the channel.
abbrev pub after_send : UploaderMessage → List (ℕ × ℕ) → Result Error (Unit {0}) → Served
after_send message progress (err e) = served (Outcome.failed e)
after_send message progress (ok _) = record {
  sent = message ∷ [];
  progress = progress;
  outcome = Outcome.returned proceed;
}

module _ (file : Bytes) (send : UploaderMessage → Result Error (Unit {0})) where
  -- A data request, once the data was read.
  answer : (offset len : ℕ) → Option Bytes → Served
  answer offset len none = served Outcome.panicked
  answer offset len (some bytes) =
      let response = UploaderMessage.data_response offset bytes in
      after_send response ((add_u64 offset len, length file) ∷ []) (send response)

  -- `UploadState::data_channel_message`, from what the message decodes to; `ok none` is a message of
  -- an unknown kind.
  unfoldable pub data_channel_message : Result Error (Option DownloaderMessage) → Served
  unfolding answer
  data_channel_message (err e) = served (Outcome.failed e)
  data_channel_message (ok none) = served (Outcome.returned proceed)
  data_channel_message (ok (some DownloaderMessage.hello)) =
      after_send UploaderMessage.hello [] (send UploaderMessage.hello)
  data_channel_message (ok (some (DownloaderMessage.data_request r))) =
      answer r.offset r.len (read_at_exact file r.offset r.len)
  data_channel_message (ok (some DownloaderMessage.transfer_finished)) = record {
    sent = [];
    progress = (length file, length file) ∷ [];
    outcome = Outcome.returned (break tt);
  }

-- `RelayRequestTimeoutHandle`: the timeout that it holds, by its number.
abbrev pub TimeoutHandle : Type 0
TimeoutHandle = Option ℕ

-- `put` and `cancel`; `cancel` takes the timeout out and aborts it.
abbrev pub put : ℕ → TimeoutHandle → TimeoutHandle
put timeout handle = some timeout

abbrev pub cancel : TimeoutHandle → TimeoutHandle × List ℕ
cancel none = (none, [])
cancel (some timeout) = (none, timeout ∷ [])

-- The messages of the relay's websocket.
pub data RelayMessage (Signal : Type 0) : Type 0 where
  rtc_signaling : Signal → RelayMessage Signal
  upload_data_ack : (offset : ℕ) → RelayMessage Signal

-- What the handler leaves behind: the timeout handle, the progress, the timeouts that were aborted,
-- and the flow.
pub record HandledRelay : Type 0 where
  pub timeout : TimeoutHandle
  pub progress : List (ℕ × ℕ)
  pub aborted : List ℕ
  pub flow : ControlFlow (Unit {0})

-- `UploadWebSocketHandler::handle`. `signaling` is absent if there is no signaling handler, and is
-- `false` for a message that the handler could not take.
unfoldable pub handle_relay_message :
    {Signal : Type 0}
    → (Option (Signal → Bool))
    → (encrypted_file_len : ℕ) → Option (RelayMessage Signal)
    → TimeoutHandle
    → HandledRelay
handle_relay_message signaling total none t = record {
  timeout = t;
  progress = [];
  aborted = [];
  flow = proceed;
}
handle_relay_message none total (some (RelayMessage.rtc_signaling m)) t = record {
  timeout = t;
  progress = [];
  aborted = [];
  flow = proceed;
}
handle_relay_message (some taken) total (some (RelayMessage.rtc_signaling m)) t = record {
  timeout = t;
  progress = [];
  aborted = [];
  flow = if taken m then proceed else break tt;
}
handle_relay_message signaling total (some (RelayMessage.upload_data_ack at)) t = record {
  timeout = (cancel t).0;
  progress = (at, total) ∷ [];
  aborted = (cancel t).1;
  flow = proceed;
}
