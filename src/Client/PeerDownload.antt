-- ===== src/Client/PeerDownload.antt =====
-- The downloader of a peer-to-peer transfer: `DownloadState` of
-- rust-client/glopfile/src/downloader_client.rs. The cipher and the data channel are arguments:
-- `decrypt`, and `send`, which fails if the channel does. `outcome` is what the output file answers
-- when the content is written to it. A panic ends the handler.
pub mod Window
pub mod Fallback
use glopfile.Base.{
  ℕ, zero, suc, ◌+◌, ◌-◌, ◌*◌, min, Bytes, List, [], ◌∷◌, ◌++◌, Option, none, some, Result, ok, err,
  ControlFlow, proceed, break, length, ltb, ◌==◌, if◌then◌else◌, sub_u64, add_u64,
}
use glopfile.Client.Errors.{Error}
use glopfile.Client.Decrypted.{Poll, IoError, WriteState, Flushed, offset, write_all, poll_flush}
use glopfile.Client.PeerMessages.{DataRequest, DownloaderMessage, UploaderMessage}

abbrev pub chunk_size : ℕ
chunk_size = 16 * 1024

abbrev pub max_inflight : ℕ
max_inflight = 10 * 1024 * 1024

pub record DownloadState : Type 0 where
  pub decrypted_file : WriteState
  pub requested_offset : ℕ

-- How a handler ends.
pub data Outcome : Type 0 where
  panicked : Outcome
  failed : Error → Outcome
  returned : ControlFlow (Unit {0}) → Outcome

-- What a handler leaves behind: its state, the messages that it sent and the progress, as pairs of
-- the current and the total length, that it reported.
pub record Handled : Type 0 where
  pub state : DownloadState
  pub sent : List DownloaderMessage
  pub progress : List (ℕ × ℕ)
  pub outcome : Outcome

abbrev pub ends_with : DownloadState → Outcome → Handled
ends_with s o = record { state = s; sent = []; progress = []; outcome = o }

abbrev pub and_sent : List DownloaderMessage → Handled → Handled
and_sent ms h = record h { sent = ms ++ h.sent }

abbrev pub and_progress : List (ℕ × ℕ) → Handled → Handled
and_progress ps h = record h { progress = ps ++ h.progress }

module _ (total_len : ℕ) where
  abbrev pub request_len : ℕ → ℕ → ℕ
  request_len received requested =
      min (min (max_inflight - (requested - received)) (sub_u64 total_len requested)) chunk_size

  -- `next_data_request`; `none` is a panic, and `some none` that there is nothing to request.
  unfoldable pub next_data_request : ℕ → ℕ → Option (Option DataRequest)
  next_data_request received requested =
      if ltb requested received
      then none
      else if request_len received requested == 0
      then some none
      else some (some (record { offset = requested; len = request_len received requested }))

module _ (decrypt : Bytes → Result IoError Bytes) (total_len : ℕ)
    (send : DownloaderMessage → Result Error (Unit {0})) where
  -- The loop of `request_data_or_finish`, from the offset that was requested so far, with the
  -- messages sent so far. `none` means that the fuel ran out.
  unfoldable pub request_loop : ℕ → ℕ → WriteState → ℕ → List DownloaderMessage → Option Handled
  request_loop zero received file requested sent = none
  request_loop (suc fuel) received file requested sent =
      elim (next_data_request total_len received requested) [
        | none ↦ some (
            and_sent sent (
              ends_with (record { decrypted_file = file; requested_offset = requested })
                Outcome.panicked))
        | some none ↦ some (
            and_sent sent (
              ends_with (record { decrypted_file = file; requested_offset = requested })
                (Outcome.returned proceed)))
        | some (some request) ↦ elim (send (DownloaderMessage.data_request request)) [
          | err e ↦ some (
              and_sent sent (
                ends_with (record { decrypted_file = file; requested_offset = requested })
                  (Outcome.failed e)))
          | ok _ ↦
              request_loop fuel received file (requested + request.len)
                (sent ++ DownloaderMessage.data_request request ∷ [])
        ]
      ]

  finish_sent : DownloadState → Result Error (Unit {0}) → Handled
  finish_sent s (err e) = ends_with s (Outcome.failed e)
  finish_sent s (ok _) =
      and_sent (DownloaderMessage.transfer_finished ∷ [])
        (ends_with s (Outcome.returned (break tt)))

  -- The branch that has all the content.
  finish : Result IoError (Unit {0}) → DownloadState → Handled
  unfolding finish_sent
  finish outcome s = elim (poll_flush decrypt total_len (Poll.ready outcome) s.decrypted_file) [
    | none ↦ ends_with s Outcome.panicked
    | some f ↦ elim f.result [
      | Poll.ready (err e) ↦
          ends_with (record s { decrypted_file = f.state }) (Outcome.failed (Error.io e))
      | _ ↦
          finish_sent (record s { decrypted_file = f.state })
            (send DownloaderMessage.transfer_finished)
    ]
  ]

  -- `request_data_or_finish`. Each request takes at least one byte off what is left, so that as many
  -- rounds as the content is long, and one more, are enough.
  unfoldable pub request_data_or_finish : Result IoError (Unit {0}) → DownloadState → Option Handled
  unfolding finish
  request_data_or_finish outcome s = elim (offset total_len s.decrypted_file) [
    | none ↦ some (ends_with s Outcome.panicked)
    | some received ↦
        if ltb received total_len
        then request_loop (suc total_len) received s.decrypted_file s.requested_offset []
        else some (finish outcome s)
  ]

  abbrev pub map_handled : (Handled → Handled) → Option Handled → Option Handled
  map_handled f none = none
  map_handled f (some h) = some (f h)

  -- The arrival of a chunk at the offset that is wanted.
  accept_data : Result IoError (Unit {0}) → ℕ → Bytes → DownloadState → Option Handled
  accept_data outcome received bytes s = elim (write_all bytes s.decrypted_file) [
    | none ↦ some (ends_with s Outcome.panicked)
    | some (file, err e) ↦
        some (ends_with (record s { decrypted_file = file }) (Outcome.failed (Error.io e)))
    | some (file, ok _) ↦
        map_handled (and_progress ((add_u64 received (length bytes), total_len) ∷ []))
          (request_data_or_finish outcome (record s { decrypted_file = file }))
  ]

  -- `handle_uploader_message`.
  unfoldable pub handle_uploader_message :
      Result IoError (Unit {0}) → Option UploaderMessage → DownloadState → Option Handled
  unfolding accept_data
  handle_uploader_message outcome none s = some (ends_with s (Outcome.returned proceed))
  handle_uploader_message outcome (some UploaderMessage.hello) s =
      some (ends_with s (Outcome.returned proceed))
  handle_uploader_message outcome (some (UploaderMessage.data_response at bytes)) s =
      elim (offset total_len s.decrypted_file) [
        | none ↦ some (ends_with s Outcome.panicked)
        | some received ↦
            if received == at
            then accept_data outcome received bytes s
            else request_data_or_finish outcome s
      ]

  -- What `PeerToPeerConnectHandler` makes of the first message: it is done with whatever comes of it,
  -- and it asks for data right away if there is more to come.
  after_message : Result IoError (Unit {0}) → Handled → Option Handled
  after_message outcome h = elim h.outcome [
    | Outcome.returned proceed ↦
        map_handled (λ k. and_sent h.sent (and_progress h.progress k))
          (request_data_or_finish outcome h.state)
    | _ ↦ some h
  ]

  -- `PeerToPeerConnectHandler::data_channel_message`; a flow that is returned is the one that the
  -- handler breaks with.
  unfoldable pub connect_message :
      Result IoError (Unit {0}) → Option UploaderMessage → DownloadState → Option Handled
  unfolding after_message
  connect_message outcome message s = elim (handle_uploader_message outcome message s) [
    | none ↦ none
    | some h ↦ after_message outcome h
  ]
