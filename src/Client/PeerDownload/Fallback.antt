-- ===== src/Client/PeerDownload/Fallback.antt =====
-- What happens to a peer-to-peer download of rust-client/glopfile/src/downloader_client.rs that is
-- tried again after the relay has taken over: `download_p2p` keeps the `requested_offset` of the
-- connection before.
use glopfile.Base.{
  ℕ, ◌+◌, ◌≤◌, ◌<◌, ◌≡◌, ◌≢◌, refl, List, [], ◌∷◌, map, some, Result, ok, arith, Bytes, u64_mod,
  All,
}
use glopfile.Client.Errors.{Error}
use glopfile.Client.Decrypted.{IoError, WriteState}
use glopfile.Client.PeerMessages.{DataRequest, DownloaderMessage, UploaderMessage}
use glopfile.Client.PeerDownload.{
  DownloadState, Outcome, Handled, request_loop, next_data_request, request_data_or_finish,
  handle_uploader_message, connect_message,
}
use glopfile.Client.Decrypted
use glopfile.Client.PeerDownload.Window.{
  Tiles, window, further, requested_all, requests_fill_window,
}

module _ (decrypt : Bytes → Result IoError Bytes) (total : ℕ)
    (send : DownloaderMessage → Result Error (Unit {0})) where
  -- If content is missing and more of it has been received than was requested over the connection
  -- before, as the relay may bring it, the greeting of a peer that connects again makes the
  -- downloader panic before it sends anything.
  pub relay_progress_panics :
      (outcome : Result IoError (Unit {0})) (s : DownloadState) (received : ℕ)
      → Decrypted.offset total s.decrypted_file ≡ some received
      → received < total
      → s.requested_offset < received
      → (h : Handled) × (connect_message decrypt total send outcome (some UploaderMessage.hello) s
          ≡ some h)
        × (h.outcome ≡ Outcome.panicked)
        × (h.sent ≡ [])
  unfolding connect_message handle_uploader_message request_data_or_finish request_loop
      next_data_request
  relay_progress_panics outcome s received e m h = (
    record { state = s; sent = []; progress = []; outcome = Outcome.panicked },
    ground arith,
    refl,
    refl,
  )

Tiles-past :
    (a b low : ℕ) (rs : List DataRequest) → low < a → Tiles a b rs → All (λ r. low < r.offset) rs
Tiles-past a b low [] h t = tt
Tiles-past a b low (r ∷ rs) h (o, p, l, t) =
    (omega arith, Tiles-past (a + r.len) b low rs (omega arith) t)

module _ (decrypt : Bytes → Result IoError Bytes) (total : ℕ)
    (send : DownloaderMessage → Result Error (Unit {0}))
    (sends : (m : DownloaderMessage) → send m ≡ ok tt) (bound : total < u64_mod) where
  -- With content of less than 2 ^ 64 bytes, over a channel that takes every message: if requests
  -- of the connection before are still unanswered, the downloader does not repeat them to a peer
  -- that connects again, as every request that it makes on its greeting lies beyond what it needs
  -- next. And data from elsewhere than the offset that it needs leaves its file as it is.
  pub lost_requests_stall :
      (outcome : Result IoError (Unit {0})) (s : DownloadState) (received : ℕ) (at : ℕ)
      (bytes : Bytes)
      → Decrypted.offset total s.decrypted_file ≡ some received
      → received < s.requested_offset
      → s.requested_offset ≤ total
      → received ≢ at
      → (h : Handled) × (k : Handled) × (rs : List DataRequest) × (connect_message decrypt total
            send outcome
            (some UploaderMessage.hello)
            s
          ≡ some h)
        × (h.sent ≡ map DownloaderMessage.data_request rs)
        × All (λ r. received < r.offset) rs
        × (handle_uploader_message decrypt total send outcome
              (some (UploaderMessage.data_response at bytes))
              s
            ≡ some k)
        × (k.state.decrypted_file ≡ s.decrypted_file)
  unfolding connect_message handle_uploader_message
  lost_requests_stall outcome s received at bytes e low high ne =
      let (rs, f, t) =
        requests_fill_window decrypt total send sends bound outcome s received e (omega arith)
          (omega arith) high in
      (
        requested_all s.decrypted_file (further s.requested_offset (window received total)) [] rs,
        requested_all s.decrypted_file (further s.requested_offset (window received total)) [] rs,
        rs,
        rw f refl,
        refl,
        Tiles-past s.requested_offset _ received rs low t,
        ground (arith),
        refl,
      )
