-- ===== src/Client/PeerDownload/Window.antt =====
-- The requests of a peer-to-peer download, rust-client/glopfile/src/downloader_client.rs: they cover
-- what is to be requested without a gap, up to the limit on what is in flight.
use glopfile.Base.{
  ℕ, zero, suc, ◌+◌, ◌≤◌, ◌<◌, ◌≡◌, refl, sym, ◌∙◌, inl, inr, true, false, List, [], ◌∷◌, ◌++◌, map,
  some, Result, ok, proceed, arith, Bytes, min, append_assoc, Bool-cases, ◌==◌, ltb, u64_mod,
  if◌then◌else◌,
}
use glopfile.Client.Errors.{Error}
use glopfile.Client.Decrypted.{IoError, WriteState}
use glopfile.Client.PeerMessages.{DataRequest, DownloaderMessage}
use glopfile.Client.PeerDownload.{
  chunk_size, max_inflight, DownloadState, Outcome, Handled, request_len, next_data_request,
  request_loop, request_data_or_finish,
}
use glopfile.Client.Decrypted

-- The requests cover the bytes from one offset up to another, each in its place and none too long.
abbrev pub Tiles : ℕ → ℕ → List DataRequest → Type 0
Tiles a b [] = a ≡ b
Tiles a b (r ∷ rs) = (r.offset ≡ a) × (0 < r.len) × (r.len ≤ chunk_size) × Tiles (a + r.len) b rs

pub Tiles-append :
    (a b c : ℕ) (xs ys : List DataRequest) → Tiles a b xs → Tiles b c ys → Tiles a c (xs ++ ys)
Tiles-append a b c [] ys h k = rw h k
Tiles-append a b c (r ∷ rs) ys (o, p, l, h) k = (o, p, l, Tiles-append (a + r.len) b c rs ys h k)

-- How far a downloader that has received some bytes should have requested.
abbrev pub window : ℕ → ℕ → ℕ
window received total = min total (received + max_inflight)

abbrev pub further : ℕ → ℕ → ℕ
further a b = if ltb a b then b else a

-- What the loop leaves behind when it has sent some requests.
abbrev pub requested_all : WriteState → ℕ → List DownloaderMessage → List DataRequest → Handled
requested_all file upto sent rs = record {
  state = record { decrypted_file = file; requested_offset = upto };
  sent = sent ++ map DownloaderMessage.data_request rs;
  progress = [];
  outcome = Outcome.returned proceed;
}

module _ (decrypt : Bytes → Result IoError Bytes) (total : ℕ)
    (send : DownloaderMessage → Result Error (Unit {0}))
    (sends : (m : DownloaderMessage) → send m ≡ ok tt) (bound : total < u64_mod) where
  -- One round that requests, and the round that does not.
  loop_requests :
      (fuel received : ℕ) (file : WriteState) (requested : ℕ) (sent : List DownloaderMessage)
      → received ≤ requested
      → (request_len total received requested == 0) ≡ false
      → let r : DataRequest = record {
        offset = requested;
        len = request_len total received requested;
      } in
        request_loop decrypt total send (suc fuel) received file requested sent
        ≡ request_loop decrypt total send fuel received file
            (requested + request_len total received requested)
            (sent ++ DownloaderMessage.data_request r ∷ [])
  unfolding request_loop next_data_request
  loop_requests fuel received file requested sent h room = ground (
    arith,
    sends (
        DownloaderMessage.data_request
          (record { offset = requested; len = request_len total received requested })),
  )

  loop_stops :
      (fuel received : ℕ) (file : WriteState) (requested : ℕ) (sent : List DownloaderMessage)
      → received ≤ requested
      → (request_len total received requested == 0) ≡ true
      → request_loop decrypt total send (suc fuel) received file requested sent
        ≡ some (requested_all file requested sent [])
  unfolding request_loop next_data_request
  loop_stops fuel received file requested sent h full = ground arith

  further_past :
      (received requested : ℕ)
      → received ≤ requested
      → requested ≤ total
      → further (requested + request_len total received requested) (window received total)
        ≡ further requested (window received total)
  further_past received requested h k = ground arith

  further_full :
      (received requested : ℕ)
      → received ≤ requested
      → requested ≤ total
      → (request_len total received requested == 0) ≡ true
      → further requested (window received total) ≡ requested
  further_full received requested h k full = ground arith

  request_loop-Tiles :
      (fuel received : ℕ) (file : WriteState) (requested : ℕ) (sent : List DownloaderMessage)
      → total < requested + fuel
      → received ≤ requested
      → requested ≤ total
      → (rs : List DataRequest) × (request_loop decrypt total send fuel received file requested sent
          ≡ some (requested_all file (further requested (window received total)) sent rs))
        × Tiles requested (further requested (window received total)) rs
  request_loop-Tiles zero received file requested sent f h k = absurd (omega arith)
  request_loop-Tiles (suc fuel) received file requested sent f h k =
      let len = request_len total received requested in
      let r : DataRequest = record { offset = requested; len = len } in
      elim (Bool-cases (len == 0)) [
        | inl full ↦ (
          [],
          rw (further_full received requested h k full)
              (loop_stops fuel received file requested sent h full),
          sym (further_full received requested h k full),
        )
        | inr room ↦
            let (rs, e, t) =
              request_loop-Tiles fuel received file (requested + len)
                (sent ++ DownloaderMessage.data_request r ∷ []) (ground arith) (omega arith)
                (ground arith) in
            let past = further_past received requested h k in
            (
              r ∷ rs,
              loop_requests fuel received file requested sent h room
                  ∙ e
                  ∙ rw
                      (
                        past,
                        append_assoc sent (DownloaderMessage.data_request r ∷ [])
                            (map DownloaderMessage.data_request rs),
                      )
                      refl,
              (refl, ground arith, ground arith, rw past at t),
            )
      ]

  -- As long as content of less than 2 ^ 64 bytes is missing, and what was requested so far lies
  -- between what has been received and the end, over a channel that takes every message: looking
  -- for requests to make sends requests that cover, without a gap and each in its place and of at
  -- most 16 KiB, what lies between the offset requested so far and the limit, which is the end of
  -- the content or 10 MiB beyond what has been received. It stays where it is if that limit is
  -- behind it, keeps the file and goes on.
  pub requests_fill_window :
      (outcome : Result IoError (Unit {0})) (s : DownloadState) (received : ℕ)
      → Decrypted.offset total s.decrypted_file ≡ some received
      → received < total
      → received ≤ s.requested_offset
      → s.requested_offset ≤ total
      → (rs : List DataRequest) × (request_data_or_finish decrypt total send outcome s
          ≡ some (
              requested_all s.decrypted_file
                (further s.requested_offset (window received total))
                []
                rs))
        × Tiles s.requested_offset (further s.requested_offset (window received total)) rs
  unfolding request_data_or_finish
  requests_fill_window outcome s received e m h k =
      let (rs, f, t) =
        request_loop-Tiles (suc total) received s.decrypted_file s.requested_offset [] (omega arith)
          h k in
      (rs, ground arith, t)
