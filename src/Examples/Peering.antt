-- ===== src/Examples/Peering.antt =====
-- The theorems on peer-to-peer transfers and on errors of the client at concrete inputs.
use glopfile.Base.{
  ℕ, ◌<◌, ◌≤◌, ◌≡◌, refl, Bytes, List, [], ◌∷◌, take, drop, length, Option, some, Result, Bool,
  false, ok, arith, proceed, leb, if◌then◌else◌,
}
use glopfile.Client.Errors.{Error}
use glopfile.Client.Decrypted.{IoError, fresh, offset}
use glopfile.Client.PeerMessages.{DataRequest, DownloaderMessage, UploaderMessage}
use glopfile.Client.PeerDownload.{
  DownloadState, Outcome, next_data_request, request_data_or_finish, chunk_size,
}
use glopfile.Client.PeerDownload.Window.{
  Tiles, window, further, requested_all, requests_fill_window,
}
use glopfile.Client.PeerUpload.{data_channel_message}
use glopfile.Client.PeerUpload.Serving.{requests_served}

-- The classes of status codes.
abbrev is_success : ℕ → Bool
is_success status = if leb 200 status then leb status 299 else false

abbrev is_server_error : ℕ → Option Bool
is_server_error status = some (leb 500 status)

abbrev file : Bytes
file = 4 ∷ 5 ∷ 6 ∷ 7 ∷ []

-- A cipher of files that leaves out what it is wrapped in.
abbrev unwrap : Bytes → Result IoError Bytes
unwrap bytes = ok bytes

-- A channel that takes every message, and a content of 40000 bytes.
abbrev taken : DownloaderMessage → Result Error (Unit {0})
taken m = ok tt

abbrev beginning : DownloadState
beginning = record { decrypted_file = fresh; requested_offset = 0 }

at_start : offset 40000 fresh ≡ some 0
unfolding offset
at_start = refl

requests_fill_window_example :
    (rs : List DataRequest) × (request_data_or_finish unwrap 40000 taken (ok tt) beginning
      ≡ some (requested_all fresh (further 0 (window 0 40000)) [] rs))
    × Tiles 0 (further 0 (window 0 40000)) rs
requests_fill_window_example =
    requests_fill_window unwrap 40000 taken (λ m. refl) (omega arith) (ok tt) beginning 0 at_start
      (omega arith) (omega arith) (omega arith)

abbrev second_half : DataRequest
second_half = record { offset = 2; len = 2 }

asks_half : next_data_request 4 0 2 ≡ some (some second_half)
unfolding next_data_request
asks_half = refl

requests_served_example :
    (data_channel_message file (λ m. ok tt) (ok (some (DownloaderMessage.data_request second_half)))
      ≡ record {
        sent = UploaderMessage.data_response 2 (take 2 (drop 2 file)) ∷ [];
        progress = (4, 4) ∷ [];
        outcome = Outcome.returned proceed;
      })
    × (length (take 2 (drop 2 file)) ≡ 2)
    × (0 < 2)
    × (2 ≤ chunk_size)
requests_served_example = requests_served file 0 2 second_half (omega arith) (omega arith) asks_half
