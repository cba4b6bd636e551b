-- ===== src/Examples/Transferring.antt =====
-- The theorems on uploads, ciphers and output files of the client at concrete inputs.
use glopfile.Base.{
  ℕ, ◌≡◌, ◌≢◌, ◌⊎◌, refl, ap, Bytes, List, [], ◌∷◌, ◌++◌, length, Option, none, some, Result, Bool,
  false, ok, err, arith, All, leb, if◌then◌else◌,
}
use glopfile.Client.Errors.{response_ok}
use glopfile.Client.Decrypted.{
  Poll, IoError, WriteState, Flushed, fresh, offset, poll_write, poll_flush, poll_close,
}
use glopfile.Client.Decrypted.Laws.{Call, arrived, use_file, written_once, failed_flush_poisons}
use glopfile.Client.Upload.{
  UploadResponse, HttpResponse, Exchange, Request, UploadEnd, upload_file, upload_round, started,
  allowed, decide, resume_at, read_conflict, read_upload, follow,
}
use glopfile.Client.Upload.Ranges.{IsSuffix, uploads_suffixes}
use glopfile.Client.Upload.Completion.{whole_round, IsGranted, finished_after_whole_round}

-- The classes of status codes.
abbrev is_success : ℕ → Bool
is_success status = if leb 200 status then leb status 299 else false

abbrev is_server_error : ℕ → Option Bool
is_server_error status = some (leb 500 status)

-- A relay that answers `ok` with an empty body, and names the position of a conflict by one byte.
abbrev parse_upload : Bytes → Option UploadResponse
parse_upload [] = some UploadResponse.upload_ok
parse_upload (b ∷ bytes) = none

abbrev parse_conflict : Bytes → Option ℕ
parse_conflict [] = none
parse_conflict (b ∷ bytes) = some b

abbrev accepting : HttpResponse
accepting = record { status = 200; retry_after = none; body = ok [] }

-- A download that wants the file from its third byte on.
abbrev conflicting : HttpResponse
conflicting = record { status = 409; retry_after = none; body = ok (2 ∷ []) }

abbrev file : Bytes
file = 4 ∷ 5 ∷ 6 ∷ 7 ∷ []

abbrev exchanges : List Exchange
exchanges =
    record { start_reply = ok conflicting; content_reply = ok conflicting; scheduled = none }
    ∷ record { start_reply = ok accepting; content_reply = ok accepting; scheduled = none }
    ∷ []

uploads_suffixes_example :
    All
      (IsSuffix file)
      (upload_file is_success is_server_error parse_upload parse_conflict file 0 exchanges).0
    × ((upload_file is_success is_server_error parse_upload parse_conflict file 0 exchanges).1
        ≢ UploadEnd.panicked)
uploads_suffixes_example =
    uploads_suffixes is_success is_server_error parse_upload parse_conflict file 0 exchanges
      (omega arith) (omega arith)

exchanges_finish :
    upload_file is_success is_server_error parse_upload parse_conflict file 0 exchanges
    ≡ (Request.start 0 ∷ whole_round file 2, UploadEnd.finished)
unfolding upload_file upload_round started allowed decide resume_at read_conflict read_upload follow
    response_ok
exchanges_finish = refl

finished_after_whole_round_example :
    (earlier : List Exchange) × (x : Exchange) × (later : List Exchange) × (last : ℕ) × (exchanges
      ≡ earlier ++ x ∷ later)
    × ((upload_file is_success is_server_error parse_upload parse_conflict file 0 earlier).1
        ≡ UploadEnd.waiting)
    × ((upload_file is_success is_server_error parse_upload parse_conflict file 0 exchanges).0
        ≡ (upload_file is_success is_server_error parse_upload parse_conflict file 0 earlier).0
          ++ whole_round file last)
    × IsGranted is_success parse_upload x.start_reply
    × IsGranted is_success parse_upload x.content_reply
finished_after_whole_round_example =
    finished_after_whole_round is_success is_server_error parse_upload parse_conflict file 0
      exchanges (ap (λ r. r.1) exchanges_finish)

-- A cipher of files that leaves out what it is wrapped in, and a file of four bytes.
abbrev unwrap : Bytes → Result IoError Bytes
unwrap bytes = ok bytes

abbrev uses : List Call
uses =
    Call.write (4 ∷ 5 ∷ [])
    ∷ Call.write (6 ∷ 7 ∷ [])
    ∷ Call.flush Poll.pending
    ∷ Call.flush (Poll.ready (ok tt))
    ∷ Call.close (Poll.ready (ok tt))
    ∷ []

uses_write : use_file unwrap 4 uses fresh ≡ some (WriteState.complete, file ∷ [])
unfolding use_file poll_write poll_flush poll_close
uses_write = refl

written_once_example :
    (file ∷ [] ≡ [])
    ⊎ ((all rest pt : Bytes) × (arrived uses ≡ all ++ rest)
        × (length all ≡ 4)
        × (unwrap all ≡ ok pt)
        × (file ∷ [] ≡ pt ∷ []))
written_once_example = written_once unwrap 4 uses uses_write

abbrev failed : Flushed
failed = record {
  state = WriteState.poisoned;
  written = none;
  result = Poll.ready (err "disk full");
}

flush_fails :
    poll_flush unwrap 4 (Poll.ready (err "disk full")) (WriteState.unwritten file) ≡ some failed
unfolding poll_flush
flush_fails = refl

failed_flush_poisons_example :
    (offset 4 WriteState.poisoned ≡ none) × (poll_write (1 ∷ []) WriteState.poisoned ≡ none)
failed_flush_poisons_example =
    failed_flush_poisons unwrap 4 (Poll.ready (err "disk full")) (WriteState.unwritten file) failed
      "disk full" (1 ∷ []) flush_fails refl
