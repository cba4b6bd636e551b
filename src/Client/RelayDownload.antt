-- ===== src/Client/RelayDownload.antt =====
-- The download through the relay, `download_content` of rust-client/glopfile/src/api_client.rs: requests
-- for the content from where the output file ends, tried again while the errors allow it, over the
-- `DecryptedFile` that they write to. The HTTP library and the cipher are arguments. What the relay
-- answers to an attempt is a function of the offset that the attempt asks for.
pub mod Resuming
pub mod Encrypted
use Prim.Native.String.{String}
use glopfile.Base.{
  ℕ, ◌+◌, Bytes, List, [], ◌∷◌, ◌++◌, Option, none, some, Bool, Result, ok, err, length,
  if◌then◌else◌, add_u64,
}
use glopfile.Text.{Text}
use glopfile.Client.Errors.{Error, RetryError, retry_from, retry_permanent, response_ok}
use glopfile.Client.Headers.{resume_range}
use glopfile.Client.Decrypted.{
  Poll, IoError, WriteState, Flushed, offset, write_all, poll_flush, poll_close,
}
use glopfile.Client.Decrypted.Laws.{to_list}
use glopfile.Client.Upload.{Reply, tries_again}

-- What the stream of a response brings: bytes, an error, or nothing for too long.
pub data Item : Type 0 where
  chunk : Bytes → Item
  broken : Error → Item
  stalled : Item

-- What an attempt meets: the reply to its request, or an error that may be a timeout; the stream of the
-- body up to its end; what the output file makes of being written; and the delay that the schedule has
-- left if the attempt fails.
pub record Exchange : Type 0 where
  pub reply : Reply
  pub stream : List Item
  pub outcome : Result IoError (Unit {0})
  pub scheduled : Option ℕ

-- How an attempt or the download ends; `waiting` for more to come.
pub data End (E : Type 0) : Type 0 where
  panicked waiting finished : End E
  failed : E → End E

-- What an attempt or the download leaves: the output file of the client and the plaintext written to
-- the one of the user, the `Range` headers of the requests, the progress that was reported, and the end.
pub record Fetched (E : Type 0) : Type 0 where
  pub file : WriteState
  pub written : List Bytes
  pub ranges : List Text
  pub progress : List (ℕ × ℕ)
  pub end : End E

abbrev pub stops : {E : Type 0} → WriteState → List Bytes → End E → Fetched E
stops file written e = record {
  file = file;
  written = written;
  ranges = [];
  progress = [];
  end = e;
}

-- What comes after something was written, requested and reported.
abbrev pub also : {E : Type 0} → List Bytes → List Text → List (ℕ × ℕ) → Fetched E → Fetched E
also written ranges progress f = record f {
  written = written ++ f.written;
  ranges = ranges ++ f.ranges;
  progress = progress ++ f.progress;
}

module _ (decrypt : Bytes → Result IoError Bytes) (file_size : ℕ) where
  abbrev closed : Flushed → Poll (Result IoError (Unit {0})) → Fetched RetryError
  closed f Poll.pending = stops f.state (to_list f.written) End.waiting
  closed f (Poll.ready (err e)) =
      stops f.state (to_list f.written) (End.failed (retry_permanent (Error.io e)))
  closed f (Poll.ready (ok _)) = stops f.state (to_list f.written) End.finished

  abbrev closing : WriteState → Option Flushed → Fetched RetryError
  closing file none = stops file [] End.panicked
  closing file (some f) = closed f f.result

  abbrev flushed :
      Result IoError (Unit {0}) → Flushed → Poll (Result IoError (Unit {0})) → Fetched RetryError
  flushed outcome f Poll.pending = stops f.state (to_list f.written) End.waiting
  flushed outcome f (Poll.ready (err e)) =
      stops f.state (to_list f.written) (End.failed (retry_permanent (Error.io e)))
  flushed outcome f (Poll.ready (ok _)) =
      also (to_list f.written) [] []
        (closing f.state (poll_close decrypt file_size (Poll.ready outcome) f.state))

  abbrev flushing : Result IoError (Unit {0}) → WriteState → Option Flushed → Fetched RetryError
  flushing outcome file none = stops file [] End.panicked
  flushing outcome file (some f) = flushed outcome f f.result

  -- The end of the stream: the file is flushed and closed.
  unfoldable pub finish : Result IoError (Unit {0}) → WriteState → Fetched RetryError
  finish outcome file =
      flushing outcome file (poll_flush decrypt file_size (Poll.ready outcome) file)

  abbrev pub after_write :
      Option (WriteState × Result IoError (Unit {0}))
      → WriteState
      → (WriteState → Fetched RetryError)
      → Fetched RetryError
  after_write none file k = stops file [] End.panicked
  after_write (some (t, err e)) file k = stops t [] (End.failed (retry_permanent (Error.io e)))
  after_write (some (t, ok _)) file k = k t

  -- The loop over the stream, at an offset with so many bytes downloaded; `content_size` is the length
  -- of the plaintext.
  unfoldable pub read_stream :
      (content_size : ℕ)
      → (content_offset : ℕ) → Result IoError (Unit {0})
      → List Item
      → (downloaded : ℕ) → WriteState
      → Fetched RetryError
  unfolding finish
  read_stream size at outcome [] got file = finish outcome file
  read_stream size at outcome (Item.broken e ∷ items) got file =
      stops file [] (End.failed (retry_from e))
  read_stream size at outcome (Item.stalled ∷ items) got file =
      stops file [] (End.failed (retry_from Error.timeout))
  read_stream size at outcome (Item.chunk bytes ∷ items) got file =
      let more = add_u64 got (length bytes) in
      also [] [] ((add_u64 at more, size) ∷ [])
        (after_write (write_all bytes file) file (λ t. read_stream size at outcome items more t))

module _ (is_success : ℕ → Bool) (is_server_error : ℕ → Option Bool)
    (decrypt : Bytes → Result IoError Bytes) (file_size : ℕ) where
  -- The reply to the request of an attempt.
  abbrev pub replied : Reply → Result Error (Unit {0})
  replied (err e) = err e
  replied (ok r) = response_ok is_success r.status r.retry_after "failed to download content"

  abbrev pub answered :
      Result Error (Unit {0}) → WriteState → Fetched RetryError → Fetched RetryError
  answered (err e) file body = stops file [] (End.failed (retry_from e))
  answered (ok _) file body = body

  abbrev pub attempt_at :
      Option ℕ → (ℕ → Exchange) → (content_size : ℕ) → WriteState → Fetched RetryError
  attempt_at none x size file = stops file [] End.panicked
  attempt_at (some at) x size file = also [] (resume_range at ∷ []) [] (
      answered (replied (x at).reply) file
        (read_stream decrypt file_size size at (x at).outcome (x at).stream 0 file))

  -- An attempt: the closure that is retried.
  unfoldable pub attempt : (ℕ → Exchange) → (content_size : ℕ) → WriteState → Fetched RetryError
  attempt x size file = attempt_at (offset file_size file) x size file

  abbrev pub scheduled_at : Option ℕ → (ℕ → Exchange) → Option ℕ
  scheduled_at none x = none
  scheduled_at (some at) x = (x at).scheduled

  -- An attempt before the later ones.
  abbrev pub and_later :
      End RetryError → Fetched RetryError → Option ℕ → (WriteState → Fetched Error) → Fetched Error
  and_later End.panicked f scheduled later =
      also f.written f.ranges f.progress (stops f.file [] End.panicked)
  and_later End.waiting f scheduled later =
      also f.written f.ranges f.progress (stops f.file [] End.waiting)
  and_later End.finished f scheduled later =
      also f.written f.ranges f.progress (stops f.file [] End.finished)
  and_later (End.failed e) f scheduled later = also f.written f.ranges f.progress (
      if tries_again is_server_error e scheduled
      then later f.file
      else stops f.file [] (End.failed e.error))

  -- `download_content` from its URL on.
  unfoldable pub download_attempts :
      (content_size : ℕ) → List (ℕ → Exchange) → WriteState → Fetched Error
  unfolding attempt
  download_attempts size [] file = stops file [] End.waiting
  download_attempts size (x ∷ xs) file =
      let f = attempt x size file in
      and_later f.end f (scheduled_at (offset file_size file) x) (λ t. download_attempts size xs t)

  -- `download_content`, by what `join` makes of the URL.
  unfoldable pub download_content :
      {Url : Type 0}
      → Option Url
      → (content_size : ℕ) → List (ℕ → Exchange)
      → WriteState
      → Fetched Error
  unfolding download_attempts
  download_content none size xs file =
      stops file [] (End.failed (Error.invalid_input "bad content url"))
  download_content (some url) size xs file = download_attempts size xs file
