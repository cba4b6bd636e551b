-- ===== src/Client/Upload.antt =====
-- The upload through the relay, `upload_file` of rust-client/glopfile/src/api_client.rs: requests
-- that ask to start at a position and then send the content from there, and what their responses
-- make of the position. The HTTP library and the JSON parser are arguments, and what the relay
-- answers is a list of exchanges.
pub mod Ranges
pub mod Completion
use Prim.Native.String.{String}
use glopfile.Base.{
  ℕ, Bytes, List, [], ◌∷◌, ◌++◌, Option, none, some, Bool, true, false, Result, ok, err, ◌>>=◌,
  ◌>>◌, ok_or, length, drop, ltb, ◌==◌, if◌then◌else◌,
}
use glopfile.Text.{Text}
use glopfile.Client.Errors.{
  Error, RetryError, retry_from, retry_transient, response_ok, is_retried, adjust,
}
use glopfile.Client.Headers.{content_range}

pub data UploadResponse : Type 0 where
  upload_ok : UploadResponse
  error : (reason : String) → UploadResponse

-- `ok_or` of an upload response.
abbrev pub upload_response_ok : UploadResponse → String → Result Error (Unit {0})
upload_response_ok UploadResponse.upload_ok message = ok tt
upload_response_ok (UploadResponse.error reason) message =
    err (Error.client_api_error_response message reason)

-- What the HTTP library gives of a response: its status, its `Retry-After` header and its body.
pub record HttpResponse : Type 0 where
  pub status : ℕ
  pub retry_after : Option (Option Text)
  pub body : Result Error Bytes

abbrev pub Reply : Type 0
Reply = Result Error HttpResponse

pub data Request : Type 0 where
  start : (position : ℕ) → Request
  content : (header : Text) (body : Bytes) → Request

-- How a round of the loop goes on: with the next round, or with the end of the attempt.
pub data Next : Type 0 where
  panicked again finished : Next
  failed : RetryError → Next

-- The requests of a round, the position that it stores for later rounds and attempts, and how it
-- goes on.
pub record Round : Type 0 where
  pub requests : List Request
  pub position : ℕ
  pub next : Next

-- What the relay and the schedule have for a round: the replies to its requests, and the delay that
-- the schedule has left if the round is the last of a failed attempt.
pub record Exchange : Type 0 where
  pub start_reply : Reply
  pub content_reply : Reply
  pub scheduled : Option ℕ

-- How an upload ends; `waiting` if the relay has not answered yet.
pub data UploadEnd : Type 0 where
  panicked finished waiting : UploadEnd
  failed : Error → UploadEnd

-- `StatusCode::CONFLICT`.
abbrev pub conflict : ℕ
conflict = 409

abbrev spurious : RetryError
spurious = retry_transient (
    Error.client_http_error_response "Spurious 409 Conflict response from server; identical offset."
      conflict none)

-- The message names the two numbers.
abbrev pub too_far : String
too_far = "Downloader requested file position which is greater than file size."

abbrev out_of_range : RetryError
out_of_range = retry_from (Error.invalid_peer_message too_far)

abbrev pub next_of : Result Error (Unit {0}) → Next
next_of (ok _) = Next.finished
next_of (err e) = Next.failed (retry_from e)

module _ (is_success : ℕ → Bool) (parse_upload : Bytes → Option UploadResponse)
    (parse_conflict : Bytes → Option ℕ) where
  -- The body of a response to a start or an upload request.
  unfoldable pub read_upload :
      HttpResponse → (invalid unsuccessful : String) → Result Error (Unit {0})
  read_upload r invalid unsuccessful = do
    bytes ← r.body
    answer ← ok_or (parse_upload bytes) (Error.invalid_server_response invalid)
    upload_response_ok answer unsuccessful

  -- The position that a conflict response asks for.
  unfoldable pub read_conflict : HttpResponse → Result Error ℕ
  read_conflict r = do
    bytes ← r.body
    ok_or (parse_conflict bytes) (Error.invalid_server_response "Invalid conflict error response")

  -- What a conflict response makes of the position.
  unfoldable pub resume_at : ℕ → ℕ → List Request → Result Error ℕ → Round
  resume_at size position requests (err e) = record {
    requests = requests;
    position = position;
    next = Next.failed (retry_from e);
  }
  resume_at size position requests (ok new) = record {
    requests = requests;
    position = new;
    next =
        if ltb size new
        then Next.failed out_of_range
        else if new == position
        then Next.failed spurious
        else Next.again;
  }

  -- The response that decides a round, after the requests that were sent.
  unfoldable pub decide : ℕ → ℕ → List Request → Reply → Round
  decide size position requests (err e) = record {
    requests = requests;
    position = position;
    next = Next.failed (retry_from e);
  }
  decide size position requests (ok r) =
      if r.status == conflict then resume_at size position requests (read_conflict r) else record {
        requests = requests;
        position = position;
        next = next_of (do
          response_ok is_success r.status r.retry_after "failed to upload content"
          read_upload r "Invalid upload response" "failed to upload");
      }

  -- What the body of the response to a start request said.
  unfoldable pub allowed : Bytes → ℕ → Reply → Result Error (Unit {0}) → Round
  allowed file position content_reply (err e) = record {
    requests = Request.start position ∷ [];
    position = position;
    next = Next.failed (retry_from e);
  }
  allowed file position content_reply (ok _) =
      decide (length file) position
        (Request.start position
          ∷ Request.content (content_range position (length file)) (drop position file)
          ∷ [])
        content_reply

  -- What the start request was answered with.
  unfoldable pub started : Bytes → ℕ → Reply → Reply → Round
  started file position content_reply (err e) = record {
    requests = Request.start position ∷ [];
    position = position;
    next = Next.failed (retry_from e);
  }
  started file position content_reply (ok r) =
      if is_success r.status
      then allowed file position content_reply
          (read_upload r "Invalid start upload response" "failed to start upload")
      else decide (length file) position (Request.start position ∷ []) (ok r)

  -- A round of the loop. To slice the file behind its end is a panic.
  unfoldable pub upload_round : Bytes → ℕ → Exchange → Round
  upload_round file position x =
      if ltb (length file) position
      then record { requests = []; position = position; next = Next.panicked }
      else started file position x.content_reply x.start_reply

module _ (is_server_error : ℕ → Option Bool) where
  -- Whether an attempt that failed is followed by another one, `retry`.
  unfoldable pub tries_again : RetryError → Option ℕ → Bool
  tries_again e scheduled =
      if is_retried is_server_error e
      then elim (adjust is_server_error e scheduled) [ none ↦ false | some d ↦ true ]
      else false

  -- A round before what comes later.
  unfoldable pub follow :
      List Request → Next → Option ℕ → List Request × UploadEnd → List Request × UploadEnd
  follow requests Next.panicked scheduled later = (requests, UploadEnd.panicked)
  follow requests Next.finished scheduled later = (requests, UploadEnd.finished)
  follow requests Next.again scheduled later = (requests ++ later.0, later.1)
  follow requests (Next.failed e) scheduled later =
      if tries_again e scheduled
      then (requests ++ later.0, later.1)
      else (requests, UploadEnd.failed e.error)

module _ (is_success : ℕ → Bool) (is_server_error : ℕ → Option Bool)
    (parse_upload : Bytes → Option UploadResponse) (parse_conflict : Bytes → Option ℕ) where
  -- `upload_file` from a position: all its requests, and how it ends.
  unfoldable pub upload_file : Bytes → ℕ → List Exchange → List Request × UploadEnd
  upload_file file position [] = ([], UploadEnd.waiting)
  upload_file file position (x ∷ xs) =
      let round = upload_round is_success parse_upload parse_conflict file position x in
      follow is_server_error round.requests round.next x.scheduled
        (upload_file file round.position xs)
