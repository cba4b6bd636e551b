-- ===== src/Api.antt =====
-- The HTTP handlers of glopfile-relay/src/api.rs. A handler runs beside others, so what it gets from
-- its session is an argument, in the order of its requests, and what it asks of the session is part of
-- its result.
pub mod Files
pub mod Uploads
pub mod Downloads
use Prim.Native.String.{String}
use glopfile.Base.{
  ℕ, Bytes, List, [], ◌∷◌, ◌++◌, Option, none, some, Result, ok, err, ◌>>=◌, ◌>>◌, ok_or,
}
use glopfile.Session.Types.{Position, Chunk, DownloadEvent, UploadError, UploadResult}
use glopfile.Range
use glopfile.Range.{DownloadPosition, Header}

pub data ApiError : Type 0 where
  not_found : ApiError
  invalid : String → ApiError

-- The responses of the handlers: a JSON body with its status, an empty body, or the stream of a
-- download.
pub data Response : Type 0 where
  upload_ok : Response
  upload_failed : (reason : String) → Response
  conflict : Position → Response
  empty : (status : ℕ) → Response
  content : Response

abbrev pub status : Response → ℕ
status (Response.conflict p) = 409
status (Response.empty s) = s
status _ = 200

-- `IntoResponse for ApiError`.
abbrev pub into_response : ApiError → Response
into_response ApiError.not_found = Response.empty 404
into_response (ApiError.invalid reason) = Response.empty 400

abbrev pub respond : Result ApiError Response → Response
respond (ok r) = r
respond (err e) = into_response e

-- `upload_error`.
unfoldable pub upload_error : UploadError → Result ApiError Response
upload_error UploadError.not_found = err ApiError.not_found
upload_error (UploadError.position p) = ok (Response.conflict p)
upload_error UploadError.finished = ok Response.upload_ok
upload_error UploadError.connection_replaced = ok (Response.upload_failed "connection_replaced")
upload_error UploadError.data_pending = ok (Response.upload_failed "data_pending")

-- The handler `start_upload`, by the position of its form, if that has one, the session of its path,
-- and the session's answer.
unfoldable pub start_upload :
    Option Position
    → Result ApiError (Unit {0})
    → (Position → UploadResult)
    → Result ApiError Response
start_upload none session check = err (ApiError.invalid "position missing")
start_upload (some position) session check = do
  session
  elim (check position) [ ok _ ↦ ok Response.upload_ok | err e ↦ upload_error e ]

-- What the handler `upload` asks of its session. `disconnected` is sent when its guard is dropped.
pub data UploadCall : Type 0 where
  start : Position → UploadCall
  flush : UploadCall
  data_chunk : Chunk → UploadCall
  disconnected : UploadCall

-- A read of the request's body, which may fail.
abbrev pub Read : Type 0
Read = Result (Unit {0}) Bytes

abbrev pub Uploaded : Type 0
Uploaded = List UploadCall × Result ApiError Response

abbrev and_call : UploadCall → Uploaded → Uploaded
and_call c r = (c ∷ r.0, r.1)

read_failed : Uploaded
read_failed = ([], err (ApiError.invalid "body read failed"))

-- The answer to the next chunk; a session that is gone answers `NotFound`.
abbrev next_answer : List UploadResult → UploadResult
next_answer [] = err UploadError.not_found
next_answer (a ∷ as') = a

abbrev other_answers : List UploadResult → List UploadResult
other_answers [] = []
other_answers (a ∷ as') = as'

-- The loop of `upload`: `bytes` is the chunk that was read ahead, and `body` what is still to be read.
upload_loop : Bytes → List Read → List UploadResult → Uploaded
unfolding read_failed
upload_loop bytes [] answers =
    and_call (UploadCall.data_chunk (Chunk.final bytes))
      ([], elim (next_answer answers) [ ok _ ↦ ok Response.upload_ok | err e ↦ upload_error e ])
upload_loop bytes (err e ∷ body) answers = read_failed
upload_loop bytes (ok more ∷ body) answers =
    let rest = upload_loop more body (other_answers answers) in
    and_call (UploadCall.data_chunk (Chunk.more bytes))
      (elim (next_answer answers) [ ok _ ↦ rest | err e ↦ ([], upload_error e) ])

-- The body behind `start_upload` and `flush_upload`; an empty body counts as one empty chunk.
send_body : List Read → List UploadResult → Uploaded
unfolding upload_loop read_failed
send_body [] answers = upload_loop [] [] answers
send_body (err e ∷ body) answers = read_failed
send_body (ok bytes ∷ body) answers = upload_loop bytes body answers

flush_first : UploadResult → List Read → List UploadResult → Uploaded
unfolding send_body
flush_first (err e) body answers = ([], upload_error e)
flush_first (ok _) body answers = send_body body answers

start_first : UploadResult → UploadResult → List Read → List UploadResult → Uploaded
unfolding flush_first
start_first (err e) flushed body answers = ([], upload_error e)
start_first (ok _) flushed body answers =
    and_call UploadCall.flush (flush_first flushed body answers)

-- The handler `upload`, by the session of its path, its header and its body, and the answers of the
-- session to the start, the flush and each chunk.
unfoldable pub upload :
    Result ApiError (Unit {0})
    → Header
    → List Read
    → UploadResult
    → UploadResult
    → List UploadResult
    → Uploaded
unfolding start_first
upload (err e) header body started flushed answers = ([], err e)
upload (ok _) header body started flushed answers = elim (Range.upload_position header) [
  | err reason ↦ ([], err (ApiError.invalid reason))
  | ok position ↦
      let (calls, response) = start_first started flushed body answers in
      (UploadCall.start position ∷ (calls ++ UploadCall.disconnected ∷ []), response)
]
