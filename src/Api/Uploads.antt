-- ===== src/Api/Uploads.antt =====
-- What the handler `upload` of glopfile-relay/src/api.rs does with the body of its request.
use glopfile.Base.{
  ◌≡◌, refl, ap, ◌⊎◌, Bool, true, false, ◌||◌, Bytes, List, [], ◌∷◌, ◌++◌, map, Option, none, some,
  ok, err, arith, replicate, length,
}
use glopfile.Session.Types.{Position, Chunk, UploadError, UploadResult}
use glopfile.Session.Delivery.{chunk_bytes}
use glopfile.Range
use glopfile.Range.{Header}
use glopfile.Api.{
  Response, upload_error, UploadCall, Read, upload_loop, send_body, start_first, upload,
}

-- The chunks of a body that is read in some pieces: the last is marked as the final one.
abbrev pub chunks_of : List Bytes → List Chunk
chunks_of [] = Chunk.final [] ∷ []
chunks_of (b ∷ []) = Chunk.final b ∷ []
chunks_of (b ∷ c ∷ bs) = Chunk.more b ∷ chunks_of (c ∷ bs)

abbrev pub reads : List Bytes → List Read
reads = map (λ b. ok b)

upload_loop-chunks_of :
    (b : Bytes) (bs : List Bytes)
    → upload_loop b (reads bs) (replicate (length (chunks_of (b ∷ bs))) (ok tt))
      ≡ (map UploadCall.data_chunk (chunks_of (b ∷ bs)), ok Response.upload_ok)
unfolding upload_loop
upload_loop-chunks_of b [] = refl
upload_loop-chunks_of b (c ∷ bs) = rw (upload_loop-chunks_of c bs) refl

-- An upload that the session accepts throughout sends the whole body: it starts at the position of
-- its header, waits for what is queued, sends the pieces of the body in order, the last one and only
-- that as the final chunk, reports that it left, and answers `ok`.
pub upload_sends_body :
    (header : Header) (position : Position) (bs : List Bytes)
    → Range.upload_position header ≡ ok position
    → upload (ok tt) header (reads bs) (ok tt) (ok tt) (replicate (length (chunks_of bs)) (ok tt))
      ≡ (
        UploadCall.start position
            ∷ UploadCall.flush
            ∷ (map UploadCall.data_chunk (chunks_of bs) ++ UploadCall.disconnected ∷ []),
        ok Response.upload_ok,
      )
unfolding upload
upload_sends_body header position [] h = ground arith
upload_sends_body header position (b ∷ bs) h = ground (arith, upload_loop-chunks_of b bs)

-- The content among the calls.
abbrev pub sent_bytes : List UploadCall → Bytes
sent_bytes [] = []
sent_bytes (UploadCall.data_chunk c ∷ cs) = chunk_bytes c ++ sent_bytes cs
sent_bytes (UploadCall.start p ∷ cs) = sent_bytes cs
sent_bytes (UploadCall.flush ∷ cs) = sent_bytes cs
sent_bytes (UploadCall.disconnected ∷ cs) = sent_bytes cs

-- A body all of which was read.
abbrev pub whole_body : List Read → Option Bytes
whole_body [] = some []
whole_body (err e ∷ rs) = none
whole_body (ok b ∷ rs) = elim (whole_body rs) [ none ↦ none | some bs ↦ some (b ++ bs) ]

abbrev is_finished : UploadResult → Bool
is_finished (err UploadError.finished) = true
is_finished r = false

abbrev pub any_finished : List UploadResult → Bool
any_finished [] = false
any_finished (a ∷ rest) = is_finished a || any_finished rest

upload_loop-ok :
    (b : Bytes) (body : List Read) (answers : List UploadResult)
    → (upload_loop b body answers).1 ≡ ok Response.upload_ok
    → (any_finished answers ≡ true)
      ⊎ (whole_body (ok b ∷ body) ≡ some (sent_bytes (upload_loop b body answers).0))
unfolding upload_loop upload_error
upload_loop-ok b [] [] h = ground arith
upload_loop-ok b [] (a ∷ answers) h = ground arith
upload_loop-ok b (err e ∷ body) answers h = ground arith
upload_loop-ok b (ok c ∷ body) [] h = ground arith
upload_loop-ok b (ok c ∷ body) (a ∷ answers) h = ground (arith, upload_loop-ok c body answers)

sent_bytes-disconnected :
    (cs : List UploadCall) → sent_bytes (cs ++ UploadCall.disconnected ∷ []) ≡ sent_bytes cs
sent_bytes-disconnected [] = refl
sent_bytes-disconnected (UploadCall.data_chunk c ∷ cs) =
    ap (◌++◌ (chunk_bytes c)) (sent_bytes-disconnected cs)
sent_bytes-disconnected (UploadCall.start p ∷ cs) = sent_bytes-disconnected cs
sent_bytes-disconnected (UploadCall.flush ∷ cs) = sent_bytes-disconnected cs
sent_bytes-disconnected (UploadCall.disconnected ∷ cs) = sent_bytes-disconnected cs

send_body-ok :
    (body : List Read) (answers : List UploadResult)
    → (send_body body answers).1 ≡ ok Response.upload_ok
    → (any_finished answers ≡ true)
      ⊎ (whole_body body ≡ some (sent_bytes (send_body body answers).0))
unfolding send_body
send_body-ok [] answers h = ground (arith, upload_loop-ok [] [] answers)
send_body-ok (err e ∷ body) answers h = ground arith
send_body-ok (ok b ∷ body) answers h = upload_loop-ok b body answers h

start_first-ok :
    (started flushed : UploadResult) (body : List Read) (answers : List UploadResult)
    → (start_first started flushed body answers).1 ≡ ok Response.upload_ok
    → (any_finished (started ∷ flushed ∷ answers) ≡ true)
      ⊎ (whole_body body ≡ some (sent_bytes (start_first started flushed body answers).0))
unfolding start_first upload_error
start_first-ok started flushed body answers h = ground (arith, send_body-ok body answers)

-- An upload is answered with `ok` only if the session said that its download had finished, or if the
-- whole body was read and all of it was sent to the session, in order.
pub upload_ok_needs_body :
    (header : Header) (body : List Read) (started flushed : UploadResult)
    (answers : List UploadResult)
    → (upload (ok tt) header body started flushed answers).1 ≡ ok Response.upload_ok
    → (any_finished (started ∷ flushed ∷ answers) ≡ true)
      ⊎ (whole_body body ≡ some (sent_bytes (upload (ok tt) header body started flushed answers).0))
unfolding upload
upload_ok_needs_body header body started flushed answers h = ground (
  arith,
  start_first-ok started flushed body answers,
  sent_bytes-disconnected (start_first started flushed body answers).0,
)
