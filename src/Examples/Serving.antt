-- ===== src/Examples/Serving.antt =====
-- The theorems on the requests, ids and sessions of a relay node at concrete inputs.
use glopfile.Base.{
  ◌≡◌, ◌⊎◌, refl, Bytes, List, [], ◌∷◌, ◌++◌, map, length, replicate, none, some, Result, true, ok,
}
use glopfile.Range.{upload_position}
use glopfile.Api.{ApiError, Response, UploadCall, upload}
use glopfile.Api.Uploads.{
  chunks_of, reads, whole_body, any_finished, sent_bytes, upload_sends_body, upload_ok_needs_body,
}

-- A body of two pieces.
abbrev body : List Bytes
body = (1 ∷ 2 ∷ []) ∷ (3 ∷ []) ∷ []

no_header : upload_position none ≡ ok 0
unfolding upload_position
no_header = refl

upload_sends_body_example :
    upload (ok tt) none (reads body) (ok tt) (ok tt) (replicate (length (chunks_of body)) (ok tt))
    ≡ (
      UploadCall.start 0
          ∷ UploadCall.flush
          ∷ (map UploadCall.data_chunk (chunks_of body) ++ UploadCall.disconnected ∷ []),
      ok Response.upload_ok,
    )
upload_sends_body_example = upload_sends_body none 0 body no_header

abbrev calls : List UploadCall × Result ApiError Response
calls = upload (ok tt) none (reads body) (ok tt) (ok tt) (ok tt ∷ ok tt ∷ [])

calls_ok : calls.1 ≡ ok Response.upload_ok
unfolding upload upload_position
calls_ok = refl

upload_ok_needs_body_example :
    (any_finished (ok tt ∷ ok tt ∷ ok tt ∷ ok tt ∷ []) ≡ true)
    ⊎ (whole_body (reads body) ≡ some (sent_bytes calls.0))
upload_ok_needs_body_example =
    upload_ok_needs_body none (reads body) (ok tt) (ok tt) (ok tt ∷ ok tt ∷ []) calls_ok
