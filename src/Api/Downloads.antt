-- ===== src/Api/Downloads.antt =====
-- The download handler of glopfile-relay/src/api.rs and the stream of its response. What the session
-- answers is an argument, and what is asked of it is part of the result.
pub mod Bodies
use Prim.Native.String.{String}
use glopfile.Base.{
  Bytes, List, [], ◌∷◌, Option, none, some, Bool, true, false, Result, ok, err, map, ◌==◌,
  if◌then◌else◌,
}
use glopfile.Session.Types.{Position, Channel, DownloadEvent, Effect}
use glopfile.Range.{DownloadPosition, Header, download_position}
use glopfile.Api.{ApiError, Response}

-- What the handler asks of its session.
pub data DownloadCall : Type 0 where
  finish : DownloadCall
  start : Position → DownloadCall

-- The answer of a session that may be gone.
answered : Option (Unit {0}) → Response → Result ApiError Response
answered none r = err ApiError.not_found
answered (some _) r = ok r

download_at :
    Result String DownloadPosition
    → Option (Unit {0})
    → List DownloadCall × Result ApiError Response
unfolding answered
download_at (err reason) answer = ([], err (ApiError.invalid reason))
download_at (ok DownloadPosition.eof) answer =
    (DownloadCall.finish ∷ [], answered answer (Response.empty 200))
download_at (ok (DownloadPosition.at p)) answer =
    (DownloadCall.start p ∷ [], answered answer Response.content)

-- `download_content`, by the session of its path, its header, and the answer of the session.
unfoldable pub download_content :
    Result ApiError (Unit {0})
    → Header
    → Option (Unit {0})
    → List DownloadCall × Result ApiError Response
unfolding download_at
download_content (err e) header answer = ([], err e)
download_content (ok _) header answer = download_at (download_position header) answer

-- The stream of a response over the events that the session sends to it: the pieces of the body, and
-- `completed` as the `Download` has it when it is dropped. It ends with the final piece, when another
-- downloader takes over, or, where the list ends, because the session is gone or the client is.
unfoldable pub stream : List DownloadEvent → List Bytes × Bool
stream [] = ([], false)
stream (DownloadEvent.more bytes ∷ events) = let rest = stream events in (bytes ∷ rest.0, rest.1)
stream (DownloadEvent.final bytes ∷ events) = (bytes ∷ [], true)
stream (DownloadEvent.connection_replaced ∷ events) = ([], false)

-- The events that are sent on a channel.
unfoldable pub events_on : Channel → List Effect → List DownloadEvent
events_on ch [] = []
events_on ch (Effect.event c e ∷ fx) =
    let rest = events_on ch fx in if c == ch then e ∷ rest else rest
events_on ch (Effect.answer c a ∷ fx) = events_on ch fx
events_on ch (Effect.drop c ∷ fx) = events_on ch fx
events_on ch (Effect.command c m ∷ fx) = events_on ch fx
