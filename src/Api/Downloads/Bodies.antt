-- ===== src/Api/Downloads/Bodies.antt =====
-- The bodies of the download responses of glopfile-relay/src/api.rs.
use glopfile.Base.{
  ℕ, ◌<◌, ◌≡◌, ◌↔◌, refl, sym, ap, ◌∙◌, Bytes, List, [], ◌∷◌, ◌++◌, map, flatten, none, some, true,
  ok, err, arith, All, append_assoc, u64_mod,
}
use glopfile.Session.Types.{Position, Channel, DownloadEvent, Downloader, State, Command, Effect}
use glopfile.Session.Relay
use glopfile.Session.Task.{run}
use glopfile.Session.Delivery.{received, event_bytes, offset_on, IsFresh, Faithful, Agrees}
use glopfile.Session.Delivery.Run.{IsHonestRun, run-start_download-Agrees}
use glopfile.Range.RoundTrip.{resume_understood}
use glopfile.Client.Headers.{resume_range, finish_range}
use glopfile.Api.{ApiError, Response}
use glopfile.Api.Downloads.{DownloadCall, download_content, stream, events_on}

abbrev all_bytes : List DownloadEvent → Bytes
all_bytes [] = []
all_bytes (e ∷ es) = event_bytes e ++ all_bytes es

all_bytes-events_on :
    (ch : Channel) (fx : List Effect) → all_bytes (events_on ch fx) ≡ received ch fx
unfolding events_on received
all_bytes-events_on ch [] = refl
all_bytes-events_on ch (Effect.event c e ∷ fx) = ground (arith, all_bytes-events_on ch fx)
all_bytes-events_on ch (Effect.answer c a ∷ fx) = all_bytes-events_on ch fx
all_bytes-events_on ch (Effect.drop c ∷ fx) = all_bytes-events_on ch fx
all_bytes-events_on ch (Effect.command c m ∷ fx) = all_bytes-events_on ch fx

-- The body is where the content that was sent begins.
stream_prefix :
    (es : List DownloadEvent) → (rest : Bytes) × (all_bytes es ≡ flatten (stream es).0 ++ rest)
unfolding stream
stream_prefix [] = ([], refl)
stream_prefix (DownloadEvent.more bytes ∷ es) =
    let (rest, e) = stream_prefix es in
    (rest, ap (◌++◌ bytes) e ∙ sym (append_assoc bytes (flatten (stream es).0) rest))
stream_prefix (DownloadEvent.final bytes ∷ es) =
    (all_bytes es, sym (append_assoc bytes [] (all_bytes es)))
stream_prefix (DownloadEvent.connection_replaced ∷ es) = (all_bytes es, refl)

Agrees-prefix :
    (content : Position → ℕ) (p : Position) (xs ys : Bytes)
    → Agrees content p (xs ++ ys)
    → Agrees content p xs
Agrees-prefix content p [] ys h = tt
Agrees-prefix content p (x ∷ xs) ys h = (h.0, Agrees-prefix content _ xs ys h.1)

-- The body of a download response is content from exactly the requested offset on, in order and
-- without a gap: for a session that satisfies the invariant and whose queued chunk, if any, is a piece
-- of the content, a downloader on a channel of its own, and any commands that follow, in which each
-- uploader, while it is connected, sends the content from where it is and not beyond the largest
-- offset.
pub body-Agrees :
    (content : Position → ℕ) (ack : Position → Bytes) (d : Downloader) (r : Channel)
    (cs : List Command) (s : State)
    → Faithful content s
    → IsHonestRun content ack cs (Relay.start_download ack d s).0
    → offset_on d.events s.downloader ≡ none
    → All (IsFresh d.events) cs
    → Agrees content d.position
        (flatten (stream (events_on d.events (run ack (Command.start_download d r ∷ cs) s).1)).0)
body-Agrees content ack d r cs s v h off f =
    let fx = (run ack (Command.start_download d r ∷ cs) s).1 in
    let (rest, e) = stream_prefix (events_on d.events fx) in
    Agrees-prefix content d.position (flatten (stream (events_on d.events fx)).0) rest (
      rw (← e, all_bytes-events_on d.events fx)
        (run-start_download-Agrees content ack d r cs s v h off f))

completed_ends :
    (es : List DownloadEvent)
    → (stream es).1 ≡ true
    → (before : List Bytes) × (last : Bytes) × (after : List DownloadEvent) × (es
        ≡ map DownloadEvent.more before ++ DownloadEvent.final last ∷ after)
      × ((stream es).0 ≡ before ++ last ∷ [])
unfolding stream
completed_ends [] h = ground arith
completed_ends (DownloadEvent.more bytes ∷ es) h =
    let (before, last, after, e, f) = completed_ends es h in
    (bytes ∷ before, last, after, ap (◌∷◌ (DownloadEvent.more bytes)) e, ap (◌∷◌ bytes) f)
completed_ends (DownloadEvent.final bytes ∷ es) h = ([], bytes, es, refl, refl)
completed_ends (DownloadEvent.connection_replaced ∷ es) h = ground arith

ends_completed :
    (before : List Bytes) (last : Bytes) (after : List DownloadEvent)
    → stream (map DownloadEvent.more before ++ DownloadEvent.final last ∷ after)
      ≡ (before ++ last ∷ [], true)
unfolding stream
ends_completed [] last after = refl
ends_completed (bytes ∷ before) last after = rw (ends_completed before last after) refl

-- A download reports to its session that it is complete exactly if a final piece came before it was
-- replaced or cut off, and then the body is what came up to that piece.
pub completed_iff :
    (es : List DownloadEvent)
    → ((stream es).1 ≡ true) ↔ (
        (before : List Bytes) × (last : Bytes) × (after : List DownloadEvent) × (es
          ≡ map DownloadEvent.more before ++ DownloadEvent.final last ∷ after)
        × ((stream es).0 ≡ before ++ last ∷ []))
completed_iff es = (
  completed_ends es,
  λ h. let (before, last, after, e, f) = h in rw (e, ends_completed before last after) refl,
)

-- The `Range` headers of the client do at the handler what they mean: for an offset below 2 ^ 64 a
-- download starts there, and the header of a client that has everything declares the download to be
-- finished. If the session is gone, the response to the first is 404.
pub client_ranges_served :
    (n : ℕ)
    → n < u64_mod
    → (download_content (ok tt) (some (some (resume_range n))) (some tt)
        ≡ (DownloadCall.start n ∷ [], ok Response.content))
      × (download_content (ok tt) (some (some finish_range)) (some tt)
          ≡ (DownloadCall.finish ∷ [], ok (Response.empty 200)))
      × (download_content (ok tt) (some (some (resume_range n))) none
          ≡ (DownloadCall.start n ∷ [], err ApiError.not_found))
unfolding download_content
client_ranges_served n h =
    let (resume, finish) = resume_understood n h in (rw resume refl, rw finish refl, rw resume refl)
