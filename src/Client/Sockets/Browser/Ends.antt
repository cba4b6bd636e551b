-- ===== src/Client/Sockets/Browser/Ends.antt =====
-- How a websocket of a browser ends for its callers, rust-client/glopfile/src/websocket/web.rs.
use Prim.Native.String.{String}
use glopfile.Base.{ℕ, ◌≡◌, ◌≢◌, refl, List, ◌∷◌, [], ◌++◌, Option, some, Bool, err, arith}
use glopfile.Client.Errors.{WebSocketError, Retriability, close_status, error_retriability}
use glopfile.Client.Sockets.{Outcome, reconnects}
use glopfile.Client.Sockets.Browser.{
  Shared, Event, End, fresh, on_event, send, join, close, try_join,
}

-- What happens to a connection: an event, or a call of one that uses it.
pub data Step : Type 0 where
  event : Event → Step
  sends : End → Step
  joins : Step

-- The outcome of the calls, and the state.
unfoldable pub step : Step → Shared → List Outcome × Shared
step (Step.event e) s = ([], on_event e s)
step (Step.sends answer) s = let (o, t) = send answer s in (o ∷ [], t)
step Step.joins s = let (o, t) = join s in (o ∷ [], t)

unfoldable pub run : List Step → Shared → List Outcome × Shared
run [] s = ([], s)
run (x ∷ xs) s = let (o, t) = step x s in let rest = run xs t in (o ++ rest.0, rest.1)

abbrev pub IsCalm : List Outcome → Type 0
IsCalm [] = Unit {0}
IsCalm (o ∷ os) = (o ≢ Outcome.panicked) × IsCalm os

-- The joiner is aborted if the connection is closed and only then, and an error is there only then.
record IsSound (s : Shared) : Type 0 where
  joined : s.aborted ≡ s.closed

step-IsSound : (x : Step) (s : Shared) → IsSound s → IsSound (step x s).1
unfolding step on_event send join close try_join
step-IsSound x s h = ground arith

step-IsCalm : (x : Step) (s : Shared) → IsSound s → IsCalm (step x s).0
unfolding step send join try_join
step-IsCalm (Step.event e) s h = tt
step-IsCalm (Step.sends answer) s h = ground arith
step-IsCalm Step.joins s h = ground (arith, h.joined)

IsCalm-append : (os ps : List Outcome) → IsCalm os → IsCalm ps → IsCalm (os ++ ps)
IsCalm-append [] ps a b = b
IsCalm-append (o ∷ os) ps a b = (a.0, IsCalm-append os ps a.1 b)

run-IsCalm : (xs : List Step) (s : Shared) → IsSound s → IsCalm (run xs s).0
unfolding run
run-IsCalm [] s h = tt
run-IsCalm (x ∷ xs) s h =
    IsCalm-append (step x s).0 (run xs (step x s).1).0 (step-IsCalm x s h)
      (run-IsCalm xs (step x s).1 (step-IsSound x s h))

-- No call panics, over any events of the browser and any calls, in any order.
pub calls-IsCalm : (xs : List Step) → IsCalm (run xs fresh).0
calls-IsCalm xs = run-IsCalm xs fresh (record { joined = refl })

-- When the socket is closed, the call that comes first learns the status. A `join` after another call is
-- told that the application has closed it, upon which the client connects again, also where the status
-- alone would have been the end.
pub close_told_once :
    (is_server_error : ℕ → Option Bool) (xs : List Step) (code : ℕ) (reason : String) (answer : End)
    → let s = on_event (Event.closed code reason) (run xs fresh).1 in
      let told = Outcome.returned (err (WebSocketError.closed (close_status code) reason)) in
      ((join s).0 ≡ told)
      × ((send answer s).0 ≡ told)
      × (reconnects is_server_error (join (send answer s).1).0 ≡ some Retriability.transient)
unfolding on_event join send try_join reconnects error_retriability
close_told_once is_server_error xs code reason answer = (refl, refl, refl)
