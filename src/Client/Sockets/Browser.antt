-- ===== src/Client/Sockets/Browser.antt =====
-- `WebWebSocketConnection` of rust-client/glopfile/src/websocket/web.rs: its shared state, the events
-- of the browser, and its callers. What the browser answers to a call is an argument, and
-- messages are binary.
pub mod Ends
use Prim.Native.String.{String}
use glopfile.Base.{
  ℕ, Bool, true, false, Option, none, some, Result, ok, err, ◌>>◌, ControlFlow, proceed, break,
  if◌then◌else◌,
}
use glopfile.Client.Errors.{WebSocketError, close_status}
use glopfile.Client.Sockets.{Outcome, connection_closed}

abbrev pub End : Type 0
End = Result WebSocketError (Unit {0})

-- `Shared`, with whether its joiner was aborted.
pub record Shared : Type 0 where
  pub error : Option WebSocketError
  pub closed : Bool
  pub aborted : Bool

abbrev pub fresh : Shared
fresh = record { error = none; closed = false; aborted = false }

-- `set_closed`.
abbrev pub set_closed : Shared → Shared
set_closed s = record s { closed = true; aborted = true }

-- `catch`.
abbrev catch : End × Shared → Shared
catch (ok _, s) = s
catch (err e, s) = set_closed (record s { error = some e })

-- `close`, by what `WebSocket.close` answers.
unfoldable pub close : End → Shared → End × Shared
close answer s =
    if s.closed
    then (ok tt, s)
    else elim answer [ ok _ ↦ (ok tt, set_closed s) | err e ↦ (err e, s) ]

-- An event of the browser: a message, by what its handler makes of it or the error of its decoding, with
-- the answer to a close; the close of the socket; or an error.
pub data Event : Type 0 where
  message : Result String (ControlFlow (Unit {0})) → End → Event
  closed : (code : ℕ) (reason : String) → Event
  errored : String → Event

-- The callbacks of `connect`.
unfoldable pub on_event : Event → Shared → Shared
unfolding close
on_event (Event.message (err e) answer) s = catch (err (WebSocketError.invalid_message e), s)
on_event (Event.message (ok proceed) answer) s = s
on_event (Event.message (ok (break _)) answer) s = catch (close answer s)
on_event (Event.closed code reason) s =
    set_closed (record s { error = some (WebSocketError.closed (close_status code) reason) })
on_event (Event.errored e) s = catch (err (WebSocketError.websocket_client e), s)

-- `try_join`, which takes the error away.
unfoldable pub try_join : Shared → Option End × Shared
try_join s = elim s.error [
  | some e ↦ (some (err e), record s { error = none })
  | none ↦ (
    if s.closed
        then some (err (WebSocketError.closed connection_closed "closed by application"))
        else none,
    s,
  )
]

-- The wait for a new socket to open, by its state and what its promise yields.
unfoldable pub opening : (connecting : Bool) → End → End
opening connecting promise = if connecting then promise else ok tt

-- `connect`, by that and the state of the socket after it.
unfoldable pub connect : (connecting : Bool) → End → (opened : Bool) → Result WebSocketError Shared
unfolding opening
connect connecting promise opened =
    opening connecting promise
    >> (if opened
        then ok fresh
        else err (WebSocketError.closed connection_closed "closed immediately"))

-- `send`, by what `WebSocket.send` answers.
unfoldable pub send : End → Shared → Outcome × Shared
unfolding try_join
send answer s =
    let (joined, t) = try_join s in
    (elim joined [ some result ↦ Outcome.returned result | none ↦ Outcome.returned answer ], t)

-- A poll of `join`, which unwraps what `try_join` gives once the joiner is aborted.
unfoldable pub join : Shared → Outcome × Shared
unfolding try_join
join s =
    if s.aborted
    then (let (joined, t) = try_join s in
        (elim joined [ some result ↦ Outcome.returned result | none ↦ Outcome.panicked ], t))
    else (Outcome.waits, s)
