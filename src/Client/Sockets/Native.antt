-- ===== src/Client/Sockets/Native.antt =====
-- `NativeWebSocketConnection` of rust-client/glopfile/src/websocket/native.rs: the thread that serves
-- the connection, as what each turn of its `select!` meets, and what its callers get. The handler of
-- incoming messages is an argument; a panic of the thread is left out.
pub mod Ends
use Prim.Native.String.{String}
use glopfile.Base.{
  ℕ, List, [], ◌∷◌, ◌++◌, Option, none, some, Bool, true, false, Result, ok, err, ControlFlow,
  proceed, break,
}
use glopfile.Client.Errors.{WebSocketError, Error, close_status}
use glopfile.Client.Sockets.{Outcome}

-- `tungstenite::Error`: an HTTP response with its status and what `retry_after` makes of its headers,
-- an error of the operating system, or another one.
pub data LibraryError : Type 0 where
  http : (status : ℕ) → (retry_after : Result Error (Option ℕ)) → LibraryError
  io other : String → LibraryError
  already_closed : LibraryError

-- `Result::ok` and `Option::flatten`.
abbrev flattened : Result Error (Option ℕ) → Option ℕ
flattened (ok after) = after
flattened (err e) = none

-- `From<tungstenite::Error> for WebSocketError`.
abbrev pub of_library : LibraryError → WebSocketError
of_library (LibraryError.http status retry_after) =
    WebSocketError.client_http_error_response "failed to connect to websocket" status
      (flattened retry_after)
of_library (LibraryError.io e) = WebSocketError.io e
of_library (LibraryError.other e) = WebSocketError.websocket_client e
of_library LibraryError.already_closed = WebSocketError.websocket_client "already closed"

abbrev pub End : Type 0
End = Result WebSocketError (Unit {0})

-- What a turn of the loop meets: a message to send, by the number of its reply and by what sending
-- yields, the end of these, or what comes from the server. A binary message is given as it decodes.
pub data Turn (Message : Type 0) : Type 0 where
  outgoing : (reply : ℕ) → Result LibraryError (Unit {0}) → Turn Message
  outgoing_end : Turn Message
  binary : Result String Message → Turn Message
  ping : Result LibraryError (Unit {0}) → Turn Message
  text pong frame : Turn Message
  close : Option (ℕ × String) → Turn Message
  failed : LibraryError → Turn Message
  incoming_end : Turn Message

-- The state of the handler, the replies that were given, and how the thread has ended, if it has.
pub record Thread (Handler : Type 0) : Type 0 where
  pub handler : Handler
  pub replies : List ℕ
  pub ended : Option End

module _ {Message Handler : Type 0}
    (handle : Message → Handler → Handler × ControlFlow (Unit {0})) where
  -- What goes on, or ends with an error of the library.
  abbrev go_on : Result LibraryError (Unit {0}) → Option End
  go_on (ok _) = none
  go_on (err e) = some (err (of_library e))

  abbrev ended_by : ControlFlow (Unit {0}) → Option End
  ended_by proceed = none
  ended_by (break _) = some (ok tt)

  abbrev pub closed_by : Option (ℕ × String) → End
  closed_by none = ok tt
  closed_by (some (code, reason)) = err (WebSocketError.closed (close_status code) reason)

  abbrev replied : ℕ → Result LibraryError (Unit {0}) → List ℕ
  replied reply (ok _) = reply ∷ []
  replied reply (err e) = []

  -- One turn of the loop.
  unfoldable pub take_turn : Turn Message → Handler → Thread Handler
  take_turn (Turn.outgoing reply sent) h = record {
    handler = h;
    replies = replied reply sent;
    ended = go_on sent;
  }
  take_turn (Turn.binary (ok m)) h =
      let (h', flow) = handle m h in record { handler = h'; replies = []; ended = ended_by flow }
  take_turn (Turn.binary (err e)) h = record {
    handler = h;
    replies = [];
    ended = some (err (WebSocketError.invalid_message e));
  }
  take_turn (Turn.ping sent) h = record { handler = h; replies = []; ended = go_on sent }
  take_turn (Turn.close how) h = record { handler = h; replies = []; ended = some (closed_by how) }
  take_turn (Turn.failed e) h = record {
    handler = h;
    replies = [];
    ended = some (err (of_library e));
  }
  take_turn Turn.outgoing_end h = record { handler = h; replies = []; ended = some (ok tt) }
  take_turn Turn.incoming_end h = record { handler = h; replies = []; ended = some (ok tt) }
  take_turn _ h = record { handler = h; replies = []; ended = none }

  -- The turn that ended the thread, or what comes after it.
  abbrev pub and_then : Thread Handler → Thread Handler → Thread Handler
  and_then t rest = elim t.ended [
    | some end ↦ t
    | none ↦ record rest { replies = t.replies ++ rest.replies }
  ]

  -- The loop of the thread.
  unfoldable pub run : List (Turn Message) → Handler → Thread Handler
  unfolding take_turn
  run [] h = record { handler = h; replies = []; ended = none }
  run (turn ∷ turns) h =
      let t = take_turn turn h in let rest = run turns t.handler in and_then t rest

-- The handle of a thread that will end in some way, if nobody has taken it.
abbrev pub Connection : Type 0
Connection = Option End

-- `join_sync`.
unfoldable pub join_sync : Connection → End × Connection
join_sync (some end) = (end, none)
join_sync none = (err (of_library LibraryError.already_closed), none)

-- `unwrap_err` of a result.
abbrev unwrap_err : End → Outcome
unwrap_err (ok _) = Outcome.panicked
unwrap_err (err e) = Outcome.returned (err e)

-- `connect`, by whether the server was reached, and how the thread will end then.
unfoldable pub connect : Result LibraryError End → Outcome × Connection
unfolding join_sync
connect (ok end) = (Outcome.returned (ok tt), some end)
connect (err e) = let (end, c) = join_sync (some (err (of_library e))) in (unwrap_err end, c)

-- `send`, by whether its reply comes. If the thread ends without it, the caller takes the handle.
unfoldable pub send : Bool → Connection → Outcome × Connection
unfolding join_sync
send true c = (Outcome.returned (ok tt), c)
send false c = let (end, d) = join_sync c in (unwrap_err end, d)

-- `join`, once the thread has ended.
unfoldable pub join : Connection → Outcome × Connection
unfolding join_sync
join c = let (end, d) = join_sync c in (Outcome.returned end, d)
