-- ===== src/Client/Sockets.antt =====
-- The connections behind `WebSocketClient`, one of a native platform and one of a browser:
-- rust-client/glopfile/src/websocket/native.rs and web.rs.
pub mod Native
pub mod Browser
use glopfile.Base.{ℕ, Bool, Option, none, some, Result, ok, err}
use glopfile.Client.Errors.{
  WebSocketError, CloseStatus, KnownCloseStatus, Retriability, of_websocket, error_retriability,
}

-- What a caller of a connection meets: a panic, that it waits, or a result.
pub data Outcome : Type 0 where
  panicked waits : Outcome
  returned : Result WebSocketError (Unit {0}) → Outcome

abbrev pub connection_closed : CloseStatus
connection_closed = CloseStatus.known KnownCloseStatus.connection_closed

-- The closure of `WebSocketClient::new` after `join`: a connection that ended well was closed by the server.
abbrev pub after_join : Result WebSocketError (Unit {0}) → WebSocketError
after_join (ok _) = WebSocketError.closed connection_closed "server closed"
after_join (err e) = e

-- How the client treats the end of its connection, if `join` comes to an end.
unfoldable pub reconnects : (ℕ → Option Bool) → Outcome → Option Retriability
reconnects is_server_error (Outcome.returned r) =
    some (error_retriability is_server_error (of_websocket (after_join r)))
reconnects is_server_error _ = none
