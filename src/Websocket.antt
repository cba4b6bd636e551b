-- ===== src/Websocket.antt =====
-- The loop between a websocket and its session, glopfile-relay/src/websocket.rs. What wakes the loop, at
-- which time, and whether the socket takes what is sent, are arguments. Times are milliseconds.
pub mod Passing
use glopfile.Base.{
  ℕ, ◌+◌, List, [], ◌∷◌, ◌++◌, Option, none, some, Bool, true, false, if◌then◌else◌,
}
use glopfile.Session.Types.{
  Token, Channel, Frame, Direction, Peer, Command, WebsocketCommand, WebsocketPeer,
}

abbrev pub ping_interval : ℕ
ping_interval = 5000

abbrev pub idle_timeout : ℕ
idle_timeout = 30000

-- `Message`, as it comes in: of a ping or a pong the transport takes care.
pub data Incoming : Type 0 where
  content : Frame → Incoming
  close ping_or_pong : Incoming

-- A message that goes out.
pub data Outgoing : Type 0 where
  content : Frame → Outgoing
  ping : Outgoing

-- What wakes the loop: a command or the end of the commands, a frame or the end of the socket or an
-- error, or a timer.
pub data Wake : Type 0 where
  command : Option WebsocketCommand → Wake
  frame : Option Incoming → Wake
  ping idle : Wake

pub record Event : Type 0 where
  pub at : ℕ
  pub wake : Wake
  pub taken : Bool

-- The deadlines of the two timers.
pub record Timers : Type 0 where
  pub ping : ℕ
  pub idle : ℕ

abbrev pub started : ℕ → Timers
started now = record { ping = now + ping_interval; idle = now + idle_timeout }

-- What a wake makes of the timers, what is sent either way, and whether the loop goes on.
pub record Woken : Type 0 where
  pub timers : Timers
  pub to_session : List Command
  pub to_socket : List Outgoing
  pub goes_on : Bool

abbrev pub leaves : Timers → Woken
leaves t = record { timers = t; to_session = []; to_socket = []; goes_on = false }

abbrev pub sends : Timers → Outgoing → Bool → Woken
sends t m taken = record { timers = t; to_session = []; to_socket = m ∷ []; goes_on = taken }

module _ (direction : Direction) where
  -- A frame of the socket, with the timers that it has reset.
  abbrev pub on_frame : Timers → Incoming → Woken
  on_frame t (Incoming.content f) = record {
    timers = t;
    to_session = Command.websocket_data direction f ∷ [];
    to_socket = [];
    goes_on = true;
  }
  on_frame t Incoming.close = leaves t
  on_frame t Incoming.ping_or_pong = record {
    timers = t;
    to_session = [];
    to_socket = [];
    goes_on = true;
  }

  -- A branch of the `select!`.
  unfoldable pub on_wake : ℕ → Wake → Bool → Timers → Woken
  on_wake now (Wake.command (some (WebsocketCommand.send f))) taken t =
      sends t (Outgoing.content f) taken
  on_wake now (Wake.command (some WebsocketCommand.session_error)) taken t = leaves t
  on_wake now (Wake.command none) taken t = leaves t
  on_wake now (Wake.frame none) taken t = leaves t
  on_wake now (Wake.frame (some m)) taken t = on_frame (started now) m
  on_wake now Wake.ping taken t =
      sends (record t { ping = now + ping_interval }) Outgoing.ping taken
  on_wake now Wake.idle taken t = leaves t

  abbrev pub and_then : Woken → Woken → Woken
  and_then w rest = record rest {
    to_session = w.to_session ++ rest.to_session;
    to_socket = w.to_socket ++ rest.to_socket;
  }

  -- The loop over the events.
  unfoldable pub relay_loop : List Event → Timers → Woken
  relay_loop [] t = record { timers = t; to_session = []; to_socket = []; goes_on = true }
  relay_loop (e ∷ es) t =
      let w = on_wake e.at e.wake e.taken t in
      let rest = relay_loop es w.timers in if w.goes_on then and_then w rest else w

  -- What a relay that has ended tells its session, by the drop of `Disconnect`.
  abbrev pub disconnect : Token → Bool → List Command
  disconnect token true = []
  disconnect token false = Command.disconnected token (Peer.websocket direction) ∷ []

  -- `relay`, from a time on; `registered` is whether the session answers the start.
  unfoldable pub relay :
      Token → (commands reply : Channel) → (registered : Bool) → ℕ → List Event → Woken
  unfolding relay_loop
  relay token commands reply registered now es =
      let start : Command =
        Command.start_websocket direction (record { token = token; commands = commands }) reply in
      let w = relay_loop es (started now) in
      if registered
      then record w { to_session = start ∷ (w.to_session ++ disconnect token w.goes_on) }
      else record (leaves (started now)) { to_session = start ∷ [] }
