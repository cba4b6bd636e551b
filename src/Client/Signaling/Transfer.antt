-- ===== src/Client/Signaling/Transfer.antt =====
-- `PeerToPeerClient::transfer` of rust-client/glopfile/src/p2p.rs: the loop over what arrives, from the
-- signaling and from the peer connection, until the handler is done, something fails, or nothing
-- arrives for too long.
pub mod Numbers
pub mod Connections
pub mod Deadlines
pub mod Settled
pub mod Announcements
pub mod Panics
use Prim.Native.String.{String}
use glopfile.Base.{
  ℕ, ◌+◌, Bytes, List, [], ◌∷◌, ◌++◌, Bool, true, false, ◌&&◌, Option, none, some, Result, ok, err,
  ControlFlow, proceed, break, ltb, leb, ◌==◌, if◌then◌else◌,
}
use glopfile.Text.{Text}
use glopfile.Client.Errors.{Error}
use glopfile.Client.Signaling.{SdpType, SignalingMessage}
use glopfile.Client.Signaling.Socket.{Socket, Network, Flushed, send}
use glopfile.Client.Signaling.Connecting.{Run, Rtc, Connection, handle_incoming}

-- `PeerConnectionEvent`.
pub data PeerConnectionEvent : Type 0 where
  outgoing_signaling_message : SignalingMessage → PeerConnectionEvent
  data_channel_opened : PeerConnectionEvent
  data_channel_error : String → PeerConnectionEvent
  data_channel_message : Bytes → PeerConnectionEvent

-- `Event`, and the end of the channel that they come on.
pub data Event : Type 0 where
  incoming_signaling_message : Bytes → Event
  connection : ℕ → PeerConnectionEvent → Event
  closed : Event

-- One wait of the loop: when it begins, when an event ends it, and the event; for a message that goes
-- out, the ciphertext that encryption makes of it and what the network does.
pub record Arrival : Type 0 where
  pub from : ℕ
  pub at : ℕ
  pub event : Event
  pub ciphertext : Bytes
  pub network : ℕ → Network

-- `Timeout`, with times as numbers.
pub record Timeout : Type 0 where
  pub deadline : ℕ
  pub timeout : ℕ

-- `Timeout::new` and `Timeout::reset` at a time.
abbrev pub new_timeout : ℕ → ℕ → Timeout
new_timeout now timeout = record { deadline = now + timeout; timeout = timeout }

abbrev pub reset : ℕ → Timeout → Timeout
reset now t = record t { deadline = now + t.timeout }

abbrev pub reset_some : ℕ → Option Timeout → Option Timeout
reset_some now none = none
reset_some now (some t) = some (reset now t)

-- Whether a wait ends with its event: there is time left when it begins (`remaining`), and the event
-- comes before that has passed.
abbrev pub in_time : Option Timeout → ℕ → ℕ → Bool
in_time none from at = true
in_time (some t) from at = ltb from t.deadline && leb at t.deadline

abbrev thread_died : Error
thread_died = Error.rtc_data_channel "RTC thread died"

-- A `PeerToPeerClientHandler` with its state.
pub record Handler (H O : Type 0) : Type 0 where
  pub opened : H → Run (H × ControlFlow O)
  pub message : Bytes → H → Run (H × ControlFlow O)

-- How the loop goes on or ends; `waiting` for more to arrive.
pub data End (O : Type 0) : Type 0 where
  waiting panicked : End O
  failed : Error → End O
  returned : O → End O

module _ (rtc : Rtc) (unseal : Bytes → Result Error (Option SignalingMessage)) where
  pub record Client : Type 0 where
    pub peer_connection : Connection rtc
    pub signaling : Socket

  module _ {H O : Type 0} (handler : Handler H O) where
    -- The client, the handler's state, the timeout, the signaling messages that were handed to the
    -- websocket, and the end; `waiting` for a turn means that the loop goes on.
    pub record Turn : Type 0 where
      pub client : Client
      pub state : H
      pub timeout : Option Timeout
      pub attempted : List (Bytes × Bool)
      pub end : End O

    abbrev turn : Client → H → Option Timeout → End O → Turn
    turn c h t e = record { client = c; state = h; timeout = t; attempted = []; end = e }

    -- What a handler made of an event.
    abbrev handled : Client → H → Option Timeout → Run (H × ControlFlow O) → Turn
    handled c h t Run.panicked = turn c h t End.panicked
    handled c h t (Run.failed e) = turn c h t (End.failed e)
    handled c h t (Run.done (k, proceed)) = turn c k t End.waiting
    handled c h t (Run.done (k, break o)) = turn c k t (End.returned o)

    abbrev pub reconnected : Client → H → Option Timeout → Run (Connection rtc) → Turn
    reconnected c h t Run.panicked = turn c h t End.panicked
    reconnected c h t (Run.failed e) = turn c h t (End.failed e)
    reconnected c h t (Run.done p) = turn (record c { peer_connection = p }) h t End.waiting

    abbrev pub result_end : Result Error (Unit {0}) → End O
    result_end (ok _) = End.waiting
    result_end (err e) = End.failed e

    -- `SignalingWebSocket::send` of the ciphertext.
    hand_over : Client → H → Option Timeout → Arrival → Turn
    hand_over c h t x =
        let f = send x.network x.ciphertext c.signaling in
        record {
          client = record c { signaling = f.socket };
          state = h;
          timeout = t;
          attempted = f.attempted;
          end = result_end f.result;
        }

    -- A description that is neither an offer nor an answer is a panic.
    hand_over_description : SdpType → Client → H → Option Timeout → Arrival → Turn
    unfolding hand_over
    hand_over_description SdpType.offer c h t x = hand_over c h t x
    hand_over_description SdpType.answer c h t x = hand_over c h t x
    hand_over_description SdpType.pranswer c h t x = turn c h t End.panicked
    hand_over_description SdpType.rollback c h t x = turn c h t End.panicked

    -- `handle_outgoing_signaling_message`: an empty candidate is dropped.
    handle_outgoing : SignalingMessage → Client → H → Option Timeout → Arrival → Turn
    unfolding hand_over hand_over_description
    handle_outgoing (SignalingMessage.ice_candidate []) c h t x = turn c h t End.waiting
    handle_outgoing (SignalingMessage.ice_candidate (y ∷ text)) c h t x = hand_over c h t x
    handle_outgoing (SignalingMessage.session_description d) c h t x =
        hand_over_description d.sdp_type c h t x

    -- An event of the current connection.
    handle_event : PeerConnectionEvent → Client → H → Option Timeout → Arrival → Turn
    unfolding handle_outgoing
    handle_event (PeerConnectionEvent.outgoing_signaling_message m) c h t x =
        handle_outgoing m c h t x
    handle_event PeerConnectionEvent.data_channel_opened c h t x = handled c h t (handler.opened h)
    handle_event (PeerConnectionEvent.data_channel_error e) c h t x =
        turn c h t (End.failed (Error.rtc_data_channel e))
    handle_event (PeerConnectionEvent.data_channel_message bytes) c h t x =
        handled c h (reset_some x.at t) (handler.message bytes h)

    -- A turn of the loop; an event of another connection is dropped.
    turn_event : Event → Client → H → Option Timeout → Arrival → Turn
    unfolding handle_event
    turn_event Event.closed c h t x = turn c h t (End.failed thread_died)
    turn_event (Event.incoming_signaling_message bytes) c h t x =
        reconnected c h t (handle_incoming rtc (unseal bytes) c.peer_connection)
    turn_event (Event.connection id e) c h t x =
        if id == c.peer_connection.id then handle_event e c h t x else turn c h t End.waiting

    unfoldable pub take_turn : Client → H → Option Timeout → Arrival → Turn
    unfolding turn_event
    take_turn c h t x =
        if in_time t x.from x.at
        then turn_event x.event c h t x
        else turn c h t (End.failed Error.timeout)

    -- A turn that ends the loop is the last.
    abbrev pub continued : End O → Turn → Turn → Turn
    continued End.waiting now later = record later { attempted = now.attempted ++ later.attempted }
    continued End.panicked now later = now
    continued (End.failed e) now later = now
    continued (End.returned o) now later = now

    -- The loop of `transfer`.
    unfoldable pub transfer : List Arrival → Client → H → Option Timeout → Turn
    unfolding take_turn
    transfer [] c h t = turn c h t End.waiting
    transfer (x ∷ xs) c h t =
        let now = take_turn c h t x in
        let later = transfer xs now.client now.state now.timeout in continued now.end now later
