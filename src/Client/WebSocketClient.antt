-- ===== src/Client/WebSocketClient.antt =====
-- `WebSocketClient` of rust-client/glopfile/src/websocket.rs: the task that connects, and connects
-- again, and the shared receiver from which its users get the connection. A oneshot channel is a
-- number, and a connection too.
pub mod Reconnects
use glopfile.Base.{
  ℕ, suc, ◌+◌, Option, none, some, Bool, true, false, Result, ok, err, List, [], ◌∷◌, ◌==◌,
  if◌then◌else◌,
}
use glopfile.Client.Errors.{WebSocketError}

abbrev pub Connection : Type 0
Connection = ℕ

-- What has become of a oneshot channel: nothing yet, its value, or the end of its sender.
pub data Sent : Type 0 where
  waiting : Sent
  value : Connection → Sent
  closed : Sent

-- A channel also knows whether its receiver is still there.
pub record Oneshot : Type 0 where
  pub sent : Sent
  pub heard : Bool

-- The receiver in `connection`, the sender `connection_tx` of the closure, the number of the next
-- channel, and the channels.
pub record State : Type 0 where
  pub shared : ℕ
  pub sender : ℕ
  pub next : ℕ
  pub channels : ℕ → Oneshot

abbrev pub update : ℕ → Oneshot → (ℕ → Oneshot) → ℕ → Oneshot
update i c channels j = if j == i then c else channels j

abbrev fresh_channel : Oneshot
fresh_channel = record { sent = Sent.waiting; heard = true }

abbrev drop_sender : Oneshot → Oneshot
drop_sender c = record c { sent = elim c.sent [ Sent.waiting ↦ Sent.closed | s ↦ s ] }

abbrev drop_receiver : Oneshot → Oneshot
drop_receiver c = record c { heard = false }

-- `Sender::send`, which has no effect if nobody listens.
abbrev send_value : Connection → Oneshot → Oneshot
send_value w c = if c.heard then record c { sent = Sent.value w } else c

abbrev pub change : ℕ → (Oneshot → Oneshot) → (ℕ → Oneshot) → ℕ → Oneshot
change i f channels = update i (f (channels i)) channels

-- `WebSocketClient::new`.
unfoldable pub new : State
new = record { shared = 0; sender = 0; next = 1; channels = λ i. fresh_channel }

-- What happens to an attempt of the task: it fails to connect, or it connects and the connection ends.
pub data Attempt : Type 0 where
  failed : Attempt
  served : Connection → Attempt

-- The begin of an attempt: the sender of a new channel takes the place of the one that it uses.
unfoldable pub begin : State → State
begin s = record s {
  sender = s.next;
  next = suc s.next;
  channels = update s.next fresh_channel s.channels;
}

-- An attempt, from the state before it, that fails to connect drops the sender that it took and the new
-- receiver.
unfoldable pub fail : State → State
fail s =
    let t = begin s in
    record t { channels = change s.next drop_receiver (change s.sender drop_sender t.channels) }

-- An attempt that connects hands the connection to those who wait for it.
unfoldable pub connected : Connection → State → State
connected w s = let t = begin s in record t { channels = change s.sender (send_value w) t.channels }

-- When its connection has ended, the new receiver takes the place of the old one.
unfoldable pub attempt : Attempt → State → State
unfolding fail connected
attempt Attempt.failed s = fail s
attempt (Attempt.served w) s = record (connected w s) { shared = s.next }

unfoldable pub attempts : List Attempt → State → State
unfolding attempt
attempts [] s = s
attempts (a ∷ as') s = attempts as' (attempt a s)

-- `WebSocketClient::connect`: what waiting on the shared receiver yields, if anything yet.
abbrev pub thread_died : WebSocketError
thread_died = WebSocketError.websocket_client "websocket thread died"

unfoldable pub connect : State → Option (Result WebSocketError Connection)
connect s = elim (s.channels s.shared).sent [
  | Sent.waiting ↦ none
  | Sent.value w ↦ some (ok w)
  | Sent.closed ↦ some (err thread_died)
]
