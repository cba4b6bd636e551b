-- ===== src/Client/WebSocketClient/Reconnects.antt =====
-- Who gets the connections of a `WebSocketClient` of rust-client/glopfile/src/websocket.rs.
use glopfile.Base.{
  ◌<◌, ◌≡◌, ◌≢◌, none, some, Bool, true, false, Result, ok, err, List, [], ◌∷◌, if◌then◌else◌,
  arith,
}
use glopfile.Client.Errors.{WebSocketError}
use glopfile.Client.WebSocketClient.{
  Connection, Sent, State, new, Attempt, begin, fail, connected, attempt, attempts, thread_died,
  connect,
}

-- Whether the last attempt failed to connect.
abbrev pub last_failed : Bool → List Attempt → Bool
last_failed b [] = b
last_failed b (Attempt.failed ∷ as') = last_failed true as'
last_failed b (Attempt.served w ∷ as') = last_failed false as'

-- Between two attempts: the sender of the next attempt reaches the shared receiver, or, after a failed
-- attempt, it reaches nobody and the shared receiver is closed.
abbrev pub Between : Bool → State → Type 0
Between false s =
    (s.sender < s.next)
    × (s.shared ≡ s.sender)
    × ((s.channels s.sender).sent ≡ Sent.waiting)
    × ((s.channels s.sender).heard ≡ true)
Between true s =
    (s.sender < s.next)
    × (s.shared < s.next)
    × (s.shared ≢ s.sender)
    × ((s.channels s.shared).sent ≡ Sent.closed)
    × ((s.channels s.sender).heard ≡ false)

new-Between : Between false new
unfolding new
new-Between = ground arith

attempt-Between :
    (b : Bool) (a : Attempt) (s : State)
    → Between b s
    → Between (last_failed b (a ∷ [])) (attempt a s)
unfolding attempt fail connected begin
attempt-Between false Attempt.failed s h = ground arith
attempt-Between true Attempt.failed s h = ground arith
attempt-Between false (Attempt.served w) s h = ground arith
attempt-Between true (Attempt.served w) s h = ground arith

attempts-Between :
    (b : Bool) (as' : List Attempt) (s : State)
    → Between b s
    → Between (last_failed b as') (attempts as' s)
unfolding attempts
attempts-Between b [] s h = h
attempts-Between b (Attempt.failed ∷ as') s h =
    attempts-Between true as' (attempt Attempt.failed s) (attempt-Between b Attempt.failed s h)
attempts-Between b (Attempt.served w ∷ as') s h =
    attempts-Between false as' (attempt (Attempt.served w) s)
      (attempt-Between b (Attempt.served w) s h)

-- What a user gets who waits for a connection, once an attempt that follows others has connected.
abbrev pub expected : Bool → Connection → Result WebSocketError Connection
expected false w = ok w
expected true w = err thread_died

connected_lem :
    (b : Bool) (w : Connection) (s : State)
    → Between b s
    → (connect (connected w s) ≡ some (expected b w))
      × (connect s ≡ (if b then some (err thread_died) else none))
unfolding connect connected begin
connected_lem false w s h = ground arith
connected_lem true w s h = ground arith

-- While a connection stands that followed any attempts, a user gets it exactly if the attempt just
-- before it did not fail to connect, and the error of a dead thread otherwise, although the
-- connection stands. Before it, a user waits, or gets that error at once after a failed attempt.
pub connect_after_attempts :
    (as' : List Attempt) (w : Connection)
    → (connect (connected w (attempts as' new)) ≡ some (expected (last_failed false as') w))
      × (connect (attempts as' new)
          ≡ (if last_failed false as' then some (err thread_died) else none))
connect_after_attempts as' w =
    connected_lem (last_failed false as') w (attempts as' new)
      (attempts-Between false as' new new-Between)
