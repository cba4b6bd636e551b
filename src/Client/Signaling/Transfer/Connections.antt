-- ===== src/Client/Signaling/Transfer/Connections.antt =====
-- Connections that were replaced, in rust-client/glopfile/src/p2p.rs.
use glopfile.Base.{
  leb, if◌then◌else◌, ap, Bool, true, false, ℕ, suc, ◌++◌, ◌<◌, ◌≡◌, refl, Bytes, List, [], ◌∷◌,
  Option, none, some, Result, ok, Bool-cases, inl, inr, ◌==◌, arith,
}
use glopfile.Client.Errors.{Error}
use glopfile.Client.Signaling.{SdpType, SessionDescription, SignalingMessage}
use glopfile.Client.Signaling.Connecting.{
  Run, and_then, Rtc, Connection, next_connection, answer_offer, take_description, take_message,
  handle_incoming,
}
use glopfile.Client.Signaling.Transfer.{
  Event, Arrival, Handler, End, Client, Turn, take_turn, turn, turn_event, reconnected, continued,
  transfer,
}
use glopfile.Client.Signaling.Transfer.Numbers.{IsLater, replaced-IsLater, turn-Kept}

-- An event of a connection with a number up to the given one.
abbrev pub is_old : ℕ → Event → Bool
is_old n (Event.connection id e) = leb id n
is_old n (Event.incoming_signaling_message b) = false
is_old n Event.closed = false

-- What arrives, without the events of connections with a number up to the given one.
abbrev pub without_old : ℕ → List Arrival → List Arrival
without_old n [] = []
without_old n (x ∷ xs) = let rest = without_old n xs in if is_old n x.event then rest else x ∷ rest

module _ (rtc : Rtc) where
  module _ (unseal : Bytes → Result Error (Option SignalingMessage)) {H O : Type 0}
      (handler : Handler H O) where
    module _ (c : Client rtc unseal) (h : H) where
      old_turn :
          (n : ℕ) (x : Arrival)
          → n < c.peer_connection.id
          → is_old n x.event ≡ true
          → take_turn rtc unseal handler c h none x ≡ turn rtc unseal handler c h none End.waiting
      unfolding take_turn turn_event
      old_turn n x l o = old_event x.event o
        where
          old_event :
              (e : Event)
              → is_old n e ≡ true
              → turn_event rtc unseal handler e c h none x
                ≡ turn rtc unseal handler c h none End.waiting
          old_event (Event.connection id e) o =
              let other : (id == c.peer_connection.id) ≡ false = ground arith in rw other refl
          old_event (Event.incoming_signaling_message b) o = absurd (ground (o, arith))
          old_event Event.closed o = absurd (ground (o, arith))

    continued-cong :
        (e : End O) (now : Turn rtc unseal handler) {a b : Turn rtc unseal handler}
        → a ≡ b
        → continued rtc unseal handler e now a ≡ continued rtc unseal handler e now b
    continued-cong e now p = ap (continued rtc unseal handler e now) p

    -- Events of connections that the current one comes after make no difference.
    without_old_lem :
        (n : ℕ) (xs : List Arrival) (c : Client rtc unseal) (h : H)
        → n < c.peer_connection.id
        → transfer rtc unseal handler xs c h none
          ≡ transfer rtc unseal handler (without_old n xs) c h none
    unfolding transfer
    without_old_lem n [] c h l = refl
    without_old_lem n (x ∷ xs) c h l = elim (Bool-cases (is_old n x.event)) [
      | inl o ↦ rw (o, old_turn c h n x l o) (without_old_lem n xs c h l)
      | inr o ↦
          let now = take_turn rtc unseal handler c h none x in
          let k = turn-Kept rtc unseal handler c h x in
          rw o (
            rw k.1 (
              continued-cong now.end now
                (without_old_lem n xs now.client now.state (omega (arith, k.0)))))
    ]

    -- The turn that an offer replaces the connection in.
    offered_turn :
        (c : Client rtc unseal) (h : H) (x : Arrival) (b : Bytes) (d : SessionDescription)
        → x.event ≡ Event.incoming_signaling_message b
        → unseal b ≡ ok (some (SignalingMessage.session_description d))
        → d.sdp_type ≡ SdpType.offer
        → rtc.local_type c.peer_connection.peer ≡ some SdpType.answer
        → take_turn rtc unseal handler c h none x
          ≡ reconnected rtc unseal handler c h none
              (and_then (next_connection rtc c.peer_connection) (answer_offer rtc d))
    unfolding take_turn turn_event handle_incoming take_message take_description
    offered_turn c h x b d e u o l = rw (e, u, l, o) refl

    replaced_lem :
        (ys : List Arrival) (n : ℕ) (c : Client rtc unseal) (h : H) (r : Run (Connection rtc))
        → IsLater rtc (suc n) r
        → let now = reconnected rtc unseal handler c h none r in
          continued rtc unseal handler now.end now
            (transfer rtc unseal handler ys now.client now.state now.timeout)
          ≡ continued rtc unseal handler now.end now
              (transfer rtc unseal handler (without_old n ys) now.client now.state now.timeout)
    replaced_lem ys n c h Run.panicked l = refl
    replaced_lem ys n c h (Run.failed e) l = refl
    replaced_lem ys n c h (Run.done p) l =
        let now = reconnected rtc unseal handler c h none (Run.done p) in
        continued-cong End.waiting now (without_old_lem n ys now.client h (omega (arith, l)))

    -- What the theorem states of the arrivals after a turn.
    abbrev AreSilent : List Arrival → List Arrival → Arrival → (c : Client rtc unseal) → H → Type 0
    AreSilent xs ys x c h =
        transfer rtc unseal handler (xs ++ x ∷ ys) c h none
        ≡ transfer rtc unseal handler
            (xs
              ++ x
                ∷ without_old (transfer rtc unseal handler xs c h none).client.peer_connection.id
                    ys)
            c h none

    later_turns :
        (e : End O) (now : Turn rtc unseal handler) (xs ys : List Arrival) (x : Arrival)
        → now.timeout ≡ none
        → rtc.local_type
            (continued rtc unseal handler e now (
              transfer rtc unseal handler xs now.client now.state none)).client.peer_connection.peer
          ≡ some SdpType.answer
        → (rtc.local_type
                (transfer rtc unseal handler xs now.client now.state
                  none).client.peer_connection.peer
              ≡ some SdpType.answer
            → AreSilent xs ys x now.client now.state)
        → continued rtc unseal handler e now
            (transfer rtc unseal handler (xs ++ x ∷ ys) now.client now.state none)
          ≡ continued rtc unseal handler e now (
              transfer rtc unseal handler
                (xs
                  ++ x
                    ∷ without_old
                        (continued rtc unseal handler e now (
                          transfer rtc unseal handler xs now.client now.state
                            none)).client.peer_connection.id
                        ys)
                now.client
                now.state
                none)
    later_turns End.waiting now xs ys x k l ih = continued-cong End.waiting now (ih l)
    later_turns End.panicked now xs ys x k l ih = refl
    later_turns (End.failed e) now xs ys x k l ih = refl
    later_turns (End.returned o) now xs ys x k l ih = refl

    -- A transfer without a timeout, in which an offer replaces the connection after whatever else arrived:
    -- events of the connection that was replaced, and of all before it, make no difference any more. The
    -- transfer goes on and ends as if those that come after the offer had not come, with the same state of
    -- the handler and the same messages sent, whatever else arrives among them, be it events of the new
    -- connection or offers that replace that too.
    pub old_connections_silent :
        (xs ys : List Arrival) (x : Arrival) (b : Bytes) (d : SessionDescription)
        (c : Client rtc unseal) (h : H)
        → x.event ≡ Event.incoming_signaling_message b
        → unseal b ≡ ok (some (SignalingMessage.session_description d))
        → d.sdp_type ≡ SdpType.offer
        → rtc.local_type (transfer rtc unseal handler xs c h none).client.peer_connection.peer
          ≡ some SdpType.answer
        → transfer rtc unseal handler (xs ++ x ∷ ys) c h none
          ≡ transfer rtc unseal handler
              (xs
                ++ x
                  ∷ without_old
                      (transfer rtc unseal handler xs c h none).client.peer_connection.id
                      ys)
              c
              h
              none
    unfolding transfer
    old_connections_silent [] ys x b d c h e u o l =
        rw (offered_turn c h x b d e u o l)
          (replaced_lem ys c.peer_connection.id c h _ (replaced-IsLater rtc d c.peer_connection))
    old_connections_silent (y ∷ xs) ys x b d c h e u o l =
        let now = take_turn rtc unseal handler c h none y in
        let k = (turn-Kept rtc unseal handler c h y).1 in
        rw k (
          later_turns now.end now xs ys x k (rw k at l)
            (old_connections_silent xs ys x b d now.client now.state e u o))
