-- ===== src/Client/Signaling/Transfer/Numbers.antt =====
-- The numbers of the connections of a transfer, in rust-client/glopfile/src/p2p.rs.
use glopfile.Base.{
  ControlFlow, proceed, break, ℕ, suc, ◌≤◌, ◌≡◌, refl, Bytes, [], ◌∷◌, Option, none, some, Result,
  ok, err, Bool-cases, ◌^◌, inl, inr, ◌==◌, arith,
}
use glopfile.Client.Errors.{Error}
use glopfile.Client.Signaling.{SdpType, SessionDescription, SignalingMessage}
use glopfile.Client.Signaling.Connecting.{
  Run, and_then, Rtc, Connection, next_connection, answer_offer, take_description, take_message,
  handle_incoming,
}
use glopfile.Client.Signaling.Transfer.{
  Event, Arrival, PeerConnectionEvent, Handler, Client, Turn, take_turn, turn_event, reconnected,
  handled, handle_event, handle_outgoing, hand_over, hand_over_description,
}

module _ (rtc : Rtc) where
  abbrev pub IsLater : ℕ → Run (Connection rtc) → Type 0
  IsLater n Run.panicked = Unit
  IsLater n (Run.failed e) = Unit
  IsLater n (Run.done c) = n ≤ c.id

  lift-IsLater :
      (id n : ℕ) (r : Run rtc.Peer)
      → n ≤ id
      → IsLater n (and_then r (λ p. Run.done (record { id = id; peer = p })))
  lift-IsLater id n Run.panicked h = tt
  lift-IsLater id n (Run.failed e) h = tt
  lift-IsLater id n (Run.done p) h = h

  answer_offer-IsLater :
      (d : SessionDescription) (c : Connection rtc) (n : ℕ)
      → n ≤ c.id
      → IsLater n (answer_offer rtc d c)
  unfolding answer_offer
  answer_offer-IsLater d c n h = lift-IsLater c.id n _ h

  and_then-IsLater :
      (n : ℕ) (r : Run (Connection rtc)) (d : SessionDescription)
      → IsLater n r
      → IsLater n (and_then r (answer_offer rtc d))
  and_then-IsLater n Run.panicked d h = tt
  and_then-IsLater n (Run.failed e) d h = tt
  and_then-IsLater n (Run.done c) d h = answer_offer-IsLater d c n h

  next_connection-IsLater : (c : Connection rtc) → IsLater (suc c.id) (next_connection rtc c)
  unfolding next_connection
  next_connection-IsLater c = elim (Bool-cases (suc c.id == 2 ^ 32)) [
    | inl e ↦ rw e tt
    | inr e ↦ rw e (lift-IsLater (suc c.id) (suc c.id) _ (omega arith))
  ]

  IsLater-mono : (n m : ℕ) (r : Run (Connection rtc)) → n ≤ m → IsLater m r → IsLater n r
  IsLater-mono n m Run.panicked l h = tt
  IsLater-mono n m (Run.failed e) l h = tt
  IsLater-mono n m (Run.done c) l h = omega arith

  pub replaced-IsLater :
      (d : SessionDescription) (c : Connection rtc)
      → IsLater (suc c.id) (and_then (next_connection rtc c) (answer_offer rtc d))
  replaced-IsLater d c = and_then-IsLater (suc c.id) _ d (next_connection-IsLater c)

  take_description-IsLater :
      (local : Option SdpType) (remote : SdpType) (d : SessionDescription) (c : Connection rtc)
      → IsLater c.id (take_description rtc local remote d c)
  unfolding take_description
  take_description-IsLater none SdpType.offer d c = answer_offer-IsLater d c c.id (omega arith)
  take_description-IsLater (some SdpType.answer) SdpType.offer d c =
      IsLater-mono c.id (suc c.id) _ (omega arith) (replaced-IsLater d c)
  take_description-IsLater (some SdpType.offer) SdpType.answer d c =
      lift-IsLater c.id c.id _ (omega arith)
  take_description-IsLater local remote d c = ground arith

  handle_incoming-IsLater :
      (m : Result Error (Option SignalingMessage)) (c : Connection rtc)
      → IsLater c.id (handle_incoming rtc m c)
  unfolding handle_incoming take_message
  handle_incoming-IsLater (err e) c = tt
  handle_incoming-IsLater (ok none) c = omega arith
  handle_incoming-IsLater (ok (some (SignalingMessage.session_description d))) c =
      take_description-IsLater (rtc.local_type c.peer) d.sdp_type d c
  handle_incoming-IsLater (ok (some (SignalingMessage.ice_candidate []))) c = omega arith
  handle_incoming-IsLater (ok (some (SignalingMessage.ice_candidate (x ∷ t)))) c =
      lift-IsLater c.id c.id _ (omega arith)

  module _ (unseal : Bytes → Result Error (Option SignalingMessage)) {H O : Type 0}
      (handler : Handler H O) where
    -- The number of the connection does not decrease, and there is still no timeout.
    abbrev pub Kept : ℕ → Turn rtc unseal handler → Type 0
    Kept n t = (n ≤ t.client.peer_connection.id) × (t.timeout ≡ none)

    reconnected-Kept :
        (n : ℕ) (c : Client rtc unseal) (h : H) (r : Run (Connection rtc))
        → n ≤ c.peer_connection.id
        → IsLater n r
        → Kept n (reconnected rtc unseal handler c h none r)
    reconnected-Kept n c h Run.panicked k l = (k, refl)
    reconnected-Kept n c h (Run.failed e) k l = (k, refl)
    reconnected-Kept n c h (Run.done p) k l = (l, refl)

    module _ (c : Client rtc unseal) (h : H) where
      handled-Kept :
          (r : Run (H × ControlFlow O))
          → Kept c.peer_connection.id (handled rtc unseal handler c h none r)
      handled-Kept Run.panicked = (omega arith, refl)
      handled-Kept (Run.failed e) = (omega arith, refl)
      handled-Kept (Run.done (k, proceed)) = (omega arith, refl)
      handled-Kept (Run.done (k, break o)) = (omega arith, refl)

      description-Kept :
          (s : SdpType) (x : Arrival)
          → Kept c.peer_connection.id (hand_over_description rtc unseal handler s c h none x)
      unfolding hand_over_description hand_over
      description-Kept SdpType.offer x = (omega arith, refl)
      description-Kept SdpType.answer x = (omega arith, refl)
      description-Kept SdpType.pranswer x = (omega arith, refl)
      description-Kept SdpType.rollback x = (omega arith, refl)

      outgoing-Kept :
          (m : SignalingMessage) (x : Arrival)
          → Kept c.peer_connection.id (handle_outgoing rtc unseal handler m c h none x)
      unfolding handle_outgoing hand_over
      outgoing-Kept (SignalingMessage.ice_candidate []) x = (omega arith, refl)
      outgoing-Kept (SignalingMessage.ice_candidate (y ∷ text)) x = (omega arith, refl)
      outgoing-Kept (SignalingMessage.session_description d) x = description-Kept d.sdp_type x

      event-Kept :
          (e : PeerConnectionEvent) (x : Arrival)
          → Kept c.peer_connection.id (handle_event rtc unseal handler e c h none x)
      unfolding handle_event
      event-Kept (PeerConnectionEvent.outgoing_signaling_message m) x = outgoing-Kept m x
      event-Kept PeerConnectionEvent.data_channel_opened x = handled-Kept (handler.opened h)
      event-Kept (PeerConnectionEvent.data_channel_error e) x = (omega arith, refl)
      event-Kept (PeerConnectionEvent.data_channel_message b) x = handled-Kept (handler.message b h)

      turn_event-Kept :
          (e : Event) (x : Arrival)
          → Kept c.peer_connection.id (turn_event rtc unseal handler e c h none x)
      unfolding turn_event
      turn_event-Kept Event.closed x = (omega arith, refl)
      turn_event-Kept (Event.incoming_signaling_message b) x =
          reconnected-Kept c.peer_connection.id c h _ (omega arith)
            (handle_incoming-IsLater (unseal b) c.peer_connection)
      turn_event-Kept (Event.connection id e) x = elim (Bool-cases (id == c.peer_connection.id)) [
        | inl p ↦ rw p (event-Kept e x)
        | inr p ↦ rw p (omega arith, refl)
      ]

      pub turn-Kept :
          (x : Arrival) → Kept c.peer_connection.id (take_turn rtc unseal handler c h none x)
      unfolding take_turn
      turn-Kept x = turn_event-Kept x.event x
