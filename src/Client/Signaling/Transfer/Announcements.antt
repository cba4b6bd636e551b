-- ===== src/Client/Signaling/Transfer/Announcements.antt =====
-- Descriptions that are neither offers nor answers, in the loop of rust-client/glopfile/src/p2p.rs.
use glopfile.Base.{
  subst, ==_iff, ◌⊎◌, Bool, true, false, ◌&&◌, ℕ, ◌≡◌, refl, inl, inr, Bytes, List, [], ◌∷◌, Option,
  some, Result, Bool-cases, ◌==◌, arith,
}
use glopfile.Client.Errors.{Error}
use glopfile.Client.Signaling.{SdpType, SignalingMessage}
use glopfile.Client.Signaling.Connecting.{Rtc}
use glopfile.Client.Signaling.Transfer.{
  PeerConnectionEvent, Event, Arrival, Timeout, in_time, Handler, End, Client, take_turn,
  turn_event, handle_event, handle_outgoing, hand_over_description,
}
use glopfile.Client.Signaling.Transfer.Settled.{IsSettled}

-- The descriptions that a peer connection sends out are offers and answers.
abbrev pub IsUsual : Event → Type 0
IsUsual
      (Event.connection id
        (PeerConnectionEvent.outgoing_signaling_message (SignalingMessage.session_description d))) =
    IsSettled (some d.sdp_type)
IsUsual _ = Unit

-- A description that is neither an offer nor an answer, sent out by the connection with the number.
abbrev pub is_other_type : SdpType → Bool
is_other_type SdpType.offer = false
is_other_type SdpType.answer = false
is_other_type SdpType.pranswer = true
is_other_type SdpType.rollback = true

abbrev pub is_other : ℕ → Event → Bool
is_other n
      (Event.connection id
        (PeerConnectionEvent.outgoing_signaling_message (SignalingMessage.session_description d))) =
    (id == n) && is_other_type d.sdp_type
is_other n _ = false

same_id : (n : ℕ) → (n == n) ≡ true
same_id n = (==_iff n n).1 refl

usual_type : (d : SdpType) → is_other_type d ≡ false → IsSettled (some d)
usual_type SdpType.offer e = tt
usual_type SdpType.answer e = tt
usual_type SdpType.pranswer e = absurd (ground (e, arith))
usual_type SdpType.rollback e = absurd (ground (e, arith))

pub usual_lem :
    (n id : ℕ) (e : PeerConnectionEvent)
    → (id == n) ≡ true
    → is_other n (Event.connection id e) ≡ false
    → IsUsual (Event.connection id e)
usual_lem n id
      (PeerConnectionEvent.outgoing_signaling_message (SignalingMessage.session_description d)) p
      o =
    usual_type d.sdp_type (rw p at o)
usual_lem n id (PeerConnectionEvent.outgoing_signaling_message (SignalingMessage.ice_candidate t)) p
      o =
    tt
usual_lem n id PeerConnectionEvent.data_channel_opened p o = tt
usual_lem n id (PeerConnectionEvent.data_channel_error e) p o = tt
usual_lem n id (PeerConnectionEvent.data_channel_message b) p o = tt

module _ (rtc : Rtc) where
  module _ (unseal : Bytes → Result Error (Option SignalingMessage)) {H O : Type 0}
      (handler : Handler H O) where
    module _ (c : Client rtc unseal) (h : H) (t : Option Timeout) (x : Arrival) where
      other_description :
          (d : SdpType)
          → is_other_type d ≡ true
          → (hand_over_description rtc unseal handler d c h t x).end ≡ End.panicked
      unfolding hand_over_description
      other_description SdpType.offer o = absurd (ground (o, arith))
      other_description SdpType.answer o = absurd (ground (o, arith))
      other_description SdpType.pranswer o = refl
      other_description SdpType.rollback o = refl

      other_event :
          (e : PeerConnectionEvent)
          → is_other c.peer_connection.id (Event.connection c.peer_connection.id e) ≡ true
          → (handle_event rtc unseal handler e c h t x).end ≡ End.panicked
      unfolding handle_event handle_outgoing
      other_event
            (PeerConnectionEvent.outgoing_signaling_message
              (SignalingMessage.session_description d))
            o =
          other_description d.sdp_type (rw (same_id c.peer_connection.id) at o)
      other_event
            (PeerConnectionEvent.outgoing_signaling_message (SignalingMessage.ice_candidate u)) o =
          absurd (ground (o, arith))
      other_event PeerConnectionEvent.data_channel_opened o = absurd (ground (o, arith))
      other_event (PeerConnectionEvent.data_channel_error e) o = absurd (ground (o, arith))
      other_event (PeerConnectionEvent.data_channel_message b) o = absurd (ground (o, arith))

      other_id :
          (n id : ℕ) (e : PeerConnectionEvent) → is_other n (Event.connection id e) ≡ true → id ≡ n
      other_id n id
            (PeerConnectionEvent.outgoing_signaling_message
              (SignalingMessage.session_description d))
            o =
          ground arith
      other_id n id
            (PeerConnectionEvent.outgoing_signaling_message (SignalingMessage.ice_candidate u)) o =
          absurd (ground (o, arith))
      other_id n id PeerConnectionEvent.data_channel_opened o = absurd (ground (o, arith))
      other_id n id (PeerConnectionEvent.data_channel_error e) o = absurd (ground (o, arith))
      other_id n id (PeerConnectionEvent.data_channel_message b) o = absurd (ground (o, arith))

      other_turn_event :
          (e : Event)
          → is_other c.peer_connection.id e ≡ true
          → (turn_event rtc unseal handler e c h t x).end ≡ End.panicked
      unfolding turn_event
      other_turn_event Event.closed o = absurd (ground (o, arith))
      other_turn_event (Event.incoming_signaling_message b) o = absurd (ground (o, arith))
      other_turn_event (Event.connection id e) o =
          let same = other_id c.peer_connection.id id e o in
          rw (same, same_id c.peer_connection.id)
            (other_event e
              (subst (λ i. is_other c.peer_connection.id (Event.connection i e) ≡ true) same o))

      -- A turn that such a description comes in.
      pub other_turn :
          in_time t x.from x.at && is_other c.peer_connection.id x.event ≡ true
          → (take_turn rtc unseal handler c h t x).end ≡ End.panicked
      unfolding take_turn
      other_turn o = elim (Bool-cases (in_time t x.from x.at)) [
        | inl p ↦ rw p (other_turn_event x.event (rw p at o))
        | inr p ↦ absurd (let wrong = rw p at o in ground (wrong, arith))
      ]

    -- At some turn which the loop comes to, and in time, the current connection sends out a description that
    -- is neither an offer nor an answer.
    abbrev pub AnnouncesOther : List Arrival → Client rtc unseal → H → Option Timeout → Type 0
    AnnouncesOther [] c h t = ⊥
    AnnouncesOther (x ∷ xs) c h t =
        let now = take_turn rtc unseal handler c h t x in
        (in_time t x.from x.at && is_other c.peer_connection.id x.event ≡ true)
        ⊎ ((now.end ≡ End.waiting) × AnnouncesOther xs now.client now.state now.timeout)
