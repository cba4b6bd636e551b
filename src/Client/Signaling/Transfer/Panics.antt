-- ===== src/Client/Signaling/Transfer/Panics.antt =====
-- Panics in the loop of rust-client/glopfile/src/p2p.rs.
use glopfile.Base.{
  ◌↔◌, false, ◌&&◌, sym, ◌∙◌, ℕ, suc, ◌+◌, ◌^◌, ◌≤◌, ◌<◌, ◌≡◌, ◌≢◌, refl, inl, inr, Bytes, List, [],
  ◌∷◌, length, ControlFlow, proceed, break, Option, some, Result, ok, err, Bool-cases, ◌==◌, arith,
}
use glopfile.Client.Errors.{Error}
use glopfile.Client.Signaling.{SdpType, SignalingMessage}
use glopfile.Client.Signaling.Connecting.{Run, Rtc, Connection, Documented}
use glopfile.Client.Signaling.Transfer.{
  PeerConnectionEvent, Event, Arrival, Timeout, in_time, Handler, End, Client, Turn, take_turn,
  turn_event, handle_event, handle_outgoing, hand_over_description, hand_over, result_end, handled,
  reconnected, continued, reset_some, transfer,
}
use glopfile.Client.Signaling.Transfer.Settled.{IsSettled, IsGood, handle_incoming-IsGood}
use glopfile.Client.Signaling.Transfer.Announcements.{
  IsUsual, is_other, usual_lem, other_turn, AnnouncesOther,
}

abbrev pub IsCalm {ℓ} : {A : Type ℓ} → Run A → Type 0
IsCalm Run.panicked = ⊥
IsCalm (Run.failed e) = Unit
IsCalm (Run.done a) = Unit

module _ (rtc : Rtc) (w : Documented rtc) where
  module _ (unseal : Bytes → Result Error (Option SignalingMessage)) {H O : Type 0}
      (handler : Handler H O) where
    -- The loop has not panicked, and its connection is as it has to be.
    abbrev Safe : ℕ → Turn rtc unseal handler → Type 0
    Safe n t =
        (t.end ≢ End.panicked)
        × IsSettled (rtc.local_type t.client.peer_connection.peer)
        × (t.client.peer_connection.id ≤ n)

    module _ (c : Client rtc unseal) (s : IsSettled (rtc.local_type c.peer_connection.peer)) (h : H)
        (t : Option Timeout) where
      handled-Safe :
          (n : ℕ) (u : Option Timeout) (r : Run (H × ControlFlow O))
          → c.peer_connection.id ≤ n
          → IsCalm r
          → Safe n (handled rtc unseal handler c h u r)
      handled-Safe n u Run.panicked l k = absurd k
      handled-Safe n u (Run.failed e) l k = ((λ q. ground (q, arith)), s, l)
      handled-Safe n u (Run.done (x, proceed)) l k = ((λ q. ground (q, arith)), s, l)
      handled-Safe n u (Run.done (x, break o)) l k = ((λ q. ground (q, arith)), s, l)

      reconnected-Safe :
          (n : ℕ) (r : Run (Connection rtc))
          → c.peer_connection.id ≤ n
          → IsGood rtc w n r
          → Safe n (reconnected rtc unseal handler c h t r)
      reconnected-Safe n Run.panicked l k = absurd k
      reconnected-Safe n (Run.failed e) l k = ((λ q. ground (q, arith)), s, l)
      reconnected-Safe n (Run.done p) l k = ((λ q. ground (q, arith)), k.0, k.1)

      result_end-calm :
          (r : Result Error (Unit {0})) → result_end rtc unseal handler r ≢ End.panicked
      result_end-calm (ok u) = λ q. ground (q, arith)
      result_end-calm (err e) = λ q. ground (q, arith)

      hand_over-Safe :
          (n : ℕ) (x : Arrival)
          → c.peer_connection.id ≤ n
          → Safe n (hand_over rtc unseal handler c h t x)
      unfolding hand_over
      hand_over-Safe n x l = (result_end-calm _, s, l)

      description-Safe :
          (d : SdpType) (n : ℕ) (x : Arrival)
          → IsSettled (some d)
          → c.peer_connection.id ≤ n
          → Safe n (hand_over_description rtc unseal handler d c h t x)
      unfolding hand_over_description
      description-Safe SdpType.offer n x k l = hand_over-Safe n x l
      description-Safe SdpType.answer n x k l = hand_over-Safe n x l
      description-Safe SdpType.pranswer n x k l = absurd k
      description-Safe SdpType.rollback n x k l = absurd k

      outgoing-Safe :
          (m : SignalingMessage) (id n : ℕ) (x : Arrival)
          → IsUsual (Event.connection id (PeerConnectionEvent.outgoing_signaling_message m))
          → c.peer_connection.id ≤ n
          → Safe n (handle_outgoing rtc unseal handler m c h t x)
      unfolding handle_outgoing
      outgoing-Safe (SignalingMessage.ice_candidate []) id n x k l =
          ((λ q. ground (q, arith)), s, l)
      outgoing-Safe (SignalingMessage.ice_candidate (y ∷ text)) id n x k l = hand_over-Safe n x l
      outgoing-Safe (SignalingMessage.session_description d) id n x k l =
          description-Safe d.sdp_type n x k l

      module _ (opened-calm : (k : H) → IsCalm (handler.opened k))
          (message-calm : (b : Bytes) (k : H) → IsCalm (handler.message b k)) where
        event-Safe :
            (e : PeerConnectionEvent) (id n : ℕ) (x : Arrival)
            → IsUsual (Event.connection id e)
            → c.peer_connection.id ≤ n
            → Safe n (handle_event rtc unseal handler e c h t x)
        unfolding handle_event
        event-Safe (PeerConnectionEvent.outgoing_signaling_message m) id n x k l =
            outgoing-Safe m id n x k l
        event-Safe PeerConnectionEvent.data_channel_opened id n x k l =
            handled-Safe n t _ l (opened-calm h)
        event-Safe (PeerConnectionEvent.data_channel_error e) id n x k l =
            ((λ q. ground (q, arith)), s, l)
        event-Safe (PeerConnectionEvent.data_channel_message b) id n x k l =
            handled-Safe n (reset_some x.at t) _ l (message-calm b h)

        turn_event-Safe :
            (e : Event) (x : Arrival)
            → is_other c.peer_connection.id e ≡ false
            → suc c.peer_connection.id < 2 ^ 32
            → Safe (suc c.peer_connection.id) (turn_event rtc unseal handler e c h t x)
        unfolding turn_event
        turn_event-Safe Event.closed x k l = ((λ q. ground (q, arith)), s, omega arith)
        turn_event-Safe (Event.incoming_signaling_message b) x k l =
            reconnected-Safe _ _ (omega arith)
              (handle_incoming-IsGood rtc w (unseal b) c.peer_connection s l)
        turn_event-Safe (Event.connection id e) x k l =
            elim (Bool-cases (id == c.peer_connection.id)) [
              | inl p ↦ rw p (event-Safe e id _ x (usual_lem _ id e p k) (omega arith))
              | inr p ↦ rw p ((λ q. ground (q, arith)), s, omega arith)
            ]

        take_turn-Safe :
            (x : Arrival)
            → in_time t x.from x.at && is_other c.peer_connection.id x.event ≡ false
            → suc c.peer_connection.id < 2 ^ 32
            → Safe (suc c.peer_connection.id) (take_turn rtc unseal handler c h t x)
        unfolding take_turn
        take_turn-Safe x k l = elim (Bool-cases (in_time t x.from x.at)) [
          | inl p ↦ rw p (turn_event-Safe x.event x (rw p at k) l)
          | inr p ↦ rw p ((λ q. ground (q, arith)), s, omega arith)
        ]

    continued-panics :
        (now later : Turn rtc unseal handler) (e : End O)
        → now.end ≡ e
        → e ≢ End.panicked
        → (continued rtc unseal handler e now later).end ≡ End.panicked
        → (e ≡ End.waiting) × (later.end ≡ End.panicked)
    continued-panics now later End.waiting p n q = (refl, q)
    continued-panics now later End.panicked p n q = absurd (n refl)
    continued-panics now later (End.failed e) p n q = absurd (ground (sym p ∙ q, arith))
    continued-panics now later (End.returned o) p n q = absurd (ground (sym p ∙ q, arith))

    -- A transfer panics exactly if at some turn which its loop comes to, and in time, the current
    -- connection sends out a description that is neither an offer nor an answer; whatever else arrives,
    -- with WebRTC as documented, with a handler that does not panic, with a connection that has no local
    -- description or an offer or an answer, and with so few arrivals that the connection's number stays
    -- below 2 ^ 32.
    pub transfer_panics_iff :
        (xs : List Arrival) (c : Client rtc unseal) (h : H) (t : Option Timeout)
        → ((k : H) → IsCalm (handler.opened k))
        → ((b : Bytes) (k : H) → IsCalm (handler.message b k))
        → IsSettled (rtc.local_type c.peer_connection.peer)
        → c.peer_connection.id + length xs < 2 ^ 32
        → ((transfer rtc unseal handler xs c h t).end ≡ End.panicked)
          ↔ AnnouncesOther rtc unseal handler xs c h t
    unfolding transfer
    transfer_panics_iff [] c h t o m s l = ((λ q. ground (q, arith)), λ q. absurd q)
    transfer_panics_iff (x ∷ xs) c h t o m s l =
        let now = take_turn rtc unseal handler c h t x in
        elim (Bool-cases (in_time t x.from x.at && is_other c.peer_connection.id x.event)) [
          | inl f ↦ (
            (λ q. inl f),
            λ q.
                rw (other_turn rtc unseal handler c h t x f)
                  (other_turn rtc unseal handler c h t x f),
          )
          | inr f ↦
              let safe = take_turn-Safe c s h t o m x f (omega arith) in
              let ih =
                transfer_panics_iff xs now.client now.state now.timeout o m safe.1
                  (omega (arith, safe.2)) in
              (
                λ q.
                    let (w, later) = continued-panics now _ now.end refl safe.0 q in
                    inr (w, ih.0 later),
                λ q. elim q [
                  | inl g ↦ absurd (ground (f, g, arith))
                  | inr (e, later) ↦ rw e (ih.1 later)
                ],
              )
        ]
