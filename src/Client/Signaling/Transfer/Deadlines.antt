-- ===== src/Client/Signaling/Transfer/Deadlines.antt =====
-- The timeout of the loop of rust-client/glopfile/src/p2p.rs.
use glopfile.Base.{
  ℕ, ◌≡◌, refl, sym, ap, subst, ◌∙◌, inl, inr, Bytes, List, [], ◌∷◌, ◌++◌, All, ControlFlow,
  proceed, break, Option, some, Result, Bool-cases, false, ◌==◌,
}
use glopfile.Client.Errors.{Error}
use glopfile.Client.Signaling.{SdpType, SignalingMessage}
use glopfile.Client.Signaling.Connecting.{Run, Rtc, Connection}
use glopfile.Client.Signaling.Transfer.{
  PeerConnectionEvent, Event, Arrival, Timeout, in_time, Handler, End, Client, Turn, take_turn,
  turn_event, handle_event, handle_outgoing, hand_over_description, hand_over, handled, reconnected,
  continued, transfer,
}

-- Anything but a message of a data channel.
abbrev pub IsQuietEvent : Event → Type 0
IsQuietEvent (Event.connection id (PeerConnectionEvent.data_channel_message b)) = ⊥
IsQuietEvent _ = Unit

abbrev pub IsQuiet : Arrival → Type 0
IsQuiet x = IsQuietEvent x.event

-- A wait that the deadline ends.
abbrev pub IsLate : Timeout → Arrival → Type 0
IsLate t x = in_time (some t) x.from x.at ≡ false

module _ (rtc : Rtc) (unseal : Bytes → Result Error (Option SignalingMessage)) {H O : Type 0}
    (handler : Handler H O) where
  -- The loop ends with a timeout where it would wait for more.
  abbrev pub expired : End O → Turn rtc unseal handler → Turn rtc unseal handler
  expired End.waiting r = record r { end = End.failed Error.timeout }
  expired End.panicked r = r
  expired (End.failed e) r = r
  expired (End.returned o) r = r

  handled-timeout :
      (c : Client rtc unseal) (h : H) (t : Option Timeout) (r : Run (H × ControlFlow O))
      → (handled rtc unseal handler c h t r).timeout ≡ t
  handled-timeout c h t Run.panicked = refl
  handled-timeout c h t (Run.failed e) = refl
  handled-timeout c h t (Run.done (k, proceed)) = refl
  handled-timeout c h t (Run.done (k, break o)) = refl

  reconnected-timeout :
      (c : Client rtc unseal) (h : H) (t : Option Timeout) (r : Run (Connection rtc))
      → (reconnected rtc unseal handler c h t r).timeout ≡ t
  reconnected-timeout c h t Run.panicked = refl
  reconnected-timeout c h t (Run.failed e) = refl
  reconnected-timeout c h t (Run.done p) = refl

  description-timeout :
      (s : SdpType) (c : Client rtc unseal) (h : H) (t : Option Timeout) (x : Arrival)
      → (hand_over_description rtc unseal handler s c h t x).timeout ≡ t
  unfolding hand_over_description hand_over
  description-timeout SdpType.offer c h t x = refl
  description-timeout SdpType.answer c h t x = refl
  description-timeout SdpType.pranswer c h t x = refl
  description-timeout SdpType.rollback c h t x = refl

  outgoing-timeout :
      (m : SignalingMessage) (c : Client rtc unseal) (h : H) (t : Option Timeout) (x : Arrival)
      → (handle_outgoing rtc unseal handler m c h t x).timeout ≡ t
  unfolding handle_outgoing hand_over
  outgoing-timeout (SignalingMessage.ice_candidate []) c h t x = refl
  outgoing-timeout (SignalingMessage.ice_candidate (y ∷ text)) c h t x = refl
  outgoing-timeout (SignalingMessage.session_description d) c h t x =
      description-timeout d.sdp_type c h t x

  event-timeout :
      (e : PeerConnectionEvent) (id : ℕ) (c : Client rtc unseal) (h : H) (t : Option Timeout)
      (x : Arrival)
      → IsQuietEvent (Event.connection id e)
      → (handle_event rtc unseal handler e c h t x).timeout ≡ t
  unfolding handle_event
  event-timeout (PeerConnectionEvent.outgoing_signaling_message m) id c h t x q =
      outgoing-timeout m c h t x
  event-timeout PeerConnectionEvent.data_channel_opened id c h t x q =
      handled-timeout c h t (handler.opened h)
  event-timeout (PeerConnectionEvent.data_channel_error e) id c h t x q = refl
  event-timeout (PeerConnectionEvent.data_channel_message b) id c h t x q = absurd q

  turn_event-timeout :
      (e : Event) (c : Client rtc unseal) (h : H) (t : Option Timeout) (x : Arrival)
      → IsQuietEvent e
      → (turn_event rtc unseal handler e c h t x).timeout ≡ t
  unfolding turn_event
  turn_event-timeout Event.closed c h t x q = refl
  turn_event-timeout (Event.incoming_signaling_message b) c h t x q = reconnected-timeout c h t _
  turn_event-timeout (Event.connection id e) c h t x q =
      elim (Bool-cases (id == c.peer_connection.id)) [
        | inl p ↦ rw p (event-timeout e id c h t x q)
        | inr p ↦ rw p refl
      ]

  take_turn-timeout :
      (c : Client rtc unseal) (h : H) (t : Option Timeout) (x : Arrival)
      → IsQuiet x
      → (take_turn rtc unseal handler c h t x).timeout ≡ t
  unfolding take_turn
  take_turn-timeout c h t x q = elim (Bool-cases (in_time t x.from x.at)) [
    | inl p ↦ rw p (turn_event-timeout x.event c h t x q)
    | inr p ↦ rw p refl
  ]

  continued-expired :
      (e f : End O) (now later : Turn rtc unseal handler)
      → now.end ≡ e
      → later.end ≡ f
      → continued rtc unseal handler e now (expired f later)
        ≡ expired
            (continued rtc unseal handler e now later).end
            (continued rtc unseal handler e now later)
  continued-expired End.waiting End.waiting now later p q = rw q refl
  continued-expired End.waiting End.panicked now later p q = rw q refl
  continued-expired End.waiting (End.failed e) now later p q = rw q refl
  continued-expired End.waiting (End.returned o) now later p q = rw q refl
  continued-expired End.panicked f now later p q = rw p refl
  continued-expired (End.failed e) f now later p q = rw p refl
  continued-expired (End.returned o) f now later p q = rw p refl

  -- A message of a data channel is the only thing that puts the deadline of a transfer off: when a wait
  -- reaches the deadline that the transfer began with, after arrivals with no such message, the transfer
  -- is what those arrivals made of it, except that it has failed with a timeout if it still went on; what
  -- arrives in that wait and afterwards makes no difference.
  pub idle_transfer_expires :
      (xs : List Arrival) (x : Arrival) (ys : List Arrival) (c : Client rtc unseal) (h : H)
      (t : Timeout)
      → All IsQuiet xs
      → IsLate t x
      → transfer rtc unseal handler (xs ++ x ∷ ys) c h (some t)
        ≡ expired
            (transfer rtc unseal handler xs c h (some t)).end
            (transfer rtc unseal handler xs c h (some t))
  unfolding transfer
  idle_transfer_expires [] x ys c h t q l = unfold take_turn in rw l refl
  idle_transfer_expires (y ∷ xs) x ys c h t (q, qs) l =
      let now = take_turn rtc unseal handler c h (some t) y in
      let later = transfer rtc unseal handler xs now.client now.state now.timeout in
      let e : transfer rtc unseal handler (xs ++ x ∷ ys) now.client now.state now.timeout
          ≡ expired later.end later =
        subst
          (λ (u : Option Timeout).
            transfer rtc unseal handler (xs ++ x ∷ ys) now.client now.state u
            ≡ expired (transfer rtc unseal handler xs now.client now.state u).end
                (transfer rtc unseal handler xs now.client now.state u))
          (sym (take_turn-timeout c h (some t) y q))
          (idle_transfer_expires xs x ys now.client now.state t qs l) in
      ap (continued rtc unseal handler now.end now) e
      ∙ continued-expired now.end later.end now later refl refl
