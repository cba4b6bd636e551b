-- ===== src/Client/Signaling/Connecting.antt =====
-- The peer connection of rust-client/glopfile/src/p2p.rs and what the signaling messages do to it.
-- WebRTC is an argument, by the operations of the traits `Rtc` and `RtcPeerConnection`. What an operation
-- that fails leaves of the connection is left open, as is that the event channel of a connection can be
-- gone before the connection is replaced.
use glopfile.Base.{
  ℕ, suc, ◌^◌, ◌≡◌, [], ◌∷◌, Option, none, some, Result, ok, err, ◌==◌, if◌then◌else◌,
}
use glopfile.Text.{Text}
use glopfile.Client.Errors.{Error}
use glopfile.Client.Signaling.{SdpType, SessionDescription, SignalingMessage}

-- How a handler ends: with a panic, with an error, or with a result.
pub data Run {ℓ} (A : Type ℓ) : Type ℓ where
  panicked : Run A
  failed : Error → Run A
  done : A → Run A

abbrev pub lift {ℓ} : {A : Type ℓ} → Result Error A → Run A
lift (err e) = Run.failed e
lift (ok a) = Run.done a

abbrev pub and_then {ℓ κ} : {A : Type ℓ} {B : Type κ} → Run A → (A → Run B) → Run B
and_then Run.panicked f = Run.panicked
and_then (Run.failed e) f = Run.failed e
and_then (Run.done a) f = f a

-- A peer connection that was made with its data channel for a connection id, and its operations.
pub record Rtc : Type 1 where
  pub Peer : Type 0
  pub new_peer : ℕ → Result Error Peer
  pub local_type : Peer → Option SdpType
  pub create_offer : Peer → Result Error Peer
  pub create_answer : Peer → Result Error Peer
  pub set_remote : SessionDescription → Peer → Result Error Peer
  pub add_candidate : Text → Peer → Result Error Peer

module _ (rtc : Rtc) where
  pub record Connection : Type 0 where
    pub id : ℕ
    pub peer : rtc.Peer

  abbrev with_peer : ℕ → Run rtc.Peer → Run Connection
  with_peer id r = and_then r (λ p. Run.done (record { id = id; peer = p }))

  -- `Connection::new` at `PeerConnectionId::next`.
  unfoldable pub next_connection : Connection → Run Connection
  next_connection c =
      if suc c.id == 2 ^ 32
      then Run.panicked
      else with_peer (suc c.id) (lift (rtc.new_peer (suc c.id)))

  -- `PeerToPeerClient::create_offer`.
  unfoldable pub create_offer : Connection → Run Connection
  create_offer c = with_peer c.id (lift (rtc.create_offer c.peer))

  -- An offer is taken and answered.
  unfoldable pub answer_offer : SessionDescription → Connection → Run Connection
  answer_offer d c =
      with_peer c.id (and_then (lift (rtc.set_remote d c.peer)) (λ p. lift (rtc.create_answer p)))

  -- The `match` on the local and the remote type of a description.
  unfoldable pub take_description :
      Option SdpType → SdpType → SessionDescription → Connection → Run Connection
  take_description none SdpType.offer d c = answer_offer d c
  take_description (some SdpType.answer) SdpType.offer d c =
      and_then (next_connection c) (answer_offer d)
  take_description (some SdpType.offer) SdpType.answer d c =
      with_peer c.id (lift (rtc.set_remote d c.peer))
  take_description (some SdpType.pranswer) remote d c = Run.panicked
  take_description (some SdpType.rollback) remote d c = Run.panicked
  take_description _ remote d c = Run.done c

  -- What a message that was decrypted does; an empty candidate is dropped.
  unfoldable pub take_message : Option SignalingMessage → Connection → Run Connection
  take_message none c = Run.done c
  take_message (some (SignalingMessage.session_description d)) c =
      take_description (rtc.local_type c.peer) d.sdp_type d c
  take_message (some (SignalingMessage.ice_candidate [])) c = Run.done c
  take_message (some (SignalingMessage.ice_candidate (x ∷ text))) c =
      with_peer c.id (lift (rtc.add_candidate (x ∷ text) c.peer))

  -- `handle_incoming_signaling_message`, from what the message decrypts to.
  unfoldable pub handle_incoming :
      Result Error (Option SignalingMessage) → Connection → Run Connection
  handle_incoming (err e) c = Run.failed e
  handle_incoming (ok m) c = take_message m c

  -- What WebRTC documents of the local description: a new connection has none, an offer or an answer
  -- that was created is the local description from then on, and nothing else changes it.
  pub record Documented : Type 0 where
    pub new_local : (i : ℕ) (p : rtc.Peer) → rtc.new_peer i ≡ ok p → rtc.local_type p ≡ none
    pub offer_local :
        (p q : rtc.Peer) → rtc.create_offer p ≡ ok q → rtc.local_type q ≡ some SdpType.offer
    pub answer_local :
        (p q : rtc.Peer) → rtc.create_answer p ≡ ok q → rtc.local_type q ≡ some SdpType.answer
    pub remote_local :
        (d : SessionDescription) (p q : rtc.Peer)
        → rtc.set_remote d p ≡ ok q
        → rtc.local_type q ≡ rtc.local_type p
    pub candidate_local :
        (t : Text) (p q : rtc.Peer)
        → rtc.add_candidate t p ≡ ok q
        → rtc.local_type q ≡ rtc.local_type p
