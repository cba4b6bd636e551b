-- ===== src/Client/Signaling/Native.antt =====
-- The peer connection of native platforms, rust-client/glopfile/src/p2p/native.rs, over the datachannel
-- library, which is a record of operations. A description has a known type, and of a candidate only the
-- text matters, as in the messages of Client/Signaling.
pub mod Calls
use Prim.Native.String.{String}
use glopfile.Base.{
  ℕ, ◌≡◌, refl, Bytes, List, [], ◌∷◌, Option, none, some, Result, ok, err, ◌>>=◌, arith,
}
use glopfile.Text.{Text, codes}
use glopfile.Client.Errors.{Error}
use glopfile.Client.Signaling.{SdpType, SessionDescription, SignalingMessage}
use glopfile.Client.Signaling.Connecting.{Run, Rtc, Documented}
use glopfile.Client.Signaling.Transfer.{PeerConnectionEvent, Event}

-- `SdpType` of the library.
pub data LibrarySdpType : Type 0 where
  answer offer pranswer rollback : LibrarySdpType

-- The conversions of types of descriptions.
abbrev pub to_library : SdpType → LibrarySdpType
to_library SdpType.answer = LibrarySdpType.answer
to_library SdpType.offer = LibrarySdpType.offer
to_library SdpType.pranswer = LibrarySdpType.pranswer
to_library SdpType.rollback = LibrarySdpType.rollback

abbrev pub of_library : LibrarySdpType → SdpType
of_library LibrarySdpType.answer = SdpType.answer
of_library LibrarySdpType.offer = SdpType.offer
of_library LibrarySdpType.pranswer = SdpType.pranswer
of_library LibrarySdpType.rollback = SdpType.rollback

-- The operations of the library, which report an error by its message. Printing a description and
-- parsing it are those of its SDP library.
pub record Library : Type 1 where
  pub Peer : Type 0
  pub Sdp : Type 0
  pub new : (stun_servers : List Text) → (handler : ℕ) → Result String Peer
  pub create_data_channel :
      (stream : ℕ) → (label : Text) → (handler : ℕ) → Peer → Result String Peer
  pub set_local_description : LibrarySdpType → Peer → Result String Peer
  pub set_remote_description : Sdp × LibrarySdpType → Peer → Result String Peer
  pub add_remote_candidate : Text → Peer → Result String Peer
  pub parse_sdp : Text → Result String Sdp
  pub show_sdp : Sdp → Text

-- `Error::rtc_err`.
abbrev pub rtc_err : {A : Type 0} → Result String A → Result Error A
rtc_err (ok a) = ok a
rtc_err (err e) = err (Error.rtc_data_channel e)

abbrev pub stun_servers : List Text
stun_servers = codes "stun:stun.l.google.com:19302" ∷ []

module _ (library : Library) where
  -- `NativePeerConnection`.
  pub record NativePeerConnection : Type 0 where
    pub rtc : library.Peer
    pub local_description_type : Option SdpType

  -- `new_peer_connection` and then `new_data_channel`, as `Connection::new` calls them.
  unfoldable pub new_peer : ℕ → Result Error NativePeerConnection
  new_peer handler = do
    peer ← rtc_err (library.new stun_servers handler)
    rtc ← rtc_err (library.create_data_channel 0 (codes "glopfile") handler peer)
    ok (record { rtc = rtc; local_description_type = none })

  abbrev describe : SdpType → NativePeerConnection → Result Error NativePeerConnection
  describe sdp_type p = do
    rtc ← rtc_err (library.set_local_description (to_library sdp_type) p.rtc)
    ok (record { rtc = rtc; local_description_type = some sdp_type })

  unfoldable pub create_offer : NativePeerConnection → Result Error NativePeerConnection
  create_offer = describe SdpType.offer

  unfoldable pub create_answer : NativePeerConnection → Result Error NativePeerConnection
  create_answer = describe SdpType.answer

  -- `TryFrom<&websocket::SessionDescription> for SessionDescription`.
  unfoldable pub description_of : SessionDescription → Result String (library.Sdp × LibrarySdpType)
  description_of d = do sdp ← library.parse_sdp d.sdp; ok (sdp, to_library d.sdp_type)

  unfoldable pub set_remote :
      SessionDescription → NativePeerConnection → Result Error NativePeerConnection
  unfolding description_of
  set_remote d p = do
    description ← rtc_err (description_of d)
    rtc ← rtc_err (library.set_remote_description description p.rtc)
    ok (record p { rtc = rtc })

  unfoldable pub add_candidate : Text → NativePeerConnection → Result Error NativePeerConnection
  add_candidate text p = do
    rtc ← rtc_err (library.add_remote_candidate text p.rtc)
    ok (record p { rtc = rtc })

  -- The native implementation of the traits `Rtc` and `RtcPeerConnection`.
  abbrev pub native_rtc : Rtc
  native_rtc = record {
    Peer = NativePeerConnection;
    new_peer = new_peer;
    local_type = λ p. p.local_description_type;
    create_offer = create_offer;
    create_answer = create_answer;
    set_remote = set_remote;
    add_candidate = add_candidate;
  }

  -- What the library calls: the handlers of a connection, also when the peer opens a data channel, and of
  -- the data channel.
  pub data Callback : Type 0 where
    description : library.Sdp × LibrarySdpType → Callback
    candidate : Text → Callback
    channel_received opened state_changed channel_closed buffer_low available : Callback
    error : String → Callback
    message : Bytes → Callback

  -- `From<&SessionDescription> for websocket::SessionDescription`.
  unfoldable pub described : library.Sdp × LibrarySdpType → SessionDescription
  described (sdp, sdp_type) = record { sdp = library.show_sdp sdp; sdp_type = of_library sdp_type }

  -- The event of a connection that a call leads to. A panic is one of the library's thread.
  unfoldable pub on_callback : Callback → Run (Option PeerConnectionEvent)
  unfolding described
  on_callback (Callback.description d) = Run.done (
      some (
        PeerConnectionEvent.outgoing_signaling_message
          (SignalingMessage.session_description (described d))))
  on_callback (Callback.candidate text) =
      Run.done (
        some (PeerConnectionEvent.outgoing_signaling_message (SignalingMessage.ice_candidate text)))
  on_callback Callback.channel_received = Run.panicked
  on_callback Callback.opened = Run.done (some PeerConnectionEvent.data_channel_opened)
  on_callback (Callback.error e) = Run.done (some (PeerConnectionEvent.data_channel_error e))
  on_callback (Callback.message bytes) =
      Run.done (some (PeerConnectionEvent.data_channel_message bytes))
  on_callback _ = Run.done none
