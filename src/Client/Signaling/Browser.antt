-- ===== src/Client/Signaling/Browser.antt =====
-- The peer connection of browsers, rust-client/glopfile/src/p2p/web.rs, over the WebRTC of the browser,
-- which is a record of operations. Of a candidate only the text matters, as in the messages of
-- Client/Signaling. What the connection hands to its event channel is the list `sent`.
pub mod Descriptions
use Prim.Native.String.{String}
use glopfile.Base.{ℕ, Bytes, List, [], ◌∷◌, ◌++◌, Option, none, some, Result, ok, err, ◌>>=◌}
use glopfile.Text.{Text, codes}
use glopfile.Client.Errors.{Error}
use glopfile.Client.Signaling.{SdpType, SessionDescription, SignalingMessage}
use glopfile.Client.Signaling.Connecting.{Run, lift, and_then}
use glopfile.Client.Signaling.Native.{stun_servers}
use glopfile.Client.Signaling.Transfer.{PeerConnectionEvent}

-- `RtcSdpType`; `invalid` is a string of JavaScript that is none of the others.
pub data RtcSdpType : Type 0 where
  offer pranswer answer rollback invalid : RtcSdpType

-- `From<&websocket::SessionDescriptionType> for RtcSdpType`.
unfoldable pub to_rtc : SdpType → RtcSdpType
to_rtc SdpType.offer = RtcSdpType.offer
to_rtc SdpType.answer = RtcSdpType.answer
to_rtc SdpType.pranswer = RtcSdpType.pranswer
to_rtc SdpType.rollback = RtcSdpType.rollback

-- `From<&RtcSdpType> for websocket::SessionDescriptionType`.
unfoldable pub of_rtc : RtcSdpType → Run SdpType
of_rtc RtcSdpType.offer = Run.done SdpType.offer
of_rtc RtcSdpType.answer = Run.done SdpType.answer
of_rtc RtcSdpType.pranswer = Run.done SdpType.pranswer
of_rtc RtcSdpType.rollback = Run.done SdpType.rollback
of_rtc RtcSdpType.invalid = Run.panicked

-- A description as the browser has it.
abbrev pub RtcDescription : Type 0
RtcDescription = RtcSdpType × Text

-- The WebRTC of a browser. A promise that is rejected is an error; `new_candidate` is `none` where the
-- constructor throws.
pub record BrowserRtc : Type 1 where
  pub Value : Type 0
  pub as_string : Value → Option String
  pub debug : Value → String
  pub Peer : Type 0
  pub Channel : Type 0
  pub Init : Type 0
  pub Candidate : Type 0
  pub new : (ice_servers : List Text) → Result Value Peer
  pub create_data_channel : (label : Text) → (id : ℕ) → Peer → Peer × Channel
  pub create_offer : Peer → Result Value (Peer × Init)
  pub create_answer : Peer → Result Value (Peer × Init)
  pub set_local_description : Init → Peer → Result Value Peer
  pub set_remote_description : RtcDescription → Peer → Result Value Peer
  pub local_description : Peer → Option RtcDescription
  pub new_candidate : Text → Option Candidate
  pub add_ice_candidate : Candidate → Peer → Result Value Peer
  pub send : Bytes → Channel → Result Value Channel

module _ (browser : BrowserRtc) where
  abbrev text_or : Option String → String → String
  text_or none t = t
  text_or (some s) t = s

  -- `From<JsValue> for WebRtcError`.
  unfoldable pub error_text : browser.Value → String
  error_text v = text_or (browser.as_string v) (browser.debug v)

  -- `map_err(WebRtcError::from)?`, with `From<WebRtcError> for Error`.
  unfoldable pub rtc_err : {A : Type 0} → Result browser.Value A → Result Error A
  rtc_err (ok a) = ok a
  rtc_err (err v) = err (Error.rtc_data_channel (error_text v))

  -- `WebRtcPeerConnection`, with what it has handed to its event channel.
  pub record BrowserPeer : Type 0 where
    pub rtc : browser.Peer
    pub sent : List PeerConnectionEvent

  -- `new_peer_connection`.
  unfoldable pub new_peer_connection : Result Error BrowserPeer
  new_peer_connection = do
    peer ← rtc_err (browser.new stun_servers)
    ok (record { rtc = peer; sent = [] })

  -- `new_data_channel`.
  unfoldable pub new_data_channel :
      (id : ℕ) → (label : Text) → BrowserPeer → BrowserPeer × browser.Channel
  new_data_channel id label p =
      let (peer, channel) = browser.create_data_channel label id p.rtc in
      (record p { rtc = peer }, channel)

  -- `From<&RtcSessionDescription> for websocket::SessionDescription`.
  unfoldable pub described : RtcDescription → Run SessionDescription
  described (t, sdp) =
      and_then (of_rtc t) (λ kind. Run.done (record { sdp_type = kind; sdp = sdp }))

  -- The local description, which is sent to the peer.
  unfoldable pub announce : Option RtcDescription → BrowserPeer → Run BrowserPeer
  announce none p = Run.panicked
  announce (some d) p = and_then (described d) (λ message. Run.done (record p {
    sent =
        p.sent
        ++ PeerConnectionEvent.outgoing_signaling_message
            (SignalingMessage.session_description message)
          ∷ [];
  }))

  unfoldable pub send_local_description : browser.Init → BrowserPeer → Run BrowserPeer
  send_local_description init p =
      and_then (lift (rtc_err (browser.set_local_description init p.rtc)))
        (λ rtc. announce (browser.local_description rtc) (record p { rtc = rtc }))

  -- What `create_offer` and `create_answer` share: the description that the browser makes.
  abbrev pub created :
      Result browser.Value (browser.Peer × browser.Init) → BrowserPeer → Run BrowserPeer
  created made p =
      and_then (lift (rtc_err made)) (λ m. send_local_description m.1 (record p { rtc = m.0 }))

  unfoldable pub create_offer : BrowserPeer → Run BrowserPeer
  create_offer p = created (browser.create_offer p.rtc) p

  unfoldable pub create_answer : BrowserPeer → Run BrowserPeer
  create_answer p = created (browser.create_answer p.rtc) p

  -- `From<&websocket::SessionDescription> for RtcSessionDescriptionInit`.
  unfoldable pub description_of : SessionDescription → RtcDescription
  description_of d = (to_rtc d.sdp_type, d.sdp)

  unfoldable pub set_remote_description : SessionDescription → BrowserPeer → Run BrowserPeer
  set_remote_description d p =
      and_then (lift (rtc_err (browser.set_remote_description (description_of d) p.rtc)))
        (λ rtc. Run.done (record p { rtc = rtc }))

  abbrev type_of : Option RtcDescription → Run (Option SdpType)
  type_of none = Run.done none
  type_of (some d) = and_then (of_rtc d.0) (λ kind. Run.done (some kind))

  unfoldable pub local_description_type : BrowserPeer → Run (Option SdpType)
  local_description_type p = type_of (browser.local_description p.rtc)

  abbrev add_made : Option browser.Candidate → BrowserPeer → Run BrowserPeer
  add_made none p = Run.panicked
  add_made (some candidate) p =
      and_then (lift (rtc_err (browser.add_ice_candidate candidate p.rtc)))
        (λ rtc. Run.done (record p { rtc = rtc }))

  unfoldable pub add_remote_candidate : Text → BrowserPeer → Run BrowserPeer
  add_remote_candidate text p = add_made (browser.new_candidate text) p

  -- `WebRtcDataChannel::send`.
  unfoldable pub send : Bytes → browser.Channel → Result Error browser.Channel
  send message channel = rtc_err (browser.send message channel)

  -- What the browser calls of a connection: a candidate, `none` at the end of them, a change of one of
  -- its states, and a data channel of the peer.
  pub data PeerCallback : Type 0 where
    candidate : Option Text → PeerCallback
    ice_state_changed gathering_changed signaling_changed channel_received : PeerCallback

  -- The event that a call leads to, if it leads to one.
  unfoldable pub on_peer : PeerCallback → Run (Option PeerConnectionEvent)
  on_peer (PeerCallback.candidate (some text)) =
      Run.done (
        some (PeerConnectionEvent.outgoing_signaling_message (SignalingMessage.ice_candidate text)))
  on_peer PeerCallback.channel_received = Run.panicked
  on_peer _ = Run.done none

  -- What the browser calls of a data channel. A message that is no `ArrayBuffer` is `none`.
  pub data ChannelCallback : Type 0 where
    opened closed buffer_low : ChannelCallback
    error : browser.Value → ChannelCallback
    message : Option Bytes → ChannelCallback

  unfoldable pub on_channel : ChannelCallback → Run (Option PeerConnectionEvent)
  on_channel ChannelCallback.opened = Run.done (some PeerConnectionEvent.data_channel_opened)
  on_channel (ChannelCallback.error v) =
      Run.done (some (PeerConnectionEvent.data_channel_error (error_text v)))
  on_channel (ChannelCallback.message none) = Run.panicked
  on_channel (ChannelCallback.message (some bytes)) =
      Run.done (some (PeerConnectionEvent.data_channel_message bytes))
  on_channel _ = Run.done none
