-- ===== src/Client/Signaling/Browser/Descriptions.antt =====
-- The descriptions that peer connections of browsers exchange, of
-- rust-client/glopfile/src/p2p/web.rs.
use glopfile.Base.{◌≡◌, refl, [], ◌∷◌, ◌++◌, some, Result, ok, err}
use glopfile.Text.{Text}
use glopfile.Client.Signaling.{SdpType, SessionDescription, SignalingMessage}
use glopfile.Client.Signaling.Connecting.{Run, lift, and_then}
use glopfile.Client.Signaling.Transfer.{PeerConnectionEvent}
use glopfile.Client.Signaling.Browser
use glopfile.Client.Signaling.Browser.{
  RtcSdpType, RtcDescription, BrowserRtc, BrowserPeer, to_rtc, of_rtc, described, announce, created,
  send_local_description, description_of, set_remote_description, local_description_type, rtc_err,
}

-- The type of a description survives the way to the browser of the peer and back.
of_rtc-to_rtc : (t : SdpType) → of_rtc (to_rtc t) ≡ Run.done t
unfolding of_rtc to_rtc
of_rtc-to_rtc SdpType.offer = refl
of_rtc-to_rtc SdpType.answer = refl
of_rtc-to_rtc SdpType.pranswer = refl
of_rtc-to_rtc SdpType.rollback = refl

module _ (browser : BrowserRtc) where
  -- What WebRTC documents of descriptions: one that was made by `createOffer` or `createAnswer` and is
  -- set is the local description, with the type that it was made for.
  pub record Documented : Type 0 where
    pub offered :
        (p q r : browser.Peer) (init : browser.Init)
        → browser.create_offer p ≡ ok (q, init)
        → browser.set_local_description init q ≡ ok r
        → (sdp : Text) × (browser.local_description r ≡ some (RtcSdpType.offer, sdp))
    pub answered :
        (p q r : browser.Peer) (init : browser.Init)
        → browser.create_answer p ≡ ok (q, init)
        → browser.set_local_description init q ≡ ok r
        → (sdp : Text) × (browser.local_description r ≡ some (RtcSdpType.answer, sdp))

  -- The message of a description.
  abbrev pub message_of : SdpType → Text → SessionDescription
  message_of kind sdp = record { sdp_type = kind; sdp = sdp }

  -- A connection has sent its local description, which has the type, and the connection of a peer that
  -- takes the message sets just that description.
  abbrev pub IsAnnounced : SdpType → BrowserPeer browser → BrowserPeer browser → Type 0
  IsAnnounced kind p q =
      (sdp : Text) × (q.sent
        ≡ p.sent
          ++ PeerConnectionEvent.outgoing_signaling_message
              (SignalingMessage.session_description (message_of kind sdp))
            ∷ [])
      × (local_description_type browser q ≡ Run.done (some kind))
      × (browser.local_description q.rtc ≡ some (description_of browser (message_of kind sdp)))

  -- How an operation that makes a description may end.
  abbrev pub Announces : SdpType → BrowserPeer browser → Run (BrowserPeer browser) → Type 0
  Announces kind p Run.panicked = ⊥
  Announces kind p (Run.failed e) = Unit
  Announces kind p (Run.done q) = IsAnnounced kind p q

  announce-IsAnnounced :
      (kind : SdpType) (sdp : Text) (p : BrowserPeer browser)
      → browser.local_description p.rtc ≡ some (to_rtc kind, sdp)
      → Announces kind p (announce browser (some (to_rtc kind, sdp)) p)
  unfolding announce described local_description_type description_of
  announce-IsAnnounced kind sdp p e =
      rw (of_rtc-to_rtc kind) (sdp, refl, rw (e, of_rtc-to_rtc kind) refl, e)

  abbrev IsLocal : SdpType → browser.Peer → Type 0
  IsLocal kind p = (sdp : Text) × (browser.local_description p ≡ some (to_rtc kind, sdp))

  set-Announces :
      (kind : SdpType) (p : BrowserPeer browser) (r : Result browser.Value browser.Peer)
      → ((q : browser.Peer) → r ≡ ok q → IsLocal kind q)
      → Announces kind p (
          and_then
            (lift (rtc_err browser r))
            (λ rtc. announce browser (browser.local_description rtc) (record p { rtc = rtc })))
  unfolding rtc_err
  set-Announces kind p (err v) h = tt
  set-Announces kind p (ok q) h =
      let (sdp, e) = h q refl in rw e (announce-IsAnnounced kind sdp (record p { rtc = q }) e)

  created-Announces :
      (kind : SdpType) (p : BrowserPeer browser)
      (made : Result browser.Value (browser.Peer × browser.Init))
      → ((q r : browser.Peer) (init : browser.Init)
          → made ≡ ok (q, init)
          → browser.set_local_description init q ≡ ok r
          → IsLocal kind r)
      → Announces kind p (created browser made p)
  unfolding rtc_err send_local_description
  created-Announces kind p (err v) h = tt
  created-Announces kind p (ok (q, init)) h =
      set-Announces kind (record p { rtc = q }) (browser.set_local_description init q)
        (λ r e. h q r init refl e)

  -- Offers and answers of a browser, if it keeps to the documentation: making one does not panic, and
  -- where it succeeds, one message has been sent more, with the type asked for, the type of the local
  -- description is that too, and the description which the connection of a peer sets on account of the
  -- message is the local description.
  pub descriptions_announced :
      (p : BrowserPeer browser)
      → Documented
      → Announces SdpType.offer p (Browser.create_offer browser p)
        × Announces SdpType.answer p (Browser.create_answer browser p)
  unfolding Browser.create_offer Browser.create_answer to_rtc
  descriptions_announced p d = (
    created-Announces SdpType.offer p (browser.create_offer p.rtc)
        (λ q r init e f. d.offered p.rtc q r init e f),
    created-Announces SdpType.answer p (browser.create_answer p.rtc)
        (λ q r init e f. d.answered p.rtc q r init e f),
  )
