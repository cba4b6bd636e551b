-- ===== src/Examples/Connecting.antt =====
-- The theorems on the peer connections and sockets of the client at concrete inputs.
use glopfile.Client.Signaling.Browser
use glopfile.Client.Signaling.Browser.{BrowserRtc, BrowserPeer, RtcDescription, RtcSdpType}
use glopfile.Client.Signaling.Browser.Descriptions.{Documented, Announces, descriptions_announced}
use Prim.Native.String.{String}
use glopfile.Base.{
  ℕ, suc, ◌≡◌, refl, Bool, true, false, Bytes, List, [], ◌∷◌, ◌++◌, Option, none, some, Result, ok,
  ControlFlow, proceed, arith,
}
use glopfile.Text.{Text}
use glopfile.Client.Errors.{Error, Retriability}
use glopfile.Client.Sockets.{Outcome, reconnects}
use glopfile.Client.Sockets.Native.{Turn, run, send, join}
use glopfile.Client.Sockets.Native.Ends.{close_breaks_send}
use glopfile.Client.Signaling.{SdpType, SignalingMessage}
use glopfile.Client.Signaling.Connecting.{Run}
use glopfile.Client.Signaling.Native.{Library, NativePeerConnection, native_rtc}
use glopfile.Client.Signaling.Transfer.{PeerConnectionEvent, Event, Arrival, Handler, Client}

abbrev server_error : ℕ → Option Bool
server_error status = some true

-- A handler that counts messages.
abbrev count : ℕ → ℕ → ℕ × ControlFlow (Unit {0})
count m n = (suc n, proceed)

-- A message, a ping and a message that goes out.
abbrev before : List (Turn ℕ)
before = Turn.binary (ok 7) ∷ Turn.ping (ok tt) ∷ Turn.outgoing 0 (ok tt) ∷ []

goes_on : (run count before 0).ended ≡ none
unfolding run
goes_on = refl

close_breaks_send_example :
    ((send false (run count (before ++ Turn.close none ∷ []) 0).ended).0 ≡ Outcome.panicked)
    × ((join (run count (before ++ Turn.close none ∷ []) 0).ended).0 ≡ Outcome.returned (ok tt))
    × (reconnects server_error
          (join (send false (run count (before ++ Turn.close none ∷ []) 0).ended).1).0
        ≡ some Retriability.permanent)
close_breaks_send_example = close_breaks_send count server_error before [] 0 none goes_on

-- A library whose connections count the calls.
abbrev library : Library
library = record {
  Peer = ℕ;
  Sdp = Text;
  new = λ servers handler. ok 0;
  create_data_channel = λ stream label handler p. ok (suc p);
  set_local_description = λ t p. ok (suc p);
  set_remote_description = λ d p. ok (suc p);
  add_remote_candidate = λ text p. ok (suc p);
  parse_sdp = λ text. ok text;
  show_sdp = λ sdp. sdp;
}

abbrev unseal : Bytes → Result Error (Option SignalingMessage)
unseal bytes =
    ok (
      some
        (SignalingMessage.session_description (record { sdp_type = SdpType.offer; sdp = bytes })))

abbrev counting : Handler ℕ (Unit {0})
counting = record {
  opened = λ h. Run.done (h, proceed);
  message = λ b h. Run.done (suc h, proceed);
}

abbrev peer : NativePeerConnection library
peer = record { rtc = 1; local_description_type = none }

abbrev client : Client (native_rtc library) unseal
client = record {
  peer_connection = record { id = 1; peer = peer };
  signaling = record { client = true; websocket = true; pending = [] };
}

abbrev arrival : ℕ → Event → Arrival
arrival at e = record {
  from = at;
  at = at;
  event = e;
  ciphertext = 3 ∷ [];
  network = λ i. record { connecting = ok tt; sends = true };
}

-- Two offers, with the answer to the first, and a description of another type.
abbrev offers : List Arrival
offers =
    arrival 1 (Event.incoming_signaling_message (1 ∷ []))
    ∷ arrival 2 (
        Event.connection 1 (
          PeerConnectionEvent.outgoing_signaling_message (
            SignalingMessage.session_description (record { sdp_type = SdpType.answer; sdp = [] }))))
    ∷ arrival 3 (Event.incoming_signaling_message (1 ∷ []))
    ∷ arrival 4 (
        Event.connection 2 (
          PeerConnectionEvent.outgoing_signaling_message (
            SignalingMessage.session_description
              (record { sdp_type = SdpType.rollback; sdp = [] }))))
    ∷ []

-- A browser whose descriptions are empty.
abbrev browser : BrowserRtc
browser = record {
  Value = String;
  as_string = λ v. some v;
  debug = λ v. v;
  Peer = Option RtcDescription;
  Channel = ℕ;
  Init = RtcDescription;
  Candidate = Text;
  new = λ servers. ok none;
  create_data_channel = λ label id p. (p, id);
  create_offer = λ p. ok (p, (RtcSdpType.offer, []));
  create_answer = λ p. ok (p, (RtcSdpType.answer, []));
  set_local_description = λ init p. ok (some init);
  set_remote_description = λ d p. ok p;
  local_description = λ p. p;
  new_candidate = λ text. some text;
  add_ice_candidate = λ candidate p. ok p;
  send = λ bytes channel. ok channel;
}

browser-Documented : Documented browser
browser-Documented = record {
  offered = λ p q r init e f. ([], ground (e, f, arith));
  answered = λ p q r init e f. ([], ground (e, f, arith));
}

abbrev opened_peer : BrowserPeer browser
opened_peer = record { rtc = none; sent = [] }

descriptions_announced_example :
    Announces browser SdpType.offer opened_peer (Browser.create_offer browser opened_peer)
    × Announces browser SdpType.answer opened_peer (Browser.create_answer browser opened_peer)
descriptions_announced_example = descriptions_announced browser opened_peer browser-Documented

-- The offer goes out.
offer_done : (q : BrowserPeer browser) × (Browser.create_offer browser opened_peer ≡ Run.done q)
unfolding Browser.create_offer Browser.send_local_description Browser.announce Browser.described
    Browser.of_rtc Browser.rtc_err
offer_done = (_, refl)
