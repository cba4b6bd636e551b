-- ===== src/Examples/Loops.antt =====
-- The theorems on the loop of a peer-to-peer transfer at concrete inputs.
use glopfile.Base.{
  ℕ, suc, ◌≡◌, refl, Bytes, List, [], ◌∷◌, ◌++◌, Option, none, some, true, Result, ok, proceed,
  arith,
}
use glopfile.Client.Errors.{Error}
use glopfile.Client.Signaling.{SdpType, SignalingMessage}
use glopfile.Client.Signaling.Connecting.{
  Run, Rtc, Documented, handle_incoming, take_message, take_description, next_connection,
  answer_offer,
}
use glopfile.Client.Signaling.Transfer.{
  PeerConnectionEvent, Event, Arrival, Timeout, Handler, Client, transfer,
}
use glopfile.Client.Signaling.Transfer.Connections.{without_old, old_connections_silent}
use glopfile.Client.Signaling.Transfer.Deadlines.{expired, idle_transfer_expires}

-- A peer connection that knows the type of its local description, and nothing else.
abbrev rtc : Rtc
rtc = record {
  Peer = Option SdpType;
  new_peer = λ i. ok none;
  local_type = λ p. p;
  create_offer = λ p. ok (some SdpType.offer);
  create_answer = λ p. ok (some SdpType.answer);
  set_remote = λ d p. ok p;
  add_candidate = λ t p. ok p;
}

documented : Documented rtc
documented = record {
  new_local = λ i p e. ground (e, arith);
  offer_local = λ p q e. ground (e, arith);
  answer_local = λ p q e. ground (e, arith);
  remote_local = λ d p q e. ground (e, arith);
  candidate_local = λ t p q e. ground (e, arith);
}

abbrev unseal : Bytes → Result Error (Option SignalingMessage)
unseal [] = ok none
unseal (b ∷ bytes) =
    ok (
      some
        (SignalingMessage.session_description (record { sdp_type = SdpType.offer; sdp = bytes })))

-- A handler that counts messages.
abbrev counting : Handler ℕ (Unit {0})
counting = record {
  opened = λ h. Run.done (h, proceed);
  message = λ b h. Run.done (suc h, proceed);
}

abbrev client : Client rtc unseal
client = record {
  peer_connection = record { id = 1; peer = some SdpType.answer };
  signaling = record { client = true; websocket = true; pending = [] };
}

abbrev arrival : ℕ → Event → Arrival
arrival at e = record {
  from = at;
  at = at;
  event = e;
  ciphertext = 3 ∷ [];
  network = λ i. record { connecting = ok tt; sends = true };
}

abbrev message : ℕ → Event
message id = Event.connection id (PeerConnectionEvent.data_channel_message (5 ∷ []))

abbrev offer : Arrival
offer = arrival 2 (Event.incoming_signaling_message (1 ∷ []))

-- Messages of the connection that the offer replaces, of the new one, and of one before both.
abbrev mixed : List Arrival
mixed = arrival 3 (message 1) ∷ arrival 4 (message 2) ∷ arrival 5 (message 0) ∷ []

answering :
    rtc.local_type
      (transfer rtc unseal counting
        (arrival 1 (message 1) ∷ [])
        client
        0
        none).client.peer_connection.peer
    ≡ some SdpType.answer
unfolding transfer
answering = refl

old_connections_silent_example :
    transfer rtc unseal counting (arrival 1 (message 1) ∷ offer ∷ mixed) client 0 none
    ≡ transfer rtc unseal counting
        ((arrival 1 (message 1) ∷ [])
          ++ offer
            ∷ without_old
                (transfer rtc unseal counting
                  (arrival 1 (message 1) ∷ [])
                  client
                  0
                  none).client.peer_connection.id
                mixed)
        client
        0
        none
old_connections_silent_example =
    old_connections_silent rtc unseal counting (arrival 1 (message 1) ∷ []) mixed offer (1 ∷ [])
      (record { sdp_type = SdpType.offer; sdp = [] }) client 0 refl refl refl answering

-- The handler has seen the message of the first connection and that of the second one.
two_seen :
    (transfer rtc unseal counting (arrival 1 (message 1) ∷ offer ∷ mixed) client 0 none).state ≡ 2
unfolding transfer handle_incoming take_message take_description next_connection answer_offer
two_seen = refl

-- A transfer with a deadline at 5, where a message comes at 6.
abbrev quiet : List Arrival
quiet =
    arrival 1 (Event.connection 1 PeerConnectionEvent.data_channel_opened)
    ∷ arrival 2 (Event.incoming_signaling_message [])
    ∷ []

abbrev timeout : Timeout
timeout = record { deadline = 5; timeout = 5 }

idle_transfer_expires_example :
    transfer rtc unseal counting
      (quiet ++ arrival 6 (message 1) ∷ arrival 7 (message 1) ∷ [])
      client
      0
      (some timeout)
    ≡ expired rtc unseal counting
        (transfer rtc unseal counting quiet client 0 (some timeout)).end
        (transfer rtc unseal counting quiet client 0 (some timeout))
idle_transfer_expires_example =
    idle_transfer_expires rtc unseal counting quiet (arrival 6 (message 1))
      (arrival 7 (message 1) ∷ []) client 0 timeout (tt, (tt, tt)) refl
