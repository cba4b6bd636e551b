-- ===== src/Examples/Relaying.antt =====
-- The theorems on the sessions of glopfile-relay/src/session.rs at concrete sessions.
use glopfile.Base.{
  ℕ, ◌+◌, ◌≡◌, ◌↔◌, refl, Bytes, List, [], ◌∷◌, ◌++◌, map, take, none, some, true, ok, err, arith,
  break,
}
use glopfile.Session.Types.{
  Position, Chunk, Frame, Direction, Downloader, DownloaderSlot, WebsocketPeer, Peer, Pending,
  UploadError, State, Command, Answer, Effect, max_held_frames,
}
use glopfile.Session.Handlers.{
  new, check_start_position, other, websocket, held_frames, uploader_token, send_to,
}
use glopfile.Session.Relay
use glopfile.Session.Handlers
use glopfile.Session.Relay.{handle}
use glopfile.Session.Task.{run, response, waiting}
use glopfile.Session.Invariant.{Inv, InvOf, new-Inv, run-new-Inv}
use glopfile.Session.Delivery.{received, Agrees, Faithful}
use glopfile.Session.Delivery.Run.{IsHonestRun, run-start_download-Agrees}
use glopfile.Session.Requests.{run-Balances, times, settled, carried_all, waiting_of}
use glopfile.Session.Signaling.{frames_from, signaling_waits}
use glopfile.Session.Uploads.{IsSettled, queued_chunk_answered, resume_accepted}
use glopfile.Session.Lifecycle.{Ends, break_iff, departures, finished_stranded}

-- Content whose byte at a position is the position, and acknowledgements of one byte.
abbrev pub content : Position → ℕ
content p = p

abbrev pub ack : Position → Bytes
ack p = p ∷ []

abbrev pub fresh_state : State
fresh_state = new (1 ∷ []) "metadata"

abbrev pub watcher : Downloader
watcher = record { token = 5; position = 2; events = 9 }

-- Content from position 2 on, in two pieces, of which the second comes after the download.
abbrev pub uploading : List Command
uploading =
    Command.start_upload 3 2 20
    ∷ Command.upload_data 3 (Chunk.more (2 ∷ 3 ∷ [])) 21
    ∷ Command.upload_data 3 (Chunk.final (4 ∷ [])) 22
    ∷ []

pub uploading_honest :
    IsHonestRun content ack uploading (Relay.start_download ack watcher fresh_state).0
unfolding Relay.start_download handle Relay.start_upload Relay.upload_data
uploading_honest = ground arith

pub fresh_state-Faithful : Faithful content fresh_state
fresh_state-Faithful = record { inv = new-Inv (1 ∷ []) "metadata"; queue = tt }

run-start_download-Agrees_example :
    Agrees content 2
      (received 9 (run ack (Command.start_download watcher 10 ∷ uploading) fresh_state).1)
run-start_download-Agrees_example =
    run-start_download-Agrees content ack watcher 10 uploading fresh_state fresh_state-Faithful
      uploading_honest refl (tt, (tt, (tt, tt)))

run-new-Inv_example : InvOf (run ack uploading (new (1 ∷ []) "metadata")).0
run-new-Inv_example = run-new-Inv ack (1 ∷ []) "metadata" uploading

run-Balances_example :
    times 21 (carried_all uploading) + times 21 (waiting fresh_state.pending)
    ≡ settled 21 (run ack uploading fresh_state).1
      + times 21 (waiting_of (run ack uploading fresh_state).0)
run-Balances_example = run-Balances ack 21 uploading fresh_state

-- A peer of the other side that connects after signaling was sent to it.
abbrev peer : WebsocketPeer
peer = record { token = 8; commands = 30 }

signaling_waits_example :
    (run ack
      (frames_from Direction.upload (Frame.text "offer" ∷ Frame.binary (1 ∷ []) ∷ [])
        ++ Command.start_websocket Direction.download peer 31
          ∷ frames_from Direction.upload (Frame.text "candidate" ∷ []))
      fresh_state).1
    ≡ map (send_to 30) (
        take max_held_frames (
          held_frames fresh_state Direction.download
          ++ Frame.text "offer" ∷ Frame.binary (1 ∷ []) ∷ []))
      ++ Effect.answer 31 Answer.done ∷ map (send_to 30) (Frame.text "candidate" ∷ [])
signaling_waits_example =
    signaling_waits ack Direction.upload (Frame.text "offer" ∷ Frame.binary (1 ∷ []) ∷ [])
      (Frame.text "candidate" ∷ []) peer 31 fresh_state refl (omega arith)

-- The uploader 3 is at position 2 with the watcher, and was there before it with a chunk in the queue.
abbrev watched_state : State
watched_state = record fresh_state {
  downloader = DownloaderSlot.connected watcher;
  uploader = some (record { token = 3; position = 2 });
}

abbrev queued_state : State
queued_state = record fresh_state {
  uploader = some (record { token = 3; position = 4 });
  pending = Pending.queued (Chunk.more (2 ∷ 3 ∷ [])) (some 21) 2 2;
}

watched_answer :
    response 21 (Relay.upload_data ack 3 (Chunk.more (2 ∷ 3 ∷ [])) 21 watched_state).1
    ≡ some (Answer.result (ok tt))
unfolding response Relay.upload_data
watched_answer = refl

-- An uploader at position 2, with no downloader.
abbrev uploading_state : State
uploading_state = record fresh_state { uploader = some (record { token = 3; position = 2 }) }

abbrev between : List Command
between = Command.metadata 40 ∷ Command.websocket_data Direction.upload (Frame.text "offer") ∷ []

queued_chunk_answered_example :
    IsSettled ack watcher 21
      (Chunk.more (2 ∷ 3 ∷ []))
      2
      (run ack
        (Command.upload_data 3 (Chunk.more (2 ∷ 3 ∷ [])) 21
          ∷ (between ++ Command.start_download watcher 10 ∷ []))
        uploading_state).1
queued_chunk_answered_example =
    queued_chunk_answered ack 3 (Chunk.more (2 ∷ 3 ∷ [])) 21 between watcher 10
      (record { token = 3; position = 2 }) uploading_state refl refl refl refl
      ((λ e. ground (e, arith)), (tt, tt))

-- The watcher wants position 2, so that an upload from 0 is refused.
abbrev watching_state : State
watching_state = record fresh_state { downloader = DownloaderSlot.connected watcher }

watching_state-Inv : Inv watching_state
watching_state-Inv = ground arith

watching_answer :
    response 20 (Relay.start_upload ack 3 0 20 watching_state).1
    ≡ some (Answer.result (err (UploadError.position 2)))
unfolding response Relay.start_upload check_start_position
watching_answer = refl

resume_accepted_example :
    (response 23 (Relay.start_upload ack 4 2 23 (Relay.start_upload ack 3 0 20 watching_state).0).1
      ≡ some (Answer.result (ok tt)))
    × (uploader_token
          (Relay.start_upload ack 4 2 23 (Relay.start_upload ack 3 0 20 watching_state).0).0
        ≡ some 4)
resume_accepted_example =
    resume_accepted ack 3 4 0 2 20 23 watching_state watching_state-Inv watching_answer

break_iff_example :
    ((handle ack (Command.disconnected 5 (Peer.downloader true)) watched_state).2 ≡ break tt) ↔ (
      Ends (Command.disconnected 5 (Peer.downloader true)) watched_state
      × ((handle ack (Command.disconnected 5 (Peer.downloader true)) watched_state).0.downloader
          ≡ DownloaderSlot.finished))
break_iff_example = break_iff ack (Command.disconnected 5 (Peer.downloader true)) watched_state

-- A download that finished while the uploader 1 was there; the uploader 2 took its place and has a
-- chunk in the queue.
abbrev leading_there : List Command
leading_there =
    Command.start_upload 1 0 20
    ∷ Command.finish_download 21
    ∷ Command.start_upload 2 0 22
    ∷ Command.upload_data 2 (Chunk.more (0 ∷ 1 ∷ [])) 23
    ∷ []

abbrev finished_state : State
finished_state = record fresh_state {
  downloader = DownloaderSlot.finished;
  uploader = some (record { token = 2; position = 2 });
  pending = Pending.queued (Chunk.more (0 ∷ 1 ∷ [])) (some 23) 0 2;
}

finished_reached : (run ack leading_there fresh_state).0 ≡ some finished_state
unfolding run handle Relay.start_upload Relay.upload_data Handlers.finish_download
    Handlers.terminate_uploader Handlers.check_start_position
finished_reached = refl

finished_stranded_example :
    (t : State) × ((run ack
        (Command.start_upload 6 5 26 ∷ departures ((6, Peer.uploader) ∷ (2, Peer.uploader) ∷ []))
        finished_state).0
      ≡ some t)
    × (t.downloader ≡ DownloaderSlot.finished)
    × (t.uploader ≡ none)
finished_stranded_example =
    finished_stranded ack 6 (record { token = 2; position = 2 }) (Chunk.more (0 ∷ 1 ∷ [])) (some 23)
      0 2 5 26 ((6, Peer.uploader) ∷ (2, Peer.uploader) ∷ []) finished_state refl refl refl
      (λ e. ground (arith, e))
