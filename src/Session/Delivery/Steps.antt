-- ===== src/Session/Delivery/Steps.antt =====
-- What each command of a session of glopfile-relay/src/session.rs sends to one download channel.
use glopfile.Base.{
  ℕ, ◌≡◌, ◌≢◌, refl, List, [], ◌∷◌, ◌++◌, Option, none, some, arith, Bytes, append-nil, map,
}
use glopfile.Session.Types.{
  Position, Token, Channel, Frame, Direction, WebsocketPeer, Answer, Chunk, Peer, Downloader, State,
  Command, Effect,
}
use glopfile.Session.Handlers
use glopfile.Session.Relay
use glopfile.Session.Relay.{handle}
use glopfile.Session.Invariant.{handle-Inv}
use glopfile.Session.Delivery.{
  received, received-append, offset_on, IsFresh, IsHonest, IsQueueFaithful, Faithful, Feeds,
  chunk_bytes, queue_bytes,
}

module _ (content : Position → ℕ) (ack : Position → Bytes) (ch : Channel) where
  -- What a step from one state to another sends on the channel.
  abbrev StepFeeds : State → State → List Effect → Type 0
  StepFeeds s t fx =
      Feeds content ch (offset_on ch s.downloader) (offset_on ch t.downloader) (received ch fx)

  upload_data-Feeds :
      (t : Token) (c : Chunk) (r : Channel) (s : State)
      → Faithful content s
      → IsHonest content s.uploader (Command.upload_data t c r)
      → StepFeeds s (Relay.upload_data ack t c r s).0 (Relay.upload_data ack t c r s).1
  unfolding Relay.upload_data received
  upload_data-Feeds t c r s v h = ground (arith, append-nil (chunk_bytes c))

  upload_data-Queue :
      (t : Token) (c : Chunk) (r : Channel) (s : State)
      → Faithful content s
      → IsHonest content s.uploader (Command.upload_data t c r)
      → IsQueueFaithful content (Relay.upload_data ack t c r s).0.pending
  unfolding Relay.upload_data
  upload_data-Queue t c r s v h = ground (arith)

  start_download-Feeds :
      (d : Downloader) (s : State)
      → Faithful content s
      → d.events ≢ ch
      → StepFeeds s (Relay.start_download ack d s).0 (Relay.start_download ack d s).1
  unfolding Relay.start_download received Handlers.terminate_uploader
  start_download-Feeds d s v h = ground arith

  pub start_download-Feeds_self :
      (d : Downloader) (s : State)
      → Faithful content s
      → d.events ≡ ch
      → offset_on ch s.downloader ≡ none
      → Feeds content ch
          (some d.position)
          (offset_on ch (Relay.start_download ack d s).0.downloader)
          (received ch (Relay.start_download ack d s).1)
  unfolding Relay.start_download received Handlers.terminate_uploader
  start_download-Feeds_self d s v e h = ground (arith, append-nil (queue_bytes s.pending))

  start_upload-Feeds :
      (t : Token) (p : Position) (r : Channel) (s : State)
      → StepFeeds s (Relay.start_upload ack t p r s).0 (Relay.start_upload ack t p r s).1
  unfolding Relay.start_upload received Handlers.terminate_uploader Handlers.check_start_position
  start_upload-Feeds t p r s = ground arith

  finish_download-Feeds :
      (r : Channel) (s : State)
      → StepFeeds s (Handlers.finish_download r s).0 (Handlers.finish_download r s).1
  unfolding Handlers.finish_download received Handlers.terminate_uploader
  finish_download-Feeds r s = ground arith

  flush_upload-Feeds :
      (t : Token) (r : Channel) (s : State)
      → StepFeeds s (Handlers.flush_upload t r s).0 (Handlers.flush_upload t r s).1
  unfolding Handlers.flush_upload received
  flush_upload-Feeds t r s = ground arith

  disconnected-Feeds :
      (t : Token) (p : Peer) (s : State) → StepFeeds s (Handlers.disconnected t p s).0 []
  unfolding Handlers.disconnected received
  disconnected-Feeds t p s = ground arith

  relay_frame-Feeds :
      (d : Direction) (f : Frame) (s : State)
      → StepFeeds s (Handlers.relay_frame d f s).0 (Handlers.relay_frame d f s).1
  unfolding Handlers.relay_frame received
  relay_frame-Feeds d f s = ground arith

  received-send_to :
      (c : Channel) (fs : List Frame) (fx : List Effect)
      → received ch (map (Handlers.send_to c) fs ++ fx) ≡ received ch fx
  unfolding received
  received-send_to c [] fx = refl
  received-send_to c (f ∷ fs) fx = received-send_to c fs fx

  start_websocket-Feeds :
      (d : Direction) (p : WebsocketPeer) (s : State)
      → StepFeeds s (Handlers.start_websocket d p s).0 (Handlers.start_websocket d p s).1
  unfolding Handlers.start_websocket received
  start_websocket-Feeds d p s =
      rw
        (received-send_to p.commands (Handlers.held_frames s d)
          (Handlers.replace_websocket (Handlers.websocket s d)))
        (ground arith)

  pub Feeds-answer :
      (c : Channel) (a : Answer) (p q : Option Position) (fx : List Effect)
      → Feeds content ch p q (received ch fx)
      → Feeds content ch p q (received ch (fx ++ Effect.answer c a ∷ []))
  unfolding received
  Feeds-answer c a p q fx h =
      rw (received-append ch fx (Effect.answer c a ∷ []), append-nil (received ch fx)) h

  handle-Queue :
      (c : Command) (s : State)
      → Faithful content s
      → IsHonest content s.uploader c
      → IsQueueFaithful content (handle ack c s).0.pending
  unfolding handle Relay.start_download Relay.start_upload Handlers.finish_download
      Handlers.flush_upload Handlers.terminate_uploader Handlers.disconnected
      Handlers.start_websocket Handlers.relay_frame Handlers.check_start_position
  handle-Queue (Command.upload_data t c r) s v h = upload_data-Queue t c r s v h
  handle-Queue c s v h = ground arith

  -- A command leaves the queue faithful, and ...
  pub handle-Faithful :
      (c : Command) (s : State)
      → Faithful content s
      → IsHonest content s.uploader c
      → Faithful content (handle ack c s).0
  handle-Faithful c s v h = record { inv = handle-Inv ack c s v.inv; queue = handle-Queue c s v h }

  pub handle-Feeds :
      (c : Command) (s : State)
      → Faithful content s
      → IsHonest content s.uploader c
      → IsFresh ch c
      → StepFeeds s (handle ack c s).0 (handle ack c s).1
  unfolding handle received
  handle-Feeds (Command.metadata r) s v h f = ground arith
  handle-Feeds (Command.start_download d r) s v h f =
      Feeds-answer r Answer.done _ _ (Relay.start_download ack d s).1 (start_download-Feeds d s v f)
  handle-Feeds (Command.finish_download r) s v h f = finish_download-Feeds r s
  handle-Feeds (Command.check_start_upload p r) s v h f = ground arith
  handle-Feeds (Command.start_upload t p r) s v h f = start_upload-Feeds t p r s
  handle-Feeds (Command.upload_data t c r) s v h f = upload_data-Feeds t c r s v h
  handle-Feeds (Command.flush_upload t r) s v h f = flush_upload-Feeds t r s
  handle-Feeds (Command.start_websocket d p r) s v h f =
      Feeds-answer r Answer.done _ _ (Handlers.start_websocket d p s).1
        (start_websocket-Feeds d p s)
  handle-Feeds (Command.websocket_data d g) s v h f = relay_frame-Feeds d g s
  handle-Feeds (Command.disconnected t p) s v h f = disconnected-Feeds t p s
