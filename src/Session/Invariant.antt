-- ===== src/Session/Invariant.antt =====
-- What holds of a session of glopfile-relay/src/session.rs between two commands.
use Prim.Native.String.{String}
use glopfile.Base.{
  ℕ, ◌≤◌, ◌≡◌, List, [], ◌∷◌, Option, none, some, arith, length, add_u64, Bytes, length-append,
}
use glopfile.Session.Types.{
  Position, Token, Peer, Chunk, Frame, Direction, WebsocketPeer, Uploader, Downloader,
  DownloaderSlot, Pending, State, Command, chunk_len, max_held_frames,
}
use glopfile.Session.Handlers
use glopfile.Session.Handlers.{new}
use glopfile.Session.Relay
use glopfile.Session.Relay.{handle}
use glopfile.Session.Task.{run}

-- A connected downloader and an uploader that nothing stands between are at the same offset, and a
-- chunk is queued only while no downloader is connected.
abbrev pub IsSynced : DownloaderSlot → Option Uploader → Pending → Type 0
IsSynced (DownloaderSlot.connected d) (some u) Pending.nothing = u.position ≡ d.position
IsSynced (DownloaderSlot.connected d) u (Pending.queued c w p n) = ⊥
IsSynced slot u q = Unit

-- The queued chunk is the one that the uploader sent last.
abbrev pub IsQueueEnd : Option Uploader → Pending → Type 0
IsQueueEnd none (Pending.queued c w p n) = n ≡ chunk_len c
IsQueueEnd (some u) (Pending.queued c w p n) = (n ≡ chunk_len c) × (u.position ≡ add_u64 p n)
IsQueueEnd u q = Unit

-- Frames are held for an absent peer only.
abbrev pub IsHeld : Option WebsocketPeer → List Frame → Type 0
IsHeld none fs = length fs ≤ max_held_frames
IsHeld (some peer) fs = fs ≡ []

pub record Inv (s : State) : Type 0 where
  pub synced : IsSynced s.downloader s.uploader s.pending
  pub queue_end : IsQueueEnd s.uploader s.pending
  pub uploader_held : IsHeld s.uploader_ws s.uploader_ws_held
  pub downloader_held : IsHeld s.downloader_ws s.downloader_ws_held

pub new-Inv : (id : Bytes) (metadata : String) → Inv (new id metadata)
new-Inv id m = ground arith

start_download-Inv :
    (ack : Position → Bytes) (d : Downloader) (s : State)
    → Inv s
    → Inv (Relay.start_download ack d s).0
unfolding Relay.start_download Handlers.terminate_uploader
start_download-Inv ack d s v = ground arith

finish_download-Inv : (r : ℕ) (s : State) → Inv s → Inv (Handlers.finish_download r s).0
unfolding Handlers.finish_download Handlers.terminate_uploader
finish_download-Inv r s v = ground arith

start_upload-Inv :
    (ack : Position → Bytes) (t : Token) (p : Position) (r : ℕ) (s : State)
    → Inv s
    → Inv (Relay.start_upload ack t p r s).0
unfolding Relay.start_upload Handlers.terminate_uploader Handlers.check_start_position
start_upload-Inv ack t p r s v = ground arith

upload_data-Inv :
    (ack : Position → Bytes) (t : Token) (c : Chunk) (r : ℕ) (s : State)
    → Inv s
    → Inv (Relay.upload_data ack t c r s).0
unfolding Relay.upload_data
upload_data-Inv ack t c r s v = ground arith

flush_upload-Inv : (t : Token) (r : ℕ) (s : State) → Inv s → Inv (Handlers.flush_upload t r s).0
unfolding Handlers.flush_upload
flush_upload-Inv t r s v = ground arith

start_websocket-Inv :
    (d : Direction) (p : WebsocketPeer) (s : State) → Inv s → Inv (Handlers.start_websocket d p s).0
unfolding Handlers.start_websocket
start_websocket-Inv d p s v = ground arith

relay_frame-Inv :
    (d : Direction) (f : Frame) (s : State) → Inv s → Inv (Handlers.relay_frame d f s).0
unfolding Handlers.relay_frame
relay_frame-Inv Direction.upload f s v = ground (arith, length-append s.downloader_ws_held (f ∷ []))
relay_frame-Inv Direction.download f s v = ground (arith, length-append s.uploader_ws_held (f ∷ []))

disconnected-Inv : (t : Token) (p : Peer) (s : State) → Inv s → Inv (Handlers.disconnected t p s).0
unfolding Handlers.disconnected
disconnected-Inv t p s v = ground arith

-- Every command keeps the invariant, whether it stops the session or not.
pub handle-Inv : (ack : Position → Bytes) (c : Command) (s : State) → Inv s → Inv (handle ack c s).0
unfolding handle
handle-Inv ack (Command.metadata r) s v = v
handle-Inv ack (Command.start_download d r) s v = start_download-Inv ack d s v
handle-Inv ack (Command.finish_download r) s v = finish_download-Inv r s v
handle-Inv ack (Command.check_start_upload p r) s v = v
handle-Inv ack (Command.start_upload t p r) s v = start_upload-Inv ack t p r s v
handle-Inv ack (Command.upload_data t c r) s v = upload_data-Inv ack t c r s v
handle-Inv ack (Command.flush_upload t r) s v = flush_upload-Inv t r s v
handle-Inv ack (Command.start_websocket d p r) s v = start_websocket-Inv d p s v
handle-Inv ack (Command.websocket_data d f) s v = relay_frame-Inv d f s v
handle-Inv ack (Command.disconnected t p) s v = disconnected-Inv t p s v

-- The invariant of a session that may have stopped.
abbrev pub InvOf : Option State → Type 0
InvOf none = Unit
InvOf (some s) = Inv s

run-Inv : (ack : Position → Bytes) (cs : List Command) (s : State) → Inv s → InvOf (run ack cs s).0
unfolding run
run-Inv ack [] s v = v
run-Inv ack (c ∷ cs) s v = ground (arith, handle-Inv ack c s v, run-Inv ack cs (handle ack c s).0)

-- A session that was spawned and has taken any commands at all is in a state that satisfies the
-- invariant.
pub run-new-Inv :
    (ack : Position → Bytes) (id : Bytes) (metadata : String) (cs : List Command)
    → InvOf (run ack cs (new id metadata)).0
run-new-Inv ack id m cs = run-Inv ack cs (new id m) (new-Inv id m)
