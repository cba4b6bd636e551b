-- ===== src/Session/Handlers.antt =====
-- The handlers of glopfile-relay/src/session.rs. Each takes the state and returns the new one with
-- what it sent, in order. Those that send upload progress stand in `Relay`.
use Prim.Native.String.{String}
use glopfile.Base.{
  Bool, true, false, not, Bytes, List, [], ◌∷◌, ◌++◌, Option, none, some, ok, err, ControlFlow,
  proceed, break, ◌==◌, if◌then◌else◌, add_u64, length, map,
}
use glopfile.Session.Types.{
  Position, Token, Channel, DownloadEvent, max_held_frames, Frame, Direction, UploadError,
  WebsocketCommand, WebsocketPeer, Peer, Uploader, DownloaderSlot, Waiter, UploadResult, Pending,
  State, Answer, Effect,
}

-- `Session::spawn`: the state of a new session.
abbrev pub new : Bytes → String → State
new id metadata = record {
  id = id;
  metadata = metadata;
  downloader = DownloaderSlot.disconnected;
  downloader_ws = none;
  downloader_ws_held = [];
  uploader = none;
  uploader_ws = none;
  uploader_ws_held = [];
  pending = Pending.nothing;
}

abbrev pub reply_to : Option Waiter → UploadResult → List Effect
reply_to none r = []
reply_to (some w) r = Effect.answer w (Answer.result r) ∷ []

-- `DownloadEvent::ConnectionReplaced` to a downloader that is put out of its slot.
abbrev pub replace_downloader : DownloaderSlot → List Effect
replace_downloader (DownloaderSlot.connected d) =
    Effect.event d.events DownloadEvent.connection_replaced ∷ []
replace_downloader _ = []

abbrev pub uploader_token : State → Option Token
uploader_token s = elim s.uploader [ none ↦ none | some u ↦ some u.token ]

-- `token == x`, for an `Option<Token>`.
abbrev pub is_token : Option Token → Token → Bool
is_token none t = false
is_token (some x) t = x == t

abbrev pub is_error : Pending → Bool
is_error (Pending.error e) = true
is_error _ = false

abbrev pub is_finished : DownloaderSlot → Bool
is_finished DownloaderSlot.finished = true
is_finished _ = false

abbrev pub websocket : State → Direction → Option WebsocketPeer
websocket s Direction.upload = s.uploader_ws
websocket s Direction.download = s.downloader_ws

abbrev pub set_websocket : State → Direction → Option WebsocketPeer → State
set_websocket s Direction.upload p = record s { uploader_ws = p }
set_websocket s Direction.download p = record s { downloader_ws = p }

abbrev pub held_frames : State → Direction → List Frame
held_frames s Direction.upload = s.uploader_ws_held
held_frames s Direction.download = s.downloader_ws_held

abbrev pub set_held_frames : State → Direction → List Frame → State
set_held_frames s Direction.upload fs = record s { uploader_ws_held = fs }
set_held_frames s Direction.download fs = record s { downloader_ws_held = fs }

terminate_in : Pending → UploadError → State → State × List Effect
terminate_in (Pending.queued c w p n) e s =
    (record s { pending = Pending.queued c none p n; uploader = none }, reply_to w (err e))
terminate_in _ e s = (record s { pending = Pending.error e }, [])

-- Ends the current upload, if there is one.
unfoldable pub terminate_uploader : UploadError → State → State × List Effect
unfolding terminate_in
terminate_uploader e s = elim s.uploader [ none ↦ (s, []) | some u ↦ terminate_in s.pending e s ]

check_queued : Pending → Position → UploadResult
check_queued (Pending.queued c w p n) position =
    if position == add_u64 p n then ok tt else err (UploadError.position (add_u64 p n))
check_queued _ position = ok tt

check_in : DownloaderSlot → Pending → Position → UploadResult
unfolding check_queued
check_in (DownloaderSlot.connected d) q position =
    if position == d.position
    then check_queued q position
    else err (UploadError.position d.position)
check_in _ q position = check_queued q position

unfoldable pub check_start_position : State → Position → UploadResult
unfolding check_in
check_start_position s position = check_in s.downloader s.pending position

unfoldable pub finish_download : Channel → State → State × List Effect × ControlFlow (Unit {0})
finish_download reply s =
    let (t, fx) =
      terminate_uploader UploadError.finished (record s { downloader = DownloaderSlot.finished }) in
    (
      t,
      replace_downloader s.downloader ++ (fx ++ Effect.answer reply Answer.done ∷ []),
      elim t.uploader [ none ↦ break tt | some u ↦ proceed ],
    )

-- An uploader that sends from elsewhere in the file than a new downloader wants.
abbrev pub is_elsewhere : Option Uploader → Position → Bool
is_elsewhere none p = false
is_elsewhere (some u) p = not (u.position == p)

-- The part of `flush_upload` behind its check of the token.
flush_in : Pending → Waiter → State → State × List Effect
flush_in (Pending.error e) reply s = (s, reply_to (some reply) (err e))
flush_in (Pending.queued c none p n) reply s =
    (record s { pending = Pending.queued c (some reply) p n }, [])
flush_in (Pending.queued c (some w) p n) reply s =
    (record s { pending = Pending.queued c (some reply) p n }, Effect.drop w ∷ [])
flush_in Pending.nothing reply s = (s, reply_to (some reply) (ok tt))

unfoldable pub flush_upload : Token → Waiter → State → State × List Effect
unfolding flush_in
flush_upload token reply s =
    if is_token (uploader_token s) token
    then flush_in s.pending reply s
    else (s, reply_to (some reply) (err UploadError.connection_replaced))

abbrev pub send_to : Channel → Frame → Effect
send_to c f = Effect.command c (WebsocketCommand.send f)

abbrev pub replace_websocket : Option WebsocketPeer → List Effect
replace_websocket none = []
replace_websocket (some p) = Effect.command p.commands WebsocketCommand.session_error ∷ []

unfoldable pub start_websocket : Direction → WebsocketPeer → State → State × List Effect
start_websocket direction peer s = (
  set_websocket (set_held_frames s direction []) direction (some peer),
  map (send_to peer.commands) (held_frames s direction)
      ++ replace_websocket (websocket s direction),
)

unfoldable pub hold_frame : Direction → Frame → State → State
hold_frame to frame s =
    if length (held_frames s to) == max_held_frames
    then s
    else set_held_frames s to (held_frames s to ++ frame ∷ [])

abbrev pub other : Direction → Direction
other Direction.upload = Direction.download
other Direction.download = Direction.upload

unfoldable pub relay_frame : Direction → Frame → State → State × List Effect
unfolding hold_frame
relay_frame from frame s = elim (websocket s (other from)) [
  | some peer ↦ (s, send_to peer.commands frame ∷ [])
  | none ↦ (hold_frame (other from) frame s, [])
]

downloader_left : DownloaderSlot → Token → Bool → State → State × ControlFlow (Unit {0})
downloader_left (DownloaderSlot.connected d) token completed s =
    if d.token == token
    then (if completed
        then (record s { downloader = DownloaderSlot.finished }, break tt)
        else (record s { downloader = DownloaderSlot.disconnected }, proceed))
    else (s, proceed)
downloader_left _ token completed s = (s, proceed)

uploader_left : State → State × ControlFlow (Unit {0})
uploader_left s =
    if is_finished s.downloader
    then (s, break tt)
    else ((if is_error s.pending then record s { pending = Pending.nothing } else s), proceed)

websocket_left : Option WebsocketPeer → Direction → Token → State → State
websocket_left none direction token s = s
websocket_left (some p) direction token s =
    if p.token == token then set_websocket s direction none else s

unfoldable pub disconnected : Token → Peer → State → State × ControlFlow (Unit {0})
unfolding downloader_left uploader_left websocket_left
disconnected token (Peer.downloader completed) s = downloader_left s.downloader token completed s
disconnected token Peer.uploader s =
    if is_token (uploader_token s) token
    then uploader_left (record s { uploader = none })
    else (s, proceed)
disconnected token (Peer.websocket direction) s =
    (websocket_left (websocket s direction) direction token s, proceed)
