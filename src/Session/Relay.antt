-- ===== src/Session/Relay.antt =====
-- The handlers of glopfile-relay/src/session.rs that move content and report its progress, and the
-- dispatch of commands. `encode_ack` is the protobuf encoding of an `UploadDataAck` message, which
-- the build generates.
use glopfile.Base.{
  Bytes, List, [], ◌∷◌, ◌++◌, Option, none, some, ok, err, ControlFlow, proceed, ◌==◌,
  if◌then◌else◌, add_u64,
}
use glopfile.Session.Types.{
  Position, Token, Chunk, Frame, UploadError, WebsocketPeer, Downloader, Uploader, DownloaderSlot,
  Waiter, UploadResult, Pending, State, Command, Answer, Effect, chunk_len, into_event,
}
use glopfile.Session.Handlers.{
  reply_to, replace_downloader, is_error, is_elsewhere, terminate_uploader, check_start_position,
  finish_download, flush_upload, send_to, start_websocket, relay_frame, disconnected,
}

module _ (encode_ack : Position → Bytes) where
  -- `send_upload_progress`.
  abbrev pub upload_progress : Option WebsocketPeer → Position → List Effect
  upload_progress none p = []
  upload_progress (some peer) p = send_to peer.commands (Frame.binary (encode_ack p)) ∷ []

  -- The chunk that waited for a downloader goes to it if it is the one that it wants.
  deliver_queued : Pending → Option WebsocketPeer → Downloader → Downloader × List Effect
  deliver_queued (Pending.queued c w p n) ws d =
      if d.position == p
      then (
        record d { position = add_u64 d.position n },
        Effect.event d.events (into_event c) ∷ upload_progress ws (add_u64 d.position n)
            ++ reply_to w (ok tt),
      )
      else (d, reply_to w (err (UploadError.position d.position)))
  deliver_queued _ ws d = (d, [])

  unfoldable pub start_download : Downloader → State → State × List Effect
  unfolding deliver_queued
  start_download downloader s =
      let (d, delivered) = deliver_queued s.pending s.uploader_ws downloader in
      let t : State = record s {
        downloader = DownloaderSlot.disconnected;
        pending = Pending.nothing;
      } in
      let (u, terminated) =
        (if is_elsewhere t.uploader d.position
          then terminate_uploader (UploadError.position d.position) t
          else (t, [])) in
      (
        record u { downloader = DownloaderSlot.connected d },
        replace_downloader s.downloader ++ (delivered ++ terminated),
      )

  -- The uploader that was there is told, and leaves.
  abbrev replace_uploader : State → State × List Effect
  replace_uploader s = elim s.uploader [
    | none ↦ (s, [])
    | some u ↦
        let (t, fx) = terminate_uploader UploadError.connection_replaced s in
        (record t { uploader = none }, fx)
  ]

  -- The part of `start_upload` behind that, by the outcome of the check of the position.
  admit_uploader : UploadResult → Token → Position → Waiter → State → State × List Effect
  admit_uploader (err e) token position reply s = (s, reply_to (some reply) (err e))
  admit_uploader (ok _) token position reply s = (
    record s {
      pending = (if is_error s.pending then Pending.nothing else s.pending);
      uploader = some (record { token = token; position = position });
    },
    upload_progress s.uploader_ws position ++ reply_to (some reply) (ok tt),
  )

  unfoldable pub start_upload : Token → Position → Waiter → State → State × List Effect
  unfolding admit_uploader
  start_upload token position reply s =
      let (t, replaced) = replace_uploader s in
      let (u, admitted) = admit_uploader (check_start_position t position) token position reply t in
      (u, replaced ++ admitted)

  -- The part of `upload_data` that forwards the chunk or holds it.
  forward : DownloaderSlot → Position → Chunk → Waiter → State → State × List Effect
  forward (DownloaderSlot.connected d) p chunk reply s = (
    record s {
      downloader = DownloaderSlot.connected (record d { position = add_u64 p (chunk_len chunk) });
    },
    Effect.event d.events (into_event chunk)
          ∷ upload_progress s.uploader_ws (add_u64 p (chunk_len chunk))
        ++ reply_to (some reply) (ok tt),
  )
  forward _ p chunk reply s =
      (record s { pending = Pending.queued chunk (some reply) p (chunk_len chunk) }, [])

  accept : Pending → Uploader → Chunk → Waiter → State → State × List Effect
  unfolding forward
  accept (Pending.queued c w p n) u chunk reply s =
      (s, reply_to (some reply) (err UploadError.data_pending))
  accept (Pending.error e) u chunk reply s = (s, reply_to (some reply) (err e))
  accept Pending.nothing u chunk reply s =
      forward s.downloader u.position chunk reply (record s {
        uploader = some (record u { position = add_u64 u.position (chunk_len chunk) });
      })

  unfoldable pub upload_data : Token → Chunk → Waiter → State → State × List Effect
  unfolding accept
  upload_data token chunk reply s = elim s.uploader [
    | none ↦ (s, reply_to (some reply) (err UploadError.connection_replaced))
    | some u ↦
        if u.token == token
        then accept s.pending u chunk reply s
        else (s, reply_to (some reply) (err UploadError.connection_replaced))
  ]

  -- A handler that lets the session go on.
  abbrev pub go_on : State × List Effect → State × List Effect × ControlFlow (Unit {0})
  go_on r = (r.0, r.1, proceed)

  unfoldable pub handle : Command → State → State × List Effect × ControlFlow (Unit {0})
  handle (Command.metadata reply) s =
      go_on (s, Effect.answer reply (Answer.metadata s.metadata) ∷ [])
  handle (Command.start_download d reply) s =
      let (t, fx) = start_download d s in go_on (t, fx ++ Effect.answer reply Answer.done ∷ [])
  handle (Command.finish_download reply) s = finish_download reply s
  handle (Command.check_start_upload p reply) s =
      go_on (s, reply_to (some reply) (check_start_position s p))
  handle (Command.start_upload t p reply) s = go_on (start_upload t p reply s)
  handle (Command.upload_data t c reply) s = go_on (upload_data t c reply s)
  handle (Command.flush_upload t reply) s = go_on (flush_upload t reply s)
  handle (Command.start_websocket dir peer reply) s =
      let (t, fx) = start_websocket dir peer s in
      go_on (t, fx ++ Effect.answer reply Answer.done ∷ [])
  handle (Command.websocket_data dir f) s = go_on (relay_frame dir f s)
  handle (Command.disconnected t peer) s = let (u, flow) = disconnected t peer s in (u, [], flow)
