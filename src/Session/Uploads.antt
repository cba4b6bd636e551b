-- ===== src/Session/Uploads.antt =====
-- What an uploader may rely on in a session of glopfile-relay/src/session.rs.
use glopfile.Base.{
  List, ◌++◌, ◌∷◌, Bool-cases, ◌==◌, inl, inr, refl, ControlFlow, All, Option-cases, ◌∙◌, ℕ, ◌≡◌,
  ◌≢◌, [], some, ok, err, arith, Bytes, append-nil, ◌⊎◌, proceed,
}
use glopfile.Session.Types.{
  Position, Token, Channel, Chunk, Peer, Downloader, DownloaderSlot, UploadError, Pending, State,
  Command, Answer, Effect, Uploader, chunk_len, Direction, Frame,
}
use glopfile.Session.Handlers
use glopfile.Session.Handlers.{uploader_token, check_start_position}
use glopfile.Session.Relay
use glopfile.Session.Relay.{handle}
use glopfile.Session.Task.{run, run_proceeds, response}
use glopfile.Session.Invariant.{Inv}
use glopfile.Session.Delivery.{received, received-append, chunk_bytes}

module _ (ack : Position → Bytes) where
  -- `upload_data` answers `Ok` at once only if the chunk went to the connected downloader, all of it
  -- and nothing else.
  pub upload_data_ok :
      (t : Token) (c : Chunk) (r : Channel) (s : State)
      → response r (Relay.upload_data ack t c r s).1 ≡ some (Answer.result (ok tt))
      → (d : Downloader) × (s.downloader ≡ DownloaderSlot.connected d)
        × (received d.events (Relay.upload_data ack t c r s).1 ≡ chunk_bytes c)
  unfolding Relay.upload_data response received
  upload_data_ok t c r s h = ground (arith, append-nil (chunk_bytes c))

  -- What a downloader that connects makes of a queued chunk.
  queued_chunk_lem :
      (d : Downloader) (s : State) (c : Chunk) (w : Channel) (p n : ℕ)
      → s.pending ≡ Pending.queued c (some w) p n
      → ((d.position ≡ p)
          × (response w (Relay.start_download ack d s).1 ≡ some (Answer.result (ok tt)))
          × (received d.events (Relay.start_download ack d s).1 ≡ chunk_bytes c))
        ⊎ ((d.position ≢ p)
            × (response w (Relay.start_download ack d s).1
                ≡ some (Answer.result (err (UploadError.position d.position))))
            × (received d.events (Relay.start_download ack d s).1 ≡ []))
  unfolding Relay.start_download response received Handlers.terminate_uploader
  queued_chunk_lem d s c w p n h = ground (arith, append-nil (chunk_bytes c))

  -- A request for metadata, a check of an offset, or a frame of a websocket, with another reply channel.
  abbrev pub IsAside : Channel → Command → Type 0
  IsAside w (Command.metadata r) = r ≢ w
  IsAside w (Command.check_start_upload p r) = r ≢ w
  IsAside w (Command.websocket_data dir f) = Unit
  IsAside w _ = ⊥

  response-append :
      (w : Channel) (a : Answer) (xs ys : List Effect)
      → response w xs ≡ some a
      → response w (xs ++ ys) ≡ some a
  unfolding response
  response-append w a [] ys h = absurd (ground (h, arith))
  response-append w a (Effect.answer c b ∷ xs) ys h = elim (Bool-cases (c == w)) [
    | inl e ↦ rw e (rw e at h)
    | inr e ↦ rw e (response-append w a xs ys (rw e at h))
  ]
  response-append w a (Effect.drop c ∷ xs) ys h = elim (Bool-cases (c == w)) [
    | inl e ↦ absurd (let wrong = rw e at h in ground (wrong, arith))
    | inr e ↦ rw e (response-append w a xs ys (rw e at h))
  ]
  response-append w a (Effect.event c b ∷ xs) ys h = response-append w a xs ys h
  response-append w a (Effect.command c b ∷ xs) ys h = response-append w a xs ys h

  held_lem :
      (to : Direction) (f : Frame) (s : State) → (Handlers.hold_frame to f s).pending ≡ s.pending
  unfolding Handlers.hold_frame
  held_lem to f s = ground arith

  -- Neither the queue nor the two channels are touched.
  abbrev Leaves : Channel → Channel → State → State × List Effect × ControlFlow (Unit {0}) → Type 0
  Leaves w ch s o =
      (o.0.pending ≡ s.pending)
      × (o.2 ≡ proceed)
      × ((fx : List Effect)
          → (response w (o.1 ++ fx) ≡ response w fx) × (received ch (o.1 ++ fx) ≡ received ch fx))

  frame_lem :
      (w ch : Channel) (dir : Direction) (f : Frame) (s : State)
      → ((Handlers.relay_frame dir f s).0.pending ≡ s.pending)
        × ((fx : List Effect)
            → (response w ((Handlers.relay_frame dir f s).1 ++ fx) ≡ response w fx)
              × (received ch ((Handlers.relay_frame dir f s).1 ++ fx) ≡ received ch fx))
  unfolding Handlers.relay_frame response received
  frame_lem w ch Direction.upload f s = elim (Option-cases s.downloader_ws) [
    | inl e ↦ rw e (held_lem Direction.download f s, λ fx. (refl, refl))
    | inr (peer, e) ↦ rw e (refl, λ fx. (refl, refl))
  ]
  frame_lem w ch Direction.download f s = elim (Option-cases s.uploader_ws) [
    | inl e ↦ rw e (held_lem Direction.upload f s, λ fx. (refl, refl))
    | inr (peer, e) ↦ rw e (refl, λ fx. (refl, refl))
  ]

  aside-Leaves :
      (w ch : Channel) (c : Command) (s : State) → IsAside w c → Leaves w ch s (handle ack c s)
  unfolding handle response received
  aside-Leaves w ch (Command.metadata r) s h = (refl, refl, λ fx. ground arith)
  aside-Leaves w ch (Command.check_start_upload p r) s h = (refl, refl, λ fx. ground arith)
  aside-Leaves w ch (Command.websocket_data dir f) s h =
      let (same, leaves) = frame_lem w ch dir f s in (same, refl, leaves)
  aside-Leaves w ch (Command.start_download d r) s h = absurd h
  aside-Leaves w ch (Command.finish_download r) s h = absurd h
  aside-Leaves w ch (Command.start_upload t p r) s h = absurd h
  aside-Leaves w ch (Command.upload_data t c r) s h = absurd h
  aside-Leaves w ch (Command.flush_upload t r) s h = absurd h
  aside-Leaves w ch (Command.start_websocket dir peer r) s h = absurd h
  aside-Leaves w ch (Command.disconnected t peer) s h = absurd h

  -- What becomes of a chunk that waits at a position, and of the call that sent it, with a downloader.
  abbrev pub IsSettled : Downloader → Channel → Chunk → Position → List Effect → Type 0
  IsSettled d w c p fx =
      ((d.position ≡ p)
        × (response w fx ≡ some (Answer.result (ok tt)))
        × (received d.events fx ≡ chunk_bytes c))
      ⊎ ((d.position ≢ p)
          × (response w fx ≡ some (Answer.result (err (UploadError.position d.position))))
          × (received d.events fx ≡ []))

  IsSettled-cong :
      (d : Downloader) (w : Channel) (c : Chunk) (p : Position) (xs ys : List Effect)
      → response w xs ≡ response w ys
      → received d.events xs ≡ received d.events ys
      → IsSettled d w c p ys
      → IsSettled d w c p xs
  IsSettled-cong d w c p xs ys e f (inl (q, a, b)) = inl (q, e ∙ a, f ∙ b)
  IsSettled-cong d w c p xs ys e f (inr (q, a, b)) = inr (q, e ∙ a, f ∙ b)

  IsSettled-append :
      (d : Downloader) (w : Channel) (c : Chunk) (p : Position) (xs ys : List Effect)
      → received d.events ys ≡ []
      → IsSettled d w c p xs
      → IsSettled d w c p (xs ++ ys)
  IsSettled-append d w c p xs ys e (inl (q, a, b)) = inl (
    q,
    response-append w _ xs ys a,
    rw (received-append d.events xs ys, e, append-nil (received d.events xs)) b,
  )
  IsSettled-append d w c p xs ys e (inr (q, a, b)) = inr (
    q,
    response-append w _ xs ys a,
    rw (received-append d.events xs ys, e, append-nil (received d.events xs)) b,
  )

  waits_lem :
      (between : List Command) (d : Downloader) (r : Channel) (s : State) (c : Chunk) (w : Channel)
      (p n : ℕ)
      → s.pending ≡ Pending.queued c (some w) p n
      → All (IsAside w) between
      → IsSettled d w c p (run ack (between ++ Command.start_download d r ∷ []) s).1
  unfolding run handle received
  waits_lem [] d r s c w p n h k = IsSettled-append d w c p _ [] refl (
      IsSettled-append d w c p (Relay.start_download ack d s).1 (Effect.answer r Answer.done ∷ [])
        refl (queued_chunk_lem d s c w p n h))
  waits_lem (a ∷ between) d r s c w p n h (k, ks) =
      let (same, goes, leaves) = aside-Leaves w d.events a s k in
      let (t, fx, flow) = handle ack a s in
      let rest = run ack (between ++ Command.start_download d r ∷ []) t in
      rw (run_proceeds ack a (between ++ Command.start_download d r ∷ []) s goes) (
        IsSettled-cong d w c p (fx ++ rest.1) rest.1 (leaves rest.1).0 (leaves rest.1).1
          (waits_lem between d r t c w p n (same ∙ h) ks))

  queues_lem :
      (t : Token) (c : Chunk) (w : Channel) (u : Uploader) (s : State)
      → s.uploader ≡ some u
      → u.token ≡ t
      → s.downloader ≡ DownloaderSlot.disconnected
      → s.pending ≡ Pending.nothing
      → ((Relay.upload_data ack t c w s).0.pending
          ≡ Pending.queued c (some w) u.position (chunk_len c))
        × ((Relay.upload_data ack t c w s).1 ≡ [])
  unfolding Relay.upload_data
  queues_lem t c w u s e f g h = ground arith

  -- A chunk that its uploader sends while no downloader is connected and nothing is queued waits for the
  -- next downloader, over any requests for metadata, checks of an offset and frames of websockets that come
  -- between, which use other reply channels. The call is answered `Ok` if that downloader starts at the
  -- uploader's offset, and then it is sent just the chunk; otherwise it is answered with the offset that the
  -- downloader starts at, which is sent nothing.
  pub queued_chunk_answered :
      (t : Token) (c : Chunk) (w : Channel) (between : List Command) (d : Downloader) (r : Channel)
      (u : Uploader) (s : State)
      → s.uploader ≡ some u
      → u.token ≡ t
      → s.downloader ≡ DownloaderSlot.disconnected
      → s.pending ≡ Pending.nothing
      → All (IsAside w) between
      → IsSettled d w c u.position
          (run ack (Command.upload_data t c w ∷ (between ++ Command.start_download d r ∷ [])) s).1
  unfolding run handle
  queued_chunk_answered t c w between d r u s e f g h k =
      let (queued, silent) = queues_lem t c w u s e f g h in
      rw silent (waits_lem between d r _ c w u.position (chunk_len c) queued k)

  -- In a state that satisfies the invariant, an upload that is refused because it starts
  -- elsewhere can start at the offset that the refusal names, in the state that the refusal
  -- leaves, and then is the session's uploader.
  pub resume_accepted :
      (t u : Token) (p q : Position) (r x : Channel) (s : State)
      → Inv s
      → response r (Relay.start_upload ack t p r s).1
        ≡ some (Answer.result (err (UploadError.position q)))
      → (response x (Relay.start_upload ack u q x (Relay.start_upload ack t p r s).0).1
          ≡ some (Answer.result (ok tt)))
        × (uploader_token (Relay.start_upload ack u q x (Relay.start_upload ack t p r s).0).0
            ≡ some u)
  unfolding Relay.start_upload response Handlers.terminate_uploader check_start_position
  resume_accepted t u p q r x s v h = ground arith

  -- What a token that is not the uploader's still asks for changes nothing: its data and its
  -- flush are refused, and its departure is ignored.
  pub stale_uploader_ignored :
      (t : Token) (c : Chunk) (r : Channel) (s : State)
      → uploader_token s ≢ some t
      → (handle ack (Command.upload_data t c r) s ≡ (
        s,
        Effect.answer r (Answer.result (err UploadError.connection_replaced)) ∷ [],
        proceed,
      ))
        × (handle ack (Command.flush_upload t r) s ≡ (
          s,
          Effect.answer r (Answer.result (err UploadError.connection_replaced)) ∷ [],
          proceed,
        ))
        × (handle ack (Command.disconnected t Peer.uploader) s ≡ (s, [], proceed))
  unfolding handle Relay.upload_data Handlers.flush_upload Handlers.disconnected
  stale_uploader_ignored t c r s h = ground arith
