-- ===== src/Session/Requests.antt =====
-- The requests to a session of glopfile-relay/src/session.rs: each gets one answer.
use glopfile.Base.{
  ℕ, ◌+◌, ◌≡◌, refl, List, [], ◌∷◌, ◌++◌, Option, none, some, inl, inr, arith, Bytes, map, ◌==◌,
  if◌then◌else◌, ControlFlow-cases,
}
use glopfile.Session.Types.{
  Position, Channel, Frame, Token, Chunk, Direction, WebsocketPeer, Answer, Downloader, State,
  Command, Effect,
}
use glopfile.Session.Handlers
use glopfile.Session.Relay
use glopfile.Session.Relay.{handle}
use glopfile.Session.Task.{run, run_proceeds, run_breaks, drop_all, drop_queue, waiting, carried}

-- How often a channel stands in a list.
abbrev pub times : Channel → List Channel → ℕ
times w [] = 0
times w (c ∷ cs) = (if c == w then 1 else 0) + times w cs

pub times-append :
    (w : Channel) (xs ys : List Channel) → times w (xs ++ ys) ≡ times w xs + times w ys
times-append w [] ys = omega arith
times-append w (x ∷ xs) ys = omega (arith, times-append w xs ys)

-- How often the reply sender of a channel is used up, be it by an answer or by a drop.
unfoldable pub settled : Channel → List Effect → ℕ
settled w [] = 0
settled w (Effect.answer c a ∷ fx) = (if c == w then 1 else 0) + settled w fx
settled w (Effect.drop c ∷ fx) = (if c == w then 1 else 0) + settled w fx
settled w (Effect.event c e ∷ fx) = settled w fx
settled w (Effect.command c m ∷ fx) = settled w fx

settled-append :
    (w : Channel) (xs ys : List Effect) → settled w (xs ++ ys) ≡ settled w xs + settled w ys
unfolding settled
settled-append w [] ys = omega arith
settled-append w (Effect.answer c a ∷ xs) ys = omega (arith, settled-append w xs ys)
settled-append w (Effect.drop c ∷ xs) ys = omega (arith, settled-append w xs ys)
settled-append w (Effect.event c e ∷ xs) ys = settled-append w xs ys
settled-append w (Effect.command c m ∷ xs) ys = settled-append w xs ys

settled-send_to : (w c : Channel) (fs : List Frame) → settled w (map (Handlers.send_to c) fs) ≡ 0
unfolding settled
settled-send_to w c [] = refl
settled-send_to w c (f ∷ fs) = settled-send_to w c fs

settled-replace_websocket :
    (w : Channel) (p : Option WebsocketPeer) → settled w (Handlers.replace_websocket p) ≡ 0
unfolding settled
settled-replace_websocket w none = refl
settled-replace_websocket w (some p) = refl

settled-drop_all : (w : Channel) (ws : List Channel) → settled w (drop_all ws) ≡ times w ws
unfolding settled
settled-drop_all w [] = refl
settled-drop_all w (c ∷ cs) = omega (arith, settled-drop_all w cs)

abbrev pub carried_all : List Command → List Channel
carried_all [] = []
carried_all (c ∷ cs) = carried c ++ carried_all cs

settled-drop_queue :
    (w : Channel) (cs : List Command) → settled w (drop_queue cs) ≡ times w (carried_all cs)
unfolding settled
settled-drop_queue w [] = refl
settled-drop_queue w (c ∷ cs) = omega (
  arith,
  settled-append w (drop_all (carried c)) (drop_queue cs),
  settled-drop_all w (carried c),
  settled-drop_queue w cs,
  times-append w (carried c) (carried_all cs),
)

-- The reply senders that a session which may have stopped still holds.
abbrev pub waiting_of : Option State → List Channel
waiting_of none = []
waiting_of (some s) = waiting s.pending

module _ (ack : Position → Bytes) (w : Channel) where
  -- The reply senders that come in with a command or were waiting are those that are used up or
  -- wait on.
  abbrev Balances : Command → State → State → List Effect → Type 0
  Balances c s t fx =
      times w (carried c) + times w (waiting s.pending) ≡ settled w fx + times w (waiting t.pending)

  start_download-Balances :
      (d : Downloader) (r : Channel) (s : State)
      → times w (waiting s.pending)
        ≡ settled w (Relay.start_download ack d s).1
          + times w (waiting (Relay.start_download ack d s).0.pending)
  unfolding Relay.start_download Handlers.terminate_uploader settled
  start_download-Balances d r s = ground arith

  start_upload-Balances :
      (t : Token) (p : Position) (r : Channel) (s : State)
      → Balances
          (Command.start_upload t p r)
          s
          (Relay.start_upload ack t p r s).0
          (Relay.start_upload ack t p r s).1
  unfolding Relay.start_upload Handlers.terminate_uploader Handlers.check_start_position settled
  start_upload-Balances t p r s = ground arith

  upload_data-Balances :
      (t : Token) (c : Chunk) (r : Channel) (s : State)
      → Balances
          (Command.upload_data t c r)
          s
          (Relay.upload_data ack t c r s).0
          (Relay.upload_data ack t c r s).1
  unfolding Relay.upload_data settled
  upload_data-Balances t c r s = ground arith

  start_websocket-Balances :
      (d : Direction) (p : WebsocketPeer) (s : State)
      → (times w (waiting s.pending) ≡ times w (waiting (Handlers.start_websocket d p s).0.pending))
        × (settled w (Handlers.start_websocket d p s).1 ≡ 0)
  unfolding Handlers.start_websocket settled
  start_websocket-Balances Direction.upload p s = (
    refl,
    omega (
      arith,
      settled-append w (map (Handlers.send_to p.commands) s.uploader_ws_held)
          (Handlers.replace_websocket s.uploader_ws),
      settled-send_to w p.commands s.uploader_ws_held,
      settled-replace_websocket w s.uploader_ws,
    ),
  )
  start_websocket-Balances Direction.download p s = (
    refl,
    omega (
      arith,
      settled-append w (map (Handlers.send_to p.commands) s.downloader_ws_held)
          (Handlers.replace_websocket s.downloader_ws),
      settled-send_to w p.commands s.downloader_ws_held,
      settled-replace_websocket w s.downloader_ws,
    ),
  )

  pub handle-Balances :
      (c : Command) (s : State) → Balances c s (handle ack c s).0 (handle ack c s).1
  unfolding handle settled Handlers.finish_download Handlers.flush_upload
      Handlers.terminate_uploader Handlers.disconnected Handlers.relay_frame
  handle-Balances (Command.start_download d r) s = omega (
    arith,
    start_download-Balances d r s,
    settled-append w (Relay.start_download ack d s).1 (Effect.answer r Answer.done ∷ []),
  )
  handle-Balances (Command.start_upload t p r) s = start_upload-Balances t p r s
  handle-Balances (Command.upload_data t c r) s = upload_data-Balances t c r s
  handle-Balances (Command.start_websocket d p r) s = ground (
    arith,
    start_websocket-Balances d p s,
    settled-append w (Handlers.start_websocket d p s).1 (Effect.answer r Answer.done ∷ []),
  )
  handle-Balances (Command.websocket_data Direction.upload f) s = ground arith
  handle-Balances c s = ground arith

  -- Over any commands at all, every request gets its one outcome or still waits for it, and nothing
  -- else is answered: for each reply channel, as many senders as came with the commands or were
  -- waiting are answered, or dropped, or wait on; when the session has stopped, none waits.
  pub run-Balances :
      (cs : List Command) (s : State)
      → times w (carried_all cs) + times w (waiting s.pending)
        ≡ settled w (run ack cs s).1 + times w (waiting_of (run ack cs s).0)
  unfolding run settled
  run-Balances [] s = refl
  run-Balances (c ∷ cs) s =
      let (t, fx, flow) = handle ack c s in
      let step = handle-Balances c s in
      let carry = times-append w (carried c) (carried_all cs) in
      elim (ControlFlow-cases flow) [
        | inl e ↦
            rw (run_proceeds ack c cs s e)
              (omega (arith, step, carry, run-Balances cs t, settled-append w fx (run ack cs t).1))
        | inr (b, e) ↦ rw (run_breaks ack c cs s e) (
            omega (
              arith,
              step,
              carry,
              settled-append w fx (drop_all (waiting t.pending) ++ drop_queue cs),
              settled-append w (drop_all (waiting t.pending)) (drop_queue cs),
              settled-drop_all w (waiting t.pending),
              settled-drop_queue w cs,
            ))
      ]
