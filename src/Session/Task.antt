-- ===== src/Session/Task.antt =====
-- The task of a session in glopfile-relay/src/session.rs: its command loop, and what a caller of
-- `Session` gets back from it.
use glopfile.Base.{
  Bytes, List, [], ◌∷◌, ◌++◌, Option, none, some, err, proceed, break, ◌==◌, if◌then◌else◌, ◌≡◌,
  arith,
}
use glopfile.Session.Types.{
  Position, Channel, UploadError, UploadResult, Pending, State, Command, Answer, Effect,
}
use glopfile.Session.Relay.{handle}

-- The reply sender that a command carries, if it is a request.
abbrev pub carried : Command → List Channel
carried (Command.metadata r) = r ∷ []
carried (Command.start_download d r) = r ∷ []
carried (Command.finish_download r) = r ∷ []
carried (Command.check_start_upload p r) = r ∷ []
carried (Command.start_upload t p r) = r ∷ []
carried (Command.upload_data t c r) = r ∷ []
carried (Command.flush_upload t r) = r ∷ []
carried (Command.start_websocket d p r) = r ∷ []
carried (Command.websocket_data d f) = []
carried (Command.disconnected t p) = []

-- The reply sender that a state holds.
abbrev pub waiting : Pending → List Channel
waiting (Pending.queued c (some w) p n) = w ∷ []
waiting _ = []

abbrev pub drop_all : List Channel → List Effect
drop_all [] = []
drop_all (w ∷ ws) = Effect.drop w ∷ drop_all ws

-- The commands that are left in the queue of a session that stops are dropped with it.
abbrev pub drop_queue : List Command → List Effect
drop_queue [] = []
drop_queue (c ∷ cs) = drop_all (carried c) ++ drop_queue cs

-- `State::run` over the commands that arrive: the state that waits for more, or `none` if the
-- session has stopped, with everything that was sent.
unfoldable pub run : (Position → Bytes) → List Command → State → Option State × List Effect
run encode_ack [] s = (some s, [])
run encode_ack (c ∷ cs) s =
    let (t, fx, flow) = handle encode_ack c s in
    let rest = run encode_ack cs t in
    elim flow [
      | proceed ↦ (rest.0, fx ++ rest.1)
      | break _ ↦ (none, fx ++ (drop_all (waiting t.pending) ++ drop_queue cs))
    ]

-- `Session::request`: the answer that arrives on the channel of a request, if one does.
unfoldable pub response : Channel → List Effect → Option Answer
response r [] = none
response r (Effect.answer c a ∷ fx) = if c == r then some a else response r fx
response r (Effect.drop c ∷ fx) = if c == r then none else response r fx
response r (Effect.event c e ∷ fx) = response r fx
response r (Effect.command c m ∷ fx) = response r fx

-- `unwrap_or(Err(UploadError::NotFound))` in the four upload requests.
unfoldable pub upload_outcome : Option Answer → UploadResult
upload_outcome (some (Answer.result r)) = r
upload_outcome _ = err UploadError.not_found

module _ (encode_ack : Position → Bytes) (c : Command) (cs : List Command) (s : State) where
  pub run_proceeds :
      (handle encode_ack c s).2 ≡ proceed
      → run encode_ack (c ∷ cs) s ≡ (
        (run encode_ack cs (handle encode_ack c s).0).0,
        (handle encode_ack c s).1 ++ (run encode_ack cs (handle encode_ack c s).0).1,
      )
  unfolding run
  run_proceeds e = ground arith

  pub run_breaks :
      {b : Unit {0}}
      → (handle encode_ack c s).2 ≡ break b
      → run encode_ack (c ∷ cs) s ≡ (
        none,
        (handle encode_ack c s).1
            ++ (drop_all (waiting (handle encode_ack c s).0.pending) ++ drop_queue cs),
      )
  unfolding run
  run_breaks e = ground arith
