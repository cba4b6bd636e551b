-- ===== src/Client/Progress.antt =====
-- The progress stream of rust-client/glopfile/src/util/progress.rs, and the loops over it in
-- uploader_client/native.rs and downloader_client/native.rs of the same folder. What a poll of the future
-- inside yields, and the states that it sends meanwhile, are arguments.
pub mod Streams
use glopfile.Base.{
  Bool, true, false, List, [], ◌∷◌, ◌++◌, Option, none, some, Result, ok, err, if◌then◌else◌, ℕ,
}
use glopfile.Client.Decrypted.{Poll}

-- `ProgressState<u64>`.
pub record ProgressState : Type 0 where
  pub current : ℕ
  pub total : ℕ

-- A poll of the future: what it sends, whether a sender is left after it, and what it yields.
pub data Turn (E : Type 0) : Type 0 where
  turn :
      (sent : List ProgressState)
      → (has_sender : Bool) → (output : Poll (Result E (Unit {0}))) → Turn E

-- The receiver of the channel, by what is in it and whether a sender is left.
abbrev pub poll_receiver :
    List ProgressState → Bool → Poll (Option ProgressState) × List ProgressState
poll_receiver (p ∷ queue) has_sender = (Poll.ready (some p), queue)
poll_receiver [] true = (Poll.pending, [])
poll_receiver [] false = (Poll.ready none, [])

-- The states that were handed to the progress function, and the result, if there is one yet.
abbrev pub Shown : Type 0 → Type 0
Shown E = List ProgressState × Option (Result E (Unit {0}))

module _ {E : Type 0} where
  -- `Ok(next).transpose()`.
  abbrev transposed : Poll (Option ProgressState) → Poll (Option (Result E ProgressState))
  transposed (Poll.ready (some p)) = Poll.ready (some (ok p))
  transposed (Poll.ready none) = Poll.ready none
  transposed Poll.pending = Poll.pending

  -- `Progress::poll_next`, with what is in the channel before the future is polled.
  unfoldable pub poll_next :
      Turn E → List ProgressState → Poll (Option (Result E ProgressState)) × List ProgressState
  poll_next (Turn.turn sent b (Poll.ready (ok _))) queue = (Poll.ready none, queue ++ sent)
  poll_next (Turn.turn sent b (Poll.ready (err e))) queue =
      (Poll.ready (some (err e)), queue ++ sent)
  poll_next (Turn.turn sent b Poll.pending) queue =
      let (next, left) = poll_receiver (queue ++ sent) b in (transposed next, left)

  abbrev pub after_poll : Poll (Option (Result E ProgressState)) → Shown E → Shown E
  after_poll Poll.pending rest = rest
  after_poll (Poll.ready none) rest = ([], some (ok tt))
  after_poll (Poll.ready (some (err e))) rest = ([], some (err e))
  after_poll (Poll.ready (some (ok p))) rest = (p ∷ rest.0, rest.1)

  -- The loop of `upload_provisioned_file` and `download`.
  unfoldable pub drive : List (Turn E) → List ProgressState → Shown E
  unfolding poll_next
  drive [] queue = ([], none)
  drive (t ∷ turns) queue =
      let (next, left) = poll_next t queue in let rest = drive turns left in after_poll next rest
