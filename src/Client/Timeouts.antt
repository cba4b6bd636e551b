-- ===== src/Client/Timeouts.antt =====
-- The futures with a timeout of rust-client/glopfile/src/util/timeout.rs, as what each poll makes of
-- the polls of the future and of the timer inside. The timer is a `Fuse`, which is pending for ever
-- once it was ready.
pub mod Polls
use glopfile.Base.{List, [], ◌∷◌, Option, none, some, Bool, true, false, Result, ok, err}
use glopfile.Client.Decrypted.{Poll}

pub data TimeoutError : Type 0 where
  timed_out : TimeoutError

-- `Aborted` of the futures library: what an aborted timer is ready with.
pub data Aborted : Type 0 where
  aborted : Aborted

abbrev pub Timer : Type 0
Timer = Poll (Result Aborted (Unit {0}))

module _ {ℓ} {A : Type ℓ} where
  -- `TimeoutFuture::poll`.
  unfoldable pub poll_timeout : Poll A → Poll (Unit {0}) → Poll (Result TimeoutError A)
  poll_timeout (Poll.ready output) timer = Poll.ready (ok output)
  poll_timeout Poll.pending Poll.pending = Poll.pending
  poll_timeout Poll.pending (Poll.ready _) = Poll.ready (err timed_out)

  -- `AbortableTimeoutFuture::poll`, by whether the timer was ready before.
  unfoldable pub poll_abortable : Bool → Poll A → Timer → Poll (Result TimeoutError A) × Bool
  poll_abortable fused (Poll.ready output) timer = (Poll.ready (ok output), fused)
  poll_abortable true Poll.pending timer = (Poll.pending, true)
  poll_abortable false Poll.pending Poll.pending = (Poll.pending, false)
  poll_abortable false Poll.pending (Poll.ready (ok _)) = (Poll.ready (err timed_out), true)
  poll_abortable false Poll.pending (Poll.ready (err _)) = (Poll.pending, true)

  -- The output of the future over its polls, if there is one by their end.
  unfoldable pub await_abortable : Bool → List (Poll A × Timer) → Option (Result TimeoutError A)
  unfolding poll_abortable
  await_abortable fused [] = none
  await_abortable fused ((future, timer) ∷ polls) =
      let (poll, still) = poll_abortable fused future timer in
      let rest = await_abortable still polls in
      elim poll [ Poll.ready output ↦ some output | Poll.pending ↦ rest ]
