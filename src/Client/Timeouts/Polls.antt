-- ===== src/Client/Timeouts/Polls.antt =====
-- What decides a future with a timeout of rust-client/glopfile/src/util/timeout.rs.
use glopfile.Base.{
  ℕ, zero, suc, ◌≡◌, refl, List, [], ◌∷◌, ◌++◌, replicate, Option, none, some, true, false, Result,
  ok, err,
}
use glopfile.Client.Decrypted.{Poll}
use glopfile.Client.Timeouts.{TimeoutError, timed_out, aborted, Timer, await_abortable}

module _ {ℓ} {A : Type ℓ} where
  -- The first output of the future inside, whatever its timer does.
  abbrev pub first_output : List (Poll A × Timer) → Option (Result TimeoutError A)
  first_output [] = none
  first_output ((Poll.ready output, timer) ∷ polls) = some (ok output)
  first_output ((Poll.pending, timer) ∷ polls) = first_output polls

  abbrev pub waiting_polls : ℕ → List (Poll A × Timer)
  waiting_polls n = replicate n (Poll.pending, Poll.pending)

  fused_lem : (polls : List (Poll A × Timer)) → await_abortable true polls ≡ first_output polls
  unfolding await_abortable
  fused_lem [] = refl
  fused_lem ((Poll.ready output, timer) ∷ polls) = refl
  fused_lem ((Poll.pending, timer) ∷ polls) = fused_lem polls

  waits_lem :
      (n : ℕ) (polls : List (Poll A × Timer))
      → await_abortable false (waiting_polls n ++ polls) ≡ await_abortable false polls
  unfolding await_abortable
  waits_lem zero polls = refl
  waits_lem (suc n) polls = waits_lem n polls

  -- After any number of polls that find nothing: an output of the future is taken, also if the timer is
  -- ready at the same poll; without an output the timer ends the wait with a timeout; and once the
  -- timer was aborted there is no timeout any more, and the first output after that is taken.
  pub abortable_timeout_decides :
      (n : ℕ) (output : A) (timer : Timer) (after : List (Poll A × Timer))
      → (await_abortable false (waiting_polls n ++ (Poll.ready output, timer) ∷ after)
          ≡ some (ok output))
        × (await_abortable false (waiting_polls n ++ (Poll.pending, Poll.ready (ok tt)) ∷ after)
            ≡ some (err timed_out))
        × (await_abortable false
              (waiting_polls n ++ (Poll.pending, Poll.ready (err aborted)) ∷ after)
            ≡ first_output after)
  unfolding await_abortable
  abortable_timeout_decides n output timer after = (
    waits_lem n ((Poll.ready output, timer) ∷ after),
    waits_lem n ((Poll.pending, Poll.ready (ok tt)) ∷ after),
    rw (waits_lem n ((Poll.pending, Poll.ready (err aborted)) ∷ after)) (fused_lem after),
  )
