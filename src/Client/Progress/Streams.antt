-- ===== src/Client/Progress/Streams.antt =====
-- What a caller learns from a progress stream, rust-client/glopfile/src/util/progress.rs.
use glopfile.Base.{
  ℕ, zero, suc, ◌≤◌, length, replicate, append-nil, arith, ◌≡◌, refl, sym, ap, ◌∙◌, Bool, true,
  false, List, [], ◌∷◌, ◌++◌, Option, none, some, Result, ok, err, append_assoc, All,
}
use glopfile.Client.Decrypted.{Poll}
use glopfile.Client.Progress.{ProgressState, Turn, Shown, drive}

module _ {E : Type 0} where
  -- All that the future sends.
  unfoldable pub all_sent : List (Turn E) → List ProgressState
  all_sent [] = []
  all_sent (Turn.turn sent b output ∷ turns) = sent ++ all_sent turns

  -- What waiting for the future itself yields.
  unfoldable pub await : List (Turn E) → Option (Result E (Unit {0}))
  await [] = none
  await (Turn.turn sent b (Poll.ready r) ∷ turns) = some r
  await (Turn.turn sent b Poll.pending ∷ turns) = await turns

  -- A future that waits still has a sender.
  abbrev pub KeepsSender : Turn E → Type 0
  KeepsSender (Turn.turn sent b Poll.pending) = b ≡ true
  KeepsSender _ = Unit {0}

  abbrev Follows : List ProgressState → List (Turn E) → Shown E → Type 0
  Follows queue turns r =
      (All KeepsSender turns → r.1 ≡ await turns)
      × ((lost : List ProgressState) × (queue ++ all_sent turns ≡ r.0 ++ lost))

  -- A poll at which the future waits, by what is in the channel then.
  waits-Follows :
      (queue sent joined : List ProgressState) (b : Bool) (turns : List (Turn E))
      → queue ++ sent ≡ joined
      → ((left : List ProgressState) → Follows left turns (drive turns left))
      → Follows queue
          (Turn.turn sent b Poll.pending ∷ turns)
          (drive (Turn.turn sent b Poll.pending ∷ turns) queue)
  unfolding drive all_sent await
  waits-Follows queue sent (p ∷ left) b turns e later =
      let rest = later left in
      rw e (
        λ k. rest.0 k.1,
        (
          rest.1.0,
          sym (append_assoc queue sent (all_sent turns))
              ∙ ap (λ (q : List ProgressState). q ++ all_sent turns) e
              ∙ ap (◌∷◌ p) rest.1.1,
        ),
      )
  waits-Follows queue sent [] true turns e later =
      let rest = later [] in
      rw e (
        λ k. rest.0 k.1,
        (
          rest.1.0,
          sym (append_assoc queue sent (all_sent turns))
              ∙ ap (λ (q : List ProgressState). q ++ all_sent turns) e
              ∙ rest.1.1,
        ),
      )
  waits-Follows queue sent [] false turns e later =
      rw e (λ k. cc (k.0), (queue ++ (sent ++ all_sent turns), refl))

  drive-Follows :
      (turns : List (Turn E)) (queue : List ProgressState) → Follows queue turns (drive turns queue)
  unfolding drive all_sent await
  drive-Follows [] queue = (λ k. refl, (queue ++ [], refl))
  drive-Follows (Turn.turn sent b Poll.pending ∷ turns) queue =
      waits-Follows queue sent (queue ++ sent) b turns refl (drive-Follows turns)
  drive-Follows (Turn.turn sent b (Poll.ready (ok u)) ∷ turns) queue =
      (λ k. refl, (queue ++ (sent ++ all_sent turns), refl))
  drive-Follows (Turn.turn sent b (Poll.ready (err e)) ∷ turns) queue =
      (λ k. refl, (queue ++ (sent ++ all_sent turns), refl))

  -- A turn at which the future sends nothing and waits, and one at which it waits.
  abbrev pub quiet : Turn E
  quiet = Turn.turn [] true Poll.pending

  abbrev pub Waits : Turn E → Type 0
  Waits (Turn.turn sent b Poll.pending) = b ≡ true
  Waits (Turn.turn sent b (Poll.ready r)) = ⊥

  -- What is in the channel is shown, before what comes later.
  abbrev Shows : List ProgressState → List (Turn E) → Shown E → Type 0
  Shows queue rest r = r ≡ (queue ++ (drive rest []).0, (drive rest []).1)

  quiet-Shows :
      (n : ℕ) (queue : List ProgressState) (rest : List (Turn E))
      → length queue ≤ n
      → Shows queue rest (drive (replicate n quiet ++ rest) queue)
  unfolding drive
  quiet-Shows zero [] rest l = refl
  quiet-Shows zero (p ∷ queue) rest l = absurd (omega (arith, l))
  quiet-Shows (suc n) [] rest l = quiet-Shows n [] rest (omega arith)
  quiet-Shows (suc n) (p ∷ queue) rest l =
      rw (append-nil queue, quiet-Shows n queue rest (omega (arith, l))) refl

  waiting-Shows :
      (waits : List (Turn E)) (queue : List ProgressState) (n : ℕ) (rest : List (Turn E))
      → All Waits waits
      → length (queue ++ all_sent waits) ≤ n
      → Shows (queue ++ all_sent waits) rest (drive (waits ++ (replicate n quiet ++ rest)) queue)
  unfolding drive all_sent
  waiting-Shows [] queue n rest k l =
      rw (append-nil queue) (quiet-Shows n queue rest (rw (append-nil queue) at l))
  waiting-Shows (Turn.turn sent b (Poll.ready r) ∷ waits) queue n rest (k, ks) l = absurd k
  waiting-Shows (Turn.turn sent b Poll.pending ∷ waits) queue n rest (k, ks) l =
      rw k (joined_lem (λ left. waiting-Shows waits left n rest ks) (queue ++ sent) refl)
    where
      joined_lem :
          ((left : List ProgressState)
            → length (left ++ all_sent waits) ≤ n
            → Shows
                (left ++ all_sent waits)
                rest
                (drive (waits ++ (replicate n quiet ++ rest)) left))
          → (joined : List ProgressState) → queue ++ sent ≡ joined
          → Shows (queue ++ (sent ++ all_sent waits)) rest (
              drive
                (Turn.turn sent true Poll.pending ∷ (waits ++ (replicate n quiet ++ rest)))
                queue)
      joined_lem later [] e =
          let assoc = sym (append_assoc queue sent (all_sent waits)) in
          rw (assoc, e) (later [] (rw (assoc, e) at l))
      joined_lem later (p ∷ left) e =
          let assoc = sym (append_assoc queue sent (all_sent waits)) in
          let fits : suc (length (left ++ all_sent waits)) ≤ n = rw (assoc, e) at l in
          rw (assoc, e, later left (omega (arith, fits))) refl

  -- The loop over the stream shows the states that the future sends, each once and in order, and ends when
  -- the future does and as it does: all that is sent in turns at which the future waits is shown, if at
  -- least as many turns follow at which it sends nothing and waits; then, over turns at which the future
  -- keeps a sender as long as it waits, a beginning of what is sent in these is shown, and the result is
  -- the one that waiting for the future itself yields.
  pub drive_follows :
      (waits rest : List (Turn E)) (n : ℕ)
      → All Waits waits
      → All KeepsSender rest
      → length (all_sent waits) ≤ n
      → ((drive (waits ++ (replicate n quiet ++ rest)) []).0 ≡ all_sent waits ++ (drive rest []).0)
        × ((lost : List ProgressState) × (all_sent rest ≡ (drive rest []).0 ++ lost))
        × ((drive (waits ++ (replicate n quiet ++ rest)) []).1 ≡ await rest)
  drive_follows waits rest n w keeps l =
      let f = drive-Follows rest [] in
      let shows = waiting-Shows waits [] n rest w l in
      (ap (λ s. s.0) shows, f.1, ap (λ s. s.1) shows ∙ f.0 keeps)
