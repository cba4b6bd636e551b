-- ===== src/Client/Decrypted/Laws.antt =====
-- What holds of a `DecryptedFile` of rust-client/glopfile/src/api_client.rs over any calls: its file
-- is written at most once, and only with the plaintext of all the bytes that it expects.
use glopfile.Base.{
  ℕ, ◌≡◌, refl, sym, ap, ◌∙◌, subst, ◌⊎◌, inl, inr, Bytes, List, [], ◌∷◌, ◌++◌, Option, none, some,
  Result, ok, err, arith, length, append_assoc, append-nil, Option-cases,
}
use glopfile.Client.Decrypted.{
  Poll, IoError, WriteState, fresh, offset, poll_write, write_all, poll_flush, poll_close, Flushed,
}

-- Writing to a file that is not complete appends.
pub write_all-unwritten :
    (bytes b : Bytes)
    → write_all bytes (WriteState.unwritten b) ≡ some (WriteState.unwritten (b ++ bytes), ok tt)
unfolding write_all poll_write
write_all-unwritten [] b = rw (append-nil b) refl
write_all-unwritten (x ∷ bytes) b = refl

-- The calls that the transfers make on the file.
pub data Call : Type 0 where
  write : Bytes → Call
  flush close : Poll (Result IoError (Unit {0})) → Call

-- The bytes that the calls bring.
abbrev pub arrived : List Call → Bytes
arrived [] = []
arrived (write buf ∷ cs) = buf ++ arrived cs
arrived (flush o ∷ cs) = arrived cs
arrived (close o ∷ cs) = arrived cs

arrived-cons : (c : Call) (cs : List Call) → arrived (c ∷ cs) ≡ arrived (c ∷ []) ++ arrived cs
arrived-cons (write buf) cs = rw (append-nil buf) refl
arrived-cons (flush o) cs = refl
arrived-cons (close o) cs = refl

abbrev pub to_list : Option Bytes → List Bytes
to_list none = []
to_list (some b) = b ∷ []

module _ (decrypt : Bytes → Result IoError Bytes) (file_size : ℕ) where
  abbrev of_flushed : Option Flushed → Option (WriteState × List Bytes)
  of_flushed none = none
  of_flushed (some f) = some (f.state, to_list f.written)

  pub step : Call → WriteState → Option (WriteState × List Bytes)
  step (write buf) s = elim (poll_write buf s) [ none ↦ none | some (t, r) ↦ some (t, []) ]
  step (flush o) s = of_flushed (poll_flush decrypt file_size o s)
  step (close o) s = of_flushed (poll_close decrypt file_size o s)

  -- What was written to the output file in the course of the calls, unless one panics.
  unfoldable pub use_file : List Call → WriteState → Option (WriteState × List Bytes)
  unfolding step
  use_file [] s = some (s, [])
  use_file (c ∷ cs) s = elim (step c s) [
    | none ↦ none
    | some (t, ws) ↦ elim (use_file cs t) [ none ↦ none | some (u, vs) ↦ some (u, ws ++ vs) ]
  ]

  -- One call, seen from the state that it finds: more bytes arrive, or the write of all the bytes
  -- goes on, fails or is done.
  abbrev pub Finishing : Bytes → WriteState → List Bytes → Type 0
  Finishing b t xs =
      ((t ≡ WriteState.pending b) × (xs ≡ []))
      ⊎ ((t ≡ WriteState.poisoned) × (xs ≡ []))
      ⊎ ((t ≡ WriteState.complete) × ((pt : Bytes) × (decrypt b ≡ ok pt) × (xs ≡ pt ∷ [])))

  abbrev pub StepOf : WriteState → Bytes → WriteState → List Bytes → Type 0
  StepOf (WriteState.unwritten b) buf t xs =
      ((t ≡ WriteState.unwritten (b ++ buf)) × (xs ≡ []))
      ⊎ ((buf ≡ []) × (length b ≡ file_size) × Finishing b t xs)
  StepOf (WriteState.pending b) buf t xs = Finishing b t xs
  StepOf WriteState.complete buf t xs = (t ≡ WriteState.complete) × (xs ≡ [])
  StepOf WriteState.poisoned buf t xs = ⊥

  pub step-StepOf :
      (c : Call) (s : WriteState) {t : WriteState} {xs : List Bytes}
      → step c s ≡ some (t, xs)
      → StepOf s (arrived (c ∷ [])) t xs
  unfolding step poll_write poll_flush poll_close
  step-StepOf (write buf) s h = ground (arith, append-nil buf)
  step-StepOf (flush o) (WriteState.unwritten b) h = ground (arith, append-nil b)
  step-StepOf (flush o) s h = ground arith
  step-StepOf (close o) (WriteState.unwritten b) h = ground (arith, append-nil b)
  step-StepOf (close o) s h = ground arith

  pub use_file-cons :
      (c : Call) (cs : List Call) (s : WriteState) {u : WriteState} {ws : List Bytes}
      → use_file (c ∷ cs) s ≡ some (u, ws)
      → (t : WriteState) × (xs vs : List Bytes) × (step c s ≡ some (t, xs))
        × (use_file cs t ≡ some (u, vs))
        × (ws ≡ xs ++ vs)
  unfolding use_file
  use_file-cons c cs s {u} {ws} h = elim (Option-cases (step c s)) [
    | inl e ↦ absurd (ground arith)
    | inr ((t, xs), e) ↦ elim (Option-cases (use_file cs t)) [
      | inl f ↦ absurd (ground arith)
      | inr ((v, vs), f) ↦ (t, xs, vs, e, ground arith, ground arith)
    ]
  ]

  -- What was written, by the state that the calls began in and the bytes that they brought.
  abbrev Wrote : WriteState → Bytes → List Bytes → Type 0
  Wrote (WriteState.unwritten b) arr ws =
      (ws ≡ [])
      ⊎ ((more rest pt : Bytes) × (arr ≡ more ++ rest)
          × (length (b ++ more) ≡ file_size)
          × (decrypt (b ++ more) ≡ ok pt)
          × (ws ≡ pt ∷ []))
  Wrote (WriteState.pending b) arr ws =
      (ws ≡ []) ⊎ ((pt : Bytes) × (decrypt b ≡ ok pt) × (ws ≡ pt ∷ []))
  Wrote s arr ws = ws ≡ []

  Wrote-Finishing :
      (b arr : Bytes) (t : WriteState) (xs vs : List Bytes)
      → Finishing b t xs
      → Wrote t arr vs
      → (xs ++ vs ≡ []) ⊎ ((pt : Bytes) × (decrypt b ≡ ok pt) × (xs ++ vs ≡ pt ∷ []))
  Wrote-Finishing b arr (WriteState.unwritten c) xs vs f w = absurd (ground arith)
  Wrote-Finishing b arr (WriteState.pending c) xs vs f w = ground arith
  Wrote-Finishing b arr WriteState.complete xs vs f w = ground arith
  Wrote-Finishing b arr WriteState.poisoned xs vs f w = ground arith

  Wrote-step :
      (s t : WriteState) (buf arr : Bytes) (xs vs : List Bytes)
      → StepOf s buf t xs
      → Wrote t arr vs
      → Wrote s (buf ++ arr) (xs ++ vs)
  Wrote-step (WriteState.unwritten b) t buf arr xs vs (inl (e, f)) w =
      elim (subst (λ t. Wrote t arr vs) e w) [
        | inl g ↦ inl (rw (f, g) refl)
        | inr (more, rest, pt, q, n, d, g) ↦ inr (
          buf ++ more,
          rest,
          pt,
          ap (◌++◌ buf) q ∙ sym (append_assoc buf more rest),
          rw (← append_assoc b buf more) n,
          rw (← append_assoc b buf more) d,
          rw f g,
        )
      ]
  Wrote-step (WriteState.unwritten b) t buf arr xs vs (inr (e, n, f)) w =
      elim (Wrote-Finishing b arr t xs vs f w) [
        | inl g ↦ inl g
        | inr (pt, d, g) ↦ inr ([], arr, pt, rw e, rw (append-nil b) n, rw (append-nil b) d, g)
      ]
  Wrote-step (WriteState.pending b) t buf arr xs vs f w = Wrote-Finishing b arr t xs vs f w
  Wrote-step WriteState.complete t buf arr xs vs f w = ground arith
  Wrote-step WriteState.poisoned t buf arr xs vs f w = absurd f

  use_file-Wrote :
      (cs : List Call) (s : WriteState) {u : WriteState} {ws : List Bytes}
      → use_file cs s ≡ some (u, ws)
      → Wrote s (arrived cs) ws
  unfolding use_file
  use_file-Wrote [] (WriteState.unwritten b) h = ground arith
  use_file-Wrote [] s h = ground arith
  use_file-Wrote (c ∷ cs) s h =
      let (t, xs, vs, e, f, g) = use_file-cons c cs s h in
      rw (g, arrived-cons c cs)
        (Wrote-step s t (arrived (c ∷ [])) (arrived cs) xs vs (step-StepOf c s e)
          (use_file-Wrote cs t f))

  -- Whatever is written, flushed and closed without a panic, and whatever the cipher and the
  -- output file answer: the file is written in full at most once, and then with the plaintext of the
  -- first `file_size` bytes that arrived, all of them and in the order in which they arrived.
  pub written_once :
      (cs : List Call) {u : WriteState} {ws : List Bytes}
      → use_file cs fresh ≡ some (u, ws)
      → (ws ≡ [])
        ⊎ ((all rest pt : Bytes) × (arrived cs ≡ all ++ rest)
            × (length all ≡ file_size)
            × (decrypt all ≡ ok pt)
            × (ws ≡ pt ∷ []))
  written_once cs h = use_file-Wrote cs fresh h

  -- After a flush that failed, be it that the bytes do not decrypt or that the file cannot be written,
  -- the file is poisoned: the next look at its offset panics, and so does the next write.
  pub failed_flush_poisons :
      (o : Poll (Result IoError (Unit {0}))) (s : WriteState) (f : Flushed) (e : IoError)
      (buf : Bytes)
      → poll_flush decrypt file_size o s ≡ some f
      → f.result ≡ Poll.ready (err e)
      → (offset file_size f.state ≡ none) × (poll_write buf f.state ≡ none)
  unfolding poll_flush offset poll_write
  failed_flush_poisons o s f e buf h g = ground arith
