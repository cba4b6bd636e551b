-- ===== src/Client/Downloader/Rounds.antt =====
-- When a download of rust-client/glopfile/src/downloader_client.rs uses the relay, and how often it
-- goes back to it.
use glopfile.Base.{
  ℕ, suc, ◌+◌, ◌≤◌, ◌≡◌, ◌≢◌, refl, subst, inl, inr, Bytes, List, [], ◌∷◌, Option, none, some,
  Result, ok, err, proceed, break, Bool, ◌==◌, if◌then◌else◌, Bool-cases, Option-cases, length,
  length-append, arith,
}
use glopfile.Client.Decrypted.{IoError, WriteState, offset}
use glopfile.Client.Decrypted.Laws.{Call, use_file, use_file-cons, step-StepOf, StepOf, arrived}
use glopfile.Client.Downloader.{
  Task, Ends, Select, Round, Download, Progress, calling, ending, retry_or_finish, transfer_round,
  selected, round, rounds, next_round,
}

module _ (decrypt : Bytes → Result IoError Bytes) (total : ℕ) where
  -- The file has come at least that far, by its offset.
  abbrev HasReached : ℕ → Option ℕ → Type 0
  HasReached n none = ⊥
  HasReached n (some m) = n ≤ m

  offset-StepOf :
      (s t : WriteState) (buf : Bytes) (ws : List Bytes) (b : ℕ)
      → StepOf decrypt total s buf t ws
      → offset total t ≡ some b
      → (a : ℕ) × (offset total s ≡ some a) × (a ≤ b)
  unfolding offset
  offset-StepOf (WriteState.unwritten x) t buf ws b h e =
      (length x, refl, ground (arith, length-append x buf))
  offset-StepOf (WriteState.pending x) t buf ws b h e = ground arith
  offset-StepOf WriteState.complete t buf ws b h e = ground arith
  offset-StepOf WriteState.poisoned t buf ws b h e = absurd h

  offset-use_file :
      (cs : List Call) (s u : WriteState) (ws : List Bytes) (b : ℕ)
      → use_file decrypt total cs s ≡ some (u, ws)
      → offset total u ≡ some b
      → (a : ℕ) × (offset total s ≡ some a) × (a ≤ b)
  offset-use_file [] s u ws b h e = unfold use_file in (b, ground arith, omega arith)
  offset-use_file (c ∷ cs) s u ws b h e =
      let (t, xs, vs, f, g, i) = use_file-cons decrypt total c cs s h in
      let (m, k, l) = offset-use_file cs t u vs b g e in
      let (a, j, q) =
        offset-StepOf s t (arrived (c ∷ [])) xs m (step-StepOf decrypt total c s f) k in
      (a, j, omega arith)

  -- The download goes on, and its file has come that much further.
  abbrev Grew : ℕ → WriteState → Progress → Type 0
  Grew n file p =
      (b : ℕ)
      → p.download ≡ Download.retrying
      → offset total p.file ≡ some b
      → (a : ℕ) × (offset total file ≡ some a) × (a + n ≤ b)

  calling-Grew :
      (cs : List Call) (file : WriteState) (m n : ℕ) (f : WriteState → Progress)
      → ((t : WriteState) → Grew n t (f t))
      → Grew n file (calling decrypt total cs file m f)
  calling-Grew cs file m n f g b = elim (Option-cases (use_file decrypt total cs file)) [
    | inl e ↦ rw e (λ q o. absurd (ground (q, arith)))
    | inr ((t, ws), e) ↦ rw e (λ q o.
        let (x, k, l) = g t b q o in
        let (a, j, u) = offset-use_file cs file t ws x e k in (a, j, omega arith))
  ]

  ending-ends :
      (task : Task Ends) (file : WriteState) (m : ℕ)
      → (ending decrypt total task file m).download ≢ Download.retrying
  ending-ends task file m = elim (Option-cases (use_file decrypt total task.calls file)) [
    | inl e ↦ rw e (λ q. ground (q, arith))
    | inr ((t, ws), e) ↦ rw e (λ q. ground (q, arith))
  ]

  ending-Grew :
      (task : Task Ends) (file : WriteState) (m n : ℕ)
      → Grew n file (ending decrypt total task file m)
  ending-Grew task file m n =
      calling-Grew task.calls file m n _ (λ t b q o. absurd (ground (q, arith)))

  retrying_lem :
      (r : Round) (n before : ℕ) (now : Option ℕ) (file : WriteState) (e : Ends)
      → (retry_or_finish decrypt total r n before now file e).download ≡ Download.retrying
      → (m : ℕ) × (now ≡ some m)
        × (m ≢ before)
        × ((retry_or_finish decrypt total r n before now file e).file ≡ file)
  retrying_lem r n before now file (ok _) q = absurd (ground (q, arith))
  retrying_lem r n before none file (err e) q = absurd (ground (q, arith))
  retrying_lem r n before (some now) file (err e) q = elim (Bool-cases (now == before)) [
    | inl p ↦ absurd (
        ending-ends r.relayed_alone file (n + 1) (
          subst
            (λ (u : Bool).
              (if u
                then ending decrypt total r.relayed_alone file (n + 1)
                else record { file = file; relayed = n; download = Download.retrying }).download
              ≡ Download.retrying)
            p q))
    | inr p ↦ (now, refl, ground arith, rw p refl)
  ]

  transfer_round-Grew :
      (r : Round) (n : ℕ) (o : Option ℕ) (file : WriteState)
      → offset total file ≡ o
      → Grew 1 file (transfer_round decrypt total r n o file)
  transfer_round-Grew r n none file w b = λ q e. absurd (ground (q, arith))
  transfer_round-Grew r n (some before) file w b =
      elim (Option-cases (use_file decrypt total r.transfer.calls file)) [
        | inl e ↦ rw e (λ q o. absurd (ground (q, arith)))
        | inr ((t, ws), e) ↦ rw e (λ q o.
            let (m, i, d, f) = retrying_lem r n before (offset total t) t _ q in
            let (a, j, u) = offset-use_file r.transfer.calls file t ws m e i in
            let k : offset total t ≡ some b =
              subst (λ (x : WriteState). offset total x ≡ some b) f o in
            (before, w, ground (arith, d, i, j, u, w, k)))
      ]

  selected-Grew :
      (r : Round) (s : Select) (n : ℕ) (file : WriteState)
      → Grew 1 file (selected decrypt total r s n file)
  selected-Grew r (Select.relay_first e) n file = λ b q o. absurd (ground (q, arith))
  selected-Grew r (Select.connect_first (ok (break _))) n file = λ b q o. absurd (ground (q, arith))
  selected-Grew r (Select.connect_first (err e)) n file = ending-Grew r.relayed file n 1
  selected-Grew r (Select.connect_first (ok proceed)) n file =
      transfer_round-Grew r n (offset total file) file refl

  round-Grew : (r : Round) (n : ℕ) (file : WriteState) → Grew 1 file (round decrypt total r n file)
  unfolding round
  round-Grew r n file =
      calling-Grew r.select.calls file (n + 1) 1 _ (selected-Grew r r.select.result (n + 1))

  next_round-Grew :
      (d : Download) (p : Progress) (file : WriteState) (n : ℕ) (k : WriteState → ℕ → Progress)
      → p.download ≡ d
      → Grew 1 file p
      → ((t : WriteState) (m : ℕ) → Grew n t (k t m))
      → Grew (suc n) file (next_round decrypt total d p k)
  next_round-Grew Download.retrying p file n k w g h b = λ q o.
      let (x, u, l) = h p.file p.relayed b q o in let (a, v, m) = g x w u in (a, v, omega arith)
  next_round-Grew Download.panicked p file n k w g h b = λ q. absurd (ground (q, w, arith))
  next_round-Grew (Download.ended e) p file n k w g h b = λ q. absurd (ground (q, w, arith))

  -- Each round of the loop after which there is another brings the download at least one byte further:
  -- if the loop goes on after some rounds and its file is not poisoned, the offset of its file is beyond
  -- that of the file that they began with by their number at least. So the loop takes no more rounds than the offset can grow by.
  pub rounds_advance :
      (rs : List Round) (file : WriteState) (n : ℕ) (b : ℕ)
      → (rounds decrypt total rs file n).download ≡ Download.retrying
      → offset total (rounds decrypt total rs file n).file ≡ some b
      → (a : ℕ) × (offset total file ≡ some a) × (a + length rs ≤ b)
  unfolding rounds
  rounds_advance [] file n b = λ q o. (b, o, omega arith)
  rounds_advance (r ∷ rs) file n b =
      next_round-Grew _ (round decrypt total r n file) file (length rs) _ refl (round-Grew r n file)
        (λ t m. rounds_advance rs t m) b
