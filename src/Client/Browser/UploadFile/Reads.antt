-- ===== src/Client/Browser/UploadFile/Reads.antt =====
-- What is read of a file of JavaScript, rust-client/glopfile/src/uploader_client/web.rs.
use Prim.Native.String.{String}
use glopfile.Base.{
  ℕ, suc, ◌+◌, ◌<◌, ◌≤◌, ◌≡◌, ◌≢◌, refl, ap, Bytes, List, [], ◌∷◌, ◌++◌, some, Result, ok, err,
  length, take, drop, min, ltb, add_u64, u64_mod, arith, take_all, length-take, append_assoc,
  take-append-drop, All, Bool-cases, inl, inr, ltb_iff, length-drop, sym, ◌∙◌, zero,
}
use glopfile.Client.Decrypted.{Poll}
use glopfile.Client.Browser.UploadFile
use glopfile.Client.Browser.UploadFile.{
  ReadState, PendingRead, Answer, Read, fresh, hand_out, poll_running, poll_read,
}

-- A file of JavaScript with some content, which yields as many bytes of it as it likes, less or more
-- than it is asked for.
unfoldable pub serve : Bytes → Poll (Result String ℕ) → Answer
serve content Poll.pending at len = Poll.pending
serve content (Poll.ready (err e)) at len = Poll.ready (err e)
serve content (Poll.ready (ok n)) at len = Poll.ready (ok (some (take n (drop at content))))

-- How a reader that goes on until it gets nothing ends, if it does.
pub data End : Type 0 where
  more eof panicked : End
  failed : String → End

abbrev pub after_read : Read → Bytes × End → Bytes × End
after_read Read.panicked rest = ([], End.panicked)
after_read (Read.failed e) rest = ([], End.failed e)
after_read Read.waits rest = rest
after_read (Read.filled []) rest = ([], End.eof)
after_read (Read.filled (b ∷ bytes)) rest = ((b ∷ bytes) ++ rest.0, rest.1)

-- Each poll has the size of its buffer and what the file yields.
unfoldable pub read_to_end :
    Bytes → List (ℕ × Poll (Result String ℕ)) → UploadFile.UploadFile → Bytes × End
read_to_end content [] f = ([], End.more)
read_to_end content ((size, yields) ∷ polls) f =
    let (read, g) = poll_read size (serve content yields) f in
    after_read read (read_to_end content polls g)

cut : (n : ℕ) (bytes rest : Bytes) → bytes ++ rest ≡ take n bytes ++ (drop n bytes ++ rest)
cut n bytes rest =
    sym (ap (λ (b : Bytes). b ++ rest) (take-append-drop n bytes))
    ∙ append_assoc (take n bytes) (drop n bytes) rest

abbrev no_bytes : Bytes
no_bytes = []

take_nothing : (n : ℕ) (bytes : Bytes) → 0 < n → take n bytes ≡ [] → bytes ≡ []
take_nothing zero bytes p e = absurd (omega arith)
take_nothing (suc n) [] p e = refl
take_nothing (suc n) (x ∷ bytes) p e = cc

drop_nil : (n : ℕ) → drop n no_bytes ≡ no_bytes
drop_nil zero = refl
drop_nil (suc n) = refl

drop-add : (a b : ℕ) (bytes : Bytes) → drop b (drop a bytes) ≡ drop (a + b) bytes
drop-add zero b bytes = let same : b ≡ 0 + b = omega arith in ap (λ (k : ℕ). drop k bytes) same
drop-add (suc a) b [] =
    let next : suc (a + b) ≡ suc a + b = omega arith in
    drop_nil b ∙ ap (λ (k : ℕ). drop k no_bytes) next
drop-add (suc a) b (x ∷ bytes) =
    let next : suc (a + b) ≡ suc a + b = omega arith in
    drop-add a b bytes ∙ ap (λ (k : ℕ). drop k (x ∷ bytes)) next

resume : (n : ℕ) (bytes : Bytes) → bytes ≡ take n bytes ++ drop (length (take n bytes)) bytes
resume zero bytes = refl
resume (suc n) [] = refl
resume (suc n) (x ∷ bytes) = ap (◌∷◌ x) (resume n bytes)

-- What is taken of the rest of a file, with the rest after it.
advance :
    (at n : ℕ) (c : Bytes)
    → drop at c ≡ take n (drop at c) ++ drop (at + length (take n (drop at c))) c
advance at n c =
    resume n (drop at c)
    ∙ ap (λ (b : Bytes). take n (drop at c) ++ b) (drop-add at (length (take n (drop at c))) c)

module _ (content : Bytes) where
  -- What a reader has not got yet: the bytes that wait, and the file from the offset on.
  abbrev waiting : ReadState → Bytes
  waiting (ReadState.available bytes) = bytes
  waiting _ = []

  abbrev unread : UploadFile.UploadFile → Bytes
  unread f = waiting f.pending_read ++ drop f.offset content

  -- A read goes on from the offset, and bytes that wait are not nothing.
  abbrev GoesOn : ReadState → ℕ → Type 0
  GoesOn ReadState.idle offset = Unit {0}
  GoesOn (ReadState.reading (PendingRead.running at len)) offset = at ≡ offset
  GoesOn (ReadState.reading PendingRead.spent) offset = ⊥
  GoesOn (ReadState.available bytes) offset = 0 < length bytes

  abbrev IsSound : UploadFile.UploadFile → Type 0
  IsSound f = GoesOn f.pending_read f.offset × (f.offset ≤ length content)

  -- What a poll yields is the next of what was unread, and nothing only if that is nothing.
  abbrev Yields : UploadFile.UploadFile → Read → UploadFile.UploadFile → Type 0
  Yields f Read.panicked g = ⊥
  Yields f (Read.failed e) g = Unit {0}
  Yields f Read.waits g = (unread g ≡ unread f) × IsSound g
  Yields f (Read.filled bytes) g =
      (unread f ≡ bytes ++ unread g) × IsSound g × (bytes ≡ [] → unread f ≡ [])

  hand_out-Yields :
      (size offset : ℕ) (bytes : Bytes) (f : UploadFile.UploadFile)
      → 0 < size
      → offset ≤ length content
      → unread f ≡ bytes ++ drop offset content
      → (bytes ≡ [] → unread f ≡ [])
      → Yields f (hand_out size bytes offset).0 (hand_out size bytes offset).1
  unfolding hand_out
  hand_out-Yields size offset bytes f pos h e n = elim (Bool-cases (ltb size (length bytes))) [
    | inl held ↦
        let all : min (length bytes) size ≡ size = ground arith in
        rw (held, all)
          (
            e ∙ cut size bytes (drop offset content),
            (omega (arith, length-drop size bytes, (ltb_iff size (length bytes)).0 held), h),
            λ empty. n (take_nothing size bytes pos empty),
          )
    | inr whole ↦
        let all : take (min (length bytes) size) bytes ≡ bytes =
          take_all (min (length bytes) size) bytes (ground arith) in
        rw (whole, all) (e, (tt, h), n)
  ]

  abbrev pub GivesSome : Poll (Result String ℕ) → Type 0
  GivesSome (Poll.ready (ok n)) = 0 < n
  GivesSome _ = Unit {0}

  module _ (fits : length content < u64_mod) where
    poll_running-Yields :
        (size len : ℕ) (y : Poll (Result String ℕ)) (f : UploadFile.UploadFile)
        → 0 < size
        → GivesSome y
        → f.offset ≤ length content
        → unread f ≡ drop f.offset content
        → Yields f
            (poll_running size (serve content y) f.offset len f.offset).0
            (poll_running size (serve content y) f.offset len f.offset).1
    unfolding poll_running serve
    poll_running-Yields size len Poll.pending f p some_ h e = (sym e, (refl, h))
    poll_running-Yields size len (Poll.ready (err m)) f p some_ h e = tt
    poll_running-Yields size len (Poll.ready (ok n)) f p some_ h e =
        let bytes = take n (drop f.offset content) in
        let sum : add_u64 f.offset (length bytes) ≡ f.offset + length bytes =
          omega (arith, length-take n (drop f.offset content), length-drop f.offset content) in
        let next : f.offset + length bytes ≤ length content =
          omega (arith, length-take n (drop f.offset content), length-drop f.offset content) in
        rw sum (
          hand_out-Yields size (f.offset + length bytes) bytes f p next
            (e ∙ advance f.offset n content)
            (λ empty. e ∙ take_nothing n (drop f.offset content) some_ empty))

    poll_read-Yields :
        (size : ℕ) (y : Poll (Result String ℕ)) (s : ReadState) (offset : ℕ)
        → 0 < size
        → GivesSome y
        → let f : UploadFile.UploadFile = record { offset = offset; pending_read = s } in
          IsSound f
          → Yields f (poll_read size (serve content y) f).0 (poll_read size (serve content y) f).1
    unfolding poll_read
    poll_read-Yields size y ReadState.idle offset p q h =
        poll_running-Yields size size y (record { offset = offset; pending_read = ReadState.idle })
          p q h.1 refl
    poll_read-Yields size y (ReadState.reading (PendingRead.running at len)) offset p q h = rw h.0 (
        poll_running-Yields size len y
          (record {
            offset = offset;
            pending_read = ReadState.reading (PendingRead.running offset len);
          })
          p q h.1 refl)
    poll_read-Yields size y (ReadState.reading PendingRead.spent) offset p q h = h.0
    poll_read-Yields size y (ReadState.available bytes) offset p q h =
        hand_out-Yields size offset bytes
          (record { offset = offset; pending_read = ReadState.available bytes }) p h.1 refl
          (λ empty. let lengths : length bytes ≡ 0 = ap length empty in absurd (omega (arith, h.0)))

    abbrev IsFair : ℕ × Poll (Result String ℕ) → Type 0
    IsFair p = (0 < p.0) × GivesSome p.1

    -- What was read, and what is left, make up what was unread.
    abbrev Reaches : UploadFile.UploadFile → Bytes × End → Type 0
    Reaches f r =
        (rest : Bytes) × (unread f ≡ r.0 ++ rest)
        × (r.1 ≡ End.eof → rest ≡ [])
        × (r.1 ≢ End.panicked)

    after_read-Reaches :
        (f g : UploadFile.UploadFile) (read : Read) (r : Bytes × End)
        → Yields f read g
        → (IsSound g → Reaches g r)
        → Reaches f (after_read read r)
    after_read-Reaches f g Read.panicked r y later = absurd y
    after_read-Reaches f g (Read.failed e) r y later = (unread f, refl, λ e. cc, λ e. cc)
    after_read-Reaches f g Read.waits r y later =
        let (rest, parts, ends, calm) = later y.1 in (rest, sym y.0 ∙ parts, ends, calm)
    after_read-Reaches f g (Read.filled []) r y later = (unread f, refl, λ e. y.2 refl, λ e. cc)
    after_read-Reaches f g (Read.filled (b ∷ bytes)) r y later =
        let (rest, parts, ends, calm) = later y.1 in
        (
          rest,
          y.0
              ∙ ap (λ (u : Bytes). (b ∷ bytes) ++ u) parts
              ∙ sym (append_assoc (b ∷ bytes) r.0 rest),
          ends,
          calm,
        )

    read_to_end-Reaches :
        (polls : List (ℕ × Poll (Result String ℕ))) (f : UploadFile.UploadFile)
        → All IsFair polls
        → IsSound f
        → Reaches f (read_to_end content polls f)
    unfolding read_to_end
    read_to_end-Reaches [] f fair h = (unread f, refl, λ e. cc, λ e. cc)
    read_to_end-Reaches ((size, y) ∷ polls) f fair h =
        let step = poll_read size (serve content y) f in
        after_read-Reaches f step.1 step.0 (read_to_end content polls step.1)
          (poll_read-Yields size y f.pending_read f.offset fair.0.0 fair.0.1 h)
          (read_to_end-Reaches polls step.1 fair.1)

  -- Reading never panics; what it got is the begin of the content, and all of it if it met the end; if
  -- each buffer has room, each piece that the file yields has a byte, and the content less than 2 ^ 64.
  pub reads_in_order :
      (polls : List (ℕ × Poll (Result String ℕ)))
      → length content < u64_mod
      → All (λ p. (0 < p.0) × GivesSome p.1) polls
      → (rest : Bytes) × (content ≡ (read_to_end content polls fresh).0 ++ rest)
        × ((read_to_end content polls fresh).1 ≡ End.eof → rest ≡ [])
        × ((read_to_end content polls fresh).1 ≢ End.panicked)
  reads_in_order polls fits fair = read_to_end-Reaches fits polls fresh fair (tt, omega arith)
