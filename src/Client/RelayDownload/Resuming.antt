-- ===== src/Client/RelayDownload/Resuming.antt =====
-- That the attempts of `download_content` of rust-client/glopfile/src/api_client.rs fit together.
use glopfile.Base.{
  ℕ, ◌≤◌, ◌≡◌, ◌≢◌, ◌⊎◌, refl, sym, ap, subst, ◌∙◌, inl, inr, Bytes, List, [], ◌∷◌, ◌++◌, map,
  append_assoc, append-nil, All, drop, Option, none, some, Bool, false, Bool-cases, Result, ok, err,
  length, length-append, drop-append_length, ◌==◌, if◌then◌else◌, add_u64, arith,
}
use glopfile.Client.Errors.{Error, RetryError, retry_permanent, is_retried, retriability}
use glopfile.Client.Decrypted.{IoError, WriteState, fresh, offset, poll_flush, poll_close}
use glopfile.Client.Decrypted.Laws.{write_all-unwritten}
use glopfile.Client.Upload.{tries_again}
use glopfile.Client.RelayDownload.{
  Item, Exchange, End, Fetched, stops, finish, read_stream, answered, attempt, and_later,
  download_attempts, download_content,
}

-- The bytes of a stream.
abbrev pub bytes_of : List Item → Bytes
bytes_of [] = []
bytes_of (Item.chunk b ∷ items) = b ++ bytes_of items
bytes_of (Item.broken e ∷ items) = []
bytes_of (Item.stalled ∷ items) = []

-- The relay sends the content from the offset that it is asked for, as far as it comes.
abbrev pub IsServing : Bytes → (ℕ → Exchange) → Type 0
IsServing content x =
    (at : ℕ)
    → at ≤ length content
    → (rest : Bytes) × (bytes_of (x at).stream ++ rest ≡ drop at content)

prefix_all :
    (b rest content : Bytes) → b ++ rest ≡ content → length b ≡ length content → b ≡ content
prefix_all b [] content e l = sym (append-nil b) ∙ e
prefix_all b (x ∷ rest) content e l =
    absurd (omega (arith, l, ap length e, length-append b (x ∷ rest)))

module _ (is_success : ℕ → Bool) (is_server_error : ℕ → Option Bool)
    (decrypt : Bytes → Result IoError Bytes) (content : Bytes) where
  -- What has arrived is the beginning of the content.
  abbrev IsBeginning : WriteState → Type 0
  IsBeginning (WriteState.unwritten b) = (rest : Bytes) × (b ++ rest ≡ content)
  IsBeginning _ = ⊥

  -- What the end of an attempt says of the file and of what was written.
  abbrev Fits : End RetryError → WriteState → List Bytes → Type 0
  Fits End.panicked file ws = Unit
  Fits End.waiting file ws = Unit
  Fits End.finished file ws = map ok ws ≡ decrypt content ∷ []
  Fits (End.failed e) file ws =
      (is_retried is_server_error e ≡ false) ⊎ (IsBeginning file × (ws ≡ []))

  abbrev FitsEnd : Fetched RetryError → Type 0
  FitsEnd f = Fits f.end f.file f.written

  permanent_lem : (e : Error) → is_retried is_server_error (retry_permanent e) ≡ false
  unfolding is_retried retriability
  permanent_lem e = refl

  finish_all :
      (outcome : Result IoError (Unit {0})) (b : Bytes)
      → b ≡ content
      → FitsEnd (finish decrypt (length content) outcome (WriteState.unwritten b))
  unfolding finish poll_flush poll_close is_retried retriability
  finish_all outcome b e = ground (arith, e)

  finish_some :
      (outcome : Result IoError (Unit {0})) (b rest : Bytes)
      → b ++ rest ≡ content
      → (length b == length content) ≡ false
      → FitsEnd (finish decrypt (length content) outcome (WriteState.unwritten b))
  unfolding finish poll_flush poll_close is_retried retriability
  finish_some outcome b rest e l = ground (arith, e)

  read_stream-Fits :
      (size at : ℕ) (outcome : Result IoError (Unit {0})) (items : List Item) (rest : Bytes)
      (got : ℕ) (b : Bytes)
      → b ++ (bytes_of items ++ rest) ≡ content
      → FitsEnd
          (read_stream decrypt (length content) size at outcome items got (WriteState.unwritten b))
  unfolding read_stream
  read_stream-Fits size at outcome [] rest got b e =
      elim (Bool-cases (length b == length content)) [
        | inl l ↦ finish_all outcome b (prefix_all b rest content e (ground (arith, l)))
        | inr l ↦ finish_some outcome b rest e l
      ]
  read_stream-Fits size at outcome (Item.broken x ∷ items) rest got b e = inr ((rest, e), refl)
  read_stream-Fits size at outcome (Item.stalled ∷ items) rest got b e = inr ((rest, e), refl)
  read_stream-Fits size at outcome (Item.chunk bytes ∷ items) rest got b e =
      rw (write_all-unwritten bytes b) (
        read_stream-Fits size at outcome items rest (add_u64 got (length bytes)) (b ++ bytes) (
          append_assoc b bytes (bytes_of items ++ rest)
          ∙ ap (◌++◌ b) (sym (append_assoc bytes (bytes_of items) rest))
          ∙ e))

  answered-Fits :
      (r : Result Error (Unit {0})) (b rest : Bytes) (body : Fetched RetryError)
      → b ++ rest ≡ content
      → FitsEnd body
      → FitsEnd (
          answered is_success is_server_error decrypt
            (length content)
            r
            (WriteState.unwritten b)
            body)
  answered-Fits (err e) b rest body h f = inr ((rest, h), refl)
  answered-Fits (ok _) b rest body h f = f

  attempt-Fits :
      (x : ℕ → Exchange) (size : ℕ) (file : WriteState)
      → IsServing content x
      → IsBeginning file
      → FitsEnd (attempt is_success is_server_error decrypt (length content) x size file)
  unfolding attempt offset
  attempt-Fits x size (WriteState.unwritten b) s (rest, e) =
      let (more, m) = s (length b) (omega (arith, ap length e, length-append b rest)) in
      let d : drop (length b) content ≡ rest =
        rw (← e) (drop-append_length b rest (length b) refl) in
      answered-Fits _ b rest _ e (
        read_stream-Fits size (length b) (x (length b)).outcome (x (length b)).stream more 0 b
          (ap (◌++◌ b) (m ∙ d) ∙ e))
  attempt-Fits x size file s h = absurd h

  tries_lem :
      (e : RetryError) (sch : Option ℕ)
      → is_retried is_server_error e ≡ false
      → tries_again is_server_error e sch ≡ false
  unfolding tries_again
  tries_lem e sch p = rw p refl

  ended_lem :
      (e : RetryError) (file : WriteState) (later : Fetched Error)
      → (if false then later else stops file [] (End.failed e.error)).end ≢ End.finished
  ended_lem e file later q = ground (q, arith)

  and_later-Fits :
      (e : End RetryError) (f : Fetched RetryError) (scheduled : Option ℕ)
      (later : WriteState → Fetched Error)
      → Fits e f.file f.written
      → ((t : WriteState)
          → IsBeginning t
          → (later t).end ≡ End.finished
          → map ok (later t).written ≡ decrypt content ∷ [])
      → (and_later is_success is_server_error decrypt (length content) e f scheduled later).end
        ≡ End.finished
      → map ok
          (and_later is_success is_server_error decrypt
            (length content)
            e
            f
            scheduled
            later).written
        ≡ decrypt content ∷ []
  and_later-Fits End.panicked f sch later h k q = absurd (ground (q, arith))
  and_later-Fits End.waiting f sch later h k q = absurd (ground (q, arith))
  and_later-Fits End.finished f sch later h k q = rw (append-nil f.written) h
  and_later-Fits (End.failed e) f sch later (inl p) k q = absurd (
      ended_lem e f.file (later f.file) (
        subst
          (λ (u : Bool).
            (if u then later f.file else stops f.file [] (End.failed e.error)).end ≡ End.finished)
          (tries_lem e sch p) q))
  and_later-Fits (End.failed e) f sch later (inr (p, w)) k q =
      elim (Bool-cases (tries_again is_server_error e sch)) [
        | inl t ↦
            rw (t, w)
              (k f.file p (
                subst
                  (λ (u : Bool).
                    (if u then later f.file else stops f.file [] (End.failed e.error)).end
                    ≡ End.finished)
                  t q))
        | inr t ↦ absurd (
            ended_lem e f.file (later f.file) (
              subst
                (λ (u : Bool).
                  (if u then later f.file else stops f.file [] (End.failed e.error)).end
                  ≡ End.finished)
                t q))
      ]

  attempts-Fits :
      (xs : List (ℕ → Exchange)) (size : ℕ) (file : WriteState)
      → All (IsServing content) xs
      → IsBeginning file
      → (download_attempts is_success is_server_error decrypt (length content) size xs file).end
        ≡ End.finished
      → map ok
          (download_attempts is_success is_server_error decrypt
            (length content)
            size
            xs
            file).written
        ≡ decrypt content ∷ []
  unfolding download_attempts
  attempts-Fits [] size file a h q = absurd (ground (q, arith))
  attempts-Fits (x ∷ xs) size file (a, as') h q =
      let f = attempt is_success is_server_error decrypt (length content) x size file in
      and_later-Fits f.end f _ _ (attempt-Fits x size file a h)
        (λ t p r. attempts-Fits xs size t as' p r) q

  -- A download through the relay that ends well, with a relay that sends the content from each offset
  -- that it is asked for, as far as the stream comes, has written the plaintext of exactly the content,
  -- once, however many of its attempts broke off after how many bytes, stalled, or were refused.
  pub resumed_whole :
      {Url : Type 0} (url : Option Url) (size : ℕ) (xs : List (ℕ → Exchange))
      → All (IsServing content) xs
      → (download_content is_success is_server_error decrypt (length content) url size xs fresh).end
        ≡ End.finished
      → map ok
          (download_content is_success is_server_error decrypt
            (length content)
            url
            size
            xs
            fresh).written
        ≡ decrypt content ∷ []
  unfolding download_content
  resumed_whole none size xs a q = absurd (ground (q, arith))
  resumed_whole (some url) size xs a q = attempts-Fits xs size fresh a (content, refl) q
