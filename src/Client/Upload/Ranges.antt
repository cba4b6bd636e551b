-- ===== src/Client/Upload/Ranges.antt =====
-- The requests of `upload_file` of rust-client/glopfile/src/api_client.rs, whatever the relay answers.
use glopfile.Base.{
  ℕ, ◌≤◌, ◌<◌, ◌≡◌, ◌≢◌, refl, ◌⊎◌, inl, inr, Bytes, List, [], ◌∷◌, Option, some, Bool, false,
  Result, ok, err, arith, length, drop, All, All-append, Bool-cases, ltb, ◌==◌, u64_mod,
}
use glopfile.Range.{upload_position}
use glopfile.Range.RoundTrip.{upload_offset_understood}
use glopfile.Client.Errors.{Error, retry_from, is_retried}
use glopfile.Client.Upload.{
  UploadResponse, Reply, Request, Next, Round, Exchange, UploadEnd, upload_round, upload_file,
  tries_again, resume_at, decide, started, follow, allowed, too_far, next_of, read_conflict,
  conflict,
}

-- A request whose body is the file from the position on that its header tells the relay.
abbrev pub IsSuffix : Bytes → Request → Type 0
IsSuffix file (Request.start position) = position ≤ length file
IsSuffix file (Request.content header body) =
    (position : ℕ) × (position ≤ length file)
    × (upload_position (some (some header)) ≡ ok position)
    × (body ≡ drop position file)

next_of_runs : (r : Result Error (Unit {0})) → (next_of r ≡ Next.panicked) → ⊥
next_of_runs (err e) = ground arith
next_of_runs (ok u) = ground arith

module _ (is_success : ℕ → Bool) (is_server_error : ℕ → Option Bool)
    (parse_upload : Bytes → Option UploadResponse) (parse_conflict : Bytes → Option ℕ) where
  abbrev round_of : Bytes → ℕ → Exchange → Round
  round_of = upload_round is_success parse_upload parse_conflict

  -- What a round that starts inside the file leaves behind.
  abbrev IsSound : Bytes → Round → Type 0
  IsSound file r =
      All (IsSuffix file) r.requests
      × ((r.position ≤ length file)
          ⊎ ((e : Error) × (r.next ≡ Next.failed (retry_from e))
              × (is_retried is_server_error (retry_from e) ≡ false)))
      × ((r.next ≡ Next.panicked) → ⊥)

  resume_lem :
      (file : Bytes) (position : ℕ) (requests : List Request) (r : Result Error ℕ)
      → position ≤ length file
      → All (IsSuffix file) requests
      → IsSound file
          (resume_at is_success parse_upload parse_conflict (length file) position requests r)
  unfolding resume_at is_retried
  resume_lem file position requests (err e) h a = ground arith
  resume_lem file position requests (ok new) h a = elim (Bool-cases (ltb (length file) new)) [
    | inl beyond ↦ (a, inr (Error.invalid_peer_message too_far, rw beyond refl, refl), ground arith)
    | inr inside ↦ (a, inl (ground arith), ground arith)
  ]

  decide_lem :
      (file : Bytes) (position : ℕ) (requests : List Request) (reply : Reply)
      → position ≤ length file
      → All (IsSuffix file) requests
      → IsSound file
          (decide is_success parse_upload parse_conflict (length file) position requests reply)
  unfolding decide
  decide_lem file position requests (err e) h a = ground arith
  decide_lem file position requests (ok r) h a = elim (Bool-cases (r.status == conflict)) [
    | inl e ↦ rw e (
        resume_lem file position requests (read_conflict is_success parse_upload parse_conflict r) h
          a)
    | inr e ↦ rw e (a, inl h, next_of_runs _)
  ]

  allowed_lem :
      (file : Bytes) (position : ℕ) (reply : Reply) (r : Result Error (Unit {0}))
      → length file < u64_mod
      → position ≤ length file
      → IsSound file (allowed is_success parse_upload parse_conflict file position reply r)
  unfolding allowed
  allowed_lem file position reply (err e) b h = ((h, tt), inl h, ground arith)
  allowed_lem file position reply (ok u) b h =
      decide_lem file position _ reply h
        (h, ((position, h, upload_offset_understood position (length file) h b, refl), tt))

  started_lem :
      (file : Bytes) (position : ℕ) (reply answer : Reply)
      → length file < u64_mod
      → position ≤ length file
      → IsSound file (started is_success parse_upload parse_conflict file position reply answer)
  unfolding started
  started_lem file position reply (err e) b h = ((h, tt), inl h, ground arith)
  started_lem file position reply (ok r) b h = elim (Bool-cases (is_success r.status)) [
    | inl e ↦ rw e (allowed_lem file position reply _ b h)
    | inr e ↦ rw e (decide_lem file position (Request.start position ∷ []) (ok r) h (h, tt))
  ]

  round_lem :
      (file : Bytes) (position : ℕ) (x : Exchange)
      → length file < u64_mod
      → position ≤ length file
      → IsSound file (round_of file position x)
  unfolding upload_round
  round_lem file position x b h =
      let inside : ltb (length file) position ≡ false = ground arith in
      rw inside (started_lem file position x.content_reply x.start_reply b h)

  abbrev IsSafe : Bytes → List Request × UploadEnd → Type 0
  IsSafe file r = All (IsSuffix file) r.0 × (r.1 ≢ UploadEnd.panicked)

  follow_lem :
      (file : Bytes) (requests : List Request) (n : Next) (scheduled : Option ℕ)
      (later : List Request × UploadEnd)
      → All (IsSuffix file) requests
      → ((n ≡ Next.panicked) → ⊥)
      → (IsSafe file later
          ⊎ ((e : Error) × (n ≡ Next.failed (retry_from e))
              × (is_retried is_server_error (retry_from e) ≡ false)))
      → IsSafe file (follow is_server_error requests n scheduled later)
  unfolding follow tries_again
  follow_lem file requests Next.panicked scheduled later a runs s = absurd (runs refl)
  follow_lem file requests Next.finished scheduled later a runs s = (a, ground arith)
  follow_lem file requests Next.again scheduled later a runs (inl (l, end)) =
      (All-append (IsSuffix file) requests (later.0) a l, end)
  follow_lem file requests Next.again scheduled later a runs (inr (e, n, r)) = ground arith
  follow_lem file requests (Next.failed e) scheduled later a runs (inl (l, end)) =
      elim (Bool-cases (tries_again is_server_error e scheduled)) [
        | inl t ↦ rw t (All-append (IsSuffix file) requests (later.0) a l, end)
        | inr t ↦ rw t (a, ground arith)
      ]
  follow_lem file requests (Next.failed e) scheduled later a runs (inr (cause, n, r)) =
      let same : e ≡ retry_from cause = ground arith in
      let gives_up : tries_again is_server_error e scheduled ≡ false = rw (same, r) refl in
      rw gives_up (a, ground arith)

  -- For a file of less than 2 ^ 64 bytes and an upload that begins inside it, whatever the relay
  -- answers: no round slices the file out of its range, no start request names a position behind
  -- its end, and the body of every content request is the file from just the position on that the
  -- relay reads from its header.
  pub uploads_suffixes :
      (file : Bytes) (position : ℕ) (xs : List Exchange)
      → length file < u64_mod
      → position ≤ length file
      → All
          (IsSuffix file)
          (upload_file is_success is_server_error parse_upload parse_conflict file position xs).0
        × ((upload_file is_success is_server_error parse_upload parse_conflict file position xs).1
            ≢ UploadEnd.panicked)
  unfolding upload_file
  uploads_suffixes file position [] b h = ground arith
  uploads_suffixes file position (x ∷ xs) b h =
      let sound = round_lem file position x b h in
      follow_lem file _ _ x.scheduled
        (upload_file is_success is_server_error parse_upload parse_conflict file
          (round_of file position x).position xs)
        (sound.0) (sound.2)
        (elim (sound.1) [
          | inl inside ↦ inl (uploads_suffixes file (round_of file position x).position xs b inside)
          | inr cause ↦ inr cause
        ])
