-- ===== src/Client/Upload/Completion.antt =====
-- When `upload_file` of rust-client/glopfile/src/api_client.rs reports that the file was uploaded.
use glopfile.Base.{
  ℕ, ◌≡◌, refl, sym, ap, ◌∙◌, ◌⊎◌, inl, inr, Bytes, List, [], ◌∷◌, ◌++◌, Option, some, Bool, true,
  false, Result, ok, err, arith, length, drop, append_assoc, Bool-cases, Option-cases, ltb, ◌==◌,
}
use glopfile.Client.Errors.{Error, response_ok, retry_after}
use Prim.Native.String.{String}
use glopfile.Text.{Text}
use glopfile.Client.Headers.{content_range}
use glopfile.Client.Upload.{
  UploadResponse, HttpResponse, Reply, Request, Next, Exchange, UploadEnd, upload_round,
  upload_file, tries_again, resume_at, decide, started, follow, allowed, next_of, read_conflict,
  conflict, read_upload,
}

-- The two requests of a whole round at a position.
abbrev pub whole_round : Bytes → ℕ → List Request
whole_round file position =
    Request.start position
    ∷ Request.content (content_range position (length file)) (drop position file)
    ∷ []

module _ (is_success : ℕ → Bool) (parse_upload : Bytes → Option UploadResponse) where
  -- A reply with a successful status, whose body says that the request was granted.
  pub record IsGranted (reply : Reply) : Type 0 where
    pub response : HttpResponse
    pub bytes : Bytes
    pub arrived : reply ≡ ok response
    pub successful : is_success response.status ≡ true
    pub received : response.body ≡ ok bytes
    pub granted : parse_upload bytes ≡ some UploadResponse.upload_ok

module _ (is_success : ℕ → Bool) (is_server_error : ℕ → Option Bool)
    (parse_upload : Bytes → Option UploadResponse) (parse_conflict : Bytes → Option ℕ) where
  Result-cases : (r : Result Error Bytes) → ((e : Error) × (r ≡ err e)) ⊎ ((b : Bytes) × (r ≡ ok b))
  Result-cases (err e) = inl (e, refl)
  Result-cases (ok b) = inr (b, refl)

  -- A response that is no success is an error, whatever its header is.
  refused :
      (status : ℕ) (header : Option (Option Text)) (message : String)
      → is_success status ≡ false
      → (e : Error) × (response_ok is_success status header message ≡ err e)
  unfolding response_ok
  refused status header message failure_status = go (retry_after header) refl
    where
      go :
          (delay : Result Error (Option ℕ))
          → retry_after header ≡ delay
          → (e : Error) × (response_ok is_success status header message ≡ err e)
      go (err e) d = (e, rw (failure_status, d) refl)
      go (ok time) d =
          (Error.client_http_error_response message status time, rw (failure_status, d) refl)

  not_finished : (e : Error) → (next_of (err e) ≡ Next.finished) → ⊥
  not_finished e f = ground arith

  finished_next : (r : Result Error (Unit {0})) → next_of r ≡ Next.finished → r ≡ ok tt
  finished_next (ok tt) f = refl
  finished_next (err e) f = absurd (not_finished e f)

  granted_lem :
      (r : HttpResponse) (invalid unsuccessful : String)
      → is_success r.status ≡ true
      → read_upload is_success parse_upload parse_conflict r invalid unsuccessful ≡ ok tt
      → IsGranted is_success parse_upload (ok r)
  unfolding read_upload
  granted_lem r invalid unsuccessful s f = elim (Result-cases r.body) [
    | inl (e, b) ↦ absurd (let wrong = rw b at f in ground (wrong, arith))
    | inr (bytes, b) ↦ elim (Option-cases (parse_upload bytes)) [
      | inl n ↦ absurd (let wrong = rw (b, n) at f in ground (wrong, arith))
      | inr (UploadResponse.error reason, n) ↦
          absurd (let wrong = rw (b, n) at f in ground (wrong, arith))
      | inr (UploadResponse.upload_ok, n) ↦ record {
        response = r;
        bytes = bytes;
        arrived = refl;
        successful = s;
        received = b;
        granted = n;
      }
    ]
  ]

  resume_runs :
      (size position : ℕ) (requests : List Request) (r : Result Error ℕ)
      → ((resume_at is_success parse_upload parse_conflict size position requests r).next
          ≡ Next.finished)
      → ⊥
  unfolding resume_at
  resume_runs size position requests (err e) f = ground arith
  resume_runs size position requests (ok new) f = ground arith

  decide_finished :
      (size position : ℕ) (requests : List Request) (reply : Reply)
      → (decide is_success parse_upload parse_conflict size position requests reply).next
        ≡ Next.finished
      → ((decide is_success parse_upload parse_conflict size position requests reply).requests
          ≡ requests)
        × IsGranted is_success parse_upload reply
  unfolding decide response_ok
  decide_finished size position requests (err e) f = ground arith
  decide_finished size position requests (ok r) f = elim (Bool-cases (r.status == conflict)) [
    | inl e ↦ absurd (
        resume_runs size position requests (read_conflict is_success parse_upload parse_conflict r)
          (rw e at f))
    | inr e ↦ elim (Bool-cases (is_success r.status)) [
      | inl success ↦ rw e (
        refl,
        granted_lem r "Invalid upload response" "failed to upload" success
            (finished_next _ (rw (e, success) at f)),
      )
      | inr failure_status ↦
          let (cause, failure) =
            refused r.status r.retry_after "failed to upload content" failure_status in
          absurd (not_finished cause (rw (e, failure) at f))
    ]
  ]

  allowed_ok :
      (file : Bytes) (position : ℕ) (reply : Reply) (r : Result Error (Unit {0}))
      → (allowed is_success parse_upload parse_conflict file position reply r).next ≡ Next.finished
      → r ≡ ok tt
  unfolding allowed
  allowed_ok file position reply (err e) f = ground arith
  allowed_ok file position reply (ok tt) f = refl

  allowed_finished :
      (file : Bytes) (position : ℕ) (reply : Reply) (r : Result Error (Unit {0}))
      → (allowed is_success parse_upload parse_conflict file position reply r).next ≡ Next.finished
      → ((allowed is_success parse_upload parse_conflict file position reply r).requests
          ≡ whole_round file position)
        × IsGranted is_success parse_upload reply
  unfolding allowed
  allowed_finished file position reply (err e) f = ground arith
  allowed_finished file position reply (ok u) f = decide_finished (length file) position _ reply f

  started_finished :
      (file : Bytes) (position : ℕ) (reply answer : Reply)
      → (started is_success parse_upload parse_conflict file position reply answer).next
        ≡ Next.finished
      → ((started is_success parse_upload parse_conflict file position reply answer).requests
          ≡ whole_round file position)
        × IsGranted is_success parse_upload answer
        × IsGranted is_success parse_upload reply
  unfolding started
  started_finished file position reply (err e) f = ground arith
  started_finished file position reply (ok r) f = elim (Bool-cases (is_success r.status)) [
    | inl success ↦
        let allowing = rw success at f in
        let (whole, granted) = allowed_finished file position reply _ allowing in
        rw success (
          whole,
          granted_lem r "Invalid start upload response" "failed to start upload" success
              (allowed_ok file position reply _ allowing),
          granted,
        )
    | inr failure_status ↦
        let (requests, granted) =
          decide_finished (length file) position (Request.start position ∷ []) (ok r)
            (rw failure_status at f) in
        absurd (ground (arith, failure_status, granted.arrived, granted.successful))
  ]

  follow_finished :
      (requests : List Request) (n : Next) (scheduled : Option ℕ) (later : List Request × UploadEnd)
      → (follow is_server_error requests n scheduled later).1 ≡ UploadEnd.finished
      → ((n ≡ Next.finished) × ((follow is_server_error requests n scheduled later).0 ≡ requests))
        ⊎ ((later.1 ≡ UploadEnd.finished)
            × ((l : List Request × UploadEnd)
                → follow is_server_error requests n scheduled l ≡ (requests ++ l.0, l.1)))
  unfolding follow
  follow_finished requests Next.panicked scheduled later f = ground arith
  follow_finished requests Next.finished scheduled later f = inl (refl, refl)
  follow_finished requests Next.again scheduled later f = inr (f, λ l. refl)
  follow_finished requests (Next.failed e) scheduled later f =
      elim (Bool-cases (tries_again is_server_error e scheduled)) [
        | inl t ↦ inr (rw t at f, λ l. rw t refl)
        | inr t ↦ let wrong = rw t at f in ground arith
      ]

  round_finished :
      (file : Bytes) (position : ℕ) (x : Exchange)
      → (upload_round is_success parse_upload parse_conflict file position x).next ≡ Next.finished
      → ((upload_round is_success parse_upload parse_conflict file position x).requests
          ≡ whole_round file position)
        × IsGranted is_success parse_upload x.start_reply
        × IsGranted is_success parse_upload x.content_reply
  unfolding upload_round
  round_finished file position x f = elim (Bool-cases (ltb (length file) position)) [
    | inl outside ↦ let wrong = rw outside at f in ground arith
    | inr inside ↦
        rw inside (started_finished file position x.content_reply x.start_reply (rw inside at f))
  ]

  -- An upload that reports success ended with one whole round, at the last of the exchanges that it
  -- used: the requests of the exchanges before that one, which did not end it, were followed by the
  -- request to start at a position and by all of the file from there, and both of these were answered
  -- with a successful status and with a body that says that the request was granted.
  pub finished_after_whole_round :
      (file : Bytes) (position : ℕ) (xs : List Exchange)
      → (upload_file is_success is_server_error parse_upload parse_conflict file position xs).1
        ≡ UploadEnd.finished
      → (earlier : List Exchange) × (x : Exchange) × (later : List Exchange) × (last : ℕ) × (xs
          ≡ earlier ++ x ∷ later)
        × ((upload_file is_success is_server_error parse_upload parse_conflict file position
              earlier).1
            ≡ UploadEnd.waiting)
        × ((upload_file is_success is_server_error parse_upload parse_conflict file position xs).0
            ≡ (upload_file is_success is_server_error parse_upload parse_conflict file position
                earlier).0
              ++ whole_round file last)
        × IsGranted is_success parse_upload x.start_reply
        × IsGranted is_success parse_upload x.content_reply
  unfolding upload_file
  finished_after_whole_round file position [] f = ground arith
  finished_after_whole_round file position (x ∷ xs) f =
      let round = upload_round is_success parse_upload parse_conflict file position x in
      elim (follow_finished round.requests round.next x.scheduled _ f) [
        | inl (done, requests) ↦
            let (whole, start, content) = round_finished file position x done in
            ([], x, xs, position, refl, refl, requests ∙ whole, start, content)
        | inr (done, goes) ↦
            let (earlier, y, later, last, all, waits, whole, start, content) =
              finished_after_whole_round file round.position xs done in
            (
              x ∷ earlier,
              y,
              later,
              last,
              ap (◌∷◌ x) all,
              ap (λ o. o.1) (goes _) ∙ waits,
              rw (goes _, goes _)
                  (ap (λ (l : List Request). round.requests ++ l) whole
                    ∙ sym (append_assoc round.requests _ (whole_round file last))),
              start,
              content,
            )
      ]
