-- ===== src/EndToEnd.antt =====
-- A file from its uploader through a session of the relay to its downloader: the sessions of
-- glopfile-relay/src/session.rs, the bodies of download responses of glopfile-relay/src/api.rs, and the
-- client's `download_content` and `encrypt_file` of rust-client/glopfile/src/api_client.rs, composed.
use Prim.Native.String.{String}
use glopfile.Base.{
  ℕ, zero, suc, ◌≤◌, ◌≡◌, refl, sym, ap, ◌∙◌, inl, inr, Bytes, List, [], ◌∷◌, ◌++◌, map, flatten,
  append_assoc, All, drop, Option, none, some, Bool, length, ControlFlow-cases, arith,
}
use glopfile.Session.Types.{Position, Token, Channel, Downloader, State, Command}
use glopfile.Session.Handlers.{new}
use glopfile.Session.Relay
use glopfile.Session.Relay.{handle}
use glopfile.Session.Task.{run, run_proceeds, run_breaks}
use glopfile.Session.Invariant.{new-Inv}
use glopfile.Session.Delivery.{offset_on, IsFresh, Faithful, Agrees}
use glopfile.Session.Delivery.Steps.{handle-Faithful}
use glopfile.Session.Delivery.Run.{IsHonestRun}
use glopfile.Api.Downloads.{stream, events_on}
use glopfile.Api.Downloads.Bodies.{body-Agrees}
use glopfile.Client.Cipher.{Cipher, nonce_size}
use glopfile.Client.Errors.{Error}
use glopfile.Client.Decrypted.{IoError, fresh}
use glopfile.Client.RelayDownload.{Exchange, End, download_content}
use glopfile.Client.RelayDownload.Resuming.{IsServing, bytes_of}
use glopfile.Client.RelayDownload.Encrypted.{
  decrypt_content, encrypt_file, relayed_download_is_upload,
}

-- The byte of a content at a position, and what is taken to stand beyond its end.
abbrev pub byte_at : ℕ → Bytes → Position → ℕ
byte_at beyond [] p = beyond
byte_at beyond (c ∷ cs) zero = c
byte_at beyond (c ∷ cs) (suc p) = byte_at beyond cs p

Agrees-tail :
    (beyond c : ℕ) (cs : Bytes) (p : Position) (xs : Bytes)
    → Agrees (byte_at beyond (c ∷ cs)) (suc p) xs
    → Agrees (byte_at beyond cs) p xs
Agrees-tail beyond c cs p [] h = tt
Agrees-tail beyond c cs p (x ∷ xs) h = (h.0, Agrees-tail beyond c cs (suc p) xs h.1)

-- Bytes that agree with a content whatever stands beyond its end do not go beyond it.
agree_prefix :
    (content xs : Bytes)
    → ((beyond : ℕ) → Agrees (byte_at beyond content) 0 xs)
    → (rest : Bytes) × (xs ++ rest ≡ content)
agree_prefix content [] h = (content, refl)
agree_prefix [] (x ∷ xs) h = absurd (omega (arith, (h 0).0, (h 1).0))
agree_prefix (c ∷ cs) (x ∷ xs) h =
    let (rest, e) = agree_prefix cs xs (λ beyond. Agrees-tail beyond c cs 0 xs (h beyond).1) in
    (rest, rw ((h 0).0, e) refl)

agree_drop :
    (content : Bytes) (p : Position) (xs : Bytes)
    → p ≤ length content
    → ((beyond : ℕ) → Agrees (byte_at beyond content) p xs)
    → (rest : Bytes) × (xs ++ rest ≡ drop p content)
agree_drop content zero xs l h = agree_prefix content xs h
agree_drop [] (suc p) xs l h = absurd (omega (arith, l))
agree_drop (c ∷ cs) (suc p) xs l h =
    agree_drop cs p xs (omega (arith, l)) (λ beyond. Agrees-tail beyond c cs p xs (h beyond))

-- An attempt of a downloader: the session when its request comes, with the commands that led to it; the
-- token and the channels of the request; the commands that come after it, and what the client meets,
-- both by the offset that it asks for.
pub record Visit : Type 0 where
  pub before : List Command
  pub session : State
  pub token : Token
  pub events : Channel
  pub reply : Channel
  pub commands : ℕ → List Command
  pub exchange : ℕ → Exchange

module _ (ack : Position → Bytes) (id : Bytes) (metadata : String) where
  abbrev pub request : Visit → ℕ → Downloader
  request v at = record { token = v.token; position = at; events = v.events }

  -- The body of the response to the request.
  abbrev pub body : Visit → ℕ → Bytes
  body v at =
      flatten
        (stream (
          events_on v.events
            (run ack (Command.start_download (request v at) v.reply ∷ v.commands at)
              v.session).1)).0

  module _ (content : Bytes) where
    -- The commands are those of honest uploaders: each one that is connected sends the content, from
    -- where it is on and not beyond its end.
    abbrev pub IsUpload : List Command → State → Type 0
    IsUpload cs s = (beyond : ℕ) → IsHonestRun (byte_at beyond content) ack cs s

    -- The session was created for the file and is still there; its uploaders were honest and are, the
    -- channel of the request is its own, and of the body of the response, some of the beginning arrives,
    -- in pieces of any size.
    pub record IsVisit (v : Visit) : Type 0 where
      pub lives : (run ack v.before (new id metadata)).0 ≡ some v.session
      pub uploaded : IsUpload v.before (new id metadata)
      pub unused : offset_on v.events v.session.downloader ≡ none
      pub uploading :
          (at : ℕ)
          → at ≤ length content
          → IsUpload (v.commands at) (Relay.start_download ack (request v at) v.session).0
      pub own : (at : ℕ) → at ≤ length content → All (IsFresh v.events) (v.commands at)
      pub arrives :
          (at : ℕ)
          → at ≤ length content
          → (lost : Bytes) × (bytes_of (v.exchange at).stream ++ lost ≡ body v at)

    run-Faithful :
        (beyond : ℕ) (cs : List Command) (s t : State)
        → Faithful (byte_at beyond content) s
        → IsHonestRun (byte_at beyond content) ack cs s
        → (run ack cs s).0 ≡ some t
        → Faithful (byte_at beyond content) t
    unfolding run
    run-Faithful beyond [] s t f h e = let e' : s ≡ t = ground (e, arith) in rw (← e') f
    run-Faithful beyond (c ∷ cs) s t f h e =
        let (u, fx, flow) = handle ack c s in
        elim (ControlFlow-cases flow) [
          | inl p ↦
              run-Faithful beyond cs u t (handle-Faithful (byte_at beyond content) ack 0 c s f h.0)
                h.1 (sym (ap (λ r. r.0) (run_proceeds ack c cs s p)) ∙ e)
          | inr (b, p) ↦ absurd (ground (arith, sym (ap (λ r. r.0) (run_breaks ack c cs s p)) ∙ e))
        ]

    new-Faithful : (beyond : ℕ) → Faithful (byte_at beyond content) (new id metadata)
    new-Faithful beyond = record { inv = new-Inv id metadata; queue = tt }

    -- The body of the response to a visit is the content from the offset on, as far as it comes.
    body_lem :
        (v : Visit) (at : ℕ)
        → IsVisit v
        → at ≤ length content
        → (rest : Bytes) × (body v at ++ rest ≡ drop at content)
    body_lem v at i l = agree_drop content at (body v at) l (λ beyond.
        body-Agrees (byte_at beyond content) ack (request v at) v.reply (v.commands at) v.session
          (run-Faithful beyond v.before (new id metadata) v.session (new-Faithful beyond)
            (i.uploaded beyond) i.lives)
          (i.uploading at l beyond) i.unused (i.own at l))

    visit-IsServing : (v : Visit) → IsVisit v → IsServing content v.exchange
    visit-IsServing v i at l =
        let (lost, e) = i.arrives at l in
        let (rest, f) = body_lem v at i l in
        (
          lost ++ rest,
          sym (append_assoc (bytes_of (v.exchange at).stream) lost rest)
              ∙ (ap (λ b. b ++ rest) e ∙ f),
        )

    visits-IsServing :
        (vs : List Visit) → All IsVisit vs → All (IsServing content) (map (λ v. v.exchange) vs)
    visits-IsServing [] a = tt
    visits-IsServing (v ∷ vs) (i, a) = (visit-IsServing v i, visits-IsServing vs a)

  module _ (cipher : Cipher) (describe : Error → IoError) where
    -- A file that was encrypted, uploaded to a session of the relay, and downloaded from it: a download
    -- that ends well has written just the file, once. The session may have taken any commands since it
    -- was created, and may take any commands between and after the requests of the download: uploaders
    -- and downloaders that come, go and are replaced, uploads that start over. Each uploader, while it is
    -- connected, sends the encrypted content from where it is and not beyond its end; each request of the
    -- download has a channel of its own, and meets the session still there; of the body of a response,
    -- some of the beginning arrives, in any pieces, before it ends, breaks off or stalls. The nonces have
    -- 12 bytes, and the downloader expects as many bytes as the encrypted content has.
    pub download_of_upload :
        (is_success : ℕ → Bool) (is_server_error : ℕ → Option Bool) {Url : Type 0}
        (url : Option Url) (size : ℕ) (filler nonce : Bytes) (pieces : List Bytes) (vs : List Visit)
        → length filler ≡ nonce_size
        → length nonce ≡ nonce_size
        → All (IsVisit (encrypt_file cipher describe filler nonce pieces)) vs
        → (download_content is_success is_server_error
            (decrypt_content cipher describe)
            (length (encrypt_file cipher describe filler nonce pieces))
            url
            size
            (map (λ v. v.exchange) vs)
            fresh).end
          ≡ End.finished
        → (download_content is_success is_server_error
            (decrypt_content cipher describe)
            (length (encrypt_file cipher describe filler nonce pieces))
            url
            size
            (map (λ v. v.exchange) vs)
            fresh).written
          ≡ flatten pieces ∷ []
    download_of_upload is_success is_server_error url size filler nonce pieces vs f n a q =
        relayed_download_is_upload cipher describe is_success is_server_error url size filler nonce
          pieces (map (λ v. v.exchange) vs) f n
          (visits-IsServing (encrypt_file cipher describe filler nonce pieces) vs a) q
