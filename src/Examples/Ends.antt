-- ===== src/Examples/Ends.antt =====
-- A download of an upload through a session of the relay, at a concrete file.
use glopfile.Base.{
  ℕ, ◌≡◌, refl, sym, subst, inl, inr, Bool, true, false, Bool-cases, All, ◌++◌, ==_iff, Bytes, List,
  [], ◌∷◌, map, take, drop, replicate, length, flatten, Option, none, some, ok, leb, ◌==◌,
  if◌then◌else◌, arith,
}
use glopfile.Session.Types.{Chunk, Peer, State, Command}
use glopfile.Session.Handlers
use glopfile.Session.Handlers.{new, check_start_position, disconnected}
use glopfile.Session.Relay
use glopfile.Session.Relay.{handle}
use glopfile.Session.Task.{run}
use glopfile.Session.Delivery.{offset_on, IsFresh}
use glopfile.Session.Delivery.Run.{IsHonestRun}
use glopfile.Client.RelayDownload.Resuming.{bytes_of}
use glopfile.Api.Downloads.{stream, events_on}
use glopfile.Client.Errors.{
  Error, response_ok, retry_after, is_retried, adjust, retriability, error_retriability,
}
use glopfile.Client.Cipher.{
  nonce_of, tag_of, into_plaintext, from_nonce_and_ciphertext, encrypt, decrypt,
  read_plaintext_to_end,
}
use glopfile.Client.Upload.{HttpResponse, tries_again}
use glopfile.Client.Decrypted.{
  IoError, fresh, offset, poll_write, write_all, poll_flush, poll_close,
}
use glopfile.Client.RelayDownload.{Item, End, finish, read_stream, attempt, download_content}
use glopfile.Client.RelayDownload.Encrypted.{decrypt_content, encrypt_file}
use glopfile.EndToEnd.{byte_at, Visit, IsVisit, IsUpload, download_of_upload}
use glopfile.Examples.Ciphers.{plain}
use glopfile.Examples.Relaying.{ack}

abbrev is_success : ℕ → Bool
is_success status = leb status 299

abbrev is_server_error : ℕ → Option Bool
is_server_error status = some (leb 500 status)

abbrev describe : Error → IoError
describe e = "decrypt"

-- A file that was read in two pieces.
abbrev pieces : List Bytes
pieces = (4 ∷ []) ∷ (5 ∷ 6 ∷ []) ∷ []

abbrev filler : Bytes
filler = replicate 12 0

abbrev nonce : Bytes
nonce = replicate 12 1

-- The nonce, the plaintext and the tag of 16 zeros.
abbrev content : Bytes
content = replicate 12 1 ++ (4 ∷ 5 ∷ 6 ∷ []) ++ replicate 16 0

content_lem : content ≡ encrypt_file plain describe filler nonce pieces
unfolding encrypt_file encrypt read_plaintext_to_end
content_lem = refl

abbrev accepted : HttpResponse
accepted = record { status = 200; retry_after = none; body = ok [] }

abbrev only {ℓ} : {A : Type ℓ} → List A → Bool → List A
only xs b = if b then xs else []

-- A visit that uploads and receives something at one offset only.
abbrev visit :
    (before : List Command)
    → State
    → (token events reply : ℕ) → (n : ℕ) → List Command
    → List Item
    → Option ℕ
    → Visit
visit before s token events reply n upload items scheduled = record {
  before = before;
  session = s;
  token = token;
  events = events;
  reply = reply;
  commands = λ at. only upload (at == n);
  exchange = λ at. record {
    reply = ok accepted;
    stream = only items (at == n);
    outcome = ok tt;
    scheduled = scheduled;
  };
}

at_or_elsewhere :
    (n : ℕ) (P : ℕ → Bool → Type 0) → P n true → ((at : ℕ) → P at false) → (at : ℕ) → P at (at == n)
at_or_elsewhere n P h k at = elim (Bool-cases (at == n)) [
  | inl e ↦ rw (e, (==_iff at n).0 e) h
  | inr e ↦ rw e (k at)
]

abbrev requested : State → (token events reply n : ℕ) → List Command → Bytes
requested s token events reply n cs =
    flatten
      (stream (
        events_on events
          (run ack
            (Command.start_download (record { token = token; position = n; events = events }) reply
              ∷ cs)
            s).1)).0

visit-IsVisit :
    (before : List Command) (s : State) (token events reply n : ℕ) (upload : List Command)
    (items : List Item) (scheduled : Option ℕ)
    → (run ack before (new (1 ∷ []) "metadata")).0 ≡ some s
    → IsUpload ack (1 ∷ []) "metadata" content before (new (1 ∷ []) "metadata")
    → offset_on events s.downloader ≡ none
    → IsUpload ack
        (1 ∷ [])
        "metadata"
        content
        upload
        (Relay.start_download ack (record { token = token; position = n; events = events }) s).0
    → All (IsFresh events) upload
    → (lost : Bytes) × (bytes_of items ++ lost ≡ requested s token events reply n upload)
    → IsVisit ack
        (1 ∷ [])
        "metadata"
        content
        (visit before s token events reply n upload items scheduled)
visit-IsVisit before s token events reply n upload items scheduled l u f g o a = record {
  lives = l;
  uploaded = u;
  unused = f;
  uploading = λ at _.
      at_or_elsewhere n
        (λ at b.
          IsUpload ack (1 ∷ []) "metadata" content (only upload b)
            (Relay.start_download ack (record { token = token; position = at; events = events })
              s).0)
        g (λ at beyond. tt) at;
  own = λ at _. at_or_elsewhere n (λ at b. All (IsFresh events) (only upload b)) o (λ at. tt) at;
  arrives = λ at _.
      at_or_elsewhere n
        (λ at b.
          (lost : Bytes) × (bytes_of (only items b) ++ lost
            ≡ requested s token events reply at (only upload b)))
        a (λ at. (requested s token events reply at [], refl)) at;
}

abbrev created : State
created = new (1 ∷ []) "metadata"

-- An uploader that starts at the beginning and sends nine bytes, of which seven arrive.
abbrev first_upload : List Command
first_upload =
    Command.start_upload 3 0 20 ∷ Command.upload_data 3 (Chunk.more (take 9 content)) 21 ∷ []

abbrev first : Visit
first =
    visit [] created 5 9 10 0 first_upload (Item.chunk (take 7 content) ∷ Item.stalled ∷ [])
      (some 500)

-- Another one that starts over where the downloader asks for the rest.
abbrev second_upload : List Command
second_upload =
    Command.start_upload 4 7 23 ∷ Command.upload_data 4 (Chunk.final (drop 7 content)) 24 ∷ []

abbrev earlier : List Command
earlier =
    Command.start_download (record { token = 5; position = 0; events = 9 }) 10
    ∷ Command.start_upload 3 0 20
    ∷ Command.upload_data 3 (Chunk.more (take 9 content)) 21
    ∷ Command.disconnected 5 (Peer.downloader false)
    ∷ []

abbrev left : State
left = record created { uploader = some (record { token = 3; position = 9 }) }

abbrev second : Visit
second = visit earlier left 6 11 12 7 second_upload (Item.chunk (drop 7 content) ∷ []) none

first_uploads :
    (beyond : ℕ)
    → IsHonestRun
        (byte_at beyond content)
        ack
        first_upload
        (Relay.start_download ack (record { token = 5; position = 0; events = 9 }) created).0
unfolding Relay.start_download handle Relay.start_upload Relay.upload_data check_start_position
first_uploads beyond = ground arith

first_arrives : requested created 5 9 10 0 first_upload ≡ take 9 content
unfolding run handle Relay.start_download Relay.start_upload Relay.upload_data check_start_position
    stream events_on
first_arrives = refl

first-IsVisit : IsVisit ack (1 ∷ []) "metadata" content first
unfolding run
first-IsVisit =
    visit-IsVisit [] created 5 9 10 0 first_upload (Item.chunk (take 7 content) ∷ Item.stalled ∷ [])
      (some 500) refl (λ beyond. tt) refl first_uploads (tt, (tt, tt))
      (drop 7 (take 9 content), sym first_arrives)

lives : (run ack earlier created).0 ≡ some left
unfolding run handle Relay.start_download Relay.start_upload Relay.upload_data check_start_position
    disconnected
lives = refl

earlier_uploads : (beyond : ℕ) → IsHonestRun (byte_at beyond content) ack earlier created
unfolding Relay.start_download handle Relay.start_upload Relay.upload_data check_start_position
    disconnected
earlier_uploads beyond = ground arith

second_uploads :
    (beyond : ℕ)
    → IsHonestRun
        (byte_at beyond content)
        ack
        second_upload
        (Relay.start_download ack (record { token = 6; position = 7; events = 11 }) left).0
unfolding Relay.start_download handle Relay.start_upload Relay.upload_data check_start_position
    Handlers.terminate_uploader
second_uploads beyond = ground arith

second_arrives : requested left 6 11 12 7 second_upload ≡ drop 7 content
unfolding run handle Relay.start_download Relay.start_upload Relay.upload_data check_start_position
    stream events_on Handlers.terminate_uploader
second_arrives = refl

second-IsVisit : IsVisit ack (1 ∷ []) "metadata" content second
second-IsVisit =
    visit-IsVisit earlier left 6 11 12 7 second_upload (Item.chunk (drop 7 content) ∷ []) none lives
      earlier_uploads refl second_uploads (tt, (tt, tt)) ([], sym second_arrives)

visits_lem :
    All
      (IsVisit ack (1 ∷ []) "metadata" (encrypt_file plain describe filler nonce pieces))
      (first ∷ second ∷ [])
visits_lem =
    subst (λ c. All (IsVisit ack (1 ∷ []) "metadata" c) (first ∷ second ∷ [])) content_lem
      (first-IsVisit, (second-IsVisit, tt))

visits_finish :
    (download_content is_success is_server_error
      (decrypt_content plain describe)
      (length (encrypt_file plain describe filler nonce pieces))
      (some tt)
      3
      (map (λ v. v.exchange) (first ∷ second ∷ []))
      fresh).end
    ≡ End.finished
unfolding download_content attempt read_stream finish write_all poll_write offset poll_flush
    poll_close encrypt_file encrypt read_plaintext_to_end into_plaintext decrypt_content decrypt
    nonce_of tag_of from_nonce_and_ciphertext response_ok retry_after tries_again is_retried adjust
    retriability error_retriability
visits_finish = refl

download_of_upload_example :
    (download_content is_success is_server_error
      (decrypt_content plain describe)
      (length (encrypt_file plain describe filler nonce pieces))
      (some tt)
      3
      (map (λ v. v.exchange) (first ∷ second ∷ []))
      fresh).written
    ≡ (4 ∷ 5 ∷ 6 ∷ []) ∷ []
download_of_upload_example =
    download_of_upload ack (1 ∷ []) "metadata" plain describe is_success is_server_error (some tt) 3
      filler nonce pieces (first ∷ second ∷ []) refl refl visits_lem visits_finish
