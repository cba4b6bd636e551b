-- ===== src/Client/Errors/Laws.antt =====
-- What the classification of errors in rust-client/glopfile/src/error.rs and websocket.rs promises.
use Prim.Native.String.{String}
use glopfile.Base.{
  ℕ, ◌*◌, ◌<◌, ◌≡◌, ◌≢◌, ◌↔◌, refl, Bool, true, false, Option, none, some, err, arith, u64_mod,
}
use glopfile.Text.{Text, parse_u64}
use glopfile.Text.Decimal.{show, parse_u64-show}
use glopfile.Client.Errors.{
  KnownCloseStatus, CloseStatus, known_code, close_status, close_code, Error, retry_permanent,
  retry_transient, retry_from, response_ok, is_retried, adjust,
}

-- A close status other than 0 keeps its number; 0 is read as a missing status, 1005; and a known
-- status is never read as an unknown one.
pub close_code-close_status :
    (n : ℕ) (k : KnownCloseStatus)
    → n ≢ 0
    → (close_code (close_status n) ≡ n)
      × (close_code (close_status 0) ≡ 1005)
      × (close_status (known_code k) ≡ CloseStatus.known k)
unfolding close_status
close_code-close_status n k h = (ground arith, refl, known k)
  where
    known : (k : KnownCloseStatus) → close_status (known_code k) ≡ CloseStatus.known k
    known KnownCloseStatus.normal = refl
    known _ = refl

module _ (is_success : ℕ → Bool) (is_server_error : ℕ → Option Bool) where
  -- A response that is no success and asks for a delay of some seconds, fewer than 2 ^ 64, is
  -- retried after exactly that delay: whatever its status, and whatever delay the schedule of the
  -- retries has left, also if it has none left.
  pub server_delay_wins :
      (status seconds : ℕ) (message : String) (scheduled : Option ℕ)
      → seconds < u64_mod
      → is_success status ≡ false
      → (e : Error) × (response_ok is_success status (some (some (show seconds))) message ≡ err e)
        × (is_retried is_server_error (retry_from e) ≡ true)
        × (adjust is_server_error (retry_from e) scheduled ≡ some (seconds * 1000))
  unfolding response_ok is_retried adjust
  server_delay_wins status seconds m o h f = (
    Error.client_http_error_response m status (some (seconds * 1000)),
    rw (f, parse_u64-show seconds h) refl,
    refl,
    refl,
  )

  -- A response that is no success and asks for a delay in another form than seconds is not
  -- retried, whatever its status.
  pub unreadable_delay_gives_up :
      (status : ℕ) (header : Text) (message : String)
      → parse_u64 header ≡ none
      → is_success status ≡ false
      → (e : Error) × (response_ok is_success status (some (some header)) message ≡ err e)
        × (is_retried is_server_error (retry_from e) ≡ false)
  unfolding response_ok is_retried
  unreadable_delay_gives_up status header m h f =
      (Error.invalid_server_response "Invalid Retry-After header value", rw (f, h) refl, refl)

  -- A response that is no success and asks for no delay is retried exactly if its status is that
  -- of a server error, and on the schedule; a call site that overrides that decides it, either
  -- way.
  pub schedule_decides :
      (status : ℕ) (message : String) (scheduled : Option ℕ)
      → is_success status ≡ false
      → (e : Error) × (response_ok is_success status none message ≡ err e)
        × ((is_retried is_server_error (retry_from e) ≡ true)
            ↔ (is_server_error status ≡ some true))
        × (adjust is_server_error (retry_from e) scheduled ≡ scheduled)
        × (is_retried is_server_error (retry_permanent e) ≡ false)
        × (is_retried is_server_error (retry_transient e) ≡ true)
  unfolding response_ok is_retried adjust
  schedule_decides status m o f = (
    Error.client_http_error_response m status none,
    rw f refl,
    ground arith,
    ground arith,
    refl,
    refl,
  )
