-- ===== src/Client/Requests.antt =====
-- The requests of rust-client/glopfile/src/api_client.rs that are retried as a whole. The replies to the
-- attempts are arguments: an error may be a timeout.
use glopfile.Base.{ℕ, List, [], ◌∷◌, Option, Bool, Result, ok, err, ◌>>◌, ◌==◌, if◌then◌else◌}
use Prim.Native.String.{String}
use glopfile.Client.Errors.{Error, retry_from, response_ok}
use glopfile.Client.Upload.{HttpResponse, Reply, tries_again}

-- The reply to an attempt, and the delay that the schedule has left if it fails.
pub record Attempt : Type 0 where
  pub reply : Reply
  pub scheduled : Option ℕ

-- `waiting` for the reply to another attempt.
pub data Awaited (A : Type 0) : Type 0 where
  waiting : Awaited A
  ended : Result Error A → Awaited A

abbrev pub reply_result : {A : Type 0} → (HttpResponse → Result Error A) → Reply → Result Error A
reply_result read (err e) = err e
reply_result read (ok r) = read r

module _ (is_server_error : ℕ → Option Bool) {A : Type 0}
    (read : HttpResponse → Result Error A) where
  abbrev pub or_again : Result Error A → Option ℕ → Awaited A → Awaited A
  or_again (ok a) scheduled later = Awaited.ended (ok a)
  or_again (err e) scheduled later =
      if tries_again is_server_error (retry_from e) scheduled then later else Awaited.ended (err e)

  -- `retry` of an operation that reads the response to a request.
  unfoldable pub retry : List Attempt → Awaited A
  retry [] = Awaited.waiting
  retry (x ∷ xs) = let later = retry xs in or_again (reply_result read x.reply) x.scheduled later

module _ (is_success : ℕ → Bool) where
  -- A response that is no success is an error.
  abbrev pub successful : String → HttpResponse → Result Error HttpResponse
  successful message r = response_ok is_success r.status r.retry_after message >> ok r

  -- What `finish_download` makes of a response: `StatusCode::NOT_FOUND` is a success.
  unfoldable pub finish_result : HttpResponse → Result Error (Unit {0})
  finish_result r =
      if r.status == 404
      then ok tt
      else response_ok is_success r.status r.retry_after "failed to finish download"

  -- `finish_download` from its URL on.
  unfoldable pub finish_download :
      (is_server_error : ℕ → Option Bool) → List Attempt → Awaited (Unit {0})
  unfolding finish_result retry
  finish_download is_server_error xs = retry is_server_error finish_result xs
