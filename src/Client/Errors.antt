-- ===== src/Client/Errors.antt =====
-- Errors of the client and how its retry loop treats them: rust-client/glopfile/src/error.rs, the
-- close statuses and errors of rust-client/glopfile/src/websocket.rs, and the closures that
-- rust-client/glopfile/src/util/retry.rs hands to the retry library. An error of a library is known
-- by its message, a duration is a number of milliseconds.
pub mod Laws
use Prim.Native.String.{String}
use glopfile.Base.{
  ℕ, ◌*◌, Bool, true, false, Option, none, some, Result, ok, err, ◌>>=◌, ok_or, ◌==◌, if◌then◌else◌,
}
use glopfile.Text.{Text, parse_u64}

-- `WebSocketKnownCloseStatus`.
pub data KnownCloseStatus : Type 0 where
  normal gone protocol_error unsupported_frame_type missing_status_code : KnownCloseStatus
  connection_closed invalid_frame_data forbidden frame_too_large : KnownCloseStatus
  missing_protocol_extension internal_server_error tls_error : KnownCloseStatus

-- `WebSocketCloseStatus`; an unknown status is not 0.
pub data CloseStatus : Type 0 where
  known : KnownCloseStatus → CloseStatus
  unknown : ℕ → CloseStatus

-- The discriminants, by which `IntoPrimitive` works.
abbrev pub known_code : KnownCloseStatus → ℕ
known_code KnownCloseStatus.normal = 1000
known_code KnownCloseStatus.gone = 1001
known_code KnownCloseStatus.protocol_error = 1002
known_code KnownCloseStatus.unsupported_frame_type = 1003
known_code KnownCloseStatus.missing_status_code = 1005
known_code KnownCloseStatus.connection_closed = 1006
known_code KnownCloseStatus.invalid_frame_data = 1007
known_code KnownCloseStatus.forbidden = 1008
known_code KnownCloseStatus.frame_too_large = 1009
known_code KnownCloseStatus.missing_protocol_extension = 1010
known_code KnownCloseStatus.internal_server_error = 1011
known_code KnownCloseStatus.tls_error = 1015

-- `TryFromPrimitive` of the same enum.
unfoldable pub known_of : ℕ → Option KnownCloseStatus
known_of n =
    if n == 1000
    then some KnownCloseStatus.normal
    else if n == 1001
    then some KnownCloseStatus.gone
    else if n == 1002
    then some KnownCloseStatus.protocol_error
    else if n == 1003
    then some KnownCloseStatus.unsupported_frame_type
    else if n == 1005
    then some KnownCloseStatus.missing_status_code
    else if n == 1006
    then some KnownCloseStatus.connection_closed
    else if n == 1007
    then some KnownCloseStatus.invalid_frame_data
    else if n == 1008
    then some KnownCloseStatus.forbidden
    else if n == 1009
    then some KnownCloseStatus.frame_too_large
    else if n == 1010
    then some KnownCloseStatus.missing_protocol_extension
    else if n == 1011
    then some KnownCloseStatus.internal_server_error
    else if n == 1015
    then some KnownCloseStatus.tls_error
    else none

-- `From<u16> for WebSocketCloseStatus`.
unfoldable pub close_status : ℕ → CloseStatus
unfolding known_of
close_status n = elim (known_of n) [
  | some k ↦ CloseStatus.known k
  | none ↦
      if n == 0
      then CloseStatus.known KnownCloseStatus.missing_status_code
      else CloseStatus.unknown n
]

-- `From<WebSocketCloseStatus> for u16`.
abbrev pub close_code : CloseStatus → ℕ
close_code (CloseStatus.known k) = known_code k
close_code (CloseStatus.unknown n) = n

pub data Error : Type 0 where
  client_http_error_response : (message : String) (status : ℕ) (retry_after : Option ℕ) → Error
  client_api_error_response : (message reason : String) → Error
  websocket_closed : CloseStatus → (reason : String) → Error
  io http_client rtc_data_channel websocket_client invalid_peer_message : String → Error
  invalid_input invalid_server_response : String → Error
  invalid_cipher_key decrypt timeout : Error

pub data WebSocketError : Type 0 where
  client_http_error_response :
      (message : String) (status : ℕ) (retry_after : Option ℕ) → WebSocketError
  closed : CloseStatus → (reason : String) → WebSocketError
  io invalid_message websocket_client : String → WebSocketError

-- `From<WebSocketError> for Error`.
abbrev pub of_websocket : WebSocketError → Error
of_websocket (WebSocketError.client_http_error_response m s r) =
    Error.client_http_error_response m s r
of_websocket (WebSocketError.closed s r) = Error.websocket_closed s r
of_websocket (WebSocketError.io e) = Error.io e
of_websocket (WebSocketError.websocket_client e) = Error.websocket_client e
of_websocket (WebSocketError.invalid_message e) = Error.invalid_peer_message e

pub data Retriability : Type 0 where
  permanent transient : Retriability
  after : ℕ → Retriability

pub record RetryError : Type 0 where
  pub error : Error
  pub override : Option Retriability

-- `RetryError::permanent`, `RetryError::transient` and the conversions of `retry_error_from!`.
abbrev pub retry_permanent : Error → RetryError
retry_permanent e = record { error = e; override = some Retriability.permanent }

abbrev pub retry_transient : Error → RetryError
retry_transient e = record { error = e; override = some Retriability.transient }

abbrev pub retry_from : Error → RetryError
retry_from e = record { error = e; override = none }

close_retriability : KnownCloseStatus → Retriability
close_retriability KnownCloseStatus.connection_closed = Retriability.transient
close_retriability KnownCloseStatus.internal_server_error = Retriability.transient
close_retriability KnownCloseStatus.tls_error = Retriability.transient
close_retriability _ = Retriability.permanent

-- `parse_retry_after`, from what `HeaderValue::to_str` reads.
unfoldable pub parse_retry_after : Option Text → Result Error (Option ℕ)
parse_retry_after header = do
  value ← ok_or header (Error.invalid_server_response "Non-utf8 Retry-After header value")
  seconds ←
      ok_or (parse_u64 value) (Error.invalid_server_response "Invalid Retry-After header value")
  ok (some (seconds * 1000))

-- `ResponseExt::retry_after`: the header may be absent.
unfoldable pub retry_after : Option (Option Text) → Result Error (Option ℕ)
unfolding parse_retry_after
retry_after none = ok none
retry_after (some header) = parse_retry_after header

-- `ok_or` of a response: a status that is no success is an error, unless the response asks for a
-- delay that cannot be read, which is another error. `is_success` is that of the http library.
unfoldable pub response_ok :
    (is_success : ℕ → Bool) (status : ℕ) (header : Option (Option Text)) (message : String)
    → Result Error (Unit {0})
unfolding retry_after
response_ok is_success status header message = if is_success status then ok tt else (do
  delay ← retry_after header
  err (Error.client_http_error_response message status delay))

-- `is_server_error` is `StatusCode::from_u16` of the http library followed by its `is_server_error`:
-- `none` for a number that is no status code.
module _ (is_server_error : ℕ → Option Bool) where
  status_retriability : Option Bool → Retriability
  status_retriability (some true) = Retriability.transient
  status_retriability _ = Retriability.permanent

  -- `Error::retriability`.
  unfoldable pub error_retriability : Error → Retriability
  unfolding close_retriability status_retriability
  error_retriability (Error.client_http_error_response m s (some d)) = Retriability.after d
  error_retriability (Error.client_http_error_response m s none) =
      status_retriability (is_server_error s)
  error_retriability (Error.websocket_closed (CloseStatus.known s) r) = close_retriability s
  error_retriability (Error.http_client e) = Retriability.transient
  error_retriability (Error.io e) = Retriability.transient
  error_retriability Error.timeout = Retriability.transient
  error_retriability _ = Retriability.permanent

  -- `RetryError::retriability`.
  unfoldable pub retriability : RetryError → Retriability
  unfolding error_retriability
  retriability e = elim e.override [ none ↦ error_retriability e.error | some r ↦ r ]

  -- The closure that `retry` gives to `when`.
  unfoldable pub is_retried : RetryError → Bool
  unfolding retriability
  is_retried e = elim (retriability e) [ Retriability.permanent ↦ false | _ ↦ true ]

  -- The closure that `retry` gives to `adjust`: the delay before the next attempt, by the delay that
  -- the schedule has left, if it has one.
  unfoldable pub adjust : RetryError → Option ℕ → Option ℕ
  unfolding retriability
  adjust e scheduled = elim (retriability e) [ Retriability.after d ↦ some d | _ ↦ scheduled ]
