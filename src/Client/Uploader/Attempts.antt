-- ===== src/Client/Uploader/Attempts.antt =====
-- The relayed task of rust-client/glopfile/src/uploader_client.rs: attempts with a timeout each, which the
-- websocket handler aborts by the handle that they share. The timers of attempts are numbered as these are.
use glopfile.Base.{
  ℕ, suc, ◌≡◌, List, [], ◌∷◌, Option, none, some, Bool, true, false, ok, err, ◌==◌, ◌||◌,
  if◌then◌else◌,
}
use glopfile.Client.Errors.{Error, retry_from}
use glopfile.Client.Upload.{tries_again}
use glopfile.Client.Downloader.{Ends}
use glopfile.Client.PeerUpload.{TimeoutHandle, RelayMessage, put, handle_relay_message}

-- What happens while the task runs: the websocket has a message; `upload_file` ends; the timer of the attempt is
-- due. With the latter two, the delay that the schedule has left.
pub data Happening (Signal : Type 0) : Type 0 where
  message : Option (RelayMessage Signal) → Happening Signal
  uploaded : Ends → (scheduled : Option ℕ) → Happening Signal
  due : (scheduled : Option ℕ) → Happening Signal

-- The attempt, the handle that is shared, whether the timer of the attempt was aborted, and the result.
pub record Task : Type 0 where
  pub attempt : ℕ
  pub handle : TimeoutHandle
  pub aborted : Bool
  pub result : Option Ends

abbrev pub contains : ℕ → List ℕ → Bool
contains n [] = false
contains n (m ∷ ms) = m == n || contains n ms

-- A new attempt puts the handle of its timer.
abbrev pub begin : ℕ → TimeoutHandle → Task
begin n handle = record { attempt = n; handle = put n handle; aborted = false; result = none }

module _ (is_server_error : ℕ → Option Bool) {Signal : Type 0} (signaling : Option (Signal → Bool))
    (total : ℕ) where
  -- The end of an attempt.
  abbrev pub attempted : Ends → Option ℕ → Task → Task
  attempted (ok _) scheduled t = record t { result = some (ok tt) }
  attempted (err e) scheduled t =
      if tries_again is_server_error (retry_from e) scheduled
      then begin (suc t.attempt) t.handle
      else record t { result = some (err e) }

  abbrev happen_running : Happening Signal → Task → Task
  happen_running (Happening.message m) t =
      let h = handle_relay_message signaling total m t.handle in
      record t { handle = h.timeout; aborted = t.aborted || contains t.attempt h.aborted }
  happen_running (Happening.uploaded r scheduled) t = attempted r scheduled t
  happen_running (Happening.due scheduled) t =
      if t.aborted then t else attempted (err Error.timeout) scheduled t

  unfoldable pub happen : Happening Signal → Task → Task
  happen x t = elim t.result [ some r ↦ t | none ↦ happen_running x t ]

  unfoldable pub run : List (Happening Signal) → Task → Task
  unfolding happen
  run [] t = t
  run (x ∷ xs) t = run xs (happen x t)

  -- The handle is that of the attempt, or it was taken to abort the timer.
  abbrev IsShared : Task → Type 0
  IsShared t = (t.aborted ≡ false → t.handle ≡ some t.attempt)

  -- Anything but the end of the request.
  abbrev pub IsWait : Happening Signal → Type 0
  IsWait (Happening.uploaded r scheduled) = ⊥
  IsWait _ = Unit {0}

  abbrev pub Waits : ℕ → Task → Type 0
  Waits n t = (t.attempt ≡ n) × (t.result ≡ none) × (t.aborted ≡ true)
