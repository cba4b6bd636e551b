-- ===== src/CommandLine.antt =====
-- The command line program, rust-client/cli/src/main.rs: the throttled progress and the two commands. What a
-- wait for progress yields and the time after it are arguments, and so are what the client library does;
-- times are in milliseconds.
pub mod Updates
use Prim.Native.String.{String}
use glopfile.Base.{
  ℕ, ◌+◌, Bool, true, false, not, ◌&&◌, List, [], ◌∷◌, ◌++◌, map, Option, none, some, Result, ok,
  err, ◌>>=◌, ok_or, ◌==◌, leb, if◌then◌else◌,
}
use glopfile.Text.{Text}
use glopfile.Client.Errors.{Error}
use glopfile.Client.Downloader.{Transport, with_p2p_and_relay}
use glopfile.Client.Progress.{ProgressState, Shown}

-- `PROGRESS_UPDATE_INTERVAL`.
abbrev pub update_interval : ℕ
update_interval = 500

-- What `recv_timeout` yields.
pub data Received {ℓ} (T : Type ℓ) : Type ℓ where
  value : T → Received T
  timeout disconnected : Received T

module _ {ℓ} {T : Type ℓ} where
  -- An update at a time, or none if nothing is known.
  abbrev pub update : ℕ → Option T → List (ℕ × T)
  update now none = []
  update now (some t) = (now, t) ∷ []

  -- The iterator of `throttle_receiver`: the updates, each with its time, by the time of the next update
  -- and the last progress.
  unfoldable pub throttle : List (Received T × ℕ) → ℕ → Option T → List (ℕ × T)
  throttle [] next last = []
  throttle ((Received.disconnected, now) ∷ waits) next last = []
  throttle ((Received.value t, now) ∷ waits) next last =
      (if leb next now then update now (some t) else [])
      ++ throttle waits (if leb next now then now + update_interval else next) (some t)
  throttle ((Received.timeout, now) ∷ waits) next last =
      (if leb next now then update now last else [])
      ++ throttle waits (if leb next now then now + update_interval else next) last

-- What is done to the progress bar and to the spinner after it.
pub data Draw : Type 0 where
  reset_eta finish_bar tick finish_spinner : Draw
  set_position : ℕ → Draw

-- The loop of `run_transfer_progress`, by whether a byte was transferred.
unfoldable pub draw_all : List ProgressState → Bool → List Draw
draw_all [] transferred = []
draw_all (p ∷ ps) transferred =
    let moved = not (p.current == 0) in
    (if moved && not transferred then Draw.reset_eta ∷ [] else [])
    ++ (Draw.set_position p.current
          ∷ (if p.current == p.total then Draw.finish_bar ∷ Draw.tick ∷ [] else [])
        ++ draw_all ps (if moved then true else transferred))

-- `run_transfer_progress`, from a start.
unfoldable pub run_transfer_progress : List (Received ProgressState × ℕ) → ℕ → List Draw
unfolding throttle draw_all
run_transfer_progress waits start =
    draw_all (map (λ u. u.1) (throttle waits start none)) false
    ++ (Draw.finish_bar ∷ Draw.finish_spinner ∷ [])

-- An error of the program: its own, or one of the client.
pub data Failure : Type 0 where
  usage : String → Failure
  client : Error → Failure

abbrev of_client : {A : Type 0} → Result Error A → Result Failure A
of_client (ok a) = ok a
of_client (err e) = err (Failure.client e)

-- The transport of the two switches.
unfoldable pub transport : (no_p2p no_relay : Bool) → Result Failure Transport
transport no_p2p no_relay =
    ok_or (with_p2p_and_relay (not no_p2p) (not no_relay))
      (Failure.usage "cannot disable both p2p and relay")

-- The closure of `send` prints the link when it is called for the first time.
unfoldable pub printed : Text → Bool → List ProgressState → List Text
printed link finished [] = []
printed link finished (p ∷ ps) = (if finished then [] else link ∷ []) ++ printed link true ps

abbrev of_shown : Option (Result Error (Unit {0})) → Option (Result Failure (Unit {0}))
of_shown none = none
of_shown (some r) = some (of_client r)

abbrev sent : Text → Shown Error → List Text × Option (Result Failure (Unit {0}))
sent link shown = (printed link false shown.0, of_shown shown.1)

-- `Cli::send`: what it prints, and its result, if there is one yet.
unfoldable pub send :
    (no_p2p no_relay : Bool)
    → (provision : Transport → Result Error Text) → (upload : Transport → Shown Error)
    → List Text × Option (Result Failure (Unit {0}))
unfolding transport printed
send no_p2p no_relay provision upload = elim (transport no_p2p no_relay) [
  | err e ↦ ([], some (err e))
  | ok t ↦ elim (provision t) [
    | err e ↦ ([], some (err (Failure.client e)))
    | ok link ↦ sent link (upload t)
  ]
]
