-- ===== src/Examples/Commanding.antt =====
-- The theorems on what a user of the client sees at concrete inputs.
use glopfile.Base.{
  replicate, ℕ, ◌+◌, ◌*◌, ◌≤◌, ◌≡◌, refl, Bool, true, List, [], ◌∷◌, ◌++◌, map, length, Option,
  none, some, ok, arith,
}
use glopfile.Text.{codes}
use glopfile.Client.Decrypted.{Poll}
use glopfile.Client.Errors.{Error}
use glopfile.Client.Paths.{child, output_path, provisioned_name}
use glopfile.Client.Paths.Children.{IsPlain, output_path-provisioned_name}
use glopfile.Client.PeerUpload.{RelayMessage}
use glopfile.Client.Progress.{ProgressState, Turn, drive}
use glopfile.Client.Progress.Streams.{all_sent, await, quiet, drive_follows}
use glopfile.Client.Uploader.Attempts.{Happening, Task, begin, run}
use glopfile.CommandLine.{Received, update_interval, throttle, run_transfer_progress}
use glopfile.CommandLine.Updates.{positions, resets, draws_bounded}

abbrev at : ℕ → ProgressState
at n = record { current = n; total = 9 }

-- Progress that comes faster than it is shown, and a wait after it.
abbrev waits : List (Received ProgressState × ℕ)
waits =
    (Received.value (at 0), 1000)
    ∷ (Received.value (at 4), 1100)
    ∷ (Received.value (at 9), 1200)
    ∷ (Received.timeout, 1500)
    ∷ (Received.disconnected, 1600)
    ∷ []

draws_bounded_example :
    (update_interval * length (positions (run_transfer_progress waits 1000)) + 1000
      ≤ 1600 + update_interval)
    × (positions (run_transfer_progress waits 1000)
        ≡ map (λ u. u.1.current) (throttle waits 1000 none))
    × (resets (run_transfer_progress waits 1000) ≤ 1)
draws_bounded_example = draws_bounded waits 1000 1600 (omega arith) (omega arith)

-- A future that sends two states and waits, and one that sends a state when it ends.
abbrev waiting : List (Turn Error)
waiting = Turn.turn (at 0 ∷ at 4 ∷ []) true Poll.pending ∷ []

abbrev ending : List (Turn Error)
ending = Turn.turn (at 9 ∷ []) true (Poll.ready (ok tt)) ∷ []

drive_follows_example :
    ((drive (waiting ++ (replicate 2 quiet ++ ending)) []).0
      ≡ all_sent waiting ++ (drive ending []).0)
    × ((lost : List ProgressState) × (all_sent ending ≡ (drive ending []).0 ++ lost))
    × ((drive (waiting ++ (replicate 2 quiet ++ ending)) []).1 ≡ await ending)
unfolding all_sent
drive_follows_example = drive_follows waiting ending 2 (refl, tt) (tt, tt) (omega arith)

named : provisioned_name (ok tt) (codes "docs//a.txt/.") ≡ ok (codes "a.txt")
unfolding provisioned_name
named = refl

output_path-provisioned_name_example :
    IsPlain (codes "a.txt")
    × (output_path (some (codes "out")) (codes "a.txt") ≡ child (codes "out") (codes "a.txt"))
    × (output_path (some (codes "out")) (b'/' ∷ codes "etc") ≡ b'/' ∷ codes "etc")
output_path-provisioned_name_example =
    output_path-provisioned_name (ok tt) (codes "docs//a.txt/.") (codes "out") (codes "a.txt")
      (codes "etc") named

abbrev server_error : ℕ → Option Bool
server_error status = some true

abbrev happenings : List (Happening (Unit {0}))
happenings = Happening.due (some 500) ∷ Happening.message none ∷ []

-- An acknowledgement, after which the timer is due again.
abbrev acked : List (Happening (Unit {0}))
acked = Happening.message (some (RelayMessage.upload_data_ack 4)) ∷ Happening.due none ∷ []

abbrev task : Task
task = run server_error none 9 happenings (begin 0 none)
