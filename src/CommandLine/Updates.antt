-- ===== src/CommandLine/Updates.antt =====
-- What the user of the command line program sees, rust-client/cli/src/main.rs.
use Prim.Native.Nat.{◌*◌}
use glopfile.Base.{
  ℕ, suc, ◌+◌, ◌*◌, ◌≤◌, ◌≡◌, refl, ap, ◌∙◌, Bool, true, false, List, [], ◌∷◌, ◌++◌, map, Option,
  none, some, Result, ok, All, length, length-append, leb, if◌then◌else◌, arith, Bool-cases, inl,
  inr,
}
use glopfile.Text.{Text}
use glopfile.Client.Errors.{Error}
use glopfile.Client.Downloader.{Transport}
use glopfile.Client.Progress.{ProgressState, Shown}
use glopfile.CommandLine.{
  Received, update_interval, update, throttle, Draw, draw_all, run_transfer_progress, printed,
  transport, send,
}

module _ {ℓ} {T : Type ℓ} where
  -- A list of updates with another at its begin.
  more :
      (new rest : List T) (now next end : ℕ)
      → length new ≤ 1
      → next ≤ now
      → update_interval * length rest + (now + update_interval) ≤ end + update_interval
      → update_interval * length (new ++ rest) + next ≤ end + update_interval
  more new rest now next end one due h = omega (arith, length-append new rest)

leb_le : (a b : ℕ) → leb a b ≡ true → a ≤ b
leb_le a b h = ground arith

module _ {ℓ} {T : Type ℓ} where
  update-one : (now : ℕ) (last : Option T) → length (update now last) ≤ 1
  update-one now none = omega arith
  update-one now (some t) = omega arith

  -- A wait that ends, with what is known of the progress after it.
  turn_bound :
      (waits : List (Received T × ℕ)) (end now next : ℕ) (last : Option T)
      → now ≤ end
      → next ≤ end + update_interval
      → ((n : ℕ)
          → n ≤ end + update_interval
          → update_interval * length (throttle waits n last) + n ≤ end + update_interval)
      → update_interval
            * length (
                (if leb next now then update now last else [])
                ++ throttle waits (if leb next now then now + update_interval else next) last)
          + next
        ≤ end + update_interval
  turn_bound waits end now next last q h later = elim (Bool-cases (leb next now)) [
    | inl due ↦ rw due (
        more (update now last) (throttle waits (now + update_interval) last) now next end
          (update-one now last) (leb_le next now due) (later (now + update_interval) (omega arith)))
    | inr early ↦ rw early (later next h)
  ]

  throttle_bound :
      (waits : List (Received T × ℕ)) (end next : ℕ) (last : Option T)
      → All (λ w. w.1 ≤ end) waits
      → next ≤ end + update_interval
      → update_interval * length (throttle waits next last) + next ≤ end + update_interval
  unfolding throttle
  throttle_bound [] end next last b h = omega arith
  throttle_bound ((Received.disconnected, now) ∷ waits) end next last b h = omega arith
  throttle_bound ((Received.value t, now) ∷ waits) end next last b h =
      turn_bound waits end now next (some t) b.0 h
        (λ n k. throttle_bound waits end n (some t) b.1 k)
  throttle_bound ((Received.timeout, now) ∷ waits) end next last b h =
      turn_bound waits end now next last b.0 h (λ n k. throttle_bound waits end n last b.1 k)

-- The positions that the bar is set to, and how often its time is reset.
unfoldable pub positions : List Draw → List ℕ
positions [] = []
positions (Draw.set_position n ∷ ds) = n ∷ positions ds
positions (Draw.reset_eta ∷ ds) = positions ds
positions (Draw.finish_bar ∷ ds) = positions ds
positions (Draw.tick ∷ ds) = positions ds
positions (Draw.finish_spinner ∷ ds) = positions ds

unfoldable pub resets : List Draw → ℕ
resets [] = 0
resets (Draw.reset_eta ∷ ds) = suc (resets ds)
resets (Draw.set_position n ∷ ds) = resets ds
resets (Draw.finish_bar ∷ ds) = resets ds
resets (Draw.tick ∷ ds) = resets ds
resets (Draw.finish_spinner ∷ ds) = resets ds

abbrev ending : List Draw
ending = Draw.finish_bar ∷ Draw.finish_spinner ∷ []

draw_all-positions :
    (ps : List ProgressState) (b : Bool)
    → positions (draw_all ps b ++ ending) ≡ map (λ p. p.current) ps
unfolding positions draw_all
draw_all-positions [] b = refl
draw_all-positions (p ∷ ps) b = ground (arith, draw_all-positions ps true, draw_all-positions ps b)

draw_all-resets :
    (ps : List ProgressState) (b : Bool) → resets (draw_all ps b ++ ending) ≤ (if b then 0 else 1)
unfolding resets draw_all
draw_all-resets [] b = ground arith
draw_all-resets (p ∷ ps) b = ground (arith, draw_all-resets ps true, draw_all-resets ps b)

map-map :
    (us : List (ℕ × ProgressState))
    → map (λ p. p.current) (map (λ u. u.1) us) ≡ map (λ u. u.1.current) us
map-map [] = refl
map-map (u ∷ us) = ap (◌∷◌ u.1.current) (map-map us)

length-map : {A B : Type 0} (f : A → B) (xs : List A) → length (map f xs) ≡ length xs
length-map f [] = refl
length-map f (x ∷ xs) = ap suc (length-map f xs)

-- Between the start of a transfer and the end of its last wait, the bar is set to a position at most once for
-- each interval and once more, to the positions that the throttle passes on; and its time is reset at most once.
pub draws_bounded :
    (waits : List (Received ProgressState × ℕ)) (start end : ℕ)
    → All (λ w. w.1 ≤ end) waits
    → start ≤ end
    → let draws = run_transfer_progress waits start in
      (update_interval * length (positions draws) + start ≤ end + update_interval)
      × (positions draws ≡ map (λ u. u.1.current) (throttle waits start none))
      × (resets draws ≤ 1)
unfolding run_transfer_progress
draws_bounded waits start end b h =
    let updates = throttle waits start none in
    let set = draw_all-positions (map (λ u. u.1) updates) false ∙ map-map updates in
    (
      let bound = throttle_bound waits end start none b (omega arith) in
          rw set (rw (length-map (λ u. u.1.current) updates) bound),
      set,
      draw_all-resets (map (λ u. u.1) updates) false,
    )

no_more : (link : Text) (ps : List ProgressState) → printed link true ps ≡ []
unfolding printed
no_more link [] = refl
no_more link (p ∷ ps) = no_more link ps

-- The link, if any progress is shown.
abbrev pub link_for : Text → List ProgressState → List Text
link_for link [] = []
link_for link (p ∷ ps) = link ∷ []

once : (link : Text) (ps : List ProgressState) → printed link false ps ≡ link_for link ps
unfolding printed
once link [] = refl
once link (p ∷ ps) = ap (◌∷◌ link) (no_more link ps)

-- An upload that was set up prints its link once, if it shows any progress.
pub send-link :
    (no_p2p no_relay : Bool) (provision : Transport → Result Error Text)
    (upload : Transport → Shown Error) (t : Transport) (link : Text)
    → transport no_p2p no_relay ≡ ok t
    → provision t ≡ ok link
    → (send no_p2p no_relay provision upload).0 ≡ link_for link (upload t).0
unfolding send printed
send-link no_p2p no_relay provision upload t link e f = rw (e, f, send) (once link (upload t).0)
