-- ===== src/Client/Signaling/Transfer/Settled.antt =====
-- The local description of a connection of rust-client/glopfile/src/p2p.rs, whatever the signaling
-- brings.
use glopfile.Base.{
  ℕ, suc, ◌^◌, ◌≤◌, ◌<◌, ◌≡◌, refl, sym, subst, inl, inr, [], ◌∷◌, Option, none, some, Result, ok,
  err, Bool-cases, ◌==◌, arith,
}
use glopfile.Text.{Text}
use glopfile.Client.Errors.{Error}
use glopfile.Client.Signaling.{SdpType, SessionDescription, SignalingMessage}
use glopfile.Client.Signaling.Connecting.{
  Run, lift, and_then, Rtc, Connection, Documented, next_connection, answer_offer, take_description,
  take_message, handle_incoming,
}

-- No local description, an offer or an answer.
abbrev pub IsSettled : Option SdpType → Type 0
IsSettled none = Unit
IsSettled (some SdpType.offer) = Unit
IsSettled (some SdpType.answer) = Unit
IsSettled (some SdpType.pranswer) = ⊥
IsSettled (some SdpType.rollback) = ⊥

module _ (rtc : Rtc) (w : Documented rtc) where
  -- No panic, and a connection that is settled with a number up to the bound.
  abbrev pub IsGood : ℕ → Run (Connection rtc) → Type 0
  IsGood n Run.panicked = ⊥
  IsGood n (Run.failed e) = Unit
  IsGood n (Run.done c) = IsSettled (rtc.local_type c.peer) × (c.id ≤ n)

  remote-IsGood :
      (d : SessionDescription) (p : rtc.Peer) (id n : ℕ) (r : Result Error rtc.Peer)
      → rtc.set_remote d p ≡ r
      → IsSettled (rtc.local_type p)
      → id ≤ n
      → IsGood n (and_then (lift r) (λ q. Run.done (record { id = id; peer = q })))
  remote-IsGood d p id n (err e) q s l = tt
  remote-IsGood d p id n (ok p') q s l = (subst IsSettled (sym (w.remote_local d p p' q)) s, l)

  candidate-IsGood :
      (t : Text) (p : rtc.Peer) (id n : ℕ) (r : Result Error rtc.Peer)
      → rtc.add_candidate t p ≡ r
      → IsSettled (rtc.local_type p)
      → id ≤ n
      → IsGood n (and_then (lift r) (λ q. Run.done (record { id = id; peer = q })))
  candidate-IsGood t p id n (err e) q s l = tt
  candidate-IsGood t p id n (ok p') q s l =
      (subst IsSettled (sym (w.candidate_local t p p' q)) s, l)

  created-IsGood :
      (p : rtc.Peer) (id n : ℕ) (r : Result Error rtc.Peer)
      → rtc.create_answer p ≡ r
      → id ≤ n
      → IsGood n (and_then (lift r) (λ q. Run.done (record { id = id; peer = q })))
  created-IsGood p id n (err e) q l = tt
  created-IsGood p id n (ok p') q l = (subst IsSettled (sym (w.answer_local p p' q)) tt, l)

  answered-IsGood :
      (id n : ℕ) (r : Result Error rtc.Peer)
      → id ≤ n
      → IsGood n (
          and_then
            (and_then (lift r) (λ p. lift (rtc.create_answer p)))
            (λ q. Run.done (record { id = id; peer = q })))
  answered-IsGood id n (err e) l = tt
  answered-IsGood id n (ok p) l = created-IsGood p id n (rtc.create_answer p) refl l

  answer_offer-IsGood :
      (d : SessionDescription) (c : Connection rtc) (n : ℕ)
      → c.id ≤ n
      → IsGood n (answer_offer rtc d c)
  unfolding answer_offer
  answer_offer-IsGood d c n l = answered-IsGood c.id n (rtc.set_remote d c.peer) l

  opened-IsGood :
      (d : SessionDescription) (id : ℕ) (r : Result Error rtc.Peer)
      → IsGood id (
          and_then
            (and_then (lift r) (λ p. Run.done (record { id = id; peer = p })))
            (answer_offer rtc d))
  opened-IsGood d id (err e) = tt
  opened-IsGood d id (ok p) = answer_offer-IsGood d (record { id = id; peer = p }) id (omega arith)

  replaced-IsGood :
      (d : SessionDescription) (c : Connection rtc)
      → suc c.id < 2 ^ 32
      → IsGood (suc c.id) (and_then (next_connection rtc c) (answer_offer rtc d))
  unfolding next_connection
  replaced-IsGood d c l = elim (Bool-cases (suc c.id == 2 ^ 32)) [
    | inl e ↦ absurd (ground arith)
    | inr e ↦ rw e (opened-IsGood d (suc c.id) (rtc.new_peer (suc c.id)))
  ]

  take_description-IsGood :
      (local : Option SdpType) (remote : SdpType) (d : SessionDescription) (c : Connection rtc)
      → IsSettled local
      → local ≡ rtc.local_type c.peer
      → suc c.id < 2 ^ 32
      → IsGood (suc c.id) (take_description rtc local remote d c)
  unfolding take_description
  take_description-IsGood none SdpType.offer d c s e l =
      answer_offer-IsGood d c (suc c.id) (omega arith)
  take_description-IsGood (some SdpType.answer) SdpType.offer d c s e l = replaced-IsGood d c l
  take_description-IsGood (some SdpType.offer) SdpType.answer d c s e l =
      remote-IsGood d c.peer c.id (suc c.id) _ refl (subst IsSettled e s) (omega arith)
  take_description-IsGood (some SdpType.pranswer) remote d c s e l = absurd s
  take_description-IsGood (some SdpType.rollback) remote d c s e l = absurd s
  take_description-IsGood local remote d c s e l = (subst IsSettled e s, omega arith)

  pub handle_incoming-IsGood :
      (m : Result Error (Option SignalingMessage)) (c : Connection rtc)
      → IsSettled (rtc.local_type c.peer)
      → suc c.id < 2 ^ 32
      → IsGood (suc c.id) (handle_incoming rtc m c)
  unfolding handle_incoming take_message
  handle_incoming-IsGood (err e) c s l = tt
  handle_incoming-IsGood (ok none) c s l = (s, omega arith)
  handle_incoming-IsGood (ok (some (SignalingMessage.session_description d))) c s l =
      take_description-IsGood (rtc.local_type c.peer) d.sdp_type d c s refl l
  handle_incoming-IsGood (ok (some (SignalingMessage.ice_candidate []))) c s l = (s, omega arith)
  handle_incoming-IsGood (ok (some (SignalingMessage.ice_candidate (x ∷ t)))) c s l =
      candidate-IsGood (x ∷ t) c.peer c.id (suc c.id) _ refl s (omega arith)
