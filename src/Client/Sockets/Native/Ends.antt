-- ===== src/Client/Sockets/Native/Ends.antt =====
-- How a native websocket ends for its callers, rust-client/glopfile/src/websocket/native.rs.
use Prim.Native.String.{String}
use glopfile.Base.{
  ℕ, Bool, ◌≡◌, refl, inl, inr, Option-cases, List, ◌∷◌, [], ◌++◌, Option, none, some, err, false,
  ControlFlow,
}
use glopfile.Client.Errors.{WebSocketError, Retriability, close_status, error_retriability}
use glopfile.Client.Sockets.{Outcome, reconnects}
use glopfile.Client.Sockets.Native.{
  Turn, Thread, End, closed_by, take_turn, and_then, run, send, join,
}

module _ {Message Handler : Type 0}
    (handle : Message → Handler → Handler × ControlFlow (Unit {0})) where
  and_then-ended :
      (t rest : Thread Handler) {end : End}
      → t.ended ≡ none
      → rest.ended ≡ some end
      → (and_then handle t rest).ended ≡ some end
  and_then-ended t rest e h = rw e h

  and_then-some :
      (t rest : Thread Handler) {end : End}
      → t.ended ≡ some end
      → (and_then handle t rest).ended ≡ some end
  and_then-some t rest e = rw e refl

  and_then-none :
      (t rest : Thread Handler)
      → (and_then handle t rest).ended ≡ none
      → (t.ended ≡ none) × (rest.ended ≡ none)
  and_then-none t rest h = elim (Option-cases t.ended) [
    | inl e ↦ (e, rw e at h)
    | inr (a, e) ↦ cc (h, and_then-some t rest e)
  ]

  -- A thread that is still there ends as its next turn ends it.
  run-ended :
      (before after : List (Turn Message)) (last : Turn Message) (h : Handler) {end : End}
      → (run handle before h).ended ≡ none
      → ((g : Handler) → (take_turn handle last g).ended ≡ some end)
      → (run handle (before ++ last ∷ after) h).ended ≡ some end
  unfolding run
  run-ended [] after last h e ends =
      and_then-some (take_turn handle last h) (run handle after (take_turn handle last h).handler)
        (ends h)
  run-ended (turn ∷ before) after last h e ends =
      let t = take_turn handle turn h in
      let parts = and_then-none t (run handle before t.handler) e in
      and_then-ended t (run handle (before ++ last ∷ after) t.handler) parts.0
        (run-ended before after last t.handler parts.1 ends)

  -- What a call is told that waits for its reply when the server closes the connection.
  abbrev pub told : Option (ℕ × String) → Outcome
  told none = Outcome.panicked
  told (some (code, reason)) =
      Outcome.returned (err (WebSocketError.closed (close_status code) reason))

  told_lem :
      (is_server_error : ℕ → Option Bool) (how : Option (ℕ × String))
      → let c = some (closed_by handle how) in
        ((send false c).0 ≡ told how)
        × ((join c).0 ≡ Outcome.returned (closed_by handle how))
        × (reconnects is_server_error (join (send false c).1).0 ≡ some Retriability.permanent)
  unfolding send join reconnects error_retriability
  told_lem is_server_error none = (refl, refl, refl)
  told_lem is_server_error (some (code, reason)) = (refl, refl, refl)

  -- When the server closes a connection whose thread is still there, a `send` that waits for its reply
  -- panics if the server gives no status, and is told the status otherwise; after it, a `join` is told
  -- that the connection was closed already, upon which the client never connects again, also where
  -- without the `send` it would have.
  pub close_breaks_send :
      (is_server_error : ℕ → Option Bool) (before after : List (Turn Message)) (h : Handler)
      (how : Option (ℕ × String))
      → (run handle before h).ended ≡ none
      → let c = (run handle (before ++ Turn.close how ∷ after) h).ended in
        ((send false c).0 ≡ told how)
        × ((join c).0 ≡ Outcome.returned (closed_by handle how))
        × (reconnects is_server_error (join (send false c).1).0 ≡ some Retriability.permanent)
  unfolding take_turn
  close_breaks_send is_server_error before after h how e =
      let ended =
        run-ended before after (Turn.close how) h {end = closed_by handle how} e (λ g. refl) in
      rw ended (told_lem is_server_error how)
