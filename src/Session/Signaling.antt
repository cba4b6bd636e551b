-- ===== src/Session/Signaling.antt =====
-- The frames that a session of glopfile-relay/src/session.rs relays between its websocket peers.
use glopfile.Base.{
  length-take, ◌≤◌, ◌≡◌, refl, sym, ap, ◌∙◌, List, [], ◌∷◌, ◌++◌, Option, none, some, arith, Bytes,
  map, length, take, take_all, take-append_length, take-take-append, length-append, append-nil,
  append_assoc, inl, inr, Bool-cases, ==_iff, ◌==◌,
}
use glopfile.Session.Types.{
  Position, Channel, Frame, Direction, WebsocketPeer, State, Command, Answer, Effect,
  max_held_frames,
}
use glopfile.Session.Handlers
use glopfile.Session.Handlers.{
  websocket, held_frames, set_held_frames, other, send_to, hold_frame, set_websocket,
  replace_websocket,
}
use glopfile.Session.Relay.{handle}
use glopfile.Session.Task.{run}

held_frames-set :
    (s : State) (d : Direction) (fs : List Frame) → held_frames (set_held_frames s d fs) d ≡ fs
held_frames-set s Direction.upload fs = refl
held_frames-set s Direction.download fs = refl

set_held_frames-set :
    (s : State) (d : Direction) (fs gs : List Frame)
    → set_held_frames (set_held_frames s d fs) d gs ≡ set_held_frames s d gs
set_held_frames-set s Direction.upload fs gs = refl
set_held_frames-set s Direction.download fs gs = refl

set_held_frames_self : (s : State) (d : Direction) → set_held_frames s d (held_frames s d) ≡ s
set_held_frames_self s Direction.upload = refl
set_held_frames_self s Direction.download = refl

websocket-set :
    (s : State) (d : Direction) (fs : List Frame)
    → websocket (set_held_frames s d fs) d ≡ websocket s d
websocket-set s Direction.upload fs = refl
websocket-set s Direction.download fs = refl

websocket-set_self :
    (s : State) (d : Direction) (p : Option WebsocketPeer) → websocket (set_websocket s d p) d ≡ p
websocket-set_self s Direction.upload p = refl
websocket-set_self s Direction.download p = refl

-- Holding a frame appends it and cuts the queue at its limit.
hold_frame_lem :
    (d : Direction) (f : Frame) (s : State)
    → length (held_frames s d) ≤ max_held_frames
    → hold_frame d f s ≡ set_held_frames s d (take max_held_frames (held_frames s d ++ f ∷ []))
unfolding hold_frame
hold_frame_lem d f s h = elim (Bool-cases (length (held_frames s d) == max_held_frames)) [
  | inl full ↦
      rw (full, take-append_length (held_frames s d) (f ∷ []) max_held_frames ((==_iff _ _).0 full))
        (sym (set_held_frames_self s d))
  | inr room ↦ rw (
    room,
    take_all max_held_frames (held_frames s d ++ f ∷ [])
        (ground (arith, length-append (held_frames s d) (f ∷ []))),
  )
]

-- The commands that frames from a side arrive as.
abbrev pub frames_from : Direction → List Frame → List Command
frames_from d fs = map (Command.websocket_data d) fs

module _ (ack : Position → Bytes) where
  run-held_step :
      (d : Direction) (f : Frame) (cs : List Command) (s : State)
      → websocket s (other d) ≡ none
      → run ack (Command.websocket_data d f ∷ cs) s ≡ run ack cs (hold_frame (other d) f s)
  unfolding handle Handlers.relay_frame run
  run-held_step d f cs s e = ground arith

  run-sent_step :
      (d : Direction) (f : Frame) (cs : List Command) (s : State) (p : WebsocketPeer)
      → websocket s (other d) ≡ some p
      → run ack (Command.websocket_data d f ∷ cs) s
        ≡ ((run ack cs s).0, send_to p.commands f ∷ (run ack cs s).1)
  unfolding handle Handlers.relay_frame run
  run-sent_step d f cs s p e = ground arith

  run-held :
      (d : Direction) (fs : List Frame) (cs : List Command) (s : State)
      → websocket s (other d) ≡ none
      → length (held_frames s (other d)) ≤ max_held_frames
      → run ack (frames_from d fs ++ cs) s
        ≡ run ack cs
            (set_held_frames s (other d) (take max_held_frames (held_frames s (other d) ++ fs)))
  run-held d [] cs s e h =
      rw
        (
          append-nil (held_frames s (other d)),
          take_all max_held_frames (held_frames s (other d)) h,
          set_held_frames_self s (other d),
        )
        refl
  run-held d (f ∷ fs) cs s e h =
      let to = other d in
      let held = held_frames s to in
      let kept = take max_held_frames (held ++ f ∷ []) in
      let t = set_held_frames s to kept in
      rw (run-held_step d f (frames_from d fs ++ cs) s e, hold_frame_lem to f s h)
        (rw
          (run-held d fs cs t (websocket-set s to kept ∙ e) (
            rw (held_frames-set s to kept)
              (omega (arith, length-take max_held_frames (held ++ f ∷ [])))))
          (rw
            (
              held_frames-set s to kept,
              set_held_frames-set s to kept (take max_held_frames (kept ++ fs)),
              take-take-append max_held_frames (held ++ f ∷ []) fs,
              append_assoc held (f ∷ []) fs,
            )
            refl))

  run-sent :
      (d : Direction) (fs : List Frame) (s : State) (p : WebsocketPeer)
      → websocket s (other d) ≡ some p
      → (run ack (frames_from d fs) s).1 ≡ map (send_to p.commands) fs
  unfolding run
  run-sent d [] s p e = refl
  run-sent d (f ∷ fs) s p e =
      ap (λ o. o.1) (run-sent_step d f (frames_from d fs) s p e)
      ∙ ap (◌∷◌ (send_to p.commands f)) (run-sent d fs s p e)

  run-start_websocket :
      (d : Direction) (p : WebsocketPeer) (r : Channel) (cs : List Command) (s : State)
      → websocket s d ≡ none
      → (run ack (Command.start_websocket d p r ∷ cs) s).1
        ≡ map (send_to p.commands) (held_frames s d)
          ++ (Effect.answer r Answer.done
              ∷ (run ack cs (set_websocket (set_held_frames s d []) d (some p))).1)
  unfolding run handle Handlers.start_websocket
  run-start_websocket d p r cs s e = simp (nobody, append-nil, append_assoc)
    where
      nobody : replace_websocket (websocket s d) ≡ []
      nobody = ap replace_websocket e

  -- Signaling that one peer sends while the other is away reaches the other when it connects, in
  -- the order in which it was sent: first what was held already, then the new frames, as far as
  -- there is room for 64. What is sent after that reaches it at once, in order as well.
  pub signaling_waits :
      (d : Direction) (before after : List Frame) (p : WebsocketPeer) (r : Channel) (s : State)
      → websocket s (other d) ≡ none
      → length (held_frames s (other d)) ≤ max_held_frames
      → (run ack
          (frames_from d before ++ Command.start_websocket (other d) p r ∷ frames_from d after)
          s).1
        ≡ map (send_to p.commands) (take max_held_frames (held_frames s (other d) ++ before))
          ++ Effect.answer r Answer.done ∷ map (send_to p.commands) after
  signaling_waits d before after p r s e h =
      let to = other d in
      let kept = take max_held_frames (held_frames s to ++ before) in
      let t = set_held_frames s to kept in
      let u = set_websocket (set_held_frames t to []) to (some p) in
      rw
        (
          run-held d before (Command.start_websocket to p r ∷ frames_from d after) s e h,
          run-start_websocket to p r (frames_from d after) t (websocket-set s to kept ∙ e),
          held_frames-set s to kept,
          run-sent d after u p (websocket-set_self (set_held_frames t to []) to (some p)),
        )
        refl
