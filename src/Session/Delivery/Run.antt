-- ===== src/Session/Delivery/Run.antt =====
-- The content that a downloader is sent over the life of a session of
-- glopfile-relay/src/session.rs.
use glopfile.Base.{
  ℕ, ◌≡◌, refl, ◌∙◌, ControlFlow-cases, append-nil, inl, inr, List, [], ◌∷◌, ◌++◌, Option, none,
  some, arith, Bytes, All,
}
use glopfile.Session.Types.{Position, Channel, Uploader, Downloader, State, Command, Answer, Effect}
use glopfile.Session.Relay
use glopfile.Session.Relay.{handle}
use glopfile.Session.Task.{run, run_proceeds, run_breaks, drop_all, drop_queue, waiting, carried}
use glopfile.Session.Delivery.{
  received, received-append, offset_on, IsFresh, IsHonest, Faithful, Agrees, Agrees-append, Feeds,
}
use glopfile.Session.Delivery.Steps.{
  handle-Faithful, handle-Feeds, start_download-Feeds_self, Feeds-answer,
}

module _ (content : Position → ℕ) (ack : Position → Bytes) where
  -- Every chunk that is accepted in the course of the commands is honest.
  abbrev pub IsHonestRun : List Command → State → Type 0
  IsHonestRun [] s = Unit
  IsHonestRun (c ∷ cs) s = IsHonest content s.uploader c × IsHonestRun cs (handle ack c s).0

  module _ (ch : Channel) where
    abbrev Sends : Option Position → Bytes → Type 0
    Sends none bytes = bytes ≡ []
    Sends (some p) bytes = Agrees content p bytes

    Sends-nil : (o : Option Position) → Sends o []
    Sends-nil none = refl
    Sends-nil (some p) = tt

    Sends-append :
        (o q : Option Position) (xs ys : Bytes)
        → Feeds content ch o q xs
        → Sends q ys
        → Sends o (xs ++ ys)
    Sends-append none q xs ys f h = ground arith
    Sends-append (some p) none xs ys f h = rw (h, append-nil xs) f.0
    Sends-append (some p) (some q) xs ys f h = ground (arith, Agrees-append content p q xs ys)

    received-drop_all :
        (ws : List Channel) (fx : List Effect) → received ch (drop_all ws ++ fx) ≡ received ch fx
    unfolding received
    received-drop_all [] fx = refl
    received-drop_all (w ∷ ws) fx = received-drop_all ws fx

    received-drop_queue : (cs : List Command) → received ch (drop_queue cs) ≡ []
    unfolding received
    received-drop_queue [] = refl
    received-drop_queue (c ∷ cs) =
        received-drop_all (carried c) (drop_queue cs) ∙ received-drop_queue cs

    run-Sends :
        (cs : List Command) (s : State)
        → Faithful content s
        → IsHonestRun cs s
        → All (IsFresh ch) cs
        → Sends (offset_on ch s.downloader) (received ch (run ack cs s).1)
    unfolding run received
    run-Sends [] s v h f = Sends-nil (offset_on ch s.downloader)
    run-Sends (c ∷ cs) s v h f =
        let (t, fx, flow) = handle ack c s in
        let step = handle-Feeds content ack ch c s v h.0 f.0 in
        let append =
          Sends-append (offset_on ch s.downloader) (offset_on ch t.downloader) (received ch fx) in
        elim (ControlFlow-cases flow) [
          | inl e ↦ rw (run_proceeds ack c cs s e) (
              rw (received-append ch fx (run ack cs t).1)
                (append _ step (run-Sends cs t (handle-Faithful content ack ch c s v h.0) h.1 f.1)))
          | inr (b, e) ↦ rw (run_breaks ack c cs s e) (
              rw
                (
                  received-append ch fx (drop_all (waiting t.pending) ++ drop_queue cs),
                  received-drop_all (waiting t.pending) (drop_queue cs),
                  received-drop_queue cs,
                )
                (append [] step (Sends-nil (offset_on ch t.downloader))))
        ]

  start_download-IsHonest :
      (d : Downloader) (r : Channel) (u : Option Uploader)
      → IsHonest content u (Command.start_download d r)
  start_download-IsHonest d r none = tt
  start_download-IsHonest d r (some u) = tt

  -- In a session that satisfies the invariant and whose queued chunk, if any, is a piece of the
  -- content: a downloader that connects at an offset, on a channel that no downloader has or
  -- connects on later, is sent content from exactly that offset on, in order and without a gap,
  -- whatever other commands follow: downloaders and uploaders that come, go and are replaced, and
  -- uploads that start over. Each uploader, while it is connected, has to send the content from
  -- where it is, and not beyond the largest offset.
  pub run-start_download-Agrees :
      (d : Downloader) (r : Channel) (cs : List Command) (s : State)
      → Faithful content s
      → IsHonestRun cs (Relay.start_download ack d s).0
      → offset_on d.events s.downloader ≡ none
      → All (IsFresh d.events) cs
      → Agrees content d.position
          (received d.events (run ack (Command.start_download d r ∷ cs) s).1)
  unfolding run handle
  run-start_download-Agrees d r cs s v h off f =
      let (t, fx) = Relay.start_download ack d s in
      let ch = d.events in
      let fx' : List Effect = fx ++ Effect.answer r Answer.done ∷ [] in
      let first =
        Feeds-answer content ack ch r Answer.done (some d.position) (offset_on ch t.downloader) fx
          (start_download-Feeds_self content ack ch d s v refl off) in
      rw (received-append ch fx' (run ack cs t).1) (
        Sends-append ch (some d.position) (offset_on ch t.downloader) (received ch fx') _ first (
          run-Sends ch cs t
            (handle-Faithful content ack ch (Command.start_download d r) s v
              (start_download-IsHonest d r s.uploader))
            h f))
