-- ===== src/Session/Lifecycle.antt =====
-- When a session of glopfile-relay/src/session.rs ends.
use glopfile.Base.{
  ℕ, Bool, true, false, ◌↔◌, ◌≡◌, ◌≢◌, refl, ap, ◌∙◌, map, ◌⊎◌, List, [], ◌∷◌, Option, none, some,
  proceed, break, arith, Bytes, add_u64,
}
use glopfile.Session.Types.{
  Position, Token, Channel, Chunk, Peer, Uploader, Downloader, DownloaderSlot, Pending, State,
  Command,
}
use glopfile.Session.Handlers
use glopfile.Session.Handlers.{uploader_token}
use glopfile.Session.Relay
use glopfile.Session.Relay.{handle}
use glopfile.Session.Task.{run, run_proceeds}

abbrev pub is_queued : Pending → Bool
is_queued (Pending.queued c w p n) = true
is_queued q = false

-- The situations in which a command ends the session: the download is declared finished and no
-- uploader is left to be told so, the connected downloader leaves with everything, or the uploader
-- of a finished download leaves.
abbrev pub Ends : Command → State → Type 0
Ends (Command.finish_download r) s = (s.uploader ≡ none) ⊎ (is_queued s.pending ≡ true)
Ends (Command.disconnected t (Peer.downloader completed)) s =
    (completed ≡ true)
    × (d : Downloader) × (s.downloader ≡ DownloaderSlot.connected d)
    × (d.token ≡ t)
Ends (Command.disconnected t Peer.uploader) s =
    (s.downloader ≡ DownloaderSlot.finished) × (uploader_token s ≡ some t)
Ends c s = ⊥

-- Clients that leave, one after the other.
abbrev pub departures : List (Token × Peer) → List Command
departures = map (λ e. Command.disconnected e.0 e.1)

module _ (ack : Position → Bytes) where
  Ends-break : (c : Command) (s : State) → Ends c s → (handle ack c s).2 ≡ break tt
  unfolding handle Handlers.finish_download Handlers.disconnected Handlers.terminate_uploader
  Ends-break c s h = ground arith

  break-Ends : (c : Command) (s : State) → (handle ack c s).2 ≡ break tt → Ends c s
  unfolding handle Handlers.finish_download Handlers.disconnected Handlers.terminate_uploader
  break-Ends c s h = ground arith

  break_finished :
      (c : Command) (s : State)
      → (handle ack c s).2 ≡ break tt
      → (handle ack c s).0.downloader ≡ DownloaderSlot.finished
  unfolding handle Handlers.finish_download Handlers.disconnected Handlers.terminate_uploader
  break_finished c s h = ground arith

  -- A command ends the session exactly in the situations of `Ends`, and leaves the download finished
  -- whenever it does.
  pub break_iff :
      (c : Command) (s : State)
      → ((handle ack c s).2 ≡ break tt)
        ↔ (Ends c s × ((handle ack c s).0.downloader ≡ DownloaderSlot.finished))
  break_iff c s = (λ h. (break-Ends c s h, break_finished c s h), λ h. Ends-break c s h.0)

  -- A finished download ends the session by the time its uploader has left: at once if there is
  -- none or a chunk is queued, and with the departure of the uploader otherwise.
  pub finish_stops :
      (r : Channel) (t : Token) (s : State)
      → (uploader_token s ≡ none) ⊎ (uploader_token s ≡ some t)
      → (run ack (Command.finish_download r ∷ Command.disconnected t Peer.uploader ∷ []) s).0 ≡ none
  unfolding run handle Handlers.finish_download Handlers.disconnected Handlers.terminate_uploader
  finish_stops r t s h = ground arith

  abbrev IsStranded : State → Type 0
  IsStranded s = (s.downloader ≡ DownloaderSlot.finished) × (s.uploader ≡ none)

  disconnected-IsStranded :
      (t : Token) (peer : Peer) (s : State)
      → IsStranded s
      → ((Handlers.disconnected t peer s).1 ≡ proceed)
        × IsStranded (Handlers.disconnected t peer s).0
  unfolding Handlers.disconnected
  disconnected-IsStranded t (Peer.downloader b) s h = ground arith
  disconnected-IsStranded t Peer.uploader s h = ground arith
  disconnected-IsStranded t (Peer.websocket d) s h = ground arith

  start_upload-IsStranded :
      (u : Token) (x : Uploader) (c : Chunk) (w : Option Channel) (p n q : ℕ) (r : Channel)
      (s : State)
      → s.downloader ≡ DownloaderSlot.finished
      → s.uploader ≡ some x
      → s.pending ≡ Pending.queued c w p n
      → q ≢ add_u64 p n
      → IsStranded (Relay.start_upload ack u q r s).0
  unfolding Relay.start_upload Handlers.terminate_uploader Handlers.check_start_position
  start_upload-IsStranded u x c w p n q r s d e f g = ground arith

  departures-IsStranded :
      (es : List (Token × Peer)) (s : State)
      → IsStranded s
      → (t : State) × ((run ack (departures es) s).0 ≡ some t) × IsStranded t
  unfolding run handle
  departures-IsStranded [] s h = (s, refl, h)
  departures-IsStranded ((t, peer) ∷ es) s h =
      let (e, k) = disconnected-IsStranded t peer s h in
      let (u, f, m) = departures-IsStranded es (Handlers.disconnected t peer s).0 k in
      (u, ap (λ o. o.0) (run_proceeds ack (Command.disconnected t peer) (departures es) s e) ∙ f, m)

  -- A finished session with a chunk in its queue can be left without an end: an upload that starts at
  -- an offset other than the one behind the chunk is refused and takes the uploader with it, and
  -- then no departure of anyone stops the session, which stays finished and without an uploader.
  pub finished_stranded :
      (u : Token) (x : Uploader) (c : Chunk) (w : Option Channel) (p n q : ℕ) (r : Channel)
      (es : List (Token × Peer)) (s : State)
      → s.downloader ≡ DownloaderSlot.finished
      → s.uploader ≡ some x
      → s.pending ≡ Pending.queued c w p n
      → q ≢ add_u64 p n
      → (t : State) × ((run ack (Command.start_upload u q r ∷ departures es) s).0 ≡ some t)
        × (t.downloader ≡ DownloaderSlot.finished)
        × (t.uploader ≡ none)
  finished_stranded u x c w p n q r es s d e f g =
      let t = (Relay.start_upload ack u q r s).0 in
      let (v, k, m) =
        departures-IsStranded es t (start_upload-IsStranded u x c w p n q r s d e f g) in
      (
        v,
        ap (λ o. o.0)
              (run_proceeds ack (Command.start_upload u q r) (departures es) s
                (unfold handle in refl))
            ∙ unfold handle in k,
        m.0,
        m.1,
      )
