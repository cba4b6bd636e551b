-- ===== src/Client/PeerExchange/Completion.antt =====
-- That a peer-to-peer transfer of rust-client/glopfile/src/downloader_client.rs and
-- rust-client/glopfile/src/uploader_client.rs delivers the content.
use glopfile.Base.{
  map-append, ℕ, zero, suc, ◌+◌, ◌≤◌, ◌<◌, ◌≡◌, refl, sym, ap, ◌∙◌, subst, Bytes, List, [], ◌∷◌,
  ◌++◌, map, Option, some, Result, ok, proceed, length, take, take_all, length-take, u64_mod, arith,
}
use native.Mathlib.Decide.{dec_lt}
use glopfile.Client.Decrypted.{IoError, WriteState, fresh, offset}
use glopfile.Client.PeerMessages.{DataRequest, DownloaderMessage, UploaderMessage}
use glopfile.Client.PeerDownload.{
  DownloadState, Outcome, Handled, map_handled, and_progress, handle_uploader_message,
  connect_message,
}
use glopfile.Client.PeerDownload.Window.{Tiles, Tiles-append, requests_fill_window}
use glopfile.Client.PeerExchange.{
  Exchange, Side, takes, uploader_turn, after_handling, downloader_turn, turn, turns, start,
}
use glopfile.Client.PeerExchange.Answers.{
  answer, Tiles-le, Going, Ended, uploader-Served, finish_lem, arrive_lem,
}

-- Rounds in which the uploader takes a turn, and then the downloader.
abbrev pub rounds : ℕ → List Side
rounds zero = []
rounds (suc n) = Side.uploader ∷ Side.downloader ∷ rounds n

module _ (decrypt : Bytes → Result IoError Bytes) (content plaintext : Bytes)
    (bound : length content < u64_mod) (decrypts : decrypt content ≡ ok plaintext) where
  -- After a turn of the downloader more of the content has arrived, or all of it.
  data Advanced (k : ℕ) (y : Exchange) : Type 0 where
    goes_on : (g : Going content y) → k < g.arrived → Advanced k y
    has_ended : Ended y → Advanced k y

  last_lem :
      (x : Exchange) (g : Going content x) (r : DataRequest) (answered : List DataRequest)
      → r.offset ≡ g.arrived
      → g.arrived + r.len ≡ length content
      → Ended (
          downloader_turn decrypt content
            (ok tt)
            (Outcome.returned proceed)
            (map (answer content) (r ∷ answered))
            x)
  last_lem x g r answered o e =
      let (ps, a) = arrive_lem decrypt content x.state g.arrived r g.holds g.more o in
      let whole : take (g.arrived + r.len) content ≡ content =
        take_all (g.arrived + r.len) content (omega (arith, e)) in
      let (h, f, c, b) =
        finish_lem decrypt content plaintext decrypts
          (record x.state {
            decrypted_file = WriteState.unwritten (take (g.arrived + r.len) content);
          })
          (ap WriteState.unwritten whole) in
      subst
        (λ (u : Option Handled).
          Ended (after_handling decrypt content (ok tt) u (map (answer content) answered) x))
        (sym (a ∙ ap (map_handled decrypt (length content) takes (and_progress ps)) f))
        (record { complete = c; returned = b })

  next_lem :
      (x : Exchange) (g : Going content x) (r : DataRequest) (answered : List DataRequest)
      → r.offset ≡ g.arrived
      → 0 < r.len
      → Tiles (g.arrived + r.len) g.sent answered
      → g.arrived + r.len < length content
      → Advanced g.arrived (
          downloader_turn decrypt content
            (ok tt)
            (Outcome.returned proceed)
            (map (answer content) (r ∷ answered))
            x)
  next_lem x g r answered o p t l =
      let k = g.arrived + r.len in
      let s : DownloadState = record x.state {
        decrypted_file = WriteState.unwritten (take k content);
      } in
      let n : length (take k content) ≡ k = omega (arith, length-take k content, l) in
      let low : k ≤ x.state.requested_offset = omega (
        arith,
        Tiles-le k g.sent answered t,
        Tiles-le g.sent x.state.requested_offset g.asked g.to_answer,
      ) in
      let (ps, a) = arrive_lem decrypt content x.state g.arrived r g.holds g.more o in
      let (rs, f, tiles) =
        requests_fill_window decrypt (length content) takes (λ m. refl) bound (ok tt) s k
          (unfold offset in ap some n) l low g.inside in
      subst
        (λ (u : Option Handled).
          Advanced g.arrived
            (after_handling decrypt content (ok tt) u (map (answer content) answered) x))
        (sym (a ∙ ap (map_handled decrypt (length content) takes (and_progress ps)) f))
        (goes_on
          (record {
            arrived = k;
            sent = g.sent;
            answered = answered;
            asked = g.asked ++ rs;
            downloads = refl;
            uploads = g.uploads;
            holds = refl;
            more = l;
            responses = refl;
            requests = rw (map-append DownloaderMessage.data_request g.asked rs) (
                ap (λ (l : List DownloaderMessage). l ++ map DownloaderMessage.data_request rs)
                  g.requests);
            to_come = t;
            to_answer = Tiles-append g.sent x.state.requested_offset _ g.asked rs g.to_answer tiles;
            inside = ground (arith, g.inside);
            full = ground (arith, g.full);
          })
          (omega (arith, p)))

  advance_lem :
      (x : Exchange) (g : Going content x) (answered : List DataRequest)
      → Tiles g.arrived g.sent answered
      → g.arrived < g.sent
      → Advanced g.arrived (
          downloader_turn decrypt content
            (ok tt)
            (Outcome.returned proceed)
            (map (answer content) answered)
            x)
  advance_lem x g [] t l = absurd (omega (arith, t))
  advance_lem x g (r ∷ answered) (o, p, c, t) l =
      let inside : g.arrived + r.len ≤ length content = omega (
        arith,
        Tiles-le (g.arrived + r.len) g.sent answered t,
        Tiles-le g.sent x.state.requested_offset g.asked g.to_answer,
        g.inside,
      ) in
      elim (dec_lt (g.arrived + r.len) (length content)) [
        | yes l ↦ next_lem x g r answered o p t l
        | no l ↦ has_ended (last_lem x g r answered o (omega (arith, inside)))
      ]

  downloader_turn-at :
      (P : Exchange → Type 0) (x : Exchange) (g : Going content x)
      → P (
          downloader_turn decrypt content
            (ok tt)
            (Outcome.returned proceed)
            (map (answer content) g.answered)
            x)
      → P (turn decrypt content (ok tt) Side.downloader x)
  unfolding turn
  downloader_turn-at P x g h =
      subst (λ (o : Outcome). P (downloader_turn decrypt content (ok tt) o x.to_downloader x))
        (sym g.downloads)
        (subst
          (λ (ms : List UploaderMessage).
            P (downloader_turn decrypt content (ok tt) (Outcome.returned proceed) ms x))
          (sym g.responses) h)

  -- The exchange goes on as it should, or has ended well.
  data Fine (x : Exchange) : Type 0 where
    going : Going content x → Fine x
    ended : Ended x → Fine x

  uploader_turn-Ended :
      (o : Outcome) (ms : List DownloaderMessage) (x : Exchange)
      → Ended x
      → Ended (uploader_turn decrypt content (ok tt) o ms x)
  uploader_turn-Ended (Outcome.returned proceed) (m ∷ ms) x e = record {
    complete = e.complete;
    returned = e.returned;
  }
  uploader_turn-Ended o ms x e = e

  turn-Ended : (s : Side) (x : Exchange) → Ended x → Ended (turn decrypt content (ok tt) s x)
  unfolding turn
  turn-Ended Side.uploader x e = uploader_turn-Ended x.uploader x.to_uploader x e
  turn-Ended Side.downloader x e =
      subst (λ (o : Outcome). Ended (downloader_turn decrypt content (ok tt) o x.to_downloader x))
        (sym e.returned) e

  waiting_lem :
      (x : Exchange) (g : Going content x) (answered : List DataRequest)
      → Tiles g.arrived g.sent answered
      → Fine (
          downloader_turn decrypt content
            (ok tt)
            (Outcome.returned proceed)
            (map (answer content) answered)
            x)
  waiting_lem x g [] t = going g
  waiting_lem x g (r ∷ answered) (o, p, c, t) =
      elim (advance_lem x g (r ∷ answered) (o, p, c, t)
        (omega (arith, p, Tiles-le (g.arrived + r.len) g.sent answered t))) [
          | goes_on h l ↦ going h
          | has_ended e ↦ ended e
        ]

  turn-Fine : (s : Side) (x : Exchange) → Fine x → Fine (turn decrypt content (ok tt) s x)
  turn-Fine s x (ended e) = ended (turn-Ended s x e)
  turn-Fine Side.uploader x (going g) =
      going ((uploader-Served decrypt content (ok tt) bound x g).0)
  turn-Fine Side.downloader x (going g) =
      downloader_turn-at Fine x g (waiting_lem x g g.answered g.to_come)

  turns-Fine : (ss : List Side) (x : Exchange) → Fine x → Fine (turns decrypt content (ok tt) ss x)
  unfolding turns
  turns-Fine [] x f = f
  turns-Fine (s ∷ ss) x f = turns-Fine ss (turn decrypt content (ok tt) s x) (turn-Fine s x f)

  turns-Ended :
      (ss : List Side) (x : Exchange) → Ended x → Ended (turns decrypt content (ok tt) ss x)
  unfolding turns
  turns-Ended [] x e = e
  turns-Ended (s ∷ ss) x e = turns-Ended ss (turn decrypt content (ok tt) s x) (turn-Ended s x e)

  rounds-Ended :
      (n : ℕ) (x : Exchange) (g : Going content x)
      → length content ≤ g.arrived + n
      → Ended (turns decrypt content (ok tt) (rounds n) x)
  unfolding turns
  rounds-Ended zero x g b = absurd (omega (arith, b, g.more))
  rounds-Ended (suc n) x g b =
      let (h, e, l) = uploader-Served decrypt content (ok tt) bound x g in
      let y = turn decrypt content (ok tt) Side.uploader x in
      elim (downloader_turn-at (Advanced h.arrived) y h
        (advance_lem y h h.answered h.to_come (omega (arith, e, l)))) [
          | goes_on i m ↦
              rounds-Ended n (turn decrypt content (ok tt) Side.downloader y) i
                (omega (arith, b, e, m))
          | has_ended f ↦ turns-Ended (rounds n) (turn decrypt content (ok tt) Side.downloader y) f
        ]

  rounds-Fine :
      (x : Exchange) → Fine x → Ended (turns decrypt content (ok tt) (rounds (length content)) x)
  rounds-Fine x (going g) = rounds-Ended (length content) x g (omega arith)
  rounds-Fine x (ended e) = turns-Ended (rounds (length content)) x e

  turns-append :
      (ss ts : List Side) (x : Exchange)
      → turns decrypt content (ok tt) (ss ++ ts) x
        ≡ turns decrypt content (ok tt) ts (turns decrypt content (ok tt) ss x)
  unfolding turns
  turns-append [] ts x = refl
  turns-append (s ∷ ss) ts x = turns-append ss ts (turn decrypt content (ok tt) s x)

  start-Going : 0 < length content → Going content (start decrypt content (ok tt))
  unfolding start connect_message handle_uploader_message
  start-Going l =
      let s : DownloadState = record { decrypted_file = fresh; requested_offset = 0 } in
      let (rs, f, tiles) =
        requests_fill_window decrypt (length content) takes (λ m. refl) bound (ok tt) s 0
          (unfold offset in refl) l (omega arith) (omega arith) in
      rw f (record {
        arrived = 0;
        sent = 0;
        answered = [];
        asked = rs;
        downloads = refl;
        uploads = refl;
        holds = refl;
        more = l;
        responses = refl;
        requests = refl;
        to_come = refl;
        to_answer = tiles;
        inside = ground arith;
        full = ground arith;
      })

  -- A peer-to-peer transfer of content that decrypts, of at least one byte and less than 2 ^ 64, over a
  -- channel that keeps the order of its messages and takes them all, delivers it: in whatever order the
  -- two ends take any first turns, after as many further rounds of both as the content has bytes the
  -- downloader's file is complete and its handler has returned, without a panic or an error.
  pub exchange_completes :
      (ss : List Side)
      → 0 < length content
      → Ended (
          turns decrypt content
            (ok tt)
            (ss ++ rounds (length content))
            (start decrypt content (ok tt)))
  exchange_completes ss l =
      subst Ended (sym (turns-append ss (rounds (length content)) (start decrypt content (ok tt))))
        (rounds-Fine _ (turns-Fine ss (start decrypt content (ok tt)) (going (start-Going l))))
