-- ===== src/Client/PeerExchange/Answers.antt =====
-- What the ends of a peer-to-peer transfer of rust-client/glopfile/src/downloader_client.rs and
-- rust-client/glopfile/src/uploader_client.rs answer each other.
use glopfile.Base.{
  map-append, ℕ, zero, suc, ◌+◌, ◌≤◌, ◌<◌, ◌≡◌, refl, sym, ap, ◌∙◌, subst, Bytes, List, [], ◌∷◌,
  ◌++◌, map, some, Result, ok, proceed, break, true, ◌==◌, length, take, drop, length-take, u64_mod,
  add_u64, arith,
}
use glopfile.Client.Decrypted.{IoError, WriteState, offset, write_all, poll_flush}
use glopfile.Client.Decrypted.Laws.{write_all-unwritten}
use glopfile.Client.PeerMessages.{DataRequest, DownloaderMessage, UploaderMessage}
use glopfile.Client.PeerDownload.{
  DownloadState, Outcome, Handled, map_handled, and_progress, request_data_or_finish,
  handle_uploader_message,
}
use glopfile.Client.PeerDownload.Window.{Tiles, Tiles-append, window}
use glopfile.Client.PeerUpload.{data_channel_message}
use glopfile.Client.PeerUpload.Serving.{read_lem}
use glopfile.Client.PeerExchange.{Exchange, Side, takes, uploader_turn, turn}

-- The answer to a request, from the content.
abbrev pub answer : Bytes → DataRequest → UploaderMessage
answer content r = UploaderMessage.data_response r.offset (take r.len (drop r.offset content))

-- Requests only go up.
pub Tiles-le : (a b : ℕ) (rs : List DataRequest) → Tiles a b rs → a ≤ b
Tiles-le a b [] t = omega (arith, t)
Tiles-le a b (r ∷ rs) (o, p, l, t) = omega (arith, Tiles-le (a + r.len) b rs t)

take-nil : (n : ℕ) → take {A = ℕ} n [] ≡ []
take-nil zero = refl
take-nil (suc n) = refl

take-take-drop : (k n : ℕ) (xs : Bytes) → take k xs ++ take n (drop k xs) ≡ take (k + n) xs
take-take-drop zero n xs = ap (λ (j : ℕ). take j xs) (omega arith)
take-take-drop (suc k) n [] = take-nil n ∙ sym (take-nil (suc k + n))
take-take-drop (suc k) n (x ∷ xs) =
    let e : suc (k + n) ≡ suc k + n = omega arith in
    ap (◌∷◌ x) (take-take-drop k n xs) ∙ ap (λ (j : ℕ). take j (x ∷ xs)) e

module _ (content : Bytes) where
  -- An exchange that goes on: so much of the content has arrived, the responses that are on their way
  -- reach from there to what was answered, and the requests from there to what was requested.
  pub record Going (x : Exchange) : Type 0 where
    pub arrived : ℕ
    pub sent : ℕ
    pub answered : List DataRequest
    pub asked : List DataRequest
    pub downloads : x.downloader ≡ Outcome.returned proceed
    pub uploads : x.uploader ≡ Outcome.returned proceed
    pub holds : x.state.decrypted_file ≡ WriteState.unwritten (take arrived content)
    pub more : arrived < length content
    pub responses : x.to_downloader ≡ map (answer content) answered
    pub requests : x.to_uploader ≡ map DownloaderMessage.data_request asked
    pub to_come : Tiles arrived sent answered
    pub to_answer : Tiles sent x.state.requested_offset asked
    pub inside : x.state.requested_offset ≤ length content
    pub full : window arrived (length content) ≤ x.state.requested_offset

-- The downloader has all of the content and has ended.
pub record Ended (x : Exchange) : Type 0 where
  pub complete : x.state.decrypted_file ≡ WriteState.complete
  pub returned : x.downloader ≡ Outcome.returned (break tt)

module _ (decrypt : Bytes → Result IoError Bytes) (content : Bytes)
    (outcome : Result IoError (Unit {0})) (bound : length content < u64_mod) where
  serve_lem :
      (r : DataRequest) (m : ℕ)
      → r.offset ≡ m
      → m + r.len ≤ length content
      → let s = data_channel_message content takes (ok (some (DownloaderMessage.data_request r))) in
        (s.sent ≡ answer content r ∷ []) × (s.outcome ≡ Outcome.returned proceed)
  unfolding data_channel_message
  serve_lem r m o l = rw (read_lem content r.offset r.len bound (omega (arith, o, l))) (refl, refl)

  -- After a turn of the uploader the exchange goes on, and something is on its way to the downloader.
  abbrev pub Served : ℕ → Exchange → Type 0
  Served k y = (g : Going content y) × (g.arrived ≡ k) × (k < g.sent)

  uploader_turn-Served :
      (x : Exchange) (g : Going content x) (asked : List DataRequest)
      → x.to_uploader ≡ map DownloaderMessage.data_request asked
      → Tiles g.sent x.state.requested_offset asked
      → Served g.arrived (
          uploader_turn decrypt content outcome
            (Outcome.returned proceed)
            (map DownloaderMessage.data_request asked)
            x)
  uploader_turn-Served x g [] e t = (g, refl, ground (arith, t, g.more, g.full))
  uploader_turn-Served x g (r ∷ asked) e (o, p, l, t) =
      let le = Tiles-le (g.sent + r.len) x.state.requested_offset asked t in
      let (s, q) = serve_lem r g.sent o (omega (arith, le, g.inside)) in
      (
        record {
          arrived = g.arrived;
          sent = g.sent + r.len;
          answered = g.answered ++ r ∷ [];
          asked = asked;
          downloads = g.downloads;
          uploads = q;
          holds = g.holds;
          more = g.more;
          responses =
              rw (s, map-append (answer content) g.answered (r ∷ []))
                (ap (λ (l : List UploaderMessage). l ++ answer content r ∷ []) g.responses);
          requests = refl;
          to_come =
              Tiles-append g.arrived g.sent (g.sent + r.len) g.answered (r ∷ []) g.to_come
                (o, p, l, refl);
          to_answer = t;
          inside = g.inside;
          full = g.full;
        },
        refl,
        omega (arith, p, Tiles-le g.arrived g.sent g.answered g.to_come),
      )

  pub uploader-Served :
      (x : Exchange) (g : Going content x)
      → Served g.arrived (turn decrypt content outcome Side.uploader x)
  unfolding turn
  uploader-Served x g =
      subst
        (λ (o : Outcome).
          Served g.arrived (uploader_turn decrypt content outcome o x.to_uploader x))
        (sym g.uploads)
        (subst
          (λ (ms : List DownloaderMessage).
            Served g.arrived
              (uploader_turn decrypt content outcome (Outcome.returned proceed) ms x))
          (sym g.requests) (uploader_turn-Served x g g.asked g.requests g.to_answer))

module _ (decrypt : Bytes → Result IoError Bytes) (content plaintext : Bytes)
    (decrypts : decrypt content ≡ ok plaintext) where
  pub finish_lem :
      (s : DownloadState)
      → s.decrypted_file ≡ WriteState.unwritten content
      → (h : Handled) × (request_data_or_finish decrypt (length content) takes (ok tt) s ≡ some h)
        × (h.state.decrypted_file ≡ WriteState.complete)
        × (h.outcome ≡ Outcome.returned (break tt))
  unfolding request_data_or_finish offset poll_flush
  finish_lem s e = (
    record {
      state = record s { decrypted_file = WriteState.complete };
      sent = DownloaderMessage.transfer_finished ∷ [];
      progress = [];
      outcome = Outcome.returned (break tt);
    },
    ground (arith, e, decrypts),
    refl,
    refl,
  )

module _ (decrypt : Bytes → Result IoError Bytes) (content : Bytes) where
  -- The arrival of the answer to a request for what is needed next.
  pub arrive_lem :
      (s : DownloadState) (k : ℕ) (r : DataRequest)
      → s.decrypted_file ≡ WriteState.unwritten (take k content)
      → k < length content
      → r.offset ≡ k
      → (ps : List (ℕ × ℕ)) × (handle_uploader_message decrypt
            (length content)
            takes
            (ok tt)
            (some (answer content r))
            s
          ≡ map_handled decrypt (length content) takes (and_progress ps) (
              request_data_or_finish decrypt
                (length content)
                takes
                (ok tt)
                (record s { decrypted_file = WriteState.unwritten (take (k + r.len) content) })))
  unfolding handle_uploader_message offset
  arrive_lem s k r e l o =
      let bytes = take r.len (drop r.offset content) in
      let n : length (take k content) ≡ k = omega (arith, length-take k content, l) in
      let same : (k == r.offset) ≡ true = ground (arith, o) in
      let w : write_all bytes (WriteState.unwritten (take k content))
          ≡ some (WriteState.unwritten (take (k + r.len) content), ok tt) =
        write_all-unwritten bytes (take k content)
        ∙ ap (λ (b : Bytes). some (WriteState.unwritten b, ok tt))
            (ap (λ (j : ℕ). take k content ++ take r.len (drop j content)) o
              ∙ take-take-drop k r.len content) in
      ((add_u64 k (length bytes), length content) ∷ [], ground (arith, e, n, same, w))
