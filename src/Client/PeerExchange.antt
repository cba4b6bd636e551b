-- ===== src/Client/PeerExchange.antt =====
-- The two ends of a peer-to-peer transfer, of rust-client/glopfile/src/downloader_client.rs and
-- rust-client/glopfile/src/uploader_client.rs, over the two directions of a data channel that keeps
-- the order of its messages and takes them all. The ends take turns in any order.
pub mod Answers
pub mod Completion
use glopfile.Base.{
  ℕ, Bytes, List, [], ◌∷◌, ◌++◌, Option, none, some, Result, ok, err, ControlFlow, proceed, break,
  length,
}
use glopfile.Client.Errors.{Error}
use glopfile.Client.Decrypted.{IoError, WriteState, fresh}
use glopfile.Client.PeerMessages.{DownloaderMessage, UploaderMessage}
use glopfile.Client.PeerDownload.{
  DownloadState, Outcome, Handled, handle_uploader_message, connect_message,
}
use glopfile.Client.PeerUpload.{data_channel_message}

-- The state of the downloader, what is on its way to either end, and how the last message that an end
-- handled came out for it; an end takes no further turn unless it goes on.
pub record Exchange : Type 0 where
  pub state : DownloadState
  pub to_uploader : List DownloaderMessage
  pub to_downloader : List UploaderMessage
  pub downloader : Outcome
  pub uploader : Outcome

pub data Side : Type 0 where
  uploader downloader : Side

-- The channel takes every message.
abbrev pub takes {ℓ} : {M : Type ℓ} → M → Result Error (Unit {0})
takes m = ok tt

module _ (decrypt : Bytes → Result IoError Bytes) (content : Bytes)
    (outcome : Result IoError (Unit {0})) where
  -- The uploader handles the message that came first.
  abbrev pub uploader_turn : Outcome → List DownloaderMessage → Exchange → Exchange
  uploader_turn (Outcome.returned proceed) (m ∷ ms) x =
      let s = data_channel_message content takes (ok (some m)) in
      record x { to_uploader = ms; to_downloader = x.to_downloader ++ s.sent; uploader = s.outcome }
  uploader_turn _ ms x = x

  -- What the handling of a message leaves of an exchange; a handler that has no end is not one that goes
  -- on.
  abbrev pub after_handling : Option Handled → List UploaderMessage → Exchange → Exchange
  after_handling none ms x = record x { to_downloader = ms; downloader = Outcome.panicked }
  after_handling (some h) ms x = record x {
    state = h.state;
    to_uploader = x.to_uploader ++ h.sent;
    to_downloader = ms;
    downloader = h.outcome;
  }

  -- The downloader handles the message that came first.
  abbrev pub downloader_turn : Outcome → List UploaderMessage → Exchange → Exchange
  downloader_turn (Outcome.returned proceed) (m ∷ ms) x =
      after_handling
        (handle_uploader_message decrypt (length content) takes outcome (some m) x.state) ms x
  downloader_turn _ ms x = x

  unfoldable pub turn : Side → Exchange → Exchange
  turn Side.uploader x = uploader_turn x.uploader x.to_uploader x
  turn Side.downloader x = downloader_turn x.downloader x.to_downloader x

  unfoldable pub turns : List Side → Exchange → Exchange
  unfolding turn
  turns [] x = x
  turns (s ∷ ss) x = turns ss (turn s x)

  -- The begin of an exchange: the downloader that has nothing yet handles the greeting of the uploader.
  unfoldable pub start : Exchange
  start =
      let state : DownloadState = record { decrypted_file = fresh; requested_offset = 0 } in
      after_handling
        (connect_message decrypt (length content) takes outcome (some UploaderMessage.hello) state)
        []
        (record {
          state = state;
          to_uploader = [];
          to_downloader = [];
          downloader = Outcome.returned proceed;
          uploader = Outcome.returned proceed;
        })
