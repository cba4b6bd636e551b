-- ===== src/Client/Browser/DownloadFile.antt =====
-- `DownloadFile` of rust-client/glopfile/src/downloader_client/web.rs, which writes to a file of
-- JavaScript. The promise of a `write` is made when its future is polled for the first time; what a poll
-- of it yields is an argument.
pub mod Writes
use Prim.Native.String.{String}
use glopfile.Base.{Bytes, List, [], ◌∷◌, ◌++◌, Option, none, some, Result, ok, err}
use glopfile.Client.Decrypted.{Poll}

-- The future of a write: not polled yet, with its promise made, or ended with an error.
pub data PendingWrite : Type 0 where
  unpolled : Bytes → PendingWrite
  running : Bytes → PendingWrite
  spent : PendingWrite

abbrev pub Yield : Type 0
Yield = Poll (Result String (Unit {0}))

-- What JavaScript sees: a call of `write`, and that its promise is settled.
pub data Event : Type 0 where
  called : Bytes → Event
  settled : Event

-- What a poll of the file yields: a panic, that it waits, an error, or success.
pub data Wrote : Type 0 where
  panicked waits : Wrote
  failed : String → Wrote
  done : Wrote

-- What a poll yields, what JavaScript sees of it, and the write that is pending after it.
pub record Polled : Type 0 where
  pub result : Wrote
  pub events : List Event
  pub pending_write : Option PendingWrite

-- A poll of the future of a write whose promise is there.
abbrev poll_running : Yield → List Event → Bytes → Polled
poll_running Poll.pending events bytes = record {
  result = Wrote.waits;
  events = events;
  pending_write = some (PendingWrite.running bytes);
}
poll_running (Poll.ready (err e)) events bytes = record {
  result = Wrote.failed e;
  events = events ++ Event.settled ∷ [];
  pending_write = some PendingWrite.spent;
}
poll_running (Poll.ready (ok _)) events bytes = record {
  result = Wrote.done;
  events = events ++ Event.settled ∷ [];
  pending_write = none;
}

-- `DownloadFile::poll_pending_write`. A write that has ended well is taken away by its callers at once.
unfoldable pub poll_pending_write : Yield → Option PendingWrite → Polled
poll_pending_write y none = record { result = Wrote.done; events = []; pending_write = none }
poll_pending_write y (some (PendingWrite.unpolled bytes)) =
    poll_running y (Event.called bytes ∷ []) bytes
poll_pending_write y (some (PendingWrite.running bytes)) = poll_running y [] bytes
poll_pending_write y (some PendingWrite.spent) = record {
  result = Wrote.panicked;
  events = [];
  pending_write = some PendingWrite.spent;
}

abbrev if_done : Polled → Option PendingWrite → Polled
if_done p next = elim p.result [ Wrote.done ↦ record p { pending_write = next } | _ ↦ p ]

-- `DownloadFile::poll_write`, which takes the whole buffer if it takes any of it.
unfoldable pub poll_write : Bytes → Yield → Option PendingWrite → Polled
unfolding poll_pending_write
poll_write buf y w = if_done (poll_pending_write y w) (some (PendingWrite.unpolled buf))

-- `DownloadFile::poll_flush`, and `poll_close`, which is the same.
unfoldable pub poll_flush : Yield → Option PendingWrite → Polled
unfolding poll_pending_write
poll_flush y w = if_done (poll_pending_write y w) none
