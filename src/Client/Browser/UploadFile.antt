-- ===== src/Client/Browser/UploadFile.antt =====
-- `UploadFile` of rust-client/glopfile/src/uploader_client/web.rs, which reads a file of JavaScript
-- piece by piece. What a poll of the promise of `readAt` yields is an argument.
pub mod Reads
use Prim.Native.String.{String}
use glopfile.Base.{
  ℕ, ◌<◌, Bytes, List, [], ◌∷◌, Option, none, some, Result, ok, err, length, take, drop, min, ltb,
  if◌then◌else◌, add_u64,
}
use glopfile.Client.Decrypted.{Poll}

-- A future of `readAt` for an offset and a length; once it has ended with an error it is spent.
pub data PendingRead : Type 0 where
  running : (at len : ℕ) → PendingRead
  spent : PendingRead

-- `UploadFileReadState`.
pub data ReadState : Type 0 where
  idle : ReadState
  reading : PendingRead → ReadState
  available : Bytes → ReadState

pub record UploadFile : Type 0 where
  pub offset : ℕ
  pub pending_read : ReadState

-- The file of `provision_file`.
abbrev pub fresh : UploadFile
fresh = record { offset = 0; pending_read = ReadState.idle }

-- What the promise yields at a poll, for an offset and a length: an error, or a value that may not be
-- an array of bytes.
abbrev pub Answer : Type 0
Answer = ℕ → ℕ → Poll (Result String (Option Bytes))

-- What a poll of the file yields: a panic, that it waits, an error, or the bytes that it put in the
-- buffer.
pub data Read : Type 0 where
  panicked waits : Read
  failed : String → Read
  filled : Bytes → Read

-- The bytes that are there are handed out as far as the buffer goes.
unfoldable pub hand_out : ℕ → Bytes → ℕ → Read × UploadFile
hand_out size bytes offset = (
  Read.filled (take (min (length bytes) size) bytes),
  record {
    offset = offset;
    pending_read =
        if ltb size (length bytes) then ReadState.available (drop size bytes) else ReadState.idle;
  },
)

-- A poll of the future, which panics if that is spent.
unfoldable pub poll_running : ℕ → Answer → ℕ → ℕ → ℕ → Read × UploadFile
unfolding hand_out
poll_running size answer at len offset = elim (answer at len) [
  | Poll.pending ↦ (
    Read.waits,
    record { offset = offset; pending_read = ReadState.reading (PendingRead.running at len) },
  )
  | Poll.ready (err e) ↦ (
    Read.failed e,
    record { offset = offset; pending_read = ReadState.reading PendingRead.spent },
  )
  | Poll.ready (ok none) ↦
      (Read.panicked, record { offset = offset; pending_read = ReadState.idle })
  | Poll.ready (ok (some bytes)) ↦ hand_out size bytes (add_u64 offset (length bytes))
]

abbrev poll_state : ℕ → Answer → ReadState → ℕ → Read × UploadFile
poll_state size answer ReadState.idle offset = poll_running size answer offset size offset
poll_state size answer (ReadState.reading (PendingRead.running at len)) offset =
    poll_running size answer at len offset
poll_state size answer (ReadState.reading PendingRead.spent) offset =
    (Read.panicked, record { offset = offset; pending_read = ReadState.reading PendingRead.spent })
poll_state size answer (ReadState.available bytes) offset = hand_out size bytes offset

-- `UploadFile::poll_read`, for a buffer of a size.
unfoldable pub poll_read : ℕ → Answer → UploadFile → Read × UploadFile
unfolding poll_running
poll_read size answer f = poll_state size answer f.pending_read f.offset
