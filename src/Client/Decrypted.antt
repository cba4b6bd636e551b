-- ===== src/Client/Decrypted.antt =====
-- `DecryptedFile` of rust-client/glopfile/src/api_client.rs: the encrypted bytes that have arrived,
-- behind one lock, and the one write that decrypts them to the output file. A panic is `none`. The
-- cipher and the output file are not the program's: `decrypt` is an argument, and so is what a poll
-- of the pending write finds, `ready` with the outcome of writing, flushing and closing the file or
-- `pending` where the cipher or the file is not ready.
pub mod Laws
use Prim.Native.String.{String}
use glopfile.Base.{
  ℕ, ◌+◌, Bytes, List, [], ◌∷◌, ◌++◌, Option, none, some, Result, ok, err, length, ◌==◌,
  if◌then◌else◌,
}

pub data Poll {ℓ} (A : Type ℓ) : Type ℓ where
  ready : A → Poll A
  pending : Poll A

-- `io::Error`, by its message.
abbrev pub IoError : Type 0
IoError = String

-- `DecryptedFileWriteState`; the pending write is known by the bytes that it has to decrypt.
pub data WriteState : Type 0 where
  unwritten pending : Bytes → WriteState
  complete poisoned : WriteState

-- `NONCE_SIZE + TAG_SIZE` of AES-256-GCM.
abbrev pub extra_ciphertext_len : ℕ
extra_ciphertext_len = 12 + 16

-- `decrypt_file`: nothing has arrived.
abbrev pub fresh : WriteState
fresh = WriteState.unwritten []

-- `DecryptedFile::offset`.
unfoldable pub offset : ℕ → WriteState → Option ℕ
offset file_size (WriteState.unwritten bytes) = some (length bytes)
offset file_size (WriteState.pending bytes) = some file_size
offset file_size WriteState.complete = some file_size
offset file_size WriteState.poisoned = none

abbrev too_many : IoError
too_many = "received more bytes than expected"

abbrev pub too_few : IoError
too_few = "received less bytes than expected"

unfoldable pub poll_write : Bytes → WriteState → Option (WriteState × Result IoError ℕ)
poll_write buf (WriteState.unwritten bytes) =
    some (WriteState.unwritten (bytes ++ buf), ok (length buf))
poll_write buf (WriteState.pending bytes) = some (WriteState.pending bytes, err too_many)
poll_write buf WriteState.complete = some (WriteState.complete, err too_many)
poll_write buf WriteState.poisoned = none

-- What a poll of the flush leaves: the state, the plaintext if all of it was written and the file was
-- closed, and what the poll returns. What a write that fails leaves in the file of the user is not recorded.
pub record Flushed : Type 0 where
  pub state : WriteState
  pub written : Option Bytes
  pub result : Poll (Result IoError (Unit {0}))

module _ (decrypt : Bytes → Result IoError Bytes) (file_size : ℕ) where
  -- The poll of the pending write. What writing, flushing and closing the file of the user give together is
  -- the argument. The state was taken out before, so that an error leaves it poisoned.
  poll_pending : Bytes → Poll (Result IoError (Unit {0})) → Flushed
  poll_pending bytes Poll.pending = record {
    state = WriteState.pending bytes;
    written = none;
    result = Poll.pending;
  }
  poll_pending bytes (Poll.ready outcome) = elim (decrypt bytes) [
    | err e ↦ record { state = WriteState.poisoned; written = none; result = Poll.ready (err e) }
    | ok plaintext ↦ elim outcome [
      | err e ↦ record { state = WriteState.poisoned; written = none; result = Poll.ready (err e) }
      | ok _ ↦ record {
        state = WriteState.complete;
        written = some plaintext;
        result = Poll.ready (ok tt);
      }
    ]
  ]

  unfoldable pub poll_flush : Poll (Result IoError (Unit {0})) → WriteState → Option Flushed
  unfolding poll_pending
  poll_flush outcome (WriteState.unwritten bytes) =
      if length bytes == file_size
      then some (poll_pending bytes outcome)
      else some (record {
        state = WriteState.unwritten bytes;
        written = none;
        result = Poll.ready (ok tt);
      })
  poll_flush outcome (WriteState.pending bytes) = some (poll_pending bytes outcome)
  poll_flush outcome WriteState.complete =
      some (record { state = WriteState.complete; written = none; result = Poll.ready (ok tt) })
  poll_flush outcome WriteState.poisoned = none

  -- What `poll_close` makes of a flush that is ready.
  close_result : WriteState → Option (Result IoError (Unit {0}))
  close_result WriteState.complete = some (ok tt)
  close_result (WriteState.pending bytes) = some (err too_few)
  close_result (WriteState.unwritten bytes) = some (err too_few)
  close_result WriteState.poisoned = none

  close_flushed : Flushed → Option Flushed
  unfolding close_result
  close_flushed f = elim f.result [
    | Poll.pending ↦ some f
    | Poll.ready (err e) ↦ some f
    | Poll.ready (ok _) ↦ elim (close_result f.state) [
      | none ↦ none
      | some r ↦ some (record f { result = Poll.ready r })
    ]
  ]

  unfoldable pub poll_close : Poll (Result IoError (Unit {0})) → WriteState → Option Flushed
  unfolding close_flushed
  poll_close outcome s = elim (poll_flush outcome s) [ none ↦ none | some f ↦ close_flushed f ]

-- `AsyncWriteExt::write_all`: a poll accepts all that it is given, and nothing is polled for no bytes.
unfoldable pub write_all : Bytes → WriteState → Option (WriteState × Result IoError (Unit {0}))
unfolding poll_write
write_all [] s = some (s, ok tt)
write_all (b ∷ buf) s = elim (poll_write (b ∷ buf) s) [
  | none ↦ none
  | some (t, ok n) ↦ some (t, ok tt)
  | some (t, err e) ↦ some (t, err e)
]
