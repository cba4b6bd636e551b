-- ===== src/Examples/Fetching.antt =====
-- The theorems on the downloads of the client at concrete inputs.
use glopfile.Base.{
  ℕ, ◌+◌, ◌≤◌, ◌≡◌, refl, Bytes, [], ◌∷◌, Option, some, Bool, Result, ok, err, proceed, leb,
}
use glopfile.Client.Errors.{Error}
use glopfile.Client.Decrypted.{IoError, fresh, offset, poll_write}
use glopfile.Client.Decrypted.Laws.{Call, use_file}
use glopfile.Client.Downloader.{Task, Ends, Attempt, Select, Round, Download, round, rounds}
use glopfile.Client.Downloader.Rounds.{rounds_advance}

abbrev is_success : ℕ → Bool
is_success status = leb status 299

abbrev is_server_error : ℕ → Option Bool
is_server_error status = some (leb 500 status)

abbrev describe : Error → IoError
describe e = "decrypt"

-- A file of which three bytes are wanted.
abbrev unwrap : Bytes → Result IoError Bytes
unwrap bytes = ok bytes

-- A round in which a connection is made while the relay brings a byte, and is lost after another one.
abbrev lossy : Round
lossy = record {
  select = record { calls = Call.write (4 ∷ []) ∷ []; result = Select.connect_first (ok proceed) };
  relayed = record { calls = []; result = ok tt };
  transfer = record { calls = Call.write (5 ∷ []) ∷ []; result = err Error.timeout };
  finish_download = ok tt;
  relayed_alone = record { calls = []; result = ok tt };
}

lossy_goes_on : (rounds unwrap 9 (lossy ∷ lossy ∷ []) fresh 0).download ≡ Download.retrying
unfolding rounds round use_file poll_write offset
lossy_goes_on = refl

lossy_offset : offset 9 (rounds unwrap 9 (lossy ∷ lossy ∷ []) fresh 0).file ≡ some 4
unfolding rounds round use_file poll_write offset
lossy_offset = refl

rounds_advance_example : (a : ℕ) × (offset 9 fresh ≡ some a) × (a + 2 ≤ 4)
rounds_advance_example =
    rounds_advance unwrap 9 (lossy ∷ lossy ∷ []) fresh 0 4 lossy_goes_on lossy_offset

-- A peer that never connects.
abbrev missing : Attempt
missing = record {
  connect = record { calls = []; result = err Error.timeout };
  transfer = record { calls = []; result = ok tt };
  finish_download = ok tt;
}

abbrev relayed : Task Ends
relayed = record { calls = []; result = ok tt }
