-- ===== src/Examples/Exchanging.antt =====
-- The theorem on the two ends of a peer-to-peer transfer at a concrete input.
use glopfile.Base.{refl, Bytes, List, [], ◌∷◌, ◌++◌, Result, ok, arith}
use glopfile.Client.Decrypted.{IoError}
use glopfile.Client.PeerExchange.{Side, turns, start}
use glopfile.Client.PeerExchange.Answers.{Ended}
use glopfile.Client.PeerExchange.Completion.{rounds, exchange_completes}

abbrev unwrap : Bytes → Result IoError Bytes
unwrap bytes = ok bytes

abbrev content : Bytes
content = 4 ∷ 5 ∷ 6 ∷ []

abbrev first_turns : List Side
first_turns = Side.downloader ∷ Side.uploader ∷ Side.uploader ∷ []

exchange_completes_example :
    Ended (turns unwrap content (ok tt) (first_turns ++ rounds 3) (start unwrap content (ok tt)))
exchange_completes_example =
    exchange_completes unwrap content content (omega arith) refl first_turns (omega arith)
