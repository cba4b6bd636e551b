-- ===== src/Client/Downloader.antt =====
-- How `DownloaderClient` of rust-client/glopfile/src/downloader_client.rs combines the peer-to-peer
-- transfer and the relay, over the output file that both write to. What a transfer does to the file and
-- how it ends is an argument, of the first attempt and of each round of the loop after it.
pub mod Rounds
pub mod Transports
use glopfile.Base.{
  ℕ, ◌+◌, Bytes, List, [], ◌∷◌, Option, none, some, Bool, true, false, Result, ok, err, ◌>>=◌, ◌>>◌,
  ControlFlow, proceed, break, ◌==◌, if◌then◌else◌,
}
use glopfile.Client.Errors.{Error}
use glopfile.Client.Decrypted.{IoError, WriteState, offset}
use glopfile.Client.Decrypted.Laws.{Call, use_file}

-- `Transport`, in rust-client/glopfile/src/transport.rs.
pub data Transport : Type 0 where
  both relay p2p : Transport

-- `Transport::with_p2p_and_relay`.
abbrev pub with_p2p_and_relay : Bool → Bool → Option Transport
with_p2p_and_relay true true = some Transport.both
with_p2p_and_relay true false = some Transport.p2p
with_p2p_and_relay false true = some Transport.relay
with_p2p_and_relay false false = none

-- `RelayFallback`.
pub data RelayFallback : Type 0 where
  allowed forbidden : RelayFallback

-- What a task does to the output file, and its result.
pub record Task (A : Type 0) : Type 0 where
  pub calls : List Call
  pub result : A

abbrev pub Ends : Type 0
Ends = Result Error (Unit {0})

-- `connect_p2p` and `transfer_p2p`, where the latter ends with `finish_download`.
pub record Attempt : Type 0 where
  pub connect : Task (Result Error (ControlFlow (Unit {0})))
  pub transfer : Task Ends
  pub finish_download : Ends

-- The task that the `select!` sees the end of.
pub data Select : Type 0 where
  connect_first : Result Error (ControlFlow (Unit {0})) → Select
  relay_first : Ends → Select

-- A round of the loop: what happens until one of the two tasks ends, what the relayed one does if it is
-- left to go on, the transfer that follows a connection, and the relayed download that follows a
-- transfer without progress.
pub record Round : Type 0 where
  pub select : Task Select
  pub relayed : Task Ends
  pub transfer : Task Ends
  pub finish_download : Ends
  pub relayed_alone : Task Ends

-- `transfer_p2p`.
abbrev pub transfer_p2p : Ends → Ends → Ends
transfer_p2p transferred finished = transferred >> finished

-- How a download goes on or ends; `retrying` for the next round of the loop.
pub data Download : Type 0 where
  panicked retrying : Download
  ended : Ends → Download

-- A state of the download: the file, how many relayed downloads were begun, and how it goes on.
pub record Progress : Type 0 where
  pub file : WriteState
  pub relayed : ℕ
  pub download : Download

module _ (decrypt : Bytes → Result IoError Bytes) (total_len : ℕ) where
  abbrev panic_at : WriteState → ℕ → Progress
  panic_at file n = record { file = file; relayed = n; download = Download.panicked }

  -- The calls are made on the file; one that panics ends the download.
  abbrev pub after :
      Option (WriteState × List Bytes) → WriteState → ℕ → (WriteState → Progress) → Progress
  after none file n f = panic_at file n
  after (some (t, written)) file n f = f t

  abbrev pub calling : List Call → WriteState → ℕ → (WriteState → Progress) → Progress
  calling cs file n f = after (use_file decrypt total_len cs file) file n f

  -- A task whose result ends the download.
  abbrev pub ending : Task Ends → WriteState → ℕ → Progress
  ending task file n =
      calling task.calls file n
        (λ t. record { file = t; relayed = n; download = Download.ended task.result })

  -- The `match` on the result of `transfer_p2p` in the loop, by the offsets before and after it; an
  -- offset that cannot be had is a panic.
  abbrev pub retry_or_finish : Round → ℕ → ℕ → Option ℕ → WriteState → Ends → Progress
  retry_or_finish r n before now file (ok _) = record {
    file = file;
    relayed = n;
    download = Download.ended (ok tt);
  }
  retry_or_finish r n before none file (err e) = panic_at file n
  retry_or_finish r n before (some now) file (err e) =
      if now == before
      then ending r.relayed_alone file (n + 1)
      else record { file = file; relayed = n; download = Download.retrying }

  -- The peer-to-peer transfer of a round.
  abbrev pub transfer_round : Round → ℕ → Option ℕ → WriteState → Progress
  transfer_round r n none file = panic_at file n
  transfer_round r n (some before) file = calling r.transfer.calls file n (λ t.
      retry_or_finish r n before (offset total_len t) t
        (transfer_p2p r.transfer.result r.finish_download))

  -- What follows the `select!`.
  abbrev pub selected : Round → Select → ℕ → WriteState → Progress
  selected r (Select.relay_first result) n file = record {
    file = file;
    relayed = n;
    download = Download.ended result;
  }
  selected r (Select.connect_first (ok (break _))) n file = record {
    file = file;
    relayed = n;
    download = Download.ended (ok tt);
  }
  selected r (Select.connect_first (err e)) n file = ending r.relayed file n
  selected r (Select.connect_first (ok proceed)) n file =
      transfer_round r n (offset total_len file) file

  -- A round of the loop.
  unfoldable pub round : Round → ℕ → WriteState → Progress
  round r n file = calling r.select.calls file (n + 1) (selected r r.select.result (n + 1))

  abbrev pub next_round : Download → Progress → (WriteState → ℕ → Progress) → Progress
  next_round Download.retrying p k = k p.file p.relayed
  next_round Download.panicked p k = p
  next_round (Download.ended e) p k = p

  -- The loop, over its rounds.
  unfoldable pub rounds : List Round → WriteState → ℕ → Progress
  unfolding round
  rounds [] file n = record { file = file; relayed = n; download = Download.retrying }
  rounds (r ∷ rs) file n = let p = round r n file in next_round p.download p (λ t m. rounds rs t m)

  -- The `match` on the result of the first attempt.
  fall_back : RelayFallback → List Round → Ends → WriteState → Progress
  fall_back fallback rs (ok _) file = record {
    file = file;
    relayed = 0;
    download = Download.ended (ok tt);
  }
  fall_back RelayFallback.allowed rs (err e) file = rounds rs file 0
  fall_back RelayFallback.forbidden rs (err e) file = record {
    file = file;
    relayed = 0;
    download = Download.ended (err e);
  }

  connected :
      RelayFallback
      → Attempt
      → List Round
      → Result Error (ControlFlow (Unit {0}))
      → WriteState
      → Progress
  unfolding fall_back
  connected fallback a rs (err e) file = fall_back fallback rs (err e) file
  connected fallback a rs (ok (break _)) file = record {
    file = file;
    relayed = 0;
    download = Download.ended (ok tt);
  }
  connected fallback a rs (ok proceed) file =
      calling a.transfer.calls file 0
        (fall_back fallback rs (transfer_p2p a.transfer.result a.finish_download))

  -- `download_p2p`.
  unfoldable pub download_p2p : RelayFallback → Attempt → List Round → WriteState → Progress
  unfolding connected
  download_p2p fallback a rs file =
      calling a.connect.calls file 0 (connected fallback a rs a.connect.result)

  -- `download_async`, where `alone` is the relayed download without a peer.
  unfoldable pub download_async :
      Transport → Attempt → List Round → Task Ends → WriteState → Progress
  unfolding download_p2p
  download_async Transport.both a rs alone file = download_p2p RelayFallback.allowed a rs file
  download_async Transport.p2p a rs alone file = download_p2p RelayFallback.forbidden a rs file
  download_async Transport.relay a rs alone file = ending alone file 1
