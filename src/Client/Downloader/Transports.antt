-- ===== src/Client/Downloader/Transports.antt =====
-- What the choice of a transport means for a download, in rust-client/glopfile/src/transport.rs and
-- rust-client/glopfile/src/downloader_client.rs.
use glopfile.Base.{
  ℕ, ◌≡◌, refl, inl, inr, Bytes, List, some, Option-cases, Result, ok, err, ControlFlow, proceed,
  break, Bool, true, false, arith,
}
use glopfile.Client.Errors.{Error}
use glopfile.Client.Decrypted.{IoError, WriteState}
use glopfile.Client.Decrypted.Laws.{use_file}
use glopfile.Client.Downloader.{
  Transport, with_p2p_and_relay, RelayFallback, Task, Ends, Attempt, Round, Download, Progress,
  transfer_p2p, fall_back, connected, download_p2p, download_async, rounds,
}

module _ (decrypt : Bytes → Result IoError Bytes) (total : ℕ) where
  -- What a download with both transports is, by the one with the peer-to-peer transport alone.
  abbrev pub FallsBack : List Round → (both p2p : Progress) → Download → Type 0
  FallsBack rs both p2p (Download.ended (err e)) = both ≡ rounds decrypt total rs p2p.file 0
  FallsBack rs both p2p Download.retrying = ⊥
  FallsBack rs both p2p Download.panicked = both ≡ p2p
  FallsBack rs both p2p (Download.ended (ok _)) = both ≡ p2p

  abbrev pub Agree : List Round → (both p2p : Progress) → Type 0
  Agree rs both p2p = (p2p.relayed ≡ 0) × FallsBack rs both p2p p2p.download

  fall_back-Agree :
      (rs : List Round) (r : Ends) (file : WriteState)
      → Agree rs
          (fall_back decrypt total RelayFallback.allowed rs r file)
          (fall_back decrypt total RelayFallback.forbidden rs r file)
  unfolding fall_back
  fall_back-Agree rs (ok _) file = (refl, refl)
  fall_back-Agree rs (err e) file = (refl, refl)

  connected-Agree :
      (a : Attempt) (rs : List Round) (r : Result Error (ControlFlow (Unit {0})))
      (file : WriteState)
      → Agree rs
          (connected decrypt total RelayFallback.allowed a rs r file)
          (connected decrypt total RelayFallback.forbidden a rs r file)
  unfolding connected
  connected-Agree a rs (err e) file = fall_back-Agree rs (err e) file
  connected-Agree a rs (ok (break _)) file = (refl, refl)
  connected-Agree a rs (ok proceed) file =
      elim (Option-cases (use_file decrypt total a.transfer.calls file)) [
        | inl e ↦ rw e (refl, refl)
        | inr ((t, ws), e) ↦
            rw e (fall_back-Agree rs (transfer_p2p a.transfer.result a.finish_download) t)
      ]

  attempt-Agree :
      (a : Attempt) (rs : List Round) (alone : Task Ends) (file : WriteState)
      → Agree rs
          (download_async decrypt total Transport.both a rs alone file)
          (download_async decrypt total Transport.p2p a rs alone file)
  unfolding download_async download_p2p
  attempt-Agree a rs alone file =
      elim (Option-cases (use_file decrypt total a.connect.calls file)) [
        | inl e ↦ rw e (refl, refl)
        | inr ((t, ws), e) ↦ rw e (connected-Agree a rs a.connect.result t)
      ]

  -- A transport that is chosen without the relay begins no relayed download.
  pub without_relay :
      (p : Bool) (t : Transport) (a : Attempt) (rs : List Round) (alone : Task Ends)
      (file : WriteState)
      → with_p2p_and_relay p false ≡ some t
      → (download_async decrypt total t a rs alone file).relayed ≡ 0
  without_relay true Transport.p2p a rs alone file e = (attempt-Agree a rs alone file).0
  without_relay true Transport.both a rs alone file e = absurd (ground (e, arith))
  without_relay true Transport.relay a rs alone file e = absurd (ground (e, arith))
  without_relay false t a rs alone file e = absurd (ground (e, arith))

  -- A transport that is chosen without the peer makes the same of a download whatever a peer would do.
  pub without_peer :
      (r : Bool) (t : Transport) (a b : Attempt) (rs ss : List Round) (alone : Task Ends)
      (file : WriteState)
      → with_p2p_and_relay false r ≡ some t
      → download_async decrypt total t a rs alone file
        ≡ download_async decrypt total t b ss alone file
  unfolding download_async
  without_peer true Transport.relay a b rs ss alone file e = refl
  without_peer true Transport.both a b rs ss alone file e = absurd (ground (e, arith))
  without_peer true Transport.p2p a b rs ss alone file e = absurd (ground (e, arith))
  without_peer false t a b rs ss alone file e = absurd (ground (e, arith))
