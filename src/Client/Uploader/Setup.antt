-- ===== src/Client/Uploader/Setup.antt =====
-- How `upload_provisioned_file_async` of rust-client/glopfile/src/uploader_client.rs sets up its tasks
-- and ends. What encryption, the peer-to-peer client and the websocket yield are arguments.
use glopfile.Base.{
  ℕ, ◌≡◌, refl, List, [], ◌∷◌, Bool, true, false, Result, ok, err, ◌>>◌, if◌then◌else◌,
}
use glopfile.Client.Errors.{Error}
use glopfile.Client.Downloader.{Transport, Ends, Download}
use glopfile.Client.Uploader.{Done, drive}

-- The tasks of a transport.
abbrev pub has_relay : Transport → Bool
has_relay Transport.p2p = false
has_relay _ = true

abbrev pub has_p2p : Transport → Bool
has_p2p Transport.relay = false
has_p2p _ = true

-- The ends of the tasks that there are, among the ends of both.
unfoldable pub present : Transport → List Done → List Done
present t [] = []
present t (Done.p2p result ∷ ds) =
    let rest = present t ds in if has_p2p t then Done.p2p result ∷ rest else rest
present t (Done.relay result ∷ ds) =
    let rest = present t ds in if has_relay t then Done.relay result ∷ rest else rest

-- The errors of the set-up: the peer-to-peer client comes before the websocket, which every transport
-- has for its progress.
abbrev pub prepared : Transport → (p2p_client websocket : Ends) → Ends
prepared t p2p_client websocket = (if has_p2p t then p2p_client else ok tt) >> websocket

abbrev ended_or : Ends → Download → Download
ended_or (err e) later = Download.ended (err e)
ended_or (ok _) later = later

-- The progress that is sent before the tasks run, and how the upload ends; `encrypted` is the length of
-- the encrypted file.
unfoldable pub upload :
    Transport
    → (encrypted : Result Error ℕ) → (p2p_client websocket : Ends) → List Done
    → List (ℕ × ℕ) × Download
upload t (err e) p2p_client websocket ds = ([], Download.ended (err e))
upload t (ok total) p2p_client websocket ds =
    ((0, total) ∷ [], ended_or (prepared t p2p_client websocket) (drive t (present t ds)))

-- The end of the task that decides: the peer-to-peer one only if it is alone.
abbrev pub decided : Transport → List Done → Download
decided t [] = Download.retrying
decided Transport.p2p (Done.p2p result ∷ ds) = Download.ended result
decided t (Done.relay result ∷ ds) = if has_relay t then Download.ended result else decided t ds
decided t (Done.p2p result ∷ ds) = decided t ds

drive-present : (t : Transport) (ds : List Done) → drive t (present t ds) ≡ decided t ds
unfolding drive present
drive-present Transport.p2p [] = refl
drive-present Transport.both [] = refl
drive-present Transport.relay [] = refl
drive-present Transport.p2p (Done.p2p result ∷ ds) = refl
drive-present Transport.both (Done.p2p result ∷ ds) = drive-present Transport.both ds
drive-present Transport.relay (Done.p2p result ∷ ds) = drive-present Transport.relay ds
drive-present Transport.p2p (Done.relay result ∷ ds) = drive-present Transport.p2p ds
drive-present Transport.both (Done.relay result ∷ ds) = refl
drive-present Transport.relay (Done.relay result ∷ ds) = refl

-- An upload that was set up ends as its task through the relay does, or as the peer-to-peer one if there is
-- no other, whenever and however the other ends; it does not panic, and it reports the start first.
pub upload-decided :
    (t : Transport) (total : ℕ) (p2p_client websocket : Ends) (ds : List Done)
    → prepared t p2p_client websocket ≡ ok tt
    → upload t (ok total) p2p_client websocket ds ≡ ((0, total) ∷ [], decided t ds)
unfolding upload
upload-decided t total p2p_client websocket ds e = rw (e, drive-present t ds) refl
