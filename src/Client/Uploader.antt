-- ===== src/Client/Uploader.antt =====
-- How `upload_provisioned_file_async` of rust-client/glopfile/src/uploader_client.rs waits for its tasks,
-- and the websocket handler of rust-client/glopfile/src/downloader_client.rs. The order in which the
-- tasks end is an argument; a transport without a task never sees its end.
pub mod Setup
pub mod Attempts
use glopfile.Base.{
  List, [], ◌∷◌, Option, none, some, Bool, ControlFlow, proceed, break, if◌then◌else◌, ◌≡◌, refl,
}
use glopfile.Client.PeerUpload.{RelayMessage}
use glopfile.Client.Downloader.{Transport, Ends, Download}

-- The end of the peer-to-peer task or of the relayed one.
pub data Done : Type 0 where
  p2p relay : Ends → Done

-- What the end of the peer-to-peer task means, before what comes later.
abbrev pub p2p_ended : Transport → Ends → Download → Download
p2p_ended Transport.p2p result later = Download.ended result
p2p_ended Transport.both result later = later
p2p_ended Transport.relay result later = Download.panicked

-- The `select!` loop; `retrying` is to wait for another end.
unfoldable pub drive : Transport → List Done → Download
drive t [] = Download.retrying
drive t (Done.p2p result ∷ ds) = p2p_ended t result (drive t ds)
drive t (Done.relay result ∷ ds) = Download.ended result

-- The ends of the relayed task.
abbrev pub relayed_only : List Done → List Done
relayed_only [] = []
relayed_only (Done.p2p result ∷ ds) = relayed_only ds
relayed_only (Done.relay result ∷ ds) = Done.relay result ∷ relayed_only ds

-- With both transports, an upload ends as the one through the relay alone does, whenever and however the
-- peer-to-peer task ends.
pub drive_both :
    (ds : List Done) → drive Transport.both ds ≡ drive Transport.relay (relayed_only ds)
unfolding drive
drive_both [] = refl
drive_both (Done.p2p result ∷ ds) = drive_both ds
drive_both (Done.relay result ∷ ds) = refl

-- `DownloadWebSocketMessageHandler::handle`; `taken` is whether the signaling handler could take a
-- message.
unfoldable pub handle_download_message :
    {Signal : Type 0}
    → (taken : Signal → Bool) → Option (RelayMessage Signal)
    → ControlFlow (Unit {0})
handle_download_message taken none = proceed
handle_download_message taken (some (RelayMessage.rtc_signaling m)) =
    if taken m then proceed else break tt
handle_download_message taken (some (RelayMessage.upload_data_ack at)) = proceed
