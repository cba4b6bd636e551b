-- ===== src/Client/PeerMessages.antt =====
-- The messages on the data channel of a peer-to-peer transfer, rust-client/glopfile/src/p2p.proto
-- as rust-client/glopfile/src/uploader_client.rs and downloader_client.rs use them. A message whose
-- kind is not known decodes to `none`.
use glopfile.Base.{ℕ, Bytes}

pub record DataRequest : Type 0 where
  pub offset : ℕ
  pub len : ℕ

pub data DownloaderMessage : Type 0 where
  hello : DownloaderMessage
  data_request : DataRequest → DownloaderMessage
  transfer_finished : DownloaderMessage

pub data UploaderMessage : Type 0 where
  hello : UploaderMessage
  data_response : (offset : ℕ) → Bytes → UploaderMessage
