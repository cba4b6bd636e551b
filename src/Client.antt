-- ===== src/Client.antt =====
-- The client library, rust-client/glopfile/src.
pub mod Headers
pub mod Browser
pub mod Decrypted
pub mod Errors
pub mod Sockets
pub mod Progress
pub mod Paths
pub mod PeerMessages
pub mod PeerDownload
pub mod Cipher
pub mod PeerUpload
pub mod Timeouts
pub mod Signaling
pub mod RelayDownload
pub mod Requests
pub mod Metadata
pub mod Links
pub mod PeerExchange
pub mod Downloader
pub mod Uploader
pub mod WebSocketClient
pub mod Upload
