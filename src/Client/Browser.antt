-- ===== src/Client/Browser.antt =====
-- What the client library does in a browser: the files that JavaScript reads and writes.
pub mod UploadFile
pub mod DownloadFile
