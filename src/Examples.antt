-- ===== src/Examples.antt =====
-- The theorems at concrete inputs.
mod Relaying
mod Downloading
mod Serving
mod Transferring
mod Peering
mod Ciphers
mod Signaling
mod Loops
mod Sockets
mod Exchanging
mod Fetching
mod Linking
mod Browsing
mod Connecting
mod Commanding
mod Ends
