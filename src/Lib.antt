-- ===== src/Lib.antt =====
-- Verification of glopfile, a service that sends a file from one client to another: through a relay
-- node that holds the two ends of a transfer together, or over a peer-to-peer connection that the
-- clients set up by messages which the relay passes on.
--
-- The program's parts. A relay node (glopfile-relay/src) has a registry of sessions, one for each
-- file. A session is a task that takes commands, one at a time, from the HTTP and websocket handlers
-- of its downloader and its uploader: it passes the uploader's chunks on, keeps one chunk while no
-- downloader is there, tells an uploader where to resume, holds signaling for an absent peer, and
-- ends when the download is complete. The client library (rust-client/glopfile/src) encrypts and
-- uploads a file, downloads and decrypts it, with retries, and serves a peer-to-peer transfer.
--
-- Which file models which part:
-- Session: glopfile-relay/src/session.rs. Session/Types has its types, Session/Handlers and
--   Session/Relay one function for each method of `State`, and `handle`; Session/Task has `run` and
--   what a caller of `Session` gets back. A channel is a number, and what is sent on channels is a
--   list of effects in the order of the calls. Session/Invariant, Delivery, Requests, Signaling,
--   Uploads and Lifecycle are about these definitions.
-- Api: the handlers of glopfile-relay/src/api.rs; the answers of the session to an upload or a download
--   are arguments, as other handlers run beside them. Api/Files has the handlers for the creation of a
--   file, for its metadata and for a websocket, up to the upgrade of the web framework.
-- Range: glopfile-relay/src/range.rs, on the characters of a header.
-- Ids: glopfile-relay/src/id.rs, rust-client/glopfile/src/url_safe_base64.rs and the spelling of keys
--   in rust-client/glopfile/src/cipher.rs; Base64 is a record of operations and laws.
-- Registry: glopfile-relay/src/registry.rs and token.rs, with the delivery of a command to a session.
-- Websocket: the loop of glopfile-relay/src/websocket.rs between a socket and its session.
-- Client/Headers and Client/Upload: the headers and `upload_file` of
--   rust-client/glopfile/src/api_client.rs; the responses are a list of exchanges.
-- Client/Decrypted: `DecryptedFile` of rust-client/glopfile/src/api_client.rs; a panic is `none`.
-- Client/Errors: the classification of errors in rust-client/glopfile/src/error.rs, websocket.rs and
--   util/retry.rs.
-- Client/PeerMessages, Client/PeerDownload and Client/PeerUpload: the messages and handlers of a
--   peer-to-peer transfer in rust-client/glopfile/src/downloader_client.rs and uploader_client.rs.
-- Client/PeerExchange: the handlers of both ends over a data channel.
-- Client/RelayDownload and Client/Requests: `download_content`, `encrypt_file`, `finish_download` and
--   the retry loop of rust-client/glopfile/src/api_client.rs and util/retry.rs; what the relay answers
--   to an attempt is a function of the offset that it asks for.
-- Client/Downloader: `download_async` and `download_p2p` of
--   rust-client/glopfile/src/downloader_client.rs with rust-client/glopfile/src/transport.rs; what a
--   task does to the output file, and its result, are arguments.
-- Client/Uploader: how rust-client/glopfile/src/uploader_client.rs sets its tasks up and waits for them;
--   in Uploader/Attempts, the relayed task with the timeouts of its attempts.
-- Client/Progress: the progress stream of rust-client/glopfile/src/util/progress.rs and the loops over it.
-- Client/Paths: the names that files are provisioned with and written to on native platforms, in
--   uploader_client/native.rs and downloader_client/native.rs of rust-client/glopfile/src.
-- Client/Browser: the files of JavaScript that uploader_client/web.rs and downloader_client/web.rs of
--   rust-client/glopfile/src read and write; what a promise yields at a poll is an argument.
-- Client/Links and Client/Metadata: the download link of rust-client/glopfile/src/uploader_client.rs
--   and downloader_client.rs, and `provision_file` and `fetch_meta` of
--   rust-client/glopfile/src/api_client.rs.
-- Client/Signaling: rust-client/glopfile/src/p2p.rs: the encrypted messages, in Signaling/Socket the
--   queue of the signaling websocket, in Signaling/Connecting the peer connection, and in
--   Signaling/Transfer the loop of `transfer` with its timeout. WebRTC is a record of operations, with
--   what it documents of the local description as laws. A connection that an operation fails on is
--   left as it was before the operation. Signaling/Native is the connection of native platforms,
--   rust-client/glopfile/src/p2p/native.rs, which fills that record over the datachannel library, and
--   Signaling/Browser that of browsers, rust-client/glopfile/src/p2p/web.rs, over their WebRTC.
-- Client/WebSocketClient: `WebSocketClient` of rust-client/glopfile/src/websocket.rs over oneshot
--   channels.
-- Client/Sockets: the connections behind it, of rust-client/glopfile/src/websocket/native.rs and web.rs.
-- EndToEnd: the sessions, the response bodies and the client's download, composed, from the encryption of
--   a file to the file that is written.
-- Client/Timeouts: the futures with a timeout of rust-client/glopfile/src/util/timeout.rs.
-- Client/Cipher: the buffers of rust-client/glopfile/src/cipher.rs; AES-GCM is a record of operations
--   and laws. Cipher/Platforms has the ciphers that fill it, of cipher/native.rs and cipher/web.rs of
--   rust-client/glopfile/src, over the libraries of native platforms and of browsers.
-- CommandLine: the throttled progress and the send command of rust-client/cli/src/main.rs.
-- Base and Text: lists, results, 64-bit addition, and the text functions of the Rust standard library
--   that the program uses. Examples: the theorems at concrete inputs.
--
-- Numbers. Offsets are `u64`; a sum that the source computes in 64 bits keeps its wrap-around, as in a
-- release build, and a theorem that needs a sum to be exact has a hypothesis that bounds it.
--
-- Fuel. The loop of `request_data_or_finish` has fuel for as many rounds as the content has bytes, and
-- one more; each round requests at least one byte of what is left, so that this is enough. All other
-- loops go by structural recursion over what arrives.
--
-- Not modelled: the health check, routes and headers of the relay; the HTTP, WebRTC, JSON, URL, Base64
-- and cipher libraries, which are arguments; the bindings to JavaScript and to other languages; of the
-- command line, the parsing of arguments and the formatting of its output; the macros and the generated
-- protocol code; what a write of the output file that fails leaves of it.
--
pub mod Base
pub mod Session
pub mod Text
pub mod Range
pub mod Client
pub mod CommandLine
pub mod EndToEnd
pub mod Api
pub mod Ids
pub mod Registry
pub mod Websocket
pub mod Examples
