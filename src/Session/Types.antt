-- ===== src/Session/Types.antt =====
-- The types of glopfile-relay/src/session.rs. A channel sender, be it for download events, for
-- websocket commands or for the reply to a request, is the number of its channel, and what is sent
-- (or a reply sender dropped unanswered) is an `Effect`, in the order of the calls.
use Prim.Native.String.{String}
use glopfile.Base.{ℕ, Bool, Bytes, List, Option, Result, length}

-- A byte offset into the content; a `u64`.
abbrev pub Position : Type 0
Position = ℕ

-- The number of a client connection; a `u64`.
abbrev pub Token : Type 0
Token = ℕ

-- The number of a channel.
abbrev pub Channel : Type 0
Channel = ℕ

pub data Chunk : Type 0 where
  more final : Bytes → Chunk

pub data DownloadEvent : Type 0 where
  more final : Bytes → DownloadEvent
  connection_replaced : DownloadEvent

abbrev pub max_held_frames : ℕ
max_held_frames = 64

pub data Frame : Type 0 where
  text : String → Frame
  binary : Bytes → Frame

pub data Direction : Type 0 where
  upload download : Direction

pub data UploadError : Type 0 where
  not_found connection_replaced : UploadError
  position : Position → UploadError
  finished data_pending : UploadError

pub data WebsocketCommand : Type 0 where
  send : Frame → WebsocketCommand
  session_error : WebsocketCommand

pub record WebsocketPeer : Type 0 where
  pub token : Token
  pub commands : Channel

pub data Peer : Type 0 where
  downloader : (completed : Bool) → Peer
  uploader : Peer
  websocket : Direction → Peer

pub record Downloader : Type 0 where
  pub token : Token
  pub position : Position
  pub events : Channel

pub record Uploader : Type 0 where
  pub token : Token
  pub position : Position

pub data DownloaderSlot : Type 0 where
  disconnected : DownloaderSlot
  connected : Downloader → DownloaderSlot
  finished : DownloaderSlot

-- A reply sender of a call whose answer is a `Result<(), UploadError>`.
abbrev pub Waiter : Type 0
Waiter = Channel

abbrev pub UploadResult : Type 0
UploadResult = Result UploadError (Unit {0})

pub data Pending : Type 0 where
  nothing : Pending
  queued : (chunk : Chunk) (waiter : Option Waiter) (position : Position) (size : ℕ) → Pending
  error : UploadError → Pending

pub record State : Type 0 where
  pub id : Bytes
  pub metadata : String
  pub downloader : DownloaderSlot
  pub downloader_ws : Option WebsocketPeer
  pub downloader_ws_held : List Frame
  pub uploader : Option Uploader
  pub uploader_ws : Option WebsocketPeer
  pub uploader_ws_held : List Frame
  pub pending : Pending

pub data Command : Type 0 where
  metadata : (reply : Channel) → Command
  start_download : Downloader → (reply : Channel) → Command
  finish_download : (reply : Channel) → Command
  check_start_upload : Position → (reply : Waiter) → Command
  start_upload : Token → Position → (reply : Waiter) → Command
  upload_data : Token → Chunk → (reply : Waiter) → Command
  flush_upload : Token → (reply : Waiter) → Command
  start_websocket : Direction → WebsocketPeer → (reply : Channel) → Command
  websocket_data : Direction → Frame → Command
  disconnected : Token → Peer → Command

-- What a reply sender sends.
pub data Answer : Type 0 where
  metadata : String → Answer
  done : Answer
  result : UploadResult → Answer

pub data Effect : Type 0 where
  answer : Channel → Answer → Effect
  drop : Channel → Effect
  event : Channel → DownloadEvent → Effect
  command : Channel → WebsocketCommand → Effect

-- `Chunk::len`.
abbrev pub chunk_len : Chunk → ℕ
chunk_len (Chunk.more bytes) = length bytes
chunk_len (Chunk.final bytes) = length bytes

-- `Chunk::into_event`.
abbrev pub into_event : Chunk → DownloadEvent
into_event (Chunk.more bytes) = DownloadEvent.more bytes
into_event (Chunk.final bytes) = DownloadEvent.final bytes
