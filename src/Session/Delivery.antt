-- ===== src/Session/Delivery.antt =====
-- The content that a downloader is sent by a session of glopfile-relay/src/session.rs.
pub mod Steps
pub mod Run
use glopfile.Base.{
  ℕ, suc, ◌+◌, ◌<◌, ◌≡◌, ◌≢◌, refl, ◌⊎◌, List, [], ◌∷◌, ◌++◌, Option, none, some, arith, length,
  u64_mod, Bytes, append_assoc, ◌==◌, if◌then◌else◌,
}
use glopfile.Session.Types.{
  Position, Channel, Chunk, DownloadEvent, Uploader, DownloaderSlot, Pending, State, Command,
  Effect, chunk_len,
}
use glopfile.Session.Invariant.{Inv}

abbrev pub chunk_bytes : Chunk → Bytes
chunk_bytes (Chunk.more bytes) = bytes
chunk_bytes (Chunk.final bytes) = bytes

abbrev pub event_bytes : DownloadEvent → Bytes
event_bytes (DownloadEvent.more bytes) = bytes
event_bytes (DownloadEvent.final bytes) = bytes
event_bytes DownloadEvent.connection_replaced = []

abbrev pub queue_bytes : Pending → Bytes
queue_bytes (Pending.queued c w p n) = chunk_bytes c
queue_bytes q = []

-- The content that was sent on a channel.
unfoldable pub received : Channel → List Effect → Bytes
received ch [] = []
received ch (Effect.event c e ∷ fx) = (if c == ch then event_bytes e else []) ++ received ch fx
received ch (Effect.answer c a ∷ fx) = received ch fx
received ch (Effect.drop c ∷ fx) = received ch fx
received ch (Effect.command c m ∷ fx) = received ch fx

pub received-append :
    (ch : Channel) (xs ys : List Effect) → received ch (xs ++ ys) ≡ received ch xs ++ received ch ys
unfolding received
received-append ch [] ys = refl
received-append ch (Effect.event c e ∷ xs) ys = simp (received-append ch xs ys, append_assoc)
received-append ch (Effect.answer c a ∷ xs) ys = received-append ch xs ys
received-append ch (Effect.drop c ∷ xs) ys = received-append ch xs ys
received-append ch (Effect.command c m ∷ xs) ys = received-append ch xs ys

-- The offset of the downloader that listens on a channel, if it is connected.
abbrev pub offset_on : Channel → DownloaderSlot → Option Position
offset_on ch (DownloaderSlot.connected d) = if d.events == ch then some d.position else none
offset_on ch _ = none

-- A command that does not connect a downloader on the channel.
abbrev pub IsFresh : Channel → Command → Type 0
IsFresh ch (Command.start_download d r) = d.events ≢ ch
IsFresh ch _ = Unit

module _ (content : Position → ℕ) where
  -- The bytes stand in the content from the position on.
  abbrev pub Agrees : Position → Bytes → Type 0
  Agrees p [] = Unit
  Agrees p (b ∷ bs) = (b ≡ content p) × Agrees (suc p) bs

  pub Agrees-append :
      (p q : Position) (xs ys : Bytes)
      → Agrees p xs
      → q ≡ p + length xs
      → Agrees q ys
      → Agrees p (xs ++ ys)
  Agrees-append p q [] ys h e k = let e' : p ≡ q = omega arith in rw e' k
  Agrees-append p q (x ∷ xs) ys h e k = (h.0, Agrees-append (suc p) q xs ys h.1 (omega arith) k)

  -- The uploader that is connected sends the content, from where it is on, and not beyond the
  -- largest offset.
  abbrev pub IsHonest : Option Uploader → Command → Type 0
  IsHonest (some u) (Command.upload_data t c r) =
      u.token ≡ t → Agrees u.position (chunk_bytes c) × (u.position + chunk_len c < u64_mod)
  IsHonest u c = Unit

  abbrev pub IsQueueFaithful : Pending → Type 0
  IsQueueFaithful (Pending.queued c w p n) = Agrees p (chunk_bytes c) × (p + n < u64_mod)
  IsQueueFaithful q = Unit

  pub record Faithful (s : State) : Type 0 where
    pub inv : Inv s
    pub queue : IsQueueFaithful s.pending

  -- What a step sends to a channel that no downloader newly connects on.
  abbrev pub Feeds : Channel → Option Position → Option Position → Bytes → Type 0
  Feeds ch none after bytes = (after ≡ none) × (bytes ≡ [])
  Feeds ch (some p) after bytes =
      Agrees p bytes × ((after ≡ none) ⊎ (after ≡ some (p + length bytes)))
