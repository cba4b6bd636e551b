-- ===== src/Api/Files.antt =====
-- The handlers of glopfile-relay/src/api.rs that create a session, that answer for the metadata of a file,
-- and that upgrade to a websocket.
pub mod Creation
use Prim.Native.String.{String}
use glopfile.Base.{ℕ, Bytes, List, [], ◌∷◌, ◌++◌, Option, none, some, Result, ok, err, ◌>>=◌, ok_or}
use glopfile.Text.{Text, codes}
use glopfile.Ids.{Base64, SessionId, encode_id}
use glopfile.Api.{ApiError}
use glopfile.Session.Types.{Position, Channel, State, Command, Answer, Effect, Direction}
use glopfile.Session.Task.{response}
use glopfile.Registry.{Registry, create, lookup, deliver}

pub record CreateFileResponse : Type 0 where
  pub upload_url : Text
  pub download_id : Text

pub record DownloadMetaResponse : Type 0 where
  pub meta : String
  pub encrypted_content_url : Text

module _ (base64 : Base64) where
  -- `create_file`, with the id that is generated; the form may be missing.
  unfoldable pub create_file :
      SessionId → Option String → Registry → Result ApiError (Registry × CreateFileResponse)
  create_file id form r = do
    metadata ← ok_or form (ApiError.invalid "metadata missing")
    ok (
      create id metadata r,
      record {
        upload_url = codes "/api/v1/upload/" ++ encode_id base64 id;
        download_id = encode_id base64 id;
      },
    )

  -- What a request for the metadata of a session answers.
  abbrev pub metadata_of : Option Answer → Option String
  metadata_of (some (Answer.metadata m)) = some m
  metadata_of _ = none

  abbrev pub meta_response : SessionId → Option String → Result ApiError DownloadMetaResponse
  meta_response id none = err ApiError.not_found
  meta_response id (some m) = ok (record {
    meta = m;
    encrypted_content_url = codes "/api/v1/download/" ++ (encode_id base64 id ++ codes "/content");
  })

  -- `download_meta`, whose request is answered on the reply channel; nothing comes between.
  unfoldable pub download_meta :
      (Position → Bytes) → Channel → Text → Registry → Result ApiError DownloadMetaResponse
  download_meta ack reply text r = do
    s ← lookup base64 r text
    meta_response s.id
        (metadata_of (response reply (deliver ack s.id (Command.metadata reply) r).1))

  -- What `websocket_upgrade` does with a session: it answers that the upgrade was rejected, or it begins
  -- to relay in a direction.
  pub data Upgraded (Rejection : Type 0) : Type 0 where
    rejected : Rejection → Upgraded Rejection
    relays : SessionId → Direction → Upgraded Rejection

  abbrev pub upgraded :
      {Rejection : Type 0}
      → Result Rejection (Unit {0})
      → SessionId
      → Direction
      → Upgraded Rejection
  upgraded (err rejection) id direction = rejected rejection
  upgraded (ok _) id direction = relays id direction

  -- `websocket_upgrade`: a session that is not there comes before a rejection.
  unfoldable pub websocket_upgrade :
      {Rejection : Type 0}
      → Registry
      → Text
      → Result Rejection (Unit {0})
      → Direction
      → Result ApiError (Upgraded Rejection)
  websocket_upgrade r text upgrade direction = do
    s ← lookup base64 r text
    ok (upgraded upgrade s.id direction)
