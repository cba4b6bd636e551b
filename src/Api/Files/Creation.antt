-- ===== src/Api/Files/Creation.antt =====
-- Sessions created by `create_file` of glopfile-relay/src/api.rs, as `download_meta` answers for them.
use Prim.Native.String.{String}
use glopfile.Base.{ℕ, ◌≡◌, Bytes, [], ◌∷◌, ◌++◌, some, ok, arith}
use glopfile.Text.{Text, codes}
use glopfile.Ids.{Base64, SessionId, encode_id}
use glopfile.Session.Types.{Position, Channel, State, Command, Answer}
use glopfile.Session.Handlers.{new}
use glopfile.Session.Relay.{handle}
use glopfile.Session.Task.{response}
use glopfile.Registry.{Registry, get, create, lookup, deliver}
use glopfile.Registry.Sessions.{lookup-create, get-insert}
use glopfile.Text.Split.{text_eq_iff}
use glopfile.Api.Files.{CreateFileResponse, create_file, download_meta, meta_response}

deliver-metadata :
    (ack : Position → Bytes) (i : SessionId) (reply : Channel) (r : Registry) (s : State)
    → get i r ≡ some s
    → response reply (deliver ack i (Command.metadata reply) r).1
      ≡ some (Answer.metadata s.metadata)
unfolding deliver handle response
deliver-metadata ack i reply r s found = ground (arith, found)

-- What `download_meta` answers for a session that is found and stands under its own id.
download_meta-found :
    (base64 : Base64) (ack : Position → Bytes) (reply : Channel) (text : Text) (r : Registry)
    (s : State)
    → lookup base64 r text ≡ ok s
    → get s.id r ≡ some s
    → download_meta base64 ack reply text r ≡ meta_response base64 s.id (some s.metadata)
unfolding download_meta
download_meta-found base64 ack reply text r s looked found =
    grind (arith, looked, deliver-metadata ack s.id reply r s found)

get-create :
    (i : SessionId) (metadata : String) (r : Registry)
    → get i (create i metadata r) ≡ some (new i metadata)
unfolding create
get-create i metadata r = ground (arith, get-insert i i (new i metadata) r, text_eq_iff i i)

-- After the relay has created a file under an id that is not empty, a request for the metadata of
-- the download id that it responded is answered with the metadata it was given and the URL of the
-- content.
pub download_meta-create_file :
    (base64 : Base64) (ack : Position → Bytes) (reply : Channel) (b : ℕ) (id : SessionId)
    (metadata : String) (r s : Registry) (response : CreateFileResponse)
    → create_file base64 (b ∷ id) (some metadata) r ≡ ok (s, response)
    → download_meta base64 ack reply response.download_id s
      ≡ ok (record {
        meta = metadata;
        encrypted_content_url =
            codes "/api/v1/download/" ++ (encode_id base64 (b ∷ id) ++ codes "/content");
      })
unfolding create_file
download_meta-create_file base64 ack reply b id metadata r s response e =
    let i = b ∷ id in
    let found =
      download_meta-found base64 ack reply (encode_id base64 i) (create i metadata r)
        (new i metadata) (lookup-create base64 b id metadata r [] (λ same. ground (arith, same))).0
        (get-create i metadata r) in
    cc (e, found)
