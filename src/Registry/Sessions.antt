-- ===== src/Registry/Sessions.antt =====
-- What holds of the sessions of a relay node.
use Prim.Native.String.{String}
use glopfile.Base.{
  ℕ, ◌≡◌, ◌≢◌, refl, Bytes, [], ◌∷◌, Option, none, some, ok, proceed, break, arith, ControlFlow,
  if◌then◌else◌,
}
use glopfile.Text.{text_eq}
use glopfile.Text.Split.{text_eq_iff}
use glopfile.Ids.{Base64, SessionId, encode_id}
use glopfile.Ids.Spelling.{decode_id-encode_id}
use glopfile.Session.Types.{Position, State, Command}
use glopfile.Session.Handlers
use glopfile.Session.Handlers.{new}
use glopfile.Session.Relay
use glopfile.Session.Relay.{handle}
use glopfile.Registry.{Registry, get, insert, remove, create, lookup, deliver}

pub get-insert :
    (i j : SessionId) (s : State) (r : Registry)
    → get j (insert i s r) ≡ (if text_eq i j then some s else get j r)
unfolding get insert
get-insert i j s [] = refl
get-insert i j s ((k, t) ∷ r) =
    ground (arith, text_eq_iff i j, text_eq_iff k i, text_eq_iff k j, get-insert i j s r)

get-remove :
    (i j : SessionId) (r : Registry) → get j (remove i r) ≡ (if text_eq i j then none else get j r)
unfolding get remove
get-remove i j [] = ground arith
get-remove i j ((k, t) ∷ r) =
    ground (arith, text_eq_iff i j, text_eq_iff k i, text_eq_iff k j, get-remove i j r)

-- The sessions stand under their own ids.
abbrev pub IsKeyed : Registry → Type 0
IsKeyed r = (i : SessionId) (s : State) → get i r ≡ some s → s.id ≡ i

handle-id : (ack : Position → Bytes) (c : Command) (s : State) → (handle ack c s).0.id ≡ s.id
unfolding handle Relay.start_download Relay.start_upload Relay.upload_data Handlers.finish_download
    Handlers.flush_upload Handlers.terminate_uploader Handlers.disconnected Handlers.start_websocket
    Handlers.relay_frame Handlers.check_start_position
handle-id ack c s = ground arith

-- A session that was just created, under an id that is not empty, is found under the spelling of
-- its id, in its initial state; and every other id leads where it led before.
pub lookup-create :
    (base64 : Base64) (b : ℕ) (id : SessionId) (metadata : String) (r : Registry) (j : SessionId)
    → j ≢ b ∷ id
    → (lookup base64 (create (b ∷ id) metadata r) (encode_id base64 (b ∷ id))
        ≡ ok (new (b ∷ id) metadata))
      × (get j (create (b ∷ id) metadata r) ≡ get j r)
unfolding lookup create
lookup-create base64 b id metadata r j ne =
    let i = b ∷ id in
    let s = new i metadata in
    (
      ground (arith, (decode_id-encode_id base64 b id).0, get-insert i i s r, text_eq_iff i i),
      ground (arith, get-insert i j s r, text_eq_iff i j),
    )

-- What the registry holds for a session whose handler ended with a flow.
abbrev pub left_by : ControlFlow (Unit {0}) → State → Option State
left_by proceed s = some s
left_by (break _) s = none

-- A command for a session that stands under its own id touches no other session; the one that it is
-- for is in the state that its handler left, or is gone if the handler ended it.
pub deliver_isolated :
    (ack : Position → Bytes) (i j : SessionId) (c : Command) (r : Registry) (s : State)
    → get i r ≡ some s
    → s.id ≡ i
    → j ≢ i
    → (get j (deliver ack i c r).0 ≡ get j r)
      × (get i (deliver ack i c r).0 ≡ left_by (handle ack c s).2 (handle ack c s).0)
unfolding deliver
deliver_isolated ack i j c r s e own ne =
    let t = (handle ack c s).0 in
    ground (
      arith,
      handle-id ack c s,
      get-insert i j t r,
      get-insert i i t r,
      get-remove t.id j r,
      get-remove t.id i r,
      text_eq_iff i j,
      text_eq_iff i i,
      text_eq_iff t.id j,
      text_eq_iff t.id i,
    )
