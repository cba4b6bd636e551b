-- ===== src/Registry.antt =====
-- The sessions of a relay node, glopfile-relay/src/registry.rs, and their tasks: a command goes to the
-- session of an id, and a session that ends is taken out. The map is an association list; the ids
-- that are generated and the tokens, glopfile-relay/src/token.rs, are the caller's.
pub mod Sessions
use Prim.Native.String.{String}
use glopfile.Base.{
  ℕ, ◌+◌, Bytes, List, [], ◌∷◌, ◌++◌, Option, none, some, Result, ok, err, proceed, break,
  if◌then◌else◌, add_u64, ok_or, ◌>>=◌,
}
use glopfile.Text.{Text, text_eq}
use glopfile.Ids.{Base64, SessionId, decode_id}
use glopfile.Session.Types.{Position, State, Command, Effect}
use glopfile.Session.Handlers.{new}
use glopfile.Session.Relay.{handle}
use glopfile.Session.Task.{drop_all, waiting}
use glopfile.Api.{ApiError}

-- `Token::new`: the token, and the counter that the next one is taken from.
unfoldable pub new_token : ℕ → ℕ × ℕ
new_token next = (next, add_u64 next 1)

abbrev pub Registry : Type 0
Registry = List (SessionId × State)

-- `HashMap::get`, `insert` and `remove`.
unfoldable pub get : SessionId → Registry → Option State
get id [] = none
get id ((k, s) ∷ r) = if text_eq k id then some s else get id r

unfoldable pub insert : SessionId → State → Registry → Registry
insert id s [] = (id, s) ∷ []
insert id s ((k, t) ∷ r) = if text_eq k id then (k, s) ∷ r else (k, t) ∷ insert id s r

unfoldable pub remove : SessionId → Registry → Registry
remove id [] = []
remove id ((k, s) ∷ r) = let rest = remove id r in if text_eq k id then rest else (k, s) ∷ rest

-- `Registry::create`, with the id that was generated.
unfoldable pub create : SessionId → String → Registry → Registry
create id metadata r = insert id (new id metadata) r

-- `lookup` of glopfile-relay/src/api.rs: the session of an id as it stands in the path.
unfoldable pub lookup : Base64 → Registry → Text → Result ApiError State
lookup base64 r text = elim (decode_id base64 text) [
  | err e ↦ err (ApiError.invalid "invalid id")
  | ok id ↦ ok_or (get id r) ApiError.not_found
]

-- One turn of the task of a session: it takes a command, and if it stops it drops what waits on it
-- and leaves the registry. A command for a session that is not there is dropped.
unfoldable pub deliver :
    (Position → Bytes) → SessionId → Command → Registry → Registry × List Effect
deliver ack id c r = elim (get id r) [
  | none ↦ (r, [])
  | some s ↦
      let (t, fx, flow) = handle ack c s in
      elim flow [
        | proceed ↦ (insert id t r, fx)
        | break _ ↦ (remove t.id r, fx ++ drop_all (waiting t.pending))
      ]
]
