-- ===== src/Client/Signaling/Socket.antt =====
-- The signaling websocket, `SignalingWebSocket` of rust-client/glopfile/src/p2p.rs: a queue of
-- encrypted messages that are sent over the connection that the websocket client has. What the
-- network does with each message is an argument.
pub mod Flushes
use glopfile.Base.{
  ℕ, suc, Bytes, List, [], ◌∷◌, ◌++◌, Bool, true, false, Result, ok, err, if◌then◌else◌,
}
use glopfile.Client.Errors.{Error}

-- `client` is whether there is a websocket client, and `websocket` whether there is a connection that
-- was used before and did not fail.
pub record Socket : Type 0 where
  pub client : Bool
  pub websocket : Bool
  pub pending : List Bytes

-- What the network does for a message: how connecting would end, the timeout included, and whether
-- sending succeeds.
pub record Network : Type 0 where
  pub connecting : Result Error (Unit {0})
  pub sends : Bool

-- What a flush leaves behind: the socket, the messages that were handed to a connection, each with
-- whether that succeeded, and the result.
pub record Flushed : Type 0 where
  pub socket : Socket
  pub attempted : List (Bytes × Bool)
  pub result : Result Error (Unit {0})

-- The connection for a message: the one that is there, or a new one.
abbrev pub connection : Bool → Network → Result Error (Unit {0})
connection true n = ok tt
connection false n = n.connecting

abbrev pub and_attempt : Bytes × Bool → Flushed → Flushed
and_attempt a f = record f { attempted = a ∷ f.attempted }

-- The loop of `flush` over the queue: a message leaves the queue once it was handed to a connection,
-- and the connection is kept if that succeeded.
unfoldable pub flush_loop : (ℕ → Network) → ℕ → Bool → List Bytes → Flushed
flush_loop network i websocket [] = record {
  socket = record { client = true; websocket = websocket; pending = [] };
  attempted = [];
  result = ok tt;
}
flush_loop network i websocket (m ∷ pending) =
    let rest = flush_loop network (suc i) (network i).sends pending in
    elim (connection websocket (network i)) [
      | err e ↦ record {
        socket = record { client = true; websocket = false; pending = m ∷ pending };
        attempted = [];
        result = err e;
      }
      | ok _ ↦ and_attempt (m, (network i).sends) rest
    ]

-- `flush`; without a client it leaves everything as it is.
unfoldable pub flush : (ℕ → Network) → Socket → Flushed
unfolding flush_loop
flush network s =
    if s.client
    then flush_loop network 0 s.websocket s.pending
    else record { socket = s; attempted = []; result = ok tt }

-- `send`, of a message that was encrypted.
unfoldable pub send : (ℕ → Network) → Bytes → Socket → Flushed
unfolding flush
send network m s = flush network (record s { pending = s.pending ++ m ∷ [] })
