-- ===== src/Client/Signaling/Socket/Flushes.antt =====
-- What becomes of the messages in the queue of a signaling websocket.
use glopfile.Base.{
  ℕ, suc, ◌≡◌, ◌⊎◌, inl, refl, Bytes, List, [], ◌∷◌, ◌++◌, map, Bool, true, false, Result, ok, err,
  arith,
}
use glopfile.Client.Errors.{Error}
use glopfile.Client.Signaling.Socket.{Socket, Network, Flushed, flush_loop, flush, send}

-- The messages among the attempts.
abbrev pub messages : List (Bytes × Bool) → List Bytes
messages = map (λ a. a.0)

abbrev pub is_ok : Result Error (Unit {0}) → Bool
is_ok (ok _) = true
is_ok (err e) = false

-- Each message of a queue is handed to a connection once, or stays, in its place.
abbrev pub Conserves : List Bytes → Flushed → Type 0
Conserves pending f =
    (messages f.attempted ++ f.socket.pending ≡ pending)
    × ((f.socket.pending ≡ []) ⊎ (is_ok f.result ≡ false) ⊎ (f.socket.client ≡ false))

flush_loop-Conserves :
    (network : ℕ → Network) (i : ℕ) (websocket : Bool) (pending : List Bytes)
    → Conserves pending (flush_loop network i websocket pending)
unfolding flush_loop
flush_loop-Conserves network i websocket [] = (refl, inl refl)
flush_loop-Conserves network i websocket (m ∷ pending) =
    ground (arith, flush_loop-Conserves network (suc i) (network i).sends pending)

-- Whatever the network does, each message of the queue and the one that is sent is handed to a
-- connection once, in their order, or stays in the queue behind those that were; messages stay only
-- if the flush fails or there is no websocket client. So a message whose sending fails is not sent
-- again.
pub send-Conserves :
    (network : ℕ → Network) (m : Bytes) (s : Socket)
    → Conserves (s.pending ++ m ∷ []) (send network m s)
unfolding send flush
send-Conserves network m s =
    ground (arith, flush_loop-Conserves network 0 s.websocket (s.pending ++ m ∷ []))
