-- ===== src/Examples/Browsing.antt =====
-- The theorems on the files and sockets of a browser at concrete inputs.
use Prim.Native.String.{String}
use glopfile.Base.{
  ℕ, ◌≡◌, ◌≢◌, Bool, true, false, Bytes, List, [], ◌∷◌, ◌++◌, Option, none, some, Result, ok, err,
  arith,
}
use glopfile.Client.Decrypted.{Poll}
use glopfile.Client.Errors.{WebSocketError, Retriability, close_status}
use glopfile.Client.Browser.UploadFile.{fresh}
use glopfile.Client.Browser.UploadFile.Reads.{End, read_to_end, reads_in_order}
use glopfile.Client.Browser.DownloadFile.{Wrote}
use glopfile.Client.Browser.DownloadFile.Writes.{
  Operation, IsSerial, trace, called_with, unsent, written_in_order,
}
use glopfile.Client.Sockets.{Outcome, reconnects}
use glopfile.Client.Sockets.Browser
use glopfile.Client.Sockets.Browser.{Event}
use glopfile.Client.Sockets.Browser.Ends.{Step, run, close_told_once}

-- Buffers of two bytes, for a file that yields three bytes, then waits, and then has no more.
abbrev polls : List (ℕ × Poll (Result String ℕ))
polls = (2, Poll.ready (ok 3)) ∷ (2, Poll.pending) ∷ (2, Poll.pending) ∷ (2, Poll.ready (ok 7)) ∷ []

abbrev content : Bytes
content = 4 ∷ 5 ∷ 6 ∷ []

reads_in_order_example :
    (rest : Bytes) × (content ≡ (read_to_end content polls fresh).0 ++ rest)
    × ((read_to_end content polls fresh).1 ≡ End.eof → rest ≡ [])
    × ((read_to_end content polls fresh).1 ≢ End.panicked)
reads_in_order_example = reads_in_order content polls (omega arith) (
  (omega arith, omega arith),
  ((omega arith, tt), ((omega arith, tt), ((omega arith, omega arith), tt))),
)

abbrev operations : List Operation
operations =
    Operation.write (1 ∷ []) Poll.pending
    ∷ Operation.write (2 ∷ []) Poll.pending
    ∷ Operation.write (2 ∷ []) (Poll.ready (ok tt))
    ∷ []

written_in_order_example :
    ((trace operations Wrote.done none).taken
      ≡ called_with (trace operations Wrote.done none).events
        ++ unsent (trace operations Wrote.done none).pending_write)
    × IsSerial false (trace operations Wrote.done none).events
    × ((trace (operations ++ Operation.flush (Poll.ready (ok tt)) ∷ []) Wrote.done none).last
          ≡ Wrote.done
        → (trace (operations ++ Operation.flush (Poll.ready (ok tt)) ∷ []) Wrote.done none).taken
          ≡ called_with
              (trace
                (operations ++ Operation.flush (Poll.ready (ok tt)) ∷ [])
                Wrote.done
                none).events)
written_in_order_example = written_in_order operations (Poll.ready (ok tt))

abbrev server_error : ℕ → Option Bool
server_error status = some true

-- A socket that is closed as usual, after a message was sent.
abbrev closed_socket : Browser.Shared
closed_socket =
    Browser.on_event (Event.closed 1000 "bye") (run (Step.sends (ok tt) ∷ []) Browser.fresh).1

close_told_once_example :
    ((Browser.join closed_socket).0
      ≡ Outcome.returned (err (WebSocketError.closed (close_status 1000) "bye")))
    × ((Browser.send (ok tt) closed_socket).0
        ≡ Outcome.returned (err (WebSocketError.closed (close_status 1000) "bye")))
    × (reconnects server_error (Browser.join (Browser.send (ok tt) closed_socket).1).0
        ≡ some Retriability.transient)
close_told_once_example = close_told_once server_error (Step.sends (ok tt) ∷ []) 1000 "bye" (ok tt)
