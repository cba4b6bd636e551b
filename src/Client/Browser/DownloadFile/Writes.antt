-- ===== src/Client/Browser/DownloadFile/Writes.antt =====
-- What is written to a file of JavaScript, rust-client/glopfile/src/downloader_client/web.rs.
use glopfile.Base.{
  ◌≡◌, refl, ap, ◌∙◌, Bool, true, false, Bytes, List, [], ◌∷◌, ◌++◌, Option, none, some, ok, err,
  append-nil,
}
use glopfile.Client.Decrypted.{Poll}
use glopfile.Client.Browser.DownloadFile.{
  PendingWrite, Yield, Event, Wrote, Polled, poll_write, poll_flush,
}

-- A poll that a writer makes, with what the promise yields at it.
pub data Operation : Type 0 where
  write : Bytes → Yield → Operation
  flush : Yield → Operation

abbrev pub operate : Operation → Option PendingWrite → Polled
operate (write buf y) = poll_write buf y
operate (flush y) = poll_flush y

-- What the file took at a poll.
abbrev pub taken_at : Operation → Wrote → List Bytes
taken_at (write buf y) Wrote.done = buf ∷ []
taken_at _ _ = []

-- The buffers that the file took, what JavaScript saw, how the last poll ended, and the pending write.
pub record Trace : Type 0 where
  pub taken : List Bytes
  pub events : List Event
  pub last : Wrote
  pub pending_write : Option PendingWrite

-- Further polls, unless one has failed.
abbrev after : List Bytes → Polled → Trace → Trace
after taken p rest = elim p.result [
  | Wrote.panicked ↦ record {
    taken = taken;
    events = p.events;
    last = p.result;
    pending_write = p.pending_write;
  }
  | Wrote.failed e ↦ record {
    taken = taken;
    events = p.events;
    last = p.result;
    pending_write = p.pending_write;
  }
  | _ ↦ record rest { taken = taken ++ rest.taken; events = p.events ++ rest.events }
]

-- The trace of some operations, from the result of the poll before them.
unfoldable pub trace : List Operation → Wrote → Option PendingWrite → Trace
trace [] last w = record { taken = []; events = []; last = last; pending_write = w }
trace (o ∷ os) last w =
    let p = operate o w in after (taken_at o p.result) p (trace os p.result p.pending_write)

-- The buffers that JavaScript was called with.
unfoldable pub called_with : List Event → List Bytes
called_with [] = []
called_with (Event.called bytes ∷ es) = bytes ∷ called_with es
called_with (Event.settled ∷ es) = called_with es

-- Each call comes when that before it is settled; at the begin one is open or not.
abbrev pub IsSerial : Bool → List Event → Type 0
IsSerial open_ [] = Unit {0}
IsSerial false (Event.called bytes ∷ es) = IsSerial true es
IsSerial true (Event.called bytes ∷ es) = ⊥
IsSerial true (Event.settled ∷ es) = IsSerial false es
IsSerial false (Event.settled ∷ es) = ⊥

-- The buffer that was taken and that JavaScript does not know of yet.
abbrev pub unsent : Option PendingWrite → List Bytes
unsent (some (PendingWrite.unpolled bytes)) = bytes ∷ []
unsent _ = []

abbrev is_open : Option PendingWrite → Bool
is_open (some (PendingWrite.running bytes)) = true
is_open _ = false

abbrev Conserves : Option PendingWrite → Trace → Type 0
Conserves w t =
    (unsent w ++ t.taken ≡ called_with t.events ++ unsent t.pending_write)
    × IsSerial (is_open w) t.events

called_first :
    (b : Bytes) {taken sent : List Bytes} {S : Type 0}
    → (taken ≡ sent) × S
    → (b ∷ taken ≡ b ∷ sent) × S
called_first b h = (ap (◌∷◌ b) h.0, h.1)

trace-Conserves :
    (os : List Operation) (last : Wrote) (w : Option PendingWrite) → Conserves w (trace os last w)
unfolding trace called_with poll_write poll_flush
trace-Conserves [] last none = (refl, tt)
trace-Conserves [] last (some (PendingWrite.unpolled b)) = (refl, tt)
trace-Conserves [] last (some (PendingWrite.running b)) = (refl, tt)
trace-Conserves [] last (some PendingWrite.spent) = (refl, tt)
trace-Conserves (write buf y ∷ os) last none =
    trace-Conserves os Wrote.done (some (PendingWrite.unpolled buf))
trace-Conserves (write buf Poll.pending ∷ os) last (some (PendingWrite.unpolled b)) =
    called_first b (trace-Conserves os Wrote.waits (some (PendingWrite.running b)))
trace-Conserves (write buf (Poll.ready (err e)) ∷ os) last (some (PendingWrite.unpolled b)) =
    (refl, tt)
trace-Conserves (write buf (Poll.ready (ok u)) ∷ os) last (some (PendingWrite.unpolled b)) =
    called_first b (trace-Conserves os Wrote.done (some (PendingWrite.unpolled buf)))
trace-Conserves (write buf Poll.pending ∷ os) last (some (PendingWrite.running b)) =
    trace-Conserves os Wrote.waits (some (PendingWrite.running b))
trace-Conserves (write buf (Poll.ready (err e)) ∷ os) last (some (PendingWrite.running b)) =
    (refl, tt)
trace-Conserves (write buf (Poll.ready (ok u)) ∷ os) last (some (PendingWrite.running b)) =
    trace-Conserves os Wrote.done (some (PendingWrite.unpolled buf))
trace-Conserves (write buf y ∷ os) last (some PendingWrite.spent) = (refl, tt)
trace-Conserves (flush y ∷ os) last none = trace-Conserves os Wrote.done none
trace-Conserves (flush Poll.pending ∷ os) last (some (PendingWrite.unpolled b)) =
    called_first b (trace-Conserves os Wrote.waits (some (PendingWrite.running b)))
trace-Conserves (flush (Poll.ready (err e)) ∷ os) last (some (PendingWrite.unpolled b)) = (refl, tt)
trace-Conserves (flush (Poll.ready (ok u)) ∷ os) last (some (PendingWrite.unpolled b)) =
    called_first b (trace-Conserves os Wrote.done none)
trace-Conserves (flush Poll.pending ∷ os) last (some (PendingWrite.running b)) =
    trace-Conserves os Wrote.waits (some (PendingWrite.running b))
trace-Conserves (flush (Poll.ready (err e)) ∷ os) last (some (PendingWrite.running b)) = (refl, tt)
trace-Conserves (flush (Poll.ready (ok u)) ∷ os) last (some (PendingWrite.running b)) =
    trace-Conserves os Wrote.done none
trace-Conserves (flush y ∷ os) last (some PendingWrite.spent) = (refl, tt)

after-flush :
    (taken : List Bytes) (p : Polled) (r : Wrote) (rest : Trace)
    → p.result ≡ r
    → (rest.last ≡ Wrote.done → rest.pending_write ≡ none)
    → (after taken p rest).last ≡ Wrote.done
    → (after taken p rest).pending_write ≡ none
after-flush taken p Wrote.panicked rest e later h =
    let ended : (after taken p rest).last ≡ p.result = rw e (refl) in cc (e, h, ended)
after-flush taken p (Wrote.failed m) rest e later h =
    let ended : (after taken p rest).last ≡ p.result = rw e (refl) in cc (e, h, ended)
after-flush taken p Wrote.waits rest e later h = rw e (later (rw e at h))
after-flush taken p Wrote.done rest e later h = rw e (later (rw e at h))

poll_flush-none :
    (y : Yield) (w : Option PendingWrite)
    → (poll_flush y w).result ≡ Wrote.done
    → (poll_flush y w).pending_write ≡ none
unfolding poll_flush
poll_flush-none y none h = refl
poll_flush-none y (some PendingWrite.spent) h = cc
poll_flush-none Poll.pending (some (PendingWrite.unpolled b)) h = cc
poll_flush-none Poll.pending (some (PendingWrite.running b)) h = cc
poll_flush-none (Poll.ready (err e)) (some (PendingWrite.unpolled b)) h = cc
poll_flush-none (Poll.ready (err e)) (some (PendingWrite.running b)) h = cc
poll_flush-none (Poll.ready (ok u)) (some (PendingWrite.unpolled b)) h = refl
poll_flush-none (Poll.ready (ok u)) (some (PendingWrite.running b)) h = refl

-- A flush that ends well leaves nothing behind.
flush-none :
    (os : List Operation) (y : Yield) (last : Wrote) (w : Option PendingWrite)
    → (trace (os ++ flush y ∷ []) last w).last ≡ Wrote.done
    → (trace (os ++ flush y ∷ []) last w).pending_write ≡ none
unfolding trace
flush-none [] y last w h =
    let p = poll_flush y w in
    after-flush [] p p.result (trace [] p.result p.pending_write) refl (poll_flush-none y w) h
flush-none (o ∷ os) y last w h =
    let p = operate o w in
    after-flush (taken_at o p.result) p p.result
      (trace (os ++ flush y ∷ []) p.result p.pending_write) refl
      (flush-none os y p.result p.pending_write) h

-- Over any polls of a file that was just opened, of which none comes after an error, JavaScript is called
-- with just the buffers that the file took, each once and in order, but for one that the file may still
-- have, and never before the promise of the call before it is settled; and if the last poll is a flush
-- that ends well, with all of them.
pub written_in_order :
    (os : List Operation) (y : Yield)
    → let t = trace os Wrote.done none in
      let u = trace (os ++ flush y ∷ []) Wrote.done none in
      (t.taken ≡ called_with t.events ++ unsent t.pending_write)
      × IsSerial false t.events
      × (u.last ≡ Wrote.done → u.taken ≡ called_with u.events)
written_in_order os y =
    let t = trace-Conserves os Wrote.done none in
    let u = trace-Conserves (os ++ flush y ∷ []) Wrote.done none in
    (
      t.0,
      t.1,
      λ h.
          u.0
          ∙ ap (λ w. called_with (trace (os ++ flush y ∷ []) Wrote.done none).events ++ unsent w)
              (flush-none os y Wrote.done none h)
          ∙ append-nil (called_with (trace (os ++ flush y ∷ []) Wrote.done none).events),
    )
