-- ===== src/BodyStore/Tests.antt =====
-- Runs of the body store, and the theorems at inputs that meet their hypotheses.
use directive_proxy.Prelude.{
  ℕ, ◌≡◌, refl, true, false, Option, none, some, String, map, List, [], ◌∷◌, arith,
}
use directive_proxy.BodyStore.Admission.{
  dispatch_loop, Error, Config, Waiter, Reservation, deadline_exceeded, new_controller, admit,
  admit_body, admit_ready, admit_done, release, find, remove, close_reservation, eof,
}
use directive_proxy.BodyStore.Admission.Dispatch.{Dispatches, dispatch_loop-Dispatches}
use directive_proxy.BodyStore.Admission.Accounts.{Inv, charge}
use directive_proxy.BodyStore.Admission.Order.{Serves, admit-Serves, close_reservation_idem}
use directive_proxy.BodyStore.Admission.System
use directive_proxy.BodyStore.Admission.System.{arrive, wake, give_up}
use directive_proxy.BodyStore.Admission.System.Invariant.{SystemInv, run-start-Inv, drained}
use directive_proxy.BodyStore.Store
use directive_proxy.BodyStore.Store.{StreamOptions}
use directive_proxy.BodyStore.Store.Chunks.{flatten, read_at_locked, read_at_locked-flatten}
use directive_proxy.BodyStore.Store.Ingest.{Turn}
use directive_proxy.BodyStore.Store.Body
use directive_proxy.BodyStore.Store.Reader
use directive_proxy.BodyStore.Store.Chunks
use directive_proxy.BodyStore.Store.Ingest
use directive_proxy.BodyStore.Store.Body.{turns, opens, reads, ends, leaves, retires}
use directive_proxy.BodyStore.Store.Body.Replay.{BodyInv, run-start-BodyInv}

abbrev small_store : Config
small_store = record {
  memory_max_bytes = 100;
  max_body_bytes = 60;
  chunk_bytes = 10;
  queue_max_requests = 2;
}

abbrev waiter : ℕ → Waiter
waiter id = record { id = id; size = 70 }

-- The second request waits, is woken when the first is closed, and is closed in turn; a third
-- gives up while it waits.
abbrev history : List System.Event
history =
    arrive 0 60 0 0
    ∷ arrive 1 60 0 0
    ∷ arrive 2 60 0 0
    ∷ give_up (waiter 2) 5 deadline_exceeded none
    ∷ System.Event.close 0
    ∷ wake (waiter 1) 7 none none
    ∷ System.Event.close 0
    ∷ []

run-start-Inv_example : SystemInv (System.run (System.start small_store) history)
run-start-Inv_example = run-start-Inv small_store history (omega arith) (omega arith)

drained_example :
    ((System.run (System.start small_store) history).controller.used ≡ 0)
    × ((System.run (System.start small_store) history).controller.queue ≡ [])
unfolding System.run System.step System.start System.close_held new_controller admit_body admit
    admit_ready admit_done close_reservation release find remove charge
drained_example = drained small_store history (omega arith) (omega arith) refl refl

fresh : Inv 0 (new_controller small_store)
unfolding new_controller
fresh = ground arith

admit-Serves_example :
    Serves (new_controller small_store) 70 (admit (new_controller small_store) 0 70)
admit-Serves_example = admit-Serves {n = 0} 0 70 (omega arith) fresh

abbrev held : Reservation
held = record { attached = true; size = 70; closed = false }

close_reservation_idem_example :
    close_reservation
      (new_controller small_store)
      (close_reservation (new_controller small_store) held).1
    ≡ (new_controller small_store, (close_reservation (new_controller small_store) held).1)
close_reservation_idem_example =
    close_reservation_idem (new_controller small_store) (new_controller small_store) held

-- Two chunks, a read over their border.
read_at_locked-flatten_example : read_at_locked ((1 ∷ 2 ∷ []) ∷ (3 ∷ 4 ∷ []) ∷ []) 2 1 ≡ 2 ∷ 3 ∷ []
read_at_locked-flatten_example = read_at_locked-flatten ((1 ∷ 2 ∷ []) ∷ (3 ∷ 4 ∷ []) ∷ []) 2 1

abbrev chunk : List ℕ → Option Error → Turn
chunk bytes e = record {
  ctx_err = none;
  bytes = bytes;
  chunk_err = none;
  read_err = e;
  ctx_err_after = none;
}

-- A body of three bytes, read by two clients, one of them after the source has ended.
abbrev replayed : List Body.Event
replayed =
    opens
    ∷ turns (chunk (1 ∷ 2 ∷ []) none)
    ∷ reads 0 8 none
    ∷ turns (chunk (3 ∷ []) (some eof))
    ∷ ends
    ∷ leaves
    ∷ opens
    ∷ reads 1 8 none
    ∷ reads 1 8 none
    ∷ retires
    ∷ []

abbrev no_digest : List ℕ → String
no_digest bytes = ""

abbrev limits : StreamOptions
limits = record { max_body_bytes = 60; chunk_bytes = 10 }

run-start-BodyInv_example :
    BodyInv no_digest held 10 (
      Body.run no_digest (Body.start no_digest (new_controller small_store) 3 limits held) replayed)
run-start-BodyInv_example =
    run-start-BodyInv no_digest (new_controller small_store) 3 limits held replayed (omega arith)
      (omega arith)

second_client_has_all :
    map
      (λ (k : Body.Client). k.received)
      (Body.run no_digest
        (Body.start no_digest (new_controller small_store) 3 limits held)
        replayed).clients
    ≡ (1 ∷ 2 ∷ []) ∷ (1 ∷ 2 ∷ 3 ∷ []) ∷ []
unfolding Body.run Body.step Body.start Body.opened Body.turned Body.read_by Reader.open_reader
    Reader.read Reader.close_with Chunks.read_at_locked Ingest.turn Ingest.end_ingest
    Ingest.leave_ingest Store.retire
second_client_has_all = refl

dispatch_loop-Dispatches_example :
    Dispatches 100 20 (waiter 1 ∷ waiter 2 ∷ []) (dispatch_loop 100 20 (waiter 1 ∷ waiter 2 ∷ []))
dispatch_loop-Dispatches_example =
    dispatch_loop-Dispatches 100 20 (waiter 1 ∷ waiter 2 ∷ []) (omega arith) (omega arith)
      (omega arith)
