-- ===== src/BodyStore/Store/Body.antt =====
-- internal/core/bodystore/store.go as a request uses it: one store, the goroutine that fills it,
-- and the clients that read it, one event at a time and in any order.
pub mod Invariant
pub mod Filling
pub mod Clients
pub mod Growth
pub mod Limits
pub mod Replay
use directive_proxy.Prelude.{
  ℕ, Option, none, some, String, List, [], ◌∷◌, ◌++◌, get_elem?, set, Int64, inl, inr, true,
}
use directive_proxy.BodyStore.Admission.{ContextError, Error, Reservation, Controller}
use directive_proxy.BodyStore.Store.{Store, StreamOptions, stream_with, retire, close}
use directive_proxy.BodyStore.Store.Reader.{
  Reader, Outcome, got, failed, waits, Reading, open_reader, read, close_reader,
}
use directive_proxy.BodyStore.Store.Ingest.{
  Turn, Ingest, new_ingest, turn, end_ingest, leave_ingest,
}

-- A reader with what its caller has got from it, and the last error that it returned.
pub record Client : Type 0 where
  pub reader : Reader
  pub received : List ℕ
  pub last : Option Error

pub record Body : Type 0 where
  pub controller : Controller
  pub store : Store
  pub ingest : Ingest
  pub clients : List Client

pub data Event : Type 0 where
  turns : Turn → Event
  ends leaves opens retires closes : Event
  reads : (client room : ℕ) → Option ContextError → Event
  closes_reader : (client : ℕ) → Event

abbrev pub received_by : Client → Outcome → Client
received_by k (got bytes) = record k { received = k.received ++ bytes }
received_by k (failed e) = record k { last = some e }
received_by k waits = k

unfoldable pub read_by : Body → ℕ → Client → ℕ → Option ContextError → Body
read_by b n k room ctx_err =
    let out = read b.controller b.store k.reader room ctx_err in
    record b {
      controller = out.controller;
      store = out.store;
      clients = set b.clients n (received_by (record k { reader = out.reader }) out.outcome);
    }

unfoldable pub close_by : Body → ℕ → Client → Body
close_by b n k =
    let (c, s, r) = close_reader b.controller b.store k.reader in
    record b { controller = c; store = s; clients = set b.clients n (record k { reader = r }) }

unfoldable pub opened : Body → Body
opened b = elim (open_reader b.store) [
  | inl e ↦ b
  | inr (s, r) ↦ record b {
    store = s;
    clients = b.clients ++ record { reader = r; received = []; last = none } ∷ [];
  }
]

unfoldable pub turned : Body → Turn → Body
turned b t = elim b.ingest.stopped [
  | some e ↦ b
  | none ↦ (let (s, g) = turn b.store b.ingest t in record b { store = s; ingest = g })
]

unfoldable pub step : (digest : List ℕ → String) → Body → Event → Body
step digest b (turns t) = turned b t
step digest b ends =
    let (s, g) = end_ingest digest b.store b.ingest in record b { store = s; ingest = g }
step digest b leaves =
    let (c, s, g) = leave_ingest b.controller b.store b.ingest in
    record b { controller = c; store = s; ingest = g }
step digest b opens = opened b
step digest b retires =
    let (c, s) = retire b.controller b.store in record b { controller = c; store = s }
step digest b closes =
    let (c, s) = close b.controller b.store in record b { controller = c; store = s }
step digest b (reads n room ctx_err) = elim (get_elem? b.clients n) [
  | none ↦ b
  | some k ↦ read_by b n k room ctx_err
]
step digest b (closes_reader n) = elim (get_elem? b.clients n) [
  | none ↦ b
  | some k ↦ close_by b n k
]

unfoldable pub run : (digest : List ℕ → String) → Body → List Event → Body
run digest b [] = b
run digest b (e ∷ es) = run digest (step digest b e) es

-- A request with a body, whose reservation was admitted.
unfoldable pub start :
    (digest : List ℕ → String) → Controller → Int64 → StreamOptions → Reservation → Body
unfolding stream_with
start digest c expected o r =
    let (c', s) = stream_with (digest []) c expected o true r in
    record { controller = c'; store = s; ingest = new_ingest; clients = [] }
