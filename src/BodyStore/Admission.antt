-- ===== src/BodyStore/Admission.antt =====
-- internal/core/bodystore/controller.go: the memory budget shared by all request bodies, and the
-- queue of requests that wait for their part of it.
-- The mutex makes each block between Lock and Unlock one function here. A waiter's `granted` flag
-- with the reservation in its channel is its entry in `granted`; a pointer is an `id`.
-- A duration is an int64 of nanoseconds, and what a caller measures is an argument.
pub mod Dispatch
pub mod Accounts
pub mod Waiting
pub mod Order
pub mod System
use directive_proxy.Prelude.{
  ℕ, ◌+◌, ◌%◌, ◌==◌, Bool, true, false, not, ◌&&◌, ◌||◌, Option, none, some, List, [], ◌∷◌, ◌++◌,
  Int64, add64, sub64, slt, sle, length, if◌then◌else◌,
}

-- ctx.Err() of a context that is done.
pub data ContextError : Type 0 where
  canceled deadline_exceeded : ContextError

-- The errors of the package, io.EOF and io.ErrUnexpectedEOF, those of a context, and `foreign` ones
-- that a body's source or its observer returns.
pub data Error : Type 0 where
  body_too_large store_capacity queue_full queue_timeout store_retired store_closed : Error
  eof unexpected_eof exceeds_declared_length : Error
  context_error : ContextError → Error
  foreign : ℕ → Error

pub record Config : Type 0 where
  pub memory_max_bytes : Int64
  pub max_body_bytes : Int64
  pub chunk_bytes : Int64
  pub queue_max_requests : Int64

pub record Waiter : Type 0 where
  pub id : ℕ
  pub size : Int64

-- `attached` is false for the reservation of no bytes, whose controller is nil.
pub record Reservation : Type 0 where
  pub attached : Bool
  pub size : Int64
  pub closed : Bool

pub record Controller : Type 0 where
  pub config : Config
  pub open config use *
  pub used : Int64
  pub queue : List Waiter
  pub granted : List Waiter
  pub admitted_total : ℕ
  pub queue_full_total : ℕ
  pub queue_timeout_total : ℕ
  pub canceled_total : ℕ
  pub capacity_total : ℕ
  pub max_queue_wait_nano : Int64

pub record Snapshot : Type 0 where
  pub memory_used_bytes : Int64
  pub memory_available_bytes : Int64
  pub queued_requests : ℕ

abbrev pub default_chunk_bytes : Int64
default_chunk_bytes = 65536

unfoldable pub new_controller : Config → Controller
new_controller config = record {
  config =
      if sle config.chunk_bytes 0
      then record config { chunk_bytes = default_chunk_bytes }
      else config;
  used = 0;
  queue = [];
  granted = [];
  admitted_total = 0;
  queue_full_total = 0;
  queue_timeout_total = 0;
  canceled_total = 0;
  capacity_total = 0;
  max_queue_wait_nano = 0;
}

unfoldable pub snapshot : Controller → Snapshot
snapshot c =
    let available = sub64 c.memory_max_bytes c.used in
    record {
      memory_used_bytes = c.used;
      memory_available_bytes = if slt available 0 then 0 else available;
      queued_requests = length c.queue;
    }

-- Counters are uint64.
abbrev pub count_up : ℕ → ℕ
count_up n = (n + 1) % 18446744073709551616

unfoldable pub grant_locked : Controller → Int64 → Controller × Reservation
grant_locked c size =
    (record c { used = add64 c.used size }, record { attached = true; size = size; closed = false })

-- What one run of the loop of dispatchLocked changes.
pub record Dispatched : Type 0 where
  pub used : Int64
  pub woken : List Waiter
  pub waiting : List Waiter

unfoldable pub dispatch_loop : Int64 → Int64 → List Waiter → Dispatched
dispatch_loop limit used [] = record { used = used; woken = []; waiting = [] }
dispatch_loop limit used (w ∷ queue) =
    let rest = dispatch_loop limit (add64 used w.size) queue in
    if slt limit (add64 used w.size)
    then record { used = used; woken = []; waiting = w ∷ queue }
    else record rest { woken = w ∷ rest.woken }

unfoldable pub dispatch_locked : Controller → Controller
unfolding dispatch_loop
dispatch_locked c =
    let d = dispatch_loop c.memory_max_bytes c.used c.queue in
    record c { used = d.used; queue = d.waiting; granted = c.granted ++ d.woken }

unfoldable pub release : Controller → Int64 → Controller
unfolding dispatch_locked
release c size =
    let left = sub64 c.used size in
    dispatch_locked (record c { used = if slt left 0 then 0 else left })

-- The `once` of a reservation is its `closed` flag.
unfoldable pub close_reservation : Controller → Reservation → Controller × Reservation
close_reservation c r =
    if not r.attached || r.size == 0 || r.closed
    then (c, r)
    else (release c r.size, record r { closed = true })

unfoldable pub record_admission_wait : Controller → Int64 → Controller
record_admission_wait c wait =
    if sle wait c.max_queue_wait_nano then c else record c { max_queue_wait_nano = wait }

unfoldable pub record_admission_failure :
    Controller → ContextError → Option ContextError → Controller
record_admission_failure c wait_err (some e) = record c {
  canceled_total = count_up c.canceled_total;
}
record_admission_failure c canceled none = record c { canceled_total = count_up c.canceled_total }
record_admission_failure c deadline_exceeded none = record c {
  queue_timeout_total = count_up c.queue_timeout_total;
}

abbrev pub admission_context_error : ContextError → Option ContextError → Error
admission_context_error wait_err (some e) = context_error e
admission_context_error deadline_exceeded none = queue_timeout
admission_context_error canceled none = context_error canceled

-- What a caller of `admit` has: an error, a reservation, or a place in the queue.
pub data Admission : Type 0 where
  refused : Error → Admission
  admitted : Reservation → Admission
  queued : Waiter → Admission

-- admit, up to the place where it waits. The new waiter's pointer is `id`.
unfoldable pub admit : Controller → ℕ → Int64 → Controller × Admission
unfolding grant_locked record_admission_wait
admit c id size =
    if slt size 0
    then (c, refused body_too_large)
    else if slt c.memory_max_bytes size
    then (record c { capacity_total = count_up c.capacity_total }, refused store_capacity)
    else if size == 0
    then (c, admitted (record { attached = false; size = 0; closed = false }))
    else if (length c.queue == 0) && sle (add64 c.used size) c.memory_max_bytes
    then (let (c', reservation) = grant_locked c size in
        (
          record_admission_wait (record c' { admitted_total = count_up c'.admitted_total }) 0,
          admitted reservation,
        ))
    else if sle c.queue_max_requests 0 || sle c.queue_max_requests (length c.queue)
    then (record c { queue_full_total = count_up c.queue_full_total }, refused queue_full)
    else (let w : Waiter = record { id = id; size = size } in
        (record c { queue = c.queue ++ w ∷ [] }, queued w))

unfoldable pub find : ℕ → List Waiter → Option Waiter
find id [] = none
find id (w ∷ ws) = if w.id == id then some w else find id ws

unfoldable pub remove : ℕ → List Waiter → List Waiter
remove id [] = []
remove id (w ∷ ws) = if w.id == id then ws else w ∷ remove id ws

-- The reservation that lies in the channel of a granted waiter.
abbrev pub reservation_of : Waiter → Reservation
reservation_of g = record { attached = true; size = g.size; closed = false }

-- What follows the receive from item.ready, by waitCtx.Err().
unfoldable pub after_receive :
    Controller → Waiter → Option ContextError → Option ContextError → Controller × Admission
unfolding record_admission_failure close_reservation
after_receive c g none parent_err =
    (record c { admitted_total = count_up c.admitted_total }, admitted (reservation_of g))
after_receive c g (some e) parent_err = (
  record_admission_failure (close_reservation c (reservation_of g)).0 e parent_err,
  refused (admission_context_error e parent_err),
)

-- The branch of the select that receives from item.ready; it is not taken while that is empty.
unfoldable pub admit_ready :
    Controller → Waiter → Int64 → Option ContextError → Option ContextError → Controller × Admission
unfolding record_admission_wait after_receive
admit_ready c item waited wait_err parent_err = elim (find item.id c.granted) [
  | none ↦ (c, queued item)
  | some g ↦
      after_receive (record_admission_wait (record c { granted = remove item.id c.granted }) waited)
        g wait_err parent_err
]

-- The branch of the select on waitCtx.Done().
unfoldable pub admit_done :
    Controller → Waiter → Int64 → ContextError → Option ContextError → Controller × Admission
unfolding record_admission_wait record_admission_failure close_reservation
admit_done c item waited wait_err parent_err =
    let left : Controller = elim (find item.id c.granted) [
      | none ↦ dispatch_locked (record c { queue = remove item.id c.queue })
      | some g ↦
          (close_reservation (record c { granted = remove item.id c.granted }) (reservation_of g)).0
    ] in
    (
      record_admission_failure (record_admission_wait left waited) wait_err parent_err,
      refused (admission_context_error wait_err parent_err),
    )

unfoldable pub normalize_chunk_bytes : Int64 → Int64 → Int64
normalize_chunk_bytes value fallback =
    if slt 0 value then value else if slt 0 fallback then fallback else default_chunk_bytes

-- The declared length, or else the largest one, with a chunk in flight.
unfoldable pub reserve_size : (expected max chunk : Int64) → Int64
reserve_size expected max chunk = if sle 0 expected then add64 expected chunk else add64 max chunk

-- Admit: the size to reserve, then `admit`. A negative `expected` is an unknown length.
unfoldable pub admit_body :
    Controller → ℕ → (expected max_body chunk : Int64) → Controller × Admission
unfolding normalize_chunk_bytes reserve_size
admit_body c id expected max_body chunk =
    let max = if sle max_body 0 then c.max_body_bytes else max_body in
    let bytes = normalize_chunk_bytes chunk c.chunk_bytes in
    let reserve = reserve_size expected max bytes in
    if sle max 0 || slt max expected
    then (c, refused body_too_large)
    else if slt reserve 0
    then (c, refused body_too_large)
    else admit c id reserve
