-- ===== src/BodyStore/Admission/System/Invariant.antt =====
-- internal/core/bodystore/controller.go: what holds of the memory budget after any history of
-- requests.
use native.Mathlib.Nat.{add_comm}
use directive_proxy.Prelude.{
  ℕ, zero, suc, ◌+◌, ◌<◌, ◌≡◌, refl, ap, List, [], ◌∷◌, arith, All, IsNatural,
}
use directive_proxy.BodyStore.Admission.{
  Config, Waiter, Reservation, Controller, Admission, refused, admitted, queued, new_controller,
}
use directive_proxy.BodyStore.Admission.Dispatch.{total, Fits, Blocked, limit_bound}
use directive_proxy.BodyStore.Admission.Accounts.{
  Inv, Keeps, charge, close_reservation-Inv, admit_body-Inv,
}
use directive_proxy.BodyStore.Admission.Waiting.{admit_ready-Inv, admit_done-Inv}
use directive_proxy.BodyStore.Admission.System.{
  System, Event, arrive, wake, give_up, close, hold, close_held, step, run, start,
}

-- The size of the reservations that are still open.
abbrev pub charges : List Reservation → ℕ
charges [] = 0
charges (r ∷ rs) = charge r + charges rs

abbrev pub SystemInv : System → Type 0
SystemInv s = Inv (charges s.held) s.controller

hold-SystemInv :
    (held : List Reservation) (x : Controller × Admission)
    → Keeps (charges held) x
    → SystemInv (hold held x)
hold-SystemInv held (c, admitted r) k = rw (add_comm (charge r) (charges held)) k
hold-SystemInv held (c, refused e) k = ground arith
hold-SystemInv held (c, queued w) k = ground arith

recount : {a : ℕ} (b : ℕ) {c : Controller} → a ≡ b → Inv a c → Inv b c
recount b e v = rw (← e) v

close_held-Inv :
    (n : ℕ) (c : Controller) (k : ℕ) (held : List Reservation)
    → Inv (n + charges held) c
    → let (c', held') = close_held c k held in Inv (n + charges held') c'
unfolding close_held
close_held-Inv n c k [] v = v
close_held-Inv n c zero (r ∷ rs) v =
    let (v', closed) = close_reservation-Inv {n = n + charges rs} r (recount _ (omega arith) v) in
    recount _ (omega (arith, closed)) v'
close_held-Inv n c (suc k) (r ∷ rs) v =
    let v' = close_held-Inv (n + charge r) c k rs (recount _ (omega arith) v) in
    recount _ (omega arith) v'

step-SystemInv : (s : System) (e : Event) → SystemInv s → SystemInv (step s e)
unfolding step
step-SystemInv s (arrive id expected max_body chunk) v =
    hold-SystemInv s.held _ (admit_body-Inv id expected max_body chunk v)
step-SystemInv s (wake w waited wait_err parent_err) v =
    hold-SystemInv s.held _ (admit_ready-Inv w waited wait_err parent_err v)
step-SystemInv s (give_up w waited wait_err parent_err) v =
    hold-SystemInv s.held _ (admit_done-Inv w waited wait_err parent_err v)
step-SystemInv s (close n) v =
    recount _ (omega arith) (close_held-Inv 0 s.controller n s.held (recount _ (omega arith) v))

run-SystemInv : (s : System) (es : List Event) → SystemInv s → SystemInv (run s es)
unfolding run
run-SystemInv s [] v = v
run-SystemInv s (e ∷ es) v = run-SystemInv (step s e) es (step-SystemInv s e v)

start-SystemInv :
    (config : Config)
    → config.memory_max_bytes < limit_bound
    → IsNatural config.queue_max_requests
    → SystemInv (start config)
unfolding start new_controller
start-SystemInv config h q = ground arith

-- After any history of arrivals, wake-ups, cancellations and closings, in any order, the memory
-- in use is the sum of the open reservations and of those on their way to a granted waiter; it
-- is within the limit; the queue is within its own limit; every queued request is positive and
-- at most the limit; and the first queued request does not fit beside the memory in use. The
-- limit is assumed to be below 2 ^ 62 bytes and the queue's limit not to be negative.
pub run-start-Inv :
    (config : Config) (es : List Event)
    → config.memory_max_bytes < limit_bound
    → IsNatural config.queue_max_requests
    → SystemInv (run (start config) es)
run-start-Inv config es h q = run-SystemInv (start config) es (start-SystemInv config h q)

no_room-no_waiter :
    (limit : ℕ) (queue : List Waiter) → All (Fits limit) queue → Blocked limit 0 queue → queue ≡ []
no_room-no_waiter limit [] f b = refl
no_room-no_waiter limit (w ∷ queue) f b = absurd (omega arith)

nobody_waits :
    (s : System)
    → SystemInv s
    → charges s.held ≡ 0
    → s.controller.granted ≡ []
    → (s.controller.used ≡ 0) × (s.controller.queue ≡ [])
nobody_waits s v none_held none_granted = (
  unused,
  no_room-no_waiter s.controller.memory_max_bytes s.controller.queue v.accounts.fits
      (rw unused at v.blocked),
)
  where
    unused : s.controller.used ≡ 0
    unused = omega (arith, v.accounts.conserved, none_held, ap total none_granted)

-- When every reservation is closed and none is on its way to a waiter, no memory is in use and
-- nobody waits: no request is left behind and no byte is lost. The limit is assumed to be below
-- 2 ^ 62 bytes and the queue's limit not to be negative.
pub drained :
    (config : Config) (es : List Event)
    → config.memory_max_bytes < limit_bound
    → IsNatural config.queue_max_requests
    → charges (run (start config) es).held ≡ 0
    → (run (start config) es).controller.granted ≡ []
    → ((run (start config) es).controller.used ≡ 0)
      × ((run (start config) es).controller.queue ≡ [])
drained config es h q none_held none_granted =
    nobody_waits (run (start config) es) (run-start-Inv config es h q) none_held none_granted
