-- ===== src/BodyStore/Admission/Accounts.antt =====
-- internal/core/bodystore/controller.go: the memory in use is what the open reservations and the
-- granted waiters account for, it stays within the limit, and the first waiter never fits. Kept by
-- release and by the part of admit that does not wait.
use native.Mathlib.Nat.{add-zero}
use directive_proxy.Prelude.{
  ℕ, ◌+◌, ◌≤◌, ◌<◌, ◌==◌, ◌≡◌, refl, sym, ap, ◌∙◌, Bool, true, false, not, ◌||◌, List, [], ◌∷◌,
  ◌++◌, arith, All, All-append, length, length-append, if◌then◌else◌, IsInt64, sle, IsNatural,
  Bool-cases, inl, inr,
}
use directive_proxy.BodyStore.Admission.{
  Error, Waiter, Reservation, Controller, Admission, refused, admitted, queued, Dispatched,
  dispatch_loop, dispatch_locked, release, body_too_large, reserve_size, normalize_chunk_bytes,
  close_reservation, admit, admit_body,
}
use directive_proxy.BodyStore.Admission.Dispatch.{
  total, total-append, Fits, Blocked, limit_bound, Dispatches, dispatch_loop-Dispatches,
}

-- `n` is the size of the reservations that callers hold open.
pub record Accounts (n : ℕ) (c : Controller) : Type 0 where
  pub small : c.memory_max_bytes < limit_bound
  pub queue_small : IsNatural c.queue_max_requests
  pub conserved : c.used ≡ n + total c.granted
  pub within : c.used ≤ c.memory_max_bytes
  pub fits : All (Fits c.memory_max_bytes) c.queue
  pub bounded : length c.queue ≤ c.queue_max_requests

pub record Inv (n : ℕ) (c : Controller) : Type 0 where
  pub accounts : Accounts n c
  pub blocked : Blocked c.memory_max_bytes c.used c.queue

pub dispatch_locked-Inv : {n : ℕ} {c : Controller} → Accounts n c → Inv n (dispatch_locked c)
unfolding dispatch_locked
dispatch_locked-Inv {n} {c} a = record {
  accounts = record {
    small = a.small;
    queue_small = a.queue_small;
    conserved = omega (arith, d.charged, total-append c.granted loop.woken, a.conserved);
    within = d.within;
    fits = d.fits;
    bounded = omega (arith, length-waiting, a.bounded);
  };
  blocked = d.blocked;
}
  where
    loop : Dispatched
    loop = dispatch_loop c.memory_max_bytes c.used c.queue

    d : Dispatches c.memory_max_bytes c.used c.queue loop
    d = dispatch_loop-Dispatches c.memory_max_bytes c.used c.queue a.small a.within a.fits

    length-waiting : length loop.woken + length loop.waiting ≡ length c.queue
    length-waiting = sym (length-append loop.woken loop.waiting) ∙ ap length d.in_order

release-Inv : {n : ℕ} {c : Controller} (size : ℕ) → Accounts (n + size) c → Inv n (release c size)
unfolding release
release-Inv {n} {c} size a = dispatch_locked-Inv (ground arith)

unfoldable pub charge : Reservation → ℕ
charge r = if not r.attached || r.size == 0 || r.closed then 0 else r.size

pub close_reservation-Inv :
    {n : ℕ} {c : Controller} (r : Reservation)
    → Inv (n + charge r) c
    → Inv n (close_reservation c r).0 × (charge (close_reservation c r).1 ≡ 0)
unfolding close_reservation charge
close_reservation-Inv {n} {c} r v = elim (Bool-cases (not r.attached || r.size == 0 || r.closed)) [
  | inl idle ↦
      rw idle (let e : n + charge r ≡ n = rw (idle, charge) (omega arith) in (rw e at v, rw idle))
  | inr open_ ↦ rw open_ (release-Inv r.size (rw (open_, charge) at v.accounts), ground arith)
]

-- A waiter that joins behind a blocked one, or that does not fit itself, leaves the queue blocked.
Blocked-append :
    (limit used : ℕ) (queue : List Waiter) (w : Waiter)
    → Blocked limit used queue
    → (length queue ≡ 0 → limit < used + w.size)
    → Blocked limit used (queue ++ w ∷ [])
Blocked-append limit used [] w b h = h refl
Blocked-append limit used (x ∷ queue) w b h = b

-- What a result of `admit` charges to its caller.
abbrev pub charge_of : Admission → ℕ
charge_of (admitted r) = charge r
charge_of (refused e) = 0
charge_of (queued w) = 0

-- A result accounts for what its caller now holds.
abbrev pub Keeps : ℕ → Controller × Admission → Type 0
Keeps n (c, a) = Inv (n + charge_of a) c

admit-Inv :
    {n : ℕ} {c : Controller} (id size : ℕ) → IsInt64 size → Inv n c → Keeps n (admit c id size)
unfolding admit charge
admit-Inv {n} {c} id size hs v = ground (
  arith,
  length-append c.queue (record { id = id; size = size } ∷ []),
  Blocked-append c.memory_max_bytes c.used c.queue (record { id = id; size = size }),
  All-append (Fits c.memory_max_bytes) c.queue (record { id = id; size = size } ∷ [])
      v.accounts.fits,
)

refuse-Keeps : {n : ℕ} {c : Controller} (e : Error) → Inv n c → Keeps n (c, refused e)
refuse-Keeps e v = rw add-zero v

guard-Keeps :
    {n : ℕ} {c : Controller} (b : Bool) (e : Error) (x : Controller × Admission)
    → Inv n c
    → Keeps n x
    → Keeps n (if b then (c, refused e) else x)
guard-Keeps true e x v k = refuse-Keeps e v
guard-Keeps false e x v k = k

reserve_size-IsInt64 : (expected max chunk : ℕ) → IsInt64 (reserve_size expected max chunk)
unfolding reserve_size
reserve_size-IsInt64 expected max chunk = ground arith

pub admit_body-Inv :
    {n : ℕ} {c : Controller} (id expected max_body chunk : ℕ)
    → Inv n c
    → Keeps n (admit_body c id expected max_body chunk)
unfolding admit_body
admit_body-Inv {n} {c} id expected max_body chunk v = guard-Keeps _ body_too_large _ v (
    guard-Keeps _ body_too_large _ v (
      admit-Inv id
        (reserve_size expected (if sle max_body 0 then c.max_body_bytes else max_body)
          (normalize_chunk_bytes chunk c.chunk_bytes))
        (reserve_size-IsInt64 _ _ _) v))
