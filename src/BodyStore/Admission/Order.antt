-- ===== src/BodyStore/Admission/Order.antt =====
-- internal/core/bodystore/controller.go: who is served, and when.
use directive_proxy.Prelude.{
  ℕ, ◌+◌, ◌≤◌, ◌<◌, ◌==◌, ◌≡◌, ◌⊎◌, inl, inr, true, false, not, ◌||◌, [], ◌∷◌, ◌++◌, arith, length,
  length-append, IsInt64, int64_min, Bool-cases,
}
use directive_proxy.BodyStore.Admission.{
  store_capacity, queue_full, body_too_large, Reservation, Controller, Admission, refused, admitted,
  queued, admit, close_reservation,
}
use directive_proxy.BodyStore.Admission.Accounts.{Inv}

-- What `admit` does, by its result. A positive size is admitted only past an empty queue.
abbrev pub Serves : Controller → ℕ → Controller × Admission → Type 0
Serves c size (c', admitted r) =
    ((size ≡ 0) × (r.attached ≡ false) × (c' ≡ c))
    ⊎ ((c.queue ≡ [])
        × (r.attached ≡ true)
        × (r.size ≡ size)
        × (c'.used ≡ c.used + size)
        × (c.used + size ≤ c.memory_max_bytes)
        × (c'.queue ≡ []))
Serves c size (c', queued w) =
    (w.size ≡ size)
    × (c'.queue ≡ c.queue ++ w ∷ [])
    × (c'.used ≡ c.used)
    × (length c'.queue ≤ c.queue_max_requests)
    × ((0 < length c.queue) ⊎ (c.memory_max_bytes < c.used + size))
Serves c size (c', refused e) =
    (c'.queue ≡ c.queue)
    × (c'.used ≡ c.used)
    × (((e ≡ body_too_large) × (int64_min ≤ size))
        ⊎ ((e ≡ store_capacity) × (c.memory_max_bytes < size))
        ⊎ ((e ≡ queue_full) × (c.queue_max_requests ≤ length c.queue)))

-- From a controller whose accounts are right, and for every int64 size: a request is admitted at
-- once only if it has no size, or the queue is empty, it fits into the memory beside what is in use,
-- and the memory in use grows by its size; it is
-- queued behind all others, within the queue's limit, only if somebody waits already or it does
-- not fit; and it is refused, with queue and memory unchanged, only for a negative size, for one
-- above the memory limit, or by a full queue, with the error for each.
pub admit-Serves :
    {n : ℕ} {c : Controller} (id size : ℕ)
    → IsInt64 size
    → Inv n c
    → Serves c size (admit c id size)
unfolding admit
admit-Serves {n} {c} id size small v =
    ground (arith, length-append c.queue (record { id = id; size = size } ∷ []))

-- A second Close of a reservation, on whatever controller state, changes neither the controller
-- nor the reservation.
pub close_reservation_idem :
    (c d : Controller) (r : Reservation)
    → let r' = (close_reservation c r).1 in close_reservation d r' ≡ (d, r')
unfolding close_reservation
close_reservation_idem c d r = elim (Bool-cases (not r.attached || r.size == 0 || r.closed)) [
  | inl idle ↦ rw idle (rw idle)
  | inr live ↦ rw live (closed_twice r)
]
  where
    closed_twice :
        (r : Reservation)
        → close_reservation d (record r { closed = true }) ≡ (d, record r { closed = true })
    closed_twice r = ground arith
