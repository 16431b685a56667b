-- ===== src/BodyStore/Admission/Dispatch.antt =====
-- internal/core/bodystore/controller.go, dispatchLocked: what one run of its loop does to the
-- memory in use and to the queue.
use directive_proxy.Prelude.{
  ℕ, ◌+◌, ◌≤◌, ◌<◌, ◌≡◌, refl, ap, List, [], ◌∷◌, ◌++◌, arith, All, Bool-cases, inl, inr, add64,
  slt, slt→lt, slt→le,
}
use directive_proxy.BodyStore.Admission.{Waiter, Dispatched, dispatch_loop}

abbrev pub total : List Waiter → ℕ
total [] = 0
total (w ∷ ws) = w.size + total ws

pub total-append : (xs ys : List Waiter) → total (xs ++ ys) ≡ total xs + total ys
total-append [] ys = omega arith
total-append (x ∷ xs) ys = omega (arith, total-append xs ys)

-- A waiter's request is positive and could be met by an empty store.
abbrev pub Fits : ℕ → Waiter → Type 0
Fits limit w = (0 < w.size) × (w.size ≤ limit)

-- The first waiter cannot be served.
abbrev pub Blocked : ℕ → ℕ → List Waiter → Type 0
Blocked limit used [] = Unit
Blocked limit used (w ∷ queue) = limit < used + w.size

-- The largest budget at which two sizes within it have a sum in the int64 range.
abbrev pub limit_bound : ℕ
limit_bound = 4611686018427387904

pub record Dispatches (limit used : ℕ) (queue : List Waiter) (d : Dispatched) : Type 0 where
  pub in_order : d.woken ++ d.waiting ≡ queue
  pub charged : d.used ≡ used + total d.woken
  pub within : d.used ≤ limit
  pub blocked : Blocked limit d.used d.waiting
  pub fits : All (Fits limit) d.waiting

-- For a limit below 2 ^ 62, memory within it and waiters that each fit the empty store,
-- dispatchLocked wakes the longest prefix of the queue that fits: the woken and the waiting
-- together are the queue in its order, the memory grows by exactly the sizes of the woken and
-- stays within the limit, and the first who still waits does not fit.
pub dispatch_loop-Dispatches :
    (limit used : ℕ) (queue : List Waiter)
    → limit < limit_bound
    → used ≤ limit
    → All (Fits limit) queue
    → Dispatches limit used queue (dispatch_loop limit used queue)
unfolding dispatch_loop
dispatch_loop-Dispatches limit used [] hl hu hq = record {
  in_order = refl;
  charged = omega arith;
  within = hu;
  blocked = tt;
  fits = tt;
}
dispatch_loop-Dispatches limit used (w ∷ queue) hl hu hq =
    elim (Bool-cases (slt limit (add64 used w.size))) [
      | inl full ↦ rw full (record {
        in_order = refl;
        charged = omega arith;
        within = hu;
        blocked = omega (arith, slt→lt limit (add64 used w.size) (omega arith) (omega arith) full);
        fits = hq;
      })
      | inr room ↦ rw room (
          let e : add64 used w.size ≡ used + w.size = omega arith in
          let below = slt→le limit (add64 used w.size) (omega arith) (omega arith) room in
          let rest =
            dispatch_loop-Dispatches limit (add64 used w.size) queue hl (omega arith) hq.1 in
          record {
            in_order = ap (◌∷◌ w) rest.in_order;
            charged = omega (arith, rest.charged);
            within = rest.within;
            blocked = rest.blocked;
            fits = rest.fits;
          })
    ]
