-- ===== src/BodyStore/Admission/Waiting.antt =====
-- internal/core/bodystore/controller.go: the accounts are kept by both branches of the select in
-- admit, by which a waiter leaves.
use native.Mathlib.Nat.{add-zero}
use directive_proxy.Prelude.{
  ℕ, ◌+◌, ◌≤◌, ◌≡◌, Option-cases, Option, none, some, List, [], ◌∷◌, arith, All, length, inl, inr,
}
use directive_proxy.BodyStore.Admission.{
  ContextError, canceled, deadline_exceeded, Waiter, Controller, dispatch_locked, find, remove,
  reservation_of, record_admission_wait, record_admission_failure, after_receive, close_reservation,
  admit_ready, admit_done,
}
use directive_proxy.BodyStore.Admission.Dispatch.{total, Fits}
use directive_proxy.BodyStore.Admission.Accounts.{
  Inv, Keeps, charge, close_reservation-Inv, dispatch_locked-Inv,
}

total-remove :
    (id : ℕ) (ws : List Waiter) {g : Waiter}
    → find id ws ≡ some g
    → total ws ≡ g.size + total (remove id ws)
unfolding find remove
total-remove id [] {g} e = cc
total-remove id (w ∷ ws) {g} e = ground (arith, total-remove id ws {g = g})

remove-Fits :
    (limit id : ℕ) (ws : List Waiter) → All (Fits limit) ws → All (Fits limit) (remove id ws)
unfolding remove
remove-Fits limit id [] h = tt
remove-Fits limit id (w ∷ ws) h = ground (arith, remove-Fits limit id ws h.1)

length-remove-le : (id : ℕ) (ws : List Waiter) → length (remove id ws) ≤ length ws
unfolding remove
length-remove-le id [] = omega arith
length-remove-le id (w ∷ ws) = ground (arith, length-remove-le id ws)

-- A granted waiter's reservation leaves the channel and is open.
received-Inv :
    {n : ℕ} {c : Controller} (id : ℕ) (g : Waiter)
    → find id c.granted ≡ some g
    → Inv n c
    → Inv (n + g.size) (record c { granted = remove id c.granted })
received-Inv {n} {c} id g e v = ground (arith, total-remove id c.granted {g = g} e)

charge-reservation_of : (g : Waiter) → charge (reservation_of g) ≡ g.size
unfolding charge
charge-reservation_of g = ground arith

record_admission_wait-Inv :
    {n : ℕ} {c : Controller} (waited : ℕ) → Inv n c → Inv n (record_admission_wait c waited)
unfolding record_admission_wait
record_admission_wait-Inv waited v = ground arith

record_admission_failure-Inv :
    {n : ℕ} {c : Controller} (wait_err : ContextError) (parent_err : Option ContextError)
    → Inv n c
    → Inv n (record_admission_failure c wait_err parent_err)
unfolding record_admission_failure
record_admission_failure-Inv wait_err (some e) v = ground arith
record_admission_failure-Inv canceled none v = ground arith
record_admission_failure-Inv deadline_exceeded none v = ground arith

-- Closing the reservation that a granted waiter received.
closed-Inv :
    {n : ℕ} {c : Controller} (g : Waiter)
    → Inv (n + g.size) c
    → Inv n (close_reservation c (reservation_of g)).0
closed-Inv {n} {c} g v =
    (close_reservation-Inv {n = n} {c = c} (reservation_of g) (rw charge-reservation_of v)).0

after_receive-Keeps :
    (n : ℕ) {c : Controller} (g : Waiter) (wait_err parent_err : Option ContextError)
    → Inv (n + g.size) c
    → Keeps n (after_receive c g wait_err parent_err)
unfolding after_receive
after_receive-Keeps n g none parent_err v = rw charge-reservation_of (ground arith)
after_receive-Keeps n g (some e) parent_err v =
    rw add-zero (record_admission_failure-Inv e parent_err (closed-Inv g v))

unqueued-Inv :
    {n : ℕ} {c : Controller} (id : ℕ)
    → Inv n c
    → Inv n (dispatch_locked (record c { queue = remove id c.queue }))
unqueued-Inv {n} {c} id v = dispatch_locked-Inv (record {
  small = v.accounts.small;
  queue_small = v.accounts.queue_small;
  conserved = v.accounts.conserved;
  within = v.accounts.within;
  fits = remove-Fits c.memory_max_bytes id c.queue v.accounts.fits;
  bounded = omega (arith, length-remove-le id c.queue, v.accounts.bounded);
})

pub admit_ready-Inv :
    {n : ℕ} {c : Controller} (w : Waiter) (waited : ℕ) (wait_err parent_err : Option ContextError)
    → Inv n c
    → Keeps n (admit_ready c w waited wait_err parent_err)
unfolding admit_ready
admit_ready-Inv {n} {c} w waited wait_err parent_err v = elim (Option-cases (find w.id c.granted)) [
  | inl e ↦ rw (e, admit_ready) (rw add-zero v)
  | inr (g, e) ↦
      rw (e, admit_ready)
        (after_receive-Keeps n g wait_err parent_err
          (record_admission_wait-Inv waited (received-Inv w.id g e v)))
]

pub admit_done-Inv :
    {n : ℕ} {c : Controller} (w : Waiter) (waited : ℕ) (wait_err : ContextError)
    (parent_err : Option ContextError)
    → Inv n c
    → Keeps n (admit_done c w waited wait_err parent_err)
unfolding admit_done
admit_done-Inv {n} {c} w waited wait_err parent_err v = rw add-zero (
    record_admission_failure-Inv wait_err parent_err (
      record_admission_wait-Inv waited (elim (Option-cases (find w.id c.granted)) [
        | inl e ↦ rw e (unqueued-Inv w.id v)
        | inr (g, e) ↦ rw e (closed-Inv g (received-Inv w.id g e v))
      ])))
