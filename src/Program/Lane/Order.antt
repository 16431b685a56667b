-- ===== src/Program/Lane/Order.antt =====
-- internal/core/program/scope.go, orderedLane: what any sequence of its steps does.
use directive_proxy.Prelude.{
  ◌≤◌, ◌≡◌, refl, Bool, true, Option, none, some, Option-cases, List, [], ◌∷◌, ◌++◌, Int64, length,
  length-append, arith, ◌∙◌, ap, inl, inr,
}
use mathlib.Core.List.{append_assoc, append-nil}
use directive_proxy.Program.{Overflow, Error}
use directive_proxy.Program.Lane.{
  Lane, Submitted, accepted, new_ordered_lane, submit, take_next, receive_idle, receive,
  return_task, close_queue,
}

-- What the submitters and the goroutine do, one step at a time.
pub data Step {ℓ} (T : Type ℓ) : Type ℓ where
  submits : Overflow → (done : Bool) → T → Step T
  receives : Step T
  returns : List Error → Step T
  closes : Step T

-- A lane with what was accepted and what has returned, in order.
pub record History {ℓ} (T : Type ℓ) : Type ℓ where
  pub lane : Lane T
  pub accepted_tasks : List T
  pub returned : List (T × List Error)

module _ {ℓ} {T : Type ℓ} where
  unfoldable pub note : Submitted → T → List T → List T
  note accepted t ts = ts ++ t ∷ []
  note _ t ts = ts

  unfoldable pub note_return : List Error → Option T → List (T × List Error) → List (T × List Error)
  note_return es none rs = rs
  note_return es (some t) rs = rs ++ (t, es) ∷ []

  unfoldable pub step : Step T → History T → History T
  unfolding note note_return submit receive return_task close_queue
  step (submits o done t) h =
      let (s, l) = submit o done t h.lane in
      record h { lane = l; accepted_tasks = note s t h.accepted_tasks }
  step receives h = record h { lane = receive h.lane }
  step (returns es) h = record h {
    lane = return_task es h.lane.running h.lane;
    returned = note_return es h.lane.running h.returned;
  }
  step closes h = record h { lane = close_queue h.lane }

  unfoldable pub run : History T → List (Step T) → History T
  unfolding step
  run h [] = h
  run h (s ∷ ss) = run (step s h) ss

  unfoldable pub start : Int64 → History T
  unfolding new_ordered_lane
  start capacity = record { lane = new_ordered_lane capacity; accepted_tasks = []; returned = [] }

  abbrev pub held : Option T → List T
  held none = []
  held (some t) = t ∷ []

  unfoldable pub tasks : List (T × List Error) → List T
  tasks [] = []
  tasks ((t, es) ∷ rs) = t ∷ tasks rs

  unfoldable pub errors : List (T × List Error) → List Error
  errors [] = []
  errors ((t, es) ∷ rs) = es ++ errors rs

  pub tasks-append : (rs qs : List (T × List Error)) → tasks (rs ++ qs) ≡ tasks rs ++ tasks qs
  unfolding tasks
  tasks-append [] qs = refl
  tasks-append ((t, es) ∷ rs) qs = rw (tasks-append rs qs)

  pub errors-append : (rs qs : List (T × List Error)) → errors (rs ++ qs) ≡ errors rs ++ errors qs
  unfolding errors
  errors-append [] qs = refl
  errors-append ((t, es) ∷ rs) qs = rw (errors-append rs qs, append_assoc)

  -- The abstract queue: what was accepted is what has returned, what runs and what waits, in this
  -- order; it is within the capacity; the errors are those of the tasks that have returned; and a
  -- goroutine that has ended has left nothing.
  pub record IsFifo (h : History T) : Type ℓ where
    pub in_order : h.accepted_tasks ≡ tasks h.returned ++ (held h.lane.running ++ h.lane.queue)
    pub within : length h.lane.queue ≤ h.lane.capacity
    pub all_errors : h.lane.err ≡ errors h.returned
    pub nothing_left :
        h.lane.stopped ≡ true
        → (h.lane.queue ≡ []) × (h.lane.running ≡ none) × (h.lane.closed ≡ true)

  start-IsFifo : (capacity : Int64) → IsFifo (start capacity)
  unfolding start new_ordered_lane tasks errors
  start-IsFifo capacity = ground arith

  receive-IsFifo : (h : History T) → IsFifo h → IsFifo (record h { lane = receive h.lane })
  unfolding receive receive_idle take_next
  receive-IsFifo h v = ground arith

  return-IsFifo : (es : List Error) (h : History T) → IsFifo h → IsFifo (step (returns es) h)
  unfolding step return_task note_return tasks errors
  return-IsFifo es h v = elim (Option-cases h.lane.running) [
    | inl idle ↦ ground arith
    | inr (t, busy) ↦
        let ts = tasks h.returned in
        let e : tasks (h.returned ++ (t, es) ∷ []) ≡ ts ++ t ∷ [] = tasks-append h.returned _ in
        let f : errors (h.returned ++ (t, es) ∷ []) ≡ errors h.returned ++ es =
          errors-append h.returned _ ∙ ap (λ zs. errors h.returned ++ zs) (append-nil es) in
        ground (arith, e, f, append_assoc ts (t ∷ []) h.lane.queue)
  ]

  submit-IsFifo :
      (o : Overflow) (done : Bool) (t : T) (h : History T)
      → IsFifo h
      → IsFifo (step (submits o done t) h)
  unfolding step submit note
  submit-IsFifo o done t h v = ground (
    arith,
    length-append h.lane.queue (t ∷ []),
    append_assoc (tasks h.returned) (held h.lane.running ++ h.lane.queue) (t ∷ []),
    append_assoc (held h.lane.running) h.lane.queue (t ∷ []),
  )

  step-IsFifo : (s : Step T) (h : History T) → IsFifo h → IsFifo (step s h)
  unfolding step
  step-IsFifo (submits o done t) h v = submit-IsFifo o done t h v
  step-IsFifo receives h v = receive-IsFifo h v
  step-IsFifo (returns es) h v = return-IsFifo es h v
  step-IsFifo closes h v = close-IsFifo h v
    where
      close-IsFifo : (h : History T) → IsFifo h → IsFifo (step closes h)
      close-IsFifo h v = ground arith

  run-IsFifo : (ss : List (Step T)) (h : History T) → IsFifo h → IsFifo (run h ss)
  unfolding run
  run-IsFifo [] h v = v
  run-IsFifo (s ∷ ss) h v = run-IsFifo ss (step s h) (step-IsFifo s h v)

  -- After any sequence of submissions, receptions, returns of tasks and closings, in any order, the lane
  -- is a bounded queue: the tasks it has accepted are those that have returned, the one that runs and those
  -- that wait, in the order of their acceptance, none lost and none twice; no more wait than the
  -- capacity; its error joins the errors of the tasks that have returned, in their order; and when
  -- its goroutine has ended the lane is closed and nothing runs or waits.
  pub run-start-IsFifo : (capacity : Int64) (ss : List (Step T)) → IsFifo (run (start capacity) ss)
  run-start-IsFifo capacity ss = run-IsFifo ss (start capacity) (start-IsFifo capacity)
