-- ===== src/Program/Lane.antt =====
-- internal/core/program/scope.go, orderedLane: a bounded channel of tasks and the goroutine that
-- runs them one by one.
pub mod Order
use directive_proxy.Prelude.{
  ℕ, ◌+◌, Bool, true, false, ◌&&◌, ◌||◌, not, Option, none, some, List, [], ◌∷◌, ◌++◌, ltb, sle,
  if◌then◌else◌, Int64, length, arith,
}
use directive_proxy.Program.{
  Overflow, overflow_drop, overflow_fail_request, Error, lane_full, context_done,
}

-- `running` is the task that the goroutine has taken from the queue, `stopped` that `done` is
-- closed.
pub record Lane {ℓ} (T : Type ℓ) : Type ℓ where
  pub queue : List T
  pub capacity : ℕ
  pub closed : Bool
  pub running : Option T
  pub stopped : Bool
  pub err : List Error

-- What a submission comes to; a send on a closed channel panics.
pub data Submitted : Type 0 where
  accepted dropped : Submitted
  refused : Error → Submitted
  send_panics : Submitted

module _ {ℓ} {T : Type ℓ} where
  unfoldable pub new_ordered_lane : Int64 → Lane T
  new_ordered_lane capacity = record {
    queue = [];
    capacity = if sle capacity 0 then 128 else capacity;
    closed = false;
    running = none;
    stopped = false;
    err = [];
  }

  abbrev pub has_room : Lane T → Bool
  has_room l = ltb (length l.queue) l.capacity

  abbrev send : T → Lane T → Submitted × Lane T
  send t l = (accepted, record l { queue = l.queue ++ t ∷ [] })

  -- The select of submit, with what the context answers (`done`) where it is asked. Without room
  -- the blocking send ends by the context alone.
  unfoldable pub submit : Overflow → (done : Bool) → T → Lane T → Submitted × Lane T
  submit overflow_drop done t l =
      if l.closed then (send_panics, l) else if has_room l then send t l else (dropped, l)
  submit overflow_fail_request done t l =
      if l.closed then (send_panics, l) else if has_room l then send t l else (refused lane_full, l)
  submit _ done t l =
      if l.closed
      then (send_panics, l)
      else if not done && has_room l
      then send t l
      else (refused context_done, l)

  -- The goroutine receives the next task.
  unfoldable pub take_next : List T → Lane T → Lane T
  take_next [] l = record l { stopped = l.closed }
  take_next (t ∷ ts) l = record l { queue = ts; running = some t }

  unfoldable pub receive_idle : Option T → Lane T → Lane T
  unfolding take_next
  receive_idle (some t) l = l
  receive_idle none l = take_next l.queue l

  unfoldable pub receive : Lane T → Lane T
  unfolding receive_idle
  receive l = if l.stopped then l else receive_idle l.running l

  -- The task that runs returns.
  unfoldable pub return_task : List Error → Option T → Lane T → Lane T
  return_task es none l = l
  return_task es (some t) l = record l { running = none; err = l.err ++ es }

  unfoldable pub close_queue : Lane T → Lane T
  close_queue l = record l { closed = true }

  -- The select of close, where the context is done or the goroutine has ended; `none` waits on.
  unfoldable pub close_result : (done : Bool) → Lane T → Option (List Error)
  close_result done l =
      if done then some (context_done ∷ []) else if l.stopped then some l.err else none
