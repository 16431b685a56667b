-- ===== src/Program/Scope.antt =====
-- internal/core/program/scope.go: the modules that are open, and what is called of them. Instances and
-- scopes are numbers. What a module's code does is a parameter, which may depend on all that was
-- called before. A call of a module is one step here: what goroutines do that call the same module between
-- the steps of a call is in Program/Calls.antt.
use directive_proxy.Prelude.{
  ℕ, ◌+◌, ◌%◌, ◌==◌, Bool, true, Option, none, some, List, [], ◌∷◌, ◌++◌, if◌then◌else◌, Int64,
  Text,
}
use directive_proxy.Exchange.{FinishCause}
use directive_proxy.Program.{
  Binder, Error, handler_error, panicked_error, finish_error, finish_panicked,
}
use directive_proxy.Program.Lane.{Lane, receive, return_task}

-- A call of a handler that waits in a lane, with the number of the event.
pub record Task : Type 0 where
  pub handler : ℕ
  pub sequence : ℕ

pub record Mounted : Type 0 where
  pub order : ℕ
  pub module_name : Text
  pub binder : Binder
  pub lane : Option (Lane Task)
  pub failed : Bool

pub record Scope : Type 0 where
  pub mounted : List ℕ
  pub closed : Bool
  pub round_trip : Int64

-- What modules and their health see: the calls of handlers and of Finish, and each moduleFailed, from
-- call and from finish.
pub data Event : Type 0 where
  called : (instance_id handler sequence : ℕ) → Event
  module_failed : ℕ → Event
  finish_called : ℕ → FinishCause → Event

-- `next_sequence` is the counter of the run; a closed run gives no more numbers.
pub record World : Type 0 where
  pub instance_at : ℕ → Mounted
  pub scope_at : ℕ → Scope
  pub log : List Event
  pub event_sequence : ℕ
  pub run_closed : Bool

-- A function of a module returns, returns an error, or panics.
pub data Outcome : Type 0 where
  returned : Outcome
  failed_with panicked_with : ℕ → Outcome

-- The code of all modules.
pub record Code : Type 0 where
  pub handle : List Event → (instance_id handler : ℕ) → Outcome
  pub finish : List Event → (instance_id : ℕ) → Outcome

abbrev pub update {ℓ} : {A : Type ℓ} → ℕ → A → (ℕ → A) → ℕ → A
update i x f j = if j == i then x else f j

abbrev pub note : Event → World → World
note e w = record w { log = w.log ++ e ∷ [] }

abbrev pub put : ℕ → Mounted → World → World
put i m w = record w { instance_at = update i m w.instance_at }

-- Run.nextEventSequence; the counter is a uint64.
unfoldable pub next_event_sequence : World → World × ℕ
next_event_sequence w =
    let n = (w.event_sequence + 1) % 18446744073709551616 in
    if w.run_closed then (w, 0) else (record w { event_sequence = n }, n)

unfoldable pub fail : World → ℕ → World
fail w i = note (module_failed i) (put i (record (w.instance_at i) { failed = true }) w)

unfoldable pub settle : World → ℕ → Outcome → World × List Error
unfolding fail
settle w i returned = (w, [])
settle w i (failed_with e) = (fail w i, handler_error e ∷ [])
settle w i (panicked_with e) = (fail w i, panicked_error e ∷ [])

unfoldable pub settle_finish : World → ℕ → Outcome → World × List Error
settle_finish w i returned = (w, [])
settle_finish w i (failed_with e) = (note (module_failed i) w, finish_error e ∷ [])
settle_finish w i (panicked_with e) = (note (module_failed i) w, finish_panicked e ∷ [])

abbrev pub no_errors : List Error
no_errors = []

abbrev pub set_lane : ℕ → Lane Task → World → World
set_lane i l w = put i (record (w.instance_at i) { lane = some l }) w

module _ (code : Code) where
  unfoldable pub call : World → ℕ → Task → World × List Error
  unfolding settle
  call w i t =
      if (w.instance_at i).failed
      then (w, [])
      else settle (note (called i t.handler t.sequence) w) i (code.handle w.log i t.handler)

  unfoldable pub finish : World → ℕ → FinishCause → World × List Error
  unfolding settle_finish
  finish w i cause = settle_finish (note (finish_called i cause) w) i (code.finish w.log i)

  -- The goroutine's body, for the task that it has received.
  unfoldable pub run_task : World → ℕ → Option Task → Lane Task → World × List Error
  unfolding call return_task
  run_task w i none l = (set_lane i l w, [])
  run_task w i (some t) l =
      let (w', es) = call w i t in (set_lane i (return_task es (some t) l) w', es)

  unfoldable pub turn_lane : World → ℕ → Option (Lane Task) → World × List Error
  unfolding run_task receive
  turn_lane w i none = (w, [])
  turn_lane w i (some l) = let l' = receive l in run_task w i l'.running l'

  -- The goroutine of an instance's lane takes a task and runs it.
  unfoldable pub turn : World → ℕ → World × List Error
  unfolding turn_lane
  turn w i = turn_lane w i (w.instance_at i).lane

  unfoldable pub turns : World → List ℕ → World
  unfolding turn
  turns w [] = w
  turns w (i ∷ is) = turns (turn w i).0 is
