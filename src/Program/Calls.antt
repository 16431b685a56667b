-- ===== src/Program/Calls.antt =====
-- internal/core/program/scope.go, mountedInstance.call and mountedInstance.finish: the goroutines that
-- call one module, the caller's and its lane's, each step on its own. A goroutine is a number. A step that
-- its goroutine's stage does not allow changes nothing. What the module's functions return is an
-- argument of the step, so that all results are covered.
pub mod Failures
pub mod Alone
use directive_proxy.Prelude.{ℕ, ◌+◌, ◌==◌, Bool, true, false, List, [], ◌∷◌, ◌++◌, if◌then◌else◌}
use directive_proxy.Program.Scope.{Outcome, returned, failed_with, panicked_with, update}

-- Where a goroutine is: outside; between failed.Load and run; with an error of run, before
-- failed.Store; after it, before moduleFailed; in Finish; with an error of Finish, before moduleFailed.
pub data Stage : Type 0 where
  outside let_through handler_failed flag_stored in_finish finish_raised : Stage

pub data Mark : Type 0 where
  turned_away passes stores tells enters_finish : ℕ → Mark
  ran finish_ran : ℕ → Outcome → Mark

pub record Instance : Type 0 where
  pub failed : Bool
  pub stage : ℕ → Stage
  pub marks : List Mark

pub data Move : Type 0 where
  loads_flag stores_flag tells_health begins_finish : ℕ → Move
  runs_handler ends_finish : ℕ → Outcome → Move

abbrev pub to : Instance → ℕ → Stage → Mark → Instance
to m g s k = record m { stage = update g s m.stage; marks = m.marks ++ k ∷ [] }

abbrev pub after_run : Outcome → Stage
after_run returned = outside
after_run (failed_with e) = handler_failed
after_run (panicked_with e) = handler_failed

abbrev pub after_finish : Outcome → Stage
after_finish returned = outside
after_finish (failed_with e) = finish_raised
after_finish (panicked_with e) = finish_raised

-- The steps of call.
unfoldable pub load_flag : Instance → ℕ → Stage → Instance
load_flag m g outside =
    if m.failed then to m g outside (turned_away g) else to m g let_through (passes g)
load_flag m g _ = m

unfoldable pub run_handler : Instance → ℕ → Outcome → Stage → Instance
run_handler m g o let_through = to m g (after_run o) (ran g o)
run_handler m g o _ = m

unfoldable pub store_flag : Instance → ℕ → Stage → Instance
store_flag m g handler_failed = to (record m { failed = true }) g flag_stored (stores g)
store_flag m g _ = m

-- runtime.moduleFailed, of call and of finish.
unfoldable pub tell_health : Instance → ℕ → Stage → Instance
tell_health m g flag_stored = to m g outside (tells g)
tell_health m g finish_raised = to m g outside (tells g)
tell_health m g _ = m

-- The steps of finish, which does not look at the flag, nor store it.
unfoldable pub begin_finish : Instance → ℕ → Stage → Instance
begin_finish m g outside = to m g in_finish (enters_finish g)
begin_finish m g _ = m

unfoldable pub end_finish : Instance → ℕ → Outcome → Stage → Instance
end_finish m g o in_finish = to m g (after_finish o) (finish_ran g o)
end_finish m g o _ = m

unfoldable pub move : Instance → Move → Instance
unfolding load_flag run_handler store_flag tell_health begin_finish end_finish
move m (loads_flag g) = load_flag m g (m.stage g)
move m (runs_handler g o) = run_handler m g o (m.stage g)
move m (stores_flag g) = store_flag m g (m.stage g)
move m (tells_health g) = tell_health m g (m.stage g)
move m (begins_finish g) = begin_finish m g (m.stage g)
move m (ends_finish g o) = end_finish m g o (m.stage g)

unfoldable pub moves : Instance → List Move → Instance
unfolding move
moves m [] = m
moves m (x ∷ xs) = moves (move m x) xs

-- An instance that mountScope has made.
abbrev pub new_instance : Instance
new_instance = record { failed = false; stage = λ g. outside; marks = [] }
