-- ===== src/Program/Calls/Alone.antt =====
-- internal/core/program/scope.go, mountedInstance.call: a call whose steps nothing interrupts.
use directive_proxy.Prelude.{ℕ, ◌≡◌, sym, Bool, true, List, [], ◌∷◌, ◌++◌}
use mathlib.Core.List.{append-nil}
use directive_proxy.Program.Scope.{World, Task, Outcome, Event, called, module_failed}
use directive_proxy.Program.Calls.{
  Instance, outside, Mark, tells, ran, loads_flag, runs_handler, stores_flag, tells_health, moves,
}

-- The steps of one call, by goroutine 0, whose handler gives o.
abbrev pub steps_of_call : Outcome → Bool → Instance
steps_of_call o failed =
    moves (record { failed = failed; stage = λ h. outside; marks = [] })
      (loads_flag 0 ∷ runs_handler 0 o ∷ stores_flag 0 ∷ tells_health 0 ∷ [])

-- What the log of the world shows of the steps.
unfoldable pub seen : ℕ → Task → List Mark → List Event
seen i t [] = []
seen i t (ran g o ∷ ks) = called i t.handler t.sequence ∷ seen i t ks
seen i t (tells g ∷ ks) = module_failed i ∷ seen i t ks
seen i t (_ ∷ ks) = seen i t ks

-- The world w' after the steps m, from w.
abbrev pub Shows : World → ℕ → Task → Instance → World → Type 0
Shows w i t m w' = ((w'.instance_at i).failed ≡ m.failed) × (w'.log ≡ w.log ++ seen i t m.marks)

turned :
    (w : World) (i : ℕ) (t : Task) (o : Outcome)
    → (w.instance_at i).failed ≡ true
    → Shows w i t (steps_of_call o true) w
unfolding moves seen
turned w i t o h = (h, sym (append-nil w.log))
