-- ===== src/Program/Sets/Finishing.antt =====
-- internal/core/program/scope.go, Scope.Finish: which modules are finished.
use directive_proxy.Prelude.{
  ℕ, ◌≡◌, refl, sym, ◌∙◌, ap, true, false, Option, none, some, List, [], ◌∷◌, ◌++◌, if_cases,
}
use mathlib.Core.List.{append_assoc, append-nil}
use directive_proxy.Exchange.{FinishCause}
use directive_proxy.Program.{Error}
use directive_proxy.Program.Lane.{Lane, receive, close_queue}
use directive_proxy.Program.Scope.{
  Task, World, Code, Outcome, returned, failed_with, panicked_with, Event, called, module_failed,
  finish_called, note, update, set_lane, fail, settle, settle_finish, call, finish, run_task,
  turn_lane, turn, turns, next_event_sequence,
}
use directive_proxy.Program.Sets.{
  set_scope, repeat, close_lane, finish_mounted, finish_all, finish_scope,
}

-- The instances whose Finish was called, in order.
unfoldable pub finished : List Event → List ℕ
finished [] = []
finished (called i h n ∷ es) = finished es
finished (module_failed i ∷ es) = finished es
finished (finish_called i c ∷ es) = i ∷ finished es

finished-snoc :
    (es : List Event) (e : Event) → finished (es ++ e ∷ []) ≡ finished es ++ finished (e ∷ [])
unfolding finished
finished-snoc [] e = refl
finished-snoc (called i h n ∷ es) e = finished-snoc es e
finished-snoc (module_failed i ∷ es) e = finished-snoc es e
finished-snoc (finish_called i c ∷ es) e = ap (λ is. i ∷ is) (finished-snoc es e)

-- A step that finishes the instances of the list and leaves the scopes.
pub record Finishes (is : List ℕ) (w w' : World) : Type 0 where
  pub told : finished w'.log ≡ finished w.log ++ is
  pub scopes : w'.scope_at ≡ w.scope_at

-- No instance is finished.
pub nothing :
    (w w' : World) → finished w'.log ≡ finished w.log → w'.scope_at ≡ w.scope_at → Finishes [] w w'
nothing w w' e f = record { told = e ∙ sym (append-nil _); scopes = f }

pub Finishes-trans :
    (is js : List ℕ) {w w' w'' : World}
    → Finishes is w w'
    → Finishes js w' w''
    → Finishes (is ++ js) w w''
Finishes-trans is js {w} f g = record {
  told = g.told ∙ rw f.told (append_assoc (finished w.log) is js);
  scopes = g.scopes ∙ f.scopes;
}

note-Finishes : (e : Event) (w : World) → Finishes (finished (e ∷ [])) w (note e w)
note-Finishes e w = record { told = finished-snoc w.log e; scopes = refl }

pub settle-Finishes : (w : World) (i : ℕ) (o : Outcome) → Finishes [] w (settle w i o).0
unfolding settle fail finished
settle-Finishes w i returned = nothing w w refl refl
settle-Finishes w i (failed_with e) =
    nothing w _ (finished-snoc w.log (module_failed i) ∙ append-nil _) refl
settle-Finishes w i (panicked_with e) =
    nothing w _ (finished-snoc w.log (module_failed i) ∙ append-nil _) refl

settle_finish-Finishes : (w : World) (i : ℕ) (o : Outcome) → Finishes [] w (settle_finish w i o).0
unfolding settle_finish finished
settle_finish-Finishes w i returned = nothing w w refl refl
settle_finish-Finishes w i (failed_with e) =
    nothing w _ (finished-snoc w.log (module_failed i) ∙ append-nil _) refl
settle_finish-Finishes w i (panicked_with e) =
    nothing w _ (finished-snoc w.log (module_failed i) ∙ append-nil _) refl

sequence-Finishes : (w : World) → Finishes [] w (next_event_sequence w).0
unfolding next_event_sequence
sequence-Finishes w =
    if_cases (λ (x : World × ℕ). Finishes [] w x.0) w.run_closed (λ _. nothing w w refl refl)
      (λ _. nothing w _ refl refl)

pub set_lane-Finishes : (i : ℕ) (l : Lane Task) (w : World) → Finishes [] w (set_lane i l w)
set_lane-Finishes i l w = nothing w _ refl refl

close_lane-Finishes :
    (w : World) (i : ℕ) (l : Option (Lane Task)) → Finishes [] w (close_lane w i l)
unfolding close_lane
close_lane-Finishes w i none = nothing w w refl refl
close_lane-Finishes w i (some l) = set_lane-Finishes i (close_queue l) w

module _ (code : Code) where
  call-Finishes : (w : World) (i : ℕ) (t : Task) → Finishes [] w (call code w i t).0
  unfolding call finished
  call-Finishes w i t =
      let c = called i t.handler t.sequence in
      if_cases (λ (x : World × List Error). Finishes [] w x.0) (w.instance_at i).failed
        (λ _. nothing w w refl refl)
        (λ _. Finishes-trans [] [] (note-Finishes c w) (settle-Finishes (note c w) i _))

  run_task-Finishes :
      (w : World) (i : ℕ) (t : Option Task) (l : Lane Task)
      → Finishes [] w (run_task code w i t l).0
  unfolding run_task
  run_task-Finishes w i none l = set_lane-Finishes i l w
  run_task-Finishes w i (some t) l =
      Finishes-trans [] [] (call-Finishes w i t) (set_lane-Finishes i _ (call code w i t).0)

  turn_lane-Finishes :
      (w : World) (i : ℕ) (l : Option (Lane Task)) → Finishes [] w (turn_lane code w i l).0
  unfolding turn_lane
  turn_lane-Finishes w i none = nothing w w refl refl
  turn_lane-Finishes w i (some l) = run_task-Finishes w i (receive l).running (receive l)

  turns-Finishes : (is : List ℕ) (w : World) → Finishes [] w (turns code w is)
  unfolding turns turn
  turns-Finishes [] w = nothing w w refl refl
  turns-Finishes (i ∷ is) w =
      Finishes-trans [] [] (turn_lane-Finishes w i (w.instance_at i).lane)
        (turns-Finishes is (turn code w i).0)

  finish_mounted-Finishes :
      (w : World) (left : ℕ → ℕ) (c : FinishCause) (i : ℕ)
      → Finishes (i ∷ []) w (finish_mounted code w left c i).0
  unfolding finish_mounted finish finished
  finish_mounted-Finishes w left c i =
      let w1 = close_lane w i (w.instance_at i).lane in
      let w2 = turns code w1 (repeat (left i) i) in
      let w3 = (next_event_sequence w2).0 in
      let w4 = note (finish_called i c) w3 in
      Finishes-trans [] (i ∷ []) (close_lane-Finishes w i (w.instance_at i).lane) (
        Finishes-trans [] (i ∷ []) (turns-Finishes (repeat (left i) i) w1) (
          Finishes-trans [] (i ∷ []) (sequence-Finishes w2) (
            Finishes-trans (i ∷ []) [] (note-Finishes (finish_called i c) w3)
              (settle_finish-Finishes w4 i _))))

  finish_all-Finishes :
      (left : ℕ → ℕ) (c : FinishCause) (is : List ℕ) (w : World)
      → Finishes is w (finish_all code w left c is).0
  unfolding finish_all
  finish_all-Finishes left c [] w = nothing w w refl refl
  finish_all-Finishes left c (i ∷ is) w =
      Finishes-trans (i ∷ []) is (finish_mounted-Finishes w left c i)
        (finish_all-Finishes left c is (finish_mounted code w left c i).0)

  -- Finish of an open scope closes it and calls Finish of each of its modules, once and in order.
  pub finish_scope_lem :
      (w : World) (left : ℕ → ℕ) (c : FinishCause) (s : ℕ)
      → (w.scope_at s).closed ≡ false
      → let w' = (finish_scope code w left c s).0 in
        (finished w'.log ≡ finished w.log ++ (w.scope_at s).mounted)
        × (w'.scope_at ≡ update s (record (w.scope_at s) { closed = true }) w.scope_at)
  unfolding finish_scope set_scope
  finish_scope_lem w left c s e =
      let x = w.scope_at s in
      let w1 = set_scope s (record x { closed = true }) w in
      let f = finish_all-Finishes left c x.mounted w1 in rw e (f.told, f.scopes)
