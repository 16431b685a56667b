-- ===== src/Program/Dispatch.antt =====
-- internal/core/program/scope.go, dispatchAtWithID and mutate: the handlers of an event, in the
-- order of the directive.
pub mod InOrder
pub mod Mutations
use directive_proxy.Prelude.{
  ℕ, zero, suc, ◌+◌, ◌-◌, ◌%◌, ◌==◌, Bool, true, false, ◌&&◌, ◌||◌, not, Option, none, some, List,
  [], ◌∷◌, ◌++◌, if◌then◌else◌, length,
}
use directive_proxy.Program.{
  Hook, Policy, Subscription, Executor, executor_caller, Barrier, barrier_before_commit, Overflow,
  overflow_block, Error, context_done, closed_lane,
}
use directive_proxy.Program.Lane.{Lane, Submitted, accepted, dropped, refused, send_panics, submit}
use directive_proxy.Program.Scope.{
  Task, World, Code, next_event_sequence, no_errors, call, set_lane, turn, turns,
}

-- What else happens at a handler of a lane: which lanes take a turn while a full queue makes the
-- caller wait, whether the context is done first, and which take a turn while the caller waits for
-- the handler's end.
pub record Gap : Type 0 where
  pub before : List ℕ
  pub done : Bool
  pub waiting : List ℕ

unfoldable pub awaited : World × Option (List Error) → World × List Error
awaited (w, none) = (w, context_done ∷ [])
awaited (w, some es) = (w, es)

-- submit of a task; `none` is a lane that is not there, which takes no task and gives no error.
unfoldable pub submit_to :
    World → ℕ → Overflow → Bool → Task → Option (Lane Task) → World × Submitted
unfolding submit
submit_to w i o done t none = (w, dropped)
submit_to w i o done t (some l) = let (s, l') = submit o done t l in (set_lane i l' w, s)

abbrev queue_length : Option (Lane Task) → ℕ
queue_length none = 0
queue_length (some l) = length l.queue

unfoldable pub on_caller : Executor → Bool
on_caller executor_caller = true
on_caller _ = false

-- ScopeSet.nextEventSequence asks the run through the first entry whose scope is open.
unfoldable pub any_open : World → List (ℕ × ℕ) → Bool
any_open w [] = false
any_open w ((scope, i) ∷ is) = not (w.scope_at scope).closed || any_open w is

-- The loops of mutate return the first error.
unfoldable pub unless_failed :
    World × List Error → (World → World × List Error) → World × List Error
unless_failed (w, []) go = go w
unless_failed (w, e ∷ es) go = (w, e ∷ es)

module _ (code : Code) where
  -- The caller waits for the task of `i` that `ahead` others precede; `none`: the context ends the
  -- wait.
  unfoldable pub await : World → ℕ → (ahead : ℕ) → List ℕ → World × Option (List Error)
  unfolding turn
  await w i ahead [] = (w, none)
  await w i ahead (j ∷ js) =
      let (w', es) = turn code w j in
      let rest = await w' i (if j == i then ahead - 1 else ahead) js in
      if j == i && ahead == 0 then (w', some es) else rest

  -- A panic of the send ends the caller; it stands beside the errors as one of its own.
  unfoldable pub after_submit : World → ℕ → Barrier → List ℕ → Submitted → World × List Error
  unfolding await awaited
  after_submit w i barrier_before_commit waiting accepted =
      awaited (await w i (queue_length (w.instance_at i).lane - 1) waiting)
  after_submit w i _ waiting accepted = (w, [])
  after_submit w i _ waiting dropped = (w, [])
  after_submit w i _ waiting (refused e) = (w, e ∷ [])
  after_submit w i _ waiting send_panics = (w, closed_lane ∷ [])

  unfoldable pub dispatch_to_lane : World → ℕ → Gap → Task → Policy → World × List Error
  unfolding turns submit_to after_submit
  dispatch_to_lane w i g t p =
      let w' = turns code w g.before in
      let (w'', s) = submit_to w' i p.overflow g.done t (w'.instance_at i).lane in
      after_submit w'' i p.barrier g.waiting s

  unfoldable pub dispatch_item : World → ℕ → Gap → ℕ → Subscription → World × List Error
  unfolding on_caller call dispatch_to_lane
  dispatch_item w i g sequence s =
      let t : Task = record { handler = s.handle; sequence = sequence } in
      if on_caller s.policy.executor then call code w i t else dispatch_to_lane w i g t s.policy

  -- The inner loop of dispatchAtWithID; a gap for each subscription of each instance.
  unfoldable pub dispatch_items :
      World → ℕ → (ℕ → Gap) → ℕ → ℕ → List Subscription → World × List Error
  unfolding dispatch_item
  dispatch_items w i g sequence n [] = (w, [])
  dispatch_items w i g sequence n (s ∷ ss) =
      let (w', es) = dispatch_item w i (g n) sequence s in
      let (w'', fs) = dispatch_items w' i g sequence (n + 1) ss in (w'', es ++ fs)

  -- The outer loop.
  unfoldable pub dispatch_entries :
      World → (ℕ → ℕ → Gap) → ℕ → Hook → List (ℕ × ℕ) → World × List Error
  unfolding dispatch_items
  dispatch_entries w g sequence k [] = (w, [])
  dispatch_entries w g sequence k ((scope, i) ∷ is) =
      let (w', es) =
        if (w.scope_at scope).closed
        then (w, no_errors)
        else dispatch_items w i (g i) sequence 0 ((w.instance_at i).binder k) in
      let (w'', fs) = dispatch_entries w' g sequence k is in (w'', es ++ fs)

  unfoldable pub dispatch : World → (ℕ → ℕ → Gap) → Hook → List (ℕ × ℕ) → World × List Error
  unfolding dispatch_entries any_open next_event_sequence
  dispatch w g k is =
      let (w', sequence) = if any_open w is then next_event_sequence w else (w, 0) in
      dispatch_entries w' g sequence k is

  -- The lane's part of mutate: without a lane nobody answers, and the wait ends by the context.
  unfoldable pub after_mutation : World → ℕ → List ℕ → Submitted → World × List Error
  unfolding await awaited
  after_mutation w i waiting accepted =
      awaited (await w i (queue_length (w.instance_at i).lane - 1) waiting)
  after_mutation w i waiting dropped = (w, context_done ∷ [])
  after_mutation w i waiting (refused e) = (w, e ∷ [])
  after_mutation w i waiting send_panics = (w, closed_lane ∷ [])

  unfoldable pub mutate_by_lane : World → ℕ → Gap → Task → World × List Error
  unfolding turns submit_to after_mutation
  mutate_by_lane w i g t =
      let w' = turns code w g.before in
      let (w'', s) = submit_to w' i overflow_block g.done t (w'.instance_at i).lane in
      after_mutation w'' i g.waiting s

  unfoldable pub mutate_item : World → ℕ → Gap → Subscription → World × List Error
  unfolding on_caller call mutate_by_lane next_event_sequence
  mutate_item w i g s =
      let (w', n) = next_event_sequence w in
      let t : Task = record { handler = s.handle; sequence = n } in
      if on_caller s.policy.executor then call code w' i t else mutate_by_lane w' i g t

  unfoldable pub mutate_items : World → ℕ → (ℕ → Gap) → ℕ → List Subscription → World × List Error
  unfolding mutate_item unless_failed
  mutate_items w i g n [] = (w, [])
  mutate_items w i g n (s ∷ ss) =
      unless_failed (mutate_item w i (g n) s) (λ w'. mutate_items w' i g (n + 1) ss)

  unfoldable pub mutate : World → (ℕ → ℕ → Gap) → Hook → List (ℕ × ℕ) → World × List Error
  unfolding mutate_items
  mutate w g k [] = (w, [])
  mutate w g k ((scope, i) ∷ is) =
      unless_failed
        (if (w.scope_at scope).closed
          then (w, no_errors)
          else mutate_items w i (g i) 0 ((w.instance_at i).binder k))
        (λ w'. mutate w' g k is)
