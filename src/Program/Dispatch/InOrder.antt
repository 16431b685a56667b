-- ===== src/Program/Dispatch/InOrder.antt =====
-- internal/core/program/scope.go, dispatchAtWithID: which handlers an event reaches.
use directive_proxy.Prelude.{
  ℕ, ◌+◌, ◌==◌, ◌≡◌, refl, sym, ◌∙◌, ap, subst, Bool, true, false, ◌||◌, List, [], ◌∷◌, ◌++◌, map,
  if◌then◌else◌, Bool-cases, inl, inr, arith,
}
use mathlib.Core.List.{append_assoc, append-nil}
use directive_proxy.Program.{Hook, Subscription, Error, handler_error, panicked_error}
use directive_proxy.Program.Scope.{
  Task, Mounted, World, Code, Outcome, returned, failed_with, panicked_with, Event, called,
  module_failed, finish_called, fail, settle, call, next_event_sequence,
}
use directive_proxy.Program.Dispatch.{
  Gap, on_caller, dispatch_item, dispatch_items, dispatch_entries, any_open, dispatch,
}

-- The calls of handlers in a log: instance, handler and number of the event.
unfoldable pub calls : List Event → List (ℕ × ℕ × ℕ)
calls [] = []
calls (called i h n ∷ es) = (i, h, n) ∷ calls es
calls (module_failed i ∷ es) = calls es
calls (finish_called i c ∷ es) = calls es

pub calls-snoc : (es : List Event) (e : Event) → calls (es ++ e ∷ []) ≡ calls es ++ calls (e ∷ [])
unfolding calls
calls-snoc [] e = refl
calls-snoc (called i h n ∷ es) e = ap (λ cs. (i, h, n) ∷ cs) (calls-snoc es e)
calls-snoc (module_failed i ∷ es) e = calls-snoc es e
calls-snoc (finish_called i c ∷ es) e = calls-snoc es e

-- What an outcome is joined to the result as.
unfoldable pub errors_of : Outcome → List Error
errors_of returned = []
errors_of (failed_with e) = handler_error e ∷ []
errors_of (panicked_with e) = panicked_error e ∷ []

abbrev pub fails : Outcome → Bool
fails returned = false
fails _ = true

-- The handlers of a module up to the first that fails, and that failure.
unfoldable pub until_failure : (ℕ → Outcome) → List Subscription → List ℕ
until_failure o [] = []
until_failure o (s ∷ ss) = s.handle ∷ (if fails (o s.handle) then [] else until_failure o ss)

unfoldable pub failure_of : (ℕ → Outcome) → List Subscription → List Error
unfolding errors_of
failure_of o [] = []
failure_of o (s ∷ ss) = if fails (o s.handle) then errors_of (o s.handle) else failure_of o ss

abbrev pub is_live : World → ℕ × ℕ → Bool
is_live w (s, i) =
    if (w.scope_at s).closed then false else if (w.instance_at i).failed then false else true

abbrev pub AllCaller : List Subscription → Type 0
AllCaller [] = Unit
AllCaller (s ∷ ss) = (on_caller s.policy.executor ≡ true) × AllCaller ss

abbrev pub AllCallers : World → Hook → List (ℕ × ℕ) → Type 0
AllCallers w k [] = Unit
AllCallers w k ((s, i) ∷ es) = AllCaller ((w.instance_at i).binder k) × AllCallers w k es

unfoldable pub mounted_in : ℕ → List (ℕ × ℕ) → Bool
mounted_in i [] = false
mounted_in i ((s, j) ∷ es) = i == j || mounted_in i es

abbrev pub Distinct : List (ℕ × ℕ) → Type 0
Distinct [] = Unit
Distinct ((s, i) ∷ es) = (mounted_in i es ≡ false) × Distinct es

-- A call, and then the rest of the module's handlers.
join_calls :
    (f : Bool) (o : Outcome) (on : ℕ → ℕ × ℕ × ℕ) (h : ℕ) (hs : List ℕ) (c : List (ℕ × ℕ × ℕ))
    {f' : Bool} {c' c'' : List (ℕ × ℕ × ℕ)}
    → c' ≡ c ++ (if f then [] else on h ∷ [])
    → f' ≡ (if f then true else fails o)
    → c'' ≡ c' ++ (if f' then [] else map on hs)
    → c'' ≡ c ++ (if f then [] else map on (h ∷ (if fails o then [] else hs)))
join_calls true o on h hs c p q r = rw (r, q, p) (append-nil _)
join_calls false returned on h hs c p q r = rw (r, q, p) (append_assoc c (on h ∷ []) (map on hs))
join_calls false (failed_with e) on h hs c p q r = rw (r, q, p) (append-nil _)
join_calls false (panicked_with e) on h hs c p q r = rw (r, q, p) (append-nil _)

join_errors :
    (f : Bool) (o : Outcome) (later : List Error) {f' : Bool} {r r' : List Error}
    → r ≡ (if f then [] else errors_of o)
    → f' ≡ (if f then true else fails o)
    → r' ≡ (if f' then [] else later)
    → r ++ r' ≡ (if f then [] else if fails o then errors_of o else later)
unfolding errors_of
join_errors true o later p q r = rw (r, q, p)
join_errors false returned later p q r = rw (r, q, p)
join_errors false (failed_with e) later p q r = rw (r, q, p)
join_errors false (panicked_with e) later p q r = rw (r, q, p)

dispatch_item_caller :
    (code : Code) (w : World) (i : ℕ) (g : Gap) (n : ℕ) (s : Subscription)
    → on_caller s.policy.executor ≡ true
    → dispatch_item code w i g n s ≡ call code w i (record { handler = s.handle; sequence = n })
unfolding dispatch_item
dispatch_item_caller code w i g n s e = rw e

live_if {ℓ} :
    {A : Type ℓ} (f : Bool) (xs : List A)
    → (if f then [] else xs) ≡ (if (if f then false else true) then xs else [])
live_if true xs = refl
live_if false xs = refl

join_live {ℓ} :
    {A : Type ℓ} (f : Bool) (c xs ys : List A)
    → (c ++ (if f then [] else xs)) ++ ys
      ≡ c ++ ((if (if f then false else true) then xs else []) ++ ys)
join_live true c xs ys = rw append-nil
join_live false c xs ys = append_assoc c xs ys

module _ (code : Code) (o : ℕ → ℕ → Outcome) where
  -- The specification: the live modules in their order, each up to its first failure.
  unfoldable pub expected_calls : World → ℕ → Hook → List (ℕ × ℕ) → List (ℕ × ℕ × ℕ)
  unfolding until_failure
  expected_calls w n k [] = []
  expected_calls w n k ((s, i) ∷ es) =
      (if is_live w (s, i)
        then map (λ h. (i, h, n)) (until_failure (o i) ((w.instance_at i).binder k))
        else [])
      ++ expected_calls w n k es

  unfoldable pub expected_errors : World → Hook → List (ℕ × ℕ) → List Error
  unfolding failure_of
  expected_errors w k [] = []
  expected_errors w k ((s, i) ∷ es) =
      (if is_live w (s, i) then failure_of (o i) ((w.instance_at i).binder k) else [])
      ++ expected_errors w k es

  -- What the handlers of one instance leave as it is.
  record Frame (i : ℕ) (w w' : World) : Type 0 where
    others : (j : ℕ) → (j == i) ≡ false → w'.instance_at j ≡ w.instance_at j
    scopes : w'.scope_at ≡ w.scope_at

  call-Frame : (w : World) (i : ℕ) (t : Task) → Frame i w (call code w i t).0
  unfolding call settle fail
  call-Frame w i t = record { others = λ j e. ground arith; scopes = ground arith }

  Frame-trans : (i : ℕ) {w w' w'' : World} → Frame i w w' → Frame i w' w'' → Frame i w w''
  Frame-trans i f g = record {
    others = λ j e. g.others j e ∙ f.others j e;
    scopes = g.scopes ∙ f.scopes;
  }

  items-Frame :
      (i : ℕ) (g : ℕ → Gap) (n : ℕ) (ss : List Subscription) (k : ℕ) (w : World)
      → AllCaller ss
      → Frame i w (dispatch_items code w i g n k ss).0
  unfolding dispatch_items dispatch_item
  items-Frame i g n [] k w a = record { others = λ j e. refl; scopes = refl }
  items-Frame i g n (s ∷ ss) k w a =
      let t : Task = record { handler = s.handle; sequence = n } in
      rw a.0
        (Frame-trans i (call-Frame w i t) (items-Frame i g n ss (k + 1) (call code w i t).0 a.1))

  expected-Frame :
      (n : ℕ) (k : Hook) (i : ℕ) (es : List (ℕ × ℕ)) {w w' : World}
      → Frame i w w'
      → mounted_in i es ≡ false
      → (expected_calls w' n k es ≡ expected_calls w n k es)
        × (expected_errors w' k es ≡ expected_errors w k es)
  unfolding expected_calls expected_errors mounted_in
  expected-Frame n k i [] f out = (refl, refl)
  expected-Frame n k i ((s, j) ∷ es) {w} {w'} f out =
      let apart : (j == i) ≡ false = ground arith in
      let rest : mounted_in i es ≡ false = ground arith in
      let (ihc, ihe) = expected-Frame n k i es f rest in
      (rw (f.others j apart, f.scopes, ihc), rw (f.others j apart, f.scopes, ihe))

  expected_same :
      (n : ℕ) (k : Hook) (w w' : World) (es : List (ℕ × ℕ))
      → w'.instance_at ≡ w.instance_at
      → w'.scope_at ≡ w.scope_at
      → (expected_calls w' n k es ≡ expected_calls w n k es)
        × (expected_errors w' k es ≡ expected_errors w k es)
  unfolding expected_calls expected_errors
  expected_same n k w w' [] x y = (refl, refl)
  expected_same n k w w' ((s, i) ∷ es) x y =
      let (c, e) = expected_same n k w w' es x y in (rw (x, y, c), rw (x, y, e))

  pub callers_same :
      (k : Hook) (w w' : World) (es : List (ℕ × ℕ))
      → w'.instance_at ≡ w.instance_at
      → AllCallers w k es
      → AllCallers w' k es
  callers_same k w w' [] x a = tt
  callers_same k w w' ((s, i) ∷ es) x a = (
    subst (λ (at : ℕ → Mounted). AllCaller ((at i).binder k)) (sym x) a.0,
    callers_same k w w' es x a.1,
  )

  pub sequence_same :
      (w : World)
      → ((next_event_sequence w).0.instance_at ≡ w.instance_at)
        × ((next_event_sequence w).0.scope_at ≡ w.scope_at)
        × ((next_event_sequence w).0.log ≡ w.log)
  unfolding next_event_sequence
  sequence_same w = elim (Bool-cases w.run_closed) [
    | inl c ↦ (rw c refl, rw c refl, rw c refl)
    | inr c ↦ (rw c refl, rw c refl, rw c refl)
  ]

  module _ (stateless : (log : List Event) (i h : ℕ) → code.handle log i h ≡ o i h) where
    call_lem :
        (w : World) (i : ℕ) (t : Task)
        → (calls (call code w i t).0.log
            ≡ calls w.log
              ++ (if (w.instance_at i).failed then [] else (i, t.handler, t.sequence) ∷ []))
          × ((call code w i t).1
              ≡ (if (w.instance_at i).failed then [] else errors_of (o i t.handler)))
          × (((call code w i t).0.instance_at i).failed
              ≡ (if (w.instance_at i).failed then true else fails (o i t.handler)))
    unfolding call settle fail calls errors_of
    call_lem w i t =
        let c = called i t.handler t.sequence in
        ground (
          arith,
          stateless w.log i t.handler,
          calls-snoc w.log c,
          calls-snoc (w.log ++ c ∷ []) (module_failed i),
          append-nil (calls w.log),
          append-nil (calls (w.log ++ c ∷ [])),
        )

    items_lem :
        (i : ℕ) (g : ℕ → Gap) (n : ℕ) (ss : List Subscription) (k : ℕ) (w : World)
        → AllCaller ss
        → let (w', es) = dispatch_items code w i g n k ss in
          (calls w'.log
            ≡ calls w.log
              ++ (if (w.instance_at i).failed
                  then []
                  else map (λ h. (i, h, n)) (until_failure (o i) ss)))
          × (es ≡ (if (w.instance_at i).failed then [] else failure_of (o i) ss))
    unfolding dispatch_items until_failure failure_of
    items_lem i g n [] k w a = ground (arith, append-nil (calls w.log))
    items_lem i g n (s ∷ ss) k w a =
        let t : Task = record { handler = s.handle; sequence = n } in
        let w' = (call code w i t).0 in
        let here = call_lem w i t in
        let rest = items_lem i g n ss (k + 1) w' a.1 in
        rw (dispatch_item_caller code w i (g k) n s a.0) (
          join_calls (w.instance_at i).failed (o i s.handle) (λ h. (i, h, n)) s.handle
              (until_failure (o i) ss) (calls w.log) here.0 here.2 rest.0,
          join_errors (w.instance_at i).failed (o i s.handle) (failure_of (o i) ss) here.1 here.2
              rest.1,
        )

    callers-Frame :
        (k : Hook) (i : ℕ) (es : List (ℕ × ℕ)) {w w' : World}
        → Frame i w w'
        → mounted_in i es ≡ false
        → AllCallers w k es
        → AllCallers w' k es
    unfolding mounted_in
    callers-Frame k i [] f out a = tt
    callers-Frame k i ((s, j) ∷ es) {w} {w'} f out a =
        let apart : (j == i) ≡ false = ground arith in
        (
          subst (λ (m : Mounted). AllCaller (m.binder k)) (sym (f.others j apart)) a.0,
          callers-Frame k i es f (ground arith) a.1,
        )

    entries_lem :
        (g : ℕ → ℕ → Gap) (n : ℕ) (k : Hook) (es : List (ℕ × ℕ)) (w : World)
        → AllCallers w k es
        → Distinct es
        → let (w', r) = dispatch_entries code w g n k es in
          (calls w'.log ≡ calls w.log ++ expected_calls w n k es) × (r ≡ expected_errors w k es)
    unfolding dispatch_entries expected_calls expected_errors
    entries_lem g n k [] w a d = (sym (append-nil (calls w.log)), refl)
    entries_lem g n k ((s, i) ∷ es) w a d = elim (Bool-cases (w.scope_at s).closed) [
      | inl closed ↦ rw closed (entries_lem g n k es w a.1 d.1)
      | inr active ↦
          let ss = (w.instance_at i).binder k in
          let w' = (dispatch_items code w i (g i) n 0 ss).0 in
          let f = items-Frame i (g i) n ss 0 w a.0 in
          let (c, e) = items_lem i (g i) n ss 0 w a.0 in
          let (same, same_errors) = expected-Frame n k i es f d.0 in
          let (cs, rs) = entries_lem g n k es w' (callers-Frame k i es f d.0 a.1) d.1 in
          rw active (
            rw (cs, same, c) (join_live (w.instance_at i).failed _ _ _),
            rw (rs, same_errors, e)
                (ap (λ zs. zs ++ expected_errors w k es) (live_if (w.instance_at i).failed _)),
          )
    ]

    entries_after :
        (w w' : World) (g : ℕ → ℕ → Gap) (n : ℕ) (k : Hook) (es : List (ℕ × ℕ))
        → w'.instance_at ≡ w.instance_at
        → w'.scope_at ≡ w.scope_at
        → w'.log ≡ w.log
        → AllCallers w k es
        → Distinct es
        → let (w'', r) = dispatch_entries code w' g n k es in
          (calls w''.log ≡ calls w.log ++ expected_calls w n k es) × (r ≡ expected_errors w k es)
    entries_after w w' g n k es same same_scopes same_log a d =
        let (calls_same, errors_same) = expected_same n k w w' es same same_scopes in
        let (cs, rs) = entries_lem g n k es w' (callers_same k w w' es same a) d in
        (cs ∙ (λ j. calls (same_log j) ++ calls_same j), rs ∙ errors_same)

    -- The number of the event.
    abbrev pub number : World → List (ℕ × ℕ) → ℕ
    number w es = if any_open w es then (next_event_sequence w).1 else 0

    -- An event reaches the handlers that the specification names: those of each module that has not
    -- failed and whose scope is open, in the order of the set and of their binding, up to the module's
    -- first failure, each with the number of the event, whatever the other modules do; and the result
    -- joins the failures in this order. The handlers of the event run in the caller, an instance
    -- stands once in the set, and what a handler returns depends on it alone.
    pub dispatch_in_order :
        (w : World) (g : ℕ → ℕ → Gap) (k : Hook) (es : List (ℕ × ℕ))
        → AllCallers w k es
        → Distinct es
        → let (w', r) = dispatch code w g k es in
          (calls w'.log ≡ calls w.log ++ expected_calls w (number w es) k es)
          × (r ≡ expected_errors w k es)
    unfolding dispatch
    dispatch_in_order w g k es a d = elim (Bool-cases (any_open w es)) [
      | inl some_open ↦
          let (x, y, z) = sequence_same w in
          rw some_open
            (entries_after w (next_event_sequence w).0 g (next_event_sequence w).1 k es x y z a d)
      | inr none_open ↦ rw none_open (entries_after w w g 0 k es refl refl refl a d)
    ]
