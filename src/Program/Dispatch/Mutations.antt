-- ===== src/Program/Dispatch/Mutations.antt =====
-- internal/core/program/scope.go, mutate: the mutators of an event up to the first that fails.
use directive_proxy.Prelude.{
  ℕ, ◌+◌, ◌≡◌, refl, sym, ◌∙◌, ap, subst, Bool, true, false, List, [], ◌∷◌, ◌++◌, map,
  if◌then◌else◌, Bool-cases, inl, inr, arith,
}
use mathlib.Core.List.{append_assoc, append-nil}
use directive_proxy.Program.{Hook, Subscription, Error, handler_error, panicked_error}
use directive_proxy.Program.Scope.{
  Task, Mounted, World, Code, Outcome, returned, failed_with, panicked_with, Event, called,
  module_failed, note, fail, settle, call, next_event_sequence, no_errors,
}
use directive_proxy.Program.Dispatch.{
  Gap, on_caller, unless_failed, mutate_item, mutate_items, mutate,
}
use directive_proxy.Program.Dispatch.InOrder.{
  calls, calls-snoc, errors_of, fails, AllCaller, AllCallers, sequence_same, callers_same,
}

-- Instance and handler of each call.
unfoldable pub pairs : List (ℕ × ℕ × ℕ) → List (ℕ × ℕ)
pairs [] = []
pairs ((i, h, n) ∷ cs) = (i, h) ∷ pairs cs

pairs-append : (xs ys : List (ℕ × ℕ × ℕ)) → pairs (xs ++ ys) ≡ pairs xs ++ pairs ys
unfolding pairs
pairs-append [] ys = refl
pairs-append ((i, h, n) ∷ xs) ys = ap (λ cs. (i, h) ∷ cs) (pairs-append xs ys)

abbrev pub called_pairs : World → List (ℕ × ℕ)
called_pairs w = pairs (calls w.log)

abbrev pub marks : ℕ → List Subscription → List (ℕ × ℕ)
marks i ss = map (λ (m : Subscription). (i, m.handle)) ss

-- A failed module, and one whose scope is closed, has no turn.
abbrev pub unless : Bool → List (ℕ × ℕ) → List (ℕ × ℕ)
unless true ms = []
unless false ms = ms

-- All mutators of the live modules, in the directive's order.
unfoldable pub mutators : World → Hook → List (ℕ × ℕ) → List (ℕ × ℕ)
mutators w k [] = []
mutators w k ((s, i) ∷ es) =
    unless (w.scope_at s).closed
      (unless (w.instance_at i).failed (marks i ((w.instance_at i).binder k)))
    ++ mutators w k es

mutate_item_caller :
    (code : Code) (w : World) (i : ℕ) (g : Gap) (s : Subscription)
    → on_caller s.policy.executor ≡ true
    → mutate_item code w i g s
      ≡ call code
          (next_event_sequence w).0
          i
          (record { handler = s.handle; sequence = (next_event_sequence w).1 })
unfolding mutate_item
mutate_item_caller code w i g s e = rw e

module _ (code : Code) (o : ℕ → ℕ → Outcome) where
  -- The calls up to the first that fails, and its error.
  unfoldable pub until_first : List (ℕ × ℕ) → List (ℕ × ℕ)
  until_first [] = []
  until_first ((i, h) ∷ ms) = (i, h) ∷ (if fails (o i h) then [] else until_first ms)

  unfoldable pub first_error : List (ℕ × ℕ) → List Error
  unfolding errors_of
  first_error [] = []
  first_error ((i, h) ∷ ms) = if fails (o i h) then errors_of (o i h) else first_error ms

  -- The mutators `ms` were run in turn; without an error, no module has failed.
  record Ran (ms : List (ℕ × ℕ)) (w : World) (x : World × List Error) : Type 0 where
    told : called_pairs x.0 ≡ called_pairs w ++ until_first ms
    error : x.1 ≡ first_error ms
    same : x.1 ≡ [] → (x.0.instance_at ≡ w.instance_at) × (x.0.scope_at ≡ w.scope_at)

  until_first-append :
      (xs ys : List (ℕ × ℕ))
      → until_first (xs ++ ys)
        ≡ until_first xs ++ (elim (first_error xs) [ [] ↦ until_first ys | e ∷ es ↦ [] ])
  unfolding until_first first_error errors_of
  until_first-append [] ys = refl
  until_first-append ((i, h) ∷ xs) ys =
      elim (o i h)
        as (λ r.
          (i, h) ∷ (if fails r then [] else until_first (xs ++ ys))
          ≡ ((i, h) ∷ (if fails r then [] else until_first xs))
            ++ (elim (if fails r then errors_of r else first_error xs) [
              | [] ↦ until_first ys
              | e ∷ es ↦ []
            ])) [
              | returned ↦ ap (λ zs. (i, h) ∷ zs) (until_first-append xs ys)
              | failed_with e ↦ refl
              | panicked_with e ↦ refl
            ]

  first_error-append :
      (xs ys : List (ℕ × ℕ))
      → first_error (xs ++ ys)
        ≡ (elim (first_error xs) [ [] ↦ first_error ys | e ∷ es ↦ first_error xs ])
  unfolding first_error errors_of
  first_error-append [] ys = refl
  first_error-append ((i, h) ∷ xs) ys =
      elim (o i h)
        as (λ r.
          (if fails r then errors_of r else first_error (xs ++ ys))
          ≡ (elim (if fails r then errors_of r else first_error xs) [
            | [] ↦ first_error ys
            | e ∷ es ↦ (if fails r then errors_of r else first_error xs)
          ])) [
            | returned ↦ first_error-append xs ys
            | failed_with e ↦ refl
            | panicked_with e ↦ refl
          ]

  -- The rest runs unless an error has come.
  Ran-then :
      (xs ys : List (ℕ × ℕ)) (w : World) (x : World × List Error) (go : World → World × List Error)
      → Ran xs w x
      → ((w' : World)
          → w'.instance_at ≡ w.instance_at
          → w'.scope_at ≡ w.scope_at
          → Ran ys w' (go w'))
      → Ran (xs ++ ys) w (unless_failed x go)
  unfolding unless_failed
  Ran-then xs ys w (w', []) go r rest =
      let (si, ss) = r.same refl in
      let next = rest w' si ss in
      record {
        told =
            next.told
            ∙ ap (λ zs. zs ++ until_first ys) r.told
            ∙ append_assoc (called_pairs w) (until_first xs) (until_first ys)
            ∙ ap (λ zs. called_pairs w ++ zs)
                (sym (until_first-append xs ys ∙ rw (← r.error) refl));
        error = next.error ∙ sym (first_error-append xs ys ∙ rw (← r.error) refl);
        same = λ e. let (a, b) = next.same e in (a ∙ si, b ∙ ss);
      }
  Ran-then xs ys w (w', e ∷ es) go r rest = record {
    told =
        r.told
        ∙ ap (λ zs. called_pairs w ++ zs)
            (sym (until_first-append xs ys ∙ rw (← r.error) (append-nil _)));
    error = r.error ∙ sym (first_error-append xs ys ∙ rw (← r.error) (sym r.error));
    same = λ f. cc;
  }

  Ran-none : (w : World) → Ran [] w (w, [])
  unfolding until_first first_error
  Ran-none w = record { told = sym (append-nil _); error = refl; same = λ e. (refl, refl) }

  -- What mutate runs of an instance's mutators.
  abbrev of_instance : World → ℕ → List Subscription → List (ℕ × ℕ)
  of_instance w i ss = unless (w.instance_at i).failed (marks i ss)

  Ran-from :
      (ms : List (ℕ × ℕ)) (w w' : World) (x : World × List Error)
      → w'.instance_at ≡ w.instance_at
      → w'.scope_at ≡ w.scope_at
      → w'.log ≡ w.log
      → Ran ms w' x
      → Ran ms w x
  Ran-from ms w w' x si ss sl r = record {
    told = r.told ∙ ap (λ es. pairs (calls es) ++ until_first ms) sl;
    error = r.error;
    same = λ e. let (a, b) = r.same e in (a ∙ si, b ∙ ss);
  }

  unless-nil : (f : Bool) → unless f [] ≡ []
  unless-nil true = refl
  unless-nil false = refl

  unless-append :
      (f : Bool) (xs ys : List (ℕ × ℕ)) → unless f (xs ++ ys) ≡ unless f xs ++ unless f ys
  unless-append true xs ys = refl
  unless-append false xs ys = refl

  of_instance_same :
      (w' w : World) (i : ℕ) (ss : List Subscription)
      → w'.instance_at ≡ w.instance_at
      → of_instance w' i ss ≡ of_instance w i ss
  of_instance_same w' w i ss x = ap (λ (at : ℕ → Mounted). unless (at i).failed (marks i ss)) x

  mutators_same :
      (k : Hook) (w w' : World) (es : List (ℕ × ℕ))
      → w'.instance_at ≡ w.instance_at
      → w'.scope_at ≡ w.scope_at
      → mutators w' k es ≡ mutators w k es
  unfolding mutators
  mutators_same k w w' [] x y = refl
  mutators_same k w w' ((s, i) ∷ es) x y = rw (x, y, mutators_same k w w' es x y)

  failed_told :
      (w : World) (i h n : ℕ) (x : Error)
      → errors_of (o i h) ≡ x ∷ []
      → fails (o i h) ≡ true
      → Ran ((i, h) ∷ []) w (fail (note (called i h n) w) i, x ∷ [])
  unfolding fail calls pairs until_first first_error
  failed_told w i h n x e f =
      let c = called i h n in
      record {
        told = ground (
          arith,
          f,
          ap pairs (calls-snoc (w.log ++ c ∷ []) (module_failed i)),
          ap pairs (append-nil (calls (w.log ++ c ∷ []))),
          ap pairs (calls-snoc w.log c),
          pairs-append (calls w.log) ((i, h, n) ∷ []),
        );
        error = ground (arith, e, f);
        same = λ g. cc;
      }

  module _ (stateless : (log : List Event) (i h : ℕ) → code.handle log i h ≡ o i h) where
    settle-Ran :
        (w : World) (i h n : ℕ) (r : Outcome)
        → r ≡ o i h
        → Ran ((i, h) ∷ []) w (settle (note (called i h n) w) i r)
    unfolding settle fail calls pairs until_first first_error errors_of
    settle-Ran w i h n returned e =
        let c = called i h n in
        record {
          told = ground (
            arith,
            e,
            ap pairs (calls-snoc w.log c),
            pairs-append (calls w.log) ((i, h, n) ∷ []),
          );
          error = ground (arith, e);
          same = λ f. (refl, refl);
        }
    settle-Ran w i h n (failed_with x) e =
        failed_told w i h n (handler_error x) (sym (ap errors_of e)) (sym (ap fails e))
    settle-Ran w i h n (panicked_with x) e =
        failed_told w i h n (panicked_error x) (sym (ap errors_of e)) (sym (ap fails e))

    call-Ran :
        (w : World) (i h n : ℕ)
        → Ran
            (unless (w.instance_at i).failed ((i, h) ∷ []))
            w
            (call code w i (record { handler = h; sequence = n }))
    unfolding call
    call-Ran w i h n = elim (Bool-cases (w.instance_at i).failed) [
      | inl dead ↦ rw dead (Ran-none w)
      | inr alive ↦ rw alive (settle-Ran w i h n (code.handle w.log i h) (stateless w.log i h))
    ]

    item-Ran :
        (w : World) (i : ℕ) (g : Gap) (s : Subscription)
        → on_caller s.policy.executor ≡ true
        → Ran (of_instance w i (s ∷ [])) w (mutate_item code w i g s)
    item-Ran w i g s e =
        let w' = (next_event_sequence w).0 in
        let n = (next_event_sequence w).1 in
        let t : Task = record { handler = s.handle; sequence = n } in
        let (si, ss, sl) = sequence_same code o w in
        subst (λ x. Ran (of_instance w i (s ∷ [])) w x) (sym (mutate_item_caller code w i g s e))
          (Ran-from (of_instance w i (s ∷ [])) w w' (call code w' i t) si ss sl (
            subst (λ ms. Ran ms w' (call code w' i t)) (of_instance_same w' w i (s ∷ []) si)
              (call-Ran w' i s.handle n)))

    items-Ran :
        (i : ℕ) (g : ℕ → Gap) (ss : List Subscription) (k : ℕ) (w : World)
        → AllCaller ss
        → Ran (of_instance w i ss) w (mutate_items code w i g k ss)
    unfolding mutate_items
    items-Ran i g [] k w a =
        subst (λ ms. Ran ms w (w, [])) (sym (unless-nil (w.instance_at i).failed)) (Ran-none w)
    items-Ran i g (s ∷ ss) k w a =
        subst (λ ms. Ran ms w (mutate_items code w i g k (s ∷ ss)))
          (sym (unless-append (w.instance_at i).failed (marks i (s ∷ [])) (marks i ss)))
          (Ran-then (of_instance w i (s ∷ [])) (of_instance w i ss) w (mutate_item code w i (g k) s)
            (λ w'. mutate_items code w' i g (k + 1) ss) (item-Ran w i (g k) s a.0)
            (λ w' x y.
              subst (λ ms. Ran ms w' (mutate_items code w' i g (k + 1) ss))
                (of_instance_same w' w i ss x) (items-Ran i g ss (k + 1) w' a.1)))

    entry-Ran :
        (w : World) (s i : ℕ) (g : ℕ → ℕ → Gap) (ss : List Subscription)
        → AllCaller ss
        → Ran
            (unless (w.scope_at s).closed (of_instance w i ss))
            w
            (if (w.scope_at s).closed then (w, no_errors) else mutate_items code w i (g i) 0 ss)
    entry-Ran w s i g ss a = elim (Bool-cases (w.scope_at s).closed) [
      | inl closed ↦ rw closed (Ran-none w)
      | inr active ↦ rw active (items-Ran i (g i) ss 0 w a)
    ]

    mutate-Ran :
        (g : ℕ → ℕ → Gap) (k : Hook) (es : List (ℕ × ℕ)) (w : World)
        → AllCallers w k es
        → Ran (mutators w k es) w (mutate code w g k es)
    unfolding mutate mutators
    mutate-Ran g k [] w a = Ran-none w
    mutate-Ran g k ((s, i) ∷ es) w a =
        let ss = (w.instance_at i).binder k in
        Ran-then (unless (w.scope_at s).closed (of_instance w i ss)) (mutators w k es) w
          (if (w.scope_at s).closed then (w, no_errors) else mutate_items code w i (g i) 0 ss)
          (λ w'. mutate code w' g k es) (entry-Ran w s i g ss a.0)
          (λ w' x y.
            subst (λ ms. Ran ms w' (mutate code w' g k es)) (mutators_same k w w' es x y)
              (mutate-Ran g k es w' (callers_same code o k w w' es x a.1)))

    -- A mutation runs the mutators of the modules that have not failed and whose scopes are open, in
    -- the order of the set, up to the first that fails, over all modules, and returns its error. The
    -- mutators run in the caller, and what a mutator returns depends on it alone.
    pub mutate-until_first :
        (g : ℕ → ℕ → Gap) (k : Hook) (es : List (ℕ × ℕ)) (w : World)
        → AllCallers w k es
        → let (w', r) = mutate code w g k es in
          (called_pairs w' ≡ called_pairs w ++ until_first (mutators w k es))
          × (r ≡ first_error (mutators w k es))
    mutate-until_first g k es w a = let r = mutate-Ran g k es w a in (r.told, r.error)
