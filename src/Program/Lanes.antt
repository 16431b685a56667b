-- ===== src/Program/Lanes.antt =====
-- internal/core/program/binder.go and scope.go: which instances get a lane.
use directive_proxy.Prelude.{
  ℕ, ◌==◌, ◌≡◌, ◌∙◌, Bool, true, false, ◌||◌, ◌&&◌, ◌++◌, refl, ap, sym, Option, none, some, List,
  [], ◌∷◌, map, if_cases, if◌then◌else◌, arith, Int64, slt, All, All-append,
}
use directive_proxy.Program.{
  is_mutation, request_started, request_body_chunk, request_body_ended, round_trip_started,
  directive_prepared, upstream_started, upstream_response, upstream_body_chunk, upstream_body_ended,
  round_trip_finished, recovery_started, recovery_decided, recovery_finished, downstream_response,
  downstream_body_chunk, downstream_sse_data, downstream_sse_comment, downstream_body_ended,
  request_finished, outbound_request, outbound_body_chunk, upstream_draft, upstream_body_draft,
  Executor, no_executor, executor_caller, executor_ordered_lane, other_executor, normalize_executor,
  Hook, Policy, Subscription, Binder, all_hooks, position, bound_policy, normalize_policy, bind,
  policies, all_policies, on_lane, accept, accept_all, lane_capacity, needs_lane,
}
use directive_proxy.Program.Sets.{bind_all, no_binder}

-- A policy that runs on a lane.
unfoldable any_on_lane : List Policy → Bool
unfolding on_lane
any_on_lane [] = false
any_on_lane (p ∷ ps) = on_lane p.executor || any_on_lane ps

abbrev Roomy : Policy → Type 0
Roomy p = slt 0 p.capacity ≡ true

accept_all_lem :
    (c : Int64) (ps : List Policy)
    → All Roomy ps
    → slt 0 (accept_all c ps) ≡ slt 0 c || any_on_lane ps
unfolding accept_all accept any_on_lane
accept_all_lem c [] a = ground arith
accept_all_lem c (p ∷ ps) a = accept_all_lem (accept c p) ps a.1 ∙ ground arith

normalize-Roomy : (p : Policy) → Roomy (normalize_policy p)
unfolding normalize_policy
normalize-Roomy p = ground arith

bound-Roomy : (k : Hook) (p : Policy) → Roomy (bound_policy k p)
unfolding bound_policy
bound-Roomy k p = ground (arith, normalize-Roomy p)

abbrev AllRoomy : List Subscription → Type 0
AllRoomy ss = All (λ (s : Subscription). Roomy s.policy) ss

bind-AllRoomy :
    (b : Binder) (k : Hook) (p : Policy) (h : Option ℕ)
    → ((j : Hook) → AllRoomy (b j))
    → (j : Hook) → AllRoomy (bind b k p h j)
unfolding bind
bind-AllRoomy b k p none a j = a j
bind-AllRoomy b k p (some h) a j =
    if_cases (λ ss. AllRoomy ss) (position j == position k)
      (λ _. All-append (λ (s : Subscription). Roomy s.policy) (b j) _ (a j) (bound-Roomy k p, tt))
      (λ _. a j)

bind_all-AllRoomy :
    (cs : List (Hook × Policy × Option ℕ)) (b : Binder)
    → ((j : Hook) → AllRoomy (b j))
    → (j : Hook) → AllRoomy (bind_all b cs j)
unfolding bind_all
bind_all-AllRoomy [] b a = a
bind_all-AllRoomy ((k, p, h) ∷ cs) b a =
    bind_all-AllRoomy cs (bind b k p h) (bind-AllRoomy b k p h a)

map-Roomy : (ss : List Subscription) → AllRoomy ss → All Roomy (map (λ s. s.policy) ss)
map-Roomy [] a = tt
map-Roomy (s ∷ ss) a = (a.0, map-Roomy ss a.1)

policies-Roomy :
    (b : Binder) (ks : List Hook) → ((j : Hook) → AllRoomy (b j)) → All Roomy (policies b ks)
unfolding policies
policies-Roomy b [] a = tt
policies-Roomy b (k ∷ ks) a =
    All-append Roomy (map (λ s. s.policy) (b k)) _ (map-Roomy (b k) (a k)) (policies-Roomy b ks a)

-- The hook is one of those that the binder looks at.
unfoldable has_hook : Hook → List Hook → Bool
unfolding position
has_hook k [] = false
has_hook k (j ∷ js) = position j == position k || has_hook k js

has_hook-all_hooks : (k : Hook) → has_hook k all_hooks ≡ true
unfolding has_hook
has_hook-all_hooks request_started = refl
has_hook-all_hooks request_body_chunk = refl
has_hook-all_hooks request_body_ended = refl
has_hook-all_hooks round_trip_started = refl
has_hook-all_hooks directive_prepared = refl
has_hook-all_hooks upstream_started = refl
has_hook-all_hooks upstream_response = refl
has_hook-all_hooks upstream_body_chunk = refl
has_hook-all_hooks upstream_body_ended = refl
has_hook-all_hooks round_trip_finished = refl
has_hook-all_hooks recovery_started = refl
has_hook-all_hooks recovery_decided = refl
has_hook-all_hooks recovery_finished = refl
has_hook-all_hooks downstream_response = refl
has_hook-all_hooks downstream_body_chunk = refl
has_hook-all_hooks downstream_sse_data = refl
has_hook-all_hooks downstream_sse_comment = refl
has_hook-all_hooks downstream_body_ended = refl
has_hook-all_hooks request_finished = refl
has_hook-all_hooks outbound_request = refl
has_hook-all_hooks outbound_body_chunk = refl
has_hook-all_hooks upstream_draft = refl
has_hook-all_hooks upstream_body_draft = refl

or_false : (a : Bool) → (a || false) ≡ a
or_false a = ground arith

or_assoc : (a b c : Bool) → (a || (b || c)) ≡ ((a || b) || c)
or_assoc a b c = ground arith

joined :
    (a a' b b' e m l : Bool)
    → a' ≡ a || (e && l)
    → b' ≡ b || (m && l)
    → (a' || b') ≡ (a || b) || ((e || m) && l)
joined a a' b b' e m l f g = ground arith

any_on_lane-append :
    (ps qs : List Policy) → any_on_lane (ps ++ qs) ≡ any_on_lane ps || any_on_lane qs
unfolding any_on_lane
any_on_lane-append [] qs = refl
any_on_lane-append (p ∷ ps) qs = ground (arith, any_on_lane-append ps qs)

on_lane-normalize_executor : (e : Executor) → on_lane (normalize_executor e) ≡ on_lane e
unfolding on_lane normalize_executor
on_lane-normalize_executor no_executor = refl
on_lane-normalize_executor executor_caller = refl
on_lane-normalize_executor executor_ordered_lane = refl
on_lane-normalize_executor other_executor = refl

on_lane-bound_policy :
    (k : Hook) (p : Policy) → on_lane (bound_policy k p).executor ≡ on_lane p.executor
unfolding bound_policy normalize_policy
on_lane-bound_policy k p =
    if_cases (λ (q : Policy). on_lane q.executor ≡ on_lane p.executor) (is_mutation k)
      (λ h. on_lane-normalize_executor p.executor) (λ h. on_lane-normalize_executor p.executor)

abbrev of_hook : Binder → Hook → List Policy
of_hook b j = map (λ s. s.policy) (b j)

any_on_lane-snoc :
    (ss : List Subscription) (s : Subscription)
    → any_on_lane (map (λ x. x.policy) (ss ++ s ∷ []))
      ≡ any_on_lane (map (λ x. x.policy) ss) || on_lane s.policy.executor
unfolding any_on_lane
any_on_lane-snoc [] s = or_false (on_lane s.policy.executor)
any_on_lane-snoc (x ∷ ss) s =
    ap (λ b. on_lane x.policy.executor || b) (any_on_lane-snoc ss s)
    ∙ or_assoc (on_lane x.policy.executor) _ _

bound_or_not :
    (ss : List Subscription) (s : Subscription) (e l : Bool)
    → on_lane s.policy.executor ≡ l
    → any_on_lane (map (λ x. x.policy) (if e then ss ++ s ∷ [] else ss))
      ≡ any_on_lane (map (λ x. x.policy) ss) || (e && l)
bound_or_not ss s true l h =
    any_on_lane-snoc ss s ∙ ap (λ x. any_on_lane (map (λ x. x.policy) ss) || x) h
bound_or_not ss s false l h = sym (or_false _)

any_on_lane-of_hook :
    (b : Binder) (k j : Hook) (p : Policy) (h : ℕ)
    → any_on_lane (of_hook (bind b k p (some h)) j)
      ≡ any_on_lane (of_hook b j) || (position j == position k && on_lane p.executor)
unfolding bind
any_on_lane-of_hook b k j p h =
    let s : Subscription = record { policy = bound_policy k p; handle = h } in
    bound_or_not (b j) s (position j == position k) (on_lane p.executor) (on_lane-bound_policy k p)

any_on_lane-policies :
    (b : Binder) (k : Hook) (p : Policy) (h : ℕ) (js : List Hook)
    → any_on_lane (policies (bind b k p (some h)) js)
      ≡ any_on_lane (policies b js) || (has_hook k js && on_lane p.executor)
unfolding policies has_hook
any_on_lane-policies b k p h [] = sym (or_false _)
any_on_lane-policies b k p h (j ∷ js) =
    any_on_lane-append (of_hook (bind b k p (some h)) j) (policies (bind b k p (some h)) js)
    ∙ joined (any_on_lane (of_hook b j)) _ (any_on_lane (policies b js)) _
        (position j == position k) (has_hook k js) (on_lane p.executor)
        (any_on_lane-of_hook b k j p h) (any_on_lane-policies b k p h js)
    ∙ ap (λ x. x || ((position j == position k || has_hook k js) && on_lane p.executor))
        (sym (any_on_lane-append (of_hook b j) (policies b js)))

any_on_lane-bind :
    (b : Binder) (k : Hook) (p : Policy) (h : ℕ)
    → any_on_lane (all_policies (bind b k p (some h)))
      ≡ any_on_lane (all_policies b) || on_lane p.executor
unfolding all_policies
any_on_lane-bind b k p h =
    any_on_lane-policies b k p h all_hooks
    ∙ ap (λ x. any_on_lane (policies b all_hooks) || (x && on_lane p.executor))
        (has_hook-all_hooks k)

-- Whether one of the bindings asks for a lane; a handler that is nil binds nothing.
unfoldable pub asks_for_lane : List (Hook × Policy × Option ℕ) → Bool
unfolding on_lane
asks_for_lane [] = false
asks_for_lane ((k, p, none) ∷ cs) = asks_for_lane cs
asks_for_lane ((k, p, some h) ∷ cs) = on_lane p.executor || asks_for_lane cs

bind_all-asks :
    (cs : List (Hook × Policy × Option ℕ)) (b : Binder)
    → any_on_lane (all_policies (bind_all b cs)) ≡ any_on_lane (all_policies b) || asks_for_lane cs
unfolding bind_all asks_for_lane
bind_all-asks [] b = sym (or_false _)
bind_all-asks ((k, p, none) ∷ cs) b = bind_all-asks cs b
bind_all-asks ((k, p, some h) ∷ cs) b =
    bind_all-asks cs (bind b k p (some h))
    ∙ ap (λ x. x || asks_for_lane cs) (any_on_lane-bind b k p h)
    ∙ sym (or_assoc (any_on_lane (all_policies b)) (on_lane p.executor) (asks_for_lane cs))

nothing_bound : (js : List Hook) → any_on_lane (policies no_binder js) ≡ false
unfolding policies any_on_lane
nothing_bound [] = refl
nothing_bound (j ∷ js) = nothing_bound js

lane_of_policies :
    (cs : List (Hook × Policy × Option ℕ))
    → let b = bind_all no_binder cs in needs_lane b ≡ any_on_lane (all_policies b)
unfolding needs_lane lane_capacity all_policies
lane_of_policies cs =
    let b = bind_all no_binder cs in
    accept_all_lem 0 (policies b all_hooks)
      (policies-Roomy b all_hooks (bind_all-AllRoomy cs no_binder (λ j. tt)))
    ∙ ground arith

-- An instance gets a lane exactly when its module binds, on any hook, a function that is not nil with a
-- policy of the ordered lane, whatever the capacity of the policy is.
pub needs_lane_lem :
    (cs : List (Hook × Policy × Option ℕ)) → needs_lane (bind_all no_binder cs) ≡ asks_for_lane cs
unfolding all_policies
needs_lane_lem cs =
    lane_of_policies cs
    ∙ bind_all-asks cs no_binder
    ∙ ap (λ x. x || asks_for_lane cs) (nothing_bound all_hooks)
