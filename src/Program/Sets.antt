-- ===== src/Program/Sets.antt =====
-- internal/core/program/scope.go: opening and finishing scopes, and the set of the scopes that are
-- active (openScope, NewScopeSet, Scope.Finish, ScopeSet.Finish).
pub mod Finishing
use directive_proxy.Prelude.{
  ℕ, zero, suc, ◌+◌, ◌==◌, Bool, true, false, ◌&&◌, ◌||◌, not, Option, none, some, List, [], ◌∷◌,
  ◌++◌, map, if◌then◌else◌, Int64, length, Text, leb, ltb,
}
use directive_proxy.Exchange.{FinishCause, finish_failed as finish_failed_cause}
use directive_proxy.Program.{
  Hook, outbound_body_chunk, upstream_body_draft, Policy, Subscription, Binder, bind, Error,
  context_done, needs_lane, lane_capacity,
}
use directive_proxy.Program.Registry.{Compiled}
use directive_proxy.Program.Lane.{Lane, new_ordered_lane, close_queue}
use directive_proxy.Program.Scope.{
  Task, Mounted, Scope, World, Code, Outcome, returned, Event, update, put, note, no_errors,
  next_event_sequence, settle, finish, turns, turn, set_lane,
}

-- The scopes, and their modules in the directive's order: pairs of a scope and an instance.
pub record ScopeSet : Type 0 where
  pub scopes : List ℕ
  pub mounted : List (ℕ × ℕ)

abbrev pub order_of : World → ℕ × ℕ → ℕ
order_of w (s, i) = (w.instance_at i).order

-- sort.SliceStable by the order: of two entries of one order the first stays first.
unfoldable pub insert : World → ℕ × ℕ → List (ℕ × ℕ) → List (ℕ × ℕ)
insert w e [] = e ∷ []
insert w e (f ∷ fs) = if leb (order_of w e) (order_of w f) then e ∷ f ∷ fs else f ∷ insert w e fs

unfoldable pub sort_stable : World → List (ℕ × ℕ) → List (ℕ × ℕ)
unfolding insert
sort_stable w [] = []
sort_stable w (e ∷ es) = insert w e (sort_stable w es)

unfoldable pub seen_before : ℕ → List ℕ → Bool
seen_before s [] = false
seen_before s (x ∷ xs) = x == s || seen_before s xs

-- The loop of NewScopeSet, which passes over nil and repeated scopes.
unfoldable pub active : (seen : List ℕ) → List (Option ℕ) → List ℕ
unfolding seen_before
active seen [] = []
active seen (none ∷ ss) = active seen ss
active seen (some s ∷ ss) =
    let old = seen_before s seen in
    let rest = active (if old then seen else s ∷ seen) ss in if old then rest else s ∷ rest

unfoldable pub entries : World → List ℕ → List (ℕ × ℕ)
entries w [] = []
entries w (s ∷ ss) = map (λ i. (s, i)) (w.scope_at s).mounted ++ entries w ss

abbrev pub unless_empty : List (ℕ × ℕ) → ScopeSet → Option ScopeSet
unless_empty [] s = none
unless_empty (e ∷ es) s = some s

-- `none` is a nil set, of which every method does nothing.
unfoldable pub new_scope_set : World → List (Option ℕ) → Option ScopeSet
unfolding active entries sort_stable
new_scope_set w ss =
    let scopes = active [] ss in
    let all = entries w scopes in
    unless_empty all (record { scopes = scopes; mounted = sort_stable w all })

unfoldable pub set_scope : ℕ → Scope → World → World
set_scope s x w = record w { scope_at = update s x w.scope_at }

unfoldable pub set_round_trip : Int64 → List ℕ → World → World
unfolding set_scope
set_round_trip n [] w = w
set_round_trip n (s ∷ ss) w =
    set_round_trip n ss (set_scope s (record (w.scope_at s) { round_trip = n }) w)

abbrev pub is_bound : List Subscription → Bool
is_bound [] = false
is_bound (s ∷ ss) = true

unfoldable pub has_bound : Hook → World → List (ℕ × ℕ) → Bool
has_bound k w [] = false
has_bound k w ((s, i) ∷ es) =
    (not (w.scope_at s).closed && is_bound ((w.instance_at i).binder k)) || has_bound k w es

unfoldable pub has_outbound_body_mutators : World → List (ℕ × ℕ) → Bool
unfolding has_bound
has_outbound_body_mutators = has_bound outbound_body_chunk

unfoldable pub has_upstream_body_mutators : World → List (ℕ × ℕ) → Bool
unfolding has_bound
has_upstream_body_mutators = has_bound upstream_body_draft

unfoldable pub repeat : ℕ → ℕ → List ℕ
repeat zero i = []
repeat (suc n) i = i ∷ repeat n i

-- What closing a lane returns: the errors of its tasks, if the goroutine has ended before the
-- context.
unfoldable pub lane_result : Option (Lane Task) → List Error
lane_result none = []
lane_result (some l) = if l.stopped then l.err else context_done ∷ []

unfoldable pub close_lane : World → ℕ → Option (Lane Task) → World
close_lane w i none = w
close_lane w i (some l) = set_lane i (close_queue l) w

-- What a module's Bind calls of the binder, and how it ends.
pub record Bindings : Type 0 where
  pub calls : List (Hook × Policy × Option ℕ)
  pub outcome : Outcome

-- What a module's Open returns.
pub data Opened : Type 0 where
  open_error no_instance : Opened
  opened : Bindings → Opened

unfoldable pub bind_all : Binder → List (Hook × Policy × Option ℕ) → Binder
unfolding bind
bind_all b [] = b
bind_all b ((k, p, h) ∷ cs) = bind_all (bind b k p h) cs

abbrev pub no_binder : Binder
no_binder k = []

module _ (code : Code) where
  -- The lane of `i` takes `left` turns before the context is done.
  unfoldable pub finish_mounted : World → (left : ℕ → ℕ) → FinishCause → ℕ → World × List Error
  unfolding finish close_lane turns repeat lane_result next_event_sequence
  finish_mounted w left cause i =
      let w' = turns code (close_lane w i (w.instance_at i).lane) (repeat (left i) i) in
      let (w'', es) = finish code (next_event_sequence w').0 i cause in
      (w'', lane_result (w'.instance_at i).lane ++ es)

  unfoldable pub finish_all : World → (left : ℕ → ℕ) → FinishCause → List ℕ → World × List Error
  unfolding finish_mounted
  finish_all w left cause [] = (w, [])
  finish_all w left cause (i ∷ is) =
      let (w', es) = finish_mounted w left cause i in
      let (w'', fs) = finish_all w' left cause is in (w'', es ++ fs)

  -- Scope.Finish: `closed` is set once, with closeOnce.
  unfoldable pub finish_scope : World → (left : ℕ → ℕ) → FinishCause → ℕ → World × List Error
  unfolding finish_all set_scope
  finish_scope w left cause s =
      let x = w.scope_at s in
      if x.closed
      then (w, [])
      else finish_all (set_scope s (record x { closed = true }) w) left cause x.mounted

  -- ScopeSet.Finish.
  unfoldable pub finish_scopes : World → (left : ℕ → ℕ) → FinishCause → List ℕ → World × List Error
  unfolding finish_scope
  finish_scopes w left cause [] = (w, [])
  finish_scopes w left cause (s ∷ ss) =
      let (w', es) = finish_scope w left cause s in
      let (w'', fs) = finish_scopes w' left cause ss in (w'', es ++ fs)
