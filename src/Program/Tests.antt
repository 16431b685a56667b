-- ===== src/Program/Tests.antt =====
-- internal/core/program: two modules, opened from a directive.
use directive_proxy.Prelude.{
  ℕ, ◌+◌, ◌==◌, ◌≡◌, refl, true, false, Option, none, some, List, [], ◌∷◌, ◌++◌, map, if◌then◌else◌,
  inr, arith,
}
use directive_proxy.Program.{
  Hook, request_started, outbound_body_chunk, upstream_draft, Policy, no_executor,
  executor_ordered_lane, no_barrier, no_overflow, overflow_drop, overflow_block, handler_error,
  needs_lane,
}
use directive_proxy.Program.Registry.{
  Catalog, Spec, Compiled, Executable, exchange, round_trip, binding, compile,
}
use directive_proxy.Program.Lane.Order.{
  submits, receives, returns, closes, run as run_lane, start as start_lane, IsFifo,
  run-start-IsFifo, Step,
}
use directive_proxy.Program.Scope.{World, Mounted, Code, Outcome, returned, failed_with, Event}
use directive_proxy.Program.Dispatch.{Gap, dispatch, mutate, on_caller}
use directive_proxy.Program.Calls.{
  Move, loads_flag, stores_flag, tells_health, begins_finish, runs_handler, ends_finish, moves,
  new_instance,
}
use directive_proxy.Program.Calls.Failures.{Orderly, told_mark, count, moves-Orderly}
use directive_proxy.Program.Dispatch.InOrder.{
  mounted_in, calls, expected_calls, expected_errors, number, dispatch_in_order,
}
use directive_proxy.Program.Dispatch.Mutations.{
  called_pairs, until_first, first_error, mutators, mutate-until_first,
}
use directive_proxy.Program.Sets.{
  Opened, opened, open_error, bind_all, no_binder, set_scope, new_scope_set,
}
use directive_proxy.Program.Opening.{new_scope, open_scope}
use directive_proxy.Program.Opening.AllOrNothing.{Opening, open_scope-Opening}
use directive_proxy.Program.Opening.Keys.{key_at, key_of, opened_keys}
use directive_proxy.Program.DirectiveOrder.{numbered, keys_of, set_keys, directive_order}
use directive_proxy.Program.Lanes.{asks_for_lane, needs_lane_lem}

abbrev steps : List (Step ℕ)
steps =
    submits overflow_drop false 1
    ∷ submits overflow_block false 2
    ∷ receives
    ∷ submits overflow_drop false 3
    ∷ returns (handler_error 9 ∷ [])
    ∷ receives
    ∷ closes
    ∷ []

run-start-IsFifo_example : IsFifo (run_lane (start_lane 1) steps)
run-start-IsFifo_example = run-start-IsFifo 1 steps

abbrev in_caller : Policy
in_caller = record {
  executor = no_executor;
  barrier = no_barrier;
  overflow = no_overflow;
  capacity = 0;
}

abbrev in_lane : Policy
in_lane = record in_caller { executor = executor_ordered_lane }

-- Handler 7 fails.
abbrev outcome : ℕ → ℕ → Outcome
outcome i h = if h == 7 then failed_with 1 else returned

abbrev code : Code
code = record { handle = λ log i h. outcome i h; finish = λ log i. returned }

abbrev open_module : List Event → ℕ → Opened
open_module log b =
    if b == 9
    then open_error
    else opened (record {
      calls =
          (request_started, in_caller, some b)
          ∷ (request_started, in_caller, some (b + 1))
          ∷ (outbound_body_chunk, in_caller, some b)
          ∷ (upstream_draft, in_lane, some 3)
          ∷ [];
      outcome = returned;
    })

abbrev nothing_mounted : Mounted
nothing_mounted = record {
  order = 0;
  module_name = [];
  binder = no_binder;
  lane = none;
  failed = false;
}

abbrev empty_world : World
empty_world = record {
  instance_at = λ i. nothing_mounted;
  scope_at = λ s. record { mounted = []; closed = false; round_trip = 0 };
  log = [];
  event_sequence = 0;
  run_closed = false;
}

abbrev catalog : Catalog
catalog =
    record { name = 1 ∷ []; program = true; lifetime = exchange; compile_program = λ c. binding 5 }
    ∷ record {
      name = 2 ∷ [];
      program = true;
      lifetime = round_trip;
      compile_program = λ c. binding 6;
    }
    ∷ []

abbrev specs : List Spec
specs =
    record { module_name = 2 ∷ []; config = 0 }
    ∷ record { module_name = 1 ∷ 32 ∷ []; config = 0 }
    ∷ []

abbrev exchange_item : Compiled
exchange_item = record { order = 1; module_name = 1 ∷ []; code = 5 }

abbrev round_trip_item : Compiled
round_trip_item = record { order = 0; module_name = 2 ∷ []; code = 6 }

abbrev executable : Executable
executable = record {
  exchange_modules = exchange_item ∷ [];
  round_trip_modules = round_trip_item ∷ [];
}

compiles : compile catalog specs ≡ inr executable
unfolding compile
compiles = refl

abbrev left : ℕ → ℕ
left i = 3

-- The two scopes, one after the other.
abbrev one_scope : World
one_scope = (open_scope code open_module left 0 0 0 (exchange_item ∷ []) empty_world).0

abbrev two_scopes : World
two_scopes = (open_scope code open_module left 1 1 0 (round_trip_item ∷ []) one_scope).0

abbrev mounted : List (ℕ × ℕ)
mounted = (1, 1) ∷ (0, 0) ∷ []

set_is_sorted :
    set_keys two_scopes (new_scope_set two_scopes (some 0 ∷ some 1 ∷ []))
    ≡ (0, 2 ∷ []) ∷ (1, 1 ∷ []) ∷ []
unfolding open_scope set_keys new_scope_set
set_is_sorted = refl

directive_order_example :
    set_keys two_scopes (new_scope_set two_scopes (some 0 ∷ some 1 ∷ [])) ≡ numbered 0 specs
unfolding open_scope keys_of
directive_order_example =
    directive_order catalog specs executable two_scopes (some 0) (some 1) compiles refl refl
      (λ (e : 0 ≡ 1). omega arith)

opened_keys_example :
    map (key_at one_scope) (one_scope.scope_at 0).mounted ≡ map key_of (exchange_item ∷ [])
unfolding open_scope
opened_keys_example = opened_keys code open_module left 0 0 0 exchange_item [] empty_world refl

-- The second module fails to open.
abbrev failing_item : Compiled
failing_item = record { order = 2; module_name = 3 ∷ []; code = 9 }

open_scope-Opening_example :
    Opening 0 0
      (exchange_item ∷ failing_item ∷ [])
      (set_scope 0 (new_scope code open_module left 0) empty_world)
      (open_scope code open_module left 0 0 0 (exchange_item ∷ failing_item ∷ []) empty_world)
open_scope-Opening_example =
    open_scope-Opening code open_module left 0 0 0 exchange_item (failing_item ∷ []) empty_world

abbrev gap : ℕ → ℕ → Gap
gap i n = record { before = []; done = false; waiting = [] }

-- Handlers 6 and 7 of the module that stands first, of which the second fails, then 5 and 6.
dispatch_in_order_example :
    let (w', r) = dispatch code two_scopes gap request_started mounted in
    (calls w'.log
      ≡ calls two_scopes.log
        ++ expected_calls code outcome two_scopes
            (number code outcome (λ log i h. refl) two_scopes mounted)
            request_started
            mounted)
    × (r ≡ expected_errors code outcome two_scopes request_started mounted)
unfolding open_scope on_caller mounted_in
dispatch_in_order_example =
    dispatch_in_order code outcome (λ log i h. refl) two_scopes gap request_started mounted
      ((refl, (refl, tt)), ((refl, (refl, tt)), tt)) (refl, (refl, tt))

dispatch_runs :
    (calls (dispatch code two_scopes gap request_started mounted).0.log
      ≡ (1, 6, 1) ∷ (1, 7, 1) ∷ (0, 5, 1) ∷ (0, 6, 1) ∷ [])
unfolding open_scope dispatch calls
dispatch_runs = refl

mutate-until_first_example :
    let (w', r) = mutate code two_scopes gap outbound_body_chunk mounted in
    (called_pairs w'
      ≡ called_pairs two_scopes
        ++ until_first code outcome (mutators two_scopes outbound_body_chunk mounted))
    × (r ≡ first_error code outcome (mutators two_scopes outbound_body_chunk mounted))
unfolding open_scope on_caller
mutate-until_first_example =
    mutate-until_first code outcome (λ log i h. refl) gap outbound_body_chunk mounted two_scopes
      ((refl, tt), ((refl, tt), tt))

-- The caller, 0, and the lane, 1, are both let through before a handler fails.
abbrev overlapping : List Move
overlapping =
    loads_flag 0
    ∷ loads_flag 1
    ∷ runs_handler 0 (failed_with 5)
    ∷ stores_flag 0
    ∷ runs_handler 1 (failed_with 6)
    ∷ loads_flag 2
    ∷ tells_health 0
    ∷ stores_flag 1
    ∷ tells_health 1
    ∷ begins_finish 0
    ∷ ends_finish 0 returned
    ∷ []

moves-Orderly_example : Orderly (moves new_instance overlapping)
moves-Orderly_example = moves-Orderly overlapping

lane_tells_too : count (told_mark 1) (moves new_instance overlapping).marks ≡ 1
unfolding count moves
lane_tells_too = refl

abbrev bound : List (Hook × Policy × Option ℕ)
bound = (upstream_draft, in_lane, some 3) ∷ (request_started, in_caller, some 4) ∷ []

needs_lane_lem_example : needs_lane (bind_all no_binder bound) ≡ asks_for_lane bound
needs_lane_lem_example = needs_lane_lem bound
