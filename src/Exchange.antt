-- ===== src/Exchange.antt =====
-- internal/core/exchange (exchange.go, model.go, manager.go, program.go, response.go): one exchange
-- with its round trips, up to the response that is sent or the failure.
-- A round trip is its number: the exchange gives each number once. What the modules and the metrics
-- are told is appended to `log`. A clock's answer (`elapsed`) and a context's (`ctx_err`) are
-- arguments. Each function is one method, as a whole.
pub mod Lifecycle
pub mod RoundTrips
pub mod RecoveryCycle
mod Tests
use directive_proxy.Prelude.{
  ℕ, String, Bool, true, false, not, ◌&&◌, ◌||◌, ◌==◌, Option, none, some, List, [], ◌∷◌, ◌++◌,
  Int64, sle, slt, str_eq, if◌then◌else◌,
}

pub data Phase : Type 0 where
  starting_body streaming_request preparing_round_trip awaiting_response : Phase
  recovering retry_requested streaming_response finished : Phase

-- The errors of the package, those of a context, io.EOF, and others.
pub data Error : Type 0 where
  max_round_trips_reached recovery_budget_exceeded idempotency_key_required : Error
  recovery_failed round_trip_active round_trip_scope_opened : Error
  exchange_not_configured exchange_configured : Error
  program_runtime_unavailable directive_invalid recovery_not_started : Error
  canceled deadline_exceeded eof : Error
  other : ℕ → Error

pub data Decision : Type 0 where
  return_response retry : Decision

-- lifecycle.Outcome, as far as the exchange gives it.
pub data Outcome : Type 0 where
  completed client_canceled ended_without_response canceled_for_retry : Outcome
  transport_error interrupted : Outcome

-- module.FinishCause.
pub data FinishCause : Type 0 where
  finish_completed finish_canceled finish_failed finish_replaced : FinishCause

-- lifecycle.RecoveryOutcome.
pub data RecoveryOutcome : Type 0 where
  controller_error invalid_decision budget_rejected recovery_canceled : RecoveryOutcome
  retry_granted forwarded failed : RecoveryOutcome

-- What the programs of the modules observe.
pub data Observed : Type 0 where
  request_started directive_prepared round_trip_started upstream_started : Observed
  request_body_ended : Int64 → String → Bool → Observed
  upstream_response_started downstream_response_started : Int64 → Observed
  upstream_body_ended : Option Error → Observed
  downstream_body_ended : Observed
  round_trip_finished : Outcome → Observed
  request_finished : Outcome → Int64 → Observed
  recovery_started recovery_decided : Observed
  recovery_finished : RecoveryOutcome → Observed

-- What is sent to the metrics, to the programs in scope of a round trip, and to a scope that ends.
pub data Emission : Type 0 where
  metric_started metric_recovery_started : Emission
  metric_finished : Outcome → Emission
  metric_recovery_finished : RecoveryOutcome → Emission
  observed : Option Int64 → Observed → Emission
  round_trip_scope_finished : Int64 → FinishCause → Emission
  exchange_scope_finished : FinishCause → Emission
  run_closed : Emission

-- `cancel` tells whether the cancel function is kept, `canceled` whether it was called; `scope` and
-- `program` tell whether the pointers of these names are set.
pub record RoundTrip : Type 0 where
  pub cancel : Bool
  pub canceled : Bool
  pub scope_opened : Bool
  pub scope : Bool
  pub program : Bool
  pub closed : Bool

-- `run`, `exchange_scope` and `exchange_program` tell whether the pointers of these names are set.
pub record Exchange : Type 0 where
  pub metrics : Bool
  pub method : String
  pub idempotency_key : String
  pub phase : Phase
  pub current : Option Int64
  pub round_trips : Int64 → RoundTrip
  pub round_trip_count : Int64
  pub configured : Bool
  pub max_round_trips : Int64
  pub max_elapsed : Int64
  pub runtime : Bool
  pub run : Bool
  pub exchange_scope : Bool
  pub exchange_program : Bool
  pub request_body_ended : Bool
  pub response_status : Int64
  pub downstream_ended : Bool
  pub downstream_round_trip : Option Int64
  pub complete_once : Bool
  pub completed : Bool
  pub log : List Emission

-- A number that no round trip has yet.
abbrev pub no_round_trip : RoundTrip
no_round_trip = record {
  cancel = false;
  canceled = false;
  scope_opened = false;
  scope = false;
  program = false;
  closed = true;
}

abbrev pub set_round_trip : (Int64 → RoundTrip) → Int64 → RoundTrip → Int64 → RoundTrip
set_round_trip m n r k = if k == n then r else m k

abbrev pub is_current : Exchange → Int64 → Bool
is_current s n = elim s.current [ none ↦ false | some k ↦ k == n ]

abbrev pub phase_finished : Phase → Bool
phase_finished p = elim p [ finished ↦ true | _ ↦ false ]

abbrev pub phase_retry_requested : Phase → Bool
phase_retry_requested p = elim p [ retry_requested ↦ true | _ ↦ false ]

-- NewManager's limit on the round trips.
unfoldable pub manager_limit : Int64 → Int64
manager_limit max = if slt max 1 then 1 else max

-- newExchange; the key is the request's header, without the white space round it.
unfoldable pub new_exchange :
    (metrics runtime : Bool) → Int64 → (method idempotency_key : String) → Exchange
unfolding manager_limit
new_exchange metrics runtime max method idempotency_key = record {
  metrics = metrics;
  method = method;
  idempotency_key = idempotency_key;
  phase = starting_body;
  current = none;
  round_trips = λ n. no_round_trip;
  round_trip_count = 0;
  configured = false;
  max_round_trips = manager_limit max;
  max_elapsed = 0;
  runtime = runtime;
  run = false;
  exchange_scope = false;
  exchange_program = false;
  request_body_ended = false;
  response_status = 0;
  downstream_ended = false;
  downstream_round_trip = none;
  complete_once = false;
  completed = false;
  log = [];
}

-- A call of the metrics, which may be missing.
unfoldable pub count_metric : Exchange → Emission → Exchange
count_metric s m = if s.metrics then record s { log = s.log ++ m ∷ [] } else s

-- activeProgram: whether there are programs in scope.
abbrev pub active_program : Exchange → Option Int64 → Bool
active_program s none = s.exchange_program
active_program s (some n) = (s.round_trips n).program || s.exchange_program

-- dispatchLocked: the observation reaches the programs in scope, if there are any.
unfoldable pub dispatch_locked : Exchange → Option Int64 → Observed → Exchange
dispatch_locked s round_trip o =
    if active_program s round_trip
    then record s { log = s.log ++ observed round_trip o ∷ [] }
    else s
