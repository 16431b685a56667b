-- ===== src/Exchange/RoundTrips.antt =====
-- internal/core/exchange/exchange.go, program.go and response.go: the phases of an exchange, the
-- beginning and the end of its round trips, and the retry that a recovery requests.
pub mod Retry
pub mod System
use directive_proxy.Prelude.{
  ℕ, String, Bool, true, false, not, ◌&&◌, ◌||◌, ◌==◌, Option, none, some, List, [], ◌∷◌, ◌++◌,
  Int64, add64, sub64, sle, slt, str_eq, if◌then◌else◌, ◌⊎◌, inl, inr,
}
use directive_proxy.Exchange.{
  Phase, Error, Decision, Outcome, FinishCause, Observed, Emission, RoundTrip, Exchange,
  set_round_trip, is_current, phase_finished, phase_retry_requested, count_metric, dispatch_locked,
  starting_body, streaming_request, preparing_round_trip, awaiting_response, recovering,
  retry_requested, streaming_response, finished, max_round_trips_reached, recovery_budget_exceeded,
  idempotency_key_required, round_trip_active, exchange_not_configured, canceled, return_response,
  retry, completed, client_canceled, ended_without_response, canceled_for_retry, transport_error,
  finish_completed, finish_canceled, finish_failed, finish_replaced, upstream_started,
  request_finished, metric_started, observed, exchange_scope_finished, run_closed,
}
use directive_proxy.Exchange.Lifecycle.{
  request_body_end, finish_lifecycle, is_cancellation, finish_cause_for_body, finish_downstream,
}

unfoldable pub begin_body_stream : Exchange → Exchange
begin_body_stream s = elim s.phase [
  | starting_body ↦ record s { phase = streaming_request }
  | _ ↦ s
]

-- A round trip is active while it is current and not closed.
abbrev pub active : Exchange → Bool
active s = elim s.current [ none ↦ false | some n ↦ not (s.round_trips n).closed ]

-- The round trip that BeginRoundTrip makes.
abbrev pub new_round_trip : RoundTrip
new_round_trip = record {
  cancel = true;
  canceled = false;
  scope_opened = false;
  scope = false;
  program = false;
  closed = false;
}

unfoldable pub begin_round_trip : Exchange → Option Error → Exchange × (Error ⊎ Int64)
unfolding count_metric
begin_round_trip s ctx_err = if s.completed then (s, inl canceled) else elim ctx_err [
  | some e ↦ (s, inl e)
  | none ↦
      if s.completed || phase_finished s.phase
      then (s, inl canceled)
      else if active s
      then (s, inl round_trip_active)
      else if sle s.max_round_trips s.round_trip_count
      then (s, inl max_round_trips_reached)
      else if not s.configured
      then (s, inl exchange_not_configured)
      else (let n = add64 s.round_trip_count 1 in
          (
            count_metric
                (record s {
                  round_trip_count = n;
                  round_trips = set_round_trip s.round_trips n new_round_trip;
                  current = some n;
                  phase = preparing_round_trip;
                })
                metric_started,
            inr n,
          ))
]

-- POST and PATCH are repeated only with an idempotency key.
abbrev pub needs_key : Exchange → Bool
needs_key s = (str_eq s.method "POST" || str_eq s.method "PATCH") && str_eq s.idempotency_key ""

-- The phases in which a retry may be requested.
abbrev pub awaits_recovery : Phase → Bool
awaits_recovery p = elim p [ awaiting_response ↦ true | recovering ↦ true | _ ↦ false ]

-- Sets the phase, and calls the round trip's cancel function, if it has one.
abbrev pub grant_retry : Exchange → Int64 → Exchange
grant_retry s n =
    let trip = s.round_trips n in
    record s {
      phase = retry_requested;
      round_trips =
          set_round_trip s.round_trips n (record trip { canceled = trip.canceled || trip.cancel });
    }

-- requestRecoveryRetry for the round trip that is current, if it is the expected one.
unfoldable pub retry_current : Exchange → Int64 → Int64 → Exchange × Option Error
retry_current s n elapsed =
    if phase_retry_requested s.phase
    then (s, none)
    else if not (awaits_recovery s.phase)
    then (s, some canceled)
    else if needs_key s
    then (s, some idempotency_key_required)
    else if sle s.max_round_trips n
    then (s, some max_round_trips_reached)
    else if slt 0 s.max_elapsed && sle s.max_elapsed elapsed
    then (s, some recovery_budget_exceeded)
    else (grant_retry s n, none)

unfoldable pub request_recovery_retry : Exchange → Int64 → Int64 → Exchange × Option Error
unfolding retry_current
request_recovery_retry s expected elapsed =
    if s.completed
    then (s, some canceled)
    else if not (is_current s expected)
    then (s, some canceled)
    else retry_current s expected elapsed

-- recovery.Budget.
pub record Budget : Type 0 where
  pub max_round_trips : Int64
  pub max_elapsed : Int64

-- A positive limit holds against a value that is larger or that stands for no limit.
abbrev pub limited : Int64 → Int64 → Int64
limited value limit = if slt 0 limit && (value == 0 || slt limit value) then limit else value

unfoldable pub configure_recovery :
    Exchange → Budget → (max_round_trips max_elapsed : Int64) → Exchange
configure_recovery s budget max_round_trips max_elapsed =
    let round_trips = limited budget.max_round_trips max_round_trips in
    record s {
      max_round_trips = if slt round_trips 1 then 1 else round_trips;
      max_elapsed = limited budget.max_elapsed max_elapsed;
    }

abbrev pub recovery_closed : Phase → Bool
recovery_closed p = elim p [ streaming_response ↦ true | finished ↦ true | _ ↦ false ]

unfoldable pub begin_recovery : Exchange → Int64 → Exchange × Bool
begin_recovery s n =
    if not (is_current s n) || s.completed || recovery_closed s.phase
    then (s, false)
    else (record s { phase = recovering }, true)

-- RecoveryContext, but for what it only copies.
pub record RecoveryContext : Type 0 where
  pub max_round_trips : Int64
  pub remaining : Int64
  pub next_round_trip : Int64
  pub retry_allowed : Bool

unfoldable pub recovery_context : Exchange → Int64 → Int64 → RecoveryContext
recovery_context s n elapsed = record {
  max_round_trips = s.max_round_trips;
  remaining =
      if slt 0 s.max_elapsed && slt elapsed s.max_elapsed then sub64 s.max_elapsed elapsed else 0;
  next_round_trip = add64 n 1;
  retry_allowed =
      if needs_key s
      then false
      else slt n s.max_round_trips && (s.max_elapsed == 0 || slt elapsed s.max_elapsed);
}

unfoldable pub begin_upstream : Exchange → Int64 → Option Error → Exchange × Bool
unfolding dispatch_locked
begin_upstream s n ctx_err = elim ctx_err [
  | some e ↦ (s, false)
  | none ↦ if not (is_current s n) then (s, false) else (
    dispatch_locked (record s { phase = awaiting_response }) (some n) upstream_started,
    true,
  )
]

-- What FinishRoundTrip does under the lock, and what it then tells the modules.
pub data Finish : Type 0 where
  retries streams : Finish
  ends : Option Error → Finish

abbrev pub finish_kind : Exchange → Bool → Option Error → Option Error → Finish
finish_kind s response_started round_trip_err ctx_err = elim ctx_err [
  | none ↦ if phase_retry_requested s.phase then retries else elim round_trip_err [
    | none ↦ if response_started then streams else ends none
    | some e ↦ ends (some e)
  ]
  | some c ↦ elim round_trip_err [
    | none ↦ if response_started then streams else ends none
    | some e ↦ ends (some e)
  ]
]

abbrev pub drop_cancel : Exchange → Int64 → Exchange
drop_cancel s n = record s {
  round_trips = set_round_trip s.round_trips n (record (s.round_trips n) { cancel = false });
}

unfoldable pub finish_as : Exchange → Int64 → Finish → Exchange × Decision
unfolding finish_lifecycle
finish_as s n retries = (
  finish_lifecycle (drop_cancel (record s { current = none }) n) n canceled_for_retry
      finish_replaced none false,
  retry,
)
finish_as s n streams = (drop_cancel (record s { phase = streaming_response }) n, return_response)
finish_as s n (ends none) = (
  finish_lifecycle (drop_cancel (record s { current = none; phase = finished }) n) n
      ended_without_response finish_failed none false,
  return_response,
)
finish_as s n (ends (some e)) = (
  finish_lifecycle (drop_cancel (record s { current = none; phase = finished }) n) n transport_error
      (if is_cancellation e then finish_canceled else finish_failed) none false,
  return_response,
)

unfoldable pub finish_round_trip :
    Exchange
    → Int64
    → (response_started : Bool) (round_trip_err ctx_err : Option Error) → Exchange × Decision
unfolding finish_as
finish_round_trip s n response_started round_trip_err ctx_err =
    if not (is_current s n)
    then (s, return_response)
    else finish_as s n (finish_kind s response_started round_trip_err ctx_err)

-- The end of a response's body.
abbrev pub leave_current : Exchange → Int64 → Exchange
leave_current s n = if is_current s n then record s { current = none } else s

unfoldable pub finish_upstream : Exchange → Int64 → Option Error → Exchange
unfolding finish_lifecycle finish_cause_for_body
finish_upstream s n cause =
    let (outcome, finish_cause) = finish_cause_for_body cause in
    leave_current (finish_lifecycle s n outcome finish_cause cause true) n

-- The end of the exchange's own scope.
unfoldable pub tell_request_finished : Exchange → Outcome → Exchange
tell_request_finished s outcome =
    if s.exchange_program
    then record s { log = s.log ++ observed none (request_finished outcome s.response_status) ∷ [] }
    else s

unfoldable pub end_exchange_scope : Exchange → FinishCause → Exchange
end_exchange_scope s cause =
    if s.exchange_scope
    then record s {
      exchange_scope = false;
      exchange_program = false;
      log = s.log ++ exchange_scope_finished cause ∷ [];
    }
    else s

unfoldable pub finish_current : Exchange → Option Int64 → Outcome → FinishCause → Exchange
unfolding finish_lifecycle
finish_current s none outcome cause = s
finish_current s (some n) outcome cause = finish_lifecycle s n outcome cause none false

abbrev pub close_run : Exchange → Exchange
close_run s = if s.run then record s { log = s.log ++ run_closed ∷ [] } else s

abbrev pub complete_outcome : Option Error → Outcome × FinishCause
complete_outcome ctx_err = elim ctx_err [
  | none ↦ (completed, finish_completed)
  | some e ↦ (client_canceled, finish_canceled)
]

unfoldable pub complete_now : Exchange → Outcome → FinishCause → Exchange
unfolding finish_current tell_request_finished end_exchange_scope request_body_end finish_downstream
complete_now s outcome cause =
    let bodies = finish_downstream (request_body_end s 0 "" false) in
    let final =
      finish_current (record bodies { current = none; phase = finished }) bodies.current outcome
        cause in
    let told = end_exchange_scope (tell_request_finished final outcome) cause in
    close_run (record told { completed = true })

-- Complete, once.
unfoldable pub complete : Exchange → Option Error → Exchange
unfolding complete_now
complete s ctx_err =
    let (outcome, cause) = complete_outcome ctx_err in
    if s.complete_once then s else complete_now (record s { complete_once = true }) outcome cause
