-- ===== src/Exchange/RecoveryCycle.antt =====
-- internal/core/exchange/recovery.go: one recovery of a round trip, from the event that its
-- controller sees to the action that is taken.
-- The exchange goes through the cycle's methods beside it. What the controller answers, what the
-- clock says at each reading, and how the wait for the delay ends are arguments.
pub mod Once
pub mod Outcomes
pub mod Delay
use directive_proxy.Prelude.{
  String, Bool, true, false, not, ◌&&◌, ◌||◌, ◌*◌, ◌%◌, Option, none, some, Int64, sle, slt,
  if◌then◌else◌, ◌⊎◌, inl, inr,
}
use directive_proxy.Exchange.{
  Error, RecoveryOutcome, Exchange, max_round_trips_reached, recovery_budget_exceeded,
  idempotency_key_required, recovery_failed, recovery_not_started, canceled, deadline_exceeded,
  controller_error, invalid_decision, budget_rejected, recovery_canceled, retry_granted, forwarded,
  failed, other,
}
use directive_proxy.Exchange.Lifecycle.{
  tell_recovery_started, tell_recovery_decided, tell_recovery_finished,
}
use directive_proxy.Exchange.RoundTrips.{begin_recovery, recovery_context, request_recovery_retry}

pub data Trigger : Type 0 where
  unexpected_status response_header_timeout transport_failure : Trigger

-- A controller's action; what it answers is text, so there are unknown ones.
pub data Action : Type 0 where
  retry_action forward_action fail_action : Action
  unknown_action : String → Action

pub record Decision : Type 0 where
  pub action : Action
  pub after_ms : Int64

-- The errors of Decide and Apply. `already_final` and `bad_decision` are made by Decide, the
-- controller's is its own.
pub data CycleError : Type 0 where
  from_exchange : Error → CycleError
  from_controller : Error → CycleError
  already_final bad_decision : CycleError

-- `response` tells whether the event has a response, and `decision` is there once it is decided.
pub record Cycle : Type 0 where
  pub round_trip : Int64
  pub trigger : Trigger
  pub response : Bool
  pub decision : Option Decision
  pub deciding : Bool
  pub finished : Bool

-- NewRecoveryCycle; `has_controller` tells whether the policy has one.
unfoldable pub new_recovery_cycle :
    Exchange → Int64 → (has_controller : Bool) → Trigger → Bool → Exchange × (Error ⊎ Cycle)
unfolding begin_recovery tell_recovery_started
new_recovery_cycle s n has_controller trigger response =
    let (begun, started) = begin_recovery s n in
    if not has_controller
    then (s, inl recovery_failed)
    else if not started
    then (begun, inl recovery_not_started)
    else (
      tell_recovery_started begun n,
      inr (record {
        round_trip = n;
        trigger = trigger;
        response = response;
        decision = none;
        deciding = false;
        finished = false;
      }),
    )

-- An exchange and a cycle after a method of the cycle, with the method's result.
pub record Done (A : Type 0) : Type 0 where
  pub exchange : Exchange
  pub cycle : Cycle
  pub result : A

-- finish: the modules are told an outcome once.
unfoldable pub finish : {A : Type 0} → Exchange → Cycle → RecoveryOutcome → A → Done A
unfolding tell_recovery_finished
finish s c outcome result =
    if c.finished then record { exchange = s; cycle = c; result = result } else record {
      exchange = tell_recovery_finished s c.round_trip outcome;
      cycle = record c { finished = true };
      result = result;
    }

abbrev pub is_unexpected_status : Trigger → Bool
is_unexpected_status t = elim t [ unexpected_status ↦ true | _ ↦ false ]

unfoldable pub valid_recovery_decision : Action → Trigger → Bool → Bool
valid_recovery_decision retry_action trigger response = true
valid_recovery_decision fail_action trigger response = true
valid_recovery_decision forward_action trigger response = is_unexpected_status trigger && response
valid_recovery_decision (unknown_action name) trigger response = false

abbrev pub is_retry : Action → Bool
is_retry a = elim a [ retry_action ↦ true | _ ↦ false ]

-- time.Duration of milliseconds, as nanoseconds in an int64.
abbrev pub milliseconds : Int64 → Int64
milliseconds ms = (ms * 1000000) % 18446744073709551616

-- Decide after the wait for the delay: `interrupted` is the context's error, if it ended first.
unfoldable pub after_wait :
    Exchange → Cycle → Decision → Option Error → Done (CycleError ⊎ Decision)
unfolding finish
after_wait s c d none = record { exchange = s; cycle = c; result = inr d }
after_wait s c d (some e) = finish s c recovery_canceled (inl (from_exchange e))

-- Decide at the wait for the delay, with the time that remains of the budget.
unfoldable pub decide_delay :
    Exchange
    → Cycle
    → Decision
    → (remaining : Int64) (interrupted : Option Error) → Done (CycleError ⊎ Decision)
unfolding finish after_wait
decide_delay s c d remaining interrupted =
    if sle d.after_ms 0
    then record { exchange = s; cycle = c; result = inr d }
    else if slt 0 remaining && sle remaining (milliseconds d.after_ms)
    then finish s c budget_rejected (inl (from_exchange recovery_budget_exceeded))
    else after_wait s c d interrupted

-- Decide after the decision is stored, by what RecoveryContext then says.
unfoldable pub decide_stored :
    Exchange
    → Cycle
    → Decision
    → (retry_allowed : Bool) (remaining : Int64) (interrupted : Option Error)
    → Done (CycleError ⊎ Decision)
unfolding finish decide_delay
decide_stored s c d retry_allowed remaining interrupted =
    if is_retry d.action && not retry_allowed
    then finish s c budget_rejected (inl (from_exchange max_round_trips_reached))
    else decide_delay s c d remaining interrupted

-- Decide once the controller's decision is valid.
unfoldable pub decide_valid :
    Exchange
    → Cycle
    → Decision
    → (elapsed : Int64) (interrupted : Option Error) → Done (CycleError ⊎ Decision)
unfolding decide_stored tell_recovery_decided recovery_context
decide_valid s c d elapsed interrupted =
    let told = tell_recovery_decided s c.round_trip in
    let info = recovery_context told c.round_trip elapsed in
    decide_stored told (record c { decision = some d }) d info.retry_allowed info.remaining
      interrupted

-- Decide by the controller's answer.
unfoldable pub decide_answer :
    Exchange
    → Cycle
    → Error ⊎ Decision
    → (elapsed : Int64) (interrupted : Option Error) → Done (CycleError ⊎ Decision)
unfolding finish decide_valid valid_recovery_decision
decide_answer s c (inl e) elapsed interrupted =
    finish s c controller_error (inl (from_controller e))
decide_answer s c (inr d) elapsed interrupted =
    if not (valid_recovery_decision d.action c.trigger c.response) || slt d.after_ms 0
    then finish s c invalid_decision (inl bad_decision)
    else decide_valid s c d elapsed interrupted

abbrev pub is_decided : Cycle → Bool
is_decided c = elim c.decision [ none ↦ false | some d ↦ true ]

-- Decide. While it runs `deciding` is set, and no second call gets past it.
unfoldable pub decide :
    Exchange
    → Cycle
    → Error ⊎ Decision
    → (elapsed : Int64) (interrupted : Option Error) → Done (CycleError ⊎ Decision)
unfolding decide_answer
decide s c answer elapsed interrupted =
    if is_decided c || c.deciding || c.finished
    then record { exchange = s; cycle = c; result = inl already_final }
    else decide_answer s c answer elapsed interrupted

unfoldable pub recovery_outcome_for_error : Error → RecoveryOutcome
recovery_outcome_for_error canceled = recovery_canceled
recovery_outcome_for_error deadline_exceeded = recovery_canceled
recovery_outcome_for_error max_round_trips_reached = budget_rejected
recovery_outcome_for_error recovery_budget_exceeded = budget_rejected
recovery_outcome_for_error idempotency_key_required = budget_rejected
recovery_outcome_for_error e = failed

-- RecoveryResult, but for the decision that it copies.
pub record RecoveryResult : Type 0 where
  pub outcome : RecoveryOutcome
  pub retry : Bool

-- Apply of a retry, by what RequestRecoveryRetry answers.
unfoldable pub apply_retry :
    Exchange → Cycle → Option Error → Done (Option RecoveryResult ⊎ RecoveryResult)
unfolding finish recovery_outcome_for_error
apply_retry s c none =
    finish s c retry_granted (inr (record { outcome = retry_granted; retry = true }))
apply_retry s c (some e) =
    finish s c (recovery_outcome_for_error e)
      (inr (record { outcome = recovery_outcome_for_error e; retry = false }))

-- Apply of a decision: `inl` is the result beside ErrRecoveryFailed, `inr` the one beside no error.
-- Of a decision that is not valid nothing is applied.
unfoldable pub apply_decision :
    Exchange → Cycle → Action → (elapsed : Int64) → Done (Option RecoveryResult ⊎ RecoveryResult)
unfolding finish apply_retry
apply_decision s c retry_action elapsed =
    let (s', refusal) = request_recovery_retry s c.round_trip elapsed in apply_retry s' c refusal
apply_decision s c forward_action elapsed =
    finish s c forwarded (inr (record { outcome = forwarded; retry = false }))
apply_decision s c fail_action elapsed =
    finish s c failed (inl (some (record { outcome = failed; retry = false })))
apply_decision s c (unknown_action name) elapsed = record {
  exchange = s;
  cycle = c;
  result = inl none;
}

unfoldable pub apply_now :
    Exchange
    → Cycle
    → Option Decision
    → (elapsed : Int64) → Done (Option RecoveryResult ⊎ RecoveryResult)
unfolding apply_decision
apply_now s c none elapsed = record { exchange = s; cycle = c; result = inl none }
apply_now s c (some d) elapsed = apply_decision s c d.action elapsed

unfoldable pub apply :
    Exchange → Cycle → (elapsed : Int64) → Done (Option RecoveryResult ⊎ RecoveryResult)
unfolding apply_now
apply s c elapsed =
    if c.finished
    then record { exchange = s; cycle = c; result = inl none }
    else apply_now s c c.decision elapsed

-- recoverRoundTrip of the proxy's transport after the cycle has begun: Decide, and then Apply.
unfoldable pub recover_decided :
    Done (CycleError ⊎ Decision)
    → (elapsed : Int64) → Done (CycleError ⊎ (Option RecoveryResult ⊎ RecoveryResult))
unfolding apply
recover_decided d elapsed = elim d.result [
  | inl e ↦ record { exchange = d.exchange; cycle = d.cycle; result = inl e }
  | inr decision ↦
      let a = apply d.exchange d.cycle elapsed in
      record { exchange = a.exchange; cycle = a.cycle; result = inr a.result }
]

unfoldable pub recover :
    Exchange
    → Cycle
    → Error ⊎ Decision
    → (decided_at : Int64) (interrupted : Option Error) (applied_at : Int64)
    → Done (CycleError ⊎ (Option RecoveryResult ⊎ RecoveryResult))
unfolding recover_decided
recover s c answer decided_at interrupted applied_at =
    recover_decided (decide s c answer decided_at interrupted) applied_at
