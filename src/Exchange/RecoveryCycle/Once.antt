-- ===== src/Exchange/RecoveryCycle/Once.antt =====
-- internal/core/exchange/recovery.go: the end of a recovery is told once.
use directive_proxy.Prelude.{
  ℕ, ◌+◌, ◌≡◌, Bool, true, false, Option, none, some, List, [], ◌∷◌, ◌++◌, Int64, arith,
  if◌then◌else◌, ◌⊎◌, inl, inr, if_cases,
}
use directive_proxy.Exchange.{
  Error, RecoveryOutcome, Exchange, Emission, Observed, dispatch_locked, count_metric, observed,
  metric_recovery_finished, recovery_finished, recovery_decided, recovery_canceled, budget_rejected,
  invalid_decision, max_round_trips_reached, recovery_budget_exceeded,
}
use directive_proxy.Exchange.Lifecycle.{tell_recovery_finished, tell_recovery_decided}
use directive_proxy.Exchange.RoundTrips.{request_recovery_retry, recovery_context}
use directive_proxy.Exchange.RecoveryCycle.{
  Action, Decision, Cycle, CycleError, Done, from_exchange, bad_decision, finish, after_wait,
  decide_delay, decide_stored, decide_valid, decide_answer, decide, apply_retry, apply_decision,
  apply_now, apply, retry_action, forward_action, fail_action, unknown_action,
}

-- How many ends of recoveries the metrics were told.
abbrev pub recoveries_ended : List Emission → ℕ
recoveries_ended [] = 0
recoveries_ended (e ∷ es) = elim e [ metric_recovery_finished o ↦ 1 | _ ↦ 0 ] + recoveries_ended es

recoveries_ended-append :
    (xs ys : List Emission)
    → recoveries_ended (xs ++ ys) ≡ recoveries_ended xs + recoveries_ended ys
recoveries_ended-append [] ys = omega arith
recoveries_ended-append (x ∷ xs) ys = omega (arith, recoveries_ended-append xs ys)

-- The metrics were told the cycle's end if it is finished, and not before; `base` is what they were
-- told of other cycles.
abbrev pub Ledger : ℕ → Exchange → Cycle → Type 0
Ledger base s c =
    recoveries_ended s.log ≡ base + (if c.finished then if s.metrics then 1 else 0 else 0)

abbrev After : {A : Type 0} → ℕ → Done A → Type 0
After base d = Ledger base d.exchange d.cycle

dispatch_locked-Ledger :
    (base : ℕ) (s : Exchange) (c : Cycle) (n : Option Int64) (o : Observed)
    → Ledger base s c
    → Ledger base (dispatch_locked s n o) c
unfolding dispatch_locked
dispatch_locked-Ledger base s c n o h =
    ground (arith, recoveries_ended-append s.log (observed n o ∷ []))

tell_recovery_finished-Ledger :
    (base : ℕ) (s : Exchange) (c : Cycle) (o : RecoveryOutcome)
    → c.finished ≡ false
    → Ledger base s c
    → Ledger base (tell_recovery_finished s c.round_trip o) (record c { finished = true })
unfolding tell_recovery_finished
tell_recovery_finished-Ledger base s c o f h =
    dispatch_locked-Ledger base (count_metric s (metric_recovery_finished o))
      (record c { finished = true }) (some c.round_trip) (recovery_finished o)
      (counted base s c o f h)
  where
    counted :
        (base : ℕ) (s : Exchange) (c : Cycle) (o : RecoveryOutcome)
        → c.finished ≡ false
        → Ledger base s c
        → Ledger base (count_metric s (metric_recovery_finished o)) (record c { finished = true })
    counted base s c o f h =
        unfold count_metric in
        ground (arith, recoveries_ended-append s.log (metric_recovery_finished o ∷ []))

finish-Ledger :
    {A : Type 0} (base : ℕ) (s : Exchange) (c : Cycle) (o : RecoveryOutcome) (r : A)
    → Ledger base s c
    → After base (finish s c o r)
unfolding finish
finish-Ledger base s c o r h =
    if_cases (After base) c.finished (λ f. h) (λ f. tell_recovery_finished-Ledger base s c o f h)

after_wait-Ledger :
    (base : ℕ) (s : Exchange) (c : Cycle) (d : Decision) (interrupted : Option Error)
    → Ledger base s c
    → After base (after_wait s c d interrupted)
unfolding after_wait
after_wait-Ledger base s c d none h = h
after_wait-Ledger base s c d (some e) h = finish-Ledger base s c recovery_canceled _ h

decide_delay-Ledger :
    (base : ℕ) (s : Exchange) (c : Cycle) (d : Decision) (remaining : Int64)
    (interrupted : Option Error)
    → Ledger base s c
    → After base (decide_delay s c d remaining interrupted)
unfolding decide_delay
decide_delay-Ledger base s c d remaining interrupted h =
    let late : CycleError ⊎ Decision = inl (from_exchange recovery_budget_exceeded) in
    ground (
      arith,
      finish-Ledger base s c budget_rejected late h,
      after_wait-Ledger base s c d interrupted h,
    )

decide_stored-Ledger :
    (base : ℕ) (s : Exchange) (c : Cycle) (d : Decision) (retry_allowed : Bool) (remaining : Int64)
    (interrupted : Option Error)
    → Ledger base s c
    → After base (decide_stored s c d retry_allowed remaining interrupted)
unfolding decide_stored
decide_stored-Ledger base s c d retry_allowed remaining interrupted h =
    let spent : CycleError ⊎ Decision = inl (from_exchange max_round_trips_reached) in
    ground (
      arith,
      finish-Ledger base s c budget_rejected spent h,
      decide_delay-Ledger base s c d remaining interrupted h,
    )

decide_valid-Ledger :
    (base : ℕ) (s : Exchange) (c : Cycle) (d : Decision) (elapsed : Int64)
    (interrupted : Option Error)
    → Ledger base s c
    → After base (decide_valid s c d elapsed interrupted)
unfolding decide_valid tell_recovery_decided
decide_valid-Ledger base s c d elapsed interrupted h =
    let told = tell_recovery_decided s c.round_trip in
    let info = recovery_context told c.round_trip elapsed in
    let decided = record c { decision = some d } in
    decide_stored-Ledger base told decided d info.retry_allowed info.remaining interrupted
      (dispatch_locked-Ledger base s decided (some c.round_trip) recovery_decided h)

decide_answer-Ledger :
    (base : ℕ) (s : Exchange) (c : Cycle) (answer : Error ⊎ Decision) (elapsed : Int64)
    (interrupted : Option Error)
    → Ledger base s c
    → After base (decide_answer s c answer elapsed interrupted)
unfolding decide_answer
decide_answer-Ledger base s c (inl e) elapsed interrupted h = finish-Ledger base s c _ _ h
decide_answer-Ledger base s c (inr d) elapsed interrupted h =
    let bad : CycleError ⊎ Decision = inl bad_decision in
    ground (
      arith,
      finish-Ledger base s c invalid_decision bad h,
      decide_valid-Ledger base s c d elapsed interrupted h,
    )

pub decide-Ledger :
    (base : ℕ) (s : Exchange) (c : Cycle) (answer : Error ⊎ Decision) (elapsed : Int64)
    (interrupted : Option Error)
    → Ledger base s c
    → After base (decide s c answer elapsed interrupted)
unfolding decide
decide-Ledger base s c answer elapsed interrupted h =
    ground (arith, decide_answer-Ledger base s c answer elapsed interrupted h)

-- A request for a retry tells nobody anything.
request_recovery_retry_silent :
    (s : Exchange) (n elapsed : Int64)
    → let (s', refusal) = request_recovery_retry s n elapsed in
      (s'.log ≡ s.log) × (s'.metrics ≡ s.metrics)
unfolding request_recovery_retry
request_recovery_retry_silent s n elapsed = (ground arith, ground arith)

apply_retry-Ledger :
    (base : ℕ) (s : Exchange) (c : Cycle) (refusal : Option Error)
    → Ledger base s c
    → After base (apply_retry s c refusal)
unfolding apply_retry
apply_retry-Ledger base s c none h = finish-Ledger base s c _ _ h
apply_retry-Ledger base s c (some e) h = finish-Ledger base s c _ _ h

apply_decision-Ledger :
    (base : ℕ) (s : Exchange) (c : Cycle) (a : Action) (elapsed : Int64)
    → Ledger base s c
    → After base (apply_decision s c a elapsed)
unfolding apply_decision
apply_decision-Ledger base s c retry_action elapsed h =
    let (l, m) = request_recovery_retry_silent s c.round_trip elapsed in
    apply_retry-Ledger base (request_recovery_retry s c.round_trip elapsed).0 c
      (request_recovery_retry s c.round_trip elapsed).1 (rw (l, m) h)
apply_decision-Ledger base s c forward_action elapsed h = finish-Ledger base s c _ _ h
apply_decision-Ledger base s c fail_action elapsed h = finish-Ledger base s c _ _ h
apply_decision-Ledger base s c (unknown_action name) elapsed h = h

apply_now-Ledger :
    (base : ℕ) (s : Exchange) (c : Cycle) (d : Option Decision) (elapsed : Int64)
    → Ledger base s c
    → After base (apply_now s c d elapsed)
unfolding apply_now
apply_now-Ledger base s c none elapsed h = h
apply_now-Ledger base s c (some d) elapsed h = apply_decision-Ledger base s c d.action elapsed h

pub apply-Ledger :
    (base : ℕ) (s : Exchange) (c : Cycle) (elapsed : Int64)
    → Ledger base s c
    → After base (apply s c elapsed)
unfolding apply
apply-Ledger base s c elapsed h =
    if_cases (After base) c.finished (λ f. h) (λ f. apply_now-Ledger base s c c.decision elapsed h)
