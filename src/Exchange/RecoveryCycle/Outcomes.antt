-- ===== src/Exchange/RecoveryCycle/Outcomes.antt =====
-- internal/core/exchange/recovery.go and recoverRoundTrip of internal/core/proxy: a recovery always
-- comes to its end, and what its caller then finds.
use directive_proxy.Prelude.{
  ℕ, ◌≡◌, refl, ◌∙◌, ap, Bool, true, false, ◌&&◌, ◌||◌, not, Option, none, some, Int64, arith, ◌⊎◌,
  inl, inr, if_cases, slt, sle,
}
use directive_proxy.Exchange.{
  Error, RecoveryOutcome, Exchange, retry_requested, count_metric, dispatch_locked,
}
use directive_proxy.Exchange.Lifecycle.{tell_recovery_finished, tell_recovery_decided}
use directive_proxy.Exchange.RoundTrips.{request_recovery_retry}
use directive_proxy.Exchange.RecoveryCycle.{
  Action, Decision, Cycle, CycleError, Done, RecoveryResult, finish, after_wait, decide_delay,
  decide_stored, decide_valid, decide_answer, decide, apply_retry, apply_decision, apply_now, apply,
  retry_action, forward_action, fail_action, unknown_action, valid_recovery_decision, milliseconds,
  is_retry, recover, recover_decided,
}
use directive_proxy.Exchange.RecoveryCycle.Once.{
  recoveries_ended, Ledger, decide-Ledger, apply-Ledger,
}

-- A failed decision has ended the recovery; one that is handed on is stored, and valid for the event.
abbrev pub Settles : Done (CycleError ⊎ Decision) → Type 0
Settles d = elim d.result [
  | inl e ↦ d.cycle.finished ≡ true
  | inr decision ↦
      (d.cycle.decision ≡ some decision)
      × (valid_recovery_decision decision.action d.cycle.trigger d.cycle.response ≡ true)
]

finish-Settles :
    (s : Exchange) (c : Cycle) (o : RecoveryOutcome) (e : CycleError)
    → Settles (finish s c o (inl e))
unfolding finish
finish-Settles s c o e = ground arith

after_wait-Settles :
    (s : Exchange) (c : Cycle) (d : Decision) (interrupted : Option Error)
    → c.decision ≡ some d
    → valid_recovery_decision d.action c.trigger c.response ≡ true
    → Settles (after_wait s c d interrupted)
unfolding after_wait
after_wait-Settles s c d none k v = (k, v)
after_wait-Settles s c d (some e) k v = finish-Settles s c _ _

decide_delay-Settles :
    (s : Exchange) (c : Cycle) (d : Decision) (remaining : Int64) (interrupted : Option Error)
    → c.decision ≡ some d
    → valid_recovery_decision d.action c.trigger c.response ≡ true
    → Settles (decide_delay s c d remaining interrupted)
unfolding decide_delay
decide_delay-Settles s c d remaining interrupted k v =
    if_cases Settles (sle d.after_ms 0) (λ f. (k, v))
      (λ f.
        if_cases Settles (slt 0 remaining && sle remaining (milliseconds d.after_ms))
          (λ f. finish-Settles s c _ _) (λ f. after_wait-Settles s c d interrupted k v))

decide_stored-Settles :
    (s : Exchange) (c : Cycle) (d : Decision) (allowed : Bool) (remaining : Int64)
    (interrupted : Option Error)
    → c.decision ≡ some d
    → valid_recovery_decision d.action c.trigger c.response ≡ true
    → Settles (decide_stored s c d allowed remaining interrupted)
unfolding decide_stored
decide_stored-Settles s c d allowed remaining interrupted k v =
    if_cases Settles (is_retry d.action && not allowed) (λ f. finish-Settles s c _ _)
      (λ f. decide_delay-Settles s c d remaining interrupted k v)

invalid_or_valid : (valid negative : Bool) → (not valid || negative) ≡ false → valid ≡ true
invalid_or_valid valid negative h = ground arith

decide_answer-Settles :
    (s : Exchange) (c : Cycle) (answer : Error ⊎ Decision) (elapsed : Int64)
    (interrupted : Option Error)
    → Settles (decide_answer s c answer elapsed interrupted)
unfolding decide_answer decide_valid
decide_answer-Settles s c (inl e) elapsed interrupted = finish-Settles s c _ _
decide_answer-Settles s c (inr d) elapsed interrupted =
    if_cases Settles
      (not (valid_recovery_decision d.action c.trigger c.response) || slt d.after_ms 0)
      (λ f. finish-Settles s c _ _)
      (λ f.
        decide_stored-Settles (tell_recovery_decided s c.round_trip)
          (record c { decision = some d }) d _ _ interrupted refl (invalid_or_valid _ _ f))

-- A cycle that NewRecoveryCycle has just made.
abbrev pub Fresh : Cycle → Type 0
Fresh c = (c.decision ≡ none) × (c.deciding ≡ false) × (c.finished ≡ false)

decides_once :
    (s : Exchange) (c : Cycle) (answer : Error ⊎ Decision) (elapsed : Int64)
    (interrupted : Option Error)
    → Fresh c
    → decide s c answer elapsed interrupted ≡ decide_answer s c answer elapsed interrupted
unfolding decide
decides_once s c answer elapsed interrupted (a, b, f) = ground arith

-- A retry that the caller is told of is requested of the exchange.
abbrev pub Found : Exchange → CycleError ⊎ (Option RecoveryResult ⊎ RecoveryResult) → Type 0
Found s (inl e) = Unit
Found s (inr (inl r)) = Unit
Found s (inr (inr r)) = (r.retry ≡ false) ⊎ (s.phase ≡ retry_requested)

-- What the caller of a recovery finds: the recovery is finished.
abbrev pub Ends : Done (CycleError ⊎ (Option RecoveryResult ⊎ RecoveryResult)) → Type 0
Ends d = (d.cycle.finished ≡ true) × Found d.exchange d.result

-- The same of Apply.
abbrev Applied : Done (Option RecoveryResult ⊎ RecoveryResult) → Type 0
Applied d = (d.cycle.finished ≡ true) × Found d.exchange (inr d.result)

tell_recovery_finished-phase :
    (s : Exchange) (n : Int64) (o : RecoveryOutcome)
    → (tell_recovery_finished s n o).phase ≡ s.phase
unfolding tell_recovery_finished count_metric dispatch_locked
tell_recovery_finished-phase s n o = ground arith

finish-phase :
    {A : Type 0} (s : Exchange) (c : Cycle) (o : RecoveryOutcome) (r : A)
    → (finish s c o r).exchange.phase ≡ s.phase
unfolding finish
finish-phase s c o r = ground (arith, tell_recovery_finished-phase s c.round_trip o)

pub finish-finished :
    {A : Type 0} (s : Exchange) (c : Cycle) (o : RecoveryOutcome) (r : A)
    → (finish s c o r).cycle.finished ≡ true
unfolding finish
finish-finished s c o r = ground arith

pub finish-result :
    {A : Type 0} (s : Exchange) (c : Cycle) (o : RecoveryOutcome) (r : A)
    → (finish s c o r).result ≡ r
unfolding finish
finish-result s c o r = ground arith

finish-Applied :
    (s : Exchange) (c : Cycle) (o : RecoveryOutcome) (r : RecoveryResult)
    → (r.retry ≡ false) ⊎ (s.phase ≡ retry_requested)
    → Applied (finish s c o (inr r))
finish-Applied s c o r h =
    let result : Option RecoveryResult ⊎ RecoveryResult = inr r in
    (finish-finished s c o result, rw (finish-result s c o result, finish-phase s c o result) h)

finish-Applied_failed :
    (s : Exchange) (c : Cycle) (o : RecoveryOutcome) (r : Option RecoveryResult)
    → Applied (finish s c o (inl r))
finish-Applied_failed s c o r =
    let result : Option RecoveryResult ⊎ RecoveryResult = inl r in
    (finish-finished s c o result, rw (finish-result s c o result) tt)

request_granted :
    (s : Exchange) (n elapsed : Int64)
    → (request_recovery_retry s n elapsed).1 ≡ none
    → (request_recovery_retry s n elapsed).0.phase ≡ retry_requested
unfolding request_recovery_retry
request_granted s n elapsed g = ground arith

apply_retry-Applied :
    (s : Exchange) (c : Cycle) (refusal : Option Error)
    → (refusal ≡ none → s.phase ≡ retry_requested)
    → Applied (apply_retry s c refusal)
unfolding apply_retry
apply_retry-Applied s c none h = finish-Applied s c _ _ (inr (h refl))
apply_retry-Applied s c (some e) h = finish-Applied s c _ _ (inl refl)

apply_decision-Applied :
    (s : Exchange) (c : Cycle) (a : Action) (elapsed : Int64)
    → valid_recovery_decision a c.trigger c.response ≡ true
    → Applied (apply_decision s c a elapsed)
unfolding apply_decision valid_recovery_decision
apply_decision-Applied s c retry_action elapsed v =
    apply_retry-Applied (request_recovery_retry s c.round_trip elapsed).0 c
      (request_recovery_retry s c.round_trip elapsed).1 (request_granted s c.round_trip elapsed)
apply_decision-Applied s c forward_action elapsed v = finish-Applied s c _ _ (inl refl)
apply_decision-Applied s c fail_action elapsed v = finish-Applied_failed s c _ _
apply_decision-Applied s c (unknown_action name) elapsed v = cc

same_action : (d e : Decision) → some d ≡ some e → d.action ≡ e.action
same_action d e h = ground arith

apply_now-Applied :
    (s : Exchange) (c : Cycle) (o : Option Decision) (d : Decision) (elapsed : Int64)
    → o ≡ some d
    → valid_recovery_decision d.action c.trigger c.response ≡ true
    → Applied (apply_now s c o elapsed)
unfolding apply_now
apply_now-Applied s c none d elapsed k v = cc
apply_now-Applied s c (some e) d elapsed k v =
    apply_decision-Applied s c e.action elapsed
      (ap (λ a. valid_recovery_decision a c.trigger c.response) (same_action e d k) ∙ v)

apply-Applied :
    (s : Exchange) (c : Cycle) (d : Decision) (elapsed : Int64)
    → c.decision ≡ some d
    → valid_recovery_decision d.action c.trigger c.response ≡ true
    → Applied (apply s c elapsed)
unfolding apply
apply-Applied s c d elapsed k v =
    if_cases Applied c.finished (λ f. (f, tt)) (λ f. apply_now-Applied s c c.decision d elapsed k v)

recover_result-Ends :
    (s : Exchange) (c : Cycle) (result : CycleError ⊎ Decision) (elapsed : Int64)
    → Settles (record { exchange = s; cycle = c; result = result })
    → Ends (recover_decided (record { exchange = s; cycle = c; result = result }) elapsed)
unfolding recover_decided
recover_result-Ends s c (inl e) elapsed h = (h, tt)
recover_result-Ends s c (inr d) elapsed (k, v) = apply-Applied s c d elapsed k v

recover_result-Ledger :
    (base : ℕ) (s : Exchange) (c : Cycle) (result : CycleError ⊎ Decision) (elapsed : Int64)
    → Ledger base s c
    → let d = recover_decided (record { exchange = s; cycle = c; result = result }) elapsed in
      Ledger base d.exchange d.cycle
unfolding recover_decided
recover_result-Ledger base s c (inl e) elapsed h = h
recover_result-Ledger base s c (inr d) elapsed h = apply-Ledger base s c elapsed h

not_yet_told : (s : Exchange) (c : Cycle) → Fresh c → Ledger (recoveries_ended s.log) s c
not_yet_told s c (k, b, f) = ground arith

-- A recovery comes to its end: whatever the controller answers, the clock reads and the wait brings,
-- a cycle that NewRecoveryCycle has made is finished when Decide, and Apply after a decision, have
-- returned; the metrics, if there are any, were told its end once; and when the caller is told to
-- retry, the exchange has the retry requested.
pub recover-Ends :
    (s : Exchange) (c : Cycle) (answer : Error ⊎ Decision) (decided_at : Int64)
    (interrupted : Option Error) (applied_at : Int64)
    → Fresh c
    → let d = recover s c answer decided_at interrupted applied_at in
      Ends d × Ledger (recoveries_ended s.log) d.exchange d.cycle
unfolding recover
recover-Ends s c answer decided_at interrupted applied_at fresh =
    let d = decide s c answer decided_at interrupted in
    let settles : Settles d =
      rw (decides_once s c answer decided_at interrupted fresh)
        (decide_answer-Settles s c answer decided_at interrupted) in
    (
      recover_result-Ends d.exchange d.cycle d.result applied_at settles,
      recover_result-Ledger (recoveries_ended s.log) d.exchange d.cycle d.result applied_at
          (decide-Ledger _ s c answer decided_at interrupted (not_yet_told s c fresh)),
    )
