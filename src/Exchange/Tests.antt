-- ===== src/Exchange/Tests.antt =====
-- internal/core/exchange: the theorems at concrete inputs, and runs of the code.
use directive_proxy.Prelude.{
  ℕ, ◌≡◌, refl, true, false, none, some, List, [], ◌∷◌, arith, inl, inr, ◌⊎◌, ◌*◌, ◌<◌, ◌≤◌, add64,
}
use directive_proxy.Exchange.{
  Exchange, phase_finished, canceled, new_exchange, retry, recovery_budget_exceeded,
}
use directive_proxy.Exchange.Lifecycle.{Configuration}
use directive_proxy.Exchange.Lifecycle
use directive_proxy.Exchange.RoundTrips
use directive_proxy.Exchange.RoundTrips.{
  Budget, new_round_trip, request_recovery_retry, recovery_context, finish_round_trip,
  begin_round_trip, complete,
}
use directive_proxy.Exchange.RoundTrips.Retry.{Agrees, retry_allowed-Agrees}
use directive_proxy.Exchange.RoundTrips.System.{
  Call, run, start, configures, begins, opens, goes_upstream, recovers, retries, finishes,
  ends_response_body, completes, sends_headers, granted,
}
use directive_proxy.Exchange.RoundTrips.System
use directive_proxy.Exchange.RoundTrips.System.Account.{account, begun, ended}
use directive_proxy.Exchange.RoundTrips.System.Books.{Inv}
use directive_proxy.Exchange.RoundTrips.System.Invariant.{run-start-Books, complete-balanced}
use directive_proxy.Exchange.RoundTrips.System.NextRoundTrip.{retry_leads_on}
use directive_proxy.Exchange.RecoveryCycle.{
  Cycle, Decision, unexpected_status, retry_action, recover, decide_delay, after_wait,
  from_exchange,
}
use directive_proxy.Exchange.RecoveryCycle.Once.{Ledger, recoveries_ended}
use directive_proxy.Exchange.RecoveryCycle.Outcomes.{Ends, recover-Ends}
use directive_proxy.Exchange.RecoveryCycle.Delay.{delay_within_budget, overlong_delay_passes}

abbrev budget : Budget
budget = record { max_round_trips = 2; max_elapsed = 900 }

abbrev no_modules : Configuration
no_modules = record {
  has_target = true;
  has_program = false;
  start_error = none;
  open_error = none;
  has_programs = false;
  request_error = none;
  directive_error = none;
}

-- A first round trip that is retried, and a second whose response is sent.
abbrev retried : List Call
retried =
    configures no_modules
    ∷ begins none
    ∷ opens 1 none false none
    ∷ goes_upstream 1 none
    ∷ recovers 1
    ∷ retries 1 100
    ∷ finishes 1 false (some canceled) none
    ∷ begins none
    ∷ goes_upstream 2 none
    ∷ finishes 2 true none none
    ∷ sends_headers 200
    ∷ []

run-start-Books_example :
    let s = start true true 1 "GET" "" budget 5 0 in
    Inv (account (run s retried))
    × (granted s retried ≡ (run s retried).round_trip_count)
    × (granted s retried ≤ s.max_round_trips)
run-start-Books_example =
    run-start-Books true true 1 "GET" "" budget 5 0 (omega arith) (omega arith) retried

abbrev once_completed : Exchange
once_completed = complete (run (start true true 1 "GET" "" budget 5 0) retried) none

not_completed : (run (start true true 1 "GET" "" budget 5 0) retried).complete_once ≡ false
unfolding System.run System.step System.start RoundTrips.configure_recovery new_exchange
    Lifecycle.configure begin_round_trip Lifecycle.open_scope RoundTrips.begin_upstream
    RoundTrips.begin_recovery request_recovery_retry finish_round_trip Lifecycle.response_headers
not_completed = refl

complete-balanced_example :
    (once_completed.completed ≡ true)
    × (phase_finished once_completed.phase ≡ true)
    × (once_completed.current ≡ none)
    × (ended once_completed.log ≡ begun once_completed.log)
complete-balanced_example =
    complete-balanced true true 1 "GET" "" budget 5 0 (omega arith) (omega arith) retried none
      not_completed

two_begun : begun (run (start true true 1 "GET" "" budget 5 0) retried).log ≡ 2
unfolding System.run System.step System.start RoundTrips.configure_recovery new_exchange
    Lifecycle.configure begin_round_trip Lifecycle.open_scope RoundTrips.begin_upstream
    RoundTrips.begin_recovery request_recovery_retry finish_round_trip Lifecycle.response_headers
two_begun = refl

two_granted : granted (start true true 1 "GET" "" budget 5 0) retried ≡ 2
unfolding System.granted System.answers System.step System.start RoundTrips.configure_recovery
    new_exchange Lifecycle.configure begin_round_trip Lifecycle.open_scope RoundTrips.begin_upstream
    RoundTrips.begin_recovery request_recovery_retry finish_round_trip Lifecycle.response_headers
two_granted = refl

-- An exchange whose first round trip recovers.
abbrev until_recovery : List Call
until_recovery =
    configures no_modules
    ∷ begins none
    ∷ opens 1 none false none
    ∷ goes_upstream 1 none
    ∷ recovers 1
    ∷ []

abbrev recovering_first : Exchange
recovering_first = run (start true true 1 "POST" "k-1" budget 5 0) until_recovery

retry_allowed-Agrees_example :
    Agrees recovering_first
      (recovery_context recovering_first 1 100).retry_allowed
      (request_recovery_retry recovering_first 1 100)
unfolding System.run System.step System.start RoundTrips.configure_recovery new_exchange
    Lifecycle.configure begin_round_trip Lifecycle.open_scope RoundTrips.begin_upstream
    RoundTrips.begin_recovery
retry_allowed-Agrees_example =
    retry_allowed-Agrees recovering_first 1 100 (omega arith) (omega arith) (omega arith)
      (omega arith) refl refl refl

retry_leads_on_example :
    let s' = (request_recovery_retry recovering_first 1 100).0 in
    let (f, decision) = finish_round_trip s' 1 false (some canceled) none in
    (decision ≡ retry) × ((begin_round_trip f none).1 ≡ inr (add64 1 1))
unfolding System.run System.step System.start RoundTrips.configure_recovery new_exchange
    Lifecycle.configure begin_round_trip Lifecycle.open_scope RoundTrips.begin_upstream
    RoundTrips.begin_recovery request_recovery_retry
retry_leads_on_example =
    retry_leads_on recovering_first 1 100 false (some canceled)
      (run-start-Books true true 1 "POST" "k-1" budget 5 0 (omega arith) (omega arith)
        until_recovery).0
      refl refl refl

-- A cycle for the status of the first response.
abbrev new_cycle : Cycle
new_cycle = record {
  round_trip = 1;
  trigger = unexpected_status;
  response = true;
  decision = none;
  deciding = false;
  finished = false;
}

abbrev retry_after : ℕ → Decision
retry_after ms = record { action = retry_action; after_ms = ms }

recover-Ends_example :
    let d = recover recovering_first new_cycle (inr (retry_after 0)) 100 none 101 in
    Ends d × Ledger (recoveries_ended recovering_first.log) d.exchange d.cycle
recover-Ends_example =
    recover-Ends recovering_first new_cycle (inr (retry_after 0)) 100 none 101 (refl, refl, refl)

delay_within_budget_example :
    (((retry_after 2).after_ms * 1000000 < 3000000)
      × (decide_delay recovering_first new_cycle (retry_after 2) 3000000 none
          ≡ after_wait recovering_first new_cycle (retry_after 2) none))
    ⊎ ((3000000 ≤ (retry_after 2).after_ms * 1000000)
        × ((decide_delay recovering_first new_cycle (retry_after 2) 3000000 none).result
            ≡ inl (from_exchange recovery_budget_exceeded))
        × ((decide_delay recovering_first new_cycle (retry_after 2) 3000000 none).cycle.finished
            ≡ true))
delay_within_budget_example =
    delay_within_budget recovering_first new_cycle (retry_after 2) 3000000 none (omega arith)
      (omega arith) (omega arith) (omega arith)

overlong_delay_passes_example :
    decide_delay recovering_first new_cycle (retry_after 9223372036855) 3000000 none
    ≡ after_wait recovering_first new_cycle (retry_after 9223372036855) none
overlong_delay_passes_example =
    overlong_delay_passes recovering_first new_cycle (retry_after 9223372036855) 3000000 none
      (omega arith) (omega arith) (omega arith)
