-- ===== src/Exchange/RoundTrips/System/Invariant.antt =====
-- internal/core/exchange: what holds of an exchange and its round trips after any sequence of calls.
use directive_proxy.Prelude.{
  ◌≡◌, ◌≤◌, refl, sym, subst, Bool, true, false, List, [], ◌∷◌, Int64, IsInt64, arith, String, none,
  some, Option, if_cases, inr,
}
use directive_proxy.Exchange.{
  Exchange, phase_finished, Outcome, FinishCause, Error, new_exchange, recovery_decided,
}
use directive_proxy.Exchange.Lifecycle.{tell_recovery_decided}
use directive_proxy.Exchange.RoundTrips.{
  Budget, configure_recovery, complete, complete_now, complete_outcome, close_run,
}
use directive_proxy.Exchange.RoundTrips.System.{
  Call, step, run, start, granted, streams_body, configures, begins, opens, goes_upstream, recovers,
  retries, finishes, sees_response, sends_headers, ends_request_body, ends_response_body,
  tells_started, tells_decided, tells_finished, completes,
}
use directive_proxy.Exchange.RoundTrips.System.Account.{
  account, begun, ended, account-dispatch_locked, account-configure, account-open_scope,
  account-request_body_end, account-tell_recovery_started, account-tell_recovery_finished,
}
use directive_proxy.Exchange.RoundTrips.System.Told.{
  account-observe_upstream_response, account-response_headers,
}
use directive_proxy.Exchange.RoundTrips.System.Numbers.{Granted, run-Granted}
use directive_proxy.Exchange.RoundTrips.System.Books.{Inv, Moves-Inv}
use directive_proxy.Exchange.RoundTrips.System.Beginning.{
  begin_body_stream-Inv, begin_round_trip-Books, begin_round_trip-Settled, begin_recovery-Inv,
  request_recovery_retry-Moves, begin_upstream-Moves,
}
use directive_proxy.Exchange.RoundTrips.System.Ending.{
  finish_round_trip-Inv, finish_upstream-Inv, complete-Inv,
}

-- An account that a call leaves alone.
kept : (s t : Exchange) → account t ≡ account s → Inv (account s) → Inv (account t)
kept s t e v = subst Inv (sym e) v

step-Inv : (s : Exchange) (c : Call) → Inv (account s) → Inv (account (step s c))
unfolding step tell_recovery_decided
step-Inv s streams_body v = begin_body_stream-Inv s v
step-Inv s (configures k) v = kept s _ (account-configure s k) v
step-Inv s (begins ctx_err) v =
    (begin_round_trip-Books s ctx_err v.0, λ k. begin_round_trip-Settled s ctx_err k (v.1 k))
step-Inv s (opens n e b f) v = kept s _ (account-open_scope s n e b f) v
step-Inv s (goes_upstream n ctx_err) v =
    Moves-Inv _ (account s) _ refl (begin_upstream-Moves s n ctx_err v) v
step-Inv s (recovers n) v = begin_recovery-Inv s n v
step-Inv s (retries n elapsed) v =
    Moves-Inv _ (account s) _ refl (request_recovery_retry-Moves s n elapsed) v
step-Inv s (finishes n started err ctx_err) v = finish_round_trip-Inv s n started err ctx_err v
step-Inv s (sees_response n status) v = kept s _ (account-observe_upstream_response s n status) v
step-Inv s (sends_headers status) v = kept s _ (account-response_headers s status) v
step-Inv s (ends_request_body total digest complete) v =
    kept s _ (account-request_body_end s total digest complete) v
step-Inv s (ends_response_body n cause) v = finish_upstream-Inv s n cause v
step-Inv s (tells_started n) v = kept s _ (account-tell_recovery_started s n) v
step-Inv s (tells_decided n) v = kept s _ (account-dispatch_locked s (some n) recovery_decided) v
step-Inv s (tells_finished n outcome) v = kept s _ (account-tell_recovery_finished s n outcome) v
step-Inv s (completes ctx_err) v = complete-Inv s ctx_err v

pub run-Inv : (s : Exchange) (cs : List Call) → Inv (account s) → Inv (account (run s cs))
unfolding run
run-Inv s [] v = v
run-Inv s (c ∷ cs) v = run-Inv (step s c) cs (step-Inv s c v)

close_run-completed : (s : Exchange) → (close_run s).completed ≡ s.completed
close_run-completed s = ground arith

complete_now-completed :
    (s : Exchange) (o : Outcome) (cause : FinishCause) → (complete_now s o cause).completed ≡ true
unfolding complete_now
complete_now-completed s o cause = close_run-completed _

complete-completed :
    (s : Exchange) (ctx_err : Option Error)
    → s.complete_once ≡ false
    → (complete s ctx_err).completed ≡ true
unfolding complete
complete-completed s ctx_err first =
    let (outcome, cause) = complete_outcome ctx_err in
    if_cases (λ (t : Exchange). t.completed ≡ true) s.complete_once (λ h. cc)
      (λ h. complete_now-completed (record s { complete_once = true }) outcome cause)

all_ended :
    (s : Exchange)
    → s.completed ≡ true
    → Inv (account s)
    → (s.completed ≡ true)
      × (phase_finished s.phase ≡ true)
      × (s.current ≡ none)
      × (ended s.log ≡ begun s.log)
unfolding account
all_ended s c (b, h) = (c, ground arith, ground arith, ground arith)

within_limit :
    (s : Exchange) (cs : List Call)
    → s.round_trip_count ≡ 0
    → Inv (account (run s cs))
    → Granted s cs
    → Inv (account (run s cs))
      × (granted s cs ≡ (run s cs).round_trip_count)
      × (granted s cs ≤ s.max_round_trips)
unfolding account
within_limit s cs z (b, h) g =
    ((b, h), ground (arith, g.counted), ground (arith, g.counted, g.limited, b.bounded))

module _ (metrics runtime : Bool) (max : Int64) (method key : String) (budget : Budget)
    (max_round_trips max_elapsed : Int64) (int_budget : IsInt64 budget.max_round_trips)
    (int_max : IsInt64 max_round_trips) where
  start-Inv :
      Inv (account (start metrics runtime max method key budget max_round_trips max_elapsed))
  unfolding start new_exchange configure_recovery account
  start-Inv = (ground arith, λ k. inr refl)

  start-limit :
      let s = start metrics runtime max method key budget max_round_trips max_elapsed in
      s.round_trip_count ≡ 0
  unfolding start new_exchange configure_recovery
  start-limit = refl

  -- After any sequence of calls on an exchange, the calls that BeginRoundTrip answered with a round
  -- trip are no more than the limit that was set for the exchange at its start; only the newest can be
  -- open, and only while it is current; all others have ended; the metrics, if there are any, have seen
  -- each that began, and the end of each but the open one, so none ends twice; a finished exchange has
  -- no current round trip, and a completed one is finished. The limits of the policy and of the proxy
  -- are int64.
  pub run-start-Books :
      (cs : List Call)
      → let s = start metrics runtime max method key budget max_round_trips max_elapsed in
        Inv (account (run s cs))
        × (granted s cs ≡ (run s cs).round_trip_count)
        × (granted s cs ≤ s.max_round_trips)
  run-start-Books cs =
      let s = start metrics runtime max method key budget max_round_trips max_elapsed in
      let v : Inv (account (run s cs)) = run-Inv s cs start-Inv in
      let g = run-Granted step-Inv s cs start-Inv in within_limit s cs start-limit v g

  -- Whenever Complete is first called, whatever was called before it, the exchange is then completed
  -- and finished, no round trip is current, and each that began has ended: the metrics have counted
  -- as many ends as beginnings. The limits of the policy and of the proxy are int64.
  pub complete-balanced :
      (cs : List Call) (ctx_err : Option Error)
      → (run
          (start metrics runtime max method key budget max_round_trips max_elapsed)
          cs).complete_once
        ≡ false
      → let s = run (start metrics runtime max method key budget max_round_trips max_elapsed) cs in
        let t = complete s ctx_err in
        (t.completed ≡ true)
        × (phase_finished t.phase ≡ true)
        × (t.current ≡ none)
        × (ended t.log ≡ begun t.log)
  complete-balanced cs ctx_err first =
      let s = run (start metrics runtime max method key budget max_round_trips max_elapsed) cs in
      all_ended (complete s ctx_err) (complete-completed s ctx_err first)
        (complete-Inv s ctx_err (run-start-Books cs).0)
