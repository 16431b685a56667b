-- ===== src/Exchange/RoundTrips/System/NextRoundTrip.antt =====
-- internal/core/exchange/exchange.go and program.go: a granted retry leads to the next round trip.
use directive_proxy.Prelude.{
  ◌≡◌, refl, ap, ◌∙◌, Bool, true, false, Option, none, some, Int64, arith, add64, sle, if_cases,
  inr,
}
use directive_proxy.Exchange.{
  Error, Exchange, Outcome, FinishCause, Observed, Emission, retry, is_current, phase_finished,
  dispatch_locked, count_metric, canceled_for_retry, finish_replaced, metric_finished,
  round_trip_finished, retry_requested, set_round_trip,
}
use directive_proxy.Exchange.Lifecycle.{end_body, end_scope, finish_lifecycle}
use directive_proxy.Exchange.RoundTrips.{
  begin_round_trip, request_recovery_retry, finish_round_trip, finish_as, retries, grant_retry,
  awaits_recovery, drop_cancel, finish_kind,
}
use directive_proxy.Exchange.RoundTrips.System.Account.{Account, account}
use directive_proxy.Exchange.RoundTrips.System.Books.{Inv, close_if_left}
use directive_proxy.Exchange.RoundTrips.System.Ending.{account-left}

dispatch_locked-configured :
    (s : Exchange) (n : Option Int64) (o : Observed)
    → (dispatch_locked s n o).configured ≡ s.configured
unfolding dispatch_locked
dispatch_locked-configured s n o = ground arith

end_scope-configured :
    (s : Exchange) (n : Int64) (cause : FinishCause)
    → (end_scope s n cause).configured ≡ s.configured
unfolding end_scope
end_scope-configured s n cause = ground arith

count_metric-configured :
    (s : Exchange) (m : Emission) → (count_metric s m).configured ≡ s.configured
unfolding count_metric
count_metric-configured s m = ground arith

finish_lifecycle-configured :
    (s : Exchange) (n : Int64) (o : Outcome) (cause : FinishCause)
    → (finish_lifecycle s n o cause none false).configured ≡ s.configured
unfolding finish_lifecycle end_body
finish_lifecycle-configured s n o cause =
    let r = record (s.round_trips n) { closed = true } in
    let closed = record s { round_trips = set_round_trip s.round_trips n r } in
    let counted = count_metric closed (metric_finished o) in
    if_cases (λ (t : Exchange). t.configured ≡ s.configured) (s.round_trips n).closed (λ h. refl)
      (λ h.
        end_scope-configured (dispatch_locked counted (some n) (round_trip_finished o)) n cause
        ∙ dispatch_locked-configured counted (some n) (round_trip_finished o)
        ∙ count_metric-configured closed (metric_finished o))

-- What a granted request shows of an exchange that was waiting for it.
granted_state :
    (s : Exchange) (n elapsed : Int64)
    → awaits_recovery s.phase ≡ true
    → (request_recovery_retry s n elapsed).1 ≡ none
    → ((request_recovery_retry s n elapsed).0 ≡ grant_retry s n)
      × (s.completed ≡ false)
      × (s.current ≡ some n)
      × (sle s.max_round_trips n ≡ false)
unfolding request_recovery_retry
granted_state s n elapsed p g = (ground arith, ground arith, ground arith, ground arith)

-- The next round trip begins where nothing forbids it.
begins_next :
    (s : Exchange)
    → s.completed ≡ false
    → phase_finished s.phase ≡ false
    → s.current ≡ none
    → sle s.max_round_trips s.round_trip_count ≡ false
    → s.configured ≡ true
    → (begin_round_trip s none).1 ≡ inr (add64 s.round_trip_count 1)
unfolding begin_round_trip
begins_next s c p k m f = ground arith

is_current_of : (s : Exchange) (n : Int64) → s.current ≡ some n → is_current s n ≡ true
is_current_of s n c = ground arith

finishes_for_retry :
    (s : Exchange) (started : Bool) (err : Option Error)
    → s.phase ≡ retry_requested
    → finish_kind s started err none ≡ retries
finishes_for_retry s started err p = ground arith

-- The end of a round trip whose retry was granted.
finish_granted :
    (s : Exchange) (n : Int64) (started : Bool) (err : Option Error)
    → s.current ≡ some n
    → s.phase ≡ retry_requested
    → finish_round_trip s n started err none ≡ finish_as s n retries
unfolding finish_round_trip
finish_granted s n started err c p =
    rw (is_current_of s n c, finishes_for_retry s started err p) refl

-- The exchange that such an end leaves.
abbrev ended_for_retry : Exchange → Int64 → Exchange
ended_for_retry s n =
    finish_lifecycle (drop_cancel (record s { current = none; phase = s.phase }) n) n
      canceled_for_retry finish_replaced none false

next_begins :
    (s : Exchange) (n : Int64)
    → s.phase ≡ retry_requested
    → s.completed ≡ false
    → s.configured ≡ true
    → s.round_trip_count ≡ n
    → sle s.max_round_trips n ≡ false
    → (begin_round_trip (ended_for_retry s n) none).1 ≡ inr (add64 n 1)
unfolding account
next_begins s n p c f k m =
    let e = account-left s n s.phase canceled_for_retry finish_replaced in
    let (completed, phase, current, count, max) =
      close_if_left (record (account s) { current = none; phase = s.phase }) n in
    let counted : (ended_for_retry s n).round_trip_count ≡ n =
      ap (λ (a : Account). a.count) e ∙ count ∙ k in
    let limit : (ended_for_retry s n).max_round_trips ≡ s.max_round_trips =
      ap (λ (a : Account). a.max) e ∙ max in
    begins_next (ended_for_retry s n) (ap (λ (a : Account). a.completed) e ∙ completed ∙ c)
      (ap (λ (a : Account). phase_finished a.phase) e ∙ ap phase_finished (phase ∙ p))
      (ap (λ (a : Account). a.current) e ∙ current)
      (ap (λ m. sle m (ended_for_retry s n).round_trip_count) limit
        ∙ ap (sle s.max_round_trips) counted
        ∙ m)
      (finish_lifecycle-configured (drop_cancel (record s { current = none; phase = s.phase }) n) n
          canceled_for_retry finish_replaced
        ∙ f)
    ∙ ap (λ k. inr (add64 k 1)) counted

leads_on :
    (s : Exchange) (n : Int64) (started : Bool) (err : Option Error)
    → s.current ≡ some n
    → s.phase ≡ retry_requested
    → (begin_round_trip (ended_for_retry s n) none).1 ≡ inr (add64 n 1)
    → let (f, decision) = finish_round_trip s n started err none in
      (decision ≡ retry) × ((begin_round_trip f none).1 ≡ inr (add64 n 1))
unfolding finish_as
leads_on s n started err c p b = rw (finish_granted s n started err c p) (refl, b)

newest : (s : Exchange) (n : Int64) → Inv (account s) → s.current ≡ some n → s.round_trip_count ≡ n
unfolding account
newest s n (b, h) c = ground arith

-- A granted retry is honoured: when RequestRecoveryRetry grants it to a round trip that awaits its
-- response or recovers, then FinishRoundTrip, whatever the round trip's own result, decides for the
-- retry, and BeginRoundTrip begins the next round trip, with the next number. The exchange is
-- configured, its books are right, and the context is not done.
pub retry_leads_on :
    (s : Exchange) (n elapsed : Int64) (started : Bool) (err : Option Error)
    → Inv (account s)
    → s.configured ≡ true
    → awaits_recovery s.phase ≡ true
    → (request_recovery_retry s n elapsed).1 ≡ none
    → let s' = (request_recovery_retry s n elapsed).0 in
      let (f, decision) = finish_round_trip s' n started err none in
      (decision ≡ retry) × ((begin_round_trip f none).1 ≡ inr (add64 n 1))
retry_leads_on s n elapsed started err v configured p g =
    let (same, active, current, room) = granted_state s n elapsed p g in
    rw same (
      leads_on (grant_retry s n) n started err current refl
        (next_begins (grant_retry s n) n refl active configured (newest s n v current) room))
