-- ===== src/Exchange/RoundTrips/System/Numbers.antt =====
-- internal/core/exchange: the number of round trips that have begun, and the limit of the policy.
use directive_proxy.Prelude.{
  ◌+◌, ◌≡◌, refl, ◌∙◌, ap, Bool, true, false, Bool-cases, inl, inr, Option, none, some, List, [],
  ◌∷◌, Int64, arith, if◌then◌else◌, if_cases,
}
use directive_proxy.Exchange.{
  Exchange, Error, Outcome, FinishCause, Phase, is_current, recovery_decided, streaming_response,
  finished, canceled_for_retry, finish_replaced, ended_without_response, finish_failed,
  transport_error, finish_canceled, retry_requested, awaiting_response,
}
use directive_proxy.Exchange.Lifecycle.{
  finish_lifecycle, is_cancellation, finish_cause_for_body, request_body_end, finish_downstream,
  tell_recovery_decided,
}
use directive_proxy.Exchange.RoundTrips.{
  Finish, retries, streams, ends, finish_as, finish_kind, finish_round_trip, finish_upstream,
  drop_cancel, leave_current, finish_current, tell_request_finished, end_exchange_scope,
  complete_now, complete_outcome, complete, begin_round_trip, begin_body_stream, begin_recovery,
  begin_upstream,
}
use directive_proxy.Exchange.RoundTrips.System
use directive_proxy.Exchange.RoundTrips.System.{
  Call, step, run, answers, granted, streams_body, configures, begins, opens, goes_upstream,
  recovers, finishes, sees_response, sends_headers, ends_request_body, ends_response_body,
  tells_started, tells_decided, tells_finished, completes,
}
use directive_proxy.Exchange.RoundTrips.System.Account.{
  Account, account, account-dispatch_locked, account-configure, account-open_scope,
  account-request_body_end, account-tell_recovery_started, account-tell_recovery_finished,
}
use directive_proxy.Exchange.RoundTrips.System.Books.{Inv, close_if, close_if_left}
use directive_proxy.Exchange.RoundTrips.System.Beginning.{
  request_recovery_retry-Moves, account-upstream,
}
use directive_proxy.Exchange.RoundTrips.System.Ending.{
  account-left, account-drop_cancel, finish_lifecycle-close_if, account-tell_request_finished,
  account-end_exchange_scope, account-close_run, account-bodies,
}
use directive_proxy.Exchange.RoundTrips.System.Told.{
  account-observe_upstream_response, account-response_headers,
}

-- What leaves the count of round trips and their limit.
record Counts (a a' : Account) : Type 0 where
  count : a'.count ≡ a.count
  limit : a'.max ≡ a.max

same : {a a' : Account} → a' ≡ a → Counts a a'
same e = record { count = ap (λ (x : Account). x.count) e; limit = ap (λ (x : Account). x.max) e }

Counts-trans : {a b c : Account} → Counts a b → Counts b c → Counts a c
Counts-trans f g = record { count = g.count ∙ f.count; limit = g.limit ∙ f.limit }

-- A call after fields other than these two were set.
after_setting : {a b c : Account} → b.count ≡ a.count → b.max ≡ a.max → Counts b c → Counts a c
after_setting e f g = record { count = g.count ∙ e; limit = g.limit ∙ f }

close_if-Counts : (a : Account) (n : Int64) → Counts a (close_if a n)
close_if-Counts a n =
    let (x, y, z, count, max) = close_if_left a n in record { count = count; limit = max }

left-Counts :
    (s : Exchange) (n : Int64) (p : Phase) (o : Outcome) (cause : FinishCause)
    → Counts (account s) (
        account (
          finish_lifecycle
            (drop_cancel (record s { current = none; phase = p }) n)
            n
            o
            cause
            none
            false))
unfolding account
left-Counts s n p o cause =
    after_setting {b = record (account s) { current = none; phase = p }} refl refl (
      Counts-trans (close_if-Counts (record (account s) { current = none; phase = p }) n)
        (same (account-left s n p o cause)))

finish_as-Counts :
    (s : Exchange) (n : Int64) (f : Finish) → Counts (account s) (account (finish_as s n f).0)
unfolding account finish_as
finish_as-Counts s n retries = left-Counts s n s.phase canceled_for_retry finish_replaced
finish_as-Counts s n streams =
    after_setting {b = account (record s { phase = streaming_response })} refl refl
      (same (account-drop_cancel (record s { phase = streaming_response }) n))
finish_as-Counts s n (ends none) = left-Counts s n finished ended_without_response finish_failed
finish_as-Counts s n (ends (some e)) =
    left-Counts s n finished transport_error
      (if is_cancellation e then finish_canceled else finish_failed)

finish_round_trip-Counts :
    (s : Exchange) (n : Int64) (started : Bool) (err ctx_err : Option Error)
    → Counts (account s) (account (finish_round_trip s n started err ctx_err).0)
unfolding finish_round_trip
finish_round_trip-Counts s n started err ctx_err = elim (Bool-cases (is_current s n)) [
  | inl c ↦ rw c (finish_as-Counts s n (finish_kind s started err ctx_err))
  | inr c ↦ rw c (same refl)
]

leave_current-Counts : (s : Exchange) (n : Int64) → Counts (account s) (account (leave_current s n))
unfolding account
leave_current-Counts s n = record { count = ground arith; limit = ground arith }

finish_upstream-Counts :
    (s : Exchange) (n : Int64) (cause : Option Error)
    → Counts (account s) (account (finish_upstream s n cause))
unfolding finish_upstream
finish_upstream-Counts s n cause =
    let (outcome, finish_cause) = finish_cause_for_body cause in
    Counts-trans
      (Counts-trans (close_if-Counts (account s) n)
        (same (finish_lifecycle-close_if s n outcome finish_cause cause true)))
      (leave_current-Counts (finish_lifecycle s n outcome finish_cause cause true) n)

finish_current-Counts :
    (s : Exchange) (current : Option Int64) (o : Outcome) (cause : FinishCause)
    → Counts (account s) (account (finish_current s current o cause))
unfolding finish_current
finish_current-Counts s none o cause = (same refl)
finish_current-Counts s (some n) o cause =
    Counts-trans (close_if-Counts (account s) n)
      (same (finish_lifecycle-close_if s n o cause none false))

complete_now-Counts :
    (s : Exchange) (o : Outcome) (cause : FinishCause)
    → Counts (account s) (account (complete_now s o cause))
unfolding account complete_now
complete_now-Counts s o cause =
    let bodies = finish_downstream (request_body_end s 0 "" false) in
    let last = record bodies { current = none; phase = finished } in
    let final = finish_current last bodies.current o cause in
    let told = end_exchange_scope (tell_request_finished final o) cause in
    let first : Counts (account s) (account final) =
      Counts-trans {b = account bodies} (same (account-bodies s)) (
        after_setting {b = account last} refl refl
          (finish_current-Counts last bodies.current o cause)) in
    let then_told : Counts (account s) (account told) = Counts-trans first (
      same (
        account-end_exchange_scope (tell_request_finished final o) cause
        ∙ account-tell_request_finished final o)) in
    Counts-trans {b = account told} then_told (
      after_setting {b = account (record told { completed = true })} refl refl
        (same (account-close_run (record told { completed = true }))))

complete-Counts :
    (s : Exchange) (ctx_err : Option Error) → Counts (account s) (account (complete s ctx_err))
unfolding complete account
complete-Counts s ctx_err =
    let (outcome, cause) = complete_outcome ctx_err in
    if_cases (λ t. Counts (account s) (account t)) s.complete_once (λ h. (same refl))
      (λ h. complete_now-Counts (record s { complete_once = true }) outcome cause)

retry-Counts :
    (s : Exchange) (n elapsed : Int64)
    → Counts (account s) (account (step s (System.retries n elapsed)))
unfolding step
retry-Counts s n elapsed = elim (request_recovery_retry-Moves s n elapsed) [
  | inl e ↦ same e
  | inr (e, f) ↦
      after_setting {b = record (account s) { phase = retry_requested }} refl refl (same e)
]

begin_upstream-Counts :
    (s : Exchange) (n : Int64) (ctx_err : Option Error)
    → Counts (account s) (account (begin_upstream s n ctx_err).0)
unfolding begin_upstream
begin_upstream-Counts s n (some e) = (same refl)
begin_upstream-Counts s n none = elim (Bool-cases (is_current s n)) [
  | inl c ↦ rw c (
      after_setting {b = record (account s) { phase = awaiting_response }} refl refl
        (same (account-upstream s n)))
  | inr c ↦ rw c (same refl)
]

stream-Counts : (s : Exchange) → Counts (account s) (account (begin_body_stream s))
unfolding account begin_body_stream
stream-Counts s = record { count = ground arith; limit = ground arith }

recovery-Counts : (s : Exchange) (n : Int64) → Counts (account s) (account (begin_recovery s n).0)
unfolding account begin_recovery
recovery-Counts s n = record { count = ground arith; limit = ground arith }

-- A call: the count grows by the round trip that it begins, and the limit stays.
record Steps (s : Exchange) (c : Call) : Type 0 where
  counted : (step s c).round_trip_count ≡ s.round_trip_count + answers s c
  limited : (step s c).max_round_trips ≡ s.max_round_trips

none_begun :
    (s : Exchange) (c : Call)
    → answers s c ≡ 0
    → Counts (account s) (account (step s c))
    → Steps s c
unfolding account
none_begun s c z k = record { counted = ground (arith, k.count); limited = k.limit }

begins-Steps : (s : Exchange) (ctx_err : Option Error) → Inv (account s) → Steps s (begins ctx_err)
unfolding account step answers begin_round_trip
begins-Steps s ctx_err (b, h) = record { counted = ground arith; limited = ground arith }

step-Steps : (s : Exchange) (c : Call) → Inv (account s) → Steps s c
unfolding step answers tell_recovery_decided account
step-Steps s streams_body v = none_begun s _ refl (stream-Counts s)
step-Steps s (configures k) v = none_begun s _ refl (same (account-configure s k))
step-Steps s (begins ctx_err) v = begins-Steps s ctx_err v
step-Steps s (opens n e b f) v = none_begun s _ refl (same (account-open_scope s n e b f))
step-Steps s (goes_upstream n ctx_err) v = none_begun s _ refl (begin_upstream-Counts s n ctx_err)
step-Steps s (recovers n) v = none_begun s _ refl (recovery-Counts s n)
step-Steps s (System.retries n elapsed) v = none_begun s _ refl (retry-Counts s n elapsed)
step-Steps s (finishes n started err ctx_err) v =
    none_begun s _ refl (finish_round_trip-Counts s n started err ctx_err)
step-Steps s (sees_response n status) v =
    none_begun s _ refl (same (account-observe_upstream_response s n status))
step-Steps s (sends_headers status) v =
    none_begun s _ refl (same (account-response_headers s status))
step-Steps s (ends_request_body total digest complete) v =
    none_begun s _ refl (same (account-request_body_end s total digest complete))
step-Steps s (ends_response_body n cause) v = none_begun s _ refl (finish_upstream-Counts s n cause)
step-Steps s (tells_started n) v = none_begun s _ refl (same (account-tell_recovery_started s n))
step-Steps s (tells_decided n) v =
    none_begun s _ refl (same (account-dispatch_locked s (some n) recovery_decided))
step-Steps s (tells_finished n outcome) v =
    none_begun s _ refl (same (account-tell_recovery_finished s n outcome))
step-Steps s (completes ctx_err) v = none_begun s _ refl (complete-Counts s ctx_err)

-- After any calls, the count is that of the round trips that were begun, and the limit is the same.
pub record Granted (s : Exchange) (cs : List Call) : Type 0 where
  pub counted : (run s cs).round_trip_count ≡ s.round_trip_count + granted s cs
  pub limited : (run s cs).max_round_trips ≡ s.max_round_trips

pub run-Granted :
    (step-Inv : (s : Exchange) (c : Call) → Inv (account s) → Inv (account (step s c)))
    (s : Exchange) (cs : List Call)
    → Inv (account s)
    → Granted s cs
unfolding run granted
run-Granted step-Inv s [] v = record { counted = omega arith; limited = refl }
run-Granted step-Inv s (c ∷ cs) v =
    let one = step-Steps s c v in
    let rest = run-Granted step-Inv (step s c) cs (step-Inv s c v) in
    record {
      counted = ground (arith, one.counted, rest.counted);
      limited = rest.limited ∙ one.limited;
    }
