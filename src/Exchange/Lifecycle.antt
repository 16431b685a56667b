-- ===== src/Exchange/Lifecycle.antt =====
-- internal/core/exchange/program.go and response.go: what the modules are told of an exchange and
-- of its round trips, and when their scopes open and end.
use directive_proxy.Prelude.{
  String, Bool, true, false, not, ◌||◌, ◌==◌, Option, none, some, [], ◌∷◌, ◌++◌, Int64,
  if◌then◌else◌,
}
use directive_proxy.Exchange.{
  Error, Outcome, FinishCause, Exchange, set_round_trip, is_current, phase_finished, count_metric,
  dispatch_locked, directive_invalid, exchange_configured, canceled, program_runtime_unavailable,
  round_trip_scope_opened, request_started, directive_prepared, request_body_ended,
  upstream_response_started, upstream_body_ended, downstream_response_started,
  downstream_body_ended, round_trip_started, round_trip_finished, metric_finished,
  round_trip_scope_finished, run_closed, interrupted, completed, finish_completed, finish_canceled,
  finish_failed, eof, deadline_exceeded, RecoveryOutcome, metric_recovery_started,
  metric_recovery_finished, recovery_started, recovery_decided, recovery_finished,
}

-- What Configure is given, and what the program runtime answers: StartRun and OpenExchange may fail,
-- the scope may have no programs, and the programs may fail.
pub record Configuration : Type 0 where
  pub has_target : Bool
  pub has_program : Bool
  pub start_error : Option Error
  pub open_error : Option Error
  pub has_programs : Bool
  pub request_error : Option Error
  pub directive_error : Option Error

-- The two calls of the exchange's programs at the end of Configure.
unfoldable pub announce : Exchange → Option Error → Option Error → Exchange × Option Error
unfolding dispatch_locked
announce s (some e) directive_error = (dispatch_locked s none request_started, some e)
announce s none directive_error = (
  dispatch_locked (dispatch_locked s none request_started) none directive_prepared,
  directive_error,
)

unfoldable pub open_exchange :
    Exchange → Configuration → Option Error → Option Error → Exchange × Option Error
unfolding announce
open_exchange s k (some e) open_error = (s, some e)
open_exchange s k none (some e) = (record s { log = s.log ++ run_closed ∷ [] }, some e)
open_exchange s k none none =
    let opened = record s {
      run = true;
      exchange_scope = true;
      exchange_program = k.has_programs;
    } in
    if k.has_programs then announce opened k.request_error k.directive_error else (opened, none)

unfoldable pub configure : Exchange → Configuration → Exchange × Option Error
unfolding open_exchange
configure s k =
    if not k.has_target
    then (s, some directive_invalid)
    else if s.configured
    then (s, some exchange_configured)
    else if s.completed || phase_finished s.phase || not (s.round_trip_count == 0)
    then (s, some canceled)
    else (let configured = record s { configured = true } in
        if not k.has_program
        then (configured, none)
        else if not s.runtime
        then (configured, some program_runtime_unavailable)
        else open_exchange configured k k.start_error k.open_error)

unfoldable pub request_body_end : Exchange → Int64 → String → Bool → Exchange
unfolding dispatch_locked
request_body_end s total digest complete =
    if s.request_body_ended
    then s
    else dispatch_locked (record s { request_body_ended = true }) none
        (request_body_ended total digest complete)

-- OpenScope after OpenRoundTrip has made a scope. The round trip may have ended, the scopes may have
-- no programs, and the programs may fail.
unfoldable pub scope_ready :
    Exchange → Int64 → (has_programs : Bool) (start_error : Option Error) → Exchange × Option Error
unfolding dispatch_locked
scope_ready s n has_programs start_error =
    let marked = record (s.round_trips n) { scope_opened = true } in
    if (s.round_trips n).closed
    then (
      record s {
        round_trips = set_round_trip s.round_trips n marked;
        log = s.log ++ round_trip_scope_finished n finish_canceled ∷ [];
      },
      some canceled,
    )
    else (let opened = record s {
      round_trips =
          set_round_trip s.round_trips n (record marked { scope = true; program = has_programs });
    } in
        if has_programs
        then (dispatch_locked opened (some n) round_trip_started, start_error)
        else (opened, none))

unfoldable pub run_opens :
    Exchange
    → Int64
    → (open_error : Option Error) (has_programs : Bool) (start_error : Option Error)
    → Exchange × Option Error
unfolding scope_ready
run_opens s n (some e) has_programs start_error =
    let marked = record (s.round_trips n) { scope_opened = true } in
    (record s { round_trips = set_round_trip s.round_trips n marked }, some e)
run_opens s n none has_programs start_error = scope_ready s n has_programs start_error

-- OpenScope of a round trip. The checks before and after OpenRoundTrip see the same exchange, since
-- the method is one step.
unfoldable pub open_scope :
    Exchange
    → Int64
    → (open_error : Option Error) (has_programs : Bool) (start_error : Option Error)
    → Exchange × Option Error
unfolding run_opens
open_scope s n open_error has_programs start_error =
    let trip = s.round_trips n in
    if s.completed || not (is_current s n)
    then (s, some canceled)
    else if trip.scope_opened
    then (s, some round_trip_scope_opened)
    else if not s.run
    then (
      record s {
        round_trips = set_round_trip s.round_trips n (record trip { scope_opened = true });
      },
      none,
    )
    else run_opens s n open_error has_programs start_error

-- The end of a round trip, once: `closed` is set by a compare-and-swap.
unfoldable pub end_body : Exchange → Int64 → Option Error → Bool → Exchange
unfolding dispatch_locked
end_body s n body_cause emit_body_end =
    if emit_body_end then dispatch_locked s (some n) (upstream_body_ended body_cause) else s

unfoldable pub end_scope : Exchange → Int64 → FinishCause → Exchange
end_scope s n cause =
    if (s.round_trips n).scope
    then record s {
      round_trips = set_round_trip s.round_trips n (record (s.round_trips n) { scope = false });
      log = s.log ++ round_trip_scope_finished n cause ∷ [];
    }
    else s

unfoldable pub finish_lifecycle :
    Exchange
    → Int64
    → Outcome
    → FinishCause
    → (body_cause : Option Error) → (emit_body_end : Bool) → Exchange
unfolding count_metric end_body end_scope dispatch_locked
finish_lifecycle s n outcome cause body_cause emit_body_end =
    let trip = s.round_trips n in
    if trip.closed
    then s
    else (let closed = record s {
      round_trips = set_round_trip s.round_trips n (record trip { closed = true });
    } in
        let counted = count_metric closed (metric_finished outcome) in
        let ended = end_body counted n body_cause emit_body_end in
        end_scope (dispatch_locked ended (some n) (round_trip_finished outcome)) n cause)

abbrev pub is_cancellation : Error → Bool
is_cancellation e = elim e [ canceled ↦ true | deadline_exceeded ↦ true | _ ↦ false ]

unfoldable pub finish_cause_for_body : Option Error → Outcome × FinishCause
finish_cause_for_body none = (completed, finish_completed)
finish_cause_for_body (some eof) = (completed, finish_completed)
finish_cause_for_body (some e) =
    (interrupted, if is_cancellation e then finish_canceled else finish_failed)

-- ObserveUpstreamResponse, but for the body that it wraps.
unfoldable pub observe_upstream_response : Exchange → Int64 → Int64 → Exchange
unfolding dispatch_locked
observe_upstream_response s n status =
    if (s.round_trips n).closed
    then s
    else dispatch_locked s (some n) (upstream_response_started status)

unfoldable pub response_headers : Exchange → Int64 → Exchange
unfolding dispatch_locked
response_headers s status =
    dispatch_locked (record s { response_status = status; downstream_round_trip = s.current })
      s.current (downstream_response_started status)

-- finishDownstream, but for the observer that projects the body.
unfoldable pub finish_downstream : Exchange → Exchange
unfolding dispatch_locked
finish_downstream s =
    if s.downstream_ended
    then s
    else dispatch_locked (record s { downstream_ended = true }) s.downstream_round_trip
        downstream_body_ended

-- RecoveryStarted, RecoveryDecided and RecoveryFinished of a round trip.
unfoldable pub tell_recovery_started : Exchange → Int64 → Exchange
unfolding count_metric dispatch_locked
tell_recovery_started s n =
    dispatch_locked (count_metric s metric_recovery_started) (some n) recovery_started

unfoldable pub tell_recovery_decided : Exchange → Int64 → Exchange
unfolding dispatch_locked
tell_recovery_decided s n = dispatch_locked s (some n) recovery_decided

unfoldable pub tell_recovery_finished : Exchange → Int64 → RecoveryOutcome → Exchange
unfolding count_metric dispatch_locked
tell_recovery_finished s n outcome =
    dispatch_locked (count_metric s (metric_recovery_finished outcome)) (some n)
      (recovery_finished outcome)
