-- ===== src/Exchange/RoundTrips/System.antt =====
-- internal/core/exchange: one exchange through any sequence of the methods that the proxy's
-- goroutines call on it, with any answers of the clock, the context and the modules.
pub mod Account
pub mod Books
pub mod Beginning
pub mod Ending
pub mod NextRoundTrip
pub mod Told
pub mod Numbers
pub mod Invariant
use directive_proxy.Prelude.{ℕ, ◌+◌, ◌⊎◌, inl, inr, String, Bool, Option, List, [], ◌∷◌, Int64}
use directive_proxy.Exchange.{Error, RecoveryOutcome, Exchange, new_exchange}
use directive_proxy.Exchange.Lifecycle.{
  Configuration, configure, request_body_end, open_scope, observe_upstream_response,
  response_headers, finish_downstream, tell_recovery_started, tell_recovery_decided,
  tell_recovery_finished,
}
use directive_proxy.Exchange.RoundTrips.{
  Budget, begin_body_stream, begin_round_trip, request_recovery_retry, configure_recovery,
  begin_recovery, begin_upstream, finish_round_trip, finish_upstream, complete,
}

pub data Call : Type 0 where
  streams_body : Call
  configures : Configuration → Call
  begins : (ctx_err : Option Error) → Call
  opens : Int64 → Option Error → Bool → Option Error → Call
  goes_upstream : Int64 → (ctx_err : Option Error) → Call
  recovers : Int64 → Call
  retries : Int64 → (elapsed : Int64) → Call
  finishes : Int64 → Bool → (round_trip_err ctx_err : Option Error) → Call
  sees_response : Int64 → (status : Int64) → Call
  sends_headers : (status : Int64) → Call
  ends_request_body : Int64 → String → Bool → Call
  ends_response_body : Int64 → Option Error → Call
  tells_started tells_decided : Int64 → Call
  tells_finished : Int64 → RecoveryOutcome → Call
  completes : (ctx_err : Option Error) → Call

unfoldable pub step : Exchange → Call → Exchange
step s streams_body = begin_body_stream s
step s (configures k) = (configure s k).0
step s (begins ctx_err) = (begin_round_trip s ctx_err).0
step s (opens n open_error has_programs start_error) =
    (open_scope s n open_error has_programs start_error).0
step s (goes_upstream n ctx_err) = (begin_upstream s n ctx_err).0
step s (recovers n) = (begin_recovery s n).0
step s (retries n elapsed) = (request_recovery_retry s n elapsed).0
step s (finishes n started err ctx_err) = (finish_round_trip s n started err ctx_err).0
step s (sees_response n status) = observe_upstream_response s n status
step s (sends_headers status) = response_headers s status
step s (ends_request_body total digest complete) = request_body_end s total digest complete
step s (ends_response_body n cause) = finish_upstream s n cause
step s (tells_started n) = tell_recovery_started s n
step s (tells_decided n) = tell_recovery_decided s n
step s (tells_finished n outcome) = tell_recovery_finished s n outcome
step s (completes ctx_err) = complete s ctx_err

unfoldable pub run : Exchange → List Call → Exchange
run s [] = s
run s (c ∷ cs) = run (step s c) cs

-- How many of the calls BeginRoundTrip answers with a new round trip.
abbrev pub is_begun : Error ⊎ Int64 → ℕ
is_begun (inl e) = 0
is_begun (inr n) = 1

unfoldable pub answers : Exchange → Call → ℕ
answers s (begins ctx_err) = is_begun (begin_round_trip s ctx_err).1
answers s _ = 0

unfoldable pub granted : Exchange → List Call → ℕ
granted s [] = 0
granted s (c ∷ cs) = answers s c + granted (step s c) cs

-- An exchange of a manager with a recovery policy: the proxy sets the policy's limits before the
-- first round trip.
unfoldable pub start :
    (metrics runtime : Bool)
    → Int64
    → (method idempotency_key : String) → Budget
    → (max_round_trips max_elapsed : Int64) → Exchange
start metrics runtime max method idempotency_key budget max_round_trips max_elapsed =
    configure_recovery (new_exchange metrics runtime max method idempotency_key) budget
      max_round_trips max_elapsed
