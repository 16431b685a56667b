-- ===== src/Exchange/RoundTrips/Retry.antt =====
-- internal/core/exchange/exchange.go and program.go: when a retry is granted, and that a granted
-- retry leads to the next round trip.
use directive_proxy.Prelude.{
  ◌≡◌, refl, Bool, true, false, ◌&&◌, ◌||◌, Option, none, some, Int64, IsInt64, IsNatural, arith,
  sle, slt, not, if◌then◌else◌, inl, inr, ◌⊎◌, ◌==◌,
}
use directive_proxy.Exchange.{
  Phase, Error, Exchange, retry_requested, max_round_trips_reached, recovery_budget_exceeded,
  idempotency_key_required, is_current, phase_retry_requested,
}
use directive_proxy.Exchange.RoundTrips.{
  request_recovery_retry, recovery_context, needs_key, awaits_recovery, grant_retry,
}

-- Whether a retry is allowed, against what the request for it answers.
abbrev pub Agrees : Exchange → Bool → Exchange × Option Error → Type 0
Agrees s allowed (s', refusal) =
    ((allowed ≡ true) × (refusal ≡ none) × (s'.phase ≡ retry_requested))
    ⊎ ((allowed ≡ false)
        × ((refusal ≡ some idempotency_key_required)
            ⊎ (refusal ≡ some max_round_trips_reached)
            ⊎ (refusal ≡ some recovery_budget_exceeded))
        × (s' ≡ s))

-- The limits, read by the context and by the request.
in_count : (max n : Int64) → IsInt64 max → IsInt64 n → slt n max ≡ not (sle max n)
in_count max n hm hn = ground arith

in_time :
    (limit elapsed : Int64)
    → IsNatural limit
    → IsInt64 elapsed
    → (limit == 0 || slt elapsed limit) ≡ not (slt 0 limit && sle limit elapsed)
in_time limit elapsed hl he = ground arith

by_tests :
    (s : Exchange) (n : Int64) (key over late : Bool)
    → Agrees s (if key then false else not over && not late) (
        if key
        then (s, some idempotency_key_required)
        else if over
        then (s, some max_round_trips_reached)
        else if late
        then (s, some recovery_budget_exceeded)
        else (grant_retry s n, none))
by_tests s n true over late = inr (refl, inl refl, refl)
by_tests s n false true late = inr (refl, inr (inl refl), refl)
by_tests s n false false true = inr (refl, inr (inr refl), refl)
by_tests s n false false false = inl (refl, refl, refl)

awaits_not_requested : (p : Phase) → awaits_recovery p ≡ true → phase_retry_requested p ≡ false
awaits_not_requested p h = ground arith

-- The answer to a request for the current round trip, while it is awaited or recovered.
request_while_recovering :
    (s : Exchange) (n elapsed : Int64)
    → s.completed ≡ false
    → is_current s n ≡ true
    → awaits_recovery s.phase ≡ true
    → request_recovery_retry s n elapsed ≡ (
        if needs_key s
        then (s, some idempotency_key_required)
        else if sle s.max_round_trips n
        then (s, some max_round_trips_reached)
        else if slt 0 s.max_elapsed && sle s.max_elapsed elapsed
        then (s, some recovery_budget_exceeded)
        else (grant_retry s n, none))
unfolding request_recovery_retry
request_while_recovering s n elapsed c k p = rw (c, k, awaits_not_requested s.phase p, p) refl

-- What a recovery is told and what it then gets agree: for the current round trip, while it awaits
-- its response or recovers, and at one reading of the clock, either RecoveryContext allows a retry,
-- RequestRecoveryRetry grants it and the phase says so; or it does not, the request is refused for
-- the missing idempotency key, the limit on round trips or the time, and nothing changes. The
-- exchange is not completed, the numbers are int64, and the time limit is not negative.
pub retry_allowed-Agrees :
    (s : Exchange) (n elapsed : Int64)
    → IsInt64 s.max_round_trips
    → IsInt64 n
    → IsNatural s.max_elapsed
    → IsInt64 elapsed
    → s.completed ≡ false
    → is_current s n ≡ true
    → awaits_recovery s.phase ≡ true
    → Agrees s (recovery_context s n elapsed).retry_allowed (request_recovery_retry s n elapsed)
unfolding recovery_context
retry_allowed-Agrees s n elapsed max_int n_int limit_nat elapsed_int c k p =
    rw
      (
        request_while_recovering s n elapsed c k p,
        in_count s.max_round_trips n max_int n_int,
        in_time s.max_elapsed elapsed limit_nat elapsed_int,
      )
      (by_tests s n (needs_key s) (sle s.max_round_trips n)
        (slt 0 s.max_elapsed && sle s.max_elapsed elapsed))
