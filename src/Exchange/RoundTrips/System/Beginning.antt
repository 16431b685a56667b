-- ===== src/Exchange/RoundTrips/System/Beginning.antt =====
-- internal/core/exchange/exchange.go: the calls that begin a round trip, send it upstream, and ask
-- for its retry keep the books.
use directive_proxy.Prelude.{
  ◌≡◌, refl, true, false, inl, inr, Option, none, some, [], ◌∷◌, Int64, arith, ◌||◌, Bool-cases,
}
use directive_proxy.Exchange.{
  Error, Exchange, is_current, phase_finished, metric_started, retry_requested, awaiting_response,
  upstream_started, dispatch_locked,
}
use directive_proxy.Exchange.RoundTrips.{
  begin_round_trip, begin_body_stream, request_recovery_retry, begin_recovery, begin_upstream,
  grant_retry,
}
use directive_proxy.Exchange.RoundTrips.System.Account.{
  account, begun-append, ended-append, account-dispatch_locked, account-set_round_trip,
}
use directive_proxy.Exchange.RoundTrips.System.Books.{Books, Settled, Inv, Moves}

pub begin_body_stream-Inv : (s : Exchange) → Inv (account s) → Inv (account (begin_body_stream s))
unfolding begin_body_stream account
begin_body_stream-Inv s (b, h) = (ground arith, λ k. ground (arith, h k))

pub begin_round_trip-Books :
    (s : Exchange) (e : Option Error) → Books (account s) → Books (account (begin_round_trip s e).0)
unfolding begin_round_trip account
begin_round_trip-Books s e b =
    ground
      (arith, begun-append s.log (metric_started ∷ []), ended-append s.log (metric_started ∷ []))

pub begin_round_trip-Settled :
    (s : Exchange) (e : Option Error) (k : Int64)
    → Settled (account s) k
    → Settled (account (begin_round_trip s e).0) k
unfolding begin_round_trip account
begin_round_trip-Settled s e k h = ground arith

pub begin_recovery-Inv :
    (s : Exchange) (n : Int64) → Inv (account s) → Inv (account (begin_recovery s n).0)
unfolding begin_recovery account
begin_recovery-Inv s n (b, h) = (ground arith, λ k. ground (arith, h k))

pub account-grant_retry :
    (s : Exchange) (n : Int64)
    → account (grant_retry s n) ≡ record (account s) { phase = retry_requested }
unfolding account
account-grant_retry s n =
    account-set_round_trip (record s { phase = retry_requested }) n
      (record (s.round_trips n) {
        canceled = (s.round_trips n).canceled || (s.round_trips n).cancel;
      })
      refl

pub account_phase : (s : Exchange) → (account s).phase ≡ s.phase
unfolding account
account_phase s = refl

pub request_recovery_retry-Moves :
    (s : Exchange) (n elapsed : Int64)
    → Moves retry_requested (account s) (account (request_recovery_retry s n elapsed).0)
unfolding request_recovery_retry
request_recovery_retry-Moves s n elapsed = ground (arith, account-grant_retry s n, account_phase s)

pub account-upstream :
    (s : Exchange) (n : Int64)
    → account (dispatch_locked (record s { phase = awaiting_response }) (some n) upstream_started)
      ≡ record (account s) { phase = awaiting_response }
unfolding account
account-upstream s n =
    account-dispatch_locked (record s { phase = awaiting_response }) (some n) upstream_started

-- The current round trip keeps the exchange from being finished.
pub unfinished :
    (s : Exchange) (n : Int64)
    → Inv (account s)
    → is_current s n ≡ true
    → phase_finished s.phase ≡ false
unfolding account
unfinished s n (b, h) c = ground arith

pub begin_upstream-Moves :
    (s : Exchange) (n : Int64) (ctx_err : Option Error)
    → Inv (account s)
    → Moves awaiting_response (account s) (account (begin_upstream s n ctx_err).0)
unfolding account begin_upstream
begin_upstream-Moves s n (some e) v = inl refl
begin_upstream-Moves s n none v = elim (Bool-cases (is_current s n)) [
  | inl c ↦ rw c (inr (account-upstream s n, unfinished s n v c))
  | inr c ↦ rw c (inl refl)
]
