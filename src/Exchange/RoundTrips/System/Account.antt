-- ===== src/Exchange/RoundTrips/System/Account.antt =====
-- internal/core/exchange: what the bookkeeping of round trips needs of an exchange, and that what
-- the modules are told leaves it alone.
use mathlib.Core.Path.{fun_ext}
use directive_proxy.Prelude.{
  ℕ, ◌+◌, ◌≡◌, refl, ◌∙◌, ap, Bool-cases, inl, inr, Bool, true, false, ◌==◌, Option, none, some,
  List, [], ◌∷◌, ◌++◌, Int64, arith, if◌then◌else◌, if_cases, String,
}
use directive_proxy.Exchange.{
  Phase, Error, Outcome, FinishCause, Observed, Emission, RoundTrip, Exchange, set_round_trip,
  dispatch_locked, count_metric, metric_started, metric_finished, observed, upstream_body_ended,
  round_trip_finished, round_trip_scope_finished, RecoveryOutcome, metric_recovery_started,
  metric_recovery_finished, recovery_started, recovery_finished, request_body_ended,
  downstream_body_ended, request_started, directive_prepared, round_trip_started, run_closed,
  finish_canceled,
}
use directive_proxy.Exchange.Lifecycle.{
  end_body, end_scope, finish_lifecycle, tell_recovery_started, tell_recovery_finished, configure,
  Configuration, open_scope, request_body_end, finish_downstream, announce, open_exchange,
  scope_ready, run_opens,
}

-- How many round trips the metrics saw begin, and end.
abbrev pub begun : List Emission → ℕ
begun [] = 0
begun (e ∷ es) = elim e [ metric_started ↦ 1 | _ ↦ 0 ] + begun es

abbrev pub ended : List Emission → ℕ
ended [] = 0
ended (e ∷ es) = elim e [ metric_finished o ↦ 1 | _ ↦ 0 ] + ended es

pub begun-append : (xs ys : List Emission) → begun (xs ++ ys) ≡ begun xs + begun ys
begun-append [] ys = omega arith
begun-append (x ∷ xs) ys = omega (arith, begun-append xs ys)

pub ended-append : (xs ys : List Emission) → ended (xs ++ ys) ≡ ended xs + ended ys
ended-append [] ys = omega arith
ended-append (x ∷ xs) ys = omega (arith, ended-append xs ys)

pub record Account : Type 0 where
  pub metrics : Bool
  pub phase : Phase
  pub current : Option Int64
  pub closed : Int64 → Bool
  pub count : Int64
  pub max : Int64
  pub completed : Bool
  pub begins : ℕ
  pub ends : ℕ

unfoldable pub account : Exchange → Account
account s = record {
  metrics = s.metrics;
  phase = s.phase;
  current = s.current;
  closed = λ k. (s.round_trips k).closed;
  count = s.round_trip_count;
  max = s.max_round_trips;
  completed = s.completed;
  begins = begun s.log;
  ends = ended s.log;
}

-- An emission that is no round trip's beginning or end.
pub account-log :
    (s : Exchange) (e : Emission)
    → begun (e ∷ []) ≡ 0
    → ended (e ∷ []) ≡ 0
    → account (record s { log = s.log ++ e ∷ [] }) ≡ account s
unfolding account
account-log s e b d = ground (arith, begun-append s.log (e ∷ []), ended-append s.log (e ∷ []))

pub account-set_round_trip :
    (s : Exchange) (n : Int64) (r : RoundTrip)
    → r.closed ≡ (s.round_trips n).closed
    → account (record s { round_trips = set_round_trip s.round_trips n r }) ≡ account s
unfolding account
account-set_round_trip s n r h =
    λ i. record (account s) { closed = fun_ext (same_closed s.round_trips n r h) i }
  where
    same_closed :
        (m : Int64 → RoundTrip) (n : Int64) (r : RoundTrip)
        → r.closed ≡ (m n).closed
        → (k : Int64) → (set_round_trip m n r k).closed ≡ (m k).closed
    same_closed m n r h k = ground arith

pub account-dispatch_locked :
    (s : Exchange) (n : Option Int64) (o : Observed) → account (dispatch_locked s n o) ≡ account s
unfolding dispatch_locked
account-dispatch_locked s n o =
    if_cases (λ t. account t ≡ account s) _ (λ h. account-log s (observed n o) refl refl)
      (λ h. refl)

account-end_body :
    (s : Exchange) (n : Int64) (cause : Option Error) (emit : Bool)
    → account (end_body s n cause emit) ≡ account s
unfolding end_body
account-end_body s n cause true = account-dispatch_locked s (some n) (upstream_body_ended cause)
account-end_body s n cause false = refl

account-end_scope :
    (s : Exchange) (n : Int64) (cause : FinishCause) → account (end_scope s n cause) ≡ account s
unfolding end_scope
account-end_scope s n cause =
    if_cases (λ t. account t ≡ account s) _
      (λ h.
        let r = record (s.round_trips n) { scope = false } in
        account-log (record s { round_trips = set_round_trip s.round_trips n r })
          (round_trip_scope_finished n cause) refl refl
        ∙ account-set_round_trip s n r refl)
      (λ h. refl)

-- A round trip is closed, and its end counted.
abbrev pub close_in : Account → Int64 → Account
close_in a n = record a {
  closed = λ k. if k == n then true else a.closed k;
  ends = a.ends + (if a.metrics then 1 else 0);
}

account-count_metric :
    (s : Exchange) (o : Outcome)
    → account (count_metric s (metric_finished o))
      ≡ record (account s) { ends = (account s).ends + (if s.metrics then 1 else 0) }
unfolding account count_metric
account-count_metric s o = ground (
  arith,
  begun-append s.log (metric_finished o ∷ []),
  ended-append s.log (metric_finished o ∷ []),
)

closed-set_round_trip :
    (s : Exchange) (n : Int64) (r : RoundTrip)
    → r.closed ≡ true
    → account (record s { round_trips = set_round_trip s.round_trips n r })
      ≡ record (account s) { closed = λ k. if k == n then true else (account s).closed k }
unfolding account
closed-set_round_trip s n r h =
    λ i. record (account s) { closed = fun_ext (pushed s.round_trips n r h) i }
  where
    pushed :
        (m : Int64 → RoundTrip) (n : Int64) (r : RoundTrip)
        → r.closed ≡ true
        → (k : Int64) → (set_round_trip m n r k).closed ≡ (if k == n then true else (m k).closed)
    pushed m n r h k = ground arith

-- A round trip ends at most once: a second end changes nothing.
pub account-finish_lifecycle :
    (s : Exchange) (n : Int64) (o : Outcome) (cause : FinishCause) (body : Option Error)
    (emit : Bool)
    → account (finish_lifecycle s n o cause body emit)
      ≡ (if (s.round_trips n).closed then account s else close_in (account s) n)
unfolding account finish_lifecycle
account-finish_lifecycle s n o cause body emit = elim (Bool-cases (s.round_trips n).closed) [
  | inl old ↦ rw old
  | inr new ↦
      let r = record (s.round_trips n) { closed = true } in
      let closed = record s { round_trips = set_round_trip s.round_trips n r } in
      let counted = count_metric closed (metric_finished o) in
      let told = end_body counted n body emit in
      rw new (
        account-end_scope (dispatch_locked told (some n) (round_trip_finished o)) n cause
        ∙ account-dispatch_locked told (some n) (round_trip_finished o)
        ∙ account-end_body counted n body emit
        ∙ account-count_metric closed o
        ∙ ap (λ (a : Account). record a { ends = a.ends + (if s.metrics then 1 else 0) })
            (closed-set_round_trip s n r refl))
]

account-count_other :
    (s : Exchange) (e : Emission)
    → begun (e ∷ []) ≡ 0
    → ended (e ∷ []) ≡ 0
    → account (count_metric s e) ≡ account s
unfolding count_metric
account-count_other s e b d =
    if_cases (λ t. account t ≡ account s) _ (λ h. account-log s e b d) (λ h. refl)

pub account-tell_recovery_started :
    (s : Exchange) (n : Int64) → account (tell_recovery_started s n) ≡ account s
unfolding tell_recovery_started
account-tell_recovery_started s n =
    account-dispatch_locked (count_metric s metric_recovery_started) (some n) recovery_started
    ∙ account-count_other s metric_recovery_started refl refl

pub account-tell_recovery_finished :
    (s : Exchange) (n : Int64) (o : RecoveryOutcome)
    → account (tell_recovery_finished s n o) ≡ account s
unfolding tell_recovery_finished
account-tell_recovery_finished s n o =
    account-dispatch_locked (count_metric s (metric_recovery_finished o)) (some n)
      (recovery_finished o)
    ∙ account-count_other s (metric_recovery_finished o) refl refl

account-announce : (s : Exchange) (e f : Option Error) → account (announce s e f).0 ≡ account s
unfolding announce
account-announce s (some e) f = account-dispatch_locked s none request_started
account-announce s none f =
    account-dispatch_locked (dispatch_locked s none request_started) none directive_prepared
    ∙ account-dispatch_locked s none request_started

account-opened :
    (s : Exchange) (b : Bool)
    → account (record s { run = true; exchange_scope = true; exchange_program = b }) ≡ account s
unfolding account
account-opened s b = refl

account-open_exchange :
    (s : Exchange) (k : Configuration) (e f : Option Error)
    → account (open_exchange s k e f).0 ≡ account s
unfolding open_exchange
account-open_exchange s k (some e) f = refl
account-open_exchange s k none (some e) = account-log s run_closed refl refl
account-open_exchange s k none none =
    let opened = record s {
      run = true;
      exchange_scope = true;
      exchange_program = k.has_programs;
    } in
    ground (
      arith,
      account-announce opened k.request_error k.directive_error,
      account-opened s k.has_programs,
    )

account-configured : (s : Exchange) → account (record s { configured = true }) ≡ account s
unfolding account
account-configured s = refl

pub account-configure : (s : Exchange) (k : Configuration) → account (configure s k).0 ≡ account s
unfolding configure
account-configure s k = ground (
  arith,
  account-configured s,
  account-open_exchange (record s { configured = true }) k k.start_error k.open_error,
)

account-scope_ready :
    (s : Exchange) (n : Int64) (has_programs : Bool) (e : Option Error)
    → account (scope_ready s n has_programs e).0 ≡ account s
unfolding scope_ready
account-scope_ready s n has_programs e =
    let marked = record (s.round_trips n) { scope_opened = true } in
    let ready = record marked { scope = true; program = has_programs } in
    ground (
      arith,
      account-log (record s { round_trips = set_round_trip s.round_trips n marked })
          (round_trip_scope_finished n finish_canceled) refl refl,
      account-set_round_trip s n marked refl,
      account-dispatch_locked (record s { round_trips = set_round_trip s.round_trips n ready })
          (some n) round_trip_started,
      account-set_round_trip s n ready refl,
    )

account-run_opens :
    (s : Exchange) (n : Int64) (open_error : Option Error) (has_programs : Bool) (e : Option Error)
    → account (run_opens s n open_error has_programs e).0 ≡ account s
unfolding run_opens
account-run_opens s n (some o) has_programs e =
    account-set_round_trip s n (record (s.round_trips n) { scope_opened = true }) refl
account-run_opens s n none has_programs e = account-scope_ready s n has_programs e

pub account-open_scope :
    (s : Exchange) (n : Int64) (open_error : Option Error) (has_programs : Bool) (e : Option Error)
    → account (open_scope s n open_error has_programs e).0 ≡ account s
unfolding open_scope
account-open_scope s n open_error has_programs e = ground (
  arith,
  account-set_round_trip s n (record (s.round_trips n) { scope_opened = true }) refl,
  account-run_opens s n open_error has_programs e,
)

pub account-request_body_end :
    (s : Exchange) (total : Int64) (digest : String) (complete : Bool)
    → account (request_body_end s total digest complete) ≡ account s
unfolding account request_body_end
account-request_body_end s total digest complete =
    if_cases (λ t. account t ≡ account s) _ (λ h. refl)
      (λ h.
        account-dispatch_locked (record s { request_body_ended = true }) none
          (request_body_ended total digest complete))

pub account-finish_downstream : (s : Exchange) → account (finish_downstream s) ≡ account s
unfolding account finish_downstream
account-finish_downstream s =
    if_cases (λ t. account t ≡ account s) _ (λ h. refl)
      (λ h.
        account-dispatch_locked (record s { downstream_ended = true }) s.downstream_round_trip
          downstream_body_ended)
