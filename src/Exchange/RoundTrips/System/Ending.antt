-- ===== src/Exchange/RoundTrips/System/Ending.antt =====
-- internal/core/exchange/exchange.go, program.go and response.go: the calls that end a round trip or
-- the exchange keep the books.
use directive_proxy.Prelude.{
  ◌≡◌, refl, ap, ◌∙◌, sym, subst, Bool, true, false, inl, inr, Option, none, some, Int64, arith,
  if◌then◌else◌, Bool-cases, if_cases,
}
use directive_proxy.Exchange.{
  Phase, Error, Outcome, FinishCause, Exchange, is_current, phase_finished, streaming_response,
  finished, ended_without_response, finish_failed, transport_error, finish_canceled, run_closed,
  exchange_scope_finished, request_finished, observed, canceled_for_retry, finish_replaced,
}
use directive_proxy.Exchange.Lifecycle.{
  finish_lifecycle, is_cancellation, finish_cause_for_body, request_body_end, finish_downstream,
}
use directive_proxy.Exchange.RoundTrips.System.Account.{Account, account, account-set_round_trip}
use directive_proxy.Exchange.RoundTrips.{
  drop_cancel, finish_as, finish_round_trip, finish_upstream, leave_current, tell_request_finished,
  end_exchange_scope, complete_now, finish_current, close_run, complete, retries, streams, ends,
  Finish, finish_kind, complete_outcome,
}
use directive_proxy.Exchange.RoundTrips.System.Account.{
  account-finish_lifecycle, account-request_body_end, account-finish_downstream, account-log,
}
use directive_proxy.Exchange.RoundTrips.System.Beginning.{unfinished}
use directive_proxy.Exchange.RoundTrips.System.Books.{
  Inv, rephase-Inv, close_if, give_up-Inv, close_if-Inv, close_if-closed,
}

pub finish_lifecycle-close_if :
    (s : Exchange) (n : Int64) (o : Outcome) (cause : FinishCause) (body : Option Error)
    (emit : Bool)
    → account (finish_lifecycle s n o cause body emit) ≡ close_if (account s) n
unfolding account
finish_lifecycle-close_if s n o cause body emit = account-finish_lifecycle s n o cause body emit

pub account-drop_cancel : (s : Exchange) (n : Int64) → account (drop_cancel s n) ≡ account s
account-drop_cancel s n =
    account-set_round_trip s n (record (s.round_trips n) { cancel = false }) refl

pub account-left :
    (s : Exchange) (n : Int64) (p : Phase) (o : Outcome) (cause : FinishCause)
    → account (
        finish_lifecycle
          (drop_cancel (record s { current = none; phase = p }) n)
          n
          o
          cause
          none
          false)
      ≡ close_if (record (account s) { current = none; phase = p }) n
unfolding account
account-left s n p o cause =
    let left = record s { current = none; phase = p } in
    finish_lifecycle-close_if (drop_cancel left n) n o cause none false
    ∙ ap (λ (a : Account). close_if a n) (account-drop_cancel left n)

left-Inv :
    (s : Exchange) (n : Int64) (p : Phase) (o : Outcome) (cause : FinishCause)
    → s.current ≡ some n
    → Inv (account s)
    → Inv (
        account (
          finish_lifecycle
            (drop_cancel (record s { current = none; phase = p }) n)
            n
            o
            cause
            none
            false))
unfolding account
left-Inv s n p o cause c v =
    subst Inv (sym (account-left s n p o cause)) (give_up-Inv (account s) n p c v)

finish_as-Inv :
    (s : Exchange) (n : Int64) (f : Finish)
    → s.current ≡ some n
    → phase_finished s.phase ≡ false
    → Inv (account s)
    → Inv (account (finish_as s n f).0)
unfolding account finish_as
finish_as-Inv s n retries c f v = left-Inv s n s.phase canceled_for_retry finish_replaced c v
finish_as-Inv s n streams c f v =
    subst Inv (sym (account-drop_cancel (record s { phase = streaming_response }) n))
      (rephase-Inv (account s) streaming_response f refl v)
finish_as-Inv s n (ends none) c f v = left-Inv s n finished ended_without_response finish_failed c v
finish_as-Inv s n (ends (some e)) c f v =
    left-Inv s n finished transport_error
      (if is_cancellation e then finish_canceled else finish_failed) c v

is_current→ : (s : Exchange) (n : Int64) → is_current s n ≡ true → s.current ≡ some n
is_current→ s n h = ground arith

pub finish_round_trip-Inv :
    (s : Exchange) (n : Int64) (started : Bool) (err ctx_err : Option Error)
    → Inv (account s)
    → Inv (account (finish_round_trip s n started err ctx_err).0)
unfolding finish_round_trip
finish_round_trip-Inv s n started err ctx_err v = elim (Bool-cases (is_current s n)) [
  | inl c ↦ rw c (
      finish_as-Inv s n (finish_kind s started err ctx_err) (is_current→ s n c) (unfinished s n v c)
        v)
  | inr c ↦ rw c v
]

leave_current-Inv :
    (s : Exchange) (n : Int64)
    → (s.round_trips n).closed ≡ true
    → Inv (account s)
    → Inv (account (leave_current s n))
unfolding account
leave_current-Inv s n c (b, h) = (ground arith, λ k. ground (arith, h k))

pub finish_upstream-Inv :
    (s : Exchange) (n : Int64) (cause : Option Error)
    → Inv (account s)
    → Inv (account (finish_upstream s n cause))
unfolding account finish_upstream
finish_upstream-Inv s n cause v =
    let (outcome, finish_cause) = finish_cause_for_body cause in
    let closes = finish_lifecycle-close_if s n outcome finish_cause cause true in
    leave_current-Inv (finish_lifecycle s n outcome finish_cause cause true) n
      (ap (λ (a : Account). a.closed n) closes ∙ close_if-closed (account s) n)
      (subst Inv (sym closes) (close_if-Inv (account s) n v))

-- The books of an exchange that is finished.
abbrev Done : Account → Type 0
Done a = Inv a × (phase_finished a.phase ≡ true)

close_if_phase : (a : Account) (n : Int64) → (close_if a n).phase ≡ a.phase
close_if_phase a n = ground arith

finish_current-Done :
    (s : Exchange) (current : Option Int64) (o : Outcome) (cause : FinishCause)
    → s.current ≡ current
    → Inv (account s)
    → Done
        (account (finish_current (record s { current = none; phase = finished }) current o cause))
unfolding account finish_current
finish_current-Done s none o cause e (b, h) = ((ground arith, λ k. ground (arith, h k)), refl)
finish_current-Done s (some n) o cause e v =
    let closes =
      finish_lifecycle-close_if (record s { current = none; phase = finished }) n o cause none
        false in
    subst Done (sym closes) (
      give_up-Inv (account s) n finished e v,
      ap phase_finished
          (close_if_phase (record (account s) { current = none; phase = finished }) n),
    )

pub account-tell_request_finished :
    (s : Exchange) (o : Outcome) → account (tell_request_finished s o) ≡ account s
unfolding tell_request_finished
account-tell_request_finished s o =
    if_cases (λ t. account t ≡ account s) _
      (λ h. account-log s (observed none (request_finished o s.response_status)) refl refl)
      (λ h. refl)

pub account-end_exchange_scope :
    (s : Exchange) (cause : FinishCause) → account (end_exchange_scope s cause) ≡ account s
unfolding account end_exchange_scope
account-end_exchange_scope s cause =
    if_cases (λ t. account t ≡ account s) s.exchange_scope
      (λ h. account-log s (exchange_scope_finished cause) refl refl) (λ h. refl)

pub account-close_run : (s : Exchange) → account (close_run s) ≡ account s
account-close_run s =
    if_cases (λ t. account t ≡ account s) _ (λ h. account-log s run_closed refl refl) (λ h. refl)

set_completed-Inv : (a : Account) → Done a → Inv (record a { completed = true })
set_completed-Inv a ((b, h), f) = (ground arith, λ k. ground (arith, h k))

pub account-bodies :
    (s : Exchange) → account (finish_downstream (request_body_end s 0 "" false)) ≡ account s
account-bodies s =
    account-finish_downstream (request_body_end s 0 "" false)
    ∙ account-request_body_end s 0 "" false

complete_now-Inv :
    (s : Exchange) (o : Outcome) (cause : FinishCause)
    → Inv (account s)
    → Inv (account (complete_now s o cause))
unfolding account complete_now
complete_now-Inv s o cause v =
    let bodies = finish_downstream (request_body_end s 0 "" false) in
    let final =
      finish_current (record bodies { current = none; phase = finished }) bodies.current o cause in
    let told = end_exchange_scope (tell_request_finished final o) cause in
    let done =
      finish_current-Done bodies bodies.current o cause refl
        (subst Inv (sym (account-bodies s)) v) in
    let same =
      account-end_exchange_scope (tell_request_finished final o) cause
      ∙ account-tell_request_finished final o in
    subst Inv (sym (account-close_run (record told { completed = true })))
      (set_completed-Inv (account told) (subst Done (sym same) done))

pub complete-Inv :
    (s : Exchange) (ctx_err : Option Error) → Inv (account s) → Inv (account (complete s ctx_err))
unfolding account complete
complete-Inv s ctx_err v =
    let (outcome, cause) = complete_outcome ctx_err in
    if_cases (λ t. Inv (account t)) s.complete_once (λ h. v)
      (λ h. complete_now-Inv (record s { complete_once = true }) outcome cause v)
