-- ===== src/Exchange/RecoveryCycle/Delay.antt =====
-- internal/core/exchange/recovery.go: the check of a decision's delay against the time that remains.
use directive_proxy.Prelude.{
  ℕ, ◌*◌, ◌≡◌, ◌≤◌, ◌<◌, refl, true, false, ◌&&◌, Option, Int64, IsNatural, int64_min, arith, ◌⊎◌,
  inl, inr, Bool-cases, slt, sle, leb, leb→le,
}
use directive_proxy.Exchange.{Error, Exchange, recovery_budget_exceeded, budget_rejected}
use directive_proxy.Exchange.RecoveryCycle.{
  Decision, Cycle, CycleError, from_exchange, after_wait, decide_delay, milliseconds,
}
use directive_proxy.Exchange.RecoveryCycle.Outcomes.{finish-result, finish-finished}

asks_to_wait : (a : ℕ) → 0 < a → a < int64_min → sle a 0 ≡ false
asks_to_wait a p b = ground arith

delay_test :
    (r a : ℕ)
    → IsNatural r
    → 0 < r
    → a * 1000000 < int64_min
    → (slt 0 r && sle r (milliseconds a)) ≡ leb r (a * 1000000)
delay_test r a nat p b = ground arith

overlong_test :
    (r a : ℕ)
    → IsNatural r
    → int64_min ≤ a * 1000000
    → a * 1000000 < 18446744073709551616
    → (slt 0 r && sle r (milliseconds a)) ≡ false
overlong_test r a nat low high = ground arith

shorter : (a b : ℕ) → leb a b ≡ false → b < a
shorter a b h = ground arith

-- The wait that a decision asks for is checked against the time that remains: for a delay of less
-- than 2 ^ 63 nanoseconds, and while time remains, Decide goes on to wait exactly for a delay that
-- is shorter than that; any other ends the recovery as rejected by the budget.
pub delay_within_budget :
    (s : Exchange) (c : Cycle) (d : Decision) (remaining : Int64) (interrupted : Option Error)
    → IsNatural remaining
    → 0 < remaining
    → 0 < d.after_ms
    → d.after_ms * 1000000 < int64_min
    → ((d.after_ms * 1000000 < remaining)
        × (decide_delay s c d remaining interrupted ≡ after_wait s c d interrupted))
      ⊎ ((remaining ≤ d.after_ms * 1000000)
          × ((decide_delay s c d remaining interrupted).result
              ≡ inl (from_exchange recovery_budget_exceeded))
          × ((decide_delay s c d remaining interrupted).cycle.finished ≡ true))
unfolding decide_delay
delay_within_budget s c d remaining interrupted nat pos asks bound =
    let late : CycleError ⊎ Decision = inl (from_exchange recovery_budget_exceeded) in
    let asked = asks_to_wait d.after_ms asks (omega arith) in
    let test = delay_test remaining d.after_ms nat pos bound in
    elim (Bool-cases (leb remaining (d.after_ms * 1000000))) [
      | inl h ↦ inr (
        leb→le _ _ h,
        rw (asked, test, h) (finish-result s c budget_rejected late),
        rw (asked, test, h) (finish-finished s c budget_rejected late),
      )
      | inr h ↦ inl (shorter _ _ h, rw (asked, test, h) refl)
    ]

-- The product of the delay and a millisecond is an int64: from 2 ^ 63 nanoseconds on it is negative
-- up to 2 ^ 64, and the check lets such a delay pass, however little time remains.
pub overlong_delay_passes :
    (s : Exchange) (c : Cycle) (d : Decision) (remaining : Int64) (interrupted : Option Error)
    → IsNatural remaining
    → int64_min ≤ d.after_ms * 1000000
    → d.after_ms * 1000000 < 18446744073709551616
    → decide_delay s c d remaining interrupted ≡ after_wait s c d interrupted
unfolding decide_delay
overlong_delay_passes s c d remaining interrupted nat low high =
    rw
      (
        asks_to_wait d.after_ms (omega arith) (omega arith),
        overlong_test remaining d.after_ms nat low high,
      )
      refl
