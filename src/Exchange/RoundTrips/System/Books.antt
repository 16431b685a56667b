-- ===== src/Exchange/RoundTrips/System/Books.antt =====
-- internal/core/exchange: the invariant of the bookkeeping of round trips, on the account alone.
use directive_proxy.Prelude.{
  ℕ, ◌+◌, ◌≤◌, ◌≡◌, sym, subst, Bool, true, false, ◌==◌, ◌⊎◌, inl, inr, Option, none, some, Int64,
  arith, IsNatural, if◌then◌else◌,
}
use directive_proxy.Exchange.{Phase, phase_finished}
use directive_proxy.Exchange.RoundTrips.System.Account.{Account, close_in}

-- Whether a round trip is still open.
abbrev pub open_trips : Account → ℕ
open_trips a = elim a.current [ none ↦ 0 | some n ↦ if a.closed n then 0 else 1 ]

abbrev pub Numbered : Account → Type 0
Numbered a = elim a.current [ none ↦ Unit | some n ↦ n ≡ a.count ]

pub record Books (a : Account) : Type 0 where
  pub numbered : Numbered a
  pub bounded : a.count ≤ a.max
  pub natural : IsNatural a.max
  pub counted : a.begins ≡ (if a.metrics then a.count else 0)
  pub balanced : a.begins ≡ a.ends + (if a.metrics then open_trips a else 0)
  pub final : (phase_finished a.phase ≡ false) ⊎ (a.current ≡ none)
  pub done : (a.completed ≡ false) ⊎ (phase_finished a.phase ≡ true)

-- Whether a round trip is the current one.
abbrev pub holds : Option Int64 → Int64 → Bool
holds current k = elim current [ none ↦ false | some n ↦ n == k ]

abbrev pub Settled : Account → Int64 → Type 0
Settled a k = (holds a.current k ≡ true) ⊎ (a.closed k ≡ true)

abbrev pub Inv : Account → Type 0
Inv a = Books a × ((k : Int64) → Settled a k)

-- Another phase while the exchange is not finished.
pub rephase-Inv :
    (a : Account) (p : Phase)
    → phase_finished a.phase ≡ false
    → phase_finished p ≡ false
    → Inv a
    → Inv (record a { phase = p })
rephase-Inv a p f g (b, h) = (ground arith, λ k. ground (arith, h k))

-- What a call leaves of the account: all of it, or all but the phase of an unfinished exchange.
abbrev pub Moves : Phase → Account → Account → Type 0
Moves p a a' = (a' ≡ a) ⊎ ((a' ≡ record a { phase = p }) × (phase_finished a.phase ≡ false))

pub Moves-Inv :
    (p : Phase) (a a' : Account) → phase_finished p ≡ false → Moves p a a' → Inv a → Inv a'
Moves-Inv p a a' f (inl e) v = subst Inv (sym e) v
Moves-Inv p a a' f (inr (e, g)) v = subst Inv (sym e) (rephase-Inv a p g f v)

-- The current round trip is given up, and closed if it was not.
abbrev pub close_if : Account → Int64 → Account
close_if a n = if a.closed n then a else close_in a n

pub give_up-Inv :
    (a : Account) (n : Int64) (p : Phase)
    → a.current ≡ some n
    → Inv a
    → Inv (close_if (record a { current = none; phase = p }) n)
give_up-Inv a n p e (b, h) = (ground arith, λ k. ground (arith, h k))

pub leave-Inv :
    (a : Account) (n : Int64)
    → Inv a
    → a.closed n ≡ true
    → Inv (record a { current = if holds a.current n then none else a.current })
leave-Inv a n (b, h) c = (ground arith, λ k. ground (arith, h k))

pub close_if-Inv : (a : Account) (n : Int64) → Inv a → Inv (close_if a n)
close_if-Inv a n (b, h) = (ground (arith, h n), λ k. ground (arith, h k))

pub close_if-closed : (a : Account) (n : Int64) → (close_if a n).closed n ≡ true
close_if-closed a n = ground arith

-- What giving up the current round trip leaves alone.
pub close_if_left :
    (a : Account) (n : Int64)
    → ((close_if a n).completed ≡ a.completed)
      × ((close_if a n).phase ≡ a.phase)
      × ((close_if a n).current ≡ a.current)
      × ((close_if a n).count ≡ a.count)
      × ((close_if a n).max ≡ a.max)
close_if_left a n = (ground arith, ground arith, ground arith, ground arith, ground arith)
