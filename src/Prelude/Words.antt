-- ===== src/Prelude/Words.antt =====
-- Go's int64 and int on a 64-bit machine: a bit pattern below 2 ^ 64, in two's complement.
use Prim.Native.Nat.{ℕ, ◌+◌, ◌-◌, ◌%◌, ◌≤◌, ◌<◌}
use mathlib.Core.Path.{◌≡◌}
use mathlib.Core.Bool.{Bool, true, false}
use native.Mathlib.Omega.{arith}
use directive_proxy.Prelude.Tests.{ltb, leb}

abbrev pub Int64 : Type 0
Int64 = ℕ

-- The pattern of the least int64; those from here on are negative.
abbrev pub int64_min : ℕ
int64_min = 9223372036854775808

-- a + b and a - b wrap around.
abbrev pub add64 : Int64 → Int64 → Int64
add64 a b = (a + b) % 18446744073709551616

abbrev pub sub64 : Int64 → Int64 → Int64
sub64 a b = (a + 18446744073709551616 - b) % 18446744073709551616

-- a < b as signed numbers: the sign bit is flipped, and the patterns are compared.
abbrev pub slt : Int64 → Int64 → Bool
slt a b =
    ltb ((a + 9223372036854775808) % 18446744073709551616)
      ((b + 9223372036854775808) % 18446744073709551616)

abbrev pub sle : Int64 → Int64 → Bool
sle a b =
    leb ((a + 9223372036854775808) % 18446744073709551616)
      ((b + 9223372036854775808) % 18446744073709551616)

-- The patterns of 64 bits.
abbrev pub IsInt64 : ℕ → Type 0
IsInt64 n = n < 18446744073709551616

-- In the range of the non-negative numbers the operations are those of ℕ.
pub add64-exact : (a b : ℕ) → a + b < 18446744073709551616 → add64 a b ≡ a + b
add64-exact a b h = omega arith

pub slt-exact : (a b : ℕ) → a < 9223372036854775808 → b < 9223372036854775808 → slt a b ≡ ltb a b
slt-exact a b ha hb = ground arith

abbrev pub IsNatural : ℕ → Type 0
IsNatural n = n < 9223372036854775808

pub slt→lt : (a b : ℕ) → IsNatural a → IsNatural b → slt a b ≡ true → a < b
slt→lt a b ha hb h = ground arith

pub slt→le : (a b : ℕ) → IsNatural a → IsNatural b → slt a b ≡ false → b ≤ a
slt→le a b ha hb h = ground arith

pub sle-exact : (a b : ℕ) → a < 9223372036854775808 → b < 9223372036854775808 → sle a b ≡ leb a b
sle-exact a b ha hb = ground arith
