-- ===== src/Common/Words.antt =====
-- `usize` and `u64`, both of 64 bits: their bounds, checked arithmetic and powers of two.
use Prim.Native.Nat.{ℕ, zero, suc, ◌+◌, ◌-◌, ◌<◌, ◌^◌, min}
use mathlib.Core.Path.{◌≡◌}
use mathlib.Core.Logic.{inl, inr}
use mathlib.Core.Bool.{Bool, true, false, ◌||◌}
use mathlib.Core.Option.{Option, none, some}
use native.Mathlib.Omega.{arith}
use dotnet_pal_rs.Common.Tests.{leb, ◌==◌, if◌then◌else◌, Bool-cases, ==_iff}

abbrev pub word_bits : ℕ
word_bits = 64

-- `usize::MAX`, which is `u64::MAX` too
abbrev pub usize_max : ℕ
usize_max = 2 ^ 64 - 1

-- `isize::MAX`, which is `i64::MAX` too
abbrev pub isize_max : ℕ
isize_max = 2 ^ 63 - 1

abbrev pub u32_max : ℕ
u32_max = 2 ^ 32 - 1

abbrev pub checked_add : ℕ → ℕ → Option ℕ
checked_add a b = if leb (a + b) usize_max then some (a + b) else none

abbrev pub checked_sub : ℕ → ℕ → Option ℕ
checked_sub a b = if leb b a then some (a - b) else none

abbrev pub saturating_add : ℕ → ℕ → ℕ
saturating_add a b = min (a + b) usize_max

-- `!x`
abbrev pub complement : ℕ → ℕ
complement x = usize_max - x

-- Whether `n` is one of 2^0, ..., 2^(k - 1).
unfoldable pub is_power_below : ℕ → ℕ → Bool
is_power_below zero n = false
is_power_below (suc k) n = n == 2 ^ k || is_power_below k n

-- `usize::is_power_of_two`
unfoldable pub is_power_of_two : ℕ → Bool
unfolding is_power_below
is_power_of_two n = is_power_below word_bits n

pub exponent_below : (w n : ℕ) → is_power_below w n ≡ true → (k : ℕ) × (k < w) × (n ≡ 2 ^ k)
unfolding is_power_below
exponent_below zero n h = cc
exponent_below (suc w) n h = elim (Bool-cases (n == 2 ^ w)) [
  | inl e ↦ (w, omega arith, (==_iff n (2 ^ w)).0 e)
  | inr e ↦ let (k, lt, eq) = exponent_below w n (rw e at h) in (k, omega arith, eq)
]

pub is_power_below_pow : (w k : ℕ) → k < w → is_power_below w (2 ^ k) ≡ true
unfolding is_power_below
is_power_below_pow zero k h = elim h [ ]
is_power_below_pow (suc w) k h = elim (Bool-cases (2 ^ k == 2 ^ w)) [
  | inl e ↦ rw e
  | inr e ↦ ground (arith, is_power_below_pow w k)
]

pub exponent : (n : ℕ) → is_power_of_two n ≡ true → (k : ℕ) × (k < 64) × (n ≡ 2 ^ k)
unfolding is_power_of_two
exponent n h = exponent_below 64 n h

pub is_power_of_two_pow : (k : ℕ) → k < 64 → is_power_of_two (2 ^ k) ≡ true
unfolding is_power_of_two
is_power_of_two_pow k h = is_power_below_pow 64 k h
