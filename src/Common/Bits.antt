-- ===== src/Common/Bits.antt =====
-- `&` with the masks of the source: `x & (2^k - 1)` and, in a 64-bit word, `x & !(2^k - 1)`.
use Prim.Native.Nat.{
  ℕ, zero, suc, ◌+◌, ◌-◌, ◌*◌, ◌/◌, ◌%◌, ◌^◌, ◌≤◌, ◌<◌, min, bit_and, digits, bit_and-bitwise,
}
use mathlib.Core.Path.{◌≡◌, refl, ◌∙◌, ap}
use native.Mathlib.Nat.{pow-suc, div-add-mod', mul-add-mod_self_right, mod-eq_of_lt, mod-lt, mod-le}
use native.Mathlib.Decide.{ℕ_discrete}
use native.Mathlib.Omega.{arith}

-- The definition behind the native `bit_and`: `rounds` digits of `x`, taken with those of `mask`.
abbrev conjunction : ℕ → ℕ → ℕ → ℕ
conjunction rounds x mask = digits (λ _. 0) min rounds x mask

-- One round more than the number has digits adds nothing.
one_more :
    (rounds x mask : ℕ) → x ≤ rounds → conjunction (suc rounds) x mask ≡ conjunction rounds x mask
one_more zero zero mask _ = refl
one_more (suc rounds) zero mask _ = refl
one_more zero (suc x) mask small = elim small [ ]
one_more (suc rounds) (suc x) mask small =
    omega (arith, one_more rounds (suc x / 2) (mask / 2) (omega arith))

-- So any two counts of rounds that cover the number agree.
surplus :
    (fewer more x mask : ℕ)
    → fewer ≤ more
    → x ≤ fewer
    → conjunction more x mask ≡ conjunction fewer x mask
surplus fewer zero x mask ordered small = let e : fewer ≡ 0 = omega arith in rw e
surplus fewer (suc more) x mask ordered small = elim (ℕ_discrete fewer (suc more)) [
  | yes e ↦ rw e
  | no ne ↦ one_more more x mask (omega arith) ∙ surplus fewer more x mask (omega arith) small
]

-- The lowest digit of a conjunction, and the rest of it.
pub bit_and_digit :
    (x mask : ℕ) → bit_and x mask ≡ bit_and (x / 2) (mask / 2) * 2 + min (x % 2) (mask % 2)
bit_and_digit zero mask = omega (arith, bit_and-bitwise 0 mask, bit_and-bitwise 0 (mask / 2))
bit_and_digit (suc x) mask =
    let rest = surplus (suc x / 2) x (suc x / 2) (mask / 2) (omega arith) (omega arith) in
    omega (arith, bit_and-bitwise (suc x) mask, bit_and-bitwise (suc x / 2) (mask / 2), rest)

pub bit_and-zero : (x : ℕ) → bit_and x 0 ≡ 0
bit_and-zero x = ends x x (omega arith)
  where
    clear_digit : (y : ℕ) → bit_and (y / 2) 0 ≡ 0 → bit_and y 0 ≡ 0
    clear_digit y e = omega (arith, bit_and_digit y 0, e)

    ends : (bound y : ℕ) → y ≤ bound → bit_and y 0 ≡ 0
    ends bound zero le = refl
    ends zero (suc y) le = elim le [ ]
    ends (suc bound) (suc y) le = clear_digit (suc y) (ends bound (suc y / 2) (omega arith))

pub pow_pos : (k : ℕ) → 0 < 2 ^ k
pow_pos zero = omega arith
pow_pos (suc k) = omega (arith, pow_pos k, pow-suc 2 k)

-- The remainder by 2 p splits off the lowest digit.
mod_double : (a p : ℕ) → 0 < p → a % (p * 2) ≡ (a / 2) % p * 2 + a % 2
mod_double a p h =
    ap (λ t. t % (p * 2)) split
    ∙ mul-add-mod_self_right (a / 2 / p) (p * 2) (a / 2 % p * 2 + a % 2)
    ∙ mod-eq_of_lt small
  where
    low : a / 2 % p < p
    low = mod-lt (a / 2) h

    split : a ≡ a / 2 / p * (p * 2) + (a / 2 % p * 2 + a % 2)
    split = omega (arith, ap (λ t. t * 2) (div-add-mod' (a / 2) p), div-add-mod' a 2)

    small : a / 2 % p * 2 + a % 2 < p * 2
    small = omega (arith, low)

mod-pow-suc : (a k : ℕ) → a % 2 ^ suc k ≡ (a / 2) % 2 ^ k * 2 + a % 2
mod-pow-suc a k = rw (pow-suc 2 k) (mod_double a (2 ^ k) (pow_pos k))

half_mask : (k : ℕ) → (2 ^ suc k - 1) / 2 ≡ 2 ^ k - 1
half_mask k = omega (arith, pow-suc 2 k, pow_pos k)

-- `x & (2^k - 1)` keeps the low k bits.
pub bit_and-low : (k a : ℕ) → bit_and a (2 ^ k - 1) ≡ a % 2 ^ k
bit_and-low zero a = omega (arith, bit_and-zero a)
bit_and-low (suc k) a =
    bit_and_digit a (2 ^ suc k - 1)
    ∙ rw (half_mask k, bit_and-low k (a / 2))
        (omega (arith, pow-suc 2 k, pow_pos k, mod-pow-suc a k))

-- Over the w bits of a word, `!(2^k - 1)` is `2^w - 2^k`.
half_high : (w k : ℕ) → (2 ^ suc w - 2 ^ suc k) / 2 ≡ 2 ^ w - 2 ^ k
half_high w k = omega (arith, pow-suc 2 k, pow-suc 2 w)

-- `x & !(2^k - 1)` in a word of w bits clears the low k bits.
pub bit_and-high : (w k a : ℕ) → k ≤ w → a < 2 ^ w → bit_and a (2 ^ w - 2 ^ k) ≡ a - a % 2 ^ k
bit_and-high w zero a h lt = bit_and-low w a ∙ mod-eq_of_lt lt ∙ omega arith
bit_and-high zero (suc k) a h lt = absurd (omega arith)
bit_and-high (suc w) (suc k) a h lt =
    bit_and_digit a (2 ^ suc w - 2 ^ suc k)
    ∙ rw (half_high w k, bit_and-high w k (a / 2) (omega arith) (omega (arith, pow-suc 2 w)))
        (omega
          (arith, pow-suc 2 k, pow-suc 2 w, pow_pos k, mod-pow-suc a k, mod-le (a / 2) (2 ^ k)))
