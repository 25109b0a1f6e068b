-- ===== src/Boundary/Geometry.antt =====
-- src/lib.rs: sizes and alignments, as the front ends of memory check and round them.
pub mod Rounding
use dotnet_pal_rs.Common.{
  ℕ, ◌+◌, ◌-◌, ◌%◌, max, bit_and, leb, ◌==◌, if◌then◌else◌, Bool, true, false, not, ◌&&◌, ◌||◌,
  Option, none, some,
}
use dotnet_pal_rs.Common.Words.{checked_add, complement, isize_max, is_power_of_two}

-- Both operations on `Option` are chains of `?`.
infixl 5 ◌>>=◌
abbrev ◌>>=◌ {ℓ κ} : {A : Type ℓ} {B : Type κ} → Option A → (A → Option B) → Option B
none >>= f = none
some a >>= f = f a

-- `round_size`
unfoldable pub round_size : ℕ → ℕ → Option ℕ
round_size size page = if size == 0 || not (is_power_of_two page) then none else (do
  sum ← checked_add size (page - 1)
  let rounded = bit_and sum (complement (page - 1))
  if leb rounded isize_max then some rounded else none)

-- `geometry`
unfoldable pub geometry : ℕ → ℕ → ℕ → Option (ℕ × ℕ)
geometry size alignment page = do
  rounded ← round_size size page
  if not (alignment == 0) && not (is_power_of_two alignment) then none else (do
    let aligned = max alignment page
    sum ← checked_add rounded (aligned - page)
    if leb sum isize_max then some (rounded, aligned) else none)

-- `aligned_output::<T>`, where `T` has the given alignment: the address is not null and divisible.
unfoldable pub aligned_output : ℕ → ℕ → Bool
aligned_output align out = not (out == 0) && (out % align == 0)
