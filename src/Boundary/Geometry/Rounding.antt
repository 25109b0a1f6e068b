-- ===== src/Boundary/Geometry/Rounding.antt =====
-- `round_size` and `geometry` of src/lib.rs: rounding up, alignment, and no overflow.
use native.Mathlib.Nat.{
  mod-lt, pow-le-pow_right, div-add-mod', mul-mod_left, div-lt_iff_lt-mul, mul-le-mul_right,
}
use dotnet_pal_rs.Common.{
  ◌⊎◌, ℕ, ◌+◌, ◌-◌, ◌*◌, ◌/◌, ◌%◌, ◌^◌, ◌∙◌, ◌≤◌, ◌<◌, max, bit_and, ◌≡◌, true, some, arith, inl,
  inr, ltb, Bool-cases, ap,
}
use dotnet_pal_rs.Common.Bits.{bit_and-high, pow_pos}
use dotnet_pal_rs.Common.Words.{complement, isize_max, usize_max, is_power_of_two, exponent}
use dotnet_pal_rs.Boundary.Geometry.{round_size, geometry}

-- Clearing the low bits below a power of two subtracts the remainder.
clear_low :
    (page x : ℕ)
    → is_power_of_two page ≡ true
    → x ≤ usize_max
    → bit_and x (complement (page - 1)) ≡ x - x % page
clear_low page x h lt =
    let (k, le, e) = exponent page h in
    rw (e, mask k le) (bit_and-high 64 k x (omega arith) (omega arith))
  where
    mask : (k : ℕ) → k < 64 → complement (2 ^ k - 1) ≡ 2 ^ 64 - 2 ^ k
    mask k le = omega (arith, pow_pos k)

rounded : ℕ → ℕ → ℕ
rounded size page = bit_and (size + (page - 1)) (complement (page - 1))

-- The tests that a rounded size has passed.
passed :
    (size page : ℕ) {r : ℕ}
    → round_size size page ≡ some r
    → (0 < size)
      × (is_power_of_two page ≡ true)
      × (size + (page - 1) ≤ usize_max)
      × (r ≡ rounded size page)
      × (r ≤ isize_max)
unfolding round_size rounded
passed size page h = ground arith

power_pos : (page : ℕ) → is_power_of_two page ≡ true → (0 < page) × (page ≤ 2 ^ 63)
power_pos page h =
    let (k, le, e) = exponent page h in
    rw e (pow_pos k, pow-le-pow_right {n = 2} (omega arith) {i = k} {j = 63} (omega arith))

-- The product of the page and a whole number of pages.
rounded-eq :
    (size page : ℕ)
    → is_power_of_two page ≡ true
    → size + (page - 1) ≤ usize_max
    → rounded size page ≡ (size + (page - 1)) / page * page
unfolding rounded
rounded-eq size page h lt =
    omega (arith, clear_low page (size + (page - 1)) h lt, div-add-mod' (size + (page - 1)) page)

-- What `round_size` answers is the least multiple of the page that is no less than the size, and
-- at most `isize::MAX`.
pub round_size_least :
    (size page : ℕ) {r : ℕ}
    → round_size size page ≡ some r
    → (size ≤ r)
      × (r < size + page)
      × (r % page ≡ 0)
      × (r ≤ isize_max)
      × (is_power_of_two page ≡ true)
round_size_least size page {r} h =
    let (pos, p2, fits, e, lim) = passed size page h in
    let e' : r ≡ (size + (page - 1)) / page * page = e ∙ rounded-eq size page p2 fits in
    let low : (size + (page - 1)) % page < page = mod-lt _ (power_pos page p2).0 in
    let whole = div-add-mod' (size + (page - 1)) page in
    (omega arith, omega arith, rw e' (mul-mod_left _ page), lim, p2)

-- It answers whenever some multiple of the page fits.
pub round_size_answers :
    (size page m : ℕ)
    → 0 < size
    → is_power_of_two page ≡ true
    → size ≤ m * page
    → m * page ≤ isize_max
    → (r : ℕ) × (round_size size page ≡ some r) × (r ≤ m * page)
unfolding round_size rounded
round_size_answers size page m p h le lim =
    (rounded size page, ground (arith, below, fits, page_pos), below)
  where
    page_pos : (0 < page) × (page ≤ 2 ^ 63)
    page_pos = power_pos page h

    fits : size + (page - 1) ≤ usize_max
    fits = omega (arith, page_pos)

    pages_le : (size + (page - 1)) / page < m + 1
    pages_le = (div-lt_iff_lt-mul page_pos.0).1 (omega (arith, page_pos))

    below : rounded size page ≤ m * page
    below = rw (rounded-eq size page h fits) (mul-le-mul_right page (omega (arith, pages_le)))

-- So the pages that a size fills, the last one in part, are what it answers.
pub round_size_pages :
    (size page m : ℕ)
    → 0 < size
    → is_power_of_two page ≡ true
    → size ≤ m * page
    → m * page < size + page
    → m * page ≤ isize_max
    → round_size size page ≡ some (m * page)
round_size_pages size page m p h le lt lim =
    let (r, e, below) = round_size_answers size page m p h le lim in
    let (over, _, whole, _, _) = round_size_least size page e in
    let pages : r ≡ r / page * page = omega (arith, div-add-mod' r page, whole) in
    let fewest : m ≤ r / page = elim (Bool-cases (ltb (r / page) m)) [
      | inl less ↦
          let more : (r / page + 1) * page ≤ m * page =
            mul-le-mul_right page (ground (arith, less)) in
          omega (arith, more, pages, over, lt)
      | inr enough ↦ ground (arith, enough)
    ] in
    let filled = mul-le-mul_right page fewest in
    let same : r ≡ m * page = omega (arith, filled, pages, below) in e ∙ ap some same

geometry_passed :
    (size alignment page : ℕ) {s a : ℕ}
    → geometry size alignment page ≡ some (s, a)
    → (round_size size page ≡ some s)
      × ((alignment ≡ 0) ⊎ (is_power_of_two alignment ≡ true))
      × (a ≡ max alignment page)
      × (s + (a - page) ≤ isize_max)
unfolding geometry
geometry_passed size alignment page h = ground arith

max_cases : (a b : ℕ) → (max a b ≡ a) ⊎ (max a b ≡ b)
max_cases a b = omega arith

larger_power :
    (alignment page : ℕ)
    → is_power_of_two page ≡ true
    → (alignment ≡ 0) ⊎ (is_power_of_two alignment ≡ true)
    → is_power_of_two (max alignment page) ≡ true
larger_power alignment page p (inl z) = let e : max alignment page ≡ page = omega arith in rw e p
larger_power alignment page p (inr q) = elim (max_cases alignment page) [
  | inl e ↦ rw e q
  | inr e ↦ rw e p
]

-- A size and an alignment that `geometry` accepts: the size is rounded up to pages as by
-- `round_size`, the alignment is the larger one of the page and of what was asked for and a power
-- of two, and the room that the alignment may cost still fits in `isize::MAX`.
pub geometry_lem :
    (size alignment page : ℕ) {s a : ℕ}
    → geometry size alignment page ≡ some (s, a)
    → (round_size size page ≡ some s)
      × (is_power_of_two a ≡ true)
      × (a ≡ max alignment page)
      × (s + (a - page) ≤ isize_max)
geometry_lem size alignment page {s} {a} h =
    let (rounds, asked, e, fits) = geometry_passed size alignment page h in
    let (_, _, _, _, p) = round_size_least size page rounds in
    (rounds, rw e (larger_power alignment page p asked), e, fits)
