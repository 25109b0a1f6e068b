-- ===== src/Boundary/Memory/Ranges.antt =====
-- Which ranges the calls on virtual memory pass on.
use dotnet_pal_rs.Common.{
  ℕ, refl, ◌+◌, ◌-◌, ◌%◌, ◌*◌, ◌≤◌, ◌<◌, ◌≡◌, ◌∙◌, bit_and, leb, ◌==◌, true, false, ◌⊎◌, inl, inr,
  some, none, arith, Bool-cases, Option-cases, ◌||◌, not,
}
use dotnet_pal_rs.Common.Words.{usize_max, isize_max, is_power_of_two, exponent}
use dotnet_pal_rs.Common.Bits.{bit_and-low}
use dotnet_pal_rs.Port.{Error, Result, ok, err, error_status, status}
use dotnet_pal_rs.Port.Laws.{from_status-status}
use dotnet_pal_rs.Boundary.Geometry.{round_size}
use dotnet_pal_rs.Boundary.Geometry.Rounding.{round_size_least, round_size_pages}
use dotnet_pal_rs.Boundary.Memory.{
  Tally, increment, record_status, valid_range, range_op, VirtualMemory,
}

-- Whole pages that start at an address which is not null, and end in the address space.
pub record IsPages (page address size rounded : ℕ) : Type 0 where
  pub rounds : round_size size page ≡ some rounded
  pub not_null : 0 < address
  pub divides : address % page ≡ 0
  pub in_space : address + rounded ≤ usize_max

remainder :
    (page address size : ℕ) {rounded : ℕ}
    → round_size size page ≡ some rounded
    → bit_and address (page - 1) ≡ address % page
remainder page address size r =
    let (_, _, _, _, p) = round_size_least size page r in
    let (k, _, e) = exponent page p in rw e (bit_and-low k address)

pub valid_range_cases :
    (page address size : ℕ)
    → (valid_range page address size ≡ none)
      ⊎ ((rounded : ℕ) × (valid_range page address size ≡ some rounded)
          × IsPages page address size rounded)
unfolding valid_range
valid_range_cases page address size = elim (Option-cases (round_size size page)) [
  | inl r ↦ inl (rw (r, valid_range))
  | inr (rounded, r) ↦ elim (Bool-cases (address == 0 || not (bit_and address (page - 1) == 0))) [
    | inl bad ↦ inl (rw (r, bad, valid_range))
    | inr good ↦ elim (Bool-cases (leb (address + rounded) usize_max)) [
      | inr far ↦ inl (rw (r, good, far, valid_range))
      | inl near ↦ inr (
        rounded,
        rw (r, good, near, valid_range),
        record {
          rounds = r;
          not_null = ground (arith, good);
          divides = ground (arith, good, remainder page address size r);
          in_space = ground (arith, near);
        },
      )
    ]
  ]
]

pub valid_range-IsPages :
    (page address size rounded : ℕ)
    → IsPages page address size rounded
    → valid_range page address size ≡ some rounded
unfolding valid_range
valid_range-IsPages page address size rounded h =
    let start = remainder page address size h.rounds in
    let aligned : bit_and address (page - 1) ≡ 0 = start ∙ h.divides in
    let null : (address == 0) ≡ false = ground (arith, h.not_null) in
    let near : leb (address + rounded) usize_max ≡ true = ground (arith, h.in_space) in
    rw (h.rounds, aligned, null, near, valid_range)

-- An answer of the provider as its caller sees it: the status, and one counter that goes up by one.
answer_counted :
    (answer : Result (Unit {0})) (c : Tally)
    → ((answer ≡ ok tt)
        × (status answer ≡ 0)
        × (record_status (status answer) c ≡ record c { done = increment c.done }))
      ⊎ ((e : Error) × (answer ≡ err e)
          × (status answer ≡ error_status e)
          × (0 < error_status e)
          × (record_status (status answer) c ≡ record c { failed = increment c.failed }))
unfolding status record_status
answer_counted (ok u) c = inl (refl, refl, refl)
answer_counted (err e) c =
    let (_, positive, _) = from_status-status e in
    let fails : (error_status e == 0) ≡ false = ground (arith, positive) in
    inr (e, refl, refl, positive, rw (fails, record_status) refl)

module _ {W : Type 0} (v : VirtualMemory W) (call : W → ℕ → ℕ → Result (Unit {0}) × W) (w : W)
    (c : Tally) (address size : ℕ) where
  -- Where pages are a power of two, a call on a range that starts at a page other than the first, whose
  -- last page may be filled in part, and whose whole pages are no more than `isize::MAX` bytes and end in
  -- the address space: the provider is left as a call on these whole pages leaves it. Where it agrees, the
  -- answer is 0 and the call is counted as done, else the answer is the status of its error and the call is
  -- counted as failed.
  pub range_op_passes :
      (pages : ℕ)
      → is_power_of_two v.page_size ≡ true
      → 0 < address
      → address % v.page_size ≡ 0
      → 0 < size
      → size ≤ pages * v.page_size
      → pages * v.page_size < size + v.page_size
      → pages * v.page_size ≤ isize_max
      → address + pages * v.page_size ≤ usize_max
      → let answer = call w address (pages * v.page_size) in
        let r = range_op v call w c address size in
        (r.1 ≡ answer.1)
        × (((answer.0 ≡ ok tt) × (r.0 ≡ 0) × (r.2 ≡ record c { done = increment c.done }))
            ⊎ ((e : Error) × (answer.0 ≡ err e)
                × (r.0 ≡ error_status e)
                × (0 < error_status e)
                × (r.2 ≡ record c { failed = increment c.failed })))
  unfolding range_op
  range_op_passes pages p not_null divides some_bytes enough fewest lim in_space =
      let range : IsPages v.page_size address size (pages * v.page_size) = record {
        rounds = round_size_pages size v.page_size pages some_bytes p enough fewest lim;
        not_null = not_null;
        divides = divides;
        in_space = in_space;
      } in
      rw (valid_range-IsPages v.page_size address size (pages * v.page_size) range, range_op)
        (refl, answer_counted (call w address (pages * v.page_size)).0 c)

  -- No other range reaches it: either the range is one of whole pages, or the provider's state stays, the
  -- answer is 2, `INVALID_ARGUMENT`, and the call is counted as failed.
  pub range_op_guards :
      ((rounded : ℕ) × IsPages v.page_size address size rounded)
      ⊎ (range_op v call w c address size ≡ (2, w, record c { failed = increment c.failed }))
  unfolding range_op record_status
  range_op_guards = elim (valid_range_cases v.page_size address size) [
    | inl bad ↦ inr (rw (bad, range_op))
    | inr (rounded, _, pages) ↦ inl (rounded, pages)
  ]
