-- ===== src/Storage/Arena/Slots.antt =====
-- What one slot reads after blocks are claimed or freed.
use dotnet_pal_rs.Common.{
  ℕ, ◌+◌, ◌-◌, ◌≤◌, ◌<◌, ◌≡◌, ◌∙◌, ◌⊎◌, inl, inr, List, get_or, set, fill, length, arith,
  length-set, length-fill, get_or-set_self, get_or-set_ne, get_or-fill_in, get_or-fill_out,
  get_or_beyond,
}
use native.Mathlib.Decide.{ℕ_discrete, dec_lt}
use dotnet_pal_rs.Storage.Arena.{claim, tail}

-- Where a block lies with respect to the `count` blocks from `first` on.
pub data Position (first count j : ℕ) : Type 0 where
  at_head : j ≡ first → Position first count j
  inside : first < j → j < first + count → Position first count j
  outside : (j < first) ⊎ (first + count ≤ j) → Position first count j

pub locate : (first count j : ℕ) → 0 < count → Position first count j
locate first count j h = elim (ℕ_discrete j first) [
  | yes e ↦ at_head e
  | no ne ↦ elim (dec_lt j first) [
    | yes lt ↦ outside (inl lt)
    | no ge ↦ elim (dec_lt j (first + count)) [
      | yes lt ↦ inside (omega arith) lt
      | no ge' ↦ outside (inr (omega arith))
    ]
  ]
]

module _ (slots : List ℕ) (first count : ℕ) (pos : 0 < count) where
  pub length-claim : length (claim slots first count) ≡ length slots
  unfolding claim
  length-claim =
      length-fill (set slots first count) (first + 1) (count - 1) tail
      ∙ length-set slots first count

  pub claim_head : first < length slots → get_or (claim slots first count) first 0 ≡ count
  unfolding claim
  claim_head h =
      get_or-fill_out (set slots first count) (first + 1) (count - 1) first tail 0
        (inl (omega arith))
      ∙ get_or-set_self slots first count 0 h

  pub claim_inside :
      (j : ℕ)
      → first < j
      → j < first + count
      → first + count ≤ length slots
      → get_or (claim slots first count) j 0 ≡ tail
  unfolding claim
  claim_inside j a b h =
      get_or-fill_in (set slots first count) (first + 1) (count - 1) j tail 0 (omega arith)
        (omega arith) (omega (arith, length-set slots first count))

  pub claim_outside :
      (j : ℕ)
      → (j < first) ⊎ (first + count ≤ j)
      → get_or (claim slots first count) j 0 ≡ get_or slots j 0
  unfolding claim
  claim_outside j h =
      get_or-fill_out (set slots first count) (first + 1) (count - 1) j tail 0 (omega arith)
      ∙ get_or-set_ne slots first j count 0 (omega arith)

  -- Freeing the blocks.
  pub freed_inside :
      (j : ℕ) → first ≤ j → j < first + count → get_or (fill slots first count 0) j 0 ≡ 0
  freed_inside j a b = elim (dec_lt j (length slots)) [
    | yes lt ↦ get_or-fill_in slots first count j 0 0 a b lt
    | no ge ↦
        get_or_beyond (fill slots first count 0) j 0
          (omega (arith, length-fill slots first count 0))
  ]

  pub freed_outside :
      (j : ℕ)
      → (j < first) ⊎ (first + count ≤ j)
      → get_or (fill slots first count 0) j 0 ≡ get_or slots j 0
  freed_outside j h = get_or-fill_out slots first count j 0 0 h
