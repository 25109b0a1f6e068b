-- ===== src/Storage/Arena/Validity.antt =====
-- The invariant of the arena's slots, under claiming and freeing blocks.
use dotnet_pal_rs.Common.{
  zero, suc, replicate, refl, ℕ, ◌+◌, ◌≤◌, ◌<◌, ◌≡◌, ◌≢◌, ◌∙◌, sym, ap, ◌⊎◌, inl, inr, List, get_or,
  length, arith, length-fill, fill,
}
use native.Mathlib.Decide.{dec_lt}
use dotnet_pal_rs.Storage.Arena.{Place, initial, tail, claim}
use dotnet_pal_rs.Storage.Arena.Slots.{
  at_head, inside, outside, locate, length-claim, claim_head, claim_inside, claim_outside,
  freed_inside, freed_outside,
}

-- The slot of a first block: neither free nor a tail.
abbrev pub IsHead : List ℕ → ℕ → Type 0
IsHead slots i = (get_or slots i 0 ≢ 0) × (get_or slots i 0 ≢ tail)

-- Every slot is free, or the head of an allocation that lies inside the arena and whose other
-- slots are tails, or a tail behind such a head.
pub record IsValid (blocks : ℕ) (slots : List ℕ) : Type 0 where
  pub whole : length slots ≡ blocks
  pub heads : (i : ℕ) → IsHead slots i → i + get_or slots i 0 ≤ blocks
  pub tails :
      (i j : ℕ) → IsHead slots i → i < j → j < i + get_or slots i 0 → get_or slots j 0 ≡ tail
  pub owned :
      (j : ℕ)
      → get_or slots j 0 ≡ tail
      → (i : ℕ) × IsHead slots i × (i < j) × (j < i + get_or slots i 0)

-- The blocks of two allocations do not meet.
pub heads_disjoint :
    {blocks : ℕ} {slots : List ℕ} (i j : ℕ)
    → IsValid blocks slots
    → IsHead slots i
    → IsHead slots j
    → i < j
    → i + get_or slots i 0 ≤ j
heads_disjoint {slots = slots} i j v hi hj lt = elim (dec_lt j (i + get_or slots i 0)) [
  | yes within ↦ absurd (hj.1 (v.tails i j hi lt within))
  | no past ↦ omega arith
]

module _ {blocks : ℕ} {slots : List ℕ} (v : IsValid blocks slots) (first count : ℕ)
    (pos : 0 < count) (fits : first + count ≤ blocks) (not_tail : count ≢ tail)
    (free : (i : ℕ) → first ≤ i → i < first + count → get_or slots i 0 ≡ 0) where
  -- A head of the claimed slots is the new one, or an old one outside the claimed blocks.
  claim-IsHead :
      (i : ℕ)
      → IsHead (claim slots first count) i
      → ((i ≡ first) × (get_or (claim slots first count) i 0 ≡ count))
        ⊎ (((i < first) ⊎ (first + count ≤ i))
            × IsHead slots i
            × (get_or (claim slots first count) i 0 ≡ get_or slots i 0))
  claim-IsHead i h = elim (locate first count i pos) [
    | at_head e ↦ inl (e, rw e (claim_head slots first count pos (omega (arith, v.whole))))
    | inside a b ↦ absurd (h.1 (claim_inside slots first count pos i a b (omega (arith, v.whole))))
    | outside o ↦
        let same = claim_outside slots first count pos i o in inr (o, (rw same at h), same)
  ]

  -- An old head lies outside the claimed blocks, and reads as before.
  kept-IsHead :
      (i : ℕ)
      → IsHead slots i
      → (get_or (claim slots first count) i 0 ≡ get_or slots i 0)
        × IsHead (claim slots first count) i
  kept-IsHead i old = elim (locate first count i pos) [
    | at_head e ↦ absurd (old.0 (free i (omega arith) (omega arith)))
    | inside a b ↦ absurd (old.0 (free i (omega arith) b))
    | outside o ↦ let same = claim_outside slots first count pos i o in (same, rw same old)
  ]

  new-IsHead :
      (get_or (claim slots first count) first 0 ≡ count) × IsHead (claim slots first count) first
  new-IsHead =
      let read = claim_head slots first count pos (omega (arith, v.whole)) in
      (read, rw read ((λ z. absurd (omega arith)), not_tail))

  claim_tails :
      (i j : ℕ)
      → IsHead (claim slots first count) i
      → i < j
      → j < i + get_or (claim slots first count) i 0
      → get_or (claim slots first count) j 0 ≡ tail
  claim_tails i j h a b = elim (claim-IsHead i h) [
    | inl (e, read) ↦
        claim_inside slots first count pos j (omega arith) (omega arith) (omega (arith, v.whole))
    | inr (_, old, read) ↦
        let t = v.tails i j old a (omega arith) in
        elim (locate first count j pos) [
          | at_head e ↦ absurd (omega (arith, free j (omega arith) (omega arith)))
          | inside a' b' ↦ absurd (omega (arith, free j (omega arith) b'))
          | outside o ↦ claim_outside slots first count pos j o ∙ t
        ]
  ]

  claim_owned :
      (j : ℕ)
      → get_or (claim slots first count) j 0 ≡ tail
      → (i : ℕ) × IsHead (claim slots first count) i
        × (i < j)
        × (j < i + get_or (claim slots first count) i 0)
  claim_owned j e = elim (locate first count j pos) [
    | at_head e' ↦ absurd (not_tail (sym new-IsHead.0 ∙ (rw e' at e)))
    | inside a b ↦ (first, new-IsHead.1, a, omega (arith, new-IsHead.0))
    | outside o ↦
        let (i, old, lt, le) = v.owned j (sym (claim_outside slots first count pos j o) ∙ e) in
        (i, (kept-IsHead i old).1, lt, omega (arith, (kept-IsHead i old).0))
  ]

  pub claim-IsValid : IsValid blocks (claim slots first count)
  claim-IsValid = record {
    whole = length-claim slots first count pos ∙ v.whole;
    heads = λ i h. elim (claim-IsHead i h) [
      | inl (e, read) ↦ omega arith
      | inr (_, old, read) ↦ omega (arith, v.heads i old)
    ];
    tails = claim_tails;
    owned = claim_owned;
  }

module _ {blocks : ℕ} {slots : List ℕ} (v : IsValid blocks slots) (first : ℕ)
    (head : IsHead slots first) where
  abbrev freed : List ℕ
  freed = fill slots first (get_or slots first 0) 0

  head_pos : 0 < get_or slots first 0
  head_pos = elim (dec_lt 0 (get_or slots first 0)) [
    | yes lt ↦ lt
    | no ge ↦ absurd (head.0 (omega arith))
  ]

  -- Any other head lies outside the freed blocks, and so do the tails behind it.
  apart :
      (i : ℕ)
      → IsHead slots i
      → i ≢ first
      → (i + get_or slots i 0 ≤ first) ⊎ (first + get_or slots first 0 ≤ i)
  apart i h ne = elim (dec_lt i first) [
    | yes lt ↦ inl (heads_disjoint i first v h head lt)
    | no ge ↦ inr (heads_disjoint first i v head h (omega arith))
  ]

  -- What still reads as taken was there before, outside the freed blocks.
  freed_kept :
      (i : ℕ)
      → get_or freed i 0 ≢ 0
      → ((i < first) ⊎ (first + get_or slots first 0 ≤ i)) × (get_or freed i 0 ≡ get_or slots i 0)
  freed_kept i taken = elim (locate first (get_or slots first 0) i head_pos) [
    | at_head e ↦
        absurd
          (taken (freed_inside slots first _ head_pos i (omega arith) (omega (arith, head_pos))))
    | inside a b ↦ absurd (taken (freed_inside slots first _ head_pos i (omega arith) b))
    | outside o ↦ (o, freed_outside slots first _ head_pos i o)
  ]

  -- Every other head stays what it was.
  pub freed-IsHead :
      (i : ℕ) → IsHead slots i → i ≢ first → (get_or freed i 0 ≡ get_or slots i 0) × IsHead freed i
  freed-IsHead i old ne =
      let same = freed_outside slots first _ head_pos i (elim (apart i old ne) [
        | inl below ↦ inl (before i old ne below)
        | inr above ↦ inr above
      ]) in
      (same, rw same old)
    where
      before : (i : ℕ) → IsHead slots i → i ≢ first → i + get_or slots i 0 ≤ first → i < first
      before i old ne le = omega arith

  freed_tails :
      (i j : ℕ) → IsHead freed i → i < j → j < i + get_or freed i 0 → get_or freed j 0 ≡ tail
  freed_tails i j h a b =
      let (o, same) = freed_kept i h.0 in
      let old : IsHead slots i = (rw same at h) in
      let ne : i ≢ first = omega (arith, head_pos, o) in
      let far = apart i old ne in
      freed_outside slots first _ head_pos j (omega (arith, far, same))
      ∙ v.tails i j old a (omega (arith, same))

  freed_owned :
      (j : ℕ)
      → get_or freed j 0 ≡ tail
      → (i : ℕ) × IsHead freed i × (i < j) × (j < i + get_or freed i 0)
  freed_owned j e =
      let (o, same) = freed_kept j (λ z. absurd (omega arith)) in
      let (i, old, lt, le) = v.owned j (sym same ∙ e) in
      let ne : i ≢ first = λ eq. absurd (outside_of i eq o le lt) in
      let (kept, h) = freed-IsHead i old ne in (i, h, lt, omega (arith, kept, le))
    where
      outside_of :
          (i : ℕ)
          → i ≡ first
          → (j < first) ⊎ (first + get_or slots first 0 ≤ j)
          → j < i + get_or slots i 0
          → i < j
          → ⊥
      outside_of i eq o le lt =
          let same_read : get_or slots i 0 ≡ get_or slots first 0 = ap (λ k. get_or slots k 0) eq in
          omega arith

  pub freed-IsValid : IsValid blocks freed
  freed-IsValid = record {
    whole = length-fill slots first (get_or slots first 0) 0 ∙ v.whole;
    heads =
        λ i h. let (_, same) = freed_kept i h.0 in omega (arith, same, v.heads i (rw same at h));
    tails = freed_tails;
    owned = freed_owned;
  }

length-free : (n : ℕ) → length (replicate {A = ℕ} n 0) ≡ n
length-free zero = refl
length-free (suc n) = ap suc (length-free n)

get_or-free : (n i : ℕ) → get_or (replicate {A = ℕ} n 0) i 0 ≡ 0
get_or-free zero i = refl
get_or-free (suc n) zero = refl
get_or-free (suc n) (suc i) = get_or-free n i

-- The static starts out valid, with every block free.
pub initial-IsValid : (p : Place) → IsValid p.blocks (initial p).slots
unfolding initial
initial-IsValid p = record {
  whole = length-free p.blocks;
  heads = λ i h. absurd (h.0 (get_or-free p.blocks i));
  tails = λ i j h. absurd (h.0 (get_or-free p.blocks i));
  owned = λ j e. absurd (omega (arith, get_or-free p.blocks j));
}
