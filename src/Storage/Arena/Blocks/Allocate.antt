-- ===== src/Storage/Arena/Blocks/Allocate.antt =====
-- `Arena::allocate` on the map of live allocations.
use dotnet_pal_rs.Common.{
  ℕ, ◌+◌, ◌*◌, ◌/◌, ◌%◌, ◌≤◌, ◌<◌, ◌≡◌, ◌≢◌, ◌∙◌, sym, ap, ◌⊎◌, inl, inr, List, none, some, true,
  get_or, length, arith, Bool-cases, Option-cases, ltb, ◌==◌, ◌||◌, if◌then◌else◌,
}
use dotnet_pal_rs.Common.Bits.{bit_and-low}
use dotnet_pal_rs.Common.Words.{is_power_of_two, exponent}
use dotnet_pal_rs.Port.{Error, ok, err, out_of_memory}
use dotnet_pal_rs.Storage.Arena.{
  Place, Arena, tail, granularity, claim, clear, search, allocate, address_of, take_blocks,
}
use dotnet_pal_rs.Storage.Arena.Slots.{
  at_head, inside, outside, locate, claim_head, claim_inside, claim_outside,
}
use dotnet_pal_rs.Storage.Arena.Search.{Fits, search-some, search_first}
use dotnet_pal_rs.Storage.Arena.Validity.{IsValid, claim-IsValid}
use dotnet_pal_rs.Storage.Arena.Blocks.{IsPlaced, live}

-- What a successful `allocate` has done.
pub record Allocated (p : Place) (s : Arena) (size alignment address : ℕ) (t : Arena) : Type 0 where
  pub first : ℕ
  pub at : address ≡ address_of p first
  pub some_blocks : 0 < size / granularity
  pub fits : Fits p s.slots (size / granularity) alignment first
  pub slots : t.slots ≡ claim s.slots first (size / granularity)
  pub bytes : t.bytes ≡ clear s.bytes (first * granularity) size

-- The four ways through the code.
allocate_cases :
    (p : Place) (s : Arena) (size alignment : ℕ)
    → let count = size / granularity in
      let found = search p s.slots count alignment (p.blocks + 1) 0 in
      (((count ≡ 0) ⊎ (p.blocks < count)) × (allocate p s size alignment ≡ (err out_of_memory, s)))
      ⊎ ((count ≤ p.blocks)
          × (found ≡ none)
          × (allocate p s size alignment ≡ (err out_of_memory, s)))
      ⊎ ((first : ℕ) × (0 < count)
          × (count ≤ p.blocks)
          × (found ≡ some first)
          × (allocate p s size alignment ≡ take_blocks p s size count first))
unfolding allocate
allocate_cases p s size alignment =
    elim (Bool-cases (size / granularity == 0 || ltb p.blocks (size / granularity))) [
      | inl bad ↦ inl (ground arith, rw bad)
      | inr good ↦
          elim (Option-cases (search p s.slots (size / granularity) alignment (p.blocks + 1) 0)) [
            | inl e ↦ inr (inl (ground arith, e, rw (good, e)))
            | inr (first, e) ↦ inr (inr (first, ground arith, ground arith, e, rw (good, e)))
          ]
    ]

-- A refusal is `OutOfMemory` and changes nothing.
pub allocate_refused :
    (p : Place) (s : Arena) (size alignment : ℕ) {e : Error} {t : Arena}
    → allocate p s size alignment ≡ (err e, t)
    → (e ≡ out_of_memory) × (t ≡ s)
unfolding take_blocks
allocate_refused p s size alignment h = elim (allocate_cases p s size alignment) [
  | inl (_, r) ↦ (cc, cc)
  | inr (inl (_, _, r)) ↦ (cc, cc)
  | inr (inr (first, pos, small, found, r)) ↦ cc
]

live-claim :
    (slots : List ℕ) (first count : ℕ)
    → 0 < count
    → first + count ≤ length slots
    → count ≢ tail
    → ((i : ℕ) → first ≤ i → i < first + count → get_or slots i 0 ≡ 0)
    → (i : ℕ) → live (claim slots first count) i ≡ (if i == first then count else live slots i)
unfolding live
live-claim slots first count pos fits small free i = elim (locate first count i pos) [
  | at_head e ↦
      let read : get_or (claim slots first count) i 0 ≡ count =
        rw e (claim_head slots first count pos (omega arith)) in
      ground arith
  | inside a b ↦
      let read = claim_inside slots first count pos i a b fits in
      let was = free i (omega arith) b in ground arith
  | outside o ↦ ground (arith, claim_outside slots first count pos i o)
]

module _ (p : Place) (s : Arena) (v : IsValid p.blocks s.slots) (size alignment : ℕ) where
  pub allocate-Allocated :
      {address : ℕ} {t : Arena}
      → allocate p s size alignment ≡ (ok address, t)
      → Allocated p s size alignment address t
  unfolding take_blocks
  allocate-Allocated {address} {t} e = elim (allocate_cases p s size alignment) [
    | inl (_, r) ↦ cc
    | inr (inl (_, _, r)) ↦ cc
    | inr (inr (first, pos, small, found, r)) ↦
        let same : (ok address, t) ≡ take_blocks p s size (size / granularity) first = sym e ∙ r in
        record {
          first = first;
          at = cc;
          some_blocks = pos;
          fits = (search-some p s.slots (size / granularity) alignment v.whole small _ 0 found).1;
          slots = cc;
          bytes = cc;
        }
  ]

  -- Wherever as many blocks as are asked for are free and aligned, `allocate` answers, with an
  -- address no higher.
  pub allocate_first_fit :
      (g : ℕ)
      → 0 < size / granularity
      → Fits p s.slots (size / granularity) alignment g
      → (f : ℕ) × (f ≤ g)
        × (allocate p s size alignment ≡ take_blocks p s size (size / granularity) f)
  allocate_first_fit g pos fits =
      let small : size / granularity ≤ p.blocks = omega (arith, fits.inside) in
      let (f, found, le) =
        search_first p s.slots (size / granularity) alignment v.whole small (p.blocks + 1) 0 g
          (omega arith) fits (omega arith) in
      elim (allocate_cases p s size alignment) [
        | inl (bad, _) ↦ absurd (omega (arith, bad))
        | inr (inl (_, nothing, _)) ↦ cc
        | inr (inr (first, _, _, found', r)) ↦ let same : f ≡ first = cc in (f, le, rw same r)
      ]

module _ (p : Place) (s : Arena) (placed : IsPlaced p) (v : IsValid p.blocks s.slots)
    (size alignment : ℕ) {address : ℕ} {t : Arena}
    (e : allocate p s size alignment ≡ (ok address, t)) where
  -- An allocation keeps the slots valid.
  pub allocate-IsValid : IsValid p.blocks t.slots
  allocate-IsValid =
      let done = allocate-Allocated p s v size alignment e in
      rw (done.slots) (
        claim-IsValid v done.first (size / granularity) done.some_blocks done.fits.inside
          (omega (arith, placed.in_space, done.fits.inside)) done.fits.free)

  -- The address lies at the alignment, when that is a power of two.
  pub allocate_aligned : is_power_of_two alignment ≡ true → address % alignment ≡ 0
  allocate_aligned h =
      let done = allocate-Allocated p s v size alignment e in
      let (k, _, e) = exponent alignment h in
      rw (done.at, e) (sym (bit_and-low k (address_of p done.first)) ∙ (rw e at done.fits.aligned))

  -- To its clients an allocation is one more entry of the map of live allocations, over blocks that
  -- were free, and its bytes read zero; every other entry and byte stays.
  pub allocate_refines :
      (first : ℕ) × (address ≡ address_of p first)
      × Fits p s.slots (size / granularity) alignment first
      × ((i : ℕ) → live t.slots i ≡ (if i == first then size / granularity else live s.slots i))
      × ((j : ℕ) → t.bytes j ≡ clear s.bytes (first * granularity) size j)
  allocate_refines = (done.first, done.at, done.fits, entry, λ j. ap (λ f. f j) done.bytes)
    where
      done : Allocated p s size alignment address t
      done = allocate-Allocated p s v size alignment e

      small : size / granularity ≢ tail
      small = omega (arith, placed.in_space, done.fits.inside)

      entry :
          (i : ℕ)
          → live t.slots i ≡ (if i == done.first then size / granularity else live s.slots i)
      entry i =
          ap (λ l. live l i) done.slots
          ∙ live-claim s.slots done.first (size / granularity) done.some_blocks
              (omega (arith, v.whole, done.fits.inside)) small done.fits.free i
