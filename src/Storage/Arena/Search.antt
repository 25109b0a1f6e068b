-- ===== src/Storage/Arena/Search.antt =====
-- The search of `allocate`, and the places where an allocation fits.
use dotnet_pal_rs.Common.{
  ℕ, zero, suc, ◌+◌, ◌-◌, ◌≤◌, ◌<◌, ◌≡◌, ◌≢◌, ◌∙◌, sym, refl, ◌⊎◌, inl, inr, List, Option, none,
  some, get_or, length, bit_and, leb, ◌==◌, true, not, arith, Bool-cases, Option-cases,
  position-none, position-some, get_or-slice, length-slice, take, drop, ==_iff,
}
use native.Mathlib.Decide.{dec_lt}
use dotnet_pal_rs.Storage.Arena.{Place, occupied, search, address_of}

-- `count` blocks from `first` on are there and free, and the address meets the alignment.
pub record Fits (p : Place) (slots : List ℕ) (count alignment first : ℕ) : Type 0 where
  pub inside : first + count ≤ p.blocks
  pub aligned : bit_and (address_of p first) (alignment - 1) ≡ 0
  pub free : (i : ℕ) → first ≤ i → i < first + count → get_or slots i 0 ≡ 0

occupied-none :
    (slots : List ℕ) (first count i : ℕ)
    → occupied slots first count ≡ none
    → first + count ≤ length slots
    → first ≤ i
    → i < first + count
    → get_or slots i 0 ≡ 0
unfolding occupied
occupied-none slots first count i e h a b =
    let read = get_or-slice slots first count (i - first) i 0 (omega arith) (omega arith) in
    let test =
      position-none (λ n. not (n == 0)) (take count (drop first slots)) (i - first) 0 e
        (omega (arith, length-slice slots first count h)) in
    ground (arith, read, test)

occupied-some :
    (slots : List ℕ) (first count n : ℕ)
    → occupied slots first count ≡ some n
    → first + count ≤ length slots
    → (n < count) × (get_or slots (first + n) 0 ≢ 0)
unfolding occupied
occupied-some slots first count n e h =
    let found = position-some (λ n. not (n == 0)) (take count (drop first slots)) n 0 e in
    let lt : n < count = omega (arith, length-slice slots first count h, found.0) in
    let read = get_or-slice slots first count n (first + n) 0 lt refl in
    (lt, ground (arith, read, found.1))

module _ (p : Place) (slots : List ℕ) (count alignment : ℕ) (whole : length slots ≡ p.blocks)
    (small : count ≤ p.blocks) where
  -- One round of the loop: what it saw, and what it answers.
  abbrev Round : ℕ → ℕ → Option ℕ → Type 0
  Round fuel first r =
      ((p.blocks - count < first) × (r ≡ none))
      ⊎ ((bit_and (address_of p first) (alignment - 1) ≢ 0)
          × (r ≡ search p slots count alignment fuel (first + 1)))
      ⊎ ((n : ℕ) × (n < count)
          × (get_or slots (first + n) 0 ≢ 0)
          × (r ≡ search p slots count alignment fuel (first + (n + 1))))
      ⊎ (Fits p slots count alignment first × (r ≡ some first))

  search-Round :
      (fuel first : ℕ) → Round fuel first (search p slots count alignment (suc fuel) first)
  unfolding search
  search-Round fuel first = elim (Bool-cases (leb first (p.blocks - count))) [
    | inr a ↦ inl (ground arith, rw (a, search))
    | inl a ↦ elim (Bool-cases (bit_and (address_of p first) (alignment - 1) == 0)) [
      | inr b ↦ inr (inl (ground arith, rw (a, b, search)))
      | inl b ↦ elim (Option-cases (occupied slots first count)) [
        | inr (n, c) ↦
            let (lt, used) = occupied-some slots first count n c (ground arith) in
            inr (inr (inl (n, lt, used, rw (a, b, c, search))))
        | inl c ↦ inr (inr (inr (fits a b c, rw (a, b, c, search))))
      ]
    ]
  ]
    where
      fits :
          leb first (p.blocks - count) ≡ true
          → (bit_and (address_of p first) (alignment - 1) == 0) ≡ true
          → occupied slots first count ≡ none
          → Fits p slots count alignment first
      fits a b c = record {
        inside = ground arith;
        aligned = (==_iff _ 0).0 b;
        free = λ i. occupied-none slots first count i c (ground arith);
      }

  -- What the search finds fits.
  pub search-some :
      (fuel first : ℕ) {f : ℕ}
      → search p slots count alignment fuel first ≡ some f
      → (first ≤ f) × Fits p slots count alignment f
  search-some zero first e = absurd (unfold search in cc)
  search-some (suc fuel) first {f} e = elim (search-Round fuel first) [
    | inl (_, r) ↦ cc
    | inr (inl (_, r)) ↦
        let (a, fits) = search-some fuel (first + 1) (sym r ∙ e) in (omega arith, fits)
    | inr (inr (inl (n, _, _, r))) ↦
        let (a, fits) = search-some fuel (first + (n + 1)) (sym r ∙ e) in (omega arith, fits)
    | inr (inr (inr (fits, r))) ↦ let same : first ≡ f = cc in (omega arith, rw (← same) fits)
  ]

  -- With enough fuel it passes over no place that fits.
  pub search_first :
      (fuel first g : ℕ)
      → p.blocks < first + fuel
      → Fits p slots count alignment g
      → first ≤ g
      → (f : ℕ) × (search p slots count alignment fuel first ≡ some f) × (f ≤ g)
  search_first zero first g h fits a = absurd (omega (arith, fits.inside))
  search_first (suc fuel) first g h fits a = elim (search-Round fuel first) [
    | inl (beyond, _) ↦ absurd (omega (arith, fits.inside))
    | inr (inl (crooked, r)) ↦
        let ne : first ≢ g = λ e. crooked (rw e fits.aligned) in
        let (f, found, le) = search_first fuel (first + 1) g (omega arith) fits (omega arith) in
        (f, r ∙ found, le)
    | inr (inr (inl (n, lt, used, r))) ↦
        let past : first + n < g = elim (dec_lt (first + n) g) [
          | yes lt' ↦ lt'
          | no ge ↦ absurd (used (fits.free (first + n) (omega arith) (omega arith)))
        ] in
        let (f, found, le) =
          search_first fuel (first + (n + 1)) g (omega arith) fits (omega arith) in
        (f, r ∙ found, le)
    | inr (inr (inr (_, r))) ↦ (first, r, a)
  ]
