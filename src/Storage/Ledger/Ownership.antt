-- ===== src/Storage/Ledger/Ownership.antt =====
-- `Ledger::allocate`: what it hands out, whatever the backing answers.
use native.Mathlib.Decide.{ℕ_discrete, dec_lt}
use dotnet_pal_rs.Common.{
  ℕ, ◌+◌, ◌-◌, ◌%◌, ◌≤◌, ◌<◌, ◌≡◌, refl, ap, ◌⊎◌, inl, inr, List, false, not, length, set, arith,
  Bool-cases, Option-cases, ltb, leb, ◌==◌, ◌||◌, position, any, position-some, any-false,
  get_or_beyond,
}
use dotnet_pal_rs.Common.Words.{usize_max}
use dotnet_pal_rs.Port.{Error, Result, ok, err, os, out_of_memory, Result-cases}
use dotnet_pal_rs.Storage.Ledger.{
  Region, empty, Backing, Ledger, normalize, clear, overlaps, enter, allocate_from, allocate,
}
use dotnet_pal_rs.Storage.Ledger.Regions.{region}
use dotnet_pal_rs.Storage.Ledger.Validity.{IsValid, Apart, enter-IsValid}

-- What the checks of the backing's answer leave.
abbrev IsSound : List Region → ℕ → ℕ → ℕ → Type 0
IsSound regions size alignment base =
    (0 < base)
    × (base + size ≤ usize_max)
    × (base % alignment ≡ 0)
    × (any (overlaps base (base + size)) regions ≡ false)

module _ {W : Type 0} where
  -- Regions, budget and memory are as they were.
  pub record Unchanged (s t : Ledger W) : Type 0 where
    pub regions : t.regions ≡ s.regions
    pub owned : t.owned ≡ s.owned
    pub bytes : t.bytes ≡ s.bytes

  -- What a successful `allocate` has done.
  pub record Entered (capacity : ℕ) (s : Ledger W) (size alignment base : ℕ) (t : Ledger W)
      : Type 0 where
    pub index : ℕ
    pub inside : index < length s.regions
    pub was_empty : (region s.regions index).size ≡ 0
    pub some_bytes : 0 < size
    pub fits : size ≤ capacity - s.owned
    pub not_null : 0 < base
    pub in_space : base + size ≤ usize_max
    pub aligned : base % alignment ≡ 0
    pub far : any (overlaps base (base + size)) s.regions ≡ false
    pub regions : t.regions ≡ set s.regions index (record { base = base; size = size })
    pub owned : t.owned ≡ s.owned + size
    pub bytes : t.bytes ≡ clear s.bytes base size

  abbrev entered : Ledger W → ℕ → ℕ → ℕ → Ledger W
  entered s size index base = record s {
    regions = set s.regions index (record { base = base; size = size });
    owned = s.owned + size;
    bytes = clear s.bytes base size;
  }

  enter_cases :
      (s : Ledger W) (size alignment index base : ℕ)
      → (enter s size alignment index base ≡ (err os, s))
        ⊎ (IsSound s.regions size alignment base
            × (enter s size alignment index base ≡ (ok base, entered s size index base)))
  unfolding enter
  enter_cases s size alignment index base = elim (Bool-cases (leb (base + size) usize_max)) [
    | inr over ↦ inl (rw (over, enter))
    | inl sum ↦ elim (Bool-cases (base == 0 || not (base % alignment == 0))) [
      | inl bad ↦ inl (rw (sum, bad, enter))
      | inr good ↦ elim (Bool-cases (any (overlaps base (base + size)) s.regions)) [
        | inl meets ↦ inl (rw (sum, good, meets, enter))
        | inr far ↦
            inr ((ground arith, ground arith, ground arith, far), rw (sum, good, far, enter))
      ]
    ]
  ]

  -- Every call either fails, and then nothing has changed but the backing, or has entered a region.
  allocate_cases :
      (capacity : ℕ) (b : Backing W) (s : Ledger W) (size alignment : ℕ)
      → ((e : Error) × (t : Ledger W) × Unchanged s t
          × (allocate capacity b s size alignment ≡ (err e, t)))
        ⊎ ((base : ℕ) × (t : Ledger W) × Entered capacity s size alignment base t
            × (allocate capacity b s size alignment ≡ (ok base, t)))
  unfolding allocate
  allocate_cases capacity b s size alignment =
      elim (Bool-cases (size == 0 || ltb (capacity - s.owned) size)) [
        | inl bad ↦ inl (out_of_memory, s, same s, rw (bad, allocate))
        | inr good ↦ elim (Option-cases (position (λ r. r.size == 0) s.regions)) [
          | inl full ↦ inl (out_of_memory, s, same s, rw (good, full, allocate))
          | inr (index, found) ↦ elim (Result-cases (b.allocate s.world size alignment).0) [
            | inr (e, refused) ↦ inl (
              normalize e,
              called s,
              same (called s),
              rw (good, found, refused, allocate, allocate_from),
            )
            | inl (base, granted) ↦ elim (enter_cases (called s) size alignment index base) [
              | inl r ↦ inl (
                os,
                called s,
                same (called s),
                rw (good, found, granted, allocate, allocate_from) r,
              )
              | inr ((not_null, in_space, aligned, far), r) ↦
                  let (inside, free) =
                    position-some (λ r. r.size == 0) s.regions index empty found in
                  inr (
                    base,
                    entered (called s) size index base,
                    record {
                      index = index;
                      inside = inside;
                      was_empty = ground arith;
                      some_bytes = ground arith;
                      fits = ground arith;
                      not_null = not_null;
                      in_space = in_space;
                      aligned = aligned;
                      far = far;
                      regions = refl;
                      owned = refl;
                      bytes = refl;
                    },
                    rw (good, found, granted, allocate, allocate_from) r,
                  )
            ]
          ]
        ]
      ]
    where
      called : Ledger W → Ledger W
      called s = record s { world = (b.allocate s.world size alignment).1 }

      same : (t : Ledger W) → Unchanged s (record s { world = t.world })
      same t = record { regions = refl; owned = refl; bytes = refl }

  module _ (capacity : ℕ) (b : Backing W) (s : Ledger W) (v : IsValid capacity s.regions s.owned)
      (size alignment : ℕ) where
    -- Storage that was granted meets no region that was owned before.
    granted-Apart :
        {base : ℕ} {t : Ledger W}
        → Entered capacity s size alignment base t
        → (i : ℕ) → 0 < (region s.regions i).size
        → Apart (record { base = base; size = size }) (region s.regions i)
    granted-Apart {base} d i taken = elim (dec_lt i (length s.regions)) [
      | yes lt ↦
          let test = any-false (overlaps base (base + size)) s.regions i empty d.far lt in
          ground arith
      | no ge ↦
          absurd (omega (arith, ap (λ r. r.size) (get_or_beyond s.regions i empty (omega arith))))
    ]

    -- Whatever the backing answers, the ledger accounts for every byte afterwards.
    pub granted-IsValid :
        {r : Result ℕ} {t : Ledger W}
        → allocate capacity b s size alignment ≡ (r, t)
        → IsValid capacity t.regions t.owned
    granted-IsValid {r} {t} e = elim (allocate_cases capacity b s size alignment) [
      | inl (_, t', u, r') ↦ let same : t ≡ t' = cc in rw (same, u.regions, u.owned) v
      | inr (base, t', d, r') ↦
          let same : t ≡ t' = cc in
          rw (same, d.regions, d.owned)
            (enter-IsValid v d.index d.inside (record { base = base; size = size }) d.was_empty
              (omega (arith, d.fits, v.budget)) d.not_null d.in_space (granted-Apart d))
    ]

    -- Storage that is handed out is aligned, lies in the address space and within the budget, meets
    -- no region that is owned, and reads zero; no other byte has changed.
    pub allocate_exclusive :
        {base : ℕ} {t : Ledger W}
        → allocate capacity b s size alignment ≡ (ok base, t)
        → (base % alignment ≡ 0)
          × (base + size ≤ usize_max)
          × (t.owned ≡ s.owned + size)
          × (s.owned + size ≤ capacity)
          × ((i : ℕ)
              → ((region s.regions i).size ≡ 0)
                ⊎ Apart (record { base = base; size = size }) (region s.regions i))
          × ((j : ℕ) → t.bytes j ≡ clear s.bytes base size j)
    allocate_exclusive {base} {t} e = elim (allocate_cases capacity b s size alignment) [
      | inl (_, t', _, r') ↦ cc
      | inr (base', t', d, r') ↦
          let same : t ≡ t' = cc in
          let same_base : base ≡ base' = cc in
          rw (same, same_base)
            (
              d.aligned,
              d.in_space,
              d.owned,
              omega (arith, d.fits, v.budget),
              (λ i. elim (ℕ_discrete (region s.regions i).size 0) [
                | yes z ↦ inl z
                | no n ↦ inr (granted-Apart d i (omega arith))
              ]),
              λ j. ap (λ f. f j) d.bytes,
            )
    ]

    -- A call that fails has changed nothing but the backing's own state.
    pub allocate_failed :
        {e : Error} {t : Ledger W}
        → allocate capacity b s size alignment ≡ (err e, t)
        → Unchanged s t
    allocate_failed {t = t} e = elim (allocate_cases capacity b s size alignment) [
      | inl (_, t', u, r') ↦ let same : t ≡ t' = cc in rw same u
      | inr (_, _, _, r') ↦ cc
    ]
