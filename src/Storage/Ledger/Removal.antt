-- ===== src/Storage/Ledger/Removal.antt =====
-- `Ledger::release` and `Ledger::zero` on the regions that are owned.
use dotnet_pal_rs.Common.{
  ℕ, ◌+◌, ◌-◌, ◌≤◌, ◌<◌, ◌≡◌, refl, ap, ◌⊎◌, inl, inr, length, set, arith, Bool-cases, Option-cases,
  leb, ◌==◌, ◌||◌, position, any, position-some, any-true,
}
use dotnet_pal_rs.Common.Words.{usize_max}
use dotnet_pal_rs.Port.{Error, Result, ok, err, invalid_argument, Result-cases}
use dotnet_pal_rs.Storage.Ledger.{
  empty, Backing, Ledger, normalize, clear, is_region, holds, release_from, release, zeroes,
}
use dotnet_pal_rs.Storage.Ledger.Regions.{region}
use dotnet_pal_rs.Storage.Ledger.Validity.{IsValid, leave-IsValid}
use dotnet_pal_rs.Storage.Ledger.Ownership.{Unchanged}

module _ {W : Type 0} where
  -- The entry that `release` removes.
  pub record Left (s : Ledger W) (address size : ℕ) (t : Ledger W) : Type 0 where
    pub index : ℕ
    pub inside : index < length s.regions
    pub was : region s.regions index ≡ record { base = address; size = size }
    pub some_bytes : 0 < size
    pub regions : t.regions ≡ set s.regions index empty
    pub owned : t.owned ≡ s.owned - size
    pub bytes : t.bytes ≡ s.bytes

  release_cases :
      (b : Backing W) (s : Ledger W) (address size : ℕ)
      → ((e : Error) × (t : Ledger W) × Unchanged s t × (release b s address size ≡ (err e, t)))
        ⊎ ((t : Ledger W) × Left s address size t
            × ((b.release s.world address size).0 ≡ ok tt)
            × (release b s address size ≡ (ok tt, t)))
  unfolding release
  release_cases b s address size =
      elim (Option-cases (position (is_region address size) s.regions)) [
        | inl none_such ↦ inl (
          invalid_argument,
          s,
          record { regions = refl; owned = refl; bytes = refl },
          rw (none_such, release),
        )
        | inr (index, found) ↦
            let (inside, test) =
              position-some (is_region address size) s.regions index empty found in
            elim (Result-cases (b.release s.world address size).0) [
              | inr (e, refused) ↦ inl (
                normalize e,
                called,
                record { regions = refl; owned = refl; bytes = refl },
                rw (found, refused, release, release_from),
              )
              | inl (tt, granted) ↦ inr (
                record called { regions = set s.regions index empty; owned = s.owned - size },
                record {
                  index = index;
                  inside = inside;
                  was = ground arith;
                  some_bytes = ground arith;
                  regions = refl;
                  owned = refl;
                  bytes = refl;
                },
                granted,
                rw (found, granted, release, release_from),
              )
            ]
      ]
    where
      called : Ledger W
      called = record s { world = (b.release s.world address size).1 }

  module _ (b : Backing W) (s : Ledger W) (address size : ℕ) where
    -- Whatever the backing answers, and whether the call succeeds, the ledger accounts for every byte
    -- afterwards when it did before.
    pub release-IsValid :
        (capacity : ℕ) {r : Result (Unit {0})} {t : Ledger W}
        → IsValid capacity s.regions s.owned
        → release b s address size ≡ (r, t)
        → IsValid capacity t.regions t.owned
    release-IsValid capacity {r} {t} v e = elim (release_cases b s address size) [
      | inl (_, t', u, r') ↦ let same : t ≡ t' = cc in rw (same, u.regions, u.owned) v
      | inr (t', d, _, r') ↦
          let same : t ≡ t' = cc in
          let was : (region s.regions d.index).size ≡ size = ap (λ r. r.size) d.was in
          rw (same, d.regions, d.owned, ← was) (leave-IsValid v d.index d.inside)
    ]

    -- Only storage that the ledger owns, by its address and its whole size, is ever given back: the
    -- backing has taken it back, and its entry and its bytes of the budget are free again.
    pub release_owned :
        {t : Ledger W}
        → release b s address size ≡ (ok tt, t)
        → (i : ℕ) × (region s.regions i ≡ record { base = address; size = size })
          × (0 < size)
          × ((b.release s.world address size).0 ≡ ok tt)
          × (t.regions ≡ set s.regions i empty)
          × (t.owned ≡ s.owned - size)
          × (t.bytes ≡ s.bytes)
    release_owned {t} e = elim (release_cases b s address size) [
      | inl (_, _, _, r') ↦ cc
      | inr (t', d, granted, r') ↦
          let same : t ≡ t' = cc in
          rw same (d.index, d.was, d.some_bytes, granted, d.regions, d.owned, d.bytes)
    ]

    pub release_failed :
        {e : Error} {t : Ledger W} → release b s address size ≡ (err e, t) → Unchanged s t
    release_failed {t = t} e = elim (release_cases b s address size) [
      | inl (_, t', u, r') ↦ let same : t ≡ t' = cc in rw same u
      | inr (_, _, _, r') ↦ cc
    ]

  -- Clearing: the range lies in one owned region, and no other byte changes.
  pub zeroes_owned :
      (s : Ledger W) (base size : ℕ) {t : Ledger W}
      → zeroes s base size ≡ (ok tt, t)
      → (i : ℕ) × (0 < size)
        × (0 < (region s.regions i).size)
        × ((region s.regions i).base ≤ base)
        × (base + size ≤ (region s.regions i).base + (region s.regions i).size)
        × (t ≡ record s { bytes = clear s.bytes base size })
  unfolding zeroes
  zeroes_owned s base size {t} e = elim (Bool-cases (leb (base + size) usize_max)) [
    | inr over ↦ let r = (rw (over, zeroes) at e) in cc
    | inl sum ↦ elim (Bool-cases (base == 0 || size == 0)) [
      | inl bad ↦ let r = (rw (sum, bad, zeroes) at e) in cc
      | inr good ↦ elim (Bool-cases (any (holds base (base + size)) s.regions)) [
        | inr missing ↦ let r = (rw (sum, good, missing, zeroes) at e) in cc
        | inl held ↦
            let r = (rw (sum, good, held, zeroes) at e) in
            let (i, _, test) = any-true (holds base (base + size)) s.regions empty held in
            (i, ground arith, ground arith, ground arith, ground arith, cc)
      ]
    ]
  ]
