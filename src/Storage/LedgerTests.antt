-- ===== src/Storage/LedgerTests.antt =====
-- Runs of the ledger over a backing that hands out rising addresses, and its theorems on them.
use dotnet_pal_rs.Common.{
  ℕ, zero, suc, ◌+◌, ◌-◌, ◌≤◌, ◌<◌, ◌≡◌, ◌%◌, refl, [], ◌∷◌, arith, ◌⊎◌, set, ap,
}
use dotnet_pal_rs.Common.Words.{usize_max}
use dotnet_pal_rs.Port.{Error, ok, err, out_of_memory}
use dotnet_pal_rs.Storage.Ledger.{Region, empty, Backing, Ledger, clear, allocate, release, zeroes}
use dotnet_pal_rs.Storage.Ledger.Regions.{region}
use dotnet_pal_rs.Storage.Ledger.Validity.{IsValid, Apart}
use dotnet_pal_rs.Storage.Ledger.Ownership.{granted-IsValid, allocate_exclusive}
use dotnet_pal_rs.Storage.Ledger.Removal.{release-IsValid, release_owned, zeroes_owned}

-- A backing whose state is the next free address; it takes everything back.
abbrev rising : Backing ℕ
rising = record {
  allocate = λ next size alignment. (ok next, next + size);
  release = λ next address size. (ok tt, next);
}

-- A broken backing, which hands out one address again and again.
abbrev stuck : Backing ℕ
stuck = record {
  allocate = λ next size alignment. (ok next, next);
  release = λ next address size. (ok tt, next);
}

abbrev fresh : Ledger ℕ
fresh = record { regions = empty ∷ empty ∷ []; owned = 0; world = 4096; bytes = λ _. 7 }

abbrev used : Ledger ℕ
used = record {
  regions = record { base = 4096; size = 8192 } ∷ empty ∷ [];
  owned = 8192;
  world = 12288;
  bytes = clear (λ _. 7) 4096 8192;
}

region-fresh : (i : ℕ) → region fresh.regions i ≡ empty
region-fresh zero = refl
region-fresh (suc zero) = refl
region-fresh (suc (suc i)) = refl

fresh-IsValid : IsValid 65536 fresh.regions fresh.owned
fresh-IsValid = record {
  counted = refl;
  budget = omega arith;
  placed = λ i h. absurd (omega (arith, ap (λ (r : Region). r.size) (region-fresh i)));
  apart = λ i j _ h. absurd (omega (arith, ap (λ (r : Region). r.size) (region-fresh i)));
}

grants : allocate 65536 rising fresh 8192 4096 ≡ (ok 4096, used)
unfolding allocate
grants = refl

used-IsValid : IsValid 65536 used.regions used.owned
used-IsValid = granted-IsValid 65536 rising fresh fresh-IsValid 8192 4096 grants

-- The same storage twice, or more than is left of the budget, is refused.
refuses :
    ((allocate 65536 stuck (record used { world = 4096 }) 4096 4096).0 ≡ err Error.os)
    × ((allocate 65536 rising used 61440 4096).0 ≡ err out_of_memory)
unfolding allocate
refuses = (refl, refl)

granted-IsValid_example : IsValid 65536 used.regions used.owned
granted-IsValid_example = granted-IsValid 65536 rising fresh fresh-IsValid 8192 4096 grants

allocate_exclusive_example :
    (◌≡◌ {A = ℕ} (4096 % 4096) 0)
    × (4096 + 8192 ≤ usize_max)
    × (used.owned ≡ 0 + 8192)
    × (0 + 8192 ≤ 65536)
    × ((i : ℕ)
        → ((region fresh.regions i).size ≡ 0)
          ⊎ Apart (record { base = 4096; size = 8192 }) (region fresh.regions i))
    × ((j : ℕ) → used.bytes j ≡ clear fresh.bytes 4096 8192 j)
allocate_exclusive_example =
    allocate_exclusive 65536 rising fresh fresh-IsValid 8192 4096 {base = 4096} {t = used} grants

takes_back :
    release rising used 4096 8192 ≡ (ok tt, record used { regions = empty ∷ empty ∷ []; owned = 0 })
unfolding release
takes_back = refl

release_owned_example :
    (i : ℕ) × (region used.regions i ≡ record { base = 4096; size = 8192 })
    × (0 < 8192)
    × ((rising.release used.world 4096 8192).0 ≡ ok tt)
    × (empty ∷ empty ∷ [] ≡ set used.regions i empty)
    × (0 ≡ used.owned - 8192)
    × (used.bytes ≡ used.bytes)
release_owned_example =
    release_owned rising used 4096 8192
      {t = record used { regions = empty ∷ empty ∷ []; owned = 0 }} takes_back

release-IsValid_example : IsValid 65536 (empty ∷ empty ∷ []) 0
release-IsValid_example =
    release-IsValid rising used 4096 8192 65536
      {t = record used { regions = empty ∷ empty ∷ []; owned = 0 }} used-IsValid takes_back

clears : zeroes used 5000 100 ≡ (ok tt, record used { bytes = clear used.bytes 5000 100 })
unfolding zeroes
clears = refl

zeroes_owned_example :
    (i : ℕ) × (0 < 100)
    × (0 < (region used.regions i).size)
    × ((region used.regions i).base ≤ 5000)
    × (5000 + 100 ≤ (region used.regions i).base + (region used.regions i).size)
    × (record used { bytes = clear used.bytes 5000 100 }
        ≡ record used { bytes = clear used.bytes 5000 100 })
zeroes_owned_example =
    zeroes_owned used 5000 100 {t = record used { bytes = clear used.bytes 5000 100 }} clears
