-- ===== src/Storage/Tests.antt =====
-- Runs of the storage providers, and the theorems about them at concrete inputs.
use dotnet_pal_rs.Common.{
  ℕ, ◌+◌, ◌*◌, ◌≤◌, ◌<◌, ◌≡◌, ◌==◌, refl, if◌then◌else◌, [], ◌∷◌, get_or, arith, leb, ltb, ◌&&◌,
}
use dotnet_pal_rs.Port.{ok, err, out_of_memory}
use dotnet_pal_rs.Storage.Arena.{
  Place, Arena, tail, granularity, address_of, clear, initial, occupied, search, claim, take_blocks,
  allocate, release, zeroes,
}
use dotnet_pal_rs.Storage.Arena.Search.{Fits}
use dotnet_pal_rs.Storage.Arena.Validity.{IsValid, initial-IsValid}
use dotnet_pal_rs.Storage.Arena.Blocks.{IsPlaced, live}
use dotnet_pal_rs.Storage.Arena.Blocks.Allocate.{
  allocate_refines, allocate-IsValid, allocate_first_fit,
}
use dotnet_pal_rs.Storage.Arena.Blocks.Release.{
  release_refines, release_live, release-allocate, after_release,
}
use dotnet_pal_rs.Storage.Arena.Zero.{zeroes_refines, zeroes-Within, Within, after_zero}

-- Four blocks at 64 KiB.
abbrev place : Place
place = record { base = 65536; blocks = 4 }

place-IsPlaced : IsPlaced place
place-IsPlaced = omega arith

abbrev start : Arena
start = record { slots = 0 ∷ 0 ∷ 0 ∷ 0 ∷ []; bytes = λ _. 0 }

-- The first two blocks are taken.
abbrev half_full : Arena
half_full = record { slots = 2 ∷ tail ∷ 0 ∷ 0 ∷ []; bytes = clear (λ _. 0) 0 8192 }

start_lem : initial place ≡ start
unfolding initial
start_lem = refl

start-IsValid : IsValid 4 start.slots
unfolding initial
start-IsValid = initial-IsValid place

allocates : allocate place start 8192 4096 ≡ (ok 65536, half_full)
unfolding allocate search occupied claim
allocates = refl

half_full-IsValid : IsValid 4 half_full.slots
half_full-IsValid = allocate-IsValid place start place-IsPlaced start-IsValid 8192 4096 allocates

-- A request for 16 KiB does not fit behind it, and one at 64 KiB does not find an aligned block.
refuses :
    (allocate place half_full 16384 4096 ≡ (err out_of_memory, half_full))
    × (allocate place half_full 4096 65536 ≡ (err out_of_memory, half_full))
unfolding allocate search occupied
refuses = (refl, refl)

allocate_refines_example :
    (first : ℕ) × (65536 ≡ address_of place first)
    × Fits place start.slots 2 4096 first
    × ((i : ℕ) → live half_full.slots i ≡ (if i == first then 2 else live start.slots i))
    × ((j : ℕ) → half_full.bytes j ≡ clear start.bytes (first * granularity) 8192 j)
allocate_refines_example =
    allocate_refines place start place-IsPlaced start-IsValid 8192 4096 allocates

allocate-IsValid_example : IsValid 4 half_full.slots
allocate-IsValid_example =
    allocate-IsValid place start place-IsPlaced start-IsValid 8192 4096 allocates

free_behind : (i : ℕ) → 2 ≤ i → i < 2 + 1 → get_or half_full.slots i 0 ≡ 0
free_behind i a b = let e : i ≡ 2 = omega arith in rw e

second_fit : Fits place half_full.slots 1 4096 2
second_fit = record { inside = omega arith; aligned = refl; free = free_behind }

allocate_first_fit_example :
    (f : ℕ) × (f ≤ 2) × (allocate place half_full 4096 4096 ≡ take_blocks place half_full 4096 1 f)
allocate_first_fit_example =
    allocate_first_fit place half_full half_full-IsValid 4096 4096 2 (omega arith) second_fit

releases : release place half_full 65536 8192 ≡ (ok tt, record start { bytes = half_full.bytes })
unfolding release
releases = refl

release_refines_example :
    (first : ℕ) × (65536 ≡ address_of place first)
    × (0 < live half_full.slots first)
    × (live half_full.slots first ≡ 2)
    × ((i : ℕ) → live start.slots i ≡ (if i == first then 0 else live half_full.slots i))
    × (half_full.bytes ≡ half_full.bytes)
    × IsValid 4 start.slots
release_refines_example =
    release_refines place half_full half_full-IsValid 65536 8192
      {t = record start { bytes = half_full.bytes }} releases

release_live_example : release place half_full 65536 8192 ≡ (ok tt, after_release half_full 0)
unfolding live
release_live_example = release_live place half_full half_full-IsValid 0 8192 (omega arith) refl

release-allocate_example :
    (u : Arena) × (release place half_full 65536 8192 ≡ (ok tt, u)) × (u.slots ≡ start.slots)
release-allocate_example =
    release-allocate place start 8192 4096 place-IsPlaced start-IsValid allocates

-- 100 bytes across the border of the two blocks.
zeroed-Within : Within place half_full.slots 69600 100 0
unfolding live
zeroed-Within = record {
  taken = omega arith;
  starts = omega arith;
  ends = omega arith;
  some_bytes = omega arith;
}

zeroes-Within_example :
    zeroes place half_full 69600 100 ≡ (ok tt, after_zero place half_full 69600 100)
zeroes-Within_example =
    zeroes-Within place half_full half_full-IsValid 69600 100 0 place-IsPlaced zeroed-Within

zeroes_refines_example :
    (first : ℕ) × Within place half_full.slots 69600 100 first
    × (half_full.slots ≡ half_full.slots)
    × ((j : ℕ)
        → clear half_full.bytes 4064 100 j ≡ (
            if leb 69600 (65536 + j) && ltb (65536 + j) (69600 + 100)
            then 0
            else half_full.bytes j))
zeroes_refines_example =
    zeroes_refines place half_full half_full-IsValid 69600 100
      {t = after_zero place half_full 69600 100} zeroes-Within_example
