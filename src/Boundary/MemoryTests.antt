-- ===== src/Boundary/MemoryTests.antt =====
-- Runs of the front ends of memory, and the theorems on them.
use dotnet_pal_rs.Common.{
  ℕ, ◌+◌, ◌*◌, ◌/◌, ◌≤◌, ◌<◌, ◌≡◌, refl, [], ◌∷◌, arith, ◌⊎◌, ◌==◌, if◌then◌else◌, some, true,
}
use dotnet_pal_rs.Common.Words.{is_power_of_two}
use dotnet_pal_rs.Port.{Error, ok, err, busy, status, error_status}
use dotnet_pal_rs.Boundary.Geometry.{round_size, geometry, aligned_output}
use dotnet_pal_rs.Boundary.Memory.{
  Tally, increment, record_status, Memory, write, take_answer, acceptable, request, valid_range,
  VirtualMemory, reserve, range_op, allocate,
}
use dotnet_pal_rs.Boundary.Memory as Front
use dotnet_pal_rs.Boundary.Memory.Checks.{Granted, Refused, reserve_checked}
use dotnet_pal_rs.Boundary.Memory.Ranges.{IsPages, range_op_passes, range_op_guards}
use dotnet_pal_rs.Boundary.Memory.Storage.{
  arena_storage, allocate_over_arena, release-allocate_over_arena, allocate_over_arena_answers,
}
use dotnet_pal_rs.Storage.Arena.{
  Place, Arena, tail, granularity, address_of, clear, initial, occupied, search, claim,
}
use dotnet_pal_rs.Storage.Arena.Search.{Fits}
use dotnet_pal_rs.Storage.Arena.Validity.{IsValid, initial-IsValid}
use dotnet_pal_rs.Storage.Arena.Blocks.{IsPlaced, live}

-- Virtual memory that hands out rising addresses and never takes any back.
abbrev rising : VirtualMemory ℕ
rising = record {
  page_size = 4096;
  reserve = λ next size alignment. (ok next, next + size);
  commit = λ next address size. (ok tt, next);
  decommit = λ next address size. (ok tt, next);
  release = λ next address size. (err busy, next);
  reset = λ next address size. (ok tt, next);
}

abbrev unused : Tally
unused = record { done = 0; failed = 0 }

abbrev fresh : Memory ℕ
fresh = record { world = 8192; outputs = λ _. 7 }

abbrev reserved : Memory ℕ
reserved = record { world = 16384; outputs = write (write (λ _. 7) 64 0) 64 8192 }

reserves : reserve rising fresh unused 5000 0 0 64 ≡ (0, reserved, record { done = 1; failed = 0 })
unfolding reserve request take_answer acceptable record_status geometry round_size aligned_output
    is_power_of_two
reserves = refl

reserve_checked_example :
    ((◌≡◌ {A = ℕ} 0 0)
      × (record { done = 1; failed = 0 } ≡ record unused { done = increment unused.done })
      × Granted 4096 rising.reserve fresh 5000 0 0 64 reserved)
    ⊎ ((record { done = 1; failed = 0 } ≡ record unused { failed = increment unused.failed })
        × Refused 4096 rising.reserve fresh 5000 0 0 64 0 reserved)
reserve_checked_example = reserve_checked rising fresh unused 5000 0 0 64 reserves

releases :
    range_op rising rising.release 16384 unused 8192 5000
    ≡ (6, 16384, record { done = 0; failed = 1 })
unfolding range_op valid_range round_size record_status is_power_of_two status
releases = refl

-- The second page of two is filled in part.
range_op_passes_example :
    let answer = rising.release 16384 8192 8192 in
    let r = range_op rising rising.release 16384 unused 8192 5000 in
    (r.1 ≡ answer.1)
    × (((answer.0 ≡ ok tt) × (r.0 ≡ 0) × (r.2 ≡ record unused { done = increment unused.done }))
        ⊎ ((e : Error) × (answer.0 ≡ err e)
            × (r.0 ≡ error_status e)
            × (0 < error_status e)
            × (r.2 ≡ record unused { failed = increment unused.failed })))
unfolding is_power_of_two
range_op_passes_example =
    range_op_passes rising rising.release 16384 unused 8192 5000 2 refl (omega arith) refl
      (omega arith) (omega arith) (omega arith) (omega arith) (omega arith)

range_op_guards_example :
    ((rounded : ℕ) × IsPages 4096 8193 5000 rounded)
    ⊎ (range_op rising rising.commit 16384 unused 8193 5000
        ≡ (2, 16384, record unused { failed = increment unused.failed }))
range_op_guards_example = range_op_guards rising rising.commit 16384 unused 8193 5000

-- Two blocks at 64 KiB.
abbrev place : Place
place = record { base = 65536; blocks = 2 }

place-IsPlaced : IsPlaced place
place-IsPlaced = omega arith

abbrev start : Memory Arena
start = record { world = record { slots = 0 ∷ 0 ∷ []; bytes = λ _. 0 }; outputs = λ _. 7 }

start-IsValid : IsValid 2 start.world.slots
unfolding initial
start-IsValid = initial-IsValid place

abbrev full : Memory Arena
full = record {
  world = record { slots = 2 ∷ tail ∷ []; bytes = clear (λ _. 0) 0 8192 };
  outputs = write (write (λ _. 7) 64 0) 64 65536;
}

allocates :
    allocate (arena_storage place) start unused 5000 0 0 64
    ≡ (0, full, record { done = 1; failed = 0 })
unfolding allocate request take_answer acceptable record_status geometry round_size aligned_output
    is_power_of_two dotnet_pal_rs.Storage.Arena.allocate search occupied claim
allocates = refl

allocate_over_arena_example :
    (first rounded : ℕ) × (full.outputs 64 ≡ address_of place first)
    × (round_size 5000 granularity ≡ some rounded)
    × ((i : ℕ)
        → live full.world.slots i
          ≡ (if i == first then rounded / granularity else live start.world.slots i))
    × ((j : ℕ) → full.world.bytes j ≡ clear start.world.bytes (first * granularity) rounded j)
    × IsValid 2 full.world.slots
allocate_over_arena_example =
    allocate_over_arena place start unused place-IsPlaced start-IsValid 5000 0 0 64 allocates

release-allocate_over_arena_example :
    (u : Arena) × (Front.release (arena_storage place) full.world unused 65536 5000
      ≡ (0, u, record { done = 1; failed = 0 }))
    × (u.slots ≡ start.world.slots)
release-allocate_over_arena_example =
    release-allocate_over_arena place start unused place-IsPlaced start-IsValid 5000 0 0 64
      allocates unused

two_blocks : geometry 5000 0 4096 ≡ some (8192, 4096)
unfolding geometry round_size is_power_of_two
two_blocks = refl

room : Fits place start.world.slots (8192 / granularity) 4096 0
room = record { inside = omega arith; aligned = refl; free = λ i _ _. ground arith }

output_64 : aligned_output 8 64 ≡ true
unfolding aligned_output
output_64 = refl

allocate_over_arena_answers_example :
    (t : Memory Arena) × (allocate (arena_storage place) start unused 5000 0 0 64
      ≡ (0, t, record { done = 1; failed = 0 }))
    × (t.outputs 64 ≤ 65536)
allocate_over_arena_answers_example =
    allocate_over_arena_answers place start unused place-IsPlaced start-IsValid 5000 0 64 8192 4096
      0 (omega arith) two_blocks output_64 room
