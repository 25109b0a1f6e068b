-- ===== src/Boundary/Memory/Storage.antt =====
-- The front end of linear storage above the static arena.
use dotnet_pal_rs.Common.{
  ℕ, ◌+◌, ◌*◌, ◌/◌, ◌≤◌, ◌<◌, ◌≡◌, ◌∙◌, ap, ◌==◌, if◌then◌else◌, true, inl, inr, some, arith,
}
use dotnet_pal_rs.Common.Words.{usize_max}
use dotnet_pal_rs.Boundary.Geometry.{round_size, geometry, aligned_output}
use dotnet_pal_rs.Boundary.Geometry.Rounding.{round_size_least, geometry_lem}
use dotnet_pal_rs.Boundary.Memory.{
  acceptable, take_answer, Tally, increment, record_status, Memory, write, request, LinearStorage,
}
use dotnet_pal_rs.Boundary.Memory as Front
use dotnet_pal_rs.Boundary.Memory.Answers.{allocate_answers, release_answers}
use dotnet_pal_rs.Boundary.Memory.Checks.{Granted, request_cases}
use dotnet_pal_rs.Storage.Arena.{
  Place, Arena, granularity, capacity, take_blocks, address_of, clear, allocate, zeroes, release,
}
use dotnet_pal_rs.Storage.Arena.Validity.{IsValid}
use dotnet_pal_rs.Storage.Arena.Blocks.{IsPlaced, live}
use dotnet_pal_rs.Storage.Arena.Search.{Fits}
use dotnet_pal_rs.Storage.Arena.Blocks.Allocate.{
  allocate_first_fit, allocate_aligned, allocate_refines, allocate-IsValid,
}
use dotnet_pal_rs.Storage.Arena.Blocks.Release.{release-allocate}

-- `impl LinearStorage for Arena`
abbrev pub arena_storage : Place → LinearStorage Arena
arena_storage p = record {
  granularity = granularity;
  capacity = capacity p;
  allocate = allocate p;
  zeroes = zeroes p;
  release = release p;
}

module _ (p : Place) (m : Memory Arena) (c : Tally) (placed : IsPlaced p)
    (v : IsValid p.blocks m.world.slots) (size alignment flags out : ℕ) {t : Memory Arena}
    {c' : Tally}
    (e : Front.allocate (arena_storage p) m c size alignment flags out ≡ (0, t, c')) where
  granted : Granted granularity (allocate p) m size alignment flags out t
  unfolding Front.allocate
  granted =
      elim (request_cases granularity (allocate p) m size alignment flags out
        (ap (λ x. (x.0, x.1)) e)) [ inl (_, g) ↦ g | inr r ↦ absurd (omega (arith, r.fails)) ]

  behind : t.outputs out ≡ granted.address
  behind = ap (λ outputs. outputs out) granted.told ∙ ground arith

  -- Linear storage that was allocated over the arena is one new live allocation of as many blocks as hold
  -- the size, at the address behind `out`; its bytes read zero, everything else stays, and the arena is
  -- valid still.
  pub allocate_over_arena :
      (first rounded : ℕ) × (t.outputs out ≡ address_of p first)
      × (round_size size granularity ≡ some rounded)
      × ((i : ℕ)
          → live t.world.slots i
            ≡ (if i == first then rounded / granularity else live m.world.slots i))
      × ((j : ℕ) → t.world.bytes j ≡ clear m.world.bytes (first * granularity) rounded j)
      × IsValid p.blocks t.world.slots
  allocate_over_arena =
      let g = granted in
      let (first, at, fits, entries, zeroed) =
        allocate_refines p m.world placed v g.rounded g.aligned g.answered in
      let (rounds, _, _, _) = geometry_lem size alignment granularity g.accepted in
      (
        first,
        g.rounded,
        behind ∙ at,
        rounds,
        entries,
        zeroed,
        allocate-IsValid p m.world placed v g.rounded g.aligned g.answered,
      )

  -- What was allocated through the front end can be released through it, with the same size, and the slots
  -- of the arena are then what they were.
  pub release-allocate_over_arena :
      (d : Tally)
      → (u : Arena) × (Front.release (arena_storage p) t.world d (t.outputs out) size
          ≡ (0, u, record d { done = increment d.done }))
        × (u.slots ≡ m.world.slots)
  release-allocate_over_arena d =
      let g = granted in
      let (u, released, same) =
        release-allocate p m.world g.rounded g.aligned placed v g.answered in
      let (rounds, _, _, _) = geometry_lem size alignment granularity g.accepted in
      let answer =
        release_answers (arena_storage p) t.world d g.address size g.rounded u rounds g.not_null
          released in
      (u, rw behind answer, same)

module _ (p : Place) (m : Memory Arena) (c : Tally) (placed : IsPlaced p)
    (v : IsValid p.blocks m.world.slots) (size alignment out : ℕ) where
  -- A request without flags, for some bytes and with a proper `out`, is granted when as many blocks as
  -- hold it are free somewhere at the alignment, with an address no higher.
  pub allocate_over_arena_answers :
      (rounded aligned first : ℕ)
      → 0 < size
      → geometry size alignment granularity ≡ some (rounded, aligned)
      → aligned_output 8 out ≡ true
      → Fits p m.world.slots (rounded / granularity) aligned first
      → (t : Memory Arena) × (Front.allocate (arena_storage p) m c size alignment 0 out
          ≡ (0, t, record c { done = increment c.done }))
        × (t.outputs out ≤ address_of p first)
  unfolding take_blocks
  allocate_over_arena_answers rounded aligned first some_bytes g o fits =
      let (rounds, power, _, _) = geometry_lem size alignment granularity g in
      let (least, _, divides, _, _) = round_size_least size granularity rounds in
      let (f, below, answered) =
        allocate_first_fit p m.world v rounded aligned first
          (omega (arith, divides, least, some_bytes)) fits in
      let (first', at, fits', _, _) =
        allocate_refines p m.world placed v rounded aligned answered in
      let inside : address_of p f + rounded ≤ usize_max =
        omega (arith, at, fits'.inside, divides, placed.in_space) in
      let lies = allocate_aligned p m.world placed v rounded aligned answered power in
      let granted =
        allocate_answers (arena_storage p) m c size alignment out rounded aligned (address_of p f) _
          o g answered (omega (arith, placed.not_null)) lies inside in
      (_, granted, ground (arith, below))
