-- ===== src/Storage/Ledger.antt =====
-- crates/dotnet-pal-storage/src/lib.rs, `mod ledger`: an ownership ledger over storage that the
-- embedder supplies.
pub mod Regions
pub mod Validity
pub mod Ownership
pub mod Removal
use dotnet_pal_rs.Common.{
  ℕ, ◌+◌, ◌-◌, ◌%◌, ltb, leb, ◌==◌, if◌then◌else◌, Bool, true, false, not, ◌&&◌, ◌||◌, Option, none,
  some, List, set, replicate, position, any,
}
use dotnet_pal_rs.Common.Words.{checked_add}
use dotnet_pal_rs.Port.{Error, Result, ok, err, os, out_of_memory, invalid_argument}

pub record Region : Type 0 where
  pub base : ℕ
  pub size : ℕ

-- `EMPTY`
abbrev pub empty : Region
empty = record { base = 0; size = 0 }

-- `MAX_REGIONS`
abbrev pub max_regions : ℕ
max_regions = 4096

-- `trait Backing`: the embedder's storage, with a state of its own.
pub record Backing (W : Type 0) : Type 0 where
  pub allocate : W → ℕ → ℕ → Result ℕ × W
  pub release : W → ℕ → ℕ → Result (Unit {0}) × W

-- `ledger::State` without its lock, beside the backing's state and the memory by address.
pub record Ledger (W : Type 0) : Type 0 where
  pub regions : List Region
  pub owned : ℕ
  pub world : W
  pub bytes : ℕ → ℕ

-- The static's initial value.
unfoldable pub initial : {W : Type 0} → W → (ℕ → ℕ) → Ledger W
initial w bytes = record {
  regions = replicate max_regions empty;
  owned = 0;
  world = w;
  bytes = bytes;
}

-- `normalize`
unfoldable pub normalize : Error → Error
normalize Error.invalid_argument = invalid_argument
normalize Error.os = os
normalize Error.out_of_memory = out_of_memory
normalize _ = os

-- `write_bytes(0, size)` at an address.
unfoldable pub clear : (ℕ → ℕ) → ℕ → ℕ → ℕ → ℕ
clear bytes base size i = if leb base i && ltb i (base + size) then 0 else bytes i

-- Whether a region in use meets the bytes from `base` up to `end`.
abbrev pub overlaps : ℕ → ℕ → Region → Bool
overlaps base end r = not (r.size == 0) && (ltb base (r.base + r.size) && ltb r.base end)

-- The region of exactly this address and size.
abbrev pub is_region : ℕ → ℕ → Region → Bool
is_region address size r = not (r.size == 0) && (r.base == address && r.size == size)

-- A region that holds the bytes from `base` up to `end`.
abbrev pub holds : ℕ → ℕ → Region → Bool
holds base end r = not (r.size == 0) && (leb r.base base && leb end (r.base + r.size))

module _ {W : Type 0} where
  -- What `allocate` does with the storage that the backing returned.
  unfoldable pub enter : Ledger W → ℕ → ℕ → ℕ → ℕ → Result ℕ × Ledger W
  enter s size alignment index base = elim (checked_add base size) [
    | none ↦ (err os, s)
    | some end ↦
        if base == 0 || not (base % alignment == 0)
        then (err os, s)
        else (if any (overlaps base end) s.regions then (err os, s) else (
          ok base,
          record s {
            regions = set s.regions index (record { base = base; size = size });
            owned = s.owned + size;
            bytes = clear s.bytes base size;
          },
        ))
  ]

  -- The call of the backing, and what follows it.
  unfoldable pub allocate_from : Backing W → Ledger W → ℕ → ℕ → ℕ → Result ℕ × Ledger W
  unfolding enter
  allocate_from b s size alignment index =
      let (r, w) = b.allocate s.world size alignment in
      elim r [
        | err e ↦ (err (normalize e), record s { world = w })
        | ok base ↦ enter (record s { world = w }) size alignment index base
      ]

  -- `Ledger::allocate`, with `CAPACITY`.
  unfoldable pub allocate : ℕ → Backing W → Ledger W → ℕ → ℕ → Result ℕ × Ledger W
  unfolding allocate_from
  allocate capacity b s size alignment =
      if size == 0 || ltb (capacity - s.owned) size
      then (err out_of_memory, s)
      else (elim (position (λ r. r.size == 0) s.regions) [
        | none ↦ (err out_of_memory, s)
        | some index ↦ allocate_from b s size alignment index
      ])

  unfoldable pub release_from : Backing W → Ledger W → ℕ → ℕ → ℕ → Result (Unit {0}) × Ledger W
  release_from b s address size index =
      let (r, w) = b.release s.world address size in
      elim r [
        | err e ↦ (err (normalize e), record s { world = w })
        | ok _ ↦ (
          ok tt,
          record s { regions = set s.regions index empty; owned = s.owned - size; world = w },
        )
      ]

  -- `Ledger::release`
  unfoldable pub release : Backing W → Ledger W → ℕ → ℕ → Result (Unit {0}) × Ledger W
  unfolding release_from
  release b s address size = elim (position (is_region address size) s.regions) [
    | none ↦ (err invalid_argument, s)
    | some index ↦ release_from b s address size index
  ]

  -- `Ledger::zero`
  unfoldable pub zeroes : Ledger W → ℕ → ℕ → Result (Unit {0}) × Ledger W
  zeroes s base size = elim (checked_add base size) [
    | none ↦ (err invalid_argument, s)
    | some end ↦
        if base == 0 || size == 0
        then (err invalid_argument, s)
        else (if any (holds base end) s.regions
            then (ok tt, record s { bytes = clear s.bytes base size })
            else (err invalid_argument, s))
  ]
