-- ===== src/Boundary/Mappings.antt =====
-- src/mappings.rs: the front ends of mappings. A call is checked, passed to the provider, whose answer is
-- checked, and counted with the counter of its operation or that of the failures.
pub mod Checks
use dotnet_pal_rs.Common.{
  ℕ, ◌+◌, ◌≤◌, ◌<◌, ◌≡◌, ◌∙◌, refl, sym, ap, leb, ltb, ◌==◌, if◌then◌else◌, Bool, true, false, not,
  ◌&&◌, ◌||◌, List, [], ◌∷◌, any, arith, Bool-cases, inl, inr,
}
use dotnet_pal_rs.Common.Words.{usize_max, isize_max}
use dotnet_pal_rs.Port.{Error, Result, ok, err, ok_status, error_status, status, Result-cases}
use dotnet_pal_rs.Port.Laws.{from_status-status}
use dotnet_pal_rs.Boundary.Geometry.{aligned_output}
use dotnet_pal_rs.Boundary.Memory.{
  Memory, Tally, record_status, write, pointer_size, invalid_argument_status, os_error_status,
}

-- `SHARED` and `PRIVATE`
abbrev pub shared_mode : ℕ
shared_mode = 1

abbrev pub private_mode : ℕ
private_mode = 2

-- `READ | WRITE | EXECUTE`
abbrev pub every_access : ℕ
every_access = 7

-- The `match` of `record`: `OUT_OF_MEMORY` and `ACCESS_DENIED` are answers of `map` only.
unfoldable pub told : Bool → ℕ → ℕ
told mapping s =
    if any (λ known. known == s) (0 ∷ (1 ∷ (2 ∷ (3 ∷ [])))) || (mapping && (s == 4 || s == 10))
    then s
    else os_error_status

-- `port::Mappings`: a provider with a state of its own.
pub record Mappings (W : Type 0) : Type 0 where
  pub map : ℕ → ℕ → ℕ → ℕ → Bool → W → Result ℕ × W
  pub unmap : ℕ → ℕ → W → Result (Unit {0}) × W
  pub sync : ℕ → ℕ → W → Result (Unit {0}) × W

-- `valid_range`
unfoldable pub valid_mapping : ℕ → ℕ → Bool
valid_mapping address size =
    not (address == 0)
    && (not (size == 0) && (leb size isize_max && leb (address + size) usize_max))

-- The checks of `map`.
unfoldable pub valid_map : ℕ → ℕ → ℕ → ℕ → ℕ → Bool
valid_map file offset size access mode =
    not (file == 0)
    && (not (size == 0)
        && (leb size isize_max
            && (leb (offset + size) isize_max
                && (not (access == 0)
                    && (leb access every_access
                        && (mode == shared_mode || mode == private_mode))))))

module _ {W : Type 0} where
  -- `record`
  unfoldable pub answered : Bool → ℕ → Memory W → Tally → ℕ × Memory W × Tally
  unfolding told record_status
  answered mapping s m c = (told mapping s, m, record_status (told mapping s) c)

  -- The `match` of `map`.
  unfoldable pub take_mapped : ℕ → ℕ → Result ℕ → Memory W → ℕ × Memory W
  take_mapped size out (err e) m = (error_status e, m)
  take_mapped size out (ok mapped) m =
      if mapped == 0 || ltb usize_max (mapped + size)
      then (os_error_status, m)
      else (ok_status, record m { outputs = write m.outputs out mapped })

  -- `map`
  unfoldable pub map_file :
      Mappings W → ℕ → ℕ → ℕ → ℕ → ℕ → ℕ → Memory W → Tally → ℕ × Memory W × Tally
  unfolding answered valid_map take_mapped
  map_file p file offset size access mode out m c =
      if not (aligned_output pointer_size out)
      then answered true invalid_argument_status m c
      else (let cleared = record m { outputs = write m.outputs out 0 } in
          if not (valid_map file offset size access mode)
          then answered true invalid_argument_status cleared c
          else (let (r, w) = p.map file offset size access (mode == shared_mode) cleared.world in
              let (s, m') = take_mapped size out r (record cleared { world = w }) in
              answered true s m' c))

  -- `unmap` and `sync`, for a call of the provider.
  unfoldable pub on_mapping :
      (ℕ → ℕ → W → Result (Unit {0}) × W) → ℕ → ℕ → Memory W → Tally → ℕ × Memory W × Tally
  unfolding answered valid_mapping
  on_mapping call address size m c =
      if not (valid_mapping address size)
      then answered false invalid_argument_status m c
      else (let (r, w) = call address size m.world in
          answered false (status r) (record m { world = w }) c)
