-- ===== src/Boundary/Mappings/Checks.antt =====
-- What a caller may rely on behind `map` of src/mappings.rs, whatever the provider answers.
use dotnet_pal_rs.Common.{
  ℕ, ◌+◌, ◌≤◌, ◌<◌, ◌≡◌, ◌∙◌, sym, ltb, ◌==◌, Bool, true, ◌||◌, arith, Bool-cases, inl, inr,
}
use dotnet_pal_rs.Common.Words.{usize_max, isize_max}
use dotnet_pal_rs.Port.{Result, ok, err, ok_status}
use dotnet_pal_rs.Port.Laws.{from_status-status}
use dotnet_pal_rs.Boundary.Geometry.{aligned_output}
use dotnet_pal_rs.Boundary.Memory.{
  Memory, Tally, write, pointer_size, invalid_argument_status, os_error_status,
}
use dotnet_pal_rs.Boundary.Mappings.{
  Mappings, shared_mode, told, valid_map, answered, take_mapped, map_file,
}

told_ok : (mapping : Bool) (s : ℕ) → told mapping s ≡ ok_status → s ≡ ok_status
unfolding told
told_ok mapping s e = ground (arith, e)

sized :
    (file offset size access mode : ℕ)
    → valid_map file offset size access mode ≡ true
    → (0 < size) × (offset + size ≤ isize_max)
unfolding valid_map
sized file offset size access mode e = (ground (arith, e), ground (arith, e))

module _ {W : Type 0} where
  take_mapped_lem :
      (size out : ℕ) (r : Result ℕ) (m : Memory W)
      → (take_mapped size out r m).0 ≡ ok_status
      → let address = (take_mapped size out r m).1.outputs out in
        (0 < address) × (address + size ≤ usize_max)
  unfolding take_mapped
  take_mapped_lem size out (err cause) m e =
      let (_, positive, _) = from_status-status cause in absurd (omega (arith, e, positive))
  take_mapped_lem size out (ok mapped) m e =
      elim (Bool-cases (mapped == 0 || ltb usize_max (mapped + size))) [
        | inl bad ↦
            let now : os_error_status ≡ ok_status = sym (rw (bad, take_mapped)) ∙ e in
            absurd (omega (arith, now))
        | inr good ↦ rw (good, take_mapped) (ground (arith, good))
      ]

  -- Whatever the provider answers, a mapping that is told as success is at an address that is not null, and ends
  -- in the address space; and it was asked for some bytes of a file within the offsets of files.
  pub map_file_checked :
      (p : Mappings W) (file offset size access mode out : ℕ) (m : Memory W) (c : Tally)
      → (map_file p file offset size access mode out m c).0 ≡ ok_status
      → let address = (map_file p file offset size access mode out m c).1.outputs out in
        (0 < address) × (address + size ≤ usize_max) × (0 < size) × (offset + size ≤ isize_max)
  unfolding map_file answered told
  map_file_checked p file offset size access mode out m c e =
      elim (Bool-cases (aligned_output pointer_size out)) [
        | inr bad ↦
            let now : invalid_argument_status ≡ ok_status = sym (rw (bad, map_file)) ∙ e in
            absurd (omega (arith, now))
        | inl aligned ↦ elim (Bool-cases (valid_map file offset size access mode)) [
          | inr bad ↦
              let now : invalid_argument_status ≡ ok_status =
                sym (rw (aligned, bad, map_file)) ∙ e in
              absurd (omega (arith, now))
          | inl good ↦
              let cleared : Memory W = record m { outputs = write m.outputs out 0 } in
              let (r, w) = p.map file offset size access (mode == shared_mode) cleared.world in
              let m' : Memory W = record cleared { world = w } in
              let ran =
                told_ok true (take_mapped size out r m').0
                  (sym (rw (aligned, good, map_file)) ∙ e) in
              let (positive, ends) = take_mapped_lem size out r m' ran in
              let (some_bytes, inside) = sized file offset size access mode good in
              rw (aligned, good, map_file) (positive, ends, some_bytes, inside)
        ]
      ]
