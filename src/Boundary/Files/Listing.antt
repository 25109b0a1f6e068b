-- ===== src/Boundary/Files/Listing.antt =====
-- src/files.rs: `directory_read`, which passes over the self references of a listing.
pub mod Checks
use dotnet_pal_rs.Common.{
  ℕ, zero, suc, ◌+◌, ◌-◌, leb, ltb, ◌==◌, if◌then◌else◌, Bool, true, false, not, ◌&&◌, ◌||◌, Option,
  none, some, List, [], ◌∷◌, length,
}
use dotnet_pal_rs.Port.{Result, ok, err, ok_status, error_status}
use dotnet_pal_rs.Boundary.Geometry.{aligned_output}
use dotnet_pal_rs.Boundary.Memory.{invalid_argument_status, os_error_status, pointer_size}
use dotnet_pal_rs.Boundary.Text.{Surroundings, Provided, bytes_at, clear, contains}
use dotnet_pal_rs.Boundary.Files.{
  Front, Files, recorded, refuse, put, valid_buffer, node_file, node_other,
}

-- `MAX_ENTRY_NAME`
abbrev pub max_entry_name : ℕ
max_entry_name = 255

-- `b"."` and `b".."`
abbrev pub is_self : List ℕ → Bool
is_self [] = false
is_self (a ∷ []) = a == b'.'
is_self (a ∷ (b ∷ [])) = a == b'.' && b == b'.'
is_self (a ∷ (b ∷ (c ∷ rest))) = false

-- What a round of the loop makes of an entry: it passes it over, hands it out, or refuses it.
pub data Entry : Type 0 where
  skipped handed_out refused : Entry

unfoldable pub entry : (ℕ → ℕ) → ℕ → ℕ → ℕ → Entry
entry memory name done kind =
    if done == 0 || ltb max_entry_name done
    then refused
    else (let text = bytes_at memory name done in
        if is_self text
        then skipped
        else if (leb node_file kind && leb kind node_other)
            && (not (contains 0 text) && not (contains b'/' text))
        then handed_out
        else refused)

module _ {W : Type 0} where
  -- `ptr::write_bytes(name, 0, capacity)`
  unfoldable pub clear_name : ℕ → ℕ → Front W → Front W
  clear_name name capacity f = record f {
    provided = record f.provided { memory = clear f.provided.memory name capacity };
  }

module _ {W : Type 0} (p : Files W) where
  -- The loop of `directory_read`, for so many rounds; none where a provider lists self references in all of
  -- them.
  unfoldable pub read_loop : ℕ → ℕ → ℕ → ℕ → ℕ → ℕ → Front W → Option (ℕ × Front W)
  unfolding clear_name entry recorded put
  read_loop zero directory name capacity length kind f = none
  read_loop (suc rounds) directory name capacity length kind f =
      let (r, s) = p.read_directory directory name capacity (clear_name name capacity f).provided in
      let f' = record f { provided = s } in
      elim r [
        | err e ↦ some (recorded (error_status e) 9 (clear_name name capacity f'))
        | ok (done, node) ↦ elim (entry s.memory name done node) [
          | skipped ↦ read_loop rounds directory name capacity length kind f'
          | handed_out ↦ some (recorded ok_status 9 (put kind node (put length done f')))
          | refused ↦ some (recorded os_error_status 9 (clear_name name capacity f'))
        ]
      ]

  -- `directory_read`
  unfoldable pub directory_read : ℕ → ℕ → ℕ → ℕ → ℕ → ℕ → Front W → Option (ℕ × Front W)
  unfolding refuse put valid_buffer read_loop
  directory_read rounds directory name capacity length kind f =
      if not (aligned_output pointer_size length) || not (aligned_output 4 kind)
      then some (refuse 9 f)
      else (let f' = put kind 0 (put length 0 f) in
          if directory == 0
            || (name == 0 || (ltb capacity max_entry_name || not (valid_buffer name capacity)))
          then some (refuse 9 f')
          else read_loop rounds directory name capacity length kind f')
