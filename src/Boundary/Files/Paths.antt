-- ===== src/Boundary/Files/Paths.antt =====
-- src/files.rs: the calls on paths.
use dotnet_pal_rs.Common.{ℕ, ◌+◌, ltb, ◌==◌, if◌then◌else◌, not, ◌||◌, Option, none, some, List}
use dotnet_pal_rs.Boundary.Geometry.{aligned_output}
use dotnet_pal_rs.Boundary.Memory.{pointer_size}
use dotnet_pal_rs.Boundary.Text.{Provided, path, text, max_name, buffer_too_small_status}
use dotnet_pal_rs.Boundary.Files.{
  Front, Files, recorded, refuse, put, pass, count, valid_buffer, times, within, mode_mask,
  attribute_counter, link_counter, failed_counter,
}
use dotnet_pal_rs.Boundary.Files.Calls.{
  kept_handle, described, clear_status, status_align, status_bytes,
}

module _ {W : Type 0} where
  -- `let Some(path) = io::path(..) else { return record(INVALID_ARGUMENT, index) }`
  unfoldable pub on_path : ℕ → ℕ → ℕ → (List ℕ → Front W → ℕ × Front W) → Front W → ℕ × Front W
  unfolding path refuse
  on_path index address length call f = elim (path f.provided.memory address length) [
    | none ↦ refuse index f
    | some name ↦ call name f
  ]

  -- What is written behind `needed`, if anything is.
  abbrev pub put_needed : Option ℕ → ℕ → Front W → Front W
  put_needed none needed f = f
  put_needed (some length) needed f = put needed length f

  -- A text that is told by its status, which may be `BUFFER_TOO_SMALL`.
  unfoldable pub tell_text : ℕ → ℕ → ℕ → ℕ → Provided W ℕ → Front W → ℕ × Front W
  unfolding text recorded put
  tell_text index out capacity needed call f =
      let ((status, length), s) = text out capacity (max_name + 1) call f.provided in
      let f' = put_needed length needed (record f { provided = s }) in
      if status == buffer_too_small_status
      then (status, record f' { counters = count f'.counters failed_counter })
      else recorded status index f'

module _ {W : Type 0} (p : Files W) where
  -- `path_status`
  unfoldable pub path_status : ℕ → ℕ → ℕ → ℕ → ℕ → Front W → ℕ × Front W
  unfolding refuse clear_status on_path described
  path_status address length follow out size f =
      if not (aligned_output status_align out) || ltb size status_bytes
      then refuse 6 f
      else on_path 6 address length
          (λ name g.
            if ltb 1 follow
            then refuse 6 g
            else described out (p.path_status name (not (follow == 0))) g)
          (clear_status out f)

  -- `remove`
  unfoldable pub remove : ℕ → ℕ → Front W → ℕ × Front W
  unfolding on_path pass
  remove address length = on_path 7 address length (λ name. pass 7 (p.remove name))

  -- `rename`
  unfoldable pub rename : ℕ → ℕ → ℕ → ℕ → Front W → ℕ × Front W
  unfolding on_path pass
  rename from from_length to to_length =
      on_path 8 from from_length (λ old. on_path 8 to to_length (λ new. pass 8 (p.rename old new)))

  -- `directory_create`
  unfoldable pub directory_create : ℕ → ℕ → ℕ → Front W → ℕ × Front W
  unfolding on_path refuse pass
  directory_create address length mode = on_path 9 address length λ name f.
      if within mode_mask mode then pass 9 (p.create_directory name mode) f else refuse 9 f

  -- `directory_remove`
  unfoldable pub directory_remove : ℕ → ℕ → Front W → ℕ × Front W
  unfolding on_path pass
  directory_remove address length =
      on_path 9 address length (λ name. pass 9 (p.remove_directory name))

  -- `directory_open`
  unfoldable pub directory_open : ℕ → ℕ → ℕ → Front W → ℕ × Front W
  unfolding on_path refuse put kept_handle
  directory_open address length out f =
      if not (aligned_output pointer_size out)
      then refuse 9 f
      else on_path 9 address length (λ name. kept_handle 9 out (p.open_directory name))
          (put out 0 f)

  -- `directory_close`
  unfoldable pub directory_close : ℕ → Front W → ℕ × Front W
  unfolding refuse pass
  directory_close directory f =
      if directory == 0 then refuse 9 f else pass 9 (p.close_directory directory) f

  -- `current_directory`
  unfoldable pub current_directory : ℕ → ℕ → ℕ → Front W → ℕ × Front W
  unfolding refuse put tell_text valid_buffer
  current_directory out capacity needed f =
      if not (aligned_output pointer_size needed) || not (valid_buffer out capacity)
      then refuse 9 f
      else tell_text 9 out capacity needed (p.current_directory out capacity) (put needed 0 f)

  -- `set_mode`
  unfoldable pub set_mode : ℕ → ℕ → ℕ → Front W → ℕ × Front W
  unfolding on_path refuse pass
  set_mode address length mode = on_path attribute_counter address length λ name f.
      if within mode_mask mode
      then pass attribute_counter (p.set_mode name mode) f
      else refuse attribute_counter f

  -- `set_times`
  unfoldable pub set_times : ℕ → ℕ → ℕ → ℕ → ℕ → Front W → ℕ × Front W
  unfolding on_path refuse pass times
  set_times address length follow accessed modified =
      on_path attribute_counter address length λ name f. elim (times accessed modified) [
        | none ↦ refuse attribute_counter f
        | some (a, m) ↦
            if ltb 1 follow
            then refuse attribute_counter f
            else pass attribute_counter (p.set_times name (not (follow == 0)) a m) f
      ]

  -- `link`
  unfoldable pub link : ℕ → ℕ → ℕ → ℕ → Front W → ℕ × Front W
  unfolding on_path pass
  link existing existing_length created created_length =
      on_path link_counter existing existing_length λ old.
        on_path link_counter created created_length (λ new. pass link_counter (p.link old new))

  -- `symlink`
  unfoldable pub symlink : ℕ → ℕ → ℕ → ℕ → Front W → ℕ × Front W
  unfolding on_path pass
  symlink target target_length created created_length =
      on_path link_counter target target_length λ old.
        on_path link_counter created created_length (λ new. pass link_counter (p.symlink old new))

  -- `path_text`
  unfoldable pub path_text : ℕ → ℕ → ℕ → ℕ → ℕ → (List ℕ → Provided W ℕ) → Front W → ℕ × Front W
  unfolding on_path refuse put tell_text valid_buffer
  path_text address length out capacity needed provider f =
      if not (aligned_output pointer_size needed) || not (valid_buffer out capacity)
      then refuse link_counter f
      else on_path link_counter address length
          (λ name. tell_text link_counter out capacity needed (provider name)) (put needed 0 f)

  -- `read_link`
  unfoldable pub read_link : ℕ → ℕ → ℕ → ℕ → ℕ → Front W → ℕ × Front W
  unfolding path_text
  read_link address length out capacity needed =
      path_text address length out capacity needed (λ name. p.read_link name out capacity)

  -- `real_path`
  unfoldable pub real_path : ℕ → ℕ → ℕ → ℕ → ℕ → Front W → ℕ × Front W
  unfolding path_text
  real_path address length out capacity needed =
      path_text address length out capacity needed (λ name. p.real_path name out capacity)

  -- `set_current_directory`
  unfoldable pub set_current_directory : ℕ → ℕ → Front W → ℕ × Front W
  unfolding on_path pass
  set_current_directory address length =
      on_path 9 address length (λ name. pass 9 (p.set_current_directory name))
