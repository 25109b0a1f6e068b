-- ===== src/Boundary/Files/Calls.antt =====
-- src/files.rs: the calls on open files.
pub mod Checks
use dotnet_pal_rs.Common.{
  ℕ, zero, suc, ◌+◌, ◌-◌, leb, ltb, ◌==◌, if◌then◌else◌, Bool, true, false, not, ◌&&◌, ◌||◌, Option,
  none, some, List, [], ◌∷◌,
}
use dotnet_pal_rs.Common.Words.{usize_max, isize_max}
use dotnet_pal_rs.Port.{Result, ok, err, ok_status, error_status}
use dotnet_pal_rs.Port as Port
use dotnet_pal_rs.Boundary.Geometry.{aligned_output}
use dotnet_pal_rs.Boundary.Memory.{os_error_status, invalid_argument_status, pointer_size}
use dotnet_pal_rs.Boundary.Text.{Surroundings, Provided, path}
use dotnet_pal_rs.Boundary.Files.{
  Front, Files, Status, default_status, consistent, recorded, refuse, put, pass, count,
  valid_buffer, times, valid_open, within, mode_mask, attribute_counter, lock_counter,
  failed_counter, lock_shared, lock_unlock, would_block_status,
}

-- `mem::align_of::<Status>()` and `mem::size_of::<Status>()`
abbrev pub status_align : ℕ
status_align = 8

abbrev pub status_bytes : ℕ
status_bytes = 64

module _ {W : Type 0} where
  -- `handle`
  unfoldable pub handle : ℕ → Result ℕ → Front W → ℕ × Front W
  unfolding put
  handle out (err e) f = (error_status e, f)
  handle out (ok value) f =
      if value == 0 then (os_error_status, f) else (ok_status, put out value f)

  -- `record(handle(out, call), index)`
  unfoldable pub kept_handle : ℕ → ℕ → Provided W ℕ → Front W → ℕ × Front W
  unfolding handle recorded
  kept_handle index out call f =
      let (r, s) = call f.provided in
      let (status, f') = handle out r (record f { provided = s }) in recorded status index f'

  -- The count of bytes that a provider answers, where it is at least `least` and at most `most`.
  unfoldable pub take_count : ℕ → ℕ → ℕ → Result ℕ → Front W → ℕ × Front W
  unfolding put
  take_count least most out (err e) f = (error_status e, f)
  take_count least most out (ok done) f =
      if ltb done least || ltb most done then (os_error_status, f) else (ok_status, put out done f)

  unfoldable pub counted_bytes : ℕ → ℕ → ℕ → ℕ → Provided W ℕ → Front W → ℕ × Front W
  unfolding take_count recorded
  counted_bytes index least most out call f =
      let (r, s) = call f.provided in
      let (status, f') = take_count least most out r (record f { provided = s }) in
      recorded status index f'

  -- `describe`
  unfoldable pub describe : ℕ → Result Status → Front W → ℕ × Front W
  unfolding consistent
  describe out (err e) f = (error_status e, f)
  describe out (ok value) f =
      if consistent value
      then (
        ok_status,
        record f { descriptions = λ i. if i == out then value else f.descriptions i },
      )
      else (os_error_status, f)

  -- `record(describe(out, call), 6)`
  unfoldable pub described : ℕ → Provided W Status → Front W → ℕ × Front W
  unfolding describe recorded
  described out call f =
      let (r, s) = call f.provided in
      let (status, f') = describe out r (record f { provided = s }) in recorded status 6 f'

  -- `out.write(Status::default())`
  unfoldable pub clear_status : ℕ → Front W → Front W
  clear_status out f = record f {
    descriptions = λ i. if i == out then default_status else f.descriptions i;
  }

  -- `record_lock`
  unfoldable pub record_lock : ℕ → Bool → Front W → ℕ × Front W
  unfolding recorded
  record_lock status may_refuse f =
      if status == would_block_status && may_refuse
      then (status, record f { counters = count f.counters failed_counter })
      else recorded status lock_counter f

module _ {W : Type 0} (p : Files W) where
  -- `open`
  unfoldable pub open_file : ℕ → ℕ → ℕ → ℕ → ℕ → Front W → ℕ × Front W
  unfolding refuse put path valid_open kept_handle
  open_file address length flags mode out f =
      if not (aligned_output pointer_size out)
      then refuse 0 f
      else (elim (path f.provided.memory address length) [
        | none ↦ refuse 0 (put out 0 f)
        | some name ↦
            if not (valid_open flags) || not (within mode_mask mode)
            then refuse 0 (put out 0 f)
            else kept_handle 0 out (p.open_file name flags mode) (put out 0 f)
      ])

  -- `close`
  unfoldable pub close : ℕ → Front W → ℕ × Front W
  unfolding refuse pass
  close file f = if file == 0 then refuse 1 f else pass 1 (p.close file) f

  -- `read_at`
  unfoldable pub read_at : ℕ → ℕ → ℕ → ℕ → ℕ → Front W → ℕ × Front W
  unfolding refuse put valid_buffer recorded counted_bytes
  read_at file offset address capacity got f =
      if not (aligned_output pointer_size got)
      then refuse 2 f
      else if file == 0 || (not (valid_buffer address capacity) || ltb isize_max offset)
      then refuse 2 (put got 0 f)
      else if capacity == 0
      then recorded ok_status 2 (put got 0 f)
      else counted_bytes 2 0 capacity got (p.read_at file offset address capacity) (put got 0 f)

  -- `write_at`. No progress is not reported as success.
  unfoldable pub write_at : ℕ → ℕ → ℕ → ℕ → ℕ → Front W → ℕ × Front W
  unfolding refuse put valid_buffer recorded counted_bytes
  write_at file offset address size written f =
      if not (aligned_output pointer_size written)
      then refuse 3 f
      else if file == 0
          || (not (valid_buffer address size)
              || (ltb isize_max offset || ltb isize_max (offset + size)))
      then refuse 3 (put written 0 f)
      else if size == 0
      then recorded ok_status 3 (put written 0 f)
      else counted_bytes 3 1 size written (p.write_at file offset address size) (put written 0 f)

  -- `set_size`
  unfoldable pub set_size : ℕ → ℕ → Front W → ℕ × Front W
  unfolding refuse pass
  set_size file size f =
      if file == 0 || ltb isize_max size then refuse 4 f else pass 4 (p.set_size file size) f

  -- `flush`
  unfoldable pub flush : ℕ → Front W → ℕ × Front W
  unfolding refuse pass
  flush file f = if file == 0 then refuse 5 f else pass 5 (p.flush file) f

  -- `status`
  unfoldable pub file_status : ℕ → ℕ → ℕ → Front W → ℕ × Front W
  unfolding refuse clear_status described
  file_status file out size f =
      if not (aligned_output status_align out) || ltb size status_bytes
      then refuse 6 f
      else if file == 0
      then refuse 6 (clear_status out f)
      else described out (p.status file) (clear_status out f)

  -- `set_file_mode`
  unfoldable pub set_file_mode : ℕ → ℕ → Front W → ℕ × Front W
  unfolding refuse pass
  set_file_mode file mode f =
      if file == 0 || not (within mode_mask mode)
      then refuse attribute_counter f
      else pass attribute_counter (p.set_file_mode file mode) f

  -- `set_file_times`
  unfoldable pub set_file_times : ℕ → ℕ → ℕ → Front W → ℕ × Front W
  unfolding refuse pass times
  set_file_times file accessed modified f = elim (times accessed modified) [
    | none ↦ refuse attribute_counter f
    | some (a, m) ↦
        if file == 0
        then refuse attribute_counter f
        else pass attribute_counter (p.set_file_times file a m) f
  ]

  -- `lock`
  unfoldable pub lock : ℕ → ℕ → ℕ → Front W → ℕ × Front W
  unfolding refuse record_lock
  lock file mode wait f =
      if file == 0 || (not (leb lock_shared mode && leb mode lock_unlock) || ltb 1 wait)
      then refuse lock_counter f
      else (let (r, s) = p.lock file mode (not (wait == 0)) f.provided in
          record_lock (Port.status r) (wait == 0 && not (mode == lock_unlock))
            (record f { provided = s }))

  -- `lock_range`
  unfoldable pub lock_range : ℕ → ℕ → ℕ → ℕ → Front W → ℕ × Front W
  unfolding refuse record_lock
  lock_range file offset length mode f =
      if file == 0
        || (not (leb lock_shared mode && leb mode lock_unlock)
            || (length == 0 || (ltb isize_max offset || ltb (isize_max - offset) length)))
      then refuse lock_counter f
      else (let (r, s) = p.lock_range file offset length mode f.provided in
          record_lock (Port.status r) (not (mode == lock_unlock)) (record f { provided = s }))
