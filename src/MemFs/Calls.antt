-- ===== src/MemFs/Calls.antt =====
-- The calls that a program makes on the file system of crates/dotnet-pal-memfs/src/lib.rs, one for each
-- time that a function takes the lock of the tree: `Files::lock` and `Watches::read` take it once for
-- each attempt.
use dotnet_pal_rs.Common.{ℕ, max, Bool, Option, List}
use dotnet_pal_rs.MemFs.State.{State, Host, Handle, initial, default_capacity}
use dotnet_pal_rs.MemFs.Handles as Handles
use dotnet_pal_rs.MemFs.Names as Names
use dotnet_pal_rs.MemFs.Directories as Directories
use dotnet_pal_rs.MemFs.Links as Links
use dotnet_pal_rs.MemFs.Mapping as Mapping
use dotnet_pal_rs.MemFs.Watching as Watching

-- The functions of `Files`, `Mappings` and `Watches` that may change the tree.
pub data Call : Type 0 where
  open_file : List ℕ → ℕ → ℕ → Call
  close_file : ℕ → Call
  read_at : ℕ → ℕ → ℕ → Call
  write_at : ℕ → ℕ → List ℕ → Call
  set_file_size : ℕ → ℕ → Call
  set_file_mode : ℕ → ℕ → Call
  set_file_times : ℕ → Option ℕ → Option ℕ → Call
  lock_attempt : ℕ → ℕ → Call
  lock_range : ℕ → ℕ → ℕ → ℕ → Call
  remove_file : List ℕ → Call
  rename : List ℕ → List ℕ → Call
  create_directory : List ℕ → ℕ → Call
  remove_directory : List ℕ → Call
  open_directory : List ℕ → Call
  read_directory : ℕ → ℕ → Call
  set_current_directory : List ℕ → Call
  set_mode : List ℕ → ℕ → Call
  set_times : List ℕ → Bool → Option ℕ → Option ℕ → Call
  link : List ℕ → List ℕ → Call
  symlink : List ℕ → List ℕ → Call
  map_file : ℕ → ℕ → ℕ → ℕ → Bool → Call
  unmap : ℕ → ℕ → Call
  open_watcher : Call
  close_watcher : ℕ → Call
  add : ℕ → List ℕ → ℕ → Call
  remove_watch : ℕ → ℕ → Call
  take_event : ℕ → Call

-- The state behind a call.
unfoldable pub run : Host → Call → State → State
run host (open_file path flags mode) s = (Handles.open_file host path flags mode s).1
run host (close_file handle) s = (Handles.close_file handle s).1
run host (read_at handle offset capacity) s = (Handles.read_at host handle offset capacity s).1
run host (write_at handle offset bytes) s = (Handles.write_at host handle offset bytes s).1
run host (set_file_size handle size) s = (Handles.set_file_size host handle size s).1
run host (set_file_mode handle mode) s = (Handles.set_file_mode host handle mode s).1
run host (set_file_times handle accessed changed) s =
    (Handles.set_file_times host handle accessed changed s).1
run host (lock_attempt handle mode) s = (Handles.lock_attempt host handle mode s).1
run host (lock_range handle offset size mode) s =
    (Handles.lock_range host handle offset size mode s).1
run host (remove_file path) s = (Names.remove_file host path s).1
run host (rename from to) s = (Names.rename host from to s).1
run host (create_directory path mode) s = (Directories.create_directory host path mode s).1
run host (remove_directory path) s = (Directories.remove_directory host path s).1
run host (open_directory path) s = (Directories.open_directory host path s).1
run host (read_directory handle capacity) s = (Directories.read_directory handle capacity s).1
run host (set_current_directory path) s = (Directories.set_current_directory path s).1
run host (set_mode path mode) s = (Links.set_mode host path mode s).1
run host (set_times path following accessed changed) s =
    (Links.set_times host path following accessed changed s).1
run host (link existing name) s = (Links.link host existing name s).1
run host (symlink target name) s = (Links.symlink host target name s).1
run host (map_file handle offset size wanted sharing) s =
    (Mapping.map_file host handle offset size wanted sharing s).1
run host (unmap address size) s = (Mapping.unmap address size s).1
run host open_watcher s = (Watching.open_watcher host s).1
run host (close_watcher handle) s = (Watching.close_watcher handle s).1
run host (add handle path events) s = (Watching.add host handle path events s).1
run host (remove_watch handle watch) s = (Watching.remove_watch host handle watch s).1
run host (take_event handle) s = (Watching.take_event handle s).1

-- The states that calls and settings of the capacity lead to from the start, in any order and with any
-- answers of the allocator and the clock, with the largest capacity that there ever was.
pub data IsReachable : ℕ → State → Type 0 where
  started :
      (memory : ℕ → ℕ) (handles : ℕ → Handle)
      → IsReachable default_capacity (initial memory handles)
  called :
      {most : ℕ} {s : State} (host : Host) (call : Call)
      → IsReachable most s
      → IsReachable most (run host call s)
  resized :
      {most : ℕ} {s : State} (bytes : ℕ)
      → IsReachable most s
      → IsReachable (max most bytes) (Mapping.set_capacity bytes s)
