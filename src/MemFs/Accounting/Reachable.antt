-- ===== src/MemFs/Accounting/Reachable.antt =====
-- The accounting in every state that the calls of crates/dotnet-pal-memfs/src/lib.rs lead to.
use dotnet_pal_rs.Common.{ℕ, ◌≤◌, max, refl, arith}
use dotnet_pal_rs.MemFs.Maps.{lookup, nat_key}
use dotnet_pal_rs.MemFs.State.{State, Host, Handle, initial, default_capacity}
use dotnet_pal_rs.MemFs.Mapping.{set_capacity}
use dotnet_pal_rs.MemFs.Calls.{Call, run, IsReachable, started, called, resized}
use dotnet_pal_rs.MemFs.Accounting.{IsAccounted}
use dotnet_pal_rs.MemFs.Accounting.Files as Files
use dotnet_pal_rs.MemFs.Accounting.Paths as Paths
use dotnet_pal_rs.MemFs.Accounting.Mappings as Mappings
use dotnet_pal_rs.MemFs.Accounting.Watches as Watches

initial-IsAccounted :
    (memory : ℕ → ℕ) (handles : ℕ → Handle) → IsAccounted default_capacity (initial memory handles)
unfolding lookup
initial-IsAccounted memory handles = record {
  unique = (refl, tt);
  fresh = λ k le. ground arith;
  exact = refl;
  bounded = omega arith;
  allowed = omega arith;
}

-- Every call keeps the accounting, whatever it answers and wherever it stops.
pub run-IsAccounted :
    {most : ℕ} (host : Host) (call : Call) (s : State)
    → IsAccounted most s
    → IsAccounted most (run host call s)
unfolding run
run-IsAccounted host (Call.open_file path flags mode) s v =
    (Files.open_file-IsAccounted host path flags mode).after s v
run-IsAccounted host (Call.close_file handle) s v =
    (Files.close_file-IsAccounted host handle).after s v
run-IsAccounted host (Call.read_at handle offset capacity) s v =
    (Files.read_at-IsAccounted host handle offset capacity).after s v
run-IsAccounted host (Call.write_at handle offset bytes) s v =
    (Files.write_at-IsAccounted host handle offset bytes).after s v
run-IsAccounted host (Call.set_file_size handle size) s v =
    (Files.set_file_size-IsAccounted host handle size).after s v
run-IsAccounted host (Call.set_file_mode handle mode) s v =
    (Files.set_file_mode-IsAccounted host handle mode).after s v
run-IsAccounted host (Call.set_file_times handle accessed changed) s v =
    (Files.set_file_times-IsAccounted host handle accessed changed).after s v
run-IsAccounted host (Call.lock_attempt handle mode) s v =
    (Files.lock_attempt-IsAccounted host handle mode).after s v
run-IsAccounted host (Call.lock_range handle offset size mode) s v =
    (Files.lock_range-IsAccounted host handle offset size mode).after s v
run-IsAccounted host (Call.remove_file path) s v =
    (Paths.remove_file-IsAccounted host path).after s v
run-IsAccounted host (Call.rename from to) s v = (Paths.rename-IsAccounted host from to).after s v
run-IsAccounted host (Call.create_directory path mode) s v =
    (Paths.create_directory-IsAccounted host path mode).after s v
run-IsAccounted host (Call.remove_directory path) s v =
    (Paths.remove_directory-IsAccounted host path).after s v
run-IsAccounted host (Call.open_directory path) s v =
    (Paths.open_directory-IsAccounted host path).after s v
run-IsAccounted host (Call.read_directory handle capacity) s v =
    (Paths.read_directory-IsAccounted handle capacity).after s v
run-IsAccounted host (Call.set_current_directory path) s v =
    (Paths.set_current_directory-IsAccounted path).after s v
run-IsAccounted host (Call.set_mode path mode) s v =
    (Paths.set_mode-IsAccounted host path mode).after s v
run-IsAccounted host (Call.set_times path following accessed changed) s v =
    (Paths.set_times-IsAccounted host path following accessed changed).after s v
run-IsAccounted host (Call.link existing name) s v =
    (Paths.link-IsAccounted host existing name).after s v
run-IsAccounted host (Call.symlink target name) s v =
    (Paths.symlink-IsAccounted host target name).after s v
run-IsAccounted host (Call.map_file handle offset size wanted sharing) s v =
    (Mappings.map_file-IsAccounted host handle offset size wanted sharing).after s v
run-IsAccounted host (Call.unmap address size) s v =
    (Mappings.unmap-IsAccounted address size).after s v
run-IsAccounted host Call.open_watcher s v = (Watches.open_watcher-IsAccounted host).after s v
run-IsAccounted host (Call.close_watcher handle) s v =
    (Watches.close_watcher-IsAccounted handle).after s v
run-IsAccounted host (Call.add handle path events) s v =
    (Watches.add-IsAccounted host handle path events).after s v
run-IsAccounted host (Call.remove_watch handle watch) s v =
    (Watches.remove_watch-IsAccounted host handle watch).after s v
run-IsAccounted host (Call.take_event handle) s v =
    (Watches.take_event-IsAccounted handle).after s v

reachable_accounts : {most : ℕ} {s : State} → IsReachable most s → IsAccounted most s
unfolding set_capacity
reachable_accounts (started memory handles) = initial-IsAccounted memory handles
reachable_accounts (called host call before) =
    run-IsAccounted host call _ (reachable_accounts before)
reachable_accounts (resized bytes before) =
    let v = reachable_accounts before in
    record {
      unique = v.unique;
      fresh = v.fresh;
      exact = v.exact;
      bounded = omega (arith, v.bounded);
      allowed = omega arith;
    }

-- The same state under the bound that holds for it alone.
tightened : {most : ℕ} (s : State) → IsAccounted most s → IsAccounted (max s.used s.capacity) s
tightened s v = record {
  unique = v.unique;
  fresh = v.fresh;
  exact = v.exact;
  bounded = omega arith;
  allowed = omega arith;
}

-- In every state that calls and settings of the capacity lead to from the start, each node stands once and
-- under an identity that was given out, and `used` is what the files hold together, within the largest
-- capacity that there ever was; and any further call leaves `used` within the capacity of that state, or
-- where it was above it already, no higher than it was.
pub IsReachable-IsAccounted :
    {most : ℕ} {s : State}
    → IsReachable most s
    → IsAccounted most s
      × ((host : Host) (call : Call) → (run host call s).used ≤ max s.used s.capacity)
IsReachable-IsAccounted {s = s} r =
    let v = reachable_accounts r in
    (v, λ host call. (run-IsAccounted host call s (tightened s v)).bounded)
