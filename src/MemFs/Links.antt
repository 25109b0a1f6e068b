-- ===== src/MemFs/Links.antt =====
-- The calls of `Files` on modes, times and links in crates/dotnet-pal-memfs/src/lib.rs.
use dotnet_pal_rs.Common.{
  ℕ, ◌+◌, ltb, if◌then◌else◌, Bool, not, Option, none, some, List, [], ◌∷◌, ◌++◌, length,
}
use dotnet_pal_rs.Port.{invalid_argument, not_found, no_space, name_too_long, access_denied}
use dotnet_pal_rs.MemFs.Exec.{
  Outcome, finished, failed, Exec, ◌>>=◌, ◌>>◌, give, view, modify, refuse_if, required,
}
use dotnet_pal_rs.MemFs.Maps.{insert, nat_key, name_key}
use dotnet_pal_rs.MemFs.State.{State, Body, Host, node, is_directory_at}
use dotnet_pal_rs.MemFs.Walk.{Place, follow, keep, walk, vacant, max_name}
use dotnet_pal_rs.MemFs.Spelling.{spell}
use dotnet_pal_rs.MemFs.Tree.{update_node, update_entries, touch, create, set_mode_of, set_times_of}
use dotnet_pal_rs.MemFs.Handles.{is_empty}
use dotnet_pal_rs.MemFs.Reports.{report, report_entry, created, attributes}

-- `Files::set_mode`
unfoldable pub set_mode : Host → List ℕ → ℕ → Exec State (Unit {0})
set_mode host path mode = do
  place ← view (walk path follow)
  id ← required place.node not_found
  set_mode_of host id mode

-- `Files::set_times`
unfoldable pub set_times : Host → List ℕ → Bool → Option ℕ → Option ℕ → Exec State (Unit {0})
set_times host path following accessed changed_at = do
  place ← view (walk path (if following then follow else keep))
  id ← required place.node not_found
  set_times_of host id accessed changed_at

-- `link`, behind its refusals.
unfoldable pub link_at : Host → ℕ → Place → Exec State (Unit {0})
unfolding update_entries update_node touch
link_at host id place = do
  modify (report host.heap.grants id attributes)
  update_entries place.parent (insert place.name id)
  update_node id (λ n. record n { links = n.links + 1; changed = host.now })
  touch place.parent host.now
  modify (report_entry host.heap.grants place.parent place.name created 0)

-- `Files::link`
unfoldable pub link : Host → List ℕ → List ℕ → Exec State (Unit {0})
unfolding link_at
link host existing name = do
  found ← view (walk existing keep)
  id ← required found.node not_found
  place ← view (vacant name)
  dir ← view (is_directory_at id)
  refuse_if dir access_denied
  link_at host id place

-- `Files::symlink`
unfoldable pub symlink : Host → List ℕ → List ℕ → Exec State (Unit {0})
symlink host target name = do
  refuse_if (is_empty target) not_found
  refuse_if (ltb max_name (length target)) name_too_long
  refuse_if (not (host.heap.grants (length target))) no_space
  place ← view (vacant name)
  _ ← create host place 0o777 (Body.link target)
  give tt

abbrev pub target_of : Body → Outcome (List ℕ)
target_of (Body.link target) = finished target
target_of _ = failed invalid_argument

-- `Files::read_link`: the size of the text, and the text with its 0 if it fits the buffer.
unfoldable pub read_link : List ℕ → ℕ → Exec State (ℕ × Option (List ℕ))
read_link path capacity = do
  place ← view (walk path keep)
  id ← required place.node not_found
  n ← view (node id)
  target ← view (λ _. target_of n.body)
  give (length target + 1, if ltb (length target) capacity then some (target ++ 0 ∷ []) else none)

-- `Files::real_path`
unfoldable pub real_path : List ℕ → ℕ → Exec State (ℕ × Option (List ℕ))
real_path path capacity = do
  place ← view (walk path follow)
  _ ← required place.node not_found
  view (spell place.parent place.name capacity)
