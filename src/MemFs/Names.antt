-- ===== src/MemFs/Names.antt =====
-- The calls of `Files` on paths in crates/dotnet-pal-memfs/src/lib.rs: names.
use dotnet_pal_rs.Common.{
  ℕ, zero, suc, ◌+◌, bit_or, ◌==◌, if◌then◌else◌, Bool, true, false, not, ◌&&◌, ◌||◌, Option, none,
  some, List, length,
}
use dotnet_pal_rs.Common.Words.{u32_max}
use dotnet_pal_rs.Port.{invalid_argument, is_directory, not_directory, not_found, not_empty, busy}
use dotnet_pal_rs.MemFs.Exec.{
  Outcome, finished, failed, endless, Exec, ◌>>=◌, ◌>>◌, give, view, read, modify, refuse_if,
  required,
}
use dotnet_pal_rs.MemFs.Maps.{lookup, insert, remove, nat_key, name_key}
use dotnet_pal_rs.MemFs.State.{State, Body, Host, root, entries, parent, is_directory_at}
use dotnet_pal_rs.MemFs.Walk.{Place, entry, walk}
use dotnet_pal_rs.MemFs.Exec.{and_then}
use dotnet_pal_rs.MemFs.Tree.{update_node, update_entries, touch, unlinked}
use dotnet_pal_rs.MemFs.Handles.{is_empty}
use dotnet_pal_rs.MemFs.Reports.{report_entry, moved_from, moved_to, deleted, directory_mark}

-- `Files::remove`, at the place its path leads to.
unfoldable pub remove_at : Host → Place → ℕ → Exec State (Unit {0})
unfolding update_entries touch
remove_at host place id = do
  update_entries place.parent (remove place.name)
  touch place.parent host.now
  unlinked host id true
  modify (report_entry host.heap.grants place.parent place.name deleted 0)

-- `Files::remove`
unfoldable pub remove_file : Host → List ℕ → Exec State (Unit {0})
unfolding remove_at
remove_file host path = do
  place ← view (walk path entry)
  id ← required place.node not_found
  dir ← view (is_directory_at id)
  refuse_if dir is_directory
  remove_at host place id

-- The loop of `rename` over the directories above the destination, on fuel.
unfoldable pub not_below : State → ℕ → ℕ → ℕ → Outcome (Unit {0})
not_below s id zero ancestor = endless
not_below s id (suc fuel) ancestor = elim (ancestor == root) [
  | true ↦ finished tt
  | false ↦ elim (ancestor == id) [
    | true ↦ failed invalid_argument
    | false ↦ and_then (parent ancestor s) (not_below s id fuel)
  ]
]

-- The `match` on what is replaced.
unfoldable pub may_replace : Bool → Option ℕ → State → Outcome (Unit {0})
may_replace dir none s = finished tt
may_replace dir (some replaced) s = and_then (is_directory_at replaced s) λ other.
    if not dir && other
    then failed is_directory
    else if dir && not other
    then failed not_directory
    else if dir && other
    then and_then (entries replaced s) (λ es. if is_empty es then finished tt else failed not_empty)
    else finished tt

abbrev pub next_cookie : ℕ → ℕ
next_cookie cookie = if cookie == u32_max then 1 else cookie + 1

abbrev pub moved_body : ℕ → Body → Body
moved_body above (Body.directory _ es) = Body.directory above es
moved_body above (Body.file content) = Body.file content
moved_body above (Body.link target) = Body.link target

-- What stands under a name that is about to be replaced.
unfoldable pub entry_at : ℕ → List ℕ → State → Outcome (Option ℕ)
unfolding entries
entry_at dir name s = and_then (entries dir s) (λ es. finished (lookup name es))

-- `rename`, behind its refusals.
unfoldable pub rename_at : Host → Place → Place → ℕ → Bool → Exec State (Unit {0})
unfolding update_node update_entries touch entry_at
rename_at host source target id dir = do
  update_entries source.parent (remove source.name)
  replaced ← view (entry_at target.parent target.name)
  update_entries target.parent (insert target.name id)
  modify (λ (s : State). record s { cookie = next_cookie s.cookie })
  cookie ← read (λ (s : State). s.cookie)
  modify (
      report_entry host.heap.grants source.parent source.name
        (if dir then bit_or moved_from directory_mark else moved_from) cookie)
  modify (
      report_entry host.heap.grants target.parent target.name
        (if dir then bit_or moved_to directory_mark else moved_to) cookie)
  elim replaced as (λ _. Exec State (Unit {0})) [
    | none ↦ give tt
    | some old ↦ unlinked host old true
  ]
  update_node id (λ n. record n { changed = host.now; body = moved_body target.parent n.body })
  touch source.parent host.now
  touch target.parent host.now

-- The refusals of `rename` behind its test of the same file.
unfoldable pub check_rename : Place → ℕ → Bool → State → Outcome (Unit {0})
unfolding not_below may_replace
check_rename target id dir s =
    and_then
      (if dir
        then not_below s id (suc (length s.nodes)) target.parent
        else if target.slash
        then failed not_directory
        else finished tt)
      λ _. may_replace dir target.node s

abbrev pub is_node : Option ℕ → ℕ → Bool
is_node none id = false
is_node (some other) id = other == id

-- `Files::rename`
unfoldable pub rename : Host → List ℕ → List ℕ → Exec State (Unit {0})
unfolding rename_at check_rename
rename host from to = do
  source ← view (walk from entry)
  id ← required source.node not_found
  target ← view (walk to entry)
  refuse_if (is_empty source.name || is_empty target.name) busy
  if is_node target.node id then give tt else (do
    dir ← view (is_directory_at id)
    view (check_rename target id dir)
    rename_at host source target id dir)
