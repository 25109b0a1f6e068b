-- ===== src/MemFs/Directories.antt =====
-- The calls of `Files` on directories in crates/dotnet-pal-memfs/src/lib.rs.
use dotnet_pal_rs.Common.{
  ℕ, ◌+◌, bit_or, ltb, ◌==◌, if◌then◌else◌, Bool, true, false, not, Option, none, some, List, [],
  ◌∷◌, ◌++◌, length, take, drop,
}
use dotnet_pal_rs.Port.{
  invalid_argument, already_exists, not_found, not_empty, busy, os, out_of_memory,
}
use dotnet_pal_rs.MemFs.Exec.{
  Outcome, finished, failed, endless, Exec, ◌>>=◌, ◌>>◌, give, view, modify, refuse_if, required,
}
use dotnet_pal_rs.MemFs.Maps.{remove, nat_key, name_key}
use dotnet_pal_rs.MemFs.State.{
  State, Body, Entries, Host, Handle, root, node, kind_of, entries, working,
}
use dotnet_pal_rs.MemFs.Walk.{Place, Last, follow, keep, entry, walk, vacant, max_name}
use dotnet_pal_rs.MemFs.Spelling.{spell}
use dotnet_pal_rs.MemFs.Exec.{and_then}
use dotnet_pal_rs.MemFs.Walk as Walk
use dotnet_pal_rs.MemFs.Tree.{update_entries, touch, create, unlinked}
use dotnet_pal_rs.MemFs.Handles.{is_empty, borrow, new_handle}
use dotnet_pal_rs.MemFs.Reports.{report_entry, deleted, directory_mark}

abbrev pub is_some {ℓ} : {A : Type ℓ} → Option A → Bool
is_some none = false
is_some (some _) = true

-- `Files::create_directory`
unfoldable pub create_directory : Host → List ℕ → ℕ → Exec State (Unit {0})
create_directory host path mode = do
  place ← view (walk path Walk.create)
  refuse_if (is_some place.node) already_exists
  _ ← create host place mode (Body.directory place.parent [])
  give tt

-- `Files::remove_directory`
unfoldable pub remove_directory : Host → List ℕ → Exec State (Unit {0})
unfolding update_entries touch
remove_directory host path = do
  place ← view (walk path entry)
  id ← required place.node not_found
  es ← view (entries id)
  refuse_if (id == root) busy
  refuse_if (not (is_empty es)) not_empty
  refuse_if (is_empty place.name) invalid_argument
  update_entries place.parent (remove place.name)
  touch place.parent host.now
  unlinked host id false
  modify (report_entry host.heap.grants place.parent place.name (bit_or deleted directory_mark) 0)

-- The snapshot of `open_directory`: kind, length and name of each entry.
unfoldable pub listing : State → Entries → Outcome (List ℕ)
listing s [] = finished []
listing s ((name, child) ∷ es) =
    and_then (node child s)
      λ n. and_then (listing s es) λ rest. finished (kind_of n.body ∷ length name ∷ name ++ rest)

abbrev pub listing_size : Entries → ℕ
listing_size [] = 0
listing_size ((name, child) ∷ es) = length name + 2 + listing_size es

-- `Files::open_directory`
unfoldable pub open_directory : Host → List ℕ → Exec State ℕ
unfolding new_handle listing
open_directory host path = do
  place ← view (walk path follow)
  id ← required place.node not_found
  es ← view (entries id)
  refuse_if (not (host.heap.grants (listing_size es))) out_of_memory
  text ← view (λ s. listing s es)
  new_handle host (Handle.directory text 0)

-- The entry at the cursor of a listing: its kind, its name, and where the next one stands.
unfoldable pub entry_of : List ℕ → ℕ → ℕ → Outcome (ℕ × List ℕ × ℕ)
entry_of text cursor capacity = elim (drop cursor text) [
  | [] ↦ failed not_found
  | kind ∷ rest ↦ elim rest [
    | [] ↦ failed not_found
    | size ∷ tail ↦
        if ltb (length tail) size
        then failed os
        else if ltb capacity size
        then failed invalid_argument
        else finished (kind, take size tail, cursor + 2 + size)
  ]
]

-- `read_directory` on the handle that was borrowed: the name that it copies out, and the kind.
unfoldable pub read_entry : ℕ → ℕ → Handle → Exec State (List ℕ × ℕ)
unfolding entry_of
read_entry handle capacity (Handle.directory text cursor) s = elim (entry_of text cursor capacity) [
  | endless ↦ (endless, s)
  | failed e ↦ (failed e, s)
  | finished (kind, name, after) ↦ (
    finished (name, kind),
    record s {
      handles =
          λ address. if address == handle then Handle.directory text after else s.handles address;
    },
  )
]
read_entry handle capacity (Handle.file _ _) s = (failed invalid_argument, s)
read_entry handle capacity (Handle.watcher _) s = (failed invalid_argument, s)

-- `Files::read_directory`
unfoldable pub read_directory : ℕ → ℕ → Exec State (List ℕ × ℕ)
unfolding borrow read_entry
read_directory handle capacity = borrow handle >>= read_entry handle capacity

abbrev pub is_listing : Handle → Bool
is_listing (Handle.directory _ _) = true
is_listing _ = false

-- `Files::close_directory`
unfoldable pub close_directory : ℕ → Exec State (Unit {0})
unfolding borrow
close_directory handle = do h ← borrow handle; refuse_if (not (is_listing h)) invalid_argument

-- `Files::current_directory`
unfoldable pub current_directory : ℕ → Exec State (ℕ × Option (List ℕ))
current_directory capacity = do here ← view working; view (spell here [] capacity)

-- `Files::set_current_directory`
unfoldable pub set_current_directory : List ℕ → Exec State (Unit {0})
set_current_directory path = do
  place ← view (walk path follow)
  id ← required place.node not_found
  _ ← view (entries id)
  modify (λ s. record s { working = id })
