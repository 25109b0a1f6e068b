-- ===== src/MemFs/TreeTests.antt =====
-- Runs of the file system of crates/dotnet-pal-memfs/src/lib.rs.
use dotnet_pal_rs.Common.{ℕ, ◌+◌, ◌*◌, ◌≡◌, refl, true, false, some, List, [], ◌∷◌}
use dotnet_pal_rs.MemFs.Exec.{
  Outcome, finished, endless, ◌>>=◌, ◌>>◌, Exec, view, read, modify, give, when, refuse_if,
  required,
}
use dotnet_pal_rs.MemFs.Maps.{contains, lookup, insert, remove, place, nat_key, name_key}
use dotnet_pal_rs.MemFs.Content.{
  Heap, Store, plain, pinned, resize_content, pin, write_content, prepare, write_prepared,
  read_content,
}
use dotnet_pal_rs.MemFs.State.{content, State, Host, Handle, initial, default_capacity}
use dotnet_pal_rs.MemFs.Walk.{walk, follow}
use dotnet_pal_rs.MemFs.Reports.{report, report_entry, ended}
use dotnet_pal_rs.MemFs.Tree.{
  create, update_entries, touch, update_node, add_node, change, settled, settle, put_back, reap,
  unlinked,
}
use dotnet_pal_rs.Common.{◌≢◌, ◌≤◌, max}
use dotnet_pal_rs.MemFs.Accounting.{IsAccounted}
use dotnet_pal_rs.MemFs.Accounting.Reachable.{IsReachable-IsAccounted}
use dotnet_pal_rs.MemFs.Calls.{Call, run, started, called, resized}
use dotnet_pal_rs.MemFs.Mapping.{set_capacity}
use dotnet_pal_rs.MemFs.Walk.Termination.{walk_returns}
use dotnet_pal_rs.MemFs.Content.Bounds.{IsBounded, write_content-IsBounded}
use dotnet_pal_rs.MemFs.Content.Writes.{IsWritten, write_content_lem}
use dotnet_pal_rs.MemFs.Content.Resizes.{IsResized, resize_content_lem}
use dotnet_pal_rs.MemFs.Content.Pins.{IsPinned, pin_lem}
use dotnet_pal_rs.MemFs.Content.Reads.{read_content-write_content}
use dotnet_pal_rs.Common.{◌==◌, ◌&&◌, none, if◌then◌else◌}
use dotnet_pal_rs.MemFs.Maps.{name_eq}
use dotnet_pal_rs.MemFs.State.{Body, is_directory_at}
use dotnet_pal_rs.MemFs.Walk.{Place}
use dotnet_pal_rs.MemFs.Tree.{new_node}
use dotnet_pal_rs.MemFs.Tree.Creation.{child, create_lem}
use dotnet_pal_rs.MemFs.Handles.{
  opened, new_handle, file_node, borrow, open_file, write_at, read_at, close_file,
}
use dotnet_pal_rs.MemFs.Names.{check_rename, not_below, may_replace, rename_at, entry_at, rename}
use dotnet_pal_rs.MemFs.Directories.{create_directory, remove_directory}

abbrev heap : Heap
heap = record { grants = λ _. true; pages = λ _. some 4096 }

-- The host of the n-th call.
abbrev host : ℕ → Host
host n = record { heap = heap; now = n; box = 8 + n * 8 }

abbrev start : State
start = initial (λ _. 0) (λ _. Handle.directory [] 0)

abbrev dir : List ℕ
dir = b'/' ∷ b'a' ∷ []

-- A file in the directory, by two of its names.
abbrev inner : List ℕ
inner = b'/' ∷ b'a' ∷ b'/' ∷ b'f' ∷ []

abbrev outer : List ℕ
outer = b'g' ∷ []

abbrev steps : Exec State (List ℕ)
steps = do
  create_directory (host 1) dir 0o755
  h ← open_file (host 2) inner 6 0o644
  _ ← write_at (host 3) h 2 (7 ∷ 8 ∷ [])
  close_file h
  rename (host 4) inner outer
  remove_directory (host 5) dir
  h ← open_file (host 6) outer 1 0
  read_at (host 7) h 0 100

abbrev answer_of : {A : Type 0} → Outcome A × State → Outcome A
answer_of r = r.0

-- What is written through one name is read through the next, behind a gap of zeros.
steps_read : answer_of (steps start) ≡ finished (0 ∷ 0 ∷ 7 ∷ 8 ∷ [])
unfolding create_directory create update_entries touch update_node add_node report_entry open_file
    opened new_handle write_at file_node borrow change settled settle write_content prepare
    write_prepared put_back close_file reap rename check_rename not_below may_replace rename_at
    entry_at remove_directory unlinked ended report read_at read_content content walk lookup insert
    remove place contains ◌>>◌ ◌>>=◌ view read modify give when refuse_if required
steps_read = refl

-- A directory, a file in it and three bytes of the file.
abbrev written : State
written = run (host 3) (Call.write_at 24 0 (1 ∷ 2 ∷ 3 ∷ [])) (
    run (host 2) (Call.open_file inner 6 0o644)
      (run (host 1) (Call.create_directory dir 0o755) start))

-- The capacity is set below the three bytes, which stay.
abbrev lowered : State
lowered = set_capacity 1 written

lowered_used : ◌≡◌ {A = ℕ × ℕ} (lowered.used, lowered.capacity) (3, 1)
unfolding set_capacity run create_directory create update_entries touch update_node add_node
    report_entry open_file opened new_handle write_at file_node borrow change settled settle
    write_content prepare write_prepared put_back close_file reap rename check_rename not_below
    may_replace rename_at entry_at remove_directory unlinked ended report read_at read_content
    content walk lookup insert remove place contains ◌>>◌ ◌>>=◌ view read modify give when refuse_if
    required
lowered_used = refl

IsReachable-IsAccounted_example :
    IsAccounted default_capacity lowered
    × ((host : Host) (call : Call) → (run host call lowered).used ≤ max lowered.used 1)
unfolding set_capacity
IsReachable-IsAccounted_example = IsReachable-IsAccounted (
    resized 1 (
      called (host 3) (Call.write_at 24 0 (1 ∷ 2 ∷ 3 ∷ [])) (
        called (host 2) (Call.open_file inner 6 0o644) (
          called (host 1) (Call.create_directory dir 0o755)
            (started (λ _. 0) (λ _. Handle.directory [] 0))))))

-- A link that leads to itself.
abbrev looped : State
looped = run (host 1) (Call.symlink outer outer) start

walk_returns_example : walk outer follow looped ≢ endless
walk_returns_example = walk_returns outer follow looped

abbrev pinned_store : Store
pinned_store = record {
  memory = λ i. i;
  content = pinned (record { base = 4096; size = 10; capacity = 4096 });
}

abbrev plain_store : Store
plain_store = record { memory = λ i. i; content = plain (1 ∷ 2 ∷ 3 ∷ []) }

write_content_lem_example :
    IsWritten pinned_store 12
      (7 ∷ 8 ∷ [])
      (write_content heap 12 (7 ∷ 8 ∷ []) 100 true pinned_store)
write_content_lem_example = write_content_lem heap 12 (7 ∷ 8 ∷ []) 100 true pinned_store

write_content-IsBounded_example :
    IsBounded 10 100 (write_content heap 12 (7 ∷ 8 ∷ []) 100 true pinned_store)
write_content-IsBounded_example = write_content-IsBounded heap 12 (7 ∷ 8 ∷ []) 100 true pinned_store

resize_content_lem_example : IsResized plain_store 2 (resize_content heap 2 0 false plain_store)
resize_content_lem_example = resize_content_lem heap 2 0 false plain_store

pin_lem_example : IsPinned plain_store (pin heap 4096 plain_store)
pin_lem_example = pin_lem heap 4096 plain_store

abbrev overwritten : Store
overwritten = record { memory = λ i. i; content = plain (1 ∷ 7 ∷ 8 ∷ []) }

read_content-write_content_example : read_content (λ i. i) (plain (1 ∷ 7 ∷ 8 ∷ [])) 1 2 ≡ 7 ∷ 8 ∷ []
unfolding write_content prepare write_prepared read_content ◌>>◌
read_content-write_content_example =
    read_content-write_content heap 1 (7 ∷ 8 ∷ []) 0 false plain_store {n = 2} {t = overwritten}
      refl

abbrev new_place : Place
new_place = record { parent = 1; name = b'f' ∷ []; node = none; slash = false }

create_lem_example :
    let r = create (host 1) new_place 0o644 (Body.file (plain [])) start in
    (r.0 ≡ finished 2)
    × (lookup 2 r.1.nodes ≡ some (new_node 0o644 (Body.file (plain [])) 1))
    × ((dir : ℕ) (name : List ℕ)
        → child dir name r.1
          ≡ (if (1 == dir) && name_eq (b'f' ∷ []) name then some 2 else child dir name start))
unfolding is_directory_at lookup
create_lem_example =
    create_lem (host 1) new_place 0o644 (Body.file (plain [])) start
      (IsReachable-IsAccounted (started (λ _. 0) (λ _. Handle.directory [] 0))).0 refl refl
