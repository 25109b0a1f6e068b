-- ===== src/MemFs/Tree.antt =====
-- The operations of `State` in crates/dotnet-pal-memfs/src/lib.rs that change nodes.
pub mod Creation
use dotnet_pal_rs.Common.{
  ℕ, ◌+◌, ◌-◌, bit_and, bit_or, ◌==◌, if◌then◌else◌, Bool, true, false, not, ◌&&◌, ◌||◌, Option,
  none, some, [],
}
use dotnet_pal_rs.Port.{ok, err, invalid_argument, not_directory, is_directory}
use dotnet_pal_rs.MemFs.Exec.{
  Outcome, finished, failed, endless, Exec, ◌>>=◌, ◌>>◌, give, view, read, modify, when,
}
use dotnet_pal_rs.MemFs.Maps.{lookup, insert, remove, nat_key, name_key}
use dotnet_pal_rs.MemFs.Locks.{Lock}
use dotnet_pal_rs.MemFs.Locks as Locks
use dotnet_pal_rs.MemFs.Content.{content_len, Store}
use dotnet_pal_rs.MemFs.State.{State, node, Node, Body, Entries, Host, mode_mask, is_directory_at}
use dotnet_pal_rs.MemFs.Walk.{Place}
use dotnet_pal_rs.MemFs.Reports.{
  report, report_entry, ended, created, attributes, modified, directory_mark,
}

-- `node_mut`, and a change of the node.
unfoldable pub update_node : ℕ → (Node → Node) → Exec State (Unit {0})
update_node id f s = elim (lookup id s.nodes) [
  | none ↦ (failed invalid_argument, s)
  | some n ↦ (finished tt, record s { nodes = insert id (f n) s.nodes })
]

-- `entries_mut`, and a change of the entries.
unfoldable pub update_entries : ℕ → (Entries → Entries) → Exec State (Unit {0})
update_entries id f s = elim (lookup id s.nodes) [
  | none ↦ (failed invalid_argument, s)
  | some n ↦ elim n.body [
    | Body.directory above es ↦ (
      finished tt,
      record s { nodes = insert id (record n { body = Body.directory above (f es) }) s.nodes },
    )
    | _ ↦ (failed not_directory, s)
  ]
]

-- `State::touch`
unfoldable pub touch : ℕ → ℕ → Exec State (Unit {0})
unfolding update_node
touch id now = update_node id (λ n. record n { modified = now; changed = now })

-- A node as `create` makes it.
abbrev pub new_node : ℕ → Body → ℕ → Node
new_node mode body now = record {
  mode = bit_and mode mode_mask;
  created = now;
  accessed = now;
  modified = now;
  changed = now;
  links = 1;
  opens = 0;
  maps = 0;
  locks = [];
  body = body;
}

-- `nodes.insert` of `create`, behind the entry.
unfoldable pub add_node : Node → State → State
add_node n s = record s { next_id = s.next_id + 1; nodes = insert s.next_id n s.nodes }

-- `State::create`
unfoldable pub create : Host → Place → ℕ → Body → Exec State ℕ
create host place mode body = do
  id ← read (λ (s : State). s.next_id)
  update_entries place.parent (insert place.name id)
  modify (add_node (new_node mode body host.now))
  touch place.parent host.now
  dir ← view (is_directory_at id)
  modify (
      report_entry host.heap.grants place.parent place.name
        (if dir then bit_or created directory_mark else created) 0)
  give id

-- What a body takes of the capacity.
abbrev pub body_size : Body → ℕ
body_size (Body.file content) = content_len content
body_size _ = 0

-- `State::reap`
unfoldable pub reap : ℕ → State → State
reap id s = elim (lookup id s.nodes) [
  | none ↦ s
  | some n ↦
      if n.links == 0 && (n.opens == 0 && n.maps == 0)
      then record s { nodes = remove id s.nodes; used = s.used - body_size n.body }
      else s
]

-- `State::unlinked`
unfoldable pub unlinked : Host → ℕ → Bool → Exec State (Unit {0})
unfolding update_node reap
unlinked host id counted = do
  update_node id (λ n. record n { links = n.links - 1; changed = host.now })
  last ← read (λ (s : State). elim (lookup id s.nodes) [ none ↦ false | some n ↦ n.links == 0 ])
  when counted (modify (report host.heap.grants id attributes))
  when last (modify (ended host.heap.grants id))
  modify (reap id)

-- `State::set_mode`
unfoldable pub set_mode_of : Host → ℕ → ℕ → Exec State (Unit {0})
unfolding update_node
set_mode_of host id mode = do
  update_node id (λ n. record n { mode = bit_and mode mode_mask; changed = host.now })
  modify (report host.heap.grants id attributes)

-- `unwrap_or`
abbrev pub or_else : Option ℕ → ℕ → ℕ
or_else none d = d
or_else (some v) d = v

abbrev pub is_none : Option ℕ → Bool
is_none none = true
is_none (some _) = false

-- `State::set_times`
unfoldable pub set_times_of : Host → ℕ → Option ℕ → Option ℕ → Exec State (Unit {0})
unfolding update_node
set_times_of host id accessed changed_at =
    if is_none accessed && is_none changed_at then (view (node id) >> give tt) else (do
      update_node id (λ n. record n {
        accessed = or_else accessed n.accessed;
        modified = or_else changed_at n.modified;
        changed = host.now;
      })
      modify (report host.heap.grants id attributes))

-- `State::relock`
unfoldable pub relock : Host → ℕ → ℕ → Lock → Exec State (Unit {0})
relock host id mode wanted s = elim (lookup id s.nodes) [
  | none ↦ (failed invalid_argument, s)
  | some n ↦ elim (Locks.relock (host.heap.grants 2) n.locks mode wanted) [
    | err e ↦ (failed e, s)
    | ok locks ↦ (finished tt, record s { nodes = insert id (record n { locks = locks }) s.nodes })
  ]
]

-- The file with its new content and the memory, whatever the edit answered.
unfoldable pub put_back : ℕ → Node → Store → State → State
put_back id n store s = record s {
  memory = store.memory;
  nodes = insert id (record n { body = Body.file store.content }) s.nodes;
}

-- What `change` settles behind an edit that went through.
unfoldable pub settle : Host → ℕ → Bool → ℕ → ℕ → Exec State (Unit {0})
unfolding update_node
settle host id told before after = do
  modify (λ (s : State). record s { used = s.used - before + after })
  update_node id (λ n. record n { modified = host.now; changed = host.now })
  when (told || not (before == after)) (modify (report host.heap.grants id modified))

module _ {A : Type 0} where
  -- What becomes of the answer of an edit.
  unfoldable pub settled : Host → ℕ → Bool → ℕ → Outcome A → Store → Exec State A
  unfolding settle
  settled host id told before (finished a) store s =
      (settle host id told before (content_len store.content) >> give a) s
  settled host id told before (failed e) store s = (failed e, s)
  settled host id told before endless store s = (endless, s)

  -- `State::change`
  unfoldable pub change : Host → ℕ → Bool → (ℕ → Bool → Exec Store A) → Exec State A
  unfolding put_back settled
  change host id told edit s = elim (lookup id s.nodes) [
    | none ↦ (failed invalid_argument, s)
    | some n ↦ elim n.body [
      | Body.file content ↦
          let (r, store) =
            edit (s.capacity - s.used) (not (n.maps == 0))
              (record { memory = s.memory; content = content }) in
          settled host id told (content_len content) r store (put_back id n store s)
      | _ ↦ (failed is_directory, s)
    ]
  ]
