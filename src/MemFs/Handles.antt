-- ===== src/MemFs/Handles.antt =====
-- `Handle` and the calls of `Files` on open files in crates/dotnet-pal-memfs/src/lib.rs.
use dotnet_pal_rs.Common.{
  ℕ, ◌+◌, ◌-◌, ◌%◌, bit_and, ltb, ◌==◌, if◌then◌else◌, Bool, true, false, not, ◌&&◌, ◌||◌, Option,
  none, some, List, [], ◌∷◌, length,
}
use dotnet_pal_rs.Common.Words.{checked_add, usize_max}
pub use dotnet_pal_rs.Boundary.Files.{
  Status, read_flag, write_flag, create_flag, exclusive_flag, truncate_flag,
}
use dotnet_pal_rs.Port.{
  invalid_argument, access_denied, already_exists, is_directory, not_found, would_block,
}
use dotnet_pal_rs.MemFs.Exec.{
  Outcome, finished, failed, endless, Exec, ◌>>=◌, ◌>>◌, give, view, read, modify, refuse_if, when,
  required,
}
use dotnet_pal_rs.MemFs.Locks.{Lock, lock_unlock, lock_exclusive}
use dotnet_pal_rs.MemFs.Content.{plain, content_len, read_content, resize_content, write_content}
use dotnet_pal_rs.MemFs.State.{State, Body, Host, Handle, node, content, is_directory_at, kind_of}
use dotnet_pal_rs.MemFs.Walk.{Place, follow, keep, create, walk}
use dotnet_pal_rs.MemFs.Tree as Tree
use dotnet_pal_rs.MemFs.Tree.{update_node, change, reap, relock, set_mode_of, set_times_of}
use dotnet_pal_rs.MemFs.Reports.{report, access, filter}

-- Whether a word has one of the bits.
abbrev pub has : ℕ → ℕ → Bool
has flags bits = not (bit_and flags bits == 0)

-- `mem::align_of::<Handle>()`
abbrev pub handle_align : ℕ
handle_align = 8

-- `borrow`
unfoldable pub borrow : ℕ → Exec State Handle
borrow handle s =
    if handle == 0 || not (handle % handle_align == 0)
    then (failed invalid_argument, s)
    else (finished (s.handles handle), s)

abbrev pub granted_node : ℕ → Handle → Outcome ℕ
granted_node wanted (Handle.file id granted) =
    if bit_and granted wanted == wanted then finished id else failed access_denied
granted_node wanted _ = failed invalid_argument

-- `file_node`
unfoldable pub file_node : ℕ → ℕ → Exec State ℕ
unfolding borrow
file_node handle wanted = do h ← borrow handle; view (λ _. granted_node wanted h)

-- `handle`, which puts the value into a new box.
unfoldable pub new_handle : Host → Handle → Exec State ℕ
new_handle host value s = (
  finished host.box,
  record s { handles = λ address. if address == host.box then value else s.handles address },
)

-- The node that `Files::open` opens, at the place its path leads to.
unfoldable pub opened : Host → Place → ℕ → ℕ → Exec State ℕ
opened host place flags mode s = elim place.node [
  | some id ↦
      (do
        refuse_if (has flags exclusive_flag) already_exists
        dir ← view (is_directory_at id)
        refuse_if dir is_directory
        when (has flags truncate_flag) (change host id false (resize_content host.heap 0))
        give id)
        s
  | none ↦
      (do
        refuse_if (not (has flags create_flag)) not_found
        refuse_if place.slash is_directory
        Tree.create host place mode (Body.file (plain [])))
        s
]

-- `Files::open`, which reads the clock only when it may change something.
unfoldable pub open_file : Host → List ℕ → ℕ → ℕ → Exec State ℕ
unfolding opened new_handle
open_file host path flags mode = do
  let now = if has flags (create_flag + truncate_flag) then host.now else 0
  place ← view (walk path (if has flags exclusive_flag then create else follow))
  id ← opened (record host { now = now }) place flags mode
  update_node id (λ n. record n { opens = n.opens + 1 })
  new_handle host (Handle.file id (bit_and flags (read_flag + write_flag)))

abbrev pub opened_file : Handle → Outcome ℕ
opened_file (Handle.file id _) = finished id
opened_file _ = failed invalid_argument

-- `Files::close`
unfoldable pub close_file : ℕ → Exec State (Unit {0})
unfolding borrow
close_file handle = do
  h ← borrow handle
  id ← view (λ _. opened_file h)
  update_node id (λ n. record n {
    opens = n.opens - 1;
    locks = filter (λ (held : Lock). not (held.owner == handle)) n.locks;
  })
  modify (reap id)

abbrev pub is_empty {ℓ} : {A : Type ℓ} → List A → Bool
is_empty [] = true
is_empty (_ ∷ _) = false

-- `Files::read_at`, with the bytes that it copies out.
unfoldable pub read_at : Host → ℕ → ℕ → ℕ → Exec State (List ℕ)
unfolding file_node
read_at host handle offset capacity = do
  id ← file_node handle read_flag
  c ← view (content id)
  bytes ← read (λ (s : State). read_content s.memory c offset capacity)
  when (not (is_empty bytes)) (modify (report host.heap.grants id access))
  give bytes

-- `Files::write_at`
unfoldable pub write_at : Host → ℕ → ℕ → List ℕ → Exec State ℕ
unfolding file_node
write_at host handle offset written = do
  id ← file_node handle write_flag
  change host id (not (length written == 0)) (write_content host.heap offset written)

-- `Files::set_size`
unfoldable pub set_file_size : Host → ℕ → ℕ → Exec State (Unit {0})
unfolding file_node
set_file_size host handle size = do
  id ← file_node handle write_flag
  change host id false (resize_content host.heap size)

-- `Files::flush`
unfoldable pub flush : ℕ → Exec State (Unit {0})
unfolding file_node
flush handle = do _ ← file_node handle 0; give tt

abbrev pub status_size : Body → ℕ
status_size (Body.file c) = content_len c
status_size (Body.directory _ _) = 0
status_size (Body.link target) = length target

-- `State::status`
unfoldable pub status_of : ℕ → Exec State Status
status_of id = do
  n ← view (node id)
  give (record {
    kind = kind_of n.body;
    mode = n.mode;
    size = status_size n.body;
    modified_ns = n.modified;
    accessed_ns = n.accessed;
    changed_ns = n.changed;
    created_ns = n.created;
    identity = id;
    device = 1;
  })

-- `Files::status`
unfoldable pub file_status : ℕ → Exec State Status
unfolding file_node status_of
file_status handle = do id ← file_node handle 0; status_of id

-- `Files::path_status`
unfoldable pub path_status : List ℕ → Bool → Exec State Status
unfolding status_of
path_status path following = do
  place ← view (walk path (if following then follow else keep))
  id ← required place.node not_found
  status_of id

-- `Files::set_file_mode`
unfoldable pub set_file_mode : Host → ℕ → ℕ → Exec State (Unit {0})
unfolding file_node
set_file_mode host handle mode = do id ← file_node handle 0; set_mode_of host id mode

-- `Files::set_file_times`
unfoldable pub set_file_times : Host → ℕ → Option ℕ → Option ℕ → Exec State (Unit {0})
unfolding file_node
set_file_times host handle accessed changed_at = do
  id ← file_node handle 0
  set_times_of host id accessed changed_at

-- The lock on the whole file that a handle asks for.
abbrev pub whole_lock : ℕ → ℕ → Lock
whole_lock handle mode = record {
  owner = handle;
  whole = true;
  start = 0;
  end = usize_max;
  exclusive = mode == lock_exclusive;
}

-- One attempt of `Files::lock`, under the lock of the tree.
unfoldable pub lock_attempt : Host → ℕ → ℕ → Exec State (Unit {0})
unfolding file_node
lock_attempt host handle mode = do
  id ← file_node handle 0
  relock host id lock_unlock (whole_lock handle mode)
  relock host id mode (whole_lock handle mode)

-- Whether the second `relock` of an attempt answers `WouldBlock`; the first does not.
abbrev pub is_would_block : Outcome (Unit {0}) → Bool
is_would_block (failed would_block) = true
is_would_block _ = false

-- `Files::lock`. The calls of other threads between the attempts are given as changes of the state, and
-- a caller that waits beyond the last one does not come back.
unfoldable pub lock : Host → ℕ → ℕ → Bool → List (State → State) → Exec State (Unit {0})
unfolding lock_attempt
lock host handle mode wait [] s =
    let (r, s') = lock_attempt host handle mode s in
    if wait && is_would_block r then (endless, s') else (r, s')
lock host handle mode wait (others ∷ later) s =
    let (r, s') = lock_attempt host handle mode s in
    let rest = lock host handle mode wait later (others s') in
    if wait && is_would_block r then rest else (r, s')

-- The access that a range lock asks of its handle.
abbrev pub range_access : ℕ → ℕ
range_access mode =
    if mode == lock_unlock then 0 else if mode == lock_exclusive then write_flag else read_flag

-- `Files::lock_range`
unfoldable pub lock_range : Host → ℕ → ℕ → ℕ → ℕ → Exec State (Unit {0})
unfolding file_node
lock_range host handle offset size mode = do
  id ← file_node handle (range_access mode)
  end ← required (checked_add offset size) invalid_argument
  refuse_if (not (ltb offset end)) invalid_argument
  relock host id mode (record {
    owner = handle;
    whole = false;
    start = offset;
    end = end;
    exclusive = mode == lock_exclusive;
  })
