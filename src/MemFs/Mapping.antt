-- ===== src/MemFs/Mapping.antt =====
-- `Mappings` and `Volumes` for `MemFs` in crates/dotnet-pal-memfs/src/lib.rs.
use dotnet_pal_rs.Common.{
  ℕ, ◌+◌, ◌-◌, ◌*◌, ◌/◌, ◌%◌, max, min, leb, ◌==◌, if◌then◌else◌, Bool, not, ◌&&◌, Option, none,
  some, List, [], ◌∷◌,
}
use dotnet_pal_rs.Common.Words.{usize_max}
use dotnet_pal_rs.Port.{invalid_argument, unsupported, os, out_of_memory, not_found}
use dotnet_pal_rs.MemFs.Exec.{
  Outcome, finished, failed, endless, Exec, ◌>>=◌, ◌>>◌, give, view, modify, refuse_if, when,
  required,
}
use dotnet_pal_rs.MemFs.Maps.{lookup, insert, remove, contains, nat_key, pair_key}
use dotnet_pal_rs.MemFs.Content.{Content, content_len, read_content, pin, blank, poke}
use dotnet_pal_rs.MemFs.State.{State, Body, Host, shared, private, page, content}
use dotnet_pal_rs.MemFs.Walk.{follow, walk}
use dotnet_pal_rs.MemFs.Tree.{update_node, put_back, reap}
use dotnet_pal_rs.MemFs.Handles.{file_node, has, read_flag, write_flag}

-- `runtime::WRITE` and `runtime::EXECUTE`
abbrev pub writable : ℕ
writable = 2

abbrev pub execute : ℕ
execute = 4

-- `checked_next_multiple_of(PAGE)`
abbrev pub checked_pages : ℕ → Option ℕ
checked_pages size =
    let pages = (size + (page - 1)) / page * page in
    if leb pages usize_max then some pages else none

-- `pin` on the content of a node.
unfoldable pub pin_node : Host → ℕ → ℕ → Exec State ℕ
unfolding pin put_back
pin_node host id limit s = elim (lookup id s.nodes) [
  | none ↦ (failed invalid_argument, s)
  | some n ↦ elim n.body [
    | Body.file c ↦
        let (r, store) = pin host.heap limit (record { memory = s.memory; content = c }) in
        (r, put_back id n store s)
    | _ ↦ (failed invalid_argument, s)
  ]
]

-- The record of a shared mapping, which counts how often a range was mapped.
unfoldable pub count_mapping : ℕ → ℕ → ℕ → Exec State (Unit {0})
count_mapping address size id s = elim (lookup (address, size) s.mappings) [
  | none ↦ (finished tt, record s { mappings = insert (address, size) (shared id 1) s.mappings })
  | some known ↦ elim known [
    | shared node count ↦ (
      finished tt,
      record s { mappings = insert (address, size) (shared node (count + 1)) s.mappings },
    )
    | private ↦ (failed os, s)
  ]
]

-- A shared mapping, of a range that was checked.
unfoldable pub map_shared : Host → ℕ → ℕ → ℕ → ℕ → Exec State ℕ
unfolding pin_node count_mapping update_node
map_shared host id start size limit = do
  base ← pin_node host id limit
  count_mapping (base + start) size id
  update_node id (λ n. record n { maps = n.maps + 1 })
  give (base + start)

-- The copy of a private mapping, in new pages.
unfoldable pub copy_range : ℕ → ℕ → ℕ → ℕ → Content → State → State
copy_range base pages offset size c s = record s {
  memory = poke (blank s.memory base pages) base (read_content s.memory c offset size);
  mappings = insert (base, size) private s.mappings;
}

unfoldable pub map_private : Host → ℕ → ℕ → ℕ → Exec State ℕ
unfolding copy_range
map_private host id offset size = do
  c ← view (content id)
  pages ← required (checked_pages size) out_of_memory
  base ← required (host.heap.pages pages) out_of_memory
  modify (copy_range base pages offset size c)
  give base

-- Whether a range starts on a page and ends inside the pages of the file.
abbrev pub in_pages : ℕ → ℕ → ℕ → Bool
in_pages offset size limit =
    offset % page == 0
    && (not (size == 0) && (leb (offset + size) usize_max && leb (offset + size) limit))

-- `Mappings::map`
unfoldable pub map_file : Host → ℕ → ℕ → ℕ → ℕ → Bool → Exec State ℕ
unfolding file_node map_shared map_private
map_file host handle offset size wanted sharing = do
  id ← file_node handle read_flag
  when (sharing && has wanted writable) (file_node handle write_flag >> give tt)
  refuse_if (has wanted execute) unsupported
  c ← view (content id)
  limit ← required (checked_pages (content_len c)) invalid_argument
  refuse_if (not (in_pages offset size limit)) invalid_argument
  if sharing then map_shared host id offset size limit else map_private host id offset size

-- The record that is left of a shared mapping.
unfoldable pub uncount : ℕ × ℕ → ℕ → ℕ → State → State
uncount key id count s = record s {
  mappings =
      if count - 1 == 0
      then remove key s.mappings
      else insert key (shared id (count - 1)) s.mappings;
}

-- `Mappings::unmap`
unfoldable pub unmap : ℕ → ℕ → Exec State (Unit {0})
unfolding update_node reap uncount
unmap address size s = elim (lookup (address, size) s.mappings) [
  | none ↦ (failed invalid_argument, s)
  | some known ↦ elim known [
    | private ↦ (finished tt, record s { mappings = remove (address, size) s.mappings })
    | shared id count ↦
        (do
          modify (uncount (address, size) id count)
          update_node id (λ n. record n { maps = n.maps - 1 })
          modify (reap id))
          s
  ]
]

-- `Mappings::sync`
unfoldable pub sync : ℕ → ℕ → State → Outcome (Unit {0})
sync address size s =
    if contains (address, size) s.mappings then finished tt else failed invalid_argument

-- `Volumes::entry`, with the text that fits the buffer.
unfoldable pub volume_entry : ℕ → ℕ → Outcome (ℕ × Option (List ℕ))
volume_entry index capacity =
    if not (index == 0)
    then failed not_found
    else finished (2, if leb 2 capacity then some (b'/' ∷ 0 ∷ []) else none)

-- `volumes::Status` with its numbers, as `Status::new` makes them consistent.
pub record VolumeStatus : Type 0 where
  pub total : ℕ
  pub free : ℕ
  pub available : ℕ

unfoldable pub new_status : ℕ → ℕ → ℕ → VolumeStatus
new_status total free available =
    let free' = min free total in
    record { total = total; free = free'; available = min available free' }

-- `Volumes::status`
unfoldable pub volume_status : List ℕ → State → Outcome VolumeStatus
unfolding new_status
volume_status path s = elim (walk path follow s) [
  | failed e ↦ failed e
  | endless ↦ endless
  | finished place ↦ elim place.node [
    | none ↦ failed not_found
    | some _ ↦
        let free = s.capacity - s.used in finished (new_status (max s.capacity s.used) free free)
  ]
]

-- `set_capacity`
unfoldable pub set_capacity : ℕ → State → State
set_capacity bytes s = record s { capacity = bytes }
