-- ===== src/MemFs/State.antt =====
-- The data of crates/dotnet-pal-memfs/src/lib.rs: nodes, watchers, mappings, handles and the state that
-- the lock guards, with the lookups in it.
use dotnet_pal_rs.Common.{ℕ, ◌+◌, ◌*◌, ◌==◌, if◌then◌else◌, Bool, none, some, List, [], ◌∷◌}
use dotnet_pal_rs.Port.{invalid_argument, not_directory, not_found, is_directory}
use dotnet_pal_rs.MemFs.Exec.{Outcome, finished, failed}
use dotnet_pal_rs.MemFs.Maps.{lookup, contains, nat_key}
use dotnet_pal_rs.MemFs.Locks.{Lock}
use dotnet_pal_rs.MemFs.Queue.{Queue}
use dotnet_pal_rs.MemFs.Content.{Heap, Content}

-- `Entries`
abbrev pub Entries : Type 0
Entries = List (List ℕ × ℕ)

-- `Body`
pub data Body : Type 0 where
  file : Content → Body
  directory : ℕ → Entries → Body
  link : List ℕ → Body

-- `Node`
pub record Node : Type 0 where
  pub mode : ℕ
  pub created : ℕ
  pub accessed : ℕ
  pub modified : ℕ
  pub changed : ℕ
  pub links : ℕ
  pub opens : ℕ
  pub maps : ℕ
  pub locks : List Lock
  pub body : Body

-- `Watch`
pub record Watch : Type 0 where
  pub id : ℕ
  pub node : ℕ
  pub events : ℕ

-- `Watcher`
pub record Watcher : Type 0 where
  pub queue : Queue
  pub watches : List Watch
  pub last : ℕ

-- `Mapped`
pub data Mapped : Type 0 where
  shared : ℕ → ℕ → Mapped
  private : Mapped

-- `Handle`
pub data Handle : Type 0 where
  file : ℕ → ℕ → Handle
  directory : List ℕ → ℕ → Handle
  watcher : ℕ → Handle

-- `State`, with the memory that mappings point into, and the box behind the address of each handle.
-- Handles are trusted: what stands behind an address that is no handle is whatever the function says.
pub record State : Type 0 where
  pub nodes : List (ℕ × Node)
  pub next_id : ℕ
  pub used : ℕ
  pub capacity : ℕ
  pub working : ℕ
  pub watchers : List (ℕ × Watcher)
  pub next_watcher : ℕ
  pub cookie : ℕ
  pub mappings : List ((ℕ × ℕ) × Mapped)
  pub memory : ℕ → ℕ
  pub handles : ℕ → Handle

-- What a call is given from outside: the allocator's answers, the clock's reading, and the address of the
-- box that it may make.
pub record Host : Type 0 where
  pub heap : Heap
  pub now : ℕ
  pub box : ℕ

-- `ROOT`, `DEFAULT_CAPACITY`, `MODE_MASK`, `PAGE`
abbrev pub root : ℕ
root = 1

abbrev pub default_capacity : ℕ
default_capacity = 64 * 1024 * 1024

abbrev pub mode_mask : ℕ
mode_mask = 0o7777

abbrev pub page : ℕ
page = 4096

-- `SHARED`, with the root that the first `acquire` makes.
abbrev pub initial : (ℕ → ℕ) → (ℕ → Handle) → State
initial memory handles = record {
  nodes =
      (
        root,
        record {
          mode = 0o777;
          created = 0;
          accessed = 0;
          modified = 0;
          changed = 0;
          links = 1;
          opens = 0;
          maps = 0;
          locks = [];
          body = Body.directory root [];
        },
      )
      ∷ [];
  next_id = root + 1;
  used = 0;
  capacity = default_capacity;
  working = root;
  watchers = [];
  next_watcher = 1;
  cookie = 0;
  mappings = [];
  memory = memory;
  handles = handles;
}

-- `State::node`
unfoldable pub node : ℕ → State → Outcome Node
node id s = elim (lookup id s.nodes) [ none ↦ failed invalid_argument | some n ↦ finished n ]

-- `NODE_FILE`, `NODE_DIRECTORY` and `NODE_SYMLINK`
abbrev pub kind_of : Body → ℕ
kind_of (Body.file _) = 1
kind_of (Body.directory _ _) = 2
kind_of (link _) = 3

-- `State::kind`
unfoldable pub kind : ℕ → State → Outcome ℕ
kind id s = elim (lookup id s.nodes) [
  | none ↦ failed invalid_argument
  | some n ↦ finished (kind_of n.body)
]

-- `State::is_directory`
unfoldable pub is_directory_at : ℕ → State → Outcome Bool
is_directory_at id s = elim (lookup id s.nodes) [
  | none ↦ failed invalid_argument
  | some n ↦ finished (kind_of n.body == 2)
]

abbrev pub entries_of : Body → Outcome Entries
entries_of (Body.directory _ entries) = finished entries
entries_of _ = failed not_directory

-- `State::entries`
unfoldable pub entries : ℕ → State → Outcome Entries
entries id s = elim (lookup id s.nodes) [
  | none ↦ failed invalid_argument
  | some n ↦ entries_of n.body
]

abbrev pub parent_of : Body → Outcome ℕ
parent_of (Body.directory parent _) = finished parent
parent_of _ = failed not_directory

-- `State::parent`
unfoldable pub parent : ℕ → State → Outcome ℕ
parent id s = elim (lookup id s.nodes) [
  | none ↦ failed invalid_argument
  | some n ↦ parent_of n.body
]

-- `State::working`
unfoldable pub working : State → Outcome ℕ
working s = if contains s.working s.nodes then finished s.working else failed not_found

abbrev pub content_of : Body → Outcome Content
content_of (Body.file content) = finished content
content_of _ = failed is_directory

-- `State::content`
unfoldable pub content : ℕ → State → Outcome Content
content id s = elim (lookup id s.nodes) [
  | none ↦ failed invalid_argument
  | some n ↦ content_of n.body
]

-- `State::watcher`
unfoldable pub watcher_at : ℕ → State → Outcome Watcher
watcher_at id s = elim (lookup id s.watchers) [
  | none ↦ failed invalid_argument
  | some w ↦ finished w
]
