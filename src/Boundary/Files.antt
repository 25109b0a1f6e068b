-- ===== src/Boundary/Files.antt =====
-- src/files.rs: the front ends of files. Calls are checked, passed to the provider, whose answer is checked,
-- and counted.
pub mod Calls
pub mod Paths
pub mod Listing
use dotnet_pal_rs.Common.{
  ℕ, zero, suc, ◌+◌, ◌-◌, bit_and, leb, ltb, ◌==◌, if◌then◌else◌, Bool, true, false, not, ◌&&◌,
  ◌||◌, Option, none, some, List, [], ◌∷◌, any,
}
use dotnet_pal_rs.Common.Words.{usize_max, isize_max}
use dotnet_pal_rs.Port.{Result, ok, err, ok_status, error_status}
use dotnet_pal_rs.Port as Port
use dotnet_pal_rs.Boundary.Memory.{
  os_error_status, invalid_argument_status, increment, write, pointer_size,
}
use dotnet_pal_rs.Boundary.Text.{Surroundings, Provided, path}

-- `READ` to `TRUNCATE`, `MODE_MASK`, `NODE_FILE` and `NODE_OTHER`, `TIME_KEEP`, `LOCK_SHARED` and
-- `LOCK_UNLOCK`
abbrev pub read_flag : ℕ
read_flag = 1

abbrev pub write_flag : ℕ
write_flag = 2

abbrev pub create_flag : ℕ
create_flag = 4

abbrev pub exclusive_flag : ℕ
exclusive_flag = 8

abbrev pub truncate_flag : ℕ
truncate_flag = 16

abbrev pub mode_mask : ℕ
mode_mask = 0o7777

abbrev pub node_file : ℕ
node_file = 1

abbrev pub node_other : ℕ
node_other = 4

abbrev pub time_keep : ℕ
time_keep = usize_max

abbrev pub lock_shared : ℕ
lock_shared = 1

abbrev pub lock_unlock : ℕ
lock_unlock = 3

abbrev pub would_block_status : ℕ
would_block_status = 15

-- `files::Status`
pub record Status : Type 0 where
  pub kind : ℕ
  pub mode : ℕ
  pub size : ℕ
  pub modified_ns : ℕ
  pub accessed_ns : ℕ
  pub changed_ns : ℕ
  pub created_ns : ℕ
  pub identity : ℕ
  pub device : ℕ

-- `Status::default`
abbrev pub default_status : Status
default_status = record {
  kind = 0;
  mode = 0;
  size = 0;
  modified_ns = 0;
  accessed_ns = 0;
  changed_ns = 0;
  created_ns = 0;
  identity = 0;
  device = 0;
}

-- Whether a word has no bits beyond those of a mask `2 ^ n - 1`.
abbrev pub within : ℕ → ℕ → Bool
within mask word = leb word mask

-- `Status::consistent`
unfoldable pub consistent : Status → Bool
consistent s = (leb node_file s.kind && leb s.kind node_other) && within mode_mask s.mode

-- `valid_open`
unfoldable pub valid_open : ℕ → Bool
valid_open flags =
    within 31 flags
    && (not (bit_and flags 3 == 0)
        && ((bit_and flags exclusive_flag == 0 || not (bit_and flags create_flag == 0))
            && (bit_and flags truncate_flag == 0 || not (bit_and flags write_flag == 0))))

-- What a call sees: the provider with the bytes of the buffers, the words and the descriptions behind the
-- addresses for output, and the counters.
pub record Front (W : Type 0) : Type 0 where
  pub provided : Surroundings W
  pub outputs : ℕ → ℕ
  pub descriptions : ℕ → Status
  pub counters : ℕ → ℕ

-- `FAILED`, `ATTRIBUTE`, `LINK` and `LOCK`
abbrev pub failed_counter : ℕ
failed_counter = 10

abbrev pub attribute_counter : ℕ
attribute_counter = 11

abbrev pub link_counter : ℕ
link_counter = 12

abbrev pub lock_counter : ℕ
lock_counter = 13

-- The statuses that every call may answer: `OK` to `OUT_OF_MEMORY`, `BUSY`, `NOT_FOUND` and those of files.
abbrev pub shared_statuses : List ℕ
shared_statuses = 0 ∷ 1 ∷ 2 ∷ 3 ∷ 4 ∷ 6 ∷ 8 ∷ 9 ∷ 10 ∷ 11 ∷ 12 ∷ 13 ∷ 14 ∷ 27 ∷ 28 ∷ 29 ∷ 30 ∷ []

-- The `match` of `record`.
unfoldable pub shared : ℕ → ℕ
shared status = if any (λ s. s == status) shared_statuses then status else os_error_status

abbrev pub count : (ℕ → ℕ) → ℕ → ℕ → ℕ
count counters index i = if i == index then increment (counters i) else counters i

module _ {W : Type 0} where
  -- `record`
  unfoldable pub recorded : ℕ → ℕ → Front W → ℕ × Front W
  unfolding shared
  recorded status index f = (
    shared status,
    record f {
      counters = count f.counters (if shared status == ok_status then index else failed_counter);
    },
  )

  -- `return record(INVALID_ARGUMENT, index)`
  unfoldable pub refuse : ℕ → Front W → ℕ × Front W
  unfolding recorded
  refuse index = recorded invalid_argument_status index

  -- `out.write`
  unfoldable pub put : ℕ → ℕ → Front W → Front W
  put out value f = record f { outputs = write f.outputs out value }

  -- A call of the provider whose answer is no value: `record(port::status(call), index)`
  unfoldable pub pass : ℕ → Provided W (Unit {0}) → Front W → ℕ × Front W
  unfolding recorded
  pass index call f =
      let (r, s) = call f.provided in recorded (Port.status r) index (record f { provided = s })

-- `valid_buffer`
unfoldable pub valid_buffer : ℕ → ℕ → Bool
valid_buffer address size =
    leb size isize_max && (size == 0 || (not (address == 0) && leb (address + size) usize_max))

-- `times`
unfoldable pub time : ℕ → Option (Option ℕ)
time ns = if ns == time_keep then some none else if ltb isize_max ns then none else some (some ns)

unfoldable pub times : ℕ → ℕ → Option (Option ℕ × Option ℕ)
unfolding time
times accessed modified = elim (time accessed) [
  | none ↦ none
  | some a ↦ elim (time modified) [ none ↦ none | some m ↦ some (a, m) ]
]

-- `port::Files`: a provider with a state of its own, which reads and writes the buffers that it is given.
pub record Files (W : Type 0) : Type 0 where
  pub open_file : List ℕ → ℕ → ℕ → Provided W ℕ
  pub close : ℕ → Provided W (Unit {0})
  pub read_at : ℕ → ℕ → ℕ → ℕ → Provided W ℕ
  pub write_at : ℕ → ℕ → ℕ → ℕ → Provided W ℕ
  pub set_size : ℕ → ℕ → Provided W (Unit {0})
  pub flush : ℕ → Provided W (Unit {0})
  pub status : ℕ → Provided W Status
  pub path_status : List ℕ → Bool → Provided W Status
  pub remove : List ℕ → Provided W (Unit {0})
  pub rename : List ℕ → List ℕ → Provided W (Unit {0})
  pub create_directory : List ℕ → ℕ → Provided W (Unit {0})
  pub remove_directory : List ℕ → Provided W (Unit {0})
  pub open_directory : List ℕ → Provided W ℕ
  pub read_directory : ℕ → ℕ → ℕ → Provided W (ℕ × ℕ)
  pub close_directory : ℕ → Provided W (Unit {0})
  pub current_directory : ℕ → ℕ → Provided W ℕ
  pub set_mode : List ℕ → ℕ → Provided W (Unit {0})
  pub set_file_mode : ℕ → ℕ → Provided W (Unit {0})
  pub set_times : List ℕ → Bool → Option ℕ → Option ℕ → Provided W (Unit {0})
  pub set_file_times : ℕ → Option ℕ → Option ℕ → Provided W (Unit {0})
  pub link : List ℕ → List ℕ → Provided W (Unit {0})
  pub symlink : List ℕ → List ℕ → Provided W (Unit {0})
  pub read_link : List ℕ → ℕ → ℕ → Provided W ℕ
  pub real_path : List ℕ → ℕ → ℕ → Provided W ℕ
  pub set_current_directory : List ℕ → Provided W (Unit {0})
  pub lock : ℕ → ℕ → Bool → Provided W (Unit {0})
  pub lock_range : ℕ → ℕ → ℕ → ℕ → Provided W (Unit {0})
