-- ===== src/Boundary/FilesTests.antt =====
-- Runs of the front ends of files over a small provider, and the theorems on them.
use dotnet_pal_rs.Common.{
  ℕ, ◌+◌, ◌-◌, ◌<◌, ◌≡◌, refl, ◌==◌, if◌then◌else◌, arith, ◌≤◌, sym, ◌∙◌, Bool-cases, inl, inr,
}
use dotnet_pal_rs.Port.{Result, ok, err, not_found, unsupported}
use dotnet_pal_rs.Boundary.Text.{Surroundings, Provided}
use dotnet_pal_rs.Boundary.Geometry.{aligned_output}
use dotnet_pal_rs.Common.Words.{usize_max, isize_max}
use dotnet_pal_rs.Boundary.Memory.{Memory}
use dotnet_pal_rs.Boundary.Mappings.{Mappings, map_file}
use dotnet_pal_rs.Boundary.Mappings.Checks.{map_file_checked}
use dotnet_pal_rs.Boundary.Files.{Front, Files, default_status}
use dotnet_pal_rs.Boundary.Files.Calls.{write_at}
use dotnet_pal_rs.Boundary.Files.Calls.Checks.{write_at_checked}
use dotnet_pal_rs.Boundary.Files.Listing.{directory_read}
use dotnet_pal_rs.Boundary.Files.Listing.Checks.{IsListed, directory_read_lem}

abbrev no_such : {A : Type 0} → Provided ℕ A
no_such s = (err unsupported, s)

-- Lists as many entries `a` as its state says.
abbrev list_one : ℕ → Provided ℕ (ℕ × ℕ)
list_one name s = if s.world == 0 then (err not_found, s) else (
  ok (1, 1),
  record { world = s.world - 1; memory = λ i. if i == name then b'a' else s.memory i },
)

abbrev small : Files ℕ
small = record {
  open_file = λ name flags mode. no_such;
  close = λ file. no_such;
  read_at = λ file offset address capacity. no_such;
  write_at = λ file offset address size s. (ok 2, s);
  set_size = λ file size. no_such;
  flush = λ file. no_such;
  status = λ file. no_such;
  path_status = λ name follow. no_such;
  remove = λ name. no_such;
  rename = λ from to. no_such;
  create_directory = λ name mode. no_such;
  remove_directory = λ name. no_such;
  open_directory = λ name. no_such;
  read_directory = λ directory name capacity. list_one name;
  close_directory = λ directory. no_such;
  current_directory = λ out capacity. no_such;
  set_mode = λ name mode. no_such;
  set_file_mode = λ file mode. no_such;
  set_times = λ name follow accessed modified. no_such;
  set_file_times = λ file accessed modified. no_such;
  link = λ existing created. no_such;
  symlink = λ target created. no_such;
  read_link = λ name out capacity. no_such;
  real_path = λ name out capacity. no_such;
  set_current_directory = λ name. no_such;
  lock = λ file mode wait. no_such;
  lock_range = λ file offset length mode. no_such;
}

abbrev front : Front ℕ
front = record {
  provided = record { world = 3; memory = λ _. 1 };
  outputs = λ _. 0;
  descriptions = λ _. default_status;
  counters = λ _. 0;
}

list_one_shorter :
    (s : Surroundings ℕ) (listed : ℕ × ℕ)
    → (list_one 4096 s).0 ≡ ok listed
    → (list_one 4096 s).1.world < s.world
list_one_shorter s listed e = elim (Bool-cases (s.world == 0)) [
  | inl end ↦
      let now : ◌≡◌ {A = Result (ℕ × ℕ)} (err not_found) (ok listed) =
        sym (rw (end, list_one)) ∙ e in
      cc
  | inr more ↦ rw (more, list_one) (ground (arith, more))
]

write_at_checked_example :
    let done = (write_at small 8 0 4096 5 64 front).1.outputs 64 in (done ≤ 5) × (0 < 5 → 0 < done)
unfolding write_at aligned_output
write_at_checked_example = write_at_checked small 8 0 4096 5 64 front refl

directory_read_lem_example : IsListed 4096 64 128 (directory_read small 4 8 4096 300 64 128 front)
directory_read_lem_example =
    directory_read_lem small 8 4096 300 64 128 (omega arith) (λ w. w) list_one_shorter 4 front
      (omega arith)

-- Maps every file at one address.
abbrev one_place : Mappings ℕ
one_place = record {
  map = λ file offset size access sharing w. (ok 4096, w);
  unmap = λ address size w. (ok tt, w);
  sync = λ address size w. (ok tt, w);
}

abbrev memory : Memory ℕ
memory = record { world = 0; outputs = λ _. 1 }

map_file_checked_example :
    let address =
      (map_file one_place 8 0 100 1 1 64 memory (record { done = 0; failed = 0 })).1.outputs 64 in
    (0 < address) × (address + 100 ≤ usize_max) × (0 < 100) × (0 + 100 ≤ isize_max)
unfolding map_file aligned_output
map_file_checked_example =
    map_file_checked one_place 8 0 100 1 1 64 memory (record { done = 0; failed = 0 }) refl
