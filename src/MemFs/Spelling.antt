-- ===== src/MemFs/Spelling.antt =====
-- The absolute path of a place: `climb` and `spell` of `State` in crates/dotnet-pal-memfs/src/lib.rs.
use dotnet_pal_rs.Common.{
  ℕ, zero, suc, ◌+◌, max, ltb, leb, ◌==◌, if◌then◌else◌, true, false, Option, none, some, List, [],
  ◌∷◌, ◌++◌, length,
}
use dotnet_pal_rs.Port.{Error, name_too_long, not_found}
use dotnet_pal_rs.MemFs.Exec.{Outcome, finished, failed, endless}
use dotnet_pal_rs.MemFs.Maps.{nat_key, name_key}
use dotnet_pal_rs.MemFs.State.{State, Entries, root, entries, parent}
use dotnet_pal_rs.MemFs.Exec.{and_then}
use dotnet_pal_rs.MemFs.Walk.{max_name}

-- The name of a node among entries.
abbrev pub name_of : ℕ → Entries → Option (List ℕ)
name_of id [] = none
name_of id ((name, child) ∷ es) = if child == id then some name else name_of id es

abbrev pub found_or : {A : Type 0} → Option A → Error → Outcome A
found_or none e = failed e
found_or (some a) e = finished a

-- The loop of `climb`, which gives the names in the order of the visits; on fuel.
unfoldable pub climb_loop : State → ℕ → ℕ → Outcome (List (List ℕ))
climb_loop s zero dir = endless
climb_loop s (suc fuel) dir = elim (dir == root) [
  | true ↦ finished []
  | false ↦ and_then (parent dir s) λ above. and_then (entries above s) λ es.
      and_then (found_or (name_of dir es) not_found)
        λ own. and_then (climb_loop s fuel above) λ names. finished (own ∷ names)
]

-- `State::climb`. A tree is no deeper than it has nodes.
unfoldable pub climb : ℕ → List ℕ → State → Outcome (List (List ℕ))
unfolding climb_loop
climb dir name s =
    and_then (climb_loop s (suc (length s.nodes)) dir)
      λ names. finished (elim name as (λ _. List (List ℕ)) [ [] ↦ names | _ ∷ _ ↦ name ∷ names ])

abbrev pub spelled_length : List (List ℕ) → ℕ
spelled_length [] = 0
spelled_length (part ∷ parts) = 1 + length part + spelled_length parts

-- The second climb of `spell`, which writes each part in front of what is written.
abbrev pub spelled : List (List ℕ) → List ℕ → List ℕ
spelled [] text = text
spelled (part ∷ parts) text = spelled parts (b'/' ∷ part ++ text)

-- `State::spell`: how many bytes the text needs, and the text if it fits the buffer.
unfoldable pub spell : ℕ → List ℕ → ℕ → State → Outcome (ℕ × Option (List ℕ))
unfolding climb
spell dir name capacity s = and_then (climb dir name s) λ parts.
    let needed = max (spelled_length parts) 1 + 1 in
    if ltb (max_name + 1) needed
    then failed name_too_long
    else finished (
      needed,
      if leb needed capacity
          then some
              (elim parts as (λ _. List ℕ) [ [] ↦ b'/' ∷ 0 ∷ [] | _ ∷ _ ↦ spelled parts (0 ∷ []) ])
          else none,
    )
