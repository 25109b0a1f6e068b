-- ===== src/MemFs/Walk.antt =====
-- Paths: `Name`, `Place`, `Last`, `Pending` and the walks of `State` in
-- crates/dotnet-pal-memfs/src/lib.rs.
pub mod Components
pub mod Termination
use dotnet_pal_rs.Common.{
  ℕ, zero, suc, ◌+◌, ◌-◌, max, ltb, leb, ◌==◌, if◌then◌else◌, Bool, true, false, not, ◌&&◌, ◌||◌,
  Option, none, some, List, [], ◌∷◌, ◌++◌, length, take, drop, any, position,
}
use dotnet_pal_rs.Port.{Error, os, name_too_long, not_found, not_directory, already_exists}
use dotnet_pal_rs.MemFs.Exec.{
  Outcome, finished, failed, endless, Exec, ◌>>=◌, ◌>>◌, give, fail, view, read, refuse_if,
  required,
}
use dotnet_pal_rs.MemFs.Maps.{lookup, nat_key, name_key, name_eq}
use dotnet_pal_rs.MemFs.Queue.{max_entry_name}
use dotnet_pal_rs.MemFs.State.{
  State, Node, Body, Entries, link, root, entries, parent, working, is_directory_at,
}

-- `MAX_LINKS` and `MAX_NAME`
abbrev pub max_links : ℕ
max_links = 40

abbrev pub max_name : ℕ
max_name = 4095

-- `Place`
pub record Place : Type 0 where
  pub parent : ℕ
  pub name : List ℕ
  pub node : Option ℕ
  pub slash : Bool

-- `Last`
pub data Last : Type 0 where
  follow keep entry create : Last

abbrev pub is_slash : ℕ → Bool
is_slash b = b == b'/'

-- The position of the first byte that passes, or the length.
abbrev pub position_or_end : (ℕ → Bool) → List ℕ → ℕ
position_or_end p [] = 0
position_or_end p (b ∷ bs) = if p b then 0 else suc (position_or_end p bs)

-- `Pending`: the texts with the innermost first. The links that may still be entered are counted down
-- by the walk.
pub record Pending : Type 0 where
  pub texts : List (List ℕ)
  pub slash : Bool

-- `Pending::next`
unfoldable pub next : List (List ℕ) → Bool → Option (List ℕ) × Pending
next [] slash = (none, record { texts = []; slash = slash })
next (whole ∷ outer) slash =
    let start = position_or_end (λ b. not (is_slash b)) whole in
    let rest = drop start whole in
    let end = position_or_end is_slash rest in
    let popped = next outer (slash || not (start == 0)) in
    elim rest as (λ _. Option (List ℕ) × Pending) [
      | [] ↦ popped
      | _ ∷ _ ↦ (some (take end rest), record { texts = drop end rest ∷ outer; slash = false })
    ]

-- `left.next().is_some()` and `left.any(|byte| *byte != b'/')`
abbrev pub any_left : (ℕ → Bool) → List (List ℕ) → Bool
any_left p texts = any (any p) texts

-- `Pending::follows`
unfoldable pub follows : Last → List (List ℕ) → Bool
follows follow texts = true
follows keep texts = any_left (λ _. true) texts
follows entry texts = any_left (λ b. not (is_slash b)) texts
follows create texts = any_left (λ b. not (is_slash b)) texts

abbrev pub starts_with_slash : List ℕ → Bool
starts_with_slash [] = false
starts_with_slash (b ∷ bs) = is_slash b

-- What stands under a name.
abbrev pub link_target : Option ℕ → State → Option (List ℕ)
link_target none s = none
link_target (some id) s = elim (lookup id s.nodes) [
  | none ↦ none
  | some n ↦ elim n.body [ link target ↦ some target | _ ↦ none ]
]

-- A name that was found: its directory is the walk's, and there may be a node under it.
abbrev pub Found : Type 0
Found = Option (List ℕ × Option ℕ)

abbrev pub is_create : Last → Bool
is_create create = true
is_create _ = false

-- What the walk answers when no component is left.
unfoldable pub arrive : State → Last → ℕ → Bool → Found → Outcome Place
unfolding is_directory_at
arrive s last here slash none =
    finished (record { parent = here; name = []; node = some here; slash = slash })
arrive s last here slash (some (name, none)) =
    finished (record { parent = here; name = name; node = none; slash = slash })
arrive s last here slash (some (name, some id)) =
    let place : Outcome Place =
      finished (record { parent = here; name = name; node = some id; slash = slash }) in
    if slash && not (is_create last)
    then (elim (is_directory_at id s) [
      | finished true ↦ place
      | finished false ↦ failed not_directory
      | failed e ↦ failed e
      | endless ↦ endless
    ])
    else place

-- Where the next component resolves: inside what was found.
abbrev pub inside : ℕ → Found → Outcome ℕ
inside here none = finished here
inside here (some (_, none)) = failed not_found
inside here (some (_, some id)) = finished id

-- The arms of the `match` on a component.
pub data Component : Type 0 where
  dot dot_dot too_long named : Component

unfoldable pub component : List ℕ → Component
component name =
    if name_eq name (b'.' ∷ [])
    then dot
    else if name_eq name (b'.' ∷ b'.' ∷ [])
    then dot_dot
    else if ltb max_entry_name (length name)
    then too_long
    else named

-- Where a walk is: its directory, what is pending, and what it found last.
pub record Walker : Type 0 where
  pub here : ℕ
  pub texts : List (List ℕ)
  pub slash : Bool
  pub found : Found

-- What one round of the loop decides: the answer, the next round, or the next round inside a link.
pub data Turn : Type 0 where
  answer : Outcome Place → Turn
  onward : Walker → Turn
  entering : Walker → Turn

abbrev pub turn : {A : Type 0} → Outcome A → (A → Turn) → Turn
turn (finished a) next_turn = next_turn a
turn (failed e) next_turn = answer (failed e)
turn endless next_turn = answer endless

-- A name in a directory.
unfoldable pub named_turn : State → Last → ℕ → List ℕ → Pending → Entries → Turn
unfolding follows lookup
named_turn s last dir name left es =
    let id = lookup name es in
    let rest =
      onward
        (record { here = dir; texts = left.texts; slash = left.slash; found = some (name, id) }) in
    elim (link_target id s) [
      | none ↦ rest
      | some target ↦
          if follows last left.texts
          then entering (record {
            here = if starts_with_slash target then root else dir;
            texts = target ∷ left.texts;
            slash = left.slash;
            found = none;
          })
          else rest
    ]

abbrev pub stay : Pending → ℕ → Turn
stay left dir = onward (record { here = dir; texts = left.texts; slash = left.slash; found = none })

-- The body of the loop, at a component.
unfoldable pub component_turn : State → Last → List ℕ → Pending → ℕ → Turn
unfolding component named_turn entries parent
component_turn s last name left dir = elim (component name) [
  | dot ↦ turn (entries dir s) (λ _. stay left dir)
  | dot_dot ↦ turn (parent dir s) (stay left)
  | too_long ↦ answer (failed name_too_long)
  | named ↦ turn (entries dir s) (named_turn s last dir name left)
]

-- A round of the loop.
unfoldable pub round : State → Last → Walker → Turn
unfolding next component_turn arrive
round s last w =
    let (name, left) = next w.texts w.slash in
    elim name [
      | none ↦ answer (arrive s last w.here left.slash w.found)
      | some name ↦ turn (inside w.here w.found) (component_turn s last name left)
    ]

-- The bytes that a walk has before it, which every round takes from.
abbrev pub weight : List (List ℕ) → ℕ
weight [] = 0
weight (text ∷ texts) = length text + weight texts

-- The loop of `walk`, for so many links that may still be entered and with fuel for the rounds up to the
-- next one. `enter` gives up where no link may be entered.
unfoldable pub walk_loop : State → Last → ℕ → ℕ → Walker → Outcome Place
unfolding round
walk_loop s last links zero w = endless
walk_loop s last zero (suc fuel) w = elim (round s last w) [
  | answer place ↦ place
  | onward w' ↦ walk_loop s last zero fuel w'
  | entering w' ↦ failed os
]
walk_loop s last (suc links) (suc fuel) w = elim (round s last w) [
  | answer place ↦ place
  | onward w' ↦ walk_loop s last (suc links) fuel w'
  | entering w' ↦ walk_loop s last links (suc (weight w'.texts)) w'
]

unfoldable pub walk_from : State → List ℕ → Last → ℕ → Outcome Place
unfolding walk_loop
walk_from s path last here =
    walk_loop s last max_links (suc (length path))
      (record { here = here; texts = path ∷ []; slash = false; found = none })

-- `State::walk`
unfoldable pub walk : List ℕ → Last → State → Outcome Place
unfolding walk_from working
walk path last s =
    if starts_with_slash path then walk_from s path last root else (elim (working s) [
      | finished here ↦ walk_from s path last here
      | failed e ↦ failed e
      | endless ↦ endless
    ])

-- `State::vacant`
unfoldable pub vacant : List ℕ → State → Outcome Place
unfolding walk
vacant path s = elim (walk path create s) [
  | failed e ↦ failed e
  | endless ↦ endless
  | finished place ↦ elim place.node [
    | some _ ↦ failed already_exists
    | none ↦ if place.slash then failed not_found else finished place
  ]
]
