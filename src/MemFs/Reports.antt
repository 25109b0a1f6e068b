-- ===== src/MemFs/Reports.antt =====
-- What the watches hear: `State::report`, `report_entry` and `ended` of
-- crates/dotnet-pal-memfs/src/lib.rs.
use dotnet_pal_rs.Common.{
  ℕ, bit_and, bit_or, ◌==◌, if◌then◌else◌, Bool, true, not, ◌&&◌, Option, none, some, List, [], ◌∷◌,
  take,
}
use dotnet_pal_rs.MemFs.Maps.{lookup, nat_key}
use dotnet_pal_rs.MemFs.Queue.{Queue, push}
use dotnet_pal_rs.MemFs.State.{State, Node, Body, Entries, Watch, Watcher}

-- `watches::ACCESS` to `watches::DIRECTORY`
abbrev pub access : ℕ
access = 1

abbrev pub modified : ℕ
modified = 2

abbrev pub attributes : ℕ
attributes = 4

abbrev pub moved_from : ℕ
moved_from = 8

abbrev pub moved_to : ℕ
moved_to = 16

abbrev pub created : ℕ
created = 32

abbrev pub deleted : ℕ
deleted = 64

abbrev pub removed : ℕ
removed = 256

abbrev pub directory_mark : ℕ
directory_mark = 512

module _ {ℓ} {A : Type ℓ} where
  abbrev pub filter : (A → Bool) → List A → List A
  filter p [] = []
  filter p (x ∷ xs) = let rest = filter p xs in if p x then x ∷ rest else rest

  abbrev pub find : (A → Bool) → List A → Option A
  find p [] = none
  find p (x ∷ xs) = if p x then some x else find p xs

  -- Without the first entry that passes.
  abbrev pub without_first : (A → Bool) → List A → List A
  without_first p [] = []
  without_first p (x ∷ xs) = if p x then xs else x ∷ without_first p xs

-- `values_mut`
abbrev pub map_values {ℓ κ} : {K : Type ℓ} {V : Type κ} → (V → V) → List (K × V) → List (K × V)
map_values f [] = []
map_values f ((k, v) ∷ m) = (k, f v) ∷ map_values f m

-- The names under which entries hold a node.
abbrev pub names_of : ℕ → Entries → List (List ℕ)
names_of id [] = []
names_of id ((name, child) ∷ es) =
    let rest = names_of id es in if child == id then name ∷ rest else rest

module _ (grants : ℕ → Bool) where
  -- One event for each name.
  abbrev pub push_all : Queue → ℕ → ℕ → List (List ℕ) → Queue
  push_all q watch kinds [] = q
  push_all q watch kinds (name ∷ names) =
      push_all (push grants q watch kinds 0 name) watch kinds names

  -- What the watch of a directory hears of a node that may have names there.
  unfoldable pub tell_holder : State → ℕ → ℕ → ℕ → Queue → Watch → Queue
  tell_holder s id links kinds q watch = elim (lookup watch.node s.nodes) [
    | none ↦ q
    | some n ↦ elim n.body [
      | Body.directory _ entries ↦ push_all q watch.id kinds (take links (names_of id entries))
      | _ ↦ q
    ]
  ]

  unfoldable pub tell_holders : State → ℕ → ℕ → ℕ → Queue → List Watch → Queue
  unfolding tell_holder
  tell_holders s id links kinds q [] = q
  tell_holders s id links kinds q (watch ∷ watches) =
      tell_holders s id links kinds (tell_holder s id links kinds q watch) watches

  -- The watches that want to hear of a node's event as its holders.
  unfoldable pub is_holder : ℕ → ℕ → Option ℕ → Watch → Bool
  is_holder id kinds holder watch =
      not (bit_and watch.events kinds == 0)
      && (not (watch.node == id) && elim holder [ none ↦ true | some dir ↦ dir == watch.node ])

  unfoldable pub hears : ℕ → ℕ → Watch → Bool
  hears id kinds watch = watch.node == id && not (bit_and watch.events kinds == 0)

  -- The body of the loop of `report`.
  unfoldable pub report_to : State → ℕ → Node → ℕ → Watcher → Watcher
  unfolding tell_holders is_holder hears
  report_to s id n kinds w =
      let marked : ℕ = elim n.body [
        | Body.directory _ _ ↦ bit_or kinds directory_mark
        | _ ↦ kinds
      ] in
      let holder : Option ℕ = elim n.body [ Body.directory above _ ↦ some above | _ ↦ none ] in
      let q =
        tell_holders s id n.links marked w.queue (filter (is_holder id kinds holder) w.watches) in
      record w {
        queue = elim (find (hears id kinds) w.watches) [
          | none ↦ q
          | some own ↦ push grants q own.id marked 0 []
        ];
      }

  -- `State::report`
  unfoldable pub report : ℕ → ℕ → State → State
  unfolding report_to
  report id kinds s = elim (lookup id s.nodes) [
    | none ↦ s
    | some n ↦ record s { watchers = map_values (report_to s id n kinds) s.watchers }
  ]

  abbrev pub tell : ℕ → ℕ → List ℕ → Watcher → Option Watch → Watcher
  tell kinds cookie name w none = w
  tell kinds cookie name w (some watch) = record w {
    queue = push grants w.queue watch.id kinds cookie name;
  }

  -- `State::report_entry`
  unfoldable pub report_entry : ℕ → List ℕ → ℕ → ℕ → State → State
  unfolding hears
  report_entry dir name kinds cookie s = record s {
    watchers =
        map_values (λ (w : Watcher). tell kinds cookie name w (find (hears dir kinds) w.watches))
          s.watchers;
  }

  abbrev pub end_watch : ℕ → Watcher → Option Watch → Watcher
  end_watch id w none = w
  end_watch id w (some watch) = record w {
    queue = push grants w.queue watch.id removed 0 [];
    watches = without_first (λ known. known.node == id) w.watches;
  }

  -- `State::ended`
  unfoldable pub ended : ℕ → State → State
  ended id s = record s {
    watchers =
        map_values (λ (w : Watcher). end_watch id w (find (λ known. known.node == id) w.watches))
          s.watchers;
  }
