-- ===== src/MemFs/Walk/Termination.antt =====
-- The loop of `walk` in crates/dotnet-pal-memfs/src/lib.rs takes bytes from its texts in each round.
use dotnet_pal_rs.Common.{
  ℕ, zero, suc, ◌<◌, ◌≢◌, Bool, false, not, ◌&&◌, Option, none, some, List, [], ◌∷◌, length, arith,
  Option-cases, Bool-cases, inl, inr, ◌==◌,
}
use mathlib.Core.Path.{subst}
use dotnet_pal_rs.MemFs.Exec.{Outcome, finished, failed, endless}
use dotnet_pal_rs.Port.{name_too_long}
use dotnet_pal_rs.MemFs.Maps.{lookup, contains, nat_key, name_key}
use dotnet_pal_rs.MemFs.State.{
  State, Entries, entries, entries_of, parent, parent_of, working, is_directory_at, root, Body,
  kind_of,
}
use dotnet_pal_rs.MemFs.Walk.{
  Place, Last, Pending, Found, Walker, Turn, answer, onward, entering, turn, next, follows,
  link_target, arrive, is_create, inside, Component, component, dot, dot_dot, too_long, named,
  named_turn, stay, component_turn, round, weight, walk_loop, walk_from, walk, max_links,
  starts_with_slash,
}
use dotnet_pal_rs.MemFs.Walk.Components.{TakesBytes, next_lem}

-- An outcome that a call comes back with.
abbrev pub IsReturned : {A : Type 0} → Outcome A → Type 0
IsReturned endless = ⊥
IsReturned (failed _) = Unit
IsReturned (finished _) = Unit

pub IsReturned-not_endless : {A : Type 0} (r : Outcome A) → IsReturned r → r ≢ endless
IsReturned-not_endless r h e = subst IsReturned e h

-- A round either answers, or goes on with less than `m` bytes, or enters a link.
abbrev IsProgress : ℕ → Turn → Type 0
IsProgress m (answer place) = IsReturned place
IsProgress m (onward w) = weight w.texts < m
IsProgress m (entering w) = Unit

entries_of-IsReturned : (body : Body) → IsReturned (entries_of body)
entries_of-IsReturned (Body.file content) = tt
entries_of-IsReturned (Body.directory above es) = tt
entries_of-IsReturned (Body.link target) = tt

parent_of-IsReturned : (body : Body) → IsReturned (parent_of body)
parent_of-IsReturned (Body.file content) = tt
parent_of-IsReturned (Body.directory above es) = tt
parent_of-IsReturned (Body.link target) = tt

entries-IsReturned : (id : ℕ) (s : State) → IsReturned (entries id s)
unfolding entries
entries-IsReturned id s = elim (Option-cases (lookup id s.nodes)) [
  | inl missing ↦ rw (missing, entries) tt
  | inr (n, e) ↦ rw (e, entries) (entries_of-IsReturned n.body)
]

parent-IsReturned : (id : ℕ) (s : State) → IsReturned (parent id s)
unfolding parent
parent-IsReturned id s = elim (Option-cases (lookup id s.nodes)) [
  | inl missing ↦ rw (missing, parent) tt
  | inr (n, e) ↦ rw (e, parent) (parent_of-IsReturned n.body)
]

arrive-IsReturned :
    (s : State) (last : Last) (here : ℕ) (slash : Bool) (found : Found)
    → IsReturned (arrive s last here slash found)
unfolding arrive is_directory_at
arrive-IsReturned s last here slash none = tt
arrive-IsReturned s last here slash (some (name, none)) = tt
arrive-IsReturned s last here slash (some (name, some id)) =
    elim (Bool-cases (slash && not (is_create last))) [
      | inr plain ↦ rw (plain, arrive) tt
      | inl asked ↦ elim (Option-cases (lookup id s.nodes)) [
        | inl missing ↦ rw (asked, missing, arrive, is_directory_at) tt
        | inr (n, e) ↦ elim (Bool-cases (kind_of n.body == 2)) [
          | inl dir ↦ rw (asked, e, arrive, is_directory_at, dir) tt
          | inr other ↦ rw (asked, e, arrive, is_directory_at, other) tt
        ]
      ]
    ]

inside-IsReturned : (here : ℕ) (found : Found) → IsReturned (inside here found)
inside-IsReturned here none = tt
inside-IsReturned here (some (name, none)) = tt
inside-IsReturned here (some (name, some id)) = tt

turn-IsProgress :
    {A : Type 0} (m : ℕ) (r : Outcome A) (then_turn : A → Turn)
    → IsReturned r
    → ((a : A) → IsProgress m (then_turn a))
    → IsProgress m (turn r then_turn)
turn-IsProgress m endless f h k = absurd h
turn-IsProgress m (failed e) f h k = tt
turn-IsProgress m (finished a) f h k = k a

named_turn-IsProgress :
    (s : State) (last : Last) (dir : ℕ) (name : List ℕ) (left : Pending) (es : Entries) (m : ℕ)
    → weight left.texts < m
    → IsProgress m (named_turn s last dir name left es)
unfolding named_turn
named_turn-IsProgress s last dir name left es m less =
    elim (Option-cases (link_target (lookup name es) s)) [
      | inl none_there ↦ rw (none_there, named_turn) less
      | inr (target, e) ↦ elim (Bool-cases (follows last left.texts)) [
        | inl entered ↦ rw (e, entered, named_turn) tt
        | inr kept ↦ rw (e, kept, named_turn) less
      ]
    ]

component_turn-IsProgress :
    (s : State) (last : Last) (name : List ℕ) (left : Pending) (dir m : ℕ)
    → weight left.texts < m
    → IsProgress m (component_turn s last name left dir)
unfolding component_turn
component_turn-IsProgress s last name left dir m less = at (component name)
  where
    at :
        (c : Component)
        → IsProgress m (elim c [
          | dot ↦ turn (entries dir s) (λ _. stay left dir)
          | dot_dot ↦ turn (parent dir s) (stay left)
          | too_long ↦ answer (failed name_too_long)
          | named ↦ turn (entries dir s) (named_turn s last dir name left)
        ])
    at dot = turn-IsProgress m _ _ (entries-IsReturned dir s) (λ _. less)
    at dot_dot = turn-IsProgress m _ _ (parent-IsReturned dir s) (λ _. less)
    at too_long = tt
    at named =
        turn-IsProgress m _ _ (entries-IsReturned dir s)
          (λ es. named_turn-IsProgress s last dir name left es m less)

round-IsProgress :
    (s : State) (last : Last) (w : Walker) → IsProgress (weight w.texts) (round s last w)
unfolding round
round-IsProgress s last w = at (next w.texts w.slash) (next_lem w.texts w.slash)
  where
    at :
        (r : Option (List ℕ) × Pending)
        → TakesBytes (weight w.texts) r
        → IsProgress (weight w.texts) (elim r.0 [
          | none ↦ answer (arrive s last w.here r.1.slash w.found)
          | some name ↦ turn (inside w.here w.found) (component_turn s last name r.1)
        ])
    at (none, left) h = arrive-IsReturned s last w.here left.slash w.found
    at (some name, left) h =
        turn-IsProgress (weight w.texts) _ _ (inside-IsReturned w.here w.found)
          (λ dir. component_turn-IsProgress s last name left dir _ h)

turn-IsReturned :
    (m : ℕ) (t : Turn) (next_round next_link : Walker → Outcome Place)
    → IsProgress m t
    → ((w : Walker) → weight w.texts < m → IsReturned (next_round w))
    → ((w : Walker) → IsReturned (next_link w))
    → IsReturned
        (elim t [ answer place ↦ place | onward w ↦ next_round w | entering w ↦ next_link w ])
turn-IsReturned m (answer place) f g h k l = h
turn-IsReturned m (onward w) f g h k l = k w h
turn-IsReturned m (entering w) f g h k l = l w

walk_loop-IsReturned :
    (s : State) (last : Last) (links fuel : ℕ) (w : Walker)
    → weight w.texts < fuel
    → IsReturned (walk_loop s last links fuel w)
unfolding walk_loop
walk_loop-IsReturned s last links zero w less = absurd (omega (arith, less))
walk_loop-IsReturned s last zero (suc fuel) w less =
    turn-IsReturned (weight w.texts) (round s last w) _ _ (round-IsProgress s last w)
      (λ w' h. walk_loop-IsReturned s last zero fuel w' (omega (arith, h, less))) (λ w'. tt)
walk_loop-IsReturned s last (suc links) (suc fuel) w less =
    turn-IsReturned (weight w.texts) (round s last w) _ _ (round-IsProgress s last w)
      (λ w' h. walk_loop-IsReturned s last (suc links) fuel w' (omega (arith, h, less)))
      (λ w'. walk_loop-IsReturned s last links (suc (weight w'.texts)) w' (omega arith))

walk_from-IsReturned :
    (s : State) (path : List ℕ) (last : Last) (here : ℕ) → IsReturned (walk_from s path last here)
unfolding walk_from
walk_from-IsReturned s path last here =
    walk_loop-IsReturned s last max_links (suc (length path))
      (record { here = here; texts = path ∷ []; slash = false; found = none }) (omega arith)

-- The walk of any path comes back with a place or an error, in any state of the tree, also where links lead
-- in circles.
pub walk_returns : (path : List ℕ) (last : Last) (s : State) → walk path last s ≢ endless
unfolding walk working
walk_returns path last s =
    IsReturned-not_endless (walk path last s) (elim (Bool-cases (starts_with_slash path)) [
      | inl rooted ↦ rw (rooted, walk) (walk_from-IsReturned s path last root)
      | inr relative ↦ elim (Bool-cases (contains s.working s.nodes)) [
        | inl there ↦
            rw (relative, there, walk, working) (walk_from-IsReturned s path last s.working)
        | inr gone ↦ rw (relative, gone, walk, working) tt
      ]
    ])
