-- ===== src/MemFs/Tree/Creation.antt =====
-- The names in the directories behind `State::create`.
use dotnet_pal_rs.Common.{
  ℕ, ◌+◌, ◌≡◌, ◌∙◌, refl, sym, bit_or, ◌==◌, ◌&&◌, if◌then◌else◌, Bool, true, false, Option, none,
  some, List, [], arith, Bool-cases, Option-cases, inl, inr,
}
use dotnet_pal_rs.MemFs.Exec.{Outcome, finished, failed, ◌>>◌, ◌>>=◌, read, view, modify, give}
use dotnet_pal_rs.MemFs.Maps.{lookup, insert, nat_key, name_key, name_eq, lookup-insert}
use dotnet_pal_rs.MemFs.State.{State, Node, Body, Entries, Host, is_directory_at, kind_of}
use dotnet_pal_rs.MemFs.Walk.{Place}
use dotnet_pal_rs.MemFs.Tree.{update_node, update_entries, touch, add_node, new_node, create}
use dotnet_pal_rs.Port.{invalid_argument}
use dotnet_pal_rs.MemFs.Accounting.{IsAccounted}
use dotnet_pal_rs.MemFs.Accounting.Nodes.{Body-cases}
use dotnet_pal_rs.MemFs.Reports.{report_entry, created, directory_mark}

abbrev pub entries_in : Option Node → Entries
entries_in none = []
entries_in (some n) = elim n.body [ Body.directory _ es ↦ es | _ ↦ [] ]

-- What stands under a name in a directory.
abbrev pub child : ℕ → List ℕ → State → Option ℕ
child dir name s = lookup name (entries_in (lookup dir s.nodes))

module _ (host : Host) (place : Place) (mode : ℕ) (body : Body) (s : State) (n : Node) (above : ℕ)
    (es : Entries) (e : lookup place.parent s.nodes ≡ some n) (b : n.body ≡ Body.directory above es)
    (fresh : lookup s.next_id s.nodes ≡ none) where
  entered : Node
  entered = record n { body = Body.directory above (insert place.name s.next_id es) }

  touched : Node
  touched = record entered { modified = host.now; changed = host.now }

  made : List (ℕ × Node)
  made = insert s.next_id (new_node mode body host.now) (insert place.parent entered s.nodes)

  other : (place.parent == s.next_id) ≡ false
  other = elim (Bool-cases (place.parent == s.next_id)) [
    | inl same ↦
        let here : place.parent ≡ s.next_id = ground (arith, same) in
        let now : ◌≡◌ {A = Option Node} (some n) none = sym (rw (← here) e) ∙ fresh in cc
    | inr differs ↦ differs
  ]

  lookup-made : lookup place.parent made ≡ some entered
  unfolding made
  lookup-made = ground (
    arith,
    other,
    lookup-insert s.next_id place.parent (new_node mode body host.now)
        (insert place.parent entered s.nodes),
    lookup-insert place.parent place.parent entered s.nodes,
  )

  with_entry : State
  with_entry = record s { nodes = insert place.parent entered s.nodes }

  with_node : State
  with_node = record with_entry { next_id = s.next_id + 1; nodes = made }

  with_times : State
  with_times = record with_node { nodes = insert place.parent touched made }

  enters : update_entries place.parent (insert place.name s.next_id) s ≡ (finished tt, with_entry)
  unfolding update_entries with_entry entered
  enters = simp (e, b, update_entries)

  adds : add_node (new_node mode body host.now) with_entry ≡ with_node
  unfolding add_node with_node with_entry made
  adds = refl

  touches : touch place.parent host.now with_node ≡ (finished tt, with_times)
  unfolding touch update_node with_times with_node touched
  touches = simp (lookup-made, touch, update_node)

  found_made : lookup s.next_id with_times.nodes ≡ some (new_node mode body host.now)
  unfolding with_times with_node made
  found_made = ground (
    arith,
    other,
    lookup-insert place.parent s.next_id touched made,
    lookup-insert s.next_id s.next_id (new_node mode body host.now)
        (insert place.parent entered s.nodes),
  )

  is_made : is_directory_at s.next_id with_times ≡ finished (kind_of body == 2)
  unfolding is_directory_at
  is_made = rw (found_made, is_directory_at) refl

  create_runs : create host place mode body s ≡ (
    finished s.next_id,
    report_entry host.heap.grants place.parent place.name
        (if kind_of body == 2 then bit_or created directory_mark else created)
        0
        with_times,
  )
  unfolding create ◌>>◌ ◌>>=◌ read view modify give
  create_runs = rw (enters, adds, touches, is_made) refl

  -- What stands under each name behind the creation.
  child_made :
      entries_in (some (new_node mode body host.now)) ≡ []
      → (dir : ℕ) (name : List ℕ)
      → child dir name with_times ≡ (
          if (place.parent == dir) && name_eq place.name name
          then some s.next_id
          else child dir name s)
  unfolding with_times with_node touched entered lookup made
  child_made bare dir name = elim (Bool-cases (place.parent == dir)) [
    | inl same ↦
        let here : place.parent ≡ dir = ground (arith, same) in
        let now : lookup dir (insert place.parent touched made) ≡ some touched =
          rw (lookup-insert place.parent dir touched made, same) refl in
        let before : lookup dir s.nodes ≡ some n = rw (← here) e in
        let was : child dir name s ≡ lookup name es = simp (before, b) refl in
        let after : child dir name with_times ≡ lookup name (insert place.name s.next_id es) =
          rw (now) refl in
        ground (arith, same, after, lookup-insert place.name name s.next_id es, was)
    | inr differs ↦
        let now : lookup dir (insert place.parent touched made) ≡ lookup dir made =
          rw (lookup-insert place.parent dir touched made, differs) refl in
        elim (Bool-cases (s.next_id == dir)) [
          | inl own ↦
              let here : s.next_id ≡ dir = ground (arith, own) in
              let there : lookup dir made ≡ some (new_node mode body host.now) =
                rw
                  (
                    lookup-insert s.next_id dir (new_node mode body host.now)
                        (insert place.parent entered s.nodes),
                    own,
                  )
                  refl in
              let after : child dir name with_times ≡ none = rw (now, there, bare) refl in
              let before : child dir name s ≡ none = rw (← here, fresh) refl in
              ground (arith, differs, after, before)
          | inr old ↦
              let there : lookup dir made ≡ lookup dir s.nodes =
                rw
                  (
                    lookup-insert s.next_id dir (new_node mode body host.now)
                        (insert place.parent entered s.nodes),
                    old,
                    lookup-insert place.parent dir entered s.nodes,
                    differs,
                  )
                  refl in
              let after : child dir name with_times ≡ child dir name s = rw (now, there) refl in
              ground (arith, differs, after)
        ]
  ]

-- A node that comes with no entries, created in a directory of an accounted state: the call goes through and
-- answers the next identity, under which the node stands as it was made; the name in the directory leads to
-- it, and every other name of every directory leads where it led.
pub create_lem :
    {most : ℕ} (host : Host) (place : Place) (mode : ℕ) (body : Body) (s : State)
    → IsAccounted most s
    → is_directory_at place.parent s ≡ finished true
    → entries_in (some (new_node mode body host.now)) ≡ []
    → let r = create host place mode body s in
      (r.0 ≡ finished s.next_id)
      × (lookup s.next_id r.1.nodes ≡ some (new_node mode body host.now))
      × ((dir : ℕ) (name : List ℕ)
          → child dir name r.1 ≡ (
              if (place.parent == dir) && name_eq place.name name
              then some s.next_id
              else child dir name s))
unfolding is_directory_at report_entry
create_lem host place mode body s v d bare = elim (Option-cases (lookup place.parent s.nodes)) [
  | inl missing ↦
      let now : ◌≡◌ {A = Outcome Bool} (failed invalid_argument) (finished true) =
        sym (rw (missing, is_directory_at) refl) ∙ d in
      cc
  | inr (n, e) ↦ elim (Body-cases n.body) [
    | inl (c, b) ↦
        let now : ◌≡◌ {A = Outcome Bool} (finished false) (finished true) =
          sym (simp (e, b, is_directory_at) refl) ∙ d in
        cc
    | inr (inr (target, b)) ↦
        let now : ◌≡◌ {A = Outcome Bool} (finished false) (finished true) =
          sym (simp (e, b, is_directory_at) refl) ∙ d in
        cc
    | inr (inl (above, es, b)) ↦
        let fresh = v.fresh s.next_id (omega arith) in
        let runs = create_runs host place mode body s n above es e b fresh in
        rw (runs) (
          refl,
          found_made host place mode body s n above es e b fresh,
          child_made host place mode body s n above es e b fresh bare,
        )
  ]
]
