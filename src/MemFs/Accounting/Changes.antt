-- ===== src/MemFs/Accounting/Changes.antt =====
-- The accounting under the operations of the state in crates/dotnet-pal-memfs/src/lib.rs.
use dotnet_pal_rs.Common.{
  ℕ, ◌-◌, ◌≡◌, ◌∙◌, refl, sym, ap, Bool, Option, List, arith, Option-cases, inl, inr,
}
use dotnet_pal_rs.Port.{Result-cases}
use dotnet_pal_rs.MemFs.Exec.{modify}
use dotnet_pal_rs.MemFs.Exec.Keeps.{
  Keeps, Keeps-then, Keeps-when, Keeps-modify, Keeps-give, Keeps-read, Keeps-view, Keeps-if,
  ◌giving◌, ◌also◌,
}
use dotnet_pal_rs.MemFs.Maps.{lookup, nat_key}
use dotnet_pal_rs.MemFs.Maps.Sums.{total}
use dotnet_pal_rs.MemFs.Locks.{Lock}
use dotnet_pal_rs.MemFs.Locks as Locks
use dotnet_pal_rs.MemFs.State.{State, Node, Body, Host}
use dotnet_pal_rs.MemFs.Walk.{Place}
use dotnet_pal_rs.MemFs.Tree.{
  body_size, touch, new_node, create, reap, unlinked, set_mode_of, set_times_of, relock,
}
use dotnet_pal_rs.MemFs.Reports.{report, report_entry, ended, attributes}
use dotnet_pal_rs.MemFs.Accounting.{IsAccounted, node_size}
use dotnet_pal_rs.MemFs.Accounting.Nodes.{
  replace-IsAccounted, update_node-IsAccounted, update_entries-IsAccounted, add_node-IsAccounted,
  reap-IsAccounted, report-IsAccounted,
}

-- What the accounting is about.
abbrev pub books : State → List (ℕ × Node) × ℕ × ℕ × ℕ
books s = (s.nodes, s.next_id, s.used, s.capacity)

module _ {most : ℕ} where
  -- A change of the rest of the state.
  pub aside-IsAccounted :
      (f : State → State)
      → ((s : State) → books (f s) ≡ books s)
      → Keeps (IsAccounted most) (modify f)
  aside-IsAccounted f same = Keeps-modify f λ s v.
      let nodes : (f s).nodes ≡ s.nodes = ap (λ (x : List (ℕ × Node) × ℕ × ℕ × ℕ). x.0) (same s) in
      let ids : (f s).next_id ≡ s.next_id =
        ap (λ (x : List (ℕ × Node) × ℕ × ℕ × ℕ). x.1) (same s) in
      let used : (f s).used ≡ s.used = ap (λ (x : List (ℕ × Node) × ℕ × ℕ × ℕ). x.2) (same s) in
      let capacity : (f s).capacity ≡ s.capacity =
        ap (λ (x : List (ℕ × Node) × ℕ × ℕ × ℕ). x.3) (same s) in
      record {
        unique = rw (nodes) v.unique;
        fresh = λ k le. rw (nodes) (v.fresh k (omega (arith, le, ids)));
        exact = used ∙ v.exact ∙ sym (ap (total node_size) nodes);
        bounded = omega (arith, used, v.bounded);
        allowed = omega (arith, capacity, v.allowed);
      }

  pub told-IsAccounted :
      (grants : ℕ → Bool) (id kinds : ℕ)
      → Keeps (IsAccounted most) (modify (report grants id kinds))
  told-IsAccounted grants id kinds = Keeps-modify _ (report-IsAccounted grants id kinds)

  pub reaped-IsAccounted : (id : ℕ) → Keeps (IsAccounted most) (modify (reap id))
  reaped-IsAccounted id = Keeps-modify _ (reap-IsAccounted id)

  pub report_entry-IsAccounted :
      (grants : ℕ → Bool) (dir : ℕ) (name : List ℕ) (kinds cookie : ℕ)
      → Keeps (IsAccounted most) (modify (report_entry grants dir name kinds cookie))
  unfolding report_entry
  report_entry-IsAccounted grants dir name kinds cookie = aside-IsAccounted _ (λ s. refl)

  pub ended-IsAccounted :
      (grants : ℕ → Bool) (id : ℕ) → Keeps (IsAccounted most) (modify (ended grants id))
  unfolding ended
  ended-IsAccounted grants id = aside-IsAccounted _ (λ s. refl)

  pub touch-IsAccounted : (id now : ℕ) → Keeps (IsAccounted most) (touch id now)
  unfolding touch
  touch-IsAccounted id now = update_node-IsAccounted id _ (λ n. refl)

  pub create-IsAccounted :
      (host : Host) (place : Place) (mode : ℕ) (body : Body)
      → body_size body ≡ 0
      → Keeps (IsAccounted most) (create host place mode body)
  unfolding create
  create-IsAccounted host place mode body empty =
      let added = Keeps-modify _ (add_node-IsAccounted (new_node mode body host.now) empty) in
      Keeps-read _ giving λ id.
      update_entries-IsAccounted place.parent _
      also added
      also touch-IsAccounted place.parent host.now
      also Keeps-view _
      giving λ dir.
          report_entry-IsAccounted host.heap.grants place.parent place.name _ 0 also Keeps-give id

  pub unlinked-IsAccounted :
      (host : Host) (id : ℕ) (counted : Bool) → Keeps (IsAccounted most) (unlinked host id counted)
  unfolding unlinked
  unlinked-IsAccounted host id counted =
      let node =
        update_node-IsAccounted id (λ n. record n { links = n.links - 1; changed = host.now })
          (λ n. refl) in
      node also Keeps-read _ giving λ last.
      Keeps-when counted _ (told-IsAccounted host.heap.grants id attributes)
      also Keeps-when last _ (ended-IsAccounted host.heap.grants id)
      also reaped-IsAccounted id

  pub set_mode_of-IsAccounted :
      (host : Host) (id mode : ℕ) → Keeps (IsAccounted most) (set_mode_of host id mode)
  unfolding set_mode_of
  set_mode_of-IsAccounted host id mode =
      Keeps-then _ _ (update_node-IsAccounted id _ (λ n. refl))
        (told-IsAccounted host.heap.grants id attributes)

  pub set_times_of-IsAccounted :
      (host : Host) (id : ℕ) (accessed modified : Option ℕ)
      → Keeps (IsAccounted most) (set_times_of host id accessed modified)
  unfolding set_times_of
  set_times_of-IsAccounted host id accessed modified =
      Keeps-if _ _ _ (Keeps-view _ also Keeps-give tt) (
        Keeps-then _ _ (update_node-IsAccounted id _ (λ n. refl))
          (told-IsAccounted host.heap.grants id attributes))

  pub relock-IsAccounted :
      (host : Host) (id mode : ℕ) (wanted : Lock)
      → Keeps (IsAccounted most) (relock host id mode wanted)
  unfolding relock
  relock-IsAccounted host id mode wanted = record {
    after = λ s v. elim (Option-cases (lookup id s.nodes)) [
      | inl missing ↦ rw (missing, relock) v
      | inr (n, e) ↦ elim (Result-cases (Locks.relock (host.heap.grants 2) n.locks mode wanted)) [
        | inr (cause, r) ↦ rw (e, r, relock) v
        | inl (locks, r) ↦
            rw (e, r, relock) (replace-IsAccounted s id n (record n { locks = locks }) e refl v)
      ]
    ];
  }
