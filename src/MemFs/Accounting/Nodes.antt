-- ===== src/MemFs/Accounting/Nodes.antt =====
-- The accounting under the changes that operations make to single nodes.
use dotnet_pal_rs.Common.{
  ℕ, ◌≡◌, refl, sym, ap, ◌==◌, ◌&&◌, Bool, some, List, arith, Option-cases, Bool-cases, inl, inr,
  ◌⊎◌,
}
use dotnet_pal_rs.MemFs.Exec.Keeps.{Keeps}
use dotnet_pal_rs.MemFs.Maps.{lookup, insert, nat_key, lookup-insert, lookup-remove}
use dotnet_pal_rs.MemFs.Maps.Sums.{
  worth, total-insert, total-remove, insert-HasUniqueKeys, remove-HasUniqueKeys,
}
use dotnet_pal_rs.MemFs.State.{State, Node, Body, Entries}
use dotnet_pal_rs.MemFs.Content.{Content}
use dotnet_pal_rs.MemFs.Tree.{body_size, update_node, update_entries, add_node, reap}
use dotnet_pal_rs.MemFs.Reports.{report}
use dotnet_pal_rs.MemFs.Accounting.{IsAccounted, node_size}

pub Body-cases :
    (body : Body)
    → ((c : Content) × (body ≡ Body.file c))
      ⊎ ((above : ℕ) × (es : Entries) × (body ≡ Body.directory above es))
      ⊎ ((target : List ℕ) × (body ≡ Body.link target))
Body-cases (Body.file c) = inl (c, refl)
Body-cases (Body.directory above es) = inr (inl (above, es, refl))
Body-cases (Body.link target) = inr (inr (target, refl))

module _ {most : ℕ} where
  -- A node in the place of one that is as large.
  pub replace-IsAccounted :
      (s : State) (id : ℕ) (n n' : Node)
      → lookup id s.nodes ≡ some n
      → node_size n' ≡ node_size n
      → IsAccounted most s
      → IsAccounted most (record s { nodes = insert id n' s.nodes })
  replace-IsAccounted s id n n' e same v = record {
    unique = insert-HasUniqueKeys id n' s.nodes v.unique;
    fresh = λ k le. ground (arith, lookup-insert id k n' s.nodes, v.fresh k le, e);
    exact = ground (
      arith,
      total-insert node_size id n' s.nodes v.unique,
      ap (worth node_size) e,
      v.exact,
      same,
    );
    bounded = v.bounded;
    allowed = v.allowed;
  }

  pub update_node-IsAccounted :
      (id : ℕ) (f : Node → Node)
      → ((n : Node) → node_size (f n) ≡ node_size n)
      → Keeps (IsAccounted most) (update_node id f)
  unfolding update_node
  update_node-IsAccounted id f same = record {
    after = λ s v. elim (Option-cases (lookup id s.nodes)) [
      | inl missing ↦ rw (missing, update_node) v
      | inr (n, e) ↦ rw (e, update_node) (replace-IsAccounted s id n (f n) e (same n) v)
    ];
  }

  pub update_entries-IsAccounted :
      (id : ℕ) (f : Entries → Entries) → Keeps (IsAccounted most) (update_entries id f)
  unfolding update_entries
  update_entries-IsAccounted id f = record {
    after = λ s v. elim (Option-cases (lookup id s.nodes)) [
      | inl missing ↦ rw (missing, update_entries) v
      | inr (n, e) ↦ elim (Body-cases n.body) [
        | inl (c, b) ↦ simp (e, b, update_entries) v
        | inr (inr (target, b)) ↦ simp (e, b, update_entries) v
        | inr (inl (above, es, b)) ↦
            simp (e, b, update_entries)
              (replace-IsAccounted s id n (record n { body = Body.directory above (f es) }) e
                (sym (ap body_size b)) v)
      ]
    ];
  }

  pub add_node-IsAccounted :
      (n : Node)
      → node_size n ≡ 0
      → (s : State) → IsAccounted most s
      → IsAccounted most (add_node n s)
  unfolding add_node
  add_node-IsAccounted n empty s v = record {
    unique = insert-HasUniqueKeys s.next_id n s.nodes v.unique;
    fresh = λ k le.
        ground (arith, lookup-insert s.next_id k n s.nodes, v.fresh k (omega (arith, le)), le);
    exact = ground (
      arith,
      total-insert node_size s.next_id n s.nodes v.unique,
      v.fresh s.next_id (omega arith),
      v.exact,
      empty,
      ap (worth node_size) (v.fresh s.next_id (omega arith)),
    );
    bounded = v.bounded;
    allowed = v.allowed;
  }

  pub reap-IsAccounted : (id : ℕ) (s : State) → IsAccounted most s → IsAccounted most (reap id s)
  unfolding reap
  reap-IsAccounted id s v = elim (Option-cases (lookup id s.nodes)) [
    | inl missing ↦ rw (missing, reap) v
    | inr (n, e) ↦ elim (Bool-cases (n.links == 0 && (n.opens == 0 && n.maps == 0))) [
      | inr held ↦ rw (e, held, reap) v
      | inl free ↦
          let left = total-remove node_size id s.nodes v.unique in
          let gone = ap (worth node_size) e in
          rw (e, free, reap)
            (record {
              unique = remove-HasUniqueKeys id s.nodes v.unique;
              fresh = λ k le. ground (arith, lookup-remove id k s.nodes, v.fresh k le);
              exact = omega (arith, left, gone, v.exact);
              bounded = omega (arith, v.bounded);
              allowed = v.allowed;
            })
    ]
  ]

  -- The watches hear; the nodes and the numbers stay.
  pub report-IsAccounted :
      (grants : ℕ → Bool) (id kinds : ℕ) (s : State)
      → IsAccounted most s
      → IsAccounted most (report grants id kinds s)
  unfolding report
  report-IsAccounted grants id kinds s v = elim (Option-cases (lookup id s.nodes)) [
    | inl missing ↦ rw (missing, report) v
    | inr (n, e) ↦
        rw (e, report)
          (record {
            unique = v.unique;
            fresh = v.fresh;
            exact = v.exact;
            bounded = v.bounded;
            allowed = v.allowed;
          })
  ]
