-- ===== src/MemFs/Accounting/Mappings.antt =====
-- The accounting under the calls on mappings in crates/dotnet-pal-memfs/src/lib.rs.
use dotnet_pal_rs.Common.{ℕ, ◌+◌, ◌-◌, ◌≡◌, refl, ap, Bool, Option-cases, inl, inr}
use dotnet_pal_rs.MemFs.Exec.{modify, ◌>>◌}
use dotnet_pal_rs.MemFs.Exec.Keeps.{
  Keeps, Keeps-give, Keeps-view, Keeps-required, ◌giving◌, ◌also◌, keeps,
}
use dotnet_pal_rs.MemFs.Maps.{lookup, nat_key, pair_key}
use dotnet_pal_rs.MemFs.State.{Host, shared, private}
use dotnet_pal_rs.MemFs.Content.{Heap, Store, pin, content_len}
use dotnet_pal_rs.MemFs.Content.Preparation.{Content-cases}
use dotnet_pal_rs.MemFs.Tree.{update_node, reap}
use dotnet_pal_rs.MemFs.Mapping.{
  pin_node, count_mapping, map_shared, copy_range, map_private, map_file, uncount, unmap,
}
use dotnet_pal_rs.MemFs.Accounting.{IsAccounted}
use dotnet_pal_rs.MemFs.Accounting.Nodes.{update_node-IsAccounted, Body-cases}
use dotnet_pal_rs.MemFs.Accounting.Edits.{put_back-IsAccounted}
use dotnet_pal_rs.MemFs.Accounting.Changes.{aside-IsAccounted, reaped-IsAccounted}
use dotnet_pal_rs.MemFs.Accounting.Files.{file_node-IsAccounted}

-- A file that is pinned is as long as it was.
length-pin :
    (heap : Heap) (limit : ℕ) (store : Store)
    → content_len (pin heap limit store).1.content ≡ content_len store.content
unfolding pin
length-pin heap limit store = elim (Content-cases store.content) [
  | inr (p, c) ↦ rw (c, pin) (ap content_len c)
  | inl (bytes, c) ↦ elim (Option-cases (heap.pages limit)) [
    | inl refused ↦ rw (c, refused, pin) (ap content_len c)
    | inr (base, granted) ↦ simp (c, granted, pin) refl
  ]
]

module _ {most : ℕ} where
  pin_node-IsAccounted :
      (host : Host) (id limit : ℕ) → Keeps (IsAccounted most) (pin_node host id limit)
  unfolding pin_node
  pin_node-IsAccounted host id limit = record {
    after = λ s v. elim (Option-cases (lookup id s.nodes)) [
      | inl missing ↦ rw (missing, pin_node) v
      | inr (n, e) ↦ elim (Body-cases n.body) [
        | inr (inl (above, es, b)) ↦ simp (e, b, pin_node) v
        | inr (inr (target, b)) ↦ simp (e, b, pin_node) v
        | inl (c, b) ↦
            let store : Store = record { memory = s.memory; content = c } in
            simp (e, b, pin_node)
              (put_back-IsAccounted s id n c e b v (pin host.heap limit store).1
                (length-pin host.heap limit store))
      ]
    ];
  }

  count_mapping-IsAccounted :
      (address size id : ℕ) → Keeps (IsAccounted most) (count_mapping address size id)
  unfolding count_mapping
  count_mapping-IsAccounted address size id = record {
    after = λ s v. elim (Option-cases (lookup (address, size) s.mappings)) [
      | inl missing ↦
          rw (missing, count_mapping)
            (record {
              unique = v.unique;
              fresh = v.fresh;
              exact = v.exact;
              bounded = v.bounded;
              allowed = v.allowed;
            })
      | inr (private, e) ↦ rw (e, count_mapping) v
      | inr (shared node count, e) ↦
          rw (e, count_mapping)
            (record {
              unique = v.unique;
              fresh = v.fresh;
              exact = v.exact;
              bounded = v.bounded;
              allowed = v.allowed;
            })
    ];
  }

  map_shared-IsAccounted :
      (host : Host) (id start size limit : ℕ)
      → Keeps (IsAccounted most) (map_shared host id start size limit)
  unfolding map_shared
  map_shared-IsAccounted host id start size limit =
      pin_node-IsAccounted host id limit giving λ base.
      count_mapping-IsAccounted (base + start) size id
      also update_node-IsAccounted id _ (λ n. refl)
      also Keeps-give (base + start)

  map_private-IsAccounted :
      (host : Host) (id offset size : ℕ)
      → Keeps (IsAccounted most) (map_private host id offset size)
  unfolding map_private copy_range
  map_private-IsAccounted host id offset size = Keeps-view _ giving λ c.
      Keeps-required _ _ giving λ pages.
      Keeps-required _ _ giving λ base. aside-IsAccounted _ (λ s. refl) also Keeps-give base

  pub map_file-IsAccounted :
      (host : Host) (handle offset size wanted : ℕ) (sharing : Bool)
      → Keeps (IsAccounted most) (map_file host handle offset size wanted sharing)
  unfolding map_file
  map_file-IsAccounted host handle offset size wanted sharing =
      search (keeps, file_node-IsAccounted, map_shared-IsAccounted, map_private-IsAccounted) depth
        14

  uncount-IsAccounted :
      (key : ℕ × ℕ) (id count : ℕ) → Keeps (IsAccounted most) (modify (uncount key id count))
  unfolding uncount
  uncount-IsAccounted key id count = aside-IsAccounted _ (λ s. refl)

  pub unmap-IsAccounted : (address size : ℕ) → Keeps (IsAccounted most) (unmap address size)
  unfolding unmap
  unmap-IsAccounted address size = record {
    after = λ s v. elim (Option-cases (lookup (address, size) s.mappings)) [
      | inl missing ↦ rw (missing, unmap) v
      | inr (private, e) ↦
          rw (e, unmap)
            (record {
              unique = v.unique;
              fresh = v.fresh;
              exact = v.exact;
              bounded = v.bounded;
              allowed = v.allowed;
            })
      | inr (shared id count, e) ↦
          let kept : Keeps (IsAccounted most) (do
            modify (uncount (address, size) id count)
            update_node id (λ n. record n { maps = n.maps - 1 })
            modify (reap id)) =
            uncount-IsAccounted (address, size) id count
            also update_node-IsAccounted id _ (λ n. refl)
            also reaped-IsAccounted id in
          rw (e, unmap) (kept.after s v)
    ];
  }
