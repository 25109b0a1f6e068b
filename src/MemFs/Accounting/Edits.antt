-- ===== src/MemFs/Accounting/Edits.antt =====
-- The accounting under edits of a file's content.
use dotnet_pal_rs.Common.{
  ℕ, ◌+◌, ◌-◌, ◌≤◌, ◌≡◌, ◌∙◌, refl, sym, ap, ◌==◌, Bool, some, arith, Option-cases, inl, inr, not,
  ◌||◌,
}
use dotnet_pal_rs.MemFs.Exec.{Exec, Outcome, finished, failed, endless, modify, ◌>>◌, when}
use dotnet_pal_rs.MemFs.Exec.Keeps.{Keeps, Keeps-then, Keeps-when, Keeps-modify, Keeps-give}
use dotnet_pal_rs.MemFs.Maps.{lookup, insert, nat_key, lookup-insert}
use dotnet_pal_rs.MemFs.Maps.Sums.{total, worth, total-insert, total-remove, insert-HasUniqueKeys}
use dotnet_pal_rs.MemFs.State.{State, Node, Body, Host}
use dotnet_pal_rs.MemFs.Content.{Content, Store, content_len}
use dotnet_pal_rs.MemFs.Content.Bounds.{IsBounded}
use dotnet_pal_rs.MemFs.Tree.{body_size, update_node, put_back, settle, settled, change}
use dotnet_pal_rs.MemFs.Reports.{report, modified}
use dotnet_pal_rs.MemFs.Accounting.{IsAccounted, node_size}
use dotnet_pal_rs.MemFs.Accounting.Nodes.{
  replace-IsAccounted, update_node-IsAccounted, report-IsAccounted, Body-cases,
}

module _ {most : ℕ} where
  -- The accounting but for one file, whose size was counted as `before`.
  module _ (s : State) (id : ℕ) (n : Node) (c : Content) (e : lookup id s.nodes ≡ some n)
      (b : n.body ≡ Body.file c) (v : IsAccounted most s) (store : Store) where
    -- An edit that left the size needs no more.
    pub put_back-IsAccounted :
        content_len store.content ≡ content_len c → IsAccounted most (put_back id n store s)
    unfolding put_back
    put_back-IsAccounted same =
        let kept =
          replace-IsAccounted s id n (record n { body = Body.file store.content }) e
            (same ∙ sym (ap body_size b)) v in
        record {
          unique = kept.unique;
          fresh = kept.fresh;
          exact = kept.exact;
          bounded = kept.bounded;
          allowed = kept.allowed;
        }

    -- One that went through is settled by `used`.
    counted-IsAccounted :
        content_len store.content ≤ content_len c + (s.capacity - s.used)
        → let t = put_back id n store s in
          IsAccounted most (record t { used = t.used - content_len c + content_len store.content })
    unfolding put_back
    counted-IsAccounted within =
        let n' = record n { body = Body.file store.content } in
        let old : worth node_size (lookup id s.nodes) ≡ content_len c =
          ap (worth node_size) e ∙ ap body_size b in
        let sums : total node_size (insert id n' s.nodes) + worth node_size (lookup id s.nodes)
            ≡ content_len store.content + total node_size s.nodes =
          total-insert node_size id n' s.nodes v.unique in
        let held = total-remove node_size id s.nodes v.unique in
        record {
          unique = insert-HasUniqueKeys id n' s.nodes v.unique;
          fresh = λ k le. ground (arith, lookup-insert id k n' s.nodes, v.fresh k le, e);
          exact = omega (arith, sums, held, old, v.exact);
          bounded = omega (arith, sums, held, old, v.exact, v.bounded, v.allowed, within);
          allowed = v.allowed;
        }

  settle_rest :
      (host : Host) (id : ℕ) (tell : Bool)
      → Keeps (IsAccounted most) (
          update_node id (λ n. record n { modified = host.now; changed = host.now })
          >> when tell (modify (report host.heap.grants id modified)))
  settle_rest host id tell =
      Keeps-then _ _ (update_node-IsAccounted id _ (λ n. refl))
        (Keeps-when tell _ (Keeps-modify _ (report-IsAccounted host.heap.grants id modified)))

  module _ {A : Type 0} (host : Host) (id : ℕ) (told : Bool) (edit : ℕ → Bool → Exec Store A)
      (bound : (room : ℕ) (mapped : Bool) (store : Store)
        → IsBounded (content_len store.content) room (edit room mapped store)) where
    settled-IsAccounted :
        (s : State) (n : Node) (c : Content)
        → lookup id s.nodes ≡ some n
        → n.body ≡ Body.file c
        → IsAccounted most s
        → (r : Outcome A × Store) → IsBounded (content_len c) (s.capacity - s.used) r
        → IsAccounted most (settled host id told (content_len c) r.0 r.1 (put_back id n r.1 s)).1
    unfolding settled settle modify ◌>>◌ when put_back
    settled-IsAccounted s n c e b v (endless, store) h = absurd h
    settled-IsAccounted s n c e b v (failed cause, store) h =
        put_back-IsAccounted s id n c e b v store h
    settled-IsAccounted s n c e b v (finished a, store) h =
        let ready = counted-IsAccounted s id n c e b v store h in
        let rest = settle_rest host id (told || not (content_len c == content_len store.content)) in
        (Keeps-then _ _ rest (Keeps-give a)).after _ ready

    -- An edit that is bounded by its room keeps the accounting, also when it fails halfway.
    pub change-IsAccounted : Keeps (IsAccounted most) (change host id told edit)
    unfolding change
    change-IsAccounted = record {
      after = λ s v. elim (Option-cases (lookup id s.nodes)) [
        | inl missing ↦ rw (missing, change) v
        | inr (n, e) ↦ elim (Body-cases n.body) [
          | inl (c, b) ↦
              let r =
                edit (s.capacity - s.used) (not (n.maps == 0))
                  (record { memory = s.memory; content = c }) in
              simp (e, b, change) (settled-IsAccounted s n c e b v r (bound _ _ _))
          | inr (inl (above, es, b)) ↦ simp (e, b, change) v
          | inr (inr (target, b)) ↦ simp (e, b, change) v
        ]
      ];
    }
