-- ===== src/MemFs/Accounting/Watches.antt =====
-- The accounting under the calls on watches in crates/dotnet-pal-memfs/src/lib.rs.
use dotnet_pal_rs.Common.{
  ℕ, refl, ◌==◌, Option, none, some, List, Option-cases, Bool-cases, inl, inr,
}
use dotnet_pal_rs.MemFs.Exec.{Exec, endless, modify, ◌>>◌, give, view}
use dotnet_pal_rs.MemFs.Exec.Keeps.{
  Keeps, Keeps-give, Keeps-read, Keeps-view, Keeps-refuse_if, Keeps-required, ◌giving◌, ◌also◌,
  keeps,
}
use dotnet_pal_rs.Common.Words.{u32_max}
use dotnet_pal_rs.MemFs.Queue.{pop, fault, nothing, next, Popped, Event}
use dotnet_pal_rs.MemFs.State.{State, Host, Handle, Watcher, Watch}
use dotnet_pal_rs.MemFs.Reports.{find}
use dotnet_pal_rs.MemFs.Watching.{
  watcher_id, put_watcher, open_watcher, close_watcher, add_watch, add, remove_watch, take_event,
}
use dotnet_pal_rs.MemFs.Accounting.{IsAccounted}
use dotnet_pal_rs.MemFs.Accounting.Changes.{aside-IsAccounted}
use dotnet_pal_rs.MemFs.Accounting.Files.{borrow-IsAccounted, new_handle-IsAccounted}

module _ {most : ℕ} where
  watcher_id-IsAccounted : (handle : ℕ) → Keeps (IsAccounted most) (watcher_id handle)
  unfolding watcher_id
  watcher_id-IsAccounted handle = search (keeps, borrow-IsAccounted)

  put_watcher-IsAccounted :
      (id : ℕ) (w : Watcher) → Keeps (IsAccounted most) (modify (put_watcher id w))
  unfolding put_watcher
  put_watcher-IsAccounted id w = aside-IsAccounted _ (λ s. refl)

  pub open_watcher-IsAccounted : (host : Host) → Keeps (IsAccounted most) (open_watcher host)
  unfolding open_watcher
  open_watcher-IsAccounted host = Keeps-refuse_if _ _ also Keeps-read _ giving λ id.
      aside-IsAccounted _ (λ s. refl)
      also put_watcher-IsAccounted id _
      also new_handle-IsAccounted host (Handle.watcher id)

  pub close_watcher-IsAccounted : (handle : ℕ) → Keeps (IsAccounted most) (close_watcher handle)
  unfolding close_watcher
  close_watcher-IsAccounted handle =
      watcher_id-IsAccounted handle giving λ id. aside-IsAccounted _ (λ s. refl)

  add_watch-IsAccounted :
      (host : Host) (id : ℕ) (w : Watcher) (node wanted : ℕ)
      → Keeps (IsAccounted most) (add_watch host id w node wanted)
  unfolding add_watch
  add_watch-IsAccounted host id w node wanted = record {
    after = λ s v. elim (Option-cases (find (λ (known : Watch). known.node == node) w.watches)) [
      | inr (known, e) ↦
          rw (e, add_watch, put_watcher)
            (record {
              unique = v.unique;
              fresh = v.fresh;
              exact = v.exact;
              bounded = v.bounded;
              allowed = v.allowed;
            })
      | inl unknown ↦ elim (Bool-cases (w.last == u32_max)) [
        | inl full ↦ rw (unknown, full, add_watch) v
        | inr more ↦ elim (Bool-cases (host.heap.grants 1)) [
          | inr refused ↦ rw (unknown, more, refused, add_watch) v
          | inl granted ↦
              rw (unknown, more, granted, add_watch, put_watcher)
                (record {
                  unique = v.unique;
                  fresh = v.fresh;
                  exact = v.exact;
                  bounded = v.bounded;
                  allowed = v.allowed;
                })
        ]
      ]
    ];
  }

  pub add-IsAccounted :
      (host : Host) (handle : ℕ) (path : List ℕ) (events : ℕ)
      → Keeps (IsAccounted most) (add host handle path events)
  unfolding add
  add-IsAccounted host handle path events =
      search (keeps, watcher_id-IsAccounted, add_watch-IsAccounted) depth 14

  pub remove_watch-IsAccounted :
      (host : Host) (handle watch : ℕ) → Keeps (IsAccounted most) (remove_watch host handle watch)
  unfolding remove_watch
  remove_watch-IsAccounted host handle watch = watcher_id-IsAccounted handle giving λ id.
      Keeps-view _ giving λ w. Keeps-required _ _ giving λ _. put_watcher-IsAccounted id _

  popped-IsAccounted :
      (id : ℕ) (w : Watcher) (popped : Popped)
      → Keeps (IsAccounted most) (elim popped as (λ _. Exec State (Option Event)) [
        | fault ↦ view (λ _. endless)
        | nothing q ↦ modify (put_watcher id (record w { queue = q })) >> give none
        | next event q ↦ modify (put_watcher id (record w { queue = q })) >> give (some event)
      ])
  popped-IsAccounted id w fault = Keeps-view _
  popped-IsAccounted id w (nothing q) = put_watcher-IsAccounted id _ also Keeps-give none
  popped-IsAccounted id w (next event q) = put_watcher-IsAccounted id _ also Keeps-give (some event)

  pub take_event-IsAccounted : (handle : ℕ) → Keeps (IsAccounted most) (take_event handle)
  unfolding take_event
  take_event-IsAccounted handle = watcher_id-IsAccounted handle giving λ id.
      Keeps-view _ giving λ w. popped-IsAccounted id w (pop w.queue)
