-- ===== src/MemFs/Accounting/Paths.antt =====
-- The accounting under the calls on paths in crates/dotnet-pal-memfs/src/lib.rs.
use dotnet_pal_rs.Common.{ℕ, ◌≡◌, refl, Bool, true, Option, none, some, List, [], inl, inr}
use dotnet_pal_rs.MemFs.Exec.{Exec, Outcome-cases, give}
use dotnet_pal_rs.MemFs.Exec.Keeps.{
  Keeps, Keeps-give, Keeps-read, Keeps-view, Keeps-refuse_if, ◌giving◌, ◌also◌, keeps,
}
use dotnet_pal_rs.MemFs.Maps.{nat_key, name_key}
use dotnet_pal_rs.MemFs.State.{State, Body, Host, Handle}
use dotnet_pal_rs.MemFs.Walk.{Place}
use dotnet_pal_rs.MemFs.Tree.{body_size, unlinked}
use dotnet_pal_rs.MemFs.Names.{remove_at, remove_file, moved_body, rename_at, rename}
use dotnet_pal_rs.MemFs.Directories.{
  entry_of, create_directory, remove_directory, open_directory, read_entry, read_directory,
  set_current_directory,
}
use dotnet_pal_rs.MemFs.Links.{set_mode, set_times, link_at, link, symlink}
use dotnet_pal_rs.MemFs.Accounting.{IsAccounted}
use dotnet_pal_rs.MemFs.Accounting.Nodes.{update_node-IsAccounted, update_entries-IsAccounted}
use dotnet_pal_rs.MemFs.Accounting.Changes.{
  aside-IsAccounted, touch-IsAccounted, unlinked-IsAccounted, report_entry-IsAccounted,
  told-IsAccounted, create-IsAccounted, set_mode_of-IsAccounted, set_times_of-IsAccounted,
}
use dotnet_pal_rs.MemFs.Accounting.Files.{borrow-IsAccounted, new_handle-IsAccounted}
use dotnet_pal_rs.MemFs.Reports.{attributes, created}

ruleset edits = (
  keeps, update_entries-IsAccounted, touch-IsAccounted, unlinked-IsAccounted,
  report_entry-IsAccounted, told-IsAccounted,
)

-- The bytes of a file stay where a name moves.
size-moved_body : (above : ℕ) (body : Body) → body_size (moved_body above body) ≡ body_size body
size-moved_body above (Body.file content) = refl
size-moved_body above (Body.directory _ es) = refl
size-moved_body above (Body.link target) = refl

module _ {most : ℕ} where
  module _ (host : Host) where
    remove_at-IsAccounted :
        (place : Place) (id : ℕ) → Keeps (IsAccounted most) (remove_at host place id)
    unfolding remove_at
    remove_at-IsAccounted place id = search (edits)

    pub remove_file-IsAccounted : (path : List ℕ) → Keeps (IsAccounted most) (remove_file host path)
    unfolding remove_file
    remove_file-IsAccounted path = search (edits, remove_at-IsAccounted) depth 8

    replaced-IsAccounted :
        (replaced : Option ℕ)
        → Keeps (IsAccounted most) (elim replaced as (λ _. Exec State (Unit {0})) [
          | none ↦ give tt
          | some old ↦ unlinked host old true
        ])
    replaced-IsAccounted none = Keeps-give tt
    replaced-IsAccounted (some old) = unlinked-IsAccounted host old true

    rename_at-IsAccounted :
        (source target : Place) (id : ℕ) (dir : Bool)
        → Keeps (IsAccounted most) (rename_at host source target id dir)
    unfolding rename_at
    rename_at-IsAccounted source target id dir =
        let moved =
          update_node-IsAccounted id
            (λ n. record n { changed = host.now; body = moved_body target.parent n.body })
            (λ n. size-moved_body target.parent n.body) in
        update_entries-IsAccounted source.parent _ also Keeps-view _ giving λ replaced.
        update_entries-IsAccounted target.parent _
        also aside-IsAccounted _ (λ s. refl)
        also Keeps-read _
        giving λ cookie.
            report_entry-IsAccounted host.heap.grants source.parent source.name _ cookie
            also report_entry-IsAccounted host.heap.grants target.parent target.name _ cookie
            also replaced-IsAccounted replaced
            also moved
            also touch-IsAccounted source.parent host.now
            also touch-IsAccounted target.parent host.now

    pub rename-IsAccounted : (from to : List ℕ) → Keeps (IsAccounted most) (rename host from to)
    unfolding rename
    rename-IsAccounted from to = search (keeps, rename_at-IsAccounted) depth 10

    pub create_directory-IsAccounted :
        (path : List ℕ) (mode : ℕ) → Keeps (IsAccounted most) (create_directory host path mode)
    unfolding create_directory
    create_directory-IsAccounted path mode = Keeps-view _ giving λ place.
        Keeps-refuse_if _ _
        also create-IsAccounted host place mode (Body.directory place.parent []) refl
        giving λ _. Keeps-give tt

    pub remove_directory-IsAccounted :
        (path : List ℕ) → Keeps (IsAccounted most) (remove_directory host path)
    unfolding remove_directory
    remove_directory-IsAccounted path = search (edits) depth 12

    pub open_directory-IsAccounted :
        (path : List ℕ) → Keeps (IsAccounted most) (open_directory host path)
    unfolding open_directory
    open_directory-IsAccounted path = search (keeps, new_handle-IsAccounted) depth 10

    pub set_mode-IsAccounted :
        (path : List ℕ) (mode : ℕ) → Keeps (IsAccounted most) (set_mode host path mode)
    unfolding set_mode
    set_mode-IsAccounted path mode = search (keeps, set_mode_of-IsAccounted)

    pub set_times-IsAccounted :
        (path : List ℕ) (following : Bool) (accessed modified : Option ℕ)
        → Keeps (IsAccounted most) (set_times host path following accessed modified)
    unfolding set_times
    set_times-IsAccounted path following accessed modified =
        search (keeps, set_times_of-IsAccounted)

    link_at-IsAccounted :
        (id : ℕ) (place : Place) → Keeps (IsAccounted most) (link_at host id place)
    unfolding link_at
    link_at-IsAccounted id place =
        told-IsAccounted host.heap.grants id attributes
        also update_entries-IsAccounted place.parent _
        also update_node-IsAccounted id _ (λ n. refl)
        also touch-IsAccounted place.parent host.now
        also report_entry-IsAccounted host.heap.grants place.parent place.name created 0

    pub link-IsAccounted :
        (existing name : List ℕ) → Keeps (IsAccounted most) (link host existing name)
    unfolding link
    link-IsAccounted existing name = search (keeps, link_at-IsAccounted) depth 10

    pub symlink-IsAccounted :
        (target name : List ℕ) → Keeps (IsAccounted most) (symlink host target name)
    unfolding symlink
    symlink-IsAccounted target name =
        Keeps-refuse_if _ _
        also Keeps-refuse_if _ _
        also Keeps-refuse_if _ _
        also Keeps-view _
        giving λ place.
            create-IsAccounted host place 0o777 (Body.link target) refl giving λ _. Keeps-give tt

  read_entry-IsAccounted :
      (handle capacity : ℕ) (h : Handle) → Keeps (IsAccounted most) (read_entry handle capacity h)
  unfolding read_entry
  read_entry-IsAccounted handle capacity (Handle.directory text cursor) = record {
    after = λ s v. elim (Outcome-cases (entry_of text cursor capacity)) [
      | inl stuck ↦ rw (stuck, read_entry) v
      | inr (inl (cause, e)) ↦ rw (e, read_entry) v
      | inr (inr ((kind, name, after), e)) ↦
          rw (e, read_entry)
            (record {
              unique = v.unique;
              fresh = v.fresh;
              exact = v.exact;
              bounded = v.bounded;
              allowed = v.allowed;
            })
    ];
  }
  read_entry-IsAccounted handle capacity (Handle.file _ _) = record { after = λ s v. v }
  read_entry-IsAccounted handle capacity (Handle.watcher _) = record { after = λ s v. v }

  pub read_directory-IsAccounted :
      (handle capacity : ℕ) → Keeps (IsAccounted most) (read_directory handle capacity)
  unfolding read_directory
  read_directory-IsAccounted handle capacity =
      search (keeps, borrow-IsAccounted, read_entry-IsAccounted)

  pub set_current_directory-IsAccounted :
      (path : List ℕ) → Keeps (IsAccounted most) (set_current_directory path)
  unfolding set_current_directory
  set_current_directory-IsAccounted path =
      let moved =
        λ (id : ℕ). aside-IsAccounted {most = most} (λ s. record s { working = id }) (λ s. refl) in
      search (keeps, moved) depth 10
