-- ===== src/MemFs/Accounting/Files.antt =====
-- The accounting under the calls on open files in crates/dotnet-pal-memfs/src/lib.rs.
use dotnet_pal_rs.Common.{
  ℕ, ◌+◌, refl, ◌==◌, false, Option, List, [], Option-cases, Bool-cases, inl, inr, not, ◌||◌, ◌%◌,
}
use dotnet_pal_rs.Port.{not_found, is_directory, already_exists}
use dotnet_pal_rs.MemFs.Exec.{◌>>◌, ◌>>=◌, give, when, view, refuse_if}
use dotnet_pal_rs.MemFs.Exec.Keeps.{Keeps, Keeps-view, Keeps-refuse_if, ◌giving◌, ◌also◌, keeps}
use dotnet_pal_rs.MemFs.Maps.{nat_key}
use dotnet_pal_rs.MemFs.State.{Body, Host, Handle, is_directory_at}
use dotnet_pal_rs.MemFs.Content.{plain, resize_content}
use dotnet_pal_rs.MemFs.Content.Bounds.{resize_content-IsBounded, write_content-IsBounded}
use dotnet_pal_rs.MemFs.Walk.{Place}
use dotnet_pal_rs.MemFs.Handles.{
  borrow, handle_align, has, create_flag, exclusive_flag, truncate_flag, write_flag, file_node,
  new_handle, opened, open_file, close_file, read_at, write_at, set_file_size, set_file_mode,
  set_file_times, lock_attempt, lock_range,
}
use dotnet_pal_rs.MemFs.Tree.{update_node, change}
use dotnet_pal_rs.MemFs.Tree as Tree
use dotnet_pal_rs.MemFs.Accounting.{IsAccounted}
use dotnet_pal_rs.MemFs.Accounting.Nodes.{update_node-IsAccounted}
use dotnet_pal_rs.MemFs.Accounting.Edits.{change-IsAccounted}
use dotnet_pal_rs.MemFs.Accounting.Changes.{
  told-IsAccounted, reaped-IsAccounted, create-IsAccounted, set_mode_of-IsAccounted,
  set_times_of-IsAccounted, relock-IsAccounted,
}

module _ {most : ℕ} where
  pub borrow-IsAccounted : (handle : ℕ) → Keeps (IsAccounted most) (borrow handle)
  unfolding borrow
  borrow-IsAccounted handle = record {
    after = λ s v. elim (Bool-cases (handle == 0 || not (handle % handle_align == 0))) [
      | inl bad ↦ rw (bad, borrow) v
      | inr good ↦ rw (good, borrow) v
    ];
  }

  pub file_node-IsAccounted :
      (handle wanted : ℕ) → Keeps (IsAccounted most) (file_node handle wanted)
  unfolding file_node
  file_node-IsAccounted handle wanted = search (keeps, borrow-IsAccounted)

  pub new_handle-IsAccounted :
      (host : Host) (value : Handle) → Keeps (IsAccounted most) (new_handle host value)
  unfolding new_handle
  new_handle-IsAccounted host value = record {
    after = λ s v. record {
      unique = v.unique;
      fresh = v.fresh;
      exact = v.exact;
      bounded = v.bounded;
      allowed = v.allowed;
    };
  }

  resized-IsAccounted :
      (host : Host) (id size : ℕ)
      → Keeps (IsAccounted most) (change host id false (resize_content host.heap size))
  resized-IsAccounted host id size =
      change-IsAccounted host id false _ (resize_content-IsBounded host.heap size)

  opened-IsAccounted :
      (host : Host) (place : Place) (flags mode : ℕ)
      → Keeps (IsAccounted most) (opened host place flags mode)
  unfolding opened
  opened-IsAccounted host place flags mode = record {
    after = λ s v. elim (Option-cases place.node) [
      | inl vacant ↦
          let kept : Keeps (IsAccounted most) (do
            refuse_if (not (has flags create_flag)) not_found
            refuse_if place.slash is_directory
            Tree.create host place mode (Body.file (plain []))) =
            Keeps-refuse_if _ _
            also Keeps-refuse_if _ _
            also create-IsAccounted host place mode (Body.file (plain [])) refl in
          rw (vacant, opened) (kept.after s v)
      | inr (id, e) ↦
          let kept : Keeps (IsAccounted most) (do
            refuse_if (has flags exclusive_flag) already_exists
            dir ← view (is_directory_at id)
            refuse_if dir is_directory
            when (has flags truncate_flag) (change host id false (resize_content host.heap 0))
            give id) =
            search (keeps, resized-IsAccounted) depth 10 in
          rw (e, opened) (kept.after s v)
    ];
  }

  module _ (host : Host) where
    pub open_file-IsAccounted :
        (path : List ℕ) (flags mode : ℕ) → Keeps (IsAccounted most) (open_file host path flags mode)
    unfolding open_file
    open_file-IsAccounted path flags mode =
        let counted = λ (id : ℕ).
          update_node-IsAccounted {most = most} id (λ n. record n { opens = n.opens + 1 })
            (λ n. refl) in
        search (keeps, opened-IsAccounted, counted, new_handle-IsAccounted)

    pub close_file-IsAccounted : (handle : ℕ) → Keeps (IsAccounted most) (close_file handle)
    unfolding close_file
    close_file-IsAccounted handle = borrow-IsAccounted handle giving λ h. Keeps-view _ giving λ id.
        update_node-IsAccounted id _ (λ n. refl) also reaped-IsAccounted id

    pub read_at-IsAccounted :
        (handle offset capacity : ℕ)
        → Keeps (IsAccounted most) (read_at host handle offset capacity)
    unfolding read_at
    read_at-IsAccounted handle offset capacity =
        search (keeps, file_node-IsAccounted, told-IsAccounted) depth 8

    pub write_at-IsAccounted :
        (handle offset : ℕ) (written : List ℕ)
        → Keeps (IsAccounted most) (write_at host handle offset written)
    unfolding write_at
    write_at-IsAccounted handle offset written =
        file_node-IsAccounted handle write_flag giving λ id.
        change-IsAccounted host id _ _ (write_content-IsBounded host.heap offset written)

    pub set_file_size-IsAccounted :
        (handle size : ℕ) → Keeps (IsAccounted most) (set_file_size host handle size)
    unfolding set_file_size
    set_file_size-IsAccounted handle size =
        search (keeps, file_node-IsAccounted, resized-IsAccounted)

    pub set_file_mode-IsAccounted :
        (handle mode : ℕ) → Keeps (IsAccounted most) (set_file_mode host handle mode)
    unfolding set_file_mode
    set_file_mode-IsAccounted handle mode =
        search (keeps, file_node-IsAccounted, set_mode_of-IsAccounted)

    pub set_file_times-IsAccounted :
        (handle : ℕ) (accessed modified : Option ℕ)
        → Keeps (IsAccounted most) (set_file_times host handle accessed modified)
    unfolding set_file_times
    set_file_times-IsAccounted handle accessed modified =
        search (keeps, file_node-IsAccounted, set_times_of-IsAccounted)

    pub lock_attempt-IsAccounted :
        (handle mode : ℕ) → Keeps (IsAccounted most) (lock_attempt host handle mode)
    unfolding lock_attempt
    lock_attempt-IsAccounted handle mode = search (keeps, file_node-IsAccounted, relock-IsAccounted)

    pub lock_range-IsAccounted :
        (handle offset size mode : ℕ)
        → Keeps (IsAccounted most) (lock_range host handle offset size mode)
    unfolding lock_range
    lock_range-IsAccounted handle offset size mode =
        search (keeps, file_node-IsAccounted, relock-IsAccounted)
