-- ===== src/MemFs/Content/Bounds.antt =====
-- How far an edit moves the size of a file.
use dotnet_pal_rs.Common.{
  ℕ, ◌+◌, ◌-◌, ◌≤◌, ◌<◌, ◌≡◌, ◌∙◌, refl, sym, ap, max, ltb, Bool, inl, inr, List, ◌++◌, length,
  take, replicate, arith, Bool-cases, Option-cases,
}
use dotnet_pal_rs.Common.Words.{checked_add}
use dotnet_pal_rs.Port.{Error, Result, ok, err, Result-cases}
use dotnet_pal_rs.MemFs.Exec.{Outcome, finished, failed, endless, ◌>>◌}
use dotnet_pal_rs.MemFs.Bytes.{resize, write, reserve}
use dotnet_pal_rs.MemFs.Bytes.Overwrite.{length-append, length-take, length-zeros}
use dotnet_pal_rs.MemFs.Bytes.Writes.{reserve_fits, write_lem}
use dotnet_pal_rs.MemFs.Content.{
  Heap, plain, pinned, Pinned, Store, content_len, set_size, prepare, resize_prepared,
  resize_content, write_prepared, write_content,
}
use dotnet_pal_rs.MemFs.Content.Preparation.{Content-cases, refused, kept, moved, prepare_cases}

-- The size behind an edit: within the room where the edit went through, and as it was where it failed.
abbrev pub IsBounded : {A : Type 0} → ℕ → ℕ → Outcome A × Store → Type 0
IsBounded size room (finished _, s) = content_len s.content ≤ size + room
IsBounded size room (failed _, s) = content_len s.content ≡ size
IsBounded size room (endless, s) = ⊥

length-resize :
    (grants : ℕ → Bool) (bytes : List ℕ) (size room : ℕ) {after : List ℕ}
    → resize grants bytes size room ≡ ok after
    → (length after ≡ size) × (size ≤ length bytes + room)
unfolding resize
length-resize grants bytes size room {after} e = elim (Bool-cases (ltb (length bytes) size)) [
  | inr small ↦
      let now : ok (take size bytes) ≡ ok after = sym (rw (small, resize)) ∙ e in
      let shape : take size bytes ≡ after = cc in
      let long = sym (ap length shape) ∙ length-take size bytes in
      (ground (arith, small, long), ground (arith, small))
  | inl grows ↦ elim (Result-cases (reserve grants (size - length bytes) room)) [
    | inr (cause, r) ↦
        let now : ◌≡◌ {A = Result (List ℕ)} (err cause) (ok after) =
          sym (rw (grows, r, resize)) ∙ e in
        cc
    | inl (u, r) ↦
        let now : ok (bytes ++ replicate (size - length bytes) 0) ≡ ok after =
          sym (rw (grows, r, resize)) ∙ e in
        let shape : bytes ++ replicate (size - length bytes) 0 ≡ after = cc in
        let long =
          sym (ap length shape) ∙ length-append bytes (replicate (size - length bytes) 0) in
        let fits = reserve_fits grants (size - length bytes) room r in
        (ground (arith, grows, long, length-zeros (size - length bytes)), ground (arith, fits))
  ]
]

pub resize_failed :
    (grants : ℕ → Bool) (bytes : List ℕ) (size room : ℕ) {cause : Error}
    → resize grants bytes size room ≡ err cause
    → length bytes < size
unfolding resize
resize_failed grants bytes size room {cause} e = elim (Bool-cases (ltb (length bytes) size)) [
  | inl grows ↦ ground (arith, grows)
  | inr small ↦ let now : ok (take size bytes) ≡ err cause = sym (rw (small, resize)) ∙ e in cc
]

module _ (heap : Heap) (room : ℕ) (s : Store) where
  -- A resize of plain bytes that `prepare` left.
  resize_plain :
      (size n : ℕ) (bytes : List ℕ)
      → s.content ≡ plain bytes
      → length bytes ≤ n
      → (length bytes < size → length bytes ≡ n)
      → IsBounded n room (resize_prepared heap size room s)
  unfolding resize_prepared
  resize_plain size n bytes c le short = elim (Result-cases (resize heap.grants bytes size room)) [
    | inl (after, r) ↦
        let (long, fits) = length-resize heap.grants bytes size room r in
        simp (c, r, resize_prepared) (omega (arith, long, fits))
    | inr (e, r) ↦
        let same : length bytes ≡ n = short (resize_failed heap.grants bytes size room r) in
        simp (c, r, resize_prepared) same
  ]

  resize_pinned :
      (size n : ℕ) (p : Pinned)
      → s.content ≡ pinned p
      → size ≤ n + room
      → IsBounded n room (resize_prepared heap size room s)
  unfolding resize_prepared set_size
  resize_pinned size n p c fits = simp (c, resize_prepared, set_size) fits

-- Resizing keeps within the room, and a refused one leaves the size.
pub resize_content-IsBounded :
    (heap : Heap) (size room : ℕ) (mapped : Bool) (s : Store)
    → IsBounded (content_len s.content) room (resize_content heap size room mapped s)
unfolding resize_content ◌>>◌
resize_content-IsBounded heap size room mapped s = elim (prepare_cases heap size room mapped s) [
  | refused e r ↦ rw r refl
  | kept r has_room ↦ elim (Content-cases s.content) [
    | inl (bytes, c) ↦ rw r (
        resize_plain heap room s size (content_len s.content) bytes c (simp c (omega arith))
          (λ _. simp c))
    | inr (p, c) ↦
        rw r (resize_pinned heap room s size (content_len s.content) p c (simp c (has_room p c)))
  ]
  | moved bytes r long has_room _ ↦ rw r (
      resize_plain heap room (record s { content = plain bytes }) size (content_len s.content) bytes
        refl (omega (arith, long)) (λ h. omega (arith, long)))
]

module _ (heap : Heap) (room : ℕ) (s : Store) (offset : ℕ) (written : List ℕ) (end : ℕ) where
  write_plain :
      (bytes : List ℕ)
      → s.content ≡ plain bytes
      → IsBounded (length bytes) room (write_prepared heap offset written room end s)
  unfolding write_prepared
  write_plain bytes c = elim (Result-cases (write heap.grants bytes offset written room)) [
    | inl ((n, after), r) ↦
        let (_, _, fits, _) = write_lem heap.grants bytes offset written room r in
        simp (c, r, write_prepared) fits
    | inr (e, r) ↦ simp (c, r, write_prepared)
  ]

  write_pinned :
      (p : Pinned)
      → s.content ≡ pinned p
      → end ≤ p.size + room
      → IsBounded p.size room (write_prepared heap offset written room end s)
  unfolding write_prepared set_size
  write_pinned p c fits = elim (Bool-cases (ltb p.size end)) [
    | inl grows ↦ simp (c, grows, write_prepared, set_size) fits
    | inr stays ↦ simp (c, stays, write_prepared) (omega arith)
  ]

-- Writing keeps within the room, and a refused write leaves the size.
pub write_content-IsBounded :
    (heap : Heap) (offset : ℕ) (written : List ℕ) (room : ℕ) (mapped : Bool) (s : Store)
    → IsBounded (content_len s.content) room (write_content heap offset written room mapped s)
unfolding write_content ◌>>◌
write_content-IsBounded heap offset written room mapped s =
    elim (Option-cases (checked_add offset (length written))) [
      | inl over ↦ rw (over, write_content) refl
      | inr (end, fits) ↦ rw (fits, write_content) (bounded end)
    ]
  where
    bounded :
        (end : ℕ)
        → IsBounded (content_len s.content) room (
            (prepare heap (max end (content_len s.content)) room mapped
                >> write_prepared heap offset written room end)
              s)
    bounded end = elim (prepare_cases heap (max end (content_len s.content)) room mapped s) [
      | refused e r ↦ rw r refl
      | kept r has_room ↦ elim (Content-cases s.content) [
        | inl (bytes, c) ↦ rw r (simp c (write_plain heap room s offset written end bytes c))
        | inr (p, c) ↦
            rw r (
              simp c
                (write_pinned heap room s offset written end p c (omega (arith, has_room p c))))
      ]
      | moved bytes r long has_room _ ↦
          let same : length bytes ≡ content_len s.content = omega (arith, long) in
          rw r (
            rw (← same) (
              write_plain heap room (record s { content = plain bytes }) offset written end bytes
                refl))
    ]
