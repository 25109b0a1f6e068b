-- ===== src/MemFs/Locks/Loop.antt =====
-- The loop of `relock`, on the bytes that the locks hold.
use native.Mathlib.Decide.{ℕ_discrete}
use dotnet_pal_rs.Common.{
  ℕ, zero, suc, ◌+◌, ◌-◌, ◌*◌, ◌≤◌, ◌<◌, ◌≡◌, ◌∙◌, sym, refl, inl, inr, ltb, leb, ◌==◌, Bool, true,
  false, ◌&&◌, List, ◌++◌, any, length, arith, if◌then◌else◌, Bool-cases, ltb→lt,
}
use mathlib.Core.Path.{subst}
use dotnet_pal_rs.MemFs.Locks.{Lock, same, is_own, pieces, cut, swap_remove, at_index}
use dotnet_pal_rs.MemFs.Locks.Bytes.{
  Hold, covers, held, count, any-eq-count, count-append, count-swap_remove, length-swap_remove,
  get_or-swap_remove, get_or-append, length-append,
}

module _ (wanted : Lock) where
  -- The locks after one removal.
  abbrev replaced : List Lock → ℕ → List Lock
  replaced locks index =
      swap_remove locks index wanted ++ pieces wanted (at_index locks index wanted)

  count-replaced :
      (p : Lock → Bool) (locks : List Lock) (index : ℕ)
      → index < length locks
      → count p (replaced locks index) + (if p (at_index locks index wanted) then 1 else 0)
        ≡ count p locks + count p (pieces wanted (at_index locks index wanted))
  count-replaced p locks index h = omega (
    arith,
    count-swap_remove p locks index wanted h,
    count-append p (swap_remove locks index wanted) (pieces wanted (at_index locks index wanted)),
  )

  length-pieces : (l : Lock) → length (pieces wanted l) ≤ 2
  unfolding pieces
  length-pieces l = ground arith

  -- A piece is no lock of the owner's that meets the range.
  count-pieces_own : (l : Lock) → count (is_own wanted) (pieces wanted l) ≡ 0
  unfolding pieces is_own
  count-pieces_own l = ground arith

  -- Whether the request is about the byte.
  abbrev pub in_range : Hold → Bool
  in_range h =
      wanted.owner == h.owner
      && (same wanted.whole h.whole && (leb wanted.start h.byte && ltb h.byte wanted.end))

  -- The pieces hold what the lock held of the bytes beside the range.
  pieces_cover :
      (l : Lock) (h : Hold)
      → is_own wanted l ≡ true
      → in_range h ≡ false
      → any (covers h) (pieces wanted l) ≡ covers h l
  unfolding pieces is_own covers
  pieces_cover l h own out = ground arith

  replaced_holds :
      (locks : List Lock) (index : ℕ) (h : Hold)
      → index < length locks
      → is_own wanted (at_index locks index wanted) ≡ true
      → in_range h ≡ false
      → held (replaced locks index) h ≡ held locks h
  replaced_holds locks index h lt own out =
      any-eq-count (covers h) (replaced locks index)
      ∙ ground (
        arith,
        count-replaced (covers h) locks index lt,
        count-swap_remove (covers h) locks index wanted lt,
        pieces_cover (at_index locks index wanted) h own out,
        any-eq-count (covers h) (pieces wanted (at_index locks index wanted)),
        any-eq-count (covers h) locks,
      )

  -- The bytes beside the request stay as they were held, whatever the fuel.
  pub cut_keeps :
      (fuel index : ℕ) (locks : List Lock) (h : Hold)
      → in_range h ≡ false
      → held (cut wanted fuel index locks) h ≡ held locks h
  unfolding cut
  cut_keeps zero index locks h out = refl
  cut_keeps (suc fuel) index locks h out = elim (Bool-cases (ltb index (length locks))) [
    | inr done ↦ rw (done, cut)
    | inl more ↦ elim (Bool-cases (is_own wanted (at_index locks index wanted))) [
      | inr other ↦ rw (more, other, cut) (cut_keeps fuel (suc index) locks h out)
      | inl own ↦
          rw (more, own, cut)
            (cut_keeps fuel index (replaced locks index) h out
              ∙ replaced_holds locks index h (ground arith) own out)
    ]
  ]

  -- No lock before the index is one that the loop removes.
  abbrev Passed : ℕ → List Lock → Type 0
  Passed index locks =
      (j : ℕ) → j < index → j < length locks → is_own wanted (at_index locks j wanted) ≡ false

  -- What the loop still has to do.
  abbrev work : ℕ → List Lock → ℕ
  work index locks = length locks - index + 2 * count (is_own wanted) locks

  work-replaced :
      (locks : List Lock) (index : ℕ)
      → index < length locks
      → is_own wanted (at_index locks index wanted) ≡ true
      → work index (replaced locks index) < work index locks
  work-replaced locks index lt own =
      let l = at_index locks index wanted in
      ground (
        arith,
        own,
        count-replaced (is_own wanted) locks index lt,
        count-pieces_own (at_index locks index wanted),
        length-append (swap_remove locks index wanted)
            (pieces wanted (at_index locks index wanted)),
        length-swap_remove locks index wanted,
        length-pieces (at_index locks index wanted),
      )

  replaced-Passed :
      (locks : List Lock) (index : ℕ)
      → index < length locks
      → Passed index locks
      → Passed index (replaced locks index)
  replaced-Passed locks index lt passed j before _ =
      rw
        (
          get_or-append (swap_remove locks index wanted)
              (pieces wanted (at_index locks index wanted)) j wanted
              (omega (arith, length-swap_remove locks index wanted)),
          get_or-swap_remove locks index j wanted before lt,
        )
        (passed j before (omega arith))

  -- One round, by what it sees.
  cut_stop :
      (fuel index : ℕ) (locks : List Lock)
      → ltb index (length locks) ≡ false
      → cut wanted (suc fuel) index locks ≡ locks
  unfolding cut
  cut_stop fuel index locks done = rw (done, cut)

  cut_skip :
      (fuel index : ℕ) (locks : List Lock)
      → ltb index (length locks) ≡ true
      → is_own wanted (at_index locks index wanted) ≡ false
      → cut wanted (suc fuel) index locks ≡ cut wanted fuel (suc index) locks
  unfolding cut
  cut_skip fuel index locks more other = rw (more, other, cut)

  cut_replace :
      (fuel index : ℕ) (locks : List Lock)
      → ltb index (length locks) ≡ true
      → is_own wanted (at_index locks index wanted) ≡ true
      → cut wanted (suc fuel) index locks ≡ cut wanted fuel index (replaced locks index)
  unfolding cut
  cut_replace fuel index locks more own = rw (more, own, cut)

  abbrev pub IsClear : List Lock → Type 0
  IsClear locks = (j : ℕ) → j < length locks → is_own wanted (at_index locks j wanted) ≡ false

  -- With enough fuel the loop leaves no lock of the owner's that meets the request.
  pub cut_ends :
      (fuel index : ℕ) (locks : List Lock)
      → work index locks < fuel
      → Passed index locks
      → IsClear (cut wanted fuel index locks)
  cut_ends zero index locks lt passed = elim lt [ ]
  cut_ends (suc fuel) index locks lt passed = elim (Bool-cases (ltb index (length locks))) [
    | inr done ↦
        subst IsClear (sym (cut_stop fuel index locks done))
          (λ j inside. passed j (ground arith) inside)
    | inl more ↦ elim (Bool-cases (is_own wanted (at_index locks index wanted))) [
      | inl own ↦ subst IsClear (sym (cut_replace fuel index locks more own)) (
          cut_ends fuel index (replaced locks index)
            (omega (arith, work-replaced locks index (ltb→lt _ _ more) own))
            (replaced-Passed locks index (ltb→lt _ _ more) passed))
      | inr other ↦ subst IsClear (sym (cut_skip fuel index locks more other)) (
          cut_ends fuel (suc index) locks (ground arith) (λ j before inside.
            elim (ℕ_discrete j index) [
              | yes e ↦ rw e other
              | no ne ↦ passed j (omega arith) inside
            ]))
    ]
  ]
