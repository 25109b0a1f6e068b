-- ===== src/MemFs/Content/Preparation.antt =====
-- How `prepare` of crates/dotnet-pal-memfs/src/lib.rs ends.
use dotnet_pal_rs.Common.{
  ℕ, zero, suc, ◌+◌, ◌-◌, ◌/◌, ◌≤◌, ◌≡◌, ◌∙◌, refl, ap, min, ltb, leb, if◌then◌else◌, Bool, true,
  false, not, ◌&&◌, ◌⊎◌, inl, inr, List, length, arith, Bool-cases,
}
use dotnet_pal_rs.Port.{Error, no_space}
use dotnet_pal_rs.MemFs.Exec.{finished, failed, Exec}
use dotnet_pal_rs.MemFs.Content.{
  Heap, Content, plain, pinned, Pinned, Store, content_len, peek, unpin, prepare, tolerate,
}

-- A content is of one of two kinds.
pub Content-cases :
    (c : Content) → ((bytes : List ℕ) × (c ≡ plain bytes)) ⊎ ((p : Pinned) × (c ≡ pinned p))
Content-cases (plain bytes) = inl (bytes, refl)
Content-cases (pinned p) = inr (p, refl)

pub length-peek : (memory : ℕ → ℕ) (base n : ℕ) → length (peek memory base n) ≡ n
length-peek memory base zero = refl
length-peek memory base (suc n) = omega (arith, length-peek memory (suc base) n)

tolerate_finished :
    (outgrown : Bool) (call : Exec Store (Unit {0})) (s : Store) {t : Store}
    → call s ≡ (finished tt, t)
    → tolerate outgrown call s ≡ (finished tt, t)
tolerate_finished outgrown call s e =
    rw (ap (λ x. x.0) e, tolerate) (ap (λ x. (finished tt, x.1)) e)

tolerate_failed :
    (outgrown : Bool) (call : Exec Store (Unit {0})) (s : Store) (cause : Error) {t : Store}
    → call s ≡ (failed cause, t)
    → tolerate outgrown call s ≡ ((if outgrown then failed cause else finished tt), t)
tolerate_failed outgrown call s cause e =
    rw (ap (λ x. x.0) e, tolerate)
      (ap (λ x. ((if outgrown then failed cause else finished tt), x.1)) e)

unpin_granted :
    (heap : Heap) (wanted : ℕ) (s : Store) (p : Pinned)
    → s.content ≡ pinned p
    → heap.grants wanted ≡ true
    → unpin heap wanted s
      ≡ (finished tt, record s { content = plain (peek s.memory p.base (min p.size wanted)) })
unfolding unpin
unpin_granted heap wanted s p c g = simp (c, g, unpin)

unpin_denied :
    (heap : Heap) (wanted : ℕ) (s : Store) (p : Pinned)
    → s.content ≡ pinned p
    → heap.grants wanted ≡ false
    → unpin heap wanted s ≡ (failed no_space, s)
unfolding unpin
unpin_denied heap wanted s p c g = simp (c, g, unpin)

module _ (heap : Heap) (wanted room : ℕ) (mapped : Bool) (s : Store) where
  -- How `prepare` ends: it fails and changes nothing; it changes nothing, with room for what is wanted
  -- where the file is pinned; or it moves the bytes, cut to what is wanted.
  pub data Prepared : Type 0 where
    refused : (e : Error) → prepare heap wanted room mapped s ≡ (failed e, s) → Prepared
    kept :
        prepare heap wanted room mapped s ≡ (finished tt, s)
        → ((p : Pinned) → s.content ≡ pinned p → wanted ≤ p.size + room)
        → Prepared
    moved :
        (bytes : List ℕ)
        → prepare heap wanted room mapped s ≡ (finished tt, record s { content = plain bytes })
        → length bytes ≡ min (content_len s.content) wanted
        → wanted ≤ content_len s.content + room
        → ((p : Pinned) × (s.content ≡ pinned p)
            × (bytes ≡ peek s.memory p.base (min p.size wanted)))
        → Prepared

  leave :
      (p : Pinned)
      → s.content ≡ pinned p
      → ((q : Pinned) → s.content ≡ pinned q → wanted ≤ q.size + room)
      → prepare heap wanted room mapped s ≡ tolerate (ltb p.capacity wanted) (unpin heap wanted) s
      → Prepared
  leave p c has_room runs = elim (Bool-cases (heap.grants wanted)) [
    | inl granted ↦
        moved (peek s.memory p.base (min p.size wanted))
          (runs
            ∙ tolerate_finished (ltb p.capacity wanted) (unpin heap wanted) s
                (unpin_granted heap wanted s p c granted))
          (length-peek s.memory p.base (min p.size wanted) ∙ simp c) (rw c (has_room p c))
          (p, c, refl)
    | inr denied ↦
        let tried =
          runs
          ∙ tolerate_failed (ltb p.capacity wanted) (unpin heap wanted) s no_space
              (unpin_denied heap wanted s p c denied) in
        elim (Bool-cases (ltb p.capacity wanted)) [
          | inl over ↦ refused no_space (tried ∙ rw over)
          | inr within ↦ kept (tried ∙ rw within) has_room
        ]
  ]

  pub prepare_cases : Prepared
  unfolding prepare
  prepare_cases = elim (Content-cases s.content) [
    | inl (bytes, c) ↦ kept (simp (c, prepare)) (λ p e. cc)
    | inr (p, c) ↦ elim (Bool-cases (ltb room (wanted - p.size))) [
      | inl full ↦ refused no_space (simp (c, full, prepare))
      | inr fits ↦
          let has_room : (q : Pinned) → s.content ≡ pinned q → wanted ≤ q.size + room =
            λ q e. let same : q ≡ p = cc in rw same (ground (arith, fits)) in
          elim (Bool-cases mapped) [
            | inl m ↦ elim (Bool-cases (ltb p.capacity wanted)) [
              | inl over ↦ refused no_space (simp (c, fits, m, over, prepare))
              | inr within ↦ kept (simp (c, fits, m, within, prepare)) has_room
            ]
            | inr free ↦
                elim (Bool-cases
                  (not (ltb p.capacity wanted) && not (leb wanted (p.capacity / 2)))) [
                    | inl stays ↦ kept (simp (c, fits, free, stays, prepare)) has_room
                    | inr leaves ↦
                        let runs : prepare heap wanted room mapped s
                            ≡ tolerate (ltb p.capacity wanted) (unpin heap wanted) s =
                          simp (c, fits, free, leaves, prepare) in
                        leave p c has_room runs
                  ]
          ]
    ]
  ]
