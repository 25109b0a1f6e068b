-- ===== src/MemFs/Locks/Exclusion.antt =====
-- `relock` byte by byte, and the exclusion of handles from one another.
use native.Mathlib.Decide.{ℕ_discrete}
use dotnet_pal_rs.Common.{
  ℕ, ◌+◌, ◌*◌, ◌≡◌, ◌≢◌, inl, inr, ◌==◌, Bool, true, false, not, ◌&&◌, ◌||◌, List, [], ◌∷◌, ◌++◌,
  any, length, get_or, arith, if◌then◌else◌, Bool-cases, any-true, any-false,
}
use dotnet_pal_rs.Port.{ok}
use dotnet_pal_rs.MemFs.Locks.{Lock, same, meets, is_own, in_the_way, cut, lock_unlock, relock}
use dotnet_pal_rs.MemFs.Locks.Bytes.{Hold, covers, held, any-none, any-append, count-le-length}
use dotnet_pal_rs.MemFs.Locks.Loop.{in_range, cut_ends, cut_keeps}

-- A lock that holds a byte of the request for its owner is one that the loop removes.
covered_own :
    (wanted l : Lock) (h : Hold)
    → in_range wanted h ≡ true
    → is_own wanted l ≡ false
    → covers h l ≡ false
unfolding is_own covers
covered_own wanted l h inside other = ground arith

covers_wanted :
    (wanted : Lock) (h : Hold)
    → covers h wanted ≡ (in_range wanted h && same wanted.exclusive h.exclusive)
unfolding covers
covers_wanted wanted h = ground arith

cut_lem :
    (wanted : Lock) (locks : List Lock) (h : Hold)
    → held (cut wanted (3 * length locks + 1) 0 locks) h
      ≡ (if in_range wanted h then false else held locks h)
cut_lem wanted locks h = elim (Bool-cases (in_range wanted h)) [
  | inr out ↦ rw out (cut_keeps wanted _ 0 locks h out)
  | inl inside ↦ rw inside (
      any-none (covers h) _ wanted (λ i lt. covered_own wanted _ h inside (
        cut_ends wanted _ 0 locks (omega (arith, count-le-length (is_own wanted) locks))
          (λ j before. elim before [ ]) i lt)))
]

-- What a granted request has passed, and what it leaves.
relock_granted :
    (room : Bool) (locks : List Lock) (mode : ℕ) (wanted : Lock) {after : List Lock}
    → relock room locks mode wanted ≡ ok after
    → ((not (mode == lock_unlock) && any (in_the_way wanted) locks) ≡ false)
      × (after
          ≡ cut wanted (3 * length locks + 1) 0 locks
            ++ (if mode == lock_unlock then [] else wanted ∷ []))
unfolding relock
relock_granted room locks mode wanted e = ground arith

-- `relock` grants a request byte by byte: of the bytes of the request its owner then holds what was
-- asked for, or nothing after an unlock, and every other byte is held as before.
pub relock_bytes :
    (room : Bool) (locks : List Lock) (mode : ℕ) (wanted : Lock) {after : List Lock}
    → relock room locks mode wanted ≡ ok after
    → (h : Hold)
    → held after h ≡ (
        if in_range wanted h
        then not (mode == lock_unlock) && same wanted.exclusive h.exclusive
        else held locks h)
relock_bytes room locks mode wanted {after} e h =
    let (_, result) = relock_granted room locks mode wanted e in
    let tail = if mode == lock_unlock then [] else wanted ∷ [] in
    rw (result, any-append (covers h) (cut wanted (3 * length locks + 1) 0 locks) tail)
      (ground (arith, cut_lem wanted locks h, covers_wanted wanted h))

-- A lock that holds a byte of the request for another owner is in the way, if either is exclusive.
other_in_the_way :
    (wanted l : Lock) (h : Hold)
    → covers h l ≡ true
    → h.owner ≢ wanted.owner
    → in_range wanted (record h { owner = wanted.owner }) ≡ true
    → (wanted.exclusive || h.exclusive) ≡ true
    → in_the_way wanted l ≡ true
unfolding covers in_the_way meets
other_in_the_way wanted l h cover other inside either = ground arith

-- So nobody else held a byte of a granted request, if either is exclusive.
no_other :
    (room : Bool) (locks : List Lock) (mode : ℕ) (wanted : Lock) {after : List Lock} (h : Hold)
    → relock room locks mode wanted ≡ ok after
    → mode ≢ lock_unlock
    → h.owner ≢ wanted.owner
    → in_range wanted (record h { owner = wanted.owner }) ≡ true
    → (wanted.exclusive || h.exclusive) ≡ true
    → held locks h ≡ false
no_other room locks mode wanted h e asks other inside either = elim (Bool-cases (held locks h)) [
  | inr free ↦ free
  | inl taken ↦
      let (i, lt, cover) = any-true (covers h) locks wanted taken in
      let blocked = other_in_the_way wanted (get_or locks i wanted) h cover other inside either in
      let (granted, _) = relock_granted room locks mode wanted e in
      let missed : any (in_the_way wanted) locks ≡ false = ground (arith, granted) in
      let free = any-false (in_the_way wanted) locks i wanted missed lt in cc
]

-- A byte that one handle holds exclusively is held by no other handle, in the same kind of lock.
abbrev pub IsExclusive : List Lock → Type 0
IsExclusive locks =
    (first second : ℕ) (whole exclusive : Bool) (byte : ℕ)
    → held locks (record { owner = first; whole = whole; exclusive = true; byte = byte }) ≡ true
    → held locks (record { owner = second; whole = whole; exclusive = exclusive; byte = byte })
      ≡ true
    → first ≡ second

-- The exclusion of handles from one another outlives every granted request.
pub relock-IsExclusive :
    (room : Bool) (locks : List Lock) (mode : ℕ) (wanted : Lock) {after : List Lock}
    → IsExclusive locks
    → relock room locks mode wanted ≡ ok after
    → IsExclusive after
relock-IsExclusive room locks mode wanted {after} v e first second whole exclusive byte a b =
    elim (Bool-cases (in_range wanted one)) [
      | inl in_one ↦ elim (Bool-cases (in_range wanted two)) [
        | inl in_two ↦ ground arith
        | inr out_two ↦ elim (ℕ_discrete second wanted.owner) [
          | yes owns ↦ ground arith
          | no other ↦
              let free =
                no_other room locks mode wanted two e (ground (arith, after_one)) other
                  (ground arith) (ground (arith, after_one)) in
              ground (arith, after_two)
        ]
      ]
      | inr out_one ↦ elim (Bool-cases (in_range wanted two)) [
        | inl in_two ↦ elim (ℕ_discrete first wanted.owner) [
          | yes owns ↦ ground arith
          | no other ↦
              let free =
                no_other room locks mode wanted one e (ground (arith, after_two)) other
                  (ground arith) (ground arith) in
              ground (arith, after_one)
        ]
        | inr out_two ↦
            v first second whole exclusive byte (ground (arith, after_one))
              (ground (arith, after_two))
      ]
    ]
  where
    one : Hold
    one = record { owner = first; whole = whole; exclusive = true; byte = byte }

    two : Hold
    two = record { owner = second; whole = whole; exclusive = exclusive; byte = byte }

    after_one : held after one ≡ (
        if in_range wanted one
        then not (mode == lock_unlock) && same wanted.exclusive true
        else held locks one)
    after_one = relock_bytes room locks mode wanted e one

    after_two : held after two ≡ (
        if in_range wanted two
        then not (mode == lock_unlock) && same wanted.exclusive exclusive
        else held locks two)
    after_two = relock_bytes room locks mode wanted e two
