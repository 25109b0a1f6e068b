-- ===== src/MemFs/Locks/Bytes.antt =====
-- Which bytes a list of locks holds, for whom and how.
use native.Mathlib.Decide.{dec_lt}
use dotnet_pal_rs.Common.{
  get_or-set_ne, ℕ, zero, suc, ◌+◌, ◌-◌, ◌≤◌, ◌<◌, ◌≡◌, ◌∙◌, refl, ap, ltb, leb, ◌==◌, Bool, false,
  ◌&&◌, ◌||◌, List, [], ◌∷◌, ◌++◌, any, length, get_or, set, arith, if◌then◌else◌, length-set,
}
use dotnet_pal_rs.MemFs.Locks.{Lock, same, drop_last, last_or, swap_remove}

-- One byte of a file, and a way to hold it.
pub record Hold : Type 0 where
  pub owner : ℕ
  pub whole : Bool
  pub exclusive : Bool
  pub byte : ℕ

unfoldable pub covers : Hold → Lock → Bool
covers h l =
    l.owner == h.owner
    && (same l.whole h.whole
        && (same l.exclusive h.exclusive && (leb l.start h.byte && ltb h.byte l.end)))

-- Whether some lock holds the byte so.
abbrev pub held : List Lock → Hold → Bool
held locks h = any (covers h) locks

module _ {ℓ} {A : Type ℓ} where
  pub any-append : (p : A → Bool) (xs ys : List A) → any p (xs ++ ys) ≡ (any p xs || any p ys)
  any-append p [] ys = refl
  any-append p (x ∷ xs) ys = ground (arith, any-append p xs ys)

  pub length-drop_last : (xs : List A) → length (drop_last xs) ≡ length xs - 1
  length-drop_last [] = omega arith
  length-drop_last (x ∷ []) = omega arith
  length-drop_last (x ∷ (y ∷ xs)) = omega (arith, length-drop_last (y ∷ xs))

  -- How many entries pass a test.
  abbrev pub count : (A → Bool) → List A → ℕ
  count p [] = 0
  count p (x ∷ xs) = (if p x then 1 else 0) + count p xs

  pub any-eq-count : (p : A → Bool) (xs : List A) → any p xs ≡ ltb 0 (count p xs)
  any-eq-count p [] = refl
  any-eq-count p (x ∷ xs) = ground (arith, any-eq-count p xs)

  pub count-append : (p : A → Bool) (xs ys : List A) → count p (xs ++ ys) ≡ count p xs + count p ys
  count-append p [] ys = omega arith
  count-append p (x ∷ xs) ys = omega (arith, count-append p xs ys)

  pub count-le-length : (p : A → Bool) (xs : List A) → count p xs ≤ length xs
  count-le-length p [] = omega arith
  count-le-length p (x ∷ xs) = ground (arith, count-le-length p xs)

  count-drop_last :
      (p : A → Bool) (xs : List A) (d : A)
      → 0 < length xs
      → count p xs ≡ count p (drop_last xs) + (if p (last_or xs d) then 1 else 0)
  count-drop_last p [] d h = elim h [ ]
  count-drop_last p (x ∷ []) d h = omega arith
  count-drop_last p (x ∷ (y ∷ xs)) d h = omega (arith, count-drop_last p (y ∷ xs) d (omega arith))

  count-set :
      (p : A → Bool) (xs : List A) (i : ℕ) (v d : A)
      → i < length xs
      → count p (set xs i v) + (if p (get_or xs i d) then 1 else 0)
        ≡ count p xs + (if p v then 1 else 0)
  count-set p [] i v d h = elim h [ ]
  count-set p (x ∷ xs) zero v d h = omega arith
  count-set p (x ∷ xs) (suc i) v d h = omega (arith, count-set p xs i v d (omega arith))

  set_beyond : (xs : List A) (i : ℕ) (v : A) → length xs ≤ i → set xs i v ≡ xs
  set_beyond [] i v h = refl
  set_beyond (x ∷ xs) zero v h = absurd (omega arith)
  set_beyond (x ∷ xs) (suc i) v h = ap (◌∷◌ x) (set_beyond xs i v (omega arith))

  get_or-drop_last :
      (xs : List A) (i : ℕ) (d : A) → suc i < length xs → get_or (drop_last xs) i d ≡ get_or xs i d
  get_or-drop_last [] i d h = elim h [ ]
  get_or-drop_last (x ∷ []) i d h = absurd (omega arith)
  get_or-drop_last (x ∷ (y ∷ xs)) zero d h = refl
  get_or-drop_last (x ∷ (y ∷ xs)) (suc i) d h = get_or-drop_last (y ∷ xs) i d (omega arith)

  last_or-eq : (xs : List A) (d : A) (i : ℕ) → length xs ≡ suc i → last_or xs d ≡ get_or xs i d
  last_or-eq [] d i h = absurd (omega arith)
  last_or-eq (x ∷ []) d zero h = refl
  last_or-eq (x ∷ []) d (suc i) h = absurd (omega arith)
  last_or-eq (x ∷ (y ∷ xs)) d zero h = absurd (omega arith)
  last_or-eq (x ∷ (y ∷ xs)) d (suc i) h = last_or-eq (y ∷ xs) d i (omega arith)

  -- What is left without the entry at the index.
  pub count-swap_remove :
      (p : A → Bool) (xs : List A) (i : ℕ) (d : A)
      → i < length xs
      → count p xs ≡ count p (swap_remove xs i d) + (if p (get_or xs i d) then 1 else 0)
  count-swap_remove p xs i d h = elim (dec_lt (suc i) (length xs)) [
    | yes lt ↦
        let written =
          count-set p (drop_last xs) i (last_or xs d) d (omega (arith, length-drop_last xs)) in
        let read : get_or (drop_last xs) i d ≡ get_or xs i d = get_or-drop_last xs i d lt in
        omega (arith, (rw read at written), count-drop_last p xs d (omega arith))
    | no ge ↦
        let last : last_or xs d ≡ get_or xs i d = last_or-eq xs d i (omega arith) in
        let cut = set_beyond (drop_last xs) i (last_or xs d) (omega (arith, length-drop_last xs)) in
        rw (cut, ← last) (count-drop_last p xs d (omega arith))
  ]

  pub length-swap_remove :
      (xs : List A) (i : ℕ) (d : A) → length (swap_remove xs i d) ≡ length xs - 1
  length-swap_remove xs i d = length-set (drop_last xs) i (last_or xs d) ∙ length-drop_last xs

  -- The entries before the index stay.
  pub get_or-swap_remove :
      (xs : List A) (i j : ℕ) (d : A)
      → j < i
      → i < length xs
      → get_or (swap_remove xs i d) j d ≡ get_or xs j d
  get_or-swap_remove xs i j d a b =
      get_or-set_ne (drop_last xs) i j (last_or xs d) d (omega arith)
      ∙ get_or-drop_last xs j d (omega arith)

  pub get_or-append :
      (xs ys : List A) (i : ℕ) (d : A) → i < length xs → get_or (xs ++ ys) i d ≡ get_or xs i d
  get_or-append [] ys i d h = elim h [ ]
  get_or-append (x ∷ xs) ys zero d h = refl
  get_or-append (x ∷ xs) ys (suc i) d h = get_or-append xs ys i d (omega arith)

  pub length-append : (xs ys : List A) → length (xs ++ ys) ≡ length xs + length ys
  length-append [] ys = omega arith
  length-append (x ∷ xs) ys = omega (arith, length-append xs ys)

  -- Where every entry fails a test, none is counted.
  pub any-none :
      (p : A → Bool) (xs : List A) (d : A)
      → ((i : ℕ) → i < length xs → p (get_or xs i d) ≡ false)
      → any p xs ≡ false
  any-none p [] d h = refl
  any-none p (x ∷ xs) d h =
      ground (arith, h 0 (omega arith), any-none p xs d (λ i lt. h (suc i) (omega arith)))
