-- ===== src/Common/Lists.antt =====
-- Lists as the arrays and slices of the source: indexed, measured and filled with native numbers.
use Prim.Native.Nat.{ℕ, zero, suc, ◌+◌, ◌≤◌, ◌<◌}
use mathlib.Core.Path.{◌≡◌, refl, ap}
use mathlib.Core.Logic.{◌≢◌, ◌⊎◌, inl, inr}
use mathlib.Core.Bool.{Bool, true, false, ◌||◌}
use mathlib.Core.List.{List, [], ◌∷◌}
use mathlib.Core.Option
use mathlib.Core.Option.{Option, none, some}
use native.Mathlib.Omega.{arith}
use dotnet_pal_rs.Common.Tests.{if◌then◌else◌, Bool-cases}

module _ {ℓ} {A : Type ℓ} where
  abbrev pub length : List A → ℕ
  length [] = 0
  length (_ ∷ xs) = suc (length xs)

  abbrev pub get_or : List A → ℕ → A → A
  get_or [] _ d = d
  get_or (x ∷ _) zero _ = x
  get_or (_ ∷ xs) (suc i) d = get_or xs i d

  abbrev pub set : List A → ℕ → A → List A
  set [] _ _ = []
  set (_ ∷ xs) zero v = v ∷ xs
  set (x ∷ xs) (suc i) v = x ∷ set xs i v

  abbrev pub take : ℕ → List A → List A
  take zero _ = []
  take (suc n) [] = []
  take (suc n) (x ∷ xs) = x ∷ take n xs

  abbrev pub drop : ℕ → List A → List A
  drop zero xs = xs
  drop (suc n) [] = []
  drop (suc n) (_ ∷ xs) = drop n xs

  abbrev pub replicate : ℕ → A → List A
  replicate zero a = []
  replicate (suc n) a = a ∷ replicate n a

  -- `xs[i..i + n].fill(v)`; what lies beyond the end of the list is not there to fill.
  abbrev pub fill : List A → ℕ → ℕ → A → List A
  fill [] i n v = []
  fill (x ∷ xs) zero zero v = x ∷ xs
  fill (x ∷ xs) zero (suc n) v = v ∷ fill xs zero n v
  fill (x ∷ xs) (suc i) n v = x ∷ fill xs i n v

  -- `xs.iter().position(p)`
  abbrev pub position : (A → Bool) → List A → Option ℕ
  position p [] = none
  position p (x ∷ xs) = if p x then some 0 else Option.map suc (position p xs)

  -- `xs.iter().any(p)`
  abbrev pub any : (A → Bool) → List A → Bool
  any p [] = false
  any p (x ∷ xs) = p x || any p xs

module _ {ℓ} {A : Type ℓ} where
  pub length-set : (xs : List A) (i : ℕ) (v : A) → length (set xs i v) ≡ length xs
  length-set [] i v = refl
  length-set (x ∷ xs) zero v = refl
  length-set (x ∷ xs) (suc i) v = ap suc (length-set xs i v)

  pub get_or-set_self :
      (xs : List A) (i : ℕ) (v d : A) → i < length xs → get_or (set xs i v) i d ≡ v
  get_or-set_self [] i v d h = elim h [ ]
  get_or-set_self (x ∷ xs) zero v d h = refl
  get_or-set_self (x ∷ xs) (suc i) v d h = get_or-set_self xs i v d (omega arith)

  pub get_or-set_ne :
      (xs : List A) (i j : ℕ) (v d : A) → i ≢ j → get_or (set xs i v) j d ≡ get_or xs j d
  get_or-set_ne [] i j v d h = refl
  get_or-set_ne (x ∷ xs) zero zero v d h = absurd (h refl)
  get_or-set_ne (x ∷ xs) zero (suc j) v d h = refl
  get_or-set_ne (x ∷ xs) (suc i) zero v d h = refl
  get_or-set_ne (x ∷ xs) (suc i) (suc j) v d h = get_or-set_ne xs i j v d (λ e. h (ap suc e))

  pub length-fill : (xs : List A) (i n : ℕ) (v : A) → length (fill xs i n v) ≡ length xs
  length-fill [] i n v = refl
  length-fill (x ∷ xs) zero zero v = refl
  length-fill (x ∷ xs) zero (suc n) v = ap suc (length-fill xs zero n v)
  length-fill (x ∷ xs) (suc i) n v = ap suc (length-fill xs i n v)

  pub get_or-fill_in :
      (xs : List A) (i n j : ℕ) (v d : A)
      → i ≤ j
      → j < i + n
      → j < length xs
      → get_or (fill xs i n v) j d ≡ v
  get_or-fill_in [] i n j v d a b c = elim c [ ]
  get_or-fill_in (x ∷ xs) zero zero j v d a b c = absurd (omega arith)
  get_or-fill_in (x ∷ xs) zero (suc n) zero v d a b c = refl
  get_or-fill_in (x ∷ xs) zero (suc n) (suc j) v d a b c =
      get_or-fill_in xs zero n j v d (omega arith) (omega arith) (omega arith)
  get_or-fill_in (x ∷ xs) (suc i) n zero v d a b c = absurd (omega arith)
  get_or-fill_in (x ∷ xs) (suc i) n (suc j) v d a b c =
      get_or-fill_in xs i n j v d (omega arith) (omega arith) (omega arith)

  pub get_or-fill_out :
      (xs : List A) (i n j : ℕ) (v d : A)
      → (j < i) ⊎ (i + n ≤ j)
      → get_or (fill xs i n v) j d ≡ get_or xs j d
  get_or-fill_out [] i n j v d h = refl
  get_or-fill_out (x ∷ xs) zero zero j v d h = refl
  get_or-fill_out (x ∷ xs) zero (suc n) zero v d h = absurd (omega arith)
  get_or-fill_out (x ∷ xs) zero (suc n) (suc j) v d h =
      get_or-fill_out xs zero n j v d (inr (omega arith))
  get_or-fill_out (x ∷ xs) (suc i) n zero v d h = refl
  get_or-fill_out (x ∷ xs) (suc i) n (suc j) v d h = get_or-fill_out xs i n j v d (omega arith)

  pub get_or_beyond : (xs : List A) (i : ℕ) (d : A) → length xs ≤ i → get_or xs i d ≡ d
  get_or_beyond [] i d h = refl
  get_or_beyond (x ∷ xs) zero d h = absurd (omega arith)
  get_or_beyond (x ∷ xs) (suc i) d h = get_or_beyond xs i d (omega arith)

  pub ext_get_or :
      (xs ys : List A) (d : A)
      → length xs ≡ length ys
      → ((i : ℕ) → i < length xs → get_or xs i d ≡ get_or ys i d)
      → xs ≡ ys
  ext_get_or [] [] d e h = refl
  ext_get_or [] (y ∷ ys) d e h = absurd (omega arith)
  ext_get_or (x ∷ xs) [] d e h = absurd (omega arith)
  ext_get_or (x ∷ xs) (y ∷ ys) d e h =
      let head : x ≡ y = h zero (omega arith) in
      let rest : xs ≡ ys = ext_get_or xs ys d (omega arith) (λ i lt. h (suc i) (omega arith)) in cc

  -- A slice `xs[f..f + n]` read by its own index.
  pub get_or-slice :
      (xs : List A) (f n i j : ℕ) (d : A)
      → i < n
      → j ≡ f + i
      → get_or (take n (drop f xs)) i d ≡ get_or xs j d
  get_or-slice xs f zero i j d h e = elim h [ ]
  get_or-slice [] zero (suc n) i j d h e = refl
  get_or-slice [] (suc f) (suc n) i j d h e = refl
  get_or-slice (x ∷ xs) zero (suc n) zero zero d h e = refl
  get_or-slice (x ∷ xs) zero (suc n) zero (suc j) d h e = absurd (omega arith)
  get_or-slice (x ∷ xs) zero (suc n) (suc i) zero d h e = absurd (omega arith)
  get_or-slice (x ∷ xs) zero (suc n) (suc i) (suc j) d h e =
      get_or-slice xs zero n i j d (omega arith) (omega arith)
  get_or-slice (x ∷ xs) (suc f) (suc n) i zero d h e = absurd (omega arith)
  get_or-slice (x ∷ xs) (suc f) (suc n) i (suc j) d h e =
      get_or-slice xs f (suc n) i j d h (omega arith)

  pub length-slice : (xs : List A) (f n : ℕ) → f + n ≤ length xs → length (take n (drop f xs)) ≡ n
  length-slice [] zero zero h = refl
  length-slice [] zero (suc n) h = absurd (omega arith)
  length-slice [] (suc f) zero h = refl
  length-slice [] (suc f) (suc n) h = absurd (omega arith)
  length-slice (x ∷ xs) zero zero h = refl
  length-slice (x ∷ xs) zero (suc n) h = ap suc (length-slice xs zero n (omega arith))
  length-slice (x ∷ xs) (suc f) n h = length-slice xs f n (omega arith)

  -- What `position` answers, in either case.
  pub position-none :
      (p : A → Bool) (xs : List A) (i : ℕ) (d : A)
      → position p xs ≡ none
      → i < length xs
      → p (get_or xs i d) ≡ false
  position-none p [] i d e h = elim h [ ]
  position-none p (x ∷ xs) zero d e h = ground arith
  position-none p (x ∷ xs) (suc i) d e h = position-none p xs i d (ground arith) (omega arith)

  pub position-some :
      (p : A → Bool) (xs : List A) (i : ℕ) (d : A)
      → position p xs ≡ some i
      → (i < length xs) × (p (get_or xs i d) ≡ true)
  position-some p [] i d e = ground arith
  position-some p (x ∷ xs) zero d e = ground arith
  position-some p (x ∷ xs) (suc i) d e = ground (arith, position-some p xs i d)

  pub position_first :
      (p : A → Bool) (xs : List A) (i j : ℕ) (d : A)
      → position p xs ≡ some i
      → j < i
      → p (get_or xs j d) ≡ false
  position_first p [] i j d e h = ground arith
  position_first p (x ∷ xs) zero j d e h = elim h [ ]
  position_first p (x ∷ xs) (suc i) zero d e h = ground arith
  position_first p (x ∷ xs) (suc i) (suc j) d e h =
      position_first p xs i j d (ground arith) (omega arith)

  pub any-false :
      (p : A → Bool) (xs : List A) (i : ℕ) (d : A)
      → any p xs ≡ false
      → i < length xs
      → p (get_or xs i d) ≡ false
  any-false p [] i d e h = elim h [ ]
  any-false p (x ∷ xs) zero d e h = ground arith
  any-false p (x ∷ xs) (suc i) d e h = any-false p xs i d (ground arith) (omega arith)

  pub any-true :
      (p : A → Bool) (xs : List A) (d : A)
      → any p xs ≡ true
      → (i : ℕ) × (i < length xs) × (p (get_or xs i d) ≡ true)
  any-true p [] d e = cc
  any-true p (x ∷ xs) d e = elim (Bool-cases (p x)) [
    | inl h ↦ (0, omega arith, h)
    | inr h ↦ let (i, lt, found) = any-true p xs d (rw h at e) in (suc i, omega arith, found)
  ]
