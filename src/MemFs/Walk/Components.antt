-- ===== src/MemFs/Walk/Components.antt =====
-- `Pending::next` of crates/dotnet-pal-memfs/src/lib.rs takes bytes from its texts.
use dotnet_pal_rs.Common.{
  ℕ, zero, suc, ◌≤◌, ◌<◌, ◌≡◌, refl, sym, ap, Bool, false, not, ◌||◌, Option, none, some, List, [],
  ◌∷◌, length, take, drop, arith, Bool-cases, inl, inr, ◌⊎◌, ◌==◌,
}
use mathlib.Core.Path.{subst}
use dotnet_pal_rs.MemFs.Maps.{nat_key, name_key}
use dotnet_pal_rs.MemFs.Walk.{Pending, is_slash, position_or_end, next, weight}

length-drop : {A : Type 0} (n : ℕ) (xs : List A) → length (drop n xs) ≤ length xs
length-drop zero xs = omega arith
length-drop (suc n) [] = omega arith
length-drop (suc n) (x ∷ xs) = omega (arith, length-drop n xs)

-- Behind the slashes in front there is nothing, or a byte that is no slash.
drop_slashes :
    (text : List ℕ)
    → let rest = drop (position_or_end (λ b. not (is_slash b)) text) text in
      (rest ≡ [])
      ⊎ ((b : ℕ) × (bs : List ℕ) × (rest ≡ b ∷ bs)
          × (is_slash b ≡ false)
          × (length bs < length text))
drop_slashes [] = inl refl
drop_slashes (b ∷ bs) = elim (Bool-cases (is_slash b)) [
  | inr other ↦ rw (other, position_or_end) (inr (b, bs, refl, other, omega arith))
  | inl slash ↦
      rw (slash, position_or_end)
        (elim (drop_slashes bs) [
          | inl nothing ↦ inl nothing
          | inr (c, cs, e, other, less) ↦ inr (c, cs, e, other, omega (arith, less))
        ])
]

-- A component takes at least one byte.
abbrev pub TakesBytes : ℕ → Option (List ℕ) × Pending → Type 0
TakesBytes m r = elim r.0 [ none ↦ Unit | some name ↦ weight r.1.texts < m ]

TakesBytes-mono :
    (m n : ℕ) (r : Option (List ℕ) × Pending) → m ≤ n → TakesBytes m r → TakesBytes n r
TakesBytes-mono m n (none, left) le h = tt
TakesBytes-mono m n (some name, left) le h = omega (arith, le, h)

pub next_lem : (texts : List (List ℕ)) (slash : Bool) → TakesBytes (weight texts) (next texts slash)
unfolding next
next_lem [] slash = tt
next_lem (whole ∷ outer) slash = elim (drop_slashes whole) [
  | inl nothing ↦
      let after = slash || not (position_or_end (λ b. not (is_slash b)) whole == 0) in
      let now : next (whole ∷ outer) slash ≡ next outer after = rw (nothing, next) refl in
      subst (TakesBytes (weight (whole ∷ outer))) (sym now) (
        TakesBytes-mono (weight outer) (weight (whole ∷ outer)) (next outer after) (omega arith)
          (next_lem outer after))
  | inr (b, bs, e, other, less) ↦
      let end = position_or_end is_slash (b ∷ bs) in
      let now : next (whole ∷ outer) slash ≡ (
        some (take end (b ∷ bs)),
        record { texts = drop end (b ∷ bs) ∷ outer; slash = false },
      ) =
        ap
          (λ (rest : List ℕ). elim rest as (λ _. Option (List ℕ) × Pending) [
            | [] ↦ next outer (slash || not (position_or_end (λ c. not (is_slash c)) whole == 0))
            | _ ∷ _ ↦ (
              some (take (position_or_end is_slash rest) rest),
              record { texts = drop (position_or_end is_slash rest) rest ∷ outer; slash = false },
            )
          ])
          e in
      let shorter : length (drop end (b ∷ bs)) < length whole =
        rw (other) (omega (arith, length-drop (position_or_end is_slash bs) bs, less)) in
      subst (TakesBytes (weight (whole ∷ outer))) (sym now) (omega (arith, shorter))
]
