-- ===== src/MemFs/Maps.antt =====
-- `BTreeMap` as the sources use it: entries in the order of their keys, each key once.
pub mod Sums
use dotnet_pal_rs.Common.{
  ℕ, zero, suc, ◌+◌, ◌≡◌, ◌≢◌, ◌∙◌, refl, sym, ap, ◌↔◌, ◌⊎◌, inl, inr, ltb, ◌==◌, if◌then◌else◌,
  Bool, true, false, ◌&&◌, ◌||◌, Option, none, some, List, [], ◌∷◌, arith, Bool-cases, ==_iff,
}

-- Keys: an equality test and the order of `Ord`.
pub record Key {ℓ} (K : Type ℓ) : Type ℓ where
  pub beq : K → K → Bool
  pub beq_iff : (a b : K) → (beq a b ≡ true) ↔ (a ≡ b)
  pub before : K → K → Bool

instance abbrev pub nat_key : Key ℕ
nat_key = record { beq = ◌==◌; beq_iff = ==_iff; before = ltb }

-- `[u8]` as a key: bytes compared one after the other, a prefix first.
abbrev pub name_eq : List ℕ → List ℕ → Bool
name_eq [] [] = true
name_eq [] (b ∷ bs) = false
name_eq (a ∷ as_) [] = false
name_eq (a ∷ as_) (b ∷ bs) = a == b && name_eq as_ bs

abbrev pub name_lt : List ℕ → List ℕ → Bool
name_lt as_ [] = false
name_lt [] (b ∷ bs) = true
name_lt (a ∷ as_) (b ∷ bs) = ltb a b || (a == b && name_lt as_ bs)

pub name_eq_iff : (a b : List ℕ) → (name_eq a b ≡ true) ↔ (a ≡ b)
name_eq_iff [] [] = (λ _. refl, λ _. refl)
name_eq_iff [] (b ∷ bs) = (λ h. cc, λ h. cc)
name_eq_iff (a ∷ as_) [] = (λ h. cc, λ h. cc)
name_eq_iff (a ∷ as_) (b ∷ bs) = ground (arith, name_eq_iff as_ bs)

instance abbrev pub name_key : Key (List ℕ)
name_key = record { beq = name_eq; beq_iff = name_eq_iff; before = name_lt }

-- Pairs, as the keys of the mappings.
abbrev pub pair_eq : ℕ × ℕ → ℕ × ℕ → Bool
pair_eq (a, b) (c, d) = a == c && b == d

pub pair_eq_iff : (x y : ℕ × ℕ) → (pair_eq x y ≡ true) ↔ (x ≡ y)
pair_eq_iff (a, b) (c, d) = ground arith

instance abbrev pub pair_key : Key (ℕ × ℕ)
pair_key = record {
  beq = pair_eq;
  beq_iff = pair_eq_iff;
  before = λ x y. ltb x.0 y.0 || (x.0 == y.0 && ltb x.1 y.1);
}

pub beq_refl {ℓ} : {K : Type ℓ} ⦃key : Key K⦄ (k : K) → key.beq k k ≡ true
beq_refl ⦃key⦄ k = (key.beq_iff k k).1 refl

module _ {ℓ κ} {K : Type ℓ} {V : Type κ} ⦃key : Key K⦄ where
  unfoldable pub lookup : K → List (K × V) → Option V
  lookup k [] = none
  lookup k ((j, v) ∷ m) = if key.beq k j then some v else lookup k m

  unfoldable pub remove : K → List (K × V) → List (K × V)
  remove k [] = []
  remove k ((j, v) ∷ m) = let rest = remove k m in if key.beq k j then rest else (j, v) ∷ rest

  -- Before the first key that is greater.
  unfoldable pub place : K → V → List (K × V) → List (K × V)
  place k v [] = (k, v) ∷ []
  place k v ((j, w) ∷ m) = if key.before k j then (k, v) ∷ (j, w) ∷ m else (j, w) ∷ place k v m

  unfoldable pub insert : K → V → List (K × V) → List (K × V)
  unfolding place remove
  insert k v m = place k v (remove k m)

  -- `contains_key`
  unfoldable pub contains : K → List (K × V) → Bool
  unfolding lookup
  contains k m = elim (lookup k m) [ none ↦ false | some _ ↦ true ]

  pub lookup-remove :
      (k j : K) (m : List (K × V))
      → lookup j (remove k m) ≡ (if key.beq k j then none else lookup j m)
  unfolding lookup remove
  lookup-remove k j [] = ground arith
  lookup-remove k j ((i, v) ∷ m) =
      ground (arith, key.beq_iff k j, key.beq_iff k i, key.beq_iff j i, lookup-remove k j m)

  pub lookup-place :
      (k j : K) (v : V) (m : List (K × V))
      → lookup k m ≡ none
      → lookup j (place k v m) ≡ (if key.beq k j then some v else lookup j m)
  unfolding lookup place
  lookup-place k j v [] h = ground (arith, key.beq_iff k j, key.beq_iff j k)
  lookup-place k j v ((i, w) ∷ m) h = ground (
    arith,
    key.beq_iff k j,
    key.beq_iff j k,
    key.beq_iff k i,
    key.beq_iff j i,
    lookup-place k j v m,
  )

  -- A lookup after an insertion.
  pub lookup-insert :
      (k j : K) (v : V) (m : List (K × V))
      → lookup j (insert k v m) ≡ (if key.beq k j then some v else lookup j m)
  unfolding insert
  lookup-insert k j v m =
      let gone : lookup k (remove k m) ≡ none = ground (arith, lookup-remove k k m, beq_refl k) in
      ground (arith, lookup-place k j v (remove k m) gone, lookup-remove k j m)
