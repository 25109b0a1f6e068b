-- ===== src/MemFs/Maps/Sums.antt =====
-- Sums over the values of a map.
use dotnet_pal_rs.Common.{
  ℕ, ◌+◌, ◌≡◌, refl, ap, Option, none, some, List, [], ◌∷◌, arith, Bool-cases, inl, inr,
}
use dotnet_pal_rs.MemFs.Maps.{
  Key, lookup, remove, place, insert, lookup-remove, lookup-place, beq_refl,
}

abbrev pub worth {κ} : {V : Type κ} → (V → ℕ) → Option V → ℕ
worth f none = 0
worth f (some v) = f v

module _ {ℓ κ} {K : Type ℓ} {V : Type κ} ⦃key : Key K⦄ where
  -- No key stands twice.
  abbrev pub HasUniqueKeys : List (K × V) → Type κ
  HasUniqueKeys [] = Unit
  HasUniqueKeys ((k, v) ∷ m) = (lookup k m ≡ none) × HasUniqueKeys m

  abbrev pub total : (V → ℕ) → List (K × V) → ℕ
  total f [] = 0
  total f ((k, v) ∷ m) = f v + total f m

  pub remove-HasUniqueKeys :
      (k : K) (m : List (K × V)) → HasUniqueKeys m → HasUniqueKeys (remove k m)
  unfolding remove
  remove-HasUniqueKeys k [] h = tt
  remove-HasUniqueKeys k ((j, v) ∷ m) h =
      ground (arith, key.beq_iff k j, lookup-remove k j m, remove-HasUniqueKeys k m h.1)

  place-HasUniqueKeys :
      (k : K) (v : V) (m : List (K × V))
      → lookup k m ≡ none
      → HasUniqueKeys m
      → HasUniqueKeys (place k v m)
  unfolding place lookup
  place-HasUniqueKeys k v [] n h = (refl, tt)
  place-HasUniqueKeys k v ((j, w) ∷ m) n h =
      ground (arith, key.beq_iff k j, beq_refl k, lookup-place k j v m, place-HasUniqueKeys k v m)

  pub insert-HasUniqueKeys :
      (k : K) (v : V) (m : List (K × V)) → HasUniqueKeys m → HasUniqueKeys (insert k v m)
  unfolding insert
  insert-HasUniqueKeys k v m h =
      place-HasUniqueKeys k v (remove k m) (ground (arith, lookup-remove k k m, beq_refl k))
        (remove-HasUniqueKeys k m h)

  total-place :
      (f : V → ℕ) (k : K) (v : V) (m : List (K × V)) → total f (place k v m) ≡ f v + total f m
  unfolding place
  total-place f k v [] = refl
  total-place f k v ((j, w) ∷ m) = ground (arith, total-place f k v m)

  remove_absent : (k : K) (m : List (K × V)) → lookup k m ≡ none → remove k m ≡ m
  unfolding lookup remove
  remove_absent k [] h = refl
  remove_absent k ((j, v) ∷ m) h = ground (arith, remove_absent k m)

  -- Removing a key takes its value off the sum.
  pub total-remove :
      (f : V → ℕ) (k : K) (m : List (K × V))
      → HasUniqueKeys m
      → total f (remove k m) + worth f (lookup k m) ≡ total f m
  unfolding lookup remove
  total-remove f k [] h = omega arith
  total-remove f k ((j, v) ∷ m) h = elim (Bool-cases (key.beq k j)) [
    | inl here ↦
        let same : k ≡ j = (key.beq_iff k j).0 here in
        let rest : remove k m ≡ m = remove_absent k m (rw same h.0) in
        ground (arith, here, ap (total f) rest)
    | inr there ↦ ground (arith, there, total-remove f k m h.1)
  ]

  -- An insertion replaces the old value in the sum.
  pub total-insert :
      (f : V → ℕ) (k : K) (v : V) (m : List (K × V))
      → HasUniqueKeys m
      → total f (insert k v m) + worth f (lookup k m) ≡ f v + total f m
  unfolding insert
  total-insert f k v m h = omega (arith, total-place f k v (remove k m), total-remove f k m h)
