-- ===== src/Storage/Ledger/Validity.antt =====
-- The invariant of the ledger, and what changes of its entries do to it.
use dotnet_pal_rs.Common.{
  ℕ, ◌+◌, ◌-◌, ◌≤◌, ◌<◌, ◌≡◌, ◌≢◌, ◌∙◌, sym, ap, ◌⊎◌, inl, inr, List, length, set, arith,
}
use dotnet_pal_rs.Common.Words.{usize_max}
use dotnet_pal_rs.Storage.Ledger.{Region, empty, initial, max_regions}
use dotnet_pal_rs.Storage.Ledger.Regions.{
  region, total, total-set, total-replicate, region-replicate, region-set,
}

abbrev pub Apart : Region → Region → Type 0
Apart a b = (a.base + a.size ≤ b.base) ⊎ (b.base + b.size ≤ a.base)

-- The regions account for every owned byte, within the budget. Each lies in the address space and
-- not at null, and no two of them meet.
pub record IsValid (capacity : ℕ) (regions : List Region) (owned : ℕ) : Type 0 where
  pub counted : owned ≡ total regions
  pub budget : owned ≤ capacity
  pub placed :
      (i : ℕ)
      → 0 < (region regions i).size
      → (0 < (region regions i).base)
        × ((region regions i).base + (region regions i).size ≤ usize_max)
  pub apart :
      (i j : ℕ)
      → i ≢ j
      → 0 < (region regions i).size
      → 0 < (region regions j).size
      → Apart (region regions i) (region regions j)

pub initial-IsValid :
    (capacity : ℕ) {W : Type 0} (w : W) (bytes : ℕ → ℕ)
    → IsValid capacity (initial w bytes).regions (initial w bytes).owned
unfolding initial
initial-IsValid capacity w bytes = record {
  counted = sym (total-replicate max_regions);
  budget = omega arith;
  placed = λ i h. absurd (omega (arith, ap (λ r. r.size) (region-replicate max_regions i)));
  apart = λ i j _ h. absurd (omega (arith, ap (λ r. r.size) (region-replicate max_regions i)));
}

Apart-symm : (a b : Region) → Apart a b → Apart b a
Apart-symm a b (inl h) = inr h
Apart-symm a b (inr h) = inl h

module _ {capacity : ℕ} {regions : List Region} {owned : ℕ} (v : IsValid capacity regions owned)
    (index : ℕ) (inside : index < length regions) where
  -- A fresh region in an empty entry.
  pub enter-IsValid :
      (r : Region)
      → (region regions index).size ≡ 0
      → owned + r.size ≤ capacity
      → 0 < r.base
      → r.base + r.size ≤ usize_max
      → ((i : ℕ) → 0 < (region regions i).size → Apart r (region regions i))
      → IsValid capacity (set regions index r) (owned + r.size)
  enter-IsValid r free fits not_null in_space far = record {
    counted = omega (arith, total-set regions index r inside, v.counted);
    budget = fits;
    placed = λ i h. elim (region-set regions index r i inside) [
      | inl (_, e) ↦ rw e (not_null, in_space)
      | inr (_, e) ↦ rw e (v.placed i (rw e at h))
    ];
    apart = λ i j ne hi hj. elim (region-set regions index r i inside) [
      | inl (ei, e) ↦ elim (region-set regions index r j inside) [
        | inl (ej, _) ↦ absurd (ne (ei ∙ sym ej))
        | inr (_, e') ↦ rw (e, e') (far j (rw e' at hj))
      ]
      | inr (ni, e) ↦ elim (region-set regions index r j inside) [
        | inl (_, e') ↦ rw (e, e') (Apart-symm r (region regions i) (far i (rw e at hi)))
        | inr (_, e') ↦ rw (e, e') (v.apart i j ne (rw e at hi) (rw e' at hj))
      ]
    ];
  }

  -- An entry emptied.
  pub leave-IsValid :
      IsValid capacity (set regions index empty) (owned - (region regions index).size)
  leave-IsValid = record {
    counted = omega (arith, total-set regions index empty inside, v.counted);
    budget = omega (arith, v.budget);
    placed = λ i h. elim (region-set regions index empty i inside) [
      | inl (_, e) ↦ absurd (omega (arith, ap (λ r. r.size) e))
      | inr (_, e) ↦ rw e (v.placed i (rw e at h))
    ];
    apart = λ i j ne hi hj. elim (region-set regions index empty i inside) [
      | inl (_, e) ↦ absurd (omega (arith, ap (λ r. r.size) e))
      | inr (_, e) ↦ elim (region-set regions index empty j inside) [
        | inl (_, e') ↦ absurd (omega (arith, ap (λ r. r.size) e'))
        | inr (_, e') ↦ rw (e, e') (v.apart i j ne (rw e at hi) (rw e' at hj))
      ]
    ];
  }
