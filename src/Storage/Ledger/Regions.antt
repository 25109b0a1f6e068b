-- ===== src/Storage/Ledger/Regions.antt =====
-- The regions of a ledger: their total, and what one entry reads after a change.
use native.Mathlib.Decide.{ℕ_discrete}
use dotnet_pal_rs.Common.{
  ℕ, zero, suc, ◌+◌, ◌<◌, ◌≡◌, List, [], ◌∷◌, get_or, set, length, replicate, arith, refl, sym, ◌≢◌,
  ◌⊎◌, inl, inr, get_or-set_self, get_or-set_ne,
}
use dotnet_pal_rs.Storage.Ledger.{Region, empty}

abbrev pub region : List Region → ℕ → Region
region rs i = get_or rs i empty

-- The bytes that the regions hold together.
abbrev pub total : List Region → ℕ
total [] = 0
total (r ∷ rs) = r.size + total rs

pub total-set :
    (rs : List Region) (i : ℕ) (r : Region)
    → i < length rs
    → total (set rs i r) + (region rs i).size ≡ total rs + r.size
total-set [] i r h = elim h [ ]
total-set (x ∷ rs) zero r h = omega arith
total-set (x ∷ rs) (suc i) r h = omega (arith, total-set rs i r (omega arith))

pub total-replicate : (n : ℕ) → total (replicate n empty) ≡ 0
total-replicate zero = refl
total-replicate (suc n) = omega (arith, total-replicate n)

pub region-replicate : (n i : ℕ) → region (replicate n empty) i ≡ empty
region-replicate zero i = refl
region-replicate (suc n) zero = refl
region-replicate (suc n) (suc i) = region-replicate n i

-- An entry after a write: the one written, or another, which stays.
pub region-set :
    (rs : List Region) (index : ℕ) (r : Region) (i : ℕ)
    → index < length rs
    → ((i ≡ index) × (region (set rs index r) i ≡ r))
      ⊎ ((i ≢ index) × (region (set rs index r) i ≡ region rs i))
region-set rs index r i h = elim (ℕ_discrete i index) [
  | yes e ↦ inl (e, rw e (get_or-set_self rs index r empty h))
  | no ne ↦ inr (ne, get_or-set_ne rs index i r empty (λ e. ne (sym e)))
]
