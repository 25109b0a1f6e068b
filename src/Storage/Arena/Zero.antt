-- ===== src/Storage/Arena/Zero.antt =====
-- `Arena::zero` on the ranges of live allocations.
use native.Mathlib.Decide.{ℕ_discrete}
use dotnet_pal_rs.Common.{
  ℕ, zero, suc, ◌+◌, ◌-◌, ◌*◌, ◌/◌, ◌≤◌, ◌<◌, ◌≡◌, ◌≢◌, ◌∙◌, ap, ◌⊎◌, inl, inr, List, some, true,
  false, get_or, arith, Bool-cases, Option-cases, ltb, leb, ◌==◌, ◌||◌, ◌&&◌, if◌then◌else◌,
}
use dotnet_pal_rs.Common.Words.{usize_max}
use dotnet_pal_rs.Port.{Error, ok, err, invalid_argument}
use dotnet_pal_rs.Storage.Arena.{Place, Arena, tail, granularity, capacity, clear, head_of, zeroes}
use dotnet_pal_rs.Storage.Arena.Validity.{IsValid, IsHead}
use dotnet_pal_rs.Storage.Arena.Blocks.{IsPlaced, live, live-IsHead, IsHead-live}

-- The walk down stops at the first block that is no tail.
head_of-some :
    (slots : List ℕ) (first : ℕ) {h : ℕ}
    → head_of slots first ≡ some h
    → (h ≤ first) × (get_or slots h 0 ≢ tail)
unfolding head_of
head_of-some slots zero e = ground arith
head_of-some slots (suc first) {h} e = elim (Bool-cases (get_or slots (suc first) 0 == tail)) [
  | inl t ↦
      let (le, no_tail) = head_of-some slots first (rw (t, head_of) at e) in (omega arith, no_tail)
  | inr t ↦ ground arith
]

head_of_inside :
    (slots : List ℕ) (head first : ℕ)
    → head ≤ first
    → get_or slots head 0 ≢ tail
    → ((j : ℕ) → head < j → j ≤ first → get_or slots j 0 ≡ tail)
    → head_of slots first ≡ some head
unfolding head_of
head_of_inside slots head zero le no_tail tails = let e : head ≡ 0 = omega arith in ground arith
head_of_inside slots head (suc first) le no_tail tails = elim (ℕ_discrete head (suc first)) [
  | yes e ↦ ground arith
  | no ne ↦
      let t = tails (suc first) (omega arith) (omega arith) in
      let below =
        head_of_inside slots head first (omega arith) no_tail λ j a b. tails j a (omega arith) in
      ground arith
]

-- The range lies in the allocation at `first`.
pub record Within (p : Place) (slots : List ℕ) (address size first : ℕ) : Type 0 where
  pub taken : 0 < live slots first
  pub starts : p.base + first * granularity ≤ address
  pub ends : address + size ≤ p.base + (first + live slots first) * granularity
  pub some_bytes : 0 < size

abbrev pub after_zero : Place → Arena → ℕ → ℕ → Arena
after_zero p s address size = record s { bytes = clear s.bytes (address - p.base) size }

zeroes_cases :
    (p : Place) (s : Arena) (address size : ℕ)
    → IsValid p.blocks s.slots
    → (zeroes p s address size ≡ (err invalid_argument, s))
      ⊎ ((first : ℕ) × Within p s.slots address size first
          × (zeroes p s address size ≡ (ok tt, after_zero p s address size)))
unfolding zeroes
zeroes_cases p s address size v =
    let offset : ℕ = address - p.base in
    elim (Bool-cases (leb p.base address)) [
      | inr low ↦ inl (rw (low, zeroes))
      | inl high ↦ elim (Bool-cases (leb (offset + size) usize_max)) [
        | inr over ↦ inl (rw (high, over, zeroes))
        | inl sum ↦ elim (Bool-cases (size == 0 || ltb (capacity p) (offset + size))) [
          | inl bad ↦ inl (rw (high, sum, bad, zeroes))
          | inr good ↦ elim (Option-cases (head_of s.slots (offset / granularity))) [
            | inl nothing ↦ inl (rw (high, sum, good, nothing, zeroes))
            | inr (first, found) ↦
                elim (Bool-cases (
                  get_or s.slots first 0 == 0
                  || ltb ((first + get_or s.slots first 0) * granularity) (offset + size))) [
                    | inl bad ↦ inl (rw (high, sum, good, found, bad, zeroes))
                    | inr fine ↦
                        let (le, no_tail) = head_of-some s.slots (offset / granularity) found in
                        let head : IsHead s.slots first = (ground arith, no_tail) in
                        let counted = IsHead-live s.slots first head in
                        inr (
                          first,
                          record {
                            taken = ground (arith, counted);
                            starts = ground (arith, le);
                            ends = rw counted (ground arith);
                            some_bytes = ground arith;
                          },
                          rw (high, sum, good, found, fine, zeroes),
                        )
                  ]
          ]
        ]
      ]
    ]

-- A refusal is `InvalidArgument` and changes nothing.
pub zeroes_refused :
    (p : Place) (s : Arena) (address size : ℕ) {e : Error} {t : Arena}
    → IsValid p.blocks s.slots
    → zeroes p s address size ≡ (err e, t)
    → (e ≡ invalid_argument) × (t ≡ s)
zeroes_refused p s address size v h = elim (zeroes_cases p s address size v) [
  | inl r ↦ (cc, cc)
  | inr (first, _, r) ↦ cc
]

module _ (p : Place) (s : Arena) (v : IsValid p.blocks s.slots) (address size : ℕ) where
  -- A call that succeeds has cleared the bytes of the range, which lies in one live allocation, and
  -- nothing else.
  pub zeroes_refines :
      {t : Arena}
      → zeroes p s address size ≡ (ok tt, t)
      → (first : ℕ) × Within p s.slots address size first
        × (t.slots ≡ s.slots)
        × ((j : ℕ)
            → t.bytes j ≡ (
                if leb address (p.base + j) && ltb (p.base + j) (address + size)
                then 0
                else s.bytes j))
  unfolding clear
  zeroes_refines {t} e = elim (zeroes_cases p s address size v) [
    | inl r ↦ cc
    | inr (first, w, r) ↦
        let same : t ≡ after_zero p s address size = cc in
        (first, w, ap (λ a. a.slots) same, λ j. ap (λ a. a.bytes j) same ∙ ground (arith, w.starts))
  ]

  -- Every range of a live allocation can be cleared.
  pub zeroes-Within :
      (first : ℕ)
      → IsPlaced p
      → Within p s.slots address size first
      → zeroes p s address size ≡ (ok tt, after_zero p s address size)
  unfolding zeroes
  zeroes-Within first placed w = rw (high, sum, good, found, fine, zeroes)
    where
      head : IsHead s.slots first
      head = live-IsHead s.slots first w.taken

      counted : live s.slots first ≡ get_or s.slots first 0
      counted = IsHead-live s.slots first head

      inside : first + get_or s.slots first 0 ≤ p.blocks
      inside = v.heads first head

      high : leb p.base address ≡ true
      high = ground (arith, w.starts)

      ends : address + size ≤ p.base + (first + get_or s.slots first 0) * granularity
      ends = rw (← counted) w.ends

      sum : leb (address - p.base + size) usize_max ≡ true
      sum = ground (arith, ends, inside, w.starts, placed.in_space)

      good : (size == 0 || ltb (capacity p) (address - p.base + size)) ≡ false
      good = ground (arith, ends, inside, w.starts, w.some_bytes)

      found : head_of s.slots ((address - p.base) / granularity) ≡ some first
      found =
          head_of_inside s.slots first _ (omega (arith, w.starts)) head.1
            λ j a b. v.tails first j head a (omega (arith, ends, w.starts, w.some_bytes))

      fine :
          (get_or s.slots first 0 == 0
            || ltb ((first + get_or s.slots first 0) * granularity) (address - p.base + size))
          ≡ false
      fine = ground (arith, ends, w.starts, head.0)
