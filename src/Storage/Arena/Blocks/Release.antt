-- ===== src/Storage/Arena/Blocks/Release.antt =====
-- `Arena::release` on the map of live allocations.
use dotnet_pal_rs.Common.{
  ℕ, ◌-◌, ◌/◌, ◌%◌, ◌<◌, ◌≡◌, ◌∙◌, sym, refl, ap, ◌⊎◌, inl, inr, List, true, false, not, get_or,
  length, arith, Bool-cases, leb, ◌==◌, ◌||◌, if◌then◌else◌, fill, ext_get_or, length-fill,
}
use dotnet_pal_rs.Port.{Error, ok, err, invalid_argument}
use dotnet_pal_rs.Storage.Arena.{
  Place, Arena, tail, granularity, capacity, allocate, release, address_of,
}
use dotnet_pal_rs.Storage.Arena.Slots.{
  at_head, inside, outside, locate, claim_head, claim_outside, freed_inside, freed_outside,
  length-claim,
}
use dotnet_pal_rs.Storage.Arena.Validity.{IsValid, IsHead, freed-IsValid}
use dotnet_pal_rs.Storage.Arena.Blocks.{IsPlaced, live, live-IsHead, IsHead-live}
use dotnet_pal_rs.Storage.Arena.Blocks.Allocate.{Allocated, allocate-Allocated, allocate-IsValid}

-- An allocation of as many blocks as the size has starts at the address.
pub record Holds (p : Place) (slots : List ℕ) (address size first : ℕ) : Type 0 where
  pub at : address ≡ address_of p first
  pub head : IsHead slots first
  pub whole : get_or slots first 0 ≡ size / granularity

abbrev pub after_release : Arena → ℕ → Arena
after_release s first = record s { slots = fill s.slots first (get_or s.slots first 0) 0 }

-- The two outcomes.
release_cases :
    (p : Place) (s : Arena) (address size : ℕ)
    → (release p s address size ≡ (err invalid_argument, s))
      ⊎ ((first : ℕ) × Holds p s.slots address size first
          × (release p s address size ≡ (ok tt, after_release s first)))
unfolding release
release_cases p s address size = elim (Bool-cases (leb p.base address)) [
  | inr low ↦ inl (rw (low, release))
  | inl high ↦
      elim (Bool-cases
        (leb (capacity p) (address - p.base) || not ((address - p.base) % granularity == 0))) [
          | inl bad ↦ inl (rw (high, bad, release))
          | inr good ↦
              let first : ℕ = (address - p.base) / granularity in
              let count : ℕ = get_or s.slots first 0 in
              elim (Bool-cases (count == 0 || count == tail || not (count == size / granularity))) [
                | inl bad ↦ inl (rw (high, good, bad, release))
                | inr fine ↦ inr (
                  first,
                  record {
                    at = ground arith;
                    head = (ground arith, ground arith);
                    whole = ground arith;
                  },
                  rw (high, good, fine, release),
                )
              ]
        ]
]

-- A refusal is `InvalidArgument` and changes nothing.
pub release_refused :
    (p : Place) (s : Arena) (address size : ℕ) {e : Error} {t : Arena}
    → release p s address size ≡ (err e, t)
    → (e ≡ invalid_argument) × (t ≡ s)
release_refused p s address size h = elim (release_cases p s address size) [
  | inl r ↦ (cc, cc)
  | inr (first, _, r) ↦ cc
]

-- Where the address holds an allocation of the size, the call succeeds.
release-Holds :
    (p : Place) (s : Arena) (address size first : ℕ)
    → IsValid p.blocks s.slots
    → Holds p s.slots address size first
    → release p s address size ≡ (ok tt, after_release s first)
unfolding release
release-Holds p s address size first v h =
    let high : leb p.base address ≡ true = ground (arith, h.at) in
    let inside : first < p.blocks = omega (arith, v.heads first h.head, head_pos) in
    let here : (address - p.base) / granularity ≡ first = omega (arith, h.at) in
    let good : (leb (capacity p) (address - p.base) || not ((address - p.base) % granularity == 0))
        ≡ false =
      ground (arith, h.at, inside) in
    let fine : (get_or s.slots first 0 == 0
          || get_or s.slots first 0 == tail
          || not (get_or s.slots first 0 == size / granularity))
        ≡ false =
      ground (arith, h.head.0, h.head.1, h.whole) in
    rw (high, good, here, fine, release)
  where
    head_pos : 0 < get_or s.slots first 0
    head_pos = ground (arith, h.head.0)

live-freed :
    {blocks : ℕ} {slots : List ℕ} (v : IsValid blocks slots) (first : ℕ) (head : IsHead slots first)
    (i : ℕ)
    → live (fill slots first (get_or slots first 0) 0) i ≡ (if i == first then 0 else live slots i)
unfolding live
live-freed {slots = slots} v first head i =
    elim (locate first (get_or slots first 0) i (ground (arith, head.0))) [
      | at_head e ↦
          let read : get_or (fill slots first (get_or slots first 0) 0) i 0 ≡ 0 =
            freed_inside slots first _ (ground (arith, head.0)) i (omega arith)
              (ground (arith, head.0)) in
          ground arith
      | inside a b ↦
          let read : get_or (fill slots first (get_or slots first 0) 0) i 0 ≡ 0 =
            freed_inside slots first _ (ground (arith, head.0)) i (omega arith) b in
          let was = v.tails first i head a b in ground arith
      | outside o ↦ ground (arith, freed_outside slots first _ (ground (arith, head.0)) i o, head.0)
    ]

module _ (p : Place) (s : Arena) (v : IsValid p.blocks s.slots) where
  -- A release that succeeds takes off the map exactly one allocation: the one of the size that
  -- starts at the address. The slots stay valid, and no byte changes.
  pub release_refines :
      (address size : ℕ) {t : Arena}
      → release p s address size ≡ (ok tt, t)
      → (first : ℕ) × (address ≡ address_of p first)
        × (0 < live s.slots first)
        × (live s.slots first ≡ size / granularity)
        × ((i : ℕ) → live t.slots i ≡ (if i == first then 0 else live s.slots i))
        × (t.bytes ≡ s.bytes)
        × IsValid p.blocks t.slots
  release_refines address size {t} e = elim (release_cases p s address size) [
    | inl r ↦ cc
    | inr (first, h, r) ↦
        let same : t ≡ after_release s first = cc in
        let counted = IsHead-live s.slots first h.head in
        (
          first,
          h.at,
          ground (arith, counted, h.head.0),
          counted ∙ h.whole,
          (λ i. ap (λ a. live a.slots i) same ∙ live-freed v first h.head i),
          ap (λ a. a.bytes) same,
          rw same (freed-IsValid v first h.head),
        )
  ]

  -- Every live allocation can be released, by its address and a size of as many blocks.
  pub release_live :
      (first size : ℕ)
      → 0 < live s.slots first
      → live s.slots first ≡ size / granularity
      → release p s (address_of p first) size ≡ (ok tt, after_release s first)
  release_live first size pos e =
      let head = live-IsHead s.slots first pos in
      release-Holds p s (address_of p first) size first v
        (record { at = refl; head = head; whole = sym (IsHead-live s.slots first head) ∙ e })

-- What was allocated can be released at once, and the slots are then what they were.
pub release-allocate :
    (p : Place) (s : Arena) (size alignment : ℕ) {address : ℕ} {t : Arena}
    → IsPlaced p
    → IsValid p.blocks s.slots
    → allocate p s size alignment ≡ (ok address, t)
    → (u : Arena) × (release p t address size ≡ (ok tt, u)) × (u.slots ≡ s.slots)
release-allocate p s size alignment {address} {t} placed v e =
    (after_release t done.first, released, ext_get_or _ s.slots 0 lengths same)
  where
    done : Allocated p s size alignment address t
    done = allocate-Allocated p s v size alignment e

    count : ℕ
    count = size / granularity

    read : get_or t.slots done.first 0 ≡ count
    read =
        ap (λ l. get_or l done.first 0) done.slots
        ∙ claim_head s.slots done.first count done.some_blocks
            (omega (arith, v.whole, done.fits.inside, done.some_blocks))

    holds : Holds p t.slots address size done.first
    holds = record {
      at = done.at;
      head = (
        (λ z. absurd (omega (arith, read, done.some_blocks))),
        (λ z. absurd (omega (arith, read, placed.in_space, done.fits.inside))),
      );
      whole = read;
    }

    released : release p t address size ≡ (ok tt, after_release t done.first)
    released =
        release-Holds p t address size done.first (allocate-IsValid p s placed v size alignment e)
          holds

    lengths : length (after_release t done.first).slots ≡ length s.slots
    lengths =
        length-fill t.slots done.first (get_or t.slots done.first 0) 0
        ∙ ap length done.slots
        ∙ length-claim s.slots done.first count done.some_blocks

    same :
        (i : ℕ)
        → i < length (after_release t done.first).slots
        → get_or (after_release t done.first).slots i 0 ≡ get_or s.slots i 0
    same i lt = rw read (elim (locate done.first count i done.some_blocks) [
      | at_head k ↦
          freed_inside t.slots done.first count done.some_blocks i (omega arith)
            (omega (arith, done.some_blocks))
          ∙ sym (done.fits.free i (omega arith) (omega (arith, done.some_blocks)))
      | inside a b ↦
          freed_inside t.slots done.first count done.some_blocks i (omega arith) b
          ∙ sym (done.fits.free i (omega arith) b)
      | outside o ↦
          freed_outside t.slots done.first count done.some_blocks i o
          ∙ ap (λ l. get_or l i 0) done.slots
          ∙ claim_outside s.slots done.first count done.some_blocks i o
    ])
