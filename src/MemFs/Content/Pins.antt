-- ===== src/MemFs/Content/Pins.antt =====
-- The bytes of a file that moves into pages.
use dotnet_pal_rs.Common.{
  ℕ, ◌+◌, ◌-◌, ◌≡◌, refl, ap, ltb, if◌then◌else◌, inl, inr, Option, none, some, Option-cases, List,
  length, arith, get_or, get_or_beyond,
}
use dotnet_pal_rs.MemFs.Exec.{Outcome, finished, failed, endless}
use dotnet_pal_rs.MemFs.Content.{Heap, Content, plain, pinned, Store, content_len, poke, blank, pin}
use dotnet_pal_rs.MemFs.Content.Preparation.{Content-cases}
use dotnet_pal_rs.MemFs.Content.View.{byte}

-- Where the pages of a file are.
abbrev pub base_of : Content → Option ℕ
base_of (plain bytes) = none
base_of (pinned p) = some p.base

-- A file as it was, at the base that was answered.
abbrev pub IsPinned : Store → Outcome ℕ × Store → Type 0
IsPinned s (finished base, t) =
    (base_of t.content ≡ some base)
    × (content_len t.content ≡ content_len s.content)
    × ((i : ℕ) → byte t i ≡ byte s i)
IsPinned s (failed _, t) = t ≡ s
IsPinned s (endless, t) = ⊥

pinned_byte :
    (memory : ℕ → ℕ) (base limit : ℕ) (bytes : List ℕ) (i : ℕ)
    → (if ltb i (length bytes) then poke (blank memory base limit) base bytes (base + i) else 0)
      ≡ get_or bytes i 0
pinned_byte memory base limit bytes i =
    let same : get_or bytes (base + i - base) 0 ≡ get_or bytes i 0 =
      ap (λ k. get_or bytes k 0) (omega arith) in
    ground (arith, same, get_or_beyond bytes i 0)

-- A pin that goes through leaves the length and every byte of the file, which is then at the address that it
-- answers; one that is refused changes nothing.
pub pin_lem : (heap : Heap) (limit : ℕ) (s : Store) → IsPinned s (pin heap limit s)
unfolding pin
pin_lem heap limit s = elim (Content-cases s.content) [
  | inr (p, c) ↦ simp (c, pin) (refl, refl, λ i. refl)
  | inl (bytes, c) ↦ elim (Option-cases (heap.pages limit)) [
    | inl refused ↦ simp (c, refused, pin) refl
    | inr (base, granted) ↦
        simp (c, granted, pin) (refl, refl, λ i. pinned_byte s.memory base limit bytes i)
  ]
]
