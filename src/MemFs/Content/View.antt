-- ===== src/MemFs/Content/View.antt =====
-- A file as its bytes, whether they are in a `Vec` or pinned to pages.
use dotnet_pal_rs.Common.{
  ℕ, zero, suc, ◌+◌, ◌≤◌, ◌≡◌, ap, min, ltb, leb, if◌then◌else◌, ◌&&◌, List, arith, get_or,
  get_or_beyond,
}
use dotnet_pal_rs.MemFs.Content.{Content, plain, pinned, Pinned, Store, content_len, peek, blank}

-- The byte of a file at an offset, with zeros behind its end.
abbrev pub byte_of : (ℕ → ℕ) → Content → ℕ → ℕ
byte_of memory (plain bytes) i = get_or bytes i 0
byte_of memory (pinned p) i = if ltb i p.size then memory (p.base + i) else 0

abbrev pub byte : Store → ℕ → ℕ
byte s = byte_of s.memory s.content

pub get_or-peek :
    (memory : ℕ → ℕ) (base n i : ℕ)
    → get_or (peek memory base n) i 0 ≡ (if ltb i n then memory (base + i) else 0)
get_or-peek memory base zero i = ground arith
get_or-peek memory base (suc n) zero =
    let here : memory base ≡ memory (base + 0) = ap memory (omega arith) in ground (arith, here)
get_or-peek memory base (suc n) (suc i) =
    let there : memory (suc base + i) ≡ memory (base + suc i) = ap memory (omega arith) in
    ground (arith, get_or-peek memory (suc base) n i, there)

pub blank_lem :
    (memory : ℕ → ℕ) (base low n i : ℕ)
    → blank memory (base + low) n (base + i)
      ≡ (if leb low i && ltb i (low + n) then 0 else memory (base + i))
blank_lem memory base low n i = ground arith

-- A file has zeros behind its end.
pub byte_beyond :
    (memory : ℕ → ℕ) (c : Content) (i : ℕ) → content_len c ≤ i → byte_of memory c i ≡ 0
byte_beyond memory (plain bytes) i le = get_or_beyond bytes i 0 le
byte_beyond memory (pinned p) i le = ground (arith, le)

pub moved_bytes :
    (s : Store) (wanted : ℕ) (bytes : List ℕ)
    → ((p : Pinned) × (s.content ≡ pinned p) × (bytes ≡ peek s.memory p.base (min p.size wanted)))
    → (i : ℕ) → get_or bytes i 0 ≡ (if ltb i wanted then byte s i else 0)
moved_bytes s wanted bytes (p, c, e) i =
    let view : byte s i ≡ byte_of s.memory (pinned p) i = ap (λ x. byte_of s.memory x i) c in
    ground
      (arith, view, ap (λ l. get_or l i 0) e, get_or-peek s.memory p.base (min p.size wanted) i)
