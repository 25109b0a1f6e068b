-- ===== src/MemFs/Content/Reads.antt =====
-- What is read from a file, whether its bytes are in a `Vec` or pinned to pages.
use dotnet_pal_rs.Common.{
  ℕ, ◌+◌, ◌-◌, ◌<◌, ◌≡◌, refl, ap, min, ltb, Bool, inl, inr, List, length, arith, Bool-cases,
  get_or, ext_get_or, get_or-slice, length-slice,
}
use dotnet_pal_rs.MemFs.Exec.{finished}
use dotnet_pal_rs.MemFs.Content.{
  Heap, Content, plain, pinned, Store, content_len, read_content, write_content,
}
use dotnet_pal_rs.MemFs.Content.Preparation.{length-peek}
use dotnet_pal_rs.MemFs.Content.View.{byte_of, get_or-peek}
use dotnet_pal_rs.MemFs.Content.Writes.{write_content_lem, IsWritten}
use mathlib.Core.Path.{subst}

-- A read gives the bytes from its offset on, as many as there are and fit.
pub read_content_lem :
    (memory : ℕ → ℕ) (c : Content) (offset capacity : ℕ)
    → (length (read_content memory c offset capacity) ≡ min (content_len c - offset) capacity)
      × ((i : ℕ)
          → i < min (content_len c - offset) capacity
          → get_or (read_content memory c offset capacity) i 0 ≡ byte_of memory c (offset + i))
unfolding read_content
read_content_lem memory (plain bytes) offset capacity =
    elim (Bool-cases (ltb offset (length bytes))) [
      | inr beyond ↦
          rw (beyond, read_content)
            (ground (arith, beyond), λ i h. absurd (ground (arith, beyond, h)))
      | inl inside ↦
          rw (inside, read_content)
            (
              length-slice bytes offset (min (length bytes - offset) capacity)
                  (ground (arith, inside)),
              λ i h.
                  get_or-slice bytes offset (min (length bytes - offset) capacity) i (offset + i) 0
                    h refl,
            )
    ]
read_content_lem memory (pinned p) offset capacity = elim (Bool-cases (ltb offset p.size)) [
  | inr beyond ↦
      rw (beyond, read_content) (ground (arith, beyond), λ i h. absurd (ground (arith, beyond, h)))
  | inl inside ↦
      let n = min (p.size - offset) capacity in
      rw (inside, read_content)
        (
          length-peek memory (p.base + offset) n,
          λ i h.
              let here : memory (p.base + offset + i) ≡ memory (p.base + (offset + i)) =
                ap memory (omega arith) in
              ground (arith, get_or-peek memory (p.base + offset) n i, here, h),
        )
]

plus_minus : (a b : ℕ) → a + b - a ≡ b
plus_minus a b = omega arith

-- What a granted write put into a file, a read of as many bytes at its offset gives back.
pub read_content-write_content :
    (heap : Heap) (offset : ℕ) (written : List ℕ) (room : ℕ) (mapped : Bool) (s : Store) {n : ℕ}
    {t : Store}
    → write_content heap offset written room mapped s ≡ (finished n, t)
    → read_content t.memory t.content offset n ≡ written
read_content-write_content heap offset written room mapped s {n} {t} e =
    let (count, size, each) =
      subst (IsWritten s offset written) e (write_content_lem heap offset written room mapped s) in
    let (long, those) = read_content_lem t.memory t.content offset n in
    ext_get_or _ written 0 (omega (arith, long, size, count)) (λ i h. ground (
      arith,
      those i (omega (arith, h, long)),
      each (offset + i),
      count,
      size,
      long,
      h,
      ap (λ k. get_or written k 0) (plus_minus offset i),
    ))
