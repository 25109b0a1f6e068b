-- ===== src/MemFs/Content/Writes.antt =====
-- The bytes of a file behind a write.
use dotnet_pal_rs.Common.{
  ℕ, ◌+◌, ◌-◌, ◌≡◌, ◌∙◌, refl, ap, min, max, ltb, leb, if◌then◌else◌, Bool, ◌&&◌, inl, inr, List,
  length, arith, Bool-cases, get_or,
}
use dotnet_pal_rs.Common.Words.{usize_max}
use dotnet_pal_rs.Port.{Result-cases}
use dotnet_pal_rs.MemFs.Exec.{Outcome, finished, failed, endless, ◌>>◌}
use dotnet_pal_rs.MemFs.Bytes.{write}
use dotnet_pal_rs.MemFs.Bytes.Writes.{write_lem}
use dotnet_pal_rs.MemFs.Content.{
  Heap, plain, pinned, Pinned, Store, content_len, blank, poke, set_size, write_prepared,
  write_content,
}
use dotnet_pal_rs.MemFs.Content.Preparation.{Content-cases, refused, kept, moved, prepare_cases}
use dotnet_pal_rs.MemFs.Content.View.{byte, blank_lem, byte_beyond, moved_bytes}

-- What a write leaves: its bytes in its range where it is granted, and what there was elsewhere.
abbrev pub IsWritten : Store → ℕ → List ℕ → Outcome ℕ × Store → Type 0
IsWritten s offset written (finished n, t) =
    (n ≡ length written)
    × (content_len t.content ≡ max (content_len s.content) (offset + length written))
    × ((i : ℕ)
        → byte t i ≡ (
            if leb offset i && ltb i (offset + length written)
            then get_or written (i - offset) 0
            else byte s i))
IsWritten s offset written (failed _, t) =
    (content_len t.content ≡ content_len s.content) × ((i : ℕ) → byte t i ≡ byte s i)
IsWritten s offset written (endless, t) = ⊥

poke_lem :
    (memory : ℕ → ℕ) (base offset : ℕ) (bytes : List ℕ) (start i : ℕ)
    → start ≡ base + offset
    → poke memory start bytes (base + i) ≡ (
        if leb offset i && ltb i (offset + length bytes)
        then get_or bytes (i - offset) 0
        else memory (base + i))
poke_lem memory base offset bytes start i e =
    let same : get_or bytes (base + i - start) 0 ≡ get_or bytes (i - offset) 0 =
      ap (λ k. get_or bytes k 0) (omega (arith, e)) in
    ground (arith, same, e)

module _ (heap : Heap) (room : ℕ) (s : Store) (offset : ℕ) (written : List ℕ) where
  write_plain_lem :
      (bytes : List ℕ)
      → s.content ≡ plain bytes
      → IsWritten s offset written
          (write_prepared heap offset written room (offset + length written) s)
  unfolding write_prepared
  write_plain_lem bytes c = elim (Result-cases (write heap.grants bytes offset written room)) [
    | inl ((n, after), r) ↦
        let (count, size, _, each) = write_lem heap.grants bytes offset written room r in
        simp (c, r, write_prepared) (count, size, each)
    | inr (e, r) ↦ simp (c, r, write_prepared) (refl, λ i. refl)
  ]

  write_pinned_lem :
      (p : Pinned)
      → s.content ≡ pinned p
      → IsWritten s offset written
          (write_prepared heap offset written room (offset + length written) s)
  unfolding write_prepared set_size
  write_pinned_lem p c = elim (Bool-cases (ltb p.size (offset + length written))) [
    | inl grows ↦
        let low = min p.size (offset + length written) in
        let n = max p.size (offset + length written) - low in
        simp (c, grows, write_prepared, set_size)
          (
            refl,
            ground (arith, grows),
            λ i. ground (
              arith,
              grows,
              poke_lem (blank s.memory (p.base + low) n) p.base offset written
                  (p.base + (offset + length written - length written)) i (omega arith),
              blank_lem s.memory p.base low n i,
            ),
          )
    | inr stays ↦
        simp (c, stays, write_prepared)
          (
            refl,
            ground (arith, stays),
            λ i. ground (
              arith,
              stays,
              poke_lem s.memory p.base offset written
                  (p.base + (offset + length written - length written)) i (omega arith),
            ),
          )
  ]

IsWritten-same :
    (s t : Store) (offset : ℕ) (written : List ℕ) (r : Outcome ℕ × Store)
    → content_len t.content ≡ content_len s.content
    → ((i : ℕ) → byte t i ≡ byte s i)
    → IsWritten t offset written r
    → IsWritten s offset written r
IsWritten-same s t offset written (endless, u) size same h = h
IsWritten-same s t offset written (failed e, u) size same h = (h.0 ∙ size, λ i. h.1 i ∙ same i)
IsWritten-same s t offset written (finished n, u) size same h =
    (h.0, omega (arith, h.1, size), λ i. ground (arith, h.2 i, same i))

-- A write, granted or refused, on plain or pinned bytes: a granted one answers how many bytes it was given,
-- and the file then holds them in its range, zeros between the old end and the range, and what it held
-- before elsewhere, and reaches up to the end of the range if it was shorter; a refused one leaves the
-- length and every byte.
pub write_content_lem :
    (heap : Heap) (offset : ℕ) (written : List ℕ) (room : ℕ) (mapped : Bool) (s : Store)
    → IsWritten s offset written (write_content heap offset written room mapped s)
unfolding write_content ◌>>◌
write_content_lem heap offset written room mapped s =
    elim (Bool-cases (leb (offset + length written) usize_max)) [
      | inr over ↦ rw (over, write_content) (refl, λ i. refl)
      | inl fits ↦
          rw (fits, write_content)
            (let wanted = max (offset + length written) (content_len s.content) in
              elim (prepare_cases heap wanted room mapped s) [
                | refused e r ↦ rw r (refl, λ i. refl)
                | kept r _ ↦ elim (Content-cases s.content) [
                  | inl (bytes, c) ↦ rw r (write_plain_lem heap room s offset written bytes c)
                  | inr (p, c) ↦ rw r (write_pinned_lem heap room s offset written p c)
                ]
                | moved bytes r long _ shape ↦
                    let t : Store = record s { content = plain bytes } in
                    let size : length bytes ≡ content_len s.content = omega (arith, long) in
                    let same : (i : ℕ) → byte t i ≡ byte s i = λ i. ground (
                      arith,
                      moved_bytes s wanted bytes shape i,
                      byte_beyond s.memory s.content i,
                    ) in
                    rw r (
                      IsWritten-same s t offset written _ size same
                        (write_plain_lem heap room t offset written bytes refl))
              ])
    ]
