-- ===== src/MemFs/Content/Resizes.antt =====
-- The bytes of a file behind a change of its size.
use dotnet_pal_rs.Common.{
  ℕ, zero, suc, ◌-◌, ◌≡◌, ◌∙◌, refl, sym, min, max, ltb, if◌then◌else◌, Bool, inl, inr, List, [],
  ◌∷◌, ◌++◌, length, take, replicate, arith, Bool-cases, get_or, get_or_beyond,
}
use dotnet_pal_rs.Port.{Result, ok, err, Result-cases}
use dotnet_pal_rs.MemFs.Exec.{Outcome, finished, failed, endless, ◌>>◌}
use dotnet_pal_rs.MemFs.Bytes.{resize, reserve}
use dotnet_pal_rs.MemFs.Bytes.Overwrite.{length-append, length-take, length-zeros}
use dotnet_pal_rs.MemFs.Content.{
  Heap, plain, pinned, Pinned, Store, content_len, set_size, resize_prepared, resize_content,
}
use dotnet_pal_rs.MemFs.Content.Bounds.{resize_failed}
use dotnet_pal_rs.MemFs.Content.Preparation.{Content-cases, refused, kept, moved, prepare_cases}
use dotnet_pal_rs.MemFs.Content.View.{byte, blank_lem, byte_beyond, moved_bytes}

-- What a resize leaves: the bytes below the new size and zeros from there on, where it is granted.
abbrev pub IsResized : Store → ℕ → Outcome (Unit {0}) × Store → Type 0
IsResized s size (finished _, t) =
    (content_len t.content ≡ size) × ((i : ℕ) → byte t i ≡ (if ltb i size then byte s i else 0))
IsResized s size (failed _, t) =
    (content_len t.content ≡ content_len s.content) × ((i : ℕ) → byte t i ≡ byte s i)
IsResized s size (endless, t) = ⊥

get_or-take :
    (n : ℕ) (xs : List ℕ) (i : ℕ) → get_or (take n xs) i 0 ≡ (if ltb i n then get_or xs i 0 else 0)
get_or-take zero xs i = ground arith
get_or-take (suc n) [] i = ground arith
get_or-take (suc n) (x ∷ xs) zero = ground arith
get_or-take (suc n) (x ∷ xs) (suc i) = ground (arith, get_or-take n xs i)

get_or-padding : (n : ℕ) (xs : List ℕ) (i : ℕ) → get_or (xs ++ replicate n 0) i 0 ≡ get_or xs i 0
get_or-padding zero [] i = refl
get_or-padding (suc n) [] zero = refl
get_or-padding (suc n) [] (suc i) = get_or-padding n [] i
get_or-padding n (x ∷ xs) zero = refl
get_or-padding n (x ∷ xs) (suc i) = get_or-padding n xs i

resize_lem :
    (grants : ℕ → Bool) (bytes : List ℕ) (size room : ℕ) {after : List ℕ}
    → resize grants bytes size room ≡ ok after
    → (length after ≡ size)
      × ((i : ℕ) → get_or after i 0 ≡ (if ltb i size then get_or bytes i 0 else 0))
unfolding resize
resize_lem grants bytes size room {after} e = elim (Bool-cases (ltb (length bytes) size)) [
  | inr small ↦
      let now : ok (take size bytes) ≡ ok after = sym (rw (small, resize)) ∙ e in
      let shape : after ≡ take size bytes = cc in
      rw shape (ground (arith, small, length-take size bytes), get_or-take size bytes)
  | inl grows ↦ elim (Result-cases (reserve grants (size - length bytes) room)) [
    | inr (cause, r) ↦
        let now : ◌≡◌ {A = Result (List ℕ)} (err cause) (ok after) =
          sym (rw (grows, r, resize)) ∙ e in
        cc
    | inl (u, r) ↦
        let gap = size - length bytes in
        let now : ok (bytes ++ replicate gap 0) ≡ ok after = sym (rw (grows, r, resize)) ∙ e in
        let shape : after ≡ bytes ++ replicate gap 0 = cc in
        rw shape (
          ground (arith, grows, length-append bytes (replicate gap 0), length-zeros gap),
          λ i. ground (arith, get_or-padding gap bytes i, get_or_beyond bytes i 0, grows),
        )
  ]
]

module _ (heap : Heap) (room : ℕ) (s : Store) (size : ℕ) where
  resize_plain_lem :
      (bytes : List ℕ)
      → s.content ≡ plain bytes
      → IsResized s size (resize_prepared heap size room s)
  unfolding resize_prepared
  resize_plain_lem bytes c = elim (Result-cases (resize heap.grants bytes size room)) [
    | inl (after, r) ↦ simp (c, r, resize_prepared) (resize_lem heap.grants bytes size room r)
    | inr (e, r) ↦ simp (c, r, resize_prepared) (refl, λ i. refl)
  ]

  resize_pinned_lem :
      (p : Pinned) → s.content ≡ pinned p → IsResized s size (resize_prepared heap size room s)
  unfolding resize_prepared set_size
  resize_pinned_lem p c =
      simp (c, resize_prepared, set_size)
        (
          refl,
          λ i. ground (
            arith,
            blank_lem s.memory p.base (min p.size size) (max p.size size - min p.size size) i,
          ),
        )

resize_moved_lem :
    (heap : Heap) (room : ℕ) (s : Store) (size : ℕ) (bytes : List ℕ)
    → length bytes ≡ min (content_len s.content) size
    → ((i : ℕ) → get_or bytes i 0 ≡ (if ltb i size then byte s i else 0))
    → IsResized s size (resize_prepared heap size room (record s { content = plain bytes }))
unfolding resize_prepared
resize_moved_lem heap room s size bytes long each =
    elim (Result-cases (resize heap.grants bytes size room)) [
      | inl (after, r) ↦
          let (total, those) = resize_lem heap.grants bytes size room r in
          rw (r, resize_prepared) (total, λ i. ground (arith, those i, each i))
      | inr (e, r) ↦
          let short = resize_failed heap.grants bytes size room r in
          rw (r, resize_prepared)
            (
              omega (arith, long, short),
              λ i. ground (arith, each i, byte_beyond s.memory s.content i, long, short),
            )
    ]

-- A resize, granted or refused, on plain or pinned bytes: a granted one leaves the bytes below the new size
-- and zeros behind them, and the file is that long; a refused one leaves the length and every byte.
pub resize_content_lem :
    (heap : Heap) (size room : ℕ) (mapped : Bool) (s : Store)
    → IsResized s size (resize_content heap size room mapped s)
unfolding resize_content ◌>>◌
resize_content_lem heap size room mapped s = elim (prepare_cases heap size room mapped s) [
  | refused e r ↦ rw r (refl, λ i. refl)
  | kept r _ ↦ elim (Content-cases s.content) [
    | inl (bytes, c) ↦ rw r (resize_plain_lem heap room s size bytes c)
    | inr (p, c) ↦ rw r (resize_pinned_lem heap room s size p c)
  ]
  | moved bytes r long _ shape ↦
      rw r (resize_moved_lem heap room s size bytes long (moved_bytes s size bytes shape))
]
