-- ===== src/MemFs/Bytes/Writes.antt =====
-- What a write leaves of a file.
use dotnet_pal_rs.Common.{
  ℕ, ◌+◌, ◌-◌, ◌≤◌, ◌≡◌, ◌∙◌, sym, refl, ap, min, max, leb, ltb, ◌&&◌, if◌then◌else◌, Bool, List,
  length, get_or, arith, inl, inr, Bool-cases, get_or_beyond,
}
use dotnet_pal_rs.Common.Words.{usize_max}
use dotnet_pal_rs.Port.{Result, ok, err, no_space, Result-cases}
use dotnet_pal_rs.MemFs.Bytes.{overlay, padded, write, reserve}
use dotnet_pal_rs.MemFs.Bytes.Overwrite.{
  part_before, part_over, part_behind, part_new, length-overlay, get_or-padded, length-padded,
}

overlay_lem :
    (content written : List ℕ) (start end : ℕ)
    → end ≡ start + length written
    → start ≤ length content
    → (i : ℕ)
    → get_or (overlay content start end written) i 0
      ≡ (if leb start i && ltb i end then get_or written (i - start) 0 else get_or content i 0)
overlay_lem content written start end e le i = elim (Bool-cases (ltb i start)) [
  | inl low ↦
      ground (arith, low, part_before content written start end e le i (ground (arith, low)))
  | inr high ↦ elim (Bool-cases (ltb i end)) [
    | inl in_range ↦ elim (Bool-cases (ltb i (length content))) [
      | inl old ↦
          let at : start + (i - start) ≡ i = ground (arith, high) in
          let part =
            part_over content written start end e le (i - start)
              (ground (arith, high, in_range, old)) in
          ground (
            arith,
            high,
            in_range,
            ap (λ k. get_or (overlay content start end written) k 0) at,
            part,
          )
      | inr fresh ↦
          let at : length content + (i - length content) ≡ i = ground (arith, fresh) in
          let there : min (length content) end - start + (i - length content) ≡ i - start =
            ground (arith, fresh, in_range, high, le) in
          let part = part_new content written start end e le (i - length content) in
          ground (
            arith,
            high,
            in_range,
            ap (λ k. get_or (overlay content start end written) k 0) at,
            ap (λ k. get_or written k 0) there,
            part,
          )
    ]
    | inr past ↦ elim (Bool-cases (ltb i (length content))) [
      | inl old ↦
          let at : start + (min (length content) end - start) + (i - end) ≡ i =
            ground (arith, past, old, e, le) in
          let part =
            part_behind content written start end e le (i - end) (ground (arith, at, old)) in
          ground (
            arith,
            past,
            ap (λ k. get_or (overlay content start end written) k 0) at,
            ap (λ k. get_or content k 0) at,
            part,
          )
      | inr fresh ↦
          let size = length-overlay content written start end e le in
          let none_here =
            get_or_beyond (overlay content start end written) i 0
              (ground (arith, size, past, fresh)) in
          ground (arith, past, fresh, none_here, get_or_beyond content i 0)
    ]
  ]
]

pub reserve_fits :
    (grants : ℕ → Bool) (additional room : ℕ) {u : Unit {0}}
    → reserve grants additional room ≡ ok u
    → additional ≤ room
unfolding reserve
reserve_fits grants additional room e = ground arith

-- A granted write answers how many bytes it was given, and its file then holds them in its range, zeros
-- between the old end and the range, and what it held before elsewhere; it is as long as it was or
-- reaches up to the end of the range, and grows by no more than its room.
pub write_lem :
    (grants : ℕ → Bool) (content : List ℕ) (offset : ℕ) (written : List ℕ) (room : ℕ) {n : ℕ}
    {after : List ℕ}
    → write grants content offset written room ≡ ok (n, after)
    → (n ≡ length written)
      × (length after ≡ max (length content) (offset + length written))
      × (length after ≤ length content + room)
      × ((i : ℕ)
          → get_or after i 0 ≡ (
              if leb offset i && ltb i (offset + length written)
              then get_or written (i - offset) 0
              else get_or content i 0))
unfolding write
write_lem grants content offset written room {n} {after} e = elim (Bool-cases (leb end usize_max)) [
  | inr far ↦
      let now : ◌≡◌ {A = Result (ℕ × List ℕ)} (err no_space) (ok (n, after)) =
        sym (rw (far, write)) ∙ e in
      cc
  | inl near ↦ elim (Bool-cases (ltb (length content) end)) [
    | inl grows ↦ elim (Result-cases (reserve grants (end - length content) room)) [
      | inr (cause, r) ↦
          let now : ◌≡◌ {A = Result (ℕ × List ℕ)} (err cause) (ok (n, after)) =
            sym (rw (near, grows, r, write)) ∙ e in
          cc
      | inl (u, r) ↦
          let now : ◌≡◌ {A = Result (ℕ × List ℕ)}
              (ok (length written, overlay (padded content offset) offset end written))
              (ok (n, after)) =
            sym (rw (near, grows, r, write)) ∙ e in
          let shape : overlay (padded content offset) offset end written ≡ after = cc in
          let count : length written ≡ n = cc in
          let long = length-padded content offset in
          let fits : end - length content ≤ room =
            reserve_fits grants (end - length content) room r in
          let size =
            length-overlay (padded content offset) written offset end refl (omega (arith, long)) in
          let size' = size ∙ ap (λ l. max l end) long in
          let total = sym (ap length shape) ∙ size' in
          (
            sym count,
            omega (arith, total),
            ground (arith, total, fits, grows),
            λ i.
                sym (ap (λ l. get_or l i 0) shape)
                ∙ overlay_lem (padded content offset) written offset end refl (omega (arith, long))
                    i
                ∙ ground (arith, get_or-padded content offset i),
          )
    ]
    | inr inside ↦
        let now : ◌≡◌ {A = Result (ℕ × List ℕ)}
            (ok (length written, overlay content offset end written)) (ok (n, after)) =
          sym (rw (near, inside, write)) ∙ e in
        let shape : overlay content offset end written ≡ after = cc in
        let count : length written ≡ n = cc in
        let low : offset ≤ length content = ground (arith, inside) in
        let total = sym (ap length shape) ∙ length-overlay content written offset end refl low in
        (
          sym count,
          total,
          ground (arith, total, inside),
          λ i.
              sym (ap (λ l. get_or l i 0) shape)
              ∙ overlay_lem content written offset end refl low i,
        )
  ]
]
  where
    end : ℕ
    end = offset + length written
