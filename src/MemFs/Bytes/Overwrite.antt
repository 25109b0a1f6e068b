-- ===== src/MemFs/Bytes/Overwrite.antt =====
-- The bytes that a write leaves, part by part.
use dotnet_pal_rs.Common.{
  ℕ, zero, suc, ◌+◌, ◌-◌, ◌≤◌, ◌<◌, ◌≡◌, ◌∙◌, sym, refl, ap, min, max, ltb, if◌then◌else◌, List, [],
  ◌∷◌, ◌++◌, length, take, drop, replicate, get_or, arith, get_or_beyond,
}
use dotnet_pal_rs.MemFs.Bytes.{overlay, padded}

get_or-append :
    (xs ys : List ℕ) (i : ℕ)
    → get_or (xs ++ ys) i 0
      ≡ (if ltb i (length xs) then get_or xs i 0 else get_or ys (i - length xs) 0)
get_or-append [] ys i =
    let same : i - 0 ≡ i = omega arith in ground (arith, ap (λ j. get_or ys j 0) same)
get_or-append (x ∷ xs) ys zero = ground arith
get_or-append (x ∷ xs) ys (suc i) = ground (arith, get_or-append xs ys i)

get_or-take :
    (n : ℕ) (xs : List ℕ) (i : ℕ) → get_or (take n xs) i 0 ≡ (if ltb i n then get_or xs i 0 else 0)
get_or-take zero xs i = ground arith
get_or-take (suc n) [] i = ground arith
get_or-take (suc n) (x ∷ xs) zero = ground arith
get_or-take (suc n) (x ∷ xs) (suc i) = ground (arith, get_or-take n xs i)

get_or-drop : (n : ℕ) (xs : List ℕ) (i : ℕ) → get_or (drop n xs) i 0 ≡ get_or xs (n + i) 0
get_or-drop zero xs i = let same : 0 + i ≡ i = omega arith in ap (λ j. get_or xs j 0) (sym same)
get_or-drop (suc n) [] i = refl
get_or-drop (suc n) (x ∷ xs) i =
    let same : suc n + i ≡ suc (n + i) = omega arith in
    get_or-drop n xs i ∙ ap (λ j. get_or (x ∷ xs) j 0) (sym same)

pub length-take : (n : ℕ) (xs : List ℕ) → length (take n xs) ≡ min n (length xs)
length-take zero xs = omega arith
length-take (suc n) [] = omega arith
length-take (suc n) (x ∷ xs) = omega (arith, length-take n xs)

length-drop : (n : ℕ) (xs : List ℕ) → length (drop n xs) ≡ length xs - n
length-drop zero xs = omega arith
length-drop (suc n) [] = omega arith
length-drop (suc n) (x ∷ xs) = omega (arith, length-drop n xs)

pub length-append : (xs ys : List ℕ) → length (xs ++ ys) ≡ length xs + length ys
length-append [] ys = omega arith
length-append (x ∷ xs) ys = omega (arith, length-append xs ys)

get_or-zeros : (n i : ℕ) → ◌≡◌ {A = ℕ} (get_or (replicate n 0) i 0) 0
get_or-zeros zero i = refl
get_or-zeros (suc n) zero = refl
get_or-zeros (suc n) (suc i) = get_or-zeros n i

pub length-zeros : (n : ℕ) → length {A = ℕ} (replicate n 0) ≡ n
length-zeros zero = refl
length-zeros (suc n) = omega (arith, length-zeros n)

module _ (xs ys : List ℕ) (i : ℕ) where
  at_left : i < length xs → get_or (xs ++ ys) i 0 ≡ get_or xs i 0
  at_left h = ground (arith, get_or-append xs ys i)

  at_right : (j : ℕ) → i ≡ length xs + j → get_or (xs ++ ys) i 0 ≡ get_or ys j 0
  at_right j e =
      let same : i - length xs ≡ j = omega arith in
      ground (arith, get_or-append xs ys i, ap (λ k. get_or ys k 0) same)

module _ (content written : List ℕ) (start end : ℕ) (e : end ≡ start + length written)
    (le : start ≤ length content) where
  abbrev inside : ℕ
  inside = min (length content) end - start

  abbrev before : List ℕ
  before = take start content

  abbrev over : List ℕ
  over = take inside written

  abbrev behind : List ℕ
  behind = drop (start + inside) content

  first_length : length before ≡ start
  first_length = omega (arith, length-take start content)

  length-over : length over ≡ inside
  length-over = omega (arith, length-take inside written)

  tail_length : length (over ++ behind) ≡ inside + (length content - (start + inside))
  tail_length =
      omega (arith, length-append over behind, length-over, length-drop (start + inside) content)

  all_length : length (before ++ (over ++ behind)) ≡ length content
  all_length = omega (arith, length-append before (over ++ behind), first_length, tail_length)

  -- The four parts of the bytes.
  pub part_before :
      (i : ℕ) → i < start → get_or (overlay content start end written) i 0 ≡ get_or content i 0
  unfolding overlay
  part_before i h =
      at_left (before ++ (over ++ behind)) (drop inside written) i (omega (arith, all_length))
      ∙ at_left before (over ++ behind) i (omega (arith, first_length))
      ∙ ground (arith, get_or-take start content i)

  pub part_over :
      (j : ℕ)
      → j < inside
      → get_or (overlay content start end written) (start + j) 0 ≡ get_or written j 0
  unfolding overlay
  part_over j h =
      at_left (before ++ (over ++ behind)) (drop inside written) (start + j)
        (omega (arith, all_length))
      ∙ at_right before (over ++ behind) (start + j) j (omega (arith, first_length))
      ∙ at_left over behind j (omega (arith, length-over))
      ∙ ground (arith, get_or-take inside written j)

  pub part_behind :
      (j : ℕ)
      → start + inside + j < length content
      → get_or (overlay content start end written) (start + inside + j) 0
        ≡ get_or content (start + inside + j) 0
  unfolding overlay
  part_behind j h =
      at_left (before ++ (over ++ behind)) (drop inside written) (start + inside + j)
        (omega (arith, all_length))
      ∙ at_right before (over ++ behind) (start + inside + j) (inside + j)
          (omega (arith, first_length))
      ∙ at_right over behind (inside + j) j (omega (arith, length-over))
      ∙ get_or-drop (start + inside) content j

  pub part_new :
      (j : ℕ)
      → get_or (overlay content start end written) (length content + j) 0
        ≡ get_or written (inside + j) 0
  unfolding overlay
  part_new j =
      at_right (before ++ (over ++ behind)) (drop inside written) (length content + j) j
        (omega (arith, all_length))
      ∙ get_or-drop inside written j

pub length-overlay :
    (content written : List ℕ) (start end : ℕ)
    → end ≡ start + length written
    → start ≤ length content
    → length (overlay content start end written) ≡ max (length content) end
unfolding overlay
length-overlay content written start end e le =
    let inside = min (length content) end - start in
    let before = take start content in
    let over = take inside written in
    let behind = drop (start + inside) content in
    omega (
      arith,
      length-append (before ++ (over ++ behind)) (drop inside written),
      length-append before (over ++ behind),
      length-append over behind,
      length-take start content,
      length-take inside written,
      length-drop (start + inside) content,
      length-drop inside written,
    )

pub get_or-padded :
    (content : List ℕ) (start i : ℕ) → get_or (padded content start) i 0 ≡ get_or content i 0
unfolding padded
get_or-padded content start i = ground (
  arith,
  get_or-append content (replicate (start - length content) 0) i,
  get_or-zeros (start - length content) (i - length content),
  get_or_beyond content i 0,
)

pub length-padded :
    (content : List ℕ) (start : ℕ) → length (padded content start) ≡ max (length content) start
unfolding padded
length-padded content start = ground (
  arith,
  length-append content (replicate (start - length content) 0),
  length-zeros (start - length content),
)
