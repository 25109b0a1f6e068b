-- ===== src/MemFs/Queue/Encoding.antt =====
-- The bytes of a queue and the entries that they stand for.
use dotnet_pal_rs.Common.{
  ℕ, ◌+◌, ◌*◌, ◌/◌, ◌%◌, ◌≤◌, ◌<◌, ◌^◌, ◌≡◌, refl, ap, List, [], ◌∷◌, ◌++◌, length, take, drop,
  arith,
}
use mathlib.Core.List.{append_assoc}
use dotnet_pal_rs.MemFs.Queue.{word_bytes}

-- One record of a queue.
pub record Entry : Type 0 where
  pub watch : ℕ
  pub events : ℕ
  pub cookie : ℕ
  pub name : List ℕ

-- Words of 32 bits, and a name whose length is one byte.
pub record Fits (e : Entry) : Type 0 where
  pub watch : e.watch < 2 ^ 32
  pub events : e.events < 2 ^ 32
  pub cookie : e.cookie < 2 ^ 32
  pub name : length e.name ≤ 255

abbrev pub encode : Entry → List ℕ
encode e =
    word_bytes e.watch
    ++ (word_bytes e.events ++ (word_bytes e.cookie ++ (length e.name % 256 ∷ e.name)))

abbrev pub encode_all : List Entry → List ℕ
encode_all [] = []
encode_all (e ∷ es) = encode e ++ encode_all es

abbrev pub AllFit : List Entry → Type 0
AllFit [] = Unit {0}
AllFit (e ∷ es) = Fits e × AllFit es

pub encode_all-append :
    (es fs : List Entry) → encode_all (es ++ fs) ≡ encode_all es ++ encode_all fs
encode_all-append [] fs = refl
encode_all-append (e ∷ es) fs =
    rw (encode_all-append es fs, append_assoc (encode e) (encode_all es) (encode_all fs))

-- A word is the value of its bytes.
pub word_value :
    (w : ℕ)
    → w < 2 ^ 32
    → w % 256 + w / 256 % 256 * 256 + w / 65536 % 256 * 65536 + w / 16777216 % 256 * 16777216 ≡ w
word_value w h = omega arith

module _ {ℓ} {A : Type ℓ} where
  pub take-append : (xs ys : List A) → take (length xs) (xs ++ ys) ≡ xs
  take-append [] ys = refl
  take-append (x ∷ xs) ys = ap (◌∷◌ x) (take-append xs ys)

  pub drop-append : (xs ys : List A) → drop (length xs) (xs ++ ys) ≡ ys
  drop-append [] ys = refl
  drop-append (x ∷ xs) ys = drop-append xs ys

  pub length-append-le : (xs ys : List A) → length xs ≤ length (xs ++ ys)
  length-append-le [] ys = omega arith
  length-append-le (x ∷ xs) ys = omega (arith, length-append-le xs ys)
