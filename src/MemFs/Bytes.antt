-- ===== src/MemFs/Bytes.antt =====
-- `reserve`, `resize` and `write` of crates/dotnet-pal-memfs/src/lib.rs, on the bytes of a file that is
-- not pinned. The allocator is a function that says whether it grants so many bytes more.
pub mod Overwrite
pub mod Writes
use dotnet_pal_rs.Common.{
  ℕ, ◌+◌, ◌-◌, min, leb, ltb, ◌==◌, if◌then◌else◌, Bool, not, Option, none, some, List, [], ◌∷◌,
  ◌++◌, length, take, drop, replicate,
}
use dotnet_pal_rs.Common.Words.{checked_add}
use dotnet_pal_rs.Port.{Result, ok, err, no_space}

-- `reserve`, where either way to reserve may grant the bytes.
unfoldable pub reserve : (ℕ → Bool) → ℕ → ℕ → Result (Unit {0})
reserve grants additional room =
    if ltb room additional
    then err no_space
    else (if grants additional then ok tt else err no_space)

-- `resize`. Giving back memory changes nothing that is modelled.
unfoldable pub resize : (ℕ → Bool) → List ℕ → ℕ → ℕ → Result (List ℕ)
unfolding reserve
resize grants content size room =
    if ltb (length content) size
    then (elim (reserve grants (size - length content) room) [
      | err e ↦ err e
      | ok _ ↦ ok (content ++ replicate (size - length content) 0)
    ])
    else ok (take size content)

-- What `write` does to bytes that reach up to its start.
unfoldable pub overlay : List ℕ → ℕ → ℕ → List ℕ → List ℕ
overlay content start end written =
    let inside = min (length content) end - start in
    (take start content ++ (take inside written ++ drop (start + inside) content))
    ++ drop inside written

-- The first `resize` of `write`, with zeros up to its start.
unfoldable pub padded : List ℕ → ℕ → List ℕ
padded content start =
    if ltb (length content) start then content ++ replicate (start - length content) 0 else content

-- `write`, with the bytes that it leaves.
unfoldable pub write : (ℕ → Bool) → List ℕ → ℕ → List ℕ → ℕ → Result (ℕ × List ℕ)
unfolding reserve padded overlay
write grants content offset written room = elim (checked_add offset (length written)) [
  | none ↦ err no_space
  | some end ↦
      if ltb (length content) end
      then (elim (reserve grants (end - length content) room) [
        | err e ↦ err e
        | ok _ ↦ ok (length written, overlay (padded content offset) offset end written)
      ])
      else ok (length written, overlay content offset end written)
]
