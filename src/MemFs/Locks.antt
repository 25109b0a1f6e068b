-- ===== src/MemFs/Locks.antt =====
-- `Lock` and `State::relock` of crates/dotnet-pal-memfs/src/lib.rs, on the locks of the node found.
pub mod Bytes
pub mod Loop
pub mod Exclusion
use dotnet_pal_rs.Common.{
  ℕ, zero, suc, ◌+◌, ◌*◌, ltb, leb, ◌==◌, if◌then◌else◌, Bool, true, false, not, ◌&&◌, ◌||◌, List,
  [], ◌∷◌, ◌++◌, any, length, get_or, set,
}
use dotnet_pal_rs.Port.{Result, ok, err, would_block, out_of_memory}

-- A lock of the handle at address `owner` on the bytes from `start` up to `end`. Locks on the whole
-- file and on ranges do not see each other.
pub record Lock : Type 0 where
  pub owner : ℕ
  pub whole : Bool
  pub start : ℕ
  pub end : ℕ
  pub exclusive : Bool

-- `LOCK_SHARED`, `LOCK_EXCLUSIVE`, `LOCK_UNLOCK`
abbrev pub lock_shared : ℕ
lock_shared = 1

abbrev pub lock_exclusive : ℕ
lock_exclusive = 2

abbrev pub lock_unlock : ℕ
lock_unlock = 3

-- `==` on `bool`
abbrev pub same : Bool → Bool → Bool
same true b = b
same false b = not b

-- The closure `meets`.
unfoldable pub meets : Lock → Lock → Bool
meets wanted held =
    same held.whole wanted.whole && (ltb held.start wanted.end && ltb wanted.start held.end)

-- What stands in the way of the request.
unfoldable pub in_the_way : Lock → Lock → Bool
in_the_way wanted held =
    not (held.owner == wanted.owner) && (meets wanted held && (held.exclusive || wanted.exclusive))

module _ {ℓ} {A : Type ℓ} where
  abbrev pub drop_last : List A → List A
  drop_last [] = []
  drop_last (x ∷ []) = []
  drop_last (x ∷ (y ∷ xs)) = x ∷ drop_last (y ∷ xs)

  abbrev pub last_or : List A → A → A
  last_or [] d = d
  last_or (x ∷ []) d = x
  last_or (x ∷ (y ∷ xs)) d = last_or (y ∷ xs) d

  -- `Vec::swap_remove`, at an index inside: the last entry takes the place of the removed one.
  abbrev pub swap_remove : List A → ℕ → A → List A
  swap_remove xs i d = set (drop_last xs) i (last_or xs d)

-- What is left of a lock on either side of the request.
unfoldable pub pieces : Lock → Lock → List Lock
pieces wanted held =
    (if ltb held.start wanted.start then record held { end = wanted.start } ∷ [] else [])
    ++ (if ltb wanted.end held.end then record held { start = wanted.end } ∷ [] else [])

abbrev pub at_index : List Lock → ℕ → Lock → Lock
at_index locks index wanted = get_or locks index wanted

-- Whether the loop removes the lock.
unfoldable pub is_own : Lock → Lock → Bool
unfolding meets
is_own wanted held = held.owner == wanted.owner && meets wanted held

-- The `while` loop, on fuel.
unfoldable pub cut : Lock → ℕ → ℕ → List Lock → List Lock
cut wanted zero index locks = locks
cut wanted (suc fuel) index locks = elim (ltb index (length locks)) [
  | false ↦ locks
  | true ↦
      let held = at_index locks index wanted in
      elim (is_own wanted held) [
        | false ↦ cut wanted fuel (suc index) locks
        | true ↦ cut wanted fuel index (swap_remove locks index wanted ++ pieces wanted held)
      ]
]

-- `relock`. The Boolean says whether the allocator grants the room for two more locks.
unfoldable pub relock : Bool → List Lock → ℕ → Lock → Result (List Lock)
relock room locks mode wanted =
    if not (mode == lock_unlock) && any (in_the_way wanted) locks
    then err would_block
    else (if not room
        then err out_of_memory
        else ok (
            cut wanted (3 * length locks + 1) 0 locks
            ++ (if mode == lock_unlock then [] else wanted ∷ [])))
