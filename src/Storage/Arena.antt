-- ===== src/Storage/Arena.antt =====
-- crates/dotnet-pal-storage/src/lib.rs, `mod arena`: the bounded, reusable static arena.
pub mod Slots
pub mod Search
pub mod Validity
pub mod Blocks
pub mod Zero
use dotnet_pal_rs.Common.{
  ℕ, zero, suc, ◌+◌, ◌-◌, ◌*◌, ◌/◌, ◌%◌, bit_and, ltb, leb, ◌==◌, if◌then◌else◌, Bool, true, false,
  not, ◌&&◌, ◌||◌, Option, none, some, List, get_or, set, fill, take, drop, replicate, position,
}
use dotnet_pal_rs.Common.Words.{usize_max, checked_add, checked_sub}
use dotnet_pal_rs.Port.{Result, ok, err, out_of_memory, invalid_argument}

abbrev pub granularity : ℕ
granularity = 4096

-- `TAIL`: the slot of a block that belongs to an allocation and is not its first.
abbrev pub tail : ℕ
tail = usize_max

-- Where the linker put the static `ARENA`, and its `BLOCKS`, which a feature of the crate chooses.
pub record Place : Type 0 where
  pub base : ℕ
  pub blocks : ℕ

-- `CAPACITY`
abbrev pub capacity : Place → ℕ
capacity p = p.blocks * granularity

-- `arena::State` without its lock: a slot for each block, and the payload by its offset.
pub record Arena : Type 0 where
  pub slots : List ℕ
  pub bytes : ℕ → ℕ

-- The static's initial value.
unfoldable pub initial : Place → Arena
initial p = record { slots = replicate p.blocks 0; bytes = λ _. 0 }

-- `write_bytes(0, size)` at an offset.
unfoldable pub clear : (ℕ → ℕ) → ℕ → ℕ → ℕ → ℕ
clear bytes offset size i = if leb offset i && ltb i (offset + size) then 0 else bytes i

abbrev pub address_of : Place → ℕ → ℕ
address_of p first = p.base + first * granularity

-- The first block in use among `count` blocks from `first` on, counted from there.
unfoldable pub occupied : List ℕ → ℕ → ℕ → Option ℕ
occupied slots first count = position (λ n. not (n == 0)) (take count (drop first slots))

-- The `while` loop of `allocate`. `none` is the end of the loop, or of the fuel.
unfoldable pub search : Place → List ℕ → ℕ → ℕ → ℕ → ℕ → Option ℕ
search p slots count alignment zero first = none
search p slots count alignment (suc fuel) first = elim (leb first (p.blocks - count)) [
  | false ↦ none
  | true ↦ elim (bit_and (address_of p first) (alignment - 1) == 0) [
    | false ↦ search p slots count alignment fuel (first + 1)
    | true ↦ elim (occupied slots first count) [
      | some n ↦ search p slots count alignment fuel (first + (n + 1))
      | none ↦ some first
    ]
  ]
]

-- What `allocate` writes to the slots.
unfoldable pub claim : List ℕ → ℕ → ℕ → List ℕ
claim slots first count = fill (set slots first count) (first + 1) (count - 1) tail

unfoldable pub take_blocks : Place → Arena → ℕ → ℕ → ℕ → Result ℕ × Arena
take_blocks p s size count first = (
  ok (address_of p first),
  record { slots = claim s.slots first count; bytes = clear s.bytes (first * granularity) size },
)

-- `Arena::allocate`
unfoldable pub allocate : Place → Arena → ℕ → ℕ → Result ℕ × Arena
unfolding take_blocks
allocate p s size alignment =
    let count = size / granularity in
    if count == 0 || ltb p.blocks count
    then (err out_of_memory, s)
    else (elim (search p s.slots count alignment (p.blocks + 1) 0) [
      | none ↦ (err out_of_memory, s)
      | some first ↦ take_blocks p s size count first
    ])

unfoldable pub release_at : Arena → ℕ → ℕ → Result (Unit {0}) × Arena
release_at s first size =
    let count = get_or s.slots first 0 in
    if count == 0 || count == tail || not (count == size / granularity)
    then (err invalid_argument, s)
    else (ok tt, record s { slots = fill s.slots first count 0 })

-- `Arena::release`
unfoldable pub release : Place → Arena → ℕ → ℕ → Result (Unit {0}) × Arena
unfolding release_at
release p s address size = elim (checked_sub address p.base) [
  | none ↦ (err invalid_argument, s)
  | some offset ↦
      if leb (capacity p) offset || not (offset % granularity == 0)
      then (err invalid_argument, s)
      else release_at s (offset / granularity) size
]

-- The loop of `zero`: the nearest block from `first` down that is no tail.
unfoldable pub head_of : List ℕ → ℕ → Option ℕ
head_of slots zero = if get_or slots 0 0 == tail then none else some 0
head_of slots (suc first) =
    let below = head_of slots first in
    if get_or slots (suc first) 0 == tail then below else some (suc first)

unfoldable pub zero_in : Arena → ℕ → ℕ → ℕ → Result (Unit {0}) × Arena
zero_in s offset size first =
    let count = get_or s.slots first 0 in
    if count == 0 || ltb ((first + count) * granularity) (offset + size)
    then (err invalid_argument, s)
    else (ok tt, record s { bytes = clear s.bytes offset size })

unfoldable pub zero_at : Place → Arena → ℕ → ℕ → Result (Unit {0}) × Arena
unfolding zero_in
zero_at p s offset size =
    if size == 0 || ltb (capacity p) (offset + size)
    then (err invalid_argument, s)
    else (elim (head_of s.slots (offset / granularity)) [
      | none ↦ (err invalid_argument, s)
      | some first ↦ zero_in s offset size first
    ])

-- `Arena::zero`
unfoldable pub zeroes : Place → Arena → ℕ → ℕ → Result (Unit {0}) × Arena
unfolding zero_at
zeroes p s address size = elim (checked_sub address p.base) [
  | none ↦ (err invalid_argument, s)
  | some offset ↦ elim (checked_add offset size) [
    | none ↦ (err invalid_argument, s)
    | some _ ↦ zero_at p s offset size
  ]
]
