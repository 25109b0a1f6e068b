-- ===== src/MemFs/Content.antt =====
-- `Pinned` and `Content` of crates/dotnet-pal-memfs/src/lib.rs: the bytes of a file, in a `Vec` or in pages
-- that mappings point into. The pages are part of the memory, a function from addresses to bytes.
pub mod Preparation
pub mod Bounds
pub mod View
pub mod Writes
pub mod Resizes
pub mod Reads
pub mod Pins
use dotnet_pal_rs.Common.{
  ℕ, zero, suc, ◌+◌, ◌-◌, ◌/◌, min, max, leb, ltb, ◌==◌, if◌then◌else◌, Bool, true, false, not,
  ◌&&◌, ◌||◌, Option, none, some, List, [], ◌∷◌, length, take, drop, get_or,
}
use dotnet_pal_rs.Common.Words.{checked_add, usize_max}
use dotnet_pal_rs.Port.{Result, ok, err, no_space, out_of_memory, os}
use dotnet_pal_rs.MemFs.Exec.{
  Exec, finished, failed, ◌>>=◌, ◌>>◌, give, fail, read, lift, refuse_if, modify,
}
use dotnet_pal_rs.MemFs.Bytes
use dotnet_pal_rs.MemFs.Bytes.{write, resize}

-- What the allocator answers during a call: whether it grants so many bytes, and where it puts zeroed
-- pages.
pub record Heap : Type 0 where
  pub grants : ℕ → Bool
  pub pages : ℕ → Option ℕ

-- `Pinned`
pub record Pinned : Type 0 where
  pub base : ℕ
  pub size : ℕ
  pub capacity : ℕ

-- `Content`
pub data Content : Type 0 where
  plain : List ℕ → Content
  pinned : Pinned → Content

-- `Content::len`
abbrev pub content_len : Content → ℕ
content_len (plain bytes) = length bytes
content_len (pinned p) = p.size

-- The bytes from an address on.
abbrev pub peek : (ℕ → ℕ) → ℕ → ℕ → List ℕ
peek memory base zero = []
peek memory base (suc n) = memory base ∷ peek memory (suc base) n

-- `write_bytes(0, n)` and `copy` to an address
abbrev pub blank : (ℕ → ℕ) → ℕ → ℕ → ℕ → ℕ
blank memory base n i = if leb base i && ltb i (base + n) then 0 else memory i

abbrev pub poke : (ℕ → ℕ) → ℕ → List ℕ → ℕ → ℕ
poke memory base bytes i =
    if leb base i && ltb i (base + length bytes) then get_or bytes (i - base) 0 else memory i

-- A file's content and the memory that its pages are in.
pub record Store : Type 0 where
  pub memory : ℕ → ℕ
  pub content : Content

-- `Pinned::set_size`
unfoldable pub set_size : (ℕ → ℕ) → Pinned → ℕ → Store
set_size memory p size =
    let low = min p.size size in
    let high = max p.size size in
    record {
      memory = blank memory (p.base + low) (high - low);
      content = pinned (record p { size = size });
    }

-- `Content::read`, which gives the bytes that it copies out.
unfoldable pub read_content : (ℕ → ℕ) → Content → ℕ → ℕ → List ℕ
read_content memory (plain bytes) offset capacity =
    if ltb offset (length bytes)
    then take (min (length bytes - offset) capacity) (drop offset bytes)
    else []
read_content memory (pinned p) offset capacity =
    if ltb offset p.size then peek memory (p.base + offset) (min (p.size - offset) capacity) else []

-- `Content::pin`
unfoldable pub pin : Heap → ℕ → Exec Store ℕ
pin heap capacity s = elim s.content [
  | pinned p ↦ (finished p.base, s)
  | plain bytes ↦ elim (heap.pages capacity) [
    | none ↦ (failed out_of_memory, s)
    | some base ↦ (
      finished base,
      record {
        memory = poke (blank s.memory base capacity) base bytes;
        content = pinned (record { base = base; size = length bytes; capacity = capacity });
      },
    )
  ]
]

-- `Content::unpin`
unfoldable pub unpin : Heap → ℕ → Exec Store (Unit {0})
unpin heap wanted s = elim s.content [
  | plain bytes ↦ (finished tt, s)
  | pinned p ↦
      if heap.grants wanted
      then (finished tt, record s { content = plain (peek s.memory p.base (min p.size wanted)) })
      else (failed no_space, s)
]

-- The `match` at the end of `Content::prepare`.
abbrev pub tolerate : {S : Type 0} → Bool → Exec S (Unit {0}) → Exec S (Unit {0})
tolerate outgrown call s = elim (call s).0 [
  | failed e ↦ ((if outgrown then failed e else finished tt), (call s).1)
  | _ ↦ (finished tt, (call s).1)
]

-- `Content::prepare`
unfoldable pub prepare : Heap → ℕ → ℕ → Bool → Exec Store (Unit {0})
unfolding unpin
prepare heap wanted room mapped s = elim s.content [
  | plain bytes ↦ (finished tt, s)
  | pinned p ↦
      let outgrown = ltb p.capacity wanted in
      let wasteful = leb wanted (p.capacity / 2) in
      if ltb room (wanted - p.size)
      then (failed no_space, s)
      else if mapped
      then ((if outgrown then failed no_space else finished tt), s)
      else if not outgrown && not wasteful
      then (finished tt, s)
      else tolerate outgrown (unpin heap wanted) s
]

-- `Content::resize`, once it is prepared.
unfoldable pub resize_prepared : Heap → ℕ → ℕ → Exec Store (Unit {0})
unfolding set_size resize
resize_prepared heap size room s = elim s.content [
  | plain bytes ↦ elim (resize heap.grants bytes size room) [
    | err e ↦ (failed e, s)
    | ok bytes' ↦ (finished tt, record s { content = plain bytes' })
  ]
  | pinned p ↦ (finished tt, set_size s.memory p size)
]

-- `Content::resize`
unfoldable pub resize_content : Heap → ℕ → ℕ → Bool → Exec Store (Unit {0})
unfolding prepare resize_prepared
resize_content heap size room mapped =
    prepare heap size room mapped >> resize_prepared heap size room

-- `Content::write`, once it is prepared. The data is a list, the bytes at the pointer when they are copied: in
-- the code `set_size` clears the file's bytes up to `end` before that, which a source behind the file's end
-- in a mapping of the same pages would see.
unfoldable pub write_prepared : Heap → ℕ → List ℕ → ℕ → ℕ → Exec Store ℕ
unfolding set_size write
write_prepared heap offset written room end s = elim s.content [
  | plain bytes ↦ elim (write heap.grants bytes offset written room) [
    | err e ↦ (failed e, s)
    | ok (n, bytes') ↦ (finished n, record s { content = plain bytes' })
  ]
  | pinned p ↦
      let grown = if ltb p.size end then set_size s.memory p end else s in
      (
        finished (length written),
        record grown { memory = poke grown.memory (p.base + (end - length written)) written },
      )
]

-- `Content::write`
unfoldable pub write_content : Heap → ℕ → List ℕ → ℕ → Bool → Exec Store ℕ
unfolding prepare write_prepared
write_content heap offset written room mapped s = elim (checked_add offset (length written)) [
  | none ↦ (failed no_space, s)
  | some end ↦
      (prepare heap (max end (content_len s.content)) room mapped
          >> write_prepared heap offset written room end)
        s
]
