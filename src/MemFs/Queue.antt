-- ===== src/MemFs/Queue.antt =====
-- `Queue` of crates/dotnet-pal-memfs/src/lib.rs and `Event::new` of src/watches.rs: the events that
-- wait for the reader of a watcher, as bytes. Words are stored with their low byte first.
pub mod Encoding
pub mod Order
use dotnet_pal_rs.Common.{
  ℕ, ◌+◌, ◌-◌, ◌*◌, ◌/◌, ◌%◌, bit_and, ltb, leb, ◌==◌, if◌then◌else◌, Bool, true, false, not, ◌&&◌,
  ◌||◌, Option, none, some, List, [], ◌∷◌, ◌++◌, any, length, take, drop,
}

-- `watches::OVERFLOW`
abbrev pub overflow : ℕ
overflow = 128

-- `MAX_ENTRY_NAME`
abbrev pub max_entry_name : ℕ
max_entry_name = 255

-- `QUEUE_LIMIT`
abbrev pub queue_limit : ℕ
queue_limit = 1024

-- `Queue::HEADER`
abbrev pub header : ℕ
header = 13

-- `Event`, with its name as the bytes that count.
pub record Event : Type 0 where
  pub watch : ℕ
  pub events : ℕ
  pub cookie : ℕ
  pub name : List ℕ

-- `Event::new`
unfoldable pub new_event : ℕ → ℕ → ℕ → List ℕ → Option Event
new_event watch events cookie name =
    if ltb max_entry_name (length name) || any (λ b. b == 0 || b == b'/') name
    then none
    else some (record { watch = watch; events = events; cookie = cookie; name = name })

-- `Queue`, whose memory is as large as the allocator says.
pub record Queue : Type 0 where
  pub bytes : List ℕ
  pub count : ℕ
  pub lost : Bool

-- `Queue::new`, where the allocator grants the first reservation.
abbrev pub empty : Queue
empty = record { bytes = []; count = 0; lost = false }

-- `to_ne_bytes` of a `u32`
abbrev pub word_bytes : ℕ → List ℕ
word_bytes w = w % 256 ∷ w / 256 % 256 ∷ w / 65536 % 256 ∷ w / 16777216 % 256 ∷ []

-- `Queue::record`
unfoldable pub enqueue : Queue → ℕ → ℕ → ℕ → List ℕ → Queue
enqueue q watch events cookie name = record q {
  bytes =
      q.bytes
      ++ (word_bytes watch
          ++ (word_bytes events ++ (word_bytes cookie ++ (length name % 256 ∷ name))));
  count = q.count + 1;
}

-- `Queue::push`. The function says whether the allocator grants so many bytes more.
unfoldable pub push : (ℕ → Bool) → Queue → ℕ → ℕ → ℕ → List ℕ → Queue
unfolding enqueue
push grants q watch events cookie name =
    if leb queue_limit q.count || not (grants (2 * header + length name))
    then (if q.lost then q else enqueue (record q { lost = true }) 0 overflow 0 [])
    else enqueue q watch events cookie name

-- What a `pop` gives, and the queue that it leaves. `fault` is the panic of `drain` on a queue whose
-- bytes end too early.
pub data Popped : Type 0 where
  fault : Popped
  nothing : Queue → Popped
  next : Event → Queue → Popped

-- `u32::from_ne_bytes` of the next four bytes, and the bytes behind them.
unfoldable pub read_word : List ℕ → Option (ℕ × List ℕ)
read_word (a ∷ (b ∷ (c ∷ (d ∷ rest)))) = some (a + b * 256 + c * 65536 + d * 16777216, rest)
read_word _ = none

unfoldable pub event_of : ℕ → ℕ → ℕ → List ℕ → Event
unfolding new_event
event_of watch events cookie name = elim (new_event watch events cookie name) [
  | some event ↦ event
  | none ↦ record { watch = 0; events = overflow; cookie = 0; name = [] }
]

unfoldable pub pop_name : Queue → ℕ → ℕ → ℕ → List ℕ → Popped
unfolding event_of
pop_name q watch events cookie [] = nothing (record q { bytes = [] })
pop_name q watch events cookie (size ∷ rest) =
    if ltb (length rest) size
    then fault
    else next (event_of watch events cookie (take size rest)) (record {
      bytes = drop size rest;
      count = q.count - 1;
      lost = if bit_and events overflow == 0 then q.lost else false;
    })

-- `Queue::pop`. A queue that ran empty gives back its memory, which its bytes do not show.
unfoldable pub pop : Queue → Popped
unfolding read_word pop_name
pop q = if q.count == 0 then nothing q else (elim (read_word q.bytes) [
  | none ↦ fault
  | some (watch, rest) ↦ elim (read_word rest) [
    | none ↦ fault
    | some (events, rest') ↦ elim (read_word rest') [
      | none ↦ fault
      | some (cookie, rest'') ↦ pop_name q watch events cookie rest''
    ]
  ]
])
