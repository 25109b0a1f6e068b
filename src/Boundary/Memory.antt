-- ===== src/Boundary/Memory.antt =====
-- src/lib.rs, `mod vm` and `mod linear_api`, with src/counter.rs: calls for memory are checked, passed to
-- the provider, whose answer is checked, and counted.
pub mod Checks
pub mod Answers
pub mod Ranges
pub mod Storage
use dotnet_pal_rs.Common.{
  ℕ, ◌+◌, ◌-◌, ◌%◌, bit_and, leb, ltb, ◌==◌, if◌then◌else◌, Bool, true, false, not, ◌&&◌, ◌||◌,
  Option, none, some,
}
use dotnet_pal_rs.Common.Words.{usize_max, saturating_add}
use dotnet_pal_rs.Port.{Result, ok, err, ok_status, error_status, status}
use dotnet_pal_rs.Boundary.Geometry.{round_size, geometry, aligned_output}

-- `UNSUPPORTED`, `INVALID_ARGUMENT`, `OS_ERROR`
abbrev pub unsupported_status : ℕ
unsupported_status = 1

abbrev pub invalid_argument_status : ℕ
invalid_argument_status = 2

abbrev pub os_error_status : ℕ
os_error_status = 3

-- `Counter::increment`, one call at a time.
abbrev pub increment : ℕ → ℕ
increment c = saturating_add c 1

-- The counter of an operation and that of the failures.
pub record Tally : Type 0 where
  pub done : ℕ
  pub failed : ℕ

-- `record`
unfoldable pub record_status : ℕ → Tally → Tally
record_status s c =
    if s == ok_status
    then record c { done = increment c.done }
    else record c { failed = increment c.failed }

-- What a request for memory sees: the provider's state, and the pointers behind the addresses that
-- callers pass for output.
pub record Memory (W : Type 0) : Type 0 where
  pub world : W
  pub outputs : ℕ → ℕ

-- `out.write`
abbrev pub write : (ℕ → ℕ) → ℕ → ℕ → ℕ → ℕ
write outputs out value i = if i == out then value else outputs i

-- `mem::align_of::<*mut c_void>()`
abbrev pub pointer_size : ℕ
pointer_size = 8

-- The check of an address that a provider answers.
unfoldable pub acceptable : ℕ → ℕ → ℕ → Bool
acceptable address size alignment =
    not (address == 0) && (address % alignment == 0 && leb (address + size) usize_max)

module _ {W : Type 0} where
  -- The `match` on the answer of a provider.
  unfoldable pub take_answer : (ℕ → ℕ) → ℕ → ℕ → ℕ → Result ℕ × W → ℕ × Memory W
  unfolding acceptable
  take_answer outputs out size alignment (err e, w) =
      (error_status e, record { world = w; outputs = outputs })
  take_answer outputs out size alignment (ok address, w) =
      if acceptable address size alignment
      then (ok_status, record { world = w; outputs = write outputs out address })
      else (os_error_status, record { world = w; outputs = outputs })

  -- `vm::reserve` and `linear_api::allocate` without their counting, for a page size or granularity and
  -- a call of the provider.
  unfoldable pub request : ℕ → (W → ℕ → ℕ → Result ℕ × W) → Memory W → ℕ → ℕ → ℕ → ℕ → ℕ × Memory W
  unfolding take_answer
  request page call m size alignment flags out =
      if not (aligned_output pointer_size out)
      then (invalid_argument_status, m)
      else if not (flags == 0)
      then (unsupported_status, record m { outputs = write m.outputs out 0 })
      else (elim (geometry size alignment page) [
        | none ↦ (invalid_argument_status, record m { outputs = write m.outputs out 0 })
        | some (rounded, aligned) ↦
            take_answer (write m.outputs out 0) out rounded aligned (call m.world rounded aligned)
      ])

-- `vm::valid_range`
unfoldable pub valid_range : ℕ → ℕ → ℕ → Option ℕ
valid_range page address size = elim (round_size size page) [
  | none ↦ none
  | some rounded ↦
      if address == 0 || not (bit_and address (page - 1) == 0)
      then none
      else (if leb (address + rounded) usize_max then some rounded else none)
]

-- `VirtualMemory`: a provider with a state of its own.
pub record VirtualMemory (W : Type 0) : Type 0 where
  pub page_size : ℕ
  pub reserve : W → ℕ → ℕ → Result ℕ × W
  pub commit : W → ℕ → ℕ → Result (Unit {0}) × W
  pub decommit : W → ℕ → ℕ → Result (Unit {0}) × W
  pub release : W → ℕ → ℕ → Result (Unit {0}) × W
  pub reset : W → ℕ → ℕ → Result (Unit {0}) × W

-- `LinearStorage`: a provider with a state of its own.
pub record LinearStorage (W : Type 0) : Type 0 where
  pub granularity : ℕ
  pub capacity : ℕ
  pub allocate : W → ℕ → ℕ → Result ℕ × W
  pub zeroes : W → ℕ → ℕ → Result (Unit {0}) × W
  pub release : W → ℕ → ℕ → Result (Unit {0}) × W

module _ {W : Type 0} where
  -- `vm::reserve`, with `RESERVE` and `FAILED`
  unfoldable pub reserve : VirtualMemory W → Memory W → Tally → ℕ → ℕ → ℕ → ℕ → ℕ × Memory W × Tally
  unfolding request record_status
  reserve v m c size alignment flags out =
      let (s, m') = request v.page_size v.reserve m size alignment flags out in
      (s, m', record_status s c)

  -- `range_op!`, for `commit`, `decommit`, `release` and `reset` with their counters
  unfoldable pub range_op :
      VirtualMemory W → (W → ℕ → ℕ → Result (Unit {0}) × W) → W → Tally → ℕ → ℕ → ℕ × W × Tally
  unfolding valid_range record_status
  range_op v call w c address size = elim (valid_range v.page_size address size) [
    | none ↦ (invalid_argument_status, w, record_status invalid_argument_status c)
    | some rounded ↦
        let (r, w') = call w address rounded in (status r, w', record_status (status r) c)
  ]

  -- `linear_api::allocate`, with `ALLOCATE` and `ERRORS`
  unfoldable pub allocate :
      LinearStorage W → Memory W → Tally → ℕ → ℕ → ℕ → ℕ → ℕ × Memory W × Tally
  unfolding request record_status
  allocate l m c size alignment flags out =
      let (s, m') = request l.granularity l.allocate m size alignment flags out in
      (s, m', record_status s c)

  -- `linear_api::zero`, with `ZERO` and `ERRORS`
  unfoldable pub zeroes : LinearStorage W → W → Tally → ℕ → ℕ → ℕ × W × Tally
  unfolding record_status
  zeroes l w c address size =
      if address == 0 || (size == 0 || ltb usize_max (address + size))
      then (invalid_argument_status, w, record_status invalid_argument_status c)
      else (let (r, w') = l.zeroes w address size in (status r, w', record_status (status r) c))

  -- `linear_api::release`, with `FREE` and `ERRORS`
  unfoldable pub release : LinearStorage W → W → Tally → ℕ → ℕ → ℕ × W × Tally
  unfolding record_status
  release l w c address size = elim (round_size size l.granularity) [
    | none ↦ (invalid_argument_status, w, record_status invalid_argument_status c)
    | some rounded ↦
        if address == 0
        then (invalid_argument_status, w, record_status invalid_argument_status c)
        else (let (r, w') = l.release w address rounded in
            (status r, w', record_status (status r) c))
  ]
