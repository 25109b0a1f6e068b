-- ===== src/Port.antt =====
-- src/port.rs: the failure statuses of the C ABI, and their conversions at the boundary.
pub mod Laws
use dotnet_pal_rs.Common.{ℕ, ◌≡◌, refl, ◌⊎◌, inl, inr, ◌==◌, if◌then◌else◌, Option, none, some}

-- `port::Error`
pub data Error : Type 0 where
  unsupported invalid_argument os out_of_memory timeout busy buffer_too_small not_found : Error
  already_exists access_denied is_directory not_directory not_empty no_space would_block : Error
  broken_pipe connection_refused connection_reset connection_aborted not_connected : Error
  already_connected address_in_use address_not_available network_unreachable : Error
  host_unreachable in_progress too_many_handles name_too_long read_only cross_device : Error
  message_too_large : Error

-- `port::Result`: the constructors are `Ok` and `Err`.
pub data Result {ℓ} (T : Type ℓ) : Type ℓ where
  err : Error → Result T
  ok : T → Result T

-- `result?` and what follows it.
infixl 5 ◌>>=◌ ◌>>◌
abbrev pub ◌>>=◌ {ℓ κ} : {T : Type ℓ} {U : Type κ} → Result T → (T → Result U) → Result U
◌>>=◌ (err cause) next = err cause
◌>>=◌ (ok value) next = next value

abbrev pub ◌>>◌ {ℓ} : {U : Type ℓ} → Result (Unit {0}) → Result U → Result U
◌>>◌ (err cause) following = err cause
◌>>◌ (ok _) following = following

pub Result-cases {ℓ} :
    {A : Type ℓ} (r : Result A) → ((a : A) × (r ≡ ok a)) ⊎ ((e : Error) × (r ≡ err e))
Result-cases (ok a) = inl (a, refl)
Result-cases (err e) = inr (e, refl)

-- `option.ok_or(error)`
abbrev pub ok_or {ℓ} : {A : Type ℓ} → Option A → Error → Result A
ok_or none e = err e
ok_or (some a) e = ok a

-- `crate::OK`
abbrev pub ok_status : ℕ
ok_status = 0

-- `Error::status`: the discriminants of the enum.
unfoldable pub error_status : Error → ℕ
error_status unsupported = 1
error_status invalid_argument = 2
error_status os = 3
error_status out_of_memory = 4
error_status timeout = 5
error_status busy = 6
error_status buffer_too_small = 7
error_status not_found = 8
error_status already_exists = 9
error_status access_denied = 10
error_status is_directory = 11
error_status not_directory = 12
error_status not_empty = 13
error_status no_space = 14
error_status would_block = 15
error_status broken_pipe = 16
error_status connection_refused = 17
error_status connection_reset = 18
error_status connection_aborted = 19
error_status not_connected = 20
error_status already_connected = 21
error_status address_in_use = 22
error_status address_not_available = 23
error_status network_unreachable = 24
error_status host_unreachable = 25
error_status in_progress = 26
error_status too_many_handles = 27
error_status name_too_long = 28
error_status read_only = 29
error_status cross_device = 30
error_status message_too_large = 31

-- `Error::from_status`: a status outside the published set becomes `os`. There is no arm for
-- `OS_ERROR` itself, which the last one takes.
unfoldable pub error_from_status : ℕ → Option Error
error_from_status s =
    if s == 0
    then none
    else if s == 1
    then some unsupported
    else if s == 2
    then some invalid_argument
    else if s == 4
    then some out_of_memory
    else if s == 5
    then some timeout
    else if s == 6
    then some busy
    else if s == 7
    then some buffer_too_small
    else if s == 8
    then some not_found
    else if s == 9
    then some already_exists
    else if s == 10
    then some access_denied
    else if s == 11
    then some is_directory
    else if s == 12
    then some not_directory
    else if s == 13
    then some not_empty
    else if s == 14
    then some no_space
    else if s == 15
    then some would_block
    else if s == 16
    then some broken_pipe
    else if s == 17
    then some connection_refused
    else if s == 18
    then some connection_reset
    else if s == 19
    then some connection_aborted
    else if s == 20
    then some not_connected
    else if s == 21
    then some already_connected
    else if s == 22
    then some address_in_use
    else if s == 23
    then some address_not_available
    else if s == 24
    then some network_unreachable
    else if s == 25
    then some host_unreachable
    else if s == 26
    then some in_progress
    else if s == 27
    then some too_many_handles
    else if s == 28
    then some name_too_long
    else if s == 29
    then some read_only
    else if s == 30
    then some cross_device
    else if s == 31
    then some message_too_large
    else some os

-- `port::status`
unfoldable pub status {ℓ} : {A : Type ℓ} → Result A → ℕ
unfolding error_status
status (ok a) = ok_status
status (err e) = error_status e

-- `port::from_status`
unfoldable pub from_status : ℕ → Result (Unit {0})
unfolding error_from_status
from_status s = elim (error_from_status s) [ none ↦ ok tt | some e ↦ err e ]
