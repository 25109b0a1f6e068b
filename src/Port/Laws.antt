-- ===== src/Port/Laws.antt =====
-- What the conversions between errors and statuses of src/port.rs keep.
use dotnet_pal_rs.Common.{leb, if◌then◌else◌, ℕ, ◌≤◌, ◌<◌, ◌≡◌, refl, some, arith}
use dotnet_pal_rs.Port.{
  Error, Result, ok, err, error_status, error_from_status, status, from_status,
}

-- Reading back the status of an error gives that error, and the status is one of 1 to 31.
pub from_status-status :
    (e : Error)
    → (error_from_status (error_status e) ≡ some e) × (0 < error_status e) × (error_status e ≤ 31)
unfolding error_from_status error_status
from_status-status Error.unsupported = (refl, omega arith, omega arith)
from_status-status _ = (refl, omega arith, omega arith)

-- A provider's answer survives the trip over the ABI as far as success and the error go.
pub from_status-status_result : (r : Result (Unit {0})) → from_status (status r) ≡ r
unfolding from_status status
from_status-status_result (ok u) = refl
from_status-status_result (err Error.unsupported) = refl
from_status-status_result (err _) = refl

-- Any published status comes back as itself, and any other one as 3, `OS_ERROR`.
pub status-from_status : (s : ℕ) → status (from_status s) ≡ (if leb s 31 then s else 3)
unfolding from_status status
status-from_status s = ground arith
