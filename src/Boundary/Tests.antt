-- ===== src/Boundary/Tests.antt =====
-- Rounding and the conversions of statuses on concrete numbers.
use dotnet_pal_rs.Common.{◌+◌, ◌-◌, ◌≤◌, ◌<◌, ◌≡◌, ◌%◌, refl, some, true, max}
use dotnet_pal_rs.Common.Words.{is_power_of_two, isize_max}
use dotnet_pal_rs.Boundary.Geometry.{round_size, geometry}
use dotnet_pal_rs.Boundary.Geometry.Rounding.{round_size_least, geometry_lem}
use dotnet_pal_rs.Port.{unsupported, error_status, error_from_status}
use dotnet_pal_rs.Port.Laws.{from_status-status}

round_5000 : round_size 5000 4096 ≡ some 8192
unfolding round_size is_power_of_two
round_5000 = refl

round_size_least_example :
    (5000 ≤ 8192)
    × (8192 < 5000 + 4096)
    × (8192 % 4096 ≡ 0)
    × (8192 ≤ isize_max)
    × (is_power_of_two 4096 ≡ true)
round_size_least_example = round_size_least 5000 4096 round_5000

geometry_5000 : geometry 5000 16384 4096 ≡ some (8192, 16384)
unfolding geometry round_size is_power_of_two
geometry_5000 = refl

geometry_lem_example :
    (round_size 5000 4096 ≡ some 8192)
    × (is_power_of_two 16384 ≡ true)
    × (16384 ≡ max 16384 4096)
    × (8192 + (16384 - 4096) ≤ isize_max)
geometry_lem_example = geometry_lem 5000 16384 4096 geometry_5000

from_status-status_example :
    (error_from_status (error_status unsupported) ≡ some unsupported)
    × (0 < error_status unsupported)
    × (error_status unsupported ≤ 31)
from_status-status_example = from_status-status unsupported
