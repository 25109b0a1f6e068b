-- ===== src/Storage/Arena/Blocks.antt =====
-- The arena as its clients see it: a map from first blocks to counts of blocks.
pub mod Allocate
pub mod Release
use dotnet_pal_rs.Common.{
  ℕ, ◌+◌, ◌*◌, ◌≤◌, ◌<◌, ◌≡◌, ◌%◌, ◌==◌, if◌then◌else◌, List, get_or, length, arith,
}
use dotnet_pal_rs.Common.Words.{usize_max}
use dotnet_pal_rs.Storage.Arena.{Place, Arena, tail, capacity}
use dotnet_pal_rs.Storage.Arena.Validity.{IsHead, IsValid}

-- What the static object guarantees: it has an address, lies in the address space and starts on a
-- multiple of 64 KiB.
pub record IsPlaced (p : Place) : Type 0 where
  pub not_null : 0 < p.base
  pub in_space : p.base + capacity p ≤ usize_max
  pub aligned : p.base % 65536 ≡ 0

-- The blocks of the allocation that starts at a block, and 0 where none does.
unfoldable pub live : List ℕ → ℕ → ℕ
live slots i = if get_or slots i 0 == tail then 0 else get_or slots i 0

pub live-IsHead : (slots : List ℕ) (i : ℕ) → 0 < live slots i → IsHead slots i
unfolding live
live-IsHead slots i h = (ground arith, ground arith)

pub IsHead-live : (slots : List ℕ) (i : ℕ) → IsHead slots i → live slots i ≡ get_or slots i 0
unfolding live
IsHead-live slots i h = ground arith

pub live_of_eq : (xs ys : List ℕ) (i : ℕ) → get_or xs i 0 ≡ get_or ys i 0 → live xs i ≡ live ys i
unfolding live
live_of_eq xs ys i e = rw e
