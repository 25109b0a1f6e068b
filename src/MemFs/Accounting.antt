-- ===== src/MemFs/Accounting.antt =====
-- The bytes that the nodes hold, against the counter `used` and its bound.
pub mod Nodes
pub mod Edits
pub mod Changes
pub mod Files
pub mod Paths
pub mod Mappings
pub mod Watches
pub mod Reachable
use dotnet_pal_rs.Common.{
  ℕ, zero, suc, ◌+◌, ◌-◌, ◌≤◌, ◌<◌, ◌≡◌, ◌∙◌, refl, sym, ap, ◌==◌, if◌then◌else◌, Bool, true, false,
  Option, none, some, List, [], ◌∷◌, arith, Option-cases, Bool-cases, inl, inr,
}
use dotnet_pal_rs.MemFs.Maps.{lookup, insert, remove, nat_key}
use dotnet_pal_rs.MemFs.Maps.Sums.{HasUniqueKeys, total, worth}
use dotnet_pal_rs.MemFs.State.{State, Node}
use dotnet_pal_rs.MemFs.Tree.{body_size}

abbrev pub node_size : Node → ℕ
node_size n = body_size n.body

-- No node stands twice or beyond the next identity; `used` is what the files hold, and neither it nor the
-- capacity is above a bound.
pub record IsAccounted (most : ℕ) (s : State) : Type 0 where
  pub unique : HasUniqueKeys s.nodes
  pub fresh : (id : ℕ) → s.next_id ≤ id → lookup id s.nodes ≡ none
  pub exact : s.used ≡ total node_size s.nodes
  pub bounded : s.used ≤ most
  pub allowed : s.capacity ≤ most
