-- ===== src/Boundary/Slot.antt =====
-- `Slot` and `negotiate` of src/lib.rs: threads that negotiate one table, one access of the slot's state
-- at a time. Stores are seen in their order, as `Acquire` and `Release` promise.
pub mod Threads
pub mod Publication
mod Tests
use dotnet_pal_rs.Common.{ℕ, ◌==◌, if◌then◌else◌, Option, none, some, List, [], ◌∷◌}

-- `ABI_VERSION`
abbrev pub abi_version : ℕ
abi_version = 2

-- `UNINITIALIZED`, `NEGOTIATING`, `READY` and `REJECTED`
pub data Phase : Type 0 where
  uninitialized negotiating ready rejected : Phase

-- `Slot`: the table, once it is written, and the state.
pub record Slot (A : Type 0) : Type 0 where
  pub api : Option A
  pub state : Phase

-- Where a thread is in `negotiate`: at its test of the version, at the load of its loop, at its
-- `compare_exchange`, at its call of `build`, at its store of the outcome, or back, with or without the
-- address of the table.
pub data Thread : Type 0 where
  entering : ℕ → Thread
  loading claiming building : Thread
  storing : Phase → Thread
  published refused : Thread

-- `Slot::new`
abbrev pub new : {A : Type 0} → Slot A
new = record { api = none; state = uninitialized }

-- The arms of the `match` on the loaded state.
unfoldable pub loaded : Phase → Thread
loaded ready = published
loaded rejected = refused
loaded negotiating = loading
loaded uninitialized = claiming

-- A slot and the threads that use it.
pub record System (A : Type 0) : Type 0 where
  pub slot : Slot A
  pub threads : ℕ → Thread

module _ {A : Type 0} where
  -- `compare_exchange(UNINITIALIZED, NEGOTIATING)`
  unfoldable pub exchange : Phase → Slot A → Slot A × Thread
  exchange uninitialized s = (record s { state = negotiating }, building)
  exchange _ s = (s, loading)

  -- The outcome of `build`.
  unfoldable pub built : Option A → Slot A → Slot A × Thread
  built (some table) s = (record s { api = some table }, storing ready)
  built none s = (s, storing rejected)

  -- What a thread does next, where `build` answers the first argument.
  unfoldable pub advance : Option A → Slot A → Thread → Slot A × Thread
  unfolding loaded exchange built
  advance b s (entering version) = (s, if version == abi_version then loading else refused)
  advance b s loading = (s, loaded s.state)
  advance b s claiming = exchange s.state s
  advance b s building = built b s
  advance b s (storing outcome) = (record s { state = outcome }, loading)
  advance b s published = (s, published)
  advance b s refused = (s, refused)

  -- One thread advances.
  unfoldable pub step : Option A → System A → ℕ → System A
  unfolding advance
  step b s i =
      let (slot, thread) = advance b s.slot (s.threads i) in
      record { slot = slot; threads = λ j. if j == i then thread else s.threads j }

  -- The threads advance in the order of a schedule.
  abbrev pub run : Option A → System A → List ℕ → System A
  run b s [] = s
  run b s (i ∷ schedule) = run b (step b s i) schedule
