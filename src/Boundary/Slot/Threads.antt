-- ===== src/Boundary/Slot/Threads.antt =====
-- What a thread does to the slot, and to what the other threads may rely on.
use mathlib.Core.Path.{subst}
use dotnet_pal_rs.Common.{
  ℕ, Bool, ◌≡◌, ◌==◌, Option, none, some, refl, sym, ◌⊎◌, inl, inr, Bool-cases, true, false,
}
use dotnet_pal_rs.Boundary.Slot.{
  Phase, uninitialized, negotiating, ready, rejected, Slot, Thread, entering, loading, claiming,
  building, storing, published, refused, loaded, exchange, built, advance, System,
}

-- Whether a thread has won the slot.
abbrev pub owns : Thread → Bool
owns building = true
owns (storing _) = true
owns _ = false

module _ {A : Type 0} (b : Option A) where
  -- A state that may stand beside the table when `build` answers `b`.
  abbrev pub IsOutcome : Slot A → Phase → Type 0
  IsOutcome s ready = (a : A) × (b ≡ some a) × (s.api ≡ some a)
  IsOutcome s rejected = b ≡ none
  IsOutcome s _ = Unit {0}

  -- Where a thread may be beside a slot.
  abbrev pub IsRight : Slot A → Thread → Type 0
  IsRight s building = s.state ≡ negotiating
  IsRight s (storing p) = (s.state ≡ negotiating) × IsOutcome s p
  IsRight s published = s.state ≡ ready
  IsRight s _ = Unit {0}

  -- The winner is alone, every thread is right, and the stored state is the outcome of `build`.
  pub record IsSafe (s : System A) : Type 0 where
    pub alone : (i j : ℕ) → owns (s.threads i) ≡ true → owns (s.threads j) ≡ true → i ≡ j
    pub right : (i : ℕ) → IsRight s.slot (s.threads i)
    pub stored : IsOutcome s.slot s.slot.state

  loaded-IsRight : (s : Slot A) (p : Phase) → s.state ≡ p → IsRight s (loaded p)
  unfolding loaded
  loaded-IsRight s uninitialized e = tt
  loaded-IsRight s negotiating e = tt
  loaded-IsRight s ready e = e
  loaded-IsRight s rejected e = tt

  exchange-IsRight : (s : Slot A) (p : Phase) → IsRight (exchange p s).0 (exchange p s).1
  unfolding exchange
  exchange-IsRight s uninitialized = refl
  exchange-IsRight s negotiating = tt
  exchange-IsRight s ready = tt
  exchange-IsRight s rejected = tt

  exchange-IsOutcome :
      (s : Slot A) (p : Phase)
      → IsOutcome s s.state
      → IsOutcome (exchange p s).0 (exchange p s).0.state
  unfolding exchange
  exchange-IsOutcome s uninitialized h = tt
  exchange-IsOutcome s negotiating h = h
  exchange-IsOutcome s ready h = h
  exchange-IsOutcome s rejected h = h

  -- A slot that a thread finds uninitialized has no winner, and nobody has seen its table.
  exchange_other :
      (s : Slot A) (p : Phase) (u : Thread) → s.state ≡ p → IsRight s u → IsRight (exchange p s).0 u
  unfolding exchange
  exchange_other s negotiating u e h = h
  exchange_other s ready u e h = h
  exchange_other s rejected u e h = h
  exchange_other s uninitialized (entering _) e h = tt
  exchange_other s uninitialized loading e h = tt
  exchange_other s uninitialized claiming e h = tt
  exchange_other s uninitialized building e h = refl
  exchange_other s uninitialized (storing p) e h = cc
  exchange_other s uninitialized published e h = cc
  exchange_other s uninitialized refused e h = tt

  built-IsRight :
      (s : Slot A) (c : Option A)
      → b ≡ c
      → s.state ≡ negotiating
      → IsRight (built c s).0 (built c s).1
  unfolding built
  built-IsRight s (some a) e h = (h, (a, e, refl))
  built-IsRight s none e h = (h, e)

  built-IsOutcome :
      (s : Slot A) (c : Option A)
      → s.state ≡ negotiating
      → IsOutcome (built c s).0 (built c s).0.state
  unfolding built
  built-IsOutcome s (some a) h = subst (λ p. IsOutcome (record s { api = some a }) p) (sym h) tt
  built-IsOutcome s none h = subst (λ p. IsOutcome s p) (sym h) tt

  built_other :
      (s : Slot A) (c : Option A) (u : Thread)
      → s.state ≡ negotiating
      → owns u ≡ false
      → IsRight s u
      → IsRight (built c s).0 u
  unfolding built
  built_other s none u e o h = h
  built_other s (some a) (entering _) e o h = tt
  built_other s (some a) loading e o h = tt
  built_other s (some a) claiming e o h = tt
  built_other s (some a) building e o h = cc
  built_other s (some a) (storing p) e o h = cc
  built_other s (some a) published e o h = h
  built_other s (some a) refused e o h = tt

  store-IsOutcome : (s : Slot A) (p : Phase) → IsOutcome s p → IsOutcome (record s { state = p }) p
  store-IsOutcome s uninitialized h = tt
  store-IsOutcome s negotiating h = tt
  store-IsOutcome s ready h = h
  store-IsOutcome s rejected h = h

  store_other :
      (s : Slot A) (p : Phase) (u : Thread)
      → s.state ≡ negotiating
      → owns u ≡ false
      → IsRight s u
      → IsRight (record s { state = p }) u
  store_other s p (entering _) e o h = tt
  store_other s p loading e o h = tt
  store_other s p claiming e o h = tt
  store_other s p building e o h = cc
  store_other s p (storing _) e o h = cc
  store_other s p published e o h = cc
  store_other s p refused e o h = tt

  pub advance-IsRight :
      (s : Slot A) (t : Thread) → IsRight s t → IsRight (advance b s t).0 (advance b s t).1
  unfolding advance
  advance-IsRight s (entering version) h = elim (Bool-cases (version == 2)) [
    | inl e ↦ rw e tt
    | inr e ↦ rw e tt
  ]
  advance-IsRight s loading h = loaded-IsRight s s.state refl
  advance-IsRight s claiming h = exchange-IsRight s s.state
  advance-IsRight s building h = built-IsRight s b refl h
  advance-IsRight s (storing p) h = tt
  advance-IsRight s published h = h
  advance-IsRight s refused h = tt

  pub advance-IsOutcome :
      (s : Slot A) (t : Thread)
      → IsRight s t
      → IsOutcome s s.state
      → IsOutcome (advance b s t).0 (advance b s t).0.state
  unfolding advance
  advance-IsOutcome s (entering version) h o = o
  advance-IsOutcome s loading h o = o
  advance-IsOutcome s claiming h o = exchange-IsOutcome s s.state o
  advance-IsOutcome s building h o = built-IsOutcome s b h
  advance-IsOutcome s (storing p) h o = store-IsOutcome s p h.1
  advance-IsOutcome s published h o = o
  advance-IsOutcome s refused h o = o

  -- What one thread does leaves the others right.
  pub advance_other :
      (s : Slot A) (t u : Thread)
      → (owns t ≡ true → owns u ≡ false)
      → IsRight s t
      → IsRight s u
      → IsRight (advance b s t).0 u
  unfolding advance
  advance_other s (entering version) u o g h = h
  advance_other s loading u o g h = h
  advance_other s claiming u o g h = exchange_other s s.state u refl h
  advance_other s building u o g h = built_other s b u g (o refl) h
  advance_other s (storing p) u o g h = store_other s p u g.0 (o refl) h
  advance_other s published u o g h = h
  advance_other s refused u o g h = h

  pub owns-loaded : (p : Phase) → owns (loaded p) ≡ false
  unfolding loaded
  owns-loaded uninitialized = refl
  owns-loaded negotiating = refl
  owns-loaded ready = refl
  owns-loaded rejected = refl

  pub owns-exchange : (s : Slot A) (p : Phase) → owns (exchange p s).1 ≡ true → p ≡ uninitialized
  unfolding exchange
  owns-exchange s uninitialized h = refl
  owns-exchange s negotiating h = cc
  owns-exchange s ready h = cc
  owns-exchange s rejected h = cc

  -- The slot is won only by whom finds it uninitialized.
  pub owns-advance :
      (s : Slot A) (t : Thread)
      → owns (advance b s t).1 ≡ true
      → (owns t ≡ true) ⊎ (s.state ≡ uninitialized)
  unfolding advance
  owns-advance s (entering version) h = elim (Bool-cases (version == 2)) [ inl e ↦ cc | inr e ↦ cc ]
  owns-advance s loading h = let no = owns-loaded s.state in cc
  owns-advance s claiming h = inr (owns-exchange s s.state h)
  owns-advance s building h = inl refl
  owns-advance s (storing p) h = inl refl
  owns-advance s published h = cc
  owns-advance s refused h = cc

  pub owner_at_work :
      (s : Slot A) (u : Thread) → IsRight s u → owns u ≡ true → s.state ≡ negotiating
  owner_at_work s building h o = h
  owner_at_work s (storing p) h o = h.0
  owner_at_work s (entering _) h o = cc
  owner_at_work s loading h o = cc
  owner_at_work s claiming h o = cc
  owner_at_work s published h o = cc
  owner_at_work s refused h o = cc
