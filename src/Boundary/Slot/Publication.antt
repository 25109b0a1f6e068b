-- ===== src/Boundary/Slot/Publication.antt =====
-- The negotiation of a table under schedules of its callers.
use mathlib.Core.Path.{subst}
use dotnet_pal_rs.Common.{
  ℕ, zero, suc, replicate, ◌≡◌, ◌==◌, if◌then◌else◌, Option, none, some, List, [], ◌∷◌, refl, ap,
  ◌∙◌, inl, inr, arith, Bool-cases, true, false,
}
use dotnet_pal_rs.Boundary.Slot.{
  ready, Slot, new, Thread, entering, loading, claiming, building, storing, published, refused,
  loaded, exchange, built, advance, System, step, run,
}
use dotnet_pal_rs.Boundary.Slot.Threads.{
  owns, IsOutcome, IsRight, IsSafe, advance-IsRight, advance-IsOutcome, advance_other, owns-advance,
  owner_at_work,
}

-- A fresh slot, and callers with their versions.
abbrev pub start : {A : Type 0} → (ℕ → ℕ) → System A
start versions = record { slot = new; threads = λ i. entering (versions i) }

-- What one thread does when the others rest.
abbrev alone : {A : Type 0} → Option A → ℕ → Slot A × Thread → Slot A × Thread
alone b zero x = x
alone b (suc n) x = alone b n (advance b x.0 x.1)

undisturbed :
    {A : Type 0} (b : Option A)
    → (alone b 6 (new, entering 2)).1 ≡ (elim b [ none ↦ refused | some _ ↦ published ])
unfolding advance loaded exchange built
undisturbed none = refl
undisturbed (some a) = refl

module _ {A : Type 0} (b : Option A) where
  module _ (s : System A) (v : IsSafe b s) (i : ℕ) where
    abbrev after : Slot A × Thread
    after = advance b s.slot (s.threads i)

    -- A new winner is the only one.
    newest : (k : ℕ) → (k == i) ≡ false → owns after.1 ≡ true → owns (s.threads k) ≡ false
    newest k other won = elim (Bool-cases (owns (s.threads k))) [
      | inr idle ↦ idle
      | inl yes_ ↦ elim (owns-advance b s.slot (s.threads i) won) [
        | inl before ↦ let same = v.alone k i yes_ before in absurd (ground (arith, other, same))
        | inr free ↦ let busy = owner_at_work b s.slot (s.threads k) (v.right k) yes_ in cc
      ]
    ]

    -- Beside a winner no other thread is one.
    only : (k : ℕ) → (k == i) ≡ false → owns (s.threads i) ≡ true → owns (s.threads k) ≡ false
    only k other won = elim (Bool-cases (owns (s.threads k))) [
      | inr idle ↦ idle
      | inl busy ↦ let same = v.alone k i busy won in absurd (ground (arith, other, same))
    ]

    step-IsSafe : IsSafe b (step b s i)
    unfolding step
    step-IsSafe = record {
      alone = alone;
      right = right;
      stored = advance-IsOutcome b s.slot (s.threads i) (v.right i) v.stored;
    }
      where
        alone :
            (j k : ℕ)
            → owns ((step b s i).threads j) ≡ true
            → owns ((step b s i).threads k) ≡ true
            → j ≡ k
        alone j k first second = elim (Bool-cases (j == i)) [
          | inl here ↦ elim (Bool-cases (k == i)) [
            | inl there ↦ ground (arith, here, there)
            | inr there ↦
                let idle = newest k there (rw (here, step) at first) in
                let yes_ : owns (s.threads k) ≡ true = (rw (there, step) at second) in cc
          ]
          | inr here ↦ elim (Bool-cases (k == i)) [
            | inl there ↦
                let idle = newest j here (rw (there, step) at second) in
                let yes_ : owns (s.threads j) ≡ true = (rw (here, step) at first) in cc
            | inr there ↦ v.alone j k (rw (here, step) at first) (rw (there, step) at second)
          ]
        ]

        right : (j : ℕ) → IsRight b after.0 (if j == i then after.1 else s.threads j)
        right j = elim (Bool-cases (j == i)) [
          | inl here ↦ rw here (advance-IsRight b s.slot (s.threads i) (v.right i))
          | inr here ↦ rw here (
              advance_other b s.slot (s.threads i) (s.threads j) (λ mine. only j here mine)
                (v.right i) (v.right j))
        ]

  -- Safety outlives every schedule: at most one thread builds or stores, what is stored is the outcome of
  -- `build`, and no thread is back with the table unless the state says that it is ready.
  pub run-IsSafe : (s : System A) (schedule : List ℕ) → IsSafe b s → IsSafe b (run b s schedule)
  run-IsSafe s [] v = v
  run-IsSafe s (i ∷ schedule) v = run-IsSafe (step b s i) schedule (step-IsSafe s v i)

  -- A fresh slot is safe for any callers.
  pub start-IsSafe : (versions : ℕ → ℕ) → IsSafe b (start versions)
  start-IsSafe versions = record { alone = λ i j h _. cc; right = λ i. tt; stored = tt }

  -- Whoever is back with the table, in any schedule of callers with any versions, has one that `build`
  -- made and that is written in the slot.
  pub run_published :
      (versions : ℕ → ℕ) (schedule : List ℕ) (i : ℕ)
      → (run b (start versions) schedule).threads i ≡ published
      → (a : A) × (b ≡ some a) × ((run b (start versions) schedule).slot.api ≡ some a)
  run_published versions schedule i e =
      let s = run b (start versions) schedule in
      let v = run-IsSafe (start versions) schedule (start-IsSafe versions) in
      let at_end : s.slot.state ≡ ready = subst (IsRight b s.slot) e (v.right i) in
      subst (IsOutcome b s.slot) at_end v.stored

  -- Nobody works on a slot that is ready.
  advance_ready :
      (s : Slot A) (t : Thread) → s.state ≡ ready → IsRight b s t → (advance b s t).0 ≡ s
  unfolding advance exchange
  advance_ready s (entering version) e h = refl
  advance_ready s loading e h = refl
  advance_ready s claiming e h = rw (e, exchange)
  advance_ready s building e h = cc
  advance_ready s (storing p) e h = let busy = h.0 in cc
  advance_ready s published e h = refl
  advance_ready s refused e h = refl

  -- Once it is ready the slot, its table included, never changes again.
  pub run_settled :
      (s : System A) (schedule : List ℕ)
      → IsSafe b s
      → s.slot.state ≡ ready
      → (run b s schedule).slot ≡ s.slot
  unfolding step
  run_settled s [] v e = refl
  run_settled s (i ∷ schedule) v e =
      let same : (step b s i).slot ≡ s.slot = advance_ready s.slot (s.threads i) e (v.right i) in
      run_settled (step b s i) schedule (step-IsSafe s v i) (ap (λ x. x.state) same ∙ e) ∙ same

  run-replicate :
      (i n : ℕ) (s : System A)
      → ((run b s (replicate n i)).slot, (run b s (replicate n i)).threads i)
        ≡ alone b n (s.slot, s.threads i)
  unfolding step
  run-replicate i zero s = refl
  run-replicate i (suc n) s =
      let here : (i == i) ≡ true = ground arith in
      let own : (step b s i).threads i ≡ (advance b s.slot (s.threads i)).1 = rw (here, step) in
      run-replicate i n (step b s i) ∙ ap (λ t. alone b n ((step b s i).slot, t)) own

  -- A caller with the right version that is not disturbed comes back after six steps, with the table
  -- just when `build` makes one.
  pub run_alone :
      (versions : ℕ → ℕ) (i : ℕ)
      → versions i ≡ 2
      → (run b (start versions) (replicate 6 i)).threads i
        ≡ (elim b [ none ↦ refused | some _ ↦ published ])
  run_alone versions i e =
      ap (λ x. x.1) (run-replicate i 6 (start versions))
      ∙ ap (λ v. (alone b 6 (new, entering v)).1) e
      ∙ undisturbed b
