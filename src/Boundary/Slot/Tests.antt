-- ===== src/Boundary/Slot/Tests.antt =====
-- Two callers and one table.
use dotnet_pal_rs.Common.{ℕ, ◌≡◌, Option, none, some, List, [], ◌∷◌, refl, replicate}
use dotnet_pal_rs.Boundary.Slot.{
  ready, refused, System, published, run, step, advance, loaded, exchange, built,
}
use dotnet_pal_rs.Boundary.Slot.Threads.{IsSafe}
use dotnet_pal_rs.Boundary.Slot.Publication.{
  start, start-IsSafe, run-IsSafe, run_published, run_settled, run_alone,
}

-- The second caller waits while the first one builds.
abbrev schedule : List ℕ
schedule = 0 ∷ 1 ∷ 0 ∷ 0 ∷ 1 ∷ 1 ∷ 0 ∷ 0 ∷ 1 ∷ []

abbrev now : System ℕ
now = run (some 5) (start (λ _. 2)) schedule

second_back : now.threads 1 ≡ published
unfolding step advance loaded exchange built
second_back = refl

now_ready : now.slot.state ≡ ready
unfolding step advance loaded exchange built
now_ready = refl

now-IsSafe : IsSafe (some 5) now
now-IsSafe = run-IsSafe (some 5) (start (λ _. 2)) schedule (start-IsSafe (some 5) (λ _. 2))

run-IsSafe_example : IsSafe (some 5) now
run-IsSafe_example = run-IsSafe (some 5) (start (λ _. 2)) schedule (start-IsSafe (some 5) (λ _. 2))

run_published_example : (a : ℕ) × (some 5 ≡ some a) × (now.slot.api ≡ some a)
run_published_example = run_published (some 5) (λ _. 2) schedule 1 second_back

run_settled_example : (run (some 5) now (0 ∷ 1 ∷ [])).slot ≡ now.slot
run_settled_example = run_settled (some 5) now (0 ∷ 1 ∷ []) now-IsSafe now_ready

-- A port that rejects every negotiation.
abbrev rejecting : Option ℕ
rejecting = none

run_alone_example : (run rejecting (start (λ _. 2)) (replicate 6 3)).threads 3 ≡ refused
run_alone_example = run_alone rejecting (λ _. 2) 3 refl
