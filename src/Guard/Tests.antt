-- ===== src/Guard/Tests.antt =====
-- The theorems on the guard applied to runs.
use blake.Base.{◌+◌, ◌≤◌, ◌≡◌, inl, inr, refl, arith, [], ◌∷◌, All, some}
use blake.Guard.{Guard, init, rollback, event_arm, event_operator_reset, action_commit}
use blake.Guard.Runs.{run, actions, IsBounded, run-init-IsBounded}
use blake.Guard.Commits.{
  IsPassive, run-Locked, count, under_way, commits_le_arms, failures_roll_back,
}

-- Running, with two retries left of three.
abbrev guard : Guard
guard = record { state = 1; retries = 1; max_retries = 3; sequence = 5; last_event = 3 }

run-init-IsBounded_example :
    (h : Guard) × (init (some guard) 9 ≡ some h) × IsBounded (run h (1 ∷ 3 ∷ 2 ∷ 5 ∷ []))
run-init-IsBounded_example = run-init-IsBounded guard 9 (1 ∷ 3 ∷ 2 ∷ 5 ∷ [])

abbrev rolling_back : Guard
rolling_back = record { state = 3; retries = 3; max_retries = 3; sequence = 5; last_event = 3 }

run-Locked_example :
    (rollback ≤ (run rolling_back (7 ∷ 1 ∷ 4 ∷ [])).state)
    × All IsPassive (actions rolling_back (7 ∷ 1 ∷ 4 ∷ []))
run-Locked_example =
    run-Locked rolling_back (7 ∷ 1 ∷ 4 ∷ []) (omega arith)
      (λ e. omega arith, (λ e. omega arith, (λ e. omega arith, tt)))

commits_le_arms_example :
    count action_commit (actions guard (2 ∷ 4 ∷ 1 ∷ 2 ∷ 4 ∷ []))
      + under_way (run guard (2 ∷ 4 ∷ 1 ∷ 2 ∷ 4 ∷ [])).state
    ≤ count event_arm (2 ∷ 4 ∷ 1 ∷ 2 ∷ 4 ∷ []) + under_way guard.state
commits_le_arms_example = commits_le_arms guard (2 ∷ 4 ∷ 1 ∷ 2 ∷ 4 ∷ [])

failures_roll_back_example : (run guard (3 ∷ 6 ∷ 3 ∷ [])).state ≡ rollback
failures_roll_back_example =
    failures_roll_back 2 guard (3 ∷ 6 ∷ 3 ∷ []) refl refl (omega arith) refl
      (inl refl, (inr refl, (inl refl, tt)))

-- The model run.
commits_run : actions guard (2 ∷ 4 ∷ 1 ∷ 2 ∷ 4 ∷ []) ≡ 2 ∷ 3 ∷ 1 ∷ 2 ∷ 3 ∷ []
unfolding actions blake.Guard.step_given blake.Guard.dispatch
commits_run = refl
