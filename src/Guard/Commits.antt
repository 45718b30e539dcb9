-- ===== src/Guard/Commits.antt =====
-- What the guard lets happen: no action but failing safe until an operator resets it, no more commits
-- than operations that were armed, and a rollback after bounded failures.
use blake.Base.{
  ℕ, zero, suc, ◌+◌, ◌^◌, ◌≤◌, ◌<◌, ◌≡◌, ◌≢◌, ◌⊎◌, inl, inr, refl, ap, ◌∙◌, arith, List, [], ◌∷◌,
  All, length,
}
use blake.Base.{◌==◌, if◌then◌else◌, lt→ltb, ge→ltb}
use blake.Guard.{
  Guard, retry_or_rollback, fail_closed, step_given, dispatch, retry_limit, idle, running, ack_wait,
  rollback, failsafe,
}
use blake.Guard.{
  event_arm, event_exec_fail, event_watchdog_expired, event_operator_reset, action_commit,
  action_enter_failsafe, action_halt,
}
use blake.Guard.{step_idle, step_running, step_ack_wait, step_rollback, step_failsafe}
use native.Mathlib.Nat.{mod-eq_of_lt}
use blake.Guard.Runs.{run, actions, noted, dispatch_cases}

abbrev pub IsPassive : ℕ → Type 0
IsPassive action = (action ≡ action_enter_failsafe) ⊎ (action ≡ action_halt)

-- The guard is rolling back or beyond, and the action was passive.
abbrev Locked : ℕ × Guard → Type 0
Locked out = (rollback ≤ out.1.state) × IsPassive out.0

step_rollback-Locked : (g : Guard) (event : ℕ) → Locked (step_rollback g event)
unfolding step_rollback
step_rollback-Locked g event = ground arith

step_failsafe-Locked :
    (g : Guard) (event : ℕ)
    → g.state ≡ failsafe
    → event ≢ event_operator_reset
    → Locked (step_failsafe g event)
unfolding step_failsafe
step_failsafe-Locked g event e ne = ground arith

dispatch-Locked :
    (g : Guard) (event : ℕ)
    → rollback ≤ g.state
    → event ≢ event_operator_reset
    → Locked (dispatch g event)
dispatch-Locked g event h ne =
    dispatch_cases Locked g event (λ e. absurd (omega arith)) (λ e. absurd (omega arith))
      (λ e. absurd (omega arith)) (λ e. step_rollback-Locked g event)
      (λ e. step_failsafe-Locked g event e ne) (λ e. (h, inr refl))
      (λ e. unfold fail_closed in (omega arith, inl refl))

-- From a rollback on, as long as the operator does not reset the guard, every action is to enter
-- the failsafe state or to halt, whatever the other events are.
pub run-Locked :
    (g : Guard) (events : List ℕ)
    → rollback ≤ g.state
    → All (λ event. event ≢ event_operator_reset) events
    → (rollback ≤ (run g events).state) × All IsPassive (actions g events)
unfolding run actions step_given
run-Locked g [] h ne = (h, tt)
run-Locked g (event ∷ events) h ne =
    let (stays, passive) = dispatch-Locked (noted g event) event h ne.0 in
    let (last, rest) = run-Locked (step_given g event).1 events stays ne.1 in
    (last, (passive, rest))

-- How often a number occurs.
unfoldable pub count : ℕ → List ℕ → ℕ
count n [] = 0
count n (x ∷ xs) = (if x == n then 1 else 0) + count n xs

-- 1 while an operation is under way.
unfoldable pub under_way : ℕ → ℕ
under_way state = if state == running then 1 else if state == ack_wait then 1 else 0

abbrev Paid : Guard → ℕ → ℕ × Guard → Type 0
Paid g event out =
    (if out.0 == action_commit then 1 else 0) + under_way out.1.state
    ≤ (if event == event_arm then 1 else 0) + under_way g.state

step_idle-Paid : (g : Guard) (event : ℕ) → g.state ≡ idle → Paid g event (step_idle g event)
unfolding step_idle under_way
step_idle-Paid g event e = ground arith

retry_or_rollback-Paid :
    (g : Guard) (event : ℕ) → under_way g.state ≡ 1 → Paid g event (retry_or_rollback g)
unfolding retry_or_rollback under_way
retry_or_rollback-Paid g event e = ground arith

step_running-Paid :
    (g : Guard) (event : ℕ) → g.state ≡ running → Paid g event (step_running g event)
unfolding step_running under_way
step_running-Paid g event e = ground arith

step_ack_wait-Paid :
    (g : Guard) (event : ℕ) → g.state ≡ ack_wait → Paid g event (step_ack_wait g event)
unfolding step_ack_wait under_way
step_ack_wait-Paid g event e = ground arith

step_rollback-Paid : (g : Guard) (event : ℕ) → Paid g event (step_rollback g event)
unfolding step_rollback under_way
step_rollback-Paid g event = ground arith

step_failsafe-Paid :
    (g : Guard) (event : ℕ) → g.state ≡ failsafe → Paid g event (step_failsafe g event)
unfolding step_failsafe under_way
step_failsafe-Paid g event e = ground arith

dispatch-Paid : (g : Guard) (event : ℕ) → Paid g event (dispatch g event)
dispatch-Paid g event =
    dispatch_cases (Paid g event) g event (step_idle-Paid g event) (step_running-Paid g event)
      (step_ack_wait-Paid g event) (λ e. step_rollback-Paid g event) (step_failsafe-Paid g event)
      (λ e. ground arith) (λ e. unfold fail_closed under_way in omega arith)

-- Over any events, the commits and the operation that is still under way are at most the events
-- that arm the guard and the operation that was under way at the start.
pub commits_le_arms :
    (g : Guard) (events : List ℕ)
    → count action_commit (actions g events) + under_way (run g events).state
      ≤ count event_arm events + under_way g.state
unfolding run actions step_given count
commits_le_arms g [] = omega arith
commits_le_arms g (event ∷ events) =
    omega
      (arith, dispatch-Paid (noted g event) event, commits_le_arms (step_given g event).1 events)

-- An event that makes a running operation fail.
abbrev pub IsFailure : ℕ → Type 0
IsFailure event = (event ≡ event_exec_fail) ⊎ (event ≡ event_watchdog_expired)

step_running-failure :
    (g : Guard) (event : ℕ) → IsFailure event → step_running g event ≡ retry_or_rollback g
unfolding step_running
step_running-failure g event (inl e) = rw e
step_running-failure g event (inr e) = rw e

dispatch-failure :
    (g : Guard) (event : ℕ)
    → IsFailure event
    → g.state ≡ running
    → dispatch g event ≡ retry_or_rollback g
dispatch-failure g event f r =
    dispatch_cases (λ out. out ≡ retry_or_rollback g) g event (λ e. absurd (omega arith))
      (λ e. step_running-failure g event f) (λ e. absurd (omega arith)) (λ e. absurd (omega arith))
      (λ e. absurd (omega arith)) (λ e. absurd (omega arith)) (λ e. absurd (omega arith))

-- What is left behind by a failure with retries left, and without.
retried :
    (g : Guard)
    → g.retries < g.max_retries
    → g.max_retries ≤ retry_limit
    → (retry_or_rollback g).1 ≡ record g { retries = g.retries + 1; state = running }
unfolding retry_or_rollback
retried g h m = rw (lt→ltb g.retries g.max_retries h) (
    ap (λ n. record g { retries = n; state = running })
      (mod-eq_of_lt {n = g.retries + 1} {m = 2 ^ 32} (omega arith)))

exhausted : (g : Guard) → g.max_retries ≤ g.retries → (retry_or_rollback g).1.state ≡ rollback
unfolding retry_or_rollback
exhausted g h = rw (ge→ltb g.retries g.max_retries h)

-- A running operation that has `k` retries left, of a bound of at most 7, is rolled back by any `k
-- + 1` failures.
pub failures_roll_back :
    (k : ℕ) (g : Guard) (events : List ℕ)
    → g.state ≡ running
    → g.retries + k ≡ g.max_retries
    → g.max_retries ≤ retry_limit
    → length events ≡ k + 1
    → All IsFailure events
    → (run g events).state ≡ rollback
unfolding run step_given
failures_roll_back k g [] e r m n f = absurd (omega arith)
failures_roll_back zero g (x ∷ y ∷ events) e r m n f = absurd (omega arith)
failures_roll_back zero g (x ∷ []) e r m n f =
    ap (λ (out : ℕ × Guard). out.1.state) (dispatch-failure (noted g x) x f.0 e)
    ∙ exhausted (noted g x) (omega arith)
failures_roll_back (suc k) g (x ∷ events) e r m n f =
    let h = noted g x in
    let next : Guard = record h { retries = h.retries + 1; state = running } in
    ap (λ (out : ℕ × Guard). (run out.1 events).state) (dispatch-failure h x f.0 e)
    ∙ ap (λ after. (run after events).state) (retried h (omega arith) m)
    ∙ failures_roll_back k next events refl (omega arith) m (omega arith) f.1
