-- ===== src/Guard/Runs.antt =====
-- The guard over any sequence of events.
use blake.Base.{ℕ, ◌+◌, ◌≤◌, ◌<◌, ◌≡◌, refl, arith, List, [], ◌∷◌}
use blake.Base.{u32, if_either, ==_iff, ltb→lt, ltb→ge}
use blake.Guard.{
  step_idle, step_running, step_ack_wait, step_rollback, step_failsafe, dispatch, fail_closed,
}
use blake.Base.{some, ltb, ◌==◌}
use blake.Guard.{
  Guard, retry_or_rollback, init, step_given, retry_limit, idle, running, ack_wait, rollback,
  failsafe, halted,
}
use blake.Guard.{action_halt}

-- The guard after a list of events.
unfoldable pub run : Guard → List ℕ → Guard
run guard [] = guard
run guard (event ∷ events) = run (step_given guard event).1 events

-- The actions that are returned on the way.
unfoldable pub actions : Guard → List ℕ → List ℕ
actions guard [] = []
actions guard (event ∷ events) =
    (step_given guard event).0 ∷ actions (step_given guard event).1 events

-- The guard that the switch sees.
abbrev pub noted : Guard → ℕ → Guard
noted g event = record g { sequence = u32 (g.sequence + 1); last_event = event }

pub record IsBounded (guard : Guard) : Type 0 where
  pub retries_bounded : guard.retries ≤ guard.max_retries
  pub limit : guard.max_retries ≤ retry_limit
  pub known : guard.state ≤ halted

-- A property of guards that the two shared exits and the plain changes of state keep is kept by every
-- step.
module _ {ℓ} (P : Guard → Type ℓ) (g : Guard) (event : ℕ) where
  -- The property of the guard that a branch leaves behind.
  abbrev Leaves : ℕ × Guard → Type ℓ
  Leaves out = P out.1

  pub retry_or_rollback-keeps :
      (g.retries < g.max_retries → P (record g { retries = u32 (g.retries + 1); state = running }))
      → (g.max_retries ≤ g.retries → P (record g { state = rollback }))
      → Leaves (retry_or_rollback g)
  unfolding retry_or_rollback
  retry_or_rollback-keeps f r =
      if_either Leaves (ltb g.retries g.max_retries) (λ h. f (ltb→lt g.retries g.max_retries h))
        (λ h. r (ltb→ge g.retries g.max_retries h))

retry-IsBounded : (g : Guard) → IsBounded g → IsBounded (retry_or_rollback g).1
retry-IsBounded g v =
    retry_or_rollback-keeps IsBounded g 0
      (λ h. record { retries_bounded = omega (arith, v); limit = v.limit; known = omega arith })
      (λ h. record { retries_bounded = v.retries_bounded; limit = v.limit; known = omega arith })

step_idle-IsBounded : (g : Guard) (event : ℕ) → IsBounded g → IsBounded (step_idle g event).1
unfolding step_idle
step_idle-IsBounded g event v = ground arith

step_running-IsBounded : (g : Guard) (event : ℕ) → IsBounded g → IsBounded (step_running g event).1
unfolding step_running
step_running-IsBounded g event v = ground arith

step_ack_wait-IsBounded :
    (g : Guard) (event : ℕ) → IsBounded g → IsBounded (step_ack_wait g event).1
unfolding step_ack_wait
step_ack_wait-IsBounded g event v = ground arith

step_rollback-IsBounded :
    (g : Guard) (event : ℕ) → IsBounded g → IsBounded (step_rollback g event).1
unfolding step_rollback
step_rollback-IsBounded g event v = ground arith

step_failsafe-IsBounded :
    (g : Guard) (event : ℕ) → IsBounded g → IsBounded (step_failsafe g event).1
unfolding step_failsafe
step_failsafe-IsBounded g event v = ground arith

-- The cases of the switch, each with what it knows of the state.
pub dispatch_cases {ℓ} :
    (P : ℕ × Guard → Type ℓ) (g : Guard) (event : ℕ)
    → (g.state ≡ idle → P (step_idle g event))
    → (g.state ≡ running → P (step_running g event))
    → (g.state ≡ ack_wait → P (step_ack_wait g event))
    → (g.state ≡ rollback → P (step_rollback g event))
    → (g.state ≡ failsafe → P (step_failsafe g event))
    → (g.state ≡ halted → P (action_halt, g))
    → (halted < g.state → P (fail_closed g))
    → P (dispatch g event)
unfolding dispatch
dispatch_cases P g event i r a b f h d =
    if_either P (g.state == idle) (λ e. i ((==_iff g.state idle).0 e))
      (λ n0.
        if_either P (g.state == running) (λ e. r ((==_iff g.state running).0 e))
          (λ n1.
            if_either P (g.state == ack_wait) (λ e. a ((==_iff g.state ack_wait).0 e))
              (λ n2.
                if_either P (g.state == rollback) (λ e. b ((==_iff g.state rollback).0 e))
                  (λ n3.
                    if_either P (g.state == failsafe) (λ e. f ((==_iff g.state failsafe).0 e))
                      (λ n4.
                        if_either P (g.state == halted) (λ e. h ((==_iff g.state halted).0 e))
                          (λ n5. d (ground arith)))))))

dispatch-IsBounded : (g : Guard) (event : ℕ) → IsBounded g → IsBounded (dispatch g event).1
dispatch-IsBounded g event v =
    dispatch_cases (λ out. IsBounded out.1) g event (λ e. step_idle-IsBounded g event v)
      (λ e. step_running-IsBounded g event v) (λ e. step_ack_wait-IsBounded g event v)
      (λ e. step_rollback-IsBounded g event v) (λ e. step_failsafe-IsBounded g event v) (λ e. v)
      (λ e. unfold fail_closed in ground arith)

run-IsBounded : (g : Guard) (events : List ℕ) → IsBounded g → IsBounded (run g events)
unfolding run step_given
run-IsBounded g [] v = v
run-IsBounded g (event ∷ events) v = run-IsBounded (step_given g event).1 events (
    dispatch-IsBounded (noted g event) event
      (record { retries_bounded = v.retries_bounded; limit = v.limit; known = v.known }))

init-IsBounded : (g : Guard) (m : ℕ) → (h : Guard) × (init (some g) m ≡ some h) × IsBounded h
unfolding init
init-IsBounded g m = (_, refl, ground arith)

-- From `rmr_cf_guard_init` on, whatever the arguments and the events, the retries stay within the
-- bound, the bound is at most 7, and the state is one of the six that are named.
pub run-init-IsBounded :
    (g : Guard) (m : ℕ) (events : List ℕ)
    → (h : Guard) × (init (some g) m ≡ some h) × IsBounded (run h events)
run-init-IsBounded g m events =
    let (h, e, v) = init-IsBounded g m in (h, e, run-IsBounded h events v)
