-- ===== src/Guard.antt =====
-- rmr/crypto_freestanding140/control/rmr_cf140_guard.c: the supervisor of a critical operation, a
-- state machine that retries, rolls back and fails closed. States, events and actions are the
-- numbers of rmr_cf140_guard.h, so that the `default` of the switch is a case too.
pub mod Runs
pub mod Commits
mod Tests
use blake.Base.{ℕ, ◌+◌, List, [], ◌∷◌, ◌||◌, leb, ltb, ◌==◌, if◌then◌else◌, u32, Option, none, some}

abbrev pub retry_limit : ℕ
retry_limit = 7

abbrev pub idle : ℕ
idle = 0

abbrev pub running : ℕ
running = 1

abbrev pub ack_wait : ℕ
ack_wait = 2

abbrev pub rollback : ℕ
rollback = 3

abbrev pub failsafe : ℕ
failsafe = 4

abbrev pub halted : ℕ
halted = 5

abbrev pub event_arm : ℕ
event_arm = 1

abbrev pub event_exec_ok : ℕ
event_exec_ok = 2

abbrev pub event_exec_fail : ℕ
event_exec_fail = 3

abbrev pub event_ack_ok : ℕ
event_ack_ok = 4

abbrev pub event_ack_fail : ℕ
event_ack_fail = 5

abbrev pub event_watchdog_expired : ℕ
event_watchdog_expired = 6

abbrev pub event_rollback_ok : ℕ
event_rollback_ok = 7

abbrev pub event_rollback_fail : ℕ
event_rollback_fail = 8

abbrev pub event_operator_reset : ℕ
event_operator_reset = 9

abbrev pub action_execute : ℕ
action_execute = 1

abbrev pub action_request_ack : ℕ
action_request_ack = 2

abbrev pub action_commit : ℕ
action_commit = 3

abbrev pub action_retry : ℕ
action_retry = 4

abbrev pub action_rollback : ℕ
action_rollback = 5

abbrev pub action_enter_failsafe : ℕ
action_enter_failsafe = 6

abbrev pub action_halt : ℕ
action_halt = 7

abbrev pub action_reset_accepted : ℕ
action_reset_accepted = 8

-- `rmr_cf_guard`
pub record Guard : Type 0 where
  pub state : ℕ
  pub retries : ℕ
  pub max_retries : ℕ
  pub sequence : ℕ
  pub last_event : ℕ

-- The returned action and the guard that is left.
unfoldable pub retry_or_rollback : Guard → ℕ × Guard
retry_or_rollback guard =
    if ltb guard.retries guard.max_retries
    then (action_retry, record guard { retries = u32 (guard.retries + 1); state = running })
    else (action_rollback, record guard { state = rollback })

unfoldable pub fail_closed : Guard → ℕ × Guard
fail_closed guard = (action_enter_failsafe, record guard { state = failsafe })

unfoldable pub init : Option Guard → ℕ → Option Guard
init none max_retries = none
init (some guard) max_retries = some (record {
  state = idle;
  retries = 0;
  max_retries = if leb max_retries retry_limit then max_retries else retry_limit;
  sequence = 0;
  last_event = 0;
})

unfoldable pub step_idle : Guard → ℕ → ℕ × Guard
unfolding fail_closed
step_idle guard event =
    if event == event_arm
    then (action_execute, record guard { state = running; retries = 0 })
    else fail_closed guard

unfoldable pub step_running : Guard → ℕ → ℕ × Guard
unfolding fail_closed retry_or_rollback
step_running guard event =
    if event == event_exec_ok
    then (action_request_ack, record guard { state = ack_wait })
    else if (event == event_exec_fail) || (event == event_watchdog_expired)
    then retry_or_rollback guard
    else fail_closed guard

unfoldable pub step_ack_wait : Guard → ℕ → ℕ × Guard
unfolding fail_closed retry_or_rollback
step_ack_wait guard event =
    if event == event_ack_ok
    then (action_commit, record guard { state = idle; retries = 0 })
    else if (event == event_ack_fail) || (event == event_watchdog_expired)
    then retry_or_rollback guard
    else fail_closed guard

unfoldable pub step_rollback : Guard → ℕ → ℕ × Guard
unfolding fail_closed
step_rollback guard event =
    if event == event_rollback_ok
    then (action_enter_failsafe, record guard { state = failsafe })
    else if event == event_rollback_fail
    then (action_halt, record guard { state = halted })
    else fail_closed guard

unfoldable pub step_failsafe : Guard → ℕ → ℕ × Guard
step_failsafe guard event =
    if event == event_operator_reset
    then (action_reset_accepted, record guard { state = idle; retries = 0 })
    else (action_enter_failsafe, guard)

-- `switch (guard->state)`
unfoldable pub dispatch : Guard → ℕ → ℕ × Guard
unfolding step_idle step_running step_ack_wait step_rollback step_failsafe fail_closed
dispatch guard event =
    if guard.state == idle
    then step_idle guard event
    else if guard.state == running
    then step_running guard event
    else if guard.state == ack_wait
    then step_ack_wait guard event
    else if guard.state == rollback
    then step_rollback guard event
    else if guard.state == failsafe
    then step_failsafe guard event
    else if guard.state == halted
    then (action_halt, guard)
    else fail_closed guard

-- `rmr_cf_guard_step` of a guard that is given.
unfoldable pub step_given : Guard → ℕ → ℕ × Guard
unfolding dispatch
step_given guard event =
    dispatch (record guard { sequence = u32 (guard.sequence + 1); last_event = event }) event

unfoldable pub step : Option Guard → ℕ → ℕ × Option Guard
unfolding step_given
step none event = (action_halt, none)
step (some guard) event = let (action, after) = step_given guard event in (action, some after)
