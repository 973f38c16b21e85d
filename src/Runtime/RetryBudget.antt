-- ===== src/Runtime/RetryBudget.antt =====
-- The budget of a task node: how often it may be attempted and recovered. The counters are the
-- node's (internal/runtime/model.go), the limits those of its execution policy.
use evalfrog.Prelude.{ℕ, ◌≤◌, ◌<◌, String, ◌≡◌, Bool, true, false, arith}
use evalfrog.Runtime.Error.{ok}
use evalfrog.Runtime.States.{NodeKind, NodeState, RetryKind, business_retry, recovery, is_task}
use evalfrog.Runtime.Failure.{Time, Failure}
use evalfrog.Runtime.Node.{
  Values, NodeRun, is_recovery, activate, become_ready, skip, succeed_control, fail_control,
  fail_before_attempt, queue_attempt, attempt_started, retry_wait, retry_due, succeed_attempt,
  fail_attempt, cancel, fresh_node,
}
use evalfrog.Runtime.NodeMoves.{
  NodeMove, activates, readies, skips, succeeds_control, fails_control, fails_early, queues, starts,
  retries, succeeds, fails, cancels,
}

-- an attempt is still to be queued from this state
abbrev pub awaits_queue : NodeState → Bool
awaits_queue NodeState.pending = true
awaits_queue NodeState.ready = true
awaits_queue NodeState.retry_wait = true
awaits_queue _ = false

pub record WithinBudget (attempts recoveries : ℕ) (n : NodeRun) : Type 0 where
  pub attempted : n.business_attempt_count ≤ attempts
  pub recovered : n.recovery_count ≤ recoveries
  pub room_to_attempt :
      is_task n.kind ≡ true
      → awaits_queue n.state ≡ true
      → is_recovery n.next_attempt_kind ≡ false
      → n.business_attempt_count < attempts
  pub room_to_recover :
      is_task n.kind ≡ true
      → awaits_queue n.state ≡ true
      → is_recovery n.next_attempt_kind ≡ true
      → n.recovery_count < recoveries

-- the limits are unsigned integers of 32 bits
abbrev pub AreLimits : ℕ → ℕ → Type 0
AreLimits attempts recoveries = (attempts < 4294967296) × (recoveries < 4294967296)

module _ {attempts recoveries : ℕ} (l : AreLimits attempts recoveries) where
  activate-WithinBudget :
      (n : NodeRun) {n' : NodeRun}
      → WithinBudget attempts recoveries n
      → activate n ≡ ok n'
      → WithinBudget attempts recoveries n'
  unfolding activate
  activate-WithinBudget n v h = ground arith

  become_ready-WithinBudget :
      (n : NodeRun) {n' : NodeRun}
      → WithinBudget attempts recoveries n
      → (inputs : Values) → become_ready inputs n ≡ ok n'
      → WithinBudget attempts recoveries n'
  unfolding become_ready
  become_ready-WithinBudget n v inputs h = ground arith

  skip-WithinBudget :
      (n : NodeRun) {n' : NodeRun}
      → WithinBudget attempts recoveries n
      → skip n ≡ ok n'
      → WithinBudget attempts recoveries n'
  unfolding skip
  skip-WithinBudget n v h = ground arith

  succeed_control-WithinBudget :
      (n : NodeRun) {n' : NodeRun}
      → WithinBudget attempts recoveries n
      → (route : String) (outputs : Values) → succeed_control route outputs n ≡ ok n'
      → WithinBudget attempts recoveries n'
  unfolding succeed_control
  succeed_control-WithinBudget n v route outputs h = ground arith

  fail_control-WithinBudget :
      (n : NodeRun) {n' : NodeRun}
      → WithinBudget attempts recoveries n
      → (f : Failure) → fail_control f n ≡ ok n'
      → WithinBudget attempts recoveries n'
  unfolding fail_control
  fail_control-WithinBudget n v f h = ground arith

  fail_before_attempt-WithinBudget :
      (n : NodeRun) {n' : NodeRun}
      → WithinBudget attempts recoveries n
      → (f : Failure) → fail_before_attempt f n ≡ ok n'
      → WithinBudget attempts recoveries n'
  unfolding fail_before_attempt
  fail_before_attempt-WithinBudget n v f h = ground arith

  queue_attempt-WithinBudget :
      (n : NodeRun) {n' : NodeRun}
      → WithinBudget attempts recoveries n
      → (a : String) (sequence : ℕ) (kind : RetryKind) → queue_attempt a n ≡ ok (sequence, kind, n')
      → WithinBudget attempts recoveries n'
  unfolding queue_attempt
  queue_attempt-WithinBudget n v a sequence kind h = ground arith

  attempt_started-WithinBudget :
      (n : NodeRun) {n' : NodeRun}
      → WithinBudget attempts recoveries n
      → (a : String) → attempt_started a n ≡ ok n'
      → WithinBudget attempts recoveries n'
  unfolding attempt_started
  attempt_started-WithinBudget n v a h = ground arith

  retry_due-WithinBudget :
      (n : NodeRun) {n' : NodeRun}
      → WithinBudget attempts recoveries n
      → (at : Time) → retry_due at n ≡ ok (true, n')
      → WithinBudget attempts recoveries n'
  unfolding retry_due
  retry_due-WithinBudget n v at h = ground arith

  succeed_attempt-WithinBudget :
      (n : NodeRun) {n' : NodeRun}
      → WithinBudget attempts recoveries n
      → (a : String) (outputs : Values) → succeed_attempt a outputs n ≡ ok n'
      → WithinBudget attempts recoveries n'
  unfolding succeed_attempt
  succeed_attempt-WithinBudget n v a outputs h = ground arith

  fail_attempt-WithinBudget :
      (n : NodeRun) {n' : NodeRun}
      → WithinBudget attempts recoveries n
      → (a : String) (target : NodeState) (f : Failure) → fail_attempt a target f n ≡ ok n'
      → WithinBudget attempts recoveries n'
  unfolding fail_attempt
  fail_attempt-WithinBudget n v a target f h = ground arith

  cancel-WithinBudget :
      (n : NodeRun) {n' : NodeRun}
      → WithinBudget attempts recoveries n
      → (reason : String) → cancel reason n ≡ ok n'
      → WithinBudget attempts recoveries n'
  unfolding cancel
  cancel-WithinBudget n v reason h = ground arith

  -- With limits of 32 bits, every operation but RetryWait keeps a node within its budget of attempts
  -- and recoveries.
  pub NodeMove-WithinBudget :
      {n n' : NodeRun}
      → WithinBudget attempts recoveries n
      → NodeMove n n'
      → WithinBudget attempts recoveries n'
  NodeMove-WithinBudget {n} v (activates h) = activate-WithinBudget n v h
  NodeMove-WithinBudget {n} v (readies inputs h) = become_ready-WithinBudget n v inputs h
  NodeMove-WithinBudget {n} v (skips h) = skip-WithinBudget n v h
  NodeMove-WithinBudget {n} v (succeeds_control route outputs h) =
      succeed_control-WithinBudget n v route outputs h
  NodeMove-WithinBudget {n} v (fails_control f h) = fail_control-WithinBudget n v f h
  NodeMove-WithinBudget {n} v (fails_early f h) = fail_before_attempt-WithinBudget n v f h
  NodeMove-WithinBudget {n} v (queues a sequence kind h) =
      queue_attempt-WithinBudget n v a sequence kind h
  NodeMove-WithinBudget {n} v (starts a h) = attempt_started-WithinBudget n v a h
  NodeMove-WithinBudget {n} v (retries at h) = retry_due-WithinBudget n v at h
  NodeMove-WithinBudget {n} v (succeeds a outputs h) = succeed_attempt-WithinBudget n v a outputs h
  NodeMove-WithinBudget {n} v (fails a target f h) = fail_attempt-WithinBudget n v a target f h
  NodeMove-WithinBudget {n} v (cancels reason h) = cancel-WithinBudget n v reason h

  -- RetryWait does where the counter of the kind of retry is below its limit.
  pub business_retry-WithinBudget :
      (n : NodeRun) {n' : NodeRun} (a : String) (due : Time)
      → WithinBudget attempts recoveries n
      → n.business_attempt_count < attempts
      → retry_wait a business_retry due n ≡ ok n'
      → WithinBudget attempts recoveries n'
  unfolding retry_wait is_recovery
  business_retry-WithinBudget n a due v room h = ground arith

  pub recovery-WithinBudget :
      (n : NodeRun) {n' : NodeRun} (a : String) (due : Time)
      → WithinBudget attempts recoveries n
      → n.recovery_count < recoveries
      → retry_wait a recovery due n ≡ ok n'
      → WithinBudget attempts recoveries n'
  unfolding retry_wait is_recovery
  recovery-WithinBudget n a due v room h = ground arith

  pub fresh_node-WithinBudget :
      (run_id id : String) (kind : NodeKind)
      → (is_task kind ≡ true → 0 < attempts)
      → WithinBudget attempts recoveries (fresh_node run_id id kind)
  unfolding is_recovery
  fresh_node-WithinBudget run_id id kind h = ground arith
