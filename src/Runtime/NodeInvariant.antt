-- ===== src/Runtime/NodeInvariant.antt =====
-- The invariant of a NodeRun between two operations, and its way through a database record:
-- internal/runtime/model.go and records.go.
use evalfrog.Prelude.{
  ℕ, ◌+◌, String, ◌≡◌, ◌≢◌, refl, Bool, true, false, ◌⊎◌, eq_iff, arith, sym, subst, u32, is_blank,
}
use evalfrog.Runtime.Error.{ok}
use evalfrog.Runtime.States.{NodeKind, NodeState, RetryKind, control, task}
use evalfrog.Runtime.Failure.{Time, Failure}
use evalfrog.Runtime.Node.{
  Values, NodeRun, fresh_node, new_node_run, activate, become_ready, skip, succeed_control,
  fail_control, fail_before_attempt, queue_attempt, attempt_started, retry_wait, retry_due,
  succeed_attempt, fail_attempt, cancel,
}
use evalfrog.Runtime.Attempt.{is_known_retry}
use evalfrog.Runtime.NodeMoves.{
  NodeMove, activates, readies, skips, succeeds_control, fails_control, fails_early, queues, starts,
  retries, succeeds, fails, cancels,
}
use evalfrog.Runtime.Records.{snapshot_node, restore_node_run, is_known_node_state}

-- a task in this state has a current attempt
abbrev pub holds_attempt : NodeState → Bool
holds_attempt NodeState.queued = true
holds_attempt NodeState.running = true
holds_attempt NodeState.retry_wait = true
holds_attempt _ = false

pub record NodeInv (n : NodeRun) : Type 0 where
  pub known_kind : (n.kind ≡ control) ⊎ (n.kind ≡ task)
  pub named_run : is_blank n.run_id ≡ false
  pub named_node : is_blank n.execution_node_id ≡ false
  pub known_state : is_known_node_state n.state ≡ true
  pub known_retry : is_known_retry n.next_attempt_kind ≡ true
  pub control_current : n.kind ≡ control → is_blank n.current_attempt_id ≡ true
  pub control_effective : n.kind ≡ control → is_blank n.effective_attempt_id ≡ true
  pub control_sequence : n.kind ≡ control → n.next_attempt_seq ≡ 0
  pub skipped_inactive : n.state ≡ NodeState.skipped → n.activated ≡ false
  pub effective_succeeded : is_blank n.effective_attempt_id ≡ false → n.state ≡ NodeState.succeeded
  pub effective_current :
      is_blank n.effective_attempt_id ≡ false → n.effective_attempt_id ≡ n.current_attempt_id
  pub attempt_held : holds_attempt n.state ≡ true → is_blank n.current_attempt_id ≡ false
  pub counted : n.next_attempt_seq ≡ u32 (n.business_attempt_count + n.recovery_count)

module _ (run_id id : String) (kind : NodeKind) where
  pub new_node_run-eq :
      {n : NodeRun}
      → new_node_run run_id id kind ≡ ok n
      → (n ≡ fresh_node run_id id kind)
        × (is_blank run_id ≡ false)
        × (is_blank id ≡ false)
        × ((kind ≡ control) ⊎ (kind ≡ task))
  unfolding new_node_run
  new_node_run-eq h = ground arith

  fresh_node-NodeInv :
      is_blank run_id ≡ false
      → is_blank id ≡ false
      → (kind ≡ control) ⊎ (kind ≡ task)
      → NodeInv (fresh_node run_id id kind)
  unfolding is_known_node_state is_known_retry
  fresh_node-NodeInv r i k = record {
    known_kind = k;
    named_run = r;
    named_node = i;
    known_state = refl;
    known_retry = refl;
    control_current = λ _. refl;
    control_effective = λ _. refl;
    control_sequence = λ _. refl;
    skipped_inactive = λ _. refl;
    effective_succeeded = λ e. cc;
    effective_current = λ e. cc;
    attempt_held = λ e. cc;
    counted = refl;
  }

  -- A new node satisfies the invariant.
  pub new_node_run-NodeInv : {n : NodeRun} → new_node_run run_id id kind ≡ ok n → NodeInv n
  new_node_run-NodeInv h =
      let (e, r, i, k) = new_node_run-eq h in subst NodeInv (sym e) (fresh_node-NodeInv r i k)

module _ (n : NodeRun) {n' : NodeRun} (v : NodeInv n) where
  activate-NodeInv : activate n ≡ ok n' → NodeInv n'
  unfolding activate is_known_node_state is_known_retry
  activate-NodeInv h = ground (arith)

  become_ready-NodeInv : (inputs : Values) → become_ready inputs n ≡ ok n' → NodeInv n'
  unfolding become_ready is_known_node_state is_known_retry
  become_ready-NodeInv inputs h = ground (arith)

  skip-NodeInv : skip n ≡ ok n' → NodeInv n'
  unfolding skip is_known_node_state is_known_retry
  skip-NodeInv h = ground (arith)

  succeed_control-NodeInv :
      (route : String) (outputs : Values) → succeed_control route outputs n ≡ ok n' → NodeInv n'
  unfolding succeed_control is_known_node_state is_known_retry
  succeed_control-NodeInv route outputs h = ground (arith)

  fail_control-NodeInv : (f : Failure) → fail_control f n ≡ ok n' → NodeInv n'
  unfolding fail_control is_known_node_state is_known_retry
  fail_control-NodeInv f h = ground (arith)

  fail_before_attempt-NodeInv : (f : Failure) → fail_before_attempt f n ≡ ok n' → NodeInv n'
  unfolding fail_before_attempt is_known_node_state is_known_retry
  fail_before_attempt-NodeInv f h = ground (arith)

  queue_attempt-NodeInv :
      (a : String) (sequence : ℕ) (kind : RetryKind)
      → queue_attempt a n ≡ ok (sequence, kind, n')
      → NodeInv n'
  unfolding queue_attempt is_known_node_state is_known_retry
  queue_attempt-NodeInv a sequence kind h = ground (arith, eq_iff n.current_attempt_id a)

  attempt_started-NodeInv : (a : String) → attempt_started a n ≡ ok n' → NodeInv n'
  unfolding attempt_started is_known_node_state is_known_retry
  attempt_started-NodeInv a h = ground (arith, eq_iff n.current_attempt_id a)

  retry_due-NodeInv : (at : Time) → retry_due at n ≡ ok (true, n') → NodeInv n'
  unfolding retry_due is_known_node_state is_known_retry
  retry_due-NodeInv at h = ground (arith)

  succeed_attempt-NodeInv :
      (a : String) (outputs : Values) → succeed_attempt a outputs n ≡ ok n' → NodeInv n'
  unfolding succeed_attempt is_known_node_state is_known_retry
  succeed_attempt-NodeInv a outputs h = ground (arith, eq_iff n.current_attempt_id a)

  fail_attempt-NodeInv :
      (a : String) (target : NodeState) (f : Failure)
      → fail_attempt a target f n ≡ ok n'
      → NodeInv n'
  unfolding fail_attempt is_known_node_state is_known_retry
  fail_attempt-NodeInv a target f h = ground (arith, eq_iff n.current_attempt_id a)

  cancel-NodeInv : (reason : String) → cancel reason n ≡ ok n' → NodeInv n'
  unfolding cancel is_known_node_state is_known_retry
  cancel-NodeInv reason h = ground (arith)

  pub retry_wait-NodeInv :
      (a : String) (next : RetryKind) (due : Time) → retry_wait a next due n ≡ ok n' → NodeInv n'
  unfolding retry_wait is_known_node_state is_known_retry
  retry_wait-NodeInv a next due h = ground (arith, eq_iff n.current_attempt_id a)

-- Every operation on a node but RetryWait keeps the node's invariant.
pub NodeMove-NodeInv : {n n' : NodeRun} → NodeInv n → NodeMove n n' → NodeInv n'
NodeMove-NodeInv {n} v (activates h) = activate-NodeInv n v h
NodeMove-NodeInv {n} v (readies inputs h) = become_ready-NodeInv n v inputs h
NodeMove-NodeInv {n} v (skips h) = skip-NodeInv n v h
NodeMove-NodeInv {n} v (succeeds_control route outputs h) =
    succeed_control-NodeInv n v route outputs h
NodeMove-NodeInv {n} v (fails_control f h) = fail_control-NodeInv n v f h
NodeMove-NodeInv {n} v (fails_early f h) = fail_before_attempt-NodeInv n v f h
NodeMove-NodeInv {n} v (queues a sequence kind h) = queue_attempt-NodeInv n v a sequence kind h
NodeMove-NodeInv {n} v (starts a h) = attempt_started-NodeInv n v a h
NodeMove-NodeInv {n} v (retries at h) = retry_due-NodeInv n v at h
NodeMove-NodeInv {n} v (succeeds a outputs h) = succeed_attempt-NodeInv n v a outputs h
NodeMove-NodeInv {n} v (fails a target f h) = fail_attempt-NodeInv n v a target f h
NodeMove-NodeInv {n} v (cancels reason h) = cancel-NodeInv n v reason h

-- A node for which the invariant holds and whose version is not 0 is restored from its record
-- exactly as it is.
pub restore-snapshot_node :
    (n : NodeRun) → NodeInv n → n.state_version ≢ 0 → restore_node_run (snapshot_node n) ≡ ok n
unfolding restore_node_run snapshot_node
restore-snapshot_node n v h = ground arith
