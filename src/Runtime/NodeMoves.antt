-- ===== src/Runtime/NodeMoves.antt =====
-- The operations of internal/runtime/model.go on a NodeRun as one step relation, and what every
-- step has in common.
use evalfrog.Prelude.{ℕ, ◌+◌, String, ◌≡◌, true, false, ◌⊎◌, arith, u64}
use evalfrog.Runtime.Error.{ok}
use evalfrog.Runtime.States.{NodeState, RetryKind, node_terminal, valid_node_transition}
use evalfrog.Runtime.Failure.{Time, Failure}
use evalfrog.Runtime.Node.{
  Values, NodeRun, activate, become_ready, skip, succeed_control, fail_control, fail_before_attempt,
  queue_attempt, attempt_started, retry_wait, retry_due, succeed_attempt, fail_attempt, cancel,
}

-- Every operation but RetryWait, which has a relation of its own because the engine guards it.
pub data NodeMove (n n' : NodeRun) : Type 0 where
  activates : activate n ≡ ok n' → NodeMove n n'
  readies : (inputs : Values) → become_ready inputs n ≡ ok n' → NodeMove n n'
  skips : skip n ≡ ok n' → NodeMove n n'
  succeeds_control :
      (route : String) (outputs : Values) → succeed_control route outputs n ≡ ok n' → NodeMove n n'
  fails_control : (f : Failure) → fail_control f n ≡ ok n' → NodeMove n n'
  fails_early : (f : Failure) → fail_before_attempt f n ≡ ok n' → NodeMove n n'
  queues :
      (a : String) (sequence : ℕ) (kind : RetryKind)
      → queue_attempt a n ≡ ok (sequence, kind, n')
      → NodeMove n n'
  starts : (a : String) → attempt_started a n ≡ ok n' → NodeMove n n'
  retries : (at : Time) → retry_due at n ≡ ok (true, n') → NodeMove n n'
  succeeds : (a : String) (outputs : Values) → succeed_attempt a outputs n ≡ ok n' → NodeMove n n'
  fails :
      (a : String) (target : NodeState) (f : Failure)
      → fail_attempt a target f n ≡ ok n'
      → NodeMove n n'
  cancels : (reason : String) → cancel reason n ≡ ok n' → NodeMove n n'

-- One step of the state machine: the activation of a pending node, which keeps its state, or an
-- edge of the transition table of the node's kind.
pub record IsLegal (n n' : NodeRun) : Type 0 where
  pub edge :
      ((n.state ≡ NodeState.pending) × (n'.state ≡ NodeState.pending))
      ⊎ (valid_node_transition n.kind n.state n'.state ≡ true)
  pub version : (n'.state_version ≡ u64 (n.state_version + 1)) ⊎ (n' ≡ n)
  pub same_kind : n'.kind ≡ n.kind
  pub same_run : n'.run_id ≡ n.run_id
  pub same_node : n'.execution_node_id ≡ n.execution_node_id

module _ (n : NodeRun) {n' : NodeRun} where
  activate-IsLegal : activate n ≡ ok n' → IsLegal n n'
  unfolding activate
  activate-IsLegal h = ground arith

  become_ready-IsLegal : (inputs : Values) → become_ready inputs n ≡ ok n' → IsLegal n n'
  unfolding become_ready
  become_ready-IsLegal inputs h = ground arith

  skip-IsLegal : skip n ≡ ok n' → IsLegal n n'
  unfolding skip
  skip-IsLegal h = ground arith

  succeed_control-IsLegal :
      (route : String) (outputs : Values) → succeed_control route outputs n ≡ ok n' → IsLegal n n'
  unfolding succeed_control
  succeed_control-IsLegal route outputs h = ground arith

  fail_control-IsLegal : (f : Failure) → fail_control f n ≡ ok n' → IsLegal n n'
  unfolding fail_control
  fail_control-IsLegal f h = ground arith

  fail_before_attempt-IsLegal : (f : Failure) → fail_before_attempt f n ≡ ok n' → IsLegal n n'
  unfolding fail_before_attempt
  fail_before_attempt-IsLegal f h = ground arith

  queue_attempt-IsLegal :
      (a : String) (sequence : ℕ) (kind : RetryKind)
      → queue_attempt a n ≡ ok (sequence, kind, n')
      → IsLegal n n'
  unfolding queue_attempt
  queue_attempt-IsLegal a sequence kind h = ground arith

  attempt_started-IsLegal : (a : String) → attempt_started a n ≡ ok n' → IsLegal n n'
  unfolding attempt_started
  attempt_started-IsLegal a h = ground arith

  retry_due-IsLegal : (at : Time) → retry_due at n ≡ ok (true, n') → IsLegal n n'
  unfolding retry_due
  retry_due-IsLegal at h = ground arith

  succeed_attempt-IsLegal :
      (a : String) (outputs : Values) → succeed_attempt a outputs n ≡ ok n' → IsLegal n n'
  unfolding succeed_attempt
  succeed_attempt-IsLegal a outputs h = ground arith

  fail_attempt-IsLegal :
      (a : String) (target : NodeState) (f : Failure)
      → fail_attempt a target f n ≡ ok n'
      → IsLegal n n'
  unfolding fail_attempt
  fail_attempt-IsLegal a target f h = ground arith

  cancel-IsLegal : (reason : String) → cancel reason n ≡ ok n' → IsLegal n n'
  unfolding cancel
  cancel-IsLegal reason h = ground arith

  pub retry_wait-IsLegal :
      (a : String) (next : RetryKind) (due : Time) → retry_wait a next due n ≡ ok n' → IsLegal n n'
  unfolding retry_wait
  retry_wait-IsLegal a next due h = ground arith

-- Every operation on a node but RetryWait, where it succeeds, is one step of the state machine of the
-- node's kind: it keeps the node pending or takes an edge of the kind's transition table, raises the
-- version by one or changes nothing, and keeps the node's kind and identity.
pub NodeMove-IsLegal : {n n' : NodeRun} → NodeMove n n' → IsLegal n n'
NodeMove-IsLegal {n} (activates h) = activate-IsLegal n h
NodeMove-IsLegal {n} (readies inputs h) = become_ready-IsLegal n inputs h
NodeMove-IsLegal {n} (skips h) = skip-IsLegal n h
NodeMove-IsLegal {n} (succeeds_control route outputs h) = succeed_control-IsLegal n route outputs h
NodeMove-IsLegal {n} (fails_control f h) = fail_control-IsLegal n f h
NodeMove-IsLegal {n} (fails_early f h) = fail_before_attempt-IsLegal n f h
NodeMove-IsLegal {n} (queues a sequence kind h) = queue_attempt-IsLegal n a sequence kind h
NodeMove-IsLegal {n} (starts a h) = attempt_started-IsLegal n a h
NodeMove-IsLegal {n} (retries at h) = retry_due-IsLegal n at h
NodeMove-IsLegal {n} (succeeds a outputs h) = succeed_attempt-IsLegal n a outputs h
NodeMove-IsLegal {n} (fails a target f h) = fail_attempt-IsLegal n a target f h
NodeMove-IsLegal {n} (cancels reason h) = cancel-IsLegal n reason h

-- A terminal node takes no operation.
pub IsLegal-live : {n n' : NodeRun} → IsLegal n n' → node_terminal n.state ≡ false
unfolding valid_node_transition node_terminal
IsLegal-live m = ground (arith, m.edge)
