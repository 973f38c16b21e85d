-- ===== src/Runtime/Records.antt =====
-- internal/runtime/records.go: the records in which nodes and attempts are persisted, Snapshot and
-- Restore. The records have the aggregates' fields, made public.
use evalfrog.Prelude.{
  ℕ, String, Bool, true, false, not, ◌&&◌, ◌||◌, Option, none, some, nat_eq, is_blank, is_some,
}
use evalfrog.Runtime.Error.{
  Result, ok, message, control_attempt, activated_node_skipped, ◌>>=◌, ◌>>◌, require,
}
use evalfrog.Runtime.States.{
  NodeKind, NodeState, RetryKind, AttemptState, is_succeeded, is_control, attempt_terminal,
  attempt_state_eq,
}
use evalfrog.Runtime.Failure.{Time, Failure}
use evalfrog.Runtime.Node.{Values, NodeRun, new_node_run}
use evalfrog.Runtime.Attempt.{AttemptResult, NodeAttempt, new_node_attempt, is_known_retry}

pub record NodeRunRecord : Type 0 where
  pub run_id : String
  pub execution_node_id : String
  pub kind : NodeKind
  pub state : NodeState
  pub state_version : ℕ
  pub activated : Bool
  pub selected_route : String
  pub resolved_inputs : Values
  pub effective_outputs : Values
  pub effective_attempt_id : String
  pub current_attempt_id : String
  pub next_attempt_seq : ℕ
  pub business_attempt_count : ℕ
  pub recovery_count : ℕ
  pub next_attempt_kind : RetryKind
  pub next_retry_at : Time
  pub failure : Option Failure
  pub cancel_reason : String

pub record NodeAttemptRecord : Type 0 where
  pub id : String
  pub node_run_id : String
  pub sequence : ℕ
  pub kind : RetryKind
  pub state : AttemptState
  pub state_version : ℕ
  pub result : Option AttemptResult

unfoldable pub snapshot_node : NodeRun → NodeRunRecord
snapshot_node node = record {
  run_id = node.run_id;
  execution_node_id = node.execution_node_id;
  kind = node.kind;
  state = node.state;
  state_version = node.state_version;
  activated = node.activated;
  selected_route = node.selected_route;
  resolved_inputs = node.resolved_inputs;
  effective_outputs = node.effective_outputs;
  effective_attempt_id = node.effective_attempt_id;
  current_attempt_id = node.current_attempt_id;
  next_attempt_seq = node.next_attempt_seq;
  business_attempt_count = node.business_attempt_count;
  recovery_count = node.recovery_count;
  next_attempt_kind = node.next_attempt_kind;
  next_retry_at = node.next_retry_at;
  failure = node.failure;
  cancel_reason = node.cancel_reason;
}

unfoldable pub is_known_node_state : NodeState → Bool
is_known_node_state (NodeState.unknown s) = false
is_known_node_state _ = true

unfoldable pub is_skipped : NodeState → Bool
is_skipped NodeState.skipped = true
is_skipped _ = false

unfoldable pub restore_node_run : NodeRunRecord → Result NodeRun
unfolding new_node_run is_known_node_state is_skipped is_succeeded is_control is_known_retry
restore_node_run r = do
  node ← new_node_run r.run_id r.execution_node_id r.kind
  require (not (nat_eq r.state_version 0 || not (is_known_node_state r.state)))
      (message "invalid persisted node run state")
  require (not (is_skipped r.state && r.activated)) activated_node_skipped
  require (not (not (is_blank r.effective_attempt_id) && not (is_succeeded r.state)))
      (message "only succeeded node can expose an effective attempt")
  require
      (not (
        is_control r.kind
        && (not (is_blank r.current_attempt_id)
            || not (is_blank r.effective_attempt_id)
            || not (nat_eq r.next_attempt_seq 0))))
      control_attempt
  require (is_known_retry r.next_attempt_kind) (message "invalid persisted next attempt kind")
  ok (record node {
    state = r.state;
    state_version = r.state_version;
    activated = r.activated;
    selected_route = r.selected_route;
    resolved_inputs = r.resolved_inputs;
    effective_outputs = r.effective_outputs;
    effective_attempt_id = r.effective_attempt_id;
    current_attempt_id = r.current_attempt_id;
    next_attempt_seq = r.next_attempt_seq;
    business_attempt_count = r.business_attempt_count;
    recovery_count = r.recovery_count;
    next_attempt_kind = r.next_attempt_kind;
    next_retry_at = r.next_retry_at;
    failure = r.failure;
    cancel_reason = r.cancel_reason;
  })

unfoldable pub snapshot_attempt : NodeAttempt → NodeAttemptRecord
snapshot_attempt attempt = record {
  id = attempt.id;
  node_run_id = attempt.node_run_id;
  sequence = attempt.sequence;
  kind = attempt.kind;
  state = attempt.state;
  state_version = attempt.state_version;
  result = attempt.result;
}

unfoldable pub is_known_attempt_state : AttemptState → Bool
is_known_attempt_state (AttemptState.unknown s) = false
is_known_attempt_state _ = true

abbrev same_test : Bool → Bool → Bool
same_test true b = b
same_test false b = not b

-- the state of a recorded result is the attempt's
unfoldable pub result_agrees : AttemptState → Option AttemptResult → Bool
unfolding attempt_state_eq
result_agrees state none = true
result_agrees state (some result) = attempt_state_eq result.state state

unfoldable pub restore_node_attempt : NodeAttemptRecord → Result NodeAttempt
unfolding new_node_attempt is_known_attempt_state result_agrees attempt_terminal
restore_node_attempt r = do
  attempt ← new_node_attempt r.id r.node_run_id r.sequence r.kind
  require (not (nat_eq r.state_version 0 || not (is_known_attempt_state r.state)))
      (message "invalid persisted attempt state")
  require (same_test (attempt_terminal r.state) (is_some r.result))
      (message "persisted attempt terminal state and result disagree")
  require (result_agrees r.state r.result)
      (message "persisted attempt result state disagrees with attempt")
  ok (record attempt { state = r.state; state_version = r.state_version; result = r.result })
