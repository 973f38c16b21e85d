-- ===== src/Runtime/Node.antt =====
-- internal/runtime/model.go: NodeRun and its operations. A method that mutates the node returns
-- the new node; none changes it before it fails, so a failure carries the error alone. A nil map
-- and an empty one are one value, since the code only counts, reads and copies these maps.
use evalfrog.Prelude.{
  ℕ, ◌+◌, String, Bool, true, false, not, ◌&&◌, ◌||◌, Option, none, some, [], ◌==◌, if◌then◌else◌,
  ltb, nat_eq, is_blank, u32, u64,
}
use evalfrog.Prelude.Assoc.{Assoc}
use evalfrog.Json.{RawMessage}
use evalfrog.Runtime.Error.{
  Result, ok, err, transition, control_attempt, activated_node_skipped, message, ◌>>=◌, ◌>>◌,
  require,
}
use evalfrog.Runtime.States.{
  NodeKind, NodeState, RetryKind, initial, business_retry, recovery, valid_node_transition,
  node_state_text, is_pending, is_task, is_control,
}
use evalfrog.Runtime.Failure.{Time, Failure}

abbrev pub Values : Type 0
Values = Assoc RawMessage

pub record NodeRun : Type 0 where
  pub run_id : String
  pub execution_node_id : String
  pub kind : NodeKind
  pub state : NodeState
  pub state_version : ℕ  -- uint64
  pub activated : Bool
  pub selected_route : String
  pub resolved_inputs : Values
  pub effective_outputs : Values
  pub effective_attempt_id : String
  pub current_attempt_id : String
  pub next_attempt_seq : ℕ  -- uint32
  pub business_attempt_count : ℕ  -- uint32
  pub recovery_count : ℕ  -- uint32
  pub next_attempt_kind : RetryKind
  pub next_retry_at : Time
  pub failure : Option Failure
  pub cancel_reason : String

abbrev pub fresh_node : String → String → NodeKind → NodeRun
fresh_node run_id execution_node_id kind = record {
  run_id = run_id;
  execution_node_id = execution_node_id;
  kind = kind;
  state = NodeState.pending;
  state_version = 1;
  activated = false;
  selected_route = "";
  resolved_inputs = [];
  effective_outputs = [];
  effective_attempt_id = "";
  current_attempt_id = "";
  next_attempt_seq = 0;
  business_attempt_count = 0;
  recovery_count = 0;
  next_attempt_kind = initial;
  next_retry_at = 0;
  failure = none;
  cancel_reason = "";
}

unfoldable pub new_node_run : String → String → NodeKind → Result NodeRun
unfolding is_task is_control
new_node_run run_id execution_node_id kind =
    if is_blank run_id || is_blank execution_node_id || not (is_control kind || is_task kind)
    then err (message "invalid node run identity or kind")
    else ok (fresh_node run_id execution_node_id kind)

unfoldable pub node_transition : NodeState → NodeRun → Result NodeRun
unfolding valid_node_transition
node_transition target node =
    if valid_node_transition node.kind node.state target
    then ok (record node { state = target; state_version = u64 (node.state_version + 1) })
    else err (transition "node_run" (node_state_text node.state) (node_state_text target))

unfoldable pub activate : NodeRun → Result NodeRun
unfolding is_pending
activate node =
    if not (is_pending node.state)
    then err (message "only pending nodes can be activated")
    else if not node.activated
    then ok (record node { activated = true; state_version = u64 (node.state_version + 1) })
    else ok node

unfoldable pub become_ready : Values → NodeRun → Result NodeRun
unfolding node_transition is_task
become_ready inputs node = do
  require (is_task node.kind && node.activated)
      (message "only activated task nodes can become ready")
  node' ← node_transition NodeState.ready node
  ok (record node' { resolved_inputs = inputs })

unfoldable pub skip : NodeRun → Result NodeRun
unfolding node_transition
skip node = do
  require (not node.activated) activated_node_skipped
  node_transition NodeState.skipped node

unfoldable pub succeed_control : String → Values → NodeRun → Result NodeRun
unfolding node_transition is_control
succeed_control route outputs node = do
  require (is_control node.kind && node.activated)
      (message "only activated control nodes can succeed")
  node' ← node_transition NodeState.succeeded node
  ok (record node' { selected_route = route; effective_outputs = outputs })

unfoldable pub fail_control : Failure → NodeRun → Result NodeRun
unfolding node_transition is_control
fail_control failure node = do
  require (is_control node.kind && not (is_blank failure.code))
      (message "control failure is invalid")
  node' ← node_transition NodeState.failed node
  ok (record node' { failure = some failure })

unfoldable pub fail_before_attempt : Failure → NodeRun → Result NodeRun
unfolding node_transition is_task
fail_before_attempt failure node = do
  require
      (is_task node.kind
        && node.activated
        && is_blank node.current_attempt_id
        && not (is_blank failure.code))
      (message "pre-attempt task failure is invalid")
  node' ← node_transition NodeState.failed node
  ok (record node' { failure = some failure })

unfoldable pub is_recovery : RetryKind → Bool
is_recovery recovery = true
is_recovery _ = false

-- The result is the attempt's sequence number and kind, beside the node.
unfoldable pub queue_attempt : String → NodeRun → Result (ℕ × RetryKind × NodeRun)
unfolding node_transition is_task is_recovery
queue_attempt attempt_id node = do
  require (is_task node.kind) control_attempt
  require (not (is_blank attempt_id)) (message "attempt id is required")
  node' ← node_transition NodeState.queued node
  let sequence = u32 (node'.next_attempt_seq + 1)
  let kind = node'.next_attempt_kind
  let recovers = is_recovery kind
  ok (
    sequence,
    kind,
    record node' {
      next_attempt_seq = sequence;
      recovery_count = if recovers then u32 (node'.recovery_count + 1) else node'.recovery_count;
      business_attempt_count =
          if recovers then node'.business_attempt_count else u32 (node'.business_attempt_count + 1);
      current_attempt_id = attempt_id;
      next_retry_at = 0;
    },
  )

unfoldable pub attempt_started : String → NodeRun → Result NodeRun
unfolding node_transition
attempt_started attempt_id node = do
  require (node.current_attempt_id == attempt_id) (message "attempt is not current")
  node_transition NodeState.running node

unfoldable pub is_retry : RetryKind → Bool
is_retry business_retry = true
is_retry recovery = true
is_retry _ = false

unfoldable pub retry_wait : String → RetryKind → Time → NodeRun → Result NodeRun
unfolding node_transition is_retry
retry_wait attempt_id next due_at node = do
  require (node.current_attempt_id == attempt_id && is_retry next && not (nat_eq due_at 0))
      (message "retry decision is invalid")
  node' ← node_transition NodeState.retry_wait node
  ok (record node' { next_attempt_kind = next; next_retry_at = due_at })

unfoldable pub is_retry_wait : NodeState → Bool
is_retry_wait NodeState.retry_wait = true
is_retry_wait _ = false

-- `false` beside the unchanged node: it is not waiting, or it is too early.
unfoldable pub retry_due : Time → NodeRun → Result (Bool × NodeRun)
unfolding node_transition is_retry_wait
retry_due at node =
    if not (is_retry_wait node.state) || nat_eq at 0 || ltb at node.next_retry_at
    then ok (false, node)
    else (do
      node' ← node_transition NodeState.ready node
      ok (true, record node' { next_retry_at = 0 }))

unfoldable pub succeed_attempt : String → Values → NodeRun → Result NodeRun
unfolding node_transition is_task
succeed_attempt attempt_id outputs node = do
  require (is_task node.kind && node.current_attempt_id == attempt_id)
      (message "successful attempt is not current")
  node' ← node_transition NodeState.succeeded node
  ok (record node' { effective_attempt_id = attempt_id; effective_outputs = outputs })

unfoldable pub is_failure_target : NodeState → Bool
is_failure_target NodeState.failed = true
is_failure_target NodeState.timed_out = true
is_failure_target _ = false

unfoldable pub fail_attempt : String → NodeState → Failure → NodeRun → Result NodeRun
unfolding node_transition is_task is_failure_target
fail_attempt attempt_id target failure node = do
  require
      (is_task node.kind && node.current_attempt_id == attempt_id && not (is_blank failure.code))
      (message "attempt failure is invalid")
  require (is_failure_target target) (message "attempt failure target is invalid")
  node' ← node_transition target node
  ok (record node' { failure = some failure })

unfoldable pub cancel : String → NodeRun → Result NodeRun
unfolding node_transition
cancel reason node = do
  require (not (is_blank reason)) (message "cancel reason is required")
  node' ← node_transition NodeState.canceled node
  ok (record node' { cancel_reason = reason })
