-- ===== src/Runtime/Completion.antt =====
-- internal/runtime/model.go: how a run ends. validateNodeSet checks the node runs that are handed
-- in, CompleteTermination carries out an intent, CompleteWorkflowSuccess is the atomic success.
use evalfrog.Prelude.{
  ℕ, ◌+◌, String, Bool, true, false, not, ◌&&◌, Option, none, some, List, [], ◌∷◌, ◌==◌,
  if◌then◌else◌, ltb, nat_eq, is_blank, is_some, u32, u64, length, contains,
}
use evalfrog.Json.{RawMessage, Stdlib}
use evalfrog.Runtime.Error.{Result, ok, err, invalid_transition, message, ◌>>=◌, ◌>>◌, require}
use evalfrog.Runtime.States.{
  TerminationKind, kind_failed, kind_canceled, kind_timed_out, unknown_termination, RunState,
  NodeState, valid_run_transition, node_terminal, is_pending, valid_node_transition, is_control,
}
use evalfrog.Runtime.Failure.{TerminationIntent}
use evalfrog.Runtime.Node.{NodeRun}
use evalfrog.Runtime.Run.{
  WorkflowRun, clone_json_object, is_run_pending, is_run_running, run_transition,
}

unfoldable pub expects_no_nodes : Option TerminationIntent → Bool
expects_no_nodes none = false
expects_no_nodes (some intent) = elim intent.kind [
  | kind_canceled ↦ true
  | kind_timed_out ↦ true
  | _ ↦ false
]

-- the loop of validateNodeSet over the nodes
unfoldable pub check_nodes : Bool → WorkflowRun → List String → List NodeRun → Result (Unit {0})
unfolding contains
check_nodes expects run seen [] = ok tt
check_nodes expects run seen (node ∷ rest) = do
  require (node.run_id == run.id && not (is_blank node.execution_node_id))
      (message "node run set contains an invalid identity")
  require (not (contains seen node.execution_node_id))
      (message "node run set contains a duplicate execution node")
  require (not (expects && not (contains run.execution_node_ids node.execution_node_id)))
      (message "node run set contains unexpected execution node")
  check_nodes expects run (node.execution_node_id ∷ seen) rest

unfoldable pub expected_count : WorkflowRun → ℕ
unfolding is_run_pending expects_no_nodes
expected_count run =
    if is_run_pending run.state && expects_no_nodes run.termination then 0 else run.node_run_count

unfoldable pub validate_node_set : List NodeRun → WorkflowRun → Result (Unit {0})
unfolding expected_count check_nodes
validate_node_set nodes run = do
  let expected = expected_count run
  require (nat_eq (u32 (length nodes)) expected)
      (message "node run set size does not match initialized size")
  check_nodes (ltb 0 expected) run [] nodes

unfoldable pub all_terminal : List NodeRun → Bool
unfolding node_terminal
all_terminal [] = true
all_terminal (node ∷ rest) = node_terminal node.state && all_terminal rest

unfoldable pub termination_target : TerminationKind → Result RunState
termination_target kind_failed = ok RunState.failed
termination_target kind_canceled = ok RunState.canceled
termination_target kind_timed_out = ok RunState.timed_out
termination_target (unknown_termination s) = err (message "termination kind is invalid")

unfoldable pub complete_termination : List NodeRun → WorkflowRun → Result WorkflowRun
unfolding all_terminal termination_target run_transition validate_node_set
complete_termination nodes run = elim run.termination [
  | none ↦ err (message "termination intent is required")
  | some intent ↦ do
    validate_node_set nodes run
    require (all_terminal nodes) (message "all node runs must be terminal before run termination")
    target ← termination_target intent.kind
    run_transition target run
]

unfoldable pub is_settled : NodeState → Bool
is_settled NodeState.succeeded = true
is_settled NodeState.skipped = true
is_settled _ = false

-- The loop of CompleteWorkflowSuccess: whether the end node is present, where all others have
-- succeeded or were skipped.
unfoldable pub check_settled : String → Bool → List NodeRun → Result Bool
unfolding is_settled
check_settled end_id present [] = ok present
check_settled end_id present (node ∷ rest) =
    let found = check_settled end_id true rest in
    let others = check_settled end_id present rest in
    if node.execution_node_id == end_id
    then found
    else if not (is_settled node.state)
    then err (message "all non-end nodes must be succeeded or skipped")
    else others

-- The run and the end node after the one atomic write.
unfoldable pub complete_workflow_success :
    Stdlib → List NodeRun → RawMessage → WorkflowRun → NodeRun → Result (WorkflowRun × NodeRun)
unfolding is_run_running is_control is_pending check_settled clone_json_object valid_node_transition
    valid_run_transition validate_node_set
complete_workflow_success lib nodes output run end_node = do
  require
      (is_run_running run.state
        && not (is_some run.termination)
        && is_control end_node.kind
        && end_node.activated
        && is_pending end_node.state)
      (message "workflow success preconditions are not met")
  validate_node_set nodes run
  present ← check_settled end_node.execution_node_id false nodes
  require present (message "workflow success node set does not contain end")
  object ← clone_json_object lib output
  require
      (valid_node_transition end_node.kind end_node.state NodeState.succeeded
        && valid_run_transition run.state RunState.succeeded)
      invalid_transition
  ok (
    record run {
      workflow_output = object;
      state = RunState.succeeded;
      state_version = u64 (run.state_version + 1);
    },
    record end_node {
      state = NodeState.succeeded;
      state_version = u64 (end_node.state_version + 1);
    },
  )
