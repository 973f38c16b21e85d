-- ===== src/Runtime/RunRecords.antt =====
-- internal/runtime/records.go: the record in which a run is persisted, Snapshot and Restore. The
-- columns trace_id and cancel_requested_at, which Snapshot leaves empty and Restore never reads,
-- are left out.
use evalfrog.Prelude.{
  ℕ, String, Bool, true, false, not, ◌&&◌, ◌||◌, Option, List, [], ◌∷◌, nat_eq, ltb, is_blank,
  is_some, if◌then◌else◌, u32, length, contains, sort_strings,
}
use evalfrog.Json.{RawMessage, Stdlib}
use evalfrog.Runtime.Error.{Result, ok, err, invalid_run, ◌>>=◌, ◌>>◌, require}
use evalfrog.Runtime.States.{RunPurpose, RunState, run_terminal}
use evalfrog.Runtime.Failure.{Time, DefinitionReference, TerminationIntent}
use evalfrog.Runtime.Run.{
  WorkflowRun, CreateRunCommand, new_workflow_run, clone_json_object, is_run_pending,
  is_run_running,
}

pub record WorkflowRunRecord : Type 0 where
  pub id : String
  pub project_id : String
  pub workflow_id : String
  pub purpose : RunPurpose
  pub definition : DefinitionReference
  pub workflow_input : RawMessage
  pub workflow_output : RawMessage
  pub deadline_at : Time
  pub created_at : Time
  pub state : RunState
  pub state_version : ℕ
  pub execution_node_ids : List String
  pub termination : Option TerminationIntent

unfoldable pub snapshot_run : WorkflowRun → WorkflowRunRecord
snapshot_run run = record {
  id = run.id;
  project_id = run.project_id;
  workflow_id = run.workflow_id;
  purpose = run.purpose;
  definition = run.definition;
  workflow_input = run.workflow_input;
  workflow_output = run.workflow_output;
  deadline_at = run.deadline_at;
  created_at = run.created_at;
  state = run.state;
  state_version = run.state_version;
  execution_node_ids = sort_strings run.execution_node_ids;
  termination = run.termination;
}

unfoldable pub record_command : WorkflowRunRecord → CreateRunCommand
record_command r = record {
  run_id = r.id;
  project_id = r.project_id;
  workflow_id = r.workflow_id;
  purpose = r.purpose;
  definition = r.definition;
  workflow_input = r.workflow_input;
  deadline_at = r.deadline_at;
  created_at = r.created_at;
}

unfoldable pub is_run_failed : RunState → Bool
is_run_failed RunState.failed = true
is_run_failed _ = false

unfoldable pub is_run_stopped : RunState → Bool
is_run_stopped RunState.canceled = true
is_run_stopped RunState.timed_out = true
is_run_stopped _ = false

unfoldable pub is_run_succeeded : RunState → Bool
is_run_succeeded RunState.succeeded = true
is_run_succeeded _ = false

-- the loop over the persisted identities
unfoldable pub collect_persisted : List String → List String → Result (List String)
unfolding contains
collect_persisted seen [] = ok seen
collect_persisted seen (id ∷ rest) =
    let next = collect_persisted (id ∷ seen) rest in
    if is_blank id
    then err (invalid_run "persisted execution node identity is empty")
    else if contains seen id
    then err (invalid_run "persisted execution node identity is duplicated")
    else next

unfoldable pub restore_output : Stdlib → RawMessage → Result RawMessage
restore_output lib output = if is_blank output then ok "" else elim (clone_json_object lib output) [
  | ok raw ↦ ok raw
  | err e ↦ err (invalid_run "workflow output")
]

-- the tests of the run's state against its identities, before these are collected
unfoldable pub check_identities : WorkflowRunRecord → Result (Unit {0})
unfolding is_run_pending is_run_running run_terminal is_run_failed is_run_stopped
check_identities r = do
  let uninitialized = nat_eq (length r.execution_node_ids) 0
  let intended = is_some r.termination
  require (is_run_pending r.state || is_run_running r.state || run_terminal r.state)
      (invalid_run "persisted run state is invalid")
  require (not (is_run_pending r.state && not uninitialized))
      (invalid_run "pending run cannot contain initialized nodes")
  require
      (not (
        not (is_run_pending r.state)
        && not (is_run_failed r.state && uninitialized && intended)
        && not (is_run_stopped r.state && uninitialized && intended)
        && ltb (length r.execution_node_ids) 2))
      (invalid_run "initialized run requires its complete node identity set")

unfoldable pub check_outcome : WorkflowRunRecord → RawMessage → Result (Unit {0})
unfolding run_terminal is_run_succeeded
check_outcome r output = do
  require
      (not (run_terminal r.state && not (is_run_succeeded r.state) && not (is_some r.termination)))
      (invalid_run "unsuccessful terminal run requires termination intent")
  require (not (is_run_succeeded r.state && (is_some r.termination || is_blank output)))
      (invalid_run "succeeded run has invalid terminal facts")

unfoldable pub restore_workflow_run : Stdlib → WorkflowRunRecord → Result WorkflowRun
unfolding new_workflow_run record_command check_identities collect_persisted restore_output
    check_outcome
restore_workflow_run lib r = do
  require
      (not (
        is_blank r.id
        || is_blank r.project_id
        || is_blank r.workflow_id
        || nat_eq r.state_version 0))
      (invalid_run "persisted run identity and version are required")
  base ← new_workflow_run lib (record_command r)
  check_identities r
  identities ← collect_persisted [] r.execution_node_ids
  output ← restore_output lib r.workflow_output
  check_outcome r output
  ok (record base {
    workflow_output = output;
    state = r.state;
    state_version = r.state_version;
    node_run_count = u32 (length identities);
    execution_node_ids = identities;
    termination = r.termination;
  })
