-- ===== src/Runtime/Run.antt =====
-- internal/runtime/model.go: WorkflowRun and its operations. A method that mutates the run returns
-- the new run; none changes it before it fails. The set `executionNodeIDs` is the list of its
-- members, without repetition.
use evalfrog.Prelude.{
  ℕ, ◌+◌, String, Bool, true, false, not, ◌&&◌, ◌||◌, Option, none, some, List, [], ◌∷◌,
  if◌then◌else◌, ltb, nat_eq, is_blank, u32, u64, length, contains,
}
use evalfrog.Json.{RawMessage, Value, obj, Stdlib}
use evalfrog.Runtime.Error.{Result, ok, err, invalid_run, transition, message, ◌>>=◌, ◌>>◌, require}
use evalfrog.Runtime.States.{
  RunPurpose, test, production, DefinitionSource, draft_snapshot, published_version, RunState,
  valid_run_transition, run_state_text,
}
use evalfrog.Runtime.Failure.{Time, DefinitionReference, TerminationIntent}

pub record CreateRunCommand : Type 0 where
  pub run_id : String
  pub project_id : String
  pub workflow_id : String
  pub purpose : RunPurpose
  pub definition : DefinitionReference
  pub workflow_input : RawMessage
  pub deadline_at : Time
  pub created_at : Time

pub record WorkflowRun : Type 0 where
  pub id : String
  pub project_id : String
  pub workflow_id : String
  pub purpose : RunPurpose
  pub definition : DefinitionReference
  pub workflow_input : RawMessage
  pub workflow_output : RawMessage
  pub deadline_at : Time
  pub created_at : Time
  pub state : RunState
  pub state_version : ℕ  -- uint64
  pub node_run_count : ℕ  -- uint32
  pub execution_node_ids : List String
  pub termination : Option TerminationIntent

unfoldable pub is_object : Value → Bool
is_object (obj fields) = true
is_object _ = false

unfoldable pub clone_json_object : Stdlib → RawMessage → Result RawMessage
unfolding is_object
clone_json_object lib raw =
    if not (lib.valid raw) then err (message "value is not valid JSON") else elim (lib.decode raw) [
      | none ↦ err (message "value does not decode")
      | some value ↦ if is_object value then ok raw else err (message "value must be a JSON object")
    ]

unfoldable pub is_known_purpose : RunPurpose → Bool
is_known_purpose test = true
is_known_purpose production = true
is_known_purpose _ = false

unfoldable pub is_production : RunPurpose → Bool
is_production production = true
is_production _ = false

unfoldable pub is_draft : DefinitionSource → Bool
is_draft draft_snapshot = true
is_draft _ = false

unfoldable pub is_published : DefinitionSource → Bool
is_published published_version = true
is_published _ = false

-- the tests of NewWorkflowRun before it reads the input
unfoldable pub check_command : CreateRunCommand → Result (Unit {0})
unfolding is_known_purpose is_production is_draft is_published
check_command command = do
  let definition = command.definition
  let source = definition.source
  require
      (not (
        is_blank command.run_id
        || is_blank command.project_id
        || is_blank command.workflow_id
        || is_blank definition.snapshot_id
        || is_blank definition.definition_hash
        || nat_eq command.created_at 0
        || nat_eq command.deadline_at 0
        || not (ltb command.created_at command.deadline_at)))
      (invalid_run "identity, immutable definition, created_at and future deadline are required")
  require (is_known_purpose command.purpose) (invalid_run "run purpose is invalid")
  require (is_draft source || is_published source) (invalid_run "definition source is invalid")
  require (not (is_production command.purpose && not (is_published source)))
      (invalid_run "production runs require a published version")
  require (not (is_published source && is_blank definition.published_version_id))
      (invalid_run "published definition source requires version identity")
  require (not (is_draft source && not (is_blank definition.published_version_id)))
      (invalid_run "draft definition source cannot carry a published version identity")

unfoldable pub created_run : CreateRunCommand → RawMessage → WorkflowRun
created_run command input = record {
  id = command.run_id;
  project_id = command.project_id;
  workflow_id = command.workflow_id;
  purpose = command.purpose;
  definition = command.definition;
  workflow_input = input;
  workflow_output = "";
  deadline_at = command.deadline_at;
  created_at = command.created_at;
  state = RunState.pending;
  state_version = 1;
  node_run_count = 0;
  execution_node_ids = [];
  termination = none;
}

unfoldable pub input_result : Result RawMessage → Result RawMessage
input_result (ok raw) = ok raw
input_result (err e) = err (invalid_run "workflow input")

unfoldable pub new_workflow_run : Stdlib → CreateRunCommand → Result WorkflowRun
unfolding check_command created_run input_result clone_json_object
new_workflow_run lib command = do
  check_command command
  input ← input_result (clone_json_object lib command.workflow_input)
  ok (created_run command input)

unfoldable pub run_transition : RunState → WorkflowRun → Result WorkflowRun
unfolding valid_run_transition
run_transition target run =
    if valid_run_transition run.state target
    then ok (record run { state = target; state_version = u64 (run.state_version + 1) })
    else err (transition "workflow_run" (run_state_text run.state) (run_state_text target))

-- The loop of Start over the identities: the set of them, or the first that is empty or repeated.
unfoldable pub collect_ids : List String → List String → Result (List String)
unfolding contains
collect_ids seen [] = ok seen
collect_ids seen (id ∷ rest) =
    let next = collect_ids (id ∷ seen) rest in
    if is_blank id
    then err (message "execution node identity is required")
    else if contains seen id
    then err (message "execution node identity is duplicated")
    else next

unfoldable pub start : List String → WorkflowRun → Result WorkflowRun
unfolding collect_ids run_transition
start ids run = do
  require (not (ltb (length ids) 2))
      (message "a workflow run requires at least start and end node runs")
  identities ← collect_ids [] ids
  run' ← run_transition RunState.running run
  ok (record run' { node_run_count = u32 (length ids); execution_node_ids = identities })

unfoldable pub is_run_pending : RunState → Bool
is_run_pending RunState.pending = true
is_run_pending _ = false

unfoldable pub is_run_running : RunState → Bool
is_run_running RunState.running = true
is_run_running _ = false
