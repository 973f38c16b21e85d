-- ===== src/Tests/Documents.antt =====
-- A document of three nodes, start, a remote call and end, that the contract accepts, and the
-- theorems at it.
use evalfrog.Prelude.{
  ◌≤◌, ◌↔◌, ◌≡◌, refl, String, true, false, none, some, List, [], ◌∷◌, arith, All, contains,
}
use evalfrog.Prelude.Assoc.{Assoc, lookup}
use evalfrog.Runtime.Error.{Error, ok, err}
use evalfrog.Runtime.Node.{NodeRun, fresh_node}
use evalfrog.Runtime.States.{control}
use evalfrog.Dsl.{object, control_kind, task_kind, DslNode, Document}
use evalfrog.Dsl.Issue.{Issue}
use evalfrog.Dsl.Contract.{Contract}
use evalfrog.Dsl.Builtin.{start_spec, end_spec, rpc_spec, validate_node}
use evalfrog.Dsl.Graph.{
  count_sorted, mark_reachable, reachable_nodes, total_indegree, validate_edges_and_graph,
}
use evalfrog.Dsl.Validate.{validate, collect_issues}
use evalfrog.Dsl.Reach.{unmarked, all_targets}
use evalfrog.Dsl.Ports.{validate_inputs, validate_ports, validate_task_policy}
use evalfrog.Dsl.Config.{validate_rpc_config}
use evalfrog.Dsl.Compatibility.{builtin_compatibility, check_all}
use evalfrog.Dsl.Fuel.{count_sorted_total}
use evalfrog.Dsl.Paths.{Reaches, mark_reachable_total, reachable_nodes_iff}
use evalfrog.Dsl.Accepted.{IsRunnable, validate-IsRunnable}
use evalfrog.Dsl.Connected.{IsConnected, validate-IsConnected}
use evalfrog.Dsl.Bindings.{are_distinct, ids_of, validate-are_distinct, AreBound, validate-IsBound}
use evalfrog.Engine.State.{Snapshot, Engine}
use evalfrog.Engine.Create.{new_engine}
use evalfrog.Engine.Control.{Call, queue, begin, report, completed, due, perform_all}
use evalfrog.Engine.Moves.{policy_of}
use evalfrog.Engine.Accepted.{dsl_checks, new_engine-refuses, accepted_retry_budget}
use evalfrog.Tests.Fixture.{
  objects_only, from_node, task_policy, control_policy, always_edge, create_command, busy_result,
}
use evalfrog.Tests.Scenarios.{started, or_empty}

abbrev pub contract : Contract
contract = record { version = "1"; specs = start_spec ∷ end_spec ∷ rpc_spec objects_only ∷ [] }

abbrev pub start_id : String
start_id = "xn_00000000000000000000000a"

abbrev pub call_id : String
call_id = "xn_00000000000000000000000b"

abbrev pub end_id : String
end_id = "xn_00000000000000000000000c"

abbrev pub call_node : DslNode
call_node = record {
  id = call_id;
  kind = task_kind;
  operation = record {
    type_name = "task.rpc";
    version = 1;
    config =
        ("service_id", "svc")
        ∷ ("operation", "echo")
        ∷ ("contract_revision", "1")
        ∷ ("idempotent", "true")
        ∷ [];
  };
  inputs = ("request", from_node start_id "workflow_input") ∷ [];
  outputs = ("response", object) ∷ [];
  execution_policy = task_policy;
  has_nil_map = false;
}

abbrev pub document : Document
document = record {
  dsl_version = "1";
  entry_node_id = start_id;
  exit_node_id = end_id;
  nodes =
      (record {
        id = start_id;
        kind = control_kind;
        operation = record { type_name = "control.start"; version = 1; config = [] };
        inputs = [];
        outputs = ("workflow_input", object) ∷ [];
        execution_policy = control_policy;
        has_nil_map = false;
      })
      ∷ call_node
      ∷ (record {
        id = end_id;
        kind = control_kind;
        operation = record { type_name = "control.end"; version = 1; config = [] };
        inputs = ("workflow_output", from_node call_id "response") ∷ [];
        outputs = [];
        execution_policy = control_policy;
        has_nil_map = false;
      })
      ∷ [];
  edges =
      always_edge "xe_000000000000000000000001" start_id call_id
      ∷ always_edge "xe_000000000000000000000002" call_id end_id
      ∷ [];
}

unfoldable issues_of : Document → List Issue
unfolding validate collect_issues validate_node validate_inputs validate_ports validate_task_policy
    validate_rpc_config validate_edges_and_graph
issues_of d = validate objects_only contract d

accepted : validate objects_only contract document ≡ []
unfolding issues_of
accepted = refl

abbrev call_snapshot : Snapshot
call_snapshot = record { id = "snapshot"; definition_hash = "hash"; dsl = document }

-- the engine that New returns with the checks of the contract
unfoldable checked_engine : Engine
unfolding started issues_of dsl_checks check_all
checked_engine = or_empty (
    new_engine objects_only call_snapshot create_command
      (dsl_checks objects_only contract builtin_compatibility))

checked :
    new_engine objects_only call_snapshot create_command
      (dsl_checks objects_only contract builtin_compatibility)
    ≡ ok checked_engine
unfolding checked_engine
checked = refl

abbrev retried : List Call
retried =
    queue call_id "t1"
    ∷ begin "t1"
    ∷ report "t1" busy_result
    ∷ completed "t1" 10
    ∷ due call_id 1000010
    ∷ queue call_id "t2"
    ∷ begin "t2"
    ∷ []

abbrev retried_node : NodeRun
unfolding lookup
retried_node = elim (lookup call_id (perform_all objects_only retried checked_engine).nodes) [
  | none ↦ fresh_node "" "" control
  | some n ↦ n
]

retried_found :
    lookup call_id (perform_all objects_only retried checked_engine).nodes ≡ some retried_node
unfolding checked_engine
retried_found = refl

accepted_retry_budget_example :
    (retried_node.business_attempt_count
      ≤ (policy_of retried_node (perform_all objects_only retried checked_engine)).max_attempts)
    × (retried_node.recovery_count
        ≤ (policy_of retried_node (perform_all objects_only retried checked_engine)).max_recoveries)
accepted_retry_budget_example =
    accepted_retry_budget objects_only contract builtin_compatibility call_snapshot create_command
      retried
      ((omega arith, omega arith), ((omega arith, omega arith), ((omega arith, omega arith), tt)))
      checked call_id retried_node retried_found

validate-IsConnected_example : All (λ node. IsConnected document node.id) document.nodes
validate-IsConnected_example = validate-IsConnected objects_only contract document accepted

validate-IsRunnable_example : All IsRunnable document.nodes
validate-IsRunnable_example = validate-IsRunnable objects_only contract document accepted

validate-are_distinct_example : are_distinct (ids_of document.nodes) ≡ true
validate-are_distinct_example = validate-are_distinct objects_only contract document accepted

validate-IsBound_example : All (AreBound document.nodes) document.nodes
validate-IsBound_example = validate-IsBound objects_only contract document accepted

-- a document that the contract refuses, since nothing ends in its exit node
abbrev cut_document : Document
cut_document = record document {
  edges = always_edge "xe_000000000000000000000001" start_id call_id ∷ [];
}

abbrev first_of : List Issue → Issue
first_of [] = record { code = ""; message = ""; node_id = ""; edge_id = ""; field = "" }
first_of (issue ∷ rest) = issue

abbrev rest_of : List Issue → List Issue
rest_of [] = []
rest_of (issue ∷ rest) = rest

refused :
    validate objects_only contract cut_document
    ≡ first_of (issues_of cut_document) ∷ rest_of (issues_of cut_document)
unfolding issues_of
refused = refl

new_engine-refuses_example :
    (x : Error) × (new_engine objects_only
        (record { id = "snapshot"; definition_hash = "hash"; dsl = cut_document })
        create_command
        (dsl_checks objects_only contract builtin_compatibility)
      ≡ err x)
new_engine-refuses_example =
    new_engine-refuses objects_only contract builtin_compatibility
      (record { id = "snapshot"; definition_hash = "hash"; dsl = cut_document }) create_command
      (first_of (issues_of cut_document)) (rest_of (issues_of cut_document)) refused

abbrev two_steps : Assoc (List String)
two_steps = ("a", "b" ∷ "c" ∷ []) ∷ ("b", "c" ∷ []) ∷ []

reachable_nodes_iff_example :
    (contains (reachable_nodes "a" two_steps) "c" ≡ true) ↔ Reaches two_steps "a" "c"
reachable_nodes_iff_example = reachable_nodes_iff two_steps "a" "c"

mark_reachable_total_example :
    mark_reachable (λ marked. marked) two_steps 9 ("a" ∷ []) ("a" ∷ [])
    ≡ mark_reachable (λ marked. []) two_steps 12 ("a" ∷ []) ("a" ∷ [])
unfolding unmarked all_targets contains
mark_reachable_total_example =
    mark_reachable_total two_steps (λ marked. marked) (λ marked. []) 9 12 ("a" ∷ []) ("a" ∷ [])
      (omega arith) (omega arith)

count_sorted_total_example :
    count_sorted two_steps 0 9 ("a" ∷ []) (("a", 0) ∷ ("b", 1) ∷ ("c", 2) ∷ [])
    ≡ count_sorted two_steps 7 12 ("a" ∷ []) (("a", 0) ∷ ("b", 1) ∷ ("c", 2) ∷ [])
unfolding total_indegree
count_sorted_total_example =
    count_sorted_total two_steps 0 7 9 12 ("a" ∷ []) (("a", 0) ∷ ("b", 1) ∷ ("c", 2) ∷ [])
      (omega arith) (omega arith)
