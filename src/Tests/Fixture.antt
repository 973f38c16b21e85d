-- ===== src/Tests/Fixture.antt =====
-- A workflow of three nodes, start, one task and end, and a JSON library in which every text stands
-- for the empty object.
use Prim.Native.Nat.{Ordering}
use evalfrog.Prelude.{String, true, false, none, some, [], ◌∷◌, ◌==◌}
use evalfrog.Json.{obj, end, Stdlib}
use evalfrog.Runtime.States.{AttemptState, test, draft_snapshot}
use evalfrog.Runtime.Attempt.{AttemptResult}
use evalfrog.Runtime.Run.{CreateRunCommand}
use evalfrog.Dsl.{
  object, control_kind, task_kind, node_output, always, InputBinding, ExecutionPolicy, DslNode,
  Edge,
}
use evalfrog.Engine.State.{Snapshot, zero_policy}
use evalfrog.Engine.Create.{Checks}

abbrev pub objects_only : Stdlib
objects_only = record {
  valid = λ raw. true;
  decode = λ raw. some (obj end);
  unmarshal_string = λ raw. some raw;
  unmarshal_cases = λ raw. some [];
  unmarshal_bool = λ raw. some true;
  unmarshal_ints = λ raw. some [];
  unmarshal_maps = λ raw. some [];
  unmarshal_routes = λ raw. [];
  trims_to_null = λ raw. raw == "null";
  is_rational = λ text. true;
  is_integer = λ text. true;
  compare_rational = λ a b. Ordering.eq;
  deep_equal = λ d c. true;
  split_dots = λ path. path ∷ [];
  contains_text = λ a b. false;
  has_prefix = λ a b. false;
  has_suffix = λ a b. false;
}

abbrev pub from_node : String → String → InputBinding
from_node id name = record {
  kind = node_output;
  data_type = object;
  value = "";
  output = some (record { node_id = id; name = name });
}

abbrev pub control_policy : ExecutionPolicy
control_policy = zero_policy

abbrev pub task_policy : ExecutionPolicy
task_policy = record {
  max_attempts = 2;
  max_recoveries = 1;
  attempt_timeout_ms = 60000;
  retry_backoff = some (record { kind = "fixed"; delay_ms = 1 });
  retryable_error_codes = "BUSY" ∷ [];
}

abbrev pub start_node : DslNode
start_node = record {
  id = "a";
  kind = control_kind;
  operation = record { type_name = "control.start"; version = 1; config = [] };
  inputs = [];
  outputs = ("workflow_input", object) ∷ [];
  execution_policy = control_policy;
  has_nil_map = false;
}

abbrev pub task_node : DslNode
task_node = record {
  id = "b";
  kind = task_kind;
  operation = record { type_name = "task.echo"; version = 1; config = [] };
  inputs = ("value", from_node "a" "workflow_input") ∷ [];
  outputs = ("answer", object) ∷ [];
  execution_policy = task_policy;
  has_nil_map = false;
}

abbrev pub end_node : DslNode
end_node = record {
  id = "c";
  kind = control_kind;
  operation = record { type_name = "control.end"; version = 1; config = [] };
  inputs = ("workflow_output", from_node "b" "answer") ∷ [];
  outputs = [];
  execution_policy = control_policy;
  has_nil_map = false;
}

abbrev pub always_edge : String → String → String → Edge
always_edge id source target = record {
  id = id;
  source_node_id = source;
  target_node_id = target;
  activation = record { kind = always; route = "" };
}

abbrev pub three_nodes : Snapshot
three_nodes = record {
  id = "snapshot";
  definition_hash = "hash";
  dsl = record {
    dsl_version = "1";
    entry_node_id = "a";
    exit_node_id = "c";
    nodes = start_node ∷ task_node ∷ end_node ∷ [];
    edges = always_edge "e1" "a" "b" ∷ always_edge "e2" "b" "c" ∷ [];
  };
}

abbrev pub create_command : CreateRunCommand
create_command = record {
  run_id = "run";
  project_id = "project";
  workflow_id = "workflow";
  purpose = test;
  definition = record {
    snapshot_id = "snapshot";
    definition_hash = "hash";
    source = draft_snapshot;
    published_version_id = "";
  };
  workflow_input = "{}";
  deadline_at = 1000;
  created_at = 1;
}

-- checks that find no issue
abbrev pub no_issues : Checks
no_issues = record { unsupported = λ doc. none; invalid = λ doc. none }

abbrev pub succeeded_result : AttemptResult
succeeded_result = record {
  state = AttemptState.succeeded;
  outputs = ("answer", "{}") ∷ [];
  error_code = "";
  message = "";
  dsl_field = "";
  error_details = none;
}

abbrev pub busy_result : AttemptResult
busy_result = record {
  state = AttemptState.failed;
  outputs = [];
  error_code = "BUSY";
  message = "try again";
  dsl_field = "";
  error_details = none;
}
