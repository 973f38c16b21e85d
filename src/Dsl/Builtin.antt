-- ===== src/Dsl/Builtin.antt =====
-- internal/dsl/validator.go: validateNode, and the operations of the builtin contract.
use Prim.Native.String.{◌++◌ as append}
use evalfrog.Prelude.{
  String, Bool, true, false, not, ◌&&◌, none, some, List, [], ◌∷◌, ◌++◌, if◌then◌else◌, is_some,
  flat_map, concat,
}
use evalfrog.Prelude.Assoc.{lookup}
use evalfrog.Json.{RawMessage, Stdlib}
use evalfrog.Runtime.Error.{Result}
use evalfrog.Sandbox.{Python}
use evalfrog.Dsl.{
  DataType, string_type, integer, number, boolean, object, array, DslKind, control_kind, task_kind,
  DslNode, Coordinate, coordinate_of, is_known_kind, same_dsl_kind,
}
use evalfrog.Dsl.Issue.{Issue, issue_when, node_issue}
use evalfrog.Dsl.Contract.{PortRule, OperationSpec, Contract, find_spec, new_contract}
use evalfrog.Dsl.Ports.{validate_inputs, validate_ports, validate_task_policy, is_empty_policy}
use evalfrog.Dsl.Config.{
  validate_branch_config, validate_python_config, validate_http_config, validate_rpc_config,
}

abbrev config_field : String → String
config_field name = append "operation.config." name

unfoldable pub check_required_config : DslNode → String × Bool → List Issue
unfolding lookup
check_required_config node (name, required) =
    issue_when (required && not (is_some (lookup name node.operation.config))) (
      node_issue node.id (config_field name) "DSL_CONFIG_REQUIRED"
        "required operation config is missing")

unfoldable pub check_config : Stdlib → DslNode → OperationSpec → String × RawMessage → List Issue
unfolding lookup
check_config lib node spec (name, value) =
    issue_when (not (is_some (lookup name spec.config_fields))) (
      node_issue node.id (config_field name) "DSL_CONFIG_UNKNOWN"
        "operation config field is unsupported")
    ++ issue_when (not (lib.valid value)) (
        node_issue node.id (config_field name) "DSL_CONFIG_JSON_INVALID"
          "operation config is invalid JSON")

unfoldable pub is_control_kind : DslKind → Bool
is_control_kind control_kind = true
is_control_kind _ = false

unfoldable pub validate_policy : DslNode → List Issue
unfolding is_control_kind is_empty_policy
validate_policy node =
    if is_control_kind node.kind
    then issue_when (not (is_empty_policy node.execution_policy)) (
        node_issue node.id "execution_policy" "DSL_CONTROL_POLICY_FORBIDDEN"
          "control nodes do not create attempts")
    else validate_task_policy node

-- the issues of a node whose maps are there, test by test
abbrev pub node_parts : Stdlib → DslNode → OperationSpec → List (List Issue)
node_parts lib node spec =
    flat_map (check_required_config node) spec.config_fields
    ∷ flat_map (check_config lib node spec) node.operation.config
    ∷ validate_inputs lib node node.inputs spec.inputs spec.allow_extra_inputs
    ∷ validate_ports node spec
    ∷ validate_policy node
    ∷ elim spec.validate_config [ none ↦ [] | some validate ↦ validate node ]
    ∷ []

unfoldable pub validate_parts : Stdlib → DslNode → OperationSpec → List Issue
unfolding concat flat_map check_required_config check_config validate_policy
validate_parts lib node spec = concat (node_parts lib node spec)

unfoldable pub validate_known : Stdlib → DslNode → OperationSpec → List Issue
unfolding validate_parts same_dsl_kind
validate_known lib node spec =
    issue_when (not (same_dsl_kind node.kind spec.kind)) (
      node_issue node.id "kind" "DSL_OPERATION_KIND_MISMATCH"
        "operation kind does not match node kind")
    ++ (if node.has_nil_map
        then node_issue node.id "" "DSL_NODE_CONTAINER_REQUIRED"
            "config, inputs, and outputs must be objects"
          ∷ []
        else validate_parts lib node spec)

unfoldable pub validate_node : Stdlib → Contract → DslNode → List Issue
unfolding is_known_kind find_spec validate_known
validate_node lib contract node =
    issue_when (not (is_known_kind node.kind))
      (node_issue node.id "kind" "DSL_NODE_KIND_INVALID" "node kind is invalid")
    ++ elim (find_spec (coordinate_of node.operation) contract.specs) [
      | none ↦
          node_issue node.id "operation" "DSL_OPERATION_UNKNOWN"
            "operation is not part of the DSL contract"
          ∷ []
      | some spec ↦ validate_known lib node spec
    ]

-- BuiltinV1Contract

abbrev pub version_one : String → Coordinate
version_one type_name = record { type_name = type_name; version = 1 }

abbrev object_types : List DataType
object_types = object ∷ []

abbrev all_types : List DataType
all_types = string_type ∷ integer ∷ number ∷ boolean ∷ object ∷ array ∷ []

abbrev required_port : List DataType → PortRule
required_port types = record { required = true; data_types = types }

abbrev optional_port : List DataType → PortRule
optional_port types = record { required = false; data_types = types }

abbrev pub start_spec : OperationSpec
start_spec = record {
  coordinate = version_one "control.start";
  kind = control_kind;
  config_fields = [];
  inputs = [];
  allow_extra_inputs = false;
  outputs = ("workflow_input", required_port object_types) ∷ [];
  allow_extra_outputs = false;
  validate_config = none;
}

abbrev pub end_spec : OperationSpec
end_spec = record {
  coordinate = version_one "control.end";
  kind = control_kind;
  config_fields = [];
  inputs = ("workflow_output", required_port object_types) ∷ [];
  allow_extra_inputs = false;
  outputs = [];
  allow_extra_outputs = false;
  validate_config = none;
}

module _ (lib : Stdlib) where
  abbrev pub branch_spec : OperationSpec
  branch_spec = record {
    coordinate = version_one "control.branch";
    kind = control_kind;
    config_fields = ("cases", true) ∷ ("default_route", true) ∷ [];
    inputs = ("value", required_port all_types) ∷ [];
    allow_extra_inputs = false;
    outputs = [];
    allow_extra_outputs = false;
    validate_config = some (validate_branch_config lib);
  }

  abbrev pub python_spec : Python → OperationSpec
  python_spec python = record {
    coordinate = version_one "task.python";
    kind = task_kind;
    config_fields =
        ("source_code", true) ∷ ("sandbox_profile", true) ∷ ("model_artifact", false) ∷ [];
    inputs = [];
    allow_extra_inputs = true;
    outputs = [];
    allow_extra_outputs = true;
    validate_config = some (validate_python_config lib python);
  }

  abbrev pub http_spec : OperationSpec
  http_spec = record {
    coordinate = version_one "task.http";
    kind = task_kind;
    config_fields = ("connection_id", true) ∷ ("method", true) ∷ ("accepted_statuses", true) ∷ [];
    inputs =
        ("relative_path", required_port (string_type ∷ []))
        ∷ ("query", optional_port object_types)
        ∷ ("headers", optional_port object_types)
        ∷ ("body", optional_port all_types)
        ∷ [];
    allow_extra_inputs = false;
    outputs = ("response", required_port object_types) ∷ [];
    allow_extra_outputs = false;
    validate_config = some (validate_http_config lib);
  }

  abbrev pub rpc_spec : OperationSpec
  rpc_spec = record {
    coordinate = version_one "task.rpc";
    kind = task_kind;
    config_fields =
        ("service_id", true)
        ∷ ("operation", true)
        ∷ ("contract_revision", true)
        ∷ ("idempotent", true)
        ∷ [];
    inputs = ("request", required_port object_types) ∷ [];
    allow_extra_inputs = false;
    outputs = ("response", required_port object_types) ∷ [];
    allow_extra_outputs = false;
    validate_config = some (validate_rpc_config lib);
  }

  unfoldable pub builtin_contract : Python → Result Contract
  unfolding new_contract
  builtin_contract python =
      new_contract "1"
        (start_spec ∷ end_spec ∷ branch_spec ∷ python_spec python ∷ http_spec ∷ rpc_spec ∷ [])
