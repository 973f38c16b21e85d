-- ===== src/Dsl/Ports.antt =====
-- internal/dsl/validator.go: validateInputs, validateOutputs, rawDataType and the policies of nodes.
use Prim.Native.Nat.{Ordering}
use Prim.Native.String.{compare, ◌++◌ as append}
use evalfrog.Prelude.{
  String, Bool, true, false, not, ◌&&◌, ◌||◌, Option, none, some, List, [], ◌∷◌, ◌++◌, ◌==◌,
  if◌then◌else◌, is_blank, is_some, nat_eq, length, flat_map,
}
use evalfrog.Prelude.Assoc.{Assoc, lookup}
use evalfrog.Json.{RawMessage, Value, null, bool, num, str, arr, obj, Stdlib}
use evalfrog.Dsl.{
  DataType, string_type, integer, number, boolean, object, array, DslNode, InputBinding, literal,
  node_output, ExecutionPolicy, is_known_type, compatible,
}
use evalfrog.Dsl.Issue.{Issue, issue_when, node_issue}
use evalfrog.Dsl.Names.{port_pattern}
use evalfrog.Dsl.Contract.{PortRule, OperationSpec, contains_type}

-- the type of a JSON text
module _ (lib : Stdlib) where
  unfoldable pub dsl_value_type : Value → Option DataType
  dsl_value_type (str text) = some string_type
  dsl_value_type (bool b) = some boolean
  dsl_value_type (num text) =
      if lib.is_rational text && lib.is_integer text then some integer else some number
  dsl_value_type (arr items) = some array
  dsl_value_type (obj fields) = some object
  dsl_value_type null = none

  unfoldable pub dsl_data_type : RawMessage → Option DataType
  unfolding dsl_value_type
  dsl_data_type raw =
      if not (lib.valid raw) || lib.trims_to_null raw
      then none
      else elim (lib.decode raw) [ none ↦ none | some value ↦ dsl_value_type value ]

abbrev input_field : String → String
input_field name = append "inputs." name

abbrev output_field : String → String
output_field name = append "outputs." name

-- a required input that is not there
unfoldable pub check_required_input : String → Assoc InputBinding → String × PortRule → List Issue
unfolding lookup
check_required_input id actual (name, rule) =
    issue_when (rule.required && not (is_some (lookup name actual)))
      (node_issue id (input_field name) "DSL_INPUT_REQUIRED" "required runtime input is missing")

-- the tests of a binding's name and data type against the rules
unfoldable pub check_input_type : String → Assoc PortRule → Bool → String → DataType → List Issue
unfolding lookup contains_type
check_input_type id rules allow_extra name data_type = elim (lookup name rules) [
  | none ↦
      issue_when (not allow_extra)
        (node_issue id (input_field name) "DSL_INPUT_UNKNOWN" "runtime input is unsupported")
  | some rule ↦ issue_when (not (contains_type rule.data_types data_type)) (
      node_issue id (input_field name) "DSL_INPUT_TYPE_INVALID"
        "runtime input data_type is unsupported")
]

unfoldable pub check_literal : Stdlib → String → String → InputBinding → List Issue
unfolding dsl_data_type compatible
check_literal lib id name binding =
    if is_blank binding.value || is_some binding.output || not (lib.valid binding.value)
    then node_issue id (input_field name) "DSL_LITERAL_BINDING_INVALID"
        "literal binding requires one valid value"
      ∷ []
    else issue_when
        (elim (dsl_data_type lib binding.value) [
          | none ↦ true
          | some actual ↦ not (compatible actual binding.data_type)
        ])
        (node_issue id (input_field name) "DSL_LITERAL_TYPE_MISMATCH"
          "literal value does not match binding data_type")

unfoldable pub check_reference : String → String → InputBinding → List Issue
unfolding port_pattern
check_reference id name binding =
    issue_when
      (not (is_blank binding.value) || elim binding.output [
        | none ↦ true
        | some reference ↦ is_blank reference.node_id || not (port_pattern reference.name)
      ])
      (node_issue id (input_field name) "DSL_OUTPUT_BINDING_INVALID"
        "node_output binding requires one output reference")

unfoldable pub check_binding_kind : Stdlib → String → String → InputBinding → List Issue
unfolding check_literal check_reference
check_binding_kind lib id name binding = elim binding.kind [
  | literal ↦ check_literal lib id name binding
  | node_output ↦ check_reference id name binding
  | _ ↦
      node_issue id (input_field name) "DSL_INPUT_BINDING_KIND_INVALID"
        "input binding kind is invalid"
      ∷ []
]

unfoldable pub check_input :
    Stdlib → String → Assoc PortRule → Bool → String × InputBinding → List Issue
unfolding check_input_type check_binding_kind is_known_type port_pattern
check_input lib id rules allow_extra (name, binding) =
    issue_when (not (port_pattern name))
      (node_issue id (input_field name) "DSL_INPUT_NAME_INVALID" "runtime input name is invalid")
    ++ check_input_type id rules allow_extra name binding.data_type
    ++ issue_when (not (is_known_type binding.data_type)) (
        node_issue id (input_field name) "DSL_INPUT_TYPE_INVALID"
          "runtime input data_type is invalid")
    ++ check_binding_kind lib id name binding

unfoldable pub validate_inputs :
    Stdlib → DslNode → Assoc InputBinding → Assoc PortRule → Bool → List Issue
unfolding flat_map check_required_input check_input
validate_inputs lib node actual rules allow_extra =
    flat_map (check_required_input node.id actual) rules
    ++ flat_map (check_input lib node.id rules allow_extra) actual

unfoldable pub check_required_output : String → Assoc DataType → String × PortRule → List Issue
unfolding lookup
check_required_output id actual (name, rule) =
    issue_when (rule.required && not (is_some (lookup name actual)))
      (node_issue id (output_field name) "DSL_OUTPUT_REQUIRED" "required output is missing")

unfoldable pub check_output : String → OperationSpec → String × DataType → List Issue
unfolding lookup contains_type is_known_type port_pattern
check_output id spec (name, data_type) =
    issue_when (not (port_pattern name) || not (is_known_type data_type))
      (node_issue id (output_field name) "DSL_OUTPUT_INVALID" "output name or type is invalid")
    ++ elim (lookup name spec.outputs) [
      | none ↦
          issue_when (not spec.allow_extra_outputs)
            (node_issue id (output_field name) "DSL_OUTPUT_UNKNOWN" "output is unsupported")
      | some rule ↦ issue_when (not (contains_type rule.data_types data_type)) (
          node_issue id (output_field name) "DSL_OUTPUT_TYPE_INVALID"
            "output data_type is unsupported")
    ]

-- validateOutputs
unfoldable pub validate_ports : DslNode → OperationSpec → List Issue
unfolding flat_map check_required_output check_output
validate_ports node spec =
    flat_map (check_required_output node.id node.outputs) spec.outputs
    ++ flat_map (check_output node.id spec) node.outputs

-- sort.StringsAreSorted
unfoldable pub are_sorted : List String → Bool
are_sorted [] = true
are_sorted (a ∷ []) = true
are_sorted (a ∷ b ∷ rest) =
    elim (compare b a) [ Ordering.lt ↦ false | _ ↦ true ] && are_sorted (b ∷ rest)

-- two neighbours are equal
unfoldable pub repeats_neighbour : List String → Bool
repeats_neighbour [] = false
repeats_neighbour (a ∷ []) = false
repeats_neighbour (a ∷ b ∷ rest) = b == a || repeats_neighbour (b ∷ rest)

unfoldable pub validate_task_policy : DslNode → List Issue
unfolding are_sorted repeats_neighbour
validate_task_policy node =
    let policy = node.execution_policy in
    let codes = policy.retryable_error_codes in
    if nat_eq policy.max_attempts 0
      || nat_eq policy.attempt_timeout_ms 0
      || not (is_some policy.retry_backoff)
    then node_issue node.id "execution_policy" "DSL_EXECUTION_POLICY_INVALID"
        "task policy requires attempts, timeout, and backoff"
      ∷ []
    else issue_when
        (elim policy.retry_backoff [
          | none ↦ false
          | some backoff ↦ not (backoff.kind == "fixed") || nat_eq backoff.delay_ms 0
        ])
        (node_issue node.id "execution_policy.retry_backoff" "DSL_RETRY_BACKOFF_INVALID"
          "retry backoff must be a positive fixed delay")
      ++ issue_when (not (are_sorted codes)) (
          node_issue node.id "execution_policy.retryable_error_codes" "DSL_RETRY_CODES_UNSORTED"
            "retryable error codes must be sorted")
      ++ issue_when (repeats_neighbour codes) (
          node_issue node.id "execution_policy.retryable_error_codes" "DSL_RETRY_CODE_DUPLICATE"
            "retryable error codes must be unique")

unfoldable pub is_empty_policy : ExecutionPolicy → Bool
is_empty_policy policy =
    nat_eq policy.max_attempts 0
    && nat_eq policy.max_recoveries 0
    && nat_eq policy.attempt_timeout_ms 0
    && not (is_some policy.retry_backoff)
    && nat_eq (length policy.retryable_error_codes) 0
