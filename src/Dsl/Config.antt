-- ===== src/Dsl/Config.antt =====
-- internal/dsl/validator.go: the checks of the operations' configurations. A configuration field is
-- decoded by the functions of Stdlib.

use Prim.Native.String.{◌++◌ as append}
use evalfrog.Prelude.{
  ℕ, suc, String, Bool, true, false, not, ◌&&◌, ◌||◌, Option, none, some, List, [], ◌∷◌, ◌++◌, ◌==◌,
  if◌then◌else◌, is_blank, is_some, nat_eq, ltb, length, flat_map, contains, all,
}
use evalfrog.Prelude.Assoc.{Assoc, lookup, insert, keys}
use evalfrog.Json.{RawMessage, ℤ, pos, negsuc, Stdlib}
use evalfrog.Sandbox.{Python, validate_source}
use evalfrog.Dsl.{
  DataType, string_type, integer, number, boolean, object, array, unknown_type, type_eq, DslNode,
  Edge,
}
use evalfrog.Dsl.Issue.{Issue, issue_when, node_issue, edge_issue}
use evalfrog.Dsl.Names.{port_pattern, decimal}
use evalfrog.Dsl.Ports.{dsl_data_type}

-- decodeConfig: a field that is there, is valid, and decodes into its target
unfoldable pub decode_config {ℓ} :
    {A : Type ℓ} → Stdlib → (RawMessage → Option A) → DslNode → String → Option A
unfolding lookup
decode_config lib decode node field = elim (lookup field node.operation.config) [
  | none ↦ none
  | some raw ↦ if lib.valid raw then decode raw else none
]

-- a field that decodes into a text of which the test holds
unfoldable pub has_text : Stdlib → (String → Bool) → DslNode → String → Bool
unfolding decode_config
has_text lib test node field = elim (decode_config lib lib.unmarshal_string node field) [
  | none ↦ false
  | some text ↦ test text
]

abbrev config_field : String → String
config_field name = append "operation.config." name

abbrev case_field : ℕ → String → String
case_field index rest = append "operation.config.cases." (append (decimal index) rest)

-- Branches.

unfoldable pub valid_branch_path : Stdlib → String → Bool
unfolding all port_pattern
valid_branch_path lib path = not (is_blank path) && all port_pattern (lib.split_dots path)

unfoldable pub branch_operators : DataType → List String
branch_operators string_type =
    "eq" ∷ "neq" ∷ "contains" ∷ "not_contains" ∷ "starts_with" ∷ "ends_with" ∷ []
branch_operators integer = "eq" ∷ "neq" ∷ "gt" ∷ "gte" ∷ "lt" ∷ "lte" ∷ []
branch_operators number = "eq" ∷ "neq" ∷ "gt" ∷ "gte" ∷ "lt" ∷ "lte" ∷ []
branch_operators boolean = "eq" ∷ "neq" ∷ []
branch_operators array = "eq" ∷ "neq" ∷ "contains" ∷ "not_contains" ∷ []
branch_operators object = "eq" ∷ "neq" ∷ "has_key" ∷ "not_has_key" ∷ []
branch_operators (unknown_type s) = []

abbrev is_of_type : DataType → Option DataType → Bool
unfolding type_eq
is_of_type expected none = false
is_of_type expected (some actual) = type_eq actual expected

unfoldable pub valid_branch_comparison : Stdlib → DataType → String → RawMessage → Bool
unfolding contains branch_operators dsl_data_type type_eq
valid_branch_comparison lib value_type operator raw =
    let comparison = dsl_data_type lib raw in
    if not (contains (branch_operators value_type) operator) then false else elim value_type [
      | string_type ↦ is_of_type string_type comparison
      | integer ↦ is_of_type integer comparison || is_of_type number comparison
      | number ↦ is_of_type integer comparison || is_of_type number comparison
      | boolean ↦ is_of_type boolean comparison
      | array ↦ operator == "contains" || operator == "not_contains" || is_of_type array comparison
      | object ↦
          if operator == "has_key" || operator == "not_has_key"
          then is_of_type string_type comparison
          else is_of_type object comparison
      | unknown_type s ↦ false
    ]

unfoldable pub valid_path_comparison : Stdlib → String → RawMessage → Bool
unfolding dsl_data_type contains type_eq
valid_path_comparison lib operator raw =
    let comparison = dsl_data_type lib raw in
    if contains ("starts_with" ∷ "ends_with" ∷ "has_key" ∷ "not_has_key" ∷ []) operator
    then is_of_type string_type comparison
    else if contains ("gt" ∷ "gte" ∷ "lt" ∷ "lte" ∷ []) operator
    then is_of_type integer comparison || is_of_type number comparison
    else if contains ("contains" ∷ "not_contains" ∷ []) operator
    then true
    else if contains ("eq" ∷ "neq" ∷ []) operator
    then is_some comparison
    else false

-- the text that json.Unmarshal leaves in a variable that was empty
abbrev text_of : Stdlib → Option RawMessage → String
text_of lib none = ""
text_of lib (some raw) = elim (lib.unmarshal_string raw) [ none ↦ "" | some text ↦ text ]

abbrev or_empty_text : Option RawMessage → RawMessage
or_empty_text none = ""
or_empty_text (some raw) = raw

-- the entry is there, decodes into a text, and the test holds of it
unfoldable pub entry_is : Stdlib → (String → Bool) → String → Assoc RawMessage → Bool
unfolding lookup
entry_is lib test name entries = elim (lookup name entries) [
  | none ↦ false
  | some raw ↦ elim (lib.unmarshal_string raw) [ none ↦ false | some text ↦ test text ]
]

-- the data type of the input `value`; a missing binding has the empty one
unfoldable pub branch_value_type : DslNode → DataType
unfolding lookup
branch_value_type node = elim (lookup "value" node.inputs) [
  | none ↦ unknown_type ""
  | some binding ↦ binding.data_type
]

-- the operator and the value of a case fit its path, or the branch's value
unfoldable pub case_fits : Stdlib → DslNode → Assoc RawMessage → Bool
unfolding lookup branch_value_type valid_path_comparison valid_branch_comparison type_eq
case_fits lib node entries =
    let operator = text_of lib (lookup "operator" entries) in
    let comparison = or_empty_text (lookup "value" entries) in
    let value_type = branch_value_type node in
    if is_some (lookup "path" entries)
    then type_eq value_type object && valid_path_comparison lib operator comparison
    else valid_branch_comparison lib value_type operator comparison

unfoldable pub check_case_field : String → ℕ → String → List Issue
unfolding contains
check_case_field id index field =
    issue_when (not (contains ("route" ∷ "path" ∷ "operator" ∷ "value" ∷ []) field)) (
      node_issue id (case_field index (append "." field)) "DSL_BRANCH_CASE_INVALID"
        "branch case field is unsupported")

unfoldable pub check_case : Stdlib → DslNode → ℕ → Assoc RawMessage → List Issue
unfolding lookup entry_is case_fits check_case_field flat_map keys port_pattern valid_branch_path
check_case lib node index entries =
    issue_when (not (entry_is lib port_pattern "route" entries)) (
      node_issue node.id (case_field index ".route") "DSL_BRANCH_CASE_INVALID"
        "branch case route is invalid")
    ++ issue_when (not (entry_is lib (λ text. not (is_blank text)) "operator" entries)) (
        node_issue node.id (case_field index ".operator") "DSL_BRANCH_CASE_INVALID"
          "branch case operator is invalid")
    ++ issue_when (not (is_some (lookup "value" entries))) (
        node_issue node.id (case_field index ".value") "DSL_BRANCH_CASE_INVALID"
          "branch case value is required")
    ++ issue_when
        (is_some (lookup "path" entries)
          && not (entry_is lib (valid_branch_path lib) "path" entries))
        (node_issue node.id (case_field index ".path") "DSL_BRANCH_CASE_INVALID"
          "branch case path is invalid")
    ++ issue_when (not (case_fits lib node entries)) (
        node_issue node.id (case_field index "") "DSL_BRANCH_OPERATOR_TYPE_MISMATCH" (
          if is_some (lookup "path" entries)
          then "path operator or comparison value is incompatible"
          else "operator or comparison value is incompatible with branch value"))
    ++ flat_map (check_case_field node.id index) (keys entries)

unfoldable pub check_cases : Stdlib → DslNode → ℕ → List (Assoc RawMessage) → List Issue
unfolding check_case
check_cases lib node index [] = []
check_cases lib node index (entries ∷ rest) =
    check_case lib node index entries ++ check_cases lib node (suc index) rest

abbrev invalid_cases : DslNode → List Issue
invalid_cases node =
    node_issue node.id (config_field "cases") "DSL_BRANCH_CASES_INVALID"
      "branch cases must be a non-empty array"
    ∷ []

unfoldable pub validate_branch_config : Stdlib → DslNode → List Issue
unfolding has_text decode_config check_cases port_pattern
validate_branch_config lib node =
    issue_when (not (has_text lib port_pattern node "default_route")) (
      node_issue node.id (config_field "default_route") "DSL_BRANCH_DEFAULT_INVALID"
        "branch default_route is invalid")
    ++ elim (decode_config lib lib.unmarshal_maps node "cases") [
      | none ↦ invalid_cases node
      | some cases ↦
          if nat_eq (length cases) 0 then invalid_cases node else check_cases lib node 0 cases
    ]

-- `declared`: whether each declared route is used, the default route and those of the cases
unfoldable pub declare_routes : List String → Assoc Bool → Assoc Bool
unfolding insert
declare_routes [] declared = declared
declare_routes (route ∷ rest) declared = declare_routes rest (insert route false declared)

unfoldable pub declared_routes : Stdlib → DslNode → Assoc Bool
unfolding declare_routes lookup
declared_routes lib node =
    declare_routes (lib.unmarshal_routes (or_empty_text (lookup "cases" node.operation.config))) (
      (text_of lib (some (or_empty_text (lookup "default_route" node.operation.config))), false)
      ∷ [])

-- the loop over the edges: its issues, and the routes marked as used
unfoldable pub use_routes : List Edge → Assoc Bool → List Issue × Assoc Bool
unfolding lookup insert
use_routes [] declared = ([], declared)
use_routes (edge ∷ rest) declared =
    let route = edge.activation.route in
    let unknown = use_routes rest declared in
    let known = use_routes rest (insert route true declared) in
    elim (lookup route declared) [
      | some used ↦ known
      | none ↦ (
        edge_issue edge.id "activation.route" "DSL_BRANCH_ROUTE_UNDECLARED"
              "branch edge route is not declared"
            ∷ unknown.0,
        unknown.1,
      )
    ]

unfoldable pub check_route_used : String → String × Bool → List Issue
check_route_used id (route, used) = issue_when (not (is_blank route) && not used) (
    node_issue id (config_field "cases") "DSL_BRANCH_ROUTE_UNUSED"
      "declared branch route has no outgoing edge")

unfoldable pub validate_branch_routes : Stdlib → DslNode → List Edge → List Issue
unfolding declared_routes use_routes flat_map check_route_used
validate_branch_routes lib node edges =
    let (issues, routes) = use_routes edges (declared_routes lib node) in
    issues ++ flat_map (check_route_used node.id) routes

-- Tasks.

unfoldable pub validate_python_config : Stdlib → Python → DslNode → List Issue
unfolding decode_config has_text validate_source
validate_python_config lib python node =
    let missing =
      node_issue node.id (config_field "source_code") "DSL_PYTHON_SOURCE_INVALID"
        "python source_code is required"
      ∷ [] in
    elim (decode_config lib lib.unmarshal_string node "source_code") [
      | none ↦ missing
      | some source ↦ if is_blank source then missing else elim (validate_source python source) [
        | none ↦ []
        | some error ↦
            node_issue node.id "operation.config.source_code" error.code error.message ∷ []
      ]
    ]
    ++ issue_when (not (has_text lib (λ text. not (is_blank text)) node "sandbox_profile")) (
        node_issue node.id (config_field "sandbox_profile") "DSL_SANDBOX_PROFILE_INVALID"
          "sandbox profile is required")

unfoldable pub allowed_http_method : String → Bool
unfolding contains
allowed_http_method value = contains ("GET" ∷ "POST" ∷ "PUT" ∷ "PATCH" ∷ "DELETE" ∷ []) value

abbrev status_of : ℤ → ℕ
status_of (pos n) = n
status_of (negsuc n) = 0

unfoldable pub contains_status : List ℕ → ℕ → Bool
contains_status [] status = false
contains_status (other ∷ rest) status = nat_eq other status || contains_status rest status

-- some status is out of range or repeated; a negative one is out of range as 0 is
unfoldable pub has_bad_status : List ℕ → List ℤ → Bool
unfolding contains_status
has_bad_status seen [] = false
has_bad_status seen (status ∷ rest) =
    let value = status_of status in
    ltb value 100
    || ltb 599 value
    || contains_status seen value
    || has_bad_status (value ∷ seen) rest

abbrev bad_statuses : DslNode → String → Issue
bad_statuses node text =
    node_issue node.id (config_field "accepted_statuses") "DSL_HTTP_STATUSES_INVALID" text

unfoldable pub validate_http_config : Stdlib → DslNode → List Issue
unfolding has_text decode_config has_bad_status allowed_http_method
validate_http_config lib node =
    issue_when (not (has_text lib (λ text. not (is_blank text)) node "connection_id")) (
      node_issue node.id (config_field "connection_id") "DSL_HTTP_CONNECTION_INVALID"
        "connection_id is required")
    ++ issue_when (not (has_text lib allowed_http_method node "method"))
        (node_issue node.id (config_field "method") "DSL_HTTP_METHOD_INVALID" "method is required")
    ++ elim (decode_config lib lib.unmarshal_ints node "accepted_statuses") [
      | none ↦ bad_statuses node "accepted_statuses must be a non-empty integer array" ∷ []
      | some statuses ↦
          if nat_eq (length statuses) 0
          then bad_statuses node "accepted_statuses must be a non-empty integer array" ∷ []
          else issue_when (has_bad_status [] statuses)
              (bad_statuses node "accepted_statuses must contain unique HTTP status codes")
    ]

unfoldable pub check_rpc_text : Stdlib → DslNode → String → List Issue
unfolding has_text
check_rpc_text lib node field =
    issue_when (not (has_text lib (λ text. not (is_blank text)) node field)) (
      node_issue node.id (config_field field) "DSL_RPC_CONFIG_INVALID"
        "RPC config string is required")

unfoldable pub validate_rpc_config : Stdlib → DslNode → List Issue
unfolding flat_map check_rpc_text decode_config
validate_rpc_config lib node =
    flat_map (check_rpc_text lib node) ("service_id" ∷ "operation" ∷ "contract_revision" ∷ [])
    ++ issue_when (not (is_some (decode_config lib lib.unmarshal_bool node "idempotent"))) (
        node_issue node.id (config_field "idempotent") "DSL_RPC_CONFIG_INVALID"
          "RPC idempotent flag is required")
