-- ===== src/Dsl/Validate.antt =====
-- internal/dsl/validator.go: Contract.Validate.
use Prim.Native.String.{◌++◌ as append}
use evalfrog.Prelude.{
  ℕ, ◌+◌, String, Bool, true, false, not, none, some, List, [], ◌∷◌, ◌++◌, ◌==◌, if◌then◌else◌,
  is_some, nat_eq, flat_map, concat,
}
use evalfrog.Prelude.Assoc.{Assoc, lookup, insert}
use evalfrog.Json.{Stdlib}
use evalfrog.Dsl.{
  BindingKind, node_output, InputBinding, DslNode, Document, Coordinate, coordinate_of,
  coordinate_eq, compatible,
}
use evalfrog.Dsl.Issue.{Issue, issue_when, document_issue, node_issue, sort_issues}
use evalfrog.Dsl.Names.{node_id_pattern}
use evalfrog.Dsl.Contract.{Contract}
use evalfrog.Dsl.Builtin.{validate_node, version_one}
use evalfrog.Dsl.Graph.{validate_edges_and_graph}

unfoldable pub has_coordinate : Coordinate → DslNode → Bool
unfolding coordinate_eq
has_coordinate coordinate node = coordinate_eq (coordinate_of node.operation) coordinate

unfoldable pub count_coordinate : Coordinate → List DslNode → ℕ
unfolding has_coordinate
count_coordinate coordinate [] = 0
count_coordinate coordinate (node ∷ rest) =
    (if has_coordinate coordinate node then 1 else 0) + count_coordinate coordinate rest

-- the issues of one round of the loop over the nodes, and those of the rounds after it
abbrev pub round_parts :
    Stdlib → Contract → DslNode → Assoc DslNode → List Issue → List (List Issue)
round_parts lib contract node nodes later =
    issue_when (not (node_id_pattern node.id))
      (node_issue node.id "id" "DSL_NODE_ID_INVALID" "execution node id is invalid")
    ∷ issue_when (is_some (lookup node.id nodes))
        (node_issue node.id "id" "DSL_NODE_ID_DUPLICATE" "execution node id must be unique")
    ∷ validate_node lib contract node
    ∷ later
    ∷ []

-- The loop over the nodes: its issues, and the map of the nodes.
unfoldable pub check_nodes_of :
    Stdlib → Contract → List DslNode → Assoc DslNode → List Issue × Assoc DslNode
unfolding concat node_id_pattern lookup insert
check_nodes_of lib contract [] nodes = ([], nodes)
check_nodes_of lib contract (node ∷ rest) nodes =
    let later = check_nodes_of lib contract rest (insert node.id node nodes) in
    (concat (round_parts lib contract node nodes later.0), later.1)

-- an end of the document: it is there, and it has the coordinate
unfoldable pub check_terminal :
    Assoc DslNode → String → Coordinate → Issue → String → String → List Issue
unfolding lookup has_coordinate
check_terminal nodes id coordinate missing code text = elim (lookup id nodes) [
  | none ↦ missing ∷ []
  | some node ↦
      issue_when (not (has_coordinate coordinate node)) (node_issue node.id "operation" code text)
]

unfoldable pub check_terminals : Document → Assoc DslNode → List Issue
unfolding check_terminal
check_terminals document nodes =
    check_terminal nodes document.entry_node_id (version_one "control.start")
      (node_issue document.entry_node_id "entry_node_id" "DSL_ENTRY_NODE_NOT_FOUND"
        "entry_node_id does not exist")
      "DSL_ENTRY_NODE_INVALID" "entry node must be control.start@1"
    ++ check_terminal nodes document.exit_node_id (version_one "control.end")
        (node_issue document.exit_node_id "exit_node_id" "DSL_EXIT_NODE_NOT_FOUND"
          "exit_node_id does not exist")
        "DSL_EXIT_NODE_INVALID" "exit node must be control.end@1"

unfoldable pub is_node_output : BindingKind → Bool
is_node_output node_output = true
is_node_output _ = false

-- `outputs` is the map of the nodes' outputs; it has the nodes' keys
unfoldable pub check_source : String → Assoc DslNode → String × InputBinding → List Issue
unfolding is_node_output lookup compatible
check_source id nodes (name, input) =
    if not (is_node_output input.kind) then [] else elim input.output [
      | none ↦ []
      | some reference ↦ elim (lookup reference.node_id nodes) [
        | none ↦
            node_issue id (append "inputs." name) "DSL_INPUT_NODE_NOT_FOUND"
              "input references a missing execution node"
            ∷ []
        | some source ↦ elim (lookup reference.name source.outputs) [
          | none ↦
              node_issue id (append "inputs." name) "DSL_INPUT_OUTPUT_NOT_FOUND"
                "input references a missing output"
              ∷ []
          | some source_type ↦ issue_when (not (compatible source_type input.data_type)) (
              node_issue id (append "inputs." name) "DSL_INPUT_TYPE_MISMATCH"
                "referenced output type is incompatible")
        ]
      ]
    ]

unfoldable pub check_sources : Assoc DslNode → DslNode → List Issue
unfolding flat_map check_source
check_sources nodes node = flat_map (check_source node.id nodes) node.inputs

module _ (lib : Stdlib) (contract : Contract) where
  -- the issues of a document, test by test, after the loop over the nodes
  abbrev pub document_parts : Document → List Issue → Assoc DslNode → List (List Issue)
  document_parts document node_issues nodes =
      issue_when (not (document.dsl_version == contract.version)) (record {
        code = "DSL_VERSION_UNSUPPORTED";
        message = "dsl_version is unsupported";
        node_id = "";
        edge_id = "";
        field = "dsl_version";
      })
      ∷ node_issues
      ∷ issue_when (not (nat_eq (count_coordinate (version_one "control.start") document.nodes) 1))
          (document_issue "DSL_START_COUNT_INVALID" "DSL requires exactly one control.start@1")
      ∷ issue_when (not (nat_eq (count_coordinate (version_one "control.end") document.nodes) 1))
          (document_issue "DSL_END_COUNT_INVALID" "DSL requires exactly one control.end@1")
      ∷ check_terminals document nodes
      ∷ validate_edges_and_graph lib document nodes
      ∷ flat_map (check_sources nodes) document.nodes
      ∷ []

  -- the issues before they are sorted
  unfoldable pub collect_issues : Document → List Issue
  unfolding concat count_coordinate check_nodes_of check_terminals flat_map check_sources
  collect_issues document =
      let checked = check_nodes_of lib contract document.nodes [] in
      concat (document_parts document checked.0 checked.1)

  unfoldable pub validate : Document → List Issue
  unfolding sort_issues
  validate document = sort_issues (collect_issues document)
