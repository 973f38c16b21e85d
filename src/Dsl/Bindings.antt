-- ===== src/Dsl/Bindings.antt =====
-- What a document in which Contract.Validate of internal/dsl/validator.go finds no issue has for
-- identities and references: unique node ids, and bindings to outputs that exist and fit.
use evalfrog.Prelude.{
  String, ◌≡◌, refl, sym, Bool, true, false, not, ◌&&◌, Option, none, some, List, [], ◌∷◌, ◌==◌,
  inl, inr, ◌⊎◌, arith, eq_iff, eq_refl, contains, is_some, Option-cases, All, All-map2,
  append-eq-nil, flat_map, concat-eq-nil, flat_map-eq-nil, if◌then◌else◌,
}
use Prim.Native.String.{◌++◌ as append}
use evalfrog.Prelude.Assoc.{Assoc, lookup, insert, lookup-insert, lookup-insert_cases}
use evalfrog.Json.{Stdlib}
use evalfrog.Dsl.{DataType, InputBinding, OutputReference, DslNode, Document, compatible}
use evalfrog.Dsl.Issue.{Issue, node_issue}
use evalfrog.Dsl.Contract.{Contract, PortRule}
use evalfrog.Dsl.Ports.{
  check_required_input, check_reference, check_binding_kind, check_input, validate_inputs,
}
use evalfrog.Dsl.Validate.{
  validate, check_nodes_of, round_parts, check_source, check_sources, is_node_output,
}
use evalfrog.Dsl.Accepted.{
  issue_when-eq-nil, validate_node-inputs, validate-parts, validate-nodes, nodes_checked,
}
use evalfrog.Dsl.Connected.{All-lookup}

unfoldable pub are_distinct : List String → Bool
are_distinct [] = true
are_distinct (id ∷ ids) = not (contains ids id) && are_distinct ids

abbrev pub ids_of : List DslNode → List String
ids_of [] = []
ids_of (node ∷ rest) = node.id ∷ ids_of rest

-- a node of the document, by its id
unfoldable pub find_node : String → List DslNode → Option DslNode
find_node id [] = none
find_node id (node ∷ rest) = if node.id == id then some node else find_node id rest

find_node-contains :
    (id : String) (list : List DslNode) {node : DslNode}
    → find_node id list ≡ some node
    → contains (ids_of list) id ≡ true
unfolding find_node contains
find_node-contains id [] {node} h = absurd (cc h)
find_node-contains id (first ∷ rest) {node} h =
    ground (arith, eq_iff first.id id, eq_iff id first.id, find_node-contains id rest {node = node})

module _ (lib : Stdlib) (contract : Contract) where
  abbrev own_parts : DslNode → List DslNode → Assoc DslNode → List (List Issue)
  own_parts node rest nodes =
      round_parts lib contract node nodes
        (check_nodes_of lib contract rest (insert node.id node nodes)).0

  -- no later node has an id that is in the map already
  checked-excludes :
      (list : List DslNode) (nodes : Assoc DslNode) (id : String)
      → (check_nodes_of lib contract list nodes).0 ≡ []
      → is_some (lookup id nodes) ≡ true
      → contains (ids_of list) id ≡ false
  unfolding check_nodes_of contains
  checked-excludes [] nodes id h known = refl
  checked-excludes (node ∷ rest) nodes id h known =
      let (bad_id, (repeated, (own, (others, done)))) =
        concat-eq-nil (own_parts node rest nodes) h in
      let fresh =
        issue_when-eq-nil (is_some (lookup node.id nodes))
          (node_issue node.id "id" "DSL_NODE_ID_DUPLICATE" "execution node id must be unique")
          repeated in
      let later =
        checked-excludes rest (insert node.id node nodes) id others
          (ground (arith, lookup-insert node.id id node nodes)) in
      ground (arith, eq_iff id node.id)

  checked-are_distinct :
      (list : List DslNode) (nodes : Assoc DslNode)
      → (check_nodes_of lib contract list nodes).0 ≡ []
      → are_distinct (ids_of list) ≡ true
  unfolding check_nodes_of are_distinct
  checked-are_distinct [] nodes h = refl
  checked-are_distinct (node ∷ rest) nodes h =
      let (bad_id, (repeated, (own, (others, done)))) =
        concat-eq-nil (own_parts node rest nodes) h in
      let excluded =
        checked-excludes rest (insert node.id node nodes) node.id others
          (ground (arith, lookup-insert node.id node.id node nodes, eq_refl node.id)) in
      let later = checked-are_distinct rest (insert node.id node nodes) others in ground arith

  -- Every entry of the map was there before or is a node of the list.
  checked-origin :
      (list : List DslNode) (nodes : Assoc DslNode) (id : String) (node : DslNode)
      → (check_nodes_of lib contract list nodes).0 ≡ []
      → lookup id (check_nodes_of lib contract list nodes).1 ≡ some node
      → (lookup id nodes ≡ some node) ⊎ (find_node id list ≡ some node)
  unfolding check_nodes_of find_node
  checked-origin [] nodes id node h found = inl found
  checked-origin (first ∷ rest) nodes id node h found =
      let (bad_id, (repeated, (own, (others, done)))) =
        concat-eq-nil (own_parts first rest nodes) h in
      let excluded =
        checked-excludes rest (insert first.id first nodes) first.id others
          (ground (arith, lookup-insert first.id first.id first nodes, eq_refl first.id)) in
      elim (checked-origin rest (insert first.id first nodes) id node others found) [
        | inl before ↦ elim (lookup-insert_cases first.id id first nodes before) [
          | inl (same, it) ↦ inr (ground (arith, eq_iff first.id id, sym it))
          | inr earlier ↦ inl earlier
        ]
        | inr later ↦ inr (ground (arith, eq_iff first.id id, find_node-contains id rest later))
      ]

-- The input refers to an output, which a node of the document has, and its type fits.
pub record IsBound (nodes : List DslNode) (binding : InputBinding) : Type 0 where
  pub reference : OutputReference
  pub refers : binding.output ≡ some reference
  pub source : DslNode
  pub found : find_node reference.node_id nodes ≡ some source
  pub source_type : DataType
  pub output : lookup reference.name source.outputs ≡ some source_type
  pub fits : compatible source_type binding.data_type ≡ true

abbrev pub AreBound : List DslNode → DslNode → Type 0
AreBound nodes node =
    (name : String) (binding : InputBinding)
    → lookup name node.inputs ≡ some binding
    → is_node_output binding.kind ≡ true
    → IsBound nodes binding

-- an input that is taken from a node has a reference
check_reference-given :
    (id name : String) (binding : InputBinding)
    → check_reference id name binding ≡ []
    → (reference : OutputReference) × (binding.output ≡ some reference)
unfolding check_reference
check_reference-given id name binding h = elim (Option-cases binding.output) [
  | inl missing ↦ absurd (ground arith)
  | inr given ↦ given
]

check_binding_kind-given :
    (lib : Stdlib) (id name : String) (binding : InputBinding)
    → check_binding_kind lib id name binding ≡ []
    → is_node_output binding.kind ≡ true
    → (reference : OutputReference) × (binding.output ≡ some reference)
unfolding check_binding_kind is_node_output
check_binding_kind-given lib id name binding h kind =
    check_reference-given id name binding (ground arith)

check_input-given :
    (lib : Stdlib) (id : String) (rules : Assoc PortRule) (extra : Bool) (name : String)
    (binding : InputBinding)
    → check_input lib id rules extra (name, binding) ≡ []
    → is_node_output binding.kind ≡ true
    → (reference : OutputReference) × (binding.output ≡ some reference)
unfolding check_input
check_input-given lib id rules extra name binding h =
    check_binding_kind-given lib id name binding
      (append-eq-nil _ (check_binding_kind lib id name binding) h).1

validate_inputs-given :
    (lib : Stdlib) (node : DslNode) (rules : Assoc PortRule) (extra : Bool) (name : String)
    (binding : InputBinding)
    → validate_inputs lib node node.inputs rules extra ≡ []
    → lookup name node.inputs ≡ some binding
    → is_node_output binding.kind ≡ true
    → (reference : OutputReference) × (binding.output ≡ some reference)
unfolding validate_inputs
validate_inputs-given lib node rules extra name binding h has =
    check_input-given lib node.id rules extra name binding (
      All-lookup (λ entry. check_input lib node.id rules extra entry ≡ []) node.inputs
        (flat_map-eq-nil (check_input lib node.id rules extra) node.inputs
          (append-eq-nil (flat_map (check_required_input node.id node.inputs) rules)
            (flat_map (check_input lib node.id rules extra) node.inputs) h).1)
        name binding has)

-- the same, with the map of the nodes
check_source-IsBound :
    (list : List DslNode) (nodes : Assoc DslNode)
    → ((id : String) (node : DslNode) → lookup id nodes ≡ some node → find_node id list ≡ some node)
    → (id name : String) (binding : InputBinding) (reference : OutputReference)
    → check_source id nodes (name, binding) ≡ []
    → is_node_output binding.kind ≡ true
    → binding.output ≡ some reference
    → IsBound list binding
unfolding check_source
check_source-IsBound list nodes origin id name binding reference h kind output =
    elim (Option-cases (lookup reference.node_id nodes)) [
      | inl missing ↦ absurd (ground arith)
      | inr (source, at) ↦ elim (Option-cases (lookup reference.name source.outputs)) [
        | inl missing ↦ absurd (ground arith)
        | inr (source_type, has) ↦ record {
          reference = reference;
          refers = output;
          source = source;
          found = origin reference.node_id source at;
          source_type = source_type;
          output = has;
          fits = ground (
            arith,
            issue_when-eq-nil (not (compatible source_type binding.data_type)) (
                node_issue id (append "inputs." name) "DSL_INPUT_TYPE_MISMATCH"
                  "referenced output type is incompatible"),
          );
        }
      ]
    ]

module _ (lib : Stdlib) (contract : Contract) (document : Document) where
  -- In a document without issues the nodes' ids are distinct.
  pub validate-are_distinct :
      validate lib contract document ≡ [] → are_distinct (ids_of document.nodes) ≡ true
  validate-are_distinct h =
      checked-are_distinct lib contract document.nodes []
        (validate-parts lib contract document h).1.0

  -- In a document without issues every input of the kind node_output has a reference, which names a
  -- node of the document and one of its outputs, and the type of the output fits that of the input.
  pub validate-IsBound :
      validate lib contract document ≡ [] → All (AreBound document.nodes) document.nodes
  unfolding check_sources lookup
  validate-IsBound h =
      let nodes = (nodes_checked lib contract document).1 in
      let parts = validate-parts lib contract document h in
      let origin : (id : String) (node : DslNode)
          → lookup id nodes ≡ some node
          → find_node id document.nodes ≡ some node =
        λ id node at. elim (checked-origin lib contract document.nodes [] id node parts.1.0 at) [
          | inl before ↦ absurd (cc before)
          | inr found ↦ found
        ] in
      All-map2 document.nodes
        (λ node accepted checked. λ name binding has kind.
          let (spec, inputs) = validate_node-inputs lib contract node accepted in
          let (reference, given) =
            validate_inputs-given lib node spec.inputs spec.allow_extra_inputs name binding inputs
              has kind in
          check_source-IsBound document.nodes nodes origin node.id name binding reference
            (All-lookup (λ entry. check_source node.id nodes entry ≡ []) node.inputs
              (flat_map-eq-nil (check_source node.id nodes) node.inputs checked) name binding has)
            kind given)
        (validate-nodes lib contract document h)
        (flat_map-eq-nil (check_sources nodes) document.nodes parts.1.1.1.1.1.1.0)
