-- ===== src/Dsl/Graph.antt =====
-- internal/dsl/validator.go: validateEdgesAndGraph, the tests of the control graph. The two loops over
-- a queue and a stack take fuel.
use evalfrog.Prelude.{
  ℕ, zero, suc, ◌+◌, ◌-◌, String, Bool, true, false, not, ◌||◌, none, some, List, [], ◌∷◌, ◌++◌,
  ◌==◌, if◌then◌else◌, is_blank, is_some, nat_eq, length, flat_map, concat, contains, sort_strings,
}
use evalfrog.Prelude.Assoc.{Assoc, lookup, insert, keys, entries_of, append_entry}
use evalfrog.Json.{Stdlib}
use evalfrog.Dsl.{ActivationKind, always, on_route, DslNode, Edge, Document}
use evalfrog.Dsl.Issue.{Issue, issue_when, document_issue, node_issue, edge_issue}
use evalfrog.Dsl.Names.{edge_id_pattern, port_pattern}
use evalfrog.Dsl.Config.{validate_branch_routes}

-- The maps that the loop over the edges fills.
pub record EdgeMaps : Type 0 where
  pub edge_ids : List String
  pub incoming : Assoc (List String)
  pub outgoing : Assoc (List String)
  pub outgoing_edges : Assoc (List Edge)

abbrev pub no_maps : EdgeMaps
no_maps = record { edge_ids = []; incoming = []; outgoing = []; outgoing_edges = [] }

unfoldable pub is_always : ActivationKind → Bool
is_always always = true
is_always _ = false

unfoldable pub is_on_route : ActivationKind → Bool
is_on_route on_route = true
is_on_route _ = false

abbrev pub is_branch : DslNode → Bool
is_branch node = node.operation.type_name == "control.branch"

unfoldable pub check_activation : DslNode → Edge → List Issue
unfolding is_on_route is_always port_pattern
check_activation source edge =
    if is_branch source
    then issue_when
        (not (is_on_route edge.activation.kind) || not (port_pattern edge.activation.route))
        (edge_issue edge.id "activation" "DSL_BRANCH_ACTIVATION_INVALID"
          "branch edge requires a route activation")
    else issue_when (not (is_always edge.activation.kind) || not (is_blank edge.activation.route)) (
        edge_issue edge.id "activation" "DSL_EDGE_ACTIVATION_INVALID"
          "non-branch edge requires always activation")

unfoldable pub check_edge_id : EdgeMaps → Edge → List Issue
unfolding edge_id_pattern contains
check_edge_id maps edge =
    issue_when (not (edge_id_pattern edge.id))
      (edge_issue edge.id "id" "DSL_EDGE_ID_INVALID" "execution edge id is invalid")
    ++ issue_when (contains maps.edge_ids edge.id)
        (edge_issue edge.id "id" "DSL_EDGE_ID_DUPLICATE" "execution edge id must be unique")

abbrev note_edge_id : Edge → EdgeMaps → EdgeMaps
note_edge_id edge maps = record maps { edge_ids = edge.id ∷ maps.edge_ids }

unfoldable pub add_edge : Edge → EdgeMaps → EdgeMaps
unfolding append_entry
add_edge edge maps = record {
  edge_ids = edge.id ∷ maps.edge_ids;
  incoming = append_entry edge.target_node_id edge.source_node_id maps.incoming;
  outgoing = append_entry edge.source_node_id edge.target_node_id maps.outgoing;
  outgoing_edges = append_entry edge.source_node_id edge maps.outgoing_edges;
}

-- The loop over the edges: its issues, and the maps that it leaves.
unfoldable pub check_edges : Assoc DslNode → List Edge → EdgeMaps → List Issue × EdgeMaps
unfolding lookup check_edge_id check_activation add_edge
check_edges nodes [] maps = ([], maps)
check_edges nodes (edge ∷ rest) maps =
    let accepted = check_edges nodes rest (add_edge edge maps) in
    let skipped = check_edges nodes rest (note_edge_id edge maps) in
    elim (lookup edge.source_node_id nodes) [
      | some source ↦
          if is_some (lookup edge.target_node_id nodes)
          then (check_edge_id maps edge ++ check_activation source edge ++ accepted.0, accepted.1)
          else (
            check_edge_id maps edge
                ++ edge_issue edge.id "" "DSL_EDGE_NODE_NOT_FOUND"
                    "execution edge references a missing node"
                  ∷ skipped.0,
            skipped.1,
          )
      | none ↦ (
        check_edge_id maps edge
            ++ edge_issue edge.id "" "DSL_EDGE_NODE_NOT_FOUND"
                "execution edge references a missing node"
              ∷ skipped.0,
        skipped.1,
      )
    ]

abbrev is_empty {ℓ} : {A : Type ℓ} → List A → Bool
is_empty [] = true
is_empty (x ∷ xs) = false

unfoldable pub check_degrees : Document → EdgeMaps → String → List Issue
unfolding entries_of
check_degrees document maps id =
    (if id == document.entry_node_id
      then issue_when (not (is_empty (entries_of maps.incoming id)))
          (node_issue id "" "DSL_ENTRY_INCOMING_FORBIDDEN" "entry node cannot have incoming edges")
      else issue_when (is_empty (entries_of maps.incoming id)) (
          node_issue id "" "DSL_NODE_INCOMING_REQUIRED" "non-entry node requires an incoming edge"))
    ++ (if id == document.exit_node_id
        then issue_when (not (is_empty (entries_of maps.outgoing id)))
            (node_issue id "" "DSL_EXIT_OUTGOING_FORBIDDEN" "exit node cannot have outgoing edges")
        else issue_when (is_empty (entries_of maps.outgoing id)) (
            node_issue id "" "DSL_NODE_OUTGOING_REQUIRED"
              "non-exit node requires an outgoing edge"))

-- The topological sort. `indegree[id]` counts the incoming edges whose source is still to come.

unfoldable pub count_incoming : EdgeMaps → List String → Assoc ℕ
unfolding entries_of insert
count_incoming maps [] = []
count_incoming maps (id ∷ rest) =
    (id, length (entries_of maps.incoming id)) ∷ count_incoming maps rest

unfoldable pub without_incoming : Assoc ℕ → List String
without_incoming [] = []
without_incoming ((id, degree) ∷ rest) =
    let others = without_incoming rest in if nat_eq degree 0 then id ∷ others else others

-- The loop over the targets of a node that was taken from the queue. A count that is 0 already would
-- become negative and not be queued again; it stays 0 here, and is not queued either.
unfoldable pub release_targets : List String → List String → Assoc ℕ → List String × Assoc ℕ
unfolding lookup insert sort_strings
release_targets [] queue indegree = (queue, indegree)
release_targets (target ∷ rest) queue indegree =
    let degree : ℕ = elim (lookup target indegree) [ none ↦ 0 | some d ↦ d ] in
    release_targets rest (if nat_eq degree 1 then sort_strings (queue ++ target ∷ []) else queue)
      (insert target (degree - 1) indegree)

-- How many nodes the queue gives out; `out` is what is counted where the fuel runs out.
unfoldable pub count_sorted : Assoc (List String) → ℕ → ℕ → List String → Assoc ℕ → ℕ
unfolding release_targets entries_of
count_sorted outgoing out zero queue indegree = out
count_sorted outgoing out (suc fuel) [] indegree = 0
count_sorted outgoing out (suc fuel) (id ∷ queue) indegree =
    let released = release_targets (entries_of outgoing id) queue indegree in
    suc (count_sorted outgoing out fuel released.0 released.1)

-- the sum of the counts; with the length of the queue it bounds the rounds of the sort
unfoldable pub total_indegree : Assoc ℕ → ℕ
total_indegree [] = 0
total_indegree ((id, degree) ∷ rest) = degree + total_indegree rest

unfoldable pub is_acyclic : Assoc DslNode → EdgeMaps → Bool
unfolding count_sorted count_incoming without_incoming total_indegree
is_acyclic nodes maps =
    let indegree = count_incoming maps (keys nodes) in
    let queue = sort_strings (without_incoming indegree) in
    nat_eq
      (count_sorted maps.outgoing 0 (suc (length queue + total_indegree indegree)) queue indegree)
      (length nodes)

-- Reachability, with a stack whose top is its head.

unfoldable pub push_unmarked : List String → List String → List String → List String × List String
unfolding contains
push_unmarked [] marked stack = (marked, stack)
push_unmarked (next ∷ rest) marked stack =
    let known = contains marked next in
    push_unmarked rest (if known then marked else next ∷ marked)
      (if known then stack else next ∷ stack)

-- The marked nodes when the stack is empty; `out` is what is done where the fuel runs out.
unfoldable pub mark_reachable :
    (List String → List String) → Assoc (List String) → ℕ → List String → List String → List String
unfolding push_unmarked entries_of
mark_reachable out outgoing zero marked stack = out marked
mark_reachable out outgoing (suc fuel) marked [] = marked
mark_reachable out outgoing (suc fuel) marked (id ∷ stack) =
    let pushed = push_unmarked (entries_of outgoing id) marked stack in
    mark_reachable out outgoing fuel pushed.0 pushed.1

-- the number of targets in the map
unfoldable pub count_targets : Assoc (List String) → ℕ
count_targets [] = 0
count_targets ((id, targets) ∷ rest) = length targets + count_targets rest

unfoldable pub reachable_nodes : String → Assoc (List String) → List String
unfolding mark_reachable count_targets
reachable_nodes start outgoing =
    mark_reachable (λ marked. marked) outgoing (suc (suc (count_targets outgoing))) (start ∷ [])
      (start ∷ [])

-- the issues of one node of the map, test by test
abbrev pub reach_parts : Stdlib → Document → EdgeMaps → String × DslNode → List (List Issue)
reach_parts lib document maps (id, node) =
    issue_when (not (contains (reachable_nodes document.entry_node_id maps.outgoing) id))
      (node_issue id "" "DSL_NODE_NOT_REACHABLE" "node is not reachable from entry")
    ∷ issue_when (not (contains (reachable_nodes document.exit_node_id maps.incoming) id))
        (node_issue id "" "DSL_NODE_CANNOT_REACH_EXIT" "node cannot reach exit")
    ∷ (if is_branch node
        then validate_branch_routes lib node (entries_of maps.outgoing_edges id)
        else [])
    ∷ []

unfoldable pub check_reachable : Stdlib → Document → EdgeMaps → String × DslNode → List Issue
unfolding concat contains reachable_nodes validate_branch_routes entries_of
check_reachable lib document maps entry = concat (reach_parts lib document maps entry)

-- the issues after the loop over the edges, test by test
abbrev pub graph_parts : Stdlib → Document → Assoc DslNode → EdgeMaps → List (List Issue)
graph_parts lib document nodes maps =
    flat_map (check_degrees document maps) (keys nodes)
    ∷ issue_when (not (is_acyclic nodes maps))
        (document_issue "DSL_GRAPH_CYCLE" "DSL control graph must be acyclic")
    ∷ flat_map (check_reachable lib document maps) nodes
    ∷ []

unfoldable pub check_graph : Stdlib → Document → Assoc DslNode → EdgeMaps → List Issue
unfolding concat flat_map check_degrees is_acyclic check_reachable keys
check_graph lib document nodes maps =
    if is_empty nodes
    then document_issue "DSL_NODES_REQUIRED" "DSL requires nodes" ∷ []
    else concat (graph_parts lib document nodes maps)

unfoldable pub validate_edges_and_graph : Stdlib → Document → Assoc DslNode → List Issue
unfolding check_edges check_graph
validate_edges_and_graph lib document nodes =
    let checked = check_edges nodes document.edges no_maps in
    checked.0 ++ check_graph lib document nodes checked.1
