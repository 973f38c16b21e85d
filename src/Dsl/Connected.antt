-- ===== src/Dsl/Connected.antt =====
-- What a document in which Contract.Validate of internal/dsl/validator.go finds no issue has for a
-- graph: each node lies on a path of the document's edges from the entry to the exit.
use evalfrog.Prelude.{
  String, ◌≡◌, ap, ◌∙◌, subst, Bool, true, false, not, ◌||◌, some, List, [], ◌∷◌, ◌++◌, ◌==◌, inl,
  inr, ◌⊎◌, ◌&&◌, arith, eq_iff, eq_refl, contains, contains-append, is_some, Bool-cases,
  Option-cases, All, All-map, append-eq-nil, concat-eq-nil, flat_map-eq-nil,
}
use evalfrog.Prelude.Assoc.{Assoc, lookup, insert, lookup-insert, entries_of, append_entry}
use evalfrog.Json.{Stdlib}
use evalfrog.Dsl.{DslNode, Edge, Document}
use evalfrog.Dsl.Issue.{Issue, node_issue}
use evalfrog.Dsl.Contract.{Contract}
use evalfrog.Dsl.Graph.{
  EdgeMaps, no_maps, add_edge, check_edges, check_graph, graph_parts, reach_parts, check_reachable,
  reachable_nodes, validate_edges_and_graph,
}
use evalfrog.Dsl.Paths.{Reaches, at_start, by_step, reachable_nodes_iff}
use evalfrog.Dsl.Validate.{validate, check_nodes_of}
use evalfrog.Dsl.Accepted.{issue_when-eq-nil, validate-parts, nodes_checked}

-- `has edges s t`: one of the edges goes from s to t
unfoldable pub has_edge : List Edge → String → String → Bool
has_edge [] source target = false
has_edge (edge ∷ rest) source target =
    (edge.source_node_id == source && edge.target_node_id == target) || has_edge rest source target

-- a path of edges
pub data Leads (edges : List Edge) : String → String → Type 0 where
  arrived : {id : String} → Leads edges id id
  first_edge :
      {source target id : String}
      → has_edge edges source target ≡ true
      → Leads edges target id
      → Leads edges source id

Leads-trans :
    {edges : List Edge} {a b c : String} → Leads edges a b → Leads edges b c → Leads edges a c
Leads-trans arrived path = path
Leads-trans (first_edge h rest) path = first_edge h (Leads-trans rest path)

entries_of-append :
    (key other value : String) (m : Assoc (List String)) (x : String)
    → contains (entries_of (append_entry key value m) other) x ≡ true
    → (contains (entries_of m other) x ≡ true) ⊎ ((key ≡ other) × (value ≡ x))
unfolding entries_of append_entry contains
entries_of-append key other value m x h = ground (
  arith,
  lookup-insert key other (entries_of m key ++ value ∷ []) m,
  eq_iff key other,
  eq_iff x value,
  contains-append (entries_of m key) (value ∷ []) x,
)

-- Where the maps of the loop over the edges come from.

pub check_edges-outgoing :
    (nodes : Assoc DslNode) (edges : List Edge) (maps : EdgeMaps) (s t : String)
    → contains (entries_of (check_edges nodes edges maps).1.outgoing s) t ≡ true
    → (contains (entries_of maps.outgoing s) t ≡ true) ⊎ (has_edge edges s t ≡ true)
unfolding check_edges has_edge add_edge
check_edges-outgoing nodes [] maps s t h = inl h
check_edges-outgoing nodes (edge ∷ rest) maps s t h =
    let skipped =
      check_edges-outgoing nodes rest (record maps { edge_ids = edge.id ∷ maps.edge_ids }) s t in
    let added = check_edges-outgoing nodes rest (add_edge edge maps) s t in
    ground (
      arith,
      skipped,
      added,
      entries_of-append edge.source_node_id s edge.target_node_id maps.outgoing t,
      eq_iff edge.source_node_id s,
      eq_iff edge.target_node_id t,
    )

pub check_edges-incoming :
    (nodes : Assoc DslNode) (edges : List Edge) (maps : EdgeMaps) (s t : String)
    → contains (entries_of (check_edges nodes edges maps).1.incoming t) s ≡ true
    → (contains (entries_of maps.incoming t) s ≡ true) ⊎ (has_edge edges s t ≡ true)
unfolding check_edges has_edge add_edge
check_edges-incoming nodes [] maps s t h = inl h
check_edges-incoming nodes (edge ∷ rest) maps s t h =
    let skipped =
      check_edges-incoming nodes rest (record maps { edge_ids = edge.id ∷ maps.edge_ids }) s t in
    let added = check_edges-incoming nodes rest (add_edge edge maps) s t in
    ground (
      arith,
      skipped,
      added,
      entries_of-append edge.target_node_id t edge.source_node_id maps.incoming s,
      eq_iff edge.source_node_id s,
      eq_iff edge.target_node_id t,
    )

module _ (nodes : Assoc DslNode) (edges : List Edge) where
  abbrev edges_checked : List Issue × EdgeMaps
  edges_checked = check_edges nodes edges no_maps

  outgoing-Leads :
      {start id : String} → Reaches edges_checked.1.outgoing start id → Leads edges start id
  unfolding entries_of lookup contains
  outgoing-Leads at_start = arrived
  outgoing-Leads (by_step {id} {next} path h) =
      elim (check_edges-outgoing nodes edges no_maps id next h) [
        | inl none_before ↦ absurd (cc none_before)
        | inr edge ↦ Leads-trans (outgoing-Leads path) (first_edge edge arrived)
      ]

  incoming-Leads :
      {start id : String} → Reaches edges_checked.1.incoming start id → Leads edges id start
  unfolding entries_of lookup contains
  incoming-Leads at_start = arrived
  incoming-Leads (by_step {id} {next} path h) =
      elim (check_edges-incoming nodes edges no_maps next id h) [
        | inl none_before ↦ absurd (cc none_before)
        | inr edge ↦ first_edge edge (incoming-Leads path)
      ]

-- The node is on a path from the entry to the exit.
pub record IsConnected (document : Document) (id : String) : Type 0 where
  pub from_entry : Leads document.edges document.entry_node_id id
  pub to_exit : Leads document.edges id document.exit_node_id

module _ (lib : Stdlib) (document : Document) (nodes : Assoc DslNode) where
  check_reachable-IsConnected :
      (entry : String × DslNode)
      → check_reachable lib document (edges_checked nodes document.edges).1 entry ≡ []
      → IsConnected document entry.0
  unfolding check_reachable
  check_reachable-IsConnected (id, node) h =
      let maps = (edges_checked nodes document.edges).1 in
      let (from, (to, rest)) = concat-eq-nil (reach_parts lib document maps (id, node)) h in
      let reached =
        issue_when-eq-nil (not (contains (reachable_nodes document.entry_node_id maps.outgoing) id))
          (node_issue id "" "DSL_NODE_NOT_REACHABLE" "node is not reachable from entry") from in
      let reaching =
        issue_when-eq-nil (not (contains (reachable_nodes document.exit_node_id maps.incoming) id))
          (node_issue id "" "DSL_NODE_CANNOT_REACH_EXIT" "node cannot reach exit") to in
      record {
        from_entry =
            outgoing-Leads nodes document.edges
              ((reachable_nodes_iff maps.outgoing document.entry_node_id id).0 (ground arith));
        to_exit =
            incoming-Leads nodes document.edges
              ((reachable_nodes_iff maps.incoming document.exit_node_id id).0 (ground arith));
      }

check_graph-issues :
    (lib : Stdlib) (document : Document) (maps : EdgeMaps) (nodes : Assoc DslNode)
    → check_graph lib document nodes maps ≡ []
    → All (λ entry. check_reachable lib document maps entry ≡ []) nodes
unfolding check_graph
check_graph-issues lib document maps [] h = tt
check_graph-issues lib document maps ((id, node) ∷ rest) h =
    flat_map-eq-nil (check_reachable lib document maps) ((id, node) ∷ rest)
      (concat-eq-nil (graph_parts lib document ((id, node) ∷ rest) maps) h).1.1.0

pub All-lookup {ℓ} :
    {Value : Type ℓ} (P : String × Value → Type 0) (m : Assoc Value)
    → All P m
    → (id : String) (v : Value) → lookup id m ≡ some v
    → P (id, v)
unfolding lookup
All-lookup P [] h id v = λ found. absurd (cc found)
All-lookup P ((other, w) ∷ rest) (first, others) id v = elim (Bool-cases (other == id)) [
  | inl same ↦ rw same (λ found.
      subst P (ap (λ k. (k, w)) ((eq_iff other id).0 same) ∙ ap (λ x. (id, x)) (cc found)) first)
  | inr differs ↦ rw differs (All-lookup P rest others id v)
]

-- the map keeps every node that the loop over the nodes met
pub check_nodes_of-keeps :
    (lib : Stdlib) (contract : Contract) (list : List DslNode) (nodes : Assoc DslNode) (id : String)
    → is_some (lookup id nodes) ≡ true
    → is_some (lookup id (check_nodes_of lib contract list nodes).1) ≡ true
unfolding check_nodes_of
check_nodes_of-keeps lib contract [] nodes id h = h
check_nodes_of-keeps lib contract (node ∷ rest) nodes id h =
    check_nodes_of-keeps lib contract rest (insert node.id node nodes) id
      (ground (arith, lookup-insert node.id id node nodes))

pub check_nodes_of-has :
    (lib : Stdlib) (contract : Contract) (list : List DslNode) (nodes : Assoc DslNode)
    → All (λ node. is_some (lookup node.id (check_nodes_of lib contract list nodes).1) ≡ true) list
unfolding check_nodes_of
check_nodes_of-has lib contract [] nodes = tt
check_nodes_of-has lib contract (node ∷ rest) nodes = (
  check_nodes_of-keeps lib contract rest (insert node.id node nodes) node.id
      (ground (arith, lookup-insert node.id node.id node nodes, eq_refl node.id)),
  check_nodes_of-has lib contract rest (insert node.id node nodes),
)

module _ (lib : Stdlib) (contract : Contract) (document : Document) where
  -- In a document without issues every node is on a path of the document's edges from the entry
  -- node to the exit node.
  pub validate-IsConnected :
      validate lib contract document ≡ []
      → All (λ node. IsConnected document node.id) document.nodes
  unfolding validate_edges_and_graph
  validate-IsConnected h =
      let nodes = (nodes_checked lib contract document).1 in
      let maps = (edges_checked nodes document.edges).1 in
      let graph = (validate-parts lib contract document h).1.1.1.1.1.0 in
      let issues =
        check_graph-issues lib document maps nodes
          (append-eq-nil (edges_checked nodes document.edges).0
            (check_graph lib document nodes maps) graph).1 in
      All-map document.nodes
        (λ node known. elim (Option-cases (lookup node.id nodes)) [
          | inl missing ↦ absurd (ground arith)
          | inr (found, at) ↦
              check_reachable-IsConnected lib document nodes (node.id, found)
                (All-lookup (λ entry. check_reachable lib document maps entry ≡ []) nodes issues
                  node.id found at)
        ])
        (check_nodes_of-has lib contract document.nodes [])
