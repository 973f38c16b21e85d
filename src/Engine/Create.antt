-- ===== src/Engine/Create.antt =====
-- internal/runtime/engine/engine.go: New and initialize. The two checks of a document, which New
-- takes as arguments, are functions that return the first issue. cloneDocument makes a copy.
use Prim.Native.Nat.{Ordering}
use Prim.Native.String.{compare}
use evalfrog.Prelude.{String, not, ◌||◌, Option, none, some, List, [], ◌∷◌, ◌==◌, is_blank}
use evalfrog.Prelude.Assoc.{Assoc, lookup, insert}
use evalfrog.Json.{Stdlib}
use evalfrog.Runtime.Error.{Error, Result, ok, err, coded, nil_dereference, ◌>>◌, require}
use evalfrog.Runtime.States.{NodeKind, control, task}
use evalfrog.Runtime.Node.{NodeRun, new_node_run, activate, succeed_control}
use evalfrog.Runtime.Run.{CreateRunCommand, WorkflowRun, new_workflow_run, start}
use evalfrog.Dsl.{Document, DslNode, DslKind, control_kind, Edge}
use evalfrog.Engine.State.{
  Snapshot, edge_pending, Engine, Outcome, done, fail, or_else, update_node, set_run,
  sorted_node_ids, settle_outgoing,
}
use evalfrog.Engine.Drive.{drive}

pub record Checks : Type 0 where
  -- compatibility.CheckAll(document)[0], as the error that New makes of it
  pub unsupported : Document → Option Error
  -- contract.Validate(document)[0]
  pub invalid : Document → Option Error

abbrev pub first_issue : Option Error → Result (Unit {0})
first_issue none = ok tt
first_issue (some x) = err x

unfoldable pub node_kind : DslKind → NodeKind
node_kind control_kind = control
node_kind _ = task

unfoldable pub insert_edge : Edge → List Edge → List Edge
insert_edge edge [] = edge ∷ []
insert_edge edge (other ∷ rest) =
    let later = insert_edge edge rest in
    elim (compare edge.id other.id) [ Ordering.gt ↦ other ∷ later | _ ↦ edge ∷ other ∷ rest ]

-- m[key] = append(m[key], edge), kept in the order of the edges' ids
unfoldable pub index_edge : String → Edge → Assoc (List Edge) → Assoc (List Edge)
unfolding insert_edge
index_edge key edge index = insert key (insert_edge edge (or_else [] (lookup key index))) index

unfoldable pub add_nodes : String → List DslNode → Engine → Result Engine
unfolding node_kind
add_nodes run_id [] e = ok e
add_nodes run_id (definition ∷ rest) e =
    elim (new_node_run run_id definition.id (node_kind definition.kind)) [
      | err x ↦ err x
      | ok node ↦ add_nodes run_id rest (record e {
        node_defs = insert definition.id definition e.node_defs;
        nodes = insert definition.id node e.nodes;
      })
    ]

unfoldable pub add_edges : List Edge → Engine → Engine
unfolding index_edge
add_edges [] e = e
add_edges (edge ∷ rest) e = add_edges rest (record e {
  edges = insert edge.id edge_pending e.edges;
  incoming = index_edge edge.target_node_id edge e.incoming;
  outgoing = index_edge edge.source_node_id edge e.outgoing;
})

abbrev pub empty_engine : Snapshot → WorkflowRun → Engine
empty_engine snapshot run = record {
  snapshot = snapshot;
  run = run;
  doc = snapshot.dsl;
  node_defs = [];
  nodes = [];
  attempts = [];
  attempt_nodes = [];
  edges = [];
  incoming = [];
  outgoing = [];
}

abbrev pub to_result : Outcome (Unit {0}) → Result Engine
to_result (done a e) = ok e
to_result (fail x e) = err x

unfoldable pub check_binding : Snapshot → CreateRunCommand → Checks → Result (Unit {0})
check_binding snapshot command checks = do
  require
      (not (
        is_blank snapshot.id
        || is_blank snapshot.definition_hash
        || not (command.definition.snapshot_id == snapshot.id)
        || not (command.definition.definition_hash == snapshot.definition_hash)))
      (coded "RUNTIME_SNAPSHOT_BINDING_INVALID" "" "")
  first_issue (checks.unsupported snapshot.dsl)
  first_issue (checks.invalid snapshot.dsl)

-- the maps of the engine, from the document
unfoldable pub assemble : Snapshot → CreateRunCommand → WorkflowRun → Result Engine
assemble snapshot command run =
    elim (add_nodes command.run_id snapshot.dsl.nodes (empty_engine snapshot run)) [
      | err x ↦ err x
      | ok e ↦ ok (add_edges snapshot.dsl.edges e)
    ]

module _ (lib : Stdlib) where
  -- the engine before `initialize`
  unfoldable pub build_engine : Snapshot → CreateRunCommand → Checks → Result Engine
  build_engine snapshot command checks = elim (check_binding snapshot command checks) [
    | err x ↦ err x
    | ok u ↦ elim (new_workflow_run lib command) [
      | err x ↦ err x
      | ok run ↦ assemble snapshot command run
    ]
  ]

  -- the entry node succeeds with the workflow's input, and the loop runs
  unfoldable pub enter : NodeRun → Engine → Result Engine
  enter node e =
      let entry = e.doc.entry_node_id in
      elim (activate node) [
        | err x ↦ err x
        | ok active ↦
            elim (succeed_control "" (("workflow_input", e.run.workflow_input) ∷ []) active) [
              | err x ↦ err x
              | ok node' ↦
                  to_result (drive lib 0 (settle_outgoing entry "" (update_node entry node' e)))
            ]
      ]

  unfoldable pub initialize : Engine → Result Engine
  initialize e = elim (start (sorted_node_ids e) e.run) [
    | err x ↦ err x
    | ok run ↦ elim (lookup e.doc.entry_node_id e.nodes) [
      | none ↦ err nil_dereference
      | some node ↦ enter node (set_run run e)
    ]
  ]

  unfoldable pub new_engine : Snapshot → CreateRunCommand → Checks → Result Engine
  new_engine snapshot command checks = elim (build_engine snapshot command checks) [
    | err x ↦ err x
    | ok e ↦ initialize e
  ]
