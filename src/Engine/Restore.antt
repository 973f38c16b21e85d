-- ===== src/Engine/Restore.antt =====
-- internal/runtime/engine/state.go: SnapshotState and Restore.

use evalfrog.Prelude.{
  String, Bool, true, false, not, ◌&&◌, ◌||◌, Option, none, some, List, [], ◌∷◌, ◌==◌,
  if◌then◌else◌, is_blank, is_some, nat_eq, length, sort_strings, map,
}
use evalfrog.Prelude.Assoc.{Assoc, lookup, insert, keys}
use evalfrog.Json.{Stdlib}
use evalfrog.Runtime.Error.{Result, ok, err, message, coded, ◌>>=◌, ◌>>◌, require}
use evalfrog.Runtime.States.{NodeKind, control, task, node_terminal, is_succeeded, is_control}
use evalfrog.Runtime.Node.{NodeRun}
use evalfrog.Runtime.Attempt.{NodeAttempt}
use evalfrog.Runtime.Run.{WorkflowRun}
use evalfrog.Runtime.Records.{
  NodeRunRecord, NodeAttemptRecord, snapshot_node, snapshot_attempt, restore_node_run,
  restore_node_attempt,
}
use evalfrog.Runtime.RunRecords.{
  WorkflowRunRecord, snapshot_run, record_command, restore_workflow_run,
}
use evalfrog.Engine.State.{
  Snapshot, EdgeState, edge_pending, Engine, sorted_node_ids, settle_outgoing, all_node_runs,
}
use evalfrog.Engine.Create.{Checks, node_kind, new_engine}
use evalfrog.Engine.Dispatch.{node_run_key}

pub record EngineRecord : Type 0 where
  pub run : WorkflowRunRecord
  pub nodes : List NodeRunRecord
  pub attempts : List NodeAttemptRecord

unfoldable pub collect_attempts : Assoc NodeAttempt → List String → List NodeAttemptRecord
unfolding snapshot_attempt
collect_attempts attempts [] = []
collect_attempts attempts (id ∷ ids) =
    let rest = collect_attempts attempts ids in
    elim (lookup id attempts) [ none ↦ rest | some attempt ↦ snapshot_attempt attempt ∷ rest ]

unfoldable pub snapshot_state : Engine → EngineRecord
unfolding collect_attempts snapshot_node snapshot_run
snapshot_state e = record {
  run = snapshot_run e.run;
  nodes = map snapshot_node (all_node_runs e);
  attempts = collect_attempts e.attempts (sort_strings (keys e.attempts));
}

abbrev same_kind : NodeKind → NodeKind → Bool
same_kind control kind = is_control kind
same_kind task kind = elim kind [ task ↦ true | _ ↦ false ]
same_kind _ kind = false

-- a succeeded entry node is given its output again if the record lost it
unfoldable pub repair_entry : Engine → WorkflowRun → NodeRunRecord → NodeRunRecord
unfolding is_succeeded
repair_entry e run r =
    if r.execution_node_id == e.doc.entry_node_id
      && is_succeeded r.state
      && nat_eq (length r.effective_outputs) 0
    then record r { effective_outputs = ("workflow_input", run.workflow_input) ∷ [] }
    else r

unfoldable pub restore_nodes :
    Engine → WorkflowRun → List NodeRunRecord → Assoc NodeRun → Result (Assoc NodeRun)
unfolding repair_entry restore_node_run node_kind is_control
restore_nodes e run [] nodes = ok nodes
restore_nodes e run (r ∷ rest) nodes =
    let id = r.execution_node_id in
    elim (lookup id e.node_defs) [
      | none ↦ err (message "persisted node is absent from immutable DSL")
      | some definition ↦
          if not (r.run_id == run.id) || not (same_kind (node_kind definition.kind) r.kind)
          then err (message "persisted node identity or kind disagrees with immutable DSL")
          else elim (restore_node_run (repair_entry e run r)) [
            | err x ↦ err x
            | ok node ↦ elim (is_some (lookup id nodes)) [
              | true ↦ err (message "persisted node is duplicated")
              | false ↦ restore_nodes e run rest (insert id node nodes)
            ]
          ]
    ]

-- the node whose key the attempt's record names
unfoldable pub find_owner : String → Assoc NodeRun → Option String
unfolding node_run_key
find_owner key [] = none
find_owner key ((id, node) ∷ rest) =
    if key == node_run_key node then some id else find_owner key rest

unfoldable pub restore_attempts :
    Assoc NodeRun
    → List NodeAttemptRecord
    → Assoc NodeAttempt
    → Assoc String
    → Result (Assoc NodeAttempt × Assoc String)
unfolding restore_node_attempt find_owner
restore_attempts nodes [] attempts owners = ok (attempts, owners)
restore_attempts nodes (r ∷ rest) attempts owners = elim (restore_node_attempt r) [
  | err x ↦ err x
  | ok attempt ↦ elim (find_owner r.node_run_id nodes) [
    | none ↦ err (message "attempt references an unknown node run")
    | some owner ↦ elim (is_some (lookup r.id attempts)) [
      | true ↦ err (message "persisted attempt is duplicated")
      | false ↦
          restore_attempts nodes rest (insert r.id attempt attempts) (insert r.id owner owners)
    ]
  ]
]

unfoldable pub check_current : Assoc NodeAttempt → Assoc String → Assoc NodeRun → Result (Unit {0})
check_current attempts owners [] = ok tt
check_current attempts owners ((id, node) ∷ rest) =
    let later = check_current attempts owners rest in
    let current = node.current_attempt_id in
    if is_blank current
    then later
    else if is_some (lookup current attempts)
        && elim (lookup current owners) [ none ↦ false | some owner ↦ owner == id ]
    then later
    else err (message "node current attempt is missing or belongs to another node")

-- every edge pending again
unfoldable pub reset_edges : Assoc EdgeState → Assoc EdgeState
reset_edges [] = []
reset_edges ((id, state) ∷ rest) = (id, edge_pending) ∷ reset_edges rest

-- the edges are settled from the terminal nodes
unfoldable pub settle_terminal : List String → Engine → Engine
unfolding node_terminal
settle_terminal [] e = e
settle_terminal (id ∷ ids) e = elim (lookup id e.nodes) [
  | none ↦ settle_terminal ids e
  | some node ↦
      settle_terminal ids
        (if node_terminal node.state then settle_outgoing id node.selected_route e else e)
]

unfoldable pub with_state :
    Engine → WorkflowRun → Assoc NodeRun → Assoc NodeAttempt → Assoc String → Engine
unfolding settle_terminal reset_edges
with_state e run nodes attempts owners =
    let restored : Engine = record e {
      run = run;
      nodes = nodes;
      attempts = attempts;
      attempt_nodes = owners;
      edges = reset_edges e.edges;
    } in
    settle_terminal (sorted_node_ids restored) restored

unfoldable pub restore_engine : Stdlib → Snapshot → EngineRecord → Checks → Result Engine
unfolding record_command with_state
restore_engine lib snapshot state checks = do
  e ← new_engine lib snapshot (record_command state.run) checks
  run ← restore_workflow_run lib state.run
  require
      (run.definition.snapshot_id == snapshot.id
        && run.definition.definition_hash == snapshot.definition_hash)
      (coded "RUNTIME_SNAPSHOT_BINDING_INVALID" "" "")
  require (nat_eq (length state.nodes) (length e.node_defs))
      (message "persisted node set is incomplete")
  nodes ← restore_nodes e run state.nodes []
  (attempts, owners) ← restore_attempts nodes state.attempts [] []
  check_current attempts owners nodes
  ok (with_state e run nodes attempts owners)
