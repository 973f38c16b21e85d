-- ===== src/Engine/Drive.antt =====
-- internal/runtime/engine/engine.go: drive, the loop that brings the nodes forward. The passes over
-- the nodes are `walk`; the outer loop takes fuel.
use evalfrog.Prelude.{
  ℕ, zero, suc, String, Bool, true, false, not, ◌&&◌, ◌||◌, Option, none, some, List, [], ◌∷◌, ◌==◌,
  if◌then◌else◌, length,
}
use evalfrog.Prelude.Assoc.{lookup}
use evalfrog.Json.{Stdlib}
use evalfrog.Runtime.Error.{
  Error, Result, ok, err, message, nil_dereference, exhausted, coded, error_text,
}
use evalfrog.Runtime.States.{
  NodeState, TerminationKind, kind_failed, node_terminal, run_terminal, is_pending, is_control,
  attempt_terminal,
}
use evalfrog.Runtime.Failure.{Time, Failure, TerminationIntent}
use evalfrog.Runtime.Node.{
  NodeRun, Values, activate, become_ready, skip, succeed_control, fail_control, fail_before_attempt,
  cancel,
}
use evalfrog.Runtime.Completion.{complete_termination, complete_workflow_success}
use evalfrog.Dsl.{DslKind, task_kind}
use evalfrog.Engine.State.{
  Engine, Outcome, done, fail, or_else, node_def, update_node, set_run, sorted_node_ids,
  all_node_runs, settle_outgoing, all_incoming_settled, any_incoming_active, all_nodes_terminal,
  all_other_nodes_terminal, engine_failure, cancel_reason_of, at_or_created, note_termination,
}
use evalfrog.Engine.Branch.{evaluate_branch}
use evalfrog.Engine.Inputs.{resolve_inputs}

-- How the pass goes on from one node: `continue`, the same after `changed = true`, a new call of
-- drive, or an error.
pub data Visit : Type 0 where
  unchanged : Engine → Visit
  progressed : Engine → Visit
  redrive : Engine → Visit
  failed : Error → Engine → Visit

abbrev pub visit_engine : Visit → Engine
visit_engine (unchanged e) = e
visit_engine (progressed e) = e
visit_engine (redrive e) = e
visit_engine (failed x e) = e

pub data Walk : Type 0 where
  finished : Bool → Engine → Walk
  restart : Engine → Walk
  stopped : Error → Engine → Walk

abbrev pub walk_engine : Walk → Engine
walk_engine (finished changed e) = e
walk_engine (restart e) = e
walk_engine (stopped x e) = e

-- `for _, id := range engine.sortedNodeIDs()`
unfoldable pub walk : (String → Engine → Visit) → List String → Bool → Engine → Walk
walk visit [] changed e = finished changed e
walk visit (id ∷ ids) changed e = elim (visit id e) [
  | unchanged e' ↦ walk visit ids changed e'
  | progressed e' ↦ walk visit ids true e'
  | redrive e' ↦ restart e'
  | failed x e' ↦ stopped x e'
]

-- the node's current attempt exists and has not ended
unfoldable pub awaits_attempt : NodeRun → Engine → Bool
unfolding lookup attempt_terminal
awaits_attempt node e = elim (lookup node.current_attempt_id e.attempts) [
  | none ↦ false
  | some attempt ↦ not (attempt_terminal attempt.state)
]

unfoldable pub is_dispatched : NodeState → Bool
is_dispatched NodeState.queued = true
is_dispatched NodeState.running = true
is_dispatched _ = false

unfoldable pub cancel_node : TerminationKind → String → NodeRun → Engine → Visit
cancel_node kind id node e = elim (cancel (cancel_reason_of kind) node) [
  | err x ↦ failed x e
  | ok node' ↦ progressed (settle_outgoing id "" (update_node id node' e))
]

-- One node of a run that is terminating.
unfoldable pub terminate_node : TerminationKind → String → Engine → Visit
terminate_node kind id e = elim (lookup id e.nodes) [
  | none ↦ failed nil_dereference e
  | some node ↦
      if node_terminal node.state
      then unchanged e
      else if is_dispatched node.state && awaits_attempt node e
      then unchanged e
      else cancel_node kind id node e
]

unfoldable pub finish_termination : Engine → Outcome (Unit {0})
finish_termination e =
    if all_nodes_terminal e
    then elim (complete_termination (all_node_runs e) e.run) [
      | err x ↦ fail x e
      | ok run ↦ done tt (set_run run e)
    ]
    else done tt e

unfoldable pub after_termination : Walk → Outcome (Unit {0})
after_termination (finished changed e) = finish_termination e
after_termination (restart e) = done tt e
after_termination (stopped x e) = fail x e

unfoldable pub terminate : TerminationKind → Engine → Outcome (Unit {0})
terminate kind e = after_termination (walk (terminate_node kind) (sorted_node_ids e) false e)

-- A control node that cannot be evaluated, and a task whose inputs cannot be bound, fail, and the
-- run is told to end.
unfoldable pub fail_node :
    (Failure → NodeRun → Result NodeRun) → Time → String → Failure → NodeRun → Engine → Visit
fail_node operation at id failure node e = elim (operation failure node) [
  | err x ↦ failed x e
  | ok node' ↦ redrive (
      note_termination
        (record { kind = kind_failed; requested_at = at_or_created at e.run; cause = failure })
        (update_node id node' e))
]

unfoldable pub visit_skip : String → NodeRun → Engine → Visit
visit_skip id node e = elim (skip node) [
  | err x ↦ failed x e
  | ok node' ↦ progressed (settle_outgoing id "" (update_node id node' e))
]

unfoldable pub visit_task : String → Values → NodeRun → Engine → Visit
visit_task id inputs node e = elim (become_ready inputs node) [
  | err x ↦ failed x e
  | ok node' ↦ progressed (update_node id node' e)
]

unfoldable pub error_code_of : Error → String
error_code_of (coded code node place) = code
error_code_of _ = ""

unfoldable pub error_field_of : Error → String
error_field_of (coded code node place) = place
error_field_of _ = ""

unfoldable pub is_task_kind : DslKind → Bool
is_task_kind task_kind = true
is_task_kind _ = false

-- What a round does after its pass: `again` is the next round, or the call of drive.
unfoldable pub after_walk : (Engine → Outcome (Unit {0})) → Walk → Outcome (Unit {0})
unfolding run_terminal
after_walk again (stopped x e) = fail x e
after_walk again (restart e) = again e
after_walk again (finished changed e) = elim (run_terminal e.run.state || not changed) [
  | true ↦ done tt e
  | false ↦ again e
]

module _ (lib : Stdlib) (at : Time) where
  unfoldable pub visit_branch : String → Values → NodeRun → Engine → Visit
  visit_branch id inputs node e =
      elim (evaluate_branch lib (node_def id e) (or_else "" (lookup "value" inputs))) [
        | err x ↦
            fail_node fail_control at id
              (engine_failure e (error_code_of x) "control_evaluation" (error_text x) id ""
                (error_field_of x))
              node e
        | ok route ↦ elim (succeed_control route [] node) [
          | err x ↦ failed x e
          | ok node' ↦ progressed (settle_outgoing id route (update_node id node' e))
        ]
      ]

  unfoldable pub visit_end : String → Values → NodeRun → Engine → Visit
  visit_end id inputs node e =
      if not (all_other_nodes_terminal id e)
      then unchanged e
      else elim (complete_workflow_success lib (all_node_runs e)
          (or_else "" (lookup "workflow_output" inputs)) e.run node) [
            | err x ↦ failed x e
            | ok (run, node') ↦ progressed (set_run run (update_node id node' e))
          ]

  -- a node whose inputs are bound
  unfoldable pub visit_ready : String → Values → NodeRun → Engine → Visit
  unfolding is_task_kind
  visit_ready id inputs node e =
      let definition = node_def id e in
      let operation = definition.operation.type_name in
      if is_task_kind definition.kind
      then visit_task id inputs node e
      else if operation == "control.branch"
      then visit_branch id inputs node e
      else if operation == "control.end"
      then visit_end id inputs node e
      else if operation == "control.start"
      then failed (message "unexpected second start node") e
      else failed (message "unsupported control operation") e

  -- a node that was just activated
  unfoldable pub visit_inputs : String → NodeRun → Engine → Visit
  visit_inputs id node e = elim (resolve_inputs (node_def id e) e) [
    | err x ↦
        fail_node (if is_control node.kind then fail_control else fail_before_attempt) at id
          (engine_failure e "RUNTIME_INPUT_CONTRACT_VIOLATION" "input_binding" (error_text x) id ""
            "inputs")
          node e
    | ok none ↦ unchanged e
    | ok (some inputs) ↦ visit_ready id inputs node e
  ]

  unfoldable pub visit_activate : String → NodeRun → Engine → Visit
  visit_activate id node e = elim (activate node) [
    | err x ↦ failed x e
    | ok node' ↦ visit_inputs id node' (update_node id node' e)
  ]

  -- One node of a run that is not terminating.
  unfoldable pub visit_node : String → Engine → Visit
  visit_node id e = elim (lookup id e.nodes) [
    | none ↦ failed nil_dereference e
    | some node ↦
        if not (is_pending node.state)
          || id == e.doc.entry_node_id
          || not (all_incoming_settled id e)
        then unchanged e
        else if not (any_incoming_active id e)
        then visit_skip id node e
        else visit_activate id node e
  ]

  unfoldable pub drive_round :
      (Engine → Outcome (Unit {0})) → Option TerminationIntent → Engine → Outcome (Unit {0})
  drive_round again (some intent) e = terminate intent.kind e
  drive_round again none e = after_walk again (walk visit_node (sorted_node_ids e) false e)

  -- `out` is what happens where the fuel runs out
  unfoldable pub drive_fuel : (Engine → Outcome (Unit {0})) → ℕ → Engine → Outcome (Unit {0})
  unfolding drive_round
  drive_fuel out zero e = out e
  drive_fuel out (suc fuel) e = drive_round (drive_fuel out fuel) e.run.termination e

  -- Each further round follows a node that left the state pending, so one round for each node and
  -- one more are enough.
  unfoldable pub drive : Engine → Outcome (Unit {0})
  drive e = drive_fuel (fail exhausted) (suc (length e.nodes)) e
