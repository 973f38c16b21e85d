-- ===== src/Engine/Invariants.antt =====
-- Properties of every node of an engine, carried from the steps of one node (internal/runtime/model.go)
-- to the moves of the engine (internal/runtime/engine/engine.go).
use evalfrog.Prelude.{String, ◌≡◌, refl, sym, subst, ap, ◌∙◌, some, List, inl, inr, arith}
use evalfrog.Prelude.Assoc.{Assoc, lookup, lookup-insert_cases}
use evalfrog.Json.{RawMessage, Stdlib}
use evalfrog.Runtime.Error.{ok}
use evalfrog.Runtime.States.{RetryKind}
use evalfrog.Runtime.Failure.{Time}
use evalfrog.Runtime.Node.{NodeRun, retry_wait, succeed_control}
use evalfrog.Runtime.NodeMoves.{NodeMove, succeeds_control}
use evalfrog.Runtime.Run.{WorkflowRun}
use evalfrog.Runtime.Completion.{complete_workflow_success}
use evalfrog.Dsl.{DslNode, ExecutionPolicy}
use evalfrog.Engine.State.{
  Engine, or_else, zero_node, node_def, update_node, update_attempt, set_run, settle_outgoing,
  all_node_runs,
}
use evalfrog.Engine.Moves.{
  Move, moves_node, retries_node, settles, requests, terminates, completes, moves_attempt,
  adds_attempt, Moves, here, next, HasRoom, policy_of,
}

-- The atomic success takes the end node along the edge that SucceedControl takes.
pub complete_workflow_success-NodeMove :
    (lib : Stdlib) (nodes : List NodeRun) (output : RawMessage) (run : WorkflowRun) (n : NodeRun)
    {run' : WorkflowRun} {n' : NodeRun}
    → complete_workflow_success lib nodes output run n ≡ ok (run', n')
    → NodeMove n n'
unfolding complete_workflow_success
complete_workflow_success-NodeMove lib nodes output run n {run'} {n'} h =
    succeeds_control n.selected_route n.effective_outputs (unfold succeed_control in ground arith)

-- every value of the node map has the property, and the definitions are the given ones
pub record AllNodes (defs : Assoc DslNode) (P : NodeRun → Type 0) (e : Engine) : Type 0 where
  pub same_defs : e.node_defs ≡ defs
  pub at_node : (id : String) (n : NodeRun) → lookup id e.nodes ≡ some n → P n

abbrev pub policy_in : Assoc DslNode → NodeRun → ExecutionPolicy
policy_in defs n = (or_else zero_node (lookup n.execution_node_id defs)).execution_policy

module _ (lib : Stdlib) (defs : Assoc DslNode) (P : NodeRun → Type 0)
    (step : (n n' : NodeRun) → P n → NodeMove n n' → P n')
    (retry : (n n' : NodeRun) (a : String) (kind : RetryKind) (due : Time)
      → P n
      → HasRoom kind n (policy_in defs n)
      → retry_wait a kind due n ≡ ok n'
      → P n') where
  AllNodes-update_node :
      (id : String) (n' : NodeRun) (e : Engine)
      → AllNodes defs P e
      → P n'
      → AllNodes defs P (update_node id n' e)
  unfolding update_node
  AllNodes-update_node id n' e all p = record {
    same_defs = all.same_defs;
    at_node = λ j n found. elim (lookup-insert_cases id j n' e.nodes found) [
      | inl (same, w) ↦ subst P (sym w) p
      | inr old ↦ all.at_node j n old
    ];
  }

  -- the parts that nodes do not depend on may change
  AllNodes-same :
      (e e' : Engine)
      → e'.nodes ≡ e.nodes
      → e'.node_defs ≡ e.node_defs
      → AllNodes defs P e
      → AllNodes defs P e'
  AllNodes-same e e' nodes node_defs all = record {
    same_defs = node_defs ∙ all.same_defs;
    at_node = λ j n found. all.at_node j n (ap (lookup j) (sym nodes) ∙ found);
  }

  settle_outgoing-nodes :
      (id route : String) (e : Engine) → (settle_outgoing id route e).nodes ≡ e.nodes
  unfolding settle_outgoing
  settle_outgoing-nodes id route e = ground arith

  settle_outgoing-node_defs :
      (id route : String) (e : Engine) → (settle_outgoing id route e).node_defs ≡ e.node_defs
  unfolding settle_outgoing
  settle_outgoing-node_defs id route e = ground arith

  room_in :
      (e : Engine) (n : NodeRun) (kind : RetryKind)
      → e.node_defs ≡ defs
      → HasRoom kind n (policy_of n e)
      → HasRoom kind n (policy_in defs n)
  unfolding node_def
  room_in e n kind same room = subst (λ d. HasRoom kind n (policy_in d n)) same room

  Move-AllNodes : (e e' : Engine) → AllNodes defs P e → Move lib e e' → AllNodes defs P e'
  unfolding set_run update_attempt
  Move-AllNodes e e' all (moves_node id n n' found m same) =
      subst (AllNodes defs P) (sym same)
        (AllNodes-update_node id n' e all (step n n' (all.at_node id n found) m))
  Move-AllNodes e e' all (retries_node id n n' a kind due found room m same) =
      subst (AllNodes defs P) (sym same) (
        AllNodes-update_node id n' e all
          (retry n n' a kind due (all.at_node id n found) (room_in e n kind all.same_defs room) m))
  Move-AllNodes e e' all (settles id route same) = subst (AllNodes defs P) (sym same) (
      AllNodes-same e (settle_outgoing id route e) (settle_outgoing-nodes id route e)
        (settle_outgoing-node_defs id route e) all)
  Move-AllNodes e e' all (requests intent applied run m same) =
      subst (AllNodes defs P) (sym same) (AllNodes-same e (set_run run e) refl refl all)
  Move-AllNodes e e' all (terminates run m same) =
      subst (AllNodes defs P) (sym same) (AllNodes-same e (set_run run e) refl refl all)
  Move-AllNodes e e' all (completes id n n' output run found m same) =
      let moved = AllNodes-update_node id n' e all (
        step n n' (all.at_node id n found)
          (complete_workflow_success-NodeMove lib (all_node_runs e) output e.run n m)) in
      subst (AllNodes defs P) (sym same)
        (AllNodes-same (update_node id n' e) (set_run run (update_node id n' e)) refl refl moved)
  Move-AllNodes e e' all (moves_attempt id a a' found m same) =
      subst (AllNodes defs P) (sym same) (AllNodes-same e (update_attempt id a' e) refl refl all)
  Move-AllNodes e e' all (adds_attempt id node_id key sequence kind a fresh m same) =
      subst (AllNodes defs P) (sym same) (AllNodes-same e _ refl refl all)

  -- A property of nodes that every step of one node keeps holds of all nodes after any moves.
  pub Moves-AllNodes :
      (e : Engine) {e' : Engine} → AllNodes defs P e → Moves lib e e' → AllNodes defs P e'
  Moves-AllNodes e all here = all
  Moves-AllNodes e all (next {f} {g} r m) = Move-AllNodes f g (Moves-AllNodes e all r) m
