-- ===== src/Engine/Finality.antt =====
-- Terminal nodes, the first intent to end a run, and terminal runs, under any calls of an engine
-- (internal/runtime/engine/engine.go).
use evalfrog.Prelude.{String, ◌≡◌, refl, sym, subst, ap, ◌∙◌, true, some, List, arith, eq_iff}
use evalfrog.Prelude.Assoc.{lookup, lookup-insert}
use evalfrog.Json.{Stdlib}
use evalfrog.Runtime.States.{node_terminal, run_terminal}
use evalfrog.Runtime.Failure.{TerminationIntent}
use evalfrog.Runtime.Node.{NodeRun}
use evalfrog.Runtime.NodeMoves.{IsLegal, IsLegal-live, NodeMove-IsLegal, retry_wait-IsLegal}
use evalfrog.Runtime.Run.{WorkflowRun}
use evalfrog.Runtime.RunMoves.{
  request_termination-Requested, complete_termination-Terminated,
  complete_workflow_success-Succeeded,
}
use evalfrog.Engine.State.{
  Engine, update_node, update_attempt, set_run, settle_outgoing, all_node_runs,
}
use evalfrog.Engine.Control.{Call, perform_all}
use evalfrog.Engine.Moves.{
  Move, moves_node, retries_node, settles, requests, terminates, completes, moves_attempt,
  adds_attempt, Moves, here, next,
}
use evalfrog.Engine.Invariants.{complete_workflow_success-NodeMove}
use evalfrog.Engine.Refinement.{perform_all-Moves}

-- settling edges touches neither the nodes nor the run
pub settle_outgoing-nodes :
    (id route : String) (e : Engine) → (settle_outgoing id route e).nodes ≡ e.nodes
unfolding settle_outgoing
settle_outgoing-nodes id route e = ground arith

pub settle_outgoing-run :
    (id route : String) (e : Engine) → (settle_outgoing id route e).run ≡ e.run
unfolding settle_outgoing
settle_outgoing-run id route e = ground arith

module _ (lib : Stdlib) where
  -- a legal write of one node leaves a terminal node alone
  write_keeps_terminal :
      (j id : String) (n m m' : NodeRun) (e : Engine)
      → lookup j e.nodes ≡ some n
      → node_terminal n.state ≡ true
      → lookup id e.nodes ≡ some m
      → IsLegal m m'
      → lookup j (update_node id m' e).nodes ≡ some n
  unfolding update_node
  write_keeps_terminal j id n m m' e found over there legal =
      ground (arith, lookup-insert id j m' e.nodes, eq_iff id j, IsLegal-live legal)

  Move-terminal_node :
      (e e' : Engine) (j : String) (n : NodeRun)
      → lookup j e.nodes ≡ some n
      → node_terminal n.state ≡ true
      → Move lib e e'
      → lookup j e'.nodes ≡ some n
  unfolding set_run update_attempt
  Move-terminal_node e e' j n found over (moves_node id m m' there step same) =
      subst (λ f. lookup j f.nodes ≡ some n) (sym same)
        (write_keeps_terminal j id n m m' e found over there (NodeMove-IsLegal step))
  Move-terminal_node e e' j n found over (retries_node id m m' a kind due there room step same) =
      subst (λ f. lookup j f.nodes ≡ some n) (sym same)
        (write_keeps_terminal j id n m m' e found over there (retry_wait-IsLegal m a kind due step))
  Move-terminal_node e e' j n found over (settles id route same) =
      subst (λ f. lookup j f.nodes ≡ some n) (sym same)
        (ap (lookup j) (settle_outgoing-nodes id route e) ∙ found)
  Move-terminal_node e e' j n found over (requests intent applied run step same) =
      subst (λ f. lookup j f.nodes ≡ some n) (sym same) found
  Move-terminal_node e e' j n found over (terminates run step same) =
      subst (λ f. lookup j f.nodes ≡ some n) (sym same) found
  Move-terminal_node e e' j n found over (completes id m m' output run there step same) =
      subst (λ f. lookup j f.nodes ≡ some n) (sym same)
        (write_keeps_terminal j id n m m' e found over there (
          NodeMove-IsLegal
            (complete_workflow_success-NodeMove lib (all_node_runs e) output e.run m step)))
  Move-terminal_node e e' j n found over (moves_attempt id a a' there step same) =
      subst (λ f. lookup j f.nodes ≡ some n) (sym same) found
  Move-terminal_node e e' j n found over (adds_attempt id node_id key seq kind a fresh step same) =
      subst (λ f. lookup j f.nodes ≡ some n) (sym same) found

  pub Moves-terminal_node :
      (e : Engine) {e' : Engine} (j : String) (n : NodeRun)
      → lookup j e.nodes ≡ some n
      → node_terminal n.state ≡ true
      → Moves lib e e'
      → lookup j e'.nodes ≡ some n
  Moves-terminal_node e j n found over here = found
  Moves-terminal_node e j n found over (next {f} {g} r m) =
      Move-terminal_node f g j n (Moves-terminal_node e j n found over r) over m

  Move-terminal_run :
      (e e' : Engine) → run_terminal e.run.state ≡ true → Move lib e e' → e'.run ≡ e.run
  unfolding set_run update_attempt update_node run_terminal
  Move-terminal_run e e' over (moves_node id m m' there step same) = ap (λ (f : Engine). f.run) same
  Move-terminal_run e e' over (retries_node id m m' a kind due there room step same) =
      ap (λ (f : Engine). f.run) same
  Move-terminal_run e e' over (settles id route same) =
      ap (λ (f : Engine). f.run) same ∙ settle_outgoing-run id route e
  Move-terminal_run e e' over (requests intent applied run step same) =
      absurd (cc ((request_termination-Requested intent e.run step).live))
  Move-terminal_run e e' over (terminates run step same) =
      absurd (cc ((complete_termination-Terminated (all_node_runs e) e.run step).live))
  Move-terminal_run e e' over (completes id m m' output run there step same) =
      absurd
        (cc (complete_workflow_success-Succeeded lib (all_node_runs e) output e.run m step).live)
  Move-terminal_run e e' over (moves_attempt id a a' there step same) =
      ap (λ (f : Engine). f.run) same
  Move-terminal_run e e' over (adds_attempt id node_id key seq kind a fresh step same) =
      ap (λ (f : Engine). f.run) same

  pub Moves-terminal_run :
      (e : Engine) {e' : Engine} → run_terminal e.run.state ≡ true → Moves lib e e' → e'.run ≡ e.run
  Moves-terminal_run e over here = refl
  Moves-terminal_run e over (next {f} {g} r m) =
      let so_far = Moves-terminal_run e over r in
      Move-terminal_run f g (ap (λ (q : WorkflowRun). run_terminal q.state) so_far ∙ over) m
      ∙ so_far

  Move-intent :
      (e e' : Engine) (t : TerminationIntent)
      → e.run.termination ≡ some t
      → Move lib e e'
      → e'.run.termination ≡ some t
  unfolding set_run update_attempt update_node
  Move-intent e e' t h (moves_node id m m' there step same) =
      ap (λ (f : Engine). f.run.termination) same ∙ h
  Move-intent e e' t h (retries_node id m m' a kind due there room step same) =
      ap (λ (f : Engine). f.run.termination) same ∙ h
  Move-intent e e' t h (settles id route same) =
      ap (λ (f : Engine). f.run.termination) same
      ∙ ap (λ (q : WorkflowRun). q.termination) (settle_outgoing-run id route e)
      ∙ h
  Move-intent e e' t h (requests intent applied run step same) =
      ap (λ (f : Engine). f.run.termination) same
      ∙ ap (λ (q : WorkflowRun). q.termination)
          ((request_termination-Requested intent e.run step).first_stands t h)
      ∙ h
  Move-intent e e' t h (terminates run step same) =
      ap (λ (f : Engine). f.run.termination) same
      ∙ (complete_termination-Terminated (all_node_runs e) e.run step).same_intent
      ∙ h
  Move-intent e e' t h (completes id m m' output run there step same) = absurd (
      cc (
        h,
        (complete_workflow_success-Succeeded lib (all_node_runs e) output e.run m step).unintended,
      ))
  Move-intent e e' t h (moves_attempt id a a' there step same) =
      ap (λ (f : Engine). f.run.termination) same ∙ h
  Move-intent e e' t h (adds_attempt id node_id key seq kind a fresh step same) =
      ap (λ (f : Engine). f.run.termination) same ∙ h

  pub Moves-intent :
      (e : Engine) {e' : Engine} (t : TerminationIntent)
      → e.run.termination ≡ some t
      → Moves lib e e'
      → e'.run.termination ≡ some t
  Moves-intent e t h here = h
  Moves-intent e t h (next {f} {g} r m) = Move-intent f g t (Moves-intent e t h r) m

  -- A node that has ended is the same node, in every field, after any calls.
  pub terminal_node_final :
      (calls : List Call) (e : Engine) (id : String) (n : NodeRun)
      → lookup id e.nodes ≡ some n
      → node_terminal n.state ≡ true
      → lookup id (perform_all lib calls e).nodes ≡ some n
  terminal_node_final calls e id n found over =
      Moves-terminal_node e id n found over (perform_all-Moves lib calls e)

  -- A run that has ended is the same run, in every field, after any calls.
  pub terminal_run_final :
      (calls : List Call) (e : Engine)
      → run_terminal e.run.state ≡ true
      → (perform_all lib calls e).run ≡ e.run
  terminal_run_final calls e over = Moves-terminal_run e over (perform_all-Moves lib calls e)

  -- The first intent to end the run stands, whatever is requested after it.
  pub first_intent_stands :
      (calls : List Call) (e : Engine) (t : TerminationIntent)
      → e.run.termination ≡ some t
      → (perform_all lib calls e).run.termination ≡ some t
  first_intent_stands calls e t h = Moves-intent e t h (perform_all-Moves lib calls e)
