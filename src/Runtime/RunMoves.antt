-- ===== src/Runtime/RunMoves.antt =====
-- What the operations of internal/runtime/model.go that end a run have in common.
use evalfrog.Prelude.{◌≡◌, Bool, true, false, Option, none, some, List, arith, ◌≢◌}
use evalfrog.Json.{RawMessage, Stdlib}
use evalfrog.Runtime.Error.{ok}
use evalfrog.Runtime.States.{
  kind_failed, kind_canceled, kind_timed_out, RunState, NodeState, run_terminal,
}
use evalfrog.Runtime.Failure.{TerminationIntent}
use evalfrog.Runtime.Node.{NodeRun}
use evalfrog.Runtime.Run.{WorkflowRun}
use evalfrog.Runtime.Termination.{request_termination}
use evalfrog.Runtime.Completion.{
  complete_termination, complete_workflow_success, all_terminal, check_settled,
}

-- The outcome of a run is the one that its intent asks for; a success has no intent.
abbrev pub OutcomeMatches : RunState → Option TerminationIntent → Type 0
OutcomeMatches RunState.pending t = Unit {0}
OutcomeMatches RunState.running t = Unit {0}
OutcomeMatches RunState.succeeded none = Unit {0}
OutcomeMatches RunState.failed (some t) = t.kind ≡ kind_failed
OutcomeMatches RunState.canceled (some t) = t.kind ≡ kind_canceled
OutcomeMatches RunState.timed_out (some t) = t.kind ≡ kind_timed_out
OutcomeMatches _ t = ⊥

pub record Requested (r r' : WorkflowRun) (intent : TerminationIntent) : Type 0 where
  pub live : run_terminal r.state ≡ false
  pub same_state : r'.state ≡ r.state
  pub same_output : r'.workflow_output ≡ r.workflow_output
  -- the first intent stands
  pub first_stands : (t : TerminationIntent) → r.termination ≡ some t → r' ≡ r
  pub recorded : r.termination ≡ none → r'.termination ≡ some intent

pub request_termination-Requested :
    (intent : TerminationIntent) (r : WorkflowRun) {applied : Bool} {r' : WorkflowRun}
    → request_termination intent r ≡ ok (applied, r')
    → Requested r r' intent
unfolding request_termination
request_termination-Requested intent r {applied} {r'} h = record {
  live = ground arith;
  same_state = ground arith;
  same_output = ground arith;
  first_stands = λ t e. ground arith;
  recorded = λ e. ground arith;
}

pub record Terminated (nodes : List NodeRun) (r r' : WorkflowRun) : Type 0 where
  pub live : run_terminal r.state ≡ false
  pub over : run_terminal r'.state ≡ true
  pub unsuccessful : r'.state ≢ RunState.succeeded
  pub same_intent : r'.termination ≡ r.termination
  pub nodes_over : all_terminal nodes ≡ true
  pub outcome : OutcomeMatches r'.state r'.termination

pub complete_termination-Terminated :
    (nodes : List NodeRun) (r : WorkflowRun) {r' : WorkflowRun}
    → complete_termination nodes r ≡ ok r'
    → Terminated nodes r r'
unfolding complete_termination run_terminal
complete_termination-Terminated nodes r {r'} h = record {
  live = ground arith;
  over = ground arith;
  unsuccessful = λ e. ground arith;
  same_intent = ground arith;
  nodes_over = ground arith;
  outcome = ground arith;
}

pub record Succeeded (nodes : List NodeRun) (n n' : NodeRun) (r r' : WorkflowRun) : Type 0 where
  pub live : r.state ≡ RunState.running
  pub unintended : r.termination ≡ none
  pub over : r'.state ≡ RunState.succeeded
  pub same_intent : r'.termination ≡ none
  pub ended : n'.state ≡ NodeState.succeeded
  pub others_settled : check_settled n.execution_node_id false nodes ≡ ok true

pub complete_workflow_success-Succeeded :
    (lib : Stdlib) (nodes : List NodeRun) (output : RawMessage) (r : WorkflowRun) (n : NodeRun)
    {r' : WorkflowRun} {n' : NodeRun}
    → complete_workflow_success lib nodes output r n ≡ ok (r', n')
    → Succeeded nodes n n' r r'
unfolding complete_workflow_success
complete_workflow_success-Succeeded lib nodes output r n {r'} {n'} h = record {
  live = ground arith;
  unintended = ground arith;
  over = ground arith;
  same_intent = ground arith;
  ended = ground arith;
  others_settled = ground arith;
}
