-- ===== src/Tests/Witnesses.antt =====
-- The theorems at concrete runs of the three-node workflow.
use evalfrog.Prelude.{
  length, String, ◌≡◌, ◌≢◌, ◌<◌, ◌≤◌, ◌↔◌, refl, true, false, none, some, [], ◌∷◌, arith, All,
}
use evalfrog.Prelude.Assoc.{lookup}
use evalfrog.Json.{Stdlib, BranchCase}
use evalfrog.Runtime.Error.{ok}
use evalfrog.Runtime.States.{
  attempt_terminal, AttemptState, initial, task, control, node_terminal, run_terminal,
  kind_canceled, is_task,
}
use evalfrog.Runtime.Failure.{TerminationIntent}
use evalfrog.Runtime.Node.{NodeRun, fresh_node, activate, new_node_run}
use evalfrog.Runtime.Attempt.{is_known_retry, NodeAttempt, complete}
use evalfrog.Runtime.NodeMoves.{NodeMove, activates, IsLegal, NodeMove-IsLegal}
use evalfrog.Runtime.NodeInvariant.{
  NodeInv, new_node_run-NodeInv, NodeMove-NodeInv, restore-snapshot_node,
}
use evalfrog.Runtime.RetryBudget.{
  WithinBudget, AreLimits, NodeMove-WithinBudget, fresh_node-WithinBudget,
}
use evalfrog.Runtime.AttemptInvariant.{
  AttemptInv, AttemptMove, completes, AttemptMove-AttemptInv, restore-snapshot_attempt,
}
use evalfrog.Runtime.Records.{
  is_known_attempt_state, snapshot_node, restore_node_run, snapshot_attempt, restore_node_attempt,
}
use evalfrog.Engine.State.{zero_policy, Engine, done}
use evalfrog.Engine.Branch.{evaluate_branch}
use evalfrog.Dsl.{DslNode, control_kind}
use evalfrog.Engine.Drive.{drive_fuel, drive}
use evalfrog.Engine.Control.{perform_all}
use evalfrog.Engine.Create.{node_kind}
use evalfrog.Engine.Moves.{Moves, policy_of}
use evalfrog.Engine.Refinement.{perform_all-Moves}
use evalfrog.Engine.Fuel.{drive_total}
use evalfrog.Engine.Outcomes.{IsConsistent, histories-IsConsistent}
use evalfrog.Engine.Histories.{HasPolicy, nodes_restorable, retry_budget}
use evalfrog.Engine.Finality.{terminal_node_final, terminal_run_final, first_intent_stands}
use evalfrog.Engine.Attempts.{HasResult, recorded_result_stands, attempts_restorable}
use evalfrog.Engine.Routes.{Takes, evaluate_branch_iff}
use evalfrog.Tests.Fixture.{
  objects_only, three_nodes, create_command, no_issues, succeeded_result, busy_result,
}
use evalfrog.Tests.Scenarios.{started, run_calls, created, to_success, to_failure, to_cancel}

histories-IsConsistent_example : IsConsistent (perform_all objects_only to_failure started)
histories-IsConsistent_example =
    histories-IsConsistent objects_only three_nodes create_command no_issues to_failure created

perform_all-Moves_example : Moves objects_only started (perform_all objects_only to_success started)
perform_all-Moves_example = perform_all-Moves objects_only to_success started

three_rounds : length started.nodes < 5
unfolding started
three_rounds = omega arith

drive_total_example :
    drive_fuel objects_only 1 (λ e. done tt e) 5 started ≡ drive objects_only 1 started
drive_total_example = drive_total objects_only 1 (λ e. done tt e) 5 started three_rounds

abbrev node_at : String → Engine → NodeRun
unfolding lookup
node_at id e = elim (lookup id e.nodes) [ none ↦ fresh_node "" "" control | some n ↦ n ]

abbrev attempt_at : String → Engine → NodeAttempt
unfolding lookup
attempt_at id e = elim (lookup id e.attempts) [
  | none ↦ record {
    id = "";
    node_run_id = "";
    sequence = 0;
    kind = initial;
    state = AttemptState.queued;
    state_version = 0;
    result = none;
  }
  | some a ↦ a
]

abbrev retried_node : NodeRun
retried_node = node_at "b" (perform_all objects_only to_failure started)

retried_found : lookup "b" (perform_all objects_only to_failure started).nodes ≡ some retried_node
unfolding run_calls
retried_found = refl

retried_version : retried_node.state_version ≢ 0
unfolding run_calls
retried_version = omega arith

policies : All HasPolicy three_nodes.dsl.nodes
unfolding node_kind is_task
policies = (
  record { limits = (omega arith, omega arith); attempted_once = λ h. absurd (cc h) },
  (
    record { limits = (omega arith, omega arith); attempted_once = λ h. omega arith },
    (record { limits = (omega arith, omega arith); attempted_once = λ h. absurd (cc h) }, tt),
  ),
)

abbrev failed_engine : Engine
failed_engine = perform_all objects_only to_failure started

retry_budget_example :
    (retried_node.business_attempt_count ≤ (policy_of retried_node failed_engine).max_attempts)
    × (retried_node.recovery_count ≤ (policy_of retried_node failed_engine).max_recoveries)
retry_budget_example =
    retry_budget objects_only three_nodes create_command no_issues to_failure policies created "b"
      retried_node retried_found

nodes_restorable_example : restore_node_run (snapshot_node retried_node) ≡ ok retried_node
nodes_restorable_example =
    nodes_restorable objects_only three_nodes create_command no_issues to_failure created "b"
      retried_node retried_found retried_version

retried_terminal : node_terminal retried_node.state ≡ true
unfolding run_calls
retried_terminal = refl

terminal_node_final_example :
    lookup "b" (perform_all objects_only to_cancel failed_engine).nodes ≡ some retried_node
terminal_node_final_example =
    terminal_node_final objects_only to_cancel failed_engine "b" retried_node retried_found
      retried_terminal

failed_terminal : run_terminal failed_engine.run.state ≡ true
unfolding run_calls
failed_terminal = refl

terminal_run_final_example :
    (perform_all objects_only to_cancel failed_engine).run ≡ failed_engine.run
terminal_run_final_example = terminal_run_final objects_only to_cancel failed_engine failed_terminal

abbrev canceled_engine : Engine
canceled_engine = perform_all objects_only to_cancel started

abbrev cancel_intent : TerminationIntent
unfolding run_calls
cancel_intent = elim canceled_engine.run.termination [
  | none ↦ record {
    kind = kind_canceled;
    requested_at = 0;
    cause = record {
      code = "";
      phase = "";
      retryable = false;
      run_id = "";
      snapshot_id = "";
      definition_hash = "";
      execution_node_id = "";
      dsl_field = "";
      execution_edge_id = "";
      attempt_id = "";
      expected = "";
      actual = "";
      message = "";
      details = none;
    };
  }
  | some t ↦ t
]

cancel_requested : canceled_engine.run.termination ≡ some cancel_intent
unfolding run_calls
cancel_requested = refl

first_intent_stands_example :
    (perform_all objects_only to_failure canceled_engine).run.termination ≡ some cancel_intent
first_intent_stands_example =
    first_intent_stands objects_only to_failure canceled_engine cancel_intent cancel_requested

abbrev first_attempt : NodeAttempt
first_attempt = attempt_at "t1" failed_engine

first_found : lookup "t1" failed_engine.attempts ≡ some first_attempt
unfolding run_calls
first_found = refl

first_result : first_attempt.result ≡ some busy_result
unfolding run_calls
first_result = refl

first_version : first_attempt.state_version ≢ 0
unfolding run_calls
first_version = omega arith

recorded_result_stands_example :
    HasResult "t1" busy_result (perform_all objects_only to_success failed_engine).attempts
recorded_result_stands_example =
    recorded_result_stands objects_only to_success failed_engine "t1" busy_result first_attempt
      first_found first_result

attempts_restorable_example :
    restore_node_attempt (snapshot_attempt first_attempt) ≡ ok first_attempt
attempts_restorable_example =
    attempts_restorable objects_only three_nodes create_command no_issues to_failure created "t1"
      first_attempt first_found first_version

abbrev equals_case : String → BranchCase
equals_case route = record { route = route; path = ""; operator = "eq"; value = "{}" }

-- a library in which every list of cases is one case, for the route left
abbrev one_case : Stdlib
one_case = record objects_only { unmarshal_cases = λ raw. some (equals_case "left" ∷ []) }

abbrev branch_node : DslNode
branch_node = record {
  id = "x";
  kind = control_kind;
  operation = record {
    type_name = "control.branch";
    version = 1;
    config = ("cases", "[]") ∷ ("default_route", "otherwise") ∷ [];
  };
  inputs = [];
  outputs = [];
  execution_policy = zero_policy;
  has_nil_map = false;
}

branch_left : evaluate_branch one_case branch_node "{}" ≡ ok "left"
unfolding started evaluate_branch
branch_left = refl

evaluate_branch_iff_example :
    (evaluate_branch one_case branch_node "{}" ≡ ok "left") ↔ Takes one_case branch_node "{}" "left"
evaluate_branch_iff_example = evaluate_branch_iff one_case branch_node "{}" "left"

-- a node and an attempt on their own

abbrev new_node : NodeRun
new_node = fresh_node "run" "b" task

abbrev active_node : NodeRun
active_node = record new_node { activated = true; state_version = 2 }

new_node_made : new_node_run "run" "b" task ≡ ok new_node
unfolding new_node_run
new_node_made = refl

activation : NodeMove new_node active_node
unfolding activate
activation = activates refl

NodeMove-IsLegal_example : IsLegal new_node active_node
NodeMove-IsLegal_example = NodeMove-IsLegal activation

new_node_invariant : NodeInv new_node
new_node_invariant = new_node_run-NodeInv "run" "b" task new_node_made

NodeMove-NodeInv_example : NodeInv active_node
NodeMove-NodeInv_example = NodeMove-NodeInv new_node_invariant activation

two_and_one : AreLimits 2 1
two_and_one = (omega arith, omega arith)

NodeMove-WithinBudget_example : WithinBudget 2 1 active_node
NodeMove-WithinBudget_example =
    NodeMove-WithinBudget two_and_one
      (fresh_node-WithinBudget two_and_one "run" "b" task (λ h. omega arith)) activation

new_version : new_node.state_version ≢ 0
new_version = omega arith

restore-snapshot_node_example : restore_node_run (snapshot_node new_node) ≡ ok new_node
restore-snapshot_node_example = restore-snapshot_node new_node new_node_invariant new_version

abbrev new_attempt : NodeAttempt
new_attempt = record {
  id = "t1";
  node_run_id = "run:b";
  sequence = 1;
  kind = initial;
  state = AttemptState.queued;
  state_version = 1;
  result = none;
}

abbrev running_attempt : NodeAttempt
running_attempt = record new_attempt { state = AttemptState.running; state_version = 2 }

abbrev ended_attempt : NodeAttempt
ended_attempt = record new_attempt {
  state = AttemptState.succeeded;
  state_version = 3;
  result = some succeeded_result;
}

running_invariant : AttemptInv running_attempt
unfolding is_known_retry is_known_attempt_state attempt_terminal
running_invariant = record {
  named = refl;
  owned = refl;
  numbered = refl;
  known_kind = refl;
  known_state = refl;
  agrees = refl;
}

completion : AttemptMove objects_only running_attempt ended_attempt
unfolding complete
completion = completes succeeded_result refl refl

AttemptMove-AttemptInv_example : AttemptInv ended_attempt
AttemptMove-AttemptInv_example = AttemptMove-AttemptInv objects_only running_invariant completion

running_version : running_attempt.state_version ≢ 0
running_version = omega arith

restore-snapshot_attempt_example :
    restore_node_attempt (snapshot_attempt running_attempt) ≡ ok running_attempt
restore-snapshot_attempt_example =
    restore-snapshot_attempt running_attempt running_invariant running_version
