-- ===== src/Tests/Scenarios.antt =====
-- Histories of the three-node workflow.
use evalfrog.Prelude.{String, ◌≡◌, refl, Option, none, some, List, [], ◌∷◌, sort_strings, contains}
use evalfrog.Runtime.Error.{Result, ok, err}
use evalfrog.Prelude.Assoc.{lookup, insert, keys}
use evalfrog.Runtime.Node.{
  new_node_run, node_transition, activate, become_ready, skip, succeed_control, fail_control,
  fail_before_attempt, is_recovery, queue_attempt, attempt_started, is_retry, retry_wait,
  is_retry_wait, retry_due, succeed_attempt, is_failure_target, fail_attempt, cancel,
}
use evalfrog.Runtime.Attempt.{
  outputs_within, result_equal, is_known_retry, new_node_attempt, attempt_transition, start_attempt,
  is_attempt_success, has_result, complete,
}
use evalfrog.Runtime.Run.{
  is_object, clone_json_object, is_known_purpose, is_production, is_draft, is_published,
  check_command, created_run, input_result, new_workflow_run, run_transition, collect_ids, start,
  is_run_pending, is_run_running,
}
use evalfrog.Runtime.Termination.{is_known_termination, check_intent, request_termination}
use evalfrog.Runtime.Completion.{
  expects_no_nodes, check_nodes, expected_count, validate_node_set, all_terminal,
  termination_target, complete_termination, is_settled, check_settled, complete_workflow_success,
}
use evalfrog.Runtime.States.{
  run_terminal, node_terminal, attempt_terminal, valid_run_transition, valid_node_transition,
  valid_attempt_transition, run_state_text, node_state_text, attempt_state_text, is_pending,
  is_succeeded, is_task, is_control, attempt_state_eq,
}
use evalfrog.Engine.State.{
  Engine, node_def, update_node, update_attempt, set_run, sorted_node_ids, collect_nodes,
  all_node_runs, settled_state, settle_edges, settle_outgoing, edge_state, is_edge_pending,
  is_edge_active, all_incoming_settled, any_incoming_active, all_nodes_terminal,
  all_other_nodes_terminal, engine_failure, cancel_reason_of, at_or_created, note_termination,
}
use evalfrog.Engine.Inputs.{
  resolve_binding, resolve_bindings, resolve_inputs, value_type, raw_data_type, fits_type,
  check_outputs, validate_outputs,
}
use evalfrog.Engine.Drive.{
  walk, awaits_attempt, is_dispatched, cancel_node, terminate_node, finish_termination,
  after_termination, terminate, fail_node, visit_skip, visit_task, error_code_of, error_field_of,
  is_task_kind, after_walk, visit_branch, visit_end, visit_ready, visit_inputs, visit_activate,
  visit_node, drive_round, drive_fuel, drive,
}
use evalfrog.Engine.Dispatch.{
  owner_id, node_run_key, add_attempt, queue_node, is_attempt_running, mark_started, begin_attempt,
  record_result, record_attempt_result,
}
use evalfrog.Engine.Completed.{
  retryable, add_duration, retry_due_at, is_resting, attempt_failure, accept_success, fail_run,
  wait_for_retry, cancel_and_drive, handle_terminating, handle_success, handle_lost, handle_failed,
  handle_result, handle_intended, handle_current, handle_attempt_completed,
}
use evalfrog.Engine.Control.{
  engine_retry_due, request_and_drive, request_cancel, deadline_reached, cancel_attempt, perform,
  perform_all,
}
use evalfrog.Engine.Create.{
  node_kind, insert_edge, index_edge, add_nodes, add_edges, check_binding, assemble, build_engine,
  enter, initialize, new_engine,
}
use evalfrog.Engine.Create.{empty_engine}
use evalfrog.Engine.Control.{Call, queue, begin, report, completed, due, cancel_run, cancel_current}
use evalfrog.Runtime.States.{RunState, NodeState}
use evalfrog.Tests.Fixture.{
  objects_only, three_nodes, create_command, no_issues, succeeded_result, busy_result,
}

abbrev pub or_empty : Result Engine → Engine
or_empty (ok e) = e
or_empty (err x) = empty_engine three_nodes (created_run create_command "")

-- the engine that New returns
unfoldable pub started : Engine
unfolding lookup insert keys new_node_run node_transition activate become_ready skip succeed_control
    fail_control fail_before_attempt is_recovery queue_attempt attempt_started is_retry retry_wait
    is_retry_wait retry_due succeed_attempt is_failure_target fail_attempt cancel outputs_within
    result_equal is_known_retry new_node_attempt attempt_transition start_attempt is_attempt_success
    has_result complete is_object clone_json_object is_known_purpose is_production is_draft
    is_published check_command created_run input_result new_workflow_run run_transition collect_ids
    start is_run_pending is_run_running is_known_termination check_intent request_termination
    expects_no_nodes check_nodes expected_count validate_node_set all_terminal termination_target
    complete_termination is_settled check_settled complete_workflow_success run_terminal
    node_terminal attempt_terminal valid_run_transition valid_node_transition
    valid_attempt_transition run_state_text node_state_text attempt_state_text is_pending
    is_succeeded is_task is_control attempt_state_eq node_def update_node update_attempt set_run
    sorted_node_ids collect_nodes all_node_runs settled_state settle_edges settle_outgoing
    edge_state is_edge_pending is_edge_active all_incoming_settled any_incoming_active
    all_nodes_terminal all_other_nodes_terminal engine_failure cancel_reason_of at_or_created
    note_termination resolve_binding resolve_bindings resolve_inputs value_type raw_data_type
    fits_type check_outputs validate_outputs walk awaits_attempt is_dispatched cancel_node
    terminate_node finish_termination after_termination terminate fail_node visit_skip visit_task
    error_code_of error_field_of is_task_kind after_walk visit_branch visit_end visit_ready
    visit_inputs visit_activate visit_node drive_round drive_fuel drive owner_id node_run_key
    add_attempt queue_node is_attempt_running mark_started begin_attempt record_result
    record_attempt_result retryable add_duration retry_due_at is_resting attempt_failure
    accept_success fail_run wait_for_retry cancel_and_drive handle_terminating handle_success
    handle_lost handle_failed handle_result handle_intended handle_current handle_attempt_completed
    engine_retry_due request_and_drive request_cancel deadline_reached cancel_attempt perform
    perform_all node_kind insert_edge index_edge add_nodes add_edges check_binding assemble
    build_engine enter initialize new_engine sort_strings contains
started = or_empty (new_engine objects_only three_nodes create_command no_issues)

-- the engine after a history
unfoldable pub run_calls : List Call → Engine
unfolding started
run_calls calls = perform_all objects_only calls started

abbrev pub dispatched : List Call
dispatched = queue "b" "t1" ∷ begin "t1" ∷ []

abbrev pub to_success : List Call
to_success = queue "b" "t1" ∷ begin "t1" ∷ report "t1" succeeded_result ∷ completed "t1" 10 ∷ []

abbrev pub to_retry : List Call
to_retry = queue "b" "t1" ∷ begin "t1" ∷ report "t1" busy_result ∷ completed "t1" 10 ∷ []

abbrev pub to_failure : List Call
to_failure =
    queue "b" "t1"
    ∷ begin "t1"
    ∷ report "t1" busy_result
    ∷ completed "t1" 10
    ∷ due "b" 1000010
    ∷ queue "b" "t2"
    ∷ begin "t2"
    ∷ report "t2" busy_result
    ∷ completed "t2" 1000020
    ∷ []

abbrev pub to_cancel : List Call
to_cancel = queue "b" "t1" ∷ begin "t1" ∷ cancel_run 5 "stop" ∷ cancel_current "t1" 6 ∷ []

abbrev state_of : String → Engine → Option NodeState
unfolding lookup
state_of id e = elim (lookup id e.nodes) [ none ↦ none | some n ↦ some n.state ]

-- the document is accepted, and the task waits for an attempt
pub created : new_engine objects_only three_nodes create_command no_issues ≡ ok started
unfolding started
created = refl

started_ready : state_of "b" started ≡ some NodeState.ready
unfolding started
started_ready = refl

success_state : (run_calls to_success).run.state ≡ RunState.succeeded
unfolding run_calls
success_state = refl

success_end : state_of "c" (run_calls to_success) ≡ some NodeState.succeeded
unfolding run_calls
success_end = refl

retry_state : state_of "b" (run_calls to_retry) ≡ some NodeState.retry_wait
unfolding run_calls
retry_state = refl

failure_state : (run_calls to_failure).run.state ≡ RunState.failed
unfolding run_calls
failure_state = refl

cancel_state : (run_calls to_cancel).run.state ≡ RunState.canceled
unfolding run_calls
cancel_state = refl
