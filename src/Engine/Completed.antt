-- ===== src/Engine/Completed.antt =====
-- internal/runtime/engine/engine.go: HandleAttemptCompleted, which reads the recorded fact
-- of an attempt and decides what becomes of its node and of the run.
use evalfrog.Prelude.{
  ℕ, ◌+◌, ◌-◌, ◌*◌, String, Bool, true, not, ◌&&◌, ◌||◌, Option, none, some, ◌==◌, if◌then◌else◌,
  ltb, nat_eq, is_blank, u64, contains,
}
use evalfrog.Prelude.Assoc.{lookup}
use evalfrog.Json.{Stdlib}
use evalfrog.Runtime.Error.{Result, ok, err, message, nil_dereference, error_text}
use evalfrog.Runtime.States.{
  NodeState, AttemptState, RetryKind, business_retry, recovery, TerminationKind, kind_failed,
  node_terminal,
}
use evalfrog.Runtime.Failure.{Time, Failure, TerminationIntent}
use evalfrog.Runtime.Node.{
  NodeRun, Values, retry_wait, is_retry_wait, succeed_attempt, fail_attempt, cancel,
}
use evalfrog.Runtime.Attempt.{AttemptResult}
use evalfrog.Dsl.{ExecutionPolicy}
use evalfrog.Engine.State.{
  Engine, Outcome, done, fail, node_def, update_node, settle_outgoing, engine_failure,
  cancel_reason_of, note_termination,
}
use evalfrog.Engine.Inputs.{validate_outputs}
use evalfrog.Engine.Drive.{drive}
use evalfrog.Engine.Dispatch.{owner_id}

unfoldable pub retryable : ExecutionPolicy → String → Bool
unfolding contains
retryable policy code = contains policy.retryable_error_codes code

-- time.Duration(delay) * time.Millisecond is a signed product of 64 bits; a negative duration
-- moves the time back. A time before Go's zero time is the zero time here.
unfoldable pub add_duration : Time → ℕ → Time
add_duration at delay_ms =
    let product = u64 (delay_ms * 1000000) in
    if ltb product 9223372036854775808 then at + product else at - (18446744073709551616 - product)

-- policy.RetryBackoff is dereferenced without a test
unfoldable pub retry_due_at : Time → ExecutionPolicy → Option Time
unfolding add_duration
retry_due_at at policy = elim policy.retry_backoff [
  | none ↦ none
  | some backoff ↦ some (add_duration at backoff.delay_ms)
]

unfoldable pub is_resting : NodeState → Bool
unfolding node_terminal is_retry_wait
is_resting NodeState.ready = true
is_resting state = node_terminal state || is_retry_wait state

unfoldable pub attempt_failure : Engine → AttemptResult → String → NodeRun → String → Failure
attempt_failure e result code node attempt_id =
    record (engine_failure e code "node_execution" result.message node.execution_node_id attempt_id
      result.dsl_field) { details = result.error_details }

module _ (lib : Stdlib) where
  module _ (at : Time) (attempt_id id : String) where
    -- acceptSuccess; `none` if the outputs or the transition are refused
    unfoldable pub accept_success : Values → NodeRun → Engine → Result Engine
    accept_success outputs node e =
        let definition = node_def node.execution_node_id e in
        elim (validate_outputs lib definition outputs) [
          | err x ↦ err x
          | ok _ ↦ elim (succeed_attempt attempt_id outputs node) [
            | err x ↦ err x
            | ok node' ↦ ok (settle_outgoing definition.id "" (update_node id node' e))
          ]
        ]

    -- an error of the transition, or the engine after it and the intent to fail the run
    unfoldable pub fail_run : Failure → Result NodeRun → Engine → Outcome (Unit {0})
    fail_run failure transitioned e = elim transitioned [
      | err x ↦ fail x e
      | ok node' ↦ drive lib at (
          note_termination (record { kind = kind_failed; requested_at = at; cause = failure })
            (update_node id node' e))
    ]

    unfoldable pub wait_for_retry : RetryKind → NodeRun → Engine → Outcome (Unit {0})
    wait_for_retry kind node e =
        elim (retry_due_at at (node_def node.execution_node_id e).execution_policy) [
          | none ↦ fail nil_dereference e
          | some due ↦ elim (retry_wait attempt_id kind due node) [
            | err x ↦ fail x e
            | ok node' ↦ done tt (update_node id node' e)
          ]
        ]

    unfoldable pub cancel_and_drive : TerminationKind → NodeRun → Engine → Outcome (Unit {0})
    cancel_and_drive kind node e = elim (cancel (cancel_reason_of kind) node) [
      | err x ↦ fail x e
      | ok node' ↦ drive lib at (update_node id node' e)
    ]

    -- The run is terminating: a success is kept, anything else cancels the node.
    unfoldable pub handle_terminating :
        TerminationKind → AttemptState → AttemptResult → NodeRun → Engine → Outcome (Unit {0})
    handle_terminating kind AttemptState.succeeded result node e =
        elim (accept_success result.outputs node e) [
          | err x ↦ cancel_and_drive kind node e
          | ok e' ↦ drive lib at e'
        ]
    handle_terminating kind _ result node e = cancel_and_drive kind node e

    unfoldable pub handle_success : AttemptResult → NodeRun → Engine → Outcome (Unit {0})
    handle_success result node e = elim (accept_success result.outputs node e) [
      | ok e' ↦ drive lib at e'
      | err x ↦
          let failure =
            engine_failure e "RUNTIME_OUTPUT_CONTRACT_VIOLATION" "output_binding" (error_text x)
              node.execution_node_id attempt_id "outputs" in
          fail_run failure (fail_attempt attempt_id NodeState.failed failure node) e
    ]

    unfoldable pub handle_lost : AttemptResult → NodeRun → Engine → Outcome (Unit {0})
    handle_lost result node e =
        if ltb node.recovery_count
          (node_def node.execution_node_id e).execution_policy.max_recoveries
        then wait_for_retry recovery node e
        else (let failure = attempt_failure e result result.error_code node attempt_id in
            fail_run failure (fail_attempt attempt_id NodeState.failed failure node) e)

    -- `target` is the state of a node that has no attempt left
    unfoldable pub handle_failed :
        NodeState → String → AttemptResult → NodeRun → Engine → Outcome (Unit {0})
    handle_failed target code result node e =
        let policy = (node_def node.execution_node_id e).execution_policy in
        if retryable policy result.error_code && ltb node.business_attempt_count policy.max_attempts
        then wait_for_retry business_retry node e
        else (let failure = attempt_failure e result code node attempt_id in
            fail_run failure (fail_attempt attempt_id target failure node) e)

    -- the switch over the state of the result
    unfoldable pub handle_result :
        AttemptState → AttemptResult → NodeRun → Engine → Outcome (Unit {0})
    handle_result AttemptState.succeeded result node e = handle_success result node e
    handle_result AttemptState.lost result node e = handle_lost result node e
    handle_result AttemptState.failed result node e =
        handle_failed NodeState.failed result.error_code result node e
    handle_result AttemptState.timed_out result node e =
        handle_failed NodeState.timed_out
          (if is_blank result.error_code then "NODE_TIMEOUT" else result.error_code) result node e
    handle_result AttemptState.canceled result node e =
        fail_run (attempt_failure e result result.error_code node attempt_id)
          (cancel "NODE_FAILED" node) e
    handle_result _ result node e = fail (message "attempt result state is unsupported") e

  unfoldable pub handle_intended :
      Option TerminationIntent
      → Time
      → String
      → String
      → AttemptResult
      → NodeRun
      → Engine
      → Outcome (Unit {0})
  handle_intended (some intent) at attempt_id id result node e =
      handle_terminating at attempt_id id intent.kind result.state result node e
  handle_intended none at attempt_id id result node e =
      handle_result at attempt_id id result.state result node e

  -- A result of an attempt that is not current, or whose node has gone on, changes nothing.
  unfoldable pub handle_current :
      Time → String → String → AttemptResult → NodeRun → Engine → Outcome (Unit {0})
  handle_current at attempt_id id result node e =
      if not (node.current_attempt_id == attempt_id) || is_resting node.state
      then done tt e
      else handle_intended e.run.termination at attempt_id id result node e

  unfoldable pub handle_attempt_completed : String → Time → Engine → Outcome (Unit {0})
  handle_attempt_completed attempt_id at e = elim (lookup attempt_id e.attempts) [
    | none ↦ fail (message "attempt does not exist") e
    | some attempt ↦
        if nat_eq at 0
        then fail (message "completion timestamp is required") e
        else if ltb at e.run.created_at
        then fail (message "completion timestamp cannot predate the run") e
        else elim attempt.result [
          | none ↦ fail (message "attempt result has not been recorded") e
          | some result ↦ elim (lookup (owner_id attempt_id e) e.nodes) [
            | none ↦ fail (message "attempt node does not exist") e
            | some node ↦ handle_current at attempt_id (owner_id attempt_id e) result node e
          ]
        ]
  ]
