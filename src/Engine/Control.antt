-- ===== src/Engine/Control.antt =====
-- internal/runtime/engine/engine.go: RetryDue, RequestCancel, DeadlineReached and
-- CancelAttempt, and all operations of the engine as one type, so that a history is a list.
use evalfrog.Prelude.{
  String, Bool, false, not, ◌||◌, none, some, List, [], ◌∷◌, if◌then◌else◌, ltb, is_some,
}
use evalfrog.Prelude.Assoc.{lookup}
use evalfrog.Json.{Stdlib}
use evalfrog.Runtime.Error.{ok, err, message}
use evalfrog.Runtime.States.{AttemptState, kind_canceled, kind_timed_out, run_terminal}
use evalfrog.Runtime.Failure.{Time, TerminationIntent}
use evalfrog.Runtime.Node.{is_retry_wait, retry_due}
use evalfrog.Runtime.Attempt.{AttemptResult}
use evalfrog.Runtime.Termination.{request_termination}
use evalfrog.Engine.State.{
  Engine, Outcome, done, fail, engine_of, update_node, set_run, engine_failure,
}
use evalfrog.Engine.Drive.{drive}
use evalfrog.Engine.Dispatch.{queue_node, begin_attempt, record_attempt_result}
use evalfrog.Engine.Completed.{handle_attempt_completed}

abbrev pub after_drive : Bool → Outcome (Unit {0}) → Outcome Bool
after_drive applied (done a e) = done applied e
after_drive applied (fail x e) = fail x e

abbrev pub canceled_result : AttemptResult
canceled_result = record {
  state = AttemptState.canceled;
  outputs = [];
  error_code = "ATTEMPT_CANCELED";
  message = "attempt cancellation acknowledged";
  dsl_field = "";
  error_details = none;
}

module _ (lib : Stdlib) where
  unfoldable pub engine_retry_due : String → Time → Engine → Outcome (Unit {0})
  engine_retry_due id at e =
      if is_some e.run.termination then drive lib at e else elim (lookup id e.nodes) [
        | none ↦ fail (message "node does not exist") e
        | some node ↦
            if not (is_retry_wait node.state) then done tt e else elim (retry_due at node) [
              | err x ↦ fail x e
              | ok (due, node') ↦ done tt (if due then update_node id node' e else e)
            ]
      ]

  unfoldable pub request_and_drive : TerminationIntent → Time → Engine → Outcome Bool
  request_and_drive intent at e = elim (request_termination intent e.run) [
    | err x ↦ fail x e
    | ok (applied, run) ↦ after_drive applied (drive lib at (set_run run e))
  ]

  unfoldable pub request_cancel : Time → String → Engine → Outcome Bool
  request_cancel at cause e =
      if run_terminal e.run.state
      then done false e
      else request_and_drive
          (record {
            kind = kind_canceled;
            requested_at = at;
            cause = engine_failure e "RUN_CANCELED" "run_control" cause "" "" "";
          })
          at e

  unfoldable pub deadline_reached : Time → Engine → Outcome Bool
  deadline_reached at e =
      if run_terminal e.run.state || ltb at e.run.deadline_at
      then done false e
      else request_and_drive
          (record {
            kind = kind_timed_out;
            requested_at = at;
            cause =
                engine_failure e "RUN_TIMED_OUT" "run_deadline" "workflow deadline reached" "" ""
                  "";
          })
          at e

  unfoldable pub cancel_attempt : String → Time → Engine → Outcome (Unit {0})
  cancel_attempt attempt_id at e = elim (record_attempt_result lib attempt_id canceled_result e) [
    | fail x e' ↦ fail x e'
    | done accepted e' ↦ handle_attempt_completed lib attempt_id at e'
  ]

-- A call from outside: what the consumers, the scheduler and the timers do to an engine.
pub data Call : Type 0 where
  queue : String → String → Call
  begin : String → Call
  report : String → AttemptResult → Call
  completed : String → Time → Call
  due : String → Time → Call
  cancel_run : Time → String → Call
  deadline : Time → Call
  cancel_current : String → Time → Call

-- The engine after a call, whether the call returned a result or an error.
unfoldable pub perform : Stdlib → Call → Engine → Engine
perform lib (queue node_id attempt_id) e = engine_of (queue_node node_id attempt_id e)
perform lib (begin attempt_id) e = engine_of (begin_attempt attempt_id e)
perform lib (report attempt_id result) e = engine_of (record_attempt_result lib attempt_id result e)
perform lib (completed attempt_id at) e = engine_of (handle_attempt_completed lib attempt_id at e)
perform lib (due node_id at) e = engine_of (engine_retry_due lib node_id at e)
perform lib (cancel_run at cause) e = engine_of (request_cancel lib at cause e)
perform lib (deadline at) e = engine_of (deadline_reached lib at e)
perform lib (cancel_current attempt_id at) e = engine_of (cancel_attempt lib attempt_id at e)

unfoldable pub perform_all : Stdlib → List Call → Engine → Engine
perform_all lib [] e = e
perform_all lib (call ∷ calls) e = perform_all lib calls (perform lib call e)
