-- ===== src/Runtime/Termination.antt =====
-- internal/runtime/model.go: how a run is told to end. FailInitialization ends a run that never
-- exposed a node; RequestTermination records the first intent that arrives.
use evalfrog.Prelude.{
  ◌+◌, Bool, true, false, not, ◌&&◌, ◌||◌, some, if◌then◌else◌, ltb, nat_eq, is_blank, is_some, u64,
}
use evalfrog.Runtime.Error.{Result, ok, err, termination_final, message, ◌>>◌, require}
use evalfrog.Runtime.States.{
  TerminationKind, kind_failed, kind_canceled, kind_timed_out, RunState, run_terminal,
}
use evalfrog.Runtime.Failure.{Time, Failure, TerminationIntent}
use evalfrog.Runtime.Run.{WorkflowRun, is_run_pending}

unfoldable pub fail_initialization : Failure → Time → WorkflowRun → Result WorkflowRun
unfolding is_run_pending
fail_initialization failure at run =
    if not (is_run_pending run.state)
      || is_some run.termination
      || is_blank failure.code
      || nat_eq at 0
      || ltb at run.created_at
    then err (message "run initialization failure is invalid")
    else ok (record run {
      termination = some (record { kind = kind_failed; requested_at = at; cause = failure });
      state = RunState.failed;
      state_version = u64 (run.state_version + 1);
    })

unfoldable pub is_known_termination : TerminationKind → Bool
is_known_termination kind_failed = true
is_known_termination kind_canceled = true
is_known_termination kind_timed_out = true
is_known_termination _ = false

unfoldable pub is_kind_failed : TerminationKind → Bool
is_kind_failed kind_failed = true
is_kind_failed _ = false

unfoldable pub is_kind_timed_out : TerminationKind → Bool
is_kind_timed_out kind_timed_out = true
is_kind_timed_out _ = false

-- The tests of RequestTermination that reject an intent.
unfoldable pub check_intent : TerminationIntent → WorkflowRun → Result (Unit {0})
unfolding run_terminal is_known_termination is_kind_failed is_kind_timed_out is_run_pending
check_intent intent run = do
  require (not (run_terminal run.state)) termination_final
  require (not (nat_eq intent.requested_at 0 || is_blank intent.cause.code))
      (message "termination intent requires timestamp and cause")
  require (not (ltb intent.requested_at run.created_at))
      (message "termination intent cannot predate the run")
  require (is_known_termination intent.kind) (message "termination kind is invalid")
  require (not (is_run_pending run.state && is_kind_failed intent.kind))
      (message "pending run only accepts cancellation or deadline timeout")
  require
      (not (
        is_run_pending run.state
        && is_kind_timed_out intent.kind
        && ltb intent.requested_at run.deadline_at))
      (message "pending run timeout cannot predate its deadline")

-- `false` beside the unchanged run: an earlier intent stands.
unfoldable pub request_termination : TerminationIntent → WorkflowRun → Result (Bool × WorkflowRun)
unfolding check_intent
request_termination intent run = do
  check_intent intent run
  if is_some run.termination
      then ok (false, run)
      else ok (
        true,
        record run { termination = some intent; state_version = u64 (run.state_version + 1) },
      )
