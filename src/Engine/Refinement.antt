-- ===== src/Engine/Refinement.antt =====
-- The calls of internal/runtime/engine/engine.go and the abstract machine of Engine/Moves, call by call
-- and over whole histories.
use evalfrog.Prelude.{
  String, refl, Bool, true, false, ◌||◌, List, [], ◌∷◌, inl, inr, Bool-cases, Option-cases, is_some,
  ltb,
}
use evalfrog.Prelude.Assoc.{lookup}
use evalfrog.Json.{Stdlib}
use evalfrog.Runtime.Error.{Result-cases}
use evalfrog.Runtime.States.{run_terminal}
use evalfrog.Runtime.Failure.{Time, TerminationIntent}
use evalfrog.Runtime.Node.{is_retry_wait, retry_due}
use evalfrog.Runtime.NodeMoves.{retries}
use evalfrog.Runtime.Termination.{request_termination}
use evalfrog.Engine.State.{Engine, Outcome, done, fail, engine_of, set_run}
use evalfrog.Engine.Drive.{drive}
use evalfrog.Engine.Dispatch.{record_attempt_result}
use evalfrog.Engine.Completed.{handle_attempt_completed}
use evalfrog.Engine.Control.{
  after_drive, engine_retry_due, request_and_drive, request_cancel, deadline_reached,
  canceled_result, cancel_attempt, Call, queue, begin, report, completed, due, cancel_run, deadline,
  cancel_current, perform, perform_all,
}
use evalfrog.Engine.Moves.{moves_node, requests, Moves, here, Moves-trans, one}
use evalfrog.Engine.DriveMoves.{drive-Moves}
use evalfrog.Engine.OperationMoves.{
  queue_node-Moves, begin_attempt-Moves, record_attempt_result-Moves,
  handle_attempt_completed-Moves,
}

module _ (lib : Stdlib) where
  engine_retry_due-Moves :
      (id : String) (at : Time) (e : Engine)
      → Moves lib e (engine_of (engine_retry_due lib id at e))
  unfolding engine_retry_due
  engine_retry_due-Moves id at e = elim (Bool-cases (is_some e.run.termination)) [
    | inl t ↦ rw (t, engine_of) (drive-Moves lib at e)
    | inr t ↦
        rw (t, engine_of)
          (elim (Option-cases (lookup id e.nodes)) [
            | inl h ↦ rw (h, engine_of) here
            | inr (n, h) ↦
                rw (h, engine_of)
                  (elim (Bool-cases (is_retry_wait n.state)) [
                    | inr w ↦ rw (w, engine_of) here
                    | inl w ↦
                        rw (w, engine_of)
                          (elim (Result-cases (retry_due at n)) [
                            | inr (x, k) ↦ rw (k, engine_of) here
                            | inl ((true, n'), k) ↦
                                rw (k, engine_of) (one (moves_node id n n' h (retries at k) refl))
                            | inl ((false, n'), k) ↦ rw (k, engine_of) here
                          ])
                  ])
          ])
  ]

  after_drive-Moves :
      (e : Engine) (applied : Bool) (o : Outcome (Unit {0}))
      → Moves lib e (engine_of o)
      → Moves lib e (engine_of (after_drive applied o))
  after_drive-Moves e applied (done u f) m = m
  after_drive-Moves e applied (fail x f) m = m

  request_and_drive-Moves :
      (intent : TerminationIntent) (at : Time) (e : Engine)
      → Moves lib e (engine_of (request_and_drive lib intent at e))
  unfolding request_and_drive
  request_and_drive-Moves intent at e = elim (Result-cases (request_termination intent e.run)) [
    | inr (x, h) ↦ rw (h, engine_of) here
    | inl ((applied, run), h) ↦
        rw (h, engine_of)
          (Moves-trans (one (requests intent applied run h refl)) (
            after_drive-Moves (set_run run e) applied (drive lib at (set_run run e))
              (drive-Moves lib at (set_run run e))))
  ]

  request_cancel-Moves :
      (at : Time) (cause : String) (e : Engine)
      → Moves lib e (engine_of (request_cancel lib at cause e))
  unfolding request_cancel
  request_cancel-Moves at cause e = elim (Bool-cases (run_terminal e.run.state)) [
    | inl b ↦ rw (b, engine_of) here
    | inr b ↦ rw (b, engine_of) (request_and_drive-Moves _ at e)
  ]

  deadline_reached-Moves :
      (at : Time) (e : Engine) → Moves lib e (engine_of (deadline_reached lib at e))
  unfolding deadline_reached
  deadline_reached-Moves at e =
      elim (Bool-cases (run_terminal e.run.state || ltb at e.run.deadline_at)) [
        | inl b ↦ rw (b, engine_of) here
        | inr b ↦ rw (b, engine_of) (request_and_drive-Moves _ at e)
      ]

  -- what CancelAttempt does with the outcome of its first call
  abbrev after_report : String → Time → Outcome Bool → Outcome (Unit {0})
  after_report id at o = elim o [
    | fail x f ↦ fail x f
    | done accepted f ↦ handle_attempt_completed lib id at f
  ]

  after_report-Moves :
      (id : String) (at : Time) (e : Engine) (o : Outcome Bool)
      → Moves lib e (engine_of o)
      → Moves lib e (engine_of (after_report id at o))
  after_report-Moves id at e (fail x f) m = m
  after_report-Moves id at e (done accepted f) m =
      Moves-trans m (handle_attempt_completed-Moves lib id at f)

  cancel_attempt-Moves :
      (id : String) (at : Time) (e : Engine) → Moves lib e (engine_of (cancel_attempt lib id at e))
  unfolding cancel_attempt
  cancel_attempt-Moves id at e =
      after_report-Moves id at e (record_attempt_result lib id canceled_result e)
        (record_attempt_result-Moves lib id canceled_result e)

  -- Whatever the call and its outcome, the engine that it leaves is reached from the engine that it
  -- found by moves of the abstract machine.
  pub perform-Moves : (call : Call) (e : Engine) → Moves lib e (perform lib call e)
  unfolding perform
  perform-Moves (queue node_id id) e = queue_node-Moves lib node_id id e
  perform-Moves (begin id) e = begin_attempt-Moves lib id e
  perform-Moves (report id result) e = record_attempt_result-Moves lib id result e
  perform-Moves (completed id at) e = handle_attempt_completed-Moves lib id at e
  perform-Moves (due id at) e = engine_retry_due-Moves id at e
  perform-Moves (cancel_run at cause) e = request_cancel-Moves at cause e
  perform-Moves (deadline at) e = deadline_reached-Moves at e
  perform-Moves (cancel_current id at) e = cancel_attempt-Moves id at e

  -- Whatever calls are made, in any order, and whether each returns a result or an error, the engine
  -- goes from one state to the next only by moves of the abstract machine: legal steps of one node, of
  -- one attempt or of the run, and the settling of edges.
  pub perform_all-Moves : (calls : List Call) (e : Engine) → Moves lib e (perform_all lib calls e)
  unfolding perform_all
  perform_all-Moves [] e = here
  perform_all-Moves (call ∷ calls) e =
      Moves-trans (perform-Moves call e) (perform_all-Moves calls (perform lib call e))
