-- ===== src/Engine/OperationMoves.antt =====
-- The operations of internal/runtime/engine/engine.go other than drive and the abstract machine: lemmas
-- on the engine that each leaves, with a result or an error.
use evalfrog.Prelude.{
  ℕ, String, ◌≡◌, refl, subst, not, ◌&&◌, ◌||◌, Option, none, some, inl, inr, Bool-cases,
  Option-cases, &&-true, ltb→lt, is_some, ltb, nat_eq, ◌==◌,
}
use evalfrog.Prelude.Assoc.{lookup}
use evalfrog.Json.{Stdlib}
use evalfrog.Runtime.Error.{Result, ok, err, Result-cases, ok-injective}
use evalfrog.Runtime.States.{
  NodeState, AttemptState, RetryKind, business_retry, recovery, TerminationKind,
}
use evalfrog.Runtime.Failure.{Time, Failure, TerminationIntent}
use evalfrog.Runtime.Node.{
  NodeRun, Values, queue_attempt, attempt_started, retry_wait, succeed_attempt, cancel,
}
use evalfrog.Runtime.NodeMoves.{NodeMove, queues, starts, succeeds, fails, cancels}
use evalfrog.Runtime.Attempt.{
  AttemptResult, NodeAttempt, new_node_attempt, start_attempt, complete, result_equal,
}
use evalfrog.Runtime.AttemptInvariant.{begins, completes}
use evalfrog.Engine.State.{Engine, engine_of, node_def, update_node, cancel_reason_of}
use evalfrog.Engine.Inputs.{validate_outputs}
use evalfrog.Engine.Dispatch.{
  owner_id, node_run_key, add_attempt, queue_node, is_attempt_running, mark_started, begin_attempt,
  record_result, record_attempt_result,
}
use evalfrog.Engine.Completed.{
  retryable, retry_due_at, is_resting, accept_success, cancel_and_drive, handle_intended, fail_run,
  wait_for_retry, handle_terminating, handle_success, handle_lost, handle_failed, handle_result,
  handle_current, handle_attempt_completed,
}
use evalfrog.Engine.Moves.{
  moves_node, retries_node, settles, moves_attempt, adds_attempt, Moves, here, next, Moves-trans,
  one, HasRoom, policy_of,
}
use evalfrog.Engine.DriveMoves.{drive-Moves, note_termination-Moves}

module _ (lib : Stdlib) where
  add_attempt-Moves :
      (node_id id : String) (sequence : ℕ) (kind : RetryKind) (n : NodeRun) (e : Engine)
      → lookup id e.attempts ≡ none
      → Moves lib e (engine_of (add_attempt node_id id sequence kind n e))
  unfolding add_attempt
  add_attempt-Moves node_id id sequence kind n e fresh =
      elim (Result-cases (new_node_attempt id (node_run_key n) sequence kind)) [
        | inl (a, h) ↦
            rw (h, engine_of) (one (adds_attempt id node_id _ sequence kind a fresh h refl))
        | inr (x, h) ↦ rw (h, engine_of) here
      ]

  pub queue_node-Moves :
      (node_id id : String) (e : Engine) → Moves lib e (engine_of (queue_node node_id id e))
  unfolding queue_node update_node
  queue_node-Moves node_id id e = elim (Bool-cases (is_some e.run.termination)) [
    | inl t ↦ rw (t, engine_of) here
    | inr t ↦
        rw (t, engine_of)
          (elim (Option-cases (lookup id e.attempts)) [
            | inr (a, old) ↦ rw (old, engine_of) here
            | inl fresh ↦ simp fresh (elim (Option-cases (lookup node_id e.nodes)) [
              | inl h ↦ rw (h, engine_of) here
              | inr (n, h) ↦
                  rw (h, engine_of)
                    (elim (Result-cases (queue_attempt id n)) [
                      | inr (x, k) ↦ rw (k, engine_of) here
                      | inl ((sequence, kind, n'), k) ↦
                          rw (k, engine_of)
                            (Moves-trans
                              (one (moves_node node_id n n' h (queues id sequence kind k) refl))
                              (add_attempt-Moves node_id id sequence kind n'
                                (update_node node_id n' e) fresh))
                    ])
            ])
          ])
  ]

  mark_started-Moves : (id : String) (e : Engine) → Moves lib e (engine_of (mark_started id e))
  unfolding mark_started
  mark_started-Moves id e = elim (Option-cases (lookup (owner_id id e) e.nodes)) [
    | inl h ↦ rw (h, engine_of) here
    | inr (n, h) ↦
        rw (h, engine_of)
          (elim (Result-cases (attempt_started id n)) [
            | inl (n', k) ↦ rw (k, engine_of) (one (moves_node _ n n' h (starts id k) refl))
            | inr (x, k) ↦ rw (k, engine_of) here
          ])
  ]

  pub begin_attempt-Moves :
      (id : String) (e : Engine) → Moves lib e (engine_of (begin_attempt id e))
  unfolding begin_attempt
  begin_attempt-Moves id e = elim (Option-cases (lookup id e.attempts)) [
    | inl h ↦ rw (h, engine_of) here
    | inr (a, h) ↦
        rw (h, engine_of)
          (elim (Bool-cases (is_attempt_running a.state)) [
            | inl r ↦ rw (r, engine_of) here
            | inr r ↦
                rw (r, engine_of)
                  (elim (Result-cases (start_attempt a)) [
                    | inl (a', k) ↦
                        rw (k, engine_of)
                          (Moves-trans (one (moves_attempt id a a' h (begins k) refl))
                            (mark_started-Moves id _))
                    | inr (x, k) ↦ rw (k, engine_of) here
                  ])
          ])
  ]

  record_result-Moves :
      (id : String) (result : AttemptResult) (a : NodeAttempt) (o : Option AttemptResult)
      (e : Engine)
      → lookup id e.attempts ≡ some a
      → a.result ≡ o
      → Moves lib e (engine_of (record_result lib id result a o e))
  unfolding record_result
  record_result-Moves id result a (some recorded) e found h =
      elim (Bool-cases (result_equal lib recorded result)) [
        | inl q ↦ rw (q, engine_of) here
        | inr q ↦ rw (q, engine_of) here
      ]
  record_result-Moves id result a none e found h = elim (Result-cases (complete lib result a)) [
    | inl (a', k) ↦
        rw (k, engine_of) (one (moves_attempt id a a' found (completes result h k) refl))
    | inr (x, k) ↦ rw (k, engine_of) here
  ]

  pub record_attempt_result-Moves :
      (id : String) (result : AttemptResult) (e : Engine)
      → Moves lib e (engine_of (record_attempt_result lib id result e))
  unfolding record_attempt_result
  record_attempt_result-Moves id result e = elim (Option-cases (lookup id e.attempts)) [
    | inl h ↦ rw (h, engine_of) here
    | inr (a, h) ↦
        rw (h, engine_of)
          (elim (Option-cases (lookup (owner_id id e) e.nodes)) [
            | inl k ↦ rw (k, engine_of) here
            | inr (n, k) ↦
                rw (k, engine_of)
                  (elim (Bool-cases (n.current_attempt_id == id)) [
                    | inl c ↦ rw (c, engine_of) (record_result-Moves id result a a.result e h refl)
                    | inr c ↦ rw (c, engine_of) here
                  ])
          ])
  ]

  module _ (at : Time) (id node_id : String) where
    accept_success-Moves :
        (outputs : Values) (n : NodeRun) (e : Engine) {f : Engine}
        → lookup node_id e.nodes ≡ some n
        → accept_success lib at id node_id outputs n e ≡ ok f
        → Moves lib e f
    unfolding accept_success
    accept_success-Moves outputs n e {f} found =
        let definition = node_def n.execution_node_id e in
        elim (Result-cases (validate_outputs lib definition outputs)) [
          | inr (x, h) ↦ rw (h, accept_success) (λ q. absurd (cc q))
          | inl (u, h) ↦
              rw (h, accept_success)
                (elim (Result-cases (succeed_attempt id outputs n)) [
                  | inr (x, k) ↦ rw (k, accept_success) (λ q. absurd (cc q))
                  | inl (n', k) ↦
                      rw (k, accept_success)
                        (λ q. subst (Moves lib e) (ok-injective q) (
                          next (one (moves_node node_id n n' found (succeeds id outputs k) refl))
                            (settles definition.id "" refl)))
                ])
        ]

    fail_run-Moves :
        (f : Failure) (r : Result NodeRun) (n : NodeRun) (e : Engine)
        → lookup node_id e.nodes ≡ some n
        → ((n' : NodeRun) → r ≡ ok n' → NodeMove n n')
        → Moves lib e (engine_of (fail_run lib at id node_id f r e))
    unfolding fail_run
    fail_run-Moves f (err x) n e found move = here
    fail_run-Moves f (ok n') n e found move =
        Moves-trans
          (Moves-trans (one (moves_node node_id n n' found (move n' refl) refl))
            (note_termination-Moves lib _ (update_node node_id n' e)))
          (drive-Moves lib at _)

    wait_for_retry-Moves :
        (kind : RetryKind) (n : NodeRun) (e : Engine)
        → lookup node_id e.nodes ≡ some n
        → HasRoom kind n (policy_of n e)
        → Moves lib e (engine_of (wait_for_retry lib at id node_id kind n e))
    unfolding wait_for_retry
    wait_for_retry-Moves kind n e found room =
        elim (Option-cases (retry_due_at at (policy_of n e))) [
          | inl h ↦ rw (h, engine_of) here
          | inr (due, h) ↦
              rw (h, engine_of)
                (elim (Result-cases (retry_wait id kind due n)) [
                  | inr (x, k) ↦ rw (k, engine_of) here
                  | inl (n', k) ↦
                      rw (k, engine_of)
                        (one (retries_node node_id n n' id kind due found room k refl))
                ])
        ]

    cancel_and_drive-Moves :
        (kind : TerminationKind) (n : NodeRun) (e : Engine)
        → lookup node_id e.nodes ≡ some n
        → Moves lib e (engine_of (cancel_and_drive lib at id node_id kind n e))
    unfolding cancel_and_drive
    cancel_and_drive-Moves kind n e found = elim (Result-cases (cancel (cancel_reason_of kind) n)) [
      | inr (x, h) ↦ rw (h, engine_of) here
      | inl (n', h) ↦
          rw (h, engine_of)
            (Moves-trans (one (moves_node node_id n n' found (cancels _ h) refl))
              (drive-Moves lib at _))
    ]

    handle_terminating-Moves :
        (kind : TerminationKind) (state : AttemptState) (result : AttemptResult) (n : NodeRun)
        (e : Engine)
        → lookup node_id e.nodes ≡ some n
        → Moves lib e (engine_of (handle_terminating lib at id node_id kind state result n e))
    unfolding handle_terminating
    handle_terminating-Moves kind AttemptState.succeeded result n e found =
        elim (Result-cases (accept_success lib at id node_id result.outputs n e)) [
          | inr (x, h) ↦ rw (h, engine_of) (cancel_and_drive-Moves kind n e found)
          | inl (f, h) ↦
              rw (h, engine_of)
                (Moves-trans (accept_success-Moves result.outputs n e found h)
                  (drive-Moves lib at f))
        ]
    handle_terminating-Moves kind _ result n e found = cancel_and_drive-Moves kind n e found

    handle_success-Moves :
        (result : AttemptResult) (n : NodeRun) (e : Engine)
        → lookup node_id e.nodes ≡ some n
        → Moves lib e (engine_of (handle_success lib at id node_id result n e))
    unfolding handle_success
    handle_success-Moves result n e found =
        elim (Result-cases (accept_success lib at id node_id result.outputs n e)) [
          | inr (x, h) ↦
              rw (h, engine_of)
                (fail_run-Moves _ _ n e found (λ n' k. fails id NodeState.failed _ k))
          | inl (f, h) ↦
              rw (h, engine_of)
                (Moves-trans (accept_success-Moves result.outputs n e found h)
                  (drive-Moves lib at f))
        ]

    handle_lost-Moves :
        (result : AttemptResult) (n : NodeRun) (e : Engine)
        → lookup node_id e.nodes ≡ some n
        → Moves lib e (engine_of (handle_lost lib at id node_id result n e))
    unfolding handle_lost
    handle_lost-Moves result n e found =
        elim (Bool-cases (ltb n.recovery_count (policy_of n e).max_recoveries)) [
          | inl b ↦
              rw (b, engine_of)
                (wait_for_retry-Moves recovery n e found
                  (ltb→lt n.recovery_count (policy_of n e).max_recoveries b))
          | inr b ↦
              rw (b, engine_of)
                (fail_run-Moves _ _ n e found (λ n' k. fails id NodeState.failed _ k))
        ]

    handle_failed-Moves :
        (target : NodeState) (code : String) (result : AttemptResult) (n : NodeRun) (e : Engine)
        → lookup node_id e.nodes ≡ some n
        → Moves lib e (engine_of (handle_failed lib at id node_id target code result n e))
    unfolding handle_failed
    handle_failed-Moves target code result n e found =
        elim (Bool-cases (
          retryable (policy_of n e) result.error_code
          && ltb n.business_attempt_count (policy_of n e).max_attempts)) [
            | inl b ↦
                rw (b, engine_of)
                  (wait_for_retry-Moves business_retry n e found (
                    ltb→lt n.business_attempt_count (policy_of n e).max_attempts (&&-true _ _ b).1))
            | inr b ↦ rw (b, engine_of) (fail_run-Moves _ _ n e found (λ n' k. fails id target _ k))
          ]

    handle_result-Moves :
        (state : AttemptState) (result : AttemptResult) (n : NodeRun) (e : Engine)
        → lookup node_id e.nodes ≡ some n
        → Moves lib e (engine_of (handle_result lib at id node_id state result n e))
    unfolding handle_result
    handle_result-Moves AttemptState.succeeded result n e found =
        handle_success-Moves result n e found
    handle_result-Moves AttemptState.lost result n e found = handle_lost-Moves result n e found
    handle_result-Moves AttemptState.failed result n e found =
        handle_failed-Moves NodeState.failed _ result n e found
    handle_result-Moves AttemptState.timed_out result n e found =
        handle_failed-Moves NodeState.timed_out _ result n e found
    handle_result-Moves AttemptState.canceled result n e found =
        fail_run-Moves _ _ n e found (λ n' k. cancels _ k)
    handle_result-Moves _ result n e found = here

  handle_intended-Moves :
      (o : Option TerminationIntent) (at : Time) (id node_id : String) (result : AttemptResult)
      (n : NodeRun) (e : Engine)
      → lookup node_id e.nodes ≡ some n
      → Moves lib e (engine_of (handle_intended lib o at id node_id result n e))
  unfolding handle_intended
  handle_intended-Moves (some intent) at id node_id result n e found =
      handle_terminating-Moves at id node_id intent.kind result.state result n e found
  handle_intended-Moves none at id node_id result n e found =
      handle_result-Moves at id node_id result.state result n e found

  handle_current-Moves :
      (at : Time) (id node_id : String) (result : AttemptResult) (n : NodeRun) (e : Engine)
      → lookup node_id e.nodes ≡ some n
      → Moves lib e (engine_of (handle_current lib at id node_id result n e))
  unfolding handle_current
  handle_current-Moves at id node_id result n e found =
      elim (Bool-cases (not (n.current_attempt_id == id) || is_resting n.state)) [
        | inl b ↦ rw (b, engine_of) here
        | inr b ↦
            rw (b, engine_of)
              (handle_intended-Moves e.run.termination at id node_id result n e found)
      ]

  pub handle_attempt_completed-Moves :
      (id : String) (at : Time) (e : Engine)
      → Moves lib e (engine_of (handle_attempt_completed lib id at e))
  unfolding handle_attempt_completed
  handle_attempt_completed-Moves id at e = elim (Option-cases (lookup id e.attempts)) [
    | inl h ↦ rw (h, engine_of) here
    | inr (a, h) ↦
        rw (h, engine_of)
          (elim (Bool-cases (nat_eq at 0)) [
            | inl b ↦ rw (b, engine_of) here
            | inr b ↦
                rw (b, engine_of)
                  (elim (Bool-cases (ltb at e.run.created_at)) [
                    | inl c ↦ rw (c, engine_of) here
                    | inr c ↦
                        rw (c, engine_of)
                          (elim (Option-cases a.result) [
                            | inl r ↦ rw (r, engine_of) here
                            | inr (result, r) ↦
                                rw (r, engine_of)
                                  (elim (Option-cases (lookup (owner_id id e) e.nodes)) [
                                    | inl k ↦ rw (k, engine_of) here
                                    | inr (n, k) ↦
                                        rw (k, engine_of)
                                          (handle_current-Moves at id (owner_id id e) result n e k)
                                  ])
                          ])
                  ])
          ])
  ]
