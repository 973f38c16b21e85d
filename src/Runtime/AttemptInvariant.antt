-- ===== src/Runtime/AttemptInvariant.antt =====
-- The invariant of a NodeAttempt between two operations, and its way through a database record:
-- internal/runtime/model.go and records.go.
use evalfrog.Prelude.{
  ℕ, String, ◌≡◌, ◌≢◌, true, false, Option, none, some, eq_refl, arith, is_blank, nat_eq,
}
use evalfrog.Json.{Stdlib}
use evalfrog.Runtime.Error.{ok}
use evalfrog.Runtime.States.{RetryKind, AttemptState, attempt_terminal, attempt_state_text}
use evalfrog.Runtime.Attempt.{
  AttemptResult, NodeAttempt, is_known_retry, new_node_attempt, start_attempt, complete,
}
use evalfrog.Runtime.Records.{snapshot_attempt, restore_node_attempt, is_known_attempt_state}

-- a result is recorded exactly in a terminal state, and is in that state
abbrev pub ResultAgrees : AttemptState → Option AttemptResult → Type 0
ResultAgrees state none = attempt_terminal state ≡ false
ResultAgrees state (some result) = (attempt_terminal state ≡ true) × (result.state ≡ state)

pub record AttemptInv (a : NodeAttempt) : Type 0 where
  pub named : is_blank a.id ≡ false
  pub owned : is_blank a.node_run_id ≡ false
  pub numbered : nat_eq a.sequence 0 ≡ false
  pub known_kind : is_known_retry a.kind ≡ true
  pub known_state : is_known_attempt_state a.state ≡ true
  pub agrees : ResultAgrees a.state a.result

pub data AttemptMove (lib : Stdlib) (a a' : NodeAttempt) : Type 0 where
  begins : start_attempt a ≡ ok a' → AttemptMove lib a a'
  completes :
      (result : AttemptResult)
      → a.result ≡ none
      → complete lib result a ≡ ok a'
      → AttemptMove lib a a'

pub new_node_attempt-AttemptInv :
    (id key : String) (sequence : ℕ) (kind : RetryKind) {a : NodeAttempt}
    → new_node_attempt id key sequence kind ≡ ok a
    → AttemptInv a
unfolding new_node_attempt is_known_attempt_state attempt_terminal
new_node_attempt-AttemptInv id key sequence kind h = ground arith

start_attempt-AttemptInv :
    (a : NodeAttempt) {a' : NodeAttempt} → AttemptInv a → start_attempt a ≡ ok a' → AttemptInv a'
unfolding start_attempt is_known_attempt_state attempt_terminal
start_attempt-AttemptInv a v h = ground arith

complete-AttemptInv :
    (lib : Stdlib) (result : AttemptResult) (a : NodeAttempt) {a' : NodeAttempt}
    → AttemptInv a
    → complete lib result a ≡ ok a'
    → AttemptInv a'
unfolding complete is_known_attempt_state attempt_terminal
complete-AttemptInv lib result a v h = ground arith

-- Start keeps the invariant of an attempt, and so does Complete on an attempt without a result.
pub AttemptMove-AttemptInv :
    (lib : Stdlib) {a a' : NodeAttempt} → AttemptInv a → AttemptMove lib a a' → AttemptInv a'
AttemptMove-AttemptInv lib {a} v (begins h) = start_attempt-AttemptInv a v h
AttemptMove-AttemptInv lib {a} v (completes result e h) = complete-AttemptInv lib result a v h

-- An attempt for which the invariant holds and whose version is not 0 is restored from its record
-- exactly as it is.
pub restore-snapshot_attempt :
    (a : NodeAttempt)
    → AttemptInv a
    → a.state_version ≢ 0
    → restore_node_attempt (snapshot_attempt a) ≡ ok a
unfolding restore_node_attempt snapshot_attempt
restore-snapshot_attempt a v h = ground (arith, eq_refl (attempt_state_text a.state))
