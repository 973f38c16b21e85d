-- ===== src/Engine/Moves.antt =====
-- The engine's abstract machine: the smallest writes of which every operation of
-- internal/runtime/engine/engine.go is composed, each a legal step of one aggregate.
use evalfrog.Prelude.{ℕ, ◌<◌, String, ◌≡◌, Bool, none, some}
use evalfrog.Prelude.Assoc.{lookup, insert}
use evalfrog.Json.{RawMessage, Stdlib}
use evalfrog.Runtime.Error.{ok}
use evalfrog.Runtime.States.{RetryKind, business_retry, recovery}
use evalfrog.Runtime.Failure.{Time, TerminationIntent}
use evalfrog.Runtime.Node.{NodeRun, retry_wait}
use evalfrog.Runtime.NodeMoves.{NodeMove}
use evalfrog.Runtime.Attempt.{NodeAttempt, new_node_attempt}
use evalfrog.Runtime.AttemptInvariant.{AttemptMove}
use evalfrog.Runtime.Run.{WorkflowRun}
use evalfrog.Runtime.Termination.{request_termination}
use evalfrog.Runtime.Completion.{complete_termination, complete_workflow_success}
use evalfrog.Dsl.{ExecutionPolicy}
use evalfrog.Engine.State.{
  Engine, node_def, update_node, update_attempt, set_run, settle_outgoing, all_node_runs,
}

-- the execution policy under which a node runs
abbrev pub policy_of : NodeRun → Engine → ExecutionPolicy
policy_of n e = (node_def n.execution_node_id e).execution_policy

-- A retry of this kind is still within the policy.
abbrev pub HasRoom : RetryKind → NodeRun → ExecutionPolicy → Type 0
HasRoom business_retry n policy = n.business_attempt_count < policy.max_attempts
HasRoom recovery n policy = n.recovery_count < policy.max_recoveries
HasRoom _ n policy = ⊥

pub data Move (lib : Stdlib) (e e' : Engine) : Type 0 where
  moves_node :
      (id : String) (n n' : NodeRun)
      → lookup id e.nodes ≡ some n
      → NodeMove n n'
      → e' ≡ update_node id n' e
      → Move lib e e'
  retries_node :
      (id : String) (n n' : NodeRun) (a : String) (kind : RetryKind) (due : Time)
      → lookup id e.nodes ≡ some n
      → HasRoom kind n (policy_of n e)
      → retry_wait a kind due n ≡ ok n'
      → e' ≡ update_node id n' e
      → Move lib e e'
  settles : (id route : String) → e' ≡ settle_outgoing id route e → Move lib e e'
  requests :
      (intent : TerminationIntent) (applied : Bool) (run : WorkflowRun)
      → request_termination intent e.run ≡ ok (applied, run)
      → e' ≡ set_run run e
      → Move lib e e'
  terminates :
      (run : WorkflowRun)
      → complete_termination (all_node_runs e) e.run ≡ ok run
      → e' ≡ set_run run e
      → Move lib e e'
  completes :
      (id : String) (n n' : NodeRun) (output : RawMessage) (run : WorkflowRun)
      → lookup id e.nodes ≡ some n
      → complete_workflow_success lib (all_node_runs e) output e.run n ≡ ok (run, n')
      → e' ≡ set_run run (update_node id n' e)
      → Move lib e e'
  moves_attempt :
      (id : String) (a a' : NodeAttempt)
      → lookup id e.attempts ≡ some a
      → AttemptMove lib a a'
      → e' ≡ update_attempt id a' e
      → Move lib e e'
  adds_attempt :
      (id node_id key : String) (sequence : ℕ) (kind : RetryKind) (a : NodeAttempt)
      → lookup id e.attempts ≡ none
      → new_node_attempt id key sequence kind ≡ ok a
      → e' ≡ record e {
        attempts = insert id a e.attempts;
        attempt_nodes = insert id node_id e.attempt_nodes;
      }
      → Move lib e e'

pub data Moves (lib : Stdlib) (e : Engine) : Engine → Type 0 where
  here : Moves lib e e
  next : {f g : Engine} → Moves lib e f → Move lib f g → Moves lib e g

pub Moves-trans : {lib : Stdlib} {e f g : Engine} → Moves lib e f → Moves lib f g → Moves lib e g
Moves-trans r here = r
Moves-trans r (next s m) = next (Moves-trans r s) m

pub one : {lib : Stdlib} {e f : Engine} → Move lib e f → Moves lib e f
one m = next here m
