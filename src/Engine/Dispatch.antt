-- ===== src/Engine/Dispatch.antt =====
-- internal/runtime/engine/engine.go: QueueNode, StartAttempt and RecordAttemptResult. Each
-- returns the engine also beside an error, since some fail after a first write.
use evalfrog.Prelude.{
  ℕ, String, Bool, true, false, not, Option, none, some, ◌==◌, if◌then◌else◌, is_some,
}
use Prim.Native.String.{◌++◌ as append}
use evalfrog.Prelude.Assoc.{lookup, insert}
use evalfrog.Json.{Stdlib}
use evalfrog.Runtime.Error.{ok, err, message, nil_dereference}
use evalfrog.Runtime.States.{AttemptState, RetryKind}
use evalfrog.Runtime.Node.{NodeRun, queue_attempt, attempt_started}
use evalfrog.Runtime.Attempt.{
  AttemptResult, NodeAttempt, result_equal, new_node_attempt, start_attempt, complete,
}
use evalfrog.Engine.State.{Engine, Outcome, done, fail, or_else, update_node, update_attempt}

-- engine.nodes[engine.attemptNodes[attemptID]]
unfoldable pub owner_id : String → Engine → String
owner_id attempt_id e = or_else "" (lookup attempt_id e.attempt_nodes)

unfoldable pub node_run_key : NodeRun → String
node_run_key node = append node.run_id (append ":" node.execution_node_id)

-- The node is written before the attempt is made, and stays written if that fails.
unfoldable pub add_attempt :
    String → String → ℕ → RetryKind → NodeRun → Engine → Outcome NodeAttempt
add_attempt node_id attempt_id sequence kind node e =
    elim (new_node_attempt attempt_id (node_run_key node) sequence kind) [
      | err x ↦ fail x e
      | ok attempt ↦ done attempt (record e {
        attempts = insert attempt_id attempt e.attempts;
        attempt_nodes = insert attempt_id node_id e.attempt_nodes;
      })
    ]

unfoldable pub queue_node : String → String → Engine → Outcome NodeAttempt
unfolding add_attempt
queue_node node_id attempt_id e =
    if is_some e.run.termination
    then fail (message "run is terminating") e
    else if is_some (lookup attempt_id e.attempts)
    then fail (message "attempt id already exists") e
    else elim (lookup node_id e.nodes) [
      | none ↦ fail (message "node does not exist") e
      | some node ↦ elim (queue_attempt attempt_id node) [
        | err x ↦ fail x e
        | ok (sequence, kind, node') ↦
            add_attempt node_id attempt_id sequence kind node' (update_node node_id node' e)
      ]
    ]

unfoldable pub is_attempt_running : AttemptState → Bool
is_attempt_running AttemptState.running = true
is_attempt_running _ = false

unfoldable pub mark_started : String → Engine → Outcome (Unit {0})
mark_started attempt_id e = elim (lookup (owner_id attempt_id e) e.nodes) [
  | none ↦ fail nil_dereference e
  | some node ↦ elim (attempt_started attempt_id node) [
    | err x ↦ fail x e
    | ok node' ↦ done tt (update_node (owner_id attempt_id e) node' e)
  ]
]

unfoldable pub begin_attempt : String → Engine → Outcome (Unit {0})
begin_attempt attempt_id e = elim (lookup attempt_id e.attempts) [
  | none ↦ fail (message "attempt does not exist") e
  | some attempt ↦
      if is_attempt_running attempt.state then done tt e else elim (start_attempt attempt) [
        | err x ↦ fail x e
        | ok attempt' ↦ mark_started attempt_id (update_attempt attempt_id attempt' e)
      ]
]

module _ (lib : Stdlib) where
  -- the attempt's recorded result is handed in beside it
  unfoldable pub record_result :
      String → AttemptResult → NodeAttempt → Option AttemptResult → Engine → Outcome Bool
  record_result attempt_id result attempt (some recorded) e =
      if result_equal lib recorded result
      then done false e
      else fail (message "attempt result conflicts with recorded terminal fact") e
  record_result attempt_id result attempt none e = elim (complete lib result attempt) [
    | err x ↦ fail x e
    | ok attempt' ↦ done true (update_attempt attempt_id attempt' e)
  ]

  unfoldable pub record_attempt_result : String → AttemptResult → Engine → Outcome Bool
  record_attempt_result attempt_id result e = elim (lookup attempt_id e.attempts) [
    | none ↦ fail (message "attempt does not exist") e
    | some attempt ↦ elim (lookup (owner_id attempt_id e) e.nodes) [
      | none ↦ fail (message "attempt node does not exist") e
      | some node ↦
          if not (node.current_attempt_id == attempt_id)
          then done false e
          else record_result attempt_id result attempt attempt.result e
    ]
  ]
