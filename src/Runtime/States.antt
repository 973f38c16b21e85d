-- ===== src/Runtime/States.antt =====
-- The closed sets of internal/runtime/model.go and the transition tables of transitions.go.
-- The source's types are strings, so each has a last constructor for a text that is none of the
-- constants, which can come from a database row or a message.
use evalfrog.Prelude.{String, Bool, true, false, ◌==◌}

pub data RunPurpose : Type 0 where
  test production : RunPurpose
  unknown_purpose : String → RunPurpose

pub data DefinitionSource : Type 0 where
  draft_snapshot published_version : DefinitionSource
  unknown_source : String → DefinitionSource

pub data TerminationKind : Type 0 where
  kind_failed kind_canceled kind_timed_out : TerminationKind
  unknown_termination : String → TerminationKind

pub data NodeKind : Type 0 where
  control task : NodeKind
  unknown_kind : String → NodeKind

pub data RetryKind : Type 0 where
  initial business_retry recovery : RetryKind
  unknown_retry : String → RetryKind

pub data RunState : Type 0 where
  pending running succeeded failed canceled timed_out : RunState
  unknown : String → RunState

pub data NodeState : Type 0 where
  pending ready queued running retry_wait succeeded failed timed_out skipped canceled : NodeState
  unknown : String → NodeState

pub data AttemptState : Type 0 where
  queued running succeeded failed timed_out canceled lost : AttemptState
  unknown : String → AttemptState

unfoldable pub run_terminal : RunState → Bool
run_terminal RunState.succeeded = true
run_terminal RunState.failed = true
run_terminal RunState.canceled = true
run_terminal RunState.timed_out = true
run_terminal _ = false

unfoldable pub node_terminal : NodeState → Bool
node_terminal NodeState.succeeded = true
node_terminal NodeState.failed = true
node_terminal NodeState.timed_out = true
node_terminal NodeState.skipped = true
node_terminal NodeState.canceled = true
node_terminal _ = false

unfoldable pub attempt_terminal : AttemptState → Bool
attempt_terminal AttemptState.succeeded = true
attempt_terminal AttemptState.failed = true
attempt_terminal AttemptState.timed_out = true
attempt_terminal AttemptState.canceled = true
attempt_terminal AttemptState.lost = true
attempt_terminal _ = false

unfoldable pub valid_run_transition : RunState → RunState → Bool
valid_run_transition RunState.pending to = elim to [
  | RunState.running ↦ true
  | RunState.canceled ↦ true
  | RunState.timed_out ↦ true
  | _ ↦ false
]
valid_run_transition RunState.running to = elim to [
  | RunState.succeeded ↦ true
  | RunState.failed ↦ true
  | RunState.canceled ↦ true
  | RunState.timed_out ↦ true
  | _ ↦ false
]
valid_run_transition _ to = false

-- `kind == NodeControl` has a table of its own: a control node goes from pending to its outcome.
valid_control_transition : NodeState → NodeState → Bool
valid_control_transition NodeState.pending to = elim to [
  | NodeState.succeeded ↦ true
  | NodeState.failed ↦ true
  | NodeState.skipped ↦ true
  | NodeState.canceled ↦ true
  | _ ↦ false
]
valid_control_transition _ to = false

valid_task_transition : NodeState → NodeState → Bool
valid_task_transition NodeState.pending to = elim to [
  | NodeState.ready ↦ true
  | NodeState.failed ↦ true
  | NodeState.skipped ↦ true
  | NodeState.canceled ↦ true
  | _ ↦ false
]
valid_task_transition NodeState.ready to = elim to [
  | NodeState.queued ↦ true
  | NodeState.canceled ↦ true
  | _ ↦ false
]
valid_task_transition NodeState.queued to = elim to [
  | NodeState.running ↦ true
  | NodeState.canceled ↦ true
  | _ ↦ false
]
valid_task_transition NodeState.running to = elim to [
  | NodeState.retry_wait ↦ true
  | NodeState.succeeded ↦ true
  | NodeState.failed ↦ true
  | NodeState.timed_out ↦ true
  | NodeState.canceled ↦ true
  | _ ↦ false
]
valid_task_transition NodeState.retry_wait to = elim to [
  | NodeState.ready ↦ true
  | NodeState.canceled ↦ true
  | _ ↦ false
]
valid_task_transition _ to = false

unfoldable pub valid_node_transition : NodeKind → NodeState → NodeState → Bool
unfolding valid_control_transition valid_task_transition
valid_node_transition control from to = valid_control_transition from to
valid_node_transition _ from to = valid_task_transition from to

unfoldable pub valid_attempt_transition : AttemptState → AttemptState → Bool
valid_attempt_transition AttemptState.queued to = elim to [
  | AttemptState.running ↦ true
  | AttemptState.canceled ↦ true
  | _ ↦ false
]
valid_attempt_transition AttemptState.running to = elim to [
  | AttemptState.succeeded ↦ true
  | AttemptState.failed ↦ true
  | AttemptState.timed_out ↦ true
  | AttemptState.canceled ↦ true
  | AttemptState.lost ↦ true
  | _ ↦ false
]
valid_attempt_transition _ to = false

-- The texts of the constants, which errors carry.
unfoldable pub run_state_text : RunState → String
run_state_text RunState.pending = "pending"
run_state_text RunState.running = "running"
run_state_text RunState.succeeded = "succeeded"
run_state_text RunState.failed = "failed"
run_state_text RunState.canceled = "canceled"
run_state_text RunState.timed_out = "timed_out"
run_state_text (RunState.unknown s) = s

unfoldable pub node_state_text : NodeState → String
node_state_text NodeState.pending = "pending"
node_state_text NodeState.ready = "ready"
node_state_text NodeState.queued = "queued"
node_state_text NodeState.running = "running"
node_state_text NodeState.retry_wait = "retry_wait"
node_state_text NodeState.succeeded = "succeeded"
node_state_text NodeState.failed = "failed"
node_state_text NodeState.timed_out = "timed_out"
node_state_text NodeState.skipped = "skipped"
node_state_text NodeState.canceled = "canceled"
node_state_text (NodeState.unknown s) = s

unfoldable pub attempt_state_text : AttemptState → String
attempt_state_text AttemptState.queued = "queued"
attempt_state_text AttemptState.running = "running"
attempt_state_text AttemptState.succeeded = "succeeded"
attempt_state_text AttemptState.failed = "failed"
attempt_state_text AttemptState.timed_out = "timed_out"
attempt_state_text AttemptState.canceled = "canceled"
attempt_state_text AttemptState.lost = "lost"
attempt_state_text (AttemptState.unknown s) = s

-- Tests for one constant.
unfoldable pub is_pending : NodeState → Bool
is_pending NodeState.pending = true
is_pending _ = false

unfoldable pub is_succeeded : NodeState → Bool
is_succeeded NodeState.succeeded = true
is_succeeded _ = false

unfoldable pub is_task : NodeKind → Bool
is_task task = true
is_task _ = false

unfoldable pub is_control : NodeKind → Bool
is_control control = true
is_control _ = false

-- `kind == TerminationFailed` and the like are clauses where they occur; states of attempts are
-- compared as texts by AttemptResult.Equal.
unfoldable pub attempt_state_eq : AttemptState → AttemptState → Bool
unfolding attempt_state_text
attempt_state_eq a b = attempt_state_text a == attempt_state_text b
