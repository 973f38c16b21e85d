-- ===== src/Engine/State.antt =====
-- internal/runtime/engine/engine.go: the engine's state and the reads and writes that its operations
-- share. The node and attempt pointers in the maps are the only references to these objects, so a
-- mutation of one is a write to the map.
use evalfrog.Prelude.{
  String, Bool, true, false, not, ◌||◌, Option, none, some, List, [], ◌∷◌, ◌==◌, if◌then◌else◌,
  nat_eq, any, all, sort_strings,
}
use evalfrog.Prelude.Assoc.{Assoc, lookup, insert, keys}
use evalfrog.Runtime.Error.{Error}
use evalfrog.Runtime.States.{
  NodeState, TerminationKind, kind_canceled, kind_timed_out, node_terminal, is_succeeded,
}
use evalfrog.Runtime.Failure.{Time, Failure, TerminationIntent}
use evalfrog.Runtime.Node.{NodeRun}
use evalfrog.Runtime.Attempt.{NodeAttempt}
use evalfrog.Runtime.Run.{WorkflowRun}
use evalfrog.Runtime.Termination.{request_termination}
use evalfrog.Runtime.Error.{ok, err}
use evalfrog.Dsl.{Document, DslNode, Edge, always, on_route, ExecutionPolicy, unknown_dsl_kind}

pub record Snapshot : Type 0 where
  pub id : String
  pub definition_hash : String
  pub dsl : Document

pub data EdgeState : Type 0 where
  edge_pending edge_active edge_inactive : EdgeState
  unknown_edge : String → EdgeState

pub record Engine : Type 0 where
  pub snapshot : Snapshot
  pub run : WorkflowRun
  pub doc : Document
  pub node_defs : Assoc DslNode
  pub nodes : Assoc NodeRun
  pub attempts : Assoc NodeAttempt
  pub attempt_nodes : Assoc String
  pub edges : Assoc EdgeState
  pub incoming : Assoc (List Edge)
  pub outgoing : Assoc (List Edge)

-- The result of an operation: a value or an error, and the engine as the operation left it.
pub data Outcome {ℓ} (A : Type ℓ) : Type ℓ where
  done : A → Engine → Outcome A
  fail : Error → Engine → Outcome A

abbrev pub engine_of {ℓ} : {A : Type ℓ} → Outcome A → Engine
engine_of (done a e) = e
engine_of (fail x e) = e

-- `m[k]` of a missing key is the zero value.
abbrev pub or_else {ℓ} : {A : Type ℓ} → A → Option A → A
or_else a none = a
or_else _ (some a) = a

abbrev pub zero_policy : ExecutionPolicy
zero_policy = record {
  max_attempts = 0;
  max_recoveries = 0;
  attempt_timeout_ms = 0;
  retry_backoff = none;
  retryable_error_codes = [];
}

abbrev pub zero_node : DslNode
zero_node = record {
  id = "";
  kind = unknown_dsl_kind "";
  operation = record { type_name = ""; version = 0; config = [] };
  inputs = [];
  outputs = [];
  execution_policy = zero_policy;
  has_nil_map = true;
}

unfoldable pub node_def : String → Engine → DslNode
node_def id e = or_else zero_node (lookup id e.node_defs)

unfoldable pub update_node : String → NodeRun → Engine → Engine
update_node id node e = record e { nodes = insert id node e.nodes }

unfoldable pub update_attempt : String → NodeAttempt → Engine → Engine
update_attempt id attempt e = record e { attempts = insert id attempt e.attempts }

unfoldable pub set_run : WorkflowRun → Engine → Engine
set_run run e = record e { run = run }

unfoldable pub sorted_node_ids : Engine → List String
sorted_node_ids e = sort_strings (keys e.nodes)

unfoldable pub collect_nodes : Assoc NodeRun → List String → List NodeRun
collect_nodes nodes [] = []
collect_nodes nodes (id ∷ ids) =
    let rest = collect_nodes nodes ids in
    elim (lookup id nodes) [ none ↦ rest | some node ↦ node ∷ rest ]

-- `sorted_node_ids` lists the keys of the map, so every look-up succeeds
unfoldable pub all_node_runs : Engine → List NodeRun
unfolding collect_nodes sorted_node_ids
all_node_runs e = collect_nodes e.nodes (sorted_node_ids e)

-- The state that an edge takes when its source node is in the given state.
unfoldable pub settled_state : NodeState → String → Edge → EdgeState
unfolding is_succeeded
settled_state state selected_route edge =
    if is_succeeded state
    then elim edge.activation.kind [
      | always ↦ edge_active
      | on_route ↦ if edge.activation.route == selected_route then edge_active else edge_inactive
      | _ ↦ edge_inactive
    ]
    else edge_inactive

unfoldable pub settle_edges : NodeState → String → List Edge → Assoc EdgeState → Assoc EdgeState
unfolding settled_state
settle_edges state route [] edges = edges
settle_edges state route (edge ∷ rest) edges =
    settle_edges state route rest (insert edge.id (settled_state state route edge) edges)

-- The source is always a node that was just read or written, so the missing case is never taken.
unfoldable pub settle_outgoing : String → String → Engine → Engine
unfolding settle_edges
settle_outgoing source route e = elim (lookup source e.nodes) [
  | none ↦ e
  | some node ↦ record e {
    edges = settle_edges node.state route (or_else [] (lookup source e.outgoing)) e.edges;
  }
]

unfoldable pub edge_state : String → Engine → EdgeState
edge_state id e = or_else (unknown_edge "") (lookup id e.edges)

unfoldable pub is_edge_pending : EdgeState → Bool
is_edge_pending edge_pending = true
is_edge_pending _ = false

unfoldable pub is_edge_active : EdgeState → Bool
is_edge_active edge_active = true
is_edge_active _ = false

unfoldable pub all_incoming_settled : String → Engine → Bool
unfolding all edge_state is_edge_pending
all_incoming_settled id e =
    all (λ edge. not (is_edge_pending (edge_state edge.id e))) (or_else [] (lookup id e.incoming))

unfoldable pub any_incoming_active : String → Engine → Bool
unfolding any edge_state is_edge_active
any_incoming_active id e =
    any (λ edge. is_edge_active (edge_state edge.id e)) (or_else [] (lookup id e.incoming))

unfoldable pub all_nodes_terminal : Engine → Bool
unfolding all node_terminal
all_nodes_terminal e = all (λ entry. node_terminal entry.1.state) e.nodes

unfoldable pub all_other_nodes_terminal : String → Engine → Bool
unfolding all node_terminal
all_other_nodes_terminal except e =
    all (λ entry. entry.0 == except || node_terminal entry.1.state) e.nodes

unfoldable pub engine_failure :
    Engine → String → String → String → String → String → String → Failure
engine_failure e code phase text node_id attempt_id field = record {
  code = code;
  phase = phase;
  retryable = false;
  run_id = e.run.id;
  snapshot_id = e.snapshot.id;
  definition_hash = e.snapshot.definition_hash;
  execution_node_id = node_id;
  dsl_field = field;
  execution_edge_id = "";
  attempt_id = attempt_id;
  expected = "";
  actual = "";
  message = text;
  details = none;
}

unfoldable pub cancel_reason_of : TerminationKind → String
cancel_reason_of kind_canceled = "RUN_CANCELED"
cancel_reason_of kind_timed_out = "RUN_TIMED_OUT"
cancel_reason_of _ = "NODE_FAILED"

unfoldable pub at_or_created : Time → WorkflowRun → Time
at_or_created at run = if not (nat_eq at 0) then at else run.created_at

-- `_, _ = engine.run.RequestTermination(intent)`: an error and a lost race change nothing.
unfoldable pub note_termination : TerminationIntent → Engine → Engine
unfolding set_run
note_termination intent e = elim (request_termination intent e.run) [
  | ok (applied, run) ↦ set_run run e
  | err x ↦ e
]
