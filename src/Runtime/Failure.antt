-- ===== src/Runtime/Failure.antt =====
-- internal/runtime/model.go: Failure, TerminationIntent and the run's immutable definition.
-- A time is the nanoseconds since Go's zero time, so `IsZero` is a test for 0. The copies that
-- clone functions make are the values themselves: nothing in the model is shared.
use evalfrog.Prelude.{ℕ, String, Bool}
use evalfrog.Json.{Details}
use evalfrog.Runtime.States.{TerminationKind, DefinitionSource}

abbrev pub Time : Type 0
Time = ℕ

pub record DefinitionReference : Type 0 where
  pub snapshot_id : String
  pub definition_hash : String
  pub source : DefinitionSource
  pub published_version_id : String

pub record Failure : Type 0 where
  pub code : String
  pub phase : String
  pub retryable : Bool
  pub run_id : String
  pub snapshot_id : String
  pub definition_hash : String
  pub execution_node_id : String
  pub dsl_field : String
  pub execution_edge_id : String
  pub attempt_id : String
  pub expected : String
  pub actual : String
  pub message : String
  pub details : Details

pub record TerminationIntent : Type 0 where
  pub kind : TerminationKind
  pub requested_at : Time
  pub cause : Failure
