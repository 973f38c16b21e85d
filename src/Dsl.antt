-- ===== src/Dsl.antt =====
-- internal/dsl/model.go: the immutable document that the engine interprets. Maps are association
-- lists, and their order stands for the order in which Go happens to iterate.
pub mod Issue
pub mod Names
pub mod Contract
pub mod Ports
pub mod Config
pub mod Builtin
pub mod Graph
pub mod Validate
pub mod Compatibility
pub mod Accepted
pub mod Fuel
pub mod Reach
pub mod Paths
pub mod Connected
pub mod Bindings
use evalfrog.Prelude.{ℕ, String, Bool, true, false, ◌&&◌, ◌||◌, Option, List, ◌==◌, nat_eq}
use evalfrog.Prelude.Assoc.{Assoc}
use evalfrog.Json.{RawMessage}

pub data DataType : Type 0 where
  string_type integer number boolean object array : DataType
  unknown_type : String → DataType

pub data DslKind : Type 0 where
  control_kind task_kind : DslKind
  unknown_dsl_kind : String → DslKind

pub data BindingKind : Type 0 where
  literal node_output : BindingKind
  unknown_binding : String → BindingKind

pub data ActivationKind : Type 0 where
  always on_route : ActivationKind
  unknown_activation : String → ActivationKind

pub record OutputReference : Type 0 where
  pub node_id : String
  pub name : String

pub record InputBinding : Type 0 where
  pub kind : BindingKind
  pub data_type : DataType
  pub value : RawMessage
  pub output : Option OutputReference

pub record Operation : Type 0 where
  pub type_name : String
  pub version : ℕ  -- uint32
  pub config : Assoc RawMessage

pub record RetryBackoff : Type 0 where
  pub kind : String
  pub delay_ms : ℕ  -- uint64

pub record ExecutionPolicy : Type 0 where
  pub max_attempts : ℕ  -- uint32
  pub max_recoveries : ℕ  -- uint32
  pub attempt_timeout_ms : ℕ  -- uint64
  pub retry_backoff : Option RetryBackoff
  pub retryable_error_codes : List String

pub record DslNode : Type 0 where
  pub id : String
  pub kind : DslKind
  pub operation : Operation
  pub inputs : Assoc InputBinding
  pub outputs : Assoc DataType
  pub execution_policy : ExecutionPolicy
  -- one of the maps config, inputs and outputs is nil, which only the validator asks for
  pub has_nil_map : Bool

pub record Activation : Type 0 where
  pub kind : ActivationKind
  pub route : String

pub record Edge : Type 0 where
  pub id : String
  pub source_node_id : String
  pub target_node_id : String
  pub activation : Activation

pub record Document : Type 0 where
  pub dsl_version : String
  pub entry_node_id : String
  pub exit_node_id : String
  pub nodes : List DslNode
  pub edges : List Edge

unfoldable pub type_text : DataType → String
type_text string_type = "string"
type_text integer = "integer"
type_text number = "number"
type_text boolean = "boolean"
type_text object = "object"
type_text array = "array"
type_text (unknown_type s) = s

unfoldable pub type_eq : DataType → DataType → Bool
unfolding type_text
type_eq a b = type_text a == type_text b

pub record Coordinate : Type 0 where
  pub type_name : String
  pub version : ℕ  -- uint32

abbrev pub coordinate_of : Operation → Coordinate
coordinate_of operation = record { type_name = operation.type_name; version = operation.version }

unfoldable pub coordinate_eq : Coordinate → Coordinate → Bool
coordinate_eq a b = a.type_name == b.type_name && nat_eq a.version b.version

unfoldable pub is_known_type : DataType → Bool
is_known_type (unknown_type s) = false
is_known_type _ = true

unfoldable pub is_known_kind : DslKind → Bool
is_known_kind (unknown_dsl_kind s) = false
is_known_kind _ = true

unfoldable pub same_dsl_kind : DslKind → DslKind → Bool
same_dsl_kind control_kind control_kind = true
same_dsl_kind task_kind task_kind = true
same_dsl_kind (unknown_dsl_kind a) (unknown_dsl_kind b) = a == b
same_dsl_kind _ _ = false

unfoldable pub is_integer_type : DataType → Bool
is_integer_type integer = true
is_integer_type _ = false

unfoldable pub is_number_type : DataType → Bool
is_number_type number = true
is_number_type _ = false

-- a value of the first type may be used where the second is declared
unfoldable pub compatible : DataType → DataType → Bool
unfolding type_eq is_integer_type is_number_type
compatible source target =
    type_eq source target || (is_integer_type source && is_number_type target)
