-- ===== src/Engine/Inputs.antt =====
-- internal/runtime/engine/engine.go: resolveInputs, validateOutputs and rawDataType.
use evalfrog.Prelude.{
  Bool, not, ◌&&◌, ◌||◌, Option, none, some, [], ◌∷◌, if◌then◌else◌, nat_eq, length,
}
use evalfrog.Prelude.Assoc.{Assoc, lookup}
use evalfrog.Json.{RawMessage, Value, null, bool, num, str, arr, obj, Stdlib}
use evalfrog.Runtime.Error.{Result, ok, err, message, ◌>>◌, require}
use evalfrog.Runtime.States.{node_terminal, is_succeeded}
use evalfrog.Runtime.Node.{NodeRun, Values}
use evalfrog.Dsl.{
  DataType, string_type, integer, number, boolean, object, array, type_eq, InputBinding, literal,
  node_output, DslNode,
}
use evalfrog.Engine.State.{Engine}

-- One binding: its value; `none` if its source has not finished yet.
unfoldable pub resolve_binding : Assoc NodeRun → InputBinding → Result (Option RawMessage)
unfolding lookup node_terminal is_succeeded
resolve_binding nodes binding = elim binding.kind [
  | literal ↦ ok (some binding.value)
  | node_output ↦ elim binding.output [
    | none ↦ err (message "binding output is missing")
    | some reference ↦ elim (lookup reference.node_id nodes) [
      | none ↦ err (message "source node is missing")
      | some source ↦
          if not (is_succeeded source.state)
          then (if node_terminal source.state
              then err (message "source node did not succeed")
              else ok none)
          else elim (lookup reference.name source.effective_outputs) [
            | none ↦ err (message "effective output is missing")
            | some value ↦ ok (some value)
          ]
    ]
  ]
  | _ ↦ err (message "input binding kind is unsupported")
]

-- The loop over the bindings, which ends at the first that fails or has to wait.
unfoldable pub resolve_bindings : Assoc NodeRun → Assoc InputBinding → Result (Option Values)
unfolding resolve_binding
resolve_bindings nodes [] = ok (some [])
resolve_bindings nodes ((name, binding) ∷ rest) =
    let later = resolve_bindings nodes rest in
    elim (resolve_binding nodes binding) [
      | err x ↦ err x
      | ok none ↦ ok none
      | ok (some value) ↦ elim later [
        | err x ↦ err x
        | ok none ↦ ok none
        | ok (some values) ↦ ok (some ((name, value) ∷ values))
      ]
    ]

unfoldable pub resolve_inputs : DslNode → Engine → Result (Option Values)
unfolding resolve_bindings
resolve_inputs definition e = resolve_bindings e.nodes definition.inputs

module _ (lib : Stdlib) where
  unfoldable pub value_type : Value → Option DataType
  value_type (str text) = some string_type
  value_type (bool b) = some boolean
  value_type (num text) =
      if not (lib.is_rational text)
      then none
      else some (if lib.is_integer text then integer else number)
  value_type (arr items) = some array
  value_type (obj fields) = some object
  value_type null = none

  unfoldable pub raw_data_type : RawMessage → Option DataType
  unfolding value_type
  raw_data_type raw =
      if not (lib.valid raw) || lib.trims_to_null raw
      then none
      else elim (lib.decode raw) [ none ↦ none | some value ↦ value_type value ]

  -- an integer is accepted where a number is declared
  unfoldable pub fits_type : DataType → DataType → Bool
  unfolding type_eq
  fits_type actual declared =
      type_eq actual declared || (type_eq actual integer && type_eq declared number)

  unfoldable pub check_outputs : Values → Assoc DataType → Result (Unit {0})
  unfolding lookup raw_data_type fits_type
  check_outputs values [] = ok tt
  check_outputs values ((name, declared) ∷ rest) =
      let later = check_outputs values rest in
      elim (lookup name values) [
        | none ↦ err (message "required output is missing")
        | some value ↦ elim (raw_data_type value) [
          | none ↦ err (message "output has the wrong type")
          | some actual ↦
              if fits_type actual declared then later else err (message "output has the wrong type")
        ]
      ]

  unfoldable pub validate_outputs : DslNode → Values → Result (Unit {0})
  unfolding check_outputs
  validate_outputs definition values = do
    require (nat_eq (length values) (length definition.outputs))
        (message "output field count does not match DSL contract")
    check_outputs values definition.outputs
