-- ===== src/Dsl/Contract.antt =====
-- internal/dsl/validator.go: the specification of operations, and NewContract.
use evalfrog.Prelude.{
  String, Bool, false, not, ◌||◌, Option, none, some, List, [], ◌∷◌, ◌++◌, if◌then◌else◌, is_blank,
  is_some, nat_eq,
}
use evalfrog.Prelude.Assoc.{Assoc}
use evalfrog.Runtime.Error.{Result, ok, err, message}
use evalfrog.Dsl.{DataType, type_eq, DslKind, is_known_kind, DslNode, Coordinate, coordinate_eq}
use evalfrog.Dsl.Issue.{Issue}

pub record PortRule : Type 0 where
  pub required : Bool
  pub data_types : List DataType

pub record OperationSpec : Type 0 where
  pub coordinate : Coordinate
  pub kind : DslKind
  -- whether each field is required
  pub config_fields : Assoc Bool
  pub inputs : Assoc PortRule
  pub allow_extra_inputs : Bool
  pub outputs : Assoc PortRule
  pub allow_extra_outputs : Bool
  -- `none` is nil
  pub validate_config : Option (DslNode → List Issue)

pub record Contract : Type 0 where
  pub version : String
  -- the map `specs`, whose keys are the coordinates of its values
  pub specs : List OperationSpec

unfoldable pub find_spec : Coordinate → List OperationSpec → Option OperationSpec
unfolding coordinate_eq
find_spec coordinate [] = none
find_spec coordinate (spec ∷ rest) =
    if coordinate_eq spec.coordinate coordinate then some spec else find_spec coordinate rest

-- the loop over the specifications
unfoldable pub add_specs : List OperationSpec → Contract → Result Contract
unfolding find_spec is_known_kind
add_specs [] contract = ok contract
add_specs (spec ∷ rest) contract =
    let later = add_specs rest (record contract { specs = contract.specs ++ spec ∷ [] }) in
    if is_blank spec.coordinate.type_name
      || nat_eq spec.coordinate.version 0
      || not (is_known_kind spec.kind)
    then err (message "invalid operation specification")
    else if is_some (find_spec spec.coordinate contract.specs)
    then err (message "operation is registered twice")
    else later

unfoldable pub new_contract : String → List OperationSpec → Result Contract
unfolding add_specs
new_contract version specs =
    if is_blank version
    then err (message "DSL contract version is required")
    else add_specs specs (record { version = version; specs = [] })

unfoldable pub contains_type : List DataType → DataType → Bool
unfolding type_eq
contains_type [] target = false
contains_type (value ∷ rest) target = type_eq value target || contains_type rest target
