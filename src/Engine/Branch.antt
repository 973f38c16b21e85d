-- ===== src/Engine/Branch.antt =====
-- internal/runtime/engine/branch.go: the exclusive choice of a route.

use evalfrog.Prelude.{String, Bool, Option, none, some, List, [], ◌∷◌, if◌then◌else◌, is_blank}
use evalfrog.Prelude.Assoc.{lookup}
use evalfrog.Json.{RawMessage, Value, BranchCase, Stdlib}
use evalfrog.Runtime.Error.{Error, coded, Result, ok, err}
use evalfrog.Dsl.{DslNode}
use evalfrog.Engine.State.{or_else}
use evalfrog.Engine.Compare.{lookup_path, compare_branch}

abbrev path_not_found : String → Error
path_not_found id = coded "BRANCH_PATH_NOT_FOUND" id "operation.config.cases.path"

abbrev operator_mismatch : String → String → Error
operator_mismatch id place = coded "BRANCH_OPERATOR_TYPE_MISMATCH" id place

module _ (lib : Stdlib) where
  -- The value that a case tests; `none` if its path is not there.
  unfoldable pub case_actual : Value → String → Option Value
  unfolding lookup_path
  case_actual value path =
      if is_blank path then some value else lookup_path value (lib.split_dots path)

  -- Whether one case matches. The index of the case, which the source puts into the error's field,
  -- is left out of the field.
  unfoldable pub try_case : String → Value → BranchCase → Result Bool
  unfolding case_actual compare_branch
  try_case id value candidate = elim (case_actual value candidate.path) [
    | none ↦ err (path_not_found id)
    | some actual ↦ elim (lib.decode candidate.value) [
      | none ↦ err (operator_mismatch id "operation.config.cases.value")
      | some expected ↦ elim (compare_branch lib actual candidate.operator expected) [
        | err x ↦ err (operator_mismatch id "operation.config.cases")
        | ok matched ↦ ok matched
      ]
    ]
  ]

  -- The first case that matches, in order; the default route if none does.
  unfoldable pub select_route : String → Value → String → List BranchCase → Result String
  unfolding try_case
  select_route id value fallback [] = ok fallback
  select_route id value fallback (candidate ∷ rest) =
      let later = select_route id value fallback rest in
      elim (try_case id value candidate) [
        | err x ↦ err x
        | ok matched ↦ if matched then ok candidate.route else later
      ]

  -- json.Unmarshal of a missing entry, which is the empty text, fails
  unfoldable pub evaluate_branch : DslNode → RawMessage → Result String
  unfolding select_route
  evaluate_branch node raw =
      elim (lib.unmarshal_cases (or_else "" (lookup "cases" node.operation.config))) [
        | none ↦ err (operator_mismatch node.id "operation.config")
        | some cases ↦
            elim (lib.unmarshal_string
              (or_else "" (lookup "default_route" node.operation.config))) [
                | none ↦ err (operator_mismatch node.id "operation.config")
                | some fallback ↦ elim (lib.decode raw) [
                  | none ↦ err (operator_mismatch node.id "inputs.value")
                  | some value ↦ select_route node.id value fallback cases
                ]
              ]
      ]
