-- ===== src/Engine/Cases.antt =====
-- One case of a branch in internal/runtime/engine/branch.go, described by the path to the value that it
-- tests.
use evalfrog.Prelude.{
  String, ◌≡◌, refl, sym, subst, ap, ◌∙◌, Bool, true, false, some, List, [], ◌∷◌, inl, inr,
  is_blank, Bool-cases, Option-cases,
}
use mathlib.Core.Option.{some-injective}
use evalfrog.Json.{Value, obj, Fields, BranchCase, Stdlib}
use evalfrog.Runtime.Error.{ok, Result-cases}
use evalfrog.Engine.Compare.{get_field, object_of, lookup_path, compare_branch}
use evalfrog.Engine.Branch.{case_actual, try_case}

-- The value inside nested objects, under one name after another.
pub data IsInside : Value → List String → Value → Type 0 where
  itself : {value : Value} → IsInside value [] value
  under :
      {fields : Fields} {name : String} {rest : List String} {next found : Value}
      → get_field name fields ≡ some next
      → IsInside next rest found
      → IsInside (obj fields) (name ∷ rest) found

lookup_path-IsInside :
    (value : Value) (path : List String) (found : Value)
    → lookup_path value path ≡ some found
    → IsInside value path found
unfolding lookup_path object_of
lookup_path-IsInside value [] found =
    λ h. subst (IsInside value []) (some-injective value found h) itself
lookup_path-IsInside (obj fields) (name ∷ rest) found =
    elim (Option-cases (get_field name fields)) [
      | inl missing ↦ rw (missing, lookup_path) (λ h. absurd (cc h))
      | inr (next, has) ↦
          rw (has, lookup_path) (λ h. under has (lookup_path-IsInside next rest found h))
    ]
lookup_path-IsInside _ (name ∷ rest) found = λ h. absurd (cc h)

IsInside-lookup_path :
    {value : Value} {path : List String} {found : Value}
    → IsInside value path found
    → lookup_path value path ≡ some found
unfolding lookup_path object_of
IsInside-lookup_path itself = refl
IsInside-lookup_path (under has inside) = rw (has, lookup_path) (IsInside-lookup_path inside)

-- The case was compared and matches, or does not: its value is a JSON text, and what it is compared with
-- is the branch's value or, where the case has a path, what is inside it.
pub record Compares (lib : Stdlib) (value : Value) (c : BranchCase) (matched : Bool) : Type 0 where
  pub actual : Value
  pub expected : Value
  pub whole : is_blank c.path ≡ true → actual ≡ value
  pub inside : is_blank c.path ≡ false → IsInside value (lib.split_dots c.path) actual
  pub decoded : lib.decode c.value ≡ some expected
  pub compared : compare_branch lib actual c.operator expected ≡ ok matched

module _ (lib : Stdlib) (id : String) (value : Value) where
  case_actual-cases :
      (path : String) (actual : Value)
      → case_actual lib value path ≡ some actual
      → (is_blank path ≡ true → actual ≡ value)
        × (is_blank path ≡ false → IsInside value (lib.split_dots path) actual)
  unfolding case_actual
  case_actual-cases path actual = elim (Bool-cases (is_blank path)) [
    | inl blank ↦
        rw (blank, case_actual)
          (λ h. (λ b. sym (some-injective value actual h), λ b. absurd (cc b)))
    | inr given ↦
        rw (given, case_actual)
          (λ h.
            (λ b. absurd (cc b), λ b. lookup_path-IsInside value (lib.split_dots path) actual h))
  ]

  pub try_case-Compares :
      (c : BranchCase) (matched : Bool)
      → try_case lib id value c ≡ ok matched
      → Compares lib value c matched
  unfolding try_case
  try_case-Compares c matched = elim (Option-cases (case_actual lib value c.path)) [
    | inl missing ↦ rw (missing, try_case) (λ h. absurd (cc h))
    | inr (actual, found) ↦ elim (Option-cases (lib.decode c.value)) [
      | inl broken ↦ rw (found, broken, try_case) (λ h. absurd (cc h))
      | inr (expected, decoded) ↦
          elim (Result-cases (compare_branch lib actual c.operator expected)) [
            | inr (x, failed) ↦ rw (found, decoded, failed, try_case) (λ h. absurd (cc h))
            | inl (b, compared) ↦
                rw (found, decoded, compared, try_case)
                  (λ h.
                    let (whole, inside) = case_actual-cases c.path actual found in
                    record {
                      actual = actual;
                      expected = expected;
                      whole = whole;
                      inside = inside;
                      decoded = decoded;
                      compared = compared ∙ h;
                    })
          ]
    ]
  ]

  pub Compares-try_case :
      (c : BranchCase) (matched : Bool)
      → Compares lib value c matched
      → try_case lib id value c ≡ ok matched
  unfolding try_case case_actual
  Compares-try_case c matched h =
      let found : case_actual lib value c.path ≡ some h.actual =
        elim (Bool-cases (is_blank c.path)) [
          | inl blank ↦ rw (blank, case_actual) (ap some (sym (h.whole blank)))
          | inr given ↦ rw (given, case_actual) (IsInside-lookup_path (h.inside given))
        ] in
      rw (found, h.decoded, h.compared, try_case) refl
