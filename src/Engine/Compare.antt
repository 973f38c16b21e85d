-- ===== src/Engine/Compare.antt =====
-- internal/runtime/engine/branch.go: the JSON operators of a branch. Numbers are compared as exact
-- rationals by `math/big`, which is part of the parameter `Stdlib`.
use Prim.Native.Nat.{Ordering}
use evalfrog.Prelude.{
  ℕ, suc, String, Bool, true, false, not, ◌&&◌, ◌||◌, Option, none, some, List, [], ◌∷◌, ◌==◌,
  if◌then◌else◌, nat_eq, is_some,
}
use evalfrog.Json.{
  Value, null, bool, num, str, arr, obj, Items, nil, cons, Fields, end, field, Stdlib,
}
use evalfrog.Runtime.Error.{Result, ok, err, message, ◌>>=◌, ◌>>◌, require}

-- object[key]
unfoldable pub get_field : String → Fields → Option Value
get_field key end = none
get_field key (field name value rest) = if name == key then some value else get_field key rest

unfoldable pub object_of : Value → Option Fields
object_of (obj fields) = some fields
object_of _ = none

unfoldable pub lookup_path : Value → List String → Option Value
unfolding get_field object_of
lookup_path current [] = some current
lookup_path current (segment ∷ rest) = elim (object_of current) [
  | none ↦ none
  | some fields ↦ elim (get_field segment fields) [
    | none ↦ none
    | some next ↦ lookup_path next rest
  ]
]

unfoldable pub count_items : Items → ℕ
count_items nil = 0
count_items (cons value rest) = suc (count_items rest)

unfoldable pub count_fields : Fields → ℕ
count_fields end = 0
count_fields (field name value rest) = suc (count_fields rest)

module _ (lib : Stdlib) where
  -- a json.Number that big.Rat accepts
  unfoldable pub rational : Value → Option String
  rational (num text) = if lib.is_rational text then some text else none
  rational _ = none

  unfoldable pub same_number : String → String → Bool
  same_number a b = elim (lib.compare_rational a b) [ Ordering.eq ↦ true | _ ↦ false ]

  -- `err` stands for the default branch, a value that is no JSON value: here a number that big.Rat
  -- refuses.
  unfoldable mutual
    unfolding rational same_number get_field count_items count_fields

    pub equal_json : Value → Value → Result Bool
    equal_json (num text) right =
        if lib.is_rational text
        then elim (rational right) [ none ↦ ok false | some other ↦ ok (same_number text other) ]
        else if is_some (rational right)
        then ok false
        else err (message "unsupported JSON value type")
    equal_json null right = elim right [ null ↦ ok true | _ ↦ ok false ]
    equal_json (str a) right = elim right [ str b ↦ ok (a == b) | _ ↦ ok false ]
    equal_json (bool a) right = elim right [ bool b ↦ ok (if a then b else not b) | _ ↦ ok false ]
    equal_json (arr items) right = elim right [
      | arr others ↦
          if nat_eq (count_items items) (count_items others)
          then equal_items items others
          else ok false
      | _ ↦ ok false
    ]
    equal_json (obj fields) right = elim right [
      | obj others ↦
          if nat_eq (count_fields fields) (count_fields others)
          then equal_fields fields others
          else ok false
      | _ ↦ ok false
    ]

    pub equal_items : Items → Items → Result Bool
    equal_items nil others = ok true
    equal_items (cons value rest) nil = ok false
    equal_items (cons value rest) (cons other others) = elim (equal_json value other) [
      | err x ↦ err x
      | ok same ↦ if same then equal_items rest others else ok false
    ]

    pub equal_fields : Fields → Fields → Result Bool
    equal_fields end others = ok true
    equal_fields (field name value rest) others = elim (get_field name others) [
      | none ↦ ok false
      | some other ↦ elim (equal_json value other) [
        | err x ↦ err x
        | ok same ↦ if same then equal_fields rest others else ok false
      ]
    ]

  unfoldable pub comparable_kinds : Value → Value → Bool
  unfolding rational
  comparable_kinds left right =
      if is_some (rational left) || is_some (rational right)
      then is_some (rational left) && is_some (rational right)
      else elim left [
        | null ↦ elim right [ null ↦ true | _ ↦ false ]
        | str a ↦ elim right [ str b ↦ true | _ ↦ false ]
        | bool a ↦ elim right [ bool b ↦ true | _ ↦ false ]
        | arr a ↦ elim right [ arr b ↦ true | _ ↦ false ]
        | obj a ↦ elim right [ obj b ↦ true | _ ↦ false ]
        | num a ↦ false
      ]

  -- `negate` is set for the operators whose name begins with "not" or "n".
  unfoldable pub compare_equality : Bool → Value → Value → Result Bool
  unfolding comparable_kinds equal_json
  compare_equality negate actual expected = do
    require (comparable_kinds actual expected)
        (message "equality operands have incompatible JSON types")
    equal ← equal_json actual expected
    ok (if negate then not equal else equal)

  unfoldable pub compare_order : (Ordering → Bool) → Value → Value → Result Bool
  unfolding rational
  compare_order accepts actual expected = elim (rational actual) [
    | none ↦ err (message "numeric operator requires numbers")
    | some left ↦ elim (rational expected) [
      | none ↦ err (message "numeric operator requires numbers")
      | some right ↦ ok (accepts (lib.compare_rational left right))
    ]
  ]

  -- the loop over an array; it stops at the first equal item
  unfoldable pub array_contains : Items → Value → Result Bool
  unfolding equal_json
  array_contains nil expected = ok false
  array_contains (cons item rest) expected =
      let later = array_contains rest expected in
      elim (equal_json item expected) [
        | err x ↦ err x
        | ok equal ↦ if equal then ok true else later
      ]

  unfoldable pub contains_value : Value → Value → Result Bool
  unfolding array_contains
  contains_value (str text) expected = elim expected [
    | str candidate ↦ ok (lib.contains_text text candidate)
    | _ ↦ err (message "string contains requires a string")
  ]
  contains_value (arr items) expected = array_contains items expected
  contains_value _ expected = err (message "contains requires string or array")

  unfoldable pub compare_contains : Bool → Value → Value → Result Bool
  unfolding contains_value
  compare_contains negate actual expected = do
    found ← contains_value actual expected
    ok (if negate then not found else found)

  unfoldable pub compare_affix : (String → String → Bool) → Value → Value → Result Bool
  compare_affix has_affix (str left) (str right) = ok (has_affix left right)
  compare_affix has_affix _ _ = err (message "string operator requires strings")

  unfoldable pub compare_key : Bool → Value → Value → Result Bool
  unfolding get_field
  compare_key negate (obj fields) (str key) =
      let exists = is_some (get_field key fields) in ok (if negate then not exists else exists)
  compare_key negate _ _ = err (message "has_key requires object and string")

  abbrev is_gt : Ordering → Bool
  is_gt o = elim o [ Ordering.gt ↦ true | _ ↦ false ]

  abbrev is_lt : Ordering → Bool
  is_lt o = elim o [ Ordering.lt ↦ true | _ ↦ false ]

  unfoldable pub compare_branch : Value → String → Value → Result Bool
  unfolding compare_equality compare_order compare_contains compare_affix compare_key
  compare_branch actual operator expected =
      if operator == "eq"
      then compare_equality false actual expected
      else if operator == "neq"
      then compare_equality true actual expected
      else if operator == "gt"
      then compare_order is_gt actual expected
      else if operator == "gte"
      then compare_order (λ o. not (is_lt o)) actual expected
      else if operator == "lt"
      then compare_order is_lt actual expected
      else if operator == "lte"
      then compare_order (λ o. not (is_gt o)) actual expected
      else if operator == "contains"
      then compare_contains false actual expected
      else if operator == "not_contains"
      then compare_contains true actual expected
      else if operator == "starts_with"
      then compare_affix lib.has_prefix actual expected
      else if operator == "ends_with"
      then compare_affix lib.has_suffix actual expected
      else if operator == "has_key"
      then compare_key false actual expected
      else if operator == "not_has_key"
      then compare_key true actual expected
      else err (message "operator is unsupported")
