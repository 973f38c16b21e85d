-- ===== src/Scheduling/Workers.antt =====
-- internal/scheduling/model.go: the built-in router, RequiredCapabilities and
-- WorkerRegistration.Validate.
use Prim.Native.Nat.{Ordering}
use Prim.Native.String.{compare}
use evalfrog.Prelude.{
  ℕ, suc, String, ◌≡◌, refl, subst, ◌∙◌, ap, Bool, true, false, not, ◌||◌, Option, none, some, List,
  [], ◌∷◌, ◌==◌, ◌↔◌, inl, inr, arith, eq_iff, if◌then◌else◌, is_blank, nat_eq, ltb, length, all,
  Bool-cases,
}
use evalfrog.Json.{ℤ, pos, negsuc}
use evalfrog.Runtime.Error.{Error, Result, ok, err, message, require, ◌>>◌}
use evalfrog.Dsl.{Coordinate, coordinate_eq}
use evalfrog.Dsl.Compatibility.{supports}
use evalfrog.Scheduling.{ResourceClass, is_valid_class}

abbrev pub builtin_router : List (Coordinate × ResourceClass)
builtin_router =
    (record { type_name = "task.python"; version = 1 }, "sandbox")
    ∷ (record { type_name = "task.http"; version = 1 }, "builtin")
    ∷ (record { type_name = "task.rpc"; version = 1 }, "builtin")
    ∷ []

-- StaticRouter.Resolve
unfoldable pub resolve : List (Coordinate × ResourceClass) → Coordinate → Option ResourceClass
unfolding coordinate_eq
resolve [] coordinate = none
resolve ((other, class) ∷ rest) coordinate =
    if coordinate_eq other coordinate then some class else resolve rest coordinate

abbrev coordinate_below : Coordinate → Coordinate → Bool
coordinate_below left right =
    if left.type_name == right.type_name
    then ltb left.version right.version
    else elim (compare left.type_name right.type_name) [ Ordering.lt ↦ true | _ ↦ false ]

unfoldable pub insert_coordinate : Coordinate → List Coordinate → List Coordinate
insert_coordinate coordinate [] = coordinate ∷ []
insert_coordinate coordinate (other ∷ rest) =
    let later = insert_coordinate coordinate rest in
    if coordinate_below other coordinate then other ∷ later else coordinate ∷ other ∷ rest

-- the coordinates that the router sends to the class, sorted
unfoldable pub routed_to : ResourceClass → List (Coordinate × ResourceClass) → List Coordinate
unfolding insert_coordinate
routed_to class [] = []
routed_to class ((coordinate, routed) ∷ rest) =
    let later = routed_to class rest in
    if routed == class then insert_coordinate coordinate later else later

unfoldable pub required_capabilities : ResourceClass → List Coordinate
unfolding routed_to
required_capabilities class = routed_to class builtin_router

pub record WorkerRegistration : Type 0 where
  pub worker_id : String
  pub executor_build : String
  pub resource_class : ResourceClass
  pub slots : ℤ
  pub capabilities : List Coordinate
  pub ttl : ℤ

abbrev is_positive : ℤ → Bool
is_positive (pos n) = not (nat_eq n 0)
is_positive (negsuc n) = false

-- is the coordinate routed to the class?
unfoldable pub belongs_to : ResourceClass → Coordinate → Bool
unfolding resolve
belongs_to class coordinate = elim (resolve builtin_router coordinate) [
  | none ↦ false
  | some routed ↦ routed == class
]

-- The loop over the capabilities: each is well-formed and belongs to the class.
unfoldable pub check_capabilities : ResourceClass → List Coordinate → Result (Unit {0})
unfolding belongs_to
check_capabilities class [] = ok tt
check_capabilities class (coordinate ∷ rest) =
    let later = check_capabilities class rest in
    if is_blank coordinate.type_name || nat_eq coordinate.version 0
    then err (message "worker registration capability is invalid")
    else (if belongs_to class coordinate
        then later
        else err (message "worker capability does not belong to the class"))

-- len(actual) of the set of the capabilities
unfoldable pub count_distinct : List Coordinate → ℕ
unfolding supports
count_distinct [] = 0
count_distinct (coordinate ∷ rest) =
    let others = count_distinct rest in if supports rest coordinate then others else suc others

-- WorkerRegistration.Validate
unfoldable pub validate_registration : WorkerRegistration → Result (Unit {0})
unfolding is_valid_class check_capabilities count_distinct required_capabilities all supports
validate_registration registration = do
  require
      (not (
        is_blank registration.worker_id
        || is_blank registration.executor_build
        || not (is_valid_class registration.resource_class)
        || not (is_positive registration.slots)
        || not (is_positive registration.ttl)
        || nat_eq (length registration.capabilities) 0))
      (message "worker registration identity, capabilities, slots and TTL are required")
  check_capabilities registration.resource_class registration.capabilities
  require (nat_eq (count_distinct registration.capabilities) (length registration.capabilities))
      (message "worker capabilities contain duplicates")
  require
      (nat_eq (count_distinct registration.capabilities)
        (length (required_capabilities registration.resource_class)))
      (message "worker must provide the complete capability set")
  require
      (all (supports registration.capabilities) (required_capabilities registration.resource_class))
      (message "worker is missing required capability")

coordinate_eq-same : (left right : Coordinate) → coordinate_eq left right ≡ true → left ≡ right
unfolding coordinate_eq
coordinate_eq-same left right h =
    let name = (eq_iff left.type_name right.type_name).0 (ground arith) in
    let version : left.version ≡ right.version = ground arith in
    ap (λ x. record { type_name = x; version = left.version }) name
    ∙ ap (λ v. record { type_name = right.type_name; version = v }) version

checked-belong :
    (class : ResourceClass) (capabilities : List Coordinate) (coordinate : Coordinate)
    → check_capabilities class capabilities ≡ ok tt
    → supports capabilities coordinate ≡ true
    → belongs_to class coordinate ≡ true
unfolding check_capabilities supports
checked-belong class [] coordinate h k = absurd (cc k)
checked-belong class (first ∷ rest) coordinate h k =
    let own : belongs_to class first ≡ true = ground arith in
    elim (Bool-cases (coordinate_eq first coordinate)) [
      | inl same ↦
          subst (λ c. belongs_to class c ≡ true) (coordinate_eq-same first coordinate same) own
      | inr other ↦ checked-belong class rest coordinate (ground arith) (ground arith)
    ]

supports-insert_coordinate :
    (coordinate : Coordinate) (list : List Coordinate) (x : Coordinate)
    → supports (insert_coordinate coordinate list) x
      ≡ (coordinate_eq coordinate x || supports list x)
unfolding supports insert_coordinate
supports-insert_coordinate coordinate [] x = refl
supports-insert_coordinate coordinate (other ∷ rest) x =
    ground (arith, supports-insert_coordinate coordinate rest x)

routed_to-supports :
    (class : ResourceClass) (router : List (Coordinate × ResourceClass)) (x : Coordinate)
    → elim (resolve router x) [ none ↦ false | some routed ↦ routed == class ] ≡ true
    → supports (routed_to class router) x ≡ true
unfolding resolve routed_to supports
routed_to-supports class [] x h = absurd (cc h)
routed_to-supports class ((coordinate, routed) ∷ rest) x h = ground (
  arith,
  routed_to-supports class rest x,
  supports-insert_coordinate coordinate (routed_to class rest) x,
)

all-supports :
    (p : Coordinate → Bool) (list : List Coordinate) (x : Coordinate)
    → all p list ≡ true
    → supports list x ≡ true
    → p x ≡ true
unfolding all supports
all-supports p [] x h k = absurd (cc k)
all-supports p (first ∷ rest) x h k = elim (Bool-cases (coordinate_eq first x)) [
  | inl same ↦ subst (λ c. p c ≡ true) (coordinate_eq-same first x same) (ground arith)
  | inr other ↦ all-supports p rest x (ground arith) (ground arith)
]

required-supports :
    (class : ResourceClass) (x : Coordinate)
    → belongs_to class x ≡ true
    → supports (required_capabilities class) x ≡ true
unfolding belongs_to required_capabilities
required-supports class x = routed_to-supports class builtin_router x

tests-pass :
    (a c d e : Bool) (w x y z : Error) (r : Result (Unit {0}))
    → (do require a w; r; require c x; require d y; require e z) ≡ ok tt
    → (r ≡ ok tt) × (e ≡ true)
tests-pass true true true true w x y z (ok tt) h = (refl, refl)
tests-pass true true true false w x y z (ok tt) h = absurd (cc h)
tests-pass true true false e w x y z (ok tt) h = absurd (cc h)
tests-pass true false d e w x y z (ok tt) h = absurd (cc h)
tests-pass true c d e w x y z (err u) h = absurd (cc h)
tests-pass false c d e w x y z r h = absurd (cc h)

-- A worker that is registered for a resource class has exactly the capabilities that the built-in
-- router sends to that class.
pub validate_registration_complete :
    (registration : WorkerRegistration)
    → validate_registration registration ≡ ok tt
    → (coordinate : Coordinate)
    → (supports registration.capabilities coordinate ≡ true)
      ↔ (belongs_to registration.resource_class coordinate ≡ true)
unfolding validate_registration
validate_registration_complete registration h coordinate =
    let (checked, complete) =
      tests-pass
        (not (
          is_blank registration.worker_id
          || is_blank registration.executor_build
          || not (is_valid_class registration.resource_class)
          || not (is_positive registration.slots)
          || not (is_positive registration.ttl)
          || nat_eq (length registration.capabilities) 0))
        (nat_eq (count_distinct registration.capabilities) (length registration.capabilities))
        (nat_eq (count_distinct registration.capabilities)
          (length (required_capabilities registration.resource_class)))
        (all (supports registration.capabilities)
          (required_capabilities registration.resource_class))
        (message "worker registration identity, capabilities, slots and TTL are required")
        (message "worker capabilities contain duplicates")
        (message "worker must provide the complete capability set")
        (message "worker is missing required capability")
        (check_capabilities registration.resource_class registration.capabilities) h in
    (
      checked-belong registration.resource_class registration.capabilities coordinate checked,
      λ routed.
          all-supports (supports registration.capabilities)
            (required_capabilities registration.resource_class) coordinate complete
            (required-supports registration.resource_class coordinate routed),
    )
