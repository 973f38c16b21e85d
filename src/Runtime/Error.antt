-- ===== src/Runtime/Error.antt =====
-- The errors of internal/runtime (errors.go) and of internal/runtime/engine (errors.go). An error
-- that the code makes by fmt.Errorf alone is `message`, wrapped around ErrInvalidRun it is
-- `invalid_run`. `nil_dereference` is a panic; `exhausted` says that a model's fuel ran out.
use Prim.Native.String.{◌++◌ as append}
use evalfrog.Prelude.{
  String, ◌≡◌, refl, ap, ◌⊎◌, inl, inr, Bool, true, false, if◌then◌else◌, is_blank,
}

pub data Error : Type 0 where
  invalid_run : String → Error
  transition : String → String → String → Error
  invalid_transition : Error
  termination_final : Error
  control_attempt : Error
  activated_node_skipped : Error
  message : String → Error
  coded : String → String → String → Error
  nil_dereference : Error
  exhausted : Error

-- err.Error()
unfoldable pub error_text : Error → String
error_text (invalid_run s) = append "invalid workflow run: " s
error_text (transition entity from to) =
    append entity (append " cannot transition from " (append from (append " to " to)))
error_text invalid_transition = "invalid state transition"
error_text termination_final = "termination intent is already final"
error_text control_attempt = "control nodes cannot create attempts"
error_text activated_node_skipped = "an activated node cannot be skipped"
error_text (message s) = s
error_text (coded code node field) =
    if is_blank node then code else append code (append " at node " node)
error_text nil_dereference = "nil pointer dereference"
error_text exhausted = "exhausted"

-- A pure operation that may fail.
pub data Result {ℓ} (Value : Type ℓ) : Type ℓ where
  err : Error → Result Value
  ok : Value → Result Value

infixl 5 ◌>>=◌ ◌>>◌
-- The next step of a function that returns early on an error.
abbrev pub ◌>>=◌ {ℓ κ} :
    {Value : Type ℓ} {Other : Type κ} → Result Value → (Value → Result Other) → Result Other
err error >>= next = err error
ok value >>= next = next value

-- The same where the first step only tests.
abbrev pub ◌>>◌ {ℓ} : {Other : Type ℓ} → Result (Unit {0}) → Result Other → Result Other
first >> second = first >>= λ _. second

-- `if !condition { return err }`
abbrev pub require : Bool → Error → Result (Unit {0})
require true e = ok tt
require false e = err e

pub Result-cases {ℓ} :
    {A : Type ℓ} (r : Result A) → ((a : A) × (r ≡ ok a)) ⊎ ((x : Error) × (r ≡ err x))
Result-cases (ok a) = inl (a, refl)
Result-cases (err x) = inr (x, refl)

value_or {ℓ} : {A : Type ℓ} → A → Result A → A
value_or a (ok b) = b
value_or a (err x) = a

pub ok-injective {ℓ} : {A : Type ℓ} {a b : A} → ok a ≡ ok b → a ≡ b
unfolding value_or
ok-injective {a = a} h = ap (value_or a) h

-- A sequence that succeeds is two steps that do.
pub >>=-eq-ok {ℓ κ} :
    {Value : Type ℓ} {Other : Type κ} (first : Result Value) (next : Value → Result Other)
    {result : Other}
    → (first >>= next) ≡ ok result
    → (value : Value) × (first ≡ ok value) × (next value ≡ ok result)
>>=-eq-ok (err error) next h = cc
>>=-eq-ok (ok value) next h = (value, refl, h)
