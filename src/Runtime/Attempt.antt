-- ===== src/Runtime/Attempt.antt =====
-- internal/runtime/model.go: NodeAttempt and AttemptResult.
use evalfrog.Prelude.{
  ℕ, ◌+◌, String, Bool, true, false, not, ◌&&◌, ◌||◌, Option, none, some, [], ◌∷◌, ◌==◌,
  if◌then◌else◌, nat_eq, is_blank, u64, length,
}
use evalfrog.Prelude.Assoc.{lookup}
use evalfrog.Json.{Details, Stdlib}
use evalfrog.Runtime.Error.{Result, ok, err, transition, message, ◌>>=◌, ◌>>◌, require}
use evalfrog.Runtime.States.{
  AttemptState, RetryKind, initial, business_retry, recovery, valid_attempt_transition,
  attempt_state_text, attempt_state_eq, attempt_terminal,
}
use evalfrog.Runtime.Node.{Values}

pub record AttemptResult : Type 0 where
  pub state : AttemptState
  pub outputs : Values
  pub error_code : String
  pub message : String
  pub dsl_field : String
  pub error_details : Details

-- every entry of the first map is in the second, with equal bytes
unfoldable pub outputs_within : Values → Values → Bool
unfolding lookup
outputs_within [] other = true
outputs_within ((key, value) ∷ rest) other =
    elim (lookup key other) [ none ↦ false | some candidate ↦ value == candidate ]
    && outputs_within rest other

unfoldable pub result_equal : Stdlib → AttemptResult → AttemptResult → Bool
unfolding attempt_state_eq outputs_within
result_equal lib result other =
    if not (attempt_state_eq result.state other.state)
      || not (result.error_code == other.error_code)
      || not (result.message == other.message)
      || not (result.dsl_field == other.dsl_field)
      || not (nat_eq (length result.outputs) (length other.outputs))
      || not (lib.deep_equal result.error_details other.error_details)
    then false
    else outputs_within result.outputs other.outputs

pub record NodeAttempt : Type 0 where
  pub id : String
  pub node_run_id : String
  pub sequence : ℕ  -- uint32
  pub kind : RetryKind
  pub state : AttemptState
  pub state_version : ℕ  -- uint64
  pub result : Option AttemptResult

unfoldable pub is_known_retry : RetryKind → Bool
is_known_retry initial = true
is_known_retry business_retry = true
is_known_retry recovery = true
is_known_retry _ = false

unfoldable pub new_node_attempt : String → String → ℕ → RetryKind → Result NodeAttempt
unfolding is_known_retry
new_node_attempt id node_run_id sequence kind =
    if is_blank id || is_blank node_run_id || nat_eq sequence 0 || not (is_known_retry kind)
    then err (message "invalid attempt identity")
    else ok (record {
      id = id;
      node_run_id = node_run_id;
      sequence = sequence;
      kind = kind;
      state = AttemptState.queued;
      state_version = 1;
      result = none;
    })

unfoldable pub attempt_transition : AttemptState → NodeAttempt → Result NodeAttempt
unfolding valid_attempt_transition
attempt_transition target attempt =
    if valid_attempt_transition attempt.state target
    then ok (record attempt { state = target; state_version = u64 (attempt.state_version + 1) })
    else err
        (transition "node_attempt" (attempt_state_text attempt.state) (attempt_state_text target))

unfoldable pub start_attempt : NodeAttempt → Result NodeAttempt
unfolding attempt_transition
start_attempt attempt = attempt_transition AttemptState.running attempt

unfoldable pub is_attempt_success : AttemptState → Bool
is_attempt_success AttemptState.succeeded = true
is_attempt_success _ = false

-- `attempt.result != nil && attempt.result.Equal(result)`
unfoldable pub has_result : Stdlib → Option AttemptResult → AttemptResult → Bool
has_result lib none result = false
has_result lib (some recorded) result = result_equal lib recorded result

unfoldable pub complete : Stdlib → AttemptResult → NodeAttempt → Result NodeAttempt
unfolding attempt_transition is_attempt_success has_result attempt_terminal
complete lib result attempt =
    if attempt_terminal attempt.state
    then (if has_result lib attempt.result result
        then ok attempt
        else err (
            transition "node_attempt" (attempt_state_text attempt.state)
              (attempt_state_text result.state)))
    else (do
      require (attempt_terminal result.state) (message "attempt result must be terminal")
      require (not (is_attempt_success result.state && not (is_blank result.error_code)))
          (message "successful attempt cannot contain an error code")
      require (not (not (is_attempt_success result.state) && is_blank result.error_code))
          (message "unsuccessful attempt requires an error code")
      attempt' ← attempt_transition result.state attempt
      ok (record attempt' { result = some result }))
