-- ===== src/Engine/Accepted.antt =====
-- New of internal/runtime/engine/engine.go over the contract and the compatibility check of
-- internal/dsl: what the acceptance of a document gives the engine.
use evalfrog.Prelude.{
  ◌≤◌, String, ◌≡◌, refl, Bool, true, false, Option, none, some, List, [], ◌∷◌, inl, inr, All, not,
  ◌||◌, is_blank, ◌==◌, ◌⊎◌,
}
use evalfrog.Prelude.Assoc.{lookup}
use evalfrog.Json.{Stdlib}
use evalfrog.Runtime.Error.{Error, ok, err, coded, require, ◌>>◌, Result-cases}
use evalfrog.Runtime.States.{is_task}
use evalfrog.Runtime.Node.{NodeRun}
use evalfrog.Runtime.Run.{CreateRunCommand}
use evalfrog.Runtime.RetryBudget.{AreLimits}
use evalfrog.Dsl.{DslKind, control_kind, task_kind, unknown_dsl_kind, Coordinate, DslNode}
use evalfrog.Dsl.Issue.{Issue}
use evalfrog.Dsl.Contract.{Contract}
use evalfrog.Dsl.Compatibility.{check_all}
use evalfrog.Dsl.Validate.{validate}
use evalfrog.Dsl.Accepted.{IsRunnable, validate-IsRunnable}
use evalfrog.Engine.State.{Snapshot, Engine}
use evalfrog.Engine.Create.{Checks, first_issue, node_kind, check_binding, build_engine, new_engine}
use evalfrog.Engine.Control.{Call, perform_all}
use evalfrog.Engine.Moves.{policy_of}
use evalfrog.Engine.Histories.{HasPolicy, retry_budget}

-- the first of the issues, as the error that New returns
unfoldable pub issue_error : (Issue → String) → List Issue → Option Error
issue_error code [] = none
issue_error code (issue ∷ rest) = some (coded (code issue) issue.node_id issue.field)

unfoldable pub dsl_checks : Stdlib → Contract → List Coordinate → Checks
unfolding issue_error check_all validate
dsl_checks lib contract supported = record {
  unsupported = λ document. issue_error (λ issue. issue.code) (check_all supported document);
  invalid =
      λ document. issue_error (λ issue. "RUNTIME_DSL_INVALID") (validate lib contract document);
}

issue_error-eq-none :
    (code : Issue → String) (issues : List Issue) → issue_error code issues ≡ none → issues ≡ []
unfolding issue_error
issue_error-eq-none code [] h = refl
issue_error-eq-none code (issue ∷ rest) h = absurd (cc h)

first_issue-eq-ok : (o : Option Error) → first_issue o ≡ ok tt → o ≡ none
first_issue-eq-ok none h = refl
first_issue-eq-ok (some x) h = absurd (cc h)

-- the limits of a policy are numbers of 32 bits
abbrev pub HasLimits : DslNode → Type 0
HasLimits node = AreLimits node.execution_policy.max_attempts node.execution_policy.max_recoveries

kind-is_task :
    (kind : DslKind)
    → (kind ≡ control_kind) ⊎ (kind ≡ task_kind)
    → is_task (node_kind kind) ≡ true
    → kind ≡ task_kind
unfolding is_task node_kind
kind-is_task control_kind known h = absurd (cc h)
kind-is_task task_kind known h = refl
kind-is_task (unknown_dsl_kind name) (inl k) h = absurd (cc k)
kind-is_task (unknown_dsl_kind name) (inr k) h = k

runnable-HasPolicy :
    (nodes : List DslNode) → All HasLimits nodes → All IsRunnable nodes → All HasPolicy nodes
runnable-HasPolicy [] limits runnable = tt
runnable-HasPolicy (node ∷ rest) (limits, others) (runnable, others_runnable) = (
  record {
    limits = limits;
    attempted_once = λ task. runnable.attempted (kind-is_task node.kind runnable.known task);
  },
  runnable-HasPolicy rest others others_runnable,
)

checks-pass :
    (b : Bool) (x : Error) (unsupported invalid : Option Error)
    → (do require b x; first_issue unsupported; first_issue invalid) ≡ ok tt
    → (unsupported ≡ none) × (invalid ≡ none)
checks-pass true x none none h = (refl, refl)
checks-pass true x none (some y) h = absurd (cc h)
checks-pass true x (some y) invalid h = absurd (cc h)
checks-pass false x unsupported invalid h = absurd (cc h)

module _ (lib : Stdlib) (contract : Contract) (supported : List Coordinate) where
  module _ (snapshot : Snapshot) (command : CreateRunCommand) where
    build_engine-valid :
        {e : Engine}
        → build_engine lib snapshot command (dsl_checks lib contract supported) ≡ ok e
        → (check_all supported snapshot.dsl ≡ []) × (validate lib contract snapshot.dsl ≡ [])
    unfolding build_engine check_binding dsl_checks
    build_engine-valid =
        elim (Result-cases (check_binding snapshot command (dsl_checks lib contract supported))) [
          | inr (x, k) ↦ rw (k, build_engine) (λ h. absurd (cc h))
          | inl (u, k) ↦ λ h.
              let (compatible, valid) =
                checks-pass
                  (not (
                    is_blank snapshot.id
                    || is_blank snapshot.definition_hash
                    || not (command.definition.snapshot_id == snapshot.id)
                    || not (command.definition.definition_hash == snapshot.definition_hash)))
                  (coded "RUNTIME_SNAPSHOT_BINDING_INVALID" "" "")
                  (issue_error (λ issue. issue.code) (check_all supported snapshot.dsl))
                  (issue_error (λ issue. "RUNTIME_DSL_INVALID")
                    (validate lib contract snapshot.dsl))
                  k in
              (
                issue_error-eq-none (λ issue. issue.code) (check_all supported snapshot.dsl)
                    compatible,
                issue_error-eq-none (λ issue. "RUNTIME_DSL_INVALID")
                    (validate lib contract snapshot.dsl) valid,
              )
        ]

    -- New returns an engine only for a document in which neither the compatibility check nor the
    -- contract finds an issue.
    pub new_engine-valid :
        {e : Engine}
        → new_engine lib snapshot command (dsl_checks lib contract supported) ≡ ok e
        → (check_all supported snapshot.dsl ≡ []) × (validate lib contract snapshot.dsl ≡ [])
    unfolding new_engine
    new_engine-valid =
        elim (Result-cases
          (build_engine lib snapshot command (dsl_checks lib contract supported))) [
            | inr (x, k) ↦ rw (k, new_engine) (λ h. absurd (cc h))
            | inl (e, k) ↦ λ h. build_engine-valid k
          ]

    -- New refuses every document that the contract refuses, whatever the rest of its input.
    pub new_engine-refuses :
        (issue : Issue) (rest : List Issue)
        → validate lib contract snapshot.dsl ≡ issue ∷ rest
        → (x : Error) × (new_engine lib snapshot command (dsl_checks lib contract supported)
            ≡ err x)
    new_engine-refuses issue rest refused =
        elim (Result-cases (new_engine lib snapshot command (dsl_checks lib contract supported))) [
          | inl (e, k) ↦ absurd (cc (refused, (new_engine-valid k).1))
          | inr (x, k) ↦ (x, k)
        ]

    -- In every engine that New returned after it checked the document with the contract, after any
    -- calls, no node has been attempted more than max_attempts times nor recovered more than
    -- max_recoveries times by the policy of its definition, where these two are numbers of 32 bits.
    pub accepted_retry_budget :
        {e : Engine} (calls : List Call)
        → All HasLimits snapshot.dsl.nodes
        → new_engine lib snapshot command (dsl_checks lib contract supported) ≡ ok e
        → (id : String) (n : NodeRun) → lookup id (perform_all lib calls e).nodes ≡ some n
        → (n.business_attempt_count ≤ (policy_of n (perform_all lib calls e)).max_attempts)
          × (n.recovery_count ≤ (policy_of n (perform_all lib calls e)).max_recoveries)
    accepted_retry_budget calls limits created =
        retry_budget lib snapshot command (dsl_checks lib contract supported) calls
          (runnable-HasPolicy snapshot.dsl.nodes limits
            (validate-IsRunnable lib contract snapshot.dsl (new_engine-valid created).1))
          created
