-- ===== src/Dsl/Accepted.antt =====
-- What a document has in which Contract.Validate of internal/dsl/validator.go finds no issue: its
-- nodes' policies and references, and its entry and exit.
use evalfrog.Prelude.{
  ◌<◌, ◌≡◌, ◌≢◌, refl, Bool, true, false, not, ◌||◌, Option, none, some, List, [], ◌∷◌, ◌==◌, ◌⊎◌,
  inl, inr, arith, is_some, nat_eq, eq_iff, All, concat-eq-nil, Option-cases,
}
use evalfrog.Prelude.Assoc.{Assoc, insert}
use evalfrog.Json.{Stdlib}
use evalfrog.Dsl.{
  control_kind, task_kind, DslNode, Document, RetryBackoff, coordinate_of, is_known_kind,
}
use evalfrog.Dsl.Issue.{Issue, issue_when, insert_issue, sort_issues}
use evalfrog.Dsl.Contract.{Contract, OperationSpec, find_spec}
use evalfrog.Dsl.Ports.{validate_inputs, validate_task_policy, is_empty_policy}
use evalfrog.Dsl.Builtin.{
  node_parts, validate_policy, validate_parts, validate_known, validate_node,
}
use evalfrog.Dsl.Validate.{round_parts, document_parts, check_nodes_of, collect_issues, validate}

insert_issue-ne-nil : (issue : Issue) (issues : List Issue) → insert_issue issue issues ≢ []
unfolding insert_issue
insert_issue-ne-nil issue [] h = cc
insert_issue-ne-nil issue (other ∷ rest) h = ground arith

pub sort_issues-eq-nil : (issues : List Issue) → sort_issues issues ≡ [] → issues ≡ []
unfolding sort_issues
sort_issues-eq-nil [] h = refl
sort_issues-eq-nil (issue ∷ rest) h = absurd (insert_issue-ne-nil issue (sort_issues rest) h)

pub issue_when-eq-nil : (b : Bool) (issue : Issue) → issue_when b issue ≡ [] → b ≡ false
issue_when-eq-nil true issue h = cc
issue_when-eq-nil false issue h = refl

-- A task can be attempted and retried; a control node has no policy.
pub record IsRunnable (node : DslNode) : Type 0 where
  pub known : (node.kind ≡ control_kind) ⊎ (node.kind ≡ task_kind)
  pub control_empty : node.kind ≡ control_kind → is_empty_policy node.execution_policy ≡ true
  pub attempted : node.kind ≡ task_kind → 0 < node.execution_policy.max_attempts
  pub timed : node.kind ≡ task_kind → 0 < node.execution_policy.attempt_timeout_ms
  pub delayed :
      node.kind ≡ task_kind
      → (b : RetryBackoff) × (node.execution_policy.retry_backoff ≡ some b)
        × (b.kind ≡ "fixed")
        × (0 < b.delay_ms)

abbrev HasBackoff : Option RetryBackoff → Type 0
HasBackoff o = (b : RetryBackoff) × (o ≡ some b) × (b.kind ≡ "fixed") × (0 < b.delay_ms)

backoff_of :
    (o : Option RetryBackoff)
    → is_some o ≡ true
    → elim o [
      | none ↦ false
      | some backoff ↦ not (backoff.kind == "fixed") || nat_eq backoff.delay_ms 0
    ]
      ≡ false
    → HasBackoff o
backoff_of none h k = absurd (cc h)
backoff_of (some b) h k = (b, refl, ground (arith, eq_iff b.kind "fixed"), ground arith)

task_policy_tests :
    (node : DslNode)
    → validate_task_policy node ≡ []
    → (0 < node.execution_policy.max_attempts)
      × (0 < node.execution_policy.attempt_timeout_ms)
      × (is_some node.execution_policy.retry_backoff ≡ true)
      × (elim node.execution_policy.retry_backoff [
        | none ↦ false
        | some backoff ↦ not (backoff.kind == "fixed") || nat_eq backoff.delay_ms 0
      ]
          ≡ false)
unfolding validate_task_policy
task_policy_tests node h = ground arith

policy-IsRunnable :
    (node : DslNode) → is_known_kind node.kind ≡ true → validate_policy node ≡ [] → IsRunnable node
unfolding validate_policy is_known_kind validate_task_policy
policy-IsRunnable node known h =
    let task : node.kind ≡ task_kind → validate_task_policy node ≡ [] =
      λ k. (rw (k, validate_policy) at h) in
    record {
      known = ground arith;
      control_empty = λ k. ground arith;
      attempted = λ k. (task_policy_tests node (task k)).0;
      timed = λ k. (task_policy_tests node (task k)).1;
      delayed = λ k.
          let (a, t, some_backoff, fixed) = task_policy_tests node (task k) in
          backoff_of node.execution_policy.retry_backoff some_backoff fixed;
    }

module _ (lib : Stdlib) where
  validate_parts-policy :
      (node : DslNode) (spec : OperationSpec)
      → validate_parts lib node spec ≡ []
      → validate_policy node ≡ []
  unfolding validate_parts
  validate_parts-policy node spec h = (concat-eq-nil (node_parts lib node spec) h).1.1.1.1.0

  validate_known-policy :
      (node : DslNode) (spec : OperationSpec)
      → validate_known lib node spec ≡ []
      → validate_policy node ≡ []
  unfolding validate_known
  validate_known-policy node spec h = ground (arith, validate_parts-policy node spec)

  validate_parts-inputs :
      (node : DslNode) (spec : OperationSpec)
      → validate_parts lib node spec ≡ []
      → validate_inputs lib node node.inputs spec.inputs spec.allow_extra_inputs ≡ []
  unfolding validate_parts
  validate_parts-inputs node spec h = (concat-eq-nil (node_parts lib node spec) h).1.1.0

  validate_known-inputs :
      (node : DslNode) (spec : OperationSpec)
      → validate_known lib node spec ≡ []
      → validate_inputs lib node node.inputs spec.inputs spec.allow_extra_inputs ≡ []
  unfolding validate_known
  validate_known-inputs node spec h = ground (arith, validate_parts-inputs node spec)

  pub validate_node-IsRunnable :
      (contract : Contract) (node : DslNode)
      → validate_node lib contract node ≡ []
      → IsRunnable node
  unfolding validate_node
  validate_node-IsRunnable contract node h =
      elim (Option-cases (find_spec (coordinate_of node.operation) contract.specs)) [
        | inl n ↦ absurd (ground arith)
        | inr (spec, n) ↦
            policy-IsRunnable node (ground arith) (ground (arith, validate_known-policy node spec))
      ]

  -- a node without issues has an operation of the contract, and no issue in its inputs
  pub validate_node-inputs :
      (contract : Contract) (node : DslNode)
      → validate_node lib contract node ≡ []
      → (spec : OperationSpec) × (validate_inputs lib node node.inputs spec.inputs
            spec.allow_extra_inputs
          ≡ [])
  unfolding validate_node
  validate_node-inputs contract node h =
      elim (Option-cases (find_spec (coordinate_of node.operation) contract.specs)) [
        | inl n ↦ absurd (ground arith)
        | inr (spec, n) ↦ (spec, validate_known-inputs node spec (ground arith))
      ]

  check_nodes_of-issues :
      (contract : Contract) (list : List DslNode) (nodes : Assoc DslNode)
      → (check_nodes_of lib contract list nodes).0 ≡ []
      → All (λ n. validate_node lib contract n ≡ []) list
  unfolding check_nodes_of
  check_nodes_of-issues contract [] nodes h = tt
  check_nodes_of-issues contract (node ∷ rest) nodes h =
      let (unchecked, (repeated, (own, (others, rest_holds)))) =
        concat-eq-nil
          (round_parts lib contract node nodes
            (check_nodes_of lib contract rest (insert node.id node nodes)).0)
          h in
      (own, check_nodes_of-issues contract rest (insert node.id node nodes) others)

All-IsRunnable :
    (lib : Stdlib) (contract : Contract) (list : List DslNode)
    → All (λ n. validate_node lib contract n ≡ []) list
    → All IsRunnable list
All-IsRunnable lib contract [] h = tt
All-IsRunnable lib contract (node ∷ rest) (a, h) =
    (validate_node-IsRunnable lib contract node a, All-IsRunnable lib contract rest h)

module _ (lib : Stdlib) (contract : Contract) (document : Document) where
  abbrev pub nodes_checked : List Issue × Assoc DslNode
  nodes_checked = check_nodes_of lib contract document.nodes []

  -- the tests of an accepted document, one by one
  pub validate-parts :
      validate lib contract document ≡ []
      → All (λ l. l ≡ []) (document_parts lib contract document nodes_checked.0 nodes_checked.1)
  unfolding validate collect_issues
  validate-parts h =
      concat-eq-nil (document_parts lib contract document nodes_checked.0 nodes_checked.1)
        (sort_issues-eq-nil (collect_issues lib contract document) h)

  -- the nodes of an accepted document, one by one
  pub validate-nodes :
      validate lib contract document ≡ []
      → All (λ n. validate_node lib contract n ≡ []) document.nodes
  validate-nodes h = check_nodes_of-issues lib contract document.nodes [] (validate-parts h).1.0

  -- In a document without issues every task can be attempted at least once, has a timeout and a
  -- positive fixed delay before a retry, and every control node has an empty policy.
  pub validate-IsRunnable : validate lib contract document ≡ [] → All IsRunnable document.nodes
  validate-IsRunnable h = All-IsRunnable lib contract document.nodes (validate-nodes h)
