-- ===== src/Engine/Histories.antt =====
-- The nodes of an engine over its whole life: any engine that New of
-- internal/runtime/engine/engine.go returns, and any list of calls of its operations after that.
use evalfrog.Prelude.{
  ◌≤◌, ◌<◌, String, ◌≡◌, ◌≢◌, refl, sym, subst, ap, ◌∙◌, true, Option, some, List, [], ◌∷◌, All,
}
use evalfrog.Prelude.Assoc.{Assoc, lookup}
use evalfrog.Json.{Stdlib}
use evalfrog.Runtime.Error.{ok}
use evalfrog.Runtime.States.{RetryKind, business_retry, recovery, is_task}
use evalfrog.Runtime.Failure.{Time}
use evalfrog.Runtime.Node.{NodeRun, retry_wait}
use evalfrog.Runtime.NodeMoves.{NodeMove, NodeMove-IsLegal, retry_wait-IsLegal}
use evalfrog.Runtime.NodeInvariant.{
  NodeInv, NodeMove-NodeInv, retry_wait-NodeInv, restore-snapshot_node,
}
use evalfrog.Runtime.RetryBudget.{
  WithinBudget, AreLimits, NodeMove-WithinBudget, business_retry-WithinBudget,
  recovery-WithinBudget, fresh_node-WithinBudget,
}
use evalfrog.Runtime.Records.{snapshot_node, restore_node_run}
use evalfrog.Runtime.Run.{CreateRunCommand}
use evalfrog.Dsl.{DslNode}
use evalfrog.Engine.State.{Snapshot, Engine, or_else, zero_node, set_run, node_def}
use evalfrog.Engine.Create.{Checks, node_kind, new_engine}
use evalfrog.Engine.Creation.{IsBuilt, build_engine-IsBuilt, new_engine-Moves}
use evalfrog.Engine.Control.{Call, perform_all}
use evalfrog.Engine.Moves.{HasRoom, Moves-trans, policy_of}
use evalfrog.Engine.Invariants.{AllNodes, policy_in, Moves-AllNodes}
use evalfrog.Engine.Refinement.{perform_all-Moves}

-- What the contract asks of the policy of a task: at least one attempt, limits of 32 bits.
pub record HasPolicy (d : DslNode) : Type 0 where
  pub limits : AreLimits d.execution_policy.max_attempts d.execution_policy.max_recoveries
  pub attempted_once : is_task (node_kind d.kind) ≡ true → 0 < d.execution_policy.max_attempts

-- the node is within the budget of its definition
pub record IsBudgeted (defs : Assoc DslNode) (n : NodeRun) : Type 0 where
  pub limits : AreLimits (policy_in defs n).max_attempts (policy_in defs n).max_recoveries
  pub budget : WithinBudget (policy_in defs n).max_attempts (policy_in defs n).max_recoveries n

pub All-unit : (defs : List DslNode) → All (λ d. Unit {0}) defs
All-unit [] = tt
All-unit (d ∷ defs) = (tt, All-unit defs)

IsBudgeted-same :
    (defs : Assoc DslNode) (n n' : NodeRun)
    → n'.execution_node_id ≡ n.execution_node_id
    → AreLimits (policy_in defs n).max_attempts (policy_in defs n).max_recoveries
    → WithinBudget (policy_in defs n).max_attempts (policy_in defs n).max_recoveries n'
    → IsBudgeted defs n'
IsBudgeted-same defs n n' same l b =
    let policy = λ (id : String). (or_else zero_node (lookup id defs)).execution_policy in
    record {
      limits =
          subst (λ id. AreLimits (policy id).max_attempts (policy id).max_recoveries) (sym same) l;
      budget =
          subst (λ id. WithinBudget (policy id).max_attempts (policy id).max_recoveries n')
            (sym same) b;
    }

NodeMove-IsBudgeted :
    (defs : Assoc DslNode) (n n' : NodeRun) → IsBudgeted defs n → NodeMove n n' → IsBudgeted defs n'
NodeMove-IsBudgeted defs n n' v m =
    IsBudgeted-same defs n n' (NodeMove-IsLegal m).same_node v.limits
      (NodeMove-WithinBudget v.limits v.budget m)

retry_wait-IsBudgeted :
    (defs : Assoc DslNode) (n n' : NodeRun) (a : String) (kind : RetryKind) (due : Time)
    → IsBudgeted defs n
    → HasRoom kind n (policy_in defs n)
    → retry_wait a kind due n ≡ ok n'
    → IsBudgeted defs n'
retry_wait-IsBudgeted defs n n' a business_retry due v room h =
    IsBudgeted-same defs n n' (retry_wait-IsLegal n a business_retry due h).same_node v.limits
      (business_retry-WithinBudget v.limits n a due v.budget room h)
retry_wait-IsBudgeted defs n n' a recovery due v room h =
    IsBudgeted-same defs n n' (retry_wait-IsLegal n a recovery due h).same_node v.limits
      (recovery-WithinBudget v.limits n a due v.budget room h)
retry_wait-IsBudgeted defs n n' a _ due v room h = absurd room

module _ (lib : Stdlib) (snapshot : Snapshot) (command : CreateRunCommand) (checks : Checks) where
  nodes_invariant :
      {e : Engine} (calls : List Call)
      → new_engine lib snapshot command checks ≡ ok e
      → (defs : Assoc DslNode) × AllNodes defs NodeInv (perform_all lib calls e)
  unfolding set_run
  nodes_invariant {e} calls created =
      let (b, built, run, started, moves) = new_engine-Moves lib snapshot command checks created in
      let ready =
        build_engine-IsBuilt lib snapshot command checks (λ d. Unit {0})
          (All-unit snapshot.dsl.nodes) built in
      let initially : AllNodes b.node_defs NodeInv (set_run run b) = record {
        same_defs = refl;
        at_node = λ id n found. (ready.at_node id n found).3;
      } in
      (
        b.node_defs,
        Moves-AllNodes lib b.node_defs NodeInv (λ n n' v m. NodeMove-NodeInv v m)
            (λ n n' a kind due v room h. retry_wait-NodeInv n v a kind due h) (set_run run b)
            initially (Moves-trans moves (perform_all-Moves lib calls e)),
      )

  -- In every engine that New returned, after any calls, each node comes back from its database
  -- record exactly as it is, unless its version counter has wrapped around to 0.
  pub nodes_restorable :
      {e : Engine} (calls : List Call)
      → new_engine lib snapshot command checks ≡ ok e
      → (id : String) (n : NodeRun) → lookup id (perform_all lib calls e).nodes ≡ some n
      → n.state_version ≢ 0
      → restore_node_run (snapshot_node n) ≡ ok n
  nodes_restorable calls created id n found version =
      restore-snapshot_node n ((nodes_invariant calls created).1.at_node id n found) version

  -- a node of the assembled engine has used nothing of its budget
  built-IsBudgeted :
      (b : Engine)
      → IsBuilt command.run_id HasPolicy b
      → (id : String) (n : NodeRun) → lookup id b.nodes ≡ some n
      → IsBudgeted b.node_defs n
  built-IsBudgeted b ready id n found =
      let (d, def, fresh, v, policy) = ready.at_node id n found in
      let same : policy_in b.node_defs n ≡ d.execution_policy =
        ap (λ (m : NodeRun). policy_in b.node_defs m) fresh
        ∙ ap (λ (o : Option DslNode). (or_else zero_node o).execution_policy) def in
      record {
        limits = subst (λ p. AreLimits p.max_attempts p.max_recoveries) (sym same) policy.limits;
        budget =
            subst (λ p. WithinBudget p.max_attempts p.max_recoveries n) (sym same)
              (subst
                (WithinBudget d.execution_policy.max_attempts d.execution_policy.max_recoveries)
                (sym fresh)
                (fresh_node-WithinBudget policy.limits command.run_id id (node_kind d.kind)
                  policy.attempted_once));
      }

  -- In every engine that New returned for a document whose policies have limits of 32 bits and allow
  -- a task at least one attempt, after
  -- any calls, no node has been attempted more than max_attempts times nor recovered more than
  -- max_recoveries times by the policy of its definition.
  pub retry_budget :
      {e : Engine} (calls : List Call)
      → All HasPolicy snapshot.dsl.nodes
      → new_engine lib snapshot command checks ≡ ok e
      → (id : String) (n : NodeRun) → lookup id (perform_all lib calls e).nodes ≡ some n
      → (n.business_attempt_count ≤ (policy_of n (perform_all lib calls e)).max_attempts)
        × (n.recovery_count ≤ (policy_of n (perform_all lib calls e)).max_recoveries)
  unfolding set_run node_def
  retry_budget {e} calls policies created id n found =
      let (b, built, run, started, moves) = new_engine-Moves lib snapshot command checks created in
      let ready = build_engine-IsBuilt lib snapshot command checks HasPolicy policies built in
      let initially : AllNodes b.node_defs (IsBudgeted b.node_defs) (set_run run b) = record {
        same_defs = refl;
        at_node = built-IsBudgeted b ready;
      } in
      let finally =
        Moves-AllNodes lib b.node_defs (IsBudgeted b.node_defs) (NodeMove-IsBudgeted b.node_defs)
          (retry_wait-IsBudgeted b.node_defs) (set_run run b) initially
          (Moves-trans moves (perform_all-Moves lib calls e)) in
      let within = finally.at_node id n found in
      subst
        (λ d.
          (n.business_attempt_count ≤ (policy_in d n).max_attempts)
          × (n.recovery_count ≤ (policy_in d n).max_recoveries))
        (sym finally.same_defs) (within.budget.attempted, within.budget.recovered)
