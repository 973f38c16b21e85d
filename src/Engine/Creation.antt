-- ===== src/Engine/Creation.antt =====
-- What New of internal/runtime/engine/engine.go builds before it starts the run, and its way from there
-- to the engine that it returns.
use evalfrog.Prelude.{
  String, ◌≡◌, refl, sym, subst, ap, ◌∙◌, Bool, true, false, some, List, [], ◌∷◌, inl, inr, arith,
  ◌==◌, eq_iff, All, if◌then◌else◌, Option-cases,
}
use evalfrog.Prelude.Assoc.{Assoc, lookup, insert, lookup-insert, insert-insert}
use evalfrog.Json.{Stdlib}
use evalfrog.Runtime.Error.{ok, ok-injective, Result-cases}
use evalfrog.Runtime.Node.{Values, NodeRun, fresh_node, new_node_run, activate, succeed_control}
use evalfrog.Runtime.NodeMoves.{activates, succeeds_control}
use evalfrog.Runtime.NodeInvariant.{NodeInv, new_node_run-eq, new_node_run-NodeInv}
use evalfrog.Runtime.Run.{WorkflowRun, CreateRunCommand, new_workflow_run, start}
use evalfrog.Dsl.{DslNode, Edge}
use evalfrog.Engine.State.{
  Snapshot, Engine, Outcome, done, fail, engine_of, update_node, set_run, settle_outgoing,
  sorted_node_ids,
}
use evalfrog.Engine.Drive.{drive}
use evalfrog.Engine.Create.{
  Checks, node_kind, add_nodes, add_edges, empty_engine, to_result, check_binding, assemble, enter,
  initialize, build_engine, new_engine,
}
use evalfrog.Engine.Moves.{Moves, next, Moves-trans, one, moves_node, settles}
use evalfrog.Engine.DriveMoves.{drive-Moves, found_updated}

-- Every node is new, under the key of its definition, and its definition is one of the document's.
pub record IsBuilt (run_id : String) (Q : DslNode → Type 0) (e : Engine) : Type 0 where
  pub at_node :
      (id : String) (n : NodeRun)
      → lookup id e.nodes ≡ some n
      → (d : DslNode) × (lookup id e.node_defs ≡ some d)
        × (n ≡ fresh_node run_id id (node_kind d.kind))
        × NodeInv n
        × Q d

module _ (run_id : String) (Q : DslNode → Type 0) where
  -- one step of the loop over the definitions
  add_node-IsBuilt :
      (d : DslNode) (n : NodeRun) (e : Engine)
      → Q d
      → new_node_run run_id d.id (node_kind d.kind) ≡ ok n
      → IsBuilt run_id Q e
      → IsBuilt run_id Q
          (record e { node_defs = insert d.id d e.node_defs; nodes = insert d.id n e.nodes })
  add_node-IsBuilt d n e q h built = record { at_node = found }
    where
      old :
          (id : String) (m : NodeRun)
          → lookup id e.nodes ≡ some m
          → (d.id == id) ≡ false
          → (c : DslNode) × (lookup id (insert d.id d e.node_defs) ≡ some c)
            × (m ≡ fresh_node run_id id (node_kind c.kind))
            × NodeInv m
            × Q c
      old id m k other =
          let (c, l, f, v, w) = built.at_node id m k in
          (c, rw (lookup-insert d.id id d e.node_defs) (rw other l), f, v, w)

      new :
          (id : String) (m : NodeRun)
          → m ≡ n
          → d.id ≡ id
          → (c : DslNode) × (lookup id (insert d.id d e.node_defs) ≡ some c)
            × (m ≡ fresh_node run_id id (node_kind c.kind))
            × NodeInv m
            × Q c
      new id m same key = (
        d,
        ground (arith, lookup-insert d.id id d e.node_defs, eq_iff d.id id),
        same
            ∙ (new_node_run-eq run_id d.id (node_kind d.kind) h).0
            ∙ ap (λ k. fresh_node run_id k (node_kind d.kind)) key,
        subst NodeInv (sym same) (new_node_run-NodeInv run_id d.id (node_kind d.kind) h),
        q,
      )

      split :
          (id : String) (m : NodeRun) (b : Bool)
          → (d.id == id) ≡ b
          → (if b then some n else lookup id e.nodes) ≡ some m
          → (c : DslNode) × (lookup id (insert d.id d e.node_defs) ≡ some c)
            × (m ≡ fresh_node run_id id (node_kind c.kind))
            × NodeInv m
            × Q c
      split id m true key k = new id m (cc) ((eq_iff d.id id).0 key)
      split id m false key k = old id m k key

      found :
          (id : String) (m : NodeRun)
          → lookup id (insert d.id n e.nodes) ≡ some m
          → (c : DslNode) × (lookup id (insert d.id d e.node_defs) ≡ some c)
            × (m ≡ fresh_node run_id id (node_kind c.kind))
            × NodeInv m
            × Q c
      found id m k = split id m (d.id == id) refl (sym (lookup-insert d.id id n e.nodes) ∙ k)

  add_nodes-IsBuilt :
      (defs : List DslNode) (e : Engine) {f : Engine}
      → All Q defs
      → IsBuilt run_id Q e
      → add_nodes run_id defs e ≡ ok f
      → IsBuilt run_id Q f
  unfolding add_nodes
  add_nodes-IsBuilt [] e q built = λ h. subst (IsBuilt run_id Q) (ok-injective h) built
  add_nodes-IsBuilt (d ∷ defs) e {f} q built =
      elim (Result-cases (new_node_run run_id d.id (node_kind d.kind))) [
        | inr (x, k) ↦ rw (k, add_nodes) (λ h. absurd (cc h))
        | inl (n, k) ↦
            rw (k, add_nodes)
              (λ h.
                add_nodes-IsBuilt defs
                  (record e {
                    node_defs = insert d.id d e.node_defs;
                    nodes = insert d.id n e.nodes;
                  })
                  q.1 (add_node-IsBuilt d n e q.0 k built) h)
      ]

  add_edges-IsBuilt :
      (edges : List Edge) (e : Engine) → IsBuilt run_id Q e → IsBuilt run_id Q (add_edges edges e)
  unfolding add_edges
  add_edges-IsBuilt [] e built = built
  add_edges-IsBuilt (edge ∷ edges) e built =
      add_edges-IsBuilt edges _ (record { at_node = built.at_node })

empty_engine-IsBuilt :
    (run_id : String) (Q : DslNode → Type 0) (snapshot : Snapshot) (run : WorkflowRun)
    → IsBuilt run_id Q (empty_engine snapshot run)
unfolding lookup
empty_engine-IsBuilt run_id Q snapshot run = record { at_node = λ id n k. absurd (cc k) }

-- the second write of a node replaces the first
update_twice :
    (id : String) (n n' : NodeRun) (e : Engine)
    → update_node id n' e ≡ update_node id n' (update_node id n e)
unfolding update_node
update_twice id n n' e =
    ap (λ (m : Assoc NodeRun). record e { nodes = m }) (sym (insert-insert id n n' e.nodes))

assemble-IsBuilt :
    (snapshot : Snapshot) (command : CreateRunCommand) (run : WorkflowRun) (Q : DslNode → Type 0)
    {e : Engine}
    → All Q snapshot.dsl.nodes
    → assemble snapshot command run ≡ ok e
    → IsBuilt command.run_id Q e
unfolding assemble
assemble-IsBuilt snapshot command run Q {e} q =
    elim (Result-cases (add_nodes command.run_id snapshot.dsl.nodes (empty_engine snapshot run))) [
      | inr (x, k) ↦ rw (k, assemble) (λ h. absurd (cc h))
      | inl (f, k) ↦
          rw (k, assemble)
            (λ h. subst (IsBuilt command.run_id Q) (ok-injective h) (
              add_edges-IsBuilt command.run_id Q snapshot.dsl.edges f (
                add_nodes-IsBuilt command.run_id Q snapshot.dsl.nodes (empty_engine snapshot run) q
                  (empty_engine-IsBuilt command.run_id Q snapshot run) k)))
    ]

module _ (lib : Stdlib) where
  pub build_engine-IsBuilt :
      (snapshot : Snapshot) (command : CreateRunCommand) (checks : Checks) (Q : DslNode → Type 0)
      {e : Engine}
      → All Q snapshot.dsl.nodes
      → build_engine lib snapshot command checks ≡ ok e
      → IsBuilt command.run_id Q e
  unfolding build_engine
  build_engine-IsBuilt snapshot command checks Q {e} q =
      elim (Result-cases (check_binding snapshot command checks)) [
        | inr (x, k) ↦ rw (k, build_engine) (λ h. absurd (cc h))
        | inl (u, k) ↦
            rw (k, build_engine)
              (elim (Result-cases (new_workflow_run lib command)) [
                | inr (x, l) ↦ rw (l, build_engine) (λ h. absurd (cc h))
                | inl (run, l) ↦ rw (l, build_engine) (assemble-IsBuilt snapshot command run Q q)
              ])
      ]

  to_result-Moves :
      (e : Engine) (o : Outcome (Unit {0})) {f : Engine}
      → Moves lib e (engine_of o)
      → to_result o ≡ ok f
      → Moves lib e f
  to_result-Moves e (done u g) m h = subst (Moves lib e) (ok-injective h) m
  to_result-Moves e (fail x g) m h = absurd (cc h)

  enter-Moves :
      (n : NodeRun) (e : Engine) {f : Engine}
      → lookup e.doc.entry_node_id e.nodes ≡ some n
      → enter lib n e ≡ ok f
      → Moves lib e f
  unfolding enter
  enter-Moves n e {f} found =
      let entry = e.doc.entry_node_id in
      let outputs : Values = ("workflow_input", e.run.workflow_input) ∷ [] in
      elim (Result-cases (activate n)) [
        | inr (x, k) ↦ rw (k, enter) (λ h. absurd (cc h))
        | inl (active, k) ↦
            rw (k, enter)
              (elim (Result-cases (succeed_control "" outputs active)) [
                | inr (x, l) ↦ rw (l, enter) (λ h. absurd (cc h))
                | inl (n', l) ↦
                    rw (l, enter)
                      (λ h.
                        Moves-trans
                          (next
                            (next (one (moves_node entry n active found (activates k) refl)) (
                              moves_node entry active n' (found_updated entry active e)
                                (succeeds_control "" outputs l) (update_twice entry active n' e)))
                            (settles entry "" refl))
                          (to_result-Moves _
                            (drive lib 0 (settle_outgoing entry "" (update_node entry n' e)))
                            (drive-Moves lib 0 (settle_outgoing entry "" (update_node entry n' e)))
                            h))
              ])
      ]

  -- The run is started, and all that follows are moves.
  pub initialize-Moves :
      (e : Engine) {f : Engine}
      → initialize lib e ≡ ok f
      → (run : WorkflowRun) × (start (sorted_node_ids e) e.run ≡ ok run)
        × Moves lib (set_run run e) f
  unfolding initialize
  initialize-Moves e {f} = elim (Result-cases (start (sorted_node_ids e) e.run)) [
    | inr (x, h) ↦ rw (h, initialize) (λ k. absurd (cc k))
    | inl (run, h) ↦
        rw (h, initialize)
          (elim (Option-cases (lookup e.doc.entry_node_id e.nodes)) [
            | inl l ↦ rw (l, initialize) (λ k. absurd (cc k))
            | inr (n, l) ↦
                rw (l, initialize)
                  (λ k. (run, refl, enter-Moves n (set_run run e) (unfold set_run in l) k))
          ])
  ]

  -- An engine that New returns is reached by moves from the assembled one, its run started.
  pub new_engine-Moves :
      (snapshot : Snapshot) (command : CreateRunCommand) (checks : Checks) {e : Engine}
      → new_engine lib snapshot command checks ≡ ok e
      → (b : Engine) × (build_engine lib snapshot command checks ≡ ok b)
        × (run : WorkflowRun) × (start (sorted_node_ids b) b.run ≡ ok run)
        × Moves lib (set_run run b) e
  unfolding new_engine
  new_engine-Moves snapshot command checks {e} =
      elim (Result-cases (build_engine lib snapshot command checks)) [
        | inr (x, k) ↦ rw (k, new_engine) (λ h. absurd (cc h))
        | inl (b, k) ↦
            rw (k, new_engine)
              (λ h.
                let (run, started, moves) = initialize-Moves b h in (b, refl, run, started, moves))
      ]
