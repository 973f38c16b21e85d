-- ===== src/Engine/Attempts.antt =====
-- The attempts of an engine over its whole life (internal/runtime/engine/engine.go over the attempts of
-- internal/runtime/model.go).
use evalfrog.Prelude.{
  String, ◌≡◌, ◌≢◌, refl, sym, subst, ap, ◌∙◌, Bool, true, false, none, some, List, inl, inr, ◌==◌,
  eq_iff, arith,
}
use evalfrog.Prelude.Assoc.{Assoc, lookup, insert, lookup-insert, lookup-insert_cases}
use evalfrog.Json.{Stdlib}
use evalfrog.Prelude.{[], ◌∷◌}
use evalfrog.Runtime.Error.{ok, Result-cases, ok-injective}
use evalfrog.Runtime.Run.{WorkflowRun, new_workflow_run}
use evalfrog.Runtime.Node.{new_node_run}
use evalfrog.Dsl.{DslNode, Edge}
use evalfrog.Runtime.Attempt.{AttemptResult, NodeAttempt, start_attempt}
use evalfrog.Runtime.AttemptInvariant.{
  AttemptInv, AttemptMove, begins, completes, AttemptMove-AttemptInv, new_node_attempt-AttemptInv,
  restore-snapshot_attempt,
}
use evalfrog.Runtime.Records.{snapshot_attempt, restore_node_attempt}
use evalfrog.Runtime.Run.{CreateRunCommand}
use evalfrog.Engine.State.{Snapshot, Engine, update_node, update_attempt, set_run, settle_outgoing}
use evalfrog.Engine.Create.{
  Checks, new_engine, add_nodes, add_edges, build_engine, assemble, check_binding, empty_engine,
  node_kind,
}
use evalfrog.Engine.Creation.{new_engine-Moves}
use evalfrog.Engine.Control.{Call, perform_all}
use evalfrog.Engine.Moves.{
  Move, moves_node, retries_node, settles, requests, terminates, completes as completes_run,
  moves_attempt, adds_attempt, Moves, here, next, Moves-trans,
}
use evalfrog.Engine.Refinement.{perform_all-Moves}

-- every attempt of the map has the property
abbrev pub AllAttempts : (NodeAttempt → Type 0) → Assoc NodeAttempt → Type 0
AllAttempts P attempts = (id : String) (a : NodeAttempt) → lookup id attempts ≡ some a → P a

settle_outgoing-attempts :
    (id route : String) (e : Engine) → (settle_outgoing id route e).attempts ≡ e.attempts
unfolding settle_outgoing
settle_outgoing-attempts id route e = ground arith

AllAttempts-insert :
    (P : NodeAttempt → Type 0) (id : String) (a : NodeAttempt) (attempts : Assoc NodeAttempt)
    → AllAttempts P attempts
    → P a
    → AllAttempts P (insert id a attempts)
AllAttempts-insert P id a attempts all p = λ j b found.
    elim (lookup-insert_cases id j a attempts found) [
      | inl (key, same) ↦ subst P (sym same) p
      | inr old ↦ all j b old
    ]

-- A recorded result stays what it is.
move_keeps_result :
    (lib : Stdlib) {a a' : NodeAttempt} (r : AttemptResult)
    → AttemptMove lib a a'
    → a.result ≡ some r
    → a'.result ≡ some r
unfolding start_attempt
move_keeps_result lib {a} {a'} r (begins h) k = ground arith
move_keeps_result lib r (completes result e h) k = absurd (cc (e, k))

abbrev pub HasResult : String → AttemptResult → Assoc NodeAttempt → Type 0
HasResult id r attempts = (a : NodeAttempt) × (lookup id attempts ≡ some a) × (a.result ≡ some r)

HasResult-insert :
    (id j : String) (r : AttemptResult) (b b' : NodeAttempt) (attempts : Assoc NodeAttempt)
    → HasResult id r attempts
    → lookup j attempts ≡ some b
    → (b.result ≡ some r → b'.result ≡ some r)
    → HasResult id r (insert j b' attempts)
HasResult-insert id j r b b' attempts (a, found, k) there keep = split (j == id) refl
  where
    split : (same : Bool) → (j == id) ≡ same → HasResult id r (insert j b' attempts)
    split true key =
        (b', ground (arith, lookup-insert j id b' attempts), ground (arith, eq_iff j id, keep))
    split false key = (a, ground (arith, lookup-insert j id b' attempts), k)

HasResult-add :
    (id j : String) (r : AttemptResult) (b : NodeAttempt) (attempts : Assoc NodeAttempt)
    → HasResult id r attempts
    → lookup j attempts ≡ none
    → HasResult id r (insert j b attempts)
HasResult-add id j r b attempts (a, found, k) fresh =
    (a, ground (arith, lookup-insert j id b attempts, eq_iff j id), k)

module _ (lib : Stdlib) where
  Move-AttemptInv :
      (e e' : Engine)
      → AllAttempts AttemptInv e.attempts
      → Move lib e e'
      → AllAttempts AttemptInv e'.attempts
  unfolding update_node update_attempt set_run
  Move-AttemptInv e e' all (moves_node id n n' there step same) =
      subst (λ (f : Engine). AllAttempts AttemptInv f.attempts) (sym same) all
  Move-AttemptInv e e' all (retries_node id n n' a kind due there room step same) =
      subst (λ (f : Engine). AllAttempts AttemptInv f.attempts) (sym same) all
  Move-AttemptInv e e' all (settles id route same) =
      subst (AllAttempts AttemptInv)
        (sym (ap (λ (f : Engine). f.attempts) same ∙ settle_outgoing-attempts id route e)) all
  Move-AttemptInv e e' all (requests intent applied run step same) =
      subst (λ (f : Engine). AllAttempts AttemptInv f.attempts) (sym same) all
  Move-AttemptInv e e' all (terminates run step same) =
      subst (λ (f : Engine). AllAttempts AttemptInv f.attempts) (sym same) all
  Move-AttemptInv e e' all (completes_run id n n' output run there step same) =
      subst (λ (f : Engine). AllAttempts AttemptInv f.attempts) (sym same) all
  Move-AttemptInv e e' all (moves_attempt id a a' there step same) =
      subst (λ (f : Engine). AllAttempts AttemptInv f.attempts) (sym same)
        (AllAttempts-insert AttemptInv id a' e.attempts all
          (AttemptMove-AttemptInv lib (all id a there) step))
  Move-AttemptInv e e' all (adds_attempt id node_id key seq kind a fresh step same) =
      subst (λ (f : Engine). AllAttempts AttemptInv f.attempts) (sym same)
        (AllAttempts-insert AttemptInv id a e.attempts all
          (new_node_attempt-AttemptInv id key seq kind step))

  Moves-AttemptInv :
      (e : Engine) {e' : Engine}
      → AllAttempts AttemptInv e.attempts
      → Moves lib e e'
      → AllAttempts AttemptInv e'.attempts
  Moves-AttemptInv e all here = all
  Moves-AttemptInv e all (next {f} {g} r m) = Move-AttemptInv f g (Moves-AttemptInv e all r) m

  Move-HasResult :
      (id : String) (r : AttemptResult) (e e' : Engine)
      → HasResult id r e.attempts
      → Move lib e e'
      → HasResult id r e'.attempts
  unfolding update_node update_attempt set_run
  Move-HasResult id r e e' h (moves_node j n n' there step same) =
      subst (λ (f : Engine). HasResult id r f.attempts) (sym same) h
  Move-HasResult id r e e' h (retries_node j n n' a kind due there room step same) =
      subst (λ (f : Engine). HasResult id r f.attempts) (sym same) h
  Move-HasResult id r e e' h (settles j route same) =
      subst (HasResult id r)
        (sym (ap (λ (f : Engine). f.attempts) same ∙ settle_outgoing-attempts j route e)) h
  Move-HasResult id r e e' h (requests intent applied run step same) =
      subst (λ (f : Engine). HasResult id r f.attempts) (sym same) h
  Move-HasResult id r e e' h (terminates run step same) =
      subst (λ (f : Engine). HasResult id r f.attempts) (sym same) h
  Move-HasResult id r e e' h (completes_run j n n' output run there step same) =
      subst (λ (f : Engine). HasResult id r f.attempts) (sym same) h
  Move-HasResult id r e e' h (moves_attempt j a a' there step same) =
      subst (λ (f : Engine). HasResult id r f.attempts) (sym same)
        (HasResult-insert id j r a a' e.attempts h there (move_keeps_result lib r step))
  Move-HasResult id r e e' h (adds_attempt j node_id key seq kind a fresh step same) =
      subst (λ (f : Engine). HasResult id r f.attempts) (sym same)
        (HasResult-add id j r a e.attempts h fresh)

  Moves-HasResult :
      (id : String) (r : AttemptResult) (e : Engine) {e' : Engine}
      → HasResult id r e.attempts
      → Moves lib e e'
      → HasResult id r e'.attempts
  Moves-HasResult id r e h here = h
  Moves-HasResult id r e h (next {f} {g} s m) =
      Move-HasResult id r f g (Moves-HasResult id r e h s) m

  -- An attempt that has a result is there with the same result after any calls: a later report,
  -- whatever it says, does not replace the recorded fact.
  pub recorded_result_stands :
      (calls : List Call) (e : Engine) (id : String) (r : AttemptResult) (a : NodeAttempt)
      → lookup id e.attempts ≡ some a
      → a.result ≡ some r
      → HasResult id r (perform_all lib calls e).attempts
  recorded_result_stands calls e id r a found recorded =
      Moves-HasResult id r e (a, found, recorded) (perform_all-Moves lib calls e)

add_nodes-attempts :
    (run_id : String) (defs : List DslNode) (e : Engine) {f : Engine}
    → add_nodes run_id defs e ≡ ok f
    → f.attempts ≡ e.attempts
unfolding add_nodes
add_nodes-attempts run_id [] e = λ h. sym (ap (λ (g : Engine). g.attempts) (ok-injective h))
add_nodes-attempts run_id (d ∷ defs) e =
    elim (Result-cases (new_node_run run_id d.id (node_kind d.kind))) [
      | inr (x, k) ↦ rw (k, add_nodes) (λ h. absurd (cc h))
      | inl (n, k) ↦
          rw (k, add_nodes)
            (λ h.
              add_nodes-attempts run_id defs
                (record e { node_defs = insert d.id d e.node_defs; nodes = insert d.id n e.nodes })
                h)
    ]

add_edges-attempts : (edges : List Edge) (e : Engine) → (add_edges edges e).attempts ≡ e.attempts
unfolding add_edges
add_edges-attempts [] e = refl
add_edges-attempts (edge ∷ edges) e = add_edges-attempts edges _

assemble-attempts :
    (snapshot : Snapshot) (command : CreateRunCommand) (run : WorkflowRun) {e : Engine}
    → assemble snapshot command run ≡ ok e
    → e.attempts ≡ []
unfolding assemble
assemble-attempts snapshot command run =
    elim (Result-cases (add_nodes command.run_id snapshot.dsl.nodes (empty_engine snapshot run))) [
      | inr (x, k) ↦ rw (k, assemble) (λ h. absurd (cc h))
      | inl (f, k) ↦
          rw (k, assemble)
            (λ h.
              sym (ap (λ (g : Engine). g.attempts) (ok-injective h))
              ∙ add_edges-attempts snapshot.dsl.edges f
              ∙ add_nodes-attempts command.run_id snapshot.dsl.nodes (empty_engine snapshot run) k)
    ]

module _ (lib : Stdlib) (snapshot : Snapshot) (command : CreateRunCommand) (checks : Checks) where
  build_engine-attempts :
      {e : Engine} → build_engine lib snapshot command checks ≡ ok e → e.attempts ≡ []
  unfolding build_engine
  build_engine-attempts = elim (Result-cases (check_binding snapshot command checks)) [
    | inr (x, k) ↦ rw (k, build_engine) (λ h. absurd (cc h))
    | inl (u, k) ↦
        rw (k, build_engine)
          (elim (Result-cases (new_workflow_run lib command)) [
            | inr (x, l) ↦ rw (l, build_engine) (λ h. absurd (cc h))
            | inl (run, l) ↦ rw (l, build_engine) (assemble-attempts snapshot command run)
          ])
  ]

  no_attempts : (attempts : Assoc NodeAttempt) → attempts ≡ [] → AllAttempts AttemptInv attempts
  unfolding lookup
  no_attempts attempts h = subst (AllAttempts AttemptInv) (sym h) (λ id a found. absurd (cc found))

  -- In every engine that New returned, after any calls, each attempt comes back from its database
  -- record exactly as it is, unless its version counter has wrapped around to 0.
  pub attempts_restorable :
      {e : Engine} (calls : List Call)
      → new_engine lib snapshot command checks ≡ ok e
      → (id : String) (a : NodeAttempt) → lookup id (perform_all lib calls e).attempts ≡ some a
      → a.state_version ≢ 0
      → restore_node_attempt (snapshot_attempt a) ≡ ok a
  unfolding set_run
  attempts_restorable {e} calls created id a found version =
      let (b, built, run, started, moves) = new_engine-Moves lib snapshot command checks created in
      restore-snapshot_attempt a
        (Moves-AttemptInv lib (set_run run b) (no_attempts b.attempts (build_engine-attempts built))
          (Moves-trans moves (perform_all-Moves lib calls e)) id a found)
        version
