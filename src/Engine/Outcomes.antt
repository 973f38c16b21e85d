-- ===== src/Engine/Outcomes.antt =====
-- How a run of internal/runtime/engine/engine.go ends: its outcome and its intent, and the states of the
-- nodes beside them.
use evalfrog.Prelude.{
  String, ◌≡◌, refl, sym, subst, ap, ◌∙◌, true, false, some, List, inl, inr, Bool-cases, arith,
  ◌==◌, eq_iff,
}
use evalfrog.Prelude.Assoc.{lookup, insert, lookup-insert, lookup-insert_cases}
use evalfrog.Json.{Stdlib}
use evalfrog.Runtime.Error.{ok}
use evalfrog.Runtime.States.{RunState, node_terminal, run_terminal}
use evalfrog.Runtime.Failure.{TerminationIntent}
use evalfrog.Runtime.Node.{NodeRun}
use evalfrog.Runtime.NodeMoves.{IsLegal, IsLegal-live, NodeMove-IsLegal, retry_wait-IsLegal}
use evalfrog.Runtime.Run.{WorkflowRun, CreateRunCommand, start}
use evalfrog.Runtime.Completion.{is_settled}
use evalfrog.Runtime.RunMoves.{
  Requested, request_termination-Requested, Terminated, complete_termination-Terminated, Succeeded,
  complete_workflow_success-Succeeded, OutcomeMatches,
}
use evalfrog.Engine.State.{
  Snapshot, Engine, update_node, update_attempt, set_run, settle_outgoing, all_node_runs,
  sorted_node_ids,
}
use evalfrog.Engine.Create.{Checks, new_engine}
use evalfrog.Engine.Creation.{new_engine-Moves, build_engine-IsBuilt}
use evalfrog.Engine.Control.{Call, perform_all}
use evalfrog.Engine.Moves.{
  Move, moves_node, retries_node, settles, requests, terminates, completes, moves_attempt,
  adds_attempt, Moves, here, next, Moves-trans,
}
use evalfrog.Engine.Collect.{all_terminal-all_node_runs, check_settled-all_node_runs}
use evalfrog.Engine.Invariants.{complete_workflow_success-NodeMove}
use evalfrog.Engine.Finality.{settle_outgoing-nodes, settle_outgoing-run}
use evalfrog.Engine.Refinement.{perform_all-Moves}
use evalfrog.Engine.Histories.{All-unit}

-- a node that this run may hold: ended if the run has, settled if it has succeeded
pub record Accords (r : WorkflowRun) (n : NodeRun) : Type 0 where
  pub over : run_terminal r.state ≡ true → node_terminal n.state ≡ true
  pub settled : r.state ≡ RunState.succeeded → is_settled n.state ≡ true

pub record IsConsistent (e : Engine) : Type 0 where
  pub outcome : OutcomeMatches e.run.state e.run.termination
  pub keyed : (id : String) (n : NodeRun) → lookup id e.nodes ≡ some n → n.execution_node_id ≡ id
  pub accords : (id : String) (n : NodeRun) → lookup id e.nodes ≡ some n → Accords e.run n

-- the run of a consistent engine that has not ended accords with any node
live-Accords : (r : WorkflowRun) (n : NodeRun) → run_terminal r.state ≡ false → Accords r n
unfolding run_terminal
live-Accords r n live = ground arith

-- a node that moves belongs to a run that has not ended
moving_live :
    (r : WorkflowRun) {m m' : NodeRun} → Accords r m → IsLegal m m' → run_terminal r.state ≡ false
moving_live r a legal = ground (arith, IsLegal-live legal)

settled_terminal : (n : NodeRun) → is_settled n.state ≡ true → node_terminal n.state ≡ true
unfolding is_settled node_terminal
settled_terminal n h = ground arith

module _ (lib : Stdlib) where
  write-IsConsistent :
      (id : String) (m m' : NodeRun) (e : Engine)
      → IsConsistent e
      → lookup id e.nodes ≡ some m
      → IsLegal m m'
      → IsConsistent (update_node id m' e)
  unfolding update_node
  write-IsConsistent id m m' e c found legal = record {
    outcome = c.outcome;
    keyed = λ j n there. elim (lookup-insert_cases id j m' e.nodes there) [
      | inl (key, same) ↦
          ap (λ (k : NodeRun). k.execution_node_id) same
          ∙ legal.same_node
          ∙ c.keyed id m found
          ∙ key
      | inr old ↦ c.keyed j n old
    ];
    accords = λ j n there. live-Accords e.run n (moving_live e.run (c.accords id m found) legal);
  }

  -- the run and the nodes of an engine are all that consistency reads
  same-IsConsistent :
      (e e' : Engine) → e'.nodes ≡ e.nodes → e'.run ≡ e.run → IsConsistent e → IsConsistent e'
  same-IsConsistent e e' nodes run c = record {
    outcome = subst (λ (r : WorkflowRun). OutcomeMatches r.state r.termination) (sym run) c.outcome;
    keyed = λ j n there. c.keyed j n (ap (lookup j) (sym nodes) ∙ there);
    accords = λ j n there.
        subst (λ r. Accords r n) (sym run) (c.accords j n (ap (lookup j) (sym nodes) ∙ there));
  }

  Requested-outcome :
      (r r' : WorkflowRun) (intent : TerminationIntent)
      → Requested r r' intent
      → OutcomeMatches r.state r.termination
      → OutcomeMatches r'.state r'.termination
  unfolding run_terminal
  Requested-outcome r r' intent q h = ground (arith, q.live, q.same_state)

  requests-IsConsistent :
      (e : Engine) (r' : WorkflowRun) (intent : TerminationIntent)
      → IsConsistent e
      → Requested e.run r' intent
      → IsConsistent (set_run r' e)
  unfolding set_run
  requests-IsConsistent e r' intent c q = record {
    outcome = Requested-outcome e.run r' intent q c.outcome;
    keyed = c.keyed;
    accords = λ j n there. live-Accords r' n (ap run_terminal q.same_state ∙ q.live);
  }

  terminates-IsConsistent :
      (e : Engine) (r' : WorkflowRun)
      → IsConsistent e
      → Terminated (all_node_runs e) e.run r'
      → IsConsistent (set_run r' e)
  unfolding set_run
  terminates-IsConsistent e r' c t = record {
    outcome = t.outcome;
    keyed = c.keyed;
    accords = λ j n there. record {
      over = λ _. all_terminal-all_node_runs e j n there t.nodes_over;
      settled = λ h. absurd (t.unsuccessful h);
    };
  }

  -- after the success of the end node every node is settled
  success_settles :
      (e : Engine) (id j : String) (m m' n : NodeRun) (r' : WorkflowRun)
      → IsConsistent e
      → lookup id e.nodes ≡ some m
      → Succeeded (all_node_runs e) m m' e.run r'
      → lookup j (insert id m' e.nodes) ≡ some n
      → is_settled n.state ≡ true
  unfolding is_settled
  success_settles e id j m m' n r' c found s there = elim (Bool-cases (id == j)) [
    | inl same ↦ ground (arith, s.ended, lookup-insert id j m' e.nodes)
    | inr other ↦
        let old : lookup j e.nodes ≡ some n = ground (arith, lookup-insert id j m' e.nodes) in
        elim (check_settled-all_node_runs e j n old m.execution_node_id s.others_settled) [
          | inr h ↦ h
          | inl h ↦ ground (
            arith,
            c.keyed id m found,
            c.keyed j n old,
            eq_iff id j,
            eq_iff n.execution_node_id m.execution_node_id,
          )
        ]
  ]

  completes-IsConsistent :
      (e : Engine) (id : String) (m m' : NodeRun) (r' : WorkflowRun)
      → IsConsistent e
      → lookup id e.nodes ≡ some m
      → IsLegal m m'
      → Succeeded (all_node_runs e) m m' e.run r'
      → IsConsistent (set_run r' (update_node id m' e))
  unfolding set_run update_node
  completes-IsConsistent e id m m' r' c found legal s = record {
    outcome = unfold run_terminal in ground (arith, s.over, s.same_intent);
    keyed = (write-IsConsistent id m m' e c found legal).keyed;
    accords = λ j n there. record {
      over = λ _. settled_terminal n (success_settles e id j m m' n r' c found s there);
      settled = λ _. success_settles e id j m m' n r' c found s there;
    };
  }

  Move-IsConsistent : (e e' : Engine) → IsConsistent e → Move lib e e' → IsConsistent e'
  unfolding update_attempt
  Move-IsConsistent e e' c (moves_node id m m' there step same) =
      subst IsConsistent (sym same) (write-IsConsistent id m m' e c there (NodeMove-IsLegal step))
  Move-IsConsistent e e' c (retries_node id m m' a kind due there room step same) =
      subst IsConsistent (sym same)
        (write-IsConsistent id m m' e c there (retry_wait-IsLegal m a kind due step))
  Move-IsConsistent e e' c (settles id route same) = subst IsConsistent (sym same) (
      same-IsConsistent e (settle_outgoing id route e) (settle_outgoing-nodes id route e)
        (settle_outgoing-run id route e) c)
  Move-IsConsistent e e' c (requests intent applied run step same) =
      subst IsConsistent (sym same)
        (requests-IsConsistent e run intent c (request_termination-Requested intent e.run step))
  Move-IsConsistent e e' c (terminates run step same) = subst IsConsistent (sym same) (
      terminates-IsConsistent e run c
        (complete_termination-Terminated (all_node_runs e) e.run step))
  Move-IsConsistent e e' c (completes id m m' output run there step same) =
      subst IsConsistent (sym same) (
        completes-IsConsistent e id m m' run c there
          (NodeMove-IsLegal
            (complete_workflow_success-NodeMove lib (all_node_runs e) output e.run m step))
          (complete_workflow_success-Succeeded lib (all_node_runs e) output e.run m step))
  Move-IsConsistent e e' c (moves_attempt id a a' there step same) =
      subst IsConsistent (sym same) (same-IsConsistent e (update_attempt id a' e) refl refl c)
  Move-IsConsistent e e' c (adds_attempt id node_id key seq kind a fresh step same) =
      subst IsConsistent (sym same) (same-IsConsistent e _ refl refl c)

  Moves-IsConsistent :
      (e : Engine) {e' : Engine} → IsConsistent e → Moves lib e e' → IsConsistent e'
  Moves-IsConsistent e c here = c
  Moves-IsConsistent e c (next {f} {g} r m) = Move-IsConsistent f g (Moves-IsConsistent e c r) m

start-running :
    (ids : List String) (r : WorkflowRun) {r' : WorkflowRun}
    → start ids r ≡ ok r'
    → r'.state ≡ RunState.running
unfolding start
start-running ids r h = ground arith

module _ (lib : Stdlib) (snapshot : Snapshot) (command : CreateRunCommand) (checks : Checks) where
  -- Every engine that New returned is consistent after any calls: its run's outcome is the one of
  -- its intent, a run that has ended has no node that has not, and a run that has succeeded has no
  -- node that neither succeeded nor was skipped.
  pub histories-IsConsistent :
      {e : Engine} (calls : List Call)
      → new_engine lib snapshot command checks ≡ ok e
      → IsConsistent (perform_all lib calls e)
  unfolding set_run
  histories-IsConsistent {e} calls created =
      let (b, built, run, started, moves) = new_engine-Moves lib snapshot command checks created in
      let ready =
        build_engine-IsBuilt lib snapshot command checks (λ d. Unit {0})
          (All-unit snapshot.dsl.nodes) built in
      let running = start-running (sorted_node_ids b) b.run started in
      let initially : IsConsistent (set_run run b) = record {
        outcome = subst (λ s. OutcomeMatches s run.termination) (sym running) tt;
        keyed =
            λ id n found. ap (λ (k : NodeRun). k.execution_node_id) (ready.at_node id n found).2;
        accords = λ id n found. live-Accords run n (unfold run_terminal in cc running);
      } in
      Moves-IsConsistent lib (set_run run b) initially
        (Moves-trans moves (perform_all-Moves lib calls e))
