-- ===== src/Engine/DriveMoves.antt =====
-- drive (internal/runtime/engine/engine.go) and the abstract machine: lemmas on what each part of the
-- loop leaves behind, also beside an error.
use evalfrog.Prelude.{
  ℕ, zero, suc, String, ◌≡◌, refl, Bool, true, false, not, ◌&&◌, ◌||◌, Option, none, some, List, [],
  ◌∷◌, inl, inr, Bool-cases, Option-cases, length, ◌==◌,
}
use evalfrog.Prelude.Assoc.{lookup, lookup-insert_self}
use evalfrog.Json.{Stdlib}
use evalfrog.Runtime.Error.{Result, ok, Result-cases, exhausted}
use evalfrog.Runtime.States.{TerminationKind, is_pending, is_control, node_terminal, run_terminal}
use evalfrog.Runtime.Failure.{Time, Failure, TerminationIntent}
use evalfrog.Runtime.Node.{
  NodeRun, Values, activate, become_ready, skip, succeed_control, fail_control, fail_before_attempt,
  cancel,
}
use evalfrog.Runtime.NodeMoves.{
  NodeMove, activates, readies, skips, succeeds_control, fails_control, fails_early, cancels,
}
use evalfrog.Runtime.Termination.{request_termination}
use evalfrog.Engine.State.{
  Engine, Outcome, fail, engine_of, update_node, settle_outgoing, note_termination,
  cancel_reason_of,
}
use evalfrog.Engine.Drive.{
  Visit, unchanged, progressed, redrive, failed, visit_engine, Walk, finished, restart, stopped,
  walk_engine, walk, cancel_node, terminate_node, is_dispatched, awaits_attempt, finish_termination,
  after_termination, terminate, fail_node, visit_skip, visit_task, visit_branch, visit_end,
  visit_ready, visit_inputs, visit_activate, visit_node, is_task_kind, after_walk, drive_round,
  drive_fuel, drive,
}
use evalfrog.Runtime.Completion.{complete_termination, complete_workflow_success}
use evalfrog.Engine.Branch.{evaluate_branch}
use evalfrog.Engine.Inputs.{resolve_inputs}
use evalfrog.Engine.State.{
  or_else, node_def, all_nodes_terminal, all_node_runs, all_other_nodes_terminal,
  all_incoming_settled, any_incoming_active, sorted_node_ids,
}
use evalfrog.Engine.Moves.{
  moves_node, settles, requests, terminates, completes, Moves, here, next, Moves-trans, one,
}

pub found_updated :
    (id : String) (n : NodeRun) (e : Engine) → lookup id (update_node id n e).nodes ≡ some n
unfolding update_node
found_updated id n e = lookup-insert_self id n e.nodes

module _ (lib : Stdlib) where
  -- a node is written, and its outgoing edges are settled
  node_then_settle :
      (id route : String) (n n' : NodeRun) (e : Engine)
      → lookup id e.nodes ≡ some n
      → NodeMove n n'
      → Moves lib e (settle_outgoing id route (update_node id n' e))
  node_then_settle id route n n' e found m =
      next (one (moves_node id n n' found m refl)) (settles id route refl)

  walk-Moves :
      (visit : String → Engine → Visit)
      → ((id : String) (e : Engine) → Moves lib e (visit_engine (visit id e)))
      → (ids : List String) (changed : Bool) (e : Engine)
      → Moves lib e (walk_engine (walk visit ids changed e))
  unfolding walk
  walk-Moves visit step [] changed e = here
  walk-Moves visit step (id ∷ ids) changed e =
      after (visit id e) (step id e) (walk-Moves visit step ids)
    where
      after :
          (v : Visit)
          → Moves lib e (visit_engine v)
          → ((changed : Bool) (e : Engine) → Moves lib e (walk_engine (walk visit ids changed e)))
          → Moves lib e (
              walk_engine (elim v [
                | unchanged e' ↦ walk visit ids changed e'
                | progressed e' ↦ walk visit ids true e'
                | redrive e' ↦ restart e'
                | failed x e' ↦ stopped x e'
              ]))
      after (unchanged e') m rest = Moves-trans m (rest changed e')
      after (progressed e') m rest = Moves-trans m (rest true e')
      after (redrive e') m rest = m
      after (failed x e') m rest = m

  cancel_node-Moves :
      (kind : TerminationKind) (id : String) (n : NodeRun) (e : Engine)
      → lookup id e.nodes ≡ some n
      → Moves lib e (visit_engine (cancel_node kind id n e))
  unfolding cancel_node
  cancel_node-Moves kind id n e found = elim (Result-cases (cancel (cancel_reason_of kind) n)) [
    | inl (n', h) ↦
        rw (h, visit_engine)
          (node_then_settle id "" n n' e found (cancels (cancel_reason_of kind) h))
    | inr (x, h) ↦ rw (h, visit_engine) here
  ]

  terminate_node-Moves :
      (kind : TerminationKind) (id : String) (e : Engine)
      → Moves lib e (visit_engine (terminate_node kind id e))
  unfolding terminate_node
  terminate_node-Moves kind id e = elim (Option-cases (lookup id e.nodes)) [
    | inl h ↦ rw (h, visit_engine) here
    | inr (n, h) ↦
        rw (h, visit_engine)
          (elim (Bool-cases (node_terminal n.state)) [
            | inl t ↦ rw (t, visit_engine) here
            | inr t ↦
                rw (t, visit_engine)
                  (elim (Bool-cases (is_dispatched n.state && awaits_attempt n e)) [
                    | inl w ↦ rw (w, visit_engine) here
                    | inr w ↦ rw (w, visit_engine) (cancel_node-Moves kind id n e h)
                  ])
          ])
  ]

  pub note_termination-Moves :
      (intent : TerminationIntent) (e : Engine) → Moves lib e (note_termination intent e)
  unfolding note_termination
  note_termination-Moves intent e = elim (Result-cases (request_termination intent e.run)) [
    | inl ((applied, run), h) ↦ rw (h, note_termination) (one (requests intent applied run h refl))
    | inr (x, h) ↦ rw (h, note_termination) here
  ]

  fail_node-Moves :
      (operation : Failure → NodeRun → Result NodeRun)
      → ((f : Failure) (n n' : NodeRun) → operation f n ≡ ok n' → NodeMove n n')
      → (at : Time) (id : String) (f : Failure) (n : NodeRun) (e : Engine)
      → lookup id e.nodes ≡ some n
      → Moves lib e (visit_engine (fail_node operation at id f n e))
  unfolding fail_node
  fail_node-Moves operation move at id f n e found = elim (Result-cases (operation f n)) [
    | inl (n', h) ↦
        rw (h, visit_engine)
          (Moves-trans (one (moves_node id n n' found (move f n n' h) refl))
            (note_termination-Moves _ (update_node id n' e)))
    | inr (x, h) ↦ rw (h, visit_engine) here
  ]

  visit_skip-Moves :
      (id : String) (n : NodeRun) (e : Engine)
      → lookup id e.nodes ≡ some n
      → Moves lib e (visit_engine (visit_skip id n e))
  unfolding visit_skip
  visit_skip-Moves id n e found = elim (Result-cases (skip n)) [
    | inl (n', h) ↦ rw (h, visit_engine) (node_then_settle id "" n n' e found (skips h))
    | inr (x, h) ↦ rw (h, visit_engine) here
  ]

  visit_task-Moves :
      (id : String) (inputs : Values) (n : NodeRun) (e : Engine)
      → lookup id e.nodes ≡ some n
      → Moves lib e (visit_engine (visit_task id inputs n e))
  unfolding visit_task
  visit_task-Moves id inputs n e found = elim (Result-cases (become_ready inputs n)) [
    | inl (n', h) ↦ rw (h, visit_engine) (one (moves_node id n n' found (readies inputs h) refl))
    | inr (x, h) ↦ rw (h, visit_engine) here
  ]

  module _ (at : Time) where
    visit_branch-Moves :
        (id : String) (inputs : Values) (n : NodeRun) (e : Engine)
        → lookup id e.nodes ≡ some n
        → Moves lib e (visit_engine (visit_branch lib at id inputs n e))
    unfolding visit_branch
    visit_branch-Moves id inputs n e found =
        elim (Result-cases
          (evaluate_branch lib (node_def id e) (or_else "" (lookup "value" inputs)))) [
            | inr (x, h) ↦
                rw (h, visit_engine)
                  (fail_node-Moves fail_control (λ f n n' k. fails_control f k) at id _ n e found)
            | inl (route, h) ↦
                rw (h, visit_engine)
                  (elim (Result-cases (succeed_control route [] n)) [
                    | inl (n', k) ↦
                        rw (k, visit_engine)
                          (node_then_settle id route n n' e found (succeeds_control route [] k))
                    | inr (x, k) ↦ rw (k, visit_engine) here
                  ])
          ]

    visit_end-Moves :
        (id : String) (inputs : Values) (n : NodeRun) (e : Engine)
        → lookup id e.nodes ≡ some n
        → Moves lib e (visit_engine (visit_end lib at id inputs n e))
    unfolding visit_end
    visit_end-Moves id inputs n e found = elim (Bool-cases (all_other_nodes_terminal id e)) [
      | inr b ↦ rw (b, visit_engine) here
      | inl b ↦
          rw (b, visit_engine)
            (elim (Result-cases (
              complete_workflow_success lib (all_node_runs e)
                (or_else "" (lookup "workflow_output" inputs)) e.run n)) [
                  | inl ((run, n'), h) ↦
                      rw (h, visit_engine) (one (completes id n n' _ run found h refl))
                  | inr (x, h) ↦ rw (h, visit_engine) here
                ])
    ]

    visit_ready-Moves :
        (id : String) (inputs : Values) (n : NodeRun) (e : Engine)
        → lookup id e.nodes ≡ some n
        → Moves lib e (visit_engine (visit_ready lib at id inputs n e))
    unfolding visit_ready
    visit_ready-Moves id inputs n e found =
        let operation = (node_def id e).operation.type_name in
        elim (Bool-cases (is_task_kind (node_def id e).kind)) [
          | inl b ↦ rw (b, visit_engine) (visit_task-Moves id inputs n e found)
          | inr b ↦
              rw (b, visit_engine)
                (elim (Bool-cases (operation == "control.branch")) [
                  | inl c ↦ rw (c, visit_engine) (visit_branch-Moves id inputs n e found)
                  | inr c ↦
                      rw (c, visit_engine)
                        (elim (Bool-cases (operation == "control.end")) [
                          | inl d ↦ rw (d, visit_engine) (visit_end-Moves id inputs n e found)
                          | inr d ↦
                              rw (d, visit_engine)
                                (elim (Bool-cases (operation == "control.start")) [
                                  | inl s ↦ rw (s, visit_engine) here
                                  | inr s ↦ rw (s, visit_engine) here
                                ])
                        ])
                ])
        ]

    visit_inputs-Moves :
        (id : String) (n : NodeRun) (e : Engine)
        → lookup id e.nodes ≡ some n
        → Moves lib e (visit_engine (visit_inputs lib at id n e))
    unfolding visit_inputs
    visit_inputs-Moves id n e found = elim (Result-cases (resolve_inputs (node_def id e) e)) [
      | inl (none, h) ↦ rw (h, visit_engine) here
      | inl (some inputs, h) ↦ rw (h, visit_engine) (visit_ready-Moves id inputs n e found)
      | inr (x, h) ↦
          rw (h, visit_engine)
            (elim (Bool-cases (is_control n.kind)) [
              | inl c ↦
                  rw (c, visit_engine)
                    (fail_node-Moves fail_control (λ f n n' k. fails_control f k) at id _ n e found)
              | inr c ↦
                  rw (c, visit_engine)
                    (fail_node-Moves fail_before_attempt (λ f n n' k. fails_early f k) at id _ n e
                      found)
            ])
    ]

    visit_activate-Moves :
        (id : String) (n : NodeRun) (e : Engine)
        → lookup id e.nodes ≡ some n
        → Moves lib e (visit_engine (visit_activate lib at id n e))
    unfolding visit_activate
    visit_activate-Moves id n e found = elim (Result-cases (activate n)) [
      | inr (x, h) ↦ rw (h, visit_engine) here
      | inl (n', h) ↦
          rw (h, visit_engine)
            (Moves-trans (one (moves_node id n n' found (activates h) refl))
              (visit_inputs-Moves id n' (update_node id n' e) (found_updated id n' e)))
    ]

    pub visit_node-Moves :
        (id : String) (e : Engine) → Moves lib e (visit_engine (visit_node lib at id e))
    unfolding visit_node
    visit_node-Moves id e = elim (Option-cases (lookup id e.nodes)) [
      | inl h ↦ rw (h, visit_engine) here
      | inr (n, h) ↦
          rw (h, visit_engine)
            (elim (Bool-cases (
              not (is_pending n.state)
              || id == e.doc.entry_node_id
              || not (all_incoming_settled id e))) [
                | inl b ↦ rw (b, visit_engine) here
                | inr b ↦
                    rw (b, visit_engine)
                      (elim (Bool-cases (any_incoming_active id e)) [
                        | inr c ↦ rw (c, visit_engine) (visit_skip-Moves id n e h)
                        | inl c ↦ rw (c, visit_engine) (visit_activate-Moves id n e h)
                      ])
              ])
    ]

  finish_termination-Moves : (e : Engine) → Moves lib e (engine_of (finish_termination e))
  unfolding finish_termination
  finish_termination-Moves e = elim (Bool-cases (all_nodes_terminal e)) [
    | inr b ↦ rw (b, engine_of) here
    | inl b ↦
        rw (b, engine_of)
          (elim (Result-cases (complete_termination (all_node_runs e) e.run)) [
            | inl (run, h) ↦ rw (h, engine_of) (one (terminates run h refl))
            | inr (x, h) ↦ rw (h, engine_of) here
          ])
  ]

  after_termination-Moves :
      (e : Engine) (w : Walk)
      → Moves lib e (walk_engine w)
      → Moves lib e (engine_of (after_termination w))
  unfolding after_termination
  after_termination-Moves e (finished changed f) m = Moves-trans m (finish_termination-Moves f)
  after_termination-Moves e (restart f) m = m
  after_termination-Moves e (stopped x f) m = m

  terminate-Moves :
      (kind : TerminationKind) (e : Engine) → Moves lib e (engine_of (terminate kind e))
  unfolding terminate
  terminate-Moves kind e =
      after_termination-Moves e _
        (walk-Moves (terminate_node kind) (terminate_node-Moves kind) (sorted_node_ids e) false e)

  module _ (at : Time) where
    after_walk-Moves :
        (again : Engine → Outcome (Unit {0}))
        → ((f : Engine) → Moves lib f (engine_of (again f)))
        → (e : Engine) (w : Walk) → Moves lib e (walk_engine w)
        → Moves lib e (engine_of (after_walk again w))
    unfolding after_walk
    after_walk-Moves again step e (stopped x f) m = m
    after_walk-Moves again step e (restart f) m = Moves-trans m (step f)
    after_walk-Moves again step e (finished changed f) m =
        elim (Bool-cases (run_terminal f.run.state || not changed)) [
          | inl b ↦ rw (b, engine_of) m
          | inr b ↦ rw (b, engine_of) (Moves-trans m (step f))
        ]

    drive_round-Moves :
        (again : Engine → Outcome (Unit {0}))
        → ((f : Engine) → Moves lib f (engine_of (again f)))
        → (o : Option TerminationIntent) (e : Engine)
        → Moves lib e (engine_of (drive_round lib at again o e))
    unfolding drive_round
    drive_round-Moves again step (some intent) e = terminate-Moves intent.kind e
    drive_round-Moves again step none e =
        after_walk-Moves again step e _
          (walk-Moves (visit_node lib at) (visit_node-Moves at) (sorted_node_ids e) false e)

    drive_fuel-Moves :
        (fuel : ℕ) (e : Engine)
        → Moves lib e (engine_of (drive_fuel lib at (fail exhausted) fuel e))
    unfolding drive_fuel
    drive_fuel-Moves zero e = here
    drive_fuel-Moves (suc fuel) e =
        drive_round-Moves (drive_fuel lib at (fail exhausted) fuel) (drive_fuel-Moves fuel)
          e.run.termination e

    -- What drive leaves behind is reached by moves.
    pub drive-Moves : (e : Engine) → Moves lib e (engine_of (drive lib at e))
    unfolding drive
    drive-Moves e = drive_fuel-Moves (suc (length e.nodes)) e
