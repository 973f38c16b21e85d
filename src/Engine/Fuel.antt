-- ===== src/Engine/Fuel.antt =====
-- The rounds of drive (internal/runtime/engine/engine.go) and the number of pending nodes: lemmas on the
-- visits of one node, on a pass over the nodes and on the rounds.
use evalfrog.Prelude.{
  ℕ, zero, suc, ◌≤◌, ◌<◌, String, ◌≡◌, refl, ap, Bool, true, false, not, ◌||◌, Option, none, some,
  List, [], ◌∷◌, inl, inr, Bool-cases, Option-cases, length, ◌==◌, arith,
}
use evalfrog.Prelude.Assoc.{lookup}
use evalfrog.Json.{Stdlib}
use evalfrog.Runtime.Error.{exhausted, Result-cases}
use evalfrog.Runtime.States.{is_pending, is_control, run_terminal}
use evalfrog.Runtime.Failure.{Time, TerminationIntent}
use evalfrog.Runtime.Node.{
  NodeRun, Values, activate, become_ready, skip, succeed_control, fail_control, fail_before_attempt,
}
use evalfrog.Runtime.Completion.{complete_workflow_success}
use evalfrog.Runtime.RunMoves.{complete_workflow_success-Succeeded}
use evalfrog.Engine.State.{
  Engine, Outcome, fail, or_else, node_def, update_node, set_run, sorted_node_ids, all_node_runs,
  all_incoming_settled, any_incoming_active, all_other_nodes_terminal,
}
use evalfrog.Engine.Branch.{evaluate_branch}
use evalfrog.Engine.Inputs.{resolve_inputs}
use evalfrog.Engine.Drive.{
  Visit, unchanged, progressed, redrive, failed, Walk, finished, restart, stopped, walk, visit_skip,
  visit_task, visit_branch, visit_end, visit_ready, visit_inputs, visit_activate, visit_node,
  is_task_kind, after_walk, drive_round, drive_fuel, drive,
}
use evalfrog.Engine.DriveMoves.{found_updated}
use evalfrog.Engine.Pending.{
  count_pending, count_pending-le-length, Falls, WalkFalls, leaves_pending, leaves_and_settles,
  stays_pending, Falls-same, fail_node-Falls, skip_leaves, become_ready_leaves,
  succeed_control_leaves, fail_control_leaves, fail_before_attempt_leaves, activate_stays,
}

module _ (lib : Stdlib) (at : Time) (id : String) where
  visit_skip-Falls :
      (n : NodeRun) (e : Engine)
      → lookup id e.nodes ≡ some n
      → is_pending n.state ≡ true
      → Falls e (visit_skip id n e)
  unfolding visit_skip
  visit_skip-Falls n e found before = elim (Result-cases (skip n)) [
    | inl (n', h) ↦
        rw (h, visit_skip) (leaves_and_settles id "" n n' e found before (skip_leaves n h))
    | inr (x, h) ↦ rw (h, visit_skip) tt
  ]

  visit_task-Falls :
      (inputs : Values) (n : NodeRun) (e : Engine)
      → lookup id e.nodes ≡ some n
      → is_pending n.state ≡ true
      → Falls e (visit_task id inputs n e)
  unfolding visit_task
  visit_task-Falls inputs n e found before = elim (Result-cases (become_ready inputs n)) [
    | inl (n', h) ↦
        rw (h, visit_task) (leaves_pending id n n' e found before (become_ready_leaves n inputs h))
    | inr (x, h) ↦ rw (h, visit_task) tt
  ]

  visit_branch-Falls :
      (inputs : Values) (n : NodeRun) (e : Engine)
      → lookup id e.nodes ≡ some n
      → is_pending n.state ≡ true
      → Falls e (visit_branch lib at id inputs n e)
  unfolding visit_branch
  visit_branch-Falls inputs n e found before =
      elim (Result-cases
        (evaluate_branch lib (node_def id e) (or_else "" (lookup "value" inputs)))) [
          | inr (x, h) ↦
              rw (h, visit_branch)
                (fail_node-Falls fail_control (λ f m m' k. fail_control_leaves m f k) at id _ n e
                  found before)
          | inl (route, h) ↦
              rw (h, visit_branch)
                (elim (Result-cases (succeed_control route [] n)) [
                  | inl (n', k) ↦
                      rw (k, visit_branch)
                        (leaves_and_settles id route n n' e found before
                          (succeed_control_leaves n route [] k))
                  | inr (x, k) ↦ rw (k, visit_branch) tt
                ])
        ]

  visit_end-Falls :
      (inputs : Values) (n : NodeRun) (e : Engine)
      → lookup id e.nodes ≡ some n
      → is_pending n.state ≡ true
      → Falls e (visit_end lib at id inputs n e)
  unfolding visit_end
  visit_end-Falls inputs n e found before = elim (Bool-cases (all_other_nodes_terminal id e)) [
    | inr b ↦ rw (b, visit_end) (omega arith)
    | inl b ↦
        rw (b, visit_end)
          (elim (Result-cases (
            complete_workflow_success lib (all_node_runs e)
              (or_else "" (lookup "workflow_output" inputs)) e.run n)) [
                | inl ((run, n'), h) ↦
                    let done =
                      complete_workflow_success-Succeeded lib (all_node_runs e)
                        (or_else "" (lookup "workflow_output" inputs)) e.run n h in
                    rw (h, visit_end)
                      (unfold set_run in
                        leaves_pending id n n' e found before
                          (unfold is_pending in ap is_pending done.ended))
                | inr (x, h) ↦ rw (h, visit_end) tt
              ])
  ]

  visit_ready-Falls :
      (inputs : Values) (n : NodeRun) (e : Engine)
      → lookup id e.nodes ≡ some n
      → is_pending n.state ≡ true
      → Falls e (visit_ready lib at id inputs n e)
  unfolding visit_ready
  visit_ready-Falls inputs n e found before =
      let operation = (node_def id e).operation.type_name in
      elim (Bool-cases (is_task_kind (node_def id e).kind)) [
        | inl b ↦ rw (b, visit_ready) (visit_task-Falls inputs n e found before)
        | inr b ↦
            rw (b, visit_ready)
              (elim (Bool-cases (operation == "control.branch")) [
                | inl c ↦ rw (c, visit_ready) (visit_branch-Falls inputs n e found before)
                | inr c ↦
                    rw (c, visit_ready)
                      (elim (Bool-cases (operation == "control.end")) [
                        | inl d ↦ rw (d, visit_ready) (visit_end-Falls inputs n e found before)
                        | inr d ↦
                            rw (d, visit_ready)
                              (elim (Bool-cases (operation == "control.start")) [
                                | inl s ↦ rw (s, visit_ready) tt
                                | inr s ↦ rw (s, visit_ready) tt
                              ])
                      ])
              ])
      ]

  visit_inputs-Falls :
      (n : NodeRun) (e : Engine)
      → lookup id e.nodes ≡ some n
      → is_pending n.state ≡ true
      → Falls e (visit_inputs lib at id n e)
  unfolding visit_inputs
  visit_inputs-Falls n e found before = elim (Result-cases (resolve_inputs (node_def id e) e)) [
    | inl (none, h) ↦ rw (h, visit_inputs) (omega arith)
    | inl (some inputs, h) ↦ rw (h, visit_inputs) (visit_ready-Falls inputs n e found before)
    | inr (x, h) ↦
        rw (h, visit_inputs)
          (elim (Bool-cases (is_control n.kind)) [
            | inl c ↦
                rw (c, visit_inputs)
                  (fail_node-Falls fail_control (λ f m m' k. fail_control_leaves m f k) at id _ n e
                    found before)
            | inr c ↦
                rw (c, visit_inputs)
                  (fail_node-Falls fail_before_attempt
                    (λ f m m' k. fail_before_attempt_leaves m f k) at id _ n e found before)
          ])
  ]

  visit_activate-Falls :
      (n : NodeRun) (e : Engine)
      → lookup id e.nodes ≡ some n
      → Falls e (visit_activate lib at id n e)
  unfolding visit_activate
  visit_activate-Falls n e found = elim (Result-cases (activate n)) [
    | inr (x, h) ↦ rw (h, visit_activate) tt
    | inl (n', h) ↦
        let both = activate_stays n h in
        rw (h, visit_activate)
          (Falls-same e (update_node id n' e) _ (stays_pending id n n' e found both)
            (visit_inputs-Falls n' (update_node id n' e) (found_updated id n' e) both.1))
  ]

  visit_node-Falls : (e : Engine) → Falls e (visit_node lib at id e)
  unfolding visit_node
  visit_node-Falls e = elim (Option-cases (lookup id e.nodes)) [
    | inl h ↦ rw (h, visit_node) tt
    | inr (n, h) ↦
        rw (h, visit_node)
          (elim (Bool-cases (is_pending n.state)) [
            | inr p ↦ rw (p, visit_node) (omega arith)
            | inl p ↦
                rw (p, visit_node)
                  (elim (Bool-cases
                    (id == e.doc.entry_node_id || not (all_incoming_settled id e))) [
                      | inl b ↦ rw (b, visit_node) (omega arith)
                      | inr b ↦
                          rw (b, visit_node)
                            (elim (Bool-cases (any_incoming_active id e)) [
                              | inr c ↦ rw (c, visit_node) (visit_skip-Falls n e h p)
                              | inl c ↦ rw (c, visit_node) (visit_activate-Falls n e h)
                            ])
                    ])
          ])
  ]

later :
    (before : Bool) (e f : Engine) (w : Walk)
    → count_pending f.nodes ≤ count_pending e.nodes
    → WalkFalls before f w
    → WalkFalls before e w
later before e f (finished changed g) h (le, lt) = (omega arith, λ c b. ground (arith, lt c b))
later before e f (restart g) h lt = omega arith
later before e f (stopped x g) h lt = tt

later_progressed :
    (before : Bool) (e f : Engine) (w : Walk)
    → count_pending f.nodes < count_pending e.nodes
    → WalkFalls true f w
    → WalkFalls before e w
later_progressed before e f (finished changed g) h (le, lt) = (omega arith, λ c b. omega arith)
later_progressed before e f (restart g) h lt = omega arith
later_progressed before e f (stopped x g) h lt = tt

walk-WalkFalls :
    (visit : String → Engine → Visit)
    → ((id : String) (e : Engine) → Falls e (visit id e))
    → (ids : List String) (before : Bool) (e : Engine)
    → WalkFalls before e (walk visit ids before e)
unfolding walk
walk-WalkFalls visit step [] before e = (omega arith, λ c b. ground arith)
walk-WalkFalls visit step (id ∷ ids) before e =
    after (visit id e) (step id e) (walk-WalkFalls visit step ids)
  where
    after :
        (v : Visit)
        → Falls e v
        → ((before : Bool) (f : Engine) → WalkFalls before f (walk visit ids before f))
        → WalkFalls before e (elim v [
          | unchanged f ↦ walk visit ids before f
          | progressed f ↦ walk visit ids true f
          | redrive f ↦ restart f
          | failed x f ↦ stopped x f
        ])
    after (unchanged f) h rest = later before e f _ h (rest before f)
    after (progressed f) h rest = later_progressed before e f _ h (rest true f)
    after (redrive f) h rest = h
    after (failed x f) h rest = tt

-- A round asks for another only on an engine with fewer pending nodes.
after_walk-cong :
    (again again' : Engine → Outcome (Unit {0})) (e : Engine) (w : Walk)
    → WalkFalls false e w
    → ((f : Engine) → count_pending f.nodes < count_pending e.nodes → again f ≡ again' f)
    → after_walk again w ≡ after_walk again' w
unfolding after_walk
after_walk-cong again again' e (stopped x f) h same = refl
after_walk-cong again again' e (restart f) h same = same f h
after_walk-cong again again' e (finished false f) h same =
    elim (Bool-cases (run_terminal f.run.state)) [
      | inl t ↦ rw (t, after_walk) refl
      | inr t ↦ rw (t, after_walk) refl
    ]
after_walk-cong again again' e (finished true f) (le, lt) same =
    elim (Bool-cases (run_terminal f.run.state)) [
      | inl t ↦ rw (t, after_walk) refl
      | inr t ↦ rw (t, after_walk) (same f (lt refl refl))
    ]

module _ (lib : Stdlib) (at : Time) (out out' : Engine → Outcome (Unit {0})) where
  drive_round-cong :
      (again again' : Engine → Outcome (Unit {0})) (o : Option TerminationIntent) (e : Engine)
      → ((f : Engine) → count_pending f.nodes < count_pending e.nodes → again f ≡ again' f)
      → drive_round lib at again o e ≡ drive_round lib at again' o e
  unfolding drive_round
  drive_round-cong again again' (some intent) e same = refl
  drive_round-cong again again' none e same =
      after_walk-cong again again' e _
        (walk-WalkFalls (visit_node lib at) (visit_node-Falls lib at) (sorted_node_ids e) false e)
        same

  enough_fuel :
      (fuel fuel' : ℕ) (e : Engine)
      → count_pending e.nodes < fuel
      → count_pending e.nodes < fuel'
      → drive_fuel lib at out fuel e ≡ drive_fuel lib at out' fuel' e
  unfolding drive_fuel
  enough_fuel zero fuel' e h h' = ground arith
  enough_fuel (suc fuel) zero e h h' = ground arith
  enough_fuel (suc fuel) (suc fuel') e h h' =
      drive_round-cong (drive_fuel lib at out fuel) (drive_fuel lib at out' fuel') e.run.termination
        e (λ f less. enough_fuel fuel fuel' f (omega arith) (omega arith))

-- The loop of drive ends: with any fuel above the number of nodes, and whatever is done where fuel runs
-- out, its rounds give what drive gives, so that drive never reaches the end of its fuel.
pub drive_total :
    (lib : Stdlib) (at : Time) (out : Engine → Outcome (Unit {0})) (fuel : ℕ) (e : Engine)
    → length e.nodes < fuel
    → drive_fuel lib at out fuel e ≡ drive lib at e
unfolding drive
drive_total lib at out fuel e more =
    enough_fuel lib at out (fail exhausted) fuel (suc (length e.nodes)) e
      (ground (arith, count_pending-le-length e.nodes))
      (ground (arith, count_pending-le-length e.nodes))
