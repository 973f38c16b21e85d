-- ===== src/Engine/Pending.antt =====
-- How many nodes are pending, and what the writes of drive (internal/runtime/engine/engine.go) do to
-- that number.
use evalfrog.Prelude.{
  ℕ, ◌+◌, ◌≤◌, ◌<◌, String, ◌≡◌, Bool, true, false, some, [], ◌∷◌, inl, inr, if◌then◌else◌, length,
  eq_iff, arith,
}
use evalfrog.Prelude.Assoc.{Assoc, lookup, insert}
use evalfrog.Runtime.Error.{Result, ok, Result-cases}
use evalfrog.Runtime.States.{is_pending}
use evalfrog.Runtime.Failure.{Time, Failure, TerminationIntent}
use evalfrog.Runtime.Node.{
  NodeRun, Values, activate, become_ready, skip, succeed_control, fail_control, fail_before_attempt,
}
use evalfrog.Engine.State.{Engine, update_node, settle_outgoing, note_termination}
use evalfrog.Engine.Drive.{
  Visit, unchanged, progressed, redrive, failed, Walk, finished, restart, stopped, fail_node,
}
use evalfrog.Engine.Finality.{settle_outgoing-nodes}

unfoldable pub weight : NodeRun → ℕ
unfolding is_pending
weight n = if is_pending n.state then 1 else 0

-- how many nodes are pending
unfoldable pub count_pending : Assoc NodeRun → ℕ
unfolding weight
count_pending [] = 0
count_pending ((id, n) ∷ rest) = weight n + count_pending rest

pub count_pending-le-length : (nodes : Assoc NodeRun) → count_pending nodes ≤ length nodes
unfolding count_pending
count_pending-le-length [] = omega arith
count_pending-le-length ((id, n) ∷ rest) = ground (arith, count_pending-le-length rest)

pub count_pending-insert :
    (id : String) (n n' : NodeRun) (nodes : Assoc NodeRun)
    → lookup id nodes ≡ some n
    → count_pending (insert id n' nodes) + weight n ≡ count_pending nodes + weight n'
unfolding lookup insert count_pending
count_pending-insert id n n' [] h = cc
count_pending-insert id n n' ((j, m) ∷ rest) h =
    ground (arith, eq_iff j id, count_pending-insert id n n' rest)

-- How the number of pending nodes goes on through a visit and a walk.
abbrev pub Falls : Engine → Visit → Type 0
Falls e (unchanged e') = count_pending e'.nodes ≤ count_pending e.nodes
Falls e (progressed e') = count_pending e'.nodes < count_pending e.nodes
Falls e (redrive e') = count_pending e'.nodes < count_pending e.nodes
Falls e (failed x e') = Unit {0}

abbrev pub WalkFalls : Bool → Engine → Walk → Type 0
WalkFalls before e (finished changed e') =
    (count_pending e'.nodes ≤ count_pending e.nodes)
    × (changed ≡ true → before ≡ false → count_pending e'.nodes < count_pending e.nodes)
WalkFalls before e (restart e') = count_pending e'.nodes < count_pending e.nodes
WalkFalls before e (stopped x e') = Unit {0}

-- a pending node leaves the state
pub leaves_pending :
    (id : String) (n n' : NodeRun) (e : Engine)
    → lookup id e.nodes ≡ some n
    → is_pending n.state ≡ true
    → is_pending n'.state ≡ false
    → count_pending (update_node id n' e).nodes < count_pending e.nodes
unfolding update_node weight
leaves_pending id n n' e found before after =
    ground (arith, count_pending-insert id n n' e.nodes found)

pub leaves_and_settles :
    (id route : String) (n n' : NodeRun) (e : Engine)
    → lookup id e.nodes ≡ some n
    → is_pending n.state ≡ true
    → is_pending n'.state ≡ false
    → count_pending (settle_outgoing id route (update_node id n' e)).nodes < count_pending e.nodes
leaves_and_settles id route n n' e found before after =
    rw (settle_outgoing-nodes id route (update_node id n' e))
      (leaves_pending id n n' e found before after)

note_termination-nodes :
    (intent : TerminationIntent) (e : Engine) → (note_termination intent e).nodes ≡ e.nodes
unfolding note_termination
note_termination-nodes intent e = ground arith

module _ (n : NodeRun) {n' : NodeRun} where
  pub skip_leaves : skip n ≡ ok n' → is_pending n'.state ≡ false
  unfolding skip is_pending
  skip_leaves h = ground arith

  pub become_ready_leaves :
      (inputs : Values) → become_ready inputs n ≡ ok n' → is_pending n'.state ≡ false
  unfolding become_ready is_pending
  become_ready_leaves inputs h = ground arith

  pub succeed_control_leaves :
      (route : String) (outputs : Values)
      → succeed_control route outputs n ≡ ok n'
      → is_pending n'.state ≡ false
  unfolding succeed_control is_pending
  succeed_control_leaves route outputs h = ground arith

  pub fail_control_leaves : (f : Failure) → fail_control f n ≡ ok n' → is_pending n'.state ≡ false
  unfolding fail_control is_pending
  fail_control_leaves f h = ground arith

  pub fail_before_attempt_leaves :
      (f : Failure) → fail_before_attempt f n ≡ ok n' → is_pending n'.state ≡ false
  unfolding fail_before_attempt is_pending
  fail_before_attempt_leaves f h = ground arith

  pub activate_stays :
      activate n ≡ ok n' → (is_pending n.state ≡ true) × (is_pending n'.state ≡ true)
  unfolding activate is_pending
  activate_stays h = ground arith

pub fail_node-Falls :
    (operation : Failure → NodeRun → Result NodeRun)
    → ((f : Failure) (n n' : NodeRun) → operation f n ≡ ok n' → is_pending n'.state ≡ false)
    → (at : Time) (id : String) (f : Failure) (n : NodeRun) (e : Engine)
    → lookup id e.nodes ≡ some n
    → is_pending n.state ≡ true
    → Falls e (fail_node operation at id f n e)
unfolding fail_node
fail_node-Falls operation leaves at id f n e found before = elim (Result-cases (operation f n)) [
  | inr (x, h) ↦ rw (h, fail_node) tt
  | inl (n', h) ↦
      rw (h, fail_node)
        (rw note_termination-nodes (leaves_pending id n n' e found before (leaves f n n' h)))
]

-- a node that stays pending
pub stays_pending :
    (id : String) (n n' : NodeRun) (e : Engine)
    → lookup id e.nodes ≡ some n
    → (is_pending n.state ≡ true) × (is_pending n'.state ≡ true)
    → count_pending (update_node id n' e).nodes ≡ count_pending e.nodes
unfolding update_node weight
stays_pending id n n' e found both = ground (arith, count_pending-insert id n n' e.nodes found)

pub Falls-same :
    (e f : Engine) (v : Visit)
    → count_pending f.nodes ≡ count_pending e.nodes
    → Falls f v
    → Falls e v
Falls-same e f (unchanged g) same h = omega arith
Falls-same e f (progressed g) same h = omega arith
Falls-same e f (redrive g) same h = omega arith
Falls-same e f (failed x g) same h = tt
