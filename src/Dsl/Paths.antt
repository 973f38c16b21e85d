-- ===== src/Dsl/Paths.antt =====
-- The function `reach` of internal/dsl/validator.go: what it marks are the nodes at the end of a path.
use evalfrog.Prelude.{
  ℕ, zero, suc, ◌+◌, ◌<◌, String, ◌≡◌, refl, sym, subst, true, List, [], ◌∷◌, ◌==◌, arith, length,
  eq_iff, eq_refl, contains, Bool-cases, inl, inr, ◌⊎◌, ◌↔◌,
}
use evalfrog.Prelude.Assoc.{Assoc, entries_of}
use evalfrog.Dsl.Graph.{push_unmarked, mark_reachable, count_targets, reachable_nodes}
use evalfrog.Dsl.Reach.{
  push-keeps_marked, push-keeps_stack, push-marks, push-origin, push-stack_origin, unmarked,
  unmarked-le_length, push-measure, all_targets, entries_of-AreIn, length-all_targets,
}

-- A path along the map: a node is reached from `start` if it is `start` or a target of a reached one.
pub data Reaches (outgoing : Assoc (List String)) (start : String) : String → Type 0 where
  at_start : Reaches outgoing start start
  by_step :
      {id next : String}
      → Reaches outgoing start id
      → contains (entries_of outgoing id) next ≡ true
      → Reaches outgoing start next

module _ (outgoing : Assoc (List String)) where
  -- the rounds that are left at most
  abbrev pub reach_measure : List String → List String → ℕ
  reach_measure marked stack = length stack + unmarked (all_targets outgoing) marked

  -- The search of the contract ends: with more rounds allowed than there are nodes on the stack and
  -- targets unmarked, neither the number of rounds allowed nor what is done where they run out
  -- changes its result.
  pub mark_reachable_total :
      (out out' : List String → List String) (fuel fuel' : ℕ) (marked stack : List String)
      → reach_measure marked stack < fuel
      → reach_measure marked stack < fuel'
      → mark_reachable out outgoing fuel marked stack
        ≡ mark_reachable out' outgoing fuel' marked stack
  unfolding mark_reachable
  mark_reachable_total out out' zero fuel' marked stack h k = absurd (omega arith)
  mark_reachable_total out out' (suc fuel) zero marked stack h k = absurd (omega arith)
  mark_reachable_total out out' (suc fuel) (suc fuel') marked [] h k = refl
  mark_reachable_total out out' (suc fuel) (suc fuel') marked (id ∷ stack) h k =
      let less =
        push-measure (all_targets outgoing) (entries_of outgoing id) marked stack
          (entries_of-AreIn outgoing id) in
      mark_reachable_total out out' fuel fuel'
        (push_unmarked (entries_of outgoing id) marked stack).0
        (push_unmarked (entries_of outgoing id) marked stack).1 (omega arith) (omega arith)

  module _ (start : String) where
    abbrev AreReached : List String → Type 0
    AreReached xs = (x : String) → contains xs x ≡ true → Reaches outgoing start x

    mark_reachable-AreReached :
        (fuel : ℕ) (marked stack : List String)
        → AreReached marked
        → AreReached stack
        → AreReached (mark_reachable (λ done. done) outgoing fuel marked stack)
    unfolding mark_reachable contains
    mark_reachable-AreReached zero marked stack m s = m
    mark_reachable-AreReached (suc fuel) marked [] m s = m
    mark_reachable-AreReached (suc fuel) marked (id ∷ stack) m s =
        let targets = entries_of outgoing id in
        let step : (x : String) → contains targets x ≡ true → Reaches outgoing start x =
          λ x h. by_step (s id (ground (arith, eq_refl id))) h in
        mark_reachable-AreReached fuel (push_unmarked targets marked stack).0
          (push_unmarked targets marked stack).1
          (λ x h. elim (push-origin targets marked stack x h) [
            | inl before ↦ m x before
            | inr (on_stack, is_target) ↦ step x is_target
          ])
          (λ x h. elim (push-stack_origin targets marked stack x h) [
            | inl before ↦ s x (ground arith)
            | inr is_target ↦ step x is_target
          ])

    -- a marked node waits on the stack, or its targets are marked
    abbrev IsClosed : List String → List String → Type 0
    IsClosed marked stack =
        (x : String)
        → contains marked x ≡ true
        → (contains stack x ≡ true)
          ⊎ ((t : String) → contains (entries_of outgoing x) t ≡ true → contains marked t ≡ true)

    round-IsClosed :
        (id : String) (marked stack : List String)
        → IsClosed marked (id ∷ stack)
        → IsClosed
            (push_unmarked (entries_of outgoing id) marked stack).0
            (push_unmarked (entries_of outgoing id) marked stack).1
    unfolding contains
    round-IsClosed id marked stack closed x h =
        let targets = entries_of outgoing id in
        elim (push-origin targets marked stack x h) [
          | inr (on_stack, is_target) ↦ inl on_stack
          | inl before ↦ elim (Bool-cases (x == id)) [
            | inl same ↦ inr (λ t k. push-marks targets marked stack t (
                subst (λ y. contains (entries_of outgoing y) t ≡ true) (ground (arith, eq_iff x id))
                  k))
            | inr other ↦ elim (closed x before) [
              | inl waits ↦ inl (push-keeps_stack targets marked stack x (ground arith))
              | inr marks ↦ inr (λ t k. push-keeps_marked targets marked stack t (marks t k))
            ]
          ]
        ]

    mark_reachable_complete :
        (fuel : ℕ) (marked stack : List String)
        → reach_measure marked stack < fuel
        → contains marked start ≡ true
        → IsClosed marked stack
        → {x : String} → Reaches outgoing start x
        → contains (mark_reachable (λ done. done) outgoing fuel marked stack) x ≡ true
    unfolding mark_reachable contains
    mark_reachable_complete zero marked stack less at closed path = absurd (omega arith)
    mark_reachable_complete (suc fuel) marked [] less at closed at_start = at
    mark_reachable_complete (suc fuel) marked [] less at closed (by_step {id} {next} path h) =
        elim (closed id (mark_reachable_complete (suc fuel) marked [] less at closed path)) [
          | inl k ↦ absurd (cc k)
          | inr marks ↦ marks next h
        ]
    mark_reachable_complete (suc fuel) marked (id ∷ stack) less at closed path =
        let targets = entries_of outgoing id in
        let falls =
          push-measure (all_targets outgoing) targets marked stack (entries_of-AreIn outgoing id) in
        mark_reachable_complete fuel (push_unmarked targets marked stack).0
          (push_unmarked targets marked stack).1 (omega arith)
          (push-keeps_marked targets marked stack start at) (round-IsClosed id marked stack closed)
          path

    -- The search marks exactly the nodes at the end of a path from its start.
    pub reachable_nodes_iff :
        (id : String)
        → (contains (reachable_nodes start outgoing) id ≡ true) ↔ Reaches outgoing start id
    unfolding reachable_nodes contains
    reachable_nodes_iff id =
        let enough : reach_measure (start ∷ []) (start ∷ []) < suc (suc (count_targets outgoing)) =
          omega (
            arith,
            unmarked-le_length (all_targets outgoing) (start ∷ []),
            length-all_targets outgoing,
          ) in
        let only_start : (x : String) → contains (start ∷ []) x ≡ true → x ≡ start =
          λ x h. ground (arith, eq_iff x start) in
        (
          mark_reachable-AreReached (suc (suc (count_targets outgoing))) (start ∷ []) (start ∷ [])
              (λ x h. subst (Reaches outgoing start) (sym (only_start x h)) at_start)
              (λ x h. subst (Reaches outgoing start) (sym (only_start x h)) at_start) id,
          mark_reachable_complete (suc (suc (count_targets outgoing))) (start ∷ []) (start ∷ [])
              enough (ground (arith, eq_refl start)) (λ x h. inl h),
        )
