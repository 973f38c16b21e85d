-- ===== src/Engine/Collect.antt =====
-- Tests of the list allNodeRuns of internal/runtime/engine/engine.go, and tests of the entries of the
-- map of nodes.
use evalfrog.Prelude.{
  String, ◌≡◌, refl, ◌∙◌, Bool, true, false, ◌||◌, ◌⊎◌, some, List, [], ◌∷◌, arith, ◌==◌, eq_iff,
  contains, insert_sorted, sort_strings,
}
use evalfrog.Prelude.Assoc.{Assoc, lookup, keys}
use evalfrog.Runtime.Error.{ok}
use evalfrog.Runtime.States.{node_terminal}
use evalfrog.Runtime.Node.{NodeRun}
use evalfrog.Runtime.Completion.{all_terminal, check_settled, is_settled}
use evalfrog.Engine.State.{Engine, sorted_node_ids, collect_nodes, all_node_runs}

contains-insert_sorted :
    (a x : String) (xs : List String) → contains (insert_sorted x xs) a ≡ (a == x || contains xs a)
unfolding contains insert_sorted
contains-insert_sorted a x [] = refl
contains-insert_sorted a x (y ∷ ys) = ground (arith, contains-insert_sorted a x ys)

pub contains-sort_strings :
    (a : String) (xs : List String) → contains (sort_strings xs) a ≡ contains xs a
unfolding contains sort_strings
contains-sort_strings a [] = refl
contains-sort_strings a (x ∷ xs) =
    ground (arith, contains-sort_strings a xs, contains-insert_sorted a x (sort_strings xs))

contains-keys :
    (id : String) (m : Assoc NodeRun) {v : NodeRun}
    → lookup id m ≡ some v
    → contains (keys m) id ≡ true
unfolding lookup keys contains
contains-keys id [] h = cc
contains-keys id ((j, w) ∷ m) {v} h =
    ground (arith, eq_iff j id, eq_iff id j, contains-keys id m {v = v})

module _ (nodes : Assoc NodeRun) (id : String) (n : NodeRun)
    (found : lookup id nodes ≡ some n) where
  all_terminal-collect_nodes :
      (ids : List String)
      → contains ids id ≡ true
      → all_terminal (collect_nodes nodes ids) ≡ true
      → node_terminal n.state ≡ true
  unfolding contains collect_nodes all_terminal
  all_terminal-collect_nodes [] c h = absurd (cc c)
  all_terminal-collect_nodes (j ∷ ids) c h =
      ground (arith, found, eq_iff id j, all_terminal-collect_nodes ids)

  check_settled-collect_nodes :
      (end_id : String) (ids : List String) (present : Bool)
      → contains ids id ≡ true
      → check_settled end_id present (collect_nodes nodes ids) ≡ ok true
      → ((n.execution_node_id == end_id) ≡ true) ⊎ (is_settled n.state ≡ true)
  unfolding contains collect_nodes check_settled
  check_settled-collect_nodes end_id [] present c h = absurd (cc c)
  check_settled-collect_nodes end_id (j ∷ ids) present c h = ground (
    arith,
    found,
    eq_iff id j,
    check_settled-collect_nodes end_id ids true,
    check_settled-collect_nodes end_id ids present,
  )

module _ (e : Engine) (id : String) (n : NodeRun) (found : lookup id e.nodes ≡ some n) where
  listed : contains (sorted_node_ids e) id ≡ true
  unfolding sorted_node_ids
  listed = contains-sort_strings id (keys e.nodes) ∙ contains-keys id e.nodes found

  pub all_terminal-all_node_runs :
      all_terminal (all_node_runs e) ≡ true → node_terminal n.state ≡ true
  unfolding all_node_runs
  all_terminal-all_node_runs h =
      all_terminal-collect_nodes e.nodes id n found (sorted_node_ids e) listed h

  pub check_settled-all_node_runs :
      (end_id : String)
      → check_settled end_id false (all_node_runs e) ≡ ok true
      → ((n.execution_node_id == end_id) ≡ true) ⊎ (is_settled n.state ≡ true)
  unfolding all_node_runs
  check_settled-all_node_runs end_id h =
      check_settled-collect_nodes e.nodes id n found end_id (sorted_node_ids e) false listed h
