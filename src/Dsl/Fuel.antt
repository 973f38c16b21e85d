-- ===== src/Dsl/Fuel.antt =====
-- validateEdgesAndGraph of internal/dsl/validator.go: its loops over a queue and a stack end.

use evalfrog.Prelude.{
  ℕ, zero, suc, ◌+◌, ◌-◌, ◌<◌, ◌≤◌, String, ◌≡◌, refl, ap, none, some, List, [], ◌∷◌, ◌++◌, arith,
  length, length-append, if◌then◌else◌, nat_eq, nat_eq_iff, insert_sorted, sort_strings,
}
use evalfrog.Prelude.Assoc.{Assoc, lookup, insert, entries_of}
use evalfrog.Dsl.Graph.{total_indegree, release_targets, count_sorted}

length-insert_sorted :
    (a : String) (xs : List String) → length (insert_sorted a xs) ≡ suc (length xs)
unfolding insert_sorted
length-insert_sorted a [] = refl
length-insert_sorted a (x ∷ xs) = ground (arith, length-insert_sorted a xs)

length-sort_strings : (xs : List String) → length (sort_strings xs) ≡ length xs
unfolding sort_strings
length-sort_strings [] = refl
length-sort_strings (x ∷ xs) =
    omega (arith, length-insert_sorted x (sort_strings xs), length-sort_strings xs)

abbrev degree_in : String → Assoc ℕ → ℕ
degree_in id indegree = elim (lookup id indegree) [ none ↦ 0 | some d ↦ d ]

-- a write of one count changes the sum by the difference
total_indegree-insert :
    (id : String) (d : ℕ) (indegree : Assoc ℕ)
    → total_indegree (insert id d indegree) + degree_in id indegree ≡ total_indegree indegree + d
unfolding total_indegree insert lookup
total_indegree-insert id d [] = omega arith
total_indegree-insert id d ((other, e) ∷ rest) = ground (arith, total_indegree-insert id d rest)

-- the rounds that are left at most
abbrev pub sort_measure : List String → Assoc ℕ → ℕ
sort_measure queue indegree = length queue + total_indegree indegree

release_one :
    (target : String) (queue : List String) (indegree : Assoc ℕ) (d : ℕ)
    → degree_in target indegree ≡ d
    → sort_measure
        (if nat_eq d 1 then sort_strings (queue ++ target ∷ []) else queue)
        (insert target (d - 1) indegree)
      ≤ sort_measure queue indegree
release_one target queue indegree d h = ground (
  arith,
  nat_eq_iff d 1,
  length-sort_strings (queue ++ target ∷ []),
  length-append queue (target ∷ []),
  total_indegree-insert target (d - 1) indegree,
)

release_targets-measure :
    (targets queue : List String) (indegree : Assoc ℕ)
    → sort_measure
        (release_targets targets queue indegree).0
        (release_targets targets queue indegree).1
      ≤ sort_measure queue indegree
unfolding release_targets
release_targets-measure [] queue indegree = omega arith
release_targets-measure (target ∷ rest) queue indegree =
    let d = degree_in target indegree in
    omega (
      arith,
      release_one target queue indegree d refl,
      release_targets-measure rest
          (if nat_eq d 1 then sort_strings (queue ++ target ∷ []) else queue)
          (insert target (d - 1) indegree),
    )

-- The topological sort of the contract ends: with more rounds allowed than there are nodes in the
-- queue and incoming edges counted, neither the number of rounds allowed nor what is returned
-- where they run out changes its result.
pub count_sorted_total :
    (outgoing : Assoc (List String)) (out out' fuel fuel' : ℕ) (queue : List String)
    (indegree : Assoc ℕ)
    → sort_measure queue indegree < fuel
    → sort_measure queue indegree < fuel'
    → count_sorted outgoing out fuel queue indegree
      ≡ count_sorted outgoing out' fuel' queue indegree
unfolding count_sorted
count_sorted_total outgoing out out' zero fuel' queue indegree h k = absurd (omega arith)
count_sorted_total outgoing out out' (suc fuel) zero queue indegree h k = absurd (omega arith)
count_sorted_total outgoing out out' (suc fuel) (suc fuel') [] indegree h k = refl
count_sorted_total outgoing out out' (suc fuel) (suc fuel') (id ∷ queue) indegree h k =
    let less = release_targets-measure (entries_of outgoing id) queue indegree in
    ap suc (
      count_sorted_total outgoing out out' fuel fuel'
        (release_targets (entries_of outgoing id) queue indegree).0
        (release_targets (entries_of outgoing id) queue indegree).1 (omega arith) (omega arith))
