-- ===== src/Dsl/Reach.antt =====
-- The function `reach` of internal/dsl/validator.go: what one round does to the marked nodes and to the
-- stack, and how many rounds there are.
use evalfrog.Prelude.{
  ℕ, ◌+◌, ◌<◌, ◌≤◌, String, ◌≡◌, refl, true, false, List, [], ◌∷◌, ◌++◌, ◌==◌, arith, length,
  length-append, if◌then◌else◌, eq_iff, eq_refl, contains, contains-append, Bool-cases, inl, inr,
  ◌⊎◌,
}
use evalfrog.Prelude.Assoc.{Assoc, lookup, entries_of}
use evalfrog.Dsl.Graph.{push_unmarked, count_targets}

-- What one call of push_unmarked does to the marked nodes and to the stack.

pub push-keeps_marked :
    (targets marked stack : List String) (x : String)
    → contains marked x ≡ true
    → contains (push_unmarked targets marked stack).0 x ≡ true
unfolding push_unmarked contains
push-keeps_marked [] marked stack x h = h
push-keeps_marked (next ∷ rest) marked stack x h =
    push-keeps_marked rest (if contains marked next then marked else next ∷ marked)
      (if contains marked next then stack else next ∷ stack) x (ground arith)

pub push-keeps_stack :
    (targets marked stack : List String) (x : String)
    → contains stack x ≡ true
    → contains (push_unmarked targets marked stack).1 x ≡ true
unfolding push_unmarked contains
push-keeps_stack [] marked stack x h = h
push-keeps_stack (next ∷ rest) marked stack x h =
    push-keeps_stack rest (if contains marked next then marked else next ∷ marked)
      (if contains marked next then stack else next ∷ stack) x (ground arith)

pub push-marks :
    (targets marked stack : List String) (x : String)
    → contains targets x ≡ true
    → contains (push_unmarked targets marked stack).0 x ≡ true
unfolding push_unmarked contains
push-marks [] marked stack x h = absurd (cc h)
push-marks (next ∷ rest) marked stack x h =
    let marked' = if contains marked next then marked else next ∷ marked in
    let stack' = if contains marked next then stack else next ∷ stack in
    elim (Bool-cases (x == next)) [
      | inl same ↦ push-keeps_marked rest marked' stack' x (ground (arith, eq_iff x next))
      | inr other ↦ push-marks rest marked' stack' x (ground arith)
    ]

-- a node that is marked was marked before, or is new on the stack and one of the targets
pub push-origin :
    (targets marked stack : List String) (x : String)
    → contains (push_unmarked targets marked stack).0 x ≡ true
    → (contains marked x ≡ true)
      ⊎ ((contains (push_unmarked targets marked stack).1 x ≡ true) × (contains targets x ≡ true))
unfolding push_unmarked contains
push-origin [] marked stack x h = inl h
push-origin (next ∷ rest) marked stack x h =
    let marked' = if contains marked next then marked else next ∷ marked in
    let stack' = if contains marked next then stack else next ∷ stack in
    ground (arith, push-origin rest marked' stack' x, push-keeps_stack rest marked' stack' x)

pub push-stack_origin :
    (targets marked stack : List String) (x : String)
    → contains (push_unmarked targets marked stack).1 x ≡ true
    → (contains stack x ≡ true) ⊎ (contains targets x ≡ true)
unfolding push_unmarked contains
push-stack_origin [] marked stack x h = inl h
push-stack_origin (next ∷ rest) marked stack x h =
    let marked' = if contains marked next then marked else next ∷ marked in
    let stack' = if contains marked next then stack else next ∷ stack in
    ground (arith, push-stack_origin rest marked' stack' x)

-- The rounds: each takes one node from the stack, and a node is put there once, when it is marked.

unfoldable pub unmarked : List String → List String → ℕ
unmarked [] marked = 0
unmarked (x ∷ xs) marked = (if contains marked x then 0 else 1) + unmarked xs marked

pub unmarked-le_length : (xs marked : List String) → unmarked xs marked ≤ length xs
unfolding unmarked
unmarked-le_length [] marked = omega arith
unmarked-le_length (x ∷ xs) marked = ground (arith, unmarked-le_length xs marked)

unmarked-cons_le :
    (xs marked : List String) (n : String) → unmarked xs (n ∷ marked) ≤ unmarked xs marked
unfolding unmarked contains
unmarked-cons_le [] marked n = omega arith
unmarked-cons_le (x ∷ xs) marked n = ground (arith, unmarked-cons_le xs marked n)

unmarked-cons_less :
    (xs marked : List String) (n : String)
    → contains xs n ≡ true
    → contains marked n ≡ false
    → unmarked xs (n ∷ marked) < unmarked xs marked
unfolding unmarked contains
unmarked-cons_less [] marked n h k = absurd (cc h)
unmarked-cons_less (x ∷ xs) marked n h k = elim (Bool-cases (n == x)) [
  | inl same ↦ ground (arith, eq_iff n x, eq_refl n, unmarked-cons_le xs marked n)
  | inr other ↦
      ground (arith, eq_iff x n, eq_iff n x, unmarked-cons_less xs marked n (ground arith) k)
]

abbrev AreIn : List String → List String → Type 0
AreIn xs all_targets = (x : String) → contains xs x ≡ true → contains all_targets x ≡ true

pub push-measure :
    (all_targets targets marked stack : List String)
    → AreIn targets all_targets
    → length (push_unmarked targets marked stack).1
        + unmarked all_targets (push_unmarked targets marked stack).0
      ≤ length stack + unmarked all_targets marked
unfolding push_unmarked contains
push-measure all_targets [] marked stack within = omega arith
push-measure all_targets (next ∷ rest) marked stack within =
    let later =
      push-measure all_targets rest (if contains marked next then marked else next ∷ marked)
        (if contains marked next then stack else next ∷ stack) (λ x h. within x (ground arith)) in
    elim (Bool-cases (contains marked next)) [
      | inl known ↦ ground arith
      | inr new ↦
          let less =
            unmarked-cons_less all_targets marked next (within next (ground (arith, eq_refl next)))
              new in
          ground arith
    ]

-- the targets of all entries of the map
unfoldable pub all_targets : Assoc (List String) → List String
all_targets [] = []
all_targets ((id, targets) ∷ rest) = targets ++ all_targets rest

pub entries_of-AreIn :
    (outgoing : Assoc (List String)) (id : String)
    → AreIn (entries_of outgoing id) (all_targets outgoing)
unfolding entries_of lookup all_targets contains
entries_of-AreIn [] id x h = absurd (cc h)
entries_of-AreIn ((other, targets) ∷ rest) id x h =
    ground (arith, contains-append targets (all_targets rest) x, entries_of-AreIn rest id x)

pub length-all_targets :
    (outgoing : Assoc (List String)) → length (all_targets outgoing) ≡ count_targets outgoing
unfolding all_targets count_targets
length-all_targets [] = refl
length-all_targets ((id, targets) ∷ rest) =
    omega (arith, length-append targets (all_targets rest), length-all_targets rest)
