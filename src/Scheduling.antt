-- ===== src/Scheduling.antt =====
-- internal/scheduling/model.go: resource classes, candidates, reservations in flight and lanes.
-- A project's lane is its hash by hash/fnv, a parameter, modulo the number of lanes. That number is a
-- power of two, so that the code's `& (laneCount-1)` is the remainder.
pub mod Plan
pub mod Select
pub mod Bounds
pub mod Rooms
pub mod Windows
pub mod Fairness
pub mod MaxMin
pub mod Batches
pub mod Capacity
pub mod Workers
pub mod Merge
pub mod Reserved
use Prim.Native.Nat.{Ordering}
use Prim.Native.String.{compare}
use evalfrog.Prelude.{
  ℕ, zero, suc, ◌+◌, ◌-◌, ◌/◌, ◌%◌, String, Bool, true, false, not, ◌&&◌, ◌||◌, List, [], ◌∷◌, ◌==◌,
  if◌then◌else◌, nat_eq, ltb, is_blank,
}
use evalfrog.Json.{ℤ, pos, negsuc}
use evalfrog.Runtime.Error.{Result, ok, err, message}

abbrev pub ResourceClass : Type 0
ResourceClass = String

-- ResourceClass.Valid
unfoldable pub is_valid_class : ResourceClass → Bool
is_valid_class class = class == "builtin" || class == "sandbox"

pub record Candidate : Type 0 where
  pub project_id : String
  pub run_id : String
  pub node_run_id : String
  pub execution_node_id : String
  pub state_version : ℕ
  pub priority : ℤ
  pub ready_at : ℕ
  pub resource_class : ResourceClass

pub record Inflight : Type 0 where
  pub attempt_id : String
  pub project_id : String
  pub resource_class : ResourceClass

pub record AuthoritySnapshot : Type 0 where
  pub candidates : List Candidate
  pub inflight : List Inflight

pub record PlannedAdmission : Type 0 where
  pub project_id : String
  pub resource_class : ResourceClass

-- Candidate.Validate has no error
unfoldable pub is_valid_candidate : Candidate → Bool
unfolding is_valid_class
is_valid_candidate candidate = not (
    is_blank candidate.project_id
    || is_blank candidate.run_id
    || is_blank candidate.node_run_id
    || is_blank candidate.execution_node_id
    || nat_eq candidate.state_version 0
    || nat_eq candidate.ready_at 0
    || not (is_valid_class candidate.resource_class))

abbrev int_below : ℤ → ℤ → Bool
int_below (pos a) (pos b) = ltb a b
int_below (pos a) (negsuc b) = false
int_below (negsuc a) (pos b) = true
int_below (negsuc a) (negsuc b) = ltb b a

-- The `less` of sortCandidates; it compares later fields where the earlier ones are equal.
unfoldable pub candidate_below : Candidate → Candidate → Bool
candidate_below left right =
    if left.project_id == right.project_id
    then (if int_below left.priority right.priority
        then false
        else (if int_below right.priority left.priority
            then true
            else (if nat_eq left.ready_at right.ready_at
                then elim (compare left.node_run_id right.node_run_id) [
                  | Ordering.lt ↦ true
                  | _ ↦ false
                ]
                else ltb left.ready_at right.ready_at)))
    else elim (compare left.project_id right.project_id) [ Ordering.lt ↦ true | _ ↦ false ]

unfoldable pub insert_candidate : Candidate → List Candidate → List Candidate
unfolding candidate_below
insert_candidate candidate [] = candidate ∷ []
insert_candidate candidate (other ∷ rest) =
    let later = insert_candidate candidate rest in
    if candidate_below other candidate then other ∷ later else candidate ∷ other ∷ rest

unfoldable pub sort_candidates : List Candidate → List Candidate
unfolding insert_candidate
sort_candidates [] = []
sort_candidates (candidate ∷ rest) = insert_candidate candidate (sort_candidates rest)

-- `n & (n-1) == 0` for a positive n: halving ends in 1 without a remainder before that
unfoldable pub halves_to_one : ℕ → ℕ → Bool
halves_to_one zero n = false
halves_to_one (suc fuel) n =
    let half = halves_to_one fuel (n / 2) in if nat_eq n 1 then true else nat_eq (n % 2) 0 && half

-- the number of lanes is positive and a power of two
unfoldable pub is_lane_count : ℤ → Bool
unfolding halves_to_one
is_lane_count (pos n) = halves_to_one n n
is_lane_count (negsuc n) = false

-- The lane that LaneFor returns for a number of lanes that is one; beside its error, which the callers
-- ignore or have excluded, it is 0.
unfoldable pub lane_for : (String → ℕ) → String → ℕ → ℕ
lane_for hash project_id zero = 0
lane_for hash project_id (suc n) = if is_blank project_id then 0 else hash project_id % suc n
