-- ===== src/Scheduling/Plan.antt =====
-- internal/scheduling/planner.go: BuildPlan and CreditBatches. The admissions planned are one list in
-- the order of the grants, each with its lane; the code has a map from lanes to lists.
use evalfrog.Prelude.{
  ℕ, zero, suc, ◌+◌, ◌-◌, ◌%◌, String, Bool, true, false, not, ◌&&◌, ◌||◌, Option, none, some, List,
  [], ◌∷◌, ◌++◌, if◌then◌else◌, is_blank, nat_eq, ltb, length, all, filter, take, drop, contains,
  sort_strings,
}
use evalfrog.Prelude.Assoc.{Assoc, lookup, insert, keys, entries_of, append_entry}
use evalfrog.Json.{ℤ, pos, negsuc}
use evalfrog.Runtime.Error.{Result, ok, err, message, require, ◌>>◌, ◌>>=◌}
use evalfrog.Scheduling.{
  is_valid_class, Candidate, Inflight, AuthoritySnapshot, PlannedAdmission, is_valid_candidate,
  sort_candidates, is_lane_count, lane_for,
}

-- m[key] of a map of counts
unfoldable pub count_of : Assoc ℕ → String → ℕ
unfolding lookup
count_of m key = elim (lookup key m) [ none ↦ 0 | some n ↦ n ]

-- m[key]++ and m[key]--; a count is only lowered where it is positive
unfoldable pub increase : String → Assoc ℕ → Assoc ℕ
unfolding insert count_of
increase key m = insert key (suc (count_of m key)) m

unfoldable pub decrease : String → Assoc ℕ → Assoc ℕ
unfolding insert count_of
decrease key m = insert key (count_of m key - 1) m

-- the candidates of each project, in the order of the list
unfoldable pub queue_up : List Candidate → Assoc (List Candidate) → Assoc (List Candidate)
unfolding append_entry
queue_up [] queues = queues
queue_up (candidate ∷ rest) queues =
    queue_up rest (append_entry candidate.project_id candidate queues)

-- What is in flight: the attempts seen, and their numbers by project and by class.
pub record Load : Type 0 where
  pub seen : List String
  pub by_project : Assoc ℕ
  pub by_pool : Assoc ℕ

unfoldable pub is_valid_inflight : Inflight → Bool
unfolding is_valid_class
is_valid_inflight value = not (
    is_blank value.attempt_id
    || is_blank value.project_id
    || not (is_valid_class value.resource_class))

-- The loop over the snapshot's reservations; an attempt that was seen counts once.
unfoldable pub count_inflight : List Inflight → Load → Result Load
unfolding is_valid_inflight contains increase
count_inflight [] load = ok load
count_inflight (value ∷ rest) load =
    let repeated = count_inflight rest load in
    let counted = count_inflight rest (record {
      seen = value.attempt_id ∷ load.seen;
      by_project = increase value.project_id load.by_project;
      by_pool = increase value.resource_class load.by_pool;
    }) in
    if not (is_valid_inflight value)
    then err (message "inflight reservation is invalid")
    else (if contains load.seen value.attempt_id then repeated else counted)

-- max(0, window - inflight)
unfoldable pub room : ℤ → ℕ → ℕ
room (pos window) inflight = window - inflight
room (negsuc n) inflight = 0

unfoldable pub pool_rooms : Assoc ℤ → Assoc ℕ → Assoc ℕ
unfolding room count_of
pool_rooms [] by_pool = []
pool_rooms ((class, window) ∷ rest) by_pool =
    (class, room window (count_of by_pool class)) ∷ pool_rooms rest by_pool

-- projects[offset:] and then projects[:offset], with offset = (epoch-1) % len(projects)
unfoldable pub rotate : ℕ → List String → List String
unfolding take drop
rotate epoch [] = []
rotate epoch (project ∷ rest) =
    let offset = (epoch - 1) % suc (length rest) in
    drop offset (project ∷ rest) ++ take offset (project ∷ rest)

-- The variables of the progressive filling, but for remainingGlobal, which bounds its rounds.
pub record Filling : Type 0 where
  pub queues : Assoc (List Candidate)
  pub granted : Assoc ℕ
  pub remaining_pool : Assoc ℕ
  pub planned : List (ℕ × PlannedAdmission)

-- the first candidate of a project, if its pool has room
unfoldable pub next_candidate : Filling → String → Option Candidate
unfolding entries_of count_of
next_candidate f project = elim (entries_of f.queues project) [
  | [] ↦ none
  | candidate ∷ rest ↦
      if nat_eq (count_of f.remaining_pool candidate.resource_class) 0 then none else some candidate
]

module _ (by_project : Assoc ℕ) where
  -- what a project has in flight and was granted
  unfoldable pub level : Filling → String → ℕ
  unfolding count_of
  level f project = count_of by_project project + count_of f.granted project

  -- The loop over the projects: the first of those of the least level, with its next candidate.
  unfoldable pub select :
      Filling → List String → Option (String × Candidate) → Option (String × Candidate)
  unfolding next_candidate level
  select f [] best = best
  select f (project ∷ rest) best = elim (next_candidate f project) [
    | none ↦ select f rest best
    | some candidate ↦ elim best [
      | none ↦ select f rest (some (project, candidate))
      | some (chosen, first) ↦ select f rest (
          if ltb (level f project) (level f chosen)
          then some (project, candidate)
          else some (chosen, first))
    ]
  ]

-- one grant
unfoldable pub grant : (String → ℕ) → ℕ → String × Candidate → Filling → Filling
unfolding lane_for insert entries_of increase decrease drop
grant hash lanes (project, candidate) f = record {
  queues = insert project (drop 1 (entries_of f.queues project)) f.queues;
  granted = increase project f.granted;
  remaining_pool = decrease candidate.resource_class f.remaining_pool;
  planned =
      f.planned
      ++ (
        lane_for hash project lanes,
        record { project_id = project; resource_class = candidate.resource_class },
      )
        ∷ [];
}

-- The loop, one round for each admission of the global window that remains.
unfoldable pub fill : (String → ℕ) → ℕ → Assoc ℕ → List String → ℕ → Filling → Filling
unfolding select grant
fill hash lanes by_project projects zero f = f
fill hash lanes by_project projects (suc remaining) f = elim (select by_project f projects none) [
  | none ↦ f
  | some chosen ↦ fill hash lanes by_project projects remaining (grant hash lanes chosen f)
]

pub record LanePlan : Type 0 where
  pub lane : ℕ
  pub candidates : List Candidate
  pub inflight : List Inflight
  pub admissions : List PlannedAdmission

pub record Plan : Type 0 where
  pub epoch : ℕ
  pub global_window : ℕ
  pub pool_windows : Assoc ℤ
  pub lanes : List LanePlan
  pub total_admissions : ℕ

unfoldable pub admissions_in : ℕ → List (ℕ × PlannedAdmission) → List PlannedAdmission
admissions_in lane [] = []
admissions_in lane ((other, admission) ∷ rest) =
    let later = admissions_in lane rest in if nat_eq other lane then admission ∷ later else later

-- the plans of the lanes from `lane` on; `left` of them
unfoldable pub lane_plans :
    (String → ℕ)
    → ℕ
    → List Candidate
    → List Inflight
    → List (ℕ × PlannedAdmission)
    → ℕ
    → ℕ
    → List LanePlan
unfolding lane_for admissions_in filter
lane_plans hash lanes candidates inflight planned lane zero = []
lane_plans hash lanes candidates inflight planned lane (suc left) =
    record {
      lane = lane;
      candidates =
          filter (λ candidate. nat_eq (lane_for hash candidate.project_id lanes) lane) candidates;
      inflight = filter (λ value. nat_eq (lane_for hash value.project_id lanes) lane) inflight;
      admissions = admissions_in lane planned;
    }
    ∷ lane_plans hash lanes candidates inflight planned (suc lane) left

unfoldable pub total_of : List LanePlan → ℕ
total_of [] = 0
total_of (plan ∷ rest) = length plan.admissions + total_of rest

abbrev pub is_negative : ℤ → Bool
is_negative (pos n) = false
is_negative (negsuc n) = true

-- The variables when the filling starts, and its projects.
unfoldable pub first_filling : List Candidate → Assoc ℤ → Load → Filling
unfolding queue_up pool_rooms
first_filling candidates pool_windows load = record {
  queues = queue_up candidates [];
  granted = [];
  remaining_pool = pool_rooms pool_windows load.by_pool;
  planned = [];
}

unfoldable pub projects_in_turn : ℕ → Filling → List String
unfolding rotate sort_strings keys
projects_in_turn epoch f = rotate epoch (sort_strings (keys f.queues))

abbrev pub no_load : Load
no_load = record { seen = []; by_project = []; by_pool = [] }

-- an int that was tested not to be negative
abbrev pub as_natural : ℤ → ℕ
as_natural (pos n) = n
as_natural (negsuc n) = 0

module _ (hash : String → ℕ) where
  -- the filling of a plan, from the candidates in their order
  unfoldable pub plan_filling : ℕ → ℕ → List Candidate → Assoc ℤ → ℕ → Load → Filling
  unfolding fill first_filling projects_in_turn
  plan_filling lanes global_window candidates pool_windows epoch load =
      let start = first_filling candidates pool_windows load in
      fill hash lanes load.by_project (projects_in_turn epoch start)
        (global_window - length load.seen) start

  -- the plan that is returned
  unfoldable pub plan_of : AuthoritySnapshot → ℕ → ℕ → List Candidate → Assoc ℤ → ℕ → Load → Plan
  unfolding plan_filling lane_plans total_of
  plan_of snapshot lanes global_window candidates pool_windows epoch load =
      let filling = plan_filling lanes global_window candidates pool_windows epoch load in
      let plans = lane_plans hash lanes candidates snapshot.inflight filling.planned 0 lanes in
      record {
        epoch = epoch;
        global_window = global_window;
        pool_windows = pool_windows;
        lanes = plans;
        total_admissions = total_of plans;
      }

  -- BuildPlan
  unfoldable pub build_plan : AuthoritySnapshot → ℤ → ℤ → Assoc ℤ → ℕ → Result Plan
  unfolding is_lane_count is_valid_candidate all sort_candidates count_inflight plan_of
  build_plan snapshot lane_count global_window pool_windows epoch = do
    require (is_lane_count lane_count && not (is_negative global_window) && not (nat_eq epoch 0))
        (message "planner dimensions are invalid")
    require (all is_valid_candidate snapshot.candidates)
        (message "ready candidate identity, version, time and resource class are required")
    load ← count_inflight snapshot.inflight no_load
    ok (
        plan_of snapshot (as_natural lane_count) (as_natural global_window)
          (sort_candidates snapshot.candidates) pool_windows epoch load)

-- The loop of CreditBatches for a positive size; each round takes at least one admission.
unfoldable pub cut_batches {ℓ} : {A : Type ℓ} → ℕ → ℕ → List A → List (List A)
unfolding take drop
cut_batches size zero values = []
cut_batches size (suc fuel) [] = []
cut_batches size (suc fuel) (value ∷ rest) =
    take size (value ∷ rest) ∷ cut_batches size fuel (drop size (value ∷ rest))

unfoldable pub credit_batches : List PlannedAdmission → ℤ → Result (List (List PlannedAdmission))
unfolding cut_batches
credit_batches admissions (negsuc n) = err (message "credit batch size must be positive")
credit_batches admissions (pos zero) = err (message "credit batch size must be positive")
credit_batches admissions (pos (suc n)) = ok (cut_batches (suc n) (length admissions) admissions)
