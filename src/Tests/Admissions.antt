-- ===== src/Tests/Admissions.antt =====
-- A plan of admissions for two projects, and the theorems of the scheduler at it.
use evalfrog.Prelude.{
  some, ℕ, suc, ◌-◌, ◌≤◌, ◌<◌, ◌↔◌, ◌⊎◌, ◌≡◌, refl, String, length, true, false, List, [], ◌∷◌,
  ◌++◌, arith, All, contains, concat, filter,
}
use evalfrog.Prelude.Assoc.{Assoc, entries_of}
use evalfrog.Json.{ℤ, pos}
use evalfrog.Runtime.Error.{Result, ok, err}
use evalfrog.Dsl.Compatibility.{supports}
use evalfrog.Scheduling.{ResourceClass, Candidate, AuthoritySnapshot, PlannedAdmission}
use evalfrog.Scheduling.Plan.{
  Load, no_load, count_inflight, pool_rooms, count_of, Plan, build_plan, credit_batches, level,
}
use evalfrog.Scheduling.Rooms.{IsRoom}
use evalfrog.Scheduling.Bounds.{weigh, any_admission, of_class, classes_of, classes}
use evalfrog.Scheduling.Windows.{weigh_lanes, build_plan_windows}
use evalfrog.Scheduling.Fairness.{MayGrow}
use evalfrog.Scheduling.MaxMin.{
  filled, of_project, plan_filling_fair, plan_filling_stops, plan_filling_conserves,
  plan_filling_in_order, IsHeldBack,
}
use Prim.Native.Nat.{◌+◌, ◌/◌}
use evalfrog.Scheduling.Capacity.{Limit, Windows, bound_windows, bound_windows_bounded, AreBounded}
use evalfrog.Scheduling.Batches.{IsBatch, credit_batches_cut}
use evalfrog.Scheduling.Workers.{
  WorkerRegistration, validate_registration, belongs_to, validate_registration_complete,
}
use evalfrog.Scheduling.Merge.{Reservation, attempts_of, merge_reservations}
use evalfrog.Scheduling.Reserved.{offers, merge_reservations_held}

abbrev hash : String → ℕ
hash project = 7

abbrev waiting : String → String → ℕ → Candidate
waiting project node priority = record {
  project_id = project;
  run_id = "run";
  node_run_id = node;
  execution_node_id = "node";
  state_version = 1;
  priority = pos priority;
  ready_at = 5;
  resource_class = "builtin";
}

abbrev snapshot : AuthoritySnapshot
snapshot = record {
  candidates =
      waiting "p" "n1" 0 ∷ waiting "p" "n2" 3 ∷ waiting "q" "n3" 0 ∷ waiting "q" "n4" 0 ∷ [];
  inflight = (record { attempt_id = "t1"; project_id = "p"; resource_class = "builtin" }) ∷ [];
}

abbrev windows : Assoc ℤ
windows = ("builtin", pos 9) ∷ ("sandbox", pos 1) ∷ []

abbrev or_no_plan : Result Plan → Plan
or_no_plan (ok plan) = plan
or_no_plan (err x) = record {
  epoch = 0;
  global_window = 0;
  pool_windows = [];
  lanes = [];
  total_admissions = 0;
}

unfoldable plan : Plan
unfolding build_plan
plan = or_no_plan (build_plan hash snapshot (pos 4) (pos 4) windows 2)

planned : build_plan hash snapshot (pos 4) (pos 4) windows 2 ≡ ok plan
unfolding plan
planned = refl

three_admitted : plan.total_admissions ≡ 3
unfolding plan
three_admitted = refl

build_plan_windows_example :
    (load : Load) × (count_inflight snapshot.inflight no_load ≡ ok load)
    × (plan.total_admissions ≤ 4 - length load.seen)
    × ((class : ResourceClass)
        → weigh_lanes (of_class class) plan.lanes
          ≤ count_of (pool_rooms windows load.by_pool) class)
    × IsRoom snapshot.inflight windows load
build_plan_windows_example = build_plan_windows hash snapshot (pos 4) (pos 4) windows 2 planned

abbrev one_in_flight : Load
one_in_flight = record {
  seen = "t1" ∷ [];
  by_project = ("p", 1) ∷ [];
  by_pool = ("builtin", 1) ∷ [];
}

p_waits : MayGrow (filled hash 4 3 snapshot.candidates windows 2 one_in_flight) "p"
unfolding build_plan
p_waits = (waiting "p" "n1" 0, refl)

q_granted : 0 < count_of (filled hash 4 3 snapshot.candidates windows 2 one_in_flight).granted "q"
unfolding build_plan
q_granted = omega arith

plan_filling_fair_example :
    level one_in_flight.by_project (filled hash 4 3 snapshot.candidates windows 2 one_in_flight) "q"
    ≤ suc (
        level one_in_flight.by_project
          (filled hash 4 3 snapshot.candidates windows 2 one_in_flight)
          "p")
plan_filling_fair_example =
    plan_filling_fair hash 4 3 snapshot.candidates windows 2 one_in_flight "q" "p" p_waits q_granted

plan_filling_stops_example :
    (weigh any_admission (filled hash 4 3 snapshot.candidates windows 2 one_in_flight).planned
      ≡ 3 - length one_in_flight.seen)
    ⊎ ((project : String)
        → IsHeldBack (filled hash 4 3 snapshot.candidates windows 2 one_in_flight) project)
plan_filling_stops_example = plan_filling_stops hash 4 3 snapshot.candidates windows 2 one_in_flight

plan_filling_conserves_example :
    (weigh any_admission (filled hash 4 3 snapshot.candidates windows 2 one_in_flight).planned
      ≡ 3 - length one_in_flight.seen)
    ⊎ ((weigh
            (of_class "builtin")
            (filled hash 4 3 snapshot.candidates windows 2 one_in_flight).planned
          ≡ count_of (pool_rooms windows one_in_flight.by_pool) "builtin")
        ⊎ ((project : String)
            → classes_of project
                (filled hash 4 3 snapshot.candidates windows 2 one_in_flight).planned
              ≡ classes (filter (of_project project) snapshot.candidates)))
plan_filling_conserves_example =
    plan_filling_conserves hash 4 3 snapshot.candidates windows 2 one_in_flight "builtin"
      (refl, (refl, (refl, (refl, tt))))

-- a candidate whose pool has no window, before one whose pool is free: nothing is admitted
abbrev held_snapshot : AuthoritySnapshot
held_snapshot = record {
  candidates = record (waiting "p" "n1" 3) { resource_class = "sandbox" } ∷ waiting "p" "n2" 0 ∷ [];
  inflight = [];
}

held_back :
    (or_no_plan
      (build_plan hash held_snapshot (pos 4) (pos 4) (("builtin", pos 9) ∷ []) 2)).total_admissions
    ≡ 0
unfolding build_plan
held_back = refl

held_back_accepted :
    (or_no_plan (build_plan hash held_snapshot (pos 4) (pos 4) (("builtin", pos 9) ∷ []) 2)).epoch
    ≡ 2
unfolding build_plan
held_back_accepted = refl

plan_filling_in_order_example :
    classes_of "q" (filled hash 4 3 snapshot.candidates windows 2 one_in_flight).planned
      ++ classes
          (entries_of (filled hash 4 3 snapshot.candidates windows 2 one_in_flight).queues "q")
    ≡ classes (filter (of_project "q") snapshot.candidates)
plan_filling_in_order_example =
    plan_filling_in_order hash 4 3 snapshot.candidates windows 2 one_in_flight "q"

abbrev admission : PlannedAdmission
admission = record { project_id = "p"; resource_class = "builtin" }

credit_batches_cut_example :
    (batches : List (List PlannedAdmission)) × (credit_batches
        (admission ∷ admission ∷ admission ∷ [])
        (pos 2)
      ≡ ok batches)
    × (concat batches ≡ admission ∷ admission ∷ admission ∷ [])
    × All (IsBatch 2) batches
credit_batches_cut_example = credit_batches_cut (admission ∷ admission ∷ admission ∷ []) 1

abbrev registration : WorkerRegistration
registration = record {
  worker_id = "w";
  executor_build = "1";
  resource_class = "builtin";
  slots = pos 2;
  capabilities =
      record { type_name = "task.rpc"; version = 1 }
      ∷ record { type_name = "task.http"; version = 1 }
      ∷ [];
  ttl = pos 1000;
}

registered : validate_registration registration ≡ ok tt
unfolding validate_registration
registered = refl

validate_registration_complete_example :
    (supports registration.capabilities (record { type_name = "task.http"; version = 1 }) ≡ true)
    ↔ (belongs_to "builtin" (record { type_name = "task.http"; version = 1 }) ≡ true)
validate_registration_complete_example =
    validate_registration_complete registration registered
      (record { type_name = "task.http"; version = 1 })

abbrev reservation : Reservation
reservation = record {
  attempt_id = "t2";
  project_id = "q";
  lane = pos 3;
  resource_class = "builtin";
  candidate = waiting "q" "n3" 0;
  confirmed = false;
  epoch = "1";
}

merge_reservations_held_example :
    All
      (λ r.
        r.confirmed ≡ false
        → (contains
              (attempts_of
                (merge_reservations hash snapshot (reservation ∷ []) 4).snapshot.inflight)
              r.attempt_id
            ≡ true)
          × (offers
                (merge_reservations hash snapshot (reservation ∷ []) 4).snapshot.candidates
                r.candidate.node_run_id
              ≡ false))
      (reservation ∷ [])
merge_reservations_held_example = merge_reservations_held hash snapshot (reservation ∷ []) 4

-- a tenth, rounded up
abbrev tenth : Limit
tenth = record { is_share = true; portion = λ n. (n + 9) / 10 }

abbrev fifty : Windows
fifty = record { global = pos 50; pools = some (("builtin", pos 50) ∷ []) }

abbrev seventy : Windows
seventy = record { global = pos 70; pools = some (("builtin", pos 70) ∷ []) }

abbrev fifty_five : Windows
fifty_five = record { global = pos 55; pools = some (("builtin", pos 55) ∷ []) }

grown : bound_windows tenth fifty seventy ≡ ok fifty_five
unfolding bound_windows
grown = refl

bound_windows_bounded_example : AreBounded tenth fifty seventy fifty_five
bound_windows_bounded_example = bound_windows_bounded tenth fifty seventy grown
