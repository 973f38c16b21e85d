-- ===== src/Scheduling/Windows.antt =====
-- BuildPlan of internal/scheduling/planner.go against its windows.
use evalfrog.Prelude.{
  ℕ, zero, suc, ◌+◌, ◌-◌, ◌≤◌, ◌<◌, String, ◌≡◌, refl, sym, ap, ◌∙◌, subst, Bool, true, false, not,
  ◌&&◌, some, List, [], ◌∷◌, ◌++◌, inl, inr, arith, length, all, if◌then◌else◌, nat_eq, ltb, leb,
  All,
}
use native.Mathlib.Nat.{mod-lt}
use evalfrog.Prelude.Assoc.{Assoc}
use evalfrog.Json.{ℤ, pos, negsuc}
use evalfrog.Runtime.Error.{Error, Result, ok, err, message, require, ◌>>=◌, ◌>>◌}
use evalfrog.Scheduling.{
  ResourceClass, Candidate, Inflight, AuthoritySnapshot, PlannedAdmission, is_valid_candidate,
  sort_candidates, is_lane_count, halves_to_one, lane_for,
}
use evalfrog.Scheduling.Plan.{
  count_of, Load, no_load, count_inflight, pool_rooms, Filling, next_candidate, grant, fill,
  LanePlan, Plan, admissions_in, lane_plans, total_of, first_filling, projects_in_turn,
  plan_filling, as_natural, is_negative, plan_of, build_plan,
}
use evalfrog.Scheduling.Select.{fill-keeps, select-cases}
use evalfrog.Scheduling.Rooms.{IsRoom, count_inflight-IsRoom}
use evalfrog.Scheduling.Bounds.{weigh, weigh-append, any_admission, of_class, grant-class}

-- the sum of a weight over the lanes of a plan
unfoldable pub weigh_list : (PlannedAdmission → ℕ) → List PlannedAdmission → ℕ
weigh_list w [] = 0
weigh_list w (admission ∷ rest) = w admission + weigh_list w rest

unfoldable pub weigh_lanes : (PlannedAdmission → ℕ) → List LanePlan → ℕ
unfolding weigh_list
weigh_lanes w [] = 0
weigh_lanes w (plan ∷ rest) = weigh_list w plan.admissions + weigh_lanes w rest

length-weigh_list : (l : List PlannedAdmission) → length l ≡ weigh_list any_admission l
unfolding weigh_list
length-weigh_list [] = refl
length-weigh_list (admission ∷ rest) = omega (arith, length-weigh_list rest)

total_of-weigh_lanes : (plans : List LanePlan) → total_of plans ≡ weigh_lanes any_admission plans
unfolding total_of weigh_lanes
total_of-weigh_lanes [] = refl
total_of-weigh_lanes (plan ∷ rest) =
    omega (arith, length-weigh_list plan.admissions, total_of-weigh_lanes rest)

-- the part of the sum that falls to the lanes from `lane` on, below `end`
between : (PlannedAdmission → ℕ) → ℕ → ℕ → List (ℕ × PlannedAdmission) → ℕ
between w lane end [] = 0
between w lane end ((other, admission) ∷ rest) =
    (if leb lane other && ltb other end then w admission else 0) + between w lane end rest

between-step :
    (w : PlannedAdmission → ℕ) (lane end : ℕ) (planned : List (ℕ × PlannedAdmission))
    → lane < end
    → weigh_list w (admissions_in lane planned) + between w (suc lane) end planned
      ≡ between w lane end planned
unfolding between weigh_list admissions_in
between-step w lane end [] h = omega arith
between-step w lane end ((other, admission) ∷ rest) h =
    ground (arith, between-step w lane end rest h)

between-empty :
    (w : PlannedAdmission → ℕ) (lane : ℕ) (planned : List (ℕ × PlannedAdmission))
    → between w lane lane planned ≡ 0
unfolding between
between-empty w lane [] = refl
between-empty w lane ((other, admission) ∷ rest) = ground (arith, between-empty w lane rest)

abbrev IsInLanes : ℕ → List (ℕ × PlannedAdmission) → Type 0
IsInLanes lanes planned = All (λ entry. entry.0 < lanes) planned

between-all :
    (w : PlannedAdmission → ℕ) (lanes : ℕ) (planned : List (ℕ × PlannedAdmission))
    → IsInLanes lanes planned
    → between w 0 lanes planned ≡ weigh w planned
unfolding between weigh
between-all w lanes [] h = refl
between-all w lanes ((other, admission) ∷ rest) (h, others) =
    ground (arith, between-all w lanes rest others)

sum-suc : (a b : ℕ) → suc a + b ≡ a + suc b
sum-suc a b = omega arith

append-IsInLanes :
    (lanes : ℕ) (planned : List (ℕ × PlannedAdmission)) (lane : ℕ) (admission : PlannedAdmission)
    → lane < lanes
    → IsInLanes lanes planned
    → IsInLanes lanes (planned ++ (lane, admission) ∷ [])
append-IsInLanes lanes [] lane admission h k = (h, tt)
append-IsInLanes lanes (first ∷ rest) lane admission h (at, others) =
    (at, append-IsInLanes lanes rest lane admission h others)

lane_for-less :
    (hash : String → ℕ) (project : String) (lanes : ℕ)
    → 0 < lanes
    → lane_for hash project lanes < lanes
unfolding lane_for
lane_for-less hash project zero h = absurd (omega arith)
lane_for-less hash project (suc n) h = ground (arith, mod-lt (hash project) h)

pub grant-length :
    (hash : String → ℕ) (lanes : ℕ) (f : Filling) (chosen : String × Candidate)
    → weigh any_admission (grant hash lanes chosen f).planned ≡ suc (weigh any_admission f.planned)
unfolding grant weigh
grant-length hash lanes f (project, candidate) = omega (
  arith,
  weigh-append any_admission f.planned (
      (
        lane_for hash project lanes,
        record { project_id = project; resource_class = candidate.resource_class },
      )
      ∷ []),
)

steps-pass :
    (a b : Bool) (x y : Error) (r : Result Load) (f : Load → Plan) {plan : Plan}
    → (do require a x; require b y; load ← r; ok (f load)) ≡ ok plan
    → (load : Load) × (r ≡ ok load) × (a ≡ true) × (b ≡ true) × (plan ≡ f load)
steps-pass true true x y (ok load) f h = (load, refl, refl, refl, cc h)
steps-pass true true x y (err z) f h = absurd (cc h)
steps-pass true false x y r f h = absurd (cc h)
steps-pass false b x y r f h = absurd (cc h)

module _ (hash : String → ℕ) where
  lane_plans-between :
      (w : PlannedAdmission → ℕ) (lanes : ℕ) (candidates : List Candidate)
      (inflight : List Inflight) (planned : List (ℕ × PlannedAdmission)) (lane left : ℕ)
      → weigh_lanes w (lane_plans hash lanes candidates inflight planned lane left)
        ≡ between w lane (lane + left) planned
  unfolding lane_plans weigh_lanes
  lane_plans-between w lanes candidates inflight planned lane zero =
      sym (between-empty w lane planned) ∙ ap (λ end. between w lane end planned) (omega arith)
  lane_plans-between w lanes candidates inflight planned lane (suc left) = omega (
    arith,
    lane_plans-between w lanes candidates inflight planned (suc lane) left,
    ap (λ end. between w (suc lane) end planned) (sum-suc lane left),
    between-step w lane (lane + suc left) planned (omega arith),
  )

  -- every admission is in a lane
  grant-IsInLanes :
      (lanes : ℕ)
      → 0 < lanes
      → (f : Filling) (chosen : String × Candidate) → next_candidate f chosen.0 ≡ some chosen.1
      → IsInLanes lanes f.planned
      → IsInLanes lanes (grant hash lanes chosen f).planned
  unfolding grant
  grant-IsInLanes lanes positive f (project, candidate) next h =
      append-IsInLanes lanes f.planned (lane_for hash project lanes)
        (record { project_id = project; resource_class = candidate.resource_class })
        (lane_for-less hash project lanes positive) h

  -- one admission for each round
  fill-length :
      (lanes : ℕ) (by_project : Assoc ℕ) (projects : List String) (remaining : ℕ) (f : Filling)
      → weigh any_admission (fill hash lanes by_project projects remaining f).planned
        ≤ weigh any_admission f.planned + remaining
  unfolding fill
  fill-length lanes by_project projects zero f = omega arith
  fill-length lanes by_project projects (suc remaining) f =
      elim (select-cases by_project f projects) [
        | inr (same, stuck) ↦ rw (same, fill) (omega arith)
        | inl (chosen, same, least) ↦
            rw (same, fill)
              (omega (
                arith,
                grant-length hash lanes f chosen,
                fill-length lanes by_project projects remaining (grant hash lanes chosen f),
              ))
      ]

  -- The plan's admissions are those of the filling, and the filling is within the windows.
  module _ (lanes global_window : ℕ) (candidates : List Candidate) (pool_windows : Assoc ℤ)
      (epoch : ℕ) (load : Load) where
    abbrev pub filling : Filling
    filling = plan_filling hash lanes global_window candidates pool_windows epoch load

    filling-length : weigh any_admission filling.planned ≤ global_window - length load.seen
    unfolding plan_filling first_filling weigh
    filling-length =
        let start = first_filling candidates pool_windows load in
        omega (
          arith,
          fill-length lanes load.by_project (projects_in_turn epoch start)
              (global_window - length load.seen) start,
        )

    pub filling-class :
        (class : ResourceClass)
        → weigh (of_class class) filling.planned + count_of filling.remaining_pool class
          ≡ count_of (pool_rooms pool_windows load.by_pool) class
    unfolding plan_filling first_filling weigh
    filling-class class =
        let start = first_filling candidates pool_windows load in
        let total = count_of (pool_rooms pool_windows load.by_pool) class in
        fill-keeps hash lanes load.by_project (projects_in_turn epoch start)
          (λ f. weigh (of_class class) f.planned + count_of f.remaining_pool class ≡ total)
          (λ f chosen next h. grant-class hash lanes class f chosen next ∙ h)
          (global_window - length load.seen) start (omega arith)

    filling-IsInLanes : 0 < lanes → IsInLanes lanes filling.planned
    unfolding plan_filling first_filling
    filling-IsInLanes positive =
        let start = first_filling candidates pool_windows load in
        fill-keeps hash lanes load.by_project (projects_in_turn epoch start)
          (λ f. IsInLanes lanes f.planned) (grant-IsInLanes lanes positive)
          (global_window - length load.seen) start tt

    plan_of-weigh :
        (w : PlannedAdmission → ℕ) (snapshot : AuthoritySnapshot)
        → 0 < lanes
        → weigh_lanes w
            (plan_of hash snapshot lanes global_window candidates pool_windows epoch load).lanes
          ≡ weigh w filling.planned
    unfolding plan_of
    plan_of-weigh w snapshot positive =
        lane_plans-between w lanes candidates snapshot.inflight filling.planned 0 lanes
        ∙ ap (λ end. between w 0 end filling.planned) (omega arith)
        ∙ between-all w lanes filling.planned (filling-IsInLanes positive)

  is_lane_count-positive : (n : ℤ) → is_lane_count n ≡ true → 0 < as_natural n
  unfolding is_lane_count halves_to_one
  is_lane_count-positive (pos zero) h = absurd (cc h)
  is_lane_count-positive (pos (suc n)) h = omega arith
  is_lane_count-positive (negsuc n) h = absurd (cc h)

  module _ (snapshot : AuthoritySnapshot) (lane_count global_window : ℤ) (pool_windows : Assoc ℤ)
      (epoch : ℕ) where
    -- what a plan that is returned was made of
    pub build_plan-parts :
        {plan : Plan}
        → build_plan hash snapshot lane_count global_window pool_windows epoch ≡ ok plan
        → (load : Load) × (count_inflight snapshot.inflight no_load ≡ ok load)
          × (0 < as_natural lane_count)
          × (plan
              ≡ plan_of hash snapshot
                  (as_natural lane_count)
                  (as_natural global_window)
                  (sort_candidates snapshot.candidates)
                  pool_windows
                  epoch
                  load)
    unfolding build_plan
    build_plan-parts h =
        let (load, counted, dimensions, valid, same) =
          steps-pass
            (is_lane_count lane_count && not (is_negative global_window) && not (nat_eq epoch 0))
            (all is_valid_candidate snapshot.candidates) (message "planner dimensions are invalid")
            (message "ready candidate identity, version, time and resource class are required")
            (count_inflight snapshot.inflight no_load)
            (λ load.
              plan_of hash snapshot (as_natural lane_count) (as_natural global_window)
                (sort_candidates snapshot.candidates) pool_windows epoch load)
            h in
        (load, counted, is_lane_count-positive lane_count (ground arith), same)

    -- A plan that BuildPlan returns admits no more than the global window leaves beside the attempts
    -- in flight, and of each resource class no more than the window of its pool leaves. An attempt that
    -- is listed more than once counts once, in the class of its first entry; a class without a
    -- window has no room.
    pub build_plan_windows :
        {plan : Plan}
        → build_plan hash snapshot lane_count global_window pool_windows epoch ≡ ok plan
        → (load : Load) × (count_inflight snapshot.inflight no_load ≡ ok load)
          × (plan.total_admissions ≤ as_natural global_window - length load.seen)
          × ((class : ResourceClass)
              → weigh_lanes (of_class class) plan.lanes
                ≤ count_of (pool_rooms pool_windows load.by_pool) class)
          × IsRoom snapshot.inflight pool_windows load
    unfolding plan_of
    build_plan_windows {plan} h =
        let (load, counted, positive, same) = build_plan-parts h in
        let lanes = as_natural lane_count in
        let window = as_natural global_window in
        let candidates = sort_candidates snapshot.candidates in
        let sums = λ (w : PlannedAdmission → ℕ).
          plan_of-weigh lanes window candidates pool_windows epoch load w snapshot positive in
        (
          load,
          counted,
          subst (λ p. p.total_admissions ≤ window - length load.seen) (sym same)
              (omega (
                arith,
                total_of-weigh_lanes
                    (plan_of hash snapshot lanes window candidates pool_windows epoch load).lanes,
                sums any_admission,
                filling-length lanes window candidates pool_windows epoch load,
              )),
          λ class.
              subst
                (λ p.
                  weigh_lanes (of_class class) p.lanes
                  ≤ count_of (pool_rooms pool_windows load.by_pool) class)
                (sym same)
                (omega (
                  arith,
                  sums (of_class class),
                  filling-class lanes window candidates pool_windows epoch load class,
                )),
          count_inflight-IsRoom snapshot.inflight pool_windows counted,
        )
