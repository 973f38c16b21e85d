-- ===== src/Scheduling/Rooms.antt =====
-- What BuildPlan of internal/scheduling/planner.go counts as in flight, and the room that it leaves in
-- the windows of the pools.
use evalfrog.Prelude.{
  ℕ, suc, ◌+◌, ◌-◌, String, ◌≡◌, refl, subst, ap, ◌∙◌, none, some, List, [], ◌∷◌, ◌==◌, inl, inr,
  arith, eq_iff, length, contains, Bool-cases, if◌then◌else◌,
}
use evalfrog.Prelude.Assoc.{Assoc, lookup}
use evalfrog.Json.{ℤ, pos, negsuc}
use evalfrog.Runtime.Error.{ok, ok-injective}
use evalfrog.Scheduling.{ResourceClass, Inflight}
use evalfrog.Scheduling.Plan.{
  count_of, increase, Load, no_load, count_inflight, is_valid_inflight, room, pool_rooms,
  as_natural,
}
use evalfrog.Scheduling.Bounds.{count_of-insert}

-- the first entry of each attempt, of those that were not seen
unfoldable pub distinct : List String → List Inflight → List Inflight
distinct seen [] = []
distinct seen (value ∷ rest) =
    if contains seen value.attempt_id
    then distinct seen rest
    else value ∷ distinct (value.attempt_id ∷ seen) rest

-- how many of them are of the class
unfoldable pub count_class : ResourceClass → List Inflight → ℕ
count_class class [] = 0
count_class class (value ∷ rest) =
    (if value.resource_class == class then 1 else 0) + count_class class rest

count_of-increase :
    (key other : String) (m : Assoc ℕ)
    → count_of (increase key m) other ≡ count_of m other + (if key == other then 1 else 0)
unfolding increase
count_of-increase key other m =
    ground (arith, count_of-insert key other (suc (count_of m key)) m, eq_iff key other)

-- the load after the loop over the attempts in flight counts each of them once
count_inflight-counts :
    (list : List Inflight) (load : Load) {result : Load}
    → count_inflight list load ≡ ok result
    → (length result.seen ≡ length load.seen + length (distinct load.seen list))
      × ((class : ResourceClass)
          → count_of result.by_pool class
            ≡ count_of load.by_pool class + count_class class (distinct load.seen list))
unfolding count_inflight distinct count_class
count_inflight-counts [] load {result} = λ h.
    subst
      (λ r.
        (length r.seen ≡ length load.seen + 0)
        × ((class : ResourceClass) → count_of r.by_pool class ≡ count_of load.by_pool class + 0))
      (ok-injective h) (omega arith, λ class. omega arith)
count_inflight-counts (value ∷ rest) load {result} = elim (Bool-cases (is_valid_inflight value)) [
  | inr invalid ↦ rw (invalid, count_inflight) (λ h. absurd (cc h))
  | inl valid ↦ elim (Bool-cases (contains load.seen value.attempt_id)) [
    | inl seen ↦ rw (valid, seen, count_inflight, distinct) (count_inflight-counts rest load)
    | inr new ↦
        rw (valid, new, count_inflight, distinct)
          (λ h.
            let counted : Load = record {
              seen = value.attempt_id ∷ load.seen;
              by_project = increase value.project_id load.by_project;
              by_pool = increase value.resource_class load.by_pool;
            } in
            let (longer, classes) = count_inflight-counts rest counted h in
            (
              (omega (arith, longer)),
              λ class.
                  (omega (
                    arith,
                    classes class,
                    count_of-increase value.resource_class class load.by_pool,
                  )),
            ))
  ]
]

room-natural : (window : ℤ) (n : ℕ) → room window n ≡ as_natural window - n
unfolding room
room-natural (pos window) n = refl
room-natural (negsuc window) n = omega arith

-- a pool has the room that its window leaves
count_of-pool_rooms :
    (pool_windows : Assoc ℤ) (by_pool : Assoc ℕ) (class : ResourceClass)
    → count_of (pool_rooms pool_windows by_pool) class ≡ (elim (lookup class pool_windows) [
      | none ↦ 0
      | some window ↦ as_natural window - count_of by_pool class
    ])
unfolding pool_rooms room count_of lookup
count_of-pool_rooms [] by_pool class = refl
count_of-pool_rooms ((other, window) ∷ rest) by_pool class = elim (Bool-cases (other == class)) [
  | inl same ↦
      rw (same, lookup, count_of, pool_rooms)
        (room-natural window (count_of by_pool other)
          ∙ ap (λ key. as_natural window - count_of by_pool key) ((eq_iff other class).0 same))
  | inr differs ↦
      rw (differs, lookup, count_of, pool_rooms) (count_of-pool_rooms rest by_pool class)
]

-- What the windows leave beside the distinct attempts in flight.
pub record IsRoom (inflight : List Inflight) (pool_windows : Assoc ℤ) (load : Load) : Type 0 where
  pub all_attempts : length load.seen ≡ length (distinct [] inflight)
  pub with_window :
      (class : ResourceClass) (window : ℤ)
      → lookup class pool_windows ≡ some window
      → count_of (pool_rooms pool_windows load.by_pool) class
        ≡ as_natural window - count_class class (distinct [] inflight)
  pub without_window :
      (class : ResourceClass)
      → lookup class pool_windows ≡ none
      → count_of (pool_rooms pool_windows load.by_pool) class ≡ 0

pub count_inflight-IsRoom :
    (inflight : List Inflight) (pool_windows : Assoc ℤ) {load : Load}
    → count_inflight inflight no_load ≡ ok load
    → IsRoom inflight pool_windows load
unfolding count_of lookup
count_inflight-IsRoom inflight pool_windows {load} h =
    let (seen, classes) = count_inflight-counts inflight no_load h in
    record {
      all_attempts = omega (arith, seen);
      with_window = λ class window has.
          count_of-pool_rooms pool_windows load.by_pool class
          ∙ (rw has (ap (λ n. as_natural window - n) (omega (arith, classes class))));
      without_window =
          λ class missing. count_of-pool_rooms pool_windows load.by_pool class ∙ (rw missing refl);
    }
