-- ===== src/Scheduling/Bounds.antt =====
-- What the loop of BuildPlan in internal/scheduling/planner.go keeps: the admissions within the
-- windows, and each project's in the order of its queue.
use evalfrog.Prelude.{
  ℕ, ◌+◌, ◌-◌, ◌<◌, String, ◌≡◌, refl, ap, ◌∙◌, subst, none, some, List, [], ◌∷◌, ◌++◌, ◌==◌, inl,
  inr, arith, eq_iff, drop, Bool-cases, if◌then◌else◌, nat_eq, nat_eq_iff,
}
use evalfrog.Prelude.Assoc.{Assoc, insert, lookup-insert, entries_of}
use evalfrog.Scheduling.{ResourceClass, Candidate, PlannedAdmission, lane_for}
use evalfrog.Scheduling.Plan.{count_of, decrease, Filling, next_candidate, grant}

pub count_of-insert :
    (key other : String) (n : ℕ) (m : Assoc ℕ)
    → count_of (insert key n m) other ≡ (if key == other then n else count_of m other)
unfolding count_of
count_of-insert key other n m = ground (arith, lookup-insert key other n m)

pub entries_of-insert {ℓ} :
    {A : Type ℓ} (key other : String) (values : List A) (m : Assoc (List A))
    → entries_of (insert key values m) other ≡ (if key == other then values else entries_of m other)
unfolding entries_of
entries_of-insert key other values m = ground (arith, lookup-insert key other values m)

-- a candidate that is next is the first of its queue, and its pool has room
next-first :
    (queue : List Candidate) (pool : Assoc ℕ) (candidate : Candidate)
    → elim queue [
      | [] ↦ none
      | first ∷ rest ↦ if nat_eq (count_of pool first.resource_class) 0 then none else some first
    ]
      ≡ some candidate
    → (queue ≡ candidate ∷ drop 1 queue) × (0 < count_of pool candidate.resource_class)
unfolding drop
next-first [] pool candidate = λ h. absurd (cc h)
next-first (first ∷ rest) pool candidate =
    elim (Bool-cases (nat_eq (count_of pool first.resource_class) 0)) [
      | inl full ↦ rw full (λ h. absurd (cc h))
      | inr free ↦ rw free (λ h.
          let same : first ≡ candidate = cc h in
          subst (λ c. (first ∷ rest ≡ c ∷ rest) × (0 < count_of pool c.resource_class)) same
            (refl, ground (arith, nat_eq_iff (count_of pool first.resource_class) 0)))
    ]

pub next-queue :
    (f : Filling) (project : String) (candidate : Candidate)
    → next_candidate f project ≡ some candidate
    → (entries_of f.queues project ≡ candidate ∷ drop 1 (entries_of f.queues project))
      × (0 < count_of f.remaining_pool candidate.resource_class)
unfolding next_candidate
next-queue f project candidate h =
    next-first (entries_of f.queues project) f.remaining_pool candidate h

-- the sum of a weight over admissions
unfoldable pub weigh : (PlannedAdmission → ℕ) → List (ℕ × PlannedAdmission) → ℕ
weigh w [] = 0
weigh w ((lane, admission) ∷ rest) = w admission + weigh w rest

pub weigh-append :
    (w : PlannedAdmission → ℕ) (xs ys : List (ℕ × PlannedAdmission))
    → weigh w (xs ++ ys) ≡ weigh w xs + weigh w ys
unfolding weigh
weigh-append w [] ys = omega arith
weigh-append w ((lane, admission) ∷ xs) ys = omega (arith, weigh-append w xs ys)

abbrev pub any_admission : PlannedAdmission → ℕ
any_admission admission = 1

abbrev pub of_class : ResourceClass → PlannedAdmission → ℕ
of_class class admission = if admission.resource_class == class then 1 else 0

-- the classes of a project's admissions, in their order
unfoldable pub classes_of : String → List (ℕ × PlannedAdmission) → List ResourceClass
classes_of project [] = []
classes_of project ((lane, admission) ∷ rest) =
    let later = classes_of project rest in
    if admission.project_id == project then admission.resource_class ∷ later else later

unfoldable pub classes : List Candidate → List ResourceClass
classes [] = []
classes (candidate ∷ rest) = candidate.resource_class ∷ classes rest

classes_of-append :
    (project : String) (xs : List (ℕ × PlannedAdmission)) (lane : ℕ) (admission : PlannedAdmission)
    (later : List ResourceClass)
    → classes_of project (xs ++ (lane, admission) ∷ []) ++ later
      ≡ classes_of project xs
        ++ (if admission.project_id == project then admission.resource_class ∷ later else later)
unfolding classes_of
classes_of-append project [] lane admission later = ground arith
classes_of-append project ((other, x) ∷ xs) lane admission later =
    ground (arith, classes_of-append project xs lane admission later)

-- what is taken from the front of a queue is put in front of the rest
pop-classes :
    (chosen project : String) (candidate : Candidate) (rest : List Candidate)
    (queues : Assoc (List Candidate))
    → entries_of queues chosen ≡ candidate ∷ rest
    → (if chosen == project
        then candidate.resource_class ∷ classes (entries_of (insert chosen rest queues) project)
        else classes (entries_of (insert chosen rest queues) project))
      ≡ classes (entries_of queues project)
unfolding classes
pop-classes chosen project candidate rest queues h = elim (Bool-cases (chosen == project)) [
  | inl same ↦
      let left : entries_of (insert chosen rest queues) project ≡ rest =
        ground (arith, entries_of-insert chosen project rest queues) in
      let right : entries_of queues project ≡ candidate ∷ rest =
        cc (h, (eq_iff chosen project).0 same) in
      rw (same, left, right) refl
  | inr other ↦
      let left : entries_of (insert chosen rest queues) project ≡ entries_of queues project =
        ground (arith, entries_of-insert chosen project rest queues) in
      rw (other, left) refl
]

module _ (hash : String → ℕ) (lanes : ℕ) where
  pub grant-class :
      (class : ResourceClass) (f : Filling) (chosen : String × Candidate)
      → next_candidate f chosen.0 ≡ some chosen.1
      → weigh (of_class class) (grant hash lanes chosen f).planned
          + count_of (grant hash lanes chosen f).remaining_pool class
        ≡ weigh (of_class class) f.planned + count_of f.remaining_pool class
  unfolding grant decrease weigh
  grant-class class f (project, candidate) next =
      let (queue, positive) = next-queue f project candidate next in
      ground (
        arith,
        weigh-append (of_class class) f.planned (
            (
              lane_for hash project lanes,
              record { project_id = project; resource_class = candidate.resource_class },
            )
            ∷ []),
        count_of-insert candidate.resource_class class
            (count_of f.remaining_pool candidate.resource_class - 1) f.remaining_pool,
        eq_iff candidate.resource_class class,
      )

  pub grant-classes_of :
      (project : String) (f : Filling) (chosen : String × Candidate)
      → next_candidate f chosen.0 ≡ some chosen.1
      → classes_of project (grant hash lanes chosen f).planned
          ++ classes (entries_of (grant hash lanes chosen f).queues project)
        ≡ classes_of project f.planned ++ classes (entries_of f.queues project)
  unfolding grant classes drop
  grant-classes_of project f (chosen, candidate) next =
      let rest = drop 1 (entries_of f.queues chosen) in
      classes_of-append project f.planned (lane_for hash chosen lanes)
        (record { project_id = chosen; resource_class = candidate.resource_class })
        (classes (entries_of (insert chosen rest f.queues) project))
      ∙ ap (λ l. classes_of project f.planned ++ l)
          (pop-classes chosen project candidate rest f.queues
            (next-queue f chosen candidate next).0)
