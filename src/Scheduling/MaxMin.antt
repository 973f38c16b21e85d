-- ===== src/Scheduling/MaxMin.antt =====
-- The progressive filling of BuildPlan in internal/scheduling/planner.go, as it ends. It looks at the
-- first candidate of a queue only, so that one whose pool has no room holds back those behind it.
use evalfrog.Prelude.{
  ℕ, zero, suc, ◌+◌, ◌-◌, ◌%◌, ◌≤◌, ◌<◌, String, ◌≡◌, refl, sym, subst, ap, ◌∙◌, Bool, true, none,
  some, nat_eq, All, if◌then◌else◌, List, [], ◌∷◌, ◌++◌, ◌==◌, inl, inr, ◌⊎◌, arith, eq_iff, length,
  drop, take, filter, contains, contains-append, contains-sort_strings, sort_strings,
  take-append_drop, Bool-cases, Option-cases,
}
use mathlib.Core.List.{append-nil, append_assoc}
use evalfrog.Prelude.Assoc.{Assoc, lookup, insert, keys, entries_of, append_entry}
use evalfrog.Json.{ℤ}
use evalfrog.Scheduling.{ResourceClass, Candidate}
use evalfrog.Scheduling.Plan.{
  count_of, queue_up, Load, Filling, next_candidate, level, grant, fill, rotate, first_filling,
  projects_in_turn, plan_filling, pool_rooms,
}
use evalfrog.Scheduling.Select.{select-cases, fill-keeps}
use evalfrog.Scheduling.Bounds.{
  entries_of-insert, next-queue, weigh, any_admission, of_class, classes_of, classes,
  grant-classes_of,
}
use evalfrog.Scheduling.Windows.{grant-length, filling-class}
use evalfrog.Scheduling.Fairness.{MayGrow, fill_fair, fill-MayGrow}

contains-rotate :
    (epoch : ℕ) (xs : List String) (x : String) → contains (rotate epoch xs) x ≡ contains xs x
unfolding rotate contains
contains-rotate epoch [] x = refl
contains-rotate epoch (first ∷ rest) x =
    let offset = (epoch - 1) % suc (length rest) in
    let whole =
      sym (contains-append (take offset (first ∷ rest)) (drop offset (first ∷ rest)) x)
      ∙ ap (λ l. contains l x) (take-append_drop offset (first ∷ rest)) in
    ground
      (arith, whole, contains-append (drop offset (first ∷ rest)) (take offset (first ∷ rest)) x)

contains-keys {ℓ} :
    {A : Type ℓ} (m : Assoc (List A)) (key : String) (first : A) (rest : List A)
    → entries_of m key ≡ first ∷ rest
    → contains (keys m) key ≡ true
unfolding entries_of lookup contains keys
contains-keys [] key first rest h = absurd (cc h)
contains-keys ((other, values) ∷ m) key first rest h = elim (Bool-cases (other == key)) [
  | inl same ↦ ground (arith, eq_iff other key, eq_iff key other)
  | inr differs ↦
      let later = contains-keys m key first rest (rw (differs, entries_of, lookup) at h) in
      ground arith
]

projects_in_turn-TakesPart :
    (epoch : ℕ) (f : Filling) (q : String)
    → MayGrow f q
    → contains (projects_in_turn epoch f) q ≡ true
unfolding projects_in_turn
projects_in_turn-TakesPart epoch f q (c, may) =
    contains-rotate epoch (sort_strings (keys f.queues)) q
    ∙ contains-sort_strings (keys f.queues) q
    ∙ contains-keys f.queues q c (drop 1 (entries_of f.queues q)) (next-queue f q c may).0

-- the loop uses up its rounds, or stops where no project may be granted
fill-stuck :
    (hash : String → ℕ) (lanes : ℕ) (by_project : Assoc ℕ) (projects : List String) (remaining : ℕ)
    (f : Filling)
    → (weigh any_admission (fill hash lanes by_project projects remaining f).planned
        ≡ weigh any_admission f.planned + remaining)
      ⊎ ((q : String)
          → contains projects q ≡ true
          → next_candidate (fill hash lanes by_project projects remaining f) q ≡ none)
unfolding fill
fill-stuck hash lanes by_project projects zero f = inl (omega arith)
fill-stuck hash lanes by_project projects (suc remaining) f =
    elim (select-cases by_project f projects) [
      | inr (same, stuck) ↦ rw (same, fill) (inr stuck)
      | inl (chosen, same, least) ↦
          rw (same, fill)
            (elim (fill-stuck hash lanes by_project projects remaining
              (grant hash lanes chosen f)) [
                | inl used ↦ inl (omega (arith, used, grant-length hash lanes f chosen))
                | inr stuck ↦ inr stuck
              ])
    ]

abbrev pub of_project : String → Candidate → Bool
of_project project candidate = candidate.project_id == project

queue_up-entries_of :
    (candidates : List Candidate) (queues : Assoc (List Candidate)) (project : String)
    → entries_of (queue_up candidates queues) project
      ≡ entries_of queues project ++ filter (of_project project) candidates
unfolding queue_up append_entry filter
queue_up-entries_of [] queues project = sym (append-nil (entries_of queues project))
queue_up-entries_of (candidate ∷ rest) queues project =
    let own = candidate.project_id in
    let longer = entries_of queues own ++ candidate ∷ [] in
    queue_up-entries_of rest (insert own longer queues) project
    ∙ ap (λ l. l ++ filter (of_project project) rest) (entries_of-insert own project longer queues)
    ∙ elim (Bool-cases (own == project)) [
      | inl same ↦ rw same (
          append_assoc (entries_of queues own) (candidate ∷ []) (filter (of_project project) rest)
          ∙ ap (λ key. entries_of queues key ++ candidate ∷ filter (of_project project) rest)
              ((eq_iff own project).0 same))
      | inr other ↦ rw other refl
    ]

-- the queue is empty, or begins with a candidate whose pool has no room
abbrev pub IsHeldBack : Filling → String → Type 0
IsHeldBack f project =
    (entries_of f.queues project ≡ [])
    ⊎ ((first : Candidate) × (rest : List Candidate) × (entries_of f.queues project ≡ first ∷ rest)
        × (count_of f.remaining_pool first.resource_class ≡ 0))

queue-IsHeldBack :
    (queue : List Candidate) (pool : Assoc ℕ)
    → elim queue [
      | [] ↦ none
      | first ∷ rest ↦ if nat_eq (count_of pool first.resource_class) 0 then none else some first
    ]
      ≡ none
    → (queue ≡ [])
      ⊎ ((first : Candidate) × (rest : List Candidate) × (queue ≡ first ∷ rest)
          × (count_of pool first.resource_class ≡ 0))
queue-IsHeldBack [] pool h = inl refl
queue-IsHeldBack (first ∷ rest) pool h = inr (first, rest, refl, ground arith)

next-IsHeldBack :
    (f : Filling) (project : String) → next_candidate f project ≡ none → IsHeldBack f project
unfolding next_candidate
next-IsHeldBack f project h = queue-IsHeldBack (entries_of f.queues project) f.remaining_pool h

All-middle :
    (class : ResourceClass) (before : List ResourceClass) (here : ResourceClass)
    (after : List ResourceClass)
    → All (λ c. c ≡ class) (before ++ here ∷ after)
    → here ≡ class
All-middle class [] here after (h, later) = h
All-middle class (other ∷ before) here after (h, later) = All-middle class before here after later

-- the classes of a project's candidates, where all candidates are of one class
classes-filter :
    (class : ResourceClass) (project : String) (candidates : List Candidate)
    → All (λ c. c.resource_class ≡ class) candidates
    → All (λ c. c ≡ class) (classes (filter (of_project project) candidates))
unfolding classes filter
classes-filter class project [] h = tt
classes-filter class project (candidate ∷ rest) (h, others) =
    elim (Bool-cases (candidate.project_id == project)) [
      | inl own ↦ rw (own, filter) (h, classes-filter class project rest others)
      | inr other ↦ rw (other, filter) (classes-filter class project rest others)
    ]

module _ (hash : String → ℕ) (lanes global_window : ℕ) (candidates : List Candidate)
    (pool_windows : Assoc ℤ) (epoch : ℕ) (load : Load) where
  abbrev pub filled : Filling
  filled = plan_filling hash lanes global_window candidates pool_windows epoch load

  -- When the filling ends, a project that was granted an admission has no more in flight and granted
  -- than any project that could still be granted one has, but for that one admission.
  pub plan_filling_fair :
      (granted waiting : String)
      → MayGrow filled waiting
      → 0 < count_of filled.granted granted
      → level load.by_project filled granted ≤ suc (level load.by_project filled waiting)
  unfolding plan_filling first_filling level count_of lookup
  plan_filling_fair granted waiting may some_granted =
      let start = first_filling candidates pool_windows load in
      fill_fair hash lanes load.by_project (projects_in_turn epoch start)
        (global_window - length load.seen) start (projects_in_turn-TakesPart epoch start) granted
        waiting may (omega arith)

  filling-stuck :
      (weigh any_admission filled.planned ≡ global_window - length load.seen)
      ⊎ ((project : String) → next_candidate filled project ≡ none)
  unfolding plan_filling first_filling weigh
  filling-stuck =
      let start = first_filling candidates pool_windows load in
      let projects = projects_in_turn epoch start in
      let rounds = global_window - length load.seen in
      elim (fill-stuck hash lanes load.by_project projects rounds start) [
        | inl used ↦ inl (omega arith)
        | inr stuck ↦ inr (λ q. elim (Option-cases (next_candidate filled q)) [
          | inl none_left ↦ none_left
          | inr (c, may) ↦ stuck q (
              projects_in_turn-TakesPart epoch start q
                (fill-MayGrow hash lanes load.by_project projects rounds start q (c, may)))
        ])
      ]

  -- The filling uses all that the global window leaves, or it ends where the queue of each project is
  -- empty or begins with a candidate whose pool has no room. Nothing is said of the candidates behind
  -- that one.
  pub plan_filling_stops :
      (weigh any_admission filled.planned ≡ global_window - length load.seen)
      ⊎ ((project : String) → IsHeldBack filled project)
  plan_filling_stops = elim filling-stuck [
    | inl used ↦ inl used
    | inr stuck ↦ inr (λ project. next-IsHeldBack filled project (stuck project))
  ]

  -- The resource classes of a project's admissions, in the order of the grants, and then those of
  -- the candidates that it has left, are those of all its candidates in their order.
  pub plan_filling_in_order :
      (project : String)
      → classes_of project filled.planned ++ classes (entries_of filled.queues project)
        ≡ classes (filter (of_project project) candidates)
  unfolding plan_filling first_filling classes_of entries_of lookup
  plan_filling_in_order project =
      let start = first_filling candidates pool_windows load in
      fill-keeps hash lanes load.by_project (projects_in_turn epoch start)
        (λ f.
          classes_of project f.planned ++ classes (entries_of f.queues project)
          ≡ classes (filter (of_project project) candidates))
        (λ f chosen next h. grant-classes_of hash lanes project f chosen next ∙ h)
        (global_window - length load.seen) start
        (ap classes (queue_up-entries_of candidates [] project))

  -- Where all candidates are of one resource class, the filling is work-conserving: it uses all that the
  -- global window leaves, or all that the window of the class leaves, or it has an admission for
  -- every candidate of every project.
  pub plan_filling_conserves :
      (class : ResourceClass)
      → All (λ c. c.resource_class ≡ class) candidates
      → (weigh any_admission filled.planned ≡ global_window - length load.seen)
        ⊎ ((weigh (of_class class) filled.planned
              ≡ count_of (pool_rooms pool_windows load.by_pool) class)
            ⊎ ((project : String)
                → classes_of project filled.planned
                  ≡ classes (filter (of_project project) candidates)))
  unfolding classes
  plan_filling_conserves class alike = elim plan_filling_stops [
    | inl used ↦ inl used
    | inr held ↦ elim (Bool-cases (nat_eq (count_of filled.remaining_pool class) 0)) [
      | inl full ↦
          let kept =
            filling-class hash lanes global_window candidates pool_windows epoch load class in
          let none_left : count_of filled.remaining_pool class ≡ 0 = ground arith in
          inr (inl (omega (arith, kept, none_left)))
      | inr free ↦ inr (
          inr (λ project. elim (held project) [
            | inl empty ↦
                sym (append-nil (classes_of project filled.planned))
                ∙ ap (λ q. classes_of project filled.planned ++ classes q) (sym empty)
                ∙ plan_filling_in_order project
            | inr (first, rest, queue, full) ↦
                let same : first.resource_class ≡ class =
                  All-middle class (classes_of project filled.planned) first.resource_class
                    (classes rest)
                    (subst (λ l. All (λ c. c ≡ class) l)
                      (sym (plan_filling_in_order project)
                        ∙ ap (λ q. classes_of project filled.planned ++ classes q) queue)
                      (classes-filter class project candidates alike)) in
                let other_full = subst (λ c. count_of filled.remaining_pool c ≡ 0) same full in
                absurd (ground arith)
          ]))
    ]
  ]
