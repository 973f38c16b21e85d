-- ===== src/Scheduling/Select.antt =====
-- The choice of a project in BuildPlan of internal/scheduling/planner.go, and the rounds of its loop.
use evalfrog.Prelude.{
  ℕ, zero, suc, ◌≤◌, String, ◌≡◌, refl, sym, subst, true, none, some, List, [], ◌∷◌, ◌==◌, inl, inr,
  ◌⊎◌, arith, eq_iff, contains, Bool-cases, Option-cases, if◌then◌else◌, ltb,
}
use evalfrog.Prelude.Assoc.{Assoc}
use evalfrog.Scheduling.{Candidate}
use evalfrog.Scheduling.Plan.{Filling, next_candidate, level, select, grant, fill}

module _ (by_project : Assoc ℕ) where
  -- The choice may be granted, and no project of the list that may be granted is of a lower level.
  pub record IsLeast (f : Filling) (projects : List String) (chosen : String × Candidate)
      : Type 0 where
    pub granted_next : next_candidate f chosen.0 ≡ some chosen.1
    pub least :
        (project : String) (candidate : Candidate)
        → contains projects project ≡ true
        → next_candidate f project ≡ some candidate
        → level by_project f chosen.0 ≤ level by_project f project

  abbrev lower : Filling → String × Candidate → String × Candidate → String × Candidate
  lower f new old = if ltb (level by_project f new.0) (level by_project f old.0) then new else old

  -- one more project, which is of no lower level where it may be granted
  cons-IsLeast :
      (f : Filling) (project : String) (rest : List String) (chosen : String × Candidate)
      → IsLeast f rest chosen
      → ((candidate : Candidate)
          → next_candidate f project ≡ some candidate
          → level by_project f chosen.0 ≤ level by_project f project)
      → IsLeast f (project ∷ rest) chosen
  unfolding contains
  cons-IsLeast f project rest chosen least here = record {
    granted_next = least.granted_next;
    least = λ q c h k. elim (Bool-cases (q == project)) [
      | inl is ↦
          let same = (eq_iff q project).0 is in
          subst (λ x. level by_project f chosen.0 ≤ level by_project f x) (sym same)
            (here c (subst (λ x. next_candidate f x ≡ some c) same k))
      | inr other ↦ least.least q c (ground arith) k
    ];
  }

  -- the search that starts with a choice ends with one, which is of no higher level
  select-some :
      (f : Filling) (projects : List String) (best : String × Candidate)
      → next_candidate f best.0 ≡ some best.1
      → (chosen : String × Candidate) × (select by_project f projects (some best) ≡ some chosen)
        × (level by_project f chosen.0 ≤ level by_project f best.0)
        × IsLeast f projects chosen
  unfolding select contains
  select-some f [] best next =
      (best, refl, omega arith, record { granted_next = next; least = λ q c h k. absurd (cc h) })
  select-some f (project ∷ rest) (chosen, first) next =
      elim (Option-cases (next_candidate f project)) [
        | inl refused ↦
            let (result, same, below, least) = select-some f rest (chosen, first) next in
            (
              result,
              (rw (refused, select) same),
              below,
              cons-IsLeast f project rest result least (λ c k. absurd (cc (refused, k))),
            )
        | inr (candidate, may) ↦
            elim (Bool-cases (ltb (level by_project f project) (level by_project f chosen))) [
              | inl less ↦
                  let (result, same, below, least) = select-some f rest (project, candidate) may in
                  (
                    result,
                    (rw (may, less, select) same),
                    (ground arith),
                    cons-IsLeast f project rest result least (λ c k. below),
                  )
              | inr not_less ↦
                  let (result, same, below, least) = select-some f rest (chosen, first) next in
                  (
                    result,
                    (rw (may, not_less, select) same),
                    below,
                    cons-IsLeast f project rest result least (λ c k. ground arith),
                  )
            ]
      ]

  -- The loop over the projects chooses one of the least level, or there is none to choose.
  pub select-cases :
      (f : Filling) (projects : List String)
      → ((chosen : String × Candidate) × (select by_project f projects none ≡ some chosen)
          × IsLeast f projects chosen)
        ⊎ ((select by_project f projects none ≡ none)
            × ((project : String)
                → contains projects project ≡ true
                → next_candidate f project ≡ none))
  unfolding select contains
  select-cases f [] = inr (refl, λ q h. absurd (cc h))
  select-cases f (project ∷ rest) = elim (Option-cases (next_candidate f project)) [
    | inl refused ↦ elim (select-cases f rest) [
      | inl (result, same, least) ↦ inl (
        result,
        (rw (refused, select) same),
        cons-IsLeast f project rest result least (λ c k. absurd (cc (refused, k))),
      )
      | inr (same, others) ↦ inr (
        (rw (refused, select) same),
        λ q h. elim (Bool-cases (q == project)) [
          | inl is ↦ cc ((eq_iff q project).0 is, refused)
          | inr other ↦ others q (ground arith)
        ],
      )
    ]
    | inr (candidate, may) ↦
        let (result, same, below, least) = select-some f rest (project, candidate) may in
        inl
          (result, (rw (may, select) same), cons-IsLeast f project rest result least (λ c k. below))
  ]

module _ (hash : String → ℕ) (lanes : ℕ) (by_project : Assoc ℕ) (projects : List String) where
  -- what every grant of a candidate that is next keeps, the loop keeps
  pub fill-keeps {ℓ} :
      (P : Filling → Type ℓ)
      → ((f : Filling) (chosen : String × Candidate)
          → next_candidate f chosen.0 ≡ some chosen.1
          → P f
          → P (grant hash lanes chosen f))
      → (remaining : ℕ) (f : Filling) → P f
      → P (fill hash lanes by_project projects remaining f)
  unfolding fill
  fill-keeps P keep zero f h = h
  fill-keeps P keep (suc remaining) f h = elim (select-cases by_project f projects) [
    | inl (chosen, same, least) ↦
        rw (same, fill)
          (fill-keeps P keep remaining (grant hash lanes chosen f)
            (keep f chosen least.granted_next h))
    | inr (same, stuck) ↦ rw (same, fill) h
  ]
