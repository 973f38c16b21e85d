-- ===== src/Scheduling/Fairness.antt =====
-- The progressive filling of BuildPlan in internal/scheduling/planner.go: the levels of the projects,
-- round by round.
use evalfrog.Prelude.{
  ℕ, zero, suc, ◌+◌, ◌-◌, ◌≤◌, ◌<◌, String, ◌≡◌, refl, sym, ◌∙◌, subst, true, false, some, List,
  ◌∷◌, ◌==◌, inl, inr, arith, eq_iff, drop, contains, Bool-cases, if◌then◌else◌, nat_eq, ltb,
  ltb→lt,
}
use evalfrog.Prelude.Assoc.{Assoc, entries_of}
use evalfrog.Scheduling.{Candidate}
use evalfrog.Scheduling.Plan.{
  count_of, increase, decrease, Filling, next_candidate, level, grant, fill,
}
use evalfrog.Scheduling.Select.{select-cases}
use evalfrog.Scheduling.Bounds.{count_of-insert, entries_of-insert, next-queue}

next-intro :
    (f : Filling) (project : String) (candidate : Candidate) (rest : List Candidate)
    → entries_of f.queues project ≡ candidate ∷ rest
    → 0 < count_of f.remaining_pool candidate.resource_class
    → next_candidate f project ≡ some candidate
unfolding next_candidate
next-intro f project candidate rest h k =
    let free : nat_eq (count_of f.remaining_pool candidate.resource_class) 0 ≡ false =
      ground arith in
    rw (h, free, next_candidate) refl

abbrev pub MayGrow : Filling → String → Type 0
MayGrow f project = (candidate : Candidate) × (next_candidate f project ≡ some candidate)

module _ (hash : String → ℕ) (lanes : ℕ) where
  -- what may be granted after a grant might have been granted before
  grant-MayGrow :
      (f : Filling) (chosen : String × Candidate)
      → next_candidate f chosen.0 ≡ some chosen.1
      → (q : String) → MayGrow (grant hash lanes chosen f) q
      → MayGrow f q
  unfolding grant decrease
  grant-MayGrow f (project, candidate) next q (c, may) =
      let rest = drop 1 (entries_of f.queues project) in
      let (queue, positive) = next-queue (grant hash lanes (project, candidate) f) q c may in
      elim (Bool-cases (project == q)) [
        | inl same ↦ (
          candidate,
          subst (λ x. next_candidate f x ≡ some candidate) ((eq_iff project q).0 same) next,
        )
        | inr other ↦
            let before : entries_of f.queues q
                ≡ c ∷ drop 1 (entries_of (grant hash lanes (project, candidate) f).queues q) =
              sym (entries_of-insert project q rest f.queues ∙ (rw other refl)) ∙ queue in
            (
              c,
              next-intro f q c
                  (drop 1 (entries_of (grant hash lanes (project, candidate) f).queues q)) before
                  (ground (
                    arith,
                    eq_iff candidate.resource_class c.resource_class,
                    count_of-insert candidate.resource_class c.resource_class
                        (count_of f.remaining_pool candidate.resource_class - 1) f.remaining_pool,
                  )),
            )
      ]

  module _ (by_project : Assoc ℕ) where
    level-grant :
        (f : Filling) (chosen : String × Candidate) (q : String)
        → level by_project (grant hash lanes chosen f) q
          ≡ level by_project f q + (if chosen.0 == q then 1 else 0)
    unfolding level grant increase
    level-grant f (project, candidate) q = ground (
      arith,
      count_of-insert project q (suc (count_of f.granted project)) f.granted,
      eq_iff project q,
    )

    module _ (projects : List String) where
      pub fill-MayGrow :
          (remaining : ℕ) (f : Filling) (q : String)
          → MayGrow (fill hash lanes by_project projects remaining f) q
          → MayGrow f q
      unfolding fill
      fill-MayGrow zero f q = λ h. h
      fill-MayGrow (suc remaining) f q = elim (select-cases by_project f projects) [
        | inr (same, stuck) ↦ rw (same, fill) (λ h. h)
        | inl (chosen, same, least) ↦
            rw (same, fill)
              (λ h.
                grant-MayGrow f chosen least.granted_next q
                  (fill-MayGrow remaining (grant hash lanes chosen f) q h))
      ]

      level-fill :
          (remaining : ℕ) (f : Filling) (q : String)
          → level by_project f q
            ≤ level by_project (fill hash lanes by_project projects remaining f) q
      unfolding fill
      level-fill zero f q = omega arith
      level-fill (suc remaining) f q = elim (select-cases by_project f projects) [
        | inr (same, stuck) ↦ rw (same, fill) (omega arith)
        | inl (chosen, same, least) ↦
            rw (same, fill)
              (omega
                (arith, level-grant f chosen q, level-fill remaining (grant hash lanes chosen f) q))
      ]

      -- every project that may be granted takes part in the loop
      abbrev TakesPart : Filling → Type 0
      TakesPart f = (q : String) → MayGrow f q → contains projects q ≡ true

      pub fill_fair :
          (remaining : ℕ) (f : Filling)
          → TakesPart f
          → (p q : String) → MayGrow (fill hash lanes by_project projects remaining f) q
          → level by_project f p
            < level by_project (fill hash lanes by_project projects remaining f) p
          → level by_project (fill hash lanes by_project projects remaining f) p
            ≤ suc (level by_project (fill hash lanes by_project projects remaining f) q)
      unfolding fill
      fill_fair zero f part p q = λ may grown. absurd (omega arith)
      fill_fair (suc remaining) f part p q = elim (select-cases by_project f projects) [
        | inr (same, stuck) ↦ rw (same, fill) (λ may grown. absurd (omega arith))
        | inl (chosen, same, least) ↦
            rw (same, fill)
              (λ may grown.
                let g = grant hash lanes chosen f in
                let next = least.granted_next in
                let last = fill hash lanes by_project projects remaining g in
                elim (Bool-cases (ltb (level by_project g p) (level by_project last p))) [
                  | inl later ↦
                      fill_fair remaining g (λ x h. part x (grant-MayGrow f chosen next x h)) p q
                        may (ltb→lt (level by_project g p) (level by_project last p) later)
                  | inr never ↦
                      let (c, before) =
                        grant-MayGrow f chosen next q (fill-MayGrow remaining g q may) in
                      let low = least.least q c (part q (c, before)) before in
                      let stays : level by_project last p ≤ level by_project g p = ground arith in
                      elim (Bool-cases (chosen.0 == p)) [
                        | inl is ↦
                            let low_p =
                              subst (λ x. level by_project f x ≤ level by_project f q)
                                ((eq_iff chosen.0 p).0 is) low in
                            ground (
                              arith,
                              stays,
                              low_p,
                              level-grant f chosen p,
                              level-grant f chosen q,
                              level-fill remaining g q,
                            )
                        | inr other ↦ absurd (ground (arith, grown, stays, level-grant f chosen p))
                      ]
                ])
      ]
