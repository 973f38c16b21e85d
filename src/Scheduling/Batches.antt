-- ===== src/Scheduling/Batches.antt =====
-- CreditBatches of internal/scheduling/planner.go.
use evalfrog.Prelude.{
  ℕ, zero, suc, ◌≤◌, ◌<◌, ◌≡◌, refl, ap, ◌∙◌, List, [], ◌∷◌, ◌++◌, arith, length, take, drop,
  take-append_drop, All, concat,
}
use evalfrog.Json.{pos}
use evalfrog.Runtime.Error.{ok}
use evalfrog.Scheduling.{PlannedAdmission}
use evalfrog.Scheduling.Plan.{cut_batches, credit_batches}

length-take {ℓ} : {A : Type ℓ} (n : ℕ) (xs : List A) → length (take n xs) ≤ n
unfolding take
length-take zero xs = omega arith
length-take (suc n) [] = omega arith
length-take (suc n) (x ∷ xs) = omega (arith, length-take n xs)

length-drop_le {ℓ} : {A : Type ℓ} (n : ℕ) (xs : List A) → length (drop n xs) ≤ length xs
unfolding drop
length-drop_le zero xs = omega arith
length-drop_le (suc n) [] = omega arith
length-drop_le (suc n) (x ∷ xs) = omega (arith, length-drop_le n xs)

abbrev pub IsBatch {ℓ} : {A : Type ℓ} → ℕ → List A → Type 0
IsBatch size batch = (0 < length batch) × (length batch ≤ size)

module _ {ℓ} {A : Type ℓ} (n : ℕ) where
  cut_batches-concat :
      (fuel : ℕ) (values : List A)
      → length values ≤ fuel
      → concat (cut_batches (suc n) fuel values) ≡ values
  unfolding cut_batches concat take drop
  cut_batches-concat zero [] h = refl
  cut_batches-concat zero (value ∷ rest) h = absurd (omega arith)
  cut_batches-concat (suc fuel) [] h = refl
  cut_batches-concat (suc fuel) (value ∷ rest) h =
      ap (λ l. take (suc n) (value ∷ rest) ++ l)
        (cut_batches-concat fuel (drop n rest) (omega (arith, length-drop_le n rest)))
      ∙ take-append_drop (suc n) (value ∷ rest)

  cut_batches-IsBatch :
      (fuel : ℕ) (values : List A) → All (IsBatch (suc n)) (cut_batches (suc n) fuel values)
  unfolding cut_batches take
  cut_batches-IsBatch zero values = tt
  cut_batches-IsBatch (suc fuel) [] = tt
  cut_batches-IsBatch (suc fuel) (value ∷ rest) = (
    (omega arith, omega (arith, length-take n rest)),
    cut_batches-IsBatch fuel (drop (suc n) (value ∷ rest)),
  )

-- For a positive size CreditBatches cuts the admissions into batches that are not empty and no longer
-- than the size, and that are together the admissions in their order.
pub credit_batches_cut :
    (admissions : List PlannedAdmission) (n : ℕ)
    → (batches : List (List PlannedAdmission)) × (credit_batches admissions (pos (suc n))
        ≡ ok batches)
      × (concat batches ≡ admissions)
      × All (IsBatch (suc n)) batches
unfolding credit_batches
credit_batches_cut admissions n = (
  cut_batches (suc n) (length admissions) admissions,
  refl,
  cut_batches-concat n (length admissions) admissions (omega arith),
  cut_batches-IsBatch n (length admissions) admissions,
)
