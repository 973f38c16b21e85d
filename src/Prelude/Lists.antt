-- ===== src/Prelude/Lists.antt =====
-- Lists over the native numbers, tests on all members, and sorting of texts.
use Prim.Native.Nat.{ℕ, zero, suc, ◌+◌}
use Prim.Native.Nat.{Ordering}
use Prim.Native.String.{String, compare}
use mathlib.Core.Path.{◌≡◌, refl, ap}
use mathlib.Core.Bool.{Bool, true, false, ◌&&◌, ◌||◌}
use mathlib.Core.List.{List, [], ◌∷◌, ◌++◌}
use native.Mathlib.Omega.{arith}
use text.Mathlib.Text.{◌==◌}
use evalfrog.Prelude.Tests.{if◌then◌else◌}

module _ {ℓ} {A : Type ℓ} where
  abbrev pub length : List A → ℕ
  length [] = 0
  length (x ∷ xs) = suc (length xs)

  unfoldable pub all : (A → Bool) → List A → Bool
  all p [] = true
  all p (x ∷ xs) = p x && all p xs

  unfoldable pub any : (A → Bool) → List A → Bool
  any p [] = false
  any p (x ∷ xs) = p x || any p xs

  pub length-append : (xs ys : List A) → length (xs ++ ys) ≡ length xs + length ys
  length-append [] ys = omega arith
  length-append (x ∷ xs) ys = omega (arith, length-append xs ys)

abbrev pub All {ℓ κ} : {A : Type ℓ} → (A → Type κ) → List A → Type κ
All P [] = Unit
All P (x ∷ xs) = P x × All P xs

pub All-map {ℓ} :
    {A : Type ℓ} {P Q : A → Type 0} (list : List A)
    → ((x : A) → P x → Q x)
    → All P list
    → All Q list
All-map [] f h = tt
All-map (x ∷ rest) f (first, others) = (f x first, All-map rest f others)

pub All-map2 {ℓ} :
    {A : Type ℓ} {P Q R : A → Type 0} (list : List A)
    → ((x : A) → P x → Q x → R x)
    → All P list
    → All Q list
    → All R list
All-map2 [] f h k = tt
All-map2 (x ∷ rest) f (first, others) (first', others') =
    (f x first first', All-map2 rest f others others')

-- a loop that appends the results of its body
unfoldable pub flat_map {ℓ κ} : {A : Type ℓ} {B : Type κ} → (A → List B) → List A → List B
flat_map f [] = []
flat_map f (x ∷ xs) = f x ++ flat_map f xs

pub append-eq-nil {ℓ} : {A : Type ℓ} (xs ys : List A) → xs ++ ys ≡ [] → (xs ≡ []) × (ys ≡ [])
append-eq-nil [] ys h = (refl, h)
append-eq-nil (x ∷ xs) ys h = absurd (cc h)

pub flat_map-eq-nil {ℓ κ} :
    {A : Type ℓ} {B : Type κ} (f : A → List B) (xs : List A)
    → flat_map f xs ≡ []
    → All (λ x. f x ≡ []) xs
unfolding flat_map
flat_map-eq-nil f [] h = tt
flat_map-eq-nil f (x ∷ xs) h =
    let (first, rest) = append-eq-nil (f x) (flat_map f xs) h in (first, flat_map-eq-nil f xs rest)

-- the results of several tests, one after another
unfoldable pub concat {ℓ} : {A : Type ℓ} → List (List A) → List A
concat [] = []
concat (l ∷ ls) = l ++ concat ls

pub concat-eq-nil {ℓ} : {A : Type ℓ} (ls : List (List A)) → concat ls ≡ [] → All (λ l. l ≡ []) ls
unfolding concat
concat-eq-nil [] h = tt
concat-eq-nil (l ∷ ls) h =
    let (first, rest) = append-eq-nil l (concat ls) h in (first, concat-eq-nil ls rest)

-- `_, exists := set[id]` of a set of texts
unfoldable pub contains : List String → String → Bool
contains [] a = false
contains (x ∷ xs) a = a == x || contains xs a

-- sort.Strings
unfoldable pub insert_sorted : String → List String → List String
insert_sorted a [] = a ∷ []
insert_sorted a (x ∷ xs) =
    let rest = insert_sorted a xs in elim (compare a x) [ Ordering.gt ↦ x ∷ rest | _ ↦ a ∷ x ∷ xs ]

unfoldable pub sort_strings : List String → List String
unfolding insert_sorted
sort_strings [] = []
sort_strings (x ∷ xs) = insert_sorted x (sort_strings xs)

-- xs[:n] and xs[n:], which stop at the end of the list
unfoldable pub take {ℓ} : {A : Type ℓ} → ℕ → List A → List A
take zero xs = []
take (suc n) [] = []
take (suc n) (x ∷ xs) = x ∷ take n xs

unfoldable pub drop {ℓ} : {A : Type ℓ} → ℕ → List A → List A
drop zero xs = xs
drop (suc n) [] = []
drop (suc n) (x ∷ xs) = drop n xs

pub take-append_drop {ℓ} : {A : Type ℓ} (n : ℕ) (xs : List A) → take n xs ++ drop n xs ≡ xs
unfolding take drop
take-append_drop zero xs = refl
take-append_drop (suc n) [] = refl
take-append_drop (suc n) (x ∷ xs) = ap (λ ys. x ∷ ys) (take-append_drop n xs)

-- the members that pass the test
unfoldable pub filter {ℓ} : {A : Type ℓ} → (A → Bool) → List A → List A
filter p [] = []
filter p (x ∷ xs) = let rest = filter p xs in if p x then x ∷ rest else rest

pub contains-append :
    (xs ys : List String) (x : String) → contains (xs ++ ys) x ≡ (contains xs x || contains ys x)
unfolding contains
contains-append [] ys x = refl
contains-append (y ∷ xs) ys x = ground (arith, contains-append xs ys x)

contains-insert_sorted :
    (a : String) (xs : List String) (x : String)
    → contains (insert_sorted a xs) x ≡ (x == a || contains xs x)
unfolding contains insert_sorted
contains-insert_sorted a [] x = refl
contains-insert_sorted a (y ∷ ys) x = ground (arith, contains-insert_sorted a ys x)

pub contains-sort_strings :
    (xs : List String) (x : String) → contains (sort_strings xs) x ≡ contains xs x
unfolding contains sort_strings
contains-sort_strings [] x = refl
contains-sort_strings (y ∷ ys) x =
    ground (arith, contains-insert_sorted y (sort_strings ys) x, contains-sort_strings ys x)
