-- ===== src/Scheduling/Capacity.antt =====
-- internal/scheduling/model.go: BoundWindows. The limit is a floating-point number: its two tests and
-- the rounded product with a window are parameters.
use evalfrog.Prelude.{
  ℕ, zero, suc, refl, subst, sym, ap, min, ◌==◌, eq_iff, Bool-cases, ◌+◌, ◌≤◌, ◌≡◌, Bool, true,
  false, not, ◌&&◌, ◌||◌, Option, none, some, [], ◌∷◌, arith, if◌then◌else◌, leb, nat_eq, all, inl,
  inr,
}
use mathlib.Core.Option.{some-injective}
use evalfrog.Prelude.Assoc.{Assoc, lookup}
use evalfrog.Json.{ℤ, pos, negsuc}
use evalfrog.Runtime.Error.{Error, Result, ok, message, require, ◌>>◌}
use evalfrog.Scheduling.{ResourceClass, is_valid_class}
use evalfrog.Scheduling.Plan.{is_negative, as_natural}

-- `none` is the nil map
pub record Windows : Type 0 where
  pub global : ℤ
  pub pools : Option (Assoc ℤ)

pub record Limit : Type 0 where
  -- 0 < limit and limit <= 1
  pub is_share : Bool
  -- int(math.Ceil(float64(window) * limit))
  pub portion : ℕ → ℕ

-- boundWindow, for a desired window that was tested not to be negative
unfoldable pub bound_window : Limit → ℤ → ℕ → ℕ
bound_window limit (negsuc n) desired = desired
bound_window limit (pos previous) desired =
    let delta = if leb 1 (limit.portion previous) then limit.portion previous else 1 in
    if nat_eq previous 0 || leb desired previous
    then desired
    else (if leb desired (previous + delta) then desired else previous + delta)

abbrev pub pools_of : Windows → Assoc ℤ
pools_of windows = elim windows.pools [ none ↦ [] | some pools ↦ pools ]

-- m[class]
abbrev pub window_of : Assoc ℤ → ResourceClass → ℤ
unfolding lookup
window_of pools class = elim (lookup class pools) [ none ↦ pos 0 | some window ↦ window ]

unfoldable pub is_valid_pool : ResourceClass × ℤ → Bool
unfolding is_valid_class
is_valid_pool (class, window) = is_valid_class class && not (is_negative window)

-- The loop over the desired pools.
unfoldable pub bound_pools : Limit → Assoc ℤ → Assoc ℤ → Assoc ℤ
unfolding bound_window lookup
bound_pools limit previous [] = []
bound_pools limit previous ((class, desired) ∷ rest) =
    (class, pos (bound_window limit (window_of previous class) (as_natural desired)))
    ∷ bound_pools limit previous rest

unfoldable pub pool_total : Assoc ℤ → ℕ
pool_total [] = 0
pool_total ((class, window) ∷ rest) = as_natural window + pool_total rest

unfoldable pub bounded : Limit → Windows → Windows → Windows
unfolding bound_window bound_pools pool_total
bounded limit previous desired = elim previous.pools [
  | none ↦ record { global = desired.global; pools = some (pools_of desired) }
  | some pools ↦
      let result = bound_pools limit pools (pools_of desired) in
      let global = bound_window limit previous.global (as_natural desired.global) in
      record {
        global = pos (if leb global (pool_total result) then global else pool_total result);
        pools = some result;
      }
]

-- BoundWindows
unfoldable pub bound_windows : Limit → Windows → Windows → Result Windows
unfolding all is_valid_pool bounded
bound_windows limit previous desired = do
  require (not (is_negative desired.global) && limit.is_share)
      (message "capacity windows and change limit are invalid")
  require (all is_valid_pool (pools_of desired)) (message "pool dispatch window is invalid")
  ok (bounded limit previous desired)

-- the most that a window grows at once
abbrev pub step_of : Limit → ℕ → ℕ
step_of limit window = if leb 1 (limit.portion window) then limit.portion window else 1

-- The greatest window that is no larger than desired and, where the window before was positive, no
-- more than one step above it.
pub record IsGreatest (limit : Limit) (previous : ℤ) (desired window : ℕ) : Type 0 where
  pub wanted : window ≤ desired
  pub grown : (n : ℕ) → previous ≡ pos (suc n) → window ≤ suc n + step_of limit (suc n)
  pub greatest :
      (other : ℕ)
      → other ≤ desired
      → ((n : ℕ) → previous ≡ pos (suc n) → other ≤ suc n + step_of limit (suc n))
      → other ≤ window

pos_suc-injective : {n m : ℕ} → pos (suc n) ≡ pos (suc m) → n ≡ m
pos_suc-injective h = let same = ap as_natural h in omega arith

bound_window-IsGreatest :
    (limit : Limit) (previous : ℤ) (desired : ℕ)
    → IsGreatest limit previous desired (bound_window limit previous desired)
unfolding bound_window
bound_window-IsGreatest limit (negsuc n) desired = record {
  wanted = omega arith;
  grown = λ m h. absurd (cc h);
  greatest = λ other h k. h;
}
bound_window-IsGreatest limit (pos zero) desired = record {
  wanted = omega arith;
  grown = λ m h. let same = ap as_natural h in absurd (omega arith);
  greatest = λ other h k. h;
}
bound_window-IsGreatest limit (pos (suc n)) desired = record {
  wanted = ground arith;
  grown = λ m h.
      let same : n ≡ m = pos_suc-injective h in
      subst (λ x. bound_window limit (pos (suc n)) desired ≤ suc x + step_of limit (suc x)) same
        (ground arith);
  greatest = λ other h k. let bounded_above = k n refl in ground arith;
}

-- Each desired class has the greatest window that the limit allows, and there are no other classes.
pub record ArePools (limit : Limit) (previous desired result : Assoc ℤ) : Type 0 where
  pub each :
      (class : ResourceClass) (window : ℤ)
      → lookup class desired ≡ some window
      → (bound : ℕ) × (lookup class result ≡ some (pos bound))
        × IsGreatest limit (window_of previous class) (as_natural window) bound
  pub no_other : (class : ResourceClass) → lookup class desired ≡ none → lookup class result ≡ none

bound_pools-ArePools :
    (limit : Limit) (previous desired : Assoc ℤ)
    → ArePools limit previous desired (bound_pools limit previous desired)
unfolding bound_pools lookup
bound_pools-ArePools limit previous [] = record {
  each = λ class window h. absurd (cc h);
  no_other = λ class h. refl;
}
bound_pools-ArePools limit previous ((other, desired) ∷ rest) =
    let later = bound_pools-ArePools limit previous rest in
    record {
      each = λ class window. elim (Bool-cases (other == class)) [
        | inl same ↦
            rw (same, lookup)
              (λ h.
                let is = (eq_iff other class).0 same in
                let wanted : desired ≡ window = some-injective desired window h in
                (
                  bound_window limit (window_of previous other) (as_natural desired),
                  refl,
                  subst
                      (λ w.
                        IsGreatest limit (window_of previous class) (as_natural w)
                          (bound_window limit (window_of previous other) (as_natural desired)))
                      wanted
                      (subst
                        (λ c.
                          IsGreatest limit (window_of previous c) (as_natural desired)
                            (bound_window limit (window_of previous other) (as_natural desired)))
                        is
                        (bound_window-IsGreatest limit (window_of previous other)
                          (as_natural desired))),
                ))
        | inr differs ↦ rw (differs, lookup) (later.each class window)
      ];
      no_other = λ class h. elim (Bool-cases (other == class)) [
        | inl same ↦ absurd (ground arith)
        | inr differs ↦ let none_later = later.no_other class (ground arith) in ground arith
      ];
    }

checks-pass :
    (a b : Bool) (x y : Error) (w : Windows) {result : Windows}
    → (do require a x; require b y; ok w) ≡ ok result
    → result ≡ w
checks-pass true true x y w h = cc h
checks-pass true false x y w h = absurd (cc h)
checks-pass false b x y w h = absurd (cc h)

-- The windows of a result: what was desired where there were none before, else the greatest windows,
-- with the global one cut to the sum of the pools.
pub record AreBounded (limit : Limit) (previous desired result : Windows) : Type 0 where
  pub first_time :
      previous.pools ≡ none
      → (result.global ≡ desired.global) × (result.pools ≡ some (pools_of desired))
  pub pools :
      (before : Assoc ℤ)
      → previous.pools ≡ some before
      → ArePools limit before (pools_of desired) (pools_of result)
  pub global :
      (before : Assoc ℤ)
      → previous.pools ≡ some before
      → (bound : ℕ) × IsGreatest limit previous.global (as_natural desired.global) bound
        × (result.global ≡ pos (min bound (pool_total (pools_of result))))

bounded-AreBounded :
    (limit : Limit) (previous desired : Windows)
    → AreBounded limit previous desired (bounded limit previous desired)
unfolding bounded
bounded-AreBounded limit previous desired = record {
  first_time = λ missing. (rw (missing, bounded) (refl, refl));
  pools =
      λ before there. (rw (there, bounded) (bound_pools-ArePools limit before (pools_of desired)));
  global = λ before there.
      rw (there, bounded)
        (
          bound_window limit previous.global (as_natural desired.global),
          bound_window-IsGreatest limit previous.global (as_natural desired.global),
          ap pos (ground arith),
        );
}

-- Where there are no windows from before, BoundWindows returns those that are desired. Else it has the
-- desired classes, and each pool's window is the greatest that is no larger than desired and,
-- where the window before was positive, no more than one step of the limit above it; the global window
-- is the greatest of that kind, or the sum of the pools where that is less.
pub bound_windows_bounded :
    (limit : Limit) (previous desired : Windows) {result : Windows}
    → bound_windows limit previous desired ≡ ok result
    → AreBounded limit previous desired result
unfolding bound_windows
bound_windows_bounded limit previous desired {result} h =
    let same =
      checks-pass (not (is_negative desired.global) && limit.is_share)
        (all is_valid_pool (pools_of desired))
        (message "capacity windows and change limit are invalid")
        (message "pool dispatch window is invalid") (bounded limit previous desired) h in
    subst (AreBounded limit previous desired) (sym same) (bounded-AreBounded limit previous desired)
