-- ===== src/Prelude/Assoc.antt =====
-- Go's maps with text keys, as association lists. A write to a key that is there replaces its
-- value in place; a write to a new key adds an entry at the end.

use Prim.Native.String.{String}
use mathlib.Core.Path.{◌≡◌, refl}
use mathlib.Core.Logic.{◌⊎◌}
use mathlib.Core.Option.{Option, none, some}
use mathlib.Core.List.{List, [], ◌∷◌, ◌++◌}
use native.Mathlib.Omega.{arith}
use text.Mathlib.Text.{◌==◌}
use text.Mathlib.TextEquality.{eq_iff}
use text.Mathlib.TextPositions.{eq_refl}
use evalfrog.Prelude.Tests.{if◌then◌else◌}

abbrev pub Assoc {ℓ} : Type ℓ → Type ℓ
Assoc Value = List (String × Value)

module _ {ℓ} {V : Type ℓ} where
  -- m[key], with its `ok`
  unfoldable pub lookup : String → Assoc V → Option V
  lookup key [] = none
  lookup key ((other, value) ∷ rest) = if other == key then some value else lookup key rest

  -- m[key] = value
  unfoldable pub insert : String → V → Assoc V → Assoc V
  insert key new [] = (key, new) ∷ []
  insert key new ((other, old) ∷ rest) =
      if other == key then (key, new) ∷ rest else (other, old) ∷ insert key new rest

  unfoldable pub keys : Assoc V → List String
  keys [] = []
  keys ((j, v) ∷ m) = j ∷ keys m

  unfoldable pub values : Assoc V → List V
  values [] = []
  values ((j, v) ∷ m) = v ∷ values m

  -- what a read finds after a write
  pub lookup-insert :
      (written read : String) (new : V) (entries : Assoc V)
      → lookup read (insert written new entries)
        ≡ (if written == read then some new else lookup read entries)
  unfolding lookup insert
  lookup-insert written read new [] = refl
  lookup-insert written read new ((i, old) ∷ rest) = ground (
    arith,
    lookup-insert written read new rest,
    eq_iff written read,
    eq_iff i written,
    eq_iff i read,
  )

  pub lookup-insert_self :
      (written : String) (new : V) (entries : Assoc V)
      → lookup written (insert written new entries) ≡ some new
  lookup-insert_self written new entries = simp (lookup-insert, eq_refl)

  -- writing to a key that is there keeps the keys
  pub keys-insert :
      (k : String) (v w : V) (m : Assoc V) → lookup k m ≡ some w → keys (insert k v m) ≡ keys m
  unfolding lookup insert keys
  keys-insert k v w [] h = cc
  keys-insert k v w ((i, x) ∷ m) h = ground (arith, eq_iff i k, keys-insert k v w m)

  -- An entry of the map after a write is the one written, or was there before.
  pub lookup-insert_cases :
      (k j : String) (v : V) (m : Assoc V) {w : V}
      → lookup j (insert k v m) ≡ some w
      → ((k ≡ j) × (w ≡ v)) ⊎ (lookup j m ≡ some w)
  lookup-insert_cases k j v m h = ground (arith, lookup-insert k j v m, eq_iff k j)

  -- the second of two writes to a key replaces the first
  pub insert-insert :
      (k : String) (v w : V) (m : Assoc V) → insert k w (insert k v m) ≡ insert k w m
  unfolding insert
  insert-insert k v w [] = simp eq_refl
  insert-insert k v w ((j, x) ∷ m) = ground (arith, eq_refl k, insert-insert k v w m)

-- m[key] of a map of lists
unfoldable pub entries_of {ℓ} : {A : Type ℓ} → Assoc (List A) → String → List A
unfolding lookup
entries_of m key = elim (lookup key m) [ none ↦ [] | some values ↦ values ]

-- m[key] = append(m[key], value)
unfoldable pub append_entry {ℓ} : {A : Type ℓ} → String → A → Assoc (List A) → Assoc (List A)
unfolding entries_of insert
append_entry key value m = insert key (entries_of m key ++ value ∷ []) m
