-- ===== src/Base/GoMap.antt =====
-- Go's `map[K]V` as an association list. A `range` loop walks the list, so a theorem for every
-- list is one for every order in which the runtime may walk the map.
pub mod Entries
use mathlib.Core.Path.{◌≡◌, refl}
use mathlib.Core.Logic.{◌≢◌}
use mathlib.Core.Bool.{Bool, true, false}
use mathlib.Core.Option.{Option, none, some}
use mathlib.Core.List.{List, [], ◌∷◌, map}
use native.Mathlib.Omega.{arith}
use hedgehog_db_opus.Base.Tests.{if◌then◌else◌}
use hedgehog_db_opus.Base.Equality.{Eq, ◌==◌}
use hedgehog_db_opus.Base.Lists.{All}

abbrev pub GoMap {ℓ κ} : Type ℓ → Type κ → Type (ℓ ⊔ κ)
GoMap K V = List (K × V)

abbrev pub value_or {ℓ} : {V : Type ℓ} → V → Option V → V
value_or d none = d
value_or d (some v) = v

-- The `ok` of a lookup.
abbrev pub is_some {ℓ} : {V : Type ℓ} → Option V → Bool
is_some none = false
is_some (some v) = true

module _ {ℓ κ} {K : Type ℓ} {V : Type κ} ⦃e : Eq K⦄ where
  -- `delete(m, k)`
  unfoldable pub delete : K → List (K × V) → List (K × V)
  delete key [] = []
  delete key ((k, v) ∷ rest) =
      let others = delete key rest in if k == key then others else (k, v) ∷ others

  -- `m[k] = v`
  unfoldable pub insert : K → V → List (K × V) → List (K × V)
  insert key value [] = (key, value) ∷ []
  insert key value ((k, v) ∷ rest) =
      if k == key then (key, value) ∷ rest else (k, v) ∷ insert key value rest

  -- `v, ok := m[k]`
  unfoldable pub lookup : K → List (K × V) → Option V
  lookup key [] = none
  lookup key ((k, v) ∷ rest) = if k == key then some v else lookup key rest

  pub lookup-insert :
      (key asked : K) (value : V) (m : List (K × V))
      → lookup asked (insert key value m) ≡ (if key == asked then some value else lookup asked m)
  unfolding insert lookup
  lookup-insert key asked value [] = refl
  lookup-insert key asked value ((k, v) ∷ rest) = ground (
    arith,
    lookup-insert key asked value rest,
    e.test_iff k asked,
    e.test_iff k key,
    e.test_iff key asked,
  )

  pub lookup-delete :
      (k j : K) (m : List (K × V)) → lookup j (delete k m) ≡ (if k == j then none else lookup j m)
  unfolding lookup delete
  lookup-delete k j [] = ground arith
  lookup-delete k j ((i, w) ∷ m) =
      ground (arith, e.test_iff k j, e.test_iff i k, e.test_iff i j, lookup-delete k j m)

  -- No two entries of the list have one key, as in any Go map.
  abbrev pub Distinct : List (K × V) → Type ℓ
  Distinct [] = Unit {ℓ}
  Distinct ((k, v) ∷ m) = All {A = K} (λ j. j ≢ k) (map (λ x. x.0) m) × Distinct m

  -- `m[k]` in an expression: the zero value, `d`, stands for a missing key.
  abbrev pub read : V → K → List (K × V) → V
  read d k m = value_or d (lookup k m)
