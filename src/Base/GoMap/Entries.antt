-- ===== src/Base/GoMap/Entries.antt =====
-- The entries of a Go map against its lookups, and how its operations keep the keys distinct.
use mathlib.Core.Path.{◌≡◌, refl, subst₂}
use mathlib.Core.Logic.{◌≢◌, inl, inr}
use mathlib.Core.Option.{none, some}
use mathlib.Core.List.{List, [], ◌∷◌, map}
use native.Mathlib.Omega.{arith}
use hedgehog_db_opus.Base.Tests.{Bool-cases}
use hedgehog_db_opus.Base.Equality.{Eq, ◌==◌, ==_refl}
use hedgehog_db_opus.Base.Lists.{All, length}
use Prim.Native.Nat.{◌≤◌, ◌<◌}
use hedgehog_db_opus.Base.GoMap.{lookup, insert, delete, Distinct}

module _ {ℓ κ} {K : Type ℓ} {V : Type κ} ⦃e : Eq K⦄ where
  -- What holds of all entries holds of each value that is looked up.
  pub lookup-All {μ} :
      (P : K → V → Type μ) (m : List (K × V)) (k : K) (v : V)
      → All (λ x. P x.0 x.1) m
      → lookup k m ≡ some v
      → P k v
  unfolding lookup
  lookup-All P [] k v h q = cc
  lookup-All P ((j, w) ∷ m) k v h q = elim (Bool-cases (j == k)) [
    | inl t ↦ subst₂ P ((e.test_iff j k).0 t) (ground arith) h.0
    | inr f ↦ lookup-All P m k v h.1 (ground arith)
  ]

  pub lookup-absent :
      (m : List (K × V)) (k : K) → All (λ j. j ≢ k) (map (λ x. x.0) m) → lookup k m ≡ none
  unfolding lookup
  lookup-absent [] k h = refl
  lookup-absent ((j, w) ∷ m) k h = ground (arith, e.test_iff j k, lookup-absent m k)

  All-self {μ} :
      (P : K → V → Type μ) (k : K) (v : V) (m : List (K × V))
      → ((j : K) (w : V) → lookup j ((k, v) ∷ m) ≡ some w → P j w)
      → P k v
  unfolding lookup
  All-self P k v m h = h k v (rw (==_refl k))

  All-rest {μ} :
      (P : K → V → Type μ) (k : K) (v : V) (m : List (K × V))
      → All (λ j. j ≢ k) (map (λ x. x.0) m)
      → ((j : K) (w : V) → lookup j ((k, v) ∷ m) ≡ some w → P j w)
      → (j : K) (w : V) → lookup j m ≡ some w
      → P j w
  unfolding lookup
  All-rest P k v m d h j w q = elim (Bool-cases (k == j)) [
    | inl t ↦
        let gone : lookup k m ≡ none = lookup-absent m k d in
        absurd (ground (arith, (e.test_iff k j).0 t))
    | inr f ↦ h j w (rw f q)
  ]

  -- With distinct keys, what holds of each value that is looked up holds of all entries.
  pub All-of_lookup {μ} :
      (P : K → V → Type μ) (m : List (K × V))
      → Distinct m
      → ((j : K) (w : V) → lookup j m ≡ some w → P j w)
      → All (λ x. P x.0 x.1) m
  All-of_lookup P [] d h = tt
  All-of_lookup P ((k, v) ∷ m) d h =
      (All-self P k v m h, All-of_lookup P m d.1 (All-rest P k v m d.0 h))

  insert_keys :
      (k : K) (v : V) (m : List (K × V)) (j : K)
      → k ≢ j
      → All (λ i. i ≢ j) (map (λ x. x.0) m)
      → All (λ i. i ≢ j) (map (λ x. x.0) (insert k v m))
  unfolding insert
  insert_keys k v [] j n h = (n, tt)
  insert_keys k v ((i, w) ∷ m) j n h = elim (Bool-cases (i == k)) [
    | inl t ↦ rw t (n, h.1)
    | inr f ↦ rw f (h.0, insert_keys k v m j n h.1)
  ]

  pub insert-Distinct : (k : K) (v : V) (m : List (K × V)) → Distinct m → Distinct (insert k v m)
  unfolding insert
  insert-Distinct k v [] d = (tt, tt)
  insert-Distinct k v ((i, w) ∷ m) d = elim (Bool-cases (i == k)) [
    | inl t ↦ rw t (rw ((e.test_iff i k).0 t) at d)
    | inr f ↦
        let n : k ≢ i = λ p. ground (arith, e.test_iff i k) in
        rw f (insert_keys k v m i n d.0, insert-Distinct k v m d.1)
  ]

  delete_keys :
      (k : K) (m : List (K × V)) (j : K)
      → All (λ i. i ≢ j) (map (λ x. x.0) m)
      → All (λ i. i ≢ j) (map (λ x. x.0) (delete k m))
  unfolding delete
  delete_keys k [] j h = tt
  delete_keys k ((i, w) ∷ m) j h = elim (Bool-cases (i == k)) [
    | inl t ↦ rw t (delete_keys k m j h.1)
    | inr f ↦ rw f (h.0, delete_keys k m j h.1)
  ]

  pub delete-Distinct : (k : K) (m : List (K × V)) → Distinct m → Distinct (delete k m)
  unfolding delete
  delete-Distinct k [] d = tt
  delete-Distinct k ((i, w) ∷ m) d = elim (Bool-cases (i == k)) [
    | inl t ↦ rw t (delete-Distinct k m d.1)
    | inr f ↦ rw f (delete_keys k m i d.0, delete-Distinct k m d.1)
  ]

  -- A key that is not found is not among the keys.
  pub All-lookup-none :
      (m : List (K × V)) (k : K) → lookup k m ≡ none → All (λ j. j ≢ k) (map (λ x. x.0) m)
  unfolding lookup
  All-lookup-none [] k h = tt
  All-lookup-none ((j, w) ∷ m) k h = elim (Bool-cases (j == k)) [
    | inl t ↦ let bad : some w ≡ none = rw t at h in absurd (cc bad)
    | inr f ↦ (λ q. ground (arith, e.test_iff j k), All-lookup-none m k (rw f at h))
  ]

  pub length-delete_le : (k : K) (m : List (K × V)) → length (delete k m) ≤ length m
  unfolding delete
  length-delete_le k [] = omega arith
  length-delete_le k ((i, w) ∷ m) = ground (arith, length-delete_le k m)

  -- A key that is found is taken out.
  pub length-delete :
      (k : K) (v : V) (m : List (K × V)) → lookup k m ≡ some v → length (delete k m) < length m
  unfolding delete lookup
  length-delete k v [] h = cc
  length-delete k v ((i, w) ∷ m) h = ground (arith, length-delete_le k m, length-delete k v m)

  pub length-insert :
      (k : K) (v w : V) (m : List (K × V)) → lookup k m ≡ some v → length (insert k w m) ≡ length m
  unfolding insert lookup
  length-insert k v w [] h = cc
  length-insert k v w ((i, u) ∷ m) h = ground (arith, length-insert k v w m)
