-- ===== src/Storage/Page/Entries.antt =====
-- Entries in order of their keys, as the cells of a page are: the place of a key among them, and what
-- an insertion and a removal at that place do to the map that they stand for.
use hedgehog_db_opus.Base.{ℕ, zero, suc, ◌≤◌, ◌<◌, ◌≡◌, refl, inl, inr, arith}
use hedgehog_db_opus.Base.{
  Bool, true, false, not, Option, none, some, List, [], ◌∷◌, nat_keys, ◌==◌,
}
use hedgehog_db_opus.Base.{if◌then◌else◌, length, get_elem?, insert_at, remove_at, All, Bool-cases}
use mathlib.Core.Path.{subst}
use hedgehog_db_opus.Base.{get_elem?_inside}
use hedgehog_db_opus.Base.GoMap.{lookup, value_or}
use hedgehog_db_opus.Base.Search.{IsFirst, IsMonotone}
use hedgehog_db_opus.Storage.Keys.{key_less, key_equal, byte_keys, key_less_trans, key_less_flip}
use hedgehog_db_opus.Storage.Keys.{key_less_irrefl, key_equal_iff}

module _ {ℓ} {V : Type ℓ} where
  -- The keys strictly increase.
  abbrev pub IsSorted : List (List ℕ × V) → Type 0
  IsSorted [] = Unit {0}
  IsSorted (e ∷ es) = All (λ (f : List ℕ × V). key_less e.0 f.0 ≡ true) es × IsSorted es

  -- How many keys are below the key.
  unfoldable pub lower_bound : List ℕ → List (List ℕ × V) → ℕ
  lower_bound key [] = 0
  lower_bound key (e ∷ es) =
      let rest = lower_bound key es in if key_less e.0 key then suc rest else 0

  unfoldable pub at_least : List ℕ → List (List ℕ × V) → ℕ → Bool
  at_least key es i = elim (get_elem? es i) [ none ↦ true | some e ↦ not (key_less e.0 key) ]

  pub All_at :
      (P : List ℕ × V → Type 0) (es : List (List ℕ × V)) (i : ℕ) (e : List ℕ × V)
      → All P es
      → get_elem? es i ≡ some e
      → P e
  All_at P [] i e h q = cc
  All_at P (x ∷ es) zero e h q = subst (λ o. P (value_or x o)) q h.0
  All_at P (x ∷ es) (suc i) e h q = All_at P es i e h.1 q

  pub at_least-IsMonotone :
      (key : List ℕ) (es : List (List ℕ × V))
      → IsSorted es
      → IsMonotone (length es) (at_least key es)
  unfolding at_least
  at_least-IsMonotone key [] s i j le h t = absurd (omega (arith, h))
  at_least-IsMonotone key (e ∷ es) s i zero le h t = let z : i ≡ 0 = omega arith in rw z at t
  at_least-IsMonotone key (e ∷ es) (a, s) zero (suc j) le h t =
      let (f, at) = get_elem?_inside es j (omega arith) in
      let less : key_less e.0 f.0 ≡ true = All_at (λ f. key_less e.0 f.0 ≡ true) es j f a at in
      ground (arith, at, less, key_less_trans e.0 f.0 key less, t)
  at_least-IsMonotone key (e ∷ es) (a, s) (suc i) (suc j) le h t =
      at_least-IsMonotone key es s i j (omega arith) (omega arith) t

  below_cons :
      (key : List ℕ) (e : List ℕ × V) (es : List (List ℕ × V)) (r : ℕ)
      → key_less e.0 key ≡ true
      → ((j : ℕ) → j < r → at_least key es j ≡ false)
      → (j : ℕ) → j < suc r
      → at_least key (e ∷ es) j ≡ false
  unfolding at_least
  below_cons key e es r t below zero h = rw t refl
  below_cons key e es r t below (suc j) h = below j (omega (arith, h))

  pub lower_bound-IsFirst :
      (key : List ℕ) (es : List (List ℕ × V))
      → IsSorted es
      → IsFirst (length es) (at_least key es) (lower_bound key es)
  unfolding at_least lower_bound
  lower_bound-IsFirst key [] s = record {
    bounded = omega arith;
    below = λ j h. absurd (omega arith);
    holds = λ h. absurd (omega arith);
  }
  lower_bound-IsFirst key (e ∷ es) (a, s) =
      let ih = lower_bound-IsFirst key es s in
      elim (Bool-cases (key_less e.0 key)) [
        | inl t ↦ rw t (record {
          bounded = omega (arith, ih.bounded);
          below = below_cons key e es (lower_bound key es) t ih.below;
          holds = λ h. ih.holds (omega (arith, h));
        })
        | inr f ↦ rw f (record {
          bounded = omega arith;
          below = λ j h. absurd (omega (arith, h));
          holds = λ h. rw f refl;
        })
      ]

  pub lower_bound-le : (key : List ℕ) (es : List (List ℕ × V)) → lower_bound key es ≤ length es
  unfolding lower_bound
  lower_bound-le key [] = omega arith
  lower_bound-le key (e ∷ es) = ground (arith, lower_bound-le key es)

  -- A key that is below all keys is not there.
  lookup_below :
      (key : List ℕ) (es : List (List ℕ × V))
      → All (λ (f : List ℕ × V). key_less key f.0 ≡ true) es
      → lookup key es ≡ none
  unfolding lookup
  lookup_below key [] h = refl
  lookup_below key ((k, v) ∷ es) (h, hs) =
      let other : key_equal k key ≡ false =
        ground (arith, h, key_equal_iff k key, key_less_irrefl key) in
      ground (arith, other, lookup_below key es hs)

  All-trans :
      (key k : List ℕ) (es : List (List ℕ × V))
      → key_less key k ≡ true
      → All (λ (f : List ℕ × V). key_less k f.0 ≡ true) es
      → All (λ (f : List ℕ × V). key_less key f.0 ≡ true) es
  All-trans key k [] h a = tt
  All-trans key k (f ∷ es) h (a, rest) = (key_less_trans key k f.0 h a, All-trans key k es h rest)

  abbrev pub found : List ℕ → Option (List ℕ × V) → Option V
  found key none = none
  found key (some e) = if key_equal e.0 key then some e.1 else none

  -- The entry at the place of the key is the one of the map, if any.
  pub found-lower_bound :
      (key : List ℕ) (es : List (List ℕ × V))
      → IsSorted es
      → found key (get_elem? es (lower_bound key es)) ≡ lookup key es
  unfolding lookup lower_bound
  found-lower_bound key [] s = refl
  found-lower_bound key ((k, v) ∷ es) (a, s) = ground (
    arith,
    found-lower_bound key es s,
    key_less_flip k key,
    key_less_irrefl key,
    key_equal_iff k key,
    λ (h : key_less key k ≡ true). lookup_below key es (All-trans key k es h a),
  )

  pub All-insert_at :
      (P : List ℕ × V → Type 0) (i : ℕ) (e : List ℕ × V) (es : List (List ℕ × V))
      → P e
      → All P es
      → All P (insert_at i e es)
  All-insert_at P zero e es h a = (h, a)
  All-insert_at P (suc i) e [] h a = (h, tt)
  All-insert_at P (suc i) e (x ∷ es) h (p, a) = (p, All-insert_at P i e es h a)

  All-remove_at :
      (P : List ℕ × V → Type 0) (i : ℕ) (es : List (List ℕ × V)) → All P es → All P (remove_at i es)
  All-remove_at P i [] a = tt
  All-remove_at P zero (x ∷ es) (p, a) = a
  All-remove_at P (suc i) (x ∷ es) (p, a) = (p, All-remove_at P i es a)

  -- Insertion at the place of a new key keeps the order.
  pub insert_at-IsSorted :
      (key : List ℕ) (v : V) (es : List (List ℕ × V))
      → IsSorted es
      → lookup key es ≡ none
      → IsSorted (insert_at (lower_bound key es) (key, v) es)
  unfolding lower_bound lookup
  insert_at-IsSorted key v [] s new = (tt, tt)
  insert_at-IsSorted key v ((k, w) ∷ es) (a, s) new = elim (Bool-cases (key_less k key)) [
    | inl t ↦
        let other : key_equal k key ≡ false =
          ground (arith, key_equal_iff k key, key_less_irrefl key, t) in
        rw t (
          All-insert_at (λ f. key_less k f.0 ≡ true) (lower_bound key es) (key, v) es t a,
          insert_at-IsSorted key v es s (ground (arith, other, new)),
        )
    | inr f ↦
        let less : key_less key k ≡ true = ground (arith, key_less_flip k key, f, new) in
        rw f ((less, All-trans key k es less a), (a, s))
  ]

  -- It is the insertion into the map.
  pub lookup-insert_at :
      (key asked : List ℕ) (v : V) (es : List (List ℕ × V))
      → lookup asked (insert_at (lower_bound key es) (key, v) es)
        ≡ (if key == asked then some v else lookup asked es)
  unfolding lower_bound lookup
  lookup-insert_at key asked v [] = refl
  lookup-insert_at key asked v ((k, w) ∷ es) = ground (
    arith,
    lookup-insert_at key asked v es,
    key_equal_iff k key,
    key_equal_iff k asked,
    key_equal_iff key asked,
    key_less_irrefl key,
  )

  -- Removal keeps the order.
  pub remove_at-IsSorted :
      (i : ℕ) (es : List (List ℕ × V)) → IsSorted es → IsSorted (remove_at i es)
  remove_at-IsSorted i [] s = tt
  remove_at-IsSorted zero (x ∷ es) (a, s) = s
  remove_at-IsSorted (suc i) (x ∷ es) (a, s) =
      (All-remove_at (λ f. key_less x.0 f.0 ≡ true) i es a, remove_at-IsSorted i es s)

  -- At the place of a key that is there, it is the deletion from the map.
  pub lookup-remove_at :
      (key asked : List ℕ) (v : V) (es : List (List ℕ × V))
      → IsSorted es
      → lookup key es ≡ some v
      → lookup asked (remove_at (lower_bound key es) es)
        ≡ (if key == asked then none else lookup asked es)
  unfolding lower_bound lookup
  lookup-remove_at key asked v [] s there = cc
  lookup-remove_at key asked v ((k, w) ∷ es) (a, s) there = ground (
    arith,
    lookup-remove_at key asked v es s,
    key_equal_iff k key,
    key_equal_iff k asked,
    key_equal_iff key asked,
    key_less_irrefl key,
    key_less_flip k key,
    lookup_below k es a,
    λ (h : key_less key k ≡ true). lookup_below key es (All-trans key k es h a),
  )
