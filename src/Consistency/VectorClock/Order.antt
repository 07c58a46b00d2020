-- ===== src/Consistency/VectorClock/Order.antt =====
-- vectorclock.go: `Compare` decides the causal order, the pointwise order of the counters.
use hedgehog_db_opus.Base.{ℕ, ◌≤◌, ◌≡◌, refl, ◌↔◌, ◌⊎◌, inl, inr, arith}
use hedgehog_db_opus.Base.{Bool, true, false, String, string_keys, none}
use hedgehog_db_opus.Base.{[], ◌∷◌, All, Option-cases}
use hedgehog_db_opus.Base.GoMap.{lookup, Distinct}
use hedgehog_db_opus.Base.GoMap.Entries.{lookup-All, All-of_lookup}
use hedgehog_db_opus.Consistency.VectorClock.{
  VectorClock, Clocks, counter, compare_own, compare_missing, compare_clocks, verdict, Comparison,
  minus_one, zero_result, one,
}

-- The causal order: every counter of one is at most that of the other.
abbrev pub HappenedBefore : Clocks → Clocks → Type 0
HappenedBefore a b = (k : String) → counter a k ≤ counter b k

abbrev pub IsMap : VectorClock → Type 0
IsMap vc = Distinct vc.clocks

-- What an entry says where a flag stays down.
abbrev Covers : Clocks → String → ℕ → Type 0
Covers other k c = counter other k ≤ c

abbrev Covered : Clocks → String → ℕ → Type 0
Covered other k c = c ≤ counter other k

abbrev ZeroIfMissing : Clocks → String → ℕ → Type 0
ZeroIfMissing own k c = lookup k own ≡ none → c ≡ 0

module _ (other : Clocks) where
  own_less_down :
      (m : Clocks) (l o : Bool)
      → (compare_own m other l o).0 ≡ false
      → (l ≡ false) × All (λ x. Covers other x.0 x.1) m
  unfolding compare_own
  own_less_down [] l o h = (h, tt)
  own_less_down ((k, c) ∷ m) l o h =
      let ih = own_less_down m _ _ h in (ground arith, (ground arith, ih.1))

  own_less_up :
      (m : Clocks) (l o : Bool)
      → l ≡ false
      → All (λ x. Covers other x.0 x.1) m
      → (compare_own m other l o).0 ≡ false
  unfolding compare_own
  own_less_up [] l o h a = h
  own_less_up ((k, c) ∷ m) l o h a = let q = a.0 in own_less_up m _ _ (ground arith) a.1

  other_less_down :
      (m : Clocks) (l o : Bool)
      → (compare_own m other l o).1 ≡ false
      → (o ≡ false) × All (λ x. Covered other x.0 x.1) m
  unfolding compare_own
  other_less_down [] l o h = (h, tt)
  other_less_down ((k, c) ∷ m) l o h =
      let ih = other_less_down m _ _ h in (ground arith, (ground arith, ih.1))

  other_less_up :
      (m : Clocks) (l o : Bool)
      → o ≡ false
      → All (λ x. Covered other x.0 x.1) m
      → (compare_own m other l o).1 ≡ false
  unfolding compare_own
  other_less_up [] l o h a = h
  other_less_up ((k, c) ∷ m) l o h a = let q = a.0 in other_less_up m _ _ (ground arith) a.1

missing_down :
    (own m : Clocks) (l : Bool)
    → compare_missing m own l ≡ false
    → (l ≡ false) × All (λ x. ZeroIfMissing own x.0 x.1) m
unfolding compare_missing
missing_down own [] l h = (h, tt)
missing_down own ((k, c) ∷ m) l h =
    let ih = missing_down own m _ h in (ground arith, (λ q. ground arith, ih.1))

missing_up :
    (own m : Clocks) (l : Bool)
    → l ≡ false
    → All (λ x. ZeroIfMissing own x.0 x.1) m
    → compare_missing m own l ≡ false
unfolding compare_missing
missing_up own [] l h a = h
missing_up own ((k, c) ∷ m) l h a =
    let q = a.0 in
    missing_up own m _
      (elim (Option-cases (lookup k own)) [
        | inl n ↦ rw n (ground (arith, q n))
        | inr s ↦ rw (s.1) h
      ])
      a.1

module _ (a b : Clocks) where
  below_of_flags :
      All (λ x. Covers b x.0 x.1) a → All (λ x. ZeroIfMissing a x.0 x.1) b → HappenedBefore b a
  below_of_flags cov zer k = elim (Option-cases (lookup k a)) [
    | inl n ↦ elim (Option-cases (lookup k b)) [
      | inl m ↦ rw (n, m) (omega arith)
      | inr s ↦
          let z = lookup-All (ZeroIfMissing a) b k s.0 zer s.1 n in rw (n, s.1) (omega (arith, z))
    ]
    | inr s ↦ let c = lookup-All (Covers b) a k s.0 cov s.1 in rw (s.1) c
  ]

  above_of_flag : All (λ x. Covered b x.0 x.1) a → HappenedBefore a b
  above_of_flag cov k = elim (Option-cases (lookup k a)) [
    | inl n ↦ rw n (omega arith)
    | inr s ↦ let c = lookup-All (Covered b) a k s.0 cov s.1 in rw (s.1) c
  ]

  -- `vcLess` stays down exactly when `other` happened before `vc`.
  vc_less_iff :
      Distinct a
      → Distinct b
      → (compare_missing b a (compare_own a b false false).0 ≡ false) ↔ HappenedBefore b a
  vc_less_iff da db = (
    λ h.
        let (f, zer) = missing_down a b _ h in
        let (_, cov) = own_less_down b a false false f in below_of_flags cov zer,
    λ hb.
        missing_up a b _
          (own_less_up b a false false refl
            (All-of_lookup (Covers b) a da λ k c q. (rw q at (hb k))))
          (All-of_lookup (ZeroIfMissing a) b db λ k c q n. let r = hb k in ground arith),
  )

  -- `otherLess` stays down exactly when `vc` happened before `other`.
  other_less_iff : Distinct a → ((compare_own a b false false).1 ≡ false) ↔ HappenedBefore a b
  other_less_iff da = (
    λ h. above_of_flag (other_less_down b a false false h).1,
    λ hb.
        other_less_up b a false false refl
          (All-of_lookup (Covered b) a da λ k c q. (rw q at (hb k))),
  )

-- What the verdict on two flags means.
abbrev pub Causality : VectorClock → VectorClock → Comparison → Type 0
Causality vc other minus_one =
    HappenedBefore vc.clocks other.clocks × (¬ HappenedBefore other.clocks vc.clocks)
Causality vc other one =
    HappenedBefore other.clocks vc.clocks × (¬ HappenedBefore vc.clocks other.clocks)
Causality vc other zero_result =
    (HappenedBefore vc.clocks other.clocks × HappenedBefore other.clocks vc.clocks)
    ⊎ ((¬ HappenedBefore vc.clocks other.clocks) × (¬ HappenedBefore other.clocks vc.clocks))

verdict-Causality :
    (vc other : VectorClock) (l o : Bool)
    → (l ≡ false) ↔ HappenedBefore other.clocks vc.clocks
    → (o ≡ false) ↔ HappenedBefore vc.clocks other.clocks
    → Causality vc other (verdict l o)
unfolding verdict
verdict-Causality vc other true true p q = inr (λ h. cc (q.1 h), λ h. cc (p.1 h))
verdict-Causality vc other true false p q = (q.0 refl, λ h. cc (p.1 h))
verdict-Causality vc other false true p q = (p.0 refl, λ h. cc (q.1 h))
verdict-Causality vc other false false p q = inl (q.0 refl, p.0 refl)

-- `Compare` returns -1 when `vc` strictly precedes `other` in the causal order, 1 when it strictly
-- follows it, and 0 when the two agree on every counter or neither precedes the other. Both clock
-- maps are Go maps: their keys are distinct.
pub compare_clocks-Causality :
    (vc other : VectorClock) → IsMap vc → IsMap other → Causality vc other (compare_clocks vc other)
unfolding compare_clocks
compare_clocks-Causality vc other da db =
    verdict-Causality vc other _ _ (vc_less_iff vc.clocks other.clocks da db)
      (other_less_iff vc.clocks other.clocks da)
