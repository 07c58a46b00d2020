-- ===== src/Base/Search.antt =====
-- Binary search for the first index at which a test that goes from false to true holds: the loop of
-- Go's `sort.Search`, and of the page searches of internal/storage/page.go.
use Prim.Native.Nat.{ℕ, zero, suc, ◌+◌, ◌-◌, ◌/◌, ◌≤◌, ◌<◌}
use mathlib.Core.Path.{◌≡◌}
use mathlib.Core.Logic.{inl, inr}
use mathlib.Core.Bool.{Bool, true, false}
use native.Mathlib.Omega.{arith}
use hedgehog_db_opus.Base.Tests.{ltb, Bool-cases}

-- `i, j := 0, n; for i < j { h := (i+j)/2; if !f(h) { i = h+1 } else { j = h } }; return i`
unfoldable pub search_loop : ℕ → (ℕ → Bool) → ℕ → ℕ → ℕ
search_loop zero f lo hi = lo
search_loop (suc fuel) f lo hi = elim (ltb lo hi) [
  | true ↦ elim (f ((lo + hi) / 2)) [
    | true ↦ search_loop fuel f lo ((lo + hi) / 2)
    | false ↦ search_loop fuel f ((lo + hi) / 2 + 1) hi
  ]
  | false ↦ lo
]

-- Each round shortens the interval, so `n` rounds are enough.
unfoldable pub first_true : ℕ → (ℕ → Bool) → ℕ
unfolding search_loop
first_true n f = search_loop n f 0 n

-- `r` is the first index below `n` at which the test holds, or `n` if there is none.
pub record IsFirst (n : ℕ) (f : ℕ → Bool) (r : ℕ) : Type 0 where
  pub bounded : r ≤ n
  pub below : (j : ℕ) → j < r → f j ≡ false
  pub holds : r < n → f r ≡ true

abbrev pub IsMonotone : ℕ → (ℕ → Bool) → Type 0
IsMonotone n f = (i j : ℕ) → i ≤ j → j < n → f i ≡ true → f j ≡ true

module _ (n : ℕ) (f : ℕ → Bool) (mono : IsMonotone n f) where
  false_below : (mid j : ℕ) → mid < n → f mid ≡ false → j < mid + 1 → f j ≡ false
  false_below mid j small h lt = elim (Bool-cases (f j)) [
    | inl t ↦ let u = mono j mid (omega arith) small t in cc
    | inr e ↦ e
  ]

  search_loop-IsFirst :
      (fuel lo hi : ℕ)
      → lo ≤ hi
      → hi ≤ n
      → hi - lo ≤ fuel
      → ((j : ℕ) → j < lo → f j ≡ false)
      → (hi < n → f hi ≡ true)
      → IsFirst n f (search_loop fuel f lo hi)
  unfolding search_loop
  search_loop-IsFirst zero lo hi h b k below holds = record {
    bounded = omega arith;
    below = below;
    holds = λ q. let e : lo ≡ hi = omega arith in rw e (holds (omega arith));
  }
  search_loop-IsFirst (suc fuel) lo hi h b k below holds = elim (Bool-cases (ltb lo hi)) [
    | inr e ↦
        rw (e, search_loop)
          (record {
            bounded = omega arith;
            below = below;
            holds = λ q. let e : lo ≡ hi = ground arith in rw e (holds (omega arith));
          })
    | inl t ↦
        let lt : lo < hi = ground arith in
        (elim (Bool-cases (f ((lo + hi) / 2))) [
          | inl u ↦
              rw (t, u, search_loop)
                (search_loop-IsFirst fuel lo ((lo + hi) / 2) (omega arith) (omega arith)
                  (omega arith) below (λ _. u))
          | inr u ↦
              rw (t, u, search_loop)
                (search_loop-IsFirst fuel ((lo + hi) / 2 + 1) hi (omega arith) b (omega arith)
                  (λ j. false_below ((lo + hi) / 2) j (omega arith) u) holds)
        ])
  ]

  pub first_true-IsFirst : IsFirst n f (first_true n f)
  unfolding first_true
  first_true-IsFirst =
      search_loop-IsFirst n 0 n (omega arith) (omega arith) (omega arith)
        (λ j h. absurd (omega arith)) (λ h. absurd (omega arith))

-- There is only one such index.
pub IsFirst-unique : (n : ℕ) (f : ℕ → Bool) (r s : ℕ) → IsFirst n f r → IsFirst n f s → r ≡ s
IsFirst-unique n f r s h k = elim (Bool-cases (ltb r s)) [
  | inl t ↦
      let lt : r < s = ground arith in
      let a = k.below r lt in let b = h.holds (omega (arith, k.bounded)) in absurd (cc)
  | inr e ↦ elim (Bool-cases (ltb s r)) [
    | inl t ↦
        let lt : s < r = ground arith in
        let a = h.below s lt in let b = k.holds (omega (arith, h.bounded)) in absurd (cc)
    | inr g ↦ ground arith
  ]
]
