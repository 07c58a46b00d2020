-- ===== src/Storage/Keys.antt =====
-- internal/storage/page.go, `compareKeys`: byte slices in lexicographic order. The result -1, 0 or 1
-- is an `Ordering`.
use Prim.Native.Nat.{Ordering}
use Prim.Native.Nat.Ordering.{lt, eq, gt}
use hedgehog_db_opus.Base.{
  ℕ, ◌≡◌, ◌↔◌, refl, List, [], ◌∷◌, Bool, true, false, not, ◌&&◌, arith, ltb,
}
use hedgehog_db_opus.Base.{if◌then◌else◌, Eq}

-- The loop over the common length, then the lengths.
unfoldable pub compare_keys : List ℕ → List ℕ → Ordering
compare_keys [] [] = eq
compare_keys [] (b ∷ bs) = lt
compare_keys (a ∷ s) [] = gt
compare_keys (a ∷ s) (b ∷ bs) =
    let rest = compare_keys s bs in if ltb a b then lt else if ltb b a then gt else rest

abbrev pub is_less : Ordering → Bool
is_less lt = true
is_less eq = false
is_less gt = false

abbrev pub is_equal : Ordering → Bool
is_equal lt = false
is_equal eq = true
is_equal gt = false

-- `compareKeys(a, b) < 0` and `compareKeys(a, b) == 0`.
abbrev pub key_less : List ℕ → List ℕ → Bool
key_less a b = is_less (compare_keys a b)

abbrev pub key_equal : List ℕ → List ℕ → Bool
key_equal a b = is_equal (compare_keys a b)

compare_keys_refl : (a : List ℕ) → compare_keys a a ≡ eq
unfolding compare_keys
compare_keys_refl [] = refl
compare_keys_refl (a ∷ s) = ground (arith, compare_keys_refl s)

cons_eq : (a b : ℕ) (s t : List ℕ) → a ≡ b → s ≡ t → ◌≡◌ {A = List ℕ} (a ∷ s) (b ∷ t)
cons_eq a b s t p q = cc

-- Two keys compare as equal exactly when they are equal.
pub key_equal_iff : (a b : List ℕ) → (key_equal a b ≡ true) ↔ (a ≡ b)
unfolding compare_keys
key_equal_iff [] [] = ground arith
key_equal_iff [] (b ∷ bs) = ground arith
key_equal_iff (a ∷ s) [] = ground arith
key_equal_iff (a ∷ s) (b ∷ bs) = ground (arith, key_equal_iff s bs)

instance abbrev pub byte_keys : Eq (List ℕ)
byte_keys = record { test = key_equal; test_iff = key_equal_iff }

pub key_less_trans :
    (a b c : List ℕ) → key_less a b ≡ true → key_less b c ≡ true → key_less a c ≡ true
unfolding compare_keys
key_less_trans [] [] c h k = cc
key_less_trans [] (b ∷ bs) [] h k = cc
key_less_trans [] (b ∷ bs) (c ∷ cs) h k = refl
key_less_trans (a ∷ s) [] c h k = cc
key_less_trans (a ∷ s) (b ∷ bs) [] h k = cc
key_less_trans (a ∷ s) (b ∷ bs) (c ∷ cs) h k = ground (arith, key_less_trans s bs cs)

-- Exactly one of less, equal and greater.
pub key_less_flip : (a b : List ℕ) → key_less b a ≡ not (key_less a b) && not (key_equal a b)
unfolding compare_keys
key_less_flip [] [] = refl
key_less_flip [] (b ∷ bs) = refl
key_less_flip (a ∷ s) [] = refl
key_less_flip (a ∷ s) (b ∷ bs) = ground (arith, key_less_flip s bs)

pub key_less_irrefl : (a : List ℕ) → key_less a a ≡ false
key_less_irrefl a = rw (compare_keys_refl a) refl
