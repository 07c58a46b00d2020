-- ===== src/Base/Equality.antt =====
-- Equality tests of keys: Go's `==` on strings and on unsigned integers.
use Prim.Native.Nat.{ℕ}
use Prim.Native.String.{String}
use mathlib.Core.Path.{◌≡◌, refl}
use mathlib.Core.Logic.{◌↔◌}
use mathlib.Core.Bool.{Bool, true}
use text.Mathlib.Text.{◌==◌ as str_eq}
use text.Mathlib.TextEquality.{eq_iff}
use hedgehog_db_opus.Base.Tests.{nat_eq, nat_eq_iff}

-- A type with a test that decides its paths. Keys of maps have one.
pub record Eq {κ} (K : Type κ) : Type κ where
  pub test : K → K → Bool
  pub test_iff : (j k : K) → (test j k ≡ true) ↔ (j ≡ k)

instance abbrev pub string_keys : Eq String
string_keys = record { test = str_eq; test_iff = eq_iff }

instance abbrev pub nat_keys : Eq ℕ
nat_keys = record { test = nat_eq; test_iff = nat_eq_iff }

infix 50 ◌==◌
abbrev pub ◌==◌ {κ} : {K : Type κ} ⦃e : Eq K⦄ → K → K → Bool
◌==◌ ⦃e⦄ j k = e.test j k

pub ==_refl {κ} : {K : Type κ} ⦃e : Eq K⦄ (k : K) → (k == k) ≡ true
==_refl ⦃e⦄ k = (e.test_iff k k).1 refl

pub ==_iff {κ} : {K : Type κ} ⦃e : Eq K⦄ (j k : K) → ((j == k) ≡ true) ↔ (j ≡ k)
==_iff ⦃e⦄ = e.test_iff
