-- ===== src/Base/File.antt =====
-- Files that are read and written at an offset, as `os.File` does it in `ReadAt` and `WriteAt`. A
-- write past the end extends the file, with zeros between. A read that the file is too short for
-- fails, which is `none`.
use hedgehog_db_opus.Base.Lists.{length, drop, get_elem?, length-take, length-drop}
use hedgehog_db_opus.Base.Tests.{if◌then◌else◌, ltb, Bool-cases}
use hedgehog_db_opus.Base.Buffer.{
  read_at, Holds, Apart, Holds-bounds, Holds-read_at, read_at-Holds, Holds-cons,
}
use Prim.Native.Nat.{ℕ, zero, suc, ◌+◌, ◌≤◌, ◌<◌}
use mathlib.Core.Path.{subst}
use hedgehog_db_opus.Base.GoMap.{value_or}
use mathlib.Core.Path.{◌≡◌, refl, ap}
use mathlib.Core.Logic.{inl, inr}
use mathlib.Core.Bool.{false}
use mathlib.Core.List.{List, [], ◌∷◌}
use mathlib.Core.Option.{Option, none, some}
use native.Mathlib.Omega.{arith}

unfoldable pub write_file_at : ℕ → List ℕ → List ℕ → List ℕ
write_file_at zero [] file = file
write_file_at zero (b ∷ bs) [] = b ∷ write_file_at zero bs []
write_file_at zero (b ∷ bs) (x ∷ file) = b ∷ write_file_at zero bs file
write_file_at (suc off) bs [] = 0 ∷ write_file_at off bs []
write_file_at (suc off) bs (x ∷ file) = x ∷ write_file_at off bs file

unfoldable pub read_file_at : ℕ → ℕ → List ℕ → Option (List ℕ)
read_file_at off n file = if ltb (length file) (off + n) then none else some (read_at off n file)

-- The file has its own length, or ends with what was written.
pub length-write_file_at :
    (off : ℕ) (bs file : List ℕ)
    → 0 < length bs
    → length (write_file_at off bs file)
      ≡ (if ltb (length file) (off + length bs) then off + length bs else length file)
unfolding write_file_at
length-write_file_at zero [] file h = absurd (omega arith)
length-write_file_at zero (b ∷ []) [] h = refl
length-write_file_at zero (b ∷ c ∷ bs) [] h =
    ground (arith, length-write_file_at zero (c ∷ bs) [] (omega arith))
length-write_file_at zero (b ∷ []) (x ∷ file) h = ground arith
length-write_file_at zero (b ∷ c ∷ bs) (x ∷ file) h =
    ground (arith, length-write_file_at zero (c ∷ bs) file (omega arith))
length-write_file_at (suc off) bs [] h = ground (arith, length-write_file_at off bs [] h)
length-write_file_at (suc off) bs (x ∷ file) h = ground (arith, length-write_file_at off bs file h)

-- What was written is there.
pub Holds-write_file_at : (off : ℕ) (bs file : List ℕ) → Holds (write_file_at off bs file) off bs
unfolding write_file_at
Holds-write_file_at zero [] file = tt
Holds-write_file_at zero (b ∷ bs) [] =
    (refl, (Holds-cons b (write_file_at zero bs []) zero bs).0 (Holds-write_file_at zero bs []))
Holds-write_file_at zero (b ∷ bs) (x ∷ file) =
    (refl, (Holds-cons b (write_file_at zero bs file) zero bs).0 (Holds-write_file_at zero bs file))
Holds-write_file_at (suc off) bs [] =
    (Holds-cons 0 (write_file_at off bs []) off bs).0 (Holds-write_file_at off bs [])
Holds-write_file_at (suc off) bs (x ∷ file) =
    (Holds-cons x (write_file_at off bs file) off bs).0 (Holds-write_file_at off bs file)

get_elem?-write_file_at :
    (off i : ℕ) (bs file : List ℕ) (c : ℕ)
    → Apart i 1 off (length bs)
    → get_elem? file i ≡ some c
    → get_elem? (write_file_at off bs file) i ≡ some c
unfolding write_file_at
get_elem?-write_file_at zero i [] file c a h = h
get_elem?-write_file_at off i (b ∷ bs) [] c a h = cc
get_elem?-write_file_at zero zero (b ∷ bs) (x ∷ file) c a h = absurd (omega (arith, a))
get_elem?-write_file_at zero (suc i) (b ∷ bs) (x ∷ file) c a h =
    get_elem?-write_file_at zero i bs file c (inr (omega (arith, a))) h
get_elem?-write_file_at (suc off) i bs [] c a h = cc
get_elem?-write_file_at (suc off) zero bs (x ∷ file) c a h = h
get_elem?-write_file_at (suc off) (suc i) bs (x ∷ file) c a h =
    get_elem?-write_file_at off i bs file c
      (elim a [ inl p ↦ inl (omega arith) | inr p ↦ inr (omega arith) ]) h

-- What was there apart from the write is kept.
pub Holds-keep_write :
    (o : ℕ) (cs : List ℕ) (off : ℕ) (bs file : List ℕ)
    → Apart o (length cs) off (length bs)
    → Holds file o cs
    → Holds (write_file_at off bs file) o cs
Holds-keep_write o [] off bs file a h = tt
Holds-keep_write o (c ∷ cs) off bs file a (h, hs) =
    let here : Apart o 1 off (length bs) = elim a [
      | inl p ↦ inl (omega (arith, p))
      | inr p ↦ inr (omega (arith, p))
    ] in
    let after : Apart (suc o) (length cs) off (length bs) = elim a [
      | inl p ↦ inl (omega (arith, p))
      | inr p ↦ inr (omega (arith, p))
    ] in
    (
      get_elem?-write_file_at off o bs file c here h,
      Holds-keep_write (suc o) cs off bs file after hs,
    )

-- Bytes that are there are read.
pub read_file_at-Holds :
    (o : ℕ) (cs file : List ℕ)
    → 0 < length cs
    → Holds file o cs
    → read_file_at o (length cs) file ≡ some cs
unfolding read_file_at
read_file_at-Holds o cs file p h =
    let inside = Holds-bounds file o cs h p in
    let long : ltb (length file) (o + length cs) ≡ false = ground (arith, inside) in
    rw (long, read_at-Holds file o cs h) refl

-- What is read is there, in the length asked for.
pub Holds-read_file_at :
    (o n : ℕ) (cs file : List ℕ)
    → read_file_at o n file ≡ some cs
    → Holds file o cs × (length cs ≡ n)
unfolding read_file_at
Holds-read_file_at o n cs file q = elim (Bool-cases (ltb (length file) (o + n))) [
  | inl t ↦ let bad : none ≡ some cs = rw t at q in absurd (cc bad)
  | inr f ↦
      let read : some (read_at o n file) ≡ some cs = rw f at q in
      let same : read_at o n file ≡ cs = ap (value_or cs) read in
      let long : o + n ≤ length file = ground arith in
      (
        subst (λ c. Holds file o c) same (Holds-read_at file o n),
        subst (λ c. length c ≡ n) same
            (omega (arith, long, length-take n (drop o file), length-drop o file)),
      )
]
