-- ===== src/Base/Buffer.antt =====
-- Byte slices that are written in place: `copy(d[off:], bs)` and the reads and writes of
-- `encoding/binary` at an offset. A slice out of range is a panic in Go, which is not modelled: here a
-- read stops at the end and a write past it is lost.
use hedgehog_db_opus.Base.Lists.{length, take, drop, get_elem?, length-take, length-drop}
use hedgehog_db_opus.Base.Bytes.{le_bytes, le_value, length-le_bytes, le_value-le_bytes}
use Prim.Native.Nat.{ℕ, zero, suc, ◌+◌, ◌^◌, ◌≤◌, ◌<◌}
use mathlib.Core.Path.{◌≡◌, refl, sym, ap, ◌∙◌}
use mathlib.Core.Logic.{◌⊎◌, inl, inr}
use mathlib.Core.List.{List, [], ◌∷◌, ◌++◌}
use mathlib.Core.Option.{some}
use native.Mathlib.Omega.{arith}

-- `d[off:off+n]`
abbrev pub read_at : ℕ → ℕ → List ℕ → List ℕ
read_at off n d = take n (drop off d)

-- `copy(d[off:off+len(bs)], bs)`
unfoldable pub copy_at : ℕ → List ℕ → List ℕ → List ℕ
copy_at off bs [] = []
copy_at zero [] (x ∷ d) = x ∷ d
copy_at zero (b ∷ bs) (x ∷ d) = b ∷ copy_at zero bs d
copy_at (suc off) bs (x ∷ d) = x ∷ copy_at off bs d

-- `binary.LittleEndian.UintN(d[off:off+w])` and `PutUintN`.
abbrev pub get_le : ℕ → ℕ → List ℕ → ℕ
get_le w off d = le_value (read_at off w d)

abbrev pub put_le : ℕ → ℕ → ℕ → List ℕ → List ℕ
put_le w off n d = copy_at off (le_bytes w n) d

-- The slice has these bytes from the offset on.
abbrev pub Holds : List ℕ → ℕ → List ℕ → Type 0
Holds d off [] = Unit {0}
Holds d off (b ∷ bs) = (get_elem? d off ≡ some b) × Holds d (suc off) bs

-- Two ranges, each an offset with a length, that do not meet.
abbrev pub Apart : ℕ → ℕ → ℕ → ℕ → Type 0
Apart o n off len = (o + n ≤ off) ⊎ (off + len ≤ o)

pub length-copy_at : (off : ℕ) (bs d : List ℕ) → length (copy_at off bs d) ≡ length d
unfolding copy_at
length-copy_at off bs [] = refl
length-copy_at zero [] (x ∷ d) = refl
length-copy_at zero (b ∷ bs) (x ∷ d) = ap suc (length-copy_at zero bs d)
length-copy_at (suc off) bs (x ∷ d) = ap suc (length-copy_at off bs d)

-- One copy after another is the copy of both.
pub copy_at-append :
    (off : ℕ) (xs ys d : List ℕ)
    → copy_at off (xs ++ ys) d ≡ copy_at (off + length xs) ys (copy_at off xs d)
unfolding copy_at
copy_at-append off xs ys [] = refl
copy_at-append zero [] ys (x ∷ d) = refl
copy_at-append zero (b ∷ xs) ys (x ∷ d) =
    let next : 0 + suc (length xs) ≡ suc (0 + length xs) = omega arith in
    rw next (ap (λ (t : List ℕ). b ∷ t) (copy_at-append zero xs ys d))
copy_at-append (suc off) xs ys (x ∷ d) =
    let next : suc off + length xs ≡ suc (off + length xs) = omega arith in
    rw next (ap (λ (t : List ℕ). x ∷ t) (copy_at-append off xs ys d))

get_elem?-copy_at-Apart :
    (off i : ℕ) (bs d : List ℕ)
    → Apart i 1 off (length bs)
    → get_elem? (copy_at off bs d) i ≡ get_elem? d i
unfolding copy_at
get_elem?-copy_at-Apart off i bs [] h = refl
get_elem?-copy_at-Apart zero zero [] (x ∷ d) h = refl
get_elem?-copy_at-Apart zero (suc i) [] (x ∷ d) h = refl
get_elem?-copy_at-Apart zero zero (b ∷ bs) (x ∷ d) h = absurd (omega (arith, h))
get_elem?-copy_at-Apart zero (suc i) (b ∷ bs) (x ∷ d) h =
    get_elem?-copy_at-Apart zero i bs d (inr (omega (arith, h)))
get_elem?-copy_at-Apart (suc off) zero bs (x ∷ d) h = refl
get_elem?-copy_at-Apart (suc off) (suc i) bs (x ∷ d) h =
    get_elem?-copy_at-Apart off i bs d
      (elim h [ inl p ↦ inl (omega arith) | inr p ↦ inr (omega arith) ])

pub Holds-cons :
    (x : ℕ) (d : List ℕ) (off : ℕ) (bs : List ℕ)
    → (Holds d off bs → Holds (x ∷ d) (suc off) bs) × (Holds (x ∷ d) (suc off) bs → Holds d off bs)
Holds-cons x d off [] = (λ h. h, λ h. h)
Holds-cons x d off (b ∷ bs) =
    let (f, g) = Holds-cons x d (suc off) bs in (λ (h, hs). (h, f hs), λ (h, hs). (h, g hs))

-- What was copied is there.
pub Holds-copy_at :
    (off : ℕ) (bs d : List ℕ) → off + length bs ≤ length d → Holds (copy_at off bs d) off bs
unfolding copy_at
Holds-copy_at off [] d h = tt
Holds-copy_at off (b ∷ bs) [] h = absurd (omega (arith, h))
Holds-copy_at zero (b ∷ bs) (x ∷ d) h = (
  refl,
  (Holds-cons b (copy_at zero bs d) zero bs).0 (Holds-copy_at zero bs d (omega (arith, h))),
)
Holds-copy_at (suc off) (b ∷ bs) (x ∷ d) h =
    (Holds-cons x (copy_at off (b ∷ bs) d) off (b ∷ bs)).0
      (Holds-copy_at off (b ∷ bs) d (omega (arith, h)))

-- What was there apart from the copy is kept.
pub Holds-keep :
    (o : ℕ) (cs : List ℕ) (off : ℕ) (bs d : List ℕ)
    → Apart o (length cs) off (length bs)
    → Holds d o cs
    → Holds (copy_at off bs d) o cs
Holds-keep o [] off bs d a h = tt
Holds-keep o (c ∷ cs) off bs d a (h, hs) =
    let here : Apart o 1 off (length bs) = elim a [
      | inl p ↦ inl (omega (arith, p))
      | inr p ↦ inr (omega (arith, p))
    ] in
    let after : Apart (suc o) (length cs) off (length bs) = elim a [
      | inl p ↦ inl (omega (arith, p))
      | inr p ↦ inr (omega (arith, p))
    ] in
    (get_elem?-copy_at-Apart off o bs d here ∙ h, Holds-keep (suc o) cs off bs d after hs)

pub Holds-append :
    (d : List ℕ) (o : ℕ) (xs ys : List ℕ)
    → (Holds d o (xs ++ ys) → Holds d o xs × Holds d (o + length xs) ys)
      × (Holds d o xs → Holds d (o + length xs) ys → Holds d o (xs ++ ys))
Holds-append d o [] ys = let e : o + 0 ≡ o = omega arith in (λ h. (tt, rw e h), λ h k. rw (← e) k)
Holds-append d o (x ∷ xs) ys =
    let (f, g) = Holds-append d (suc o) xs ys in
    let e : o + suc (length xs) ≡ suc o + length xs = omega arith in
    (λ (h, hs). ((h, (f hs).0), rw e ((f hs).1)), λ (h, hs) k. (h, g hs (rw (← e) k)))

-- The bytes lie in the slice.
pub Holds-bounds :
    (d : List ℕ) (o : ℕ) (bs : List ℕ) → Holds d o bs → 0 < length bs → o + length bs ≤ length d
Holds-bounds [] o [] h p = absurd (omega (arith, p))
Holds-bounds [] o (b ∷ bs) (h, hs) p = cc
Holds-bounds (x ∷ d) (suc o) bs h p =
    omega (arith, Holds-bounds d o bs ((Holds-cons x d o bs).1 h) p)
Holds-bounds (x ∷ d) zero [] h p = absurd (omega (arith, p))
Holds-bounds (x ∷ d) zero (b ∷ []) h p = omega arith
Holds-bounds (x ∷ d) zero (b ∷ c ∷ bs) (h, hs) p =
    omega (arith, Holds-bounds d zero (c ∷ bs) ((Holds-cons x d zero (c ∷ bs)).1 hs) (omega arith))

-- A read of the bytes gives them.
pub read_at-Holds : (d : List ℕ) (o : ℕ) (bs : List ℕ) → Holds d o bs → read_at o (length bs) d ≡ bs
read_at-Holds d o [] h = refl
read_at-Holds [] o (b ∷ bs) (h, hs) = cc
read_at-Holds (x ∷ d) (suc o) (b ∷ bs) h =
    read_at-Holds d o (b ∷ bs) ((Holds-cons x d o (b ∷ bs)).1 h)
read_at-Holds (x ∷ d) zero (b ∷ bs) (h, hs) =
    cc (h, read_at-Holds d zero bs ((Holds-cons x d zero bs).1 hs))

-- The bytes read are there.
pub Holds-read_at : (d : List ℕ) (o n : ℕ) → Holds d o (read_at o n d)
Holds-read_at d o zero = tt
Holds-read_at [] zero (suc n) = tt
Holds-read_at [] (suc o) (suc n) = tt
Holds-read_at (x ∷ d) (suc o) (suc n) =
    (Holds-cons x d o (read_at o (suc n) d)).0 (Holds-read_at d o (suc n))
Holds-read_at (x ∷ d) zero (suc n) =
    (refl, (Holds-cons x d zero (read_at zero n d)).0 (Holds-read_at d zero n))

-- A number is read again where its bytes are kept.
pub get_le-kept :
    (w off : ℕ) (d d' : List ℕ)
    → off + w ≤ length d
    → Holds d' off (read_at off w d)
    → get_le w off d' ≡ get_le w off d
get_le-kept w off d d' inside h =
    let size : length (read_at off w d) ≡ w =
      omega (arith, inside, length-take w (drop off d), length-drop off d) in
    ap (λ n. le_value (read_at off n d')) (sym size)
    ∙ ap le_value (read_at-Holds d' off (read_at off w d) h)

pub get_le-Holds :
    (w n off : ℕ) (d : List ℕ) → n < 256 ^ w → Holds d off (le_bytes w n) → get_le w off d ≡ n
get_le-Holds w n off d fits h =
    ap (λ k. le_value (read_at off k d)) (sym (length-le_bytes w n))
    ∙ ap le_value (read_at-Holds d off (le_bytes w n) h)
    ∙ le_value-le_bytes w n fits

pub Holds-put_le :
    (w off n : ℕ) (d : List ℕ) → off + w ≤ length d → Holds (put_le w off n d) off (le_bytes w n)
Holds-put_le w off n d h =
    Holds-copy_at off (le_bytes w n) d (omega (arith, h, length-le_bytes w n))

pub Holds-keep_put :
    (o : ℕ) (cs : List ℕ) (w off n : ℕ) (d : List ℕ)
    → Apart o (length cs) off w
    → Holds d o cs
    → Holds (put_le w off n d) o cs
Holds-keep_put o cs w off n d a h =
    Holds-keep o cs off (le_bytes w n) d (rw (length-le_bytes w n) a) h
