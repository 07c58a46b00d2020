-- ===== src/Storage/Page/Pointers.antt =====
-- internal/storage/page.go: the loops that shift cell pointers move each by one place and touch
-- nothing else.
use hedgehog_db_opus.Base.{
  ℕ, zero, suc, ◌+◌, ◌-◌, ◌*◌, ◌^◌, ◌≤◌, ◌<◌, ◌≡◌, refl, ◌∙◌, inl, inr, ◌⊎◌,
}
use hedgehog_db_opus.Base.{List, length, arith, nat_keys, ◌==◌, Bool-cases, ap}
use hedgehog_db_opus.Base.Bytes.{le_bytes, length-le_bytes}
use hedgehog_db_opus.Base.Buffer.{Holds, Apart, Holds-keep_put, Holds-put_le}
use hedgehog_db_opus.Base.Buffer.{length-copy_at, get_le-Holds}
use hedgehog_db_opus.Storage.Page.{
  Page, pointer_at, get_cell_pointer, set_cell_pointer, shift_up, shift_down,
}

-- The j-th cell pointer is `o`.
abbrev pub IsPointer : Page → ℕ → ℕ → Type 0
IsPointer p j o = Holds p.bytes (pointer_at j) (le_bytes 2 o)

IsPointer-keep :
    (p : Page) (i n j o : ℕ)
    → (j < i) ⊎ (i < j)
    → IsPointer p j o
    → IsPointer (set_cell_pointer i n p) j o
IsPointer-keep p i n j o apart h =
    let away : Apart (pointer_at j) (length (le_bytes 2 o)) (pointer_at i) 2 = elim apart [
      | inl q ↦ inl (omega (arith, q, length-le_bytes 2 o))
      | inr q ↦ inr (omega (arith, q, length-le_bytes 2 o))
    ] in
    Holds-keep_put (pointer_at j) (le_bytes 2 o) 2 (pointer_at i) n p.bytes away h

pub length-shift_up : (r i : ℕ) (p : Page) → length (shift_up r i p).bytes ≡ length p.bytes
unfolding shift_up
length-shift_up zero i p = refl
length-shift_up (suc r) i p =
    length-shift_up r (i - 1) (set_cell_pointer i (get_cell_pointer (i - 1) p) p)
    ∙ length-copy_at (pointer_at i) (le_bytes 2 (get_cell_pointer (i - 1) p)) p.bytes

-- The loop writes the `r` pointers up to the i-th.
pub shift_up_keep :
    (r i : ℕ) (p : Page) (o : ℕ) (cs : List ℕ)
    → r ≤ i
    → Apart o (length cs) (pointer_at (i + 1 - r)) (r * 2)
    → Holds p.bytes o cs
    → Holds (shift_up r i p).bytes o cs
unfolding shift_up
shift_up_keep zero i p o cs h a k = k
shift_up_keep (suc r) i p o cs h a k =
    let n = get_cell_pointer (i - 1) p in
    let first : Apart o (length cs) (pointer_at i) 2 = elim a [
      | inl q ↦ inl (omega (arith, q, h))
      | inr q ↦ inr (omega (arith, q, h))
    ] in
    let others : Apart o (length cs) (pointer_at (i - 1 + 1 - r)) (r * 2) = elim a [
      | inl q ↦ inl (omega (arith, q, h))
      | inr q ↦ inr (omega (arith, q, h))
    ] in
    shift_up_keep r (i - 1) (set_cell_pointer i n p) o cs (omega (arith, h)) others
      (Holds-keep_put o cs 2 (pointer_at i) n p.bytes first k)

pub shift_up_moves :
    (r i : ℕ) (p : Page) (j o : ℕ)
    → r ≤ i
    → pointer_at (i + 1) ≤ length p.bytes
    → i - r ≤ j
    → j < i
    → o < 256 ^ 2
    → IsPointer p j o
    → IsPointer (shift_up r i p) (j + 1) o
unfolding shift_up
shift_up_moves zero i p j o h long low high fits k = absurd (omega (arith, low, high))
shift_up_moves (suc r) i p j o h long low high fits k =
    let n = get_cell_pointer (i - 1) p in
    let p' = set_cell_pointer i n p in
    elim (Bool-cases (j + 1 == i)) [
      | inl t ↦
          let e : i ≡ j + 1 = ground arith in
          let e' : i - 1 ≡ j = omega (arith, e) in
          let value : n ≡ o =
            ap (λ q. get_cell_pointer q p) e' ∙ get_le-Holds 2 o (pointer_at j) p.bytes fits k in
          let put : IsPointer p' (j + 1) o =
            rw (← e) (rw value (Holds-put_le 2 (pointer_at i) o p.bytes (omega (arith, long)))) in
          shift_up_keep r (i - 1) p' (pointer_at (j + 1)) (le_bytes 2 o) (omega (arith, h))
            (inr (omega (arith, e, h))) put
      | inr f ↦
          let less : j < i - 1 = ground arith in
          shift_up_moves r (i - 1) p' j o (omega (arith, h))
            (omega (arith, long, length-copy_at (pointer_at i) (le_bytes 2 n) p.bytes, h))
            (omega (arith, low)) less fits (IsPointer-keep p i n j o (inl high) k)
    ]

pub length-shift_down : (r i : ℕ) (p : Page) → length (shift_down r i p).bytes ≡ length p.bytes
unfolding shift_down
length-shift_down zero i p = refl
length-shift_down (suc r) i p =
    length-shift_down r (i + 1) (set_cell_pointer i (get_cell_pointer (i + 1) p) p)
    ∙ length-copy_at (pointer_at i) (le_bytes 2 (get_cell_pointer (i + 1) p)) p.bytes

-- The loop writes the `r` pointers from the i-th on.
pub shift_down_keep :
    (r i : ℕ) (p : Page) (o : ℕ) (cs : List ℕ)
    → Apart o (length cs) (pointer_at i) (r * 2)
    → Holds p.bytes o cs
    → Holds (shift_down r i p).bytes o cs
unfolding shift_down
shift_down_keep zero i p o cs a k = k
shift_down_keep (suc r) i p o cs a k =
    let n = get_cell_pointer (i + 1) p in
    let first : Apart o (length cs) (pointer_at i) 2 = elim a [
      | inl q ↦ inl (omega (arith, q))
      | inr q ↦ inr (omega (arith, q))
    ] in
    let others : Apart o (length cs) (pointer_at (i + 1)) (r * 2) = elim a [
      | inl q ↦ inl (omega (arith, q))
      | inr q ↦ inr (omega (arith, q))
    ] in
    shift_down_keep r (i + 1) (set_cell_pointer i n p) o cs others
      (Holds-keep_put o cs 2 (pointer_at i) n p.bytes first k)

pub shift_down_moves :
    (r i : ℕ) (p : Page) (j o : ℕ)
    → pointer_at (i + r) ≤ length p.bytes
    → i ≤ j
    → j < i + r
    → o < 256 ^ 2
    → IsPointer p (j + 1) o
    → IsPointer (shift_down r i p) j o
unfolding shift_down
shift_down_moves zero i p j o long low high fits k = absurd (omega (arith, low, high))
shift_down_moves (suc r) i p j o long low high fits k =
    let n = get_cell_pointer (i + 1) p in
    let p' = set_cell_pointer i n p in
    elim (Bool-cases (j == i)) [
      | inl t ↦
          let e : i ≡ j = ground arith in
          let value : n ≡ o =
            ap (λ q. get_cell_pointer (q + 1) p) e
            ∙ get_le-Holds 2 o (pointer_at (j + 1)) p.bytes fits k in
          let put : IsPointer p' j o =
            rw (← e) (rw value (Holds-put_le 2 (pointer_at i) o p.bytes (omega (arith, long)))) in
          shift_down_keep r (i + 1) p' (pointer_at j) (le_bytes 2 o)
            (inl (omega (arith, e, length-le_bytes 2 o))) put
      | inr f ↦
          let less : i < j = ground arith in
          shift_down_moves r (i + 1) p' j o
            (omega (arith, long, length-copy_at (pointer_at i) (le_bytes 2 n) p.bytes))
            (omega (arith, less)) (omega (arith, high)) fits
            (IsPointer-keep p i n (j + 1) o (inr (omega (arith, less))) k)
    ]
