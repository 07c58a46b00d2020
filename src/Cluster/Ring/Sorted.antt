-- ===== src/Cluster/Ring/Sorted.antt =====
-- ring.go: the index that `sort.Search` finds in virtual nodes in order of their hashes.
use hedgehog_db_opus.Base.{ℕ, zero, suc, ◌≤◌, ◌<◌, ◌≡◌, refl, ◌∙◌, inl, inr, arith}
use hedgehog_db_opus.Base.{true, Option, none, some, List, [], ◌∷◌, leb, nat_keys}
use hedgehog_db_opus.Base.{◌==◌, if◌then◌else◌, length, get_elem?, All, Bool-cases}
use hedgehog_db_opus.Base.Search.{
  first_true, IsFirst, IsMonotone, first_true-IsFirst, IsFirst-unique,
}
use hedgehog_db_opus.Cluster.Ring.{VNode, IsSorted, at_least, start_index}

-- The number of virtual nodes before the first whose hash is at least `h`.
unfoldable pub first_index : ℕ → List VNode → ℕ
first_index h [] = 0
first_index h (v ∷ l) = if leb h v.hash then 0 else suc (first_index h l)

-- The first virtual node whose hash is at least `h`.
unfoldable pub first_from : ℕ → List VNode → Option VNode
first_from h [] = none
first_from h (v ∷ l) = if leb h v.hash then some v else first_from h l

All-get_elem? :
    (l : List VNode) (a h j : ℕ)
    → h ≤ a
    → All (λ w. a ≤ w.hash) l
    → j < length l
    → at_least l h j ≡ true
unfolding at_least
All-get_elem? [] a h j k q lt = absurd (omega arith)
All-get_elem? (v ∷ l) a h zero k q lt = let b = q.0 in ground arith
All-get_elem? (v ∷ l) a h (suc j) k q lt = All-get_elem? l a h j k q.1 (omega arith)

at_least-IsMonotone : (h : ℕ) (l : List VNode) → IsSorted l → IsMonotone (length l) (at_least l h)
unfolding at_least
at_least-IsMonotone h [] s i j le lt t = absurd (omega arith)
at_least-IsMonotone h (v ∷ l) s (suc i) (suc j) le lt t =
    at_least-IsMonotone h l s.1 i j (omega arith) (omega arith) t
at_least-IsMonotone h (v ∷ l) s zero (suc j) le lt t =
    All-get_elem? l v.hash h j (ground arith) s.0 (omega arith)
at_least-IsMonotone h (v ∷ l) s zero zero le lt t = t
at_least-IsMonotone h (v ∷ l) s (suc i) zero le lt t = absurd (omega arith)

first_index-IsFirst : (h : ℕ) (l : List VNode) → IsFirst (length l) (at_least l h) (first_index h l)
unfolding at_least first_index
first_index-IsFirst h [] = record {
  bounded = omega arith;
  below = λ j lt. absurd (omega arith);
  holds = λ lt. absurd (omega arith);
}
first_index-IsFirst h (v ∷ l) =
    let ih = first_index-IsFirst h l in
    elim (Bool-cases (leb h v.hash)) [
      | inl t ↦
          rw t (record {
            bounded = omega arith;
            below = λ j lt. absurd (omega arith);
            holds = λ lt. t;
          })
      | inr f ↦ rw f (record {
        bounded = omega (arith, ih.bounded);
        below = elim [ zero ↦ λ lt. f | suc j ↦ λ lt. ih.below j (omega arith) ];
        holds = λ lt. ih.holds (omega arith);
      })
    ]

-- The binary search finds the first virtual node that is at or after the hash.
search-first_index :
    (h : ℕ) (l : List VNode) → IsSorted l → first_true (length l) (at_least l h) ≡ first_index h l
search-first_index h l s =
    IsFirst-unique (length l) (at_least l h) _ _
      (first_true-IsFirst (length l) (at_least l h) (at_least-IsMonotone h l s))
      (first_index-IsFirst h l)

get_elem?-first_index : (h : ℕ) (l : List VNode) → get_elem? l (first_index h l) ≡ first_from h l
unfolding first_index first_from
get_elem?-first_index h [] = refl
get_elem?-first_index h (v ∷ l) = elim (Bool-cases (leb h v.hash)) [
  | inl t ↦ rw t
  | inr f ↦ rw f (get_elem?-first_index h l)
]

first_index_end : (h : ℕ) (l : List VNode) → first_index h l ≡ length l → first_from h l ≡ none
unfolding first_index first_from
first_index_end h [] e = refl
first_index_end h (v ∷ l) e = ground (arith, first_index_end h l)

first_index_inside :
    (h : ℕ) (l : List VNode) → first_index h l < length l → (v : VNode) × (first_from h l ≡ some v)
unfolding first_index first_from
first_index_inside h [] lt = absurd (omega arith)
first_index_inside h (v ∷ l) lt = elim (Bool-cases (leb h v.hash)) [
  | inl t ↦ rw t (v, refl)
  | inr f ↦ rw f (first_index_inside h l (ground arith))
]

-- The owner of a hash: the first virtual node at or after it, and after the last the first of all.
unfoldable pub owner : ℕ → List VNode → Option VNode
owner h [] = none
owner h (v ∷ l) = elim (first_from h (v ∷ l)) [ none ↦ some v | some w ↦ some w ]

-- The index at which `GetNode` and `GetNodes` start is in range, and the owner stands there.
pub start_index-owner :
    (h : ℕ) (v : VNode) (l : List VNode)
    → IsSorted (v ∷ l)
    → (start_index (v ∷ l) h < length (v ∷ l))
      × (get_elem? (v ∷ l) (start_index (v ∷ l) h) ≡ owner h (v ∷ l))
unfolding start_index owner
start_index-owner h v l s =
    let e = search-first_index h (v ∷ l) s in
    let b = (first_index-IsFirst h (v ∷ l)).bounded in
    elim (Bool-cases (first_index h (v ∷ l) == length (v ∷ l))) [
      | inl t ↦ rw (e, t, first_index_end h (v ∷ l) (ground arith), owner) (omega arith, refl)
      | inr f ↦
          let in_range : first_index h (v ∷ l) < length (v ∷ l) = ground arith in
          let (w, found) = first_index_inside h (v ∷ l) in_range in
          rw (e, f, found, owner) (in_range, get_elem?-first_index h (v ∷ l) ∙ found)
    ]
