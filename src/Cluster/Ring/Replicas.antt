-- ===== src/Cluster/Ring/Replicas.antt =====
-- ring.go: `GetNodes` collects distinct nodes in the order of the walk round the ring.
use native.Mathlib.Nat.{mod-eq_of_lt, mod-eq-sub-mod}
use hedgehog_db_opus.Base.{
  ℕ, zero, suc, ◌+◌, ◌-◌, ◌%◌, ◌≤◌, ◌<◌, ◌≡◌, refl, ◌∙◌, sym, ap, inl, inr, arith,
}
use hedgehog_db_opus.Base.{Bool, true, false, not, ◌||◌, some, List, [], ◌∷◌, ◌++◌, String}
use hedgehog_db_opus.Base.{string_keys, nat_keys, ltb, ◌==◌, if◌then◌else◌, length, get_elem?}
use hedgehog_db_opus.Base.{take, drop, Bool-cases, length-append, length-drop, length-take}
use hedgehog_db_opus.Base.GoMap.{GoMap, lookup, read, insert, lookup-insert}
use hedgehog_db_opus.Cluster.Ring.{VNode, IsSorted, get_nodes_loop, nodes_at, start_index}
use hedgehog_db_opus.Cluster.Ring.Sorted.{start_index-owner}

unfoldable pub contains : String → List String → Bool
contains a [] = false
contains a (x ∷ xs) = (x == a) || contains a xs

-- The walk round the ring from an index.
abbrev pub rotate : ℕ → List VNode → List VNode
rotate idx l = drop idx l ++ take idx l

-- The first `n` distinct nodes of a walk, after those found so far.
unfoldable pub pick : List VNode → ℕ → List String → List String
pick [] n result = result
pick (v ∷ walk) n result =
    let rest =
      pick walk n (if contains v.node_id result then result else result ++ (v.node_id ∷ [])) in
    if ltb (length result) n then rest else result

pub contains-append :
    (a b : String) (xs : List String) → contains a (xs ++ (b ∷ [])) ≡ (contains a xs || (b == a))
unfolding contains
contains-append a b [] = ground arith
contains-append a b (x ∷ xs) = ground (arith, contains-append a b xs)

get_elem?-append_left :
    (xs ys : List VNode) (i : ℕ) → i < length xs → get_elem? (xs ++ ys) i ≡ get_elem? xs i
get_elem?-append_left [] ys i h = absurd (omega arith)
get_elem?-append_left (x ∷ xs) ys zero h = refl
get_elem?-append_left (x ∷ xs) ys (suc i) h = get_elem?-append_left xs ys i (omega arith)

get_elem?-append_right :
    (xs ys : List VNode) (i j : ℕ) → j ≡ length xs + i → get_elem? (xs ++ ys) j ≡ get_elem? ys i
get_elem?-append_right [] ys i j e = rw (let p : j ≡ i = omega arith in p)
get_elem?-append_right (x ∷ xs) ys i zero e = absurd (omega arith)
get_elem?-append_right (x ∷ xs) ys i (suc j) e = get_elem?-append_right xs ys i j (omega arith)

get_elem?-suc :
    (x : VNode) (xs : List VNode) (i j : ℕ) → i ≡ suc j → get_elem? (x ∷ xs) i ≡ get_elem? xs j
get_elem?-suc x xs zero j e = absurd (omega arith)
get_elem?-suc x xs (suc i) j e = rw (let p : i ≡ j = omega arith in p)

get_elem?-drop : (k i : ℕ) (xs : List VNode) → get_elem? (drop k xs) i ≡ get_elem? xs (k + i)
get_elem?-drop zero i xs = rw (let p : 0 + i ≡ i = omega arith in p)
get_elem?-drop (suc k) i [] = refl
get_elem?-drop (suc k) i (x ∷ xs) =
    get_elem?-drop k i xs ∙ sym (get_elem?-suc x xs (suc k + i) (k + i) (omega arith))

get_elem?-take : (k i : ℕ) (xs : List VNode) → i < k → get_elem? (take k xs) i ≡ get_elem? xs i
get_elem?-take zero i xs h = absurd (omega arith)
get_elem?-take (suc k) i [] h = refl
get_elem?-take (suc k) zero (x ∷ xs) h = refl
get_elem?-take (suc k) (suc i) (x ∷ xs) h = get_elem?-take k i xs (omega arith)

-- The indices `(idx+i) % len` walk round the ring.
pub get_elem?-rotate :
    (l : List VNode) (idx i : ℕ)
    → idx < length l
    → i < length l
    → get_elem? l ((idx + i) % length l) ≡ get_elem? (rotate idx l) i
get_elem?-rotate l idx i h k = elim (Bool-cases (ltb (idx + i) (length l))) [
  | inl t ↦
      let inside : idx + i < length l = ground arith in
      rw (mod-eq_of_lt inside) (
        sym (
          get_elem?-append_left (drop idx l) (take idx l) i (omega (arith, length-drop idx l))
          ∙ get_elem?-drop idx i l))
  | inr f ↦
      let past : length l ≤ idx + i = ground arith in
      let e : (idx + i) % length l ≡ idx + i - length l =
        grind (arith, mod-eq_of_lt, mod-eq-sub-mod) in
      rw e (
        sym (
          get_elem?-append_right (drop idx l) (take idx l) (idx + i - length l) i
            (omega (arith, length-drop idx l))
          ∙ get_elem?-take idx (idx + i - length l) l (omega arith)))
]

-- One round of the loop takes one virtual node off the walk.
drop_step :
    (i : ℕ) (walk : List VNode) (v : VNode)
    → get_elem? walk i ≡ some v
    → drop i walk ≡ v ∷ drop (suc i) walk
drop_step i [] v e = absurd (cc)
drop_step zero (x ∷ walk) v e = ground arith
drop_step (suc i) (x ∷ walk) v e = drop_step i walk v e

next_drop : (i : ℕ) (walk : List VNode) → drop (i + 1) walk ≡ drop (suc i) walk
next_drop i walk = let p : i + 1 ≡ suc i = omega arith in ap (λ (k : ℕ). drop k walk) p

drop_end : (i : ℕ) (walk : List VNode) → length walk ≤ i → drop i walk ≡ []
drop_end zero [] h = refl
drop_end (suc i) [] h = refl
drop_end zero (x ∷ walk) h = absurd (omega arith)
drop_end (suc i) (x ∷ walk) h = drop_end i walk (omega arith)

length-rotate : (idx : ℕ) (l : List VNode) → length (rotate idx l) ≡ length l
length-rotate idx l =
    omega (arith, length-append (drop idx l) (take idx l), length-drop idx l, length-take idx l)

get_elem?_inside :
    (i : ℕ) (walk : List VNode) → i < length walk → (v : VNode) × (get_elem? walk i ≡ some v)
get_elem?_inside i [] h = absurd (omega arith)
get_elem?_inside zero (x ∷ walk) h = (x, refl)
get_elem?_inside (suc i) (x ∷ walk) h = get_elem?_inside i walk (omega arith)

abbrev Tracks : GoMap String Bool → List String → Type 0
Tracks seen result = (a : String) → read false a seen ≡ contains a result

Tracks-step :
    (seen : GoMap String Bool) (result : List String) (b : String)
    → Tracks seen result
    → Tracks
        (if not (read false b seen) then insert b true seen else seen)
        (if contains b result then result else result ++ (b ∷ []))
Tracks-step seen result b t a =
    ground (arith, t a, t b, lookup-insert b a true seen, contains-append a b result)

get_nodes_loop-pick :
    (l : List VNode) (idx n : ℕ)
    → idx < length l
    → (rounds i : ℕ) (seen : GoMap String Bool) (result : List String) → rounds + i ≡ length l
    → Tracks seen result
    → get_nodes_loop rounds l idx i n seen result ≡ some (pick (drop i (rotate idx l)) n result)
unfolding get_nodes_loop pick
get_nodes_loop-pick l idx n h zero i seen result e t =
    rw (drop_end i (rotate idx l) (omega (arith, length-rotate idx l))) refl
get_nodes_loop-pick l idx n h (suc rounds) i seen result e t =
    let (v, at) = get_elem?_inside i (rotate idx l) (omega (arith, length-rotate idx l)) in
    let same = get_elem?-rotate l idx i h (omega arith) ∙ at in
    let ih =
      get_nodes_loop-pick l idx n h rounds (i + 1)
        (if not (read false v.node_id seen) then insert v.node_id true seen else seen)
        (if contains v.node_id result then result else result ++ (v.node_id ∷ [])) (omega arith)
        (Tracks-step seen result v.node_id t) in
    rw (drop_step i (rotate idx l) v at)
      (ground (arith, same, ih, t v.node_id, next_drop i (rotate idx l)))

-- `GetNodes` never panics: it picks the first `n` distinct nodes of the walk from the start index.
pub nodes_at-pick :
    (v : VNode) (l : List VNode) (h n : ℕ)
    → IsSorted (v ∷ l)
    → nodes_at (v ∷ l) h n ≡ some (pick (rotate (start_index (v ∷ l) h) (v ∷ l)) n [])
unfolding nodes_at
nodes_at-pick v l h n s =
    let (inside, _) = start_index-owner h v l s in
    let walk =
      get_nodes_loop-pick (v ∷ l) (start_index (v ∷ l) h) n inside (length (v ∷ l)) 0 [] []
        (omega arith) (λ a. unfold contains lookup in refl) in
    ground (arith, walk)
