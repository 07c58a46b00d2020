-- ===== src/Cluster/Ring/Preference.antt =====
-- ring.go: what a caller of `GetNodes` may rely on.
use native.Mathlib.Nat.{mod-eq_of_lt}
use mathlib.Core.Path.{subst}
use hedgehog_db_opus.Base.{ℕ, ◌+◌, ◌%◌, ◌≤◌, ◌<◌, ◌≡◌, refl, ◌∙◌, sym, ap, ◌⊎◌, inl, inr, arith}
use hedgehog_db_opus.Base.{true, false, ◌||◌, some, List, [], ◌∷◌, ◌++◌, String}
use hedgehog_db_opus.Base.{string_keys, nat_keys, ltb, ◌==◌, if◌then◌else◌, length, get_elem?, All}
use hedgehog_db_opus.Base.{
  take, drop, Bool-cases, Option-cases, ==_iff, length-append, take-append-drop,
}
use hedgehog_db_opus.Base.{All-append}
use hedgehog_db_opus.Cluster.Ring.{
  VNode, Ring, Library, IsSorted, get_node, get_nodes, node_at, nodes_at, start_index,
}
use hedgehog_db_opus.Cluster.Ring.Sorted.{owner, start_index-owner}
use hedgehog_db_opus.Cluster.Ring.Owner.{owner_name, owner-ne-none, node_at-owner}
use hedgehog_db_opus.Cluster.Ring.Replicas.{
  contains, contains-append, pick, rotate, nodes_at-pick, get_elem?-rotate,
}

abbrev pub IsDistinct : List String → Type 0
IsDistinct [] = Unit
IsDistinct (a ∷ l) = (contains a l ≡ false) × IsDistinct l

abbrev HasNode : List String → VNode → Type 0
HasNode result v = contains v.node_id result ≡ true

abbrev InRing : List VNode → String → Type 0
InRing [] a = ⊥
InRing (v ∷ l) a = (v.node_id ≡ a) ⊎ InRing l a

IsDistinct-append :
    (l : List String) (b : String)
    → IsDistinct l
    → contains b l ≡ false
    → IsDistinct (l ++ (b ∷ []))
unfolding contains
IsDistinct-append [] b d n = (refl, tt)
IsDistinct-append (a ∷ l) b d n = (
  ground (arith, contains-append a b l, d.0, ==_iff a b, ==_iff b a),
  IsDistinct-append l b d.1 (ground arith),
)

grown : String → List String → List String
grown b result = if contains b result then result else result ++ (b ∷ [])

grown-IsDistinct : (b : String) (l : List String) → IsDistinct l → IsDistinct (grown b l)
unfolding grown
grown-IsDistinct b l d = elim (Bool-cases (contains b l)) [
  | inl t ↦ rw t d
  | inr f ↦ rw f (IsDistinct-append l b d f)
]

pick-IsDistinct :
    (w : List VNode) (n : ℕ) (r : List String) → IsDistinct r → IsDistinct (pick w n r)
unfolding pick grown
pick-IsDistinct [] n r d = d
pick-IsDistinct (v ∷ w) n r d = elim (Bool-cases (ltb (length r) n)) [
  | inl t ↦ rw t (pick-IsDistinct w n (grown v.node_id r) (grown-IsDistinct v.node_id r d))
  | inr f ↦ rw f d
]

length-grown-le : (b : String) (r : List String) → length (grown b r) ≤ length r + 1
unfolding grown
length-grown-le b r = ground (arith, length-append r (b ∷ []))

length-pick-le : (w : List VNode) (n : ℕ) (r : List String) → length r ≤ n → length (pick w n r) ≤ n
unfolding pick grown
length-pick-le [] n r h = h
length-pick-le (v ∷ w) n r h = elim (Bool-cases (ltb (length r) n)) [
  | inl t ↦
      rw t (length-pick-le w n (grown v.node_id r) (ground (arith, length-grown-le v.node_id r)))
  | inr f ↦ rw f h
]

contains-grown :
    (a b : String) (r : List String) → contains a (grown b r) ≡ (contains a r || (b == a))
unfolding grown
contains-grown a b r = ground (arith, contains-append a b r, ==_iff b a)

contains-pick :
    (a : String) (w : List VNode) (n : ℕ) (r : List String)
    → contains a r ≡ true
    → contains a (pick w n r) ≡ true
unfolding pick grown
contains-pick a [] n r h = h
contains-pick a (v ∷ w) n r h = elim (Bool-cases (ltb (length r) n)) [
  | inl t ↦
      rw t (contains-pick a w n (grown v.node_id r) (ground (arith, contains-grown a v.node_id r)))
  | inr f ↦ rw f h
]

pick_more :
    (v : VNode) (w : List VNode) (n : ℕ) (r : List String)
    → ltb (length r) n ≡ true
    → pick (v ∷ w) n r ≡ pick w n (grown v.node_id r)
unfolding pick grown
pick_more v w n r t = rw t

pick_done :
    (v : VNode) (w : List VNode) (n : ℕ) (r : List String)
    → ltb (length r) n ≡ false
    → pick (v ∷ w) n r ≡ r
unfolding pick
pick_done v w n r f = rw f

pick_complete :
    (w : List VNode) (n : ℕ) (r : List String)
    → length (pick w n r) < n
    → All (HasNode (pick w n r)) w
pick_complete [] n r h = tt
pick_complete (v ∷ w) n r h = elim (Bool-cases (ltb (length r) n)) [
  | inl t ↦
      let more = pick_more v w n r t in
      subst (λ (q : List String). All (HasNode q) (v ∷ w)) (sym more)
        (
          contains-pick v.node_id w n (grown v.node_id r)
              (ground (arith, contains-grown v.node_id v.node_id r, ==_iff v.node_id v.node_id)),
          pick_complete w n (grown v.node_id r) (rw more at h),
        )
  | inr f ↦ absurd (ground (arith, pick_done v w n r f))
]

head_of_append :
    (r : List String) (b a : String) → get_elem? r 0 ≡ some a → get_elem? (r ++ (b ∷ [])) 0 ≡ some a
head_of_append [] b a h = absurd (cc)
head_of_append (x ∷ r) b a h = h

pick_head :
    (w : List VNode) (n : ℕ) (r : List String) (a : String)
    → get_elem? r 0 ≡ some a
    → get_elem? (pick w n r) 0 ≡ some a
unfolding pick
pick_head [] n r a h = h
pick_head (v ∷ w) n r a h = ground (
  arith,
  pick_head w n r a,
  pick_head w n (r ++ (v.node_id ∷ [])) a,
  head_of_append r v.node_id a,
)

pick_primary :
    (w : List VNode) (n : ℕ) (v : VNode)
    → get_elem? w 0 ≡ some v
    → 0 < n
    → get_elem? (pick w n []) 0 ≡ some v.node_id
unfolding pick contains
pick_primary [] n v h lt = absurd (cc)
pick_primary (x ∷ w) n v h lt = ground (arith, pick_head w n (x.node_id ∷ []) x.node_id)

module _ (l : List VNode) where
  pick_members :
      (w : List VNode) (n : ℕ) (r : List String)
      → All (InRing l) r
      → All (λ v. InRing l v.node_id) w
      → All (InRing l) (pick w n r)
  unfolding pick
  pick_members [] n r h k = h
  pick_members (v ∷ w) n r h k = elim (Bool-cases (ltb (length r) n)) [
    | inl t ↦ rw t (elim (Bool-cases (contains v.node_id r)) [
      | inl u ↦ rw u (pick_members w n r h k.1)
      | inr u ↦ rw u (
          pick_members w n (r ++ (v.node_id ∷ []))
            (All-append (InRing l) r (v.node_id ∷ []) h (k.0, tt)) k.1)
    ])
    | inr f ↦ rw f h
  ]

  All-InRing :
      (part : List VNode)
      → ((a : String) → InRing part a → InRing l a)
      → All (λ v. InRing l v.node_id) part
  All-InRing [] f = tt
  All-InRing (v ∷ part) f = (f v.node_id (inl refl), All-InRing part (λ a h. f a (inr h)))

All-left : (P : VNode → Type 0) (xs ys : List VNode) → All P (xs ++ ys) → All P xs
All-left P [] ys h = tt
All-left P (x ∷ xs) ys h = (h.0, All-left P xs ys h.1)

All-right : (P : VNode → Type 0) (xs ys : List VNode) → All P (xs ++ ys) → All P ys
All-right P [] ys h = h
All-right P (x ∷ xs) ys h = All-right P xs ys h.1

All-rotate : (P : VNode → Type 0) (idx : ℕ) (l : List VNode) → All P l → All P (rotate idx l)
All-rotate P idx l h =
    let k : All P (take idx l ++ drop idx l) = rw (take-append-drop idx l) h in
    All-append P (drop idx l) (take idx l) (All-right P (take idx l) (drop idx l) k)
      (All-left P (take idx l) (drop idx l) k)

All-of_rotate : (P : VNode → Type 0) (idx : ℕ) (l : List VNode) → All P (rotate idx l) → All P l
All-of_rotate P idx l h = rw (take-append-drop idx l) at (
    All-append P (take idx l) (drop idx l) (All-right P (drop idx l) (take idx l) h)
      (All-left P (drop idx l) (take idx l) h))

walk_head :
    (v : VNode) (l : List VNode) (start : ℕ)
    → start < length (v ∷ l)
    → get_elem? (rotate start (v ∷ l)) 0 ≡ get_elem? (v ∷ l) start
walk_head v l start h =
    let same : (start + 0) % length (v ∷ l) ≡ start = grind (arith, mod-eq_of_lt) in
    sym (get_elem?-rotate (v ∷ l) start 0 h (omega arith))
    ∙ ap (λ (i : ℕ). get_elem? (v ∷ l) i) same

-- A preference list of at most `n` nodes for a hash, over the virtual nodes `l`.
pub record IsPreferenceList (l : List VNode) (h n : ℕ) (result : List String) : Type 0 where
  pub distinct : IsDistinct result
  pub bounded : length result ≤ n
  pub members : All (InRing l) result
  pub complete : (length result ≡ n) ⊎ All (HasNode result) l
  pub primary : get_elem? result 0 ≡ some (owner_name (owner h l))

nodes_at-IsPreferenceList :
    (v : VNode) (l : List VNode) (h n : ℕ)
    → IsSorted (v ∷ l)
    → 0 < n
    → IsPreferenceList (v ∷ l) h n (pick (rotate (start_index (v ∷ l) h) (v ∷ l)) n [])
nodes_at-IsPreferenceList v l h n s pos =
    let start = start_index (v ∷ l) h in
    let walk = rotate start (v ∷ l) in
    let (inside, at) = start_index-owner h v l s in
    record {
      distinct = pick-IsDistinct walk n [] tt;
      bounded = length-pick-le walk n [] (omega arith);
      members = pick_members (v ∷ l) walk n [] tt (
          All-rotate (λ w. InRing (v ∷ l) w.node_id) start (v ∷ l)
            (All-InRing (v ∷ l) (v ∷ l) (λ a q. q)));
      complete = elim (Bool-cases (ltb (length (pick walk n [])) n)) [
        | inl short ↦ inr (
            All-of_rotate (HasNode (pick walk n [])) start (v ∷ l)
              (pick_complete walk n [] (ground arith)))
        | inr full ↦ let most = length-pick-le walk n [] (omega arith) in inl (ground arith)
      ];
      primary = elim (Option-cases (owner h (v ∷ l))) [
        | inl none_left ↦ absurd (owner-ne-none h v l none_left)
        | inr (w, e) ↦
            let first : get_elem? walk 0 ≡ some w = walk_head v l start inside ∙ at ∙ e in
            rw (pick_primary walk n w first pos, e)
      ];
    }

-- On a ring with virtual nodes, in order of their hashes, `GetNodes` for a positive `n` returns nodes
-- of the ring without repetition, `n` of them or else every node of the ring, and first the node
-- that `GetNode` returns.
pub get_nodes-IsPreferenceList :
    (lib : Library) (key : String) (n : ℕ) (r : Ring)
    → IsSorted r.vnodes
    → 0 < length r.vnodes
    → 0 < n
    → (result : List String) × (get_nodes lib key n r ≡ some result)
      × IsPreferenceList r.vnodes (lib.hash_key key) n result
      × (get_node lib key r ≡ get_elem? result 0)
unfolding get_nodes get_node
get_nodes-IsPreferenceList lib key n r s full pos = go r.vnodes s full
  where
    go :
        (l : List VNode)
        → IsSorted l
        → 0 < length l
        → (result : List String) × (nodes_at l (lib.hash_key key) n ≡ some result)
          × IsPreferenceList l (lib.hash_key key) n result
          × (node_at l (lib.hash_key key) ≡ get_elem? result 0)
    go [] q lt = absurd (omega arith)
    go (v ∷ l) q lt =
        let good = nodes_at-IsPreferenceList v l (lib.hash_key key) n q pos in
        (
          pick (rotate (start_index (v ∷ l) (lib.hash_key key)) (v ∷ l)) n [],
          nodes_at-pick v l (lib.hash_key key) n q,
          good,
          node_at-owner (v ∷ l) (lib.hash_key key) q ∙ sym good.primary,
        )
