-- ===== src/Cluster/AntiEntropy/Merkle.antt =====
-- internal/cluster/antientropy.go: the Merkle tree has the items in order, in small leaves.
use hedgehog_db_opus.Base.{
  ℕ, zero, suc, ◌+◌, ◌-◌, ◌/◌, ◌≤◌, ◌<◌, ◌≡◌, refl, ap, sym, ◌∙◌, arith, inl, inr,
}
use hedgehog_db_opus.Base.{some, String, List, [], ◌∷◌, ◌++◌, map, length, take, drop}
use hedgehog_db_opus.Base.{ltb, Bool-cases, length-take, take_all, nat_keys}
use hedgehog_db_opus.Cluster.AntiEntropy.{
  Digest, MerkleKv, MerkleNode, segment, key_at, node_hash, leaf_bytes, build_merkle,
  build_merkle_tree,
}
use hedgehog_db_opus.Cluster.AntiEntropy.MerkleNode.{leaf, node}

-- The keys of the leaves, from left to right.
unfoldable pub leaf_keys : MerkleNode → List String
leaf_keys (leaf h r keys) = keys
leaf_keys (node h r left right) = leaf_keys left ++ leaf_keys right

-- No leaf has more than 16 keys.
unfoldable pub IsSmall : MerkleNode → Type 0
IsSmall (leaf h r keys) = length keys ≤ 16
IsSmall (node h r left right) = IsSmall left × IsSmall right

take_nil : {A : Type 0} → (n : ℕ) → take {A = A} n [] ≡ []
take_nil zero = refl
take_nil (suc n) = refl

drop_nil : {A : Type 0} → (n : ℕ) → drop {A = A} n [] ≡ []
drop_nil zero = refl
drop_nil (suc n) = refl

take_split :
    {A : Type 0} → (a b : ℕ) (xs : List A) → take (a + b) xs ≡ take a xs ++ take b (drop a xs)
take_split zero b xs = let e : 0 + b ≡ b = omega arith in rw e refl
take_split (suc a) b [] = take_nil (suc a + b) ∙ sym (take_nil b)
take_split (suc a) b (x ∷ xs) =
    let e : suc a + b ≡ suc (a + b) = omega arith in rw e (ap (λ t. x ∷ t) (take_split a b xs))

drop-drop : {A : Type 0} → (a b : ℕ) (xs : List A) → drop b (drop a xs) ≡ drop (a + b) xs
drop-drop zero b xs = let e : 0 + b ≡ b = omega arith in rw e refl
drop-drop (suc a) b [] = drop_nil b ∙ sym (drop_nil (suc a + b))
drop-drop (suc a) b (x ∷ xs) =
    let e : suc a + b ≡ suc (a + b) = omega arith in rw e (drop-drop a b xs)

-- A segment is the segment up to its middle and the one after it.
segment_split :
    (items : List MerkleKv) (lo mid hi : ℕ)
    → lo ≤ mid
    → mid ≤ hi
    → segment items lo mid ++ segment items (mid + 1) hi ≡ segment items lo hi
segment_split items lo mid hi low high =
    let total : mid + 1 - lo + (hi + 1 - (mid + 1)) ≡ hi + 1 - lo = omega (arith, low, high) in
    let place : lo + (mid + 1 - lo) ≡ mid + 1 = omega (arith, low) in
    ap (λ d. take (mid + 1 - lo) (drop lo items) ++ take (hi + 1 - (mid + 1)) d)
      (sym (drop-drop lo (mid + 1 - lo) items ∙ ap (λ n. drop n items) place))
    ∙ sym (take_split (mid + 1 - lo) (hi + 1 - (mid + 1)) (drop lo items))
    ∙ ap (λ n. take n (drop lo items)) total

map_append : {A B : Type 0} → (f : A → B) (xs ys : List A) → map f (xs ++ ys) ≡ map f xs ++ map f ys
map_append f [] ys = refl
map_append f (x ∷ xs) ys = ap (λ t. f x ∷ t) (map_append f xs ys)

length-map : {A B : Type 0} → (f : A → B) (xs : List A) → length (map f xs) ≡ length xs
length-map f [] = refl
length-map f (x ∷ xs) = ap suc (length-map f xs)

abbrev keys_of : List MerkleKv → List String
keys_of items = map (λ (e : MerkleKv). e.key) items

module _ (d : Digest) where
  -- With more fuel than there are items the tree of a segment is built. Its leaves have the keys of
  -- the segment in order, at most 16 each.
  build_merkle-segment :
      (fuel : ℕ) (items : List MerkleKv) (lo hi : ℕ)
      → lo ≤ hi
      → hi - lo < fuel
      → (t : MerkleNode) × (build_merkle d fuel items lo hi ≡ some t)
        × (leaf_keys t ≡ keys_of (segment items lo hi))
        × IsSmall t
  unfolding build_merkle leaf_keys IsSmall
  build_merkle-segment zero items lo hi le h = absurd (omega (arith, h))
  build_merkle-segment (suc fuel) items lo hi le h = elim (Bool-cases (ltb (hi - lo) 16)) [
    | inl t ↦
        let few : hi - lo < 16 = ground arith in
        (
          leaf (d.digest (leaf_bytes d (segment items lo hi))) (key_at items lo, key_at items hi)
              (keys_of (segment items lo hi)),
          rw (build_merkle, t) refl,
          refl,
          omega (
            arith,
            few,
            length-map (λ (e : MerkleKv). e.key) (segment items lo hi),
            length-take (hi + 1 - lo) (drop lo items),
          ),
        )
    | inr f ↦
        let many : 16 ≤ hi - lo = ground arith in
        let mid = (lo + hi) / 2 in
        let low : lo ≤ mid = omega (arith, many) in
        let high : mid < hi = omega (arith, many) in
        let (left, built, keys, small) =
          build_merkle-segment fuel items lo mid low (omega (arith, h, high)) in
        let (right, built', keys', small') =
          build_merkle-segment fuel items (mid + 1) hi (omega (arith, high))
            (omega (arith, h, low, high)) in
        (
          node (d.digest (d.bytes_of (node_hash left) ++ d.bytes_of (node_hash right)))
              (key_at items lo, key_at items hi) left right,
          rw (build_merkle, f, built, built') refl,
          rw (keys, keys')
              (sym (
                  map_append (λ (e : MerkleKv). e.key) (segment items lo mid)
                    (segment items (mid + 1) hi))
                ∙ ap keys_of (segment_split items lo mid hi low (omega (arith, high)))),
          (small, small'),
        )
  ]

  -- BuildMerkleTree ends for every list of items. The leaves of the tree have the keys of the items in
  -- order, and no leaf has more than 16 keys.
  pub build_merkle_tree-leaf_keys :
      (items : List MerkleKv)
      → (t : MerkleNode) × (build_merkle_tree d items ≡ some t)
        × (leaf_keys t ≡ keys_of items)
        × IsSmall t
  unfolding build_merkle_tree leaf_keys IsSmall
  build_merkle_tree-leaf_keys [] = (leaf (d.digest []) ("", "") [], refl, refl, omega arith)
  build_merkle_tree-leaf_keys (e ∷ items) =
      let all = e ∷ items in
      let (t, built, keys, small) =
        build_merkle-segment (length all) all 0 (length all - 1) (omega arith) (omega arith) in
      (t, built, keys ∙ ap keys_of (take_all (length all - 1 + 1 - 0) all (omega arith)), small)
