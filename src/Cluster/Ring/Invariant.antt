-- ===== src/Cluster/Ring/Invariant.antt =====
-- ring.go: what `NewRing`, `AddNode` and `RemoveNode` keep: the virtual nodes stand in order of their
-- hashes, and each physical node, and no other, has `vnodeCount` of them.
use mathlib.Core.List.{Perm, Permᴰ}
use mathlib.Core.Logic.{∥∥₁_elim}
use native.Mathlib.Nat.{ℕ_set}
use hedgehog_db_opus.Base.{ℕ, zero, suc, ◌+◌, ◌≡◌, ◌≢◌, refl, ap, ◌∙◌, inl, inr, arith}
use hedgehog_db_opus.Base.{true, false, some, List, [], ◌∷◌, ◌++◌, String}
use hedgehog_db_opus.Base.{
  string_keys, nat_keys, ◌==◌, if◌then◌else◌, Bool-cases, Option-cases, ==_iff,
}
use hedgehog_db_opus.Base.GoMap.{lookup, lookup-insert, lookup-delete}
use hedgehog_db_opus.Cluster.Ring.{
  VNode, Ring, Library, IsSorted, has_node, new_ring, without_node, vnodes_from, add_node,
  remove_node, get_node,
}
use hedgehog_db_opus.Cluster.Ring.Owner.{without_node-IsSorted, get_node-owner}
use hedgehog_db_opus.Cluster.Ring.Sorted.{first_from, owner}

-- How many virtual nodes a node has.
unfoldable pub vnodes_of : String → List VNode → ℕ
vnodes_of id [] = 0
vnodes_of id (v ∷ l) = if v.node_id == id then suc (vnodes_of id l) else vnodes_of id l

pub record IsBalanced (r : Ring) : Type 0 where
  pub sorted : IsSorted r.vnodes
  pub counted : (id : String) → vnodes_of id r.vnodes ≡ (if has_node r id then r.vnode_count else 0)

vnodes_of-append :
    (id : String) (xs ys : List VNode) → vnodes_of id (xs ++ ys) ≡ vnodes_of id xs + vnodes_of id ys
unfolding vnodes_of
vnodes_of-append id [] ys = omega arith
vnodes_of-append id (v ∷ xs) ys = ground (arith, vnodes_of-append id xs ys)

vnodes_of-without_node :
    (id gone : String) (l : List VNode)
    → vnodes_of id (without_node gone l) ≡ (if gone == id then 0 else vnodes_of id l)
unfolding vnodes_of without_node
vnodes_of-without_node id gone [] = ground arith
vnodes_of-without_node id gone (v ∷ l) = ground (
  arith,
  vnodes_of-without_node id gone l,
  ==_iff v.node_id id,
  ==_iff v.node_id gone,
  ==_iff gone id,
)

vnodes_of-vnodes_from :
    (lib : Library) (id j : String) (i n : ℕ)
    → vnodes_of id (vnodes_from lib j i n) ≡ (if j == id then n else 0)
unfolding vnodes_of vnodes_from
vnodes_of-vnodes_from lib id j i zero = ground arith
vnodes_of-vnodes_from lib id j i (suc n) = ground (arith, vnodes_of-vnodes_from lib id j (i + 1) n)

vnodes_of-permᴰ :
    (id : String) {xs ys : List VNode} → Permᴰ xs ys → vnodes_of id xs ≡ vnodes_of id ys
unfolding vnodes_of
vnodes_of-permᴰ id Permᴰ.nil = refl
vnodes_of-permᴰ id (Permᴰ.cons {a = a} {b = b} e p) =
    let ih = vnodes_of-permᴰ id p in rw e (ground (arith, ih))
vnodes_of-permᴰ id (Permᴰ.swap {a = a} {b = b} {a' = a'} {b' = b'} e f) = rw (e, f) (ground arith)
vnodes_of-permᴰ id (Permᴰ.trans p q) = vnodes_of-permᴰ id p ∙ vnodes_of-permᴰ id q

vnodes_of-perm : (id : String) {xs ys : List VNode} → Perm xs ys → vnodes_of id xs ≡ vnodes_of id ys
vnodes_of-perm id p = ∥∥₁_elim p (ℕ_set _ _) (vnodes_of-permᴰ id)

pub has_node-add_node :
    (lib : Library) (id j : String) (r : Ring)
    → has_node (add_node lib id r) j ≡ (if id == j then true else has_node r j)
unfolding add_node
has_node-add_node lib id j r = ground (arith, lookup-insert id j true r.physical_nodes, ==_iff id j)

pub has_node-remove_node :
    (id j : String) (r : Ring)
    → has_node (remove_node id r) j ≡ (if id == j then false else has_node r j)
unfolding remove_node
has_node-remove_node id j r = ground (arith, lookup-delete id j r.physical_nodes, ==_iff id j)

-- A new ring is empty, with 128 virtual nodes for each node if it is asked for none.
pub new_ring-IsBalanced : (n : ℕ) → IsBalanced (new_ring n)
unfolding new_ring vnodes_of lookup
new_ring-IsBalanced n = record { sorted = tt; counted = λ id. refl }

add_node_lem :
    (lib : Library) (id : String) (r : Ring) → IsBalanced r → IsBalanced (add_node lib id r)
unfolding add_node
add_node_lem lib id r b = elim (Bool-cases (has_node r id)) [
  | inl t ↦ rw (t, add_node) b
  | inr f ↦
      rw (f, add_node)
        (record {
          sorted = lib.sort-IsSorted _;
          counted = λ j.
              vnodes_of-perm j (lib.sort-perm _)
              ∙ vnodes_of-append j r.vnodes (vnodes_from lib id 0 r.vnode_count)
              ∙ ground (
                arith,
                b.counted j,
                vnodes_of-vnodes_from lib j id 0 r.vnode_count,
                ==_iff id j,
                lookup-insert id j true r.physical_nodes,
              );
        })
]

vnode_count-add_node :
    (lib : Library) (id : String) (r : Ring) → (add_node lib id r).vnode_count ≡ r.vnode_count
unfolding add_node
vnode_count-add_node lib id r = ground arith

remove_node_lem : (id : String) (r : Ring) → IsBalanced r → IsBalanced (remove_node id r)
unfolding remove_node
remove_node_lem id r b = elim (Bool-cases (has_node r id)) [
  | inr f ↦ rw (f, remove_node) b
  | inl t ↦
      rw (t, remove_node)
        (record {
          sorted = without_node-IsSorted id r.vnodes b.sorted;
          counted = λ j. ground (
            arith,
            b.counted j,
            vnodes_of-without_node j id r.vnodes,
            ==_iff id j,
            lookup-delete id j r.physical_nodes,
          );
        })
]

vnode_count-remove_node : (id : String) (r : Ring) → (remove_node id r).vnode_count ≡ r.vnode_count
unfolding remove_node
vnode_count-remove_node id r = ground arith

-- `AddNode` keeps the virtual nodes of a ring sorted, its `vnodeCount`, and that each physical node,
-- and no other, has so many virtual nodes. The physical nodes afterwards are those from before and
-- the node; the node has `vnodeCount` virtual nodes, and every other as many as before.
pub add_node-IsBalanced :
    (lib : Library) (id : String) (r : Ring)
    → IsBalanced r
    → IsBalanced (add_node lib id r)
      × ((add_node lib id r).vnode_count ≡ r.vnode_count)
      × ((j : String) → has_node (add_node lib id r) j ≡ (if id == j then true else has_node r j))
      × ((j : String)
          → vnodes_of j (add_node lib id r).vnodes
            ≡ (if id == j then r.vnode_count else vnodes_of j r.vnodes))
add_node-IsBalanced lib id r b =
    let whole = add_node_lem lib id r b in
    let same = vnode_count-add_node lib id r in
    (
      whole,
      same,
      λ j. has_node-add_node lib id j r,
      λ j. ground (arith, whole.counted j, b.counted j, same, has_node-add_node lib id j r),
    )

-- `RemoveNode` keeps the virtual nodes of a ring sorted, its `vnodeCount`, and that each physical
-- node, and no other, has so many virtual nodes. The physical nodes afterwards are those from
-- before without the node; the node has no virtual nodes, and every other as many as before.
pub remove_node-IsBalanced :
    (id : String) (r : Ring)
    → IsBalanced r
    → IsBalanced (remove_node id r)
      × ((remove_node id r).vnode_count ≡ r.vnode_count)
      × ((j : String) → has_node (remove_node id r) j ≡ (if id == j then false else has_node r j))
      × ((j : String)
          → vnodes_of j (remove_node id r).vnodes ≡ (if id == j then 0 else vnodes_of j r.vnodes))
remove_node-IsBalanced id r b =
    let whole = remove_node_lem id r b in
    let same = vnode_count-remove_node id r in
    (
      whole,
      same,
      λ j. has_node-remove_node id j r,
      λ j. ground (arith, whole.counted j, b.counted j, same, has_node-remove_node id j r),
    )

found_named :
    (id : String) (h : ℕ) (l : List VNode) (v : VNode)
    → vnodes_of id l ≡ 0
    → first_from h l ≡ some v
    → v.node_id ≢ id
unfolding vnodes_of first_from
found_named id h [] v none_there found = cc
found_named id h (w ∷ l) v none_there found =
    ground (arith, ==_iff w.node_id id, found_named id h l v)

first_named :
    (id : String) (w : VNode) (l : List VNode) (v : VNode)
    → vnodes_of id (w ∷ l) ≡ 0
    → w ≡ v
    → v.node_id ≢ id
unfolding vnodes_of
first_named id w l v none_there same =
    λ e. ground (arith, ==_iff w.node_id id, ap (λ (x : VNode). x.node_id) same, e)

owner_named :
    (id : String) (h : ℕ) (l : List VNode) (v : VNode)
    → vnodes_of id l ≡ 0
    → owner h l ≡ some v
    → v.node_id ≢ id
unfolding owner
owner_named id h [] v none_there found = cc
owner_named id h (w ∷ l) v none_there found = elim (Option-cases (first_from h (w ∷ l))) [
  | inl e ↦ first_named id w l v none_there (ground (arith, e, found))
  | inr (u, e) ↦ found_named id h (w ∷ l) v none_there (ground (arith, e, found))
]

-- `GetNode` gives no key to a node that a balanced ring does not have.
pub get_node-absent :
    (lib : Library) (key id : String) (r : Ring)
    → IsBalanced r
    → id ≢ ""
    → has_node r id ≡ false
    → get_node lib key r ≢ some id
get_node-absent lib key id r b named off given =
    let none_there : vnodes_of id r.vnodes ≡ 0 = b.counted id ∙ rw off in
    let answer = get_node-owner lib key r b.sorted in
    elim (Option-cases (owner (lib.hash_key key) r.vnodes)) [
      | inl e ↦ named (ground (arith, answer, given, e))
      | inr (v, e) ↦
          owner_named id (lib.hash_key key) r.vnodes v none_there e
            (ground (arith, answer, given, e))
    ]
