-- ===== src/Tests/Fixtures.antt =====
-- An instance of what the ring takes from the standard library: a hash and a label that are easy to
-- follow, and insertion sort.
use mathlib.Core.List.{Perm}
use mathlib.Core.List.Perm
use hedgehog_db_opus.Base.{ℕ, ◌+◌, ◌%◌, ◌^◌, length, ◌≤◌, true, false, String, List, [], ◌∷◌, leb}
use hedgehog_db_opus.Base.{if◌then◌else◌, if_intro, All, arith, ◌≢◌, ◌==◌, string_keys, nat_keys}
use hedgehog_db_opus.Cluster.Ring.{VNode, IsSorted, Library, Ring, new_ring, add_node}
use hedgehog_db_opus.Storage.Wal.{Crc}

abbrev insert_vnode : VNode → List VNode → List VNode
insert_vnode v [] = v ∷ []
insert_vnode v (w ∷ l) =
    let rest = insert_vnode v l in if leb v.hash w.hash then v ∷ w ∷ l else w ∷ rest

abbrev insertion_sort : List VNode → List VNode
insertion_sort [] = []
insertion_sort (v ∷ l) = insert_vnode v (insertion_sort l)

insert_vnode-perm : (v : VNode) (l : List VNode) → Perm (insert_vnode v l) (v ∷ l)
insert_vnode-perm v [] = Perm.refl _
insert_vnode-perm v (w ∷ l) =
    if_intro (λ x. Perm x (v ∷ w ∷ l)) (leb v.hash w.hash) _ _ (λ t. Perm.refl _)
      (λ f. Perm.trans (Perm.cons w (insert_vnode-perm v l)) (Perm.swap v w l))

pub insertion_sort-perm : (l : List VNode) → Perm (insertion_sort l) l
insertion_sort-perm [] = Perm.refl _
insertion_sort-perm (v ∷ l) =
    Perm.trans (insert_vnode-perm v (insertion_sort l)) (Perm.cons v (insertion_sort-perm l))

insert_vnode-All :
    (h : ℕ) (v : VNode) (l : List VNode)
    → h ≤ v.hash
    → All (λ w. h ≤ w.hash) l
    → All (λ w. h ≤ w.hash) (insert_vnode v l)
insert_vnode-All h v [] a b = (a, tt)
insert_vnode-All h v (w ∷ l) a (b, c) =
    if_intro (λ y. All (λ (x : VNode). h ≤ x.hash) y) (leb v.hash w.hash) _ _ (λ t. (a, (b, c)))
      (λ f. (b, insert_vnode-All h v l a c))

All-weaken : (h k : ℕ) (l : List VNode) → h ≤ k → All (λ w. k ≤ w.hash) l → All (λ w. h ≤ w.hash) l
All-weaken h k [] e a = tt
All-weaken h k (w ∷ l) e (a, b) = (omega arith, All-weaken h k l e b)

insert_vnode-IsSorted : (v : VNode) (l : List VNode) → IsSorted l → IsSorted (insert_vnode v l)
insert_vnode-IsSorted v [] s = (tt, tt)
insert_vnode-IsSorted v (w ∷ l) (a, s) =
    if_intro IsSorted (leb v.hash w.hash) _ _
      (λ t. ((ground arith, All-weaken v.hash w.hash l (ground arith) a), (a, s)))
      (λ f. (insert_vnode-All w.hash v l (ground arith) a, insert_vnode-IsSorted v l s))

pub insertion_sort-IsSorted : (l : List VNode) → IsSorted (insertion_sort l)
insertion_sort-IsSorted [] = tt
insertion_sort-IsSorted (v ∷ l) =
    insert_vnode-IsSorted v (insertion_sort l) (insertion_sort-IsSorted l)

abbrev small_hash : String → ℕ
small_hash s =
    if s == "a"
    then 10
    else if s == "b"
    then 20
    else if s == "a1"
    then 30
    else if s == "b1"
    then 40
    else if s == "k"
    then 15
    else 5

abbrev small_label : String → ℕ → String
small_label id i = if i == 0 then id else if id == "a" then "a1" else "b1"

abbrev pub small_library : Library
small_library = record {
  hash_key = small_hash;
  label = small_label;
  sort_vnodes = insertion_sort;
  sort-perm = insertion_sort-perm;
  sort-IsSorted = insertion_sort-IsSorted;
}

-- A ring of two nodes with two virtual nodes each, added to a new one.
abbrev pub two_nodes : Ring
two_nodes = add_node small_library "b" (add_node small_library "a" (new_ring 2))

pub true-ne-false : true ≢ false
true-ne-false e = ground arith

-- A checksum in place of the CRC-32.
abbrev pub sum_crc : Crc
sum_crc = record {
  update = λ c bytes. (c + length bytes) % 2 ^ 32;
  update_bound = λ c bytes. omega arith;
}
