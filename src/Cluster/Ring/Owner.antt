-- ===== src/Cluster/Ring/Owner.antt =====
-- ring.go: `GetNode` against the owner of a hash, and what removing a node does to it.
use hedgehog_db_opus.Base.{ℕ, ◌≤◌, ◌≡◌, ◌≢◌, refl, sym, ap, ◌∙◌, inl, inr, arith}
use hedgehog_db_opus.Base.{Option, none, some, List, [], ◌∷◌, String}
use hedgehog_db_opus.Base.{string_keys, nat_keys, ◌==◌, All}
use hedgehog_db_opus.Base.{Bool-cases, Option-cases, ==_iff}
use hedgehog_db_opus.Cluster.Ring.{
  VNode, Ring, Library, IsSorted, has_node, without_node, remove_node, node_at, get_node,
}
use hedgehog_db_opus.Cluster.Ring.Sorted.{first_from, owner, start_index-owner}

abbrev pub owner_name : Option VNode → String
owner_name none = ""
owner_name (some v) = v.node_id

pub owner-ne-none : (h : ℕ) (v : VNode) (l : List VNode) → owner h (v ∷ l) ≢ none
unfolding owner
owner-ne-none h v l = ground arith

pub node_at-owner :
    (l : List VNode) (h : ℕ) → IsSorted l → node_at l h ≡ some (owner_name (owner h l))
unfolding node_at owner
node_at-owner [] h s = refl
node_at-owner (v ∷ l) h s =
    let (w, found) = start_index-owner h v l s in
    elim (Option-cases (owner h (v ∷ l))) [
      | inl n ↦ absurd (owner-ne-none h v l n)
      | inr k ↦ ground (arith, found, k.1)
    ]

-- `GetNode` never panics: it returns the node of the first virtual node at or after the hash of the
-- key, that of the first virtual node of the ring where there is none, and "" on an empty ring.
pub get_node-owner :
    (lib : Library) (key : String) (r : Ring)
    → IsSorted r.vnodes
    → get_node lib key r ≡ some (owner_name (owner (lib.hash_key key) r.vnodes))
unfolding get_node
get_node-owner lib key r s = node_at-owner r.vnodes (lib.hash_key key) s

module _ (id : String) where
  All-without_node :
      (h : ℕ) (l : List VNode) → All (λ w. h ≤ w.hash) l → All (λ w. h ≤ w.hash) (without_node id l)
  unfolding without_node
  All-without_node h [] a = tt
  All-without_node h (v ∷ l) a = elim (Bool-cases (v.node_id == id)) [
    | inl t ↦ rw t (All-without_node h l a.1)
    | inr f ↦ rw f (a.0, All-without_node h l a.1)
  ]

  pub without_node-IsSorted : (l : List VNode) → IsSorted l → IsSorted (without_node id l)
  unfolding without_node
  without_node-IsSorted [] s = tt
  without_node-IsSorted (v ∷ l) s = elim (Bool-cases (v.node_id == id)) [
    | inl t ↦ rw t (without_node-IsSorted l s.1)
    | inr f ↦ rw f (All-without_node v.hash l s.0, without_node-IsSorted l s.1)
  ]

  first_from-without_node-some :
      (h : ℕ) (l : List VNode) (v : VNode)
      → first_from h l ≡ some v
      → v.node_id ≢ id
      → first_from h (without_node id l) ≡ some v
  unfolding first_from without_node
  first_from-without_node-some h [] v e n = cc
  first_from-without_node-some h (w ∷ l) v e n =
      ground (arith, ==_iff w.node_id id, ==_iff v.node_id id, first_from-without_node-some h l v)

  first_from-without_node-none :
      (h : ℕ) (l : List VNode) → first_from h l ≡ none → first_from h (without_node id l) ≡ none
  unfolding first_from without_node
  first_from-without_node-none h [] e = refl
  first_from-without_node-none h (w ∷ l) e =
      ground (arith, ==_iff w.node_id id, first_from-without_node-none h l)

  owner_of_first_from :
      (h : ℕ) (l : List VNode) (v : VNode) → first_from h l ≡ some v → owner h l ≡ some v
  unfolding owner first_from
  owner_of_first_from h [] v e = cc
  owner_of_first_from h (w ∷ l) v e = rw (e, owner)

  owner_of_none :
      (h : ℕ) (w : VNode) (l : List VNode)
      → first_from h (w ∷ l) ≡ none
      → w.node_id ≢ id
      → owner h (without_node id (w ∷ l)) ≡ some w
  unfolding owner without_node
  owner_of_none h w l e n =
      let q = first_from-without_node-none h (w ∷ l) e in ground (arith, ==_iff w.node_id id)

  owner-without_node :
      (h : ℕ) (l : List VNode) (v : VNode)
      → owner h l ≡ some v
      → v.node_id ≢ id
      → owner h (without_node id l) ≡ some v
  unfolding owner without_node
  owner-without_node h [] v e n = cc
  owner-without_node h (w ∷ l) v e n = elim (Option-cases (first_from h (w ∷ l))) [
    | inl none_left ↦
        let same : w ≡ v = ground arith in
        rw (owner_of_none h w l none_left (rw (← same) at n), same)
    | inr (u, found) ↦
        let same : u ≡ v = ground arith in
        owner_of_first_from h (without_node id (w ∷ l)) v
          (first_from-without_node-some h (w ∷ l) v (rw same at found) n)
  ]

  node_at-without_node :
      (h : ℕ) (l : List VNode)
      → IsSorted l
      → node_at l h ≢ some id
      → node_at (without_node id l) h ≡ node_at l h
  node_at-without_node h [] s n = unfold without_node in refl
  node_at-without_node h (v ∷ l) s n = elim (Option-cases (owner h (v ∷ l))) [
    | inl e ↦ absurd (owner-ne-none h v l e)
    | inr (w, e) ↦
        let now : node_at (v ∷ l) h ≡ some w.node_id = node_at-owner (v ∷ l) h s ∙ rw e in
        let kept = owner-without_node h (v ∷ l) w e (λ p. n (now ∙ ap some p)) in
        node_at-owner (without_node id (v ∷ l)) h (without_node-IsSorted (v ∷ l) s)
        ∙ rw kept (sym now)
  ]

-- Removing a node moves no key but its own: a key that `GetNode` gives to another node stays there.
pub get_node-remove_node :
    (lib : Library) (key id : String) (r : Ring)
    → IsSorted r.vnodes
    → get_node lib key r ≢ some id
    → get_node lib key (remove_node id r) ≡ get_node lib key r
unfolding remove_node get_node
get_node-remove_node lib key id r s n = elim (Bool-cases (has_node r id)) [
  | inr f ↦ rw (f, remove_node)
  | inl t ↦
      rw (t, remove_node)
        (unfold get_node in node_at-without_node id (lib.hash_key key) r.vnodes s n)
]
