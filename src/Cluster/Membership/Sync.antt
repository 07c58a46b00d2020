-- ===== src/Cluster/Membership/Sync.antt =====
-- membership.go: the ring holds exactly the members that are not dead, and this node stays alive.
use Prim.Native.String.{◌++◌ as str_append}
use hedgehog_db_opus.Base.{ℕ, ◌≡◌, ◌≢◌, refl, ◌∙◌, ◌⊎◌, inl, inr, arith}
use hedgehog_db_opus.Base.{Bool, true, false, not, ◌&&◌, Option, none, some, [], String}
use hedgehog_db_opus.Base.{string_keys, ◌==◌, if◌then◌else◌, Bool-cases, Option-cases, ==_iff}
use hedgehog_db_opus.Base.GoMap.{
  GoMap, lookup, insert, delete, lookup-insert, lookup-delete, Distinct,
}
use hedgehog_db_opus.Base.GoMap.Entries.{insert-Distinct, delete-Distinct}
use hedgehog_db_opus.Cluster.Ring
use hedgehog_db_opus.Cluster.Ring.{Ring, Library, has_node}
use hedgehog_db_opus.Cluster.Ring.Invariant.{has_node-add_node, has_node-remove_node}
use hedgehog_db_opus.Cluster.Membership.{
  NodeInfo, alive, Membership, joined, is_alive_status, is_dead_status, new_membership, add_node,
  remove_node, drop_seed, discover, refresh, handle_heartbeat,
}

lookup-nil : (j : String) → lookup {V = NodeInfo} j [] ≡ none
unfolding lookup
lookup-nil j = refl

-- A member that is not dead.
abbrev pub is_live : Option NodeInfo → Bool
is_live none = false
is_live (some n) = not (is_dead_status n.status)

abbrev pub is_up : Option NodeInfo → Bool
is_up none = false
is_up (some n) = is_alive_status n.status

-- The nodes are a Go map, the ring holds exactly the members that are not dead, and this node is
-- alive.
pub record Synced (self_id : String) (nodes : GoMap String NodeInfo) (ring : Ring) : Type 0 where
  pub distinct : Distinct nodes
  pub synced : (j : String) → has_node ring j ≡ is_live (lookup j nodes)
  pub self_up : is_up (lookup self_id nodes) ≡ true

abbrev pub InSync : Membership → Type 0
InSync m = Synced m.self_id m.nodes m.ring

module _ {self : String} {nodes : GoMap String NodeInfo} {ring : Ring} (id : String)
    (ring' : Ring) where
  insert_alive-Synced :
      Synced self nodes ring
      → (x : NodeInfo) → x.status ≡ alive
      → ((j : String) → has_node ring' j ≡ (if id == j then true else has_node ring j))
      → Synced self (insert id x nodes) ring'
  insert_alive-Synced h x up r = record {
    distinct = insert-Distinct id x nodes h.distinct;
    synced = λ j. r j ∙ ground (arith, h.synced j, lookup-insert id j x nodes);
    self_up = ground (arith, h.self_up, lookup-insert id self x nodes);
  }

  delete-Synced :
      Synced self nodes ring
      → id ≢ self
      → ((j : String) → has_node ring' j ≡ (if id == j then false else has_node ring j))
      → Synced self (delete id nodes) ring'
  delete-Synced h n r = record {
    distinct = delete-Distinct id nodes h.distinct;
    synced = λ j. r j ∙ ground (arith, h.synced j, lookup-delete id j nodes);
    self_up = ground (arith, h.self_up, lookup-delete id self nodes, ==_iff id self);
  }

-- A node that the ring holds needs no second entry.
ring_has :
    (ring : Ring) (id : String)
    → has_node ring id ≡ true
    → (j : String) → has_node ring j ≡ (if id == j then true else has_node ring j)
ring_has ring id h j = elim (Bool-cases (id == j)) [
  | inl t ↦ rw t (rw ((==_iff id j).0 t) at h)
  | inr f ↦ rw f
]

-- A membership that starts on an empty ring is in sync.
pub new_membership-InSync :
    (lib : Library) (now : ℕ) (id addr : String) (ring : Ring) (timeout : ℕ)
    → ((j : String) → has_node ring j ≡ false)
    → InSync (new_membership lib now id addr ring timeout)
unfolding new_membership
new_membership-InSync lib now id addr ring timeout fresh = record {
  distinct = insert-Distinct id (joined id addr now) [] tt;
  synced = λ j.
      has_node-add_node lib id j ring
      ∙ ground (arith, fresh j, lookup-insert id j (joined id addr now) [], lookup-nil j);
  self_up = ground (arith, lookup-insert id id (joined id addr now) [], ==_iff id id);
}

-- `AddNode` keeps the ring in sync, unless the node is already known and dead.
pub add_node-InSync :
    (lib : Library) (now : ℕ) (id addr : String) (m : Membership)
    → InSync m
    → (lookup id m.nodes ≡ none) ⊎ (is_live (lookup id m.nodes) ≡ true)
    → InSync (add_node lib now id addr m)
unfolding add_node
add_node-InSync lib now id addr m h k = elim (Option-cases (lookup id m.nodes)) [
  | inl e ↦
      rw (e, add_node)
        (insert_alive-Synced id (Ring.add_node lib id m.ring) h (joined id addr now) refl
          (λ j. has_node-add_node lib id j m.ring))
  | inr (n, e) ↦
      rw (e, add_node)
        (insert_alive-Synced id m.ring h (record n { addr = addr; status = alive; last_seen = now })
          refl (ring_has m.ring id (h.synced id ∙ ground arith)))
]

-- `RemoveNode` keeps the ring in sync.
pub remove_node-InSync : (id : String) (m : Membership) → InSync m → InSync (remove_node id m).1
unfolding remove_node
remove_node-InSync id m h = elim (Bool-cases (id == m.self_id)) [
  | inl t ↦ rw (t, remove_node) h
  | inr f ↦ elim (Option-cases (lookup id m.nodes)) [
    | inl e ↦ rw (f, e, remove_node) h
    | inr (n, e) ↦
        rw (f, e, remove_node)
          (delete-Synced id (Ring.remove_node id m.ring) h
            (λ p. ground (arith, ==_iff id m.self_id)) (λ j. has_node-remove_node id j m.ring))
  ]
]

drop_seed-InSync :
    (addr : String) (m : Membership)
    → InSync m
    → str_append "seed-" addr ≢ m.self_id
    → InSync (drop_seed addr m)
unfolding drop_seed
drop_seed-InSync addr m h k = elim (Option-cases (lookup (str_append "seed-" addr) m.nodes)) [
  | inl e ↦ rw (e, drop_seed) h
  | inr (n, e) ↦ elim (Bool-cases (n.addr == addr)) [
    | inr f ↦ rw (e, f, drop_seed) h
    | inl t ↦
        rw (e, t, drop_seed)
          (delete-Synced (str_append "seed-" addr)
            (Ring.remove_node (str_append "seed-" addr) m.ring) h k
            (λ j. has_node-remove_node (str_append "seed-" addr) j m.ring))
  ]
]

discover-InSync :
    (lib : Library) (now : ℕ) (id addr : String) (m : Membership)
    → InSync m
    → str_append "seed-" addr ≢ m.self_id
    → InSync (discover lib now id addr m)
unfolding discover
discover-InSync lib now id addr m h k =
    let m' = drop_seed addr m in
    insert_alive-Synced id (Ring.add_node lib id m'.ring) (drop_seed-InSync addr m h k)
      (joined id addr now) refl (λ j. has_node-add_node lib id j m'.ring)

refresh-InSync :
    (lib : Library) (now : ℕ) (id addr : String) (n : NodeInfo) (m : Membership)
    → InSync m
    → lookup id m.nodes ≡ some n
    → (m.has_recovery ≡ true) ⊎ (is_dead_status n.status ≡ false)
    → InSync (refresh lib now id addr n m).1
unfolding refresh
refresh-InSync lib now id addr n m h e k = elim (Bool-cases (is_dead_status n.status)) [
  | inl d ↦
      let r : m.has_recovery ≡ true = ground arith in
      let u : is_alive_status n.status ≡ false = ground arith in
      rw (u, r, d, refresh)
        (insert_alive-Synced id (Ring.add_node lib id m.ring) h _ refl
          (λ j. has_node-add_node lib id j m.ring))
  | inr d ↦
      let kept =
        insert_alive-Synced {self = m.self_id} id m.ring h
          (record n { addr = addr; status = alive; last_seen = now }) refl
          (ring_has m.ring id (h.synced id ∙ ground arith)) in
      elim (Bool-cases (not (is_alive_status n.status) && m.has_recovery)) [
        | inl t ↦ rw (t, d, refresh) kept
        | inr f ↦ rw (f, refresh) kept
      ]
]

-- A heartbeat keeps the ring in sync if the recovery callback is set or the sender was not dead,
-- and the seed name of the sender's address is not the name of this node.
pub handle_heartbeat-InSync :
    (lib : Library) (now : ℕ) (id addr : String) (m : Membership)
    → InSync m
    → str_append "seed-" addr ≢ m.self_id
    → (m.has_recovery ≡ true) ⊎ (lookup id m.nodes ≡ none) ⊎ (is_live (lookup id m.nodes) ≡ true)
    → InSync (handle_heartbeat lib now id addr m).1
unfolding handle_heartbeat
handle_heartbeat-InSync lib now id addr m h s k = elim (Option-cases (lookup id m.nodes)) [
  | inl e ↦ rw (e, handle_heartbeat) (discover-InSync lib now id addr m h s)
  | inr (n, e) ↦ rw (e, handle_heartbeat) (refresh-InSync lib now id addr n m h e (ground arith))
]
