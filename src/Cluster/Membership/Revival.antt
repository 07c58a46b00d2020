-- ===== src/Cluster/Membership/Revival.antt =====
-- membership.go: a dead member that is added again, and then heard of.
use hedgehog_db_opus.Base.{ℕ, ◌≡◌, ◌≢◌, refl, sym, ap, ◌∙◌, arith}
use hedgehog_db_opus.Base.{true, false, some, List, [], ◌∷◌, String}
use hedgehog_db_opus.Base.{string_keys, ==_iff}
use hedgehog_db_opus.Base.GoMap.{lookup, lookup-insert}
use hedgehog_db_opus.Cluster.Ring.{Ring, Library, has_node, get_node}
use hedgehog_db_opus.Cluster.Ring.Invariant.{IsBalanced, get_node-absent}
use hedgehog_db_opus.Cluster.Membership.{
  NodeInfo, alive, dead, Membership, is_alive, add_node, refresh, handle_heartbeat,
}
use hedgehog_db_opus.Cluster.Membership.Sync.{InSync}
use hedgehog_db_opus.Cluster.Membership.Failure.{is_alive_of}

-- Heartbeats of a node, each with its time and address.
unfoldable pub heartbeats : Library → String → List (ℕ × String) → Membership → Membership
unfolding handle_heartbeat
heartbeats lib id [] m = m
heartbeats lib id ((now, addr) ∷ beats) m =
    heartbeats lib id beats (handle_heartbeat lib now id addr m).1

-- A node that is listed as alive, with the ring as it is.
Listed : String → Ring → Membership → Type 0
Listed id ring m =
    (n : NodeInfo) × (lookup id m.nodes ≡ some n) × (n.status ≡ alive) × (m.ring ≡ ring)

handle_heartbeat-Listed :
    (lib : Library) (now : ℕ) (id addr : String) (ring : Ring) (m : Membership)
    → Listed id ring m
    → Listed id ring (handle_heartbeat lib now id addr m).1
unfolding Listed handle_heartbeat
handle_heartbeat-Listed lib now id addr ring m (n, e, up, same) =
    let x = record n { addr = addr; status = alive; last_seen = now } in
    rw (e, handle_heartbeat, up, refresh)
      (x, lookup-insert id id x m.nodes ∙ ground (arith, ==_iff id id), refl, same)

heartbeats-Listed :
    (lib : Library) (id : String) (ring : Ring) (beats : List (ℕ × String)) (m : Membership)
    → Listed id ring m
    → Listed id ring (heartbeats lib id beats m)
unfolding heartbeats
heartbeats-Listed lib id ring [] m h = h
heartbeats-Listed lib id ring ((now, addr) ∷ beats) m h =
    heartbeats-Listed lib id ring beats (handle_heartbeat lib now id addr m).1
      (handle_heartbeat-Listed lib now id addr ring m h)

add_node-Listed :
    (lib : Library) (now : ℕ) (id addr : String) (m : Membership) (n : NodeInfo)
    → lookup id m.nodes ≡ some n
    → Listed id m.ring (add_node lib now id addr m)
unfolding Listed add_node
add_node-Listed lib now id addr m n e =
    let x = record n { addr = addr; status = alive; last_seen = now } in
    rw (e, add_node) (x, lookup-insert id id x m.nodes ∙ ground (arith, ==_iff id id), refl, refl)

-- `AddNode` of a known node that is dead revives it off the ring, and no number of heartbeats
-- brings it back: after them it counts as alive, is not on the ring, and `GetNode` gives it no key.
-- Its name is not empty, and the ring was in sync and balanced before.
pub add_node-dead_off_ring :
    (lib : Library) (now : ℕ) (id addr key : String) (m : Membership) (n : NodeInfo)
    (beats : List (ℕ × String))
    → InSync m
    → IsBalanced m.ring
    → id ≢ ""
    → lookup id m.nodes ≡ some n
    → n.status ≡ dead
    → (is_alive id (heartbeats lib id beats (add_node lib now id addr m)) ≡ true)
      × (has_node (heartbeats lib id beats (add_node lib now id addr m)).ring id ≡ false)
      × (get_node lib key (heartbeats lib id beats (add_node lib now id addr m)).ring ≢ some id)
unfolding Listed
add_node-dead_off_ring lib now id addr key m n beats h balanced named e d =
    let m' = heartbeats lib id beats (add_node lib now id addr m) in
    let (x, found, up, same) =
      heartbeats-Listed lib id m.ring beats (add_node lib now id addr m)
        (add_node-Listed lib now id addr m n e) in
    let off : has_node m.ring id ≡ false = h.synced id ∙ ground (arith, e, d) in
    (
      is_alive_of id m' x found ∙ rw up,
      ap (λ r. has_node r id) same ∙ off,
      λ given.
          get_node-absent lib key id m.ring balanced named off
            (sym (ap (λ r. get_node lib key r) same) ∙ given),
    )
