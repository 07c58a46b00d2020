-- ===== src/Cluster/Membership.antt =====
-- internal/cluster/membership.go: the members of the cluster, their heartbeats and the detection of
-- failures. The ring that the membership updates is part of its state. Times are numbers that the
-- caller gives, in the order of the clock; the recovery callback, which Go starts in a goroutine, is
-- the list of nodes that it is called for. Logging and the sending of heartbeats over HTTP are not
-- modelled, nor is the mutex, which every method holds for its whole body.
pub mod Sync
pub mod Failure
pub mod Revival
use Prim.Native.String.{◌++◌ as str_append}
use hedgehog_db_opus.Base.{ℕ, ◌-◌, ◌*◌, Bool, true, false, not, ◌&&◌, ◌||◌, Option, none, some}
use hedgehog_db_opus.Base.{map, List, [], ◌∷◌, String, string_keys, ltb, ◌==◌, if◌then◌else◌}
use hedgehog_db_opus.Base.GoMap.{GoMap, lookup, insert, delete}
use hedgehog_db_opus.Cluster.Ring
use hedgehog_db_opus.Cluster.Ring.{Ring, Library}

pub data NodeStatus : Type 0 where
  alive suspect dead : NodeStatus

pub record NodeInfo : Type 0 where
  pub id : String
  pub addr : String
  pub status : NodeStatus
  pub last_seen : ℕ

pub record Membership : Type 0 where
  pub self_id : String
  pub self_addr : String
  pub nodes : GoMap String NodeInfo
  pub ring : Ring
  pub failure_timeout : ℕ
  -- `m.onRecovery != nil`
  pub has_recovery : Bool

pub data MembershipError : Type 0 where
  cannot_remove_self : MembershipError

abbrev pub is_alive_status : NodeStatus → Bool
is_alive_status alive = true
is_alive_status suspect = false
is_alive_status dead = false

abbrev pub is_dead_status : NodeStatus → Bool
is_dead_status alive = false
is_dead_status suspect = false
is_dead_status dead = true

abbrev pub is_suspect : NodeStatus → Bool
is_suspect alive = false
is_suspect suspect = true
is_suspect dead = false

-- `String`
abbrev pub status_name : NodeStatus → String
status_name alive = "alive"
status_name suspect = "suspect"
status_name dead = "dead"

abbrev pub joined : String → String → ℕ → NodeInfo
joined id addr now = record { id = id; addr = addr; status = alive; last_seen = now }

unfoldable pub set_recovery_callback : Membership → Membership
set_recovery_callback m = record m { has_recovery = true }

-- `GetAllNodes`
unfoldable pub get_all_nodes : Membership → List NodeInfo
get_all_nodes m = map (λ x. x.1) m.nodes

unfoldable pub remove_node : String → Membership → Option MembershipError × Membership
remove_node node_id m =
    if node_id == m.self_id then (some cannot_remove_self, m) else elim (lookup node_id m.nodes) [
      | none ↦ (none, m)
      | some _ ↦ (
        none,
        record m { nodes = delete node_id m.nodes; ring = Ring.remove_node node_id m.ring },
      )
    ]

unfoldable pub is_alive : String → Membership → Bool
is_alive node_id m = elim (lookup node_id m.nodes) [
  | none ↦ false
  | some n ↦ is_alive_status n.status
]

unfoldable pub get_node_addr : String → Membership → String
get_node_addr node_id m = elim (lookup node_id m.nodes) [ none ↦ "" | some n ↦ n.addr ]

unfoldable pub alive_nodes : GoMap String NodeInfo → List NodeInfo
alive_nodes [] = []
alive_nodes ((_, n) ∷ rest) =
    let others = alive_nodes rest in if is_alive_status n.status then n ∷ others else others

unfoldable pub get_alive_nodes : Membership → List NodeInfo
unfolding alive_nodes
get_alive_nodes m = alive_nodes m.nodes

-- The targets that `sendHeartbeats` collects.
unfoldable pub heartbeat_targets : String → GoMap String NodeInfo → List NodeInfo
heartbeat_targets self_id [] = []
heartbeat_targets self_id ((id, n) ∷ rest) =
    let others = heartbeat_targets self_id rest in
    if not (id == self_id) && not (is_dead_status n.status) then n ∷ others else others

-- One round of the loop of `detectFailures`. `-` stops at 0 where a clock went back, and no timeout
-- is negative, so the tests are those of the source.
unfoldable pub detect_node : ℕ → ℕ → String → String → NodeInfo → Ring → NodeInfo × Ring
detect_node now timeout self_id id n ring =
    if id == self_id then (record n { last_seen = now }, ring) else elim n.status [
      | alive ↦ (if ltb timeout (now - n.last_seen) then record n { status = suspect } else n, ring)
      | suspect ↦
          if ltb (timeout * 2) (now - n.last_seen)
          then (record n { status = dead }, Ring.remove_node id ring)
          else (n, ring)
      | dead ↦ (n, ring)
    ]

unfoldable pub detect_loop :
    ℕ → ℕ → String → GoMap String NodeInfo → Ring → GoMap String NodeInfo × Ring
unfolding detect_node
detect_loop now timeout self_id [] ring = ([], ring)
detect_loop now timeout self_id ((id, n) ∷ rest) ring =
    let (n', ring') = detect_node now timeout self_id id n ring in
    let (rest', ring'') = detect_loop now timeout self_id rest ring' in ((id, n') ∷ rest', ring'')

unfoldable pub detect_failures : ℕ → Membership → Membership
unfolding detect_loop
detect_failures now m =
    let (nodes', ring') = detect_loop now m.failure_timeout m.self_id m.nodes m.ring in
    record m { nodes = nodes'; ring = ring' }

-- The seed entry of an address, which the node that answers there takes over.
-- `failureDetectionLoop`, with the times of the ticks before it is stopped.
unfoldable pub detection_ticks : List ℕ → Membership → Membership
unfolding detect_failures
detection_ticks [] m = m
detection_ticks (now ∷ times) m = detection_ticks times (detect_failures now m)

unfoldable pub drop_seed : String → Membership → Membership
drop_seed from_addr m =
    let seed_id = str_append "seed-" from_addr in
    elim (lookup seed_id m.nodes) [
      | none ↦ m
      | some seed ↦
          if seed.addr == from_addr
          then record m { nodes = delete seed_id m.nodes; ring = Ring.remove_node seed_id m.ring }
          else m
    ]

module _ (lib : Library) where
  unfoldable pub new_membership : ℕ → String → String → Ring → ℕ → Membership
  new_membership now self_id self_addr ring timeout = record {
    self_id = self_id;
    self_addr = self_addr;
    nodes = insert self_id (joined self_id self_addr now) [];
    ring = Ring.add_node lib self_id ring;
    failure_timeout = timeout;
    has_recovery = false;
  }

  unfoldable pub add_node : ℕ → String → String → Membership → Membership
  add_node now id addr m = elim (lookup id m.nodes) [
    | some n ↦ record m {
      nodes = insert id (record n { addr = addr; status = alive; last_seen = now }) m.nodes;
    }
    | none ↦ record m {
      nodes = insert id (joined id addr now) m.nodes;
      ring = Ring.add_node lib id m.ring;
    }
  ]

  unfoldable pub discover : ℕ → String → String → Membership → Membership
  unfolding drop_seed
  discover now from_id from_addr m =
      let m' = drop_seed from_addr m in
      record m' {
        nodes = insert from_id (joined from_id from_addr now) m'.nodes;
        ring = Ring.add_node lib from_id m'.ring;
      }

  -- The node is known: it is alive again, and the callback is called if it was not.
  unfoldable pub refresh : ℕ → String → String → NodeInfo → Membership → List String × Membership
  refresh now from_id from_addr n m =
      let m' = record m {
        nodes =
            insert from_id (record n { addr = from_addr; status = alive; last_seen = now }) m.nodes;
      } in
      if not (is_alive_status n.status) && m.has_recovery
      then (
        from_id ∷ [],
        if is_dead_status n.status
            then record m' { ring = Ring.add_node lib from_id m.ring }
            else m',
      )
      else ([], m')

  unfoldable pub handle_heartbeat : ℕ → String → String → Membership → List String × Membership
  unfolding discover refresh
  handle_heartbeat now from_id from_addr m = elim (lookup from_id m.nodes) [
    | none ↦ ([], discover now from_id from_addr m)
    | some n ↦ refresh now from_id from_addr n m
  ]
