-- ===== src/Cluster/Membership/Failure.antt =====
-- membership.go: what a tick of `detectFailures` does to each node and to the ring.
use hedgehog_db_opus.Base.{
  List, [], ◌∷◌, ℕ, ◌+◌, ◌-◌, ◌*◌, ◌<◌, ◌≤◌, ◌≡◌, ◌≢◌, refl, ◌∙◌, ap, inl, inr, arith,
}
use hedgehog_db_opus.Base.{Bool, true, false, not, ◌&&◌, none, some, [], ◌∷◌, String}
use hedgehog_db_opus.Base.{string_keys, ltb, ◌==◌, if◌then◌else◌, Option-cases, ==_iff, map}
use hedgehog_db_opus.Base.GoMap.{GoMap, lookup, lookup-insert, Distinct}
use hedgehog_db_opus.Base.GoMap.Entries.{lookup-absent}
use hedgehog_db_opus.Cluster.Ring
use hedgehog_db_opus.Cluster.Ring.{Ring, Library, has_node}
use hedgehog_db_opus.Cluster.Ring.Invariant.{has_node-remove_node}
use hedgehog_db_opus.Cluster.Membership.{
  NodeInfo, alive, dead, Membership, is_alive_status, is_suspect, joined, is_alive, drop_seed,
  discover, refresh, handle_heartbeat, detect_node, detect_loop, detect_failures, detection_ticks,
}
use hedgehog_db_opus.Cluster.Membership.Sync.{is_live, is_up, InSync}

-- A suspect node, other than this one, whose time is up.
abbrev falls : ℕ → ℕ → String → String → NodeInfo → Bool
falls now timeout self id n =
    not (id == self) && is_suspect n.status && ltb (timeout * 2) (now - n.last_seen)

module _ (now timeout : ℕ) (self : String) where
  detect_ring :
      (id j : String) (n : NodeInfo) (ring : Ring)
      → has_node (detect_node now timeout self id n ring).1 j
        ≡ (if id == j && falls now timeout self id n then false else has_node ring j)
  unfolding detect_node
  detect_ring id j n ring = ground (arith, has_node-remove_node id j ring)

  -- What a round makes of a node.
  aged : String → NodeInfo → NodeInfo
  unfolding detect_node
  aged id n = (detect_node now timeout self id n (Ring.new_ring 0)).0

  detect_info :
      (id : String) (n : NodeInfo) (ring : Ring)
      → (detect_node now timeout self id n ring).0 ≡ aged id n
  unfolding detect_node aged
  detect_info id n ring = ground arith

  lookup-detect_loop :
      (j : String) (l : GoMap String NodeInfo) (ring : Ring)
      → lookup j (detect_loop now timeout self l ring).0
        ≡ elim (lookup j l) [ none ↦ none | some n ↦ some (aged j n) ]
  unfolding detect_loop lookup
  lookup-detect_loop j [] ring = refl
  lookup-detect_loop j ((id, n) ∷ l) ring =
      let ring' = (detect_node now timeout self id n ring).1 in
      ground (arith, lookup-detect_loop j l ring', detect_info id n ring, ==_iff id j)

  ring-detect_loop :
      (j : String) (l : GoMap String NodeInfo) (ring : Ring)
      → Distinct l
      → has_node (detect_loop now timeout self l ring).1 j ≡ elim (lookup j l) [
        | none ↦ has_node ring j
        | some n ↦ if falls now timeout self j n then false else has_node ring j
      ]
  unfolding detect_loop lookup
  ring-detect_loop j [] ring d = refl
  ring-detect_loop j ((id, n) ∷ l) ring d =
      let ring' = (detect_node now timeout self id n ring).1 in
      ground (
        arith,
        ring-detect_loop j l ring' d.1,
        detect_ring id j n ring,
        ==_iff id j,
        lookup-absent l id d.0,
      )

  keys-detect_loop :
      (l : GoMap String NodeInfo) (ring : Ring)
      → map (λ x. x.0) (detect_loop now timeout self l ring).0 ≡ map (λ x. x.0) l
  unfolding detect_loop
  keys-detect_loop [] ring = refl
  keys-detect_loop ((id, n) ∷ l) ring =
      ap (◌∷◌ id) (keys-detect_loop l (detect_node now timeout self id n ring).1)

  detect_loop-Distinct :
      (l : GoMap String NodeInfo) (ring : Ring)
      → Distinct l
      → Distinct (detect_loop now timeout self l ring).0
  unfolding detect_loop
  detect_loop-Distinct [] ring d = tt
  detect_loop-Distinct ((id, n) ∷ l) ring d =
      let ring' = (detect_node now timeout self id n ring).1 in
      (rw (keys-detect_loop l ring') d.0, detect_loop-Distinct l ring' d.1)

  is_live-aged :
      (id : String) (n : NodeInfo)
      → is_live (some (aged id n))
        ≡ (if falls now timeout self id n then false else is_live (some n))
  unfolding aged detect_node
  is_live-aged id n = ground arith

  is_up-aged : (n : NodeInfo) → is_up (some (aged self n)) ≡ is_up (some n)
  unfolding aged detect_node
  is_up-aged n = ground (arith, ==_iff self self)

-- A tick of the failure detector keeps the ring in sync, whatever the clock says.
pub detect_failures-InSync : (now : ℕ) (m : Membership) → InSync m → InSync (detect_failures now m)
unfolding detect_failures
detect_failures-InSync now m h = record {
  distinct = detect_loop-Distinct now m.failure_timeout m.self_id m.nodes m.ring h.distinct;
  synced = λ j.
      let l = lookup-detect_loop now m.failure_timeout m.self_id j m.nodes m.ring in
      let r = ring-detect_loop now m.failure_timeout m.self_id j m.nodes m.ring h.distinct in
      elim (Option-cases (lookup j m.nodes)) [
        | inl e ↦ ground (arith, l, r, e, h.synced j)
        | inr (n, e) ↦
            ground (arith, l, r, e, h.synced j, is_live-aged now m.failure_timeout m.self_id j n)
      ];
  self_up =
      let l = lookup-detect_loop now m.failure_timeout m.self_id m.self_id m.nodes m.ring in
      elim (Option-cases (lookup m.self_id m.nodes)) [
        | inl e ↦ ground (arith, e, h.self_up)
        | inr (n, e) ↦ ground (arith, l, e, h.self_up, is_up-aged now m.failure_timeout m.self_id n)
      ];
}

aged_twice :
    (t u timeout : ℕ) (self id : String) (n : NodeInfo)
    → id ≢ self
    → timeout < t - n.last_seen
    → timeout * 2 < u - n.last_seen
    → (aged u timeout self id (aged t timeout self id n)).status ≡ dead
unfolding aged detect_node
aged_twice t u timeout self id n h a b = ground (arith, ==_iff id self)

lookup-detect_failures :
    (now : ℕ) (m : Membership) (j : String) (n : NodeInfo)
    → lookup j m.nodes ≡ some n
    → lookup j (detect_failures now m).nodes ≡ some (aged now m.failure_timeout m.self_id j n)
unfolding detect_failures
lookup-detect_failures now m j n e =
    lookup-detect_loop now m.failure_timeout m.self_id j m.nodes m.ring ∙ rw e

dead-is_live : (n : NodeInfo) → n.status ≡ dead → is_live (some n) ≡ false
dead-is_live n h = rw h

recent :
    (now timeout : ℕ) (self id : String) (n : NodeInfo)
    → n.status ≡ alive
    → now - n.last_seen ≤ timeout
    → is_alive_status (aged now timeout self id n).status ≡ true
unfolding aged detect_node
recent now timeout self id n h k = ground arith

-- A node that has been silent is declared dead and leaves the ring within two ticks, if the first
-- comes more than the timeout and the second more than twice the timeout after it was last seen.
pub silent_node_dies :
    (t u : ℕ) (m : Membership) (id : String) (n : NodeInfo)
    → InSync m
    → id ≢ m.self_id
    → lookup id m.nodes ≡ some n
    → m.failure_timeout < t - n.last_seen
    → m.failure_timeout * 2 < u - n.last_seen
    → (n' : NodeInfo) × (lookup id (detect_failures u (detect_failures t m)).nodes ≡ some n')
      × (n'.status ≡ dead)
      × (has_node (detect_failures u (detect_failures t m)).ring id ≡ false)
unfolding detect_failures
silent_node_dies t u m id n h ne e a b =
    let first = lookup-detect_failures t m id n e in
    let second = lookup-detect_failures u (detect_failures t m) id _ first in
    let gone = aged_twice t u m.failure_timeout m.self_id id n ne a b in
    let sync = detect_failures-InSync u (detect_failures t m) (detect_failures-InSync t m h) in
    (
      _,
      second,
      gone,
      sync.synced id
          ∙ ap is_live second
          ∙ dead-is_live
              (aged u m.failure_timeout m.self_id id (aged t m.failure_timeout m.self_id id n))
              gone,
    )

pub is_alive_of :
    (id : String) (m : Membership) (n : NodeInfo)
    → lookup id m.nodes ≡ some n
    → is_alive id m ≡ is_alive_status n.status
unfolding is_alive
is_alive_of id m n e = rw (e, is_alive)

module _ (lib : Library) where
  refreshed :
      (now : ℕ) (id addr : String) (n : NodeInfo) (m : Membership)
      → lookup id (refresh lib now id addr n m).1.nodes
        ≡ some (record n { addr = addr; status = alive; last_seen = now })
  unfolding refresh
  refreshed now id addr n m = ground (
    arith,
    lookup-insert id id (record n { addr = addr; status = alive; last_seen = now }) m.nodes,
    ==_iff id id,
  )

  discovered :
      (now : ℕ) (id addr : String) (m : Membership)
      → lookup id (discover lib now id addr m).nodes ≡ some (joined id addr now)
  unfolding discover
  discovered now id addr m =
      lookup-insert id id (joined id addr now) (drop_seed addr m).nodes
      ∙ ground (arith, ==_iff id id)

  heard :
      (now : ℕ) (id addr : String) (m : Membership)
      → (n : NodeInfo) × (lookup id (handle_heartbeat lib now id addr m).1.nodes ≡ some n)
        × (n.status ≡ alive)
        × (n.last_seen ≡ now)
  unfolding handle_heartbeat
  heard now id addr m = elim (Option-cases (lookup id m.nodes)) [
    | inl e ↦ rw (e, handle_heartbeat) (_, discovered now id addr m, refl, refl)
    | inr (n, e) ↦ rw (e, handle_heartbeat) (_, refreshed now id addr n m, refl, refl)
  ]

  timeout-handle_heartbeat :
      (now : ℕ) (id addr : String) (m : Membership)
      → (handle_heartbeat lib now id addr m).1.failure_timeout ≡ m.failure_timeout
  unfolding handle_heartbeat discover refresh drop_seed
  timeout-handle_heartbeat now id addr m = ground arith

  -- After a heartbeat the node is alive, whatever it was before, and a tick that comes within the
  -- timeout leaves it alive.
  pub is_alive-handle_heartbeat :
      (t u : ℕ) (id addr : String) (m : Membership)
      → u ≤ t + m.failure_timeout
      → (is_alive id (handle_heartbeat lib t id addr m).1 ≡ true)
        × (is_alive id (detect_failures u (handle_heartbeat lib t id addr m).1) ≡ true)
  is_alive-handle_heartbeat t u id addr m h =
      let (n, e, up, seen) = heard t id addr m in
      let m' = (handle_heartbeat lib t id addr m).1 in
      let same = timeout-handle_heartbeat t id addr m in
      (
        is_alive_of id m' n e ∙ ap is_alive_status up,
        is_alive_of id (detect_failures u m') (aged u m'.failure_timeout m'.self_id id n)
              (lookup-detect_failures u m' id n e)
            ∙ recent u m'.failure_timeout m'.self_id id n up (omega arith),
      )

-- The failure detector keeps the ring in sync for as long as it runs, whatever the clock says at its
-- ticks.
pub detection_ticks-InSync :
    (times : List ℕ) (m : Membership) → InSync m → InSync (detection_ticks times m)
unfolding detection_ticks
detection_ticks-InSync [] m h = h
detection_ticks-InSync (now ∷ times) m h =
    detection_ticks-InSync times (detect_failures now m) (detect_failures-InSync now m h)
