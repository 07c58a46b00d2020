-- ===== src/Tests/MembershipTests.antt =====
-- internal/cluster/membership.go on a node "a" that knows a node "b".
use Prim.Native.String.{◌++◌ as str_append}
use hedgehog_db_opus.Base.{
  [], ◌∷◌, String, true, false, ◌≡◌, ◌≢◌, refl, arith, ap, ◌∙◌, ◌==◌, inl, inr, some, none,
  string_keys, nat_keys,
}
use hedgehog_db_opus.Base.GoMap.{lookup, insert}
use hedgehog_db_opus.Cluster.Ring
use hedgehog_db_opus.Cluster.Ring.{new_ring, has_node, get_node}
use hedgehog_db_opus.Cluster.Membership.{
  Membership, NodeInfo, dead, new_membership, add_node, handle_heartbeat, detect_failures,
  detection_ticks, detect_loop, detect_node, is_alive, joined,
}
use hedgehog_db_opus.Cluster.Membership.Sync.{
  InSync, is_live, new_membership-InSync, add_node-InSync, handle_heartbeat-InSync,
}
use hedgehog_db_opus.Cluster.Membership.Failure.{
  detect_failures-InSync, detection_ticks-InSync, silent_node_dies, is_alive-handle_heartbeat,
}
use hedgehog_db_opus.Cluster.Membership.Revival.{heartbeats, add_node-dead_off_ring}
use hedgehog_db_opus.Cluster.Ring.Invariant.{
  IsBalanced, new_ring-IsBalanced, add_node-IsBalanced, remove_node-IsBalanced,
}
use hedgehog_db_opus.Tests.Fixtures.{small_library, two_nodes, true-ne-false}

empty_ring : (j : String) → has_node (new_ring 2) j ≡ false
unfolding new_ring lookup
empty_ring j = refl

abbrev pub alone : Membership
alone = new_membership small_library 0 "a" "a:1" (new_ring 2) 10

new_membership-InSync_example : InSync alone
new_membership-InSync_example =
    new_membership-InSync small_library 0 "a" "a:1" (new_ring 2) 10 empty_ring

alone-InSync : InSync alone
alone-InSync = new_membership-InSync small_library 0 "a" "a:1" (new_ring 2) 10 empty_ring

b_unknown : lookup "b" alone.nodes ≡ none
unfolding new_membership lookup insert
b_unknown = refl

abbrev pub pair : Membership
pair = add_node small_library 1 "b" "b:1" alone

pair-InSync : InSync pair
pair-InSync = add_node-InSync small_library 1 "b" "b:1" alone alone-InSync (inl b_unknown)

pub b_joined : lookup "b" pair.nodes ≡ some (joined "b" "b:1" 1)
unfolding add_node new_membership lookup insert
b_joined = refl

pub self_is_a : pair.self_id ≡ "a"
unfolding add_node new_membership lookup insert
self_is_a = refl

timeout_is_ten : pair.failure_timeout ≡ 10
unfolding add_node new_membership lookup insert
timeout_is_ten = refl

heartbeat_name : str_append "seed-" "b:1" ≢ pair.self_id
heartbeat_name e = true-ne-false (ap (λ (s : String). s == "seed-b:1") (e ∙ self_is_a))

b_live : is_live (lookup "b" pair.nodes) ≡ true
b_live = ap is_live b_joined

handle_heartbeat-InSync_example : InSync (handle_heartbeat small_library 7 "b" "b:1" pair).1
handle_heartbeat-InSync_example =
    handle_heartbeat-InSync small_library 7 "b" "b:1" pair pair-InSync heartbeat_name
      (inr (inr b_live))

detection_ticks-InSync_example : InSync (detection_ticks (20 ∷ 100 ∷ []) pair)
detection_ticks-InSync_example = detection_ticks-InSync (20 ∷ 100 ∷ []) pair pair-InSync

b_not_self : "b" ≢ pair.self_id
b_not_self e = true-ne-false (ap (λ (s : String). s == "b") (e ∙ self_is_a))

silent_node_dies_example :
    (n' : NodeInfo) × (lookup "b" (detect_failures 100 (detect_failures 20 pair)).nodes ≡ some n')
    × (n'.status ≡ dead)
    × (has_node (detect_failures 100 (detect_failures 20 pair)).ring "b" ≡ false)
silent_node_dies_example =
    silent_node_dies 20 100 pair "b" (joined "b" "b:1" 1) pair-InSync b_not_self b_joined
      (omega (arith, timeout_is_ten)) (omega (arith, timeout_is_ten))

-- "b" has been silent until it was declared dead.
abbrev deserted : Membership
deserted = detect_failures 100 (detect_failures 20 pair)

deserted-InSync : InSync deserted
deserted-InSync =
    detect_failures-InSync 100 (detect_failures 20 pair)
      (detect_failures-InSync 20 pair pair-InSync)

abbrev dead_b : NodeInfo
dead_b = record { id = "b"; addr = "b:1"; status = dead; last_seen = 1 }

dead_b_listed : lookup "b" deserted.nodes ≡ some dead_b
unfolding detect_failures detect_loop detect_node add_node new_membership lookup insert
dead_b_listed = refl

deserted-IsBalanced : IsBalanced deserted.ring
unfolding detect_failures detect_loop detect_node add_node new_membership lookup insert
deserted-IsBalanced =
    (remove_node-IsBalanced "b" two_nodes
      (add_node-IsBalanced small_library "b" (Ring.add_node small_library "a" (new_ring 2))
        (add_node-IsBalanced small_library "a" (new_ring 2) (new_ring-IsBalanced 2)).0).0).0

b_named : ◌≢◌ {A = String} "b" ""
b_named e = true-ne-false (ap (λ (s : String). s == "b") e)

-- "b" as it is added again, and heard of twice.
abbrev revived : Membership
revived =
    heartbeats small_library "b" ((102, "b:1") ∷ (103, "b:1") ∷ [])
      (add_node small_library 101 "b" "b:1" deserted)

add_node-dead_off_ring_example :
    (is_alive "b" revived ≡ true)
    × (has_node revived.ring "b" ≡ false)
    × (get_node small_library "k" revived.ring ≢ some "b")
add_node-dead_off_ring_example =
    add_node-dead_off_ring small_library 101 "b" "b:1" "k" deserted dead_b
      ((102, "b:1") ∷ (103, "b:1") ∷ []) deserted-InSync deserted-IsBalanced b_named dead_b_listed
      refl

still_ten : deserted.failure_timeout ≡ 10
unfolding detect_failures add_node new_membership lookup insert
still_ten = refl

is_alive-handle_heartbeat_example :
    (is_alive "b" (handle_heartbeat small_library 101 "b" "b:1" deserted).1 ≡ true)
    × (is_alive "b" (detect_failures 111 (handle_heartbeat small_library 101 "b" "b:1" deserted).1)
        ≡ true)
is_alive-handle_heartbeat_example =
    is_alive-handle_heartbeat small_library 101 111 "b" "b:1" deserted (omega (arith, still_ten))
