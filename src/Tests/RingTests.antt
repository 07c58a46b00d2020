-- ===== src/Tests/RingTests.antt =====
-- internal/cluster/ring.go on the ring of two nodes.
use hedgehog_db_opus.Base.{
  String, List, Option, some, true, false, ◌≡◌, ◌≢◌, refl, arith, if◌then◌else◌,
}
use hedgehog_db_opus.Base.{sym, ap, ◌∙◌, ◌==◌, length, get_elem?, string_keys, nat_keys}
use hedgehog_db_opus.Base.GoMap.{value_or, lookup, insert}
use hedgehog_db_opus.Base.Search.{first_true}
use hedgehog_db_opus.Cluster.Ring.{
  Ring, at_least, new_ring, has_node, add_node, remove_node, get_node, get_nodes,
}
use hedgehog_db_opus.Cluster.Ring.Owner.{owner_name, get_node-owner, get_node-remove_node}
use hedgehog_db_opus.Cluster.Ring.Sorted.{owner}
use hedgehog_db_opus.Cluster.Ring.Preference.{IsPreferenceList, get_nodes-IsPreferenceList}
use hedgehog_db_opus.Cluster.Ring.Invariant.{
  IsBalanced, vnodes_of, new_ring-IsBalanced, add_node-IsBalanced, remove_node-IsBalanced,
}
use hedgehog_db_opus.Tests.Fixtures.{small_library, two_nodes, true-ne-false}

abbrev one_node : Ring
one_node = add_node small_library "a" (new_ring 2)

one_node-IsBalanced : IsBalanced one_node
one_node-IsBalanced = (add_node-IsBalanced small_library "a" (new_ring 2) (new_ring-IsBalanced 2)).0

two_nodes-IsBalanced : IsBalanced two_nodes
two_nodes-IsBalanced = (add_node-IsBalanced small_library "b" one_node one_node-IsBalanced).0

key_at_b : get_node small_library "k" two_nodes ≡ some "b"
unfolding get_node add_node new_ring lookup insert first_true at_least
key_at_b = refl

not_both : (o : Option String) → o ≡ some "b" → o ≢ some "a"
not_both o p q = true-ne-false (ap (λ (x : Option String). value_or "" x == "b") (sym p ∙ q))

key_not_at_a : get_node small_library "k" two_nodes ≢ some "a"
key_not_at_a = not_both (get_node small_library "k" two_nodes) key_at_b

two_nodes_size : length two_nodes.vnodes ≡ 4
unfolding add_node new_ring lookup insert
two_nodes_size = refl

get_nodes-IsPreferenceList_example :
    (result : List String) × (get_nodes small_library "k" 2 two_nodes ≡ some result)
    × IsPreferenceList two_nodes.vnodes (small_library.hash_key "k") 2 result
    × (get_node small_library "k" two_nodes ≡ get_elem? result 0)
get_nodes-IsPreferenceList_example =
    get_nodes-IsPreferenceList small_library "k" 2 two_nodes two_nodes-IsBalanced.sorted
      (omega (arith, two_nodes_size)) (omega arith)

get_node-remove_node_example :
    get_node small_library "k" (remove_node "a" two_nodes) ≡ get_node small_library "k" two_nodes
get_node-remove_node_example =
    get_node-remove_node small_library "k" "a" two_nodes two_nodes-IsBalanced.sorted key_not_at_a

get_node-owner_example :
    get_node small_library "k" two_nodes
    ≡ some (owner_name (owner (small_library.hash_key "k") two_nodes.vnodes))
get_node-owner_example = get_node-owner small_library "k" two_nodes two_nodes-IsBalanced.sorted

add_node-IsBalanced_example :
    IsBalanced (add_node small_library "b" one_node)
    × ((add_node small_library "b" one_node).vnode_count ≡ one_node.vnode_count)
    × ((j : String)
        → has_node (add_node small_library "b" one_node) j
          ≡ (if "b" == j then true else has_node one_node j))
    × ((j : String)
        → vnodes_of j (add_node small_library "b" one_node).vnodes
          ≡ (if "b" == j then one_node.vnode_count else vnodes_of j one_node.vnodes))
add_node-IsBalanced_example = add_node-IsBalanced small_library "b" one_node one_node-IsBalanced

remove_node-IsBalanced_example :
    IsBalanced (remove_node "a" two_nodes)
    × ((remove_node "a" two_nodes).vnode_count ≡ two_nodes.vnode_count)
    × ((j : String)
        → has_node (remove_node "a" two_nodes) j
          ≡ (if "a" == j then false else has_node two_nodes j))
    × ((j : String)
        → vnodes_of j (remove_node "a" two_nodes).vnodes
          ≡ (if "a" == j then 0 else vnodes_of j two_nodes.vnodes))
remove_node-IsBalanced_example = remove_node-IsBalanced "a" two_nodes two_nodes-IsBalanced
