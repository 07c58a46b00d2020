-- ===== src/Tests/CoordinatorTests.antt =====
-- internal/cluster/coordinator.go on the nodes "a" and "b", with a table that takes every item.
use mathlib.Core.List.Perm
use hedgehog_db_opus.Base.{
  ℕ, ◌-◌, ◌<◌, ◌≤◌, String, List, [], ◌∷◌, true, Option, some, none, ◌≡◌, inl, refl, arith, leb,
  nat_keys, string_keys,
}
use hedgehog_db_opus.Base.{if◌then◌else◌, length, get_elem?, map}
use hedgehog_db_opus.Base.GoMap.{lookup, insert}
use hedgehog_db_opus.Base.Search.{first_true}
use hedgehog_db_opus.Cluster.Ring
use hedgehog_db_opus.Cluster.Ring.{get_nodes, new_ring, at_least}
use hedgehog_db_opus.Base.{◌==◌, false}
use hedgehog_db_opus.Cluster.Handlers.{replicate_handler}
use hedgehog_db_opus.Tests.Fixtures.{small_library}
use hedgehog_db_opus.Cluster.Membership.{new_membership, add_node, get_node_addr}
use hedgehog_db_opus.Cluster.Coordinator.{
  Coordinator, Env, got, reply, replicate_write, replicate_delete, local_put, local_delete,
  quorum_failed, failed, remote_put, item_error,
}
use hedgehog_db_opus.Cluster.Coordinator.{
  put_at, delete_at, read_at, put_action, quorum_write, quorum_delete, quorum_read, route_put,
  route_delete, forward_get,
}
use hedgehog_db_opus.Cluster.Coordinator.Quorum.{
  acks, documents, last_or, quorum_write-acks, quorum_read_reached, quorum_read_short,
}
use hedgehog_db_opus.Cluster.Coordinator.Routes.{Covers, route_put-Covers}
use hedgehog_db_opus.Tests.MembershipTests.{pair}

abbrev both : List String
both = "a" ∷ "b" ∷ []

abbrev open_env : Env ℕ
open_env = record {
  has_table = λ t. true;
  get_item = λ t k. got (some 1);
  put_item = λ t k d. none;
  delete_item = λ t k. none;
  http_get = λ a t k. reply 200 (some (some 2));
  http_do = λ a x. reply 200 none;
  arrivals = λ l. l;
}

abbrev strong_pair : Coordinator
strong_pair = record {
  membership = pair;
  read_quorum = 2;
  write_quorum = 2;
  repl_n = 2;
  has_replicator = true;
}

quorum_write-acks_example :
    (quorum_write open_env strong_pair "t" "k" 7 both ≡ (
      if leb 2 (acks (put_at open_env strong_pair "t" "k" 7) both)
      then none
      else some (quorum_failed (acks (put_at open_env strong_pair "t" "k" 7) both) 2)))
    × (quorum_delete open_env strong_pair "t" "k" both ≡ (
        if leb 2 (acks (delete_at open_env strong_pair "t" "k") both)
        then none
        else some (quorum_failed (acks (delete_at open_env strong_pair "t" "k") both) 2)))
quorum_write-acks_example =
    quorum_write-acks open_env strong_pair "t" "k" 7 both (omega arith) (Perm.refl both)

abbrev answers : List String → List (Option ℕ)
answers nodes = documents (map (read_at open_env strong_pair "t" "k") nodes)

two_answers : 2 ≤ length (answers both)
unfolding documents read_at forward_get get_node_addr new_membership add_node lookup insert
two_answers = omega arith

one_answer : length (answers ("a" ∷ [])) < 2
unfolding documents read_at forward_get get_node_addr new_membership add_node lookup insert
one_answer = omega arith

quorum_read_reached_example :
    (d : Option ℕ) × (get_elem? (answers both) (2 - 1) ≡ some d)
    × (quorum_read open_env strong_pair "t" "k" both ≡ got d)
quorum_read_reached_example =
    quorum_read_reached open_env strong_pair "t" "k" both (omega arith) two_answers

quorum_read_short_example :
    quorum_read open_env strong_pair "t" "k" ("a" ∷ []) ≡ elim (last_or none (answers ("a" ∷ []))) [
      | none ↦ failed (quorum_failed (length (answers ("a" ∷ []))) 2)
      | some d ↦ got (some d)
    ]
quorum_read_short_example = quorum_read_short open_env strong_pair "t" "k" ("a" ∷ []) one_answer

-- The nodes for the key, in the order in which the ring gives them.
abbrev replicas : List String
replicas = "b" ∷ "a" ∷ []

replicas_found : get_nodes small_library "k" 2 pair.ring ≡ some replicas
unfolding get_nodes Ring.add_node add_node new_ring new_membership lookup insert first_true at_least
replicas_found = refl

put_succeeds :
    route_put open_env strong_pair small_library "t" "k" 7 "eventual"
    ≡ some (none, local_put "t" "k" 7 ∷ replicate_write "t" "k" 7 replicas ∷ [])
unfolding route_put get_nodes Ring.add_node add_node new_ring new_membership lookup insert
    first_true at_least
put_succeeds = refl

strong_put_succeeds :
    route_put open_env strong_pair small_library "t" "k" 7 "strong"
    ≡ some (none, remote_put "b" "t" "k" 7 ∷ local_put "t" "k" 7 ∷ [])
unfolding route_put get_nodes get_node_addr Ring.add_node add_node new_ring new_membership lookup
    insert first_true at_least
strong_put_succeeds = refl

-- A node without a table, which knows no address: a strong put sends nothing.
strong_put_fails :
    route_put
      (record open_env { has_table = λ t. false })
      (record strong_pair { membership = record pair { nodes = [] } })
      small_library
      "t"
      "k"
      7
      "strong"
    ≡ some (some (quorum_failed 0 2), [])
unfolding route_put get_nodes get_node_addr Ring.add_node add_node new_ring new_membership lookup
    insert first_true at_least
strong_put_fails = refl

delete_succeeds :
    route_delete open_env strong_pair small_library "t" "k" "eventual"
    ≡ some (none, local_delete "t" "k" ∷ replicate_delete "t" "k" replicas ∷ [])
unfolding route_delete get_nodes Ring.add_node add_node new_ring new_membership lookup insert
    first_true at_least
delete_succeeds = refl

route_put-Covers_example :
    Covers strong_pair "strong"
      (put_at open_env strong_pair "t" "k" 7)
      replicas
      "b"
      (put_action open_env strong_pair "t" "k" 7 "b")
      (replicate_write "t" "k" 7 replicas)
      (remote_put "b" "t" "k" 7 ∷ local_put "t" "k" 7 ∷ [])
route_put-Covers_example =
    route_put-Covers open_env strong_pair "t" "k" "strong" small_library 7 replicas "b"
      (remote_put "b" "t" "k" 7 ∷ local_put "t" "k" 7 ∷ []) refl (omega arith) (Perm.refl replicas)
      replicas_found strong_put_succeeds (inl refl)

-- A delete that the table of the node refuses is answered like one that it takes.
delete_refused :
    replicate_handler
      (record open_env { delete_item = λ t k. some item_error })
      (λ query name. if name == "op" then "delete" else "x")
      "table=x&key=x&op=delete"
      none
    ≡ reply 200 none
unfolding replicate_handler
delete_refused = refl
