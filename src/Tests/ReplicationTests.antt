-- ===== src/Tests/ReplicationTests.antt =====
-- internal/cluster/replication.go on the nodes "a" and "b".
use hedgehog_db_opus.Base.{
  ℕ, String, [], ◌∷◌, some, none, ◌≡◌, ◌≢◌, ◌⊎◌, inl, inr, refl, sym, ap, ◌∙◌, ◌==◌, nat_keys,
  string_keys,
}
use hedgehog_db_opus.Base.{if◌then◌else◌}
use hedgehog_db_opus.Base.GoMap.{lookup, insert}
use hedgehog_db_opus.Cluster.Membership.{new_membership, add_node, get_node_addr}
use hedgehog_db_opus.Cluster.Handoff.{
  Hint, Handoff, put, delete_op, pending, drain_hints, drain_hints_lem,
}
use hedgehog_db_opus.Cluster.Replicator
use hedgehog_db_opus.Cluster.Replicator.{Request, Answer, response, State, replay_hints}
use hedgehog_db_opus.Cluster.Replicator.Delivery.{Reached, replicate_Reached}
use hedgehog_db_opus.Cluster.Replicator.Replay.{
  IsComplete, IsCutShort, drained, replay_hints_outcome, replay_hints_unknown_addr,
}
use hedgehog_db_opus.Tests.Fixtures.{true-ne-false}
use hedgehog_db_opus.Tests.MembershipTests.{pair, alone, self_is_a}

-- The first request is acknowledged and no other.
abbrev first_only : ℕ → Request ℕ → Answer
first_only n r = if n == 0 then response 200 else Answer.transport_error

abbrev hint : ℕ → Hint ℕ
hint doc = record { table_name = "t"; key = "k"; op = put; doc = some doc; timestamp = 3 }

abbrev three_hints : Handoff ℕ
three_hints = ("b", hint 1 ∷ hint 2 ∷ hint 3 ∷ []) ∷ ("z", hint 4 ∷ []) ∷ []

abbrev waiting : State ℕ
waiting = record { sent = []; hints = three_hints }

addr_of_b : get_node_addr "b" pair ≡ "b:1"
unfolding get_node_addr new_membership lookup insert add_node
addr_of_b = refl

addr_not_empty : get_node_addr "b" pair ≢ ""
addr_not_empty e = true-ne-false (ap (λ (s : String). s == "b:1") (sym addr_of_b ∙ e))

b_not_self : "b" ≢ pair.self_id
b_not_self e = true-ne-false (ap (λ (s : String). s == "b") (e ∙ self_is_a))

replicate_Reached_example :
    Reached first_only pair
      (record { table_name = "t"; key = "k"; op = put; doc = some 5; timestamp = 9 })
      "b"
      (Replicator.replicate_write first_only pair 9 "t" "k" 5 ("a" ∷ "b" ∷ []) waiting)
    × Reached first_only pair
        (record { table_name = "t"; key = "k"; op = delete_op; doc = none; timestamp = 9 })
        "b"
        (Replicator.replicate_delete first_only pair 9 "t" "k" ("a" ∷ "b" ∷ []) waiting)
replicate_Reached_example =
    replicate_Reached first_only pair 9 "t" "k" 5 ("a" ∷ "b" ∷ []) waiting "b" (inr (inl refl))
      b_not_self addr_not_empty

replay_hints_outcome_example :
    (IsComplete first_only pair "b"
        (pending "b" waiting.hints)
        (drained first_only pair "b" waiting)
        (replay_hints first_only pair "b" waiting)
      × (pending "b" (replay_hints first_only pair "b" waiting).hints ≡ []))
    ⊎ ((c : IsCutShort first_only pair "b"
          (pending "b" waiting.hints)
          (drained first_only pair "b" waiting)
          (replay_hints first_only pair "b" waiting))
        × (pending "b" (replay_hints first_only pair "b" waiting).hints ≡ c.failed ∷ []))
replay_hints_outcome_example = replay_hints_outcome first_only pair "b" waiting addr_not_empty

addr_of_z : get_node_addr "z" alone ≡ ""
unfolding get_node_addr new_membership lookup insert
addr_of_z = refl

replay_hints_unknown_addr_example :
    ((replay_hints first_only alone "z" waiting).sent ≡ waiting.sent)
    × (pending "z" (replay_hints first_only alone "z" waiting).hints ≡ [])
replay_hints_unknown_addr_example = replay_hints_unknown_addr first_only alone "z" waiting addr_of_z

abbrev node_b : String
node_b = "b"

abbrev node_z : String
node_z = "z"

drain_hints_lem_example :
    ((drain_hints node_b three_hints).0 ≡ pending node_b three_hints)
    × (pending node_z (drain_hints node_b three_hints).1
        ≡ (if node_b == node_z then [] else pending node_z three_hints))
drain_hints_lem_example = drain_hints_lem node_b node_z three_hints
