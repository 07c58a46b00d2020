-- ===== src/Tests/ClockTests.antt =====
-- internal/config on its defaults, and internal/consistency on clocks of two nodes and on a quorum of three replicas.
use hedgehog_db_opus.Base.{
  ◌+◌, ◌<◌, ◌≤◌, String, [], ◌∷◌, true, false, ◌≡◌, ◌≢◌, ◌↔◌, refl, arith, inr,
}
use hedgehog_db_opus.Base.{string_keys, ap, ◌==◌}
use hedgehog_db_opus.Tests.Fixtures.{true-ne-false}
use hedgehog_db_opus.Base.GoMap.{lookup}
use hedgehog_db_opus.Consistency.Quorum.{
  QuorumConfig, is_strong, marked, Overlap, strong-quorums_meet,
}
use hedgehog_db_opus.Consistency.VectorClock.{
  VectorClock, counter, compare_clocks, merge, resolve_concurrent, u64,
}
use hedgehog_db_opus.Consistency.VectorClock.Order.{
  IsMap, Causality, HappenedBefore, compare_clocks-Causality,
}
use hedgehog_db_opus.Consistency.VectorClock.Resolve.{
  merge-HappenedBefore_iff, resolve_concurrent_converges,
}

abbrev at_a : VectorClock
at_a = record { clocks = ("a", 1) ∷ []; timestamp = 5 }

abbrev at_both : VectorClock
at_both = record { clocks = ("a", 1) ∷ ("b", 2) ∷ []; timestamp = 6 }

at_a-IsMap : IsMap at_a
at_a-IsMap = (tt, tt)

b_not_a : ◌≢◌ {A = String} "b" "a"
b_not_a e = true-ne-false (ap (λ (s : String). s == "b") e)

at_both-IsMap : IsMap at_both
at_both-IsMap = ((b_not_a, tt), (tt, tt))

compare_clocks-Causality_example : Causality at_a at_both (compare_clocks at_a at_both)
compare_clocks-Causality_example = compare_clocks-Causality at_a at_both at_a-IsMap at_both-IsMap

merge-HappenedBefore_iff_example :
    (HappenedBefore (merge at_a at_both).clocks (("a", 9) ∷ []) ↔ (
      HappenedBefore at_a.clocks (("a", 9) ∷ []) × HappenedBefore at_both.clocks (("a", 9) ∷ [])))
    × ((merge at_a at_both).timestamp ≡ at_a.timestamp)
merge-HappenedBefore_iff_example =
    merge-HappenedBefore_iff at_a at_both (("a", 9) ∷ []) at_both-IsMap

counter_b : counter at_both.clocks "b" + 1 < u64
unfolding lookup
counter_b = omega arith

five_not_six : at_a.timestamp ≢ at_both.timestamp
five_not_six e = omega arith

resolve_concurrent_converges_example :
    resolve_concurrent at_a at_both ≡ resolve_concurrent at_both at_a
resolve_concurrent_converges_example =
    resolve_concurrent_converges at_a at_both at_a-IsMap at_both-IsMap (inr five_not_six)

abbrev two_of_three : QuorumConfig
two_of_three = record { n = 3; r = 2; w = 2 }

two_of_three_strong : is_strong two_of_three ≡ true
unfolding is_strong
two_of_three_strong = refl

two_marked : 2 ≤ marked (true ∷ true ∷ false ∷ [])
unfolding marked
two_marked = omega arith

two_others_marked : 2 ≤ marked (false ∷ true ∷ true ∷ [])
unfolding marked
two_others_marked = omega arith

strong-quorums_meet_example : Overlap (true ∷ true ∷ false ∷ []) (false ∷ true ∷ true ∷ [])
strong-quorums_meet_example =
    strong-quorums_meet two_of_three (true ∷ true ∷ false ∷ []) (false ∷ true ∷ true ∷ [])
      two_of_three_strong refl refl two_marked two_others_marked
