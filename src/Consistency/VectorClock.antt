-- ===== src/Consistency/VectorClock.antt =====
-- internal/consistency/vectorclock.go: vector clocks. `Clocks` is a Go map whose missing keys read
-- as 0, a `uint64` counter wraps at 2 ^ 64, and the wall clock is a number that the caller gives.
-- The mutex is not modelled: every method holds it for its whole body.
pub mod Order
pub mod Resolve
use hedgehog_db_opus.Base.{ℕ, zero, suc, ◌+◌, ◌%◌, ◌^◌, Bool, true, false, not, ◌&&◌, Option}
use hedgehog_db_opus.Base.{none, some, List, [], ◌∷◌, String, string_keys, ltb, if◌then◌else◌}
use hedgehog_db_opus.Base.GoMap.{GoMap, lookup, insert, read}

abbrev pub Clocks : Type 0
Clocks = GoMap String ℕ

pub record VectorClock : Type 0 where
  pub clocks : Clocks
  pub timestamp : ℕ

abbrev pub u64 : ℕ
u64 = 2 ^ 64

-- The counter of a node.
abbrev pub counter : Clocks → String → ℕ
counter m k = read 0 k m

unfoldable pub new_vector_clock : ℕ → VectorClock
new_vector_clock now = record { clocks = []; timestamp = now }

unfoldable pub increment : ℕ → String → VectorClock → VectorClock
increment now node_id vc = record {
  clocks = insert node_id ((counter vc.clocks node_id + 1) % u64) vc.clocks;
  timestamp = now;
}

-- The loop of `Merge` over the entries of the other clock.
unfoldable pub merge_loop : Clocks → Clocks → Clocks
merge_loop mine [] = mine
merge_loop mine ((node_id, other_clock) ∷ rest) =
    merge_loop
      (if ltb (counter mine node_id) other_clock then insert node_id other_clock mine else mine)
      rest

unfoldable pub merge : VectorClock → VectorClock → VectorClock
merge vc other = record vc { clocks = merge_loop vc.clocks other.clocks }

-- `Compare` returns -1, 0 or 1.
pub data Comparison : Type 0 where
  minus_one zero_result one : Comparison

-- The loop over the keys of `vc`, with the flags `vcLess` and `otherLess`.
unfoldable pub compare_own : Clocks → Clocks → Bool → Bool → Bool × Bool
compare_own [] other vc_less other_less = (vc_less, other_less)
compare_own ((node_id, clock) ∷ rest) other vc_less other_less =
    compare_own rest other (if ltb clock (counter other node_id) then true else vc_less)
      (if ltb (counter other node_id) clock then true else other_less)

-- The loop over the keys that only `other` has.
unfoldable pub compare_missing : Clocks → Clocks → Bool → Bool
compare_missing [] own vc_less = vc_less
compare_missing ((node_id, other_clock) ∷ rest) own vc_less =
    compare_missing rest own (elim (lookup node_id own) [
      | none ↦ if ltb 0 other_clock then true else vc_less
      | some _ ↦ vc_less
    ])

unfoldable pub verdict : Bool → Bool → Comparison
verdict vc_less other_less =
    if vc_less && not other_less
    then minus_one
    else if other_less && not vc_less
    then one
    else zero_result

unfoldable pub compare_clocks : VectorClock → VectorClock → Comparison
unfolding compare_own compare_missing verdict
compare_clocks vc other =
    let flags = compare_own vc.clocks other.clocks false false in
    verdict (compare_missing other.clocks vc.clocks flags.0) flags.1

-- The copying loop of `Clone`.
unfoldable pub clone_loop : Clocks → Clocks → Clocks
clone_loop copy [] = copy
clone_loop copy ((k, v) ∷ rest) = clone_loop (insert k v copy) rest

unfoldable pub clone : VectorClock → VectorClock
clone vc = record { clocks = clone_loop [] vc.clocks; timestamp = vc.timestamp }

-- `ResolveConcurrent`: last writer wins among concurrent clocks.
unfoldable pub resolve_concurrent : VectorClock → VectorClock → VectorClock
resolve_concurrent a b = elim (compare_clocks a b) [
  | one ↦ a
  | minus_one ↦ b
  | zero_result ↦ if ltb b.timestamp a.timestamp then a else b
]
