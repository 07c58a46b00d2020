-- ===== src/Consistency/VectorClock/Resolve.antt =====
-- vectorclock.go: `Merge`, `Increment` and `Clone` on counters, and the outcome of
-- `ResolveConcurrent`.
use Prim.Native.Nat.{max}
use hedgehog_db_opus.Base.{ℕ, ◌+◌, ◌<◌, ◌%◌, ◌≡◌, refl, ◌⊎◌, inl, inr, ◌↔◌, ◌≢◌, arith}
use hedgehog_db_opus.Base.{String, string_keys}
use hedgehog_db_opus.Base.{[], ◌∷◌, All, ltb, if◌then◌else◌, Bool-cases, ◌==◌}
use hedgehog_db_opus.Base.{==_iff, map}
use hedgehog_db_opus.Base.GoMap.{lookup, insert, Distinct, lookup-insert, value_or}
use hedgehog_db_opus.Base.GoMap.Entries.{lookup-absent, insert-Distinct}
use hedgehog_db_opus.Consistency.VectorClock.{
  VectorClock, Clocks, counter, increment, merge_loop, merge, clone_loop, clone, compare_clocks,
  resolve_concurrent, Comparison, minus_one, zero_result, one, u64,
}
use hedgehog_db_opus.Consistency.VectorClock.Order.{
  HappenedBefore, IsMap, Causality, compare_clocks-Causality,
}

counter-insert :
    (m : Clocks) (k j : String) (v : ℕ)
    → counter (insert k v m) j ≡ (if k == j then v else counter m j)
counter-insert m k j v = rw lookup-insert (ground arith)

counter-cons :
    (m : Clocks) (k j : String) (v : ℕ)
    → counter ((k, v) ∷ m) j ≡ (if k == j then v else counter m j)
unfolding lookup
counter-cons m k j v = ground arith

counter-absent : (m : Clocks) (k : String) → All (λ j. j ≢ k) (map (λ x. x.0) m) → counter m k ≡ 0
counter-absent m k h = rw (lookup-absent m k h)

merge_step :
    (mine : Clocks) (k j : String) (v : ℕ)
    → counter (if ltb (counter mine k) v then insert k v mine else mine) j
      ≡ (if k == j then max (counter mine j) v else counter mine j)
merge_step mine k j v = ground (arith, counter-insert mine k j v, ==_iff k j)

-- After `Merge` each counter is the larger of the two.
counter-merge_loop :
    (mine other : Clocks) (j : String)
    → Distinct other
    → counter (merge_loop mine other) j ≡ max (counter mine j) (counter other j)
unfolding merge_loop lookup
counter-merge_loop mine [] j d = ground arith
counter-merge_loop mine ((k, v) ∷ other) j d = ground (
  arith,
  counter-merge_loop (if ltb (counter mine k) v then insert k v mine else mine) other j d.1,
  merge_step mine k j v,
  counter-absent other k d.0,
  ==_iff k j,
)

-- `Merge` gives the least upper bound in the causal order: what it gives is at most a clock exactly
-- when both of the clocks merged are. It keeps the wall clock of the receiver.
pub merge-HappenedBefore_iff :
    (vc other : VectorClock) (c : Clocks)
    → IsMap other
    → (HappenedBefore (merge vc other).clocks c
        ↔ (HappenedBefore vc.clocks c × HappenedBefore other.clocks c))
      × ((merge vc other).timestamp ≡ vc.timestamp)
unfolding merge
merge-HappenedBefore_iff vc other c d = (
  (
    λ h. (
      λ k. omega (arith, counter-merge_loop vc.clocks other.clocks k d, h k),
      λ k. omega (arith, counter-merge_loop vc.clocks other.clocks k d, h k),
    ),
    λ (ha, hb) k. omega (arith, counter-merge_loop vc.clocks other.clocks k d, ha k, hb k),
  ),
  refl,
)

merge_loop-Distinct : (mine other : Clocks) → Distinct mine → Distinct (merge_loop mine other)
unfolding merge_loop
merge_loop-Distinct mine [] d = d
merge_loop-Distinct mine ((k, v) ∷ other) d =
    merge_loop-Distinct (if ltb (counter mine k) v then insert k v mine else mine) other
      (elim (Bool-cases (ltb (counter mine k) v)) [
        | inl t ↦ rw t (insert-Distinct k v mine d)
        | inr f ↦ rw f d
      ])

-- Whatever clock is merged in, and whichever counter is raised, the keys stay distinct.
merge-IsMap : (vc other : VectorClock) → IsMap vc → IsMap (merge vc other)
unfolding merge
merge-IsMap vc other d = merge_loop-Distinct vc.clocks other.clocks d

increment-IsMap :
    (now : ℕ) (id : String) (vc : VectorClock) → IsMap vc → IsMap (increment now id vc)
unfolding increment
increment-IsMap now id vc d = insert-Distinct id _ vc.clocks d

one_of_Causality :
    (a b : VectorClock) (c : Comparison)
    → Causality a b c
    → HappenedBefore b.clocks a.clocks
    → (¬ HappenedBefore a.clocks b.clocks)
    → c ≡ one
one_of_Causality a b one c h n = refl
one_of_Causality a b minus_one c h n = absurd (c.1 h)
one_of_Causality a b zero_result (inl c) h n = absurd (n c.0)
one_of_Causality a b zero_result (inr c) h n = absurd (c.1 h)

counter-increment :
    (now : ℕ) (id j : String) (vc : VectorClock)
    → counter (increment now id vc).clocks j
      ≡ (if id == j then (counter vc.clocks id + 1) % u64 else counter vc.clocks j)
unfolding increment
counter-increment now id j vc = counter-insert vc.clocks id j _

-- A clock that has been incremented compares as strictly later than it was, at any node and any
-- wall-clock time, as long as the counter of the node does not wrap.
pub compare_clocks-increment :
    (now : ℕ) (id : String) (vc : VectorClock)
    → IsMap vc
    → counter vc.clocks id + 1 < u64
    → compare_clocks (increment now id vc) vc ≡ one
compare_clocks-increment now id vc d small =
    one_of_Causality (increment now id vc) vc _
      (compare_clocks-Causality (increment now id vc) vc (increment-IsMap now id vc d) d)
      (λ j. ground (arith, counter-increment now id j vc, ==_iff id j))
      (λ h. let hi = h id in ground (arith, counter-increment now id id vc, ==_iff id id))

counter-clone_loop :
    (copy m : Clocks) (j : String)
    → Distinct m
    → counter (clone_loop copy m) j ≡ value_or (counter copy j) (lookup j m)
unfolding clone_loop lookup
counter-clone_loop copy [] j d = refl
counter-clone_loop copy ((k, v) ∷ m) j d = ground (
  arith,
  counter-clone_loop (insert k v copy) m j d.1,
  counter-insert copy k j v,
  lookup-absent m k d.0,
  ==_iff k j,
)

-- `Clone` has the counters and the wall clock of the original.
pub counter-clone :
    (vc : VectorClock) (j : String)
    → IsMap vc
    → (counter (clone vc).clocks j ≡ counter vc.clocks j) × ((clone vc).timestamp ≡ vc.timestamp)
unfolding clone lookup
counter-clone vc j d = (counter-clone_loop [] vc.clocks j d, refl)

-- `Compare` the other way round.
abbrev flip : Comparison → Comparison
flip minus_one = one
flip zero_result = zero_result
flip one = minus_one

flip_of_Causality :
    (a b : VectorClock) (c d : Comparison) → Causality a b c → Causality b a d → d ≡ flip c
flip_of_Causality a b minus_one one h k = refl
flip_of_Causality a b minus_one minus_one h k = absurd (h.1 k.0)
flip_of_Causality a b minus_one zero_result h (inl k) = absurd (h.1 k.0)
flip_of_Causality a b minus_one zero_result h (inr k) = absurd (k.1 h.0)
flip_of_Causality a b one minus_one h k = refl
flip_of_Causality a b one one h k = absurd (h.1 k.0)
flip_of_Causality a b one zero_result h (inl k) = absurd (h.1 k.1)
flip_of_Causality a b one zero_result h (inr k) = absurd (k.0 h.0)
flip_of_Causality a b zero_result zero_result h k = refl
flip_of_Causality a b zero_result minus_one (inl h) k = absurd (k.1 h.0)
flip_of_Causality a b zero_result minus_one (inr h) k = absurd (h.1 k.0)
flip_of_Causality a b zero_result one (inl h) k = absurd (k.1 h.1)
flip_of_Causality a b zero_result one (inr h) k = absurd (h.0 k.0)

-- Two replicas that resolve the same two versions, in either order, keep the same one, unless
-- `Compare` finds them concurrent or equal and their wall clocks agree too.
pub resolve_concurrent_converges :
    (a b : VectorClock)
    → IsMap a
    → IsMap b
    → (compare_clocks a b ≢ zero_result) ⊎ (a.timestamp ≢ b.timestamp)
    → resolve_concurrent a b ≡ resolve_concurrent b a
unfolding resolve_concurrent
resolve_concurrent_converges a b da db h =
    let e =
      flip_of_Causality a b _ _ (compare_clocks-Causality a b da db)
        (compare_clocks-Causality b a db da) in
    ground arith
