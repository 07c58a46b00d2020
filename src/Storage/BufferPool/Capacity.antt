-- ===== src/Storage/BufferPool/Capacity.antt =====
-- internal/storage/bufferpool.go, `NewBufferPool`: the capacity is shared among the shards.
use hedgehog_db_opus.Base.{
  ℕ, zero, suc, ◌+◌, ◌-◌, ◌*◌, ◌/◌, ◌%◌, ◌≤◌, ◌<◌, ◌≡◌, refl, ap, ◌∙◌, arith, inl, inr,
}
use hedgehog_db_opus.Base.{
  List, [], ◌∷◌, length, All, Bool-cases, ltb, nat_keys, ◌==◌, if◌then◌else◌,
}
use native.Mathlib.Nat.{suc-mul, mod-lt, div-add-mod, div-eq-sub-div}
use hedgehog_db_opus.Storage.BufferPool.{
  Shard, new_shards, new_buffer_pool, default_buffer_pool_size,
}
use hedgehog_db_opus.Storage.BufferPool.{default_shard_count}

unfoldable pub total_cap : List Shard → ℕ
total_cap [] = 0
total_cap (s ∷ shards) = s.cap + total_cap shards

-- How many of the shards from the i-th on have one page more.
new_shards_total :
    (per_shard remainder count i : ℕ)
    → total_cap (new_shards per_shard remainder count i)
      ≡ count * per_shard
        + (if ltb remainder i
            then 0
            else if ltb (remainder - i) count
            then remainder - i
            else count)
unfolding total_cap new_shards
new_shards_total per_shard remainder zero i = ground arith
new_shards_total per_shard remainder (suc count) i =
    let add_comm_lem : count * per_shard + per_shard ≡ per_shard + count * per_shard =
      omega arith in
    let step : suc count * per_shard ≡ per_shard + count * per_shard =
      suc-mul count per_shard ∙ add_comm_lem in
    ground (arith, new_shards_total per_shard remainder count (i + 1), step)

new_shards_positive :
    (per_shard remainder count i : ℕ)
    → 0 < per_shard
    → All (λ (s : Shard). 0 < s.cap) (new_shards per_shard remainder count i)
unfolding new_shards
new_shards_positive per_shard remainder zero i h = tt
new_shards_positive per_shard remainder (suc count) i h =
    (ground (arith, h), new_shards_positive per_shard remainder count (i + 1) h)

length-new_shards :
    (per_shard remainder count i : ℕ) → length (new_shards per_shard remainder count i) ≡ count
unfolding new_shards
length-new_shards per_shard remainder zero i = refl
length-new_shards per_shard remainder (suc count) i =
    ap suc (length-new_shards per_shard remainder count (i + 1))

shared_sum :
    (c n q r : ℕ)
    → total_cap (new_shards q r n 0)
      ≡ n * q + (if ltb r 0 then 0 else if ltb (r - 0) n then r - 0 else n)
    → n * q + r ≡ c
    → r < n
    → total_cap (new_shards q r n 0) ≡ c
shared_sum c n q r total split small = ground (arith, total, split, small)

-- The shards for a capacity `c`, `n` of them.
shared : (c n : ℕ) → 0 < n → n ≤ c → (total_cap (new_shards (c / n) (c % n) n 0) ≡ c) × (0 < c / n)
shared c n h le = (
  shared_sum c n (c / n) (c % n) (new_shards_total (c / n) (c % n) n 0) (div-add-mod c n)
      (mod-lt c h),
  omega (arith, div-eq-sub-div h le),
)

pool :
    (c n : ℕ)
    → 0 < n
    → n ≤ c
    → (total_cap (new_shards (c / n) (c % n) n 0) ≡ c)
      × (length (new_shards (c / n) (c % n) n 0) ≡ n)
      × All (λ (s : Shard). 0 < s.cap) (new_shards (c / n) (c % n) n 0)
pool c n h le =
    let (total, positive) = shared c n h le in
    (total, length-new_shards (c / n) (c % n) n 0, new_shards_positive (c / n) (c % n) n 0 positive)

-- The shards share the capacity, 1024 where none is given, with no page lost. There are 16 of them, or
-- as many as the capacity if it is smaller, and each has room for a page.
pub new_buffer_pool-total_cap :
    (capacity : ℕ)
    → (total_cap (new_buffer_pool capacity)
        ≡ (if capacity == 0 then default_buffer_pool_size else capacity))
      × (length (new_buffer_pool capacity) ≡ (
          if capacity == 0
          then default_shard_count
          else if ltb capacity default_shard_count
          then capacity
          else default_shard_count))
      × All (λ (s : Shard). 0 < s.cap) (new_buffer_pool capacity)
unfolding new_buffer_pool
new_buffer_pool-total_cap capacity = elim (Bool-cases (capacity == 0)) [
  | inl t ↦ rw t (pool 1024 16 (omega arith) (omega arith))
  | inr f ↦ elim (Bool-cases (ltb capacity default_shard_count)) [
    | inl l ↦ rw (f, l) (pool capacity capacity (ground arith) (omega arith))
    | inr g ↦ rw (f, g) (pool capacity 16 (omega arith) (ground arith))
  ]
]
