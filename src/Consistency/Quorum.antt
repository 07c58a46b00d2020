-- ===== src/Consistency/Quorum.antt =====
-- internal/consistency/quorum.go: the quorum parameters and their validation, and what the strong
-- setting is for: a read quorum and a write quorum always share a replica.
use hedgehog_db_opus.Base.{ℕ, suc, ◌+◌, ◌≤◌, ◌<◌, ◌≡◌, ◌↔◌, arith}
use hedgehog_db_opus.Base.{Bool, true, false, ◌||◌, ltb, if◌then◌else◌, List, [], ◌∷◌, length}

pub record QuorumConfig : Type 0 where
  pub n : ℕ
  pub r : ℕ
  pub w : ℕ

pub data QuorumError : Type 0 where
  bad_n bad_r bad_w : QuorumError

pub data Result : Type 0 where
  ok : QuorumConfig → Result
  err : QuorumError → Result

unfoldable pub new_quorum_config : ℕ → ℕ → ℕ → Result
new_quorum_config n r w =
    if ltb n 1
    then err bad_n
    else if ltb r 1 || ltb n r
    then err bad_r
    else if ltb w 1 || ltb n w
    then err bad_w
    else ok (record { n = n; r = r; w = w })

unfoldable pub is_strong : QuorumConfig → Bool
is_strong q = ltb q.n (q.r + q.w)

abbrev pub IsValid : QuorumConfig → Type 0
IsValid q = (1 ≤ q.n) × (1 ≤ q.r) × (q.r ≤ q.n) × (1 ≤ q.w) × (q.w ≤ q.n)

-- The constructor accepts exactly the triples in range, and keeps them unchanged.
pub new_quorum_config-ok_iff :
    (n r w : ℕ) (q : QuorumConfig)
    → (new_quorum_config n r w ≡ ok q) ↔ (IsValid q × (q.n ≡ n) × (q.r ≡ r) × (q.w ≡ w))
unfolding new_quorum_config
new_quorum_config-ok_iff n r w q = (λ h. ground arith, λ h. ground arith)

-- How many of the replicas a set, given by its marks, holds; and how many both hold.
unfoldable pub marked : List Bool → ℕ
marked [] = 0
marked (true ∷ s) = suc (marked s)
marked (false ∷ s) = marked s

pub data Overlap : List Bool → List Bool → Type 0 where
  here : {s t : List Bool} → Overlap (true ∷ s) (true ∷ t)
  there : {a b : Bool} {s t : List Bool} → Overlap s t → Overlap (a ∷ s) (b ∷ t)

pigeonhole : (s t : List Bool) → length s ≡ length t → length s < marked s + marked t → Overlap s t
unfolding marked
pigeonhole [] [] e h = absurd (omega arith)
pigeonhole [] (b ∷ t) e h = absurd (omega arith)
pigeonhole (a ∷ s) [] e h = absurd (omega arith)
pigeonhole (true ∷ s) (true ∷ t) e h = here
pigeonhole (true ∷ s) (false ∷ t) e h = there (pigeonhole s t (omega arith) (omega arith))
pigeonhole (false ∷ s) (true ∷ t) e h = there (pigeonhole s t (omega arith) (omega arith))
pigeonhole (false ∷ s) (false ∷ t) e h = there (pigeonhole s t (omega arith) (omega arith))

-- Under a configuration that `is_strong` accepts, among n replicas any set of at least r and any
-- set of at least w have a replica in common.
pub strong-quorums_meet :
    (q : QuorumConfig) (readers writers : List Bool)
    → is_strong q ≡ true
    → length readers ≡ q.n
    → length writers ≡ q.n
    → q.r ≤ marked readers
    → q.w ≤ marked writers
    → Overlap readers writers
unfolding is_strong
strong-quorums_meet q s t strong hs ht hr hw =
    let big : q.n < q.r + q.w = ground arith in pigeonhole s t (omega arith) (omega arith)
