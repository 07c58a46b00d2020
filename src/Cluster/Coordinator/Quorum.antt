-- ===== src/Cluster/Coordinator/Quorum.antt =====
-- coordinator.go: when a quorum request succeeds, and what a quorum read returns.
use mathlib.Core.List.{Perm, Permᴰ}
use mathlib.Core.Logic.{∥∥₁_elim}
use native.Mathlib.Nat.{ℕ_set}
use hedgehog_db_opus.Base.{ℕ, zero, suc, ◌+◌, ◌-◌, ◌≤◌, ◌<◌, ◌≡◌, refl, ◌∙◌, inl, inr, arith}
use hedgehog_db_opus.Base.{Option, none, some, List, [], ◌∷◌, String, map}
use hedgehog_db_opus.Base.{leb, if◌then◌else◌, length, get_elem?, Bool-cases, Option-cases}
use hedgehog_db_opus.Cluster.Coordinator.{
  Error, quorum_failed, ReadResult, got, failed, Coordinator, Env, quorum_acks, quorum_reads,
  quorum_read_end, read_at, put_at, delete_at, quorum_read, quorum_write, quorum_delete,
}

-- How many of the nodes acknowledge.
unfoldable pub acks : (String → Option Error) → List String → ℕ
acks at [] = 0
acks at (n ∷ nodes) = let rest = acks at nodes in elim (at n) [ none ↦ suc rest | some _ ↦ rest ]

acks-permᴰ :
    (at : String → Option Error) {xs ys : List String} → Permᴰ xs ys → acks at xs ≡ acks at ys
unfolding acks
acks-permᴰ at Permᴰ.nil = refl
acks-permᴰ at (Permᴰ.cons {a = a} e p) = let ih = acks-permᴰ at p in rw e (ground (arith, ih))
acks-permᴰ at (Permᴰ.swap {a = a} {b = b} {a' = a'} {b' = b'} e f) = rw (e, f) (ground arith)
acks-permᴰ at (Permᴰ.trans p q) = acks-permᴰ at p ∙ acks-permᴰ at q

acks-perm :
    (at : String → Option Error) {xs ys : List String} → Perm xs ys → acks at xs ≡ acks at ys
acks-perm at p = ∥∥₁_elim p (ℕ_set _ _) (acks-permᴰ at)

-- The loop answers by the count of successes, if the quorum is not reached before it starts.
quorum_acks_lem :
    (at : String → Option Error) (quorum count : ℕ) (nodes : List String)
    → count < quorum
    → quorum_acks quorum count (map at nodes) ≡ (
        if leb quorum (count + acks at nodes)
        then none
        else some (quorum_failed (count + acks at nodes) quorum))
unfolding quorum_acks acks
quorum_acks_lem at quorum count [] h = ground arith
quorum_acks_lem at quorum count (n ∷ nodes) h = elim (Option-cases (at n)) [
  | inl e ↦ elim (Bool-cases (leb quorum (count + 1))) [
    | inl t ↦ ground arith
    | inr f ↦
        let ih = quorum_acks_lem at quorum (count + 1) nodes (ground arith) in ground (arith, ih)
  ]
  | inr (x, e) ↦ let ih = quorum_acks_lem at quorum count nodes h in ground (arith, ih)
]

module _ {Doc : Type 0} (env : Env Doc) (c : Coordinator) where
  pub acks_in_order :
      (at : String → Option Error) (nodes : List String)
      → 0 < c.write_quorum
      → Perm (env.arrivals nodes) nodes
      → quorum_acks c.write_quorum 0 (map at (env.arrivals nodes)) ≡ (
          if leb c.write_quorum (acks at nodes)
          then none
          else some (quorum_failed (acks at nodes) c.write_quorum))
  acks_in_order at nodes pos p =
      let l = quorum_acks_lem at c.write_quorum 0 (env.arrivals nodes) pos in
      let e = acks-perm at p in
      let z : 0 + acks at (env.arrivals nodes) ≡ acks at (env.arrivals nodes) = omega arith in
      l ∙ rw (z, e)

  -- In whatever order the answers arrive, a quorum write succeeds exactly when at least
  -- `writeQuorum` of the nodes acknowledge it, and otherwise reports how many did; so does a quorum
  -- delete.
  pub quorum_write-acks :
      (table key : String) (doc : Doc) (nodes : List String)
      → 0 < c.write_quorum
      → Perm (env.arrivals nodes) nodes
      → (quorum_write env c table key doc nodes ≡ (
          if leb c.write_quorum (acks (put_at env c table key doc) nodes)
          then none
          else some (quorum_failed (acks (put_at env c table key doc) nodes) c.write_quorum)))
        × (quorum_delete env c table key nodes ≡ (
            if leb c.write_quorum (acks (delete_at env c table key) nodes)
            then none
            else some (quorum_failed (acks (delete_at env c table key) nodes) c.write_quorum)))
  unfolding quorum_write quorum_delete
  quorum_write-acks table key doc nodes pos p = (
    acks_in_order (put_at env c table key doc) nodes pos p,
    acks_in_order (delete_at env c table key) nodes pos p,
  )

-- The documents of the reads that succeed, in the order of arrival.
unfoldable pub documents : {Doc : Type 0} → List (ReadResult Doc) → List (Option Doc)
documents [] = []
documents (got d ∷ results) = d ∷ documents results
documents (failed e ∷ results) = documents results

abbrev pub last_or {ℓ} : {A : Type ℓ} → A → List A → A
last_or a [] = a
last_or a (x ∷ l) = last_or x l

first_doc : {A : Type 0} (x : A) (l : List A) (i : ℕ) → i ≡ 0 → get_elem? (x ∷ l) i ≡ some x
first_doc x l zero h = refl
first_doc x l (suc i) h = absurd (omega arith)

next_doc :
    {A : Type 0} (x : A) (l : List A) (i j : ℕ) → i ≡ suc j → get_elem? (x ∷ l) i ≡ get_elem? l j
next_doc x l zero j h = absurd (omega arith)
next_doc x l (suc i) j h = let e : i ≡ j = omega arith in rw e

module _ {Doc : Type 0} (quorum : ℕ) where
  quorum_reads_enough :
      (count : ℕ) (last : Option Doc) (results : List (ReadResult Doc))
      → count < quorum
      → quorum ≤ count + length (documents results)
      → (d : Option Doc) × (get_elem? (documents results) (quorum - count - 1) ≡ some d)
        × (quorum_reads quorum count last results ≡ got d)
  unfolding quorum_reads documents
  quorum_reads_enough count last [] h k = absurd (omega arith)
  quorum_reads_enough count last (failed e ∷ results) h k =
      let (d, at, r) = quorum_reads_enough count last results h k in (d, at, ground arith)
  quorum_reads_enough count last (got x ∷ results) h k =
      elim (Bool-cases (leb quorum (count + 1))) [
        | inl t ↦
            (x, first_doc x (documents results) (quorum - count - 1) (ground arith), ground arith)
        | inr f ↦
            let (d, at, r) =
              quorum_reads_enough (count + 1) x results (ground arith) (omega arith) in
            (
              d,
              next_doc x (documents results) (quorum - count - 1) (quorum - (count + 1) - 1)
                    (ground arith)
                  ∙ at,
              ground arith,
            )
      ]

  quorum_reads_short :
      (count : ℕ) (last : Option Doc) (results : List (ReadResult Doc))
      → count + length (documents results) < quorum
      → quorum_reads quorum count last results
        ≡ quorum_read_end quorum
            (count + length (documents results))
            (last_or last (documents results))
  unfolding quorum_reads documents
  quorum_reads_short count last [] h = ground arith
  quorum_reads_short count last (failed e ∷ results) h =
      let ih = quorum_reads_short count last results h in ground (arith, ih)
  quorum_reads_short count last (got x ∷ results) h =
      let ih = quorum_reads_short (count + 1) x results (omega arith) in
      let e : count + 1 + length (documents results) ≡ count + suc (length (documents results)) =
        omega arith in
      ground (arith, ih, e)

quorum_read_end_lem :
    {Doc : Type 0} (quorum count : ℕ) (last : Option Doc)
    → quorum_read_end quorum count last
      ≡ elim last [ none ↦ failed (quorum_failed count quorum) | some d ↦ got (some d) ]
unfolding quorum_read_end
quorum_read_end_lem quorum count none = refl
quorum_read_end_lem quorum count (some d) = refl

module _ {Doc : Type 0} (env : Env Doc) (c : Coordinator) (table key : String)
    (nodes : List String) where
  -- The documents that come back, in order of arrival.
  abbrev pub arrived : List (Option Doc)
  arrived = documents (map (read_at env c table key) (env.arrivals nodes))

  -- A quorum read to which at least `readQuorum` nodes answer returns, of the documents in order of
  -- arrival, the one with which the quorum is reached: the order of arrival decides, not the age of
  -- the document.
  pub quorum_read_reached :
      0 < c.read_quorum
      → c.read_quorum ≤ length arrived
      → (d : Option Doc) × (get_elem? arrived (c.read_quorum - 1) ≡ some d)
        × (quorum_read env c table key nodes ≡ got d)
  unfolding quorum_read
  quorum_read_reached pos h =
      let rs = map (read_at env c table key) (env.arrivals nodes) in
      let (d, at, r) = quorum_reads_enough c.read_quorum 0 none rs pos (omega arith) in
      let e : c.read_quorum - 0 - 1 ≡ c.read_quorum - 1 = omega arith in (d, rw e at at, r)

  -- A quorum read to which fewer than `readQuorum` nodes answer still returns, as a success, the last
  -- document to arrive, if one arrives and the last is not nil; otherwise it fails with
  -- the number of answers and `readQuorum`.
  pub quorum_read_short :
      length arrived < c.read_quorum
      → quorum_read env c table key nodes ≡ elim (last_or none arrived) [
        | none ↦ failed (quorum_failed (length arrived) c.read_quorum)
        | some d ↦ got (some d)
      ]
  unfolding quorum_read
  quorum_read_short h =
      let rs = map (read_at env c table key) (env.arrivals nodes) in
      let z : 0 + length (documents rs) ≡ length (documents rs) = omega arith in
      quorum_reads_short c.read_quorum 0 none rs (omega arith)
      ∙ rw z (quorum_read_end_lem c.read_quorum (length arrived) (last_or none arrived))
