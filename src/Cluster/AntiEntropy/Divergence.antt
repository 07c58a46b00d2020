-- ===== src/Cluster/AntiEntropy/Divergence.antt =====
-- internal/cluster/antientropy.go, `syncTableWithNode`: what the other node has after a sync.
use hedgehog_db_opus.Base.{
  ℕ, ◌≡◌, refl, ap, sym, ◌∙◌, arith, inl, inr, Bool, true, false, ◌&&◌, Option, none, some,
}
use hedgehog_db_opus.Base.{
  String, List, [], ◌∷◌, Bool-cases, ==_refl, ◌==◌, string_keys, if◌then◌else◌, All,
}
use hedgehog_db_opus.Base.GoMap.{GoMap, lookup, insert, value_or, lookup-insert, Distinct}
use hedgehog_db_opus.Base.GoMap.Entries.{lookup-absent}
use mathlib.Core.Path.{subst}
use hedgehog_db_opus.Cluster.AntiEntropy.{
  Digest, remote_hashes, is_divergent, keys_to_send, send_keys,
}
use hedgehog_db_opus.Cluster.AntiEntropy.{sync_table_with_node}

-- How often a key is in a list, as a test.
unfoldable pub is_in : String → List String → Bool
is_in k [] = false
is_in k (j ∷ keys) = let rest = is_in k keys in if j == k then true else rest

and_cases :
    (a b : Bool) (new old : Option (List ℕ))
    → (if a then if b then new else old else old) ≡ (if a && b then new else old)
and_cases a b new old = ground arith

module _ (d : Digest) where
  is_in_head :
      (j : String) (v : List ℕ) (m : GoMap String (List ℕ)) (hashes : GoMap String String)
      → is_in j (keys_to_send d m hashes) ≡ false
      → is_in j (keys_to_send d ((j, v) ∷ m) hashes)
        ≡ elim (lookup j ((j, v) ∷ m)) [ none ↦ false | some w ↦ is_divergent d j w hashes ]
  unfolding lookup keys_to_send is_in
  is_in_head j v m hashes rest = elim (Bool-cases (is_divergent d j v hashes)) [
    | inl s ↦ rw (s, ==_refl j) (sym s)
    | inr n ↦ rw (n, ==_refl j, rest) (sym n)
  ]

  -- A key is sent exactly when it is local and divergent.
  is_in-keys_to_send :
      (k : String) (m : GoMap String (List ℕ)) (hashes : GoMap String String)
      → Distinct m
      → is_in k (keys_to_send d m hashes)
        ≡ elim (lookup k m) [ none ↦ false | some v ↦ is_divergent d k v hashes ]
  unfolding lookup keys_to_send is_in
  is_in-keys_to_send k [] hashes distinct = refl
  is_in-keys_to_send k ((j, v) ∷ m) hashes (absent, distinct) = elim (Bool-cases (j == k)) [
    | inl t ↦
        subst
          (λ i.
            is_in i (keys_to_send d ((j, v) ∷ m) hashes)
            ≡ elim (lookup i ((j, v) ∷ m)) [ none ↦ false | some w ↦ is_divergent d i w hashes ])
          ((string_keys.test_iff j k).0 t)
          (is_in_head j v m hashes (
            is_in-keys_to_send j m hashes distinct
            ∙ ap
                (λ (o : Option (List ℕ)). elim o [
                  | none ↦ false
                  | some w ↦ is_divergent d j w hashes
                ])
                (lookup-absent m j absent)))
    | inr f ↦
        let rest = is_in-keys_to_send k m hashes distinct in
        elim (Bool-cases (is_divergent d j v hashes)) [
          | inl s ↦ rw (s, f) rest
          | inr n ↦ rw (n, f) rest
        ]
  ]

  sent_cases :
      (rest delivered_k same : Bool) (new old : Option (List ℕ))
      → (if rest
          then if delivered_k then new else if same then if delivered_k then new else old else old
          else if same
          then if delivered_k then new else old
          else old)
        ≡ (if (if same then true else rest) then if delivered_k then new else old else old)
  sent_cases rest delivered_k same new old = ground arith

  lookup_sent :
      (k j : String) (delivered : String → Bool) (m remote : GoMap String (List ℕ))
      → lookup k (if delivered j then insert j (value_or [] (lookup j m)) remote else remote) ≡ (
          if j == k
          then if delivered k then some (value_or [] (lookup k m)) else lookup k remote
          else lookup k remote)
  lookup_sent k j delivered m remote = elim (Bool-cases (j == k)) [
    | inl t ↦
        subst
          (λ i.
            lookup k (if delivered i then insert i (value_or [] (lookup i m)) remote else remote)
            ≡ (if i == k
                then if delivered k then some (value_or [] (lookup k m)) else lookup k remote
                else lookup k remote))
          (sym ((string_keys.test_iff j k).0 t))
          (ground (arith, ==_refl k, lookup-insert k k (value_or [] (lookup k m)) remote))
    | inr f ↦ ground (arith, f, lookup-insert j k (value_or [] (lookup j m)) remote)
  ]

  -- One key more.
  sent :
      (k j : String) (delivered : String → Bool) (m : GoMap String (List ℕ)) (rest : Bool)
      (remote : GoMap String (List ℕ))
      → (if rest
          then if delivered k
            then some (value_or [] (lookup k m))
            else lookup k
                (if delivered j then insert j (value_or [] (lookup j m)) remote else remote)
          else lookup k
              (if delivered j then insert j (value_or [] (lookup j m)) remote else remote))
        ≡ (if (if j == k then true else rest)
            then if delivered k then some (value_or [] (lookup k m)) else lookup k remote
            else lookup k remote)
  sent k j delivered m rest remote =
      rw (lookup_sent k j delivered m remote)
        (sent_cases rest (delivered k) (j == k) (some (value_or [] (lookup k m))) (lookup k remote))

  -- What the other node has after keys are sent that are read back as they are.
  lookup-send_keys :
      (k : String) (read_back : String → String) (delivered : String → Bool)
      (m : GoMap String (List ℕ)) (keys : List String) (remote : GoMap String (List ℕ))
      → All (λ j. read_back j ≡ j) keys
      → lookup k (send_keys d read_back delivered m keys remote) ≡ (
          if is_in k keys
          then if delivered k then some (value_or [] (lookup k m)) else lookup k remote
          else lookup k remote)
  unfolding send_keys is_in
  lookup-send_keys k read_back delivered m [] remote plain = refl
  lookup-send_keys k read_back delivered m (j ∷ keys) remote (here, plain) =
      ap
        (λ i. lookup k (
          send_keys d read_back delivered m keys
            (if delivered j then insert i (value_or [] (lookup j m)) remote else remote)))
        here
      ∙ lookup-send_keys k read_back delivered m keys
          (if delivered j then insert j (value_or [] (lookup j m)) remote else remote) plain
      ∙ sent k j delivered m (is_in k keys) remote

  -- After a sync with a node every local key has there the local document, unless its put is not
  -- delivered, or the documents had one hash before; all other documents of the node are as before.
  -- The keys that are sent are read back from the URL as they are, as keys are that need no
  -- escaping, and the sort keeps which keys there are.
  pub lookup-sync_table_with_node :
      (sort : List String → List String) (read_back : String → String) (delivered : String → Bool)
      (local remote : GoMap String (List ℕ)) (k : String)
      → Distinct local
      → ((i : String) (keys : List String) → is_in i (sort keys) ≡ is_in i keys)
      → All (λ j. read_back j ≡ j) (sort (keys_to_send d local (remote_hashes d remote)))
      → lookup k (sync_table_with_node d sort read_back delivered local remote)
        ≡ elim (lookup k local) [
          | none ↦ lookup k remote
          | some v ↦
              if is_divergent d k v (remote_hashes d remote) && delivered k
              then some v
              else lookup k remote
        ]
  unfolding sync_table_with_node
  lookup-sync_table_with_node sort read_back delivered local remote k distinct sorted plain =
      lookup-send_keys k read_back delivered local
        (sort (keys_to_send d local (remote_hashes d remote))) remote plain
      ∙ rw
          (
            sorted k (keys_to_send d local (remote_hashes d remote)),
            is_in-keys_to_send k local (remote_hashes d remote) distinct,
          )
          (result (lookup k local))
    where
      result :
          (o : Option (List ℕ))
          → (if elim o [ none ↦ false | some v ↦ is_divergent d k v (remote_hashes d remote) ]
              then if delivered k then some (value_or [] o) else lookup k remote
              else lookup k remote)
            ≡ elim o [
              | none ↦ lookup k remote
              | some v ↦
                  if is_divergent d k v (remote_hashes d remote) && delivered k
                  then some v
                  else lookup k remote
            ]
      result none = refl
      result (some v) =
          and_cases (is_divergent d k v (remote_hashes d remote)) (delivered k) (some v)
            (lookup k remote)
