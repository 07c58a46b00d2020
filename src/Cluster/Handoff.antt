-- ===== src/Cluster/Handoff.antt =====
-- internal/cluster/replication.go, `HintedHandoff`: the writes that wait for nodes that were down, a
-- queue for each node. Documents are an opaque type. The mutex is not modelled: every method holds
-- it for its whole body.
use hedgehog_db_opus.Base.{ℕ, zero, suc, ◌≡◌, refl, ap, inl, inr, arith}
use hedgehog_db_opus.Base.{true, Option, List, [], ◌∷◌, ◌++◌, String}
use hedgehog_db_opus.Base.{string_keys, nat_keys, ltb, leb, ◌==◌, if◌then◌else◌, length, take, drop}
use hedgehog_db_opus.Base.{map, Bool-cases, ==_iff}
use hedgehog_db_opus.Base.GoMap.{GoMap, read, insert, delete, lookup-insert, lookup-delete}

-- `Op` is "put" or "delete".
pub data Op : Type 0 where
  put delete_op : Op

pub record Hint (Doc : Type 0) : Type 0 where
  pub table_name : String
  pub key : String
  pub op : Op
  pub doc : Option Doc
  pub timestamp : ℕ

pub record HintSummary : Type 0 where
  pub table_name : String
  pub key : String
  pub op : Op
  pub timestamp : ℕ

abbrev pub summary : {Doc : Type 0} → Hint Doc → HintSummary
summary h = record { table_name = h.table_name; key = h.key; op = h.op; timestamp = h.timestamp }

-- `NewHintedHandoff`
abbrev pub new_hinted_handoff : {Doc : Type 0} → List (String × List (Hint Doc))
new_hinted_handoff = []

abbrev pub Handoff : Type 0 → Type 0
Handoff Doc = GoMap String (List (Hint Doc))

module _ {Doc : Type 0} where
  -- `hh.hints[nodeID]`
  abbrev pub pending : String → Handoff Doc → List (Hint Doc)
  pending node_id hh = read [] node_id hh

  unfoldable pub add_hint : String → Hint Doc → Handoff Doc → Handoff Doc
  add_hint node_id h hh = insert node_id (pending node_id hh ++ (h ∷ [])) hh

  unfoldable pub drain_hints : String → Handoff Doc → List (Hint Doc) × Handoff Doc
  drain_hints node_id hh = (pending node_id hh, delete node_id hh)

  unfoldable pub drain_n : String → ℕ → Handoff Doc → List (Hint Doc) × Handoff Doc
  drain_n node_id n hh =
      let all = pending node_id hh in
      if length all == 0
      then ([], hh)
      else if leb (length all) n
      then (all, delete node_id hh)
      else (take n all, insert node_id (drop n all) hh)

  unfoldable pub pending_count : String → Handoff Doc → ℕ
  pending_count node_id hh = length (pending node_id hh)

  -- The nodes with hints, in the order in which the map is walked.
  unfoldable pub node_ids : Handoff Doc → List String
  node_ids [] = []
  node_ids ((id, hints) ∷ rest) =
      let others = node_ids rest in if ltb 0 (length hints) then id ∷ others else others

  -- `PendingHints`, whose summaries leave out the document.
  unfoldable pub pending_hints : Handoff Doc → GoMap String (List HintSummary)
  pending_hints hh = map (λ x. (x.0, map summary x.1)) hh

  unfoldable pub pending_counts : Handoff Doc → GoMap String ℕ
  pending_counts [] = []
  pending_counts ((id, hints) ∷ rest) = (id, length hints) ∷ pending_counts rest

  pub pending-add_hint :
      (id j : String) (h : Hint Doc) (hh : Handoff Doc)
      → pending j (add_hint id h hh) ≡ (if id == j then pending j hh ++ (h ∷ []) else pending j hh)
  unfolding add_hint
  pending-add_hint id j h hh =
      ground (arith, lookup-insert id j (pending id hh ++ (h ∷ [])) hh, ==_iff id j)

  pending-delete :
      (id j : String) (hh : Handoff Doc)
      → pending j (delete id hh) ≡ (if id == j then [] else pending j hh)
  pending-delete id j hh = ground (arith, lookup-delete id j hh)

  pending-insert :
      (id j : String) (q : List (Hint Doc)) (hh : Handoff Doc)
      → pending j (insert id q hh) ≡ (if id == j then q else pending j hh)
  pending-insert id j q hh = ground (arith, lookup-insert id j q hh)

  take_all :
      (n : ℕ) (q : List (Hint Doc)) → leb (length q) n ≡ true → (take n q ≡ q) × (drop n q ≡ [])
  take_all zero [] h = (refl, refl)
  take_all (suc n) [] h = (refl, refl)
  take_all zero (x ∷ q) h = absurd (ground arith)
  take_all (suc n) (x ∷ q) h = let (t, d) = take_all n q (ground arith) in (ap (◌∷◌ x) t, d)

  no_hints : (q : List (Hint Doc)) → (length q == 0) ≡ true → q ≡ []
  no_hints [] h = refl
  no_hints (x ∷ q) h = absurd (ground arith)

  take_nil : (n : ℕ) → (take {A = Hint Doc} n [] ≡ []) × (drop {A = Hint Doc} n [] ≡ [])
  take_nil zero = (refl, refl)
  take_nil (suc n) = (refl, refl)

  -- `DrainN` hands out the first `n` hints of the node and keeps the rest in order; the queues of
  -- the other nodes stay as they are.
  pub drain_n_lem :
      (id j : String) (n : ℕ) (hh : Handoff Doc)
      → ((drain_n id n hh).0 ≡ take n (pending id hh))
        × (pending j (drain_n id n hh).1
            ≡ (if id == j then drop n (pending id hh) else pending j hh))
  unfolding drain_n
  drain_n_lem id j n hh = elim (Bool-cases (length (pending id hh) == 0)) [
    | inl t ↦
        let e = no_hints (pending id hh) t in
        let (a, b) = take_nil n in (ground arith, ground (arith, ==_iff id j))
    | inr f ↦ elim (Bool-cases (leb (length (pending id hh)) n)) [
      | inl t ↦
          let (a, b) = take_all n (pending id hh) t in
          (ground arith, ground (arith, pending-delete id j hh, ==_iff id j))
      | inr g ↦
          let q = drop n (pending id hh) in
          (ground arith, ground (arith, pending-insert id j q hh, ==_iff id j))
    ]
  ]

  -- `DrainHints` hands out all hints of the node, and leaves none; the queues of the other nodes
  -- stay as they are.
  pub drain_hints_lem :
      (id j : String) (hh : Handoff Doc)
      → ((drain_hints id hh).0 ≡ pending id hh)
        × (pending j (drain_hints id hh).1 ≡ (if id == j then [] else pending j hh))
  unfolding drain_hints
  drain_hints_lem id j hh = (refl, pending-delete id j hh)
