-- ===== src/Cluster/Replicator/Delivery.antt =====
-- replication.go: a replicated write reaches each other replica, or waits for it as a hint.
use hedgehog_db_opus.Base.{ℕ, ◌≡◌, ◌≢◌, refl, ◌⊎◌, inl, inr}
use hedgehog_db_opus.Base.{true, not, none, some, List, [], ◌∷◌, ◌++◌, String}
use hedgehog_db_opus.Base.{string_keys, ◌==◌, length, Bool-cases, ==_iff, ==_refl, if_intro}
use hedgehog_db_opus.Cluster.Membership.{Membership, is_alive, get_node_addr}
use hedgehog_db_opus.Cluster.Handoff.{put, delete_op, Hint, pending, add_hint, pending-add_hint}
use hedgehog_db_opus.Cluster.Replicator.{
  Request, Answer, acknowledged, State, request_for, send, replicate_to, replicate_loop,
  replicate_write, replicate_delete,
}

abbrev pub Contains : {A : Type 0} → A → List A → Type 0
Contains a [] = ⊥
Contains a (x ∷ l) = (x ≡ a) ⊎ Contains a l

-- The request was sent and acknowledged.
abbrev pub Delivered : {Doc : Type 0} → Request Doc → List (Request Doc × Answer) → Type 0
Delivered r [] = ⊥
Delivered r (x ∷ l) = ((x.0 ≡ r) × (acknowledged x.1 ≡ true)) ⊎ Delivered r l

Contains-left : {A : Type 0} (a : A) (xs ys : List A) → Contains a xs → Contains a (xs ++ ys)
Contains-left a [] ys h = elim h [ ]
Contains-left a (x ∷ xs) ys (inl e) = inl e
Contains-left a (x ∷ xs) ys (inr h) = inr (Contains-left a xs ys h)

Contains-last : {A : Type 0} (a : A) (xs : List A) → Contains a (xs ++ (a ∷ []))
Contains-last a [] = inl refl
Contains-last a (x ∷ xs) = inr (Contains-last a xs)

module _ {Doc : Type 0} (r : Request Doc) where
  Delivered-left : (xs ys : List (Request Doc × Answer)) → Delivered r xs → Delivered r (xs ++ ys)
  Delivered-left [] ys h = elim h [ ]
  Delivered-left (x ∷ xs) ys (inl e) = inl e
  Delivered-left (x ∷ xs) ys (inr h) = inr (Delivered-left xs ys h)

  Delivered-last :
      (xs : List (Request Doc × Answer)) (a : Answer)
      → acknowledged a ≡ true
      → Delivered r (xs ++ ((r, a) ∷ []))
  Delivered-last [] a h = inl (refl, h)
  Delivered-last (x ∷ xs) a h = inr (Delivered-last xs a h)

module _ {Doc : Type 0} (answer : ℕ → Request Doc → Answer) (m : Membership) (h : Hint Doc) where
  -- The write is at the node, or waits for it.
  abbrev pub Reached : String → State Doc → Type 0
  Reached node_id st =
      Delivered (request_for m node_id h) st.sent ⊎ Contains h (pending node_id st.hints)

  Reached-hint :
      (j node_id : String) (st : State Doc)
      → Reached j st
      → Reached j (record st { hints = add_hint node_id h st.hints })
  Reached-hint j node_id st (inl d) = inl d
  Reached-hint j node_id st (inr c) = inr (
      rw (pending-add_hint node_id j h st.hints) (elim (Bool-cases (node_id == j)) [
        | inl t ↦ rw t (Contains-left h (pending j st.hints) (h ∷ []) c)
        | inr f ↦ rw f c
      ]))

  Reached-send :
      (j : String) (r : Request Doc) (st : State Doc)
      → Reached j st
      → Reached j (send answer m r st).1
  unfolding send
  Reached-send j r st (inl d) = inl (Delivered-left (request_for m j h) st.sent _ d)
  Reached-send j r st (inr c) = inr c

  Reached-failed_send :
      (j node_id : String) (st : State Doc)
      → Reached j st
      → Reached j (record (send answer m (request_for m node_id h) st).1 {
        hints = add_hint node_id h (send answer m (request_for m node_id h) st).1.hints;
      })
  Reached-failed_send j node_id st q =
      Reached-hint j node_id (send answer m (request_for m node_id h) st).1
        (Reached-send j (request_for m node_id h) st q)

  -- What has reached a node stays there.
  Reached-replicate_to :
      (j node_id : String) (st : State Doc)
      → Reached j st
      → Reached j (replicate_to answer m h node_id st)
  unfolding replicate_to
  Reached-replicate_to j node_id st q =
      if_intro (Reached j) (node_id == m.self_id) _ _ (λ _. q)
        λ _.
          if_intro (Reached j) (not (is_alive node_id m)) _ _ (λ _. Reached-hint j node_id st q)
            λ _.
              if_intro (Reached j) (get_node_addr node_id m == "") _ _ (λ _. q)
                λ _.
                  if_intro (Reached j) (send answer m (request_for m node_id h) st).0 _ _
                    (λ _. Reached-send j (request_for m node_id h) st q)
                    (λ _. Reached-failed_send j node_id st q)

  Reached-hinted :
      (node_id : String) (st : State Doc)
      → Reached node_id (record st { hints = add_hint node_id h st.hints })
  Reached-hinted node_id st = inr (
      rw (pending-add_hint node_id node_id h st.hints, ==_refl node_id)
        (Contains-last h (pending node_id st.hints)))

  Reached-sent :
      (node_id : String) (st : State Doc)
      → (send answer m (request_for m node_id h) st).0 ≡ true
      → Reached node_id (send answer m (request_for m node_id h) st).1
  unfolding send
  Reached-sent node_id st ok = inl (
      Delivered-last (request_for m node_id h) st.sent
        (answer (length st.sent) (request_for m node_id h)) ok)

  Reached-self :
      (node_id : String) (st : State Doc)
      → node_id ≢ m.self_id
      → get_node_addr node_id m ≢ ""
      → Reached node_id (replicate_to answer m h node_id st)
  unfolding replicate_to
  Reached-self node_id st ne known =
      if_intro (Reached node_id) (node_id == m.self_id) _ _
        (λ t. absurd (ne ((==_iff node_id m.self_id).0 t)))
        λ _.
          if_intro (Reached node_id) (not (is_alive node_id m)) _ _ (λ _. Reached-hinted node_id st)
            λ _.
              if_intro (Reached node_id) (get_node_addr node_id m == "") _ _
                (λ t. absurd (known ((==_iff (get_node_addr node_id m) "").0 t)))
                λ _.
                  if_intro (Reached node_id) (send answer m (request_for m node_id h) st).0 _ _
                    (λ ok. Reached-sent node_id st ok)
                    (λ _. Reached-hinted node_id (send answer m (request_for m node_id h) st).1)

  Reached-replicate_loop :
      (j : String) (nodes : List String) (st : State Doc)
      → Reached j st
      → Reached j (replicate_loop answer m h nodes st)
  unfolding replicate_loop
  Reached-replicate_loop j [] st q = q
  Reached-replicate_loop j (node_id ∷ nodes) st q =
      Reached-replicate_loop j nodes _ (Reached-replicate_to j node_id st q)

  replicate_loop-Reached :
      (node_id : String) (nodes : List String) (st : State Doc)
      → Contains node_id nodes
      → node_id ≢ m.self_id
      → get_node_addr node_id m ≢ ""
      → Reached node_id (replicate_loop answer m h nodes st)
  unfolding replicate_loop
  replicate_loop-Reached node_id [] st c ne known = elim c [ ]
  replicate_loop-Reached node_id (j ∷ nodes) st (inl e) ne known =
      Reached-replicate_loop node_id nodes _ (rw e (Reached-self node_id st ne known))
  replicate_loop-Reached node_id (j ∷ nodes) st (inr c) ne known =
      replicate_loop-Reached node_id nodes (replicate_to answer m h j st) c ne known

-- `ReplicateWrite` and `ReplicateDelete` lose nothing: every replica in the list other than this
-- node, whose address is known, has acknowledged the write, or a hint for it waits.
pub replicate_Reached :
    {Doc : Type 0} (answer : ℕ → Request Doc → Answer) (m : Membership) (now : ℕ)
    (table_name key : String) (doc : Doc) (nodes : List String) (st : State Doc) (node_id : String)
    → Contains node_id nodes
    → node_id ≢ m.self_id
    → get_node_addr node_id m ≢ ""
    → Reached answer m
        (record { table_name = table_name; key = key; op = put; doc = some doc; timestamp = now })
        node_id
        (replicate_write answer m now table_name key doc nodes st)
      × Reached answer m
          (record {
            table_name = table_name;
            key = key;
            op = delete_op;
            doc = none;
            timestamp = now;
          })
          node_id
          (replicate_delete answer m now table_name key nodes st)
unfolding replicate_write replicate_delete
replicate_Reached answer m now table_name key doc nodes st node_id c ne known = (
  replicate_loop-Reached answer m _ node_id nodes st c ne known,
  replicate_loop-Reached answer m _ node_id nodes st c ne known,
)
