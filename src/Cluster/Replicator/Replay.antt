-- ===== src/Cluster/Replicator/Replay.antt =====
-- replication.go: what the replay of hints delivers, and what it drops.
use mathlib.Core.List.{append_assoc, append-nil}
use hedgehog_db_opus.Base.{ℕ, ◌≡◌, ◌≢◌, refl, ◌∙◌, sym, ap, ◌⊎◌, inl, inr, arith}
use hedgehog_db_opus.Base.{true, false, List, [], ◌∷◌, ◌++◌, String, map}
use hedgehog_db_opus.Base.{string_keys, nat_keys, ◌==◌, length, Bool-cases, ==_iff, ==_refl, All}
use hedgehog_db_opus.Cluster.Membership.{Membership, get_node_addr}
use hedgehog_db_opus.Cluster.Handoff.{
  Hint, pending, add_hint, drain_hints, pending-add_hint, drain_hints_lem,
}
use hedgehog_db_opus.Cluster.Replicator.{
  Request, Answer, acknowledged, State, request_for, replay_loop, replay_drained, replay_hints,
}

abbrev IsAcked : {Doc : Type 0} → Request Doc × Answer → Type 0
IsAcked x = acknowledged x.1 ≡ true

module _ {Doc : Type 0} (answer : ℕ → Request Doc → Answer) (m : Membership)
    (node_id : String) where
  -- All hints were sent and acknowledged.
  pub record IsComplete (hints : List (Hint Doc)) (st st' : State Doc) : Type 0 where
    pub log : List (Request Doc × Answer)
    pub sent_after : st'.sent ≡ st.sent ++ log
    pub requests : map (λ x. x.0) log ≡ map (request_for m node_id) hints
    pub acked : All IsAcked log
    pub kept : st'.hints ≡ st.hints

  -- The hints before one were sent and acknowledged, that one failed and is kept, and those after
  -- it were neither sent nor kept.
  pub record IsCutShort (hints : List (Hint Doc)) (st st' : State Doc) : Type 0 where
    pub front : List (Hint Doc)
    pub failed : Hint Doc
    pub dropped : List (Hint Doc)
    pub split : hints ≡ front ++ (failed ∷ dropped)
    pub log : List (Request Doc × Answer)
    pub bad : Answer
    pub sent_after : st'.sent ≡ st.sent ++ (log ++ ((request_for m node_id failed, bad) ∷ []))
    pub requests : map (λ x. x.0) log ≡ map (request_for m node_id) front
    pub acked : All IsAcked log
    pub refused : acknowledged bad ≡ false
    pub kept : st'.hints ≡ add_hint node_id failed st.hints

  replay_loop_outcome :
      (hints : List (Hint Doc)) (st : State Doc)
      → IsComplete hints st (replay_loop answer m node_id hints st)
        ⊎ IsCutShort hints st (replay_loop answer m node_id hints st)
  unfolding replay_loop
  replay_loop_outcome [] st = inl (record {
    log = [];
    sent_after = sym (append-nil st.sent);
    requests = refl;
    acked = tt;
    kept = refl;
  })
  replay_loop_outcome (h ∷ hints) st =
      let r = request_for m node_id h in
      let a = answer (length st.sent) r in
      let st' = record st { sent = st.sent ++ ((r, a) ∷ []) } in
      elim (Bool-cases (acknowledged a)) [
        | inr f ↦ inr (
            rw (f, replay_loop)
              (record {
                front = [];
                failed = h;
                dropped = hints;
                split = refl;
                log = [];
                bad = a;
                sent_after = refl;
                requests = refl;
                acked = tt;
                refused = f;
                kept = refl;
              }))
        | inl t ↦
            rw (t, replay_loop)
              (elim (replay_loop_outcome hints st') [
                | inl c ↦ inl (record {
                  log = (r, a) ∷ c.log;
                  sent_after = c.sent_after ∙ append_assoc st.sent ((r, a) ∷ []) c.log;
                  requests = ap (◌∷◌ r) c.requests;
                  acked = (t, c.acked);
                  kept = c.kept;
                })
                | inr c ↦ inr (record {
                  front = h ∷ c.front;
                  failed = c.failed;
                  dropped = c.dropped;
                  split = ap (◌∷◌ h) c.split;
                  log = (r, a) ∷ c.log;
                  bad = c.bad;
                  sent_after = c.sent_after ∙ append_assoc st.sent ((r, a) ∷ []) _;
                  requests = ap (◌∷◌ r) c.requests;
                  acked = (t, c.acked);
                  refused = c.refused;
                  kept = c.kept;
                })
              ])
      ]

  -- The state once the hints of the node are taken out.
  abbrev pub drained : State Doc → State Doc
  drained st = record st { hints = (drain_hints node_id st.hints).1 }

  no_pending : (q : List (Hint Doc)) (st : State Doc) → (length q == 0) ≡ true → IsComplete q st st
  no_pending [] st t = record {
    log = [];
    sent_after = sym (append-nil st.sent);
    requests = refl;
    acked = tt;
    kept = refl;
  }
  no_pending (x ∷ q) st t = absurd (ground arith)

  replay_drained_outcome :
      (q : List (Hint Doc)) (st : State Doc)
      → get_node_addr node_id m ≢ ""
      → IsComplete q st (replay_drained answer m node_id q st)
        ⊎ IsCutShort q st (replay_drained answer m node_id q st)
  unfolding replay_drained
  replay_drained_outcome q st known = elim (Bool-cases (length q == 0)) [
    | inl t ↦ rw (t, replay_drained) (inl (no_pending q st t))
    | inr f ↦ elim (Bool-cases (get_node_addr node_id m == "")) [
      | inl t ↦ absurd (known ((==_iff (get_node_addr node_id m) "").0 t))
      | inr g ↦ rw (f, g, replay_drained) (replay_loop_outcome q st)
    ]
  ]

  pending-drained : (st : State Doc) → pending node_id (drained st).hints ≡ []
  pending-drained st =
      let (_, after) = drain_hints_lem node_id node_id st.hints in after ∙ rw (==_refl node_id)

  -- `ReplayHints` for a node whose address is known either sends every hint, in order, has each
  -- acknowledged and leaves no hint for the node; or it stops at the first hint that is not
  -- acknowledged and leaves that one alone. The hints after it are dropped.
  pub replay_hints_outcome :
      (st : State Doc)
      → get_node_addr node_id m ≢ ""
      → (IsComplete (pending node_id st.hints) (drained st) (replay_hints answer m node_id st)
          × (pending node_id (replay_hints answer m node_id st).hints ≡ []))
        ⊎ ((c : IsCutShort
              (pending node_id st.hints)
              (drained st)
              (replay_hints answer m node_id st))
            × (pending node_id (replay_hints answer m node_id st).hints ≡ c.failed ∷ []))
  unfolding replay_hints drain_hints
  replay_hints_outcome st known =
      let empty = pending-drained st in
      elim (replay_drained_outcome (pending node_id st.hints) (drained st) known) [
        | inl c ↦ inl (c, ap (pending node_id) c.kept ∙ empty)
        | inr c ↦ inr (
          c,
          ap (pending node_id) c.kept
              ∙ pending-add_hint node_id node_id c.failed (drained st).hints
              ∙ rw (==_refl node_id, empty),
        )
      ]

  -- Where the address of the node is not known, `ReplayHints` sends nothing and drops every
  -- hint for the node.
  pub replay_hints_unknown_addr :
      (st : State Doc)
      → get_node_addr node_id m ≡ ""
      → ((replay_hints answer m node_id st).sent ≡ st.sent)
        × (pending node_id (replay_hints answer m node_id st).hints ≡ [])
  unfolding replay_hints replay_drained
  replay_hints_unknown_addr st unknown =
      let empty = pending-drained st in
      let t = (==_iff (get_node_addr node_id m) "").1 unknown in (ground arith, ground arith)
