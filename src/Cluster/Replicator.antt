-- ===== src/Cluster/Replicator.antt =====
-- internal/cluster/replication.go, `Replicator`: writes and deletes sent to the other replicas, the
-- hints kept for those that cannot be reached, and their replay. The HTTP client is a parameter:
-- the answer to the i-th request of a call, so that equal requests may be answered differently.
-- A request is a record of its parts: the URL, into which the source puts table and key unescaped, so
-- that the receiver may read others, and the encoding of the body are not modelled, nor are metrics
-- and logging.
pub mod Delivery
pub mod Replay
use hedgehog_db_opus.Base.{
  zero, suc, ℕ, ◌+◌, Bool, true, false, Option, none, some, List, [], ◌∷◌, ◌++◌,
}
use hedgehog_db_opus.Base.{String, string_keys, nat_keys, ◌==◌, if◌then◌else◌, length, not}
use hedgehog_db_opus.Cluster.Membership.{Membership, is_alive, get_node_addr}
use hedgehog_db_opus.Cluster.Handoff.{
  Op, put, delete_op, new_hinted_handoff, Hint, Handoff, add_hint, drain_n, drain_hints, node_ids,
}

pub record Request (Doc : Type 0) : Type 0 where
  pub addr : String
  pub table_name : String
  pub key : String
  pub op : Op
  pub doc : Option Doc

-- What the client gets back: a transport error, or a response with a status.
pub data Answer : Type 0 where
  transport_error : Answer
  response : ℕ → Answer

abbrev pub status_ok : ℕ
status_ok = 200

abbrev pub acknowledged : Answer → Bool
acknowledged transport_error = false
acknowledged (response status) = status == status_ok

abbrev pub replay_batch_size : ℕ
replay_batch_size = 500

-- The requests of a call with their answers, the oldest first, and the hints.
pub record State (Doc : Type 0) : Type 0 where
  pub sent : List (Request Doc × Answer)
  pub hints : Handoff Doc

-- The request that carries a hint, or the write that would become one.
-- `NewReplicator`
abbrev pub new_replicator : {Doc : Type 0} → State Doc
new_replicator = record { sent = []; hints = new_hinted_handoff }

abbrev pub request_for : {Doc : Type 0} → Membership → String → Hint Doc → Request Doc
request_for m node_id h = record {
  addr = get_node_addr node_id m;
  table_name = h.table_name;
  key = h.key;
  op = h.op;
  doc = h.doc;
}

module _ {Doc : Type 0} (answer : ℕ → Request Doc → Answer) (m : Membership) where
  -- One request, and whether it was acknowledged.
  unfoldable pub send : Request Doc → State Doc → Bool × State Doc
  send r st =
      let a = answer (length st.sent) r in
      (acknowledged a, record st { sent = st.sent ++ ((r, a) ∷ []) })

  -- One round of the loop of `ReplicateWrite` or `ReplicateDelete`.
  unfoldable pub replicate_to : Hint Doc → String → State Doc → State Doc
  unfolding send
  replicate_to h node_id st =
      if node_id == m.self_id
      then st
      else if not (is_alive node_id m)
      then record st { hints = add_hint node_id h st.hints }
      else if get_node_addr node_id m == ""
      then st
      else let (delivered, st') = send (request_for m node_id h) st in
        if delivered then st' else record st' { hints = add_hint node_id h st'.hints }

  unfoldable pub replicate_loop : Hint Doc → List String → State Doc → State Doc
  replicate_loop h [] st = st
  replicate_loop h (node_id ∷ nodes) st = replicate_loop h nodes (replicate_to h node_id st)

  unfoldable pub replicate_write : ℕ → String → String → Doc → List String → State Doc → State Doc
  unfolding replicate_loop
  replicate_write now table_name key doc nodes st =
      replicate_loop
        (record { table_name = table_name; key = key; op = put; doc = some doc; timestamp = now })
        nodes st

  unfoldable pub replicate_delete : ℕ → String → String → List String → State Doc → State Doc
  unfolding replicate_loop
  replicate_delete now table_name key nodes st =
      replicate_loop
        (record { table_name = table_name; key = key; op = delete_op; doc = none; timestamp = now })
        nodes st

  -- The loop over drained hints: it stops at the first that fails, and keeps that one alone.
  unfoldable pub replay_loop : String → List (Hint Doc) → State Doc → State Doc
  unfolding send
  replay_loop node_id [] st = st
  replay_loop node_id (h ∷ hints) st =
      let (delivered, st') = send (request_for m node_id h) st in
      let rest = replay_loop node_id hints st' in
      if delivered then rest else record st' { hints = add_hint node_id h st'.hints }

  -- What `ReplayHints` and `ReplayHintsBatch` do with what they drained.
  unfoldable pub replay_drained : String → List (Hint Doc) → State Doc → State Doc
  unfolding replay_loop
  replay_drained node_id hints st =
      if length hints == 0
      then st
      else if get_node_addr node_id m == ""
      then st
      else replay_loop node_id hints st

  unfoldable pub replay_hints : String → State Doc → State Doc
  unfolding replay_drained
  replay_hints node_id st =
      let (hints, hh) = drain_hints node_id st.hints in
      replay_drained node_id hints (record st { hints = hh })

  unfoldable pub replay_hints_batch : String → ℕ → State Doc → State Doc
  unfolding replay_drained
  replay_hints_batch node_id n st =
      let (hints, hh) = drain_n node_id n st.hints in
      replay_drained node_id hints (record st { hints = hh })

  unfoldable pub replay_nodes : List String → State Doc → State Doc
  replay_nodes [] st = st
  replay_nodes (node_id ∷ nodes) st =
      replay_nodes nodes
        (if not (is_alive node_id m) then st else replay_hints_batch node_id replay_batch_size st)

  unfoldable pub replay_all_pending : State Doc → State Doc
  unfolding replay_nodes
  replay_all_pending st = replay_nodes (node_ids st.hints) st

  -- `replayLoop`, with the number of ticks before it is stopped.
  unfoldable pub replay_ticks : ℕ → State Doc → State Doc
  unfolding replay_all_pending
  replay_ticks zero st = st
  replay_ticks (suc n) st = replay_ticks n (replay_all_pending st)
