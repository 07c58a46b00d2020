-- ===== src/Cluster/Coordinator.antt =====
-- internal/cluster/coordinator.go: the routing of reads, writes and deletes. A request to another
-- node or to the local table is an action, and what it returns is a parameter; the goroutines of a
-- quorum request put their results on a channel, and the model takes them in any order of arrival.
-- The result of a route is its error, if any, with the actions that it started, in order.
-- Tracing and the encoding of HTTP requests are not modelled: a request is a record with its table and
-- key, which the source puts unescaped into the URL, and what a node makes of the URL is a parameter.
-- What a node answers to the internal requests is in Handlers.
pub mod Quorum
pub mod Started
pub mod Routes
use hedgehog_db_opus.Base.{ℕ, zero, suc, ◌+◌, Bool, true, false, not, ◌||◌, Option, none, some}
use hedgehog_db_opus.Base.{List, [], ◌∷◌, ◌++◌, String, string_keys, nat_keys, leb, ◌==◌, map}
use hedgehog_db_opus.Base.{if◌then◌else◌, length}
use hedgehog_db_opus.Cluster.Ring.{Library, get_nodes}
use hedgehog_db_opus.Cluster.Membership.{Membership, get_node_addr}

pub data Error : Type 0 where
  no_nodes key_not_found transport decode : Error
  unknown_node : String → Error
  bad_status : ℕ → Error
  table_error : Error
  item_error : Error
  quorum_failed : ℕ → ℕ → Error

-- A document as Go's `map[string]interface{}`, which may be nil: `none`.
pub data ReadResult (Doc : Type 0) : Type 0 where
  got : Option Doc → ReadResult Doc
  failed : Error → ReadResult Doc

-- The answer of the HTTP client: an error of the transport, or a status and the decoded body, `none`
-- where the body cannot be decoded.
pub data Response (Doc : Type 0) : Type 0 where
  transport_error : Response Doc
  reply : ℕ → Option (Option Doc) → Response Doc

abbrev pub status_ok : ℕ
status_ok = 200

abbrev pub status_not_found : ℕ
status_not_found = 404

-- What the coordinator asks of the local table, of another node, or of the replicator.
pub data Action (Doc : Type 0) : Type 0 where
  local_put : String → String → Doc → Action Doc
  local_delete : String → String → Action Doc
  remote_put : String → String → String → Doc → Action Doc
  remote_delete : String → String → String → Action Doc
  replicate_write : String → String → Doc → List String → Action Doc
  replicate_delete : String → String → List String → Action Doc

pub record Coordinator : Type 0 where
  pub membership : Membership
  pub read_quorum : ℕ
  pub write_quorum : ℕ
  pub repl_n : ℕ
  -- `c.replicator != nil`
  pub has_replicator : Bool

-- `for _, n := range nodes { if n == selfID { isReplica = true; break } }`
unfoldable pub new_coordinator : Membership → ℕ → ℕ → ℕ → Coordinator
new_coordinator membership repl_n read_q write_q = record {
  membership = membership;
  read_quorum = read_q;
  write_quorum = write_q;
  repl_n = repl_n;
  has_replicator = false;
}

unfoldable pub set_replicator : Coordinator → Coordinator
set_replicator c = record c { has_replicator = true }

unfoldable pub is_replica : String → List String → Bool
is_replica self_id [] = false
is_replica self_id (n ∷ nodes) = (n == self_id) || is_replica self_id nodes

-- The loop over the results of `quorumWrite` and of `quorumDelete`, `none` for a success.
unfoldable pub quorum_acks : ℕ → ℕ → List (Option Error) → Option Error
quorum_acks quorum count [] = some (quorum_failed count quorum)
quorum_acks quorum count (r ∷ results) =
    let count' : ℕ = elim r [ none ↦ count + 1 | some _ ↦ count ] in
    let rest = quorum_acks quorum count' results in if leb quorum count' then none else rest

-- After the loop of `quorumRead`: the last document, if there is one, although the quorum is short.
unfoldable pub quorum_read_end : {Doc : Type 0} → ℕ → ℕ → Option Doc → ReadResult Doc
quorum_read_end quorum count none = failed (quorum_failed count quorum)
quorum_read_end quorum count (some d) = got (some d)

-- The loop over the results of `quorumRead`, with `successCount` and `lastDoc`.
unfoldable pub quorum_reads :
    {Doc : Type 0} → ℕ → ℕ → Option Doc → List (ReadResult Doc) → ReadResult Doc
unfolding quorum_read_end
quorum_reads quorum count last [] = quorum_read_end quorum count last
quorum_reads quorum count last (got d ∷ results) =
    let rest = quorum_reads quorum (count + 1) d results in
    if leb quorum (count + 1) then got d else rest
quorum_reads quorum count last (failed e ∷ results) =
    let rest = quorum_reads quorum count last results in if leb quorum count then got last else rest

-- What the coordinator calls: the table manager and the tables of this node, the HTTP client, given
-- the address, and the order in which the results of a quorum request arrive.
pub record Env (Doc : Type 0) : Type 0 where
  pub has_table : String → Bool
  pub get_item : String → String → ReadResult Doc
  pub put_item : String → String → Doc → Option Error
  pub delete_item : String → String → Option Error
  pub http_get : String → String → String → Response Doc
  pub http_do : String → Action Doc → Response Doc
  pub arrivals : List String → List String

module _ {Doc : Type 0} (env : Env Doc) (c : Coordinator) where
  local_get : String → String → ReadResult Doc
  local_get table key = if env.has_table table then env.get_item table key else failed table_error

  -- `GetTable` and the write, if there is the table: the error, and what was started.
  unfoldable pub local_run : String → Option Error → Action Doc → Option Error × List (Action Doc)
  local_run table result act =
      if env.has_table table then (result, act ∷ []) else (some table_error, [])

  unfoldable pub forward_get : String → String → String → ReadResult Doc
  forward_get node_id table key =
      let addr = get_node_addr node_id c.membership in
      if addr == "" then failed (unknown_node node_id) else elim (env.http_get addr table key) [
        | transport_error ↦ failed transport
        | reply status body ↦
            if status == status_not_found
            then failed key_not_found
            else if not (status == status_ok)
            then failed (bad_status status)
            else elim body [ none ↦ failed decode | some doc ↦ got doc ]
      ]

  -- `forwardPut` and `forwardDelete`: nothing is sent to a node that has no address.
  unfoldable pub forward_run : String → Action Doc → Option Error × List (Action Doc)
  forward_run node_id act =
      let addr = get_node_addr node_id c.membership in
      if addr == "" then (some (unknown_node node_id), []) else (
        elim (env.http_do addr act) [
          | transport_error ↦ some transport
          | reply status _ ↦ if not (status == status_ok) then some (bad_status status) else none
        ],
        act ∷ [],
      )

  unfoldable pub forward : String → Action Doc → Option Error
  unfolding forward_run
  forward node_id act = (forward_run node_id act).0

  -- What the goroutine of a node puts on the channel.
  unfoldable pub read_at : String → String → String → ReadResult Doc
  unfolding local_get forward_get
  read_at table key node_id =
      if node_id == c.membership.self_id then local_get table key else forward_get node_id table key

  -- The write that brings a put or a delete to a node: to its own table, if the node is this one.
  abbrev pub put_action : String → String → Doc → String → Action Doc
  put_action table key doc node_id =
      if node_id == c.membership.self_id
      then local_put table key doc
      else remote_put node_id table key doc

  abbrev pub delete_action : String → String → String → Action Doc
  delete_action table key node_id =
      if node_id == c.membership.self_id
      then local_delete table key
      else remote_delete node_id table key

  -- The goroutine of a node in a quorum write or delete: what it puts on the channel, and what it
  -- starts.
  unfoldable pub put_run : String → String → Doc → String → Option Error × List (Action Doc)
  unfolding local_run forward_run
  put_run table key doc node_id =
      if node_id == c.membership.self_id
      then local_run table (env.put_item table key doc) (local_put table key doc)
      else forward_run node_id (remote_put node_id table key doc)

  unfoldable pub delete_run : String → String → String → Option Error × List (Action Doc)
  unfolding local_run forward_run
  delete_run table key node_id =
      if node_id == c.membership.self_id
      then local_run table (env.delete_item table key) (local_delete table key)
      else forward_run node_id (remote_delete node_id table key)

  unfoldable pub put_at : String → String → Doc → String → Option Error
  unfolding put_run
  put_at table key doc node_id = (put_run table key doc node_id).0

  unfoldable pub delete_at : String → String → String → Option Error
  unfolding delete_run
  delete_at table key node_id = (delete_run table key node_id).0

  unfoldable pub quorum_read : String → String → List String → ReadResult Doc
  unfolding read_at quorum_reads
  quorum_read table key nodes =
      quorum_reads c.read_quorum 0 none (map (read_at table key) (env.arrivals nodes))

  unfoldable pub quorum_write : String → String → Doc → List String → Option Error
  unfolding put_at quorum_acks
  quorum_write table key doc nodes =
      quorum_acks c.write_quorum 0 (map (put_at table key doc) (env.arrivals nodes))

  unfoldable pub quorum_delete : String → String → List String → Option Error
  unfolding delete_at quorum_acks
  quorum_delete table key nodes =
      quorum_acks c.write_quorum 0 (map (delete_at table key) (env.arrivals nodes))

  -- The loop of an eventual read over the nodes; `none` when no local read succeeds.
  unfoldable pub read_local : String → String → List String → Option (Option Doc)
  unfolding local_get
  read_local table key [] = none
  read_local table key (node_id ∷ nodes) =
      let rest = read_local table key nodes in
      if node_id == c.membership.self_id
      then elim (local_get table key) [ got doc ↦ some doc | failed _ ↦ rest ]
      else rest

  unfoldable pub get_from : String → String → String → List String → ReadResult Doc
  unfolding quorum_read read_local
  get_from table key consistency [] = failed no_nodes
  get_from table key consistency (primary ∷ nodes) =
      if consistency == "strong"
      then quorum_read table key (primary ∷ nodes)
      else elim (read_local table key (primary ∷ nodes)) [
        | some doc ↦ got doc
        | none ↦ forward_get primary table key
      ]

  -- What the goroutines of the nodes start.
  unfoldable pub started :
      (String → Option Error × List (Action Doc)) → List String → List (Action Doc)
  started run [] = []
  started run (node_id ∷ nodes) = (run node_id).1 ++ started run nodes

  -- The eventual branch of `RoutePut` and `RouteDelete`: the local write, the replication, and the
  -- write that is forwarded to the primary, each with its result and what it starts.
  unfoldable pub route_eventual :
      Bool
      → Option Error × List (Action Doc)
      → Action Doc
      → Option Error × List (Action Doc)
      → Option Error × List (Action Doc)
  route_eventual replica local replication forwarded =
      let spawned : List (Action Doc) = if c.has_replicator then replication ∷ [] else [] in
      if replica
      then elim local.0 [ some e ↦ (some e, local.1) | none ↦ (none, local.1 ++ spawned) ]
      else (forwarded.0, spawned ++ forwarded.1)

  unfoldable pub put_to :
      String → String → Doc → String → List String → Option Error × List (Action Doc)
  unfolding quorum_write route_eventual local_run forward_run put_run started is_replica
  put_to table key doc consistency [] = (some no_nodes, [])
  put_to table key doc consistency (primary ∷ nodes) =
      if consistency == "strong"
      then (
        quorum_write table key doc (primary ∷ nodes),
        started (put_run table key doc) (primary ∷ nodes),
      )
      else route_eventual (is_replica c.membership.self_id (primary ∷ nodes))
          (local_run table (env.put_item table key doc) (local_put table key doc))
          (replicate_write table key doc (primary ∷ nodes))
          (forward_run primary (remote_put primary table key doc))

  unfoldable pub delete_to :
      String → String → String → List String → Option Error × List (Action Doc)
  unfolding quorum_delete route_eventual local_run forward_run delete_run started is_replica
  delete_to table key consistency [] = (some no_nodes, [])
  delete_to table key consistency (primary ∷ nodes) =
      if consistency == "strong"
      then (
        quorum_delete table key (primary ∷ nodes),
        started (delete_run table key) (primary ∷ nodes),
      )
      else route_eventual (is_replica c.membership.self_id (primary ∷ nodes))
          (local_run table (env.delete_item table key) (local_delete table key))
          (replicate_delete table key (primary ∷ nodes))
          (forward_run primary (remote_delete primary table key))

  -- `RouteGet`, `RoutePut` and `RouteDelete` whole: the ring that the coordinator was given is that of
  -- the membership. `none` is a panic in `GetNodes`.
  unfoldable pub route_get : Library → String → String → String → Option (ReadResult Doc)
  unfolding get_from
  route_get lib table key consistency = elim (get_nodes lib key c.repl_n c.membership.ring) [
    | none ↦ none
    | some nodes ↦ some (get_from table key consistency nodes)
  ]

  unfoldable pub route_put :
      Library → String → String → Doc → String → Option (Option Error × List (Action Doc))
  unfolding put_to
  route_put lib table key doc consistency = elim (get_nodes lib key c.repl_n c.membership.ring) [
    | none ↦ none
    | some nodes ↦ some (put_to table key doc consistency nodes)
  ]

  unfoldable pub route_delete :
      Library → String → String → String → Option (Option Error × List (Action Doc))
  unfolding delete_to
  route_delete lib table key consistency = elim (get_nodes lib key c.repl_n c.membership.ring) [
    | none ↦ none
    | some nodes ↦ some (delete_to table key consistency nodes)
  ]
