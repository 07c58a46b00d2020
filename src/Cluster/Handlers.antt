-- ===== src/Cluster/Handlers.antt =====
-- internal/cluster/coordinator.go, `RegisterInternalRoutes`: what a node answers to the requests that
-- the coordinators and replicators of the others send it. A body that is not JSON is `none`, and the
-- parsing of the query of a URL, which is of net/url, is a parameter. Trace contexts, metrics and
-- the texts of the errors are not modelled.
use Prim.Native.String.{◌++◌}
use hedgehog_db_opus.Base.{ℕ, sym, refl, ◌∙◌, true, ◌||◌, Option, none, some, String, List, []}
use hedgehog_db_opus.Base.{string_keys, nat_keys, ◌==◌, if◌then◌else◌, ◌≡◌, ◌≢◌, ◌↔◌, arith, ==_iff}
use hedgehog_db_opus.Cluster.Ring.{Library}
use hedgehog_db_opus.Cluster.Membership.{Membership, get_node_addr, handle_heartbeat}
use hedgehog_db_opus.Cluster.Coordinator.{got, failed, Response, reply, status_ok}
use hedgehog_db_opus.Cluster.Coordinator.{
  status_not_found, remote_put, remote_delete, Coordinator, Env, forward_get, forward,
}

abbrev pub status_bad_request : ℕ
status_bad_request = 400

abbrev pub status_internal_error : ℕ
status_internal_error = 500

-- The query of the URL of a request, as `fmt.Sprintf` writes it: nothing in it is escaped.
unfoldable pub replicate_query : String → String → String → String
replicate_query table key op = "table=" ++ table ++ "&key=" ++ key ++ "&op=" ++ op

-- The heartbeat endpoint: the status, the nodes to which hints are replayed, and the membership.
unfoldable pub heartbeat_handler :
    Library → ℕ → Option (String × String) → Membership → ℕ × List String × Membership
unfolding handle_heartbeat
heartbeat_handler lib now none m = (status_bad_request, [], m)
heartbeat_handler lib now (some (node_id, addr)) m =
    let (recovered, m') = handle_heartbeat lib now node_id addr m in (status_ok, recovered, m')

-- The node that answers, and `url.URL.Query().Get`: the value that it finds for a name in a query.
module _ {Doc : Type 0} (server : Env Doc) (query_get : String → String → String) where
  -- The switch of `replicateHandler`, on the `op` of a request with its body. The error of a
  -- `DeleteItem` is logged only.
  unfoldable pub replicate_op : String → String → String → Option Doc → Response Doc
  replicate_op table key op body =
      if op == "get"
      then if server.has_table table
        then elim (server.get_item table key) [
          | got doc ↦ reply status_ok (some doc)
          | failed _ ↦ reply status_not_found none
        ]
        else reply status_not_found none
      else if op == "put"
      then elim body [
        | none ↦ reply status_bad_request none
        | some doc ↦
            if server.has_table table
            then elim (server.put_item table key doc) [
              | none ↦ reply status_ok none
              | some _ ↦ reply status_internal_error none
            ]
            else reply status_not_found none
      ]
      else if op == "delete"
      then if server.has_table table
        then elim (server.delete_item table key) [
          | none ↦ reply status_ok none
          | some _ ↦ reply status_ok none
        ]
        else reply status_not_found none
      else reply status_bad_request none

  -- `replicateHandler`, on the query and the body of a request.
  unfoldable pub replicate_handler : String → Option Doc → Response Doc
  unfolding replicate_op
  replicate_handler query body =
      let table = query_get query "table" in
      let key = query_get query "key" in
      if table == "" || key == ""
      then reply status_bad_request none
      else replicate_op table key (query_get query "op") body

  -- The handler finds in the query the table, the key and the op that were put there: so it does if
  -- nothing in them needs escaping.
  abbrev pub IsReadBack : String → String → String → Type 0
  IsReadBack table key op =
      (query_get (replicate_query table key op) "table" ≡ table)
      × (query_get (replicate_query table key op) "key" ≡ key)
      × (query_get (replicate_query table key op) "op" ≡ op)

  asked_for :
      (query : String) (body : Option Doc)
      → query_get query "table" ≢ ""
      → query_get query "key" ≢ ""
      → replicate_handler query body
        ≡ replicate_op (query_get query "table") (query_get query "key") (query_get query "op") body
  unfolding replicate_handler
  asked_for query body ht hk =
      ground (arith, ==_iff (query_get query "table") "", ==_iff (query_get query "key") "")

  replicate_handler_lem :
      (table key op : String) (body : Option Doc)
      → table ≢ ""
      → key ≢ ""
      → IsReadBack table key op
      → replicate_handler (replicate_query table key op) body ≡ replicate_op table key op body
  replicate_handler_lem table key op body ht hk (rt, rk, ro) =
      asked_for (replicate_query table key op) body (λ e. ht (sym rt ∙ e)) (λ e. hk (sym rk ∙ e))
      ∙ rw (rt, rk, ro) refl

  -- A put that is forwarded to a node with an address, and that the node handles, succeeds exactly
  -- when the node has the table and its own put succeeds. Table and key are not empty, and are read
  -- back from the URL as they are.
  pub forward-replicate_handler_put :
      (env : Env Doc) (c : Coordinator) (node_id table key : String) (doc : Doc)
      → table ≢ ""
      → key ≢ ""
      → IsReadBack table key "put"
      → get_node_addr node_id c.membership ≢ ""
      → env.http_do (get_node_addr node_id c.membership) (remote_put node_id table key doc)
        ≡ replicate_handler (replicate_query table key "put") (some doc)
      → (forward env c node_id (remote_put node_id table key doc) ≡ none)
        ↔ ((server.has_table table ≡ true) × (server.put_item table key doc ≡ none))
  unfolding replicate_op forward
  forward-replicate_handler_put env c node_id table key doc ht hk read ha sent = ground (
    arith,
    sent ∙ replicate_handler_lem table key "put" (some doc) ht hk read,
    ==_iff (get_node_addr node_id c.membership) "",
  )

  -- A read that is forwarded to a node with an address, and that the node handles, returns the
  -- document that the node reads, and key-not-found for every error there. Table and key are not
  -- empty, and are read back from the URL as they are.
  pub forward_get-replicate_handler :
      (env : Env Doc) (c : Coordinator) (node_id table key : String) (doc : Option Doc)
      → table ≢ ""
      → key ≢ ""
      → IsReadBack table key "get"
      → get_node_addr node_id c.membership ≢ ""
      → env.http_get (get_node_addr node_id c.membership) table key
        ≡ replicate_handler (replicate_query table key "get") none
      → (forward_get env c node_id table key ≡ got doc)
        ↔ ((server.has_table table ≡ true) × (server.get_item table key ≡ got doc))
  unfolding replicate_op forward_get
  forward_get-replicate_handler env c node_id table key doc ht hk read ha sent = ground (
    arith,
    sent ∙ replicate_handler_lem table key "get" none ht hk read,
    ==_iff (get_node_addr node_id c.membership) "",
  )

  -- A delete that is forwarded to a node with an address, and that the node handles, succeeds exactly
  -- when the node has the table, whether or not its own delete succeeds. Table and key are not empty,
  -- and are read back from the URL as they are.
  pub forward-replicate_handler_delete :
      (env : Env Doc) (c : Coordinator) (node_id table key : String)
      → table ≢ ""
      → key ≢ ""
      → IsReadBack table key "delete"
      → get_node_addr node_id c.membership ≢ ""
      → env.http_do (get_node_addr node_id c.membership) (remote_delete node_id table key)
        ≡ replicate_handler (replicate_query table key "delete") none
      → (forward env c node_id (remote_delete node_id table key) ≡ none)
        ↔ (server.has_table table ≡ true)
  unfolding replicate_op forward
  forward-replicate_handler_delete env c node_id table key ht hk read ha sent = ground (
    arith,
    sent ∙ replicate_handler_lem table key "delete" none ht hk read,
    ==_iff (get_node_addr node_id c.membership) "",
  )
