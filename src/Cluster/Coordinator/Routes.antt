-- ===== src/Cluster/Coordinator/Routes.antt =====
-- coordinator.go: what the routes of writes guarantee when they report success.
use mathlib.Core.Path.{subst}
use mathlib.Core.List.{Perm}
use hedgehog_db_opus.Base.{◌<◌, ◌≤◌, ◌≡◌, ◌≢◌, refl, sym, ap, ◌∙◌, ◌⊎◌, inl, inr, arith}
use hedgehog_db_opus.Base.{true, Option, none, some, List, [], ◌∷◌, String}
use hedgehog_db_opus.Base.{string_keys, nat_keys, ◌==◌, Bool-cases, ==_iff}
use hedgehog_db_opus.Cluster.Ring.{Library, get_nodes}
use hedgehog_db_opus.Cluster.Replicator.Delivery.{Contains}
use hedgehog_db_opus.Cluster.Coordinator.{
  Error, Action, local_put, replicate_write, local_delete, replicate_delete, Coordinator, Env,
  put_action, delete_action, local_run, put_run, delete_run, put_at, delete_at, put_to, delete_to,
  route_put, route_delete, quorum_delete, remote_put, remote_delete,
}
use hedgehog_db_opus.Cluster.Coordinator.Quorum.{acks, acks_in_order, quorum_write-acks}
use hedgehog_db_opus.Cluster.Coordinator.Started.{
  acked-none, local_run-Contains, forward_run-Contains, started-Contains, eventual_Covers,
}

-- What a write that succeeds says of a node for the key. A strong one has the acknowledgements of a
-- quorum, and was sent to the node, or the node is not among those that acknowledge. One that is not
-- strong is done at the node itself, if that is this node, and is else handed to the replicator.
abbrev pub Covers :
    {Doc : Type 0}
    → Coordinator
    → String
    → (String → Option Error)
    → List String
    → String
    → Action Doc
    → Action Doc
    → List (Action Doc)
    → Type 0
Covers c consistency at nodes node_id direct replication trace =
    ((consistency ≡ "strong")
      × (c.write_quorum ≤ acks at nodes)
      × (Contains direct trace ⊎ (at node_id ≢ none)))
    ⊎ ((consistency ≢ "strong")
        × (((at node_id ≡ none) × Contains direct trace)
            ⊎ ((node_id ≢ c.membership.self_id) × Contains replication trace)))

module _ {Doc : Type 0} (env : Env Doc) (c : Coordinator) (table key consistency : String) where
  put_at-Contains :
      (doc : Doc) (node_id : String)
      → put_at env c table key doc node_id ≡ none
      → Contains (put_action env c table key doc node_id) (put_run env c table key doc node_id).1
  unfolding put_at put_run
  put_at-Contains doc node_id h = elim (Bool-cases (node_id == c.membership.self_id)) [
    | inl t ↦ rw t (
        local_run-Contains env c table (env.put_item table key doc) (local_put table key doc)
          (rw (t, put_at, put_run) at h))
    | inr f ↦ rw f (
        forward_run-Contains env c node_id (remote_put node_id table key doc)
          (rw (f, put_at, put_run) at h))
  ]

  delete_at-Contains :
      (node_id : String)
      → delete_at env c table key node_id ≡ none
      → Contains (delete_action env c table key node_id) (delete_run env c table key node_id).1
  unfolding delete_at delete_run
  delete_at-Contains node_id h = elim (Bool-cases (node_id == c.membership.self_id)) [
    | inl t ↦ rw t (
        local_run-Contains env c table (env.delete_item table key) (local_delete table key)
          (rw (t, delete_at, delete_run) at h))
    | inr f ↦ rw f (
        forward_run-Contains env c node_id (remote_delete node_id table key)
          (rw (f, delete_at, delete_run) at h))
  ]

  put_run_self :
      (doc : Doc) (node_id : String)
      → node_id ≡ c.membership.self_id
      → put_run env c table key doc node_id
        ≡ local_run env c table (env.put_item table key doc) (local_put table key doc)
  unfolding put_run
  put_run_self doc node_id e = rw ((==_iff node_id c.membership.self_id).1 e) refl

  delete_run_self :
      (node_id : String)
      → node_id ≡ c.membership.self_id
      → delete_run env c table key node_id
        ≡ local_run env c table (env.delete_item table key) (local_delete table key)
  unfolding delete_run
  delete_run_self node_id e = rw ((==_iff node_id c.membership.self_id).1 e) refl

  put_to-Covers :
      (doc : Doc) (nodes : List String) (node_id : String)
      → c.has_replicator ≡ true
      → 0 < c.write_quorum
      → Perm (env.arrivals nodes) nodes
      → (put_to env c table key doc consistency nodes).0 ≡ none
      → Contains node_id nodes
      → Covers c consistency
          (put_at env c table key doc)
          nodes
          node_id
          (put_action env c table key doc node_id)
          (replicate_write table key doc nodes)
          (put_to env c table key doc consistency nodes).1
  unfolding put_to put_at
  put_to-Covers doc [] node_id r pos p h mem = elim mem [ ]
  put_to-Covers doc (primary ∷ nodes) node_id r pos p h mem =
      let run = put_run env c table key doc in
      let direct = put_action env c table key doc node_id in
      let replication = replicate_write table key doc (primary ∷ nodes) in
      elim (Bool-cases (consistency == "strong")) [
        | inl t ↦
            let counted = (quorum_write-acks env c table key doc (primary ∷ nodes) pos p).0 in
            rw (t, put_to)
              (inl (
                (==_iff consistency "strong").0 t,
                acked-none c.write_quorum _ _ (sym counted ∙ (rw (t, put_to) at h)),
                started-Contains env c run direct replication node_id (primary ∷ nodes)
                    (put_at-Contains doc node_id) mem,
              ))
        | inr f ↦
            rw (f, put_to)
              (inr (
                λ e. ground (arith, ==_iff consistency "strong"),
                eventual_Covers env c run direct replication node_id (primary ∷ nodes) _ _ r
                    (put_run_self doc node_id) (put_at-Contains doc node_id) mem
                    (rw (f, put_to) at h),
              ))
      ]

  delete_to-Covers :
      (nodes : List String) (node_id : String)
      → c.has_replicator ≡ true
      → 0 < c.write_quorum
      → Perm (env.arrivals nodes) nodes
      → (delete_to env c table key consistency nodes).0 ≡ none
      → Contains node_id nodes
      → Covers c consistency
          (delete_at env c table key)
          nodes
          node_id
          (delete_action env c table key node_id)
          (replicate_delete table key nodes)
          (delete_to env c table key consistency nodes).1
  unfolding delete_to delete_at quorum_delete
  delete_to-Covers [] node_id r pos p h mem = elim mem [ ]
  delete_to-Covers (primary ∷ nodes) node_id r pos p h mem =
      let run = delete_run env c table key in
      let direct = delete_action env c table key node_id in
      let replication = replicate_delete table key (primary ∷ nodes) in
      elim (Bool-cases (consistency == "strong")) [
        | inl t ↦
            let counted = acks_in_order env c (delete_at env c table key) (primary ∷ nodes) pos p in
            rw (t, delete_to)
              (inl (
                (==_iff consistency "strong").0 t,
                acked-none c.write_quorum _ _ (sym counted ∙ (rw (t, delete_to) at h)),
                started-Contains env c run direct replication node_id (primary ∷ nodes)
                    (delete_at-Contains node_id) mem,
              ))
        | inr f ↦
            rw (f, delete_to)
              (inr (
                λ e. ground (arith, ==_iff consistency "strong"),
                eventual_Covers env c run direct replication node_id (primary ∷ nodes) _ _ r
                    (delete_run_self node_id) (delete_at-Contains node_id) mem
                    (rw (f, delete_to) at h),
              ))
      ]

  -- When `RoutePut` has a replicator and reports success, then for every node that `GetNodes` gives for
  -- the key: if the put is strong, at least `writeQuorum` of the nodes acknowledged it, and it was
  -- sent to the node, or the node is not one of them; if it is not strong, this node has written it
  -- itself, and for another node it was handed to the replicator. The answers of a strong put
  -- arrive in any order, and `writeQuorum` is not 0.
  pub route_put-Covers :
      (lib : Library) (doc : Doc) (nodes : List String) (node_id : String)
      (acts : List (Action Doc))
      → c.has_replicator ≡ true
      → 0 < c.write_quorum
      → Perm (env.arrivals nodes) nodes
      → get_nodes lib key c.repl_n c.membership.ring ≡ some nodes
      → route_put env c lib table key doc consistency ≡ some (none, acts)
      → Contains node_id nodes
      → Covers c consistency
          (put_at env c table key doc)
          nodes
          node_id
          (put_action env c table key doc node_id)
          (replicate_write table key doc nodes)
          acts
  unfolding route_put
  route_put-Covers lib doc nodes node_id acts r pos p found done mem =
      let whole : put_to env c table key doc consistency nodes ≡ (none, acts) =
        ground (arith, found, done) in
      subst
        (Covers c consistency (put_at env c table key doc) nodes node_id
          (put_action env c table key doc node_id) (replicate_write table key doc nodes))
        (ap (λ x. x.1) whole) (put_to-Covers doc nodes node_id r pos p (ap (λ x. x.0) whole) mem)

  -- When `RouteDelete` has a replicator and reports success, every node that `GetNodes` gives for the
  -- key is covered by the delete as by a put.
  pub route_delete-Covers :
      (lib : Library) (nodes : List String) (node_id : String) (acts : List (Action Doc))
      → c.has_replicator ≡ true
      → 0 < c.write_quorum
      → Perm (env.arrivals nodes) nodes
      → get_nodes lib key c.repl_n c.membership.ring ≡ some nodes
      → route_delete env c lib table key consistency ≡ some (none, acts)
      → Contains node_id nodes
      → Covers c consistency
          (delete_at env c table key)
          nodes
          node_id
          (delete_action env c table key node_id)
          (replicate_delete table key nodes)
          acts
  unfolding route_delete
  route_delete-Covers lib nodes node_id acts r pos p found done mem =
      let whole : delete_to env c table key consistency nodes ≡ (none, acts) =
        ground (arith, found, done) in
      subst
        (Covers c consistency (delete_at env c table key) nodes node_id
          (delete_action env c table key node_id) (replicate_delete table key nodes))
        (ap (λ x. x.1) whole) (delete_to-Covers nodes node_id r pos p (ap (λ x. x.0) whole) mem)
