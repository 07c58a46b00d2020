-- ===== src/Cluster/Coordinator/Started.antt =====
-- coordinator.go: what the goroutines of a quorum write start, and what an eventual write starts.
use mathlib.Core.Path.{subst}
use hedgehog_db_opus.Base.{ℕ, ◌≤◌, ◌≡◌, ◌≢◌, refl, sym, ap, ◌∙◌, ◌⊎◌, inl, inr, arith, leb}
use hedgehog_db_opus.Base.{Bool, true, false, Option, none, some, List, [], ◌∷◌, ◌++◌, String}
use hedgehog_db_opus.Base.{string_keys, nat_keys, ◌==◌, Bool-cases, Option-cases, ==_iff}
use hedgehog_db_opus.Base.{if◌then◌else◌}
use hedgehog_db_opus.Cluster.Membership.{get_node_addr}
use hedgehog_db_opus.Cluster.Replicator.Delivery.{Contains}
use hedgehog_db_opus.Cluster.Coordinator.{
  Error, Action, Coordinator, Env, is_replica, local_run, forward_run, started, route_eventual,
}

Contains-append :
    {A : Type 0} (a : A) (xs ys : List A) → Contains a xs ⊎ Contains a ys → Contains a (xs ++ ys)
Contains-append a [] ys (inl h) = elim h [ ]
Contains-append a [] ys (inr h) = h
Contains-append a (x ∷ xs) ys (inl (inl e)) = inl e
Contains-append a (x ∷ xs) ys (inl (inr h)) = inr (Contains-append a xs ys (inl h))
Contains-append a (x ∷ xs) ys (inr h) = inr (Contains-append a xs ys (inr h))

not-replica :
    (self n : String) (nodes : List String)
    → is_replica self nodes ≡ false
    → Contains n nodes
    → n ≢ self
unfolding is_replica
not-replica self n [] h c = elim c [ ]
not-replica self n (x ∷ nodes) h (inl e) = λ p. ground (arith, ==_iff x self)
not-replica self n (x ∷ nodes) h (inr c) = not-replica self n nodes (ground arith) c

pub some-ne-none : {e : Error} (o : Option Error) → o ≡ some e → o ≢ none
some-ne-none o p q = cc

pub acked-none :
    (quorum count : ℕ) (e : Error)
    → (if leb quorum count then none else some e) ≡ none
    → quorum ≤ count
acked-none quorum count e h = ground arith

pub local_run-Contains :
    {Doc : Type 0} (env : Env Doc) (c : Coordinator) (table : String) (result : Option Error)
    (act : Action Doc)
    → (local_run env c table result act).0 ≡ none
    → Contains act (local_run env c table result act).1
unfolding local_run
local_run-Contains env c table result act h = elim (Bool-cases (env.has_table table)) [
  | inl t ↦ rw t (inl refl)
  | inr f ↦ absurd (ground arith)
]

pub forward_run-Contains :
    {Doc : Type 0} (env : Env Doc) (c : Coordinator) (node_id : String) (act : Action Doc)
    → (forward_run env c node_id act).0 ≡ none
    → Contains act (forward_run env c node_id act).1
unfolding forward_run
forward_run-Contains env c node_id act h =
    elim (Bool-cases (get_node_addr node_id c.membership == "")) [
      | inl t ↦ absurd (ground arith)
      | inr f ↦ rw f (inl refl)
    ]

module _ {Doc : Type 0} (env : Env Doc) (c : Coordinator)
    (run : String → Option Error × List (Action Doc)) (direct replication : Action Doc)
    (node_id : String) where
  -- A node that acknowledges the write was sent it.
  pub started-Contains :
      (nodes : List String)
      → ((run node_id).0 ≡ none → Contains direct (run node_id).1)
      → Contains node_id nodes
      → Contains direct (started env c run nodes) ⊎ ((run node_id).0 ≢ none)
  unfolding started
  started-Contains [] sent mem = elim mem [ ]
  started-Contains (n ∷ nodes) sent (inl e) = elim (Option-cases (run node_id).0) [
    | inl ok ↦ inl (
        Contains-append direct (run n).1 (started env c run nodes)
          (inl (subst (λ m. Contains direct (run m).1) (sym e) (sent ok))))
    | inr (x, bad) ↦ inr (some-ne-none (run node_id).0 bad)
  ]
  started-Contains (n ∷ nodes) sent (inr mem) = elim (started-Contains nodes sent mem) [
    | inl there ↦ inl (Contains-append direct (run n).1 (started env c run nodes) (inr there))
    | inr bad ↦ inr bad
  ]

  -- A node other than this one gets the write from the replicator, this one from itself.
  eventual_covers :
      (replica : Bool) (local forwarded : Option Error × List (Action Doc))
      → c.has_replicator ≡ true
      → (route_eventual env c replica local replication forwarded).0 ≡ none
      → Contains replication (route_eventual env c replica local replication forwarded).1
        × ((replica ≡ false)
            ⊎ ((local.0 ≡ none)
                × (Contains direct local.1
                    → Contains direct
                        (route_eventual env c replica local replication forwarded).1)))
  unfolding route_eventual
  eventual_covers true (none, l) fw r h = rw r (
    Contains-append replication l _ (inr (inl refl)),
    inr (refl, λ k. Contains-append direct l _ (inl k)),
  )
  eventual_covers true (some e, l) fw r h = cc
  eventual_covers false local fw r h = rw r (inl refl, inl refl)

  pub eventual_Covers :
      (nodes : List String) (local forwarded : Option Error × List (Action Doc))
      → c.has_replicator ≡ true
      → (node_id ≡ c.membership.self_id → run node_id ≡ local)
      → ((run node_id).0 ≡ none → Contains direct (run node_id).1)
      → Contains node_id nodes
      → (route_eventual env c (is_replica c.membership.self_id nodes) local replication forwarded).0
        ≡ none
      → (((run node_id).0 ≡ none)
          × Contains direct
              (route_eventual env c
                (is_replica c.membership.self_id nodes)
                local
                replication
                forwarded).1)
        ⊎ ((node_id ≢ c.membership.self_id)
            × Contains replication
                (route_eventual env c
                  (is_replica c.membership.self_id nodes)
                  local
                  replication
                  forwarded).1)
  eventual_Covers nodes local forwarded r same sent mem h =
      let (handed, own) =
        eventual_covers (is_replica c.membership.self_id nodes) local forwarded r h in
      elim (Bool-cases (node_id == c.membership.self_id)) [
        | inr f ↦ inr (λ p. ground (arith, ==_iff node_id c.membership.self_id), handed)
        | inl t ↦
            let here : node_id ≡ c.membership.self_id = (==_iff node_id c.membership.self_id).0 t in
            elim own [
              | inl off ↦ absurd (not-replica c.membership.self_id node_id nodes off mem here)
              | inr (ok, kept) ↦
                  let done : (run node_id).0 ≡ none = ap (λ x. x.0) (same here) ∙ ok in
                  inl (done, kept (subst (λ x. Contains direct x.1) (same here) (sent done)))
            ]
      ]
