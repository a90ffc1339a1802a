-- ===== src/Store/Removals.antt =====
-- After an operation of the Store that removes a connector, the connector is gone.
use connectorhost.Common.{
  ◌≡◌, refl, sym, ap, ◌∙◌, inl, inr, String, none, arith, Result, ok, err, Result-cases, subst,
}
use connectorhost.Dict.{lookup, delete, lookup-delete_self}
use connectorhost.Protocol.{Protocol}
use connectorhost.Record.{validate_installation_id, next_mutation_revision}
use connectorhost.Store.{State, Store, WriteOutcome, commit, Plan}
use connectorhost.Store.Plans.{
  connector, copy_if_valid, remove_remote_connector, remove_local_connector,
}
use connectorhost.Store.Commit.{commit_durable}

module _ (p : Protocol) where
  open p use {Manifest}

  copied-none : (r : Result (Unit {0})) → copy_if_valid p r none ≡ none
  unfolding copy_if_valid
  copied-none (err e) = refl
  copied-none (ok t) = refl

  pub connector-lookup :
      (st : State Manifest) (id : String)
      → lookup id st.connectors ≡ none
      → connector p st id ≡ none
  unfolding connector
  connector-lookup st id e =
      ap (copy_if_valid p (validate_installation_id id)) e
      ∙ copied-none (validate_installation_id id)

  pub remove_remote_lem :
      (id : String) (st next : State Manifest)
      → remove_remote_connector p id st ≡ ok (next, tt)
      → next.connectors ≡ delete id st.connectors
  unfolding remove_remote_connector
  remove_remote_lem id st next e = elim (Result-cases (validate_installation_id id)) [
    | inl (u, v) ↦ ground (arith, v)
    | inr (x, v) ↦ ground (arith, v)
  ]

  remove_local_lem :
      (id : String) (st next : State Manifest)
      → remove_local_connector p id st ≡ ok (next, tt)
      → next.connectors ≡ delete id st.connectors
  unfolding remove_local_connector
  remove_local_lem id st next e = elim (Result-cases (validate_installation_id id)) [
    | inr (x, v) ↦ absurd (ground (arith, v))
    | inl (u, v) ↦ elim (Result-cases (next_mutation_revision st.mutation_revision)) [
      | inr (x, n) ↦ absurd (ground (arith, v, n))
      | inl (k, n) ↦ ground (arith, v, n)
    ]
  ]

  deleted-none :
      (id : String) (s : Store Manifest) (plan : Plan p) (w : WriteOutcome)
      → ((next : State Manifest)
          → plan s.state ≡ ok (next, tt)
          → next.connectors ≡ delete id s.state.connectors)
      → (commit p s (plan s.state) w).1 ≡ ok tt
      → connector p (commit p s (plan s.state) w).0.state id ≡ none
  deleted-none id s plan w f e =
      let (next, planned, same) = commit_durable p s (plan s.state) w tt e in
      subst (λ (x : Store Manifest). connector p x.state id ≡ none) (sym same)
        (connector-lookup next id
          (ap (lookup id) (f next planned) ∙ lookup-delete_self id s.state.connectors))

  pub removed-none :
      (id : String) (s : Store Manifest) (w : WriteOutcome)
      → (commit p s (remove_remote_connector p id s.state) w).1 ≡ ok tt
      → connector p (commit p s (remove_remote_connector p id s.state) w).0.state id ≡ none
  removed-none id s w e =
      deleted-none id s (remove_remote_connector p id) w (remove_remote_lem id s.state) e

  pub removed_locally-none :
      (id : String) (s : Store Manifest) (w : WriteOutcome)
      → (commit p s (remove_local_connector p id s.state) w).1 ≡ ok tt
      → connector p (commit p s (remove_local_connector p id s.state) w).0.state id ≡ none
  removed_locally-none id s w e =
      deleted-none id s (remove_local_connector p id) w (remove_local_lem id s.state) e
