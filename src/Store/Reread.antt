-- ===== src/Store/Reread.antt =====
-- Each part of a consistent state, as the file has it, passes the check that `load` makes of it.
use connectorhost.Common.{
  ℕ, ◌≡◌, refl, sym, ap, ◌∙◌, subst, String, true, Option, none, some, [], ◌∷◌, arith, eq_iff,
  string_eq, All, ok, ◌>>◌, guard, pending_mismatch, upsert_mismatch, Option-cases, inl, inr,
}
use connectorhost.Dict.{Dict, lookup, insert, map_values, lookup-map_values}
use connectorhost.Protocol.{Protocol, IsCodec, IsProtocol, MutationRequest}
use connectorhost.Record.{
  ConnectorRecord, written_record, clone_inventory_mutation, inventory_upsert_mutation,
  inventory_mutations_equal, reread_option, reread_artifact, rollback_artifact,
}
use connectorhost.Contracts.{contract, singleton_from, validate_singleton_contracts}
use connectorhost.Store.{State, is_upsert}
use connectorhost.Store.Invariant.{IsConsistent, RecordOk, Queued, Describes}
use connectorhost.Store.Load.{check_connectors, check_described, check_pending}

singleton_from-map_values :
    {A : Type 0} (contract_of : A → String) (f : A → A)
    → ((r : A) → contract_of (f r) ≡ contract_of r)
    → (seen : Dict String) (m : Dict A)
    → singleton_from contract_of seen (map_values f m) ≡ singleton_from contract_of seen m
unfolding singleton_from map_values
singleton_from-map_values contract_of f h seen [] = refl
singleton_from-map_values contract_of f h seen ((id, r) ∷ m) = ground (
  arith,
  h r,
  singleton_from-map_values contract_of f h seen m,
  singleton_from-map_values contract_of f h (insert (contract_of r) id seen) m,
)

module _ (p : Protocol) where
  open p use {Manifest}

  abbrev pub written_option : Option (ConnectorRecord Manifest) → Option (ConnectorRecord Manifest)
  written_option none = none
  written_option (some r) = some (written_record p r)

  installation_id-written :
      (r : ConnectorRecord Manifest) → (written_record p r).installation_id ≡ r.installation_id
  unfolding written_record
  installation_id-written r = refl

  pub inventory_mutations_equal_refl :
      (l : IsProtocol p) (q : MutationRequest Manifest)
      → p.valid_mutation q ≡ true
      → inventory_mutations_equal p q q ≡ true
  unfolding inventory_mutations_equal
  inventory_mutations_equal_refl l q v = elim (Option-cases (p.mutation_json q)) [
    | inl e ↦ absurd (ground (arith, l.mutation_marshals q v))
    | inr (t, e) ↦ rw e ((eq_iff t t).1 refl)
  ]

  pub check_connectors-written :
      (m : Dict (ConnectorRecord Manifest))
      → All (λ e. RecordOk p e.0 e.1) m
      → check_connectors p (map_values (λ r. some (written_record p r)) m)
        ≡ ok (map_values (written_record p) m)
  unfolding check_connectors map_values
  check_connectors-written [] a = refl
  check_connectors-written ((id, r) ∷ m) a = ground (
    arith,
    check_connectors-written m a.1,
    a.0.keyed,
    (a.0.storable).written,
    installation_id-written r,
    eq_iff id (written_record p r).installation_id,
  )

  module _ (c : IsCodec p) where
    rollback-written :
        (r : ConnectorRecord Manifest) (m : Option Manifest)
        → reread_artifact p (rollback_artifact p (written_record p r) (reread_option p m))
          ≡ reread_artifact p (rollback_artifact p r m)
    unfolding written_record
    rollback-written r none = refl
    rollback-written r (some m) =
        ap (λ x. some (record { manifest = x; measured_digest = r.previous_digest }))
          (c.reread-reread m)

    upsert-written :
        (r : ConnectorRecord Manifest) (n : ℕ)
        → inventory_upsert_mutation p (written_record p r) n ≡ inventory_upsert_mutation p r n
    unfolding inventory_upsert_mutation written_record
    upsert-written r n i = record (inventory_upsert_mutation p r n) {
      active =
          some
            (record { manifest = c.reread-reread r.manifest i; measured_digest = r.active_digest });
      rollback = rollback-written r r.previous_manifest i;
    }

    rollback-twice :
        (r : ConnectorRecord Manifest) (m : Option Manifest)
        → reread_artifact p (reread_artifact p (rollback_artifact p r m))
          ≡ reread_artifact p (rollback_artifact p r m)
    rollback-twice r none = refl
    rollback-twice r (some m) =
        ap (λ x. some (record { manifest = x; measured_digest = r.previous_digest }))
          (c.reread-reread m)

    clone-upsert :
        (r : ConnectorRecord Manifest) (n : ℕ)
        → clone_inventory_mutation p (inventory_upsert_mutation p r n)
          ≡ inventory_upsert_mutation p r n
    unfolding inventory_upsert_mutation
    clone-upsert r n i = record (inventory_upsert_mutation p r n) {
      active =
          some
            (record { manifest = c.reread-reread r.manifest i; measured_digest = r.active_digest });
      rollback = rollback-twice r r.previous_manifest i;
    }

    clone-described :
        (id : String) (q : MutationRequest Manifest) (r : Option (ConnectorRecord Manifest))
        → Describes p id q r
        → clone_inventory_mutation p q ≡ q
    clone-described id q none d =
        subst (λ x. clone_inventory_mutation p x ≡ x) (sym d)
          (unfold clone_inventory_mutation in refl)
    clone-described id q (some r) d =
        subst (λ x. clone_inventory_mutation p x ≡ x) (sym d)
          (unfold clone_inventory_mutation in
            ap
              (λ (u : MutationRequest Manifest). record u {
                management_attempt = q.management_attempt;
              })
              (clone-upsert r q.revision))

    pub contracts-written :
        (m : Dict (ConnectorRecord Manifest))
        → validate_singleton_contracts p (map_values (written_record p) m)
          ≡ validate_singleton_contracts p m
    unfolding validate_singleton_contracts written_record
    contracts-written m =
        singleton_from-map_values (contract p) (written_record p)
          (λ r. c.contract_id-reread r.manifest) [] m

    -- What is queued is written as it is.
    clone-Queued :
        (revision : ℕ) (m : Dict (ConnectorRecord Manifest)) (id : String)
        (q : MutationRequest Manifest)
        → Queued p revision m id q
        → clone_inventory_mutation p q ≡ q
    clone-Queued revision m id q k = clone-described id q (lookup id m) k.describes

    upsert_kind :
        (id : String) (q : MutationRequest Manifest) (r : ConnectorRecord Manifest)
        → Describes p id q (some r)
        → is_upsert q.kind ≡ true
    unfolding inventory_upsert_mutation is_upsert
    upsert_kind id q r d = ap (λ (x : MutationRequest Manifest). is_upsert x.kind) d

    pub described-written :
        (id : String) (q : MutationRequest Manifest) (r : ConnectorRecord Manifest)
        → Describes p id q (some r)
        → record (inventory_upsert_mutation p (written_record p r) q.revision) {
          management_attempt = q.management_attempt;
        }
          ≡ q
    described-written id q r d =
        ap
          (λ (u : MutationRequest Manifest). record u { management_attempt = q.management_attempt })
          (upsert-written r q.revision)
        ∙ sym d

    guards_pass :
        (l : IsProtocol p) (q x : MutationRequest Manifest)
        → is_upsert q.kind ≡ true
        → x ≡ q
        → p.valid_mutation q ≡ true
        → (guard (is_upsert q.kind) pending_mismatch
            >> guard (inventory_mutations_equal p q x) upsert_mismatch)
          ≡ ok tt
    guards_pass l q x u e v =
        subst
          (λ y.
            (guard (is_upsert q.kind) pending_mismatch
              >> guard (inventory_mutations_equal p q y) upsert_mismatch)
            ≡ ok tt)
          (sym e) (rw (u, inventory_mutations_equal_refl l q v) refl)

    check_described-written :
        (l : IsProtocol p) (id : String) (q : MutationRequest Manifest)
        (r : Option (ConnectorRecord Manifest))
        → Describes p id q r
        → p.valid_mutation q ≡ true
        → check_described p q (written_option r) ≡ ok tt
    check_described-written l id q none d v = rw d (unfold check_described is_upsert in refl)
    check_described-written l id q (some r) d v =
        unfold check_described in
        guards_pass l q _ (upsert_kind id q r d) (described-written id q r d) v

    pub lookup-written :
        (id : String) (m : Dict (ConnectorRecord Manifest))
        → lookup id (map_values (written_record p) m) ≡ written_option (lookup id m)
    lookup-written id m = ground (arith, lookup-map_values (written_record p) id m)

    module _ (l : IsProtocol p) (revision : ℕ) (m : Dict (ConnectorRecord Manifest)) where
      Queued-written :
          (id : String) (q : MutationRequest Manifest)
          → Queued p revision m id q
          → check_described p q (lookup id (map_values (written_record p) m)) ≡ ok tt
      Queued-written id q k =
          rw (lookup-written id m)
            (check_described-written l id q (lookup id m) k.describes k.valid)

      pub check_pending-written :
          (pending : Dict (MutationRequest Manifest))
          → All (λ e. Queued p revision m e.0 e.1 × (e.1.installation_id ≡ e.0)) pending
          → check_pending p revision
              (map_values (written_record p) m)
              (map_values (clone_inventory_mutation p) pending)
            ≡ ok tt
      unfolding check_pending map_values
      check_pending-written [] a = refl
      check_pending-written ((id, q) ∷ pending) a = rw (clone-Queued revision m id q a.0.0) (
          ground (
            arith,
            eq_iff id q.installation_id,
            a.0.1,
            a.0.0.numbered,
            a.0.0.valid,
            Queued-written id q a.0.0,
            check_pending-written pending a.1,
          ))

    name_of :
        (id : String) (q : MutationRequest Manifest) (o : Option (ConnectorRecord Manifest))
        → ((r : ConnectorRecord Manifest) → o ≡ some r → r.installation_id ≡ id)
        → Describes p id q o
        → q.installation_id ≡ id
    unfolding inventory_upsert_mutation
    name_of id q none h d = ap (λ (x : MutationRequest Manifest). x.installation_id) d
    name_of id q (some r) h d =
        ap (λ (x : MutationRequest Manifest). x.installation_id) d ∙ h r refl

    -- A queued mutation names the installation that it is queued for.
    pub queued_name :
        (st : State Manifest) (id : String) (q : MutationRequest Manifest)
        → IsConsistent p st
        → lookup id st.pending ≡ some q
        → q.installation_id ≡ id
    queued_name st id q k e =
        name_of id q (lookup id st.connectors) (λ r f. (k.records id r f).keyed)
          (k.queue id q e).describes

    pub clone-All :
        (revision : ℕ) (m : Dict (ConnectorRecord Manifest))
        (pending : Dict (MutationRequest Manifest))
        → All (λ e. Queued p revision m e.0 e.1 × (e.1.installation_id ≡ e.0)) pending
        → map_values (clone_inventory_mutation p) pending ≡ pending
    unfolding map_values
    clone-All revision m [] a = refl
    clone-All revision m ((id, q) ∷ pending) a =
        cc (clone-Queued revision m id q a.0.0, clone-All revision m pending a.1)
