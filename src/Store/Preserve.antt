-- ===== src/Store/Preserve.antt =====
-- Each plan of the Store leads from a consistent state to a consistent one.
use connectorhost.Common.{
  ℕ, ◌+◌, ◌≤◌, ◌≡◌, refl, sym, ap, ◌∙◌, subst, String, true, Option, none, some, arith, string_eq,
  ok,
}
use connectorhost.Dict.{
  Dict, lookup, insert, delete, insert-found, insert-Distinct, delete-Distinct, lookup-insert_self,
  lookup-delete_self, lookup-insert_ne, lookup-delete_ne, length-delete-le,
}
use connectorhost.Protocol.{Protocol, IsCodec, MutationRequest, Attempt}
use connectorhost.Record.{
  ConnectorRecord, inventory_upsert_mutation, max_uint64, clone_record, reread_option,
  reread_artifact, rollback_artifact,
}
use connectorhost.Record.Storable.{IsStorable, clone-IsStorable}
use connectorhost.Contracts.{validate_singleton_contracts}
use connectorhost.Store.{State}
use connectorhost.Store.Plans.{put_remote_connector, put_inventory_connector, inherit, fenced}
use connectorhost.Store.Invariant.{
  IsConsistent, RecordOk, Queued, Describes, Touches, Touches-IsConsistent,
}
use connectorhost.Store.PutFacts.{
  next_revision, room, inherit-IsStorable, fenced-IsStorable, acknowledged-IsStorable,
  put_remote_lem, PutFacts, put_inventory_lem,
}

module _ (p : Protocol) where
  open p use {Manifest}

  pub installation_id-inherit :
      (c : Option (ConnectorRecord Manifest)) (r : ConnectorRecord Manifest)
      → (inherit p c r).installation_id ≡ r.installation_id
  unfolding inherit
  installation_id-inherit none r = refl
  installation_id-inherit (some c) r = refl

  installation_id-fenced :
      (a : Option Attempt) (r : ConnectorRecord Manifest)
      → (fenced p a r).installation_id ≡ r.installation_id
  unfolding fenced
  installation_id-fenced none r = refl
  installation_id-fenced (some a) r = refl

  upsert-fenced :
      (a : Option Attempt) (r : ConnectorRecord Manifest) (n : ℕ)
      → inventory_upsert_mutation p (fenced p a r) n ≡ inventory_upsert_mutation p r n
  unfolding fenced inventory_upsert_mutation
  upsert-fenced none r n = refl
  upsert-fenced (some a) r n = refl

  module _ (c : IsCodec p) where
    rollback-reread :
        (r : ConnectorRecord Manifest) (m : Option Manifest)
        → reread_artifact p (rollback_artifact p (clone_record p r) (reread_option p m))
          ≡ reread_artifact p (rollback_artifact p r m)
    unfolding clone_record
    rollback-reread r none = refl
    rollback-reread r (some m) =
        ap (λ x. some (record { manifest = x; measured_digest = r.previous_digest }))
          (c.reread-reread m)

    -- A copy of a record is described as the record is.
    pub upsert-clone :
        (r : ConnectorRecord Manifest) (n : ℕ)
        → inventory_upsert_mutation p (clone_record p r) n ≡ inventory_upsert_mutation p r n
    unfolding inventory_upsert_mutation clone_record
    upsert-clone r n i = record (inventory_upsert_mutation p r n) {
      active =
          some
            (record { manifest = c.reread-reread r.manifest i; measured_digest = r.active_digest });
      rollback = rollback-reread r r.previous_manifest i;
    }

    cloned-RecordOk :
        (id : String) (x r : ConnectorRecord Manifest) (m : Dict (ConnectorRecord Manifest))
        → x.installation_id ≡ id
        → IsStorable p x
        → lookup id (insert id (clone_record p x) m) ≡ some r
        → RecordOk p id r
    cloned-RecordOk id x r m k s e =
        subst (RecordOk p id) (insert-found id (clone_record p x) r m e)
          (record { keyed = unfold clone_record in k; storable = clone-IsStorable p c x s })

    Describes-put :
        (r : ConnectorRecord Manifest) (a : Option Attempt) (m : MutationRequest Manifest) (n : ℕ)
        → m ≡ record (inventory_upsert_mutation p r n) { management_attempt = a }
        → m ≡ record (inventory_upsert_mutation p (clone_record p (fenced p a r)) m.revision) {
          management_attempt = m.management_attempt;
        }
    Describes-put r a m n e =
        subst
          (λ (x : MutationRequest Manifest).
            x ≡ record (inventory_upsert_mutation p (clone_record p (fenced p a r)) x.revision) {
              management_attempt = x.management_attempt;
            })
          (sym e)
          (unfold inventory_upsert_mutation in
            sym (
              ap (λ (u : MutationRequest Manifest). record u { management_attempt = a })
                (upsert-clone (fenced p a r) n ∙ upsert-fenced a r n)))

    put_remote-Touches :
        (given : ConnectorRecord Manifest) (st : State Manifest)
        → IsConsistent p st
        → IsStorable p given
        → Touches p given.installation_id st (record st {
          connectors =
              insert given.installation_id
                (clone_record p (record given { inventory_acknowledged = true }))
                st.connectors;
          pending = delete given.installation_id st.pending;
        })
    put_remote-Touches given st k s = record {
      others = λ j n. (lookup-insert_ne _ j _ st.connectors n, lookup-delete_ne _ j st.pending n);
      its_record = λ r e.
          cloned-RecordOk given.installation_id (record given { inventory_acknowledged = true }) r
            st.connectors refl (acknowledged-IsStorable p true given s) e;
      its_mutation = λ m e. cc (lookup-delete_self given.installation_id st.pending);
      distinct_connectors = insert-Distinct _ _ st.connectors k.distinct_connectors;
      distinct_pending = delete-Distinct _ st.pending k.distinct_pending;
      bounded = omega (arith, length-delete-le given.installation_id st.pending, k.bounded);
      grows = omega arith;
      fits = k.fits;
      mode = refl;
      version = refl;
    }

    pub put_remote-IsConsistent :
        (given : ConnectorRecord Manifest) (st next : State Manifest)
        → IsConsistent p st
        → IsStorable p given
        → put_remote_connector p given st ≡ ok (next, tt)
        → validate_singleton_contracts p next.connectors ≡ ok tt
        → IsConsistent p next
    put_remote-IsConsistent given st next k s e v =
        Touches-IsConsistent p given.installation_id st next k
          (subst (Touches p given.installation_id st) (sym (put_remote_lem p given st next e))
            (put_remote-Touches given st k s))
          v

    put_inventory-Touches :
        (given : ConnectorRecord Manifest) (attempt : Option Attempt) (st next : State Manifest)
        → IsConsistent p st
        → IsStorable p given
        → PutFacts p given attempt st next
        → Touches p given.installation_id st next
    put_inventory-Touches given attempt st next k s f =
        subst (Touches p id st) (sym f.leads) (record {
          others =
              λ j n. (lookup-insert_ne _ j _ st.connectors n, lookup-insert_ne _ j _ st.pending n);
          its_record = λ x e. cloned-RecordOk id kept x st.connectors named kept-IsStorable e;
          its_mutation = λ m e.
              subst (Queued p f.revision _ id) (insert-found id f.mutation m st.pending e) (record {
                describes =
                    rw (lookup-insert_self id (clone_record p kept) st.connectors) described;
                numbered = rw f.is_mutation (unfold inventory_upsert_mutation in omega arith);
                valid = f.is_valid;
              });
          distinct_connectors = insert-Distinct _ _ st.connectors k.distinct_connectors;
          distinct_pending = insert-Distinct _ _ st.pending k.distinct_pending;
          bounded = room p.max_hosted_connectors id f.mutation st.pending f.room_left k.bounded;
          grows = omega (arith, advanced.0);
          fits = advanced.1;
          mode = refl;
          version = refl;
        })
      where
        id : String
        id = given.installation_id

        inherited : ConnectorRecord Manifest
        inherited = inherit p (lookup id st.connectors) given

        kept : ConnectorRecord Manifest
        kept = fenced p attempt inherited

        named : kept.installation_id ≡ id
        named = installation_id-fenced attempt inherited ∙ installation_id-inherit _ given

        kept-IsStorable : IsStorable p kept
        kept-IsStorable =
            fenced-IsStorable p attempt inherited
              (inherit-IsStorable p _ given (λ x e. (k.records id x e).storable) s)

        advanced : (f.revision ≡ st.mutation_revision + 1) × (f.revision ≤ max_uint64)
        advanced = next_revision _ f.revision k.fits f.numbered

        described : Describes p id f.mutation (some (clone_record p kept))
        described = Describes-put inherited attempt f.mutation f.revision f.is_mutation

    pub put_inventory-IsConsistent :
        (given : ConnectorRecord Manifest) (attempt : Option Attempt) (st next : State Manifest)
        → IsConsistent p st
        → IsStorable p given
        → put_inventory_connector p given attempt st ≡ ok (next, tt)
        → validate_singleton_contracts p next.connectors ≡ ok tt
        → IsConsistent p next
    put_inventory-IsConsistent given attempt st next k s e v =
        Touches-IsConsistent p given.installation_id st next k
          (put_inventory-Touches given attempt st next k s
            (put_inventory_lem p given attempt st next e))
          v
