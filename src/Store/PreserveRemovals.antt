-- ===== src/Store/PreserveRemovals.antt =====
-- The plans of the Store that take a connector away, or a mutation off the queue, keep it consistent.
use connectorhost.Common.{
  ℕ, ◌≡◌, refl, sym, subst, inl, inr, String, true, Option, none, some, List, arith, string_eq,
  Bool-cases, Option-cases, ok, Result-cases,
}
use connectorhost.Dict.{
  lookup, insert, delete, insert-found, insert-Distinct, delete-Distinct, lookup-delete_self,
  lookup-insert_ne, lookup-delete_ne, length-delete-le,
}
use connectorhost.Protocol.{Protocol, IsCodec, IsProtocol, MutationRequest, MutationResponse}
use connectorhost.Record.{
  ConnectorRecord, clone_record, validate_host_storage_origins, next_mutation_revision,
}
use connectorhost.Record.Storable.{
  IsStorable, restamp-IsStorable, clone-IsStorable, validate-SlotFacts, empty_slot,
}
use connectorhost.Contracts.{validate_singleton_contracts}
use connectorhost.Store.{State, can_enqueue, is_upsert}
use connectorhost.Store.Plans.{remove_remote_connector, remove_local_connector, removal}
use connectorhost.Store.Acknowledge.{Acknowledged, acknowledge_pending, acknowledge_plan}
use connectorhost.Store.Invariant.{IsConsistent, RecordOk, Queued, Touches, Touches-IsConsistent}
use connectorhost.Store.PutFacts.{next_revision, room}

module _ (p : Protocol) where
  open p use {Manifest}

  cleared : String → State Manifest → State Manifest
  cleared id st = record st { connectors = delete id st.connectors; pending = delete id st.pending }

  remove_remote_lem :
      (id : String) (st next : State Manifest)
      → remove_remote_connector p id st ≡ ok (next, tt)
      → next ≡ cleared id st
  unfolding remove_remote_connector cleared
  remove_remote_lem id st next e = ground arith

  remove_remote-Touches :
      (id : String) (st : State Manifest) → IsConsistent p st → Touches p id st (cleared id st)
  unfolding cleared
  remove_remote-Touches id st k = record {
    others = λ j n. (lookup-delete_ne _ j st.connectors n, lookup-delete_ne _ j st.pending n);
    its_record = λ r e. cc (lookup-delete_self id st.connectors);
    its_mutation = λ m e. cc (lookup-delete_self id st.pending);
    distinct_connectors = delete-Distinct _ st.connectors k.distinct_connectors;
    distinct_pending = delete-Distinct _ st.pending k.distinct_pending;
    bounded = omega (arith, length-delete-le id st.pending, k.bounded);
    grows = omega arith;
    fits = k.fits;
    mode = refl;
    version = refl;
  }

  pub remove_remote-IsConsistent :
      (id : String) (st next : State Manifest)
      → IsConsistent p st
      → remove_remote_connector p id st ≡ ok (next, tt)
      → validate_singleton_contracts p next.connectors ≡ ok tt
      → IsConsistent p next
  remove_remote-IsConsistent id st next k e v =
      Touches-IsConsistent p id st next k
        (subst (Touches p id st) (sym (remove_remote_lem id st next e))
          (remove_remote-Touches id st k))
        v

  dropped : String → ℕ → State Manifest → State Manifest
  dropped id n st = record st {
    mutation_revision = n;
    connectors = delete id st.connectors;
    pending = insert id (removal p id n) st.pending;
  }

  record DropFacts (id : String) (st next : State Manifest) : Type 0 where
    revision : ℕ
    room_left : can_enqueue p.max_hosted_connectors id st.pending ≡ true
    numbered : next_mutation_revision st.mutation_revision ≡ ok revision
    is_valid : p.valid_mutation (removal p id revision) ≡ true
    leads : next ≡ dropped id revision st

  remove_numbered :
      (id : String) (st next : State Manifest) (n : ℕ)
      → next_mutation_revision st.mutation_revision ≡ ok n
      → remove_local_connector p id st ≡ ok (next, tt)
      → DropFacts id st next
  unfolding remove_local_connector dropped
  remove_numbered id st next n k e = record {
    revision = n;
    room_left = ground arith;
    numbered = k;
    is_valid = ground arith;
    leads = ground arith;
  }

  remove_local_lem :
      (id : String) (st next : State Manifest)
      → remove_local_connector p id st ≡ ok (next, tt)
      → DropFacts id st next
  unfolding remove_local_connector
  remove_local_lem id st next e =
      elim (Result-cases (next_mutation_revision st.mutation_revision)) [
        | inl (n, k) ↦ remove_numbered id st next n k e
        | inr (x, k) ↦ absurd (ground arith)
      ]

  remove_local-Touches :
      (id : String) (st next : State Manifest)
      → IsConsistent p st
      → DropFacts id st next
      → Touches p id st next
  remove_local-Touches id st next k f = subst (Touches p id st) (sym f.leads) (
      unfold dropped in
      record {
        others = λ j n. (lookup-delete_ne _ j st.connectors n, lookup-insert_ne _ j _ st.pending n);
        its_record = λ r e. cc (lookup-delete_self id st.connectors);
        its_mutation = λ m e.
            subst (Queued p f.revision _ id)
              (insert-found id (removal p id f.revision) m st.pending e)
              (record {
                describes = rw (lookup-delete_self id st.connectors) refl;
                numbered = omega arith;
                valid = f.is_valid;
              });
        distinct_connectors = delete-Distinct _ st.connectors k.distinct_connectors;
        distinct_pending = insert-Distinct _ _ st.pending k.distinct_pending;
        bounded = room p.max_hosted_connectors id _ st.pending f.room_left k.bounded;
        grows = omega (arith, (next_revision _ f.revision k.fits f.numbered).0);
        fits = (next_revision _ f.revision k.fits f.numbered).1;
        mode = refl;
        version = refl;
      })

  pub remove_local-IsConsistent :
      (id : String) (st next : State Manifest)
      → IsConsistent p st
      → remove_local_connector p id st ≡ ok (next, tt)
      → validate_singleton_contracts p next.connectors ≡ ok tt
      → IsConsistent p next
  remove_local-IsConsistent id st next k e v =
      Touches-IsConsistent p id st next k
        (remove_local-Touches id st next k (remove_local_lem id st next e)) v

  acknowledged_record : ConnectorRecord Manifest → List String → ConnectorRecord Manifest
  acknowledged_record r origins = record (clone_record p r) {
    inventory_acknowledged = true;
    storage_origins = origins;
  }

  -- The two ways in which an acknowledgement changes the state.
  data AckFacts (id : String) (origins : List String) (st next : State Manifest) : Type 0 where
    of_removal : next ≡ record st { pending = delete id st.pending } → AckFacts id origins st next
    of_upsert :
        (r : ConnectorRecord Manifest)
        → lookup id st.connectors ≡ some r
        → next ≡ record st {
          connectors = insert id (acknowledged_record r origins) st.connectors;
          pending = delete id st.pending;
        }
        → AckFacts id origins st next

  acknowledge_pending_lem :
      (request : MutationRequest Manifest) (response : MutationResponse) (st next : State Manifest)
      (a : Acknowledged Manifest) (m : Option (MutationRequest Manifest))
      → acknowledge_pending p st request response m ≡ ok (some (next, a))
      → AckFacts request.installation_id response.storage_origins st next
  unfolding acknowledge_pending acknowledged_record
  acknowledge_pending_lem request response st next a none e = absurd (cc)
  acknowledge_pending_lem request response st next a (some m) e =
      elim (Bool-cases (is_upsert request.kind)) [
        | inr u ↦ of_removal (ground arith)
        | inl u ↦ elim (Option-cases (lookup request.installation_id st.connectors)) [
          | inl o ↦ absurd (ground arith)
          | inr (r, o) ↦ of_upsert r o (ground arith)
        ]
      ]

  acknowledge_lem :
      (request : MutationRequest Manifest) (response : MutationResponse) (st next : State Manifest)
      (a : Acknowledged Manifest)
      → acknowledge_plan p request response st ≡ ok (some (next, a))
      → (p.valid_response response ≡ true)
        × (acknowledge_pending p st request response (lookup request.installation_id st.pending)
            ≡ ok (some (next, a)))
  unfolding acknowledge_plan
  acknowledge_lem request response st next a e = ground arith

  valid_origins :
      (l : IsProtocol p) (response : MutationResponse)
      → p.valid_response response ≡ true
      → validate_host_storage_origins p response.storage_origins ≡ ok tt
  unfolding validate_host_storage_origins
  valid_origins l response e = ground (arith, l.origins_alone response e)

  acknowledged-IsStorable :
      (c : IsCodec p) (r : ConnectorRecord Manifest) (origins : List String)
      → IsStorable p r
      → validate_host_storage_origins p origins ≡ ok tt
      → IsStorable p (acknowledged_record r origins)
  acknowledged-IsStorable c r origins s v =
      let copied = clone-IsStorable p c r s in
      let facts = validate-SlotFacts p (clone_record p r) copied.given in
      unfold acknowledged_record in
      restamp-IsStorable p true origins (clone_record p r).previous_storage_origins
        (clone_record p r) copied v facts.previous_origins
        (λ e. (empty_slot p (clone_record p r) facts.slot e).1)

  module _ (c : IsCodec p) (id : String) (origins : List String) (st : State Manifest)
      (k : IsConsistent p st) (v : validate_host_storage_origins p origins ≡ ok tt) where
    acknowledge-Touches :
        (next : State Manifest) → AckFacts id origins st next → Touches p id st next
    acknowledge-Touches next (of_removal e) = subst (Touches p id st) (sym e) (record {
      others = λ j n. (refl, lookup-delete_ne _ j st.pending n);
      its_record = k.records id;
      its_mutation = λ m e. cc (lookup-delete_self id st.pending);
      distinct_connectors = k.distinct_connectors;
      distinct_pending = delete-Distinct _ st.pending k.distinct_pending;
      bounded = omega (arith, length-delete-le id st.pending, k.bounded);
      grows = omega arith;
      fits = k.fits;
      mode = refl;
      version = refl;
    })
    acknowledge-Touches next (of_upsert r o e) = subst (Touches p id st) (sym e) (record {
      others = λ j n. (lookup-insert_ne _ j _ st.connectors n, lookup-delete_ne _ j st.pending n);
      its_record = λ x f.
          subst (RecordOk p id) (insert-found id (acknowledged_record r origins) x st.connectors f)
            (record {
              keyed = unfold acknowledged_record clone_record in (k.records id r o).keyed;
              storable = acknowledged-IsStorable c r origins (k.records id r o).storable v;
            });
      its_mutation = λ m e. cc (lookup-delete_self id st.pending);
      distinct_connectors = insert-Distinct _ _ st.connectors k.distinct_connectors;
      distinct_pending = delete-Distinct _ st.pending k.distinct_pending;
      bounded = omega (arith, length-delete-le id st.pending, k.bounded);
      grows = omega arith;
      fits = k.fits;
      mode = refl;
      version = refl;
    })

  pub acknowledge-IsConsistent :
      (c : IsCodec p) (l : IsProtocol p) (request : MutationRequest Manifest)
      (response : MutationResponse) (st next : State Manifest) (a : Acknowledged Manifest)
      → IsConsistent p st
      → acknowledge_plan p request response st ≡ ok (some (next, a))
      → validate_singleton_contracts p next.connectors ≡ ok tt
      → IsConsistent p next
  acknowledge-IsConsistent c l request response st next a k e v =
      let (valid, rest) = acknowledge_lem request response st next a e in
      Touches-IsConsistent p request.installation_id st next k
        (acknowledge-Touches c request.installation_id response.storage_origins st k
          (valid_origins l response valid) next
          (acknowledge_pending_lem request response st next a _ rest))
        v
