-- ===== src/Store/PutFacts.antt =====
-- What the plans that put a connector write, and that the record they write is storable.
use connectorhost.Common.{
  ℕ, ◌+◌, ◌≤◌, ◌≡◌, refl, inl, inr, String, true, false, Option, none, some, arith, ◌==◌, string_eq,
  length, if◌then◌else◌, Bool, Result-cases, ok,
}
use connectorhost.Dict.{Dict, lookup, insert, delete, length-insert}
use connectorhost.Protocol.{Protocol, MutationRequest, Attempt}
use connectorhost.Record.{
  ConnectorRecord, inventory_upsert_mutation, max_uint64, clone_record, next_mutation_revision,
  validate_rollback_slot,
}
use connectorhost.Record.Storable.{IsStorable, restamp-IsStorable, validate-SlotFacts, empty_slot}
use connectorhost.Store.{State, can_enqueue}
use connectorhost.Store.Plans.{
  put_remote_connector, put_inventory_connector, inherit, fenced, keeps_active,
}

pub next_revision :
    (n k : ℕ) → n ≤ max_uint64 → next_mutation_revision n ≡ ok k → (k ≡ n + 1) × (k ≤ max_uint64)
unfolding next_mutation_revision
next_revision n k h e = ground arith

pub room :
    {M : Type 0} (limit : ℕ) (id : String) (m : MutationRequest M) (q : Dict (MutationRequest M))
    → can_enqueue limit id q ≡ true
    → length q ≤ limit
    → length (insert id m q) ≤ limit
unfolding can_enqueue
room limit id m q e h = ground (arith, length-insert id m q)

module _ (p : Protocol) where
  open p use {Manifest}

  inherit_no_slot :
      (c r : ConnectorRecord Manifest)
      → validate_rollback_slot p r ≡ ok tt
      → r.previous_digest == "" ≡ true
      → length (
          if keeps_active p c r r.previous_manifest
          then c.storage_origins
          else r.previous_storage_origins)
        ≡ 0
  unfolding keeps_active
  inherit_no_slot c r h e = ground (arith, empty_slot p r h)

  -- `inherit` only restamps a record.
  pub inherit-IsStorable :
      (current : Option (ConnectorRecord Manifest)) (r : ConnectorRecord Manifest)
      → ((c : ConnectorRecord Manifest) → current ≡ some c → IsStorable p c)
      → IsStorable p r
      → IsStorable p (inherit p current r)
  inherit-IsStorable none r h s = unfold inherit in s
  inherit-IsStorable (some c) r h s =
      let facts = validate-SlotFacts p r s.given in
      let theirs = validate-SlotFacts p c (h c refl).given in
      unfold inherit in
      restamp-IsStorable p c.inventory_acknowledged r.storage_origins
        (if keeps_active p c r r.previous_manifest
          then c.storage_origins
          else r.previous_storage_origins)
        r s facts.origins (ground (arith, facts.previous_origins, theirs.origins))
        (inherit_no_slot c r facts.slot)

  pub fenced-IsStorable :
      (attempt : Option Attempt) (r : ConnectorRecord Manifest)
      → IsStorable p r
      → IsStorable p (fenced p attempt r)
  fenced-IsStorable none r s = unfold fenced in s
  fenced-IsStorable (some a) r s =
      let facts = validate-SlotFacts p r s.given in
      unfold fenced in
      restamp-IsStorable p false r.storage_origins r.previous_storage_origins r s facts.origins
        facts.previous_origins (λ e. (empty_slot p r facts.slot e).1)

  pub acknowledged-IsStorable :
      (b : Bool) (r : ConnectorRecord Manifest)
      → IsStorable p r
      → IsStorable p (record r { inventory_acknowledged = b })
  acknowledged-IsStorable b r s =
      let facts = validate-SlotFacts p r s.given in
      restamp-IsStorable p b r.storage_origins r.previous_storage_origins r s facts.origins
        facts.previous_origins (λ e. (empty_slot p r facts.slot e).1)

  pub put_remote_lem :
      (given : ConnectorRecord Manifest) (st next : State Manifest)
      → put_remote_connector p given st ≡ ok (next, tt)
      → next ≡ record st {
        connectors =
            insert given.installation_id
              (clone_record p (record given { inventory_acknowledged = true }))
              st.connectors;
        pending = delete given.installation_id st.pending;
      }
  unfolding put_remote_connector
  put_remote_lem given st next e = ground arith

  pub record PutFacts (given : ConnectorRecord Manifest) (attempt : Option Attempt)
      (st next : State Manifest) : Type 0 where
    pub revision : ℕ
    pub mutation : MutationRequest Manifest
    pub is_mutation :
        mutation
        ≡ record (inventory_upsert_mutation p
            (inherit p (lookup given.installation_id st.connectors) given)
            revision) { management_attempt = attempt }
    pub room_left : can_enqueue p.max_hosted_connectors given.installation_id st.pending ≡ true
    pub numbered : next_mutation_revision st.mutation_revision ≡ ok revision
    pub is_valid : p.valid_mutation mutation ≡ true
    pub leads : next ≡ record st {
      mutation_revision = revision;
      connectors =
          insert given.installation_id
            (clone_record p
              (fenced p attempt (inherit p (lookup given.installation_id st.connectors) given)))
            st.connectors;
      pending = insert given.installation_id mutation st.pending;
    }

  put_numbered :
      (given : ConnectorRecord Manifest) (attempt : Option Attempt) (st next : State Manifest)
      (n : ℕ)
      → next_mutation_revision st.mutation_revision ≡ ok n
      → put_inventory_connector p given attempt st ≡ ok (next, tt)
      → PutFacts given attempt st next
  unfolding put_inventory_connector
  put_numbered given attempt st next n k e = record {
    revision = n;
    mutation =
        record (inventory_upsert_mutation p
          (inherit p (lookup given.installation_id st.connectors) given) n) {
            management_attempt = attempt;
          };
    is_mutation = refl;
    room_left = ground arith;
    numbered = k;
    is_valid = ground arith;
    leads = ground arith;
  }

  pub put_inventory_lem :
      (given : ConnectorRecord Manifest) (attempt : Option Attempt) (st next : State Manifest)
      → put_inventory_connector p given attempt st ≡ ok (next, tt)
      → PutFacts given attempt st next
  unfolding put_inventory_connector
  put_inventory_lem given attempt st next e =
      elim (Result-cases (next_mutation_revision st.mutation_revision)) [
        | inl (n, k) ↦ put_numbered given attempt st next n k e
        | inr (x, k) ↦ absurd (ground arith)
      ]
