-- ===== src/Store/Effects.antt =====
-- What a change of the inventory does to the records and to the queue, and what its acknowledgement
-- does.
use connectorhost.Common.{
  ◌+◌, ◌≤◌, ◌≡◌, refl, sym, ap, ◌≢◌, subst, String, Bool, false, Option, none, some, string_eq, ok,
}
use connectorhost.Dict.{lookup, lookup-insert_self, lookup-insert_ne}
use connectorhost.Protocol.{Protocol, Attempt, MutationRequest, upsert}
use connectorhost.Record.{ConnectorRecord, clone_record, inventory_upsert_mutation, max_uint64}
use connectorhost.Store.{State, Store, WriteOutcome, commit}
use connectorhost.Store.Plans.{put_inventory_connector, inherit, fenced}
use connectorhost.Store.Commit.{commit_durable}
use connectorhost.Store.PutFacts.{PutFacts, put_inventory_lem, next_revision}

module _ (p : Protocol) where
  open p use {Manifest}

  -- Whether a record that is put counts as acknowledged: never with a management attempt, and else as
  -- the record that it replaces, or as it says itself if it is new.
  abbrev pub counts_acknowledged :
      Option Attempt → Option (ConnectorRecord Manifest) → ConnectorRecord Manifest → Bool
  counts_acknowledged (some a) current given = false
  counts_acknowledged none none given = given.inventory_acknowledged
  counts_acknowledged none (some current) given = current.inventory_acknowledged

  -- What holds after the inventory of one installation was changed.
  pub record InventoryPut (given : ConnectorRecord Manifest) (attempt : Option Attempt)
      (before after : State Manifest) : Type 0 where
    pub mutation : MutationRequest Manifest
    pub stored : ConnectorRecord Manifest
    pub queued : lookup given.installation_id after.pending ≡ some mutation
    pub is_upsert : mutation.kind ≡ upsert
    pub fresh : mutation.revision ≡ before.mutation_revision + 1
    pub counter : after.mutation_revision ≡ before.mutation_revision + 1
    pub fence : mutation.management_attempt ≡ attempt
    pub found : lookup given.installation_id after.connectors ≡ some stored
    pub digest : stored.active_digest ≡ given.active_digest
    pub acknowledged :
        stored.inventory_acknowledged
        ≡ counts_acknowledged attempt (lookup given.installation_id before.connectors) given
    pub others :
        (j : String)
        → given.installation_id ≢ j
        → (lookup j after.connectors ≡ lookup j before.connectors)
          × (lookup j after.pending ≡ lookup j before.pending)

  put_acknowledged :
      (attempt : Option Attempt) (current : Option (ConnectorRecord Manifest))
      (given : ConnectorRecord Manifest)
      → (clone_record p (fenced p attempt (inherit p current given))).inventory_acknowledged
        ≡ counts_acknowledged attempt current given
  unfolding clone_record fenced inherit
  put_acknowledged (some a) none given = refl
  put_acknowledged (some a) (some c) given = refl
  put_acknowledged none none given = refl
  put_acknowledged none (some c) given = refl

  put_digest :
      (attempt : Option Attempt) (current : Option (ConnectorRecord Manifest))
      (given : ConnectorRecord Manifest)
      → (clone_record p (fenced p attempt (inherit p current given))).active_digest
        ≡ given.active_digest
  unfolding clone_record fenced inherit
  put_digest (some a) none given = refl
  put_digest (some a) (some c) given = refl
  put_digest none none given = refl
  put_digest none (some c) given = refl

  PutFacts-InventoryPut :
      (given : ConnectorRecord Manifest) (attempt : Option Attempt) (st next : State Manifest)
      → st.mutation_revision ≤ max_uint64
      → PutFacts p given attempt st next
      → InventoryPut given attempt st next
  PutFacts-InventoryPut given attempt st next h f =
      subst (InventoryPut given attempt st) (sym f.leads) (record {
        mutation = f.mutation;
        stored =
            clone_record p
              (fenced p attempt (inherit p (lookup given.installation_id st.connectors) given));
        queued = lookup-insert_self _ _ st.pending;
        is_upsert = rw f.is_mutation (unfold inventory_upsert_mutation in refl);
        fresh = rw f.is_mutation (unfold inventory_upsert_mutation in numbered);
        counter = numbered;
        fence = ap (λ (x : MutationRequest Manifest). x.management_attempt) f.is_mutation;
        found = lookup-insert_self _ _ st.connectors;
        digest = put_digest attempt _ given;
        acknowledged = put_acknowledged attempt _ given;
        others =
            λ j n. (lookup-insert_ne _ j _ st.connectors n, lookup-insert_ne _ j _ st.pending n);
      })
    where
      numbered : f.revision ≡ st.mutation_revision + 1
      numbered = (next_revision _ f.revision h f.numbered).0

  -- PutLocalConnector and PutRemoteTransition. When the operation reports success, memory and
  -- host.json hold one and the same new state; in it the installation has a queued upsert under the
  -- next revision, with the attempt that was given, its record has the given digest, it is
  -- acknowledged only without an attempt and only if it was, and no other installation has changed.
  pub put_inventory_effect :
      (given : ConnectorRecord Manifest) (attempt : Option Attempt) (s : Store Manifest)
      (w : WriteOutcome)
      → s.state.mutation_revision ≤ max_uint64
      → (commit p s (put_inventory_connector p given attempt s.state) w).1 ≡ ok tt
      → let after = (commit p s (put_inventory_connector p given attempt s.state) w).0 in
        (after.disk ≡ some after.state) × InventoryPut given attempt s.state after.state
  put_inventory_effect given attempt s w h e =
      let (next, plan, same) =
        commit_durable p s (put_inventory_connector p given attempt s.state) w tt e in
      let facts =
        PutFacts-InventoryPut given attempt s.state next h
          (put_inventory_lem p given attempt s.state next plan) in
      subst
        (λ (x : Store Manifest).
          (x.disk ≡ some x.state) × InventoryPut given attempt s.state x.state)
        (sym same) (refl, facts)
