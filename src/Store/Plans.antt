-- ===== src/Store/Plans.antt =====
-- The operations of the Store of state.go on connectors, and the mutations that they queue for the
-- control plane: each as the plan that the common tail `commit` writes.
use connectorhost.Common.{
  ℕ, String, Bool, true, false, not, ◌&&◌, Option, none, some, ◌==◌, nat_eq, string_eq,
  if◌then◌else◌, Result, ok, err, ◌>>=◌, ◌>>◌, guard, pending_removal, pending_limit, rejected,
  contract_changed,
}
use mathlib.Core.Option
use connectorhost.Dict.{lookup, insert, delete}
use connectorhost.Protocol.{Protocol, Attempt, remove, MutationRequest}
use connectorhost.Record.{
  ConnectorRecord, validate_installation_id, validate_connector_record, clone_record,
  inventory_upsert_mutation, manifests_equal, next_mutation_revision,
}
use connectorhost.Contracts.{contract, validate_singleton_contracts}
use connectorhost.Store.{State, is_remove, can_enqueue, exists, Plan}

module _ (p : Protocol) where
  open p use {Manifest}

  unfoldable pub copy_if_valid :
      Result (Unit {0}) → Option (ConnectorRecord Manifest) → Option (ConnectorRecord Manifest)
  copy_if_valid (err e) found = none
  copy_if_valid (ok _) found = Option.map (clone_record p) found

  -- Connector
  unfoldable pub connector : State Manifest → String → Option (ConnectorRecord Manifest)
  unfolding copy_if_valid
  connector st id = copy_if_valid (validate_installation_id id) (lookup id st.connectors)

  -- PutConnector
  unfoldable pub put_connector : ConnectorRecord Manifest → Plan p
  put_connector r st = do
    validate_connector_record p r
    let put = insert r.installation_id (clone_record p r) st.connectors
    ok (record st { connectors = put }, tt)

  -- PutRemoteConnector
  unfoldable pub put_remote_connector : ConnectorRecord Manifest → Plan p
  put_remote_connector given st = do
    let r = record given { inventory_acknowledged = true }
    validate_connector_record p r
    let put = insert r.installation_id (clone_record p r) st.connectors
    ok (record st { connectors = put; pending = delete r.installation_id st.pending }, tt)

  -- The record keeps what the server knows of the connector that it replaces.
  unfoldable pub keeps_active :
      ConnectorRecord Manifest → ConnectorRecord Manifest → Option Manifest → Bool
  keeps_active current r none = false
  keeps_active current r (some previous) =
      current.active_digest == r.previous_digest && manifests_equal p current.manifest previous

  unfoldable pub inherit :
      Option (ConnectorRecord Manifest) → ConnectorRecord Manifest → ConnectorRecord Manifest
  unfolding keeps_active
  inherit none r = r
  inherit (some current) r = record r {
    inventory_acknowledged = current.inventory_acknowledged;
    previous_storage_origins =
        if keeps_active current r r.previous_manifest
        then current.storage_origins
        else r.previous_storage_origins;
  }

  unfoldable pub fenced : Option Attempt → ConnectorRecord Manifest → ConnectorRecord Manifest
  fenced none r = r
  fenced (some a) r = record r { inventory_acknowledged = false }

  -- putInventoryConnector; PutLocalConnector passes no attempt, PutRemoteTransition one.
  unfoldable pub put_inventory_connector : ConnectorRecord Manifest → Option Attempt → Plan p
  put_inventory_connector given attempt st = do
    validate_connector_record p given
    let id = given.installation_id
    let r = inherit (lookup id st.connectors) given
    guard (can_enqueue p.max_hosted_connectors id st.pending) pending_limit
    revision ← next_mutation_revision st.mutation_revision
    let mutation = record (inventory_upsert_mutation p r revision) { management_attempt = attempt }
    guard (p.valid_mutation mutation) rejected
    let next = record st {
      mutation_revision = revision;
      connectors = insert id (clone_record p (fenced attempt r)) st.connectors;
      pending = insert id mutation st.pending;
    }
    ok (next, tt)

  -- RemoveConnector
  unfoldable pub remove_connector : String → Plan p
  remove_connector id st = do
    validate_installation_id id
    exists id st.connectors
    ok (record st { connectors = delete id st.connectors }, tt)

  -- RemoveRemoteConnector
  unfoldable pub remove_remote_connector : String → Plan p
  remove_remote_connector id st = do
    validate_installation_id id
    exists id st.connectors
    let next = record st { connectors = delete id st.connectors; pending = delete id st.pending }
    ok (next, tt)

  abbrev pub removal : String → ℕ → MutationRequest Manifest
  removal id revision = record {
    installation_id = id;
    revision = revision;
    kind = remove;
    display_name = "";
    active = none;
    rollback = none;
    management_attempt = none;
  }

  -- RemoveLocalConnector
  unfoldable pub remove_local_connector : String → Plan p
  remove_local_connector id st = do
    validate_installation_id id
    exists id st.connectors
    guard (can_enqueue p.max_hosted_connectors id st.pending) pending_limit
    revision ← next_mutation_revision st.mutation_revision
    let mutation = removal id revision
    guard (p.valid_mutation mutation) rejected
    let next = record st {
      mutation_revision = revision;
      connectors = delete id st.connectors;
      pending = insert id mutation st.pending;
    }
    ok (next, tt)

  -- admitConnector
  pending_removal_of : Option (MutationRequest Manifest) → Bool
  pending_removal_of none = false
  pending_removal_of (some m) = is_remove m.kind

  same_contract : Option (ConnectorRecord Manifest) → ConnectorRecord Manifest → Bool
  same_contract none r = true
  same_contract (some current) r = contract p current == contract p r

  unfoldable pub admit_connector : State Manifest → ConnectorRecord Manifest → Result (Unit {0})
  unfolding pending_removal_of same_contract
  admit_connector st r = do
    let id = r.installation_id
    guard (not (pending_removal_of (lookup id st.pending))) (pending_removal id)
    guard (same_contract (lookup id st.connectors) r) contract_changed
    validate_singleton_contracts p (insert id r st.connectors)
