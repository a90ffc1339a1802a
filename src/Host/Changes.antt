-- ===== src/Host/Changes.antt =====
-- installRemote, installLocal, rollback and remove of host.go.
use Prim.Native.String.{len}
use connectorhost.Common.{
  ℕ, String, Bool, true, false, not, Option, none, some, List, leb, length, ◌==◌, nat_eq, string_eq,
  if◌then◌else◌, is_some, Result, ok, err, ◌>>◌, guard, not_installed, update_requires_existing,
  already_installed, install_limit, no_rollback_slot,
}
use connectorhost.Dict.{insert}
use connectorhost.Protocol.{Protocol}
use connectorhost.Record.{ConnectorRecord, validate_host_storage_origins}
use connectorhost.Recovery.{swap_slots}
use connectorhost.Store.{Plan}
use connectorhost.Store.Plans.{connector, put_inventory_connector}
use connectorhost.Artifact.{System, Steps, Staged}
use connectorhost.Artifact.Inputs.{
  ConnectorArtifactInput, Response, LocalArtifactInput, Opened, stage_remote, stage_local,
}
use connectorhost.Supervisor.Lifecycle.{connector_artifacts}
use connectorhost.Host.{
  validate_inventory_installation_id, Host, Turn, Changed, activate_record, rewrite_state,
  start_again, cleanup_staging_failure, cleanup_connector_artifacts, with_previous, switch_to,
}

-- What installRemote and installLocal ask of the connectors that are there.
unfoldable pub check_update : Bool → Bool → ℕ → ℕ → Result (Unit {0})
check_update true false count limit = err update_requires_existing
check_update false true count limit = err already_installed
check_update true true count limit = ok tt
check_update false false count limit = guard (not (leb limit count)) install_limit

module _ {M : Type 0} where
  -- Without settings an update keeps those of the connector, and in installRemote its storage origins
  -- with them.
  unfoldable pub inherited_settings : String → Option (ConnectorRecord M) → String
  inherited_settings settings none = settings
  inherited_settings settings (some old) = if len settings == 0 then old.settings else settings

  unfoldable pub inherited_origins :
      ConnectorArtifactInput → Option (ConnectorRecord M) → List String
  inherited_origins input none = input.storage_origins
  inherited_origins input (some old) =
      if len input.settings == 0 then old.storage_origins else input.storage_origins

  -- The record of a local candidate also keeps whether the connector is acknowledged.
  unfoldable pub with_previous_local :
      Option (ConnectorRecord M) → ConnectorRecord M → ConnectorRecord M
  unfolding with_previous
  with_previous_local none r = r
  with_previous_local (some old) r = record (with_previous (some old) r) {
    inventory_acknowledged = old.inventory_acknowledged;
  }

  unfoldable pub rollback_slot : ConnectorRecord M → Option M
  rollback_slot r = if r.previous_digest == "" then none else r.previous_manifest

module _ (p : Protocol) (sys : System p.Manifest) where
  open p use {Manifest}

  -- After the staging: the record of the candidate is activated, or the staging is cleaned up.
  unfoldable pub after_staging :
      Turn Manifest
      → (ConnectorRecord Manifest → Plan p)
      → Option (ConnectorRecord Manifest)
      → (ConnectorRecord Manifest → ConnectorRecord Manifest)
      → String
      → Host Manifest
      → Staged p sys
      → Changed p sys (ConnectorRecord Manifest)
  unfolding switch_to cleanup_staging_failure
  after_staging turn plan old adopt id h (artifacts, err e) = (
    record h { files = cleanup_staging_failure turn.removals id old (insert id artifacts h.files) },
    err e,
  )
  after_staging turn plan old adopt id h (artifacts, ok r) =
      switch_to p sys turn plan old (adopt r) (record h { files = insert id artifacts h.files })

  unfoldable pub install_checked :
      Turn Manifest
      → Steps p sys
      → Result Response
      → (ConnectorRecord Manifest → Plan p)
      → ConnectorArtifactInput
      → Option (ConnectorRecord Manifest)
      → Host Manifest
      → Result (Unit {0})
      → Changed p sys (ConnectorRecord Manifest)
  unfolding after_staging inherited_settings inherited_origins with_previous
  install_checked turn steps answered plan input old h (err e) = (h, err e)
  install_checked turn steps answered plan input old h (ok _) =
      after_staging turn plan old (with_previous old) input.installation_id h (
        stage_remote p sys (connector_artifacts input.installation_id h.files) steps
          (record input { storage_origins = inherited_origins input old })
          (inherited_settings input.settings old) answered)

  -- installRemote; it gives back the record that it has activated, where the source gives no value.
  unfoldable pub install_remote :
      Turn Manifest
      → Steps p sys
      → Result Response
      → (ConnectorRecord Manifest → Plan p)
      → ConnectorArtifactInput
      → Bool
      → Host Manifest
      → Changed p sys (ConnectorRecord Manifest)
  unfolding install_checked check_update
  install_remote turn steps answered plan input update h =
      let old = connector p h.store.state input.installation_id in
      install_checked turn steps answered plan input old h (
        validate_host_storage_origins p input.storage_origins
        >> check_update update (is_some old) (length h.store.state.connectors)
            p.max_hosted_connectors)

  unfoldable pub install_local_checked :
      Turn Manifest
      → Steps p sys
      → Result Opened
      → LocalArtifactInput
      → Option (ConnectorRecord Manifest)
      → Host Manifest
      → Result (Unit {0})
      → Changed p sys (ConnectorRecord Manifest)
  unfolding after_staging inherited_settings with_previous_local
  install_local_checked turn steps opened input old h (err e) = (h, err e)
  install_local_checked turn steps opened input old h (ok _) =
      after_staging turn (λ r. put_inventory_connector p r none) old (with_previous_local old)
        input.installation_id h
        (stage_local p sys (connector_artifacts input.installation_id h.files) steps
          (record input { settings = inherited_settings input.settings old }) opened)

  -- installLocal
  unfoldable pub install_local :
      Turn Manifest
      → Steps p sys
      → Result Opened
      → LocalArtifactInput
      → Bool
      → Host Manifest
      → Changed p sys (ConnectorRecord Manifest)
  unfolding install_local_checked check_update validate_inventory_installation_id
  install_local turn steps opened input update h =
      let old = connector p h.store.state input.installation_id in
      install_local_checked turn steps opened input old h (
        validate_inventory_installation_id p input.installation_id
        >> check_update update (is_some old) (length h.store.state.connectors)
            p.max_hosted_connectors)

  unfoldable pub settle_rollback :
      Turn Manifest → ConnectorRecord Manifest → Changed p sys (Unit {0}) → Changed p sys (Unit {0})
  unfolding start_again rewrite_state cleanup_connector_artifacts
  settle_rollback turn r (h, err e) =
      (start_again p sys turn r.installation_id (rewrite_state p sys turn h), err e)
  settle_rollback turn r (h, ok _) =
      (record h { files = cleanup_connector_artifacts turn.removals r h.files }, ok tt)

  unfoldable pub rollback_to :
      Turn Manifest
      → (ConnectorRecord Manifest → Plan p)
      → Host Manifest
      → ConnectorRecord Manifest
      → Option Manifest
      → Changed p sys (Unit {0})
  unfolding settle_rollback swap_slots activate_record
  rollback_to turn plan h r none = (h, err no_rollback_slot)
  rollback_to turn plan h r (some previous) =
      let swapped = swap_slots r previous in
      settle_rollback turn swapped (activate_record p sys turn plan swapped h)

  unfoldable pub rollback_found :
      Turn Manifest
      → (ConnectorRecord Manifest → Plan p)
      → String
      → Host Manifest
      → Option (ConnectorRecord Manifest)
      → Changed p sys (Unit {0})
  unfolding rollback_to rollback_slot
  rollback_found turn plan id h none = (h, err (not_installed id))
  rollback_found turn plan id h (some r) = rollback_to turn plan h r (rollback_slot r)

  unfoldable pub rollback_checked :
      Turn Manifest
      → (ConnectorRecord Manifest → Plan p)
      → String
      → Host Manifest
      → Result (Unit {0})
      → Changed p sys (Unit {0})
  unfolding rollback_found connector
  rollback_checked turn plan id h (err e) = (h, err e)
  rollback_checked turn plan id h (ok _) =
      rollback_found turn plan id h (connector p h.store.state id)

  -- rollback
  unfoldable pub rollback :
      Turn Manifest
      → (ConnectorRecord Manifest → Plan p)
      → String
      → Host Manifest
      → Changed p sys (Unit {0})
  unfolding rollback_checked validate_inventory_installation_id
  rollback turn plan id h =
      rollback_checked turn plan id h (validate_inventory_installation_id p id)
