-- ===== src/Host/Removing.antt =====
-- remove of host.go: on behalf of a local caller or of the control plane.
use connectorhost.Common.{
  String, Bool, true, false, Option, none, some, Result, ok, err, guard, not_installed,
  pending_limit,
}
use connectorhost.Protocol.{Protocol}
use connectorhost.Record.{ConnectorRecord}
use connectorhost.Store.{State, Store, commit, Plan, can_enqueue}
use connectorhost.Store.Plans.{connector, remove_local_connector, remove_remote_connector}
use connectorhost.Artifact.{System}
use connectorhost.Supervisor.Lifecycle.{stop}
use connectorhost.Host.{
  validate_inventory_installation_id, Host, Turn, Changed, start_again, remove_connector_files,
  remove_error,
}

module _ (p : Protocol) (sys : System p.Manifest) where
  open p use {Manifest}

  -- Stop, with the rest of the host
  unfoldable pub stop_connector : Turn Manifest → String → Host Manifest → Changed p sys (Unit {0})
  unfolding stop
  stop_connector turn id h =
      let done = stop h.supervisor id turn.stopping in (record h { supervisor = done.0 }, done.1)

  unfoldable pub removal_plan : Bool → String → Plan p
  removal_plan true id = remove_local_connector p id
  removal_plan false id = remove_remote_connector p id

  unfoldable pub finish_removal :
      Turn Manifest
      → String
      → Host Manifest
      → Store Manifest × Result (Unit {0})
      → Changed p sys (Unit {0})
  unfolding start_again remove_connector_files remove_error
  finish_removal turn id h (store, err e) =
      (start_again p sys turn id (record h { store = store }), err e)
  finish_removal turn id h (store, ok _) = (
    record h { store = store; files = remove_connector_files turn.removals id h.files },
    remove_error turn.removals.left_of_connector,
  )

  unfoldable pub remove_stopped :
      Turn Manifest → String → Bool → Changed p sys (Unit {0}) → Changed p sys (Unit {0})
  unfolding finish_removal removal_plan commit
  remove_stopped turn id local (h, err e) = (h, err e)
  remove_stopped turn id local (h, ok _) =
      finish_removal turn id h (commit p h.store (removal_plan local id h.store.state) turn.writing)

  -- The checks before the child is stopped: a removal by a local caller has to queue a mutation.
  unfoldable pub check_room : Bool → String → State Manifest → Result (Unit {0})
  unfolding can_enqueue
  check_room false id st = ok tt
  check_room true id st = guard (can_enqueue p.max_hosted_connectors id st.pending) pending_limit

  unfoldable pub remove_checked :
      Turn Manifest → String → Bool → Host Manifest → Result (Unit {0}) → Changed p sys (Unit {0})
  unfolding remove_stopped stop_connector
  remove_checked turn id local h (err e) = (h, err e)
  remove_checked turn id local h (ok _) = remove_stopped turn id local (stop_connector turn id h)

  -- A failed installation can leave a child without a record on behalf of the control plane.
  unfoldable pub remove_found :
      Turn Manifest
      → String
      → Bool
      → Host Manifest
      → Option (ConnectorRecord Manifest)
      → Changed p sys (Unit {0})
  unfolding remove_checked check_room stop_connector
  remove_found turn id true h none = (h, err (not_installed id))
  remove_found turn id false h none = stop_connector turn id h
  remove_found turn id local h (some r) =
      remove_checked turn id local h (check_room local id h.store.state)

  unfoldable pub check_id : Bool → String → Result (Unit {0})
  unfolding validate_inventory_installation_id
  check_id false id = ok tt
  check_id true id = validate_inventory_installation_id p id

  unfoldable pub remove_admitted :
      Turn Manifest → String → Bool → Host Manifest → Result (Unit {0}) → Changed p sys (Unit {0})
  unfolding remove_found connector
  remove_admitted turn id local h (err e) = (h, err e)
  remove_admitted turn id local h (ok _) =
      remove_found turn id local h (connector p h.store.state id)

  -- remove
  unfoldable pub remove : Turn Manifest → String → Bool → Host Manifest → Changed p sys (Unit {0})
  unfolding remove_admitted check_id
  remove turn id local h = remove_admitted turn id local h (check_id local id)
