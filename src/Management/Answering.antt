-- ===== src/Management/Answering.antt =====
-- The part of handleManagement in host.go that answers a job from the journal.
use connectorhost.Common.{
  String, not, ◌&&◌, Option, none, some, ◌==◌, nat_eq, string_eq, if◌then◌else◌, Result, ok, err,
  identity_conflict,
}
use connectorhost.Policy.{HostWorkKind}
use connectorhost.Protocol.{Protocol, Attempt}
use connectorhost.Record.{ConnectorRecord}
use connectorhost.Store.{Store, commit}
use connectorhost.Store.Plans.{connector, put_inventory_connector}
use connectorhost.Recovery.{ManagementOutcome, is_running, is_success, remote_inventory_revision}
use connectorhost.Artifact.{System}
use connectorhost.Management.{
  Job, Desk, Handled, failing, save_management_outcome, replayed, same_kind, Surroundings,
  load_management_outcome, Swept, sweep,
}

module _ (p : Protocol) (sys : System p.Manifest) (canonical : String → Option String) where
  open p use {Manifest}

  abbrev pub Around : Type 0
  Around = Surroundings p sys

  abbrev pub attempt_of : Job → Attempt
  attempt_of job = record { job_id = job.job_id; attempt_token = job.attempt_token }

  -- A replayed outcome is saved under the new attempt, and sent if that succeeds.
  unfoldable pub replay_saved :
      ManagementOutcome Manifest → Desk Manifest × Result (Unit {0}) → Handled Manifest
  replay_saved o (d, err e) = (d, none)
  replay_saved o (d, ok _) = (d, some (replayed o))

  unfoldable pub finish_replay :
      Around → Job → Desk Manifest → ManagementOutcome Manifest → Handled Manifest
  unfolding replay_saved save_management_outcome
  finish_replay around job d o =
      replay_saved o (
        save_management_outcome around.last_save (record o { attempt_token = job.attempt_token }) d)

  -- A transition that is delivered again is queued again, under the new attempt.
  unfoldable pub rebound :
      Around
      → Job
      → Desk Manifest
      → ManagementOutcome Manifest
      → Store Manifest × Result (Unit {0})
      → Handled Manifest
  unfolding finish_replay remote_inventory_revision
  rebound around job d o (s, err e) = (record d { host = record d.host { store = s } }, none)
  rebound around job d o (s, ok _) =
      finish_replay around job (record d { host = record d.host { store = s } })
        (record o {
          inventory_revision = remote_inventory_revision o.connector_id job.job_id s.state.pending;
        })

  unfoldable pub rebind :
      Around
      → Job
      → Desk Manifest
      → ManagementOutcome Manifest
      → Option (ConnectorRecord Manifest)
      → Handled Manifest
  unfolding rebound commit
  rebind around job d o none = (d, none)
  rebind around job d o (some r) = rebound around job d o (
      commit p d.host.store (put_inventory_connector p r (some (attempt_of job)) d.host.store.state)
        around.transition_write)

  unfoldable pub replay_settled :
      Around → Job → Desk Manifest → ManagementOutcome Manifest → Handled Manifest
  unfolding rebind finish_replay connector
  replay_settled around job d o =
      if is_success o.status
        && not (o.inventory_revision == 0)
        && not (o.attempt_token == job.attempt_token)
      then rebind around job d o (connector p d.host.store.state o.connector_id)
      else finish_replay around job d o

  -- After the recovery the journal is read again.
  unfoldable pub replay_reloaded :
      Around → Job → Desk Manifest → Result (Option (ManagementOutcome Manifest)) → Handled Manifest
  unfolding replay_settled
  replay_reloaded around job d (err e) = (d, none)
  replay_reloaded around job d (ok none) = (d, none)
  replay_reloaded around job d (ok (some o)) =
      if is_running o.status then (d, none) else replay_settled around job d o

  unfoldable pub replay_swept : Around → Job → Desk Manifest → Swept p canonical → Handled Manifest
  unfolding replay_reloaded load_management_outcome
  replay_swept around job d ((s, j), err e) =
      (record { host = record d.host { store = s }; journal = j }, none)
  replay_swept around job d ((s, j), ok _) =
      replay_reloaded around job (record { host = record d.host { store = s }; journal = j })
        (load_management_outcome p around.readable j job.job_id)

  unfoldable pub replay :
      Around
      → Job
      → HostWorkKind
      → String
      → Desk Manifest
      → ManagementOutcome Manifest
      → Handled Manifest
  unfolding replay_swept replay_settled sweep same_kind
  replay around job kind id d o =
      if not (same_kind o.kind kind && o.connector_id == id)
      then (d, some (failing identity_conflict))
      else if is_running o.status
      then replay_swept around job d (sweep p canonical around.recovering d.journal d.host.store)
      else replay_settled around job d o
