-- ===== src/Host.antt =====
-- host.go: how the host puts a new artifact in the place of a connector's, exchanges its two artifacts,
-- and removes a connector. Each is one step under `managementMu` over the Store, the children and the
-- files of the artifacts.
pub mod Changes
pub mod Removing
pub mod Switched
pub mod Outcomes
pub mod Installed
pub mod RolledBack
pub mod Removed
pub mod View
pub mod Moved
pub mod Refinement
pub mod Samples
mod Tests
use Prim.Native.String.{len}
use connectorhost.Common.{
  ℕ, String, Bool, true, false, not, ◌&&◌, ◌||◌, Option, none, some, List, [], ◌∷◌, ◌==◌, nat_eq,
  string_eq, if◌then◌else◌, is_some, is_ok, Error, Result, ok, err, external, guard, rejected,
}
use connectorhost.Dict.{Dict, lookup, insert, delete}
use connectorhost.Protocol.{Protocol}
use connectorhost.Record.{ConnectorRecord, validate_installation_id}
use connectorhost.Store.{State, Store, WriteOutcome, commit, rewrite_current_state, Plan}
use connectorhost.Store.Plans.{connector, removal}
use connectorhost.Artifact.{System, Directory}
use connectorhost.Supervisor.Lifecycle.{
  Supervisor, Launch, Stopping, Files, connector_artifacts, start, activate, Activated,
}

-- Host: the Store, the Supervisor, and the files below `connectors`
pub record Host (M : Type 0) : Type 0 where
  pub store : Store M
  pub supervisor : Supervisor M
  pub files : Files

-- How removals of files end: whether a directory can be listed, what is left of the directory of a
-- digest that is removed, and what is left of that of a connector; nothing is left without an error.
pub record Removals : Type 0 where
  pub listable : Bool
  pub left_of_digest : String → Option Directory
  pub left_of_connector : Option (Dict Directory)

-- What happens while one connector is switched to another record: the old child is stopped, the
-- candidate is launched, the new state is written; and, if that fails, the current state is written
-- again and the old artifact is started.
pub record Turn (M : Type 0) : Type 0 where
  pub stopping : Stopping
  pub launching : Launch M
  pub writing : WriteOutcome
  pub rewriting : WriteOutcome
  pub stopping_again : Stopping
  pub launching_again : Launch M
  pub removals : Removals

unfoldable pub remains {ℓ} : {V : Type ℓ} → String → Option V → Dict V → Dict V
remains k none m = delete k m
remains k (some left) m = insert k left m

unfoldable pub remove_error {ℓ} : {V : Type ℓ} → Option V → Result (Unit {0})
remove_error none = ok tt
remove_error (some left) = err external

-- os.RemoveAll of the directory of a connector
unfoldable pub remove_connector_files : Removals → String → Files → Files
unfolding remains
remove_connector_files x id files = remains id x.left_of_connector files

module _ {M : Type 0} where
  -- The loop of cleanupConnectorArtifacts over the entries of the directory
  unfoldable pub remove_others :
      Removals → ConnectorRecord M → Dict Directory → Dict Directory → Dict Directory
  unfolding remains
  remove_others x r [] m = m
  remove_others x r ((digest, d) ∷ entries) m =
      let removed = remove_others x r entries (remains digest (x.left_of_digest digest) m) in
      let kept = remove_others x r entries m in
      if not (digest == r.active_digest) && not (digest == r.previous_digest) then removed else kept

  -- cleanupConnectorArtifacts
  unfoldable pub cleanup_connector_artifacts : Removals → ConnectorRecord M → Files → Files
  unfolding remove_others connector_artifacts
  cleanup_connector_artifacts x r files =
      let id = r.installation_id in
      if x.listable && is_some (lookup id files)
      then insert id
          (remove_others x r (connector_artifacts id files) (connector_artifacts id files)) files
      else files

  -- cleanupFailedCandidate; the staging files are not modelled.
  unfoldable pub cleanup_failed_candidate :
      Removals → ConnectorRecord M → ConnectorRecord M → Files → Files
  unfolding remains connector_artifacts
  cleanup_failed_candidate x active candidate files =
      let id = candidate.installation_id in
      let digest = candidate.active_digest in
      if not (digest == active.active_digest) && not (digest == active.previous_digest)
      then insert id (remains digest (x.left_of_digest digest) (connector_artifacts id files)) files
      else files

  clean_up_staging : Removals → String → Option (ConnectorRecord M) → Files → Files
  unfolding remove_connector_files cleanup_connector_artifacts
  clean_up_staging x id none files = remove_connector_files x id files
  clean_up_staging x id (some active) files = cleanup_connector_artifacts x active files

  -- cleanupStagingFailure
  unfoldable pub cleanup_staging_failure :
      Removals → String → Option (ConnectorRecord M) → Files → Files
  unfolding clean_up_staging
  cleanup_staging_failure x id active files =
      if is_ok (validate_installation_id id) then clean_up_staging x id active files else files

  -- The candidate of a connector that is there takes the artifact of that as its rollback slot.
  unfoldable pub with_previous : Option (ConnectorRecord M) → ConnectorRecord M → ConnectorRecord M
  with_previous none r = r
  with_previous (some old) r = record r {
    display_name = old.display_name;
    previous_digest = old.active_digest;
    previous_filename = old.filename;
    previous_settings = old.settings;
    previous_storage_origins = old.storage_origins;
    previous_manifest = some old.manifest;
  }

module _ (p : Protocol) where
  -- validateInventoryInstallationID
  unfoldable pub validate_inventory_installation_id : String → Result (Unit {0})
  validate_inventory_installation_id id = guard (p.valid_mutation (removal p id 1)) rejected

module _ (p : Protocol) (sys : System p.Manifest) where
  open p use {Manifest}

  abbrev pub Changed {ℓ} : Type ℓ → Type ℓ
  Changed A = Host Manifest × Result A

  -- What Activate leaves, with the files as they were
  unfoldable pub activated : Files → Activated p sys (Store Manifest) → Changed (Unit {0})
  activated files ((store, supervisor), result) =
      (record { store = store; supervisor = supervisor; files = files }, result)

  -- `h.supervisor.Activate(ctx, record, persist)`, where `persist` is an operation of the Store
  unfoldable pub activate_record :
      Turn Manifest
      → (ConnectorRecord Manifest → Plan p)
      → ConnectorRecord Manifest
      → Host Manifest
      → Changed (Unit {0})
  unfolding activate activated commit
  activate_record turn plan r h = activated h.files (
      activate p sys (λ store. commit p store (plan r store.state) turn.writing) h.files
        h.store.state h.store h.supervisor r turn.stopping turn.launching)

  -- rewriteCurrentState and, for a connector that is there, Start
  unfoldable pub rewrite_state : Turn Manifest → Host Manifest → Host Manifest
  unfolding rewrite_current_state
  rewrite_state turn h = record h { store = (rewrite_current_state p h.store turn.rewriting).0 }

  unfoldable pub start_again : Turn Manifest → String → Host Manifest → Host Manifest
  unfolding start
  start_again turn id h = record h {
    supervisor =
        (start p sys h.files h.store.state h.supervisor id turn.stopping_again
          turn.launching_again).0;
  }

  -- What is done when an installation's candidate could not be activated.
  unfoldable pub restore :
      Turn Manifest
      → Option (ConnectorRecord Manifest)
      → ConnectorRecord Manifest
      → Host Manifest
      → Host Manifest
  unfolding start_again cleanup_failed_candidate remove_connector_files
  restore turn none r h = record h {
    files = remove_connector_files turn.removals r.installation_id h.files;
  }
  restore turn (some old) r h =
      let started = start_again turn old.installation_id h in
      record started { files = cleanup_failed_candidate turn.removals old r started.files }

  unfoldable pub settle_install :
      Turn Manifest
      → Option (ConnectorRecord Manifest)
      → ConnectorRecord Manifest
      → Changed (Unit {0})
      → Changed (ConnectorRecord Manifest)
  unfolding restore rewrite_state cleanup_connector_artifacts
  settle_install turn old r (h, err e) = (restore turn old r (rewrite_state turn h), err e)
  settle_install turn old r (h, ok _) =
      (record h { files = cleanup_connector_artifacts turn.removals r h.files }, ok r)

  -- The common end of installRemote and installLocal, from the activation on
  unfoldable pub switch_to :
      Turn Manifest
      → (ConnectorRecord Manifest → Plan p)
      → Option (ConnectorRecord Manifest)
      → ConnectorRecord Manifest
      → Host Manifest
      → Changed (ConnectorRecord Manifest)
  unfolding settle_install activate_record
  switch_to turn plan old r h = settle_install turn old r (activate_record turn plan r h)
