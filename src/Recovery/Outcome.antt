-- ===== src/Recovery/Outcome.antt =====
-- The outcomes of journal.go as the recovery reads them, and what host.go compares of two records.
use connectorhost.Common.{
  ℕ, String, Bool, true, false, ◌&&◌, ◌||◌, Option, none, some, List, [], ◌∷◌, ◌==◌, nat_eq,
  string_eq, if◌then◌else◌, not, Error, Result, ok, err, bad_job, external,
}
use connectorhost.Dict.{Dict, insert}
use connectorhost.Policy.{HostWorkKind, connector_update, connector_rollback, other_kind}
use connectorhost.Protocol.{Protocol, Attempt, MutationRequest}
use connectorhost.Record.{ConnectorRecord, manifests_equal}
use connectorhost.Store.{WriteOutcome, written, failed, replaced_with_error}

-- The values of `Status` that loadManagementOutcome admits.
pub data Status : Type 0 where
  running success failure canceled timeout : Status

-- managementOutcome, without its version and its time; `failed_with` is the text `Error`.
pub record ManagementOutcome (M : Type 0) : Type 0 where
  pub inventory_revision : ℕ
  pub job_id : String
  pub attempt_token : String
  pub kind : HostWorkKind
  pub connector_id : String
  pub status : Status
  pub output : String
  pub failed_with : Option Error
  pub process_id : ℕ
  pub connector_existed : Bool
  pub connector_before : Option (ConnectorRecord M)

-- What the surroundings do during the recovery of one outcome.
pub record Circumstances : Type 0 where
  -- `supervisor.Start` and `supervisor.Stop` of the connector
  pub start : Result (Unit {0})
  pub stop : Result (Unit {0})
  -- `terminateInterruptedShell`
  pub terminate : Result (Unit {0})
  -- the writes of host.json and of the journal, and `os.RemoveAll`
  pub store_write : WriteOutcome
  pub remove_files : Result (Unit {0})
  pub save_journal : WriteOutcome

unfoldable pub is_success : Status → Bool
is_success success = true
is_success _ = false

unfoldable pub is_running : Status → Bool
is_running running = true
is_running _ = false

-- Whether the kind of work changes the artifact of a connector that is there.
unfoldable pub is_transition : HostWorkKind → Bool
is_transition connector_update = true
is_transition connector_rollback = true
is_transition _ = false

unfoldable pub attempted_by : String → Option Attempt → Bool
attempted_by job_id none = false
attempted_by job_id (some a) = a.job_id == job_id

-- `Kind != ""`
unfoldable pub has_kind : HostWorkKind → Bool
has_kind (other_kind name) = not (name == "")
has_kind _ = true

module _ {M : Type 0} where
  unfoldable pub write_outcome :
      WriteOutcome
      → ManagementOutcome M
      → Dict (ManagementOutcome M)
      → Dict (ManagementOutcome M) × Result (Unit {0})
  write_outcome written o j = (insert o.job_id o j, ok tt)
  write_outcome failed o j = (j, err external)
  write_outcome replaced_with_error o j = (insert o.job_id o j, err external)

  -- saveManagementOutcome, over the journal by the jobs
  unfoldable pub save_outcome :
      WriteOutcome
      → ManagementOutcome M
      → Dict (ManagementOutcome M)
      → Dict (ManagementOutcome M) × Result (Unit {0})
  unfolding write_outcome has_kind
  save_outcome w o j =
      let done = write_outcome w o j in
      if o.job_id == "" || not (has_kind o.kind) then (j, err bad_job) else done

  -- remoteInventoryRevision. At most one queued mutation is of one installation, so the order in which
  -- the queue is listed makes no difference.
  unfoldable pub remote_inventory_revision : String → String → Dict (MutationRequest M) → ℕ
  unfolding attempted_by
  remote_inventory_revision id job_id [] = 0
  remote_inventory_revision id job_id ((key, m) ∷ rest) =
      let later = remote_inventory_revision id job_id rest in
      if m.installation_id == id && attempted_by job_id m.management_attempt
      then m.revision
      else later

  abbrev pub failed_as : Error → ManagementOutcome M → ManagementOutcome M
  failed_as e o = record o { status = failure; failed_with = some e }

  abbrev pub succeeded : ManagementOutcome M → ManagementOutcome M
  succeeded o = record o { status = success; failed_with = none }

  -- The record with its active slot and its rollback slot exchanged, as rollback makes it.
  unfoldable pub swap_slots : ConnectorRecord M → M → ConnectorRecord M
  swap_slots r previous = record r {
    active_digest = r.previous_digest;
    previous_digest = r.active_digest;
    filename = r.previous_filename;
    previous_filename = r.filename;
    settings = r.previous_settings;
    previous_settings = r.settings;
    storage_origins = r.previous_storage_origins;
    previous_storage_origins = r.storage_origins;
    manifest = previous;
    previous_manifest = some r.manifest;
  }

unfoldable pub same_texts : List String → List String → Bool
same_texts [] [] = true
same_texts (x ∷ xs) (y ∷ ys) = x == y && same_texts xs ys
same_texts _ _ = false

-- `canonical` is `protocol.CanonicalJSON`.
module _ (p : Protocol) (canonical : String → Option String) where
  open p use {Manifest}

  unfoldable pub same_canonical : Option String → Option String → Bool
  same_canonical (some a) (some b) = a == b
  same_canonical _ _ = false

  -- settingsEqual
  unfoldable pub settings_equal : String → String → Bool
  unfolding same_canonical
  settings_equal a b = a == b || same_canonical (canonical a) (canonical b)

  -- rollbackSlotsSwapped
  unfoldable pub manifests_swapped :
      ConnectorRecord Manifest → ConnectorRecord Manifest → Option Manifest → Option Manifest → Bool
  manifests_swapped current before (some was) (some is) =
      manifests_equal p current.manifest was && manifests_equal p is before.manifest
  manifests_swapped current before _ _ = false

  unfoldable pub rollback_slots_swapped : ConnectorRecord Manifest → ConnectorRecord Manifest → Bool
  unfolding settings_equal same_texts manifests_swapped
  rollback_slots_swapped current before =
      current.active_digest == before.previous_digest
      && current.previous_digest == before.active_digest
      && current.filename == before.previous_filename
      && current.previous_filename == before.filename
      && settings_equal current.settings before.previous_settings
      && settings_equal current.previous_settings before.settings
      && same_texts current.storage_origins before.previous_storage_origins
      && same_texts current.previous_storage_origins before.storage_origins
      && manifests_swapped current before before.previous_manifest current.previous_manifest
