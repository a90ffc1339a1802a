-- ===== src/Management.antt =====
-- The work that the control plane asks of the host itself, in host.go: handleManagement. The journal of
-- journal.go remembers each job from before it runs until its outcome is delivered, so that a job that
-- comes again is answered and not run again. `managementMu` makes each job one step.
pub mod Answering
pub mod Handling
pub mod Replay
pub mod Fresh
mod Tests
use connectorhost.Common.{
  ℕ, String, Bool, true, false, not, ◌&&◌, ◌||◌, Option, none, some, List, [], ◌∷◌, ◌==◌, nat_eq,
  string_eq, if◌then◌else◌, is_some, is_ok, Error, Result, ok, err, ◌>>=◌, ◌>>◌, guard, external,
  policy_denied, bad_job, identity_conflict, undecodable,
}
use connectorhost.Dict.{Dict, lookup, insert, delete}
use connectorhost.Policy.{
  AccessMode, HostWorkKind, shell, connector_install, connector_update, connector_remove,
  connector_rollback, connector_job, connector_cancel, other_kind, allows_remote_management,
}
use connectorhost.Protocol.{Protocol, Attempt}
use connectorhost.Record.{ConnectorRecord, validate_connector_record}
use connectorhost.Store.{State, Store, WriteOutcome, written, failed, replaced_with_error, commit}
use connectorhost.Store.Plans.{connector, put_inventory_connector, put_remote_connector}
use connectorhost.Recovery.{
  ManagementOutcome, Status, running, success, failure, canceled, timeout, is_running, is_success,
  is_transition, Circumstances, remote_inventory_revision, recover_all, Journal, save_outcome,
  has_kind,
}
use connectorhost.Artifact.{System, Steps}
use connectorhost.Artifact.Inputs.{ConnectorArtifactInput, Response}
use connectorhost.Host.{Host, Turn, Changed}
use connectorhost.Host.Changes.{install_remote, rollback}
use connectorhost.Host.Removing.{remove}

-- The parts of `protocol.HostManagementJob` that the host reads, with the input as the strict decoder
-- has it, and whether the deadline has passed.
pub record Job : Type 0 where
  pub job_id : String
  pub attempt_token : String
  pub expired : Bool
  pub input : Result ConnectorArtifactInput

-- `protocol.HostManagementCompletion` but for the identity of the job
pub record Completion : Type 0 where
  pub status : Status
  pub output : String
  pub failed_with : Option Error
  pub revision : ℕ

-- The host, and its journal by the jobs
pub record Desk (M : Type 0) : Type 0 where
  pub host : Host M
  pub journal : Dict (ManagementOutcome M)

-- What a job leaves, and the completion that is sent of it, if one is.
abbrev pub Handled : Type 0 → Type 0
Handled M = Desk M × Option Completion

unfoldable pub failing : Error → Completion
failing e = record { status = failure; output = ""; failed_with = some e; revision = 0 }

unfoldable pub same_kind : HostWorkKind → HostWorkKind → Bool
same_kind shell shell = true
same_kind connector_install connector_install = true
same_kind connector_update connector_update = true
same_kind connector_remove connector_remove = true
same_kind connector_rollback connector_rollback = true
same_kind connector_job connector_job = true
same_kind connector_cancel connector_cancel = true
same_kind (other_kind a) (other_kind b) = a == b
same_kind _ _ = false

module _ {M : Type 0} where
  -- saveManagementOutcome, at the desk
  unfoldable pub save_management_outcome :
      WriteOutcome → ManagementOutcome M → Desk M → Desk M × Result (Unit {0})
  unfolding save_outcome
  save_management_outcome w o d =
      let done = save_outcome w o d.journal in (record d { journal = done.0 }, done.1)

  -- The answer that a settled journal gives
  unfoldable pub replayed : ManagementOutcome M → Completion
  replayed o = record {
    status = o.status;
    output = o.output;
    failed_with = o.failed_with;
    revision = o.inventory_revision;
  }

-- What errors.Is tells of an error of the work, and the status that it gives.
pub data Cause : Type 0 where
  deadline_exceeded context_canceled other_cause : Cause

unfoldable pub error_status : Cause → Status
error_status deadline_exceeded = timeout
error_status context_canceled = canceled
error_status other_cause = failure

-- What happens around one job: the journal is read, the interrupted outcomes are recovered, the
-- outcome is saved before and after the work, a repeated transition is written, the start is announced,
-- the work is done, and the completion is delivered and the journal's file removed. `cause` tells the
-- errors of an expired or canceled context.
pub record Surroundings (p : Protocol) (sys : System p.Manifest) : Type 0 where
  pub readable : Result (Unit {0})
  pub recovering : ManagementOutcome p.Manifest → Circumstances
  pub first_save : WriteOutcome
  pub last_save : WriteOutcome
  pub transition_write : WriteOutcome
  pub announced : Result (Unit {0})
  pub cause : Error → Cause
  pub turn : Turn p.Manifest
  pub steps : Steps p sys
  pub answered : Result Response
  pub shell_output : Result String
  pub delivered : Bool
  pub removable : Bool

module _ (p : Protocol) where
  open p use {Manifest}

  valid_snapshot : String → Option (ConnectorRecord Manifest) → Bool
  valid_snapshot id none = true
  valid_snapshot id (some r) = r.installation_id == id && is_ok (validate_connector_record p r)

  -- The checks of loadManagementOutcome that the types leave open
  unfoldable pub valid_outcome : String → ManagementOutcome Manifest → Bool
  unfolding valid_snapshot
  valid_outcome job_id o =
      o.job_id == job_id
      && not (o.attempt_token == "")
      && has_kind o.kind
      && (if o.connector_existed
          then is_some o.connector_before
          else not (is_some o.connector_before))
      && valid_snapshot o.connector_id o.connector_before

  unfoldable pub decoded :
      Result (Unit {0})
      → String
      → Option (ManagementOutcome Manifest)
      → Result (Option (ManagementOutcome Manifest))
  unfolding valid_outcome
  decoded readable job_id none = ok none
  decoded readable job_id (some o) =
      readable >> (guard (valid_outcome job_id o) undecodable >> ok (some o))

  -- loadManagementOutcome
  unfoldable pub load_management_outcome :
      Result (Unit {0})
      → Dict (ManagementOutcome Manifest)
      → String
      → Result (Option (ManagementOutcome Manifest))
  unfolding decoded
  load_management_outcome readable j job_id = decoded readable job_id (lookup job_id j)

  module _ (canonical : String → Option String) where
    abbrev pub Swept : Type 0
    Swept = (Store Manifest × Dict (ManagementOutcome Manifest)) × Result (Unit {0})

    -- The outcomes of the journal, with what happens at each
    with_circumstances :
        (ManagementOutcome Manifest → Circumstances)
        → Dict (ManagementOutcome Manifest)
        → Journal p canonical
    with_circumstances recovering [] = []
    with_circumstances recovering ((job, o) ∷ rest) =
        (o, recovering o) ∷ with_circumstances recovering rest

    -- recoverInterruptedManagement over the whole journal
    unfoldable pub sweep :
        (ManagementOutcome Manifest → Circumstances)
        → Dict (ManagementOutcome Manifest)
        → Store Manifest
        → Swept
    unfolding recover_all with_circumstances
    sweep recovering j s = recover_all p canonical (with_circumstances recovering j) (s, j)
