-- ===== src/Management/Handling.antt =====
-- handleManagement of host.go, step by step.
use connectorhost.Common.{
  ℕ, String, Bool, true, false, not, ◌&&◌, ◌||◌, Option, none, some, ◌==◌, nat_eq, string_eq,
  if◌then◌else◌, is_some, Result, ok, err, policy_denied, bad_job,
}
use connectorhost.Dict.{delete}
use connectorhost.Policy.{
  HostWorkKind, shell, connector_install, connector_update, connector_remove, connector_rollback,
  allows_remote_management,
}
use connectorhost.Protocol.{Protocol}
use connectorhost.Record.{ConnectorRecord}
use connectorhost.Store.{Plan}
use connectorhost.Store.Plans.{connector, put_inventory_connector, put_remote_connector}
use connectorhost.Recovery.{
  ManagementOutcome, running, success, is_transition, remote_inventory_revision,
}
use connectorhost.Artifact.{System}
use connectorhost.Artifact.Inputs.{ConnectorArtifactInput}
use connectorhost.Host.{Host, Changed}
use connectorhost.Host.Changes.{install_remote, rollback}
use connectorhost.Host.Removing.{remove}
use connectorhost.Management.{
  error_status, Job, Completion, Desk, Handled, failing, save_management_outcome,
  load_management_outcome,
}
use connectorhost.Management.Answering.{Around, attempt_of, replay}

module _ (p : Protocol) (sys : System p.Manifest) (canonical : String → Option String) where
  open p use {Manifest}

  -- The work itself: the switch over the kinds
  abbrev pub Worked : Type 0
  Worked = Host Manifest × Result String

  unfoldable pub without_output {ℓ} : {A : Type ℓ} → Changed p sys A → Worked
  without_output (h, err e) = (h, err e)
  without_output (h, ok _) = (h, ok "")

  unfoldable pub install_for :
      Around p sys canonical
      → (ConnectorRecord Manifest → Plan p)
      → Bool
      → String
      → Host Manifest
      → Result ConnectorArtifactInput
      → Worked
  unfolding without_output install_remote
  install_for around plan update id h (err e) = (h, err e)
  install_for around plan update id h (ok input) =
      if not (input.installation_id == "") && not (input.installation_id == id)
      then (h, err bad_job)
      else without_output (
          install_remote p sys around.turn around.steps around.answered plan
            (record input { installation_id = id }) update h)

  unfoldable pub transition : Job → ConnectorRecord Manifest → Plan p
  transition job r = put_inventory_connector p r (some (attempt_of p sys canonical job))

  unfoldable pub execute :
      Around p sys canonical → Job → HostWorkKind → String → Host Manifest → Worked
  unfolding install_for without_output remove rollback transition
  execute around job shell id h = (h, around.shell_output)
  execute around job connector_install id h =
      install_for around (put_remote_connector p) false id h job.input
  execute around job connector_update id h = install_for around (transition job) true id h job.input
  execute around job connector_remove id h = without_output (remove p sys around.turn id false h)
  execute around job connector_rollback id h =
      without_output (rollback p sys around.turn (transition job) id h)
  execute around job kind id h = (h, err bad_job)

  -- The outcome is saved, and its completion sent if that succeeds.
  unfoldable pub send_saved : Completion → Desk Manifest × Result (Unit {0}) → Handled Manifest
  send_saved c (d, err e) = (d, none)
  send_saved c (d, ok _) = (d, some c)

  unfoldable pub record_completion :
      Around p sys canonical
      → ManagementOutcome Manifest
      → Completion
      → Desk Manifest
      → Handled Manifest
  unfolding send_saved save_management_outcome
  record_completion around o c d = send_saved c (
      save_management_outcome around.last_save
        (record o {
          status = c.status;
          output = c.output;
          failed_with = c.failed_with;
          inventory_revision = c.revision;
        })
        d)

  abbrev pub succeeding : String → ℕ → Completion
  succeeding output revision = record {
    status = success;
    output = output;
    failed_with = none;
    revision = revision;
  }

  -- A transition that has queued no mutation for this job is not reported.
  unfoldable pub report_transition :
      Around p sys canonical → ManagementOutcome Manifest → ℕ → Desk Manifest → Handled Manifest
  unfolding record_completion
  report_transition around o revision d =
      let reported = record_completion around o (succeeding "" revision) d in
      if revision == 0 then (d, none) else reported

  unfoldable pub settle_work :
      Around p sys canonical
      → ManagementOutcome Manifest
      → Desk Manifest
      → Worked
      → Handled Manifest
  unfolding record_completion report_transition remote_inventory_revision is_transition failing
      error_status
  settle_work around o d (h, err e) =
      record_completion around o (record (failing e) { status = error_status (around.cause e) })
        (record d { host = h })
  settle_work around o d (h, ok output) =
      let revision = remote_inventory_revision o.connector_id o.job_id h.store.state.pending in
      if is_transition o.kind
      then report_transition around o revision (record d { host = h })
      else record_completion around o (succeeding output 0) (record d { host = h })

  unfoldable pub run_announced :
      Around p sys canonical
      → Job
      → ManagementOutcome Manifest
      → Desk Manifest
      → Result (Unit {0})
      → Handled Manifest
  unfolding settle_work execute
  run_announced around job o d (err e) = (
    record d { journal = if around.removable then delete job.job_id d.journal else d.journal },
    some (failing e),
  )
  run_announced around job o d (ok _) =
      settle_work around o d (execute around job o.kind o.connector_id d.host)

  unfoldable pub run_saved :
      Around p sys canonical
      → Job
      → ManagementOutcome Manifest
      → Desk Manifest × Result (Unit {0})
      → Handled Manifest
  unfolding run_announced
  run_saved around job o (d, err e) = (d, some (failing e))
  run_saved around job o (d, ok _) = run_announced around job o d around.announced

  -- A new journal, with the connector as it is before the work
  unfoldable pub new_outcome :
      Job → HostWorkKind → String → Option (ConnectorRecord Manifest) → ManagementOutcome Manifest
  new_outcome job kind id before = record {
    inventory_revision = 0;
    job_id = job.job_id;
    attempt_token = job.attempt_token;
    kind = kind;
    connector_id = id;
    status = running;
    output = "";
    failed_with = none;
    process_id = 0;
    connector_existed = is_some before;
    connector_before = before;
  }

  unfoldable pub start_job :
      Around p sys canonical → Job → HostWorkKind → String → Desk Manifest → Handled Manifest
  unfolding run_saved new_outcome save_management_outcome connector
  start_job around job kind id d =
      let before = if id == "" then none else connector p d.host.store.state id in
      let o = new_outcome job kind id before in
      run_saved around job o (save_management_outcome around.first_save o d)

  unfoldable pub handle_loaded :
      Around p sys canonical
      → Job
      → HostWorkKind
      → String
      → Desk Manifest
      → Result (Option (ManagementOutcome Manifest))
      → Handled Manifest
  unfolding start_job replay
  handle_loaded around job kind id d (err e) = (d, some (failing e))
  handle_loaded around job kind id d (ok none) = start_job around job kind id d
  handle_loaded around job kind id d (ok (some o)) = replay p sys canonical around job kind id d o

  unfoldable pub work :
      Around p sys canonical → Job → HostWorkKind → String → Desk Manifest → Handled Manifest
  unfolding handle_loaded load_management_outcome connector allows_remote_management
  work around job kind id d =
      let st = d.host.store.state in
      let loaded =
        handle_loaded around job kind id d
          (load_management_outcome p around.readable d.journal job.job_id) in
      if not (allows_remote_management st.access_mode kind (is_some (connector p st id)))
      then (d, some (failing policy_denied))
      else if job.job_id == "" || job.attempt_token == "" || job.expired
      then (d, some (failing bad_job))
      else loaded

  -- The completion is sent, and the journal removed once it was delivered.
  unfoldable pub deliver : Around p sys canonical → Job → Handled Manifest → Handled Manifest
  deliver around job (d, none) = (d, none)
  deliver around job (d, some c) = (
    record d {
      journal =
          if around.delivered && around.removable then delete job.job_id d.journal else d.journal;
    },
    some c,
  )

  -- handleManagement
  unfoldable pub handle_management :
      Around p sys canonical → Job → HostWorkKind → String → Desk Manifest → Handled Manifest
  unfolding deliver work
  handle_management around job kind id d = deliver around job (work around job kind id d)
