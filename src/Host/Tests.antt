-- ===== src/Host/Tests.antt =====
-- Tests of the host's changes, and their theorems at concrete inputs.
use connectorhost.Common.{some-eq, ◌≡◌, refl, subst, none, some, [], ◌∷◌, ok, true, false}
use connectorhost.Dict.{lookup, insert, delete}
use connectorhost.Samples.{demo, demo-IsCodec, demo-IsProtocol, SampleManifest, mail, blank}
use connectorhost.Text.{is_blank}
use connectorhost.Contracts.{validate_singleton_contracts}
use connectorhost.Record.Storable.{IsStorable}
use connectorhost.Record.{
  ConnectorRecord, validate_connector_record, validate_installation_id, validate_display_name,
  validate_artifact_filename, validate_host_storage_origins, validate_rollback_slot, bounded_json,
  clone_record, written_record,
}
use connectorhost.Store.Operations.{puts_remote, step, IsSound}
use connectorhost.Store.Invariant.{IsConsistent}
use connectorhost.Store.Sound.{step-IsSound}
use connectorhost.Store.{State, commit, check_candidate, check_removals, written}
use connectorhost.Store.Load.{initial}
use connectorhost.Store.Plans.{
  connector, put_inventory_connector, put_remote_connector, remove_remote_connector,
}
use connectorhost.Store.Reload.{initial-IsConsistent}
use connectorhost.Artifact.Samples.{sample_system, sample_steps, sample_input, sample_response}
use connectorhost.Supervisor.Lifecycle.{connector_artifacts}
use connectorhost.Host.Samples.{calm_turn, idle}
use connectorhost.Host.{Host, cleanup_connector_artifacts}
use connectorhost.Host.Changes.{install_remote, rollback}
use connectorhost.Host.Removing.{remove}
use connectorhost.Host.Switched.{cleanup_connector_artifacts-kept}
use connectorhost.Host.RolledBack.{RollsBack, rollback-Outcome}
use connectorhost.Host.Outcomes.{IsSettled, Outcome}
use connectorhost.Host.Installed.{staged_remote, Follows, install_remote-Outcome}
use connectorhost.Host.Removed.{IsGone, remove-IsGone}
use connectorhost.Host.View.{Refines, updates, put_remote_Puts, put_inventory_Puts}
use connectorhost.Host.Refinement.{Request, update_for, serve, serve-Refines}

idle-IsSettled : IsSettled demo sample_system idle.store
idle-IsSettled = record {
  consistent = initial-IsConsistent demo demo-IsCodec demo-IsProtocol;
  same = refl;
}

install_remote-Outcome_example :
    Outcome demo sample_system
      (put_remote_connector demo)
      (Follows "mail-1" false
        (staged_remote demo sample_system calm_turn refl idle idle-IsSettled sample_steps
          (ok sample_response)
          sample_input
          (connector demo initial "mail-1"))
        (connector demo initial "mail-1"))
      blank
      (install_remote demo sample_system calm_turn sample_steps
        (ok sample_response)
        (put_remote_connector demo)
        sample_input
        false
        idle)
install_remote-Outcome_example =
    install_remote-Outcome demo sample_system calm_turn refl idle idle-IsSettled sample_steps
      (ok sample_response) (put_remote_connector demo) (put_remote_Puts demo) sample_input false

-- "mail-1" with the artifact "d1", and "d2" in its rollback slot
abbrev two_artifacts : ConnectorRecord SampleManifest
two_artifacts = record mail {
  previous_digest = "d2";
  previous_filename = "mail-2";
  previous_settings = "{}";
  previous_manifest = some (record { contract = "mail"; digest = "d2" });
}

two_artifacts-IsStorable : IsStorable demo two_artifacts
unfolding validate_connector_record validate_installation_id validate_display_name
    validate_artifact_filename validate_host_storage_origins validate_rollback_slot bounded_json
    is_blank clone_record written_record
two_artifacts-IsStorable = record { given = refl; cloned = refl; written = refl }

abbrev with_mail : State SampleManifest
with_mail = record initial {
  connectors = ("mail-1", record two_artifacts { inventory_acknowledged = true }) ∷ [];
}

abbrev running : Host SampleManifest
running = record {
  store = record { state = with_mail; disk = some with_mail };
  supervisor = record {
    children =
        ("mail-1", record { manifest = mail.manifest; ready = true; stopping = false; active = [] })
        ∷ [];
    failures = [];
  };
  files =
      (
        "mail-1",
        (
          "d2",
          (
            "mail-2",
            record { regular = true; is_directory = false; executable = true; content = 2 ∷ [] },
          )
              ∷ [],
        )
            ∷ ("d9", [])
            ∷ [],
      )
      ∷ [];
}

blank-IsSound : IsSound demo blank
blank-IsSound = record {
  memory = initial-IsConsistent demo demo-IsCodec demo-IsProtocol;
  file = λ st e.
      subst (IsConsistent demo) (some-eq e)
        (initial-IsConsistent demo demo-IsCodec demo-IsProtocol);
}

put_with_mail : step demo (puts_remote two_artifacts) written blank ≡ running.store
unfolding step commit check_candidate check_removals put_remote_connector validate_connector_record
    validate_installation_id validate_display_name validate_artifact_filename
    validate_host_storage_origins validate_rollback_slot bounded_json is_blank clone_record lookup
    insert delete validate_singleton_contracts
put_with_mail = refl

running-IsSettled : IsSettled demo sample_system running.store
running-IsSettled = record {
  consistent =
      (subst (IsSound demo) put_with_mail (
        step-IsSound demo demo-IsCodec demo-IsProtocol (puts_remote two_artifacts) written blank
          blank-IsSound two_artifacts-IsStorable)).memory;
  same = refl;
}

rollback-Outcome_example :
    Outcome demo sample_system
      (λ r. put_inventory_connector demo r none)
      (RollsBack (connector demo with_mail "mail-1"))
      running.store
      (rollback demo sample_system calm_turn
        (λ r. put_inventory_connector demo r none)
        "mail-1"
        running)
rollback-Outcome_example =
    rollback-Outcome demo sample_system calm_turn refl running running-IsSettled
      (λ r. put_inventory_connector demo r none) (put_inventory_Puts demo none) "mail-1"

remove-IsGone_example :
    IsGone demo sample_system "mail-1"
      (remove demo sample_system (record calm_turn { writing = written }) "mail-1" false running).0
unfolding remove connector validate_installation_id lookup delete commit check_candidate
    check_removals remove_remote_connector validate_singleton_contracts clone_record
remove-IsGone_example =
    remove-IsGone demo sample_system (record calm_turn { writing = written }) "mail-1" false running
      refl

cleanup_connector_artifacts-kept_example :
    lookup "d2" (
      connector_artifacts "mail-1"
        (cleanup_connector_artifacts calm_turn.removals two_artifacts running.files))
    ≡ lookup "d2" (connector_artifacts "mail-1" running.files)
cleanup_connector_artifacts-kept_example =
    cleanup_connector_artifacts-kept calm_turn.removals two_artifacts "d2" running.files refl

abbrev update_request : Request demo sample_system
update_request =
    update_for (record { job_id = "job-1"; attempt_token = "a" }) calm_turn sample_steps
      (ok sample_response) sample_input

serve-Refines_example :
    Refines
      (updates sample_input.sha256)
      "mail-1"
      with_mail
      (serve demo sample_system update_request running).0.store.state
      (serve demo sample_system update_request running).1
serve-Refines_example =
    serve-Refines demo sample_system update_request running refl refl running-IsSettled
