-- ===== src/Recovery/Tests.antt =====
-- Tests of the recovery, and its theorems at concrete inputs.
use connectorhost.Common.{
  All, ◌≡◌, refl, String, true, false, Option, none, some, [], ◌∷◌, ok, err, external,
}
use connectorhost.Dict.{lookup, insert, delete}
use connectorhost.Text.{is_blank}
use connectorhost.Policy.{connector_update, connector_install, is_install}
use connectorhost.Record.{
  ConnectorRecord, validate_connector_record, validate_installation_id, validate_display_name,
  validate_artifact_filename, validate_host_storage_origins, validate_rollback_slot, bounded_json,
  clone_record, inventory_upsert_mutation,
}
use connectorhost.Contracts.{validate_singleton_contracts}
use connectorhost.Samples.{demo, SampleManifest, mail}
use connectorhost.Store.{State, Store, written, commit, check_candidate, check_removals, is_remove}
use connectorhost.Store.Plans.{connector, put_remote_connector, remove_remote_connector}
use connectorhost.Store.Load.{initial}
use connectorhost.Recovery.{
  recover_all, running, failure, ManagementOutcome, Circumstances, is_success, is_running,
  is_transition, swap_slots, remote_inventory_revision, recover_outcome, recover_kind, save_outcome,
  recover_install, settle_left, put_back, rollback_slots_swapped, finish,
}
use connectorhost.Recovery.Settled.{PutBack, recover_outcome-PutBack}
use connectorhost.Recovery.Installs.{recover_install_undone}
use connectorhost.Recovery.Answered.{Answered, recover_all_settles}
use connectorhost.Recovery.Slots.{rollback_slots_swapped-swap_slots}

abbrev text_json : String → Option String
text_json s = some s

-- A store with a connector that an update of the job "job-1" has changed.
abbrev updated : Store SampleManifest
updated =
    let st : State SampleManifest = record initial {
      mutation_revision = 4;
      connectors = ("mail-1", mail) ∷ [];
      pending =
          (
            "mail-1",
            record (inventory_upsert_mutation demo mail 4) {
              management_attempt = some (record { job_id = "job-1"; attempt_token = "a" });
            },
          )
          ∷ [];
    } in
    record { state = st; disk = some st }

abbrev old_mail : ConnectorRecord SampleManifest
old_mail = record mail {
  active_digest = "d0";
  manifest = record { contract = "mail"; digest = "d0" };
}

abbrev journal : ManagementOutcome SampleManifest
journal = record {
  inventory_revision = 0;
  job_id = "job-1";
  attempt_token = "a";
  kind = connector_update;
  connector_id = "mail-1";
  status = running;
  output = "";
  failed_with = none;
  process_id = 0;
  connector_existed = true;
  connector_before = some old_mail;
}

abbrev install_journal : ManagementOutcome SampleManifest
install_journal = record journal {
  kind = connector_install;
  connector_existed = false;
  connector_before = none;
}

abbrev calm : Circumstances
calm = record {
  start = ok tt;
  stop = ok tt;
  terminate = ok tt;
  store_write = written;
  remove_files = ok tt;
  save_journal = written;
}

abbrev start_fails : Circumstances
start_fails = record calm { start = err external }

recover_outcome-PutBack_example :
    PutBack demo text_json old_mail (recover_outcome demo text_json start_fails journal updated).0
unfolding recover_outcome recover_kind finish is_running is_transition is_success put_back commit
    check_candidate check_removals put_remote_connector validate_connector_record
    validate_installation_id validate_display_name validate_artifact_filename
    validate_host_storage_origins validate_rollback_slot bounded_json is_blank clone_record lookup
    insert delete validate_singleton_contracts inventory_upsert_mutation connector
    remote_inventory_revision is_remove
recover_outcome-PutBack_example =
    recover_outcome-PutBack demo text_json start_fails journal
      (record journal { status = failure; failed_with = some external }) updated old_mail refl refl
      refl refl refl

recover_install_undone_example :
    connector demo
      (recover_outcome demo text_json start_fails install_journal updated).0.state
      "mail-1"
    ≡ none
unfolding recover_outcome recover_kind recover_install settle_left finish is_running is_install
    is_success commit check_candidate check_removals remove_remote_connector
    validate_installation_id clone_record lookup delete validate_singleton_contracts connector
    is_remove inventory_upsert_mutation
recover_install_undone_example =
    recover_install_undone demo text_json start_fails install_journal
      (record install_journal { status = failure; failed_with = some external }) updated refl refl
      refl refl refl

abbrev with_slot : ConnectorRecord SampleManifest
with_slot = record mail {
  previous_digest = "d0";
  previous_filename = "mail-old";
  previous_settings = "{}";
  previous_manifest = some (record { contract = "mail"; digest = "d0" });
}

-- Every text has one canonical form.
abbrev one_form : String → Option String
one_form s = some "{}"

abbrev slot_manifest : SampleManifest
slot_manifest = record { contract = "mail"; digest = "d0" }

abbrev rolled_back : ConnectorRecord SampleManifest
rolled_back = record (swap_slots with_slot slot_manifest) { settings = "{ }" }

abbrev journaled : ConnectorRecord SampleManifest
journaled = record with_slot { settings = "{  }" }

rollback_slots_swapped-swap_slots_example :
    rollback_slots_swapped demo one_form rolled_back journaled ≡ true
unfolding swap_slots
rollback_slots_swapped-swap_slots_example =
    rollback_slots_swapped-swap_slots demo one_form with_slot rolled_back journaled slot_manifest
      refl
      (record {
        active = refl;
        previous = refl;
        filename = refl;
        previous_filename = refl;
        origins = refl;
        previous_origins = refl;
        settings = ("{}", refl, refl);
        previous_settings = ("{}", refl, refl);
        manifest = ("maild0", refl, refl);
        manifests = (with_slot.manifest, with_slot.manifest, refl, refl, ("maild1", refl, refl));
      })
      (record {
        active = refl;
        previous = refl;
        filename = refl;
        previous_filename = refl;
        origins = refl;
        previous_origins = refl;
        settings = ("{}", refl, refl);
        previous_settings = ("{}", refl, refl);
        manifest = ("maild1", refl, refl);
        manifests = (slot_manifest, slot_manifest, refl, refl, ("maild0", refl, refl));
      })

recover_all_settles_example :
    All
      (λ (e : ManagementOutcome SampleManifest × Circumstances).
        Answered e.0.job_id
          (recover_all demo text_json
            ((journal, start_fails) ∷ [])
            (updated, (journal.job_id, journal) ∷ [])).0.1)
      ((journal, start_fails) ∷ [])
unfolding recover_all recover_outcome recover_kind finish is_running is_transition is_success
    put_back commit check_candidate check_removals put_remote_connector validate_connector_record
    validate_installation_id validate_display_name validate_artifact_filename
    validate_host_storage_origins validate_rollback_slot bounded_json is_blank clone_record lookup
    insert delete validate_singleton_contracts inventory_upsert_mutation connector
    remote_inventory_revision is_remove save_outcome
recover_all_settles_example =
    recover_all_settles demo text_json ((journal, start_fails) ∷ [])
      (updated, (journal.job_id, journal) ∷ []) (refl, tt) refl
