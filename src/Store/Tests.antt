-- ===== src/Store/Tests.antt =====
-- Tests of the Store, and its theorems at concrete inputs.
use connectorhost.Common.{some-eq, ◌≡◌, refl, ap, subst, true, arith, none, some, List, [], ◌∷◌, ok}
use connectorhost.Dict.{lookup, insert, delete}
use connectorhost.Text.{is_blank}
use connectorhost.Contracts.{validate_singleton_contracts}
use connectorhost.Record.{
  ConnectorRecord, validate_connector_record, validate_installation_id, validate_display_name,
  validate_artifact_filename, validate_host_storage_origins, validate_rollback_slot, bounded_json,
  clone_record, next_mutation_revision, inventory_upsert_mutation,
}
use connectorhost.Samples.{
  demo, demo-IsCodec, demo-IsProtocol, SampleManifest, mail, mail-IsStorable, blank,
}
use connectorhost.Store.{
  State, Store, WriteOutcome, is_upsert, rewrite_current_state, written, replaced_with_error,
  commit, can_enqueue, check_candidate, check_removals, is_remove,
}
use connectorhost.Store.Plans.{
  put_inventory_connector, remove_local_connector, removal, inherit, fenced,
}
use connectorhost.Store.Operations.{Operation, puts_local, removes_local, run, step, IsSound}
use connectorhost.Store.Invariant.{IsConsistent}
use connectorhost.Store.Load.{initial, load, decoded, read_back, reread_state}
use connectorhost.Store.Sound.{step-IsSound}
use connectorhost.Store.Reload.{initial-IsConsistent, reload_after_run}
use connectorhost.Store.Effects.{InventoryPut, put_inventory_effect}
use connectorhost.Store.Progress.{rewrite_heals, acknowledge_upsert_taken}
use connectorhost.Store.Acknowledge.{applied, acknowledge_inventory_mutation}
use connectorhost.Protocol.{MutationRequest, MutationResponse}

blank-IsSound : IsSound demo blank
blank-IsSound = record {
  memory = initial-IsConsistent demo demo-IsCodec demo-IsProtocol;
  file = λ st e.
      subst (IsConsistent demo) (some-eq e)
        (initial-IsConsistent demo demo-IsCodec demo-IsProtocol);
}

-- A local installation whose write is reported as failed after the file was replaced, and a restart.
abbrev history : List (Operation SampleManifest × WriteOutcome)
history = (puts_local mail, replaced_with_error) ∷ []

abbrev left_behind : State SampleManifest
left_behind = record initial {
  mutation_revision = 1;
  connectors = ("mail-1", mail) ∷ [];
  pending = ("mail-1", inventory_upsert_mutation demo mail 1) ∷ [];
}

history_file : (run demo history blank).disk ≡ some left_behind
unfolding run step commit check_candidate check_removals put_inventory_connector inherit fenced
    validate_connector_record validate_installation_id validate_display_name
    validate_artifact_filename validate_host_storage_origins validate_rollback_slot bounded_json
    is_blank clone_record next_mutation_revision can_enqueue inventory_upsert_mutation lookup insert
    validate_singleton_contracts
history_file = refl

reload_after_run_example :
    load demo blank (decoded (read_back demo left_behind)) written
    ≡ (record blank { state = reread_state demo left_behind }, ok tt)
reload_after_run_example =
    (reload_after_run demo demo-IsCodec demo-IsProtocol blank blank history written left_behind
      blank-IsSound (mail-IsStorable, tt) history_file).0

step-IsSound_example : IsSound demo (step demo (puts_local mail) written blank)
step-IsSound_example =
    step-IsSound demo demo-IsCodec demo-IsProtocol (puts_local mail) written blank blank-IsSound
      mail-IsStorable

abbrev left : Store SampleManifest
left = record { state = left_behind; disk = some left_behind }

put_left :
    commit demo blank (put_inventory_connector demo mail none initial) written ≡ (left, ok tt)
unfolding commit check_candidate check_removals put_inventory_connector inherit fenced
    validate_connector_record validate_installation_id validate_display_name
    validate_artifact_filename validate_host_storage_origins validate_rollback_slot bounded_json
    is_blank clone_record next_mutation_revision can_enqueue inventory_upsert_mutation lookup insert
    validate_singleton_contracts
put_left = refl

left-IsConsistent : IsConsistent demo left_behind
left-IsConsistent =
    (subst (IsSound demo) (ap (λ x. x.0) put_left) (
      unfold step in
      step-IsSound demo demo-IsCodec demo-IsProtocol (puts_local mail) written blank blank-IsSound
        mail-IsStorable)).memory

abbrev queued_mail : MutationRequest SampleManifest
queued_mail = inventory_upsert_mutation demo mail 1

abbrev taken_mail : MutationResponse
taken_mail = record {
  installation_id = "mail-1";
  acknowledged_revision = 1;
  storage_origins = "https://mail.example" ∷ [];
}

put_inventory_effect_example :
    let after = (commit demo blank (put_inventory_connector demo mail none initial) written).0 in
    (after.disk ≡ some after.state) × InventoryPut demo mail none initial after.state
put_inventory_effect_example =
    put_inventory_effect demo mail none blank written (omega arith) (ap (λ x. x.1) put_left)

rewrite_heals_example :
    rewrite_current_state demo (record left { disk = none }) written ≡ (left, ok tt)
rewrite_heals_example = rewrite_heals demo (record left { disk = none }) left-IsConsistent

queued_lookup : lookup "mail-1" left_behind.pending ≡ some queued_mail
unfolding lookup inventory_upsert_mutation
queued_lookup = refl

acknowledge_upsert_taken_example :
    let done = acknowledge_inventory_mutation demo queued_mail taken_mail left written in
    (answer : ConnectorRecord SampleManifest) × (r : ConnectorRecord SampleManifest) × (done.1
      ≡ ok (applied (some answer)))
    × (done.0.disk ≡ some done.0.state)
    × (lookup "mail-1" done.0.state.pending ≡ none)
    × (lookup "mail-1" done.0.state.connectors ≡ some r)
    × (r.inventory_acknowledged ≡ true)
    × (r.storage_origins ≡ "https://mail.example" ∷ [])
unfolding is_upsert inventory_upsert_mutation lookup
acknowledge_upsert_taken_example =
    acknowledge_upsert_taken demo demo-IsCodec demo-IsProtocol queued_mail taken_mail left
      left-IsConsistent refl refl refl refl
      (λ e. absurd (unfold is_remove inventory_upsert_mutation in cc)) refl

abbrev removed : Store SampleManifest
removed =
    let st = record initial {
      mutation_revision = 2;
      pending = ("mail-1", removal demo "mail-1" 2) ∷ [];
    } in
    record { state = st; disk = some st }

remove_left :
    commit demo left (remove_local_connector demo "mail-1" left_behind) written ≡ (removed, ok tt)
unfolding commit check_candidate check_removals remove_local_connector next_mutation_revision
    can_enqueue lookup insert delete validate_singleton_contracts validate_installation_id is_remove
    inventory_upsert_mutation
remove_left = refl

left-IsSound : IsSound demo left
left-IsSound = subst (IsSound demo) (ap (λ x. x.0) put_left) (
    unfold step in
    step-IsSound demo demo-IsCodec demo-IsProtocol (puts_local mail) written blank blank-IsSound
      mail-IsStorable)

removed-IsConsistent : IsConsistent demo removed.state
removed-IsConsistent =
    (subst (IsSound demo) (ap (λ x. x.0) remove_left) (
      unfold step in
      step-IsSound demo demo-IsCodec demo-IsProtocol (removes_local "mail-1") written left
        left-IsSound tt)).memory
