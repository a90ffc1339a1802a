-- ===== src/Samples.antt =====
-- A protocol and a few records to run the model on: manifests are a contract and a digest, and JSON
-- has one layout.
use connectorhost.Common.{refl, String, true, false, none, some, [], ◌∷◌}
use Prim.Native.String.{◌++◌}
use connectorhost.Protocol.{Protocol, IsCodec, IsProtocol}
use connectorhost.Text.{is_blank}
use connectorhost.Record.{
  ConnectorRecord, validate_connector_record, validate_installation_id, validate_display_name,
  validate_artifact_filename, validate_host_storage_origins, validate_rollback_slot, bounded_json,
  clone_record, written_record,
}
use connectorhost.Record.Storable.{IsStorable}
use connectorhost.Store.{Store}
use connectorhost.Store.Load.{initial}

pub record SampleManifest : Type 0 where
  pub contract : String
  pub digest : String

abbrev pub demo : Protocol
demo = record {
  Manifest = SampleManifest;
  contract_id = λ m. m.contract;
  artifact_digest = λ m. m.digest;
  interface_name = λ m. m.contract;
  features = λ m. "hosted-child-v1" ∷ [];
  targets = λ m. "linux-amd64" ∷ [];
  valid_manifest = λ m. true;
  valid_digest = λ d. true;
  valid_mutation = λ m. true;
  valid_response = λ r. true;
  max_hosted_connectors = 4;
  max_job_payload_bytes = 64;
  max_host_display_name_bytes = 32;
  json_valid = λ s. true;
  manifest_json = λ m. some (m.contract ++ m.digest);
  mutation_json = λ m. some (m.installation_id ++ m.display_name);
  compact = λ s. s;
  indent = λ s. s;
  reread = λ m. m;
}

abbrev pub demo-IsCodec : IsCodec demo
demo-IsCodec = record {
  compact-compact = λ s. refl;
  compact-indent = λ s. refl;
  indent-compact = λ s. refl;
  indent-indent = λ s. refl;
  reread-reread = λ m. refl;
  contract_id-reread = λ m. refl;
}

abbrev pub demo-IsProtocol : IsProtocol demo
demo-IsProtocol = record { origins_alone = λ r e. refl; mutation_marshals = λ m e. refl }

-- A connector of the contract "mail" at its first artifact.
abbrev pub mail : ConnectorRecord SampleManifest
mail = record {
  installation_id = "mail-1";
  display_name = "Mail";
  active_digest = "d1";
  previous_digest = "";
  filename = "mail";
  previous_filename = "";
  settings = "{}";
  previous_settings = "";
  storage_origins = [];
  previous_storage_origins = [];
  manifest = record { contract = "mail"; digest = "d1" };
  previous_manifest = none;
  installed_at = 7;
  inventory_acknowledged = false;
}

pub mail-IsStorable : IsStorable demo mail
unfolding validate_connector_record validate_installation_id validate_display_name
    validate_artifact_filename validate_host_storage_origins validate_rollback_slot bounded_json
    is_blank clone_record written_record
mail-IsStorable = record { given = refl; cloned = refl; written = refl }

abbrev pub blank : Store SampleManifest
blank = record { state = initial; disk = some initial }
