-- ===== src/Artifact/Tests.antt =====
-- Tests of the artifacts, and their theorems at concrete inputs.
use connectorhost.Common.{◌≡◌, refl, none, [], ok, false}
use connectorhost.Dict.{lookup}
use connectorhost.Samples.{demo, SampleManifest}
use connectorhost.Record.{
  ConnectorRecord, validate_installation_id, validate_host_storage_origins,
  validate_artifact_filename,
}
use connectorhost.Artifact.{validate_expected_digest, stage}
use connectorhost.Artifact.Inspect.{inspect_manifest}
use connectorhost.Artifact.Inputs.{Response, stage_remote, remote_candidate}
use connectorhost.Artifact.Checks.{IsStaged}
use connectorhost.Artifact.Staging.{stage_remote-IsStaged}
use connectorhost.Artifact.Samples.{sample_system, sample_steps, sample_input, sample_response}

abbrev staged : ConnectorRecord SampleManifest
staged = record {
  installation_id = "mail-1";
  display_name = "mail";
  active_digest = "d2";
  previous_digest = "";
  filename = "mail-2";
  previous_filename = "";
  settings = "{}";
  previous_settings = "";
  storage_origins = [];
  previous_storage_origins = [];
  manifest = record { contract = "mail"; digest = "d2" };
  previous_manifest = none;
  installed_at = 9;
  inventory_acknowledged = false;
}

stage_remote-IsStaged_example :
    (staged.active_digest ≡ sample_input.sha256)
    × (answer : Response) × (ok sample_response ≡ ok answer)
    × IsStaged demo sample_system
        (remote_candidate demo sample_system sample_input "" answer)
        []
        (stage_remote demo sample_system [] sample_steps sample_input "" (ok sample_response)).0
        staged
unfolding stage_remote stage validate_installation_id validate_host_storage_origins
    validate_artifact_filename validate_expected_digest inspect_manifest lookup
stage_remote-IsStaged_example =
    stage_remote-IsStaged demo sample_system [] sample_steps sample_input "" (ok sample_response)
      staged refl refl
