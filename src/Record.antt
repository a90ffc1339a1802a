-- ===== src/Record.antt =====
-- ConnectorRecord of state.go, and the functions of that file and of artifact.go that validate one,
-- copy one and describe one to the control plane.
pub mod Storable
use Prim.Native.String.{len}
use connectorhost.Common.{
  ℕ, ◌+◌, String, Bool, true, false, not, ◌&&◌, ◌||◌, Option, none, some, List, [], ◌∷◌, ◌++◌, leb,
  length, ◌==◌, nat_eq, string_eq, if◌then◌else◌, is_some, Result, ok, err, ◌>>◌, guard, is_ok,
  bad_installation_id, bad_display_name, display_name_required, bad_filename, bad_settings,
  digest_mismatch, incomplete_rollback, rollback_digest_mismatch, revision_exhausted, rejected,
}
use connectorhost.Text.{codes, every, contains, matches_id_pattern, is_control, is_blank}
use connectorhost.Protocol.{Protocol, Artifact, MutationRequest, upsert}

pub record ConnectorRecord (M : Type 0) : Type 0 where
  pub installation_id : String
  pub display_name : String
  pub active_digest : String
  pub previous_digest : String
  pub filename : String
  pub previous_filename : String
  pub settings : String
  pub previous_settings : String
  pub storage_origins : List String
  pub previous_storage_origins : List String
  pub manifest : M
  pub previous_manifest : Option M
  pub installed_at : ℕ
  pub inventory_acknowledged : Bool

-- validateInstallationID
unfoldable pub validate_installation_id : String → Result (Unit {0})
unfolding codes matches_id_pattern
validate_installation_id id =
    guard (matches_id_pattern (codes id) && not (id == ".") && not (id == "..")) bad_installation_id

-- `filepath.Base` on a system whose separator is `/`, over the characters: trailing separators go,
-- and then all up to the last separator. `base_from` holds what followed the last separator so far.
unfoldable pub base_from : List ℕ → List ℕ → List ℕ
base_from part [] = part
base_from part (c ∷ cs) =
    let fresh = if every (λ x. x == b'/') cs then part else [] in
    base_from (if c == b'/' then fresh else part ++ c ∷ []) cs

unfoldable pub base : List ℕ → List ℕ
unfolding base_from every
base [] = b'.' ∷ []
base (c ∷ cs) = if every (λ x. x == b'/') (c ∷ cs) then b'/' ∷ [] else base_from [] (c ∷ cs)

unfoldable pub same_codes : List ℕ → List ℕ → Bool
same_codes [] [] = true
same_codes (x ∷ xs) (y ∷ ys) = x == y && same_codes xs ys
same_codes _ _ = false

-- validateArtifactFilename
unfoldable pub validate_artifact_filename : String → Result (Unit {0})
unfolding codes contains base same_codes
validate_artifact_filename filename =
    guard
      (not (
        filename == ""
        || not (same_codes (base (codes filename)) (codes filename))
        || contains b'/' (codes filename)
        || contains b'\\' (codes filename)))
      bad_filename

-- nextMutationRevision: the revision is a uint64.
abbrev pub max_uint64 : ℕ
max_uint64 = 18446744073709551615

unfoldable pub next_mutation_revision : ℕ → Result ℕ
next_mutation_revision current =
    if current == max_uint64 then err revision_exhausted else ok (current + 1)

module _ (p : Protocol) where
  open p use {Manifest}

  -- validateDisplayName
  unfoldable pub validate_display_name : String → Result (Unit {0})
  unfolding codes every is_control
  validate_display_name name = do
    guard (leb (len name) p.max_host_display_name_bytes) bad_display_name
    guard (every (λ c. not (is_control c)) (codes name)) bad_display_name

  -- validateHostStorageOrigins
  unfoldable pub validate_host_storage_origins : List String → Result (Unit {0})
  validate_host_storage_origins origins =
      guard
        (p.valid_response (record {
          installation_id = "00000000-0000-4000-8000-000000000001";
          acknowledged_revision = 1;
          storage_origins = origins;
        }))
        rejected

  unfoldable pub bounded_json : String → Bool
  bounded_json settings =
      not (len settings == 0) && leb (len settings) p.max_job_payload_bytes && p.json_valid settings

  abbrev no_manifest : Option Manifest → Bool
  no_manifest m = not (is_some m)

  no_rollback_slot_left : ConnectorRecord Manifest → Bool
  no_rollback_slot_left r =
      r.previous_filename == ""
      && no_manifest r.previous_manifest
      && len r.previous_settings == 0
      && length r.previous_storage_origins == 0

  validate_previous_manifest : ConnectorRecord Manifest → Option Manifest → Result (Unit {0})
  validate_previous_manifest r none = err incomplete_rollback
  validate_previous_manifest r (some m) = do
    guard (is_ok (validate_artifact_filename r.previous_filename)) incomplete_rollback
    guard (bounded_json r.previous_settings) incomplete_rollback
    guard (p.valid_manifest m) rejected
    guard (p.artifact_digest m == r.previous_digest) rollback_digest_mismatch

  unfoldable pub validate_rollback_slot : ConnectorRecord Manifest → Result (Unit {0})
  unfolding no_rollback_slot_left validate_previous_manifest
  validate_rollback_slot r =
      if r.previous_digest == "" then guard (no_rollback_slot_left r) incomplete_rollback else do
        guard (p.valid_digest r.previous_digest) rejected
        validate_previous_manifest r r.previous_manifest

  -- validateConnectorRecord
  unfoldable pub validate_connector_record : ConnectorRecord Manifest → Result (Unit {0})
  validate_connector_record r = do
    validate_installation_id r.installation_id
    validate_display_name r.display_name
    guard (not (is_blank r.display_name)) display_name_required
    validate_artifact_filename r.filename
    guard (p.valid_digest r.active_digest) rejected
    guard (bounded_json r.settings) bad_settings
    validate_host_storage_origins r.storage_origins
    validate_host_storage_origins r.previous_storage_origins
    guard (p.valid_manifest r.manifest) rejected
    guard (p.artifact_digest r.manifest == r.active_digest) digest_mismatch
    validate_rollback_slot r

  -- cloneRecord: what `json.Marshal` and `json.Unmarshal` make of a record.
  abbrev pub reread_option : Option Manifest → Option Manifest
  reread_option none = none
  reread_option (some m) = some (p.reread m)

  unfoldable pub clone_record : ConnectorRecord Manifest → ConnectorRecord Manifest
  clone_record r = record r {
    settings = p.compact r.settings;
    previous_settings = p.compact r.previous_settings;
    manifest = p.reread r.manifest;
    previous_manifest = reread_option r.previous_manifest;
  }

  -- The record that is read back from host.json, which is written by `json.MarshalIndent`.
  unfoldable pub written_record : ConnectorRecord Manifest → ConnectorRecord Manifest
  written_record r = record r {
    settings = p.indent r.settings;
    previous_settings = p.indent r.previous_settings;
    manifest = p.reread r.manifest;
    previous_manifest = reread_option r.previous_manifest;
  }

  abbrev pub reread_artifact : Option (Artifact Manifest) → Option (Artifact Manifest)
  reread_artifact none = none
  reread_artifact (some a) = some (record a { manifest = p.reread a.manifest })

  -- cloneInventoryMutation
  unfoldable pub clone_inventory_mutation : MutationRequest Manifest → MutationRequest Manifest
  clone_inventory_mutation m = record m {
    active = reread_artifact m.active;
    rollback = reread_artifact m.rollback;
  }

  abbrev pub rollback_artifact :
      ConnectorRecord Manifest → Option Manifest → Option (Artifact Manifest)
  rollback_artifact r none = none
  rollback_artifact r (some m) = some (record { manifest = m; measured_digest = r.previous_digest })

  -- inventoryUpsertMutation
  unfoldable pub inventory_upsert_mutation : ConnectorRecord Manifest → ℕ → MutationRequest Manifest
  unfolding clone_inventory_mutation
  inventory_upsert_mutation r revision = clone_inventory_mutation (record {
    installation_id = r.installation_id;
    revision = revision;
    kind = upsert;
    display_name = r.display_name;
    active = some (record { manifest = r.manifest; measured_digest = r.active_digest });
    rollback = rollback_artifact r r.previous_manifest;
    management_attempt = none;
  })

  abbrev same_json : Option String → Option String → Bool
  same_json (some a) (some b) = a == b
  same_json _ _ = false

  -- inventoryMutationsEqual
  unfoldable pub inventory_mutations_equal :
      MutationRequest Manifest → MutationRequest Manifest → Bool
  inventory_mutations_equal a b = same_json (p.mutation_json a) (p.mutation_json b)

  -- manifestsEqual of host.go
  unfoldable pub manifests_equal : Manifest → Manifest → Bool
  manifests_equal a b = same_json (p.manifest_json a) (p.manifest_json b)
