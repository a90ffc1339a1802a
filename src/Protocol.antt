-- ===== src/Protocol.antt =====
-- What the host uses of its surroundings: the types and validators of the package
-- github.com/airlockrun/agentsdk/connector/protocol, which is not part of the repository, and the
-- JSON encoding of the standard library as far as it shows. All of it is a parameter of the model.
use connectorhost.Common.{ℕ, ◌≡◌, String, Bool, true, Option, List, is_some}

-- `protocol.ActiveAttempt`
pub record Attempt : Type 0 where
  pub job_id : String
  pub attempt_token : String

-- `protocol.ObservedConnectorArtifact`, over the type of manifests
pub record Artifact (M : Type 0) : Type 0 where
  pub manifest : M
  pub measured_digest : String

-- `protocol.HostConnectorMutation…`; the type is text there, so any other text is a value too.
pub data MutationKind : Type 0 where
  upsert remove : MutationKind
  other_mutation : String → MutationKind

-- `protocol.HostConnectorInventoryMutationRequest`: the fields that the host sets
pub record MutationRequest (M : Type 0) : Type 0 where
  pub installation_id : String
  pub revision : ℕ
  pub kind : MutationKind
  pub display_name : String
  pub active : Option (Artifact M)
  pub rollback : Option (Artifact M)
  pub management_attempt : Option Attempt

-- `protocol.HostConnectorInventoryMutationResponse`
pub record MutationResponse : Type 0 where
  pub installation_id : String
  pub acknowledged_revision : ℕ
  pub storage_origins : List String

pub record Protocol : Type 1 where
  -- `protocol.Manifest`, and the fields that the host reads of it
  pub Manifest : Type 0
  pub contract_id : Manifest → String
  pub artifact_digest : Manifest → String
  pub interface_name : Manifest → String
  pub features : Manifest → List String
  pub targets : Manifest → List String
  -- whether a validator returns no error
  pub valid_manifest : Manifest → Bool
  pub valid_digest : String → Bool
  pub valid_mutation : MutationRequest Manifest → Bool
  pub valid_response : MutationResponse → Bool
  -- `MaxHostedConnectors`, `MaxJobPayloadBytes`, `MaxHostDisplayNameBytes`
  pub max_hosted_connectors : ℕ
  pub max_job_payload_bytes : ℕ
  pub max_host_display_name_bytes : ℕ
  -- `json.Valid`; `json.Marshal` of a manifest and of a mutation, `none` where it fails
  pub json_valid : String → Bool
  pub manifest_json : Manifest → Option String
  pub mutation_json : MutationRequest Manifest → Option String
  -- a `json.RawMessage` after `json.Marshal` and `json.Unmarshal`: without the space between its
  -- tokens, and with `<`, `>` and `&` escaped
  pub compact : String → String
  -- the same after `json.MarshalIndent` and `json.Unmarshal`: laid out over lines
  pub indent : String → String
  -- a manifest after `json.Marshal` and `json.Unmarshal`
  pub reread : Manifest → Manifest

-- What is documented of the encoding: it forgets layout alone, and what was read once is read back
-- unchanged.
pub record IsCodec (p : Protocol) : Type 0 where
  pub compact-compact : (s : String) → p.compact (p.compact s) ≡ p.compact s
  pub compact-indent : (s : String) → p.compact (p.indent s) ≡ p.compact s
  pub indent-compact : (s : String) → p.indent (p.compact s) ≡ p.indent s
  pub indent-indent : (s : String) → p.indent (p.indent s) ≡ p.indent s
  pub reread-reread : (m : p.Manifest) → p.reread (p.reread m) ≡ p.reread m
  pub contract_id-reread : (m : p.Manifest) → p.contract_id (p.reread m) ≡ p.contract_id m

-- What the host relies on of the validators. It keeps the storage origins of a valid response in its
-- record, and checks those of a record in a response with an identity and a revision of its own
-- (validateHostStorageOrigins), so origins that were valid in a response are valid in that one. A valid
-- mutation has a JSON form.
pub record IsProtocol (p : Protocol) : Type 0 where
  pub origins_alone :
      (r : MutationResponse)
      → p.valid_response r ≡ true
      → p.valid_response (record {
        installation_id = "00000000-0000-4000-8000-000000000001";
        acknowledged_revision = 1;
        storage_origins = r.storage_origins;
      })
        ≡ true
  pub mutation_marshals :
      (m : MutationRequest p.Manifest)
      → p.valid_mutation m ≡ true
      → is_some (p.mutation_json m) ≡ true
