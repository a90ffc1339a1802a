-- ===== src/Artifact.antt =====
-- artifact.go: the executables of the connectors. A candidate is copied to a staging file, checked
-- against its declared size and digest, asked for its manifest, and moved to the directory of its
-- digest. The bytes that are read, and how each system call ends, enter as arguments.
pub mod Inspect
pub mod Inputs
pub mod Checks
pub mod Staging
pub mod Samples
mod Tests
use Prim.Native.String.{len}
use connectorhost.Common.{
  ℕ, ◌+◌, ◌^◌, String, Bool, true, false, not, ◌&&◌, ◌||◌, Option, none, some, List, [], ◌∷◌, leb,
  ltb, length, take, ◌==◌, nat_eq, string_eq, if◌then◌else◌, Result, ok, err, ◌>>=◌, ◌>>◌, guard,
  Error, external, bad_expected_digest, not_regular, not_bounded, not_executable, sha256_mismatch,
  bad_digest_directory, unsupported_child, unsupported_target, size_mismatch,
  manifest_digest_mismatch, bad_settings,
}
use connectorhost.Dict.{Dict, lookup, insert}
use connectorhost.Protocol.{Protocol}
use connectorhost.Record.{
  ConnectorRecord, validate_installation_id, validate_artifact_filename, validate_display_name,
}
use connectorhost.Artifact.Inspect.{Bytes, Run, inspect_manifest}
use connectorhost.Store.{WriteOutcome, written, failed, replaced_with_error}

-- What the standard library and the build fix: `sha256.Sum256`, the package hex, `filepath.IsAbs` and
-- `filepath.Base`, `url.Parse` as far as it is read, the strict decoding of a manifest with nothing
-- behind it, and the system that the host is built for.
pub record Url : Type 0 where
  pub scheme : String
  pub host : String
  pub has_user : Bool
  pub fragment : String

pub record System (M : Type 0) : Type 0 where
  pub sha256 : Bytes → Bytes
  pub hex_encode : Bytes → String
  pub hex_decode : String → Option Bytes
  pub is_absolute : String → Bool
  pub base_name : String → String
  pub parse_url : String → Option Url
  pub decode_manifest : Bytes → Option M
  pub windows : Bool
  pub host_target : String
  pub max_manifest_bytes : ℕ

-- A file below `connectors`, and the directory of one digest.
pub record File : Type 0 where
  pub regular : Bool
  pub is_directory : Bool
  pub executable : Bool
  pub content : Bytes

abbrev pub Directory : Type 0
Directory = Dict File

-- maxArtifactBytes
abbrev pub max_artifact_bytes : ℕ
max_artifact_bytes = 1073741824

unfoldable pub listed : Option Directory → Directory
listed none = []
listed (some d) = d

unfoldable pub in_directory : String → Dict Directory → Directory
unfolding listed
in_directory digest artifacts = listed (lookup digest artifacts)

module _ {M : Type 0} (sys : System M) where
  abbrev pub digest_of : Bytes → String
  digest_of bytes = sys.hex_encode (sys.sha256 bytes)

  bounded_digest : Option Bytes → String → Bool
  bounded_digest none digest = false
  bounded_digest (some decoded) digest = length decoded == 32 && digest == sys.hex_encode decoded

  -- validateExpectedDigest
  unfoldable pub validate_expected_digest : String → Bool → Result (Unit {0})
  unfolding bounded_digest
  validate_expected_digest digest optional =
      if digest == "" && optional
      then ok tt
      else guard (bounded_digest (sys.hex_decode digest) digest) bad_expected_digest

  -- verifyArtifactFile
  unfoldable pub verify_artifact_file : Option File → String → Result (Unit {0})
  verify_artifact_file none digest = err external
  verify_artifact_file (some f) digest = do
    guard f.regular not_regular
    guard (leb 1 (length f.content) && leb (length f.content) max_artifact_bytes) not_bounded
    guard (sys.windows || f.executable) not_executable
    guard (digest_of (take (max_artifact_bytes + 1) f.content) == digest) sha256_mismatch

  unfoldable pub reuse : File → String → String → Result (Option String)
  unfolding verify_artifact_file
  reuse f name digest = do
    guard (not f.is_directory) bad_digest_directory
    verify_artifact_file (some f) digest
    ok (some name)

  -- reusableArtifact, after a directory was read: the name of the file to use again, if there is one.
  unfoldable pub reusable_artifact : Directory → String → Result (Option String)
  unfolding reuse
  reusable_artifact [] digest = ok none
  reusable_artifact ((name, f) ∷ []) digest = reuse f name digest
  reusable_artifact (_ ∷ _ ∷ _) digest = err bad_digest_directory

unfoldable pub mentions : String → List String → Bool
mentions wanted [] = false
mentions wanted (x ∷ xs) = let later = mentions wanted xs in if x == wanted then true else later

module _ (p : Protocol) (sys : System p.Manifest) where
  open p use {Manifest}

  -- validateManifestTarget
  unfoldable pub validate_manifest_target : Manifest → Result (Unit {0})
  unfolding mentions
  validate_manifest_target m = do
    guard (mentions "hosted-child-v1" (p.features m)) unsupported_child
    guard (mentions sys.host_target (p.targets m)) unsupported_target

  -- What the system does while a candidate is staged: the staging file is made, the bytes of the
  -- source are copied to it (`copied` joins the errors of the copy, the sync and the close), it is made
  -- executable, its manifest is inspected, and it is moved to its place.
  pub record Steps : Type 0 where
    pub created : Result (Unit {0})
    pub copied : Result (Unit {0})
    pub made_executable : Result (Unit {0})
    pub inspection : Run
    pub made_directory : Result (Unit {0})
    pub read_directory : Result (Unit {0})
    pub moved : WriteOutcome
    pub now : ℕ

  -- The arguments of `stage`
  pub record Candidate : Type 0 where
    pub installation_id : String
    pub filename : String
    pub display_name : String
    pub expected_digest : String
    pub size : ℕ
    pub source : Bytes
    pub settings : String
    pub storage_origins : List String

  -- The settings that are stored: none count as the empty object.
  unfoldable pub settings_or_empty : String → String
  settings_or_empty settings = if len settings == 0 then "{}" else settings

  -- The bytes of the staging file: the source is read up to one byte past the declared size.
  unfoldable pub staged_bytes : Candidate → Bytes
  staged_bytes c = take (c.size + 1) c.source

  -- The checks up to the move, in their order; they end with the manifest.
  unfoldable pub check_candidate_file : Steps → Candidate → Result Manifest
  unfolding settings_or_empty staged_bytes validate_manifest_target
  check_candidate_file s c = do
    validate_installation_id c.installation_id
    let settings = settings_or_empty c.settings
    guard (leb (len settings) p.max_job_payload_bytes && p.json_valid settings) bad_settings
    s.created
    s.copied
    guard (length (staged_bytes c) == c.size) size_mismatch
    let digest = digest_of sys (staged_bytes c)
    guard (c.expected_digest == "" || digest == c.expected_digest) sha256_mismatch
    s.made_executable
    m ← inspect_manifest p sys.max_manifest_bytes sys.decode_manifest s.inspection
    guard (p.artifact_digest m == digest) manifest_digest_mismatch
    validate_manifest_target m
    s.made_directory
    s.read_directory
    ok m

  unfoldable pub staged_record : Steps → Candidate → Manifest → String → ConnectorRecord Manifest
  unfolding settings_or_empty staged_bytes
  staged_record s c m filename = record {
    installation_id = c.installation_id;
    display_name = if c.display_name == "" then p.interface_name m else c.display_name;
    active_digest = digest_of sys (staged_bytes c);
    previous_digest = "";
    filename = filename;
    previous_filename = "";
    settings = settings_or_empty c.settings;
    previous_settings = "";
    storage_origins = c.storage_origins;
    previous_storage_origins = [];
    manifest = m;
    previous_manifest = none;
    installed_at = s.now;
    inventory_acknowledged = false;
  }

  abbrev pub Staged : Type 0
  Staged = Dict Directory × Result (ConnectorRecord Manifest)

  -- replaceFile and syncDirectory: the staging file under its own name in the digest's directory
  unfoldable pub move_file : Dict Directory → Candidate → String → WriteOutcome → Dict Directory
  unfolding in_directory staged_bytes
  move_file artifacts c digest failed = artifacts
  move_file artifacts c digest _ =
      insert digest
        (insert c.filename
          (record {
            regular = true;
            is_directory = false;
            executable = true;
            content = staged_bytes c;
          })
          (in_directory digest artifacts))
        artifacts

  unfoldable pub moved_record :
      WriteOutcome → ConnectorRecord Manifest → Result (ConnectorRecord Manifest)
  moved_record written r = ok r
  moved_record _ r = err external

  unfoldable pub place :
      Dict Directory → Steps → Candidate → Manifest → Result (Option String) → Staged
  unfolding move_file moved_record staged_record
  place artifacts s c m (err e) = (artifacts, err e)
  place artifacts s c m (ok (some name)) = (artifacts, ok (staged_record s c m name))
  place artifacts s c m (ok none) = (
    move_file artifacts c (digest_of sys (staged_bytes c)) s.moved,
    moved_record s.moved (staged_record s c m c.filename),
  )

  unfoldable pub stage_checked : Dict Directory → Steps → Candidate → Result Manifest → Staged
  unfolding place reusable_artifact in_directory staged_bytes
  stage_checked artifacts s c (err e) = (artifacts, err e)
  stage_checked artifacts s c (ok m) =
      let digest = digest_of sys (staged_bytes c) in
      place artifacts s c m (reusable_artifact sys (in_directory digest artifacts) digest)

  -- stage, over the directories of the connector's digests
  unfoldable pub stage : Dict Directory → Steps → Candidate → Staged
  unfolding stage_checked check_candidate_file
  stage artifacts s c = stage_checked artifacts s c (check_candidate_file s c)
