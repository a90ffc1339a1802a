-- ===== src/Artifact/Inputs.antt =====
-- Stage and StageLocal of artifact.go: what the control plane or a local caller gives is checked and
-- opened, and then staged.
use connectorhost.Common.{
  ℕ, String, Bool, not, ◌&&◌, Option, none, some, [], leb, size_mismatch, List, true, false, ◌==◌,
  nat_eq, string_eq, Result, ok, err, ◌>>=◌, ◌>>◌, guard, bad_artifact_url, bad_artifact_size,
  bad_artifact_path, bad_response, not_regular,
}
use connectorhost.Dict.{Dict}
use connectorhost.Protocol.{Protocol}
use connectorhost.Record.{
  validate_installation_id, validate_artifact_filename, validate_display_name,
  validate_host_storage_origins,
}
use connectorhost.Artifact.Inspect.{Bytes}
use connectorhost.Artifact.{
  Url, System, Directory, max_artifact_bytes, validate_expected_digest, Steps, Candidate, Staged,
  stage,
}

-- `protocol.ConnectorArtifactInput`: the fields that the host reads
pub record ConnectorArtifactInput : Type 0 where
  pub installation_id : String
  pub url : String
  pub filename : String
  pub sha256 : String
  pub size_bytes : ℕ
  pub settings : String
  pub storage_origins : List String

-- The answer to the request for the artifact; without a Content-Length the source has -1.
pub record Response : Type 0 where
  pub status_code : ℕ
  pub content_length : Option ℕ
  pub body : Bytes

pub record LocalArtifactInput : Type 0 where
  pub installation_id : String
  pub source_path : String
  pub display_name : String
  pub expected_sha256 : String
  pub settings : String

-- A local file that was opened: what `file.Stat` says, and what is then read from it.
pub record Opened : Type 0 where
  pub is_regular : Bool
  pub size : ℕ
  pub content : Bytes

unfoldable pub bounded_size : ℕ → Result (Unit {0})
bounded_size size = guard (leb 1 size && leb size max_artifact_bytes) bad_artifact_size

unfoldable pub exact_https : Option Url → Bool
exact_https none = false
exact_https (some u) =
    u.scheme == "https" && not (u.host == "") && not u.has_user && u.fragment == ""

unfoldable pub declares : Option ℕ → ℕ → Bool
declares none size = true
declares (some n) size = n == size

unfoldable pub check_response : Response → ℕ → Result (Unit {0})
unfolding declares
check_response r size = do
  guard (leb 200 r.status_code && leb r.status_code 299) bad_response
  guard (declares r.content_length size) size_mismatch

module _ (p : Protocol) (sys : System p.Manifest) where
  open p use {Manifest}

  -- The checks of Stage, and the answer to its request
  unfoldable pub check_input : ConnectorArtifactInput → Result Response → Result Response
  unfolding exact_https bounded_size check_response
  check_input input answered = do
    validate_installation_id input.installation_id
    validate_host_storage_origins p input.storage_origins
    guard (exact_https (sys.parse_url input.url)) bad_artifact_url
    validate_artifact_filename input.filename
    validate_expected_digest sys input.sha256 false
    bounded_size input.size_bytes
    r ← answered
    check_response r input.size_bytes
    ok r

  unfoldable pub remote_candidate : ConnectorArtifactInput → String → Response → Candidate p sys
  remote_candidate input settings r = record {
    installation_id = input.installation_id;
    filename = input.filename;
    display_name = "";
    expected_digest = input.sha256;
    size = input.size_bytes;
    source = r.body;
    settings = settings;
    storage_origins = input.storage_origins;
  }

  unfoldable pub stage_answer :
      Dict Directory
      → Steps p sys
      → ConnectorArtifactInput
      → String
      → Result Response
      → Staged p sys
  unfolding remote_candidate
  stage_answer artifacts s input settings (err e) = (artifacts, err e)
  stage_answer artifacts s input settings (ok r) =
      stage p sys artifacts s (remote_candidate input settings r)

  -- Stage
  unfoldable pub stage_remote :
      Dict Directory
      → Steps p sys
      → ConnectorArtifactInput
      → String
      → Result Response
      → Staged p sys
  unfolding stage_answer check_input
  stage_remote artifacts s input settings answered =
      stage_answer artifacts s input settings (check_input input answered)

  -- The checks of StageLocal
  unfoldable pub check_local : LocalArtifactInput → Result Opened → Result Opened
  unfolding bounded_size
  check_local input opened = do
    validate_installation_id input.installation_id
    guard (not (input.source_path == "") && sys.is_absolute input.source_path) bad_artifact_path
    validate_expected_digest sys input.expected_sha256 true
    validate_display_name p input.display_name
    f ← opened
    guard f.is_regular not_regular
    bounded_size f.size
    validate_artifact_filename (sys.base_name input.source_path)
    ok f

  unfoldable pub local_candidate : LocalArtifactInput → Opened → Candidate p sys
  local_candidate input f = record {
    installation_id = input.installation_id;
    filename = sys.base_name input.source_path;
    display_name = input.display_name;
    expected_digest = input.expected_sha256;
    size = f.size;
    source = f.content;
    settings = input.settings;
    storage_origins = [];
  }

  unfoldable pub stage_opened :
      Dict Directory → Steps p sys → LocalArtifactInput → Result Opened → Staged p sys
  unfolding local_candidate
  stage_opened artifacts s input (err e) = (artifacts, err e)
  stage_opened artifacts s input (ok f) = stage p sys artifacts s (local_candidate input f)

  -- StageLocal
  unfoldable pub stage_local :
      Dict Directory → Steps p sys → LocalArtifactInput → Result Opened → Staged p sys
  unfolding stage_opened check_local
  stage_local artifacts s input opened = stage_opened artifacts s input (check_local input opened)
