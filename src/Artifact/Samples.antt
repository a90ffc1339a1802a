-- ===== src/Artifact/Samples.antt =====
-- A system and a candidate to run the model of the artifacts on.
use connectorhost.Common.{
  if◌then◌else◌, ◌==◌, string_eq, String, true, false, some, [], ◌∷◌, ok, zero, suc,
}
use connectorhost.Artifact.Inspect.{Bytes, Run}
use connectorhost.Artifact.{System, Steps}
use connectorhost.Artifact.Inputs.{ConnectorArtifactInput, Response, LocalArtifactInput, Opened}
use connectorhost.Samples.{demo, SampleManifest}
use connectorhost.Store.{written}

abbrev digest_text : Bytes → String
digest_text [] = "d0"
digest_text (zero ∷ rest) = "d0"
digest_text (suc zero ∷ rest) = "d1"
digest_text (suc (suc byte) ∷ rest) = "d2"

abbrev thirty_two : Bytes
thirty_two =
    2 ∷ 0 ∷ 0 ∷ 0 ∷ 0 ∷ 0 ∷ 0 ∷ 0 ∷ 0 ∷ 0 ∷ 0 ∷ 0 ∷ 0 ∷ 0 ∷ 0 ∷ 0 ∷ 0 ∷ 0 ∷ 0 ∷ 0 ∷ 0 ∷ 0 ∷ 0 ∷ 0
    ∷ 0 ∷ 0 ∷ 0 ∷ 0 ∷ 0 ∷ 0 ∷ 0 ∷ 0 ∷ []

abbrev pub sample_system : System SampleManifest
sample_system = record {
  sha256 = λ bytes. bytes;
  hex_encode = digest_text;
  hex_decode = λ text. if text == "" then some [] else some thirty_two;
  is_absolute = λ path. true;
  base_name = λ path. "mail";
  parse_url =
      λ url. some (record { scheme = "https"; host = "x"; has_user = false; fragment = "" });
  decode_manifest = λ bytes. some (record { contract = "mail"; digest = "d2" });
  windows = false;
  host_target = "linux-amd64";
  max_manifest_bytes = 8;
}

abbrev pub sample_run : Run
sample_run = record {
  started = ok tt;
  in_time = ok tt;
  exited = ok tt;
  stdout = (7 ∷ []) ∷ [];
  stderr = [];
}

abbrev pub sample_steps : Steps demo sample_system
sample_steps = record {
  created = ok tt;
  copied = ok tt;
  made_executable = ok tt;
  inspection = sample_run;
  made_directory = ok tt;
  read_directory = ok tt;
  moved = written;
  now = 9;
}

-- The bytes 2, 3, 4 for the installation "mail-1"
abbrev pub sample_input : ConnectorArtifactInput
sample_input = record {
  installation_id = "mail-1";
  url = "https://x/mail";
  filename = "mail-2";
  sha256 = "d2";
  size_bytes = 3;
  settings = "";
  storage_origins = [];
}

abbrev pub sample_response : Response
sample_response = record { status_code = 200; content_length = some 3; body = 2 ∷ 3 ∷ 4 ∷ [] }

abbrev pub sample_file : LocalArtifactInput
sample_file = record {
  installation_id = "mail-1";
  source_path = "/tmp/mail";
  display_name = "";
  expected_sha256 = "";
  settings = "{}";
}

abbrev pub sample_opened : Opened
sample_opened = record { is_regular = true; size = 3; content = 2 ∷ 3 ∷ 4 ∷ [] }
