-- ===== src/Management/Tests.antt =====
-- Tests of the management work, and its theorems at concrete inputs.
use connectorhost.Common.{refl, String, true, false, Option, none, some, [], ◌∷◌, ok}
use connectorhost.Dict.{lookup}
use connectorhost.Policy.{shell}
use connectorhost.Samples.{demo, SampleManifest}
use connectorhost.Store.{written}
use connectorhost.Recovery.{is_running, is_success, ManagementOutcome, success}
use connectorhost.Artifact.Samples.{sample_system, sample_steps, sample_input, sample_response}
use connectorhost.Host.Samples.{calm_turn, idle}
use connectorhost.Management.{Job, Desk, Surroundings, other_cause}
use connectorhost.Management.Handling.{start_job, handle_management}
use connectorhost.Management.Replay.{IsReplay, handle_management-IsReplay}
use connectorhost.Management.Fresh.{IsReported, start_job-IsReported}

abbrev text_json : String → Option String
text_json s = some s

abbrev job : Job
job = record { job_id = "job-7"; attempt_token = "b"; expired = false; input = ok sample_input }

abbrev around : Surroundings demo sample_system
around = record {
  readable = ok tt;
  recovering = λ o. record {
    start = ok tt;
    stop = ok tt;
    terminate = ok tt;
    store_write = written;
    remove_files = ok tt;
    save_journal = written;
  };
  first_save = written;
  last_save = written;
  transition_write = written;
  announced = ok tt;
  cause = λ e. other_cause;
  turn = calm_turn;
  steps = sample_steps;
  answered = ok sample_response;
  shell_output = ok "done";
  delivered = false;
  removable = true;
}

-- The outcome of a shell command that has ended under another attempt
abbrev ended : ManagementOutcome SampleManifest
ended = record {
  inventory_revision = 0;
  job_id = "job-7";
  attempt_token = "a";
  kind = shell;
  connector_id = "";
  status = success;
  output = "done";
  failed_with = none;
  process_id = 0;
  connector_existed = false;
  connector_before = none;
}

abbrev with_ended : Desk SampleManifest
with_ended = record { host = idle; journal = ("job-7", ended) ∷ [] }

abbrev without : Desk SampleManifest
without = record { host = idle; journal = [] }

handle_management-IsReplay_example :
    IsReplay demo sample_system text_json ended with_ended
      (handle_management demo sample_system text_json around job shell "" with_ended)
unfolding lookup is_running
handle_management-IsReplay_example =
    handle_management-IsReplay demo sample_system text_json around job shell "" ended with_ended
      refl refl

start_job-IsReported_example :
    IsReported demo sample_system text_json shell "" "job-7"
      (record { status = success; output = "done"; failed_with = none; revision = 0 })
      (start_job demo sample_system text_json around job shell "" without).0
unfolding start_job is_success
start_job-IsReported_example =
    start_job-IsReported demo sample_system text_json around job shell ""
      (record { status = success; output = "done"; failed_with = none; revision = 0 }) without refl
      refl
