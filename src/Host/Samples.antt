-- ===== src/Host/Samples.antt =====
-- A host without connectors, and what happens during a change, to run the model on.
use connectorhost.Common.{true, false, none, some, [], err, ok, external}
use connectorhost.Samples.{SampleManifest, blank}
use connectorhost.Store.{written, replaced_with_error}
use connectorhost.Host.{Host, Turn}

abbrev pub idle : Host SampleManifest
idle = record { store = blank; supervisor = record { children = []; failures = [] }; files = [] }

abbrev pub calm_turn : Turn SampleManifest
calm_turn = record {
  stopping = record { exited_before = false; cancel_write = λ job. ok tt; exits_in_time = true };
  launching = record {
    spawned = ok tt;
    initialized = ok tt;
    first = some (
        ok (record {
          is_ready_message = true;
          same_version = true;
          ready = true;
          manifest = record { contract = "mail"; digest = "d2" };
        }));
  };
  writing = replaced_with_error;
  rewriting = written;
  stopping_again = record {
    exited_before = true;
    cancel_write = λ job. ok tt;
    exits_in_time = true;
  };
  launching_again = record { spawned = err external; initialized = ok tt; first = none };
  removals = record { listable = true; left_of_digest = λ digest. none; left_of_connector = none };
}
