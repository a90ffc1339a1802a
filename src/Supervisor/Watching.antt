-- ===== src/Supervisor/Watching.antt =====
-- What the Supervisor hears of a child, in supervisor.go: the loop of launch that reads its messages
-- after the handshake, settleChild, which reports the jobs that a child has left behind, and the watch,
-- which starts a connector's child again.
pub mod Reported
use connectorhost.Common.{
  ℕ, suc, ◌*◌, String, Bool, true, false, not, ◌&&◌, ◌||◌, Option, none, some, List, [], ◌∷◌, ◌++◌,
  ltb, ◌==◌, string_eq, if◌then◌else◌, Error, Result, ok, err, child_exited,
}
use connectorhost.Dict.{Dict, lookup, insert, delete}
use connectorhost.Supervisor.{Job, Child, Children, remove_job}
use connectorhost.Supervisor.Lifecycle.{Supervisor, installed}

-- protocol.ChildEnvelope after the handshake; a completion has its status and the rest as one text.
pub data Message (M : Type 0) : Type 0 where
  event : String → Message M
  completion : String → String → Message M
  ready : M → Bool → Message M
  other : Message M

-- A call of the sink: ConnectorEvent or ConnectorCompletion
pub record Report : Type 0 where
  pub connector_id : String
  pub job_id : String
  pub attempt_token : String
  pub is_completion : Bool
  pub status : String

-- The child after a message, and whether the loop reads on.
pub record Heard (M : Type 0) : Type 0 where
  pub child : Child M
  pub reports : List Report
  pub reads_on : Bool

reads_after : Result (Unit {0}) → Bool
reads_after (ok _) = true
reads_after (err e) = false

abbrev pub left_behind : String → Job → Report
left_behind id job = record {
  connector_id = id;
  job_id = job.job_id;
  attempt_token = job.attempt_token;
  is_completion = true;
  status = "error";
}

-- The time that the watch waits before it tries again, in seconds; `backoff *= 2` up to a minute.
unfoldable pub next_backoff : ℕ → ℕ
next_backoff backoff = if ltb backoff 60 then backoff * 2 else backoff

module _ {M : Type 0} where
  unfoldable pub hear_event : String → String → Child M → Option Job → Result (Unit {0}) → Heard M
  unfolding reads_after
  hear_event id token c none sink = record { child = c; reports = []; reads_on = true }
  hear_event id token c (some job) sink = record {
    child = c;
    reports =
        record {
          connector_id = id;
          job_id = job.job_id;
          attempt_token = token;
          is_completion = false;
          status = "";
        }
        ∷ [];
    reads_on = reads_after sink;
  }

  -- A completion that the sink does not take leaves the job recorded, and ends the loop.
  unfoldable pub hear_completion :
      String → String → String → Child M → Option Job → Result (Unit {0}) → Heard M
  hear_completion id token status c none sink = record {
    child = remove_job token c;
    reports = [];
    reads_on = true;
  }
  hear_completion id token status c (some job) (err e) = record {
    child = c;
    reports =
        record {
          connector_id = id;
          job_id = job.job_id;
          attempt_token = token;
          is_completion = true;
          status = status;
        }
        ∷ [];
    reads_on = false;
  }
  hear_completion id token status c (some job) (ok _) = record {
    child = remove_job token c;
    reports =
        record {
          connector_id = id;
          job_id = job.job_id;
          attempt_token = token;
          is_completion = true;
          status = status;
        }
        ∷ [];
    reads_on = true;
  }

  -- The switch over the messages
  unfoldable pub hear : String → Child M → Message M → Result (Unit {0}) → Heard M
  unfolding hear_event hear_completion
  hear id c (event token) sink = hear_event id token c (lookup token c.active) sink
  hear id c (completion token status) sink =
      hear_completion id token status c (lookup token c.active) sink
  hear id c (ready manifest is_ready) sink = record {
    child = record c { manifest = manifest; ready = is_ready };
    reports = [];
    reads_on = true;
  }
  hear id c other sink = record { child = c; reports = []; reads_on = false }

  hear_next : Heard M → (Child M → Child M × List Report) → Child M × List Report
  hear_next heard next =
      let later = next heard.child in
      if heard.reads_on then (later.0, heard.reports ++ later.1) else (heard.child, heard.reports)

  -- The loop over what the child sends, with what the sink answers to each, until the child ends.
  unfoldable pub hear_all :
      String → List (Message M × Result (Unit {0})) → Child M → Child M × List Report
  unfolding hear hear_next
  hear_all id [] c = (c, [])
  hear_all id ((m, sink) ∷ rest) c = hear_next (hear id c m sink) (hear_all id rest)

  -- The loop of settleChild over the jobs that are left; what the sink answers makes no difference.
  unfoldable pub settle_jobs : String → Dict Job → Child M → Child M × List Report
  unfolding remove_job
  settle_jobs id [] c = (c, [])
  settle_jobs id ((token, job) ∷ rest) c =
      let later = settle_jobs id rest (remove_job job.attempt_token c) in
      (later.0, left_behind id job ∷ later.1)

  -- settleChild
  unfoldable pub settle_child : String → Child M → Child M × List Report
  unfolding settle_jobs
  settle_child id c = settle_jobs id c.active c

  -- All that is reported of a child, from the handshake to its end.
  unfoldable pub watch_child :
      String → List (Message M × Result (Unit {0})) → Child M → Child M × List Report
  unfolding hear_all settle_child
  watch_child id messages c =
      let heard = hear_all id messages c in
      let settled = settle_child id heard.0 in (settled.0, heard.1 ++ settled.1)

  -- One attempt of the watch to start a child again: a failure is noted, and a new child takes the place
  -- of the old one only if that is still there.
  unfoldable pub restarted : Supervisor M → String → Bool → Result (Child M) → Supervisor M
  unfolding installed
  restarted s id still_there (err e) = record s { failures = insert id e s.failures }
  restarted s id true (ok next) = installed s id next
  restarted s id false (ok next) = s
