-- ===== src/Management/Replay.antt =====
-- A job that has a settled outcome in the journal is answered from it, and not run again.
use connectorhost.Common.{
  ◌≡◌, refl, sym, ap, ◌∙◌, subst, String, false, not, ◌&&◌, ◌||◌, Option, none, some, ◌==◌, nat_eq,
  string_eq, is_some, Error, Result, ok, err, Bool-cases, inl, inr, some-eq, ok-eq, >>-eq-ok,
  guard-eq-ok, policy_denied, bad_job, identity_conflict,
}
use connectorhost.Dict.{lookup}
use connectorhost.Policy.{HostWorkKind, allows_remote_management}
use connectorhost.Protocol.{Protocol}
use connectorhost.Record.{ConnectorRecord}
use connectorhost.Store.{Store, WriteOutcome, commit}
use connectorhost.Store.Plans.{connector, put_inventory_connector}
use connectorhost.Recovery.{ManagementOutcome, is_running, is_success, remote_inventory_revision}
use connectorhost.Artifact.{System}
use connectorhost.Host.{Host}
use connectorhost.Management.{
  Job, Completion, Desk, Handled, failing, save_management_outcome, replayed, same_kind,
  load_management_outcome, decoded, valid_outcome,
}
use connectorhost.Management.Answering.{
  Around, attempt_of, replay_saved, finish_replay, rebound, rebind, replay_settled, replay,
}
use connectorhost.Management.Handling.{handle_loaded, work, deliver, handle_management}

module _ (p : Protocol) (sys : System p.Manifest) (canonical : String → Option String) where
  open p use {Manifest}

  -- A completion that says what the outcome of the journal says, or that the job was refused.
  pub data Answers (o : ManagementOutcome Manifest) : Option Completion → Type 0 where
    silent : Answers o none
    refused : (e : Error) → Answers o (some (failing e))
    repeated :
        (c : Completion)
        → c.status ≡ o.status
        → c.output ≡ o.output
        → c.failed_with ≡ o.failed_with
        → Answers o (some c)

  -- Nothing was done: the children and the files are as before, and the answer is the journal's.
  pub record IsReplay (o : ManagementOutcome Manifest) (before : Desk Manifest)
      (x : Handled Manifest) : Type 0 where
    pub children : x.0.host.supervisor ≡ before.host.supervisor
    pub files : x.0.host.files ≡ before.host.files
    pub answers : Answers o x.1

  pub saved-host :
      (w : WriteOutcome) (o : ManagementOutcome Manifest) (d : Desk Manifest)
      → (save_management_outcome w o d).0.host ≡ d.host
  unfolding save_management_outcome
  saved-host w o d = refl

  saved-IsReplay :
      (o r : ManagementOutcome Manifest) (d : Desk Manifest) (x : Desk Manifest × Result (Unit {0}))
      → x.0.host ≡ d.host
      → r.status ≡ o.status
      → r.output ≡ o.output
      → r.failed_with ≡ o.failed_with
      → IsReplay o d (replay_saved p sys canonical r x)
  unfolding replay_saved replayed
  saved-IsReplay o r d (y, err e) h a b c = record {
    children = ap (λ (z : Host Manifest). z.supervisor) h;
    files = ap (λ (z : Host Manifest). z.files) h;
    answers = silent;
  }
  saved-IsReplay o r d (y, ok _) h a b c = record {
    children = ap (λ (z : Host Manifest). z.supervisor) h;
    files = ap (λ (z : Host Manifest). z.files) h;
    answers = repeated _ a b c;
  }

  finish-IsReplay :
      (around : Around p sys canonical) (job : Job) (o r : ManagementOutcome Manifest)
      (d : Desk Manifest)
      → r.status ≡ o.status
      → r.output ≡ o.output
      → r.failed_with ≡ o.failed_with
      → IsReplay o d (finish_replay p sys canonical around job d r)
  unfolding finish_replay
  finish-IsReplay around job o r d a b c =
      let kept : ManagementOutcome Manifest = record r { attempt_token = job.attempt_token } in
      saved-IsReplay o r d (save_management_outcome around.last_save kept d)
        (saved-host around.last_save kept d) a b c

  rebound-IsReplay :
      (around : Around p sys canonical) (job : Job) (o : ManagementOutcome Manifest)
      (d : Desk Manifest) (x : Store Manifest × Result (Unit {0}))
      → IsReplay o d (rebound p sys canonical around job d o x)
  unfolding rebound
  rebound-IsReplay around job o d (s, err e) = record {
    children = refl;
    files = refl;
    answers = silent;
  }
  rebound-IsReplay around job o d (s, ok _) =
      let k =
        finish-IsReplay around job o
          (record o {
            inventory_revision =
                remote_inventory_revision o.connector_id job.job_id s.state.pending;
          })
          (record d { host = record d.host { store = s } }) refl refl refl in
      record { children = k.children; files = k.files; answers = k.answers }

  rebind-IsReplay :
      (around : Around p sys canonical) (job : Job) (o : ManagementOutcome Manifest)
      (d : Desk Manifest) (found : Option (ConnectorRecord Manifest))
      → IsReplay o d (rebind p sys canonical around job d o found)
  unfolding rebind
  rebind-IsReplay around job o d none = record { children = refl; files = refl; answers = silent }
  rebind-IsReplay around job o d (some r) = rebound-IsReplay around job o d (
      commit p d.host.store
        (put_inventory_connector p r (some (attempt_of p sys canonical job)) d.host.store.state)
        around.transition_write)

  settled-IsReplay :
      (around : Around p sys canonical) (job : Job) (o : ManagementOutcome Manifest)
      (d : Desk Manifest)
      → IsReplay o d (replay_settled p sys canonical around job d o)
  unfolding replay_settled
  settled-IsReplay around job o d =
      elim (Bool-cases (
        is_success o.status
        && not (o.inventory_revision == 0)
        && not (o.attempt_token == job.attempt_token))) [
          | inl e ↦
              rw e (rebind-IsReplay around job o d (connector p d.host.store.state o.connector_id))
          | inr e ↦ rw e (finish-IsReplay around job o o d refl refl refl)
        ]

  refused-IsReplay :
      (o : ManagementOutcome Manifest) (d : Desk Manifest) (e : Error)
      → IsReplay o d (d, some (failing e))
  refused-IsReplay o d e = record { children = refl; files = refl; answers = refused e }

  replay-IsReplay :
      (around : Around p sys canonical) (job : Job) (kind : HostWorkKind) (id : String)
      (o : ManagementOutcome Manifest) (d : Desk Manifest)
      → is_running o.status ≡ false
      → IsReplay o d (replay p sys canonical around job kind id d o)
  unfolding replay
  replay-IsReplay around job kind id o d f =
      elim (Bool-cases (same_kind o.kind kind && o.connector_id == id)) [
        | inl e ↦ rw (e, f) (settled-IsReplay around job o d)
        | inr e ↦ rw e (refused-IsReplay o d identity_conflict)
      ]

  loaded-IsReplay :
      (around : Around p sys canonical) (job : Job) (kind : HostWorkKind) (id : String)
      (o : ManagementOutcome Manifest) (d : Desk Manifest)
      (l : Result (Option (ManagementOutcome Manifest)))
      → is_running o.status ≡ false
      → ((x : Option (ManagementOutcome Manifest)) → l ≡ ok x → x ≡ some o)
      → IsReplay o d (handle_loaded p sys canonical around job kind id d l)
  unfolding handle_loaded
  loaded-IsReplay around job kind id o d (err e) f g = refused-IsReplay o d e
  loaded-IsReplay around job kind id o d (ok none) f g = absurd (cc (g none refl))
  loaded-IsReplay around job kind id o d (ok (some x)) f g =
      subst
        (λ (y : ManagementOutcome Manifest).
          IsReplay o d (replay p sys canonical around job kind id d y))
        (sym (some-eq (g (some x) refl))) (replay-IsReplay around job kind id o d f)

  decoded-eq :
      (readable : Result (Unit {0})) (job_id : String) (found : Option (ManagementOutcome Manifest))
      (o : ManagementOutcome Manifest) (x : Option (ManagementOutcome Manifest))
      → found ≡ some o
      → decoded p readable job_id found ≡ ok x
      → x ≡ some o
  unfolding decoded
  decoded-eq readable job_id none o x e h = absurd (cc (e))
  decoded-eq readable job_id (some y) o x e h =
      let (_, h1) = >>-eq-ok readable _ h in
      let (_, h2) = guard-eq-ok (valid_outcome p job_id y) _ _ h1 in sym (ok-eq h2) ∙ e

  work-IsReplay :
      (around : Around p sys canonical) (job : Job) (kind : HostWorkKind) (id : String)
      (o : ManagementOutcome Manifest) (d : Desk Manifest)
      → lookup job.job_id d.journal ≡ some o
      → is_running o.status ≡ false
      → IsReplay o d (work p sys canonical around job kind id d)
  unfolding work load_management_outcome
  work-IsReplay around job kind id o d e f =
      elim (Bool-cases (
        allows_remote_management d.host.store.state.access_mode kind
          (is_some (connector p d.host.store.state id)))) [
            | inr a ↦ rw a (refused-IsReplay o d policy_denied)
            | inl a ↦
                elim (Bool-cases (job.job_id == "" || job.attempt_token == "" || job.expired)) [
                  | inl b ↦ rw (a, b) (refused-IsReplay o d bad_job)
                  | inr b ↦
                      rw (a, b)
                        (loaded-IsReplay around job kind id o d _ f (λ x.
                          decoded-eq around.readable job.job_id (lookup job.job_id d.journal) o x
                            e))
                ]
          ]

  delivered-IsReplay :
      (around : Around p sys canonical) (job : Job) (o : ManagementOutcome Manifest)
      (d : Desk Manifest) (x : Handled Manifest)
      → IsReplay o d x
      → IsReplay o d (deliver p sys canonical around job x)
  unfolding deliver
  delivered-IsReplay around job o d (y, none) k = k
  delivered-IsReplay around job o d (y, some c) k = record {
    children = k.children;
    files = k.files;
    answers = k.answers;
  }

  -- handleManagement runs no job twice: where the journal has an outcome of the job that is not running,
  -- the children and the files stay as they are, and the completion, if one is sent, either refuses the
  -- job or has the status, the output and the error of the journal.
  pub handle_management-IsReplay :
      (around : Around p sys canonical) (job : Job) (kind : HostWorkKind) (id : String)
      (o : ManagementOutcome Manifest) (d : Desk Manifest)
      → lookup job.job_id d.journal ≡ some o
      → is_running o.status ≡ false
      → IsReplay o d (handle_management p sys canonical around job kind id d)
  unfolding handle_management
  handle_management-IsReplay around job kind id o d e f =
      delivered-IsReplay around job o d (work p sys canonical around job kind id d)
        (work-IsReplay around job kind id o d e f)
