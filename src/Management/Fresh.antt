-- ===== src/Management/Fresh.antt =====
-- A job that is done for the first time: its success is on disk before it is reported.
use connectorhost.Common.{
  ℕ, ◌≡◌, ◌≢◌, refl, sym, ap, ◌∙◌, subst, String, true, false, Option, none, some, arith, ◌==◌,
  nat_eq, string_eq, Error, Result, ok, err, Bool-cases, inl, inr, if◌then◌else◌, some-eq,
}
use connectorhost.Dict.{lookup}
use connectorhost.Policy.{HostWorkKind}
use connectorhost.Protocol.{Protocol}
use connectorhost.Store.Plans.{connector}
use connectorhost.Recovery.{ManagementOutcome, is_success, is_transition, remote_inventory_revision}
use connectorhost.Recovery.Answered.{save-found}
use connectorhost.Artifact.{System}
use connectorhost.Management.{
  Cause, deadline_exceeded, context_canceled, other_cause, error_status, Job, Completion, Desk,
  failing, save_management_outcome,
}
use connectorhost.Host.{Host}
use connectorhost.Management.Answering.{Around}
use connectorhost.Management.Replay.{saved-host}
use connectorhost.Management.Handling.{
  send_saved, record_completion, succeeding, report_transition, settle_work, Worked, execute,
  run_announced, run_saved, new_outcome, start_job,
}

error_status-is_success : (x : Cause) → is_success (error_status x) ≡ false
unfolding error_status is_success
error_status-is_success deadline_exceeded = refl
error_status-is_success context_canceled = refl
error_status-is_success other_cause = refl

failing-absurd :
    {A : Type 0} (e : Error) (c : Completion)
    → some (failing e) ≡ some c
    → is_success c.status ≡ true
    → A
unfolding failing is_success
failing-absurd e c h s = absurd (cc (ap (λ (x : Completion). is_success x.status) (some-eq h) ∙ s))

module _ {M : Type 0} where
  -- The journal has an outcome of the job that says what the completion says.
  pub record IsRecorded (job_id : String) (c : Completion) (d : Desk M) : Type 0 where
    pub outcome : ManagementOutcome M
    pub found : lookup job_id d.journal ≡ some outcome
    pub status : outcome.status ≡ c.status
    pub output : outcome.output ≡ c.output
    pub failed_with : outcome.failed_with ≡ c.failed_with
    pub revision : outcome.inventory_revision ≡ c.revision

module _ (p : Protocol) (sys : System p.Manifest) (canonical : String → Option String) where
  open p use {Manifest}

  sent-IsRecorded :
      (o : ManagementOutcome Manifest) (job_id : String) (x : Desk Manifest × Result (Unit {0}))
      (c e : Completion)
      → o.job_id ≡ job_id
      → (x.1 ≡ ok tt → lookup o.job_id x.0.journal ≡ some o)
      → o.status ≡ c.status
      → o.output ≡ c.output
      → o.failed_with ≡ c.failed_with
      → o.inventory_revision ≡ c.revision
      → (send_saved p sys canonical c x).1 ≡ some e
      → (c ≡ e) × IsRecorded job_id c (send_saved p sys canonical c x).0
  unfolding send_saved
  sent-IsRecorded o job_id (d, err f) c e i g a b k r h = absurd (cc (h))
  sent-IsRecorded o job_id (d, ok _) c e i g a b k r h = (
    some-eq h,
    record {
      outcome = o;
      found = ap (λ (s : String). lookup s d.journal) (sym i) ∙ g refl;
      status = a;
      output = b;
      failed_with = k;
      revision = r;
    },
  )

  completion-IsRecorded :
      (around : Around p sys canonical) (o : ManagementOutcome Manifest) (c e : Completion)
      (d : Desk Manifest)
      → (record_completion p sys canonical around o c d).1 ≡ some e
      → (c ≡ e) × IsRecorded o.job_id c (record_completion p sys canonical around o c d).0
  unfolding record_completion save_management_outcome
  completion-IsRecorded around o c e d h =
      let kept : ManagementOutcome Manifest = record o {
        status = c.status;
        output = c.output;
        failed_with = c.failed_with;
        inventory_revision = c.revision;
      } in
      sent-IsRecorded kept o.job_id (save_management_outcome around.last_save kept d) c e refl
        (save-found around.last_save kept d.journal) refl refl refl refl h

  sent-desk :
      (c : Completion) (x : Desk Manifest × Result (Unit {0}))
      → (send_saved p sys canonical c x).0 ≡ x.0
  unfolding send_saved
  sent-desk c (d, err e) = refl
  sent-desk c (d, ok _) = refl

  completion-host :
      (around : Around p sys canonical) (o : ManagementOutcome Manifest) (c : Completion)
      (d : Desk Manifest)
      → (record_completion p sys canonical around o c d).0.host ≡ d.host
  unfolding record_completion
  completion-host around o c d =
      ap (λ (x : Desk Manifest). x.host) (sent-desk c _)
      ∙ saved-host p sys canonical around.last_save
          (record o {
            status = c.status;
            output = c.output;
            failed_with = c.failed_with;
            inventory_revision = c.revision;
          })
          d

  -- The revision that is reported of an update or a rollback: that of the mutation which is queued for
  -- the connector and the job, and not zero.
  abbrev pub Numbered : HostWorkKind → String → String → ℕ → Host Manifest → Type 0
  Numbered kind id job_id revision h =
      is_transition kind ≡ true
      → (revision ≡ remote_inventory_revision id job_id h.store.state.pending) × (revision ≢ 0)

  -- What holds when the completion `c` is sent of a job of the given kind on the connector `id`.
  pub record IsReported (kind : HostWorkKind) (id : String) (job_id : String) (c : Completion)
      (d : Desk Manifest) : Type 0 where
    pub recorded : IsRecorded job_id c d
    pub numbered : Numbered kind id job_id c.revision d.host

  recorded-IsReported :
      (around : Around p sys canonical) (o : ManagementOutcome Manifest) (c e : Completion)
      (d : Desk Manifest)
      → Numbered o.kind o.connector_id o.job_id c.revision d.host
      → (record_completion p sys canonical around o c d).1 ≡ some e
      → IsReported o.kind o.connector_id o.job_id e
          (record_completion p sys canonical around o c d).0
  recorded-IsReported around o c e d n h =
      let (same, k) = completion-IsRecorded around o c e d h in
      let after = (record_completion p sys canonical around o c d).0 in
      subst (λ (x : Completion). IsReported o.kind o.connector_id o.job_id x after) same
        (record {
          recorded = k;
          numbered =
              subst (λ (x : Host Manifest). Numbered o.kind o.connector_id o.job_id c.revision x)
                (sym (completion-host around o c d)) n;
        })

  transition-IsReported :
      (around : Around p sys canonical) (o : ManagementOutcome Manifest) (n : ℕ) (c : Completion)
      (d : Desk Manifest)
      → n ≡ remote_inventory_revision o.connector_id o.job_id d.host.store.state.pending
      → (report_transition p sys canonical around o n d).1 ≡ some c
      → IsReported o.kind o.connector_id o.job_id c
          (report_transition p sys canonical around o n d).0
  unfolding report_transition
  transition-IsReported around o n c d q h = elim (Bool-cases (n == 0)) [
    | inl e ↦ absurd (ground (arith, e, h))
    | inr e ↦ rw e (
        recorded-IsReported around o (succeeding p sys canonical "" n) c d
          (λ t. (q, ground (arith, e))) (rw e at h))
  ]

  settled-IsReported :
      (around : Around p sys canonical) (o : ManagementOutcome Manifest) (c : Completion)
      (d : Desk Manifest) (x : Worked p sys canonical)
      → is_success c.status ≡ true
      → (settle_work p sys canonical around o d x).1 ≡ some c
      → IsReported o.kind o.connector_id o.job_id c (settle_work p sys canonical around o d x).0
  unfolding settle_work
  settled-IsReported around o c d (h, err e) s k =
      let c0 : Completion = record (failing e) { status = error_status (around.cause e) } in
      let (same, _) = completion-IsRecorded around o c0 c (record d { host = h }) k in
      absurd (
        cc (
          sym (error_status-is_success (around.cause e))
          ∙ ap (λ (x : Completion). is_success x.status) same
          ∙ s))
  settled-IsReported around o c d (h, ok output) s k = elim (Bool-cases (is_transition o.kind)) [
    | inl e ↦ rw e (transition-IsReported around o _ c (record d { host = h }) refl (rw e at k))
    | inr e ↦ rw e (
        recorded-IsReported around o (succeeding p sys canonical output 0) c (record d { host = h })
          (λ t. absurd (cc (sym e ∙ t))) (rw e at k))
  ]

  announced-IsReported :
      (around : Around p sys canonical) (job : Job) (o : ManagementOutcome Manifest)
      (c : Completion) (d : Desk Manifest) (announced : Result (Unit {0}))
      → is_success c.status ≡ true
      → (run_announced p sys canonical around job o d announced).1 ≡ some c
      → IsReported o.kind o.connector_id o.job_id c
          (run_announced p sys canonical around job o d announced).0
  unfolding run_announced
  announced-IsReported around job o c d (err e) s k = failing-absurd e c k s
  announced-IsReported around job o c d (ok _) s k =
      settled-IsReported around o c d
        (execute p sys canonical around job o.kind o.connector_id d.host) s k

  saved-IsReported :
      (around : Around p sys canonical) (job : Job) (o : ManagementOutcome Manifest)
      (c : Completion) (x : Desk Manifest × Result (Unit {0}))
      → is_success c.status ≡ true
      → (run_saved p sys canonical around job o x).1 ≡ some c
      → IsReported o.kind o.connector_id o.job_id c (run_saved p sys canonical around job o x).0
  unfolding run_saved
  saved-IsReported around job o c (d, err e) s k = failing-absurd e c k s
  saved-IsReported around job o c (d, ok _) s k =
      announced-IsReported around job o c d around.announced s k

  -- A job that handleManagement does for the first time: when its success is to be sent, the journal has
  -- it already, with the same status, output, error and revision, and for an update or a rollback the
  -- revision is that of the mutation which the store has queued for the connector and the job, and not
  -- zero.
  pub start_job-IsReported :
      (around : Around p sys canonical) (job : Job) (kind : HostWorkKind) (id : String)
      (c : Completion) (d : Desk Manifest)
      → is_success c.status ≡ true
      → (start_job p sys canonical around job kind id d).1 ≡ some c
      → IsReported kind id job.job_id c (start_job p sys canonical around job kind id d).0
  unfolding start_job new_outcome
  start_job-IsReported around job kind id c d s k =
      let o =
        new_outcome p sys canonical job kind id
          (if id == "" then none else connector p d.host.store.state id) in
      saved-IsReported around job o c (save_management_outcome around.first_save o d) s k
