-- ===== src/Recovery/Journals.antt =====
-- What the recovery makes of one running outcome of a job is an outcome of that job, not running.
use connectorhost.Common.{
  ◌≡◌, refl, ap, ◌∙◌, inl, inr, String, Bool, true, false, Option, none, some, arith, is_some,
  Result, ok, err, Bool-cases, subst, interrupted, ok-eq, string_eq,
}
use connectorhost.Policy.{
  HostWorkKind, shell, connector_install, connector_update, connector_remove, connector_rollback,
  connector_job, connector_cancel, other_kind,
}
use connectorhost.Protocol.{Protocol}
use connectorhost.Record.{ConnectorRecord}
use connectorhost.Store.{Store, commit}
use connectorhost.Store.Plans.{connector, remove_remote_connector}
use connectorhost.Recovery.{
  ManagementOutcome, Circumstances, is_running, failed_as, succeeded, started, after_files,
  undo_install, settle_install, settle_left, recover_install, tried, settle_transition,
  update_activated, rollback_activated, stop_and_remove, removed_or_not, recover_remove, terminated,
  recover_kind, recover_outcome, numbered,
}
use connectorhost.Recovery.Settled.{finish-eq-ok, numbered-eq-ok, after_store-eq-ok}
use connectorhost.Recovery.Reported.{settle_tried-eq}

module _ (p : Protocol) (canonical : String → Option String) (job : String) where
  open p use {Manifest}

  -- An outcome of the job that is not running
  abbrev pub IsSettled : ManagementOutcome Manifest → Type 0
  IsSettled o = (is_running o.status ≡ false) × (o.job_id ≡ job)

  files-IsSettled :
      (r : Result (Unit {0})) (o y : ManagementOutcome Manifest)
      → IsSettled o
      → after_files p canonical r o ≡ ok y
      → IsSettled y
  unfolding after_files
  files-IsSettled (ok t) o y k h = subst IsSettled (ok-eq h) k
  files-IsSettled (err e) o y k h = cc

  ok-IsSettled : (o y : ManagementOutcome Manifest) → IsSettled o → ok o ≡ ok y → IsSettled y
  ok-IsSettled o y k h = subst IsSettled (ok-eq h) k

  install-IsSettled :
      (c : Circumstances) (o y : ManagementOutcome Manifest) (s : Store Manifest)
      (start : Result (Unit {0}))
      → o.job_id ≡ job
      → (settle_install p canonical c o s start).1 ≡ ok y
      → IsSettled y
  unfolding settle_install undo_install is_running
  install-IsSettled c o y s (ok t) j h = ok-IsSettled (succeeded o) y (refl, j) h
  install-IsSettled c o y s (err x) j h =
      let done = commit p s (remove_remote_connector p o.connector_id s.state) c.store_write in
      let (good, rest, store) =
        after_store-eq-ok p canonical done (after_files p canonical c.remove_files (failed_as x o))
          y h in
      files-IsSettled c.remove_files (failed_as x o) y (refl, j) rest

  left-IsSettled :
      (c : Circumstances) (o y : ManagementOutcome Manifest) (s : Store Manifest) (existed : Bool)
      (found : Option (ConnectorRecord Manifest))
      → IsSettled o
      → (settle_left p canonical c o s existed found).1 ≡ ok y
      → IsSettled y
  unfolding settle_left
  left-IsSettled c o y s true found k h = ok-IsSettled o y k h
  left-IsSettled c o y s false none k h = ok-IsSettled o y k h
  left-IsSettled c o y s false (some r) k h = install-IsSettled c o y s c.start k.1 h

  started-IsSettled :
      (r : Result (Unit {0})) (o : ManagementOutcome Manifest)
      → o.job_id ≡ job
      → IsSettled (started p canonical r o)
  unfolding started is_running
  started-IsSettled (ok t) o j = (refl, j)
  started-IsSettled (err e) o j = (refl, j)

  tried-IsSettled :
      (c : Circumstances) (o : ManagementOutcome Manifest) (activated : Bool)
      → IsSettled o
      → IsSettled (tried p canonical c o activated)
  unfolding tried
  tried-IsSettled c o true k = started-IsSettled c.start o k.1
  tried-IsSettled c o false k = k

  transition-IsSettled :
      (c : Circumstances) (o y : ManagementOutcome Manifest) (s : Store Manifest) (activated : Bool)
      → IsSettled o
      → (settle_transition p canonical c o s activated).1 ≡ ok y
      → IsSettled y
  unfolding settle_transition
  transition-IsSettled c o y s activated k h =
      subst IsSettled (settle_tried-eq p canonical c (tried p canonical c o activated) y s _ h)
        (tried-IsSettled c o activated k)

  removed-IsSettled :
      (o y : ManagementOutcome Manifest) (r : Store Manifest × Result (Unit {0}))
      → IsSettled o
      → (removed_or_not p canonical o r).1 ≡ ok y
      → IsSettled y
  unfolding removed_or_not is_running
  removed-IsSettled o y (s, ok t) k h = ok-IsSettled (succeeded o) y (refl, k.1) h
  removed-IsSettled o y (s, err e) k h = ok-IsSettled o y k h

  remove-IsSettled :
      (c : Circumstances) (o y : ManagementOutcome Manifest) (s : Store Manifest)
      → IsSettled o
      → (recover_remove p canonical c o s).1 ≡ ok y
      → IsSettled y
  unfolding recover_remove is_running
  remove-IsSettled c o y s k h = elim (Bool-cases (is_some (connector p s.state o.connector_id))) [
    | inl b ↦
        removed-IsSettled o y (stop_and_remove p canonical c o.connector_id s c.stop) k (rw b at h)
    | inr b ↦ files-IsSettled c.remove_files (succeeded o) y (refl, k.1) (rw b at h)
  ]

  terminated-IsSettled :
      (r : Result (Unit {0})) (o : ManagementOutcome Manifest)
      → IsSettled o
      → IsSettled (terminated p canonical r o)
  unfolding terminated
  terminated-IsSettled (ok t) o k = k
  terminated-IsSettled (err e) o k = k

  kind-IsSettled :
      (c : Circumstances) (o y : ManagementOutcome Manifest) (s : Store Manifest)
      (kind : HostWorkKind)
      → IsSettled o
      → (recover_kind p canonical c o s kind).1 ≡ ok y
      → IsSettled y
  unfolding recover_kind recover_install is_running
  kind-IsSettled c o y s shell k h =
      ok-IsSettled (terminated p canonical c.terminate o) y (terminated-IsSettled c.terminate o k) h
  kind-IsSettled c o y s connector_install k h =
      left-IsSettled c o y s o.connector_existed (connector p s.state o.connector_id) k h
  kind-IsSettled c o y s connector_update k h =
      transition-IsSettled c o y s (update_activated p canonical o s.state) k h
  kind-IsSettled c o y s connector_rollback k h =
      transition-IsSettled c o y s (rollback_activated p canonical o s.state) k h
  kind-IsSettled c o y s connector_remove k h = remove-IsSettled c o y s k h
  kind-IsSettled c o y s connector_job k h = ok-IsSettled (failed_as _ o) y (refl, k.1) h
  kind-IsSettled c o y s connector_cancel k h = ok-IsSettled (failed_as _ o) y (refl, k.1) h
  kind-IsSettled c o y s (other_kind x) k h = ok-IsSettled (failed_as _ o) y (refl, k.1) h

  numbered-job :
      (s : Store Manifest) (o x : ManagementOutcome Manifest)
      → numbered p canonical s.state o ≡ ok x
      → x.job_id ≡ o.job_id
  unfolding numbered
  numbered-job s o x h = ground arith

  pub outcome-IsSettled :
      (c : Circumstances) (o x : ManagementOutcome Manifest) (s : Store Manifest)
      → o.job_id ≡ job
      → (recover_outcome p canonical c o s).1 ≡ ok x
      → IsSettled x
  unfolding recover_outcome is_running
  outcome-IsSettled c o x s j h = elim (Bool-cases (is_running o.status)) [
    | inr r ↦ ok-IsSettled o x (r, j) (rw r at h)
    | inl r ↦
        let failed : ManagementOutcome Manifest = failed_as interrupted o in
        let kind = recover_kind p canonical c failed s o.kind in
        let (y, g, n) = finish-eq-ok p canonical kind x (rw r at h) in
        let (ended, same) = kind-IsSettled c failed y s o.kind (refl, j) g in
        (
          ap is_running (numbered-eq-ok p canonical kind.0.state y x n).0 ∙ ended,
          numbered-job kind.0 y x n ∙ same,
        )
  ]
