-- ===== src/Host/Switched.antt =====
-- What the switch of a connector to a candidate leaves, in the Store, of the children and in the files.
use connectorhost.Common.{
  ◌≡◌, ◌≢◌, refl, sym, ap, ◌∙◌, String, Bool, true, false, ◌&&◌, ◌||◌, Option, none, some, [], ◌∷◌,
  arith, eq_iff, Error, ok, err, ◌==◌, string_eq, if◌then◌else◌, is_some,
}
use connectorhost.Dict.{
  Dict, lookup, insert, lookup-insert_self, lookup-insert_ne, lookup-delete_ne,
}
use connectorhost.Protocol.{Protocol}
use connectorhost.Record.{ConnectorRecord}
use connectorhost.Store.{State, Store, WriteOutcome, commit, Plan}
use connectorhost.Store.Commit.{commit-err, commit_durable}
use connectorhost.Artifact.{System, Directory, File, listed, in_directory, verify_artifact_file}
use connectorhost.Supervisor.Lifecycle.{
  Supervisor, Files, connector_artifacts, artifacts_of, executable, activate, Activated,
}
use connectorhost.Supervisor.Activation.{
  Runs, Done, Failed, untouched, not_persisted, activate-Done, activate-Failed,
}
use connectorhost.Host.{
  Host, Removals, Turn, remains, remove_others, cleanup_connector_artifacts, activated,
  activate_record,
}

remains-other :
    {V : Type 0} (k j : String) (o : Option V) (m : Dict V)
    → k ≢ j
    → lookup j (remains k o m) ≡ lookup j m
unfolding remains
remains-other k j none m n = lookup-delete_ne k j m n
remains-other k j (some v) m n = lookup-insert_ne k j v m n

module _ {M : Type 0} where
  remove_others-kept :
      (x : Removals) (r : ConnectorRecord M) (digest : String) (entries m : Dict Directory)
      → (digest == r.active_digest || digest == r.previous_digest) ≡ true
      → lookup digest (remove_others x r entries m) ≡ lookup digest m
  unfolding remove_others
  remove_others-kept x r digest [] m e = refl
  remove_others-kept x r digest ((k, d) ∷ entries) m e = ground (
    arith,
    remove_others-kept x r digest entries m e,
    remove_others-kept x r digest entries (remains k (x.left_of_digest k) m) e,
    remains-other k digest (x.left_of_digest k) m,
    eq_iff k digest,
    eq_iff digest k,
  )

  cleanup_if-kept :
      (x : Removals) (r : ConnectorRecord M) (digest : String) (files : Files) (test : Bool)
      → (digest == r.active_digest || digest == r.previous_digest) ≡ true
      → lookup digest (
          connector_artifacts r.installation_id (
            if test
            then insert r.installation_id
                (remove_others x r
                  (connector_artifacts r.installation_id files)
                  (connector_artifacts r.installation_id files))
                files
            else files))
        ≡ lookup digest (connector_artifacts r.installation_id files)
  unfolding connector_artifacts
  cleanup_if-kept x r digest files false e = refl
  cleanup_if-kept x r digest files true e =
      ap (λ (o : Option (Dict Directory)). lookup digest (artifacts_of o))
        (lookup-insert_self r.installation_id _ files)
      ∙ remove_others-kept x r digest _ _ e

  -- Tidying up keeps the artifacts that the record names: the directories of its active digest and of
  -- its previous digest are as they were.
  pub cleanup_connector_artifacts-kept :
      (x : Removals) (r : ConnectorRecord M) (digest : String) (files : Files)
      → (digest == r.active_digest || digest == r.previous_digest) ≡ true
      → lookup digest
          (connector_artifacts r.installation_id (cleanup_connector_artifacts x r files))
        ≡ lookup digest (connector_artifacts r.installation_id files)
  unfolding cleanup_connector_artifacts
  cleanup_connector_artifacts-kept x r digest files e =
      cleanup_if-kept x r digest files (x.listable && is_some (lookup r.installation_id files)) e

module _ (p : Protocol) (sys : System p.Manifest) where
  open p use {Manifest}

  cleanup-executable :
      (x : Removals) (r : ConnectorRecord Manifest) (files : Files)
      → executable p sys (cleanup_connector_artifacts x r files) r ≡ executable p sys files r
  unfolding executable in_directory
  cleanup-executable x r files =
      ap (λ (o : Option Directory). lookup r.filename (listed o))
        (cleanup_connector_artifacts-kept x r r.active_digest files
          (ground (arith, eq_iff r.active_digest r.active_digest)))

  pub cleanup-Runs :
      (x : Removals) (r : ConnectorRecord Manifest) (files : Files) (s : Supervisor Manifest)
      → Runs p sys r files s
      → Runs p sys r (cleanup_connector_artifacts x r files) s
  cleanup-Runs x r files s k = record {
    child = k.child;
    found = k.found;
    ready = k.ready;
    announced = k.announced;
    verified =
        ap (λ (o : Option File). verify_artifact_file sys o r.active_digest)
          (cleanup-executable x r files)
        ∙ k.verified;
  }

  -- The host after a connector was switched to a record: the plan that puts the record in the Store
  -- has succeeded, memory and host.json hold the state that it gave, and a child of the record runs.
  pub record Switched (plan : ConnectorRecord Manifest → Plan p) (r : ConnectorRecord Manifest)
      (before : State Manifest) (after : Host Manifest) : Type 0 where
    pub next : State Manifest
    pub planned : plan r before ≡ ok (next, tt)
    pub durable : after.store ≡ record { state = next; disk = some next }
    pub runs : Runs p sys r after.files after.supervisor

  activated-Switched :
      (plan : ConnectorRecord Manifest → Plan p) (r : ConnectorRecord Manifest) (w : WriteOutcome)
      (files : Files) (s : Store Manifest) (x : Activated p sys (Store Manifest))
      → Done p sys (λ store. commit p store (plan r store.state) w) files s r x.0.0 x.0.1
      → x.1 ≡ ok tt
      → Switched plan r s.state (activated p sys files x).0
  unfolding activated
  activated-Switched plan r w files s ((s', v'), result) d h =
      let (next, planned, same) = commit_durable p s (plan r s.state) w tt d.persisted in
      record { next = next; planned = planned; durable = d.store ∙ same; runs = d.runs }

  activated-result :
      (files : Files) (x : Activated p sys (Store Manifest)) → (activated p sys files x).1 ≡ x.1
  unfolding activated
  activated-result files ((s, v), result) = refl

  activated-store :
      (files : Files) (x : Activated p sys (Store Manifest))
      → (activated p sys files x).0.store ≡ x.0.0
  unfolding activated
  activated-store files ((s, v), result) = refl

  pub activate_record-Switched :
      (turn : Turn Manifest) (plan : ConnectorRecord Manifest → Plan p)
      (r : ConnectorRecord Manifest) (h : Host Manifest)
      → (activate_record p sys turn plan r h).1 ≡ ok tt
      → Switched plan r h.store.state (activate_record p sys turn plan r h).0
  unfolding activate_record
  activate_record-Switched turn plan r h e =
      let x =
        activate p sys (λ store. commit p store (plan r store.state) turn.writing) h.files
          h.store.state h.store h.supervisor r turn.stopping turn.launching in
      let good : x.1 ≡ ok tt = sym (activated-result h.files x) ∙ e in
      activated-Switched plan r turn.writing h.files h.store x
        (activate-Done p sys _ h.files h.store r h.store.state h.supervisor turn.stopping
          turn.launching good)
        good

  -- A failed activation leaves the state in memory; what is in host.json may be the new state.
  Failed-state :
      (plan : ConnectorRecord Manifest → Plan p) (r : ConnectorRecord Manifest) (w : WriteOutcome)
      (files : Files) (s s' : Store Manifest)
      → Failed p sys (λ store. commit p store (plan r store.state) w) files s r s'
      → s'.state ≡ s.state
  Failed-state plan r w files s s' untouched = refl
  Failed-state plan r w files s s' (not_persisted e h) = commit-err p s (plan r s.state) w e h

  pub activate_record-err :
      (turn : Turn Manifest) (plan : ConnectorRecord Manifest → Plan p)
      (r : ConnectorRecord Manifest) (h : Host Manifest) (e : Error)
      → (activate_record p sys turn plan r h).1 ≡ err e
      → (activate_record p sys turn plan r h).0.store.state ≡ h.store.state
  unfolding activate_record
  activate_record-err turn plan r h e k =
      let x =
        activate p sys (λ store. commit p store (plan r store.state) turn.writing) h.files
          h.store.state h.store h.supervisor r turn.stopping turn.launching in
      let bad : x.1 ≡ err e = sym (activated-result h.files x) ∙ k in
      ap (λ (s : Store Manifest). s.state) (activated-store h.files x)
      ∙ Failed-state plan r turn.writing h.files h.store x.0.0 (
          activate-Failed p sys _ h.files h.store r h.store.state h.supervisor turn.stopping
            turn.launching e bad)
