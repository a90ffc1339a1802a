-- ===== src/Host/Installed.antt =====
-- The outcome of installRemote and installLocal as a whole.
use connectorhost.Common.{
  ℕ, ◌≡◌, refl, String, Bool, true, false, Option, none, some, is_some, Result, ok, err, >>-eq-ok,
  string_eq,
}
use connectorhost.Protocol.{Protocol}
use connectorhost.Record.{ConnectorRecord, validate_host_storage_origins}
use connectorhost.Store.{written, Plan}
use connectorhost.Store.Plans.{connector, put_inventory_connector}
use connectorhost.Artifact.{System, Steps}
use connectorhost.Artifact.Inputs.{
  ConnectorArtifactInput, Response, LocalArtifactInput, Opened, stage_remote, stage_local,
}
use connectorhost.Supervisor.Lifecycle.{connector_artifacts}
use connectorhost.Artifact.Staging.{stage_remote_fresh, stage_local_fresh}
use connectorhost.Host.{Host, Turn, with_previous, validate_inventory_installation_id}
use connectorhost.Host.Changes.{
  inherited_settings, inherited_origins, check_update, install_checked, install_remote,
  install_local_checked, install_local, with_previous_local,
}
use connectorhost.Host.View.{Puts, put_inventory_Puts}
use connectorhost.Host.Outcomes.{IsSettled, Outcome, unchanged, after_staging-Outcome}

module _ {M : Type 0} where
  abbrev pub active_of : Option (ConnectorRecord M) → String
  active_of none = ""
  active_of (some old) = old.active_digest

  -- The record of an installation that takes the place of `old`, with the artifact and the settings of
  -- the candidate that was staged: an update if there was one before, whose artifact it keeps as its
  -- previous one.
  pub record Follows (id : String) (update : Bool) (staged : Result (ConnectorRecord M))
      (old : Option (ConnectorRecord M)) (r : ConnectorRecord M) : Type 0 where
    pub candidate : ConnectorRecord M
    pub staged_as : staged ≡ ok candidate
    pub identity : r.installation_id ≡ id
    pub active : r.active_digest ≡ candidate.active_digest
    pub filename : r.filename ≡ candidate.filename
    pub settings : r.settings ≡ candidate.settings
    pub manifest : r.manifest ≡ candidate.manifest
    pub was_there : is_some old ≡ update
    pub previous : r.previous_digest ≡ active_of old

  with_previous-Follows :
      (id : String) (update : Bool) (staged : Result (ConnectorRecord M))
      (old : Option (ConnectorRecord M)) (r : ConnectorRecord M)
      → staged ≡ ok r
      → r.installation_id ≡ id
      → r.previous_digest ≡ ""
      → is_some old ≡ update
      → Follows id update staged old (with_previous old r)
  unfolding with_previous
  with_previous-Follows id update staged none r s e n u = record {
    candidate = r;
    staged_as = s;
    identity = e;
    active = refl;
    filename = refl;
    settings = refl;
    manifest = refl;
    was_there = u;
    previous = n;
  }
  with_previous-Follows id update staged (some o) r s e n u = record {
    candidate = r;
    staged_as = s;
    identity = e;
    active = refl;
    filename = refl;
    settings = refl;
    manifest = refl;
    was_there = u;
    previous = refl;
  }

  with_previous_local-Follows :
      (id : String) (update : Bool) (staged : Result (ConnectorRecord M))
      (old : Option (ConnectorRecord M)) (r : ConnectorRecord M)
      → staged ≡ ok r
      → r.installation_id ≡ id
      → r.previous_digest ≡ ""
      → is_some old ≡ update
      → Follows id update staged old (with_previous_local old r)
  unfolding with_previous with_previous_local
  with_previous_local-Follows id update staged none r s e n u = record {
    candidate = r;
    staged_as = s;
    identity = e;
    active = refl;
    filename = refl;
    settings = refl;
    manifest = refl;
    was_there = u;
    previous = n;
  }
  with_previous_local-Follows id update staged (some o) r s e n u = record {
    candidate = r;
    staged_as = s;
    identity = e;
    active = refl;
    filename = refl;
    settings = refl;
    manifest = refl;
    was_there = u;
    previous = refl;
  }

update_fits :
    (update exists : Bool) (count limit : ℕ)
    → check_update update exists count limit ≡ ok tt
    → exists ≡ update
unfolding check_update
update_fits true false count limit h = absurd (cc (h))
update_fits false true count limit h = absurd (cc (h))
update_fits true true count limit h = refl
update_fits false false count limit h = refl

module _ (p : Protocol) (sys : System p.Manifest) (turn : Turn p.Manifest)
    (rewritten : turn.rewriting ≡ written) (h : Host p.Manifest)
    (settled : IsSettled p sys h.store) where
  open p use {Manifest}

  -- The candidates that installRemote and installLocal stage
  abbrev pub staged_remote :
      Steps p sys
      → Result Response
      → ConnectorArtifactInput
      → Option (ConnectorRecord Manifest)
      → Result (ConnectorRecord Manifest)
  staged_remote steps answered input old =
      (stage_remote p sys (connector_artifacts input.installation_id h.files) steps
        (record input { storage_origins = inherited_origins input old })
        (inherited_settings input.settings old) answered).1

  abbrev pub staged_local :
      Steps p sys
      → Result Opened
      → LocalArtifactInput
      → Option (ConnectorRecord Manifest)
      → Result (ConnectorRecord Manifest)
  staged_local steps opened input old =
      (stage_local p sys (connector_artifacts input.installation_id h.files) steps
        (record input { settings = inherited_settings input.settings old }) opened).1

  checked-Outcome :
      (steps : Steps p sys) (answered : Result Response) (plan : ConnectorRecord Manifest → Plan p)
      (puts : Puts p plan) (input : ConnectorArtifactInput) (update : Bool)
      (old : Option (ConnectorRecord Manifest)) (c : Result (Unit {0}))
      → (c ≡ ok tt → is_some old ≡ update)
      → Outcome p sys plan
          (Follows input.installation_id update (staged_remote steps answered input old) old)
          h.store
          (install_checked p sys turn steps answered plan input old h c)
  unfolding install_checked
  checked-Outcome steps answered plan puts input update old (err e) u = unchanged e h refl
  checked-Outcome steps answered plan puts input update old (ok _) u =
      after_staging-Outcome p sys turn rewritten plan puts
        (Follows input.installation_id update (staged_remote steps answered input old) old) old
        (with_previous old) input.installation_id h _ settled
        (λ r e.
          let (same, none_before) = stage_remote_fresh p sys _ steps _ _ answered r e in
          with_previous-Follows input.installation_id update _ old r e same none_before (u refl))

  -- installRemote, from a Store whose memory and file agree, with the current state written again where
  -- the activation fails, and with a `plan` that puts a record: it ends either with an error and the
  -- Store as it was, host.json included, or with one state in memory and in host.json that has a record
  -- with the artifacts, the settings and the manifest of the switched one and no other connector changed,
  -- and with a ready child of the switched record, launched from a file with its digest. The switched
  -- record is of the given installation, which was there exactly if an update was asked for; its digest,
  -- file name, settings and manifest are the staged candidate's; and it has the artifact from before in
  -- its rollback slot.
  pub install_remote-Outcome :
      (steps : Steps p sys) (answered : Result Response) (plan : ConnectorRecord Manifest → Plan p)
      (puts : Puts p plan) (input : ConnectorArtifactInput) (update : Bool)
      → Outcome p sys plan
          (Follows input.installation_id update
            (staged_remote steps answered input (connector p h.store.state input.installation_id))
            (connector p h.store.state input.installation_id))
          h.store
          (install_remote p sys turn steps answered plan input update h)
  unfolding install_remote
  install_remote-Outcome steps answered plan puts input update =
      checked-Outcome steps answered plan puts input update
        (connector p h.store.state input.installation_id) _
        (λ e.
          update_fits update _ _ _
            (>>-eq-ok (validate_host_storage_origins p input.storage_origins) _ e).1)

  checked_local-Outcome :
      (steps : Steps p sys) (opened : Result Opened) (input : LocalArtifactInput) (update : Bool)
      (old : Option (ConnectorRecord Manifest)) (c : Result (Unit {0}))
      → (c ≡ ok tt → is_some old ≡ update)
      → Outcome p sys
          (λ r. put_inventory_connector p r none)
          (Follows input.installation_id update (staged_local steps opened input old) old)
          h.store
          (install_local_checked p sys turn steps opened input old h c)
  unfolding install_local_checked
  checked_local-Outcome steps opened input update old (err e) u = unchanged e h refl
  checked_local-Outcome steps opened input update old (ok _) u =
      after_staging-Outcome p sys turn rewritten _ (put_inventory_Puts p none)
        (Follows input.installation_id update (staged_local steps opened input old) old) old
        (with_previous_local old) input.installation_id h _ settled
        (λ r e.
          let (same, none_before) = stage_local_fresh p sys _ steps _ opened r e in
          with_previous_local-Follows input.installation_id update _ old r e same none_before
            (u refl))

  -- installLocal likewise, with PutLocalConnector.
  pub install_local-Outcome :
      (steps : Steps p sys) (opened : Result Opened) (input : LocalArtifactInput) (update : Bool)
      → Outcome p sys
          (λ r. put_inventory_connector p r none)
          (Follows input.installation_id update
            (staged_local steps opened input (connector p h.store.state input.installation_id))
            (connector p h.store.state input.installation_id))
          h.store
          (install_local p sys turn steps opened input update h)
  unfolding install_local
  install_local-Outcome steps opened input update =
      checked_local-Outcome steps opened input update
        (connector p h.store.state input.installation_id) _
        (λ e.
          update_fits update _ _ _
            (>>-eq-ok (validate_inventory_installation_id p input.installation_id) _ e).1)
