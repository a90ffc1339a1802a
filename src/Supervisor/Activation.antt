-- ===== src/Supervisor/Activation.antt =====
-- What an activation by the Supervisor leaves.
use connectorhost.Common.{
  ◌≡◌, refl, sym, ap, ◌∙◌, subst, true, Option, none, some, Error, Result, ok, err, ok-eq, >>-eq-ok,
  guard-eq-ok, ◌&&◌,
}
use connectorhost.Dict.{lookup, lookup-insert_self}
use connectorhost.Protocol.{Protocol}
use connectorhost.Record.{ConnectorRecord, manifests_equal}
use connectorhost.Store.{State}
use connectorhost.Store.Plans.{admit_connector}
use connectorhost.Artifact.{System, verify_artifact_file}
use connectorhost.Supervisor.{Child}
use connectorhost.Supervisor.Lifecycle.{
  Supervisor, Handshake, Launch, Stopping, Files, executable, check_handshake, launch, stop,
  installed, activate_persisted, activate_launched, activate_stopped, activate_admitted, activate,
}

module _ (p : Protocol) (sys : System p.Manifest) where
  open p use {Manifest}

  -- A child of a connector's record: it is ready, has announced a manifest with the JSON form of the
  -- record's, and was launched from a file that has the digest of the record.
  pub record Runs (r : ConnectorRecord Manifest) (files : Files) (s : Supervisor Manifest)
      : Type 0 where
    pub child : Child Manifest
    pub found : lookup r.installation_id s.children ≡ some child
    pub ready : child.ready ≡ true
    pub announced : manifests_equal p child.manifest r.manifest ≡ true
    pub verified : verify_artifact_file sys (executable p sys files r) r.active_digest ≡ ok tt

  record Launched (files : Files) (r : ConnectorRecord Manifest) (c : Child Manifest) : Type 0 where
    is_ready : c.ready ≡ true
    announced_it : manifests_equal p c.manifest r.manifest ≡ true
    verified_it : verify_artifact_file sys (executable p sys files r) r.active_digest ≡ ok tt

  handshake-child :
      (r : ConnectorRecord Manifest) (m : Option (Result (Handshake Manifest))) (c : Child Manifest)
      → check_handshake p sys r m ≡ ok c
      → (c.ready ≡ true) × (manifests_equal p c.manifest r.manifest ≡ true)
  unfolding check_handshake
  handshake-child r none c h = absurd (cc (h))
  handshake-child r (some (err e)) c h = absurd (cc (h))
  handshake-child r (some (ok m)) c h =
      let (_, h1) = guard-eq-ok (m.is_ready_message && m.same_version) _ _ h in
      let (_, h2) = guard-eq-ok m.ready _ _ h1 in
      let (same, h3) = guard-eq-ok (manifests_equal p m.manifest r.manifest) _ _ h2 in
      (
        ap (λ (x : Child Manifest). x.ready) (sym (ok-eq h3)),
        ap (λ (x : Child Manifest). manifests_equal p x.manifest r.manifest) (sym (ok-eq h3))
            ∙ same,
      )

  launch-Launched :
      (files : Files) (r : ConnectorRecord Manifest) (l : Launch Manifest) (c : Child Manifest)
      → launch p sys files r l ≡ ok c
      → Launched files r c
  unfolding launch
  launch-Launched files r l c h =
      let (v, h1) = >>-eq-ok _ _ h in
      let (_, h2) = >>-eq-ok _ _ h1 in
      let (_, h3) = >>-eq-ok _ _ h2 in
      let (a, b) = handshake-child r l.first c h3 in
      record { is_ready = a; announced_it = b; verified_it = v }

  -- What an activation that succeeds has done, over any store.
  module _ {ℓ} {W : Type ℓ} (persist : W → W × Result (Unit {0})) (files : Files) (w : W)
      (r : ConnectorRecord Manifest) where
    pub record Done (w' : W) (s' : Supervisor Manifest) : Type ℓ where
      pub persisted : (persist w).1 ≡ ok tt
      pub store : w' ≡ (persist w).0
      pub runs : Runs r files s'

    persisted-Done :
        (x : W × Result (Unit {0})) (s : Supervisor Manifest) (c : Child Manifest)
        → persist w ≡ x
        → Launched files r c
        → (activate_persisted p sys x s r.installation_id c).1 ≡ ok tt
        → let after = (activate_persisted p sys x s r.installation_id c).0 in Done after.0 after.1
    unfolding activate_persisted installed
    persisted-Done (w', err e) s c q l h = absurd (cc (h))
    persisted-Done (w', ok _) s c q l h = record {
      persisted = ap (λ (x : W × Result (Unit {0})). x.1) q;
      store = ap (λ (x : W × Result (Unit {0})). x.0) (sym q);
      runs = record {
        child = c;
        found = lookup-insert_self r.installation_id c s.children;
        ready = l.is_ready;
        announced = l.announced_it;
        verified = l.verified_it;
      };
    }

    launched-Done :
        (s : Supervisor Manifest) (c : Result (Child Manifest)) (l : Launch Manifest)
        → launch p sys files r l ≡ c
        → (activate_launched p sys persist w s r.installation_id c).1 ≡ ok tt
        → let after = (activate_launched p sys persist w s r.installation_id c).0 in
          Done after.0 after.1
    unfolding activate_launched
    launched-Done s (err e) l q h = absurd (cc (h))
    launched-Done s (ok c) l q h =
        persisted-Done (persist w) s c refl (launch-Launched files r l c q) h

    stopped-Done :
        (x : Supervisor Manifest × Result (Unit {0})) (l : Launch Manifest)
        → (activate_stopped p sys persist files w x r l).1 ≡ ok tt
        → let after = (activate_stopped p sys persist files w x r l).0 in Done after.0 after.1
    unfolding activate_stopped
    stopped-Done (s, err e) l h = absurd (cc (h))
    stopped-Done (s, ok _) l h = launched-Done s (launch p sys files r l) l refl h

    admitted-Done :
        (s : Supervisor Manifest) (a : Result (Unit {0})) (how : Stopping) (l : Launch Manifest)
        → (activate_admitted p sys persist files w s r a how l).1 ≡ ok tt
        → let after = (activate_admitted p sys persist files w s r a how l).0 in
          Done after.0 after.1
    unfolding activate_admitted
    admitted-Done s (err e) how l h = absurd (cc (h))
    admitted-Done s (ok _) how l h = stopped-Done (stop s r.installation_id how) l h

    -- An activation that fails has left the store alone, or `persist` has failed.
    pub data Failed : W → Type ℓ where
      untouched : Failed w
      not_persisted : (e : Error) → (persist w).1 ≡ err e → Failed (persist w).0

    persisted-Failed :
        (x : W × Result (Unit {0})) (s : Supervisor Manifest) (c : Child Manifest) (e : Error)
        → persist w ≡ x
        → (activate_persisted p sys x s r.installation_id c).1 ≡ err e
        → Failed (activate_persisted p sys x s r.installation_id c).0.0
    unfolding activate_persisted
    persisted-Failed (w', err x) s c e q h =
        subst Failed (ap (λ (x : W × Result (Unit {0})). x.0) q)
          (not_persisted x (ap (λ (x : W × Result (Unit {0})). x.1) q))
    persisted-Failed (w', ok _) s c e q h = absurd (cc (h))

    launched-Failed :
        (s : Supervisor Manifest) (c : Result (Child Manifest)) (e : Error)
        → (activate_launched p sys persist w s r.installation_id c).1 ≡ err e
        → Failed (activate_launched p sys persist w s r.installation_id c).0.0
    unfolding activate_launched
    launched-Failed s (err x) e h = untouched
    launched-Failed s (ok c) e h = persisted-Failed (persist w) s c e refl h

    stopped-Failed :
        (x : Supervisor Manifest × Result (Unit {0})) (l : Launch Manifest) (e : Error)
        → (activate_stopped p sys persist files w x r l).1 ≡ err e
        → Failed (activate_stopped p sys persist files w x r l).0.0
    unfolding activate_stopped
    stopped-Failed (s, err x) l e h = untouched
    stopped-Failed (s, ok _) l e h = launched-Failed s (launch p sys files r l) e h

    admitted-Failed :
        (s : Supervisor Manifest) (a : Result (Unit {0})) (how : Stopping) (l : Launch Manifest)
        (e : Error)
        → (activate_admitted p sys persist files w s r a how l).1 ≡ err e
        → Failed (activate_admitted p sys persist files w s r a how l).0.0
    unfolding activate_admitted
    admitted-Failed s (err x) how l e h = untouched
    admitted-Failed s (ok _) how l e h = stopped-Failed (stop s r.installation_id how) l e h

    pub activate-Done :
        (st : State Manifest) (s : Supervisor Manifest) (how : Stopping) (l : Launch Manifest)
        → (activate p sys persist files st w s r how l).1 ≡ ok tt
        → let after = (activate p sys persist files st w s r how l).0 in Done after.0 after.1
    unfolding activate
    activate-Done st s how l h = admitted-Done s (admit_connector p st r) how l h

    pub activate-Failed :
        (st : State Manifest) (s : Supervisor Manifest) (how : Stopping) (l : Launch Manifest)
        (e : Error)
        → (activate p sys persist files st w s r how l).1 ≡ err e
        → Failed (activate p sys persist files st w s r how l).0.0
    unfolding activate
    activate-Failed st s how l e h = admitted-Failed s (admit_connector p st r) how l e h
