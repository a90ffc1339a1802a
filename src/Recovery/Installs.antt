-- ===== src/Recovery/Installs.antt =====
-- An interrupted install leaves a running connector or none.
use connectorhost.Common.{
  ◌≡◌, refl, sym, ap, ◌∙◌, String, Bool, true, false, Option, none, some, arith, Result, ok, err,
  interrupted, subst,
}
use connectorhost.Policy.{
  HostWorkKind, shell, connector_install, connector_update, connector_remove, connector_rollback,
  connector_job, connector_cancel, other_kind, is_install,
}
use connectorhost.Protocol.{Protocol}
use connectorhost.Record.{ConnectorRecord}
use connectorhost.Store.{Store, commit}
use connectorhost.Store.Plans.{connector, remove_remote_connector}
use connectorhost.Store.Removals.{removed-none}
use connectorhost.Recovery.{
  ManagementOutcome, Circumstances, is_success, is_running, failed_as, after_files, undo_install,
  settle_install, settle_left, recover_install, recover_kind, finish, recover_outcome,
}
use connectorhost.Recovery.Settled.{finish-store, finish-eq-ok, numbered-eq-ok, after_store-eq-ok}

module _ (p : Protocol) (canonical : String → Option String) where
  open p use {Manifest}

  settle-none :
      (c : Circumstances) (o y : ManagementOutcome Manifest) (s : Store Manifest)
      (start : Result (Unit {0}))
      → (settle_install p canonical c o s start).1 ≡ ok y
      → is_success y.status ≡ false
      → connector p (settle_install p canonical c o s start).0.state o.connector_id ≡ none
  unfolding settle_install undo_install is_success
  settle-none c o y s (ok t) h f = absurd (ground (arith, h, f))
  settle-none c o y s (err x) h f =
      let done = commit p s (remove_remote_connector p o.connector_id s.state) c.store_write in
      let (good, rest, store) =
        after_store-eq-ok p canonical done (after_files p canonical c.remove_files (failed_as x o))
          y h in
      subst (λ (z : Store Manifest). connector p z.state o.connector_id ≡ none) (sym store)
        (removed-none p o.connector_id s c.store_write good)

  left-none :
      (c : Circumstances) (o y : ManagementOutcome Manifest) (s : Store Manifest) (existed : Bool)
      (found : Option (ConnectorRecord Manifest))
      → existed ≡ false
      → connector p s.state o.connector_id ≡ found
      → (settle_left p canonical c o s existed found).1 ≡ ok y
      → is_success y.status ≡ false
      → connector p (settle_left p canonical c o s existed found).0.state o.connector_id ≡ none
  unfolding settle_left
  left-none c o y s true found e n h f = absurd (cc (e))
  left-none c o y s false none e n h f = n
  left-none c o y s false (some r) e n h f = settle-none c o y s c.start h f

  kind-none :
      (c : Circumstances) (o y : ManagementOutcome Manifest) (s : Store Manifest)
      (kind : HostWorkKind)
      → is_install kind ≡ true
      → o.connector_existed ≡ false
      → (recover_kind p canonical c o s kind).1 ≡ ok y
      → is_success y.status ≡ false
      → connector p (recover_kind p canonical c o s kind).0.state o.connector_id ≡ none
  unfolding recover_kind recover_install is_install
  kind-none c o y s connector_install t e h f =
      left-none c o y s o.connector_existed (connector p s.state o.connector_id) e refl h f
  kind-none c o y s connector_update t e h f = absurd (cc (t))
  kind-none c o y s connector_rollback t e h f = absurd (cc (t))
  kind-none c o y s shell t e h f = absurd (cc (t))
  kind-none c o y s connector_remove t e h f = absurd (cc (t))
  kind-none c o y s connector_job t e h f = absurd (cc (t))
  kind-none c o y s connector_cancel t e h f = absurd (cc (t))
  kind-none c o y s (other_kind x) t e h f = absurd (cc (t))

  -- An interrupted install either succeeds or is undone: when the recovery of a running install of a
  -- connector that was not there ends without an error and does not report success, the Store has no
  -- such connector.
  pub recover_install_undone :
      (c : Circumstances) (o x : ManagementOutcome Manifest) (s : Store Manifest)
      → is_running o.status ≡ true
      → is_install o.kind ≡ true
      → o.connector_existed ≡ false
      → (recover_outcome p canonical c o s).1 ≡ ok x
      → is_success x.status ≡ false
      → connector p (recover_outcome p canonical c o s).0.state o.connector_id ≡ none
  unfolding recover_outcome
  recover_install_undone c o x s r t e h f =
      let failed : ManagementOutcome Manifest = failed_as interrupted o in
      let kind = recover_kind p canonical c failed s o.kind in
      let h' : (finish p canonical kind).1 ≡ ok x = rw r at h in
      let (y, g, n) = finish-eq-ok p canonical kind x h' in
      rw r (
        subst (λ (z : Store Manifest). connector p z.state o.connector_id ≡ none)
          (sym (finish-store p canonical kind))
          (kind-none c failed y s o.kind t e g
            (sym (ap is_success (numbered-eq-ok p canonical kind.0.state y x n).0) ∙ f)))
