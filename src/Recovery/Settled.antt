-- ===== src/Recovery/Settled.antt =====
-- What the recovery of one interrupted outcome leaves behind.
use connectorhost.Common.{
  ◌≡◌, refl, sym, ap, ◌∙◌, inl, inr, String, Bool, true, false, Option, none, some, arith, nat_eq,
  string_eq, Result, ok, err, interrupted, Result-cases, subst,
}
use connectorhost.Dict.{lookup, insert, delete, lookup-insert_self, lookup-delete_self}
use connectorhost.Policy.{
  HostWorkKind, shell, connector_install, connector_update, connector_remove, connector_rollback,
  connector_job, connector_cancel, other_kind,
}
use connectorhost.Protocol.{Protocol}
use connectorhost.Record.{ConnectorRecord, clone_record, validate_connector_record}
use connectorhost.Store.{State, Store, WriteOutcome, commit}
use connectorhost.Store.Plans.{put_remote_connector}
use connectorhost.Store.Commit.{commit_durable}
use connectorhost.Recovery.{
  ManagementOutcome, Circumstances, is_success, is_running, is_transition, failed_as, started,
  after_store, put_back, settle_tried, tried, settle_transition, update_activated,
  rollback_activated, recover_kind, numbered, finish, recover_outcome,
}

module _ (p : Protocol) (canonical : String → Option String) where
  open p use {Manifest}

  pub numbered-eq-ok :
      (st : State Manifest) (o x : ManagementOutcome Manifest)
      → numbered p canonical st o ≡ ok x
      → (x.status ≡ o.status) × (x.kind ≡ o.kind)
  unfolding numbered
  numbered-eq-ok st o x e = ground arith

  pub finish-store :
      (r : Store Manifest × Result (ManagementOutcome Manifest)) → (finish p canonical r).0 ≡ r.0
  unfolding finish
  finish-store (s, err e) = refl
  finish-store (s, ok o) = refl

  pub finish-eq-ok :
      (r : Store Manifest × Result (ManagementOutcome Manifest)) (x : ManagementOutcome Manifest)
      → (finish p canonical r).1 ≡ ok x
      → (o : ManagementOutcome Manifest) × (r.1 ≡ ok o) × (numbered p canonical r.0.state o ≡ ok x)
  unfolding finish
  finish-eq-ok (s, err e) x h = absurd (cc)
  finish-eq-ok (s, ok o) x h = (o, refl, h)

  pub after_store-eq-ok :
      (r : Store Manifest × Result (Unit {0})) (result : Result (ManagementOutcome Manifest))
      (y : ManagementOutcome Manifest)
      → (after_store p canonical r result).1 ≡ ok y
      → (r.1 ≡ ok tt) × (result ≡ ok y) × ((after_store p canonical r result).0 ≡ r.0)
  unfolding after_store
  after_store-eq-ok (s, err e) result y h = absurd (cc)
  after_store-eq-ok (s, ok t) result y h = (refl, h, refl)

  -- What a connector looks like once it was put back: its record is the one from before, which counts
  -- as acknowledged, no change of it is queued, and host.json has the same state.
  pub record PutBack (before : ConnectorRecord Manifest) (s : Store Manifest) : Type 0 where
    pub restored :
        lookup before.installation_id s.state.connectors
        ≡ some (clone_record p (record before { inventory_acknowledged = true }))
    pub unqueued : lookup before.installation_id s.state.pending ≡ none
    pub durable : s.disk ≡ some s.state

  put_remote_lem :
      (before : ConnectorRecord Manifest) (st next : State Manifest)
      → put_remote_connector p before st ≡ ok (next, tt)
      → next ≡ record st {
        connectors =
            insert before.installation_id
              (clone_record p (record before { inventory_acknowledged = true }))
              st.connectors;
        pending = delete before.installation_id st.pending;
      }
  unfolding put_remote_connector
  put_remote_lem before st next e =
      elim (Result-cases
        (validate_connector_record p (record before { inventory_acknowledged = true }))) [
          | inl (u, v) ↦ ground (arith, v)
          | inr (x, v) ↦ ground (arith, v)
        ]

  put_remote-PutBack :
      (before : ConnectorRecord Manifest) (s : Store Manifest) (w : WriteOutcome)
      → (commit p s (put_remote_connector p before s.state) w).1 ≡ ok tt
      → PutBack before (commit p s (put_remote_connector p before s.state) w).0
  put_remote-PutBack before s w e =
      let (next, plan, same) = commit_durable p s (put_remote_connector p before s.state) w tt e in
      subst (PutBack before) (sym same) (
        subst (λ n. PutBack before (record { state = n; disk = some n }))
          (sym (put_remote_lem before s.state next plan))
          (record {
            restored = lookup-insert_self before.installation_id _ s.state.connectors;
            unqueued = lookup-delete_self before.installation_id s.state.pending;
            durable = refl;
          }))

  started-before :
      (r : Result (Unit {0})) (o : ManagementOutcome Manifest)
      → (started p canonical r o).connector_before ≡ o.connector_before
  unfolding started
  started-before (ok t) o = refl
  started-before (err e) o = refl

  put_back-PutBack :
      (c : Circumstances) (o y : ManagementOutcome Manifest) (s : Store Manifest)
      (before : ConnectorRecord Manifest)
      → (put_back p canonical c o s (some before)).1 ≡ ok y
      → PutBack before (put_back p canonical c o s (some before)).0
  unfolding put_back
  put_back-PutBack c o y s before h =
      let (done, same, store) =
        after_store-eq-ok (commit p s (put_remote_connector p before s.state) c.store_write) (ok o)
          y h in
      subst (PutBack before) (sym store) (put_remote-PutBack before s c.store_write done)

  tried-before :
      (c : Circumstances) (o : ManagementOutcome Manifest) (activated : Bool)
      → (tried p canonical c o activated).connector_before ≡ o.connector_before
  unfolding tried
  tried-before c o true = started-before c.start o
  tried-before c o false = refl

  settle_tried-PutBack :
      (c : Circumstances) (o y : ManagementOutcome Manifest) (s : Store Manifest)
      (before : ConnectorRecord Manifest) (good : Bool)
      → o.connector_before ≡ some before
      → is_success o.status ≡ good
      → (settle_tried p canonical c o s good).1 ≡ ok y
      → is_success y.status ≡ false
      → PutBack before (settle_tried p canonical c o s good).0
  unfolding settle_tried
  settle_tried-PutBack c o y s before true b g h f = absurd (ground (arith, g, h, f))
  settle_tried-PutBack c o y s before false b g h f =
      subst (λ x. PutBack before (put_back p canonical c o s x).0) (sym b)
        (put_back-PutBack c o y s before (subst (λ x. (put_back p canonical c o s x).1 ≡ ok y) b h))

  transition-PutBack :
      (c : Circumstances) (o y : ManagementOutcome Manifest) (s : Store Manifest) (activated : Bool)
      (before : ConnectorRecord Manifest)
      → o.connector_before ≡ some before
      → (settle_transition p canonical c o s activated).1 ≡ ok y
      → is_success y.status ≡ false
      → PutBack before (settle_transition p canonical c o s activated).0
  unfolding settle_transition
  transition-PutBack c o y s activated before b h f =
      settle_tried-PutBack c (tried p canonical c o activated) y s before _
        (tried-before c o activated ∙ b) refl h f

  kind-PutBack :
      (c : Circumstances) (o y : ManagementOutcome Manifest) (s : Store Manifest)
      (kind : HostWorkKind) (before : ConnectorRecord Manifest)
      → is_transition kind ≡ true
      → o.connector_before ≡ some before
      → (recover_kind p canonical c o s kind).1 ≡ ok y
      → is_success y.status ≡ false
      → PutBack before (recover_kind p canonical c o s kind).0
  unfolding recover_kind is_transition
  kind-PutBack c o y s connector_update before t b h f =
      transition-PutBack c o y s (update_activated p canonical o s.state) before b h f
  kind-PutBack c o y s connector_rollback before t b h f =
      transition-PutBack c o y s (rollback_activated p canonical o s.state) before b h f
  kind-PutBack c o y s shell before t b h f = absurd (cc (t))
  kind-PutBack c o y s connector_install before t b h f = absurd (cc (t))
  kind-PutBack c o y s connector_remove before t b h f = absurd (cc (t))
  kind-PutBack c o y s connector_job before t b h f = absurd (cc (t))
  kind-PutBack c o y s connector_cancel before t b h f = absurd (cc (t))
  kind-PutBack c o y s (other_kind x) before t b h f = absurd (cc (t))

  -- An interrupted update or rollback of a connector that was there either succeeds or is undone. When
  -- its recovery ends without an error and does not report success, the record from before is back,
  -- counted as acknowledged, no change of the connector is queued, and host.json has the same state.
  pub recover_outcome-PutBack :
      (c : Circumstances) (o x : ManagementOutcome Manifest) (s : Store Manifest)
      (before : ConnectorRecord Manifest)
      → is_running o.status ≡ true
      → is_transition o.kind ≡ true
      → o.connector_before ≡ some before
      → (recover_outcome p canonical c o s).1 ≡ ok x
      → is_success x.status ≡ false
      → PutBack before (recover_outcome p canonical c o s).0
  unfolding recover_outcome
  recover_outcome-PutBack c o x s before r t b h f =
      let failed : ManagementOutcome Manifest = failed_as interrupted o in
      let kind = recover_kind p canonical c failed s o.kind in
      let h' : (finish p canonical kind).1 ≡ ok x = rw r at h in
      let (y, g, n) = finish-eq-ok kind x h' in
      rw r (
        subst (PutBack before) (sym (finish-store kind)) (
          kind-PutBack c failed y s o.kind before t b g
            (sym (ap is_success (numbered-eq-ok kind.0.state y x n).0) ∙ f)))
