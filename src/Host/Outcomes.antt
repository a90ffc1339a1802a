-- ===== src/Host/Outcomes.antt =====
-- What the installs and the rollbacks leave, when they fail and when they succeed.
use connectorhost.Common.{
  ◌≡◌, refl, sym, ap, ◌∙◌, subst, String, Option, none, some, Error, Result, ok, err,
}
use connectorhost.Dict.{insert}
use connectorhost.Protocol.{Protocol}
use connectorhost.Record.{ConnectorRecord}
use connectorhost.Store.{State, Store, WriteOutcome, written, rewrite_current_state, Plan}
use connectorhost.Store.Invariant.{IsConsistent}
use connectorhost.Store.Progress.{rewrite_heals}
use connectorhost.Artifact.{System, Staged}
use connectorhost.Host.{
  Host, Turn, Changed, activate_record, rewrite_state, settle_install, switch_to, restore,
  start_again, cleanup_connector_artifacts,
}
use connectorhost.Host.Changes.{after_staging, settle_rollback}
use connectorhost.Host.View.{Put, Puts}
use connectorhost.Host.Switched.{
  Switched, activate_record-Switched, activate_record-err, cleanup-Runs,
}

module _ (p : Protocol) (sys : System p.Manifest) where
  open p use {Manifest}

  -- A store whose memory and host.json agree on a consistent state
  pub record IsSettled (s : Store Manifest) : Type 0 where
    pub consistent : IsConsistent p s.state
    pub same : s.disk ≡ some s.state

  store-eq : (a b : Store Manifest) → a.state ≡ b.state → a.disk ≡ b.disk → a ≡ b
  store-eq a b e f = cc

  healed :
      (s t : Store Manifest) (w : WriteOutcome)
      → w ≡ written
      → IsSettled s
      → t.state ≡ s.state
      → (rewrite_current_state p t w).0 ≡ s
  healed s t w e k f =
      let good : IsConsistent p t.state = subst (IsConsistent p) (sym f) k.consistent in
      ap (λ (x : WriteOutcome). (rewrite_current_state p t x).0) e
      ∙ ap (λ (x : Store Manifest × Result (Unit {0})). x.0) (rewrite_heals p t good)
      ∙ store-eq _ s f (ap some f ∙ sym k.same)

  -- How a change of a connector ends: with an error, and the Store as it was, host.json included; or
  -- with a record that was switched to, of which something is known, and which the Store has.
  pub data Outcome {ℓ} {A : Type ℓ} (plan : ConnectorRecord Manifest → Plan p)
      (known : ConnectorRecord Manifest → Type 0) (before : Store Manifest)
      : Changed p sys A → Type ℓ where
    unchanged :
        (e : Error) (after : Host Manifest)
        → after.store ≡ before
        → Outcome plan known before (after, err e)
    switched :
        (a : A) (after : Host Manifest) (r : ConnectorRecord Manifest)
        → known r
        → Switched p sys plan r before.state after
        → Put p r before.state after.store.state
        → Outcome plan known before (after, ok a)

  tidied :
      (turn : Turn Manifest) (plan : ConnectorRecord Manifest → Plan p)
      (r : ConnectorRecord Manifest) (st : State Manifest) (x : Host Manifest)
      → Switched p sys plan r st x
      → Switched p sys plan r st
          (record x { files = cleanup_connector_artifacts turn.removals r x.files })
  tidied turn plan r st x k = record {
    next = k.next;
    planned = k.planned;
    durable = k.durable;
    runs = cleanup-Runs p sys turn.removals r x.files x.supervisor k.runs;
  }

  Switched-Put :
      (plan : ConnectorRecord Manifest → Plan p) (r : ConnectorRecord Manifest)
      (st : State Manifest) (x : Host Manifest)
      → Puts p plan
      → Switched p sys plan r st x
      → Put p r st x.store.state
  Switched-Put plan r st x puts k =
      subst (Put p r st) (sym (ap (λ (s : Store Manifest). s.state) k.durable))
        (puts.puts r st k.next k.planned)

  restore-store :
      (turn : Turn Manifest) (old : Option (ConnectorRecord Manifest))
      (r : ConnectorRecord Manifest) (x : Host Manifest)
      → (restore p sys turn old r x).store ≡ x.store
  unfolding restore start_again
  restore-store turn none r x = refl
  restore-store turn (some old) r x = refl

  module _ (turn : Turn Manifest) (rewritten : turn.rewriting ≡ written)
      (plan : ConnectorRecord Manifest → Plan p) (puts : Puts p plan) where
    settle_install-Outcome :
        (known : ConnectorRecord Manifest → Type 0) (before : Store Manifest)
        (old : Option (ConnectorRecord Manifest)) (r : ConnectorRecord Manifest)
        (x : Changed p sys (Unit {0}))
        → IsSettled before
        → known r
        → ((e : Error) → x.1 ≡ err e → x.0.store.state ≡ before.state)
        → (x.1 ≡ ok tt → Switched p sys plan r before.state x.0)
        → Outcome plan known before (settle_install p sys turn old r x)
    unfolding settle_install rewrite_state
    settle_install-Outcome known before old r (x, ok _) settled k f g =
        switched r _ r k (tidied turn plan r before.state x (g refl))
          (Switched-Put plan r before.state x puts (g refl))
    settle_install-Outcome known before old r (x, err y) settled k f g = unchanged y _ (
        restore-store turn old r _
        ∙ healed before x.store turn.rewriting rewritten settled (f y refl))

    switch_to-Outcome :
        (known : ConnectorRecord Manifest → Type 0) (old : Option (ConnectorRecord Manifest))
        (r : ConnectorRecord Manifest) (h : Host Manifest)
        → IsSettled h.store
        → known r
        → Outcome plan known h.store (switch_to p sys turn plan old r h)
    unfolding switch_to
    switch_to-Outcome known old r h settled k =
        settle_install-Outcome known h.store old r (activate_record p sys turn plan r h) settled k
          (activate_record-err p sys turn plan r h) (activate_record-Switched p sys turn plan r h)

    pub after_staging-Outcome :
        (known : ConnectorRecord Manifest → Type 0) (old : Option (ConnectorRecord Manifest))
        (adopt : ConnectorRecord Manifest → ConnectorRecord Manifest) (id : String)
        (h : Host Manifest) (x : Staged p sys)
        → IsSettled h.store
        → ((r : ConnectorRecord Manifest) → x.1 ≡ ok r → known (adopt r))
        → Outcome plan known h.store (after_staging p sys turn plan old adopt id h x)
    unfolding after_staging
    after_staging-Outcome known old adopt id h (artifacts, err e) settled k = unchanged e _ refl
    after_staging-Outcome known old adopt id h (artifacts, ok r) settled k =
        switch_to-Outcome known old (adopt r) (record h { files = insert id artifacts h.files })
          settled (k r refl)

    pub settle_rollback-Outcome :
        (known : ConnectorRecord Manifest → Type 0) (before : Store Manifest)
        (r : ConnectorRecord Manifest) (x : Changed p sys (Unit {0}))
        → IsSettled before
        → known r
        → ((e : Error) → x.1 ≡ err e → x.0.store.state ≡ before.state)
        → (x.1 ≡ ok tt → Switched p sys plan r before.state x.0)
        → Outcome plan known before (settle_rollback p sys turn r x)
    unfolding settle_rollback rewrite_state start_again
    settle_rollback-Outcome known before r (x, ok _) settled k f g =
        switched tt _ r k (tidied turn plan r before.state x (g refl))
          (Switched-Put plan r before.state x puts (g refl))
    settle_rollback-Outcome known before r (x, err y) settled k f g =
        unchanged y _ (healed before x.store turn.rewriting rewritten settled (f y refl))
