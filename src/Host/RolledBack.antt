-- ===== src/Host/RolledBack.antt =====
-- The outcome of rollback as a whole.
use connectorhost.Common.{
  ◌≡◌, refl, String, false, Option, none, some, arith, Result, ok, err, ◌==◌, string_eq,
}
use connectorhost.Protocol.{Protocol}
use connectorhost.Record.{ConnectorRecord}
use connectorhost.Recovery.{swap_slots}
use connectorhost.Store.{written, Plan}
use connectorhost.Store.Plans.{connector}
use connectorhost.Artifact.{System}
use connectorhost.Host.{Host, Turn, validate_inventory_installation_id}
use connectorhost.Host.Changes.{
  rollback_slot, rollback_to, rollback_found, rollback_checked, rollback,
}
use connectorhost.Host.View.{Puts}
use connectorhost.Host.Switched.{activate_record-Switched, activate_record-err}
use connectorhost.Host.Outcomes.{IsSettled, Outcome, unchanged, settle_rollback-Outcome}

module _ {M : Type 0} where
  -- The record that a rollback switches to: the two artifacts of the record from before are exchanged.
  pub record RollsBack (old : Option (ConnectorRecord M)) (r : ConnectorRecord M) : Type 0 where
    pub before : ConnectorRecord M
    pub was_there : old ≡ some before
    pub identity : r.installation_id ≡ before.installation_id
    pub active : r.active_digest ≡ before.previous_digest
    pub previous : r.previous_digest ≡ before.active_digest
    pub filename : r.filename ≡ before.previous_filename
    pub previous_filename : r.previous_filename ≡ before.filename
    pub settings : r.settings ≡ before.previous_settings
    pub had_one : (before.previous_digest == "") ≡ false

module _ (p : Protocol) (sys : System p.Manifest) (turn : Turn p.Manifest)
    (rewritten : turn.rewriting ≡ written) (h : Host p.Manifest)
    (settled : IsSettled p sys h.store) where
  open p use {Manifest}

  slot_found :
      (r : ConnectorRecord Manifest) (m : Manifest)
      → rollback_slot r ≡ some m
      → (r.previous_digest == "") ≡ false
  unfolding rollback_slot
  slot_found r m e = ground arith

  to-Outcome :
      (plan : ConnectorRecord Manifest → Plan p) (puts : Puts p plan)
      (old : Option (ConnectorRecord Manifest)) (r : ConnectorRecord Manifest)
      (slot : Option Manifest)
      → old ≡ some r
      → rollback_slot r ≡ slot
      → Outcome p sys plan (RollsBack old) h.store (rollback_to p sys turn plan h r slot)
  unfolding rollback_to
  to-Outcome plan puts old r none e f = unchanged _ h refl
  to-Outcome plan puts old r (some m) e f =
      settle_rollback-Outcome p sys turn rewritten plan puts (RollsBack old) h.store
        (swap_slots r m) _ settled
        (unfold swap_slots in
          record {
            before = r;
            was_there = e;
            identity = refl;
            active = refl;
            previous = refl;
            filename = refl;
            previous_filename = refl;
            settings = refl;
            had_one = slot_found r m f;
          })
        (activate_record-err p sys turn plan (swap_slots r m) h)
        (activate_record-Switched p sys turn plan (swap_slots r m) h)

  found-Outcome :
      (plan : ConnectorRecord Manifest → Plan p) (puts : Puts p plan) (id : String)
      (old : Option (ConnectorRecord Manifest))
      → Outcome p sys plan (RollsBack old) h.store (rollback_found p sys turn plan id h old)
  unfolding rollback_found
  found-Outcome plan puts id none = unchanged _ h refl
  found-Outcome plan puts id (some r) = to-Outcome plan puts (some r) r (rollback_slot r) refl refl

  checked_rollback-Outcome :
      (plan : ConnectorRecord Manifest → Plan p) (puts : Puts p plan) (id : String)
      (c : Result (Unit {0}))
      → Outcome p sys plan
          (RollsBack (connector p h.store.state id))
          h.store
          (rollback_checked p sys turn plan id h c)
  unfolding rollback_checked
  checked_rollback-Outcome plan puts id (err e) = unchanged e h refl
  checked_rollback-Outcome plan puts id (ok _) =
      found-Outcome plan puts id (connector p h.store.state id)

  -- rollback, from a Store whose memory and file agree, with the current state written again where the
  -- activation fails, and with a `plan` that puts a record: it ends either with an error and the Store as it was, host.json
  -- included, or with one state in memory and in host.json that has a record with the artifacts, the
  -- settings and the manifest of the switched one and no other connector changed, and with a ready child
  -- of the switched record, launched from a file with its digest. The switched record has the two
  -- artifacts of the connector exchanged: the one in its rollback slot is active.
  pub rollback-Outcome :
      (plan : ConnectorRecord Manifest → Plan p) (puts : Puts p plan) (id : String)
      → Outcome p sys plan
          (RollsBack (connector p h.store.state id))
          h.store
          (rollback p sys turn plan id h)
  unfolding rollback
  rollback-Outcome plan puts id =
      checked_rollback-Outcome plan puts id (validate_inventory_installation_id p id)
