-- ===== src/Host/Removed.antt =====
-- What remove of host.go leaves.
use connectorhost.Common.{
  ◌≡◌, refl, ap, ◌∙◌, String, Bool, true, false, Option, none, some, Result, ok, err,
}
use connectorhost.Dict.{lookup, lookup-delete_self}
use connectorhost.Protocol.{Protocol}
use connectorhost.Record.{ConnectorRecord}
use connectorhost.Store.Removals.{removed-none, removed_locally-none}
use connectorhost.Store.{Store, WriteOutcome, commit}
use connectorhost.Store.Plans.{connector}
use connectorhost.Artifact.{System}
use connectorhost.Supervisor.{Child}
use connectorhost.Supervisor.Lifecycle.{
  Supervisor, Stopping, stop, stop_found, stopped_child, stop_child,
}
use connectorhost.Host.{Host, Turn, Changed}
use connectorhost.Host.Removing.{
  stop_connector, removal_plan, finish_removal, remove_stopped, check_room, remove_checked,
  remove_found, check_id, remove_admitted, remove,
}

module _ {M : Type 0} where
  stopped_child-none :
      (s : Supervisor M) (id : String) (c : Child M) (r : Result (Unit {0}))
      → (stopped_child s id c r).1 ≡ ok tt
      → lookup id (stopped_child s id c r).0.children ≡ none
  unfolding stopped_child
  stopped_child-none s id c (err e) h = absurd (cc (h))
  stopped_child-none s id c (ok _) h = lookup-delete_self id s.children

  stop_found-none :
      (s : Supervisor M) (id : String) (how : Stopping) (found : Option (Child M))
      → lookup id s.children ≡ found
      → (stop_found s id how found).1 ≡ ok tt
      → lookup id (stop_found s id how found).0.children ≡ none
  unfolding stop_found
  stop_found-none s id how none e h = e
  stop_found-none s id how (some c) e h = stopped_child-none s id c (stop_child how c) h

  stop-none :
      (s : Supervisor M) (id : String) (how : Stopping)
      → (stop s id how).1 ≡ ok tt
      → lookup id (stop s id how).0.children ≡ none
  unfolding stop
  stop-none s id how h = stop_found-none s id how (lookup id s.children) refl h

module _ (p : Protocol) (sys : System p.Manifest) where
  open p use {Manifest}

  removal_plan-none :
      (local : Bool) (id : String) (s : Store Manifest) (w : WriteOutcome)
      → (commit p s (removal_plan p sys local id s.state) w).1 ≡ ok tt
      → connector p (commit p s (removal_plan p sys local id s.state) w).0.state id ≡ none
  unfolding removal_plan
  removal_plan-none true id s w e = removed_locally-none p id s w e
  removal_plan-none false id s w e = removed-none p id s w e

  -- Neither the Store nor the Supervisor has the connector.
  abbrev pub IsGone : String → Host Manifest → Type 0
  IsGone id h = (connector p h.store.state id ≡ none) × (lookup id h.supervisor.children ≡ none)

  finish_removal-IsGone :
      (turn : Turn Manifest) (id : String) (h : Host Manifest)
      (x : Store Manifest × Result (Unit {0}))
      → (x.1 ≡ ok tt → connector p x.0.state id ≡ none)
      → lookup id h.supervisor.children ≡ none
      → (finish_removal p sys turn id h x).1 ≡ ok tt
      → IsGone id (finish_removal p sys turn id h x).0
  unfolding finish_removal
  finish_removal-IsGone turn id h (s, err e) f g k = absurd (cc (k))
  finish_removal-IsGone turn id h (s, ok _) f g k = (f refl, g)

  stopped-IsGone :
      (turn : Turn Manifest) (id : String) (local : Bool) (x : Changed p sys (Unit {0}))
      → (x.1 ≡ ok tt → lookup id x.0.supervisor.children ≡ none)
      → (remove_stopped p sys turn id local x).1 ≡ ok tt
      → IsGone id (remove_stopped p sys turn id local x).0
  unfolding remove_stopped
  stopped-IsGone turn id local (h, err e) f k = absurd (cc (k))
  stopped-IsGone turn id local (h, ok _) f k =
      finish_removal-IsGone turn id h _ (removal_plan-none local id h.store turn.writing) (f refl) k

  stop_connector-none :
      (turn : Turn Manifest) (id : String) (h : Host Manifest)
      → (stop_connector p sys turn id h).1 ≡ ok tt
      → lookup id (stop_connector p sys turn id h).0.supervisor.children ≡ none
  unfolding stop_connector
  stop_connector-none turn id h k = stop-none h.supervisor id turn.stopping k

  stop_connector-store :
      (turn : Turn Manifest) (id : String) (h : Host Manifest)
      → (stop_connector p sys turn id h).0.store ≡ h.store
  unfolding stop_connector
  stop_connector-store turn id h = refl

  checked-IsGone :
      (turn : Turn Manifest) (id : String) (local : Bool) (h : Host Manifest)
      (c : Result (Unit {0}))
      → (remove_checked p sys turn id local h c).1 ≡ ok tt
      → IsGone id (remove_checked p sys turn id local h c).0
  unfolding remove_checked
  checked-IsGone turn id local h (err e) k = absurd (cc (k))
  checked-IsGone turn id local h (ok _) k =
      stopped-IsGone turn id local (stop_connector p sys turn id h) (stop_connector-none turn id h)
        k

  found-IsGone :
      (turn : Turn Manifest) (id : String) (local : Bool) (h : Host Manifest)
      (found : Option (ConnectorRecord Manifest))
      → connector p h.store.state id ≡ found
      → (remove_found p sys turn id local h found).1 ≡ ok tt
      → IsGone id (remove_found p sys turn id local h found).0
  unfolding remove_found
  found-IsGone turn id true h none e k = absurd (cc (k))
  found-IsGone turn id false h none e k = (
    ap (λ (s : Store Manifest). connector p s.state id) (stop_connector-store turn id h) ∙ e,
    stop_connector-none turn id h k,
  )
  found-IsGone turn id true h (some r) e k =
      checked-IsGone turn id true h (check_room p sys true id h.store.state) k
  found-IsGone turn id false h (some r) e k =
      checked-IsGone turn id false h (check_room p sys false id h.store.state) k

  admitted-IsGone :
      (turn : Turn Manifest) (id : String) (local : Bool) (h : Host Manifest)
      (c : Result (Unit {0}))
      → (remove_admitted p sys turn id local h c).1 ≡ ok tt
      → IsGone id (remove_admitted p sys turn id local h c).0
  unfolding remove_admitted
  admitted-IsGone turn id local h (err e) k = absurd (cc (k))
  admitted-IsGone turn id local h (ok _) k =
      found-IsGone turn id local h (connector p h.store.state id) refl k

  -- A removal, by a local caller or for the control plane, that reports success has left neither a
  -- record nor a child of the connector.
  pub remove-IsGone :
      (turn : Turn Manifest) (id : String) (local : Bool) (h : Host Manifest)
      → (remove p sys turn id local h).1 ≡ ok tt
      → IsGone id (remove p sys turn id local h).0
  unfolding remove
  remove-IsGone turn id local h k = admitted-IsGone turn id local h (check_id p sys local id) k
