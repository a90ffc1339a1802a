-- ===== src/Host/Refinement.antt =====
-- The installs, the updates and the rollbacks of host.go implement the moves of the artifacts.
use connectorhost.Common.{
  some-eq, ◌≡◌, refl, sym, ap, ◌∙◌, subst, String, Bool, true, false, Option, none, some, Result,
  [], ok, err, string_eq,
}
use connectorhost.Dict.{Dict, lookup}
use connectorhost.Protocol.{Protocol, Attempt}
use connectorhost.Record.{ConnectorRecord, validate_installation_id, clone_record}
use connectorhost.Store.{State, Store, written, Plan}
use connectorhost.Store.Plans.{
  connector, copy_if_valid, put_inventory_connector, put_remote_connector,
}
use connectorhost.Artifact.{System, Directory, Steps, digest_of, staged_bytes}
use connectorhost.Artifact.Staging.{stage_remote-IsStaged, stage_local-IsStaged}
use connectorhost.Artifact.Inputs.{
  ConnectorArtifactInput, Response, LocalArtifactInput, Opened, local_candidate, stage_local,
}
use connectorhost.Host.{Host, Turn, Changed}
use connectorhost.Host.Changes.{install_remote, install_local, rollback}
use connectorhost.Host.RolledBack.{RollsBack, rollback-Outcome}
use connectorhost.Host.Outcomes.{IsSettled, Outcome, unchanged, switched}
use connectorhost.Host.Installed.{
  staged_remote, staged_local, Follows, install_remote-Outcome, install_local-Outcome,
}
use connectorhost.Host.View.{
  View, Kind, installs, updates, rolls_back, Moves, slots_of, view, Refines, failed, moved, Put,
  Puts, put_inventory_Puts, put_remote_Puts, connector-view, Put-view,
}
use connectorhost.Store.Invariant.{IsConsistent}
use connectorhost.Host.Moved.{kind_of, Follows-Moves, RollsBack-Moves}

module _ (p : Protocol) (sys : System p.Manifest) where
  open p use {Manifest}

  switched-Refines {ℓ} :
      {A : Type ℓ} (a : A) (kind : Kind) (id : String) (st : State Manifest) (next : State Manifest)
      (r : ConnectorRecord Manifest)
      → Put p r st next
      → r.installation_id ≡ id
      → Moves kind (slots_of (connector p st id)) (some (r.active_digest, r.previous_digest))
      → Refines kind id st next (ok a)
  switched-Refines a kind id st next r put e m =
      moved a
        (subst (λ (v : View). Moves kind v (view next id))
          (connector-view p st id (ap validate_installation_id (sym e) ∙ put.valid))
          (subst (λ (v : View). Moves kind (slots_of (connector p st id)) v)
            (sym (Put-view p r st next put) ∙ ap (view next) e) m))
        (λ j n. put.others j (λ x. n (sym e ∙ x)))

  Outcome-Refines {ℓ} :
      {A : Type ℓ} (plan : ConnectorRecord Manifest → Plan p)
      (known : ConnectorRecord Manifest → Type 0) (kind : Kind) (id : String)
      (before : Store Manifest) (x : Changed p sys A)
      → ((r : ConnectorRecord Manifest)
          → known r
          → (r.installation_id ≡ id)
            × Moves kind
                (slots_of (connector p before.state id))
                (some (r.active_digest, r.previous_digest)))
      → Outcome p sys plan known before x
      → Refines kind id before.state x.0.store.state x.1
  Outcome-Refines plan known kind id before x k (unchanged e after same) =
      failed e (λ j. ap (λ (s : Store Manifest). view s.state j) same)
  Outcome-Refines plan known kind id before x k (switched a after r good s put) =
      switched-Refines a kind id before.state after.store.state r put (k r good).0 (k r good).1

  -- The changes of host.go that a local caller or the control plane asks for, with what the system does
  -- at each: installLocal, rollback with PutLocalConnector, and what handleManagement does for an
  -- install, an update and a rollback, the last two under the attempt of the job.
  pub data Request : Type 0 where
    install_locally :
        Turn Manifest → Steps p sys → Result Opened → LocalArtifactInput → Bool → Request
    roll_back_locally : Turn Manifest → String → Request
    install_for : Turn Manifest → Steps p sys → Result Response → ConnectorArtifactInput → Request
    update_for :
        Attempt → Turn Manifest → Steps p sys → Result Response → ConnectorArtifactInput → Request
    roll_back_for : Attempt → Turn Manifest → String → Request

  abbrev pub turn_of : Request → Turn Manifest
  turn_of (install_locally t s o i u) = t
  turn_of (roll_back_locally t id) = t
  turn_of (install_for t s r i) = t
  turn_of (update_for a t s r i) = t
  turn_of (roll_back_for a t id) = t

  abbrev pub target : Request → String
  target (install_locally t s o i u) = i.installation_id
  target (roll_back_locally t id) = id
  target (install_for t s r i) = i.installation_id
  target (update_for a t s r i) = i.installation_id
  target (roll_back_for a t id) = id

  -- The digest of a local file that was opened, as far as it is read
  abbrev pub local_digest : LocalArtifactInput → Result Opened → String
  local_digest input (err e) = ""
  local_digest input (ok f) = digest_of sys (staged_bytes p sys (local_candidate p sys input f))

  -- A local caller asks for the file that it names, the control plane for a digest.
  abbrev pub asks : Request → Kind
  asks (install_locally t s o i u) = kind_of u (local_digest i o)
  asks (roll_back_locally t id) = rolls_back
  asks (install_for t s r i) = installs i.sha256
  asks (update_for a t s r i) = updates i.sha256
  asks (roll_back_for a t id) = rolls_back

  -- The result without the record
  abbrev pub forget {ℓ} : {A : Type ℓ} → Result A → Result (Unit {0})
  forget (err e) = err e
  forget (ok a) = ok tt

  abbrev pub answered_by {ℓ} : {A : Type ℓ} → Changed p sys A → Changed p sys (Unit {0})
  answered_by (h, r) = (h, forget r)

  unfoldable pub serve : Request → Host Manifest → Changed p sys (Unit {0})
  serve (install_locally t s o i u) h = answered_by (install_local p sys t s o i u h)
  serve (roll_back_locally t id) h = rollback p sys t (λ r. put_inventory_connector p r none) id h
  serve (install_for t s r i) h =
      answered_by (install_remote p sys t s r (put_remote_connector p) i false h)
  serve (update_for a t s r i) h =
      answered_by (install_remote p sys t s r (λ x. put_inventory_connector p x (some a)) i true h)
  serve (roll_back_for a t id) h = rollback p sys t (λ r. put_inventory_connector p r (some a)) id h

  forget-Refines {ℓ} :
      {A : Type ℓ} (kind : Kind) (id : String) (st : State Manifest) (x : Changed p sys A)
      → Refines kind id st x.0.store.state x.1
      → Refines kind id st (answered_by x).0.store.state (answered_by x).1
  forget-Refines kind id st x (failed e same) = failed e same
  forget-Refines kind id st x (moved a m others) = moved tt m others

  -- The record that `Connector` gives of an installation is one of that installation.
  connector-keyed :
      (st : State Manifest) (id : String) (r : ConnectorRecord Manifest)
      → IsConsistent p st
      → connector p st id ≡ some r
      → r.installation_id ≡ id
  unfolding connector copy_if_valid clone_record
  connector-keyed st id r k e =
      copied-keyed (validate_installation_id id) (lookup id st.connectors) refl e
    where
      copied-keyed :
          (v : Result (Unit {0})) (found : Option (ConnectorRecord Manifest))
          → lookup id st.connectors ≡ found
          → copy_if_valid p v found ≡ some r
          → r.installation_id ≡ id
      copied-keyed (err x) found f g = absurd (cc (g))
      copied-keyed (ok _) none f g = absurd (cc (g))
      copied-keyed (ok _) (some s) f g =
          ap (λ (x : ConnectorRecord Manifest). x.installation_id) (sym (some-eq g))
          ∙ (k.records id s f).keyed

  install-known :
      (id digest : String) (update : Bool) (st : State Manifest)
      (staged : Result (ConnectorRecord Manifest)) (r : ConnectorRecord Manifest)
      → ((c : ConnectorRecord Manifest) → staged ≡ ok c → c.active_digest ≡ digest)
      → Follows id update staged (connector p st id) r
      → (r.installation_id ≡ id)
        × Moves
            (kind_of update digest)
            (slots_of (connector p st id))
            (some (r.active_digest, r.previous_digest))
  install-known id digest update st staged r d k =
      (k.identity, Follows-Moves id digest update staged (connector p st id) r d k)

  rollback-known :
      (id : String) (st : State Manifest) (r : ConnectorRecord Manifest)
      → IsConsistent p st
      → RollsBack (connector p st id) r
      → (r.installation_id ≡ id)
        × Moves rolls_back
            (slots_of (connector p st id))
            (some (r.active_digest, r.previous_digest))
  rollback-known id st r c k = (
    k.identity ∙ connector-keyed st id k.before c k.was_there,
    RollsBack-Moves (connector p st id) r k,
  )

  rollback-Refines :
      (turn : Turn Manifest) (plan : ConnectorRecord Manifest → Plan p) (id : String)
      (h : Host Manifest)
      → Puts p plan
      → turn.rewriting ≡ written
      → IsSettled p sys h.store
      → let x = rollback p sys turn plan id h in
        Refines rolls_back id h.store.state x.0.store.state x.1
  rollback-Refines turn plan id h puts w k =
      Outcome-Refines plan (RollsBack (connector p h.store.state id)) rolls_back id h.store _
        (λ r. rollback-known id h.store.state r k.consistent)
        (rollback-Outcome p sys turn w h k plan puts id)

  install-Refines :
      (turn : Turn Manifest) (steps : Steps p sys) (answered : Result Response)
      (plan : ConnectorRecord Manifest → Plan p) (input : ConnectorArtifactInput) (update : Bool)
      (h : Host Manifest)
      → Puts p plan
      → sys.hex_decode "" ≡ some []
      → turn.rewriting ≡ written
      → IsSettled p sys h.store
      → let x = answered_by (install_remote p sys turn steps answered plan input update h) in
        Refines
          (kind_of update input.sha256)
          input.installation_id
          h.store.state
          x.0.store.state
          x.1
  install-Refines turn steps answered plan input update h puts hex w k =
      let x = install_remote p sys turn steps answered plan input update h in
      let id = input.installation_id in
      let old = connector p h.store.state id in
      let staged = staged_remote p sys turn w h k steps answered input old in
      forget-Refines (kind_of update input.sha256) id h.store.state x (
        Outcome-Refines plan (Follows id update staged old) (kind_of update input.sha256) id h.store
          x
          (λ r.
            install-known id input.sha256 update h.store.state staged r
              (λ c e. (stage_remote-IsStaged p sys _ steps _ _ answered c hex e).0))
          (install_remote-Outcome p sys turn w h k steps answered plan puts input update))

  opened_digest :
      (artifacts : Dict Directory) (s : Steps p sys) (input : LocalArtifactInput)
      (settings : String) (opened : Result Opened) (c : ConnectorRecord Manifest)
      → (stage_local p sys artifacts s (record input { settings = settings }) opened).1 ≡ ok c
      → c.active_digest ≡ local_digest input opened
  unfolding local_candidate staged_bytes
  opened_digest artifacts s input settings opened c e =
      let (f, same, k) = stage_local-IsStaged p sys artifacts s _ opened c e in
      k.digest ∙ ap (local_digest input) (sym same)

  install_local-Refines :
      (turn : Turn Manifest) (steps : Steps p sys) (opened : Result Opened)
      (input : LocalArtifactInput) (update : Bool) (h : Host Manifest)
      → turn.rewriting ≡ written
      → IsSettled p sys h.store
      → let x = answered_by (install_local p sys turn steps opened input update h) in
        Refines
          (kind_of update (local_digest input opened))
          input.installation_id
          h.store.state
          x.0.store.state
          x.1
  install_local-Refines turn steps opened input update h w k =
      let x = install_local p sys turn steps opened input update h in
      let id = input.installation_id in
      let digest = local_digest input opened in
      let old = connector p h.store.state id in
      let staged = staged_local p sys turn w h k steps opened input old in
      forget-Refines (kind_of update digest) id h.store.state x (
        Outcome-Refines (λ r. put_inventory_connector p r none) (Follows id update staged old)
          (kind_of update digest) id h.store x
          (λ r.
            install-known id digest update h.store.state staged r
              (λ c e. opened_digest _ steps input _ opened c e))
          (install_local-Outcome p sys turn w h k steps opened input update))

  -- A request is answered as the view of the connectors asks for: from a Store whose memory and
  -- host.json agree on a consistent state, where the state can be written again after a failed
  -- activation, and where the empty text decodes to no bytes as hexadecimal. A request that ends with an
  -- error changes nobody's artifacts. One that ends without makes its installation appear with the
  -- artifact that is asked for, or puts that in the place of the active one and keeps the old one, or
  -- exchanges the two; the digest is the one that the control plane gives, or that of the local file. It
  -- changes no other installation's.
  pub serve-Refines :
      (request : Request) (h : Host Manifest)
      → sys.hex_decode "" ≡ some []
      → (turn_of request).rewriting ≡ written
      → IsSettled p sys h.store
      → Refines
          (asks request)
          (target request)
          h.store.state
          (serve request h).0.store.state
          (serve request h).1
  unfolding serve
  serve-Refines (install_locally t s o i u) h hex w k = install_local-Refines t s o i u h w k
  serve-Refines (roll_back_locally t id) h hex w k =
      rollback-Refines t _ id h (put_inventory_Puts p none) w k
  serve-Refines (install_for t s r i) h hex w k =
      install-Refines t s r _ i false h (put_remote_Puts p) hex w k
  serve-Refines (update_for a t s r i) h hex w k =
      install-Refines t s r _ i true h (put_inventory_Puts p (some a)) hex w k
  serve-Refines (roll_back_for a t id) h hex w k =
      rollback-Refines t _ id h (put_inventory_Puts p (some a)) w k
