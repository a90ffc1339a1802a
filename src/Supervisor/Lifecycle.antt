-- ===== src/Supervisor/Lifecycle.antt =====
-- The life of the child processes in supervisor.go: launch, Start, Activate and Stop. `lifecycle` makes
-- each of these one step. What the system and the child do enters as arguments.
use connectorhost.Common.{
  String, Bool, true, false, not, ◌&&◌, Option, none, some, List, [], ◌∷◌, if◌then◌else◌, is_some,
  Error, Result, ok, err, ◌>>◌, guard, not_installed, bad_handshake, child_not_ready,
  manifest_mismatch, readiness_timeout, no_graceful_stop,
}
use connectorhost.Dict.{Dict, lookup, insert, delete}
use connectorhost.Protocol.{Protocol}
use connectorhost.Record.{ConnectorRecord, manifests_equal}
use connectorhost.Store.{State}
use connectorhost.Store.Plans.{connector, admit_connector}
use connectorhost.Artifact.{System, File, Directory, in_directory, verify_artifact_file}
use connectorhost.Supervisor.{Job, Child, Children}

-- Supervisor: the children, and why the connectors that have none could not be started
pub record Supervisor (M : Type 0) : Type 0 where
  pub children : Children M
  pub failures : Dict Error

-- The first message of a child
pub record Handshake (M : Type 0) : Type 0 where
  pub is_ready_message : Bool
  pub same_version : Bool
  pub ready : Bool
  pub manifest : M

-- The artifacts of each installation, by their digests
abbrev pub Files : Type 0
Files = Dict (Dict Directory)

unfoldable pub artifacts_of : Option (Dict Directory) → Dict Directory
artifacts_of none = []
artifacts_of (some d) = d

unfoldable pub connector_artifacts : String → Files → Dict Directory
unfolding artifacts_of
connector_artifacts id files = artifacts_of (lookup id files)

-- What happens during a launch once the file is verified: whether the process is started in its
-- container, whether the initialization is written, and what is read first: nothing before the time is
-- up, an error, or a message.
pub record Launch (M : Type 0) : Type 0 where
  pub spawned : Result (Unit {0})
  pub initialized : Result (Unit {0})
  pub first : Option (Result (Handshake M))

-- What happens when a child is stopped: whether it has exited before, how the write of the
-- cancellation of each job ends, and whether it exits in time after its input is closed.
pub record Stopping : Type 0 where
  pub exited_before : Bool
  pub cancel_write : Job → Result (Unit {0})
  pub exits_in_time : Bool

-- The loop of stopChild over the jobs
unfoldable pub cancel_all : Stopping → Dict Job → Result (Unit {0})
cancel_all how [] = ok tt
cancel_all how ((token, job) ∷ jobs) = how.cancel_write job >> cancel_all how jobs

ended : Result (Unit {0}) → Bool → Result (Unit {0})
ended (ok _) true = ok tt
ended _ _ = err no_graceful_stop

module _ {M : Type 0} where
  -- stopChild
  unfoldable pub stop_child : Stopping → Child M → Result (Unit {0})
  unfolding ended cancel_all
  stop_child how child =
      if how.exited_before then ok tt else ended (cancel_all how child.active) how.exits_in_time

  -- stop. A child that could not be stopped is kept, and its watch does not restart it.
  unfoldable pub stopped_child :
      Supervisor M → String → Child M → Result (Unit {0}) → Supervisor M × Result (Unit {0})
  stopped_child s id child (ok _) =
      (record { children = delete id s.children; failures = delete id s.failures }, ok tt)
  stopped_child s id child (err e) =
      (record s { children = insert id (record child { stopping = true }) s.children }, err e)

  unfoldable pub stop_found :
      Supervisor M → String → Stopping → Option (Child M) → Supervisor M × Result (Unit {0})
  unfolding stopped_child stop_child
  stop_found s id how none = (s, ok tt)
  stop_found s id how (some child) = stopped_child s id child (stop_child how child)

  unfoldable pub stop : Supervisor M → String → Stopping → Supervisor M × Result (Unit {0})
  unfolding stop_found
  stop s id how = stop_found s id how (lookup id s.children)

  unfoldable pub installed : Supervisor M → String → Child M → Supervisor M
  installed s id child = record {
    children = insert id child s.children;
    failures = delete id s.failures;
  }

  -- StartFailure starts the first connector, by its name, that has failed and has no child.
  unfoldable pub first_failure : Supervisor M → List String → Option String
  first_failure s [] = none
  first_failure s (id ∷ later) =
      let rest = first_failure s later in
      if is_some (lookup id s.failures) && not (is_some (lookup id s.children))
      then some id
      else rest

module _ (p : Protocol) (sys : System p.Manifest) where
  open p use {Manifest}

  -- Executable of state.go, and the file there
  unfoldable pub executable : Files → ConnectorRecord Manifest → Option File
  unfolding connector_artifacts in_directory
  executable files r =
      lookup r.filename (in_directory r.active_digest (connector_artifacts r.installation_id files))

  -- The checks of the first message, and of one that did not come.
  unfoldable pub check_handshake :
      ConnectorRecord Manifest → Option (Result (Handshake Manifest)) → Result (Child Manifest)
  check_handshake r none = err readiness_timeout
  check_handshake r (some (err e)) = err e
  check_handshake r (some (ok h)) = do
    guard (h.is_ready_message && h.same_version) bad_handshake
    guard h.ready child_not_ready
    guard (manifests_equal p h.manifest r.manifest) manifest_mismatch
    ok (record { manifest = h.manifest; ready = true; stopping = false; active = [] })

  -- launch
  unfoldable pub launch :
      Files → ConnectorRecord Manifest → Launch Manifest → Result (Child Manifest)
  unfolding check_handshake executable verify_artifact_file
  launch files r l =
      verify_artifact_file sys (executable files r) r.active_digest
      >> (l.spawned >> (l.initialized >> check_handshake r l.first))

  unfoldable pub start_launched :
      Supervisor Manifest
      → String
      → Result (Child Manifest)
      → Supervisor Manifest × Result (Unit {0})
  unfolding installed
  start_launched s id (err e) = (record s { failures = insert id e s.failures }, err e)
  start_launched s id (ok child) = (installed s id child, ok tt)

  unfoldable pub start_stopped :
      Files
      → Supervisor Manifest × Result (Unit {0})
      → ConnectorRecord Manifest
      → String
      → Launch Manifest
      → Supervisor Manifest × Result (Unit {0})
  unfolding start_launched launch
  start_stopped files (s, err e) r id l = (s, err e)
  start_stopped files (s, ok _) r id l = start_launched s id (launch files r l)

  unfoldable pub start_record :
      Files
      → Supervisor Manifest
      → Option (ConnectorRecord Manifest)
      → String
      → Stopping
      → Launch Manifest
      → Supervisor Manifest × Result (Unit {0})
  unfolding start_stopped stop
  start_record files s none id how l = (s, err (not_installed id))
  start_record files s (some r) id how l = start_stopped files (stop s id how) r id l

  -- Start
  unfoldable pub start :
      Files
      → State Manifest
      → Supervisor Manifest
      → String
      → Stopping
      → Launch Manifest
      → Supervisor Manifest × Result (Unit {0})
  unfolding start_record
  start files st s id how l = start_record files s (connector p st id) id how l

  -- Activate, over the store that `persist` changes: `persist` runs once the candidate is ready, and
  -- the candidate becomes the child of the connector only if that succeeds.
  abbrev pub Activated {ℓ} : Type ℓ → Type ℓ
  Activated W = (W × Supervisor Manifest) × Result (Unit {0})

  unfoldable pub activate_persisted {ℓ} :
      {W : Type ℓ}
      → W × Result (Unit {0})
      → Supervisor Manifest
      → String
      → Child Manifest
      → Activated W
  unfolding installed
  activate_persisted (w, err e) s id child = ((w, s), err e)
  activate_persisted (w, ok _) s id child = ((w, installed s id child), ok tt)

  module _ {ℓ} {W : Type ℓ} (persist : W → W × Result (Unit {0})) where
    unfoldable pub activate_launched :
        W → Supervisor Manifest → String → Result (Child Manifest) → Activated W
    unfolding activate_persisted
    activate_launched w s id (err e) = ((w, s), err e)
    activate_launched w s id (ok child) = activate_persisted (persist w) s id child

    unfoldable pub activate_stopped :
        Files
        → W
        → Supervisor Manifest × Result (Unit {0})
        → ConnectorRecord Manifest
        → Launch Manifest
        → Activated W
    unfolding activate_launched launch
    activate_stopped files w (s, err e) r l = ((w, s), err e)
    activate_stopped files w (s, ok _) r l =
        activate_launched w s r.installation_id (launch files r l)

    unfoldable pub activate_admitted :
        Files
        → W
        → Supervisor Manifest
        → ConnectorRecord Manifest
        → Result (Unit {0})
        → Stopping
        → Launch Manifest
        → Activated W
    unfolding activate_stopped stop
    activate_admitted files w s r (err e) how l = ((w, s), err e)
    activate_admitted files w s r (ok _) how l =
        activate_stopped files w (stop s r.installation_id how) r l

    unfoldable pub activate :
        Files
        → State Manifest
        → W
        → Supervisor Manifest
        → ConnectorRecord Manifest
        → Stopping
        → Launch Manifest
        → Activated W
    unfolding activate_admitted admit_connector
    activate files st w s r how l = activate_admitted files w s r (admit_connector p st r) how l
