-- ===== src/Recovery.antt =====
-- The recovery of management work that was interrupted: `recoverInterruptedManagement` and the
-- rollback of host.go, and the journal of journal.go that they read.
pub mod Outcome
pub mod Settled
pub mod Reported
pub mod Slots
pub mod Installs
pub mod Journals
pub mod Answered
mod Tests
use connectorhost.Common.{
  ℕ, String, Bool, true, false, not, ◌&&◌, ◌||◌, Option, none, some, List, [], ◌∷◌, ◌==◌, nat_eq,
  string_eq, if◌then◌else◌, is_some, Error, Result, ok, err, external, interrupted,
  no_durable_inventory, bad_job,
}
use connectorhost.Dict.{Dict, lookup}
use connectorhost.Policy.{
  HostWorkKind, shell, connector_install, connector_update, connector_remove, connector_rollback,
}
use connectorhost.Protocol.{Protocol, Attempt, MutationRequest}
use connectorhost.Record.{ConnectorRecord, manifests_equal}
use connectorhost.Store.{State, Store, WriteOutcome, commit}
use connectorhost.Store.Plans.{connector, put_remote_connector, remove_remote_connector}
unfoldable pub use Outcome.*

module _ (p : Protocol) (canonical : String → Option String) where
  open p use {Manifest}

  abbrev pub Recovered : Type 0
  Recovered = Store Manifest × Result (ManagementOutcome Manifest)

  -- `Start` makes a success of the outcome, or says why it failed.
  unfoldable pub started :
      Result (Unit {0}) → ManagementOutcome Manifest → ManagementOutcome Manifest
  started (ok _) o = succeeded o
  started (err e) o = failed_as e o

  -- The rest of a step after an operation of the Store.
  unfoldable pub after_store :
      Store Manifest × Result (Unit {0}) → Result (ManagementOutcome Manifest) → Recovered
  after_store (s, err e) result = (s, err e)
  after_store (s, ok _) result = (s, result)

  unfoldable pub after_files :
      Result (Unit {0}) → ManagementOutcome Manifest → Result (ManagementOutcome Manifest)
  after_files (ok _) o = ok o
  after_files (err e) o = err e

  -- RemoveRemoteConnector and the files, after a failed start of what an install left
  unfoldable pub undo_install :
      Circumstances → ManagementOutcome Manifest → Store Manifest → Error → Recovered
  unfolding after_store after_files
  undo_install c o s e =
      after_store (commit p s (remove_remote_connector p o.connector_id s.state) c.store_write)
        (after_files c.remove_files (failed_as e o))

  unfoldable pub settle_install :
      Circumstances → ManagementOutcome Manifest → Store Manifest → Result (Unit {0}) → Recovered
  unfolding undo_install
  settle_install c o s (ok _) = (s, ok (succeeded o))
  settle_install c o s (err e) = undo_install c o s e

  -- Only a connector that was not there before is taken for one that the install has left.
  unfoldable pub settle_left :
      Circumstances
      → ManagementOutcome Manifest
      → Store Manifest
      → Bool
      → Option (ConnectorRecord Manifest)
      → Recovered
  unfolding settle_install
  settle_left c o s true found = (s, ok o)
  settle_left c o s false none = (s, ok o)
  settle_left c o s false (some r) = settle_install c o s c.start

  unfoldable pub recover_install :
      Circumstances → ManagementOutcome Manifest → Store Manifest → Recovered
  unfolding settle_left
  recover_install c o s = settle_left c o s o.connector_existed (connector p s.state o.connector_id)

  -- An update or a rollback that did not succeed puts the record back that was there before.
  unfoldable pub put_back :
      Circumstances
      → ManagementOutcome Manifest
      → Store Manifest
      → Option (ConnectorRecord Manifest)
      → Recovered
  unfolding after_store
  put_back c o s none = (s, ok o)
  put_back c o s (some before) =
      after_store (commit p s (put_remote_connector p before s.state) c.store_write) (ok o)

  unfoldable pub settle_tried :
      Circumstances → ManagementOutcome Manifest → Store Manifest → Bool → Recovered
  unfolding put_back
  settle_tried c o s true = (s, ok o)
  settle_tried c o s false = put_back c o s o.connector_before

  unfoldable pub tried :
      Circumstances → ManagementOutcome Manifest → Bool → ManagementOutcome Manifest
  unfolding started
  tried c o activated = if activated then started c.start o else o

  unfoldable pub settle_transition :
      Circumstances → ManagementOutcome Manifest → Store Manifest → Bool → Recovered
  unfolding tried settle_tried
  settle_transition c o s activated =
      settle_tried c (tried c o activated) s (is_success (tried c o activated).status)

  unfoldable pub update_activated : ManagementOutcome Manifest → State Manifest → Bool
  update_activated o st =
      is_some o.connector_before
      && is_some (connector p st o.connector_id)
      && not (remote_inventory_revision o.connector_id o.job_id st.pending == 0)

  swapped_from : Option (ConnectorRecord Manifest) → Option (ConnectorRecord Manifest) → Bool
  swapped_from (some current) (some before) = rollback_slots_swapped p canonical current before
  swapped_from _ _ = false

  unfoldable pub rollback_activated : ManagementOutcome Manifest → State Manifest → Bool
  unfolding swapped_from
  rollback_activated o st = swapped_from (connector p st o.connector_id) o.connector_before

  -- remove of host.go on behalf of the control plane
  remove_files_after :
      Circumstances → Store Manifest × Result (Unit {0}) → Store Manifest × Result (Unit {0})
  remove_files_after c (s, err e) = (s, err e)
  remove_files_after c (s, ok _) = (s, c.remove_files)

  stop_and_remove :
      Circumstances
      → String
      → Store Manifest
      → Result (Unit {0})
      → Store Manifest × Result (Unit {0})
  unfolding remove_files_after
  stop_and_remove c id s (err e) = (s, err e)
  stop_and_remove c id s (ok _) =
      remove_files_after c (commit p s (remove_remote_connector p id s.state) c.store_write)

  unfoldable pub remove_remotely :
      Circumstances → String → Store Manifest → Store Manifest × Result (Unit {0})
  unfolding stop_and_remove
  remove_remotely c id s =
      if is_some (connector p s.state id) then stop_and_remove c id s c.stop else (s, c.stop)

  removed_or_not : ManagementOutcome Manifest → Store Manifest × Result (Unit {0}) → Recovered
  removed_or_not o (s, ok _) = (s, ok (succeeded o))
  removed_or_not o (s, err e) = (s, ok o)

  unfoldable pub recover_remove :
      Circumstances → ManagementOutcome Manifest → Store Manifest → Recovered
  unfolding remove_remotely removed_or_not after_files
  recover_remove c o s =
      if is_some (connector p s.state o.connector_id)
      then removed_or_not o (remove_remotely c o.connector_id s)
      else (s, after_files c.remove_files (succeeded o))

  terminated : Result (Unit {0}) → ManagementOutcome Manifest → ManagementOutcome Manifest
  terminated (ok _) o = record o { process_id = 0 }
  terminated (err e) o = record o { failed_with = some e; process_id = 0 }

  -- The switch over the kinds; `o` already counts as failed.
  unfoldable pub recover_kind :
      Circumstances → ManagementOutcome Manifest → Store Manifest → HostWorkKind → Recovered
  unfolding recover_install settle_transition update_activated rollback_activated recover_remove
      terminated
  recover_kind c o s shell = (s, ok (terminated c.terminate o))
  recover_kind c o s connector_install = recover_install c o s
  recover_kind c o s connector_update = settle_transition c o s (update_activated o s.state)
  recover_kind c o s connector_rollback = settle_transition c o s (rollback_activated o s.state)
  recover_kind c o s connector_remove = recover_remove c o s
  recover_kind c o s _ = (s, ok (failed_as bad_job o))

  -- A transition that succeeded has a queued mutation, whose revision it reports.
  unfoldable pub numbered :
      State Manifest → ManagementOutcome Manifest → Result (ManagementOutcome Manifest)
  numbered st o =
      let revision = remote_inventory_revision o.connector_id o.job_id st.pending in
      if is_success o.status && is_transition o.kind
      then (if revision == 0
          then err no_durable_inventory
          else ok (record o { inventory_revision = revision }))
      else ok o

  unfoldable pub finish : Recovered → Recovered
  unfolding numbered
  finish (s, err e) = (s, err e)
  finish (s, ok o) = (s, numbered s.state o)

  -- One round of recoverInterruptedManagement up to the save: the outcome that is to be saved
  unfoldable pub recover_outcome :
      Circumstances → ManagementOutcome Manifest → Store Manifest → Recovered
  unfolding finish recover_kind
  recover_outcome c o s =
      if is_running o.status
      then finish (recover_kind c (failed_as interrupted o) s o.kind)
      else (s, ok o)

  -- The store, and the journal on disk by the jobs
  abbrev pub Books : Type 0
  Books = Store Manifest × Dict (ManagementOutcome Manifest)

  unfoldable pub save_recovered :
      WriteOutcome → Dict (ManagementOutcome Manifest) → Recovered → Books × Result (Unit {0})
  unfolding save_outcome
  save_recovered w j (s, err e) = ((s, j), err e)
  save_recovered w j (s, ok o) = let done = save_outcome w o j in ((s, done.0), done.1)

  -- An outcome that is not running is passed over.
  unfoldable pub save_if :
      Bool
      → WriteOutcome
      → Dict (ManagementOutcome Manifest)
      → Store Manifest
      → Recovered
      → Books × Result (Unit {0})
  unfolding save_recovered
  save_if false w j s r = ((s, j), ok tt)
  save_if true w j s r = save_recovered w j r

  -- One round of the loop
  unfoldable pub recover_entry :
      Circumstances → ManagementOutcome Manifest → Books → Books × Result (Unit {0})
  unfolding save_if recover_outcome
  recover_entry c o (s, j) =
      save_if (is_running o.status) c.save_journal j s (recover_outcome c o s)

  unfoldable pub recover_next :
      Books × Result (Unit {0}) → (Books → Books × Result (Unit {0})) → Books × Result (Unit {0})
  recover_next (x, err e) next = (x, err e)
  recover_next (x, ok _) next = next x

  -- recoverInterruptedManagement, over the outcomes that managementOutcomes has read, with what happens
  -- at each
  abbrev pub Journal : Type 0
  Journal = List (ManagementOutcome Manifest × Circumstances)

  unfoldable pub recover_all : Journal → Books → Books × Result (Unit {0})
  unfolding recover_entry recover_next
  recover_all [] x = (x, ok tt)
  recover_all ((o, c) ∷ rest) x = recover_next (recover_entry c o x) (recover_all rest)
