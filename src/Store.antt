-- ===== src/Store.antt =====
-- The Store of state.go: what the host remembers, in memory and in host.json. The process lock and
-- the mutex make each operation one step. An operation checks its input and works out a new state
-- (its plan); the common tail writes that state and, only then, takes it over.
pub mod Plans
pub mod Acknowledge
pub mod Invariant
pub mod PutFacts
mod Preserve
mod PreserveRemovals
pub mod Commit
pub mod Operations
pub mod Sound
pub mod Load
mod Reread
pub mod Reload
pub mod Effects
pub mod Progress
pub mod Removals
mod Tests
use connectorhost.Common.{
  ℕ, suc, ◌≡◌, String, Bool, true, false, not, ◌&&◌, ◌||◌, Option, none, some, List, [], ◌∷◌, leb,
  ltb, length, ◌==◌, nat_eq, string_eq, if◌then◌else◌, is_some, Result, ok, err, ◌>>=◌, ◌>>◌, guard,
  Error, pending_removal, external, not_installed, pending_limit, rejected, response_mismatch,
  removal_with_origins, changed_without_revision, upsert_without_connector, contract_changed,
}
use mathlib.Core.Option
use connectorhost.Dict.{Dict, lookup, insert, delete}
use connectorhost.Policy.{AccessMode, parse_access_mode}
use connectorhost.Protocol.{
  Protocol, Attempt, MutationKind, upsert, remove, MutationRequest, MutationResponse,
}
use connectorhost.Record.{
  ConnectorRecord, validate_installation_id, validate_connector_record, clone_record,
  inventory_upsert_mutation, clone_inventory_mutation, inventory_mutations_equal, manifests_equal,
  next_mutation_revision,
}
use connectorhost.Contracts.{contract, validate_singleton_contracts}

-- persistedState
pub record State (M : Type 0) : Type 0 where
  pub version : ℕ
  pub host_id : String
  pub airlock_url : String
  pub credential : String
  pub access_mode : AccessMode
  pub mutation_revision : ℕ
  pub connectors : Dict (ConnectorRecord M)
  pub pending : Dict (MutationRequest M)

-- The state in memory, and the state that host.json was last written from.
pub record Store (M : Type 0) : Type 0 where
  pub state : State M
  pub disk : Option (State M)

-- How `atomicWrite` ends, as the file system decides: the file is replaced; nothing is replaced; or
-- the file is replaced and an error is reported all the same, as by the directory's last sync.
pub data WriteOutcome : Type 0 where
  written failed replaced_with_error : WriteOutcome

unfoldable pub is_upsert : MutationKind → Bool
is_upsert upsert = true
is_upsert _ = false

unfoldable pub is_remove : MutationKind → Bool
is_remove remove = true
is_remove _ = false

module _ {M : Type 0} where
  unfoldable pub atomic_write : Store M → State M → WriteOutcome → Store M × Result (Unit {0})
  atomic_write s st written = (record s { disk = some st }, ok tt)
  atomic_write s st failed = (s, err external)
  atomic_write s st replaced_with_error = (record s { disk = some st }, err external)

  unfoldable pub save_checked :
      Result (Unit {0}) → Store M → State M → WriteOutcome → Store M × Result (Unit {0})
  unfolding atomic_write
  save_checked (err e) s candidate w = (s, err e)
  save_checked (ok _) s candidate w = atomic_write s candidate w

  unfoldable pub take_over {ℓ} :
      {A : Type ℓ} → Store M × Result (Unit {0}) → State M → A → Store M × Result A
  take_over (s, err e) candidate a = (s, err e)
  take_over (s, ok _) candidate a = (record s { state = candidate }, ok a)

  -- The loop of saveStateLocked over the removals that are still to be acknowledged.
  unfoldable pub check_removals :
      Dict (MutationRequest M) → Dict (ConnectorRecord M) → Result (Unit {0})
  check_removals [] connectors = ok tt
  check_removals ((id, m) ∷ rest) connectors =
      let later = check_removals rest connectors in
      if is_remove m.kind && is_some (lookup id connectors) then err (pending_removal id) else later

  -- CanEnqueueInventoryMutation
  unfoldable pub can_enqueue : ℕ → String → Dict (MutationRequest M) → Bool
  can_enqueue limit id pending = is_some (lookup id pending) || ltb (length pending) limit

  abbrev pub exists : String → Dict (ConnectorRecord M) → Result (Unit {0})
  exists id connectors = guard (is_some (lookup id connectors)) (not_installed id)

module _ (p : Protocol) where
  open p use {Manifest}

  -- The two checks of saveStateLocked.
  unfoldable pub check_candidate : Store Manifest → State Manifest → Result (Unit {0})
  check_candidate s candidate =
      check_removals s.state.pending candidate.connectors
      >> validate_singleton_contracts p candidate.connectors

  -- saveStateLocked
  unfoldable pub save_state_locked :
      Store Manifest → State Manifest → WriteOutcome → Store Manifest × Result (Unit {0})
  unfolding save_checked
  save_state_locked s candidate w = save_checked (check_candidate s candidate) s candidate w

  -- The common tail: `saveStateLocked(candidate)`, and `s.state = candidate` if that returns no error.
  unfoldable pub commit {ℓ} :
      {A : Type ℓ}
      → Store Manifest
      → Result (State Manifest × A)
      → WriteOutcome
      → Store Manifest × Result A
  unfolding save_state_locked take_over
  commit s (err e) w = (s, err e)
  commit s (ok (candidate, a)) w = take_over (save_state_locked s candidate w) candidate a

  -- rewriteCurrentState
  unfoldable pub rewrite_current_state :
      Store Manifest → WriteOutcome → Store Manifest × Result (Unit {0})
  unfolding save_state_locked
  rewrite_current_state s w = save_state_locked s s.state w

  abbrev pub Plan : Type 0
  Plan = State Manifest → Result (State Manifest × Unit {0})

  -- SetAccessMode
  unfoldable pub set_access_mode : AccessMode → Plan
  set_access_mode mode st = do _ ← parse_access_mode mode; ok (record st { access_mode = mode }, tt)

  -- SetCredentials
  unfoldable pub set_credentials : String → String → String → Plan
  set_credentials base_url credential host_id st =
      ok (record st { airlock_url = base_url; credential = credential; host_id = host_id }, tt)

  -- SetEnrollment
  unfoldable pub set_enrollment : String → String → String → AccessMode → Plan
  set_enrollment base_url credential host_id mode st = do
    _ ← parse_access_mode mode
    let enrolled = record st {
      airlock_url = base_url;
      credential = credential;
      host_id = host_id;
      access_mode = mode;
    }
    ok (enrolled, tt)
