-- ===== src/Store/Load.antt =====
-- `load` of state.go: host.json is decoded, brought up to the current version and checked.
use connectorhost.Common.{
  ℕ, String, Bool, true, false, not, ◌&&◌, ◌||◌, Option, none, some, [], ◌∷◌, leb, length, ◌==◌,
  nat_eq, string_eq, if◌then◌else◌, Result, ok, err, ◌>>=◌, ◌>>◌, guard, external, undecodable,
  unsupported_state, pending_limit, key_mismatch, bad_pending_identity, rejected, pending_mismatch,
  upsert_mismatch,
}
use connectorhost.Dict.{Dict, lookup, map_values}
use connectorhost.Policy.{AccessMode, full, updates, other_mode, parse_access_mode}
use connectorhost.Protocol.{Protocol, MutationRequest}
use connectorhost.Record.{
  ConnectorRecord, validate_connector_record, written_record, clone_inventory_mutation,
  inventory_upsert_mutation, inventory_mutations_equal,
}
use connectorhost.Contracts.{validate_singleton_contracts}
use connectorhost.Store.{State, Store, WriteOutcome, is_upsert, save_state_locked}

-- What decoding the file gives: a map may be missing, and a record may be `null`.
pub record HostState (M : Type 0) : Type 0 where
  pub version : ℕ
  pub host_id : String
  pub airlock_url : String
  pub credential : String
  pub access_mode : AccessMode
  pub mutation_revision : ℕ
  pub connectors : Option (Dict (Option (ConnectorRecord M)))
  pub pending : Option (Dict (MutationRequest M))

pub data FileRead (M : Type 0) : Type 0 where
  absent unreadable garbled : FileRead M
  decoded : HostState M → FileRead M

abbrev pub initial : {M : Type 0} → State M
initial = record {
  version = 3;
  host_id = "";
  airlock_url = "";
  credential = "";
  access_mode = full;
  mutation_revision = 0;
  connectors = [];
  pending = [];
}

unfoldable pub renamed_mode : AccessMode → AccessMode
renamed_mode (other_mode s) = if s == "update_only" then updates else other_mode s
renamed_mode mode = mode

abbrev pub or_empty {ℓ} : {V : Type ℓ} → Option (Dict V) → Dict V
or_empty none = []
or_empty (some m) = m

module _ {M : Type 0} where
  acknowledged : Option (ConnectorRecord M) → Option (ConnectorRecord M)
  acknowledged none = none
  acknowledged (some r) = some (record r { inventory_acknowledged = true })

  -- From version 1, whose connectors the server knew of by other means, to version 2.
  unfoldable pub migrate_first : HostState M → HostState M × Bool
  unfolding acknowledged map_values
  migrate_first h = elim h.connectors [
    | none ↦ (h, false)
    | some m ↦
        if h.version == 1
        then (
          record h {
            version = 2;
            connectors = some (map_values acknowledged m);
            pending = some [];
          },
          true,
        )
        else (h, false)
  ]

  -- From version 2 to version 3, where one access mode has another name.
  unfoldable pub migrate_second : HostState M → HostState M × Bool
  unfolding renamed_mode
  migrate_second h =
      if h.version == 2
      then (record h { version = 3; access_mode = renamed_mode h.access_mode }, true)
      else (h, false)

  abbrev pub checked : HostState M → Dict (ConnectorRecord M) → Dict (MutationRequest M) → State M
  checked h connectors pending = record {
    version = h.version;
    host_id = h.host_id;
    airlock_url = h.airlock_url;
    credential = h.credential;
    access_mode = h.access_mode;
    mutation_revision = h.mutation_revision;
    connectors = connectors;
    pending = pending;
  }

module _ (p : Protocol) where
  open p use {Manifest}

  unfoldable pub check_connectors :
      Dict (Option (ConnectorRecord Manifest)) → Result (Dict (ConnectorRecord Manifest))
  check_connectors [] = ok []
  check_connectors ((id, none) ∷ rest) = err key_mismatch
  check_connectors ((id, some r) ∷ rest) =
      let later = check_connectors rest in
      guard (id == r.installation_id) key_mismatch
      >> (validate_connector_record p r >> (later >>= λ m. ok ((id, r) ∷ m)))

  unfoldable pub check_described :
      MutationRequest Manifest → Option (ConnectorRecord Manifest) → Result (Unit {0})
  check_described m none = guard (not (is_upsert m.kind)) pending_mismatch
  check_described m (some r) = do
    guard (is_upsert m.kind) pending_mismatch
    guard
        (inventory_mutations_equal p m (record (inventory_upsert_mutation p r m.revision) {
          management_attempt = m.management_attempt;
        }))
        upsert_mismatch

  unfoldable pub check_pending :
      ℕ → Dict (ConnectorRecord Manifest) → Dict (MutationRequest Manifest) → Result (Unit {0})
  check_pending revision connectors [] = ok tt
  check_pending revision connectors ((id, m) ∷ rest) =
      let later = check_pending revision connectors rest in
      guard (id == m.installation_id && leb m.revision revision) bad_pending_identity
      >> (guard (p.valid_mutation m) rejected
          >> (check_described m (lookup id connectors) >> later))

  -- The checks after the migrations.
  unfoldable pub check_state : HostState Manifest → Result (State Manifest)
  check_state h = elim h.connectors [
    | none ↦ err unsupported_state
    | some given ↦ do
      guard (h.version == 3) unsupported_state
      let pending = or_empty h.pending
      guard (leb (length pending) p.max_hosted_connectors) pending_limit
      _ ← parse_access_mode h.access_mode
      connectors ← check_connectors given
      check_pending h.mutation_revision connectors pending
      validate_singleton_contracts p connectors
      ok (checked h connectors pending)
  ]

  -- The state that a decoded file stands for, and whether it was migrated.
  unfoldable pub load_state : HostState Manifest → Result (State Manifest × Bool)
  unfolding migrate_first migrate_second
  load_state h =
      let (h1, first) = migrate_first h in
      let (h2, second) = migrate_second h1 in check_state h2 >>= λ st. ok (st, first || second)

  -- load. After an error the store is given up.
  unfoldable pub load :
      Store Manifest → FileRead Manifest → WriteOutcome → Store Manifest × Result (Unit {0})
  unfolding load_state save_state_locked
  load s absent w = save_state_locked p (record s { state = initial }) initial w
  load s unreadable w = (s, err external)
  load s garbled w = (s, err undecodable)
  load s (decoded h) w = elim (load_state h) [
    | err e ↦ (s, err e)
    | ok (st, migrated) ↦
        if migrated
        then save_state_locked p (record s { state = st }) st w
        else (record s { state = st }, ok tt)
  ]

  abbrev pub written_pending :
      Dict (MutationRequest Manifest) → Option (Dict (MutationRequest Manifest))
  written_pending [] = none
  written_pending (e ∷ m) = some (map_values (clone_inventory_mutation p) (e ∷ m))

  -- What is decoded from the file that was written from a state: the queue is left out if it is empty.
  unfoldable pub read_back : State Manifest → HostState Manifest
  unfolding map_values
  read_back st = record {
    version = st.version;
    host_id = st.host_id;
    airlock_url = st.airlock_url;
    credential = st.credential;
    access_mode = st.access_mode;
    mutation_revision = st.mutation_revision;
    connectors = some (map_values (λ r. some (written_record p r)) st.connectors);
    pending = written_pending st.pending;
  }

  -- The state as it is after a restart: its texts of JSON are laid out as the file has them.
  unfoldable pub reread_state : State Manifest → State Manifest
  unfolding map_values
  reread_state st = record st { connectors = map_values (written_record p) st.connectors }
