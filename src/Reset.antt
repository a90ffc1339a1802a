-- ===== src/Reset.antt =====
-- ResetState of state.go: the state directory is emptied, and a marker in it says that this has begun.
pub mod Cleared
mod Tests
use connectorhost.Common.{
  ℕ, String, Bool, true, false, not, ◌&&◌, ◌||◌, Option, none, some, List, [], ◌∷◌, ◌==◌, leb,
  string_eq, nat_eq, if◌then◌else◌, is_some, Error, Result, ok, err, ◌>>=◌, ◌>>◌, guard, external,
  not_absolute, filesystem_root, not_a_directory, state_directory_changed, bad_reset_marker,
  no_host_state, unsupported_state, unexpected_entry,
}
use connectorhost.Dict.{Dict, lookup, insert, delete}

-- An entry of the state directory: a regular file with its text, or anything else.
pub data Entry : Type 0 where
  irregular : Entry
  regular : String → Entry

abbrev pub Directory : Type 0
Directory = Dict Entry

pub record ResetMarker : Type 0 where
  pub magic : String
  pub root : String
  pub nonce : String

-- What the reset uses of path/filepath, strings, encoding/hex and strictJSON. Of a decoded state it
-- reads the version and whether there is a map of connectors.
pub record Platform : Type 0 where
  pub is_absolute : String → Bool
  pub is_volume_root : String → Bool
  pub clean : String → String
  pub has_prefix : String → String → Bool
  pub text_length : String → ℕ
  pub is_hex : String → Bool
  pub decode_marker : String → Option ResetMarker
  pub encode_marker : ResetMarker → String
  pub decode_state : String → Option (ℕ × Bool)

-- How the system calls of one reset end. `write` stands for all of writeResetMarkerToRoot up to the
-- rename; where it fails, its temporary file may be left. Taking the lock is to open its file, which
-- makes that if it is missing, and then to lock it.
pub record Calls : Type 0 where
  pub first_lstat : Result Bool
  pub second_lstat : Result Bool
  pub first_secure : Result (Unit {0})
  pub second_secure : Result (Unit {0})
  pub open_root : Result (Unit {0})
  pub lock_file : Result (Unit {0})
  pub lock : Result (Unit {0})
  pub first_identity : Result Bool
  pub second_identity : Result Bool
  pub read : String → Result (Unit {0})
  pub first_list : Result (Unit {0})
  pub second_list : Result (Unit {0})
  pub nonce : String
  pub write : Result (Unit {0})
  pub temporary_left : Option String
  pub marker_sync : Result (Unit {0})
  pub remove : String → Result (Unit {0})
  pub first_sync : Result (Unit {0})
  pub second_sync : Result (Unit {0})

unfoldable pub kept : String → Bool
kept name = name == ".lock" || name == ".resetting"

module _ (p : Platform) where
  -- validateResetRoot
  unfoldable pub validate_reset_root : String → Result Bool → Result (Unit {0}) → Result (Unit {0})
  validate_reset_root root lstat secure =
      guard (p.is_absolute root) not_absolute
      >> guard (not (p.is_volume_root (p.clean root))) filesystem_root
      >> (lstat >>= λ is_directory. guard is_directory not_a_directory)
      >> secure

  -- resettableStateEntry
  unfoldable pub resettable_state_entry : String → Bool
  resettable_state_entry name =
      name == "host.json"
      || name == "connectors"
      || name == "outbox"
      || name == "management"
      || name == "logs"
      || name == "control.json"
      || p.has_prefix name ".upload-"
      || p.has_prefix name ".write-"

  unfoldable pub check_entries : Directory → Result (Unit {0})
  unfolding kept resettable_state_entry
  check_entries [] = ok tt
  check_entries ((name, entry) ∷ later) =
      guard (kept name || resettable_state_entry name) unexpected_entry >> check_entries later

  -- resetStateEntries: the entries that it returns are the directory's.
  unfoldable pub reset_state_entries : Result (Unit {0}) → Directory → Result (Unit {0})
  unfolding check_entries
  reset_state_entries listed d = listed >> check_entries d

  unfoldable pub check_marker : String → Option ResetMarker → Result Bool
  check_marker path none = err bad_reset_marker
  check_marker path (some marker) =
      guard
        (marker.magic == "airlock-host-state-reset-v1"
          && marker.root == p.clean path
          && p.text_length marker.nonce == 32)
        bad_reset_marker
      >> guard (p.is_hex marker.nonce) bad_reset_marker
      >> ok true

  -- hasValidResetMarker
  unfoldable pub has_valid_reset_marker : Calls → String → Option Entry → Result Bool
  unfolding check_marker
  has_valid_reset_marker c path none = ok false
  has_valid_reset_marker c path (some irregular) = err bad_reset_marker
  has_valid_reset_marker c path (some (regular body)) =
      c.read ".resetting" >> check_marker path (p.decode_marker body)

  check_version : Option (ℕ × Bool) → Result (Unit {0})
  check_version none = err unsupported_state
  check_version (some (version, has_connectors)) =
      guard (leb 1 version && leb version 3 && has_connectors) unsupported_state

  unfoldable pub check_host_state : Calls → Option Entry → Result (Unit {0})
  unfolding check_version
  check_host_state c none = err no_host_state
  check_host_state c (some irregular) = err no_host_state
  check_host_state c (some (regular body)) =
      c.read "host.json" >> check_version (p.decode_state body)

  -- validateResetContents
  unfoldable pub validate_reset_contents : Calls → String → Directory → Result (Unit {0})
  unfolding has_valid_reset_marker check_host_state
  validate_reset_contents c path d =
      has_valid_reset_marker c path (lookup ".resetting" d) >>= λ marked.
      if marked then ok tt else check_host_state c (lookup "host.json" d)

  require_root_at_path : Result Bool → Result (Unit {0})
  require_root_at_path same = same >>= λ is_same. guard is_same state_directory_changed

  -- acquireProcessLock opens the lock file with O_CREATE.
  unfoldable pub with_lock_file : Directory → Directory
  with_lock_file d = if is_some (lookup ".lock" d) then d else insert ".lock" (regular "") d

  -- ResetState before the lock
  unfoldable pub check_root : Calls → String → Result (Unit {0})
  unfolding validate_reset_root
  check_root c root =
      validate_reset_root root c.first_lstat c.first_secure >> c.open_root >> c.lock_file

  -- What ResetState looks at once the lock file is open
  unfoldable pub check_reset : Calls → String → Directory → Result (Unit {0})
  unfolding validate_reset_root require_root_at_path validate_reset_contents reset_state_entries
  check_reset c root d =
      c.lock
      >> require_root_at_path c.first_identity
      >> validate_reset_root root c.second_lstat c.second_secure
      >> require_root_at_path c.second_identity
      >> validate_reset_contents c root d
      >> reset_state_entries c.first_list d

  left_over : Option String → Directory → Directory
  left_over none d = d
  left_over (some name) d = insert name irregular d

  -- writeResetMarkerToRoot
  unfoldable pub write_reset_marker : Calls → String → Directory → Directory × Result (Unit {0})
  unfolding left_over
  write_reset_marker c path d = elim c.write [
    | err e ↦ (left_over c.temporary_left d, err e)
    | ok _ ↦
        let marker : ResetMarker = record {
          magic = "airlock-host-state-reset-v1";
          root = p.clean path;
          nonce = c.nonce;
        } in
        (insert ".resetting" (regular (p.encode_marker marker)) d, c.marker_sync)
  ]

  -- The loop of resetStateLocked over the entries; where a removal fails, the entry is still there.
  unfoldable pub remove_entries : Calls → Directory → Directory → Directory × Result (Unit {0})
  unfolding kept
  remove_entries c [] d = (d, ok tt)
  remove_entries c ((name, entry) ∷ later) d =
      let skipped = remove_entries c later d in
      let removed = remove_entries c later (delete name d) in
      if kept name then skipped else elim (c.remove name) [ err e ↦ (d, err e) | ok _ ↦ removed ]

  unfoldable pub remove_marker :
      Calls → Directory × Result (Unit {0}) → Directory × Result (Unit {0})
  remove_marker c (d, err e) = (d, err e)
  remove_marker c (d, ok _) = elim (c.first_sync >> c.remove ".resetting") [
    | err e ↦ (d, err e)
    | ok _ ↦ (delete ".resetting" d, c.second_sync)
  ]

  -- resetStateLocked
  unfoldable pub reset_state_locked : Calls → Directory → Directory × Result (Unit {0})
  unfolding reset_state_entries remove_entries remove_marker
  reset_state_locked c d = elim (reset_state_entries c.second_list d) [
    | err e ↦ (d, err e)
    | ok _ ↦ remove_marker c (remove_entries c d d)
  ]

  unfoldable pub reset_marked :
      Calls → Directory × Result (Unit {0}) → Directory × Result (Unit {0})
  unfolding reset_state_locked
  reset_marked c (d, err e) = (d, err e)
  reset_marked c (d, ok _) = reset_state_locked c d

  unfoldable pub reset_locked : Calls → String → Directory → Directory × Result (Unit {0})
  unfolding check_reset write_reset_marker reset_marked
  reset_locked c root d = elim (check_reset c root d) [
    | err e ↦ (d, err e)
    | ok _ ↦ reset_marked c (write_reset_marker c root d)
  ]

  unfoldable pub reset_opened :
      Calls → String → Directory → Result (Unit {0}) → Directory × Result (Unit {0})
  unfolding with_lock_file reset_locked
  reset_opened c root d (err e) = (d, err e)
  reset_opened c root d (ok _) = reset_locked c root (with_lock_file d)

  -- ResetState
  unfoldable pub reset_state : Calls → String → Directory → Directory × Result (Unit {0})
  unfolding check_root reset_opened
  reset_state c root d = reset_opened c root d (check_root c root)

  -- What OpenStore does in the locked directory before it loads: it ends a reset that was
  -- interrupted
  unfoldable pub finish_reset : Calls → String → Directory → Directory × Result (Unit {0})
  unfolding has_valid_reset_marker reset_state_locked
  finish_reset c root d = elim (has_valid_reset_marker c root (lookup ".resetting" d)) [
    | err e ↦ (d, err e)
    | ok false ↦ (d, ok tt)
    | ok true ↦ reset_state_locked c d
  ]
