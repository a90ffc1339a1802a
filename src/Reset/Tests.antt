-- ===== src/Reset/Tests.antt =====
-- Tests of the reset, and its theorems at concrete inputs.
use connectorhost.Common.{eq_iff, ◌≡◌, refl, true, false, none, some, [], ◌∷◌, ok, string_eq, ◌==◌}
use connectorhost.Dict.{lookup, insert, delete}
use connectorhost.Reset.{
  irregular, regular, Directory, Platform, Calls, kept, resettable_state_entry, remove_entries,
  remove_marker, reset_state_entries, check_entries, has_valid_reset_marker, check_host_state,
  validate_reset_root, validate_reset_contents, check_reset, write_reset_marker, reset_state_locked,
  reset_marked, reset_locked, check_root, with_lock_file, reset_state,
}
use connectorhost.Reset.Cleared.{reset_state_clears, reset_state_refuses, Refused}

abbrev sample_platform : Platform
sample_platform = record {
  is_absolute = λ path. true;
  is_volume_root = λ path. path == "/";
  clean = λ path. path;
  has_prefix = λ name prefix. false;
  text_length = λ text. 32;
  is_hex = λ text. true;
  decode_marker = λ text. none;
  encode_marker = λ marker. "marker";
  decode_state = λ text. some (3, true);
}

-- A reset in which every system call succeeds
abbrev sample_calls : Calls
sample_calls = record {
  first_lstat = ok true;
  second_lstat = ok true;
  first_secure = ok tt;
  second_secure = ok tt;
  open_root = ok tt;
  lock_file = ok tt;
  lock = ok tt;
  first_identity = ok true;
  second_identity = ok true;
  read = λ name. ok tt;
  first_list = ok tt;
  second_list = ok tt;
  nonce = "0123456789abcdef0123456789abcdef";
  write = ok tt;
  temporary_left = none;
  marker_sync = ok tt;
  remove = λ name. ok tt;
  first_sync = ok tt;
  second_sync = ok tt;
}

abbrev sample_directory : Directory
sample_directory =
    (".lock", regular "") ∷ ("host.json", regular "{}") ∷ ("connectors", irregular) ∷ []

sample_reset :
    reset_state sample_platform sample_calls "/var/lib/airlock" sample_directory
    ≡ ((".lock", regular "") ∷ [], ok tt)
unfolding reset_state reset_locked check_root with_lock_file check_reset validate_reset_root
    validate_reset_contents has_valid_reset_marker check_host_state reset_state_entries
    check_entries write_reset_marker reset_marked reset_state_locked remove_entries remove_marker
    lookup insert delete kept resettable_state_entry
sample_reset = refl

reset_state_clears_example :
    lookup "host.json"
      (reset_state sample_platform sample_calls "/var/lib/airlock" sample_directory).0
    ≡ none
reset_state_clears_example =
    reset_state_clears sample_platform sample_calls "/var/lib/airlock" sample_directory "host.json"
      (rw sample_reset refl) (λ e. absurd (cc ((eq_iff "host.json" ".lock").1 e)))

abbrev foreign_directory : Directory
foreign_directory = ("notes.txt", regular "mine") ∷ sample_directory

reset_state_refuses_example :
    Refused sample_platform foreign_directory
      (reset_state sample_platform sample_calls "/home/user" foreign_directory)
unfolding lookup kept resettable_state_entry
reset_state_refuses_example =
    reset_state_refuses sample_platform sample_calls "/home/user" foreign_directory "notes.txt"
      (regular "mine") refl refl refl
