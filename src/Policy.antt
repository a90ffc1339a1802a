-- ===== src/Policy.antt =====
-- policy.go: the access modes, and what each of them lets the control plane do. The constants are
-- those of the connector protocol; the types are text there, so any other text is a value too.
pub mod Laws
mod Tests
use connectorhost.Common.{String, Bool, true, false, ◌&&◌, ◌||◌, Result, ok, err, bad_access_mode}

pub data AccessMode : Type 0 where
  full manage updates no_access : AccessMode
  other_mode : String → AccessMode

pub data HostWorkKind : Type 0 where
  shell connector_install connector_update connector_remove connector_rollback : HostWorkKind
  connector_job connector_cancel : HostWorkKind
  other_kind : String → HostWorkKind

unfoldable pub parse_access_mode : AccessMode → Result AccessMode
parse_access_mode (other_mode s) = err bad_access_mode
parse_access_mode mode = ok mode

-- `kind == protocol.HostWork…`
unfoldable pub is_shell : HostWorkKind → Bool
is_shell shell = true
is_shell _ = false

unfoldable pub is_install : HostWorkKind → Bool
is_install connector_install = true
is_install _ = false

unfoldable pub is_update : HostWorkKind → Bool
is_update connector_update = true
is_update _ = false

unfoldable pub is_remove : HostWorkKind → Bool
is_remove connector_remove = true
is_remove _ = false

unfoldable pub is_rollback : HostWorkKind → Bool
is_rollback connector_rollback = true
is_rollback _ = false

unfoldable pub allows_remote_management : AccessMode → HostWorkKind → Bool → Bool
unfolding is_shell is_install is_update is_remove is_rollback
allows_remote_management full kind existing =
    is_shell kind || is_install kind || is_update kind || is_remove kind || is_rollback kind
allows_remote_management manage kind existing =
    is_install kind || is_update kind || is_remove kind || is_rollback kind
allows_remote_management updates kind existing = existing && (is_update kind || is_rollback kind)
allows_remote_management _ kind existing = false
