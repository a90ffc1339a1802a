-- ===== src/Policy/Tests.antt =====
-- Tests of policy.go, and its theorems at concrete inputs.
use connectorhost.Common.{◌≡◌, true, ◌↔◌}
use connectorhost.Policy.{updates, connector_update, allows_remote_management}
use connectorhost.Policy.Laws.{Granted, allowed_iff_Granted}

allowed_iff_Granted_example :
    (allows_remote_management updates connector_update true ≡ true)
    ↔ Granted updates connector_update true
allowed_iff_Granted_example = allowed_iff_Granted updates connector_update true
