-- ===== src/Policy/Laws.antt =====
-- What the access modes of policy.go grant, against each other and against the README's list.
use connectorhost.Common.{ℕ, ◌≤◌, ◌≡◌, refl, ◌↔◌, Bool, true, false, arith}
use connectorhost.Policy.{
  AccessMode, full, manage, updates, no_access, other_mode, HostWorkKind, shell, connector_install,
  connector_update, connector_remove, connector_rollback, connector_job, connector_cancel,
  other_kind, allows_remote_management,
}

-- What the README grants: the pairs of a mode and a kind of work, with whether the connector has to
-- exist already.
pub data Granted : AccessMode → HostWorkKind → Bool → Type 0 where
  full_shell : (b : Bool) → Granted full shell b
  full_lifecycle : (k : HostWorkKind) (b : Bool) → Granted manage k b → Granted full k b
  manage_install : (b : Bool) → Granted manage connector_install b
  manage_remove : (b : Bool) → Granted manage connector_remove b
  manage_update : (b : Bool) → Granted manage connector_update b
  manage_rollback : (b : Bool) → Granted manage connector_rollback b
  updates_update : Granted updates connector_update true
  updates_rollback : Granted updates connector_rollback true

-- `Granted` is sound for the test: what it lists is allowed.
Granted-allowed :
    {m : AccessMode} {k : HostWorkKind} {b : Bool}
    → Granted m k b
    → allows_remote_management m k b ≡ true
unfolding allows_remote_management
Granted-allowed (full_shell b) = refl
Granted-allowed (full_lifecycle shell b g) = refl
Granted-allowed (full_lifecycle connector_install b g) = refl
Granted-allowed (full_lifecycle connector_update b g) = refl
Granted-allowed (full_lifecycle connector_remove b g) = refl
Granted-allowed (full_lifecycle connector_rollback b g) = refl
Granted-allowed (full_lifecycle connector_job b g) = cc (Granted-allowed g)
Granted-allowed (full_lifecycle connector_cancel b g) = cc (Granted-allowed g)
Granted-allowed (full_lifecycle (other_kind s) b g) = cc (Granted-allowed g)
Granted-allowed (manage_install b) = refl
Granted-allowed (manage_remove b) = refl
Granted-allowed (manage_update b) = refl
Granted-allowed (manage_rollback b) = refl
Granted-allowed updates_update = refl
Granted-allowed updates_rollback = refl

allowed-Granted :
    (m : AccessMode) (k : HostWorkKind) (b : Bool)
    → allows_remote_management m k b ≡ true
    → Granted m k b
unfolding allows_remote_management
allowed-Granted full shell b h = full_shell b
allowed-Granted full connector_install b h = full_lifecycle _ b (manage_install b)
allowed-Granted full connector_update b h = full_lifecycle _ b (manage_update b)
allowed-Granted full connector_remove b h = full_lifecycle _ b (manage_remove b)
allowed-Granted full connector_rollback b h = full_lifecycle _ b (manage_rollback b)
allowed-Granted manage connector_install b h = manage_install b
allowed-Granted manage connector_update b h = manage_update b
allowed-Granted manage connector_remove b h = manage_remove b
allowed-Granted manage connector_rollback b h = manage_rollback b
allowed-Granted updates connector_update true h = updates_update
allowed-Granted updates connector_rollback true h = updates_rollback
allowed-Granted updates connector_update false h = cc
allowed-Granted updates connector_rollback false h = cc
allowed-Granted updates _ true h = cc
allowed-Granted updates _ false h = cc
allowed-Granted _ _ b h = cc

-- A kind of work is allowed in a mode exactly when the documented table grants it.
pub allowed_iff_Granted :
    (m : AccessMode) (k : HostWorkKind) (b : Bool)
    → (allows_remote_management m k b ≡ true) ↔ Granted m k b
allowed_iff_Granted m k b = (allowed-Granted m k b, Granted-allowed)

-- The order of the modes by what they grant.
abbrev pub rank : AccessMode → ℕ
rank full = 3
rank manage = 2
rank updates = 1
rank no_access = 0
rank (other_mode s) = 0

-- A mode of a higher rank allows all that a mode of a lower rank allows.
pub allows_mono :
    (m n : AccessMode) (k : HostWorkKind) (b : Bool)
    → rank m ≤ rank n
    → allows_remote_management m k b ≡ true
    → allows_remote_management n k b ≡ true
unfolding allows_remote_management
allows_mono full n k b h e = ground arith
allows_mono _ n k b h e = ground arith
