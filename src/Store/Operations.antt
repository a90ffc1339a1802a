-- ===== src/Store/Operations.antt =====
-- The operations of the Store that the host calls, as one type, with the file system's part in each;
-- and that no sequence of them, whatever the file system does, leaves memory or host.json
-- inconsistent. PutConnector and RemoveConnector, which only tests call, are not among them.
use connectorhost.Common.{◌≡◌, String, none, some, List, [], ◌∷◌}
use connectorhost.Policy.{AccessMode}
use connectorhost.Protocol.{Protocol, MutationRequest, MutationResponse, Attempt}
use connectorhost.Record.{ConnectorRecord}
use connectorhost.Record.Storable.{IsStorable}
use connectorhost.Store.{
  State, Store, WriteOutcome, commit, rewrite_current_state, set_access_mode, set_credentials,
  set_enrollment,
}
use connectorhost.Store.Plans.{
  put_remote_connector, put_inventory_connector, remove_remote_connector, remove_local_connector,
}
use connectorhost.Store.Acknowledge.{acknowledge_inventory_mutation}
use connectorhost.Store.Invariant.{IsConsistent}

pub data Operation (M : Type 0) : Type 0 where
  sets_access_mode : AccessMode → Operation M
  sets_credentials : String → String → String → Operation M
  enrolls : String → String → String → AccessMode → Operation M
  puts_remote : ConnectorRecord M → Operation M
  puts_local : ConnectorRecord M → Operation M
  puts_transition : ConnectorRecord M → Attempt → Operation M
  removes_remote : String → Operation M
  removes_local : String → Operation M
  acknowledges : MutationRequest M → MutationResponse → Operation M
  rewrites : Operation M

module _ (p : Protocol) where
  open p use {Manifest}

  -- The store after an operation, failed or not.
  unfoldable pub step : Operation Manifest → WriteOutcome → Store Manifest → Store Manifest
  step (sets_access_mode m) w s = (commit p s (set_access_mode p m s.state) w).0
  step (sets_credentials u c h) w s = (commit p s (set_credentials p u c h s.state) w).0
  step (enrolls u c h m) w s = (commit p s (set_enrollment p u c h m s.state) w).0
  step (puts_remote r) w s = (commit p s (put_remote_connector p r s.state) w).0
  step (puts_local r) w s = (commit p s (put_inventory_connector p r none s.state) w).0
  step (puts_transition r a) w s = (commit p s (put_inventory_connector p r (some a) s.state) w).0
  step (removes_remote id) w s = (commit p s (remove_remote_connector p id s.state) w).0
  step (removes_local id) w s = (commit p s (remove_local_connector p id s.state) w).0
  step (acknowledges q a) w s = (acknowledge_inventory_mutation p q a s w).0
  step rewrites w s = (rewrite_current_state p s w).0

  unfoldable pub run : List (Operation Manifest × WriteOutcome) → Store Manifest → Store Manifest
  run [] s = s
  run ((o, w) ∷ rest) s = run rest (step o w s)

  -- The records that an operation is given hold within the limits in every form they take.
  abbrev pub GivenStorable : Operation Manifest → Type 0
  GivenStorable (puts_remote r) = IsStorable p r
  GivenStorable (puts_local r) = IsStorable p r
  GivenStorable (puts_transition r a) = IsStorable p r
  GivenStorable _ = Unit

  abbrev pub AllGiven : List (Operation Manifest × WriteOutcome) → Type 0
  AllGiven [] = Unit
  AllGiven ((o, w) ∷ rest) = GivenStorable o × AllGiven rest

  pub record IsSound (s : Store Manifest) : Type 0 where
    pub memory : IsConsistent p s.state
    pub file : (st : State Manifest) → s.disk ≡ some st → IsConsistent p st
