-- ===== src/Store/Acknowledge.antt =====
-- AcknowledgeInventoryMutation of state.go: a queued mutation that the control plane has taken.
use connectorhost.Common.{
  String, true, not, ◌&&◌, Option, none, some, List, length, ◌==◌, nat_eq, string_eq, if◌then◌else◌,
  Result, ok, err, ◌>>◌, guard, rejected, response_mismatch, removal_with_origins,
  changed_without_revision, upsert_without_connector,
}
use connectorhost.Dict.{lookup, insert, delete}
use connectorhost.Protocol.{Protocol, MutationRequest, MutationResponse}
use connectorhost.Record.{ConnectorRecord, clone_record, inventory_mutations_equal}
use connectorhost.Store.{State, Store, WriteOutcome, is_upsert, is_remove, commit}

-- The answer of AcknowledgeInventoryMutation: nothing was pending under that revision, or the
-- mutation is off the queue, with the record that it acknowledged if it was an upsert.
pub data Acknowledged (M : Type 0) : Type 0 where
  not_applied : Acknowledged M
  applied : Option (ConnectorRecord M) → Acknowledged M

module _ (p : Protocol) where
  open p use {Manifest}

  abbrev pub AckPlan : Type 0
  AckPlan = Result (Option (State Manifest × Acknowledged Manifest))

  unfoldable pub acknowledge_upsert :
      State Manifest → String → List String → Option (ConnectorRecord Manifest) → AckPlan
  acknowledge_upsert st id origins none = err upsert_without_connector
  acknowledge_upsert st id origins (some r) =
      let acknowledged = record (clone_record p r) {
        inventory_acknowledged = true;
        storage_origins = origins;
      } in
      let next = record st {
        connectors = insert id acknowledged st.connectors;
        pending = delete id st.pending;
      } in
      ok (some (next, applied (some (clone_record p acknowledged))))

  unfoldable pub acknowledge_pending :
      State Manifest
      → MutationRequest Manifest
      → MutationResponse
      → Option (MutationRequest Manifest)
      → AckPlan
  unfolding acknowledge_upsert
  acknowledge_pending st request response none = ok none
  acknowledge_pending st request response (some m) =
      let id = request.installation_id in
      if not (m.revision == request.revision) then ok none else do
        guard (inventory_mutations_equal p m request) changed_without_revision
        if is_upsert request.kind
            then acknowledge_upsert st id response.storage_origins (lookup id st.connectors)
            else ok (some (record st { pending = delete id st.pending }, applied none))

  unfoldable pub acknowledge_plan :
      MutationRequest Manifest → MutationResponse → State Manifest → AckPlan
  unfolding acknowledge_pending
  acknowledge_plan request response st = do
    guard (p.valid_response response) rejected
    guard
        (response.installation_id == request.installation_id
          && response.acknowledged_revision == request.revision)
        response_mismatch
    guard (not (is_remove request.kind && not (length response.storage_origins == 0)))
        removal_with_origins
    acknowledge_pending st request response (lookup request.installation_id st.pending)

  unfoldable pub acknowledge_commit :
      Store Manifest → AckPlan → WriteOutcome → Store Manifest × Result (Acknowledged Manifest)
  unfolding commit
  acknowledge_commit s (err e) w = (s, err e)
  acknowledge_commit s (ok none) w = (s, ok not_applied)
  acknowledge_commit s (ok (some next)) w = commit p s (ok next) w

  -- AcknowledgeInventoryMutation
  unfoldable pub acknowledge_inventory_mutation :
      MutationRequest Manifest
      → MutationResponse
      → Store Manifest
      → WriteOutcome
      → Store Manifest × Result (Acknowledged Manifest)
  unfolding acknowledge_plan acknowledge_commit
  acknowledge_inventory_mutation request response s w =
      acknowledge_commit s (acknowledge_plan request response s.state) w
