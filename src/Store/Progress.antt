-- ===== src/Store/Progress.antt =====
-- From a consistent state the Store makes progress: an acknowledgement that fits is taken, a stale one
-- changes nothing, and host.json can be written again after a failed activation.
use connectorhost.Common.{
  ◌≡◌, refl, sym, ap, ◌∙◌, ◌≢◌, inl, inr, String, true, false, ◌&&◌, Option, none, some, [], ◌∷◌,
  arith, eq_iff, nat_eq, string_eq, is_some, length, All, ok, Option-cases,
}
use connectorhost.Dict.{
  Dict, lookup, insert, delete, lookup-insert, lookup-insert_self, lookup-delete_self,
  All-of_lookup,
}
use connectorhost.Protocol.{Protocol, IsCodec, IsProtocol, MutationRequest, MutationResponse}
use connectorhost.Record.{
  ConnectorRecord, clone_record, inventory_upsert_mutation, inventory_mutations_equal,
}
use connectorhost.Contracts.{contract, singleton_from, validate_singleton_contracts}
use connectorhost.Store.{
  State, Store, WriteOutcome, written, check_removals, check_candidate, take_over, save_checked,
  rewrite_current_state, is_remove, is_upsert,
}
use connectorhost.Store.Acknowledge.{
  Acknowledged, not_applied, applied, acknowledge_inventory_mutation, acknowledge_plan,
  acknowledge_pending, acknowledge_commit,
}
use connectorhost.Store.Invariant.{IsConsistent, Describes}
use connectorhost.Store.Reread.{inventory_mutations_equal_refl}

-- A record that replaces one of the same contract does not bear on the check of the contracts.
singleton_from-insert :
    {A : Type 0} (contract_of : A → String) (seen : Dict String) (m : Dict A) (id : String)
    (x r : A)
    → lookup id m ≡ some r
    → contract_of x ≡ contract_of r
    → singleton_from contract_of seen (insert id x m) ≡ singleton_from contract_of seen m
unfolding singleton_from insert lookup
singleton_from-insert contract_of seen [] id x r e h = cc
singleton_from-insert contract_of seen ((j, y) ∷ m) id x r e h = ground (
  arith,
  eq_iff j id,
  singleton_from-insert contract_of seen m id x r,
  singleton_from-insert contract_of (insert (contract_of y) j seen) m id x r,
)

module _ {M : Type 0} where
  check_removals-insert :
      (q : Dict (MutationRequest M)) (m : Dict (ConnectorRecord M)) (id : String)
      (x r : ConnectorRecord M)
      → lookup id m ≡ some r
      → check_removals q (insert id x m) ≡ check_removals q m
  unfolding check_removals
  check_removals-insert [] m id x r e = refl
  check_removals-insert ((j, y) ∷ q) m id x r e =
      ground (arith, check_removals-insert q m id x r e, lookup-insert id j x m, eq_iff id j)

  check_removals-All :
      (q : Dict (MutationRequest M)) (m : Dict (ConnectorRecord M))
      → All (λ e. (is_remove e.1.kind && is_some (lookup e.0 m)) ≡ false) q
      → check_removals q m ≡ ok tt
  unfolding check_removals
  check_removals-All [] m a = refl
  check_removals-All ((j, y) ∷ q) m a = rw (a.0) (check_removals-All q m a.1)

module _ (p : Protocol) where
  open p use {Manifest}

  no_clash :
      (id : String) (q : MutationRequest Manifest) (o : Option (ConnectorRecord Manifest))
      → Describes p id q o
      → (is_remove q.kind && is_some o) ≡ false
  unfolding inventory_upsert_mutation is_remove
  no_clash id q none d = ground arith
  no_clash id q (some r) d = rw (ap (λ (x : MutationRequest Manifest). x.kind) d) refl

  pub consistent_removals :
      (st : State Manifest) → IsConsistent p st → check_removals st.pending st.connectors ≡ ok tt
  consistent_removals st k = check_removals-All st.pending st.connectors (
      All-of_lookup (λ id q. (is_remove q.kind && is_some (lookup id st.connectors)) ≡ false)
        st.pending k.distinct_pending
        (λ id q e. no_clash id q (lookup id st.connectors) (k.queue id q e).describes))

  -- Whatever host.json holds after a failed activation: from a consistent state, writing the current
  -- state with no fault of the file system succeeds, and the file then holds what memory holds.
  pub rewrite_heals :
      (s : Store Manifest)
      → IsConsistent p s.state
      → rewrite_current_state p s written ≡ (record s { disk = some s.state }, ok tt)
  unfolding rewrite_current_state check_candidate
  rewrite_heals s k = rw (consistent_removals s.state k, k.singleton)

  -- An acknowledgement of a mutation that is not queued, or not under that revision, changes nothing,
  -- whatever the file system does; the answer says that nothing was applied.
  pub acknowledge_stale :
      (request : MutationRequest Manifest) (response : MutationResponse) (s : Store Manifest)
      (w : WriteOutcome)
      → p.valid_response response ≡ true
      → response.installation_id ≡ request.installation_id
      → response.acknowledged_revision ≡ request.revision
      → (is_remove request.kind ≡ true → length response.storage_origins ≡ 0)
      → ((q : MutationRequest Manifest)
          → lookup request.installation_id s.state.pending ≡ some q
          → q.revision ≢ request.revision)
      → acknowledge_inventory_mutation p request response s w ≡ (s, ok not_applied)
  unfolding acknowledge_inventory_mutation
  acknowledge_stale request response s w v a b c h =
      elim (Option-cases (lookup request.installation_id s.state.pending)) [
        | inl e ↦ ground (arith, eq_iff response.installation_id request.installation_id)
        | inr (q, e) ↦
            ground (arith, h q e, eq_iff response.installation_id request.installation_id)
      ]

module _ (p : Protocol) (c : IsCodec p) (l : IsProtocol p) where
  open p use {Manifest}

  module _ (q : MutationRequest Manifest) (response : MutationResponse) (s : Store Manifest)
      (k : IsConsistent p s.state) (e : lookup q.installation_id s.state.pending ≡ some q)
      (v : p.valid_response response ≡ true) (a : response.installation_id ≡ q.installation_id)
      (b : response.acknowledged_revision ≡ q.revision)
      (o : is_remove q.kind ≡ true → length response.storage_origins ≡ 0) where
    plan_pending :
        acknowledge_plan p q response s.state ≡ acknowledge_pending p s.state q response (some q)
    unfolding acknowledge_plan
    plan_pending = ground (arith, eq_iff response.installation_id q.installation_id)

    mutation_equal : inventory_mutations_equal p q q ≡ true
    mutation_equal = inventory_mutations_equal_refl p l q (k.queue q.installation_id q e).valid

    plan_removal :
        is_upsert q.kind ≡ false
        → acknowledge_plan p q response s.state
          ≡ ok (
              some (
                record s.state { pending = delete q.installation_id s.state.pending },
                applied none,
              ))
    plan_removal u = plan_pending ∙ unfold acknowledge_pending in ground (arith, mutation_equal)

    acknowledged_state : ConnectorRecord Manifest → State Manifest
    acknowledged_state r = record s.state {
      connectors =
          insert q.installation_id
            (record (clone_record p r) {
              inventory_acknowledged = true;
              storage_origins = response.storage_origins;
            })
            s.state.connectors;
      pending = delete q.installation_id s.state.pending;
    }

    plan_upsert :
        (r : ConnectorRecord Manifest)
        → is_upsert q.kind ≡ true
        → lookup q.installation_id s.state.connectors ≡ some r
        → acknowledge_plan p q response s.state
          ≡ ok (
              some (
                acknowledged_state r,
                applied (
                    some (
                      clone_record p (record (clone_record p r) {
                        inventory_acknowledged = true;
                        storage_origins = response.storage_origins;
                      }))),
              ))
    plan_upsert r u f =
        plan_pending
        ∙ unfold acknowledge_pending acknowledged_state in ground (arith, mutation_equal)

    lands :
        (next : State Manifest) (x : Acknowledged Manifest)
        → acknowledge_plan p q response s.state ≡ ok (some (next, x))
        → check_candidate p s next ≡ ok tt
        → acknowledge_inventory_mutation p q response s written
          ≡ (record { state = next; disk = some next }, ok x)
    unfolding acknowledge_inventory_mutation acknowledge_commit
    lands next x f g =
        ap (λ m. acknowledge_commit p s m written) f
        ∙ ap (λ m. take_over (save_checked m s next written) next x) g

    checked_upsert :
        (r : ConnectorRecord Manifest)
        → lookup q.installation_id s.state.connectors ≡ some r
        → check_candidate p s (acknowledged_state r) ≡ ok tt
    unfolding check_candidate acknowledged_state validate_singleton_contracts clone_record
    checked_upsert r f =
        rw (check_removals-insert s.state.pending s.state.connectors q.installation_id _ r f) (
          rw (consistent_removals p s.state k) (
            singleton_from-insert (contract p) [] s.state.connectors q.installation_id _ r f
              (c.contract_id-reread r.manifest)
            ∙ k.singleton))

    checked_removal :
        check_candidate p s (record s.state { pending = delete q.installation_id s.state.pending })
        ≡ ok tt
    unfolding check_candidate
    checked_removal = rw (consistent_removals p s.state k) k.singleton

    record_of :
        (o : Option (ConnectorRecord Manifest))
        → is_upsert q.kind ≡ true
        → Describes p q.installation_id q o
        → (r : ConnectorRecord Manifest) × (o ≡ some r)
    unfolding is_upsert
    record_of none u d =
        let b : true ≡ false = sym u ∙ ap (λ (x : MutationRequest Manifest). is_upsert x.kind) d in
        cc
    record_of (some r) u d = (r, refl)

    -- An acknowledgement that fits a queued upsert is taken over. Take a consistent state, a queued
    -- upsert, a valid response to its installation and revision, and a write that succeeds. Then the
    -- operation succeeds with a record, memory and host.json hold the same state, the mutation is off
    -- the queue, and the record in the state is acknowledged and has the origins of the response.
    pub acknowledge_upsert_taken :
        is_upsert q.kind ≡ true
        → let done = acknowledge_inventory_mutation p q response s written in
          (answer : ConnectorRecord Manifest) × (r : ConnectorRecord Manifest) × (done.1
            ≡ ok (applied (some answer)))
          × (done.0.disk ≡ some done.0.state)
          × (lookup q.installation_id done.0.state.pending ≡ none)
          × (lookup q.installation_id done.0.state.connectors ≡ some r)
          × (r.inventory_acknowledged ≡ true)
          × (r.storage_origins ≡ response.storage_origins)
    unfolding acknowledged_state
    acknowledge_upsert_taken u =
        let (r, f) =
          record_of (lookup q.installation_id s.state.connectors) u
            (k.queue q.installation_id q e).describes in
        rw (lands _ _ (plan_upsert r u f) (checked_upsert r f)) (
          _,
          _,
          refl,
          refl,
          lookup-delete_self q.installation_id s.state.pending,
          lookup-insert_self q.installation_id _ s.state.connectors,
          refl,
          refl,
        )

    -- An acknowledgement that fits a queued removal is taken over. Take a consistent state, a queued
    -- mutation that is no upsert, a valid response to its installation and revision, without storage
    -- origins if the mutation is a removal, and a write that succeeds. Then the operation succeeds
    -- with no record, memory and host.json hold the same state, the mutation is off the queue, and the
    -- connectors are as they were.
    pub acknowledge_removal_taken :
        is_upsert q.kind ≡ false
        → let done = acknowledge_inventory_mutation p q response s written in
          (done.1 ≡ ok (applied none))
          × (done.0.disk ≡ some done.0.state)
          × (lookup q.installation_id done.0.state.pending ≡ none)
          × (done.0.state.connectors ≡ s.state.connectors)
    acknowledge_removal_taken u =
        rw (lands _ _ (plan_removal u) checked_removal)
          (refl, refl, lookup-delete_self q.installation_id s.state.pending, refl)
