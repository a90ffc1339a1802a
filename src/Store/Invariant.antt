-- ===== src/Store/Invariant.antt =====
-- What every state of the Store keeps: the records and the queued mutations agree with each other and
-- with the validators, which is what `load` asks of host.json.
use connectorhost.Common.{
  ℕ, ◌≤◌, ◌≡◌, sym, ◌∙◌, ◌≢◌, subst, inl, inr, String, true, false, Option, none, some, arith,
  eq_iff, ◌==◌, string_eq, length, Bool-cases, ok,
}
use connectorhost.Dict.{Dict, Distinct, lookup}
use connectorhost.Policy.{parse_access_mode}
use connectorhost.Protocol.{Protocol, MutationRequest}
use connectorhost.Record.{ConnectorRecord, inventory_upsert_mutation, max_uint64}
use connectorhost.Record.Storable.{IsStorable}
use connectorhost.Contracts.{validate_singleton_contracts}
use connectorhost.Store.{State}
use connectorhost.Store.Plans.{removal}

-- stateVersion
abbrev pub state_version : ℕ
state_version = 3

module _ (p : Protocol) where
  open p use {Manifest}

  pub record RecordOk (id : String) (r : ConnectorRecord Manifest) : Type 0 where
    pub keyed : r.installation_id ≡ id
    pub storable : IsStorable p r

  -- A queued mutation is the removal of a connector that is gone, or the description of the one that
  -- is there.
  abbrev pub Describes :
      String → MutationRequest Manifest → Option (ConnectorRecord Manifest) → Type 0
  Describes id m none = m ≡ removal p id m.revision
  Describes id m (some r) = m ≡ record (inventory_upsert_mutation p r m.revision) {
    management_attempt = m.management_attempt;
  }

  pub record Queued (revision : ℕ) (connectors : Dict (ConnectorRecord Manifest)) (id : String)
      (m : MutationRequest Manifest) : Type 0 where
    pub describes : Describes id m (lookup id connectors)
    pub numbered : m.revision ≤ revision
    pub valid : p.valid_mutation m ≡ true

  pub record IsConsistent (st : State Manifest) : Type 0 where
    pub distinct_connectors : Distinct st.connectors
    pub distinct_pending : Distinct st.pending
    pub records :
        (id : String) (r : ConnectorRecord Manifest)
        → lookup id st.connectors ≡ some r
        → RecordOk id r
    pub queue :
        (id : String) (m : MutationRequest Manifest)
        → lookup id st.pending ≡ some m
        → Queued st.mutation_revision st.connectors id m
    pub bounded : length st.pending ≤ p.max_hosted_connectors
    pub fits : st.mutation_revision ≤ max_uint64
    pub mode : parse_access_mode st.access_mode ≡ ok st.access_mode
    pub current : st.version ≡ state_version
    pub singleton : validate_singleton_contracts p st.connectors ≡ ok tt

  -- What a step from `st` to `next` that touches one installation has to show.
  pub record Touches (id : String) (st next : State Manifest) : Type 0 where
    pub others :
        (j : String)
        → id ≢ j
        → (lookup j next.connectors ≡ lookup j st.connectors)
          × (lookup j next.pending ≡ lookup j st.pending)
    pub its_record :
        (r : ConnectorRecord Manifest) → lookup id next.connectors ≡ some r → RecordOk id r
    pub its_mutation :
        (m : MutationRequest Manifest)
        → lookup id next.pending ≡ some m
        → Queued next.mutation_revision next.connectors id m
    pub distinct_connectors : Distinct next.connectors
    pub distinct_pending : Distinct next.pending
    pub bounded : length next.pending ≤ p.max_hosted_connectors
    pub grows : st.mutation_revision ≤ next.mutation_revision
    pub fits : next.mutation_revision ≤ max_uint64
    pub mode : next.access_mode ≡ st.access_mode
    pub version : next.version ≡ st.version

  Queued-other :
      (id : String) (m : MutationRequest Manifest) (st next : State Manifest)
      → lookup id next.connectors ≡ lookup id st.connectors
      → st.mutation_revision ≤ next.mutation_revision
      → Queued st.mutation_revision st.connectors id m
      → Queued next.mutation_revision next.connectors id m
  Queued-other id m st next e g q = record {
    describes = rw e q.describes;
    numbered = omega (arith, q.numbered);
    valid = q.valid;
  }

  pub Touches-IsConsistent :
      (id : String) (st next : State Manifest)
      → IsConsistent st
      → Touches id st next
      → validate_singleton_contracts p next.connectors ≡ ok tt
      → IsConsistent next
  Touches-IsConsistent id st next c t s = record {
    distinct_connectors = t.distinct_connectors;
    distinct_pending = t.distinct_pending;
    records = λ j r e. elim (Bool-cases (id == j)) [
      | inl q ↦
          let q' : id ≡ j = (eq_iff id j).0 q in
          subst (λ k. RecordOk k r) q' (t.its_record r (rw q' e))
      | inr q ↦ c.records j r (sym (t.others j (apart j q)).0 ∙ e)
    ];
    queue = λ j m e. elim (Bool-cases (id == j)) [
      | inl q ↦
          let q' : id ≡ j = (eq_iff id j).0 q in
          subst (λ k. Queued next.mutation_revision next.connectors k m) q'
            (t.its_mutation m (rw q' e))
      | inr q ↦
          Queued-other j m st next (t.others j (apart j q)).0 t.grows
            (c.queue j m (sym (t.others j (apart j q)).1 ∙ e))
    ];
    bounded = t.bounded;
    fits = t.fits;
    mode = rw t.mode c.mode;
    current = t.version ∙ c.current;
    singleton = s;
  }
    where
      apart : (j : String) → id == j ≡ false → id ≢ j
      apart j q e = ground (arith, eq_iff id j)
