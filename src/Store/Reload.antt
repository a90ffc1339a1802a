-- ===== src/Store/Reload.antt =====
-- What the Store writes, `load` accepts: the host starts again from any file that it has left behind.
use connectorhost.Common.{
  ◌≡◌, refl, sym, ◌∙◌, subst, String, false, Option, none, some, List, [], ◌∷◌, arith, string_eq,
  All, ok, Option-cases, inl, inr,
}
use connectorhost.Dict.{
  Dict, lookup, map_values, lookup-map_values, All-of_lookup, map_values-Distinct,
}
use connectorhost.Policy.{parse_access_mode}
use connectorhost.Protocol.{Protocol, IsCodec, IsProtocol, MutationRequest}
use connectorhost.Record.{ConnectorRecord, written_record, clone_inventory_mutation}
use connectorhost.Contracts.{validate_singleton_contracts}
use connectorhost.Store.{State, Store, WriteOutcome}
use connectorhost.Store.Invariant.{IsConsistent, RecordOk, Queued, Describes}
use connectorhost.Store.Load.{
  decoded, initial, load, check_state, load_state, read_back, reread_state, written_pending,
  or_empty,
}
use connectorhost.Record.Storable.{written-IsStorable}
use connectorhost.Store.Operations.{Operation, run, AllGiven, IsSound}
use connectorhost.Store.Sound.{run-IsSound}
use connectorhost.Store.Reread.{
  written_option, described-written, lookup-written, check_connectors-written, contracts-written,
  check_pending-written, queued_name, clone-All,
}

module _ (p : Protocol) (c : IsCodec p) (l : IsProtocol p) where
  open p use {Manifest}

  queue_entries :
      (st : State Manifest)
      → IsConsistent p st
      → All
          (λ e. Queued p st.mutation_revision st.connectors e.0 e.1 × (e.1.installation_id ≡ e.0))
          st.pending
  queue_entries st k =
      All-of_lookup
        (λ id q. Queued p st.mutation_revision st.connectors id q × (q.installation_id ≡ id))
        st.pending k.distinct_pending (λ id q e. (k.queue id q e, queued_name p c st id q k e))

  pending-read_back :
      (st : State Manifest) (pending : Dict (MutationRequest Manifest))
      → map_values (clone_inventory_mutation p) pending ≡ pending
      → or_empty (written_pending p pending) ≡ pending
  pending-read_back st [] e = refl
  pending-read_back st (x ∷ pending) e = e

  check_state-read_back :
      (st : State Manifest)
      → IsConsistent p st
      → check_state p (read_back p st) ≡ ok (reread_state p st)
  unfolding check_state read_back reread_state
  check_state-read_back st k = ground (
    arith,
    k.current,
    k.mode,
    k.bounded,
    pending-read_back st st.pending (clone-All p c _ _ st.pending (queue_entries st k)),
    check_connectors-written p st.connectors
        (All-of_lookup (RecordOk p) st.connectors k.distinct_connectors k.records),
    rw (clone-All p c _ _ st.pending (queue_entries st k)) at (
        check_pending-written p c l st.mutation_revision st.connectors st.pending
          (queue_entries st k)),
    contracts-written p c st.connectors,
    k.singleton,
  )

  load_state-read_back :
      (st : State Manifest)
      → IsConsistent p st
      → load_state p (read_back p st) ≡ ok (reread_state p st, false)
  unfolding load_state read_back
  load_state-read_back st k = ground (arith, k.current, check_state-read_back st k)

  reread_record :
      (st : State Manifest) (id : String) (x : ConnectorRecord Manifest)
      → IsConsistent p st
      → lookup id (map_values (written_record p) st.connectors) ≡ some x
      → RecordOk p id x
  reread_record st id x k e = elim (Option-cases (lookup id st.connectors)) [
    | inl f ↦ absurd (ground (arith, lookup-map_values (written_record p) id st.connectors))
    | inr (r, f) ↦
        let same : written_record p r ≡ x =
          ground (arith, lookup-map_values (written_record p) id st.connectors) in
        subst (RecordOk p id) same (record {
          keyed = unfold written_record in (k.records id r f).keyed;
          storable = written-IsStorable p c r (k.records id r f).storable;
        })
  ]

  Describes-written :
      (id : String) (q : MutationRequest Manifest) (o : Option (ConnectorRecord Manifest))
      → Describes p id q o
      → Describes p id q (written_option p o)
  Describes-written id q none d = d
  Describes-written id q (some r) d = sym (described-written p c id q r d)

  -- The state after a restart is consistent again.
  reread-IsConsistent :
      (st : State Manifest) → IsConsistent p st → IsConsistent p (reread_state p st)
  unfolding reread_state
  reread-IsConsistent st k = record {
    distinct_connectors =
        map_values-Distinct (written_record p) st.connectors k.distinct_connectors;
    distinct_pending = k.distinct_pending;
    records = λ id x e. reread_record st id x k e;
    queue = λ id q e. record {
      describes =
          rw (lookup-written p c id st.connectors)
            (Describes-written id q (lookup id st.connectors) (k.queue id q e).describes);
      numbered = (k.queue id q e).numbered;
      valid = (k.queue id q e).valid;
    };
    bounded = k.bounded;
    fits = k.fits;
    mode = k.mode;
    current = k.current;
    singleton = contracts-written p c st.connectors ∙ k.singleton;
  }

  load_consistent :
      (s : Store Manifest) (st : State Manifest) (w : WriteOutcome)
      → IsConsistent p st
      → load p s (decoded (read_back p st)) w ≡ (record s { state = reread_state p st }, ok tt)
  unfolding load
  load_consistent s st w k = ground (arith, load_state-read_back st k)

  -- Take a store that is consistent in memory and in its file, and any sequence of the host's
  -- operations, each with any outcome of its write, whose given records are storable. Then `load`
  -- accepts the file that is left, without a migration: it ends without an error, and the state that
  -- it takes over is the one last written, laid out as the file has it, and is consistent again.
  pub reload_after_run :
      (s fresh : Store Manifest) (ops : List (Operation Manifest × WriteOutcome)) (w : WriteOutcome)
      (st : State Manifest)
      → IsSound p s
      → AllGiven p ops
      → (run p ops s).disk ≡ some st
      → (load p fresh (decoded (read_back p st)) w
          ≡ (record fresh { state = reread_state p st }, ok tt))
        × IsConsistent p (reread_state p st)
  reload_after_run s fresh ops w st k g e =
      let kept = (run-IsSound p c l ops s k g).file st e in
      (load_consistent fresh st w kept, reread-IsConsistent st kept)

  -- A host that starts with no file begins with a state that is consistent.
  pub initial-IsConsistent : IsConsistent p initial
  unfolding lookup validate_singleton_contracts parse_access_mode
  initial-IsConsistent = record {
    distinct_connectors = tt;
    distinct_pending = tt;
    records = λ id r e. cc;
    queue = λ id q e. cc;
    bounded = omega arith;
    fits = omega arith;
    mode = refl;
    current = refl;
    singleton = refl;
  }
