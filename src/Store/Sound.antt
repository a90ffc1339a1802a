-- ===== src/Store/Sound.antt =====
-- No sequence of the host's operations on the Store leaves memory or host.json inconsistent.
use connectorhost.Common.{
  ◌≡◌, refl, sym, subst, String, none, some, List, [], ◌∷◌, arith, Result, ok, err,
}
use connectorhost.Policy.{AccessMode, parse_access_mode}
use connectorhost.Protocol.{Protocol, IsCodec, IsProtocol}
use connectorhost.Contracts.{validate_singleton_contracts}
use connectorhost.Store.{
  State, Store, WriteOutcome, commit, rewrite_current_state, set_access_mode, set_credentials,
  set_enrollment,
}
use connectorhost.Store.Acknowledge.{
  AckPlan, Acknowledged, acknowledge_plan, acknowledge_commit, acknowledge_inventory_mutation,
}
use connectorhost.Store.Operations.{
  Operation, sets_access_mode, sets_credentials, enrolls, puts_remote, puts_local, puts_transition,
  removes_remote, removes_local, acknowledges, rewrites, step, run, GivenStorable, AllGiven,
  IsSound,
}
use connectorhost.Store.Invariant.{IsConsistent}
use connectorhost.Store.Commit.{Committed, kept, only_file, taken, save-Committed, commit-Committed}
use connectorhost.Store.Preserve.{put_remote-IsConsistent, put_inventory-IsConsistent}
use connectorhost.Store.PreserveRemovals.{
  remove_remote-IsConsistent, remove_local-IsConsistent, acknowledge-IsConsistent,
}

module _ (p : Protocol) where
  open p use {Manifest}

  some-eq : {a b : State Manifest} → some a ≡ some b → a ≡ b
  some-eq e = cc

  Committed-IsSound :
      (s s' : Store Manifest) (next : State Manifest)
      → IsSound p s
      → (validate_singleton_contracts p next.connectors ≡ ok tt → IsConsistent p next)
      → Committed p s next s'
      → IsSound p s'
  Committed-IsSound s _ next k h kept = k
  Committed-IsSound s _ next k h (only_file v) = record {
    memory = k.memory;
    file = λ st e. subst (IsConsistent p) (some-eq e) (h v);
  }
  Committed-IsSound s _ next k h (taken v) = record {
    memory = h v;
    file = λ st e. subst (IsConsistent p) (some-eq e) (h v);
  }

  commit-IsSound {ℓ} :
      {A : Type ℓ} (s : Store Manifest) (plan : Result (State Manifest × A)) (w : WriteOutcome)
      → IsSound p s
      → ((next : State Manifest) (a : A)
          → plan ≡ ok (next, a)
          → validate_singleton_contracts p next.connectors ≡ ok tt
          → IsConsistent p next)
      → IsSound p (commit p s plan w).0
  commit-IsSound s (err e) w k h = unfold commit in k
  commit-IsSound s (ok (next, a)) w k h =
      Committed-IsSound s _ next k (h next a refl) (commit-Committed p s next a w)

  acknowledge-IsSound :
      (s : Store Manifest) (plan : AckPlan p) (w : WriteOutcome)
      → IsSound p s
      → ((next : State Manifest) (a : Acknowledged Manifest)
          → plan ≡ ok (some (next, a))
          → validate_singleton_contracts p next.connectors ≡ ok tt
          → IsConsistent p next)
      → IsSound p (acknowledge_commit p s plan w).0
  unfolding acknowledge_commit
  acknowledge-IsSound s (err e) w k h = k
  acknowledge-IsSound s (ok none) w k h = k
  acknowledge-IsSound s (ok (some (next, a))) w k h =
      Committed-IsSound s _ next k (h next a refl) (commit-Committed p s next a w)

  -- The settings besides the connectors do not bear on consistency, if the mode is one of the four.
  with_settings :
      (u d h : String) (m : AccessMode) (st : State Manifest)
      → IsConsistent p st
      → parse_access_mode m ≡ ok m
      → IsConsistent p (record st { airlock_url = u; credential = d; host_id = h; access_mode = m })
  with_settings u d h m st k e = record {
    distinct_connectors = k.distinct_connectors;
    distinct_pending = k.distinct_pending;
    records = k.records;
    queue = k.queue;
    bounded = k.bounded;
    fits = k.fits;
    mode = e;
    current = k.current;
    singleton = k.singleton;
  }

  parsed-eq :
      (m : AccessMode) (n : AccessMode) → parse_access_mode m ≡ ok n → parse_access_mode m ≡ ok m
  unfolding parse_access_mode
  parsed-eq m n e = ground arith

  mode_lem :
      (m : AccessMode) (st next : State Manifest) (a : Unit {0})
      → set_access_mode p m st ≡ ok (next, a)
      → (parse_access_mode m ≡ ok m) × (next ≡ record st { access_mode = m })
  unfolding set_access_mode parse_access_mode
  mode_lem m st next a e = ground arith

  enrollment_lem :
      (u d h : String) (m : AccessMode) (st next : State Manifest) (a : Unit {0})
      → set_enrollment p u d h m st ≡ ok (next, a)
      → (parse_access_mode m ≡ ok m)
        × (next ≡ record st { airlock_url = u; credential = d; host_id = h; access_mode = m })
  unfolding set_enrollment parse_access_mode
  enrollment_lem u d h m st next a e = ground arith

  credentials_plan :
      (u d h : String) (st next : State Manifest) (a : Unit {0})
      → IsConsistent p st
      → set_credentials p u d h st ≡ ok (next, a)
      → IsConsistent p next
  unfolding set_credentials
  credentials_plan u d h st next a k e =
      subst (IsConsistent p) (ground arith) (with_settings u d h st.access_mode st k k.mode)

  enrollment_plan :
      (u d h : String) (m : AccessMode) (st next : State Manifest) (a : Unit {0})
      → IsConsistent p st
      → set_enrollment p u d h m st ≡ ok (next, a)
      → IsConsistent p next
  enrollment_plan u d h m st next a k e =
      let (valid, leads) = enrollment_lem u d h m st next a e in
      subst (IsConsistent p) (sym leads) (with_settings u d h m st k valid)

  mode_plan :
      (m : AccessMode) (st next : State Manifest) (a : Unit {0})
      → IsConsistent p st
      → set_access_mode p m st ≡ ok (next, a)
      → IsConsistent p next
  mode_plan m st next a k e =
      let (valid, leads) = mode_lem m st next a e in
      subst (IsConsistent p) (sym leads)
        (with_settings st.airlock_url st.credential st.host_id m st k valid)

module _ (p : Protocol) (c : IsCodec p) (l : IsProtocol p) where
  open p use {Manifest}

  -- Whatever the file system does, an operation that is given storable records leaves memory and
  -- host.json consistent.
  pub step-IsSound :
      (o : Operation Manifest) (w : WriteOutcome) (s : Store Manifest)
      → IsSound p s
      → GivenStorable p o
      → IsSound p (step p o w s)
  unfolding step
  step-IsSound (sets_access_mode m) w s k g =
      commit-IsSound p s _ w k (λ next a e v. mode_plan p m s.state next a k.memory e)
  step-IsSound (sets_credentials u d h) w s k g =
      commit-IsSound p s _ w k (λ next a e v. credentials_plan p u d h s.state next a k.memory e)
  step-IsSound (enrolls u d h m) w s k g =
      commit-IsSound p s _ w k (λ next a e v. enrollment_plan p u d h m s.state next a k.memory e)
  step-IsSound (puts_remote r) w s k g =
      commit-IsSound p s _ w k
        (λ next a e v. put_remote-IsConsistent p c r s.state next k.memory g e v)
  step-IsSound (puts_local r) w s k g =
      commit-IsSound p s _ w k
        (λ next a e v. put_inventory-IsConsistent p c r none s.state next k.memory g e v)
  step-IsSound (puts_transition r t) w s k g =
      commit-IsSound p s _ w k
        (λ next a e v. put_inventory-IsConsistent p c r (some t) s.state next k.memory g e v)
  step-IsSound (removes_remote id) w s k g =
      commit-IsSound p s _ w k
        (λ next a e v. remove_remote-IsConsistent p id s.state next k.memory e v)
  step-IsSound (removes_local id) w s k g =
      commit-IsSound p s _ w k
        (λ next a e v. remove_local-IsConsistent p id s.state next k.memory e v)
  step-IsSound (acknowledges q r) w s k g =
      unfold acknowledge_inventory_mutation in
      acknowledge-IsSound p s (acknowledge_plan p q r s.state) w k
        (λ next a e v. acknowledge-IsConsistent p c l q r s.state next a k.memory e v)
  step-IsSound rewrites w s k g =
      unfold rewrite_current_state in
      Committed-IsSound p s _ s.state k (λ v. k.memory) (save-Committed p s s.state w)

  pub run-IsSound :
      (ops : List (Operation Manifest × WriteOutcome)) (s : Store Manifest)
      → IsSound p s
      → AllGiven p ops
      → IsSound p (run p ops s)
  unfolding run
  run-IsSound [] s k g = k
  run-IsSound ((o, w) ∷ rest) s k g = run-IsSound rest (step p o w s) (step-IsSound o w s k g.0) g.1
