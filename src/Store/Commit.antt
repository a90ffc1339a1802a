-- ===== src/Store/Commit.antt =====
-- The common tail of the Store's operations: what it can leave in memory and in host.json.
use connectorhost.Common.{◌≡◌, refl, inl, inr, some, arith, Error, Result, ok, err, Result-cases}
use connectorhost.Protocol.{Protocol}
use connectorhost.Contracts.{validate_singleton_contracts}
use connectorhost.Store.{
  State, Store, WriteOutcome, written, failed, atomic_write, replaced_with_error, check_candidate,
  save_checked, take_over, save_state_locked, commit,
}

module _ (p : Protocol) where
  open p use {Manifest}

  -- The store after a candidate was offered: as it was; with the candidate in the file alone, after an
  -- error; or with the candidate in both. The file is written only past the check of the contracts.
  pub data Committed (s : Store Manifest) (next : State Manifest) : Store Manifest → Type 0 where
    kept : Committed s next s
    only_file :
        validate_singleton_contracts p next.connectors ≡ ok tt
        → Committed s next (record s { disk = some next })
    taken :
        validate_singleton_contracts p next.connectors ≡ ok tt
        → Committed s next (record { state = next; disk = some next })

  written-Committed :
      (s : Store Manifest) (next : State Manifest) (w : WriteOutcome)
      → validate_singleton_contracts p next.connectors ≡ ok tt
      → Committed s next (atomic_write s next w).0
  unfolding atomic_write
  written-Committed s next written v = only_file v
  written-Committed s next failed v = kept
  written-Committed s next replaced_with_error v = only_file v

  checked-contracts :
      (s : Store Manifest) (next : State Manifest) (x : Unit {0})
      → check_candidate p s next ≡ ok x
      → validate_singleton_contracts p next.connectors ≡ ok tt
  unfolding check_candidate
  checked-contracts s next x e = ground arith

  pub save-Committed :
      (s : Store Manifest) (next : State Manifest) (w : WriteOutcome)
      → Committed s next (save_state_locked p s next w).0
  unfolding save_state_locked
  save-Committed s next w = elim (Result-cases (check_candidate p s next)) [
    | inr (x, e) ↦ rw (e, save_checked) kept
    | inl (x, e) ↦ rw (e, save_checked) (written-Committed s next w (checked-contracts s next x e))
  ]

  taken-Committed {ℓ} :
      {A : Type ℓ} (s : Store Manifest) (next : State Manifest) (a : A) (w : WriteOutcome)
      → validate_singleton_contracts p next.connectors ≡ ok tt
      → Committed s next (take_over (atomic_write s next w) next a).0
  unfolding take_over atomic_write
  taken-Committed s next a written v = taken v
  taken-Committed s next a failed v = kept
  taken-Committed s next a replaced_with_error v = only_file v

  checked-Committed {ℓ} :
      {A : Type ℓ} (s : Store Manifest) (next : State Manifest) (a : A) (w : WriteOutcome)
      (c : Result (Unit {0}))
      → check_candidate p s next ≡ c
      → Committed s next (take_over (save_checked c s next w) next a).0
  unfolding take_over save_checked
  checked-Committed s next a w (err x) e = kept
  checked-Committed s next a w (ok x) e = taken-Committed s next a w (checked-contracts s next x e)

  pub commit-Committed {ℓ} :
      {A : Type ℓ} (s : Store Manifest) (next : State Manifest) (a : A) (w : WriteOutcome)
      → Committed s next (commit p s (ok (next, a)) w).0
  unfolding commit
  commit-Committed s next a w = checked-Committed s next a w (check_candidate p s next) refl

  -- An operation that reports success has its candidate both in memory and in the file.
  pub commit_durable {ℓ} :
      {A : Type ℓ} (s : Store Manifest) (plan : Result (State Manifest × A)) (w : WriteOutcome)
      (a : A)
      → (commit p s plan w).1 ≡ ok a
      → (next : State Manifest) × (plan ≡ ok (next, a))
        × ((commit p s plan w).0 ≡ record { state = next; disk = some next })
  unfolding commit
  commit_durable s (err x) w a e = absurd (cc)
  commit_durable s (ok (next, b)) w a e = (next, ground arith, ground arith)

  -- An operation that reports an error leaves memory as it was.
  pub commit-err {ℓ} :
      {A : Type ℓ} (s : Store Manifest) (plan : Result (State Manifest × A)) (w : WriteOutcome)
      (e : Error)
      → (commit p s plan w).1 ≡ err e
      → (commit p s plan w).0.state ≡ s.state
  unfolding commit
  commit-err s (err x) w e h = refl
  commit-err s (ok (next, b)) w e h = ground arith
