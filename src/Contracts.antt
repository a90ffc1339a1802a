-- ===== src/Contracts.antt =====
-- validateSingletonContracts of state.go: no two installations share a contract.
pub mod Unique
mod Tests
use connectorhost.Common.{
  ℕ, String, List, [], ◌∷◌, Option, none, some, ◌==◌, string_eq, if◌then◌else◌, Result, ok, err,
  duplicate_contract,
}
use connectorhost.Dict.{Dict, lookup, insert}
use connectorhost.Protocol.{Protocol}
use connectorhost.Record.{ConnectorRecord}

-- The loop over the records: `seen` is the map `contracts`, from a contract to its installation.
module _ {A : Type 0} (contract : A → String) where
  unfoldable pub singleton_from : Dict String → Dict A → Result (Unit {0})
  unfolding lookup insert
  singleton_from seen [] = ok tt
  singleton_from seen ((id, r) ∷ rest) =
      let skip = singleton_from seen rest in
      let next = singleton_from (insert (contract r) id seen) rest in
      if contract r == "" then skip else elim (lookup (contract r) seen) [
        | some existing ↦ err (duplicate_contract (contract r) existing id)
        | none ↦ next
      ]

module _ (p : Protocol) where
  abbrev pub contract : ConnectorRecord p.Manifest → String
  contract r = p.contract_id r.manifest

  unfoldable pub validate_singleton_contracts :
      Dict (ConnectorRecord p.Manifest) → Result (Unit {0})
  unfolding singleton_from
  validate_singleton_contracts records = singleton_from contract [] records
