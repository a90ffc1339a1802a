-- ===== src/Contracts/Tests.antt =====
-- Tests of the check of the contracts, and its theorems at concrete inputs.
use connectorhost.Common.{
  String, ◌≡◌, ◌≢◌, refl, some, [], ◌∷◌, duplicate_contract, arith, eq_iff, string_eq,
}
use connectorhost.Dict.{Dict, lookup, insert}
use connectorhost.Record.{ConnectorRecord}
use connectorhost.Contracts.{contract, validate_singleton_contracts}
use connectorhost.Contracts.Unique.{
  validate_singleton_contracts_unique, validate_singleton_contracts-err,
}
use connectorhost.Samples.{demo, SampleManifest, mail}

abbrev one : Dict (ConnectorRecord SampleManifest)
one = ("mail-1", mail) ∷ []

abbrev two : Dict (ConnectorRecord SampleManifest)
two = ("mail-1", mail) ∷ ("mail-2", record mail { installation_id = "mail-2" }) ∷ []

validate_singleton_contracts_unique_example : ◌≡◌ {A = String} "mail-1" "mail-1"
unfolding validate_singleton_contracts lookup
validate_singleton_contracts_unique_example =
    validate_singleton_contracts_unique demo one "mail-1" "mail-1" mail mail refl refl refl refl
      (λ e. absurd (ground (arith, eq_iff "mail" "")))

validate_singleton_contracts-err_example :
    (c : String) × (i : String) × (j : String) × (r : ConnectorRecord SampleManifest)
    × (s : ConnectorRecord SampleManifest) × (duplicate_contract "mail" "mail-1" "mail-2"
        ≡ duplicate_contract c i j)
    × (c ≢ "")
    × (i ≢ j)
    × (lookup i two ≡ some r)
    × (lookup j two ≡ some s)
    × (contract demo r ≡ c)
    × (contract demo s ≡ c)
unfolding validate_singleton_contracts lookup insert
validate_singleton_contracts-err_example =
    validate_singleton_contracts-err demo two (duplicate_contract "mail" "mail-1" "mail-2")
      (refl, (refl, tt)) refl
