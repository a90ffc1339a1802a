-- ===== src/Contracts/Unique.antt =====
-- What the check of the contracts finds: it passes when no two installations share one, and when it
-- fails, the two installations that its error names do.
use connectorhost.Common.{
  ◌≡◌, refl, ◌≢◌, ◌⊎◌, inl, inr, String, [], ◌∷◌, none, some, arith, eq_iff, ◌==◌, string_eq,
  Bool-cases, Option-cases, ok, err, Error, duplicate_contract,
}
use connectorhost.Dict.{
  Dict, Distinct, lookup, insert, lookup_cons, lookup-insert, lookup-insert_self,
}
use connectorhost.Protocol.{Protocol}
use connectorhost.Record.{ConnectorRecord}
use connectorhost.Contracts.{contract, singleton_from, validate_singleton_contracts}

module _ {A : Type 0} (contract : A → String) where
  -- A contract that the loop still meets was not seen before.
  singleton_from_fresh :
      (seen : Dict String) (m : Dict A) (k : String) (r : A)
      → singleton_from contract seen m ≡ ok tt
      → lookup k m ≡ some r
      → contract r ≢ ""
      → lookup (contract r) seen ≡ none
  unfolding singleton_from
  singleton_from_fresh seen [] k r h e n = unfold lookup in cc
  singleton_from_fresh seen ((id, x) ∷ m) k r h e n = ground (
    arith,
    lookup_cons id k x m,
    eq_iff id k,
    eq_iff (contract x) "",
    singleton_from_fresh seen m k r,
    singleton_from_fresh (insert (contract x) id seen) m k r,
    lookup-insert (contract x) (contract r) id seen,
    eq_iff (contract x) (contract r),
  )

  singleton_from_unique :
      (seen : Dict String) (m : Dict A) (j k : String) (r s : A)
      → singleton_from contract seen m ≡ ok tt
      → lookup j m ≡ some r
      → lookup k m ≡ some s
      → contract r ≡ contract s
      → contract r ≢ ""
      → j ≡ k
  unfolding singleton_from
  singleton_from_unique seen [] j k r s h a b e n = unfold lookup in cc
  singleton_from_unique seen ((id, x) ∷ m) j k r s h a b e n = ground (
    arith,
    lookup_cons id j x m,
    lookup_cons id k x m,
    eq_iff id j,
    eq_iff id k,
    eq_iff (contract x) "",
    singleton_from_unique seen m j k r s,
    singleton_from_unique (insert (contract x) id seen) m j k r s,
    singleton_from_fresh (insert (contract x) id seen) m k s,
    singleton_from_fresh (insert (contract x) id seen) m j r,
    lookup-insert_self (contract x) id seen,
  )

-- What an error of the loop says: the contract, its earlier installation and the one that the loop
-- stopped at.
pub record Clash {A : Type 0} (contract : A → String) (seen : Dict String) (m : Dict A) (e : Error)
    : Type 0 where
  pub shared : String
  pub first : String
  pub second : String
  pub record_of : A
  pub says : e ≡ duplicate_contract shared first second
  pub named : shared ≢ ""
  pub found : lookup second m ≡ some record_of
  pub has : contract record_of ≡ shared
  pub earlier :
      (lookup shared seen ≡ some first)
      ⊎ ((r : A) × (lookup first m ≡ some r) × (contract r ≡ shared) × (first ≢ second))

module _ {A : Type 0} (contract : A → String) where
  Clash-skip :
      (seen : Dict String) (id : String) (x : A) (m : Dict A) (e : Error)
      → lookup id m ≡ none
      → Clash contract seen m e
      → Clash contract seen ((id, x) ∷ m) e
  Clash-skip seen id x m e d c = record {
    shared = c.shared;
    first = c.first;
    second = c.second;
    record_of = c.record_of;
    says = c.says;
    named = c.named;
    has = c.has;
    found = ground (arith, lookup_cons id c.second x m, eq_iff id c.second);
    earlier = elim c.earlier [
      | inl s ↦ inl s
      | inr (r, f, h, n) ↦
          inr (r, ground (arith, lookup_cons id c.first x m, eq_iff id c.first), h, n)
    ];
  }

  Clash-next :
      (seen : Dict String) (id : String) (x : A) (m : Dict A) (e : Error)
      → lookup id m ≡ none
      → Clash contract (insert (contract x) id seen) m e
      → Clash contract seen ((id, x) ∷ m) e
  Clash-next seen id x m e d c = record {
    shared = c.shared;
    first = c.first;
    second = c.second;
    record_of = c.record_of;
    says = c.says;
    named = c.named;
    found = ground (arith, lookup_cons id c.second x m, eq_iff id c.second);
    has = c.has;
    earlier = elim c.earlier [
      | inl s ↦ elim (Bool-cases (contract x == c.shared)) [
        | inl q ↦ inr (
          x,
          ground (
            arith,
            lookup_cons id c.first x m,
            eq_iff id c.first,
            lookup-insert (contract x) c.shared id seen,
          ),
          ground (arith, eq_iff (contract x) c.shared),
          ground (arith, lookup-insert (contract x) c.shared id seen),
        )
        | inr q ↦ inl (ground (arith, lookup-insert (contract x) c.shared id seen))
      ]
      | inr (r, f, h, n) ↦
          inr (r, ground (arith, lookup_cons id c.first x m, eq_iff id c.first), h, n)
    ];
  }

  singleton_from-Clash :
      (seen : Dict String) (m : Dict A) (e : Error)
      → Distinct m
      → singleton_from contract seen m ≡ err e
      → Clash contract seen m e
  singleton_from-Clash seen [] e d h = unfold singleton_from in cc
  singleton_from-Clash seen ((id, x) ∷ m) e d h = elim (Bool-cases (contract x == "")) [
    | inl q ↦
        Clash-skip seen id x m e d.0
          (singleton_from-Clash seen m e d.1 (unfold singleton_from in ground arith))
    | inr q ↦ elim (Option-cases (lookup (contract x) seen)) [
      | inl o ↦ Clash-next seen id x m e d.0 (
          singleton_from-Clash (insert (contract x) id seen) m e d.1
            (unfold singleton_from in ground arith))
      | inr (i, o) ↦ record {
        shared = contract x;
        first = i;
        second = id;
        record_of = x;
        says = unfold singleton_from in ground arith;
        named = ground (arith, eq_iff (contract x) "");
        found = ground (arith, lookup_cons id id x m, eq_iff id id);
        has = refl;
        earlier = inl o;
      }
    ]
  ]

module _ (p : Protocol) where
  -- Where the check passes, two installations with one contract, not the empty one, are the same.
  pub validate_singleton_contracts_unique :
      (m : Dict (ConnectorRecord p.Manifest)) (j k : String) (r s : ConnectorRecord p.Manifest)
      → validate_singleton_contracts p m ≡ ok tt
      → lookup j m ≡ some r
      → lookup k m ≡ some s
      → contract p r ≡ contract p s
      → contract p r ≢ ""
      → j ≡ k
  unfolding validate_singleton_contracts
  validate_singleton_contracts_unique m = singleton_from_unique (contract p) [] m

  -- Where the check fails, its error names a contract, not the empty one, and two different
  -- installations that are both in the map with that contract.
  pub validate_singleton_contracts-err :
      (m : Dict (ConnectorRecord p.Manifest)) (e : Error)
      → Distinct m
      → validate_singleton_contracts p m ≡ err e
      → (c : String) × (i : String) × (j : String) × (r : ConnectorRecord p.Manifest)
        × (s : ConnectorRecord p.Manifest) × (e ≡ duplicate_contract c i j)
        × (c ≢ "")
        × (i ≢ j)
        × (lookup i m ≡ some r)
        × (lookup j m ≡ some s)
        × (contract p r ≡ c)
        × (contract p s ≡ c)
  unfolding validate_singleton_contracts
  validate_singleton_contracts-err m e d h =
      let x = singleton_from-Clash (contract p) [] m e d h in
      elim x.earlier [
        | inl s ↦ absurd (unfold lookup in cc)
        | inr (r, f, q, n) ↦
            (x.shared, x.first, x.second, r, x.record_of, x.says, x.named, n, f, x.found, q, x.has)
      ]
