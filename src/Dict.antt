-- ===== src/Dict.antt =====
-- A Go map with text keys, as an association list: `m[k]`, `m[k] = v`, `delete(m, k)`, `len(m)`.
-- A copy of a map (`cloneConnectors`, `cloneInventoryMutations`) is the value itself.
use connectorhost.Common.{
  suc, ◌≤◌, ◌≡◌, refl, ap, ◌≢◌, String, Option, none, some, List, [], ◌∷◌, arith, eq_iff, ◌==◌,
  string_eq, if◌then◌else◌, length, All,
}

abbrev pub Dict {ℓ} : Type ℓ → Type ℓ
Dict V = List (String × V)

module _ {ℓ} {V : Type ℓ} where
  unfoldable pub lookup : String → Dict V → Option V
  lookup wanted [] = none
  lookup wanted ((key, value) ∷ later) =
      let found = lookup wanted later in if key == wanted then some value else found

  unfoldable pub delete : String → Dict V → Dict V
  delete k [] = []
  delete k ((j, v) ∷ m) = let rest = delete k m in if j == k then rest else (j, v) ∷ rest

  -- `m[k] = v` replaces the entry in its place, or adds one.
  unfoldable pub insert : String → V → Dict V → Dict V
  insert key value [] = (key, value) ∷ []
  insert key value (old ∷ later) =
      let further = insert key value later in
      if old.0 == key then (key, value) ∷ later else old ∷ further

  pub lookup_cons :
      (j k : String) (v : V) (m : Dict V)
      → lookup k ((j, v) ∷ m) ≡ (if j == k then some v else lookup k m)
  unfolding lookup
  lookup_cons j k v m = refl

  pub lookup-delete :
      (k j : String) (m : Dict V) → lookup j (delete k m) ≡ (if k == j then none else lookup j m)
  unfolding lookup delete
  lookup-delete k j [] = ground arith
  lookup-delete k j ((i, w) ∷ m) =
      ground (arith, eq_iff k j, eq_iff i k, eq_iff i j, lookup-delete k j m)

  pub lookup-insert :
      (key wanted : String) (value : V) (entries : Dict V)
      → lookup wanted (insert key value entries)
        ≡ (if key == wanted then some value else lookup wanted entries)
  unfolding insert lookup
  lookup-insert key wanted value [] = refl
  lookup-insert key wanted value ((at, old) ∷ entries) = ground (
    arith,
    lookup-insert key wanted value entries,
    eq_iff at wanted,
    eq_iff at key,
    eq_iff key wanted,
  )

  pub lookup-insert_self : (k : String) (v : V) (m : Dict V) → lookup k (insert k v m) ≡ some v
  lookup-insert_self k v m = ground (arith, lookup-insert k k v m, eq_iff k k)

  pub lookup-delete_self : (k : String) (m : Dict V) → lookup k (delete k m) ≡ none
  lookup-delete_self k m = ground (arith, lookup-delete k k m, eq_iff k k)

  pub lookup-insert_ne :
      (k j : String) (v : V) (m : Dict V) → k ≢ j → lookup j (insert k v m) ≡ lookup j m
  lookup-insert_ne k j v m h = ground (arith, lookup-insert k j v m, eq_iff k j)

  pub lookup-delete_ne : (k j : String) (m : Dict V) → k ≢ j → lookup j (delete k m) ≡ lookup j m
  lookup-delete_ne k j m h = ground (arith, lookup-delete k j m, eq_iff k j)

  pub insert-found : (k : String) (v w : V) (m : Dict V) → lookup k (insert k v m) ≡ some w → v ≡ w
  insert-found k v w m e = ground (arith, lookup-insert_self k v m)

  pub length-delete-le : (k : String) (m : Dict V) → length (delete k m) ≤ length m
  unfolding delete
  length-delete-le k [] = omega arith
  length-delete-le k ((j, v) ∷ m) = ground (arith, length-delete-le k m)

  -- A new key adds one entry, a known one none.
  pub length-insert :
      (k : String) (v : V) (m : Dict V)
      → length (insert k v m) ≡ elim (lookup k m) [ none ↦ suc (length m) | some _ ↦ length m ]
  unfolding lookup insert
  length-insert k v [] = refl
  length-insert k v ((j, w) ∷ m) = ground (arith, length-insert k v m)

-- No key stands twice, as in every map of the source.
abbrev pub Distinct {ℓ} : {V : Type ℓ} → Dict V → Type ℓ
Distinct [] = Unit
Distinct ((k, v) ∷ m) = (lookup k m ≡ none) × Distinct m

module _ {ℓ} {V : Type ℓ} where
  pub insert-Distinct : (k : String) (v : V) (m : Dict V) → Distinct m → Distinct (insert k v m)
  unfolding insert lookup
  insert-Distinct k v [] d = (refl, tt)
  insert-Distinct k v ((j, w) ∷ m) d =
      ground (arith, eq_iff j k, eq_iff k j, lookup-insert k j v m, insert-Distinct k v m d.1)

  pub delete-Distinct : (k : String) (m : Dict V) → Distinct m → Distinct (delete k m)
  unfolding delete
  delete-Distinct k [] d = tt
  delete-Distinct k ((j, w) ∷ m) d = ground (arith, lookup-delete k j m, delete-Distinct k m d.1)

  -- A fact of each key that is found is a fact of each entry.
  pub All-of_lookup {κ} :
      (P : String → V → Type κ) (m : Dict V)
      → Distinct m
      → ((k : String) (v : V) → lookup k m ≡ some v → P k v)
      → All (λ e. P e.0 e.1) m
  unfolding lookup
  All-of_lookup P [] d h = tt
  All-of_lookup P ((k, v) ∷ m) d h = (
    h k v (ground (arith, eq_iff k k)),
    All-of_lookup P m d.1 (λ j w e. h j w (ground (arith, eq_iff k j))),
  )

module _ {ℓ κ} {V : Type ℓ} {W : Type κ} (f : V → W) where
  unfoldable pub map_values : Dict V → Dict W
  map_values [] = []
  map_values ((k, v) ∷ m) = (k, f v) ∷ map_values m

  pub lookup-map_values :
      (k : String) (m : Dict V)
      → lookup k (map_values m) ≡ elim (lookup k m) [ none ↦ none | some v ↦ some (f v) ]
  unfolding lookup map_values
  lookup-map_values k [] = refl
  lookup-map_values k ((j, v) ∷ m) = ground (arith, lookup-map_values k m)

  pub length-map_values : (m : Dict V) → length (map_values m) ≡ length m
  unfolding map_values
  length-map_values [] = refl
  length-map_values ((j, v) ∷ m) = ap suc (length-map_values m)

  pub map_values-Distinct : (m : Dict V) → Distinct m → Distinct (map_values m)
  unfolding map_values
  map_values-Distinct [] d = tt
  map_values-Distinct ((j, v) ∷ m) d =
      (rw (lookup-map_values j m) (rw d.0 refl), map_values-Distinct m d.1)
