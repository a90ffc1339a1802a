-- ===== src/Recovery/Slots.antt =====
-- The rollback of host.go exchanges the two slots of a record, and a recovery can tell.
use connectorhost.Common.{
  ◌≡◌, refl, sym, ap, ◌∙◌, subst, some-eq, String, true, Option, some, List, [], ◌∷◌, arith, eq_iff,
  string_eq,
}
use connectorhost.Protocol.{Protocol}
use connectorhost.Record.{ConnectorRecord, manifests_equal}
use connectorhost.Recovery.{
  swap_slots, rollback_slots_swapped, manifests_swapped, settings_equal, same_texts, same_canonical,
}

same_texts_refl : (l : List String) → same_texts l l ≡ true
unfolding same_texts
same_texts_refl [] = refl
same_texts_refl (x ∷ l) = ground (arith, eq_iff x x, same_texts_refl l)

-- A second rollback undoes the first: exchanging the slots twice gives back the record, if it had a
-- manifest in its rollback slot.
pub swap_slots-swap_slots :
    {M : Type 0} (r : ConnectorRecord M) (previous : M)
    → r.previous_manifest ≡ some previous
    → swap_slots (swap_slots r previous) r.manifest ≡ r
unfolding swap_slots
swap_slots-swap_slots r previous e = ap (λ m. record r { previous_manifest = m }) (sym e)

module _ (p : Protocol) (canonical : String → Option String) where
  open p use {Manifest}

  -- Two texts with one canonical form
  abbrev pub SameJson : String → String → Type 0
  SameJson a b = (form : String) × (canonical a ≡ some form) × (canonical b ≡ some form)

  -- Two manifests with one JSON form
  abbrev pub SameManifest : Manifest → Manifest → Type 0
  SameManifest m n =
      (form : String) × (p.manifest_json m ≡ some form) × (p.manifest_json n ≡ some form)

  -- A record that was read back: the settings may be laid out in another way, and the manifests are the
  -- same as JSON.
  pub record Reread (a b : ConnectorRecord Manifest) : Type 0 where
    pub active : a.active_digest ≡ b.active_digest
    pub previous : a.previous_digest ≡ b.previous_digest
    pub filename : a.filename ≡ b.filename
    pub previous_filename : a.previous_filename ≡ b.previous_filename
    pub origins : a.storage_origins ≡ b.storage_origins
    pub previous_origins : a.previous_storage_origins ≡ b.previous_storage_origins
    pub settings : SameJson a.settings b.settings
    pub previous_settings : SameJson a.previous_settings b.previous_settings
    pub manifest : SameManifest a.manifest b.manifest
    pub manifests :
        (m : Manifest) × (n : Manifest) × (a.previous_manifest ≡ some m)
        × (b.previous_manifest ≡ some n)
        × SameManifest m n

  canonical_equal :
      (a b form : String)
      → canonical a ≡ some form
      → canonical b ≡ some form
      → settings_equal p canonical a b ≡ true
  unfolding settings_equal same_canonical
  canonical_equal a b form e f = ground (arith, e, f, eq_iff form form)

  -- Two texts that have one canonical form with two of one canonical form count as equal.
  joined_settings :
      (a b c : String) → SameJson a b → SameJson c b → settings_equal p canonical a c ≡ true
  joined_settings a b c (f, e, g) (f', e', g') = canonical_equal a c f e (e' ∙ sym g' ∙ g)

  joined_manifests :
      (a b c : Manifest) → SameManifest a b → SameManifest c b → manifests_equal p a c ≡ true
  unfolding manifests_equal
  joined_manifests a b c (f, e, g) (f', e', g') =
      let h : p.manifest_json c ≡ some f = e' ∙ sym g' ∙ g in rw (e, h) (ground (arith, eq_iff f f))

  slots :
      (current before r : ConnectorRecord Manifest) (previous : Manifest)
      → r.previous_manifest ≡ some previous
      → Reread current (swap_slots r previous)
      → Reread before r
      → manifests_swapped p canonical current before before.previous_manifest
          current.previous_manifest
        ≡ true
  unfolding manifests_swapped swap_slots
  slots current before r previous e k l =
      let (m, n, f, g, same) = k.manifests in
      let (m', n', f', g', same') = l.manifests in
      let is : n ≡ r.manifest = sym (some-eq g) in
      let was : n' ≡ previous = some-eq (sym g' ∙ e) in
      rw
        (
          f,
          f',
          joined_manifests current.manifest previous m' k.manifest
              (subst (SameManifest m') was same'),
        )
        (joined_manifests m r.manifest before.manifest (subst (SameManifest m) is same) l.manifest)

  -- The check that a recovery makes finds a rollback that took effect: it holds of any reread record
  -- after the exchange of the slots of `r`, against any reread record of `r`, however the settings were
  -- laid out when the two were written, if all settings have canonical forms and the manifests JSON forms.
  pub rollback_slots_swapped-swap_slots :
      (r current before : ConnectorRecord Manifest) (previous : Manifest)
      → r.previous_manifest ≡ some previous
      → Reread current (swap_slots r previous)
      → Reread before r
      → rollback_slots_swapped p canonical current before ≡ true
  unfolding rollback_slots_swapped swap_slots
  rollback_slots_swapped-swap_slots r current before previous e k l =
      rw
        (
          k.active,
          l.previous,
          k.previous,
          l.active,
          k.filename,
          l.previous_filename,
          k.previous_filename,
          l.filename,
          k.origins,
          l.previous_origins,
          k.previous_origins,
          l.origins,
          (eq_iff r.previous_digest r.previous_digest).1 refl,
          (eq_iff r.active_digest r.active_digest).1 refl,
          (eq_iff r.previous_filename r.previous_filename).1 refl,
          (eq_iff r.filename r.filename).1 refl,
          joined_settings current.settings r.previous_settings before.previous_settings k.settings
              l.previous_settings,
          joined_settings current.previous_settings r.settings before.settings k.previous_settings
              l.settings,
          same_texts_refl r.previous_storage_origins,
          same_texts_refl r.storage_origins,
        )
        (slots current before r previous e k l)
