-- ===== src/Record/Storable.antt =====
-- A connector record that passes validation in the three forms it takes: as given, as copied through
-- JSON, and as read back from host.json.
use connectorhost.Common.{
  ◌≡◌, refl, ap, String, Bool, true, Option, none, some, List, length, arith, ◌==◌, string_eq, ok,
}
use connectorhost.Protocol.{Protocol, IsCodec}
use connectorhost.Record.{
  ConnectorRecord, validate_connector_record, validate_host_storage_origins, clone_record,
  written_record, reread_option, validate_rollback_slot,
}

module _ (p : Protocol) where
  open p use {Manifest}

  pub record IsStorable (r : ConnectorRecord Manifest) : Type 0 where
    pub given : validate_connector_record p r ≡ ok tt
    pub cloned : validate_connector_record p (clone_record p r) ≡ ok tt
    pub written : validate_connector_record p (written_record p r) ≡ ok tt

  -- The storage origins and the acknowledgement of a record are all that the store itself changes.
  abbrev pub restamp :
      Bool → List String → List String → ConnectorRecord Manifest → ConnectorRecord Manifest
  restamp b origins previous r = record r {
    storage_origins = origins;
    previous_storage_origins = previous;
    inventory_acknowledged = b;
  }

  validate_slot-restamp :
      (b : Bool) (o q : List String) (r : ConnectorRecord Manifest)
      → validate_rollback_slot p r ≡ ok tt
      → (r.previous_digest == "" ≡ true → length q ≡ 0)
      → validate_rollback_slot p (restamp b o q r) ≡ ok tt
  unfolding validate_rollback_slot
  validate_slot-restamp b o q r h e = ground arith

  pub validate-restamp :
      (b : Bool) (o q : List String) (r : ConnectorRecord Manifest)
      → validate_connector_record p r ≡ ok tt
      → validate_host_storage_origins p o ≡ ok tt
      → validate_host_storage_origins p q ≡ ok tt
      → (r.previous_digest == "" ≡ true → length q ≡ 0)
      → validate_connector_record p (restamp b o q r) ≡ ok tt
  unfolding validate_connector_record
  validate-restamp b o q r h ho hq e = ground (arith, validate_slot-restamp b o q r)

  -- What a valid record says of its storage origins and of a rollback slot that is not there.
  pub record SlotFacts (r : ConnectorRecord Manifest) : Type 0 where
    pub origins : validate_host_storage_origins p r.storage_origins ≡ ok tt
    pub previous_origins : validate_host_storage_origins p r.previous_storage_origins ≡ ok tt
    pub slot : validate_rollback_slot p r ≡ ok tt

  pub validate-SlotFacts :
      (r : ConnectorRecord Manifest) → validate_connector_record p r ≡ ok tt → SlotFacts r
  unfolding validate_connector_record
  validate-SlotFacts r h = ground arith

  pub empty_slot :
      (r : ConnectorRecord Manifest)
      → validate_rollback_slot p r ≡ ok tt
      → r.previous_digest == "" ≡ true
      → (r.previous_manifest ≡ none) × (length r.previous_storage_origins ≡ 0)
  unfolding validate_rollback_slot
  empty_slot r h e = ground arith

module _ (p : Protocol) (c : IsCodec p) where
  open p use {Manifest}

  reread_option_twice :
      (m : Option Manifest) → reread_option p (reread_option p m) ≡ reread_option p m
  reread_option_twice none = refl
  reread_option_twice (some m) = ap some (c.reread-reread m)

  -- A copy of a copy is the copy, and what is written of a copy is what is written of the record.
  pub clone-clone :
      (r : ConnectorRecord Manifest) → clone_record p (clone_record p r) ≡ clone_record p r
  unfolding clone_record
  clone-clone r i = record r {
    settings = c.compact-compact r.settings i;
    previous_settings = c.compact-compact r.previous_settings i;
    manifest = c.reread-reread r.manifest i;
    previous_manifest = reread_option_twice r.previous_manifest i;
  }

  pub written-clone :
      (r : ConnectorRecord Manifest) → written_record p (clone_record p r) ≡ written_record p r
  unfolding clone_record written_record
  written-clone r i = record r {
    settings = c.indent-compact r.settings i;
    previous_settings = c.indent-compact r.previous_settings i;
    manifest = c.reread-reread r.manifest i;
    previous_manifest = reread_option_twice r.previous_manifest i;
  }

  pub clone-written :
      (r : ConnectorRecord Manifest) → clone_record p (written_record p r) ≡ clone_record p r
  unfolding clone_record written_record
  clone-written r i = record r {
    settings = c.compact-indent r.settings i;
    previous_settings = c.compact-indent r.previous_settings i;
    manifest = c.reread-reread r.manifest i;
    previous_manifest = reread_option_twice r.previous_manifest i;
  }

  pub written-written :
      (r : ConnectorRecord Manifest) → written_record p (written_record p r) ≡ written_record p r
  unfolding written_record
  written-written r i = record r {
    settings = c.indent-indent r.settings i;
    previous_settings = c.indent-indent r.previous_settings i;
    manifest = c.reread-reread r.manifest i;
    previous_manifest = reread_option_twice r.previous_manifest i;
  }

  pub clone-IsStorable :
      (r : ConnectorRecord Manifest) → IsStorable p r → IsStorable p (clone_record p r)
  clone-IsStorable r s = record {
    given = s.cloned;
    cloned = rw (clone-clone r) s.cloned;
    written = rw (written-clone r) s.written;
  }

  pub written-IsStorable :
      (r : ConnectorRecord Manifest) → IsStorable p r → IsStorable p (written_record p r)
  written-IsStorable r s = record {
    given = s.written;
    cloned = rw (clone-written r) s.cloned;
    written = rw (written-written r) s.written;
  }

module _ (p : Protocol) where
  open p use {Manifest}

  pub restamp-IsStorable :
      (b : Bool) (o q : List String) (r : ConnectorRecord Manifest)
      → IsStorable p r
      → validate_host_storage_origins p o ≡ ok tt
      → validate_host_storage_origins p q ≡ ok tt
      → (r.previous_digest == "" ≡ true → length q ≡ 0)
      → IsStorable p (restamp p b o q r)
  unfolding clone_record written_record
  restamp-IsStorable b o q r s ho hq e = record {
    given = validate-restamp p b o q r s.given ho hq e;
    cloned = validate-restamp p b o q (clone_record p r) s.cloned ho hq e;
    written = validate-restamp p b o q (written_record p r) s.written ho hq e;
  }
