-- ===== src/Host/View.antt =====
-- What the host promises about its connectors, without records, files and children: each installation
-- has an active artifact and may have a previous one, and a change moves them. The operations of the Store that put a
-- record are steps of that.
use connectorhost.Common.{
  ◌≡◌, ◌≢◌, refl, ap, ◌∙◌, String, true, Option, none, some, Error, Result, ok, err, >>-eq-ok,
  string_eq,
}
use connectorhost.Dict.{Dict, lookup, insert, lookup-insert_self, lookup-insert_ne}
use connectorhost.Protocol.{Protocol, Attempt}
use connectorhost.Record.{
  ConnectorRecord, validate_installation_id, validate_connector_record, clone_record,
}
use connectorhost.Store.{State, Plan}
use connectorhost.Store.Plans.{
  connector, copy_if_valid, put_inventory_connector, put_remote_connector, inherit, fenced,
}
use connectorhost.Store.PutFacts.{put_inventory_lem, put_remote_lem}

-- The active artifact and the previous one, by their digests; "" for none
abbrev pub Slots : Type 0
Slots = String × String

-- The view of an installation: nothing, or its two artifacts
abbrev pub View : Type 0
View = Option Slots

-- What a change may do to the view of its installation; an install and an update bring an artifact, by
-- its digest.
pub data Kind : Type 0 where
  installs updates : String → Kind
  rolls_back : Kind

pub data Moves : Kind → View → View → Type 0 where
  arrives : (digest : String) → Moves (installs digest) none (some (digest, ""))
  is_replaced : (digest a b : String) → Moves (updates digest) (some (a, b)) (some (digest, a))
  is_exchanged : (a b : String) → b ≢ "" → Moves rolls_back (some (a, b)) (some (b, a))

module _ {M : Type 0} where
  unfoldable pub slots_of : Option (ConnectorRecord M) → View
  slots_of none = none
  slots_of (some r) = some (r.active_digest, r.previous_digest)

  unfoldable pub view : State M → String → View
  unfolding slots_of
  view st id = slots_of (lookup id st.connectors)

  -- A change of the installation `id`: with an error nobody's view changes, and without one that of `id`
  -- makes a move of its kind and nobody else's changes.
  pub data Refines {ℓ} {A : Type ℓ} (kind : Kind) (id : String) (before after : State M)
      : Result A → Type ℓ where
    failed :
        (e : Error)
        → ((j : String) → view after j ≡ view before j)
        → Refines kind id before after (err e)
    moved :
        (a : A)
        → Moves kind (view before id) (view after id)
        → ((j : String) → id ≢ j → view after j ≡ view before j)
        → Refines kind id before after (ok a)

module _ (p : Protocol) where
  open p use {Manifest}

  -- The stored record has the artifacts and the settings of the given one, after a round trip through
  -- their encoding.
  pub record Keeps (stored r : ConnectorRecord Manifest) : Type 0 where
    pub identity : stored.installation_id ≡ r.installation_id
    pub active : stored.active_digest ≡ r.active_digest
    pub previous : stored.previous_digest ≡ r.previous_digest
    pub filename : stored.filename ≡ r.filename
    pub previous_filename : stored.previous_filename ≡ r.previous_filename
    pub settings : stored.settings ≡ p.compact r.settings
    pub manifest : stored.manifest ≡ p.reread r.manifest

  slots_some :
      (a b : ConnectorRecord Manifest)
      → Keeps a b
      → slots_of (some a) ≡ some (b.active_digest, b.previous_digest)
  unfolding slots_of
  slots_some a b k = let e = k.active in let f = k.previous in cc

  -- What a plan that puts a record into the Store leaves: the record is there, and nobody else's view
  -- has changed.
  pub record Put (r : ConnectorRecord Manifest) (before after : State Manifest) : Type 0 where
    pub valid : validate_installation_id r.installation_id ≡ ok tt
    pub stored : ConnectorRecord Manifest
    pub found : lookup r.installation_id after.connectors ≡ some stored
    pub keeps : Keeps stored r
    pub others : (j : String) → r.installation_id ≢ j → view after j ≡ view before j

  pub record Puts (plan : ConnectorRecord Manifest → Plan p) : Type 0 where
    pub puts :
        (r : ConnectorRecord Manifest) (st next : State Manifest)
        → plan r st ≡ ok (next, tt)
        → Put r st next

  inserted-Put :
      (r stored : ConnectorRecord Manifest) (st next : State Manifest)
      → validate_connector_record p r ≡ ok tt
      → next.connectors ≡ insert r.installation_id stored st.connectors
      → Keeps stored r
      → Put r st next
  unfolding view validate_connector_record
  inserted-Put r stored st next v e k = record {
    valid = (>>-eq-ok _ _ v).0;
    stored = stored;
    found =
        ap (λ (m : Dict (ConnectorRecord Manifest)). lookup r.installation_id m) e
        ∙ lookup-insert_self r.installation_id stored st.connectors;
    keeps = k;
    others = λ j n.
        ap (λ (m : Dict (ConnectorRecord Manifest)). slots_of (lookup j m)) e
        ∙ ap slots_of (lookup-insert_ne r.installation_id j stored st.connectors n);
  }

  -- The view of the installation that a record was put for
  pub Put-view :
      (r : ConnectorRecord Manifest) (st next : State Manifest)
      → Put r st next
      → view next r.installation_id ≡ some (r.active_digest, r.previous_digest)
  unfolding view
  Put-view r st next put = ap slots_of put.found ∙ slots_some put.stored r put.keeps

  cloned-Keeps :
      (a r : ConnectorRecord Manifest)
      → a.installation_id ≡ r.installation_id
      → a.active_digest ≡ r.active_digest
      → a.previous_digest ≡ r.previous_digest
      → a.filename ≡ r.filename
      → a.previous_filename ≡ r.previous_filename
      → a.settings ≡ r.settings
      → a.manifest ≡ r.manifest
      → Keeps (clone_record p a) r
  unfolding clone_record
  cloned-Keeps a r i c d f g s m = record {
    identity = i;
    active = c;
    previous = d;
    filename = f;
    previous_filename = g;
    settings = ap p.compact s;
    manifest = ap p.reread m;
  }

  restamped-Keeps :
      (attempt : Option Attempt) (current : Option (ConnectorRecord Manifest))
      (given : ConnectorRecord Manifest)
      → Keeps (clone_record p (fenced p attempt (inherit p current given))) given
  unfolding fenced inherit
  restamped-Keeps (some a) none given = cloned-Keeps _ given refl refl refl refl refl refl refl
  restamped-Keeps (some a) (some c) given = cloned-Keeps _ given refl refl refl refl refl refl refl
  restamped-Keeps none none given = cloned-Keeps _ given refl refl refl refl refl refl refl
  restamped-Keeps none (some c) given = cloned-Keeps _ given refl refl refl refl refl refl refl

  pub put_inventory_Puts :
      (attempt : Option Attempt) → Puts (λ r. put_inventory_connector p r attempt)
  unfolding put_inventory_connector
  put_inventory_Puts attempt = record {
    puts = λ r st next e.
        let facts = put_inventory_lem p r attempt st next e in
        let current = lookup r.installation_id st.connectors in
        inserted-Put r (clone_record p (fenced p attempt (inherit p current r))) st next
          (>>-eq-ok (validate_connector_record p r) _ e).0
          (ap (λ (x : State Manifest). x.connectors) facts.leads)
          (restamped-Keeps attempt current r);
  }

  pub put_remote_Puts : Puts (put_remote_connector p)
  unfolding put_remote_connector
  put_remote_Puts = record {
    puts = λ r st next e.
        let given = record r { inventory_acknowledged = true } in
        let put =
          inserted-Put given (clone_record p given) st next
            (>>-eq-ok (validate_connector_record p given) _ e).0
            (ap (λ (x : State Manifest). x.connectors) (put_remote_lem p r st next e))
            (cloned-Keeps given given refl refl refl refl refl refl refl) in
        record {
          valid = put.valid;
          stored = put.stored;
          found = put.found;
          keeps = record {
            identity = put.keeps.identity;
            active = put.keeps.active;
            previous = put.keeps.previous;
            filename = put.keeps.filename;
            previous_filename = put.keeps.previous_filename;
            settings = put.keeps.settings;
            manifest = put.keeps.manifest;
          };
          others = put.others;
        };
  }

  -- What `Connector` gives of an installation shows its view.
  pub connector-view :
      (st : State Manifest) (id : String)
      → validate_installation_id id ≡ ok tt
      → slots_of (connector p st id) ≡ view st id
  unfolding connector slots_of copy_if_valid clone_record view
  connector-view st id e =
      ap (λ (v : Result (Unit {0})). slots_of (copy_if_valid p v (lookup id st.connectors))) e
      ∙ copied (lookup id st.connectors)
    where
      copied :
          (found : Option (ConnectorRecord Manifest))
          → slots_of (copy_if_valid p (ok tt) found) ≡ slots_of found
      copied none = refl
      copied (some r) = refl
