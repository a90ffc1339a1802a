-- ===== src/Recovery/Reported.antt =====
-- What the recovery of one interrupted outcome reports: whose outcome it is and its revision.
use connectorhost.Common.{◌≡◌, String, Bool, true, false, Option, none, some, nat_eq, string_eq, ok}
use connectorhost.Protocol.{Protocol}
use connectorhost.Record.{ConnectorRecord}
use connectorhost.Store.{Store, commit}
use connectorhost.Store.Plans.{put_remote_connector}
use connectorhost.Recovery.{ManagementOutcome, Circumstances, put_back, settle_tried}
use connectorhost.Recovery.Settled.{after_store-eq-ok}

module _ (p : Protocol) (canonical : String → Option String) where
  open p use {Manifest}

  ok-eq : (a b : ManagementOutcome Manifest) → ok a ≡ ok b → a ≡ b
  ok-eq a b e = cc

  put_back-eq :
      (c : Circumstances) (o y : ManagementOutcome Manifest) (s : Store Manifest)
      (before : Option (ConnectorRecord Manifest))
      → (put_back p canonical c o s before).1 ≡ ok y
      → o ≡ y
  unfolding put_back
  put_back-eq c o y s none h = ok-eq o y h
  put_back-eq c o y s (some before) h =
      ok-eq o y
        (after_store-eq-ok p canonical
          (commit p s (put_remote_connector p before s.state) c.store_write) (ok o) y h).1

  pub settle_tried-eq :
      (c : Circumstances) (o y : ManagementOutcome Manifest) (s : Store Manifest) (good : Bool)
      → (settle_tried p canonical c o s good).1 ≡ ok y
      → o ≡ y
  unfolding settle_tried
  settle_tried-eq c o y s true h = ok-eq o y h
  settle_tried-eq c o y s false h = put_back-eq c o y s o.connector_before h

  -- The fields by which the control plane knows an outcome.
  abbrev pub SameWork : ManagementOutcome Manifest → ManagementOutcome Manifest → Type 0
  SameWork o y = (y.connector_id ≡ o.connector_id) × (y.job_id ≡ o.job_id) × (y.kind ≡ o.kind)
