-- ===== src/Recovery/Answered.antt =====
-- After a recovery the journal on disk has no outcome left running.
use connectorhost.Common.{
  ◌≡◌, refl, ap, ◌∙◌, inl, inr, String, Bool, true, false, Option, some, [], ◌∷◌, All, arith,
  Result, ok, err, Bool-cases, sym, not, ◌||◌, ◌==◌, string_eq,
}
use connectorhost.Dict.{Dict, lookup, insert, lookup-insert, lookup-insert_self}
use connectorhost.Protocol.{Protocol}
use connectorhost.Store.{Store, WriteOutcome, written, failed, replaced_with_error}
use connectorhost.Recovery.{
  ManagementOutcome, Circumstances, is_running, recover_outcome, save_outcome, write_outcome,
  has_kind, save_recovered, save_if, recover_entry, recover_next, recover_all, Journal, Books,
}
use connectorhost.Recovery.Journals.{IsSettled, outcome-IsSettled}

module _ {M : Type 0} where
  -- The journal on disk has an outcome of the job that is not running.
  pub record Answered (job : String) (j : Dict (ManagementOutcome M)) : Type 0 where
    pub outcome : ManagementOutcome M
    pub found : lookup job j ≡ some outcome
    pub ended : is_running outcome.status ≡ false

  inserted-Answered :
      (o : ManagementOutcome M) (j : Dict (ManagementOutcome M)) (job : String)
      → is_running o.status ≡ false
      → Answered job j
      → Answered job (insert o.job_id o j)
  inserted-Answered o j job e k = elim (Bool-cases (o.job_id == job)) [
    | inl same ↦ record {
      outcome = o;
      found = ground (arith, lookup-insert o.job_id job o j, same);
      ended = e;
    }
    | inr other ↦ record {
      outcome = k.outcome;
      found = ground (arith, lookup-insert o.job_id job o j, other, k.found);
      ended = k.ended;
    }
  ]

  write-Answered :
      (w : WriteOutcome) (o : ManagementOutcome M) (j : Dict (ManagementOutcome M)) (job : String)
      → is_running o.status ≡ false
      → Answered job j
      → Answered job (write_outcome w o j).0
  unfolding write_outcome
  write-Answered failed o j job e k = k
  write-Answered written o j job e k = inserted-Answered o j job e k
  write-Answered replaced_with_error o j job e k = inserted-Answered o j job e k

  save-Answered :
      (w : WriteOutcome) (o : ManagementOutcome M) (j : Dict (ManagementOutcome M)) (job : String)
      → is_running o.status ≡ false
      → Answered job j
      → Answered job (save_outcome w o j).0
  unfolding save_outcome
  save-Answered w o j job e k = elim (Bool-cases (o.job_id == "" || not (has_kind o.kind))) [
    | inl b ↦ rw b k
    | inr b ↦ rw b (write-Answered w o j job e k)
  ]

  write-found :
      (w : WriteOutcome) (o : ManagementOutcome M) (j : Dict (ManagementOutcome M))
      → (write_outcome w o j).1 ≡ ok tt
      → lookup o.job_id (write_outcome w o j).0 ≡ some o
  unfolding write_outcome
  write-found written o j h = lookup-insert_self o.job_id o j
  write-found failed o j h = absurd (cc (h))
  write-found replaced_with_error o j h = absurd (cc (h))

  -- An outcome that was saved is in the journal.
  pub save-found :
      (w : WriteOutcome) (o : ManagementOutcome M) (j : Dict (ManagementOutcome M))
      → (save_outcome w o j).1 ≡ ok tt
      → lookup o.job_id (save_outcome w o j).0 ≡ some o
  unfolding save_outcome
  save-found w o j h = elim (Bool-cases (o.job_id == "" || not (has_kind o.kind))) [
    | inl b ↦ absurd (ground (arith, b, h))
    | inr b ↦ rw b (write-found w o j (rw b at h))
  ]

module _ (p : Protocol) (canonical : String → Option String) where
  open p use {Manifest}

  -- Where each of the outcomes that were read will be, if the journal is left as it is
  abbrev Pending : Journal p canonical → Dict (ManagementOutcome Manifest) → Type 0
  Pending journal j = All (λ e. (is_running e.0.status ≡ false) → Answered e.0.job_id j) journal

  recovered-Answered :
      (w : WriteOutcome) (j : Dict (ManagementOutcome Manifest)) (job other : String)
      (r : Store Manifest × Result (ManagementOutcome Manifest))
      → ((x : ManagementOutcome Manifest) → r.1 ≡ ok x → IsSettled p canonical job x)
      → Answered other j
      → Answered other (save_recovered p canonical w j r).0.1
  unfolding save_recovered
  recovered-Answered w j job other (s, err e) f k = k
  recovered-Answered w j job other (s, ok o) f k = save-Answered w o j other (f o refl).0 k

  recovered-found :
      (w : WriteOutcome) (j : Dict (ManagementOutcome Manifest)) (job : String)
      (r : Store Manifest × Result (ManagementOutcome Manifest))
      → ((x : ManagementOutcome Manifest) → r.1 ≡ ok x → IsSettled p canonical job x)
      → (save_recovered p canonical w j r).1 ≡ ok tt
      → Answered job (save_recovered p canonical w j r).0.1
  unfolding save_recovered
  recovered-found w j job (s, err e) f h = absurd (cc (h))
  recovered-found w j job (s, ok o) f h = record {
    outcome = o;
    found =
        ap (λ (n : String). lookup n (save_outcome w o j).0) (sym (f o refl).1)
        ∙ save-found w o j h;
    ended = (f o refl).0;
  }

  if-Answered :
      (running : Bool) (w : WriteOutcome) (j : Dict (ManagementOutcome Manifest))
      (s : Store Manifest) (job other : String)
      (r : Store Manifest × Result (ManagementOutcome Manifest))
      → ((x : ManagementOutcome Manifest) → r.1 ≡ ok x → IsSettled p canonical job x)
      → Answered other j
      → Answered other (save_if p canonical running w j s r).0.1
  unfolding save_if
  if-Answered false w j s job other r f k = k
  if-Answered true w j s job other r f k = recovered-Answered w j job other r f k

  if-found :
      (running : Bool) (w : WriteOutcome) (j : Dict (ManagementOutcome Manifest))
      (s : Store Manifest) (job : String) (r : Store Manifest × Result (ManagementOutcome Manifest))
      → ((x : ManagementOutcome Manifest) → r.1 ≡ ok x → IsSettled p canonical job x)
      → (running ≡ false → Answered job j)
      → (save_if p canonical running w j s r).1 ≡ ok tt
      → Answered job (save_if p canonical running w j s r).0.1
  unfolding save_if
  if-found false w j s job r f k h = k refl
  if-found true w j s job r f k h = recovered-found w j job r f h

  entry-Answered :
      (c : Circumstances) (o : ManagementOutcome Manifest) (x : Books p canonical) (other : String)
      → Answered other x.1
      → Answered other (recover_entry p canonical c o x).0.1
  unfolding recover_entry
  entry-Answered c o (s, j) other k =
      if-Answered (is_running o.status) c.save_journal j s o.job_id other
        (recover_outcome p canonical c o s)
        (λ x e. outcome-IsSettled p canonical o.job_id c o x s refl e) k

  entry-found :
      (c : Circumstances) (o : ManagementOutcome Manifest) (x : Books p canonical)
      → (is_running o.status ≡ false → Answered o.job_id x.1)
      → (recover_entry p canonical c o x).1 ≡ ok tt
      → Answered o.job_id (recover_entry p canonical c o x).0.1
  unfolding recover_entry
  entry-found c o (s, j) k h =
      if-found (is_running o.status) c.save_journal j s o.job_id (recover_outcome p canonical c o s)
        (λ x e. outcome-IsSettled p canonical o.job_id c o x s refl e) k h

  next-Answered :
      (r : Books p canonical × Result (Unit {0}))
      (next : Books p canonical → Books p canonical × Result (Unit {0})) (other : String)
      → ((x : Books p canonical) → Answered other x.1 → Answered other (next x).0.1)
      → Answered other r.0.1
      → Answered other (recover_next p canonical r next).0.1
  unfolding recover_next
  next-Answered (x, err e) next other f k = k
  next-Answered (x, ok _) next other f k = f x k

  all-Answered :
      (journal : Journal p canonical) (x : Books p canonical) (other : String)
      → Answered other x.1
      → Answered other (recover_all p canonical journal x).0.1
  unfolding recover_all
  all-Answered [] x other k = k
  all-Answered ((o, c) ∷ rest) x other k =
      next-Answered (recover_entry p canonical c o x) (recover_all p canonical rest) other
        (λ y. all-Answered rest y other) (entry-Answered c o x other k)

  still-Pending :
      (c : Circumstances) (o : ManagementOutcome Manifest) (x : Books p canonical)
      (rest : Journal p canonical)
      → Pending rest x.1
      → Pending rest (recover_entry p canonical c o x).0.1
  still-Pending c o x [] k = tt
  still-Pending c o x ((q, d) ∷ rest) k =
      (λ e. entry-Answered c o x q.job_id (k.0 e), still-Pending c o x rest k.1)

  recover_next_answers :
      (o : ManagementOutcome Manifest) (c : Circumstances) (rest : Journal p canonical)
      (r : Books p canonical × Result (Unit {0}))
      → (r.1 ≡ ok tt → Answered o.job_id r.0.1)
      → ((recover_all p canonical rest r.0).1 ≡ ok tt
          → All (λ e. Answered e.0.job_id (recover_all p canonical rest r.0).0.1) rest)
      → (recover_next p canonical r (recover_all p canonical rest)).1 ≡ ok tt
      → All
          (λ e. Answered e.0.job_id (recover_next p canonical r (recover_all p canonical rest)).0.1)
          ((o, c) ∷ rest)
  unfolding recover_next
  recover_next_answers o c rest (x, err e) a b h = absurd (cc (h))
  recover_next_answers o c rest (x, ok _) a b h = (all-Answered rest x o.job_id (a refl), b h)

  recover_all_answers :
      (journal : Journal p canonical) (x : Books p canonical)
      → Pending journal x.1
      → (recover_all p canonical journal x).1 ≡ ok tt
      → All (λ e. Answered e.0.job_id (recover_all p canonical journal x).0.1) journal
  unfolding recover_all
  recover_all_answers [] x k h = tt
  recover_all_answers ((o, c) ∷ rest) x k h =
      recover_next_answers o c rest (recover_entry p canonical c o x) (entry-found c o x k.0)
        (recover_all_answers rest (recover_entry p canonical c o x).0
          (still-Pending c o x rest k.1))
        h

  -- The outcomes that were read from the journal
  abbrev pub IsRead : Journal p canonical → Dict (ManagementOutcome Manifest) → Type 0
  IsRead journal j = All (λ e. lookup e.0.job_id j ≡ some e.0) journal

  read-Pending :
      (journal : Journal p canonical) (j : Dict (ManagementOutcome Manifest))
      → IsRead journal j
      → Pending journal j
  read-Pending [] j k = tt
  read-Pending ((o, c) ∷ rest) j k =
      (λ e. record { outcome = o; found = k.0; ended = e }, read-Pending rest j k.1)

  -- After a recovery that ends without an error, the journal on disk has an outcome that is not running
  -- for each job that it was read with, whatever the system did at each of them.
  pub recover_all_settles :
      (journal : Journal p canonical) (x : Books p canonical)
      → IsRead journal x.1
      → (recover_all p canonical journal x).1 ≡ ok tt
      → All (λ e. Answered e.0.job_id (recover_all p canonical journal x).0.1) journal
  recover_all_settles journal x k h = recover_all_answers journal x (read-Pending journal x.1 k) h
