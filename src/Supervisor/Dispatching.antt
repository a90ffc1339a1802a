-- ===== src/Supervisor/Dispatching.antt =====
-- What Dispatch does to the jobs that are recorded.
use connectorhost.Common.{
  ℕ, suc, ◌+◌, ◌≤◌, ◌≡◌, refl, sym, ap, ◌∙◌, inl, inr, String, true, Option, none, some, [], ◌∷◌,
  arith, eq_iff, string_eq, leb, length, Error, Result, ok, err, Bool-cases, Option-cases, subst,
}
use connectorhost.Dict.{Dict, lookup, insert, delete, lookup-insert_self}
use connectorhost.Supervisor.{
  Job, Child, Children, active_count, remove_job, add_job, send_job, dispatch_to, dispatch,
}

module _ {V : Type 0} where
  pub delete-absent : (k : String) (m : Dict V) → lookup k m ≡ none → delete k m ≡ m
  unfolding lookup delete
  delete-absent k [] e = refl
  delete-absent k ((j, v) ∷ m) e = ground (arith, delete-absent k m)

  delete-insert :
      (k : String) (v : V) (m : Dict V) → lookup k m ≡ none → delete k (insert k v m) ≡ m
  unfolding lookup delete insert
  delete-insert k v [] e = ground (arith, eq_iff k k)
  delete-insert k v ((j, w) ∷ m) e = ground (arith, delete-insert k v m)

  insert_same : (k : String) (v : V) (m : Dict V) → lookup k m ≡ some v → insert k v m ≡ m
  unfolding lookup insert
  insert_same k v [] e = cc
  insert_same k v ((j, w) ∷ m) e = ground (arith, insert_same k v m, eq_iff j k)

  length-insert_absent :
      (k : String) (v : V) (m : Dict V) → lookup k m ≡ none → length (insert k v m) ≡ suc (length m)
  unfolding lookup insert
  length-insert_absent k v [] e = refl
  length-insert_absent k v ((j, w) ∷ m) e = ground (arith, length-insert_absent k v m)

module _ {M : Type 0} where
  active_count-insert :
      (id : String) (new old : Child M) (children : Children M)
      → lookup id children ≡ some old
      → active_count (insert id new children) + length old.active
        ≡ active_count children + length new.active
  unfolding active_count insert lookup
  active_count-insert id new old [] e = cc
  active_count-insert id new old ((j, c) ∷ children) e =
      ground (arith, active_count-insert id new old children, eq_iff j id)

  -- What holds when a job was dispatched.
  pub record Dispatched (id : String) (job : Job) (before after : Children M) : Type 0 where
    pub child : Child M
    pub found : lookup id before ≡ some child
    pub was_ready : child.ready ≡ true
    pub fresh : lookup job.attempt_token child.active ≡ none
    pub now : Child M
    pub stored : lookup id after ≡ some now
    pub recorded : lookup job.attempt_token now.active ≡ some job
    pub counted : active_count after ≡ active_count before + 1

  send_job-err :
      (children : Children M) (id : String) (job : Job) (child : Child M)
      (write : Result (Unit {0})) (e : Error)
      → lookup id children ≡ some child
      → lookup job.attempt_token child.active ≡ none
      → (send_job children id job child write).1 ≡ err e
      → (send_job children id job child write).0 ≡ children
  unfolding send_job add_job remove_job
  send_job-err children id job child (ok t) e f n h = cc
  send_job-err children id job child (err x) e f n h =
      ap (λ (a : Dict Job). insert id (record child { active = a }) children)
        (delete-insert job.attempt_token job child.active n)
      ∙ insert_same id child children f

  send_job-Dispatched :
      (children : Children M) (id : String) (job : Job) (child : Child M)
      (write : Result (Unit {0}))
      → lookup id children ≡ some child
      → child.ready ≡ true
      → lookup job.attempt_token child.active ≡ none
      → (send_job children id job child write).1 ≡ ok tt
      → Dispatched id job children (send_job children id job child write).0
  unfolding send_job add_job
  send_job-Dispatched children id job child (err x) f r n h = absurd (cc (h))
  send_job-Dispatched children id job child (ok t) f r n h = record {
    child = child;
    found = f;
    was_ready = r;
    fresh = n;
    now = record child { active = insert job.attempt_token job child.active };
    stored = lookup-insert_self id _ children;
    recorded = lookup-insert_self job.attempt_token job child.active;
    counted = omega (
      arith,
      active_count-insert id (record child { active = insert job.attempt_token job child.active })
          child children f,
      length-insert_absent job.attempt_token job child.active n,
    );
  }

  to-err :
      (children : Children M) (id : String) (job : Job) (found : Option (Child M))
      (write : Result (Unit {0})) (e : Error)
      → lookup id children ≡ found
      → (dispatch_to children id job found write).1 ≡ err e
      → (dispatch_to children id job found write).0 ≡ children
  unfolding dispatch_to
  to-err children id job none write e f h = refl
  to-err children id job (some child) write e f h =
      elim (Option-cases (lookup job.attempt_token child.active)) [
        | inl n ↦ ground (arith, n, send_job-err children id job child write e f n)
        | inr (j, n) ↦ ground (arith, n)
      ]

  -- A dispatch that fails, be it that the message cannot be written, leaves the recorded jobs as they
  -- were.
  pub dispatch-err :
      (max_active_attempts : ℕ) (children : Children M) (id : String) (job : Job)
      (write : Result (Unit {0})) (e : Error)
      → (dispatch max_active_attempts children id job write).1 ≡ err e
      → (dispatch max_active_attempts children id job write).0 ≡ children
  unfolding dispatch
  dispatch-err n children id job write e h = elim (Bool-cases (leb n (active_count children))) [
    | inl b ↦ rw b refl
    | inr b ↦ rw b (to-err children id job (lookup id children) write e refl (rw b at h))
  ]

  to-Dispatched :
      (children : Children M) (id : String) (job : Job) (found : Option (Child M))
      (write : Result (Unit {0}))
      → lookup id children ≡ found
      → (dispatch_to children id job found write).1 ≡ ok tt
      → Dispatched id job children (dispatch_to children id job found write).0
  unfolding dispatch_to
  to-Dispatched children id job none write f h = absurd (cc (h))
  to-Dispatched children id job (some child) write f h = elim (Bool-cases child.ready) [
    | inr r ↦ absurd (ground (arith, r, h))
    | inl r ↦ elim (Option-cases (lookup job.attempt_token child.active)) [
      | inr (j, n) ↦ absurd (ground (arith, r, n, h))
      | inl n ↦
          let sent : dispatch_to children id job (some child) write
              ≡ send_job children id job child write =
            ground (arith, r, n) in
          subst (λ (x : Children M × Result (Unit {0})). Dispatched id job children x.0) (sym sent)
            (send_job-Dispatched children id job child write f r n
              (ap (λ (x : Children M × Result (Unit {0})). x.1) (sym sent) ∙ h))
    ]
  ]

  -- A dispatch that succeeds goes to a child that is there and ready and has no job of that attempt; the
  -- job is recorded there, and one more job is counted, which is still within MaxActiveAttempts.
  pub dispatch-Dispatched :
      (max_active_attempts : ℕ) (children : Children M) (id : String) (job : Job)
      (write : Result (Unit {0}))
      → (dispatch max_active_attempts children id job write).1 ≡ ok tt
      → Dispatched id job children (dispatch max_active_attempts children id job write).0
        × (active_count (dispatch max_active_attempts children id job write).0
            ≤ max_active_attempts)
  unfolding dispatch
  dispatch-Dispatched n children id job write h =
      elim (Bool-cases (leb n (active_count children))) [
        | inl b ↦ absurd (ground (arith, b, h))
        | inr b ↦
            let d = to-Dispatched children id job (lookup id children) write refl (rw b at h) in
            rw b (d, ground (arith, d.counted))
      ]
