-- ===== src/Supervisor/Watching/Reported.antt =====
-- No job of a child is lost: each is reported as completed, by the child or after its end.
use connectorhost.Common.{
  ◌≡◌, refl, ap, ◌∙◌, subst, inl, inr, String, Bool, true, false, ◌&&◌, ◌||◌, Option, none, some,
  List, [], ◌∷◌, ◌++◌, arith, eq_iff, ◌==◌, string_eq, is_some, Result, ok, err, All, Bool-cases,
}
use connectorhost.Dict.{Dict, lookup, delete, lookup-delete, Distinct, delete-Distinct}
use connectorhost.Supervisor.{Job, Child, remove_job}
use connectorhost.Supervisor.Dispatching.{delete-absent}
use connectorhost.Supervisor.Watching.{
  Message, event, completion, ready, other, Report, Heard, hear_event, hear_completion, hear,
  hear_next, hear_all, settle_jobs, settle_child, watch_child,
}

-- Whether the completion of an attempt is among the reports.
abbrev pub reported : String → List Report → Bool
reported token [] = false
reported token (r ∷ rs) = (r.is_completion && r.attempt_token == token) || reported token rs

reported-append :
    (token : String) (a b : List Report)
    → reported token (a ++ b) ≡ (reported token a || reported token b)
reported-append token [] b = refl
reported-append token (r ∷ a) b = ground (arith, reported-append token a b)

delete-All : (P : String × Job → Type 0) (t : String) (d : Dict Job) → All P d → All P (delete t d)
unfolding delete
delete-All P t [] a = tt
delete-All P t ((k, j) ∷ d) a = elim (Bool-cases (k == t)) [
  | inl e ↦ rw e (delete-All P t d a.1)
  | inr e ↦ rw e (a.0, delete-All P t d a.1)
]

delete_first :
    (t k : String) (j : Job) (jobs : Dict Job)
    → k ≡ t
    → lookup k jobs ≡ none
    → delete t ((k, j) ∷ jobs) ≡ jobs
unfolding delete
delete_first t k j jobs e n =
    subst (λ (x : String). delete x ((k, j) ∷ jobs) ≡ jobs) e
      (ground (arith, eq_iff k k, delete-absent k jobs n))

module _ {M : Type 0} where
  abbrev pub has : String → Child M → Bool
  has token c = is_some (lookup token c.active)

  -- The table of the jobs has each under its own token, once.
  pub record IsKeyed (c : Child M) : Type 0 where
    pub distinct : Distinct c.active
    pub own : All (λ (e : String × Job). e.0 ≡ e.1.attempt_token) c.active

  has-remove :
      (token other_token : String) (c : Child M)
      → has token c ≡ true
      → (has token (remove_job other_token c) || other_token == token) ≡ true
  unfolding remove_job
  has-remove token t c h = ground (arith, lookup-delete t token c.active, h)

  remove-IsKeyed : (t : String) (c : Child M) → IsKeyed c → IsKeyed (remove_job t c)
  unfolding remove_job
  remove-IsKeyed t c k = record {
    distinct = delete-Distinct t c.active k.distinct;
    own = delete-All (λ e. e.0 ≡ e.1.attempt_token) t c.active k.own;
  }

  -- A job that was there is there, or is reported.
  event-keeps :
      (id token t : String) (c : Child M) (found : Option Job) (sink : Result (Unit {0}))
      → has t c ≡ true
      → let x = hear_event id token c found sink in ((has t x.child || reported t x.reports) ≡ true)
  unfolding hear_event
  event-keeps id token t c none sink h = ground (arith, h)
  event-keeps id token t c (some j) sink h = ground (arith, h)

  completion-keeps :
      (id token status t : String) (c : Child M) (found : Option Job) (sink : Result (Unit {0}))
      → lookup token c.active ≡ found
      → has t c ≡ true
      → let x = hear_completion id token status c found sink in
        ((has t x.child || reported t x.reports) ≡ true)
  unfolding hear_completion
  completion-keeps id token status t c none sink e h =
      ground (arith, has-remove t token c h, h, e, eq_iff token t)
  completion-keeps id token status t c (some j) (err x) e h = ground (arith, h)
  completion-keeps id token status t c (some j) (ok _) e h = ground (arith, has-remove t token c h)

  hear-keeps :
      (id t : String) (c : Child M) (m : Message M) (sink : Result (Unit {0}))
      → has t c ≡ true
      → let x = hear id c m sink in ((has t x.child || reported t x.reports) ≡ true)
  unfolding hear
  hear-keeps id t c (event token) sink h = event-keeps id token t c (lookup token c.active) sink h
  hear-keeps id t c (completion token status) sink h =
      completion-keeps id token status t c (lookup token c.active) sink refl h
  hear-keeps id t c (ready manifest is_ready) sink h = ground (arith, h)
  hear-keeps id t c other sink h = ground (arith, h)

  event-IsKeyed :
      (id token : String) (c : Child M) (found : Option Job) (sink : Result (Unit {0}))
      → IsKeyed c
      → IsKeyed (hear_event id token c found sink).child
  unfolding hear_event
  event-IsKeyed id token c none sink k = k
  event-IsKeyed id token c (some j) sink k = k

  completion-IsKeyed :
      (id token status : String) (c : Child M) (found : Option Job) (sink : Result (Unit {0}))
      → IsKeyed c
      → IsKeyed (hear_completion id token status c found sink).child
  unfolding hear_completion
  completion-IsKeyed id token status c none sink k = remove-IsKeyed token c k
  completion-IsKeyed id token status c (some j) (err e) k = k
  completion-IsKeyed id token status c (some j) (ok _) k = remove-IsKeyed token c k

  hear-IsKeyed :
      (id : String) (c : Child M) (m : Message M) (sink : Result (Unit {0}))
      → IsKeyed c
      → IsKeyed (hear id c m sink).child
  unfolding hear
  hear-IsKeyed id c (event token) sink k = event-IsKeyed id token c (lookup token c.active) sink k
  hear-IsKeyed id c (completion token status) sink k =
      completion-IsKeyed id token status c (lookup token c.active) sink k
  hear-IsKeyed id c (ready manifest is_ready) sink k = record { distinct = k.distinct; own = k.own }
  hear-IsKeyed id c other sink k = k

  next-IsKeyed :
      (x : Heard M) (next : Child M → Child M × List Report)
      → IsKeyed x.child
      → IsKeyed (next x.child).0
      → IsKeyed (hear_next x next).0
  unfolding hear_next
  next-IsKeyed x next k l = elim (Bool-cases x.reads_on) [ inl e ↦ rw e l | inr e ↦ rw e k ]

  hear_all-IsKeyed :
      (id : String) (messages : List (Message M × Result (Unit {0}))) (c : Child M)
      → IsKeyed c
      → IsKeyed (hear_all id messages c).0
  unfolding hear_all
  hear_all-IsKeyed id [] c k = k
  hear_all-IsKeyed id ((m, sink) ∷ rest) c k =
      let kept = hear-IsKeyed id c m sink k in
      next-IsKeyed (hear id c m sink) (hear_all id rest) kept
        (hear_all-IsKeyed id rest (hear id c m sink).child kept)

  next-keeps :
      (t : String) (x : Heard M) (next : Child M → Child M × List Report)
      → (has t x.child || reported t x.reports) ≡ true
      → (has t x.child ≡ true → (has t (next x.child).0 || reported t (next x.child).1) ≡ true)
      → let y = hear_next x next in ((has t y.0 || reported t y.1) ≡ true)
  unfolding hear_next
  next-keeps t x next h k = elim (Bool-cases x.reads_on) [
    | inl e ↦ rw e (ground (arith, h, k, reported-append t x.reports (next x.child).1))
    | inr e ↦ rw e h
  ]

  hear_all-keeps :
      (id t : String) (messages : List (Message M × Result (Unit {0}))) (c : Child M)
      → has t c ≡ true
      → let y = hear_all id messages c in ((has t y.0 || reported t y.1) ≡ true)
  unfolding hear_all
  hear_all-keeps id t [] c h = ground (arith, h)
  hear_all-keeps id t ((m, sink) ∷ rest) c h =
      next-keeps t (hear id c m sink) (hear_all id rest) (hear-keeps id t c m sink h)
        (hear_all-keeps id t rest (hear id c m sink).child)

  -- The loop of settleChild over the whole table empties it.
  settle_jobs-empty :
      (id : String) (jobs : Dict Job) (c : Child M)
      → c.active ≡ jobs
      → Distinct jobs
      → All (λ (e : String × Job). e.0 ≡ e.1.attempt_token) jobs
      → (settle_jobs id jobs c).0.active ≡ []
  unfolding settle_jobs remove_job
  settle_jobs-empty id [] c e d a = e
  settle_jobs-empty id ((t, j) ∷ jobs) c e d a =
      settle_jobs-empty id jobs (remove_job j.attempt_token c)
        (ap (delete j.attempt_token) e ∙ delete_first j.attempt_token t j jobs a.0 d.0) d.1 a.1

  settle_jobs-reported :
      (id t : String) (jobs : Dict Job) (c : Child M)
      → is_some (lookup t jobs) ≡ true
      → All (λ (e : String × Job). e.0 ≡ e.1.attempt_token) jobs
      → reported t (settle_jobs id jobs c).1 ≡ true
  unfolding settle_jobs lookup
  settle_jobs-reported id t [] c h a = absurd (ground (arith, h))
  settle_jobs-reported id t ((k, j) ∷ jobs) c h a = ground (
    arith,
    a.0,
    settle_jobs-reported id t jobs (remove_job j.attempt_token c),
    h,
    a.1,
    eq_iff k t,
  )

  -- However a child ends, whatever it sends and whatever the sink answers: no job is recorded of it at
  -- the end, and the completion of each job that was, is reported to the sink.
  pub watch_child_settles :
      (id t : String) (messages : List (Message M × Result (Unit {0}))) (c : Child M)
      → IsKeyed c
      → has t c ≡ true
      → ((watch_child id messages c).0.active ≡ [])
        × (reported t (watch_child id messages c).1 ≡ true)
  unfolding watch_child settle_child
  watch_child_settles id t messages c k h =
      let heard = hear_all id messages c in
      let kept = hear_all-IsKeyed id messages c k in
      (
        settle_jobs-empty id heard.0.active heard.0 refl kept.distinct kept.own,
        ground (
          arith,
          hear_all-keeps id t messages c h,
          reported-append t heard.1 (settle_jobs id heard.0.active heard.0).1,
          settle_jobs-reported id t heard.0.active heard.0,
          kept.own,
        ),
      )
