-- ===== src/Enrollment/Enrolled.antt =====
-- What a host has after it was enrolled.
use connectorhost.Common.{
  ℕ, zero, suc, ◌+◌, ◌≡◌, refl, sym, ap, ◌∙◌, subst, String, true, false, not, ◌||◌, Option, none,
  some, arith, ltb, ◌==◌, string_eq, Result, ok, err, Bool-cases, inl, inr, ok-eq, some-eq,
  guard-eq-ok, >>=-eq-ok,
}
use connectorhost.Protocol.{Protocol}
use connectorhost.Policy.{AccessMode, parse_access_mode}
use connectorhost.Store.{State, Store, WriteOutcome, set_enrollment}
use connectorhost.Store.Commit.{commit_durable}
use connectorhost.Enrollment.{
  DeviceCodeResponse, EnrollmentResponse, Round, Approval, Texts, Opening, approved, verdict,
  interval, after_sleep, decide, answered, poll, open_enrollment, store_approval, enroll_opened,
  enroll_with_prompt,
}

-- The answer of a round that approves the host: it names the host and has a credential.
pub record Approves (rounds : ℕ → Round) (a : Approval) : Type 0 where
  pub round : ℕ
  pub response : EnrollmentResponse
  pub from : (rounds round).answer ≡ ok response
  pub says : (response.status == "approved") ≡ true
  pub credential : a.0 ≡ response.credential
  pub host_id : a.1 ≡ response.host_id
  pub complete : (response.host_id == "" || response.credential == "") ≡ false

module _ (rounds : ℕ → Round) (a : Approval) where
  approved-Approves :
      (n : ℕ) (r : EnrollmentResponse)
      → (rounds n).answer ≡ ok r
      → (r.status == "approved") ≡ true
      → approved r ≡ ok a
      → Approves rounds a
  unfolding approved
  approved-Approves n r e s h =
      let (good, last) = guard-eq-ok (not (r.host_id == "" || r.credential == "")) _ _ h in
      record {
        round = n;
        response = r;
        from = e;
        says = s;
        credential = ap (λ (x : Approval). x.0) (sym (ok-eq last));
        host_id = ap (λ (x : Approval). x.1) (sym (ok-eq last));
        complete = ground (arith, good);
      }

  verdict-Approves :
      (n : ℕ) (r : EnrollmentResponse)
      → (rounds n).answer ≡ ok r
      → verdict r ≡ some (ok a)
      → Approves rounds a
  unfolding verdict
  verdict-Approves n r e h = elim (Bool-cases (r.status == "approved")) [
    | inl s ↦ approved-Approves n r e s (some-eq (rw s at h))
    | inr s ↦ absurd (ground (arith, s, h))
  ]

  decide-Approves :
      (n : ℕ) (r : EnrollmentResponse) (v : Option (Result Approval)) (slept : Result (Unit {0}))
      (rest : Option (Result Approval))
      → (rounds n).answer ≡ ok r
      → verdict r ≡ v
      → (rest ≡ some (ok a) → Approves rounds a)
      → decide v slept rest ≡ some (ok a)
      → Approves rounds a
  unfolding decide after_sleep
  decide-Approves n r (some v) slept rest e f later h = verdict-Approves n r e (f ∙ h)
  decide-Approves n r none (err x) rest e f later h = absurd (cc (h))
  decide-Approves n r none (ok _) rest e f later h = later h

  answered-Approves :
      (n : ℕ) (answer : Result EnrollmentResponse) (slept : Result (Unit {0}))
      (rest : Option (Result Approval))
      → (rounds n).answer ≡ answer
      → (rest ≡ some (ok a) → Approves rounds a)
      → answered answer slept rest ≡ some (ok a)
      → Approves rounds a
  unfolding answered
  answered-Approves n (err x) slept rest e later h = absurd (cc (h))
  answered-Approves n (ok r) slept rest e later h =
      decide-Approves n r (verdict r) slept rest e refl later h

  poll-Approves :
      (fuel : ℕ) (d : DeviceCodeResponse) (n now : ℕ)
      → poll fuel rounds d n now ≡ some (ok a)
      → Approves rounds a
  unfolding poll
  poll-Approves zero d n now h = absurd (cc (h))
  poll-Approves (suc fuel) d n now h = elim (Bool-cases (ltb now d.expires_at)) [
    | inr b ↦ absurd (ground (arith, b, h))
    | inl b ↦
        answered-Approves n (rounds n).answer (rounds n).slept _ refl
          (poll-Approves fuel d (suc n) (now + interval d.poll_interval_seconds + (rounds n).delay))
          (rw b at h)
  ]

module _ (texts : Texts) (p : Protocol) where
  open p use {Manifest}

  -- The Store of a host that was enrolled: memory and host.json agree, and have the origin, the mode,
  -- and what the round that approved the host has given.
  pub record IsEnrolled (rounds : ℕ → Round) (o : Opening texts) (url : String) (mode : AccessMode)
      (after : Store Manifest) : Type 0 where
    pub base : String
    pub device : DeviceCodeResponse
    pub opened : open_enrollment texts o url mode ≡ ok (base, device)
    pub approval : Approval
    pub approves : Approves rounds approval
    pub durable : after.disk ≡ some after.state
    pub origin : after.state.airlock_url ≡ base
    pub credential : after.state.credential ≡ approval.0
    pub host_id : after.state.host_id ≡ approval.1
    pub access_mode : after.state.access_mode ≡ mode

  record Enrolls (base credential host_id : String) (mode : AccessMode) (next : State Manifest)
      : Type 0 where
    has_url : next.airlock_url ≡ base
    has_credential : next.credential ≡ credential
    has_host_id : next.host_id ≡ host_id
    has_mode : next.access_mode ≡ mode

  set_enrollment-Enrolls :
      (base credential host_id : String) (mode : AccessMode) (st next : State Manifest)
      → set_enrollment p base credential host_id mode st ≡ ok (next, tt)
      → Enrolls base credential host_id mode next
  unfolding set_enrollment
  set_enrollment-Enrolls base credential host_id mode st next h =
      let (_, _, last) = >>=-eq-ok (parse_access_mode mode) _ h in
      let same = ap (λ (x : State Manifest × Unit {0}). x.0) (sym (ok-eq last)) in
      record {
        has_url = ap (λ (x : State Manifest). x.airlock_url) same;
        has_credential = ap (λ (x : State Manifest). x.credential) same;
        has_host_id = ap (λ (x : State Manifest). x.host_id) same;
        has_mode = ap (λ (x : State Manifest). x.access_mode) same;
      }

  stored-IsEnrolled :
      (rounds : ℕ → Round) (o : Opening texts) (s : Store Manifest) (w : WriteOutcome)
      (url : String) (mode : AccessMode) (base : String) (d : DeviceCodeResponse)
      (a : Option (Result Approval))
      → open_enrollment texts o url mode ≡ ok (base, d)
      → ((x : Approval) → a ≡ some (ok x) → Approves rounds x)
      → (store_approval texts p s w base mode a).1 ≡ some (ok tt)
      → IsEnrolled rounds o url mode (store_approval texts p s w base mode a).0
  unfolding store_approval
  stored-IsEnrolled rounds o s w url mode base d none e f h = absurd (cc (h))
  stored-IsEnrolled rounds o s w url mode base d (some (err x)) e f h = absurd (cc (h))
  stored-IsEnrolled rounds o s w url mode base d (some (ok (credential, host_id))) e f h =
      let (next, planned, same) =
        commit_durable p s (set_enrollment p base credential host_id mode s.state) w tt
          (some-eq h) in
      let k = set_enrollment-Enrolls base credential host_id mode s.state next planned in
      subst (IsEnrolled rounds o url mode) (sym same) (record {
        base = base;
        device = d;
        opened = e;
        approval = (credential, host_id);
        approves = f (credential, host_id) refl;
        durable = refl;
        origin = k.has_url;
        credential = k.has_credential;
        host_id = k.has_host_id;
        access_mode = k.has_mode;
      })

  opened-IsEnrolled :
      (fuel : ℕ) (rounds : ℕ → Round) (o : Opening texts) (s : Store Manifest) (w : WriteOutcome)
      (url : String) (mode : AccessMode) (opened : Result (String × DeviceCodeResponse))
      → open_enrollment texts o url mode ≡ opened
      → (enroll_opened texts p fuel rounds o s w mode opened).1 ≡ some (ok tt)
      → IsEnrolled rounds o url mode (enroll_opened texts p fuel rounds o s w mode opened).0
  unfolding enroll_opened
  opened-IsEnrolled fuel rounds o s w url mode (err x) e h = absurd (cc (h))
  opened-IsEnrolled fuel rounds o s w url mode (ok (base, d)) e h =
      stored-IsEnrolled rounds o s w url mode base d (poll fuel rounds d 0 o.now) e
        (λ x. poll-Approves rounds x fuel d 0 o.now) h

  -- EnrollWithPrompt, when it reports success: memory and host.json agree, and have the normalized
  -- origin, the given mode, and the credential and the identity, both not empty, that the server has
  -- given in a round in which it said that the enrollment is approved.
  pub enroll_with_prompt-IsEnrolled :
      (fuel : ℕ) (rounds : ℕ → Round) (o : Opening texts) (s : Store Manifest) (w : WriteOutcome)
      (url : String) (mode : AccessMode)
      → (enroll_with_prompt texts p fuel rounds o s w url mode).1 ≡ some (ok tt)
      → IsEnrolled rounds o url mode (enroll_with_prompt texts p fuel rounds o s w url mode).0
  unfolding enroll_with_prompt
  enroll_with_prompt-IsEnrolled fuel rounds o s w url mode h =
      opened-IsEnrolled fuel rounds o s w url mode (open_enrollment texts o url mode) refl h
