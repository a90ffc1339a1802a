-- ===== src/Enrollment/Ends.antt =====
-- The enrollment ends.
use connectorhost.Common.{
  ℕ, zero, suc, ◌+◌, ◌*◌, ◌≤◌, ◌≡◌, refl, sym, ap, ◌∙◌, String, true, false, Option, none, some,
  arith, ltb, is_some, Result, ok, err, inl, inr, Bool-cases, >>=-eq-ok, >>-eq-ok, ok-eq, subst,
}
use connectorhost.Protocol.{Protocol}
use connectorhost.Policy.{AccessMode, parse_access_mode}
use connectorhost.Store.{Store, WriteOutcome}
use connectorhost.Enrollment.{
  DeviceCodeResponse, EnrollmentResponse, Round, Approval, Texts, Opening, interval, verdict,
  decide, answered, poll, check_device, open_enrollment, normalize_airlock_origin, store_approval,
  enroll_opened, enroll_with_prompt,
}

answered-is_some :
    (answer : Result EnrollmentResponse) (slept : Result (Unit {0}))
    (rest : Option (Result Approval))
    → is_some rest ≡ true
    → is_some (answered answer slept rest) ≡ true
unfolding answered
answered-is_some (err e) slept rest h = refl
answered-is_some (ok r) slept rest h = decided (verdict r) slept
  where
    decided :
        (v : Option (Result Approval)) (s : Result (Unit {0})) → is_some (decide v s rest) ≡ true
    decided (some v) s = refl
    decided none (err e) = refl
    decided none (ok _) = h

-- The clock goes on by at least the interval in each round.
poll-is_some :
    (fuel : ℕ) (rounds : ℕ → Round) (d : DeviceCodeResponse) (n now : ℕ)
    → 1000000000 ≤ interval d.poll_interval_seconds
    → d.expires_at ≤ now + fuel * 1000000000
    → is_some (poll (suc fuel) rounds d n now) ≡ true
unfolding poll
poll-is_some zero rounds d n now i e =
    let late : ltb now d.expires_at ≡ false = ground (arith, e) in rw late refl
poll-is_some (suc fuel) rounds d n now i e = elim (Bool-cases (ltb now d.expires_at)) [
  | inr b ↦ rw b refl
  | inl b ↦ rw b (
      answered-is_some (rounds n).answer (rounds n).slept _ (
        poll-is_some fuel rounds d (suc n)
          (now + interval d.poll_interval_seconds + (rounds n).delay) i (omega (arith, e, i))))
]

-- An interval that a time.Duration can hold is a second at least.
interval-second : (n : ℕ) → 1 ≤ n → n ≤ 9223372036 → 1000000000 ≤ interval n
unfolding interval
interval-second n l u = ground (arith, l, u)

module _ (texts : Texts) where
  checked_device :
      (d : DeviceCodeResponse) (base : String) (now : ℕ)
      → check_device texts d base now ≡ ok tt
      → 1 ≤ d.poll_interval_seconds
  unfolding check_device
  checked_device d base now h = ground (arith, h)

  opened-device :
      (o : Opening texts) (url : String) (mode : AccessMode) (base : String)
      (d : DeviceCodeResponse)
      → open_enrollment texts o url mode ≡ ok (base, d)
      → (o.device ≡ ok d) × (1 ≤ d.poll_interval_seconds)
  unfolding open_enrollment
  opened-device o url mode base d h =
      let (_, _, h1) = >>=-eq-ok (parse_access_mode mode) _ h in
      let (b, _, h2) = >>=-eq-ok (normalize_airlock_origin texts url) _ h1 in
      let (x, from, h3) = >>=-eq-ok o.device _ h2 in
      let (good, h4) = >>-eq-ok (check_device texts x b o.now) _ h3 in
      let (_, h5) = >>-eq-ok o.prompted _ h4 in
      let same : x ≡ d = ap (λ (y : String × DeviceCodeResponse). y.1) (ok-eq h5) in
      (
        from ∙ ap ok same,
        subst (λ (y : DeviceCodeResponse). 1 ≤ y.poll_interval_seconds) same
            (checked_device x b o.now good),
      )

module _ (texts : Texts) (p : Protocol) where
  open p use {Manifest}

  store_approval-is_some :
      (s : Store Manifest) (w : WriteOutcome) (base : String) (mode : AccessMode)
      (a : Option (Result Approval))
      → is_some a ≡ true
      → is_some (store_approval texts p s w base mode a).1 ≡ true
  unfolding store_approval
  store_approval-is_some s w base mode none h = absurd (cc (h))
  store_approval-is_some s w base mode (some (err e)) h = refl
  store_approval-is_some s w base mode (some (ok a)) h = refl

  enroll_opened-is_some :
      (fuel : ℕ) (rounds : ℕ → Round) (o : Opening texts) (s : Store Manifest) (w : WriteOutcome)
      (mode : AccessMode) (opened : Result (String × DeviceCodeResponse))
      → ((base : String) (d : DeviceCodeResponse)
          → opened ≡ ok (base, d)
          → (1000000000 ≤ interval d.poll_interval_seconds)
            × (d.expires_at ≤ o.now + fuel * 1000000000))
      → is_some (enroll_opened texts p (suc fuel) rounds o s w mode opened).1 ≡ true
  unfolding enroll_opened
  enroll_opened-is_some fuel rounds o s w mode (err e) h = refl
  enroll_opened-is_some fuel rounds o s w mode (ok (base, d)) h =
      store_approval-is_some s w base mode _
        (poll-is_some fuel rounds d 0 o.now (h base d refl).0 (h base d refl).1)

  -- EnrollWithPrompt ends: where the interval of the device code is at most 9223372036 seconds, as many
  -- as a time.Duration can hold, whatever else the server answers and however long each round takes, it
  -- has a result after at most one round more than the seconds that the code is valid.
  pub enroll_with_prompt_ends :
      (rounds : ℕ → Round) (o : Opening texts) (s : Store Manifest) (w : WriteOutcome)
      (url : String) (mode : AccessMode) (d : DeviceCodeResponse) (fuel : ℕ)
      → o.device ≡ ok d
      → d.poll_interval_seconds ≤ 9223372036
      → d.expires_at ≤ o.now + fuel * 1000000000
      → is_some (enroll_with_prompt texts p (suc fuel) rounds o s w url mode).1 ≡ true
  unfolding enroll_with_prompt
  enroll_with_prompt_ends rounds o s w url mode d fuel g u e =
      enroll_opened-is_some fuel rounds o s w mode (open_enrollment texts o url mode)
        (λ base x h. bound x (opened-device texts o url mode base x h))
    where
      bound :
          (x : DeviceCodeResponse)
          → (o.device ≡ ok x) × (1 ≤ x.poll_interval_seconds)
          → (1000000000 ≤ interval x.poll_interval_seconds)
            × (x.expires_at ≤ o.now + fuel * 1000000000)
      bound x (from, one) =
          let same : d ≡ x = ok-eq (sym g ∙ from) in
          let small : x.poll_interval_seconds ≤ 9223372036 =
            subst (λ (y : DeviceCodeResponse). y.poll_interval_seconds ≤ 9223372036) same u in
          (
            interval-second x.poll_interval_seconds one small,
            subst (λ (y : DeviceCodeResponse). y.expires_at ≤ o.now + fuel * 1000000000) same e,
          )
