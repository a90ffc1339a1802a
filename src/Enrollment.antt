-- ===== src/Enrollment.antt =====
-- enroll.go: the host asks the control plane for a code, shows it, and asks again and again whether it
-- was approved, until it is, or is denied, or the code expires. Times are nanoseconds.
pub mod Ends
pub mod Enrolled
mod Tests
use connectorhost.Common.{
  ℕ, zero, suc, ◌+◌, ◌*◌, ◌%◌, String, Bool, true, false, not, ◌&&◌, ◌||◌, Option, none, some, leb,
  ltb, ◌==◌, nat_eq, string_eq, if◌then◌else◌, is_some, Error, Result, ok, err, ◌>>=◌, ◌>>◌, guard,
  bad_origin, bad_enrollment_data, bad_verification_url, enrollment_expired, enrollment_denied,
  unknown_enrollment_status, no_host_credentials,
}
use connectorhost.Protocol.{Protocol}
use connectorhost.Policy.{AccessMode, parse_access_mode}
use connectorhost.Store.{State, Store, WriteOutcome, commit, set_enrollment}

-- What is used of `net/url` and `strings`: the parts of a URL that is read, `strings.TrimSuffix(s, "/")`,
-- and `strings.ToLower`.
pub record Origin : Type 0 where
  pub scheme : String
  pub host : String
  pub has_user : Bool
  pub path : String
  pub raw_query : String
  pub fragment : String

pub record Texts : Type 0 where
  pub parse_url : String → Option Origin
  pub trim_slash : String → String
  pub to_lower : String → String
  pub origin_of : String → String → String

-- hostDeviceCodeResponse
pub record DeviceCodeResponse : Type 0 where
  pub device_secret : String
  pub user_code : String
  pub verification_url : String
  pub expires_at : ℕ
  pub poll_interval_seconds : ℕ

-- hostEnrollmentResponse
pub record EnrollmentResponse : Type 0 where
  pub status : String
  pub host_id : String
  pub credential : String

-- One round of the loop: what enrollmentPost returns; how the sleep ends; and the time that the round
-- takes beyond the interval.
pub record Round : Type 0 where
  pub answer : Result EnrollmentResponse
  pub slept : Result (Unit {0})
  pub delay : ℕ

-- What is approved: the credential and the identity of the host.
abbrev pub Approval : Type 0
Approval = String × String

approved : EnrollmentResponse → Result Approval
approved r = do
  guard (not (r.host_id == "" || r.credential == "")) no_host_credentials
  ok (r.credential, r.host_id)

-- The switch over the status; `none` goes on with the loop.
unfoldable pub verdict : EnrollmentResponse → Option (Result Approval)
unfolding approved
verdict r =
    if r.status == "approved"
    then some (approved r)
    else if r.status == "pending"
    then none
    else if r.status == "denied"
    then some (err enrollment_denied)
    else if r.status == "expired"
    then some (err enrollment_expired)
    else some (err unknown_enrollment_status)

unfoldable pub after_sleep : Result (Unit {0}) → Option (Result Approval) → Option (Result Approval)
after_sleep (err e) rest = some (err e)
after_sleep (ok _) rest = rest

unfoldable pub decide :
    Option (Result Approval)
    → Result (Unit {0})
    → Option (Result Approval)
    → Option (Result Approval)
unfolding after_sleep
decide (some decided) slept rest = some decided
decide none slept rest = after_sleep slept rest

unfoldable pub answered :
    Result EnrollmentResponse
    → Result (Unit {0})
    → Option (Result Approval)
    → Option (Result Approval)
unfolding decide verdict
answered (err e) slept rest = some (err e)
answered (ok r) slept rest = decide (verdict r) slept rest

-- `time.Duration(n) * time.Second`, for an `n` from 1 on, as far as the sleep shows it: the product
-- wraps around in 64 bits, and a negative duration does not sleep at all.
unfoldable pub interval : ℕ → ℕ
interval seconds =
    let product = (seconds * 1000000000) % 18446744073709551616 in
    if ltb product 9223372036854775808 then product else 0

-- The loop, from the round `n` at the time `now`; `none` stands for no result within the fuel.
unfoldable pub poll : ℕ → (ℕ → Round) → DeviceCodeResponse → ℕ → ℕ → Option (Result Approval)
unfolding answered interval
poll zero rounds device n now = none
poll (suc fuel) rounds device n now =
    let round = rounds n in
    let rest =
      poll fuel rounds device (suc n) (now + interval device.poll_interval_seconds + round.delay) in
    if ltb now device.expires_at
    then answered round.answer round.slept rest
    else some (err enrollment_expired)

module _ (texts : Texts) where
  bare_path : String → Bool
  bare_path path = path == "" || path == "/"

  unfoldable pub is_origin : Option Origin → Bool
  unfolding bare_path
  is_origin none = false
  is_origin (some u) =
      u.scheme == "https"
      && not (u.host == "")
      && not u.has_user
      && bare_path u.path
      && u.raw_query == ""
      && u.fragment == ""

  -- normalizeAirlockOrigin
  unfoldable pub normalize_airlock_origin : String → Result String
  unfolding is_origin
  normalize_airlock_origin base = do
    guard (is_origin (texts.parse_url base)) bad_origin
    ok (texts.trim_slash base)

  unfoldable pub uses_origin : Option Origin → String → Bool
  uses_origin none base = false
  uses_origin (some u) base =
      not u.has_user && texts.to_lower (texts.origin_of u.scheme u.host) == texts.to_lower base

  -- The checks of the device code
  unfoldable pub check_device : DeviceCodeResponse → String → ℕ → Result (Unit {0})
  unfolding uses_origin
  check_device d base now = do
    guard
        (not (d.device_secret == "")
          && not (d.user_code == "")
          && ltb now d.expires_at
          && leb 1 d.poll_interval_seconds)
        bad_enrollment_data
    guard (uses_origin (texts.parse_url d.verification_url) base) bad_verification_url

  -- What happens before the loop: the answer with the device code, when it comes, and the prompt.
  pub record Opening : Type 0 where
    pub device : Result DeviceCodeResponse
    pub now : ℕ
    pub prompted : Result (Unit {0})

  -- All up to the loop: the origin and the device code
  unfoldable pub open_enrollment :
      Opening → String → AccessMode → Result (String × DeviceCodeResponse)
  unfolding normalize_airlock_origin check_device
  open_enrollment o url mode = do
    _ ← parse_access_mode mode
    base ← normalize_airlock_origin url
    d ← o.device
    check_device d base o.now
    o.prompted
    ok (base, d)

  module _ (p : Protocol) where
    open p use {Manifest}

    abbrev pub Ended : Type 0
    Ended = Store Manifest × Option (Result (Unit {0}))

    unfoldable pub store_approval :
        Store Manifest → WriteOutcome → String → AccessMode → Option (Result Approval) → Ended
    unfolding commit set_enrollment
    store_approval s w base mode none = (s, none)
    store_approval s w base mode (some (err e)) = (s, some (err e))
    store_approval s w base mode (some (ok (credential, host_id))) =
        let done = commit p s (set_enrollment p base credential host_id mode s.state) w in
        (done.0, some done.1)

    unfoldable pub enroll_opened :
        ℕ
        → (ℕ → Round)
        → Opening
        → Store Manifest
        → WriteOutcome
        → AccessMode
        → Result (String × DeviceCodeResponse)
        → Ended
    unfolding store_approval poll
    enroll_opened fuel rounds o s w mode (err e) = (s, some (err e))
    enroll_opened fuel rounds o s w mode (ok (base, d)) =
        store_approval s w base mode (poll fuel rounds d 0 o.now)

    -- EnrollWithPrompt
    unfoldable pub enroll_with_prompt :
        ℕ → (ℕ → Round) → Opening → Store Manifest → WriteOutcome → String → AccessMode → Ended
    unfolding enroll_opened open_enrollment
    enroll_with_prompt fuel rounds o s w url mode =
        enroll_opened fuel rounds o s w mode (open_enrollment o url mode)
