-- ===== src/Common/Results.antt =====
-- What a fallible function of the host returns: a value, or the error that it reports. Each
-- constructor of `Error` is one message of the source; `rejected` stands for the error that a
-- validator of the connector protocol returns, and `external` for one of the operating system.
use Prim.Native.String.{String}
use mathlib.Core.Path.{◌≡◌, refl}
use mathlib.Core.Logic.{◌⊎◌, inl, inr}
use mathlib.Core.Option.{some}
use mathlib.Core.Bool.{Bool, true, false}

pub data Error : Type 0 where
  bad_access_mode bad_installation_id bad_display_name display_name_required : Error
  bad_filename bad_settings digest_mismatch : Error
  incomplete_rollback rollback_digest_mismatch : Error
  unsupported_state key_mismatch bad_pending_identity pending_mismatch upsert_mismatch : Error
  pending_limit revision_exhausted : Error
  not_installed : String → Error
  pending_removal : String → Error
  duplicate_contract : String → String → String → Error
  contract_changed : Error
  response_mismatch removal_with_origins changed_without_revision upsert_without_connector : Error
  rejected external undecodable : Error
  output_too_large conflicting_replay queue_exhausted : Error
  offline : String → Error
  not_ready : String → Error
  attempt_limit duplicate_attempt : Error
  update_requires_existing already_installed install_limit no_rollback_slot : Error
  policy_denied bad_job identity_conflict interrupted no_durable_inventory : Error
  bad_handshake child_not_ready manifest_mismatch readiness_timeout : Error
  bad_expected_digest not_regular not_bounded not_executable sha256_mismatch : Error
  bad_digest_directory unsupported_child unsupported_target size_mismatch : Error
  manifest_digest_mismatch bad_artifact_url bad_artifact_size bad_artifact_path : Error
  bad_response manifest_too_large bad_manifest inspection_timeout : Error
  no_graceful_stop bad_child_message child_exited : Error
  bad_origin bad_enrollment_data bad_verification_url enrollment_expired : Error
  enrollment_denied unknown_enrollment_status no_host_credentials : Error
  bad_service_state service_not_installed service_stopped_early bad_pid : Error
  already_connected disconnected host_message_too_large : Error
  not_absolute filesystem_root not_a_directory state_directory_changed : Error
  bad_reset_marker no_host_state unexpected_entry : Error

pub data Result {ℓ} (T : Type ℓ) : Type ℓ where
  err : Error → Result T
  ok : T → Result T

abbrev pub is_ok {ℓ} : {T : Type ℓ} → Result T → Bool
is_ok (err failure) = false
is_ok (ok value) = true

-- `if !b { return e }`
abbrev pub guard : Bool → Error → Result (Unit {0})
guard false failure = err failure
guard true failure = ok tt

infixl 5 ◌>>=◌ ◌>>◌
abbrev pub ◌>>=◌ {ℓ κ} : {T : Type ℓ} {R : Type κ} → Result T → (T → Result R) → Result R
err failure >>= next = err failure
ok value >>= next = next value

abbrev pub ◌>>◌ {ℓ} : {R : Type ℓ} → Result (Unit {0}) → Result R → Result R
err failure >> next = err failure
ok _ >> next = next

pub Result-cases {ℓ} :
    {A : Type ℓ} (r : Result A) → ((a : A) × (r ≡ ok a)) ⊎ ((e : Error) × (r ≡ err e))
Result-cases (ok a) = inl (a, refl)
Result-cases (err e) = inr (e, refl)

-- A chain that ends well has passed its first step.
pub >>=-eq-ok {ℓ κ} :
    {T : Type ℓ} {R : Type κ} (first : Result T) (next : T → Result R) {value : R}
    → (first >>= next) ≡ ok value
    → (x : T) × (first ≡ ok x) × (next x ≡ ok value)
>>=-eq-ok (err failure) next e = cc
>>=-eq-ok (ok x) next e = (x, refl, e)

pub guard-eq-ok {ℓ} :
    {B : Type ℓ} (t : Bool) (e : Error) (k : Result B) {b : B}
    → (guard t e >> k) ≡ ok b
    → (t ≡ true) × (k ≡ ok b)
guard-eq-ok true e k h = (refl, h)
guard-eq-ok false e k h = cc

pub ok-eq {ℓ} : {T : Type ℓ} {x y : T} → ok x ≡ ok y → x ≡ y
ok-eq e = cc

pub >>-eq-ok {ℓ} :
    {R : Type ℓ} (first : Result (Unit {0})) (next : Result R) {value : R}
    → (first >> next) ≡ ok value
    → (first ≡ ok tt) × (next ≡ ok value)
>>-eq-ok (err failure) next e = absurd (cc (e))
>>-eq-ok (ok x) next e = (refl, e)

pub some-eq {ℓ} : {T : Type ℓ} {x y : T} → some x ≡ some y → x ≡ y
some-eq e = cc
