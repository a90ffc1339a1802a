-- ===== src/Enrollment/Tests.antt =====
-- Tests of the enrollment, and its theorems at concrete inputs.
use connectorhost.Common.{arith, ℕ, zero, suc, ◌≡◌, refl, true, false, some, is_some, ok}
use connectorhost.Samples.{demo, blank}
use connectorhost.Policy.{full, parse_access_mode}
use connectorhost.Store.{written, commit, check_candidate, check_removals, set_enrollment}
use connectorhost.Contracts.{validate_singleton_contracts}
use connectorhost.Enrollment.{Texts, DeviceCodeResponse, Round, Opening, enroll_with_prompt}
use connectorhost.Enrollment.Ends.{enroll_with_prompt_ends}
use connectorhost.Enrollment.Enrolled.{IsEnrolled, enroll_with_prompt-IsEnrolled}

abbrev sample_texts : Texts
sample_texts = record {
  parse_url = λ url. some (record {
    scheme = "https";
    host = "airlock";
    has_user = false;
    path = "";
    raw_query = "";
    fragment = "";
  });
  trim_slash = λ s. s;
  to_lower = λ s. s;
  origin_of = λ scheme host. "https://airlock";
}

abbrev sample_device : DeviceCodeResponse
sample_device = record {
  device_secret = "s";
  user_code = "c";
  verification_url = "https://airlock/verify";
  expires_at = 110000000000;
  poll_interval_seconds = 5;
}

-- Pending once, then approved.
abbrev pending_round : Round
pending_round = record {
  answer = ok (record { status = "pending"; host_id = ""; credential = "" });
  slept = ok tt;
  delay = 1;
}

abbrev approved_round : Round
approved_round = record {
  answer = ok (record { status = "approved"; host_id = "h"; credential = "k" });
  slept = ok tt;
  delay = 0;
}

abbrev sample_rounds : ℕ → Round
sample_rounds zero = pending_round
sample_rounds (suc n) = approved_round

abbrev sample_opening : Opening sample_texts
sample_opening = record { device = ok sample_device; now = 100000000000; prompted = ok tt }

enroll_with_prompt_ends_example :
    is_some
      (enroll_with_prompt sample_texts demo 11 sample_rounds sample_opening blank written
        "https://airlock" full).1
    ≡ true
enroll_with_prompt_ends_example =
    enroll_with_prompt_ends sample_texts demo sample_rounds sample_opening blank written
      "https://airlock" full sample_device 10 refl (omega arith) (omega arith)

enroll_with_prompt-IsEnrolled_example :
    IsEnrolled sample_texts demo sample_rounds sample_opening "https://airlock" full
      (enroll_with_prompt sample_texts demo 11 sample_rounds sample_opening blank written
        "https://airlock" full).0
unfolding enroll_with_prompt parse_access_mode commit check_candidate check_removals set_enrollment
    validate_singleton_contracts
enroll_with_prompt-IsEnrolled_example =
    enroll_with_prompt-IsEnrolled sample_texts demo 11 sample_rounds sample_opening blank written
      "https://airlock" full refl
