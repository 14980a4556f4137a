-- ===== src/Policy/Tests.antt =====
-- Tests of the decision table, and the theorems at concrete failures.
use agent_reliability_platfo.Base.{◌+◌, ◌*◌, ◌^◌, ◌≡◌, refl, arith}
use agent_reliability_platfo.Shared.Enums.{FailureCode, resume, abort}
use agent_reliability_platfo.Policy.{
  PolicyInput, decided, decide_policy, backoff_delay, model_failures,
}
use agent_reliability_platfo.Policy.Laws.{total_backoff, total_backoff-model_failures}

abbrev limited : PolicyInput
limited = record { failure_code = FailureCode.model_rate_limit; attempt_no = 2; max_attempts = 3 }

abbrev tampered : PolicyInput
tampered = record {
  failure_code = FailureCode.verify_test_tampering;
  attempt_no = 3;
  max_attempts = 3;
}

limited_resumes : decide_policy limited ≡ record {
  action = resume;
  reason = decided FailureCode.model_rate_limit 2 3 resume;
  backoff_ms = 60_000;
}
unfolding decide_policy backoff_delay
limited_resumes = refl

tampered_aborts : (decide_policy tampered).action ≡ abort
unfolding decide_policy
tampered_aborts = refl

total_backoff-model_failures_example :
    total_backoff FailureCode.model_api_error 4 3 + 30_000 ≡ 30_000 * 2 ^ 3
unfolding model_failures
total_backoff-model_failures_example =
    total_backoff-model_failures FailureCode.model_api_error refl 3 3 (omega arith)
