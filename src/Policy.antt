-- ===== src/Policy.antt =====
-- apps/control-plane/src/modules/policy/policy-engine.ts: the decision table for failed attempts.
pub mod Laws
mod Tests
use agent_reliability_platfo.Base.{
  ℕ, zero, suc, ◌*◌, ◌^◌, Bool, ◌&&◌, List, [], ◌∷◌, leb, if◌then◌else◌,
}
use agent_reliability_platfo.Shared.Enums.{
  FailureCode, PolicyAction, ◌===◌, includes, failure_code_enum, policy_action_enum, resume,
  restart_attempt, escalate_human, abort,
}

pub record PolicyInput : Type 0 where
  pub failure_code : FailureCode
  pub attempt_no : ℕ
  pub max_attempts : ℕ

-- The text of a decision, as the values that its template is filled with.
pub data Reason : Type 0 where
  decided : FailureCode → ℕ → ℕ → PolicyAction → Reason
  recovery_off : FailureCode → ℕ → Reason

pub record PolicyDecisionResult : Type 0 where
  pub action : PolicyAction
  pub reason : Reason
  pub backoff_ms : ℕ

-- `TABLE`: the action below the maximum of attempts, and the action at the maximum.
unfoldable pub table : FailureCode → PolicyAction × PolicyAction
table FailureCode.model_rate_limit = (resume, escalate_human)
table FailureCode.model_api_error = (resume, escalate_human)
table FailureCode.model_bad_output = (resume, escalate_human)
table FailureCode.tool_exec_error = (resume, escalate_human)
table FailureCode.sandbox_crashed = (resume, escalate_human)
table FailureCode.sandbox_start_failed = (restart_attempt, escalate_human)
table FailureCode.worker_lost = (resume, escalate_human)
table FailureCode.patch_apply_failed = (restart_attempt, escalate_human)
table FailureCode.agent_stuck = (restart_attempt, escalate_human)
table FailureCode.budget_tokens_exceeded = (escalate_human, escalate_human)
table FailureCode.budget_time_exceeded = (escalate_human, escalate_human)
table FailureCode.budget_turns_exceeded = (escalate_human, escalate_human)
table FailureCode.verify_static_failed = (resume, escalate_human)
table FailureCode.verify_target_tests_failed = (resume, escalate_human)
table FailureCode.verify_regression_failed = (resume, escalate_human)
table FailureCode.verify_scope_violation = (restart_attempt, abort)
table FailureCode.verify_test_tampering = (restart_attempt, abort)
table FailureCode.verify_patch_malformed = (restart_attempt, abort)
table FailureCode.human_rejected = (abort, abort)
table FailureCode.cancelled_by_user = (abort, abort)

unfoldable pub model_failures : List FailureCode
model_failures = FailureCode.model_rate_limit ∷ FailureCode.model_api_error ∷ []

-- `30_000 * 2 ** (attemptNo - 1)`; at 0 the exponent is -1.
unfoldable pub backoff_delay : ℕ → ℕ
backoff_delay zero = 15_000
backoff_delay (suc n) = 30_000 * 2 ^ n

unfoldable pub decide_policy : PolicyInput → PolicyDecisionResult
unfolding table model_failures
decide_policy input =
    let reached_max = leb input.max_attempts input.attempt_no in
    let action : PolicyAction =
      if reached_max then (table input.failure_code).1 else (table input.failure_code).0 in
    record {
      action = action;
      backoff_ms =
          if action === resume && includes model_failures input.failure_code
          then backoff_delay input.attempt_no
          else 0;
      reason = decided input.failure_code input.attempt_no input.max_attempts action;
    }
