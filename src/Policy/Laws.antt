-- ===== src/Policy/Laws.antt =====
-- What the decision table promises.
use native.Mathlib.Nat.{pow-suc}
use agent_reliability_platfo.Base.{
  ℕ, zero, suc, ◌+◌, ◌*◌, ◌^◌, ◌≤◌, ◌<◌, ◌≡◌, true, false, ◌&&◌, ◌||◌, Bool, not, [], ◌∷◌, arith,
  ltb,
}
use agent_reliability_platfo.Shared.Enums.{
  FailureCode, PolicyAction, ◌===◌, includes, failure_code_enum, policy_action_enum, resume,
  restart_attempt,
}
use agent_reliability_platfo.Policy.{PolicyInput, model_failures, decide_policy, backoff_delay}

-- The failures that nobody can mend by trying again.
abbrev pub is_final : FailureCode → Bool
is_final c =
    includes
      (FailureCode.budget_tokens_exceeded ∷ FailureCode.budget_time_exceeded
        ∷ FailureCode.budget_turns_exceeded ∷ FailureCode.human_rejected
        ∷ FailureCode.cancelled_by_user ∷ [])
      c

abbrev pub is_retry : PolicyAction → Bool
is_retry a = a === resume || a === restart_attempt

-- The table's action is to try again exactly when attempts are left and the failure is not a spent budget,
-- a rejection or a cancellation.
pub decide_policy-retry :
    (input : PolicyInput)
    → is_retry (decide_policy input).action
      ≡ ltb input.attempt_no input.max_attempts && not (is_final input.failure_code)
unfolding decide_policy
decide_policy-retry input = ground arith

-- The waiting time of the first `n` attempts that fail with `code`.
pub total_backoff : FailureCode → ℕ → ℕ → ℕ
total_backoff code max_attempts zero = 0
total_backoff code max_attempts (suc n) =
    total_backoff code max_attempts n
    + (decide_policy (record {
      failure_code = code;
      attempt_no = suc n;
      max_attempts = max_attempts;
    })).backoff_ms

module _ (code : FailureCode) (transient : includes model_failures code ≡ true) where
  step_backoff :
      (m n : ℕ)
      → n < m
      → (decide_policy
          (record { failure_code = code; attempt_no = suc n; max_attempts = suc m })).backoff_ms
        ≡ 30_000 * 2 ^ n
  unfolding decide_policy backoff_delay
  step_backoff m n h = ground arith

  -- The waits of a run that keeps failing with a transient model failure double: after `n` failed
  -- attempts below the maximum they add up to `30 s * (2 ^ n - 1)`.
  pub total_backoff-model_failures :
      (m n : ℕ) → n ≤ m → total_backoff code (suc m) n + 30_000 ≡ 30_000 * 2 ^ n
  unfolding total_backoff
  total_backoff-model_failures m zero h = omega arith
  total_backoff-model_failures m (suc n) h =
      omega (arith, total_backoff-model_failures m n (omega arith), step_backoff m n h, pow-suc 2 n)

-- Of every other failure no attempt waits, and nor does one that is not tried again.
no_backoff :
    (input : PolicyInput)
    → includes model_failures input.failure_code && is_retry (decide_policy input).action ≡ false
    → (decide_policy input).backoff_ms ≡ 0
unfolding decide_policy
no_backoff input h = ground arith
