-- ===== src/Run/Decided.antt =====
-- What `applyPolicy` decides about a failed attempt, before it looks at what a snapshot task has left.
use agent_reliability_platfo.Base.{ℕ, ◌≡◌, not, ◌&&◌, arith, ltb}
use agent_reliability_platfo.Shared.Enums.{FailureCode}
use agent_reliability_platfo.Store.Rows.{Run}
use agent_reliability_platfo.Policy.Laws.{is_final, is_retry, decide_policy-retry}
use agent_reliability_platfo.Run.Recovery.{decide}

-- The decision for a failed attempt is to resume or to restart exactly when the recovery of the run is not
-- disabled, attempts are left, and the failure is not a spent budget, a rejection or a cancellation. A
-- snapshot task whose usage is not known or whose budget is spent is stopped before a decision is taken.
pub decide-retry :
    (run : Run) (attempt_no : ℕ) (code : FailureCode)
    → is_retry (decide run attempt_no code).action
      ≡ not run.recovery_disabled && (ltb attempt_no run.max_attempts && not (is_final code))
unfolding decide
decide-retry run attempt_no code = ground (
  arith,
  decide_policy-retry
      (record { failure_code = code; attempt_no = attempt_no; max_attempts = run.max_attempts }),
)
