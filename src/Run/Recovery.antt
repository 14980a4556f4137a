-- ===== src/Run/Recovery.antt =====
-- run-lifecycle.service.ts, `applyPolicy`: what follows a failed attempt, as the policy engine decides.
use Prim.Native.String.{String}
use agent_reliability_platfo.Base.{
  ℕ, ◌+◌, List, Bool, ◌&&◌, ◌||◌, none, leb, is_some, if◌then◌else◌,
}
use agent_reliability_platfo.Shared.Enums.{
  TaskStatus, RunStatus, FailureCode, PolicyAction, resume, restart_attempt, escalate_human, abort,
  ◌===◌, task_status_enum, policy_action_enum,
}
use agent_reliability_platfo.Policy.{PolicyDecisionResult, recovery_off, decide_policy}
use agent_reliability_platfo.Store.Rows.{Phase, Project, Task, Run}
use agent_reliability_platfo.Store.Tx.{Tx, pure, ◌>>=◌, ◌>>◌, gets, when}
use agent_reliability_platfo.Store.Queries.{
  find_project, find_task, find_run, update_run, insert_decision, has_unsettled,
}
use agent_reliability_platfo.Run.Clock.{elapsed_seconds, has_passed}
use agent_reliability_platfo.Run.Transition.{transition_run, transition_task}
use agent_reliability_platfo.Run.Commands.{Fixture}
use agent_reliability_platfo.Run.Retry.{need_attention, retry_run}

-- The text of a failure code, which a task keeps as the reason for attention.
unfoldable pub failure_code_text : FailureCode → String
failure_code_text FailureCode.model_rate_limit = "MODEL_RATE_LIMIT"
failure_code_text FailureCode.model_api_error = "MODEL_API_ERROR"
failure_code_text FailureCode.model_bad_output = "MODEL_BAD_OUTPUT"
failure_code_text FailureCode.tool_exec_error = "TOOL_EXEC_ERROR"
failure_code_text FailureCode.patch_apply_failed = "PATCH_APPLY_FAILED"
failure_code_text FailureCode.sandbox_start_failed = "SANDBOX_START_FAILED"
failure_code_text FailureCode.sandbox_crashed = "SANDBOX_CRASHED"
failure_code_text FailureCode.worker_lost = "WORKER_LOST"
failure_code_text FailureCode.budget_tokens_exceeded = "BUDGET_TOKENS_EXCEEDED"
failure_code_text FailureCode.budget_time_exceeded = "BUDGET_TIME_EXCEEDED"
failure_code_text FailureCode.budget_turns_exceeded = "BUDGET_TURNS_EXCEEDED"
failure_code_text FailureCode.agent_stuck = "AGENT_STUCK"
failure_code_text FailureCode.verify_patch_malformed = "VERIFY_PATCH_MALFORMED"
failure_code_text FailureCode.verify_scope_violation = "VERIFY_SCOPE_VIOLATION"
failure_code_text FailureCode.verify_static_failed = "VERIFY_STATIC_FAILED"
failure_code_text FailureCode.verify_target_tests_failed = "VERIFY_TARGET_TESTS_FAILED"
failure_code_text FailureCode.verify_regression_failed = "VERIFY_REGRESSION_FAILED"
failure_code_text FailureCode.verify_test_tampering = "VERIFY_TEST_TAMPERING"
failure_code_text FailureCode.human_rejected = "HUMAN_REJECTED"
failure_code_text FailureCode.cancelled_by_user = "CANCELLED_BY_USER"

-- The first `if` of `applyPolicy`, on the local copy of the run.
unfoldable pub stopped : Run → ℕ → Run
stopped run now = record run {
  used_seconds = run.used_seconds + elapsed_seconds run.active_started_at now;
  active_started_at = none;
}

unfoldable pub write_clock : Run → ℕ → Tx Run
unfolding stopped
write_clock run now = do
  update_run run.id
      (λ r. record r { used_seconds = (stopped run now).used_seconds; active_started_at = none })
  pure (stopped run now)

unfoldable pub stop_clock : Task → Run → ℕ → Tx Run
stop_clock task run now =
    if is_some task.snapshot && is_some run.active_started_at then write_clock run now else pure run

-- Whether a snapshot task has nothing left to spend.
unfoldable pub is_exhausted : Run → Bool → ℕ → ℕ → Bool
is_exhausted run unresolved elapsed now =
    unresolved
    || leb run.budget_tokens run.used_tokens
    || leb run.budget_seconds elapsed
    || has_passed run.deadline_at now

unfoldable pub decide : Run → ℕ → FailureCode → PolicyDecisionResult
decide run attempt_no code =
    if run.recovery_disabled
    then record { action = abort; backoff_ms = 0; reason = recovery_off code attempt_no }
    else decide_policy
        (record { failure_code = code; attempt_no = attempt_no; max_attempts = run.max_attempts })

unfoldable pub abort_run : Task → Run → ℕ → Tx (Unit {0})
abort_run task run now = do
  update_run run.id (λ r. record r { phase = Phase.failed; active_started_at = none })
  transition_run run.id RunStatus.interrupted RunStatus.failed now
  when (task.status === TaskStatus.running)
      (transition_task task.id TaskStatus.running TaskStatus.failed)

-- `ESCALATE_HUMAN`: the run stays `INTERRUPTED`.
unfoldable pub escalate : Run → FailureCode → Tx (Unit {0})
unfolding failure_code_text
escalate run code = do
  update_run run.id (λ r. record r { phase = Phase.needs_attention; active_started_at = none })
  need_attention run.task_id (failure_code_text code)

unfoldable pub follow :
    PolicyAction
    → List Fixture
    → Project
    → Task
    → Run
    → ℕ
    → ℕ
    → FailureCode
    → PolicyDecisionResult
    → ℕ
    → Tx (Unit {0})
follow resume fixtures project task run attempt_id attempt_no code decision now =
    retry_run fixtures project task run attempt_id attempt_no decision now
follow restart_attempt fixtures project task run attempt_id attempt_no code decision now =
    retry_run fixtures project task run attempt_id attempt_no decision now
follow abort fixtures project task run attempt_id attempt_no code decision now =
    abort_run task run now
follow escalate_human fixtures project task run attempt_id attempt_no code decision now =
    escalate run code

-- The action of the decision.
unfoldable pub act :
    List Fixture
    → Project
    → Task
    → Run
    → ℕ
    → ℕ
    → FailureCode
    → PolicyDecisionResult
    → ℕ
    → Tx (Unit {0})
act fixtures project task run attempt_id attempt_no code decision now =
    follow decision.action fixtures project task run attempt_id attempt_no code decision now

-- A snapshot task with nothing left to spend, or with usage that is not known, waits for a person.
unfoldable pub stop_exhausted : Run → Bool → ℕ → Tx (Unit {0})
stop_exhausted run unresolved elapsed = do
  update_run run.id (λ r. record r {
    phase = Phase.needs_attention;
    used_seconds = elapsed;
    active_started_at = none;
  })
  need_attention run.task_id (if unresolved then "MODEL_USAGE_UNKNOWN" else "BUDGET_EXHAUSTED")

-- The decision is written down and followed.
unfoldable pub decide_and_act :
    List Fixture → Project → Task → Run → ℕ → ℕ → FailureCode → ℕ → Tx (Unit {0})
decide_and_act fixtures project task run attempt_id attempt_no code now = do
  let decision = decide run attempt_no code
  insert_decision (record {
    run_id = run.id;
    attempt_id = attempt_id;
    failure_code = code;
    action = decision.action;
    reason = decision.reason;
  })
  act fixtures project task run attempt_id attempt_no code decision now

-- `applyPolicy`
unfoldable pub apply_policy : List Fixture → ℕ → ℕ → ℕ → FailureCode → ℕ → Tx (Unit {0})
apply_policy fixtures run_id attempt_id attempt_no code now = do
  read ← find_run run_id
  task ← find_task read.task_id
  project ← find_project task.project_id
  run ← stop_clock task read now
  unresolved ← gets (has_unsettled run_id)
  let elapsed = run.used_seconds + elapsed_seconds run.active_started_at now
  if is_some task.snapshot && is_exhausted run unresolved elapsed now
      then stop_exhausted run unresolved elapsed
      else decide_and_act fixtures project task run attempt_id attempt_no code now
