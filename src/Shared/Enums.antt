-- ===== src/Shared/Enums.antt =====
-- packages/shared/src/enums.ts: the enumerations, each with the test `===` on its values.
use agent_reliability_platfo.Base.{ℕ, Bool, false, ◌||◌, List, [], ◌∷◌, ◌==◌}

pub data TaskSource : Type 0 where
  manual github_issue workflow_run : TaskSource

pub data TaskStatus : Type 0 where
  created queued running needs_attention awaiting_approval approved : TaskStatus
  pr_created pr_failed resolved rejected failed cancelled : TaskStatus

pub data RunStatus : Type 0 where
  pending dispatched running verifying interrupted recovering succeeded failed cancelled : RunStatus

pub data AttemptStatus : Type 0 where
  claimed running succeeded failed crashed timed_out lease_expired : AttemptStatus

pub data AgentKind : Type 0 where
  self_langgraph mini_swe : AgentKind

pub data TraceEventType : Type 0 where
  model_call tool_call file_change command_exec state_transition checkpoint_saved : TraceEventType
  failure_detected recovery_action verification_result approval_event : TraceEventType
  budget_update : TraceEventType

pub data FailureCode : Type 0 where
  model_rate_limit model_api_error model_bad_output tool_exec_error patch_apply_failed : FailureCode
  sandbox_start_failed sandbox_crashed worker_lost budget_tokens_exceeded : FailureCode
  budget_time_exceeded budget_turns_exceeded agent_stuck verify_patch_malformed : FailureCode
  verify_scope_violation verify_static_failed verify_target_tests_failed : FailureCode
  verify_regression_failed verify_test_tampering human_rejected cancelled_by_user : FailureCode

pub data PolicyAction : Type 0 where
  resume restart_attempt escalate_human abort : PolicyAction

pub data ApprovalStatus : Type 0 where
  pending approved rejected : ApprovalStatus

pub data OutboxStatus : Type 0 where
  pending published failed : OutboxStatus

pub data ArtifactKind : Type 0 where
  patch test_report log judge_report : ArtifactKind

pub data RunCommandType : Type 0 where
  start_run resume_run cancel_run : RunCommandType

pub data VerifierStep : Type 0 where
  v1 v2 v3 v4 v5 v6 : VerifierStep

-- The position of a value in its list, by which values are told apart.
pub record Enum (A : Type 0) : Type 0 where
  pub index : A → ℕ

infix 50 ◌===◌
abbrev pub ◌===◌ : {A : Type 0} ⦃e : Enum A⦄ → A → A → Bool
◌===◌ ⦃e⦄ a b = e.index a == e.index b

-- `xs.includes(a)`
abbrev pub includes : {A : Type 0} ⦃e : Enum A⦄ → List A → A → Bool
includes [] a = false
includes (x ∷ xs) a = x === a || includes xs a

abbrev pub task_status_index : TaskStatus → ℕ
task_status_index created = 0
task_status_index queued = 1
task_status_index running = 2
task_status_index needs_attention = 3
task_status_index awaiting_approval = 4
task_status_index approved = 5
task_status_index pr_created = 6
task_status_index pr_failed = 7
task_status_index resolved = 8
task_status_index rejected = 9
task_status_index failed = 10
task_status_index cancelled = 11

instance abbrev pub task_status_enum : Enum TaskStatus
task_status_enum = record { index = task_status_index }

abbrev pub run_status_index : RunStatus → ℕ
run_status_index pending = 0
run_status_index dispatched = 1
run_status_index running = 2
run_status_index verifying = 3
run_status_index interrupted = 4
run_status_index recovering = 5
run_status_index succeeded = 6
run_status_index failed = 7
run_status_index cancelled = 8

instance abbrev pub run_status_enum : Enum RunStatus
run_status_enum = record { index = run_status_index }

abbrev pub attempt_status_index : AttemptStatus → ℕ
attempt_status_index claimed = 0
attempt_status_index running = 1
attempt_status_index succeeded = 2
attempt_status_index failed = 3
attempt_status_index crashed = 4
attempt_status_index timed_out = 5
attempt_status_index lease_expired = 6

instance abbrev pub attempt_status_enum : Enum AttemptStatus
attempt_status_enum = record { index = attempt_status_index }

abbrev pub failure_code_index : FailureCode → ℕ
failure_code_index model_rate_limit = 0
failure_code_index model_api_error = 1
failure_code_index model_bad_output = 2
failure_code_index tool_exec_error = 3
failure_code_index patch_apply_failed = 4
failure_code_index sandbox_start_failed = 5
failure_code_index sandbox_crashed = 6
failure_code_index worker_lost = 7
failure_code_index budget_tokens_exceeded = 8
failure_code_index budget_time_exceeded = 9
failure_code_index budget_turns_exceeded = 10
failure_code_index agent_stuck = 11
failure_code_index verify_patch_malformed = 12
failure_code_index verify_scope_violation = 13
failure_code_index verify_static_failed = 14
failure_code_index verify_target_tests_failed = 15
failure_code_index verify_regression_failed = 16
failure_code_index verify_test_tampering = 17
failure_code_index human_rejected = 18
failure_code_index cancelled_by_user = 19

instance abbrev pub failure_code_enum : Enum FailureCode
failure_code_enum = record { index = failure_code_index }

abbrev pub policy_action_index : PolicyAction → ℕ
policy_action_index resume = 0
policy_action_index restart_attempt = 1
policy_action_index escalate_human = 2
policy_action_index abort = 3

instance abbrev pub policy_action_enum : Enum PolicyAction
policy_action_enum = record { index = policy_action_index }

abbrev pub approval_status_index : ApprovalStatus → ℕ
approval_status_index pending = 0
approval_status_index approved = 1
approval_status_index rejected = 2

instance abbrev pub approval_status_enum : Enum ApprovalStatus
approval_status_enum = record { index = approval_status_index }

abbrev pub outbox_status_index : OutboxStatus → ℕ
outbox_status_index pending = 0
outbox_status_index published = 1
outbox_status_index failed = 2

instance abbrev pub outbox_status_enum : Enum OutboxStatus
outbox_status_enum = record { index = outbox_status_index }
