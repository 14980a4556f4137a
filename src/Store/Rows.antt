-- ===== src/Store/Rows.antt =====
-- The tables' rows: apps/control-plane/prisma/schema.prisma, with the columns that the modelled code
-- reads or writes. Identifiers, lease tokens, commits and digests are only compared, so they are
-- numbers; times are milliseconds.
use Prim.Native.String.{String}
use agent_reliability_platfo.Base.{ℕ, Bool, Option, List}
use agent_reliability_platfo.Shared.Enums.{
  TaskSource, TaskStatus, RunStatus, AttemptStatus, AgentKind, TraceEventType, FailureCode,
  PolicyAction, ApprovalStatus, OutboxStatus, ArtifactKind, VerifierStep,
}
use agent_reliability_platfo.Shared.TaskSnapshot.{TaskSnapshot}
use agent_reliability_platfo.Shared.RunCommand.{RunCommand}
use agent_reliability_platfo.Policy.{Reason}

pub data Phase : Type 0 where
  queued preparing reproducing repairing verifying baseline : Phase
  needs_attention awaiting_approval failed cancelled : Phase

pub data FeedbackMode : Type 0 where
  structured raw : FeedbackMode

pub record Workspace : Type 0 where
  pub id : ℕ
  pub name : String

pub record Project : Type 0 where
  pub id : ℕ
  pub workspace_id : ℕ
  pub name : String
  pub repo_path : String
  pub github_repo : Option String
  pub write_credential : Option String

pub record Task : Type 0 where
  pub id : ℕ
  pub project_id : ℕ
  pub title : String
  pub description : String
  pub source : TaskSource
  pub source_ref : Option String
  pub allowed_paths : List String
  pub created_at : ℕ
  pub parent_task_id : Option ℕ
  pub snapshot_digest : Option ℕ
  pub confirmation_key : Option String
  pub fixture_id : Option String
  pub status : TaskStatus
  pub snapshot : Option TaskSnapshot
  pub attention_reason : Option String

pub record TaskDraft : Type 0 where
  pub id : ℕ
  pub project_id : ℕ
  pub snapshot : TaskSnapshot
  pub revision : ℕ
  pub expires_at : ℕ

pub record Run : Type 0 where
  pub id : ℕ
  pub task_id : ℕ
  pub agent_kind : AgentKind
  pub status : RunStatus
  pub base_commit : ℕ
  pub max_attempts : ℕ
  pub budget_tokens : ℕ
  pub budget_seconds : ℕ
  pub budget_turns : ℕ
  pub used_tokens : ℕ
  pub used_seconds : ℕ
  pub last_sequence : ℕ
  pub recovery_disabled : Bool
  pub feedback_mode : FeedbackMode
  pub phase : Phase
  pub environment_id : Option ℕ
  pub image_id : Option ℕ
  pub active_started_at : Option ℕ
  pub deadline_at : Option ℕ

pub record Attempt : Type 0 where
  pub id : ℕ
  pub run_id : ℕ
  pub no : ℕ
  pub worker_id : ℕ
  pub status : AttemptStatus
  pub failure_code : Option FailureCode
  pub lease_token : Option ℕ
  pub lease_expires_at : Option ℕ
  pub ended_at : Option ℕ

-- `cp:${runId}:${runSequence}` for the events of the platform, the worker's text for reported ones.
pub data EventKey : Type 0 where
  platform : ℕ → ℕ → EventKey
  reported : String → EventKey

-- The payloads that the platform writes; a reported payload is opaque JSON.
pub data Payload : Type 0 where
  run_moved : RunStatus → RunStatus → Payload
  phase_moved : Phase → Phase → Payload
  recovery : PolicyAction → Option ℕ → ℕ → Payload
  approval_pending : Payload
  opaque : String → Payload

pub record TraceEvent : Type 0 where
  pub run_id : ℕ
  pub attempt_id : Option ℕ
  pub run_sequence : ℕ
  pub attempt_sequence : ℕ
  pub kind : TraceEventType
  pub payload : Payload
  pub idempotency_key : EventKey
  pub occurred_at : ℕ

pub record CheckpointInput : Type 0 where
  pub attempt_id : ℕ
  pub thread_id : String
  pub base_commit : ℕ
  pub applied_patch_sha : Option ℕ
  pub applied_patch : Option String
  pub completed_tool_calls : List (String × String)
  pub used_tokens : ℕ
  pub used_seconds : ℕ

pub record Checkpoint : Type 0 where
  pub id : ℕ
  pub run_id : ℕ
  pub input : CheckpointInput
  pub open input use *

pub record Artifact : Type 0 where
  pub run_id : ℕ
  pub attempt_id : ℕ
  pub kind : ArtifactKind
  pub name : String
  pub content : String
  pub size_bytes : ℕ

pub record Verification : Type 0 where
  pub step : VerifierStep
  pub passed : Bool
  pub failure_code : Option FailureCode
  pub detail : String
  pub duration_ms : ℕ

pub record VerificationResult : Type 0 where
  pub run_id : ℕ
  pub attempt_id : ℕ
  pub result : Verification

pub record PolicyDecision : Type 0 where
  pub run_id : ℕ
  pub attempt_id : ℕ
  pub failure_code : FailureCode
  pub action : PolicyAction
  pub reason : Reason

pub record Approval : Type 0 where
  pub id : ℕ
  pub task_id : ℕ
  pub run_id : ℕ
  pub status : ApprovalStatus
  pub reviewer : Option String
  pub decided_at : Option ℕ
  pub pr_url : Option String
  pub pr_error : Option String
  pub patch_digest : Option ℕ

pub data JobStatus : Type 0 where
  queued running failed succeeded needs_attention : JobStatus

-- The branch is named after the task and the first 12 digits of the digest.
pub record DeliveryJob : Type 0 where
  pub id : ℕ
  pub approval_id : ℕ
  pub status : JobStatus
  pub attempts : ℕ
  pub patch_digest : ℕ
  pub branch : ℕ × ℕ
  pub commit_sha : Option ℕ
  pub pr_url : Option String
  pub error : Option String
  pub lease_token : Option ℕ
  pub lease_expires_at : Option ℕ

pub record OutboxMessage : Type 0 where
  pub topic : String
  pub key : ℕ
  pub payload : RunCommand
  pub status : OutboxStatus
  pub attempts : ℕ
  pub published_at : Option ℕ
  pub not_before : ℕ

pub data CallStatus : Type 0 where
  reserved unknown settled : CallStatus

pub record BudgetCall : Type 0 where
  pub id : ℕ
  pub run_id : ℕ
  pub reserved : ℕ
  pub used : Option ℕ
  pub status : CallStatus

pub record EnvironmentVersion : Type 0 where
  pub fingerprint : ℕ
  pub image_id : ℕ
  pub log : String

pub record Db : Type 0 where
  pub workspaces : List Workspace
  pub projects : List Project
  pub drafts : List TaskDraft
  pub tasks : List Task
  pub runs : List Run
  pub attempts : List Attempt
  pub events : List TraceEvent
  pub checkpoints : List Checkpoint
  pub artifacts : List Artifact
  pub verifications : List VerificationResult
  pub decisions : List PolicyDecision
  pub approvals : List Approval
  pub outbox : List OutboxMessage
  pub budget_calls : List BudgetCall
  pub environments : List EnvironmentVersion
  pub deliveries : List DeliveryJob
