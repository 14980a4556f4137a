-- ===== src/Delivery/Examples.antt =====
-- A snapshot task whose patch was verified, its approval, and a job that a tick has claimed.
use agent_reliability_platfo.Base.{none, some, [], ◌∷◌}
use agent_reliability_platfo.Shared.Enums.{
  TaskSource, TaskStatus, ApprovalStatus, ArtifactKind, AgentKind,
}
use agent_reliability_platfo.Shared.TaskSnapshot.{TaskSnapshot, DeliveryKind, Preparation}
use agent_reliability_platfo.Store.Rows.{Task, Artifact, Approval, DeliveryJob, JobStatus}
use agent_reliability_platfo.Delivery.Decision.{job_of}

abbrev pub snapshot : TaskSnapshot
snapshot = record {
  repository_id = 1;
  parent_task_id = none;
  config_version = 1;
  execution_sha = 5;
  agent_kind = AgentKind.self_langgraph;
  title = "fix";
  description = "a failing test";
  config = record {
    default_delivery = none;
    preparation = Preparation.image;
    image = "python";
    dependency_files = [];
    workdir = ".";
    allowed_paths = "src" ∷ [];
    protected_paths = [];
    static_check = [];
    fail_to_pass = [];
    pass_to_pass = [];
    acceptance_criteria = "passes" ∷ [];
  };
  baseline = record { command = "pytest"; expected = "failed" ∷ [] };
  budget = record { tokens = 1_000; seconds = 600; turns = 20; max_attempts = 3 };
  delivery = record {
    kind = DeliveryKind.pull_request;
    target_branch = "main";
    expected_target_sha = 5;
  };
  source = none;
}

abbrev pub verified_task : Task
verified_task = record {
  id = 2;
  project_id = 1;
  title = "sum";
  description = "sum is wrong";
  source = TaskSource.manual;
  source_ref = none;
  allowed_paths = [];
  created_at = 0;
  parent_task_id = none;
  snapshot_digest = none;
  confirmation_key = none;
  fixture_id = none;
  status = TaskStatus.awaiting_approval;
  snapshot = some snapshot;
  attention_reason = none;
}

abbrev pub fix : Artifact
fix = record {
  run_id = 3;
  attempt_id = 10;
  kind = ArtifactKind.patch;
  name = "fix.patch";
  content = "diff";
  size_bytes = 4;
}

-- The digest is the length here.
abbrev pub waiting : Approval
waiting = record {
  id = 7;
  task_id = 2;
  run_id = 3;
  status = ApprovalStatus.pending;
  reviewer = none;
  decided_at = none;
  pr_url = none;
  pr_error = none;
  patch_digest = some 4;
}

abbrev pub claimed_job : DeliveryJob
claimed_job = record (job_of 8 7 2 4) {
  status = JobStatus.running;
  lease_token = some 30;
  lease_expires_at = some 610_000;
  attempts = 1;
}
