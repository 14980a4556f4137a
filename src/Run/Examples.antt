-- ===== src/Run/Examples.antt =====
-- A fixture and what a visitor of the public demonstration asks for; a run that waits for a worker, and the
-- same run after the first claim.
use agent_reliability_platfo.Base.{false, none, some, [], ◌∷◌}
use agent_reliability_platfo.Shared.Enums.{
  AgentKind, TaskSource, TaskStatus, RunStatus, AttemptStatus, state_transition,
}
use agent_reliability_platfo.Store.Rows.{
  Project, Task, Run, Attempt, Phase, FeedbackMode, run_moved, Db,
}
use agent_reliability_platfo.Run.Transition.{synthetic_event}
use agent_reliability_platfo.Run.Commands.{Fixture}
use agent_reliability_platfo.Run.Creation.{TaskInput, NewIds}

abbrev pub shown : Fixture
shown = record {
  id = "py-logic-001";
  title = "logic";
  repo_path = "/fixtures";
  base_commit = 4;
  task_spec = record {
    fixture_id = some "py-logic-001";
    description = "a wrong sum";
    workdir = ".";
    allowed_paths = [];
    static_check = [];
    fail_to_pass = [];
    pass_to_pass = [];
    acceptance_criteria = [];
    test_patch = none;
  };
}

abbrev pub wanted : TaskInput
wanted = record {
  fixture_id = "py-logic-001";
  agent_kind = AgentKind.self_langgraph;
  recovery_disabled = none;
  feedback_mode = none;
  budget_tokens = none;
  budget_seconds = some 60;
  budget_turns = none;
  source = none;
  source_ref = none;
}

abbrev pub new_ids : NewIds
new_ids = record { workspace = 1; project = 2; task = 3; run = 4 }

abbrev pub project : Project
project = record {
  id = 1;
  workspace_id = 6;
  name = "default";
  repo_path = "/repos/calc";
  github_repo = none;
  write_credential = none;
}

abbrev pub queued_task : Task
queued_task = record {
  id = 2;
  project_id = 1;
  title = "sum";
  description = "sum is wrong";
  source = TaskSource.manual;
  source_ref = none;
  allowed_paths = [];
  created_at = 0;
  parent_task_id = none;
  snapshot_digest = none;
  confirmation_key = none;
  fixture_id = some "calc";
  status = TaskStatus.queued;
  snapshot = none;
  attention_reason = none;
}

abbrev pub waiting_run : Run
waiting_run = record {
  id = 3;
  task_id = 2;
  agent_kind = AgentKind.self_langgraph;
  status = RunStatus.dispatched;
  base_commit = 77;
  max_attempts = 3;
  budget_tokens = 1_000;
  budget_seconds = 600;
  budget_turns = 20;
  used_tokens = 0;
  used_seconds = 0;
  last_sequence = 0;
  recovery_disabled = false;
  feedback_mode = FeedbackMode.structured;
  phase = Phase.queued;
  environment_id = none;
  image_id = none;
  active_started_at = none;
  deadline_at = none;
}

-- One run that waits for a worker.
abbrev pub fresh : Db
fresh = record {
  workspaces = [];
  drafts = [];
  projects = project ∷ [];
  tasks = queued_task ∷ [];
  runs = waiting_run ∷ [];
  attempts = [];
  events = [];
  checkpoints = [];
  artifacts = [];
  verifications = [];
  decisions = [];
  approvals = [];
  outbox = [];
  budget_calls = [];
  environments = [];
  deliveries = [];
}

abbrev pub first_attempt : Attempt
first_attempt = record {
  id = 10;
  run_id = 3;
  no = 1;
  worker_id = 9;
  status = AttemptStatus.running;
  failure_code = none;
  lease_token = some 11;
  lease_expires_at = some 31_000;
  ended_at = none;
}

abbrev pub busy_run : Run
busy_run = record waiting_run {
  status = RunStatus.running;
  last_sequence = 1;
  active_started_at = some 1_000;
}

-- The database after the first claim.
abbrev pub busy : Db
busy = record fresh {
  tasks = record queued_task { status = TaskStatus.running } ∷ [];
  runs = busy_run ∷ [];
  attempts = first_attempt ∷ [];
  events =
      synthetic_event 3 state_transition (run_moved RunStatus.dispatched RunStatus.running) none
        1_000 1
      ∷ [];
}
