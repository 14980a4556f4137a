-- ===== src/Approval/Tests.antt =====
-- Tests of the decisions on fixture tasks, and the theorem at a concrete one.
use agent_reliability_platfo.Base.{◌≡◌, refl, true, none, some, [], ◌∷◌}
use agent_reliability_platfo.Shared.Enums.{
  TaskSource, TaskStatus, ApprovalStatus, ArtifactKind, ◌===◌, approval_status_enum,
}
use agent_reliability_platfo.StateMachine.{assert_transition, task_transitions}
use agent_reliability_platfo.Store.Table.{find, modify}
use agent_reliability_platfo.Store.Rows.{Task, Artifact, Approval, Db}
use agent_reliability_platfo.Store.Tx.{ok, gets, alter, raise_if, or_raise, pure, ◌>>=◌, ◌>>◌}
use agent_reliability_platfo.Store.Queries.{
  approval_key, task_key, find_approval, find_task, update_approval, update_task,
}
use agent_reliability_platfo.Run.Transition.{assert_task_transition}
use agent_reliability_platfo.Approval.Decide.{
  approved, opened, decide_fixture, write_verdict, write_pr, deliver_pr, create_pr, and_then,
  decide_and_deliver,
}
use agent_reliability_platfo.Approval.Pull.{
  approval_is, task_is, is_awaiting, decide_fixture-pending,
}

abbrev verified_task : Task
verified_task = record {
  id = 2;
  project_id = 1;
  title = "sum";
  description = "sum is wrong";
  source = TaskSource.manual;
  source_ref = none;
  allowed_paths = [];
  created_at = 0;
  parent_task_id = none;
  snapshot_digest = none;
  confirmation_key = none;
  fixture_id = some "calc";
  status = TaskStatus.awaiting_approval;
  snapshot = none;
  attention_reason = none;
}

abbrev fix : Artifact
fix = record {
  run_id = 3;
  attempt_id = 10;
  kind = ArtifactKind.patch;
  name = "fix.patch";
  content = "diff";
  size_bytes = 4;
}

abbrev waiting : Approval
waiting = record {
  id = 7;
  task_id = 2;
  run_id = 3;
  status = ApprovalStatus.pending;
  reviewer = none;
  decided_at = none;
  pr_url = none;
  pr_error = none;
  patch_digest = some 4;
}

abbrev verified : Db
verified = record {
  workspaces = [];
  drafts = [];
  projects = [];
  tasks = verified_task ∷ [];
  runs = [];
  attempts = [];
  events = [];
  checkpoints = [];
  artifacts = fix ∷ [];
  verifications = [];
  decisions = [];
  approvals = waiting ∷ [];
  outbox = [];
  budget_calls = [];
  environments = [];
  deliveries = [];
}

abbrev agreed : Approval
agreed = record waiting {
  status = ApprovalStatus.approved;
  reviewer = some "anonymous";
  decided_at = some 9_000;
}

abbrev approved_db : Db
approved_db = record verified {
  tasks = record verified_task { status = TaskStatus.approved } ∷ [];
  approvals = agreed ∷ [];
}

decide_fixture-waiting :
    decide_fixture waiting verified_task approved none 9_000 verified ≡ ok tt approved_db
unfolding decide_fixture write_verdict assert_task_transition assert_transition task_transitions
    find_approval find_task update_approval update_task find modify gets alter raise_if or_raise
    pure ◌>>=◌ ◌>>◌
decide_fixture-waiting = refl

decide_fixture-pending_example :
    ((ApprovalStatus.pending === ApprovalStatus.pending) ≡ true)
    × (is_awaiting verified_task ≡ true)
    × (approval_is ApprovalStatus.approved (find approval_key 7 approved_db.approvals) ≡ true)
    × (task_is TaskStatus.approved (find task_key 2 approved_db.tasks) ≡ true)
decide_fixture-pending_example =
    decide_fixture-pending waiting verified_task approved none 9_000 verified approved_db
      decide_fixture-waiting

-- The pull request of an approved patch.
opens_pull_request :
    decide_and_deliver waiting verified_task approved none (opened "url") 9_000 verified ≡ (
      record approved_db {
        tasks = record verified_task { status = TaskStatus.pr_created } ∷ [];
        approvals = record agreed { pr_url = some "url" } ∷ [];
      },
      none,
    )
unfolding decide_and_deliver and_then create_pr deliver_pr write_pr decide_fixture write_verdict
    assert_task_transition assert_transition task_transitions find_approval find_task
    update_approval update_task find modify gets alter raise_if or_raise pure ◌>>=◌ ◌>>◌
opens_pull_request = refl
