-- ===== src/Run/Confirmation.antt =====
-- apps/control-plane/src/modules/task/task-draft.service.ts, `confirm`: a draft becomes a task with its run
-- and the first command, once for each idempotency key. The digest of a snapshot, git and the GitHub API
-- are parameters.
use Prim.Native.String.{String, len}
use text.Mathlib.Text.{◌==◌ as text_eq}
use agent_reliability_platfo.Base.{
  ℕ, ◌+◌, Bool, false, not, ◌&&◌, ◌||◌, Option, none, some, ltb, ◌==◌,
}
use agent_reliability_platfo.Shared.Enums.{TaskSource, TaskStatus, RunStatus, OutboxStatus}
use agent_reliability_platfo.Shared.TaskSnapshot.{TaskSnapshot}
use agent_reliability_platfo.Store.Table.{find, first_where}
use agent_reliability_platfo.Store.Rows.{Project, Task, TaskDraft, Run, Phase, FeedbackMode, Db}
use agent_reliability_platfo.Store.Tx.{
  Tx, pure, ◌>>=◌, ◌>>◌, gets, raise_if, or_raise, conflict, not_found, bad_request, record_missing,
}
use agent_reliability_platfo.Store.Queries.{project_key, insert_task, insert_run, insert_message}
use agent_reliability_platfo.Run.Commands.{command_from_snapshot}

abbrev pub same_digest : Option ℕ → ℕ → Bool
same_digest none digest = false
same_digest (some d) digest = d == digest

abbrev pub has_key : String → Task → Bool
has_key key t = elim t.confirmation_key [ none ↦ false | some k ↦ text_eq k key ]

-- The task that an earlier confirmation with this key made, and its first run.
unfoldable pub answer_prior : Task → ℕ → Tx (ℕ × ℕ)
answer_prior t digest = do
  raise_if (not (same_digest t.snapshot_digest digest))
      (conflict "Idempotency key reused with different input")
  run ←
      or_raise (← gets (λ db. first_where (λ (r : Run). r.task_id == t.id) db.runs)) record_missing
  pure (t.id, run.id)

abbrev pub confirmed_task : ℕ → ℕ → TaskSnapshot → ℕ → String → ℕ → Task
confirmed_task id project_id snapshot digest key now = record {
  id = id;
  project_id = project_id;
  title = snapshot.title;
  description = snapshot.description;
  source = TaskSource.manual;
  source_ref = elim snapshot.source [ none ↦ none | some s ↦ some s.pr_url ];
  allowed_paths = snapshot.config.allowed_paths;
  created_at = now;
  parent_task_id = snapshot.parent_task_id;
  snapshot_digest = some digest;
  confirmation_key = some key;
  fixture_id = none;
  status = TaskStatus.queued;
  snapshot = some snapshot;
  attention_reason = none;
}

abbrev pub confirmed_run : ℕ → ℕ → TaskSnapshot → ℕ → Run
confirmed_run id task_id snapshot now = record {
  id = id;
  task_id = task_id;
  agent_kind = snapshot.agent_kind;
  status = RunStatus.dispatched;
  base_commit = snapshot.execution_sha;
  max_attempts = snapshot.budget.max_attempts;
  budget_tokens = snapshot.budget.tokens;
  budget_seconds = snapshot.budget.seconds;
  budget_turns = snapshot.budget.turns;
  used_tokens = 0;
  used_seconds = 0;
  last_sequence = 0;
  recovery_disabled = false;
  feedback_mode = FeedbackMode.structured;
  phase = Phase.queued;
  environment_id = none;
  image_id = none;
  active_started_at = none;
  deadline_at = some (now + 604_800_000);
}

unfoldable pub open_task : Project → TaskSnapshot → ℕ → String → ℕ → ℕ → ℕ → Tx (ℕ × ℕ)
open_task project snapshot digest key task_id run_id now = do
  insert_task (confirmed_task task_id project.id snapshot digest key now)
  insert_run (confirmed_run run_id task_id snapshot now)
  insert_message (record {
    topic = "run-commands";
    key = run_id;
    payload = command_from_snapshot snapshot project.repo_path run_id 1 0 0 none;
    status = OutboxStatus.pending;
    attempts = 0;
    published_at = none;
    not_before = now;
  })
  pure (task_id, run_id)

unfoldable pub confirm_known :
    Option Task → Project → TaskSnapshot → ℕ → String → ℕ → ℕ → ℕ → Tx (ℕ × ℕ)
unfolding answer_prior open_task
confirm_known (some t) project snapshot digest key task_id run_id now = answer_prior t digest
confirm_known none project snapshot digest key task_id run_id now =
    open_task project snapshot digest key task_id run_id now

-- The transaction of `confirm`, which looks for the key again. `task_id` and `run_id` are new.
unfoldable pub confirm_tx : Project → TaskSnapshot → ℕ → String → ℕ → ℕ → ℕ → Tx (ℕ × ℕ)
unfolding confirm_known
confirm_tx project snapshot digest key task_id run_id now = do
  prior ← gets (λ db. first_where (has_key key) db.tasks)
  confirm_known prior project snapshot digest key task_id run_id now

-- What a person sends.
pub record Confirmation : Type 0 where
  pub draft_id : ℕ
  pub revision : ℕ
  pub key : String
  pub tests_confirmed : Bool
  pub keep_pinned : Bool

-- The head of the pull request has moved.
abbrev pub has_moved : (String → ℕ) → TaskSnapshot → Bool
has_moved head_of snapshot = elim snapshot.source [
  | none ↦ false
  | some s ↦ not (head_of s.pr_url == snapshot.execution_sha)
]

unfoldable pub confirm_fresh :
    Db
    → (TaskSnapshot → ℕ)
    → (String → ℕ)
    → Bool
    → TaskDraft
    → Confirmation
    → ℕ
    → ℕ
    → ℕ
    → Tx (ℕ × ℕ)
unfolding confirm_tx
confirm_fresh seen digest_of head_of has_commit draft input task_id run_id now = do
  raise_if (not (draft.revision == input.revision) || ltb draft.expires_at now)
      (conflict "Draft expired or changed")
  project ← or_raise (find project_key draft.project_id seen.projects) (not_found "Repository")
  raise_if (has_moved head_of draft.snapshot && not input.keep_pinned)
      (conflict "PR changed; refresh draft or explicitly keep the pinned SHA")
  raise_if (not has_commit) (bad_request "commit not found")
  confirm_tx project draft.snapshot (digest_of draft.snapshot) input.key task_id run_id now

unfoldable pub confirm_read :
    Option Task
    → Db
    → (TaskSnapshot → ℕ)
    → (String → ℕ)
    → Bool
    → TaskDraft
    → Confirmation
    → ℕ
    → ℕ
    → ℕ
    → Tx (ℕ × ℕ)
unfolding answer_prior confirm_fresh
confirm_read (some t) seen digest_of head_of has_commit draft input task_id run_id now =
    answer_prior t (digest_of draft.snapshot)
confirm_read none seen digest_of head_of has_commit draft input task_id run_id now =
    confirm_fresh seen digest_of head_of has_commit draft input task_id run_id now

abbrev pub is_complete : Confirmation → Bool
is_complete input =
    input.tests_confirmed && not (len input.key == 0) && not (ltb 200 (len input.key))

-- `confirm`. `seen` is the database at the reads before the transaction; `head_of` is the head that the
-- GitHub API reports of a pull request, `has_commit` whether git has the commit of the snapshot.
unfoldable pub confirm :
    Db → (TaskSnapshot → ℕ) → (String → ℕ) → Bool → Confirmation → ℕ → ℕ → ℕ → Tx (ℕ × ℕ)
unfolding confirm_read
confirm seen digest_of head_of has_commit input task_id run_id now = do
  raise_if (not (is_complete input)) (bad_request "Confirm tests and supply an idempotency key")
  draft ←
      or_raise (find (λ (d : TaskDraft). d.id) input.draft_id seen.drafts)
        (not_found "Draft not found")
  confirm_read (first_where (has_key input.key) seen.tasks) seen digest_of head_of has_commit draft
      input task_id run_id now
