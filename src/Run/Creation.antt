-- ===== src/Run/Creation.antt =====
-- run-lifecycle.service.ts, `createTask`: a task, its run and the first command in one transaction.
use Prim.Native.String.{String}
use text.Mathlib.Text.{◌==◌ as text_eq}
use agent_reliability_platfo.Base.{
  ℕ, zero, suc, ◌-◌, ◌%◌, Bool, false, Option, none, some, List, [], ◌∷◌, leb, filter, length,
  if◌then◌else◌,
}
use agent_reliability_platfo.Shared.Enums.{
  TaskSource, TaskStatus, RunStatus, AgentKind, OutboxStatus, start_run, includes, run_status_enum,
}
use agent_reliability_platfo.Store.Table.{first_where}
use agent_reliability_platfo.Store.Rows.{Project, Task, Run, Phase, FeedbackMode, Db}
use agent_reliability_platfo.Store.Tx.{Tx, Error, pure, ◌>>=◌, ◌>>◌, gets, when, or_raise}
use agent_reliability_platfo.Store.Queries.{
  insert_workspace, insert_project, insert_task, insert_run, insert_message,
}
use agent_reliability_platfo.Run.Transition.{transition_run, transition_task}
use agent_reliability_platfo.Run.Commands.{Fixture, get_fixture, build_run_command}
use agent_reliability_platfo.Run.Demo.{assert_demo_input, assert_demo_capacity}

pub record TaskInput : Type 0 where
  pub fixture_id : String
  pub agent_kind : AgentKind
  pub recovery_disabled : Option Bool
  pub feedback_mode : Option FeedbackMode
  pub budget_tokens : Option ℕ
  pub budget_seconds : Option ℕ
  pub budget_turns : Option ℕ
  pub source : Option TaskSource
  pub source_ref : Option String

-- The identifiers that the database generates.
pub record NewIds : Type 0 where
  pub workspace : ℕ
  pub project : ℕ
  pub task : ℕ
  pub run : ℕ

abbrev pub or_default {ℓ} : {A : Type ℓ} → Option A → A → A
or_default none d = d
or_default (some a) d = a

-- `input.budgetTokens ? ... : {}`, where the column has a default
abbrev pub or_column : Option ℕ → ℕ → ℕ
or_column none d = d
or_column (some zero) d = d
or_column (some (suc n)) d = suc n

-- What a demonstration replaces in the input.
abbrev pub demo_input : TaskInput → TaskInput
demo_input input = record input {
  budget_tokens = some 10_000;
  budget_seconds = some 180;
  budget_turns = some 10;
}

-- The runs that are under way, and the tasks that were created since midnight (UTC).
abbrev pub is_active : Run → Bool
is_active r =
    includes
      (RunStatus.pending ∷ RunStatus.dispatched ∷ RunStatus.running ∷ RunStatus.verifying
        ∷ RunStatus.recovering ∷ [])
      r.status

unfoldable pub active_runs : Db → ℕ
active_runs db = length (filter is_active db.runs)

unfoldable pub tasks_today : ℕ → Db → ℕ
tasks_today now db =
    length (filter (λ (t : Task). leb (now - now % 86_400_000) t.created_at) db.tasks)

unfoldable pub admit_demo : ℕ → Tx (Unit {0})
admit_demo now = do
  active ← gets active_runs
  today ← gets (tasks_today now)
  assert_demo_capacity active today

unfoldable pub default_project : NewIds → Option Project → Tx Project
default_project ids (some p) = pure p
default_project ids none = do
  insert_workspace (record { id = ids.workspace; name = "default" })
  let p : Project = record {
    id = ids.project;
    workspace_id = ids.workspace;
    name = "default";
    repo_path = "";
    github_repo = none;
    write_credential = none;
  }
  insert_project p
  pure p

-- `ensureDefaultProject`
unfoldable pub ensure_default_project : NewIds → Tx Project
unfolding default_project
ensure_default_project ids = do
  existing ← gets (λ db. first_where (λ (p : Project). text_eq p.name "default") db.projects)
  default_project ids existing

abbrev pub new_run : ℕ → ℕ → TaskInput → ℕ → Run
new_run id task_id input base_commit = record {
  id = id;
  task_id = task_id;
  agent_kind = input.agent_kind;
  status = RunStatus.pending;
  base_commit = base_commit;
  max_attempts = 3;
  budget_tokens = or_column input.budget_tokens 200_000;
  budget_seconds = or_column input.budget_seconds 900;
  budget_turns = or_column input.budget_turns 30;
  used_tokens = 0;
  used_seconds = 0;
  last_sequence = 0;
  recovery_disabled = or_default input.recovery_disabled false;
  feedback_mode = or_default input.feedback_mode FeedbackMode.structured;
  phase = Phase.queued;
  environment_id = none;
  image_id = none;
  active_started_at = none;
  deadline_at = none;
}

abbrev pub new_task : ℕ → ℕ → TaskInput → Fixture → ℕ → Task
new_task id project_id input fixture now = record {
  id = id;
  project_id = project_id;
  title = fixture.title;
  description = fixture.task_spec.description;
  source = or_default input.source TaskSource.manual;
  source_ref = input.source_ref;
  allowed_paths = fixture.task_spec.allowed_paths;
  created_at = now;
  parent_task_id = none;
  snapshot_digest = none;
  confirmation_key = none;
  fixture_id = some fixture.id;
  status = TaskStatus.created;
  snapshot = none;
  attention_reason = none;
}

unfoldable pub first_command : List Fixture → Fixture → Run → TaskInput → ℕ → ℕ → Tx (Unit {0})
first_command fixtures fixture run input base_commit now = do
  command ← build_run_command fixtures (record {
    kind = start_run;
    run_id = run.id;
    attempt_no = 1;
    agent_kind = input.agent_kind;
    fixture_id = fixture.id;
    checkpoint_id = none;
    budget = record {
      tokens = run.budget_tokens;
      seconds = run.budget_seconds;
      turns = run.budget_turns;
      remaining_tokens = run.budget_tokens;
      remaining_seconds = run.budget_seconds;
    };
  })
  insert_message (record {
    topic = "run-commands";
    key = run.id;
    payload = record command { repo = record command.repo { base_commit = base_commit } };
    status = OutboxStatus.pending;
    attempts = 0;
    published_at = none;
    not_before = now;
  })

-- The transaction of `createTask`.
unfoldable pub create_tx : Bool → List Fixture → Fixture → TaskInput → ℕ → NewIds → ℕ → Tx (ℕ × ℕ)
create_tx demo fixtures fixture input base_commit ids now = do
  when demo (admit_demo now)
  project ← ensure_default_project ids
  insert_task (new_task ids.task project.id input fixture now)
  let run = new_run ids.run ids.task input base_commit
  insert_run run
  transition_task ids.task TaskStatus.created TaskStatus.queued
  first_command fixtures fixture run input base_commit now
  transition_run ids.run RunStatus.pending RunStatus.dispatched now
  pure (ids.task, ids.run)

-- `GitStore.resolve` finds the commit of a reference, or fails with an exception.
abbrev pub resolved : (String → ℕ → Option ℕ) → Fixture → Option ℕ
resolved resolve fixture =
    if text_eq fixture.id "fake"
    then some fixture.base_commit
    else resolve fixture.repo_path fixture.base_commit

-- `createTask`. `demo` is `ARP_PUBLIC_DEMO`, `git_error` the exception of a failed resolution.
unfoldable pub create_task :
    Bool → (String → ℕ → Option ℕ) → Error → List Fixture → TaskInput → NewIds → ℕ → Tx (ℕ × ℕ)
create_task demo resolve git_error fixtures input ids now = do
  when demo (
      assert_demo_input input.fixture_id input.agent_kind input.budget_tokens input.budget_seconds
        input.budget_turns)
  let asked = if demo then demo_input input else input
  fixture ← get_fixture fixtures asked.fixture_id
  base_commit ← or_raise (resolved resolve fixture) git_error
  create_tx demo fixtures fixture asked base_commit ids now
