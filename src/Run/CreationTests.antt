-- ===== src/Run/CreationTests.antt =====
-- Tasks that are created on an empty database: a public demonstration, and a confirmed draft.
use text.Mathlib.Text.{◌==◌ as text_eq}
use agent_reliability_platfo.Base.{◌<◌, ◌≡◌, refl, true, false, ◌||◌, none, some, [], ◌∷◌}
use agent_reliability_platfo.Shared.Enums.{
  TaskStatus, RunStatus, AgentKind, OutboxStatus, start_run, state_transition,
}
use agent_reliability_platfo.Shared.RunCommand.{run_command_id}
use agent_reliability_platfo.StateMachine.{assert_transition, run_transitions, task_transitions}
use agent_reliability_platfo.Store.Examples.{empty}
use agent_reliability_platfo.Store.Table.{find, modify, first_where}
use agent_reliability_platfo.Store.Rows.{OutboxMessage, Db, run_moved}
use agent_reliability_platfo.Store.Tx.{
  record_missing, ok, gets, or_raise, raise_if, alter, when, pure, ◌>>=◌, ◌>>◌,
}
use agent_reliability_platfo.Store.Queries.{
  run_key, insert_workspace, insert_project, insert_task, insert_run, insert_event, insert_message,
  find_run, find_task, update_run, update_task,
}
use agent_reliability_platfo.Run.Transition.{
  synthetic_event, append_synthetic_event, assert_run_transition, assert_task_transition,
  transition_run, transition_task,
}
use agent_reliability_platfo.Run.Commands.{lookup_fixture, get_fixture, build_run_command}
use agent_reliability_platfo.Run.Demo.{assert_demo_input, assert_demo_capacity, is_above, is_self}
use agent_reliability_platfo.Run.Creation.{
  new_run, new_task, demo_input, active_runs, tasks_today, admit_demo, default_project,
  ensure_default_project, first_command, create_tx, create_task,
}
use agent_reliability_platfo.Shared.TaskSnapshot.{TaskSnapshot, DeliveryKind, Preparation}
use agent_reliability_platfo.Store.Rows.{Project, TaskDraft}
use agent_reliability_platfo.Run.Commands.{command_from_snapshot}
use agent_reliability_platfo.Run.Confirmation.{
  confirmed_task, confirmed_run, open_task, confirm_known, confirm_tx, Confirmation, confirm_fresh,
  confirm_read, confirm,
}
use agent_reliability_platfo.Run.Once.{confirm-once}
use agent_reliability_platfo.Run.Examples.{shown, wanted, new_ids}
use agent_reliability_platfo.Run.Budgeted.{budget_of}
use agent_reliability_platfo.Run.Admission.{create_task-demo}

abbrev first_message : OutboxMessage
first_message = record {
  topic = "run-commands";
  key = 4;
  payload = record {
    snapshot = none;
    command_id = record { run = 4; kind = start_run; attempt = 1 };
    kind = start_run;
    run_id = 4;
    attempt_no = 1;
    agent_kind = AgentKind.self_langgraph;
    repo = record { path = "/fixtures"; base_commit = 77 };
    task_spec = shown.task_spec;
    budget = record {
      tokens = 10_000;
      seconds = 180;
      turns = 10;
      remaining_tokens = 10_000;
      remaining_seconds = 180;
    };
    checkpoint_id = none;
  };
  status = OutboxStatus.pending;
  attempts = 0;
  published_at = none;
  not_before = 5_000;
}

abbrev created : Db
created = record empty {
  workspaces = record { id = 1; name = "default" } ∷ [];
  projects =
      record {
        id = 2;
        workspace_id = 1;
        name = "default";
        repo_path = "";
        github_repo = none;
        write_credential = none;
      }
      ∷ [];
  tasks = record (new_task 3 2 (demo_input wanted) shown 5_000) { status = TaskStatus.queued } ∷ [];
  runs =
      record (new_run 4 3 (demo_input wanted) 77) {
        status = RunStatus.dispatched;
        last_sequence = 1;
      }
      ∷ [];
  events =
      synthetic_event 4 state_transition (run_moved RunStatus.pending RunStatus.dispatched) none
        5_000 1
      ∷ [];
  outbox = first_message ∷ [];
}

create_task-empty :
    create_task true (λ path ref. some 77) record_missing (shown ∷ []) wanted new_ids 5_000 empty
    ≡ ok (3, 4) created
unfolding create_task create_tx assert_demo_input assert_demo_capacity admit_demo active_runs
    tasks_today ensure_default_project default_project first_command build_run_command get_fixture
    lookup_fixture run_command_id transition_run transition_task assert_run_transition
    assert_task_transition assert_transition run_transitions task_transitions append_synthetic_event
    insert_event insert_workspace insert_project insert_task insert_run insert_message find_run
    find_task update_run update_task find modify first_where gets or_raise raise_if alter when pure
    ◌>>=◌ ◌>>◌
create_task-empty = refl

create_task-demo_example :
    (active_runs empty ≡ 0)
    × (tasks_today 5_000 empty < 100)
    × (text_eq "py-logic-001" "py-logic-001" || text_eq "py-logic-001" "ts-logic-001" ≡ true)
    × (is_self AgentKind.self_langgraph ≡ true)
    × (is_above none 10_000 || is_above (some 60) 180 || is_above none 10 ≡ false)
    × (budget_of (find run_key 4 created.runs) ≡ some (10_000, 180, 10))
create_task-demo_example =
    create_task-demo (λ path ref. some 77) record_missing (shown ∷ []) wanted new_ids 5_000 empty
      created (3, 4) create_task-empty

abbrev snapshot : TaskSnapshot
snapshot = record {
  repository_id = 1;
  parent_task_id = none;
  config_version = 1;
  execution_sha = 5;
  agent_kind = AgentKind.self_langgraph;
  title = "fix";
  description = "a failing test";
  config = record {
    default_delivery = none;
    preparation = Preparation.image;
    image = "python";
    dependency_files = [];
    workdir = ".";
    allowed_paths = "src" ∷ [];
    protected_paths = [];
    static_check = [];
    fail_to_pass = [];
    pass_to_pass = [];
    acceptance_criteria = "passes" ∷ [];
  };
  baseline = record { command = "pytest"; expected = "failed" ∷ [] };
  budget = record { tokens = 1_000; seconds = 600; turns = 20; max_attempts = 3 };
  delivery = record {
    kind = DeliveryKind.pull_request;
    target_branch = "main";
    expected_target_sha = 5;
  };
  source = none;
}

abbrev repository : Project
repository = record {
  id = 1;
  workspace_id = 1;
  name = "calc";
  repo_path = "/repos/calc";
  github_repo = none;
  write_credential = none;
}

-- The draft expires at time 5,500, between the two confirmations.
abbrev draft : TaskDraft
draft = record { id = 9; project_id = 1; snapshot = snapshot; revision = 1; expires_at = 5_500 }

abbrev drafted : Db
drafted = record empty { projects = repository ∷ []; drafts = draft ∷ [] }

abbrev sent : Confirmation
sent = record {
  draft_id = 9;
  revision = 1;
  key = "key";
  tests_confirmed = true;
  keep_pinned = false;
}

abbrev confirmed : Db
confirmed = record drafted {
  tasks = confirmed_task 3 1 snapshot 99 "key" 5_000 ∷ [];
  runs = confirmed_run 4 3 snapshot 5_000 ∷ [];
  outbox =
      record {
        topic = "run-commands";
        key = 4;
        payload = command_from_snapshot snapshot "/repos/calc" 4 1 0 0 none;
        status = OutboxStatus.pending;
        attempts = 0;
        published_at = none;
        not_before = 5_000;
      }
      ∷ [];
}

confirm-drafted :
    confirm drafted (λ s. 99) (λ url. 5) true sent 3 4 5_000 drafted ≡ ok (3, 4) confirmed
unfolding confirm confirm_read confirm_fresh confirm_tx confirm_known open_task insert_task
    insert_run insert_message find first_where gets raise_if or_raise alter pure ◌>>=◌ ◌>>◌
confirm-drafted = refl

confirm-once_example :
    confirm confirmed
      (λ s. 99)
      (λ url. 6)
      false
      (record sent { revision = 2 })
      13
      14
      6_000
      confirmed
    ≡ ok (3, 4) confirmed
confirm-once_example =
    confirm-once drafted (λ s. 99) (λ url. 5) (λ url. 6) true false sent
      (record sent { revision = 2 }) 3 4 5_000 13 14 6_000 drafted confirmed draft (3, 4)
      (unfold find in refl) (unfold find in refl) (λ t known. known) (unfold first_where in refl)
      confirm-drafted refl refl refl
