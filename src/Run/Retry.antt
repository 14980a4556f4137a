-- ===== src/Run/Retry.antt =====
-- run-lifecycle.service.ts, the `RESUME` and `RESTART_ATTEMPT` of `applyPolicy`: a run that is tried
-- again is sent to the workers through the outbox.
use Prim.Native.String.{String}
use text.Mathlib.Text.{◌==◌ as text_eq}
use agent_reliability_platfo.Base.{
  ℕ, ◌+◌, ◌-◌, List, Bool, ◌&&◌, Option, none, some, leb, ◌==◌, is_some, if◌then◌else◌,
}
use agent_reliability_platfo.Shared.Enums.{
  TaskStatus, RunStatus, PolicyAction, OutboxStatus, recovery_action, resume, start_run, resume_run,
  ◌===◌, task_status_enum, policy_action_enum,
}
use agent_reliability_platfo.Shared.RunCommand.{RunCommand}
use agent_reliability_platfo.Shared.TaskSnapshot.{TaskSnapshot}
use agent_reliability_platfo.Policy.{PolicyDecisionResult}
use agent_reliability_platfo.Store.Table.{first_where, last_where}
use agent_reliability_platfo.Store.Rows.{
  Phase, Project, Task, Run, Checkpoint, OutboxMessage, recovery,
}
use agent_reliability_platfo.Store.Tx.{Tx, pure, ◌>>=◌, ◌>>◌, gets, when}
use agent_reliability_platfo.Store.Queries.{update_run, update_task, insert_message}
use agent_reliability_platfo.Run.Clock.{ceil_seconds}
use agent_reliability_platfo.Run.Transition.{append_synthetic_event, transition_run}
use agent_reliability_platfo.Run.Commands.{Fixture, build_run_command, command_from_snapshot}

-- The task waits for a person.
unfoldable pub need_attention : ℕ → String → Tx (Unit {0})
need_attention task_id reason =
    update_task task_id
      (λ t. record t { status = TaskStatus.needs_attention; attention_reason = some reason })

-- `run.task.fixtureId ?? 'fake'`
abbrev fixture_or_fake : Option String → String
fixture_or_fake none = "fake"
fixture_or_fake (some id) = id

-- `checkpoint?.id`
abbrev checkpoint_id : Option Checkpoint → Option ℕ
checkpoint_id none = none
checkpoint_id (some c) = some c.id

abbrev pub is_command_of : ℕ → OutboxMessage → Bool
is_command_of run_id m = m.key == run_id && text_eq m.topic "run-commands"

-- The first command's repository and specification, where it is still there.
abbrev frozen : Option OutboxMessage → RunCommand → RunCommand
frozen none command = command
frozen (some original) command = record command {
  repo = original.payload.repo;
  task_spec = original.payload.task_spec;
}

-- The command of a fixture task keeps the repository and the specification of the first command.
unfoldable pub command_for :
    List Fixture
    → Project
    → Option TaskSnapshot
    → Task
    → Run
    → ℕ
    → PolicyAction
    → Option ℕ
    → Tx RunCommand
command_for fixtures project (some snapshot) task run attempt_no action point = pure (
    command_from_snapshot snapshot project.repo_path run.id attempt_no run.used_tokens
      run.used_seconds point)
command_for fixtures project none task run attempt_no action point = do
  command ← build_run_command fixtures (record {
    kind = if action === resume && is_some point then resume_run else start_run;
    run_id = run.id;
    attempt_no = attempt_no;
    agent_kind = run.agent_kind;
    fixture_id = fixture_or_fake task.fixture_id;
    checkpoint_id = point;
    budget = record {
      tokens = run.budget_tokens;
      seconds = run.budget_seconds;
      turns = run.budget_turns;
      remaining_tokens = run.budget_tokens - run.used_tokens;
      remaining_seconds = run.budget_seconds - run.used_seconds;
    };
  })
  original ← gets (λ db. first_where (is_command_of run.id) db.outbox)
  pure (frozen original command)

-- The command of the next attempt.
unfoldable pub next_command :
    List Fixture → Project → Task → Run → ℕ → PolicyAction → Option ℕ → Tx RunCommand
next_command fixtures project task = command_for fixtures project task.snapshot task

-- The latest checkpoint, for a resumption only.
unfoldable pub resume_point : ℕ → PolicyAction → Tx (Option ℕ)
resume_point run_id action =
    if action === resume
    then gets (λ db. checkpoint_id (last_where (λ c. c.run_id == run_id) db.checkpoints))
    else pure none

-- `RESUME` and `RESTART_ATTEMPT`, from the choice of the checkpoint on.
unfoldable pub redispatch :
    List Fixture → Project → Task → Run → ℕ → ℕ → PolicyDecisionResult → ℕ → Tx (Unit {0})
redispatch fixtures project task run attempt_id attempt_no decision now = do
  point ← resume_point run.id decision.action
  transition_run run.id RunStatus.interrupted RunStatus.recovering now
  command ← next_command fixtures project task run (attempt_no + 1) decision.action point
  insert_message (record {
    topic = "run-commands";
    key = run.id;
    payload = command;
    status = OutboxStatus.pending;
    attempts = 0;
    published_at = none;
    not_before = now + decision.backoff_ms;
  })
  append_synthetic_event run.id recovery_action (recovery decision.action point (attempt_no + 1))
      (some attempt_id) now
  transition_run run.id RunStatus.recovering RunStatus.dispatched now

-- The time is used up.
unfoldable pub run_out : Run → Tx (Unit {0})
run_out run = do
  update_run run.id (λ r. record r { phase = Phase.needs_attention })
  need_attention run.task_id "BUDGET_EXHAUSTED"

-- The waiting time is charged to a snapshot task, which may use up its time.
unfoldable pub retry_run :
    List Fixture → Project → Task → Run → ℕ → ℕ → PolicyDecisionResult → ℕ → Tx (Unit {0})
retry_run fixtures project task run attempt_id attempt_no decision now = do
  let charged = record run { used_seconds = run.used_seconds + ceil_seconds decision.backoff_ms }
  let local = if is_some task.snapshot then charged else run
  when (is_some task.snapshot) (
      update_run run.id
        (λ r. record r { used_seconds = charged.used_seconds; phase = Phase.queued }))
  if is_some task.snapshot && leb run.budget_seconds charged.used_seconds
      then run_out run
      else redispatch fixtures project task local attempt_id attempt_no decision now
