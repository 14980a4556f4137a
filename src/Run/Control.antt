-- ===== src/Run/Control.antt =====
-- apps/control-plane/src/modules/run/run-control.service.ts: the commands of people: pause (also a
-- worker's), cancel and resume.
use Prim.Native.String.{String}
use text.Mathlib.Text.{◌==◌ as text_eq}
use agent_reliability_platfo.Base.{
  ℕ, ◌+◌, Bool, false, not, ◌&&◌, ◌||◌, Option, none, some, List, [], ◌∷◌, ◌==◌, leb, filter,
  length, if◌then◌else◌,
}
use agent_reliability_platfo.Shared.Enums.{
  TaskStatus, RunStatus, AttemptStatus, FailureCode, ArtifactKind, OutboxStatus, ◌===◌,
  run_status_enum, attempt_status_enum, includes,
}
use agent_reliability_platfo.Shared.TaskSnapshot.{TaskSnapshot}
use agent_reliability_platfo.Store.Table.{last_where, modify_where}
use agent_reliability_platfo.Store.Rows.{Phase, Task, Run, Attempt, Checkpoint, run_moved, Db}
use agent_reliability_platfo.Store.Tx.{
  Tx, pure, ◌>>=◌, ◌>>◌, gets, alter, raise_if, or_raise, conflict,
}
use agent_reliability_platfo.Store.Queries.{
  find_project, find_task, find_run, find_attempt, update_task, update_run, update_attempt,
  insert_message, has_unsettled, latest_no, is_live,
}
use agent_reliability_platfo.Run.Clock.{elapsed_seconds, has_passed}
use agent_reliability_platfo.Run.Commands.{command_from_snapshot}
use agent_reliability_platfo.Run.Complete.{store_artifact, truthy}
use agent_reliability_platfo.Run.Worker.{control_event, lease}

-- `pause`: the attempt ends, and the task waits for a person.
unfoldable pub pause : ℕ → Option ℕ → String → Option String → ℕ → Tx (Unit {0})
pause attempt_id token reason patch now = do
  owner ← find_attempt attempt_id
  held ← lease attempt_id token false now
  update_run held.0.run_id (λ r. record r {
    status = RunStatus.interrupted;
    phase = Phase.needs_attention;
    used_seconds = r.used_seconds + elapsed_seconds held.1.active_started_at now;
    active_started_at = none;
  })
  update_attempt attempt_id (λ a. record a { status = AttemptStatus.failed; ended_at = some now })
  update_task held.1.task_id
      (λ t. record t { status = TaskStatus.needs_attention; attention_reason = some reason })
  store_artifact held.0.run_id attempt_id ArtifactKind.patch "candidate.patch" (truthy patch)
  control_event held.0.run_id (run_moved held.1.status RunStatus.interrupted) now

-- The running attempt of the run with the highest number.
abbrev later_running : Attempt → Option Attempt → Option Attempt
later_running a none = some a
later_running a (some b) = if leb a.no b.no then some b else some a

unfoldable pub running_attempt : ℕ → List Attempt → Option Attempt
running_attempt run_id [] = none
running_attempt run_id (a ∷ rest) =
    let others = running_attempt run_id rest in
    if a.run_id == run_id && a.status === AttemptStatus.running
    then later_running a others
    else others

abbrev token_of : Option Attempt → Option (ℕ × ℕ)
token_of none = none
token_of (some a) = elim a.lease_token [ none ↦ none | some t ↦ some (a.id, t) ]

-- `pauseRun`. `seen` is the database at the read before the transaction.
unfoldable pub pause_run : Db → ℕ → ℕ → Tx (Unit {0})
unfolding running_attempt
pause_run seen run_id now = do
  held ←
      or_raise (token_of (running_attempt run_id seen.attempts))
        (conflict "No active attempt to pause")
  pause held.0 (some held.1) "PAUSED_BY_USER" none now

-- `updateMany` of the live attempts.
unfoldable pub cancel_attempts : ℕ → ℕ → Tx (Unit {0})
cancel_attempts run_id now = alter (λ db. record db {
  attempts =
      modify_where (λ a. a.run_id == run_id && is_live a.status)
        (λ a. record a {
          status = AttemptStatus.failed;
          failure_code = some FailureCode.cancelled_by_user;
          ended_at = some now;
        })
        db.attempts;
})

unfoldable pub cancel_run : Run → ℕ → Tx (Unit {0})
cancel_run run now = do
  raise_if (includes (RunStatus.succeeded ∷ RunStatus.failed ∷ []) run.status)
      (conflict "Run is terminal")
  update_run run.id (λ r. record r {
    status = RunStatus.cancelled;
    phase = Phase.cancelled;
    used_seconds = r.used_seconds + elapsed_seconds run.active_started_at now;
    active_started_at = none;
  })
  update_task run.task_id (λ t. record t { status = TaskStatus.cancelled })
  cancel_attempts run.id now
  control_event run.id (run_moved run.status RunStatus.cancelled) now

-- `cancel`: a cancelled run stays as it is.
unfoldable pub cancel : ℕ → ℕ → Tx (Unit {0})
cancel run_id now = do
  run ← find_run run_id
  if run.status === RunStatus.cancelled then pure tt else cancel_run run now

-- The reasons that only a new task can mend.
abbrev needs_new_task : Option String → Bool
needs_new_task none = false
needs_new_task (some reason) =
    text_eq reason "NOT_REPRODUCED"
    || text_eq reason "EVIDENCE_MISMATCH"
    || text_eq reason "CONTRACT_CHANGED"

abbrev point_of : Option Checkpoint → Option ℕ
point_of none = none
point_of (some c) = some c.id

-- What a run must still have to be resumed.
unfoldable pub cannot_resume : Run → ℕ → Bool → ℕ → Bool
cannot_resume run attempts unsettled now =
    leb run.budget_tokens run.used_tokens
    || leb run.budget_seconds run.used_seconds
    || leb run.max_attempts attempts
    || unsettled
    || has_passed run.deadline_at now

unfoldable pub resume_snapshot : Run → Task → TaskSnapshot → ℕ → Tx (Unit {0})
resume_snapshot run task snapshot now = do
  project ← find_project task.project_id
  attempts ← gets (λ db. length (filter (λ a. a.run_id == run.id) db.attempts))
  unsettled ← gets (has_unsettled run.id)
  raise_if (cannot_resume run attempts unsettled now)
      (conflict "Budget, attempts or unresolved usage prevents resume")
  raise_if (needs_new_task task.attention_reason)
      (conflict "Revise the acceptance contract in a new task")
  point ← gets (λ db. point_of (last_where (λ c. c.run_id == run.id) db.checkpoints))
  latest ← gets (λ db. latest_no run.id db.attempts)
  update_run run.id (λ r. record r { status = RunStatus.dispatched; phase = Phase.queued })
  update_task run.task_id (λ t. record t { status = TaskStatus.queued; attention_reason = none })
  insert_message (record {
    topic = "run-commands";
    key = run.id;
    payload =
        command_from_snapshot snapshot project.repo_path run.id (latest + 1) run.used_tokens
          run.used_seconds point;
    status = OutboxStatus.pending;
    attempts = 0;
    published_at = none;
    not_before = now;
  })
  control_event run.id (run_moved run.status RunStatus.dispatched) now

-- `resume`
unfoldable pub resume : ℕ → ℕ → Tx (Unit {0})
resume run_id now = do
  run ← find_run run_id
  task ← find_task run.task_id
  raise_if (not (run.status === RunStatus.interrupted))
      (conflict "Only paused snapshot tasks can resume")
  snapshot ← or_raise task.snapshot (conflict "Only paused snapshot tasks can resume")
  resume_snapshot run task snapshot now
