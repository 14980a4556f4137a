-- ===== src/Run/Transition.antt =====
-- run-lifecycle.service.ts: the events that the platform writes, and the checked changes of status.
use agent_reliability_platfo.Base.{ℕ, ◌+◌, Bool, false, not, Option, none, some}
use agent_reliability_platfo.Shared.Enums.{
  TaskStatus, RunStatus, TraceEventType, state_transition, ◌===◌, run_status_enum, task_status_enum,
}
use agent_reliability_platfo.StateMachine.{
  Entity, allowed, invalid_transition, task_transitions, run_transitions, assert_transition,
}
use agent_reliability_platfo.Store.Table.{find}
use agent_reliability_platfo.Store.Rows.{Run, Task, TraceEvent, Payload, run_moved, platform}
use agent_reliability_platfo.Store.Tx.{
  Tx, pure, raise, ◌>>=◌, ◌>>◌, gets, raise_if, conflict, invalid_run_transition,
  invalid_task_transition,
}
use agent_reliability_platfo.Store.Queries.{
  run_key, task_key, find_run, update_run, update_task, insert_event,
}

-- The event of `appendSyntheticEvent`; the platform's events take no sequence of an attempt.
abbrev pub synthetic_event : ℕ → TraceEventType → Payload → Option ℕ → ℕ → ℕ → TraceEvent
synthetic_event run_id kind payload attempt_id now sequence = record {
  run_id = run_id;
  attempt_id = attempt_id;
  run_sequence = sequence;
  attempt_sequence = 0;
  kind = kind;
  payload = payload;
  idempotency_key = platform run_id sequence;
  occurred_at = now;
}

-- `appendSyntheticEvent`: the next sequence of the run, and an event that carries it.
unfoldable pub append_synthetic_event : ℕ → TraceEventType → Payload → Option ℕ → ℕ → Tx (Unit {0})
append_synthetic_event run_id kind payload attempt_id now = do
  update_run run_id (λ r. record r { last_sequence = r.last_sequence + 1 })
  run ← find_run run_id
  insert_event (synthetic_event run_id kind payload attempt_id now run.last_sequence)

abbrev pub run_is : RunStatus → Option Run → Bool
run_is status none = false
run_is status (some r) = r.status === status

abbrev pub task_is : TaskStatus → Option Task → Bool
task_is status none = false
task_is status (some t) = t.status === status

-- The state machine's assertion, which throws.
unfoldable pub assert_run_transition : RunStatus → RunStatus → Tx (Unit {0})
assert_run_transition from to = elim (assert_transition run_transitions Entity.run from to) [
  | allowed _ ↦ pure tt
  | invalid_transition _ a b ↦ raise (invalid_run_transition a b)
]

unfoldable pub assert_task_transition : TaskStatus → TaskStatus → Tx (Unit {0})
assert_task_transition from to = elim (assert_transition task_transitions Entity.task from to) [
  | allowed _ ↦ pure tt
  | invalid_transition _ a b ↦ raise (invalid_task_transition a b)
]

-- `transitionRun`: `updateMany` where the status is still `from`, and an event of the change.
unfoldable pub transition_run : ℕ → RunStatus → RunStatus → ℕ → Tx (Unit {0})
transition_run run_id from to now = do
  assert_run_transition from to
  raise_if (not (run_is from (← gets (λ db. find run_key run_id db.runs))))
      (conflict "Run status changed, transition failed")
  update_run run_id (λ r. record r { status = to })
  append_synthetic_event run_id state_transition (run_moved from to) none now

-- `transitionTask`
unfoldable pub transition_task : ℕ → TaskStatus → TaskStatus → Tx (Unit {0})
transition_task task_id from to = do
  assert_task_transition from to
  raise_if (not (task_is from (← gets (λ db. find task_key task_id db.tasks))))
      (conflict "Task status changed, transition failed")
  update_task task_id (λ t. record t { status = to })
