-- ===== src/Run/Cancelling.antt =====
-- What `cancel` of run-control.service.ts promises.
use agent_reliability_platfo.Base.{
  ℕ, ◌+◌, ◌≡◌, refl, false, ◌&&◌, Option, none, some, List, [], ◌∷◌, arith, any, ◌==◌, Option-cases,
  inl, inr,
}
use agent_reliability_platfo.Shared.Enums.{
  TaskStatus, RunStatus, AttemptStatus, FailureCode, ◌===◌, run_status_enum, includes,
}
use agent_reliability_platfo.Store.Table.{find, find-key, modify, find-modify, modify_where}
use agent_reliability_platfo.Store.Rows.{Run, Task, Attempt, Db, Phase}
use agent_reliability_platfo.Store.Tx.{ok, pure, ◌>>=◌, ◌>>◌, gets, or_raise, raise_if, alter}
use agent_reliability_platfo.Store.Queries.{
  run_key, task_key, find_run, find_task, update_run, update_task, insert_event, is_live,
}
use agent_reliability_platfo.Run.Clock.{elapsed_seconds}
use agent_reliability_platfo.Run.Transition.{append_synthetic_event}
use agent_reliability_platfo.Run.Worker.{control_event}
use agent_reliability_platfo.Run.Control.{cancel, cancel_run, cancel_attempts}

-- The live attempts of a run are marked; none is left.
none_live :
    (id now : ℕ) (rest : List Attempt)
    → any
        (λ (a : Attempt). a.run_id == id && is_live a.status)
        (modify_where
          (λ a. a.run_id == id && is_live a.status)
          (λ a. record a {
            status = AttemptStatus.failed;
            failure_code = some FailureCode.cancelled_by_user;
            ended_at = some now;
          })
          rest)
      ≡ false
unfolding modify_where
none_live id now [] = refl
none_live id now (a ∷ rest) = ground (arith, none_live id now rest)

-- The run after a cancellation: its clock stopped, and one event in its log.
abbrev pub cancelled_run : Run → ℕ → Run
cancelled_run run now = record run {
  status = RunStatus.cancelled;
  phase = Phase.cancelled;
  used_seconds = run.used_seconds + elapsed_seconds run.active_started_at now;
  active_started_at = none;
  last_sequence = run.last_sequence + 1;
}

abbrev pub status_of : Option Task → Option TaskStatus
status_of none = none
status_of (some t) = some t.status

-- A cancellation that is granted to a run that was not cancelled yet: the run was neither succeeded nor
-- failed; it is cancelled and so is its task, its clock has stopped, no attempt of it is live, and a
-- second cancellation changes nothing.
pub cancel-ends :
    (id now later : ℕ) (db db' : Db) (run : Run)
    → find run_key id db.runs ≡ some run
    → (run.status === RunStatus.cancelled) ≡ false
    → cancel id now db ≡ ok tt db'
    → (includes (RunStatus.succeeded ∷ RunStatus.failed ∷ []) run.status ≡ false)
      × (find run_key id db'.runs ≡ some (cancelled_run run now))
      × (status_of (find task_key run.task_id db'.tasks) ≡ some TaskStatus.cancelled)
      × (any (λ (a : Attempt). a.run_id == id && is_live a.status) db'.attempts ≡ false)
      × (cancel id later db' ≡ ok tt db')
unfolding cancel cancel_run cancel_attempts control_event append_synthetic_event find_run update_run
    find_task update_task insert_event gets or_raise raise_if alter pure ◌>>=◌ ◌>>◌
cancel-ends id now later db db' run found alive done =
    elim (Option-cases (find task_key run.task_id db.tasks)) [
      | inl missing ↦ ground (arith, find-key run_key id db.runs run found)
      | inr (t, there) ↦ ground (
        arith,
        none_live id now db.attempts,
        find-key run_key id db.runs run found,
        find-modify run_key id id
            (λ r. record r {
              status = RunStatus.cancelled;
              phase = Phase.cancelled;
              used_seconds = r.used_seconds + elapsed_seconds run.active_started_at now;
              active_started_at = none;
            })
            db.runs (λ q. refl),
        find-modify run_key id id (λ r. record r { last_sequence = r.last_sequence + 1 })
            (modify run_key id
              (λ r. record r {
                status = RunStatus.cancelled;
                phase = Phase.cancelled;
                used_seconds = r.used_seconds + elapsed_seconds run.active_started_at now;
                active_started_at = none;
              })
              db.runs)
            (λ q. refl),
        find-modify task_key run.task_id run.task_id
            (λ t. record t { status = TaskStatus.cancelled }) db.tasks (λ q. refl),
      )
    ]
