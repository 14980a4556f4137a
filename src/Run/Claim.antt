-- ===== src/Run/Claim.antt =====
-- run-lifecycle.service.ts: a worker claims an attempt, and renews its lease.
use agent_reliability_platfo.Base.{
  ℕ, ◌+◌, Bool, true, false, not, ◌&&◌, ◌||◌, Option, none, some, ltb, ◌==◌,
}
use agent_reliability_platfo.Shared.Enums.{
  TaskStatus, RunStatus, AttemptStatus, ◌===◌, run_status_enum, task_status_enum,
}
use agent_reliability_platfo.Store.Table.{find, first_where}
use agent_reliability_platfo.Store.Rows.{Run, Attempt, Db}
use agent_reliability_platfo.Store.Tx.{
  Tx, pure, raise, ◌>>=◌, ◌>>◌, gets, raise_if, when, conflict, not_found,
}
use agent_reliability_platfo.Store.Queries.{
  run_key, attempt_key, find_run, find_task, update_run, update_attempt, insert_attempt, latest_no,
  is_live,
}
use agent_reliability_platfo.Run.Transition.{transition_run, transition_task}

pub record Claim : Type 0 where
  pub attempt_id : ℕ
  pub lease_token : Option ℕ
  pub duplicate : Bool

pub record ClaimInput : Type 0 where
  pub run_id : ℕ
  pub attempt_no : ℕ
  pub worker_id : ℕ

-- `new Date(x.getTime() ...)` where the run has started before, the present where it has not
abbrev pub started_or : Option ℕ → ℕ → ℕ
started_or none now = now
started_or (some t) now = t

-- The new attempt of `claimAttempt`, where it is the next of a run that waits for a worker. `id` and
-- `token` are the new identifiers.
unfoldable pub open_attempt : ClaimInput → ℕ → ℕ → ℕ → ℕ → Tx (Unit {0})
open_attempt input id token ttl now = do
  current ← find_run input.run_id
  latest ← gets (λ db. latest_no input.run_id db.attempts)
  raise_if
      (not (current.status === RunStatus.dispatched)
        || not (input.attempt_no == latest + 1)
        || ltb current.max_attempts input.attempt_no)
      (conflict "Attempt is not dispatchable")
  insert_attempt (record {
    id = id;
    run_id = input.run_id;
    no = input.attempt_no;
    worker_id = input.worker_id;
    status = AttemptStatus.running;
    failure_code = none;
    lease_token = some token;
    lease_expires_at = some (now + ttl);
    ended_at = none;
  })

-- The transaction of `claimAttempt`. `run` is what was read before it began.
unfoldable pub claim_tx : Run → ClaimInput → ℕ → ℕ → ℕ → ℕ → Tx Claim
claim_tx run input id token ttl now = do
  open_attempt input id token ttl now
  transition_run input.run_id RunStatus.dispatched RunStatus.running now
  update_run input.run_id
      (λ r. record r { active_started_at = some (started_or run.active_started_at now) })
  task ← find_task run.task_id
  when (task.status === TaskStatus.queued)
      (transition_task task.id TaskStatus.queued TaskStatus.running)
  pure (record { attempt_id = id; lease_token = some token; duplicate = false })

-- What `claimAttempt` does about the run and the attempt that it read.
unfoldable pub claim_read : Option Run → Option Attempt → ClaimInput → ℕ → ℕ → ℕ → ℕ → Tx Claim
claim_read none existing input id token ttl now = raise (not_found "Run")
claim_read (some run) (some existing) input id token ttl now =
    pure (record { attempt_id = existing.id; lease_token = none; duplicate = true })
claim_read (some run) none input id token ttl now = do
  raise_if (not (run.status === RunStatus.dispatched)) (conflict "Run is not dispatchable")
  claim_tx run input id token ttl now

-- `claimAttempt`. `seen` is the database at the reads before the transaction, which other
-- transactions may have changed since.
unfoldable pub claim_attempt : Db → ClaimInput → ℕ → ℕ → ℕ → ℕ → Tx Claim
unfolding claim_read
claim_attempt seen input =
    claim_read (find run_key input.run_id seen.runs)
      (first_where (λ a. a.run_id == input.run_id && a.no == input.attempt_no) seen.attempts) input

abbrev pub attempt_live : Option Attempt → Bool
attempt_live none = false
attempt_live (some a) = is_live a.status

-- `heartbeat`
unfoldable pub heartbeat : ℕ → ℕ → ℕ → Tx ℕ
heartbeat attempt_id ttl now = do
  raise_if (not (attempt_live (← gets (λ db. find attempt_key attempt_id db.attempts))))
      (conflict "Attempt cannot renew its lease")
  update_attempt attempt_id (λ a. record a { lease_expires_at = some (now + ttl) })
  pure ttl
