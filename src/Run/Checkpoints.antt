-- ===== src/Run/Checkpoints.antt =====
-- run-lifecycle.service.ts: checkpoints are saved by the owner of a running attempt, and read by
-- the worker that resumes.
use Prim.Native.String.{String}
use agent_reliability_platfo.Base.{
  ℕ, Bool, not, ◌&&◌, ◌||◌, Option, none, some, List, [], ◌∷◌, ◌==◌, ltb, is_some, if◌then◌else◌,
}
use agent_reliability_platfo.Shared.Enums.{
  RunStatus, AttemptStatus, FailureCode, VerifierStep, ◌===◌, run_status_enum, attempt_status_enum,
  includes,
}
use agent_reliability_platfo.Store.Table.{find, last_where}
use agent_reliability_platfo.Store.Rows.{
  Attempt, CheckpointInput, Checkpoint, VerificationResult, FeedbackMode,
}
use agent_reliability_platfo.Store.Tx.{
  Tx, pure, ◌>>=◌, ◌>>◌, gets, raise_if, when, or_raise, conflict, not_found,
}
use agent_reliability_platfo.Store.Queries.{
  find_run, find_task, find_attempt, update_run, insert_checkpoint,
}
use agent_reliability_platfo.Run.Complete.{is_lapsed}

-- The statuses in which a worker may write.
abbrev pub is_executing : RunStatus → Bool
is_executing s = includes (RunStatus.running ∷ RunStatus.verifying ∷ []) s

-- `saveCheckpoint`; `id` is new.
unfoldable pub save_checkpoint : ℕ → CheckpointInput → ℕ → ℕ → Tx ℕ
save_checkpoint run_id input id now = do
  run ← find_run run_id
  task ← find_task run.task_id
  attempt ← find_attempt input.attempt_id
  raise_if
      (not (attempt.run_id == run_id)
        || not (attempt.status === AttemptStatus.running)
        || is_lapsed attempt.lease_expires_at now
        || not (is_executing run.status)
        || not (input.base_commit == run.base_commit))
      (conflict "Checkpoint writer no longer owns a running attempt")
  insert_checkpoint (record { id = id; run_id = run_id; input = input })
  when (not (is_some task.snapshot) && ltb run.used_tokens input.used_tokens)
      (update_run run_id (λ r. record r { used_tokens = input.used_tokens }))
  pure id

pub record LastFailure : Type 0 where
  pub failure_code : Option FailureCode
  pub verification : Option (VerifierStep × String)

pub record CheckpointView : Type 0 where
  pub checkpoint : Checkpoint
  pub feedback_mode : FeedbackMode
  pub last_failure : Option LastFailure

abbrev has_failed : AttemptStatus → Bool
has_failed s = includes (AttemptStatus.failed ∷ AttemptStatus.lease_expired ∷ []) s

abbrev later : Attempt → Option Attempt → Option Attempt
later a none = some a
later a (some b) = if ltb b.no a.no then some a else some b

-- The failed attempt of the run with the highest number.
unfoldable pub last_failed : ℕ → List Attempt → Option Attempt
last_failed run_id [] = none
last_failed run_id (a ∷ rest) =
    let others = last_failed run_id rest in
    if a.run_id == run_id && has_failed a.status then later a others else others

abbrev step_of : Option VerificationResult → Option (VerifierStep × String)
step_of none = none
step_of (some v) = some (v.result.step, v.result.detail)

abbrev failure_of : Option Attempt → List VerificationResult → Option LastFailure
failure_of none verifications = none
failure_of (some a) verifications = some (record {
  failure_code = a.failure_code;
  verification =
      step_of (last_where (λ v. v.attempt_id == a.id && not v.result.passed) verifications);
})

-- `getCheckpoint`
unfoldable pub get_checkpoint : ℕ → Tx CheckpointView
unfolding last_failed
get_checkpoint id = do
  checkpoint ←
      or_raise (← gets (λ db. find (λ (c : Checkpoint). c.id) id db.checkpoints))
        (not_found "Checkpoint")
  run ← find_run checkpoint.run_id
  last ← gets (λ db. last_failed checkpoint.run_id db.attempts)
  verifications ← gets (λ db. db.verifications)
  pure (record {
    checkpoint = checkpoint;
    feedback_mode = run.feedback_mode;
    last_failure = failure_of last verifications;
  })
