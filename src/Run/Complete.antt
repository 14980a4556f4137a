-- ===== src/Run/Complete.antt =====
-- run-lifecycle.service.ts, `completeAttempt`: a worker reports the end of its attempt.
use Prim.Native.String.{String, len}
use mathlib.Core.Option
use agent_reliability_platfo.Base.{
  ℕ, ◌+◌, Bool, true, not, ◌&&◌, ◌||◌, Option, none, some, List, [], ◌∷◌, leb, is_some,
  if◌then◌else◌, max,
}
use agent_reliability_platfo.Shared.Enums.{
  TaskStatus, RunStatus, AttemptStatus, FailureCode, ArtifactKind, ApprovalStatus, approval_event,
  ◌===◌, run_status_enum, attempt_status_enum, includes,
}
use agent_reliability_platfo.Store.Table.{find}
use agent_reliability_platfo.Store.Rows.{
  Artifact, Phase, Run, Attempt, Verification, Db, approval_pending,
}
use agent_reliability_platfo.Store.Tx.{
  Tx, pure, ◌>>=◌, ◌>>◌, gets, raise_if, when, for_each, or_raise, conflict, not_found,
  record_missing,
}
use agent_reliability_platfo.Store.Queries.{
  run_key, task_key, attempt_key, find_run, find_attempt, update_run, update_attempt,
  insert_verification, insert_artifact, insert_approval, has_unsettled,
}
use agent_reliability_platfo.Run.Clock.{elapsed_seconds}
use agent_reliability_platfo.Run.Transition.{
  append_synthetic_event, transition_run, transition_task,
}
use agent_reliability_platfo.Run.Commands.{Fixture}
use agent_reliability_platfo.Run.Recovery.{apply_policy}

-- `judge` is the report as JSON text; an empty patch counts as none.
pub record Report : Type 0 where
  pub used_tokens : Option ℕ
  pub used_seconds : Option ℕ
  pub verification : List Verification
  pub patch : Option String
  pub judge : Option String

pub data Outcome : Type 0 where
  succeeded : Outcome
  failed : FailureCode → Outcome

-- A value that JavaScript counts as true.
abbrev pub truthy : Option String → Option String
truthy none = none
truthy (some String.[]) = none
truthy (some (String.◌∷◌ c s)) = some (String.◌∷◌ c s)

-- The length in bytes of an optional text is taken of the text that is stored.
-- `len` counts the bytes of the text in UTF-8, as `Buffer.byteLength` does.
abbrev artifact_of : ℕ → ℕ → ArtifactKind → String → String → Artifact
artifact_of run_id attempt_id kind name content = record {
  run_id = run_id;
  attempt_id = attempt_id;
  kind = kind;
  name = name;
  content = content;
  size_bytes = len content;
}

unfoldable pub store_artifact : ℕ → ℕ → ArtifactKind → String → Option String → Tx (Unit {0})
store_artifact run_id attempt_id kind name none = pure tt
store_artifact run_id attempt_id kind name (some content) =
    insert_artifact (artifact_of run_id attempt_id kind name content)

-- The active time of a snapshot task. `seen` is the run as it was read before the transaction.
unfoldable pub charge_clock : Run → ℕ → Tx (Unit {0})
charge_clock seen now = do
  current ← find_run seen.id
  update_run current.id (λ r. record r {
    used_seconds = r.used_seconds + elapsed_seconds current.active_started_at now;
    active_started_at = none;
  })

-- What a worker reports of its usage is kept for fixture tasks only.
abbrev tokens_after : Bool → Run → Option ℕ → ℕ → ℕ
tokens_after snapshot seen none used = used
tokens_after snapshot seen (some n) used = if snapshot then used else max seen.used_tokens n

abbrev seconds_after : Bool → Option ℕ → ℕ → ℕ
seconds_after snapshot none used = used
seconds_after snapshot (some n) used = if snapshot then used else used + n

unfoldable pub charge_report : Bool → Run → Report → Tx (Unit {0})
charge_report snapshot seen report =
    when (is_some report.used_tokens || is_some report.used_seconds) (
      update_run seen.id (λ r. record r {
        used_tokens = tokens_after snapshot seen report.used_tokens r.used_tokens;
        used_seconds = seconds_after snapshot report.used_seconds r.used_seconds;
      }))

-- `persistExtras`
unfoldable pub persist_extras : Bool → Run → ℕ → Report → ℕ → Tx (Unit {0})
persist_extras snapshot seen attempt_id report now = do
  when snapshot (charge_clock seen now)
  charge_report snapshot seen report
  for_each report.verification
      (λ v. insert_verification (record { run_id = seen.id; attempt_id = attempt_id; result = v }))
  store_artifact seen.id attempt_id ArtifactKind.patch "fix.patch" (truthy report.patch)
  store_artifact seen.id attempt_id ArtifactKind.judge_report "judge-report.json" report.judge

-- `!lease || lease <= new Date()`
abbrev pub is_lapsed : Option ℕ → ℕ → Bool
is_lapsed none now = true
is_lapsed (some t) now = leb t now

-- The transaction of a success. `sha256` is the digest of `node:crypto`, `approval_id` is new.
unfoldable pub succeed_tx :
    (String → ℕ) → Attempt → Run → Bool → Report → ℕ → ℕ → Tx (AttemptStatus × RunStatus)
succeed_tx sha256 attempt seen snapshot report approval_id now = do
  owner ← find_attempt attempt.id
  raise_if (not (owner.status === AttemptStatus.running) || is_lapsed owner.lease_expires_at now)
      (conflict "Attempt lease expired")
  raise_if (snapshot && (← gets (has_unsettled attempt.run_id)))
      (conflict "Unsettled model usage prevents approval")
  update_attempt attempt.id
      (λ a. record a { status = AttemptStatus.succeeded; ended_at = some now })
  persist_extras snapshot seen attempt.id report now
  transition_run attempt.run_id RunStatus.running RunStatus.verifying now
  transition_run attempt.run_id RunStatus.verifying RunStatus.succeeded now
  transition_task seen.task_id TaskStatus.running TaskStatus.awaiting_approval
  update_run attempt.run_id (λ r. record r { phase = Phase.awaiting_approval })
  insert_approval (record {
    id = approval_id;
    task_id = seen.task_id;
    run_id = attempt.run_id;
    status = ApprovalStatus.pending;
    reviewer = none;
    decided_at = none;
    pr_url = none;
    pr_error = none;
    patch_digest = Option.map sha256 (truthy report.patch);
  })
  append_synthetic_event attempt.run_id approval_event approval_pending none now
  pure (AttemptStatus.succeeded, RunStatus.succeeded)

-- The statuses in which a run is at work.
abbrev pub is_at_work : RunStatus → Bool
is_at_work s = includes (RunStatus.running ∷ RunStatus.verifying ∷ RunStatus.dispatched ∷ []) s

-- A run at work is interrupted, from the status that was read before the transaction.
unfoldable pub interrupt : Run → ℕ → Tx (Unit {0})
interrupt seen now =
    when (is_at_work seen.status) (transition_run seen.id seen.status RunStatus.interrupted now)

-- The transaction of a failure.
unfoldable pub fail_tx :
    List Fixture → Attempt → Run → Bool → FailureCode → Report → ℕ → Tx (AttemptStatus × RunStatus)
fail_tx fixtures attempt seen snapshot code report now = do
  owner ← find_attempt attempt.id
  raise_if (not (owner.status === AttemptStatus.running)) (conflict "Attempt no longer running")
  update_attempt attempt.id (λ a. record a {
    status = AttemptStatus.failed;
    failure_code = some code;
    ended_at = some now;
  })
  persist_extras snapshot seen attempt.id report now
  interrupt seen now
  apply_policy fixtures seen.id attempt.id attempt.no code now
  run ← find_run attempt.run_id
  pure (AttemptStatus.failed, run.status)

unfoldable pub end_tx :
    List Fixture
    → (String → ℕ)
    → Attempt
    → Run
    → Bool
    → Outcome
    → Report
    → ℕ
    → ℕ
    → Tx (AttemptStatus × RunStatus)
end_tx fixtures sha256 attempt seen snapshot succeeded report approval_id now =
    succeed_tx sha256 attempt seen snapshot report approval_id now
end_tx fixtures sha256 attempt seen snapshot (failed code) report approval_id now =
    fail_tx fixtures attempt seen snapshot code report now

-- `completeAttempt`. `seen` is the database at the read before the transaction; a repeated report
-- is answered with what that read showed.
unfoldable pub complete_attempt :
    Db → List Fixture → (String → ℕ) → ℕ → Outcome → Report → ℕ → ℕ → Tx (AttemptStatus × RunStatus)
complete_attempt seen fixtures sha256 attempt_id outcome report approval_id now = do
  attempt ← or_raise (find attempt_key attempt_id seen.attempts) (not_found "Attempt")
  run ← or_raise (find run_key attempt.run_id seen.runs) record_missing
  task ← or_raise (find task_key run.task_id seen.tasks) record_missing
  if attempt.status === AttemptStatus.running
      then end_tx fixtures sha256 attempt run (is_some task.snapshot) outcome report approval_id now
      else pure (attempt.status, run.status)
