-- ===== src/Run/Consistent/Histories.antt =====
-- The invariant under every history of the operations of Run/Operations.
use Prim.Native.String.{String}
use agent_reliability_platfo.Base.{ℕ, List, [], ◌∷◌, Option, some}
use agent_reliability_platfo.Store.Rows.{TraceEvent, Attempt, Db}
use agent_reliability_platfo.Store.Tx.{Error, Result, ok, err}
use agent_reliability_platfo.Store.Keeps.{Holds, commit-keeps}
use agent_reliability_platfo.Run.Commands.{Fixture}
use agent_reliability_platfo.Run.Expiry.{handle_lease_expired, expire_all, monitor_tick, overdue}
use agent_reliability_platfo.Events.Recorded.{handle_entry-IsConsistent}
use agent_reliability_platfo.Run.Operations.{Operation, perform, perform_all}
use agent_reliability_platfo.Run.Consistent.Defs.{settled, IsConsistent}
use agent_reliability_platfo.Run.Consistent.Creation.{create_task-IsConsistent}
use agent_reliability_platfo.Run.Consistent.Confirmation.{confirm-IsConsistent}
use agent_reliability_platfo.Run.Consistent.Claims.{
  claim_attempt-IsConsistent, heartbeat-IsConsistent,
}
use agent_reliability_platfo.Run.Consistent.Endings.{
  complete_attempt-IsConsistent, save_checkpoint-IsConsistent, handle_lease_expired-IsConsistent,
}
use agent_reliability_platfo.Run.Consistent.Commands.{
  set_phase-IsConsistent, set_environment-IsConsistent, reserve-IsConsistent, settle-IsConsistent,
}
use agent_reliability_platfo.Run.Consistent.Decisions.{
  approve-IsConsistent, reject-IsConsistent, retry-IsConsistent, claim_job-IsConsistent,
  renew_job-IsConsistent, finish_job-IsConsistent, give_up-IsConsistent,
}
use agent_reliability_platfo.Run.Consistent.Control.{
  pause-IsConsistent, pause_run-IsConsistent, cancel-IsConsistent, resume-IsConsistent,
}

expire_all-IsConsistent :
    {log : List TraceEvent}
    → (fixtures : List Fixture) (rest : List Attempt) (now : ℕ) (db : Db)
    → IsConsistent (settled log) db
    → IsConsistent (settled log) (expire_all fixtures rest now db).0
unfolding expire_all
expire_all-IsConsistent fixtures [] now db h = h
expire_all-IsConsistent {log} fixtures (a ∷ rest) now db h =
    after (handle_lease_expired db fixtures a.id now db)
      ((handle_lease_expired-IsConsistent db fixtures a.id now).at db h)
      (expire_all-IsConsistent fixtures rest now)
  where
    after :
        (r : Result (Unit {0}))
        → Holds (IsConsistent (settled log)) r
        → ((db' : Db)
            → IsConsistent (settled log) db'
            → IsConsistent (settled log) (expire_all fixtures rest now db').0)
        → IsConsistent
            (settled log)
            (elim r as (λ _. Db × Option Error) [
              | ok _ db' ↦ expire_all fixtures rest now db'
              | err e ↦ (db, some e)
            ]).0
    after (ok a db') g kept = kept db' g
    after (err e) g kept = h

module _ (fixtures : List Fixture) (sha256 : String → ℕ) where
  perform-IsConsistent :
      {log : List TraceEvent}
      → (o : Operation) (db : Db) → IsConsistent (settled log) db
      → IsConsistent (settled log) (perform fixtures sha256 o db)
  unfolding perform monitor_tick
  perform-IsConsistent (Operation.creation demo resolve git_error input ids now) =
      commit-keeps _ (create_task-IsConsistent demo resolve git_error fixtures input ids now)
  perform-IsConsistent
        (Operation.confirmation seen digest_of head_of has_commit input task_id run_id now) =
      commit-keeps _
        (confirm-IsConsistent seen digest_of head_of has_commit input task_id run_id now)
  perform-IsConsistent (Operation.claim seen input id token ttl now) =
      commit-keeps _ (claim_attempt-IsConsistent seen input id token ttl now)
  perform-IsConsistent (Operation.renewal attempt_id ttl now) =
      commit-keeps _ (heartbeat-IsConsistent attempt_id ttl now)
  perform-IsConsistent (Operation.completion seen attempt_id outcome report id now) =
      commit-keeps _
        (complete_attempt-IsConsistent seen fixtures sha256 attempt_id outcome report id now)
  perform-IsConsistent (Operation.checkpoint run_id input id now) =
      commit-keeps _ (save_checkpoint-IsConsistent run_id input id now)
  perform-IsConsistent (Operation.lease_expiry seen attempt_id now) =
      commit-keeps _ (handle_lease_expired-IsConsistent seen fixtures attempt_id now)
  perform-IsConsistent (Operation.monitoring now) =
      λ db h. expire_all-IsConsistent fixtures (overdue now db.attempts) now db h
  perform-IsConsistent (Operation.reservation run_id attempt_id token id amount now) =
      commit-keeps _ (reserve-IsConsistent run_id attempt_id token id amount now)
  perform-IsConsistent (Operation.settlement run_id id used) =
      commit-keeps _ (settle-IsConsistent run_id id used)
  perform-IsConsistent (Operation.phase_report attempt_id token phase detail now) =
      commit-keeps _ (set_phase-IsConsistent attempt_id token phase detail now)
  perform-IsConsistent (Operation.environment_report attempt_id token fingerprint image log now) =
      commit-keeps _ (set_environment-IsConsistent attempt_id token fingerprint image log now)
  perform-IsConsistent (Operation.worker_pause attempt_id token reason patch now) =
      commit-keeps _ (pause-IsConsistent attempt_id token reason patch now)
  perform-IsConsistent (Operation.user_pause seen run_id now) =
      commit-keeps _ (pause_run-IsConsistent seen run_id now)
  perform-IsConsistent (Operation.cancellation run_id now) =
      commit-keeps _ (cancel-IsConsistent run_id now)
  perform-IsConsistent (Operation.resumption run_id now) =
      commit-keeps _ (resume-IsConsistent run_id now)
  perform-IsConsistent (Operation.ingestion seen entry) =
      λ db h. handle_entry-IsConsistent seen entry db h
  perform-IsConsistent (Operation.grant id reviewer job_id now) =
      commit-keeps _ (approve-IsConsistent sha256 id reviewer job_id now)
  perform-IsConsistent (Operation.refusal id reviewer now) =
      commit-keeps _ (reject-IsConsistent id reviewer now)
  perform-IsConsistent (Operation.redelivery seen id) = commit-keeps _ (retry-IsConsistent seen id)
  perform-IsConsistent (Operation.job_claim seen token now) =
      commit-keeps _ (claim_job-IsConsistent seen token now)
  perform-IsConsistent (Operation.job_renewal id token now) =
      commit-keeps _ (renew_job-IsConsistent id token now)
  perform-IsConsistent (Operation.job_end job token end) =
      commit-keeps _ (finish_job-IsConsistent job token end)
  perform-IsConsistent (Operation.job_loss job now) = commit-keeps _ (give_up-IsConsistent job now)

  -- After every history of operations the database is consistent if it was before: the events of each
  -- run are numbered from 1 to its `last_sequence` without gaps, its attempts are numbered from 1 without
  -- gaps and are at most `max_attempts`, each recorded change of a run's status is in the table of the
  -- state machine or is the resumption of an interrupted run, the recorded changes of each run lead to
  -- its status, and the events continue the log that they continued before.
  pub perform_all-IsConsistent :
      {log : List TraceEvent}
      → (os : List Operation) (db : Db) → IsConsistent (settled log) db
      → IsConsistent (settled log) (perform_all fixtures sha256 os db)
  unfolding perform_all
  perform_all-IsConsistent [] db h = h
  perform_all-IsConsistent (o ∷ os) db h =
      perform_all-IsConsistent os (perform fixtures sha256 o db) (perform-IsConsistent o db h)
