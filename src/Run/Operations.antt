-- ===== src/Run/Operations.antt =====
-- Everything that modules/run, modules/dispatch/lease-monitor.ts, the confirmation of drafts in modules/task,
-- the ingestor of modules/events and modules/github/delivery.service.ts do to the database, as one type of operations: each is a transaction,
-- and a history is a list of them in the order of their commits. What an operation read before its
-- transaction is an argument, since other transactions may have committed in between.
use Prim.Native.String.{String}
use agent_reliability_platfo.Base.{ℕ, Bool, Option, List, [], ◌∷◌}
use agent_reliability_platfo.Store.Rows.{CheckpointInput, Phase, DeliveryJob, Db}
use agent_reliability_platfo.Store.Tx.{commit, Error}
use agent_reliability_platfo.Shared.TaskSnapshot.{TaskSnapshot}
use agent_reliability_platfo.Run.Confirmation.{Confirmation, confirm}
use agent_reliability_platfo.Run.Creation.{TaskInput, NewIds, create_task}
use agent_reliability_platfo.Events.Ingest.{Entry, handle_entry}
use agent_reliability_platfo.Delivery.Decision.{approve, reject, retry}
use agent_reliability_platfo.Delivery.Jobs.{DeliveryEnd, claim_job, renew_job, finish_job, give_up}
use agent_reliability_platfo.Run.Commands.{Fixture}
use agent_reliability_platfo.Run.Claim.{ClaimInput, claim_attempt, heartbeat}
use agent_reliability_platfo.Run.Complete.{Report, Outcome, complete_attempt}
use agent_reliability_platfo.Run.Checkpoints.{save_checkpoint}
use agent_reliability_platfo.Run.Expiry.{handle_lease_expired, monitor_tick}
use agent_reliability_platfo.Run.Budget.{reserve, settle}
use agent_reliability_platfo.Run.Worker.{set_phase, set_environment}
use agent_reliability_platfo.Run.Control.{pause, pause_run, cancel, resume}

pub data Operation : Type 0 where
  confirmation :
      Db → (TaskSnapshot → ℕ) → (String → ℕ) → Bool → Confirmation → ℕ → ℕ → ℕ → Operation
  creation : Bool → (String → ℕ → Option ℕ) → Error → TaskInput → NewIds → ℕ → Operation
  claim : Db → ClaimInput → ℕ → ℕ → ℕ → ℕ → Operation
  renewal : ℕ → ℕ → ℕ → Operation
  completion : Db → ℕ → Outcome → Report → ℕ → ℕ → Operation
  checkpoint : ℕ → CheckpointInput → ℕ → ℕ → Operation
  lease_expiry : Db → ℕ → ℕ → Operation
  monitoring : ℕ → Operation
  reservation : ℕ → ℕ → Option ℕ → ℕ → ℕ → ℕ → Operation
  settlement : ℕ → ℕ → Option ℕ → Operation
  phase_report : ℕ → Option ℕ → Phase → Option String → ℕ → Operation
  environment_report : ℕ → Option ℕ → ℕ → ℕ → String → ℕ → Operation
  worker_pause : ℕ → Option ℕ → String → Option String → ℕ → Operation
  user_pause : Db → ℕ → ℕ → Operation
  cancellation : ℕ → ℕ → Operation
  resumption : ℕ → ℕ → Operation
  ingestion : Db → Entry → Operation
  grant : ℕ → Option String → ℕ → ℕ → Operation
  refusal : ℕ → Option String → ℕ → Operation
  redelivery : Db → ℕ → Operation
  job_claim : Db → ℕ → ℕ → Operation
  job_renewal : ℕ → ℕ → ℕ → Operation
  job_end : DeliveryJob → ℕ → DeliveryEnd → Operation
  job_loss : DeliveryJob → ℕ → Operation

-- The database after an operation, committed or rolled back. The fixtures and the digest are those of
-- the installation.
unfoldable pub perform : List Fixture → (String → ℕ) → Operation → Db → Db
perform fixtures sha256 (Operation.creation demo resolve git_error input ids now) db =
    commit (create_task demo resolve git_error fixtures input ids now) db
perform fixtures sha256
      (Operation.confirmation seen digest_of head_of has_commit input task_id run_id now) db =
    commit (confirm seen digest_of head_of has_commit input task_id run_id now) db
perform fixtures sha256 (Operation.claim seen input id token ttl now) db =
    commit (claim_attempt seen input id token ttl now) db
perform fixtures sha256 (Operation.renewal attempt_id ttl now) db =
    commit (heartbeat attempt_id ttl now) db
perform fixtures sha256 (Operation.completion seen attempt_id outcome report id now) db =
    commit (complete_attempt seen fixtures sha256 attempt_id outcome report id now) db
perform fixtures sha256 (Operation.checkpoint run_id input id now) db =
    commit (save_checkpoint run_id input id now) db
perform fixtures sha256 (Operation.lease_expiry seen attempt_id now) db =
    commit (handle_lease_expired seen fixtures attempt_id now) db
perform fixtures sha256 (Operation.monitoring now) db = (monitor_tick fixtures now db).0
perform fixtures sha256 (Operation.reservation run_id attempt_id token id amount now) db =
    commit (reserve run_id attempt_id token id amount now) db
perform fixtures sha256 (Operation.settlement run_id id used) db = commit (settle run_id id used) db
perform fixtures sha256 (Operation.phase_report attempt_id token phase detail now) db =
    commit (set_phase attempt_id token phase detail now) db
perform fixtures sha256 (Operation.environment_report attempt_id token fingerprint image log now)
      db =
    commit (set_environment attempt_id token fingerprint image log now) db
perform fixtures sha256 (Operation.worker_pause attempt_id token reason patch now) db =
    commit (pause attempt_id token reason patch now) db
perform fixtures sha256 (Operation.user_pause seen run_id now) db =
    commit (pause_run seen run_id now) db
perform fixtures sha256 (Operation.cancellation run_id now) db = commit (cancel run_id now) db
perform fixtures sha256 (Operation.resumption run_id now) db = commit (resume run_id now) db
perform fixtures sha256 (Operation.ingestion seen entry) db = (handle_entry seen entry db).database
perform fixtures sha256 (Operation.grant id reviewer job_id now) db =
    commit (approve sha256 id reviewer job_id now) db
perform fixtures sha256 (Operation.refusal id reviewer now) db = commit (reject id reviewer now) db
perform fixtures sha256 (Operation.redelivery seen id) db = commit (retry seen id) db
perform fixtures sha256 (Operation.job_claim seen token now) db =
    commit (claim_job seen token now) db
perform fixtures sha256 (Operation.job_renewal id token now) db = commit (renew_job id token now) db
perform fixtures sha256 (Operation.job_end job token end) db = commit (finish_job job token end) db
perform fixtures sha256 (Operation.job_loss job now) db = commit (give_up job now) db

unfoldable pub perform_all : List Fixture → (String → ℕ) → List Operation → Db → Db
perform_all fixtures sha256 [] db = db
perform_all fixtures sha256 (o ∷ os) db =
    perform_all fixtures sha256 os (perform fixtures sha256 o db)
