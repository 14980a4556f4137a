-- ===== src/Delivery/Decision.antt =====
-- delivery.service.ts: a person rejects or approves the patch of a snapshot task, and retries a delivery.
use Prim.Native.String.{String}
use agent_reliability_platfo.Base.{
  ℕ, Bool, true, false, not, ◌&&◌, Option, none, some, ltb, ◌==◌, if◌then◌else◌,
}
use agent_reliability_platfo.Shared.Enums.{
  TaskStatus, ApprovalStatus, ArtifactKind, approval_status_enum, ◌===◌,
}
use agent_reliability_platfo.Shared.TaskSnapshot.{DeliveryKind}
use agent_reliability_platfo.Store.Table.{find, first_where, last_where, modify}
use agent_reliability_platfo.Store.Rows.{Approval, Artifact, DeliveryJob, JobStatus, Task, Db}
use agent_reliability_platfo.Store.Tx.{
  Tx, pure, ◌>>=◌, ◌>>◌, gets, alter, raise_if, or_raise, conflict, record_missing,
  schema_violation,
}
use agent_reliability_platfo.Store.Queries.{
  find_approval, update_approval, find_task, update_task, insert_job, job_key,
}
use agent_reliability_platfo.Run.Complete.{truthy}

-- `reviewer || 'local-user'`
abbrev pub reviewer_or_user : Option String → Option String
reviewer_or_user none = some "local-user"
reviewer_or_user (some name) = some name

unfoldable pub decide_approval : ℕ → ApprovalStatus → Option String → ℕ → Tx (Unit {0})
decide_approval id status reviewer now = update_approval id (λ a. record a {
  status = status;
  reviewer = reviewer_or_user (truthy reviewer);
  decided_at = some now;
})

unfoldable pub reject_pending : Approval → Option String → ℕ → Tx ApprovalStatus
reject_pending approval reviewer now = do
  raise_if (not (approval.status === ApprovalStatus.pending))
      (conflict "Approval is no longer pending")
  decide_approval approval.id ApprovalStatus.rejected reviewer now
  update_task approval.task_id (λ t. record t { status = TaskStatus.rejected })
  pure ApprovalStatus.rejected

-- `reject`: a rejected approval stays as it is.
unfoldable pub reject : ℕ → Option String → ℕ → Tx ApprovalStatus
reject id reviewer now = do
  approval ← find_approval id
  if approval.status === ApprovalStatus.rejected
      then pure ApprovalStatus.rejected
      else reject_pending approval reviewer now

pub data Delivered : Type 0 where
  known : Option DeliveryJob → Delivered
  patch_ready : Delivered
  scheduled : DeliveryJob → Delivered

-- The latest patch of a run.
abbrev pub is_patch_of : ℕ → Artifact → Bool
is_patch_of run_id a = a.run_id == run_id && elim a.kind [ ArtifactKind.patch ↦ true | _ ↦ false ]

-- The digest of the stored patch is that of the approval.
abbrev pub is_identical : (String → ℕ) → Option Artifact → Option ℕ → Bool
is_identical sha256 (some a) (some digest) = sha256 a.content == digest
is_identical sha256 _ _ = false

abbrev pub job_of : ℕ → ℕ → ℕ → ℕ → DeliveryJob
job_of id approval_id task_id digest = record {
  id = id;
  approval_id = approval_id;
  status = JobStatus.queued;
  attempts = 0;
  patch_digest = digest;
  branch = (task_id, digest);
  commit_sha = none;
  pr_url = none;
  error = none;
  lease_token = none;
  lease_expires_at = none;
}

-- The end of `approve`: a patch is ready at once, a pull request is a job.
unfoldable pub schedule : DeliveryKind → Approval → ℕ → ℕ → Tx Delivered
schedule DeliveryKind.patch a digest job_id = do
  update_task a.task_id (λ t. record t { status = TaskStatus.resolved })
  pure patch_ready
schedule DeliveryKind.pull_request a digest job_id = do
  update_task a.task_id (λ t. record t { status = TaskStatus.approved })
  insert_job (job_of job_id a.id a.task_id digest)
  pure (scheduled (job_of job_id a.id a.task_id digest))

-- A task without a snapshot does not pass the schema here.
unfoldable pub approve_pending :
    (String → ℕ) → Approval → Task → Option String → ℕ → ℕ → Tx Delivered
approve_pending sha256 a task reviewer job_id now = do
  raise_if (not (a.status === ApprovalStatus.pending)) (conflict "Approval is no longer pending")
  snapshot ← or_raise task.snapshot schema_violation
  patch ← gets (λ db. last_where (is_patch_of a.run_id) db.artifacts)
  raise_if (not (is_identical sha256 patch a.patch_digest))
      (conflict "Approved patch identity changed")
  digest ← or_raise a.patch_digest (conflict "Approved patch identity changed")
  decide_approval a.id ApprovalStatus.approved reviewer now
  schedule snapshot.delivery.kind a digest job_id

-- `approve`: an approved approval stays as it is. `job_id` is new.
unfoldable pub approve : (String → ℕ) → ℕ → Option String → ℕ → ℕ → Tx (ApprovalStatus × Delivered)
approve sha256 id reviewer job_id now = do
  a ← find_approval id
  task ← find_task a.task_id
  job ← gets (λ db. first_where (λ (j : DeliveryJob). j.approval_id == id) db.deliveries)
  delivered ←
      (if a.status === ApprovalStatus.approved
        then pure (known job)
        else approve_pending sha256 a task reviewer job_id now)
  pure (ApprovalStatus.approved, delivered)

abbrev pub is_failed : JobStatus → Bool
is_failed JobStatus.failed = true
is_failed _ = false

abbrev pub is_retryable : DeliveryJob → Bool
is_retryable j = is_failed j.status && ltb j.attempts 5

abbrev retryable_job : Option DeliveryJob → Bool
retryable_job none = false
retryable_job (some j) = is_retryable j

-- `retry`. `seen` is the database at the read before the transaction.
unfoldable pub retry : Db → ℕ → Tx (Unit {0})
retry seen approval_id = do
  job ←
      or_raise (first_where (λ (j : DeliveryJob). j.approval_id == approval_id) seen.deliveries)
        record_missing
  raise_if (not (is_retryable job)) (conflict "Delivery is not retryable or retry limit reached")
  raise_if (not (retryable_job (← gets (λ db. find job_key job.id db.deliveries))))
      (conflict "Delivery is already queued")
  alter (λ db. record db {
    deliveries =
        modify job_key job.id (λ j. record j { status = JobStatus.queued; error = none })
          db.deliveries;
  })
  approval ← find_approval approval_id
  update_approval approval_id (λ a. record a { pr_error = none })
  update_task approval.task_id
      (λ t. record t { status = TaskStatus.approved; attention_reason = none })
