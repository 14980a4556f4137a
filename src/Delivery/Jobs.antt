-- ===== src/Delivery/Jobs.antt =====
-- delivery.service.ts, `tick`: a job is claimed with a lease, delivered, and its end is written by the
-- holder of the lease. `deliver`, which calls git and the GitHub API, is its outcome here, and stands in
-- Delivery/Deliver.
use Prim.Native.String.{String}
use agent_reliability_platfo.Base.{
  ℕ, ◌+◌, Bool, true, false, ◌||◌, ◌&&◌, Option, none, some, List, [], ◌∷◌, leb, ltb, ◌==◌,
  if◌then◌else◌, filter,
}
use agent_reliability_platfo.Shared.Enums.{TaskStatus}
use agent_reliability_platfo.Store.Table.{find, first_where, modify}
use agent_reliability_platfo.Store.Rows.{DeliveryJob, JobStatus, Db}
use agent_reliability_platfo.Store.Tx.{Tx, Error, ok, err, pure, ◌>>=◌, ◌>>◌, gets, alter, when}
use agent_reliability_platfo.Store.Queries.{find_approval, update_approval, update_task, job_key}

abbrev pub is_running : JobStatus → Bool
is_running JobStatus.running = true
is_running _ = false

abbrev pub is_queued : JobStatus → Bool
is_queued JobStatus.queued = true
is_queued _ = false

-- `leaseExpiresAt: { lt: new Date() }`
abbrev pub is_over : Option ℕ → ℕ → Bool
is_over none now = false
is_over (some t) now = ltb t now

abbrev pub is_abandoned : ℕ → DeliveryJob → Bool
is_abandoned now j = is_running j.status && is_over j.lease_expires_at now

-- Whether the row of a job passes a test, as the `where` of an update.
abbrev pub job_is : (DeliveryJob → Bool) → Option DeliveryJob → Bool
job_is test none = false
job_is test (some j) = test j

unfoldable pub update_job : ℕ → (DeliveryJob → DeliveryJob) → Tx (Unit {0})
update_job id f = alter (λ db. record db { deliveries = modify job_key id f db.deliveries })

-- `updateMany` of one job where it passes the test, and what follows where it did.
unfoldable pub update_job_where :
    ℕ → (DeliveryJob → Bool) → (DeliveryJob → DeliveryJob) → Tx (Unit {0}) → Tx (Unit {0})
unfolding update_job
update_job_where id test f next = do
  fits ← gets (λ db. job_is test (find job_key id db.deliveries))
  when fits (update_job id f >> next)

-- The jobs that are taken up after their last attempt.
unfoldable pub exhausted : ℕ → Db → List DeliveryJob
exhausted now db = filter (λ j. is_abandoned now j && leb 5 j.attempts) db.deliveries

unfoldable pub give_up : DeliveryJob → ℕ → Tx (Unit {0})
give_up job now = do
  let message : String = "Delivery retry budget exhausted; patch retained"
  update_job_where job.id (is_abandoned now)
      (λ j. record j { status = JobStatus.failed; error = some message })
      (do
        approval ← find_approval job.approval_id
        update_approval job.approval_id (λ a. record a { pr_error = some message })
        update_task approval.task_id (λ t. record t { status = TaskStatus.pr_failed }))

abbrev pub is_candidate : ℕ → DeliveryJob → Bool
is_candidate now j = ltb j.attempts 5 && (is_queued j.status || is_abandoned now j)

-- The claim of a candidate that was read before: its row must have the candidate's status still.
abbrev pub is_unclaimed : ℕ → DeliveryJob → DeliveryJob → Bool
is_unclaimed now candidate j =
    if is_running candidate.status then is_abandoned now j else is_queued j.status

unfoldable pub claim_candidate : Option DeliveryJob → ℕ → ℕ → Tx Bool
unfolding update_job
claim_candidate none token now = pure false
claim_candidate (some candidate) token now = do
  fits ← gets (λ db. job_is (is_unclaimed now candidate) (find job_key candidate.id db.deliveries))
  when fits (
      update_job candidate.id (λ j. record j {
        status = JobStatus.running;
        lease_token = some token;
        lease_expires_at = some (now + 600_000);
        attempts = j.attempts + 1;
      }))
  pure fits

-- `seen` is the database at the read of the candidate, `token` is new.
unfoldable pub claim_job : Db → ℕ → ℕ → Tx Bool
unfolding claim_candidate
claim_job seen token now =
    claim_candidate (first_where (is_candidate now) seen.deliveries) token now

-- The holder of the lease of a running job.
abbrev pub holds_job : ℕ → DeliveryJob → Bool
holds_job token j = is_running j.status && elim j.lease_token [ none ↦ false | some t ↦ t == token ]

-- The renewal, every 30 s.
unfoldable pub renew_job : ℕ → ℕ → ℕ → Tx (Unit {0})
renew_job id token now =
    update_job_where id (holds_job token)
      (λ j. record j { lease_expires_at = some (now + 600_000) }) (pure tt)

-- How `deliver` ends: the URL of the pull request, a conflict, or another error.
pub data DeliveryEnd : Type 0 where
  opened conflicted : String → DeliveryEnd
  broken : DeliveryEnd

unfoldable pub fail_job : DeliveryJob → ℕ → JobStatus → String → Tx (Unit {0})
fail_job job token status message =
    update_job_where job.id (holds_job token)
      (λ j. record j { status = status; error = some message })
      (do
        approval ← find_approval job.approval_id
        update_approval job.approval_id (λ a. record a { pr_error = some message })
        update_task approval.task_id
            (λ t. record t { status = TaskStatus.pr_failed; attention_reason = some message }))

-- The transaction that writes the end of a job that was claimed with this token.
unfoldable pub finish_job : DeliveryJob → ℕ → DeliveryEnd → Tx (Unit {0})
finish_job job token (opened url) =
    update_job_where job.id (holds_job token)
      (λ j. record j { status = JobStatus.succeeded; pr_url = some url; error = none })
      (do
        approval ← find_approval job.approval_id
        update_approval job.approval_id (λ a. record a { pr_url = some url; pr_error = none })
        update_task approval.task_id (λ t. record t { status = TaskStatus.pr_created }))
finish_job job token (conflicted message) = fail_job job token JobStatus.needs_attention message
finish_job job token broken =
    fail_job job token JobStatus.failed
      "Delivery failed; check GitHub permissions, branch state and connectivity. Patch retained."

-- The jobs that are given up, each in its transaction; an exception ends the tick.
unfoldable pub give_up_all : List DeliveryJob → ℕ → Db → Db × Option Error
give_up_all [] now db = (db, none)
give_up_all (job ∷ jobs) now db = elim (give_up job now db) [
  | ok _ db' ↦ give_up_all jobs now db'
  | err e ↦ (db, some e)
]

-- An exception of the transaction that writes a success is caught with those of `deliver`.
unfoldable pub end_job : DeliveryJob → ℕ → DeliveryEnd → Db → Db × Option Error
end_job job token end db = elim (finish_job job token end db) [
  | ok _ db' ↦ (db', none)
  | err e ↦ elim end [
    | opened _ ↦ elim (finish_job job token broken db) [
      | ok _ db' ↦ (db', none)
      | err e' ↦ (db, some e')
    ]
    | conflicted _ ↦ (db, some e)
    | broken ↦ (db, some e)
  ]
]

unfoldable pub work :
    (DeliveryJob → DeliveryEnd) → Option DeliveryJob → ℕ → ℕ → Db → Db × Option Error
unfolding claim_candidate end_job
work deliver none token now db = (db, none)
work deliver (some job) token now db = elim (claim_candidate (some job) token now db) [
  | ok claimed db' ↦ if claimed then end_job job token (deliver job) db' else (db', none)
  | err e ↦ (db, some e)
]

-- `tick`, where no earlier tick is still running. The renewals while `deliver` runs are `renew_job`.
unfoldable pub tick : (DeliveryJob → DeliveryEnd) → ℕ → ℕ → Db → Db × Option Error
unfolding give_up_all work exhausted
tick deliver token now db =
    let (db', failure) = give_up_all (exhausted now db) now db in
    elim failure [
      | some e ↦ (db', some e)
      | none ↦ work deliver (first_where (is_candidate now) db'.deliveries) token now db'
    ]
