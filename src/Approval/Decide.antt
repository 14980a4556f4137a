-- ===== src/Approval/Decide.antt =====
-- approval.service.ts: the decision on a fixture task and its pull request; a snapshot task goes to the
-- delivery service. Comments on the issue of a task go to GitHub, and are not modelled.
use Prim.Native.String.{String}
use agent_reliability_platfo.Base.{ℕ, not, Option, none, some, is_some, if◌then◌else◌}
use agent_reliability_platfo.Shared.Enums.{
  TaskStatus, ApprovalStatus, ◌===◌, task_status_enum, approval_status_enum,
}
use agent_reliability_platfo.Store.Table.{find}
use agent_reliability_platfo.Store.Rows.{Approval, Task, Db}
use agent_reliability_platfo.Store.Tx.{
  Tx, Error, ok, err, pure, ◌>>=◌, ◌>>◌, raise_if, conflict, record_missing,
}
use agent_reliability_platfo.Store.Queries.{
  approval_key, task_key, find_approval, update_approval, update_task,
}
use agent_reliability_platfo.Run.Transition.{assert_task_transition}
use agent_reliability_platfo.Delivery.Decision.{approve, reject, retry}

pub data Verdict : Type 0 where
  approved rejected : Verdict

-- How `createFixPr` of the GitHub service ends: the URL of the pull request, or the text of an exception.
pub data PrEnd : Type 0 where
  opened broken : String → PrEnd

abbrev pub status_of : Verdict → ApprovalStatus
status_of approved = ApprovalStatus.approved
status_of rejected = ApprovalStatus.rejected

abbrev pub task_status_of : Verdict → TaskStatus
task_status_of approved = TaskStatus.approved
task_status_of rejected = TaskStatus.rejected

-- `reviewer ?? 'anonymous'`
abbrev pub reviewer_or_anonymous : Option String → String
reviewer_or_anonymous none = "anonymous"
reviewer_or_anonymous (some name) = name

-- The transaction of a verdict.
unfoldable pub write_verdict : Approval → Verdict → Option String → ℕ → Tx (Unit {0})
write_verdict a verdict reviewer now = do
  update_approval a.id (λ b. record b {
    status = status_of verdict;
    reviewer = some (reviewer_or_anonymous reviewer);
    decided_at = some now;
  })
  update_task a.task_id (λ t. record t { status = task_status_of verdict })

-- The verdict on a fixture task, as it and its task were read before.
unfoldable pub decide_fixture : Approval → Task → Verdict → Option String → ℕ → Tx (Unit {0})
decide_fixture a task verdict reviewer now = do
  raise_if (not (a.status === ApprovalStatus.pending)) (conflict "Approval was decided before")
  assert_task_transition task.status (task_status_of verdict)
  write_verdict a verdict reviewer now

-- The transaction of `createPr` after the call of GitHub.
unfoldable pub write_pr : Approval → PrEnd → Tx (Unit {0})
write_pr a (opened url) = do
  update_approval a.id (λ b. record b { pr_url = some url; pr_error = none })
  update_task a.task_id (λ t. record t { status = TaskStatus.pr_created })
write_pr a (broken message) = do
  update_approval a.id (λ b. record b { pr_error = some message })
  update_task a.task_id (λ t. record t { status = TaskStatus.pr_failed })

-- An exception of the transaction that writes a success is caught with those of GitHub.
unfoldable pub deliver_pr : Approval → PrEnd → Tx (Unit {0})
unfolding write_pr
deliver_pr a (opened url) db = elim (write_pr a (opened url) db) [
  | ok _ db' ↦ ok tt db'
  | err e ↦ write_pr a (broken "Record to update not found") db
]
deliver_pr a (broken message) db = write_pr a (broken message) db

-- `createPr`
unfoldable pub create_pr : ℕ → PrEnd → Tx (Unit {0})
unfolding deliver_pr
create_pr id end = do a ← find_approval id; deliver_pr a end

-- A transaction, and another one after it where it has committed.
unfoldable pub and_then : Tx (Unit {0}) → Tx (Unit {0}) → Db → Db × Option Error
and_then m k db = elim (m db) [
  | ok _ db' ↦ elim (k db') [ ok _ db'' ↦ (db'', none) | err e ↦ (db', some e) ]
  | err e ↦ (db, some e)
]

-- `decide` of a fixture task: an approval opens the pull request, a rejection does not. `pr` is how the call
-- of GitHub ends.
unfoldable pub decide_and_deliver :
    Approval → Task → Verdict → Option String → PrEnd → ℕ → Db → Db × Option Error
decide_and_deliver a task rejected reviewer pr now =
    and_then (decide_fixture a task rejected reviewer now) (pure tt)
decide_and_deliver a task approved reviewer pr now =
    and_then (decide_fixture a task approved reviewer now) (create_pr a.id pr)

-- `retryPr` of a fixture task: only after a failure.
unfoldable pub reopen : Approval → Task → Tx (Unit {0})
reopen a task = do
  raise_if (not (task.status === TaskStatus.pr_failed)) (conflict "Only PR_FAILED can be retried")
  update_task a.task_id (λ t. record t { status = TaskStatus.approved })

unfoldable pub retry_pr : Approval → Task → PrEnd → Db → Db × Option Error
retry_pr a task pr = and_then (reopen a task) (create_pr a.id pr)

abbrev without_result : {A : Type 0} → Tx A → Tx (Unit {0})
without_result m db = elim (m db) [ ok _ db' ↦ ok tt db' | err e ↦ err e ]

-- The delivery service's answer to a verdict.
unfoldable pub decide_snapshot : (String → ℕ) → Verdict → ℕ → Option String → ℕ → ℕ → Tx (Unit {0})
decide_snapshot sha256 approved id reviewer job_id now =
    without_result (approve sha256 id reviewer job_id now)
decide_snapshot sha256 rejected id reviewer job_id now = without_result (reject id reviewer now)

unfoldable pub decide_read :
    (String → ℕ)
    → Approval
    → Task
    → Verdict
    → Option String
    → PrEnd
    → ℕ
    → ℕ
    → Db
    → Db × Option Error
unfolding decide_and_deliver decide_snapshot
decide_read sha256 a task verdict reviewer pr job_id now =
    if is_some task.snapshot
    then and_then (decide_snapshot sha256 verdict a.id reviewer job_id now) (pure tt)
    else decide_and_deliver a task verdict reviewer pr now

-- `decide`. `seen` is the database at the read of the approval and its task; `none` where there is none.
unfoldable pub decide :
    (String → ℕ) → Db → ℕ → Verdict → Option String → PrEnd → ℕ → ℕ → Db → Db × Option Error
unfolding decide_read
decide sha256 seen id verdict reviewer pr job_id now db =
    elim (find approval_key id seen.approvals) [
      | none ↦ (db, none)
      | some a ↦ elim (find task_key a.task_id seen.tasks) [
        | none ↦ (db, some record_missing)
        | some task ↦ decide_read sha256 a task verdict reviewer pr job_id now db
      ]
    ]

unfoldable pub retry_read : Db → Approval → Task → PrEnd → Db → Db × Option Error
unfolding retry_pr
retry_read seen a task pr db =
    if is_some task.snapshot then and_then (retry seen a.id) (pure tt) db else retry_pr a task pr db

-- `retryPr`
unfoldable pub retry_pull : Db → ℕ → PrEnd → Db → Db × Option Error
unfolding retry_read
retry_pull seen id pr db = elim (find approval_key id seen.approvals) [
  | none ↦ (db, none)
  | some a ↦ elim (find task_key a.task_id seen.tasks) [
    | none ↦ (db, some record_missing)
    | some task ↦ retry_read seen a task pr db
  ]
]
