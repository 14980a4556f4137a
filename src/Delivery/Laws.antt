-- ===== src/Delivery/Laws.antt =====
-- What decisions and deliveries promise: no approval of another patch than the one that was verified, one
-- decision, and one holder of a job at a time.
use Prim.Native.String.{String}
use agent_reliability_platfo.Base.{
  Bool, if◌then◌else◌, ℕ, ◌+◌, ◌≤◌, ◌≡◌, refl, true, false, Option, none, some, [], ◌∷◌, ◌++◌,
  arith, ◌==◌, Option-cases, Bool-cases, inl, inr,
}
use agent_reliability_platfo.Shared.TaskSnapshot.{TaskSnapshot, DeliveryKind}
use agent_reliability_platfo.Shared.Enums.{ApprovalStatus, TaskStatus, ◌===◌, approval_status_enum}
use agent_reliability_platfo.Store.Table.{find, modify, find-key, find-modify, last_where}
use agent_reliability_platfo.Store.Rows.{Approval, Artifact, Task, DeliveryJob, JobStatus, Db}
use agent_reliability_platfo.Store.Tx.{
  Tx, ok, err, pure, ◌>>=◌, ◌>>◌, gets, alter, raise_if, when, or_raise, conflict, commit,
}
use agent_reliability_platfo.Store.Queries.{
  approval_key, task_key, job_key, find_approval, update_approval, find_task, update_task,
  insert_job,
}
use agent_reliability_platfo.Run.Complete.{truthy}
use agent_reliability_platfo.Delivery.Jobs.{
  claim_candidate, finish_job, fail_job, update_job_where, update_job, DeliveryEnd,
}
use agent_reliability_platfo.Delivery.Decision.{
  reject, reject_pending, reviewer_or_user, approve, approve_pending, decide_approval, schedule,
  is_patch_of, is_identical, job_of, Delivered,
}

abbrev decided : Option String → ℕ → Approval → Approval
decided reviewer now a = record a {
  status = ApprovalStatus.approved;
  reviewer = reviewer_or_user (truthy reviewer);
  decided_at = some now;
}

abbrev refused : Option String → ℕ → Approval → Approval
refused reviewer now a = record a {
  status = ApprovalStatus.rejected;
  reviewer = reviewer_or_user (truthy reviewer);
  decided_at = some now;
}

abbrev moved : TaskStatus → Task → Task
moved status t = record t { status = status }

-- What has become of the task of an approved approval: a patch is resolved; a pull request is approved and its
-- new job carries the digest of the patch.
abbrev pub IsScheduled : DeliveryKind → ℕ → Approval → ℕ → Task → Db → Db → Type 0
IsScheduled DeliveryKind.patch job_id a digest t db db' =
    (find task_key a.task_id db'.tasks ≡ some (moved TaskStatus.resolved t))
    × (db'.deliveries ≡ db.deliveries)
IsScheduled DeliveryKind.pull_request job_id a digest t db db' =
    (find task_key a.task_id db'.tasks ≡ some (moved TaskStatus.approved t))
    × (db'.deliveries ≡ db.deliveries ++ job_of job_id a.id a.task_id digest ∷ [])

digest_of-is_identical :
    (sha256 : String → ℕ) (patch : Option Artifact) (digest : Option ℕ)
    → is_identical sha256 patch digest ≡ true
    → (p : Artifact) × (patch ≡ some p) × (digest ≡ some (sha256 p.content))
digest_of-is_identical sha256 none digest h = ground arith
digest_of-is_identical sha256 (some p) none h = ground arith
digest_of-is_identical sha256 (some p) (some d) h = (p, refl, ground arith)

schedule-IsScheduled :
    (kind : DeliveryKind) (a : Approval) (digest job_id : ℕ) (t : Task) (db db' : Db)
    (delivered : Delivered)
    → find task_key a.task_id db.tasks ≡ some t
    → schedule kind a digest job_id db ≡ ok delivered db'
    → IsScheduled kind job_id a digest t db db' × (db'.approvals ≡ db.approvals)
unfolding schedule find_task update_task insert_job gets alter raise_if or_raise pure ◌>>=◌ ◌>>◌
schedule-IsScheduled DeliveryKind.patch a digest job_id t db db' delivered there done = ground (
  arith,
  find-modify task_key a.task_id a.task_id (moved TaskStatus.resolved) db.tasks (λ q. refl),
)
schedule-IsScheduled DeliveryKind.pull_request a digest job_id t db db' delivered there done =
    ground (
      arith,
      find-modify task_key a.task_id a.task_id (moved TaskStatus.approved) db.tasks (λ q. refl),
    )

-- What an approval that is granted to a pending one leaves.
pub record IsApproved (sha256 : String → ℕ) (id : ℕ) (reviewer : Option String) (job_id now : ℕ)
    (a : Approval) (t : Task) (db db' : Db) : Type 0 where
  pub patch : Artifact
  pub snapshot : TaskSnapshot
  pub was_pending : (a.status === ApprovalStatus.pending) ≡ true
  pub latest : last_where (is_patch_of a.run_id) db.artifacts ≡ some patch
  pub verified : a.patch_digest ≡ some (sha256 patch.content)
  pub granted : find approval_key id db'.approvals ≡ some (decided reviewer now a)
  pub confirmed : t.snapshot ≡ some snapshot
  pub follows : IsScheduled snapshot.delivery.kind job_id a (sha256 patch.content) t db db'

module _ (sha256 : String → ℕ) (id : ℕ) (reviewer : Option String) (job_id now : ℕ) (db db' : Db)
    (a : Approval) (t : Task) where
  approve_pending-IsApproved :
      (delivered : Delivered)
      → find approval_key id db.approvals ≡ some a
      → find task_key a.task_id db.tasks ≡ some t
      → approve_pending sha256 a t reviewer job_id now db ≡ ok delivered db'
      → IsApproved sha256 id reviewer job_id now a t db db'
  unfolding approve_pending decide_approval find_approval update_approval gets alter raise_if
      or_raise pure ◌>>=◌ ◌>>◌
  approve_pending-IsApproved delivered found there done =
      let latest = last_where (is_patch_of a.run_id) db.artifacts in
      elim (Option-cases t.snapshot) [
        | inl missing ↦ ground arith
        | inr (s, kept) ↦ elim (Bool-cases (is_identical sha256 latest a.patch_digest)) [
          | inr other ↦ ground arith
          | inl same ↦
              let (p, stored, digest) = digest_of-is_identical sha256 latest a.patch_digest same in
              let after = record db {
                approvals = modify approval_key a.id (decided reviewer now) db.approvals;
              } in
              let end =
                schedule-IsScheduled s.delivery.kind a (sha256 p.content) job_id t after db'
                  delivered there (ground arith) in
              record {
                patch = p;
                snapshot = s;
                was_pending = ground arith;
                latest = stored;
                verified = digest;
                granted = ground (
                  arith,
                  end.1,
                  find-key approval_key id db.approvals a found,
                  find-modify approval_key id id (decided reviewer now) db.approvals (λ q. refl),
                );
                confirmed = kept;
                follows = ground (arith, end.0);
              }
        ]
      ]

-- An approval that is granted where it was not approved before: it was pending, the latest stored patch of
-- the run has the digest that was verified, and from then on the approval is approved, by the reviewer and
-- at the time of the request. A task that asked for a patch is resolved, one that asked for a pull request is
-- approved, with a new job that carries the digest of that patch; no other column of the task changes.
pub approve-identical :
    (sha256 : String → ℕ) (id : ℕ) (reviewer : Option String) (job_id now : ℕ) (db db' : Db)
    (a : Approval) (t : Task) (granted : ApprovalStatus × Delivered)
    → find approval_key id db.approvals ≡ some a
    → find task_key a.task_id db.tasks ≡ some t
    → (a.status === ApprovalStatus.approved) ≡ false
    → approve sha256 id reviewer job_id now db ≡ ok granted db'
    → IsApproved sha256 id reviewer job_id now a t db db'
unfolding approve find_approval find_task gets or_raise pure ◌>>=◌
approve-identical sha256 id reviewer job_id now db db' a t granted found there fresh done = ground (
  arith,
  approve_pending-IsApproved sha256 id reviewer job_id now db db' a t granted.1 found there,
)

-- A decision of a person.
pub data Verdict : Type 0 where
  approval rejection : Verdict

unfoldable pub give : Verdict → (String → ℕ) → ℕ → Option String → ℕ → ℕ → Tx ApprovalStatus
give Verdict.approval sha256 id reviewer job_id now = do
  answer ← approve sha256 id reviewer job_id now
  pure answer.0
give Verdict.rejection sha256 id reviewer job_id now = reject id reviewer now

abbrev pub is_same : Verdict → Verdict → Bool
is_same Verdict.approval Verdict.approval = true
is_same Verdict.rejection Verdict.rejection = true
is_same _ _ = false

-- A decision on a snapshot task stands, an approval and a rejection alike: where the approval and its task are
-- there and a decision was accepted, the same one is answered with the same status and changes nothing, and
-- the other is refused, whoever asks, and whenever.
pub give-final :
    (first second : Verdict) (sha256 : String → ℕ) (id : ℕ) (reviewer other : Option String)
    (job_id new now later : ℕ) (db db' : Db) (a : Approval) (t : Task) (answer : ApprovalStatus)
    → find approval_key id db.approvals ≡ some a
    → find task_key a.task_id db.tasks ≡ some t
    → give first sha256 id reviewer job_id now db ≡ ok answer db'
    → give second sha256 id other new later db' ≡ (
        if is_same first second
        then ok answer db'
        else err (conflict "Approval is no longer pending"))
unfolding give approve approve_pending reject reject_pending decide_approval schedule find_approval
    find_task update_approval update_task insert_job gets alter raise_if or_raise pure ◌>>=◌ ◌>>◌
give-final Verdict.approval second sha256 id reviewer other job_id new now later db db' a t answer
      found there done =
    ground (
      arith,
      find-key approval_key id db.approvals a found,
      find-modify approval_key id id (decided reviewer now) db.approvals (λ q. refl),
      find-modify task_key a.task_id a.task_id (moved TaskStatus.resolved) db.tasks (λ q. refl),
      find-modify task_key a.task_id a.task_id (moved TaskStatus.approved) db.tasks (λ q. refl),
    )
give-final Verdict.rejection second sha256 id reviewer other job_id new now later db db' a t answer
      found there done =
    ground (
      arith,
      find-key approval_key id db.approvals a found,
      find-modify approval_key id id (refused reviewer now) db.approvals (λ q. refl),
      find-modify task_key a.task_id a.task_id (moved TaskStatus.rejected) db.tasks (λ q. refl),
    )

-- Once a job is claimed, nobody else claims it before its lease is over, whichever state of it was read
-- before; and a holder that has lost it writes no end of it.
pub claim_candidate-exclusive :
    (candidate stale : DeliveryJob) (token old now later : ℕ) (end : DeliveryEnd) (db db' : Db)
    → claim_candidate (some candidate) token now db ≡ ok true db'
    → stale.id ≡ candidate.id
    → later ≤ now + 600_000
    → (token == old) ≡ false
    → (claim_candidate (some stale) old later db' ≡ ok false db')
      × (commit (finish_job stale old end) db' ≡ db')
unfolding claim_candidate finish_job fail_job update_job_where update_job gets alter when pure
    commit ◌>>=◌ ◌>>◌
claim_candidate-exclusive candidate stale token old now later end db db' claimed same early lost =
    elim (Option-cases (find job_key candidate.id db.deliveries)) [
      | inl missing ↦ ground arith
      | inr (j, there) ↦ ground (
        arith,
        find-modify job_key candidate.id candidate.id
            (λ q. record q {
              status = JobStatus.running;
              lease_token = some token;
              lease_expires_at = some (now + 600_000);
              attempts = q.attempts + 1;
            })
            db.deliveries (λ q. refl),
      )
    ]
