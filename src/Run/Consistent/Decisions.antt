-- ===== src/Run/Consistent/Decisions.antt =====
-- The invariant under the decisions and the delivery jobs of delivery.service.ts, which write no run.
use Prim.Native.String.{String}
use agent_reliability_platfo.Base.{ℕ, refl, Bool, Option, none, some}
use agent_reliability_platfo.Shared.TaskSnapshot.{DeliveryKind}
use agent_reliability_platfo.Store.Table.{first_where}
use agent_reliability_platfo.Store.Rows.{Approval, Task, DeliveryJob, JobStatus, Db}
use agent_reliability_platfo.Store.Tx.{Tx, gets, raise_if}
use agent_reliability_platfo.Store.Keeps.{
  Keeps, Keeps-alter, Keeps-then, Keeps-bind, Keeps-gets, Keeps-raise_if, Keeps-or_raise,
  keeps_rules,
}
use agent_reliability_platfo.Store.Queries.{find_approval, update_approval, insert_job}
use agent_reliability_platfo.Delivery.Decision.{
  decide_approval, reject_pending, reject, schedule, approve_pending, approve, retry,
}
use agent_reliability_platfo.Delivery.Jobs.{
  update_job, update_job_where, give_up, claim_candidate, claim_job, is_candidate, renew_job,
  DeliveryEnd, opened, conflicted, broken, fail_job, finish_job,
}
use agent_reliability_platfo.Run.Consistent.Defs.{Ghost, IsConsistent}
use agent_reliability_platfo.Run.Consistent.Writes.{unrelated}
use agent_reliability_platfo.Run.Consistent.Attempts.{transitions}

module _ {g : Ghost} where
  find_approval-IsConsistent : (id : ℕ) → Keeps (IsConsistent g) (find_approval id)
  unfolding find_approval
  find_approval-IsConsistent id = search keeps_rules

  update_approval-IsConsistent :
      (id : ℕ) (f : Approval → Approval) → Keeps (IsConsistent g) (update_approval id f)
  unfolding update_approval
  update_approval-IsConsistent id f =
      Keeps-then _ _ (find_approval-IsConsistent id)
        (Keeps-alter _ (λ db h. unrelated {db = db} refl refl refl h))

  insert_job-IsConsistent : (j : DeliveryJob) → Keeps (IsConsistent g) (insert_job j)
  unfolding insert_job
  insert_job-IsConsistent j = Keeps-bind (gets _) _ (Keeps-gets _) (λ b.
      Keeps-then (raise_if b _) _ (Keeps-raise_if b _)
        (Keeps-alter _ (λ db h. unrelated {db = db} refl refl refl h)))

  update_job-IsConsistent :
      (id : ℕ) (f : DeliveryJob → DeliveryJob) → Keeps (IsConsistent g) (update_job id f)
  unfolding update_job
  update_job-IsConsistent id f = Keeps-alter _ (λ db h. unrelated {db = db} refl refl refl h)

ruleset decisions = (
  transitions, find_approval-IsConsistent, update_approval-IsConsistent, insert_job-IsConsistent,
  update_job-IsConsistent,
)

module _ {g : Ghost} where
  reject_pending-IsConsistent :
      (a : Approval) (reviewer : Option String) (now : ℕ)
      → Keeps (IsConsistent g) (reject_pending a reviewer now)
  unfolding reject_pending decide_approval
  reject_pending-IsConsistent a reviewer now = search decisions

  pub reject-IsConsistent :
      (id : ℕ) (reviewer : Option String) (now : ℕ)
      → Keeps (IsConsistent g) (reject id reviewer now)
  unfolding reject
  reject-IsConsistent id reviewer now = search (decisions, reject_pending-IsConsistent)

  schedule-IsConsistent :
      (kind : DeliveryKind) (a : Approval) (digest job_id : ℕ)
      → Keeps (IsConsistent g) (schedule kind a digest job_id)
  unfolding schedule
  schedule-IsConsistent DeliveryKind.patch a digest job_id = search decisions
  schedule-IsConsistent DeliveryKind.pull_request a digest job_id = search decisions

  approve_pending-IsConsistent :
      (sha256 : String → ℕ) (a : Approval) (task : Task) (reviewer : Option String) (job_id now : ℕ)
      → Keeps (IsConsistent g) (approve_pending sha256 a task reviewer job_id now)
  unfolding approve_pending decide_approval
  approve_pending-IsConsistent sha256 a task reviewer job_id now =
      search (decisions, schedule-IsConsistent) depth 12

  pub approve-IsConsistent :
      (sha256 : String → ℕ) (id : ℕ) (reviewer : Option String) (job_id now : ℕ)
      → Keeps (IsConsistent g) (approve sha256 id reviewer job_id now)
  unfolding approve
  approve-IsConsistent sha256 id reviewer job_id now =
      search (decisions, approve_pending-IsConsistent) depth 9

  pub retry-IsConsistent :
      (seen : Db) (approval_id : ℕ) → Keeps (IsConsistent g) (retry seen approval_id)
  unfolding retry
  retry-IsConsistent seen approval_id = Keeps-bind _ _ (Keeps-or_raise _ _) λ job.
      Keeps-then _ _ (Keeps-raise_if _ _) (
        Keeps-bind _ _ (Keeps-gets _) λ row. Keeps-then _ _ (Keeps-raise_if _ _) (
          Keeps-then _ _ (Keeps-alter _ (λ db h. unrelated {db = db} refl refl refl h))
            (search decisions)))

  pub claim_candidate-IsConsistent :
      (candidate : Option DeliveryJob) (token now : ℕ)
      → Keeps (IsConsistent g) (claim_candidate candidate token now)
  unfolding claim_candidate
  claim_candidate-IsConsistent none token now = search decisions
  claim_candidate-IsConsistent (some candidate) token now = search decisions

  pub claim_job-IsConsistent :
      (seen : Db) (token now : ℕ) → Keeps (IsConsistent g) (claim_job seen token now)
  unfolding claim_job
  claim_job-IsConsistent seen token now =
      claim_candidate-IsConsistent (first_where (is_candidate now) seen.deliveries) token now

  update_job_where-IsConsistent :
      (id : ℕ) (test : DeliveryJob → Bool) (f : DeliveryJob → DeliveryJob) (next : Tx (Unit {0}))
      → Keeps (IsConsistent g) next
      → Keeps (IsConsistent g) (update_job_where id test f next)
  unfolding update_job_where
  update_job_where-IsConsistent id test f next k = search decisions

  pub give_up-IsConsistent :
      (job : DeliveryJob) (now : ℕ) → Keeps (IsConsistent g) (give_up job now)
  unfolding give_up
  give_up-IsConsistent job now = search (decisions, update_job_where-IsConsistent)

  pub renew_job-IsConsistent : (id token now : ℕ) → Keeps (IsConsistent g) (renew_job id token now)
  unfolding renew_job
  renew_job-IsConsistent id token now = search (decisions, update_job_where-IsConsistent)

  fail_job-IsConsistent :
      (job : DeliveryJob) (token : ℕ) (status : JobStatus) (text : String)
      → Keeps (IsConsistent g) (fail_job job token status text)
  unfolding fail_job
  fail_job-IsConsistent job token status text = search (decisions, update_job_where-IsConsistent)

  pub finish_job-IsConsistent :
      (job : DeliveryJob) (token : ℕ) (end : DeliveryEnd)
      → Keeps (IsConsistent g) (finish_job job token end)
  unfolding finish_job
  finish_job-IsConsistent job token (opened url) = search (decisions, update_job_where-IsConsistent)
  finish_job-IsConsistent job token (conflicted text) = fail_job-IsConsistent job token _ text
  finish_job-IsConsistent job token broken = fail_job-IsConsistent job token _ _
