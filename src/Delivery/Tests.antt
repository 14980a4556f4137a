-- ===== src/Delivery/Tests.antt =====
-- Tests of decisions and deliveries, and the theorems on a small database.
use Prim.Native.String.{len}
use agent_reliability_platfo.Base.{◌≡◌, refl, true, false, none, some, [], ◌∷◌, arith}
use agent_reliability_platfo.Shared.Enums.{TaskStatus, ApprovalStatus, approval_status_enum}
use agent_reliability_platfo.Store.Table.{find, first_where, last_where, modify}
use agent_reliability_platfo.Store.Rows.{Db}
use agent_reliability_platfo.Store.Tx.{
  ok, err, commit, conflict, pure, ◌>>=◌, ◌>>◌, gets, alter, raise_if, or_raise, when,
}
use agent_reliability_platfo.Store.Queries.{
  find_approval, update_approval, find_task, update_task, insert_job,
}
use agent_reliability_platfo.Delivery.Decision.{
  approve, reject, reject_pending, approve_pending, decide_approval, schedule, scheduled, job_of,
}
use agent_reliability_platfo.Delivery.Jobs.{claim_candidate, finish_job, update_job, opened}
use agent_reliability_platfo.Delivery.Examples.{verified_task, fix, waiting, claimed_job}
use agent_reliability_platfo.Delivery.Laws.{
  Verdict, give, IsApproved, approve-identical, give-final, claim_candidate-exclusive,
}

abbrev verified : Db
verified = record {
  workspaces = [];
  drafts = [];
  projects = [];
  tasks = verified_task ∷ [];
  runs = [];
  attempts = [];
  events = [];
  checkpoints = [];
  artifacts = fix ∷ [];
  verifications = [];
  decisions = [];
  approvals = waiting ∷ [];
  outbox = [];
  budget_calls = [];
  environments = [];
  deliveries = [];
}

abbrev approved : Db
approved = record verified {
  tasks = record verified_task { status = TaskStatus.approved } ∷ [];
  approvals =
      record waiting {
        status = ApprovalStatus.approved;
        reviewer = some "ada";
        decided_at = some 9_000;
      }
      ∷ [];
  deliveries = job_of 8 7 2 4 ∷ [];
}

approve-verified :
    approve len 7 (some "ada") 8 9_000 verified
    ≡ ok (ApprovalStatus.approved, scheduled (job_of 8 7 2 4)) approved
unfolding approve approve_pending decide_approval schedule find_approval find_task update_approval
    update_task insert_job find first_where last_where modify gets alter raise_if or_raise pure
    ◌>>=◌ ◌>>◌
approve-verified = refl

approve-identical_example :
    IsApproved len 7 (some "ada") 8 9_000 waiting verified_task verified approved
approve-identical_example =
    approve-identical len 7 (some "ada") 8 9_000 verified approved waiting verified_task _
      (unfold find in refl) (unfold find in refl) refl approve-verified

-- A rejection, and an approval that comes after it.
abbrev rejected : Db
rejected = record verified {
  tasks = record verified_task { status = TaskStatus.rejected } ∷ [];
  approvals =
      record waiting {
        status = ApprovalStatus.rejected;
        reviewer = some "ada";
        decided_at = some 9_000;
      }
      ∷ [];
}

give-rejected :
    give Verdict.rejection len 7 (some "ada") 8 9_000 verified ≡ ok ApprovalStatus.rejected rejected
unfolding give reject reject_pending decide_approval find_approval find_task update_approval
    update_task find modify gets alter raise_if or_raise pure ◌>>=◌ ◌>>◌
give-rejected = refl

give-final_example :
    give Verdict.approval len 7 none 9 9_500 rejected
    ≡ err (conflict "Approval is no longer pending")
give-final_example =
    give-final Verdict.rejection Verdict.approval len 7 (some "ada") none 8 9 9_000 9_500 verified
      rejected waiting verified_task _ (unfold find in refl) (unfold find in refl) give-rejected

abbrev delivering : Db
delivering = record approved { deliveries = claimed_job ∷ [] }

claim_candidate-approved :
    claim_candidate (some (job_of 8 7 2 4)) 30 10_000 approved ≡ ok true delivering
unfolding claim_candidate update_job find modify gets alter when pure ◌>>=◌ ◌>>◌
claim_candidate-approved = refl

claim_candidate-exclusive_example :
    (claim_candidate (some (job_of 8 7 2 4)) 31 20_000 delivering ≡ ok false delivering)
    × (commit (finish_job (job_of 8 7 2 4) 31 (opened "url")) delivering ≡ delivering)
claim_candidate-exclusive_example =
    claim_candidate-exclusive (job_of 8 7 2 4) (job_of 8 7 2 4) 30 31 10_000 20_000 (opened "url")
      approved delivering claim_candidate-approved refl (omega arith) refl
