-- ===== src/Approval/Pull.antt =====
-- What the decision on a fixture task promises: a pull request is opened only for an approved patch.
use Prim.Native.String.{String}
use agent_reliability_platfo.Base.{
  ℕ, ◌≡◌, refl, Bool, true, false, Option, none, some, [], ◌∷◌, arith, Option-cases, inl, inr,
}
use agent_reliability_platfo.Shared.Enums.{
  TaskStatus, ApprovalStatus, ◌===◌, task_status_enum, approval_status_enum, includes,
}
use agent_reliability_platfo.StateMachine.{assert_transition, task_transitions}
use agent_reliability_platfo.Store.Table.{find, find-modify}
use agent_reliability_platfo.Store.Rows.{Approval, Task, Db}
use agent_reliability_platfo.Store.Tx.{
  ok, pure, raise, ◌>>=◌, ◌>>◌, gets, alter, raise_if, or_raise,
}
use agent_reliability_platfo.Store.Queries.{
  approval_key, task_key, find_approval, find_task, update_approval, update_task,
}
use agent_reliability_platfo.Run.Transition.{assert_task_transition}
use agent_reliability_platfo.Approval.Decide.{
  Verdict, status_of, task_status_of, reviewer_or_anonymous, decide_fixture, write_verdict,
}

abbrev pub is_awaiting : Task → Bool
is_awaiting t = includes (TaskStatus.awaiting_approval ∷ TaskStatus.pr_failed ∷ []) t.status

abbrev pub approval_is : ApprovalStatus → Option Approval → Bool
approval_is status none = false
approval_is status (some a) = a.status === status

abbrev pub task_is : TaskStatus → Option Task → Bool
task_is status none = false
task_is status (some t) = t.status === status

-- A verdict that is written: the approval was pending when it was read, and its task waited for it, or its
-- pull request had failed; from then on the approval carries the verdict and so does the task.
pub decide_fixture-pending :
    (a : Approval) (task : Task) (verdict : Verdict) (reviewer : Option String) (now : ℕ)
    (db db' : Db)
    → decide_fixture a task verdict reviewer now db ≡ ok tt db'
    → ((a.status === ApprovalStatus.pending) ≡ true)
      × (is_awaiting task ≡ true)
      × (approval_is (status_of verdict) (find approval_key a.id db'.approvals) ≡ true)
      × (task_is (task_status_of verdict) (find task_key a.task_id db'.tasks) ≡ true)
unfolding decide_fixture write_verdict assert_task_transition assert_transition task_transitions
    find_approval find_task update_approval update_task gets alter raise_if or_raise pure raise
    ◌>>=◌ ◌>>◌
decide_fixture-pending a task verdict reviewer now db db' done =
    elim (Option-cases (find approval_key a.id db.approvals)) [
      | inl missing ↦ ground arith
      | inr (b, found) ↦ elim (Option-cases (find task_key a.task_id db.tasks)) [
        | inl unknown ↦ ground arith
        | inr (t, there) ↦ ground (
          arith,
          find-modify approval_key a.id a.id
              (λ q. record q {
                status = status_of verdict;
                reviewer = some (reviewer_or_anonymous reviewer);
                decided_at = some now;
              })
              db.approvals (λ q. refl),
          find-modify task_key a.task_id a.task_id
              (λ q. record q { status = task_status_of verdict }) db.tasks (λ q. refl),
        )
      ]
    ]
