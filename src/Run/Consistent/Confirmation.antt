-- ===== src/Run/Consistent/Confirmation.antt =====
-- The invariant under `confirm` of modules/task/task-draft.service.ts.
use Prim.Native.String.{String}
use agent_reliability_platfo.Base.{List, ℕ, Bool, Option, none, some, refl, inr}
use agent_reliability_platfo.Shared.TaskSnapshot.{TaskSnapshot}
use agent_reliability_platfo.Store.Rows.{TraceEvent, Project, Task, TaskDraft, Db}
use agent_reliability_platfo.Store.Keeps.{Keeps}
use agent_reliability_platfo.Store.Queries.{insert_run}
use agent_reliability_platfo.Run.Confirmation.{
  Confirmation, answer_prior, confirmed_run, open_task, confirm_known, confirm_tx, confirm_fresh,
  confirm_read, confirm,
}
use agent_reliability_platfo.Run.Consistent.Defs.{settled, IsConsistent}
use agent_reliability_platfo.Run.Consistent.Attempts.{transitions}
use agent_reliability_platfo.Run.Consistent.Creation.{
  insert_task-IsConsistent, insert_run-IsConsistent,
}

answer_prior-IsConsistent :
    {log : List TraceEvent}
    → (t : Task) (digest : ℕ) → Keeps (IsConsistent (settled log)) (answer_prior t digest)
unfolding answer_prior
answer_prior-IsConsistent t digest = search transitions

confirmed_run-IsConsistent :
    {log : List TraceEvent}
    → (id task_id : ℕ) (snapshot : TaskSnapshot) (now : ℕ)
    → Keeps (IsConsistent (settled log)) (insert_run (confirmed_run id task_id snapshot now))
confirmed_run-IsConsistent id task_id snapshot now = insert_run-IsConsistent _ (refl, inr refl)

open_task-IsConsistent :
    {log : List TraceEvent}
    → (project : Project) (snapshot : TaskSnapshot) (digest : ℕ) (key : String)
      (task_id run_id now : ℕ)
    → Keeps (IsConsistent (settled log)) (open_task project snapshot digest key task_id run_id now)
unfolding open_task
open_task-IsConsistent project snapshot digest key task_id run_id now =
    search (transitions, insert_task-IsConsistent, confirmed_run-IsConsistent)

confirm_known-IsConsistent :
    {log : List TraceEvent}
    → (prior : Option Task) (project : Project) (snapshot : TaskSnapshot) (digest : ℕ)
      (key : String) (task_id run_id now : ℕ)
    → Keeps
        (IsConsistent (settled log))
        (confirm_known prior project snapshot digest key task_id run_id now)
unfolding confirm_known
confirm_known-IsConsistent (some t) project snapshot digest key task_id run_id now =
    answer_prior-IsConsistent t digest
confirm_known-IsConsistent none project snapshot digest key task_id run_id now =
    open_task-IsConsistent project snapshot digest key task_id run_id now

confirm_tx-IsConsistent :
    {log : List TraceEvent}
    → (project : Project) (snapshot : TaskSnapshot) (digest : ℕ) (key : String)
      (task_id run_id now : ℕ)
    → Keeps (IsConsistent (settled log)) (confirm_tx project snapshot digest key task_id run_id now)
unfolding confirm_tx
confirm_tx-IsConsistent project snapshot digest key task_id run_id now =
    search (transitions, confirm_known-IsConsistent)

module _ (seen : Db) (digest_of : TaskSnapshot → ℕ) (head_of : String → ℕ) (has_commit : Bool) where
  confirm_fresh-IsConsistent :
      {log : List TraceEvent}
      → (draft : TaskDraft) (input : Confirmation) (task_id run_id now : ℕ)
      → Keeps
          (IsConsistent (settled log))
          (confirm_fresh seen digest_of head_of has_commit draft input task_id run_id now)
  unfolding confirm_fresh
  confirm_fresh-IsConsistent draft input task_id run_id now =
      search (transitions, confirm_tx-IsConsistent) depth 8

  confirm_read-IsConsistent :
      {log : List TraceEvent}
      → (known : Option Task) (draft : TaskDraft) (input : Confirmation) (task_id run_id now : ℕ)
      → Keeps
          (IsConsistent (settled log))
          (confirm_read known seen digest_of head_of has_commit draft input task_id run_id now)
  unfolding confirm_read
  confirm_read-IsConsistent (some t) draft input task_id run_id now =
      answer_prior-IsConsistent t (digest_of draft.snapshot)
  confirm_read-IsConsistent none draft input task_id run_id now =
      confirm_fresh-IsConsistent draft input task_id run_id now

  pub confirm-IsConsistent :
      {log : List TraceEvent}
      → (input : Confirmation) (task_id run_id now : ℕ)
      → Keeps
          (IsConsistent (settled log))
          (confirm seen digest_of head_of has_commit input task_id run_id now)
  unfolding confirm
  confirm-IsConsistent input task_id run_id now = search (transitions, confirm_read-IsConsistent)
