-- ===== src/Store/Queries.antt =====
-- Prisma's calls on one table, as transactions.
use text.Mathlib.Text.{◌==◌ as text_eq}
use agent_reliability_platfo.Base.{
  ℕ, Bool, true, false, not, ◌&&◌, ◌||◌, List, [], ◌∷◌, ◌++◌, ◌==◌, if◌then◌else◌, is_some, any,
  max,
}
use agent_reliability_platfo.Shared.Enums.{
  AttemptStatus, run_status_enum, task_status_enum, claimed, running, attempt_status_enum, includes,
}
use agent_reliability_platfo.Store.Table.{find, modify}
use agent_reliability_platfo.Store.Rows.{
  Workspace, Project, Task, Run, Attempt, EventKey, platform, reported, TraceEvent, Checkpoint,
  Artifact, VerificationResult, PolicyDecision, Approval, OutboxMessage, BudgetCall, CallStatus,
  DeliveryJob, Db,
}
use agent_reliability_platfo.Store.Tx.{
  Tx, ◌>>=◌, ◌>>◌, gets, alter, raise_if, or_raise, record_missing, unique_violation,
}

abbrev pub project_key : Project → ℕ
project_key r = r.id

abbrev pub task_key : Task → ℕ
task_key r = r.id

abbrev pub run_key : Run → ℕ
run_key r = r.id

abbrev pub attempt_key : Attempt → ℕ
attempt_key r = r.id

abbrev pub call_key : BudgetCall → ℕ
call_key r = r.id

abbrev pub approval_key : Approval → ℕ
approval_key r = r.id

abbrev pub job_key : DeliveryJob → ℕ
job_key r = r.id

-- `findUniqueOrThrow`
unfoldable pub find_project : ℕ → Tx Project
find_project id = do or_raise (← gets (λ db. find project_key id db.projects)) record_missing

unfoldable pub find_task : ℕ → Tx Task
find_task id = do or_raise (← gets (λ db. find task_key id db.tasks)) record_missing

unfoldable pub find_run : ℕ → Tx Run
find_run id = do or_raise (← gets (λ db. find run_key id db.runs)) record_missing

unfoldable pub find_attempt : ℕ → Tx Attempt
find_attempt id = do or_raise (← gets (λ db. find attempt_key id db.attempts)) record_missing

unfoldable pub find_approval : ℕ → Tx Approval
find_approval id = do or_raise (← gets (λ db. find approval_key id db.approvals)) record_missing

-- `update`: the row must be there.
unfoldable pub update_task : ℕ → (Task → Task) → Tx (Unit {0})
update_task id f = do
  find_task id
  alter (λ db. record db { tasks = modify task_key id f db.tasks })

unfoldable pub update_run : ℕ → (Run → Run) → Tx (Unit {0})
update_run id f = do find_run id; alter (λ db. record db { runs = modify run_key id f db.runs })

unfoldable pub update_attempt : ℕ → (Attempt → Attempt) → Tx (Unit {0})
update_attempt id f = do
  find_attempt id
  alter (λ db. record db { attempts = modify attempt_key id f db.attempts })

unfoldable pub update_approval : ℕ → (Approval → Approval) → Tx (Unit {0})
update_approval id f = do
  find_approval id
  alter (λ db. record db { approvals = modify approval_key id f db.approvals })

-- The keys of the platform and those of the workers are different texts.
abbrev pub same_key : EventKey → EventKey → Bool
same_key (platform a m) (platform b n) = a == b && m == n
same_key (reported s) (reported t) = text_eq s t
same_key _ _ = false

-- The unique constraints of a trace event: its idempotency key, and its run with its sequence.
abbrev pub clashes : TraceEvent → TraceEvent → Bool
clashes e other =
    same_key e.idempotency_key other.idempotency_key
    || (e.run_id == other.run_id && e.run_sequence == other.run_sequence)

unfoldable pub insert_event : TraceEvent → Tx (Unit {0})
insert_event e = do
  raise_if (← gets (λ db. any (clashes e) db.events)) unique_violation
  alter (λ db. record db { events = db.events ++ e ∷ [] })

-- A run has one attempt of each number.
unfoldable pub insert_attempt : Attempt → Tx (Unit {0})
insert_attempt a = do
  raise_if (← gets (λ db. any (λ b. a.run_id == b.run_id && a.no == b.no) db.attempts))
      unique_violation
  alter (λ db. record db { attempts = db.attempts ++ a ∷ [] })

unfoldable pub insert_workspace : Workspace → Tx (Unit {0})
insert_workspace w = alter (λ db. record db { workspaces = db.workspaces ++ w ∷ [] })

unfoldable pub insert_project : Project → Tx (Unit {0})
insert_project p = alter (λ db. record db { projects = db.projects ++ p ∷ [] })

unfoldable pub insert_task : Task → Tx (Unit {0})
insert_task t = alter (λ db. record db { tasks = db.tasks ++ t ∷ [] })

unfoldable pub insert_run : Run → Tx (Unit {0})
insert_run r = do
  raise_if (← gets (λ db. is_some (find run_key r.id db.runs))) unique_violation
  alter (λ db. record db { runs = db.runs ++ r ∷ [] })

unfoldable pub insert_checkpoint : Checkpoint → Tx (Unit {0})
insert_checkpoint c = alter (λ db. record db { checkpoints = db.checkpoints ++ c ∷ [] })

unfoldable pub insert_artifact : Artifact → Tx (Unit {0})
insert_artifact a = alter (λ db. record db { artifacts = db.artifacts ++ a ∷ [] })

unfoldable pub insert_verification : VerificationResult → Tx (Unit {0})
insert_verification v = alter (λ db. record db { verifications = db.verifications ++ v ∷ [] })

unfoldable pub insert_decision : PolicyDecision → Tx (Unit {0})
insert_decision d = alter (λ db. record db { decisions = db.decisions ++ d ∷ [] })

-- A task has one approval.
unfoldable pub insert_approval : Approval → Tx (Unit {0})
insert_approval a = do
  raise_if (← gets (λ db. any (λ b. a.task_id == b.task_id) db.approvals)) unique_violation
  alter (λ db. record db { approvals = db.approvals ++ a ∷ [] })

-- An approval has one delivery.
unfoldable pub insert_job : DeliveryJob → Tx (Unit {0})
insert_job j = do
  raise_if (← gets (λ db. any (λ k. j.approval_id == k.approval_id) db.deliveries)) unique_violation
  alter (λ db. record db { deliveries = db.deliveries ++ j ∷ [] })

unfoldable pub insert_message : OutboxMessage → Tx (Unit {0})
insert_message m = alter (λ db. record db { outbox = db.outbox ++ m ∷ [] })

unfoldable pub insert_call : BudgetCall → Tx (Unit {0})
insert_call c = do
  raise_if (← gets (λ db. is_some (find call_key c.id db.budget_calls))) unique_violation
  alter (λ db. record db { budget_calls = db.budget_calls ++ c ∷ [] })

abbrev pub is_settled : BudgetCall → Bool
is_settled c = elim c.status [ CallStatus.settled ↦ true | _ ↦ false ]

-- `budgetCall.count({ where: { runId, status: { not: 'SETTLED' } } })`, as a test
unfoldable pub has_unsettled : ℕ → Db → Bool
has_unsettled run_id db = any (λ c. c.run_id == run_id && not (is_settled c)) db.budget_calls

-- `latest?.no ?? 0`, where `latest` is the run's attempt with the highest number
unfoldable pub latest_no : ℕ → List Attempt → ℕ
latest_no run_id [] = 0
latest_no run_id (a ∷ rest) =
    let others = latest_no run_id rest in if a.run_id == run_id then max a.no others else others

-- The attempts that hold a lease.
abbrev pub is_live : AttemptStatus → Bool
is_live s = includes (claimed ∷ running ∷ []) s
