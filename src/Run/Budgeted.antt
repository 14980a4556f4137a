-- ===== src/Run/Budgeted.antt =====
-- The budget of the run that `createTask` of run-lifecycle.service.ts makes in a public demonstration.
use agent_reliability_platfo.Base.{
  ℕ, ◌≡◌, refl, ap, subst, ◌∙◌, true, Option, none, some, List, arith, Option-cases, inl, inr,
}
use agent_reliability_platfo.Shared.Enums.{TaskStatus, RunStatus, TraceEventType, run_status_enum}
use agent_reliability_platfo.StateMachine.{
  Entity, allowed, invalid_transition, run_transitions, assert_transition,
}
use agent_reliability_platfo.Store.Table.{find, find-append, find-modify}
use agent_reliability_platfo.Store.Rows.{OutboxMessage, Run, Task, TraceEvent, Payload, Db}
use agent_reliability_platfo.Store.Tx.{
  Tx, Result, ok, err, pure, raise, ◌>>=◌, ◌>>◌, gets, alter, raise_if, or_raise,
  invalid_run_transition,
}
use agent_reliability_platfo.Store.Keeps.{
  Holds, Keeps, Leads, Leads-then, Leads-bind, Leads-Keeps, Keeps-alter, Keeps-pure, Keeps-raise,
  keeps_rules,
}
use agent_reliability_platfo.Store.Queries.{
  run_key, find_run, find_task, insert_run, insert_event, insert_message, update_run, update_task,
}
use agent_reliability_platfo.Run.Commands.{Fixture, get_fixture, build_run_command}
use agent_reliability_platfo.Run.Transition.{
  append_synthetic_event, assert_run_transition, transition_run, transition_task,
}
use agent_reliability_platfo.Run.Consistent.Events.{asserted_task}
use agent_reliability_platfo.Run.Creation.{
  TaskInput, NewIds, new_run, demo_input, first_command, create_tx,
}

-- The budget of a run: tokens, seconds and turns.
abbrev pub budget_of : Option Run → Option (ℕ × ℕ × ℕ)
budget_of none = none
budget_of (some r) = some (r.budget_tokens, r.budget_seconds, r.budget_turns)

-- The run `id` is there, with the budget of a demonstration.
abbrev pub IsLimited : ℕ → Db → Type 0
IsLimited id db = budget_of (find run_key id db.runs) ≡ some (10_000, 180, 10)

abbrev pub Any : Db → Type 0
Any db = Unit {0}

Leads-Any : {A : Type 0} → (m : Tx A) → Leads Any Any m
Leads-Any {A} m = record { at = λ db h. settle (m db) }
  where
    settle : (r : Result A) → Holds Any r
    settle (ok a db') = tt
    settle (err e) = tt

module _ (id : ℕ) where
  insert_run-IsLimited :
      (task_id : ℕ) (input : TaskInput) (base_commit : ℕ)
      → Leads Any (IsLimited id) (insert_run (new_run id task_id (demo_input input) base_commit))
  unfolding insert_run gets raise_if alter ◌>>=◌ ◌>>◌
  insert_run-IsLimited task_id input base_commit = record {
    at = λ db h. elim (Option-cases (find run_key id db.runs)) [
      | inl missing ↦ ground (
        arith,
        find-append run_key id db.runs (new_run id task_id (demo_input input) base_commit),
      )
      | inr (q, found) ↦ ground arith
    ];
  }

  update_run-IsLimited :
      (j : ℕ) (f : Run → Run)
      → ((r : Run) → (run_key (f r) ≡ run_key r) × (budget_of (some (f r)) ≡ budget_of (some r)))
      → Keeps (IsLimited id) (update_run j f)
  unfolding update_run find_run gets or_raise alter ◌>>=◌ ◌>>◌
  update_run-IsLimited j f keeps = record {
    at = λ db h. elim (Option-cases (find run_key j db.runs)) [
      | inl missing ↦ ground arith
      | inr (q, found) ↦ elim (Option-cases (find run_key id db.runs)) [
        | inl gone ↦ ground arith
        | inr (r, there) ↦
            ground (arith, keeps r, find-modify run_key id j f db.runs (λ x. (keeps x).0))
      ]
    ];
  }

  unrelated :
      (f : Db → Db)
      → ((db : Db) → find run_key id (f db).runs ≡ find run_key id db.runs)
      → Keeps (IsLimited id) (alter f)
  unrelated f same = Keeps-alter f (λ db h. ap budget_of (same db) ∙ h)

  update_task-IsLimited : (j : ℕ) (f : Task → Task) → Keeps (IsLimited id) (update_task j f)
  unfolding update_task find_task
  update_task-IsLimited j f = search (keeps_rules, unrelated)

  insert_message-IsLimited : (m : OutboxMessage) → Keeps (IsLimited id) (insert_message m)
  unfolding insert_message
  insert_message-IsLimited m = Keeps-alter _ (λ db h. h)

  insert_event-IsLimited : (e : TraceEvent) → Keeps (IsLimited id) (insert_event e)
  unfolding insert_event
  insert_event-IsLimited e = search (keeps_rules, unrelated)

  transition_task-IsLimited :
      (j : ℕ) (from to : TaskStatus) → Keeps (IsLimited id) (transition_task j from to)
  unfolding transition_task
  transition_task-IsLimited j from to = search (keeps_rules, asserted_task, update_task-IsLimited)

  asserted_run : (from to : RunStatus) → Keeps (IsLimited id) (assert_run_transition from to)
  unfolding assert_run_transition
  asserted_run from to =
      elim (assert_transition run_transitions Entity.run from to)
        as (λ a. Keeps (IsLimited id) (elim a [
          | allowed _ ↦ pure tt
          | invalid_transition _ x y ↦ raise (invalid_run_transition x y)
        ])) [
          | allowed _ ↦ Keeps-pure tt
          | invalid_transition _ x y ↦ Keeps-raise (invalid_run_transition x y)
        ]

  append_synthetic_event-IsLimited :
      (j : ℕ) (kind : TraceEventType) (payload : Payload) (attempt_id : Option ℕ) (now : ℕ)
      → Keeps (IsLimited id) (append_synthetic_event j kind payload attempt_id now)
  unfolding append_synthetic_event find_run
  append_synthetic_event-IsLimited j kind payload attempt_id now =
      search (keeps_rules, insert_event-IsLimited, update_run-IsLimited, refl) depth 8

  transition_run-IsLimited :
      (j : ℕ) (from to : RunStatus) (now : ℕ) → Keeps (IsLimited id) (transition_run j from to now)
  unfolding transition_run
  transition_run-IsLimited j from to now =
      search
        (keeps_rules, asserted_run, append_synthetic_event-IsLimited, update_run-IsLimited, refl)
        depth 8

  first_command-IsLimited :
      (fixtures : List Fixture) (fixture : Fixture) (run : Run) (input : TaskInput)
      (base_commit now : ℕ)
      → Keeps (IsLimited id) (first_command fixtures fixture run input base_commit now)
  unfolding first_command build_run_command get_fixture
  first_command-IsLimited fixtures fixture run input base_commit now =
      search (keeps_rules, insert_message-IsLimited) depth 8

-- The transaction of a demonstration leaves the new run with that budget.
pub create_tx-IsLimited :
    (fixtures : List Fixture) (fixture : Fixture) (input : TaskInput) (base_commit : ℕ)
    (ids : NewIds) (now : ℕ)
    → Leads Any
        (IsLimited ids.run)
        (create_tx true fixtures fixture (demo_input input) base_commit ids now)
unfolding create_tx
create_tx-IsLimited fixtures fixture input base_commit ids now = Leads-then _ _ (Leads-Any _) (
    Leads-bind _ _ (Leads-Any _) (λ project. Leads-then _ _ (Leads-Any _) (
      Leads-then _ _ (insert_run-IsLimited ids.run ids.task input base_commit) (
        Leads-Keeps (
          search
            (
              keeps_rules,
              transition_task-IsLimited ids.run,
              first_command-IsLimited ids.run,
              transition_run-IsLimited ids.run,
            )
            depth 8)))))

-- What is known of a transaction that has committed.
pub committed_of :
    {A : Type 0} {Q : Db → Type 0} (m : Tx A) (db db' : Db) (a : A)
    → Leads Any Q m
    → m db ≡ ok a db'
    → Q db'
committed_of {Q = Q} m db db' a l done = subst (Holds Q) done (l.at db tt)
