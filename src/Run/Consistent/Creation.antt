-- ===== src/Run/Consistent/Creation.antt =====
-- The invariant under `createTask` of run-lifecycle.service.ts.
use Prim.Native.String.{String}
use agent_reliability_platfo.Base.{
  ◌⊎◌, ℕ, ◌≤◌, ◌≡◌, refl, Bool, Option, none, some, List, [], ◌∷◌, ◌++◌, arith, Option-cases, inl,
  inr, Bool-cases, ◌==◌, if◌then◌else◌,
}
use agent_reliability_platfo.Shared.Enums.{RunStatus}
use agent_reliability_platfo.Store.Table.{find, find-append}
use agent_reliability_platfo.Store.Rows.{TraceEvent, Workspace, Project, Task, Run, Db}
use agent_reliability_platfo.Store.Tx.{Error, gets, raise_if, alter, ◌>>=◌, ◌>>◌}
use agent_reliability_platfo.Store.Keeps.{Keeps, Keeps-alter, Keeps-pure}
use agent_reliability_platfo.Store.Queries.{
  run_key, insert_workspace, insert_project, insert_task, insert_run,
}
use agent_reliability_platfo.Run.Commands.{Fixture, get_fixture, build_run_command}
use agent_reliability_platfo.Run.Demo.{assert_demo_input, assert_demo_capacity}
use agent_reliability_platfo.Run.Creation.{
  TaskInput, NewIds, admit_demo, default_project, ensure_default_project, new_run, first_command,
  create_tx, create_task,
}
use agent_reliability_platfo.Run.Consistent.Defs.{
  Ghost, settled, IsConsistent, last_sequence_of, max_attempts_of, Move, replay, Follows, Traced,
  trail,
}
use agent_reliability_platfo.Run.Consistent.Writes.{unrelated}
use agent_reliability_platfo.Run.Consistent.Attempts.{transitions}

insert_workspace-IsConsistent :
    {g : Ghost} → (w : Workspace) → Keeps (IsConsistent g) (insert_workspace w)
unfolding insert_workspace
insert_workspace-IsConsistent w = Keeps-alter _ (λ db h. unrelated {db = db} refl refl refl h)

insert_project-IsConsistent :
    {g : Ghost} → (p : Project) → Keeps (IsConsistent g) (insert_project p)
unfolding insert_project
insert_project-IsConsistent p = Keeps-alter _ (λ db h. unrelated {db = db} refl refl refl h)

pub insert_task-IsConsistent : {g : Ghost} → (t : Task) → Keeps (IsConsistent g) (insert_task t)
unfolding insert_task
insert_task-IsConsistent t = Keeps-alter _ (λ db h. unrelated {db = db} refl refl refl h)

last_sequence-append :
    (j : ℕ) (runs : List Run) (r : Run)
    → r.last_sequence ≡ 0
    → last_sequence_of (find run_key j (runs ++ r ∷ [])) ≡ last_sequence_of (find run_key j runs)
last_sequence-append j runs r new = ground (arith, find-append run_key j runs r)

max_attempts-append :
    (j : ℕ) (runs : List Run) (r : Run)
    → max_attempts_of (find run_key j runs) ≤ max_attempts_of (find run_key j (runs ++ r ∷ []))
max_attempts-append j runs r = ground (arith, find-append run_key j runs r)

-- How runs are created.
abbrev pub IsNew : Run → Type 0
IsNew r =
    (r.last_sequence ≡ 0) × ((r.status ≡ RunStatus.pending) ⊎ (r.status ≡ RunStatus.dispatched))

Traced-append_run :
    (j : ℕ) (runs : List Run) (r : Run) (ms : List Move)
    → IsNew r
    → Traced ms (find run_key j runs)
    → Traced ms (find run_key j (runs ++ r ∷ []))
unfolding replay
Traced-append_run j runs r ms new h = elim (Option-cases (find run_key j runs)) [
  | inl missing ↦ rw (find-append run_key j runs r, missing) (fresh (rw missing at h))
  | inr (q, found) ↦ rw (find-append run_key j runs r, found) (rw found at h)
]
  where
    start : IsNew r → Follows [] r.status
    start (_, inl pending) = inl (rw pending refl)
    start (_, inr dispatched) = inr (rw dispatched refl)

    fresh : ms ≡ [] → Traced ms (if run_key r == j then some r else none)
    fresh empty = elim (Bool-cases (run_key r == j)) [
      | inl mine ↦ rw (mine, empty) (start new)
      | inr other ↦ rw other empty
    ]

with_run :
    {g : Ghost}
    → (r : Run) (db : Db) → IsNew r
    → IsConsistent g db
    → IsConsistent g (record db { runs = db.runs ++ r ∷ [] })
with_run {g} r db new h = record {
  logged = λ j. rw (last_sequence-append j db.runs r new.0) (h.logged j);
  numbered = h.numbered;
  bounded = λ j. omega (arith, h.bounded j, max_attempts-append j db.runs r);
  lawful = h.lawful;
  traced = λ j. Traced-append_run j db.runs r (trail g j db.events) new (h.traced j);
  later = h.later;
  continued = h.continued;
}

pub insert_run-IsConsistent :
    {g : Ghost} → (r : Run) → IsNew r → Keeps (IsConsistent g) (insert_run r)
unfolding insert_run gets raise_if alter ◌>>=◌ ◌>>◌
insert_run-IsConsistent r new = record {
  at = λ db h. elim (Option-cases (find run_key r.id db.runs)) [
    | inl missing ↦ ground (arith, with_run r db new h)
    | inr (q, found) ↦ ground arith
  ];
}

new_run-IsConsistent :
    {log : List TraceEvent}
    → (id task_id : ℕ) (input : TaskInput) (base_commit : ℕ)
    → Keeps (IsConsistent (settled log)) (insert_run (new_run id task_id input base_commit))
new_run-IsConsistent id task_id input base_commit = insert_run-IsConsistent _ (refl, inl refl)

ensure_default_project-IsConsistent :
    {log : List TraceEvent}
    → (ids : NewIds) → Keeps (IsConsistent (settled log)) (ensure_default_project ids)
unfolding ensure_default_project default_project
ensure_default_project-IsConsistent ids = search (transitions, project_case)
  where
    project_case :
        {log : List TraceEvent}
        → (known : Option Project) → Keeps (IsConsistent (settled log)) (default_project ids known)
    project_case (some p) = Keeps-pure p
    project_case none =
        search (transitions, insert_workspace-IsConsistent, insert_project-IsConsistent)

admit_demo-IsConsistent :
    {log : List TraceEvent} → (now : ℕ) → Keeps (IsConsistent (settled log)) (admit_demo now)
unfolding admit_demo assert_demo_capacity
admit_demo-IsConsistent now = search transitions

first_command-IsConsistent :
    {log : List TraceEvent}
    → (fixtures : List Fixture) (fixture : Fixture) (run : Run) (input : TaskInput)
      (base_commit now : ℕ)
    → Keeps (IsConsistent (settled log)) (first_command fixtures fixture run input base_commit now)
unfolding first_command build_run_command get_fixture
first_command-IsConsistent fixtures fixture run input base_commit now = search transitions depth 8

create_tx-IsConsistent :
    {log : List TraceEvent}
    → (demo : Bool) (fixtures : List Fixture) (fixture : Fixture) (input : TaskInput)
      (base_commit : ℕ) (ids : NewIds) (now : ℕ)
    → Keeps (IsConsistent (settled log)) (create_tx demo fixtures fixture input base_commit ids now)
unfolding create_tx
create_tx-IsConsistent demo fixtures fixture input base_commit ids now =
    search
      (
        transitions, admit_demo-IsConsistent, ensure_default_project-IsConsistent,
        insert_task-IsConsistent, new_run-IsConsistent, first_command-IsConsistent,
      )
      depth 12

pub create_task-IsConsistent :
    {log : List TraceEvent}
    → (demo : Bool) (resolve : String → ℕ → Option ℕ) (git_error : Error) (fixtures : List Fixture)
      (input : TaskInput) (ids : NewIds) (now : ℕ)
    → Keeps (IsConsistent (settled log)) (create_task demo resolve git_error fixtures input ids now)
unfolding create_task get_fixture assert_demo_input
create_task-IsConsistent demo resolve git_error fixtures input ids now =
    search (transitions, create_tx-IsConsistent) depth 9
