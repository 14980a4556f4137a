-- ===== src/Run/Admission.antt =====
-- What `createTask` promises in a public demonstration.
use Prim.Native.String.{String}
use text.Mathlib.Text.{◌==◌ as text_eq}
use agent_reliability_platfo.Base.{
  ℕ, ◌<◌, ◌≡◌, true, false, ◌||◌, Option, some, List, arith, Option-cases, inl, inr,
}
use agent_reliability_platfo.Store.Rows.{Db}
use agent_reliability_platfo.Store.Tx.{Error, ok, pure, ◌>>=◌, ◌>>◌, gets, raise_if, when, or_raise}
use agent_reliability_platfo.Store.Table.{find}
use agent_reliability_platfo.Store.Queries.{run_key}
use agent_reliability_platfo.Run.Budgeted.{budget_of, IsLimited, create_tx-IsLimited, committed_of}
use agent_reliability_platfo.Run.Commands.{Fixture, lookup_fixture, get_fixture}
use agent_reliability_platfo.Run.Demo.{assert_demo_input, assert_demo_capacity, is_above, is_self}
use agent_reliability_platfo.Run.Creation.{
  TaskInput, NewIds, active_runs, tasks_today, admit_demo, create_tx, create_task, demo_input,
  resolved,
}

create_tx-admitted :
    (fixtures : List Fixture) (fixture : Fixture) (input : TaskInput) (base_commit : ℕ)
    (ids : NewIds) (now : ℕ) (db db' : Db) (made : ℕ × ℕ)
    → create_tx true fixtures fixture input base_commit ids now db ≡ ok made db'
    → (active_runs db ≡ 0) × (tasks_today now db < 100)
unfolding create_tx admit_demo assert_demo_capacity gets raise_if when ◌>>=◌ ◌>>◌
create_tx-admitted fixtures fixture input base_commit ids now db db' made done = ground arith

create_tx-demo :
    (fixtures : List Fixture) (fixture : Fixture) (input : TaskInput) (base_commit : ℕ)
    (ids : NewIds) (now : ℕ) (db db' : Db) (made : ℕ × ℕ)
    → create_tx true fixtures fixture (demo_input input) base_commit ids now db ≡ ok made db'
    → (active_runs db ≡ 0) × (tasks_today now db < 100) × IsLimited ids.run db'
create_tx-demo fixtures fixture input base_commit ids now db db' made done =
    let admitted =
      create_tx-admitted fixtures fixture (demo_input input) base_commit ids now db db' made done in
    (
      admitted.0,
      admitted.1,
      committed_of (create_tx true fixtures fixture (demo_input input) base_commit ids now) db db'
          made (create_tx-IsLimited fixtures fixture input base_commit ids now) done,
    )

-- A task that a public demonstration creates: no run was under way, fewer than 100 tasks had been created
-- since midnight, the fixture is one of the two that are shown, the agent is the platform's own, nothing
-- above the budget of a demonstration was asked for, and whatever was asked for, the new run is in the
-- database with a budget of 10,000 tokens, 180 seconds and 10 turns.
pub create_task-demo :
    (resolve : String → ℕ → Option ℕ) (git_error : Error) (fixtures : List Fixture)
    (input : TaskInput) (ids : NewIds) (now : ℕ) (db db' : Db) (made : ℕ × ℕ)
    → create_task true resolve git_error fixtures input ids now db ≡ ok made db'
    → (active_runs db ≡ 0)
      × (tasks_today now db < 100)
      × (text_eq input.fixture_id "py-logic-001" || text_eq input.fixture_id "ts-logic-001" ≡ true)
      × (is_self input.agent_kind ≡ true)
      × (is_above input.budget_tokens 10_000
            || is_above input.budget_seconds 180
            || is_above input.budget_turns 10
          ≡ false)
      × (budget_of (find run_key ids.run db'.runs) ≡ some (10_000, 180, 10))
unfolding create_task assert_demo_input get_fixture or_raise raise_if when pure ◌>>=◌ ◌>>◌
create_task-demo resolve git_error fixtures input ids now db db' made done =
    elim (Option-cases (lookup_fixture input.fixture_id fixtures)) [
      | inl missing ↦ ground arith
      | inr (f, found) ↦ elim (Option-cases (resolved resolve f)) [
        | inl unknown ↦ ground arith
        | inr (base, known) ↦
            ground (arith, create_tx-demo fixtures f input base ids now db db' made)
      ]
    ]
