-- ===== src/Run/Commands.antt =====
-- The commands to the workers: `buildRunCommand` of run-lifecycle.service.ts, `commandFromSnapshot`
-- of modules/task/task-snapshot.service.ts, and the fixtures of modules/fixture/fixture-registry.ts.
use Prim.Native.String.{String}
use text.Mathlib.Text.{◌==◌ as text_eq}
use agent_reliability_platfo.Base.{
  ℕ, ◌-◌, Bool, true, false, ◌||◌, Option, none, some, List, [], ◌∷◌, if◌then◌else◌, is_some,
}
use agent_reliability_platfo.Shared.Enums.{AgentKind, RunCommandType, start_run, resume_run}
use agent_reliability_platfo.Shared.TaskSnapshot.{TaskSnapshot}
use agent_reliability_platfo.Shared.RunCommand.{TaskSpec, Budget, RunCommand, run_command_id}
use agent_reliability_platfo.Store.Tx.{Tx, or_raise, not_found, pure, ◌>>=◌}

-- `FixtureDefinition`, with the fields that a command takes. The registry is the list of those that
-- were read from the fixture repository.
pub record Fixture : Type 0 where
  pub id : String
  pub title : String
  pub repo_path : String
  pub base_commit : ℕ
  pub task_spec : TaskSpec

unfoldable pub lookup_fixture : String → List Fixture → Option Fixture
lookup_fixture id [] = none
lookup_fixture id (f ∷ fs) = if text_eq f.id id then some f else lookup_fixture id fs

unfoldable pub get_fixture : List Fixture → String → Tx Fixture
get_fixture fixtures id = or_raise (lookup_fixture id fixtures) (not_found "unknown fixture")

pub record CommandParams : Type 0 where
  pub kind : RunCommandType
  pub run_id : ℕ
  pub attempt_no : ℕ
  pub agent_kind : AgentKind
  pub fixture_id : String
  pub checkpoint_id : Option ℕ
  pub budget : Budget

unfoldable pub build_run_command : List Fixture → CommandParams → Tx RunCommand
build_run_command fixtures params = do
  fixture ← get_fixture fixtures params.fixture_id
  pure (record {
    snapshot = none;
    command_id = run_command_id params.run_id params.kind params.attempt_no;
    kind = params.kind;
    run_id = params.run_id;
    attempt_no = params.attempt_no;
    agent_kind = params.agent_kind;
    repo = record { path = fixture.repo_path; base_commit = fixture.base_commit };
    task_spec = fixture.task_spec;
    budget = params.budget;
    checkpoint_id = params.checkpoint_id;
  })

abbrev contains : String → List String → Bool
contains s [] = false
contains s (t ∷ ts) = text_eq t s || contains s ts

-- `[...new Set(xs)]`: the first of each text stays; `seen` holds those met before.
unfoldable pub unique : List String → List String → List String
unique seen [] = []
unique seen (x ∷ xs) = elim (contains x seen) [
  | true ↦ unique seen xs
  | false ↦ x ∷ unique (x ∷ seen) xs
]

-- `Math.max(0, budget - used)` is the subtraction of ℕ. The stored snapshot and the command pass
-- their schemas again here, which return them as they are.
unfoldable pub command_from_snapshot : TaskSnapshot → String → ℕ → ℕ → ℕ → ℕ → Option ℕ → RunCommand
unfolding run_command_id
command_from_snapshot snapshot repo_path run_id attempt_no used_tokens used_seconds checkpoint_id =
    let kind : RunCommandType = if is_some checkpoint_id then resume_run else start_run in
    record {
      snapshot = some snapshot;
      command_id = run_command_id run_id kind attempt_no;
      kind = kind;
      run_id = run_id;
      attempt_no = attempt_no;
      agent_kind = snapshot.agent_kind;
      repo = record { path = repo_path; base_commit = snapshot.execution_sha };
      task_spec = record {
        fixture_id = none;
        description = snapshot.description;
        workdir = snapshot.config.workdir;
        allowed_paths = snapshot.config.allowed_paths;
        static_check = snapshot.config.static_check;
        fail_to_pass = unique [] (snapshot.baseline.command ∷ snapshot.config.fail_to_pass);
        pass_to_pass = snapshot.config.pass_to_pass;
        acceptance_criteria = snapshot.config.acceptance_criteria;
        test_patch = none;
      };
      budget = record {
        tokens = snapshot.budget.tokens;
        seconds = snapshot.budget.seconds;
        turns = snapshot.budget.turns;
        remaining_tokens = snapshot.budget.tokens - used_tokens;
        remaining_seconds = snapshot.budget.seconds - used_seconds;
      };
      checkpoint_id = checkpoint_id;
    }
