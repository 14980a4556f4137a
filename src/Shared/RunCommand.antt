-- ===== src/Shared/RunCommand.antt =====
-- packages/shared/src/run-command.ts: the commands that the control plane sends to the workers.
use Prim.Native.String.{String}
use agent_reliability_platfo.Base.{ℕ, Option, List}
use agent_reliability_platfo.Shared.Enums.{AgentKind, RunCommandType}
use agent_reliability_platfo.Shared.TaskSnapshot.{TaskSnapshot}

pub record TaskSpec : Type 0 where
  pub fixture_id : Option String
  pub description : String
  pub workdir : String
  pub allowed_paths : List String
  pub static_check : List String
  pub fail_to_pass : List String
  pub pass_to_pass : List String
  pub acceptance_criteria : List String
  pub test_patch : Option String

pub record Budget : Type 0 where
  pub tokens : ℕ
  pub seconds : ℕ
  pub turns : ℕ
  pub remaining_tokens : ℕ
  pub remaining_seconds : ℕ

pub record Repo : Type 0 where
  pub path : String
  pub base_commit : ℕ

-- `cmd:${runId}:${type}:${attemptNo}`, as the values that the template is filled with.
pub record CommandId : Type 0 where
  pub run : ℕ
  pub kind : RunCommandType
  pub attempt : ℕ

unfoldable pub run_command_id : ℕ → RunCommandType → ℕ → CommandId
run_command_id run_id kind attempt_no = record { run = run_id; kind = kind; attempt = attempt_no }

pub record RunCommand : Type 0 where
  pub snapshot : Option TaskSnapshot
  pub command_id : CommandId
  pub kind : RunCommandType
  pub run_id : ℕ
  pub attempt_no : ℕ
  pub agent_kind : AgentKind
  pub repo : Repo
  pub task_spec : TaskSpec
  pub budget : Budget
  pub checkpoint_id : Option ℕ
