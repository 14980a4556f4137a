-- ===== src/Shared/TaskSnapshot.antt =====
-- packages/shared/src/task-snapshot.ts: a task snapshot, as the values that its schema returns.
-- Identifiers and commit hashes are only compared here, so they are numbers.
use Prim.Native.String.{String}
use agent_reliability_platfo.Base.{ℕ, Option, List}
use agent_reliability_platfo.Shared.Enums.{AgentKind}

pub data DeliveryKind : Type 0 where
  patch pull_request : DeliveryKind

pub data Preparation : Type 0 where
  image requirements : Preparation

-- `RepositoryConfigSchema`; its `runtime` has one value, `python-pytest`.
pub record RepositoryConfig : Type 0 where
  pub default_delivery : Option DeliveryKind
  pub preparation : Preparation
  pub image : String
  pub dependency_files : List String
  pub workdir : String
  pub allowed_paths : List String
  pub protected_paths : List String
  pub static_check : List String
  pub fail_to_pass : List String
  pub pass_to_pass : List String
  pub acceptance_criteria : List String

pub record Baseline : Type 0 where
  pub command : String
  pub expected : List String

pub record SnapshotBudget : Type 0 where
  pub tokens : ℕ
  pub seconds : ℕ
  pub turns : ℕ
  pub max_attempts : ℕ

pub record Delivery : Type 0 where
  pub kind : DeliveryKind
  pub target_branch : String
  pub expected_target_sha : ℕ

pub record Source : Type 0 where
  pub pr_url : String
  pub head_sha : ℕ
  pub base_sha : ℕ
  pub ci_sha : Option String
  pub evidence : String

-- `TaskSnapshotSchema`; `schemaVersion` and `mode` are literals.
pub record TaskSnapshot : Type 0 where
  pub repository_id : ℕ
  pub parent_task_id : Option ℕ
  pub config_version : ℕ
  pub execution_sha : ℕ
  pub agent_kind : AgentKind
  pub title : String
  pub description : String
  pub config : RepositoryConfig
  pub baseline : Baseline
  pub budget : SnapshotBudget
  pub delivery : Delivery
  pub source : Option Source
