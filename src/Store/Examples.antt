-- ===== src/Store/Examples.antt =====
-- A database without rows, for examples.
use agent_reliability_platfo.Base.{[]}
use agent_reliability_platfo.Store.Rows.{Db}

abbrev pub empty : Db
empty = record {
  workspaces = [];
  drafts = [];
  projects = [];
  tasks = [];
  runs = [];
  attempts = [];
  events = [];
  checkpoints = [];
  artifacts = [];
  verifications = [];
  decisions = [];
  approvals = [];
  outbox = [];
  budget_calls = [];
  environments = [];
  deliveries = [];
}
