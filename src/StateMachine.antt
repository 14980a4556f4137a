-- ===== src/StateMachine.antt =====
-- apps/control-plane/src/state-machine/state-machine.ts: the transition tables of tasks, runs and
-- attempts, and the tests on them.
pub mod Graph
mod Tests
use agent_reliability_platfo.Base.{Bool, ◌==◌, List, [], ◌∷◌, length, if◌then◌else◌}
use agent_reliability_platfo.Shared.Enums.{TaskStatus, RunStatus, AttemptStatus, includes, Enum}

pub data Entity : Type 0 where
  task run attempt : Entity

-- `InvalidTransitionError`, or the status that was asked for.
pub data Asserted (S : Type 0) : Type 0 where
  invalid_transition : Entity → S → S → Asserted S
  allowed : S → Asserted S

unfoldable pub task_transitions : TaskStatus → List TaskStatus
task_transitions TaskStatus.created = TaskStatus.queued ∷ TaskStatus.cancelled ∷ []
task_transitions TaskStatus.queued = TaskStatus.running ∷ TaskStatus.cancelled ∷ []
task_transitions TaskStatus.running =
    TaskStatus.awaiting_approval ∷ TaskStatus.needs_attention ∷ TaskStatus.failed
    ∷ TaskStatus.cancelled ∷ []
task_transitions TaskStatus.needs_attention = TaskStatus.queued ∷ TaskStatus.cancelled ∷ []
task_transitions TaskStatus.awaiting_approval =
    TaskStatus.approved ∷ TaskStatus.rejected ∷ TaskStatus.cancelled ∷ []
task_transitions TaskStatus.approved =
    TaskStatus.pr_created ∷ TaskStatus.pr_failed ∷ TaskStatus.cancelled ∷ []
task_transitions TaskStatus.pr_failed = TaskStatus.approved ∷ TaskStatus.cancelled ∷ []
task_transitions TaskStatus.pr_created = TaskStatus.resolved ∷ []
task_transitions TaskStatus.resolved = []
task_transitions TaskStatus.rejected = []
task_transitions TaskStatus.failed = []
task_transitions TaskStatus.cancelled = []

unfoldable pub run_transitions : RunStatus → List RunStatus
run_transitions RunStatus.pending = RunStatus.dispatched ∷ RunStatus.cancelled ∷ []
run_transitions RunStatus.dispatched =
    RunStatus.running ∷ RunStatus.interrupted ∷ RunStatus.cancelled ∷ []
run_transitions RunStatus.running =
    RunStatus.verifying ∷ RunStatus.interrupted ∷ RunStatus.cancelled ∷ []
run_transitions RunStatus.verifying =
    RunStatus.succeeded ∷ RunStatus.running ∷ RunStatus.interrupted ∷ RunStatus.cancelled ∷ []
run_transitions RunStatus.interrupted =
    RunStatus.recovering ∷ RunStatus.failed ∷ RunStatus.cancelled ∷ []
run_transitions RunStatus.recovering =
    RunStatus.dispatched ∷ RunStatus.failed ∷ RunStatus.cancelled ∷ []
run_transitions RunStatus.succeeded = []
run_transitions RunStatus.failed = []
run_transitions RunStatus.cancelled = []

unfoldable pub attempt_transitions : AttemptStatus → List AttemptStatus
attempt_transitions AttemptStatus.claimed =
    AttemptStatus.running ∷ AttemptStatus.failed ∷ AttemptStatus.lease_expired ∷ []
attempt_transitions AttemptStatus.running =
    AttemptStatus.succeeded ∷ AttemptStatus.failed ∷ AttemptStatus.crashed ∷ AttemptStatus.timed_out
    ∷ AttemptStatus.lease_expired ∷ []
attempt_transitions AttemptStatus.succeeded = []
attempt_transitions AttemptStatus.failed = []
attempt_transitions AttemptStatus.crashed = []
attempt_transitions AttemptStatus.timed_out = []
attempt_transitions AttemptStatus.lease_expired = []

module _ {S : Type 0} ⦃e : Enum S⦄ (table : S → List S) where
  unfoldable pub can_transition : S → S → Bool
  can_transition from to = includes (table from) to

  unfoldable pub is_terminal : S → Bool
  is_terminal status = length (table status) == 0

  unfoldable pub assert_transition : Entity → S → S → Asserted S
  assert_transition entity from to =
      if includes (table from) to then allowed to else invalid_transition entity from to
