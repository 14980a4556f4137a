-- ===== src/Run/Consistent/Recovery.antt =====
-- The invariant under `applyPolicy` of run-lifecycle.service.ts.
use Prim.Native.String.{String}
use agent_reliability_platfo.Base.{ℕ, Bool, Option, none, some, List}
use agent_reliability_platfo.Shared.Enums.{
  FailureCode, PolicyAction, resume, restart_attempt, abort, escalate_human,
}
use agent_reliability_platfo.Shared.TaskSnapshot.{TaskSnapshot}
use agent_reliability_platfo.Policy.{PolicyDecisionResult}
use agent_reliability_platfo.Store.Rows.{TraceEvent, Project, Task, Run}
use agent_reliability_platfo.Store.Keeps.{Keeps}
use agent_reliability_platfo.Run.Commands.{Fixture, get_fixture, build_run_command}
use agent_reliability_platfo.Run.Retry.{
  command_for, need_attention, next_command, resume_point, redispatch, retry_run, run_out,
}
use agent_reliability_platfo.Run.Recovery.{
  write_clock, stop_clock, abort_run, escalate, follow, act, stop_exhausted, decide_and_act,
  apply_policy,
}
use agent_reliability_platfo.Run.Consistent.Defs.{settled, IsConsistent}
use agent_reliability_platfo.Run.Consistent.Attempts.{transitions}

need_attention-IsConsistent :
    {log : List TraceEvent}
    → (task_id : ℕ) (reason : String)
    → Keeps (IsConsistent (settled log)) (need_attention task_id reason)
unfolding need_attention
need_attention-IsConsistent task_id reason = search transitions

write_clock-IsConsistent :
    {log : List TraceEvent}
    → (run : Run) (now : ℕ) → Keeps (IsConsistent (settled log)) (write_clock run now)
unfolding write_clock
write_clock-IsConsistent run now = search transitions

stop_clock-IsConsistent :
    {log : List TraceEvent}
    → (task : Task) (run : Run) (now : ℕ)
    → Keeps (IsConsistent (settled log)) (stop_clock task run now)
unfolding stop_clock
stop_clock-IsConsistent task run now = search (transitions, write_clock-IsConsistent)

resume_point-IsConsistent :
    {log : List TraceEvent}
    → (run_id : ℕ) (action : PolicyAction)
    → Keeps (IsConsistent (settled log)) (resume_point run_id action)
unfolding resume_point
resume_point-IsConsistent run_id action = search transitions

command_for-IsConsistent :
    {log : List TraceEvent}
    → (fixtures : List Fixture) (project : Project) (snapshot : Option TaskSnapshot) (task : Task)
      (run : Run) (n : ℕ) (action : PolicyAction) (point : Option ℕ)
    → Keeps
        (IsConsistent (settled log))
        (command_for fixtures project snapshot task run n action point)
unfolding command_for build_run_command get_fixture
command_for-IsConsistent fixtures project none task run n action point = search transitions
command_for-IsConsistent fixtures project (some s) task run n action point = search transitions

next_command-IsConsistent :
    {log : List TraceEvent}
    → (fixtures : List Fixture) (project : Project) (task : Task) (run : Run) (n : ℕ)
      (action : PolicyAction) (point : Option ℕ)
    → Keeps (IsConsistent (settled log)) (next_command fixtures project task run n action point)
unfolding next_command
next_command-IsConsistent fixtures project task run n action point =
    command_for-IsConsistent fixtures project task.snapshot task run n action point

redispatch-IsConsistent :
    {log : List TraceEvent}
    → (fixtures : List Fixture) (project : Project) (task : Task) (run : Run) (attempt_id n : ℕ)
      (decision : PolicyDecisionResult) (now : ℕ)
    → Keeps
        (IsConsistent (settled log))
        (redispatch fixtures project task run attempt_id n decision now)
unfolding redispatch
redispatch-IsConsistent fixtures project task run attempt_id n decision now =
    search (transitions, resume_point-IsConsistent, next_command-IsConsistent) depth 10

run_out-IsConsistent :
    {log : List TraceEvent} → (run : Run) → Keeps (IsConsistent (settled log)) (run_out run)
unfolding run_out
run_out-IsConsistent run = search (transitions, need_attention-IsConsistent)

retry_run-IsConsistent :
    {log : List TraceEvent}
    → (fixtures : List Fixture) (project : Project) (task : Task) (run : Run) (attempt_id n : ℕ)
      (decision : PolicyDecisionResult) (now : ℕ)
    → Keeps
        (IsConsistent (settled log))
        (retry_run fixtures project task run attempt_id n decision now)
unfolding retry_run
retry_run-IsConsistent fixtures project task run attempt_id n decision now =
    search (transitions, run_out-IsConsistent, redispatch-IsConsistent)

abort_run-IsConsistent :
    {log : List TraceEvent}
    → (task : Task) (run : Run) (now : ℕ)
    → Keeps (IsConsistent (settled log)) (abort_run task run now)
unfolding abort_run
abort_run-IsConsistent task run now = search transitions

escalate-IsConsistent :
    {log : List TraceEvent}
    → (run : Run) (code : FailureCode) → Keeps (IsConsistent (settled log)) (escalate run code)
unfolding escalate
escalate-IsConsistent run code = search (transitions, need_attention-IsConsistent)

follow-IsConsistent :
    {log : List TraceEvent}
    → (action : PolicyAction) (fixtures : List Fixture) (project : Project) (task : Task)
      (run : Run) (attempt_id n : ℕ) (code : FailureCode) (decision : PolicyDecisionResult)
      (now : ℕ)
    → Keeps
        (IsConsistent (settled log))
        (follow action fixtures project task run attempt_id n code decision now)
unfolding follow
follow-IsConsistent resume fixtures project task run attempt_id n code decision now =
    retry_run-IsConsistent fixtures project task run attempt_id n decision now
follow-IsConsistent restart_attempt fixtures project task run attempt_id n code decision now =
    retry_run-IsConsistent fixtures project task run attempt_id n decision now
follow-IsConsistent abort fixtures project task run attempt_id n code decision now =
    abort_run-IsConsistent task run now
follow-IsConsistent escalate_human fixtures project task run attempt_id n code decision now =
    escalate-IsConsistent run code

act-IsConsistent :
    {log : List TraceEvent}
    → (fixtures : List Fixture) (project : Project) (task : Task) (run : Run) (attempt_id n : ℕ)
      (code : FailureCode) (decision : PolicyDecisionResult) (now : ℕ)
    → Keeps
        (IsConsistent (settled log))
        (act fixtures project task run attempt_id n code decision now)
unfolding act
act-IsConsistent fixtures project task run attempt_id n code decision now =
    follow-IsConsistent decision.action fixtures project task run attempt_id n code decision now

stop_exhausted-IsConsistent :
    {log : List TraceEvent}
    → (run : Run) (unresolved : Bool) (elapsed : ℕ)
    → Keeps (IsConsistent (settled log)) (stop_exhausted run unresolved elapsed)
unfolding stop_exhausted
stop_exhausted-IsConsistent run unresolved elapsed =
    search (transitions, need_attention-IsConsistent)

decide_and_act-IsConsistent :
    {log : List TraceEvent}
    → (fixtures : List Fixture) (project : Project) (task : Task) (run : Run) (attempt_id n : ℕ)
      (code : FailureCode) (now : ℕ)
    → Keeps
        (IsConsistent (settled log))
        (decide_and_act fixtures project task run attempt_id n code now)
unfolding decide_and_act
decide_and_act-IsConsistent fixtures project task run attempt_id n code now =
    search (transitions, act-IsConsistent)

pub apply_policy-IsConsistent :
    {log : List TraceEvent}
    → (fixtures : List Fixture) (run_id attempt_id n : ℕ) (code : FailureCode) (now : ℕ)
    → Keeps (IsConsistent (settled log)) (apply_policy fixtures run_id attempt_id n code now)
unfolding apply_policy
apply_policy-IsConsistent fixtures run_id attempt_id n code now =
    search
      (
        transitions, stop_clock-IsConsistent, stop_exhausted-IsConsistent,
        decide_and_act-IsConsistent,
      )
      depth 9
