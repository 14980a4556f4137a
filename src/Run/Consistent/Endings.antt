-- ===== src/Run/Consistent/Endings.antt =====
-- The invariant under the ends of attempts and checkpoints of run-lifecycle.service.ts.
use Prim.Native.String.{String}
use agent_reliability_platfo.Base.{ℕ, Bool, Option, none, some, List}
use agent_reliability_platfo.Shared.Enums.{FailureCode, ArtifactKind}
use agent_reliability_platfo.Store.Rows.{TraceEvent, Run, Attempt, CheckpointInput, Db}
use agent_reliability_platfo.Store.Table.{find}
use agent_reliability_platfo.Store.Queries.{attempt_key}
use agent_reliability_platfo.Store.Keeps.{Keeps}
use agent_reliability_platfo.Run.Commands.{Fixture}
use agent_reliability_platfo.Run.Complete.{
  Report, Outcome, succeeded, failed, store_artifact, charge_clock, charge_report, persist_extras,
  succeed_tx, fail_tx, interrupt, end_tx, complete_attempt,
}
use agent_reliability_platfo.Run.Checkpoints.{save_checkpoint}
use agent_reliability_platfo.Run.Expiry.{expire, expire_tx, expire_read, handle_lease_expired}
use agent_reliability_platfo.Run.Consistent.Defs.{Ghost, settled, IsConsistent}
use agent_reliability_platfo.Run.Consistent.Recovery.{apply_policy-IsConsistent}
use agent_reliability_platfo.Run.Consistent.Attempts.{transitions}

pub store_artifact-IsConsistent :
    {g : Ghost}
    → (run_id attempt_id : ℕ) (kind : ArtifactKind) (name : String) (content : Option String)
    → Keeps (IsConsistent g) (store_artifact run_id attempt_id kind name content)
unfolding store_artifact
store_artifact-IsConsistent run_id attempt_id kind name none = search transitions
store_artifact-IsConsistent run_id attempt_id kind name (some c) = search transitions

charge_clock-IsConsistent :
    {log : List TraceEvent}
    → (seen : Run) (now : ℕ) → Keeps (IsConsistent (settled log)) (charge_clock seen now)
unfolding charge_clock
charge_clock-IsConsistent seen now = search transitions

charge_report-IsConsistent :
    {log : List TraceEvent}
    → (snapshot : Bool) (seen : Run) (report : Report)
    → Keeps (IsConsistent (settled log)) (charge_report snapshot seen report)
unfolding charge_report
charge_report-IsConsistent snapshot seen report = search transitions

persist_extras-IsConsistent :
    {log : List TraceEvent}
    → (snapshot : Bool) (seen : Run) (attempt_id : ℕ) (report : Report) (now : ℕ)
    → Keeps (IsConsistent (settled log)) (persist_extras snapshot seen attempt_id report now)
unfolding persist_extras
persist_extras-IsConsistent snapshot seen attempt_id report now =
    search
      (
        transitions, charge_clock-IsConsistent, charge_report-IsConsistent,
        store_artifact-IsConsistent,
      )
      depth 9

interrupt-IsConsistent :
    {log : List TraceEvent}
    → (seen : Run) (now : ℕ) → Keeps (IsConsistent (settled log)) (interrupt seen now)
unfolding interrupt
interrupt-IsConsistent seen now = search transitions

succeed_tx-IsConsistent :
    {log : List TraceEvent}
    → (sha256 : String → ℕ) (attempt : Attempt) (seen : Run) (snapshot : Bool) (report : Report)
      (approval_id now : ℕ)
    → Keeps
        (IsConsistent (settled log))
        (succeed_tx sha256 attempt seen snapshot report approval_id now)
unfolding succeed_tx
succeed_tx-IsConsistent sha256 attempt seen snapshot report approval_id now =
    search (transitions, persist_extras-IsConsistent) depth 16

fail_tx-IsConsistent :
    {log : List TraceEvent}
    → (fixtures : List Fixture) (attempt : Attempt) (seen : Run) (snapshot : Bool)
      (code : FailureCode) (report : Report) (now : ℕ)
    → Keeps (IsConsistent (settled log)) (fail_tx fixtures attempt seen snapshot code report now)
unfolding fail_tx
fail_tx-IsConsistent fixtures attempt seen snapshot code report now =
    search
      (transitions, persist_extras-IsConsistent, interrupt-IsConsistent, apply_policy-IsConsistent)
      depth 12

end_tx-IsConsistent :
    {log : List TraceEvent}
    → (fixtures : List Fixture) (sha256 : String → ℕ) (attempt : Attempt) (seen : Run)
      (snapshot : Bool) (outcome : Outcome) (report : Report) (approval_id now : ℕ)
    → Keeps
        (IsConsistent (settled log))
        (end_tx fixtures sha256 attempt seen snapshot outcome report approval_id now)
unfolding end_tx
end_tx-IsConsistent fixtures sha256 attempt seen snapshot succeeded report approval_id now =
    succeed_tx-IsConsistent sha256 attempt seen snapshot report approval_id now
end_tx-IsConsistent fixtures sha256 attempt seen snapshot (failed code) report approval_id now =
    fail_tx-IsConsistent fixtures attempt seen snapshot code report now

pub complete_attempt-IsConsistent :
    {log : List TraceEvent}
    → (seen : Db) (fixtures : List Fixture) (sha256 : String → ℕ) (attempt_id : ℕ)
      (outcome : Outcome) (report : Report) (approval_id now : ℕ)
    → Keeps
        (IsConsistent (settled log))
        (complete_attempt seen fixtures sha256 attempt_id outcome report approval_id now)
unfolding complete_attempt
complete_attempt-IsConsistent seen fixtures sha256 attempt_id outcome report approval_id now =
    search (transitions, end_tx-IsConsistent) depth 9

pub save_checkpoint-IsConsistent :
    {log : List TraceEvent}
    → (run_id : ℕ) (input : CheckpointInput) (id now : ℕ)
    → Keeps (IsConsistent (settled log)) (save_checkpoint run_id input id now)
unfolding save_checkpoint
save_checkpoint-IsConsistent run_id input id now = search transitions depth 10

expire-IsConsistent :
    {log : List TraceEvent}
    → (fixtures : List Fixture) (attempt : Attempt) (seen : Run) (now : ℕ)
    → Keeps (IsConsistent (settled log)) (expire fixtures attempt seen now)
unfolding expire
expire-IsConsistent fixtures attempt seen now =
    search (transitions, interrupt-IsConsistent, apply_policy-IsConsistent)

expire_tx-IsConsistent :
    {log : List TraceEvent}
    → (fixtures : List Fixture) (attempt : Attempt) (seen : Run) (now : ℕ)
    → Keeps (IsConsistent (settled log)) (expire_tx fixtures attempt seen now)
unfolding expire_tx
expire_tx-IsConsistent fixtures attempt seen now = search (transitions, expire-IsConsistent)

expire_read-IsConsistent :
    {log : List TraceEvent}
    → (seen : Db) (fixtures : List Fixture) (attempt : Option Attempt) (now : ℕ)
    → Keeps (IsConsistent (settled log)) (expire_read seen fixtures attempt now)
unfolding expire_read
expire_read-IsConsistent seen fixtures none now = search transitions
expire_read-IsConsistent seen fixtures (some attempt) now =
    search (transitions, expire_tx-IsConsistent)

pub handle_lease_expired-IsConsistent :
    {log : List TraceEvent}
    → (seen : Db) (fixtures : List Fixture) (attempt_id now : ℕ)
    → Keeps (IsConsistent (settled log)) (handle_lease_expired seen fixtures attempt_id now)
unfolding handle_lease_expired
handle_lease_expired-IsConsistent seen fixtures attempt_id now =
    expire_read-IsConsistent seen fixtures (find attempt_key attempt_id seen.attempts) now
