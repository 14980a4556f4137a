-- ===== src/Run/Consistent/Control.antt =====
-- The invariant under pause, cancel and resume of run-control.service.ts: each writes the status first, and
-- the event of the change last.
use Prim.Native.String.{String}
use agent_reliability_platfo.Base.{
  List, ℕ, ◌≡◌, refl, true, false, not, Option, none, some, [], ◌∷◌, arith, Bool-cases, inl, inr,
  ◌+◌, ==_refl, if◌then◌else◌,
}
use agent_reliability_platfo.Shared.Enums.{
  RunStatus, TaskStatus, AttemptStatus, ArtifactKind, includes, ◌===◌, run_status_enum,
}
use agent_reliability_platfo.Shared.TaskSnapshot.{TaskSnapshot}
use agent_reliability_platfo.StateMachine.{run_transitions, can_transition}
use agent_reliability_platfo.Store.Rows.{
  TraceEvent, OutboxMessage, Attempt, Task, Run, Phase, run_moved, Db,
}
use agent_reliability_platfo.Store.Tx.{pure, ◌>>◌}
use agent_reliability_platfo.Store.Keeps.{
  Keeps, Keeps-alter, Keeps-pure, Keeps-bind, Keeps-gets, Keeps-raise_if, Keeps-or_raise, Leads,
  Leads-then, Leads-bind, Leads-guard, Keeps-Leads, Leads-Keeps,
}
use agent_reliability_platfo.Store.Queries.{
  find_attempt, update_run, update_attempt, update_task, insert_message,
}
use agent_reliability_platfo.Run.Checkpoints.{is_executing}
use agent_reliability_platfo.Run.Worker.{control_event}
use agent_reliability_platfo.Run.Control.{
  pause, pause_run, cancel_attempts, cancel_run, cancel, resume_snapshot, resume,
}
use agent_reliability_platfo.Run.Lease.{Leads-leased}
use agent_reliability_platfo.Run.Consistent.Defs.{Ghost, settled, IsConsistent, is_lawful}
use agent_reliability_platfo.Run.Consistent.Moves.{
  Knows, update_status, update_known, control_move, Leads-run, Leads-known,
}
use agent_reliability_platfo.Run.Clock.{elapsed_seconds}
use agent_reliability_platfo.Run.Complete.{truthy, store_artifact}
use agent_reliability_platfo.Run.Consistent.Writes.{
  find_attempt-Keeps, find_task-Keeps, find_project-Keeps, modify_where-IsConsistent,
}
use agent_reliability_platfo.Run.Consistent.Attempts.{transitions}
use agent_reliability_platfo.Run.Consistent.Endings.{store_artifact-IsConsistent}

pause_lawful :
    (from : RunStatus)
    → is_executing from ≡ true
    → is_lawful (run_moved from RunStatus.interrupted) ≡ true
unfolding can_transition run_transitions
pause_lawful from executing = ground arith

pause_writes :
    {log : List TraceEvent}
    → (held : Attempt × Run) (attempt_id : ℕ) (reason : String) (patch : Option String) (now : ℕ)
    → is_executing held.1.status ≡ true
    → Leads (Knows log held.0.run_id held.1) (IsConsistent (settled log)) (do
      update_run held.0.run_id (λ r. record r {
        status = RunStatus.interrupted;
        phase = Phase.needs_attention;
        used_seconds = r.used_seconds + elapsed_seconds held.1.active_started_at now;
        active_started_at = none;
      })
      update_attempt attempt_id
          (λ a. record a { status = AttemptStatus.failed; ended_at = some now })
      update_task held.1.task_id
          (λ t. record t { status = TaskStatus.needs_attention; attention_reason = some reason })
      store_artifact held.0.run_id attempt_id ArtifactKind.patch "candidate.patch" (truthy patch)
      control_event held.0.run_id (run_moved held.1.status RunStatus.interrupted) now)
pause_writes held attempt_id reason patch now executing =
    Leads-then _ _
      (update_status held.0.run_id held.1.status RunStatus.interrupted _ held.1
        (λ q. (refl, refl, refl, refl)) (==_refl _))
      (Leads-then _ _ (Leads-Keeps (search transitions)) (
        Leads-then _ _ (Leads-Keeps (search transitions)) (
          Leads-then _ _ (Leads-Keeps (search (transitions, store_artifact-IsConsistent))) (
            control_move held.0.run_id held.1.status RunStatus.interrupted now
              (pause_lawful held.1.status executing)))))

-- A pause moves an executing run to `INTERRUPTED`; the guard is that of `lease`.
pub pause-IsConsistent :
    {log : List TraceEvent}
    → (attempt_id : ℕ) (token : Option ℕ) (reason : String) (patch : Option String) (now : ℕ)
    → Keeps (IsConsistent (settled log)) (pause attempt_id token reason patch now)
unfolding pause
pause-IsConsistent attempt_id token reason patch now =
    Keeps-bind (find_attempt attempt_id) _ (find_attempt-Keeps attempt_id) λ owner. Keeps-Leads (
      Leads-leased attempt_id token false now _
        (λ held executing. pause_writes held attempt_id reason patch now executing))

cancel_attempts-IsConsistent :
    {g : Ghost} → (run_id now : ℕ) → Keeps (IsConsistent g) (cancel_attempts run_id now)
unfolding cancel_attempts
cancel_attempts-IsConsistent run_id now =
    Keeps-alter _ (λ db h. modify_where-IsConsistent _ _ db (λ a. (refl, refl)) h)

-- A run that has not ended may be cancelled.
cancel_lawful :
    (from : RunStatus)
    → includes (RunStatus.succeeded ∷ RunStatus.failed ∷ []) from ≡ false
    → (from === RunStatus.cancelled) ≡ false
    → is_lawful (run_moved from RunStatus.cancelled) ≡ true
unfolding can_transition run_transitions
cancel_lawful from open_run running_run = ground arith

cancel_run-IsConsistent :
    {log : List TraceEvent}
    → (run : Run) (run_id now : ℕ) → (run.status === RunStatus.cancelled) ≡ false
    → Leads (Knows log run_id run) (IsConsistent (settled log)) (cancel_run run now)
unfolding cancel_run
cancel_run-IsConsistent {log} run run_id now alive = Leads-guard _ _ _ λ open_run.
    Leads-then _ _
      (update_known run_id run.status RunStatus.cancelled _ run (λ q. (refl, refl, refl, refl))
        (==_refl _))
      (Leads-then _ _ (Leads-Keeps (search transitions)) (
        Leads-then _ _ (Leads-Keeps (cancel_attempts-IsConsistent run.id now)) (
          control_move run.id run.status RunStatus.cancelled now
            (cancel_lawful run.status open_run alive))))

pub cancel-IsConsistent :
    {log : List TraceEvent}
    → (run_id now : ℕ) → Keeps (IsConsistent (settled log)) (cancel run_id now)
unfolding cancel
cancel-IsConsistent {log} run_id now = Keeps-Leads (Leads-run run_id _ λ run. after run)
  where
    after :
        (run : Run)
        → Leads
            (Knows log run_id run)
            (IsConsistent (settled log))
            (if run.status === RunStatus.cancelled then pure tt else cancel_run run now)
    after run = elim (Bool-cases (run.status === RunStatus.cancelled)) [
      | inl done ↦ rw done (Leads-known run_id run (Keeps-pure tt))
      | inr alive ↦ rw alive (cancel_run-IsConsistent run run_id now alive)
    ]

pub pause_run-IsConsistent :
    {log : List TraceEvent}
    → (seen : Db) (run_id now : ℕ) → Keeps (IsConsistent (settled log)) (pause_run seen run_id now)
unfolding pause_run
pause_run-IsConsistent seen run_id now = search (transitions, pause-IsConsistent)

resume_lawful :
    (from : RunStatus)
    → not (from === RunStatus.interrupted) ≡ false
    → is_lawful (run_moved from RunStatus.dispatched) ≡ true
unfolding can_transition run_transitions
resume_lawful from held = ground arith

resume_writes :
    {log : List TraceEvent}
    → (run : Run) (run_id : ℕ) (message : OutboxMessage) (now : ℕ)
    → not (run.status === RunStatus.interrupted) ≡ false
    → Leads (Knows log run_id run) (IsConsistent (settled log)) (do
      update_run run.id (λ r. record r { status = RunStatus.dispatched; phase = Phase.queued })
      update_task run.task_id
          (λ t. record t { status = TaskStatus.queued; attention_reason = none })
      insert_message message
      control_event run.id (run_moved run.status RunStatus.dispatched) now)
resume_writes run run_id message now held =
    Leads-then _ _
      (update_known run_id run.status RunStatus.dispatched _ run (λ q. (refl, refl, refl, refl))
        (==_refl _))
      (Leads-then _ _ (Leads-Keeps (search transitions)) (
        Leads-then _ _ (Leads-Keeps (search transitions)) (
          control_move run.id run.status RunStatus.dispatched now (resume_lawful run.status held))))

resume_snapshot-IsConsistent :
    {log : List TraceEvent}
    → (run : Run) (run_id : ℕ) (task : Task) (snapshot : TaskSnapshot) (now : ℕ)
    → not (run.status === RunStatus.interrupted) ≡ false
    → Leads
        (Knows log run_id run)
        (IsConsistent (settled log))
        (resume_snapshot run task snapshot now)
unfolding resume_snapshot
resume_snapshot-IsConsistent run run_id task snapshot now held =
    Leads-bind _ _ (Leads-Keeps (find_project-Keeps _)) λ project.
      Leads-bind _ _ (Leads-Keeps (Keeps-gets _)) λ attempts.
        Leads-bind _ _ (Leads-Keeps (Keeps-gets _)) λ unsettled.
          Leads-then _ _ (Leads-Keeps (Keeps-raise_if _ _)) (
            Leads-then _ _ (Leads-Keeps (Keeps-raise_if _ _)) (
              Leads-bind _ _ (Leads-Keeps (Keeps-gets _)) λ point.
                Leads-bind _ _ (Leads-Keeps (Keeps-gets _))
                  λ latest. resume_writes run run_id _ now held))

pub resume-IsConsistent :
    {log : List TraceEvent}
    → (run_id now : ℕ) → Keeps (IsConsistent (settled log)) (resume run_id now)
unfolding resume
resume-IsConsistent run_id now = Keeps-Leads (
    Leads-run run_id _ λ run. Leads-bind _ _ (Leads-Keeps (find_task-Keeps run.task_id)) λ task.
      Leads-guard _ _ _ λ held.
        Leads-bind _ _ (Leads-Keeps (Keeps-or_raise _ _))
          λ snapshot. resume_snapshot-IsConsistent run run_id task snapshot now held)
