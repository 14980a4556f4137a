-- ===== src/Run/FinalTests.antt =====
-- A run that a person cancelled, and a history that creates and cancels one.
use Prim.Native.String.{len}
use agent_reliability_platfo.Base.{
  arith, true, Bool-cases, inl, inr, ◌==◌, ◌≡◌, refl, none, some, List, [], ◌∷◌,
}
use agent_reliability_platfo.Shared.Enums.{RunStatus, state_transition}
use agent_reliability_platfo.StateMachine.{run_transitions, can_transition, is_terminal}
use agent_reliability_platfo.Store.Examples.{empty}
use agent_reliability_platfo.Store.Table.{find}
use agent_reliability_platfo.Store.Rows.{Run, run_moved, Db}
use agent_reliability_platfo.Store.Tx.{record_missing}
use agent_reliability_platfo.Store.Queries.{run_key}
use agent_reliability_platfo.Run.Transition.{synthetic_event}
use agent_reliability_platfo.Run.Creation.{new_run}
use agent_reliability_platfo.Run.Examples.{shown, wanted, new_ids}
use agent_reliability_platfo.Run.Operations.{Operation, perform_all}
use agent_reliability_platfo.Run.Consistent.Defs.{
  sequences, numbers, count_up, moves, replay, Traced, settled, IsConsistent,
}
use agent_reliability_platfo.Run.Consistent.Final.{replay-status, perform_all-ended, run_status}

abbrev stopped_run : Run
stopped_run = record (new_run 4 3 wanted 77) { status = RunStatus.cancelled; last_sequence = 1 }

abbrev stopped : Db
stopped = record empty {
  runs = stopped_run ∷ [];
  events =
      synthetic_event 4 state_transition (run_moved RunStatus.pending RunStatus.cancelled) none
        5_000 1
      ∷ [];
}

stopped-IsConsistent : IsConsistent (settled []) stopped
unfolding sequences numbers count_up moves replay find can_transition run_transitions
stopped-IsConsistent = record {
  logged = λ id. ground arith;
  numbered = λ id. refl;
  bounded = λ id. ground arith;
  lawful = (refl, tt);
  traced = λ id. elim (Bool-cases (4 == id)) [
    | inl mine ↦ rw mine (inl refl)
    | inr other ↦ rw other refl
  ];
  later = stopped.events;
  continued = refl;
}

-- A worker claims the run, a person resumes it, and another cancels it.
abbrev late : List Operation
late =
    Operation.claim stopped (record { run_id = 4; attempt_no = 1; worker_id = 9 }) 10 11 30_000
      6_000
    ∷ Operation.resumption 4 7_000
    ∷ Operation.cancellation 4 8_000
    ∷ []

perform_all-ended_example :
    run_status (find run_key 4 (perform_all [] len late stopped).runs) ≡ some RunStatus.cancelled
perform_all-ended_example =
    perform_all-ended [] len late stopped 4 stopped_run stopped-IsConsistent (unfold find in refl)
      (unfold is_terminal run_transitions in refl)

abbrev first_steps : List Operation
first_steps =
    Operation.creation true (λ path ref. some 77) record_missing wanted new_ids 5_000
    ∷ Operation.cancellation 4 6_000
    ∷ []

replay-status_example :
    Traced
      (moves 4 (perform_all (shown ∷ []) len first_steps empty).events)
      (find run_key 4 (perform_all (shown ∷ []) len first_steps empty).runs)
replay-status_example = replay-status (shown ∷ []) len first_steps 4
