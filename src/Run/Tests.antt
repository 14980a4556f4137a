-- ===== src/Run/Tests.antt =====
-- Tests of modules/run on a small database, and the theorems at concrete histories.
use Prim.Native.String.{len}
use agent_reliability_platfo.Base.{
  Bool-cases, inl, inr, ◌==◌, ◌+◌, ◌-◌, ◌*◌, ◌≤◌, ◌<◌, ◌≡◌, ◌↔◌, refl, true, false, not, ltb, ◌&&◌,
  none, some, List, [], ◌∷◌, ◌++◌, arith, ◌==◌, any,
}
use agent_reliability_platfo.Shared.Enums.{
  TaskStatus, RunStatus, AttemptStatus, FailureCode, state_transition, run_status_enum, includes,
}
use agent_reliability_platfo.Store.Table.{find, modify, first_where, modify_where}
use agent_reliability_platfo.Store.Rows.{Run, Attempt, BudgetCall, CallStatus, Db, run_moved}
use agent_reliability_platfo.Store.Tx.{
  ok, err, commit, conflict, gets, or_raise, raise_if, alter, when, pure, ◌>>=◌, ◌>>◌,
}
use agent_reliability_platfo.Store.Queries.{
  run_key, task_key, is_live, insert_event, insert_attempt, insert_call, find_run, find_task,
  find_attempt, update_run, update_task, update_attempt, latest_no,
}
use agent_reliability_platfo.StateMachine.{assert_transition, run_transitions, task_transitions}
use agent_reliability_platfo.Run.Transition.{
  synthetic_event, append_synthetic_event, transition_run, transition_task, assert_run_transition,
  assert_task_transition,
}
use agent_reliability_platfo.Run.Claim.{
  ClaimInput, heartbeat, claim_attempt, claim_read, claim_tx, open_attempt,
}
use agent_reliability_platfo.Run.Complete.{Report, succeeded}
use agent_reliability_platfo.Run.Budget.{
  reserve, settle, record_usage, available_budget, committed, calls_of, elapsed_ms,
}
use agent_reliability_platfo.Run.Worker.{lease, control_event, out_of_time}
use agent_reliability_platfo.Run.Control.{cancel, cancel_run, cancel_attempts}
use agent_reliability_platfo.Run.Expiry.{handle_lease_expired}
use agent_reliability_platfo.Run.Lease.{lease_iff, IsLeased}
use agent_reliability_platfo.Run.Requests.{request_heartbeat, lease_of}
use agent_reliability_platfo.Run.Held.{request_heartbeat-IsLeased}
use agent_reliability_platfo.Run.Examples.{queued_task, fresh, first_attempt, busy_run, busy}
use agent_reliability_platfo.Run.Operations.{Operation, perform, perform_all}
use agent_reliability_platfo.Policy.Laws.{is_retry}
use agent_reliability_platfo.Run.Recovery.{decide}
use agent_reliability_platfo.Run.Decided.{decide-retry}
use agent_reliability_platfo.Run.Fencing.{perform-fenced}
use agent_reliability_platfo.Run.Spending.{reserve-within, settle-again, settle-used_tokens}
use agent_reliability_platfo.Run.Cancelling.{cancel-ends, cancelled_run, status_of}
use agent_reliability_platfo.Run.Renewal.{heartbeat-keeps_lease}
use agent_reliability_platfo.Run.Consistent.Defs.{
  settled, moves, replay, IsConsistent, sequences, numbers, count_up,
}
use agent_reliability_platfo.Run.Consistent.Histories.{perform_all-IsConsistent}

fresh-IsConsistent : IsConsistent (settled []) fresh
unfolding sequences numbers count_up moves replay find
fresh-IsConsistent = record {
  logged = λ id. ground arith;
  numbered = λ id. refl;
  bounded = λ id. ground arith;
  lawful = tt;
  traced = λ id. elim (Bool-cases (3 == id)) [
    | inl mine ↦ rw mine (inr refl)
    | inr other ↦ rw other refl
  ];
  later = [];
  continued = refl;
}

abbrev first_claim : ClaimInput
first_claim = record { run_id = 3; attempt_no = 1; worker_id = 9 }

-- Attempt 10 with token 11, claimed at time 1,000 with a lease of 30,000.
abbrev claimed_first : Operation
claimed_first = Operation.claim fresh first_claim 10 11 30_000 1_000

abbrev no_report : Report
no_report = record {
  used_tokens = none;
  used_seconds = none;
  verification = [];
  patch = some "diff";
  judge = none;
}

claim_makes_busy : perform [] len claimed_first fresh ≡ busy
unfolding perform commit claim_attempt claim_read claim_tx open_attempt transition_run
    transition_task assert_run_transition assert_task_transition assert_transition run_transitions
    task_transitions append_synthetic_event insert_event insert_attempt find_run find_task
    update_run update_task find modify first_where latest_no gets or_raise raise_if alter when pure
    ◌>>=◌ ◌>>◌
claim_makes_busy = refl

-- A claim, a repeated claim, a heartbeat, a lost worker and a cancellation.
abbrev history : List Operation
history =
    claimed_first
    ∷ claimed_first
    ∷ Operation.renewal 10 30_000 20_000
    ∷ Operation.monitoring 60_000
    ∷ Operation.cancellation 3 70_000
    ∷ []

perform_all-IsConsistent_example : IsConsistent (settled []) (perform_all [] len history fresh)
perform_all-IsConsistent_example = perform_all-IsConsistent [] len history fresh fresh-IsConsistent

lease-busy : lease 10 (some 11) true 2_000 busy ≡ ok (first_attempt, busy_run) busy
unfolding lease out_of_time find_attempt find_run find gets or_raise raise_if pure elapsed_ms ◌>>=◌
    ◌>>◌
lease-busy = refl

lease_iff_example :
    (lease 10 (some 11) true 2_000 busy ≡ ok (first_attempt, busy_run) busy)
    ↔ IsLeased 10 (some 11) true 2_000 busy (first_attempt, busy_run)
lease_iff_example = lease_iff 10 (some 11) true 2_000 busy (first_attempt, busy_run)

-- The lease of attempt 10 has been lost since the worker's request was read.
abbrev after_loss : Db
after_loss = record busy {
  attempts =
      record first_attempt { status = AttemptStatus.lease_expired; ended_at = some 60_000 } ∷ [];
}

perform-fenced_example :
    perform [] len (Operation.completion busy 10 succeeded no_report 90 61_000) after_loss
    ≡ after_loss
perform-fenced_example =
    perform-fenced [] len (Operation.completion busy 10 succeeded no_report 90 61_000) after_loss
      refl

abbrev first_call : BudgetCall
first_call = record {
  id = 20;
  run_id = 3;
  reserved = 400;
  used = none;
  status = CallStatus.reserved;
}

abbrev calling : Db
calling = record busy { budget_calls = first_call ∷ [] }

reserve-busy : reserve 3 10 (some 11) 20 400 3_000 busy ≡ ok (first_call, 598_000) calling
unfolding reserve available_budget committed calls_of find_run insert_call find first_where
    elapsed_ms gets or_raise raise_if alter pure ◌>>=◌ ◌>>◌
reserve-busy = refl

reserve-within_example :
    (committed (calls_of 3 calling.budget_calls) ≡ committed (calls_of 3 []) + 400)
    × (400 ≤ 1_000 - committed (calls_of 3 []))
    × (0 < 598_000)
    × (598_000 + elapsed_ms busy_run 3_000 ≡ 600 * 1000)
reserve-within_example =
    reserve-within 3 10 (some 11) 20 400 3_000 busy calling busy_run first_call 598_000
      (unfold find in refl) reserve-busy

abbrev settled_call : BudgetCall
settled_call = record first_call { used = some 250; status = CallStatus.settled }

abbrev charged_run : Run
charged_run = record busy_run { used_tokens = 250 }

abbrev charged : Db
charged = record busy { budget_calls = settled_call ∷ []; runs = charged_run ∷ [] }

settle-calling : settle 3 20 (some 250) calling ≡ ok settled_call charged
unfolding settle record_usage committed calls_of find_run update_run find modify gets or_raise
    raise_if alter pure ◌>>=◌ ◌>>◌
settle-calling = refl

settle-again_example : settle 3 20 (some 300) charged ≡ err (conflict "Conflicting model usage")
settle-again_example = settle-again 3 20 250 (some 300) calling charged settled_call settle-calling

settle-used_tokens_example : 250 ≡ committed (calls_of 3 charged.budget_calls)
settle-used_tokens_example =
    settle-used_tokens 3 20 (some 250) calling charged first_call settled_call charged_run
      (unfold find in refl) refl settle-calling (unfold find in refl)

abbrev cancelled_db : Db
cancelled_db = record busy {
  tasks = record queued_task { status = TaskStatus.cancelled } ∷ [];
  runs = cancelled_run busy_run 4_000 ∷ [];
  attempts =
      record first_attempt {
        status = AttemptStatus.failed;
        failure_code = some FailureCode.cancelled_by_user;
        ended_at = some 4_000;
      }
      ∷ [];
  events =
      busy.events
      ++ synthetic_event 3 state_transition (run_moved RunStatus.running RunStatus.cancelled) none
          4_000 2
        ∷ [];
}

cancel-busy : cancel 3 4_000 busy ≡ ok tt cancelled_db
unfolding cancel cancel_run cancel_attempts control_event append_synthetic_event insert_event
    find_run find_task update_run update_task find modify modify_where gets or_raise raise_if alter
    pure ◌>>=◌ ◌>>◌
cancel-busy = refl

cancel-ends_example :
    (includes (RunStatus.succeeded ∷ RunStatus.failed ∷ []) RunStatus.running ≡ false)
    × (find run_key 3 cancelled_db.runs ≡ some (cancelled_run busy_run 4_000))
    × (status_of (find task_key 2 cancelled_db.tasks) ≡ some TaskStatus.cancelled)
    × (any (λ (a : Attempt). a.run_id == 3 && is_live a.status) cancelled_db.attempts ≡ false)
    × (cancel 3 9_000 cancelled_db ≡ ok tt cancelled_db)
cancel-ends_example =
    cancel-ends 3 4_000 9_000 busy cancelled_db busy_run (unfold find in refl) refl cancel-busy

abbrev renewed : Db
renewed = record busy { attempts = record first_attempt { lease_expires_at = some 50_000 } ∷ [] }

heartbeat-busy : heartbeat 10 30_000 20_000 busy ≡ ok 30_000 renewed
unfolding heartbeat update_attempt find_attempt find modify gets or_raise raise_if alter pure ◌>>=◌
    ◌>>◌
heartbeat-busy = refl

heartbeat-keeps_lease_example : commit (handle_lease_expired busy [] 10 45_000) renewed ≡ renewed
heartbeat-keeps_lease_example =
    heartbeat-keeps_lease busy [] 10 30_000 20_000 45_000 30_000 busy renewed heartbeat-busy
      (omega arith)

request_heartbeat-busy : request_heartbeat busy 10 (some 11) 30_000 20_000 busy ≡ ok 30_000 renewed
unfolding request_heartbeat lease_of lease out_of_time find_run heartbeat update_attempt
    find_attempt elapsed_ms find modify gets or_raise raise_if alter pure ◌>>=◌ ◌>>◌
request_heartbeat-busy = refl

request_heartbeat-IsLeased_example :
    (held : Attempt × Run) × IsLeased 10 (some 11) true 20_000 busy held
request_heartbeat-IsLeased_example =
    request_heartbeat-IsLeased busy 10 (some 11) 30_000 20_000 busy renewed 30_000
      request_heartbeat-busy

-- The second of three attempts ends with a limited model.
decide-retry_example :
    is_retry (decide busy_run 2 FailureCode.model_rate_limit).action
    ≡ not busy_run.recovery_disabled && (ltb 2 3 && not false)
decide-retry_example = decide-retry busy_run 2 FailureCode.model_rate_limit
