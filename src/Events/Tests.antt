-- ===== src/Events/Tests.antt =====
-- Tests of modules/events and of the browser's list, and the theorems at concrete logs.
use Prim.Native.String.{String}
use agent_reliability_platfo.Base.{
  Bool-cases, inl, inr, ◌==◌, ℕ, ◌+◌, ◌≤◌, ◌≡◌, refl, true, false, ◌||◌, none, some, [], ◌∷◌, arith,
  range, sort_by, insert_by,
}
use agent_reliability_platfo.Shared.Enums.{model_call}
use agent_reliability_platfo.Shared.Enums.{AgentKind, RunStatus}
use agent_reliability_platfo.Store.Table.{find}
use agent_reliability_platfo.Store.Rows.{Run, Phase, FeedbackMode, TraceEvent, Db}
use agent_reliability_platfo.Run.Consistent.Defs.{
  settled, moves, replay, IsConsistent, sequences, numbers, count_up,
}
use agent_reliability_platfo.Events.Ingest.{ReportedEvent, Entry, handle_entry, has_event, stored}
use agent_reliability_platfo.Events.Sse.{open_stream, drain_all}
use agent_reliability_platfo.Events.Merge.{has_sequence, receive_all, merge_events, events_or_none}
use agent_reliability_platfo.Events.Hook.{Hook, on_all, last_event_id}
use agent_reliability_platfo.Events.Resumed.{on_all-resumes}
use agent_reliability_platfo.Events.Recorded.{handle_entry-once, done}
use agent_reliability_platfo.Events.Replay.{IsReplay, drain_all-IsReplay, drain_all-reaches}
use agent_reliability_platfo.Events.Merged.{is_ascending, receive_all-ascending}

abbrev traced_run : Run
traced_run = record {
  id = 3;
  task_id = 2;
  agent_kind = AgentKind.mini_swe;
  status = RunStatus.dispatched;
  base_commit = 77;
  max_attempts = 3;
  budget_tokens = 1_000;
  budget_seconds = 600;
  budget_turns = 20;
  used_tokens = 0;
  used_seconds = 0;
  last_sequence = 1;
  recovery_disabled = false;
  feedback_mode = FeedbackMode.structured;
  phase = Phase.queued;
  environment_id = none;
  image_id = none;
  active_started_at = none;
  deadline_at = none;
}

abbrev model_event : ℕ → String → ReportedEvent
model_event n key = record {
  run_id = 3;
  attempt_id = 10;
  attempt_sequence = n;
  kind = model_call;
  payload = "{}";
  idempotency_key = key;
  occurred_at = 2_000;
}

abbrev first_event : TraceEvent
first_event = stored (model_event 1 "3:1:1") 1

abbrev second_event : TraceEvent
second_event = stored (model_event 2 "3:1:2") 2

abbrev traced : Db
traced = record {
  workspaces = [];
  drafts = [];
  projects = [];
  tasks = [];
  runs = traced_run ∷ [];
  attempts = [];
  events = first_event ∷ [];
  checkpoints = [];
  artifacts = [];
  verifications = [];
  decisions = [];
  approvals = [];
  outbox = [];
  budget_calls = [];
  environments = [];
  deliveries = [];
}

traced-IsConsistent : IsConsistent (settled []) traced
unfolding sequences numbers count_up moves replay find
traced-IsConsistent = record {
  logged = λ id. ground arith;
  numbered = λ id. refl;
  bounded = λ id. ground arith;
  lawful = (refl, tt);
  traced = λ id. elim (Bool-cases (3 == id)) [
    | inl mine ↦ rw mine (inr refl)
    | inr other ↦ rw other refl
  ];
  later = first_event ∷ [];
  continued = refl;
}

handle_entry-once_example :
    ((handle_entry traced (Entry.event (model_event 2 "3:1:2")) traced).acknowledged ≡ true)
    × (has_event "3:1:2"
          (handle_entry traced (Entry.event (model_event 2 "3:1:2")) traced).database.events
        ≡ true)
    × (handle_entry traced
          (Entry.event (model_event 2 "3:1:2"))
          (handle_entry traced (Entry.event (model_event 2 "3:1:2")) traced).database
        ≡ done (handle_entry traced (Entry.event (model_event 2 "3:1:2")) traced).database)
handle_entry-once_example =
    handle_entry-once traced traced (model_event 2 "3:1:2") traced_run traced traced-IsConsistent
      (unfold find in refl) (λ known. known)

opened : IsReplay 3 (traced ∷ traced ∷ []) 0 (open_stream none)
unfolding open_stream range
opened = record { ahead = omega arith; in_order = refl; logged = tt }

open_is_open : (open_stream none).closed ≡ false
unfolding open_stream
open_is_open = refl

drain_all-IsReplay_example :
    IsReplay 3 (traced ∷ traced ∷ []) 0 (drain_all 3 (traced ∷ traced ∷ []) (open_stream none))
drain_all-IsReplay_example =
    drain_all-IsReplay 0 3 (traced ∷ traced ∷ []) (open_stream none)
      (traced-IsConsistent, (traced-IsConsistent, tt)) open_is_open opened

drain_all-reaches_example : 1 ≤ (drain_all 3 (traced ∷ []) (open_stream none)).sequence
unfolding open_stream
drain_all-reaches_example =
    drain_all-reaches 1 3 (traced ∷ []) (open_stream none)
      ((traced-IsConsistent, unfold find in omega arith), tt) open_is_open (omega arith)

-- The events come out of order, and the first comes twice.
merged :
    receive_all (second_event ∷ first_event ∷ second_event ∷ []) none
    ≡ some (first_event ∷ second_event ∷ [])
unfolding receive_all merge_events sort_by insert_by
merged = refl

receive_all-ascending_example :
    (is_ascending (events_or_none (receive_all (second_event ∷ first_event ∷ []) none)) ≡ true)
    × (has_sequence 2 (events_or_none (receive_all (second_event ∷ first_event ∷ []) none))
        ≡ false || (true || (false || false)))
receive_all-ascending_example = receive_all-ascending (second_event ∷ first_event ∷ []) none 2 refl

abbrev hook : Hook
hook = record { run_id = 3; last_sequence = 0; failures = 2; disconnected = false; cache = none }

on_all-resumes_example :
    ((open_stream (last_event_id (on_all (first_event ∷ second_event ∷ []) hook))).sequence ≡ 0 + 2)
    × ((on_all (first_event ∷ second_event ∷ []) hook).cache
        ≡ receive_all (first_event ∷ second_event ∷ []) none)
on_all-resumes_example =
    on_all-resumes 1 (first_event ∷ second_event ∷ []) hook (unfold range in refl)
