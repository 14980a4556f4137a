-- ===== src/Dispatch/Tests.antt =====
-- Tests of the publisher, and the theorems at a concrete outbox.
use agent_reliability_platfo.Base.{
  ℕ, ◌-◌, ◌≡◌, refl, ◌==◌, if◌then◌else◌, true, none, some, List, [], ◌∷◌, filter, length, ◌==◌,
  if◌then◌else◌,
}
use agent_reliability_platfo.Shared.Enums.{OutboxStatus, AgentKind, start_run}
use agent_reliability_platfo.Store.Rows.{OutboxMessage}
use agent_reliability_platfo.Dispatch.Outbox.{
  Sending, Publisher, is_due, publish_due, publish_one, send_as, failed_once, tick, reconcile,
}
use agent_reliability_platfo.Dispatch.Publication.{
  IsPublication, publish_due-marked, publish_due-progress,
}

abbrev message : ℕ → ℕ → OutboxMessage
message run_id not_before = record {
  topic = "run-commands";
  key = run_id;
  payload = record {
    snapshot = none;
    command_id = record { run = run_id; kind = start_run; attempt = 1 };
    kind = start_run;
    run_id = run_id;
    attempt_no = 1;
    agent_kind = AgentKind.mini_swe;
    repo = record { path = "/fixtures"; base_commit = 77 };
    task_spec = record {
      fixture_id = none;
      description = "a wrong sum";
      workdir = ".";
      allowed_paths = [];
      static_check = [];
      fail_to_pass = [];
      pass_to_pass = [];
      acceptance_criteria = [];
      test_patch = none;
    };
    budget = record {
      tokens = 10;
      seconds = 10;
      turns = 10;
      remaining_tokens = 10;
      remaining_seconds = 10;
    };
    checkpoint_id = none;
  };
  status = OutboxStatus.pending;
  attempts = 0;
  published_at = none;
  not_before = not_before;
}

-- The second message waits for its backoff.
abbrev messages : List OutboxMessage
messages = message 1 100 ∷ message 2 900 ∷ message 3 200 ∷ []

abbrev publisher : Publisher
publisher = record { outbox = messages; stream = []; reconciled_at = 0 }

abbrev published : OutboxMessage → OutboxMessage
published m = record m { status = OutboxStatus.published; published_at = some 500 }

-- The mark of the third message fails: it is in the stream, and will be sent again.
abbrev third_unmarked : OutboxMessage → Sending
third_unmarked m = if m.key == 3 then Sending.unmarked else Sending.accepted

tick_sends_due : tick (λ r. true) third_unmarked [] 500 publisher ≡ record {
  outbox = published (message 1 100) ∷ message 2 900 ∷ failed_once (message 3 200) ∷ [];
  stream = message 1 100 ∷ message 3 200 ∷ [];
  reconciled_at = 0;
}
unfolding tick reconcile publish_due publish_one send_as
tick_sends_due = refl

-- The first message goes, and then the database does: the second message that is due waits.
abbrev first_lost : OutboxMessage → Sending
first_lost m = Sending.lost true

tick_ends : publish_due first_lost 500 20 messages ≡ (messages, message 1 100 ∷ [])
unfolding publish_due publish_one send_as
tick_ends = refl

publish_due-marked_example : IsPublication 500 messages (publish_due third_unmarked 500 20 messages)
publish_due-marked_example = publish_due-marked third_unmarked 500 20 messages

publish_due-progress_example :
    ((publish_due (λ m. Sending.accepted) 500 1 messages).1 ≡ message 1 100 ∷ [])
    × (length (filter (is_due 500) (publish_due (λ m. Sending.accepted) 500 1 messages).0) ≡ 2 - 1)
publish_due-progress_example =
    publish_due-progress (λ m. Sending.accepted) 500 1 messages (λ m. refl)
      (refl, (refl, (refl, tt)))
