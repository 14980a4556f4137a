-- ===== src/Events/Ingest.antt =====
-- apps/control-plane/src/modules/events/trace-event-ingestor.ts: an entry of the stream is written to the
-- log of its run once, is sent to the subscribers, and is acknowledged; an entry that is not
-- acknowledged is delivered again.
use Prim.Native.String.{String}
use agent_reliability_platfo.Base.{
  ℕ, ◌+◌, Bool, true, false, Option, none, some, List, any, if◌then◌else◌,
}
use agent_reliability_platfo.Shared.Enums.{TraceEventType}
use agent_reliability_platfo.Store.Rows.{TraceEvent, reported, opaque, Db}
use agent_reliability_platfo.Store.Tx.{Tx, unique_violation, Result, ok, err, pure, ◌>>=◌, ◌>>◌}
use agent_reliability_platfo.Store.Queries.{find_run, update_run, insert_event, same_key}

-- A value of `TraceEventSchema`, with the fields that are stored.
pub record ReportedEvent : Type 0 where
  pub run_id : ℕ
  pub attempt_id : ℕ
  pub attempt_sequence : ℕ
  pub kind : TraceEventType
  pub payload : String
  pub idempotency_key : String
  pub occurred_at : ℕ

-- The data of an entry: not JSON, not of the schema, or an event.
pub data Entry : Type 0 where
  unreadable invalid : Entry
  event : ReportedEvent → Entry

-- What a handled entry leaves: the database, what was published, and whether it was acknowledged.
pub record Handled : Type 0 where
  pub database : Db
  pub published : Option TraceEvent
  pub acknowledged : Bool

abbrev pub stored : ReportedEvent → ℕ → TraceEvent
stored e sequence = record {
  run_id = e.run_id;
  attempt_id = some e.attempt_id;
  run_sequence = sequence;
  attempt_sequence = e.attempt_sequence;
  kind = e.kind;
  payload = opaque e.payload;
  idempotency_key = reported e.idempotency_key;
  occurred_at = e.occurred_at;
}

-- The transaction: the next sequence of the run, and the event that carries it.
unfoldable pub store_event : ReportedEvent → Tx TraceEvent
store_event e = do
  update_run e.run_id (λ r. record r { last_sequence = r.last_sequence + 1 })
  run ← find_run e.run_id
  insert_event (stored e run.last_sequence)
  pure (stored e run.last_sequence)

-- An event with this key is in the log.
abbrev pub has_event : String → List TraceEvent → Bool
has_event key events = any (λ (e : TraceEvent). same_key (reported key) e.idempotency_key) events

-- After the transaction: a key that is already there is acknowledged, another error is not.
unfoldable pub finish : Db → Result TraceEvent → Handled
finish db (ok e db') = record { database = db'; published = some e; acknowledged = true }
finish db (err unique_violation) = record { database = db; published = none; acknowledged = true }
finish db (err _) = record { database = db; published = none; acknowledged = false }

-- `handleEntry`. `seen` is the database at the look for the key, before the transaction.
unfoldable pub handle_entry : Db → Entry → Db → Handled
unfolding store_event finish
handle_entry seen Entry.unreadable db = record {
  database = db;
  published = none;
  acknowledged = false;
}
handle_entry seen Entry.invalid db = record { database = db; published = none; acknowledged = true }
handle_entry seen (Entry.event e) db =
    if has_event e.idempotency_key seen.events
    then record { database = db; published = none; acknowledged = true }
    else finish db (store_event e db)
