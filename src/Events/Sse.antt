-- ===== src/Events/Sse.antt =====
-- apps/control-plane/src/modules/events/sse.controller.ts: a connection is sent the events of its run
-- that follow the last one it has, at most 500 at a time. An error of the query or of the socket is not
-- modelled: the interval repeats the drain from the same sequence.
use agent_reliability_platfo.Base.{
  ℕ, Bool, true, false, ◌&&◌, Option, none, some, List, [], ◌∷◌, ◌++◌, ◌==◌, ltb, filter, take,
  sort_by, if◌then◌else◌,
}
use agent_reliability_platfo.Store.Rows.{TraceEvent, Db}

-- The variables of a connection, and the events that were written to it.
pub record Stream : Type 0 where
  pub sequence : ℕ
  pub closed : Bool
  pub written : List TraceEvent

abbrev pub event_sequence : TraceEvent → ℕ
event_sequence e = e.run_sequence

-- `requested`: the number of the header or of the query, where it is one from 0 on.
unfoldable pub open_stream : Option ℕ → Stream
open_stream none = record { sequence = 0; closed = false; written = [] }
open_stream (some n) = record { sequence = n; closed = false; written = [] }

-- The query of `drain`.
unfoldable pub batch : ℕ → ℕ → Db → List TraceEvent
batch run_id sequence db = take 500 (
    sort_by event_sequence
      (filter (λ (e : TraceEvent). e.run_id == run_id && ltb sequence e.run_sequence) db.events))

-- The loop of `drain`.
unfoldable pub write_all : List TraceEvent → Stream → Stream
write_all [] s = s
write_all (e ∷ es) s =
    write_all es (record s { sequence = e.run_sequence; written = s.written ++ e ∷ [] })

-- `drain`, where no earlier one is still active.
unfoldable pub drain : ℕ → Db → Stream → Stream
drain run_id db s = if s.closed then s else write_all (batch run_id s.sequence db) s

unfoldable pub close : Stream → Stream
close s = record s { closed = true }

-- The drains of the interval, each on the database of its time.
unfoldable pub drain_all : ℕ → List Db → Stream → Stream
drain_all run_id [] s = s
drain_all run_id (db ∷ dbs) s = drain_all run_id dbs (drain run_id db s)
