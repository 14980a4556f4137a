-- ===== src/Events/Hook.antt =====
-- apps/web/src/lib/use-run-events.ts, `useRunEvents`: the browser's side of a connection.
use agent_reliability_platfo.Base.{
  ℕ, ◌+◌, Bool, false, ◌||◌, Option, none, some, List, [], ◌∷◌, max, leb, ltb, ◌==◌, if◌then◌else◌,
}
use agent_reliability_platfo.Store.Rows.{TraceEvent}
use agent_reliability_platfo.Events.Merge.{merge_events}

-- The references and the state of the hook, and the cached events of its run.
pub record Hook : Type 0 where
  pub run_id : ℕ
  pub last_sequence : ℕ
  pub failures : ℕ
  pub disconnected : Bool
  pub cache : Option (List TraceEvent)

-- The effect of a run: what it asks the server for, `lastEventId`, starts anew with another run, whose events
-- are cached under another key (`cache`).
unfoldable pub connect : ℕ → Option (List TraceEvent) → Hook → Hook
connect run_id cache h =
    if h.run_id == run_id then h else record h { run_id = run_id; last_sequence = 0; cache = cache }

unfoldable pub last_event_id : Hook → Option ℕ
last_event_id h = if ltb 0 h.last_sequence then some h.last_sequence else none

-- The listener of `trace` messages.
unfoldable pub on_trace : TraceEvent → Hook → Hook
on_trace e h = record h {
  failures = 0;
  disconnected = false;
  last_sequence = max h.last_sequence e.run_sequence;
  cache = some (merge_events h.cache e);
}

-- `onerror`
unfoldable pub on_error : Hook → Hook
on_error h = record h {
  failures = h.failures + 1;
  disconnected = h.disconnected || leb 5 (h.failures + 1);
}

-- `retry`
unfoldable pub retry : Hook → Hook
retry h = record h { failures = 0; disconnected = false }

unfoldable pub on_all : List TraceEvent → Hook → Hook
unfolding on_trace
on_all [] h = h
on_all (e ∷ es) h = on_all es (on_trace e h)
