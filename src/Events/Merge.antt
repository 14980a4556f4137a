-- ===== src/Events/Merge.antt =====
-- apps/web/src/lib/use-run-events.ts: the browser's list of a run's events.
use agent_reliability_platfo.Base.{
  ℕ, Bool, Option, none, some, List, [], ◌∷◌, ◌++◌, any, ◌==◌, sort_by, if◌then◌else◌,
}
use agent_reliability_platfo.Store.Rows.{TraceEvent}
use agent_reliability_platfo.Events.Sse.{event_sequence}

-- `existing ?? []`
abbrev pub events_or_none : Option (List TraceEvent) → List TraceEvent
events_or_none none = []
events_or_none (some events) = events

abbrev pub has_sequence : ℕ → List TraceEvent → Bool
has_sequence k events = any (λ (e : TraceEvent). e.run_sequence == k) events

-- `mergeEvents`
unfoldable pub merge_events : Option (List TraceEvent) → TraceEvent → List TraceEvent
merge_events existing incoming =
    if has_sequence incoming.run_sequence (events_or_none existing)
    then events_or_none existing
    else sort_by event_sequence (events_or_none existing ++ incoming ∷ [])

-- The messages of a connection, one after another (`setQueryData`).
unfoldable pub receive_all : List TraceEvent → Option (List TraceEvent) → Option (List TraceEvent)
receive_all [] cache = cache
receive_all (e ∷ es) cache = receive_all es (some (merge_events cache e))
