-- ===== src/Events/Resumed.antt =====
-- What the browser asks for after a connection is lost: the events behind the last that it was sent.
use agent_reliability_platfo.Base.{
  ℕ, zero, suc, ◌+◌, ◌≡◌, false, some, List, [], ◌∷◌, map, arith, max, range,
}
use agent_reliability_platfo.Store.Rows.{TraceEvent}
use agent_reliability_platfo.Events.Sse.{event_sequence, open_stream}
use agent_reliability_platfo.Events.Merge.{merge_events, receive_all}
use agent_reliability_platfo.Events.Hook.{Hook, on_trace, on_all, last_event_id}

on_all-last_sequence :
    (k : ℕ) (es : List TraceEvent) (h : Hook)
    → map event_sequence es ≡ range h.last_sequence k
    → ((on_all es h).last_sequence ≡ h.last_sequence + k)
      × ((on_all es h).cache ≡ receive_all es h.cache)
unfolding on_all on_trace range receive_all
on_all-last_sequence zero [] h q = ground arith
on_all-last_sequence (suc k) [] h q = ground arith
on_all-last_sequence zero (e ∷ es) h q = ground arith
on_all-last_sequence (suc k) (e ∷ es) h q = ground (
  arith,
  on_all-last_sequence k es (record h {
    failures = 0;
    disconnected = false;
    last_sequence = max h.last_sequence e.run_sequence;
    cache = some (merge_events h.cache e);
  }),
)

-- After the browser has been sent the next events of its run, some of them, in order, the stream that it opens
-- anew begins behind the last of them, and its list is the merge of all that came.
pub on_all-resumes :
    (k : ℕ) (es : List TraceEvent) (h : Hook)
    → map event_sequence es ≡ range h.last_sequence (suc k)
    → ((open_stream (last_event_id (on_all es h))).sequence ≡ h.last_sequence + suc k)
      × ((on_all es h).cache ≡ receive_all es h.cache)
unfolding open_stream last_event_id
on_all-resumes k es h sent = ground (arith, on_all-last_sequence (suc k) es h sent)
