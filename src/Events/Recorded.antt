-- ===== src/Events/Recorded.antt =====
-- What the ingestion of events promises: an event that is acknowledged is in the log, once, and the
-- log of each run stays without gaps.
use text.Mathlib.TextPositions.{eq_refl}
use agent_reliability_platfo.Base.{
  ℕ, zero, suc, ◌+◌, ◌<◌, ◌≡◌, refl, Bool, true, false, ◌||◌, none, some, List, [], ◌∷◌, ◌++◌,
  arith, any, ◌==◌, if◌then◌else◌, Option-cases, Bool-cases, inl, inr,
}
use agent_reliability_platfo.Store.Table.{find, modify, find-modify}
use agent_reliability_platfo.Store.Rows.{Run, TraceEvent, Db}
use agent_reliability_platfo.Store.Tx.{
  ok, err, pure, ◌>>=◌, ◌>>◌, gets, or_raise, raise_if, alter, unique_violation,
}
use agent_reliability_platfo.Store.Queries.{
  run_key, find_run, update_run, insert_event, same_key, clashes,
}
use agent_reliability_platfo.Events.Ingest.{
  ReportedEvent, Entry, Handled, stored, store_event, has_event, finish, handle_entry,
}
use agent_reliability_platfo.Run.Consistent.Defs.{settled, IsConsistent, sequences, count_up}
use agent_reliability_platfo.Run.Consistent.Events.{logged_event, trail-still, bump}

-- A reported event is no change of a status.
stored_event :
    {log : List TraceEvent}
    → (e : ReportedEvent) (r : Run) (db : Db) → find run_key e.run_id db.runs ≡ some r
    → IsConsistent (settled log) db
    → IsConsistent (settled log) (record db {
      runs = modify run_key e.run_id bump db.runs;
      events = db.events ++ stored e (r.last_sequence + 1) ∷ [];
    })
stored_event {log} e r db found h =
    logged_event e.run_id (stored e (r.last_sequence + 1)) r db found refl refl refl refl
      (λ j. trail-still (settled log) j db.events (stored e (r.last_sequence + 1)) refl) h

pub handle_entry-IsConsistent :
    {log : List TraceEvent}
    → (seen : Db) (entry : Entry) (db : Db) → IsConsistent (settled log) db
    → IsConsistent (settled log) (handle_entry seen entry db).database
unfolding handle_entry store_event finish update_run find_run insert_event gets or_raise raise_if
    alter pure ◌>>=◌ ◌>>◌
handle_entry-IsConsistent seen Entry.unreadable db h = h
handle_entry-IsConsistent seen Entry.invalid db h = h
handle_entry-IsConsistent seen (Entry.event e) db h =
    elim (Option-cases (find run_key e.run_id db.runs)) [
      | inl missing ↦ ground arith
      | inr (r, found) ↦ ground (
        arith,
        find-modify run_key e.run_id e.run_id
            (λ q. record q { last_sequence = q.last_sequence + 1 }) db.runs (λ q. refl),
        stored_event e r db found h,
      )
    ]

any-append :
    {A : Type 0} (test : A → Bool) (xs ys : List A)
    → any test (xs ++ ys) ≡ any test xs || any test ys
any-append test [] ys = refl
any-append test (x ∷ xs) ys = ground (arith, any-append test xs ys)

-- A number above the count is not among those counted.
above_count : (n k : ℕ) → n < k → any (λ s. s == k) (count_up n) ≡ false
unfolding count_up
above_count zero k h = refl
above_count (suc n) k h =
    ground
      (arith, any-append (λ s. s == k) (count_up n) (suc n ∷ []), above_count n k (omega arith))

-- Where the sequence is free in the run, only the key can stand against a new event.
any-clashes :
    (e : ReportedEvent) (k : ℕ) (es : List TraceEvent)
    → any (λ s. s == k) (sequences e.run_id es) ≡ false
    → any (clashes (stored e k)) es ≡ has_event e.idempotency_key es
unfolding sequences
any-clashes e k [] free = refl
any-clashes e k (x ∷ es) free = ground (arith, any-clashes e k es)

-- In a consistent database a run's next sequence is free.
next_free :
    {log : List TraceEvent}
    → (id : ℕ) (r : Run) (db : Db) → IsConsistent (settled log) db
    → find run_key id db.runs ≡ some r
    → any (λ s. s == r.last_sequence + 1) (sequences id db.events) ≡ false
next_free id r db h found =
    rw (h.logged id, found) (above_count r.last_sequence (r.last_sequence + 1) (omega arith))

has_event-append :
    (e : ReportedEvent) (k : ℕ) (es : List TraceEvent)
    → has_event e.idempotency_key (es ++ stored e k ∷ []) ≡ true
has_event-append e k es = ground (
  arith,
  eq_refl e.idempotency_key,
  any-append (λ (x : TraceEvent). same_key (stored e k).idempotency_key x.idempotency_key) es
      (stored e k ∷ []),
)

-- How the transaction ends where its run is there: a key that is known is refused, a new event is
-- appended.
store_event-result :
    {log : List TraceEvent}
    → (e : ReportedEvent) (r : Run) (db : Db) → IsConsistent (settled log) db
    → find run_key e.run_id db.runs ≡ some r
    → store_event e db ≡ (
        if has_event e.idempotency_key db.events
        then err unique_violation
        else ok (stored e (r.last_sequence + 1)) (record db {
          runs = modify run_key e.run_id bump db.runs;
          events = db.events ++ stored e (r.last_sequence + 1) ∷ [];
        }))
unfolding store_event update_run find_run insert_event gets or_raise raise_if alter pure ◌>>=◌ ◌>>◌
store_event-result e r db h found = ground (
  arith,
  find-modify run_key e.run_id e.run_id bump db.runs (λ q. refl),
  any-clashes e (r.last_sequence + 1) db.events (next_free e.run_id r db h found),
)

-- A delivery of an event that is in the log.
abbrev pub done : Db → Handled
done db = record { database = db; published = none; acknowledged = true }

repeated :
    {log : List TraceEvent}
    → (seen : Db) (e : ReportedEvent) (r : Run) (db : Db) → IsConsistent (settled log) db
    → find run_key e.run_id db.runs ≡ some r
    → has_event e.idempotency_key db.events ≡ true
    → handle_entry seen (Entry.event e) db ≡ done db
unfolding handle_entry finish
repeated seen e r db h found there = ground (arith, store_event-result e r db h found)

-- What is left of an entry that has been handled: it is acknowledged, its event is in the log, and a
-- repeated delivery changes and publishes nothing and is acknowledged. The database is consistent, the
-- run is there, and what the ingestor saw before its transaction was not removed since.
pub handle_entry-once :
    {log : List TraceEvent}
    → (seen later : Db) (e : ReportedEvent) (r : Run) (db : Db) → IsConsistent (settled log) db
    → find run_key e.run_id db.runs ≡ some r
    → (has_event e.idempotency_key seen.events ≡ true
        → has_event e.idempotency_key db.events ≡ true)
    → ((handle_entry seen (Entry.event e) db).acknowledged ≡ true)
      × (has_event e.idempotency_key (handle_entry seen (Entry.event e) db).database.events ≡ true)
      × (handle_entry later (Entry.event e) (handle_entry seen (Entry.event e) db).database
          ≡ done (handle_entry seen (Entry.event e) db).database)
handle_entry-once seen later e r db h found kept =
    elim (Bool-cases (has_event e.idempotency_key db.events)) [
      | inl there ↦
          rw (repeated seen e r db h found there) (refl, there, repeated later e r db h found there)
      | inr fresh ↦ first fresh
    ]
  where
    next : Db
    next = record db {
      runs = modify run_key e.run_id bump db.runs;
      events = db.events ++ stored e (r.last_sequence + 1) ∷ [];
    }

    handled :
        has_event e.idempotency_key db.events ≡ false
        → handle_entry seen (Entry.event e) db ≡ record {
          database = next;
          published = some (stored e (r.last_sequence + 1));
          acknowledged = true;
        }
    handled fresh = unfold handle_entry finish in ground (arith, store_event-result e r db h found)

    first :
        has_event e.idempotency_key db.events ≡ false
        → ((handle_entry seen (Entry.event e) db).acknowledged ≡ true)
          × (has_event e.idempotency_key (handle_entry seen (Entry.event e) db).database.events
              ≡ true)
          × (handle_entry later (Entry.event e) (handle_entry seen (Entry.event e) db).database
              ≡ done (handle_entry seen (Entry.event e) db).database)
    first fresh = rw (handled fresh) (
      refl,
      has_event-append e (r.last_sequence + 1) db.events,
      repeated later e (bump r) next (stored_event e r db found h)
          (ground (arith, find-modify run_key e.run_id e.run_id bump db.runs (λ q. refl)))
          (has_event-append e (r.last_sequence + 1) db.events),
    )
