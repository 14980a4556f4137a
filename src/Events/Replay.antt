-- ===== src/Events/Replay.antt =====
-- What a connection promises: the events of its run, each once, in order and without gaps, from the one
-- after the last that the browser had.
use agent_reliability_platfo.Base.{
  ℕ, zero, suc, ◌+◌, ◌-◌, ◌*◌, ◌≤◌, ◌≡◌, refl, ap, sym, ◌∙◌, false, ◌&&◌, List, [], ◌∷◌, ◌++◌, map,
  arith, ◌==◌, ltb, filter, take, sort_by-range, range, if◌then◌else◌, All, All-append, All-mono,
  filter-All, take-All, sort_by-All, Among, Among-All, length,
}
use mathlib.Core.List.{append_assoc, append-nil}
use agent_reliability_platfo.Store.Table.{find}
use agent_reliability_platfo.Store.Rows.{TraceEvent, Db}
use agent_reliability_platfo.Store.Queries.{run_key}
use agent_reliability_platfo.Events.Sse.{Stream, event_sequence, batch, write_all, drain, drain_all}
use agent_reliability_platfo.Run.Consistent.Defs.{
  settled, IsConsistent, sequences, last_sequence_of,
}
use agent_reliability_platfo.Events.Ranges.{
  smaller, range-eq, range-append, count_up-range, filter-range, take-range,
}

take-map :
    (m : ℕ) (es : List TraceEvent) → map event_sequence (take m es) ≡ take m (map event_sequence es)
take-map zero es = refl
take-map (suc m) [] = refl
take-map (suc m) (e ∷ es) = ap (λ x. e.run_sequence ∷ x) (take-map m es)

-- The sequences of the events that the query selects.
selected :
    (id s : ℕ) (es : List TraceEvent)
    → map event_sequence (filter (λ (e : TraceEvent). e.run_id == id && ltb s e.run_sequence) es)
      ≡ filter (λ x. ltb s x) (sequences id es)
unfolding sequences
selected id s [] = refl
selected id s (e ∷ es) = ground (arith, selected id s es)

-- The run's last sequence in a database.
abbrev pub last_of : ℕ → Db → ℕ
last_of id db = last_sequence_of (find run_key id db.runs)

-- How many events the next drain sends.
abbrev pub size_of : ℕ → Db → Stream → ℕ
size_of id db s = smaller 500 (last_of id db - s.sequence)

batch-range :
    {log : List TraceEvent}
    → (id s : ℕ) (db : Db) → IsConsistent (settled log) db
    → map event_sequence (batch id s db) ≡ range s (smaller 500 (last_of id db - s))
unfolding batch
batch-range id s db h =
    ap (λ es. map event_sequence (take 500 es))
      (sort_by-range event_sequence s (last_of id db - s) _ ordered)
    ∙ take-map 500 _
    ∙ ap (λ ns. take 500 ns) ordered
    ∙ take-range 500 s (last_of id db - s)
  where
    ordered :
        map event_sequence
          (filter (λ (e : TraceEvent). e.run_id == id && ltb s e.run_sequence) db.events)
        ≡ range s (last_of id db - s)
    ordered =
        selected id s db.events
        ∙ ap (λ ns. filter (λ x. ltb s x) ns) (h.logged id ∙ count_up-range (last_of id db))
        ∙ filter-range s 0 (last_of id db) (omega arith)
        ∙ range-eq s s (0 + last_of id db - s) (last_of id db - s) refl (omega arith)

map-append :
    (es fs : List TraceEvent)
    → map event_sequence (es ++ fs) ≡ map event_sequence es ++ map event_sequence fs
map-append [] fs = refl
map-append (e ∷ es) fs = ap (λ ns. e.run_sequence ∷ ns) (map-append es fs)

-- Writing the events whose sequences follow that of the connection.
write_all-range :
    (k : ℕ) (es : List TraceEvent) (s : Stream)
    → map event_sequence es ≡ range s.sequence k
    → ((write_all es s).sequence ≡ s.sequence + k)
      × (map event_sequence (write_all es s).written
          ≡ map event_sequence s.written ++ range s.sequence k)
      × ((write_all es s).closed ≡ s.closed)
unfolding write_all range
write_all-range zero [] s h = (omega arith, sym (append-nil _), refl)
write_all-range (suc k) [] s h = ground arith
write_all-range zero (e ∷ es) s h = ground arith
write_all-range (suc k) (e ∷ es) s h =
    let first : e.run_sequence ≡ suc s.sequence = ground arith in
    let rest =
      write_all-range k es (record s { sequence = e.run_sequence; written = s.written ++ e ∷ [] })
        (ground arith) in
    (
      rest.0 ∙ omega (arith, first),
      rest.1
          ∙ ap (λ ns. ns ++ range e.run_sequence k) (map-append s.written (e ∷ []))
          ∙ append_assoc (map event_sequence s.written) (e.run_sequence ∷ [])
              (range e.run_sequence k)
          ∙ ap (λ m. map event_sequence s.written ++ m ∷ range m k) first,
      rest.2,
    )

drain-open :
    (id : ℕ) (db : Db) (s : Stream)
    → s.closed ≡ false
    → drain id db s ≡ write_all (batch id s.sequence db) s
unfolding drain
drain-open id db s alive = ap (λ b. if b then s else write_all (batch id s.sequence db) s) alive

-- A drain of an open connection sends the next events of the run, at most 500 of them, in order.
drain-next :
    {log : List TraceEvent}
    → (id : ℕ) (db : Db) (s : Stream) → IsConsistent (settled log) db
    → s.closed ≡ false
    → ((drain id db s).sequence ≡ s.sequence + size_of id db s)
      × (map event_sequence (drain id db s).written
          ≡ map event_sequence s.written ++ range s.sequence (size_of id db s))
      × ((drain id db s).closed ≡ false)
drain-next id db s h alive =
    let sent =
      write_all-range (size_of id db s) (batch id s.sequence db) s
        (batch-range id s.sequence db h) in
    rw (drain-open id db s alive) (sent.0, sent.1, sent.2 ∙ alive)

-- The event is one of the run, from the log of one of the databases.
abbrev pub IsLogged : ℕ → List Db → TraceEvent → Type 0
IsLogged id dbs e = (e.run_id ≡ id) × ((db : Db) × Among db dbs × Among e db.events)

batch-IsLogged :
    (id s : ℕ) (db : Db) (dbs : List Db) → Among db dbs → All (IsLogged id dbs) (batch id s db)
unfolding batch
batch-IsLogged id s db dbs known =
    All-mono _ (IsLogged id dbs) _ (λ e h. (ground (arith, h.0), (db, known, h.1)))
      (take-All _ 500 _ (
        sort_by-All event_sequence _ _ (
          filter-All (λ e. Among e db.events)
            (λ (e : TraceEvent). e.run_id == id && ltb s e.run_sequence) db.events
            (Among-All db.events))))

write_all-All :
    (P : TraceEvent → Type 0) (es : List TraceEvent) (s : Stream)
    → All P es
    → All P s.written
    → All P (write_all es s).written
unfolding write_all
write_all-All P [] s new old = old
write_all-All P (e ∷ es) s new old =
    write_all-All P es (record s { sequence = e.run_sequence; written = s.written ++ e ∷ [] }) new.1
      (All-append P s.written (e ∷ []) old (new.0, tt))

-- What the connection of run `id`, whose queries read the databases `dbs`, has sent since it was opened at
-- `start`.
pub record IsReplay (id : ℕ) (dbs : List Db) (start : ℕ) (s : Stream) : Type 0 where
  pub ahead : start ≤ s.sequence
  pub in_order : map event_sequence s.written ≡ range start (s.sequence - start)
  pub logged : All (IsLogged id dbs) s.written

drain-IsReplay :
    {log : List TraceEvent}
    → (start id : ℕ) (db : Db) (dbs : List Db) (s : Stream) → IsConsistent (settled log) db
    → Among db dbs
    → s.closed ≡ false
    → IsReplay id dbs start s
    → IsReplay id dbs start (drain id db s)
drain-IsReplay start id db dbs s h known alive r =
    let next = drain-next id db s h alive in
    record {
      ahead = omega (arith, r.ahead, next.0);
      in_order =
          next.1
          ∙ ap (λ ns. ns ++ range s.sequence (size_of id db s)) r.in_order
          ∙ ap (λ n. range start (s.sequence - start) ++ range n (size_of id db s))
              (omega (arith, r.ahead))
          ∙ range-append start (s.sequence - start) (size_of id db s)
          ∙ range-eq start start _ _ refl (omega (arith, r.ahead, next.0));
      logged = rw (drain-open id db s alive) (
          write_all-All (IsLogged id dbs) (batch id s.sequence db) s
            (batch-IsLogged id s.sequence db dbs known) r.logged);
    }

drained-IsReplay :
    (start id : ℕ) (all dbs : List Db) (s : Stream)
    → All (λ db. IsConsistent (settled []) db) dbs
    → All (λ db. Among db all) dbs
    → s.closed ≡ false
    → IsReplay id all start s
    → IsReplay id all start (drain_all id dbs s)
unfolding drain_all
drained-IsReplay start id all [] s h known alive r = r
drained-IsReplay start id all (db ∷ dbs) s h known alive r =
    drained-IsReplay start id all dbs (drain id db s) h.1 known.1 (drain-next id db s h.0 alive).2
      (drain-IsReplay start id db all s h.0 known.0 alive r)

-- An open connection that was opened at `start` has at every time been sent events that are all of its run
-- and all from the log of a database that one of its queries read, with the sequences `start + 1`,
-- `start + 2`, …, up to its own sequence: each once, in order, without gaps. The database may change between
-- two drains, and is consistent at each.
pub drain_all-IsReplay :
    (start id : ℕ) (dbs : List Db) (s : Stream)
    → All (λ db. IsConsistent (settled []) db) dbs
    → s.closed ≡ false
    → IsReplay id dbs start s
    → IsReplay id dbs start (drain_all id dbs s)
drain_all-IsReplay start id dbs s h alive r =
    drained-IsReplay start id dbs dbs s h (Among-All dbs) alive r

-- Enough drains reach every event: after `k` drains the connection has passed sequence `n`, where each
-- of the databases has `n` events of the run and `500 * k` covers those that were missing.
pub drain_all-reaches :
    (n id : ℕ) (dbs : List Db) (s : Stream)
    → All (λ db. IsConsistent (settled []) db × (n ≤ last_of id db)) dbs
    → s.closed ≡ false
    → n ≤ s.sequence + 500 * length dbs
    → n ≤ (drain_all id dbs s).sequence
unfolding drain_all
drain_all-reaches n id [] s h alive enough = omega arith
drain_all-reaches n id (db ∷ dbs) s h alive enough =
    let next = drain-next id db s h.0.0 alive in
    drain_all-reaches n id dbs (drain id db s) h.1 next.2 (ground (arith, next.0))
