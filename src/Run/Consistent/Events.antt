-- ===== src/Run/Consistent/Events.antt =====
-- The invariant under a new event and a transition.
use mathlib.Core.Option
use mathlib.Core.List.{append_assoc, append-nil}
use agent_reliability_platfo.Base.{
  ℕ, ◌+◌, ◌≡◌, refl, sym, Bool, true, false, Option, none, some, List, [], ◌∷◌, ◌++◌, arith, ◌==◌,
  All-append, if◌then◌else◌, Option-cases, inl, inr, Bool-cases, ==_iff, ==_refl,
}
use agent_reliability_platfo.Shared.Enums.{
  TaskStatus, TraceEventType, run_status_enum, task_status_enum,
}
use agent_reliability_platfo.StateMachine.{
  Entity, allowed, invalid_transition, task_transitions, assert_transition,
}
use agent_reliability_platfo.Store.Table.{find, modify, find-modify}
use agent_reliability_platfo.Store.Rows.{Run, Payload, run_moved, TraceEvent, Db}
use agent_reliability_platfo.Store.Tx.{
  ◌>>=◌, ◌>>◌, pure, raise, gets, alter, or_raise, raise_if, invalid_task_transition,
}
use agent_reliability_platfo.Store.Keeps.{
  Leads, Keeps-Leads, Keeps, Keeps-pure, Keeps-raise, keeps_rules,
}
use agent_reliability_platfo.Store.Queries.{run_key, find_run, update_run, insert_event}
use agent_reliability_platfo.Run.Transition.{
  synthetic_event, append_synthetic_event, assert_task_transition, transition_task,
}
use agent_reliability_platfo.Run.Consistent.Defs.{
  sequences, count_up, Ghost, moved, moves, trail, last_sequence_of, max_attempts_of, is_lawful,
  Ghost, IsConsistent, sequences-append,
}
use agent_reliability_platfo.Run.Consistent.Writes.{writes, Traced-map}
use agent_reliability_platfo.Run.Consistent.Defs.{count_up-next}

abbrev pub bump : Run → Run
bump r = record r { last_sequence = r.last_sequence + 1 }

pub not_equal : (a b : ℕ) → (a == b) ≡ false → (b == a) ≡ false
not_equal a b h = ground arith

-- The log of each run, with the event in the log of the one that it belongs to.
log_after :
    (j id : ℕ) (o : Option Run) (r : Run) (log : List ℕ) (s : ℕ)
    → (j ≡ id → o ≡ some r)
    → s ≡ r.last_sequence + 1
    → log ≡ count_up (last_sequence_of o)
    → (if id == j then log ++ s ∷ [] else log)
      ≡ count_up (last_sequence_of (if j == id then Option.map bump o else o))
log_after j id o r log s here next h = elim (Bool-cases (j == id)) [
  | inl same ↦
      (let e : j ≡ id = (==_iff j id).0 same in
        rw (same, e, ==_refl id, here e, next, h)
          (rw (here e) (sym (count_up-next r.last_sequence))))
  | inr other ↦ rw (other, not_equal j id other) h
]

max_attempts-bump :
    (b : Bool) (o : Option Run)
    → max_attempts_of (if b then Option.map bump o else o) ≡ max_attempts_of o
max_attempts-bump true none = refl
max_attempts-bump true (some r) = refl
max_attempts-bump false o = refl

-- A payload that records no change of a run's status.
abbrev pub is_still : Payload → Bool
is_still (run_moved from to) = false
is_still _ = true

still-lawful : (p : Payload) → is_still p ≡ true → is_lawful p ≡ true
still-lawful p h = ground arith

pub moves-append :
    (j : ℕ) (es : List TraceEvent) (e : TraceEvent)
    → moves j (es ++ e ∷ []) ≡ moves j es ++ (if e.run_id == j then moved e.payload [] else [])
unfolding moves
moves-append j [] e = ground arith
moves-append j (x ∷ es) e = ground (arith, moves-append j es e)

moved-still : (p : Payload) → is_still p ≡ true → moved p [] ≡ []
moved-still p h = ground arith

-- An event that records no change leaves the trails as they are.
pub trail-still :
    (g : Ghost) (j : ℕ) (es : List TraceEvent) (e : TraceEvent)
    → is_still e.payload ≡ true
    → trail g j (es ++ e ∷ []) ≡ trail g j es
trail-still g j es e still = elim (Bool-cases (e.run_id == j)) [
  | inl mine ↦ rw (moves-append j es e, mine, moved-still e.payload still, append-nil)
  | inr other ↦ rw (moves-append j es e, other, append-nil)
]

-- The run after its sequence is incremented, and the event that carries it.
pub logged_event :
    {g g' : Ghost} (id : ℕ) (e : TraceEvent) (r : Run) (db : Db)
    → find run_key id db.runs ≡ some r
    → e.run_id ≡ id
    → e.run_sequence ≡ r.last_sequence + 1
    → is_lawful e.payload ≡ true
    → g'.log ≡ g.log
    → ((j : ℕ) → trail g' j (db.events ++ e ∷ []) ≡ trail g j db.events)
    → IsConsistent g db
    → IsConsistent g'
        (record db { runs = modify run_key id bump db.runs; events = db.events ++ e ∷ [] })
logged_event {g} id e r db found of_run next fair same_log same h = record {
  logged = λ j.
      rw (find-modify run_key j id bump db.runs (λ q. refl), sequences-append j db.events e, of_run)
        (log_after j id (find run_key j db.runs) r (sequences j db.events) e.run_sequence
          (λ eq. rw eq found) next (h.logged j));
  numbered = h.numbered;
  bounded = λ j.
      rw
        (
          find-modify run_key j id bump db.runs (λ q. refl),
          max_attempts-bump (j == id) (find run_key j db.runs),
        )
        (h.bounded j);
  lawful = All-append _ db.events (e ∷ []) h.lawful (fair, tt);
  traced = λ j.
      rw (find-modify run_key j id bump db.runs (λ q. refl), same j)
        (Traced-map bump (j == id) (find run_key j db.runs) (trail g j db.events) (λ q. refl)
          (h.traced j));
  later = h.later ++ e ∷ [];
  continued = rw (h.continued, same_log) (append_assoc g.log h.later (e ∷ []));
}

-- Appending an event to the log of its run.
pub appended :
    {g g' : Ghost} (id : ℕ) (kind : TraceEventType) (payload : Payload) (attempt_id : Option ℕ)
    (now : ℕ)
    → is_lawful payload ≡ true
    → g'.log ≡ g.log
    → ((j s : ℕ) (es : List TraceEvent)
        → trail g' j (es ++ synthetic_event id kind payload attempt_id now s ∷ []) ≡ trail g j es)
    → Leads
        (IsConsistent g)
        (IsConsistent g')
        (append_synthetic_event id kind payload attempt_id now)
unfolding append_synthetic_event update_run find_run insert_event gets or_raise raise_if alter ◌>>=◌
    ◌>>◌
appended id kind payload attempt_id now fair same_log same = record {
  at = λ db h. elim (Option-cases (find run_key id db.runs)) [
    | inl missing ↦ ground arith
    | inr (r, found) ↦ ground (
      arith,
      find-modify run_key id id bump db.runs (λ q. refl),
      logged_event id (synthetic_event id kind payload attempt_id now (r.last_sequence + 1)) r db
          found refl refl fair same_log (λ j. same j (r.last_sequence + 1) db.events) h,
    )
  ];
}

pub append_synthetic_event-IsConsistent :
    {g : Ghost} (id : ℕ) (kind : TraceEventType) (payload : Payload) (attempt_id : Option ℕ)
    (now : ℕ)
    → is_still payload ≡ true
    → Keeps (IsConsistent g) (append_synthetic_event id kind payload attempt_id now)
append_synthetic_event-IsConsistent {g} id kind payload attempt_id now still = Keeps-Leads (
    appended id kind payload attempt_id now (still-lawful payload still) refl
      (λ j s es. trail-still g j es (synthetic_event id kind payload attempt_id now s) still))

pub asserted_task :
    {P : Db → Type 0} (from to : TaskStatus) → Keeps P (assert_task_transition from to)
unfolding assert_task_transition
asserted_task {P} from to =
    elim (assert_transition task_transitions Entity.task from to)
      as (λ a. Keeps P (elim a [
        | allowed _ ↦ pure tt
        | invalid_transition _ x y ↦ raise (invalid_task_transition x y)
      ])) [
        | allowed _ ↦ Keeps-pure tt
        | invalid_transition _ x y ↦ Keeps-raise (invalid_task_transition x y)
      ]

pub transition_task-IsConsistent :
    {g : Ghost}
    → (id : ℕ) (from to : TaskStatus) → Keeps (IsConsistent g) (transition_task id from to)
unfolding transition_task
transition_task-IsConsistent id from to = search (keeps_rules, writes, asserted_task)
