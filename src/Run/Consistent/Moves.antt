-- ===== src/Run/Consistent/Moves.antt =====
-- The invariant under the changes of a run's status: the write of the status promises an event, and
-- the event settles it.
use mathlib.Core.Option
use mathlib.Core.List.{append-nil}
use agent_reliability_platfo.Base.{
  ℕ, ◌≡◌, refl, true, Option, none, some, List, [], ◌∷◌, ◌++◌, arith, ◌==◌, if◌then◌else◌,
  Option-cases, inl, inr, Bool-cases, ==_iff, ==_refl,
}
use agent_reliability_platfo.Shared.Enums.{
  RunStatus, state_transition, includes, run_status_enum, ◌===◌,
}
use agent_reliability_platfo.StateMachine.{run_transitions, can_transition, assert_transition}
use agent_reliability_platfo.Store.Table.{find, modify, find-modify, find-key}
use agent_reliability_platfo.Store.Rows.{Run, run_moved, TraceEvent, Db}
use agent_reliability_platfo.Store.Tx.{
  Tx, ◌>>=◌, ◌>>◌, pure, raise, gets, alter, or_raise, raise_if,
}
use agent_reliability_platfo.Store.Keeps.{Leads, Leads-then, Keeps}
use agent_reliability_platfo.Store.Queries.{run_key, find_run, update_run}
use agent_reliability_platfo.Run.Transition.{
  synthetic_event, append_synthetic_event, assert_run_transition, transition_run,
}
use agent_reliability_platfo.Run.Worker.{control_event}
use agent_reliability_platfo.Run.Consistent.Defs.{
  settled, promising, Move, moves, replay, Follows, trail, Traced, is_lawful, IsConsistent,
}
use agent_reliability_platfo.Run.Consistent.Writes.{last_sequence-map, max_attempts-map}
use agent_reliability_platfo.Run.Consistent.Events.{not_equal, appended, moves-append}

-- One more change, from where the others led.
replay-append :
    (s u a b : RunStatus) (ms : List Move)
    → replay s ms ≡ some u
    → (u === a) ≡ true
    → replay s (ms ++ (a, b) ∷ []) ≡ some b
unfolding replay
replay-append s u a b [] led same = ground arith
replay-append s u a b (m ∷ ms) led same = ground (arith, replay-append m.1 u a b ms)

Follows-append :
    (u a b : RunStatus) (ms : List Move)
    → Follows ms u
    → (u === a) ≡ true
    → Follows (ms ++ (a, b) ∷ []) b
Follows-append u a b ms (inl led) same = inl (replay-append RunStatus.pending u a b ms led same)
Follows-append u a b ms (inr led) same = inr (replay-append RunStatus.dispatched u a b ms led same)

-- A write of a run's status that leaves the rest of what the invariant reads.
abbrev pub Moves : RunStatus → (Run → Run) → Type 0
Moves to f =
    (r : Run)
    → ((f r).id ≡ r.id)
      × ((f r).last_sequence ≡ r.last_sequence)
      × ((f r).max_attempts ≡ r.max_attempts)
      × ((f r).status ≡ to)

-- The trails after the write: that of the run has the promised change.
trail_after :
    (log : List TraceEvent) (j id : ℕ) (from to : RunStatus) (f : Run → Run) (r : Run)
    (o : Option Run) (es : List TraceEvent)
    → (j ≡ id → o ≡ some r)
    → (r.status === from) ≡ true
    → (f r).status ≡ to
    → Traced (trail (settled log) j es) o
    → Traced (trail (promising log id from to) j es) (if j == id then Option.map f o else o)
trail_after log j id from to f r o es here same now_to h = elim (Bool-cases (j == id)) [
  | inl mine ↦
      (let e : j ≡ id = (==_iff j id).0 mine in
        rw (mine, e, ==_refl id, here e, now_to)
          (Follows-append r.status from to (moves id es) (rw (here e, e) at (rw append-nil at h))
            same))
  | inr other ↦ rw (other, not_equal j id other) h
]

status_written :
    {log : List TraceEvent} (id : ℕ) (from to : RunStatus) (f : Run → Run) (r : Run) (db : Db)
    → Moves to f
    → find run_key id db.runs ≡ some r
    → (r.status === from) ≡ true
    → IsConsistent (settled log) db
    → IsConsistent (promising log id from to) (record db { runs = modify run_key id f db.runs })
status_written {log} id from to f r db move found same h = record {
  logged = λ j.
      rw
        (
          find-modify run_key j id f db.runs (λ q. (move q).0),
          last_sequence-map f (j == id) (find run_key j db.runs) (λ q. (move q).1),
        )
        (h.logged j);
  numbered = h.numbered;
  bounded = λ j.
      rw
        (
          find-modify run_key j id f db.runs (λ q. (move q).0),
          max_attempts-map f (j == id) (find run_key j db.runs) (λ q. (move q).2),
        )
        (h.bounded j);
  lawful = h.lawful;
  traced = λ j. rw (find-modify run_key j id f db.runs (λ q. (move q).0)) (
      trail_after log j id from to f r (find run_key j db.runs) db.events (λ eq. rw eq found) same
        (move r).3 (h.traced j));
  later = h.later;
  continued = h.continued;
}

-- What a transaction knows of the run whose status it is about to write.
abbrev pub Knows : List TraceEvent → ℕ → Run → Db → Type 0
Knows log id r db = IsConsistent (settled log) db × (find run_key id db.runs ≡ some r)

pub update_status :
    {log : List TraceEvent} (id : ℕ) (from to : RunStatus) (f : Run → Run) (r : Run)
    → Moves to f
    → (r.status === from) ≡ true
    → Leads (Knows log id r) (IsConsistent (promising log id from to)) (update_run id f)
unfolding update_run find_run gets or_raise alter ◌>>=◌ ◌>>◌
update_status id from to f r move same = record {
  at = λ db h.
      let found : find run_key id db.runs ≡ some r = h.1 in
      ground (arith, status_written id from to f r db move found same h.0);
}

-- The same where the write goes by the identifier of the run that was read.
pub update_known :
    {log : List TraceEvent} (id : ℕ) (from to : RunStatus) (f : Run → Run) (r : Run)
    → Moves to f
    → (r.status === from) ≡ true
    → Leads (Knows log id r) (IsConsistent (promising log r.id from to)) (update_run r.id f)
update_known id from to f r move same = record {
  at = λ db h.
      let e : r.id ≡ id = find-key run_key id db.runs r h.1 in
      (update_status r.id from to f r move same).at db (h.0, simp e h.1);
}

pub Leads-known :
    {B : Type 0} {log : List TraceEvent} {m : Tx B} (id : ℕ) (r : Run)
    → Keeps (IsConsistent (settled log)) m
    → Leads (Knows log id r) (IsConsistent (settled log)) m
Leads-known id r k = record { at = λ db h. k.at db h.0 }

-- The event that a transaction promised.
trail-settled :
    (log : List TraceEvent) (j id : ℕ) (from to : RunStatus) (now s : ℕ) (es : List TraceEvent)
    → trail
        (settled log)
        j
        (es ++ synthetic_event id state_transition (run_moved from to) none now s ∷ [])
      ≡ trail (promising log id from to) j es
trail-settled log j id from to now s es =
    rw
      (
        append-nil,
        moves-append j es (synthetic_event id state_transition (run_moved from to) none now s),
      )
      refl

pub append_move :
    {log : List TraceEvent} (id : ℕ) (from to : RunStatus) (now : ℕ)
    → is_lawful (run_moved from to) ≡ true
    → Leads
        (IsConsistent (promising log id from to))
        (IsConsistent (settled log))
        (append_synthetic_event id state_transition (run_moved from to) none now)
append_move {log} id from to now fair =
    appended id state_transition (run_moved from to) none now fair refl
      (λ j s es. trail-settled log j id from to now s es)

pub control_move :
    {log : List TraceEvent} (id : ℕ) (from to : RunStatus) (now : ℕ)
    → is_lawful (run_moved from to) ≡ true
    → Leads
        (IsConsistent (promising log id from to))
        (IsConsistent (settled log))
        (control_event id (run_moved from to) now)
unfolding control_event
control_move id from to now fair = append_move id from to now fair

-- What follows the read of a run may use that it is there.
pub Leads-run :
    {B : Type 0} {log : List TraceEvent} {Q : Db → Type 0} (id : ℕ) (k : Run → Tx B)
    → ((r : Run) → Leads (Knows log id r) Q (k r))
    → Leads (IsConsistent (settled log)) Q (find_run id >>= k)
unfolding find_run gets or_raise ◌>>=◌
Leads-run {B} {log} {Q} id k lead = record {
  at = λ db h. elim (Option-cases (find run_key id db.runs)) [
    | inl missing ↦ ground arith
    | inr (r, found) ↦ ground (arith, (lead r).at db (h, found))
  ];
}

-- What follows an assertion may use that the transition is in the table.
Keeps-asserted :
    {B : Type 0} {P : Db → Type 0} (from to : RunStatus) (k : Tx B)
    → (can_transition run_transitions from to ≡ true → Keeps P k)
    → Keeps P (assert_run_transition from to >> k)
unfolding assert_run_transition assert_transition can_transition pure raise ◌>>=◌ ◌>>◌
Keeps-asserted from to k kept = elim (Bool-cases (includes (run_transitions from) to)) [
  | inl fair ↦ record { at = λ db h. rw (fair, assert_run_transition) ((kept fair).at db h) }
  | inr wrong ↦ record { at = λ db h. rw (wrong, assert_run_transition) tt }
]

lawful_move :
    (from to : RunStatus)
    → can_transition run_transitions from to ≡ true
    → is_lawful (run_moved from to) ≡ true
lawful_move from to fair = rw fair

moved_run :
    {log : List TraceEvent} (id : ℕ) (from to : RunStatus) (now : ℕ) (r : Run)
    → can_transition run_transitions from to ≡ true
    → (r.status === from) ≡ true
    → Leads (Knows log id r) (IsConsistent (settled log)) (
        update_run id (λ q. record q { status = to })
        >> append_synthetic_event id state_transition (run_moved from to) none now)
moved_run id from to now r fair same =
    Leads-then _ _
      (update_status id from to (λ q. record q { status = to }) r (λ q. (refl, refl, refl, refl))
        same)
      (append_move id from to now (lawful_move from to fair))

pub transition_run-IsConsistent :
    {log : List TraceEvent}
    → (id : ℕ) (from to : RunStatus) (now : ℕ)
    → Keeps (IsConsistent (settled log)) (transition_run id from to now)
unfolding transition_run gets raise_if ◌>>=◌ ◌>>◌
transition_run-IsConsistent id from to now = Keeps-asserted from to _ λ fair. record {
  at = λ db h. elim (Option-cases (find run_key id db.runs)) [
    | inl missing ↦ ground arith
    | inr (r, found) ↦ elim (Bool-cases (r.status === from)) [
      | inl same ↦ ground (arith, (moved_run id from to now r fair same).at db (h, found))
      | inr other ↦ ground arith
    ]
  ];
}
