-- ===== src/Run/Consistent/Final.antt =====
-- What the invariant says of a run over time: its status is what its log tells, and a run that has ended
-- stays as it ended.
use Prim.Native.String.{String}
use mathlib.Core.List.{append-nil}
use agent_reliability_platfo.Base.{
  inl, inr, ℕ, ◌≡◌, refl, sym, ap, ◌∙◌, true, false, Option, none, some, List, [], ◌∷◌, ◌++◌, arith,
  ◌==◌, Bool-cases, All,
}
use agent_reliability_platfo.Shared.Enums.{RunStatus, ◌===◌, run_status_enum}
use agent_reliability_platfo.StateMachine.{run_transitions, can_transition, is_terminal}
use agent_reliability_platfo.Store.Table.{find}
use agent_reliability_platfo.Store.Rows.{Run, Payload, run_moved, TraceEvent, Db}
use agent_reliability_platfo.Store.Examples.{empty}
use agent_reliability_platfo.Store.Queries.{run_key}
use agent_reliability_platfo.Run.Commands.{Fixture}
use agent_reliability_platfo.Run.Operations.{Operation, perform_all}
use agent_reliability_platfo.Run.Consistent.Defs.{
  sequences, numbers, count_up, Move, moved, moves, replay, Follows, Traced, settled, is_lawful,
  IsConsistent,
}
use agent_reliability_platfo.Run.Consistent.Histories.{perform_all-IsConsistent}

empty-IsConsistent : IsConsistent (settled []) empty
unfolding sequences numbers count_up moves find
empty-IsConsistent = record {
  logged = λ id. refl;
  numbered = λ id. refl;
  bounded = λ id. omega arith;
  lawful = tt;
  traced = λ id. refl;
  later = [];
  continued = refl;
}

module _ (fixtures : List Fixture) (sha256 : String → ℕ) where
  -- After every history of operations from the empty database, the log of a run tells its status: the
  -- changes of status in the log lead from `PENDING` or `DISPATCHED`, each from where the one before it
  -- led, to the status of the run; and the log has no changes of a run that does not exist.
  pub replay-status :
      (os : List Operation) (id : ℕ)
      → Traced
          (moves id (perform_all fixtures sha256 os empty).events)
          (find run_key id (perform_all fixtures sha256 os empty).runs)
  replay-status os id =
      rw append-nil at
        ((perform_all-IsConsistent fixtures sha256 os empty empty-IsConsistent).traced id)

-- From here on: histories that start in a consistent database, and the events they add.
moves-append_all :
    (id : ℕ) (es fs : List TraceEvent) → moves id (es ++ fs) ≡ moves id es ++ moves id fs
unfolding moves
moves-append_all id [] fs = refl
moves-append_all id (e ∷ es) fs = ground (arith, moves-append_all id es fs)

-- Changes of a run that the log allows.
abbrev AreLawful : List Move → Type 0
AreLawful ms = All (λ (m : Move). is_lawful (run_moved m.0 m.1) ≡ true) ms

moved-AreLawful :
    (p : Payload) (ms : List Move) → is_lawful p ≡ true → AreLawful ms → AreLawful (moved p ms)
moved-AreLawful p ms fair rest = ground arith

moves-AreLawful :
    (id : ℕ) (es : List TraceEvent)
    → All (λ (e : TraceEvent). is_lawful e.payload ≡ true) es
    → AreLawful (moves id es)
unfolding moves
moves-AreLawful id [] h = tt
moves-AreLawful id (e ∷ es) h = elim (Bool-cases (e.run_id == id)) [
  | inl mine ↦ rw mine (moved-AreLawful e.payload (moves id es) h.0 (moves-AreLawful id es h.1))
  | inr other ↦ rw other (moves-AreLawful id es h.1)
]

-- A terminal status is left by no change.
left_by_none :
    (s a b : RunStatus)
    → is_terminal run_transitions s ≡ true
    → (s === a) ≡ true
    → is_lawful (run_moved a b) ≡ true
    → false ≡ true
unfolding is_terminal can_transition run_transitions
left_by_none s a b ended same fair = ground arith

later-AreLawful : (ms ns : List Move) → AreLawful (ms ++ ns) → AreLawful ns
later-AreLawful [] ns h = h
later-AreLawful (m ∷ ms) ns h = later-AreLawful ms ns h.1

replay-append_all :
    (s u : RunStatus) (ms ns : List Move) → replay s ms ≡ some u → replay s (ms ++ ns) ≡ replay u ns
unfolding replay
replay-append_all s u [] ns led = ground arith
replay-append_all s u (m ∷ ms) ns led = ground (arith, replay-append_all m.1 u ms ns)

-- Changes that lead on from a status that others have reached; where the log starts does not matter.
led_on :
    (p q s t : RunStatus) (ms ns : List Move)
    → is_terminal run_transitions p ≡ false
    → is_terminal run_transitions s ≡ true
    → replay p ms ≡ some s
    → replay q (ms ++ ns) ≡ some t
    → replay s ns ≡ some t
unfolding replay
led_on p q s t [] ns alive ended led all = ground arith
led_on p q s t (m ∷ ms) ns alive ended led all = ground (arith, replay-append_all m.1 s ms ns)

-- No change leads on from a terminal status.
stays :
    (s t : RunStatus) (ns : List Move)
    → is_terminal run_transitions s ≡ true
    → AreLawful ns
    → replay s ns ≡ some t
    → s ≡ t
unfolding replay
stays s t [] ended fair led = ground arith
stays s t (n ∷ ns) ended fair led = ground (arith, left_by_none s n.0 n.1)

new_run_alive : (s : RunStatus) → Follows [] s → is_terminal run_transitions s ≡ false
unfolding replay is_terminal run_transitions
new_run_alive s (inl pending) = ground arith
new_run_alive s (inr dispatched) = ground arith

pending_alive : is_terminal run_transitions RunStatus.pending ≡ false
unfolding is_terminal run_transitions
pending_alive = refl

dispatched_alive : is_terminal run_transitions RunStatus.dispatched ≡ false
unfolding is_terminal run_transitions
dispatched_alive = refl

-- The run of a log that goes on behind a terminal status.
kept_status :
    (s t : RunStatus) (ms ns : List Move)
    → is_terminal run_transitions s ≡ true
    → AreLawful ns
    → Follows ms s
    → Follows (ms ++ ns) t
    → s ≡ t
kept_status s t ms ns ended fair (inl led) (inl all) =
    stays s t ns ended fair
      (led_on RunStatus.pending RunStatus.pending s t ms ns pending_alive ended led all)
kept_status s t ms ns ended fair (inl led) (inr all) =
    stays s t ns ended fair
      (led_on RunStatus.pending RunStatus.dispatched s t ms ns pending_alive ended led all)
kept_status s t ms ns ended fair (inr led) (inl all) =
    stays s t ns ended fair
      (led_on RunStatus.dispatched RunStatus.pending s t ms ns dispatched_alive ended led all)
kept_status s t ms ns ended fair (inr led) (inr all) =
    stays s t ns ended fair
      (led_on RunStatus.dispatched RunStatus.dispatched s t ms ns dispatched_alive ended led all)

abbrev pub run_status : Option Run → Option RunStatus
run_status none = none
run_status (some r) = some r.status

kept_run :
    (s : RunStatus) (o : Option Run) (ms ns : List Move)
    → is_terminal run_transitions s ≡ true
    → AreLawful ns
    → Follows ms s
    → Traced (ms ++ ns) o
    → run_status o ≡ some s
kept_run s (some r) ms ns ended fair led all =
    ap some (sym (kept_status s r.status ms ns ended fair led all))
kept_run s none [] ns ended fair led all = ground (arith, new_run_alive s led)
kept_run s none (m ∷ ms) ns ended fair led all = ground arith

-- The invariant may be taken anew, with the log as it stands.
renewed :
    {log : List TraceEvent} (db : Db)
    → IsConsistent (settled log) db
    → IsConsistent (settled db.events) db
renewed db h = record {
  logged = h.logged;
  numbered = h.numbered;
  bounded = h.bounded;
  lawful = h.lawful;
  traced = h.traced;
  later = [];
  continued = sym (append-nil db.events);
}

module _ (fixtures : List Fixture) (sha256 : String → ℕ) where
  -- A run with a terminal status, in a consistent database, has that status after every history of
  -- operations: claims, late reports, expired leases, commands of people, reported events, approvals and
  -- deliveries do not change it.
  pub perform_all-ended :
      {log : List TraceEvent} (os : List Operation) (db : Db) (id : ℕ) (r : Run)
      → IsConsistent (settled log) db
      → find run_key id db.runs ≡ some r
      → is_terminal run_transitions r.status ≡ true
      → run_status (find run_key id (perform_all fixtures sha256 os db).runs) ≡ some r.status
  perform_all-ended os db id r h found ended =
      let g = perform_all-IsConsistent fixtures sha256 os db (renewed db h) in
      let split = ap (moves id) g.continued ∙ moves-append_all id db.events g.later in
      kept_run r.status _ (moves id db.events) (moves id g.later) ended
        (later-AreLawful (moves id db.events) _ (rw split at (moves-AreLawful id _ g.lawful)))
        (rw found at (rw append-nil at (h.traced id)))
        (rw split at (rw append-nil at (g.traced id)))
