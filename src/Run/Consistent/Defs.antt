-- ===== src/Run/Consistent/Defs.antt =====
-- The invariant of the runs' records: event logs without gaps, attempts numbered in order and within
-- their maximum, transitions that the state machine allows, and statuses that the logs tell.
use native.Mathlib.Numerals.{towards_suc}
use agent_reliability_platfo.Base.{
  ◌⊎◌, ◌+◌, ℕ, zero, suc, ◌≤◌, ◌≡◌, refl, ap, ◌∙◌, Bool, true, ◌&&◌, ◌||◌, Option, none, some, List,
  [], ◌∷◌, ◌++◌, arith, ◌==◌, length, All, if◌then◌else◌, max, length-append,
}
use agent_reliability_platfo.Shared.Enums.{RunStatus, ◌===◌, run_status_enum}
use agent_reliability_platfo.StateMachine.{run_transitions, can_transition}
use agent_reliability_platfo.Store.Table.{find}
use agent_reliability_platfo.Store.Rows.{Run, Attempt, Payload, run_moved, TraceEvent, Db}
use agent_reliability_platfo.Store.Queries.{run_key, latest_no}

-- The sequences of a run's events, the oldest first.
unfoldable pub sequences : ℕ → List TraceEvent → List ℕ
sequences id [] = []
sequences id (e ∷ es) =
    let rest = sequences id es in if e.run_id == id then e.run_sequence ∷ rest else rest

-- The numbers of a run's attempts, the oldest first.
unfoldable pub numbers : ℕ → List Attempt → List ℕ
numbers id [] = []
numbers id (a ∷ rest) =
    let others = numbers id rest in if a.run_id == id then a.no ∷ others else others

-- 1, 2, …, n
unfoldable pub count_up : ℕ → List ℕ
count_up zero = []
count_up (suc n) = count_up n ++ (suc n) ∷ []

pub count_up-next : (n : ℕ) → count_up (n + 1) ≡ count_up n ++ (n + 1) ∷ []
unfolding count_up
count_up-next n = simp towards_suc

abbrev pub last_sequence_of : Option Run → ℕ
last_sequence_of none = 0
last_sequence_of (some r) = r.last_sequence

abbrev pub max_attempts_of : Option Run → ℕ
max_attempts_of none = 0
max_attempts_of (some r) = r.max_attempts

-- A change of status by the table, or the resumption of an interrupted run by a person.
abbrev pub is_lawful : Payload → Bool
is_lawful (run_moved from to) =
    can_transition run_transitions from to
    || from === RunStatus.interrupted && to === RunStatus.dispatched
is_lawful _ = true

-- The changes of a run's status that are recorded as such, the oldest first.
abbrev pub Move : Type 0
Move = RunStatus × RunStatus

abbrev pub moved : Payload → List Move → List Move
moved (run_moved from to) rest = (from, to) ∷ rest
moved _ rest = rest

unfoldable pub moves : ℕ → List TraceEvent → List Move
moves id [] = []
moves id (e ∷ es) = let rest = moves id es in if e.run_id == id then moved e.payload rest else rest

-- The status that changes lead to, each from where the one before it led.
unfoldable pub replay : RunStatus → List Move → Option RunStatus
replay s [] = some s
replay s (m ∷ ms) = let rest = replay m.1 ms in if s === m.0 then rest else none

-- The status is where the changes of its run lead from that of a new run: `PENDING` where the run was
-- created with its task, `DISPATCHED` where a draft was confirmed.
abbrev pub Follows : List Move → RunStatus → Type 0
Follows ms s = (replay RunStatus.pending ms ≡ some s) ⊎ (replay RunStatus.dispatched ms ≡ some s)

-- The status of a run that there is follows its changes, and those of no run are none.
abbrev pub Traced : List Move → Option Run → Type 0
Traced ms none = ms ≡ []
Traced ms (some r) = Follows ms r.status

-- What the invariant is relative to: a log that the events continue, and a change of the status of a run
-- that a transaction has made and not yet recorded.
pub record Ghost : Type 0 where
  pub log : List TraceEvent
  pub promise : Option (ℕ × Move)

abbrev pub settled : List TraceEvent → Ghost
settled log = record { log = log; promise = none }

abbrev pub promising : List TraceEvent → ℕ → RunStatus → RunStatus → Ghost
promising log id from to = record { log = log; promise = some (id, (from, to)) }

abbrev pub promised : ℕ → Option (ℕ × Move) → List Move
promised id none = []
promised id (some (j, m)) = if j == id then m ∷ [] else []

abbrev pub trail : Ghost → ℕ → List TraceEvent → List Move
trail g id events = moves id events ++ promised id g.promise

pub record IsConsistent (g : Ghost) (db : Db) : Type 0 where
  pub logged :
      (id : ℕ) → sequences id db.events ≡ count_up (last_sequence_of (find run_key id db.runs))
  pub numbered : (id : ℕ) → numbers id db.attempts ≡ count_up (length (numbers id db.attempts))
  pub bounded :
      (id : ℕ) → length (numbers id db.attempts) ≤ max_attempts_of (find run_key id db.runs)
  pub lawful : All (λ (e : TraceEvent). is_lawful e.payload ≡ true) db.events
  pub traced : (id : ℕ) → Traced (trail g id db.events) (find run_key id db.runs)
  -- the events behind those of the log
  pub later : List TraceEvent
  pub continued : db.events ≡ g.log ++ later

pub sequences-append :
    (id : ℕ) (es : List TraceEvent) (e : TraceEvent)
    → sequences id (es ++ e ∷ [])
      ≡ (if e.run_id == id then sequences id es ++ e.run_sequence ∷ [] else sequences id es)
unfolding sequences
sequences-append id [] e = ground arith
sequences-append id (x ∷ es) e = ground (arith, sequences-append id es e)

pub numbers-append :
    (id : ℕ) (rest : List Attempt) (a : Attempt)
    → numbers id (rest ++ a ∷ [])
      ≡ (if a.run_id == id then numbers id rest ++ a.no ∷ [] else numbers id rest)
unfolding numbers
numbers-append id [] a = ground arith
numbers-append id (x ∷ rest) a = ground (arith, numbers-append id rest a)

pub length-count_up : (n : ℕ) → length (count_up n) ≡ n
unfolding count_up
length-count_up zero = refl
length-count_up (suc n) = omega (arith, length-append (count_up n) (suc n ∷ []), length-count_up n)

abbrev maximum : List ℕ → ℕ
maximum [] = 0
maximum (n ∷ ns) = max n (maximum ns)

latest_no-eq-maximum :
    (id : ℕ) (rest : List Attempt) → latest_no id rest ≡ maximum (numbers id rest)
unfolding latest_no numbers
latest_no-eq-maximum id [] = refl
latest_no-eq-maximum id (a ∷ rest) = ground (arith, latest_no-eq-maximum id rest)

maximum-append : (ns : List ℕ) (n : ℕ) → maximum (ns ++ n ∷ []) ≡ max (maximum ns) n
maximum-append [] n = omega arith
maximum-append (m ∷ ns) n = omega (arith, maximum-append ns n)

maximum-count_up : (n : ℕ) → maximum (count_up n) ≡ n
unfolding count_up
maximum-count_up zero = refl
maximum-count_up (suc n) = omega (arith, maximum-append (count_up n) (suc n), maximum-count_up n)

-- Where the attempts are numbered in order, the highest number is how many there are.
pub latest_no-eq-length :
    (id : ℕ) (rest : List Attempt)
    → numbers id rest ≡ count_up (length (numbers id rest))
    → latest_no id rest ≡ length (numbers id rest)
latest_no-eq-length id rest h =
    latest_no-eq-maximum id rest ∙ ap maximum h ∙ maximum-count_up (length (numbers id rest))
