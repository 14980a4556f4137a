-- ===== src/Run/Consistent/Writes.antt =====
-- The invariant under each call on one table.
use mathlib.Core.Option
use agent_reliability_platfo.Base.{
  ℕ, ◌≡◌, refl, Bool, true, false, Option, none, some, List, [], ◌∷◌, arith, ◌==◌, if◌then◌else◌,
}
use agent_reliability_platfo.Store.Table.{find, modify, modify_where, find-modify}
use agent_reliability_platfo.Store.Rows.{
  Task, Run, Attempt, Checkpoint, Artifact, VerificationResult, PolicyDecision, Approval,
  OutboxMessage, BudgetCall, Db,
}
use agent_reliability_platfo.Store.Tx.{gets, raise_if}
use agent_reliability_platfo.Store.Keeps.{
  Keeps, Keeps-alter, Keeps-then, Keeps-bind, Keeps-gets, Keeps-raise_if, keeps_rules,
}
use agent_reliability_platfo.Store.Queries.{
  run_key, attempt_key, find_project, find_task, find_run, find_attempt, update_task, update_run,
  update_attempt, insert_checkpoint, insert_artifact, insert_verification, insert_decision,
  insert_approval, insert_message, insert_call,
}
use agent_reliability_platfo.Run.Consistent.Defs.{
  numbers, Move, Traced, trail, last_sequence_of, max_attempts_of, Ghost, IsConsistent,
}

-- Reads.
module _ {P : Db → Type 0} (id : ℕ) where
  pub find_project-Keeps : Keeps P (find_project id)
  unfolding find_project
  find_project-Keeps = search keeps_rules

  pub find_task-Keeps : Keeps P (find_task id)
  unfolding find_task
  find_task-Keeps = search keeps_rules

  pub find_run-Keeps : Keeps P (find_run id)
  unfolding find_run
  find_run-Keeps = search keeps_rules

  pub find_attempt-Keeps : Keeps P (find_attempt id)
  unfolding find_attempt
  find_attempt-Keeps = search keeps_rules

pub ruleset reads = (find_project-Keeps, find_task-Keeps, find_run-Keeps, find_attempt-Keeps)

-- The invariant speaks of three tables only.
pub unrelated :
    {g : Ghost}
    → {db db' : Db} → db'.runs ≡ db.runs
    → db'.events ≡ db.events
    → db'.attempts ≡ db.attempts
    → IsConsistent g db
    → IsConsistent g db'
unrelated runs events attempts h = record {
  logged = λ id. rw (runs, events) (h.logged id);
  numbered = λ id. rw attempts (h.numbered id);
  bounded = λ id. rw (runs, attempts) (h.bounded id);
  lawful = rw events h.lawful;
  traced = λ id. rw (runs, events) (h.traced id);
  later = h.later;
  continued = rw events h.continued;
}

pub update_task-IsConsistent :
    {g : Ghost} → (id : ℕ) (f : Task → Task) → Keeps (IsConsistent g) (update_task id f)
unfolding update_task
update_task-IsConsistent id f =
    Keeps-then (find_task id) _ (find_task-Keeps id)
      (Keeps-alter _ (λ db h. unrelated {db = db} refl refl refl h))

pub insert_checkpoint-IsConsistent :
    {g : Ghost} → (c : Checkpoint) → Keeps (IsConsistent g) (insert_checkpoint c)
unfolding insert_checkpoint
insert_checkpoint-IsConsistent c = Keeps-alter _ (λ db h. unrelated {db = db} refl refl refl h)

pub insert_artifact-IsConsistent :
    {g : Ghost} → (a : Artifact) → Keeps (IsConsistent g) (insert_artifact a)
unfolding insert_artifact
insert_artifact-IsConsistent a = Keeps-alter _ (λ db h. unrelated {db = db} refl refl refl h)

pub insert_verification-IsConsistent :
    {g : Ghost} → (v : VerificationResult) → Keeps (IsConsistent g) (insert_verification v)
unfolding insert_verification
insert_verification-IsConsistent v = Keeps-alter _ (λ db h. unrelated {db = db} refl refl refl h)

pub insert_decision-IsConsistent :
    {g : Ghost} → (d : PolicyDecision) → Keeps (IsConsistent g) (insert_decision d)
unfolding insert_decision
insert_decision-IsConsistent d = Keeps-alter _ (λ db h. unrelated {db = db} refl refl refl h)

pub insert_message-IsConsistent :
    {g : Ghost} → (m : OutboxMessage) → Keeps (IsConsistent g) (insert_message m)
unfolding insert_message
insert_message-IsConsistent m = Keeps-alter _ (λ db h. unrelated {db = db} refl refl refl h)

pub insert_approval-IsConsistent :
    {g : Ghost} → (a : Approval) → Keeps (IsConsistent g) (insert_approval a)
unfolding insert_approval
insert_approval-IsConsistent a = Keeps-bind (gets _) _ (Keeps-gets _) (λ b.
    Keeps-then (raise_if b _) _ (Keeps-raise_if b _)
      (Keeps-alter _ (λ db h. unrelated {db = db} refl refl refl h)))

pub insert_call-IsConsistent :
    {g : Ghost} → (c : BudgetCall) → Keeps (IsConsistent g) (insert_call c)
unfolding insert_call
insert_call-IsConsistent c = Keeps-bind (gets _) _ (Keeps-gets _) (λ b.
    Keeps-then (raise_if b _) _ (Keeps-raise_if b _)
      (Keeps-alter _ (λ db h. unrelated {db = db} refl refl refl h)))

-- A write to a run that leaves its identifier, sequence, maximum and status alone.
abbrev pub IsMild : (Run → Run) → Type 0
IsMild f =
    (r : Run)
    → ((f r).id ≡ r.id)
      × ((f r).last_sequence ≡ r.last_sequence)
      × ((f r).max_attempts ≡ r.max_attempts)
      × ((f r).status ≡ r.status)

pub last_sequence-map :
    (f : Run → Run) (b : Bool) (o : Option Run)
    → ((r : Run) → (f r).last_sequence ≡ r.last_sequence)
    → last_sequence_of (if b then Option.map f o else o) ≡ last_sequence_of o
last_sequence-map f true none same = refl
last_sequence-map f true (some r) same = same r
last_sequence-map f false o same = refl

pub max_attempts-map :
    (f : Run → Run) (b : Bool) (o : Option Run)
    → ((r : Run) → (f r).max_attempts ≡ r.max_attempts)
    → max_attempts_of (if b then Option.map f o else o) ≡ max_attempts_of o
max_attempts-map f true none same = refl
max_attempts-map f true (some r) same = same r
max_attempts-map f false o same = refl

pub Traced-map :
    (f : Run → Run) (b : Bool) (o : Option Run) (ms : List Move)
    → ((r : Run) → (f r).status ≡ r.status)
    → Traced ms o
    → Traced ms (if b then Option.map f o else o)
Traced-map f true none ms same h = h
Traced-map f true (some r) ms same h = rw (same r) h
Traced-map f false o ms same h = h

modify_run-IsConsistent :
    {g : Ghost}
    → (id : ℕ) (f : Run → Run) (db : Db) → IsMild f
    → IsConsistent g db
    → IsConsistent g (record db { runs = modify run_key id f db.runs })
modify_run-IsConsistent {g} id f db mild h = record {
  logged = λ j.
      rw
        (
          find-modify run_key j id f db.runs (λ r. (mild r).0),
          last_sequence-map f (j == id) (find run_key j db.runs) (λ r. (mild r).1),
        )
        (h.logged j);
  numbered = h.numbered;
  bounded = λ j.
      rw
        (
          find-modify run_key j id f db.runs (λ r. (mild r).0),
          max_attempts-map f (j == id) (find run_key j db.runs) (λ r. (mild r).2),
        )
        (h.bounded j);
  lawful = h.lawful;
  traced = λ j. rw (find-modify run_key j id f db.runs (λ r. (mild r).0)) (
      Traced-map f (j == id) (find run_key j db.runs) (trail g j db.events) (λ r. (mild r).3)
        (h.traced j));
  later = h.later;
  continued = h.continued;
}

pub update_run-IsConsistent :
    {g : Ghost} → (id : ℕ) (f : Run → Run) → IsMild f → Keeps (IsConsistent g) (update_run id f)
unfolding update_run
update_run-IsConsistent id f mild =
    Keeps-then (find_run id) _ (find_run-Keeps id)
      (Keeps-alter _ (λ db h. modify_run-IsConsistent id f db mild h))

-- A write to an attempt that leaves its run and its number alone.
abbrev pub KeepsPlace : (Attempt → Attempt) → Type 0
KeepsPlace f = (a : Attempt) → ((f a).run_id ≡ a.run_id) × ((f a).no ≡ a.no)

numbers-modify :
    (j id : ℕ) (f : Attempt → Attempt) (rest : List Attempt)
    → KeepsPlace f
    → numbers j (modify attempt_key id f rest) ≡ numbers j rest
unfolding numbers modify
numbers-modify j id f [] place = refl
numbers-modify j id f (a ∷ rest) place = ground (arith, place a, numbers-modify j id f rest place)

numbers-modify_where :
    (j : ℕ) (test : Attempt → Bool) (f : Attempt → Attempt) (rest : List Attempt)
    → KeepsPlace f
    → numbers j (modify_where test f rest) ≡ numbers j rest
unfolding numbers modify_where
numbers-modify_where j test f [] place = refl
numbers-modify_where j test f (a ∷ rest) place =
    ground (arith, place a, numbers-modify_where j test f rest place)

renumbered :
    {g : Ghost}
    → (db : Db) (attempts : List Attempt) → ((j : ℕ) → numbers j attempts ≡ numbers j db.attempts)
    → IsConsistent g db
    → IsConsistent g (record db { attempts = attempts })
renumbered db attempts same h = record {
  logged = h.logged;
  numbered = λ j. rw (same j) (h.numbered j);
  bounded = λ j. rw (same j) (h.bounded j);
  lawful = h.lawful;
  traced = h.traced;
  later = h.later;
  continued = h.continued;
}

pub update_attempt-IsConsistent :
    {g : Ghost}
    → (id : ℕ) (f : Attempt → Attempt) → KeepsPlace f
    → Keeps (IsConsistent g) (update_attempt id f)
unfolding update_attempt
update_attempt-IsConsistent id f place =
    Keeps-then (find_attempt id) _ (find_attempt-Keeps id)
      (Keeps-alter _ (λ db h. renumbered db _ (λ j. numbers-modify j id f db.attempts place) h))

pub modify_where-IsConsistent :
    {g : Ghost}
    → (test : Attempt → Bool) (f : Attempt → Attempt) (db : Db) → KeepsPlace f
    → IsConsistent g db
    → IsConsistent g (record db { attempts = modify_where test f db.attempts })
modify_where-IsConsistent test f db place =
    renumbered db _ (λ j. numbers-modify_where j test f db.attempts place)

pub ruleset writes = (
  update_task-IsConsistent, insert_checkpoint-IsConsistent, insert_artifact-IsConsistent,
  insert_verification-IsConsistent, insert_decision-IsConsistent, insert_message-IsConsistent,
  insert_approval-IsConsistent, insert_call-IsConsistent, update_run-IsConsistent,
  update_attempt-IsConsistent, refl,
)
