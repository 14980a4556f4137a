-- ===== src/Run/Consistent/Attempts.antt =====
-- The invariant under a new attempt, and the rules for all that has been shown so far.
use agent_reliability_platfo.Base.{
  ℕ, ◌+◌, ◌≤◌, ◌≡◌, refl, ap, true, none, some, List, [], ◌∷◌, ◌++◌, arith, ◌==◌, length,
  Option-cases, inl, inr, Bool-cases, ==_iff, length-append,
}
use agent_reliability_platfo.Shared.Enums.{AttemptStatus, run_status_enum, task_status_enum}
use agent_reliability_platfo.Store.Table.{find}
use agent_reliability_platfo.Store.Rows.{Run, Attempt, Db}
use agent_reliability_platfo.Store.Tx.{◌>>=◌, ◌>>◌, gets, alter, or_raise, raise_if}
use agent_reliability_platfo.Store.Keeps.{
  Keeps, Keeps-bind, Keeps-gets, Keeps-then, Keeps-raise_if, Keeps-pure, Keeps-raise, keeps_rules,
}
use agent_reliability_platfo.Store.Queries.{run_key, find_run, insert_attempt, latest_no}
use agent_reliability_platfo.Run.Claim.{ClaimInput, open_attempt}
use agent_reliability_platfo.Run.Consistent.Defs.{
  numbers, count_up, Ghost, IsConsistent, numbers-append, latest_no-eq-length,
}
use agent_reliability_platfo.Run.Consistent.Writes.{reads, writes}
use agent_reliability_platfo.Run.Consistent.Defs.{count_up-next}
use agent_reliability_platfo.Run.Consistent.Events.{
  append_synthetic_event-IsConsistent, transition_task-IsConsistent,
}
use agent_reliability_platfo.Run.Consistent.Moves.{transition_run-IsConsistent}

-- The numbers of each run, with the new attempt's behind those of the run that it belongs to.
numbers_after :
    (j : ℕ) (a : Attempt) (rest : List Attempt)
    → numbers j rest ≡ count_up (length (numbers j rest))
    → a.no ≡ latest_no a.run_id rest + 1
    → numbers j (rest ++ a ∷ []) ≡ count_up (length (numbers j (rest ++ a ∷ [])))
numbers_after j a rest ordered next = elim (Bool-cases (a.run_id == j)) [
  | inl same ↦ rw (numbers-append j rest a, same) (counted same)
  | inr other ↦ rw (numbers-append j rest a, other) ordered
]
  where
    counted :
        (a.run_id == j) ≡ true
        → numbers j rest ++ a.no ∷ [] ≡ count_up (length (numbers j rest ++ a.no ∷ []))
    counted same =
        let e : a.run_id ≡ j = (==_iff a.run_id j).0 same in
        let n : a.no ≡ length (numbers j rest) + 1 =
          omega (arith, next, latest_no-eq-length j rest ordered, ap (λ k. latest_no k rest) e) in
        rw (n, length-append (numbers j rest) ((length (numbers j rest) + 1) ∷ []))
          (rw (count_up-next (length (numbers j rest)))
            (ap (λ ns. ns ++ (length (numbers j rest) + 1) ∷ []) ordered))

new_attempt :
    {g : Ghost}
    → (a : Attempt) (r : Run) (db : Db) → find run_key a.run_id db.runs ≡ some r
    → a.no ≡ latest_no a.run_id db.attempts + 1
    → a.no ≤ r.max_attempts
    → IsConsistent g db
    → IsConsistent g (record db { attempts = db.attempts ++ a ∷ [] })
new_attempt a r db found next fits h = record {
  logged = h.logged;
  numbered = λ j. numbers_after j a db.attempts (h.numbered j) next;
  bounded = λ j. elim (Bool-cases (a.run_id == j)) [
    | inl same ↦
        (let e : a.run_id ≡ j = (==_iff a.run_id j).0 same in
          rw (numbers-append j db.attempts a, same, ← e, found)
            (omega (
              arith,
              length-append (numbers a.run_id db.attempts) (a.no ∷ []),
              latest_no-eq-length a.run_id db.attempts (h.numbered a.run_id),
            )))
    | inr other ↦ rw (numbers-append j db.attempts a, other) (h.bounded j)
  ];
  lawful = h.lawful;
  traced = h.traced;
  later = h.later;
  continued = h.continued;
}

-- A new attempt is the next in the order of its run, and within its maximum.
pub open_attempt-IsConsistent :
    {g : Ghost}
    → (input : ClaimInput) (id token ttl now : ℕ)
    → Keeps (IsConsistent g) (open_attempt input id token ttl now)
unfolding open_attempt find_run insert_attempt gets or_raise raise_if alter ◌>>=◌ ◌>>◌
open_attempt-IsConsistent {g} input id token ttl now = record {
  at = λ db h. elim (Option-cases (find run_key input.run_id db.runs)) [
    | inl missing ↦ ground arith
    | inr (r, found) ↦ ground (
      arith,
      new_attempt {g = g}
          (record {
            id = id;
            run_id = input.run_id;
            no = input.attempt_no;
            worker_id = input.worker_id;
            status = AttemptStatus.running;
            failure_code = none;
            lease_token = some token;
            lease_expires_at = some (now + ttl);
            ended_at = none;
          })
          r db found,
    )
  ];
}

pub ruleset transitions = (
  keeps_rules, reads, writes, append_synthetic_event-IsConsistent, transition_run-IsConsistent,
  transition_task-IsConsistent, open_attempt-IsConsistent, refl,
)
