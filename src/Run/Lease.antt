-- ===== src/Run/Lease.antt =====
-- What the lease of a worker shows: `lease` of run-control.service.ts lets a request pass only with
-- the token of a running attempt, in its time, on a run that executes; and it changes nothing.
use agent_reliability_platfo.Base.{
  ℕ, ◌+◌, ◌-◌, ◌*◌, ◌<◌, ◌≡◌, ◌↔◌, ◌⊎◌, refl, Bool, true, false, ◌&&◌, Option, none, some, arith,
  Option-cases, inl, inr, subst,
}
use agent_reliability_platfo.Shared.Enums.{AttemptStatus, RunStatus, ◌===◌, attempt_status_enum}
use agent_reliability_platfo.Store.Table.{find}
use agent_reliability_platfo.Store.Rows.{Attempt, Run, Db}
use agent_reliability_platfo.Store.Tx.{
  Tx, Result, ok, err, ◌>>=◌, ◌>>◌, pure, gets, or_raise, raise_if,
}
use agent_reliability_platfo.Store.Keeps.{Holds, Leads}
use agent_reliability_platfo.Store.Queries.{run_key, attempt_key, find_run, find_attempt}
use agent_reliability_platfo.Run.Clock.{has_passed}
use agent_reliability_platfo.Run.Budget.{elapsed_ms}
use agent_reliability_platfo.Run.Complete.{is_lapsed}
use agent_reliability_platfo.Run.Checkpoints.{is_executing}
use agent_reliability_platfo.Run.Worker.{presents, out_of_time, lease}

-- The time of a run is not over: it has less than its budget behind it if its clock runs, and its deadline, if
-- it has one, is still to come.
abbrev pub IsBefore : Option ℕ → ℕ → Type 0
IsBefore none now = Unit {0}
IsBefore (some t) now = now < t

abbrev pub IsInBudget : Run → ℕ → Option ℕ → Type 0
IsInBudget run now none = Unit {0}
IsInBudget run now (some started) =
    run.used_seconds * 1000 + (now - started) < run.budget_seconds * 1000

abbrev pub IsInTime : Bool → Run → ℕ → Type 0
IsInTime false run now = Unit {0}
IsInTime true run now = IsBefore run.deadline_at now × IsInBudget run now run.active_started_at

pub record IsLeased (attempt_id : ℕ) (token : Option ℕ) (check_time : Bool) (now : ℕ) (db : Db)
    (held : Attempt × Run) : Type 0 where
  pub attempt_found : find attempt_key attempt_id db.attempts ≡ some held.0
  pub run_found : find run_key held.0.run_id db.runs ≡ some held.1
  pub presented : ℕ
  pub token_presented : token ≡ some presented
  pub token_matches : held.0.lease_token ≡ some presented
  pub attempt_running : held.0.status ≡ AttemptStatus.running
  pub lease_end : ℕ
  pub lease_expires : held.0.lease_expires_at ≡ some lease_end
  pub unlapsed : now < lease_end
  pub executing : (held.1.status ≡ RunStatus.running) ⊎ (held.1.status ≡ RunStatus.verifying)
  pub in_time : IsInTime check_time held.1 now

attempt_running-eq :
    (s : AttemptStatus) → (s === AttemptStatus.running) ≡ true → s ≡ AttemptStatus.running
attempt_running-eq s h = ground arith

executing-eq :
    (s : RunStatus) → is_executing s ≡ true → (s ≡ RunStatus.running) ⊎ (s ≡ RunStatus.verifying)
executing-eq s h = ground arith

eq-executing :
    (s : RunStatus) → (s ≡ RunStatus.running) ⊎ (s ≡ RunStatus.verifying) → is_executing s ≡ true
eq-executing s (inl h) = rw h refl
eq-executing s (inr h) = rw h refl

deadline-IsBefore :
    (deadline : Option ℕ) (now : ℕ) → has_passed deadline now ≡ false → IsBefore deadline now
deadline-IsBefore none now h = tt
deadline-IsBefore (some t) now h = ground arith

before-deadline :
    (deadline : Option ℕ) (now : ℕ) → IsBefore deadline now → has_passed deadline now ≡ false
before-deadline none now h = refl
before-deadline (some t) now h = ground arith

token_of :
    (token lease : Option ℕ)
    → presents token lease ≡ true
    → (t : ℕ) × (token ≡ some t) × (lease ≡ some t)
token_of none lease h = ground arith
token_of (some t) none h = ground arith
token_of (some t) (some u) h = (t, refl, ground arith)

end_of :
    (lease : Option ℕ) (now : ℕ)
    → is_lapsed lease now ≡ false
    → (t : ℕ) × (lease ≡ some t) × (now < t)
end_of none now h = ground arith
end_of (some t) now h = (t, refl, ground arith)

module _ (run : Run) (now : ℕ) where
  time-IsInTime : (check : Bool) → check && out_of_time run now ≡ false → IsInTime check run now
  unfolding out_of_time elapsed_ms
  time-IsInTime false h = tt
  time-IsInTime true h = (
    deadline-IsBefore run.deadline_at now (ground arith),
    elim (Option-cases run.active_started_at) [
      | inl e ↦ rw e tt
      | inr (started, e) ↦ rw e (ground arith)
    ],
  )

  in_time-out_of_time :
      (check : Bool) → IsInTime check run now → check && out_of_time run now ≡ false
  unfolding out_of_time elapsed_ms
  in_time-out_of_time false h = refl
  in_time-out_of_time true h = elim (Option-cases run.active_started_at) [
    | inl e ↦ ground (arith, before-deadline run.deadline_at now h.0)
    | inr (started, e) ↦
        let spent = subst (λ o. IsInBudget run now o) e h.1 in
        ground (arith, before-deadline run.deadline_at now h.0)
  ]

module _ (attempt_id : ℕ) (token : Option ℕ) (check_time : Bool) (now : ℕ) (db : Db) where
  -- The checks of a lease on the rows that they read.
  guards-IsLeased :
      (a : Attempt) (r : Run)
      → find attempt_key attempt_id db.attempts ≡ some a
      → find run_key a.run_id db.runs ≡ some r
      → presents token a.lease_token ≡ true
      → (a.status === AttemptStatus.running) ≡ true
      → is_lapsed a.lease_expires_at now ≡ false
      → is_executing r.status ≡ true
      → check_time && out_of_time r now ≡ false
      → IsLeased attempt_id token check_time now db (a, r)
  guards-IsLeased a r found run_found t s l e o =
      let (presented, asked, kept) = token_of token a.lease_token t in
      let (lease_end, lasts, unlapsed) = end_of a.lease_expires_at now l in
      record {
        attempt_found = found;
        run_found = run_found;
        presented = presented;
        token_presented = asked;
        token_matches = kept;
        attempt_running = attempt_running-eq a.status s;
        lease_end = lease_end;
        lease_expires = lasts;
        unlapsed = unlapsed;
        executing = executing-eq r.status e;
        in_time = time-IsInTime r now check_time o;
      }

  -- Where the check of a lease lets a request pass, the database is as it was.
  pub lease-IsLeased :
      (db' : Db) (held : Attempt × Run)
      → lease attempt_id token check_time now db ≡ ok held db'
      → (db' ≡ db) × IsLeased attempt_id token check_time now db held
  unfolding lease find_attempt find_run gets or_raise raise_if pure ◌>>=◌ ◌>>◌
  lease-IsLeased db' held h = elim (Option-cases (find attempt_key attempt_id db.attempts)) [
    | inl missing ↦ ground arith
    | inr (a, found) ↦ elim (Option-cases (find run_key a.run_id db.runs)) [
      | inl missing ↦ ground arith
      | inr (r, run_found) ↦ ground (arith, guards-IsLeased a r found run_found)
    ]
  ]

  leased-lease :
      (held : Attempt × Run)
      → IsLeased attempt_id token check_time now db held
      → lease attempt_id token check_time now db ≡ ok held db
  unfolding lease find_attempt find_run gets or_raise raise_if pure ◌>>=◌ ◌>>◌
  leased-lease held h = ground (
    arith,
    h.attempt_found,
    h.run_found,
    h.token_presented,
    h.token_matches,
    h.attempt_running,
    h.lease_expires,
    h.unlapsed,
    eq-executing held.1.status h.executing,
    in_time-out_of_time held.1 now check_time h.in_time,
  )

-- The check of a lease lets a request pass, with the attempt of that id and its run, and without a change,
-- exactly if the request presents the token of the attempt, which is running and whose lease ends later
-- than now, and the run is running or verifying; where the time is checked, also only before the deadline
-- of the run, if it has one, and while its clock, if it runs, shows less than the budget.
pub lease_iff :
    (attempt_id : ℕ) (token : Option ℕ) (check_time : Bool) (now : ℕ) (db : Db)
    (held : Attempt × Run)
    → (lease attempt_id token check_time now db ≡ ok held db)
      ↔ IsLeased attempt_id token check_time now db held
lease_iff attempt_id token check_time now db held = (
  λ h. (lease-IsLeased attempt_id token check_time now db db held h).1,
  leased-lease attempt_id token check_time now db held,
)

-- What follows a lease may use what it shows.
pub Leads-leased :
    {B : Type 0} {P Q : Db → Type 0} (attempt_id : ℕ) (token : Option ℕ) (check_time : Bool)
    (now : ℕ) (k : Attempt × Run → Tx B)
    → ((held : Attempt × Run)
        → is_executing held.1.status ≡ true
        → Leads (λ db. P db × (find run_key held.0.run_id db.runs ≡ some held.1)) Q (k held))
    → Leads P Q (lease attempt_id token check_time now >>= k)
unfolding ◌>>=◌
Leads-leased {B} {P} {Q} attempt_id token check_time now k lead = record {
  at = λ db h. settle db h (lease attempt_id token check_time now db) refl;
}
  where
    settle :
        (db : Db) (h : P db) (r : Result (Attempt × Run))
        → lease attempt_id token check_time now db ≡ r
        → Holds Q (elim r [ ok held db' ↦ k held db' | err e ↦ err e ])
    settle db h (err e) q = tt
    settle db h (ok held db') q =
        let (same, leased) = lease-IsLeased attempt_id token check_time now db db' held q in
        rw same
          ((lead held (eq-executing held.1.status leased.executing)).at db (h, leased.run_found))
