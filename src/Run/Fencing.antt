-- ===== src/Run/Fencing.antt =====
-- Lost and late workers: what of a worker's requests is fenced by the attempt that it acts for.
use Prim.Native.String.{String}
use agent_reliability_platfo.Base.{
  ℕ, ◌≡◌, refl, Bool, true, false, not, ◌&&◌, Option, none, some, List, [], ◌∷◌, arith, any, ◌==◌,
  Option-cases, inl, inr, is_some,
}
use agent_reliability_platfo.Shared.Enums.{attempt_status_enum, run_status_enum}
use agent_reliability_platfo.Store.Table.{find, find-key, first_where}
use agent_reliability_platfo.Store.Rows.{Attempt, Run, CheckpointInput, Db}
use agent_reliability_platfo.Store.Tx.{Tx, commit, pure, ◌>>=◌, ◌>>◌, gets, or_raise, raise_if}
use agent_reliability_platfo.Store.Queries.{
  run_key, attempt_key, task_key, is_live, find_attempt, find_run, find_task,
}
use agent_reliability_platfo.Run.Commands.{Fixture}
use agent_reliability_platfo.Run.Claim.{heartbeat}
use agent_reliability_platfo.Run.Complete.{
  Report, Outcome, succeeded, failed, complete_attempt, end_tx, succeed_tx, fail_tx,
}
use agent_reliability_platfo.Run.Checkpoints.{save_checkpoint}
use agent_reliability_platfo.Run.Budget.{reserve, holds_lease}
use agent_reliability_platfo.Run.Worker.{lease, set_phase, set_environment}
use agent_reliability_platfo.Run.Control.{pause}
use agent_reliability_platfo.Run.Operations.{Operation, perform}

-- The attempt that a fenced operation of a worker acts for. The code does not fence the events that a
-- worker sends, the settlement of a call, nor the evidence that it hands in late.
abbrev pub attempt_of : Operation → Option ℕ
attempt_of (Operation.renewal attempt_id ttl now) = some attempt_id
attempt_of (Operation.completion seen attempt_id outcome report id now) = some attempt_id
attempt_of (Operation.checkpoint run_id input id now) = some input.attempt_id
attempt_of (Operation.reservation run_id attempt_id token id amount now) = some attempt_id
attempt_of (Operation.phase_report attempt_id token phase detail now) = some attempt_id
attempt_of (Operation.environment_report attempt_id token fingerprint image log now) =
    some attempt_id
attempt_of (Operation.worker_pause attempt_id token reason patch now) = some attempt_id
attempt_of _ = none

-- No attempt with this id holds a lease.
abbrev pub is_dead : ℕ → Db → Bool
is_dead id db = not (any (λ (a : Attempt). a.id == id && is_live a.status) db.attempts)

abbrev not_running : Option Attempt → Bool
not_running none = true
not_running (some a) = not (is_live a.status)

find-dead :
    (id : ℕ) (rest : List Attempt)
    → not (any (λ (a : Attempt). a.id == id && is_live a.status) rest) ≡ true
    → not_running (find attempt_key id rest) ≡ true
unfolding find
find-dead id [] h = refl
find-dead id (a ∷ rest) h = ground (arith, find-dead id rest)

holds_lease-dead :
    (run_id id : ℕ) (token : Option ℕ) (now : ℕ) (rest : List Attempt)
    → not (any (λ (a : Attempt). a.id == id && is_live a.status) rest) ≡ true
    → first_where (holds_lease run_id id token now) rest ≡ none
unfolding first_where
holds_lease-dead run_id id token now [] h = refl
holds_lease-dead run_id id token now (a ∷ rest) h =
    ground (arith, holds_lease-dead run_id id token now rest)

module _ (id : ℕ) (db : Db) (dead : is_dead id db ≡ true) where
  lease-dead :
      (token : Option ℕ) (check_time : Bool) (now : ℕ) {B : Type 0} (k : Attempt × Run → Tx B)
      → commit (find_attempt id >>= λ owner. lease id token check_time now >>= k) db ≡ db
  unfolding commit lease find_attempt find_run gets or_raise raise_if pure ◌>>=◌ ◌>>◌
  lease-dead token check_time now k = elim (Option-cases (find attempt_key id db.attempts)) [
    | inl missing ↦ ground arith
    | inr (a, found) ↦ elim (Option-cases (find run_key a.run_id db.runs)) [
      | inl missing ↦ ground arith
      | inr (r, run_found) ↦ ground (arith, find-dead id db.attempts)
    ]
  ]

  heartbeat-dead : (ttl now : ℕ) → commit (heartbeat id ttl now) db ≡ db
  unfolding commit heartbeat gets raise_if ◌>>=◌ ◌>>◌
  heartbeat-dead ttl now = ground (arith, find-dead id db.attempts)

  save_checkpoint-dead :
      (run_id : ℕ) (input : CheckpointInput) (new now : ℕ)
      → input.attempt_id ≡ id
      → commit (save_checkpoint run_id input new now) db ≡ db
  unfolding commit save_checkpoint find_attempt find_run find_task gets or_raise raise_if ◌>>=◌ ◌>>◌
  save_checkpoint-dead run_id input new now same =
      elim (Option-cases (find run_key run_id db.runs)) [
        | inl missing ↦ ground arith
        | inr (r, run_found) ↦ elim (Option-cases (find task_key r.task_id db.tasks)) [
          | inl missing ↦ ground arith
          | inr (t, task_found) ↦ elim (Option-cases (find attempt_key id db.attempts)) [
            | inl missing ↦ ground arith
            | inr (a, found) ↦ ground (arith, find-dead id db.attempts)
          ]
        ]
      ]

  reserve-dead :
      (run_id : ℕ) (token : Option ℕ) (call amount now : ℕ)
      → commit (reserve run_id id token call amount now) db ≡ db
  unfolding commit reserve find_run gets or_raise raise_if ◌>>=◌ ◌>>◌
  reserve-dead run_id token call amount now = elim (Option-cases (find run_key run_id db.runs)) [
    | inl missing ↦ ground arith
    | inr (r, run_found) ↦ ground (arith, holds_lease-dead run_id id token now db.attempts dead)
  ]

  end_tx-dead :
      (fixtures : List Fixture) (sha256 : String → ℕ) (attempt : Attempt) (seen : Run)
      (snapshot : Bool) (outcome : Outcome) (report : Report) (new now : ℕ)
      → attempt.id ≡ id
      → commit (end_tx fixtures sha256 attempt seen snapshot outcome report new now) db ≡ db
  unfolding commit end_tx succeed_tx fail_tx find_attempt gets or_raise raise_if ◌>>=◌ ◌>>◌
  end_tx-dead fixtures sha256 attempt seen snapshot succeeded report new now same =
      elim (Option-cases (find attempt_key attempt.id db.attempts)) [
        | inl missing ↦ ground arith
        | inr (a, found) ↦ ground (arith, find-dead id db.attempts)
      ]
  end_tx-dead fixtures sha256 attempt seen snapshot (failed code) report new now same =
      elim (Option-cases (find attempt_key attempt.id db.attempts)) [
        | inl missing ↦ ground arith
        | inr (a, found) ↦ ground (arith, find-dead id db.attempts)
      ]

  complete_attempt-dead :
      (seen : Db) (fixtures : List Fixture) (sha256 : String → ℕ) (outcome : Outcome)
      (report : Report) (new now : ℕ)
      → commit (complete_attempt seen fixtures sha256 id outcome report new now) db ≡ db
  unfolding commit complete_attempt or_raise pure ◌>>=◌
  complete_attempt-dead seen fixtures sha256 outcome report new now =
      elim (Option-cases (find attempt_key id seen.attempts)) [
        | inl missing ↦ ground arith
        | inr (a, found) ↦ elim (Option-cases (find run_key a.run_id seen.runs)) [
          | inl missing ↦ ground arith
          | inr (r, run_found) ↦ elim (Option-cases (find task_key r.task_id seen.tasks)) [
            | inl missing ↦ ground arith
            | inr (t, task_found) ↦ ground (
              arith,
              find-key attempt_key id seen.attempts a found,
              end_tx-dead fixtures sha256 a r (is_some t.snapshot) outcome report new now,
            )
          ]
        ]
      ]

-- The operation is one of the fenced ones, for an attempt that holds no lease.
abbrev pub is_fenced : Operation → Db → Bool
is_fenced o db = elim (attempt_of o) [ none ↦ false | some id ↦ is_dead id db ]

-- Fencing: a heartbeat, a completion, a checkpoint, a reservation of tokens, a report of a phase or of an
-- environment, and a worker's pause leave the database as it was where their attempt is not live, whatever
-- the operation had read before its transaction, and at every time. Events, settlements and late evidence
-- are not among these operations.
pub perform-fenced :
    (fixtures : List Fixture) (sha256 : String → ℕ) (o : Operation) (db : Db)
    → is_fenced o db ≡ true
    → perform fixtures sha256 o db ≡ db
unfolding perform set_phase set_environment pause
perform-fenced fixtures sha256 (Operation.renewal id ttl now) db dead =
    heartbeat-dead id db dead ttl now
perform-fenced fixtures sha256 (Operation.completion seen id outcome report new now) db dead =
    complete_attempt-dead id db dead seen fixtures sha256 outcome report new now
perform-fenced fixtures sha256 (Operation.checkpoint run_id input new now) db dead =
    save_checkpoint-dead input.attempt_id db dead run_id input new now refl
perform-fenced fixtures sha256 (Operation.reservation run_id id token call amount now) db dead =
    reserve-dead id db dead run_id token call amount now
perform-fenced fixtures sha256 (Operation.phase_report id token phase detail now) db dead =
    lease-dead id db dead token true now _
perform-fenced fixtures sha256 (Operation.environment_report id token f image log now) db dead =
    lease-dead id db dead token true now _
perform-fenced fixtures sha256 (Operation.worker_pause id token reason patch now) db dead =
    lease-dead id db dead token false now _
perform-fenced fixtures sha256 (Operation.claim seen input id token ttl now) db dead = cc
perform-fenced fixtures sha256 (Operation.lease_expiry seen id now) db dead = cc
perform-fenced fixtures sha256 (Operation.monitoring now) db dead = cc
perform-fenced fixtures sha256 (Operation.settlement run_id id used) db dead = cc
perform-fenced fixtures sha256 (Operation.user_pause seen run_id now) db dead = cc
perform-fenced fixtures sha256 (Operation.cancellation run_id now) db dead = cc
perform-fenced fixtures sha256 (Operation.grant id reviewer new now) db dead = cc
perform-fenced fixtures sha256 (Operation.refusal id reviewer now) db dead = cc
perform-fenced fixtures sha256 (Operation.redelivery seen id) db dead = cc
perform-fenced fixtures sha256 (Operation.job_claim seen token now) db dead = cc
perform-fenced fixtures sha256 (Operation.job_renewal id token now) db dead = cc
perform-fenced fixtures sha256 (Operation.job_end job token end) db dead = cc
perform-fenced fixtures sha256 (Operation.job_loss job now) db dead = cc
perform-fenced fixtures sha256 (Operation.resumption run_id now) db dead = cc
perform-fenced fixtures sha256 (Operation.ingestion seen entry) db dead = cc
perform-fenced fixtures sha256 (Operation.creation demo resolve git_error input ids now) db dead =
    cc
perform-fenced fixtures sha256
      (Operation.confirmation seen digest_of head_of has_commit input task_id run_id now) db dead =
    cc
