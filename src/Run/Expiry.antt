-- ===== src/Run/Expiry.antt =====
-- run-lifecycle.service.ts, `handleLeaseExpired`, and modules/dispatch/lease-monitor.ts: attempts
-- whose worker is lost.
use agent_reliability_platfo.Base.{
  ℕ, Bool, false, ◌&&◌, Option, none, some, List, [], ◌∷◌, leb, ltb, if◌then◌else◌, filter, take,
  length,
}
use agent_reliability_platfo.Shared.Enums.{AttemptStatus, FailureCode}
use agent_reliability_platfo.Store.Table.{find}
use agent_reliability_platfo.Store.Rows.{Run, Attempt, Db}
use agent_reliability_platfo.Store.Tx.{
  Tx, pure, ◌>>=◌, ◌>>◌, gets, or_raise, record_missing, Error, ok, err,
}
use agent_reliability_platfo.Store.Queries.{run_key, attempt_key, update_attempt, is_live}
use agent_reliability_platfo.Run.Commands.{Fixture}
use agent_reliability_platfo.Run.Complete.{interrupt}
use agent_reliability_platfo.Run.Recovery.{apply_policy}

-- `leaseExpiresAt: { lte: now }`; a missing date is not below.
abbrev pub lease_over : Option ℕ → ℕ → Bool
lease_over none now = false
lease_over (some t) now = leb t now

abbrev pub is_expired : ℕ → Option Attempt → Bool
is_expired now none = false
is_expired now (some a) = is_live a.status && lease_over a.lease_expires_at now

-- The rest of the transaction, once the attempt is marked.
unfoldable pub expire : List Fixture → Attempt → Run → ℕ → Tx (Unit {0})
expire fixtures attempt seen now = do
  update_attempt attempt.id (λ a. record a {
    status = AttemptStatus.lease_expired;
    failure_code = some FailureCode.worker_lost;
    ended_at = some now;
  })
  interrupt seen now
  apply_policy fixtures seen.id attempt.id attempt.no FailureCode.worker_lost now

-- The transaction of `handleLeaseExpired`: only an attempt that is still live and over is marked.
unfoldable pub expire_tx : List Fixture → Attempt → Run → ℕ → Tx (Unit {0})
expire_tx fixtures attempt seen now = do
  current ← gets (λ db. find attempt_key attempt.id db.attempts)
  if is_expired now current then expire fixtures attempt seen now else pure tt

unfoldable pub expire_read : Db → List Fixture → Option Attempt → ℕ → Tx (Unit {0})
expire_read seen fixtures none now = pure tt
expire_read seen fixtures (some attempt) now =
    if is_live attempt.status
    then (or_raise (find run_key attempt.run_id seen.runs) record_missing >>= λ run.
        expire_tx fixtures attempt run now)
    else pure tt

-- `handleLeaseExpired`. `seen` is the database at the read before the transaction.
unfoldable pub handle_lease_expired : Db → List Fixture → ℕ → ℕ → Tx (Unit {0})
unfolding expire_read
handle_lease_expired seen fixtures attempt_id now =
    expire_read seen fixtures (find attempt_key attempt_id seen.attempts) now

-- The monitor's query: at most 20 live attempts whose lease ended before now.
abbrev is_overdue : ℕ → Option ℕ → Bool
is_overdue now none = false
is_overdue now (some t) = ltb t now

unfoldable pub overdue : ℕ → List Attempt → List Attempt
overdue now attempts =
    take 20 (filter (λ a. is_live a.status && is_overdue now a.lease_expires_at) attempts)

-- One transaction after another; each reads the database that the one before it left. An exception
-- ends the tick, and the attempts behind it wait for the next one.
unfoldable pub expire_all : List Fixture → List Attempt → ℕ → Db → Db × Option Error
expire_all fixtures [] now db = (db, none)
expire_all fixtures (a ∷ rest) now db = elim (handle_lease_expired db fixtures a.id now db) [
  | ok _ db' ↦ expire_all fixtures rest now db'
  | err e ↦ (db, some e)
]

-- `LeaseMonitor.tick`, where no earlier tick is still running: the number of attempts found, or the
-- exception.
unfoldable pub monitor_tick : List Fixture → ℕ → Db → Db × ℕ × Option Error
unfolding overdue expire_all
monitor_tick fixtures now db =
    let expired = overdue now db.attempts in
    let (db', failure) = expire_all fixtures expired now db in (db', length expired, failure)
