-- ===== src/Run/Requests.antt =====
-- apps/control-plane/src/modules/internal/internal.controller.ts: what the worker's requests add to the services:
-- they look at the lease first, outside the transaction. A body that is not of its schema is `none`.
use Prim.Native.String.{String}
use agent_reliability_platfo.Base.{
  ℕ, Bool, true, false, not, ◌&&◌, ◌||◌, Option, none, some, List, ◌==◌,
}
use agent_reliability_platfo.Shared.Enums.{AttemptStatus, RunStatus, ◌===◌, attempt_status_enum}
use agent_reliability_platfo.Store.Table.{find}
use agent_reliability_platfo.Store.Rows.{Attempt, Run, CheckpointInput, Db}
use agent_reliability_platfo.Store.Tx.{Tx, ok, err, ◌>>=◌, ◌>>◌, or_raise, raise_if, bad_request}
use agent_reliability_platfo.Store.Queries.{run_key, attempt_key}
use agent_reliability_platfo.Run.Commands.{Fixture}
use agent_reliability_platfo.Run.Claim.{heartbeat}
use agent_reliability_platfo.Run.Complete.{Report, Outcome, complete_attempt, is_lapsed}
use agent_reliability_platfo.Run.Checkpoints.{save_checkpoint, is_executing}
use agent_reliability_platfo.Run.Worker.{lease}

-- The lease, on the database that is read before.
unfoldable pub lease_of : Db → ℕ → Option ℕ → ℕ → Tx (Attempt × Run)
lease_of seen attempt_id token now db = elim (lease attempt_id token true now seen) [
  | ok held _ ↦ ok held db
  | err e ↦ err e
]

-- `heartbeat`
unfoldable pub request_heartbeat : Db → ℕ → Option ℕ → ℕ → ℕ → Tx ℕ
unfolding lease_of
request_heartbeat seen id token ttl now = do lease_of seen id token now; heartbeat id ttl now

-- `complete`. The attempt is read again between the lease and the transaction (`read`).
unfoldable pub request_complete :
    Db
    → Db
    → List Fixture
    → (String → ℕ)
    → ℕ
    → Option ℕ
    → Option (Outcome × Report)
    → ℕ
    → ℕ
    → Tx (AttemptStatus × RunStatus)
unfolding lease_of
request_complete seen read fixtures sha256 id token body approval_id now = do
  lease_of seen id token now
  sent ← or_raise body (bad_request "body")
  complete_attempt read fixtures sha256 id sent.0 sent.1 approval_id now

-- `saveCheckpoint`
unfoldable pub request_checkpoint : Db → ℕ → Option ℕ → Option CheckpointInput → ℕ → ℕ → Tx ℕ
unfolding lease_of
request_checkpoint seen run_id token body id now = do
  input ← or_raise body (bad_request "body")
  held ← lease_of seen input.attempt_id token now
  raise_if (not (held.0.run_id == run_id) || not (held.1.base_commit == input.base_commit))
      (bad_request "Checkpoint mismatch")
  save_checkpoint run_id input id now

abbrev holds_now : Option Run → Attempt → ℕ → Bool
holds_now none a now = false
holds_now (some r) a now =
    a.status === AttemptStatus.running
    && not (is_lapsed a.lease_expires_at now)
    && is_executing r.status

-- `active`
unfoldable pub is_active : ℕ → ℕ → Db → Bool
is_active id now db = elim (find attempt_key id db.attempts) [
  | none ↦ false
  | some a ↦ holds_now (find run_key a.run_id db.runs) a now
]
