-- ===== src/Run/Worker.antt =====
-- apps/control-plane/src/modules/run/run-control.service.ts: the requests of a worker that holds a
-- lease: the phase of its run, and the environment that the run is pinned to.
use Prim.Native.String.{String}
use agent_reliability_platfo.Base.{
  ℕ, ◌*◌, Bool, true, false, not, ◌&&◌, ◌||◌, Option, none, some, ◌∷◌, ◌==◌, leb, is_some,
}
use agent_reliability_platfo.Shared.Enums.{
  AttemptStatus, ArtifactKind, state_transition, ◌===◌, run_status_enum, attempt_status_enum,
}
use agent_reliability_platfo.Store.Table.{find}
use agent_reliability_platfo.Store.Rows.{
  Phase, Run, Attempt, Payload, phase_moved, EnvironmentVersion,
}
use agent_reliability_platfo.Store.Tx.{Tx, pure, ◌>>=◌, ◌>>◌, gets, alter, raise_if, conflict}
use agent_reliability_platfo.Store.Queries.{find_run, find_attempt, update_run}
use agent_reliability_platfo.Run.Clock.{has_passed}
use agent_reliability_platfo.Run.Transition.{append_synthetic_event}
use agent_reliability_platfo.Run.Complete.{is_lapsed, store_artifact}
use agent_reliability_platfo.Run.Checkpoints.{is_executing}
use agent_reliability_platfo.Run.Budget.{same_token, elapsed_ms}

-- `event`
unfoldable pub control_event : ℕ → Payload → ℕ → Tx (Unit {0})
unfolding append_synthetic_event
control_event run_id payload now = append_synthetic_event run_id state_transition payload none now

-- `!token || token !== attempt.leaseToken`, the negation of this; an empty header is none.
abbrev pub presents : Option ℕ → Option ℕ → Bool
presents none token = false
presents (some t) token = same_token token t

-- The execution time is over, or the deadline has passed.
unfoldable pub out_of_time : Run → ℕ → Bool
out_of_time run now =
    has_passed run.deadline_at now
    || is_some run.active_started_at && leb (run.budget_seconds * 1000) (elapsed_ms run now)

-- `lease`: the attempt and its run, if the token is that of a running attempt in its time.
unfoldable pub lease : ℕ → Option ℕ → Bool → ℕ → Tx (Attempt × Run)
lease attempt_id token check_time now = do
  attempt ← find_attempt attempt_id
  run ← find_run attempt.run_id
  raise_if
      (not (presents token attempt.lease_token)
        || not (attempt.status === AttemptStatus.running)
        || is_lapsed attempt.lease_expires_at now
        || not (is_executing run.status))
      (conflict "Lease expired or task stopped")
  raise_if (check_time && out_of_time run now) (conflict "Task execution time exhausted")
  pure (attempt, run)

-- `phase`; the detail is JSON text.
unfoldable pub phase_file : Phase → String
phase_file Phase.queued = "queued.json"
phase_file Phase.preparing = "preparing.json"
phase_file Phase.reproducing = "reproducing.json"
phase_file Phase.repairing = "repairing.json"
phase_file Phase.verifying = "verifying.json"
phase_file Phase.baseline = "baseline.json"
phase_file Phase.needs_attention = "needs_attention.json"
phase_file Phase.awaiting_approval = "awaiting_approval.json"
phase_file Phase.failed = "failed.json"
phase_file Phase.cancelled = "cancelled.json"

unfoldable pub set_phase : ℕ → Option ℕ → Phase → Option String → ℕ → Tx Phase
unfolding phase_file
set_phase attempt_id token phase detail now = do
  owner ← find_attempt attempt_id
  held ← lease attempt_id token true now
  update_run held.0.run_id (λ r. record r { phase = phase })
  store_artifact held.0.run_id attempt_id ArtifactKind.test_report (phase_file phase) detail
  control_event held.0.run_id (phase_moved held.1.phase phase) now
  pure phase

-- `environment`: the image of a run is pinned by its first use, and so is that of a fingerprint.
abbrev other_image : Option ℕ → ℕ → Bool
other_image none image = false
other_image (some i) image = not (i == image)

abbrev environment_key : EnvironmentVersion → ℕ
environment_key e = e.fingerprint

-- `upsert` with an empty update.
unfoldable pub upsert_environment : EnvironmentVersion → Tx EnvironmentVersion
upsert_environment e = do
  known ← gets (λ db. find environment_key e.fingerprint db.environments)
  elim known [
    | some old ↦ pure old
    | none ↦ (alter (λ db. record db { environments = e ∷ db.environments }) >> pure e)
  ]

unfoldable pub set_environment : ℕ → Option ℕ → ℕ → ℕ → String → ℕ → Tx EnvironmentVersion
set_environment attempt_id token fingerprint image log now = do
  owner ← find_attempt attempt_id
  held ← lease attempt_id token true now
  raise_if (other_image held.1.image_id image) (conflict "Pinned environment image changed")
  environment ←
      upsert_environment (record { fingerprint = fingerprint; image_id = image; log = log })
  raise_if (not (environment.image_id == image))
      (conflict "Environment fingerprint resolved to a different image")
  update_run held.0.run_id
      (λ r. record r { environment_id = some environment.fingerprint; image_id = some image })
  pure environment
