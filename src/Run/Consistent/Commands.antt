-- ===== src/Run/Consistent/Commands.antt =====
-- The invariant under the requests of workers in run-control.service.ts and under budget.service.ts.
use Prim.Native.String.{String}
use agent_reliability_platfo.Base.{List, ℕ, ◌≡◌, refl, Bool, true, Option, none, some, ◌∷◌}
use agent_reliability_platfo.Shared.Enums.{run_status_enum}
use agent_reliability_platfo.Store.Rows.{TraceEvent, Phase, Payload, EnvironmentVersion, BudgetCall}
use agent_reliability_platfo.Store.Tx.{gets, alter, pure, ◌>>◌}
use agent_reliability_platfo.Store.Keeps.{
  Keeps, Keeps-alter, Keeps-pure, Keeps-then, Keeps-bind, Keeps-gets,
}
use agent_reliability_platfo.Run.Budget.{reserve, settle, record_usage}
use agent_reliability_platfo.Run.Worker.{
  control_event, lease, set_phase, upsert_environment, set_environment,
}
use agent_reliability_platfo.Run.Consistent.Defs.{Ghost, settled, IsConsistent}
use agent_reliability_platfo.Run.Consistent.Events.{is_still}
use agent_reliability_platfo.Run.Consistent.Writes.{unrelated}
use agent_reliability_platfo.Run.Consistent.Attempts.{transitions}
use agent_reliability_platfo.Run.Consistent.Endings.{store_artifact-IsConsistent}

control_event-IsConsistent :
    {g : Ghost}
    → (id : ℕ) (payload : Payload) (now : ℕ) → is_still payload ≡ true
    → Keeps (IsConsistent g) (control_event id payload now)
unfolding control_event
control_event-IsConsistent id payload now fair = search transitions

lease-IsConsistent :
    {log : List TraceEvent}
    → (attempt_id : ℕ) (token : Option ℕ) (check_time : Bool) (now : ℕ)
    → Keeps (IsConsistent (settled log)) (lease attempt_id token check_time now)
unfolding lease
lease-IsConsistent attempt_id token check_time now = search transitions depth 8

pub set_phase-IsConsistent :
    {log : List TraceEvent}
    → (attempt_id : ℕ) (token : Option ℕ) (phase : Phase) (detail : Option String) (now : ℕ)
    → Keeps (IsConsistent (settled log)) (set_phase attempt_id token phase detail now)
unfolding set_phase
set_phase-IsConsistent attempt_id token phase detail now =
    search
      (transitions, lease-IsConsistent, store_artifact-IsConsistent, control_event-IsConsistent)
      depth 10

upsert_environment-IsConsistent :
    {log : List TraceEvent}
    → (e : EnvironmentVersion) → Keeps (IsConsistent (settled log)) (upsert_environment e)
unfolding upsert_environment
upsert_environment-IsConsistent e = Keeps-bind (gets _) _ (Keeps-gets _) split
  where
    split :
        {log : List TraceEvent}
        → (known : Option EnvironmentVersion)
        → Keeps (IsConsistent (settled log)) (elim known [
          | some old ↦ pure old
          | none ↦ alter (λ db. record db { environments = e ∷ db.environments }) >> pure e
        ])
    split (some old) = Keeps-pure old
    split none =
        Keeps-then _ _ (Keeps-alter _ (λ db h. unrelated {db = db} refl refl refl h)) (Keeps-pure e)

pub set_environment-IsConsistent :
    {past : List TraceEvent}
    → (attempt_id : ℕ) (token : Option ℕ) (fingerprint image : ℕ) (log : String) (now : ℕ)
    → Keeps
        (IsConsistent (settled past))
        (set_environment attempt_id token fingerprint image log now)
unfolding set_environment
set_environment-IsConsistent attempt_id token fingerprint image log now =
    search (transitions, lease-IsConsistent, upsert_environment-IsConsistent) depth 10

record_usage-IsConsistent :
    {log : List TraceEvent}
    → (run_id : ℕ) (call : BudgetCall) (used : Option ℕ)
    → Keeps (IsConsistent (settled log)) (record_usage run_id call used)
unfolding record_usage
record_usage-IsConsistent run_id call used =
    Keeps-then _ _ (Keeps-alter _ (λ db h. unrelated {db = db} refl refl refl h))
      (search transitions)

pub reserve-IsConsistent :
    {log : List TraceEvent}
    → (run_id attempt_id : ℕ) (token : Option ℕ) (id amount now : ℕ)
    → Keeps (IsConsistent (settled log)) (reserve run_id attempt_id token id amount now)
unfolding reserve
reserve-IsConsistent run_id attempt_id token id amount now = search transitions depth 16

pub settle-IsConsistent :
    {log : List TraceEvent}
    → (run_id id : ℕ) (used : Option ℕ) → Keeps (IsConsistent (settled log)) (settle run_id id used)
unfolding settle
settle-IsConsistent run_id id used = search (transitions, record_usage-IsConsistent) depth 10
