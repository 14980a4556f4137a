-- ===== src/Run/Consistent/Claims.antt =====
-- The invariant under the claims and heartbeats of run-lifecycle.service.ts.
use agent_reliability_platfo.Base.{List, ℕ, Option, none, some}
use agent_reliability_platfo.Store.Rows.{TraceEvent, Run, Attempt, Db}
use agent_reliability_platfo.Store.Keeps.{Keeps}
use agent_reliability_platfo.Run.Claim.{ClaimInput, claim_tx, claim_read, claim_attempt, heartbeat}
use agent_reliability_platfo.Run.Consistent.Defs.{settled, IsConsistent}
use agent_reliability_platfo.Run.Consistent.Attempts.{transitions}

claim_tx-IsConsistent :
    {log : List TraceEvent}
    → (run : Run) (input : ClaimInput) (id token ttl now : ℕ)
    → Keeps (IsConsistent (settled log)) (claim_tx run input id token ttl now)
unfolding claim_tx
claim_tx-IsConsistent run input id token ttl now = search transitions depth 10

pub claim_attempt-IsConsistent :
    {log : List TraceEvent}
    → (seen : Db) (input : ClaimInput) (id token ttl now : ℕ)
    → Keeps (IsConsistent (settled log)) (claim_attempt seen input id token ttl now)
unfolding claim_attempt
claim_attempt-IsConsistent seen input id token ttl now = read _ _
  where
    read :
        {log : List TraceEvent}
        → (run : Option Run) (old : Option Attempt)
        → Keeps (IsConsistent (settled log)) (claim_read run old input id token ttl now)
    read none old = search transitions
    read (some run) (some old) = search transitions
    read (some run) none = search (transitions, claim_tx-IsConsistent)

pub heartbeat-IsConsistent :
    {log : List TraceEvent}
    → (attempt_id ttl now : ℕ) → Keeps (IsConsistent (settled log)) (heartbeat attempt_id ttl now)
unfolding heartbeat
heartbeat-IsConsistent attempt_id ttl now = search transitions
