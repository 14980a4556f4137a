-- ===== src/Run/Budget.antt =====
-- apps/control-plane/src/modules/run/budget.service.ts: every model call reserves tokens before it is
-- made and settles its usage after. Fractions of a second are kept as milliseconds.
use agent_reliability_platfo.Base.{
  ℕ, ◌+◌, ◌-◌, ◌*◌, Bool, true, false, not, ◌&&◌, ◌||◌, Option, none, some, List, [], ◌∷◌, ◌==◌,
  leb, ltb, is_some, filter, if◌then◌else◌,
}
use agent_reliability_platfo.Shared.Enums.{AttemptStatus, ◌===◌, attempt_status_enum}
use agent_reliability_platfo.Store.Table.{find, modify, first_where}
use agent_reliability_platfo.Store.Rows.{Run, Attempt, BudgetCall, CallStatus}
use agent_reliability_platfo.Store.Tx.{
  Tx, pure, ◌>>=◌, ◌>>◌, gets, alter, raise_if, or_raise, conflict, record_missing,
}
use agent_reliability_platfo.Store.Queries.{call_key, find_run, update_run, insert_call, is_settled}
use agent_reliability_platfo.Run.Clock.{has_passed}
use agent_reliability_platfo.Run.Checkpoints.{is_executing}

-- `call.used ?? call.reserved`
abbrev pub used_or : Option ℕ → ℕ → ℕ
used_or none held = held
used_or (some used) held = used

unfoldable pub committed : List BudgetCall → ℕ
committed [] = 0
committed (c ∷ cs) = used_or c.used c.reserved + committed cs

-- `availableBudget`; `Math.max(0, a - b)` is the subtraction of ℕ.
unfoldable pub available_budget : ℕ → List BudgetCall → ℕ
available_budget limit calls = limit - committed calls

unfoldable pub calls_of : ℕ → List BudgetCall → List BudgetCall
calls_of run_id calls = filter (λ c. c.run_id == run_id) calls

-- The milliseconds since the run was started.
abbrev pub active_ms : Option ℕ → ℕ → ℕ
active_ms none now = 0
active_ms (some started) now = now - started

unfoldable pub elapsed_ms : Run → ℕ → ℕ
elapsed_ms run now = run.used_seconds * 1000 + active_ms run.active_started_at now

abbrev pub same_token : Option ℕ → ℕ → Bool
same_token none token = false
same_token (some t) token = t == token

-- `leaseExpiresAt: { gt: new Date() }`
abbrev pub unexpired : Option ℕ → ℕ → Bool
unexpired none now = false
unexpired (some t) now = ltb now t

-- The filter on `leaseToken`, which Prisma drops where the request has no token.
abbrev pub has_token : Option ℕ → Option ℕ → Bool
has_token none lease_token = true
has_token (some token) lease_token = same_token lease_token token

abbrev pub holds_lease : ℕ → ℕ → Option ℕ → ℕ → Attempt → Bool
holds_lease run_id attempt_id token now a =
    a.id == attempt_id
    && a.run_id == run_id
    && has_token token a.lease_token
    && a.status === AttemptStatus.running
    && unexpired a.lease_expires_at now

-- `reserve`: the call, and the milliseconds that the run has left.
unfoldable pub reserve : ℕ → ℕ → Option ℕ → ℕ → ℕ → ℕ → Tx (BudgetCall × ℕ)
reserve run_id attempt_id token id amount now = do
  run ← find_run run_id
  attempt ← gets (λ db. first_where (holds_lease run_id attempt_id token now) db.attempts)
  raise_if (not (is_some attempt) || not (is_executing run.status))
      (conflict "Execution lease is no longer valid")
  raise_if (has_passed run.deadline_at now) (conflict "Task expired")
  raise_if (leb (run.budget_seconds * 1000) (elapsed_ms run now))
      (conflict "Task time budget exhausted")
  raise_if (← gets (λ db. is_some (find call_key id db.budget_calls)))
      (conflict "Model request already reserved; reconcile instead of repeating it")
  calls ← gets (λ db. calls_of run_id db.budget_calls)
  raise_if (ltb (available_budget run.budget_tokens calls) amount)
      (conflict "Task token budget exhausted")
  let call : BudgetCall = record {
    id = id;
    run_id = run_id;
    reserved = amount;
    used = none;
    status = CallStatus.reserved;
  }
  insert_call call
  pure (call, run.budget_seconds * 1000 - elapsed_ms run now)

-- `call.used !== used`
abbrev pub same_usage : Option ℕ → Option ℕ → Bool
same_usage none none = true
same_usage (some a) (some b) = a == b
same_usage _ _ = false

abbrev pub status_for : Option ℕ → CallStatus
status_for none = CallStatus.unknown
status_for (some n) = CallStatus.settled

unfoldable pub record_usage : ℕ → BudgetCall → Option ℕ → Tx BudgetCall
record_usage run_id call used = do
  let settle_call = λ (c : BudgetCall). record c { used = used; status = status_for used }
  alter (λ db. record db { budget_calls = modify call_key call.id settle_call db.budget_calls })
  calls ← gets (λ db. calls_of run_id db.budget_calls)
  update_run run_id (λ r. record r { used_tokens = committed calls })
  pure (record call { used = used; status = status_for used })

-- `settle`: a settled call stays as it is.
unfoldable pub settle : ℕ → ℕ → Option ℕ → Tx BudgetCall
settle run_id id used = do
  call ← or_raise (← gets (λ db. find call_key id db.budget_calls)) record_missing
  raise_if (not (call.run_id == run_id)) (conflict "Call belongs to another task")
  raise_if (is_settled call && not (same_usage call.used used)) (conflict "Conflicting model usage")
  if is_settled call then pure call else record_usage run_id call used
