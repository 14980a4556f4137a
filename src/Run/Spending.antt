-- ===== src/Run/Spending.antt =====
-- What budget.service.ts promises: no reservation beyond the limits, and one settlement per call.
use agent_reliability_platfo.Base.{
  ℕ, ◌+◌, ◌-◌, ◌*◌, ◌≤◌, ◌<◌, ◌≡◌, refl, false, Option, none, some, List, [], ◌∷◌, ◌++◌, arith,
  if◌then◌else◌, Option-cases, inl, inr,
}
use agent_reliability_platfo.Store.Table.{find, find-key, find-modify}
use agent_reliability_platfo.Store.Rows.{Run, BudgetCall, CallStatus, Db}
use agent_reliability_platfo.Store.Tx.{
  ok, err, pure, ◌>>=◌, ◌>>◌, gets, or_raise, raise_if, alter, conflict,
}
use agent_reliability_platfo.Store.Queries.{
  run_key, call_key, find_run, update_run, insert_call, is_settled,
}
use agent_reliability_platfo.Run.Budget.{
  committed, available_budget, calls_of, elapsed_ms, reserve, record_usage, settle, same_usage,
  status_for,
}

abbrev new_call : ℕ → ℕ → ℕ → BudgetCall
new_call run_id id amount = record {
  id = id;
  run_id = run_id;
  reserved = amount;
  used = none;
  status = CallStatus.reserved;
}

committed-new :
    (run_id id amount : ℕ) (calls : List BudgetCall)
    → committed (calls_of run_id (calls ++ new_call run_id id amount ∷ []))
      ≡ committed (calls_of run_id calls) + amount
unfolding calls_of committed
committed-new run_id id amount [] = ground arith
committed-new run_id id amount (c ∷ calls) = ground (arith, committed-new run_id id amount calls)

-- A reservation that is granted adds its amount to what the calls of the run commit, its amount was
-- free in the token budget, and it is told the milliseconds that the time budget has left, of which
-- there are some.
pub reserve-within :
    (run_id attempt_id : ℕ) (token : Option ℕ) (id amount now : ℕ) (db db' : Db) (run : Run)
    (call : BudgetCall) (left : ℕ)
    → find run_key run_id db.runs ≡ some run
    → reserve run_id attempt_id token id amount now db ≡ ok (call, left) db'
    → (committed (calls_of run_id db'.budget_calls)
        ≡ committed (calls_of run_id db.budget_calls) + amount)
      × (amount ≤ run.budget_tokens - committed (calls_of run_id db.budget_calls))
      × (0 < left)
      × (left + elapsed_ms run now ≡ run.budget_seconds * 1000)
unfolding reserve available_budget find_run insert_call gets or_raise raise_if alter pure ◌>>=◌ ◌>>◌
reserve-within run_id attempt_id token id amount now db db' run call left found granted =
    ground (arith, committed-new run_id id amount db.budget_calls)

-- A call that is settled stays settled: the same usage again is answered with the same call and
-- changes nothing, and another usage is refused.
pub settle-again :
    (run_id id n : ℕ) (later : Option ℕ) (db db' : Db) (call : BudgetCall)
    → settle run_id id (some n) db ≡ ok call db'
    → settle run_id id later db' ≡ (
        if same_usage (some n) later then ok call db' else err (conflict "Conflicting model usage"))
unfolding settle record_usage find_run update_run gets or_raise raise_if alter pure ◌>>=◌ ◌>>◌
settle-again run_id id n later db db' call done =
    elim (Option-cases (find call_key id db.budget_calls)) [
      | inl missing ↦ ground arith
      | inr (c, found) ↦ ground (
        arith,
        find-key call_key id db.budget_calls c found,
        find-modify call_key id id (λ c. record c { used = some n; status = status_for (some n) })
            db.budget_calls (λ q. refl),
      )
    ]

-- When a call is settled, the run has used what its calls commit.
pub settle-used_tokens :
    (run_id id : ℕ) (used : Option ℕ) (db db' : Db) (c call : BudgetCall) (run : Run)
    → find call_key id db.budget_calls ≡ some c
    → is_settled c ≡ false
    → settle run_id id used db ≡ ok call db'
    → find run_key run_id db'.runs ≡ some run
    → run.used_tokens ≡ committed (calls_of run_id db'.budget_calls)
unfolding settle record_usage find_run update_run gets or_raise raise_if alter pure ◌>>=◌ ◌>>◌
settle-used_tokens run_id id used db db' c call run found fresh done after =
    elim (Option-cases (find run_key run_id db.runs)) [
      | inl missing ↦ ground arith
      | inr (r, there) ↦ ground (
        arith,
        find-modify run_key run_id run_id
            (λ q. record q { used_tokens = committed (calls_of run_id db'.budget_calls) }) db.runs
            (λ q. refl),
      )
    ]
