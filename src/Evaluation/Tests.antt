-- ===== src/Evaluation/Tests.antt =====
-- A batch with two results, of which one had a fault.
use mathlib.Core.Option
use Prim.Native.String.{len}
use agent_reliability_platfo.Base.{
  ℕ, ◌≡◌, refl, true, false, none, some, List, [], ◌∷◌, sort_by, insert_by,
}
use agent_reliability_platfo.Shared.Enums.{AgentKind}
use agent_reliability_platfo.Store.Table.{find}
use agent_reliability_platfo.Evaluation.Summary.{RecoveryMode, ResultRow, Summary, plus, summarize}
use agent_reliability_platfo.Evaluation.Batches.{Batch, Evaluations, Detail, batch_key, listed, get}
use agent_reliability_platfo.Evaluation.Laws.{whole, get-listed}
use agent_reliability_platfo.Evaluation.Exact.{IsExact, summarize-IsExact}

-- Costs and scores that are whole numbers.
abbrev rows : List (ResultRow ℕ)
rows =
    record {
      evaluation_id = 1;
      fixture_id = "ts";
      run_id = "r1";
      resolved = true;
      first_try_success = false;
      recovered = some true;
      recovery_mode = some RecoveryMode.checkpoint;
      scope_violations = 1;
      tokens = 100;
      cost = 25;
      wall_seconds = 10;
      criteria = some (some 5 ∷ none ∷ []);
    }
    ∷ record {
      evaluation_id = 1;
      fixture_id = "py";
      run_id = "r2";
      resolved = true;
      first_try_success = true;
      recovered = none;
      recovery_mode = none;
      scope_violations = 0;
      tokens = 201;
      cost = 50;
      wall_seconds = 21;
      criteria = none;
    }
    ∷ []

abbrev summary : Summary ℕ
summary = record {
  total = 2;
  resolved = 2;
  resolve_rate = record { over = 2; under = 2 };
  first_try_rate = record { over = 1; under = 2 };
  recovered_rate = some (record { over = 1; under = 1 });
  scope_violations = 1;
  avg_tokens = 151;
  total_cost = 75;
  avg_wall_seconds = 16;
  avg_judge_score = some (record { over = 5; under = 2 });
}

two_rows : summarize plus 0 rows ≡ some summary
unfolding summarize
two_rows = refl

summarize-IsExact_example : IsExact rows (whole summary)
summarize-IsExact_example = summarize-IsExact plus 0 rows summary two_rows

abbrev batch : Batch
batch = record {
  id = 1;
  suite = "nightly";
  agent_kind = AgentKind.mini_swe;
  fault_injection = some "kill-worker";
  started_at = 5;
  finished_at = none;
}

abbrev evaluations : Evaluations ℕ
evaluations = record { batches = batch ∷ []; results = rows }

abbrev detail : Detail ℕ
detail = record {
  batch = batch;
  results = sort_by (λ (r : ResultRow ℕ). len r.fixture_id) rows;
  summary = some summary;
}

get_batch : get plus 0 (λ s. len s) 1 evaluations ≡ some detail
unfolding get summarize sort_by insert_by
get_batch = refl

get-listed_example :
    (find batch_key 1 evaluations.batches ≡ some batch)
    × (Option.map whole (listed plus 0 evaluations batch).summary ≡ some (whole summary))
get-listed_example = get-listed plus 0 (λ s. len s) 1 evaluations detail get_batch
