-- ===== src/Evaluation/Laws.antt =====
-- What the figures of evaluation.controller.ts depend on.
use mathlib.Core.Option
use mathlib.Core.Path.{fun_ext}
use Prim.Native.String.{String}
use agent_reliability_platfo.Base.{
  ℕ, suc, ◌≡◌, ◌==◌, refl, sym, ap, ◌∙◌, Bool, true, false, ◌&&◌, none, some, List, [], ◌∷◌, map,
  arith, length, filter, is_some, if◌then◌else◌, inl, inr, sort_by, Option-cases,
}
use agent_reliability_platfo.Store.Table.{find}
use agent_reliability_platfo.Evaluation.Summary.{
  ResultRow, Summary, plus, average, rounded, is_true, recovery_rate, figures, summarize,
}
use agent_reliability_platfo.Evaluation.Batches.{
  batch_key, Evaluations, results_of, listed, Detail, get,
}
use agent_reliability_platfo.Evaluation.Tallies.{
  bit, tally, tally-sort_by, length-tally, count-tally, count_both-tally, sum-tally, average_of,
  average-average_of, recovery_rate-average_of,
}

-- The figures that are whole numbers, or quotients of such: all but the total of the costs and the mean of the
-- judge's scores.
abbrev pub whole : {D : Type 0} → Summary D → Summary (Unit {0})
whole s = record {
  total = s.total;
  resolved = s.resolved;
  resolve_rate = s.resolve_rate;
  first_try_rate = s.first_try_rate;
  recovered_rate = s.recovered_rate;
  scope_violations = s.scope_violations;
  avg_tokens = s.avg_tokens;
  total_cost = tt;
  avg_wall_seconds = s.avg_wall_seconds;
  avg_judge_score = none;
}

module _ {D : Type 0} where
  -- The whole figures as a function of what is added up over the rows.
  unfoldable pub tallied : ((ResultRow D → ℕ) → ℕ) → Summary (Unit {0})
  tallied m = record {
    total = m (λ r. 1);
    resolved = m (λ r. bit r.resolved);
    resolve_rate = record { over = m (λ r. bit r.resolved); under = m (λ r. 1) };
    first_try_rate = record { over = m (λ r. bit r.first_try_success); under = m (λ r. 1) };
    recovered_rate =
        average_of (m (λ r. bit (is_some r.recovered && is_true r.recovered)))
          (m (λ r. bit (is_some r.recovered)));
    scope_violations = m (λ r. r.scope_violations);
    avg_tokens = rounded (average_of (m (λ r. r.tokens)) (m (λ r. 1)));
    total_cost = tt;
    avg_wall_seconds = rounded (average_of (m (λ r. r.wall_seconds)) (m (λ r. 1)));
    avg_judge_score = none;
  }

  length-map : (f : ResultRow D → ℕ) (rs : List (ResultRow D)) → length (map f rs) ≡ length rs
  length-map f [] = refl
  length-map f (r ∷ rs) = ap suc (length-map f rs)

  average-tally :
      (f : ResultRow D → ℕ) (rs : List (ResultRow D))
      → average plus 0 (map f rs) ≡ average_of (tally f rs) (tally (λ r. 1) rs)
  average-tally f rs =
      rw (average-average_of (map f rs), length-map f rs, sum-tally f rs, length-tally rs)

  recovery-tally :
      (rs : List (ResultRow D))
      → recovery_rate (filter (λ (r : ResultRow D). is_some r.recovered) rs)
        ≡ average_of
            (tally (λ r. bit (is_some r.recovered && is_true r.recovered)) rs)
            (tally (λ r. bit (is_some r.recovered)) rs)
  recovery-tally rs = rw (
    recovery_rate-average_of (filter (λ (r : ResultRow D). is_some r.recovered) rs),
    count_both-tally (λ r. is_some r.recovered) (λ r. is_true r.recovered) rs,
    count-tally (λ r. is_some r.recovered) rs,
  )

  module _ (add : D → D → D) (nothing : D) where
    pub figures-tallied :
        (rs : List (ResultRow D)) → whole (figures add nothing rs) ≡ tallied (λ f. tally f rs)
    unfolding figures tallied
    figures-tallied rs = rw (
      count-tally (λ r. r.resolved) rs,
      count-tally (λ r. r.first_try_success) rs,
      recovery-tally rs,
      sum-tally (λ r. r.scope_violations) rs,
      average-tally (λ r. r.tokens) rs,
      average-tally (λ r. r.wall_seconds) rs,
      length-tally rs,
    )

    figures-sort_by :
        (key : ResultRow D → ℕ) (rs : List (ResultRow D))
        → whole (figures add nothing (sort_by key rs)) ≡ whole (figures add nothing rs)
    figures-sort_by key rs =
        figures-tallied (sort_by key rs)
        ∙ ap tallied (fun_ext (tally-sort_by key rs))
        ∙ sym (figures-tallied rs)

    length-sort_by :
        (key : ResultRow D → ℕ) (rs : List (ResultRow D)) → length (sort_by key rs) ≡ length rs
    length-sort_by key rs =
        length-tally (sort_by key rs) ∙ tally-sort_by key rs (λ r. 1) ∙ sym (length-tally rs)

    summarize-figures :
        (rs : List (ResultRow D))
        → summarize add nothing rs
          ≡ (if length rs == 0 then none else some (figures add nothing rs))
    unfolding summarize
    summarize-figures [] = refl
    summarize-figures (r ∷ rs) = ground arith

    -- The order of the rows does not matter to the whole figures.
    summarize-sort_by :
        (key : ResultRow D → ℕ) (rs : List (ResultRow D))
        → Option.map whole (summarize add nothing (sort_by key rs))
          ≡ Option.map whole (summarize add nothing rs)
    summarize-sort_by key rs =
        rw (summarize-figures (sort_by key rs), summarize-figures rs, length-sort_by key rs)
          (by_cases (length rs == 0))
      where
        by_cases :
            (b : Bool)
            → Option.map whole (if b then none else some (figures add nothing (sort_by key rs)))
              ≡ Option.map whole (if b then none else some (figures add nothing rs))
        by_cases true = refl
        by_cases false = ap some (figures-sort_by key rs)

-- The list of the batches and the page of one of them show the same whole figures (counts, rates, violations, and
-- the means of tokens and seconds), although the page orders the results by their fixtures, in whatever
-- order the collation has them. The total of the costs and the mean of the judge's scores are sums of doubles
-- in the order of the rows, and are not among them.
pub get-listed :
    {D : Type 0}
    → (add : D → D → D) (nothing : D) (rank : String → ℕ) (id : ℕ) (e : Evaluations D)
      (d : Detail D)
    → get add nothing rank id e ≡ some d
    → (find batch_key id e.batches ≡ some d.batch)
      × (Option.map whole (listed add nothing e d.batch).summary ≡ Option.map whole d.summary)
unfolding get
get-listed {D} add nothing rank id e d h = elim (Option-cases (find batch_key id e.batches)) [
  | inl missing ↦ absurd (cc (h, missing))
  | inr (b, found) ↦ ground (
    arith,
    found,
    summarize-sort_by add nothing (λ (r : ResultRow D). rank r.fixture_id) (results_of b.id e),
  )
]
