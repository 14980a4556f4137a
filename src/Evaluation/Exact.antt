-- ===== src/Evaluation/Exact.antt =====
-- What the figures of evaluation.controller.ts count, and how they round.
use agent_reliability_platfo.Base.{
  ℕ, zero, suc, ◌+◌, ◌*◌, ◌≤◌, ◌<◌, ◌≡◌, refl, sym, ◌∙◌, Bool, false, not, ◌&&◌, Option, none, some,
  List, [], ◌∷◌, arith, length, filter, is_some, inl, inr, Option-cases, subst,
}
use agent_reliability_platfo.Evaluation.Summary.{
  ResultRow, Ratio, Summary, rounded, is_true, summarize,
}
use agent_reliability_platfo.Evaluation.Laws.{whole, tallied, figures-tallied}
use agent_reliability_platfo.Evaluation.Tallies.{bit, tally, length-tally, count-tally, average_of}

-- A mean that is rounded to the next whole number, halves upwards.
abbrev pub IsMean : ℕ → ℕ → ℕ → Type 0
IsMean mean sum n = (2 * sum < 2 * mean * n + n) × (2 * mean * n ≤ 2 * sum + n)

rounded-IsMean : (sum n : ℕ) → IsMean (rounded (average_of sum (suc n))) sum (suc n)
unfolding rounded average_of
rounded-IsMean sum n = (grind arith, grind arith)

-- A fault of which the run has not recovered, and a result without a fault.
abbrev pub is_lost : Option Bool → Bool
is_lost none = false
is_lost (some b) = not b

module _ {D : Type 0} where
  abbrev pub count : (ResultRow D → Bool) → List (ResultRow D) → ℕ
  count test rs = length (filter test rs)

  -- The rate is there unless all results are without a fault; it counts those with one.
  abbrev pub IsRecovered : List (ResultRow D) → Option (Ratio ℕ) → Type 0
  IsRecovered rs none = count (λ r. is_some r.recovered) rs ≡ 0
  IsRecovered rs (some q) =
      (0 < q.under)
      × (q.over + count (λ r. is_lost r.recovered) rs ≡ q.under)
      × (q.under + count (λ r. not (is_some r.recovered)) rs ≡ length rs)

  -- The whole figures of rows, described by what they leave out.
  pub record IsExact (rs : List (ResultRow D)) (s : Summary (Unit {0})) : Type 0 where
    pub all : s.total ≡ length rs
    pub unresolved : s.resolved + count (λ r. not r.resolved) rs ≡ length rs
    pub resolve_rate : s.resolve_rate ≡ record { over = s.resolved; under = length rs }
    pub first_tries : s.first_try_rate.over + count (λ r. not r.first_try_success) rs ≡ length rs
    pub first_try_rate : s.first_try_rate.under ≡ length rs
    pub recoveries : IsRecovered rs s.recovered_rate
    pub violations : s.scope_violations ≡ tally (λ r. r.scope_violations) rs
    pub tokens : IsMean s.avg_tokens (tally (λ r. r.tokens) rs) (length rs)
    pub seconds : IsMean s.avg_wall_seconds (tally (λ r. r.wall_seconds) rs) (length rs)

  count-not :
      (test : ResultRow D → Bool) (rs : List (ResultRow D))
      → tally (λ r. bit (test r)) rs + count (λ r. not (test r)) rs ≡ length rs
  unfolding tally
  count-not test [] = refl
  count-not test (r ∷ rs) = ground (arith, count-not test rs)

  recovered-lost :
      (rs : List (ResultRow D))
      → tally (λ r. bit (is_some r.recovered && is_true r.recovered)) rs
          + count (λ r. is_lost r.recovered) rs
        ≡ tally (λ r. bit (is_some r.recovered)) rs
  unfolding tally
  recovered-lost [] = refl
  recovered-lost (r ∷ rs) = elim (Option-cases r.recovered) [
    | inl unknown ↦ ground (arith, recovered-lost rs)
    | inr (b, known) ↦ ground (arith, recovered-lost rs)
  ]

  average_of-IsRecovered :
      (rs : List (ResultRow D)) (over under : ℕ)
      → tally (λ r. bit (is_some r.recovered)) rs ≡ under
      → over + count (λ r. is_lost r.recovered) rs ≡ under
      → IsRecovered rs (average_of over under)
  unfolding average_of
  average_of-IsRecovered rs over zero e lost = count-tally (λ r. is_some r.recovered) rs ∙ e
  average_of-IsRecovered rs over (suc n) e lost =
      (omega arith, lost, omega (arith, e, count-not (λ r. is_some r.recovered) rs))

  tallied-IsExact :
      (rs : List (ResultRow D)) (n : ℕ)
      → tally (λ r. 1) rs ≡ suc n
      → IsExact rs (tallied (λ f. tally f rs))
  unfolding tallied
  tallied-IsExact rs n full =
      let every = length-tally rs in
      record {
        all = sym every;
        unresolved = count-not (λ r. r.resolved) rs;
        resolve_rate = rw every refl;
        first_tries = count-not (λ r. r.first_try_success) rs;
        first_try_rate = sym every;
        recoveries = average_of-IsRecovered rs _ _ refl (recovered-lost rs);
        violations = refl;
        tokens = rw (every, full) (rounded-IsMean (tally (λ r. r.tokens) rs) n);
        seconds = rw (every, full) (rounded-IsMean (tally (λ r. r.wall_seconds) rs) n);
      }

-- The whole figures of a summary. The resolved results and the others are all of them, and so are the first
-- successes and the others. The rate of recoveries is there exactly if some result had a fault, its upper
-- number and the faults without a recovery are its lower number, and that and the results without a fault
-- are all of them. The violations are added up. The means of the tokens and of the seconds are the nearest
-- whole numbers to the true means, the greater one where the true mean lies in the middle of two.
pub summarize-IsExact :
    {D : Type 0}
    → (add : D → D → D) (nothing : D) (rs : List (ResultRow D)) (s : Summary D)
    → summarize add nothing rs ≡ some s
    → IsExact rs (whole s)
unfolding summarize
summarize-IsExact add nothing [] s h = cc
summarize-IsExact add nothing (r ∷ rs) s h =
    let e : tallied (λ f. tally f (r ∷ rs)) ≡ whole s =
      cc (h, figures-tallied add nothing (r ∷ rs)) in
    subst (IsExact (r ∷ rs)) e (tallied-IsExact (r ∷ rs) (length rs) (sym (length-tally (r ∷ rs))))
