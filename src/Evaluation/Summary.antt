-- ===== src/Evaluation/Summary.antt =====
-- `summarize` and `average` of evaluation.controller.ts. `D` are the doubles of costs and scores, which are
-- added with rounding: their addition is a parameter. Sums of whole numbers are exact below 2 ** 53.
use agent_reliability_platfo.Base.{
  ℕ, ◌+◌, ◌*◌, ◌/◌, Bool, false, Option, none, some, List, [], ◌∷◌, ◌++◌, map, filter, length,
  is_some,
}
use Prim.Native.String.{String}

pub data RecoveryMode : Type 0 where
  checkpoint attempt_restart : RecoveryMode

-- A row of results; the judge's criteria are none where the report has no list of them, and a score that
-- is missing counts as 0.
pub record ResultRow (D : Type 0) : Type 0 where
  pub evaluation_id : ℕ
  pub fixture_id : String
  pub run_id : String
  pub resolved : Bool
  pub first_try_success : Bool
  pub recovered : Option Bool
  pub recovery_mode : Option RecoveryMode
  pub scope_violations : ℕ
  pub tokens : ℕ
  pub cost : D
  pub wall_seconds : ℕ
  pub criteria : Option (List (Option D))

-- A quotient by a whole number, before it is rounded.
pub record Ratio (A : Type 0) : Type 0 where
  pub over : A
  pub under : ℕ

pub record Summary (D : Type 0) : Type 0 where
  pub total : ℕ
  pub resolved : ℕ
  pub resolve_rate : Ratio ℕ
  pub first_try_rate : Ratio ℕ
  pub recovered_rate : Option (Ratio ℕ)
  pub scope_violations : ℕ
  pub avg_tokens : ℕ
  pub total_cost : D
  pub avg_wall_seconds : ℕ
  pub avg_judge_score : Option (Ratio D)

-- `values.reduce((sum, v) => sum + v, 0)`, from the left
unfoldable pub sum_onto : {A : Type 0} → (A → A → A) → A → List A → A
sum_onto add sum [] = sum
sum_onto add sum (v ∷ vs) = sum_onto add (add sum v) vs

-- `average`
unfoldable pub average : {A : Type 0} → (A → A → A) → A → List A → Option (Ratio A)
unfolding sum_onto
average add nothing [] = none
average add nothing (v ∷ vs) =
    some (record { over = sum_onto add nothing (v ∷ vs); under = length (v ∷ vs) })

-- `Math.round(average ?? 0)`: halves are rounded up.
unfoldable pub rounded : Option (Ratio ℕ) → ℕ
rounded none = 0
rounded (some r) = (2 * r.over + r.under) / (2 * r.under)

abbrev pub plus : ℕ → ℕ → ℕ
plus a b = a + b

abbrev pub score_or : {D : Type 0} → D → Option D → D
score_or nothing none = nothing
score_or nothing (some n) = n

unfoldable pub scores : {D : Type 0} → D → List (ResultRow D) → List D
scores nothing [] = []
scores nothing (r ∷ rs) = elim r.criteria [
  | none ↦ scores nothing rs
  | some cs ↦ map (score_or nothing) cs ++ scores nothing rs
]

abbrev pub is_true : Option Bool → Bool
is_true none = false
is_true (some b) = b

module _ {D : Type 0} where
  -- `withFault.length ? … : null`
  unfoldable pub recovery_rate : List (ResultRow D) → Option (Ratio ℕ)
  recovery_rate [] = none
  recovery_rate (r ∷ rs) = some (record {
    over = length (filter (λ (q : ResultRow D). is_true q.recovered) (r ∷ rs));
    under = length (r ∷ rs);
  })

  -- The figures of rows, of which there are some; `add` and `nothing` are the addition and 0 of doubles.
  unfoldable pub figures : (D → D → D) → D → List (ResultRow D) → Summary D
  unfolding average rounded scores recovery_rate sum_onto
  figures add nothing rs = record {
    total = length rs;
    resolved = length (filter (λ (r : ResultRow D). r.resolved) rs);
    resolve_rate = record {
      over = length (filter (λ (r : ResultRow D). r.resolved) rs);
      under = length rs;
    };
    first_try_rate = record {
      over = length (filter (λ (r : ResultRow D). r.first_try_success) rs);
      under = length rs;
    };
    recovered_rate = recovery_rate (filter (λ (r : ResultRow D). is_some r.recovered) rs);
    scope_violations = sum_onto plus 0 (map (λ (r : ResultRow D). r.scope_violations) rs);
    avg_tokens = rounded (average plus 0 (map (λ (r : ResultRow D). r.tokens) rs));
    total_cost = sum_onto add nothing (map (λ (r : ResultRow D). r.cost) rs);
    avg_wall_seconds = rounded (average plus 0 (map (λ (r : ResultRow D). r.wall_seconds) rs));
    avg_judge_score = average add nothing (scores nothing rs);
  }

  -- `summarize`
  unfoldable pub summarize : (D → D → D) → D → List (ResultRow D) → Option (Summary D)
  unfolding figures
  summarize add nothing [] = none
  summarize add nothing (r ∷ rs) = some (figures add nothing (r ∷ rs))
