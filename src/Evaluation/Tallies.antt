-- ===== src/Evaluation/Tallies.antt =====
-- The whole figures of evaluation.controller.ts, added up row by row.
use agent_reliability_platfo.Base.{
  ℕ, zero, suc, ◌+◌, ◌≡◌, refl, ◌∙◌, Bool, ◌&&◌, Option, none, some, List, [], ◌∷◌, map, arith,
  length, filter, if◌then◌else◌, insert_by, sort_by,
}
use agent_reliability_platfo.Evaluation.Summary.{
  ResultRow, Ratio, sum_onto, plus, average, is_true, recovery_rate,
}

abbrev pub bit : Bool → ℕ
bit b = if b then 1 else 0

abbrev pub total : List ℕ → ℕ
total [] = 0
total (v ∷ vs) = v + total vs

pub sum_onto-total : (n : ℕ) (vs : List ℕ) → sum_onto plus n vs ≡ n + total vs
unfolding sum_onto
sum_onto-total n [] = omega arith
sum_onto-total n (v ∷ vs) = omega (arith, sum_onto-total (n + v) vs)

unfoldable pub average_of : ℕ → ℕ → Option (Ratio ℕ)
average_of sum zero = none
average_of sum (suc n) = some (record { over = sum; under = suc n })

pub average-average_of :
    (vs : List ℕ) → average plus 0 vs ≡ average_of (sum_onto plus 0 vs) (length vs)
unfolding average average_of
average-average_of [] = refl
average-average_of (v ∷ vs) = refl

module _ {D : Type 0} where
  -- A figure that is added up over the rows.
  unfoldable pub tally : (ResultRow D → ℕ) → List (ResultRow D) → ℕ
  tally f [] = 0
  tally f (r ∷ rs) = f r + tally f rs

  tally-insert_by :
      (f key : ResultRow D → ℕ) (r : ResultRow D) (rs : List (ResultRow D))
      → tally f (insert_by key r rs) ≡ f r + tally f rs
  unfolding tally insert_by
  tally-insert_by f key r [] = refl
  tally-insert_by f key r (q ∷ rs) = ground (arith, tally-insert_by f key r rs)

  pub tally-sort_by :
      (key : ResultRow D → ℕ) (rs : List (ResultRow D)) (f : ResultRow D → ℕ)
      → tally f (sort_by key rs) ≡ tally f rs
  unfolding tally sort_by
  tally-sort_by key [] f = refl
  tally-sort_by key (r ∷ rs) f =
      omega (arith, tally-insert_by f key r (sort_by key rs), tally-sort_by key rs f)

  pub length-tally : (rs : List (ResultRow D)) → length rs ≡ tally (λ r. 1) rs
  unfolding tally
  length-tally [] = refl
  length-tally (r ∷ rs) = omega (arith, length-tally rs)

  pub count-tally :
      (test : ResultRow D → Bool) (rs : List (ResultRow D))
      → length (filter test rs) ≡ tally (λ r. bit (test r)) rs
  unfolding tally
  count-tally test [] = refl
  count-tally test (r ∷ rs) = ground (arith, count-tally test rs)

  pub count_both-tally :
      (test also : ResultRow D → Bool) (rs : List (ResultRow D))
      → length (filter also (filter test rs)) ≡ tally (λ r. bit (test r && also r)) rs
  unfolding tally
  count_both-tally test also [] = refl
  count_both-tally test also (r ∷ rs) = ground (arith, count_both-tally test also rs)

  pub sum-tally :
      (f : ResultRow D → ℕ) (rs : List (ResultRow D)) → sum_onto plus 0 (map f rs) ≡ tally f rs
  unfolding tally
  sum-tally f rs = sum_onto-total 0 (map f rs) ∙ added rs
    where
      added : (qs : List (ResultRow D)) → 0 + total (map f qs) ≡ tally f qs
      added [] = refl
      added (q ∷ qs) = omega (arith, added qs)

  pub recovery_rate-average_of :
      (rs : List (ResultRow D))
      → recovery_rate rs
        ≡ average_of (length (filter (λ (q : ResultRow D). is_true q.recovered) rs)) (length rs)
  unfolding recovery_rate average_of
  recovery_rate-average_of [] = refl
  recovery_rate-average_of (r ∷ rs) = refl
