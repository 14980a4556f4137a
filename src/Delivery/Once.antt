-- ===== src/Delivery/Once.antt =====
-- However often the delivery of a job is tried, at most one pull request with its marker is opened: tries
-- follow each other, since a job has one holder at a time, and between two of them anybody may open other
-- pull requests from the branch.
use Prim.Native.String.{String}
use agent_reliability_platfo.Base.{
  ◌⊎◌, ℕ, ◌+◌, ◌≤◌, ◌≡◌, refl, Bool, false, none, some, List, [], ◌∷◌, ◌++◌, arith, All, filter,
  length, if◌then◌else◌, Option-cases, Bool-cases, inl, inr,
}
use agent_reliability_platfo.Base.Text.{Text}
use agent_reliability_platfo.Store.Table.{first_where}
use agent_reliability_platfo.Store.Rows.{Db}
use agent_reliability_platfo.Delivery.Plan.{Plan, read_plan, marker}
use agent_reliability_platfo.Delivery.Deliver.{
  Pull, Effect, recorded, pushed, requested, ◌>>=◌, answer, Answers, mentions, deliver, effects_of,
}
use agent_reliability_platfo.Delivery.Again.{found-opened}
use agent_reliability_platfo.Delivery.Asks.{requests, Asks-deliver}

-- The pull requests that are there after a list of effects: those that were asked for, where the request
-- came through.
unfoldable pub opened_by : Bool → String → List Effect → List Pull
opened_by landed url [] = []
opened_by landed url (requested branch base body ∷ es) =
    let rest = opened_by landed url es in
    if landed then record { html_url = url; body = some body } ∷ rest else rest
opened_by landed url (e ∷ es) = opened_by landed url es

-- One try: the pull requests that others have opened before it, whether the list of them is answered, and
-- whether its own request comes through. All that is answered otherwise is free.
pub record Try : Type 0 where
  pub seen : Db
  pub token : ℕ
  pub others : List Pull
  pub is_listed : Bool
  pub has_landed : Bool
  pub url : String
  pub answers : Answers

module _ (text_of : ℕ → Text) (sha256 : String → ℕ) (id : ℕ) where
  -- GitHub lists the pull requests of the branch as they are, which fit one page.
  abbrev pub effects_at : Try → List Pull → List Effect
  effects_at t pulls = effects_of (
      deliver text_of sha256 t.seen id t.token
        (record t.answers { pulls = if t.is_listed then some pulls else none }))

  -- The pull requests of the branch after a try, and after several.
  unfoldable pub after_try : Try → List Pull → List Pull
  after_try t pulls =
      let there = pulls ++ t.others in there ++ opened_by t.has_landed t.url (effects_at t there)

  unfoldable pub after_tries : List Try → List Pull → List Pull
  after_tries [] pulls = pulls
  after_tries (t ∷ ts) pulls = after_tries ts (after_try t pulls)

-- How many pull requests pass a test.
abbrev pub count : (Pull → Bool) → List Pull → ℕ
count test pulls = length (filter test pulls)

count-append :
    (test : Pull → Bool) (ps qs : List Pull) → count test (ps ++ qs) ≡ count test ps + count test qs
count-append test [] qs = omega arith
count-append test (p ∷ ps) qs = ground (arith, count-append test ps qs)

count-none :
    (test : Pull → Bool) (ps : List Pull) → All (λ p. test p ≡ false) ps → count test ps ≡ 0
count-none test [] all = refl
count-none test (p ∷ ps) all = rw all.0 (count-none test ps all.1)

count_found :
    (test : Pull → Bool) (ps : List Pull)
    → (count test ps ≡ 0) ⊎ ((p : Pull) × (first_where test ps ≡ some p))
unfolding first_where
count_found test [] = inl refl
count_found test (p ∷ ps) = elim (Bool-cases (test p)) [
  | inl good ↦ inr (p, rw good refl)
  | inr bad ↦ elim (count_found test ps) [
    | inl none_there ↦ inl (rw bad none_there)
    | inr (q, found) ↦ inr (q, rw bad found)
  ]
]

count-opened_by :
    (test : Pull → Bool) (landed : Bool) (url : String) (es : List Effect)
    → count test (opened_by landed url es) ≤ requests es
unfolding opened_by requests
count-opened_by test landed url [] = omega arith
count-opened_by test landed url (recorded c ∷ es) =
    omega (arith, count-opened_by test landed url es)
count-opened_by test landed url (pushed b c ∷ es) =
    omega (arith, count-opened_by test landed url es)
count-opened_by test landed url (requested b base body ∷ es) =
    ground (arith, count-opened_by test landed url es)

module _ (text_of : ℕ → Text) (sha256 : String → ℕ) (id : ℕ) (mark : Text) where
  -- The plan of the job has this marker, and others do not write it.
  pub record IsSteady (t : Try) : Type 0 where
    pub marked : (plan : Plan) → read_plan id t.seen ≡ some plan → marker text_of plan.job ≡ mark
    pub foreign : All (λ p. mentions mark p ≡ false) t.others

  unlisted_idle :
      (seen : Db) (token : ℕ) (w : Answers)
      → w.pulls ≡ none
      → effects_of (deliver text_of sha256 seen id token w) ≡ []
  unfolding deliver answer ◌>>=◌
  unlisted_idle seen token w lost = elim (Option-cases (read_plan id seen)) [
    | inl missing ↦ rw missing refl
    | inr (plan, planned) ↦ rw (planned, lost) refl
  ]

  unplanned_idle :
      (seen : Db) (token : ℕ) (w : Answers)
      → read_plan id seen ≡ none
      → effects_of (deliver text_of sha256 seen id token w) ≡ []
  unfolding deliver answer ◌>>=◌
  unplanned_idle seen token w missing = rw missing refl

  -- A try does nothing where there is a pull request with the marker.
  found_idle :
      (t : Try) (pulls : List Pull) (p : Pull)
      → IsSteady t
      → first_where (mentions mark) pulls ≡ some p
      → effects_at text_of sha256 id t pulls ≡ []
  found_idle t pulls p steady found = elim (Bool-cases t.is_listed) [
    | inr lost ↦ unlisted_idle t.seen t.token _ (rw lost refl)
    | inl listed ↦ elim (Option-cases (read_plan id t.seen)) [
      | inl missing ↦ unplanned_idle t.seen t.token _ missing
      | inr (plan, planned) ↦
          (found-opened text_of sha256 t.seen id t.token _ plan pulls p planned (rw listed refl)
            (rw (steady.marked plan planned) found)).1
    ]
  ]

  after_try-once :
      (t : Try) (pulls : List Pull)
      → IsSteady t
      → count (mentions mark) pulls ≤ 1
      → count (mentions mark) (after_try text_of sha256 id t pulls) ≤ 1
  unfolding after_try
  after_try-once t pulls steady once =
      let there = pulls ++ t.others in
      let added = opened_by t.has_landed t.url (effects_at text_of sha256 id t there) in
      let before : count (mentions mark) there ≤ 1 = omega (
        arith,
        count-append (mentions mark) pulls t.others,
        count-none (mentions mark) t.others steady.foreign,
      ) in
      elim (count_found (mentions mark) there) [
        | inl zero_there ↦ omega (
          arith,
          count-append (mentions mark) there added,
          count-opened_by (mentions mark) t.has_landed t.url (effects_at text_of sha256 id t there),
          (Asks-deliver text_of sha256 t.seen id t.token _).at,
        )
        | inr (p, found) ↦
            rw (found_idle t there p steady found)
              (unfold opened_by in omega (arith, count-append (mentions mark) there []))
      ]

  -- However often the delivery of a job is tried, there is at most one pull request with the marker of the
  -- job, where there was at most one before. A try may read any database, with any lease, and all answers
  -- are free, but that the list of the pull requests of the branch, which fits its page of 100, is answered
  -- as it stands or not at all; a request for a pull request may come through though its answer is lost.
  -- The marker of the job stays the same, and others open pull requests without it.
  pub after_tries-once :
      (ts : List Try) (pulls : List Pull)
      → All IsSteady ts
      → count (mentions mark) pulls ≤ 1
      → count (mentions mark) (after_tries text_of sha256 id ts pulls) ≤ 1
  unfolding after_tries
  after_tries-once [] pulls steady once = once
  after_tries-once (t ∷ ts) pulls steady once =
      after_tries-once ts (after_try text_of sha256 id t pulls) steady.1
        (after_try-once t pulls steady.0 once)
