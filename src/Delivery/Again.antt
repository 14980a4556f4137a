-- ===== src/Delivery/Again.antt =====
-- A pull request that a delivery has opened is found by every later delivery of the same job.
use Prim.Native.String.{String}
use agent_reliability_platfo.Base.{
  ℕ, ◌≡◌, refl, sym, ap, ◌∙◌, Bool, true, false, some, List, [], ◌∷◌, ◌++◌, arith, Among, All-Among,
  Option-cases, Bool-cases, inl, inr,
}
use agent_reliability_platfo.Base.Text.{Text, codes, has_text, has_text-append}
use agent_reliability_platfo.Shared.TaskSnapshot.{TaskSnapshot}
use agent_reliability_platfo.Store.Table.{find, find-key, first_where}
use agent_reliability_platfo.Store.Rows.{DeliveryJob, Db}
use agent_reliability_platfo.Store.Queries.{job_key}
use agent_reliability_platfo.Delivery.Jobs.{DeliveryEnd, opened}
use agent_reliability_platfo.Delivery.Plan.{Plan, read_plan, marker, pull_body}
use agent_reliability_platfo.Delivery.Deliver.{
  Pull, requested, ◌>>=◌, answer, Answers, mentions, deliver_plan, deliver, end_of, effects_of,
}
use agent_reliability_platfo.Delivery.Published.{Allowed, deliver-Allowed}

-- The pull request that a delivery has opened has the marker of its job in its body.
body_mentions :
    (text_of : ℕ → Text) (job : DeliveryJob) (snapshot : TaskSnapshot)
    → has_text (marker text_of job) (pull_body text_of job snapshot) ≡ true
unfolding pull_body
body_mentions text_of job snapshot =
    has_text-append (marker text_of job) (codes "Verified and approved local repair.\n\n")
      (codes "\n\nSource commit: " ++ text_of snapshot.execution_sha)

read_plan-id : (id : ℕ) (db : Db) (plan : Plan) → read_plan id db ≡ some plan → plan.job.id ≡ id
unfolding read_plan
read_plan-id id db plan planned = elim (Option-cases (find job_key id db.deliveries)) [
  | inl missing ↦ ground (arith, planned)
  | inr (job, found) ↦ ground (arith, planned, find-key job_key id db.deliveries job found)
]

same_marker :
    (text_of : ℕ → Text) (a b : DeliveryJob)
    → a.id ≡ b.id
    → a.patch_digest ≡ b.patch_digest
    → marker text_of a ≡ marker text_of b
unfolding marker
same_marker text_of a b ids digests = cc

-- A search finds something where there is something to find.
first_where-Among :
    {A : Type 0} (test : A → Bool) (a : A) (bs : List A)
    → Among a bs
    → test a ≡ true
    → (b : A) × (first_where test bs ≡ some b)
unfolding first_where
first_where-Among test a [] there h = elim there [ ]
first_where-Among test a (b ∷ bs) there h = elim (Bool-cases (test b)) [
  | inl yes_it_is ↦ (b, rw yes_it_is refl)
  | inr no_it_is ↦ elim there [
    | inl e ↦ (b, ground (arith, ap test e))
    | inr later ↦ (let (c, found) = first_where-Among test a bs later h in (c, rw no_it_is found))
  ]
]

abbrev pub is_opened : DeliveryEnd → Bool
is_opened (opened url) = true
is_opened _ = false

module _ (text_of : ℕ → Text) (sha256 : String → ℕ) where
  -- Where a pull request with the marker of the job is found, a delivery ends with it and does nothing.
  pub found-opened :
      (seen : Db) (id token : ℕ) (w : Answers) (plan : Plan) (pulls : List Pull) (pr : Pull)
      → read_plan id seen ≡ some plan
      → w.pulls ≡ some pulls
      → first_where (mentions (marker text_of plan.job)) pulls ≡ some pr
      → (is_opened (end_of (deliver text_of sha256 seen id token w)) ≡ true)
        × (effects_of (deliver text_of sha256 seen id token w) ≡ [])
  unfolding deliver deliver_plan answer ◌>>=◌
  found-opened seen id token w plan pulls pr planned listed found =
      rw (planned, listed, found) (refl, refl)

  -- Where the list of the pull requests of the branch has one with the text of the job, a delivery ends
  -- with a pull request and does nothing.
  listed-opened :
      (seen : Db) (id token : ℕ) (w : Answers) (plan : Plan) (pulls : List Pull) (pull : Pull)
      → read_plan id seen ≡ some plan
      → w.pulls ≡ some pulls
      → Among pull pulls
      → mentions (marker text_of plan.job) pull ≡ true
      → (is_opened (end_of (deliver text_of sha256 seen id token w)) ≡ true)
        × (effects_of (deliver text_of sha256 seen id token w) ≡ [])
  listed-opened seen id token w plan pulls pull planned listed there marked =
      let (pr, found) =
        first_where-Among (mentions (marker text_of plan.job)) pull pulls there marked in
      found-opened seen id token w plan pulls pr planned listed found

  -- A pull request that a delivery has asked for is asked for once: where the list of the pull requests of
  -- the branch has it, with the body it was opened with, every later delivery of the same job, for the same
  -- patch, ends with a pull request and does nothing to the outside, whatever else is answered.
  pub deliver-again :
      (seen later : Db) (id token renewed : ℕ) (w w' : Answers) (plan plan' : Plan) (branch : ℕ × ℕ)
      (base : String) (body : Text) (pulls : List Pull) (url : String)
      → read_plan id seen ≡ some plan
      → read_plan id later ≡ some plan'
      → plan'.job.patch_digest ≡ plan.job.patch_digest
      → Among (requested branch base body) (effects_of (deliver text_of sha256 seen id token w))
      → w'.pulls ≡ some pulls
      → Among (record { html_url = url; body = some body }) pulls
      → (is_opened (end_of (deliver text_of sha256 later id renewed w')) ≡ true)
        × (effects_of (deliver text_of sha256 later id renewed w') ≡ [])
  deliver-again seen later id token renewed w w' plan plan' branch base body pulls url planned again
        same asked listed there =
      let allowed =
        All-Among (Allowed text_of sha256 plan token w) (requested branch base body) _
          (deliver-Allowed text_of sha256 seen id token w plan planned) asked in
      let marks =
        same_marker text_of plan'.job plan.job
          (read_plan-id id later plan' again ∙ sym (read_plan-id id seen plan planned)) same in
      listed-opened later id renewed w' plan' pulls (record { html_url = url; body = some body })
        again listed there
        (unfold mentions in
          (ap (λ m. has_text m body) marks
            ∙ ap (λ b. has_text (marker text_of plan.job) b) allowed.3
            ∙ body_mentions text_of plan.job plan.snapshot))
