-- ===== src/Delivery/Published.antt =====
-- What `deliver` promises: nothing leaves without the checks on the patch, the target and the lease.
use Prim.Native.String.{String}
use agent_reliability_platfo.Base.{
  ℕ, ◌≡◌, refl, sym, subst, ◌∙◌, true, false, Option, none, some, List, [], ◌∷◌, arith, All,
}
use agent_reliability_platfo.Base.Text.{Text}
use agent_reliability_platfo.Store.Table.{find, first_where, last_where}
use agent_reliability_platfo.Store.Rows.{Artifact, Db}
use agent_reliability_platfo.Store.Queries.{job_key}
use agent_reliability_platfo.Delivery.Decision.{is_patch_of}
use agent_reliability_platfo.Delivery.Jobs.{job_is}
use agent_reliability_platfo.Delivery.Plan.{Plan, read_plan, marker, message, pull_body}
use agent_reliability_platfo.Delivery.Acts.{
  Acts, Acts-goes, Acts-conflict_if, Acts-assert_target, Acts-answer, Acts-act, Acts-bind,
  Acts-lease, Acts-source, Acts-patch, Acts-push, lease_passed, patch_passed,
}
use agent_reliability_platfo.Delivery.Deliver.{
  Pull, Effect, recorded, pushed, requested, ◌>>◌, Answers, mentions, is_leased, is_other, publish,
  deliver_new, deliver_plan, deliver, effects_of,
}

some_inj : {A : Type 0} {a b : A} → some a ≡ some b → a ≡ b
some_inj e = ground (arith, e)

-- The target branch is where the snapshot expects it.
abbrev pub IsTarget : Plan → Option ℕ → Type 0
IsTarget plan target = target ≡ some plan.snapshot.delivery.expected_target_sha

-- The job has the lease with this token at a look at its row.
abbrev pub IsHeld : Plan → ℕ → Db × ℕ → Type 0
IsHeld plan token look =
    job_is (is_leased token look.1) (find job_key plan.job.id look.0.deliveries) ≡ true

module _ (text_of : ℕ → Text) (sha256 : String → ℕ) where
  -- The commit is that of the latest patch of the run, which is the one that was approved.
  pub record IsApproved (plan : Plan) (w : Answers) (commit : ℕ) : Type 0 where
    pub patch : Artifact
    pub latest : last_where (is_patch_of plan.run_id) w.at_patch.artifacts ≡ some patch
    pub identical : sha256 patch.content ≡ plan.job.patch_digest
    pub committed :
        w.commit_of plan.snapshot.execution_sha patch.content
          (message text_of plan.job plan.snapshot)
        ≡ some commit
    pub on_target : IsTarget plan w.first_target
    pub unpublished : w.pulls ≡ some []

  -- What must hold of an effect.
  abbrev pub Allowed : Plan → ℕ → Answers → Effect → Type 0
  Allowed plan token w (recorded commit) =
      IsApproved plan w commit × (is_other plan.job.commit_sha commit ≡ false)
  Allowed plan token w (pushed branch commit) =
      IsApproved plan w commit
      × (branch ≡ plan.job.branch)
      × (w.remote_ref ≡ some none)
      × IsTarget plan w.second_target
      × IsHeld plan token w.first_look
  Allowed plan token w (requested branch base body) =
      (w.pulls ≡ some [])
      × (branch ≡ plan.job.branch)
      × (base ≡ plan.snapshot.delivery.target_branch)
      × (body ≡ pull_body text_of plan.job plan.snapshot)
      × IsTarget plan w.third_target
      × IsHeld plan token w.second_look

  publish-Allowed :
      (plan : Plan) (token : ℕ) (w : Answers) (commit : ℕ)
      → IsApproved plan w commit
      → Acts (Allowed plan token w) (publish text_of plan token w commit)
  unfolding publish ◌>>◌
  publish-Allowed plan token w commit fair = Acts-conflict_if _ _ _ λ same.
      Acts-act _ _ _ (fair, same)
        λ u written. Acts-answer _ _ λ known there. Acts-conflict_if _ _ _ λ ours.
          Acts-answer _ _ λ second second_read. Acts-assert_target _ _ _ λ second_same.
            Acts-bind _ _ (Acts-lease _ _ _) λ v es first_held.
              Acts-bind _ _
                (Acts-push known plan.job.branch commit w.push_done λ fresh. (
                  fair,
                  refl,
                  rw fresh at there,
                  rw second_same at second_read,
                  lease_passed _ _ _ v es first_held,
                ))
                λ x fs gone. Acts-answer _ _ λ third third_read.
                  Acts-assert_target _ _ _ λ third_same.
                    Acts-bind _ _ (Acts-lease _ _ _) λ y gs second_held.
                      Acts-act _ _ _
                        (
                          fair.unpublished,
                          refl,
                          refl,
                          refl,
                          rw third_same at third_read,
                          lease_passed _ _ _ y gs second_held,
                        )
                        λ url answered. Acts-goes _

  deliver_new-Allowed :
      (plan : Plan) (token : ℕ) (w : Answers)
      → w.pulls ≡ some []
      → Acts (Allowed plan token w) (deliver_new text_of sha256 plan token w)
  unfolding deliver_new ◌>>◌
  deliver_new-Allowed plan token w none_there = Acts-answer _ _ λ first first_read.
      Acts-assert_target _ _ _ λ first_same. Acts-bind _ _ (Acts-source _ _ _) λ u es read.
        Acts-bind _ _ (Acts-patch _ _ _) λ content fs passed. Acts-answer _ _ λ commit made.
          (let (patch, latest, identical, same) = patch_passed _ _ _ content fs passed in
            publish-Allowed plan token w commit (record {
              patch = patch;
              latest = latest;
              identical = identical;
              committed = rw same at made;
              on_target = rw first_same at first_read;
              unpublished = none_there;
            }))

  deliver_plan-Allowed :
      (plan : Plan) (token : ℕ) (w : Answers) (existing : List Pull) (known : Option Pull)
      → w.pulls ≡ some existing
      → Acts (Allowed plan token w) (deliver_plan text_of sha256 plan token w existing known)
  unfolding deliver_plan
  deliver_plan-Allowed plan token w existing (some pr) h = Acts-goes _
  deliver_plan-Allowed plan token w [] none h = deliver_new-Allowed plan token w h
  deliver_plan-Allowed plan token w (p ∷ ps) none h = record { at = tt }

  -- Everything that a delivery of a job does to the outside has passed its checks. A commit is recorded, and
  -- pushed, only where it is that of the latest patch of the run on the execution commit, the patch has the
  -- digest that was approved, the target branch stood where the snapshot expects it and the branch of the
  -- job had no pull request; it is recorded only where no other one was. It is pushed only to the branch of
  -- the job, where that did not exist, with the target still there and the lease still held. A pull request
  -- is opened only from that branch to the target, where the branch had none, with the text of the job,
  -- again with the target still there and the lease still held.
  pub deliver-Allowed :
      (seen : Db) (id token : ℕ) (w : Answers) (plan : Plan)
      → read_plan id seen ≡ some plan
      → All (Allowed plan token w) (effects_of (deliver text_of sha256 seen id token w))
  unfolding deliver
  deliver-Allowed seen id token w plan planned =
      (Acts-answer (read_plan id seen) _ λ p there. Acts-answer _ _ λ existing read.
        (let same : p ≡ plan = some_inj (sym there ∙ planned) in
          subst
            (λ q. Acts (Allowed q token w) (
              deliver_plan text_of sha256 p token w existing
                (first_where (mentions (marker text_of p.job)) existing)))
            same (deliver_plan-Allowed p token w existing _ read))).at
