-- ===== src/Delivery/Deliver.antt =====
-- delivery.service.ts, `deliver`: the patch of a job becomes a commit, a branch and a pull request. What
-- GitHub and git answer is a parameter, one field for each call, and so is what other transactions have
-- left in the database at each of the reads; what `deliver` does to the outside is a list of effects.
use Prim.Native.String.{String}
use agent_reliability_platfo.Base.{
  ℕ, Bool, true, false, not, ◌&&◌, Option, none, some, List, [], ◌∷◌, ◌++◌, ◌==◌, ltb,
}
use agent_reliability_platfo.Base.Text.{Text, codes, has_text}
use agent_reliability_platfo.Shared.TaskSnapshot.{Source}
use agent_reliability_platfo.Store.Table.{find, first_where, last_where}
use agent_reliability_platfo.Store.Rows.{DeliveryJob, Artifact, Db}
use agent_reliability_platfo.Store.Queries.{job_key}
use agent_reliability_platfo.Github.Import.{GithubApi, inspect}
use agent_reliability_platfo.Delivery.Decision.{is_patch_of, is_identical}
use agent_reliability_platfo.Delivery.Jobs.{DeliveryEnd, opened, conflicted, broken, is_running}
use agent_reliability_platfo.Delivery.Plan.{Plan, read_plan, marker, message, pull_body}

-- A pull request as the list of those of a branch has it.
pub record Pull : Type 0 where
  pub html_url : String
  pub body : Option Text

-- What is done to the outside: the row of the job gets the commit, the commit is pushed to the branch,
-- and a pull request is opened from the branch to another, with this body.
pub data Effect : Type 0 where
  recorded : ℕ → Effect
  pushed : ℕ × ℕ → ℕ → Effect
  requested : ℕ × ℕ → String → Text → Effect

-- Steps with their effects, up to an exception or a `return`.
pub data Course (A : Type 0) : Type 0 where
  goes : A → List Effect → Course A
  stops : DeliveryEnd → List Effect → Course A

abbrev pub behind : {A : Type 0} → List Effect → Course A → Course A
behind es (goes a fs) = goes a (es ++ fs)
behind es (stops end fs) = stops end (es ++ fs)

infixl 5 ◌>>=◌ ◌>>◌
unfoldable pub ◌>>=◌ : {A B : Type 0} → Course A → (A → Course B) → Course B
goes a es >>= f = behind es (f a)
stops end es >>= f = stops end es

unfoldable pub ◌>>◌ : {A B : Type 0} → Course A → Course B → Course B
unfolding ◌>>=◌
m >> k = m >>= λ _. k

-- The answer of a call; without one the call has thrown.
unfoldable pub answer : {A : Type 0} → Option A → Course A
answer none = stops broken []
answer (some a) = goes a []

-- `if (bad) throw new ConflictException(message)`
unfoldable pub conflict_if : Bool → String → Course (Unit {0})
conflict_if true message = stops (conflicted message) []
conflict_if false message = goes tt []

-- A call that acts on the outside, whether it is answered or not.
unfoldable pub act : {A : Type 0} → Effect → Option A → Course A
act e none = stops broken (e ∷ [])
act e (some a) = goes a (e ∷ [])

-- What the calls answer, in the order of the calls; `none` where a call throws. `commit_of` is the clone
-- with the checkout, the patch and the commit on it, `looks` are the database and the time at the looks
-- at the lease.
pub record Answers : Type 0 where
  pub pulls : Option (List Pull)
  pub first_target : Option ℕ
  pub api : GithubApi
  pub at_patch : Db
  pub commit_of : ℕ → String → Text → Option ℕ
  pub row_written : Option (Unit {0})
  pub remote_ref : Option (Option ℕ)
  pub second_target : Option ℕ
  pub first_look : Db × ℕ
  pub push_done : Option (Unit {0})
  pub third_target : Option ℕ
  pub second_look : Db × ℕ
  pub created : Option String

-- `pr.body?.includes(marker)`
unfoldable pub mentions : Text → Pull → Bool
unfolding has_text
mentions mark p = elim p.body [ none ↦ false | some body ↦ has_text mark body ]

-- `assertDeliveryTarget`
unfoldable pub assert_target : ℕ → ℕ → Course (Unit {0})
assert_target expected current =
    conflict_if (not (expected == current)) "Target branch changed; create and verify a new task"

-- `assertLease`
abbrev pub is_leased : ℕ → ℕ → DeliveryJob → Bool
is_leased token now j =
    is_running j.status
    && elim j.lease_token [ none ↦ false | some t ↦ t == token ]
    && elim j.lease_expires_at [ none ↦ false | some t ↦ ltb now t ]

unfoldable pub assert_lease : ℕ → ℕ → Db × ℕ → Course (Unit {0})
assert_lease id token look = do
  current ← answer (find job_key id look.0.deliveries)
  conflict_if (not (is_leased token look.1 current)) "Delivery lease expired"

-- The import of the source of a snapshot is read again.
unfoldable pub check_source : GithubApi → Text → Option Source → Course (Unit {0})
check_source api repo none = goes tt []
check_source api repo (some source) = do answer (inspect api (codes source.pr_url) repo); goes tt []

-- The patch of the run, which is to be the one that was approved.
unfoldable pub approved_patch : (String → ℕ) → ℕ → Option Artifact → Course String
approved_patch sha256 digest none = stops (conflicted "Patch changed after approval") []
approved_patch sha256 digest (some patch) = do
  conflict_if (not (is_identical sha256 (some patch) (some digest))) "Patch changed after approval"
  goes patch.content []

-- A commit that is known differs from this one.
abbrev pub is_other : Option ℕ → ℕ → Bool
is_other none commit = false
is_other (some known) commit = not (known == commit)

-- The branch is pushed where it is not there yet.
unfoldable pub push_branch : Option ℕ → ℕ × ℕ → ℕ → Option (Unit {0}) → Course (Unit {0})
push_branch (some known) branch commit finished = goes tt []
push_branch none branch commit finished = act (pushed branch commit) finished

module _ (text_of : ℕ → Text) where
  -- From the commit to the pull request.
  unfoldable pub publish : Plan → ℕ → Answers → ℕ → Course DeliveryEnd
  publish plan token w commit = do
    conflict_if (is_other plan.job.commit_sha commit) "Delivery commit changed"
    act (recorded commit) w.row_written
    known ← answer w.remote_ref
    conflict_if (is_other known commit) "Repair branch changed externally"
    second ← answer w.second_target
    assert_target plan.snapshot.delivery.expected_target_sha second
    assert_lease plan.job.id token w.first_look
    push_branch known plan.job.branch commit w.push_done
    third ← answer w.third_target
    assert_target plan.snapshot.delivery.expected_target_sha third
    assert_lease plan.job.id token w.second_look
    url ←
        act
          (requested plan.job.branch plan.snapshot.delivery.target_branch
            (pull_body text_of plan.job plan.snapshot))
          w.created
    goes (opened url) []

module _ (text_of : ℕ → Text) (sha256 : String → ℕ) where
  -- What follows where the branch has no pull request yet.
  unfoldable pub deliver_new : Plan → ℕ → Answers → Course DeliveryEnd
  unfolding publish
  deliver_new plan token w = do
    first ← answer w.first_target
    assert_target plan.snapshot.delivery.expected_target_sha first
    check_source w.api (codes plan.github_repo) plan.snapshot.source
    patch ←
        approved_patch sha256 plan.job.patch_digest
          (last_where (is_patch_of plan.run_id) w.at_patch.artifacts)
    commit ←
        answer
          (w.commit_of plan.snapshot.execution_sha patch (message text_of plan.job plan.snapshot))
    publish text_of plan token w commit

  unfoldable pub deliver_plan : Plan → ℕ → Answers → List Pull → Option Pull → Course DeliveryEnd
  unfolding deliver_new
  deliver_plan plan token w existing (some pr) = goes (opened pr.html_url) []
  deliver_plan plan token w [] none = deliver_new plan token w
  deliver_plan plan token w (p ∷ ps) none =
      stops (conflicted "Delivery branch already belongs to another PR") []

  -- `deliver`; `seen` is the database at its first read.
  unfoldable pub deliver : Db → ℕ → ℕ → Answers → Course DeliveryEnd
  unfolding deliver_plan
  deliver seen id token w = do
    plan ← answer (read_plan id seen)
    existing ← answer w.pulls
    deliver_plan plan token w existing (first_where (mentions (marker text_of plan.job)) existing)

-- How a course ends, and its effects.
abbrev pub end_of : Course DeliveryEnd → DeliveryEnd
end_of (goes end es) = end
end_of (stops end es) = end

abbrev pub effects_of : {A : Type 0} → Course A → List Effect
effects_of (goes a es) = es
effects_of (stops end es) = es
