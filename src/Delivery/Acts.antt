-- ===== src/Delivery/Acts.antt =====
-- Rules on the effects of a course: one for each way to build it, which hands what the step has checked to
-- what follows it.
use Prim.Native.String.{String}
use agent_reliability_platfo.Base.{
  ℕ, ◌≡◌, refl, Bool, true, false, not, Option, none, some, List, [], ◌∷◌, arith, All, All-append,
}
use agent_reliability_platfo.Base.Text.{Text}
use agent_reliability_platfo.Shared.TaskSnapshot.{Source}
use agent_reliability_platfo.Store.Table.{find}
use agent_reliability_platfo.Store.Rows.{Artifact, DeliveryJob, Db}
use agent_reliability_platfo.Store.Queries.{job_key}
use agent_reliability_platfo.Github.Import.{GithubApi}
use agent_reliability_platfo.Delivery.Jobs.{job_is}
use agent_reliability_platfo.Delivery.Deliver.{
  Effect, pushed, Course, goes, stops, behind, ◌>>=◌, ◌>>◌, answer, conflict_if, act, assert_target,
  is_leased, assert_lease, check_source, approved_patch, push_branch, effects_of,
}

-- The effects of a course all satisfy `P`.
pub record Acts {A : Type 0} (P : Effect → Type 0) (m : Course A) : Type 0 where
  pub at : All P (effects_of m)

module _ {B : Type 0} {P : Effect → Type 0} where
  pub Acts-goes : (b : B) → Acts P (goes b [])
  Acts-goes b = record { at = tt }

  Acts-behind : (es : List Effect) (m : Course B) → All P es → Acts P m → Acts P (behind es m)
  Acts-behind es (goes b fs) before after = record { at = All-append P es fs before after.at }
  Acts-behind es (stops end fs) before after = record { at = All-append P es fs before after.at }

  pub Acts-conflict_if :
      (b : Bool) (text : String) (k : Course B)
      → (b ≡ false → Acts P k)
      → Acts P (conflict_if b text >> k)
  unfolding conflict_if ◌>>=◌ ◌>>◌
  Acts-conflict_if true text k acts = record { at = tt }
  Acts-conflict_if false text k acts = Acts-behind [] k tt (acts refl)

  pub Acts-assert_target :
      (expected current : ℕ) (k : Course B)
      → (current ≡ expected → Acts P k)
      → Acts P (assert_target expected current >> k)
  unfolding assert_target
  Acts-assert_target expected current k acts =
      Acts-conflict_if _ _ k λ same. acts (ground (arith, same))

module _ {A B : Type 0} {P : Effect → Type 0} where
  pub Acts-answer :
      (o : Option A) (f : A → Course B)
      → ((a : A) → o ≡ some a → Acts P (f a))
      → Acts P (answer o >>= f)
  unfolding answer ◌>>=◌
  Acts-answer none f acts = record { at = tt }
  Acts-answer (some a) f acts = Acts-behind [] (f a) tt (acts a refl)

  pub Acts-act :
      (e : Effect) (o : Option A) (f : A → Course B)
      → P e
      → ((a : A) → o ≡ some a → Acts P (f a))
      → Acts P (act e o >>= f)
  unfolding act ◌>>=◌
  Acts-act e none f fair acts = record { at = (fair, tt) }
  Acts-act e (some a) f fair acts = Acts-behind (e ∷ []) (f a) (fair, tt) (acts a refl)

  -- A step of several is followed by what its last one is followed by.
  pub Acts-bind :
      (m : Course A) (f : A → Course B)
      → Acts P m
      → ((a : A) (es : List Effect) → m ≡ goes a es → Acts P (f a))
      → Acts P (m >>= f)
  unfolding ◌>>=◌
  Acts-bind (goes a es) f before acts = Acts-behind es (f a) before.at (acts a es refl)
  Acts-bind (stops end es) f before acts = record { at = before.at }

module _ {P : Effect → Type 0} where
  Acts-check : (b : Bool) (text : String) → Acts P (conflict_if b text)
  unfolding conflict_if
  Acts-check true text = record { at = tt }
  Acts-check false text = record { at = tt }

  pub Acts-lease : (id token : ℕ) (look : Db × ℕ) → Acts P (assert_lease id token look)
  unfolding assert_lease
  Acts-lease id token look = Acts-answer _ _ λ j there. Acts-check _ _

  pub Acts-source :
      (api : GithubApi) (repo : Text) (source : Option Source)
      → Acts P (check_source api repo source)
  unfolding check_source ◌>>◌
  Acts-source api repo none = Acts-goes tt
  Acts-source api repo (some source) = Acts-answer _ _ λ read there. Acts-goes tt

  pub Acts-patch :
      (sha256 : String → ℕ) (digest : ℕ) (o : Option Artifact)
      → Acts P (approved_patch sha256 digest o)
  unfolding approved_patch
  Acts-patch sha256 digest none = record { at = tt }
  Acts-patch sha256 digest (some patch) = Acts-conflict_if _ _ _ λ same. Acts-goes patch.content

  pub Acts-push :
      (known : Option ℕ) (branch : ℕ × ℕ) (commit : ℕ) (finished : Option (Unit {0}))
      → (known ≡ none → P (pushed branch commit))
      → Acts P (push_branch known branch commit finished)
  unfolding push_branch act
  Acts-push (some c) branch commit finished fair = Acts-goes tt
  Acts-push none branch commit none fair = record { at = (fair refl, tt) }
  Acts-push none branch commit (some u) fair = record { at = (fair refl, tt) }

-- What a step has found where it was passed.
lease_found :
    (token now : ℕ) (o : Option DeliveryJob) (u : Unit {0}) (es : List Effect)
    → (answer o >>= λ j. conflict_if (not (is_leased token now j)) "Delivery lease expired")
      ≡ goes u es
    → job_is (is_leased token now) o ≡ true
unfolding answer conflict_if ◌>>=◌
lease_found token now none u es passed = ground arith
lease_found token now (some j) u es passed = ground arith

pub lease_passed :
    (id token : ℕ) (look : Db × ℕ) (u : Unit {0}) (es : List Effect)
    → assert_lease id token look ≡ goes u es
    → job_is (is_leased token look.1) (find job_key id look.0.deliveries) ≡ true
unfolding assert_lease
lease_passed id token look u es passed =
    lease_found token look.1 (find job_key id look.0.deliveries) u es passed

pub patch_passed :
    (sha256 : String → ℕ) (digest : ℕ) (o : Option Artifact) (content : String) (es : List Effect)
    → approved_patch sha256 digest o ≡ goes content es
    → (patch : Artifact) × (o ≡ some patch)
      × (sha256 patch.content ≡ digest)
      × (content ≡ patch.content)
unfolding approved_patch conflict_if ◌>>=◌ ◌>>◌
patch_passed sha256 digest none content es passed = ground arith
patch_passed sha256 digest (some patch) content es passed =
    (patch, refl, ground arith, ground arith)
