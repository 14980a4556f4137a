-- ===== src/Delivery/Asks.antt =====
-- How many pull requests a delivery asks for: at most one, by one rule for each way to build a course.
use Prim.Native.String.{String}
use agent_reliability_platfo.Base.{
  ℕ, ◌+◌, ◌≤◌, ◌≡◌, Bool, true, false, Option, none, some, List, [], ◌∷◌, ◌++◌, arith,
}
use agent_reliability_platfo.Base.Text.{Text}
use agent_reliability_platfo.Shared.TaskSnapshot.{Source}
use agent_reliability_platfo.Store.Rows.{Artifact, Db}
use agent_reliability_platfo.Github.Import.{GithubApi}
use agent_reliability_platfo.Delivery.Jobs.{opened}
use agent_reliability_platfo.Delivery.Plan.{Plan}
use agent_reliability_platfo.Delivery.Deliver.{
  Pull, Effect, recorded, pushed, requested, Course, goes, stops, behind, ◌>>=◌, ◌>>◌, answer,
  conflict_if, act, Answers, assert_target, assert_lease, check_source, approved_patch, push_branch,
  publish, deliver_new, deliver_plan, deliver, effects_of,
}

-- How many pull requests a list of effects asks for.
abbrev pub asked : Effect → ℕ
asked (requested branch base body) = 1
asked _ = 0

unfoldable pub requests : List Effect → ℕ
requests [] = 0
requests (e ∷ es) = asked e + requests es

requests-append : (es fs : List Effect) → requests (es ++ fs) ≡ requests es + requests fs
unfolding requests
requests-append [] fs = omega arith
requests-append (e ∷ es) fs = omega (arith, requests-append es fs)

-- A course asks for at most `n` pull requests.
pub record Asks {A : Type 0} (n : ℕ) (m : Course A) : Type 0 where
  pub at : requests (effects_of m) ≤ n

module _ {B : Type 0} {n : ℕ} where
  Asks-behind :
      (es : List Effect) (m : Course B) → requests es ≤ 0 → Asks n m → Asks n (behind es m)
  Asks-behind es (goes b fs) quiet k = record { at = omega (arith, requests-append es fs, k.at) }
  Asks-behind es (stops end fs) quiet k = record { at = omega (arith, requests-append es fs, k.at) }

module _ {A B : Type 0} {n : ℕ} where
  Asks-bind :
      (m : Course A) (f : A → Course B) → Asks 0 m → ((a : A) → Asks n (f a)) → Asks n (m >>= f)
  unfolding ◌>>=◌
  Asks-bind (goes a es) f quiet k = Asks-behind es (f a) quiet.at (k a)
  Asks-bind (stops end es) f quiet k = record { at = omega (arith, quiet.at) }

  Asks-then : (m : Course A) (k : Course B) → Asks 0 m → Asks n k → Asks n (m >> k)
  unfolding ◌>>◌
  Asks-then m k quiet next = Asks-bind m (λ _. k) quiet (λ _. next)

module _ {A : Type 0} where
  Asks-goes : {n : ℕ} (a : A) → Asks n (goes a [])
  unfolding requests
  Asks-goes a = record { at = omega arith }

  Asks-answer : (o : Option A) → Asks 0 (answer o)
  unfolding requests answer
  Asks-answer none = record { at = omega arith }
  Asks-answer (some a) = record { at = omega arith }

  Asks-act : (e : Effect) (o : Option A) → Asks (asked e) (act e o)
  unfolding requests act
  Asks-act e none = record { at = omega arith }
  Asks-act e (some a) = record { at = omega arith }

Asks-conflict_if : (b : Bool) (text : String) → Asks 0 (conflict_if b text)
unfolding requests conflict_if
Asks-conflict_if true text = record { at = omega arith }
Asks-conflict_if false text = record { at = omega arith }

Asks-recorded : {A : Type 0} (commit : ℕ) (o : Option A) → Asks 0 (act (recorded commit) o)
Asks-recorded commit o = Asks-act (recorded commit) o

-- The request itself, and what is answered.
Asks-requested :
    (branch : ℕ × ℕ) (base : String) (body : Text) (o : Option String)
    → Asks 1 (act (requested branch base body) o >>= λ url. goes (opened url) [])
unfolding act ◌>>=◌ requests
Asks-requested branch base body none = record { at = omega arith }
Asks-requested branch base body (some url) = record { at = omega arith }

ruleset asks_rules =
    (Asks-bind, Asks-then, Asks-goes, Asks-answer, Asks-recorded, Asks-conflict_if, Asks-requested)

Asks-assert_target : (expected current : ℕ) → Asks 0 (assert_target expected current)
unfolding assert_target
Asks-assert_target expected current = search asks_rules

Asks-assert_lease : (id token : ℕ) (look : Db × ℕ) → Asks 0 (assert_lease id token look)
unfolding assert_lease
Asks-assert_lease id token look = search asks_rules

Asks-check_source :
    (api : GithubApi) (repo : Text) (source : Option Source) → Asks 0 (check_source api repo source)
unfolding check_source
Asks-check_source api repo none = search asks_rules
Asks-check_source api repo (some source) = search asks_rules

Asks-approved_patch :
    (sha256 : String → ℕ) (digest : ℕ) (o : Option Artifact)
    → Asks 0 (approved_patch sha256 digest o)
unfolding approved_patch requests
Asks-approved_patch sha256 digest none = record { at = omega arith }
Asks-approved_patch sha256 digest (some patch) = search asks_rules

Asks-push_branch :
    (known : Option ℕ) (branch : ℕ × ℕ) (commit : ℕ) (finished : Option (Unit {0}))
    → Asks 0 (push_branch known branch commit finished)
unfolding push_branch
Asks-push_branch (some c) branch commit finished = search asks_rules
Asks-push_branch none branch commit finished = Asks-act (pushed branch commit) finished

module _ (text_of : ℕ → Text) (sha256 : String → ℕ) where
  Asks-publish :
      (plan : Plan) (token : ℕ) (w : Answers) (commit : ℕ)
      → Asks 1 (publish text_of plan token w commit)
  unfolding publish
  Asks-publish plan token w commit =
      search (asks_rules, Asks-assert_target, Asks-assert_lease, Asks-push_branch) depth 16

  Asks-deliver_new :
      (plan : Plan) (token : ℕ) (w : Answers) → Asks 1 (deliver_new text_of sha256 plan token w)
  unfolding deliver_new
  Asks-deliver_new plan token w =
      search (asks_rules, Asks-assert_target, Asks-check_source, Asks-approved_patch, Asks-publish)
        depth 12

  Asks-deliver_plan :
      (plan : Plan) (token : ℕ) (w : Answers) (existing : List Pull) (known : Option Pull)
      → Asks 1 (deliver_plan text_of sha256 plan token w existing known)
  unfolding deliver_plan requests
  Asks-deliver_plan plan token w existing (some pr) = Asks-goes _
  Asks-deliver_plan plan token w [] none = Asks-deliver_new plan token w
  Asks-deliver_plan plan token w (p ∷ ps) none = record { at = omega arith }

  pub Asks-deliver :
      (seen : Db) (id token : ℕ) (w : Answers) → Asks 1 (deliver text_of sha256 seen id token w)
  unfolding deliver
  Asks-deliver seen id token w = search (asks_rules, Asks-deliver_plan)
