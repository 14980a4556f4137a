-- ===== src/Github/ImportTests.antt =====
-- The import of a pull request with two files and two checks, of which one failed.
use agent_reliability_platfo.Base.{
  ℕ, suc, ◌-◌, ◌*◌, ◌≡◌, refl, true, false, ◌&&◌, Option, none, some, List, [], ◌∷◌, arith, take,
  drop, if◌then◌else◌,
}
use agent_reliability_platfo.Base.Text.{
  Text, has_text, codes, after, span, to_number, scan, excess_bits, nearest,
}
use agent_reliability_platfo.Github.Address.{parse_pr_url}
use agent_reliability_platfo.Github.Import.{
  PullRequest, PullFile, Conclusion, CheckRun, GithubApi, inspect, inspection_of, same_repo,
  same_full_name, read_log,
}
use agent_reliability_platfo.Github.Redaction.{
  log_text, replace, token_size, github_size, size_behind,
}
use agent_reliability_platfo.Github.Redacted.{log_text-hides}
use agent_reliability_platfo.Github.Pages.{Serves, inspect-Serves}

abbrev changed : List PullFile
changed =
    record { filename = "a.py"; status = "modified"; patch = some (codes "@@") }
    ∷ record { filename = "b.py"; status = "added"; patch = none }
    ∷ []

abbrev checked : List CheckRun
checked =
    record {
      id = 1;
      name = "lint";
      sha = 9;
      conclusion = Conclusion.other_conclusion;
      url = "u";
      summary = none;
      text = none;
    }
    ∷ record {
      id = 2;
      name = "tests";
      sha = 9;
      conclusion = Conclusion.failure;
      url = "v";
      summary = some (codes "1 failed");
      text = none;
    }
    ∷ []

abbrev opened : PullRequest
opened = record {
  is_open = true;
  head_repo = some (codes "o/r");
  base_repo = some (codes "o/r");
  title = "fix";
  body = none;
  head_sha = 9;
  base_sha = 8;
  head_branch = "fix";
  base_branch = "main";
}

-- A list in pages of 100.
abbrev pages_of {ℓ} : {A : Type ℓ} → List A → ℕ → Option (List A)
pages_of xs page = some (take 100 (drop ((page - 1) * 100) xs))

pages_of-Serves {ℓ} : {A : Type ℓ} (xs : List A) → Serves (pages_of xs) xs
pages_of-Serves xs p = let e : suc p - 1 ≡ p = omega arith in rw e refl

abbrev api : GithubApi
api = record {
  pull = λ repo number. some opened;
  files = λ repo number. pages_of changed;
  checks = λ repo sha. pages_of checked;
  workflow_runs = λ repo sha. some [];
}

url_read :
    parse_pr_url (codes "https://github.com/O/r/pull/7")
    ≡ some (record { repo = codes "O/r"; number = 7 })
unfolding parse_pr_url after span to_number scan excess_bits nearest
url_read = refl

inspect-Serves_example : inspect api (codes "https://github.com/O/r/pull/7") (codes "o/r") ≡ (
    if same_repo (codes "O/r") (codes "o/r")
      && (opened.is_open && same_full_name opened.head_repo opened.base_repo)
    then some (inspection_of opened (take 3_000 changed) (take 1_000 checked) [])
    else none)
inspect-Serves_example =
    inspect-Serves api (codes "https://github.com/O/r/pull/7") (codes "o/r")
      (record { repo = codes "O/r"; number = 7 }) opened changed checked [] url_read refl
      (pages_of-Serves changed) (pages_of-Serves checked) refl

log_of_two_chunks : read_log 0 ((1 ∷ 2 ∷ []) ∷ [] ∷ (3 ∷ []) ∷ []) ≡ 1 ∷ 2 ∷ 3 ∷ []
unfolding read_log
log_of_two_chunks = refl

abbrev secret : Text
secret = codes "ghp_0123456789"

abbrev cloned : Text
cloned = codes "clone https://ghp_0123456789@github.com with ghs_other"

log_text-cloned :
    log_text (some secret) cloned 54 ≡ codes "clone https://[REDACTED]@github.com with [REDACTED]"
unfolding log_text replace token_size github_size size_behind after span
log_text-cloned = refl

log_text-hides_example : has_text secret (log_text (some secret) cloned 200_000) ≡ false
log_text-hides_example =
    log_text-hides secret cloned 200_000
      (
        refl,
        (
          refl,
          (
            refl,
            (
              refl,
              (refl, (refl, (refl, (refl, (refl, (refl, (refl, (refl, (refl, (refl, tt)))))))))),
            ),
          ),
        ),
      )
      (omega arith)
