-- ===== src/Github/Import.antt =====
-- apps/control-plane/src/modules/github/pr-import.service.ts: `inspect`, which reads a pull request with its
-- files and failed checks page by page, and the loop of `jobLog` that reads a log. The answers of the
-- GitHub API are parameters; `none` is a failed request, which ends the import with an exception. The
-- repository of a project is ASCII text, so its lower case is that of the letters A to Z.
use Prim.Native.String.{String, len}
use agent_reliability_platfo.Base.{
  ℕ, zero, suc, ◌+◌, ◌-◌, Bool, true, false, ◌&&◌, Option, none, some, List, [], ◌∷◌, ◌++◌, map,
  ◌==◌, ltb, leb, filter, length, take, if◌then◌else◌,
}
use agent_reliability_platfo.Base.Text.{Text, same_text}
use agent_reliability_platfo.Github.Address.{◌>>=◌, parse_pr_url}

pub record PullRequest : Type 0 where
  pub is_open : Bool
  pub head_repo : Option Text
  pub base_repo : Option Text
  pub title : String
  pub body : Option String
  pub head_sha : ℕ
  pub base_sha : ℕ
  pub head_branch : String
  pub base_branch : String

-- The texts of patches and summaries, as lists of their characters.
pub record PullFile : Type 0 where
  pub filename : String
  pub status : String
  pub patch : Option Text

pub data Conclusion : Type 0 where
  failure timed_out cancelled action_required : Conclusion
  other_conclusion : Conclusion

pub record CheckRun : Type 0 where
  pub id : ℕ
  pub name : String
  pub sha : ℕ
  pub conclusion : Conclusion
  pub url : String
  pub summary : Option Text
  pub text : Option Text

-- A failed check as it is listed.
pub record FailedCheck : Type 0 where
  pub id : ℕ
  pub name : String
  pub sha : ℕ
  pub conclusion : Conclusion
  pub url : String
  pub summary : Text
  pub text : Text

pub record WorkflowRun : Type 0 where
  pub id : ℕ
  pub name : String
  pub attempt : ℕ
  pub sha : ℕ
  pub conclusion : Conclusion
  pub url : String
  pub created_at : ℕ

-- The answers of the API: a pull request by repository and number, pages of its files, pages of the
-- checks of a commit, and the workflow runs of a commit.
pub record GithubApi : Type 0 where
  pub pull : Text → ℕ → Option PullRequest
  pub files : Text → ℕ → ℕ → Option (List PullFile)
  pub checks : Text → ℕ → ℕ → Option (List CheckRun)
  pub workflow_runs : Text → ℕ → Option (List WorkflowRun)

pub record Inspection : Type 0 where
  pub title : String
  pub description : String
  pub head_sha : ℕ
  pub base_sha : ℕ
  pub head_branch : String
  pub base_branch : String
  pub files : List PullFile
  pub checks : List FailedCheck
  pub runs : List WorkflowRun
  pub checkout_sha : Option ℕ

module _ {ℓ} {A : Type ℓ} where
  -- A batch, and the pages that follow where it has 100 rows or more.
  unfoldable pub join_pages : Option (List A) → Option (List A) → Option (List A)
  join_pages none rest = none
  join_pages (some batch) none = if ltb (length batch) 100 then some batch else none
  join_pages (some batch) (some others) =
      if ltb (length batch) 100 then some batch else some (batch ++ others)

  -- `for (let page = 1; page <= pages; page++)`, which a page of fewer than 100 ends.
  unfoldable pub collect : (ℕ → Option (List A)) → ℕ → ℕ → Option (List A)
  unfolding join_pages
  collect get zero page = some []
  collect get (suc pages) page = join_pages (get page) (collect get pages (page + 1))

abbrev lower : ℕ → ℕ
lower c = if leb b'A' c && leb c b'Z' then c + 32 else c

-- `a.toLowerCase() === b.toLowerCase()`
unfoldable pub same_repo : Text → Text → Bool
unfolding same_text
same_repo a b = same_text (map lower a) (map lower b)

unfoldable pub same_full_name : Option Text → Option Text → Bool
unfolding same_text
same_full_name none none = true
same_full_name (some a) (some b) = same_text a b
same_full_name _ _ = false

abbrev cut_to : ℕ → Option Text → Text
cut_to n none = []
cut_to n (some t) = take n t

-- A file, its patch cut to 10000 characters.
abbrev pub imported_file : PullFile → PullFile
imported_file f = record f { patch = elim f.patch [ none ↦ none | some t ↦ some (take 10_000 t) ] }

abbrev pub is_failed : CheckRun → Bool
is_failed c = elim c.conclusion [ other_conclusion ↦ false | _ ↦ true ]

abbrev pub failed_check : CheckRun → FailedCheck
failed_check c = record {
  id = c.id;
  name = c.name;
  sha = c.sha;
  conclusion = c.conclusion;
  url = c.url;
  summary = cut_to 20_000 c.summary;
  text = cut_to 20_000 c.text;
}

-- `pr.body || pr.title`
abbrev description_of : PullRequest → String
description_of pr = elim pr.body [
  | none ↦ pr.title
  | some text ↦ if len text == 0 then pr.title else text
]

-- The answer of `inspect`.
abbrev pub inspection_of :
    PullRequest → List PullFile → List CheckRun → List WorkflowRun → Inspection
inspection_of pr files checks runs = record {
  title = pr.title;
  description = description_of pr;
  head_sha = pr.head_sha;
  base_sha = pr.base_sha;
  head_branch = pr.head_branch;
  base_branch = pr.base_branch;
  files = map imported_file files;
  checks = map failed_check (filter is_failed checks);
  runs = runs;
  checkout_sha = none;
}

-- What is read of a pull request that can be imported.
unfoldable pub inspect_pull : GithubApi → Text → ℕ → PullRequest → Option Inspection
unfolding collect
inspect_pull api repo number pr = do
  files ← collect (api.files repo number) 30 1
  checks ← collect (api.checks repo pr.head_sha) 10 1
  runs ← api.workflow_runs repo pr.head_sha
  some (inspection_of pr files checks runs)

-- The import of a pull request that was found.
unfoldable pub inspect_found : GithubApi → Text → ℕ → PullRequest → Option Inspection
unfolding same_full_name inspect_pull
inspect_found api repo number pr =
    if pr.is_open && same_full_name pr.head_repo pr.base_repo
    then inspect_pull api repo number pr
    else none

-- `inspect`
unfoldable pub inspect : GithubApi → Text → Text → Option Inspection
unfolding same_repo inspect_found
inspect api url repo = do
  parsed ← parse_pr_url url
  pr ← if same_repo parsed.repo repo then api.pull repo parsed.number else none
  inspect_found api repo parsed.number pr

-- The loop of `jobLog` over the chunks of a log: bytes are kept up to 200000.
unfoldable pub read_log : ℕ → List (List ℕ) → List ℕ
read_log total [] = []
read_log total (chunk ∷ chunks) =
    let part = take (200_000 - total) chunk in
    let rest = read_log (total + length part) chunks in
    if ltb total 200_000 then part ++ rest else []
