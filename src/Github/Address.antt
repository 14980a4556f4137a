-- ===== src/Github/Address.antt =====
-- `parsePrUrl` of apps/control-plane/src/modules/github/pr-import.service.ts and `parseIssueRef` of
-- webhook-utils.ts: the addresses of pull requests and issues, matched character by character. No
-- expression of the two can match in another way, since what ends a run of characters is not in its class.
use agent_reliability_platfo.Base.{
  ℕ, Bool, true, false, not, ◌&&◌, ◌||◌, Option, none, some, [], ◌∷◌, ◌++◌, ◌==◌, leb,
  if◌then◌else◌,
}
use agent_reliability_platfo.Base.Text.{Text, codes, after, span, is_empty, is_digit, to_number}

-- A repository, `owner/name`, and the number of a pull request or an issue.
pub record Reference : Type 0 where
  pub repo : Text
  pub number : ℕ

-- `[\w.-]`
abbrev pub is_name_char : ℕ → Bool
is_name_char c =
    is_digit c
    || leb b'A' c && leb c b'Z'
    || leb b'a' c && leb c b'z'
    || c == b'_'
    || c == b'.'
    || c == b'-'

-- `[^/]`
abbrev pub is_not_slash : ℕ → Bool
is_not_slash c = not (c == b'/')

abbrev pub github_prefix : Text
github_prefix = codes "https://github.com/"

abbrev pub pull_infix : Text
pull_infix = codes "/pull/"

abbrev pub issues_infix : Text
issues_infix = codes "/issues/"

-- `[1-9]\d*`
unfoldable pub is_positive_digits : Text → Bool
is_positive_digits [] = false
is_positive_digits (c ∷ ds) = not (c == b'0')

-- `\/?$`
unfoldable pub is_end : Text → Bool
is_end [] = true
is_end (c ∷ s) = c == b'/' && is_empty s

-- `Option` as a chain of steps that may fail.
infixl 5 ◌>>=◌
abbrev pub ◌>>=◌ {ℓ κ} : {A : Type ℓ} {B : Type κ} → Option A → (A → Option B) → Option B
none >>= f = none
some a >>= f = f a

-- A run of at least one character, and what follows it.
unfoldable pub run_of : (ℕ → Bool) → Text → Option (Text × Text)
run_of test s = let cut = span test s in if is_empty cut.0 then none else some cut

-- The number, and the end of the address.
unfoldable pub pull_number : Text → Option ℕ
unfolding is_positive_digits is_end
pull_number s =
    let cut = span is_digit s in
    if is_positive_digits cut.0 && is_end cut.1 then some (to_number cut.0) else none

-- What follows the owner, and what follows the name.
unfoldable pub pull_behind_name : Text → Text → Option Reference
unfolding pull_number
pull_behind_name repo s = do
  digits ← after pull_infix s
  number ← pull_number digits
  some (record { repo = repo; number = number })

unfoldable pub pull_behind_owner : Text → Text → Option Reference
unfolding run_of pull_behind_name
pull_behind_owner owner s = do
  behind ← after (codes "/") s
  name ← run_of is_name_char behind
  pull_behind_name (owner ++ b'/' ∷ name.0) name.1

-- `parsePrUrl`; `none` is the `BadRequestException`.
unfoldable pub parse_pr_url : Text → Option Reference
unfolding run_of pull_behind_owner
parse_pr_url url = do
  rest ← after github_prefix url
  owner ← run_of is_name_char rest
  pull_behind_owner owner.0 owner.1

-- `(?:issues|pull)` between slashes.
unfoldable pub after_kind : Text → Option Text
after_kind s = elim (after issues_infix s) [ some t ↦ some t | none ↦ after pull_infix s ]

-- `parseIssueRef` of an address that is there; what follows the digits is not looked at.
unfoldable pub parse_issue_url : Text → Option Reference
unfolding run_of after_kind
parse_issue_url url = do
  rest ← after github_prefix url
  owner ← run_of is_not_slash rest
  behind ← after (codes "/") owner.1
  name ← run_of is_not_slash behind
  digits ← after_kind name.1
  number ← run_of is_digit digits
  some (record { repo = owner.0 ++ b'/' ∷ name.0; number = to_number number.0 })

-- `parseIssueRef`; an empty address is none.
unfoldable pub parse_issue_ref : Option Text → Option Reference
unfolding parse_issue_url
parse_issue_ref none = none
parse_issue_ref (some url) = if is_empty url then none else parse_issue_url url
