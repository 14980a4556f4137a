-- ===== src/Github/Redaction.antt =====
-- apps/control-plane/src/modules/github/pr-import.service.ts: the end of `jobLog`, which takes the token of
-- the repository and everything that looks like a token of GitHub out of the text of a log.
use agent_reliability_platfo.Base.{
  ℕ, zero, suc, ◌+◌, Bool, ◌&&◌, ◌||◌, Option, none, some, [], ◌∷◌, ◌++◌, ◌==◌, leb, length,
  if◌then◌else◌,
}
use agent_reliability_platfo.Base.Text.{Text, codes, after, span, is_digit}

-- `[A-Za-z0-9_]`
abbrev pub is_word : ℕ → Bool
is_word c = is_digit c || leb b'A' c && leb c b'Z' || leb b'a' c && leb c b'z' || c == b'_'

abbrev pub redacted : Text
redacted = codes "[REDACTED]"

-- A replacement of all matches, from left to right. `size` is the length of the match at a position, 0
-- where there is none; `skip` characters belong to the last match.
unfoldable pub replace : (Text → ℕ) → ℕ → Text → Text
replace size skip [] = []
replace size (suc skip) (c ∷ s) = replace size skip s
replace size zero (c ∷ s) = elim (size (c ∷ s)) [
  | zero ↦ c ∷ replace size zero s
  | suc n ↦ redacted ++ replace size n s
]

-- `text.split(token).join('[REDACTED]')`
unfoldable pub token_size : Text → Text → ℕ
unfolding after
token_size token s = elim (after token s) [ none ↦ 0 | some rest ↦ length token ]

-- A prefix of `n` characters, and at least one of a word behind it.
unfoldable pub size_behind : ℕ → Option Text → ℕ
unfolding span
size_behind n none = 0
size_behind n (some s) = let k = length (span is_word s).0 in if k == 0 then 0 else n + k

-- `[pousr]`
abbrev pub is_kind : ℕ → Bool
is_kind c = c == b'p' || c == b'o' || c == b'u' || c == b's' || c == b'r'

abbrev behind_kind : Option Text → Option Text
behind_kind none = none
behind_kind (some []) = none
behind_kind (some (c ∷ s)) = if is_kind c then after (codes "_") s else none

-- `gh[pousr]_[A-Za-z0-9_]+|github_pat_[A-Za-z0-9_]+`
unfoldable pub github_size : Text → ℕ
unfolding after size_behind
github_size s =
    let short = size_behind 4 (behind_kind (after (codes "gh") s)) in
    if short == 0 then size_behind 11 (after (codes "github_pat_") s) else short

abbrev pub truncated : Text
truncated = codes "\n[log truncated at 200 KB]"

-- The text that is returned, for a log of `total` bytes and the token of the repository, if it has one.
unfoldable pub log_text : Option Text → Text → ℕ → Text
unfolding replace token_size github_size
log_text token text total =
    replace github_size 0 (elim token [
      | none ↦ text
      | some [] ↦ text
      | some (c ∷ t) ↦ replace (token_size (c ∷ t)) 0 text
    ])
    ++ (if leb 200_000 total then truncated else [])
