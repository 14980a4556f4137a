-- ===== src/Github/Command.antt =====
-- `parseRunCommand` of apps/control-plane/src/modules/github/webhook-utils.ts: the command
-- `/arp run FIXTURE [AGENT]` on a line of its own in a comment.
use Prim.Native.Char.{code}
use Prim.Native.String.{String}
use text.Mathlib.Text.{◌==◌ as text_eq}
use agent_reliability_platfo.Base.{
  ℕ, Bool, true, false, not, ◌&&◌, ◌||◌, Option, none, some, List, [], ◌∷◌, ◌==◌, leb,
  if◌then◌else◌,
}
use agent_reliability_platfo.Base.Text.{Text, codes}
use agent_reliability_platfo.Shared.Enums.{AgentKind}
use agent_reliability_platfo.Github.Address.{◌>>=◌}

-- The characters that end a line, where `^` and `$` match in the mode `m`.
unfoldable pub is_line_end : ℕ → Bool
is_line_end c = c == 0x0A || c == 0x0D || c == 0x2028 || c == 0x2029

-- `[ \t]`
unfoldable pub is_blank : ℕ → Bool
is_blank c = c == b' ' || c == 0x09

-- `\S`
unfoldable pub is_visible : ℕ → Bool
unfolding is_blank is_line_end
is_visible c = not (
    is_blank c
    || is_line_end c
    || c == 0x0B
    || c == 0x0C
    || c == 0xA0
    || c == 0x1680
    || leb 0x2000 c && leb c 0x200A
    || c == 0x202F
    || c == 0x205F
    || c == 0x3000
    || c == 0xFEFF)

-- The longest run of characters that pass a test, and what follows it.
unfoldable pub span_string : (ℕ → Bool) → String → String × String
span_string test String.[] = ("", "")
span_string test (String.◌∷◌ c s) =
    let rest = span_string test s in
    if test (code c) then (String.◌∷◌ c rest.0, rest.1) else ("", String.◌∷◌ c s)

abbrev pub is_empty_string : String → Bool
is_empty_string String.[] = true
is_empty_string (String.◌∷◌ c s) = false

unfoldable pub after_codes : Text → String → Option String
after_codes [] s = some s
after_codes (p ∷ ps) String.[] = none
after_codes (p ∷ ps) (String.◌∷◌ c s) = if p == code c then after_codes ps s else none

-- `[ \t]+`, and `(\S+)`
unfoldable pub after_blanks : String → Option String
unfolding span_string is_blank
after_blanks s =
    let cut = span_string is_blank s in if is_empty_string cut.0 then none else some cut.1

unfoldable pub word : String → Option (String × String)
unfolding span_string is_visible
word s = let cut = span_string is_visible s in if is_empty_string cut.0 then none else some cut

-- `[ \t]*$`
unfoldable pub is_done : String → Bool
unfolding span_string is_blank
is_done s = is_empty_string (span_string is_blank s).1

-- `(?:[ \t]+(\S+))?[ \t]*$`
unfoldable pub second_word : String → Option (Option String)
unfolding is_done after_blanks word
second_word s = if is_done s then some none else (do
  rest ← after_blanks s
  agent ← word rest
  if is_done agent.1 then some (some agent.0) else none)

-- The match of one line.
unfoldable pub match_line : String → Option (String × Option String)
unfolding after_codes after_blanks word second_word
match_line s = do
  name ← after_codes (codes "/arp") s
  verb ← after_blanks name
  rest ← after_codes (codes "run") verb
  argument ← after_blanks rest
  fixture ← word argument
  agent ← second_word fixture.1
  some (fixture.0, agent)

-- The lines of a text.
unfoldable pub lines : String → List String
unfolding is_line_end
lines String.[] = "" ∷ []
lines (String.◌∷◌ c s) = elim (lines s) [
  | [] ↦ []
  | l ∷ ls ↦ if is_line_end (code c) then "" ∷ l ∷ ls else (String.◌∷◌ c l) ∷ ls
]

unfoldable pub first_match : List String → Option (String × Option String)
unfolding match_line
first_match [] = none
first_match (l ∷ ls) =
    let rest = first_match ls in elim (match_line l) [ some m ↦ some m | none ↦ rest ]

-- `AGENT_KINDS.includes(match[2] ?? 'SELF_LANGGRAPH')`
unfoldable pub agent_named : Option String → Option AgentKind
agent_named none = some AgentKind.self_langgraph
agent_named (some s) =
    if text_eq s "SELF_LANGGRAPH"
    then some AgentKind.self_langgraph
    else if text_eq s "MINI_SWE"
    then some AgentKind.mini_swe
    else none

-- `parseRunCommand`: the fixture and the agent of the first line that matches.
unfoldable pub parse_run_command : String → Option (String × AgentKind)
unfolding lines first_match agent_named
parse_run_command comment = do
  found ← first_match (lines comment)
  agent ← agent_named found.1
  some (found.0, agent)
