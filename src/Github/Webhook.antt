-- ===== src/Github/Webhook.antt =====
-- apps/control-plane/src/modules/github/github.controller.ts and `verifyWebhookSignature` of
-- webhook-utils.ts: a comment of an issue creates a task. The HMAC of node:crypto, printed in hexadecimal, is
-- a parameter.
use Prim.Native.String.{String, len}
use text.Mathlib.Text.{◌==◌ as text_eq}
use agent_reliability_platfo.Base.{
  ℕ, ◌+◌, ◌-◌, ◌*◌, Bool, true, false, not, ◌&&◌, Option, none, some, List, [], ◌∷◌, ◌==◌, leb,
  length, if◌then◌else◌,
}
use agent_reliability_platfo.Base.Text.{Text, codes, same_text, is_digit}
use agent_reliability_platfo.Shared.Enums.{AgentKind, TaskSource}
use agent_reliability_platfo.Store.Rows.{Db}
use agent_reliability_platfo.Store.Tx.{Error, ok, err}
use agent_reliability_platfo.Run.Commands.{Fixture}
use agent_reliability_platfo.Run.Creation.{TaskInput, NewIds, create_task}
use agent_reliability_platfo.Github.Command.{after_codes, parse_run_command}

-- The value of a hexadecimal digit.
unfoldable pub hex_digit : ℕ → Option ℕ
hex_digit c =
    if is_digit c
    then some (c - b'0')
    else if leb b'a' c && leb c b'f'
    then some (c - b'a' + 10)
    else if leb b'A' c && leb c b'F'
    then some (c - b'A' + 10)
    else none

-- `Buffer.from(text, 'hex')`: the bytes before the first pair that is not one of digits.
unfoldable pub from_hex : Text → List ℕ
unfolding hex_digit
from_hex [] = []
from_hex (a ∷ []) = []
from_hex (a ∷ b ∷ s) = elim (hex_digit a) [
  | none ↦ []
  | some h ↦ elim (hex_digit b) [ none ↦ [] | some l ↦ (16 * h + l) ∷ from_hex s ]
]

-- What a comparison of buffers answers, or the `RangeError` of `timingSafeEqual`.
pub data Verdict : Type 0 where
  answered : Bool → Verdict
  range_error : Verdict

unfoldable pub timing_safe_equal : List ℕ → List ℕ → Verdict
timing_safe_equal a b = if length a == length b then answered (same_text a b) else range_error

unfoldable pub compare_digests : Text → Text → Verdict
unfolding timing_safe_equal from_hex
compare_digests provided expected =
    if length provided == length expected
    then timing_safe_equal (from_hex provided) (from_hex expected)
    else answered false

unfoldable pub digest_given : Option String → Option String
digest_given none = none
digest_given (some header) = after_codes (codes "sha256=") header

-- `verifyWebhookSignature`
unfoldable pub verify_webhook_signature :
    (String → String → String) → String → String → Option String → Verdict
unfolding digest_given compare_digests
verify_webhook_signature hmac secret body signature = elim (digest_given signature) [
  | none ↦ answered false
  | some provided ↦ compare_digests (codes provided) (codes (hmac secret body))
]

-- The request: its body as it came, the two headers, and the parts of the payload that are looked at.
pub record WebhookRequest : Type 0 where
  pub raw_body : Option String
  pub signature : Option String
  pub event : Option String
  pub action : Option String
  pub comment : Option String
  pub issue_url : Option String

pub data WebhookAnswer : Type 0 where
  pong : WebhookAnswer
  event_skipped not_created no_command : WebhookAnswer
  created : ℕ → ℕ → WebhookAnswer
  -- the exceptions: 503, 401, 400 and 500
  service_unavailable unauthorized internal_error : WebhookAnswer
  bad_request : Error → WebhookAnswer

abbrev pub is_text : Option String → String → Bool
is_text none t = false
is_text (some s) t = text_eq s t

abbrev pub or_empty : Option String → String
or_empty none = ""
or_empty (some s) = s

-- What `createTask` is called with.
abbrev pub webhook_input : String × AgentKind → Option String → TaskInput
webhook_input command issue_url = record {
  fixture_id = command.0;
  agent_kind = command.1;
  recovery_disabled = none;
  feedback_mode = none;
  budget_tokens = none;
  budget_seconds = none;
  budget_turns = none;
  source = some TaskSource.github_issue;
  source_ref = issue_url;
}

module _ (demo : Bool) (resolve : String → ℕ → Option ℕ) (git_error : Error)
    (fixtures : List Fixture) where
  -- The call of `createTask`, and what is answered.
  unfoldable pub run_command :
      String × AgentKind → Option String → NewIds → ℕ → Db → Db × WebhookAnswer
  run_command command issue_url ids now db =
      elim (create_task demo resolve git_error fixtures (webhook_input command issue_url) ids now
        db) [ ok made db' ↦ (db', created made.0 made.1) | err e ↦ (db, bad_request e) ]

  -- The handler of an authentic request.
  unfoldable pub handle_comment : WebhookRequest → NewIds → ℕ → Db → Db × WebhookAnswer
  unfolding run_command
  handle_comment r ids now db =
      if is_text r.event "ping"
      then (db, pong)
      else if not (is_text r.event "issue_comment")
      then (db, event_skipped)
      else if not (is_text r.action "created")
      then (db, not_created)
      else elim (parse_run_command (or_empty r.comment)) [
        | none ↦ (db, no_command)
        | some command ↦ run_command command r.issue_url ids now db
      ]

  unfoldable pub after_check : Verdict → WebhookRequest → NewIds → ℕ → Db → Db × WebhookAnswer
  unfolding handle_comment
  after_check (answered true) r ids now db = handle_comment r ids now db
  after_check (answered false) r ids now db = (db, unauthorized)
  after_check range_error r ids now db = (db, internal_error)

  -- `webhook`, with the secret of the environment.
  unfoldable pub webhook :
      (String → String → String) → String → WebhookRequest → NewIds → ℕ → Db → Db × WebhookAnswer
  unfolding after_check
  webhook hmac secret r ids now db =
      if len secret == 0 then (db, service_unavailable) else elim r.raw_body [
        | none ↦ (db, unauthorized)
        | some body ↦
            after_check (verify_webhook_signature hmac secret body r.signature) r ids now db
      ]
