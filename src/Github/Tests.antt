-- ===== src/Github/Tests.antt =====
-- Runs of modules/github, and each theorem at an input.
use Prim.Native.String.{String}
use agent_reliability_platfo.Base.{◌≡◌, ◌↔◌, refl, true, false, none, some, [], arith}
use agent_reliability_platfo.Base.Text.{
  codes, after, span, to_number, scan, excess_bits, nearest, print, same_text,
}
use agent_reliability_platfo.Shared.Enums.{AgentKind}
use agent_reliability_platfo.Store.Examples.{empty}
use agent_reliability_platfo.Store.Tx.{record_missing}
use agent_reliability_platfo.Run.Creation.{NewIds}
use agent_reliability_platfo.Github.Address.{parse_pr_url, parse_issue_ref, is_end}
use agent_reliability_platfo.Github.Parsed.{
  pull_url, parse_pr_url-print, IsPullAddress, parse_pr_url_iff,
}
use agent_reliability_platfo.Github.Command.{after_codes, parse_run_command}
use agent_reliability_platfo.Github.Webhook.{
  answered, range_error, verify_webhook_signature, WebhookRequest, unauthorized, webhook,
}
use agent_reliability_platfo.Github.Authentic.{Accounts, webhook-Accounts}

pr_url_read :
    parse_pr_url (codes "https://github.com/o/my.repo/pull/17/")
    ≡ some (record { repo = codes "o/my.repo"; number = 17 })
unfolding parse_pr_url after span to_number scan excess_bits nearest
pr_url_read = refl

pr_url_zero : parse_pr_url (codes "https://github.com/o/r/pull/017") ≡ none
unfolding parse_pr_url after span
pr_url_zero = refl

issue_read :
    parse_issue_ref (some (codes "https://github.com/o/r/issues/12#issuecomment-1"))
    ≡ some (record { repo = codes "o/r"; number = 12 })
unfolding parse_issue_ref after span to_number scan excess_bits nearest
issue_read = refl

issue_other : parse_issue_ref (some (codes "https://gitlab.com/o/r/issues/1")) ≡ none
unfolding parse_issue_ref after span
issue_other = refl

command_read :
    parse_run_command "see below\n/arp run  ts-api-001\tMINI_SWE \nthanks"
    ≡ some ("ts-api-001", AgentKind.mini_swe)
unfolding parse_run_command
command_read = refl

command_default :
    parse_run_command "/arp run py-logic-001" ≡ some ("py-logic-001", AgentKind.self_langgraph)
unfolding parse_run_command
command_default = refl

command_of_no_agent : parse_run_command "/arp run x NOT_AN_AGENT" ≡ none
unfolding parse_run_command
command_of_no_agent = refl

-- A word on the next line is no agent.
command_across_lines :
    parse_run_command "/arp run x\nMINI_SWE" ≡ some ("x", AgentKind.self_langgraph)
unfolding parse_run_command
command_across_lines = refl

command_of_three : parse_run_command "/arp run x MINI_SWE y" ≡ none
unfolding parse_run_command
command_of_three = refl

slash_ends : is_end (codes "/") ≡ true
unfolding is_end
slash_ends = refl

parse_pr_url-print_example :
    parse_pr_url (pull_url (codes "o") (codes "r") (print 17) (codes "/"))
    ≡ some (record { repo = codes "o/r"; number = 17 })
parse_pr_url-print_example =
    parse_pr_url-print (codes "o") (codes "r") (codes "/") 17 (refl, (refl, tt)) (refl, (refl, tt))
      (omega arith) (omega arith) slash_ends

parse_pr_url_iff_example :
    (parse_pr_url (codes "https://github.com/o/r/pull/3")
      ≡ some (record { repo = codes "o/r"; number = 3 }))
    ↔ IsPullAddress
        (codes "https://github.com/o/r/pull/3")
        (record { repo = codes "o/r"; number = 3 })
parse_pr_url_iff_example =
    parse_pr_url_iff (codes "https://github.com/o/r/pull/3")
      (record { repo = codes "o/r"; number = 3 })

abbrev new_ids : NewIds
new_ids = record { workspace = 1; project = 2; task = 3; run = 4 }

abbrev comment : WebhookRequest
comment = record {
  raw_body = some "body";
  signature = some "sha256=a0B1";
  event = some "issue_comment";
  action = some "created";
  comment = some "/arp run py-logic-001";
  issue_url = some "https://github.com/o/r/issues/1";
}

-- The digits of the signature may be capitals.
abbrev digest : String → String → String
digest secret body = "a0b1"

comment_signed : verify_webhook_signature digest "secret" "body" comment.signature ≡ answered true
unfolding verify_webhook_signature same_text after_codes
comment_signed = refl

-- A signature of the right length that is not hexadecimal is an exception.
comment_not_hex : verify_webhook_signature digest "secret" "body" (some "sha256=a0zz") ≡ range_error
unfolding verify_webhook_signature after_codes
comment_not_hex = refl

comment_unsigned :
    webhook false
      (λ path ref. some 77)
      record_missing
      []
      digest
      "secret"
      (record comment { signature = some "sha256=a0b2" })
      new_ids
      5_000
      empty
    ≡ (empty, unauthorized)
unfolding webhook verify_webhook_signature same_text after_codes
comment_unsigned = refl

webhook-Accounts_example :
    Accounts false
      (λ path ref. some 77)
      record_missing
      []
      digest
      "secret"
      comment
      new_ids
      5_000
      empty
      (webhook false
        (λ path ref. some 77)
        record_missing
        []
        digest
        "secret"
        comment
        new_ids
        5_000
        empty)
webhook-Accounts_example =
    webhook-Accounts false (λ path ref. some 77) record_missing [] digest "secret" comment new_ids
      5_000 empty
