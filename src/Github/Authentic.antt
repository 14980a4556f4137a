-- ===== src/Github/Authentic.antt =====
-- What the webhook of modules/github/github.controller.ts lets in.
use Prim.Native.String.{String, len}
use agent_reliability_platfo.Base.{
  ℕ, ◌≡◌, refl, Bool, true, false, Option, none, some, List, arith, ◌==◌, length, Bool-cases,
  Option-cases, inl, inr,
}
use agent_reliability_platfo.Base.Text.{codes, same_text_iff}
use agent_reliability_platfo.Shared.Enums.{AgentKind}
use agent_reliability_platfo.Store.Rows.{Db}
use agent_reliability_platfo.Store.Tx.{Error, Result, ok, err}
use agent_reliability_platfo.Run.Commands.{Fixture}
use agent_reliability_platfo.Run.Creation.{NewIds, create_task}
use agent_reliability_platfo.Github.Command.{parse_run_command}
use agent_reliability_platfo.Github.Webhook.{
  from_hex, Verdict, answered, range_error, timing_safe_equal, compare_digests, digest_given,
  verify_webhook_signature, WebhookRequest, WebhookAnswer, created, unauthorized, bad_request,
  is_text, or_empty, webhook_input, run_command, handle_comment, after_check, webhook,
}

-- The signature of a body: behind `sha256=` stands a text of the length of the body's HMAC that spells
-- the same bytes.
pub record IsSigned (hmac : String → String → String) (secret body : String) (s : Option String)
    : Type 0 where
  pub provided : String
  pub given : digest_given s ≡ some provided
  pub same_length : length (codes provided) ≡ length (codes (hmac secret body))
  pub same_bytes : from_hex (codes provided) ≡ from_hex (codes (hmac secret body))

verify-IsSigned :
    (hmac : String → String → String) (secret body : String) (s : Option String)
    → verify_webhook_signature hmac secret body s ≡ answered true
    → IsSigned hmac secret body s
unfolding verify_webhook_signature compare_digests timing_safe_equal
verify-IsSigned hmac secret body s h = elim (Option-cases (digest_given s)) [
  | inl missing ↦ absurd (ground (arith, missing))
  | inr (provided, given) ↦ record {
    provided = provided;
    given = given;
    same_length = ground (arith, given);
    same_bytes =
        same_text_iff (from_hex (codes provided)) (from_hex (codes (hmac secret body)))
          (ground (arith, given));
  }
]

module _ (demo : Bool) (resolve : String → ℕ → Option ℕ) (git_error : Error)
    (fixtures : List Fixture) (hmac : String → String → String) (secret : String)
    (r : WebhookRequest) (ids : NewIds) (now : ℕ) (db : Db) where
  -- What a request that creates a task must be, and what it leaves.
  pub record IsAdmitted (db' : Db) (task_id run_id : ℕ) : Type 0 where
    pub configured : (len secret == 0) ≡ false
    pub body : String
    pub present : r.raw_body ≡ some body
    pub signed : IsSigned hmac secret body r.signature
    pub is_comment : is_text r.event "issue_comment" ≡ true
    pub is_new : is_text r.action "created" ≡ true
    pub command : String × AgentKind
    pub commanded : parse_run_command (or_empty r.comment) ≡ some command
    pub made :
        create_task demo resolve git_error fixtures (webhook_input command r.issue_url) ids now db
        ≡ ok (task_id, run_id) db'

  abbrev pub Accounts : Db × WebhookAnswer → Type 0
  Accounts (db', created task_id run_id) = IsAdmitted db' task_id run_id
  Accounts (db', other) = db' ≡ db

  run_answer :
      (configured : (len secret == 0) ≡ false) (body : String)
      → r.raw_body ≡ some body
      → IsSigned hmac secret body r.signature
      → is_text r.event "issue_comment" ≡ true
      → is_text r.action "created" ≡ true
      → (command : String × AgentKind) → parse_run_command (or_empty r.comment) ≡ some command
      → (res : Result (ℕ × ℕ))
      → create_task demo resolve git_error fixtures (webhook_input command r.issue_url) ids now db
        ≡ res
      → Accounts
          (elim res [ ok made db' ↦ (db', created made.0 made.1) | err e ↦ (db, bad_request e) ])
  run_answer configured body present signed is_comment is_new command commanded (ok made db') e =
      record {
        configured = configured;
        body = body;
        present = present;
        signed = signed;
        is_comment = is_comment;
        is_new = is_new;
        command = command;
        commanded = commanded;
        made = e;
      }
  run_answer configured body present signed is_comment is_new command commanded (err e) k = refl

  comment-Accounts :
      (configured : (len secret == 0) ≡ false) (body : String)
      → r.raw_body ≡ some body
      → IsSigned hmac secret body r.signature
      → Accounts (handle_comment demo resolve git_error fixtures r ids now db)
  unfolding handle_comment run_command
  comment-Accounts configured body present signed = elim (Bool-cases (is_text r.event "ping")) [
    | inl ping ↦ rw ping refl
    | inr other ↦ rw other (elim (Bool-cases (is_text r.event "issue_comment")) [
      | inr skipped ↦ rw skipped refl
      | inl is_comment ↦ rw is_comment (elim (Bool-cases (is_text r.action "created")) [
        | inr old ↦ rw old refl
        | inl is_new ↦ rw is_new (elim (Option-cases (parse_run_command (or_empty r.comment))) [
          | inl silent ↦ rw silent refl
          | inr (command, commanded) ↦
              rw commanded (
                run_answer configured body present signed is_comment is_new command commanded _
                  refl)
        ])
      ])
    ])
  ]

  check-Accounts :
      (configured : (len secret == 0) ≡ false) (body : String) (v : Verdict)
      → r.raw_body ≡ some body
      → (v ≡ answered true → IsSigned hmac secret body r.signature)
      → Accounts (after_check demo resolve git_error fixtures v r ids now db)
  unfolding after_check
  check-Accounts configured body (answered true) present signed =
      comment-Accounts configured body present (signed refl)
  check-Accounts configured body (answered false) present signed = refl
  check-Accounts configured body range_error present signed = refl

  body-Accounts :
      (configured : (len secret == 0) ≡ false) (raw : Option String)
      → r.raw_body ≡ raw
      → Accounts (elim raw [
        | none ↦ (db, unauthorized)
        | some body ↦
            after_check demo resolve git_error fixtures
              (verify_webhook_signature hmac secret body r.signature)
              r
              ids
              now
              db
      ])
  body-Accounts configured none missing = refl
  body-Accounts configured (some body) present =
      check-Accounts configured body (verify_webhook_signature hmac secret body r.signature) present
        (verify-IsSigned hmac secret body r.signature)

  -- The webhook creates a task only for a request whose body is signed with the HMAC under the configured
  -- secret and which is a new comment on an issue with a command; the task is then the one that `createTask`
  -- makes of this command and the issue's address. After every other answer, the refusals and the skipped
  -- events included, the database is as it was.
  pub webhook-Accounts : Accounts (webhook demo resolve git_error fixtures hmac secret r ids now db)
  unfolding webhook
  webhook-Accounts = elim (Bool-cases (len secret == 0)) [
    | inl unset ↦ rw unset refl
    | inr configured ↦ rw configured (body-Accounts configured r.raw_body refl)
  ]
