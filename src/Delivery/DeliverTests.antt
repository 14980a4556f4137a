-- ===== src/Delivery/DeliverTests.antt =====
-- A delivery that opens a pull request, and a second one that finds it.
use Prim.Native.String.{len}
use agent_reliability_platfo.Base.{
  arith, ◌≤◌, ℕ, ◌≡◌, refl, true, none, some, [], ◌∷◌, All, inl, inr,
}
use agent_reliability_platfo.Base.Text.{Text, codes}
use agent_reliability_platfo.Store.Examples.{empty}
use agent_reliability_platfo.Store.Table.{find, first_where, last_where}
use agent_reliability_platfo.Store.Rows.{Project, Db}
use agent_reliability_platfo.Run.Creation.{new_run}
use agent_reliability_platfo.Run.Examples.{wanted}
use agent_reliability_platfo.Github.Import.{GithubApi}
use agent_reliability_platfo.Delivery.Jobs.{opened}
use agent_reliability_platfo.Delivery.Examples.{snapshot, verified_task, fix, waiting, claimed_job}
use agent_reliability_platfo.Delivery.Plan.{Plan, read_plan, marker, pull_body}
use agent_reliability_platfo.Delivery.Deliver.{
  recorded, pushed, requested, goes, ◌>>=◌, ◌>>◌, answer, conflict_if, act, Answers, assert_target,
  assert_lease, check_source, approved_patch, push_branch, publish, deliver_new, deliver_plan,
  deliver, end_of, effects_of, mentions,
}
use agent_reliability_platfo.Delivery.Once.{Try, after_tries, after_tries-once, IsSteady, count}
use agent_reliability_platfo.Delivery.Again.{deliver-again, is_opened}
use agent_reliability_platfo.Delivery.Published.{Allowed, deliver-Allowed}

abbrev repository : Project
repository = record {
  id = 1;
  workspace_id = 1;
  name = "calc";
  repo_path = "/repos/calc";
  github_repo = some "ada/calc";
  write_credential = some "key";
}

abbrev ready : Db
ready = record empty {
  projects = repository ∷ [];
  tasks = verified_task ∷ [];
  runs = new_run 3 2 wanted 5 ∷ [];
  artifacts = fix ∷ [];
  approvals = waiting ∷ [];
  deliveries = claimed_job ∷ [];
}

-- The identifiers are printed in tally marks, so that a test computes them.
abbrev tally : ℕ → Text
tally n = codes "|"

abbrev offline : GithubApi
offline = record {
  pull = λ repo n. none;
  files = λ repo n page. none;
  checks = λ repo n page. none;
  workflow_runs = λ repo n. none;
}

abbrev good : Answers
good = record {
  pulls = some [];
  first_target = some 5;
  api = offline;
  at_patch = ready;
  commit_of = λ sha patch text. some 99;
  row_written = some tt;
  remote_ref = some none;
  second_target = some 5;
  first_look = (ready, 20_000);
  push_done = some tt;
  third_target = some 5;
  second_look = (ready, 21_000);
  created = some "https://github.com/ada/calc/pull/6";
}

abbrev plan : Plan
plan = record { job = claimed_job; run_id = 3; snapshot = snapshot; github_repo = "ada/calc" }

planned : read_plan 8 ready ≡ some plan
unfolding read_plan find
planned = refl

abbrev body : Text
body = pull_body tally claimed_job snapshot

deliver-good :
    deliver tally len ready 8 30 good
    ≡ goes
        (opened "https://github.com/ada/calc/pull/6")
        (recorded 99 ∷ pushed (2, 4) 99 ∷ requested (2, 4) "main" body ∷ [])
unfolding deliver deliver_plan deliver_new publish push_branch approved_patch check_source
    assert_lease assert_target conflict_if act answer ◌>>=◌ ◌>>◌ read_plan find first_where
    last_where
deliver-good = refl

deliver-Allowed_example :
    All (Allowed tally len plan 30 good) (effects_of (deliver tally len ready 8 30 good))
deliver-Allowed_example = deliver-Allowed tally len ready 8 30 good plan planned

-- The answer to the request was lost, and the job is tried again with a new lease.
abbrev second_try : Answers
second_try = record good {
  pulls = some (record { html_url = "https://github.com/ada/calc/pull/6"; body = some body } ∷ []);
}

deliver-again_example :
    (is_opened (end_of (deliver tally len ready 8 31 second_try)) ≡ true)
    × (effects_of (deliver tally len ready 8 31 second_try) ≡ [])
deliver-again_example =
    deliver-again tally len ready ready 8 30 31 good second_try plan plan (2, 4) "main" body
      (record { html_url = "https://github.com/ada/calc/pull/6"; body = some body } ∷ [])
      "https://github.com/ada/calc/pull/6" planned planned refl
      (rw deliver-good (inr (inr (inl refl)))) refl (inl refl)

abbrev job_mark : Text
job_mark = marker tally claimed_job

ready-IsSteady :
    (token : ℕ) (answers : Answers)
    → IsSteady tally len 8 job_mark (record {
      seen = ready;
      token = token;
      others = [];
      is_listed = true;
      has_landed = true;
      url = "https://github.com/ada/calc/pull/6";
      answers = answers;
    })
ready-IsSteady token answers = record {
  marked = λ p there. ground (arith, planned, there);
  foreign = tt;
}

-- The answer to the first request is lost, but the request has come through.
abbrev first_try : Try
first_try = record {
  seen = ready;
  token = 30;
  others = [];
  is_listed = true;
  has_landed = true;
  url = "https://github.com/ada/calc/pull/6";
  answers = record good { created = none };
}

abbrev retried : Try
retried = record first_try { token = 31; answers = good }

after_tries-once_example :
    count (mentions job_mark) (after_tries tally len 8 (first_try ∷ retried ∷ []) []) ≤ 1
after_tries-once_example =
    after_tries-once tally len 8 job_mark (first_try ∷ retried ∷ []) []
      (ready-IsSteady 30 (record good { created = none }), (ready-IsSteady 31 good, tt))
      (omega arith)
