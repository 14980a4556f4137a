-- ===== src/Lib.antt =====
-- Verification of the control plane of the agent reliability platform.
--
-- The control plane (apps/control-plane/src) keeps tasks, their runs and the attempts of workers at them in
-- PostgreSQL. A worker claims an attempt with a lease, renews it, saves checkpoints, reserves tokens for
-- each call of a model, and reports the end. Failed and lost attempts go to a policy, which sends the run to
-- the workers again, gives it up, or asks a person. People pause, cancel and resume runs. Everything that
-- happens to a run is an event in its log, which the browsers follow.
--
-- The files and the code that they are about:
--   Base, Base/Tests, Base/Lists, Base/Sorting: helpers on numbers, lists and options.
--   Shared/Enums, Shared/TaskSnapshot, Shared/RunCommand: packages/shared/src.
--   StateMachine, StateMachine/Graph: state-machine/state-machine.ts (`canTransition` is `can_transition`).
--   Policy, Policy/Laws: modules/policy/policy-engine.ts (`decidePolicy`).
--   Store: the database. Store/Rows has the rows of prisma/schema.prisma, Store/Tx the transactions,
--     Store/Queries the calls of the Prisma client, Store/Keeps the rules for invariants.
--   Run: modules/run. Run/Transition to Run/Checkpoints are run-lifecycle.service.ts: `claimAttempt` is in
--     Run/Claim, `completeAttempt` in Run/Complete, `applyPolicy` in Run/Recovery and Run/Retry,
--     `handleLeaseExpired` in Run/Expiry with modules/dispatch/lease-monitor.ts. Run/Worker and Run/Control
--     are run-control.service.ts, Run/Budget is budget.service.ts.
--   Run/Requests: modules/internal/internal.controller.ts, the look at the lease before a request.
--   Run/Operations: all operations on runs as one type, with the decisions and deliveries of
--     delivery.service.ts, and histories of them.
--   Run/Lease, Run/Held, Run/Fencing, Run/Spending, Run/Cancelling, Run/Renewal, Run/Budgeted,
--     Run/Admission, Run/Once, Run/Decided, Run/Consistent: what they promise. Run/Consistent has the
--     invariant of all histories, with the replay of a log in Run/Consistent/Defs and what follows from it
--     in Run/Consistent/Final.
--   Events: modules/events and apps/web/src/lib/use-run-events.ts. Events/Ingest is the ingestor of workers'
--     events, Events/Sse the stream to a browser, Events/Merge the browser's list;
--     Events/Recorded, Events/Ranges, Events/Replay, Events/Merged and Events/Resumed are what they promise.
--   Dispatch: modules/dispatch/outbox-publisher.ts; Dispatch/Publication is what it promises.
--   Delivery: modules/github/delivery.service.ts, with `approve` and `reject` in Delivery/Decision, `tick` in Delivery/Jobs and `deliver` in Delivery/Plan and
--     Delivery/Deliver; Delivery/Laws, Delivery/Published, Delivery/Again and Delivery/Once are what they
--     promise.
--   Approval: modules/approval/approval.service.ts.
--   Run/Creation and Run/Demo: `createTask` and public-demo.ts. Run/Confirmation: `confirm`
--     of modules/task/task-draft.service.ts; `create` is in Run/Drafting.
--   Auth: modules/auth/local-auth.guard.ts. Events/Hook: `useRunEvents`.
--   Github: modules/github. Github/Address has the addresses that are read (`parsePrUrl`, `parseIssueRef`),
--     Github/Command the command of a comment, Github/Webhook the webhook, Github/Import the import of a
--     pull request; Github/Redaction the text of a log; Github/Parsed, Github/Authentic, Github/Pages and
--     Github/Redacted are what they promise.
--   Evaluation: modules/evaluation/evaluation.controller.ts, with its figures in Evaluation/Summary;
--     Evaluation/Laws and Evaluation/Exact are what they promise.
--   Tasks: modules/task/task.controller.ts.
--   Base/Text: texts that the code looks into, as lists of their characters, and decimal numbers.
--
-- How the code is modelled:
--   A transaction takes the database to a result with a new database or to an error, after which the
--   database stands as it was. Transactions on one run are serial in the code too (`FOR UPDATE`). Where an
--   operation reads before its transaction, the database that it read is an argument of its own, `seen`,
--   which may be older, or any other.
--   Every operation has one `now`, in milliseconds; the clock does not run backwards between two readings,
--   and fractions of a second of the budget are kept as milliseconds. Identifiers that the database
--   generates, and lease tokens, are arguments.
--   Identifiers, tokens, commits and digests are numbers, since they are only compared; sha256 is a
--   parameter. JSON values that nothing looks into are opaque texts. Snapshots and commands that are read
--   back have passed their schemas when they were written. Rows are listed in the order of their creation.
--   The idempotency keys of the platform (`cp:...`) and of the workers are taken to be different texts.
--   `deliver` is a straight course of calls, so that each answer of GitHub and of git is a field of one
--   record, and what it does to the outside is a list of effects, in their order, with those whose answer
--   was lost. The rows of a job are read again at each look at its lease, in any later database. The
--   directory of the clone and its files are not modelled.
--   `Number(digits)` is the nearest double; it stays finite above the range of doubles. Numbers are printed in
--   decimal digits, as they are below 10 ** 21.
--   Costs and scores in the figures of evaluations are doubles, whose addition is a parameter; sums of whole
--   numbers are exact below 2 ** 53.
--   `len` counts the bytes of a text in UTF-8; where the code takes the `length` of a key or a token, these are
--   taken to be ASCII.
--   Messages of exceptions are shortened where they name identifiers.
--   The backoff at attempt 0, which no caller passes, is 15 s, as 30_000 * 2 ** -1 is.
--
-- Bounds: no definition runs on fuel. A drain of a stream sends 500 events, a tick of the lease monitor
-- takes 20 attempts, and one of the publisher 20 messages, as in the code.
--
-- Not modelled: foreign keys, the consumer loop of Redis, sockets and timers, the controllers, which parse
-- requests and call the services, the GitHub API, git, the user interface and the Python worker.
--
pub mod Base
pub mod Shared
pub mod StateMachine
pub mod Policy
pub mod Store
pub mod Events
pub mod Run
pub mod Delivery
pub mod Dispatch
pub mod Approval
pub mod Auth
pub mod Github
pub mod Evaluation
pub mod Tasks
