-- ===== src/Dispatch/Outbox.antt =====
-- outbox-publisher.ts: pending messages are added to the Redis stream and marked; commands whose run still
-- waits after a minute are sent again. The stream is a parameter: how each call of it ends.
use text.Mathlib.Text.{◌==◌ as text_eq}
use agent_reliability_platfo.Base.{
  ℕ, zero, suc, ◌+◌, Bool, true, false, ◌&&◌, Option, none, some, List, [], ◌∷◌, ◌++◌, leb, ltb,
  filter, take, any, if◌then◌else◌,
}
use agent_reliability_platfo.Shared.Enums.{
  RunStatus, OutboxStatus, ◌===◌, run_status_enum, outbox_status_enum,
}
use agent_reliability_platfo.Store.Table.{last_where}
use agent_reliability_platfo.Store.Rows.{Run, OutboxMessage}
use agent_reliability_platfo.Run.Retry.{is_command_of}

-- How a message is sent: it is added and marked; it is added but the mark fails; it is not added; or neither
-- the mark nor the count of its attempts is written, whether it was added or not.
pub data Sending : Type 0 where
  accepted unmarked refused : Sending
  lost : Bool → Sending

-- The publisher: its outbox, what it has added to the stream, and the time of its last reconciliation.
pub record Publisher : Type 0 where
  pub outbox : List OutboxMessage
  pub stream : List OutboxMessage
  pub reconciled_at : ℕ

abbrev pub is_due : ℕ → OutboxMessage → Bool
is_due now m = m.status === OutboxStatus.pending && leb m.not_before now

abbrev pub is_command : OutboxMessage → Bool
is_command m = text_eq m.topic "run-commands"

abbrev pub failed_once : OutboxMessage → OutboxMessage
failed_once m = record m { attempts = m.attempts + 1 }

abbrev pub marked : ℕ → OutboxMessage → OutboxMessage
marked now m = record m { status = OutboxStatus.published; published_at = some now }

-- The turn of a message: its row after it, whether the message is in the stream, and whether the loop goes
-- on. An update that fails in the `catch` is an exception of the tick.
pub record Turn : Type 0 where
  pub row : OutboxMessage
  pub is_added : Bool
  pub goes_on : Bool

unfoldable pub send_as : Sending → ℕ → OutboxMessage → Turn
send_as Sending.accepted now m = record { row = marked now m; is_added = true; goes_on = true }
send_as Sending.unmarked now m = record { row = failed_once m; is_added = true; goes_on = true }
send_as Sending.refused now m = record { row = failed_once m; is_added = false; goes_on = true }
send_as (Sending.lost added) now m = record { row = m; is_added = added; goes_on = false }

-- A message of another topic is not sent: its attempt is counted, if that update does not fail.
unfoldable pub reject_topic : Sending → OutboxMessage → Turn
reject_topic (Sending.lost added) m = record { row = m; is_added = false; goes_on = false }
reject_topic _ m = record { row = failed_once m; is_added = false; goes_on = true }

unfoldable pub publish_one : (OutboxMessage → Sending) → ℕ → OutboxMessage → Turn
unfolding send_as reject_topic
publish_one send now m = if is_command m then send_as (send m) now m else reject_topic (send m) m

abbrev pub added_to : OutboxMessage → Bool → List OutboxMessage → List OutboxMessage
added_to m true ms = m ∷ ms
added_to m false ms = ms

-- The loop over the first `n` messages that are due, the oldest first, up to the first exception: the
-- outbox after it, and what it added to the stream.
unfoldable pub publish_due :
    (OutboxMessage → Sending) → ℕ → ℕ → List OutboxMessage → List OutboxMessage × List OutboxMessage
publish_due send now zero ms = (ms, [])
publish_due send now (suc n) [] = ([], [])
publish_due send now (suc n) (m ∷ ms) =
    let taken = publish_due send now n ms in
    let passed = publish_due send now (suc n) ms in
    let turn = publish_one send now m in
    if is_due now m
    then (if turn.goes_on
        then (turn.row ∷ taken.0, added_to m turn.is_added taken.1)
        else (turn.row ∷ ms, added_to m turn.is_added []))
    else (m ∷ passed.0, passed.1)

-- The last row that passes the test.
unfoldable pub modify_last :
    (OutboxMessage → Bool)
    → (OutboxMessage → OutboxMessage)
    → List OutboxMessage
    → List OutboxMessage
modify_last test f [] = []
modify_last test f (m ∷ ms) =
    let rest = modify_last test f ms in
    if any test ms then m ∷ rest else if test m then f m ∷ rest else m ∷ rest

-- A command that was published more than a minute ago.
abbrev pub is_stale : ℕ → Option OutboxMessage → Bool
is_stale now none = false
is_stale now (some m) =
    m.status === OutboxStatus.published
    && elim m.published_at [ none ↦ false | some t ↦ ltb (t + 60_000) now ]

unfoldable pub reset_latest : ℕ → ℕ → List OutboxMessage → List OutboxMessage
unfolding modify_last
reset_latest run_id now outbox =
    if is_stale now (last_where (is_command_of run_id) outbox)
    then modify_last (is_command_of run_id) (λ m. record m { status = OutboxStatus.pending }) outbox
    else outbox

unfoldable pub reset_all : List Run → ℕ → List OutboxMessage → List OutboxMessage
unfolding reset_latest
reset_all [] now outbox = outbox
reset_all (r ∷ rs) now outbox = reset_all rs now (reset_latest r.id now outbox)

-- Once a minute: at most 100 dispatched runs whose row was not written for a minute (`waits`).
unfoldable pub reconcile : (Run → Bool) → List Run → ℕ → Publisher → Publisher
unfolding reset_all
reconcile waits runs now p =
    if ltb (p.reconciled_at + 60_000) now
    then record p {
      reconciled_at = now;
      outbox =
          reset_all
            (take 100 (filter (λ (r : Run). r.status === RunStatus.dispatched && waits r) runs)) now
            p.outbox;
    }
    else p

-- `tick`, where no earlier tick is still running. What a tick has written before an exception stays.
unfoldable pub tick :
    (Run → Bool) → (OutboxMessage → Sending) → List Run → ℕ → Publisher → Publisher
unfolding reconcile publish_due
tick waits send runs now p =
    let q = reconcile waits runs now p in
    let after = publish_due send now 20 q.outbox in
    record q { outbox = after.0; stream = q.stream ++ after.1 }
