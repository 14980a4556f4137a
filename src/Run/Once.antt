-- ===== src/Run/Once.antt =====
-- What `confirm` promises: one task for each idempotency key.
use Prim.Native.String.{String}
use text.Mathlib.TextPositions.{eq_refl}
use agent_reliability_platfo.Base.{
  ℕ, ◌≡◌, refl, Bool, Option, true, none, some, List, [], ◌∷◌, ◌++◌, arith, ◌==◌, ==_refl,
  Option-cases, inl, inr,
}
use agent_reliability_platfo.Shared.TaskSnapshot.{TaskSnapshot}
use agent_reliability_platfo.Store.Table.{first_where, find}
use agent_reliability_platfo.Store.Rows.{Project, Task, TaskDraft, Run, Db}
use agent_reliability_platfo.Store.Tx.{ok, pure, ◌>>=◌, ◌>>◌, gets, alter, raise_if, or_raise}
use agent_reliability_platfo.Store.Queries.{
  run_key, project_key, insert_task, insert_run, insert_message,
}
use agent_reliability_platfo.Run.Confirmation.{
  has_key, answer_prior, confirmed_task, confirmed_run, open_task, confirm_known, confirm_tx,
  Confirmation, confirm_fresh, confirm_read, confirm,
}

first_where-append :
    {A : Type 0} (test : A → Bool) (rows : List A) (r : A)
    → first_where test rows ≡ none
    → test r ≡ true
    → first_where test (rows ++ r ∷ []) ≡ some r
unfolding first_where
first_where-append test [] r h t = ground arith
first_where-append test (q ∷ rows) r h t = ground (arith, first_where-append test rows r)

-- A task with the key is there, with its run, and the drafts are as they were.
pub record IsConfirmed (key : String) (digest : ℕ) (made : ℕ × ℕ) (db db' : Db) : Type 0 where
  pub task : Task
  pub known : first_where (has_key key) db'.tasks ≡ some task
  pub answered : answer_prior task digest db' ≡ ok made db'
  pub kept : db'.drafts ≡ db.drafts

answer_prior-IsConfirmed :
    (key : String) (digest : ℕ) (t : Task) (db db' : Db) (made : ℕ × ℕ)
    → first_where (has_key key) db.tasks ≡ some t
    → answer_prior t digest db ≡ ok made db'
    → IsConfirmed key digest made db db'
unfolding answer_prior gets raise_if or_raise pure ◌>>=◌ ◌>>◌
answer_prior-IsConfirmed key digest t db db' made there done =
    elim (Option-cases (first_where (λ (r : Run). r.task_id == t.id) db.runs)) [
      | inl lost ↦ ground arith
      | inr (r, found) ↦
          let same : db' ≡ db = ground arith in
          record { task = t; known = ground arith; answered = ground arith; kept = ground arith }
    ]

confirm_tx-IsConfirmed :
    (project : Project) (snapshot : TaskSnapshot) (digest : ℕ) (key : String)
    (task_id run_id now : ℕ) (db db' : Db) (made : ℕ × ℕ)
    → first_where (λ (r : Run). r.task_id == task_id) db.runs ≡ none
    → confirm_tx project snapshot digest key task_id run_id now db ≡ ok made db'
    → IsConfirmed key digest made db db'
unfolding confirm_tx confirm_known answer_prior open_task insert_task insert_run insert_message gets
    alter raise_if or_raise pure ◌>>=◌ ◌>>◌
confirm_tx-IsConfirmed project snapshot digest key task_id run_id now db db' made unused done =
    elim (Option-cases (first_where (has_key key) db.tasks)) [
      | inl fresh ↦ elim (Option-cases (find run_key run_id db.runs)) [
        | inr (r, taken) ↦ ground arith
        | inl free ↦
            let t = confirmed_task task_id project.id snapshot digest key now in
            let there = first_where-append (has_key key) db.tasks t fresh (eq_refl key) in
            let run =
              first_where-append (λ (r : Run). r.task_id == task_id) db.runs
                (confirmed_run run_id task_id snapshot now) unused (==_refl task_id) in
            record {
              task = t;
              known = ground (arith, there);
              answered = ground (arith, run, ==_refl digest);
              kept = ground arith;
            }
      ]
      | inr (t, known) ↦
          answer_prior-IsConfirmed key digest t db db' made known (ground (arith, known))
    ]

confirm_read-IsConfirmed :
    (prior : Option Task) (seen : Db) (digest_of : TaskSnapshot → ℕ) (head_of : String → ℕ)
    (has_commit : Bool) (draft : TaskDraft) (input : Confirmation) (task_id run_id now : ℕ)
    (db db' : Db) (made : ℕ × ℕ)
    → ((t : Task) → prior ≡ some t → first_where (has_key input.key) db.tasks ≡ some t)
    → first_where (λ (r : Run). r.task_id == task_id) db.runs ≡ none
    → confirm_read prior seen digest_of head_of has_commit draft input task_id run_id now db
      ≡ ok made db'
    → IsConfirmed input.key (digest_of draft.snapshot) made db db'
unfolding confirm_read confirm_fresh gets raise_if or_raise ◌>>=◌ ◌>>◌
confirm_read-IsConfirmed (some t) seen digest_of head_of has_commit draft input task_id run_id now
      db db' made latest unused done =
    answer_prior-IsConfirmed input.key (digest_of draft.snapshot) t db db' made (latest t refl) done
confirm_read-IsConfirmed none seen digest_of head_of has_commit draft input task_id run_id now db
      db' made latest unused done =
    elim (Option-cases (find project_key draft.project_id seen.projects)) [
      | inl missing ↦ ground arith
      | inr (p, found) ↦
          confirm_tx-IsConfirmed p draft.snapshot (digest_of draft.snapshot) input.key task_id
            run_id now db db' made unused (ground arith)
    ]

-- A confirmation that is repeated with its draft and key, and with the tests confirmed, is answered with the
-- same task and run, and changes nothing: whatever revision it names, also when the draft has expired since,
-- when the head of the pull request has moved or when git has lost the commit. The first may have read an
-- older database, with the same draft, whose task with the key, if there is one, is still the one in the
-- tables; the second reads what the first has left. The identifier of the new task was in use by no run.
pub confirm-once :
    (seen : Db) (digest_of : TaskSnapshot → ℕ) (head_of head_of' : String → ℕ)
    (has_commit has_commit' : Bool) (input input' : Confirmation)
    (task_id run_id now task_id' run_id' later : ℕ) (db db' : Db) (draft : TaskDraft) (made : ℕ × ℕ)
    → find (λ (d : TaskDraft). d.id) input.draft_id seen.drafts ≡ some draft
    → find (λ (d : TaskDraft). d.id) input.draft_id db.drafts ≡ some draft
    → ((t : Task)
        → first_where (has_key input.key) seen.tasks ≡ some t
        → first_where (has_key input.key) db.tasks ≡ some t)
    → first_where (λ (r : Run). r.task_id == task_id) db.runs ≡ none
    → confirm seen digest_of head_of has_commit input task_id run_id now db ≡ ok made db'
    → input'.draft_id ≡ input.draft_id
    → input'.key ≡ input.key
    → input'.tests_confirmed ≡ true
    → confirm db' digest_of head_of' has_commit' input' task_id' run_id' later db' ≡ ok made db'
unfolding confirm confirm_read raise_if or_raise ◌>>=◌ ◌>>◌
confirm-once seen digest_of head_of head_of' has_commit has_commit' input input' task_id run_id now
      task_id' run_id' later db db' draft made read there latest unused done same_draft same_key
      sure =
    let first =
      confirm_read-IsConfirmed (first_where (has_key input.key) seen.tasks) seen digest_of head_of
        has_commit draft input task_id run_id now db db' made latest unused (ground arith) in
    ground (arith, first.known, first.answered, first.kept)
