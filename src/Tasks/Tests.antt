-- ===== src/Tasks/Tests.antt =====
-- Three tasks, of which two were created at the same time.
use mathlib.Core.List.{Perm}
use agent_reliability_platfo.Base.{ℕ, ◌≡◌, refl, none, some, ◌*◌, [], ◌∷◌, map, arith, take}
use agent_reliability_platfo.Base.Text.{codes, span, to_number, scan, excess_bits, nearest}
use agent_reliability_platfo.Shared.Enums.{TaskSource, TaskStatus}
use agent_reliability_platfo.Store.Rows.{Task, Db}
use agent_reliability_platfo.Store.Examples.{empty}
use agent_reliability_platfo.Tasks.Listing.{newest_first, item_of, list}
use agent_reliability_platfo.Tasks.Pages.{IsOrdered, shown, shown-newest_first}

abbrev task_at : ℕ → ℕ → Task
task_at id created_at = record {
  id = id;
  project_id = 1;
  title = "fix";
  description = "a wrong sum";
  source = TaskSource.manual;
  source_ref = none;
  allowed_paths = [];
  created_at = created_at;
  parent_task_id = none;
  snapshot_digest = none;
  confirmation_key = none;
  fixture_id = some "py-logic-001";
  status = TaskStatus.created;
  snapshot = none;
  attention_reason = none;
}

abbrev three : Db
three = record empty { tasks = task_at 1 50 ∷ task_at 2 70 ∷ task_at 3 50 ∷ [] }

newest : newest_first (λ id. id) three.tasks ≡ task_at 2 70 ∷ task_at 3 50 ∷ task_at 1 50 ∷ []
unfolding newest_first
newest = refl

second_page :
    list (λ id. id) three (record { page = some (codes "2"); page_size = some (codes "2") })
    ≡ some
        (record { items = item_of three (task_at 1 50) ∷ []; total = 3; page = 2; page_size = 2 })
unfolding list span to_number scan excess_bits nearest newest_first
second_page = refl

page_zero : list (λ id. id) three (record { page = some (codes "0"); page_size = none }) ≡ none
unfolding list span to_number scan excess_bits nearest
page_zero = refl

page_too_large :
    list (λ id. id) three (record { page = none; page_size = some (codes "101") }) ≡ none
unfolding list span to_number scan excess_bits nearest
page_too_large = refl

shown-newest_first_example :
    (shown (λ id. id) three 2 2
      ≡ map (item_of three) (take (2 * 2) (newest_first (λ id. id) three.tasks)))
    × Perm (newest_first (λ id. id) three.tasks) three.tasks
    × IsOrdered (λ id. id) (newest_first (λ id. id) three.tasks)
shown-newest_first_example =
    shown-newest_first (λ id. id) three 2 2 (omega arith) (omega arith) (omega arith)
