-- ===== src/Run/Drafting.antt =====
-- apps/control-plane/src/modules/task/task-draft.service.ts, `create`: a draft of a task. The saved versions of a
-- repository's configuration, git and the schema's answer are parameters; equal digests stand for equal values.
use Prim.Native.String.{String}
use text.Mathlib.Text.{◌==◌ as text_eq}
use agent_reliability_platfo.Base.{
  ℕ, ◌+◌, Bool, true, false, not, ◌&&◌, Option, none, some, List, [], ◌∷◌, ◌++◌, ◌==◌,
}
use agent_reliability_platfo.Shared.TaskSnapshot.{TaskSnapshot, RepositoryConfig, Preparation}
use agent_reliability_platfo.Store.Rows.{TaskDraft}
use agent_reliability_platfo.Store.Tx.{
  Tx, pure, ◌>>=◌, ◌>>◌, gets, alter, raise_if, or_raise, bad_request, conflict, not_found,
}
use agent_reliability_platfo.Store.Table.{find}
use agent_reliability_platfo.Store.Queries.{project_key, find_task}

-- A successor of a task stays in its repository.
unfoldable pub check_parent : Option ℕ → ℕ → Tx (Unit {0})
check_parent none repository_id = pure tt
check_parent (some id) repository_id = do
  parent ← find_task id
  raise_if (not (parent.project_id == repository_id))
      (bad_request "Successor must use the same repository")

abbrev pub is_pinned : TaskSnapshot → Bool
is_pinned snapshot = elim snapshot.source [
  | none ↦ true
  | some s ↦ s.head_sha == snapshot.execution_sha
]

abbrev pub same_preparation : Preparation → Preparation → Bool
same_preparation Preparation.image Preparation.image = true
same_preparation Preparation.requirements Preparation.requirements = true
same_preparation _ _ = false

abbrev pub same_files : List String → List String → Bool
same_files [] [] = true
same_files (x ∷ xs) (y ∷ ys) = text_eq x y && same_files xs ys
same_files _ _ = false

-- The inputs of the environment are those of the saved version; the runtime has one value.
abbrev pub same_environment : RepositoryConfig → RepositoryConfig → Bool
same_environment saved config =
    same_preparation saved.preparation config.preparation
    && text_eq saved.image config.image
    && same_files saved.dependency_files config.dependency_files

-- `create`. `parsed` is the schema's answer, `saved` the configuration of a repository and a version, `pinned`
-- whether git has the commit and could pin it, `id` is new.
unfoldable pub create_draft :
    Option TaskSnapshot → (ℕ → ℕ → Option RepositoryConfig) → Bool → ℕ → ℕ → Tx TaskDraft
create_draft parsed saved pinned id now = do
  snapshot ← or_raise parsed (bad_request "invalid snapshot")
  check_parent snapshot.parent_task_id snapshot.repository_id
  raise_if (not (is_pinned snapshot)) (bad_request "PR tasks must execute the imported head SHA")
  project ←
      or_raise (← gets (λ db. find project_key snapshot.repository_id db.projects))
        (not_found "Repository")
  config ←
      or_raise (saved project.id snapshot.config_version)
        (bad_request "Configuration version not found")
  raise_if (not (same_environment config snapshot.config))
      (conflict "Environment differs from saved configuration")
  raise_if (not pinned) (bad_request "commit not found")
  let draft : TaskDraft = record {
    id = id;
    project_id = project.id;
    snapshot = snapshot;
    revision = 1;
    expires_at = now + 86_400_000;
  }
  alter (λ db. record db { drafts = db.drafts ++ draft ∷ [] })
  pure draft
