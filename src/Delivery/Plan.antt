-- ===== src/Delivery/Plan.antt =====
-- delivery.service.ts, the rows that `deliver` reads first, and the texts of the commit and of the pull
-- request. Identifiers and digests are numbers here, and `text_of` prints them.
use Prim.Native.String.{String}
use agent_reliability_platfo.Base.{ℕ, Option, some, ◌++◌}
use agent_reliability_platfo.Base.Text.{Text, codes}
use agent_reliability_platfo.Shared.TaskSnapshot.{TaskSnapshot}
use agent_reliability_platfo.Store.Table.{find}
use agent_reliability_platfo.Store.Rows.{DeliveryJob, Db}
use agent_reliability_platfo.Store.Queries.{approval_key, task_key, project_key, run_key, job_key}
use agent_reliability_platfo.Run.Complete.{truthy}
use agent_reliability_platfo.Github.Address.{◌>>=◌}

-- The job with what is read of its approval, task, run and repository.
pub record Plan : Type 0 where
  pub job : DeliveryJob
  pub run_id : ℕ
  pub snapshot : TaskSnapshot
  pub github_repo : String

-- `none` where a row or the snapshot is missing, or there is no repository to write to.
unfoldable pub read_plan : ℕ → Db → Option Plan
read_plan id db = do
  job ← find job_key id db.deliveries
  approval ← find approval_key job.approval_id db.approvals
  task ← find task_key approval.task_id db.tasks
  project ← find project_key task.project_id db.projects
  run ← find run_key approval.run_id db.runs
  snapshot ← task.snapshot
  credential ← truthy project.write_credential
  repo ← truthy project.github_repo
  some (record { job = job; run_id = run.id; snapshot = snapshot; github_repo = repo })

module _ (text_of : ℕ → Text) where
  -- `arp-delivery:${job.id}:${job.patchDigest}`
  unfoldable pub marker : DeliveryJob → Text
  marker job = codes "arp-delivery:" ++ (text_of job.id ++ (codes ":" ++ text_of job.patch_digest))

  -- The message of the commit.
  unfoldable pub message : DeliveryJob → TaskSnapshot → Text
  unfolding marker
  message job snapshot = codes "fix: " ++ (codes snapshot.title ++ (codes "\n\n" ++ marker job))

  unfoldable pub pull_body : DeliveryJob → TaskSnapshot → Text
  unfolding marker
  pull_body job snapshot =
      codes "Verified and approved local repair.\n\n"
      ++ (marker job ++ (codes "\n\nSource commit: " ++ text_of snapshot.execution_sha))
