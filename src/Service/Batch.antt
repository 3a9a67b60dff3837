-- ===== src/Service/Batch.antt =====
-- Batch deletion in internal/stack/service.go. The goroutine that StartBatchDelete starts is returned
-- beside the job's id, as an operation that runs at any later time.
pub mod Counts
use Prim.Native.String.{◌++◌}
use container_provisioner_k.Base.{
  ℕ, suc, String, Bool, true, false, ◌&&◌, Option, none, some, List, [], ◌∷◌, ◌++◌ as append,
  if◌then◌else◌, ltb, leb, length, ◌==◌, nat_eq,
}
use container_provisioner_k.Base.Text.{byte_len, byte_prefix}
use container_provisioner_k.Errors.{
  Error, Result, ok, err, sentinel, is_error, message_of, not_found, invalid_input,
}
use container_provisioner_k.Op.{Op, pure, raise, attempt, ◌>>=◌, ◌>>◌}
use container_provisioner_k.Models.{Time, JobStatus, JobError, BatchDeleteJob}
use container_provisioner_k.Service.{Service, new_job_id}
use container_provisioner_k.Service.Query.{delete}

abbrev pub max_job_errors : ℕ
max_job_errors = 100

unfoldable pub truncate_error : String → String
truncate_error msg = if leb (byte_len msg) 512 then msg else byte_prefix 512 msg ++ "..."

-- The switch on the result of one deletion.
unfoldable pub count_result : String → Result (Unit {0}) → BatchDeleteJob → BatchDeleteJob
count_result stack_id (ok _) job = record job { deleted = suc job.deleted }
count_result stack_id (err e) job =
    if is_error not_found e then record job { not_found = suc job.not_found } else record job {
      failed = suc job.failed;
      errors =
          if ltb (length job.errors) max_job_errors
          then append job.errors
              (record { stack_id = stack_id; error = truncate_error (message_of e) } ∷ [])
          else job.errors;
    }

-- The status of a finished job.
unfoldable pub final_status : BatchDeleteJob → JobStatus
final_status job =
    if ltb 0 job.failed && job.deleted == 0 && job.not_found == 0
    then JobStatus.failed
    else JobStatus.completed

module _ {W Q : Type 0} (s : Service W Q) where
  -- `job.UpdatedAt = s.now()` and the update, whose error is only logged.
  unfoldable pub save_job : BatchDeleteJob → Op W BatchDeleteJob
  save_job job w =
      let (now, w1) = s.now w in
      let job' = record job { updated_at = now } in
      (do attempt (s.repo.update_batch_delete_job job'); pure job') w1

  unfoldable pub delete_each : List String → BatchDeleteJob → Op W BatchDeleteJob
  delete_each [] job = pure job
  delete_each (stack_id ∷ stack_ids) job = do
    r ← attempt (delete s stack_id)
    job' ← save_job (count_result stack_id r job)
    delete_each stack_ids job'

  -- The body of the job, once it has been fetched; the last version of the job is the result.
  unfoldable pub process_job : List String → BatchDeleteJob → Op W BatchDeleteJob
  process_job stack_ids job = do
    started ← save_job (record job { status = JobStatus.running })
    processed ← delete_each stack_ids started
    save_job (record processed { status = final_status processed })

  -- The goroutine: its errors are only logged.
  unfoldable pub run_batch_delete : String → List String → Op W (Unit {0})
  unfolding process_job
  run_batch_delete job_id stack_ids = do
    found ← attempt (s.repo.get_batch_delete_job job_id)
    elim found [
      | err e ↦ pure tt
      | ok none ↦ pure tt
      | ok (some job) ↦ (do process_job stack_ids job; pure tt)
    ]

  unfoldable pub start_batch_delete : List String → Op W (String × Op W (Unit {0}))
  unfolding run_batch_delete
  start_batch_delete stack_ids w =
      if length stack_ids == 0
      then raise (sentinel invalid_input) w
      else (let (job_id, w1) = new_job_id s w in
          let (now, w2) = s.now w1 in
          (do
            s.repo.create_batch_delete_job (record {
              job_id = job_id;
              status = JobStatus.queued;
              total = length stack_ids;
              deleted = 0;
              not_found = 0;
              failed = 0;
              errors = [];
              created_at = now;
              updated_at = now;
            })
            pure (job_id, run_batch_delete job_id stack_ids))
            w2)

  unfoldable pub get_batch_delete_job : String → Op W BatchDeleteJob
  get_batch_delete_job job_id = do
    found ← s.repo.get_batch_delete_job job_id
    elim found [ none ↦ raise (sentinel not_found) | some job ↦ pure job ]
