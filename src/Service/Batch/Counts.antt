-- ===== src/Service/Batch/Counts.antt =====
-- The counters of a batch job, whatever the repository and the cluster answer.
use container_provisioner_k.Base.{
  ℕ, ◌+◌, ◌<◌, suc, String, List, [], ◌∷◌, ◌++◌, ◌≡◌, refl, ◌∙◌, arith, length, length-append,
  Bool-cases, inl, inr, ◌⊎◌, ltb, if◌then◌else◌,
}
use Prim.Native.Nat.{min}
use container_provisioner_k.Errors.{message_of, Result, ok, err, is_error, not_found}
use container_provisioner_k.Models.{Time, JobStatus, BatchDeleteJob, JobError}
use container_provisioner_k.Service.{Service}
use container_provisioner_k.Service.Query.{delete}
use container_provisioner_k.Service.Batch.{
  truncate_error, count_result, final_status, save_job, delete_each, process_job, max_job_errors,
}

-- How many stacks a job has dealt with.
abbrev pub handled : BatchDeleteJob → ℕ
handled job = job.deleted + job.not_found + job.failed

-- A list of recorded errors that holds one entry for each failure, up to the limit.
abbrev pub KeepsErrors : BatchDeleteJob → Type 0
KeepsErrors job = length job.errors ≡ min job.failed max_job_errors

-- From `job` to `job'`, `n` more stacks have been dealt with, and nothing else but the time, the
-- status and the errors has changed.
pub record Advanced (n : ℕ) (job job' : BatchDeleteJob) : Type 0 where
  pub count : handled job' ≡ handled job + n
  pub errors : KeepsErrors job'
  pub same_id : job'.job_id ≡ job.job_id
  pub same_total : job'.total ≡ job.total
  pub same_creation : job'.created_at ≡ job.created_at

add_error-KeepsErrors :
    (job : BatchDeleteJob) (x : JobError)
    → KeepsErrors job
    → length (if ltb (length job.errors) max_job_errors then job.errors ++ x ∷ [] else job.errors)
      ≡ min (suc job.failed) max_job_errors
add_error-KeepsErrors job x h = ground (arith, length-append job.errors (x ∷ []))

count_result-Advanced :
    (id : String) (r : Result (Unit {0})) (job : BatchDeleteJob)
    → KeepsErrors job
    → Advanced 1 job (count_result id r job)
unfolding count_result
count_result-Advanced id (ok _) job h = record {
  count = omega arith;
  errors = h;
  same_id = refl;
  same_total = refl;
  same_creation = refl;
}
count_result-Advanced id (err e) job h = elim (Bool-cases (is_error not_found e)) [
  | inl b ↦ rw b (record {
    count = omega arith;
    errors = h;
    same_id = refl;
    same_total = refl;
    same_creation = refl;
  })
  | inr b ↦ rw b (record {
    count = omega arith;
    errors =
        add_error-KeepsErrors job (record { stack_id = id; error = truncate_error (message_of e) })
          h;
    same_id = refl;
    same_total = refl;
    same_creation = refl;
  })
]

-- One stack and then `n` more; the time of the job between is free.
Advanced-step :
    {n : ℕ} {a b c : BatchDeleteJob} {now : Time}
    → Advanced 1 a b
    → Advanced n (record b { updated_at = now }) c
    → Advanced (suc n) a c
Advanced-step p q = record {
  count = omega (arith, p.count, q.count);
  errors = q.errors;
  same_id = q.same_id ∙ p.same_id;
  same_total = q.same_total ∙ p.same_total;
  same_creation = q.same_creation ∙ p.same_creation;
}

final_status-verdict :
    (job : BatchDeleteJob) (n : ℕ)
    → handled job ≡ n
    → ((final_status job ≡ JobStatus.failed) × (0 < n) × (job.failed ≡ n))
      ⊎ ((final_status job ≡ JobStatus.completed) × ((n ≡ 0) ⊎ (job.failed < n)))
unfolding final_status
final_status-verdict job n h = ground arith

module _ {W Q : Type 0} (s : Service W Q) where
  -- Saving a job returns it with a new time.
  save_job_lem :
      (job : BatchDeleteJob) (w : W)
      → (now : Time) × (w' : W) × (save_job s job w ≡ (ok (record job { updated_at = now }), w'))
  unfolding save_job
  save_job_lem job w = (_, _, refl)

  delete_each-Advanced :
      (ids : List String) (job : BatchDeleteJob) (w : W)
      → KeepsErrors job
      → (job' : BatchDeleteJob) × (w' : W) × (delete_each s ids job w ≡ (ok job', w'))
        × Advanced (length ids) job job'
  unfolding delete_each
  delete_each-Advanced [] job w h = (
    job,
    w,
    refl,
    record {
      count = omega arith;
      errors = h;
      same_id = refl;
      same_total = refl;
      same_creation = refl;
    },
  )
  delete_each-Advanced (id ∷ ids) job w h =
      let (r, w1) = delete s id w in
      let a = count_result-Advanced id r job h in
      let (now, w2, e) = save_job_lem (count_result id r job) w1 in
      let (job2, w3, f, c) =
        delete_each-Advanced ids (record (count_result id r job) { updated_at = now }) w2
          a.errors in
      (job2, w3, rw (e, f), Advanced-step a c)

  -- What the last version of a job says.
  pub record Finished (ids : List String) (job job' : BatchDeleteJob) : Type 0 where
    pub count : handled job' ≡ length ids
    pub errors : KeepsErrors job'
    pub same_id : job'.job_id ≡ job.job_id
    pub same_total : job'.total ≡ job.total
    pub verdict :
        ((job'.status ≡ JobStatus.failed) × (0 < length ids) × (job'.failed ≡ length ids))
        ⊎ ((job'.status ≡ JobStatus.completed) × ((length ids ≡ 0) ⊎ (job'.failed < length ids)))

  -- A batch job whose counters start at 0 always finishes, whatever the repository and the cluster
  -- answer: the deleted, missing and failed stacks add up to the ids of the job, one error is kept for
  -- each failure up to 100, and the job has failed exactly if it has ids and all of them failed;
  -- otherwise it has completed.
  pub process_job-Finished :
      (ids : List String) (job : BatchDeleteJob) (w : W)
      → handled job ≡ 0
      → job.errors ≡ []
      → (job' : BatchDeleteJob) × (w' : W) × (process_job s ids job w ≡ (ok job', w'))
        × Finished ids job job'
  unfolding process_job
  process_job-Finished ids job w zeros none_yet =
      let h : KeepsErrors job = rw none_yet (omega (arith, zeros)) in
      let (t1, w1, e) = save_job_lem (record job { status = JobStatus.running }) w in
      let (job2, w2, f, b) =
        delete_each-Advanced ids (record job { status = JobStatus.running; updated_at = t1 }) w1
          h in
      let (t3, w3, g) = save_job_lem (record job2 { status = final_status job2 }) w2 in
      let count : handled job2 ≡ length ids = omega (arith, b.count) in
      (
        record job2 { status = final_status job2; updated_at = t3 },
        w3,
        rw (e, f) g,
        record {
          count = count;
          errors = b.errors;
          same_id = b.same_id;
          same_total = b.same_total;
          verdict = final_status-verdict job2 (length ids) count;
        },
      )
