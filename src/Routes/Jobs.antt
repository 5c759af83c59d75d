-- ===== src/Routes/Jobs.antt =====
-- app/api/routes/jobs.py, but for the quality gate of a job.
use llm_evaluation_pipeline.Prelude.{
  ℕ, String, Bool, true, false, Option, none, some, List, map, if◌then◌else◌, ltb,
}
use llm_evaluation_pipeline.Models.{
  JobStatus, queued, Project, BatchEvaluationItem, BatchResult, EvaluationJob,
}
use llm_evaluation_pipeline.App.{
  http_exception, attribute_error, Exec, Backend, pure, raise, ◌>>=◌, ◌>>◌,
}
use llm_evaluation_pipeline.Jobs.{create_job, dispatch_job, get_job, mark_job_failed, is_terminal}
use llm_evaluation_pipeline.Jobs
use llm_evaluation_pipeline.Store.{list_jobs, count_jobs}
use llm_evaluation_pipeline.Routes.{or_404}

pub record JobProgress : Type 0 where
  pub total : ℕ
  pub completed : ℕ
  pub failed : ℕ

pub record JobResponse : Type 0 where
  pub job_id : ℕ
  pub status : JobStatus
  pub progress : Option JobProgress
  pub created_at : ℕ
  pub started_at : Option ℕ
  pub completed_at : Option ℕ
  pub error_message : Option String
  pub evaluation_run_id : Option ℕ
  pub batch_results : Option (List BatchResult)

pub record PaginatedJobsResponse : Type 0 where
  pub jobs : List JobResponse
  pub total : ℕ
  pub offset : ℕ
  pub limit : ℕ

module _ {F : Type 0} where
  unfoldable pub progress_of : EvaluationJob F → Option JobProgress
  progress_of job =
      if ltb 0 job.total_items
      then some (record {
        total = job.total_items;
        completed = job.completed_items;
        failed = job.failed_items;
      })
      else none

  -- the response to a cancellation: without the progress and the results
  unfoldable pub bare_response : EvaluationJob F → JobResponse
  bare_response job = record {
    job_id = job.id;
    status = job.status;
    progress = none;
    created_at = job.created_at;
    started_at = job.started_at;
    completed_at = job.completed_at;
    error_message = job.error_message;
    evaluation_run_id = none;
    batch_results = none;
  }

  unfoldable pub list_response : EvaluationJob F → JobResponse
  unfolding bare_response
  list_response job = record (bare_response job) { progress = progress_of job }

  unfoldable pub status_response : EvaluationJob F → JobResponse
  unfolding list_response
  status_response job = record (list_response job) {
    evaluation_run_id = job.evaluation_run_id;
    batch_results = job.batch_results;
  }

  -- what is answered to a submission
  unfoldable pub queued_response : EvaluationJob F → JobResponse
  queued_response job = record {
    job_id = job.id;
    status = queued;
    progress = some (record { total = job.total_items; completed = 0; failed = 0 });
    created_at = job.created_at;
    started_at = none;
    completed_at = none;
    error_message = none;
    evaluation_run_id = none;
    batch_results = none;
  }

module _ {F D R V : Type 0} (b : Backend F D R V) where
  unfoldable pub submit_async_evaluation :
      List (BatchEvaluationItem F) → Option ℕ → Project → Exec F D R JobResponse
  submit_async_evaluation items quality_gate_id project = do
    job ← create_job b items quality_gate_id (some project.id)
    dispatch_job b job.id
    pure (queued_response job)

  unfoldable pub get_job_status : ℕ → Project → Exec F D R JobResponse
  get_job_status job_id project = do
    found ← get_job b job_id (some project.id)
    job ← or_404 found
    pure (status_response job)

  -- `job.id` of a job that is None raises
  unfoldable pub refetched : Option (EvaluationJob F) → Exec F D R JobResponse
  refetched none = raise attribute_error
  refetched (some job) = pure (bare_response job)

  -- after the cancellation in Redis
  unfoldable pub finish_cancel : ℕ → Bool → Exec F D R JobResponse
  finish_cancel job_id false = raise (http_exception 409)
  finish_cancel job_id true = do
    mark_job_failed b job_id "Cancelled by user"
    again ← get_job b job_id none
    refetched again

  unfoldable pub cancel_job : ℕ → Project → Exec F D R JobResponse
  cancel_job job_id project = do
    found ← get_job b job_id (some project.id)
    job ← or_404 found
    if is_terminal job.status
        then raise (http_exception 409)
        else (Jobs.cancel_job b job_id >>= λ cancelled. finish_cancel job_id cancelled)

module _ {F D R : Type 0} where
  -- `order_by_desc` is what the database does for `ORDER BY … DESC`
  unfoldable pub list_evaluation_jobs :
      ((EvaluationJob F → ℕ) → List (EvaluationJob F) → List (EvaluationJob F))
      → ℕ
      → ℕ
      → Project
      → Exec F D R PaginatedJobsResponse
  list_evaluation_jobs order_by_desc offset limit project = do
    jobs ← list_jobs order_by_desc offset limit (some project.id)
    total ← count_jobs (some project.id)
    pure (record { jobs = map list_response jobs; total = total; offset = offset; limit = limit })
