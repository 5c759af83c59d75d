-- ===== src/Worker.antt =====
-- app/worker.py: the task that processes a job.
pub mod Counts
pub mod Redelivery
pub mod Steady
pub mod Success
mod Tests
use llm_evaluation_pipeline.Prelude.{
  ℕ, ◌+◌, String, Bool, true, false, Option, none, some, List, [], ◌∷◌, ◌++◌, if◌then◌else◌, ltb,
  length,
}
use llm_evaluation_pipeline.Metric.{Hallucination}
use llm_evaluation_pipeline.Models.{
  JobStatus, queued, running, completed, failed, cancelled, ContextChunk, ConversationInput,
  BatchEvaluationItem, BatchResult, item_completed, item_failed, EvaluationRun, EvaluationJob,
  Database,
}
use llm_evaluation_pipeline.Redis.{StateEntry, ProgressEntry}
use llm_evaluation_pipeline.App.{
  Exec, Backend, World, Exception, Result, ok, raised, pure, raise, gets, ◌>>=◌, ◌>>◌, proceed,
  handle, change_view, rollback, in_session, except, commit, prefix,
}
use llm_evaluation_pipeline.Jobs.{
  find_job, change_job, now, set_job_state, get_job_state, set_job_progress, entry_of,
}

-- what `pipeline.evaluate` returns
pub record PipelineResult (F D : Type 0) : Type 0 where
  pub relevance : Option F
  pub hallucination : Option (Hallucination F D)
  pub latency_ms : Option F
  pub estimated_cost : Option F

-- what the task returns
pub data JobReport : Type 0 where
  job_not_found already_completed job_cancelled : JobReport
  finished : (completed failed : ℕ) → JobReport
  gave_up : (error : String) → JobReport

-- the variables of the loop over the items
pub record Batch : Type 0 where
  pub completed : ℕ
  pub failed : ℕ
  pub results : List BatchResult

-- what the processes share
pub record Shared (F D R : Type 0) : Type 0 where
  pub stored : Database F D
  pub redis : R
  pub clock : ℕ

abbrev pub empty_batch : Batch
empty_batch = record { completed = 0; failed = 0; results = [] }

abbrev pub says_cancelled : Option StateEntry → Bool
says_cancelled none = false
says_cancelled (some e) = elim e.state [ cancelled ↦ true | _ ↦ false ]

module _ {F D R : Type 0} where
  -- what other processes do to the shared stores before item i
  unfoldable pub interleave : (ℕ → Shared F D R → Shared F D R) → ℕ → Exec F D R (Unit {0})
  interleave others i w =
      let s = others i (record { stored = w.stored; redis = w.redis; clock = w.clock }) in
      (ok tt, record w { view = s.stored; stored = s.stored; redis = s.redis; clock = s.clock })

module _ {F D : Type 0} where
  abbrev pub run_of :
      ℕ → ℕ → EvaluationJob F → BatchEvaluationItem F → PipelineResult F D → EvaluationRun F D
  run_of id created job item r = record {
    id = id;
    created_at = created;
    project_id = job.project_id;
    status = completed;
    is_baseline = false;
    profile = none;
    composite_score = none;
    conversation = item.conversation;
    context = item.context;
    relevance = r.relevance;
    hallucination = r.hallucination;
    latency_ms = r.latency_ms;
    estimated_cost = r.estimated_cost;
  }

module _ {F D R V : Type 0} (b : Backend F D R V) where
  unfoldable pub is_cancelled : ℕ → Exec F D R Bool
  is_cancelled id = do state ← get_job_state b id; pure (says_cancelled state)

  -- the `try` of an item after the evaluation, and its `except`
  unfoldable pub record_item :
      EvaluationJob F
      → ℕ
      → BatchEvaluationItem F
      → Batch
      → Result (PipelineResult F D)
      → Exec F D R Batch
  record_item job i item acc (ok r) = do
    id ← gets (λ w. b.uuid4 w.view)
    created ← now
    change_view (λ db. record db {
      evaluation_runs = db.evaluation_runs ++ run_of id created job item r ∷ [];
    })
    pure (record {
      completed = acc.completed + 1;
      failed = acc.failed;
      results = acc.results ++ item_completed id ∷ [];
    })
  record_item job i item acc (raised e) = do
    rollback
    pure (record {
      completed = acc.completed;
      failed = acc.failed + 1;
      results = acc.results ++ item_failed i (b.str e) ∷ [];
    })

  unfoldable pub stop_cancelled : EvaluationJob F → Exec F D R JobReport
  stop_cancelled job = do
    done ← now
    change_job job.id (λ j. record j { status = cancelled; completed_at = some done })
    commit b
    set_job_state b job.id (entry_of cancelled)
    pure job_cancelled

  unfoldable pub complete : EvaluationJob F → Batch → Exec F D R JobReport
  complete job acc = do
    done ← now
    change_job job.id (λ j. record j {
      status = completed;
      completed_at = some done;
      batch_results = some acc.results;
    })
    commit b
    set_job_state b job.id (record {
      state = completed;
      completed = some acc.completed;
      failed = some acc.failed;
      error = none;
    })
    pure (finished acc.completed acc.failed)

  unfoldable pub mark_error : Exception → Option (EvaluationJob F) → Exec F D R (Unit {0})
  mark_error e none = pure tt
  mark_error e (some job) = do
    done ← now
    change_job job.id (λ j. record j {
      status = failed;
      completed_at = some done;
      error_message = some (prefix 1000 (b.str e));
    })
    commit b

  -- the `except` of the task: the failure is written as far as the stores can be reached, then the
  -- exception is raised again while tries are left
  unfoldable pub on_error : ℕ → ℕ → ℕ → Exception → Exec F D R JobReport
  on_error id job_try max_retries e = do
    except
        (do
          found ← find_job id
          mark_error e found
          set_job_state b id (record {
            state = failed;
            completed = none;
            failed = none;
            error = some (prefix 500 (b.str e));
          }))
        (λ _. pure tt)
    if ltb job_try max_retries then raise e else pure (gave_up (prefix 500 (b.str e)))

module _ {F D R V : Type 0} (b : Backend F D R V)
    (evaluate : ConversationInput F → List ContextChunk → Result (PipelineResult F D)) where
  -- the body of the loop after the test for cancellation
  unfoldable pub process_item :
      EvaluationJob F → ℕ → BatchEvaluationItem F → Batch → Exec F D R Batch
  process_item job i item acc = do
    acc' ← record_item b job i item acc (evaluate item.conversation item.context)
    change_job job.id
        (λ j. record j { completed_items = acc'.completed; failed_items = acc'.failed })
    commit b
    set_job_progress b job.id
        (record { total = length job.items; completed = acc'.completed; failed = acc'.failed })
    pure acc'

module _ {F D R V : Type 0} (b : Backend F D R V)
    (evaluate : ConversationInput F → List ContextChunk → Result (PipelineResult F D))
    (others : ℕ → Shared F D R → Shared F D R) where
  -- the loop from item i on, and what follows it
  unfoldable pub process_items :
      EvaluationJob F → ℕ → List (BatchEvaluationItem F) → Batch → Exec F D R JobReport
  process_items job i [] acc = complete b job acc
  process_items job i (item ∷ items) acc = do
    interleave others i
    stop ← is_cancelled b job.id
    if stop
        then stop_cancelled b job
        else (process_item b evaluate job i item acc >>= λ acc'.
            process_items job (i + 1) items acc')

  unfoldable pub start_running : EvaluationJob F → Exec F D R JobReport
  start_running job = do
    started ← now
    change_job job.id (λ j. record j { status = running; started_at = some started })
    commit b
    set_job_state b job.id (entry_of running)
    process_items job 0 job.items empty_batch

  -- the early returns on the status of the row
  unfoldable pub start_at : JobStatus → EvaluationJob F → Exec F D R JobReport
  start_at completed job = pure already_completed
  start_at cancelled job = pure job_cancelled
  start_at queued job = start_running job
  start_at running job = start_running job
  start_at failed job = start_running job

  unfoldable pub start_found : Option (EvaluationJob F) → Exec F D R JobReport
  start_found none = pure job_not_found
  start_found (some job) = start_at job.status job

  unfoldable pub process_evaluation_job : ℕ → ℕ → ℕ → Exec F D R JobReport
  process_evaluation_job id job_try max_retries =
      in_session (except (find_job id >>= start_found) (on_error b id job_try max_retries))
