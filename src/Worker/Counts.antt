-- ===== src/Worker/Counts.antt =====
-- What the report of a finished job counts.
use llm_evaluation_pipeline.Prelude.{
  ℕ, ◌+◌, ◌≡◌, refl, first, false, some, List, [], ◌∷◌, arith, length, length-append,
}
use llm_evaluation_pipeline.Models.{
  JobStatus, queued, running, completed, failed, cancelled, ContextChunk, ConversationInput,
  BatchEvaluationItem, EvaluationJob, item_completed, item_failed,
}
use llm_evaluation_pipeline.App.{
  Backend, Exception, rollback, World, Result, ok, raised, ◌>>=◌, except, in_session, query,
}
use llm_evaluation_pipeline.Jobs.{has_id, find_job}
use llm_evaluation_pipeline.App.Hoare.{
  Outcome, Returns, Returns-pure, Returns-raise, Returns-if, Returns-bind, Returns-then,
  Returns-except,
}
use llm_evaluation_pipeline.Worker.{
  PipelineResult, JobReport, job_not_found, already_completed, job_cancelled, finished, gave_up,
  Batch, Shared, record_item, process_item, process_items, complete, stop_cancelled, start_running,
  start_at, start_found, on_error, empty_batch, process_evaluation_job,
}

-- one more item is counted, and has one more entry among the results
abbrev IsNext : Batch → Batch → Type 0
IsNext acc acc' =
    (acc'.completed + acc'.failed ≡ acc.completed + acc.failed + 1)
    × (length acc'.results ≡ length acc.results + 1)

-- if the job is finished, `n` items are counted
abbrev pub Counts : ℕ → JobReport → Type 0
Counts n (finished c f) = c + f ≡ n
Counts n job_not_found = Unit
Counts n already_completed = Unit
Counts n job_cancelled = Unit
Counts n (gave_up e) = Unit

module _ {F D R V : Type 0} (b : Backend F D R V) where
  record_item-IsNext :
      (job : EvaluationJob F) (i : ℕ) (item : BatchEvaluationItem F) (acc : Batch)
      (r : Result (PipelineResult F D))
      → Returns (record_item b job i item acc r) (λ acc' _. IsNext acc acc')
  unfolding record_item rollback ◌>>=◌
  record_item-IsNext job i item acc (ok r) = record {
    value = λ w. omega (arith, length-append acc.results (item_completed (b.uuid4 w.view) ∷ []));
  }
  record_item-IsNext job i item acc (raised e) = record {
    value = λ w. omega (arith, length-append acc.results (item_failed i (b.str e) ∷ []));
  }

  complete-Counts :
      (job : EvaluationJob F) (acc : Batch)
      → Returns (complete b job acc) (λ r _. Counts (acc.completed + acc.failed) r)
  unfolding complete
  complete-Counts job acc = Returns-then _ _ _ λ done.
      Returns-then _ _ _
        λ _. Returns-then _ _ _ λ _. Returns-then _ _ _ λ _. Returns-pure _ _ λ _. refl

  stop_cancelled-Counts :
      (job : EvaluationJob F) (n : ℕ) → Returns (stop_cancelled b job) (λ r _. Counts n r)
  unfolding stop_cancelled
  stop_cancelled-Counts job n = Returns-then _ _ _ λ done.
      Returns-then _ _ _
        λ _. Returns-then _ _ _ λ _. Returns-then _ _ _ λ _. Returns-pure _ _ λ _. tt

  on_error-Counts :
      (id job_try max_retries n : ℕ) (e : Exception)
      → Returns (on_error b id job_try max_retries e) (λ r _. Counts n r)
  unfolding on_error
  on_error-Counts id job_try max_retries n e =
      Returns-then _ _ _ λ _. Returns-if _ _ _ _ (Returns-raise _ e) (Returns-pure _ _ (λ _. tt))

module _ {F D R V : Type 0} (b : Backend F D R V)
    (evaluate : ConversationInput F → List ContextChunk → Result (PipelineResult F D)) where
  process_item-IsNext :
      (job : EvaluationJob F) (i : ℕ) (item : BatchEvaluationItem F) (acc : Batch)
      → Returns (process_item b evaluate job i item acc) (λ acc' _. IsNext acc acc')
  unfolding process_item
  process_item-IsNext job i item acc =
      Returns-bind (IsNext acc) _ _ _ (record_item-IsNext b job i item acc _) λ acc' next.
        Returns-then _ _ _
          λ _. Returns-then _ _ _ λ _. Returns-then _ _ _ λ _. Returns-pure _ _ λ _. next

  module _ (others : ℕ → Shared F D R → Shared F D R) where
    process_items-Counts :
        (job : EvaluationJob F) (i : ℕ) (items : List (BatchEvaluationItem F)) (acc : Batch) (n : ℕ)
        → acc.completed + acc.failed + length items ≡ n
        → Returns (process_items b evaluate others job i items acc) (λ r _. Counts n r)
    unfolding process_items
    process_items-Counts job i [] acc n e =
        let total : acc.completed + acc.failed ≡ n = omega arith in
        rw (← total) (complete-Counts b job acc)
    process_items-Counts job i (item ∷ items) acc n e = Returns-then _ _ _ λ _.
        Returns-then _ _ _ λ stop. Returns-if _ _ _ _ (stop_cancelled-Counts b job n) (
          Returns-bind (IsNext acc) _ _ _ (process_item-IsNext job i item acc)
            λ acc' next. process_items-Counts job (i + 1) items acc' n (omega arith))

    start_running-Counts :
        (job : EvaluationJob F)
        → Returns (start_running b evaluate others job) (λ r _. Counts (length job.items) r)
    unfolding start_running
    start_running-Counts job = Returns-then _ _ _ λ _. Returns-then _ _ _ λ _.
        Returns-then _ _ _ λ _.
          Returns-then _ _ _
            λ _. process_items-Counts job 0 job.items empty_batch (length job.items) (omega arith)

    start_at-Counts :
        (s : JobStatus) (job : EvaluationJob F)
        → Returns (start_at b evaluate others s job) (λ r _. Counts (length job.items) r)
    unfolding start_at
    start_at-Counts completed job = Returns-pure _ _ λ _. tt
    start_at-Counts cancelled job = Returns-pure _ _ λ _. tt
    start_at-Counts queued job = start_running-Counts job
    start_at-Counts running job = start_running-Counts job
    start_at-Counts failed job = start_running-Counts job

    found-Counts :
        (id job_try max_retries : ℕ) (job : EvaluationJob F)
        → Returns
            (except (start_found b evaluate others (some job)) (on_error b id job_try max_retries))
            (λ r _. Counts (length job.items) r)
    unfolding start_found
    found-Counts id job_try max_retries job =
        Returns-except _ _ _ (start_at-Counts job.status job)
          (on_error-Counts b id job_try max_retries (length job.items))

    Outcome-Counts :
        (n c f : ℕ) (o : Result JobReport × World F D R)
        → Outcome (λ a _. Counts n a) (λ _. Unit) o
        → o.0 ≡ ok (finished c f)
        → c + f ≡ n
    Outcome-Counts n c f (ok (finished a d), w) h e = ground arith
    Outcome-Counts n c f (ok job_not_found, w) h e = ground arith
    Outcome-Counts n c f (ok already_completed, w) h e = ground arith
    Outcome-Counts n c f (ok job_cancelled, w) h e = ground arith
    Outcome-Counts n c f (ok (gave_up x), w) h e = ground arith
    Outcome-Counts n c f (raised x, w) h e = ground arith

    -- What the worker reports of a finished job accounts for every item of the job: the numbers of
    -- completed and of failed items add up to the number of items. This holds whatever the evaluator
    -- returns or raises, whatever fails, and whatever other processes do between the items.
    pub process_evaluation_job_counts :
        (id job_try max_retries c f : ℕ) (w : World F D R) (job : EvaluationJob F)
        → first (has_id id) w.stored.evaluation_jobs ≡ some job
        → (process_evaluation_job b evaluate others id job_try max_retries w).0 ≡ ok (finished c f)
        → c + f ≡ length job.items
    unfolding process_evaluation_job in_session find_job query except ◌>>=◌
    process_evaluation_job_counts id job_try max_retries c f w job e done =
        Outcome-Counts (length job.items) c f _
          ((found-Counts id job_try max_retries job).value
            (record w { view = w.stored; broken = false }))
          (rw (← e) done)
