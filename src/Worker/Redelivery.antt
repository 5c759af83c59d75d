-- ===== src/Worker/Redelivery.antt =====
-- A job that the queue delivers a second time.
use llm_evaluation_pipeline.Prelude.{
  ℕ, ◌+◌, ◌≡◌, refl, sym, ap, ◌∙◌, Bool, true, false, Option, none, some, List, [], ◌∷◌, arith,
  first, inl, inr, if◌then◌else◌, Option-cases, Bool-cases, number_comparable, ◌==◌,
}
use mathlib.Core.Option
use llm_evaluation_pipeline.Models.{
  JobStatus, queued, running, completed, failed, cancelled, ContextChunk, ConversationInput,
  BatchEvaluationItem, BatchResult, EvaluationJob, Database,
}
use llm_evaluation_pipeline.App.{
  Backend, Exception, World, Result, ok, raised, ◌>>=◌, except, in_session, query, database_error,
}
use llm_evaluation_pipeline.App.Rows.{update, first-update}
use llm_evaluation_pipeline.App.Hoare.{
  Outcome-bind, commit-Outcome, send-Outcome, Outcome, Returns, Returns-pure, Returns-raise,
  Returns-if, Returns-bind, Returns-then, Returns-except, Returns-in_session,
}
use llm_evaluation_pipeline.Jobs.{update_jobs, has_id, find_job, set_job_state}
use llm_evaluation_pipeline.Worker.{
  PipelineResult, JobReport, job_not_found, already_completed, job_cancelled, finished, gave_up,
  Batch, Shared, process_items, complete, stop_cancelled, start_running, start_at, start_found,
  on_error, empty_batch, process_evaluation_job,
}

module _ {F D : Type 0} where
  -- the row of the job, if it is still there, says that the job is completed
  abbrev IsCompleted : ℕ → Database F D → Type 0
  IsCompleted id db =
      (j : EvaluationJob F) → first (has_id id) db.evaluation_jobs ≡ some j → j.status ≡ completed

module _ {F : Type 0} where
  -- what a delivery reports that has nothing to do
  abbrev pub skipped : Option (EvaluationJob F) → JobReport
  skipped none = job_not_found
  skipped (some job) = already_completed

  abbrev close_row : ℕ → List BatchResult → EvaluationJob F → EvaluationJob F
  close_row done results j = record j {
    status = completed;
    completed_at = some done;
    batch_results = some results;
  }

  close_row-completed :
      (done : ℕ) (results : List BatchResult) (found : Option (EvaluationJob F))
      (j : EvaluationJob F)
      → Option.map (close_row done results) found ≡ some j
      → j.status ≡ completed
  close_row-completed done results none j e = ground arith
  close_row-completed done results (some x) j e = ground arith

  first_completed :
      (id done : ℕ) (results : List BatchResult) (jobs : List (EvaluationJob F))
      (j : EvaluationJob F)
      → first (has_id id) (update (has_id id) (close_row done results) jobs) ≡ some j
      → j.status ≡ completed
  first_completed id done results jobs j e =
      let found = first-update (has_id id) (close_row done results) jobs (λ x. refl) in
      close_row-completed done results (first (has_id id) jobs) j (sym found ∙ e)

module _ {F : Type 0} where
  abbrev HasId : ℕ → Option (EvaluationJob F) → Type 0
  HasId id none = Unit
  HasId id (some job) = job.id ≡ id

  first-HasId : (id : ℕ) (jobs : List (EvaluationJob F)) → HasId id (first (has_id id) jobs)
  first-HasId id [] = tt
  first-HasId id (job ∷ jobs) = elim (Bool-cases (job.id == id)) [
    | inl yes' ↦ rw yes' (number_comparable.same_sound job.id id yes')
    | inr no' ↦ rw no' (first-HasId id jobs)
  ]

module _ {F D R : Type 0} where
  find_job-HasId :
      (id : ℕ) → Returns (find_job {F = F} {D = D} {R = R} id) (λ found _. HasId id found)
  unfolding find_job query
  find_job-HasId id = record { value = λ w. go w w.broken }
    where
      go :
          (w : World F D R) (c : Bool)
          → Outcome
              (λ found _. HasId id found)
              (λ _. Unit)
              (if c
                then (raised database_error, w)
                else (ok (first (has_id id) w.view.evaluation_jobs), w))
      go w true = tt
      go w false = first-HasId id w.view.evaluation_jobs

  -- where the job is finished, it is completed in what is committed
  abbrev IsClosed : ℕ → JobReport → World F D R → Type 0
  IsClosed id (finished c f) w = IsCompleted id w.stored
  IsClosed id job_not_found w = Unit
  IsClosed id already_completed w = Unit
  IsClosed id job_cancelled w = Unit
  IsClosed id (gave_up e) w = Unit

  IsClosed-world :
      (id : ℕ) (r : JobReport) (w : World F D R)
      → IsClosed id r w
      → IsClosed id r (record w { view = w.stored; broken = false })
  IsClosed-world id (finished c f) w h = h
  IsClosed-world id job_not_found w h = tt
  IsClosed-world id already_completed w h = tt
  IsClosed-world id job_cancelled w h = tt
  IsClosed-world id (gave_up e) w h = tt

module _ {F D R V : Type 0} (b : Backend F D R V) where
  complete-IsClosed :
      (job : EvaluationJob F) (acc : Batch) → Returns (complete b job acc) (IsClosed job.id)
  unfolding complete set_job_state
  complete-IsClosed job acc = Returns-then (IsClosed job.id) _ _ λ done. record {
    value = λ w.
        let closed = record w { view = update_jobs job.id (close_row done acc.results) w.view } in
        Outcome-bind (λ _ v. v.view ≡ closed.view) (IsClosed job.id) (λ _. Unit) _ _ w refl
          λ _ v changed.
            Outcome-bind (λ _ u. u.stored ≡ v.view) (IsClosed job.id) (λ _. Unit) _ _ v
              (commit-Outcome b v)
              λ _ u committed.
                Outcome-bind (λ _ t. t.stored ≡ u.stored) (IsClosed job.id) (λ _. Unit) _ _ u
                  (send-Outcome _ u)
                  λ _ t sent j found.
                    first_completed job.id done acc.results w.view.evaluation_jobs j (
                      sym (
                        ap (λ db. first (has_id job.id) db.evaluation_jobs)
                          (sent ∙ committed ∙ changed))
                      ∙ found);
  }

  stop_cancelled-IsClosed :
      (job : EvaluationJob F) → Returns (stop_cancelled b job) (IsClosed job.id)
  unfolding stop_cancelled
  stop_cancelled-IsClosed job = Returns-then _ _ _ λ _.
      Returns-then _ _ _
        λ _. Returns-then _ _ _ λ _. Returns-then _ _ _ λ _. Returns-pure _ _ λ _. tt

  on_error-IsClosed :
      (id job_try max_retries : ℕ) (e : Exception)
      → Returns (on_error b id job_try max_retries e) (IsClosed id)
  unfolding on_error
  on_error-IsClosed id job_try max_retries e =
      Returns-then _ _ _ λ _. Returns-if _ _ _ _ (Returns-raise _ e) (Returns-pure _ _ (λ _. tt))

module _ {F D R V : Type 0} (b : Backend F D R V)
    (evaluate : ConversationInput F → List ContextChunk → Result (PipelineResult F D))
    (others : ℕ → Shared F D R → Shared F D R) where
  process_items-IsClosed :
      (job : EvaluationJob F) (i : ℕ) (items : List (BatchEvaluationItem F)) (acc : Batch)
      → Returns (process_items b evaluate others job i items acc) (IsClosed job.id)
  unfolding process_items
  process_items-IsClosed job i [] acc = complete-IsClosed b job acc
  process_items-IsClosed job i (item ∷ items) acc = Returns-then _ _ _ λ _.
      Returns-then _ _ _ λ stop.
        Returns-if _ _ _ _ (stop_cancelled-IsClosed b job)
          (Returns-then _ _ _ λ acc'. process_items-IsClosed job (i + 1) items acc')

  start_running-IsClosed :
      (job : EvaluationJob F) → Returns (start_running b evaluate others job) (IsClosed job.id)
  unfolding start_running
  start_running-IsClosed job = Returns-then _ _ _ λ _. Returns-then _ _ _ λ _.
      Returns-then _ _ _
        λ _. Returns-then _ _ _ λ _. process_items-IsClosed job 0 job.items empty_batch

  start_at-IsClosed :
      (s : JobStatus) (job : EvaluationJob F)
      → Returns (start_at b evaluate others s job) (IsClosed job.id)
  unfolding start_at
  start_at-IsClosed completed job = Returns-pure _ _ λ _. tt
  start_at-IsClosed cancelled job = Returns-pure _ _ λ _. tt
  start_at-IsClosed queued job = start_running-IsClosed job
  start_at-IsClosed running job = start_running-IsClosed job
  start_at-IsClosed failed job = start_running-IsClosed job

  start_found-IsClosed :
      (id : ℕ) (found : Option (EvaluationJob F))
      → HasId id found
      → Returns (start_found b evaluate others found) (IsClosed id)
  unfolding start_found
  start_found-IsClosed id none h = Returns-pure _ _ λ _. tt
  start_found-IsClosed id (some job) h = rw (← h) (start_at-IsClosed job.status job)

  process-IsClosed :
      (id job_try max_retries : ℕ)
      → Returns (process_evaluation_job b evaluate others id job_try max_retries) (IsClosed id)
  unfolding process_evaluation_job
  process-IsClosed id job_try max_retries = Returns-in_session _ _ (IsClosed-world id) (
      Returns-except _ _ _
        (Returns-bind (HasId id) _ _ _ (find_job-HasId id)
          λ found h. start_found-IsClosed id found h)
        (on_error-IsClosed b id job_try max_retries))

  finished-IsCompleted :
      (id c f : ℕ) (o : Result JobReport × World F D R)
      → Outcome (IsClosed id) (λ _. Unit) o
      → o.0 ≡ ok (finished c f)
      → IsCompleted id o.1.stored
  finished-IsCompleted id c f (ok (finished a d), w) h e = h
  finished-IsCompleted id c f (ok job_not_found, w) h e = ground arith
  finished-IsCompleted id c f (ok already_completed, w) h e = ground arith
  finished-IsCompleted id c f (ok job_cancelled, w) h e = ground arith
  finished-IsCompleted id c f (ok (gave_up x), w) h e = ground arith
  finished-IsCompleted id c f (raised x, w) h e = ground arith

  completed_delivery :
      (id job_try max_retries : ℕ) (w : World F D R)
      → IsCompleted id w.stored
      → process_evaluation_job b evaluate others id job_try max_retries w ≡ (
        ok (skipped (first (has_id id) w.stored.evaluation_jobs)),
        record w { view = w.stored; broken = false },
      )
  unfolding process_evaluation_job in_session except find_job query start_found start_at ◌>>=◌
  completed_delivery id job_try max_retries w h =
      elim (Option-cases (first (has_id id) w.stored.evaluation_jobs)) [
        | inl missing ↦ rw missing refl
        | inr (job, found) ↦ rw found (rw (h job found) refl)
      ]

  -- Once a delivery of a job has finished it, every further delivery, with whatever tries are left,
  -- reports that the job is already completed, or that it is not found where the row was deleted, and
  -- changes neither the committed database nor Redis: no item is evaluated a second time. The first
  -- delivery may have met any evaluator, any failures and any other processes.
  pub process_evaluation_job_twice :
      (id job_try max_retries again c f : ℕ) (w : World F D R)
      → (process_evaluation_job b evaluate others id job_try max_retries w).0 ≡ ok (finished c f)
      → let after = (process_evaluation_job b evaluate others id job_try max_retries w).1 in
        process_evaluation_job b evaluate others id again max_retries after ≡ (
          ok (skipped (first (has_id id) after.stored.evaluation_jobs)),
          record after { view = after.stored; broken = false },
        )
  process_evaluation_job_twice id job_try max_retries again c f w e =
      completed_delivery id again max_retries _
        (finished-IsCompleted id c f _ ((process-IsClosed id job_try max_retries).value w) e)
