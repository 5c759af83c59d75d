-- ===== src/Routes/Cancelled.antt =====
-- What becomes of a job that app/api/routes/jobs.py cancels.
use llm_evaluation_pipeline.Prelude.{
  ℕ, ◌≡◌, refl, sym, ap, subst, ◌∙◌, ◌⊎◌, inl, inr, Bool-cases, String, Bool, true, false, Option,
  none, some, List, [], ◌∷◌, number_comparable, first, arith,
}
use mathlib.Core.Option
use llm_evaluation_pipeline.Models.{failed, EvaluationJob, Database, Project}
use llm_evaluation_pipeline.App.{
  Backend, World, Result, ok, ◌>>=◌, commit, in_session, http_exception,
}
use llm_evaluation_pipeline.App.Hoare.{
  Outcome, Outcome-bind, Outcome-weaken, Returns, Returns-raise, Returns-if, Returns-then,
  Returns-in_session, query-Outcome, commit-Outcome,
}
use llm_evaluation_pipeline.App.Rows.{update, first-update}
use llm_evaluation_pipeline.Jobs.{
  has_id, find_job, mark_job_failed, mark_failed, update_jobs, is_terminal,
}
use llm_evaluation_pipeline.Routes.Reread.{
  Keeps-Outcome, show_again, show_again-Keeps, show_again-missing,
}
use llm_evaluation_pipeline.Routes.Jobs.{JobResponse, cancel_job, finish_cancel}
use llm_evaluation_pipeline.Prelude.{◌+◌, length}
use llm_evaluation_pipeline.Models.{ConversationInput, ContextChunk}
use llm_evaluation_pipeline.Redis.{IsRedis, IsJson}
use llm_evaluation_pipeline.Worker.{PipelineResult, process_evaluation_job}
use llm_evaluation_pipeline.Worker.Steady.{IsUp, successes, failures, count}
use llm_evaluation_pipeline.Worker.Success.{alone, IsReport, process_evaluation_job_finishes}

picked : {A : Type 0} (p : A → Bool) (xs : List A) (x : A) → first p xs ≡ some x → p x ≡ true
picked p [] x h = ground arith
picked p (y ∷ ys) x h = elim (Bool-cases (p y)) [
  | inl e ↦ subst (λ z. p z ≡ true) (ground arith) e
  | inr e ↦ picked p ys x (ground arith)
]

module _ {F D R V : Type 0} (b : Backend F D R V) where
  -- in what is committed, the job with the identifier is marked as failed
  abbrev pub IsFailed : ℕ → World F D R → Type 0
  IsFailed id w =
      (job : EvaluationJob F)
      → first (has_id id) w.stored.evaluation_jobs ≡ some job
      → job.status ≡ failed

  abbrev failed_by : ℕ → String → EvaluationJob F → EvaluationJob F
  failed_by time message j = record j {
    status = failed;
    completed_at = some time;
    error_message = some message;
  }

  updated-failed :
      (id time : ℕ) (message : String) (jobs : List (EvaluationJob F)) (job : EvaluationJob F)
      → first (has_id id) (update (has_id id) (failed_by time message) jobs) ≡ some job
      → job.status ≡ failed
  updated-failed id time message jobs job e =
      go (first (has_id id) jobs)
        (sym (first-update (has_id id) (failed_by time message) jobs (λ j. refl)) ∙ e)
    where
      go :
          (o : Option (EvaluationJob F))
          → Option.map (failed_by time message) o ≡ some job
          → job.status ≡ failed
      go none h = ground arith
      go (some j) h = ground arith

  -- the job is marked, or there is none
  abbrev IsMarked : ℕ → Unit {0} → World F D R → Type 0
  IsMarked id x v = IsFailed id v ⊎ (first (has_id id) v.view.evaluation_jobs ≡ none)

  mark_failed-IsMarked :
      (id : ℕ) (message : String) (found : Option (EvaluationJob F)) (v : World F D R)
      → first (has_id id) v.view.evaluation_jobs ≡ found
      → Outcome (IsMarked id) (λ w. Unit) (mark_failed b message found v)
  unfolding mark_failed ◌>>=◌
  mark_failed-IsMarked id message none v e = inr e
  mark_failed-IsMarked id message (some job) v e =
      let changed : World F D R = record v {
        view = update_jobs job.id (failed_by v.clock message) v.view;
      } in
      Outcome-weaken (λ x u. u.stored ≡ changed.view) (IsMarked id) (commit b changed)
        (λ x u same. inl λ j f. updated-failed id v.clock message v.view.evaluation_jobs j (
          subst
            (λ k.
              first (has_id id)
                (update (has_id k) (failed_by v.clock message) v.view.evaluation_jobs)
              ≡ some j)
            (number_comparable.same_sound job.id id
              (picked (has_id id) v.view.evaluation_jobs job e))
            (sym (ap (λ d. first (has_id id) d.evaluation_jobs) same) ∙ f)))
        (commit-Outcome b changed)

  mark_job_failed-IsMarked :
      (id : ℕ) (message : String) → Returns (mark_job_failed b id message) (IsMarked id)
  unfolding mark_job_failed find_job
  mark_job_failed-IsMarked id message = record {
    value = λ w.
        Outcome-bind _ (IsMarked id) (λ v. Unit) (find_job id)
          (λ found. mark_failed b message found) w
          (query-Outcome (λ db. first (has_id id) db.evaluation_jobs) w)
          λ found v h.
            mark_failed-IsMarked id message found v
              (ap (λ u. first (has_id id) u.view.evaluation_jobs) h.1 ∙ sym h.0);
  }

  finish_cancel-IsFailed :
      (id : ℕ) (c : Bool) → Returns (finish_cancel b id c) (λ r w. IsFailed id w)
  unfolding finish_cancel
  finish_cancel-IsFailed id false = Returns-raise _ (http_exception 409)
  finish_cancel-IsFailed id true = record {
    value = λ w.
        Outcome-bind (IsMarked id) (λ r v. IsFailed id v) (λ v. Unit)
          (mark_job_failed b id "Cancelled by user") (λ x. show_again b id) w
          ((mark_job_failed-IsMarked id "Cancelled by user").value w)
          λ x v marked. elim marked [
            | inl h ↦
                Keeps-Outcome (show_again b id)
                  (λ d.
                    (job : EvaluationJob F)
                    → first (has_id id) d.evaluation_jobs ≡ some job
                    → job.status ≡ failed)
                  v (show_again-Keeps b id) h
            | inr h ↦ show_again-missing b id (λ r u. IsFailed id u) v h
          ];
  }

  cancel_job-IsFailed :
      (id : ℕ) (project : Project)
      → Returns (in_session (cancel_job b id project)) (λ r w. IsFailed id w)
  unfolding cancel_job
  cancel_job-IsFailed id project =
      Returns-in_session _ (λ r w. IsFailed id w) (λ r w h. h)
        (Returns-then _ _ _ λ found. Returns-then _ _ _ λ job.
          Returns-if (is_terminal job.status) _ _ _ (Returns-raise _ (http_exception 409))
            (Returns-then _ _ _ λ c. finish_cancel-IsFailed id c))

module _ {F D R V : Type 0} (b : Backend F D R V) (Up : R → Type 0) (redis : IsRedis b.redis)
    (json : IsJson b.json) (answers : IsUp b.redis Up)
    (accepts : (stored view : Database F D) → b.accepts stored view ≡ true) where
  -- After an accepted cancellation, which answers with the job, the worker still evaluates the
  -- job when its delivery arrives, under stores that answer and with no other process at work: it
  -- reports all the items as completed or failed, as if the job had not been cancelled, and stores
  -- a run for each completed one.
  pub cancel_job-process_evaluation_job :
      (evaluate : ConversationInput F → List ContextChunk → Result (PipelineResult F D))
      (id job_try max_retries : ℕ) (project : Project) (response : JobResponse)
      (job : EvaluationJob F) (w v : World F D R)
      → in_session (cancel_job b id project) w ≡ (ok response, v)
      → Up v.redis
      → first (has_id id) v.stored.evaluation_jobs ≡ some job
      → IsReport
          (count successes evaluate job.items)
          (count failures evaluate job.items)
          (length v.stored.evaluation_runs + count successes evaluate job.items)
          (process_evaluation_job b evaluate alone id job_try max_retries v)
  cancel_job-process_evaluation_job evaluate id job_try max_retries project response job w v e up
        found =
      let marked : job.status ≡ failed =
        subst (λ o. Outcome (λ r u. IsFailed b id u) (λ u. Unit) o) e
          ((cancel_job-IsFailed b id project).value w) job found in
      process_evaluation_job_finishes b Up redis json answers accepts evaluate id job_try
        max_retries v job up found (λ h. ground arith) (λ h. ground arith)
