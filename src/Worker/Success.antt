-- ===== src/Worker/Success.antt =====
-- A delivery whose stores all answer.
use llm_evaluation_pipeline.Prelude.{
  ℕ, ◌+◌, ◌≡◌, ◌≢◌, refl, ap, ◌∙◌, true, false, none, some, List, [], ◌∷◌, arith, first, length,
}
use llm_evaluation_pipeline.Models.{
  JobStatus, queued, running, completed, failed, cancelled, ContextChunk, ConversationInput,
  BatchEvaluationItem, EvaluationJob, Database,
}
use llm_evaluation_pipeline.Redis.{IsRedis, IsJson, job_state}
use llm_evaluation_pipeline.App.{Backend, World, Result, ok, ◌>>=◌, except, in_session}
use llm_evaluation_pipeline.App.Calls.{bind_ok, except_ok, query_ok, send_ok, commit_ok}
use llm_evaluation_pipeline.Jobs.{has_id, find_job, set_job_state, update_jobs, entry_of}
use llm_evaluation_pipeline.Worker.{
  PipelineResult, JobReport, finished, Batch, Shared, process_items, complete, start_running,
  start_at, start_found, on_error, interleave, empty_batch, process_evaluation_job,
}
use llm_evaluation_pipeline.Worker.Steady.{
  IsUp, IsSteady, successes, failures, count, held_set, is_cancelled_ok, process_item_ok,
}

module _ {F D R : Type 0} where
  -- the report, with the number of runs that are stored at the end
  abbrev pub IsReport : ℕ → ℕ → ℕ → Result JobReport × World F D R → Type 0
  IsReport c f n o = (o.0 ≡ ok (finished c f)) × (length o.1.stored.evaluation_runs ≡ n)

  recount :
      (c c' f f' n n' : ℕ) (o : Result JobReport × World F D R)
      → c ≡ c'
      → f ≡ f'
      → n ≡ n'
      → IsReport c f n o
      → IsReport c' f' n' o
  recount c c' f f' n n' o p q e h = rw (← p, ← q, ← e) h

-- no other process changes anything
abbrev pub alone : {F D R : Type 0} → ℕ → Shared F D R → Shared F D R
alone i s = s

module _ {F D R V : Type 0} (b : Backend F D R V) (Up : R → Type 0) where
  module _ (redis : IsRedis b.redis) (json : IsJson b.json) (answers : IsUp b.redis Up)
      (accepts : (stored view : Database F D) → b.accepts stored view ≡ true) where
    complete_ok :
        (job : EvaluationJob F) (n : ℕ) (acc : Batch) (w : World F D R)
        → IsSteady b Up job.id n w
        → IsReport acc.completed acc.failed n (complete b job acc w)
    unfolding complete set_job_state
    complete_ok job n acc w s =
        let changed : World F D R = record w {
          view =
              update_jobs job.id
                (λ j. record j {
                  status = completed;
                  completed_at = some w.clock;
                  batch_results = some acc.results;
                })
                w.view;
        } in
        let entry : V = b.json.dumps_state (record {
          state = completed;
          completed = some acc.completed;
          failed = some acc.failed;
          error = none;
        }) in
        let (t, (set, up)) = answers.set_answers (job_state job.id) entry w.redis s.up in
        let done : complete b job acc w ≡ (
          ok (finished acc.completed acc.failed),
          record changed { stored = changed.view; redis = t },
        ) =
          bind_ok _ _ refl (
            bind_ok _ _ refl (
              bind_ok _ _ (commit_ok b changed (accepts _ _) s.sound)
                (bind_ok _ _ (send_ok _ set) refl))) in
        (
          ap (λ o. o.0) done,
          ap (λ o. length o.1.stored.evaluation_runs) done
              ∙ (ap (λ db. length db.evaluation_runs) s.committed ∙ s.runs),
        )

    process_items_ok :
        (evaluate : ConversationInput F → List ContextChunk → Result (PipelineResult F D))
        (job : EvaluationJob F) (i n : ℕ) (items : List (BatchEvaluationItem F)) (acc : Batch)
        (w : World F D R)
        → IsSteady b Up job.id n w
        → IsReport
            (acc.completed + count successes evaluate items)
            (acc.failed + count failures evaluate items)
            (n + count successes evaluate items)
            (process_items b evaluate alone job i items acc w)
    unfolding process_items interleave
    process_items_ok evaluate job i n [] acc w s =
        recount {R = R} _ _ _ _ _ _ (complete b job acc w) (omega arith) (omega arith) (omega arith)
          (complete_ok job n acc w s)
    process_items_ok evaluate job i n (item ∷ items) acc w s =
        let opened : World F D R = record w { view = w.stored } in
        let ready : IsSteady b Up job.id n opened = record {
          committed = refl;
          sound = s.sound;
          up = s.up;
          runs = s.runs;
          raw = s.raw;
          held = s.held;
          read = s.read;
        } in
        let (acc', (v, (made, (c, (f, next))))) =
          process_item_ok b Up redis json answers accepts evaluate job i n item acc opened ready in
        let goes : process_items b evaluate alone job i (item ∷ items) acc w
            ≡ process_items b evaluate alone job (i + 1) items acc' v =
          bind_ok _ _ refl (
            bind_ok _ _ (is_cancelled_ok b Up redis json answers accepts job.id n opened ready)
              (bind_ok _ _ made refl)) in
        rw goes (
          recount {R = R} _ _ _ _ _ _ (process_items b evaluate alone job (i + 1) items acc' v)
            (omega (arith, c)) (omega (arith, f)) (omega arith)
            (process_items_ok evaluate job (i + 1) _ items acc' v next))

    start_running_ok :
        (evaluate : ConversationInput F → List ContextChunk → Result (PipelineResult F D))
        (job : EvaluationJob F) (w : World F D R)
        → w.view ≡ w.stored
        → w.broken ≡ false
        → Up w.redis
        → IsReport
            (count successes evaluate job.items)
            (count failures evaluate job.items)
            (length w.stored.evaluation_runs + count successes evaluate job.items)
            (start_running b evaluate alone job w)
    unfolding start_running set_job_state
    start_running_ok evaluate job w committed sound up =
        let changed : World F D R = record w {
          view =
              update_jobs job.id (λ j. record j { status = running; started_at = some w.clock })
                w.view;
        } in
        let entry : V = b.json.dumps_state (entry_of running) in
        let (t, (set, up')) = answers.set_answers (job_state job.id) entry w.redis up in
        let started : World F D R = record changed { stored = changed.view; redis = t } in
        let ready : IsSteady b Up job.id (length w.stored.evaluation_runs) started = record {
          committed = refl;
          sound = sound;
          up = up';
          runs = ap (λ db. length db.evaluation_runs) committed;
          raw = entry;
          held = held_set b Up redis json answers accepts job.id entry w.redis t up' set;
          read = json.loads-dumps_state (entry_of running);
        } in
        let goes : start_running b evaluate alone job w
            ≡ process_items b evaluate alone job 0 job.items empty_batch started =
          bind_ok _ _ refl (
            bind_ok _ _ refl (
              bind_ok _ _ (commit_ok b changed (accepts _ _) sound)
                (bind_ok _ _ (send_ok _ set) refl))) in
        rw goes (
          recount {R = R} _ _ _ _ _ _
            (process_items b evaluate alone job 0 job.items empty_batch started) (omega arith)
            (omega arith) refl
            (process_items_ok evaluate job 0 _ job.items empty_batch started ready))

    start_at_ok :
        (evaluate : ConversationInput F → List ContextChunk → Result (PipelineResult F D))
        (s : JobStatus) (job : EvaluationJob F)
        → s ≢ completed
        → s ≢ cancelled
        → start_at b evaluate alone s job ≡ start_running b evaluate alone job
    unfolding start_at
    start_at_ok evaluate completed job p q = elim (p refl) [ ]
    start_at_ok evaluate cancelled job p q = elim (q refl) [ ]
    start_at_ok evaluate queued job p q = refl
    start_at_ok evaluate running job p q = refl
    start_at_ok evaluate failed job p q = refl

    -- A delivery of a job whose row is neither completed nor cancelled, with a database that takes
    -- every change, a Redis server that answers every call, and no other process at work, finishes:
    -- it reports as completed the number of items for which the evaluator returns a result and as
    -- failed the number of those on which it raises, and exactly one run for each completed item is
    -- added to what is stored, so that an item that fails loses no other item's run.
    pub process_evaluation_job_finishes :
        (evaluate : ConversationInput F → List ContextChunk → Result (PipelineResult F D))
        (id job_try max_retries : ℕ) (w : World F D R) (job : EvaluationJob F)
        → Up w.redis
        → first (has_id id) w.stored.evaluation_jobs ≡ some job
        → job.status ≢ completed
        → job.status ≢ cancelled
        → IsReport
            (count successes evaluate job.items)
            (count failures evaluate job.items)
            (length w.stored.evaluation_runs + count successes evaluate job.items)
            (process_evaluation_job b evaluate alone id job_try max_retries w)
    unfolding process_evaluation_job in_session find_job start_found
    process_evaluation_job_finishes evaluate id job_try max_retries w job up found p q =
        let opened : World F D R = record w { view = w.stored; broken = false } in
        let report = start_running_ok evaluate job opened refl refl up in
        let tried : except (find_job id >>= start_found b evaluate alone)
              (on_error b id job_try max_retries) opened
            ≡ (
              ok (
                  finished (count successes evaluate job.items)
                    (count failures evaluate job.items)),
              (start_running b evaluate alone job opened).1,
            ) =
          except_ok _ _ (
            bind_ok _ _ (query_ok _ opened refl) (
              ap (λ o. start_found b evaluate alone o opened) found
              ∙ (ap (λ m. m opened) (start_at_ok evaluate job.status job p q)
                  ∙ ap (λ r. (r, (start_running b evaluate alone job opened).1)) report.0))) in
        (ap (λ o. o.0) tried, ap (λ o. length o.1.stored.evaluation_runs) tried ∙ report.1)
